-- ===== src/Tc/Placing.antt =====
-- What `tryParseTcBet` and `tryParsePredictBet` do, for each reply.
use polis_game.Base.{
  ℕ, ◌+◌, ◌≤◌, ◌≡◌, refl, ap, ◌∙◌, String, ◌==◌, eq_refl, Bool, true, false, some, arith, ltb,
  ltb_iff, eqb_iff, Bool-cases, inl, inr, if◌then◌else◌,
}
use polis_game.Base.Int.{ℤ, pos, ◌+ℤ◌, ◌-ℤ◌, ltb_ℤ, int_laws}
use polis_game.Lp.{LpDb}
use polis_game.Lp.Accounts.{cid, resolve, balance_in, balance_or_zero, get_profile, spend_pt}
use polis_game.Lp.Books.{Books, grant_pt-Books}
use polis_game.Lp.FirstContact.{gift}
use polis_game.Lp.Spending.{spend_pt-Spent}
use polis_game.Bets.{BetInput, BetTable, insert_bet, get_user_total_bet_lp}
use polis_game.Bets.Totals.{get_user_total-insert_bet}
use polis_game.Tc.Betting.{
  PoolCall, works, unavailable, fails, Faults, BetReply, not_a_bet, invalid_option, out_of_range,
  below_minimum, above_limit, insufficient_balance, pool_unavailable, thrown, raced, rolled_back,
  lost, placed, checked_balance, record_bet, place_bet,
}

-- No balance moved but the sender's, which `change` tells.
abbrev pub OnlySender : LpDb → LpDb → String → (ℤ → ℤ) → Type 0
OnlySender lp lp' id change =
    (j : String)
    → balance_in j lp'.profiles
      ≡ (if id == j then change (balance_in j lp.profiles) else balance_in j lp.profiles)

-- For each reply, what became of the bets and the balances. A bet is recorded exactly if its stake was
-- taken, except for `lost`, where the stake is gone; every error reply before that leaves both
-- databases alone, but for the welcome grant of a new account.
abbrev pub Outcome :
    BetTable
    → (now : ℕ) → LpDb
    → (min_bet_lp max_bet_lp already : ℕ) → BetInput
    → BetReply
    → BetTable
    → LpDb
    → Type 0
Outcome bets now lp low high already input reply bets' lp' =
    let id = cid lp input.user_open_id in
    let welcomed = λ (b : ℤ). b +ℤ gift lp id in
    let debited = λ (b : ℤ). b +ℤ gift lp id -ℤ pos input.lp_amount in
    elim reply [
      | placed total ↦
          (bets' ≡ (insert_bet bets now input).0)
          × OnlySender lp lp' id debited
          × (total ≡ already + input.lp_amount)
          × (total ≤ high)
          × (low ≤ input.lp_amount)
      | lost ↦ (bets' ≡ bets) × OnlySender lp lp' id debited
      | rolled_back ↦ (bets' ≡ bets) × OnlySender lp lp' id welcomed
      | raced ↦ (bets' ≡ bets) × OnlySender lp lp' id welcomed
      | above_limit remaining ↦ (bets' ≡ bets) × (lp' ≡ lp)
      | _ ↦ (bets' ≡ bets) × (lp' ≡ lp)
    ]

restored :
    (own : Bool) (a b c amount : ℤ)
    → b ≡ (if own then a -ℤ amount else c)
    → (if own then b +ℤ amount else b) ≡ (if own then a else c)
restored true a b c amount h = grind (int_laws, h)
restored false a b c amount h = h

record_bet-Outcome :
    (faults : Faults) (bets : BetTable) (now : ℕ) (lp : LpDb) (reason rollback : String)
    (low high already : ℕ) (input : BetInput)
    → Books lp
    → low ≤ input.lp_amount
    → already + input.lp_amount ≤ high
    → let r = record_bet faults bets now lp reason rollback already input in
      Books r.1.0 × Outcome bets now lp low high already input r.1.1 r.0 r.1.0
unfolding record_bet
record_bet-Outcome faults bets now lp reason rollback low high already input b l h =
    let id = cid lp input.user_open_id in
    let r = spend_pt lp input.user_open_id (pos input.lp_amount) reason (some input.message_id) in
    let s =
      spend_pt-Spent lp input.user_open_id reason (pos input.lp_amount) (some input.message_id) b in
    let g =
      grant_pt-Books r.0 input.user_open_id rollback (pos input.lp_amount) (some input.message_id)
        s.books in
    let same : cid r.0 input.user_open_id ≡ id =
      ap (λ links. resolve links input.user_open_id) s.links in
    elim (Bool-cases r.1) [
      | inr unpaid ↦ rw unpaid (s.books, (refl, λ j. s.balances j ∙ rw unpaid refl))
      | inl paid ↦ elim (Bool-cases faults.insert_fails) [
        | inr inserted ↦
            rw (paid, inserted) (s.books, (refl, (λ j. s.balances j ∙ rw paid refl), refl, h, l))
        | inl not_inserted ↦ elim (Bool-cases faults.rollback_fails) [
          | inl stuck ↦
              rw (paid, not_inserted, stuck) (s.books, (refl, λ j. s.balances j ∙ rw paid refl))
          | inr back ↦
              rw (paid, not_inserted, back)
                (
                  g.0,
                  (
                    refl,
                    λ j.
                        g.2 j
                        ∙ rw same (
                            restored (id == j) (balance_in j lp.profiles +ℤ gift lp id)
                              (balance_in j r.0.profiles) (balance_in j lp.profiles)
                              (pos input.lp_amount) (s.balances j ∙ rw paid refl)),
                  ),
                )
        ]
      ]
    ]

checked_balance-Outcome :
    (call : PoolCall) (short : Bool) (bets : BetTable) (now : ℕ) (lp : LpDb) (low high already : ℕ)
    (input : BetInput) (recorded : BetTable × (LpDb × BetReply))
    → Books lp
    → Books recorded.1.0
      × Outcome bets now lp low high already input recorded.1.1 recorded.0 recorded.1.0
    → let r = checked_balance call short bets lp recorded in
      Books r.1.0 × Outcome bets now lp low high already input r.1.1 r.0 r.1.0
checked_balance-Outcome unavailable short bets now lp low high already input recorded b o =
    (b, (refl, refl))
checked_balance-Outcome fails short bets now lp low high already input recorded b o =
    (b, (refl, refl))
checked_balance-Outcome works true bets now lp low high already input recorded b o =
    (b, (refl, refl))
checked_balance-Outcome works false bets now lp low high already input recorded b o = o

-- On books that agree, and with pre-checks that may have seen older data, placing a bet keeps the
-- books and ends as its reply says: a placed bet is recorded, is within both limits, and its stake
-- is taken from the sender alone; a lost race and a bet taken back record nothing and move no
-- balance but for the welcome grant; a bet whose taking back fails records nothing and costs the
-- stake; every other reply leaves both databases alone.
pub place_bet-Outcome :
    (faults : Faults) (seen_bets : BetTable) (seen_lp : LpDb) (bets : BetTable) (now : ℕ)
    (lp : LpDb) (reason rollback : String) (low high : ℕ) (input : BetInput)
    → Books lp
    → let r = place_bet faults seen_bets seen_lp bets now lp reason rollback low high input in
      let already = get_user_total_bet_lp seen_bets input.proposal_id input.user_open_id in
      Books r.1.0 × Outcome bets now lp low high already input r.1.1 r.0 r.1.0
unfolding place_bet
place_bet-Outcome faults seen_bets seen_lp bets now lp reason rollback low high input b =
    let already = get_user_total_bet_lp seen_bets input.proposal_id input.user_open_id in
    elim (Bool-cases (ltb input.lp_amount low)) [
      | inl small ↦ rw small (b, (refl, refl))
      | inr enough ↦ elim (Bool-cases (ltb high (already + input.lp_amount))) [
        | inl over ↦ rw (enough, over) (b, (refl, refl))
        | inr within ↦
            rw (enough, within)
              (checked_balance-Outcome faults.pool_call
                (ltb_ℤ (balance_or_zero (get_profile seen_lp input.user_open_id))
                  (pos input.lp_amount))
                bets now lp low high already input
                (record_bet faults bets now lp reason rollback already input) b
                (record_bet-Outcome faults bets now lp reason rollback low high already input b
                  (grind (arith, ltb_iff, enough)) (grind (arith, ltb_iff, within))))
      ]
    ]

total_of_placed :
    (bets : BetTable) (now : ℕ) (input : BetInput)
    → get_user_total_bet_lp (insert_bet bets now input).0 input.proposal_id input.user_open_id
      ≡ get_user_total_bet_lp bets input.proposal_id input.user_open_id + input.lp_amount
total_of_placed bets now input =
    get_user_total-insert_bet bets now input input.proposal_id input.user_open_id
    ∙ grind (arith, eqb_iff, eq_refl input.user_open_id)

within_limit :
    (bets : BetTable) (now : ℕ) (lp : LpDb) (low high : ℕ) (input : BetInput) (reply : BetReply)
    (bets' : BetTable) (lp' : LpDb)
    → let total = get_user_total_bet_lp bets input.proposal_id input.user_open_id in
      total ≤ high
      → Outcome bets now lp low high total input reply bets' lp'
      → get_user_total_bet_lp bets' input.proposal_id input.user_open_id ≤ high
within_limit bets now lp low high input (placed total) bets' lp' h o =
    rw (o.0, total_of_placed bets now input) (grind (arith, o))
within_limit bets now lp low high input not_a_bet bets' lp' h o = rw o.0 h
within_limit bets now lp low high input invalid_option bets' lp' h o = rw o.0 h
within_limit bets now lp low high input out_of_range bets' lp' h o = rw o.0 h
within_limit bets now lp low high input below_minimum bets' lp' h o = rw o.0 h
within_limit bets now lp low high input (above_limit remaining) bets' lp' h o = rw o.0 h
within_limit bets now lp low high input insufficient_balance bets' lp' h o = rw o.0 h
within_limit bets now lp low high input pool_unavailable bets' lp' h o = rw o.0 h
within_limit bets now lp low high input thrown bets' lp' h o = rw o.0 h
within_limit bets now lp low high input raced bets' lp' h o = rw o.0 h
within_limit bets now lp low high input rolled_back bets' lp' h o = rw o.0 h
within_limit bets now lp low high input lost bets' lp' h o = rw o.0 h

-- When the books agree, the total of the user is within the limit of the proposal and the bets that
-- the pre-checks saw are the current ones, the total is within the limit after the bet, too.
pub place_bet_within_limit :
    (faults : Faults) (seen_lp : LpDb) (bets : BetTable) (now : ℕ) (lp : LpDb)
    (reason rollback : String) (low high : ℕ) (input : BetInput)
    → Books lp
    → get_user_total_bet_lp bets input.proposal_id input.user_open_id ≤ high
    → get_user_total_bet_lp
        (place_bet faults bets seen_lp bets now lp reason rollback low high input).0
        input.proposal_id
        input.user_open_id
      ≤ high
place_bet_within_limit faults seen_lp bets now lp reason rollback low high input b h =
    let r = place_bet faults bets seen_lp bets now lp reason rollback low high input in
    let o =
      (place_bet-Outcome faults bets seen_lp bets now lp reason rollback low high input b).1 in
    within_limit bets now lp low high input r.1.1 r.0 r.1.0 h o
