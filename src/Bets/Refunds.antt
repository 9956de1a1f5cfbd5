-- ===== src/Bets/Refunds.antt =====
-- The refund loop of `cancelTcWithRefund` (core/tc-command.ts) and `cancelPredictWithRefund`
-- (core/predict-command.ts), which differ only in the reason they book.
use polis_game.Base.{
  ℕ, suc, ◌+◌, ◌≡◌, refl, ◌∙◌, ◌⊎◌, inl, inr, String, ◌==◌, Bool, true, false, not, ◌&&◌, Option,
  some, List, [], ◌∷◌, keep, any, All, eqb, eqb_iff, arith, Bool-cases, if◌then◌else◌,
}
use polis_game.Base.Int.{ℤ, pos, ◌+ℤ◌, int_laws}
use polis_game.Base.Rows.{update}
use polis_game.Lp.{LpDb}
use polis_game.Lp.Accounts.{cid, balance_in, grant_pt, upsert_profile_raw, ledger_raw}
use polis_game.Lp.Books.{Books, grant_pt-Books}
use polis_game.Bets.{Bet, BetTable, get_unrefunded_bets, is_open, mark_bet_refunded}

pub record Refunded : Type 0 where
  pub table : BetTable
  pub lp : LpDb
  pub refunded : ℕ
  pub refunded_lp : ℕ

-- How the two calls on one item of a loop go: the second is made where the first does not throw.
pub data Calls : Type 0 where
  all_work first_throws second_throws : Calls

abbrev pub first_works : Calls → Bool
first_works all_work = true
first_works first_throws = false
first_works second_throws = true

abbrev pub both_work : Calls → Bool
both_work all_work = true
both_work first_throws = false
both_work second_throws = false

-- `calls` says for a bet how its mark and its grant go: an error is logged and the loop goes on. What
-- `markBetRefunded` returns is not looked at.
unfoldable pub refund_bets :
    (ℕ → Calls) → (reason top_message_id : String) → BetTable → LpDb → List Bet → Refunded
refund_bets calls reason top_message_id t lp [] = record {
  table = t;
  lp = lp;
  refunded = 0;
  refunded_lp = 0;
}
refund_bets calls reason top_message_id t lp (bet ∷ pending) =
    let t1 = if first_works (calls bet.id) then (mark_bet_refunded t bet.id).0 else t in
    let lp1 =
      if both_work (calls bet.id)
      then (grant_pt lp bet.user_open_id (pos bet.lp_amount) reason (some top_message_id)).0
      else lp in
    let rest = refund_bets calls reason top_message_id t1 lp1 pending in
    if both_work (calls bet.id)
    then record rest {
      refunded = suc rest.refunded;
      refunded_lp = bet.lp_amount + rest.refunded_lp;
    }
    else rest

-- What the account `j` is owed for the bets whose calls go through.
abbrev pub owed : (String → String) → (ℕ → Calls) → String → List Bet → ℕ
owed canonical calls j [] = 0
owed canonical calls j (b ∷ bs) =
    let rest = owed canonical calls j bs in
    if both_work (calls b.id)
    then (if canonical b.user_open_id == j then b.lp_amount + rest else rest)
    else rest

pub cid-grant :
    (lp : LpDb) (open_id reason : String) (delta : ℤ) (ref : Option String)
    → cid (grant_pt lp open_id delta reason ref).0 ≡ cid lp
unfolding grant_pt upsert_profile_raw ledger_raw
cid-grant lp open_id reason delta ref = refl

paid_first :
    (a b : ℤ) (n rest : ℕ) (own : Bool)
    → b ≡ (if own then a +ℤ pos n else a)
    → b +ℤ pos rest ≡ a +ℤ pos (if own then n + rest else rest)
paid_first a b n rest true h = grind (int_laws, h)
paid_first a b n rest false h = grind (int_laws, h)

-- On books that agree, the loop pays each bet of the list to the account that placed it, whether or
-- not the bet was refunded before, except where the mark or the grant throws, and moves no other
-- balance. The
-- books still agree.
pub refund_bets-Books :
    (calls : ℕ → Calls) (reason top : String) (t : BetTable) (lp : LpDb) (pending : List Bet)
    → Books lp
    → let r = refund_bets calls reason top t lp pending in
      Books r.lp
      × ((j : String)
          → balance_in j r.lp.profiles
            ≡ balance_in j lp.profiles +ℤ pos (owed (cid lp) calls j pending))
unfolding refund_bets
refund_bets-Books calls reason top t lp [] b = (b, λ j. grind int_laws)
refund_bets-Books calls reason top t lp (bet ∷ pending) b =
    let t1 = if first_works (calls bet.id) then (mark_bet_refunded t bet.id).0 else t in
    let lp1 = (grant_pt lp bet.user_open_id (pos bet.lp_amount) reason (some top)).0 in
    let g = grant_pt-Books lp bet.user_open_id reason (pos bet.lp_amount) (some top) b in
    elim (Bool-cases (both_work (calls bet.id))) [
      | inl up ↦ rw up (
          let ih = refund_bets-Books calls reason top t1 lp1 pending g.0 in
          (
            ih.0,
            λ j.
                ih.1 j
                ∙ rw (cid-grant lp bet.user_open_id reason (pos bet.lp_amount) (some top)) (
                    paid_first (balance_in j lp.profiles) (balance_in j lp1.profiles) bet.lp_amount
                      (owed (cid lp) calls j pending) (cid lp bet.user_open_id == j) (g.2 j)),
          ))
      | inr down ↦ rw down (refund_bets-Books calls reason top t1 lp pending b)
    ]

-- Every row that is open stands in the list.
abbrev Covered : ℕ → List Bet → List Bet → Type 0
Covered pid pending = All (λ r. (is_open pid r ≡ false) ⊎ (any (λ b. eqb b.id r.id) pending ≡ true))

Covered-mark :
    (pid : ℕ) (bet : Bet) (pending rows : List Bet)
    → Covered pid (bet ∷ pending) rows
    → Covered pid pending (
        update
          (λ b. eqb b.id bet.id && not b.is_refunded)
          (λ b. record b { is_refunded = true })
          rows)
Covered-mark pid bet pending [] c = tt
Covered-mark pid bet pending (r ∷ rows) c =
    (grind (arith, eqb_iff, c.0), Covered-mark pid bet pending rows c.1)

Covered-none : (pid : ℕ) (rows : List Bet) → Covered pid [] rows → keep (is_open pid) rows ≡ []
Covered-none pid [] c = refl
Covered-none pid (r ∷ rows) c = grind (arith, c.0, Covered-none pid rows c.1)

refund_bets-Covered :
    (calls : ℕ → Calls) (reason top : String) (t : BetTable) (lp : LpDb) (pid : ℕ)
    (pending : List Bet)
    → ((id : ℕ) → first_works (calls id) ≡ true)
    → Covered pid pending t.rows
    → get_unrefunded_bets (refund_bets calls reason top t lp pending).table pid ≡ []
unfolding refund_bets mark_bet_refunded get_unrefunded_bets
refund_bets-Covered calls reason top t lp pid [] m c = Covered-none pid t.rows c
refund_bets-Covered calls reason top t lp pid (bet ∷ pending) m c =
    let t1 = (mark_bet_refunded t bet.id).0 in
    let lp1 = (grant_pt lp bet.user_open_id (pos bet.lp_amount) reason (some top)).0 in
    let marked = Covered-mark pid bet pending t.rows c in
    elim (Bool-cases (both_work (calls bet.id))) [
      | inl up ↦
          rw (m bet.id, up) (refund_bets-Covered calls reason top t1 lp1 pid pending m marked)
      | inr down ↦
          rw (m bet.id, down) (refund_bets-Covered calls reason top t1 lp pid pending m marked)
    ]

Covered-mono :
    (pid : ℕ) (xs ys rows : List Bet)
    → ((id : ℕ) → any (λ b. eqb b.id id) xs ≡ true → any (λ b. eqb b.id id) ys ≡ true)
    → Covered pid xs rows
    → Covered pid ys rows
Covered-mono pid xs ys [] h c = tt
Covered-mono pid xs ys (r ∷ rows) h c =
    (grind (arith, h r.id, c.0), Covered-mono pid xs ys rows h c.1)

Covered-self : (pid : ℕ) (rows : List Bet) → Covered pid (keep (is_open pid) rows) rows
Covered-self pid [] = tt
Covered-self pid (r ∷ rows) = (
  ground arith,
  Covered-mono pid (keep (is_open pid) rows) (keep (is_open pid) (r ∷ rows)) rows
      (λ id h. ground (arith, h)) (Covered-self pid rows),
)

-- Where no mark throws, the loop over the open bets of a proposal leaves none open, also where a
-- grant failed.
pub refund_bets_leave_none :
    (calls : ℕ → Calls) (reason top : String) (t : BetTable) (lp : LpDb) (pid : ℕ)
    → ((id : ℕ) → first_works (calls id) ≡ true)
    → get_unrefunded_bets (refund_bets calls reason top t lp (get_unrefunded_bets t pid)).table pid
      ≡ []
unfolding get_unrefunded_bets
refund_bets_leave_none calls reason top t lp pid m =
    refund_bets-Covered calls reason top t lp pid (keep (is_open pid) t.rows) m
      (Covered-self pid t.rows)
