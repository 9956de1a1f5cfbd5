-- ===== src/Tc/Rewards.antt =====
-- What a settlement pays: the reward loop of `settleTc` and the pool behind it.
use polis_game.Base.{
  ℕ, suc, ◌+◌, ◌*◌, ◌≤◌, ◌≡◌, refl, ◌∙◌, sym, String, ◌==◌, Bool, true, false, some, List, [], ◌∷◌,
  arith, ltb, ltb_iff, if◌then◌else◌, Bool-cases, inl, inr, map,
}
use polis_game.Base.Int.{ℤ, pos, ◌+ℤ◌, int_laws}
use polis_game.Lp.{LpDb}
use polis_game.Lp.Accounts.{cid, balance_in, grant_pt}
use polis_game.Lp.Books.{Books, grant_pt-Books}
use polis_game.Settlement.{
  BetRow, WinnerPayout, OptionType, discrete, continuous, total_lp, total_payout,
  compute_tc_settlement, winner_options, group_of, group_bets, closest_bets, settled_point,
  effective_pool,
}
use polis_game.Settlement.Pool.{distribute_pool_exact}
use polis_game.Bets.Refunds.{all_work, cid-grant}
use polis_game.Tc.Flow.{reward_winners}

abbrev pub won : (String → String) → String → List WinnerPayout → ℕ
won canonical j [] = 0
won canonical j (w ∷ ws) =
    if canonical w.user_open_id == j then w.payout + won canonical j ws else won canonical j ws

won_first :
    (a b : ℤ) (n rest : ℕ) (own : Bool)
    → b ≡ (if own then a +ℤ pos n else a)
    → b +ℤ pos rest ≡ a +ℤ pos (if own then n + rest else rest)
won_first a b n rest true h = grind (int_laws, h)
won_first a b n rest false h = grind (int_laws, h)

won_nothing : (n rest : ℕ) (own : Bool) → ltb 0 n ≡ false → rest ≡ (if own then n + rest else rest)
won_nothing n rest true h = grind (arith, ltb_iff, h)
won_nothing n rest false h = refl

-- When the books agree and no call of the loop throws, the loop runs to its end, the books still agree, and
-- each account gets the sum of the payouts of its bets, whichever of its identities placed them.
pub reward_winners_pay :
    (reason top : String) (n : ℕ) (lp : LpDb) (ws : List WinnerPayout)
    → Books lp
    → let r = reward_winners (λ _. all_work) reason top n lp ws in
      (r.1 ≡ true)
      × Books r.0
      × ((j : String)
          → balance_in j r.0.profiles ≡ balance_in j lp.profiles +ℤ pos (won (cid lp) j ws))
unfolding reward_winners
reward_winners_pay reason top n lp [] b = (refl, b, λ j. grind int_laws)
reward_winners_pay reason top n lp (w ∷ ws) b =
    let lp1 = (grant_pt lp w.user_open_id (pos w.payout) reason (some top)).0 in
    let g = grant_pt-Books lp w.user_open_id reason (pos w.payout) (some top) b in
    elim (Bool-cases (ltb 0 w.payout)) [
      | inl some_lp ↦ rw some_lp (
          let ih = reward_winners_pay reason top (suc n) lp1 ws g.0 in
          (
            ih.0,
            ih.1,
            λ j.
                ih.2 j
                ∙ rw (cid-grant lp w.user_open_id reason (pos w.payout) (some top)) (
                    won_first (balance_in j lp.profiles) (balance_in j lp1.profiles) w.payout
                      (won (cid lp) j ws) (cid lp w.user_open_id == j) (g.2 j)),
          ))
      | inr no_lp ↦ rw no_lp (
          let ih = reward_winners_pay reason top (suc n) lp ws b in
          (
            ih.0,
            ih.1,
            λ j.
                rw
                  (sym
                    (won_nothing w.payout (won (cid lp) j ws) (cid lp w.user_open_id == j) no_lp))
                  (ih.2 j),
          ))
    ]

effective_pool-le :
    (gs : List (String × List BetRow)) (bets : List BetRow) (no_bonus : Bool)
    → effective_pool gs bets no_bonus ≤ 105 * total_lp bets
effective_pool-le gs bets no_bonus = ground arith

-- Payouts and dust of a settlement make up its pool exactly, and the pool is at most 1.05 times what
-- was staked, for each kind of survey, with no bets too.
pub compute_tc_settlement_exact :
    (parse : String → ℤ) (t : OptionType) (bets : List BetRow) (no_bonus : Bool)
    → let r = compute_tc_settlement parse t bets no_bonus in
      (100 * total_payout r.winners + r.dust ≡ r.total_pool) × (r.total_pool ≤ 105 * total_lp bets)
unfolding compute_tc_settlement
compute_tc_settlement_exact parse discrete [] no_bonus = (omega arith, omega arith)
compute_tc_settlement_exact parse continuous [] no_bonus = (omega arith, omega arith)
compute_tc_settlement_exact parse continuous (b ∷ bs) no_bonus =
    let gs = group_bets [] (closest_bets parse (settled_point parse (b ∷ bs)) b bs) in
    (
      distribute_pool_exact gs (effective_pool gs (b ∷ bs) no_bonus),
      effective_pool-le gs (b ∷ bs) no_bonus,
    )
compute_tc_settlement_exact parse discrete (b ∷ bs) no_bonus =
    let gs = map (group_of (b ∷ bs)) (winner_options (b ∷ bs)) in
    (
      distribute_pool_exact gs (effective_pool gs (b ∷ bs) no_bonus),
      effective_pool-le gs (b ∷ bs) no_bonus,
    )
