-- ===== src/Examples/Settlement.antt =====
-- The settlement arithmetic of core/tc-settlement.ts, on three bets.
use polis_game.Base.{
  ◌+◌, ◌*◌, ◌≤◌, ◌≡◌, refl, String, ◌==◌, false, List, [], ◌∷◌, All, length, arith, if◌then◌else◌,
}
use polis_game.Base.Int.{ℤ, pos}
use polis_game.Settlement.{
  BetRow, discrete, total_payout, group_of, distribute_pool, compute_tc_settlement,
}
use polis_game.Settlement.Pool.{distribute_pool_exact, distribute_pool_dust}
use polis_game.Settlement.Discrete.{discrete_winners_gain}

abbrev ann : BetRow
ann = record { user_open_id = "ou_ann"; option_value = "A"; lp_amount = 30 }

abbrev bob : BetRow
bob = record { user_open_id = "ou_bob"; option_value = "A"; lp_amount = 40 }

abbrev cyd : BetRow
cyd = record { user_open_id = "ou_cyd"; option_value = "B"; lp_amount = 50 }

abbrev three_bets : List BetRow
three_bets = ann ∷ bob ∷ cyd ∷ []

abbrev value_of : String → ℤ
value_of s = if s == "A" then pos 100000 else pos 200000

-- The 12 LP of the three bets, with the bonus, go to the 7 LP on A: 5.4 LP and 7.2 LP.
distribution_example : (distribute_pool (group_of three_bets "A" ∷ []) 12600).dust ≡ 0
unfolding distribute_pool
distribution_example = refl

distribute_pool_exact_example :
    let d = distribute_pool (group_of three_bets "A" ∷ []) 12600 in
    100 * total_payout d.winners + d.dust ≡ 12600
distribute_pool_exact_example = distribute_pool_exact (group_of three_bets "A" ∷ []) 12600

distribute_pool_dust_example :
    let d = distribute_pool (group_of three_bets "A" ∷ []) 12600 in d.dust ≤ 100 * length d.winners
distribute_pool_dust_example =
    distribute_pool_dust (group_of three_bets "A") [] 12600 (omega arith, tt)

discrete_winners_gain_example :
    All
      (λ w. w.lp_amount ≤ w.payout)
      (compute_tc_settlement value_of discrete three_bets false).winners
discrete_winners_gain_example = discrete_winners_gain value_of three_bets
