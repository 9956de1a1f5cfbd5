-- ===== src/Settlement/Discrete.antt =====
-- `computeTcSettlement` on a discrete survey: which options win, and what their backers get.
use polis_game.Base.{
  ℕ, suc, ◌+◌, ◌*◌, ◌/◌, ◌%◌, ◌≤◌, ◌<◌, ◌≡◌, refl, ap, ◌∙◌, inl, inr, String, false, List, [], ◌∷◌,
  map, length, All, eqb, arith, Bool-cases, eqb_iff, All-append,
}
use native.Mathlib.Nat.{lt-mul-div-succ, mul-le-mul_right, lt_of_mul-lt-mul_left}
use polis_game.Base.Int.{ℤ}
use polis_game.Settlement.{
  BetRow, WinnerPayout, Groups, discrete, total_lp, lp_by_option, max_lp, options_at,
  winner_options, pay_group, pay_groups, distribute_pool, group_of, effective_pool,
  compute_tc_settlement,
}
use polis_game.Settlement.Tables.{
  Table, Table-same, after, after_lem, lp_by_option-Table, stake_on, sum_lp, sum_lp-lp_by_option,
}

-- A stake is a number of tenths.
abbrev pub IsWholeLp : BetRow → Type 0
IsWholeLp b = b.lp_amount % 10 ≡ 0

abbrev Gains : WinnerPayout → Type 0
Gains w = w.lp_amount ≤ w.payout

share_ge : (pool lp d : ℕ) → 0 < d → d ≤ pool → lp ≤ pool * lp / d
share_ge pool lp d p h =
    let below : d * lp < d * (1 + pool * lp / d) =
      grind (arith, lt-mul-div-succ (pool * lp) p, mul-le-mul_right lp h) in
    omega (arith, lt_of_mul-lt-mul_left d below)

pay_group-Gains :
    (pool groups total : ℕ) (bets : List BetRow)
    → 0 < 100 * groups * total
    → 100 * groups * total ≤ pool
    → All Gains (pay_group pool groups total bets)
unfolding pay_group
pay_group-Gains pool groups total [] p h = tt
pay_group-Gains pool groups total (b ∷ bs) p h =
    (share_ge pool b.lp_amount (100 * groups * total) p h, pay_group-Gains pool groups total bs p h)

-- When each group's stakes, times the number of groups, fit in the pool, nobody in them loses.
pay_groups-Gains :
    (pool groups : ℕ) (gs : Groups)
    → 0 < groups
    → All (λ g. 100 * groups * total_lp g.1 ≤ pool) gs
    → All Gains (pay_groups pool groups gs)
unfolding pay_groups
pay_groups-Gains pool groups [] p h = tt
pay_groups-Gains pool groups ((o, bets) ∷ gs) p h = elim (Bool-cases (eqb (total_lp bets) 0)) [
  | inl none_bet ↦ rw none_bet (pay_groups-Gains pool groups gs p h.1)
  | inr some_bet ↦ rw some_bet (
      All-append Gains (pay_group pool groups (total_lp bets) bets) (pay_groups pool groups gs)
        (pay_group-Gains pool groups (total_lp bets) bets (grind (arith, some_bet, p)) h.0)
        (pay_groups-Gains pool groups gs p h.1))
]

tops-le-sum : (top : ℕ) (m : List (String × ℕ)) → top * length (options_at top m) ≤ sum_lp m
tops-le-sum top [] = omega arith
tops-le-sum top ((o, n) ∷ m) = elim (Bool-cases (eqb n top)) [
  | inl at_top ↦ rw at_top (grind (arith, eqb_iff, at_top, tops-le-sum top m))
  | inr below ↦ rw below (omega (arith, tops-le-sum top m))
]

length-map-group :
    (bets : List BetRow) (os : List String) → length (map (group_of bets) os) ≡ length os
length-map-group bets [] = refl
length-map-group bets (o ∷ os) = ap suc (length-map-group bets os)

tops-All :
    (bets : List BetRow) (pool k top : ℕ) (m : List (String × ℕ))
    → Table (λ o. stake_on o bets) m
    → k * top ≤ pool
    → All (λ g. k * total_lp g.1 ≤ pool) (map (group_of bets) (options_at top m))
tops-All bets pool k top [] t h = tt
tops-All bets pool k top ((o, n) ∷ m) t h = elim (Bool-cases (eqb n top)) [
  | inl at_top ↦
      rw at_top (grind (arith, eqb_iff, at_top, t.0, h), tops-All bets pool k top m t.2 h)
  | inr below ↦ rw below (tops-All bets pool k top m t.2 h)
]

own_groups-Gains :
    (gs : Groups) (pool : ℕ)
    → All (λ g. 100 * length gs * total_lp g.1 ≤ pool) gs
    → All Gains (distribute_pool gs pool).winners
unfolding distribute_pool
own_groups-Gains [] pool h = tt
own_groups-Gains (g ∷ gs) pool h = pay_groups-Gains pool (length (g ∷ gs)) (g ∷ gs) (omega arith) h

-- In a discrete survey with the 5% bonus, no winner gets less than the stake of that bet, ties and
-- rounding included.
pub discrete_winners_gain :
    (parse : String → ℤ) (bets : List BetRow)
    → All (λ w. w.lp_amount ≤ w.payout) (compute_tc_settlement parse discrete bets false).winners
unfolding compute_tc_settlement winner_options
discrete_winners_gain parse [] = tt
discrete_winners_gain parse (b ∷ bs) =
    let bets = b ∷ bs in
    let m = lp_by_option [] bets in
    let top = max_lp m in
    let options = options_at top m in
    let gs = map (group_of bets) options in
    let pool = effective_pool gs bets false in
    let t =
      Table-same (after (λ _. 0) bets) (λ o. stake_on o bets) m
        (λ o. after_lem (λ _. 0) bets o ∙ omega arith)
        (lp_by_option-Table (λ _. 0) [] bets (λ _. inr refl) tt) in
    let enough : 100 * total_lp bets ≤ pool = ground arith in
    let fits : 100 * length gs * top ≤ pool =
      rw (length-map-group bets options)
        (omega (arith, enough, tops-le-sum top m, sum_lp-lp_by_option [] bets)) in
    own_groups-Gains gs pool (tops-All bets pool (100 * length gs) top m t fits)
