-- ===== src/Settlement/Pool.antt =====
-- The shares of a pool: `distributePool` never pays out more than the pool, loses little of it to
-- rounding, and pays each winner the exact share cut down to a tenth.
use polis_game.Base.{
  ℕ, suc, ◌+◌, ◌*◌, ◌-◌, ◌≤◌, ◌<◌, ◌≡◌, refl, ap, inl, inr, String, List, [], ◌∷◌, ◌++◌, length,
  length-append, All, eqb, arith, Bool-cases,
}
use native.Mathlib.Nat.{mul-div-le, le_of_mul-le-mul_left, lt-mul-div-succ, lt_of_mul-lt-mul_left}
use polis_game.Settlement.{
  BetRow, WinnerPayout, Groups, total_lp, total_payout, pay_group, pay_groups, distribute_pool,
}

-- The divisor of a group's shares, `d`, times what the group is paid.
pay_group-le :
    (pool groups total : ℕ) (bets : List BetRow)
    → 100 * groups * total * total_payout (pay_group pool groups total bets) ≤ pool * total_lp bets
unfolding pay_group
pay_group-le pool groups total [] = omega arith
pay_group-le pool groups total (b ∷ bs) =
    let d = 100 * groups * total in
    omega (arith, mul-div-le (pool * b.lp_amount) d, pay_group-le pool groups total bs)

total_payout-append :
    (ws vs : List WinnerPayout) → total_payout (ws ++ vs) ≡ total_payout ws + total_payout vs
total_payout-append [] vs = omega arith
total_payout-append (w ∷ ws) vs = omega (arith, total_payout-append ws vs)

-- A group with stakes is paid at most its equal part of the pool.
pay_group_share :
    (pool groups : ℕ) (bets : List BetRow)
    → 0 < total_lp bets
    → 100 * groups * total_payout (pay_group pool groups (total_lp bets) bets) ≤ pool
pay_group_share pool groups bets h =
    let total = total_lp bets in
    let paid = total_payout (pay_group pool groups total bets) in
    le_of_mul-le-mul_left {k = total} (omega (arith, pay_group-le pool groups total bets)) h

pay_groups-le :
    (pool groups : ℕ) (gs : Groups)
    → 100 * groups * total_payout (pay_groups pool groups gs) ≤ length gs * pool
unfolding pay_groups
pay_groups-le pool groups [] = omega arith
pay_groups-le pool groups ((o, bets) ∷ gs) = elim (Bool-cases (eqb (total_lp bets) 0)) [
  | inl none_bet ↦ rw none_bet (omega (arith, pay_groups-le pool groups gs))
  | inr some_bet ↦ rw some_bet (
      rw
        (total_payout-append (pay_group pool groups (total_lp bets) bets)
          (pay_groups pool groups gs))
        (omega (
          arith,
          pay_groups-le pool groups gs,
          pay_group_share pool groups bets (ground (arith, some_bet)),
        )))
]

paid-le-pool : (gs : Groups) (pool : ℕ) → 100 * total_payout (pay_groups pool (length gs) gs) ≤ pool
unfolding pay_groups
paid-le-pool [] pool = omega arith
paid-le-pool (g ∷ gs) pool =
    let n = length (g ∷ gs) in
    le_of_mul-le-mul_left {k = n} (omega (arith, pay_groups-le pool n (g ∷ gs))) (omega arith)

-- No LP is made by paying out: the payouts and the dust add up to the pool exactly, whatever the
-- groups are.
pub distribute_pool_exact :
    (gs : Groups) (pool : ℕ)
    → let d = distribute_pool gs pool in 100 * total_payout d.winners + d.dust ≡ pool
unfolding distribute_pool
distribute_pool_exact gs pool = omega (arith, paid-le-pool gs pool)

-- From below: each floor loses less than one tenth.
pay_group_floor :
    (pool groups total : ℕ) (bets : List BetRow)
    → 0 < 100 * groups * total
    → pool * total_lp bets + length bets
      ≤ 100
        * groups
        * total
        * (total_payout (pay_group pool groups total bets)
            + length (pay_group pool groups total bets))
unfolding pay_group
pay_group_floor pool groups total [] h = omega arith
pay_group_floor pool groups total (b ∷ bs) h =
    omega (arith, lt-mul-div-succ (pool * b.lp_amount) h, pay_group_floor pool groups total bs h)

length-pay_group :
    (pool groups total : ℕ) (bets : List BetRow)
    → length (pay_group pool groups total bets) ≡ length bets
unfolding pay_group
length-pay_group pool groups total [] = refl
length-pay_group pool groups total (b ∷ bs) = ap suc (length-pay_group pool groups total bs)

positive_length : (bets : List BetRow) → 0 < total_lp bets → 0 < length bets
positive_length [] h = omega arith
positive_length (b ∷ bs) h = omega arith

-- A group with stakes gets its equal part of the pool, but for less than a tenth for each bet.
pay_group_near :
    (pool groups : ℕ) (bets : List BetRow)
    → 0 < groups
    → 0 < total_lp bets
    → let ws = pay_group pool groups (total_lp bets) bets in
      pool < 100 * groups * (total_payout ws + length ws)
pay_group_near pool groups bets g h =
    let total = total_lp bets in
    let ws = pay_group pool groups total bets in
    lt_of_mul-lt-mul_left total
      (omega (arith, pay_group_floor pool groups total bets (grind arith), positive_length bets h))

abbrev pub AllStaked : Groups → Type 0
AllStaked = All (λ g. 0 < total_lp g.1)

pay_groups-near :
    (pool groups : ℕ) (gs : Groups)
    → 0 < groups
    → AllStaked gs
    → let ws = pay_groups pool groups gs in
      length gs * (pool + 1) ≤ 100 * groups * (total_payout ws + length ws)
unfolding pay_groups
pay_groups-near pool groups [] g s = omega arith
pay_groups-near pool groups ((o, bets) ∷ gs) g s = elim (Bool-cases (eqb (total_lp bets) 0)) [
  | inl none_bet ↦ grind (arith, none_bet, s.0)
  | inr some_bet ↦
      let ws = pay_group pool groups (total_lp bets) bets in
      let vs = pay_groups pool groups gs in
      rw some_bet (
        rw (total_payout-append ws vs) (
          rw (length-append ws vs) (
            omega (
              arith,
              pay_group_near pool groups bets g s.0,
              pay_groups-near pool groups gs g s.1,
            ))))
]

lost_to_rounding :
    (n pool paid count : ℕ)
    → 0 < n
    → 100 * paid ≤ pool
    → n * (pool + 1) ≤ 100 * n * (paid + count)
    → pool - 100 * paid < 100 * count
lost_to_rounding n pool paid count pn a h =
    let below =
      le_of_mul-le-mul_left {m = pool + 1} {n = 100 * (paid + count)} {k = n} (omega (arith, h))
        pn in
    omega (arith, below)

-- When every winning group has stakes, the dust is at most a tenth of an LP for each payout, so what
-- is thrown away is only what the rounding down takes.
pub distribute_pool_dust :
    (g : String × List BetRow) (gs : Groups) (pool : ℕ)
    → AllStaked (g ∷ gs)
    → let d = distribute_pool (g ∷ gs) pool in d.dust ≤ 100 * length d.winners
unfolding distribute_pool
distribute_pool_dust g gs pool s =
    let n = length (g ∷ gs) in
    let ws = pay_groups pool n (g ∷ gs) in
    let lost =
      lost_to_rounding n pool (total_payout ws) (length ws) (omega arith)
        (paid-le-pool (g ∷ gs) pool) (pay_groups-near pool n (g ∷ gs) (omega arith) s) in
    omega (arith, lost)
