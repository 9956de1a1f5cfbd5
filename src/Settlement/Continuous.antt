-- ===== src/Settlement/Continuous.antt =====
-- `computeTcSettlement` on a continuous survey: the bets nearest to the settled point win.
use polis_game.Base.{
  ℕ, ◌+◌, ◌≤◌, ◌<◌, ◌≡◌, refl, inl, inr, String, ◌==◌, List, [], ◌∷◌, ◌++◌, length, All, keep, eqb,
  arith, Bool-cases, eqb_iff,
}
use polis_game.Base.Int.{ℤ}
use polis_game.Settlement.{
  BetRow, Groups, total_lp, distance, min_dist, closest_bets, push_bet, group_bets,
}

All-below :
    (parse : String → ℤ) (point : ℤ) (k n : ℕ) (bs : List BetRow)
    → k ≤ n
    → All (λ c. n ≤ distance (parse c.option_value) point) bs
    → All (λ c. k ≤ distance (parse c.option_value) point) bs
All-below parse point k n [] h a = tt
All-below parse point k n (c ∷ bs) h a = (omega (arith, a.0), All-below parse point k n bs h a.1)

min_dist-below :
    (parse : String → ℤ) (point : ℤ) (b : BetRow) (bs : List BetRow)
    → All (λ c. min_dist parse point b bs ≤ distance (parse c.option_value) point) (b ∷ bs)
min_dist-below parse point b [] = (omega arith, tt)
min_dist-below parse point b (c ∷ bs) = (
  omega arith,
  All-below parse point (min_dist parse point b (c ∷ bs)) (min_dist parse point c bs) (c ∷ bs)
      (omega arith) (min_dist-below parse point c bs),
)

All-closest :
    (parse : String → ℤ) (point : ℤ) (least : ℕ) (all bs : List BetRow)
    → All (λ c. least ≤ distance (parse c.option_value) point) all
    → All
        (λ w.
          All
            (λ c. distance (parse w.option_value) point ≤ distance (parse c.option_value) point)
            all)
        (keep (λ c. eqb (distance (parse c.option_value) point) least) bs)
All-closest parse point least all [] h = tt
All-closest parse point least all (b ∷ bs) h =
    elim (Bool-cases (eqb (distance (parse b.option_value) point) least)) [
      | inl near ↦ rw near (
        All-below parse point (distance (parse b.option_value) point) least all
            (grind (arith, eqb_iff, near)) h,
        All-closest parse point least all bs h,
      )
      | inr far ↦ rw far (All-closest parse point least all bs h)
    ]

some_closest :
    (parse : String → ℤ) (point : ℤ) (least : ℕ) (b : BetRow) (bs : List BetRow)
    → least ≡ min_dist parse point b bs
    → 0 < length (keep (λ c. eqb (distance (parse c.option_value) point) least) (b ∷ bs))
some_closest parse point least b [] e = grind (arith, eqb_iff, e)
some_closest parse point least b (c ∷ bs) e =
    elim (Bool-cases (eqb (distance (parse b.option_value) point) least)) [
      | inl first ↦ rw first (omega arith)
      | inr later ↦
          rw later (some_closest parse point least c bs (grind (arith, eqb_iff, later, e)))
    ]

-- For any settled point, a continuous survey with bets has a winning bet, and no bet is nearer to
-- the point than a winning one.
pub closest_bets_lem :
    (parse : String → ℤ) (point : ℤ) (b : BetRow) (bs : List BetRow)
    → (0 < length (closest_bets parse point b bs))
      × All
          (λ w.
            All
              (λ c. distance (parse w.option_value) point ≤ distance (parse c.option_value) point)
              (b ∷ bs))
          (closest_bets parse point b bs)
unfolding closest_bets
closest_bets_lem parse point b bs = (
  some_closest parse point (min_dist parse point b bs) b bs refl,
  All-closest parse point (min_dist parse point b bs) (b ∷ bs) (b ∷ bs)
      (min_dist-below parse point b bs),
)

abbrev pub staked : Groups → ℕ
staked [] = 0
staked ((_, bs) ∷ gs) = total_lp bs + staked gs

total_lp-append : (xs ys : List BetRow) → total_lp (xs ++ ys) ≡ total_lp xs + total_lp ys
total_lp-append [] ys = omega arith
total_lp-append (x ∷ xs) ys = omega (arith, total_lp-append xs ys)

staked-push_bet : (b : BetRow) (gs : Groups) → staked (push_bet b gs) ≡ staked gs + b.lp_amount
staked-push_bet b [] = omega arith
staked-push_bet b ((o, bs) ∷ gs) = elim (Bool-cases (o == b.option_value)) [
  | inl same ↦ rw same (omega (arith, total_lp-append bs (b ∷ [])))
  | inr other ↦ rw other (omega (arith, staked-push_bet b gs))
]

-- Grouping the winning bets of a continuous survey by their value neither loses a stake nor counts
-- one twice.
pub group_bets_total :
    (gs : Groups) (bets : List BetRow) → staked (group_bets gs bets) ≡ staked gs + total_lp bets
group_bets_total gs [] = omega arith
group_bets_total gs (b ∷ bs) =
    omega (arith, group_bets_total (push_bet b gs) bs, staked-push_bet b gs)
