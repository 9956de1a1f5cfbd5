-- ===== src/Examples/Reports.antt =====
-- Three groups and two workers, as core/ops-narrative.ts summarises them.
use polis_game.Base.{ℕ, ◌+◌, ◌≡◌, ◌<◌, ◌⊎◌, refl, some, List, [], ◌∷◌, length, arith}
use polis_game.Reports.{result_at, take_next, start, lane_count, map_with_concurrency}
use polis_game.Reports.Progress.{Waiting, Ends, map_with_concurrency_lem}

abbrev groups : List ℕ
groups = 7 ∷ 8 ∷ 9 ∷ []

abbrev summary : ℕ → ℕ → ℕ
summary a i = a + i

-- The second group is ready before the first.
abbrev order : List ℕ
order = 1 ∷ 0 ∷ 1 ∷ []

in_order :
    Ends summary groups
      (lane_count summary groups 2)
      (start summary groups (lane_count summary groups 2))
      order
unfolding take_next
in_order = (omega arith, (1, refl), (omega arith, (0, refl), (omega arith, (2, refl), tt)))

last_summary : (map_with_concurrency summary groups 2 order).results 2 ≡ some 11
unfolding map_with_concurrency take_next
last_summary = refl

map_with_concurrency_example :
    ((length order ≡ length groups)
      × ((i : ℕ)
          → (map_with_concurrency summary groups 2 order).results i ≡ result_at summary groups i))
    ⊎ ((length order < length groups)
        × Waiting summary groups
            (lane_count summary groups 2)
            (map_with_concurrency summary groups 2 order).in_hand)
map_with_concurrency_example = map_with_concurrency_lem summary groups 2 order in_order
