-- ===== src/Base/Order.antt =====
-- `ORDER BY` and `LIMIT`.
pub mod Newest
use Prim.Native.Nat.{ℕ, ◌-◌}
use mathlib.Core.Bool.{Bool}
use mathlib.Core.List.{List, [], ◌∷◌}
use polis_game.Base.Tests.{if◌then◌else◌, eqb}

-- A stable insertion sort by `before`, for `ORDER BY`.
abbrev pub insert_by {ℓ} : {A : Type ℓ} → (A → A → Bool) → A → List A → List A
insert_by before x [] = x ∷ []
insert_by before x (y ∷ ys) = if before x y then x ∷ y ∷ ys else y ∷ insert_by before x ys

abbrev pub sort_by {ℓ} : {A : Type ℓ} → (A → A → Bool) → List A → List A
sort_by before [] = []
sort_by before (x ∷ xs) = insert_by before x (sort_by before xs)

abbrev pub limit_to {ℓ} : {A : Type ℓ} → ℕ → List A → List A
limit_to n [] = []
limit_to n (x ∷ xs) = if eqb n 0 then [] else x ∷ limit_to (n - 1) xs
