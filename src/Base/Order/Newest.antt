-- ===== src/Base/Order/Newest.antt =====
-- `ORDER BY key DESC LIMIT n`, and what the rows that it selects are among all rows.
use Prim.Native.Nat.{ℕ, ◌-◌, ◌≤◌, ◌<◌}
use mathlib.Core.Path.{◌≡◌, refl, sym}
use mathlib.Core.Logic.{◌⊎◌, inl, inr}
use mathlib.Core.Bool.{Bool}
use mathlib.Core.List.{List, [], ◌∷◌, ◌++◌, Perm}
use mathlib.Core.List.Perm
use native.Mathlib.Omega.{arith}
use polis_game.Base.Tests.{if◌then◌else◌, leb, leb_iff, eqb, eqb_iff, Bool-cases}
use polis_game.Base.Lists.{All, All-imp, length}
use polis_game.Base.Order.{insert_by, sort_by, limit_to}

module _ {ℓ} {A : Type ℓ} (key : A → ℕ) where
  abbrev pub newer : A → A → Bool
  newer a b = leb (key b) (key a)

  abbrev pub newest : ℕ → List A → List A
  newest n xs = limit_to n (sort_by newer xs)

  abbrev pub IsDescending : List A → Type 0
  IsDescending [] = Unit
  IsDescending (x ∷ xs) = All (λ y. key y ≤ key x) xs × IsDescending xs

  -- `kept` are the `n` newest of `from`, the newest first; `rest` are the others.
  pub record NewestOf (n : ℕ) (from kept : List A) : Type ℓ where
    pub rest : List A
    pub perm : Perm (kept ++ rest) from
    pub descending : IsDescending kept
    pub above : All (λ r. All (λ k. key r ≤ key k) kept) rest
    pub within : length kept ≤ n
    pub full : (rest ≡ []) ⊎ (length kept ≡ n)

  All-insert_by :
      (P : A → Type 0) (x : A) (ys : List A) → P x → All P ys → All P (insert_by newer x ys)
  All-insert_by P x [] h all = (h, tt)
  All-insert_by P x (y ∷ ys) h all = elim (Bool-cases (newer x y)) [
    | inl before ↦ rw before (h, all)
    | inr later ↦ rw later (all.0, All-insert_by P x ys h all.1)
  ]

  pub All-sort_by : (P : A → Type 0) (xs : List A) → All P xs → All P (sort_by newer xs)
  All-sort_by P [] all = tt
  All-sort_by P (x ∷ xs) all = All-insert_by P x (sort_by newer xs) all.0 (All-sort_by P xs all.1)

  All-weaken : (m n : ℕ) (ys : List A) → m ≤ n → All (λ y. key y ≤ m) ys → All (λ y. key y ≤ n) ys
  All-weaken m n ys h = All-imp _ _ (λ y le. omega arith) ys

  IsDescending-insert_by :
      (x : A) (ys : List A) → IsDescending ys → IsDescending (insert_by newer x ys)
  IsDescending-insert_by x [] d = (tt, tt)
  IsDescending-insert_by x (y ∷ ys) d = elim (Bool-cases (newer x y)) [
    | inl before ↦
        let le : key y ≤ key x = (leb_iff (key y) (key x)).0 before in
        rw before ((le, All-weaken (key y) (key x) ys le d.0), d)
    | inr later ↦ rw later (
      All-insert_by (λ z. key z ≤ key y) x ys (ground (arith, later)) d.0,
      IsDescending-insert_by x ys d.1,
    )
  ]

  IsDescending-sort_by : (xs : List A) → IsDescending (sort_by newer xs)
  IsDescending-sort_by [] = tt
  IsDescending-sort_by (x ∷ xs) =
      IsDescending-insert_by x (sort_by newer xs) (IsDescending-sort_by xs)

  insert_by-perm : (x : A) (ys : List A) → Perm (insert_by newer x ys) (x ∷ ys)
  insert_by-perm x [] = Perm.refl (x ∷ [])
  insert_by-perm x (y ∷ ys) = elim (Bool-cases (newer x y)) [
    | inl before ↦ rw before (Perm.refl (x ∷ y ∷ ys))
    | inr later ↦ rw later (Perm.trans (Perm.cons y (insert_by-perm x ys)) (Perm.swap x y ys))
  ]

  sort_by-perm : (xs : List A) → Perm (sort_by newer xs) xs
  sort_by-perm [] = Perm.refl []
  sort_by-perm (x ∷ xs) =
      Perm.trans (insert_by-perm x (sort_by newer xs)) (Perm.cons x (sort_by-perm xs))

  -- The rows behind the limit.
  abbrev beyond : ℕ → List A → List A
  beyond n [] = []
  beyond n (x ∷ xs) = if eqb n 0 then x ∷ xs else beyond (n - 1) xs

  limit_to-beyond : (n : ℕ) (xs : List A) → limit_to n xs ++ beyond n xs ≡ xs
  limit_to-beyond n [] = refl
  limit_to-beyond n (x ∷ xs) = ground (arith, limit_to-beyond (n - 1) xs)

  All-limit_to : (P : A → Type 0) (n : ℕ) (xs : List A) → All P xs → All P (limit_to n xs)
  All-limit_to P n [] all = tt
  All-limit_to P n (x ∷ xs) all = elim (Bool-cases (eqb n 0)) [
    | inl stop ↦ rw stop tt
    | inr go ↦ rw go (all.0, All-limit_to P (n - 1) xs all.1)
  ]

  pub All-newest : (P : A → Type 0) (n : ℕ) (xs : List A) → All P xs → All P (newest n xs)
  All-newest P n xs all = All-limit_to P n (sort_by newer xs) (All-sort_by P xs all)

  IsDescending-limit_to : (n : ℕ) (xs : List A) → IsDescending xs → IsDescending (limit_to n xs)
  IsDescending-limit_to n [] d = tt
  IsDescending-limit_to n (x ∷ xs) d = elim (Bool-cases (eqb n 0)) [
    | inl stop ↦ rw stop tt
    | inr go ↦
        rw go
          (All-limit_to (λ y. key y ≤ key x) (n - 1) xs d.0, IsDescending-limit_to (n - 1) xs d.1)
  ]

  -- Each row of the rest is at most `x`, and stands below the rows kept after `x`.
  above-cons :
      (x : A) (rest kept : List A)
      → All (λ r. key r ≤ key x) rest
      → All (λ r. All (λ k. key r ≤ key k) kept) rest
      → All (λ r. All (λ k. key r ≤ key k) (x ∷ kept)) rest
  above-cons x [] kept le all = tt
  above-cons x (r ∷ rest) kept le all = ((le.0, all.0), above-cons x rest kept le.1 all.1)

  above-nil : (rest : List A) → All (λ r. All (λ k. key r ≤ key k) []) rest
  above-nil [] = tt
  above-nil (r ∷ rest) = (tt, above-nil rest)

  All-beyond :
      (m n : ℕ) (xs : List A) → All (λ y. key y ≤ m) xs → All (λ y. key y ≤ m) (beyond n xs)
  All-beyond m n [] all = tt
  All-beyond m n (x ∷ xs) all = elim (Bool-cases (eqb n 0)) [
    | inl stop ↦ rw stop all
    | inr go ↦ rw go (All-beyond m (n - 1) xs all.1)
  ]

  beyond-above :
      (n : ℕ) (xs : List A)
      → IsDescending xs
      → All (λ r. All (λ k. key r ≤ key k) (limit_to n xs)) (beyond n xs)
  beyond-above n [] d = tt
  beyond-above n (x ∷ xs) d = elim (Bool-cases (eqb n 0)) [
    | inl stop ↦ rw stop (above-nil (x ∷ xs))
    | inr go ↦ rw go (
        above-cons x (beyond (n - 1) xs) (limit_to (n - 1) xs) (All-beyond (key x) (n - 1) xs d.0)
          (beyond-above (n - 1) xs d.1))
  ]

  limit_to-full :
      (n : ℕ) (xs : List A)
      → (length (limit_to n xs) ≤ n) × ((beyond n xs ≡ []) ⊎ (length (limit_to n xs) ≡ n))
  limit_to-full n [] = (omega arith, inl refl)
  limit_to-full n (x ∷ xs) = elim (Bool-cases (eqb n 0)) [
    | inl stop ↦ rw stop (omega arith, inr (sym ((eqb_iff n 0).0 stop)))
    | inr go ↦
        let more = limit_to-full (n - 1) xs in
        let pos : 0 < n = ground (arith, go) in
        rw go (
          omega (arith, more.0),
          elim more.1 [ inl none_left ↦ inl none_left | inr full ↦ inr (omega (arith, full)) ],
        )
  ]

  pub newest-NewestOf : (n : ℕ) (xs : List A) → NewestOf n xs (newest n xs)
  newest-NewestOf n xs =
      let sorted = sort_by newer xs in
      let d = IsDescending-sort_by xs in
      record {
        rest = beyond n sorted;
        perm = rw (limit_to-beyond n sorted) (sort_by-perm xs);
        descending = IsDescending-limit_to n sorted d;
        above = beyond-above n sorted d;
        within = (limit_to-full n sorted).0;
        full = (limit_to-full n sorted).1;
      }
