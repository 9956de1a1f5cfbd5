-- ===== src/Store/Batch.antt =====
-- core/store/batch.ts: rows in batches. The clause of a batch is the list of its groups of
-- placeholder numbers; joining them with commas is left out.
use polis_game.Base.{
  ℕ, zero, suc, ◌+◌, ◌-◌, ◌≤◌, ◌<◌, ◌≡◌, refl, Option, none, some, List, [], ◌∷◌, ◌++◌, All, length,
  arith, length-append, ◌∙◌, ap, sym,
}
use mathlib.Core.List.{flatten, append_assoc, append-nil}

module _ {ℓ} {T : Type ℓ} where
  -- `items.slice(0, n)` and `items.slice(n)`
  abbrev pub take : ℕ → List T → List T
  take zero xs = []
  take (suc n) [] = []
  take (suc n) (x ∷ xs) = x ∷ take n xs

  abbrev pub drop : ℕ → List T → List T
  drop zero xs = xs
  drop (suc n) [] = []
  drop (suc n) (x ∷ xs) = drop n xs

  abbrev with_chunk : List T → Option (List (List T)) → Option (List (List T))
  with_chunk c none = none
  with_chunk c (some cs) = some (c ∷ cs)

  -- The items from `i` on, while `i < items.length`; the fuel bounds the rounds, and `none` says
  -- that the loop goes on.
  unfoldable pub chunked : ℕ → List T → ℕ → Option (List (List T))
  chunked fuel [] size = some []
  chunked zero (x ∷ xs) size = none
  chunked (suc fuel) (x ∷ xs) size =
      with_chunk (take size (x ∷ xs)) (chunked fuel (drop size (x ∷ xs)) size)

  take-drop : (n : ℕ) (xs : List T) → take n xs ++ drop n xs ≡ xs
  take-drop zero xs = refl
  take-drop (suc n) [] = refl
  take-drop (suc n) (x ∷ xs) = ap (◌∷◌ x) (take-drop n xs)

  length-take-le : (n : ℕ) (xs : List T) → length (take n xs) ≤ n
  length-take-le zero xs = omega arith
  length-take-le (suc n) [] = omega arith
  length-take-le (suc n) (x ∷ xs) = omega (arith, length-take-le n xs)

  length-drop : (n : ℕ) (xs : List T) → length (drop n xs) ≡ length xs - n
  length-drop zero xs = omega arith
  length-drop (suc n) [] = omega arith
  length-drop (suc n) (x ∷ xs) = omega (arith, length-drop n xs)

  -- What the chunks of a list are.
  pub record Chunks (items : List T) (size : ℕ) (result : Option (List (List T))) : Type ℓ where
    pub chunks : List (List T)
    pub returned : result ≡ some chunks
    pub in_order : flatten chunks ≡ items
    pub small : All (λ c. (0 < length c) × (length c ≤ size)) chunks

  -- For a positive size and as many rounds as there are items, the loop ends, its chunks joined
  -- again are the items in their order, and every chunk has from one to `size` items.
  pub chunked-Chunks :
      (fuel : ℕ) (items : List T) (size : ℕ)
      → 0 < size
      → length items ≤ fuel
      → Chunks items size (chunked fuel items size)
  unfolding chunked flatten
  chunked-Chunks fuel [] size pos h = record {
    chunks = [];
    returned = refl;
    in_order = refl;
    small = tt;
  }
  chunked-Chunks zero (x ∷ xs) size pos h = absurd (omega arith)
  chunked-Chunks (suc fuel) (x ∷ xs) (suc n) pos h =
      let rest = chunked-Chunks fuel (drop n xs) (suc n) pos (omega (arith, length-drop n xs)) in
      record {
        chunks = (x ∷ take n xs) ∷ rest.chunks;
        returned = ap (with_chunk (x ∷ take n xs)) rest.returned;
        in_order = ap (λ r. (x ∷ take n xs) ++ r) rest.in_order ∙ ap (◌∷◌ x) (take-drop n xs);
        small = ((omega arith, omega (arith, length-take-le n xs)), rest.small);
      }
  chunked-Chunks (suc fuel) (x ∷ xs) zero pos h = absurd (omega arith)

  -- With size 0 the loop never ends on a list that is not empty, however many rounds it is given.
  pub chunked_zero_diverges : (fuel : ℕ) (x : T) (xs : List T) → chunked fuel (x ∷ xs) 0 ≡ none
  unfolding chunked
  chunked_zero_diverges zero x xs = refl
  chunked_zero_diverges (suc fuel) x xs = ap (with_chunk []) (chunked_zero_diverges fuel x xs)

  -- `$base+1` to `$base+n`, for the columns of one row
  abbrev pub group : ℕ → List T → List ℕ
  group base [] = []
  group base (_ ∷ cols) = suc base ∷ group (suc base) cols

  abbrev map_rows : List T → List (List T) → List (List ℕ) × List T
  map_rows params [] = ([], params)
  map_rows params (cols ∷ rows) =
      let (groups, all) = map_rows (params ++ cols) rows in
      (group (length params) cols ∷ groups, all)

  -- The groups of the clause, and the parameters.
  unfoldable pub multi_row_values : List (List T) → List (List ℕ) × List T
  multi_row_values rows = map_rows [] rows

  group-append :
      (base : ℕ) (xs ys : List T)
      → group base (xs ++ ys) ≡ group base xs ++ group (base + length xs) ys
  group-append base [] ys = grind arith
  group-append base (x ∷ xs) ys = grind (arith, group-append (suc base) xs ys)

  map_rows_lem :
      (params : List T) (rows : List (List T))
      → (flatten (map_rows params rows).0 ≡ group (length params) (flatten rows))
        × ((map_rows params rows).1 ≡ params ++ flatten rows)
  unfolding flatten
  map_rows_lem params [] = (refl, sym (append-nil params))
  map_rows_lem params (cols ∷ rows) = grind (
    arith,
    map_rows_lem (params ++ cols) rows,
    length-append params cols,
    group-append (length params) cols (flatten rows),
    append_assoc params cols (flatten rows),
  )

  -- The placeholders of a multi-row clause, read from left to right, are $1, $2, … without a gap,
  -- as many as there are parameters, and the parameters are the columns of the rows in order.
  pub multi_row_values_lem :
      (rows : List (List T))
      → let (groups, params) = multi_row_values rows in
        (params ≡ flatten rows) × (flatten groups ≡ group 0 params)
  unfolding multi_row_values flatten
  multi_row_values_lem rows = grind (arith, map_rows_lem [] rows)
