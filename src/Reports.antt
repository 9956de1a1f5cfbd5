-- ===== src/Reports.antt =====
-- The helper of core/ops-narrative.ts that maps a slow function over a list with a bounded number of
-- workers. An array is a function of its index; a call that fails is not modelled.
use polis_game.Base.{
  ℕ, zero, suc, ◌≡◌, Option, none, some, Bool, List, [], ◌∷◌, length, leb, eqb, if◌then◌else◌,
}
pub mod Covered
pub mod Progress

abbrev pub at_index {ℓ} : {A : Type ℓ} → List A → ℕ → Option A
at_index [] i = none
at_index (a ∷ rest) zero = some a
at_index (a ∷ rest) (suc i) = at_index rest i

abbrev pub assign {ℓ} : {A : Type ℓ} → ℕ → A → (ℕ → A) → ℕ → A
assign i a f j = if eqb i j then a else f j

-- `in_hand w` is the item that worker w waits for; a worker that has returned holds none.
pub record Lanes {ℓ} (R : Type ℓ) : Type ℓ where
  pub in_hand : ℕ → Option ℕ
  pub next : ℕ
  pub results : ℕ → Option R

module _ {ℓ ℓ'} {A : Type ℓ} {R : Type ℓ'} (fn : A → ℕ → R) (items : List A) where
  abbrev pub called : ℕ → Option A → Option R
  called i none = none
  called i (some a) = some (fn a i)

  -- What the call on item i gives.
  abbrev pub result_at : ℕ → Option R
  result_at i = called i (at_index items i)

  -- The head of the loop: the worker takes the next index, or returns.
  unfoldable pub take_next : ℕ → Lanes R → Lanes R
  take_next w st = record st {
    in_hand = assign w (if leb (length items) st.next then none else some st.next) st.in_hand;
    next = suc st.next;
  }

  abbrev pub resolve_call : ℕ → Option ℕ → Lanes R → Lanes R
  resolve_call w none st = st
  resolve_call w (some i) st =
      take_next w (record st { results = assign i (result_at i) st.results })

  -- The call that worker w waits for ends, and the worker goes on to its next `await`.
  abbrev pub turn : ℕ → Lanes R → Lanes R
  turn w st = resolve_call w (st.in_hand w) st

  abbrev pub start : ℕ → Lanes R
  start zero = record { in_hand = λ w. none; next = 0; results = λ i. none }
  start (suc w) = take_next w (start w)

  abbrev pub lane_count : ℕ → ℕ
  lane_count n =
      let fewest = if leb n (length items) then n else length items in
      if leb 1 fewest then fewest else 1

  -- The calls end in the order in which `ends` names their workers.
  abbrev pub run : List ℕ → Lanes R → Lanes R
  run [] st = st
  run (w ∷ ends) st = run ends (turn w st)

  unfoldable pub map_with_concurrency : (n : ℕ) → (ends : List ℕ) → Lanes R
  map_with_concurrency n ends = run ends (start (lane_count n))
