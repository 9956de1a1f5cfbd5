-- ===== src/Reports/Progress.antt =====
-- The workers of core/ops-narrative.ts: how many calls they make, and what they leave behind.
use polis_game.Base.{
  ℕ, zero, suc, ◌+◌, ◌-◌, ◌≤◌, ◌<◌, ◌≡◌, refl, sym, ap, ◌∙◌, Option, none, some, List, [], ◌∷◌,
  length, leb, eqb, leb_iff, eqb_iff, arith, Bool-cases, ◌⊎◌, inl, inr,
}
use polis_game.Reports.{
  at_index, assign, Lanes, called, result_at, take_next, turn, start, lane_count, run,
  map_with_concurrency,
}
use polis_game.Reports.Covered.{assign-there, assign-away, Kept, given_out, start-Kept, turn-Kept}

at_index-beyond {ℓ} : {A : Type ℓ} (xs : List A) (i : ℕ) → length xs ≤ i → at_index xs i ≡ none
at_index-beyond [] i le = refl
at_index-beyond (x ∷ xs) zero le = absurd (omega (arith, le))
at_index-beyond (x ∷ xs) (suc i) le = at_index-beyond xs i (omega (arith, le))

held-cases : (o : Option ℕ) → (o ≡ none) ⊎ ((i : ℕ) × (o ≡ some i))
held-cases none = inl refl
held-cases (some i) = inr (i, refl)

module _ {ℓ ℓ'} {A : Type ℓ} {R : Type ℓ'} (fn : A → ℕ → R) (items : List A) where
  abbrev waits : Option ℕ → ℕ
  waits none = 0
  waits (some i) = 1

  abbrev busy : ℕ → (ℕ → Option ℕ) → ℕ
  busy zero f = 0
  busy (suc k) f = waits (f k) + busy k f

  -- The calls that are still to end.
  abbrev work : ℕ → Lanes R → ℕ
  work k st = (length items - st.next) + busy k st.in_hand

  busy-away : (k w : ℕ) (x : Option ℕ) (f : ℕ → Option ℕ) → k ≤ w → busy k (assign w x f) ≡ busy k f
  busy-away zero w x f le = refl
  busy-away (suc k) w x f le =
      rw (assign-away w k x f (λ e. omega (arith, e, le)), busy-away k w x f (omega (arith, le)))
        refl

  busy-assign :
      (k w : ℕ) (x : Option ℕ) (f : ℕ → Option ℕ)
      → w < k
      → busy k (assign w x f) + waits (f w) ≡ busy k f + waits x
  busy-assign zero w x f lt = absurd (omega (arith, lt))
  busy-assign (suc k) w x f lt = elim (Bool-cases (eqb w k)) [
    | inl same ↦
        (let one = (eqb_iff w k).0 same in
          let away = busy-away k w x f (omega (arith, one)) in
          let held = ap (λ v. waits (f v)) one in rw (same, away) (omega (arith, held)))
    | inr other ↦
        (let inner = busy-assign k w x f (ground (arith, lt, other)) in
          rw (other) (omega (arith, inner)))
  ]

  given-work :
      (st : Lanes R)
      → (length items - suc st.next) + waits (given_out fn items st) ≡ length items - st.next
  given-work st = elim (Bool-cases (leb (length items) st.next)) [
    | inl over ↦ (let le = (leb_iff (length items) st.next).0 over in rw over (omega (arith, le)))
    | inr more ↦
        (let lt : st.next < length items = ground (arith, leb_iff (length items) st.next) in
          rw more (omega (arith, lt)))
  ]

  start-work : (k : ℕ) → work k (start fn items k) ≡ length items
  unfolding take_next
  start-work zero = omega arith
  start-work (suc k) =
      let st = start fn items k in
      let given = given-work st in
      let before = start-work k in
      rw
        (
          assign-there k (given_out fn items st) st.in_hand,
          busy-away k k (given_out fn items st) st.in_hand (omega arith),
        )
        (omega (arith, given, before))

  turn-work :
      (k w i : ℕ) (st : Lanes R)
      → w < k
      → st.in_hand w ≡ some i
      → suc (work k (turn fn items w st)) ≡ work k st
  unfolding take_next
  turn-work k w i st lt holds =
      let given = given-work st in
      let lanes = busy-assign k w (given_out fn items st) st.in_hand lt in
      let lanes' = (rw holds at lanes) in rw holds (omega (arith, given, lanes'))

  -- A slot of the results is empty or right.
  IsClean : Lanes R → Type ℓ'
  IsClean st = (i : ℕ) → (st.results i ≡ result_at fn items i) ⊎ (st.results i ≡ none)

  turn-IsClean :
      (w i : ℕ) (st : Lanes R) → st.in_hand w ≡ some i → IsClean st → IsClean (turn fn items w st)
  unfolding take_next IsClean
  turn-IsClean w i st holds clean j = rw holds (elim (Bool-cases (eqb i j)) [
    | inl same ↦ inl (rw same (ap (λ m. result_at fn items m) ((eqb_iff i j).0 same)))
    | inr other ↦ rw other (clean j)
  ])

  start-IsClean : (k : ℕ) → IsClean (start fn items k)
  unfolding take_next IsClean
  start-IsClean zero i = inr refl
  start-IsClean (suc k) i = start-IsClean k i

  -- A worker among the first k waits for a call.
  abbrev pub Waiting : ℕ → (ℕ → Option ℕ) → Type 0
  Waiting k f = (w : ℕ) × (w < k) × (i : ℕ) × (f w ≡ some i)

  some_waits : (k : ℕ) (f : ℕ → Option ℕ) → 0 < busy k f → Waiting k f
  some_waits zero f h = absurd (omega (arith, h))
  some_waits (suc k) f h = elim (held-cases (f k)) [
    | inl free ↦
        (let h' = (rw free at h) in
          let (w, lt, i, holds) = some_waits k f (omega (arith, h')) in
          (w, omega (arith, lt), i, holds))
    | inr (i, has) ↦ (k, omega arith, i, has)
  ]

  none_waits : (k : ℕ) (f : ℕ → Option ℕ) → busy k f ≡ 0 → (w : ℕ) → w < k → f w ≡ none
  none_waits k f h w lt = elim (held-cases (f w)) [
    | inl free ↦ free
    | inr (i, has) ↦
        (let lanes = busy-assign k w none f lt in
          let spare = (rw has at lanes) in absurd (omega (arith, spare, h)))
  ]

  work-busy :
      (k : ℕ) (st : Lanes R) → 0 < k → Kept fn items k st → 0 < work k st → 0 < busy k st.in_hand
  work-busy k st some_lane kept h = elim (Bool-cases (eqb (busy k st.in_hand) 0)) [
    | inl none_busy ↦
        (let idle = (eqb_iff (busy k st.in_hand) 0).0 none_busy in
          let out = kept.spent 0 some_lane (none_waits k st.in_hand idle 0 some_lane) in
          absurd (omega (arith, h, idle, out)))
    | inr one_busy ↦ ground (arith, eqb_iff (busy k st.in_hand) 0)
  ]

  -- Each call that ends is one that a worker waits for.
  abbrev pub Ends : ℕ → Lanes R → List ℕ → Type 0
  Ends k st [] = Unit
  Ends k st (w ∷ ends) =
      (w < k) × ((i : ℕ) × (st.in_hand w ≡ some i)) × Ends k (turn fn items w st) ends

  record Reached (k : ℕ) (calls : ℕ) (st : Lanes R) : Type ℓ' where
    kept : Kept fn items k st
    clean : IsClean st
    left : work k st + calls ≡ length items

  run-Reached :
      (k calls : ℕ) (ends : List ℕ) (st : Lanes R)
      → Ends k st ends
      → Reached k calls st
      → Reached k (calls + length ends) (run fn items ends st)
  run-Reached k calls [] st e r = record {
    kept = r.kept;
    clean = r.clean;
    left = omega (arith, r.left);
  }
  run-Reached k calls (w ∷ ends) st (lt, (i, holds), rest) r =
      let went = turn-work k w i st lt holds in
      let left = r.left in
      let next = run-Reached k (suc calls) ends (turn fn items w st) rest (record {
        kept = turn-Kept fn items k w i st lt holds r.kept;
        clean = turn-IsClean w i st holds r.clean;
        left = omega (arith, went, left);
      }) in
      record {
        kept = next.kept;
        clean = next.clean;
        left = (let l = next.left in omega (arith, l));
      }

  lane_count-some : (n : ℕ) → 0 < lane_count fn items n
  lane_count-some n = ground arith

  -- No worker is left waiting: every result is there.
  all_there :
      (k calls : ℕ) (st : Lanes R)
      → 0 < k
      → Reached k calls st
      → work k st ≡ 0
      → (i : ℕ) → st.results i ≡ result_at fn items i
  unfolding IsClean
  all_there k calls st some_lane r no_work i =
      let idle = none_waits k st.in_hand (omega (arith, no_work)) in
      elim (Bool-cases (leb (length items) i)) [
        | inl over ↦
            (let none_at =
                ap (called fn items i)
                  (at_index-beyond items i ((leb_iff (length items) i).0 over)) in
              elim (r.clean i) [ inl right ↦ right | inr empty ↦ empty ∙ sym none_at ])
        | inr inside ↦
            (let lt : i < length items = ground (arith, leb_iff (length items) i) in
              let out = r.kept.spent 0 some_lane (idle 0 some_lane) in
              elim (r.kept.covered i lt (omega (arith, lt, out))) [
                | inl (w, w_lt, holds) ↦ (let clash = sym (idle w w_lt) ∙ holds in cc)
                | inr done ↦ done
              ])
      ]

  -- However the calls end, in any order in which each is one that a worker waits for: after as many
  -- as there are items, each slot of the results holds what the call on its item gives, and until
  -- then, there are fewer and a worker still waits, so that the workers never stop early.
  pub map_with_concurrency_lem :
      (n : ℕ) (ends : List ℕ)
      → Ends (lane_count fn items n) (start fn items (lane_count fn items n)) ends
      → ((length ends ≡ length items)
          × ((i : ℕ) → (map_with_concurrency fn items n ends).results i ≡ result_at fn items i))
        ⊎ ((length ends < length items)
            × Waiting (lane_count fn items n) (map_with_concurrency fn items n ends).in_hand)
  unfolding map_with_concurrency
  map_with_concurrency_lem n ends e =
      let k = lane_count fn items n in
      let last = run fn items ends (start fn items k) in
      let r = run-Reached k 0 ends (start fn items k) e (record {
        kept = start-Kept fn items k;
        clean = start-IsClean k;
        left = (let l = start-work k in omega (arith, l));
      }) in
      let left = r.left in
      elim (Bool-cases (eqb (work k last) 0)) [
        | inl over ↦
            (let no_work = (eqb_iff (work k last) 0).0 over in
              inl (omega (arith, left, no_work), all_there k _ last (lane_count-some n) r no_work))
        | inr more ↦
            (let some_work : 0 < work k last = ground (arith, eqb_iff (work k last) 0) in
              inr (
                omega (arith, left, some_work),
                some_waits k last.in_hand (work-busy k last (lane_count-some n) r.kept some_work),
              ))
      ]
