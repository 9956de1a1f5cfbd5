-- ===== src/Reports/Covered.antt =====
-- The workers of core/ops-narrative.ts: no item is lost between them.
use polis_game.Base.{
  ℕ, zero, suc, ◌≤◌, ◌<◌, ◌≡◌, ◌≢◌, refl, sym, ap, ◌∙◌, Option, none, some, false, List, length,
  leb, eqb, leb_iff, eqb_iff, arith, Bool-cases, ◌⊎◌, inl, inr, if◌then◌else◌,
}
use polis_game.Reports.{assign, Lanes, result_at, take_next, turn, start}

pub assign-there {ℓ} : {A : Type ℓ} (i : ℕ) (a : A) (f : ℕ → A) → assign i a f i ≡ a
assign-there i a f = rw ((eqb_iff i i).1 refl) refl

pub assign-away {ℓ} : {A : Type ℓ} (i j : ℕ) (a : A) (f : ℕ → A) → i ≢ j → assign i a f j ≡ f j
assign-away i j a f ne = elim (Bool-cases (eqb i j)) [
  | inl same ↦ absurd (ne ((eqb_iff i j).0 same))
  | inr other ↦ rw other refl
]

module _ {ℓ ℓ'} {A : Type ℓ} {R : Type ℓ'} (fn : A → ℕ → R) (items : List A) where
  -- Every index that was given out is waited for by one of the first k workers, or its result is there.
  pub record Kept (k : ℕ) (st : Lanes R) : Type ℓ' where
    pub covered :
        (i : ℕ)
        → i < length items
        → i < st.next
        → ((w : ℕ) × (w < k) × (st.in_hand w ≡ some i)) ⊎ (st.results i ≡ result_at fn items i)
    pub spent : (w : ℕ) → w < k → st.in_hand w ≡ none → length items ≤ st.next

  -- The same, worker w aside.
  record Others (k w : ℕ) (st : Lanes R) : Type ℓ' where
    in_range : w < k
    covered :
        (i : ℕ)
        → i < length items
        → i < st.next
        → ((v : ℕ) × (v < k) × (w ≢ v) × (st.in_hand v ≡ some i))
          ⊎ (st.results i ≡ result_at fn items i)
    spent : (v : ℕ) → v < k → w ≢ v → st.in_hand v ≡ none → length items ≤ st.next

  abbrev pub given_out : Lanes R → Option ℕ
  given_out st = if leb (length items) st.next then none else some st.next

  given_out-next : (st : Lanes R) → st.next < length items → given_out st ≡ some st.next
  given_out-next st lt =
      let more : leb (length items) st.next ≡ false = ground arith in rw more refl

  given_out-none : (st : Lanes R) → given_out st ≡ none → length items ≤ st.next
  given_out-none st e = elim (Bool-cases (leb (length items) st.next)) [
    | inl over ↦ (leb_iff (length items) st.next).0 over
    | inr more ↦ (let no = (rw more at e) in cc)
  ]

  take-Kept : (k w : ℕ) (st : Lanes R) → Others k w st → Kept k (take_next fn items w st)
  unfolding take_next
  take-Kept k w st o =
      let given = assign-there w (given_out st) st.in_hand in
      record {
        covered = λ i inside before. elim (Bool-cases (eqb i st.next)) [
          | inl here ↦
              let at_next = (eqb_iff i st.next).0 here in
              inl (w, o.in_range, given ∙ rw at_next (given_out-next st (rw at_next at inside)))
          | inr elsewhere ↦ elim (o.covered i inside (ground (arith, eqb_iff i st.next))) [
            | inl (v, v_lt, ne, holds) ↦
                inl (v, v_lt, assign-away w v (given_out st) st.in_hand ne ∙ holds)
            | inr done ↦ inr done
          ]
        ];
        spent = λ v v_lt idle. elim (Bool-cases (eqb w v)) [
          | inl same ↦
              (let free = (rw same at idle) in
                let over = given_out-none st free in omega (arith, over))
          | inr other ↦
              (let free = (rw other at idle) in
                let over = o.spent v v_lt (ground (arith, eqb_iff w v)) free in omega (arith, over))
        ];
      }

  pub start-Kept : (k : ℕ) → Kept k (start fn items k)
  start-Kept zero = record {
    covered = λ i inside before. absurd (omega (arith, before));
    spent = λ v v_lt idle. absurd (omega (arith, v_lt));
  }
  start-Kept (suc k) =
      let so_far = start-Kept k in
      take-Kept (suc k) k (start fn items k) (record {
        in_range = omega arith;
        covered = λ i inside before. elim (so_far.covered i inside before) [
          | inl (v, v_lt, holds) ↦
              inl (v, omega (arith, v_lt), (λ e. omega (arith, e, v_lt)), holds)
          | inr done ↦ inr done
        ];
        spent = λ v v_lt ne idle. so_far.spent v (ground (arith, v_lt, ne)) idle;
      })

  pub turn-Kept :
      (k w i : ℕ) (st : Lanes R)
      → w < k
      → st.in_hand w ≡ some i
      → Kept k st
      → Kept k (turn fn items w st)
  turn-Kept k w i st w_lt holds kept = rw holds (
      take-Kept k w (record st { results = assign i (result_at fn items i) st.results })
        (record {
          in_range = w_lt;
          covered = λ j inside before. elim (Bool-cases (eqb i j)) [
            | inl same ↦ inr (rw same (ap (λ m. result_at fn items m) ((eqb_iff i j).0 same)))
            | inr other ↦ elim (kept.covered j inside before) [
              | inl (v, v_lt, has) ↦ inl (
                v,
                v_lt,
                (λ e.
                    (let both : some i ≡ some j = sym holds ∙ ap st.in_hand e ∙ has in
                      let one : i ≡ j = cc in ground (arith, (eqb_iff i j).1 one))),
                has,
              )
              | inr done ↦ inr (rw other done)
            ]
          ];
          spent = λ v v_lt ne idle. kept.spent v v_lt idle;
        }))
