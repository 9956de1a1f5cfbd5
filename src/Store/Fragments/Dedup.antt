-- ===== src/Store/Fragments/Dedup.antt =====
-- No two fragments are the same text up to spaces, case and punctuation (core/store/fragments.ts).
use polis_game.Base.{
  ℕ, ◌≡◌, ◌≢◌, refl, sym, ap, ◌∙◌, not, ◌||◌, keep, Bool, true, false, some, List, [], ◌∷◌, ◌++◌,
  All, All-append, any, arith, Bool-cases, inl, inr,
}
use polis_game.Base.Rows.{select_first}
use polis_game.Base.Texts.{Text, same_text_iff, is_space, trim, trim_start, trim_end, before_end}
use polis_game.Store.Fragments.{
  MemoryFragment, FragmentsDb, FragmentInput, has_norm, new_row, normalize_fragment,
  insert_fragment,
}

-- No later row has the norm of an earlier one.
abbrev pub IsDeduped : List MemoryFragment → Type 0
IsDeduped [] = Unit
IsDeduped (r ∷ rs) = All (λ s. s.content_norm ≢ r.content_norm) rs × IsDeduped rs

trim_start_idem : (cs : Text) → trim_start (trim_start cs) ≡ trim_start cs
trim_start_idem [] = refl
trim_start_idem (c ∷ cs) = ground (arith, trim_start_idem cs)

trim_end-before_end :
    (c : ℕ) (t : Text) → trim_end t ≡ t → trim_end (before_end c t) ≡ before_end c t
trim_end-before_end c [] h = ground arith
trim_end-before_end c (d ∷ ds) h = ap (before_end c) h

trim_end_idem : (cs : Text) → trim_end (trim_end cs) ≡ trim_end cs
trim_end_idem [] = refl
trim_end_idem (c ∷ cs) = trim_end-before_end c (trim_end cs) (trim_end_idem cs)

trim_start-before_end :
    (c : ℕ) (t : Text) → is_space c ≡ false → trim_start (before_end c t) ≡ before_end c t
trim_start-before_end c [] solid = rw (solid, solid) refl
trim_start-before_end c (d ∷ ds) solid = rw solid refl

trim_idem : (cs : Text) → trim (trim cs) ≡ trim cs
trim_idem [] = refl
trim_idem (c ∷ cs) = elim (Bool-cases (is_space c)) [
  | inl space ↦ rw space (trim_idem cs)
  | inr solid ↦
      rw solid (ap trim_end (trim_start-before_end c (trim_end cs) solid) ∙ trim_end_idem (c ∷ cs))
]

module _ (lower : Text → Text) (is_mark : ℕ → Bool) where
  abbrev norm_of : FragmentInput → Text
  norm_of input = normalize_fragment lower is_mark (trim input.content)

  IsDeduped-snoc :
      (rs : List MemoryFragment) (new : MemoryFragment)
      → any (has_norm lower is_mark new.content_norm) rs ≡ false
      → IsDeduped rs
      → IsDeduped (rs ++ new ∷ [])
  IsDeduped-snoc [] new fresh d = (tt, tt)
  IsDeduped-snoc (r ∷ rs) new fresh d = (
    All-append (λ s. s.content_norm ≢ r.content_norm) rs (new ∷ []) d.0 (distinct, tt),
    IsDeduped-snoc rs new (ground (arith, fresh)) d.1,
  )
    where
      distinct : new.content_norm ≢ r.content_norm
      distinct e =
          let same = (same_text_iff r.content_norm new.content_norm).1 (sym e) in
          ground (arith, fresh, same)

  found-snoc :
      (rs : List MemoryFragment) (new : MemoryFragment)
      → any (has_norm lower is_mark new.content_norm) rs ≡ false
      → select_first (has_norm lower is_mark new.content_norm) (rs ++ new ∷ []) ≡ some new
  found-snoc [] new fresh = rw ((same_text_iff new.content_norm new.content_norm).1 refl)
  found-snoc (r ∷ rs) new fresh = ground (arith, fresh, found-snoc rs new)

  any-snoc :
      (p : MemoryFragment → Bool) (rs : List MemoryFragment) (new : MemoryFragment)
      → p new ≡ true
      → any p (rs ++ new ∷ []) ≡ true
  any-snoc p [] new h = rw h
  any-snoc p (r ∷ rs) new h = ground (arith, any-snoc p rs new h)

  -- What is left of a content in lower case without spaces, punctuation and symbols.
  abbrev pub letters : FragmentInput → Text
  letters input = keep (λ c. not (is_space c || is_mark c)) (lower (trim input.content))

  norm_of-letters : (input : FragmentInput) → norm_of input ≡ letters input
  unfolding normalize_fragment
  norm_of-letters input =
      ap (λ t. keep (λ c. not (is_space c || is_mark c)) (lower t)) (trim_idem input.content)

  -- Inserting keeps the pool free of duplicates, and inserting a content with the same letters in lower
  -- case once more, however spaced or punctuated, changes nothing and returns the row of the first
  -- time.
  pub insert_fragment_lem :
      (now now2 : ℕ) (input again : FragmentInput) (db : FragmentsDb)
      → IsDeduped db.rows
      → letters again ≡ letters input
      → let first = insert_fragment lower is_mark now input db in
        IsDeduped first.0.rows
        × (insert_fragment lower is_mark now2 again first.0 ≡ (first.0, (false, first.1.1)))
  unfolding insert_fragment
  insert_fragment_lem now now2 input again db d alike =
      let same = norm_of-letters again ∙ alike ∙ sym (norm_of-letters input) in
      elim (Bool-cases (any (has_norm lower is_mark (norm_of input)) db.rows)) [
        | inl known ↦ rw (known, same, known) (d, refl)
        | inr fresh ↦
            let new = new_row lower is_mark now db.next_id input in
            let own : has_norm lower is_mark (norm_of input) new ≡ true =
              (same_text_iff (norm_of input) (norm_of input)).1 refl in
            rw
              (
                fresh,
                same,
                any-snoc (has_norm lower is_mark (norm_of input)) db.rows new own,
                found-snoc db.rows new fresh,
              )
              (IsDeduped-snoc db.rows new fresh d, refl)
      ]
