-- ===== src/Store/Like.antt =====
-- `escapeLikePattern` of core/store/messages.ts and core/store/fragments.ts, and the searches by `ILIKE`.
-- `ILIKE … ESCAPE '\'` is the database's: it is a parameter, with what its documentation says of it.
use polis_game.Base.{
  ℕ, ◌≡◌, refl, ◌∙◌, Bool, true, false, ◌&&◌, ◌||◌, [], ◌∷◌, ◌++◌, map, eqb, Bool-cases, inl, inr,
  if◌then◌else◌,
}
use polis_game.Base.Texts.{Text, same_text, starts_with, includes}

-- `[\\%_]`
abbrev pub is_wildcard : ℕ → Bool
is_wildcard c = eqb c 92 || eqb c 37 || eqb c 95

unfoldable pub escape_like_pattern : Text → Text
escape_like_pattern [] = []
escape_like_pattern (c ∷ cs) =
    if is_wildcard c then 92 ∷ c ∷ escape_like_pattern cs else c ∷ escape_like_pattern cs

-- The pattern of a search, "%…%".
unfoldable pub search_pattern : Text → Text
search_pattern query = 37 ∷ (escape_like_pattern query ++ 37 ∷ [])

-- How a database matches: letters are compared by `fold`; `%` stands for any text, and what follows a
-- backslash for itself.
pub record Ilike : Type 0 where
  pub fold : ℕ → ℕ
  pub ilike : (pattern text : Text) → Bool
  pub at_end : ilike [] [] ≡ true
  pub left_over : (c : ℕ) (t : Text) → ilike [] (c ∷ t) ≡ false
  pub percent_end : (p : Text) → ilike (37 ∷ p) [] ≡ ilike p []
  pub percent :
      (p : Text) (c : ℕ) (t : Text) → ilike (37 ∷ p) (c ∷ t) ≡ (ilike p (c ∷ t) || ilike (37 ∷ p) t)
  pub escaped_end : (d : ℕ) (p : Text) → ilike (92 ∷ d ∷ p) [] ≡ false
  pub escaped :
      (d : ℕ) (p : Text) (c : ℕ) (t : Text)
      → ilike (92 ∷ d ∷ p) (c ∷ t) ≡ (eqb (fold d) (fold c) && ilike p t)
  pub plain_end : (d : ℕ) (p : Text) → is_wildcard d ≡ false → ilike (d ∷ p) [] ≡ false
  pub plain :
      (d : ℕ) (p : Text) (c : ℕ) (t : Text)
      → is_wildcard d ≡ false
      → ilike (d ∷ p) (c ∷ t) ≡ (eqb (fold d) (fold c) && ilike p t)

module _ (db : Ilike) where
  any_rest : (t : Text) → db.ilike (37 ∷ []) t ≡ true
  any_rest [] = db.percent_end [] ∙ db.at_end
  any_rest (c ∷ t) = rw (db.percent [] c t, db.left_over c t) (any_rest t)

  ilike-starts_with :
      (query t : Text)
      → db.ilike (escape_like_pattern query ++ 37 ∷ []) t
        ≡ starts_with (map db.fold query) (map db.fold t)
  unfolding escape_like_pattern
  ilike-starts_with [] t = any_rest t
  ilike-starts_with (q ∷ query) [] = elim (Bool-cases (is_wildcard q)) [
    | inl special ↦ rw (special, db.escaped_end q (escape_like_pattern query ++ 37 ∷ []))
    | inr usual ↦ rw (usual, db.plain_end q (escape_like_pattern query ++ 37 ∷ []) usual)
  ]
  ilike-starts_with (q ∷ query) (c ∷ t) =
      let p = escape_like_pattern query ++ 37 ∷ [] in
      elim (Bool-cases (is_wildcard q)) [
        | inl special ↦ rw (special, db.escaped q p c t, ilike-starts_with query t)
        | inr usual ↦ rw (usual, db.plain q p c t usual, ilike-starts_with query t)
      ]

  -- Whatever characters a query holds, also `%`, `_` and backslashes, the search finds exactly the
  -- texts that contain it, letters compared as the database compares them.
  pub search_pattern-includes :
      (query t : Text)
      → db.ilike (search_pattern query) t ≡ includes (map db.fold query) (map db.fold t)
  unfolding search_pattern
  search_pattern-includes query [] =
      db.percent_end (escape_like_pattern query ++ 37 ∷ [])
      ∙ ilike-starts_with query []
      ∙ empty_text (map db.fold query)
    where
      empty_text : (p : Text) → starts_with p [] ≡ same_text p []
      empty_text [] = refl
      empty_text (c ∷ p) = refl
  search_pattern-includes query (c ∷ t) = rw (
    db.percent (escape_like_pattern query ++ 37 ∷ []) c t,
    ilike-starts_with query (c ∷ t),
    search_pattern-includes query t,
  )
