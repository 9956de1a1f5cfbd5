-- ===== src/Commands/Amounts.antt =====
-- parseLpAmount of core/commands.ts. An amount is a decimal numeral: its digits as a number, and how
-- many of them stand after the point.
use polis_game.Base.{
  ℕ, ◌<◌, ◌≡◌, refl, not, ◌&&◌, Option, none, some, List, [], ◌∷◌, ◌++◌, length, eqb, arith,
  if◌then◌else◌, Bool-cases, inl, inr,
}
use mathlib.Core.List.{flatten}
use polis_game.Base.Texts.{Text, codes, same_text, is_digit, trim, to_lower_case}
use polis_game.Commands.Words.{without_spaces, is_empty}
use polis_game.Commands.Route.{numeral}

pub record Amount : Type 0 where
  pub mantissa : ℕ
  pub decimals : ℕ

-- `\d*` and what follows it
abbrev pub split_digits : Text → Text × Text
split_digits [] = ([], [])
split_digits (c ∷ cs) =
    let rest = split_digits cs in if is_digit c then (c ∷ rest.0, rest.1) else ([], c ∷ cs)

-- `(?:lp)?$`, and the test that the value is positive
abbrev pub ended : Text → ℕ → Text → Option Amount
ended ds decimals rest =
    if not (is_empty rest) && not (same_text rest (codes "lp"))
    then none
    else if eqb (numeral 0 ds) 0
    then none
    else some (record { mantissa = numeral 0 ds; decimals = decimals })

-- `(?:\.\d+)?`
abbrev pub with_fraction : Text → Text → Option Amount
with_fraction ds [] = ended ds 0 []
with_fraction ds (c ∷ cs) =
    let f = split_digits cs in
    if eqb c 46 && not (is_empty f.0)
    then ended (ds ++ f.0) (length f.0) f.1
    else ended ds 0 (c ∷ cs)

-- `/^(\d+(?:\.\d+)?)(?:lp)?$/`
abbrev pub amount_of : Text → Option Amount
amount_of s = let d = split_digits s in if is_empty d.0 then none else with_fraction d.0 d.1

unfoldable pub parse_lp_amount : List Text → Option Amount
unfolding flatten
parse_lp_amount tokens = amount_of (without_spaces (to_lower_case (trim (flatten tokens))))

five_lp :
    parse_lp_amount (codes "5" ∷ codes "LP" ∷ []) ≡ some (record { mantissa = 5; decimals = 0 })
unfolding parse_lp_amount
five_lp = refl

point_five : parse_lp_amount (codes "2.5lp" ∷ []) ≡ some (record { mantissa = 25; decimals = 1 })
unfolding parse_lp_amount
point_five = refl

no_amount : parse_lp_amount (codes "5." ∷ []) ≡ none
unfolding parse_lp_amount
no_amount = refl

ended-positive : (ds rest : Text) (n : ℕ) (a : Amount) → ended ds n rest ≡ some a → 0 < a.mantissa
ended-positive ds rest n a h = ground arith

with_fraction-positive :
    (ds rest : Text) (a : Amount) → with_fraction ds rest ≡ some a → 0 < a.mantissa
with_fraction-positive ds [] a h = ended-positive ds [] 0 a h
with_fraction-positive ds (c ∷ cs) a h =
    let f = split_digits cs in
    elim (Bool-cases (eqb c 46 && not (is_empty f.0))) [
      | inl point ↦ ended-positive (ds ++ f.0) f.1 (length f.0) a (rw point at h)
      | inr bare ↦ ended-positive ds (c ∷ cs) 0 a (rw bare at h)
    ]

-- An amount that is accepted is positive.
pub parse_lp_amount-positive :
    (tokens : List Text) (a : Amount) → parse_lp_amount tokens ≡ some a → 0 < a.mantissa
unfolding parse_lp_amount
parse_lp_amount-positive tokens a h =
    let d = split_digits (without_spaces (to_lower_case (trim (flatten tokens)))) in
    elim (Bool-cases (is_empty d.0)) [
      | inl missing ↦ absurd (none≢some a (rw missing at h))
      | inr digits ↦ with_fraction-positive d.0 d.1 a (rw digits at h)
    ]
  where
    none≢some : (a : Amount) → none ≡ some a → ⊥
    none≢some a e = ground (arith, e)
