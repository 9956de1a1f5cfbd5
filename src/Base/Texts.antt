-- ===== src/Base/Texts.antt =====
-- Texts as lists of character codes, for the code that walks them: JavaScript's `trim` and the
-- character classes of its regular expressions.
use Prim.Native.Char.{code}
use Prim.Native.Nat.{ℕ, ◌+◌, ◌-◌}
use Prim.Native.String.{String}
use mathlib.Core.Path.{◌≡◌, refl, ap}
use mathlib.Core.Bool.{Bool, true, false, ◌&&◌, ◌||◌}
use mathlib.Core.List.{List, [], ◌∷◌, map}
use native.Mathlib.Omega.{arith}
use polis_game.Base.Tests.{if◌then◌else◌, leb, eqb}

abbrev pub Text : Type 0
Text = List ℕ

abbrev pub codes : String → Text
codes String.[] = []
codes (String.◌∷◌ c s) = code c ∷ codes s

abbrev pub same_text : Text → Text → Bool
same_text [] [] = true
same_text [] (d ∷ ds) = false
same_text (c ∷ cs) [] = false
same_text (c ∷ cs) (d ∷ ds) = eqb c d && same_text cs ds

-- `\s`: white space and line ends, by code point
abbrev pub is_space : ℕ → Bool
is_space c =
    leb 9 c && leb c 13
    || eqb c 32
    || eqb c 160
    || eqb c 5760
    || leb 8192 c && leb c 8202
    || eqb c 8232
    || eqb c 8233
    || eqb c 8239
    || eqb c 8287
    || eqb c 12288
    || eqb c 65279

-- `\d`
abbrev pub is_digit : ℕ → Bool
is_digit c = leb 48 c && leb c 57

abbrev pub digit : ℕ → ℕ
digit c = c - 48

abbrev pub trim_start : Text → Text
trim_start [] = []
trim_start (c ∷ cs) = let rest = trim_start cs in if is_space c then rest else c ∷ cs

-- A character before the trimmed rest.
abbrev pub before_end : ℕ → Text → Text
before_end c [] = if is_space c then [] else c ∷ []
before_end c (d ∷ ds) = c ∷ d ∷ ds

abbrev pub trim_end : Text → Text
trim_end [] = []
trim_end (c ∷ cs) = before_end c (trim_end cs)

abbrev pub trim : Text → Text
trim cs = trim_end (trim_start cs)

-- `toLowerCase` on ASCII texts, which the code compares with commands and units in ASCII; other letters
-- keep their code here
abbrev pub lower : ℕ → ℕ
lower c = if leb 65 c && leb c 90 then c + 32 else c

abbrev pub to_lower_case : Text → Text
to_lower_case = map lower

abbrev pub starts_with : Text → Text → Bool
starts_with [] cs = true
starts_with (p ∷ ps) [] = false
starts_with (p ∷ ps) (c ∷ cs) = eqb p c && starts_with ps cs

abbrev pub ends_with : Text → Text → Bool
ends_with p [] = same_text p []
ends_with p (c ∷ cs) = same_text p (c ∷ cs) || ends_with p cs

abbrev pub includes : Text → Text → Bool
includes p [] = same_text p []
includes p (c ∷ cs) = starts_with p (c ∷ cs) || includes p cs

pub same_text_iff : (s t : Text) → (same_text s t ≡ true → s ≡ t) × (s ≡ t → same_text s t ≡ true)
same_text_iff [] [] = ground arith
same_text_iff [] (d ∷ ds) = ground arith
same_text_iff (c ∷ cs) [] = ground arith
same_text_iff (c ∷ cs) (d ∷ ds) = ground (arith, same_text_iff cs ds)

before_end_fixed : (c : ℕ) (r : Text) → trim_end r ≡ r → trim_end (before_end c r) ≡ before_end c r
before_end_fixed c [] h = ground arith
before_end_fixed c (d ∷ ds) h = ap (before_end c) h

pub trim_end_idem : (cs : Text) → trim_end (trim_end cs) ≡ trim_end cs
trim_end_idem [] = refl
trim_end_idem (c ∷ cs) = before_end_fixed c (trim_end cs) (trim_end_idem cs)
