-- ===== src/Time/Texts.antt =====
-- parseHHMM and formatHHMM of core/time.ts.
use polis_game.Base.{
  ℕ, ◌+◌, ◌*◌, ◌/◌, ◌%◌, ◌<◌, ◌≡◌, ◌&&◌, Option, none, some, [], ◌∷◌, ◌++◌, arith, ltb, eqb,
  if◌then◌else◌, ◌∙◌, ap,
}
use polis_game.Base.Texts.{Text, is_digit, digit, trim}
use polis_game.Time.{get_hours, get_minutes, day_ms}

abbrev pub colon : ℕ
colon = 58

-- `String(n).padStart(2, '0')` for a number below 100
abbrev pub pad2 : ℕ → Text
pad2 n = (48 + n / 10) ∷ (48 + n % 10) ∷ []

abbrev pub format_hhmm : ℕ → ℕ → Text
format_hhmm offset ms = pad2 (get_hours offset ms) ++ colon ∷ pad2 (get_minutes offset ms)

abbrev pub in_day : ℕ → Option ℕ
in_day min = if ltb min (24 * 60) then some min else none

-- `/^(\d{1,2}):(\d{2})$/`, one case for each length of the first group
abbrev pub hours_minutes : Text → Option (ℕ × ℕ)
hours_minutes (a ∷ b ∷ c ∷ d ∷ []) =
    if is_digit a && eqb b colon && is_digit c && is_digit d
    then some (digit a, digit c * 10 + digit d)
    else none
hours_minutes (a ∷ b ∷ c ∷ d ∷ e ∷ []) =
    if is_digit a && is_digit b && eqb c colon && is_digit d && is_digit e
    then some (digit a * 10 + digit b, digit d * 10 + digit e)
    else none
hours_minutes cs = none

unfoldable pub parse_hhmm : Option Text → Option ℕ
parse_hhmm none = none
parse_hhmm (some []) = none
parse_hhmm (some (c ∷ cs)) =
    let m = hours_minutes (trim (c ∷ cs)) in
    elim m [ none ↦ none | some hm ↦ in_day (hm.0 * 60 + hm.1) ]

parse_pads :
    (h m : ℕ) → h < 24 → m < 60 → parse_hhmm (some (pad2 h ++ colon ∷ pad2 m)) ≡ some (h * 60 + m)
unfolding parse_hhmm
parse_pads h m hh hm = ground arith

-- The local time of day that formatHHMM writes for a moment is read back by parseHHMM as the
-- minutes since local midnight.
pub parse-format :
    (offset ms : ℕ)
    → parse_hhmm (some (format_hhmm offset ms)) ≡ some ((ms + offset) % day_ms / 60000)
parse-format offset ms =
    parse_pads (get_hours offset ms) (get_minutes offset ms) (omega arith) (omega arith)
    ∙ ap some (omega arith)

-- Whatever the text, the minutes that parseHHMM returns lie within one day.
pub parse_hhmm-IsBounded : (s : Option Text) (n : ℕ) → parse_hhmm s ≡ some n → n < 1440
unfolding parse_hhmm
parse_hhmm-IsBounded none n h = ground arith
parse_hhmm-IsBounded (some []) n h = ground arith
parse_hhmm-IsBounded (some (c ∷ cs)) n h = ground arith
