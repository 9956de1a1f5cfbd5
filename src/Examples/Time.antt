-- ===== src/Examples/Time.antt =====
-- A moment in Shanghai, eight hours east of UTC: 2025-03-05 13:20:00, a Wednesday.
use polis_game.Base.{ℕ, ◌≡◌, refl, some, arith, ◌∷◌, []}
use polis_game.Base.Int.{pos}
use polis_game.Base.Texts.{codes}
use polis_game.Time.Texts.{format_hhmm, parse_hhmm}
use polis_game.Time.Timer.{Chain, safe_set_timeout, safe_set_timeout-Chain}

abbrev pub shanghai : ℕ
shanghai = 28800000

abbrev pub moment : ℕ
moment = 1741152000000

format_moment : format_hhmm shanghai moment ≡ codes "13:20"
format_moment = refl

parse_late_minutes : parse_hhmm (some (codes " 10:75 ")) ≡ some 675
unfolding parse_hhmm
parse_late_minutes = refl

three_waits : safe_set_timeout 3 (pos 25) 10 ≡ some (10 ∷ 10 ∷ 5 ∷ [])
unfolding safe_set_timeout
three_waits = refl

safe_set_timeout-Chain_example : Chain 25 10 (safe_set_timeout 3 (pos 25) 10)
safe_set_timeout-Chain_example = safe_set_timeout-Chain 3 (pos 25) 10 (omega arith) (omega arith)
