-- ===== src/Time/Calendar.antt =====
-- The months of core/time.ts: the Gregorian calendar over the count of days since 1970-01-01, which
-- `Date` of the host provides, and the dates as text.
use polis_game.Base.{
  ℕ, suc, ◌+◌, ◌-◌, ◌*◌, ◌/◌, ◌%◌, ◌≡◌, refl, Bool, ◌&&◌, ◌||◌, not, ◌++◌, ltb, leb, eqb,
  if◌then◌else◌,
}
use polis_game.Base.Texts.{Text, codes}
use polis_game.Time.{date_of, days_earlier, logical_day_start}
use polis_game.Time.Texts.{pad2, format_hhmm}

-- The day within a cycle of 400 years that begins on March 1; 719468 days lie between the start of
-- such a cycle and 1970-01-01.
abbrev day_of_era : ℕ → ℕ
day_of_era date = (date + 719468) % 146097

abbrev year_of_era : ℕ → ℕ
year_of_era date =
    let doe = day_of_era date in (doe - doe / 1460 + doe / 36524 - doe / 146096) / 365

-- Days since March 1.
abbrev day_of_year : ℕ → ℕ
day_of_year date = let yoe = year_of_era date in day_of_era date - (365 * yoe + yoe / 4 - yoe / 100)

-- Months since March.
abbrev month_index : ℕ → ℕ
month_index date = (5 * day_of_year date + 2) / 153

-- `getDate()`, from 1
abbrev pub day_of_month : ℕ → ℕ
day_of_month date = day_of_year date - (153 * month_index date + 2) / 5 + 1

-- `getMonth() + 1`
abbrev pub month_of : ℕ → ℕ
month_of date = let m = month_index date in if ltb m 10 then m + 3 else m - 9

-- `getFullYear()`
abbrev pub year_of : ℕ → ℕ
year_of date =
    let year = year_of_era date + (date + 719468) / 146097 * 400 in
    if leb (month_of date) 2 then suc year else year

abbrev is_leap : ℕ → Bool
is_leap year = eqb (year % 4) 0 && not (eqb (year % 100) 0) || eqb (year % 400) 0

-- `new Date(year, month, 0).getDate()` for a month from 1 to 12
abbrev pub days_in_month : ℕ → ℕ → ℕ
days_in_month year month =
    if eqb month 2
    then (if is_leap year then 29 else 28)
    else if eqb month 4 || eqb month 6 || eqb month 9 || eqb month 11
    then 30
    else 31

unfoldable pub logical_month_start : ℕ → ℕ → ℕ
logical_month_start offset t =
    let ld = logical_day_start offset t in
    days_earlier offset (day_of_month (date_of offset ld) - 1) ld

-- `${n}` for a year with four digits
abbrev pub four_digits : ℕ → Text
four_digits n = pad2 (n / 100) ++ pad2 (n % 100)

unfoldable pub local_date : ℕ → ℕ → Text
local_date offset t =
    let date = date_of offset t in
    four_digits (year_of date)
    ++ codes "-"
    ++ pad2 (month_of date)
    ++ codes "-"
    ++ pad2 (day_of_month date)

unfoldable pub local_date_time_from_epoch_sec : ℕ → ℕ → Text
unfolding local_date
local_date_time_from_epoch_sec offset sec =
    local_date offset (sec * 1000) ++ codes " " ++ format_hhmm offset (sec * 1000)

leap_day : local_date 28800000 1709136000000 ≡ codes "2024-02-29"
unfolding local_date
leap_day = refl

new_year : local_date_time_from_epoch_sec 28800000 1767196799 ≡ codes "2025-12-31 23:59"
unfolding local_date_time_from_epoch_sec
new_year = refl

month_of_march :
    local_date 28800000 (logical_month_start 28800000 1741640400000) ≡ codes "2025-03-01"
unfolding local_date logical_month_start logical_day_start
month_of_march = refl
