-- ===== src/Time.antt =====
-- core/time.ts: the logical day, month-free calendar arithmetic, and times of the day as text. The
-- host's time zone is a fixed number of milliseconds east of UTC.

pub mod Anchors
pub mod Texts
pub mod Timer
pub mod Calendar
use polis_game.Base.{
  ℕ, suc, ◌+◌, ◌-◌, ◌*◌, ◌/◌, ◌%◌, Bool, true, false, ◌&&◌, not, Option, none, some, List, [], ◌∷◌,
  ◌++◌, ltb, leb, eqb, if◌then◌else◌, keep,
}

abbrev pub hour_ms : ℕ
hour_ms = 3600000

abbrev pub day_ms : ℕ
day_ms = 86400000

abbrev pub logical_day_start_hour : ℕ
logical_day_start_hour = 5

abbrev pub max_timeout_ms : ℕ
max_timeout_ms = 2147483647

-- The methods of `Date`; days are counted from 1970-01-01, a Thursday.
module _ (offset : ℕ) where
  abbrev pub date_of : ℕ → ℕ
  date_of t = (t + offset) / day_ms

  abbrev pub get_hours : ℕ → ℕ
  get_hours t = (t + offset) % day_ms / hour_ms

  abbrev pub get_minutes : ℕ → ℕ
  get_minutes t = (t + offset) % hour_ms / 60000

  -- 0 is Sunday.
  abbrev pub get_day : ℕ → ℕ
  get_day t = (date_of t + 4) % 7

  -- `new Date(year, month, date, hours)`
  abbrev pub new_date : ℕ → ℕ → ℕ
  new_date date hours = date * day_ms + hours * hour_ms - offset

  -- `setDate(getDate() - days)`
  abbrev pub days_earlier : ℕ → ℕ → ℕ
  days_earlier days t = t - days * day_ms

  unfoldable pub logical_day_start : ℕ → ℕ
  logical_day_start t =
      let anchor = new_date (date_of t) logical_day_start_hour in
      if ltb (get_hours t) logical_day_start_hour then days_earlier 1 anchor else anchor

  unfoldable pub logical_week_start : ℕ → ℕ
  logical_week_start t =
      let ld = logical_day_start t in
      let days_since_monday = (get_day ld + 6) % 7 in days_earlier days_since_monday ld

  unfoldable pub logical_day_calendar_date : ℕ → ℕ
  logical_day_calendar_date t = new_date (date_of (t - logical_day_start_hour * hour_ms)) 0

  unfoldable pub logical_day_index : ℕ → ℕ
  logical_day_index t = new_date (date_of (t - logical_day_start_hour * hour_ms)) 0 / day_ms

  -- `from` and `to`, in seconds
  unfoldable pub weekly_report_range : ℕ → ℕ × ℕ
  weekly_report_range t =
      let days_back = (get_day t + 3) % 7 in
      let thursday = new_date (date_of t - days_back) 21 in
      let anchor = if ltb t thursday then days_earlier 7 thursday else thursday in
      let to = anchor / 1000 in (to - 7 * 24 * 3600, to)

abbrev pub clamp_day_of_month : ℕ → ℕ → ℕ
clamp_day_of_month days_in_month day =
    let at_least = if ltb day 1 then 1 else day in
    if ltb days_in_month at_least then days_in_month else at_least
