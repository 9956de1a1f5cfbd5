-- ===== src/Events/Schedule.antt =====
-- Schedules, their windows and the days they are due.
use polis_game.Base.{
  ℕ, ◌+◌, ◌-◌, ◌*◌, ◌/◌, ◌%◌, ◌≤◌, ◌<◌, ◌≡◌, Bool, true, false, ◌&&◌, Option, none, some, arith,
  ltb, leb, eqb, if◌then◌else◌, Option-cases, inl, inr,
}
use native.Mathlib.Nat.{mod-lt}
use polis_game.Base.Texts.{Text}
use polis_game.Time.{
  day_ms, hour_ms, date_of, get_day, new_date, logical_day_start_hour, logical_day_start,
  logical_day_calendar_date, clamp_day_of_month,
}
use polis_game.Time.Calendar.{day_of_month, month_of, year_of, days_in_month}
use polis_game.Time.Texts.{parse_hhmm, parse_hhmm-IsBounded}

pub data Cadence : Type 0 where
  minutes : (every_minutes : ℕ) → Cadence
  days : (every_days : ℕ) → Cadence
  weekly : (weekday : ℕ) → Cadence
  monthly : (day : ℕ) → Cadence
  yearly : (month day : ℕ) → Cadence

pub record EventSchedule : Type 0 where
  pub kind : Cadence
  pub window_start : Option Text
  pub window_end : Option Text

abbrev pub default_fire_min : ℕ
default_fire_min = 10 * 60

abbrev value_or : ℕ → Option ℕ → ℕ
value_or d none = d
value_or d (some n) = n

-- `[startMin, endMin]`
unfoldable pub window_minutes : EventSchedule → ℕ × ℕ
window_minutes sch =
    let start = value_or default_fire_min (parse_hhmm sch.window_start) in
    let end = value_or start (parse_hhmm sch.window_end) in
    (start, if ltb end start then start else end)

-- The moment of the minute `pick` in the logical day of `now`.
unfoldable pub fire_at : (offset now pick : ℕ) → ℕ
fire_at offset now pick =
    let day_offset : ℕ = if leb (logical_day_start_hour * 60) pick then 0 else 1 in
    new_date offset (date_of offset (now - logical_day_start_hour * hour_ms) + day_offset) 0
    + pick * 60000

-- `Math.floor(Math.random() * n)` is `roll % n`, for some `roll`.
unfoldable pub random_fire_time_ms : (offset now start_min end_min roll : ℕ) → ℕ
random_fire_time_ms offset now start_min end_min roll =
    fire_at offset now (start_min + roll % (end_min - start_min + 1))

abbrev at_least_one : ℕ → ℕ
at_least_one n = if ltb n 1 then 1 else n

abbrev pub interval_passed : Option ℕ → ℕ → ℕ → Bool
interval_passed none today_idx every = true
interval_passed (some eval_idx) today_idx every = leb (at_least_one every + eval_idx) today_idx

-- `evalIdx` is the logical day of the last plan.
unfoldable pub is_due_day :
    (offset : ℕ) → Cadence → (now : ℕ) → (eval_idx : Option ℕ) → (today_idx : ℕ) → Bool
is_due_day offset (minutes every_minutes) now eval_idx today_idx = false
is_due_day offset (days every_days) now eval_idx today_idx =
    interval_passed eval_idx today_idx every_days
is_due_day offset (weekly weekday) now eval_idx today_idx =
    eqb (get_day offset (logical_day_calendar_date offset now)) (weekday % 7)
is_due_day offset (monthly day) now eval_idx today_idx =
    let ld = date_of offset (logical_day_calendar_date offset now) in
    eqb (day_of_month ld) (clamp_day_of_month (days_in_month (year_of ld) (month_of ld)) day)
is_due_day offset (yearly month day) now eval_idx today_idx =
    let ld = date_of offset (logical_day_calendar_date offset now) in
    eqb (month_of ld) month
    && eqb (day_of_month ld) (clamp_day_of_month (days_in_month (year_of ld) month) day)

value_or-parse_hhmm : (d : ℕ) (o : Option Text) → d < 1440 → value_or d (parse_hhmm o) < 1440
value_or-parse_hhmm d o h = elim (Option-cases (parse_hhmm o)) [
  | inl none_there ↦ rw none_there h
  | inr (n, there) ↦ rw there (parse_hhmm-IsBounded o n there)
]

pub window_minutes-IsBounded :
    (sch : EventSchedule)
    → ((window_minutes sch).0 ≤ (window_minutes sch).1) × ((window_minutes sch).1 < 1440)
unfolding window_minutes
window_minutes-IsBounded sch =
    let start = value_or default_fire_min (parse_hhmm sch.window_start) in
    ground (
      arith,
      value_or-parse_hhmm default_fire_min sch.window_start (omega arith),
      value_or-parse_hhmm start sch.window_end
          (value_or-parse_hhmm default_fire_min sch.window_start (omega arith)),
    )

fire_at-InDay :
    (offset now pick : ℕ)
    → offset < day_ms
    → 20 * day_ms ≤ now
    → pick < 1440
    → let fire = fire_at offset now pick in
      (logical_day_start offset now ≤ fire)
      × (fire < logical_day_start offset now + day_ms)
      × ((fire + offset) % day_ms / 60000 ≡ pick)
unfolding logical_day_start fire_at
fire_at-InDay offset now pick zone late h = ground arith

-- In a zone less than a day east of UTC and from the twentieth day on, whatever the texts of the
-- window and whatever the dice say, the time that is picked for an event lies in the logical day of
-- the moment at which it is picked, at a minute of the day within the window.
pub random_fire_time_ms-InDay :
    (offset now roll : ℕ) (sch : EventSchedule)
    → offset < day_ms
    → 20 * day_ms ≤ now
    → let (start_min, end_min) = window_minutes sch in
      let fire = random_fire_time_ms offset now start_min end_min roll in
      (logical_day_start offset now ≤ fire)
      × (fire < logical_day_start offset now + day_ms)
      × (start_min ≤ (fire + offset) % day_ms / 60000)
      × ((fire + offset) % day_ms / 60000 ≤ end_min)
unfolding random_fire_time_ms
random_fire_time_ms-InDay offset now roll sch zone late =
    let (start_min, end_min) = window_minutes sch in
    let w = window_minutes-IsBounded sch in
    let dice = mod-lt roll {m = end_min - start_min + 1} (omega arith) in
    let day =
      fire_at-InDay offset now (start_min + roll % (end_min - start_min + 1)) zone late
        (omega (arith, w, dice)) in
    (day.0, day.1, omega (arith, day.2), omega (arith, day.2, w, dice))
