-- ===== src/Time/Anchors.antt =====
-- The anchors of the logical day, the logical week and the report.
use polis_game.Base.{ℕ, ◌+◌, ◌*◌, ◌%◌, ◌≤◌, ◌<◌, ◌≡◌, ◌↔◌, arith}
use polis_game.Time.{
  day_ms, logical_day_start, logical_week_start, logical_day_index, weekly_report_range,
}

module _ (offset t : ℕ) (zone : offset < day_ms) (late : 20 * day_ms ≤ t) where
  -- In a zone less than a day east of UTC and from the twentieth day on, a moment lies in the 24 hours
  -- that follow the start of its logical day, and that start is at 05:00 local time.
  pub logical_day_start_lem :
      (logical_day_start offset t ≤ t)
      × (t < logical_day_start offset t + day_ms)
      × ((logical_day_start offset t + offset) % day_ms ≡ 18000000)
  unfolding logical_day_start
  logical_day_start_lem = ground arith

  -- In a zone less than a day east of UTC and from the twentieth day on, a moment lies in the seven
  -- days that follow the start of its logical week, which is a Monday at 05:00 local time; 1970-01-01
  -- was a Thursday.
  pub logical_week_start_lem :
      (logical_week_start offset t ≤ t)
      × (t < logical_week_start offset t + 7 * day_ms)
      × ((logical_week_start offset t + offset) % (7 * day_ms) ≡ 4 * day_ms + 18000000)
  unfolding logical_week_start
  logical_week_start_lem = ground (arith, logical_day_start_lem)

  -- In a zone of whole seconds less than a day east of UTC and from the twentieth day on, the report of
  -- a moment covers exactly seven days; its end is a Thursday at 21:00 local time, not after the
  -- moment, and less than seven days before it.
  pub weekly_report_range_lem :
      offset % 1000 ≡ 0
      → let (from, to) = weekly_report_range offset t in
        (from + 7 * 24 * 3600 ≡ to)
        × (to * 1000 ≤ t)
        × (t < to * 1000 + 7 * day_ms)
        × ((to * 1000 + offset) % (7 * day_ms) ≡ 75600000)
  unfolding weekly_report_range
  weekly_report_range_lem whole = ground arith

-- In a zone less than a day east of UTC and from the twentieth day on, two moments have the same
-- logical-day index exactly if their logical days start at the same moment, though one function
-- shifts the clock and the other tests the hour.
pub logical_day_index_iff :
    (offset s t : ℕ)
    → offset < day_ms
    → 20 * day_ms ≤ s
    → 20 * day_ms ≤ t
    → (logical_day_index offset s ≡ logical_day_index offset t)
      ↔ (logical_day_start offset s ≡ logical_day_start offset t)
unfolding logical_day_index logical_day_start
logical_day_index_iff offset s t zone late_s late_t = (λ h. ground arith, λ h. ground arith)
