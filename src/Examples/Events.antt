-- ===== src/Examples/Events.antt =====
-- An event of every Wednesday in Shanghai, with a window in the evening.
use polis_game.Base.{
  ◌+◌, ◌/◌, ◌%◌, ◌≤◌, ◌<◌, ◌≡◌, refl, true, false, some, none, List, [], ◌∷◌, All, arith,
}
use polis_game.Base.Texts.{codes}
use polis_game.Time.{day_ms, hour_ms, logical_day_index, logical_day_start}
use polis_game.Events.Schedule.{
  EventSchedule, weekly, window_minutes, random_fire_time_ms, random_fire_time_ms-InDay,
}
use polis_game.Events.Planner.{Row, abandons, was_sent, plan_and_arm}
use polis_game.Events.Planning.{Step, plans, rolls, run, InDay, plans_at_most_once}
use polis_game.Examples.Time.{shanghai, moment}

abbrev evening : EventSchedule
evening = record {
  kind = weekly 3;
  window_start = some (codes "20:00");
  window_end = some (codes "02:00");
}

abbrev steps : List Step
steps =
    plans true true true moment 7
    ∷ rolls true true was_sent 1741179600
    ∷ plans true true false (moment + hour_ms) 9
    ∷ []

one_plan : (run shanghai evening none steps).1 ≡ 1
unfolding plan_and_arm polis_game.Events.Planner.get_schedule_state
    polis_game.Events.Planner.roll_scheduled_event polis_game.Events.Planner.resolve_schedule_roll
    polis_game.Events.Planner.arm_or_catch_up polis_game.Events.Planner.plan_schedule_fire
    polis_game.Events.Schedule.is_due_day polis_game.Time.logical_day_calendar_date
    logical_day_index window_minutes polis_game.Time.Texts.parse_hhmm random_fire_time_ms
    polis_game.Events.Schedule.fire_at
one_plan = refl

-- Where the write of a plan fails, the next call of the day plans once more.
unwritten_plan :
    (run shanghai evening none
      (plans true false true moment 7 ∷ plans true true true (moment + hour_ms) 9 ∷ [])).1
    ≡ 2
unfolding plan_and_arm polis_game.Events.Planner.get_schedule_state
    polis_game.Events.Planner.resolve_schedule_roll polis_game.Events.Planner.arm_or_catch_up
    polis_game.Events.Planner.plan_schedule_fire polis_game.Events.Schedule.is_due_day
    polis_game.Time.logical_day_calendar_date logical_day_index window_minutes
    polis_game.Time.Texts.parse_hhmm random_fire_time_ms polis_game.Events.Schedule.fire_at
unwritten_plan = refl

-- A plan that the supervisor has slept through is given up, and the event of today is not planned.
abbrev stale : Row
stale = some (record {
  last_eval_at = some 1740547200;
  last_fire_at = none;
  last_outcome = none;
  next_fire_at = some 1740571200;
})

stale_plan_blocks_today :
    let p = plan_and_arm shanghai evening true true true stale moment 7 in
    (p.action ≡ abandons) × (p.fresh ≡ false)
unfolding plan_and_arm polis_game.Events.Planner.get_schedule_state
    polis_game.Events.Planner.resolve_schedule_roll polis_game.Events.Planner.arm_or_catch_up
stale_plan_blocks_today = (refl, refl)

today_is : All (InDay shanghai (logical_day_index shanghai moment)) steps
unfolding logical_day_index
today_is = ((refl, omega arith, refl, refl), (tt, ((refl, omega arith, refl, refl), tt)))

plans_at_most_once_example : (run shanghai evening none steps).1 ≤ 1
plans_at_most_once_example =
    plans_at_most_once shanghai refl (omega arith) evening steps none
      (logical_day_index shanghai moment) today_is

random_fire_time_ms-InDay_example :
    let (start_min, end_min) = window_minutes evening in
    let fire = random_fire_time_ms shanghai moment start_min end_min 12345 in
    (logical_day_start shanghai moment ≤ fire)
    × (fire < logical_day_start shanghai moment + day_ms)
    × (start_min ≤ (fire + shanghai) % day_ms / 60000)
    × ((fire + shanghai) % day_ms / 60000 ≤ end_min)
random_fire_time_ms-InDay_example =
    random_fire_time_ms-InDay shanghai moment 12345 evening (omega arith) (omega arith)
