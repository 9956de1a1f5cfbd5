-- ===== src/Events/Planner.antt =====
-- planAndArmEvents of core/supervisor.ts and rollScheduledEvent of core/events.ts for one event, over
-- its row of event_schedule_state (core/store/events.ts). Logs are left out. What the dice and the
-- sending say is an argument, and so is whether a statement succeeds: an error is swallowed, and a
-- read that fails gives the state of an event without a row.
use polis_game.Base.{
  ℕ, ◌-◌, ◌*◌, ◌/◌, Bool, true, false, not, Option, none, some, leb, ltb, eqb, if◌then◌else◌,
}
use polis_game.Time.{logical_day_index}
use polis_game.Events.Schedule.{
  EventSchedule, minutes, days, weekly, monthly, yearly, window_minutes, random_fire_time_ms,
  is_due_day,
}

pub data Outcome : Type 0 where
  fired missed skipped send_failed : Outcome

pub record ScheduleState : Type 0 where
  pub last_eval_at : Option ℕ
  pub last_fire_at : Option ℕ
  pub last_outcome : Option Outcome
  pub next_fire_at : Option ℕ

-- `none` where the table has no row for the event.
abbrev pub Row : Type 0
Row = Option ScheduleState

abbrev pub state_of : Row → ScheduleState
state_of (some st) = st
state_of none = record {
  last_eval_at = none;
  last_fire_at = none;
  last_outcome = none;
  next_fire_at = none;
}

unfoldable pub get_schedule_state : (reads : Bool) → Row → ScheduleState
get_schedule_state true row = state_of row
get_schedule_state false row = state_of none

unfoldable pub plan_schedule_fire : (writes : Bool) → Row → (fire_at_unix eval_at_unix : ℕ) → Row
plan_schedule_fire false row fire_at_unix eval_at_unix = row
plan_schedule_fire true row fire_at_unix eval_at_unix =
    some
      (record (state_of row) { last_eval_at = some eval_at_unix; next_fire_at = some fire_at_unix })

abbrev fire_time : Outcome → ℕ → Option ℕ → Option ℕ
fire_time fired now last = some now
fire_time missed now last = last
fire_time skipped now last = last
fire_time send_failed now last = last

unfoldable pub resolve_schedule_roll : (resolves : Bool) → Row → Outcome → (now : ℕ) → Row
resolve_schedule_roll false row outcome now = row
resolve_schedule_roll true none outcome now = none
resolve_schedule_roll true (some st) outcome now = some (record st {
  last_outcome = some outcome;
  last_fire_at = fire_time outcome now st.last_fire_at;
  next_fire_at = none;
})

abbrev pub catchup_grace_sec : ℕ
catchup_grace_sec = 2 * 3600

-- What the planner does with its timers: nothing, arm one for a number of seconds, roll at once, or
-- give the slot up.
pub data Action : Type 0 where
  idle : Action
  arms : ℕ → Action
  rolls_now : Action
  abandons : Action

-- `armOrCatchUp`, in seconds
unfoldable pub arm_or_catch_up : (resolves : Bool) → Row → (now_sec fire_sec : ℕ) → Row × Action
arm_or_catch_up resolves row now_sec fire_sec =
    if ltb now_sec fire_sec
    then (row, arms (fire_sec - now_sec))
    else if leb (now_sec - fire_sec) catchup_grace_sec
    then (row, rolls_now)
    else (resolve_schedule_roll resolves row missed now_sec, abandons)

abbrev pub same_day : Option ℕ → ℕ → Bool
same_day none today_idx = false
same_day (some eval_idx) today_idx = eqb eval_idx today_idx

abbrev pub eval_day : (offset : ℕ) → Option ℕ → Option ℕ
eval_day offset none = none
eval_day offset (some eval_at) = some (logical_day_index offset (eval_at * 1000))

-- A call of the planner: the row, what happens to the timer, and whether a new time was planned.
pub record Planned : Type 0 where
  pub row : Row
  pub action : Action
  pub fresh : Bool

abbrev keeps : Row × Action → Bool → Planned
keeps r fresh = record { row = r.0; action = r.1; fresh = fresh }

-- Steps 2 to 4 of the loop's body.
abbrev pub plan_today :
    (offset : ℕ) → EventSchedule → (reads writes resolves : Bool) → Row → (now roll : ℕ) → Planned
plan_today offset sch reads writes resolves row now roll =
    let st = get_schedule_state reads row in
    let now_sec = now / 1000 in
    let today_idx = logical_day_index offset now in
    let eval_idx = eval_day offset st.last_eval_at in
    let (start_min, end_min) = window_minutes sch in
    let fire_sec = random_fire_time_ms offset now start_min end_min roll / 1000 in
    if same_day eval_idx today_idx
    then keeps (row, idle) false
    else if not (is_due_day offset sch.kind now eval_idx today_idx)
    then keeps (row, idle) false
    else keeps
        (arm_or_catch_up resolves (plan_schedule_fire writes row fire_sec now_sec) now_sec fire_sec)
        true

abbrev pub plan_pending :
    (offset : ℕ)
    → EventSchedule
    → (reads writes resolves : Bool) → Row
    → (now roll : ℕ) → Option ℕ
    → Planned
plan_pending offset sch reads writes resolves row now roll (some fire_sec) =
    keeps (arm_or_catch_up resolves row (now / 1000) fire_sec) false
plan_pending offset sch reads writes resolves row now roll none =
    plan_today offset sch reads writes resolves row now roll

abbrev pub is_minutes : EventSchedule → Bool
is_minutes sch = elim sch.kind [
  | minutes _ ↦ true
  | days _ ↦ false
  | weekly _ ↦ false
  | monthly _ ↦ false
  | yearly _ _ ↦ false
]

unfoldable pub plan_and_arm :
    (offset : ℕ) → EventSchedule → (reads writes resolves : Bool) → Row → (now roll : ℕ) → Planned
plan_and_arm offset sch reads writes resolves row now roll =
    if is_minutes sch
    then keeps (row, idle) false
    else plan_pending offset sch reads writes resolves row now roll
        (get_schedule_state reads row).next_fire_at

-- What `fireEvent` answers.
pub data Sending : Type 0 where
  was_skipped was_sent not_sent : Sending

abbrev outcome_of : Sending → Outcome
outcome_of was_skipped = skipped
outcome_of was_sent = fired
outcome_of not_sent = send_failed

-- For an event with a schedule; `hit` is the outcome of the dice.
unfoldable pub roll_scheduled_event :
    (resolves : Bool) → Row → (hit : Bool) → Sending → (now : ℕ) → Row × Outcome
roll_scheduled_event resolves row hit sending now =
    let outcome = if hit then outcome_of sending else missed in
    (resolve_schedule_roll resolves row outcome now, outcome)
