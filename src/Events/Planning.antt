-- ===== src/Events/Planning.antt =====
-- The planner plans an event at most once in a logical day, however often it runs and whatever is
-- rolled in between.
use polis_game.Base.{
  ℕ, suc, ◌*◌, ◌/◌, ◌%◌, ◌≤◌, ◌<◌, ◌≡◌, refl, ◌∙◌, ap, sym, inl, inr, Bool, true, false, Option,
  none, some, List, [], ◌∷◌, All, arith, if◌then◌else◌, Bool-cases,
}
use mathlib.Core.Bool.{false≢true}
use polis_game.Time.{day_ms, logical_day_index}
use polis_game.Events.Schedule.{EventSchedule, is_due_day, window_minutes, random_fire_time_ms}
use polis_game.Events.Planner.{
  Row, state_of, get_schedule_state, resolve_schedule_roll, plan_schedule_fire, arm_or_catch_up,
  same_day, eval_day, Planned, plan_today, plan_pending, is_minutes, plan_and_arm, Outcome, Sending,
  roll_scheduled_event,
}

pub data Step : Type 0 where
  plans : (reads writes resolves : Bool) → (now roll : ℕ) → Step
  rolls : (resolves hit : Bool) → Sending → (now : ℕ) → Step

-- The row after the steps, and how many new times were planned.
abbrev pub run : (offset : ℕ) → EventSchedule → Row → List Step → Row × ℕ
run offset sch row [] = (row, 0)
run offset sch row (plans reads writes resolves now roll ∷ steps) =
    let p = plan_and_arm offset sch reads writes resolves row now roll in
    let rest = run offset sch p.row steps in (rest.0, if p.fresh then suc rest.1 else rest.1)
run offset sch row (rolls resolves hit sending now ∷ steps) =
    run offset sch (roll_scheduled_event resolves row hit sending now).0 steps

-- A call of the planner is a moment of the logical day `today`, from the twentieth day on, and its
-- read and the write of a plan succeed.
abbrev pub InDay : (offset today : ℕ) → Step → Type 0
InDay offset today (plans reads writes resolves now roll) =
    (logical_day_index offset now ≡ today) × (20 * day_ms ≤ now) × (reads ≡ true) × (writes ≡ true)
InDay offset today (rolls resolves hit sending now) = Unit

last_eval : Row → Option ℕ
last_eval row = (state_of row).last_eval_at

resolve-last_eval :
    (resolves : Bool) (row : Row) (o : Outcome) (now : ℕ)
    → last_eval (resolve_schedule_roll resolves row o now) ≡ last_eval row
unfolding last_eval resolve_schedule_roll
resolve-last_eval false row o now = refl
resolve-last_eval true none o now = refl
resolve-last_eval true (some st) o now = refl

arm-last_eval :
    (resolves : Bool) (row : Row) (now_sec fire_sec : ℕ)
    → last_eval (arm_or_catch_up resolves row now_sec fire_sec).0 ≡ last_eval row
unfolding arm_or_catch_up
arm-last_eval resolves row now_sec fire_sec =
    ground (arith, resolve-last_eval resolves row Outcome.missed now_sec)

-- The whole seconds of a moment lie in the same logical day.
whole_second :
    (offset now : ℕ)
    → offset % 1000 ≡ 0
    → offset < day_ms
    → 20 * day_ms ≤ now
    → logical_day_index offset (now / 1000 * 1000) ≡ logical_day_index offset now
unfolding logical_day_index
whole_second offset now whole zone late = ground arith

-- A call either leaves the day of the last plan as it is, or plans for its own day.
record Called (offset : ℕ) (row : Row) (now : ℕ) (p : Planned) : Type 0 where
  no_plan : p.fresh ≡ false → last_eval p.row ≡ last_eval row
  new_plan :
      p.fresh ≡ true
      → (eval_day offset (last_eval p.row) ≡ some (logical_day_index offset now))
        × (same_day (eval_day offset (last_eval row)) (logical_day_index offset now) ≡ false)

module _ (offset : ℕ) (whole : offset % 1000 ≡ 0) (zone : offset < day_ms)
    (sch : EventSchedule) where
  plan-last_eval :
      (row : Row) (fire_sec now : ℕ)
      → 20 * day_ms ≤ now
      → eval_day offset (last_eval (plan_schedule_fire true row fire_sec (now / 1000)))
        ≡ some (logical_day_index offset now)
  unfolding plan_schedule_fire last_eval
  plan-last_eval row fire_sec now late = ap some (whole_second offset now whole zone late)

  planned_for :
      (resolves : Bool) (now fire_sec : ℕ) (row : Row)
      → 20 * day_ms ≤ now
      → eval_day offset (
          last_eval
            (arm_or_catch_up resolves
              (plan_schedule_fire true row fire_sec (now / 1000))
              (now / 1000)
              fire_sec).0)
        ≡ some (logical_day_index offset now)
  planned_for resolves now fire_sec row late =
      ap (eval_day offset) (
        arm-last_eval resolves (plan_schedule_fire true row fire_sec (now / 1000)) (now / 1000)
          fire_sec)
      ∙ plan-last_eval row fire_sec now late

  idle-Called :
      (row : Row) (now : ℕ) (p : Planned) → p.row ≡ row → p.fresh ≡ false → Called offset row now p
  idle-Called row now p same old = record {
    no_plan = λ h. ap last_eval same;
    new_plan = λ h. absurd (false≢true (sym old ∙ h));
  }

  today-Called :
      (resolves : Bool) (row : Row) (now roll : ℕ)
      → 20 * day_ms ≤ now
      → Called offset row now (plan_today offset sch true true resolves row now roll)
  unfolding last_eval get_schedule_state
  today-Called resolves row now roll late =
      let eval_idx = eval_day offset (state_of row).last_eval_at in
      let today_idx = logical_day_index offset now in
      elim (Bool-cases (same_day eval_idx today_idx)) [
        | inl done ↦ rw done (idle-Called row now _ refl refl)
        | inr open_day ↦ elim (Bool-cases (is_due_day offset sch.kind now eval_idx today_idx)) [
          | inr rest ↦ rw (open_day, rest) (idle-Called row now _ refl refl)
          | inl due ↦
              rw (open_day, due)
                (record {
                  no_plan = λ h. absurd (false≢true (sym h));
                  new_plan = λ h. (
                    planned_for resolves now
                        (random_fire_time_ms offset now (window_minutes sch).0
                            (window_minutes sch).1 roll
                          / 1000)
                        row late,
                    open_day,
                  );
                })
        ]
      ]

  pending-Called :
      (resolves : Bool) (row : Row) (now roll : ℕ) (o : Option ℕ)
      → 20 * day_ms ≤ now
      → Called offset row now (plan_pending offset sch true true resolves row now roll o)
  unfolding last_eval
  pending-Called resolves row now roll (some fire_sec) late = record {
    no_plan = λ h. arm-last_eval resolves row (now / 1000) fire_sec;
    new_plan = λ h. absurd (ground (arith, h));
  }
  pending-Called resolves row now roll none late = today-Called resolves row now roll late

  plan_and_arm-Called :
      (resolves : Bool) (row : Row) (now roll : ℕ)
      → 20 * day_ms ≤ now
      → Called offset row now (plan_and_arm offset sch true true resolves row now roll)
  unfolding plan_and_arm
  plan_and_arm-Called resolves row now roll late = elim (Bool-cases (is_minutes sch)) [
    | inl recurring ↦ rw recurring (idle-Called row now _ refl refl)
    | inr once ↦
        rw once
          (pending-Called resolves row now roll (get_schedule_state true row).next_fire_at late)
  ]

  same_day-some : {o : Option ℕ} {e : ℕ} (d : ℕ) → e ≡ d → o ≡ some d → same_day o e ≡ false → ⊥
  same_day-some d same h other = ground (arith, same, h, other)

  -- After a plan of the day there is none.
  run_planned :
      (steps : List Step) (row : Row) (today : ℕ)
      → eval_day offset (last_eval row) ≡ some today
      → All (InDay offset today) steps
      → (run offset sch row steps).1 ≡ 0
  unfolding roll_scheduled_event
  run_planned [] row today h a = refl
  run_planned (rolls resolves hit sending now ∷ steps) row today h a =
      run_planned steps _ today (ap (eval_day offset) (resolve-last_eval resolves row _ now) ∙ h)
        a.1
  run_planned (plans false writes resolves now roll ∷ steps) row today h a =
      absurd (false≢true a.0.2)
  run_planned (plans true false resolves now roll ∷ steps) row today h a = absurd (false≢true a.0.3)
  run_planned (plans true true resolves now roll ∷ steps) row today h a =
      let p = plan_and_arm offset sch true true resolves row now roll in
      let c = plan_and_arm-Called resolves row now roll a.0.1 in
      elim (Bool-cases p.fresh) [
        | inl fresh ↦ absurd (same_day-some today a.0.0 h (c.new_plan fresh).1)
        | inr old ↦
            rw old (run_planned steps p.row today (ap (eval_day offset) (c.no_plan old) ∙ h) a.1)
      ]

  -- In a zone of whole seconds less than a day east of UTC and from the twentieth day on: however
  -- often the planner runs within one logical day, and whatever is rolled in between, it plans at
  -- most one new time for an event, from any row of the table, as long as its reads and the writes
  -- of a new plan succeed.
  pub plans_at_most_once :
      (steps : List Step) (row : Row) (today : ℕ)
      → All (InDay offset today) steps
      → (run offset sch row steps).1 ≤ 1
  plans_at_most_once [] row today a = omega arith
  plans_at_most_once (rolls resolves hit sending now ∷ steps) row today a =
      plans_at_most_once steps (roll_scheduled_event resolves row hit sending now).0 today a.1
  plans_at_most_once (plans false writes resolves now roll ∷ steps) row today a =
      absurd (false≢true a.0.2)
  plans_at_most_once (plans true false resolves now roll ∷ steps) row today a =
      absurd (false≢true a.0.3)
  plans_at_most_once (plans true true resolves now roll ∷ steps) row today a =
      let p = plan_and_arm offset sch true true resolves row now roll in
      let c = plan_and_arm-Called resolves row now roll a.0.1 in
      elim (Bool-cases p.fresh) [
        | inl fresh ↦
            let later = run_planned steps p.row today ((c.new_plan fresh).0 ∙ ap some a.0.0) a.1 in
            rw fresh (omega (arith, later))
        | inr old ↦ rw old (plans_at_most_once steps p.row today a.1)
      ]
