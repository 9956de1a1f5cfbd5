-- ===== src/Agent/Heartbeat.antt =====
-- core/heartbeat.ts: the gates of `heartbeatTick` and the daily count, for one agent. What the clock
-- and the random generator give stand as arguments; the model call itself is left out.
use polis_game.Base.{
  ℕ, suc, ◌+◌, ◌≤◌, ◌<◌, ◌≡◌, Bool, true, false, not, ◌&&◌, ◌||◌, Option, none, some, List, [], ◌∷◌,
  arith, leb, ltb, eqb, leb_iff, Bool-cases, inl, inr, if◌then◌else◌,
}

pub record HeartbeatConfig : Type 0 where
  pub cadence_minutes : ℕ
  pub enabled : Bool
  pub silent_hours : Option (ℕ × ℕ)
  pub has_probability : Bool
  pub daily_limit : Option ℕ

-- `{ day, count }`, if the agent has one.
abbrev pub DailyCount : Type 0
DailyCount = Option (ℕ × ℕ)

unfoldable pub get_daily_count : DailyCount → (today : ℕ) → ℕ
get_daily_count none today = 0
get_daily_count (some (day, count)) today = if eqb day today then count else 0

unfoldable pub increment_daily_count : DailyCount → (today : ℕ) → DailyCount
increment_daily_count none today = some (today, 1)
increment_daily_count (some (day, count)) today =
    if eqb day today then some (day, suc count) else some (today, 1)

unfoldable pub is_in_silent_hours : ℕ × ℕ → (hour : ℕ) → Bool
is_in_silent_hours (start, stop) h =
    if ltb stop start then leb start h || ltb h stop else leb start h && ltb h stop

-- What a tick reads: the hour, the logical day, and whether the roll of the dice missed.
pub record Moment : Type 0 where
  pub hour : ℕ
  pub today : ℕ
  pub roll_missed : Bool

pub data TickMode : Type 0 where
  scheduled dry_run test_mode : TickMode

abbrev pub window_of : Option (ℕ × ℕ) → ℕ × ℕ
window_of none = (22, 8)
window_of (some w) = w

abbrev pub limit_reached : Option ℕ → ℕ → Bool
limit_reached none count = false
limit_reached (some limit) count = leb limit count

-- Whether a gate stops the tick.
unfoldable pub gated : HeartbeatConfig → Moment → DailyCount → Bool
gated cfg m counts =
    if not cfg.enabled
    then true
    else if is_in_silent_hours (window_of cfg.silent_hours) m.hour
    then true
    else if cfg.has_probability && m.roll_missed
    then true
    else limit_reached cfg.daily_limit (get_daily_count counts m.today)

-- The new count, and whether the model is called.
unfoldable pub heartbeat_tick : HeartbeatConfig → TickMode → Moment → DailyCount → DailyCount × Bool
heartbeat_tick cfg dry_run m counts = (counts, false)
heartbeat_tick cfg test_mode m counts = (increment_daily_count counts m.today, true)
heartbeat_tick cfg scheduled m counts =
    if gated cfg m counts then (counts, false) else (increment_daily_count counts m.today, true)

-- The model calls of a run of scheduled ticks, and the count after it.
abbrev pub run_ticks : HeartbeatConfig → List Moment → DailyCount → DailyCount × ℕ
run_ticks cfg [] counts = (counts, 0)
run_ticks cfg (m ∷ ms) counts =
    let (counts1, called) = heartbeat_tick cfg scheduled m counts in
    let (counts2, calls) = run_ticks cfg ms counts1 in
    (counts2, if called then suc calls else calls)

abbrev pub OnDay : ℕ → List Moment → Type 0
OnDay today [] = Unit
OnDay today (m ∷ ms) = (m.today ≡ today) × OnDay today ms

increment_lem :
    (counts : DailyCount) (today : ℕ)
    → get_daily_count (increment_daily_count counts today) today
      ≡ suc (get_daily_count counts today)
unfolding get_daily_count increment_daily_count
increment_lem none today = ground arith
increment_lem (some (day, count)) today = ground arith

room :
    (cfg : HeartbeatConfig) (limit : ℕ) (m : Moment) (counts : DailyCount)
    → cfg.daily_limit ≡ some limit
    → gated cfg m counts ≡ false
    → get_daily_count counts m.today < limit
unfolding gated
room cfg limit m counts e h = grind (arith, leb_iff, e, h)

-- With a daily limit that the count of the day does not exceed, any list of scheduled ticks on that
-- day calls the model at most as often as the limit leaves room for.
pub run_ticks_within_limit :
    (cfg : HeartbeatConfig) (limit today : ℕ) (ms : List Moment) (counts : DailyCount)
    → cfg.daily_limit ≡ some limit
    → OnDay today ms
    → get_daily_count counts today ≤ limit
    → get_daily_count counts today + (run_ticks cfg ms counts).1 ≤ limit
unfolding heartbeat_tick
run_ticks_within_limit cfg limit today [] counts e d h = omega arith
run_ticks_within_limit cfg limit today (m ∷ ms) counts e d h =
    elim (Bool-cases (gated cfg m counts)) [
      | inl stopped ↦ rw stopped (run_ticks_within_limit cfg limit today ms counts e d.1 h)
      | inr free ↦ rw free (
          let counts1 = increment_daily_count counts m.today in
          grind (
            arith,
            d.0,
            increment_lem counts today,
            room cfg limit m counts e free,
            run_ticks_within_limit cfg limit today ms counts1 e d.1,
          ))
    ]
