-- ===== src/Events.antt =====
-- The timed events of core/supervisor.ts, core/events.ts and core/store/events.ts: when an event is
-- due, when in the day it fires, and the planner that runs at each start of a logical day and at
-- each start of the supervisor.
pub mod Schedule
pub mod Planner
pub mod Planning
