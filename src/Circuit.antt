-- ===== src/Circuit.antt =====
-- core/circuit-breaker.ts and core/db-slow-query.ts: the failure detector of one PostgreSQL pool.
-- Times are milliseconds, and every reading of the clock is an argument. A listener is known by a
-- number, and `notified` lists the calls of listeners, newest first; what a listener throws is
-- swallowed by the source, so it is not modelled.
pub mod Errors
pub mod Bounds
pub mod Gate
use polis_game.Base.{
  ℕ, ◌+◌, String, Bool, true, false, List, [], ◌∷◌, ◌++◌, map, not, leb, ltb, eqb, keep,
  if◌then◌else◌,
}

pub data CircuitState : Type 0 where
  closed opened half_open : CircuitState

pub record Transition : Type 0 where
  pub listener : ℕ
  pub from : CircuitState
  pub to : CircuitState
  pub of_pool : String

pub record PgCircuitBreaker : Type 0 where
  pub label : String
  pub fail_threshold : ℕ
  pub probe_interval_ms : ℕ
  pub state : CircuitState
  pub consecutive_failures : ℕ
  pub opened_at : ℕ
  pub probe_in_flight : Bool
  pub listeners : List ℕ
  pub notified : List Transition

-- `constructor`, with the options already resolved
unfoldable pub new_breaker : String → ℕ → ℕ → PgCircuitBreaker
new_breaker label fail_threshold probe_interval_ms = record {
  label = label;
  fail_threshold = fail_threshold;
  probe_interval_ms = probe_interval_ms;
  state = closed;
  consecutive_failures = 0;
  opened_at = 0;
  probe_in_flight = false;
  listeners = [];
  notified = [];
}

unfoldable pub subscribe : PgCircuitBreaker → ℕ → PgCircuitBreaker
subscribe b fn = record b { listeners = b.listeners ++ fn ∷ [] }

-- the function that `subscribe` returns
unfoldable pub unsubscribe : PgCircuitBreaker → ℕ → PgCircuitBreaker
unsubscribe b fn = record b { listeners = keep (λ l. not (eqb l fn)) b.listeners }

abbrev pub same_state : CircuitState → CircuitState → Bool
same_state closed closed = true
same_state opened opened = true
same_state half_open half_open = true
same_state _ _ = false

-- the calls of the listeners in turn, put before the older ones
abbrev pub notify :
    List ℕ → CircuitState → CircuitState → String → List Transition → List Transition
notify [] from to label log = log
notify (l ∷ ls) from to label log =
    notify ls from to label (record { listener = l; from = from; to = to; of_pool = label } ∷ log)

unfoldable pub transition : PgCircuitBreaker → CircuitState → PgCircuitBreaker
transition b to =
    if same_state to b.state
    then b
    else record b { state = to; notified = notify b.listeners b.state to b.label b.notified }

allow_in : CircuitState → PgCircuitBreaker → ℕ → PgCircuitBreaker × Bool
unfolding transition
allow_in closed b now = (b, true)
allow_in opened b now =
    if ltb now (b.opened_at + b.probe_interval_ms)
    then (b, false)
    else (record (transition b half_open) { probe_in_flight = true }, true)
allow_in half_open b now =
    if not b.probe_in_flight then (record b { probe_in_flight = true }, true) else (b, false)

unfoldable pub allow_request : PgCircuitBreaker → ℕ → PgCircuitBreaker × Bool
unfolding allow_in
allow_request b now = allow_in b.state b now

unfoldable pub record_success : PgCircuitBreaker → PgCircuitBreaker
unfolding transition
record_success b =
    let b' = record b { consecutive_failures = 0; probe_in_flight = false } in
    if not (same_state b'.state closed) then transition b' closed else b'

fail_in : CircuitState → PgCircuitBreaker → ℕ → PgCircuitBreaker
unfolding transition
fail_in opened b now = b
fail_in half_open b now = transition (record b { probe_in_flight = false; opened_at = now }) opened
fail_in closed b now =
    let b' = record b { consecutive_failures = b.consecutive_failures + 1 } in
    if leb b'.fail_threshold b'.consecutive_failures
    then transition (record b' { opened_at = now }) opened
    else b'

unfoldable pub record_failure : PgCircuitBreaker → ℕ → PgCircuitBreaker
unfolding fail_in
record_failure b now = fail_in b.state b now

unfoldable pub reset : PgCircuitBreaker → PgCircuitBreaker
reset b = record b {
  state = closed;
  consecutive_failures = 0;
  opened_at = 0;
  probe_in_flight = false;
}
