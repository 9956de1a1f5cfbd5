-- ===== src/Circuit/Gate.antt =====
-- core/db.ts: how `getLpDb`, `lpTx` and `pgExecutor` drive the breaker of the shared pool. What the
-- server answers is an argument of the definitions.
use polis_game.Base.{
  ℕ, ◌+◌, ◌≤◌, ◌<◌, ◌≡◌, ◌⊎◌, true, false, not, Option, List, [], ◌∷◌, arith, All, if◌then◌else◌,
}
use polis_game.Circuit.{
  closed, opened, half_open, PgCircuitBreaker, allow_request, record_success, record_failure,
}
use polis_game.Circuit.Errors.{PgError, should_count_as_circuit_failure}

-- What one statement came to: the rows, or an error with the time it took and the part of that time
-- in which the event loop was stalled.
pub data Outcome : Type 0 where
  answered : Outcome
  threw : Option PgError → (elapsed_ms blocked_ms : ℕ) → Outcome

-- The reports of `pgExecutor.query` to the breaker, at time `now`.
unfoldable pub report : ℕ → PgCircuitBreaker → ℕ → Outcome → PgCircuitBreaker
report slow_ms b now answered = record_success b
report slow_ms b now (threw e elapsed_ms blocked_ms) =
    if should_count_as_circuit_failure e elapsed_ms blocked_ms slow_ms
    then record_failure b now
    else b

-- The handler of the pool's 'error' events, with the staleness of the loop's last tick.
unfoldable pub pool_error :
    ℕ → PgCircuitBreaker → ℕ → Option PgError → (staleness : ℕ) → PgCircuitBreaker
pool_error slow_ms b now e staleness =
    if should_count_as_circuit_failure e staleness staleness slow_ms
    then record_failure b now
    else b

pub data Reply : Type 0 where
  refused : Reply
  ran : Outcome → Reply

-- `(await getLpDb()).query(…)` outside a transaction: the gate, then the statement.
unfoldable pub gated_query : ℕ → PgCircuitBreaker → ℕ → Outcome → PgCircuitBreaker × Reply
unfolding report
gated_query slow_ms b now o =
    let (b', granted) = allow_request b now in
    if not granted then (b', refused) else (report slow_ms b' now o, ran o)

-- A burst of calls, each with its time and what the server would say.
unfoldable pub burst : ℕ → PgCircuitBreaker → List (ℕ × Outcome) → PgCircuitBreaker × List Reply
burst slow_ms b [] = (b, [])
burst slow_ms b ((now, o) ∷ calls) =
    let (b', r) = gated_query slow_ms b now o in
    let (b'', rs) = burst slow_ms b' calls in (b'', r ∷ rs)

abbrev pub IsRefused : Reply → Type 0
IsRefused refused = Unit
IsRefused (ran o) = ⊥

jammed_query :
    (slow_ms : ℕ) (b : PgCircuitBreaker) (now : ℕ) (o : Outcome)
    → b.state ≡ half_open
    → b.probe_in_flight ≡ true
    → gated_query slow_ms b now o ≡ (b, refused)
unfolding gated_query allow_request
jammed_query slow_ms b now o h p = ground arith

jammed_burst :
    (slow_ms : ℕ) (b : PgCircuitBreaker) (calls : List (ℕ × Outcome))
    → b.state ≡ half_open
    → b.probe_in_flight ≡ true
    → All IsRefused (burst slow_ms b calls).1
unfolding burst
jammed_burst slow_ms b [] h p = tt
jammed_burst slow_ms b ((now, o) ∷ calls) h p =
    rw (jammed_query slow_ms b now o h p) (tt, jammed_burst slow_ms b calls h p)

-- When an open breaker is past its interval and the statement that it sends as its probe fails by an
-- error that does not count (one of the application, or one put down to a stalled event loop), every
-- later call through the gate is refused, at any time, also those that the server would answer, as
-- long as nothing but such calls reaches the breaker: no error of an idle connection, and no
-- statement let in before the probe that ends only now.
pub uncounted_probe_jams :
    (slow_ms : ℕ) (b : PgCircuitBreaker) (now elapsed_ms blocked_ms : ℕ) (e : Option PgError)
    (calls : List (ℕ × Outcome))
    → b.state ≡ opened
    → b.opened_at + b.probe_interval_ms ≤ now
    → should_count_as_circuit_failure e elapsed_ms blocked_ms slow_ms ≡ false
    → let probe = gated_query slow_ms b now (threw e elapsed_ms blocked_ms) in
      (probe.1 ≡ ran (threw e elapsed_ms blocked_ms))
      × All IsRefused (burst slow_ms probe.0 calls).1
unfolding gated_query allow_request
uncounted_probe_jams slow_ms b now elapsed_ms blocked_ms e calls h le u =
    let b' = (gated_query slow_ms b now (threw e elapsed_ms blocked_ms)).0 in
    (ground arith, jammed_burst slow_ms b' calls (ground arith) (ground arith))

-- A call through the gate ends in one of two ways, by whether the breaker grants the request: refused
-- with the breaker as the request left it, or run with its outcome reported. It is refused exactly
-- if the breaker is open and the interval has not passed, or a probe is out.
pub gated_query_cases :
    (slow_ms : ℕ) (b : PgCircuitBreaker) (now : ℕ) (o : Outcome)
    → ((((b.state ≡ opened) × (now < b.opened_at + b.probe_interval_ms))
          ⊎ ((b.state ≡ half_open) × (b.probe_in_flight ≡ true)))
        × (gated_query slow_ms b now o ≡ (b, refused)))
      ⊎ (((b.state ≡ closed)
            ⊎ ((b.state ≡ opened) × (b.opened_at + b.probe_interval_ms ≤ now))
            ⊎ ((b.state ≡ half_open) × (b.probe_in_flight ≡ false)))
          × (gated_query slow_ms b now o ≡ (report slow_ms (allow_request b now).0 now o, ran o)))
unfolding gated_query allow_request
gated_query_cases slow_ms b now o = ground arith

-- An error of an idle connection that counts frees a breaker whose probe never reported: it is open
-- again, and once its interval has passed since then, a call is let through.
pub pool_error-frees :
    (slow_ms : ℕ) (b : PgCircuitBreaker) (now later staleness : ℕ) (e : Option PgError)
    → b.state ≡ half_open
    → should_count_as_circuit_failure e staleness staleness slow_ms ≡ true
    → now + b.probe_interval_ms ≤ later
    → (allow_request (pool_error slow_ms b now e staleness) later).1 ≡ true
unfolding pool_error record_failure allow_request
pool_error-frees slow_ms b now later staleness e h c le = ground arith
