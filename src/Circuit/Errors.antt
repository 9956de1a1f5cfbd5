-- ===== src/Circuit/Errors.antt =====
-- core/db-slow-query.ts, and which errors of core/circuit-breaker.ts count against a breaker.
-- `message_hit` is the verdict of CONNECTION_LAYER_MSG_RE on the error's message.
use polis_game.Base.{
  ℕ, ◌+◌, ◌-◌, ◌≤◌, ◌<◌, ◌≡◌, String, ◌==◌, Bool, true, false, not, ◌&&◌, ◌↔◌, ◌⊎◌, Option, none,
  some, List, [], ◌∷◌, any, leb, arith, if◌then◌else◌,
}

pub data SlowQueryCause : Type 0 where
  db pool loop none_slow : SlowQueryCause

pub record SlowQueryTiming : Type 0 where
  pub exec_ms : ℕ
  pub exec_blocked_ms : ℕ
  pub pool_wait_ms : ℕ
  pub wait_blocked_ms : ℕ

-- `-` stops at 0, which is the `Math.max(0, …)` of the source.
unfoldable pub classify_slow_query : SlowQueryTiming → ℕ → SlowQueryCause
classify_slow_query t threshold_ms =
    let db_ms = t.exec_ms - t.exec_blocked_ms in
    let wait_ms = t.pool_wait_ms - t.wait_blocked_ms in
    if leb threshold_ms db_ms
    then db
    else if leb threshold_ms wait_ms
    then pool
    else (if leb threshold_ms (t.exec_blocked_ms + t.wait_blocked_ms) then loop else none_slow)

abbrev pub connection_layer_codes : List String
connection_layer_codes =
    "ECONNREFUSED" ∷ "ECONNRESET" ∷ "ETIMEDOUT" ∷ "ENOTFOUND" ∷ "EHOSTUNREACH" ∷ "EPIPE"
    ∷ "EAI_AGAIN" ∷ "57014" ∷ "57P01" ∷ "57P02" ∷ "57P03" ∷ "08000" ∷ "08001" ∷ "08003" ∷ "08004"
    ∷ "08006" ∷ "28P01" ∷ []

-- A missing code and an empty one are the same to the source.
pub record PgError : Type 0 where
  pub code : String
  pub message_hit : Bool

unfoldable pub is_pg_connection_layer_error : Option PgError → Bool
is_pg_connection_layer_error none = false
is_pg_connection_layer_error (some err) =
    if not (err.code == "") && any (λ c. c == err.code) connection_layer_codes
    then true
    else err.message_hit

abbrev pub is_loop : SlowQueryCause → Bool
is_loop loop = true
is_loop _ = false

unfoldable pub should_count_as_circuit_failure : Option PgError → ℕ → ℕ → ℕ → Bool
unfolding classify_slow_query
should_count_as_circuit_failure e elapsed_ms blocked_ms threshold_ms =
    if not (is_pg_connection_layer_error e)
    then false
    else not (
        is_loop (
          classify_slow_query
            (record {
              exec_ms = elapsed_ms;
              exec_blocked_ms = blocked_ms;
              pool_wait_ms = 0;
              wait_blocked_ms = 0;
            })
            threshold_ms))

-- An error counts against the breaker exactly when it is a connection-layer error and is not
-- explained by the stalled event loop alone: either the time left after taking off the stall reaches
-- the threshold, or the stall itself does not reach it.
pub should_count_iff :
    (e : Option PgError) (elapsed_ms blocked_ms threshold_ms : ℕ)
    → (should_count_as_circuit_failure e elapsed_ms blocked_ms threshold_ms ≡ true) ↔ (
        (is_pg_connection_layer_error e ≡ true)
        × ((threshold_ms ≤ elapsed_ms - blocked_ms) ⊎ (blocked_ms < threshold_ms)))
unfolding should_count_as_circuit_failure
should_count_iff e elapsed_ms blocked_ms threshold_ms = (λ h. ground arith, λ h. ground arith)

-- The causes partition the timings: `db` is named exactly when execution is slow of itself, `pool`
-- exactly when only the wait is, and `loop` only when neither is.
pub classify_slow_query_cases :
    (t : SlowQueryTiming) (threshold_ms : ℕ)
    → let db_ms = t.exec_ms - t.exec_blocked_ms in
      let wait_ms = t.pool_wait_ms - t.wait_blocked_ms in
      let blocked = t.exec_blocked_ms + t.wait_blocked_ms in
      ((classify_slow_query t threshold_ms ≡ db) ↔ (threshold_ms ≤ db_ms))
      × ((classify_slow_query t threshold_ms ≡ pool)
          ↔ ((db_ms < threshold_ms) × (threshold_ms ≤ wait_ms)))
      × ((classify_slow_query t threshold_ms ≡ loop)
          ↔ ((db_ms < threshold_ms) × (wait_ms < threshold_ms) × (threshold_ms ≤ blocked)))
unfolding classify_slow_query
classify_slow_query_cases t threshold_ms = (
  (λ h. ground arith, λ h. ground arith),
  (λ h. ground arith, λ h. ground arith),
  (λ h. ground arith, λ h. ground arith),
)
