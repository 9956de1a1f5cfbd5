-- ===== src/Examples/Circuit.antt =====
-- The breaker of core/circuit-breaker.ts, tripped at 1000 with a probe interval of 60000.
use polis_game.Base.{◌+◌, ◌*◌, ◌≤◌, ◌≡◌, refl, true, false, Option, none, some, [], ◌∷◌, All, arith}
use polis_game.Circuit.{closed, opened, PgCircuitBreaker}
use polis_game.Circuit.Errors.{
  PgError, is_pg_connection_layer_error, should_count_as_circuit_failure,
}
use polis_game.Circuit.Bounds.{requests, fails, IsValid, admitted, end_time, since, admitted_bound}
use polis_game.Circuit.Gate.{
  answered, threw, ran, gated_query, burst, IsRefused, uncounted_probe_jams,
}

abbrev fresh : PgCircuitBreaker
fresh = record {
  label = "lp";
  fail_threshold = 3;
  probe_interval_ms = 60000;
  state = closed;
  consecutive_failures = 0;
  opened_at = 0;
  probe_in_flight = false;
  listeners = [];
  notified = [];
}

abbrev tripped : PgCircuitBreaker
tripped = record fresh { state = opened; consecutive_failures = 3; opened_at = 1000 }

tripped-IsValid : IsValid tripped
tripped-IsValid = ground arith

admitted_bound_example :
    since tripped.state 1000 2000
      + admitted tripped (requests 3000 ∷ requests 70000 ∷ fails 80000 ∷ []) * 60000
    ≤ end_time 2000 (requests 3000 ∷ requests 70000 ∷ fails 80000 ∷ [])
admitted_bound_example =
    admitted_bound tripped 2000 (requests 3000 ∷ requests 70000 ∷ fails 80000 ∷ []) tripped-IsValid
      (ground arith) (omega arith) (omega arith, (omega arith, (omega arith, tt)))

not_counted : should_count_as_circuit_failure none 5 0 1000 ≡ false
unfolding should_count_as_circuit_failure is_pg_connection_layer_error
not_counted = refl

uncounted_probe_jams_example :
    let probe = gated_query 1000 tripped 70000 (threw none 5 0) in
    (probe.1 ≡ ran (threw none 5 0))
    × All IsRefused (burst 1000 probe.0 ((999999, answered) ∷ [])).1
uncounted_probe_jams_example =
    uncounted_probe_jams 1000 tripped 70000 5 0 none ((999999, answered) ∷ []) refl (omega arith)
      not_counted

abbrev reset_error : Option PgError
reset_error = some (record { code = "ECONNRESET"; message_hit = true })
