-- ===== src/Circuit/Bounds.antt =====
-- The breaker over any sequence of events: its invariant, when it trips, how often it lets a call
-- through, and how it recovers.
use polis_game.Base.{
  ℕ, suc, ◌+◌, ◌*◌, ◌≤◌, ◌<◌, ◌≡◌, refl, ◌≢◌, ap, ◌∙◌, ◌↔◌, ◌⊎◌, inl, inr, String, Bool, true,
  false, List, [], ◌∷◌, map, length, arith, leb, Bool-cases, if◌then◌else◌,
}
use polis_game.Circuit.{
  CircuitState, closed, opened, half_open, PgCircuitBreaker, new_breaker, subscribe, unsubscribe,
  allow_request, record_success, record_failure, reset,
}

-- What callers do with a breaker, with the time at which they do it.
pub data Event : Type 0 where
  requests : ℕ → Event
  succeeds : Event
  fails : ℕ → Event
  subscribes : ℕ → Event
  unsubscribes : ℕ → Event
  resets : Event

unfoldable pub step : PgCircuitBreaker → Event → PgCircuitBreaker
step b (requests now) = (allow_request b now).0
step b succeeds = record_success b
step b (fails now) = record_failure b now
step b (subscribes fn) = subscribe b fn
step b (unsubscribes fn) = unsubscribe b fn
step b resets = reset b

unfoldable pub run : PgCircuitBreaker → List Event → PgCircuitBreaker
run b [] = b
run b (e ∷ es) = run (step b e) es

-- The probe slot is taken exactly in `half_open`, and a closed breaker is below its threshold.
pub record IsValid (b : PgCircuitBreaker) : Type 0 where
  pub probing : (b.state ≡ half_open) ↔ (b.probe_in_flight ≡ true)
  pub counting :
      (b.state ≢ closed) ⊎ (b.fail_threshold ≡ 0) ⊎ (b.consecutive_failures < b.fail_threshold)

step-IsValid : (b : PgCircuitBreaker) (e : Event) → IsValid b → IsValid (step b e)
unfolding step allow_request record_success record_failure subscribe unsubscribe reset
step-IsValid b (requests now) v = ground arith
step-IsValid b succeeds v = ground arith
step-IsValid b (fails now) v = ground arith
step-IsValid b (subscribes fn) v = ground arith
step-IsValid b (unsubscribes fn) v = ground arith
step-IsValid b resets v = ground arith

pub run-IsValid : (b : PgCircuitBreaker) (es : List Event) → IsValid b → IsValid (run b es)
unfolding run
run-IsValid b [] v = v
run-IsValid b (e ∷ es) v = run-IsValid (step b e) es (step-IsValid b e v)

-- After any list of events, a breaker that the constructor made has its probe slot taken exactly if
-- it is half-open, and if it is closed with a positive threshold it has counted fewer failures than
-- that.
pub new_breaker-IsValid :
    (label : String) (threshold interval : ℕ) (es : List Event)
    → IsValid (run (new_breaker label threshold interval) es)
unfolding new_breaker
new_breaker-IsValid label threshold interval es =
    run-IsValid (new_breaker label threshold interval) es (ground arith)

-- One failure of a closed breaker trips it at the threshold, and otherwise is counted.
fails_closed :
    (b : PgCircuitBreaker) (now : ℕ)
    → b.state ≡ closed
    → let b' = step b (fails now) in
      (b'.fail_threshold ≡ b.fail_threshold)
      × (leb b.fail_threshold (b.consecutive_failures + 1) ≡ true → b'.state ≡ opened)
      × (leb b.fail_threshold (b.consecutive_failures + 1) ≡ false
          → (b'.state ≡ closed) × (b'.consecutive_failures ≡ b.consecutive_failures + 1))
unfolding step record_failure
fails_closed b now c = ground arith

fails_opened : (b : PgCircuitBreaker) (now : ℕ) → b.state ≡ opened → step b (fails now) ≡ b
unfolding step record_failure
fails_opened b now o = ground arith

run-fails_opened :
    (b : PgCircuitBreaker) (times : List ℕ) → b.state ≡ opened → run b (map fails times) ≡ b
unfolding run
run-fails_opened b [] o = refl
run-fails_opened b (t ∷ ts) o =
    ap (λ c. run c (map fails ts)) (fails_opened b t o) ∙ run-fails_opened b ts o

-- A closed breaker with `c` failures counted and `c` below its threshold, after failures at any
-- list of times and nothing else, is open if the count and the new failures reach the threshold,
-- and closed if they do not.
pub run-fails :
    (b : PgCircuitBreaker) (times : List ℕ)
    → b.state ≡ closed
    → b.consecutive_failures < b.fail_threshold
    → (run b (map fails times)).state
      ≡ (if leb b.fail_threshold (b.consecutive_failures + length times) then opened else closed)
unfolding run
run-fails b [] c lt = ground arith
run-fails b (t ∷ ts) c lt =
    let (same, trips, counts) = fails_closed b t c in
    elim (Bool-cases (leb b.fail_threshold (b.consecutive_failures + 1))) [
      | inl full ↦
          rw (run-fails_opened (step b (fails t)) ts (trips full)) (ground (arith, trips full))
      | inr room ↦
          let (still, more) = counts room in
          ground (arith, run-fails (step b (fails t)) ts still (ground arith))
    ]

-- How many requests of the sequence are let through.
pub admitted : PgCircuitBreaker → List Event → ℕ
admitted b [] = 0
admitted b (requests now ∷ es) =
    let later = admitted (step b (requests now)) es in
    if (allow_request b now).1 then suc later else later
admitted b (e ∷ es) = admitted (step b e) es

-- The events come in the order of time from `now` on, no call succeeds, and nobody calls `reset`.
abbrev pub IsOutage : ℕ → List Event → Type 0
IsOutage now [] = Unit
IsOutage now (requests t ∷ es) = (now ≤ t) × IsOutage t es
IsOutage now (fails t ∷ es) = (now ≤ t) × IsOutage t es
IsOutage now (succeeds ∷ es) = ⊥
IsOutage now (resets ∷ es) = ⊥
IsOutage now (subscribes fn ∷ es) = IsOutage now es
IsOutage now (unsubscribes fn ∷ es) = IsOutage now es

abbrev pub end_time : ℕ → List Event → ℕ
end_time now [] = now
end_time now (requests t ∷ es) = end_time t es
end_time now (fails t ∷ es) = end_time t es
end_time now (_ ∷ es) = end_time now es

-- From where the next probe's waiting time is counted.
abbrev pub since : CircuitState → ℕ → ℕ → ℕ
since half_open opened_at now = now
since _ opened_at now = opened_at

record IsTripped (b : PgCircuitBreaker) (now : ℕ) : Type 0 where
  broken : b.state ≢ closed
  probing : b.state ≡ half_open → b.probe_in_flight ≡ true
  earlier : b.opened_at ≤ now

abbrev gained : Bool → ℕ → ℕ
gained true interval = interval
gained false interval = 0

gained-count :
    (granted : Bool) (later interval : ℕ)
    → (if granted then suc later else later) * interval ≡ gained granted interval + later * interval
gained-count true later interval = omega arith
gained-count false later interval = omega arith

requests_waits :
    (b : PgCircuitBreaker) (now t : ℕ)
    → IsTripped b now
    → now ≤ t
    → let (b', granted) = allow_request b t in
      IsTripped b' t
      × (b'.probe_interval_ms ≡ b.probe_interval_ms)
      × (since b.state b.opened_at now + gained granted b.probe_interval_ms
          ≤ since b'.state b'.opened_at t)
unfolding allow_request
requests_waits b now t v h = ground arith

fails_waits :
    (b : PgCircuitBreaker) (now t : ℕ)
    → IsTripped b now
    → now ≤ t
    → let b' = step b (fails t) in
      IsTripped b' t
      × (b'.probe_interval_ms ≡ b.probe_interval_ms)
      × (since b.state b.opened_at now ≤ since b'.state b'.opened_at t)
unfolding step record_failure
fails_waits b now t v h = ground arith

admitted_waits :
    (b : PgCircuitBreaker) (now : ℕ) (es : List Event)
    → IsTripped b now
    → IsOutage now es
    → since b.state b.opened_at now + admitted b es * b.probe_interval_ms ≤ end_time now es
unfolding admitted step subscribe unsubscribe
admitted_waits b now [] v h = ground arith
admitted_waits b now (requests t ∷ es) v (le, h) =
    let (v', same, w) = requests_waits b now t v le in
    let ih = rw same at (admitted_waits (allow_request b t).0 t es v' h) in
    let later = admitted (allow_request b t).0 es in
    omega (arith, w, ih, gained-count (allow_request b t).1 later b.probe_interval_ms)
admitted_waits b now (fails t ∷ es) v (le, h) =
    let (v', same, w) = fails_waits b now t v le in
    let ih = rw same at (admitted_waits (record_failure b t) t es v' h) in ground (arith, w, ih)
admitted_waits b now (succeeds ∷ es) v h = absurd h
admitted_waits b now (resets ∷ es) v h = absurd h
admitted_waits b now (subscribes fn ∷ es) v h =
    ground (arith, admitted_waits (subscribe b fn) now es (ground arith) h)
admitted_waits b now (unsubscribes fn ∷ es) v h =
    ground (arith, admitted_waits (unsubscribe b fn) now es (ground arith) h)

-- During an outage (no success, no `reset`, times in order), a valid tripped breaker that opened in
-- the past lets through at most one call in each probe interval: `k` admitted calls take at least
-- `k` intervals, counted from the time at which it opened, or from now if a probe is already out.
pub admitted_bound :
    (b : PgCircuitBreaker) (now : ℕ) (es : List Event)
    → IsValid b
    → b.state ≢ closed
    → b.opened_at ≤ now
    → IsOutage now es
    → since b.state b.opened_at now + admitted b es * b.probe_interval_ms ≤ end_time now es
admitted_bound b now es v o h out =
    admitted_waits b now es (record { broken = o; probing = v.probing.0; earlier = h }) out

-- An open breaker recovers by one probe: the first request after the interval goes through, no
-- further one does while it is out, and its success closes the breaker with a clean tally, after
-- which a request at any time goes through.
pub recovers :
    (b : PgCircuitBreaker) (now other later : ℕ)
    → b.state ≡ opened
    → b.opened_at + b.probe_interval_ms ≤ now
    → let (probing, granted) = allow_request b now in
      let after = record_success probing in
      (granted ≡ true)
      × ((allow_request probing other).1 ≡ false)
      × (after.state ≡ closed)
      × (after.consecutive_failures ≡ 0)
      × ((allow_request after later).1 ≡ true)
unfolding allow_request record_success
recovers b now other later o h = ground arith
