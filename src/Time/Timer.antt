-- ===== src/Time/Timer.antt =====
-- safeSetTimeout of core/time.ts: the timeouts it arms one after the other, the last of which runs
-- the callback. The fuel bounds their number; `none` says that the callback has not run yet.
use polis_game.Base.{
  ℕ, zero, suc, ◌+◌, ◌-◌, ◌*◌, ◌≤◌, ◌<◌, ◌≡◌, Option, none, some, List, [], ◌∷◌, All, arith,
  Bool-cases, leb, if◌then◌else◌, inl, inr,
}
use polis_game.Base.Int.{ℤ, pos, negsuc, pos_part}

abbrev cons_some : ℕ → Option (List ℕ) → Option (List ℕ)
cons_some d none = none
cons_some d (some ds) = some (d ∷ ds)

unfoldable pub safe_set_timeout : ℕ → ℤ → ℕ → Option (List ℕ)
safe_set_timeout zero delay_ms chunk_ms = none
safe_set_timeout (suc fuel) delay_ms chunk_ms =
    let remaining = pos_part delay_ms in
    let rest = safe_set_timeout fuel (pos (remaining - chunk_ms)) chunk_ms in
    if leb remaining chunk_ms then some (remaining ∷ []) else cons_some chunk_ms rest

-- The time until the last of the timeouts fires.
abbrev pub elapsed : List ℕ → ℕ
elapsed [] = 0
elapsed (d ∷ ds) = d + elapsed ds

-- What the chain of timeouts for a delay comes to.
pub record Chain (delay chunk : ℕ) (armed : Option (List ℕ)) : Type 0 where
  pub delays : List ℕ
  pub fired : armed ≡ some delays
  pub on_time : elapsed delays ≡ delay
  pub in_range : All (λ d. d ≤ chunk) delays

chain :
    (fuel delay chunk : ℕ)
    → 0 < chunk
    → delay < fuel * chunk
    → Chain delay chunk (safe_set_timeout fuel (pos delay) chunk)
unfolding safe_set_timeout
chain zero delay chunk c h = absurd (omega arith)
chain (suc fuel) delay chunk c h = elim (Bool-cases (leb delay chunk)) [
  | inl short ↦ record {
    delays = delay ∷ [];
    fired = ground (arith, short);
    on_time = omega arith;
    in_range = ground (arith, short);
  }
  | inr long ↦
      let rest = chain fuel (delay - chunk) chunk c (ground (arith, long)) in
      record {
        delays = chunk ∷ rest.delays;
        fired = ground (arith, long, rest.fired);
        on_time = ground (arith, long, rest.on_time);
        in_range = (omega arith, rest.in_range);
      }
]

-- For a positive chunk and enough rounds (more than the delay divided by the chunk), the chain of
-- timeouts ends: the callback runs after exactly the delay, or at once for a negative one, and no
-- single timeout is longer than the chunk.
pub safe_set_timeout-Chain :
    (fuel : ℕ) (delay_ms : ℤ) (chunk_ms : ℕ)
    → 0 < chunk_ms
    → pos_part delay_ms < fuel * chunk_ms
    → Chain (pos_part delay_ms) chunk_ms (safe_set_timeout fuel delay_ms chunk_ms)
unfolding safe_set_timeout
safe_set_timeout-Chain fuel (pos n) chunk_ms c h = chain fuel n chunk_ms c h
safe_set_timeout-Chain (suc fuel) (negsuc n) chunk_ms c h = chain (suc fuel) 0 chunk_ms c h
safe_set_timeout-Chain zero (negsuc n) chunk_ms c h = absurd (omega arith)
