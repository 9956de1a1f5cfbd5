-- ===== src/Agent/SelfHeal/Attempts.antt =====
-- How often `runWithHealAsync` of core/agent.ts calls the model, and which calls resume a session.
use polis_game.Base.{
  ℕ, zero, suc, ◌+◌, ◌≤◌, ◌≡◌, refl, ap, Bool, true, false, not, ◌&&◌, Option, none, some, [], ◌∷◌,
  length, length-append, arith, Bool-cases, inl, inr,
}
use polis_game.Agent.Sessions.{SessionDir, KimiHome}
use polis_game.Agent.SelfHeal.{
  KimiErrorKind, Call, Outcome, replied, failed, Heal, HealArgs, Attempt, Rest, run_kimi_async,
  process_attempt_error, final_heal, go_on, after_reduced, after_failure, after_call, attempts,
  run_with_heal_async, is_rejection,
}

-- The second call of an attempt, if it has not been made.
abbrev spare : Bool → ℕ
spare true = 0
spare false = 1

untried : (a tried b : Bool) → (a && not tried && b) ≡ true → spare tried ≡ 1
untried a false b h = refl
untried true true b h = ground (arith, h)
untried false true b h = ground (arith, h)

module _ (kimi : ℕ → Call → KimiHome → KimiHome × Outcome) (moves : SessionDir → Bool)
    (args : HealArgs) (max_retries : ℕ) where
  abbrev run : Heal → Call → Heal × Outcome
  run = run_kimi_async kimi moves args max_retries

  abbrev process : KimiErrorKind → ℕ → Bool → Heal → Attempt
  process = process_attempt_error kimi moves args max_retries

  run-calls : (h : Heal) (c : Call) → length (run h c).0.calls ≡ suc (length h.calls)
  unfolding run_kimi_async
  run-calls h c =
      omega (arith, length-append h.calls ((c, (kimi (length h.calls) c h.home).1) ∷ []))

  process-calls :
      (k : KimiErrorKind) (attempt : ℕ) (cont : Bool) (h : Heal)
      → (process k attempt cont h).heal.calls ≡ h.calls
  unfolding process_attempt_error
  process-calls k attempt cont h = refl

  -- A bound on the calls after `rest`, by whether the reduced prompt was tried.
  abbrev Within : ℕ → Rest → Type 0
  Within n rest =
      (e : Option KimiErrorKind) (h : Heal) (cont tried : Bool)
      → length (rest e h cont tried).0.calls ≤ length h.calls + n + spare tried

  go_on-calls :
      (n : ℕ) (rest : Rest) (r : Attempt) (k : KimiErrorKind) (tried : Bool) (h : Heal)
      → Within n rest
      → length (go_on kimi moves args max_retries rest r k tried h).0.calls
        ≤ length h.calls + n + spare tried
  unfolding final_heal
  go_on-calls n rest r k tried h within = elim (Bool-cases r.will_retry) [
    | inl again ↦
        rw again
          (within (some k) (record h { waited = h.waited + r.backoff_ms }) r.continue_session tried)
    | inr over ↦ rw over (omega arith)
  ]

  after_reduced-calls :
      (n : ℕ) (rest : Rest) (r : Attempt) (attempt : ℕ) (h : Heal) (o : Outcome)
      → Within n rest
      → length (after_reduced kimi moves args max_retries rest r attempt h o).0.calls
        ≤ length h.calls + n
  after_reduced-calls n rest r attempt h (replied text) within = omega arith
  after_reduced-calls n rest r attempt h (failed k) within =
      let h1 = (process k attempt false h).heal in
      omega
        (arith, go_on-calls n rest r k true h1 within, ap length (process-calls k attempt false h))

  after_failure-calls :
      (n : ℕ) (rest : Rest) (attempt : ℕ) (k : KimiErrorKind) (tried : Bool) (r : Attempt)
      → Within n rest
      → length (after_failure kimi moves args max_retries rest attempt k tried r).0.calls
        ≤ length r.heal.calls + n + spare tried
  after_failure-calls n rest attempt k tried r within =
      let reduced : Call = record { reduced = true; continue_session = false } in
      let second = run r.heal reduced in
      elim (Bool-cases (is_rejection k && not tried && args.has_reduced_prompt)) [
        | inl retried ↦ rw retried (
            omega (
              arith,
              run-calls r.heal reduced,
              untried (is_rejection k) tried args.has_reduced_prompt retried,
              after_reduced-calls n rest r attempt second.0 second.1 within,
            ))
        | inr plain ↦ rw plain (go_on-calls n rest r k tried r.heal within)
      ]

  after_call-calls :
      (n : ℕ) (rest : Rest) (attempt : ℕ) (cont tried : Bool) (h : Heal) (o : Outcome)
      → Within n rest
      → length (after_call kimi moves args max_retries rest attempt cont tried h o).0.calls
        ≤ length h.calls + n + spare tried
  after_call-calls n rest attempt cont tried h (replied text) within = omega arith
  after_call-calls n rest attempt cont tried h (failed k) within = omega (
    arith,
    after_failure-calls n rest attempt k tried (process k attempt cont h) within,
    ap length (process-calls k attempt cont h),
  )

  attempts-Within :
      (rounds attempt : ℕ) → Within rounds (attempts kimi moves args max_retries rounds attempt)
  unfolding attempts final_heal
  attempts-Within zero attempt e h cont tried = omega arith
  attempts-Within (suc rounds) attempt e h cont tried =
      let c : Call = record { reduced = false; continue_session = cont } in
      let rest = attempts kimi moves args max_retries rounds (suc attempt) in
      omega (
        arith,
        run-calls h c,
        after_call-calls rounds rest attempt cont tried (run h c).0 (run h c).1
            (attempts-Within rounds (suc attempt)),
      )

  -- However the model fails, a reply takes at most two calls more than there are retries.
  pub calls_bound :
      (home : KimiHome)
      → length (run_with_heal_async kimi moves args max_retries home).0.calls ≤ max_retries + 2
  unfolding run_with_heal_async
  calls_bound home =
      let start : Heal = record { home = home; calls = []; ledger = []; waited = 0 } in
      omega (arith, attempts-Within (suc max_retries) 1 none start args.use_session false)
