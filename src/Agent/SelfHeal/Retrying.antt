-- ===== src/Agent/SelfHeal/Retrying.antt =====
-- When `runWithHealAsync` of core/agent.ts gets a reply out of a model that fails at first.
use polis_game.Base.{
  ℕ, zero, suc, ◌+◌, ◌≤◌, ◌<◌, ◌≡◌, refl, String, Bool, true, false, Option, none, some, [], ◌∷◌,
  length, length-append, arith, leb_iff,
}
use polis_game.Agent.Sessions.{SessionDir, KimiHome}
use polis_game.Agent.SelfHeal.{
  KimiErrorKind, content_rejected, retryable, Call, Outcome, replied, failed, Heal, HealArgs,
  returned, Rest, run_kimi_async, process_attempt_error, after_call, attempts, run_with_heal_async,
  is_rejection,
}

abbrev pub IsRetried : Outcome → Type 0
IsRetried (replied text) = ⊥
IsRetried (failed k) = retryable k ≡ true

retried-plain : (k : KimiErrorKind) → retryable k ≡ true → is_rejection k ≡ false
retried-plain content_rejected h = ground (arith, h)
retried-plain k h = refl

module _ (kimi : ℕ → Call → KimiHome → KimiHome × Outcome) (moves : SessionDir → Bool)
    (args : HealArgs) (max_retries : ℕ) where
  abbrev run : Heal → Call → Heal × Outcome
  run = run_kimi_async kimi moves args max_retries

  run_lem :
      (h : Heal) (c : Call)
      → (length (run h c).0.calls ≡ suc (length h.calls))
        × ((run h c).1 ≡ (kimi (length h.calls) c h.home).1)
  unfolding run_kimi_async
  run_lem h c =
      (omega (arith, length-append h.calls ((c, (kimi (length h.calls) c h.home).1) ∷ [])), refl)

  -- A failure that is worth a retry leads to the next attempt.
  retried-goes_on :
      (rest : Rest) (attempt : ℕ) (cont tried : Bool) (h : Heal) (k : KimiErrorKind)
      → retryable k ≡ true
      → attempt ≤ max_retries
      → (h1 : Heal) × (cont1 : Bool) × (length h1.calls ≡ length h.calls)
        × (after_call kimi moves args max_retries rest attempt cont tried h (failed k)
            ≡ rest (some k) h1 cont1 tried)
  unfolding process_attempt_error
  retried-goes_on rest attempt cont tried h k again room =
      let r = process_attempt_error kimi moves args max_retries k attempt cont h in
      (
        record r.heal { waited = r.heal.waited + r.backoff_ms },
        r.continue_session,
        refl,
        rw (retried-plain k again, (leb_iff attempt max_retries).1 room, again),
      )

  after_call-returned :
      (rest : Rest) (attempt : ℕ) (cont tried : Bool) (h : Heal) (o : Outcome) (text : String)
      → IsRetried o
      → attempt ≤ max_retries
      → ((e : Option KimiErrorKind) (h1 : Heal) (cont1 : Bool)
          → length h1.calls ≡ length h.calls
          → (rest e h1 cont1 tried).1 ≡ returned text)
      → (after_call kimi moves args max_retries rest attempt cont tried h o).1 ≡ returned text
  after_call-returned rest attempt cont tried h (replied other) text bad room next = absurd bad
  after_call-returned rest attempt cont tried h (failed k) text again room next =
      let (h1, cont1, same, goes_on) = retried-goes_on rest attempt cont tried h k again room in
      rw goes_on (next (some k) h1 cont1 same)

  module _ (k : ℕ) (text : String)
      (failing : (n : ℕ) (c : Call) (home : KimiHome) → n < k → IsRetried (kimi n c home).1)
      (answer : (c : Call) (home : KimiHome) → (kimi k c home).1 ≡ replied text) where
    attempts-returned :
        (j rounds attempt : ℕ) (e : Option KimiErrorKind) (h : Heal) (cont tried : Bool)
        → length h.calls + j ≡ k
        → j < rounds
        → attempt + j ≤ suc max_retries
        → (attempts kimi moves args max_retries rounds attempt e h cont tried).1 ≡ returned text
    unfolding attempts
    attempts-returned j zero attempt e h cont tried at less room = absurd (omega arith)
    attempts-returned zero (suc rounds) attempt e h cont tried at less room =
        let c : Call = record { reduced = false; continue_session = cont } in
        let now : length h.calls ≡ k = omega (arith, at) in
        rw ((run_lem h c).1, now, answer c h.home)
    attempts-returned (suc j) (suc rounds) attempt e h cont tried at less room =
        let c : Call = record { reduced = false; continue_session = cont } in
        let rest = attempts kimi moves args max_retries rounds (suc attempt) in
        after_call-returned rest attempt cont tried (run h c).0 (run h c).1 text
          (rw (run_lem h c).1 (failing (length h.calls) c h.home (omega (arith, at)))) (omega arith)
          (λ e1 h1 cont1 same.
            attempts-returned j rounds (suc attempt) e1 h1 cont1 tried
              (omega (arith, at, same, (run_lem h c).0)) (omega arith) (omega arith))

    -- If the first `k` calls fail in ways that are worth a retry, `k` is within the budget of retries,
    -- and the call after them replies, then that reply is returned.
    pub reply_returned :
        (home : KimiHome)
        → k ≤ max_retries
        → (run_with_heal_async kimi moves args max_retries home).1 ≡ returned text
    unfolding run_with_heal_async
    reply_returned home room =
        let start : Heal = record { home = home; calls = []; ledger = []; waited = 0 } in
        attempts-returned k (suc max_retries) 1 none start args.use_session false (omega arith)
          (omega arith) (omega arith)
