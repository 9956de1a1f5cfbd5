-- ===== src/Agent/SelfHeal/Resuming.antt =====
-- Which calls of `runWithHealAsync` (core/agent.ts) resume the session of the chat.
use polis_game.Base.{
  ℕ, zero, suc, ◌+◌, ◌≡◌, refl, Bool, true, false, not, ◌&&◌, ◌||◌, Option, none, some, List, [],
  ◌∷◌, ◌++◌, any, length, arith, leb, Bool-cases, inl, inr,
}
use polis_game.Agent.Sessions.{SessionDir, KimiHome}
use polis_game.Agent.SelfHeal.{
  KimiErrorKind, corrupt_session, session_missing, content_rejected, retryable, Call, Outcome,
  replied, failed, Heal, HealArgs, Attempt, Rest, run_kimi_async, process_attempt_error, final_heal,
  go_on, after_reduced, after_failure, after_call, attempts, run_with_heal_async, is_rejection,
  next_continue,
}

-- The session is known to be broken or gone.
abbrev pub breaks : KimiErrorKind → Bool
breaks corrupt_session = true
breaks session_missing = true
breaks _ = false

abbrev pub breaks_session : Call × Outcome → Bool
breaks_session (c, replied text) = false
breaks_session (c, failed k) = breaks k

-- After a call that showed the session broken, no later call resumes it.
abbrev pub StartsFresh : Bool → List (Call × Outcome) → Type 0
StartsFresh broken [] = Unit
StartsFresh broken (call ∷ calls) =
    (broken ≡ true → call.0.continue_session ≡ false)
    × StartsFresh (broken || breaks_session call) calls

or_assoc_at : (a b c : Bool) → ((a || b) || c) ≡ (a || (b || c))
or_assoc_at true b c = refl
or_assoc_at false b c = refl

StartsFresh-snoc :
    (broken : Bool) (calls : List (Call × Outcome)) (call : Call × Outcome)
    → StartsFresh broken calls
    → ((broken || any breaks_session calls) ≡ true → call.0.continue_session ≡ false)
    → StartsFresh broken (calls ++ call ∷ [])
StartsFresh-snoc broken [] call h fresh = (λ b. fresh (rw b), tt)
StartsFresh-snoc broken (c ∷ calls) call h fresh = (
  h.0,
  StartsFresh-snoc (broken || breaks_session c) calls call h.1
      (λ b. fresh (rw (← or_assoc_at broken (breaks_session c) (any breaks_session calls)) b)),
)

breaks-snoc :
    (calls : List (Call × Outcome)) (call : Call × Outcome)
    → any breaks_session (calls ++ call ∷ []) ≡ (any breaks_session calls || breaks_session call)
breaks-snoc [] call = ground arith
breaks-snoc (c ∷ calls) call = ground (arith, breaks-snoc calls call)

rejected-fails : (k : KimiErrorKind) → is_rejection k ≡ true → retryable k ≡ false
rejected-fails content_rejected h = refl
rejected-fails k h = ground (arith, h)

and_false : (a : Bool) → (a && false) ≡ false
and_false true = refl
and_false false = refl

module _ (kimi : ℕ → Call → KimiHome → KimiHome × Outcome) (moves : SessionDir → Bool)
    (args : HealArgs) (max_retries : ℕ) where
  abbrev run : Heal → Call → Heal × Outcome
  run = run_kimi_async kimi moves args max_retries

  abbrev process : KimiErrorKind → ℕ → Bool → Heal → Attempt
  process = process_attempt_error kimi moves args max_retries

  -- What holds between the attempts.
  abbrev Between : Heal → Bool → Type 0
  Between h cont = StartsFresh false h.calls × (any breaks_session h.calls ≡ true → cont ≡ false)

  abbrev Keeps : Rest → Type 0
  Keeps rest =
      (e : Option KimiErrorKind) (h : Heal) (cont tried : Bool)
      → Between h cont
      → StartsFresh false (rest e h cont tried).0.calls

  run-Between :
      (h : Heal) (c : Call)
      → Between h c.continue_session
      → StartsFresh false (run h c).0.calls
        × (any breaks_session (run h c).0.calls
            ≡ (any breaks_session h.calls || breaks_session (c, (run h c).1)))
  unfolding run_kimi_async
  run-Between h c b =
      let call : Call × Outcome = (c, (kimi (length h.calls) c h.home).1) in
      (StartsFresh-snoc false h.calls call b.0 b.1, breaks-snoc h.calls call)

  next-false :
      (k : KimiErrorKind) (cont before : Bool)
      → (before ≡ true → cont ≡ false)
      → (before || breaks k) ≡ true
      → next_continue kimi moves args max_retries k cont ≡ false
  next-false k cont true b broken = ground (arith, b refl)
  next-false corrupt_session cont false b broken = refl
  next-false session_missing cont false b broken = refl
  next-false k cont false b broken = ground (arith, broken)

  process-continues :
      (k : KimiErrorKind) (attempt : ℕ) (cont before : Bool) (h : Heal)
      → (before ≡ true → cont ≡ false)
      → (before || breaks k) ≡ true
      → (process k attempt cont h).will_retry ≡ true
      → (process k attempt cont h).continue_session ≡ false
  unfolding process_attempt_error
  process-continues k attempt cont before h b broken again =
      rw again (next-false k cont before b broken)

  process-rejected :
      (k : KimiErrorKind) (attempt : ℕ) (cont : Bool) (h : Heal)
      → is_rejection k ≡ true
      → (process k attempt cont h).will_retry ≡ false
  unfolding process_attempt_error
  process-rejected k attempt cont h rejected =
      rw (rejected-fails k rejected) (and_false (leb attempt max_retries))

  process-calls :
      (k : KimiErrorKind) (attempt : ℕ) (cont : Bool) (h : Heal)
      → (process k attempt cont h).heal.calls ≡ h.calls
  unfolding process_attempt_error
  process-calls k attempt cont h = refl

  go_on-StartsFresh :
      (rest : Rest) (r : Attempt) (k : KimiErrorKind) (tried : Bool) (h : Heal)
      → Keeps rest
      → StartsFresh false h.calls
      → (r.will_retry ≡ true → any breaks_session h.calls ≡ true → r.continue_session ≡ false)
      → StartsFresh false (go_on kimi moves args max_retries rest r k tried h).0.calls
  unfolding final_heal
  go_on-StartsFresh rest r k tried h keeps fresh next = elim (Bool-cases r.will_retry) [
    | inl again ↦ rw again (
        keeps (some k) (record h { waited = h.waited + r.backoff_ms }) r.continue_session tried
          (fresh, next again))
    | inr over ↦ rw over fresh
  ]

  after_reduced-StartsFresh :
      (rest : Rest) (r : Attempt) (attempt : ℕ) (h : Heal) (o : Outcome)
      → Keeps rest
      → StartsFresh false h.calls
      → r.will_retry ≡ false
      → StartsFresh false (after_reduced kimi moves args max_retries rest r attempt h o).0.calls
  after_reduced-StartsFresh rest r attempt h (replied text) keeps fresh stops = fresh
  after_reduced-StartsFresh rest r attempt h (failed k) keeps fresh stops =
      let h1 = (process k attempt false h).heal in
      go_on-StartsFresh rest r k true h1 keeps (rw (process-calls k attempt false h) fresh)
        (λ again broken. ground (arith, again, stops))

  after_failure-StartsFresh :
      (rest : Rest) (attempt : ℕ) (k : KimiErrorKind) (tried : Bool) (r : Attempt)
      → Keeps rest
      → StartsFresh false r.heal.calls
      → (is_rejection k ≡ true → r.will_retry ≡ false)
      → (r.will_retry ≡ true → any breaks_session r.heal.calls ≡ true → r.continue_session ≡ false)
      → StartsFresh false (after_failure kimi moves args max_retries rest attempt k tried r).0.calls
  after_failure-StartsFresh rest attempt k tried r keeps fresh stops next =
      let reduced : Call = record { reduced = true; continue_session = false } in
      let second = run r.heal reduced in
      elim (Bool-cases (is_rejection k && not tried && args.has_reduced_prompt)) [
        | inl retried ↦ rw retried (
            after_reduced-StartsFresh rest r attempt second.0 second.1 keeps
              (run-Between r.heal reduced (fresh, λ b. refl)).0 (stops (ground (arith, retried))))
        | inr plain ↦ rw plain (go_on-StartsFresh rest r k tried r.heal keeps fresh next)
      ]

  after_call-StartsFresh :
      (rest : Rest) (attempt : ℕ) (cont tried before : Bool) (c : Call) (h : Heal) (o : Outcome)
      → Keeps rest
      → StartsFresh false h.calls
      → (before ≡ true → cont ≡ false)
      → any breaks_session h.calls ≡ (before || breaks_session (c, o))
      → StartsFresh false
          (after_call kimi moves args max_retries rest attempt cont tried h o).0.calls
  after_call-StartsFresh rest attempt cont tried before c h (replied text) keeps fresh b e = fresh
  after_call-StartsFresh rest attempt cont tried before c h (failed k) keeps fresh b e =
      let r = process k attempt cont h in
      let same = process-calls k attempt cont h in
      after_failure-StartsFresh rest attempt k tried r keeps (rw same fresh)
        (process-rejected k attempt cont h)
        (λ again broken.
          process-continues k attempt cont before h b (rw (← e, ← same) broken) again)

  attempts-Keeps :
      (rounds attempt : ℕ) → Keeps (attempts kimi moves args max_retries rounds attempt)
  unfolding attempts final_heal
  attempts-Keeps zero attempt e h cont tried b = b.0
  attempts-Keeps (suc rounds) attempt e h cont tried b =
      let c : Call = record { reduced = false; continue_session = cont } in
      let rest = attempts kimi moves args max_retries rounds (suc attempt) in
      let made = run-Between h c b in
      after_call-StartsFresh rest attempt cont tried (any breaks_session h.calls) c (run h c).0
        (run h c).1 (attempts-Keeps rounds (suc attempt)) made.0 b.1 made.1

  -- Once a call has failed because its session is corrupt or gone, no later call of the same reply
  -- resumes a session.
  pub calls-StartsFresh :
      (home : KimiHome)
      → StartsFresh false (run_with_heal_async kimi moves args max_retries home).0.calls
  unfolding run_with_heal_async
  calls-StartsFresh home =
      let start : Heal = record { home = home; calls = []; ledger = []; waited = 0 } in
      attempts-Keeps (suc max_retries) 1 none start args.use_session false (tt, λ b. cc)
