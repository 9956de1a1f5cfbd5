-- ===== src/Agent/SelfHeal.antt =====
-- core/agent.ts: `runWithHealAsync` and `processAttemptError`, the attempts of one reply. A call of the
-- model is an argument: by the number of earlier calls, its options and the sessions on disk it gives
-- the sessions that it leaves and its outcome. Logs and the error ledger stand as a list of records.
use polis_game.Base.{
  ℕ, zero, suc, ◌+◌, ◌*◌, ◌≡◌, String, Bool, true, false, not, ◌&&◌, ◌||◌, Option, none, some, List,
  [], ◌∷◌, ◌++◌, length, ltb, leb, if◌then◌else◌,
}
use polis_game.Agent.Sessions.{
  SessionDir, KimiHome, quarantine_session, quarantine_corrupt_sessions_for, heal_session_for,
  resolve_session_dir, validate_session,
}
pub mod Attempts
pub mod Resuming
pub mod Retrying
pub mod GivingUp

pub data KimiErrorKind : Type 0 where
  corrupt_session session_missing transient timeout empty_output content_rejected config unknown :
      KimiErrorKind

abbrev pub retryable : KimiErrorKind → Bool
retryable corrupt_session = true
retryable session_missing = true
retryable transient = true
retryable empty_output = true
retryable timeout = false
retryable content_rejected = false
retryable config = false
retryable unknown = false

-- The options of a call that differ between attempts.
pub record Call : Type 0 where
  pub reduced : Bool
  pub continue_session : Bool

pub data Outcome : Type 0 where
  replied : (text : String) → Outcome
  failed : (kind : KimiErrorKind) → Outcome

pub record Failure : Type 0 where
  pub kind : KimiErrorKind
  pub attempt : ℕ
  pub healed : Bool
  pub will_retry : Bool

-- The sessions on disk, the calls made with their outcomes, the ledger (each oldest first), and the
-- milliseconds waited.
pub record Heal : Type 0 where
  pub home : KimiHome
  pub calls : List (Call × Outcome)
  pub ledger : List Failure
  pub waited : ℕ

pub record HealArgs : Type 0 where
  pub has_reduced_prompt : Bool
  pub work_dir : String
  pub use_session : Bool

pub record Attempt : Type 0 where
  pub heal : Heal
  pub will_retry : Bool
  pub continue_session : Bool
  pub backoff_ms : ℕ

abbrev pub is_rejection : KimiErrorKind → Bool
is_rejection content_rejected = true
is_rejection _ = false

-- What `runWithHealAsync` returns or throws; without a last error it throws a plain one.
pub data Reply : Type 0 where
  returned : (text : String) → Reply
  thrown : (last_err : Option KimiErrorKind) → Reply

-- What remains to be done after an attempt: `lastErr`, the state, `continueSession`, `triedReduced`.
abbrev pub Rest : Type 0
Rest = Option KimiErrorKind → Heal → Bool → Bool → Heal × Reply

module _ (kimi : ℕ → Call → KimiHome → KimiHome × Outcome) (moves : SessionDir → Bool)
    (args : HealArgs) (max_retries : ℕ) where
  unfoldable pub run_kimi_async : Heal → Call → Heal × Outcome
  run_kimi_async h c =
      let (home, o) = kimi (length h.calls) c h.home in
      (record h { home = home; calls = h.calls ++ (c, o) ∷ [] }, o)

  abbrev pub heal_timeout : KimiHome → Option SessionDir → KimiHome × Bool
  heal_timeout home none = (home, false)
  heal_timeout home (some d) =
      if (validate_session home d).0 then (home, false) else quarantine_session moves home d

  unfoldable pub heal_session : KimiErrorKind → KimiHome → KimiHome × Bool
  heal_session corrupt_session home =
      let (home1, n) = quarantine_corrupt_sessions_for moves home args.work_dir in (home1, ltb 0 n)
  heal_session timeout home = heal_timeout home (resolve_session_dir home args.work_dir)
  heal_session _ home = (home, false)

  -- `nextContinue` and `backoffMs` of an attempt that is retried
  abbrev pub next_continue : KimiErrorKind → Bool → Bool
  next_continue corrupt_session continue_session = false
  next_continue session_missing continue_session = false
  next_continue _ continue_session = continue_session

  abbrev pub backoff_for : KimiErrorKind → ℕ → ℕ
  backoff_for transient attempt = 600 * attempt
  backoff_for _ attempt = 0

  unfoldable pub process_attempt_error : KimiErrorKind → ℕ → Bool → Heal → Attempt
  process_attempt_error kind attempt continue_session h =
      let will_retry = leb attempt max_retries && retryable kind in
      let healed = heal_session kind h.home in
      let failure : Failure = record {
        kind = kind;
        attempt = attempt;
        healed = healed.1;
        will_retry = will_retry;
      } in
      record {
        heal = record h { home = healed.0; ledger = h.ledger ++ failure ∷ [] };
        will_retry = will_retry;
        continue_session =
            if will_retry then next_continue kind continue_session else continue_session;
        backoff_ms = if will_retry then backoff_for kind attempt else 0;
      }

  unfoldable pub final_heal : Heal → Heal
  final_heal h = record h { home = (heal_session_for moves h.home args.work_dir).0 }

  -- The end of an attempt that gave no reply.
  abbrev pub go_on :
      Rest → Attempt → (last_err : KimiErrorKind) → (tried : Bool) → Heal → Heal × Reply
  go_on rest r last_err tried h = elim r.will_retry [
    | true ↦
        rest (some last_err) (record h { waited = h.waited + r.backoff_ms }) r.continue_session
          tried
    | false ↦ (final_heal h, thrown (some last_err))
  ]

  abbrev pub after_reduced : Rest → Attempt → ℕ → Heal → Outcome → Heal × Reply
  after_reduced rest r attempt h (replied text) = (h, returned text)
  after_reduced rest r attempt h (failed kind) =
      go_on rest r kind true (process_attempt_error kind attempt false h).heal

  abbrev pub after_failure : Rest → ℕ → KimiErrorKind → Bool → Attempt → Heal × Reply
  after_failure rest attempt kind tried r =
      if is_rejection kind && not tried && args.has_reduced_prompt
      then (let second =
            run_kimi_async r.heal (record { reduced = true; continue_session = false }) in
          after_reduced rest r attempt second.0 second.1)
      else go_on rest r kind tried r.heal

  abbrev pub after_call : Rest → ℕ → Bool → Bool → Heal → Outcome → Heal × Reply
  after_call rest attempt continue_session tried h (replied text) = (h, returned text)
  after_call rest attempt continue_session tried h (failed kind) =
      after_failure rest attempt kind tried (process_attempt_error kind attempt continue_session h)

  -- The loop, over the rounds that are left.
  unfoldable pub attempts : (rounds attempt : ℕ) → Rest
  attempts zero attempt last_err h continue_session tried = (final_heal h, thrown last_err)
  attempts (suc rounds) attempt last_err h continue_session tried =
      let c : Call = record { reduced = false; continue_session = continue_session } in
      let first = run_kimi_async h c in
      after_call (attempts rounds (suc attempt)) attempt continue_session tried first.0 first.1

  unfoldable pub run_with_heal_async : KimiHome → Heal × Reply
  run_with_heal_async home =
      let start : Heal = record { home = home; calls = []; ledger = []; waited = 0 } in
      attempts (suc max_retries) 1 none start args.use_session false
