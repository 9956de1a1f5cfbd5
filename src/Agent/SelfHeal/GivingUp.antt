-- ===== src/Agent/SelfHeal/GivingUp.antt =====
-- What `runWithHealAsync` of core/agent.ts leaves behind when it gives up.
use polis_game.Base.{
  ℕ, zero, suc, ◌+◌, ◌≡◌, Bool, true, false, not, ◌&&◌, none, some, [], any, Bool-cases, inl, inr,
}
use polis_game.Agent.Sessions.{
  SessionDir, same_dir, KimiHome, validate_session, sibling_session_dirs,
}
use polis_game.Agent.Sessions.Siblings.{heal_session_for-clean}
use polis_game.Agent.SelfHeal.{
  KimiErrorKind, Call, Outcome, replied, failed, Heal, HealArgs, Attempt, Reply, returned, thrown,
  Rest, run_kimi_async, process_attempt_error, final_heal, go_on, after_reduced, after_call,
  attempts, run_with_heal_async, is_rejection,
}

-- No session that a repair would find is corrupt.
abbrev pub IsClean : KimiHome → HealArgs → Type 0
IsClean home args =
    (e : SessionDir)
    → any (same_dir e) (sibling_session_dirs home args.work_dir) ≡ true
    → (validate_session home e).0 ≡ true

-- A reply was returned, or the error of a call is thrown and the sessions are clean.
abbrev pub EndsWell : HealArgs → Heal × Reply → Type 0
EndsWell args (h, returned text) = Unit
EndsWell args (h, thrown none) = ⊥
EndsWell args (h, thrown (some kind)) = IsClean h.home args

module _ (kimi : ℕ → Call → KimiHome → KimiHome × Outcome) (moves : SessionDir → Bool)
    (args : HealArgs) (max_retries : ℕ) (free : (d : SessionDir) → moves d ≡ true) where
  abbrev Ends : Rest → Type 0
  Ends rest =
      (k : KimiErrorKind) (h : Heal) (cont tried : Bool)
      → EndsWell args (rest (some k) h cont tried)

  final_heal-IsClean : (h : Heal) → IsClean (final_heal kimi moves args max_retries h).home args
  unfolding final_heal
  final_heal-IsClean h e found = heal_session_for-clean moves h.home args.work_dir e free found

  go_on-EndsWell :
      (rest : Rest) (r : Attempt) (k : KimiErrorKind) (tried : Bool) (h : Heal)
      → Ends rest
      → EndsWell args (go_on kimi moves args max_retries rest r k tried h)
  go_on-EndsWell rest r k tried h ends = elim (Bool-cases r.will_retry) [
    | inl again ↦
        rw again (ends k (record h { waited = h.waited + r.backoff_ms }) r.continue_session tried)
    | inr over ↦ rw over (final_heal-IsClean h)
  ]

  after_reduced-EndsWell :
      (rest : Rest) (r : Attempt) (attempt : ℕ) (h : Heal) (o : Outcome)
      → Ends rest
      → EndsWell args (after_reduced kimi moves args max_retries rest r attempt h o)
  after_reduced-EndsWell rest r attempt h (replied text) ends = tt
  after_reduced-EndsWell rest r attempt h (failed k) ends =
      go_on-EndsWell rest r k true
        (process_attempt_error kimi moves args max_retries k attempt false h).heal ends

  after_call-EndsWell :
      (rest : Rest) (attempt : ℕ) (cont tried : Bool) (h : Heal) (o : Outcome)
      → Ends rest
      → EndsWell args (after_call kimi moves args max_retries rest attempt cont tried h o)
  after_call-EndsWell rest attempt cont tried h (replied text) ends = tt
  after_call-EndsWell rest attempt cont tried h (failed k) ends =
      let r = process_attempt_error kimi moves args max_retries k attempt cont h in
      let reduced : Call = record { reduced = true; continue_session = false } in
      let second = run_kimi_async kimi moves args max_retries r.heal reduced in
      elim (Bool-cases (is_rejection k && not tried && args.has_reduced_prompt)) [
        | inl retried ↦ rw retried (after_reduced-EndsWell rest r attempt second.0 second.1 ends)
        | inr plain ↦ rw plain (go_on-EndsWell rest r k tried r.heal ends)
      ]

  attempts-EndsWell :
      (rounds attempt : ℕ) → Ends (attempts kimi moves args max_retries rounds attempt)
  unfolding attempts
  attempts-EndsWell zero attempt k h cont tried = final_heal-IsClean h
  attempts-EndsWell (suc rounds) attempt k h cont tried =
      let c : Call = record { reduced = false; continue_session = cont } in
      let first = run_kimi_async kimi moves args max_retries h c in
      after_call-EndsWell (attempts kimi moves args max_retries rounds (suc attempt)) attempt cont
        tried first.0 first.1 (attempts-EndsWell rounds (suc attempt))

  -- Where directories can be moved, a reply is returned, or the error of a call is thrown and no
  -- session that a repair would find is left corrupt; the error without a cause is never thrown.
  pub run_with_heal-EndsWell :
      (home : KimiHome) → EndsWell args (run_with_heal_async kimi moves args max_retries home)
  unfolding run_with_heal_async attempts
  run_with_heal-EndsWell home =
      let start : Heal = record { home = home; calls = []; ledger = []; waited = 0 } in
      let c : Call = record { reduced = false; continue_session = args.use_session } in
      let first = run_kimi_async kimi moves args max_retries start c in
      after_call-EndsWell (attempts kimi moves args max_retries max_retries 2) 1 args.use_session
        false first.0 first.1 (attempts-EndsWell max_retries 2)
