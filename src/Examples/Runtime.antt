-- ===== src/Examples/Runtime.antt =====
-- Runs of the self-healing loop and of the repair of sessions.
use polis_game.Base.{
  ℕ, zero, suc, ◌≤◌, ◌<◌, ◌≡◌, ◌⊎◌, refl, Bool, true, false, some, [], ◌∷◌, length, arith, ltb,
  if◌then◌else◌,
}
use polis_game.Agent.Sessions.{
  SessionDir, KimiHome, tool_call, tool_result, validate_session, orphans, find_session,
  sibling_session_dirs, quarantine_session, heal_session_for, quarantine_corrupt_sessions_for,
}
use polis_game.Agent.Sessions.Pairing.{is_near, is_paired, heal_session_for-Repaired}
use polis_game.Agent.SelfHeal.{
  Call, Outcome, replied, failed, corrupt_session, transient, HealArgs, returned,
  run_with_heal_async, attempts, run_kimi_async, process_attempt_error, heal_session,
}
use polis_game.Agent.SelfHeal.Attempts.{calls_bound}
use polis_game.Agent.SelfHeal.Resuming.{StartsFresh, calls-StartsFresh}
use polis_game.Agent.SelfHeal.Retrying.{IsRetried, reply_returned}
use polis_game.Agent.SelfHeal.GivingUp.{EndsWell, run_with_heal-EndsWell}

abbrev broken_dir : SessionDir
broken_dir = record { wd = "wd_ann_1"; base = "session_1" }

abbrev whole_dir : SessionDir
whole_dir = record { wd = "wd_ann_1"; base = "session_2" }

abbrev home : KimiHome
home = record {
  index = record { session_dir = whole_dir; work_dir = "ann" } ∷ [];
  sessions =
      record {
        dir = broken_dir;
        wire = some (tool_call "t1" ∷ tool_call "t2" ∷ tool_result "t1" ∷ []);
      }
      ∷ record { dir = whole_dir; wire = some (tool_call "t3" ∷ tool_result "t3" ∷ []) }
      ∷ [];
  quarantine = [];
}

abbrev moves : SessionDir → Bool
moves d = true

-- The broken session has no line of its own in the index, and is found beside the one that has.
repaired : (heal_session_for moves home "ann").1 ≡ 1
unfolding heal_session_for sibling_session_dirs validate_session orphans quarantine_session
repaired = refl

abbrev args : HealArgs
args = record { has_reduced_prompt = true; work_dir = "ann"; use_session = true }

-- A model that fails twice and then replies.
abbrev outcome_of : ℕ → Outcome
outcome_of n =
    if ltb n 1 then failed corrupt_session else if ltb n 2 then failed transient else replied "hi"

abbrev kimi : ℕ → Call → KimiHome → KimiHome × Outcome
kimi n c h = (h, outcome_of n)

healed_and_answered : (run_with_heal_async kimi moves args 2 home).1 ≡ returned "hi"
unfolding run_with_heal_async attempts run_kimi_async process_attempt_error heal_session
    quarantine_corrupt_sessions_for sibling_session_dirs validate_session orphans quarantine_session
healed_and_answered = refl

failing_at : (n : ℕ) (c : Call) (h : KimiHome) → n < 2 → IsRetried (kimi n c h).1
failing_at zero c h less = refl
failing_at (suc zero) c h less = refl
failing_at (suc (suc n)) c h less = absurd (omega arith)

heal_session_for-Repaired_example :
    ((e : SessionDir)
      → is_near home "ann" e ≡ true
      → is_paired (find_session (heal_session_for moves home "ann").0.sessions e) ≡ true)
    × ((e : SessionDir)
        → (is_near home "ann" e ≡ false) ⊎ (is_paired (find_session home.sessions e) ≡ true)
        → find_session (heal_session_for moves home "ann").0.sessions e
          ≡ find_session home.sessions e)
heal_session_for-Repaired_example = heal_session_for-Repaired moves home "ann" (λ d. refl)

calls_bound_example : length (run_with_heal_async kimi moves args 2 home).0.calls ≤ 4
calls_bound_example = calls_bound kimi moves args 2 home

calls-StartsFresh_example : StartsFresh false (run_with_heal_async kimi moves args 2 home).0.calls
calls-StartsFresh_example = calls-StartsFresh kimi moves args 2 home

reply_returned_example : (run_with_heal_async kimi moves args 2 home).1 ≡ returned "hi"
reply_returned_example =
    reply_returned kimi moves args 2 2 "hi" failing_at (λ c h. refl) home (omega arith)

run_with_heal-EndsWell_example : EndsWell args (run_with_heal_async kimi moves args 1 home)
run_with_heal-EndsWell_example = run_with_heal-EndsWell kimi moves args 1 (λ d. refl) home
