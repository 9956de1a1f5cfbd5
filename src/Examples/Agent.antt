-- ===== src/Examples/Agent.antt =====
-- The outbox, the guard, the heartbeat, an inbox and the reward for an introduction.
use polis_game.Base.{◌≤◌, ◌≡◌, ◌⊎◌, refl, String, true, false, Option, none, some, [], ◌∷◌, arith}
use polis_game.Agent.Outbox.{OutboxDb}
use polis_game.Agent.Heartbeat.{HeartbeatConfig, Moment, get_daily_count}
use polis_game.Agent.MemoryPolicy.{
  MemoryItem, auto, open_to_all, owner_only, PolicyContext, IsReadable, filter_by_policy,
  filter_by_policy-All,
}
use polis_game.Agent.SelfIntro.{
  LarkMessage, RecordSelfIntroCtx, resolve_self_intro_target, handle_record_self_intro,
  self_intro_pays_once,
}
use polis_game.Agent.TokenWatch.{
  watch, check_user_token_expiry, was_token_expiry_alert_sent, mark_token_expiry_alert_sent,
}
use polis_game.Examples.Lp.{town}

abbrev queue : OutboxDb
queue = record {
  rows =
      record {
        id = 1;
        table_name = "errors";
        columns = "message" ∷ [];
        values = "lost" ∷ [];
        enqueued_at = 5;
        replayed_at = none;
      }
      ∷ [];
  next_id = 2;
  replay_log = [];
}

abbrev config : HeartbeatConfig
config = record {
  cadence_minutes = 10;
  enabled = true;
  silent_hours = none;
  has_probability = false;
  daily_limit = some 2;
}

abbrev noon : Moment
noon = record { hour = 12; today = 9; roll_missed = false }

one_called : get_daily_count (some (9, 1)) 9 ≤ 2
unfolding get_daily_count
one_called = omega arith

abbrev introduction : String → Option LarkMessage
introduction id = some (record {
  sender_open_id = "ou_new";
  sender_type = "user";
  root_id = "om_intro";
  parent_id = "";
})

abbrev first_command : RecordSelfIntroCtx
first_command = record {
  command_message_id = "om_cmd";
  event_root_id = "om_intro";
  event_parent_id = "";
  sender_open_id = "ou_op";
}

abbrev second_command : RecordSelfIntroCtx
second_command = record first_command { command_message_id = "om_again"; sender_open_id = "ou_op2" }

same_target :
    resolve_self_intro_target introduction second_command
    ≡ resolve_self_intro_target introduction first_command
unfolding resolve_self_intro_target
same_target = refl

self_intro_pays_once_example :
    let r = handle_record_self_intro (λ _. true) introduction town first_command in
    (r.0 ≡ town) ⊎ ((handle_record_self_intro (λ _. true) introduction r.0 second_command).0 ≡ r.0)
self_intro_pays_once_example =
    self_intro_pays_once (λ _. true) introduction introduction town first_command second_command
      same_target

abbrev own_memory : MemoryItem
own_memory = record {
  id = 1;
  namespace = "user:ou_ann";
  key = some "auto-summary";
  content = 1 ∷ 2 ∷ [];
  visibility = owner_only;
  source = auto;
  updated_at = 10;
  expires_at = none;
}

abbrev her_memory : MemoryItem
her_memory = record own_memory { id = 2; namespace = "user:ou_bea"; visibility = open_to_all }

abbrev ann_asks : PolicyContext
ann_asks = record { chat_id = "oc_1"; user_open_id = "ou_ann"; is_admin = false }

ann_reads : filter_by_policy (own_memory ∷ her_memory ∷ []) ann_asks ≡ own_memory ∷ []
unfolding filter_by_policy polis_game.Agent.MemoryPolicy.allowed_namespaces
ann_reads = refl

two_reminders :
    (watch [] "bot:grant" 500000000
      ((300000000, true) ∷ (310000000, true) ∷ (499000000, true) ∷ [])).1
    ≡ 2
unfolding check_user_token_expiry was_token_expiry_alert_sent mark_token_expiry_alert_sent
two_reminders = refl
