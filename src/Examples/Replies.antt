-- ===== src/Examples/Replies.antt =====
-- The replies of channels/feishu-bot.ts in a small town.
use polis_game.Base.{◌≡◌, ◌≢◌, refl, ap, ◌==◌, true, none, [], ◌∷◌, arith, if◌then◌else◌}
use polis_game.Base.Int.{pos, ◌+ℤ◌}
use polis_game.Lp.Accounts.{cid}
use polis_game.Lp.FirstContact.{gift}
use polis_game.Lp.Strategy.{fallback_strategy}
use polis_game.Agent.Replies.{BotJob, PendingReply, Replies, erred, process_job, crash, recover}
use polis_game.Agent.Replies.Refunds.{balance_of, failed_reply_free, charged_once_refunded_twice}
use polis_game.Examples.Lp.{town, town-Books}

abbrev owed : PendingReply
owed = record {
  id = 4;
  message_id = none;
  sender_open_id = "ou_alt";
  pt_spent = true;
  attempts = 0;
}

abbrev restarted : Replies
restarted = record { lp = town; pendings = owed ∷ []; next_id = 5; queue = [] }

abbrev job : BotJob
job = record { message_id = none; sender_open_id = "ou_alt"; pending_id = 4 }

named : job.sender_open_id ≢ ""
named = λ e. let same = ap (λ s. s == "") e in cc

failed_reply_free_example :
    balance_of (process_job fallback_strategy job erred true restarted).0 "ou_ann" ≡ (
      if cid town "ou_alt" == "ou_ann"
      then balance_of restarted "ou_ann" +ℤ gift town (cid town "ou_alt")
      else balance_of restarted "ou_ann")
failed_reply_free_example =
    failed_reply_free fallback_strategy job restarted town-Books named "ou_ann"

charged_once_refunded_twice_example :
    balance_of (recover (crash (recover restarted))) (cid town "ou_alt")
    ≡ balance_of restarted (cid town "ou_alt") +ℤ pos 1 +ℤ pos 1
charged_once_refunded_twice_example =
    charged_once_refunded_twice owed restarted town-Books refl (λ e. omega arith) refl refl named
