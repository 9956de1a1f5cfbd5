-- ===== src/Agent/Replies.antt =====
-- channels/feishu-bot.ts: the queue of replies by the model, what a reply costs, and the recovery after
-- a restart, with the table of core/store/ops.ts behind it. Reactions, texts and sending are left out.
-- How the model ends, and the category its reply falls into, are arguments; an agent has one channel,
-- its table takes every write, and it does not start in the quiet mode.
use polis_game.Base.{
  ℕ, suc, ◌+◌, ◌≡◌, refl, String, ◌==◌, Bool, true, false, not, ◌&&◌, Option, none, some, List, [],
  ◌∷◌, ◌++◌, keep, leb, ltb, eqb, if◌then◌else◌,
}
use polis_game.Base.Int.{ℤ, pos}
use polis_game.Base.Rows.{update}
use polis_game.Lp.{LpDb}
use polis_game.Lp.Accounts.{grant_pt, spend_pt}
use polis_game.Lp.Strategy.{LpCategory, LpStrategy}
pub mod Refunds

pub record PendingReply : Type 0 where
  pub id : ℕ
  pub message_id : Option String
  pub sender_open_id : String
  pub pt_spent : Bool
  pub attempts : ℕ

pub record BotJob : Type 0 where
  pub message_id : Option String
  pub sender_open_id : String
  pub pending_id : ℕ

-- The LP database, the table of pending replies, and the queue in memory.
pub record Replies : Type 0 where
  pub lp : LpDb
  pub pendings : List PendingReply
  pub next_id : ℕ
  pub queue : List BotJob

-- An error comes before the bonus of the category, or after it, as the footer is built.
pub data LlmOutcome : Type 0 where
  answered : (category : LpCategory) → LlmOutcome
  erred : LlmOutcome
  erred_late : (category : LpCategory) → LlmOutcome

-- What the sender reads.
pub data Shown : Type 0 where
  lp_short reply apology nothing : Shown

abbrev pub llm_pt_cost : ℕ
llm_pt_cost = 1

abbrev pub max_recovery_attempts : ℕ
max_recovery_attempts = 2

abbrev pub has_id : ℕ → PendingReply → Bool
has_id id p = eqb p.id id

unfoldable pub update_pending_reply : ℕ → (PendingReply → PendingReply) → Replies → Replies
update_pending_reply id change st =
    if eqb id 0 then st else record st { pendings = update (has_id id) change st.pendings }

unfoldable pub remove_pending_reply : ℕ → Replies → Replies
remove_pending_reply id st =
    if eqb id 0 then st else record st { pendings = keep (λ p. not (has_id id p)) st.pendings }

-- The end of `handleEvent`: the row first, then the queue.
unfoldable pub enqueue : (message_id : Option String) → (sender : String) → Replies → Replies
enqueue message_id sender st = record st {
  pendings =
      st.pendings
      ++ record {
        id = st.next_id;
        message_id = message_id;
        sender_open_id = sender;
        pt_spent = false;
        attempts = 0;
      }
        ∷ [];
  next_id = suc st.next_id;
  queue =
      st.queue
      ++ record { message_id = message_id; sender_open_id = sender; pending_id = st.next_id } ∷ [];
}

-- The charge, and the note in the row that it was made.
unfoldable pub charge : LpStrategy → BotJob → Replies → Replies × Bool
charge strategy job st =
    let paid = spend_pt st.lp job.sender_open_id (pos strategy.cost) "llm_reply" job.message_id in
    let st1 = record st { lp = paid.0 } in
    if paid.1
    then (update_pending_reply job.pending_id (λ p. record p { pt_spent = true }) st1, true)
    else (st1, false)

abbrev pub grant_to : BotJob → ℕ → String → Replies → Replies
grant_to job amount reason st = record st {
  lp = (grant_pt st.lp job.sender_open_id (pos amount) reason job.message_id).0;
}

abbrev pub bonus : BotJob → LpCategory → Replies → Replies
bonus job c st = if ltb 0 c.grant then grant_to job c.grant c.reason st else st

-- `refunds` says whether the grant of the refund goes through; where it throws, nothing is sent.
abbrev pub give_back : LpStrategy → BotJob → (refunds : Bool) → Replies → Replies × Shown
give_back strategy job true st = (grant_to job strategy.cost "refund_on_error" st, apology)
give_back strategy job false st = (st, nothing)

-- After the model, for a reply that was paid.
abbrev pub settle : LpStrategy → BotJob → LlmOutcome → (refunds : Bool) → Replies → Replies × Shown
settle strategy job (answered c) refunds st = (bonus job c st, reply)
settle strategy job erred refunds st = give_back strategy job refunds st
settle strategy job (erred_late c) refunds st = give_back strategy job refunds (bonus job c st)

abbrev pub shown_unpaid : LlmOutcome → Shown
shown_unpaid (answered c) = reply
shown_unpaid erred = apology
shown_unpaid (erred_late c) = apology

unfoldable pub process_job :
    LpStrategy → BotJob → LlmOutcome → (refunds : Bool) → Replies → Replies × Shown
process_job strategy job outcome refunds st =
    let charged = charge strategy job st in
    if job.sender_open_id == ""
    then (st, shown_unpaid outcome)
    else if charged.1
    then settle strategy job outcome refunds charged.0
    else (charged.0, lp_short)

abbrev pub pump_queue : LpStrategy → LlmOutcome → Bool → List BotJob → Replies → Replies
pump_queue strategy outcome refunds [] st = st
pump_queue strategy outcome refunds (job ∷ jobs) st =
    remove_pending_reply job.pending_id
      (process_job strategy job outcome refunds (record st { queue = jobs })).0

-- One turn of the worker.
unfoldable pub pump : LpStrategy → LlmOutcome → (refunds : Bool) → Replies → Replies
unfolding process_job remove_pending_reply
pump strategy outcome refunds st = pump_queue strategy outcome refunds st.queue st

-- The process ends: what is in memory is lost.
unfoldable pub crash : Replies → Replies
crash st = record st { queue = [] }

-- The process ends while the model works on the first job.
abbrev pub interrupt_first : LpStrategy → List BotJob → Replies → Replies
interrupt_first strategy [] st = crash st
interrupt_first strategy (job ∷ jobs) st = crash (charge strategy job st).0

unfoldable pub interrupt : LpStrategy → Replies → Replies
unfolding crash charge
interrupt strategy st = interrupt_first strategy st.queue st

unfoldable pub refund : PendingReply → Replies → Replies
refund p st =
    if p.pt_spent && not (p.sender_open_id == "")
    then record st {
      lp = (grant_pt st.lp p.sender_open_id (pos llm_pt_cost) "refund_interrupted" p.message_id).0;
    }
    else st

-- One round of the loop of `recover`.
unfoldable pub recover_one : PendingReply → Replies → Replies
unfolding refund update_pending_reply remove_pending_reply
recover_one p st =
    let st1 = refund p st in
    if leb max_recovery_attempts p.attempts
    then remove_pending_reply p.id st1
    else (let st2 = update_pending_reply p.id (λ r. record r { attempts = suc p.attempts }) st1 in
        record st2 {
          queue =
              st2.queue
              ++ record {
                message_id = p.message_id;
                sender_open_id = p.sender_open_id;
                pending_id = p.id;
              }
                ∷ [];
        })

abbrev pub recover_each : List PendingReply → Replies → Replies
recover_each [] st = st
recover_each (p ∷ ps) st = recover_each ps (recover_one p st)

unfoldable pub recover : Replies → Replies
unfolding recover_one
recover st = recover_each st.pendings st
