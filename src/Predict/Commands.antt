-- ===== src/Predict/Commands.antt =====
-- core/predict-command.ts `tryHandlePredictCommand` and core/tc-command.ts `tryHandleTcCommand`: who may
-- announce and cancel. The command stands parsed; the texts of the replies are left out.
use polis_game.Base.{ℕ, String, ◌==◌, Bool, not, ◌&&◌, Option, none, some, any, if◌then◌else◌}
use polis_game.Lp.{LpDb}
use polis_game.Lp.Accounts.{has_badge}
use polis_game.Tc.{TcProposal, TcDb}
use polis_game.Tc.Store.{get_tc_by_num}
use polis_game.Tc.Flow.{cancel_tc_with_refund}
use polis_game.Predict.{PredictProposal, PredictDb}
use polis_game.Predict.Store.{get_predict_by_num}
use polis_game.Predict.Flow.{settle_predict, cancel_predict_with_refund}
use polis_game.Bets.Refunds.{Calls}

abbrev pub predict_judge_badge_id : String
predict_judge_badge_id = "predict_judge"

-- `NaN` is `none`.
pub data PredictCommand : Type 0 where
  announce : (num : Option ℕ) (winner_option : String) → PredictCommand
  cancel : (num : Option ℕ) → PredictCommand

pub data CommandReply : Type 0 where
  usage no_such_proposal not_active not_allowed no_such_option : CommandReply
  announced : CommandReply
  withdrawn : (refunded refunded_lp : ℕ) → CommandReply

-- The settlement that `announce` starts runs in the background; here it has run.
abbrev pub announce_on :
    (ℕ → Calls)
    → Bool
    → PredictDb
    → LpDb
    → (sender_open_id winner_option : String) → Option PredictProposal
    → PredictDb × (LpDb × CommandReply)
announce_on calls chest_up db lp sender winner_option none = (db, (lp, no_such_proposal))
announce_on calls chest_up db lp sender winner_option (some p) =
    let s = settle_predict calls chest_up db lp p winner_option sender in
    if not (polis_game.Predict.Store.is_active p)
    then (db, (lp, not_active))
    else if not (has_badge lp sender predict_judge_badge_id)
    then (db, (lp, not_allowed))
    else if not (any (λ o. o == winner_option) p.options)
    then (db, (lp, no_such_option))
    else (s.0, (s.1.0, announced))

abbrev pub cancel_on :
    (ℕ → Calls)
    → PredictDb
    → LpDb
    → (sender_open_id : String) → Option PredictProposal
    → PredictDb × (LpDb × CommandReply)
cancel_on calls db lp sender none = (db, (lp, no_such_proposal))
cancel_on calls db lp sender (some p) =
    let c = cancel_predict_with_refund calls db lp p in
    if not (polis_game.Predict.Store.is_active p)
    then (db, (lp, not_active))
    else if not (p.created_by == sender) && not (has_badge lp sender predict_judge_badge_id)
    then (db, (lp, not_allowed))
    else (c.db, (c.lp, withdrawn c.refunded c.refunded_lp))

unfoldable pub try_handle_predict_command :
    (ℕ → Calls)
    → Bool
    → PredictDb
    → LpDb
    → PredictCommand
    → (sender_open_id : String) → PredictDb × (LpDb × CommandReply)
try_handle_predict_command calls chest_up db lp (announce none winner_option) sender =
    (db, (lp, usage))
try_handle_predict_command calls chest_up db lp (announce (some num) winner_option) sender =
    if winner_option == ""
    then (db, (lp, usage))
    else announce_on calls chest_up db lp sender winner_option (get_predict_by_num db num)
try_handle_predict_command calls chest_up db lp (cancel none) sender = (db, (lp, usage))
try_handle_predict_command calls chest_up db lp (cancel (some num)) sender =
    cancel_on calls db lp sender (get_predict_by_num db num)

abbrev pub cancel_tc_on :
    (String → Bool)
    → (ℕ → Calls)
    → TcDb
    → LpDb
    → (sender_open_id : String) → Option TcProposal
    → TcDb × (LpDb × CommandReply)
cancel_tc_on is_admin calls db lp sender none = (db, (lp, no_such_proposal))
cancel_tc_on is_admin calls db lp sender (some p) =
    let c = cancel_tc_with_refund calls db lp p in
    if not (polis_game.Tc.Store.is_active p)
    then (db, (lp, not_active))
    else if not (p.created_by == sender) && not (is_admin sender)
    then (db, (lp, not_allowed))
    else (c.db, (c.lp, withdrawn c.refunded c.refunded_lp))

-- `tc cancel <num>`; `is_admin` is the list of administrators in the configuration.
unfoldable pub try_handle_tc_command :
    (is_admin : String → Bool)
    → (ℕ → Calls)
    → TcDb
    → LpDb
    → (num : Option ℕ) → (sender_open_id : String) → TcDb × (LpDb × CommandReply)
try_handle_tc_command is_admin calls db lp none sender = (db, (lp, usage))
try_handle_tc_command is_admin calls db lp (some num) sender =
    cancel_tc_on is_admin calls db lp sender (get_tc_by_num db num)
