-- ===== src/Commands/TcCommand.antt =====
-- The `tc` command of core/commands.ts: queries, cancellations and edits of surveys. The edit of the
-- original post is left out, and so is the reading of numbers and dates from the arguments.
use polis_game.Base.{
  ℕ, suc, String, ◌==◌, Bool, true, false, not, ◌&&◌, ◌||◌, Option, none, some, List, [], ◌∷◌, map,
  keep, any, leb, if◌then◌else◌,
}
use polis_game.Base.Int.{ℤ, pos}
use polis_game.Base.Order.{sort_by}
use polis_game.Lp.{LpDb}
use polis_game.Lp.Accounts.{grant_pt}
use polis_game.Settlement.{
  BetRow, OptionType, discrete, continuous, total_lp, lp_by_option, settled_point,
}
use polis_game.Bets.{Bet, BetTable, get_bets, get_unrefunded_bets, mark_bet_refunded}
use polis_game.Tc.{active, settled, cancelled, TcProposal, TcProposalUpdate, TcDb, Status}
use polis_game.Tc.Store.{cancel_tc_proposal, get_tc_by_num, update_tc_proposal, is_null}
use polis_game.Tc.Flow.{bet_row}
use polis_game.Bets.Refunds.{Calls, first_works, both_work}

abbrev pub can_manage_tc : (String → Bool) → String → TcProposal → Bool
can_manage_tc is_admin sender_open_id proposal =
    if sender_open_id == ""
    then false
    else if is_admin sender_open_id
    then true
    else sender_open_id == proposal.created_by

-- `new Set(…).size`
abbrev pub distinct_users : List String → List BetRow → ℕ
distinct_users seen [] = 0
distinct_users seen (b ∷ bs) =
    let known = distinct_users seen bs in
    let fresh = distinct_users (b.user_open_id ∷ seen) bs in
    if any (λ u. u == b.user_open_id) seen then known else suc fresh

-- What the reply to a query shows: the state, the participants, the stakes, and each option's share.
pub record QueryReply : Type 0 where
  pub num : ℕ
  pub status : Status
  pub participants : ℕ
  pub total : ℕ
  pub option_type : OptionType
  pub options : List (String × ℕ)
  pub average : Option ℤ

abbrev pub active_rows : TcDb → TcProposal → List BetRow
active_rows db p = map bet_row (keep (λ b. not b.is_refunded) (get_bets db.bets p.id))

-- The lines of a discrete survey, in falling order.
abbrev pub option_lines : OptionType → List BetRow → List (String × ℕ)
option_lines discrete bets = sort_by (λ a b. leb b.1 a.1) (lp_by_option [] bets)
option_lines continuous bets = []

-- The weighted mean of a continuous one, rounded to ten-thousandths.
abbrev pub weighted_mean : (String → ℤ) → OptionType → List BetRow → Option ℤ
weighted_mean parse discrete bets = none
weighted_mean parse continuous [] = none
weighted_mean parse continuous (b ∷ bs) = some (settled_point parse (b ∷ bs))

-- `parse` is parseFloat in ten-thousandths.
abbrev pub query_reply : (String → ℤ) → TcDb → TcProposal → QueryReply
query_reply parse db p =
    let bets = active_rows db p in
    record {
      num = p.num;
      status = p.status;
      participants = distinct_users [] bets;
      total = total_lp bets;
      option_type = p.option_type;
      options = option_lines p.option_type bets;
      average = weighted_mean parse p.option_type bets;
    }

unfoldable pub query_tc_reply : (String → ℤ) → TcDb → ℕ → Option QueryReply
query_tc_reply parse db num = elim (get_tc_by_num db num) [
  | none ↦ none
  | some p ↦ some (query_reply parse db p)
]

pub data TcReply : Type 0 where
  usage no_such_tc already_cancelled already_settled no_sender not_allowed : TcReply
  query_result : QueryReply → TcReply
  withdrawn : ℕ → TcReply
  nothing_to_edit edit_failed edited : TcReply

-- What the loop of `refundTcBets` leaves: the bets, the LP database and the count.
pub record TcRefund : Type 0 where
  pub table : BetTable
  pub lp : LpDb
  pub refunded : ℕ

-- `calls` says for a bet how its mark and its grant go; an error is dropped and the loop goes on.
abbrev pub refund_each : (ℕ → Calls) → TcProposal → List Bet → BetTable → LpDb → ℕ → TcRefund
refund_each calls p [] t lp refunded = record { table = t; lp = lp; refunded = refunded }
refund_each calls p (bet ∷ pending) t lp refunded =
    let paid = both_work (calls bet.id) in
    refund_each calls p pending
      (if first_works (calls bet.id) then (mark_bet_refunded t bet.id).0 else t)
      (if paid
        then (grant_pt lp bet.user_open_id (pos bet.lp_amount) "tc_refund_cancel"
            (some p.top_message_id)).0
        else lp)
      (if paid then suc refunded else refunded)

unfoldable pub refund_tc_bets : (ℕ → Calls) → TcDb → LpDb → TcProposal → TcRefund
refund_tc_bets calls db lp p = refund_each calls p (get_unrefunded_bets db.bets p.id) db.bets lp 0

-- The guards of `tc cancel` after the lookup.
abbrev pub cancel_found :
    (String → Bool)
    → (ℕ → Calls)
    → TcDb
    → LpDb
    → (sender_open_id : String) → Option TcProposal
    → TcDb × (LpDb × TcReply)
cancel_found is_admin calls db lp sender none = (db, (lp, no_such_tc))
cancel_found is_admin calls db lp sender (some p) =
    let c = refund_tc_bets calls db lp p in
    elim p.status [
      | cancelled ↦ (db, (lp, already_cancelled))
      | settled ↦ (db, (lp, already_settled))
      | active ↦
          if sender == ""
          then (db, (lp, no_sender))
          else if not (can_manage_tc is_admin sender p)
          then (db, (lp, not_allowed))
          else (
            (cancel_tc_proposal (record db { bets = c.table }) p.id).0,
            (c.lp, withdrawn c.refunded),
          )
    ]

-- An absent sender is the empty text; a number that does not parse is `none`.
unfoldable pub tc_cancel :
    (is_admin : String → Bool)
    → (ℕ → Calls)
    → TcDb
    → LpDb
    → (num : Option ℕ) → (sender_open_id : String) → TcDb × (LpDb × TcReply)
tc_cancel is_admin calls db lp none sender = (db, (lp, usage))
tc_cancel is_admin calls db lp (some num) sender =
    cancel_found is_admin calls db lp sender (get_tc_by_num db num)

abbrev pub edit_found :
    (String → Bool)
    → TcDb
    → (sender_open_id : String) → TcProposalUpdate
    → Option TcProposal
    → TcDb × TcReply
edit_found is_admin db sender updates none = (db, no_such_tc)
edit_found is_admin db sender updates (some p) =
    let r = update_tc_proposal db p.id updates in
    if sender == "" || not (is_admin sender)
    then (db, not_allowed)
    else if is_null updates.max_bet_lp && is_null updates.end_time
    then (db, nothing_to_edit)
    else (r.0, if r.1 then edited else edit_failed)

unfoldable pub tc_edit :
    (is_admin : String → Bool)
    → TcDb
    → (num : Option ℕ) → TcProposalUpdate
    → (sender_open_id : String) → TcDb × TcReply
tc_edit is_admin db none updates sender = (db, usage)
tc_edit is_admin db (some num) updates sender =
    edit_found is_admin db sender updates (get_tc_by_num db num)
