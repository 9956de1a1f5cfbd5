-- ===== src/Predict/Flow.antt =====
-- core/predict-settlement.ts `settlePredict`, core/predict-command.ts `cancelPredictWithRefund` and
-- core/predict-bet-parser.ts `tryParsePredictBet`. A call of the LP pool that throws is an argument;
-- posts and logs are left out.
use polis_game.Base.{
  ℕ, ◌+◌, ◌*◌, ◌/◌, String, ◌==◌, Bool, not, Option, none, some, List, [], ◌∷◌, map, keep, any,
  length, eqb, if◌then◌else◌,
}
use polis_game.Base.Int.{pos}
use polis_game.Lp.{LpDb}
use polis_game.Lp.Accounts.{grant_pt}
use polis_game.Lp.Chests.{ensure_public_welfare_chest, public_welfare_chest_id}
use polis_game.Settlement.{WinnerPayout, distribute_pool, total_lp}
use polis_game.Bets.{BetTable, get_unrefunded_bets}
use polis_game.Bets.Refunds.{Calls, refund_bets}
use polis_game.Tc.Flow.{bet_row, reward_winners}
use polis_game.Tc.Betting.{BetParse, Faults, BetReply, not_a_bet, invalid_option, place_bet}
use polis_game.Predict.{PredictProposal, PredictDb}
use polis_game.Predict.Store.{cancel_predict_proposal, settle_predict_proposal, get_predict_bets}

-- `interrupted` stands for an exception in the grants, after the status has changed.
pub data PredictSettle : Type 0 where
  invalid_option_error already_settled interrupted : PredictSettle
  settled_with :
      (winners : List WinnerPayout) (total_pool chest_contribution dust : ℕ) → PredictSettle

-- `Math.round(totalPool * 0.10 * 100) / 100`, in hundredths of an LP, of a pool in thousandths
abbrev pub chest_share : ℕ → ℕ
chest_share total_pool = (total_pool + 50) / 100

-- What a column `NUMERIC(12,1)` stores of an amount in hundredths: tenths, half up.
abbrev pub as_tenths : ℕ → ℕ
as_tenths hundredths = (hundredths + 5) / 10

-- The chest's part, after the winners have been paid: both calls go through or neither.
abbrev pub fund_chest : Bool → String → LpDb → ℕ → LpDb
fund_chest chest_up top_message_id lp contribution =
    if chest_up
    then (grant_pt (ensure_public_welfare_chest lp) public_welfare_chest_id
        (pos (as_tenths contribution)) "predict_chest_contribute" (some top_message_id)).0
    else lp

-- `calls n` is for the n-th winner, `chest_up` for the calls about the chest.
unfoldable pub settle_predict :
    (ℕ → Calls)
    → (chest_up : Bool) → PredictDb
    → LpDb
    → PredictProposal
    → (winner_option announcer_open_id : String) → PredictDb × (LpDb × PredictSettle)
settle_predict calls chest_up db lp proposal winner_option announcer_open_id =
    let bets = keep (λ b. not b.is_refunded) (get_predict_bets db proposal.id) in
    let rows = map bet_row bets in
    let total_pool = 105 * total_lp rows in
    let (db1, did_settle) =
      settle_predict_proposal db proposal.id winner_option announcer_open_id in
    let d =
      distribute_pool ((winner_option, keep (λ b. b.option_value == winner_option) rows) ∷ [])
        total_pool in
    let (lp1, all_paid) =
      reward_winners calls "predict_reward" proposal.top_message_id 0 lp d.winners in
    let share = chest_share total_pool in
    if not (any (λ o. o == winner_option) proposal.options)
    then (db, (lp, invalid_option_error))
    else if not did_settle
    then (db1, (lp, already_settled))
    else if eqb (length bets) 0
    then (db1, (lp, settled_with [] total_pool 0 0))
    else if not all_paid
    then (db1, (lp1, interrupted))
    else (
      db1,
      (
        fund_chest chest_up proposal.top_message_id lp1 share,
        if chest_up then settled_with d.winners total_pool share d.dust else interrupted,
      ),
    )

pub record Cancelled : Type 0 where
  pub db : PredictDb
  pub lp : LpDb
  pub refunded : ℕ
  pub refunded_lp : ℕ

unfoldable pub cancel_predict_with_refund :
    (ℕ → Calls) → PredictDb → LpDb → PredictProposal → Cancelled
cancel_predict_with_refund calls db lp proposal =
    let pending = get_unrefunded_bets db.bets proposal.id in
    let r = refund_bets calls "predict_refund_cancel" proposal.top_message_id db.bets lp pending in
    record {
      db = (cancel_predict_proposal (record db { bets = r.table }) proposal.id).0;
      lp = r.lp;
      refunded = r.refunded;
      refunded_lp = r.refunded_lp;
    }

unfoldable pub try_parse_predict_bet :
    (has_lp_marker : Bool)
    → Faults
    → (seen_bets : BetTable) → (seen_lp : LpDb) → PredictDb
    → LpDb
    → Option BetParse
    → PredictProposal
    → (sender_open_id message_id : String) → PredictDb × (LpDb × BetReply)
try_parse_predict_bet has_lp_marker faults seen_bets seen_lp db lp none proposal sender message_id =
    (db, (lp, not_a_bet))
try_parse_predict_bet has_lp_marker faults seen_bets seen_lp db lp (some parsed) proposal sender
      message_id =
    let (bets, result) =
      place_bet faults seen_bets seen_lp db.bets db.now lp "predict_bet" "predict_bet_rollback"
        proposal.min_bet_lp proposal.max_bet_lp
        (record {
          proposal_id = proposal.id;
          user_open_id = sender;
          option_value = parsed.option_value;
          lp_amount = parsed.lp_amount;
          message_id = message_id;
        }) in
    if any (λ o. o == parsed.option_value) proposal.options
    then (record db { bets = bets }, result)
    else (db, (lp, if has_lp_marker then invalid_option else not_a_bet))
