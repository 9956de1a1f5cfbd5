-- ===== src/Predict/Store.antt =====
-- The statements of core/store/predict.ts. Those on bets are the ones of the module Bets.
use polis_game.Base.{
  ℕ, suc, String, ◌==◌, Bool, true, false, ◌&&◌, Option, none, some, List, [], ◌∷◌, ◌++◌, keep, eqb,
  ltb, leb,
}
use polis_game.Base.Rows.{update, row_count, select_first}
use polis_game.Bets.{Bet, BetInput, insert_bet, get_bets}
use polis_game.Tc.{active, settled, cancelled}
use polis_game.Base.Order.{sort_by, limit_to}
use polis_game.Tc.Store.{or_else}
use polis_game.Predict.{PredictProposal, PredictProposalInput, PredictDb}

abbrev pub is_active : PredictProposal → Bool
is_active p = elim p.status [ active ↦ true | settled ↦ false | cancelled ↦ false ]

unfoldable pub next_predict_num_unsafe : PredictDb → PredictDb × ℕ
next_predict_num_unsafe db = (record db { next_num = suc db.next_num }, db.next_num)

unfoldable pub insert_predict_proposal : PredictDb → PredictProposalInput → PredictDb × (ℕ × ℕ)
unfolding next_predict_num_unsafe
insert_predict_proposal db input =
    let (db1, num) = next_predict_num_unsafe db in
    (
      record db1 {
        proposals =
            db1.proposals
            ++ record {
              id = db1.next_id;
              num = num;
              title = input.title;
              options = input.options;
              end_time = input.end_time;
              min_bet_lp = 10;
              max_bet_lp = or_else input.max_bet_lp 100;
              status = active;
              created_by = or_else input.created_by "";
              chat_id = or_else input.chat_id "";
              top_message_id = "";
              announced_by = "";
              settled_option = none;
              settled_at = none;
              created_at = db1.now;
              updated_at = db1.now;
            }
              ∷ [];
        next_id = suc db1.next_id;
      },
      (db1.next_id, num),
    )

abbrev pub update_proposals :
    PredictDb → (PredictProposal → Bool) → (PredictProposal → PredictProposal) → PredictDb × Bool
update_proposals db p f =
    (record db { proposals = update p f db.proposals }, ltb 0 (row_count p db.proposals))

unfoldable pub update_predict_top_message_id : PredictDb → ℕ → String → PredictDb × Bool
update_predict_top_message_id db id top_message_id =
    update_proposals db (λ p. eqb p.id id)
      (λ p. record p { top_message_id = top_message_id; updated_at = db.now })

unfoldable pub get_predict_by_num : PredictDb → ℕ → Option PredictProposal
get_predict_by_num db num = select_first (λ p. eqb p.num num) db.proposals

unfoldable pub get_predict_by_id : PredictDb → ℕ → Option PredictProposal
get_predict_by_id db id = select_first (λ p. eqb p.id id) db.proposals

unfoldable pub get_predict_by_top_message_id : PredictDb → String → Option PredictProposal
get_predict_by_top_message_id db msg_id =
    select_first (λ p. p.top_message_id == msg_id) db.proposals

unfoldable pub cancel_predict_proposal : PredictDb → ℕ → PredictDb × Bool
cancel_predict_proposal db id =
    update_proposals db (λ p. eqb p.id id && is_active p)
      (λ p. record p { status = cancelled; updated_at = db.now })

unfoldable pub settle_predict_proposal :
    PredictDb → ℕ → (settled_option announced_by : String) → PredictDb × Bool
settle_predict_proposal db id settled_option announced_by =
    update_proposals db (λ p. eqb p.id id && is_active p)
      (λ p. record p {
        status = settled;
        settled_option = some settled_option;
        announced_by = announced_by;
        settled_at = some db.now;
        updated_at = db.now;
      })

unfoldable pub list_active_predicts : PredictDb → List PredictProposal
list_active_predicts db = sort_by (λ p q. leb p.num q.num) (keep is_active db.proposals)

unfoldable pub list_active_predicts_by_chat : PredictDb → String → List PredictProposal
list_active_predicts_by_chat db chat_id =
    sort_by (λ p q. leb q.num p.num) (keep (λ p. p.chat_id == chat_id && is_active p) db.proposals)

unfoldable pub list_all_predicts : PredictDb → ℕ → List PredictProposal
list_all_predicts db limit = limit_to limit (sort_by (λ p q. leb q.num p.num) db.proposals)

abbrev pub insert_predict_bet : PredictDb → BetInput → PredictDb × ℕ
insert_predict_bet db bet =
    let (bets, id) = insert_bet db.bets db.now bet in (record db { bets = bets }, id)

abbrev pub get_predict_bets : PredictDb → ℕ → List Bet
get_predict_bets db proposal_id = get_bets db.bets proposal_id
