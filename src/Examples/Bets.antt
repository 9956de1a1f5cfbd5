-- ===== src/Examples/Bets.antt =====
-- Surveys, predictions and their bets, with the town of the ledger's examples.
use polis_game.Base.{refl, ℕ, ◌≤◌, ◌≡◌, String, true, false, none, List, [], ◌∷◌, arith}
use polis_game.Base.Int.{ℤ, pos, ◌+ℤ◌}
use polis_game.Lp.Accounts.{cid, balance_in}
use polis_game.Lp.Books.{Books}
use polis_game.Settlement.{WinnerPayout, discrete}
use polis_game.Bets.{Bet, BetInput, BetTable, get_unrefunded_bets, get_user_total_bet_lp}
use polis_game.Bets.Refunds.{
  Calls, all_work, owed, refund_bets, refund_bets-Books, refund_bets_leave_none,
}
use polis_game.Tc.{active, labels, TcProposal, TcDb}
use polis_game.Tc.Flow.{already_settled, settle_tc, reward_winners}
use polis_game.Tc.Gates.{settle_tc_twice}
use polis_game.Tc.Rewards.{won, reward_winners_pay}
use polis_game.Tc.Betting.{works, Faults, place_bet}
use polis_game.Tc.Placing.{Outcome, place_bet-Outcome, place_bet_within_limit}
use polis_game.Predict.{PredictProposal, PredictDb}
use polis_game.Examples.Lp.{town, town-Books}

abbrev first_bet : Bet
first_bet = record {
  id = 1;
  proposal_id = 1;
  user_open_id = "ou_alt";
  option_value = "A";
  lp_amount = 30;
  message_id = "om_1";
  is_refunded = false;
  created_at = 100;
}

abbrev second_bet : Bet
second_bet = record first_bet {
  id = 2;
  user_open_id = "ou_bob";
  option_value = "B";
  lp_amount = 20;
}

abbrev bets : BetTable
bets = record { rows = first_bet ∷ second_bet ∷ []; next_id = 3 }

abbrev pub survey : TcProposal
survey = record {
  id = 1;
  num = 51;
  title = "tea or coffee";
  option_type = discrete;
  options = labels ("A" ∷ "B" ∷ []);
  end_time = 200;
  min_bet_lp = 10;
  max_bet_lp = 100;
  status = active;
  created_by = "ou_ann";
  chat_id = "oc_1";
  top_message_id = "om_top";
  thread_id = none;
  settled_value = none;
  settled_option = none;
  settled_at = none;
  created_at = 50;
  updated_at = 50;
}

abbrev pub tc_db : TcDb
tc_db = record {
  proposals = survey ∷ [];
  next_num = 52;
  next_id = 2;
  bets = bets;
  messages = [];
  now = 150;
}

abbrev pub value_of : String → ℤ
value_of s = pos 0

abbrev always : ℕ → Calls
always n = all_work

settle_tc_twice_example :
    let (db1, (lp1, _)) = settle_tc value_of false always tc_db town survey in
    settle_tc value_of false always db1 lp1 survey ≡ (db1, (lp1, already_settled))
settle_tc_twice_example = settle_tc_twice value_of false always always tc_db town survey

refund_bets-Books_example :
    let r = refund_bets always "tc_refund_cancel" "om_top" bets town bets.rows in
    Books r.lp
    × ((j : String)
        → balance_in j r.lp.profiles
          ≡ balance_in j town.profiles +ℤ pos (owed (cid town) always j bets.rows))
refund_bets-Books_example =
    refund_bets-Books always "tc_refund_cancel" "om_top" bets town bets.rows town-Books

refund_bets_leave_none_example :
    get_unrefunded_bets
      (refund_bets always "tc_refund_cancel" "om_top" bets town (get_unrefunded_bets bets 1)).table
      1
    ≡ []
refund_bets_leave_none_example =
    refund_bets_leave_none always "tc_refund_cancel" "om_top" bets town 1 (λ id. refl)

abbrev payouts : List WinnerPayout
payouts = record { user_open_id = "ou_alt"; option_value = "A"; lp_amount = 30; payout = 52 } ∷ []

reward_winners_pay_example :
    let r = reward_winners always "tc_reward" "om_top" 0 town payouts in
    (r.1 ≡ true)
    × Books r.0
    × ((j : String)
        → balance_in j r.0.profiles ≡ balance_in j town.profiles +ℤ pos (won (cid town) j payouts))
reward_winners_pay_example = reward_winners_pay "tc_reward" "om_top" 0 town payouts town-Books

abbrev new_bet : BetInput
new_bet = record {
  proposal_id = 1;
  user_open_id = "ou_alt";
  option_value = "A";
  lp_amount = 40;
  message_id = "om_2";
}

abbrev no_faults : Faults
no_faults = record { pool_call = works; insert_fails = false; rollback_fails = false }

place_bet-Outcome_example :
    let r = place_bet no_faults bets town bets 150 town "tc_bet" "tc_bet_rollback" 10 100 new_bet in
    let already = get_user_total_bet_lp bets 1 "ou_alt" in
    Books r.1.0 × Outcome bets 150 town 10 100 already new_bet r.1.1 r.0 r.1.0
place_bet-Outcome_example =
    place_bet-Outcome no_faults bets town bets 150 town "tc_bet" "tc_bet_rollback" 10 100 new_bet
      town-Books

before_limit : get_user_total_bet_lp bets 1 "ou_alt" ≤ 100
unfolding get_user_total_bet_lp
before_limit = omega arith

place_bet_within_limit_example :
    get_user_total_bet_lp
      (place_bet no_faults bets town bets 150 town "tc_bet" "tc_bet_rollback" 10 100 new_bet).0
      1
      "ou_alt"
    ≤ 100
place_bet_within_limit_example =
    place_bet_within_limit no_faults town bets 150 town "tc_bet" "tc_bet_rollback" 10 100 new_bet
      town-Books before_limit

abbrev prediction : PredictProposal
prediction = record {
  id = 1;
  num = 3;
  title = "who wins";
  options = "A" ∷ "B" ∷ [];
  end_time = 200;
  min_bet_lp = 10;
  max_bet_lp = 100;
  status = active;
  created_by = "ou_ann";
  chat_id = "oc_1";
  top_message_id = "om_top";
  announced_by = "";
  settled_option = none;
  settled_at = none;
  created_at = 50;
  updated_at = 50;
}

abbrev predict_db : PredictDb
predict_db = record {
  proposals = prediction ∷ [];
  next_num = 4;
  next_id = 2;
  bets = bets;
  now = 300;
}
