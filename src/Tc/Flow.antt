-- ===== src/Tc/Flow.antt =====
-- core/tc-settlement.ts `settleTc`, core/tc-command.ts `cancelTcWithRefund`. A call of the LP pool that
-- throws is an argument; posts and logs are left out.
use polis_game.Base.{
  ℕ, suc, String, Bool, true, false, not, some, List, [], ◌∷◌, map, keep, ltb, if◌then◌else◌,
}
use polis_game.Base.Int.{ℤ, pos}
use polis_game.Lp.{LpDb}
use polis_game.Lp.Accounts.{grant_pt}
use polis_game.Settlement.{BetRow, WinnerPayout, compute_tc_settlement}
use polis_game.Bets.{Bet, get_bets, get_unrefunded_bets}
use polis_game.Bets.Refunds.{Calls, first_works, both_work, refund_bets}
use polis_game.Tc.{TcProposal, TcDb}
use polis_game.Tc.Store.{cancel_tc_proposal, settle_tc_proposal}

abbrev pub bet_row : Bet → BetRow
bet_row b = record {
  user_open_id = b.user_open_id;
  option_value = b.option_value;
  lp_amount = b.lp_amount;
}

-- For the n-th winner, `calls n` says how the grant and the lookup of the name after it go; one that
-- throws ends the loop, and the result is whether none did.
unfoldable pub reward_winners :
    (ℕ → Calls) → (reason top_message_id : String) → ℕ → LpDb → List WinnerPayout → LpDb × Bool
reward_winners calls reason top_message_id n lp [] = (lp, true)
reward_winners calls reason top_message_id n lp (w ∷ ws) =
    let granted = (grant_pt lp w.user_open_id (pos w.payout) reason (some top_message_id)).0 in
    let paid = reward_winners calls reason top_message_id (suc n) granted ws in
    let unpaid = reward_winners calls reason top_message_id (suc n) lp ws in
    if ltb 0 w.payout
    then (if both_work (calls n)
        then paid
        else if first_works (calls n)
        then (granted, false)
        else (lp, false))
    else unpaid

pub data SettleOutcome : Type 0 where
  already_settled rewarded interrupted : SettleOutcome

abbrev pub rewarded_or_not : LpDb × Bool → LpDb × SettleOutcome
rewarded_or_not (lp, all_paid) = (lp, if all_paid then rewarded else interrupted)

unfoldable pub settle_tc :
    (String → ℤ) → Bool → (ℕ → Calls) → TcDb → LpDb → TcProposal → TcDb × (LpDb × SettleOutcome)
settle_tc parse no_bonus calls db lp proposal =
    let bets = keep (λ b. not b.is_refunded) (get_bets db.bets proposal.id) in
    let result = compute_tc_settlement parse proposal.option_type (map bet_row bets) no_bonus in
    let (db1, did_settle) =
      settle_tc_proposal db proposal.id result.settled_value result.settled_option in
    if not did_settle then (db1, (lp, already_settled)) else (
      db1,
      rewarded_or_not
          (reward_winners calls "tc_reward" proposal.top_message_id 0 lp result.winners),
    )

pub record Cancelled : Type 0 where
  pub db : TcDb
  pub lp : LpDb
  pub refunded : ℕ
  pub refunded_lp : ℕ

-- `pending` is what `getUnrefundedBets` has read; other steps may come before the loop.
unfoldable pub finish_cancel : (ℕ → Calls) → TcDb → LpDb → TcProposal → List Bet → Cancelled
finish_cancel calls db lp proposal pending =
    let r = refund_bets calls "tc_refund_cancel" proposal.top_message_id db.bets lp pending in
    record {
      db = (cancel_tc_proposal (record db { bets = r.table }) proposal.id).0;
      lp = r.lp;
      refunded = r.refunded;
      refunded_lp = r.refunded_lp;
    }

unfoldable pub cancel_tc_with_refund : (ℕ → Calls) → TcDb → LpDb → TcProposal → Cancelled
unfolding finish_cancel
cancel_tc_with_refund calls db lp proposal =
    finish_cancel calls db lp proposal (get_unrefunded_bets db.bets proposal.id)
