-- ===== src/Tc/Betting.antt =====
-- core/tc-bet-parser.ts `tryParseTcBet`: placing a bet. What `parseTcBetInput` reads from the text is
-- an argument, like `parseFloat`, the test for an LP marker and the faults of the two databases. The
-- reads of the pre-checks may be older than the writes: `seen` is what they saw.
use polis_game.Base.{
  ℕ, ◌+◌, ◌-◌, String, ◌==◌, Bool, not, ◌||◌, Option, none, some, any, ltb, if◌then◌else◌,
}
use polis_game.Base.Int.{ℤ, pos, ltb_ℤ}
use polis_game.Lp.{LpDb}
use polis_game.Lp.Accounts.{balance_or_zero, get_profile, grant_pt, spend_pt}
use polis_game.Bets.{BetInput, BetTable, insert_bet, get_user_total_bet_lp}
use polis_game.Tc.{Options, labels, range, TcProposal, TcDb}

pub record BetParse : Type 0 where
  pub option_value : String
  pub lp_amount : ℕ

-- How a call of the LP pool ends: it works, the circuit breaker refuses it, or it throws otherwise.
pub data PoolCall : Type 0 where
  works unavailable fails : PoolCall

pub record Faults : Type 0 where
  pub pool_call : PoolCall
  pub insert_fails : Bool
  pub rollback_fails : Bool

-- `false`, the error replies, and the reply to a recorded bet with the user's new total. `thrown` and
-- `lost` stand for an exception: before any write, and after a debit that could not be taken back.
pub data BetReply : Type 0 where
  not_a_bet invalid_option out_of_range below_minimum : BetReply
  above_limit : (remaining : ℕ) → BetReply
  insufficient_balance pool_unavailable thrown raced rolled_back lost : BetReply
  placed : (total : ℕ) → BetReply

-- The check of the option: a reply ends the handler.
abbrev pub check_option : (String → Option ℤ) → Bool → Options → String → Option BetReply
check_option parse_float has_lp_marker (labels valid) value =
    if any (λ o. o == value) valid
    then none
    else if has_lp_marker
    then some invalid_option
    else some not_a_bet
check_option parse_float has_lp_marker (range low high) value = elim (parse_float value) [
  | none ↦ some not_a_bet
  | some n ↦ if ltb_ℤ n low || ltb_ℤ high n then some out_of_range else none
]

-- `spendPt`, the insertion, and the grant that takes the debit back when the insertion throws.
unfoldable pub record_bet :
    Faults
    → BetTable
    → (now : ℕ) → LpDb
    → (reason rollback_reason : String) → (already_bet : ℕ) → BetInput
    → BetTable × (LpDb × BetReply)
record_bet faults bets now lp reason rollback_reason already_bet input =
    let (lp1, spent) =
      spend_pt lp input.user_open_id (pos input.lp_amount) reason (some input.message_id) in
    if not spent
    then (bets, (lp1, raced))
    else if faults.insert_fails
    then (
      bets,
      if faults.rollback_fails then (lp1, lost) else (
        (grant_pt lp1 input.user_open_id (pos input.lp_amount) rollback_reason
            (some input.message_id)).0,
        rolled_back,
      ),
    )
    else ((insert_bet bets now input).0, (lp1, placed (already_bet + input.lp_amount)))

-- The calls of the pool stand in one `try`: `short` is the pre-check of the balance.
abbrev pub checked_balance :
    PoolCall
    → (short : Bool) → BetTable
    → LpDb
    → BetTable × (LpDb × BetReply)
    → BetTable × (LpDb × BetReply)
checked_balance unavailable short bets lp recorded = (bets, (lp, pool_unavailable))
checked_balance fails short bets lp recorded = (bets, (lp, thrown))
checked_balance works short bets lp recorded =
    if short then (bets, (lp, insufficient_balance)) else recorded

-- The steps after the check of the option, which the two kinds of bets share.
unfoldable pub place_bet :
    Faults
    → (seen_bets : BetTable) → (seen_lp : LpDb) → BetTable
    → (now : ℕ) → LpDb
    → (reason rollback_reason : String) → (min_bet_lp max_bet_lp : ℕ) → BetInput
    → BetTable × (LpDb × BetReply)
unfolding record_bet
place_bet faults seen_bets seen_lp bets now lp reason rollback_reason min_bet_lp max_bet_lp input =
    let already_bet = get_user_total_bet_lp seen_bets input.proposal_id input.user_open_id in
    let balance = balance_or_zero (get_profile seen_lp input.user_open_id) in
    if ltb input.lp_amount min_bet_lp
    then (bets, (lp, below_minimum))
    else if ltb max_bet_lp (already_bet + input.lp_amount)
    then (bets, (lp, above_limit (max_bet_lp - already_bet)))
    else checked_balance faults.pool_call (ltb_ℤ balance (pos input.lp_amount)) bets lp
        (record_bet faults bets now lp reason rollback_reason already_bet input)

unfoldable pub try_parse_tc_bet :
    (String → Option ℤ)
    → (has_lp_marker : Bool) → Faults
    → (seen_bets : BetTable) → (seen_lp : LpDb) → TcDb
    → LpDb
    → Option BetParse
    → TcProposal
    → (sender_open_id message_id : String) → TcDb × (LpDb × BetReply)
unfolding place_bet
try_parse_tc_bet parse_float has_lp_marker faults seen_bets seen_lp db lp none proposal sender
      message_id =
    (db, (lp, not_a_bet))
try_parse_tc_bet parse_float has_lp_marker faults seen_bets seen_lp db lp (some parsed) proposal
      sender message_id =
    elim (check_option parse_float has_lp_marker proposal.options parsed.option_value) [
      | some reply ↦ (db, (lp, reply))
      | none ↦
          let (bets, result) =
            place_bet faults seen_bets seen_lp db.bets db.now lp "tc_bet" "tc_bet_rollback"
              proposal.min_bet_lp proposal.max_bet_lp
              (record {
                proposal_id = proposal.id;
                user_open_id = sender;
                option_value = parsed.option_value;
                lp_amount = parsed.lp_amount;
                message_id = message_id;
              }) in
          (record db { bets = bets }, result)
    ]
