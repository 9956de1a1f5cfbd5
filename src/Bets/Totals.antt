-- ===== src/Bets/Totals.antt =====
-- What a new bet adds to the totals.
use polis_game.Base.{
  ℕ, ◌+◌, ◌≡◌, ◌∙◌, String, ◌==◌, Bool, false, not, ◌&&◌, List, [], ◌∷◌, ◌++◌, arith, eqb,
  if◌then◌else◌,
}
use polis_game.Bets.{Bet, BetInput, BetTable, insert_bet, sum_lp, get_user_total_bet_lp}

pub sum_lp-append :
    (p : Bet → Bool) (xs ys : List Bet) → sum_lp p (xs ++ ys) ≡ sum_lp p xs + sum_lp p ys
sum_lp-append p [] ys = omega arith
sum_lp-append p (x ∷ xs) ys = ground (arith, sum_lp-append p xs ys)

abbrev placed : BetTable → ℕ → BetInput → Bet
placed t now input = record {
  id = t.next_id;
  proposal_id = input.proposal_id;
  user_open_id = input.user_open_id;
  option_value = input.option_value;
  lp_amount = input.lp_amount;
  message_id = input.message_id;
  is_refunded = false;
  created_at = now;
}

-- A recorded bet counts in full towards the total of its user on its proposal, and towards no other.
pub get_user_total-insert_bet :
    (t : BetTable) (now : ℕ) (input : BetInput) (proposal_id : ℕ) (user_open_id : String)
    → get_user_total_bet_lp (insert_bet t now input).0 proposal_id user_open_id
      ≡ get_user_total_bet_lp t proposal_id user_open_id
        + (if eqb input.proposal_id proposal_id
            then (if input.user_open_id == user_open_id then input.lp_amount else 0)
            else 0)
unfolding insert_bet get_user_total_bet_lp
get_user_total-insert_bet t now input proposal_id user_open_id =
    let row = placed t now input in
    sum_lp-append
      (λ b. eqb b.proposal_id proposal_id && (b.user_open_id == user_open_id && not b.is_refunded))
      t.rows (row ∷ [])
    ∙ ground arith
