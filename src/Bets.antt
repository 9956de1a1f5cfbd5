-- ===== src/Bets.antt =====
-- The bet tables of core/store/tc.ts and core/store/predict.ts, which have the same columns and the
-- same statements. A stake is a number of tenths of an LP; rows stand in insertion order, which is
-- the order of `id` and of `created_at`.
pub mod Totals
pub mod Refunds
use polis_game.Base.{
  ℕ, zero, suc, ◌+◌, String, ◌==◌, Bool, true, false, not, ◌&&◌, List, [], ◌∷◌, ◌++◌, keep, eqb,
  ltb, if◌then◌else◌,
}
use polis_game.Base.Rows.{update, row_count}

pub record Bet : Type 0 where
  pub id : ℕ
  pub proposal_id : ℕ
  pub user_open_id : String
  pub option_value : String
  pub lp_amount : ℕ
  pub message_id : String
  pub is_refunded : Bool
  pub created_at : ℕ

pub record BetInput : Type 0 where
  pub proposal_id : ℕ
  pub user_open_id : String
  pub option_value : String
  pub lp_amount : ℕ
  pub message_id : String

-- `next_id` is the identity sequence of the table.
pub record BetTable : Type 0 where
  pub rows : List Bet
  pub next_id : ℕ

unfoldable pub insert_bet : BetTable → ℕ → BetInput → BetTable × ℕ
insert_bet t now input = (
  record {
    rows =
        t.rows
        ++ record {
          id = t.next_id;
          proposal_id = input.proposal_id;
          user_open_id = input.user_open_id;
          option_value = input.option_value;
          lp_amount = input.lp_amount;
          message_id = input.message_id;
          is_refunded = false;
          created_at = now;
        }
          ∷ [];
    next_id = suc t.next_id;
  },
  t.next_id,
)

unfoldable pub get_bets : BetTable → ℕ → List Bet
get_bets t proposal_id = keep (λ b. eqb b.proposal_id proposal_id) t.rows

abbrev pub sum_lp : (Bet → Bool) → List Bet → ℕ
sum_lp p [] = 0
sum_lp p (b ∷ bs) = if p b then b.lp_amount + sum_lp p bs else sum_lp p bs

unfoldable pub get_user_total_bet_lp : BetTable → ℕ → String → ℕ
get_user_total_bet_lp t proposal_id user_open_id =
    sum_lp
      (λ b. eqb b.proposal_id proposal_id && (b.user_open_id == user_open_id && not b.is_refunded))
      t.rows

abbrev pub is_open : ℕ → Bet → Bool
is_open proposal_id b = eqb b.proposal_id proposal_id && not b.is_refunded

unfoldable pub get_unrefunded_bets : BetTable → ℕ → List Bet
get_unrefunded_bets t proposal_id = keep (is_open proposal_id) t.rows

unfoldable pub mark_bet_refunded : BetTable → ℕ → BetTable × Bool
mark_bet_refunded t bet_id =
    let p = λ (b : Bet). eqb b.id bet_id && not b.is_refunded in
    (
      record t { rows = update p (λ b. record b { is_refunded = true }) t.rows },
      ltb 0 (row_count p t.rows),
    )
