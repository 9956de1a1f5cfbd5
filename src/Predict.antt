-- ===== src/Predict.antt =====
-- core/store/predict.ts: the community predictions, with labels only and a judge who announces the
-- winning one. Limits and stakes are tenths of an LP; `now` is the reading of `unixepoch()`.
pub mod Store
pub mod Flow
pub mod Commands
pub mod Gates
use polis_game.Base.{ℕ, String, Bool, Option, List}
use polis_game.Bets.{BetTable}
use polis_game.Tc.{Status}

pub record PredictProposal : Type 0 where
  pub id : ℕ
  pub num : ℕ
  pub title : String
  pub options : List String
  pub end_time : ℕ
  pub min_bet_lp : ℕ
  pub max_bet_lp : ℕ
  pub status : Status
  pub created_by : String
  pub chat_id : String
  pub top_message_id : String
  pub announced_by : String
  pub settled_option : Option String
  pub settled_at : Option ℕ
  pub created_at : ℕ
  pub updated_at : ℕ

pub record PredictProposalInput : Type 0 where
  pub title : String
  pub options : List String
  pub end_time : ℕ
  pub max_bet_lp : Option ℕ
  pub created_by : Option String
  pub chat_id : Option String

pub record PredictDb : Type 0 where
  pub proposals : List PredictProposal
  pub next_num : ℕ
  pub next_id : ℕ
  pub bets : BetTable
  pub now : ℕ
