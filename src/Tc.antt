-- ===== src/Tc.antt =====
-- core/store/tc.ts: the survey tables. Limits and stakes are tenths of an LP; `now` is the reading of
-- `unixepoch()`. `options` and `settled_option` stand decoded, where the tables hold JSON.
pub mod Store
pub mod Flow
pub mod Gates
pub mod Rewards
pub mod Betting
pub mod Placing
use polis_game.Base.{ℕ, String, Bool, Option, List}
use polis_game.Base.Int.{ℤ}
use polis_game.Settlement.{OptionType}
use polis_game.Bets.{BetTable}

pub data Status : Type 0 where
  active settled cancelled : Status

pub data Options : Type 0 where
  labels : List String → Options
  range : (min max : ℤ) → Options

pub record TcProposal : Type 0 where
  pub id : ℕ
  pub num : ℕ
  pub title : String
  pub option_type : OptionType
  pub options : Options
  pub end_time : ℕ
  pub min_bet_lp : ℕ
  pub max_bet_lp : ℕ
  pub status : Status
  pub created_by : String
  pub chat_id : String
  pub top_message_id : String
  pub thread_id : Option String
  pub settled_value : Option ℤ
  pub settled_option : Option (List String)
  pub settled_at : Option ℕ
  pub created_at : ℕ
  pub updated_at : ℕ

pub record TcProposalInput : Type 0 where
  pub title : String
  pub option_type : OptionType
  pub options : Options
  pub end_time : ℕ
  pub max_bet_lp : Option ℕ
  pub created_by : Option String
  pub chat_id : Option String

pub record TcProposalUpdate : Type 0 where
  pub max_bet_lp : Option ℕ
  pub end_time : Option ℕ

-- A row of `messages`, as far as the lookup of a thread's root reads it.
pub record Message : Type 0 where
  pub message_id : String
  pub thread_id : String
  pub thread_message_position : ℕ
  pub create_time : ℕ

pub record TcDb : Type 0 where
  pub proposals : List TcProposal
  pub next_num : ℕ
  pub next_id : ℕ
  pub bets : BetTable
  pub messages : List Message
  pub now : ℕ
