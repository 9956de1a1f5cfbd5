-- ===== src/Lp.antt =====
-- The shared LP database of core/store/gamification.ts and core/treasure-chest.ts: its tables, in
-- insertion order. An amount of LP is an integer number of tenths, which is what the columns
-- `NUMERIC(12,1)` of core/db-pg-schema.ts hold. `clock` is what `unixepoch()` reads.
pub mod Accounts
pub mod Resets
pub mod Chests
pub mod ChestCommands
pub mod Books
pub mod FirstContact
pub mod Spending
pub mod Purses
pub mod Strategy
pub mod Badges
pub mod Daily
pub mod Snapshots
pub mod Floors
pub mod Ownership
use polis_game.Base.{ℕ, String, Bool, Option, List}
use polis_game.Base.Int.{ℤ, pos}

pub record Profile : Type 0 where
  pub open_id : String
  pub name : String
  pub pt_balance : ℤ
  pub level : ℕ
  pub first_seen : ℕ
  pub last_seen : ℕ

pub record LedgerRow : Type 0 where
  pub user_open_id : String
  pub delta : ℤ
  pub reason : String
  pub ref_message_id : Option String
  pub created_at : ℕ

pub record UserBadge : Type 0 where
  pub user_open_id : String
  pub badge_id : String
  pub ref : Option String
  pub awarded_at : ℕ

pub record Checkin : Type 0 where
  pub user_open_id : String
  pub checkin_date : String
  pub pt_awarded : ℤ

pub record IdentityLink : Type 0 where
  pub open_id : String
  pub canonical_id : String

pub record Chest : Type 0 where
  pub chest_id : String
  pub name : String
  pub owner_open_id : String
  pub is_public : Bool
  pub created_at : ℕ

pub record LpDb : Type 0 where
  pub profiles : List Profile
  pub pt_ledger : List LedgerRow
  pub user_badges : List UserBadge
  pub checkins : List Checkin
  pub identity_links : List IdentityLink
  pub chests : List Chest
  pub clock : ℕ

abbrev pub first_contact_pt : ℤ
first_contact_pt = pos 1200

abbrev pub daily_checkin_pt : ℤ
daily_checkin_pt = pos 30
