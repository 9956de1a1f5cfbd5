-- ===== src/Examples/Lp.antt =====
-- The ledger and the chests of core/store/gamification.ts and core/treasure-chest.ts, on a small town.
use polis_game.Base.{
  ℕ, ◌≡◌, refl, ◌⊎◌, String, ◌==◌, Bool, true, false, Option, none, some, List, [], ◌∷◌, any, arith,
  if◌then◌else◌, keep,
}
use polis_game.Base.Int.{pos, ◌+ℤ◌}
use polis_game.Lp.{LpDb, Chest}
use polis_game.Lp.Accounts.{cid, balance_in, grant_pt, spend_pt, check_in}
use polis_game.Lp.Books.{Books, grant_pt-Books}
use polis_game.Lp.Purses.{LpCall, grants, spends, calls, calls_of, purse, Holds, calls-Holds}
use polis_game.Lp.Spending.{Spent, spend_pt-Spent}
use polis_game.Lp.Resets.{reset_daily_pt_floor}
use polis_game.Lp.Floors.{is_low, reset_daily_pt_floor_lem}
use polis_game.Lp.Snapshots.{picked}
use polis_game.Lp.Chests.{CreateChestInput, transfer_pt}
use polis_game.Lp.Ownership.{Moved, transfer_pt-Moved}

abbrev pub empty_town : LpDb
empty_town = record {
  profiles = [];
  pt_ledger = [];
  user_badges = [];
  checkins = [];
  identity_links = record { open_id = "ou_alt"; canonical_id = "ou_ann" } ∷ [];
  chests =
      record {
        chest_id = "chest:tea";
        name = "tea";
        owner_open_id = "ou_ann";
        is_public = false;
        created_at = 7;
      }
      ∷ [];
  clock = 100;
}

flat_town : (x : String) → cid empty_town (cid empty_town x) ≡ cid empty_town x
unfolding polis_game.Lp.Accounts.resolve
flat_town x = ground arith

pub empty_town-Books : Books empty_town
empty_town-Books = record { keyed = tt; balanced = λ j. refl; flat = flat_town }

-- Ann has 50 LP from a grant to her second identity.
abbrev pub town : LpDb
town = (grant_pt empty_town "ou_alt" (pos 500) "gift" none).0

pub town-Books : Books town
town-Books = (grant_pt-Books empty_town "ou_alt" "gift" (pos 500) none empty_town-Books).0

grant_pt-Books_example :
    let (db', balance) = grant_pt town "ou_alt" (pos 30) "gift" none in
    let id = cid town "ou_alt" in
    Books db'
    × (balance ≡ balance_in id town.profiles +ℤ pos 30)
    × ((j : String)
        → balance_in j db'.profiles
          ≡ (if id == j then balance_in j town.profiles +ℤ pos 30 else balance_in j town.profiles))
grant_pt-Books_example = grant_pt-Books town "ou_alt" "gift" (pos 30) none town-Books

spend_pt-Spent_example :
    Spent town (cid town "ou_alt") (pos 40) (spend_pt town "ou_alt" (pos 40) "bet" (some "om_1"))
spend_pt-Spent_example = spend_pt-Spent town "ou_alt" "bet" (pos 40) (some "om_1") town-Books

reset_daily_pt_floor_example :
    let (db', affected) = reset_daily_pt_floor town (pos 600) in
    Books db'
    × (affected ≡ polis_game.Base.length (keep (is_low town (pos 600)) town.profiles))
    × ((j : String)
        → balance_in j db'.profiles ≡ (
            if picked (is_low town (pos 600)) j town.profiles
            then pos 600
            else balance_in j town.profiles))
reset_daily_pt_floor_example = reset_daily_pt_floor_lem town (pos 600) town-Books

transfer_pt-Moved_example :
    Moved town
      (cid town "ou_ann")
      (cid town "ou_bob")
      (pos 20)
      (transfer_pt town "ou_ann" "ou_bob" (pos 20) "tip:out" "tip:in" none)
transfer_pt-Moved_example =
    transfer_pt-Moved town "ou_ann" "ou_bob" (pos 20) "tip:out" "tip:in" none town-Books

abbrev coffee : CreateChestInput
coffee = record {
  chest_id = "chest:coffee";
  name = "coffee";
  owner_open_id = "ou_bob";
  is_public = false;
}

abbrev gift_and_bet : List LpCall
gift_and_bet =
    grants "ou_new" (pos 30) "gift" none ∷ spends "ou_alt" (pos 40) "bet" (some "om_1") ∷ []

calls-Holds_example :
    ((calls town gift_and_bet).1 ≡ (calls_of (cid town) (purse town) gift_and_bet).1)
    × Holds (cid town) (calls town gift_and_bet).0 (calls_of (cid town) (purse town) gift_and_bet).0
calls-Holds_example =
    calls-Holds (cid town) gift_and_bet town (purse town)
      (record { books = town-Books; persons = λ x. refl; purses = λ j. refl })
