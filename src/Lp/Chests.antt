-- ===== src/Lp/Chests.antt =====
-- core/treasure-chest.ts: chests and the transfers between accounts.
use polis_game.Base.{String, ◌==◌, Bool, true, false, not, Option, none, some, any, if◌then◌else◌}
use polis_game.Base.Int.{ℤ, pos, ltb_ℤ}
use polis_game.Base.Rows.{select_first, insert_or_ignore}
use polis_game.Lp.{Chest, LpDb}
use polis_game.Lp.Accounts.{balance_or_zero, get_profile, grant_pt, spend_pt}

abbrev pub public_welfare_chest_id : String
public_welfare_chest_id = "chest:public-welfare"

abbrev pub public_welfare_chest_owner : String
public_welfare_chest_owner = "ou_9686d5436aaa04bde9953ef40b5bc4c3"

pub data ChestOpError : Type 0 where
  not_found not_owner insufficient_balance invalid_amount : ChestOpError

-- `{ ok: true, … }` or `{ ok: false, error }`
pub data Result {ℓ} (A : Type ℓ) : Type ℓ where
  ok : A → Result A
  err : ChestOpError → Result A

unfoldable pub get_chest : LpDb → String → Option Chest
get_chest db chest_id = select_first (λ c. c.chest_id == chest_id) db.chests

pub record CreateChestInput : Type 0 where
  pub chest_id : String
  pub name : String
  pub owner_open_id : String
  pub is_public : Bool

unfoldable pub create_chest : LpDb → CreateChestInput → LpDb × Bool
create_chest db input =
    let created = not (any (λ c. c.chest_id == input.chest_id) db.chests) in
    let db1 = record db {
      chests =
          insert_or_ignore (λ c. c.chest_id == input.chest_id)
            (record {
              chest_id = input.chest_id;
              name = input.name;
              owner_open_id = input.owner_open_id;
              is_public = input.is_public;
              created_at = db.clock;
            })
            db.chests;
    } in
    (if created then (grant_pt db1 input.chest_id (pos 0) "chest_create" none).0 else db1, created)

unfoldable pub ensure_public_welfare_chest : LpDb → LpDb
ensure_public_welfare_chest db =
    (create_chest db (record {
      chest_id = public_welfare_chest_id;
      name = "公益宝箱";
      owner_open_id = public_welfare_chest_owner;
      is_public = true;
    })).0

unfoldable pub chest_balance : LpDb → String → ℤ
chest_balance db chest_id = balance_or_zero (get_profile db chest_id)

-- `reasons` are `${reason}:out` and `${reason}:in`.
unfoldable pub transfer_pt :
    LpDb → (from to : String) → ℤ → (out_reason in_reason : String) → Option String → LpDb × Bool
transfer_pt db from to amount out_reason in_reason ref =
    let (db1, spent) = spend_pt db from amount out_reason ref in
    if not spent then (db1, false) else ((grant_pt db1 to amount in_reason ref).0, true)

unfoldable pub chest_deposit :
    LpDb → (chest_id sender_open_id : String) → ℤ → Option String → LpDb × Result ℤ
chest_deposit db chest_id sender_open_id amount ref = elim (get_chest db chest_id) [
  | none ↦ (db, err not_found)
  | some chest ↦
      if not (sender_open_id == chest.owner_open_id)
      then (db, err not_owner)
      else if not (ltb_ℤ (pos 0) amount)
      then (db, err invalid_amount)
      else let (db1, done) =
          transfer_pt db sender_open_id chest_id amount "chest_deposit:out" "chest_deposit:in"
            ref in
        if not done then (db1, err insufficient_balance) else (db1, ok (chest_balance db1 chest_id))
]

unfoldable pub chest_withdraw :
    LpDb → (chest_id sender_open_id target_open_id : String) → ℤ → Option String → LpDb × Result ℤ
chest_withdraw db chest_id sender_open_id target_open_id amount ref = elim (get_chest db chest_id) [
  | none ↦ (db, err not_found)
  | some chest ↦
      if not (sender_open_id == chest.owner_open_id)
      then (db, err not_owner)
      else if not (ltb_ℤ (pos 0) amount)
      then (db, err invalid_amount)
      else let (db1, done) =
          transfer_pt db chest_id target_open_id amount "chest_withdraw:out" "chest_withdraw:in"
            ref in
        if not done then (db1, err insufficient_balance) else (db1, ok (chest_balance db1 chest_id))
]
