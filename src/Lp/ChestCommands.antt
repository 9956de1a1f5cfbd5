-- ===== src/Lp/ChestCommands.antt =====
-- core/treasure-chest.ts `tryHandleChestCommand`: the chat command for chests. The words of the
-- message stand parsed, and the directory of members is an argument; the texts of the replies are
-- left out.
use polis_game.Base.{
  ◌≡◌, refl, ◌⊎◌, inl, inr, String, ◌==◌, Bool, true, false, not, Option, none, some, List, [], ◌∷◌,
  keep, leb, ltb, Bool-cases, Option-cases, if◌then◌else◌,
}
use Prim.Native.String.{◌++◌, count}
use polis_game.Base.Int.{ℤ}
use polis_game.Lp.{Chest, LpDb}
use polis_game.Lp.Accounts.{has_badge}
use polis_game.Lp.Chests.{
  Result, ok, err, create_chest, chest_balance, chest_deposit, chest_withdraw,
}

abbrev pub chest_keeper_badge_id : String
chest_keeper_badge_id = "chest_keeper"

-- `WHERE name = … ORDER BY created_at ASC LIMIT 1`
abbrev pub earliest : List Chest → Option Chest
earliest [] = none
earliest (c ∷ cs) = elim (earliest cs) [
  | none ↦ some c
  | some d ↦ if leb c.created_at d.created_at then some c else some d
]

unfoldable pub get_chest_by_name : LpDb → String → Option Chest
get_chest_by_name db name = earliest (keep (λ c. c.name == name) db.chests)

abbrev pub derive_chest_id : String → String
derive_chest_id name = "chest:" ++ name

-- What follows the name of a chest. A withdrawal without target and amount is `none`; an amount that
-- does not parse is `none`.
pub data ChestAction : Type 0 where
  query : ChestAction
  deposit : Option ℤ → ChestAction
  withdraw : Option (String × Option ℤ) → ChestAction
  other : ChestAction

pub data ChestCommand : Type 0 where
  bare : ChestCommand
  create : (name : String) → ChestCommand
  on_chest : (name : String) → ChestAction → ChestCommand

pub data ChestReply : Type 0 where
  no_identity usage badge_missing name_too_long owned_already name_taken no_such_chest owner_only :
      ChestReply
  no_target no_member ambiguous_member failed : ChestReply
  created : ChestReply
  balance : ℤ → ChestReply

abbrev pub moved_reply : LpDb × Result ℤ → LpDb × ChestReply
moved_reply (db, ok b) = (db, balance b)
moved_reply (db, err e) = (db, failed)

-- The member that a target names: an open_id stands for itself.
abbrev pub target_of : Bool → List String → String → Option String × ChestReply
target_of true matches token = (some token, failed)
target_of false [] token = (none, no_member)
target_of false (m ∷ []) token = (some m, failed)
target_of false (m ∷ n ∷ ms) token = (none, ambiguous_member)

abbrev pub withdraw_to :
    LpDb → Chest → (sender : String) → ℤ → Option String × ChestReply → LpDb × ChestReply
withdraw_to db chest sender amount (none, reply) = (db, reply)
withdraw_to db chest sender amount (some target, reply) =
    moved_reply (chest_withdraw db chest.chest_id sender target amount none)

module _ (is_open_id : String → Bool) (find_open_ids_by_name : String → List String) where
  abbrev pub act : LpDb → Chest → (sender : String) → ChestAction → LpDb × ChestReply
  act db chest sender query = (db, balance (chest_balance db chest.chest_id))
  act db chest sender other = (db, usage)
  act db chest sender (deposit none) =
      if not (sender == chest.owner_open_id) then (db, owner_only) else (db, usage)
  act db chest sender (deposit (some amount)) =
      if not (sender == chest.owner_open_id)
      then (db, owner_only)
      else moved_reply (chest_deposit db chest.chest_id sender amount none)
  act db chest sender (withdraw none) =
      if not (sender == chest.owner_open_id) then (db, owner_only) else (db, usage)
  act db chest sender (withdraw (some (token, none))) =
      if not (sender == chest.owner_open_id) then (db, owner_only) else (db, usage)
  act db chest sender (withdraw (some (token, some amount))) =
      if not (sender == chest.owner_open_id)
      then (db, owner_only)
      else if token == ""
      then (db, no_target)
      else withdraw_to db chest sender amount
          (target_of (is_open_id token) (find_open_ids_by_name token) token)

  abbrev pub act_on : LpDb → Option Chest → (sender : String) → ChestAction → LpDb × ChestReply
  act_on db none sender action = (db, no_such_chest)
  act_on db (some chest) sender action = act db chest sender action

  abbrev pub created_reply : LpDb × Bool → Option Chest → (sender : String) → LpDb × ChestReply
  created_reply (db, true) stored sender = (db, created)
  created_reply (db, false) none sender = (db, name_taken)
  created_reply (db, false) (some chest) sender =
      (db, if chest.owner_open_id == sender then owned_already else name_taken)

  unfoldable pub try_handle_chest_command :
      LpDb → (sender_open_id : String) → ChestCommand → LpDb × ChestReply
  try_handle_chest_command db sender bare = (db, if sender == "" then no_identity else usage)
  try_handle_chest_command db sender (on_chest name action) =
      if sender == ""
      then (db, no_identity)
      else act_on db (get_chest_by_name db name) sender action
  try_handle_chest_command db sender (create name) =
      let id = derive_chest_id name in
      let made =
        create_chest db
          (record { chest_id = id; name = name; owner_open_id = sender; is_public = false }) in
      if sender == ""
      then (db, no_identity)
      else if not (has_badge db sender chest_keeper_badge_id)
      then (db, badge_missing)
      else if name == ""
      then (db, usage)
      else if ltb 40 (count name)
      then (db, name_too_long)
      else created_reply made (polis_game.Lp.Chests.get_chest made.0 id) sender

  act-owner :
      (db : LpDb) (chest : Chest) (sender : String) (action : ChestAction)
      → ((act db chest sender action).0 ≡ db) ⊎ ((sender == chest.owner_open_id) ≡ true)
  act-owner db chest sender action = elim (Bool-cases (sender == chest.owner_open_id)) [
    | inl owner ↦ inr owner
    | inr stranger ↦ inl (unmoved db chest sender action stranger)
  ]
    where
      unmoved :
          (db : LpDb) (chest : Chest) (sender : String) (action : ChestAction)
          → (sender == chest.owner_open_id) ≡ false
          → (act db chest sender action).0 ≡ db
      unmoved db chest sender query h = refl
      unmoved db chest sender other h = refl
      unmoved db chest sender (deposit none) h = rw h refl
      unmoved db chest sender (deposit (some amount)) h = rw h refl
      unmoved db chest sender (withdraw none) h = rw h refl
      unmoved db chest sender (withdraw (some (token, none))) h = rw h refl
      unmoved db chest sender (withdraw (some (token, some amount))) h = rw h refl

  -- A command about a chest changes the database only if a chest of that name is stored and the sender
  -- owns the earliest of them.
  pub chest_command_owner_only :
      (db : LpDb) (sender name : String) (action : ChestAction)
      → ((try_handle_chest_command db sender (on_chest name action)).0 ≡ db)
        ⊎ ((c : Chest) × (get_chest_by_name db name ≡ some c)
            × ((sender == c.owner_open_id) ≡ true))
  unfolding try_handle_chest_command
  chest_command_owner_only db sender name action = elim (Bool-cases (sender == "")) [
    | inl nobody ↦ inl (rw nobody refl)
    | inr known ↦ elim (Option-cases (get_chest_by_name db name)) [
      | inl missing ↦ inl (rw (known, missing) refl)
      | inr (c, found) ↦
          rw (known, found)
            (elim (act-owner db c sender action) [
              | inl unmoved ↦ inl unmoved
              | inr owner ↦ inr (c, refl, owner)
            ])
    ]
  ]
