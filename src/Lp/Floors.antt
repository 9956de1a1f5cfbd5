-- ===== src/Lp/Floors.antt =====
-- The daily floor and the reset of all members: who ends with what.
use polis_game.Base.{
  ℕ, ◌≡◌, refl, ◌∙◌, String, eq_iff, Bool, true, false, not, ◌&&◌, none, List, [], ◌∷◌, keep,
  length, arith, Bool-cases, inl, inr, if◌then◌else◌,
}
use polis_game.Base.Int.{ℤ, pos, ◌+ℤ◌, ◌-ℤ◌, ltb_ℤ, eqb_ℤ, int_laws}
use polis_game.Lp.{Profile, LpDb}
use polis_game.Lp.Accounts.{ledger_raw, balance_in}
use polis_game.Lp.Resets.{is_member, move_to, reset_daily_pt_floor, reset_all_pt_to}
use polis_game.Lp.Books.{has_profile, IsKeyed, Books, ledger_raw-Books}
use polis_game.Lp.Snapshots.{
  Brought, picked, keep-IsKeyed, has_profile-keep, balance_in-keep, AllStored, AllStored-keep,
  AllStored-ledger_raw, Brought-cons, top_up-Brought,
}

-- An account that is to be lifted: a stored one below the floor that is no chest.
abbrev pub is_low : LpDb → ℤ → Profile → Bool
is_low db floor p = ltb_ℤ p.pt_balance floor && is_member db p

goal_reached : (b goal : ℤ) → b +ℤ (goal -ℤ b) ≡ goal
goal_reached b goal = omega int_laws

-- On books that agree, the daily floor lifts every stored account below it that is no chest to
-- exactly the floor, leaves every other balance alone (chests among them), and keeps the books; it
-- reports how many rows it lifted.
pub reset_daily_pt_floor_lem :
    (db : LpDb) (floor : ℤ)
    → Books db
    → let (db', affected) = reset_daily_pt_floor db floor in
      Books db'
      × (affected ≡ length (keep (is_low db floor) db.profiles))
      × ((j : String)
          → balance_in j db'.profiles
            ≡ (if picked (is_low db floor) j db.profiles then floor else balance_in j db.profiles))
unfolding reset_daily_pt_floor
reset_daily_pt_floor_lem db floor b =
    let rows = keep (is_low db floor) db.profiles in
    let t =
      top_up-Brought floor rows db (keep-IsKeyed (is_low db floor) db.profiles b.keyed)
        (AllStored-keep (is_low db floor) db.profiles) b in
    (
      t.books,
      refl,
      λ j.
          t.balances j
          ∙ ground (
            arith,
            has_profile-keep (is_low db floor) j db.profiles b.keyed,
            balance_in-keep (is_low db floor) j db.profiles,
            b.keyed,
            goal_reached (balance_in j db.profiles) floor,
          ),
    )

add_nothing : (b d : ℤ) → eqb_ℤ d (pos 0) ≡ true → b +ℤ d ≡ b
add_nothing b d h = grind int_laws

Brought-skip :
    (goal : ℤ) (r : Profile) (rs : List Profile) (db db' : LpDb)
    → has_profile r.open_id rs ≡ false
    → eqb_ℤ (goal -ℤ r.pt_balance) (pos 0) ≡ true
    → Brought goal rs db db'
    → Brought goal (r ∷ rs) db db'
Brought-skip goal r rs db db' fresh zero_delta b = record {
  books = b.books;
  balances = λ j.
      b.balances j
      ∙ ground (
        arith,
        eq_iff r.open_id j,
        fresh,
        add_nothing (balance_in j db.profiles) (goal -ℤ r.pt_balance) zero_delta,
      );
}

-- How many rows are not at the target.
abbrev pub off_target : ℤ → List Profile → ℕ
off_target target rs = length (keep (λ r. not (eqb_ℤ (target -ℤ r.pt_balance) (pos 0))) rs)

record MovedTo (target : ℤ) (rs : List Profile) (db : LpDb) (r : LpDb × ℕ) : Type 0 where
  brought : Brought target rs db r.0
  affected : r.1 ≡ off_target target rs

move_to-MovedTo :
    (target : ℤ) (reason : String) (rs : List Profile) (db : LpDb)
    → IsKeyed rs
    → AllStored db.profiles rs
    → Books db
    → MovedTo target rs db (move_to target reason rs db)
unfolding move_to
move_to-MovedTo target reason [] db k s b = record {
  brought = record { books = b; balances = λ j. refl };
  affected = refl;
}
move_to-MovedTo target reason (r ∷ rs) db k s b =
    let delta = target -ℤ r.pt_balance in
    let db1 = ledger_raw db r.open_id delta reason none in
    let moved =
      move_to-MovedTo target reason rs db1 k.1
        (AllStored-ledger_raw db r.open_id delta reason none rs s.1)
        (ledger_raw-Books db r.open_id delta reason none s.0 b) in
    let kept = move_to-MovedTo target reason rs db k.1 s.1 b in
    elim (Bool-cases (eqb_ℤ delta (pos 0))) [
      | inl there ↦ rw there (record {
        brought =
            Brought-skip target r rs db (move_to target reason rs db).0 k.0 there kept.brought;
        affected = ground (arith, there, kept.affected);
      })
      | inr off ↦ rw off (record {
        brought =
            Brought-cons target r rs db (move_to target reason rs db1).0 reason k.0 s.0
              moved.brought;
        affected = ground (arith, off, moved.affected);
      })
    ]

-- On books that agree, the reset brings every stored account that is no chest to exactly the
-- target, leaves every other balance alone, keeps the books, and reports how many members were not
-- at the target before.
pub reset_all_pt_to_lem :
    (db : LpDb) (target : ℤ) (reason : String)
    → Books db
    → let (db', affected) = reset_all_pt_to db target reason in
      Books db'
      × (affected ≡ off_target target (keep (is_member db) db.profiles))
      × ((j : String)
          → balance_in j db'.profiles
            ≡ (if picked (is_member db) j db.profiles then target else balance_in j db.profiles))
unfolding reset_all_pt_to
reset_all_pt_to_lem db target reason b =
    let rows = keep (is_member db) db.profiles in
    let t =
      move_to-MovedTo target reason rows db (keep-IsKeyed (is_member db) db.profiles b.keyed)
        (AllStored-keep (is_member db) db.profiles) b in
    (
      t.brought.books,
      t.affected,
      λ j.
          t.brought.balances j
          ∙ ground (
            arith,
            has_profile-keep (is_member db) j db.profiles b.keyed,
            balance_in-keep (is_member db) j db.profiles,
            b.keyed,
            goal_reached (balance_in j db.profiles) target,
          ),
    )
