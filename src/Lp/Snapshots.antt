-- ===== src/Lp/Snapshots.antt =====
-- Booking over a snapshot of the profiles: which accounts move, and by how much.
use polis_game.Base.{
  ◌≡◌, refl, ◌∙◌, String, ◌==◌, eq_iff, eq_refl, Bool, true, false, Option, none, some, List, [],
  ◌∷◌, keep, All, arith, if◌then◌else◌,
}
use polis_game.Base.Int.{ℤ, ◌+ℤ◌, ◌-ℤ◌}
use polis_game.Base.Rows.{select_first}
use polis_game.Lp.{Profile, LpDb}
use polis_game.Lp.Accounts.{ledger_raw, balance_in}
use polis_game.Lp.Resets.{top_up}
use polis_game.Lp.Books.{
  has_profile, has_profile-update, IsKeyed, Books, ledger_raw-Books, balance_in-ledger_raw,
}

-- Whether the account `j` is stored and its row passes the test.
abbrev pub picked : (Profile → Bool) → String → List Profile → Bool
picked p j ps = elim (select_first (λ r. r.open_id == j) ps) [ none ↦ false | some r ↦ p r ]

pub has_profile-keep_absent :
    (p : Profile → Bool) (j : String) (ps : List Profile)
    → has_profile j ps ≡ false
    → has_profile j (keep p ps) ≡ false
has_profile-keep_absent p j [] h = refl
has_profile-keep_absent p j (r ∷ ps) h = ground (arith, has_profile-keep_absent p j ps)

pub keep-IsKeyed : (p : Profile → Bool) (ps : List Profile) → IsKeyed ps → IsKeyed (keep p ps)
keep-IsKeyed p [] k = tt
keep-IsKeyed p (r ∷ ps) k =
    ground (arith, keep-IsKeyed p ps k.1, has_profile-keep_absent p r.open_id ps)

pub select_first-absent :
    (j : String) (ps : List Profile)
    → has_profile j ps ≡ false
    → select_first (λ r. r.open_id == j) ps ≡ none
select_first-absent j [] h = refl
select_first-absent j (r ∷ ps) h = ground (arith, select_first-absent j ps)

pub has_profile-keep :
    (p : Profile → Bool) (j : String) (ps : List Profile)
    → IsKeyed ps
    → has_profile j (keep p ps) ≡ picked p j ps
has_profile-keep p j [] k = refl
has_profile-keep p j (r ∷ ps) k = ground (
  arith,
  eq_iff r.open_id j,
  has_profile-keep p j ps k.1,
  has_profile-keep_absent p r.open_id ps,
  has_profile-keep_absent p j ps,
  select_first-absent j ps,
)

pub balance_in-keep :
    (p : Profile → Bool) (j : String) (ps : List Profile)
    → has_profile j (keep p ps) ≡ true
    → IsKeyed ps
    → balance_in j (keep p ps) ≡ balance_in j ps
balance_in-keep p j [] h k = cc
balance_in-keep p j (r ∷ ps) h k =
    ground (arith, eq_iff r.open_id j, balance_in-keep p j ps, has_profile-keep_absent p j ps, k.1)

-- Every row of the second list is an account of the first.
abbrev pub AllStored : List Profile → List Profile → Type 0
AllStored ps = All (λ r. has_profile r.open_id ps ≡ true)

pub AllStored-more : (ps rs : List Profile) (r : Profile) → AllStored ps rs → AllStored (r ∷ ps) rs
AllStored-more ps [] r h = tt
AllStored-more ps (x ∷ rs) r h = ground (arith, h.0, AllStored-more ps rs r h.1)

pub AllStored-keep : (p : Profile → Bool) (ps : List Profile) → AllStored ps (keep p ps)
AllStored-keep p [] = tt
AllStored-keep p (r ∷ ps) =
    ground (arith, eq_refl r.open_id, AllStored-more ps (keep p ps) r (AllStored-keep p ps))

pub has_profile-ledger_raw :
    (db : LpDb) (id j : String) (delta : ℤ) (reason : String) (ref : Option String)
    → has_profile j (ledger_raw db id delta reason ref).profiles ≡ has_profile j db.profiles
unfolding ledger_raw
has_profile-ledger_raw db id j delta reason ref =
    has_profile-update (λ p. p.open_id == id) (λ p. record p { pt_balance = p.pt_balance +ℤ delta })
      (λ r. refl) j db.profiles

pub AllStored-ledger_raw :
    (db : LpDb) (id : String) (delta : ℤ) (reason : String) (ref : Option String)
    (rs : List Profile)
    → AllStored db.profiles rs
    → AllStored (ledger_raw db id delta reason ref).profiles rs
AllStored-ledger_raw db id delta reason ref [] h = tt
AllStored-ledger_raw db id delta reason ref (r ∷ rs) h = (
  has_profile-ledger_raw db id r.open_id delta reason ref ∙ h.0,
  AllStored-ledger_raw db id delta reason ref rs h.1,
)

-- Booking for each row of a snapshot what brings its balance to `goal`: the accounts of the rows move
-- by the difference, the others stay.
pub record Brought (goal : ℤ) (rs : List Profile) (db db' : LpDb) : Type 0 where
  pub books : Books db'
  pub balances :
      (j : String)
      → balance_in j db'.profiles ≡ (
          if has_profile j rs
          then balance_in j db.profiles +ℤ (goal -ℤ balance_in j rs)
          else balance_in j db.profiles)

pub Brought-cons :
    (goal : ℤ) (r : Profile) (rs : List Profile) (db db' : LpDb) (reason : String)
    → has_profile r.open_id rs ≡ false
    → has_profile r.open_id db.profiles ≡ true
    → Brought goal rs (ledger_raw db r.open_id (goal -ℤ r.pt_balance) reason none) db'
    → Brought goal (r ∷ rs) db db'
Brought-cons goal r rs db db' reason fresh here b = record {
  books = b.books;
  balances = λ j.
      b.balances j
      ∙ ground (
        arith,
        eq_iff r.open_id j,
        fresh,
        balance_in-ledger_raw db r.open_id (goal -ℤ r.pt_balance) reason none j here,
      );
}

pub top_up-Brought :
    (floor : ℤ) (rs : List Profile) (db : LpDb)
    → IsKeyed rs
    → AllStored db.profiles rs
    → Books db
    → Brought floor rs db (top_up floor rs db)
unfolding top_up
top_up-Brought floor [] db k s b = record { books = b; balances = λ j. refl }
top_up-Brought floor (r ∷ rs) db k s b =
    let delta = floor -ℤ r.pt_balance in
    let db1 = ledger_raw db r.open_id delta "daily_floor_reset" none in
    Brought-cons floor r rs db (top_up floor rs db1) "daily_floor_reset" k.0 s.0 (
      top_up-Brought floor rs db1 k.1
        (AllStored-ledger_raw db r.open_id delta "daily_floor_reset" none rs s.1)
        (ledger_raw-Books db r.open_id delta "daily_floor_reset" none s.0 b))
