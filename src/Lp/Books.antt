-- ===== src/Lp/Books.antt =====
-- The books of the LP database: each balance is the sum of the ledger entries of its account.
use polis_game.Base.{
  ℕ, ◌≡◌, refl, ◌∙◌, String, ◌==◌, eq_iff, Bool, true, false, Option, List, [], ◌∷◌, ◌++◌, any,
  arith, if◌then◌else◌,
}
use polis_game.Base.Int.{ℤ, ◌+ℤ◌, int_laws}
use polis_game.Base.Rows.{update}
use polis_game.Lp.{Profile, LedgerRow, LpDb}
use polis_game.Lp.Accounts.{
  cid, upsert_profile, upsert_profile_raw, credit, ledger_raw, balance_in, sum_deltas, grant_pt,
}

-- `SELECT 1 FROM profiles WHERE open_id = id`
abbrev pub has_profile : String → List Profile → Bool
has_profile id = any (λ p. p.open_id == id)

-- The sum of the entries of one account.
abbrev pub booked : String → List LedgerRow → ℤ
booked id = sum_deltas (λ r. r.user_open_id == id)

-- The primary key of `profiles`.
abbrev pub IsKeyed : List Profile → Type 0
IsKeyed [] = Unit
IsKeyed (p ∷ ps) = (has_profile p.open_id ps ≡ false) × IsKeyed ps

pub sum_deltas-append :
    (p : LedgerRow → Bool) (rs ss : List LedgerRow)
    → sum_deltas p (rs ++ ss) ≡ sum_deltas p rs +ℤ sum_deltas p ss
sum_deltas-append p [] ss = omega int_laws
sum_deltas-append p (r ∷ rs) ss = grind (int_laws, sum_deltas-append p rs ss)

pub balance_in-upsert :
    (id j name : String) (now : ℕ) (ps : List Profile)
    → balance_in j (upsert_profile id name now ps) ≡ balance_in j ps
unfolding upsert_profile
balance_in-upsert id j name now [] = ground arith
balance_in-upsert id j name now (p ∷ ps) = ground (arith, balance_in-upsert id j name now ps)

pub has_profile-upsert :
    (id j name : String) (now : ℕ) (ps : List Profile)
    → has_profile j (upsert_profile id name now ps) ≡ (if id == j then true else has_profile j ps)
unfolding upsert_profile
has_profile-upsert id j name now [] = ground arith
has_profile-upsert id j name now (p ∷ ps) = ground (
  arith,
  eq_iff p.open_id id,
  eq_iff p.open_id j,
  eq_iff id j,
  has_profile-upsert id j name now ps,
)

pub upsert-IsKeyed :
    (id name : String) (now : ℕ) (ps : List Profile)
    → IsKeyed ps
    → IsKeyed (upsert_profile id name now ps)
unfolding upsert_profile
upsert-IsKeyed id name now [] k = ground arith
upsert-IsKeyed id name now (p ∷ ps) k = ground (
  arith,
  eq_iff p.open_id id,
  eq_iff id p.open_id,
  upsert-IsKeyed id name now ps k.1,
  has_profile-upsert id p.open_id name now ps,
)

-- An update that keeps the keys.
module _ (p : Profile → Bool) (f : Profile → Profile)
    (same : (r : Profile) → (f r).open_id ≡ r.open_id) where
  pub has_profile-update :
      (j : String) (ps : List Profile) → has_profile j (update p f ps) ≡ has_profile j ps
  has_profile-update j [] = refl
  has_profile-update j (r ∷ ps) = ground (arith, same r, has_profile-update j ps)

  pub update-IsKeyed : (ps : List Profile) → IsKeyed ps → IsKeyed (update p f ps)
  update-IsKeyed [] k = tt
  update-IsKeyed (r ∷ ps) k =
      ground (arith, same r, has_profile-update r.open_id ps, update-IsKeyed ps k.1)

balance_in-credit_ne :
    (id j : String) (d : ℤ) (ps : List Profile)
    → (id == j) ≡ false
    → balance_in j (credit id d ps) ≡ balance_in j ps
balance_in-credit_ne id j d [] ne = refl
balance_in-credit_ne id j d (p ∷ ps) ne =
    ground (
      arith,
      eq_iff p.open_id id,
      eq_iff p.open_id j,
      eq_iff id j,
      balance_in-credit_ne id j d ps ne,
    )

balance_in-credit_self :
    (id : String) (d : ℤ) (ps : List Profile)
    → has_profile id ps ≡ true
    → balance_in id (credit id d ps) ≡ balance_in id ps +ℤ d
balance_in-credit_self id d [] h = cc
balance_in-credit_self id d (p ∷ ps) h = ground (arith, balance_in-credit_self id d ps)

pub balance_in-credit :
    (id j : String) (d : ℤ) (ps : List Profile)
    → has_profile id ps ≡ true
    → balance_in j (credit id d ps) ≡ (if id == j then balance_in j ps +ℤ d else balance_in j ps)
balance_in-credit id j d ps h =
    grind (arith, eq_iff id j, balance_in-credit_ne id j d ps, balance_in-credit_self id d ps h)

-- The state of the books between two transactions: an account is stored once, each balance is the
-- sum of the account's entries, and an alias leads to an account that is no alias itself.
pub record Books (db : LpDb) : Type 0 where
  pub keyed : IsKeyed db.profiles
  pub balanced : (j : String) → balance_in j db.profiles ≡ booked j db.pt_ledger
  pub flat : (x : String) → cid db (cid db x) ≡ cid db x

pub booked-append :
    (j : String) (rs : List LedgerRow) (r : LedgerRow)
    → booked j (rs ++ r ∷ [])
      ≡ (if r.user_open_id == j then booked j rs +ℤ r.delta else booked j rs)
booked-append j rs r = grind (int_laws, sum_deltas-append (λ r. r.user_open_id == j) rs (r ∷ []))

-- Booking an entry keeps the books, whatever the amount, if the account exists.
pub ledger_raw-Books :
    (db : LpDb) (id : String) (delta : ℤ) (reason : String) (ref : Option String)
    → has_profile id db.profiles ≡ true
    → Books db
    → Books (ledger_raw db id delta reason ref)
unfolding ledger_raw
ledger_raw-Books db id delta reason ref h b = record {
  keyed = update-IsKeyed _ _ (λ r. refl) db.profiles b.keyed;
  balanced = λ j. grind (
    arith,
    balance_in-credit id j delta db.profiles h,
    booked-append j db.pt_ledger,
    b.balanced j,
  );
  flat = b.flat;
}

pub upsert-Books : (db : LpDb) (id name : String) → Books db → Books (upsert_profile_raw db id name)
unfolding upsert_profile_raw
upsert-Books db id name b = record {
  keyed = upsert-IsKeyed (cid db id) name db.clock db.profiles b.keyed;
  balanced = λ j. balance_in-upsert (cid db id) j name db.clock db.profiles ∙ b.balanced j;
  flat = b.flat;
}

pub balance_in-ledger_raw :
    (db : LpDb) (id : String) (delta : ℤ) (reason : String) (ref : Option String) (j : String)
    → has_profile id db.profiles ≡ true
    → balance_in j (ledger_raw db id delta reason ref).profiles
      ≡ (if id == j then balance_in j db.profiles +ℤ delta else balance_in j db.profiles)
unfolding ledger_raw
balance_in-ledger_raw db id delta reason ref j h = balance_in-credit id j delta db.profiles h

pub balance_in-upsert_raw :
    (db : LpDb) (id name j : String)
    → balance_in j (upsert_profile_raw db id name).profiles ≡ balance_in j db.profiles
unfolding upsert_profile_raw
balance_in-upsert_raw db id name j = balance_in-upsert (cid db id) j name db.clock db.profiles

pub has_profile-upsert_raw :
    (db : LpDb) (id name : String)
    → cid db id ≡ id
    → has_profile id (upsert_profile_raw db id name).profiles ≡ true
unfolding upsert_profile_raw
has_profile-upsert_raw db id name e =
    grind
      (arith, has_profile-upsert (cid db id) id name db.clock db.profiles, eq_iff (cid db id) id)

pub balance_in-grant :
    (db : LpDb) (open_id reason : String) (delta : ℤ) (ref : Option String) (j : String)
    → Books db
    → balance_in j (grant_pt db open_id delta reason ref).0.profiles ≡ (
        if cid db open_id == j then balance_in j db.profiles +ℤ delta else balance_in j db.profiles)
unfolding grant_pt
balance_in-grant db open_id reason delta ref j b =
    let id = cid db open_id in
    balance_in-ledger_raw (upsert_profile_raw db id "") id delta reason ref j
      (has_profile-upsert_raw db id "" (b.flat open_id))
    ∙ rw (balance_in-upsert_raw db id "" j)

-- On books that agree, a grant books its amount on the canonical account and on no other: the
-- balance that it returns is the old one plus the amount, and the books still agree.
pub grant_pt-Books :
    (db : LpDb) (open_id reason : String) (delta : ℤ) (ref : Option String)
    → Books db
    → let (db', balance) = grant_pt db open_id delta reason ref in
      let id = cid db open_id in
      Books db'
      × (balance ≡ balance_in id db.profiles +ℤ delta)
      × ((j : String)
          → balance_in j db'.profiles
            ≡ (if id == j then balance_in j db.profiles +ℤ delta else balance_in j db.profiles))
unfolding grant_pt
grant_pt-Books db open_id reason delta ref b =
    let id = cid db open_id in
    let db1 = upsert_profile_raw db id "" in
    (
      ledger_raw-Books db1 id delta reason ref (has_profile-upsert_raw db id "" (b.flat open_id))
          (upsert-Books db id "" b),
      ground (arith, balance_in-grant db open_id reason delta ref id b, eq_iff id id),
      λ j. balance_in-grant db open_id reason delta ref j b,
    )
