-- ===== src/Lp/Purses.antt =====
-- What the ledger promises its callers: each person has at most one purse, whatever identity is
-- used, and grants and payments are replies and moves of that purse. The database is a refinement.
use polis_game.Base.{
  ◌≡◌, refl, ap, ◌∙◌, String, ◌==◌, eq_iff, Bool, true, false, Option, none, some, List, [], ◌∷◌,
  arith, Bool-cases, inl, inr, if◌then◌else◌,
}
use polis_game.Base.Int.{ℤ, pos, ◌+ℤ◌, ◌-ℤ◌, leb_ℤ, int_laws}
use polis_game.Lp.{Profile, LpDb, first_contact_pt}
use polis_game.Lp.Accounts.{
  resolve, cid, upsert_profile_raw, ledger_raw, balance_in, ensure_profile_raw, grant_pt, spend_pt,
}
use polis_game.Lp.Books.{has_profile, Books, has_profile-update, has_profile-upsert, grant_pt-Books}
use polis_game.Lp.FirstContact.{gift, ensure_new, ensure_old}
use polis_game.Lp.Spending.{can_pay, spend_pt-Spent}

pub data LpCall : Type 0 where
  grants : (open_id : String) → (delta : ℤ) → (reason : String) → (ref : Option String) → LpCall
  spends : (open_id : String) → (cost : ℤ) → (reason : String) → (ref : Option String) → LpCall

pub data LpReply : Type 0 where
  balance : ℤ → LpReply
  paid : Bool → LpReply

abbrev pub call : LpDb → LpCall → LpDb × LpReply
call db (grants open_id delta reason ref) =
    let r = grant_pt db open_id delta reason ref in (r.0, balance r.1)
call db (spends open_id cost reason ref) =
    let r = spend_pt db open_id cost reason ref in (r.0, paid r.1)

-- The abstract view: an account is absent, or has an amount.
abbrev pub Purses : Type 0
Purses = String → Option ℤ

abbrev held : Option ℤ → ℤ → ℤ
held none start = start
held (some v) start = v

abbrev set : Purses → String → ℤ → Purses
set m id v j = if id == j then some v else m j

abbrev pub call_of : (String → String) → Purses → LpCall → Purses × LpReply
call_of person m (grants open_id delta reason ref) =
    let id = person open_id in let v = held (m id) (pos 0) +ℤ delta in (set m id v, balance v)
call_of person m (spends open_id cost reason ref) =
    let id = person open_id in
    let v = held (m id) first_contact_pt in
    if leb_ℤ cost v then (set m id (v -ℤ cost), paid true) else (set m id v, paid false)

-- A sequence of calls, on the database and on the purses.
abbrev pub calls : LpDb → List LpCall → LpDb × List LpReply
calls db [] = (db, [])
calls db (c ∷ cs) = let (db1, r) = call db c in let (db2, rs) = calls db1 cs in (db2, r ∷ rs)

abbrev pub calls_of : (String → String) → Purses → List LpCall → Purses × List LpReply
calls_of person m [] = (m, [])
calls_of person m (c ∷ cs) =
    let (m1, r) = call_of person m c in let (m2, rs) = calls_of person m1 cs in (m2, r ∷ rs)

abbrev pub purse : LpDb → Purses
purse db j = if has_profile j db.profiles then some (balance_in j db.profiles) else none

-- The database holds the purses.
pub record Holds (person : String → String) (db : LpDb) (m : Purses) : Type 0 where
  pub books : Books db
  pub persons : (x : String) → cid db x ≡ person x
  pub purses : (j : String) → purse db j ≡ m j

balance_in_absent :
    (j : String) (ps : List Profile) → has_profile j ps ≡ false → balance_in j ps ≡ pos 0
balance_in_absent j [] h = refl
balance_in_absent j (p ∷ ps) h = ground (arith, balance_in_absent j ps)

has_profile-grant :
    (db : LpDb) (open_id reason : String) (delta : ℤ) (ref : Option String) (j : String)
    → Books db
    → has_profile j (grant_pt db open_id delta reason ref).0.profiles
      ≡ (if cid db open_id == j then true else has_profile j db.profiles)
unfolding grant_pt ledger_raw upsert_profile_raw
has_profile-grant db open_id reason delta ref j b =
    let id = cid db open_id in
    has_profile-update (λ p. p.open_id == id) (λ p. record p { pt_balance = p.pt_balance +ℤ delta })
      (λ r. refl) j (upsert_profile_raw db id "").profiles
    ∙ has_profile-upsert (cid db id) j "" db.clock db.profiles
    ∙ ap (λ x. if x == j then true else has_profile j db.profiles) (b.flat open_id)

has_profile-ensure :
    (db : LpDb) (id : String) (j : String)
    → cid db id ≡ id
    → has_profile j (ensure_profile_raw db id "" none).0.profiles
      ≡ (if id == j then true else has_profile j db.profiles)
unfolding ledger_raw upsert_profile_raw
has_profile-ensure db id j self =
    let made =
      has_profile-upsert (cid db id) j "" db.clock db.profiles
      ∙ ap (λ x. if x == j then true else has_profile j db.profiles) self in
    elim (Bool-cases (has_profile id db.profiles)) [
      | inl old ↦ rw (ensure_old db id "" none self old) made
      | inr new ↦ rw (ensure_new db id "" none self new) (
          has_profile-update (λ p. p.open_id == id)
            (λ p. record p { pt_balance = p.pt_balance +ℤ first_contact_pt }) (λ r. refl) j
            (upsert_profile_raw db id "").profiles
          ∙ made)
    ]

has_profile-spend :
    (db : LpDb) (open_id reason : String) (cost : ℤ) (ref : Option String) (j : String)
    → Books db
    → has_profile j (spend_pt db open_id cost reason ref).0.profiles
      ≡ (if cid db open_id == j then true else has_profile j db.profiles)
unfolding spend_pt
has_profile-spend db open_id reason cost ref j b =
    let id = cid db open_id in
    let db1 = (ensure_profile_raw db id "" none).0 in
    ground (
      arith,
      has_profile-ensure db id j (b.flat open_id),
      has_profile-update (can_pay id cost) (λ p. record p { pt_balance = p.pt_balance -ℤ cost })
          (λ r. refl) j db1.profiles,
    )

links-grant :
    (db : LpDb) (open_id reason : String) (delta : ℤ) (ref : Option String)
    → (grant_pt db open_id delta reason ref).0.identity_links ≡ db.identity_links
unfolding grant_pt ledger_raw upsert_profile_raw
links-grant db open_id reason delta ref = refl

-- The amount of a purse that may be absent.
held-purse :
    (db : LpDb) (id : String)
    → (balance_in id db.profiles ≡ held (purse db id) (pos 0))
      × (balance_in id db.profiles +ℤ gift db id ≡ held (purse db id) first_contact_pt)
held-purse db id = elim (Bool-cases (has_profile id db.profiles)) [
  | inl old ↦ (ground (arith, old), grind (int_laws, old))
  | inr new ↦ (
    ground (arith, new, balance_in_absent id db.profiles),
    grind (int_laws, new, balance_in_absent id db.profiles),
  )
]

grant-Holds :
    (person : String → String) (db : LpDb) (m : Purses) (open_id reason : String) (delta : ℤ)
    (ref : Option String)
    → Holds person db m
    → let (db', r) = call db (grants open_id delta reason ref) in
      let (m', s) = call_of person m (grants open_id delta reason ref) in
      (r ≡ s) × Holds person db' m'
grant-Holds person db m open_id reason delta ref h =
    let id = cid db open_id in
    let g = grant_pt-Books db open_id reason delta ref h.books in
    let amount : balance_in id db.profiles ≡ held (m (person open_id)) (pos 0) =
      (held-purse db id).0 ∙ ap (λ o. held o (pos 0)) (h.purses id ∙ ap m (h.persons open_id)) in
    (
      ap balance (g.1 ∙ ap (λ v. v +ℤ delta) amount),
      record {
        books = g.0;
        persons = λ x.
            ap (λ links. resolve links x) (links-grant db open_id reason delta ref) ∙ h.persons x;
        purses = λ j. ground (
          arith,
          has_profile-grant db open_id reason delta ref j h.books,
          g.2 j,
          amount,
          h.persons open_id,
          h.purses j,
          eq_iff id j,
        );
      },
    )

spend-Holds :
    (person : String → String) (db : LpDb) (m : Purses) (open_id reason : String) (cost : ℤ)
    (ref : Option String)
    → Holds person db m
    → let (db', r) = call db (spends open_id cost reason ref) in
      let (m', s) = call_of person m (spends open_id cost reason ref) in
      (r ≡ s) × Holds person db' m'
spend-Holds person db m open_id reason cost ref h =
    let id = cid db open_id in
    let g = spend_pt-Spent db open_id reason cost ref h.books in
    let v = held (m (person open_id)) first_contact_pt in
    let amount : balance_in id db.profiles +ℤ gift db id ≡ v =
      (held-purse db id).1
      ∙ ap (λ o. held o first_contact_pt) (h.purses id ∙ ap m (h.persons open_id)) in
    let decided : (spend_pt db open_id cost reason ref).1 ≡ leb_ℤ cost v =
      g.decided ∙ ap (leb_ℤ cost) amount in
    (
      ground (arith, decided),
      record {
        books = g.books;
        persons = λ x. ap (λ links. resolve links x) g.links ∙ h.persons x;
        purses = λ j. ground (
          arith,
          has_profile-spend db open_id reason cost ref j h.books,
          g.balances j,
          amount,
          decided,
          h.persons open_id,
          h.purses j,
          eq_iff id j,
        );
      },
    )

call-Holds :
    (person : String → String) (db : LpDb) (m : Purses) (c : LpCall)
    → Holds person db m
    → ((call db c).1 ≡ (call_of person m c).1) × Holds person (call db c).0 (call_of person m c).0
call-Holds person db m (grants open_id delta reason ref) h =
    grant-Holds person db m open_id reason delta ref h
call-Holds person db m (spends open_id cost reason ref) h =
    spend-Holds person db m open_id reason cost ref h

-- On books that agree and whose accounts are the purses, any sequence of grants and payments gives
-- the replies that the purses give, and leaves books that agree and whose accounts are the purses
-- afterwards.
pub calls-Holds :
    (person : String → String) (cs : List LpCall) (db : LpDb) (m : Purses)
    → Holds person db m
    → ((calls db cs).1 ≡ (calls_of person m cs).1)
      × Holds person (calls db cs).0 (calls_of person m cs).0
calls-Holds person [] db m h = (refl, h)
calls-Holds person (c ∷ cs) db m h =
    let one = call-Holds person db m c h in
    let rest = calls-Holds person cs (call db c).0 (call_of person m c).0 one.1 in
    (cc (one.0, rest.0), rest.1)
