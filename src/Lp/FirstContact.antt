-- ===== src/Lp/FirstContact.antt =====
-- First contact with a member: what it does to the balances, and that the books still agree.
use polis_game.Base.{
  ◌≡◌, refl, ◌∙◌, String, ◌==◌, true, false, not, Option, none, List, [], ◌∷◌, arith, Bool-cases,
  inl, inr, if◌then◌else◌,
}
use polis_game.Base.Int.{ℤ, pos, ◌+ℤ◌, int_laws}
use polis_game.Base.Rows.{select_first}
use polis_game.Lp.{Profile, LpDb, first_contact_pt}
use polis_game.Lp.Accounts.{
  cid, is_none, get_profile, upsert_profile_raw, ledger_raw, balance_in, insert_badge,
  ensure_profile_raw,
}
use polis_game.Lp.Books.{
  has_profile, Books, has_profile-update, ledger_raw-Books, upsert-Books, balance_in-ledger_raw,
  balance_in-upsert_raw, has_profile-upsert_raw,
}

-- What a first contact adds to an account: the welcome grant if it is new, and nothing if not.
abbrev pub gift : LpDb → String → ℤ
gift db id = if has_profile id db.profiles then pos 0 else first_contact_pt

is_none-select_first :
    (id : String) (ps : List Profile)
    → is_none (select_first (λ p. p.open_id == id) ps) ≡ not (has_profile id ps)
is_none-select_first id [] = refl
is_none-select_first id (p ∷ ps) = ground (arith, is_none-select_first id ps)

is_none-get_profile :
    (db : LpDb) (id : String)
    → cid db id ≡ id
    → is_none (get_profile db id) ≡ not (has_profile id db.profiles)
unfolding get_profile
is_none-get_profile db id e = rw e (is_none-select_first id db.profiles)

insert_badge-Books :
    (db : LpDb) (id badge_id : String) (ref : Option String)
    → Books db
    → Books (insert_badge db id badge_id ref)
insert_badge-Books db id badge_id ref b = record {
  keyed = b.keyed;
  balanced = b.balanced;
  flat = b.flat;
}

-- The two ways of `ensureProfileRaw` on an account that is its own canonical one.
module _ (db : LpDb) (id name : String) (ref : Option String) (self : cid db id ≡ id) where
  pub ensure_new :
      has_profile id db.profiles ≡ false
      → ensure_profile_raw db id name ref ≡ (
        insert_badge
            (ledger_raw (upsert_profile_raw db id name) id first_contact_pt "first_contact" ref)
            id
            "first_contact"
            none,
        true,
      )
  unfolding ensure_profile_raw
  ensure_new h = rw (self, is_none-get_profile db id self, h)

  pub ensure_old :
      has_profile id db.profiles ≡ true
      → ensure_profile_raw db id name ref ≡ (upsert_profile_raw db id name, false)
  unfolding ensure_profile_raw
  ensure_old h = rw (self, is_none-get_profile db id self, h)

-- After it, the books agree, the account exists, and its balance has grown by the gift.
pub record Ensured (db : LpDb) (id : String) (db' : LpDb) : Type 0 where
  pub books : Books db'
  pub here : has_profile id db'.profiles ≡ true
  pub balances :
      (j : String)
      → balance_in j db'.profiles
        ≡ (if id == j then balance_in j db.profiles +ℤ gift db id else balance_in j db.profiles)
  pub links : db'.identity_links ≡ db.identity_links
  pub days : db'.checkins ≡ db.checkins

ensure_new-Ensured :
    (db : LpDb) (id name : String) (ref : Option String)
    → cid db id ≡ id
    → Books db
    → has_profile id db.profiles ≡ false
    → Ensured db id (
        insert_badge
          (ledger_raw (upsert_profile_raw db id name) id first_contact_pt "first_contact" ref)
          id
          "first_contact"
          none)
unfolding ledger_raw upsert_profile_raw
ensure_new-Ensured db id name ref self b h =
    let db1 = upsert_profile_raw db id name in
    let db2 = ledger_raw db1 id first_contact_pt "first_contact" ref in
    let made = has_profile-upsert_raw db id name self in
    record {
      books = insert_badge-Books db2 id "first_contact" none (
          ledger_raw-Books db1 id first_contact_pt "first_contact" ref made
            (upsert-Books db id name b));
      here =
          has_profile-update (λ p. p.open_id == id)
            (λ p. record p { pt_balance = p.pt_balance +ℤ first_contact_pt }) (λ r. refl) id
            db1.profiles
          ∙ made;
      balances = λ j.
          balance_in-ledger_raw db1 id first_contact_pt "first_contact" ref j made
          ∙ rw (balance_in-upsert_raw db id name j, h);
      links = refl;
      days = refl;
    }

ensure_old-Ensured :
    (db : LpDb) (id name : String)
    → cid db id ≡ id
    → Books db
    → has_profile id db.profiles ≡ true
    → Ensured db id (upsert_profile_raw db id name)
unfolding upsert_profile_raw
ensure_old-Ensured db id name self b h = record {
  books = upsert-Books db id name b;
  here = has_profile-upsert_raw db id name self;
  balances = λ j. balance_in-upsert_raw db id name j ∙ grind (int_laws, h);
  links = refl;
  days = refl;
}

pub ensure-Ensured :
    (db : LpDb) (id name : String) (ref : Option String)
    → cid db id ≡ id
    → Books db
    → Ensured db id (ensure_profile_raw db id name ref).0
ensure-Ensured db id name ref self b = elim (Bool-cases (has_profile id db.profiles)) [
  | inl old ↦ rw (ensure_old db id name ref self old) (ensure_old-Ensured db id name self b old)
  | inr new ↦ rw (ensure_new db id name ref self new) (ensure_new-Ensured db id name ref self b new)
]
