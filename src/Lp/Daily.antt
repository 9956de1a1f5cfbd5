-- ===== src/Lp/Daily.antt =====
-- The daily check-in of core/store/gamification.ts.
use polis_game.Base.{
  ◌≡◌, refl, ap, ◌∙◌, String, ◌==◌, eq_iff, eq_refl, Bool, true, false, not, none, List, [], ◌∷◌,
  ◌++◌, any, arith, if◌then◌else◌,
}
use polis_game.Base.Int.{pos, ◌+ℤ◌, int_laws}
use polis_game.Base.Rows.{insert_or_ignore}
use polis_game.Lp.{LpDb, Checkin, daily_checkin_pt}
use polis_game.Lp.Accounts.{
  resolve, cid, ledger_raw, balance_in, same_day, ensure_profile_raw, check_in,
}
use polis_game.Lp.Books.{
  has_profile, has_profile-update, Books, ledger_raw-Books, balance_in-ledger_raw,
}
use polis_game.Lp.FirstContact.{gift, Ensured, ensure-Ensured}

-- What a check-in did: it is the first of the day exactly if no row has the member and the date, a
-- first one adds the daily amount (and the welcome grant to a new account), and a later one adds
-- none of the daily amount.
pub record CheckedIn (db : LpDb) (id date : String) (db' : LpDb) (first_today : Bool) : Type 0 where
  pub books : Books db'
  pub decided : first_today ≡ not (any (same_day id date) db.checkins)
  pub balances :
      (j : String)
      → balance_in j db'.profiles ≡ (
          if id == j
          then (if first_today
              then balance_in j db.profiles +ℤ gift db id +ℤ daily_checkin_pt
              else balance_in j db.profiles +ℤ gift db id)
          else balance_in j db.profiles)
  pub links : db'.identity_links ≡ db.identity_links
  pub here : has_profile id db'.profiles ≡ true
  pub noted : any (same_day id date) db'.checkins ≡ true

any-append :
    (p : Checkin → Bool) (c : Checkin) (cs : List Checkin)
    → p c ≡ true
    → any p (cs ++ c ∷ []) ≡ true
any-append p c [] h = ground arith
any-append p c (d ∷ cs) h = ground (arith, any-append p c cs h)

noted_by_insert :
    (p : Checkin → Bool) (c : Checkin) (cs : List Checkin)
    → p c ≡ true
    → any p (insert_or_ignore p c cs) ≡ true
noted_by_insert p c cs h = ground (arith, any-append p c cs h)

-- The branches after `ensureProfileRaw`.
module _ (db : LpDb) (id date : String) (db1 : LpDb) (e : Ensured db id db1) where
  abbrev noted_db : LpDb
  noted_db = record db1 {
    checkins =
        insert_or_ignore (same_day id date)
          (record { user_open_id = id; checkin_date = date; pt_awarded = daily_checkin_pt })
          db1.checkins;
  }

  noted_db-Books : Books noted_db
  noted_db-Books = record {
    keyed = e.books.keyed;
    balanced = e.books.balanced;
    flat = e.books.flat;
  }

  noted_db-noted : any (same_day id date) noted_db.checkins ≡ true
  noted_db-noted =
      noted_by_insert (same_day id date)
        (record { user_open_id = id; checkin_date = date; pt_awarded = daily_checkin_pt })
        db1.checkins (simp eq_refl)

  first_CheckedIn :
      any (same_day id date) db1.checkins ≡ false
      → CheckedIn db id date (ledger_raw noted_db id daily_checkin_pt "daily_checkin" none) true
  unfolding ledger_raw
  first_CheckedIn h = record {
    books =
        ledger_raw-Books noted_db id daily_checkin_pt "daily_checkin" none e.here noted_db-Books;
    decided = ground (arith, e.days, h);
    balances = λ j.
        balance_in-ledger_raw noted_db id daily_checkin_pt "daily_checkin" none j e.here
        ∙ grind (arith, e.balances j, eq_iff id j);
    links = e.links;
    here =
        has_profile-update (λ p. p.open_id == id)
          (λ p. record p { pt_balance = p.pt_balance +ℤ daily_checkin_pt }) (λ r. refl) id
          db1.profiles
        ∙ e.here;
    noted = noted_db-noted;
  }

  later_CheckedIn : any (same_day id date) db1.checkins ≡ true → CheckedIn db id date noted_db false
  later_CheckedIn h = record {
    books = noted_db-Books;
    decided = ground (arith, e.days, h);
    balances = λ j. e.balances j;
    links = e.links;
    here = e.here;
    noted = noted_db-noted;
  }

  both_CheckedIn :
      (first_today : Bool)
      → first_today ≡ not (any (same_day id date) db1.checkins)
      → CheckedIn db id date
          (if first_today
            then ledger_raw noted_db id daily_checkin_pt "daily_checkin" none
            else noted_db)
          first_today
  both_CheckedIn true h = first_CheckedIn (ground arith)
  both_CheckedIn false h = later_CheckedIn (ground arith)

-- On books that agree, a check-in is the first of the day exactly if no row has the member and the
-- date. A first one adds the daily amount, and the welcome grant to a new account; a later one adds
-- none of the daily amount. The row is there afterwards, no other balance moves, and the books
-- still agree.
pub check_in-CheckedIn :
    (db : LpDb) (open_id date : String)
    → Books db
    → let (db', r) = check_in db open_id date in
      CheckedIn db (cid db open_id) date db' r.first_today
unfolding check_in
check_in-CheckedIn db open_id date b =
    let id = cid db open_id in
    let db1 = (ensure_profile_raw db id "" none).0 in
    both_CheckedIn db id date db1 (ensure-Ensured db id "" none (b.flat open_id) b)
      (not (any (same_day id date) db1.checkins)) refl

check_in-awarded :
    (db : LpDb) (open_id date : String)
    → let r = (check_in db open_id date).1 in
      r.awarded ≡ (if r.first_today then daily_checkin_pt else pos 0)
unfolding check_in
check_in-awarded db open_id date = refl

-- On books that agree, the second check-in of a member on the same date is not the first of the
-- day, awards nothing and leaves every balance as the first one left it.
pub check_in_twice :
    (db : LpDb) (open_id date : String)
    → Books db
    → let db1 = (check_in db open_id date).0 in
      let (db2, r) = check_in db1 open_id date in
      (r.first_today ≡ false)
      × (r.awarded ≡ pos 0)
      × ((j : String) → balance_in j db2.profiles ≡ balance_in j db1.profiles)
check_in_twice db open_id date b =
    let db1 = (check_in db open_id date).0 in
    let c1 = check_in-CheckedIn db open_id date b in
    let c2 = check_in-CheckedIn db1 open_id date c1.books in
    let same : cid db1 open_id ≡ cid db open_id = ap (λ links. resolve links open_id) c1.links in
    let noted : any (same_day (cid db1 open_id) date) db1.checkins ≡ true = rw same c1.noted in
    let here : has_profile (cid db1 open_id) db1.profiles ≡ true = rw same c1.here in
    let later : (check_in db1 open_id date).1.first_today ≡ false = c2.decided ∙ rw noted in
    (
      later,
      check_in-awarded db1 open_id date ∙ rw later,
      λ j. grind (int_laws, c2.balances j, later, here),
    )
