-- ===== src/Lp/Accounts.antt =====
-- core/store/gamification.ts: identities, profiles, the ledger, badges and check-ins. A function here
-- is the body of its transaction, which the database commits whole or not at all; the display name
-- that the override tables choose is left out.
use polis_game.Base.{
  ℕ, String, ◌==◌, Bool, true, false, not, ◌&&◌, Option, none, some, List, [], ◌∷◌, ◌++◌, eqb, any,
  keep, map, if◌then◌else◌,
}
use polis_game.Base.Int.{ℤ, pos, ◌+ℤ◌, ◌-ℤ◌, leb_ℤ}
use polis_game.Base.Rows.{update, row_count, select_first, insert_or_ignore}
use polis_game.Lp.{
  Profile, LedgerRow, UserBadge, Checkin, IdentityLink, LpDb, first_contact_pt, daily_checkin_pt,
}

-- `rows[0]?.canonical_id || openId`
abbrev pub canonical_or : Option IdentityLink → String → String
canonical_or none open_id = open_id
canonical_or (some l) open_id = if l.canonical_id == "" then open_id else l.canonical_id

unfoldable pub resolve : List IdentityLink → String → String
resolve links open_id =
    if open_id == ""
    then open_id
    else canonical_or (select_first (λ l. l.open_id == open_id) links) open_id

abbrev pub cid : LpDb → String → String
cid db = resolve db.identity_links

unfoldable pub get_profile : LpDb → String → Option Profile
get_profile db open_id = let id = cid db open_id in select_first (λ p. p.open_id == id) db.profiles

-- `ON CONFLICT(open_id) DO UPDATE`: an empty name keeps the old one.
abbrev pub refreshed : String → ℕ → Profile → Profile
refreshed name now p = record p {
  name = if not (name == "") then name else p.name;
  last_seen = now;
}

abbrev pub fresh_profile : String → String → ℕ → Profile
fresh_profile id name now = record {
  open_id = id;
  name = name;
  pt_balance = pos 0;
  level = 1;
  first_seen = now;
  last_seen = now;
}

unfoldable pub upsert_profile : String → String → ℕ → List Profile → List Profile
upsert_profile id name now [] = fresh_profile id name now ∷ []
upsert_profile id name now (p ∷ ps) =
    if p.open_id == id then refreshed name now p ∷ ps else p ∷ upsert_profile id name now ps

unfoldable pub upsert_profile_raw : LpDb → String → String → LpDb
upsert_profile_raw db open_id name = record db {
  profiles = upsert_profile (cid db open_id) name db.clock db.profiles;
}

-- `UPDATE profiles SET pt_balance = pt_balance + delta WHERE open_id = id`
abbrev pub credit : String → ℤ → List Profile → List Profile
credit id delta =
    update (λ p. p.open_id == id) (λ p. record p { pt_balance = p.pt_balance +ℤ delta })

abbrev pub entry : LpDb → String → ℤ → String → Option String → LedgerRow
entry db id delta reason ref = record {
  user_open_id = id;
  delta = delta;
  reason = reason;
  ref_message_id = ref;
  created_at = db.clock;
}

unfoldable pub ledger_raw : LpDb → String → ℤ → String → Option String → LpDb
ledger_raw db id delta reason ref = record db {
  pt_ledger = db.pt_ledger ++ entry db id delta reason ref ∷ [];
  profiles = credit id delta db.profiles;
}

abbrev pub balance_or_zero : Option Profile → ℤ
balance_or_zero none = pos 0
balance_or_zero (some p) = p.pt_balance

abbrev pub balance_in : String → List Profile → ℤ
balance_in id ps = balance_or_zero (select_first (λ p. p.open_id == id) ps)

unfoldable pub balance_raw : LpDb → String → ℤ
balance_raw db id = balance_in id db.profiles

unfoldable pub grant_pt : LpDb → String → ℤ → String → Option String → LpDb × ℤ
unfolding balance_raw
grant_pt db open_id delta reason ref =
    let id = cid db open_id in
    let db1 = upsert_profile_raw db id "" in
    let db2 = ledger_raw db1 id delta reason ref in (db2, balance_raw db2 id)

abbrev pub is_ref : Option String → String → Bool
is_ref none ref = false
is_ref (some r) ref = r == ref

unfoldable pub has_pt_grant_for_ref : LpDb → String → String → Bool
has_pt_grant_for_ref db reason ref =
    if reason == ""
    then false
    else if ref == ""
    then false
    else any (λ r. r.reason == reason && is_ref r.ref_message_id ref) db.pt_ledger

unfoldable pub pt_grants_for_ref : LpDb → String → String → List (String × ℤ)
pt_grants_for_ref db reason ref =
    if reason == ""
    then []
    else if ref == ""
    then []
    else map (λ r. (r.user_open_id, r.delta))
        (keep (λ r. r.reason == reason && is_ref r.ref_message_id ref) db.pt_ledger)

abbrev pub sum_deltas : (LedgerRow → Bool) → List LedgerRow → ℤ
sum_deltas p [] = pos 0
sum_deltas p (r ∷ rs) = if p r then r.delta +ℤ sum_deltas p rs else sum_deltas p rs

unfoldable pub net_pt_change_for_ref : LpDb → String → String → ℤ
net_pt_change_for_ref db ref open_id =
    if ref == ""
    then pos 0
    else if open_id == ""
    then pos 0
    else let id = cid db open_id in
      sum_deltas
        (λ r.
          is_ref r.ref_message_id ref
          && (r.user_open_id == id && not (r.reason == "first_contact")))
        db.pt_ledger

-- The primary key (user_open_id, badge_id).
abbrev pub same_badge : String → String → UserBadge → Bool
same_badge id badge_id b = b.user_open_id == id && b.badge_id == badge_id

abbrev pub insert_badge : LpDb → String → String → Option String → LpDb
insert_badge db id badge_id ref = record db {
  user_badges =
      insert_or_ignore (same_badge id badge_id)
        (record { user_open_id = id; badge_id = badge_id; ref = ref; awarded_at = db.clock })
        db.user_badges;
}

unfoldable pub award_badge : LpDb → String → String → Option String → LpDb × Bool
award_badge db open_id badge_id ref =
    let id = cid db open_id in
    let db1 = upsert_profile_raw db id "" in
    (insert_badge db1 id badge_id ref, not (any (same_badge id badge_id) db1.user_badges))

unfoldable pub has_badge : LpDb → String → String → Bool
has_badge db open_id badge_id =
    if open_id == ""
    then false
    else if badge_id == ""
    then false
    else any (same_badge (cid db open_id) badge_id) db.user_badges

unfoldable pub has_first_contact : LpDb → String → Bool
has_first_contact db open_id =
    if open_id == ""
    then false
    else any (same_badge (cid db open_id) "first_contact") db.user_badges

abbrev pub is_none {ℓ} : {A : Type ℓ} → Option A → Bool
is_none none = true
is_none (some _) = false

unfoldable pub ensure_profile_raw : LpDb → String → String → Option String → LpDb × Bool
ensure_profile_raw db open_id name ref =
    let id = cid db open_id in
    let is_new = is_none (get_profile db id) in
    let db1 = upsert_profile_raw db id name in
    if is_new
    then (
      insert_badge (ledger_raw db1 id first_contact_pt "first_contact" ref) id "first_contact" none,
      true,
    )
    else (db1, false)

-- The guarded UPDATE debits the rows with enough LP, and its row count decides.
unfoldable pub spend_pt : LpDb → String → ℤ → String → Option String → LpDb × Bool
spend_pt db open_id cost reason ref =
    let id = cid db open_id in
    let db1 = (ensure_profile_raw db id "" none).0 in
    let can_pay = λ (p : Profile). p.open_id == id && leb_ℤ cost p.pt_balance in
    if eqb (row_count can_pay db1.profiles) 0 then (db1, false) else (
      record db1 {
        profiles =
            update can_pay (λ p. record p { pt_balance = p.pt_balance -ℤ cost }) db1.profiles;
        pt_ledger = db1.pt_ledger ++ entry db1 id (pos 0 -ℤ cost) reason ref ∷ [];
      },
      true,
    )

pub record CheckInResult : Type 0 where
  pub first_today : Bool
  pub awarded : ℤ
  pub date : String
  pub balance : ℤ

-- The unique key (user_open_id, checkin_date).
abbrev pub same_day : String → String → Checkin → Bool
same_day id date c = c.user_open_id == id && c.checkin_date == date

unfoldable pub check_in : LpDb → String → String → LpDb × CheckInResult
unfolding balance_raw
check_in db open_id date =
    let id = cid db open_id in
    let db1 = (ensure_profile_raw db id "" none).0 in
    let first_today = not (any (same_day id date) db1.checkins) in
    let db2 = record db1 {
      checkins =
          insert_or_ignore (same_day id date)
            (record { user_open_id = id; checkin_date = date; pt_awarded = daily_checkin_pt })
            db1.checkins;
    } in
    let db3 =
      if first_today then ledger_raw db2 id daily_checkin_pt "daily_checkin" none else db2 in
    (
      db3,
      record {
        first_today = first_today;
        awarded = if first_today then daily_checkin_pt else pos 0;
        date = date;
        balance = balance_raw db3 id;
      },
    )
