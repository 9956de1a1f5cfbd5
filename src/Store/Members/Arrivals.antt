-- ===== src/Store/Members/Arrivals.antt =====
-- The visitor milestones of core/store/members.ts and core/visitor-milestones.ts, which are kept in
-- the database and in a file per chat, and the queue of newcomers to welcome.
use polis_game.Base.{
  ℕ, zero, suc, ◌-◌, ◌≡◌, refl, String, ◌==◌, eq_refl, Bool, true, false, not, ◌&&◌, Option, none,
  some, List, [], ◌∷◌, ◌++◌, map, keep, any, eqb, leb, ltb, arith, if◌then◌else◌,
}
use polis_game.Base.Order.{sort_by}
use polis_game.Base.Rows.{insert_or_ignore}
use polis_game.Store.Members.{ChatMember, MembersDb, MemberRef}

pub record VisitorPerson : Type 0 where
  pub open_id : String
  pub name : String
  pub first_seen : ℕ

abbrev nth : ℕ → List ChatMember → Option ChatMember
nth n [] = none
nth zero (r ∷ rs) = some r
nth (suc n) (r ∷ rs) = nth n rs

abbrev person_of : Option ChatMember → Option VisitorPerson
person_of none = none
person_of (some r) = some (record { open_id = r.open_id; name = r.name; first_seen = r.first_seen })

-- From 1.
unfoldable pub nth_present_member_by_arrival : MembersDb → String → ℕ → Option VisitorPerson
nth_present_member_by_arrival db chat_id n =
    if ltb n 1
    then none
    else person_of (
        nth (n - 1) (
          sort_by (λ a b. leb a.first_seen b.first_seen)
            (keep (λ r. r.chat_id == chat_id && r.present) db.chat_members)))

pub record MilestoneRow : Type 0 where
  pub chat_id : String
  pub milestone : ℕ
  pub open_id : String
  pub name : String
  pub reached_at : ℕ

pub record LedgerEntry : Type 0 where
  pub open_id : String
  pub name : String
  pub reached_at : ℕ

-- The table, and for a chat its file, which is `none` when it is missing or malformed.
pub record Milestones : Type 0 where
  pub rows : List MilestoneRow
  pub file : String → Option (List (ℕ × LedgerEntry))

abbrev pub is_milestone : String → ℕ → MilestoneRow → Bool
is_milestone chat_id milestone r = r.chat_id == chat_id && eqb r.milestone milestone

unfoldable pub has_visitor_milestone : Milestones → String → ℕ → Bool
has_visitor_milestone st chat_id milestone = any (is_milestone chat_id milestone) st.rows

unfoldable pub record_visitor_milestone : Milestones → String → ℕ → LedgerEntry → Milestones
record_visitor_milestone st chat_id milestone entry = record st {
  rows =
      insert_or_ignore (is_milestone chat_id milestone)
        (record {
          chat_id = chat_id;
          milestone = milestone;
          open_id = entry.open_id;
          name = entry.name;
          reached_at = entry.reached_at;
        })
        st.rows;
}

abbrev pub load_ledger : Milestones → String → List (ℕ × LedgerEntry)
load_ledger st chat_id = elim (st.file chat_id) [ none ↦ [] | some ms ↦ ms ]

abbrev pub entry_for : ℕ → List (ℕ × LedgerEntry) → Option LedgerEntry
entry_for k [] = none
entry_for k (e ∷ es) = if eqb e.0 k then some e.1 else entry_for k es

abbrev is_there : Option LedgerEntry → Bool
is_there none = false
is_there (some _) = true

unfoldable pub is_milestone_recorded : Milestones → String → ℕ → Bool
is_milestone_recorded st chat_id milestone =
    if has_visitor_milestone st chat_id milestone
    then true
    else is_there (entry_for milestone (load_ledger st chat_id))

abbrev write_file : Milestones → String → List (ℕ × LedgerEntry) → Milestones
write_file st chat_id ms = record st { file = λ c. if chat_id == c then some ms else st.file c }

abbrev pub mirrored :
    Bool → Milestones → String → ℕ → LedgerEntry → Option LedgerEntry → Milestones × LedgerEntry
mirrored file_ok st chat_id milestone entry (some kept) = (st, kept)
mirrored file_ok st chat_id milestone entry none =
    let ms = load_ledger st chat_id ++ (milestone, entry) ∷ [] in
    (if file_ok then write_file st chat_id ms else st, entry)

-- A write to the database and one to the file that fail are only logged.
unfoldable pub record_milestone :
    (db_ok file_ok : Bool)
    → Milestones
    → String
    → ℕ
    → VisitorPerson
    → (reached_at : ℕ) → Milestones × LedgerEntry
record_milestone db_ok file_ok st chat_id milestone person reached_at =
    let entry : LedgerEntry = record {
      open_id = person.open_id;
      name = person.name;
      reached_at = reached_at;
    } in
    let st1 = if db_ok then record_visitor_milestone st chat_id milestone entry else st in
    mirrored file_ok st1 chat_id milestone entry (entry_for milestone (load_ledger st1 chat_id))

entry_for-append :
    (k : ℕ) (e : LedgerEntry) (es : List (ℕ × LedgerEntry))
    → entry_for k es ≡ none
    → entry_for k (es ++ (k, e) ∷ []) ≡ some e
entry_for-append k e [] h = ground arith
entry_for-append k e (x ∷ es) h = ground (arith, h, entry_for-append k e es)

mirrored-entry :
    (st : Milestones) (c : String) (m : ℕ) (entry : LedgerEntry) (o : Option LedgerEntry)
    → entry_for m (load_ledger st c) ≡ o
    → let r = mirrored true st c m entry o in entry_for m (load_ledger r.0 c) ≡ some r.1
mirrored-entry st c m entry (some kept) h = h
mirrored-entry st c m entry none h =
    ground (arith, eq_refl c, entry_for-append m entry (load_ledger st c) h)

written :
    (db_ok : Bool) (st : Milestones) (c : String) (m : ℕ) (p : VisitorPerson) (t : ℕ)
    → let r = record_milestone db_ok true st c m p t in entry_for m (load_ledger r.0 c) ≡ some r.1
unfolding record_milestone
written db_ok st c m p t =
    let entry : LedgerEntry = record { open_id = p.open_id; name = p.name; reached_at = t } in
    let st1 : Milestones = if db_ok then record_visitor_milestone st c m entry else st in
    mirrored-entry st1 c m entry (entry_for m (load_ledger st1 c)) refl

kept_by :
    (db_ok file_ok : Bool) (st : Milestones) (c : String) (m : ℕ) (p : VisitorPerson) (t : ℕ)
    (e : LedgerEntry)
    → entry_for m (load_ledger st c) ≡ some e
    → ((record_milestone db_ok file_ok st c m p t).1 ≡ e)
      × ((record_milestone db_ok file_ok st c m p t).0.file ≡ st.file)
unfolding record_milestone record_visitor_milestone
kept_by true file_ok st c m p t e h = rw h (refl, refl)
kept_by false file_ok st c m p t e h = rw h (refl, refl)

recorded_by_file :
    (st : Milestones) (c : String) (m : ℕ) (e : LedgerEntry)
    → entry_for m (load_ledger st c) ≡ some e
    → is_milestone_recorded st c m ≡ true
unfolding is_milestone_recorded
recorded_by_file st c m e h = ground (arith, h)

-- When the file of a chat is written, a milestone counts as recorded afterwards, whether or not the
-- database was written; and recording it again, for whomever and whatever fails then, returns the
-- first entry and leaves every file as it is.
pub record_milestone_once :
    (st : Milestones) (c : String) (m : ℕ) (db_ok db_ok' file_ok' : Bool) (p p' : VisitorPerson)
    (t t' : ℕ)
    → let (st1, first) = record_milestone db_ok true st c m p t in
      let (st2, again) = record_milestone db_ok' file_ok' st1 c m p' t' in
      (is_milestone_recorded st1 c m ≡ true) × (again ≡ first) × (st2.file ≡ st1.file)
record_milestone_once st c m db_ok db_ok' file_ok' p p' t t' =
    let r = record_milestone db_ok true st c m p t in
    let there = written db_ok st c m p t in
    let again = kept_by db_ok' file_ok' r.0 c m p' t' r.1 there in
    (recorded_by_file r.0 c m r.1 there, again.0, again.1)

-- The queue of core/store/members.ts for the next welcome.
pub record PendingRow : Type 0 where
  pub chat_id : String
  pub open_id : String
  pub name : String
  pub queued_at : ℕ

abbrev is_queued : String → String → PendingRow → Bool
is_queued chat_id open_id r = r.chat_id == chat_id && r.open_id == open_id

abbrev enqueue_all : String → ℕ → List MemberRef → List PendingRow → List PendingRow
enqueue_all chat_id now [] rows = rows
enqueue_all chat_id now (m ∷ ms) rows = enqueue_all chat_id now ms (
    if m.open_id == ""
    then rows
    else insert_or_ignore (is_queued chat_id m.open_id)
        (record { chat_id = chat_id; open_id = m.open_id; name = m.name; queued_at = now }) rows)

unfoldable pub enqueue_pending_welcome :
    List PendingRow → ℕ → String → List MemberRef → List PendingRow
enqueue_pending_welcome rows now chat_id members =
    if chat_id == "" then rows else enqueue_all chat_id now members rows

abbrev queued_ref : PendingRow → MemberRef
queued_ref r = record { open_id = r.open_id; name = r.name }

unfoldable pub list_pending_welcome : List PendingRow → String → List MemberRef
list_pending_welcome rows chat_id =
    map queued_ref
      (sort_by (λ a b. leb a.queued_at b.queued_at) (keep (λ r. r.chat_id == chat_id) rows))

unfoldable pub clear_pending_welcome : List PendingRow → String → List PendingRow
clear_pending_welcome rows chat_id =
    if chat_id == "" then rows else keep (λ r. not (r.chat_id == chat_id)) rows
