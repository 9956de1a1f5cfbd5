-- ===== src/Store/Members.antt =====
-- core/store/members.ts: the members of the chats, and which chats are still served. A roster is the
-- list of the entries of its Map; a batch of rows is written row by row.
pub mod Roster
pub mod Arrivals
use polis_game.Base.{
  ℕ, suc, ◌+◌, String, ◌==◌, Bool, true, false, not, ◌&&◌, ◌||◌, Option, none, some, List, [], ◌∷◌,
  ◌++◌, map, keep, any, length, eqb, leb, ltb, if◌then◌else◌,
}
use polis_game.Base.Order.{sort_by}
use polis_game.Tc.Store.{is_null}
use polis_game.Base.Rows.{update, row_count, select_first, insert_or_ignore}

pub record ChatMember : Type 0 where
  pub chat_id : String
  pub open_id : String
  pub name : String
  pub present : Bool
  pub first_seen : ℕ
  pub last_seen : ℕ

pub data ChatInactiveReason : Type 0 where
  dissolved inaccessible : ChatInactiveReason

pub record Chat : Type 0 where
  pub chat_id : String
  pub name : String
  pub dissolved_at : Option ℕ
  pub inactive_reason : Option ChatInactiveReason

pub record MembersDb : Type 0 where
  pub chat_members : List ChatMember
  pub chats : List Chat
  pub unixepoch : ℕ

pub record MemberRef : Type 0 where
  pub open_id : String
  pub name : String

pub record SyncChatMembersResult : Type 0 where
  pub added : ℕ
  pub total : ℕ
  pub left : ℕ
  pub renamed : ℕ
  pub joined_members : List MemberRef
  pub left_members : List MemberRef
  pub renamed_members : List MemberRef

-- The key (chat_id, open_id).
abbrev pub is_member : String → String → ChatMember → Bool
is_member chat_id open_id r = r.chat_id == chat_id && r.open_id == open_id

abbrev pub in_roster : String → List MemberRef → Bool
in_roster open_id = any (λ m. m.open_id == open_id)

-- `INSERT … ON CONFLICT(chat_id, open_id) DO UPDATE`: an empty name keeps the old one.
abbrev pub seen_again : MemberRef → ℕ → ChatMember → ChatMember
seen_again m now r = record r {
  name = if not (m.name == "") then m.name else r.name;
  present = true;
  last_seen = now;
}

abbrev pub new_member : String → MemberRef → ℕ → ChatMember
new_member chat_id m now = record {
  chat_id = chat_id;
  open_id = m.open_id;
  name = m.name;
  present = true;
  first_seen = now;
  last_seen = now;
}

abbrev pub upsert_member : String → ℕ → MemberRef → List ChatMember → List ChatMember
upsert_member chat_id now m rows =
    if any (is_member chat_id m.open_id) rows
    then update (is_member chat_id m.open_id) (seen_again m now) rows
    else rows ++ new_member chat_id m now ∷ []

abbrev pub upsert_roster : String → ℕ → List MemberRef → List ChatMember → List ChatMember
upsert_roster chat_id now [] rows = rows
upsert_roster chat_id now (m ∷ ms) rows =
    upsert_roster chat_id now ms (upsert_member chat_id now m rows)

abbrev ref_of : ChatMember → MemberRef
ref_of r = record { open_id = r.open_id; name = r.name }

-- Present before, and not on the roster.
abbrev pub leavers : String → List MemberRef → List ChatMember → List MemberRef
leavers chat_id roster rows =
    map ref_of
      (keep (λ r. r.chat_id == chat_id && (r.present && not (in_roster r.open_id roster))) rows)

abbrev pub joiners : String → List MemberRef → List ChatMember → List MemberRef
joiners chat_id roster rows = keep (λ m. not (any (is_member chat_id m.open_id) rows)) roster

abbrev has_other_name : MemberRef → Option ChatMember → Bool
has_other_name m none = false
has_other_name m (some r) = not (r.name == "") && not (r.name == m.name)

abbrev pub renamers : String → List MemberRef → List ChatMember → List MemberRef
renamers chat_id roster rows =
    keep
      (λ m.
        not (m.name == "") && has_other_name m (select_first (is_member chat_id m.open_id) rows))
      roster

-- `UPDATE chat_members SET present = 0 WHERE chat_id = $1 AND open_id IN (…)`
abbrev pub flip : String → List MemberRef → List ChatMember → List ChatMember
flip chat_id gone =
    update (λ r. r.chat_id == chat_id && in_roster r.open_id gone)
      (λ r. record r { present = false })

-- The refresh of profile names in the LP database is left out.
unfoldable pub sync_chat_members :
    MembersDb → String → List MemberRef → MembersDb × SyncChatMembersResult
sync_chat_members db chat_id roster =
    let rows = db.chat_members in
    let gone = leavers chat_id roster rows in
    let joined = joiners chat_id roster rows in
    let renamed = renamers chat_id roster rows in
    (
      record db {
        chat_members = flip chat_id gone (upsert_roster chat_id db.unixepoch roster rows);
      },
      record {
        added = length joined;
        total = length roster;
        left = length gone;
        renamed = length renamed;
        joined_members = joined;
        left_members = gone;
        renamed_members = renamed;
      },
    )

unfoldable pub present_member_count : MembersDb → String → ℕ
present_member_count db chat_id = row_count (λ r. r.chat_id == chat_id && r.present) db.chat_members

-- The first reason and time are kept.
unfoldable pub mark_chat_inactive : MembersDb → String → ChatInactiveReason → MembersDb × ℕ
mark_chat_inactive db chat_id reason =
    let chats =
      insert_or_ignore (λ c. c.chat_id == chat_id)
        (record { chat_id = chat_id; name = ""; dissolved_at = none; inactive_reason = none })
        db.chats in
    let here = λ (r : ChatMember). r.chat_id == chat_id && r.present in
    if chat_id == "" then (db, 0) else (
      record db {
        chats =
            update (λ c. c.chat_id == chat_id && is_null c.dissolved_at)
              (λ c. record c { dissolved_at = some db.unixepoch; inactive_reason = some reason })
              chats;
        chat_members = update here (λ r. record r { present = false }) db.chat_members;
      },
      row_count here db.chat_members,
    )

unfoldable pub clear_chat_inactive : MembersDb → String → MembersDb
clear_chat_inactive db chat_id = if chat_id == "" then db else record db {
  chats =
      update (λ c. c.chat_id == chat_id)
        (λ c. record c { dissolved_at = none; inactive_reason = none }) db.chats;
}

abbrev reason_of : Option Chat → Option ChatInactiveReason
reason_of none = none
reason_of (some c) = elim c.inactive_reason [ none ↦ some dissolved | some r ↦ some r ]

unfoldable pub chat_inactive_reason : MembersDb → String → Option ChatInactiveReason
chat_inactive_reason db chat_id =
    if chat_id == ""
    then none
    else reason_of
        (select_first (λ c. c.chat_id == chat_id && not (is_null c.dissolved_at)) db.chats)

-- A member who is seen without a roster; `present` of a known one stays.
unfoldable pub record_chat_member : MembersDb → MemberRef → String → MembersDb
record_chat_member db m chat_id =
    if chat_id == "" || (m.open_id == "" || m.name == "") then db else record db {
      chat_members =
          if any (is_member chat_id m.open_id) db.chat_members
          then update (is_member chat_id m.open_id)
              (λ r. record r { name = m.name; last_seen = db.unixepoch }) db.chat_members
          else db.chat_members ++ new_member chat_id m db.unixepoch ∷ [];
    }
