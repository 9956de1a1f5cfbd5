-- ===== src/Store/Messages.antt =====
-- core/store/messages.ts: the messages captured from chats, and which of them the bot has acted on.
-- Columns that no statement here reads are left out of a row. Rows of equal time stand in the order of
-- the table. Whether the circuit of the agent's database is open (`shouldDivertSoulWrites`) is an
-- argument; writes that are diverted then stand in lists of their own.
use polis_game.Base.{
  ℕ, ◌*◌, ◌≡◌, refl, String, ◌==◌, Bool, true, false, not, ◌&&◌, ◌||◌, Option, none, some, List, [],
  ◌∷◌, ◌++◌, keep, any, first, map, leb, ltb, if◌then◌else◌,
}
use mathlib.Core.List.{reverse}
use polis_game.Base.Order.{sort_by, limit_to}
use polis_game.Base.Order.Newest.{newest}
use polis_game.Base.Texts.{Text, trim}
use polis_game.Commands.Words.{is_empty}
use polis_game.Store.Like.{Ilike, search_pattern}
pub mod Handled
pub mod Windows

pub record MessageRow : Type 0 where
  pub message_id : String
  pub chat_id : String
  pub sender_open_id : String
  pub sender_name : Text
  pub msg_type : String
  pub text : Text
  pub thread_id : Option String
  pub root_id : Option String
  pub create_time : ℕ
  pub deleted : Bool
  pub raw : Option String

pub record MessagesDb : Type 0 where
  pub chats : List String
  pub messages : List MessageRow
  pub handled : List String
  pub outbox_messages : List MessageRow
  pub outbox_handled : List String

abbrev pub has_message : List MessageRow → String → Bool
has_message ms id = any (λ m. m.message_id == id) ms

-- `ON CONFLICT DO NOTHING`
abbrev pub add_key : String → List String → List String
add_key k ks = if any (λ i. i == k) ks then ks else ks ++ k ∷ []

unfoldable pub insert_message : (diverted : Bool) → MessageRow → MessagesDb → MessagesDb × Bool
insert_message true m db = (record db { outbox_messages = db.outbox_messages ++ m ∷ [] }, true)
insert_message false m db =
    let db1 = record db { chats = add_key m.chat_id db.chats } in
    if has_message db.messages m.message_id
    then (db1, false)
    else (record db1 { messages = db.messages ++ m ∷ [] }, true)

abbrev pub equals : Option String → String → Bool
equals none s = false
equals (some t) s = t == s

-- `(message_id <> $2 OR $2 IS NULL)`
abbrev pub is_not : Option String → String → Bool
is_not none id = true
is_not (some ex) id = not (id == ex)

abbrev pub since : Option ℕ → ℕ → Bool
since none t = true
since (some s) t = leb s t

unfoldable pub get_message_row : MessagesDb → String → Option MessageRow
get_message_row db id =
    if id == "" then none else first (keep (λ m. (m.message_id == id) && not m.deleted) db.messages)

abbrev pub in_thread : String → Option String → MessageRow → Bool
in_thread thread exclude m =
    equals m.thread_id thread && (not m.deleted && is_not exclude m.message_id)

-- The limit is 15 where the caller gives none.
unfoldable pub get_thread_context :
    MessagesDb → (thread : String) → (limit : ℕ) → (exclude : Option String) → List MessageRow
get_thread_context db thread limit exclude =
    if thread == ""
    then []
    else reverse (newest (λ m. m.create_time) limit (keep (in_thread thread exclude) db.messages))

abbrev pub in_chat : String → Option String → Option ℕ → MessageRow → Bool
in_chat chat exclude since_ms m =
    (m.chat_id == chat)
    && (not m.deleted && (is_not exclude m.message_id && since since_ms m.create_time))

-- The limit is 8 where the caller gives none.
unfoldable pub get_recent_chat_messages :
    MessagesDb
    → (chat : String) → (limit : ℕ) → (exclude : Option String) → Option ℕ
    → List MessageRow
get_recent_chat_messages db chat limit exclude since_ms =
    if chat == ""
    then []
    else reverse
        (newest (λ m. m.create_time) limit (keep (in_chat chat exclude since_ms) db.messages))

unfoldable pub was_message_handled : MessagesDb → String → Bool
was_message_handled db id = if id == "" then false else any (λ h. h == id) db.handled

unfoldable pub mark_message_handled : (diverted : Bool) → String → MessagesDb → MessagesDb
mark_message_handled diverted id db =
    if id == ""
    then db
    else if diverted
    then record db { outbox_handled = db.outbox_handled ++ id ∷ [] }
    else record db { handled = add_key id db.handled }

abbrev pub is_missing : Option String → Bool
is_missing none = true
is_missing (some s) = s == ""

abbrev pub is_unhandled : List String → ℕ → MessageRow → Bool
is_unhandled handled since_ms m =
    leb since_ms m.create_time
    && (not m.deleted && (is_missing m.raw && not (any (λ h. h == m.message_id) handled)))

unfoldable pub unhandled_polled_messages_since : MessagesDb → ℕ → (limit : ℕ) → List MessageRow
unhandled_polled_messages_since db since_ms limit =
    newest (λ m. m.create_time) limit (keep (is_unhandled db.handled since_ms) db.messages)

-- The keys of one of the two statements below `UNION ALL`, with their times.
abbrev pub keys_by : (MessageRow → Option String) → ℕ → List MessageRow → List (String × ℕ)
keys_by column since_ms [] = []
keys_by column since_ms (m ∷ ms) =
    let rest = keys_by column since_ms ms in
    elim (column m) [
      | none ↦ rest
      | some k ↦
          if not (k == "") && (leb since_ms m.create_time && not m.deleted)
          then (k, m.create_time) ∷ rest
          else rest
    ]

-- `GROUP BY key` with `MAX(t)`
abbrev pub group_in : String × ℕ → List (String × ℕ) → List (String × ℕ)
group_in e [] = e ∷ []
group_in e (g ∷ gs) =
    if g.0 == e.0 then (g.0, if ltb g.1 e.1 then e.1 else g.1) ∷ gs else g ∷ group_in e gs

abbrev pub grouped : List (String × ℕ) → List (String × ℕ) → List (String × ℕ)
grouped [] gs = gs
grouped (e ∷ es) gs = grouped es (group_in e gs)

unfoldable pub recent_thread_scan_keys_since : MessagesDb → ℕ → (limit : ℕ) → List String
recent_thread_scan_keys_since db since_ms limit =
    let entries =
      keys_by (λ m. m.thread_id) since_ms db.messages
      ++ keys_by (λ m. m.root_id) since_ms db.messages in
    map (λ (e : String × ℕ). e.0) (newest (λ (e : String × ℕ). e.1) limit (grouped entries []))

unfoldable pub messages_between : MessagesDb → (from_sec to_sec : ℕ) → List MessageRow
messages_between db from_sec to_sec =
    sort_by (λ a b. leb a.create_time b.create_time)
      (keep
        (λ m.
          leb (from_sec * 1000) m.create_time
          && (ltb m.create_time (to_sec * 1000) && not m.deleted))
        db.messages)

unfoldable pub get_messages_by_user :
    MessagesDb → (open_id : String) → (limit : ℕ) → (since_unix : Option ℕ) → List MessageRow
get_messages_by_user db open_id limit since_unix =
    newest (λ m. m.create_time) limit
      (keep (λ m. (m.sender_open_id == open_id) && since since_unix m.create_time) db.messages)

-- A blank query finds the newest messages.
unfoldable pub search_messages : Ilike → MessagesDb → (query : Text) → (limit : ℕ) → List MessageRow
search_messages sql db query limit =
    newest (λ m. m.create_time) limit
      (if is_empty (trim query)
        then db.messages
        else keep (λ m. sql.ilike (search_pattern (trim query)) m.text) db.messages)
