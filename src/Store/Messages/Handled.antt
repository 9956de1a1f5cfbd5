-- ===== src/Store/Messages/Handled.antt =====
-- Capturing a message twice, and acting on one (core/store/messages.ts).
use polis_game.Base.{
  ℕ, ◌≡◌, ◌≢◌, String, ◌==◌, eq_iff, eq_refl, true, false, List, [], ◌∷◌, ◌++◌, keep, any, All,
  All-keep, All-imp, arith, Bool-cases, inl, inr,
}
use polis_game.Base.Order.Newest.{All-newest}
use polis_game.Store.Messages.{
  MessageRow, MessagesDb, has_message, add_key, insert_message, was_message_handled,
  mark_message_handled, is_unhandled, unhandled_polled_messages_since,
}

any-snoc : (k : String) (ks : List String) → any (λ i. i == k) (ks ++ k ∷ []) ≡ true
any-snoc k [] = ground (arith, eq_refl k)
any-snoc k (i ∷ ks) = ground (arith, any-snoc k ks)

any-add_key : (k : String) (ks : List String) → any (λ i. i == k) (add_key k ks) ≡ true
any-add_key k ks = elim (Bool-cases (any (λ i. i == k) ks)) [
  | inl known ↦ rw (known, known)
  | inr new ↦ rw (new, any-snoc k ks)
]

add_key_idem : (k : String) (ks : List String) → add_key k (add_key k ks) ≡ add_key k ks
add_key_idem k ks = rw (any-add_key k ks)

has-snoc : (m : MessageRow) (ms : List MessageRow) → has_message (ms ++ m ∷ []) m.message_id ≡ true
has-snoc m [] = ground (arith, eq_refl m.message_id)
has-snoc m (n ∷ ms) = ground (arith, has-snoc m ms)

-- Capturing the same message a second time, with the database there, changes nothing and says so.
pub insert_message_again :
    (m : MessageRow) (db : MessagesDb)
    → let db1 = (insert_message false m db).0 in insert_message false m db1 ≡ (db1, false)
unfolding insert_message
insert_message_again m db = elim (Bool-cases (has_message db.messages m.message_id)) [
  | inl known ↦ rw (known, add_key_idem m.chat_id db.chats, known)
  | inr new ↦ rw (new, has-snoc m db.messages, add_key_idem m.chat_id db.chats)
]

not-handled :
    (id : String) (handled : List String) (since_ms : ℕ) (m : MessageRow)
    → any (λ h. h == id) handled ≡ true
    → is_unhandled handled since_ms m ≡ true
    → m.message_id ≢ id
not-handled id handled since_ms m marked missed e =
    let known : any (λ h. h == m.message_id) handled ≡ true = rw e marked in
    ground (arith, known, missed)

-- Once a message is marked with the database there, it counts as handled, and however often the missed
-- messages are looked up, it is not among them.
pub mark_message_handled_lem :
    (id : String) (db : MessagesDb) (since_ms limit : ℕ)
    → id ≢ ""
    → let db1 = mark_message_handled false id db in
      (was_message_handled db1 id ≡ true)
      × All (λ m. m.message_id ≢ id) (unhandled_polled_messages_since db1 since_ms limit)
unfolding mark_message_handled was_message_handled unhandled_polled_messages_since
mark_message_handled_lem id db since_ms limit named = elim (Bool-cases (id == "")) [
  | inl blank ↦ absurd (named ((eq_iff id "").0 blank))
  | inr full ↦ rw full (
    any-add_key id db.handled,
    All-newest (λ (m : MessageRow). m.create_time) (λ (m : MessageRow). m.message_id ≢ id) limit
        (keep (is_unhandled (add_key id db.handled) since_ms) db.messages)
        (All-imp _ _
          (λ m. not-handled id (add_key id db.handled) since_ms m (any-add_key id db.handled))
          (keep (is_unhandled (add_key id db.handled) since_ms) db.messages)
          (All-keep (is_unhandled (add_key id db.handled) since_ms) db.messages)),
  )
]
