-- ===== src/Store/Messages/Windows.antt =====
-- The windows of messages that core/store/messages.ts gives to the model.
use polis_game.Base.{
  ℕ, ◌≤◌, ◌≡◌, ◌≢◌, ◌↔◌, refl, sym, ap, String, ◌==◌, eq_iff, true, false, ◌&&◌, Option, none, some,
  List, [], ◌∷◌, keep, All, arith, Bool-cases, inl, inr,
}
use mathlib.Core.List.{reverse, reverse-reverse}
use polis_game.Base.Order.Newest.{NewestOf, newest, newest-NewestOf}
use polis_game.Store.Messages.{
  MessageRow, MessagesDb, equals, is_not, in_thread, since, get_thread_context,
  get_messages_by_user,
}

abbrev pub time : MessageRow → ℕ
time m = m.create_time

-- The rows of a window stand from the oldest on; backwards, they are the newest `n` of `from`.
abbrev pub IsWindow : ℕ → (from window : List MessageRow) → Type 0
IsWindow n from window = NewestOf time n from (reverse window)

reversed-IsWindow :
    (n : ℕ) (from : List MessageRow) → IsWindow n from (reverse (newest time n from))
reversed-IsWindow n from = rw (reverse-reverse (newest time n from)) (newest-NewestOf time n from)

-- A message of the thread that is not deleted and is not the one excluded.
abbrev pub BelongsTo : String → Option String → MessageRow → Type 0
BelongsTo thread exclude m =
    (m.thread_id ≡ some thread) × (m.deleted ≡ false) × (exclude ≢ some m.message_id)

equals_iff : (o : Option String) (t : String) → (equals o t ≡ true) ↔ (o ≡ some t)
equals_iff none t = (λ h. cc, λ e. cc)
equals_iff (some s) t = (λ h. ap some ((eq_iff s t).0 h), λ e. (eq_iff s t).1 (ground (arith, e)))

is_not_iff : (o : Option String) (t : String) → (is_not o t ≡ true) ↔ (o ≢ some t)
is_not_iff none t = (λ h e. cc, λ h. refl)
is_not_iff (some s) t = (
  (λ h e. ground (arith, h, e, eq_iff t s)),
  (λ h. elim (Bool-cases (t == s)) [
    | inl same ↦ absurd (h (ap some (sym ((eq_iff t s).0 same))))
    | inr other ↦ rw other
  ]),
)

in_thread_iff :
    (thread : String) (exclude : Option String) (m : MessageRow)
    → (in_thread thread exclude m ≡ true) ↔ BelongsTo thread exclude m
in_thread_iff thread exclude m = (
  (λ h. (
    (equals_iff m.thread_id thread).0 (ground (arith, h)),
    ground (arith, h),
    (is_not_iff exclude m.message_id).0 (ground (arith, h)),
  )),
  (λ b. rw ((equals_iff m.thread_id thread).1 b.0, b.1, (is_not_iff exclude m.message_id).1 b.2)),
)

-- The context of a named thread lists, from the oldest on, the newest `limit` of all rows that belong
-- to the thread, are not deleted and are not the excluded one.
pub get_thread_context-IsWindow :
    (db : MessagesDb) (thread : String) (limit : ℕ) (exclude : Option String)
    → thread ≢ ""
    → ((m : MessageRow) → (in_thread thread exclude m ≡ true) ↔ BelongsTo thread exclude m)
      × IsWindow limit
          (keep (in_thread thread exclude) db.messages)
          (get_thread_context db thread limit exclude)
unfolding get_thread_context
get_thread_context-IsWindow db thread limit exclude named = (
  in_thread_iff thread exclude,
  elim (Bool-cases (thread == "")) [
    | inl blank ↦ absurd (named ((eq_iff thread "").0 blank))
    | inr full ↦ rw full (reversed-IsWindow limit (keep (in_thread thread exclude) db.messages))
  ],
)

-- `create_time` counts milliseconds. A bound in seconds that no row lies below filters nothing.
pub get_messages_by_user_in_seconds :
    (db : MessagesDb) (open_id : String) (limit since_unix : ℕ)
    → All (λ m. since_unix ≤ m.create_time) db.messages
    → get_messages_by_user db open_id limit (some since_unix)
      ≡ get_messages_by_user db open_id limit none
unfolding get_messages_by_user
get_messages_by_user_in_seconds db open_id limit since_unix all =
    ap (newest time limit) (unfiltered db.messages all)
  where
    unfiltered :
        (ms : List MessageRow)
        → All (λ m. since_unix ≤ m.create_time) ms
        → keep (λ m. (m.sender_open_id == open_id) && since (some since_unix) m.create_time) ms
          ≡ keep (λ m. (m.sender_open_id == open_id) && since none m.create_time) ms
    unfiltered [] h = refl
    unfiltered (m ∷ ms) h = ground (arith, unfiltered ms h.1, h.0)
