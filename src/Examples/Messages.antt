-- ===== src/Examples/Messages.antt =====
-- Messages, memories, fragments and searches at concrete rows.
use polis_game.Base.{
  ℕ, ◌≤◌, ◌≡◌, ◌≢◌, ◌↔◌, refl, String, ◌==◌, eq_iff, Bool, true, false, not, ◌&&◌, ◌||◌, none, some,
  [], ◌∷◌, All, keep, map, arith, eqb, if◌then◌else◌,
}
use polis_game.Base.Rows.{row_count}
use polis_game.Base.Texts.{Text, codes, lower, to_lower_case, includes}
use polis_game.Commands.Words.{is_empty}
use polis_game.Agent.MemoryPolicy.{MemoryItem, PolicyContext, IsReadable, auto}
use polis_game.Store.Messages.{
  MessageRow, MessagesDb, mark_message_handled, was_message_handled,
  unhandled_polled_messages_since, get_thread_context, in_thread,
}
use polis_game.Store.Messages.Handled.{mark_message_handled_lem}
use polis_game.Store.Messages.Windows.{BelongsTo, IsWindow, get_thread_context-IsWindow}
use polis_game.Store.Memories.{
  MemoriesDb, InsertMemoryInput, is_user_scoped, get_filtered_memories, upsert_memory,
  get_memory_by_key, stands_at, is_live,
}
use polis_game.Store.Memories.Budgets.{IsLive, chars_of, get_filtered_memories_lem}
use polis_game.Store.Memories.Keys.{Says, upsert_memory-get}
use polis_game.Store.Fragments.{FragmentsDb, FragmentInput, insert_fragment}
use polis_game.Store.Fragments.Dedup.{IsDeduped, letters, insert_fragment_lem}
use polis_game.Store.Like.{
  Ilike, is_wildcard, search_pattern, escape_like_pattern, search_pattern-includes,
}

abbrev question : MessageRow
question = record {
  message_id = "om_1";
  chat_id = "oc_1";
  sender_open_id = "ou_ann";
  sender_name = [];
  msg_type = "text";
  text = codes "when?";
  thread_id = some "omt_1";
  root_id = none;
  create_time = 1_700_000_000_000;
  deleted = false;
  raw = none;
}

abbrev answer : MessageRow
answer = record question {
  message_id = "om_2";
  text = codes "today";
  create_time = 1_700_000_060_000;
}

abbrev db : MessagesDb
db = record {
  chats = "oc_1" ∷ [];
  messages = answer ∷ question ∷ [];
  handled = [];
  outbox_messages = [];
  outbox_handled = [];
}

nonempty : (s : String) → (s == "") ≡ false → s ≢ ""
nonempty s full e = let blank : (s == "") ≡ true = (eq_iff s "").1 e in ground (arith, full, blank)

mark_message_handled_example :
    (was_message_handled (mark_message_handled false "om_1" db) "om_1" ≡ true)
    × All
        (λ m. m.message_id ≢ "om_1")
        (unhandled_polled_messages_since (mark_message_handled false "om_1" db) 0 50)
mark_message_handled_example = mark_message_handled_lem "om_1" db 0 50 (nonempty "om_1" refl)

get_thread_context-IsWindow_example :
    ((m : MessageRow) → (in_thread "omt_1" none m ≡ true) ↔ BelongsTo "omt_1" none m)
    × IsWindow 15
        (keep (in_thread "omt_1" none) db.messages)
        (get_thread_context db "omt_1" 15 none)
get_thread_context-IsWindow_example =
    get_thread_context-IsWindow db "omt_1" 15 none (nonempty "omt_1" refl)

abbrev ann : PolicyContext
ann = record { chat_id = "oc_1"; user_open_id = "ou_ann"; is_admin = false }

abbrev summary : InsertMemoryInput
summary = record {
  namespace = "user:ou_ann";
  key = none;
  content = codes "likes tea";
  visibility = none;
  source = some auto;
  expires_at = some 90;
}

abbrev memories : MemoriesDb
memories = record { items = []; next_id = 1 }

upsert_memory-get_example :
    (m : MemoryItem) × (get_memory_by_key 60 "user:ou_ann" "auto-summary"
        (upsert_memory 50 "auto-summary" summary memories).0
      ≡ some m)
    × Says 50 summary (upsert_memory 50 "auto-summary" summary memories).1 m
    × (row_count
          (λ r. stands_at "user:ou_ann" "auto-summary" r && is_live 60 r.expires_at)
          (upsert_memory 50 "auto-summary" summary memories).0.items
        ≤ 1)
upsert_memory-get_example =
    upsert_memory-get 50 60 "auto-summary" summary memories (omega arith) refl

abbrev remembered : MemoriesDb
remembered = (upsert_memory 50 "auto-summary" summary memories).0

get_filtered_memories_example :
    let ms = get_filtered_memories 60 ann ("user:ou_ann" ∷ []) 500 300 remembered in
    All (IsReadable ann) ms
    × All (IsLive ann 500 300 60) ms
    × (chars_of (λ m. not (is_user_scoped ann m)) ms ≤ 500)
    × (chars_of (is_user_scoped ann) ms ≤ 300)
get_filtered_memories_example =
    get_filtered_memories_lem ann 500 300 60 ("user:ou_ann" ∷ []) remembered

abbrev is_comma : ℕ → Bool
is_comma c = eqb c 44

abbrev fragment : FragmentInput
fragment = record {
  content = codes "Hi, Bob";
  source_url = "";
  source_note = "";
  category = "";
  added_by = "";
}

abbrev pool : FragmentsDb
pool = record { rows = []; next_id = 1 }

abbrev respaced : FragmentInput
respaced = record fragment { content = codes "hi,bob " }

same_letters : letters to_lower_case is_comma respaced ≡ letters to_lower_case is_comma fragment
same_letters = refl

insert_fragment_example :
    IsDeduped (insert_fragment to_lower_case is_comma 5 fragment pool).0.rows
    × (insert_fragment to_lower_case is_comma 6 respaced
          (insert_fragment to_lower_case is_comma 5 fragment pool).0
        ≡ (
          (insert_fragment to_lower_case is_comma 5 fragment pool).0,
          (false, (insert_fragment to_lower_case is_comma 5 fragment pool).1.1),
        ))
insert_fragment_example =
    insert_fragment_lem to_lower_case is_comma 5 6 fragment respaced pool tt same_letters

-- A matcher as the database has it, over Latin letters.
abbrev some_rest : (Text → Bool) → Text → Bool
some_rest p [] = p []
some_rest p (c ∷ t) = p (c ∷ t) || some_rest p t

abbrev then_matches : (ℕ → Bool) → (Text → Bool) → Text → Bool
then_matches fits p [] = false
then_matches fits p (c ∷ t) = fits c && p t

abbrev same_letter : ℕ → ℕ → Bool
same_letter d c = eqb (lower d) (lower c)

unfoldable matches : Text → Text → Bool
matches [] t = is_empty t
matches (p ∷ []) t =
    if eqb p 37
    then some_rest (matches []) t
    else then_matches (λ c. eqb p 95 || same_letter p c) (matches []) t
matches (p ∷ q ∷ ps) t =
    let plain = matches (q ∷ ps) in
    let quoted = matches ps in
    if eqb p 37
    then some_rest plain t
    else if eqb p 92
    then then_matches (same_letter q) quoted t
    else then_matches (λ c. eqb p 95 || same_letter p c) plain t

percent_lem :
    (p : Text) (c : ℕ) (t : Text)
    → matches (37 ∷ p) (c ∷ t) ≡ (matches p (c ∷ t) || matches (37 ∷ p) t)
unfolding matches
percent_lem [] c t = refl
percent_lem (q ∷ p) c t = refl

percent_end_lem : (p : Text) → matches (37 ∷ p) [] ≡ matches p []
unfolding matches
percent_end_lem [] = refl
percent_end_lem (q ∷ p) = refl

plain_lem :
    (d : ℕ) (p : Text) (c : ℕ) (t : Text)
    → is_wildcard d ≡ false
    → matches (d ∷ p) (c ∷ t) ≡ (same_letter d c && matches p t)
unfolding matches
plain_lem d [] c t h = ground (arith, h)
plain_lem d (q ∷ p) c t h = ground (arith, h)

plain_end_lem : (d : ℕ) (p : Text) → is_wildcard d ≡ false → matches (d ∷ p) [] ≡ false
unfolding matches
plain_end_lem d [] h = ground (arith, h)
plain_end_lem d (q ∷ p) h = ground (arith, h)

escaped_lem :
    (d : ℕ) (p : Text) (c : ℕ) (t : Text)
    → matches (92 ∷ d ∷ p) (c ∷ t) ≡ (same_letter d c && matches p t)
unfolding matches
escaped_lem d p c t = refl

escaped_end_lem : (d : ℕ) (p : Text) → matches (92 ∷ d ∷ p) [] ≡ false
unfolding matches
escaped_end_lem d p = refl

at_end_lem : matches [] [] ≡ true
unfolding matches
at_end_lem = refl

left_over_lem : (c : ℕ) (t : Text) → matches [] (c ∷ t) ≡ false
unfolding matches
left_over_lem c t = refl

abbrev latin : Ilike
latin = record {
  fold = lower;
  ilike = matches;
  at_end = at_end_lem;
  left_over = left_over_lem;
  percent_end = percent_end_lem;
  percent = percent_lem;
  escaped_end = escaped_end_lem;
  escaped = escaped_lem;
  plain_end = plain_end_lem;
  plain = plain_lem;
}

found : matches (search_pattern (codes "50%")) (codes "Only 50% off") ≡ true
unfolding matches search_pattern escape_like_pattern
found = refl

search_pattern-includes_example :
    matches (search_pattern (codes "50%")) (codes "Only 50 off")
    ≡ includes (map lower (codes "50%")) (map lower (codes "Only 50 off"))
search_pattern-includes_example = search_pattern-includes latin (codes "50%") (codes "Only 50 off")
