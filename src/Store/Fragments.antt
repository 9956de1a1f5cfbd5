-- ===== src/Store/Fragments.antt =====
-- core/store/fragments.ts: the pool of history fragments, deduplicated by their normalised content.
-- A content is a list of code points. `toLowerCase` is an argument, and so are the code points that are
-- punctuation or symbols (`\p{P}`, `\p{S}`) and the row that
-- `ORDER BY RANDOM()` puts first. The counters of ratings, which nothing here reads, are left out.
use polis_game.Base.{
  ℕ, suc, ◌+◌, ◌%◌, ◌≡◌, refl, sym, ap, ◌∙◌, String, ◌==◌, Bool, true, false, not, ◌&&◌, ◌||◌,
  Option, none, some, List, [], ◌∷◌, ◌++◌, All, All-append, any, first, keep, length, arith, eqb,
  eqb_iff, Bool-cases, Option-cases, inl, inr, if◌then◌else◌,
}
use polis_game.Base.Order.{sort_by, limit_to}
use polis_game.Base.Order.Newest.{newer, newest}
use polis_game.Base.Rows.{select_first, update, row_count}
use polis_game.Base.Texts.{Text, same_text, same_text_iff, is_space, trim}
use polis_game.Store.Batch.{drop}
use polis_game.Store.Like.{Ilike, search_pattern}
pub mod Dedup

pub data FragmentStatus : Type 0 where
  active archived : FragmentStatus

pub record MemoryFragment : Type 0 where
  pub id : ℕ
  pub content : Text
  pub content_norm : Text
  pub source_url : String
  pub source_note : String
  pub category : String
  pub status : FragmentStatus
  pub added_by : String
  pub updated_at : ℕ

pub record FragmentsDb : Type 0 where
  pub rows : List MemoryFragment
  pub next_id : ℕ

pub record FragmentInput : Type 0 where
  pub content : Text
  pub source_url : String
  pub source_note : String
  pub category : String
  pub added_by : String

module _ (lower : Text → Text) (is_mark : ℕ → Bool) where
  abbrev pub kept_in_norm : ℕ → Bool
  kept_in_norm c = not (is_space c || is_mark c)

  unfoldable pub normalize_fragment : Text → Text
  normalize_fragment text = keep kept_in_norm (lower (trim text))

  abbrev pub has_norm : Text → MemoryFragment → Bool
  has_norm norm r = same_text r.content_norm norm

  abbrev pub new_row : (now : ℕ) → ℕ → FragmentInput → MemoryFragment
  new_row now id input = record {
    id = id;
    content = trim input.content;
    content_norm = normalize_fragment (trim input.content);
    source_url = input.source_url;
    source_note = input.source_note;
    category = input.category;
    status = active;
    added_by = input.added_by;
    updated_at = now;
  }

  -- The row of the second statement, after a conflict.
  abbrev pub id_of : Option MemoryFragment → ℕ
  id_of none = 0
  id_of (some r) = r.id

  -- The database, `inserted` and `id`.
  unfoldable pub insert_fragment :
      (now : ℕ) → FragmentInput → FragmentsDb → FragmentsDb × (Bool × ℕ)
  unfolding normalize_fragment
  insert_fragment now input db =
      let norm = normalize_fragment (trim input.content) in
      if any (has_norm norm) db.rows
      then (db, (false, id_of (select_first (has_norm norm) db.rows)))
      else (
        record { rows = db.rows ++ new_row now db.next_id input ∷ []; next_id = suc db.next_id },
        (true, db.next_id),
      )

  unfoldable pub find_fragment_by_norm : Text → FragmentsDb → Option MemoryFragment
  find_fragment_by_norm norm db = select_first (has_norm norm) db.rows

abbrev pub is_active : MemoryFragment → Bool
is_active r = elim r.status [ active ↦ true | archived ↦ false ]

-- `id = $1 AND status = 'active'`
abbrev pub is_active_with : ℕ → MemoryFragment → Bool
is_active_with id r = eqb r.id id && is_active r

abbrev pub is_some_row : ℕ → Bool
is_some_row n = not (eqb n 0)

unfoldable pub archive_fragment : (now : ℕ) → ℕ → FragmentsDb → FragmentsDb × Bool
archive_fragment now id db = (
  record db {
    rows =
        update (is_active_with id) (λ r. record r { status = archived; updated_at = now }) db.rows;
  },
  is_some_row (row_count (is_active_with id) db.rows),
)

abbrev pub in_category : Option String → MemoryFragment → Bool
in_category none r = true
in_category (some c) r = if c == "" then true else r.category == c

abbrev pub at_random : ℕ → List MemoryFragment → Option MemoryFragment
at_random draw [] = none
at_random draw (r ∷ rs) = first (drop (draw % length (r ∷ rs)) (r ∷ rs))

unfoldable pub get_random_fragment :
    (draw : ℕ) → Option String → FragmentsDb → Option MemoryFragment
get_random_fragment draw category db =
    at_random draw (keep (λ r. is_active r && in_category category r) db.rows)

unfoldable pub get_fragment_by_id : ℕ → FragmentsDb → Option MemoryFragment
get_fragment_by_id id db = select_first (λ r. eqb r.id id) db.rows

abbrev pub has_status : Option FragmentStatus → MemoryFragment → Bool
has_status none r = true
has_status (some active) r = is_active r
has_status (some archived) r = not (is_active r)

-- The newest first; the limit is 50 and the offset 0 where the caller gives none.
unfoldable pub list_fragments :
    (limit offset : ℕ) → Option FragmentStatus → Option String → FragmentsDb → List MemoryFragment
list_fragments limit offset status category db = limit_to limit (
    drop offset (
      sort_by (newer (λ (r : MemoryFragment). r.id))
        (keep (λ r. has_status status r && in_category category r) db.rows)))

unfoldable pub search_fragments :
    Ilike → (query : Text) → (limit : ℕ) → FragmentsDb → List MemoryFragment
search_fragments sql query limit db =
    newest (λ r. r.id) limit (keep (λ r. sql.ilike (search_pattern (trim query)) r.content) db.rows)

unfoldable pub count_fragments : Option FragmentStatus → FragmentsDb → ℕ
count_fragments status db = row_count (has_status status) db.rows
