-- ===== src/Store/Memories.antt =====
-- core/store/memory.ts: the long-term memories, read through the policy and cut to a budget. Times are
-- arguments; items of equal time stand in the order of the table. A row keeps its place when it is
-- updated, where the database may move it. A content is its UTF-16 code units.
use polis_game.Base.{
  ℕ, suc, ◌+◌, ◌≡◌, String, ◌==◌, Bool, true, false, not, ◌&&◌, ◌||◌, Option, none, some, List, [],
  ◌∷◌, ◌++◌, keep, any, length, leb, ltb, eqb, if◌then◌else◌,
}
use polis_game.Base.Order.{sort_by}
use polis_game.Base.Order.Newest.{newer}
use polis_game.Base.Rows.{select_first, update, row_count}
use polis_game.Base.Texts.{Text, codes, starts_with}
use polis_game.Agent.MemoryPolicy.{
  MemoryItem, MemoryVisibility, MemorySource, PolicyContext, owner_only, manual, filter_by_policy,
  user_namespace, group_user_namespace,
}
pub mod Budgets
pub mod Keys

pub record MemoriesDb : Type 0 where
  pub items : List MemoryItem
  pub next_id : ℕ

pub record InsertMemoryInput : Type 0 where
  pub namespace : String
  pub key : Option String
  pub content : Text
  pub visibility : Option MemoryVisibility
  pub source : Option MemorySource
  pub expires_at : Option ℕ

-- `v ?? d`
abbrev pub value_or {ℓ} : {A : Type ℓ} → A → Option A → A
value_or d none = d
value_or d (some v) = v

abbrev pub item_of : (now : ℕ) → (id : ℕ) → InsertMemoryInput → MemoryItem
item_of now id input = record {
  id = id;
  namespace = input.namespace;
  key = input.key;
  content = input.content;
  visibility = value_or owner_only input.visibility;
  source = value_or manual input.source;
  updated_at = now;
  expires_at = input.expires_at;
}

unfoldable pub insert_memory : (now : ℕ) → InsertMemoryInput → MemoriesDb → MemoriesDb × ℕ
insert_memory now input db = (
  record { items = db.items ++ item_of now db.next_id input ∷ []; next_id = suc db.next_id },
  db.next_id,
)

abbrev pub same_key : Option String → String → Bool
same_key none k = false
same_key (some j) k = j == k

abbrev pub stands_at : String → String → MemoryItem → Bool
stands_at namespace key m = (m.namespace == namespace) && same_key m.key key

abbrev pub refreshed : (now : ℕ) → InsertMemoryInput → MemoryItem → MemoryItem
refreshed now input m = record m {
  content = input.content;
  visibility = value_or owner_only input.visibility;
  source = value_or manual input.source;
  expires_at = input.expires_at;
  updated_at = now;
}

abbrev pub write_over : ℕ → InsertMemoryInput → MemoriesDb → Option MemoryItem → MemoriesDb × ℕ
write_over now input db none = insert_memory now input db
write_over now input db (some old) =
    (record db { items = update (λ m. eqb m.id old.id) (refreshed now input) db.items }, old.id)

unfoldable pub upsert_memory :
    (now : ℕ) → (key : String) → InsertMemoryInput → MemoriesDb → MemoriesDb × ℕ
unfolding insert_memory
upsert_memory now key input db =
    write_over now (record input { key = some key }) db
      (select_first (stands_at input.namespace key) db.items)

-- `expires_at IS NULL OR expires_at > now`
abbrev pub is_live : ℕ → Option ℕ → Bool
is_live now none = true
is_live now (some t) = ltb now t

abbrev pub is_user_scoped : PolicyContext → MemoryItem → Bool
is_user_scoped ctx m =
    starts_with (codes (user_namespace ctx)) (codes m.namespace)
    || starts_with (codes (group_user_namespace ctx)) (codes m.namespace)

-- The loop over the allowed items, with the characters taken of either scope.
abbrev pub within_budgets :
    PolicyContext
    → (group_limit user_limit : ℕ) → List MemoryItem
    → (group user : ℕ) → List MemoryItem
within_budgets ctx group_limit user_limit [] group user = []
within_budgets ctx group_limit user_limit (m ∷ ms) group user =
    let n = length m.content in
    let skipped = within_budgets ctx group_limit user_limit ms group user in
    let as_user = m ∷ within_budgets ctx group_limit user_limit ms group (user + n) in
    let as_group = m ∷ within_budgets ctx group_limit user_limit ms (group + n) user in
    if is_user_scoped ctx m
    then (if ltb user_limit (user + n) then skipped else as_user)
    else if ltb group_limit (group + n)
    then skipped
    else as_group

abbrev pub is_empty_list : List String → Bool
is_empty_list [] = true
is_empty_list (_ ∷ _) = false

-- The rows of the statement: of the namespaces, not expired, the newest first.
abbrev pub fetched : (now : ℕ) → List String → MemoriesDb → List MemoryItem
fetched now namespaces db =
    sort_by (newer (λ (m : MemoryItem). m.updated_at))
      (keep (λ m. any (λ n. n == m.namespace) namespaces && is_live now m.expires_at) db.items)

unfoldable pub get_filtered_memories :
    (now : ℕ)
    → PolicyContext
    → (namespaces : List String) → (group_limit user_limit : ℕ) → MemoriesDb
    → List MemoryItem
get_filtered_memories now ctx namespaces group_limit user_limit db =
    if is_empty_list namespaces
    then []
    else within_budgets ctx group_limit user_limit
        (filter_by_policy (fetched now namespaces db) ctx) 0 0

unfoldable pub get_memory_by_key :
    (now : ℕ) → (namespace key : String) → MemoriesDb → Option MemoryItem
get_memory_by_key now namespace key db =
    select_first (λ m. stands_at namespace key m && is_live now m.expires_at) db.items

unfoldable pub delete_memory : ℕ → MemoriesDb → MemoriesDb × Bool
delete_memory id db = (
  record db { items = keep (λ m. not (eqb m.id id)) db.items },
  ltb 0 (row_count (λ (m : MemoryItem). eqb m.id id) db.items),
)

unfoldable pub delete_namespace : String → MemoriesDb → MemoriesDb × ℕ
delete_namespace namespace db = (
  record db { items = keep (λ m. not (m.namespace == namespace)) db.items },
  row_count (λ (m : MemoryItem). m.namespace == namespace) db.items,
)

unfoldable pub purge_expired_memories : (now : ℕ) → MemoriesDb → MemoriesDb × ℕ
purge_expired_memories now db = (
  record db { items = keep (λ m. is_live now m.expires_at) db.items },
  row_count (λ (m : MemoryItem). not (is_live now m.expires_at)) db.items,
)
