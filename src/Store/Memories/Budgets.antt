-- ===== src/Store/Memories/Budgets.antt =====
-- What `getFilteredMemories` of core/store/memory.ts lets through.
use polis_game.Base.{
  ℕ, ◌+◌, ◌≤◌, ◌≡◌, String, ◌==◌, Bool, true, not, ◌&&◌, List, [], ◌∷◌, any, keep, length, ltb, All,
  All-imp, All-keep, All-of-keep, arith, Bool-cases, inl, inr, if◌then◌else◌,
}
use polis_game.Base.Order.Newest.{All-sort_by}
use polis_game.Agent.MemoryPolicy.{
  MemoryItem, PolicyContext, IsReadable, filter_by_policy, filter_by_policy-All, may_read,
}
use polis_game.Store.Memories.{
  MemoriesDb, is_live, is_user_scoped, is_empty_list, within_budgets, fetched,
  get_filtered_memories,
}

-- The characters of the items in one of the two scopes.
abbrev pub chars_of : (MemoryItem → Bool) → List MemoryItem → ℕ
chars_of p [] = 0
chars_of p (m ∷ ms) = if p m then length m.content + chars_of p ms else chars_of p ms

module _ (ctx : PolicyContext) (group_limit user_limit : ℕ) where
  abbrev user_chars : List MemoryItem → ℕ
  user_chars = chars_of (is_user_scoped ctx)

  abbrev group_chars : List MemoryItem → ℕ
  group_chars = chars_of (λ m. not (is_user_scoped ctx m))

  abbrev wb : List MemoryItem → ℕ → ℕ → List MemoryItem
  wb = within_budgets ctx group_limit user_limit

  within_budgets-sums :
      (ms : List MemoryItem) (group user : ℕ)
      → group ≤ group_limit
      → user ≤ user_limit
      → (group + group_chars (wb ms group user) ≤ group_limit)
        × (user + user_chars (wb ms group user) ≤ user_limit)
  within_budgets-sums [] group user g u = (omega arith, omega arith)
  within_budgets-sums (m ∷ ms) group user g u =
      let n = length m.content in
      let skipped = within_budgets-sums ms group user g u in
      elim (Bool-cases (is_user_scoped ctx m)) [
        | inl own ↦ elim (Bool-cases (ltb user_limit (user + n))) [
          | inl over ↦ rw (own, over) skipped
          | inr fits ↦
              let rest = within_budgets-sums ms group (user + n) g (ground (arith, fits)) in
              rw (own, fits, own) (omega (arith, rest.0), omega (arith, rest.1))
        ]
        | inr shared ↦ elim (Bool-cases (ltb group_limit (group + n))) [
          | inl over ↦ rw (shared, over) skipped
          | inr fits ↦
              let rest = within_budgets-sums ms (group + n) user (ground (arith, fits)) u in
              rw (shared, fits, shared) (omega (arith, rest.0), omega (arith, rest.1))
        ]
      ]

  All-within_budgets :
      (P : MemoryItem → Type 0) (ms : List MemoryItem) (group user : ℕ)
      → All P ms
      → All P (wb ms group user)
  All-within_budgets P [] group user h = tt
  All-within_budgets P (m ∷ ms) group user h =
      let n = length m.content in
      let skipped = All-within_budgets P ms group user h.1 in
      elim (Bool-cases (is_user_scoped ctx m)) [
        | inl own ↦ elim (Bool-cases (ltb user_limit (user + n))) [
          | inl over ↦ rw (own, over) skipped
          | inr fits ↦ rw (own, fits) (h.0, All-within_budgets P ms group (user + n) h.1)
        ]
        | inr shared ↦ elim (Bool-cases (ltb group_limit (group + n))) [
          | inl over ↦ rw (shared, over) skipped
          | inr fits ↦ rw (shared, fits) (h.0, All-within_budgets P ms (group + n) user h.1)
        ]
      ]

  abbrev pub IsLive : ℕ → MemoryItem → Type 0
  IsLive now m = is_live now m.expires_at ≡ true

  fetched-IsLive :
      (now : ℕ) (namespaces : List String) (db : MemoriesDb)
      → All (IsLive now) (fetched now namespaces db)
  fetched-IsLive now namespaces db =
      let wanted =
        λ (m : MemoryItem). any (λ n. n == m.namespace) namespaces && is_live now m.expires_at in
      All-sort_by (λ (m : MemoryItem). m.updated_at) (IsLive now) (keep wanted db.items)
        (All-imp _ _ (λ m h. ground (arith, h)) (keep wanted db.items) (All-keep wanted db.items))

  -- The memories handed to the model are all the caller's to read and not expired; the contents of
  -- those in a namespace of the caller keep to the one budget, and the others to the other.
  pub get_filtered_memories_lem :
      (now : ℕ) (namespaces : List String) (db : MemoriesDb)
      → let ms = get_filtered_memories now ctx namespaces group_limit user_limit db in
        All (IsReadable ctx) ms
        × All (IsLive now) ms
        × (group_chars ms ≤ group_limit)
        × (user_chars ms ≤ user_limit)
  unfolding get_filtered_memories filter_by_policy
  get_filtered_memories_lem now namespaces db = elim (Bool-cases (is_empty_list namespaces)) [
    | inl nothing ↦ rw nothing (tt, tt, omega arith, omega arith)
    | inr some_names ↦
        let items = fetched now namespaces db in
        let allowed = filter_by_policy items ctx in
        let sums = within_budgets-sums allowed 0 0 (omega arith) (omega arith) in
        rw some_names (
          All-within_budgets (IsReadable ctx) allowed 0 0 (filter_by_policy-All items ctx),
          All-within_budgets (IsLive now) allowed 0 0
              (All-of-keep (IsLive now) (may_read ctx) items (fetched-IsLive now namespaces db)),
          omega (arith, sums.0),
          omega (arith, sums.1),
        )
  ]
