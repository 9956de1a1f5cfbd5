-- ===== src/Store/Memories/Keys.antt =====
-- Memories by key (core/store/memory.ts): what is written under a key is read back.
use polis_game.Base.{
  ℕ, ◌≤◌, ◌≡◌, refl, sym, ap, ◌∙◌, String, eq_refl, Bool, true, ◌&&◌, none, some, List, [], ◌∷◌,
  ◌++◌, eqb, eqb_iff, arith, Bool-cases, Option-cases, inl, inr,
}
use polis_game.Base.Rows.{select_first, update, row_count}
use polis_game.Agent.MemoryPolicy.{MemoryItem}
use polis_game.Store.Memories.{
  MemoriesDb, InsertMemoryInput, item_of, insert_memory, stands_at, refreshed, write_over,
  upsert_memory, is_live, get_memory_by_key,
}

-- The item says what the input said, from `now` on.
abbrev pub Says : ℕ → InsertMemoryInput → ℕ → MemoryItem → Type 0
Says now input id m =
    (m.content ≡ input.content)
    × (m.expires_at ≡ input.expires_at)
    × (m.updated_at ≡ now)
    × (m.id ≡ id)

some-inj : {a b : MemoryItem} → some a ≡ some b → a ≡ b
some-inj e = cc

module _ (now later : ℕ) (namespace key : String) (input : InsertMemoryInput) where
  abbrev at : MemoryItem → Bool
  at = stands_at namespace key

  abbrev live_at : MemoryItem → Bool
  live_at m = at m && is_live later m.expires_at

  -- The first item at the key is the one that is refreshed, and it is found.
  refreshed-found :
      (items : List MemoryItem) (old : MemoryItem)
      → is_live later input.expires_at ≡ true
      → select_first at items ≡ some old
      → select_first live_at (update (λ m. eqb m.id old.id) (refreshed now input) items)
        ≡ some (refreshed now input old)
  refreshed-found [] old live found = cc
  refreshed-found (m ∷ ms) old live found = elim (Bool-cases (at m)) [
    | inl here ↦
        let same : m ≡ old = some-inj (rw here at found) in
        let there : at old ≡ true = ap at (sym same) ∙ here in
        rw (same, (eqb_iff old.id old.id).1 refl, there, live)
    | inr away ↦
        let rest = refreshed-found ms old live (rw away at found) in
        elim (Bool-cases (eqb m.id old.id)) [
          | inl hit ↦ rw (hit, away) rest
          | inr miss ↦ rw (miss, away) rest
        ]
  ]

  appended-found :
      (items : List MemoryItem) (m : MemoryItem)
      → select_first at items ≡ none
      → live_at m ≡ true
      → select_first live_at (items ++ m ∷ []) ≡ some m
  appended-found [] m missing live = rw live
  appended-found (i ∷ items) m missing live = elim (Bool-cases (at i)) [
    | inl here ↦ ground (arith, missing, here)
    | inr away ↦ rw away (appended-found items m (rw away at missing) live)
  ]

  -- At most one row stands at the key and is live.
  row_count-update :
      (id : ℕ) (items : List MemoryItem)
      → row_count live_at (update (λ m. eqb m.id id) (refreshed now input) items)
        ≤ row_count at items
  row_count-update id [] = omega arith
  row_count-update id (m ∷ ms) = ground (arith, row_count-update id ms)

  row_count-append :
      (items : List MemoryItem) (m : MemoryItem)
      → select_first at items ≡ none
      → row_count live_at (items ++ m ∷ []) ≤ 1
  row_count-append [] m missing = ground arith
  row_count-append (i ∷ items) m missing = elim (Bool-cases (at i)) [
    | inl here ↦ ground (arith, missing, here)
    | inr away ↦ rw away (row_count-append items m (rw away at missing))
  ]

  write_over-alone :
      (db : MemoriesDb)
      → row_count at db.items ≤ 1
      → row_count live_at (write_over now input db (select_first at db.items)).0.items ≤ 1
  unfolding insert_memory
  write_over-alone db alone = elim (Option-cases (select_first at db.items)) [
    | inl missing ↦ rw missing (row_count-append db.items (item_of now db.next_id input) missing)
    | inr (old, found) ↦
        (let fewer = row_count-update old.id db.items in rw found (omega (arith, fewer, alone)))
  ]

  write_over-found :
      (db : MemoriesDb)
      → input.key ≡ some key
      → input.namespace ≡ namespace
      → is_live later input.expires_at ≡ true
      → let result = write_over now input db (select_first at db.items) in
        (m : MemoryItem) × (select_first live_at result.0.items ≡ some m)
        × Says now input result.1 m
  unfolding insert_memory
  write_over-found db named placed live = elim (Option-cases (select_first at db.items)) [
    | inl missing ↦
        let m : MemoryItem = item_of now db.next_id input in
        let here : live_at m ≡ true = rw (named, placed, eq_refl namespace, eq_refl key, live) in
        rw missing (m, appended-found db.items m missing here, (refl, refl, refl, refl))
    | inr (old, found) ↦
        rw found (
          refreshed now input old,
          refreshed-found db.items old live found,
          (refl, refl, refl, refl),
        )
  ]

-- Where at most one row stands at a key, what is written under it is read back at any time before it
-- expires: the content and expiry given, under the id that the write returned. No second row is
-- live at the key then, so that the read does not depend on the order of the rows.
pub upsert_memory-get :
    (now later : ℕ) (key : String) (input : InsertMemoryInput) (db : MemoriesDb)
    → row_count (stands_at input.namespace key) db.items ≤ 1
    → is_live later input.expires_at ≡ true
    → let result = upsert_memory now key input db in
      (m : MemoryItem) × (get_memory_by_key later input.namespace key result.0 ≡ some m)
      × Says now input result.1 m
      × (row_count
            (λ r. stands_at input.namespace key r && is_live later r.expires_at)
            result.0.items
          ≤ 1)
unfolding upsert_memory get_memory_by_key
upsert_memory-get now later key input db alone live =
    let named = record input { key = some key } in
    let (m, found, says) = write_over-found now later input.namespace key named db refl refl live in
    (m, found, says, write_over-alone now later input.namespace key named db alone)
