-- ===== src/Agent/Fanout.antt =====
-- core/outbound-guard.ts: the guard against sending one text to many chats. The texts stand
-- normalized, as `normalizeForGuard` gives them; times are milliseconds.
use polis_game.Base.{
  ℕ, ◌-◌, ◌≤◌, inl, inr, String, ◌==◌, Bool, true, false, Option, none, some, List, [], ◌∷◌, arith,
  any, length, leb, ltb, Bool-cases, if◌then◌else◌,
}

abbrev pub fanout_window_ms : ℕ
fanout_window_ms = 120000

abbrev pub fanout_max_chats : ℕ
fanout_max_chats = 3

pub record FanoutRecord : Type 0 where
  pub chats : List String
  pub first : ℕ

abbrev pub FanoutState : Type 0
FanoutState = List (String × FanoutRecord)

abbrev pub lookup : String → FanoutState → Option FanoutRecord
lookup key [] = none
lookup key ((k, r) ∷ s) = if k == key then some r else lookup key s

abbrev pub store : String → FanoutRecord → FanoutState → FanoutState
store key r [] = (key, r) ∷ []
store key r ((k, q) ∷ s) = if k == key then (key, r) ∷ s else (k, q) ∷ store key r s

abbrev pub flood_at : FanoutState → String → String → ℕ → Option FanoutRecord → FanoutState × Bool
flood_at state key chat_id now none =
    (store key (record { chats = chat_id ∷ []; first = now }) state, false)
flood_at state key chat_id now (some rec) =
    if ltb fanout_window_ms (now - rec.first)
    then (store key (record { chats = chat_id ∷ []; first = now }) state, false)
    else if any (λ c. c == chat_id) rec.chats
    then (state, false)
    else if leb fanout_max_chats (length rec.chats)
    then (state, true)
    else (store key (record rec { chats = chat_id ∷ rec.chats }) state, false)

-- The new state, and whether the send is blocked.
unfoldable pub is_fanout_flood :
    FanoutState → (key chat_id : String) → (now : ℕ) → FanoutState × Bool
is_fanout_flood state key chat_id now =
    if key == "" then (state, false) else flood_at state key chat_id now (lookup key state)

-- No record holds more than three chats.
abbrev pub IsBounded : FanoutState → Type 0
IsBounded [] = Unit
IsBounded ((_, r) ∷ s) = (length r.chats ≤ fanout_max_chats) × IsBounded s

store-IsBounded :
    (key : String) (r : FanoutRecord) (s : FanoutState)
    → length r.chats ≤ fanout_max_chats
    → IsBounded s
    → IsBounded (store key r s)
store-IsBounded key r [] h b = (h, tt)
store-IsBounded key r ((k, q) ∷ s) h b = ground (arith, h, b, store-IsBounded key r s h b.1)

flood_at-IsBounded :
    (state : FanoutState) (key chat_id : String) (now : ℕ) (found : Option FanoutRecord)
    → IsBounded state
    → IsBounded (flood_at state key chat_id now found).0
flood_at-IsBounded state key chat_id now none b =
    store-IsBounded key (record { chats = chat_id ∷ []; first = now }) state (omega arith) b
flood_at-IsBounded state key chat_id now (some rec) b = ground (
  arith,
  b,
  store-IsBounded key (record { chats = chat_id ∷ []; first = now }) state,
  store-IsBounded key (record rec { chats = chat_id ∷ rec.chats }) state,
)

-- If no text's record holds more than three chats, none does after a call of the guard.
pub is_fanout_flood-IsBounded :
    (state : FanoutState) (key chat_id : String) (now : ℕ)
    → IsBounded state
    → IsBounded (is_fanout_flood state key chat_id now).0
unfolding is_fanout_flood
is_fanout_flood-IsBounded state key chat_id now b = elim (Bool-cases (key == "")) [
  | inl empty ↦ rw empty b
  | inr text ↦ rw text (flood_at-IsBounded state key chat_id now (lookup key state) b)
]
