-- ===== src/Agent/MemoryPolicy.antt =====
-- core/memory-policy.ts: which memories a caller may read, and where new ones go.
use polis_game.Base.{
  ℕ, Option, ◌≡◌, ◌≢◌, ◌⊎◌, inl, inr, String, ◌==◌, eq_iff, Bool, true, false, ◌||◌, List, [], ◌∷◌,
  keep, any, All, arith, Bool-cases, if◌then◌else◌,
}
use Prim.Native.String.{◌++◌}
use polis_game.Base.Texts.{Text}

pub data MemoryVisibility : Type 0 where
  open_to_all admin_only owner_only : MemoryVisibility

pub data MemorySource : Type 0 where
  manual auto : MemorySource

-- A memory without its advisory sensitivity and the time of its creation, which nothing reads;
-- `open_to_all` stands for every visibility that is neither 'admin_only' nor 'private'.
pub record MemoryItem : Type 0 where
  pub id : ℕ
  pub namespace : String
  pub key : Option String
  pub content : Text
  pub visibility : MemoryVisibility
  pub source : MemorySource
  pub updated_at : ℕ
  pub expires_at : Option ℕ

pub record PolicyContext : Type 0 where
  pub chat_id : String
  pub user_open_id : String
  pub is_admin : Bool

abbrev pub user_namespace : PolicyContext → String
user_namespace ctx = "user:" ++ ctx.user_open_id

abbrev pub group_user_namespace : PolicyContext → String
group_user_namespace ctx = "group_user:" ++ ctx.chat_id ++ ":" ++ ctx.user_open_id

unfoldable pub allowed_namespaces : PolicyContext → List String
allowed_namespaces ctx =
    "global" ∷ ("group:" ++ ctx.chat_id) ∷ user_namespace ctx ∷ group_user_namespace ctx ∷ []

abbrev pub may_read : PolicyContext → MemoryItem → Bool
may_read ctx m =
    if any (λ n. n == m.namespace) (allowed_namespaces ctx)
    then (elim m.visibility [
      | admin_only ↦ ctx.is_admin
      | owner_only ↦
          (m.namespace == user_namespace ctx) || (m.namespace == group_user_namespace ctx)
      | open_to_all ↦ true
    ])
    else false

unfoldable pub filter_by_policy : List MemoryItem → PolicyContext → List MemoryItem
filter_by_policy items ctx = keep (may_read ctx) items

unfoldable pub resolve_write_scope : (chat_id user_open_id : String) → String × MemoryVisibility
resolve_write_scope chat_id user_open_id = ("user:" ++ user_open_id, owner_only)

-- What a returned memory must be, stated by itself.
abbrev pub IsReadable : PolicyContext → MemoryItem → Type 0
IsReadable ctx m =
    (any (λ n. n == m.namespace) (allowed_namespaces ctx) ≡ true)
    × ((m.visibility ≢ admin_only) ⊎ (ctx.is_admin ≡ true))
    × ((m.visibility ≢ owner_only)
        ⊎ (m.namespace ≡ user_namespace ctx)
        ⊎ (m.namespace ≡ group_user_namespace ctx))

may_read-IsReadable :
    (ctx : PolicyContext) (m : MemoryItem) → may_read ctx m ≡ true → IsReadable ctx m
may_read-IsReadable ctx m h = grind (arith, eq_iff, h)

-- The filter lets a memory through only if its namespace is one of the caller's, an administrator asks
-- for an admin-only one, and a private one stands in a namespace of the caller's own.
pub filter_by_policy-All :
    (items : List MemoryItem) (ctx : PolicyContext)
    → All (IsReadable ctx) (filter_by_policy items ctx)
unfolding filter_by_policy
filter_by_policy-All [] ctx = tt
filter_by_policy-All (m ∷ items) ctx = elim (Bool-cases (may_read ctx m)) [
  | inl kept ↦ rw kept (may_read-IsReadable ctx m kept, filter_by_policy-All items ctx)
  | inr dropped ↦ rw dropped (filter_by_policy-All items ctx)
]
