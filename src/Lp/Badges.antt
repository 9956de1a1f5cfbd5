-- ===== src/Lp/Badges.antt =====
-- The badge catalogue, the leaderboard, the log of recent entries and the chosen names of
-- core/store/gamification.ts. The table `badges` stands beside the LP database here; its rows are in
-- the order of `created_at`.
use polis_game.Base.{
  ℕ, ◌≡◌, refl, ◌⊎◌, inl, inr, String, ◌==◌, eq_iff, Bool, true, false, not, ◌||◌, Option, none,
  some, List, [], ◌∷◌, keep, any, leb, ltb, arith, if◌then◌else◌, Bool-cases,
}
use polis_game.Base.Int.{leb_ℤ}
use polis_game.Base.Order.{sort_by, limit_to}
use polis_game.Base.Rows.{select_first}
use polis_game.Base.Texts.{Text, trim}
use polis_game.Lp.{Profile, LedgerRow, UserBadge, LpDb}
use polis_game.Lp.Accounts.{cid, same_badge}

pub record BadgeDefinition : Type 0 where
  pub badge_id : String
  pub name : String
  pub description : String
  pub emoji : String
  pub headline : String
  pub file : String
  pub title : String
  pub type : String
  pub role : String
  pub endorser : String
  pub duration : String
  pub category : String
  pub event : String

-- With the absent fields as empty texts.
abbrev pub upsert_in : BadgeDefinition → List BadgeDefinition → List BadgeDefinition
upsert_in b [] = b ∷ []
upsert_in b (c ∷ cs) =
    let rest = upsert_in b cs in if c.badge_id == b.badge_id then b ∷ cs else c ∷ rest

unfoldable pub upsert_badge : List BadgeDefinition → BadgeDefinition → List BadgeDefinition
upsert_badge badges b = upsert_in b badges

abbrev pub is_ref_of : String → BadgeDefinition → Bool
is_ref_of ref b = b.badge_id == ref || b.name == ref

unfoldable pub get_badge : List BadgeDefinition → String → Option BadgeDefinition
get_badge badges ref = select_first (is_ref_of ref) badges

abbrev removed : LpDb → List BadgeDefinition → String → LpDb × List BadgeDefinition
removed db badges badge_id = (
  record db { user_badges = keep (λ u. not (u.badge_id == badge_id)) db.user_badges },
  keep (λ b. not (b.badge_id == badge_id)) badges,
)

abbrev pub delete_found :
    LpDb → List BadgeDefinition → Option BadgeDefinition → (LpDb × List BadgeDefinition) × Bool
delete_found db badges none = ((db, badges), false)
delete_found db badges (some b) =
    if b.badge_id == "" then ((db, badges), false) else (removed db badges b.badge_id, true)

unfoldable pub delete_badge :
    LpDb → List BadgeDefinition → String → (LpDb × List BadgeDefinition) × Bool
delete_badge db badges ref = delete_found db badges (select_first (is_ref_of ref) badges)

abbrev badges_of : List BadgeDefinition → List UserBadge → List (BadgeDefinition × ℕ)
badges_of badges [] = []
badges_of badges (u ∷ us) =
    let rest = badges_of badges us in
    elim (select_first (λ b. b.badge_id == u.badge_id) badges) [
      | none ↦ rest
      | some b ↦ (b, u.awarded_at) ∷ rest
    ]

-- The badges of one user, the latest first.
unfoldable pub list_badges : LpDb → List BadgeDefinition → String → List (BadgeDefinition × ℕ)
list_badges db badges open_id =
    let id = cid db open_id in
    sort_by (λ a b. leb b.1 a.1)
      (badges_of badges (keep (λ u. u.user_open_id == id) db.user_badges))

-- `ORDER BY pt_balance DESC LIMIT $1`, without the accounts of chests; the names that the override
-- tables choose are left out.
unfoldable pub leaderboard : LpDb → ℕ → List Profile
leaderboard db limit = limit_to limit (
    sort_by (λ p q. leb_ℤ q.pt_balance p.pt_balance)
      (keep (λ p. not (any (λ c. c.chest_id == p.open_id) db.chests)) db.profiles))

-- Entries stand in the order of their ids and times, so the latest are the last.
abbrev reversed {ℓ} : {A : Type ℓ} → List A → List A → List A
reversed acc [] = acc
reversed acc (x ∷ xs) = reversed (x ∷ acc) xs

unfoldable pub recent_pt_ledger : LpDb → String → ℕ → List LedgerRow
recent_pt_ledger db open_id limit =
    if open_id == ""
    then []
    else let id = cid db open_id in
      limit_to (if ltb limit 1 then 1 else limit)
        (reversed [] (keep (λ r. r.user_open_id == id) db.pt_ledger))

-- A stored name and its owner.
abbrev set_name : String → Text → List (String × Text) → List (String × Text)
set_name id name [] = (id, name) ∷ []
set_name id name (o ∷ os) =
    let rest = set_name id name os in if o.0 == id then (id, name) ∷ os else o ∷ rest

abbrev is_blank : Text → Bool
is_blank [] = true
is_blank (_ ∷ _) = false

-- The override table and the name that was saved, which is empty when nothing was.
unfoldable pub set_preferred_name :
    LpDb → List (String × Text) → String → Text → List (String × Text) × Text
set_preferred_name db overrides open_id name =
    let clean = trim name in
    let canonical = cid db open_id in
    let own = set_name open_id clean overrides in
    if open_id == "" || is_blank clean
    then (overrides, [])
    else (if canonical == open_id then own else set_name canonical clean own, clean)

-- What deleting a badge leaves: nobody holds it, everybody keeps the others, and the catalogue has
-- no entry of its id.
pub record Deleted (db : LpDb) (badges : List BadgeDefinition) (b : BadgeDefinition)
    (r : LpDb × List BadgeDefinition) : Type 0 where
  pub nobody : (id : String) → any (same_badge id b.badge_id) r.0.user_badges ≡ false
  pub others :
      (id other : String)
      → (other == b.badge_id) ≡ false
      → any (same_badge id other) r.0.user_badges ≡ any (same_badge id other) db.user_badges
  pub gone : any (λ c. c.badge_id == b.badge_id) r.1 ≡ false
  pub ledger : r.0.pt_ledger ≡ db.pt_ledger

holders_gone :
    (id badge_id : String) (us : List UserBadge)
    → any (same_badge id badge_id) (keep (λ u. not (u.badge_id == badge_id)) us) ≡ false
holders_gone id badge_id [] = refl
holders_gone id badge_id (u ∷ us) = ground (arith, holders_gone id badge_id us)

holders_kept :
    (id badge_id other : String) (us : List UserBadge)
    → (other == badge_id) ≡ false
    → any (same_badge id other) (keep (λ u. not (u.badge_id == badge_id)) us)
      ≡ any (same_badge id other) us
holders_kept id badge_id other [] h = refl
holders_kept id badge_id other (u ∷ us) h = ground (
  arith,
  h,
  eq_iff u.badge_id badge_id,
  eq_iff u.badge_id other,
  eq_iff other badge_id,
  holders_kept id badge_id other us h,
)

entry_gone :
    (badge_id : String) (bs : List BadgeDefinition)
    → any (λ c. c.badge_id == badge_id) (keep (λ b. not (b.badge_id == badge_id)) bs) ≡ false
entry_gone badge_id [] = refl
entry_gone badge_id (b ∷ bs) = ground (arith, entry_gone badge_id bs)

removed-Deleted :
    (db : LpDb) (badges : List BadgeDefinition) (b : BadgeDefinition)
    → Deleted db badges b (removed db badges b.badge_id)
removed-Deleted db badges b = record {
  nobody = λ id. holders_gone id b.badge_id db.user_badges;
  others = λ id other h. holders_kept id b.badge_id other db.user_badges h;
  gone = entry_gone b.badge_id badges;
  ledger = refl;
}

delete_found_lem :
    (db : LpDb) (badges : List BadgeDefinition) (o : Option BadgeDefinition)
    → let r = delete_found db badges o in
      ((r.1 ≡ false) × (r.0 ≡ (db, badges)))
      ⊎ ((b : BadgeDefinition) × (r.1 ≡ true) × (o ≡ some b) × Deleted db badges b r.0)
delete_found_lem db badges none = inl (refl, refl)
delete_found_lem db badges (some b) = elim (Bool-cases (b.badge_id == "")) [
  | inl empty ↦ rw empty (inl (refl, refl))
  | inr named ↦ rw named (inr (b, refl, refl, removed-Deleted db badges b))
]

-- Deleting by an id or a name either reports that there is no such badge and changes nothing, or
-- deletes the badge that getBadge finds: afterwards nobody holds it, everybody keeps the other
-- badges, the catalogue has no entry of its id, and the ledger is as before.
pub delete_badge_lem :
    (db : LpDb) (badges : List BadgeDefinition) (ref : String)
    → let r = delete_badge db badges ref in
      ((r.1 ≡ false) × (r.0 ≡ (db, badges)))
      ⊎ ((b : BadgeDefinition) × (r.1 ≡ true)
          × (get_badge badges ref ≡ some b)
          × Deleted db badges b r.0)
unfolding delete_badge get_badge
delete_badge_lem db badges ref = delete_found_lem db badges (select_first (is_ref_of ref) badges)
