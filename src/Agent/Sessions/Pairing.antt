-- ===== src/Agent/Sessions/Pairing.antt =====
-- The repair of core/kimi-session.ts, stated on the lines of the wires and of the index.
use polis_game.Base.{
  ◌≡◌, ◌⊎◌, refl, sym, ap, ◌∙◌, String, ◌==◌, eq_iff, Bool, true, false, not, ◌&&◌, ◌||◌, Option,
  none, some, List, [], ◌∷◌, ◌++◌, keep, any, arith, Bool-cases, inl, inr,
}
use mathlib.Core.Path.{fun_ext}
use polis_game.Agent.Sessions.{
  SessionDir, WireLine, tool_call, tool_result, other_line, Session, KimiHome, add_id, collect,
  has_id, orphans, find_session, wire_orphans, session_orphans, validate_session, heal_session_for,
  is_none, is_there,
}
use polis_game.Agent.Sessions.Healing.{heal_session_for-Healed}
use polis_game.Agent.Sessions.Siblings.{any-append, refers, is_session_name, siblings_lem}

abbrev pub all_calls : (String → Bool) → List WireLine → Bool
all_calls q [] = true
all_calls q (tool_call id ∷ ls) = q id && all_calls q ls
all_calls q (tool_result id ∷ ls) = all_calls q ls
all_calls q (other_line ∷ ls) = all_calls q ls

abbrev pub has_result : List WireLine → String → Bool
has_result [] id = false
has_result (tool_call i ∷ ls) id = has_result ls id
has_result (tool_result i ∷ ls) id = i == id || has_result ls id
has_result (other_line ∷ ls) id = has_result ls id

-- Each call of a tool has a result; a wire that cannot be read counts as whole.
abbrev pub wire_paired : Option (List WireLine) → Bool
wire_paired none = true
wire_paired (some ls) = all_calls (has_result ls) ls

abbrev pub is_paired : Option Session → Bool
is_paired none = true
is_paired (some s) = wire_paired s.wire

abbrev all_ids : (String → Bool) → List String → Bool
all_ids q [] = true
all_ids q (i ∷ ids) = q i && all_ids q ids

is_none-keep :
    (q : String → Bool) (ids : List String) → is_none (keep (λ id. not (q id)) ids) ≡ all_ids q ids
is_none-keep q [] = refl
is_none-keep q (i ∷ ids) = ground (arith, is_none-keep q ids)

all_ids-append :
    (q : String → Bool) (id : String) (ids : List String)
    → all_ids q (ids ++ id ∷ []) ≡ (q id && all_ids q ids)
all_ids-append q id [] = refl
all_ids-append q id (i ∷ ids) = ground (arith, all_ids-append q id ids)

all_ids-held :
    (q : String → Bool) (id : String) (ids : List String)
    → has_id ids id ≡ true
    → all_ids q ids ≡ (q id && all_ids q ids)
all_ids-held q id [] h = ground (arith, h)
all_ids-held q id (i ∷ ids) h = elim (Bool-cases (i == id)) [
  | inl here ↦ rw ((eq_iff i id).0 here) (ground arith)
  | inr away ↦ (let rest = all_ids-held q id ids (rw away at h) in ground (arith, rest))
]

all_ids-add_id :
    (q : String → Bool) (id : String) (ids : List String)
    → all_ids q (add_id id ids) ≡ (q id && all_ids q ids)
all_ids-add_id q id ids = elim (Bool-cases (has_id ids id)) [
  | inl held ↦ rw held (all_ids-held q id ids held)
  | inr new ↦ rw new (all_ids-append q id ids)
]

has_id-add_id :
    (i id : String) (ids : List String) → has_id (add_id i ids) id ≡ ((i == id) || has_id ids id)
has_id-add_id i id ids = elim (Bool-cases (has_id ids i)) [
  | inl held ↦ elim (Bool-cases (i == id)) [
    | inl same ↦
        (let one = (eq_iff i id).0 same in rw (held, same) (ap (has_id ids) (sym one) ∙ held))
    | inr other ↦ rw (held, other) refl
  ]
  | inr new ↦ rw new (any-append (λ j. j == id) ids (i ∷ []) ∙ ground arith)
]

collect-results :
    (ls : List WireLine) (cs rs : List String) (id : String)
    → has_id (collect ls cs rs).1 id ≡ (has_id rs id || has_result ls id)
collect-results [] cs rs id = ground arith
collect-results (tool_call i ∷ ls) cs rs id = collect-results ls (add_id i cs) rs id
collect-results (tool_result i ∷ ls) cs rs id =
    ground (arith, collect-results ls cs (add_id i rs) id, has_id-add_id i id rs)
collect-results (other_line ∷ ls) cs rs id = collect-results ls cs rs id

collect-calls :
    (q : String → Bool) (ls : List WireLine) (cs rs : List String)
    → all_ids q (collect ls cs rs).0 ≡ (all_ids q cs && all_calls q ls)
collect-calls q [] cs rs = ground arith
collect-calls q (tool_call i ∷ ls) cs rs =
    ground (arith, collect-calls q ls (add_id i cs) rs, all_ids-add_id q i cs)
collect-calls q (tool_result i ∷ ls) cs rs = collect-calls q ls cs (add_id i rs)
collect-calls q (other_line ∷ ls) cs rs = collect-calls q ls cs rs

is_none-orphans : (ls : List WireLine) → is_none (orphans ls) ≡ all_calls (has_result ls) ls
unfolding orphans
is_none-orphans ls =
    is_none-keep (has_id (collect ls [] []).1) (collect ls [] []).0
    ∙ collect-calls (has_id (collect ls [] []).1) ls [] []
    ∙ ap (λ q. all_calls q ls) (fun_ext (λ id. collect-results ls [] [] id))

is_none-wire : (w : Option (List WireLine)) → is_none (wire_orphans w) ≡ wire_paired w
is_none-wire none = refl
is_none-wire (some ls) = is_none-orphans ls

is_none-session : (found : Option Session) → is_none (session_orphans found) ≡ is_paired found
is_none-session none = refl
is_none-session (some s) = is_none-wire s.wire

validate-paired :
    (home : KimiHome) (e : SessionDir)
    → (validate_session home e).0 ≡ is_paired (find_session home.sessions e)
unfolding validate_session
validate-paired home e = is_none-session (find_session home.sessions e)

-- A session on disk, by its name, under the parent of one that the index lists for the directory.
abbrev pub is_near : KimiHome → String → SessionDir → Bool
is_near home work_dir e =
    any (refers work_dir e.wd) home.index
    && (is_session_name e && is_there (find_session home.sessions e))

-- Where directories can be moved, the repair leaves each session on disk under the parent of one that
-- the index lists for the working directory gone or with a result for every call of a tool, and
-- every other session, as well as each whose calls all had a result, as it was.
pub heal_session_for-Repaired :
    (moves : SessionDir → Bool) (home : KimiHome) (work_dir : String)
    → ((d : SessionDir) → moves d ≡ true)
    → let final = (heal_session_for moves home work_dir).0 in
      ((e : SessionDir)
        → is_near home work_dir e ≡ true
        → is_paired (find_session final.sessions e) ≡ true)
      × ((e : SessionDir)
          → (is_near home work_dir e ≡ false) ⊎ (is_paired (find_session home.sessions e) ≡ true)
          → find_session final.sessions e ≡ find_session home.sessions e)
heal_session_for-Repaired moves home work_dir h =
    let final = (heal_session_for moves home work_dir).0 in
    let healed = heal_session_for-Healed moves home work_dir h in
    (
      λ e near. sym (validate-paired final e) ∙ healed.0 e (siblings_lem home work_dir e ∙ near),
      λ e safe. healed.1 e (elim safe [
        | inl far ↦ inl (siblings_lem home work_dir e ∙ far)
        | inr whole ↦ inr (validate-paired home e ∙ whole)
      ]),
    )
