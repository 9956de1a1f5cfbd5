-- ===== src/Agent/Sessions.antt =====
-- core/kimi-session.ts: the sessions of the model on disk, their index, and the quarantine of broken
-- ones. Paths stand as `normPath` resolves them; the directory of a session is named by its parent and
-- its own name. Lines of a file stand as they are parsed. Whether the disk lets a directory be moved is
-- an argument.
pub mod Healing
pub mod Siblings
pub mod Pairing
use polis_game.Base.{
  ℕ, ◌+◌, String, ◌==◌, Bool, true, false, not, ◌&&◌, Option, none, some, List, [], ◌∷◌, ◌++◌, keep,
  any, map, length, if◌then◌else◌,
}
use polis_game.Base.Texts.{codes, starts_with}

pub record SessionDir : Type 0 where
  pub wd : String
  pub base : String

abbrev pub same_dir : SessionDir → SessionDir → Bool
same_dir a b = (a.wd == b.wd) && (a.base == b.base)

pub record SessionRef : Type 0 where
  pub session_dir : SessionDir
  pub work_dir : String

-- A line of wire.jsonl: a loop event of a tool, or anything else.
pub data WireLine : Type 0 where
  tool_call : (id : String) → WireLine
  tool_result : (id : String) → WireLine
  other_line : WireLine

-- A directory below sessions/, with its wire if one can be read.
pub record Session : Type 0 where
  pub dir : SessionDir
  pub wire : Option (List WireLine)

-- $KIMI_CODE_HOME
pub record KimiHome : Type 0 where
  pub index : List SessionRef
  pub sessions : List Session
  pub quarantine : List Session

-- `set.add`
abbrev pub add_id : String → List String → List String
add_id id ids = if any (λ i. i == id) ids then ids else ids ++ id ∷ []

abbrev pub collect : List WireLine → List String → List String → List String × List String
collect [] calls results = (calls, results)
collect (tool_call id ∷ ls) calls results = collect ls (add_id id calls) results
collect (tool_result id ∷ ls) calls results = collect ls calls (add_id id results)
collect (other_line ∷ ls) calls results = collect ls calls results

abbrev pub has_id : List String → String → Bool
has_id ids id = any (λ i. i == id) ids

unfoldable pub orphans : List WireLine → List String
orphans ls = let sets = collect ls [] [] in keep (λ id. not (has_id sets.1 id)) sets.0

abbrev pub find_session : List Session → SessionDir → Option Session
find_session [] d = none
find_session (s ∷ ss) d = if same_dir s.dir d then some s else find_session ss d

abbrev pub wire_orphans : Option (List WireLine) → List String
wire_orphans none = []
wire_orphans (some ls) = orphans ls

abbrev pub session_orphans : Option Session → List String
session_orphans none = []
session_orphans (some s) = wire_orphans s.wire

abbrev pub is_none : List String → Bool
is_none [] = true
is_none (_ ∷ _) = false

-- `orphans` and `ok` of its result
unfoldable pub validate_session : KimiHome → SessionDir → Bool × List String
validate_session home d =
    let lost = session_orphans (find_session home.sessions d) in (is_none lost, lost)

abbrev pub moved : SessionDir → Option Session → List Session
moved d none = []
moved d (some s) = s ∷ []

abbrev pub is_there : Option Session → Bool
is_there none = false
is_there (some _) = true

-- The line of the index goes first, whether or not the directory can be moved then.
unfoldable pub quarantine_session : (SessionDir → Bool) → KimiHome → SessionDir → KimiHome × Bool
quarantine_session moves home d =
    let kept = keep (λ r. not (same_dir r.session_dir d)) home.index in
    let found = find_session home.sessions d in
    if not (is_there found)
    then (home, false)
    else if moves d
    then (
      record home {
        index = kept;
        sessions = keep (λ s. not (same_dir s.dir d)) home.sessions;
        quarantine = home.quarantine ++ moved d found;
      },
      true,
    )
    else (record home { index = kept }, false)

abbrev pub wd_dirs : String → List SessionRef → List String → List String
wd_dirs work_dir [] dirs = dirs
wd_dirs work_dir (r ∷ rs) dirs =
    wd_dirs work_dir rs (if r.work_dir == work_dir then add_id r.session_dir.wd dirs else dirs)

-- `readdirSync(wd)`, and the names that start with 'session_'
abbrev pub dirs_in : String → List Session → List SessionDir
dirs_in wd ss =
    map (λ s. s.dir)
      (keep (λ s. (s.dir.wd == wd) && starts_with (codes "session_") (codes s.dir.base)) ss)

abbrev pub dirs_of : List String → List Session → List SessionDir
dirs_of [] ss = []
dirs_of (wd ∷ wds) ss = dirs_in wd ss ++ dirs_of wds ss

unfoldable pub sibling_session_dirs : KimiHome → String → List SessionDir
sibling_session_dirs home work_dir = dirs_of (wd_dirs work_dir home.index []) home.sessions

-- One round of both loops: the home, and whether a session went into quarantine.
abbrev pub quarantine_if_corrupt : (SessionDir → Bool) → KimiHome → SessionDir → KimiHome × Bool
quarantine_if_corrupt moves home d =
    if (validate_session home d).0 then (home, false) else quarantine_session moves home d

abbrev pub quarantine_each : (SessionDir → Bool) → KimiHome → List SessionDir → KimiHome × ℕ
quarantine_each moves home [] = (home, 0)
quarantine_each moves home (d ∷ ds) =
    let step = quarantine_if_corrupt moves home d in
    let rest = quarantine_each moves step.0 ds in (rest.0, (if step.1 then 1 else 0) + rest.1)

unfoldable pub quarantine_corrupt_sessions_for :
    (SessionDir → Bool) → KimiHome → String → KimiHome × ℕ
quarantine_corrupt_sessions_for moves home work_dir =
    quarantine_each moves home (sibling_session_dirs home work_dir)

abbrev pub heal_each : (SessionDir → Bool) → KimiHome → List SessionDir → KimiHome × ℕ
heal_each moves home [] = (home, 0)
heal_each moves home (d ∷ ds) =
    let lost = length (validate_session home d).1 in
    let step = quarantine_if_corrupt moves home d in
    let rest = heal_each moves step.0 ds in (rest.0, (if step.1 then lost else 0) + rest.1)

unfoldable pub heal_session_for : (SessionDir → Bool) → KimiHome → String → KimiHome × ℕ
heal_session_for moves home work_dir = heal_each moves home (sibling_session_dirs home work_dir)

-- The newest session of a working directory that is still on disk.
abbrev pub newest : String → List SessionRef → List Session → Option SessionDir → Option SessionDir
newest work_dir [] ss found = found
newest work_dir (r ∷ rs) ss found = newest work_dir rs ss (
    if (r.work_dir == work_dir) && is_there (find_session ss r.session_dir)
    then some r.session_dir
    else found)

unfoldable pub resolve_session_dir : KimiHome → String → Option SessionDir
resolve_session_dir home work_dir = newest work_dir home.index home.sessions none
