-- ===== src/Agent/Inbox.antt =====
-- core/peer-bus.ts: the inboxes through which agents of a chat see each other. A line of an inbox is a
-- cue or text that does not parse; times are left out.
use polis_game.Base.{
  ℕ, ◌≡◌, refl, ap, ◌∙◌, String, ◌==◌, eq_refl, Bool, true, false, not, Option, none, some, List,
  [], ◌∷◌, ◌++◌, any, if◌then◌else◌,
}

pub record PeerCue : Type 0 where
  pub from : String
  pub chat_id : String
  pub topic : String
  pub message : String
  pub budget : ℕ
  pub agent_chain_depth : ℕ

pub data Line : Type 0 where
  stored : (cue : PeerCue) (is_read : Bool) → Line
  broken : (text : String) → Line

-- The inboxes by the name of their agent; `none` stands for a missing file.
abbrev pub Bus : Type 0
Bus = String → Option (List Line)

abbrev pub lines_of : Option (List Line) → List Line
lines_of none = []
lines_of (some ls) = ls

abbrev pub append_line : Line → Bus → String → Bus
append_line l bus peer soul =
    if soul == peer then some (lines_of (bus soul) ++ l ∷ []) else bus soul

-- `peers` is what `listPeersInChat` gives.
unfoldable pub broadcast_cue : List String → PeerCue → Bus → Bus
broadcast_cue [] cue bus = bus
broadcast_cue (p ∷ peers) cue bus = broadcast_cue peers cue (append_line (stored cue false) bus p)

abbrev pub is_unread : Line → Bool
is_unread (stored cue is_read) = not is_read
is_unread (broken text) = false

unfoldable pub has_unread_cue : Bus → String → Bool
has_unread_cue bus soul = any is_unread (lines_of (bus soul))

abbrev pub unread_of : List Line → List PeerCue
unread_of [] = []
unread_of (stored cue is_read ∷ ls) = if is_read then unread_of ls else cue ∷ unread_of ls
unread_of (broken text ∷ ls) = unread_of ls

abbrev pub marked : List Line → List Line
marked [] = []
marked (stored cue is_read ∷ ls) = stored cue true ∷ marked ls
marked (broken text ∷ ls) = broken text ∷ marked ls

-- Writing the marked lines back changes nothing when none was unread.
unfoldable pub read_unread_cues : Bus → String → Bus × List PeerCue
read_unread_cues bus soul = (
  (λ s. if s == soul then (elim (bus s) [ none ↦ none | some ls ↦ some (marked ls) ]) else bus s),
  unread_of (lines_of (bus soul)),
)

marked_none : (ls : List Line) → any is_unread (marked ls) ≡ false
marked_none [] = refl
marked_none (stored cue is_read ∷ ls) = marked_none ls
marked_none (broken text ∷ ls) = marked_none ls

unread-marked : (ls : List Line) → unread_of (marked ls) ≡ []
unread-marked [] = refl
unread-marked (stored cue is_read ∷ ls) = unread-marked ls
unread-marked (broken text ∷ ls) = unread-marked ls

unread-append :
    (ls : List Line) (cue : PeerCue)
    → unread_of (ls ++ stored cue false ∷ []) ≡ unread_of ls ++ cue ∷ []
unread-append [] cue = refl
unread-append (stored c true ∷ ls) cue = unread-append ls cue
unread-append (stored c false ∷ ls) cue = ap (λ cs. c ∷ cs) (unread-append ls cue)
unread-append (broken text ∷ ls) cue = unread-append ls cue

kept_marked :
    (file : Option (List Line))
    → lines_of (elim file [ none ↦ none | some ls ↦ some (marked ls) ]) ≡ marked (lines_of file)
kept_marked none = refl
kept_marked (some ls) = refl

-- A read hands out each cue once: afterwards nothing is unread, a second read gives nothing, and after
-- the next cue a read gives that cue alone.
pub read_unread_cues_once :
    (bus : Bus) (soul : String) (cue : PeerCue)
    → let bus1 = (read_unread_cues bus soul).0 in
      (has_unread_cue bus1 soul ≡ false)
      × ((read_unread_cues bus1 soul).1 ≡ [])
      × ((read_unread_cues (append_line (stored cue false) bus1 soul) soul).1 ≡ cue ∷ [])
unfolding read_unread_cues has_unread_cue
read_unread_cues_once bus soul cue =
    let ls = lines_of (bus soul) in
    rw (eq_refl soul, kept_marked (bus soul))
      (marked_none ls, unread-marked ls, unread-append (marked ls) cue ∙ rw (unread-marked ls) refl)
