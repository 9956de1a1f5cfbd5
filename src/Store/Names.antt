-- ===== src/Store/Names.antt =====
-- core/name-overrides.ts: the name under which a member is shown. The file is read once, so what it
-- holds is an argument; the table of renames is one too, absent where reading it throws.
use polis_game.Base.{
  ◌≡◌, refl, ap, ◌∙◌, String, ◌==◌, eq_iff, false, Option, none, some, List, [], ◌∷◌, any, arith,
  Bool-cases, inl, inr, if◌then◌else◌,
}
use polis_game.Base.Rows.{select_first}
use polis_game.Base.Texts.{Text, trim}

-- An entry of the file; a value that is no text reads as none.
pub record Override : Type 0 where
  pub open_id : String
  pub value : Option Text

pub data NamesFile : Type 0 where
  absent broken : NamesFile
  parsed : List Override → NamesFile

pub record NameRow : Type 0 where
  pub open_id : String
  pub name : Text

abbrev pub load : NamesFile → List Override
load absent = []
load broken = []
load (parsed overrides) = overrides

abbrev pub or_absent : Text → Option Text
or_absent [] = none
or_absent (c ∷ cs) = some (c ∷ cs)

-- A text that is not blank, trimmed.
abbrev pub name_of : Option Text → Option Text
name_of none = none
name_of (some v) = or_absent (trim v)

abbrev pub value_of : Option Override → Option Text
value_of none = none
value_of (some o) = o.value

unfoldable pub config_override : NamesFile → String → Option Text
config_override file open_id =
    name_of (value_of (select_first (λ o. o.open_id == open_id) (load file)))

abbrev pub row_name : Option NameRow → Option Text
row_name none = none
row_name (some r) = some r.name

unfoldable pub self_service_name : Option (List NameRow) → String → Option Text
self_service_name none open_id = none
self_service_name (some rows) open_id =
    name_of (row_name (select_first (λ r. r.open_id == open_id) rows))

-- The entries of the map, in the order in which they are set.
unfoldable pub load_self_service_overrides : Option (List NameRow) → List NameRow
load_self_service_overrides none = []
load_self_service_overrides (some rows) = rows

abbrev pub or_else : Option Text → Option Text → Option Text
or_else none t = t
or_else (some s) t = some s

-- `Map.get`: the entry that was set last.
abbrev pub map_get : String → List NameRow → Option Text
map_get open_id [] = none
map_get open_id (r ∷ rows) =
    or_else (map_get open_id rows) (if r.open_id == open_id then some r.name else none)

abbrev pub self_service : Option (List NameRow) → Option (List NameRow) → String → Option Text
self_service table none open_id = self_service_name table open_id
self_service table (some preloaded) open_id = name_of (map_get open_id preloaded)

unfoldable pub preferred_name :
    NamesFile
    → (table : Option (List NameRow)) → String
    → (preloaded : Option (List NameRow)) → Option Text
preferred_name file table open_id preloaded =
    if open_id == ""
    then none
    else or_else (config_override file open_id) (self_service table preloaded open_id)

abbrev pub or_raw : Option Text → Text → Text
or_raw none raw = raw
or_raw (some name) raw = name

unfoldable pub apply_name_override :
    NamesFile
    → (table : Option (List NameRow)) → String
    → Text
    → (preloaded : Option (List NameRow)) → Text
apply_name_override file table open_id raw_name preloaded =
    or_raw (preferred_name file table open_id preloaded) raw_name

-- The primary key of the table.
abbrev pub IsKeyed : List NameRow → Type 0
IsKeyed [] = Unit
IsKeyed (r ∷ rows) = (any (λ s. s.open_id == r.open_id) rows ≡ false) × IsKeyed rows

or_else-none : (t : Option Text) → or_else t none ≡ t
or_else-none none = refl
or_else-none (some t) = refl

map_get-absent :
    (open_id : String) (rows : List NameRow)
    → any (λ s. s.open_id == open_id) rows ≡ false
    → map_get open_id rows ≡ none
map_get-absent open_id [] h = refl
map_get-absent open_id (r ∷ rows) h = ground (arith, map_get-absent open_id rows)

map_get-select :
    (open_id : String) (rows : List NameRow)
    → IsKeyed rows
    → map_get open_id rows ≡ row_name (select_first (λ r. r.open_id == open_id) rows)
map_get-select open_id [] k = refl
map_get-select open_id (r ∷ rows) (fresh, k) = elim (Bool-cases (r.open_id == open_id)) [
  | inl same ↦
      (let none_left = (rw ((eq_iff r.open_id open_id).0 same) at fresh) in
        rw (same, map_get-absent open_id rows none_left) refl)
  | inr other ↦ rw other (or_else-none (map_get open_id rows) ∙ map_get-select open_id rows k)
]

preferred_name-preloaded :
    (file : NamesFile) (table : Option (List NameRow)) (open_id : String)
    → IsKeyed (load_self_service_overrides table)
    → preferred_name file table open_id (some (load_self_service_overrides table))
      ≡ preferred_name file table open_id none
unfolding preferred_name self_service_name load_self_service_overrides
preferred_name-preloaded file none open_id k = refl
preferred_name-preloaded file (some rows) open_id k = rw (map_get-select open_id rows k) refl

-- Reading the table once for many members shows each by the name that a read of its own would give,
-- also where the table cannot be read, as long as it has one row for a member.
pub apply_name_override-preloaded :
    (file : NamesFile) (table : Option (List NameRow)) (open_id : String) (raw_name : Text)
    → IsKeyed (load_self_service_overrides table)
    → apply_name_override file table open_id raw_name (some (load_self_service_overrides table))
      ≡ apply_name_override file table open_id raw_name none
unfolding apply_name_override
apply_name_override-preloaded file table open_id raw_name k =
    ap (λ name. or_raw name raw_name) (preferred_name-preloaded file table open_id k)
