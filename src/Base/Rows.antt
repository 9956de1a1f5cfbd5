-- ===== src/Base/Rows.antt =====
-- SQL statements over one table, as a list of rows in insertion order. A row is picked by a Boolean
-- `where`; the number that a write returns is its row count.
use Prim.Native.Nat.{ℕ, suc}
use mathlib.Core.Path.{◌≡◌, refl}
use mathlib.Core.Bool.{Bool}
use mathlib.Core.Option.{Option, none, some}
use mathlib.Core.List.{List, [], ◌∷◌, ◌++◌}
use native.Mathlib.Omega.{arith}
use polis_game.Base.Tests.{if◌then◌else◌}
use polis_game.Base.Lists.{any, keep, length}

module _ {ℓ} {R : Type ℓ} where
  -- `UPDATE … SET f WHERE p`
  abbrev pub update : (R → Bool) → (R → R) → List R → List R
  update p f [] = []
  update p f (r ∷ rs) = (if p r then f r else r) ∷ update p f rs

  -- `rowCount` of an update or delete under `p`
  abbrev pub row_count : (R → Bool) → List R → ℕ
  row_count p [] = 0
  row_count p (r ∷ rs) = if p r then suc (row_count p rs) else row_count p rs

  -- `rows[0]` of `SELECT … WHERE p`
  abbrev pub select_first : (R → Bool) → List R → Option R
  select_first p [] = none
  select_first p (r ∷ rs) = if p r then some r else select_first p rs

  -- `INSERT … ON CONFLICT DO NOTHING`, where `p` picks the rows that conflict
  abbrev pub insert_or_ignore : (R → Bool) → R → List R → List R
  insert_or_ignore p r rs = if any p rs then rs else rs ++ r ∷ []

  pub row_count-length-keep : (p : R → Bool) (rs : List R) → row_count p rs ≡ length (keep p rs)
  row_count-length-keep p [] = refl
  row_count-length-keep p (r ∷ rs) = ground (arith, row_count-length-keep p rs)
