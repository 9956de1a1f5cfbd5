-- ===== src/Agent/Outbox.antt =====
-- core/pg-outbox.ts: writes that wait for PostgreSQL in a local table, and their replay. A write is
-- its table, columns and values, which nothing here looks into; `lands` says whether the statements of
-- the replay of a row go through.
use polis_game.Base.{
  ℕ, suc, ◌+◌, ◌≡◌, refl, String, Bool, true, false, Option, none, some, List, [], ◌∷◌, ◌++◌, arith,
  keep, length, eqb, eqb_iff, Bool-cases, inl, inr, if◌then◌else◌, All, any, ap, ◌⊎◌,
}
use polis_game.Base.Rows.{update}

pub record OutboxRow : Type 0 where
  pub id : ℕ
  pub table_name : String
  pub columns : List String
  pub values : List String
  pub enqueued_at : ℕ
  pub replayed_at : Option ℕ

pub record OutboxReplayLogRow : Type 0 where
  pub started_at : ℕ
  pub finished_at : ℕ
  pub attempted : ℕ
  pub replayed : ℕ
  pub failed : ℕ

pub record OutboxDb : Type 0 where
  pub rows : List OutboxRow
  pub next_id : ℕ
  pub replay_log : List OutboxReplayLogRow

unfoldable pub enqueue_outbox_write :
    OutboxDb → (now : ℕ) → (table : String) → (columns values : List String) → OutboxDb
enqueue_outbox_write db now table columns values = record db {
  rows =
      db.rows
      ++ record {
        id = db.next_id;
        table_name = table;
        columns = columns;
        values = values;
        enqueued_at = now;
        replayed_at = none;
      }
        ∷ [];
  next_id = suc db.next_id;
}

abbrev pub is_pending : OutboxRow → Bool
is_pending r = elim r.replayed_at [ none ↦ true | some _ ↦ false ]

unfoldable pub outbox_backlog_count : OutboxDb → ℕ
outbox_backlog_count db = length (keep is_pending db.rows)

abbrev pub mark_replayed : ℕ → ℕ → List OutboxRow → List OutboxRow
mark_replayed now id = update (λ r. eqb r.id id) (λ r. record r { replayed_at = some now })

pub record Replay : Type 0 where
  pub rows : List OutboxRow
  pub replayed : ℕ
  pub failed : ℕ

-- The loop over the pending rows: a row is marked as soon as it has landed.
unfoldable pub replay_rows : (OutboxRow → Bool) → ℕ → List OutboxRow → List OutboxRow → Replay
replay_rows lands now rows [] = record { rows = rows; replayed = 0; failed = 0 }
replay_rows lands now rows (row ∷ pending) =
    let after_landed = replay_rows lands now (mark_replayed now row.id rows) pending in
    let after_failed = replay_rows lands now rows pending in
    if lands row
    then record after_landed { replayed = suc after_landed.replayed }
    else record after_failed { failed = suc after_failed.failed }

unfoldable pub replay_outbox : (OutboxRow → Bool) → ℕ → OutboxDb → OutboxDb × OutboxReplayLogRow
replay_outbox lands now db =
    let pending = keep is_pending db.rows in
    let r = replay_rows lands now db.rows pending in
    let entry : OutboxReplayLogRow = record {
      started_at = now;
      finished_at = now;
      attempted = length pending;
      replayed = r.replayed;
      failed = r.failed;
    } in
    (record db { rows = r.rows; replay_log = db.replay_log ++ entry ∷ [] }, entry)

unfoldable pub last_replay_log : OutboxDb → Option OutboxReplayLogRow
last_replay_log db = go db.replay_log
  where
    go : List OutboxReplayLogRow → Option OutboxReplayLogRow
    go [] = none
    go (r ∷ []) = some r
    go (r ∷ s ∷ rs) = go (s ∷ rs)

-- A replay attempts each pending row once: it either lands or is counted as failed.
pub replay_rows_counts :
    (lands : OutboxRow → Bool) (now : ℕ) (rows pending : List OutboxRow)
    → let r = replay_rows lands now rows pending in r.replayed + r.failed ≡ length pending
unfolding replay_rows
replay_rows_counts lands now rows [] = omega arith
replay_rows_counts lands now rows (row ∷ pending) = elim (Bool-cases (lands row)) [
  | inl landed ↦
      rw landed
        (omega (arith, replay_rows_counts lands now (mark_replayed now row.id rows) pending))
  | inr lost ↦ rw lost (omega (arith, replay_rows_counts lands now rows pending))
]

-- Every pending row stands in the list.
abbrev Covered : List OutboxRow → List OutboxRow → Type 0
Covered pending = All (λ r. (is_pending r ≡ false) ⊎ (any (λ b. eqb b.id r.id) pending ≡ true))

Covered-mark :
    (now : ℕ) (row : OutboxRow) (pending rows : List OutboxRow)
    → Covered (row ∷ pending) rows
    → Covered pending (mark_replayed now row.id rows)
Covered-mark now row pending [] c = tt
Covered-mark now row pending (r ∷ rows) c =
    (grind (arith, eqb_iff, c.0), Covered-mark now row pending rows c.1)

Covered-none : (rows : List OutboxRow) → Covered [] rows → keep is_pending rows ≡ []
Covered-none [] c = refl
Covered-none (r ∷ rows) c = grind (arith, c.0, Covered-none rows c.1)

Covered-mono :
    (xs ys rows : List OutboxRow)
    → ((id : ℕ) → any (λ b. eqb b.id id) xs ≡ true → any (λ b. eqb b.id id) ys ≡ true)
    → Covered xs rows
    → Covered ys rows
Covered-mono xs ys [] h c = tt
Covered-mono xs ys (r ∷ rows) h c = (grind (arith, h r.id, c.0), Covered-mono xs ys rows h c.1)

Covered-self : (rows : List OutboxRow) → Covered (keep is_pending rows) rows
Covered-self [] = tt
Covered-self (r ∷ rows) = (
  ground arith,
  Covered-mono (keep is_pending rows) (keep is_pending (r ∷ rows)) rows (λ id h. ground (arith, h))
      (Covered-self rows),
)

replay_rows-Covered :
    (now : ℕ) (rows pending : List OutboxRow)
    → Covered pending rows
    → keep is_pending (replay_rows (λ _. true) now rows pending).rows ≡ []
unfolding replay_rows
replay_rows-Covered now rows [] c = Covered-none rows c
replay_rows-Covered now rows (row ∷ pending) c =
    replay_rows-Covered now (mark_replayed now row.id rows) pending
      (Covered-mark now row pending rows c)

-- When every row lands, the replay leaves no backlog, and a second replay attempts nothing.
pub replay_outbox_empties :
    (now later : ℕ) (lands : OutboxRow → Bool) (db : OutboxDb)
    → let db1 = (replay_outbox (λ _. true) now db).0 in
      (outbox_backlog_count db1 ≡ 0) × ((replay_outbox lands later db1).1.attempted ≡ 0)
unfolding outbox_backlog_count replay_outbox
replay_outbox_empties now later lands db =
    let e = replay_rows-Covered now db.rows (keep is_pending db.rows) (Covered-self db.rows) in
    (ap length e, ap length e)
