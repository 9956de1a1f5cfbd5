-- ===== src/Lp/Resets.antt =====
-- core/store/gamification.ts: the two operations over all members, the daily floor and the reset.
-- Each reads its rows first and then books one entry for each.
use polis_game.Base.{
  ℕ, suc, String, ◌==◌, Bool, not, ◌&&◌, none, List, [], ◌∷◌, any, keep, length, if◌then◌else◌,
}
use polis_game.Base.Int.{ℤ, pos, ◌-ℤ◌, ltb_ℤ, eqb_ℤ}
use polis_game.Lp.{Profile, LpDb}
use polis_game.Lp.Accounts.{ledger_raw}

-- `open_id NOT IN (SELECT chest_id FROM chests)`
abbrev pub is_member : LpDb → Profile → Bool
is_member db p = not (any (λ c. c.chest_id == p.open_id) db.chests)

unfoldable pub top_up : ℤ → List Profile → LpDb → LpDb
top_up floor [] db = db
top_up floor (r ∷ rs) db =
    top_up floor rs (ledger_raw db r.open_id (floor -ℤ r.pt_balance) "daily_floor_reset" none)

unfoldable pub reset_daily_pt_floor : LpDb → ℤ → LpDb × ℕ
unfolding top_up
reset_daily_pt_floor db floor =
    let rows = keep (λ p. ltb_ℤ p.pt_balance floor && is_member db p) db.profiles in
    (top_up floor rows db, length rows)

abbrev pub counted : LpDb × ℕ → LpDb × ℕ
counted (db, n) = (db, suc n)

unfoldable pub move_to : ℤ → String → List Profile → LpDb → LpDb × ℕ
move_to target reason [] db = (db, 0)
move_to target reason (r ∷ rs) db =
    let delta = target -ℤ r.pt_balance in
    let moved = counted (move_to target reason rs (ledger_raw db r.open_id delta reason none)) in
    let kept = move_to target reason rs db in if eqb_ℤ delta (pos 0) then kept else moved

unfoldable pub reset_all_pt_to : LpDb → ℤ → String → LpDb × ℕ
unfolding move_to
reset_all_pt_to db target reason = move_to target reason (keep (is_member db) db.profiles) db
