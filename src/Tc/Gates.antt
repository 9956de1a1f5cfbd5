-- ===== src/Tc/Gates.antt =====
-- The status gate: a survey is settled or cancelled once.
use polis_game.Base.{
  ℕ, ◌≡◌, refl, String, Bool, false, not, ◌&&◌, List, [], ◌∷◌, eqb, arith, Bool-cases, ltb, some,
  any, map, keep, inl, inr,
}
use polis_game.Base.Int.{ℤ}
use polis_game.Base.Rows.{update, row_count}
use polis_game.Lp.{LpDb}
use polis_game.Tc.{settled, cancelled, TcProposal, TcDb}
use polis_game.Tc.Store.{is_active, cancel_tc_proposal, settle_tc_proposal}
use polis_game.Settlement.{compute_tc_settlement}
use polis_game.Bets.{get_bets}
use polis_game.Tc.Flow.{bet_row, already_settled, settle_tc, cancel_tc_with_refund}
use polis_game.Bets.Refunds.{Calls}

abbrev pub is_open : ℕ → TcProposal → Bool
is_open id p = eqb p.id id && is_active p

-- No row hit: the table stays.
missed :
    (id : ℕ) (f : TcProposal → TcProposal) (ps : List TcProposal)
    → any (is_open id) ps ≡ false
    → (update (is_open id) f ps ≡ ps) × (row_count (is_open id) ps ≡ 0)
missed id f [] h = (refl, refl)
missed id f (p ∷ ps) h = ground (arith, h, missed id f ps)

-- Both transitions leave the active status, so afterwards no row is open.
closed :
    (id : ℕ) (f : TcProposal → TcProposal) (ps : List TcProposal)
    → ((p : TcProposal) → is_active (f p) ≡ false)
    → any (is_open id) (update (is_open id) f ps) ≡ false
closed id f [] h = refl
closed id f (p ∷ ps) h = grind (arith, h p, closed id f ps h)

settle_tc-closed :
    (parse : String → ℤ) (no_bonus : Bool) (calls : ℕ → Calls) (db : TcDb) (lp : LpDb)
    (proposal : TcProposal)
    → any (is_open proposal.id) db.proposals ≡ false
    → settle_tc parse no_bonus calls db lp proposal ≡ (db, (lp, already_settled))
unfolding settle_tc settle_tc_proposal
settle_tc-closed parse no_bonus calls db lp proposal h =
    let bets = map bet_row (keep (λ b. not b.is_refunded) (get_bets db.bets proposal.id)) in
    let result = compute_tc_settlement parse proposal.option_type bets no_bonus in
    let f : TcProposal → TcProposal = λ p. record p {
      status = settled;
      settled_value = result.settled_value;
      settled_option = result.settled_option;
      settled_at = some db.now;
      updated_at = db.now;
    } in
    let m = missed proposal.id f db.proposals h in rw (m.1, m.0) refl

settled_closed :
    (parse : String → ℤ) (no_bonus : Bool) (calls : ℕ → Calls) (db : TcDb) (lp : LpDb)
    (proposal : TcProposal)
    → any (is_open proposal.id) (settle_tc parse no_bonus calls db lp proposal).0.proposals ≡ false
unfolding settle_tc settle_tc_proposal
settled_closed parse no_bonus calls db lp proposal =
    let bets = map bet_row (keep (λ b. not b.is_refunded) (get_bets db.bets proposal.id)) in
    let result = compute_tc_settlement parse proposal.option_type bets no_bonus in
    let f : TcProposal → TcProposal = λ p. record p {
      status = settled;
      settled_value = result.settled_value;
      settled_option = result.settled_option;
      settled_at = some db.now;
      updated_at = db.now;
    } in
    elim (Bool-cases (ltb 0 (row_count (is_open proposal.id) db.proposals))) [
      | inl hit ↦ rw hit (closed proposal.id f db.proposals (λ p. refl))
      | inr miss ↦ rw miss (closed proposal.id f db.proposals (λ p. refl))
    ]

cancelled_closed :
    (calls : ℕ → Calls) (db : TcDb) (lp : LpDb) (proposal : TcProposal)
    → any (is_open proposal.id) (cancel_tc_with_refund calls db lp proposal).db.proposals ≡ false
unfolding cancel_tc_with_refund cancel_tc_proposal
cancelled_closed calls db lp proposal =
    closed proposal.id (λ p. record p { status = cancelled; updated_at = db.now }) db.proposals
      (λ p. refl)

-- A second settlement of a survey changes nothing and pays nobody, whatever became of the first.
pub settle_tc_twice :
    (parse : String → ℤ) (no_bonus : Bool) (calls calls' : ℕ → Calls) (db : TcDb) (lp : LpDb)
    (proposal : TcProposal)
    → let (db1, (lp1, _)) = settle_tc parse no_bonus calls db lp proposal in
      settle_tc parse no_bonus calls' db1 lp1 proposal ≡ (db1, (lp1, already_settled))
settle_tc_twice parse no_bonus calls calls' db lp proposal =
    let r = settle_tc parse no_bonus calls db lp proposal in
    settle_tc-closed parse no_bonus calls' r.0 r.1.0 proposal
      (settled_closed parse no_bonus calls db lp proposal)

-- After a cancellation a settlement changes nothing and pays nobody.
pub settle_after_cancel :
    (parse : String → ℤ) (no_bonus : Bool) (calls calls' : ℕ → Calls) (db : TcDb) (lp : LpDb)
    (proposal : TcProposal)
    → let c = cancel_tc_with_refund calls db lp proposal in
      settle_tc parse no_bonus calls' c.db c.lp proposal ≡ (c.db, (c.lp, already_settled))
settle_after_cancel parse no_bonus calls calls' db lp proposal =
    let c = cancel_tc_with_refund calls db lp proposal in
    settle_tc-closed parse no_bonus calls' c.db c.lp proposal
      (cancelled_closed calls db lp proposal)
