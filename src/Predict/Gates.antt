-- ===== src/Predict/Gates.antt =====
-- Who may announce or cancel a prediction, and that its settlement runs once.
use polis_game.Base.{
  ℕ, ◌≡◌, refl, ◌⊎◌, inl, inr, String, ◌==◌, Bool, true, false, ◌&&◌, List, [], ◌∷◌, eqb, arith,
  Bool-cases, Option, none, some, any,
}
use polis_game.Base.Rows.{update, row_count}
use polis_game.Lp.{LpDb}
use polis_game.Lp.Accounts.{has_badge}
use polis_game.Bets.{BetTable}
use polis_game.Tc.{settled}
use polis_game.Tc.Betting.{BetParse, Faults}
use polis_game.Predict.{PredictProposal, PredictDb}
use polis_game.Predict.Store.{is_active, settle_predict_proposal, get_predict_by_num}
use polis_game.Predict.Flow.{settle_predict, try_parse_predict_bet}
use polis_game.Predict.Commands.{
  announce, predict_judge_badge_id, try_handle_predict_command, announce_on,
}
use polis_game.Bets.Refunds.{Calls}

abbrev is_open : ℕ → PredictProposal → Bool
is_open id p = eqb p.id id && is_active p

missed :
    (id : ℕ) (f : PredictProposal → PredictProposal) (ps : List PredictProposal)
    → any (is_open id) ps ≡ false
    → (update (is_open id) f ps ≡ ps) × (row_count (is_open id) ps ≡ 0)
missed id f [] h = (refl, refl)
missed id f (p ∷ ps) h = ground (arith, h, missed id f ps)

-- The settlement leaves the active status, so afterwards no row is open.
closed :
    (id : ℕ) (f : PredictProposal → PredictProposal) (ps : List PredictProposal)
    → ((p : PredictProposal) → is_active (f p) ≡ false)
    → any (is_open id) (update (is_open id) f ps) ≡ false
closed id f [] h = refl
closed id f (p ∷ ps) h = grind (arith, h p, closed id f ps h)

abbrev announced_as : PredictDb → (winner announcer : String) → PredictProposal → PredictProposal
announced_as db winner announcer p = record p {
  status = settled;
  settled_option = some winner;
  announced_by = announcer;
  settled_at = some db.now;
  updated_at = db.now;
}

settle_predict-closed :
    (calls : ℕ → Calls) (chest_up : Bool) (db : PredictDb) (lp : LpDb) (p : PredictProposal)
    (winner announcer : String)
    → any (is_open p.id) db.proposals ≡ false
    → let r = settle_predict calls chest_up db lp p winner announcer in (r.0 ≡ db) × (r.1.0 ≡ lp)
unfolding settle_predict settle_predict_proposal
settle_predict-closed calls chest_up db lp p winner announcer h =
    let m = missed p.id (announced_as db winner announcer) db.proposals h in
    elim (Bool-cases (any (λ o. o == winner) p.options)) [
      | inr invalid ↦ rw invalid (refl, refl)
      | inl valid ↦ rw (valid, m.1, m.0) (refl, refl)
    ]

settled_closed :
    (calls : ℕ → Calls) (chest_up : Bool) (db : PredictDb) (lp : LpDb) (p : PredictProposal)
    (winner announcer : String)
    → any (λ o. o == winner) p.options ≡ true
    → any (is_open p.id) (settle_predict calls chest_up db lp p winner announcer).0.proposals
      ≡ false
unfolding settle_predict settle_predict_proposal
settled_closed calls chest_up db lp p winner announcer valid =
    let gone = closed p.id (announced_as db winner announcer) db.proposals (λ q. refl) in
    rw valid (ground (arith, gone))

-- Once a winner among the options has been announced, a second announcement, of whatever option and by
-- whomever, changes nothing and pays nobody.
pub settle_predict_twice :
    (calls calls' : ℕ → Calls) (chest_up chest_up' : Bool) (db : PredictDb) (lp : LpDb)
    (p : PredictProposal) (winner announcer winner' announcer' : String)
    → any (λ o. o == winner) p.options ≡ true
    → let r = settle_predict calls chest_up db lp p winner announcer in
      let again = settle_predict calls' chest_up' r.0 r.1.0 p winner' announcer' in
      (again.0 ≡ r.0) × (again.1.0 ≡ r.1.0)
settle_predict_twice calls calls' chest_up chest_up' db lp p winner announcer winner' announcer'
      valid =
    let r = settle_predict calls chest_up db lp p winner announcer in
    settle_predict-closed calls' chest_up' r.0 r.1.0 p winner' announcer'
      (settled_closed calls chest_up db lp p winner announcer valid)

abbrev pub MayAnnounce : PredictDb → LpDb → (sender winner : String) → PredictProposal → Type 0
MayAnnounce db lp sender winner p =
    (is_active p ≡ true)
    × (has_badge lp sender predict_judge_badge_id ≡ true)
    × (any (λ o. o == winner) p.options ≡ true)

announce_on-guard :
    (calls : ℕ → Calls) (chest_up : Bool) (db : PredictDb) (lp : LpDb) (sender winner : String)
    (found : Option PredictProposal)
    → let r = announce_on calls chest_up db lp sender winner found in
      ((r.0 ≡ db) × (r.1.0 ≡ lp))
      ⊎ ((p : PredictProposal) × (found ≡ some p) × MayAnnounce db lp sender winner p)
announce_on-guard calls chest_up db lp sender winner none = inl (refl, refl)
announce_on-guard calls chest_up db lp sender winner (some p) = elim (Bool-cases (is_active p)) [
  | inr over ↦ inl (rw over (refl, refl))
  | inl running ↦ elim (Bool-cases (has_badge lp sender predict_judge_badge_id)) [
    | inr plain ↦ inl (rw (running, plain) (refl, refl))
    | inl judge ↦ elim (Bool-cases (any (λ o. o == winner) p.options)) [
      | inr invalid ↦ inl (rw (running, judge, invalid) (refl, refl))
      | inl valid ↦ inr (p, refl, (running, judge, valid))
    ]
  ]
]

-- An announcement leaves both databases alone, or it names a stored prediction that is active and
-- one of its options, and the sender holds the badge of a judge.
pub announce_guarded :
    (calls : ℕ → Calls) (chest_up : Bool) (db : PredictDb) (lp : LpDb) (num : ℕ)
    (winner sender : String)
    → let r = try_handle_predict_command calls chest_up db lp (announce (some num) winner) sender in
      ((r.0 ≡ db) × (r.1.0 ≡ lp))
      ⊎ ((p : PredictProposal) × (get_predict_by_num db num ≡ some p)
          × MayAnnounce db lp sender winner p)
unfolding try_handle_predict_command
announce_guarded calls chest_up db lp num winner sender = elim (Bool-cases (winner == "")) [
  | inl blank ↦ inl (rw blank (refl, refl))
  | inr named ↦
      rw named (announce_on-guard calls chest_up db lp sender winner (get_predict_by_num db num))
]

-- A bet is taken or refused without regard to the end time of its prediction.
pub predict_bet_ignores_deadline :
    (marker : Bool) (faults : Faults) (seen_bets : BetTable) (seen_lp : LpDb) (db : PredictDb)
    (lp : LpDb) (parsed : Option BetParse) (p : PredictProposal) (sender message : String)
    (end_time : ℕ)
    → try_parse_predict_bet marker faults seen_bets seen_lp db lp parsed
        (record p { end_time = end_time })
        sender
        message
      ≡ try_parse_predict_bet marker faults seen_bets seen_lp db lp parsed p sender message
unfolding try_parse_predict_bet
predict_bet_ignores_deadline marker faults seen_bets seen_lp db lp none p sender message end_time =
    refl
predict_bet_ignores_deadline marker faults seen_bets seen_lp db lp (some b) p sender message
      end_time =
    refl
