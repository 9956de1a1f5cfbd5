-- ===== src/Commands/TcManagement.antt =====
-- What the `tc` command of core/commands.ts does, compared with the handler of core/tc-command.ts.
use polis_game.Base.{
  ℕ, ◌+◌, ◌≡◌, refl, ◌∙◌, ap, sym, String, ◌==◌, eq_iff, Bool, true, false, if◌then◌else◌, Option,
  none, some, List, [], ◌∷◌, leb, arith, Option-cases, suc, inl, inr,
}
use mathlib.Core.Path.{subst}
use polis_game.Base.Int.{ℤ, pos}
use polis_game.Base.Order.{sort_by, insert_by}
use polis_game.Lp.{LpDb}
use polis_game.Lp.Accounts.{grant_pt}
use polis_game.Settlement.{BetRow, discrete, total_lp, add_lp, lp_by_option}
use polis_game.Tc.{TcProposal, TcProposalUpdate, TcDb}
use polis_game.Tc.Store.{get_tc_by_num, cancel_tc_proposal}
use polis_game.Tc.Flow.{cancel_tc_with_refund}
use polis_game.Predict.Commands.{try_handle_tc_command, cancel_tc_on}
use polis_game.Commands.TcCommand.{
  refund_each, refund_tc_bets, cancel_found, tc_cancel, QueryReply, active_rows, query_reply,
  query_tc_reply, option_lines, tc_edit,
}
use polis_game.Bets.{Bet, BetTable, mark_bet_refunded, get_unrefunded_bets}
use polis_game.Bets.Refunds.{Refunded, refund_bets, first_works, both_work, Calls}

counted-same :
    (paid : Bool) (n : ℕ) (r : Refunded)
    → let s =
        if paid
        then record r { refunded = suc r.refunded; refunded_lp = n + r.refunded_lp }
        else r in
      (s.table ≡ r.table) × (s.lp ≡ r.lp)
counted-same true n r = (refl, refl)
counted-same false n r = (refl, refl)

-- Both loops do the same to the bets and to the LP database.
refund_each-agrees :
    (calls : ℕ → Calls) (p : TcProposal) (pending : List Bet) (t : BetTable) (lp : LpDb) (n : ℕ)
    → let r = refund_each calls p pending t lp n in
      let s = refund_bets calls "tc_refund_cancel" p.top_message_id t lp pending in
      (r.table ≡ s.table) × (r.lp ≡ s.lp)
unfolding refund_bets
refund_each-agrees calls p [] t lp n = (refl, refl)
refund_each-agrees calls p (bet ∷ pending) t lp n =
    let paid = both_work (calls bet.id) in
    let t1 = if first_works (calls bet.id) then (mark_bet_refunded t bet.id).0 else t in
    let lp1 =
      if paid
      then (grant_pt lp bet.user_open_id (pos bet.lp_amount) "tc_refund_cancel"
          (some p.top_message_id)).0
      else lp in
    let rest = refund_bets calls "tc_refund_cancel" p.top_message_id t1 lp1 pending in
    let same = refund_each-agrees calls p pending t1 lp1 (if paid then suc n else n) in
    let counted = counted-same paid bet.lp_amount rest in
    (same.0 ∙ sym counted.0, same.1 ∙ sym counted.1)

-- Both cancellations, past their guards.
refund_tc_bets-agrees :
    (calls : ℕ → Calls) (db : TcDb) (lp : LpDb) (p : TcProposal)
    → let r = refund_tc_bets calls db lp p in
      let c = cancel_tc_with_refund calls db lp p in
      ((cancel_tc_proposal (record db { bets = r.table }) p.id).0 ≡ c.db) × (r.lp ≡ c.lp)
unfolding refund_tc_bets cancel_tc_with_refund
refund_tc_bets-agrees calls db lp p =
    let same = refund_each-agrees calls p (get_unrefunded_bets db.bets p.id) db.bets lp 0 in
    (ap (λ t. (cancel_tc_proposal (record db { bets = t }) p.id).0) same.0, same.1)

cancel_found-agrees :
    (is_admin : String → Bool) (calls : ℕ → Calls) (db : TcDb) (lp : LpDb) (o : Option TcProposal)
    (sender : String)
    → (sender == "") ≡ false
    → let r = cancel_found is_admin calls db lp sender o in
      let s = cancel_tc_on is_admin calls db lp sender o in (r.0 ≡ s.0) × (r.1.0 ≡ s.1.0)
cancel_found-agrees is_admin calls db lp none sender h = (refl, refl)
cancel_found-agrees is_admin calls db lp (some p) sender h = ground (
  arith,
  h,
  eq_iff p.created_by sender,
  eq_iff sender p.created_by,
  refund_tc_bets-agrees calls db lp p,
)

-- For a sender who is known, a cancellation by the general command has the same effect on the survey
-- database and on the LP database as one by the handler that runs before it, whatever the number,
-- the status of the survey, the rights of the sender and the grants that fail.
pub tc_cancel-agrees :
    (is_admin : String → Bool) (calls : ℕ → Calls) (db : TcDb) (lp : LpDb) (num : Option ℕ)
    (sender : String)
    → (sender == "") ≡ false
    → let r = tc_cancel is_admin calls db lp num sender in
      let s = try_handle_tc_command is_admin calls db lp num sender in (r.0 ≡ s.0) × (r.1.0 ≡ s.1.0)
unfolding tc_cancel try_handle_tc_command
tc_cancel-agrees is_admin calls db lp none sender h = (refl, refl)
tc_cancel-agrees is_admin calls db lp (some num) sender h =
    cancel_found-agrees is_admin calls db lp (get_tc_by_num db num) sender h

-- The amounts of a list of options.
abbrev pub amounts : List (String × ℕ) → ℕ
amounts [] = 0
amounts (o ∷ os) = o.1 + amounts os

amounts-insert_by :
    (before : String × ℕ → String × ℕ → Bool) (o : String × ℕ) (os : List (String × ℕ))
    → amounts (insert_by before o os) ≡ o.1 + amounts os
amounts-insert_by before o [] = refl
amounts-insert_by before o (p ∷ os) = ground (arith, amounts-insert_by before o os)

amounts-sort_by :
    (before : String × ℕ → String × ℕ → Bool) (os : List (String × ℕ))
    → amounts (sort_by before os) ≡ amounts os
amounts-sort_by before [] = refl
amounts-sort_by before (o ∷ os) =
    amounts-insert_by before o (sort_by before os) ∙ ap (λ n. o.1 + n) (amounts-sort_by before os)

amounts-add_lp :
    (opt : String) (lp : ℕ) (m : List (String × ℕ)) → amounts (add_lp opt lp m) ≡ lp + amounts m
amounts-add_lp opt lp [] = omega arith
amounts-add_lp opt lp ((o, n) ∷ m) = ground (arith, amounts-add_lp opt lp m)

amounts-lp_by_option :
    (m : List (String × ℕ)) (bets : List BetRow)
    → amounts (lp_by_option m bets) ≡ amounts m + total_lp bets
amounts-lp_by_option m [] = omega arith
amounts-lp_by_option m (b ∷ bs) = omega (
  arith,
  amounts-lp_by_option (add_lp b.option_value b.lp_amount m) bs,
  amounts-add_lp b.option_value b.lp_amount m,
)

-- In the reply to a query about a discrete survey, the amounts of the options add up to the total
-- that is shown, which is the sum of the stakes that are not refunded.
pub query_tc_reply_total :
    (parse : String → ℤ) (db : TcDb) (num : ℕ) (r : QueryReply)
    → query_tc_reply parse db num ≡ some r
    → r.option_type ≡ discrete
    → (amounts r.options ≡ r.total)
      × ((p : TcProposal) × (get_tc_by_num db num ≡ some p)
          × (r.total ≡ total_lp (active_rows db p)))
unfolding query_tc_reply
query_tc_reply_total parse db num r h d = elim (Option-cases (get_tc_by_num db num)) [
  | inl missing ↦ ground (arith, missing, h)
  | inr (p, found) ↦
      let bets = active_rows db p in
      let same : query_reply parse db p ≡ r = ground (arith, found, h) in
      let kind : p.option_type ≡ discrete = ap (λ s. s.option_type) same ∙ d in
      let sums : amounts (option_lines p.option_type bets) ≡ total_lp bets = rw kind (
        omega (
          arith,
          amounts-sort_by (λ a b. leb b.1 a.1) (lp_by_option [] bets),
          amounts-lp_by_option [] bets,
        )) in
      (subst (λ s. amounts s.options ≡ s.total) same sums, (p, found, sym (ap (λ s. s.total) same)))
]

-- A sender who is no administrator edits no survey.
pub tc_edit_admin_only :
    (is_admin : String → Bool) (db : TcDb) (num : Option ℕ) (updates : TcProposalUpdate)
    (sender : String)
    → is_admin sender ≡ false
    → (tc_edit is_admin db num updates sender).0 ≡ db
unfolding tc_edit
tc_edit_admin_only is_admin db none updates sender h = refl
tc_edit_admin_only is_admin db (some num) updates sender h =
    elim (Option-cases (get_tc_by_num db num)) [
      | inl missing ↦ ground (arith, missing)
      | inr (p, found) ↦ ground (arith, found, h)
    ]
