-- ===== src/Agent/Replies/Refunds.antt =====
-- What the replies of channels/feishu-bot.ts cost when the model fails or the process restarts.
use polis_game.Base.{
  ℕ, suc, ◌≡◌, ◌≢◌, refl, ap, ◌∙◌, String, ◌==◌, eq_iff, Bool, true, false, not, ◌&&◌, [], ◌∷◌, leb,
  eqb, eqb_iff, arith, Bool-cases, inl, inr, if◌then◌else◌,
}
use polis_game.Base.Int.{ℤ, pos, ◌+ℤ◌, ◌-ℤ◌, int_laws}
use polis_game.Lp.{LpDb}
use polis_game.Lp.Accounts.{resolve, cid, balance_in, grant_pt, spend_pt}
use polis_game.Lp.Books.{Books, grant_pt-Books}
use polis_game.Lp.FirstContact.{gift}
use polis_game.Lp.Ownership.{grant_pt-links}
use polis_game.Lp.Spending.{Spent, spend_pt-Spent}
use polis_game.Lp.Strategy.{LpStrategy}
use polis_game.Agent.Replies.{
  PendingReply, BotJob, Replies, erred, charge, process_job, crash, refund, recover_one, recover,
  recover_each, update_pending_reply,
}

abbrev pub balance_of : Replies → String → ℤ
balance_of st j = balance_in j st.lp.profiles

back : (a cost : ℤ) → a -ℤ cost +ℤ cost ≡ a
back a cost = omega int_laws

update-lp :
    (id : ℕ) (change : PendingReply → PendingReply) (st : Replies)
    → (update_pending_reply id change st).lp ≡ st.lp
unfolding update_pending_reply
update-lp id change st = elim (Bool-cases (eqb id 0)) [
  | inl none_there ↦ rw none_there
  | inr there ↦ rw there
]

-- The payment behind a charge.
abbrev payment : LpStrategy → BotJob → Replies → LpDb × Bool
payment strategy job st =
    spend_pt st.lp job.sender_open_id (pos strategy.cost) "llm_reply" job.message_id

charge_lem :
    (strategy : LpStrategy) (job : BotJob) (st : Replies)
    → ((charge strategy job st).0.lp ≡ (payment strategy job st).0)
      × ((charge strategy job st).1 ≡ (payment strategy job st).1)
unfolding charge
charge_lem strategy job st = elim (Bool-cases (payment strategy job st).1) [
  | inl yes_paid ↦
      rw yes_paid
        (update-lp job.pending_id _ (record st { lp = (payment strategy job st).0 }), refl)
  | inr short ↦ rw short (refl, refl)
]

module _ (strategy : LpStrategy) (job : BotJob) (st : Replies) (books : Books st.lp) where
  abbrev id : String
  id = cid st.lp job.sender_open_id

  abbrev cost : ℤ
  cost = pos strategy.cost

  abbrev lp1 : LpDb
  lp1 = (payment strategy job st).0

  spent : Spent st.lp id cost (payment strategy job st)
  spent = spend_pt-Spent st.lp job.sender_open_id "llm_reply" cost job.message_id books

  same_account : cid lp1 job.sender_open_id ≡ id
  same_account = ap (λ links. resolve links job.sender_open_id) spent.links

  refunded :
      (j : String)
      → (payment strategy job st).1 ≡ true
      → balance_in j
          (grant_pt lp1 job.sender_open_id cost "refund_on_error" job.message_id).0.profiles
        ≡ (if id == j then balance_of st j +ℤ gift st.lp id else balance_of st j)
  refunded j paid =
      let g =
        grant_pt-Books lp1 job.sender_open_id "refund_on_error" cost job.message_id spent.books in
      let charged = spent.balances j in
      let credited = g.2 j in
      elim (Bool-cases (id == j)) [
        | inl mine ↦
            let now = (rw (mine, paid) at charged) in
            rw mine ((rw (same_account, mine) at credited) ∙ ap (λ b. b +ℤ cost) now ∙ back _ cost)
        | inr other ↦ rw other ((rw (same_account, other) at credited) ∙ (rw other at charged))
      ]

  -- A reply that fails before a bonus, to a sender who is known, costs nothing as long as the grant of
  -- the refund goes through: whether or not it could be paid, every balance is what it was, up to the
  -- welcome grant of a new account.
  pub failed_reply_free :
      job.sender_open_id ≢ ""
      → (j : String)
      → balance_of (process_job strategy job erred true st).0 j
        ≡ (if id == j then balance_of st j +ℤ gift st.lp id else balance_of st j)
  unfolding process_job
  failed_reply_free named j = elim (Bool-cases (job.sender_open_id == "")) [
    | inl blank ↦ absurd (named ((eq_iff job.sender_open_id "").0 blank))
    | inr full ↦ elim (Bool-cases (payment strategy job st).1) [
      | inl paid ↦
          rw (full, (charge_lem strategy job st).1, paid, (charge_lem strategy job st).0)
            (refunded j paid)
      | inr short ↦
          rw (full, (charge_lem strategy job st).1, short, (charge_lem strategy job st).0)
            (let kept = spent.balances j in (rw short at kept))
    ]
  ]

refund-lp :
    (p : PendingReply) (st : Replies)
    → p.pt_spent ≡ true
    → p.sender_open_id == "" ≡ false
    → (refund p st).lp
      ≡ (grant_pt st.lp p.sender_open_id (pos 1) "refund_interrupted" p.message_id).0
unfolding refund
refund-lp p st charged named = rw (charged, named) refl

refund-pendings : (p : PendingReply) (st : Replies) → (refund p st).pendings ≡ st.pendings
unfolding refund
refund-pendings p st = elim (Bool-cases (p.pt_spent && not (p.sender_open_id == ""))) [
  | inl due ↦ rw due refl
  | inr free ↦ rw free refl
]

abbrev rerun : PendingReply → PendingReply
rerun p = record p { attempts = suc p.attempts }

update-alone :
    (p : PendingReply) (st : Replies)
    → eqb p.id 0 ≡ false
    → st.pendings ≡ p ∷ []
    → (update_pending_reply p.id (λ r. record r { attempts = suc p.attempts }) st).pendings
      ≡ rerun p ∷ []
unfolding update_pending_reply
update-alone p st numbered alone = rw (numbered, alone, (eqb_iff p.id p.id).1 refl) refl

recover_one-again :
    (p : PendingReply) (st : Replies)
    → eqb p.id 0 ≡ false
    → st.pendings ≡ p ∷ []
    → leb 2 p.attempts ≡ false
    → ((recover_one p st).lp ≡ (refund p st).lp) × ((recover_one p st).pendings ≡ rerun p ∷ [])
unfolding recover_one
recover_one-again p st numbered alone again = rw again (
  update-lp p.id _ (refund p st),
  update-alone p (refund p st) numbered (refund-pendings p st ∙ alone),
)

recover-alone :
    (p : PendingReply) (st : Replies) → st.pendings ≡ p ∷ [] → recover st ≡ recover_one p st
unfolding recover
recover-alone p st alone = ap (λ ps. recover_each ps st) alone

recovered :
    (p : PendingReply) (st : Replies)
    → eqb p.id 0 ≡ false
    → st.pendings ≡ p ∷ []
    → leb 2 p.attempts ≡ false
    → ((recover st).lp ≡ (refund p st).lp) × ((recover st).pendings ≡ rerun p ∷ [])
recovered p st numbered alone again =
    let (lp, pendings) = recover_one-again p st numbered alone again in
    let same = recover-alone p st alone in
    (ap (λ r. r.lp) same ∙ lp, ap (λ r. r.pendings) same ∙ pendings)

-- One restart, for the account `a` of a reply that was charged.
record Owed (p : PendingReply) (a : String) (st : Replies) : Type 0 where
  books : Books st.lp
  alone : st.pendings ≡ p ∷ []
  owner : cid st.lp p.sender_open_id ≡ a
  numbered : eqb p.id 0 ≡ false
  charged : p.pt_spent ≡ true
  named : p.sender_open_id == "" ≡ false

refund-Owed :
    (p : PendingReply) (a : String) (st : Replies)
    → Owed p a st
    → leb 2 p.attempts ≡ false
    → Owed (rerun p) a (recover st) × (balance_of (recover st) a ≡ balance_of st a +ℤ pos 1)
refund-Owed p a st o again =
    let (lp, pendings) = recovered p st o.numbered o.alone again in
    let lp' = lp ∙ refund-lp p st o.charged o.named in
    let g =
      grant_pt-Books st.lp p.sender_open_id "refund_interrupted" (pos 1) p.message_id o.books in
    let credited = g.2 a in
    let paid = (rw (o.owner, (eq_iff a a).1 refl) at credited) in
    (
      record {
        books = rw lp' g.0;
        alone = pendings;
        owner = rw lp' (
            ap (λ links. resolve links p.sender_open_id)
              (grant_pt-links st.lp p.sender_open_id "refund_interrupted" (pos 1) p.message_id)
            ∙ o.owner);
        numbered = o.numbered;
        charged = o.charged;
        named = o.named;
      },
      rw lp' paid,
    )

crash-Owed : (p : PendingReply) (a : String) (st : Replies) → Owed p a st → Owed p a (crash st)
unfolding crash
crash-Owed p a st o = record {
  books = o.books;
  alone = o.alone;
  owner = o.owner;
  numbered = o.numbered;
  charged = o.charged;
  named = o.named;
}

-- For a charged reply to a sender who is known that is the only one pending and was not yet run again,
-- two restarts in a row, without another charge between them, refund 0.1 LP twice.
pub charged_once_refunded_twice :
    (p : PendingReply) (st : Replies)
    → Books st.lp
    → st.pendings ≡ p ∷ []
    → p.id ≢ 0
    → p.attempts ≡ 0
    → p.pt_spent ≡ true
    → p.sender_open_id ≢ ""
    → let a = cid st.lp p.sender_open_id in
      balance_of (recover (crash (recover st))) a ≡ balance_of st a +ℤ pos 1 +ℤ pos 1
unfolding crash
charged_once_refunded_twice p st books alone numbered fresh charged named =
    let a = cid st.lp p.sender_open_id in
    let (once, first) =
      refund-Owed p a st
        (record {
          books = books;
          alone = alone;
          owner = refl;
          numbered = ground (arith, eqb_iff p.id 0);
          charged = charged;
          named = ground (arith, eq_iff p.sender_open_id "");
        })
        (rw fresh refl) in
    let (twice, second) =
      refund-Owed (rerun p) a (crash (recover st)) (crash-Owed (rerun p) a (recover st) once)
        (rw fresh refl) in
    second ∙ ap (λ b. b +ℤ pos 1) first
