-- ===== src/Lp/Spending.antt =====
-- Spending: what it does to the balances, and that the books still agree.
use polis_game.Base.{
  ◌≡◌, refl, sym, String, ◌==◌, eq_iff, Bool, true, false, not, ◌&&◌, Option, none, List, [], ◌∷◌,
  ◌++◌, eqb, arith, Bool-cases, inl, inr, if◌then◌else◌,
}
use polis_game.Base.Int.{ℤ, pos, ◌+ℤ◌, ◌-ℤ◌, leb_ℤ, int_laws}
use polis_game.Base.Rows.{update, row_count}
use polis_game.Lp.{Profile, LedgerRow, LpDb}
use polis_game.Lp.Accounts.{cid, balance_in, ensure_profile_raw, spend_pt}
use polis_game.Lp.Books.{has_profile, Books, IsKeyed, update-IsKeyed, booked-append}
use polis_game.Lp.FirstContact.{gift, ensure-Ensured}

abbrev pub can_pay : String → ℤ → Profile → Bool
can_pay id cost p = p.open_id == id && leb_ℤ cost p.pt_balance

abbrev debit : ℤ → Profile → Profile
debit cost p = record p { pt_balance = p.pt_balance -ℤ cost }

absent_pays :
    (id : String) (cost : ℤ) (ps : List Profile)
    → has_profile id ps ≡ false
    → (update (can_pay id cost) (debit cost) ps ≡ ps) × (row_count (can_pay id cost) ps ≡ 0)
absent_pays id cost [] h = (refl, refl)
absent_pays id cost (p ∷ ps) h = ground (arith, absent_pays id cost ps)

-- The guarded UPDATE finds a row exactly when the account can pay.
row_count-can_pay :
    (id : String) (cost : ℤ) (ps : List Profile)
    → IsKeyed ps
    → has_profile id ps ≡ true
    → eqb (row_count (can_pay id cost) ps) 0 ≡ not (leb_ℤ cost (balance_in id ps))
row_count-can_pay id cost [] k h = cc
row_count-can_pay id cost (p ∷ ps) k h =
    ground (arith, eq_iff p.open_id id, absent_pays id cost ps, row_count-can_pay id cost ps k.1)

balance_in-debit_self :
    (id : String) (cost : ℤ) (ps : List Profile)
    → IsKeyed ps
    → leb_ℤ cost (balance_in id ps) ≡ true
    → has_profile id ps ≡ true
    → balance_in id (update (can_pay id cost) (debit cost) ps) ≡ balance_in id ps -ℤ cost
balance_in-debit_self id cost [] k le h = cc
balance_in-debit_self id cost (p ∷ ps) k le h = ground (arith, balance_in-debit_self id cost ps k.1)

balance_in-debit_ne :
    (id j : String) (cost : ℤ) (ps : List Profile)
    → (id == j) ≡ false
    → balance_in j (update (can_pay id cost) (debit cost) ps) ≡ balance_in j ps
balance_in-debit_ne id j cost [] ne = refl
balance_in-debit_ne id j cost (p ∷ ps) ne = ground (
  arith,
  eq_iff p.open_id id,
  eq_iff p.open_id j,
  eq_iff id j,
  balance_in-debit_ne id j cost ps ne,
)

-- What a call of `spendPt` did: whether it paid, and the balances.
pub record Spent (db : LpDb) (id : String) (cost : ℤ) (r : LpDb × Bool) : Type 0 where
  pub books : Books r.0
  pub decided : r.1 ≡ leb_ℤ cost (balance_in id db.profiles +ℤ gift db id)
  pub balances :
      (j : String)
      → balance_in j r.0.profiles ≡ (
          if id == j
          then (if r.1
              then balance_in j db.profiles +ℤ gift db id -ℤ cost
              else balance_in j db.profiles +ℤ gift db id)
          else balance_in j db.profiles)
  pub links : r.0.identity_links ≡ db.identity_links

-- The paying branch, from the database after `ensureProfileRaw`.
paid :
    (db : LpDb) (id : String) (cost : ℤ) (reason : String) (ref : Option String)
    → Books db
    → has_profile id db.profiles ≡ true
    → leb_ℤ cost (balance_in id db.profiles) ≡ true
    → Books (record db {
      profiles = update (can_pay id cost) (debit cost) db.profiles;
      pt_ledger =
          db.pt_ledger
          ++ record {
            user_open_id = id;
            delta = pos 0 -ℤ cost;
            reason = reason;
            ref_message_id = ref;
            created_at = db.clock;
          }
            ∷ [];
    })
paid db id cost reason ref b h le =
    let row : LedgerRow = record {
      user_open_id = id;
      delta = pos 0 -ℤ cost;
      reason = reason;
      ref_message_id = ref;
      created_at = db.clock;
    } in
    record {
      keyed = update-IsKeyed (can_pay id cost) (debit cost) (λ r. refl) db.profiles b.keyed;
      balanced = λ j. grind (
        int_laws,
        booked-append j db.pt_ledger row,
        b.balanced j,
        eq_iff id j,
        balance_in-debit_self id cost db.profiles b.keyed le h,
        balance_in-debit_ne id j cost db.profiles,
      );
      flat = b.flat;
    }

-- On books that agree, `spendPt` pays exactly when the balance, with the welcome grant of a new
-- account counted in, covers the cost. It then takes the cost from the canonical account; if it
-- does not pay, only the welcome grant is booked. No other balance moves, and the books still
-- agree.
pub spend_pt-Spent :
    (db : LpDb) (open_id reason : String) (cost : ℤ) (ref : Option String)
    → Books db
    → Spent db (cid db open_id) cost (spend_pt db open_id cost reason ref)
unfolding spend_pt
spend_pt-Spent db open_id reason cost ref b =
    let id = cid db open_id in
    let db1 = (ensure_profile_raw db id "" none).0 in
    let e = ensure-Ensured db id "" none (b.flat open_id) b in
    let q = row_count-can_pay id cost db1.profiles e.books.keyed e.here in
    let same = e.balances id in
    elim (Bool-cases (leb_ℤ cost (balance_in id db1.profiles))) [
      | inl covered ↦
          rw (q, covered)
            (record {
              books = paid db1 id cost reason ref e.books e.here covered;
              decided = sym (ground (arith, same, covered, eq_iff id id));
              balances = λ j. grind (
                arith,
                e.balances j,
                eq_iff id j,
                covered,
                balance_in-debit_self id cost db1.profiles e.books.keyed covered e.here,
                balance_in-debit_ne id j cost db1.profiles,
              );
              links = e.links;
            })
      | inr short ↦
          rw (q, short)
            (record {
              books = e.books;
              decided = sym (ground (arith, same, short, eq_iff id id));
              balances = λ j. e.balances j;
              links = e.links;
            })
    ]
