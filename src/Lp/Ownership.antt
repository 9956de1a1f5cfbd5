-- ===== src/Lp/Ownership.antt =====
-- core/treasure-chest.ts: transfers move LP and make none, and a chest answers to its owner alone.
use polis_game.Base.{
  ◌≡◌, refl, ◌≢◌, ◌⊎◌, ap, ◌∙◌, String, ◌==◌, eq_iff, eq_refl, Bool, true, false, not, Option, none,
  some, List, [], ◌∷◌, ◌++◌, any, arith, Bool-cases, Option-cases, inl, inr, if◌then◌else◌,
}
use polis_game.Base.Int.{ℤ, pos, ◌+ℤ◌, ◌-ℤ◌, ◌≤ℤ◌, leb_ℤ, int_laws}
use polis_game.Base.Rows.{select_first}
use polis_game.Lp.{Chest, LpDb}
use polis_game.Lp.Accounts.{
  resolve, cid, balance_or_zero, balance_in, get_profile, grant_pt, spend_pt,
}
use polis_game.Lp.Books.{Books, grant_pt-Books}
use polis_game.Lp.Chests.{
  Result, ok, err, not_found, not_owner, insufficient_balance, invalid_amount, CreateChestInput,
  get_chest, create_chest, chest_balance, transfer_pt, chest_deposit, chest_withdraw,
}
use polis_game.Lp.FirstContact.{gift}
use polis_game.Lp.Spending.{Spent, spend_pt-Spent}

abbrev pub taken : Bool → ℤ → ℤ
taken true amount = amount
taken false amount = pos 0

-- What a transfer did, account by account: the payer loses the amount and the payee gains it if the
-- payer's balance (with the welcome grant of a new account) covers it, and otherwise only that grant
-- is booked.
pub record Moved (db : LpDb) (f t : String) (amount : ℤ) (r : LpDb × Bool) : Type 0 where
  pub books : Books r.0
  pub decided : r.1 ≡ leb_ℤ amount (balance_in f db.profiles +ℤ gift db f)
  pub balances :
      (j : String)
      → balance_in j r.0.profiles
        ≡ balance_in j db.profiles
          +ℤ taken (f == j) (gift db f)
          -ℤ (if r.1 then taken (f == j) amount else pos 0)
          +ℤ (if r.1 then taken (t == j) amount else pos 0)
  pub links : r.0.identity_links ≡ db.identity_links

pub grant_pt-links :
    (db : LpDb) (x reason : String) (delta : ℤ) (ref : Option String)
    → (grant_pt db x delta reason ref).0.identity_links ≡ db.identity_links
unfolding grant_pt polis_game.Lp.Accounts.ledger_raw polis_game.Lp.Accounts.upsert_profile_raw
grant_pt-links db x reason delta ref = refl

debited_then_credited :
    (payer payee : Bool) (old welcome amount : ℤ)
    → (if payee
        then (if payer then old +ℤ welcome -ℤ amount else old) +ℤ amount
        else (if payer then old +ℤ welcome -ℤ amount else old))
      ≡ old +ℤ taken payer welcome -ℤ taken payer amount +ℤ taken payee amount
debited_then_credited true true old welcome amount = omega int_laws
debited_then_credited true false old welcome amount = omega int_laws
debited_then_credited false true old welcome amount = omega int_laws
debited_then_credited false false old welcome amount = omega int_laws

transfer_paid :
    (db db1 : LpDb) (f to reason : String) (amount : ℤ) (ref : Option String)
    → Spent db f amount (db1, true)
    → Moved db f (cid db to) amount ((grant_pt db1 to amount reason ref).0, true)
transfer_paid db db1 f to reason amount ref s =
    let g = grant_pt-Books db1 to reason amount ref s.books in
    let same : cid db1 to ≡ cid db to = ap (λ links. resolve links to) s.links in
    record {
      books = g.0;
      decided = s.decided;
      balances = λ j.
          g.2 j
          ∙ rw (same, s.balances j)
              (debited_then_credited (f == j) (cid db to == j) (balance_in j db.profiles)
                (gift db f) amount);
      links = grant_pt-links db1 to reason amount ref ∙ s.links;
    }

transfer_refused :
    (db db1 : LpDb) (f t : String) (amount : ℤ)
    → Spent db f amount (db1, false)
    → Moved db f t amount (db1, false)
transfer_refused db db1 f t amount s = record {
  books = s.books;
  decided = s.decided;
  balances = λ j. grind (int_laws, s.balances j);
  links = s.links;
}

transfer_both :
    (db db1 : LpDb) (spent : Bool) (f to reason : String) (amount : ℤ) (ref : Option String)
    → Spent db f amount (db1, spent)
    → Moved db f
        (cid db to)
        amount
        (if not spent then (db1, false) else ((grant_pt db1 to amount reason ref).0, true))
transfer_both db db1 true f to reason amount ref s = transfer_paid db db1 f to reason amount ref s
transfer_both db db1 false f to reason amount ref s = transfer_refused db db1 f (cid db to) amount s

-- On books that agree, a transfer is made exactly when the payer's balance, with the welcome grant
-- of a new account, covers it. Then the payer's canonical account loses the amount and the payee's
-- gains it, which may be one account; otherwise only the welcome grant is booked. No other balance
-- moves, and the books still agree.
pub transfer_pt-Moved :
    (db : LpDb) (from to : String) (amount : ℤ) (out_reason in_reason : String)
    (ref : Option String)
    → Books db
    → Moved db
        (cid db from)
        (cid db to)
        amount
        (transfer_pt db from to amount out_reason in_reason ref)
unfolding transfer_pt
transfer_pt-Moved db from to amount out_reason in_reason ref b =
    let r = spend_pt db from amount out_reason ref in
    transfer_both db r.0 r.1 (cid db from) to in_reason amount ref
      (spend_pt-Spent db from out_reason amount ref b)

-- The five ways in which an operation of `sender` on a chest can end, each with its condition: no
-- such chest, a sender who is not its owner, an amount that is not positive (all three leave the
-- database as it was), a transfer that is refused, and a transfer that is made, which reports the
-- chest's balance after it. `moved` is the transfer.
abbrev pub Guarded : LpDb → (chest_id sender : String) → ℤ → LpDb × Bool → LpDb × Result ℤ → Type 0
Guarded db chest_id sender amount moved r =
    ((get_chest db chest_id ≡ none) × (r ≡ (db, err not_found)))
    ⊎ ((c : Chest) × (get_chest db chest_id ≡ some c)
        × (((sender ≢ c.owner_open_id) × (r ≡ (db, err not_owner)))
            ⊎ ((sender ≡ c.owner_open_id) × (amount ≤ℤ pos 0) × (r ≡ (db, err invalid_amount)))
            ⊎ ((sender ≡ c.owner_open_id)
                × (pos 1 ≤ℤ amount)
                × (moved.1 ≡ false)
                × (r ≡ (moved.0, err insufficient_balance)))
            ⊎ ((sender ≡ c.owner_open_id)
                × (pos 1 ≤ℤ amount)
                × (moved.1 ≡ true)
                × (r ≡ (moved.0, ok (chest_balance moved.0 chest_id))))))

-- A deposit ends in one of five ways: no such chest, a sender who is not its owner or an amount
-- that is not positive, which leave the database as it was; or, for the owner and a positive
-- amount, the transfer to the chest, refused or made, and if made the new balance of the chest is
-- reported.
pub chest_deposit-Guarded :
    (db : LpDb) (chest_id sender : String) (amount : ℤ) (ref : Option String)
    → Guarded db chest_id sender amount
        (transfer_pt db sender chest_id amount "chest_deposit:out" "chest_deposit:in" ref)
        (chest_deposit db chest_id sender amount ref)
unfolding chest_deposit
chest_deposit-Guarded db chest_id sender amount ref = elim (Option-cases (get_chest db chest_id)) [
  | inl missing ↦ inl (missing, rw (missing, chest_deposit))
  | inr (c, found) ↦ inr (c, found, ground (arith, found, eq_iff sender c.owner_open_id))
]

-- A withdrawal ends in one of five ways: no such chest, a sender who is not its owner or an amount
-- that is not positive, which leave the database as it was; or, for the owner and a positive
-- amount, the transfer from the chest to the target, refused or made, and if made the new balance
-- of the chest is reported.
pub chest_withdraw-Guarded :
    (db : LpDb) (chest_id sender target : String) (amount : ℤ) (ref : Option String)
    → Guarded db chest_id sender amount
        (transfer_pt db chest_id target amount "chest_withdraw:out" "chest_withdraw:in" ref)
        (chest_withdraw db chest_id sender target amount ref)
unfolding chest_withdraw
chest_withdraw-Guarded db chest_id sender target amount ref =
    elim (Option-cases (get_chest db chest_id)) [
      | inl missing ↦ inl (missing, rw (missing, chest_withdraw))
      | inr (c, found) ↦ inr (c, found, ground (arith, found, eq_iff sender c.owner_open_id))
    ]

select_first-append :
    (p : Chest → Bool) (cs : List Chest) (c : Chest)
    → any p cs ≡ false
    → p c ≡ true
    → select_first p (cs ++ c ∷ []) ≡ some c
select_first-append p [] c n h = ground arith
select_first-append p (d ∷ cs) c n h = ground (arith, select_first-append p cs c)

grant_pt-chests :
    (db : LpDb) (x reason : String) (delta : ℤ) (ref : Option String)
    → (grant_pt db x delta reason ref).0.chests ≡ db.chests
unfolding grant_pt polis_game.Lp.Accounts.ledger_raw polis_game.Lp.Accounts.upsert_profile_raw
grant_pt-chests db x reason delta ref = refl

-- A chest cannot be taken over by creating it again: where the id exists the call changes nothing and
-- says so, and where it does not the stored chest is the one asked for, at the clock's time.
pub create_chest_cases :
    (db : LpDb) (input : CreateChestInput)
    → ((any (λ c. c.chest_id == input.chest_id) db.chests ≡ true)
        × (create_chest db input ≡ (db, false)))
      ⊎ ((any (λ c. c.chest_id == input.chest_id) db.chests ≡ false)
          × ((create_chest db input).1 ≡ true)
          × (get_chest (create_chest db input).0 input.chest_id
              ≡ some (record {
                chest_id = input.chest_id;
                name = input.name;
                owner_open_id = input.owner_open_id;
                is_public = input.is_public;
                created_at = db.clock;
              })))
unfolding create_chest get_chest
create_chest_cases db input =
    let made : Chest = record {
      chest_id = input.chest_id;
      name = input.name;
      owner_open_id = input.owner_open_id;
      is_public = input.is_public;
      created_at = db.clock;
    } in
    elim (Bool-cases (any (λ c. c.chest_id == input.chest_id) db.chests)) [
      | inl old ↦ inl (old, rw old)
      | inr new ↦ inr (
        new,
        rw new,
        rw new (
            ap (select_first (λ c. c.chest_id == input.chest_id)) (
              grant_pt-chests (record db { chests = db.chests ++ made ∷ [] }) input.chest_id
                "chest_create" (pos 0) none)
            ∙ select_first-append (λ c. c.chest_id == input.chest_id) db.chests made new
                (eq_refl input.chest_id)),
      )
    ]
