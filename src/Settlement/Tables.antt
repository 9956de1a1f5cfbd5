-- ===== src/Settlement/Tables.antt =====
-- The table of LP by option that `computeTcSettlement` builds for a discrete survey: each option once,
-- with the sum of its stakes.
use polis_game.Base.{
  ℕ, ◌+◌, ◌≡◌, refl, ◌∙◌, ◌⊎◌, inl, inr, String, ◌==◌, Bool, true, false, ◌||◌, List, [], ◌∷◌, any,
  keep, arith, Bool-cases, if◌then◌else◌, eq_iff,
}
use polis_game.Settlement.{BetRow, total_lp, add_lp, lp_by_option}

abbrev pub stake_on : String → List BetRow → ℕ
stake_on o bets = total_lp (keep (λ b. b.option_value == o) bets)

abbrev pub has_key : String → List (String × ℕ) → Bool
(has_key o m) = any (λ e. e.0 == o) m

abbrev pub sum_lp : List (String × ℕ) → ℕ
sum_lp [] = 0
sum_lp ((_, n) ∷ m) = n + sum_lp m

-- The table has each key once, with the LP that `f` gives it.
abbrev pub Table : (String → ℕ) → List (String × ℕ) → Type 0
Table f [] = Unit
Table f ((o, n) ∷ m) = (n ≡ f o) × ((has_key o m) ≡ false) × Table f m

abbrev bump : BetRow → (String → ℕ) → String → ℕ
bump b f o = if b.option_value == o then f o + b.lp_amount else f o

abbrev pub after : (String → ℕ) → List BetRow → String → ℕ
after f [] = f
after f (b ∷ bs) = after (bump b f) bs

pub after_lem :
    (f : String → ℕ) (bs : List BetRow) (o : String) → after f bs o ≡ f o + stake_on o bs
after_lem f [] o = omega arith
after_lem f (b ∷ bs) o = ground (arith, after_lem (bump b f) bs o)

Table-other :
    (b : BetRow) (f : String → ℕ) (m : List (String × ℕ))
    → has_key b.option_value m ≡ false
    → Table f m
    → Table (bump b f) m
Table-other b f [] h t = tt
Table-other b f ((o, n) ∷ m) h t = grind (arith, eq_iff, t, Table-other b f m)

has_key-add_lp :
    (o opt : String) (lp : ℕ) (m : List (String × ℕ))
    → has_key o (add_lp opt lp m) ≡ (opt == o) || (has_key o m)
has_key-add_lp o opt lp [] = ground arith
has_key-add_lp o opt lp ((p, n) ∷ m) = grind (arith, eq_iff, has_key-add_lp o opt lp m)

sum_lp-add_lp :
    (opt : String) (lp : ℕ) (m : List (String × ℕ)) → sum_lp (add_lp opt lp m) ≡ lp + sum_lp m
sum_lp-add_lp opt lp [] = omega arith
sum_lp-add_lp opt lp ((p, n) ∷ m) = ground (arith, sum_lp-add_lp opt lp m)

Table-add_lp :
    (b : BetRow) (f : String → ℕ) (m : List (String × ℕ))
    → (has_key b.option_value m ≡ true) ⊎ (f b.option_value ≡ 0)
    → Table f m
    → Table (bump b f) (add_lp b.option_value b.lp_amount m)
Table-add_lp b f [] z t = (grind (arith, eq_iff, z), refl, tt)
Table-add_lp b f ((o, n) ∷ m) z t = elim (Bool-cases (o == b.option_value)) [
  | inl same ↦
      rw same (
        grind (arith, eq_iff, t, same),
        t.1,
        Table-other b f m (grind (arith, eq_iff, t, same)) t.2,
      )
  | inr other ↦ rw other (
    grind (arith, eq_iff, t, other),
    grind (arith, eq_iff, t, other, has_key-add_lp o b.option_value b.lp_amount m),
    Table-add_lp b f m (grind (arith, eq_iff, z, other)) t.2,
  )
]

-- What is not in the table has no LP.
abbrev Absent : (String → ℕ) → List (String × ℕ) → Type 0
Absent f m = (o : String) → (has_key o m ≡ true) ⊎ (f o ≡ 0)

Absent-add_lp :
    (b : BetRow) (f : String → ℕ) (m : List (String × ℕ))
    → Absent f m
    → Absent (bump b f) (add_lp b.option_value b.lp_amount m)
Absent-add_lp b f m a o = grind (arith, eq_iff, a o, has_key-add_lp o b.option_value b.lp_amount m)

pub lp_by_option-Table :
    (f : String → ℕ) (m : List (String × ℕ)) (bs : List BetRow)
    → Absent f m
    → Table f m
    → Table (after f bs) (lp_by_option m bs)
lp_by_option-Table f m [] a t = t
lp_by_option-Table f m (b ∷ bs) a t =
    lp_by_option-Table (bump b f) (add_lp b.option_value b.lp_amount m) bs (Absent-add_lp b f m a)
      (Table-add_lp b f m (a b.option_value) t)

pub has_key-lp_by_option :
    (o : String) (m : List (String × ℕ)) (bs : List BetRow)
    → has_key o (lp_by_option m bs) ≡ (has_key o m || any (λ b. b.option_value == o) bs)
has_key-lp_by_option o m [] = ground arith
has_key-lp_by_option o m (b ∷ bs) =
    let m' = add_lp b.option_value b.lp_amount m in
    grind (arith, has_key-lp_by_option o m' bs, has_key-add_lp o b.option_value b.lp_amount m)

pub sum_lp-lp_by_option :
    (m : List (String × ℕ)) (bs : List BetRow) → sum_lp (lp_by_option m bs) ≡ sum_lp m + total_lp bs
sum_lp-lp_by_option m [] = omega arith
sum_lp-lp_by_option m (b ∷ bs) =
    let m' = add_lp b.option_value b.lp_amount m in
    omega (arith, sum_lp-lp_by_option m' bs, sum_lp-add_lp b.option_value b.lp_amount m)

pub Table-same :
    (f g : String → ℕ) (m : List (String × ℕ)) → ((o : String) → f o ≡ g o) → Table f m → Table g m
Table-same f g [] e t = tt
Table-same f g ((o, n) ∷ m) e t = (t.0 ∙ e o, t.1, Table-same f g m e t.2)
