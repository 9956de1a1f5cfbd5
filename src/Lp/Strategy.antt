-- ===== src/Lp/Strategy.antt =====
-- core/lp-strategy.ts: what a reply costs and earns. A grant and a cost are tenths of an LP. What the
-- file holds is an argument.
use polis_game.Base.{
  ℕ, ◌≡◌, refl, String, Bool, true, false, Option, none, some, List, [], ◌∷◌, any, first, arith,
  Bool-cases, inl, inr, if◌then◌else◌,
}
use polis_game.Base.Rows.{select_first}
use polis_game.Base.Texts.{Text, codes}

pub record LpCategory : Type 0 where
  pub name : Text
  pub grant : ℕ
  pub reason : String
  pub footer_label : String
  pub is_default : Bool
  pub criteria : Option Text

pub record LpStrategy : Type 0 where
  pub judge_enabled : Bool
  pub marker : Text
  pub cost : ℕ
  pub categories : List LpCategory

pub data StrategyFile : Type 0 where
  absent broken : StrategyFile
  parsed : LpStrategy → StrategyFile

abbrev pub fallback_strategy : LpStrategy
fallback_strategy = record {
  judge_enabled = false;
  marker = codes "LP_JUDGE";
  cost = 1;
  categories =
      record {
        name = codes "default";
        grant = 0;
        reason = "";
        footer_label = "";
        is_default = true;
        criteria = none;
      }
      ∷ [];
}

abbrev pub is_marked : LpCategory → Bool
is_marked c = c.is_default

-- The last category becomes the default.
abbrev pub mark_last : List LpCategory → List LpCategory
mark_last [] = []
mark_last (c ∷ []) = record c { is_default = true } ∷ []
mark_last (c ∷ d ∷ cs) = c ∷ mark_last (d ∷ cs)

abbrev pub with_default : List LpCategory → List LpCategory
with_default cs = if any is_marked cs then cs else mark_last cs

abbrev pub strategy_of : StrategyFile → LpStrategy
strategy_of absent = fallback_strategy
strategy_of broken = fallback_strategy
strategy_of (parsed s) = s

unfoldable pub load_lp_strategy : StrategyFile → LpStrategy
load_lp_strategy file =
    let s = strategy_of file in record s { categories = with_default s.categories }

abbrev pub or_first : Option LpCategory → List LpCategory → Option LpCategory
or_first none cs = first cs
or_first (some c) cs = some c

-- Without any category there is none.
unfoldable pub default_category : LpStrategy → Option LpCategory
default_category s = or_first (select_first is_marked s.categories) s.categories

marked-found :
    (cs : List LpCategory)
    → any is_marked cs ≡ true
    → (c : LpCategory) × (select_first is_marked cs ≡ some c) × (c.is_default ≡ true)
marked-found (c ∷ cs) h = elim (Bool-cases c.is_default) [
  | inl here ↦ (c, rw here, here)
  | inr away ↦ rw away (marked-found cs (rw away at h))
]
marked-found [] h = cc

mark_last-marked :
    (c : LpCategory) (cs : List LpCategory) → any is_marked (mark_last (c ∷ cs)) ≡ true
mark_last-marked c [] = refl
mark_last-marked c (d ∷ cs) = ground (arith, mark_last-marked d cs)

with_default-marked :
    (c : LpCategory) (cs : List LpCategory) → any is_marked (with_default (c ∷ cs)) ≡ true
with_default-marked c cs = elim (Bool-cases (any is_marked (c ∷ cs))) [
  | inl one ↦ rw one one
  | inr none_yet ↦ rw none_yet (mark_last-marked c cs)
]

-- Whatever the file holds, as long as it lists a category, the strategy that is loaded has a default,
-- and it is a category that is marked as such.
pub load_lp_strategy-default :
    (s : LpStrategy) (c : LpCategory) (cs : List LpCategory)
    → s.categories ≡ c ∷ cs
    → (d : LpCategory) × (default_category (load_lp_strategy (parsed s)) ≡ some d)
      × (d.is_default ≡ true)
unfolding load_lp_strategy default_category
load_lp_strategy-default s c cs listed =
    let (d, found, marked) = marked-found (with_default (c ∷ cs)) (with_default-marked c cs) in
    (d, rw (listed, found), marked)
