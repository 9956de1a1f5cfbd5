-- ===== src/Settlement.antt =====
-- core/tc-settlement.ts: the settlement arithmetic. A stake and a payout are tenths of an LP, a pool
-- and the dust are thousandths, so that the pool `total * 1.05` is the whole number 105 times the
-- stakes; the fractions in between are exact, where the source has doubles. The rounding of the dust
-- to a millionth then changes nothing. A point of a continuous survey is in ten-thousandths.
pub mod Pool
pub mod Tables
pub mod Discrete
pub mod Continuous
use polis_game.Base.{
  ℕ, zero, suc, ◌+◌, ◌*◌, ◌-◌, ◌/◌, String, ◌==◌, Bool, true, false, not, ◌&&◌, Option, none, some,
  List, [], ◌∷◌, ◌++◌, map, any, keep, length, leb, eqb, if◌then◌else◌,
}
use polis_game.Base.Int.{ℤ, pos, negsuc, ◌+ℤ◌, ◌-ℤ◌, pos_part, neg_part}
use Prim.Native.Nat.{max, min}

pub record BetRow : Type 0 where
  pub user_open_id : String
  pub option_value : String
  pub lp_amount : ℕ

pub record WinnerPayout : Type 0 where
  pub user_open_id : String
  pub option_value : String
  pub lp_amount : ℕ
  pub payout : ℕ

-- A `Map` in insertion order.
abbrev pub Groups : Type 0
Groups = List (String × List BetRow)

abbrev pub total_lp : List BetRow → ℕ
total_lp [] = 0
total_lp (b ∷ bs) = b.lp_amount + total_lp bs

abbrev pub total_payout : List WinnerPayout → ℕ
total_payout [] = 0
total_payout (w ∷ ws) = w.payout + total_payout ws

-- The payouts of one group, on exact fractions: a double may take the quotient below a tenth, as in
-- 49 * (1 / 49), and the payout is then a tenth lower. `groupShare` is the pool over the number of groups.
unfoldable pub pay_group : (pool groups group_total : ℕ) → List BetRow → List WinnerPayout
pay_group pool groups group_total [] = []
pay_group pool groups group_total (wb ∷ bs) =
    record {
      user_open_id = wb.user_open_id;
      option_value = wb.option_value;
      lp_amount = wb.lp_amount;
      payout = pool * wb.lp_amount / (100 * groups * group_total);
    }
    ∷ pay_group pool groups group_total bs

unfoldable pub pay_groups : (pool groups : ℕ) → Groups → List WinnerPayout
unfolding pay_group
pay_groups pool groups [] = []
pay_groups pool groups ((_, bets) ∷ gs) =
    let rest = pay_groups pool groups gs in
    if eqb (total_lp bets) 0 then rest else pay_group pool groups (total_lp bets) bets ++ rest

pub record Distribution : Type 0 where
  pub winners : List WinnerPayout
  pub dust : ℕ

-- `-` stops at 0, which is the `Math.max(0, …)` of the source.
unfoldable pub distribute_pool : Groups → ℕ → Distribution
unfolding pay_groups
distribute_pool winner_groups effective_pool =
    let winners = pay_groups effective_pool (length winner_groups) winner_groups in
    record { winners = winners; dust = effective_pool - 100 * total_payout winners }

-- The sums are exact; in doubles, those of stakes that are not whole LP may differ in the last bit.
-- `lpByOption[opt] = (lpByOption[opt] ?? 0) + lp`, in the order in which options first appear
abbrev pub add_lp : String → ℕ → List (String × ℕ) → List (String × ℕ)
add_lp opt lp [] = (opt, lp) ∷ []
add_lp opt lp ((o, n) ∷ m) = if o == opt then (o, n + lp) ∷ m else (o, n) ∷ add_lp opt lp m

abbrev pub lp_by_option : List (String × ℕ) → List BetRow → List (String × ℕ)
lp_by_option m [] = m
lp_by_option m (b ∷ bs) = lp_by_option (add_lp b.option_value b.lp_amount m) bs

-- `Math.max(...values)` of a list that is not empty and holds no negative number
abbrev pub max_lp : List (String × ℕ) → ℕ
max_lp [] = 0
max_lp ((_, n) ∷ m) = max n (max_lp m)

abbrev pub options_at : ℕ → List (String × ℕ) → List String
options_at top [] = []
options_at top ((o, n) ∷ m) = if eqb n top then o ∷ options_at top m else options_at top m

unfoldable pub winner_options : List BetRow → List String
winner_options bets = let m = lp_by_option [] bets in options_at (max_lp m) m

abbrev pub group_of : List BetRow → String → String × List BetRow
group_of bets opt = (opt, keep (λ b. b.option_value == opt) bets)

-- `Math.floor(a / d)`
abbrev pub floor_div : ℤ → ℕ → ℤ
floor_div (pos n) d = pos (n / d)
floor_div (negsuc n) d = negsuc (n / d)

-- |a - b|
abbrev pub distance : ℤ → ℤ → ℕ
distance a b =
    (pos_part a + neg_part b)
    - (pos_part b + neg_part a)
    + ((pos_part b + neg_part a) - (pos_part a + neg_part b))

abbrev pub times : ℤ → ℕ → ℤ
times (pos n) k = pos (n * k)
times (negsuc n) zero = pos 0
times (negsuc n) (suc k) = negsuc (suc n * suc k - 1)

-- `parse` is `parseFloat` on the accepted values of a continuous survey, in ten-thousandths.
module _ (parse : String → ℤ) where
  abbrev pub weighted_sum : List BetRow → ℤ
  weighted_sum [] = pos 0
  weighted_sum (b ∷ bs) = times (parse b.option_value) b.lp_amount +ℤ weighted_sum bs

  -- `Math.round(x)` is the floor of x + 1/2. When all stakes are zero the source gets `NaN` here; a
  -- recorded bet has at least the minimum stake.
  unfoldable pub settled_point : List BetRow → ℤ
  settled_point bets =
      floor_div (times (weighted_sum bets) 2 +ℤ pos (total_lp bets)) (2 * total_lp bets)

  abbrev pub min_dist : ℤ → BetRow → List BetRow → ℕ
  min_dist point b [] = distance (parse b.option_value) point
  min_dist point b (c ∷ bs) = min (distance (parse b.option_value) point) (min_dist point c bs)

  unfoldable pub closest_bets : ℤ → BetRow → List BetRow → List BetRow
  closest_bets point b bs =
      let least = min_dist point b bs in
      keep (λ c. eqb (distance (parse c.option_value) point) least) (b ∷ bs)

-- `existing.push(wb)` under the key of the bet
abbrev pub push_bet : BetRow → Groups → Groups
push_bet wb [] = (wb.option_value, wb ∷ []) ∷ []
push_bet wb ((o, bs) ∷ gs) =
    if o == wb.option_value then (o, bs ++ wb ∷ []) ∷ gs else (o, bs) ∷ push_bet wb gs

abbrev pub group_bets : Groups → List BetRow → Groups
group_bets gs [] = gs
group_bets gs (b ∷ bs) = group_bets (push_bet b gs) bs

pub data OptionType : Type 0 where
  discrete continuous : OptionType

-- `settled_option` is the list that the source encodes as JSON.
pub record SettlementResult : Type 0 where
  pub settled_value : Option ℤ
  pub settled_option : Option (List String)
  pub total_pool : ℕ
  pub winners : List WinnerPayout
  pub dust : ℕ

abbrev pub is_winner_option : Groups → String → Bool
is_winner_option gs o = any (λ g. g.0 == o) gs

abbrev pub has_losers : Groups → List BetRow → Bool
has_losers gs bets = any (λ b. not (is_winner_option gs b.option_value)) bets

abbrev pub effective_pool : Groups → List BetRow → Bool → ℕ
effective_pool gs bets no_bonus =
    if not (has_losers gs bets) && no_bonus then 100 * total_lp bets else 105 * total_lp bets

abbrev pub finish : Option ℤ → Option (List String) → Groups → List BetRow → Bool → SettlementResult
finish value opt gs bets no_bonus =
    let pool = effective_pool gs bets no_bonus in
    let d = distribute_pool gs pool in
    record {
      settled_value = value;
      settled_option = opt;
      total_pool = pool;
      winners = d.winners;
      dust = d.dust;
    }

unfoldable pub compute_tc_settlement :
    (String → ℤ) → OptionType → List BetRow → Bool → SettlementResult
compute_tc_settlement parse t [] no_bonus = record {
  settled_value = none;
  settled_option = none;
  total_pool = 0;
  winners = [];
  dust = 0;
}
compute_tc_settlement parse continuous (b ∷ bs) no_bonus =
    let point = settled_point parse (b ∷ bs) in
    finish (some point) none (group_bets [] (closest_bets parse point b bs)) (b ∷ bs) no_bonus
compute_tc_settlement parse discrete (b ∷ bs) no_bonus =
    let options = winner_options (b ∷ bs) in
    finish none (some options) (map (group_of (b ∷ bs)) options) (b ∷ bs) no_bonus
