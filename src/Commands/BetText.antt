-- ===== src/Commands/BetText.antt =====
-- parseTcBetInput of core/tc-bet-parser.ts: a bet from the text of a message.
use polis_game.Base.{
  ℕ, ◌-◌, ◌<◌, ◌≡◌, refl, Bool, true, false, not, ◌&&◌, Option, none, some, List, [], ◌∷◌, ◌++◌,
  keep, length, leb, if◌then◌else◌, Option-cases, inl, inr,
}
use polis_game.Base.Order.{sort_by}
use polis_game.Base.Texts.{Text, codes, trim, trim_end, to_lower_case, starts_with, ends_with}
use polis_game.Settlement.{OptionType, discrete, continuous}
use polis_game.Store.Batch.{take, drop}
use polis_game.Commands.Words.{drop_mention, split_spaces, is_empty}
use polis_game.Commands.Route.{shorthand}
use polis_game.Commands.Amounts.{Amount, parse_lp_amount, parse_lp_amount-positive}

pub record TcBetParse : Type 0 where
  pub option_value : Text
  pub lp_amount : Amount

abbrev bet_of : Text → Option Amount → Option TcBetParse
bet_of option none = none
bet_of option (some lp) = some (record { option_value = option; lp_amount = lp })

abbrev or_try : Option TcBetParse → Option TcBetParse → Option TcBetParse
or_try none other = other
or_try (some b) other = some b

-- `join(' ')`
abbrev pub join_tokens : List Text → Text
join_tokens [] = []
join_tokens (w ∷ []) = w
join_tokens (w ∷ v ∷ vs) = w ++ 32 ∷ join_tokens (v ∷ vs)

abbrev is_some_number : Option ℕ → Bool
is_some_number none = false
is_some_number (some _) = true

unfoldable pub bet_tokens : Text → List Text
bet_tokens raw =
    let after_mention : Text = elim (drop_mention raw) [ none ↦ raw | some rest ↦ rest ] in
    keep (λ t. not (is_empty t) && not (is_some_number (shorthand (codes "tc-") t)))
      (split_spaces (trim after_mention))

-- The last `n` tokens as the amount, the others as the option.
abbrev pub amount_at_end : ℕ → List Text → Option TcBetParse
amount_at_end n tokens =
    let option_end = length tokens - n in
    bet_of (trim (join_tokens (take option_end tokens))) (parse_lp_amount (drop option_end tokens))

-- Strategy A
abbrev pub spaced : List Text → Option TcBetParse
spaced tokens =
    let two = if leb 3 (length tokens) then amount_at_end 2 tokens else none in
    if leb 2 (length tokens) then or_try two (amount_at_end 1 tokens) else none

-- Strategy B, over the options from the longest on
abbrev pub glued_to : List Text → Text → Option TcBetParse
glued_to [] body = none
glued_to (opt ∷ opts) body =
    let rest = glued_to opts body in
    let here = bet_of opt (parse_lp_amount (drop (length opt) body ∷ [])) in
    if not (is_empty opt) && starts_with opt body then or_try here rest else rest

abbrev pub glued : OptionType → List Text → List Text → Option TcBetParse
glued continuous options tokens = none
glued discrete options tokens =
    let body = join_tokens tokens in
    if ends_with (codes "lp") (trim_end (to_lower_case body))
    then glued_to (sort_by (λ a b. leb (length b) (length a)) options) body
    else none

unfoldable pub parse_tc_bet_input : Text → OptionType → List Text → Option TcBetParse
unfolding bet_tokens
parse_tc_bet_input raw kind options =
    let tokens = bet_tokens raw in or_try (spaced tokens) (glued kind options tokens)

abbrev teams : List Text
teams = codes "法" ∷ codes "法国" ∷ codes "不列颠" ∷ []

glued_team :
    parse_tc_bet_input (codes "@bot TC-7 法国3lp") discrete teams
    ≡ some (record { option_value = codes "法国"; lp_amount = record { mantissa = 3; decimals = 0 } })
unfolding parse_tc_bet_input parse_lp_amount shorthand
glued_team = refl

spaced_value :
    parse_tc_bet_input (codes "@bot 67.5 5 LP") continuous []
    ≡ some
        (record { option_value = codes "67.5"; lp_amount = record { mantissa = 5; decimals = 0 } })
unfolding parse_tc_bet_input parse_lp_amount shorthand
spaced_value = refl

-- The stake of a bet, if there is one, is positive.
abbrev pub IsPositive : Option TcBetParse → Type 0
IsPositive none = Unit
IsPositive (some b) = 0 < b.lp_amount.mantissa

bet_of-IsPositive :
    (option : Text) (tokens : List Text) → IsPositive (bet_of option (parse_lp_amount tokens))
bet_of-IsPositive option tokens = elim (Option-cases (parse_lp_amount tokens)) [
  | inl missing ↦ rw missing tt
  | inr (a, found) ↦ rw found (parse_lp_amount-positive tokens a found)
]

or_try-IsPositive :
    (a b : Option TcBetParse) → IsPositive a → IsPositive b → IsPositive (or_try a b)
or_try-IsPositive none b p q = q
or_try-IsPositive (some a) b p q = p

if-IsPositive :
    (c : Bool) (a b : Option TcBetParse)
    → IsPositive a
    → IsPositive b
    → IsPositive (if c then a else b)
if-IsPositive true a b p q = p
if-IsPositive false a b p q = q

spaced-IsPositive : (tokens : List Text) → IsPositive (spaced tokens)
spaced-IsPositive tokens =
    let n = length tokens in
    let two = amount_at_end 2 tokens in
    let one = amount_at_end 1 tokens in
    let two_ok : IsPositive two = bet_of-IsPositive _ (drop (n - 2) tokens) in
    let one_ok : IsPositive one = bet_of-IsPositive _ (drop (n - 1) tokens) in
    let some_two : Option TcBetParse = if leb 3 n then two else none in
    if-IsPositive (leb 2 n) (or_try some_two one) none
      (or_try-IsPositive some_two one (if-IsPositive (leb 3 n) two none two_ok tt) one_ok) tt

glued_to-IsPositive : (opts : List Text) (body : Text) → IsPositive (glued_to opts body)
glued_to-IsPositive [] body = tt
glued_to-IsPositive (opt ∷ opts) body =
    let rest = glued_to opts body in
    let here = bet_of opt (parse_lp_amount (drop (length opt) body ∷ [])) in
    let rest_ok = glued_to-IsPositive opts body in
    if-IsPositive (not (is_empty opt) && starts_with opt body) (or_try here rest) rest
      (or_try-IsPositive here rest (bet_of-IsPositive opt (drop (length opt) body ∷ [])) rest_ok)
      rest_ok

glued-IsPositive :
    (kind : OptionType) (opts tokens : List Text) → IsPositive (glued kind opts tokens)
glued-IsPositive continuous opts tokens = tt
glued-IsPositive discrete opts tokens =
    let body = join_tokens tokens in
    let sorted = sort_by (λ a b. leb (length b) (length a)) opts in
    if-IsPositive (ends_with (codes "lp") (trim_end (to_lower_case body))) (glued_to sorted body)
      none (glued_to-IsPositive sorted body) tt

-- Whatever a message says, a bet that is read from it, spaced or glued, has a positive stake.
pub parse_tc_bet_input-IsPositive :
    (raw : Text) (kind : OptionType) (options : List Text)
    → IsPositive (parse_tc_bet_input raw kind options)
unfolding parse_tc_bet_input
parse_tc_bet_input-IsPositive raw kind options =
    let tokens = bet_tokens raw in
    or_try-IsPositive (spaced tokens) (glued kind options tokens) (spaced-IsPositive tokens)
      (glued-IsPositive kind options tokens)
