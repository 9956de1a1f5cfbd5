-- ===== src/Commands/Words.antt =====
-- The recognisers of core/commands.ts. A text is the list of its UTF-16 code units.
use polis_game.Base.{
  ℕ, zero, suc, Bool, true, false, not, ◌&&◌, ◌||◌, Option, none, some, List, [], ◌∷◌, keep, any,
  length, eqb, ltb, leb, if◌then◌else◌,
}
use polis_game.Base.Texts.{
  Text, codes, is_space, trim, trim_start, to_lower_case, starts_with, ends_with, includes,
}

-- What follows the leading `\S*`.
abbrev pub drop_word : Text → Text
drop_word [] = []
drop_word (c ∷ cs) = let rest = drop_word cs in if is_space c then c ∷ cs else rest

-- `/^\s+/`: the text without it, if there is one.
abbrev pub drop_spaces : Text → Option Text
drop_spaces [] = none
drop_spaces (c ∷ cs) = if is_space c then some (trim_start cs) else none

-- `LEADING_MENTION`, `/^@\S+\s+/`: the text without it, if it matches.
abbrev pub drop_mention : Text → Option Text
drop_mention (a ∷ c ∷ cs) =
    if eqb a 64 && not (is_space c) then drop_spaces (drop_word cs) else none
drop_mention cs = none

-- The loop takes at least three characters a round, so its fuel is the length of the text.
abbrev pub strip_mentions : ℕ → Text → Text
strip_mentions zero s = s
strip_mentions (suc fuel) s = elim (drop_mention s) [
  | none ↦ s
  | some rest ↦ strip_mentions fuel rest
]

-- `replace(/^[/!]/, '')`
abbrev pub drop_prefix : Text → Text
drop_prefix [] = []
drop_prefix (c ∷ cs) = if eqb c 47 || eqb c 33 then cs else c ∷ cs

unfoldable pub strip_lead : Text → Text
strip_lead raw = let s = trim raw in trim (drop_prefix (strip_mentions (length s) s))

abbrev pub starts_with_space : Text → Bool
starts_with_space [] = false
starts_with_space (c ∷ cs) = is_space c

abbrev prepend : ℕ → List Text → List Text
prepend c [] = (c ∷ []) ∷ []
prepend c (w ∷ ws) = (c ∷ w) ∷ ws

-- `split(/\s+/)`
abbrev pub split_spaces : Text → List Text
split_spaces [] = [] ∷ []
split_spaces (c ∷ cs) =
    let rest = split_spaces cs in
    if is_space c then (if starts_with_space cs then rest else [] ∷ rest) else prepend c rest

pub record ParsedCommand : Type 0 where
  pub name : Text
  pub args : List Text

abbrev pub name_and_args : List Text → Option ParsedCommand
name_and_args [] = none
name_and_args (w ∷ ws) = some (record { name = to_lower_case w; args = ws })

abbrev pub command_words : Text → Option ParsedCommand
command_words [] = none
command_words (c ∷ cs) = name_and_args (split_spaces (c ∷ cs))

abbrev pub after_mentions : Text → Option ParsedCommand
after_mentions [] = none
after_mentions (c ∷ cs) = if eqb c 64 then none else command_words (trim (drop_prefix (c ∷ cs)))

unfoldable pub parse_command : Text → Option ParsedCommand
parse_command raw = let s = trim raw in after_mentions (strip_mentions (length s) s)

-- `replace(/\s+/g, '')`
abbrev pub without_spaces : Text → Text
without_spaces = keep (λ c. not (is_space c))

abbrev pub checkin_max_len : ℕ
checkin_max_len = 15

abbrev pub is_empty : Text → Bool
is_empty [] = true
is_empty (_ ∷ _) = false

unfoldable pub is_fuzzy_check_in : Text → Bool
unfolding strip_lead
is_fuzzy_check_in raw =
    let s = strip_lead raw in
    if is_empty s || leb checkin_max_len (length s)
    then false
    else ends_with (codes "签到") s || ends_with (codes "签") s

abbrev pub lp_query_max_len : ℕ
lp_query_max_len = 30

abbrev pub mentions : List Text → Text → Bool
mentions ps s = any (λ p. includes p s) ps

abbrev pub lp_words : List Text
lp_words = codes "lp" ∷ codes "积分" ∷ codes "生命点" ∷ []

abbrev pub bet_words : List Text
bet_words =
    codes "押注"
    ∷ codes "投注"
    ∷ codes "下注"
    ∷ codes "押"
    ∷ codes "赌"
    ∷ codes "结算"
    ∷ codes "中奖"
    ∷ codes "赔"
    ∷ codes "提案"
    ∷ codes "输了"
    ∷ codes "赢"
    ∷ []

abbrev pub balance_words : List Text
balance_words =
    codes "我"
    ∷ codes "自己"
    ∷ codes "查"
    ∷ codes "多少"
    ∷ codes "几多"
    ∷ codes "余额"
    ∷ codes "还有"
    ∷ codes "剩"
    ∷ []

unfoldable pub is_fuzzy_lp_query : Text → Bool
unfolding strip_lead
is_fuzzy_lp_query raw =
    let s = to_lower_case (without_spaces (strip_lead raw)) in
    if is_empty s || ltb lp_query_max_len (length s)
    then false
    else if not (mentions lp_words s)
    then false
    else if mentions bet_words s
    then false
    else mentions balance_words s

abbrev drop_two : Text → Text
drop_two (_ ∷ _ ∷ cs) = cs
drop_two cs = []

-- The full-width space U+3000 is a `\s`, too, so trimming the edges is `trim`.
unfoldable pub parse_rename : Text → Option Text
unfolding strip_lead
parse_rename raw =
    let s = strip_lead raw in
    let rest = trim (drop_two s) in
    if not (starts_with (codes "改名") s)
    then none
    else if any (λ c. eqb c 63 || eqb c 65311) rest
    then none
    else some rest
