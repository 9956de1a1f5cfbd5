-- ===== src/Commands/Route.antt =====
-- dispatchCommand of core/commands.ts: which command a message runs. Running it is elsewhere.
use polis_game.Base.{
  ◌<◌, ℕ, ◌+◌, ◌*◌, ◌≡◌, refl, ap, ◌∙◌, Bool, true, ◌&&◌, Option, none, some, List, [], ◌∷◌, ◌++◌,
  All, arith, if◌then◌else◌,
}
use polis_game.Base.Texts.{Text, codes, same_text, is_digit, digit, to_lower_case}
use polis_game.Commands.Words.{
  ParsedCommand, parse_command, parse_rename, is_fuzzy_check_in, is_fuzzy_lp_query,
}
use polis_game.Commands.Parsing.{IsWord, join, parse_command-join}

pub data Command : Type 0 where
  help ping version whoami profile lp leaderboard sign rename : Command
  follow unfollow follows meetup tc : Command

-- The names and aliases, which are all different.
abbrev pub index : List (Text × Command)
index =
    (codes "help", help)
    ∷ (codes "?", help)
    ∷ (codes "命令", help)
    ∷ (codes "commands", help)
    ∷ (codes "menu", help)
    ∷ (codes "ping", ping)
    ∷ (codes "version", version)
    ∷ (codes "ver", version)
    ∷ (codes "v", version)
    ∷ (codes "whoami", whoami)
    ∷ (codes "id", whoami)
    ∷ (codes "profile", profile)
    ∷ (codes "我的", profile)
    ∷ (codes "me", profile)
    ∷ (codes "lp", lp)
    ∷ (codes "积分", lp)
    ∷ (codes "生命点", lp)
    ∷ (codes "leaderboard", leaderboard)
    ∷ (codes "榜", leaderboard)
    ∷ (codes "排行", leaderboard)
    ∷ (codes "sign", sign)
    ∷ (codes "签", sign)
    ∷ (codes "簽", sign)
    ∷ (codes "签到", sign)
    ∷ (codes "簽到", sign)
    ∷ (codes "checkin", sign)
    ∷ (codes "rename", rename)
    ∷ (codes "改名", rename)
    ∷ (codes "follow", follow)
    ∷ (codes "订阅", follow)
    ∷ (codes "unfollow", unfollow)
    ∷ (codes "取消订阅", unfollow)
    ∷ (codes "follows", follows)
    ∷ (codes "我的订阅", follows)
    ∷ (codes "meetup", meetup)
    ∷ (codes "tc", tc)
    ∷ []

abbrev find : Text → List (Text × Command) → Option Command
find name [] = none
find name (e ∷ es) = if same_text e.0 name then some e.1 else find name es

unfoldable pub lookup : Text → Option Command
lookup name = find (to_lower_case name) index

abbrev all_digits : Text → Bool
all_digits [] = true
all_digits (c ∷ cs) = is_digit c && all_digits cs

abbrev pub numeral : ℕ → Text → ℕ
numeral n [] = n
numeral n (c ∷ cs) = numeral (n * 10 + digit c) cs

abbrev drop_prefix_text : Text → Text → Option Text
drop_prefix_text [] cs = some cs
drop_prefix_text (p ∷ ps) [] = none
drop_prefix_text (p ∷ ps) (c ∷ cs) =
    let rest = drop_prefix_text ps cs in if same_text (p ∷ []) (c ∷ []) then rest else none

abbrev number_of : Text → Option ℕ
number_of [] = none
number_of (c ∷ cs) = if all_digits (c ∷ cs) then some (numeral 0 (c ∷ cs)) else none

-- `/^tc-(\d+)$/i` and `/^bet-(\d+)$/i`
unfoldable pub shorthand : Text → Text → Option ℕ
shorthand prefix name = elim (drop_prefix_text prefix (to_lower_case name)) [
  | none ↦ none
  | some rest ↦ number_of rest
]

pub data Route : Type 0 where
  renames : Text → Route
  runs : Command → List Text → Route
  queries_tc : ℕ → Route
  queries_predict : ℕ → Route
  unhandled : Route

-- The fuzzy forms come last.
abbrev pub fuzzy : Text → Route
fuzzy raw =
    if is_fuzzy_check_in raw
    then runs sign []
    else if is_fuzzy_lp_query raw
    then runs lp []
    else unhandled

abbrev pub shorthand_or_fuzzy : Text → Text → Route
shorthand_or_fuzzy raw name = elim (shorthand (codes "tc-") name) [
  | some num ↦ queries_tc num
  | none ↦ elim (shorthand (codes "bet-") name) [
    | some num ↦ queries_predict num
    | none ↦ fuzzy raw
  ]
]

abbrev pub run_or_query : Text → Option Command → ParsedCommand → Route
run_or_query raw (some c) parsed = runs c parsed.args
run_or_query raw none parsed = shorthand_or_fuzzy raw parsed.name

abbrev pub parsed_or_fuzzy : Text → Option ParsedCommand → Route
parsed_or_fuzzy raw none = fuzzy raw
parsed_or_fuzzy raw (some parsed) = run_or_query raw (lookup parsed.name) parsed

abbrev pub renamed_or : Text → Option Text → Route
renamed_or raw (some name) = renames name
renamed_or raw none = parsed_or_fuzzy raw (parse_command raw)

unfoldable pub dispatch_command : Text → Route
dispatch_command raw = renamed_or raw (parse_rename raw)

lower_idem : (c : Text) → to_lower_case (to_lower_case c) ≡ to_lower_case c
lower_idem [] = refl
lower_idem (c ∷ cs) = ground (arith, lower_idem cs)

lookup-lower : (name : Text) → lookup (to_lower_case name) ≡ lookup name
unfolding lookup
lookup-lower name = ap (λ n. find n index) (lower_idem name)

-- The message "@mention /name argument … argument", whose parts are not empty and have no blank and whose name is in ASCII, runs
-- the command that the name or alias stands for, in whatever case it is written, with the
-- arguments as they are, unless it reads as a rename; the fuzzy forms and the shorthands are not
-- consulted.
pub dispatch_command-join :
    (mention name : Text) (args : List Text) (c : Command)
    → IsWord mention
    → IsWord name
    → All (λ c. c < 128) name
    → All IsWord args
    → lookup name ≡ some c
    → let raw = 64 ∷ mention ++ 32 ∷ 47 ∷ join name args in
      parse_rename raw ≡ none → dispatch_command raw ≡ runs c args
unfolding dispatch_command
dispatch_command-join mention name args c hm hn ascii ha known no_rename =
    let raw = 64 ∷ mention ++ 32 ∷ 47 ∷ join name args in
    ap (renamed_or raw) no_rename
    ∙ ap (parsed_or_fuzzy raw) (parse_command-join mention name args hm hn ascii ha)
    ∙ ap (λ o. run_or_query raw o (record { name = to_lower_case name; args = args }))
        (lookup-lower name ∙ known)
