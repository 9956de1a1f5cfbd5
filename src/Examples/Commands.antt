-- ===== src/Examples/Commands.antt =====
-- Messages and commands, on the meetups and the survey of the other examples.
use polis_game.Base.{◌≡◌, ◌⊎◌, refl, true, false, some, [], ◌∷◌, ◌++◌, arith}
use polis_game.Base.Texts.{codes, to_lower_case}
use polis_game.Tc.Store.{get_tc_by_num}
use polis_game.Predict.Commands.{try_handle_tc_command}
use polis_game.Commands.Words.{
  ParsedCommand, parse_command, is_fuzzy_check_in, is_fuzzy_lp_query, parse_rename,
}
use polis_game.Bets.Refunds.{all_work}
use polis_game.Commands.Parsing.{IsWord, join, parse_command-join}
use polis_game.Commands.Route.{dispatch_command, runs, sign, lp, queries_tc, unhandled}
use polis_game.Commands.MeetupCommand.{cancels, meetup}
use polis_game.Commands.MeetupRights.{Allowed, meetup-Allowed}
use polis_game.Commands.TcCommand.{query_reply, query_tc_reply, tc_cancel}
use polis_game.Commands.TcManagement.{tc_cancel-agrees}
use polis_game.Examples.Lp.{town}
use polis_game.Examples.Bets.{tc_db, survey, value_of}
use polis_game.Examples.Store.{meetup_db}

fuzzy_sign : is_fuzzy_check_in (codes "@bot 8/12 签") ≡ true
unfolding is_fuzzy_check_in
fuzzy_sign = refl

fuzzy_balance : is_fuzzy_lp_query (codes "看我现在有多少 LP") ≡ true
unfolding is_fuzzy_lp_query
fuzzy_balance = refl

bet_question : is_fuzzy_lp_query (codes "我投注的 LP 什么时候结算") ≡ false
unfolding is_fuzzy_lp_query
bet_question = refl

glued_name : parse_rename (codes "@bot 改名Vicky Huang ") ≡ some (codes "Vicky Huang")
unfolding parse_rename
glued_name = refl

shorthand_query : dispatch_command (codes "@bot TC-12") ≡ queries_tc 12
unfolding dispatch_command polis_game.Commands.Words.parse_command
    polis_game.Commands.Words.parse_rename polis_game.Commands.Route.lookup
    polis_game.Commands.Route.shorthand
shorthand_query = refl

bot-IsWord : IsWord (codes "bot")
bot-IsWord = ((refl, (refl, (refl, tt))), λ e. ground (arith, e))

tc-IsWord : IsWord (codes "TC")
tc-IsWord = ((refl, (refl, tt)), λ e. ground (arith, e))

edit-IsWord : IsWord (codes "edit")
edit-IsWord = ((refl, (refl, (refl, (refl, tt)))), λ e. ground (arith, e))

parse_command-join_example :
    parse_command (64 ∷ codes "bot" ++ 32 ∷ 47 ∷ join (codes "TC") (codes "edit" ∷ []))
    ≡ some (record { name = to_lower_case (codes "TC"); args = codes "edit" ∷ [] })
parse_command-join_example =
    parse_command-join (codes "bot") (codes "TC") (codes "edit" ∷ []) bot-IsWord tc-IsWord
      (omega arith, (omega arith, tt)) (edit-IsWord, tt)

meetup-Allowed_example :
    let db' = (meetup (λ _. false) false meetup_db (some "ou_ann") (cancels (some 7))).0 in
    (db' ≡ meetup_db) ⊎ Allowed (λ _. false) meetup_db (some "ou_ann") (cancels (some 7)) db'
meetup-Allowed_example =
    meetup-Allowed (λ _. false) false meetup_db (some "ou_ann") (cancels (some 7))

tc_cancel-agrees_example :
    let r = tc_cancel (λ _. false) (λ _. all_work) tc_db town (some 51) "ou_ann" in
    let s = try_handle_tc_command (λ _. false) (λ _. all_work) tc_db town (some 51) "ou_ann" in
    (r.0 ≡ s.0) × (r.1.0 ≡ s.1.0)
tc_cancel-agrees_example =
    tc_cancel-agrees (λ _. false) (λ _. all_work) tc_db town (some 51) "ou_ann" refl

found : query_tc_reply value_of tc_db 51 ≡ some (query_reply value_of tc_db survey)
unfolding query_tc_reply get_tc_by_num
found = refl
