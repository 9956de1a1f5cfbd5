-- ===== src/Tc/Store.antt =====
-- The statements of core/store/tc.ts on proposals.
use polis_game.Base.{
  ℕ, suc, String, ◌==◌, Bool, true, false, ◌&&◌, ◌||◌, Option, none, some, List, [], ◌∷◌, ◌++◌,
  keep, eqb, ltb, leb, if◌then◌else◌,
}
use polis_game.Base.Int.{ℤ}
use polis_game.Base.Order.{sort_by, limit_to}
use polis_game.Base.Rows.{update, row_count, select_first}
use polis_game.Tc.{
  active, settled, cancelled, TcProposal, TcProposalInput, TcProposalUpdate, Message, TcDb,
}

abbrev pub is_active : TcProposal → Bool
is_active p = elim p.status [ active ↦ true | settled ↦ false | cancelled ↦ false ]

abbrev pub or_else {ℓ} : {A : Type ℓ} → Option A → A → A
or_else none d = d
or_else (some a) d = a

abbrev pub is_some_text : Option String → String → Bool
is_some_text none s = false
is_some_text (some t) s = t == s

unfoldable pub next_tc_num_unsafe : TcDb → TcDb × ℕ
next_tc_num_unsafe db = (record db { next_num = suc db.next_num }, db.next_num)

unfoldable pub insert_tc_proposal : TcDb → TcProposalInput → TcDb × (ℕ × ℕ)
unfolding next_tc_num_unsafe
insert_tc_proposal db input =
    let (db1, num) = next_tc_num_unsafe db in
    (
      record db1 {
        proposals =
            db1.proposals
            ++ record {
              id = db1.next_id;
              num = num;
              title = input.title;
              option_type = input.option_type;
              options = input.options;
              end_time = input.end_time;
              min_bet_lp = 10;
              max_bet_lp = or_else input.max_bet_lp 100;
              status = active;
              created_by = or_else input.created_by "";
              chat_id = or_else input.chat_id "";
              top_message_id = "";
              thread_id = none;
              settled_value = none;
              settled_option = none;
              settled_at = none;
              created_at = db1.now;
              updated_at = db1.now;
            }
              ∷ [];
        next_id = suc db1.next_id;
      },
      (db1.next_id, num),
    )

-- `UPDATE tc_proposals SET f WHERE p`, and whether a row was hit
abbrev pub update_proposals : TcDb → (TcProposal → Bool) → (TcProposal → TcProposal) → TcDb × Bool
update_proposals db p f =
    (record db { proposals = update p f db.proposals }, ltb 0 (row_count p db.proposals))

unfoldable pub update_tc_top_message_id : TcDb → ℕ → String → TcDb × Bool
update_tc_top_message_id db id top_message_id =
    update_proposals db (λ p. eqb p.id id)
      (λ p. record p { top_message_id = top_message_id; updated_at = db.now })

abbrev pub is_null {ℓ} : {A : Type ℓ} → Option A → Bool
is_null none = true
is_null (some _) = false

unfoldable pub update_tc_thread_id : TcDb → ℕ → String → TcDb × Bool
update_tc_thread_id db id thread_id =
    update_proposals db (λ p. eqb p.id id && is_null p.thread_id)
      (λ p. record p { thread_id = some thread_id; updated_at = db.now })

unfoldable pub update_tc_proposal : TcDb → ℕ → TcProposalUpdate → TcDb × Bool
update_tc_proposal db id updates =
    if is_null updates.max_bet_lp && is_null updates.end_time
    then (db, false)
    else update_proposals db (λ p. eqb p.id id)
        (λ p. record p {
          max_bet_lp = or_else updates.max_bet_lp p.max_bet_lp;
          end_time = or_else updates.end_time p.end_time;
          updated_at = db.now;
        })

unfoldable pub get_tc_by_num : TcDb → ℕ → Option TcProposal
get_tc_by_num db num = select_first (λ p. eqb p.num num) db.proposals

unfoldable pub get_tc_by_id : TcDb → ℕ → Option TcProposal
get_tc_by_id db id = select_first (λ p. eqb p.id id) db.proposals

unfoldable pub get_tc_by_top_message_id : TcDb → String → Option TcProposal
get_tc_by_top_message_id db msg_id = select_first (λ p. p.top_message_id == msg_id) db.proposals

unfoldable pub get_tc_by_thread_id : TcDb → String → Option TcProposal
get_tc_by_thread_id db thread_id =
    select_first (λ p. is_some_text p.thread_id thread_id) db.proposals

-- `ORDER BY thread_message_position ASC, create_time ASC`
abbrev pub comes_first : Message → Message → Bool
comes_first m n =
    ltb m.thread_message_position n.thread_message_position
    || (eqb m.thread_message_position n.thread_message_position && leb m.create_time n.create_time)

-- `LIMIT 1` of that order
abbrev pub root_of : List Message → Option Message
root_of [] = none
root_of (m ∷ ms) = elim (root_of ms) [
  | none ↦ some m
  | some r ↦ if comes_first m r then some m else some r
]

unfoldable pub get_tc_by_thread_fallback : TcDb → String → Option TcProposal
unfolding get_tc_by_top_message_id
get_tc_by_thread_fallback db thread_id =
    elim (root_of (keep (λ m. m.thread_id == thread_id) db.messages)) [
      | none ↦ none
      | some root ↦ get_tc_by_top_message_id db root.message_id
    ]

unfoldable pub find_active_tc_by_thread : TcDb → String → TcDb × Option TcProposal
find_active_tc_by_thread db thread_id =
    let fallback : TcDb × Option TcProposal = elim (get_tc_by_thread_fallback db thread_id) [
      | none ↦ (db, none)
      | some p ↦
          if is_active p then ((update_tc_thread_id db p.id thread_id).0, some p) else (db, none)
    ] in
    elim (get_tc_by_thread_id db thread_id) [
      | none ↦ fallback
      | some fast ↦ if is_active fast then (db, some fast) else fallback
    ]

unfoldable pub cancel_tc_proposal : TcDb → ℕ → TcDb × Bool
cancel_tc_proposal db id =
    update_proposals db (λ p. eqb p.id id && is_active p)
      (λ p. record p { status = cancelled; updated_at = db.now })

unfoldable pub settle_tc_proposal : TcDb → ℕ → Option ℤ → Option (List String) → TcDb × Bool
settle_tc_proposal db id value opt =
    update_proposals db (λ p. eqb p.id id && is_active p)
      (λ p. record p {
        status = settled;
        settled_value = value;
        settled_option = opt;
        settled_at = some db.now;
        updated_at = db.now;
      })

unfoldable pub list_expired_active_tcs : TcDb → List TcProposal
list_expired_active_tcs db =
    sort_by (λ p q. leb p.end_time q.end_time)
      (keep (λ p. is_active p && leb p.end_time db.now) db.proposals)

unfoldable pub list_active_tcs : TcDb → List TcProposal
list_active_tcs db = sort_by (λ p q. leb p.num q.num) (keep is_active db.proposals)

unfoldable pub list_active_tcs_by_chat : TcDb → String → List TcProposal
list_active_tcs_by_chat db chat_id =
    sort_by (λ p q. leb q.num p.num) (keep (λ p. p.chat_id == chat_id && is_active p) db.proposals)

unfoldable pub list_all_tcs : TcDb → ℕ → List TcProposal
list_all_tcs db limit = limit_to limit (sort_by (λ p q. leb q.num p.num) db.proposals)
