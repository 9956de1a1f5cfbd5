-- ===== src/Commands/MeetupCommand.antt =====
-- The commands `follow`, `unfollow`, `follows` and `meetup` of core/commands.ts. Whether the calendar
-- service deletes an event is an argument; names in the replies and the wiki page are left out.
use polis_game.Base.{
  ℕ, String, ◌==◌, Bool, true, false, not, Option, none, some, List, if◌then◌else◌,
}
use polis_game.Base.Texts.{Text, trim}
use polis_game.Commands.Words.{is_empty}
use polis_game.Store.Meetups.{
  confirmed, cancelled, ActivityMeetup, MeetupDb, get_meetup_by_id, cancel_meetup,
}
use polis_game.Store.Meetups.Subscriptions.{
  subscribe_meetup_tag, unsubscribe_meetup_tag, list_meetup_subscriptions,
}

-- `senderOpenId ?? ''`
abbrev pub sender_or_empty : Option String → String
sender_or_empty none = ""
sender_or_empty (some s) = s

abbrev pub can_manage_meetup : (String → Bool) → Option String → String → Bool
can_manage_meetup is_admin sender_open_id creator_open_id =
    let sender = sender_or_empty sender_open_id in
    if sender == "" then false else if sender == creator_open_id then true else is_admin sender

pub data FollowReply : Type 0 where
  no_sender no_tag : FollowReply
  done : Bool → FollowReply
  following : List Text → FollowReply

-- The checks of the sender and of `args[0]`, which `follow` and `unfollow` share.
abbrev pub on_tag :
    MeetupDb
    → Option String
    → Option Text
    → (String → Text → MeetupDb × Bool)
    → MeetupDb × FollowReply
on_tag db sender none act = (db, if sender_or_empty sender == "" then no_sender else no_tag)
on_tag db sender (some tag) act =
    let r = act (sender_or_empty sender) (trim tag) in
    if sender_or_empty sender == ""
    then (db, no_sender)
    else if is_empty (trim tag)
    then (db, no_tag)
    else (r.0, done r.1)

unfoldable pub follow : MeetupDb → Option String → Option Text → MeetupDb × FollowReply
follow db sender tag = on_tag db sender tag (λ u t. subscribe_meetup_tag db u t)

unfoldable pub unfollow : MeetupDb → Option String → Option Text → MeetupDb × FollowReply
unfollow db sender tag = on_tag db sender tag (λ u t. unsubscribe_meetup_tag db u t)

unfoldable pub follows : MeetupDb → Option String → FollowReply
follows db sender =
    if sender_or_empty sender == ""
    then no_sender
    else following (list_meetup_subscriptions db (sender_or_empty sender))

-- The subcommand, with `Number(args[1])`, which is `none` for 0 and for a text that is no number.
pub data MeetupAction : Type 0 where
  cancels : Option ℕ → MeetupAction
  edits : Option ℕ → MeetupAction
  unknown : MeetupAction

pub data MeetupReply : Type 0 where
  usage not_found already_cancelled owner_only use_the_tool unknown_action : MeetupReply
  withdrawn : Bool → MeetupReply

abbrev pub cancel_found :
    (String → Bool)
    → Bool
    → MeetupDb
    → Option String
    → ℕ
    → Option ActivityMeetup
    → MeetupDb × MeetupReply
cancel_found is_admin lark_ok db sender id none = (db, not_found)
cancel_found is_admin lark_ok db sender id (some mtg) = elim mtg.status [
  | cancelled ↦ (db, already_cancelled)
  | confirmed ↦
      if not (can_manage_meetup is_admin sender mtg.created_by)
      then (db, owner_only)
      else ((cancel_meetup db id).0, withdrawn lark_ok)
]

abbrev pub edit_found : (String → Bool) → Option String → Option ActivityMeetup → MeetupReply
edit_found is_admin sender none = use_the_tool
edit_found is_admin sender (some mtg) =
    if not (can_manage_meetup is_admin sender mtg.created_by) then owner_only else use_the_tool

unfoldable pub meetup :
    (String → Bool) → Bool → MeetupDb → Option String → MeetupAction → MeetupDb × MeetupReply
meetup is_admin lark_ok db sender (cancels none) = (db, usage)
meetup is_admin lark_ok db sender (cancels (some id)) =
    cancel_found is_admin lark_ok db sender id (get_meetup_by_id db id)
meetup is_admin lark_ok db sender (edits none) = (db, edit_found is_admin sender none)
meetup is_admin lark_ok db sender (edits (some id)) =
    (db, edit_found is_admin sender (get_meetup_by_id db id))
meetup is_admin lark_ok db sender unknown = (db, unknown_action)
