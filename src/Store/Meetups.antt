-- ===== src/Store/Meetups.antt =====
-- core/store/meetups.ts and the tables activity_meetups, activity_meetup_tags and
-- meetup_subscriptions of core/db.ts. A tag is a text that the code trims.
pub mod Tags
pub mod Subscriptions
use polis_game.Base.{
  ℕ, suc, ◌+◌, String, ◌==◌, Bool, true, false, ◌&&◌, ◌||◌, not, Option, none, some, List, [], ◌∷◌,
  ◌++◌, map, keep, any, eqb, leb, ltb, if◌then◌else◌,
}
use polis_game.Base.Order.{sort_by}
use polis_game.Base.Rows.{update, row_count, select_first, insert_or_ignore}
use polis_game.Base.Texts.{Text, trim, same_text}
use polis_game.Tc.Store.{or_else, is_null}

pub data Status : Type 0 where
  confirmed : Status
  cancelled : Status

pub record ActivityMeetup : Type 0 where
  pub id : ℕ
  pub lark_event_id : String
  pub title : String
  pub description : String
  pub recurrence : String
  pub start_time : ℕ
  pub end_time : ℕ
  pub meetup_url : String
  pub app_link : String
  pub share_link : String
  pub calendar_id : String
  pub created_by : String
  pub status : Status
  pub created_at : ℕ
  pub updated_at : ℕ
  pub tags : List Text

pub record ActivityMeetupInput : Type 0 where
  pub lark_event_id : String
  pub title : String
  pub description : Option String
  pub recurrence : Option String
  pub start_time : ℕ
  pub end_time : ℕ
  pub meetup_url : Option String
  pub app_link : Option String
  pub share_link : Option String
  pub calendar_id : Option String
  pub created_by : Option String

pub record ActivityMeetupUpdate : Type 0 where
  pub title : Option String
  pub description : Option String
  pub recurrence : Option String
  pub start_time : Option ℕ
  pub end_time : Option ℕ
  pub meetup_url : Option String
  pub app_link : Option String

pub record TagRow : Type 0 where
  pub meetup_id : ℕ
  pub tag : Text

pub record Subscription : Type 0 where
  pub user_open_id : String
  pub tag : Text
  pub created_at : ℕ

-- A row of activity_meetups has no tags: its field `tags` stays empty in the table.
pub record MeetupDb : Type 0 where
  pub activity_meetups : List ActivityMeetup
  pub activity_meetup_tags : List TagRow
  pub meetup_subscriptions : List Subscription
  pub next_id : ℕ
  pub unixepoch : ℕ

-- The entry of one id in the map that fetchTagsForIds returns, or the empty list.
unfoldable pub fetch_tags : MeetupDb → ℕ → List Text
fetch_tags db id = map (λ r. r.tag) (keep (λ r. eqb r.meetup_id id) db.activity_meetup_tags)

abbrev pub row_to_meetup : MeetupDb → ActivityMeetup → ActivityMeetup
row_to_meetup db row = record row { tags = fetch_tags db row.id }

abbrev pub with_tags : MeetupDb → Option ActivityMeetup → Option ActivityMeetup
with_tags db none = none
with_tags db (some row) = some (row_to_meetup db row)

-- `none` when the unique event id is taken, where the statement throws.
unfoldable pub insert_meetup : MeetupDb → ActivityMeetupInput → Option (MeetupDb × ℕ)
insert_meetup db m =
    if any (λ r. r.lark_event_id == m.lark_event_id) db.activity_meetups
    then none
    else some (
      record db {
        activity_meetups =
            db.activity_meetups
            ++ record {
              id = db.next_id;
              lark_event_id = m.lark_event_id;
              title = m.title;
              description = or_else m.description "";
              recurrence = or_else m.recurrence "";
              start_time = m.start_time;
              end_time = m.end_time;
              meetup_url = or_else m.meetup_url "";
              app_link = or_else m.app_link "";
              share_link = or_else m.share_link "";
              calendar_id = or_else m.calendar_id "";
              created_by = or_else m.created_by "";
              status = confirmed;
              created_at = db.unixepoch;
              updated_at = db.unixepoch;
              tags = [];
            }
              ∷ [];
        next_id = suc db.next_id;
      },
      db.next_id,
    )

-- The loop of setMeetupTags over the table of tags.
abbrev pub insert_tags : ℕ → List Text → List TagRow → List TagRow
insert_tags id [] rows = rows
insert_tags id (tag ∷ tags) rows = insert_tags id tags (
    insert_or_ignore (λ r. eqb r.meetup_id id && same_text r.tag (trim tag))
      (record { meetup_id = id; tag = trim tag }) rows)

-- For an id of the table; its key is a foreign key of the tags.
unfoldable pub set_meetup_tags : MeetupDb → ℕ → List Text → MeetupDb
set_meetup_tags db meetup_id tags = record db {
  activity_meetup_tags =
      insert_tags meetup_id tags
        (keep (λ r. not (eqb r.meetup_id meetup_id)) db.activity_meetup_tags);
}

unfoldable pub get_meetup_by_id : MeetupDb → ℕ → Option ActivityMeetup
get_meetup_by_id db id = with_tags db (select_first (λ r. eqb r.id id) db.activity_meetups)

unfoldable pub get_meetup_by_event_id : MeetupDb → String → Option ActivityMeetup
get_meetup_by_event_id db lark_event_id =
    with_tags db (select_first (λ r. r.lark_event_id == lark_event_id) db.activity_meetups)

abbrev pub update_meetups :
    MeetupDb → (ActivityMeetup → Bool) → (ActivityMeetup → ActivityMeetup) → MeetupDb × Bool
update_meetups db p f = (
  record db { activity_meetups = update p f db.activity_meetups },
  ltb 0 (row_count p db.activity_meetups),
)

unfoldable pub cancel_meetup : MeetupDb → ℕ → MeetupDb × Bool
cancel_meetup db id =
    update_meetups db (λ r. eqb r.id id)
      (λ r. record r { status = cancelled; updated_at = db.unixepoch })

abbrev pub sets_nothing : ActivityMeetupUpdate → Bool
sets_nothing u =
    is_null u.title
    && is_null u.description
    && is_null u.recurrence
    && is_null u.start_time
    && is_null u.end_time
    && is_null u.meetup_url
    && is_null u.app_link

abbrev pub apply_update : ℕ → ActivityMeetupUpdate → ActivityMeetup → ActivityMeetup
apply_update now u r = record r {
  title = or_else u.title r.title;
  description = or_else u.description r.description;
  recurrence = or_else u.recurrence r.recurrence;
  start_time = or_else u.start_time r.start_time;
  end_time = or_else u.end_time r.end_time;
  meetup_url = or_else u.meetup_url r.meetup_url;
  app_link = or_else u.app_link r.app_link;
  updated_at = now;
}

unfoldable pub update_meetup : MeetupDb → ℕ → ActivityMeetupUpdate → MeetupDb × Bool
update_meetup db id updates =
    if sets_nothing updates
    then (db, false)
    else update_meetups db (λ r. eqb r.id id) (apply_update db.unixepoch updates)

abbrev pub is_confirmed : ActivityMeetup → Bool
is_confirmed r = elim r.status [ confirmed ↦ true | cancelled ↦ false ]

-- `SELECT * FROM activity_meetups WHERE p ORDER BY start_time ASC`, with the tags
abbrev pub list_meetups : MeetupDb → (ActivityMeetup → Bool) → List ActivityMeetup
list_meetups db p =
    map (row_to_meetup db)
      (sort_by (λ q r. leb q.start_time r.start_time) (keep p db.activity_meetups))

unfoldable pub meetups_on_date : MeetupDb → ℕ → ℕ → List ActivityMeetup
meetups_on_date db start_sec end_sec =
    list_meetups db (λ r. is_confirmed r && leb start_sec r.start_time && ltb r.start_time end_sec)

unfoldable pub list_upcoming_meetups : MeetupDb → ℕ → List ActivityMeetup
list_upcoming_meetups db now_sec = list_meetups db (λ r. is_confirmed r && ltb now_sec r.end_time)

unfoldable pub list_active_meetups_for_context : MeetupDb → ℕ → List ActivityMeetup
list_active_meetups_for_context db now_sec =
    list_meetups db (λ r. is_confirmed r && (ltb now_sec r.end_time || not (r.recurrence == "")))

unfoldable pub list_all_meetups_for_wiki : MeetupDb → List ActivityMeetup
list_all_meetups_for_wiki db = list_meetups db (λ r. true)
