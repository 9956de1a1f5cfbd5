-- ===== src/Examples/Store.antt =====
-- A batch of five rows, and a database with one meetup.
use polis_game.Base.{◌≡◌, refl, true, [], ◌∷◌}
use polis_game.Base.Texts.{codes}
use polis_game.Store.Meetups.{MeetupDb, ActivityMeetup, confirmed}
use polis_game.Store.Meetups.Tags.{distinct}
use polis_game.Store.Meetups.Subscriptions.{
  subscribe_meetup_tag, unsubscribe_meetup_tag, unsubscribe-subscribe,
}

abbrev pub tea_time : ActivityMeetup
tea_time = record {
  id = 7;
  lark_event_id = "ev_tea";
  title = "tea";
  description = "";
  recurrence = "";
  start_time = 5000;
  end_time = 6000;
  meetup_url = "";
  app_link = "";
  share_link = "";
  calendar_id = "cal";
  created_by = "ou_ann";
  status = confirmed;
  created_at = 1;
  updated_at = 1;
  tags = [];
}

abbrev pub meetup_db : MeetupDb
meetup_db = record {
  activity_meetups = tea_time ∷ [];
  activity_meetup_tags =
      record { meetup_id = 7; tag = codes "old" }
      ∷ record { meetup_id = 8; tag = codes "art" }
      ∷ [];
  meetup_subscriptions = record { user_open_id = "ou_bob"; tag = codes "art"; created_at = 3 } ∷ [];
  next_id = 9;
  unixepoch = 4000;
}

two_tags :
    distinct [] (codes " tea" ∷ codes "talk" ∷ codes "tea " ∷ []) ≡ codes "tea" ∷ codes "talk" ∷ []
two_tags = refl

unsubscribe-subscribe_example :
    ((subscribe_meetup_tag meetup_db "ou_ann" (codes "art ")).1 ≡ true)
    × (unsubscribe_meetup_tag
          (subscribe_meetup_tag meetup_db "ou_ann" (codes "art ")).0
          "ou_ann"
          (codes "art ")
        ≡ (meetup_db, true))
unsubscribe-subscribe_example = unsubscribe-subscribe meetup_db "ou_ann" (codes "art ") refl
