-- ===== src/Commands/MeetupRights.antt =====
-- Who may cancel a meetup through the `meetup` command of core/commands.ts, and what that does.
use polis_game.Base.{
  ℕ, ◌≡◌, ◌≢◌, refl, ◌∙◌, ap, ◌⊎◌, inl, inr, String, eq_iff, Bool, true, Option, none, some, List,
  [], ◌∷◌, eqb, arith, Option-cases, Bool-cases,
}
use polis_game.Base.Rows.{update, select_first}
use polis_game.Store.Meetups.{
  Status, confirmed, cancelled, ActivityMeetup, MeetupDb, get_meetup_by_id, cancel_meetup,
  with_tags, fetch_tags,
}
use polis_game.Commands.MeetupCommand.{
  can_manage_meetup, sender_or_empty, MeetupAction, cancels, edits, unknown, cancel_found, meetup,
}

select-update_ne :
    (id j : ℕ) (f : ActivityMeetup → ActivityMeetup) (rs : List ActivityMeetup)
    → ((r : ActivityMeetup) → (f r).id ≡ r.id)
    → j ≢ id
    → select_first (λ r. eqb r.id j) (update (λ r. eqb r.id id) f rs)
      ≡ select_first (λ r. eqb r.id j) rs
select-update_ne id j f [] same ne = refl
select-update_ne id j f (r ∷ rs) same ne =
    ground (arith, same r, select-update_ne id j f rs same ne)

select-update_self :
    (id : ℕ) (f : ActivityMeetup → ActivityMeetup) (rs : List ActivityMeetup) (m : ActivityMeetup)
    → ((r : ActivityMeetup) → (f r).id ≡ r.id)
    → select_first (λ r. eqb r.id id) rs ≡ some m
    → select_first (λ r. eqb r.id id) (update (λ r. eqb r.id id) f rs) ≡ some (f m)
select-update_self id f [] m same h = ground (arith, h)
select-update_self id f (r ∷ rs) m same h =
    ground (arith, same r, h, select-update_self id f rs m same)

abbrev pub stamped : ℕ → ActivityMeetup → ActivityMeetup
stamped now m = record m { status = cancelled; updated_at = now }

-- Cancelling the meetup `m`, whose number is `id`: only its status and its time stamp change.
pub record Withdrawn (db : MeetupDb) (id : ℕ) (m : ActivityMeetup) (db' : MeetupDb) : Type 0 where
  pub itself : get_meetup_by_id db' id ≡ some (stamped db.unixepoch m)
  pub others : (j : ℕ) → j ≢ id → get_meetup_by_id db' j ≡ get_meetup_by_id db j
  pub subscriptions : db'.meetup_subscriptions ≡ db.meetup_subscriptions

-- The row behind a meetup that was found.
row_of :
    (db : MeetupDb) (id : ℕ) (m : ActivityMeetup)
    → get_meetup_by_id db id ≡ some m
    → (r : ActivityMeetup) × (select_first (λ r. eqb r.id id) db.activity_meetups ≡ some r)
      × (record r { tags = fetch_tags db r.id } ≡ m)
unfolding get_meetup_by_id
row_of db id m h = elim (Option-cases (select_first (λ r. eqb r.id id) db.activity_meetups)) [
  | inl missing ↦ ground (arith, missing, h)
  | inr (r, found) ↦ (r, found, ground (arith, found, h))
]

with_tags-cancel :
    (db : MeetupDb) (id : ℕ) (o : Option ActivityMeetup)
    → with_tags (cancel_meetup db id).0 o ≡ with_tags db o
unfolding cancel_meetup fetch_tags
with_tags-cancel db id none = refl
with_tags-cancel db id (some r) = refl

cancel_meetup-Withdrawn :
    (db : MeetupDb) (id : ℕ) (m : ActivityMeetup)
    → get_meetup_by_id db id ≡ some m
    → Withdrawn db id m (cancel_meetup db id).0
unfolding cancel_meetup get_meetup_by_id fetch_tags
cancel_meetup-Withdrawn db id m h =
    let (r, found, same) = row_of db id m h in
    record {
      itself =
          ap (with_tags db)
            (select-update_self id (stamped db.unixepoch) db.activity_meetups r (λ r. refl) found)
          ∙ ap (λ x. some (stamped db.unixepoch x)) same;
      others = λ j ne.
          with_tags-cancel db id
            (select_first (λ r. eqb r.id j) (cancel_meetup db id).0.activity_meetups)
          ∙ ap (with_tags db)
              (select-update_ne id j (stamped db.unixepoch) db.activity_meetups (λ r. refl) ne);
      subscriptions = refl;
    }

-- What a `meetup` command may do to the database: nothing, or one cancellation that is allowed.
pub record Allowed (is_admin : String → Bool) (db : MeetupDb) (sender : Option String)
    (action : MeetupAction) (db' : MeetupDb) : Type 0 where
  pub id : ℕ
  pub mtg : ActivityMeetup
  pub asked : action ≡ cancels (some id)
  pub found : get_meetup_by_id db id ≡ some mtg
  pub still_on : mtg.status ≡ confirmed
  pub known : sender_or_empty sender ≢ ""
  pub right : (sender_or_empty sender ≡ mtg.created_by) ⊎ (is_admin (sender_or_empty sender) ≡ true)
  pub effect : Withdrawn db id mtg db'

right_of :
    (is_admin : String → Bool) (sender : Option String) (creator : String)
    → can_manage_meetup is_admin sender creator ≡ true
    → (sender_or_empty sender ≢ "")
      × ((sender_or_empty sender ≡ creator) ⊎ (is_admin (sender_or_empty sender) ≡ true))
right_of is_admin sender creator h =
    ground (arith, h, eq_iff (sender_or_empty sender) "", eq_iff (sender_or_empty sender) creator)

Status-cases : (s : Status) → (s ≡ confirmed) ⊎ (s ≡ cancelled)
Status-cases confirmed = inl refl
Status-cases cancelled = inr refl

cancel_found-Allowed :
    (is_admin : String → Bool) (lark_ok : Bool) (db : MeetupDb) (sender : Option String) (id : ℕ)
    (o : Option ActivityMeetup)
    → get_meetup_by_id db id ≡ o
    → ((cancel_found is_admin lark_ok db sender id o).0 ≡ db)
      ⊎ Allowed is_admin db sender
          (cancels (some id))
          (cancel_found is_admin lark_ok db sender id o).0
cancel_found-Allowed is_admin lark_ok db sender id none found = inl refl
cancel_found-Allowed is_admin lark_ok db sender id (some m) found = elim (Status-cases m.status) [
  | inr off ↦ rw off (inl refl)
  | inl on ↦ elim (Bool-cases (can_manage_meetup is_admin sender m.created_by)) [
    | inr refused ↦ rw (on, refused) (inl refl)
    | inl granted ↦
        let rights = right_of is_admin sender m.created_by granted in
        rw (on, granted)
          (inr (record {
            id = id;
            mtg = m;
            asked = refl;
            found = found;
            still_on = on;
            known = rights.0;
            right = rights.1;
            effect = cancel_meetup-Withdrawn db id m found;
          }))
  ]
]

-- A `meetup` command leaves the database as it is, unless it cancels a meetup that is still on and
-- its sender is known and is the creator or an administrator. Then exactly that meetup becomes
-- cancelled, whether or not the calendar service agrees; every other meetup and the subscriptions
-- stay.
pub meetup-Allowed :
    (is_admin : String → Bool) (lark_ok : Bool) (db : MeetupDb) (sender : Option String)
    (action : MeetupAction)
    → let db' = (meetup is_admin lark_ok db sender action).0 in
      (db' ≡ db) ⊎ Allowed is_admin db sender action db'
unfolding meetup
meetup-Allowed is_admin lark_ok db sender (cancels none) = inl refl
meetup-Allowed is_admin lark_ok db sender (cancels (some id)) =
    cancel_found-Allowed is_admin lark_ok db sender id (get_meetup_by_id db id) refl
meetup-Allowed is_admin lark_ok db sender (edits none) = inl refl
meetup-Allowed is_admin lark_ok db sender (edits (some id)) = inl refl
meetup-Allowed is_admin lark_ok db sender unknown = inl refl
