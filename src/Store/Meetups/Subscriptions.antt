-- ===== src/Store/Meetups/Subscriptions.antt =====
-- The subscriptions of core/store/meetups.ts.
use polis_game.Base.{
  ◌≡◌, refl, ◌∙◌, String, ◌==◌, eq_iff, eq_refl, Bool, true, false, ◌&&◌, ◌||◌, not, List, [], ◌∷◌,
  ◌++◌, map, keep, any, leb, ltb, arith, keep-append, Bool-cases, inl, inr,
}
use mathlib.Core.List.{append-nil}
use polis_game.Base.Order.{sort_by}
use polis_game.Base.Rows.{row_count, insert_or_ignore}
use polis_game.Base.Texts.{Text, trim, same_text, same_text_iff}
use polis_game.Store.Meetups.{Subscription, MeetupDb}

abbrev pub is_subscription : String → Text → Subscription → Bool
is_subscription open_id tag s = s.user_open_id == open_id && same_text s.tag tag

abbrev subscription : MeetupDb → String → Text → Subscription
subscription db open_id tag = record {
  user_open_id = open_id;
  tag = trim tag;
  created_at = db.unixepoch;
}

unfoldable pub subscribe_meetup_tag : MeetupDb → String → Text → MeetupDb × Bool
subscribe_meetup_tag db open_id tag =
    let same = is_subscription open_id (trim tag) in
    (
      record db {
        meetup_subscriptions =
            insert_or_ignore same (subscription db open_id tag) db.meetup_subscriptions;
      },
      not (any same db.meetup_subscriptions),
    )

unfoldable pub unsubscribe_meetup_tag : MeetupDb → String → Text → MeetupDb × Bool
unsubscribe_meetup_tag db open_id tag =
    let same = is_subscription open_id (trim tag) in
    (
      record db { meetup_subscriptions = keep (λ s. not (same s)) db.meetup_subscriptions },
      ltb 0 (row_count same db.meetup_subscriptions),
    )

unfoldable pub list_meetup_subscriptions : MeetupDb → String → List Text
list_meetup_subscriptions db open_id =
    map (λ s. s.tag)
      (sort_by (λ s t. leb s.created_at t.created_at)
        (keep (λ s. s.user_open_id == open_id) db.meetup_subscriptions))

unfoldable pub subscribers_for_tag : MeetupDb → Text → List String
subscribers_for_tag db tag =
    map (λ s. s.user_open_id) (keep (λ s. same_text s.tag (trim tag)) db.meetup_subscriptions)

-- A user is on the list of a tag.
abbrev pub follows : MeetupDb → String → Text → Bool
follows db open_id tag = any (is_subscription open_id tag) db.meetup_subscriptions

any-append :
    (p : Subscription → Bool) (ss ts : List Subscription)
    → any p (ss ++ ts) ≡ (any p ss || any p ts)
any-append p [] ts = refl
any-append p (s ∷ ss) ts = ground (arith, any-append p ss ts)

any-keep :
    (p q : Subscription → Bool) (ss : List Subscription)
    → any p (keep q ss) ≡ any (λ s. p s && q s) ss
any-keep p q [] = refl
any-keep p q (s ∷ ss) = ground (arith, any-keep p q ss)

keep_none :
    (p : Subscription → Bool) (ss : List Subscription)
    → any p ss ≡ false
    → keep (λ s. not (p s)) ss ≡ ss
keep_none p [] h = refl
keep_none p (s ∷ ss) h = ground (arith, keep_none p ss)

row_count-any :
    (p : Subscription → Bool) (ss : List Subscription) → ltb 0 (row_count p ss) ≡ any p ss
row_count-any p [] = refl
row_count-any p (s ∷ ss) = ground (arith, row_count-any p ss)

-- Subscribing reports whether the user did not follow the trimmed tag before; afterwards a user
-- follows a tag exactly if it is the one subscribed to or was followed before.
pub subscribe_meetup_tag_lem :
    (db : MeetupDb) (u : String) (tag : Text)
    → ((subscribe_meetup_tag db u tag).1 ≡ not (follows db u (trim tag)))
      × ((v : String) (t : Text)
          → follows (subscribe_meetup_tag db u tag).0 v t
            ≡ (follows db v t || (u == v && same_text (trim tag) t)))
unfolding subscribe_meetup_tag
subscribe_meetup_tag_lem db u tag = (
  refl,
  λ v t. elim (Bool-cases (follows db u (trim tag))) [
    | inl old ↦ ground (arith, old, eq_iff u v, same_text_iff (trim tag) t)
    | inr new ↦ ground (
      arith,
      new,
      any-append (is_subscription v t) db.meetup_subscriptions (subscription db u tag ∷ []),
    )
  ],
)

any_and_not :
    (p q : Subscription → Bool) (b : Bool) (ss : List Subscription)
    → ((s : Subscription) → p s ≡ true → q s ≡ b)
    → any (λ s. p s && not (q s)) ss ≡ (any p ss && not b)
any_and_not p q b [] h = refl
any_and_not p q b (s ∷ ss) h = ground (arith, any_and_not p q b ss h, h s)

-- Unsubscribing reports whether the user followed the trimmed tag; afterwards nobody's other tags
-- have changed, and the user does not follow that tag.
pub unsubscribe_meetup_tag_lem :
    (db : MeetupDb) (u : String) (tag : Text)
    → ((unsubscribe_meetup_tag db u tag).1 ≡ follows db u (trim tag))
      × ((v : String) (t : Text)
          → follows (unsubscribe_meetup_tag db u tag).0 v t
            ≡ (follows db v t && not (u == v && same_text (trim tag) t)))
unfolding unsubscribe_meetup_tag
unsubscribe_meetup_tag_lem db u tag = (
  row_count-any (is_subscription u (trim tag)) db.meetup_subscriptions,
  λ v t.
      any-keep (is_subscription v t) (λ s. not (is_subscription u (trim tag) s))
        db.meetup_subscriptions
      ∙ any_and_not (is_subscription v t) (is_subscription u (trim tag))
          (u == v && same_text (trim tag) t) db.meetup_subscriptions
          (λ s h. ground (
            arith,
            eq_iff s.user_open_id v,
            eq_iff s.user_open_id u,
            eq_iff u v,
            same_text_iff s.tag t,
            same_text_iff s.tag (trim tag),
            same_text_iff (trim tag) t,
          )),
)

-- If the user does not follow the trimmed tag, subscribing and then unsubscribing with the same text
-- brings the database back, and both report success.
pub unsubscribe-subscribe :
    (db : MeetupDb) (u : String) (tag : Text)
    → follows db u (trim tag) ≡ false
    → ((subscribe_meetup_tag db u tag).1 ≡ true)
      × (unsubscribe_meetup_tag (subscribe_meetup_tag db u tag).0 u tag ≡ (db, true))
unfolding subscribe_meetup_tag unsubscribe_meetup_tag
unsubscribe-subscribe db u tag new =
    let same = is_subscription u (trim tag) in
    let self : same (subscription db u tag) ≡ true =
      ground (arith, eq_refl u, same_text_iff (trim tag) (trim tag)) in
    let restored : keep (λ s. not (same s)) (db.meetup_subscriptions ++ subscription db u tag ∷ [])
        ≡ db.meetup_subscriptions =
      ground (
        arith,
        self,
        keep_none same db.meetup_subscriptions new,
        keep-append (λ s. not (same s)) db.meetup_subscriptions (subscription db u tag ∷ []),
        append-nil db.meetup_subscriptions,
      ) in
    let found : any same (db.meetup_subscriptions ++ subscription db u tag ∷ []) ≡ true =
      ground (arith, self, any-append same db.meetup_subscriptions (subscription db u tag ∷ [])) in
    ground (
      arith,
      new,
      restored,
      found,
      row_count-any same (db.meetup_subscriptions ++ subscription db u tag ∷ []),
    )
