-- ===== src/Store/Members/Roster.antt =====
-- What the reconciliation of a roster does to who is present.
use polis_game.Base.{
  ℕ, ◌≡◌, refl, ◌∙◌, ap, String, ◌==◌, eq_iff, eq_refl, Bool, true, false, not, ◌&&◌, ◌||◌, List,
  [], ◌∷◌, ◌++◌, any, length, arith, if◌then◌else◌,
}
use polis_game.Base.Rows.{update}
use polis_game.Store.Members.{
  ChatMember, MembersDb, MemberRef, is_member, in_roster, seen_again, new_member, upsert_member,
  upsert_roster, leavers, joiners, flip, sync_chat_members,
}

abbrev pub is_present : String → String → List ChatMember → Bool
is_present chat id = any (λ r. is_member chat id r && r.present)

abbrev pub is_known : String → String → List ChatMember → Bool
is_known chat id = any (is_member chat id)

any-append_one :
    (p : ChatMember → Bool) (rows : List ChatMember) (r : ChatMember)
    → any p (rows ++ r ∷ []) ≡ (any p rows || p r)
any-append_one p [] r = ground arith
any-append_one p (s ∷ rows) r = ground (arith, any-append_one p rows r)

update-present :
    (chat c j : String) (m : MemberRef) (now : ℕ) (rows : List ChatMember)
    → is_present c j (update (is_member chat m.open_id) (seen_again m now) rows)
      ≡ (is_present c j rows || (chat == c && (m.open_id == j && is_known chat m.open_id rows)))
update-present chat c j m now [] = ground arith
update-present chat c j m now (r ∷ rows) = ground (
  arith,
  eq_iff r.chat_id chat,
  eq_iff r.chat_id c,
  eq_iff chat c,
  eq_iff r.open_id m.open_id,
  eq_iff r.open_id j,
  eq_iff m.open_id j,
  update-present chat c j m now rows,
)

update-known :
    (p : ChatMember → Bool) (f : ChatMember → ChatMember) (c j : String) (rows : List ChatMember)
    → ((r : ChatMember) → is_member c j (f r) ≡ is_member c j r)
    → is_known c j (update p f rows) ≡ is_known c j rows
update-known p f c j [] same = refl
update-known p f c j (r ∷ rows) same = ground (arith, same r, update-known p f c j rows same)

present-upsert_member :
    (chat c j : String) (m : MemberRef) (now : ℕ) (rows : List ChatMember)
    → is_present c j (upsert_member chat now m rows)
      ≡ (is_present c j rows || (chat == c && m.open_id == j))
present-upsert_member chat c j m now rows = ground (
  arith,
  update-present chat c j m now rows,
  any-append_one (λ r. is_member c j r && r.present) rows (new_member chat m now),
)

known-upsert_member :
    (chat c j : String) (m : MemberRef) (now : ℕ) (rows : List ChatMember)
    → is_known c j (upsert_member chat now m rows)
      ≡ (is_known c j rows || (chat == c && m.open_id == j))
known-upsert_member chat c j m now rows = grind (
  arith,
  eq_iff chat c,
  eq_iff m.open_id j,
  update-known (is_member chat m.open_id) (seen_again m now) c j rows (λ r. refl),
  any-append_one (is_member c j) rows (new_member chat m now),
)

present-upsert_roster :
    (chat c j : String) (roster : List MemberRef) (now : ℕ) (rows : List ChatMember)
    → is_present c j (upsert_roster chat now roster rows)
      ≡ (is_present c j rows || (chat == c && in_roster j roster))
present-upsert_roster chat c j [] now rows = ground arith
present-upsert_roster chat c j (m ∷ ms) now rows = ground (
  arith,
  present-upsert_roster chat c j ms now (upsert_member chat now m rows),
  present-upsert_member chat c j m now rows,
)

known-upsert_roster :
    (chat c j : String) (roster : List MemberRef) (now : ℕ) (rows : List ChatMember)
    → is_known c j (upsert_roster chat now roster rows)
      ≡ (is_known c j rows || (chat == c && in_roster j roster))
known-upsert_roster chat c j [] now rows = ground arith
known-upsert_roster chat c j (m ∷ ms) now rows = ground (
  arith,
  known-upsert_roster chat c j ms now (upsert_member chat now m rows),
  known-upsert_member chat c j m now rows,
)

present-flip :
    (chat c j : String) (gone : List MemberRef) (rows : List ChatMember)
    → is_present c j (flip chat gone rows)
      ≡ (is_present c j rows && not (chat == c && in_roster j gone))
present-flip chat c j gone [] = refl
present-flip chat c j gone (r ∷ rows) = grind (
  arith,
  eq_iff r.chat_id chat,
  eq_iff r.chat_id c,
  eq_iff chat c,
  eq_iff r.open_id j,
  present-flip chat c j gone rows,
)

in_roster-leavers :
    (chat j : String) (roster : List MemberRef) (rows : List ChatMember)
    → in_roster j (leavers chat roster rows) ≡ (is_present chat j rows && not (in_roster j roster))
in_roster-leavers chat j roster [] = refl
in_roster-leavers chat j roster (r ∷ rows) =
    grind (arith, eq_iff r.open_id j, in_roster-leavers chat j roster rows)

module _ (db : MembersDb) (chat : String) (roster : List MemberRef) where
  abbrev after : MembersDb
  after = (sync_chat_members db chat roster).0

  present_after :
      (c j : String)
      → is_present c j after.chat_members
        ≡ (if chat == c then in_roster j roster else is_present c j db.chat_members)
  unfolding sync_chat_members
  present_after c j =
      let rows = db.chat_members in
      let all = upsert_roster chat db.unixepoch roster rows in
      present-flip chat c j (leavers chat roster rows) all
      ∙ grind (
        arith,
        eq_iff chat c,
        present-upsert_roster chat c j roster db.unixepoch rows,
        in_roster-leavers chat j roster rows,
      )

  known_after :
      (c j : String)
      → is_known c j after.chat_members
        ≡ (is_known c j db.chat_members || (chat == c && in_roster j roster))
  unfolding sync_chat_members
  known_after c j =
      let rows = db.chat_members in
      update-known (λ r. r.chat_id == chat && in_roster r.open_id (leavers chat roster rows))
        (λ r. record r { present = false }) c j (upsert_roster chat db.unixepoch roster rows)
        (λ r. refl)
      ∙ known-upsert_roster chat c j roster db.unixepoch rows

-- After a reconciliation, exactly the people of the roster are present in the chat, the presence in
-- every other chat is as before, and nobody whom the directory knew is forgotten.
pub sync_chat_members_lem :
    (db : MembersDb) (chat : String) (roster : List MemberRef) (c j : String)
    → let db' = (sync_chat_members db chat roster).0 in
      (is_present c j db'.chat_members
        ≡ (if chat == c then in_roster j roster else is_present c j db.chat_members))
      × (is_known c j db'.chat_members
          ≡ (is_known c j db.chat_members || (chat == c && in_roster j roster)))
sync_chat_members_lem db chat roster c j =
    (present_after db chat roster c j, known_after db chat roster c j)

no_joiners :
    (chat : String) (ms roster : List MemberRef) (rows : List ChatMember)
    → ((j : String) → in_roster j roster ≡ true → is_known chat j rows ≡ true)
    → ((j : String) → in_roster j ms ≡ true → in_roster j roster ≡ true)
    → joiners chat ms rows ≡ []
no_joiners chat [] roster rows k sub = refl
no_joiners chat (m ∷ ms) roster rows k sub =
    let here : in_roster m.open_id roster ≡ true =
      sub m.open_id (ground (arith, eq_refl m.open_id)) in
    ground
      (arith, k m.open_id here, no_joiners chat ms roster rows k (λ j h. sub j (ground (arith, h))))

nobody : (ms : List MemberRef) → ((j : String) → in_roster j ms ≡ false) → ms ≡ []
nobody [] h = refl
nobody (m ∷ ms) h = absurd (ground (arith, h m.open_id, eq_refl m.open_id))

-- A second reconciliation with the same roster reports that nobody joined and that nobody left, and
-- the size of the roster.
pub sync_chat_members_again :
    (db : MembersDb) (chat : String) (roster : List MemberRef)
    → let r = (sync_chat_members (sync_chat_members db chat roster).0 chat roster).1 in
      (r.joined_members ≡ [])
      × (r.left_members ≡ [])
      × (r.added ≡ 0)
      × (r.left ≡ 0)
      × (r.total ≡ length roster)
unfolding sync_chat_members
sync_chat_members_again db chat roster =
    let rows = (sync_chat_members db chat roster).0.chat_members in
    let joined : joiners chat roster rows ≡ [] =
      no_joiners chat roster roster rows
        (λ j h. known_after db chat roster chat j ∙ ground (arith, h, eq_refl chat)) (λ j h. h) in
    let gone : leavers chat roster rows ≡ [] = nobody (leavers chat roster rows) (λ j.
      in_roster-leavers chat j roster rows
      ∙ ground (arith, present_after db chat roster chat j, eq_refl chat)) in
    (joined, gone, ap length joined, ap length gone, refl)
