-- ===== src/Examples/Members.antt =====
-- A chat with two members and a roster that one of them has left.
use polis_game.Base.{◌≡◌, refl, ◌==◌, true, false, ◌&&◌, ◌||◌, none, [], ◌∷◌, if◌then◌else◌}
use polis_game.Store.Members.{MembersDb, MemberRef, in_roster, sync_chat_members}
use polis_game.Store.Members.Roster.{is_present, is_known, sync_chat_members_lem}
use polis_game.Store.Members.Arrivals.{
  Milestones, VisitorPerson, record_milestone, is_milestone_recorded, record_milestone_once,
}

abbrev directory : MembersDb
directory = record {
  chat_members =
      record {
        chat_id = "oc_1";
        open_id = "ou_ann";
        name = "Ann";
        present = true;
        first_seen = 1;
        last_seen = 5;
      }
      ∷ record {
        chat_id = "oc_1";
        open_id = "ou_bob";
        name = "Bob";
        present = true;
        first_seen = 2;
        last_seen = 5;
      }
      ∷ [];
  chats = [];
  unixepoch = 9;
}

abbrev ann_renamed : MemberRef
ann_renamed = record { open_id = "ou_ann"; name = "Anna" }

abbrev cyd : MemberRef
cyd = record { open_id = "ou_cyd"; name = "Cyd" }

one_of_each :
    let r = (sync_chat_members directory "oc_1" (ann_renamed ∷ cyd ∷ [])).1 in
    (r.added ≡ 1) × (r.left ≡ 1) × (r.renamed ≡ 1) × (r.total ≡ 2)
unfolding sync_chat_members
one_of_each = (refl, refl, refl, refl)

sync_chat_members_example :
    let db' = (sync_chat_members directory "oc_1" (ann_renamed ∷ cyd ∷ [])).0 in
    (is_present "oc_1" "ou_bob" db'.chat_members ≡ (
      if "oc_1" == "oc_1"
      then in_roster "ou_bob" (ann_renamed ∷ cyd ∷ [])
      else is_present "oc_1" "ou_bob" directory.chat_members))
    × (is_known "oc_1" "ou_bob" db'.chat_members ≡ (
        is_known "oc_1" "ou_bob" directory.chat_members
        || ("oc_1" == "oc_1" && in_roster "ou_bob" (ann_renamed ∷ cyd ∷ []))))
sync_chat_members_example =
    sync_chat_members_lem directory "oc_1" (ann_renamed ∷ cyd ∷ []) "oc_1" "ou_bob"

abbrev no_milestones : Milestones
no_milestones = record { rows = []; file = λ c. none }

abbrev hundredth : VisitorPerson
hundredth = record { open_id = "ou_ann"; name = "Ann"; first_seen = 1 }

abbrev another : VisitorPerson
another = record { open_id = "ou_bob"; name = "Bob"; first_seen = 2 }

record_milestone_once_example :
    let (st1, first) = record_milestone false true no_milestones "oc_1" 100 hundredth 7 in
    let (st2, again) = record_milestone true false st1 "oc_1" 100 another 8 in
    (is_milestone_recorded st1 "oc_1" 100 ≡ true) × (again ≡ first) × (st2.file ≡ st1.file)
record_milestone_once_example =
    record_milestone_once no_milestones "oc_1" 100 false true false hundredth another 7 8
