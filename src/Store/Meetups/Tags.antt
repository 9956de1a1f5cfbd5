-- ===== src/Store/Meetups/Tags.antt =====
-- Replacing the tags of a meetup.
use polis_game.Base.{
  ℕ, ◌≡◌, ◌≢◌, refl, ◌∙◌, ap, sym, ◌&&◌, not, List, [], ◌∷◌, ◌++◌, map, keep, any, eqb,
  if◌then◌else◌, arith, keep-append,
}
use mathlib.Core.List.{append-nil, append_assoc, map-append}
use polis_game.Base.Rows.{insert_or_ignore}
use polis_game.Base.Texts.{Text, trim, same_text}
use polis_game.Store.Meetups.{TagRow, MeetupDb, fetch_tags, insert_tags, set_meetup_tags}

-- The trimmed texts without repetition, each at its first place, after those already seen.
abbrev pub distinct : List Text → List Text → List Text
distinct seen [] = seen
distinct seen (t ∷ ts) =
    distinct (if any (λ s. same_text s (trim t)) seen then seen else seen ++ trim t ∷ []) ts

abbrev tag_row : ℕ → Text → TagRow
tag_row id t = record { meetup_id = id; tag = t }

abbrev rows_of : ℕ → List Text → List TagRow
rows_of id = map (tag_row id)

any-rows_of :
    (id : ℕ) (u : Text) (rest : List TagRow) (ts : List Text)
    → keep (λ r. eqb r.meetup_id id) rest ≡ []
    → any (λ r. eqb r.meetup_id id && same_text r.tag u) (rest ++ rows_of id ts)
      ≡ any (λ s. same_text s u) ts
any-rows_of id u [] [] h = refl
any-rows_of id u [] (t ∷ ts) h = ground (arith, any-rows_of id u [] ts h)
any-rows_of id u (r ∷ rest) ts h = ground (arith, any-rows_of id u rest ts)

insert_one :
    (id : ℕ) (rest : List TagRow) (seen : List Text) (u : Text)
    → keep (λ r. eqb r.meetup_id id) rest ≡ []
    → insert_or_ignore
        (λ r. eqb r.meetup_id id && same_text r.tag u)
        (tag_row id u)
        (rest ++ rows_of id seen)
      ≡ rest ++ rows_of id (if any (λ s. same_text s u) seen then seen else seen ++ u ∷ [])
insert_one id rest seen u h = ground (
  arith,
  any-rows_of id u rest seen h,
  map-append (tag_row id) seen (u ∷ []),
  append_assoc rest (rows_of id seen) (tag_row id u ∷ []),
)

insert_tags-rows_of :
    (id : ℕ) (rest : List TagRow) (seen ts : List Text)
    → keep (λ r. eqb r.meetup_id id) rest ≡ []
    → insert_tags id ts (rest ++ rows_of id seen) ≡ rest ++ rows_of id (distinct seen ts)
insert_tags-rows_of id rest seen [] h = refl
insert_tags-rows_of id rest seen (t ∷ ts) h =
    ap (insert_tags id ts) (insert_one id rest seen (trim t) h)
    ∙ insert_tags-rows_of id rest
        (if any (λ s. same_text s (trim t)) seen then seen else seen ++ trim t ∷ []) ts h

keep_others :
    (id : ℕ) (rs : List TagRow)
    → keep (λ r. eqb r.meetup_id id) (keep (λ r. not (eqb r.meetup_id id)) rs) ≡ []
keep_others id [] = refl
keep_others id (r ∷ rs) = ground (arith, keep_others id rs)

keep_other :
    (id j : ℕ) (rs : List TagRow)
    → j ≢ id
    → keep (λ r. eqb r.meetup_id j) (keep (λ r. not (eqb r.meetup_id id)) rs)
      ≡ keep (λ r. eqb r.meetup_id j) rs
keep_other id j [] ne = refl
keep_other id j (r ∷ rs) ne = ground (arith, keep_other id j rs ne)

keep-rows_of :
    (id : ℕ) (ts : List Text) → keep (λ r. eqb r.meetup_id id) (rows_of id ts) ≡ rows_of id ts
keep-rows_of id [] = refl
keep-rows_of id (t ∷ ts) = ground (arith, keep-rows_of id ts)

keep_other-rows_of :
    (id j : ℕ) (ts : List Text) → j ≢ id → keep (λ r. eqb r.meetup_id j) (rows_of id ts) ≡ []
keep_other-rows_of id j [] ne = refl
keep_other-rows_of id j (t ∷ ts) ne = ground (arith, keep_other-rows_of id j ts ne)

tags-rows_of : (id : ℕ) (ts : List Text) → map (λ r. r.tag) (rows_of id ts) ≡ ts
tags-rows_of id [] = refl
tags-rows_of id (t ∷ ts) = ap (◌∷◌ t) (tags-rows_of id ts)

others : MeetupDb → ℕ → List TagRow
others db id = keep (λ r. not (eqb r.meetup_id id)) db.activity_meetup_tags

rows_after :
    (db : MeetupDb) (id : ℕ) (ts : List Text)
    → (set_meetup_tags db id ts).activity_meetup_tags ≡ others db id ++ rows_of id (distinct [] ts)
unfolding set_meetup_tags others
rows_after db id ts =
    ap (insert_tags id ts) (sym (append-nil (others db id)))
    ∙ insert_tags-rows_of id (others db id) [] ts (keep_others id db.activity_meetup_tags)

-- After setting the tags of a meetup, its tags are the trimmed texts without repetition, in order;
-- the tags of every other meetup are as before.
pub set_meetup_tags_lem :
    (db : MeetupDb) (id : ℕ) (ts : List Text)
    → (fetch_tags (set_meetup_tags db id ts) id ≡ distinct [] ts)
      × ((j : ℕ) → j ≢ id → fetch_tags (set_meetup_tags db id ts) j ≡ fetch_tags db j)
unfolding fetch_tags others
set_meetup_tags_lem db id ts = (
  ap (λ rs. map (λ r. r.tag) (keep (λ r. eqb r.meetup_id id) rs)) (rows_after db id ts)
      ∙ cc (
        keep-append (λ r. eqb r.meetup_id id) (others db id) (rows_of id (distinct [] ts)),
        keep_others id db.activity_meetup_tags,
        keep-rows_of id (distinct [] ts),
        tags-rows_of id (distinct [] ts),
      ),
  λ j ne.
      ap (λ rs. map (λ r. r.tag) (keep (λ r. eqb r.meetup_id j) rs)) (rows_after db id ts)
      ∙ cc (
        keep-append (λ r. eqb r.meetup_id j) (others db id) (rows_of id (distinct [] ts)),
        keep_other id j db.activity_meetup_tags ne,
        keep_other-rows_of id j (distinct [] ts) ne,
        append-nil (keep (λ r. eqb r.meetup_id j) db.activity_meetup_tags),
      ),
)
