-- ===== src/Agent/Sessions/Siblings.antt =====
-- Which sessions `siblingSessionDirs` of core/kimi-session.ts finds, before and after a repair.
use polis_game.Base.{
  ◌≡◌, refl, sym, ap, ◌∙◌, String, ◌==◌, eq_iff, Bool, true, false, not, ◌&&◌, ◌||◌, Option, List,
  [], ◌∷◌, ◌++◌, keep, any, map, arith, Bool-cases, inl, inr,
}
use mathlib.Core.Path.{fun_ext}
use polis_game.Base.Texts.{codes, starts_with}
use polis_game.Agent.Sessions.{
  SessionDir, same_dir, SessionRef, Session, KimiHome, find_session, validate_session, add_id,
  quarantine_session, quarantine_if_corrupt, heal_each, heal_session_for, dirs_in, dirs_of, wd_dirs,
  sibling_session_dirs, is_there,
}
use polis_game.Agent.Sessions.Healing.{
  same_dir-eq, same_dir_refl, after, heal_session_for-Healed, heal_each-find,
}

abbrev pub is_session_name : SessionDir → Bool
is_session_name e = starts_with (codes "session_") (codes e.base)

same_dir_sym : (a b : SessionDir) → same_dir a b ≡ same_dir b a
same_dir_sym a b =
    ground (arith, eq_iff a.wd b.wd, eq_iff b.wd a.wd, eq_iff a.base b.base, eq_iff b.base a.base)

pub any-append {ℓ} :
    {A : Type ℓ} (p : A → Bool) (xs ys : List A) → any p (xs ++ ys) ≡ (any p xs || any p ys)
any-append p [] ys = refl
any-append p (x ∷ xs) ys = ground (arith, any-append p xs ys)

any-keep {ℓ} :
    {A : Type ℓ} (p q : A → Bool) (xs : List A) → any p (keep q xs) ≡ true → any p xs ≡ true
any-keep p q [] h = h
any-keep p q (x ∷ xs) h = ground (arith, any-keep p q xs)

any-map-keep {ℓ κ} :
    {A : Type ℓ} {B : Type κ} (p : B → Bool) (f : A → B) (q : A → Bool) (xs : List A)
    → any p (map f (keep q xs)) ≡ any (λ x. q x && p (f x)) xs
any-map-keep p f q [] = refl
any-map-keep p f q (x ∷ xs) = ground (arith, any-map-keep p f q xs)

listed_at :
    (d e : SessionDir) (wd : String)
    → (((d.wd == wd) && is_session_name d) && same_dir e d)
      ≡ (same_dir d e && ((e.wd == wd) && is_session_name e))
listed_at d e wd = elim (Bool-cases (same_dir d e)) [
  | inl here ↦ rw (same_dir-eq d e here, same_dir_refl e) (ground arith)
  | inr away ↦ rw (same_dir_sym e d, away) (ground arith)
]

any-there :
    (e : SessionDir) (c : Bool) (ss : List Session)
    → any (λ s. same_dir s.dir e && c) ss ≡ (c && is_there (find_session ss e))
any-there e true [] = refl
any-there e false [] = refl
any-there e c (s ∷ ss) = ground (arith, any-there e c ss)

any-dirs_in :
    (e : SessionDir) (wd : String) (ss : List Session)
    → any (same_dir e) (dirs_in wd ss)
      ≡ (((e.wd == wd) && is_session_name e) && is_there (find_session ss e))
any-dirs_in e wd ss =
    any-map-keep (same_dir e) (λ (s : Session). s.dir)
      (λ (s : Session). (s.dir.wd == wd) && is_session_name s.dir) ss
    ∙ ap (λ (p : Session → Bool). any p ss) (fun_ext (λ (s : Session). listed_at s.dir e wd))
    ∙ any-there e ((e.wd == wd) && is_session_name e) ss

both : (m ms n f : Bool) → (((m && n) && f) || (ms && (n && f))) ≡ ((m || ms) && (n && f))
both true true true f = ground arith
both true false n f = ground arith
both true true false f = refl
both false ms n f = refl

any-dirs_of :
    (e : SessionDir) (wds : List String) (ss : List Session)
    → any (same_dir e) (dirs_of wds ss)
      ≡ (any (λ w. e.wd == w) wds && (is_session_name e && is_there (find_session ss e)))
any-dirs_of e [] ss = refl
any-dirs_of e (wd ∷ wds) ss =
    any-append (same_dir e) (dirs_in wd ss) (dirs_of wds ss)
    ∙ rw (any-dirs_in e wd ss, any-dirs_of e wds ss)
        (both (e.wd == wd) (any (λ w. e.wd == w) wds) (is_session_name e)
          (is_there (find_session ss e)))

any-swap :
    (x y : String) (ids : List String) → x ≡ y → any (λ w. x == w) ids ≡ any (λ i. i == y) ids
any-swap x y [] h = refl
any-swap x y (i ∷ ids) h = ground (arith, any-swap x y ids h, eq_iff x i, eq_iff i y)

any-add_id :
    (x y : String) (ids : List String)
    → any (λ w. x == w) (add_id y ids) ≡ (any (λ w. x == w) ids || (x == y))
any-add_id x y ids =
    ground (arith, any-append (λ w. x == w) ids (y ∷ []), eq_iff x y, any-swap x y ids)

-- A line of the index for the working directory.
abbrev pub refers : String → String → SessionRef → Bool
refers work_dir x r = (r.work_dir == work_dir) && (x == r.session_dir.wd)

any-wd_dirs :
    (work_dir x : String) (index : List SessionRef) (dirs : List String)
    → any (λ w. x == w) (wd_dirs work_dir index dirs)
      ≡ (any (λ w. x == w) dirs || any (refers work_dir x) index)
any-wd_dirs work_dir x [] dirs = ground arith
any-wd_dirs work_dir x (r ∷ rs) dirs = ground (
  arith,
  any-wd_dirs work_dir x rs dirs,
  any-wd_dirs work_dir x rs (add_id r.session_dir.wd dirs),
  any-add_id x r.session_dir.wd dirs,
)

-- A session is found if its name says so, it is on disk, and a line of the index for the working
-- directory names a session with the same parent.
pub siblings_lem :
    (home : KimiHome) (work_dir : String) (e : SessionDir)
    → any (same_dir e) (sibling_session_dirs home work_dir) ≡ (
        any (refers work_dir e.wd) home.index
        && (is_session_name e && is_there (find_session home.sessions e)))
unfolding sibling_session_dirs
siblings_lem home work_dir e =
    any-dirs_of e (wd_dirs work_dir home.index []) home.sessions
    ∙ ap (λ b. b && (is_session_name e && is_there (find_session home.sessions e)))
        (any-wd_dirs work_dir e.wd home.index [])

and_elim : (a b : Bool) → (a && b) ≡ true → (a ≡ true) × (b ≡ true)
and_elim a b h = ground (arith, h)

after-there :
    (gone : Bool) (found : Option Session)
    → is_there (after gone found) ≡ true
    → is_there found ≡ true
after-there true found h = ground (arith, h)
after-there false found h = h

module _ (moves : SessionDir → Bool) where
  round-index :
      (home : KimiHome) (d : SessionDir) (p : SessionRef → Bool)
      → any p (quarantine_if_corrupt moves home d).0.index ≡ true
      → any p home.index ≡ true
  unfolding quarantine_session
  round-index home d p h =
      ground (arith, any-keep p (λ (r : SessionRef). not (same_dir r.session_dir d)) home.index)

  heal_each-index :
      (home : KimiHome) (ds : List SessionDir) (p : SessionRef → Bool)
      → any p (heal_each moves home ds).0.index ≡ true
      → any p home.index ≡ true
  heal_each-index home [] p h = h
  heal_each-index home (d ∷ ds) p h =
      round-index home d p (heal_each-index (quarantine_if_corrupt moves home d).0 ds p h)

  -- After a repair, no session that a later one would find is corrupt, where directories can be moved.
  pub heal_session_for-clean :
      (home : KimiHome) (work_dir : String) (e : SessionDir)
      → ((d : SessionDir) → moves d ≡ true)
      → let final = (heal_session_for moves home work_dir).0 in
        any (same_dir e) (sibling_session_dirs final work_dir) ≡ true
        → (validate_session final e).0 ≡ true
  unfolding heal_session_for
  heal_session_for-clean home work_dir e h found =
      let final = (heal_session_for moves home work_dir).0 in
      let parts = and_elim _ _ (sym (siblings_lem final work_dir e) ∙ found) in
      let named = and_elim _ _ parts.1 in
      let ds = sibling_session_dirs home work_dir in
      let there : is_there (find_session home.sessions e) ≡ true =
        after-there _ _ (ap is_there (sym (heal_each-find moves home ds e h)) ∙ named.1) in
      (heal_session_for-Healed moves home work_dir h).0 e (
        siblings_lem home work_dir e
        ∙ rw (heal_each-index home ds (refers work_dir e.wd) parts.0, named.0, there))
