-- ===== src/Agent/Sessions/Healing.antt =====
-- What the repair of core/kimi-session.ts leaves on disk.
use polis_game.Base.{
  ◌≡◌, ◌⊎◌, refl, ap, ◌∙◌, String, eq_iff, Bool, true, false, not, ◌&&◌, ◌||◌, Option, none, some,
  List, [], ◌∷◌, keep, any, arith, Bool-cases, Option-cases, inl, inr, if◌then◌else◌,
}
use polis_game.Agent.Sessions.{
  SessionDir, same_dir, Session, KimiHome, find_session, validate_session, session_orphans,
  quarantine_session, quarantine_if_corrupt, heal_each, heal_session_for, sibling_session_dirs,
  is_none,
}

pub same_dir-eq : (a b : SessionDir) → same_dir a b ≡ true → a ≡ b
same_dir-eq a b h = ground (arith, eq_iff a.wd b.wd, eq_iff a.base b.base)

pub same_dir_refl : (a : SessionDir) → same_dir a a ≡ true
same_dir_refl a = ground (arith, eq_iff a.wd a.wd, eq_iff a.base a.base)

abbrev pub without : SessionDir → List Session → List Session
without d ss = keep (λ s. not (same_dir s.dir d)) ss

find-without :
    (d e : SessionDir) (ss : List Session)
    → find_session (without d ss) e ≡ (if same_dir e d then none else find_session ss e)
find-without d e [] = ground arith
find-without d e (s ∷ ss) = ground (
  arith,
  eq_iff s.dir.wd d.wd,
  eq_iff s.dir.base d.base,
  eq_iff s.dir.wd e.wd,
  eq_iff s.dir.base e.base,
  eq_iff e.wd d.wd,
  eq_iff e.base d.base,
  find-without d e ss,
)

-- What quarantine does to the sessions on disk, the directory asked for or another.
abbrev pub after : Bool → Option Session → Option Session
after gone found = if gone then none else found

after-none : (gone : Bool) → after gone none ≡ none
after-none true = refl
after-none false = refl

abbrev bad : Option Session → Bool
bad found = not (is_none (session_orphans found))

after_twice :
    (a b : Bool) (found final : Option Session)
    → final ≡ after (b && bad (after (a && bad found) found)) (after (a && bad found) found)
    → final ≡ after ((a || b) && bad found) found
after_twice true true none final h = h
after_twice true false none final h = h
after_twice true true (some s) final h = ground (arith, h)
after_twice true false (some s) final h = h
after_twice false b found final h = h

whole : (found : Option Session) → is_none (session_orphans (after (bad found) found)) ≡ true
whole none = refl
whole (some s) = elim (Bool-cases (bad (some s))) [
  | inl corrupt ↦ rw corrupt
  | inr ok ↦ rw ok (ground (arith, ok))
]

kept :
    (near : Bool) (found : Option Session)
    → (near ≡ false) ⊎ (is_none (session_orphans found) ≡ true)
    → after (near && bad found) found ≡ found
kept near found (inl far) = rw far
kept near found (inr ok) = ground (arith, ok)

module _ (moves : SessionDir → Bool) where
  quarantine-find :
      (home : KimiHome) (d e : SessionDir)
      → moves d ≡ true
      → find_session (quarantine_session moves home d).0.sessions e
        ≡ after (same_dir e d) (find_session home.sessions e)
  unfolding quarantine_session
  quarantine-find home d e h = elim (Option-cases (find_session home.sessions d)) [
    | inl missing ↦ rw missing (elim (Bool-cases (same_dir e d)) [
      | inl same ↦ rw same (ap (find_session home.sessions) (same_dir-eq e d same) ∙ missing)
      | inr other ↦ rw other
    ])
    | inr (s, there) ↦ rw (there, h) (find-without d e home.sessions)
  ]

  -- One round of a loop removes the session exactly if it is corrupt.
  round-find :
      (home : KimiHome) (d e : SessionDir)
      → moves d ≡ true
      → find_session (quarantine_if_corrupt moves home d).0.sessions e
        ≡ after (same_dir e d && not (validate_session home e).0) (find_session home.sessions e)
  round-find home d e h = elim (Bool-cases (same_dir e d)) [
    | inl same ↦
        let here : e ≡ d = same_dir-eq e d same in
        rw here (elim (Bool-cases (validate_session home d).0) [
          | inl ok ↦ rw (ok, same_dir_refl d)
          | inr corrupt ↦
              rw (corrupt, same_dir_refl d)
                (quarantine-find home d d h
                  ∙ ap (λ b. after b (find_session home.sessions d)) (same_dir_refl d))
        ])
    | inr other ↦ elim (Bool-cases (validate_session home d).0) [
      | inl ok ↦ rw (ok, other)
      | inr corrupt ↦
          rw (corrupt, other)
            (quarantine-find home d e h ∙ ap (λ b. after b (find_session home.sessions e)) other)
    ]
  ]

  pub heal_each-find :
      (home : KimiHome) (ds : List SessionDir) (e : SessionDir)
      → ((d : SessionDir) → moves d ≡ true)
      → find_session (heal_each moves home ds).0.sessions e
        ≡ after
            (any (same_dir e) ds && not (validate_session home e).0)
            (find_session home.sessions e)
  unfolding validate_session
  heal_each-find home [] e h = refl
  heal_each-find home (d ∷ ds) e h =
      let home1 = (quarantine_if_corrupt moves home d).0 in
      after_twice (same_dir e d) (any (same_dir e) ds) (find_session home.sessions e)
        (find_session (heal_each moves home1 ds).0.sessions e)
        (rw (← round-find home d e (h d)) (heal_each-find home1 ds e h))

  -- Where directories can be moved, the repair leaves each session beside an indexed one of the
  -- working directory whole or gone, and every other session, as well as each that was whole, as it was.
  pub heal_session_for-Healed :
      (home : KimiHome) (work_dir : String)
      → ((d : SessionDir) → moves d ≡ true)
      → let final = (heal_session_for moves home work_dir).0 in
        ((e : SessionDir)
          → any (same_dir e) (sibling_session_dirs home work_dir) ≡ true
          → (validate_session final e).0 ≡ true)
        × ((e : SessionDir)
            → (any (same_dir e) (sibling_session_dirs home work_dir) ≡ false)
              ⊎ ((validate_session home e).0 ≡ true)
            → find_session final.sessions e ≡ find_session home.sessions e)
  unfolding heal_session_for validate_session
  heal_session_for-Healed home work_dir h = (
    (λ e near.
        rw (heal_each-find home (sibling_session_dirs home work_dir) e h, near)
          (whole (find_session home.sessions e))),
    (λ e safe. heal_each-find home (sibling_session_dirs home work_dir) e h ∙ kept _ _ safe),
  )
