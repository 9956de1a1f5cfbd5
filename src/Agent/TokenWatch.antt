-- ===== src/Agent/TokenWatch.antt =====
-- checkUserTokenExpiry of core/token-watch.ts, over the table token_expiry_alerts (core/store/ops.ts).
-- The moments are milliseconds, and whether the message goes out is an argument. The statements on
-- the table succeed here; the source takes a failing read for "not sent".
use polis_game.Base.{
  ℕ, suc, ◌+◌, ◌*◌, ◌≤◌, ◌≡◌, ◌⊎◌, inl, inr, String, ◌==◌, eq_refl, Bool, true, false, not, ◌&&◌,
  ◌||◌, Option, none, some, List, [], ◌∷◌, ◌++◌, keep, any, eqb, leb, eqb_iff, arith, if◌then◌else◌,
  Bool-cases,
}
use polis_game.Base.Rows.{insert_or_ignore}

-- A row of the table: the grant and the mark.
abbrev pub Alerts : Type 0
Alerts = List (String × ℕ)

abbrev is_alert : String → ℕ → String × ℕ → Bool
is_alert grant_key threshold r = r.0 == grant_key && eqb r.1 threshold

unfoldable pub was_token_expiry_alert_sent : Alerts → String → ℕ → Bool
was_token_expiry_alert_sent rows grant_key threshold = any (is_alert grant_key threshold) rows

unfoldable pub mark_token_expiry_alert_sent : Alerts → String → ℕ → Alerts
mark_token_expiry_alert_sent rows grant_key threshold =
    insert_or_ignore (is_alert grant_key threshold) (grant_key, threshold) rows

abbrev pub alert_thresholds_days : List ℕ
alert_thresholds_days = 0 ∷ 1 ∷ 2 ∷ 3 ∷ []

abbrev pub ms_per_day : ℕ
ms_per_day = 24 * 60 * 60 * 1000

-- `daysLeft <= mark`
abbrev pub is_due : (expiry_ms now : ℕ) → ℕ → Bool
is_due expiry_ms now mark = leb expiry_ms (now + mark * ms_per_day)

abbrev pub crossed : Alerts → String → (expiry_ms now : ℕ) → List ℕ
crossed rows grant_key expiry_ms now =
    keep
      (λ mark. is_due expiry_ms now mark && not (was_token_expiry_alert_sent rows grant_key mark))
      alert_thresholds_days

abbrev pub mark_all : Alerts → String → List ℕ → Alerts
mark_all rows grant_key [] = rows
mark_all rows grant_key (m ∷ ms) =
    mark_all (mark_token_expiry_alert_sent rows grant_key m) grant_key ms

-- The marks ascend, so the closest one is the first. The answer is the mark that the message words.
abbrev pub push_alert : Bool → Alerts → String → List ℕ → Alerts × Option ℕ
push_alert ok rows grant_key [] = (rows, none)
push_alert ok rows grant_key (m ∷ ms) =
    if ok then (mark_all rows grant_key (m ∷ ms), some m) else (rows, none)

-- For a readable expiry time.
unfoldable pub check_user_token_expiry :
    (ok : Bool) → Alerts → String → (expiry_ms now : ℕ) → Alerts × Option ℕ
check_user_token_expiry ok rows grant_key expiry_ms now =
    push_alert ok rows grant_key (crossed rows grant_key expiry_ms now)

-- The ticks of the watch during one grant, and the messages that went out.
abbrev pub watch : Alerts → String → (expiry_ms : ℕ) → List (ℕ × Bool) → Alerts × ℕ
watch rows grant_key expiry_ms [] = (rows, 0)
watch rows grant_key expiry_ms (tick ∷ ticks) =
    let (rows1, sent) = check_user_token_expiry tick.1 rows grant_key expiry_ms tick.0 in
    let rest = watch rows1 grant_key expiry_ms ticks in
    (rest.0, elim sent [ none ↦ rest.1 | some _ ↦ suc rest.1 ])

abbrev one_if_open : Bool → ℕ
one_if_open true = 0
one_if_open false = 1

-- How many marks of the grant are open.
abbrev still_open : Alerts → String → ℕ
still_open rows k =
    one_if_open (was_token_expiry_alert_sent rows k 0)
    + one_if_open (was_token_expiry_alert_sent rows k 1)
    + one_if_open (was_token_expiry_alert_sent rows k 2)
    + one_if_open (was_token_expiry_alert_sent rows k 3)

any-append_one :
    (p : String × ℕ → Bool) (rows : Alerts) (r : String × ℕ)
    → any p (rows ++ r ∷ []) ≡ (any p rows || p r)
any-append_one p [] r = ground arith
any-append_one p (s ∷ rows) r = ground (arith, any-append_one p rows r)

sent-mark :
    (rows : Alerts) (k : String) (m j : ℕ)
    → was_token_expiry_alert_sent (mark_token_expiry_alert_sent rows k m) k j
      ≡ (was_token_expiry_alert_sent rows k j || eqb m j)
unfolding was_token_expiry_alert_sent mark_token_expiry_alert_sent
sent-mark rows k m j =
    grind (arith, eqb_iff m j, eq_refl k, any-append_one (is_alert k j) rows (k, m))

sent-mark_all :
    (rows : Alerts) (k : String) (ms : List ℕ) (j : ℕ)
    → was_token_expiry_alert_sent (mark_all rows k ms) k j
      ≡ (was_token_expiry_alert_sent rows k j || any (λ m. eqb m j) ms)
sent-mark_all rows k [] j = ground arith
sent-mark_all rows k (m ∷ ms) j =
    ground
      (arith, sent-mark_all (mark_token_expiry_alert_sent rows k m) k ms j, sent-mark rows k m j)

abbrev weight : Option ℕ → ℕ
weight none = 0
weight (some _) = 1

any-keep :
    (p : ℕ → Bool)
    → (any (λ m. eqb m 0) (keep p alert_thresholds_days) ≡ p 0)
      × (any (λ m. eqb m 1) (keep p alert_thresholds_days) ≡ p 1)
      × (any (λ m. eqb m 2) (keep p alert_thresholds_days) ≡ p 2)
      × (any (λ m. eqb m 3) (keep p alert_thresholds_days) ≡ p 3)
any-keep p = (ground arith, ground arith, ground arith, ground arith)

some_due :
    (p : ℕ → Bool) → (keep p alert_thresholds_days ≡ []) ⊎ ((p 0 || (p 1 || (p 2 || p 3))) ≡ true)
some_due p = elim (Bool-cases (p 0 || (p 1 || (p 2 || p 3)))) [
  | inl yes_there ↦ inr yes_there
  | inr none_there ↦ inl (ground (arith, none_there))
]

module _ (rows : Alerts) (k : String) where
  abbrev was_sent : ℕ → Bool
  was_sent j = was_token_expiry_alert_sent rows k j

  -- The marks `c` that are pushed are those that `p` picks, which were not sent before.
  push_alert-open :
      (ok : Bool) (c : List ℕ) (p : ℕ → Bool)
      → (c ≡ []) ⊎ ((p 0 || (p 1 || (p 2 || p 3))) ≡ true)
      → (any (λ m. eqb m 0) c ≡ p 0)
        × (any (λ m. eqb m 1) c ≡ p 1)
        × (any (λ m. eqb m 2) c ≡ p 2)
        × (any (λ m. eqb m 3) c ≡ p 3)
      → ((j : ℕ) → p j ≡ true → was_sent j ≡ false)
      → let r = push_alert ok rows k c in weight r.1 + still_open r.0 k ≤ still_open rows k
  push_alert-open ok [] p some_p eqs fresh = omega arith
  push_alert-open false (m ∷ ms) p some_p eqs fresh = omega arith
  push_alert-open true (m ∷ ms) p some_p eqs fresh = ground (
    arith,
    some_p,
    eqs,
    fresh 0,
    fresh 1,
    fresh 2,
    fresh 3,
    sent-mark_all rows k (m ∷ ms) 0,
    sent-mark_all rows k (m ∷ ms) 1,
    sent-mark_all rows k (m ∷ ms) 2,
    sent-mark_all rows k (m ∷ ms) 3,
  )

  check-open :
      (ok : Bool) (expiry now : ℕ)
      → let r = check_user_token_expiry ok rows k expiry now in
        weight r.1 + still_open r.0 k ≤ still_open rows k
  unfolding check_user_token_expiry
  check-open ok expiry now =
      let p : ℕ → Bool = λ mark. is_due expiry now mark && not (was_sent mark) in
      push_alert-open ok (crossed rows k expiry now) p (some_due p) (any-keep p)
        (λ j h. ground (arith, h))

watch-open :
    (ticks : List (ℕ × Bool)) (rows : Alerts) (k : String) (expiry : ℕ)
    → (watch rows k expiry ticks).1 + still_open (watch rows k expiry ticks).0 k ≤ still_open rows k
watch-open [] rows k expiry = omega arith
watch-open (tick ∷ ticks) rows k expiry =
    let r = check_user_token_expiry tick.1 rows k expiry tick.0 in
    ground (arith, check-open rows k tick.1 expiry tick.0, watch-open ticks r.0 k expiry)

-- Where the statements on the table succeed: however often the watch runs, at whatever moments and
-- whichever messages fail, at most four reminders go out for one authorization grant.
pub watch_at_most_four :
    (ticks : List (ℕ × Bool)) (rows : Alerts) (k : String) (expiry : ℕ)
    → (watch rows k expiry ticks).1 ≤ 4
watch_at_most_four ticks rows k expiry = ground (arith, watch-open ticks rows k expiry)
