-- ===== src/Agent/SelfIntro.antt =====
-- core/self-intro.ts `handleRecordSelfIntro`: the reward for an introduction. What Feishu answers and
-- the list of operators are arguments; the texts of the replies are left out.
use polis_game.Base.{
  ◌≡◌, refl, ◌⊎◌, inl, inr, String, ◌==◌, eq_refl, Bool, true, false, not, ◌&&◌, ◌||◌, Option, none,
  some, List, [], ◌∷◌, ◌++◌, arith, any, Bool-cases, if◌then◌else◌,
}
use polis_game.Base.Int.{ℤ, pos}
use polis_game.Lp.{LedgerRow, LpDb}
use polis_game.Lp.Accounts.{
  entry, cid, is_ref, has_pt_grant_for_ref, grant_pt, upsert_profile_raw, ledger_raw,
}

abbrev pub self_intro_reward_pt : ℤ
self_intro_reward_pt = pos 600

abbrev pub self_intro_grant_reason : String
self_intro_grant_reason = "welcome:self-intro"

pub record LarkMessage : Type 0 where
  pub sender_open_id : String
  pub sender_type : String
  pub root_id : String
  pub parent_id : String

pub record RecordSelfIntroCtx : Type 0 where
  pub command_message_id : String
  pub event_root_id : String
  pub event_parent_id : String
  pub sender_open_id : String

pub data IntroReply : Type 0 where
  not_an_operator no_target unreadable not_a_member already_recorded recorded : IntroReply

-- `a || b` of texts
abbrev pub or_text : String → String → String
or_text a b = if a == "" then b else a

abbrev pub linked : Option LarkMessage → String
linked none = ""
linked (some m) = or_text m.root_id m.parent_id

unfoldable pub resolve_self_intro_target :
    (String → Option LarkMessage) → RecordSelfIntroCtx → String
resolve_self_intro_target get_message_by_id ctx =
    let from_event = or_text ctx.event_root_id ctx.event_parent_id in
    let t = linked (get_message_by_id ctx.command_message_id) in
    if not (from_event == "") && not (from_event == ctx.command_message_id)
    then from_event
    else if ctx.command_message_id == ""
    then ""
    else if t == ctx.command_message_id
    then ""
    else t

-- From the author of the introduction on.
abbrev pub reward_author : LpDb → (target_id : String) → Option LarkMessage → LpDb × IntroReply
reward_author lp target_id none = (lp, unreadable)
reward_author lp target_id (some quoted) =
    if quoted.sender_open_id == ""
    then (lp, unreadable)
    else if quoted.sender_type == "app"
    then (lp, not_a_member)
    else if has_pt_grant_for_ref lp self_intro_grant_reason target_id
    then (lp, already_recorded)
    else (
      (grant_pt lp quoted.sender_open_id self_intro_reward_pt self_intro_grant_reason
          (some target_id)).0,
      recorded,
    )

unfoldable pub handle_record_self_intro :
    (is_admin : String → Bool)
    → (String → Option LarkMessage)
    → LpDb
    → RecordSelfIntroCtx
    → LpDb × IntroReply
handle_record_self_intro is_admin get_message_by_id lp ctx =
    let target_id = resolve_self_intro_target get_message_by_id ctx in
    if ctx.sender_open_id == "" || not (is_admin ctx.sender_open_id)
    then (lp, not_an_operator)
    else if target_id == ""
    then (lp, no_target)
    else reward_author lp target_id (get_message_by_id target_id)

any-last :
    (p : LedgerRow → Bool) (rs : List LedgerRow) (r : LedgerRow)
    → p r ≡ true
    → any p (rs ++ r ∷ []) ≡ true
any-last p [] r h = grind (arith, h)
any-last p (s ∷ rs) r h = ground (arith, any-last p rs r h)

granted_once :
    (lp : LpDb) (open_id target_id : String)
    → (target_id == "") ≡ false
    → has_pt_grant_for_ref
        (grant_pt lp open_id self_intro_reward_pt self_intro_grant_reason (some target_id)).0
        self_intro_grant_reason
        target_id
      ≡ true
unfolding has_pt_grant_for_ref grant_pt ledger_raw upsert_profile_raw
granted_once lp open_id target_id named = rw named (
    any-last (λ r. r.reason == self_intro_grant_reason && is_ref r.ref_message_id target_id)
      lp.pt_ledger
      (entry lp (cid lp open_id) self_intro_reward_pt self_intro_grant_reason (some target_id))
      (rw (eq_refl target_id) refl))

reward_author-cases :
    (lp : LpDb) (target_id : String) (found : Option LarkMessage)
    → (target_id == "") ≡ false
    → let r = reward_author lp target_id found in
      (r.0 ≡ lp) ⊎ (has_pt_grant_for_ref r.0 self_intro_grant_reason target_id ≡ true)
reward_author-cases lp target_id none named = inl refl
reward_author-cases lp target_id (some m) named = elim (Bool-cases (m.sender_open_id == "")) [
  | inl unknown ↦ inl (rw unknown refl)
  | inr known ↦ elim (Bool-cases (m.sender_type == "app")) [
    | inl app ↦ inl (rw (known, app) refl)
    | inr member ↦ elim (Bool-cases (has_pt_grant_for_ref lp self_intro_grant_reason target_id)) [
      | inl done ↦ inl (rw (known, member, done) refl)
      | inr fresh ↦
          inr (rw (known, member, fresh) (granted_once lp m.sender_open_id target_id named))
    ]
  ]
]

reward_author-done :
    (lp : LpDb) (target_id : String) (found : Option LarkMessage)
    → has_pt_grant_for_ref lp self_intro_grant_reason target_id ≡ true
    → (reward_author lp target_id found).0 ≡ lp
reward_author-done lp target_id none h = refl
reward_author-done lp target_id (some m) h = elim (Bool-cases (m.sender_open_id == "")) [
  | inl unknown ↦ rw unknown refl
  | inr known ↦ elim (Bool-cases (m.sender_type == "app")) [
    | inl app ↦ rw (known, app) refl
    | inr member ↦ rw (known, member, h) refl
  ]
]

handled_done :
    (is_admin : String → Bool) (get : String → Option LarkMessage) (lp : LpDb)
    (ctx : RecordSelfIntroCtx)
    → has_pt_grant_for_ref lp self_intro_grant_reason (resolve_self_intro_target get ctx) ≡ true
    → (handle_record_self_intro is_admin get lp ctx).0 ≡ lp
unfolding handle_record_self_intro
handled_done is_admin get lp ctx h =
    let t = resolve_self_intro_target get ctx in
    elim (Bool-cases (ctx.sender_open_id == "" || not (is_admin ctx.sender_open_id))) [
      | inl refused ↦ rw refused refl
      | inr operator ↦ elim (Bool-cases (t == "")) [
        | inl nothing ↦ rw (operator, nothing) refl
        | inr named ↦ rw (operator, named) (reward_author-done lp t (get t) h)
      ]
    ]

-- An introduction pays at most once: a command leaves the ledger alone, or after it a command that
-- leads to the same message does, whoever sends it.
pub self_intro_pays_once :
    (is_admin : String → Bool) (get get' : String → Option LarkMessage) (lp : LpDb)
    (ctx ctx' : RecordSelfIntroCtx)
    → resolve_self_intro_target get' ctx' ≡ resolve_self_intro_target get ctx
    → let r = handle_record_self_intro is_admin get lp ctx in
      (r.0 ≡ lp) ⊎ ((handle_record_self_intro is_admin get' r.0 ctx').0 ≡ r.0)
unfolding handle_record_self_intro
self_intro_pays_once is_admin get get' lp ctx ctx' same =
    let t = resolve_self_intro_target get ctx in
    elim (Bool-cases (ctx.sender_open_id == "" || not (is_admin ctx.sender_open_id))) [
      | inl refused ↦ inl (rw refused refl)
      | inr operator ↦ elim (Bool-cases (t == "")) [
        | inl nothing ↦ inl (rw (operator, nothing) refl)
        | inr named ↦
            rw (operator, named)
              (elim (reward_author-cases lp t (get t) named) [
                | inl unpaid ↦ inl unpaid
                | inr paid ↦
                    inr (
                      handled_done is_admin get' (reward_author lp t (get t)).0 ctx' (rw same paid))
              ])
      ]
    ]
