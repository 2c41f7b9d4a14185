-- ===== src/Runs/Frames.antt =====
-- The transactions of src/repo/two_factor.ts leave the sessions as they are, and those of
-- src/repo/sessions.ts leave the tables of the second factor.
use ratline.Prelude.{
  ℕ, ◌≡◌, refl, ◌∙◌, Bool, true, false, not, ◌||◌, String, List, Option, none, some, any,
  Bool-cases, inl, inr,
}
use ratline.Authz.Can.{AuthzContext, Required}
use ratline.Sessions.Table.{
  SessionEndReason, Session, Store, Enrolment, RecoveryCode, Challenge, is_member,
}
use ratline.Sessions.Statements.{
  NewSession, session_of, Written, not_a_member, constraint_violated, written, violates,
  write_session, use_session_token, end_sessions, revoke_session_by_token, SessionReplacement,
  replaced_by, replace_first, replace_session, successor_of, holder_of, revoke_held,
  revoke_session_by_id, revoke_sessions_of_user, update_password_hash, is_self, allows,
}
use ratline.TwoFactor.Statements.{
  FactorSubject, write_security_policy, NewChallenge, challenge_of, start_challenge, Challenged,
  not_challenged, challenged, NewEnrolment, is_enrolment_of, is_blocked, is_confirmed, is_pending,
  live_challenge, start_enrolment, start_resolved, resolve_subject, Resolved, not_a_user,
  unresolved, resolved,
}
use ratline.TwoFactor.Statements
use ratline.TwoFactor.Redemption.{
  confirm_resolved, confirm_row, has_twice, clear_second_factor, PresentedFactor, totp,
  recovery_code, spend_factor, redeem_live,
}
use ratline.Runs.{
  starting, using, revoking, replacing, revoking_one, revoking_all, setting_hash, setting_policy,
  challenging, enrolling, confirming, redeeming, clearing, Transaction, commit, after_writing,
  after_replacing, after_asking, after_challenging, after_clearing,
}

pub write_security_policy-sessions :
    (required : Required) (store : Store) (ctx : AuthzContext) (now : ℕ) (b : Bool)
    → (after_asking store (write_security_policy required store ctx now b)).sessions
      ≡ store.sessions
unfolding write_security_policy
write_security_policy-sessions required store ctx now b = elim (Bool-cases (allows required)) [
  | inl e ↦ rw e refl
  | inr e ↦ rw e refl
]

pub start_challenge-sessions :
    (store : Store) (ctx : AuthzContext) (now : ℕ) (id : String) (input : NewChallenge)
    → (after_challenging store (start_challenge store ctx now id input)).sessions ≡ store.sessions
unfolding start_challenge
start_challenge-sessions store ctx now id input =
    elim (Bool-cases (
      not (is_member ctx.org_id input.user_id store.memberships)
      || Statements.violates (challenge_of ctx.org_id now id input) store.challenges)) [
        | inl e ↦ rw e refl
        | inr e ↦ rw e refl
      ]

pub start_resolved-sessions :
    (store : Store) (ctx : AuthzContext) (now : ℕ) (id : String) (input : NewEnrolment)
    (r : Resolved)
    → (start_resolved store ctx now id input r).1.sessions ≡ store.sessions
start_resolved-sessions store ctx now id input not_a_user = refl
start_resolved-sessions store ctx now id input unresolved = refl
start_resolved-sessions store ctx now id input (resolved user challenge_id) =
    elim (Bool-cases (is_blocked ctx.org_id user challenge_id store.enrolments)) [
      | inl e ↦ rw e refl
      | inr e ↦ elim (Bool-cases (is_member ctx.org_id user store.memberships)) [
        | inl k ↦ rw (e, k) refl
        | inr k ↦ rw (e, k) refl
      ]
    ]

confirm_row-sessions :
    (store : Store) (ctx : AuthzContext) (now step : ℕ) (digests : List String) (user : String)
    (challenge_id : Option String) (row : Option Enrolment)
    → (confirm_row store ctx now step digests user challenge_id row).1.sessions ≡ store.sessions
confirm_row-sessions store ctx now step digests user challenge_id none = refl
confirm_row-sessions store ctx now step digests user challenge_id (some e) =
    elim (Bool-cases (has_twice digests)) [ inl k ↦ rw k refl | inr k ↦ rw k refl ]

pub confirm_resolved-sessions :
    (store : Store) (ctx : AuthzContext) (now step : ℕ) (digests : List String) (r : Resolved)
    → (confirm_resolved store ctx now step digests r).1.sessions ≡ store.sessions
confirm_resolved-sessions store ctx now step digests not_a_user = refl
confirm_resolved-sessions store ctx now step digests unresolved = refl
confirm_resolved-sessions store ctx now step digests (resolved user challenge_id) =
    confirm_row-sessions store ctx now step digests user challenge_id _

spend_factor-sessions :
    (store : Store) (org : String) (now : ℕ) (user : String) (factor : PresentedFactor)
    → (spend_factor store org now user factor).1.sessions ≡ store.sessions
unfolding spend_factor
spend_factor-sessions store org now user (totp step) = refl
spend_factor-sessions store org now user (recovery_code digest) = refl

pub redeem_live-sessions :
    (store : Store) (ctx : AuthzContext) (now : ℕ) (factor : PresentedFactor) (c : Option Challenge)
    → (redeem_live store ctx now factor c).1.sessions ≡ store.sessions
redeem_live-sessions store ctx now factor none = refl
redeem_live-sessions store ctx now factor (some c) =
    elim (Bool-cases (any (is_confirmed ctx.org_id c.user_id) store.enrolments)) [
      | inr e ↦ rw e refl
      | inl e ↦ elim (Bool-cases (spend_factor store ctx.org_id now c.user_id factor).0) [
        | inl k ↦ rw (e, k) (spend_factor-sessions store ctx.org_id now c.user_id factor)
        | inr k ↦ rw (e, k) refl
      ]
    ]

pub clear_second_factor-sessions :
    (required : Required) (store : Store) (ctx : AuthzContext) (user : String)
    → (after_clearing store (clear_second_factor required store ctx user)).sessions ≡ store.sessions
unfolding clear_second_factor
clear_second_factor-sessions required store ctx user = elim (Bool-cases (is_self ctx user)) [
  | inl e ↦ rw e refl
  | inr e ↦ elim (Bool-cases (allows required)) [ inl k ↦ rw (e, k) refl | inr k ↦ rw (e, k) refl ]
]

pub update_password_hash-sessions :
    (required : Required) (store : Store) (ctx : AuthzContext) (user hash : String)
    → (after_asking store (update_password_hash required store ctx user hash)).sessions
      ≡ store.sessions
unfolding update_password_hash
update_password_hash-sessions required store ctx user hash =
    elim (Bool-cases (is_self ctx user || allows required)) [
      | inl e ↦ rw e refl
      | inr e ↦ rw e refl
    ]

-- The tables of the second factor.
abbrev pub factor_tables : Store → List Enrolment × List RecoveryCode × List Challenge
factor_tables store = (store.enrolments, store.recovery_codes, store.challenges)

pub write_session-factor_tables :
    (store : Store) (org : String) (started : ℕ) (id : String) (input : NewSession)
    → factor_tables (after_writing store (write_session store org started id input))
      ≡ factor_tables store
unfolding write_session
write_session-factor_tables store org started id input =
    elim (Bool-cases (is_member org input.user_id store.memberships)) [
      | inr e ↦ rw e refl
      | inl e ↦ elim (Bool-cases (violates (session_of org started id input) store.sessions)) [
        | inl k ↦ rw (e, k) refl
        | inr k ↦ rw (e, k) refl
      ]
    ]

replaced_by-factor_tables :
    (before store : Store) (ended : Session) (w : Written)
    → factor_tables store ≡ factor_tables before
    → factor_tables (after_writing store w) ≡ factor_tables store
    → factor_tables (after_replacing before (replaced_by ended w)) ≡ factor_tables before
replaced_by-factor_tables before store ended not_a_member h k = refl
replaced_by-factor_tables before store ended constraint_violated h k = refl
replaced_by-factor_tables before store ended (written row after) h k = k ∙ h

pub replace_first-factor_tables :
    (before store : Store) (org : String) (started : ℕ) (id : String) (input : SessionReplacement)
    (ended : Option Session)
    → factor_tables store ≡ factor_tables before
    → factor_tables (after_replacing before (replace_first org started id input ended store))
      ≡ factor_tables before
replace_first-factor_tables before store org started id input none h = refl
replace_first-factor_tables before store org started id input (some ended) h =
    replaced_by-factor_tables before store ended
      (write_session store org started id (successor_of ended input)) h
      (write_session-factor_tables store org started id (successor_of ended input))

pub revoke_held-factor_tables :
    (required : Required) (store : Store) (ctx : AuthzContext) (now : ℕ) (id : String)
    (reason : SessionEndReason) (holder : Option String)
    → factor_tables (after_asking store (revoke_held required store ctx now id reason holder))
      ≡ factor_tables store
unfolding end_sessions
revoke_held-factor_tables required store ctx now id reason none = refl
revoke_held-factor_tables required store ctx now id reason (some holder) =
    elim (Bool-cases (is_self ctx holder || allows required)) [
      | inl e ↦ rw e refl
      | inr e ↦ rw e refl
    ]

pub revoke_sessions_of_user-factor_tables :
    (required : Required) (store : Store) (ctx : AuthzContext) (now : ℕ) (user : String)
    (reason : SessionEndReason)
    → factor_tables
        (after_asking store (revoke_sessions_of_user required store ctx now user reason))
      ≡ factor_tables store
unfolding revoke_sessions_of_user end_sessions
revoke_sessions_of_user-factor_tables required store ctx now user reason =
    elim (Bool-cases (is_self ctx user || allows required)) [
      | inl e ↦ rw e refl
      | inr e ↦ rw e refl
    ]

pub update_password_hash-factor_tables :
    (required : Required) (store : Store) (ctx : AuthzContext) (user hash : String)
    → factor_tables (after_asking store (update_password_hash required store ctx user hash))
      ≡ factor_tables store
unfolding update_password_hash
update_password_hash-factor_tables required store ctx user hash =
    elim (Bool-cases (is_self ctx user || allows required)) [
      | inl e ↦ rw e refl
      | inr e ↦ rw e refl
    ]

pub write_security_policy-factor_tables :
    (required : Required) (store : Store) (ctx : AuthzContext) (now : ℕ) (b : Bool)
    → factor_tables (after_asking store (write_security_policy required store ctx now b))
      ≡ factor_tables store
unfolding write_security_policy
write_security_policy-factor_tables required store ctx now b = elim (Bool-cases (allows required)) [
  | inl e ↦ rw e refl
  | inr e ↦ rw e refl
]

-- The transactions that leave the tables of the second factor.
abbrev pub is_beside : Transaction → Bool
is_beside (challenging id input) = false
is_beside (enrolling id subject input) = false
is_beside (confirming subject step digests) = false
is_beside (redeeming token factor) = false
is_beside (clearing required user) = false
is_beside _ = true

pub commit-factor_tables :
    (digest : String → String) (now : ℕ) (t : Transaction) (ctx : AuthzContext) (store : Store)
    → is_beside t ≡ true
    → factor_tables (commit digest t ctx now store) ≡ factor_tables store
unfolding use_session_token revoke_session_by_token replace_session revoke_session_by_id
    end_sessions
commit-factor_tables digest now (starting id input) ctx store h =
    write_session-factor_tables store ctx.org_id now id input
commit-factor_tables digest now (using token) ctx store h = refl
commit-factor_tables digest now (revoking token reason) ctx store h = refl
commit-factor_tables digest now (replacing started id input) ctx store h =
    replace_first-factor_tables store _ ctx.org_id started id input _ refl
commit-factor_tables digest now (revoking_one required id reason) ctx store h =
    revoke_held-factor_tables required store ctx now id reason (holder_of store ctx id)
commit-factor_tables digest now (revoking_all required user reason) ctx store h =
    revoke_sessions_of_user-factor_tables required store ctx now user reason
commit-factor_tables digest now (setting_hash required user hash) ctx store h =
    update_password_hash-factor_tables required store ctx user hash
commit-factor_tables digest now (setting_policy required b) ctx store h =
    write_security_policy-factor_tables required store ctx now b
commit-factor_tables digest now (challenging id input) ctx store h = absurd (cc h)
commit-factor_tables digest now (enrolling id subject input) ctx store h = absurd (cc h)
commit-factor_tables digest now (confirming subject step digests) ctx store h = absurd (cc h)
commit-factor_tables digest now (redeeming token factor) ctx store h = absurd (cc h)
commit-factor_tables digest now (clearing required user) ctx store h = absurd (cc h)
