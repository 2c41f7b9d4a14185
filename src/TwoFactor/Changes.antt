-- ===== src/TwoFactor/Changes.antt =====
-- The calls of src/auth/two_factor.ts that change a factor or the policy. Secrets, codes and tokens are
-- what the platform's generator gave; `sealed` is the secret under `sealTotpSecret`. The text that
-- `beginEnrolment` shows is left out.
use ratline.Prelude.{ℕ, Bool, true, false, String, List, Option, none, some, map, if◌then◌else◌}
use ratline.Prelude.Text.{Text}
use ratline.Authz.Grants.{Decision}
use ratline.Authz.Can.{AuthzContext, Required, permitted, not_permitted, stale_authentication}
use ratline.Totp.Code.{Hmac}
use ratline.Sessions.Table.{
  SessionEndReason, Enrolment, Policy, Store, because, decided, record_audit,
}
use ratline.Sessions.Statements.{
  Permitted, refused, done, Written, not_a_member, constraint_violated, written,
  revoke_sessions_of_user,
}
use ratline.Sessions.SignIn.{IssuedSession, Minted}
use ratline.TwoFactor.Statements.{
  FactorSubject, self, challenge, write_security_policy, NewEnrolment, start_enrolment,
  EnrolmentWrite, no_acting_user, codes_clash, not_enrolled, enrolled, EnrolmentRefusal,
  no_live_challenge, no_pending_enrolment, acting_id,
}
use ratline.TwoFactor.Redemption.{
  find_pending_enrolment, confirm_enrolment, Cleared, own_factor, clearing_refused, cleared,
  clear_second_factor,
}
use ratline.TwoFactor.Verification.{VerificationInput, verify_opened, mint_session_for}

-- `setTwoFactorPolicy`, with the answer for `organization.manage_security_policy`.
abbrev pub policy_set :
    AuthzContext → Bool → Permitted (Policy × Store) → Permitted (Policy × Store)
policy_set ctx two_factor_required (refused required) = refused required
policy_set ctx two_factor_required (done (policy, store)) = done (
  policy,
  record_audit ctx "organization.manage_security_policy" "organization" ctx.org_id Decision.allow
      (because (if two_factor_required then "two-factor-required" else "two-factor-optional"))
      store,
)

unfoldable pub set_two_factor_policy :
    Required → Store → AuthzContext → ℕ → Bool → Permitted (Policy × Store)
set_two_factor_policy required store ctx now two_factor_required =
    policy_set ctx two_factor_required
      (write_security_policy required store ctx now two_factor_required)

-- How `resetMemberSecondFactor` ends: with a thrown error, or how many enrolments went.
pub data FactorReset : Type 0 where
  use_own_factor : FactorReset
  not_permitted_to_reset_factor : FactorReset
  factor_reset_needs_authentication : FactorReset
  sessions_not_revoked : Required → FactorReset
  factor_reset : ℕ → FactorReset

-- The `catch` around the removal.
abbrev pub removal_refused : AuthzContext → String → Store → Required → FactorReset × Store
removal_refused ctx user store (permitted decision) = (not_permitted_to_reset_factor, store)
removal_refused ctx user store (not_permitted decision) = (
  not_permitted_to_reset_factor,
  record_audit ctx "member.reset_two_factor" "member" user Decision.deny (decided decision.reason)
      store,
)
removal_refused ctx user store (stale_authentication action freshness) =
    (factor_reset_needs_authentication, store)

-- The revocation stands outside the `catch`: what it throws leaves the factor removed.
abbrev pub removal_revoked :
    AuthzContext → String → ℕ → Store → Permitted (ℕ × Store) → FactorReset × Store
removal_revoked ctx user removed store (refused required) = (sessions_not_revoked required, store)
removal_revoked ctx user removed store (done (ended, after)) = (
  factor_reset removed,
  record_audit ctx "member.reset_two_factor" "member" user Decision.allow
      (because "administrative-reset") after,
)

abbrev pub removal_of : Required → AuthzContext → ℕ → String → Store → Cleared → FactorReset × Store
removal_of may_revoke ctx now user store own_factor = (use_own_factor, store)
removal_of may_revoke ctx now user store (clearing_refused required) =
    removal_refused ctx user store required
removal_of may_revoke ctx now user store (cleared removed after) =
    removal_revoked ctx user removed after
      (revoke_sessions_of_user may_revoke after ctx now user SessionEndReason.revoked)

-- `resetMemberSecondFactor`, with the answers for `member.reset_two_factor` and
-- `member.revoke_sessions`.
unfoldable pub reset_member_second_factor :
    Required → Required → Store → AuthzContext → ℕ → String → FactorReset × Store
reset_member_second_factor may_reset may_revoke store ctx now user =
    removal_of may_revoke ctx now user store (clear_second_factor may_reset store ctx user)

-- `beginEnrolment`, its write.
abbrev pub begin_enrolment :
    (String → String)
    → Store
    → AuthzContext
    → ℕ
    → String
    → FactorSubject
    → NewEnrolment
    → EnrolmentWrite × Store
begin_enrolment digest store ctx now fresh_id subject sealed =
    start_enrolment digest store ctx now fresh_id subject sealed

-- A thrown error, a refusal or a rejected code, or the session that a challenge leads to.
pub data EnrolmentCompletion : Type 0 where
  completion_failed : EnrolmentCompletion
  completion_refused : EnrolmentRefusal → EnrolmentCompletion
  code_rejected : EnrolmentCompletion
  completed : Option IssuedSession → EnrolmentCompletion

abbrev pub is_challenge : FactorSubject → Bool
is_challenge self = false
is_challenge (challenge token) = true

abbrev pub completed_with : Store → String → Written → EnrolmentCompletion × Store
completed_with store token not_a_member = (completion_failed, store)
completed_with store token constraint_violated = (completion_failed, store)
completed_with store token (written row after) =
    (completed (some (record { session = row; token = token })), after)

-- `actingUser` throws where the subject is the actor and no user acts.
abbrev pub nothing_pending : Option String → FactorSubject → EnrolmentCompletion
nothing_pending acting (challenge token) = completion_refused no_live_challenge
nothing_pending (some user) self = completion_refused no_pending_enrolment
nothing_pending none self = completion_failed

module _ (hmac : Hmac) (open_secret : String → Option (List ℕ)) (code_digest : Text → String)
    (digest : String → String) where
  abbrev pub complete :
      AuthzContext
      → ℕ
      → ℕ
      → Minted
      → VerificationInput
      → FactorSubject
      → EnrolmentWrite
      → Store
      → EnrolmentCompletion × Store
  complete ctx now date_now minted input subject no_acting_user store = (completion_failed, store)
  complete ctx now date_now minted input subject codes_clash store = (completion_failed, store)
  complete ctx now date_now minted input subject (not_enrolled refusal) store =
      (completion_refused refusal, store)
  complete ctx now date_now minted input self (enrolled user id) store = (
    completed none,
    record_audit ctx "two_factor.enrol" "member" user Decision.allow (because "self-service") store,
  )
  complete ctx now date_now minted input (challenge token) (enrolled user id) store =
      let noted =
        record_audit ctx "two_factor.enrol" "member" user Decision.allow
          (because "forced-at-sign-in") store in
      completed_with noted minted.token (
        mint_session_for hmac open_secret code_digest digest noted ctx now date_now minted input
          user)

  abbrev pub with_confirming_step :
      Store
      → AuthzContext
      → ℕ
      → ℕ
      → Minted
      → VerificationInput
      → FactorSubject
      → List Text
      → Option (Option ℕ)
      → EnrolmentCompletion × Store
  with_confirming_step store ctx now date_now minted input subject codes none =
      (completion_failed, store)
  with_confirming_step store ctx now date_now minted input subject codes (some none) =
      (code_rejected, store)
  with_confirming_step store ctx now date_now minted input subject codes (some (some step)) =
      let wrote = confirm_enrolment digest store ctx now subject step (map code_digest codes) in
      complete ctx now date_now minted input subject wrote.0 wrote.1

  abbrev pub with_pending :
      Store
      → AuthzContext
      → ℕ
      → ℕ
      → Minted
      → VerificationInput
      → FactorSubject
      → List Text
      → Option Enrolment
      → EnrolmentCompletion × Store
  with_pending store ctx now date_now minted input subject codes none =
      (nothing_pending (acting_id ctx.actor) subject, store)
  with_pending store ctx now date_now minted input subject codes (some e) =
      with_confirming_step store ctx now date_now minted input subject codes
        (verify_opened hmac e input.presented input.at_ms (open_secret e.secret_sealed))

  -- `confirmEnrolment` of src/auth/two_factor.ts, with the recovery codes that were minted. Of its input
  -- the token is not read.
  unfoldable pub confirm_and_sign_in :
      Store
      → AuthzContext
      → ℕ
      → ℕ
      → Minted
      → VerificationInput
      → FactorSubject
      → List Text
      → EnrolmentCompletion × Store
  confirm_and_sign_in store ctx now date_now minted input subject codes =
      with_pending store ctx now date_now minted input subject codes
        (find_pending_enrolment digest store ctx now subject)
