-- ===== src/TwoFactor/Verification.antt =====
-- `verifySecondFactor` of src/auth/two_factor.ts. `open_secret` is `openTotpSecret` under the key, where
-- nothing stands for what it throws; `code_digest` is `recoveryCodeDigest`, and `digest` that of a token.
-- All statements of one call see one instant.
pub mod Laws
use ratline.Prelude.{
  ℕ, ◌+◌, Bool, true, false, String, List, [], ◌∷◌, Option, none, some, if◌then◌else◌,
}
use ratline.Prelude.Text.{Text}
use ratline.Authz.Grants.{Decision}
use ratline.Authz.Can.{AuthzContext}
use ratline.Totp.Code.{Hmac}
use ratline.Totp.Verification.{Verified, not_a_period, verified, verify_totp}
use ratline.Sessions.Table.{
  Session, Enrolment, Challenge, Store, AuditReason, because, record_audit,
}
use ratline.Sessions.Statements.{
  NewSession, Written, not_a_member, constraint_violated, written, start_session,
}
use ratline.Sessions.SignIn.{IssuedSession, Minted, or_else, expiry_from}
use ratline.TwoFactor.Statements.{FactorSubject, challenge, live_challenge}
use ratline.TwoFactor.Redemption.{
  find_confirmed_enrolment, PresentedFactor, totp, recovery_code, RedemptionRefusal,
  challenge_not_live, person_not_enrolled, factor_rejected, ChallengeRedemption, not_redeemed,
  redeemed, redeem_challenge,
}

-- `TOTP_ACCEPTED_STEPS`
abbrev pub totp_accepted_steps : ℕ
totp_accepted_steps = 1

pub record VerificationInput : Type 0 where
  pub challenge_token : String
  pub presented : Text
  pub user_agent : Option String
  pub ip : Option String
  pub lifetime_ms : Option ℕ
  pub at_ms : ℕ

-- A thrown error, a refusal, or a session with the factor that was accepted and the codes left.
pub data SecondFactorResult : Type 0 where
  second_factor_failed : SecondFactorResult
  second_factor_refused : RedemptionRefusal → SecondFactorResult
  second_factor_accepted : IssuedSession → PresentedFactor → ℕ → SecondFactorResult

-- A thrown error, or what `verifyTotp` answered.
abbrev pub answer_of : Verified → Option (Option ℕ)
answer_of not_a_period = none
answer_of (verified step) = some step

-- `verifyAgainstSealed`
abbrev pub verify_opened : Hmac → Enrolment → Text → ℕ → Option (List ℕ) → Option (Option ℕ)
verify_opened hmac e presented at_ms none = none
verify_opened hmac e presented at_ms (some secret) =
    answer_of (verify_totp hmac secret presented e.parameters at_ms totp_accepted_steps)

-- `redemption.refusal` in the audit log.
abbrev pub refusal_word : RedemptionRefusal → String
refusal_word challenge_not_live = "no-live-challenge"
refusal_word person_not_enrolled = "not-enrolled"
refusal_word factor_rejected = "factor-rejected"

-- `factor.kind`
abbrev pub kind_word : PresentedFactor → String
kind_word (totp step) = "totp"
kind_word (recovery_code digest) = "recovery-code"

-- The entry for a recovery code that was spent.
abbrev pub audit_recovery : AuthzContext → String → PresentedFactor → Store → Store
audit_recovery ctx user (totp step) store = store
audit_recovery ctx user (recovery_code digest) store =
    record_audit ctx "two_factor.recovery_code_used" "member" user Decision.allow
      (because "second-factor-recovery") store

abbrev pub accepted_with :
    AuthzContext
    → String
    → String
    → PresentedFactor
    → ℕ
    → Store
    → Written
    → SecondFactorResult × Store
accepted_with ctx token user factor left store not_a_member = (second_factor_failed, store)
accepted_with ctx token user factor left store constraint_violated = (second_factor_failed, store)
accepted_with ctx token user factor left store (written row after) = (
  second_factor_accepted (record { session = row; token = token }) factor left,
  record_audit ctx "two_factor.verify" "member" user Decision.allow (because (kind_word factor))
      after,
)

module _ (hmac : Hmac) (open_secret : String → Option (List ℕ)) (code_digest : Text → String)
    (digest : String → String) where
  -- `mintSessionFor`
  abbrev pub mint_session_for :
      Store → AuthzContext → ℕ → ℕ → Minted → VerificationInput → String → Written
  mint_session_for store ctx now date_now minted input user =
      start_session store ctx now minted.row_id (record {
        user_id = user;
        token_digest = digest minted.token;
        expires_at = expiry_from date_now input.lifetime_ms;
        rotated_from = none;
        user_agent = or_else "" input.user_agent;
        ip = input.ip;
      })

  -- What follows the redemption.
  abbrev pub after_redemption :
      AuthzContext
      → ℕ
      → ℕ
      → Minted
      → VerificationInput
      → String
      → ChallengeRedemption
      → Store
      → SecondFactorResult × Store
  after_redemption ctx now date_now minted input person (not_redeemed refusal) store = (
    second_factor_refused refusal,
    record_audit ctx "two_factor.verify" "member" person Decision.deny
        (because (refusal_word refusal)) store,
  )
  after_redemption ctx now date_now minted input person (redeemed user factor left) store =
      let noted = audit_recovery ctx user factor store in
      accepted_with ctx minted.token user factor left noted
        (mint_session_for noted ctx now date_now minted input user)

  -- `step === null ? … : …`
  abbrev pub factor_of : Text → Option ℕ → PresentedFactor
  factor_of presented none = recovery_code (code_digest presented)
  factor_of presented (some step) = totp step

  abbrev pub with_step :
      Store
      → AuthzContext
      → ℕ
      → ℕ
      → Minted
      → VerificationInput
      → String
      → Option (Option ℕ)
      → SecondFactorResult × Store
  with_step store ctx now date_now minted input person none = (second_factor_failed, store)
  with_step store ctx now date_now minted input person (some step) =
      let redemption =
        redeem_challenge digest store ctx now input.challenge_token
          (factor_of input.presented step) in
      after_redemption ctx now date_now minted input person redemption.0 redemption.1

  abbrev pub unenrolled : Option Challenge → RedemptionRefusal
  unenrolled none = challenge_not_live
  unenrolled (some c) = person_not_enrolled

  abbrev pub with_enrolment :
      Store
      → AuthzContext
      → ℕ
      → ℕ
      → Minted
      → VerificationInput
      → Option Enrolment
      → SecondFactorResult × Store
  with_enrolment store ctx now date_now minted input none = (
    second_factor_refused (unenrolled (live_challenge digest store ctx now input.challenge_token)),
    store,
  )
  with_enrolment store ctx now date_now minted input (some e) =
      with_step store ctx now date_now minted input e.user_id
        (verify_opened hmac e input.presented input.at_ms (open_secret e.secret_sealed))

  -- `verifySecondFactor`
  unfoldable pub verify_second_factor :
      Store → AuthzContext → ℕ → ℕ → Minted → VerificationInput → SecondFactorResult × Store
  verify_second_factor store ctx now date_now minted input =
      with_enrolment store ctx now date_now minted input
        (find_confirmed_enrolment digest store ctx now (challenge input.challenge_token))
