-- ===== src/Tests/TwoFactor.antt =====
-- src/repo/two_factor.ts for one person with an authenticator and two challenges. The digest of a
-- token is the token.
use ratline.Authz.Can.{Required, permitted, stale_authentication, DecisionReason, Freshness}
use ratline.Sessions.Statements.{revoke_sessions_of_user, is_self}
use ratline.TwoFactor.Statements.{no_live_challenge, is_pending}
use ratline.TwoFactor.Redemption.{clear_second_factor, find_pending_enrolment}
use ratline.TwoFactor.Changes.{
  reset_member_second_factor, sessions_not_revoked, confirm_and_sign_in, completion_refused,
}
use ratline.Prelude.Text.{Text, lit, text_eq}
use ratline.Prelude.Text.Trim.{is_space}
use ratline.Agent.Bytes.{uint64}
use ratline.Agent.Utf8.{encode}
use ratline.Totp.Code.{Hmac, totp_step_at, totp_code, printed, pad_start, string_of, truncated_of}
use ratline.Totp.Verification.{verify_totp, visit, code_equals, normalise_code}
use ratline.Sessions.Statements
use ratline.Sessions.Statements.{write_session}
use ratline.Sessions.Table.{Session, record_audit}
use ratline.Sessions.SignIn.{IssuedSession, Minted}
use ratline.TwoFactor.Redemption.{find_confirmed_enrolment}
use ratline.TwoFactor.Verification.{
  VerificationInput, SecondFactorResult, second_factor_accepted, second_factor_refused,
  verify_second_factor,
}
use ratline.TwoFactor.Verification.Laws.{verify_second_factor-accepted, Proves, Noted, IsIssued}
use ratline.Prelude.{
  Option, any, ◌++◌, str_eq, if◌then◌else◌, ℕ, ◌≤◌, ◌<◌, ◌≡◌, refl, true, String, List, [], ◌∷◌,
  none, some, find, arith,
}
use ratline.Authz.Can.{Actor, AuthzContext}
use ratline.Sessions.Table.{Enrolment, Challenge, Store}
use ratline.Totp.Code.{totp_parameters}
use ratline.TwoFactor.Statements.{
  FactorSubject, NewEnrolment, not_enrolled, already_enrolled, start_enrolment, resolve_subject,
  live_challenge, is_live, is_confirmed,
}
use ratline.TwoFactor.Redemption.{
  totp, recovery_code, spend_factor, redeem_challenge, redeemed, not_redeemed, challenge_not_live,
  factor_rejected, recovery_codes_left, accepts_step, accepts_code, consume,
}
use ratline.TwoFactor.Laws.{is_redeemed}
use ratline.Runs.{Event, enrolling, redeeming, run, step}
use ratline.Runs.Challenges.Once.{run-redeem_challenge}
use ratline.Runs.Replay.{run-redeem_challenge-step, run-confirmed}

abbrev same : String → String
same s = s

abbrev web : AuthzContext
web = record { org_id = "acme"; actor = Actor.service_identity "web" "web"; session_id = none }

abbrev ada_enrolment : Enrolment
ada_enrolment = record {
  id = "e1";
  org_id = "acme";
  user_id = "ada";
  secret_sealed = "v1$key$secret";
  parameters = totp_parameters;
  created_at = 50;
  confirmed_at = some 60;
  last_used_step = some 5;
}

abbrev challenge_under : String → String → Challenge
challenge_under id token = record {
  id = id;
  org_id = "acme";
  user_id = "ada";
  token_hash = token;
  created_at = 100;
  expires_at = 9000;
  consumed_at = none;
}

abbrev acme : Store
acme = record {
  memberships = record { org_id = "acme"; user_id = "ada" } ∷ [];
  accounts = [];
  sessions = [];
  policies = [];
  enrolments = ada_enrolment ∷ [];
  recovery_codes =
      record { org_id = "acme"; user_id = "ada"; code_hash = "code"; used_at = none } ∷ [];
  challenges = challenge_under "c1" "one" ∷ challenge_under "c2" "two" ∷ [];
  audit = [];
}

step_redeems : (redeem_challenge same acme web 1000 "one" (totp 7)).0 ≡ redeemed "ada" (totp 7) 1
unfolding redeem_challenge live_challenge is_live spend_factor is_confirmed accepts_step
    recovery_codes_left
step_redeems = refl

old_step_refused :
    (redeem_challenge same acme web 1000 "one" (totp 5)).0 ≡ not_redeemed factor_rejected
unfolding redeem_challenge live_challenge is_live spend_factor is_confirmed accepts_step
old_step_refused = refl

code_redeems :
    (redeem_challenge same acme web 1000 "one" (recovery_code "code")).0
    ≡ redeemed "ada" (recovery_code "code") 0
unfolding redeem_challenge live_challenge is_live spend_factor is_confirmed accepts_code
    recovery_codes_left
code_redeems = refl

one_is_redeemed : is_redeemed (redeem_challenge same acme web 1000 "one" (totp 7)).0 ≡ true
unfolding redeem_challenge live_challenge is_live spend_factor is_confirmed accepts_step
one_is_redeemed = refl

-- The enrolment that somebody with the password alone would like to make.
abbrev stolen : NewEnrolment
stolen = record { secret_sealed = "v1$key$mine"; parameters = totp_parameters }

enrolment_refused :
    (start_enrolment same acme web 1000 "e2" (FactorSubject.challenge "one") stolen).0
    ≡ not_enrolled already_enrolled
unfolding start_enrolment resolve_subject live_challenge is_live is_confirmed
enrolment_refused = refl

abbrev attempts : List Event
attempts =
    record {
      ctx = web;
      at = 1100;
      transaction = enrolling "e2" (FactorSubject.challenge "two") stolen;
    }
    ∷ record { ctx = web; at = 1200; transaction = redeeming "one" (recovery_code "code") }
    ∷ []

run-redeem_challenge_example :
    redeem_challenge same
      (run same attempts (redeem_challenge same acme web 1000 "one" (totp 7)).1)
      web
      1300
      "one"
      (recovery_code "code")
    ≡ (
      not_redeemed challenge_not_live,
      run same attempts (redeem_challenge same acme web 1000 "one" (totp 7)).1,
    )
run-redeem_challenge_example =
    run-redeem_challenge same web "one" (totp 7) (recovery_code "code") attempts 1000 1300 acme
      (omega arith) one_is_redeemed (omega arith, (omega arith, omega arith))

second_redeems :
    (redeem_challenge same
      (run same attempts (redeem_challenge same acme web 1000 "one" (totp 7)).1)
      web
      1300
      "two"
      (totp 8)).0
    ≡ redeemed "ada" (totp 8) 1
unfolding run step redeem_challenge live_challenge is_live spend_factor is_confirmed accepts_step
    recovery_codes_left start_enrolment resolve_subject consume
second_redeems = refl

run-redeem_challenge-step_example : 7 < 8
run-redeem_challenge-step_example =
    run-redeem_challenge-step same web "one" "two" "ada" 7 8 1 1 attempts 1000 1300 acme
      ada_enrolment refl step_redeems (refl, (refl, tt)) second_redeems

run-confirmed_example :
    (after : Enrolment) × (last : ℕ) × (find
        (is_confirmed "acme" "ada")
        (run same attempts acme).enrolments
      ≡ some after)
    × (after.secret_sealed ≡ "v1$key$secret")
    × (after.last_used_step ≡ some last)
    × (5 ≤ last)
run-confirmed_example =
    run-confirmed same "acme" "ada" 5 attempts acme ada_enrolment refl refl refl (refl, (refl, tt))

abbrev secret : List ℕ
secret = 1 ∷ 2 ∷ 3 ∷ 5 ∷ 8 ∷ []

abbrev read_digest : Hmac
read_digest algorithm key message = message ++ key ++ (4 ∷ [])

abbrev opened : String → Option (List ℕ)
opened sealed = if str_eq sealed "v1$key$secret" then some secret else none

-- A digest that only tells the code below from other texts.
abbrev code_digest : Text → String
code_digest presented = if text_eq presented (lit "JBSW-Y3DP") then "code" else "other"

abbrev input : Text → VerificationInput
input presented = record {
  challenge_token = "one";
  presented = presented;
  user_agent = none;
  ip = none;
  lifetime_ms = none;
  at_ms = 310000;
}

abbrev minted : Minted
minted = record { token = "fresh"; row_id = "s1" }

-- The call with a code, and what it leaves.
abbrev verified_with : Text → SecondFactorResult × Store
verified_with presented =
    verify_second_factor read_digest opened code_digest same acme web 1000 1000 minted
      (input presented)

abbrev ada_session : Session
ada_session = record {
  id = "s1";
  org_id = "acme";
  user_id = "ada";
  token_hash = "fresh";
  created_at = 1000;
  expires_at = 28801000;
  last_seen_at = none;
  revoked_at = none;
  revoked_reason = none;
  rotated_from = none;
  user_agent = "";
  ip = none;
}

abbrev ada_issued : IssuedSession
ada_issued = record { session = ada_session; token = "fresh" }

code_refused : (verified_with (lit "000003")).0 ≡ second_factor_refused factor_rejected
unfolding verify_second_factor find_confirmed_enrolment resolve_subject live_challenge is_live
    is_confirmed verify_totp totp_step_at visit code_equals normalise_code totp_code printed
    pad_start string_of truncated_of uint64 is_space text_eq encode redeem_challenge spend_factor
    accepts_code record_audit
code_refused = refl

code_accepted :
    verified_with (lit "000 010")
    ≡ (second_factor_accepted ada_issued (totp 10) 1, (verified_with (lit "000 010")).1)
unfolding verify_second_factor find_confirmed_enrolment resolve_subject live_challenge is_live
    is_confirmed verify_totp totp_step_at visit code_equals normalise_code totp_code printed
    pad_start string_of truncated_of uint64 is_space text_eq encode redeem_challenge spend_factor
    accepts_step record_audit recovery_codes_left write_session Statements.violates
code_accepted = refl

verify_second_factor-accepted_example :
    ((e : Enrolment) × (find_confirmed_enrolment same acme web 1000 (FactorSubject.challenge "one")
        ≡ some e)
      × Proves read_digest opened code_digest (input (lit "000 010")) e (totp 10))
    × ((c : Challenge) × (live_challenge same acme web 1000 "one" ≡ some c)
        × (any (is_confirmed "acme" c.user_id) acme.enrolments ≡ true)
        × ((spend_factor acme "acme" 1000 c.user_id (totp 10)).0 ≡ true)
        × ("ada" ≡ c.user_id)
        × Noted c.user_id (totp 10) (verified_with (lit "000 010")).1.audit)
    × IsIssued read_digest opened code_digest same minted ada_issued
        (verified_with (lit "000 010")).1
verify_second_factor-accepted_example =
    verify_second_factor-accepted read_digest opened code_digest same acme web 1000 1000 minted
      (input (lit "000 010")) ada_issued (totp 10) 1 (verified_with (lit "000 010")).1 code_accepted

abbrev admin : AuthzContext
admin = record { org_id = "acme"; actor = Actor.user "ben"; session_id = none }

abbrev may : Required
may = permitted (record {
  allowed = true;
  reason = DecisionReason.granted;
  action = "member.reset_two_factor";
  scope_node_id = "root";
  resource_id = none;
})

abbrev may_not : Required
may_not = stale_authentication "member.revoke_sessions" Freshness.stale

-- The factor is gone, and nothing is audited.
reset_without_entry :
    reset_member_second_factor may may_not acme admin 1000 "ada"
    ≡ (sessions_not_revoked may_not, record acme { enrolments = []; recovery_codes = [] })
unfolding reset_member_second_factor clear_second_factor revoke_sessions_of_user is_self
reset_without_entry = refl

nothing_pending_by_challenge :
    (confirm_and_sign_in read_digest opened code_digest same acme web 1000 1000 minted
      (input (lit "000010"))
      (FactorSubject.challenge "one")
      []).0
    ≡ completion_refused no_live_challenge
unfolding confirm_and_sign_in find_pending_enrolment resolve_subject live_challenge is_live
    is_pending
nothing_pending_by_challenge = refl
