-- ===== src/TwoFactor/Statements.antt =====
-- src/repo/two_factor.ts, one function for each transaction. `now` is the clock of its statements,
-- `digest` is `challengeTokenDigest`; a row lock orders concurrent transactions and changes no row.
use ratline.Prelude.{
  ℕ, Bool, false, not, ◌&&◌, ◌||◌, String, List, ◌∷◌, Option, none, some, is_some, any, find,
  if◌then◌else◌, str_eq, ltb,
}
use ratline.Totp.Code.{TotpParameters}
use ratline.Authz.Can.{Actor, AuthzContext, Required}
use ratline.Sessions.Table.{Policy, Enrolment, Challenge, Store, is_member, update_where}
use ratline.Sessions.Statements.{Permitted, refused, done, allows}

pub data FactorSubject : Type 0 where
  self : FactorSubject
  challenge : String → FactorSubject

-- `readSecurityPolicy`, its first field; no row is `NO_POLICY`.
abbrev pub requires_of : Option Policy → Bool
requires_of none = false
requires_of (some p) = p.two_factor_required

unfoldable pub policy_requires : Store → AuthzContext → Bool
policy_requires store ctx = requires_of (find (λ p. str_eq p.org_id ctx.org_id) store.policies)

abbrev pub acting_id : Actor → Option String
acting_id (Actor.user id) = some id
acting_id (Actor.service_identity id name) = none
acting_id (Actor.api_token id by) = none

-- `insert … on conflict (org_id) do update`
abbrev pub put_policy : Policy → List Policy → List Policy
put_policy row rows =
    if any (λ p. str_eq p.org_id row.org_id) rows
    then update_where (λ p. str_eq p.org_id row.org_id) (λ p. row) rows
    else row ∷ rows

-- `writeSecurityPolicy`, where `required` is the answer for `organization.manage_security_policy`.
unfoldable pub write_security_policy :
    Required → Store → AuthzContext → ℕ → Bool → Permitted (Policy × Store)
write_security_policy required store ctx now two_factor_required =
    let row : Policy = record {
      org_id = ctx.org_id;
      two_factor_required = two_factor_required;
      updated_at = now;
      updated_by = acting_id ctx.actor;
    } in
    if allows required
    then done (row, record store { policies = put_policy row store.policies })
    else refused required

-- A row of the view `confirmed_two_factor_enrolments`, of a person in the tenant.
unfoldable pub is_confirmed : String → String → Enrolment → Bool
is_confirmed org user e = str_eq e.org_id org && (str_eq e.user_id user && is_some e.confirmed_at)

-- `where user_id = $1 and confirmed_at is null`
unfoldable pub is_pending : String → String → Enrolment → Bool
is_pending org user e =
    str_eq e.org_id org && (str_eq e.user_id user && not (is_some e.confirmed_at))

pub record SecondFactorRequirement : Type 0 where
  pub policy_requires : Bool
  pub enrolled : Bool

-- `readSecondFactorRequirement`
unfoldable pub read_second_factor_requirement :
    Store → AuthzContext → String → SecondFactorRequirement
read_second_factor_requirement store ctx user_id = record {
  policy_requires = policy_requires store ctx;
  enrolled = any (is_confirmed ctx.org_id user_id) store.enrolments;
}

pub record NewChallenge : Type 0 where
  pub user_id : String
  pub token_digest : String
  pub expires_at : ℕ

abbrev pub challenge_of : String → ℕ → String → NewChallenge → Challenge
challenge_of org started fresh_id input = record {
  id = fresh_id;
  org_id = org;
  user_id = input.user_id;
  token_hash = input.token_digest;
  created_at = started;
  expires_at = input.expires_at;
  consumed_at = none;
}

-- The primary key, `unique (token_hash)` and `two_factor_challenges_expiry_after_creation`.
unfoldable pub violates : Challenge → List Challenge → Bool
violates row rows =
    any (λ c. str_eq c.id row.id || str_eq c.token_hash row.token_hash) rows
    || not (ltb row.created_at row.expires_at)

-- A thrown error, or the row and the store.
pub data Challenged : Type 0 where
  not_challenged : Challenged
  challenged : Challenge → Store → Challenged

-- `startChallenge`
unfoldable pub start_challenge : Store → AuthzContext → ℕ → String → NewChallenge → Challenged
start_challenge store ctx now fresh_id input =
    let row = challenge_of ctx.org_id now fresh_id input in
    if not (is_member ctx.org_id input.user_id store.memberships) || violates row store.challenges
    then not_challenged
    else challenged row (record store { challenges = row ∷ store.challenges })

-- The view `live_two_factor_challenges`, under a digest in the tenant.
unfoldable pub is_live : String → ℕ → String → Challenge → Bool
is_live org now token_hash c =
    str_eq c.org_id org
    && (str_eq c.token_hash token_hash && (not (is_some c.consumed_at) && ltb now c.expires_at))

-- `liveChallenge`, which is `findLiveChallenge` in a transaction of its own.
unfoldable pub live_challenge :
    (String → String) → Store → AuthzContext → ℕ → String → Option Challenge
live_challenge digest store ctx now token =
    find (is_live ctx.org_id now (digest token)) store.challenges

-- `resolveSubject`: a thrown error as no user acts, null, or the person with the challenge's id.
pub data Resolved : Type 0 where
  not_a_user : Resolved
  unresolved : Resolved
  resolved : String → Option String → Resolved

abbrev pub resolved_self : Option String → Resolved
resolved_self none = not_a_user
resolved_self (some id) = resolved id none

abbrev pub resolved_challenge : Option Challenge → Resolved
resolved_challenge none = unresolved
resolved_challenge (some c) = resolved c.user_id (some c.id)

unfoldable pub resolve_subject :
    (String → String) → Store → AuthzContext → ℕ → FactorSubject → Resolved
resolve_subject digest store ctx now self = resolved_self (acting_id ctx.actor)
resolve_subject digest store ctx now (challenge token) =
    resolved_challenge (live_challenge digest store ctx now token)

-- `ENROLMENT_REFUSALS`
pub data EnrolmentRefusal : Type 0 where
  no_live_challenge already_enrolled no_pending_enrolment not_a_member : EnrolmentRefusal

-- The thrown error of `actingUser`, that of `unique (org_id, user_id, code_hash)`, a refusal, or the
-- person with the enrolment's id.
pub data EnrolmentWrite : Type 0 where
  no_acting_user : EnrolmentWrite
  codes_clash : EnrolmentWrite
  not_enrolled : EnrolmentRefusal → EnrolmentWrite
  enrolled : String → String → EnrolmentWrite

pub record NewEnrolment : Type 0 where
  pub secret_sealed : String
  pub parameters : TotpParameters

abbrev pub is_enrolment_of : String → String → Enrolment → Bool
is_enrolment_of org user e = str_eq e.org_id org && str_eq e.user_id user

abbrev pub enrolment_of : String → String → ℕ → String → NewEnrolment → Enrolment
enrolment_of org user now fresh_id input = record {
  id = fresh_id;
  org_id = org;
  user_id = user;
  secret_sealed = input.secret_sealed;
  parameters = input.parameters;
  created_at = now;
  confirmed_at = none;
  last_used_step = none;
}

-- The assignments of `on conflict (org_id, user_id) do update`.
abbrev pub enrolled_again : ℕ → NewEnrolment → Enrolment → Enrolment
enrolled_again now input e = record e {
  secret_sealed = input.secret_sealed;
  parameters = input.parameters;
  created_at = now;
  confirmed_at = none;
  last_used_step = none;
}

-- The insert, or the update of the row that is there; and the id it returns.
abbrev pub put_enrolment :
    String → String → ℕ → String → NewEnrolment → Option Enrolment → List Enrolment → List Enrolment
put_enrolment org user now fresh_id input none rows =
    enrolment_of org user now fresh_id input ∷ rows
put_enrolment org user now fresh_id input (some e) rows =
    update_where (is_enrolment_of org user) (enrolled_again now input) rows

abbrev pub enrolment_id : String → Option Enrolment → String
enrolment_id fresh_id none = fresh_id
enrolment_id fresh_id (some e) = e.id

-- `if (subject.kind === "challenge")`, which is where a challenge was found.
abbrev pub is_blocked : String → String → Option String → List Enrolment → Bool
is_blocked org user none rows = false
is_blocked org user (some challenge_id) rows = any (is_confirmed org user) rows

abbrev pub start_resolved :
    Store → AuthzContext → ℕ → String → NewEnrolment → Resolved → EnrolmentWrite × Store
start_resolved store ctx now fresh_id input not_a_user = (no_acting_user, store)
start_resolved store ctx now fresh_id input unresolved = (not_enrolled no_live_challenge, store)
start_resolved store ctx now fresh_id input (resolved user challenge_id) =
    let there = find (is_enrolment_of ctx.org_id user) store.enrolments in
    if is_blocked ctx.org_id user challenge_id store.enrolments
    then (not_enrolled already_enrolled, store)
    else if not (is_member ctx.org_id user store.memberships)
    then (not_enrolled not_a_member, store)
    else (
      enrolled user (enrolment_id fresh_id there),
      record store {
        enrolments = put_enrolment ctx.org_id user now fresh_id input there store.enrolments;
      },
    )

-- `startEnrolment`
unfoldable pub start_enrolment :
    (String → String)
    → Store
    → AuthzContext
    → ℕ
    → String
    → FactorSubject
    → NewEnrolment
    → EnrolmentWrite × Store
start_enrolment digest store ctx now fresh_id subject input =
    start_resolved store ctx now fresh_id input (resolve_subject digest store ctx now subject)
