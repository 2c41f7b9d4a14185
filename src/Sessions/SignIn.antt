-- ===== src/Sessions/SignIn.antt =====
-- `signIn` of src/auth/sessions.ts, with `demandFor` and `issueChallenge` of src/auth/two_factor.ts,
-- which it calls. All statements of one call see one instant; `date_now` is the clock of the process.
-- scrypt, `citext` and SHA-256 are parameters, and the random identifiers arguments; every stored hash
-- is one that `parseStoredHash` reads.
pub mod Laws
pub mod Outcome
use ratline.Prelude.{
  ℕ, ◌+◌, ◌*◌, Bool, true, false, not, ◌&&◌, ◌||◌, String, List, [], ◌∷◌, Option, none, some,
  is_some, if◌then◌else◌, str_eq,
}
use ratline.Authz.Can.{AuthzContext}
use ratline.Sessions.Table.{SessionEndReason, Session, Challenge, Store}
use ratline.Sessions.Statements.{
  PasswordCredential, find_password_credential, NewSession, Written, not_a_member,
  constraint_violated, written, start_session, revoke_session_by_token,
}
use ratline.TwoFactor.Statements.{
  SecondFactorRequirement, read_second_factor_requirement, NewChallenge, Challenged, not_challenged,
  challenged, start_challenge,
}

-- `SECOND_FACTOR_DEMANDS`
pub data SecondFactorDemand : Type 0 where
  no_demand verify enrol : SecondFactorDemand

-- `secondFactorDemand`
unfoldable pub second_factor_demand : SecondFactorRequirement → SecondFactorDemand
second_factor_demand requirement =
    if requirement.enrolled
    then verify
    else if requirement.policy_requires
    then enrol
    else no_demand

-- `demandFor`
abbrev pub demand_for : Store → AuthzContext → String → SecondFactorDemand
demand_for store ctx user = second_factor_demand (read_second_factor_requirement store ctx user)

-- `CHALLENGE_LIFETIME_MS`
abbrev pub challenge_lifetime_ms : ℕ
challenge_lifetime_ms = 5 * 60 * 1000

-- `DEFAULT_SESSION_LIFETIME_MS`
abbrev pub default_session_lifetime_ms : ℕ
default_session_lifetime_ms = 8 * 60 * 60 * 1000

-- `SIGN_IN_REFUSALS`
pub data SignInRefusal : Type 0 where
  unknown_account credential_rejected account_disabled no_password_set : SignInRefusal

pub record SecondFactorChallenge : Type 0 where
  pub token : String
  pub expires_at : ℕ
  pub enrolment_required : Bool

pub record IssuedSession : Type 0 where
  pub session : Session
  pub token : String

-- A refusal, a second factor that is owed, a thrown error, or a session and whether its password's
-- hash is due for another.
pub data SignInResult : Type 0 where
  sign_in_refused : SignInRefusal → SignInResult
  second_factor_owed : SecondFactorChallenge → SignInResult
  sign_in_failed : SignInResult
  signed_in : IssuedSession → Bool → SignInResult

-- What the client sends; `lifetimeMs` is the caller's.
pub record SignInInput : Type 0 where
  pub email : String
  pub password : String
  pub presented_token : Option String
  pub user_agent : Option String
  pub ip : Option String
  pub lifetime_ms : Option ℕ

-- What the platform's generator gives to one call.
pub record Minted : Type 0 where
  pub token : String
  pub row_id : String

abbrev pub or_else {ℓ} : {A : Type ℓ} → A → Option A → A
or_else x none = x
or_else x (some y) = y

-- `expiryFrom`
abbrev pub expiry_from : ℕ → Option ℕ → ℕ
expiry_from date_now lifetime_ms = date_now + or_else default_session_lifetime_ms lifetime_ms

abbrev pub issued_challenge : Bool → String → Store → Challenged → SignInResult × Store
issued_challenge enrolment_required token store not_challenged = (sign_in_failed, store)
issued_challenge enrolment_required token store (challenged row after) = (
  second_factor_owed (record {
    token = token;
    expires_at = row.expires_at;
    enrolment_required = enrolment_required;
  }),
  after,
)

-- `rotatedFrom`: the retired session, when it was the same person's.
abbrev pub chained_to : String → Option Session → Option String
chained_to user none = none
chained_to user (some ended) = if str_eq ended.user_id user then some ended.id else none

abbrev pub issued : String → Bool → Store → Written → SignInResult × Store
issued token must_rehash store not_a_member = (sign_in_failed, store)
issued token must_rehash store constraint_violated = (sign_in_failed, store)
issued token must_rehash store (written row after) =
    (signed_in (record { session = row; token = token }) must_rehash, after)

module _ (same_email : String → String → Bool) (verify_password : Option String → String → Bool)
    (needs_rehash : String → Bool) (digest : String → String) where
  -- `issueChallenge`
  abbrev pub issue_challenge :
      Store → AuthzContext → ℕ → ℕ → Minted → String → Bool → SignInResult × Store
  issue_challenge store ctx now date_now minted user enrolment_required =
      issued_challenge enrolment_required minted.token store (
        start_challenge store ctx now minted.row_id (record {
          user_id = user;
          token_digest = digest minted.token;
          expires_at = date_now + challenge_lifetime_ms;
        }))

  -- Step 6.
  abbrev pub issue_session :
      Store
      → AuthzContext
      → ℕ
      → ℕ
      → Minted
      → SignInInput
      → String
      → String
      → Option Session
      → SignInResult × Store
  issue_session store ctx now date_now minted input user stored ended =
      issued minted.token (needs_rehash stored) store (
        start_session store ctx now minted.row_id (record {
          user_id = user;
          token_digest = digest minted.token;
          expires_at = expiry_from date_now input.lifetime_ms;
          rotated_from = chained_to user ended;
          user_agent = or_else "" input.user_agent;
          ip = input.ip;
        }))

  -- Step 5.
  abbrev pub by_demand :
      Store
      → AuthzContext
      → ℕ
      → ℕ
      → Minted
      → SignInInput
      → String
      → String
      → Option Session
      → SecondFactorDemand
      → SignInResult × Store
  by_demand store ctx now date_now minted input user stored ended no_demand =
      issue_session store ctx now date_now minted input user stored ended
  by_demand store ctx now date_now minted input user stored ended verify =
      issue_challenge store ctx now date_now minted user false
  by_demand store ctx now date_now minted input user stored ended enrol =
      issue_challenge store ctx now date_now minted user true

  -- Step 4: whatever the client presented ends here.
  unfoldable pub retire_presented : Store → AuthzContext → ℕ → String → Option Session × Store
  retire_presented store ctx now presented =
      if str_eq presented ""
      then (none, store)
      else revoke_session_by_token digest store ctx now presented SessionEndReason.rotated

  abbrev pub with_stored :
      Store
      → AuthzContext
      → ℕ
      → ℕ
      → Minted
      → SignInInput
      → PasswordCredential
      → Option String
      → SignInResult × Store
  with_stored store ctx now date_now minted input credential none =
      (sign_in_refused no_password_set, store)
  with_stored store ctx now date_now minted input credential (some stored) =
      let (ended, after) = retire_presented store ctx now (or_else "" input.presented_token) in
      if not (verify_password (some stored) input.password)
      then (sign_in_refused credential_rejected, store)
      else by_demand after ctx now date_now minted input credential.user_id stored ended
          (demand_for after ctx credential.user_id)

  abbrev pub with_credential :
      Store
      → AuthzContext
      → ℕ
      → ℕ
      → Minted
      → SignInInput
      → Option PasswordCredential
      → SignInResult × Store
  with_credential store ctx now date_now minted input none =
      (sign_in_refused unknown_account, store)
  with_credential store ctx now date_now minted input (some credential) =
      if credential.disabled
      then (sign_in_refused account_disabled, store)
      else with_stored store ctx now date_now minted input credential credential.stored_hash

  -- `signIn`
  unfoldable pub sign_in :
      Store → AuthzContext → ℕ → ℕ → Minted → SignInInput → SignInResult × Store
  sign_in store ctx now date_now minted input =
      with_credential store ctx now date_now minted input
        (find_password_credential same_email store ctx input.email)
