-- ===== src/Sessions/Ending.antt =====
-- Rotation, sign-out, revocation and the changes of a password of src/auth/sessions.ts. What `require`
-- answers for each action is an argument, and `stored` is what `hashPassword` made.
pub mod Laws
use ratline.Prelude.{
  ℕ, ◌+◌, Bool, true, false, not, ◌&&◌, ◌||◌, String, List, [], ◌∷◌, Option, none, some, is_some,
  if◌then◌else◌, str_eq,
}
use ratline.Authz.Grants.{Decision}
use ratline.Authz.Can.{
  Actor, AuthzContext, Required, permitted, not_permitted, stale_authentication,
}
use ratline.Sessions.Table.{
  SessionEndReason, Session, Store, AuditReason, because, decided, record_audit,
}
use ratline.Sessions.Statements.{
  is_self, Permitted, refused, done, SessionReplacement, Replaced, nothing_to_replace,
  replacement_failed, replaced, replace_session, revoke_session_by_token, revoke_session_by_id,
  revoke_sessions_of_user, update_password_hash,
}
use ratline.Sessions.SignIn.{IssuedSession, Minted, or_else, expiry_from}

-- A thrown error, null, or the new session.
pub data RotationResult : Type 0 where
  rotation_failed : RotationResult
  nothing_rotated : RotationResult
  rotated_to : IssuedSession → RotationResult

pub record RotationInput : Type 0 where
  pub user_agent : Option String
  pub ip : Option String
  pub lifetime_ms : Option ℕ

abbrev pub rotation_of : String → Store → Replaced → RotationResult × Store
rotation_of token store nothing_to_replace = (nothing_rotated, store)
rotation_of token store replacement_failed = (rotation_failed, store)
rotation_of token store (replaced ended started after) =
    (rotated_to (record { session = started; token = token }), after)

-- `rotateSession`
unfoldable pub rotate_session :
    (String → String)
    → Store
    → AuthzContext
    → ℕ
    → ℕ
    → Minted
    → String
    → SessionEndReason
    → RotationInput
    → RotationResult × Store
rotate_session digest store ctx now date_now minted token reason input =
    rotation_of minted.token store (
      replace_session digest store ctx now now minted.row_id (record {
        presented_token = token;
        reason = reason;
        token_digest = digest minted.token;
        expires_at = expiry_from date_now input.lifetime_ms;
        user_agent = or_else "" input.user_agent;
        ip = input.ip;
      }))

-- `signOut`
unfoldable pub sign_out : (String → String) → Store → AuthzContext → ℕ → String → Bool × Store
sign_out digest store ctx now token =
    let (ended, after) =
      revoke_session_by_token digest store ctx now token SessionEndReason.signed_out in
    (is_some ended, after)

-- `revokeSession`
abbrev pub revoke_session : Required → Store → AuthzContext → ℕ → String → Permitted (Bool × Store)
revoke_session required store ctx now session_id =
    revoke_session_by_id required store ctx now session_id SessionEndReason.revoked

-- `revokeAllSessions`
abbrev pub revoke_all_sessions :
    Required → Store → AuthzContext → ℕ → String → Permitted (ℕ × Store)
revoke_all_sessions required store ctx now user =
    revoke_sessions_of_user required store ctx now user SessionEndReason.revoked

-- How `resetMemberPassword` and `setOwnPassword` end: with a thrown error, or the number of sessions
-- that they ended.
pub data PasswordResult : Type 0 where
  use_set_own_password : PasswordResult
  only_a_user : PasswordResult
  password_not_written : PasswordResult
  not_permitted_to_reset : PasswordResult
  reset_needs_authentication : PasswordResult
  password_written : ℕ → PasswordResult

abbrev pub audit_reset : AuthzContext → String → Decision → AuditReason → Store → Store
audit_reset ctx user decision reason store =
    record_audit ctx "member.reset_password" "member" user decision reason store

-- The `catch` of `resetMemberPassword`.
abbrev pub reset_refused : AuthzContext → String → Store → Required → PasswordResult × Store
reset_refused ctx user store (permitted decision) = (not_permitted_to_reset, store)
reset_refused ctx user store (not_permitted decision) =
    (not_permitted_to_reset, audit_reset ctx user Decision.deny (decided decision.reason) store)
reset_refused ctx user store (stale_authentication action freshness) =
    (reset_needs_authentication, store)

abbrev pub reset_revoked :
    AuthzContext → String → Store → Permitted (ℕ × Store) → PasswordResult × Store
reset_revoked ctx user store (refused required) = reset_refused ctx user store required
reset_revoked ctx user store (done (ended, after)) = (
  password_written ended,
  audit_reset ctx user Decision.allow (because "administrative-reset") after,
)

abbrev pub reset_written :
    Required → AuthzContext → ℕ → String → Store → Permitted (Bool × Store) → PasswordResult × Store
reset_written may_revoke ctx now user store (refused required) =
    reset_refused ctx user store required
reset_written may_revoke ctx now user store (done (false, after)) = (password_not_written, after)
reset_written may_revoke ctx now user store (done (true, after)) =
    reset_revoked ctx user after
      (revoke_sessions_of_user may_revoke after ctx now user SessionEndReason.revoked)

-- `resetMemberPassword`, with the answers for `member.reset_password` and `member.revoke_sessions`.
unfoldable pub reset_member_password :
    Required → Required → Store → AuthzContext → ℕ → String → String → PasswordResult × Store
reset_member_password may_reset may_revoke store ctx now user stored =
    if is_self ctx user
    then (use_set_own_password, store)
    else reset_written may_revoke ctx now user store
        (update_password_hash may_reset store ctx user stored)

-- No answer of `require` is asked for where the account is the actor's own.
abbrev pub own_written : ℕ → Store → Permitted (Bool × Store) → PasswordResult × Store
own_written ended store (refused required) = (not_permitted_to_reset, store)
own_written ended store (done (false, after)) = (password_not_written, after)
own_written ended store (done (true, after)) = (password_written ended, after)

abbrev pub own_revoked :
    Required
    → AuthzContext
    → String
    → String
    → Store
    → Permitted (ℕ × Store)
    → PasswordResult × Store
own_revoked unasked ctx user stored store (refused required) = (not_permitted_to_reset, store)
own_revoked unasked ctx user stored store (done (ended, after)) =
    own_written ended after (update_password_hash unasked after ctx user stored)

abbrev pub own_password_of :
    Required → Store → AuthzContext → ℕ → Actor → String → PasswordResult × Store
own_password_of unasked store ctx now (Actor.user id) stored =
    own_revoked unasked ctx id stored store
      (revoke_sessions_of_user unasked store ctx now id SessionEndReason.password_changed)
own_password_of unasked store ctx now (Actor.service_identity id name) stored = (only_a_user, store)
own_password_of unasked store ctx now (Actor.api_token id by) stored = (only_a_user, store)

-- `setOwnPassword`
unfoldable pub set_own_password :
    Required → Store → AuthzContext → ℕ → String → PasswordResult × Store
set_own_password unasked store ctx now stored =
    own_password_of unasked store ctx now ctx.actor stored
