-- ===== src/Sessions/Statements.antt =====
-- src/repo/sessions.ts. `now` is `statement_timestamp()`, `started` the start of the transaction,
-- which `created_at` defaults to, `digest` is `sessionTokenDigest`, and `fresh_id` what
-- `gen_random_uuid()` gives. What a caller may do to another person is the answer of `require`, which
-- is an argument.
use ratline.Prelude.{
  ℕ, Bool, true, false, not, ◌&&◌, ◌||◌, String, List, ◌∷◌, Option, none, some, is_some, any, find,
  length, if◌then◌else◌, str_eq, ltb,
}
use ratline.Authz.Can.{
  Actor, AuthzContext, Required, permitted, not_permitted, stale_authentication,
}
use ratline.Sessions.Table.{
  SessionEndReason, Session, Account, Store, is_member, is_live, has_hash, update_where,
  updated_rows, first_row,
}

abbrev pub is_user : Actor → String → Bool
is_user (Actor.user id) user_id = str_eq id user_id
is_user (Actor.service_identity id name) user_id = false
is_user (Actor.api_token id by) user_id = false

-- `isSelf`
unfoldable pub is_self : AuthzContext → String → Bool
is_self ctx user_id = is_user ctx.actor user_id

-- `isSelf(…)`, or else what `require` answers.
abbrev pub allows : Required → Bool
allows (permitted decision) = true
allows (not_permitted decision) = false
allows (stale_authentication action freshness) = false

pub record PasswordCredential : Type 0 where
  pub user_id : String
  pub email : String
  pub stored_hash : Option String
  pub disabled : Bool

abbrev pub credential_of : Account → PasswordCredential
credential_of a = record {
  user_id = a.id;
  email = a.email;
  stored_hash = a.password_hash;
  disabled = is_some a.disabled_at;
}

abbrev pub credential_of_row : Option Account → Option PasswordCredential
credential_of_row none = none
credential_of_row (some a) = some (credential_of a)

-- `findPasswordCredential`; `same_email` compares as `citext` does.
unfoldable pub find_password_credential :
    (String → String → Bool) → Store → AuthzContext → String → Option PasswordCredential
find_password_credential same_email store ctx email = credential_of_row (
    find (λ a. same_email a.email email && is_member ctx.org_id a.id store.memberships)
      store.accounts)

pub record NewSession : Type 0 where
  pub user_id : String
  pub token_digest : String
  pub expires_at : ℕ
  pub rotated_from : Option String
  pub user_agent : String
  pub ip : Option String

-- The row that the insert makes.
abbrev pub session_of : String → ℕ → String → NewSession → Session
session_of org started fresh_id input = record {
  id = fresh_id;
  org_id = org;
  user_id = input.user_id;
  token_hash = input.token_digest;
  created_at = started;
  expires_at = input.expires_at;
  last_seen_at = none;
  revoked_at = none;
  revoked_reason = none;
  rotated_from = input.rotated_from;
  user_agent = input.user_agent;
  ip = input.ip;
}

-- Nothing was written, as the account is no member, or a constraint of the table refused the row.
pub data Written : Type 0 where
  not_a_member : Written
  constraint_violated : Written
  written : Session → Store → Written

-- The primary key, `unique (token_hash)` and `sessions_expiry_after_creation`.
unfoldable pub violates : Session → List Session → Bool
violates row rows =
    any (λ s. str_eq s.id row.id || str_eq s.token_hash row.token_hash) rows
    || not (ltb row.created_at row.expires_at)

-- `writeSession`
unfoldable pub write_session : Store → String → ℕ → String → NewSession → Written
write_session store org started fresh_id input =
    let row = session_of org started fresh_id input in
    if not (is_member org input.user_id store.memberships)
    then not_a_member
    else if violates row store.sessions
    then constraint_violated
    else written row (record store { sessions = row ∷ store.sessions })

-- `startSession`
abbrev pub start_session : Store → AuthzContext → ℕ → String → NewSession → Written
start_session store ctx now fresh_id input = write_session store ctx.org_id now fresh_id input

abbrev pub seen : ℕ → Session → Session
seen now s = record s { last_seen_at = some now }

-- The rows that the update of `useSessionToken` touches: those with the id of the live session.
abbrev pub is_row_of : String → Option Session → Session → Bool
is_row_of org none s = false
is_row_of org (some live) s = str_eq s.org_id org && str_eq s.id live.id

-- `useSessionToken`
unfoldable pub use_session_token :
    (String → String) → Store → AuthzContext → ℕ → String → Option Session × Store
use_session_token digest store ctx now token =
    let live = find (λ s. has_hash ctx.org_id (digest token) s && is_live now s) store.sessions in
    (
      first_row (updated_rows (is_row_of ctx.org_id live) (seen now) store.sessions),
      record store {
        sessions = update_where (is_row_of ctx.org_id live) (seen now) store.sessions;
      },
    )

-- `set revoked_at = statement_timestamp(), revoked_reason = $1`
abbrev pub ended_by : ℕ → SessionEndReason → Session → Session
ended_by now reason s = record s { revoked_at = some now; revoked_reason = some reason }

-- `END_SESSION` with a further condition on the row.
abbrev pub to_end : String → ℕ → (Session → Bool) → Session → Bool
to_end org now p s = str_eq s.org_id org && is_live now s && p s

-- `END_SESSION … returning`: the rows, and the table.
unfoldable pub end_sessions :
    String → ℕ → SessionEndReason → (Session → Bool) → Store → List Session × Store
end_sessions org now reason p store = (
  updated_rows (to_end org now p) (ended_by now reason) store.sessions,
  record store { sessions = update_where (to_end org now p) (ended_by now reason) store.sessions },
)

-- `revokeSessionByToken`
unfoldable pub revoke_session_by_token :
    (String → String)
    → Store
    → AuthzContext
    → ℕ
    → String
    → SessionEndReason
    → Option Session × Store
revoke_session_by_token digest store ctx now token reason =
    let (rows, after) =
      end_sessions ctx.org_id now reason (λ s. str_eq s.token_hash (digest token)) store in
    (first_row rows, after)

pub record SessionReplacement : Type 0 where
  pub presented_token : String
  pub reason : SessionEndReason
  pub token_digest : String
  pub expires_at : ℕ
  pub user_agent : String
  pub ip : Option String

-- No live session to replace, a thrown error that undoes the transaction, or both sessions.
pub data Replaced : Type 0 where
  nothing_to_replace : Replaced
  replacement_failed : Replaced
  replaced : Session → Session → Store → Replaced

abbrev pub replaced_by : Session → Written → Replaced
replaced_by ended not_a_member = replacement_failed
replaced_by ended constraint_violated = replacement_failed
replaced_by ended (written row store) = replaced ended row store

abbrev pub successor_of : Session → SessionReplacement → NewSession
successor_of ended input = record {
  user_id = ended.user_id;
  token_digest = input.token_digest;
  expires_at = input.expires_at;
  rotated_from = some ended.id;
  user_agent = input.user_agent;
  ip = input.ip;
}

abbrev pub replace_first :
    String → ℕ → String → SessionReplacement → Option Session → Store → Replaced
replace_first org started fresh_id input none store = nothing_to_replace
replace_first org started fresh_id input (some ended) store =
    replaced_by ended (write_session store org started fresh_id (successor_of ended input))

-- `replaceSession`: one transaction.
unfoldable pub replace_session :
    (String → String) → Store → AuthzContext → ℕ → ℕ → String → SessionReplacement → Replaced
replace_session digest store ctx started now fresh_id input =
    let (rows, after) =
      end_sessions ctx.org_id now input.reason
        (λ s. str_eq s.token_hash (digest input.presented_token)) store in
    replace_first ctx.org_id started fresh_id input (first_row rows) after

abbrev pub user_of : Option Session → Option String
user_of none = none
user_of (some s) = some s.user_id

-- `holderOf`
unfoldable pub holder_of : Store → AuthzContext → String → Option String
holder_of store ctx session_id =
    user_of (find (λ s. str_eq s.org_id ctx.org_id && str_eq s.id session_id) store.sessions)

-- The answer of `require` that was thrown, or what the function returns.
pub data Permitted {ℓ} (A : Type ℓ) : Type ℓ where
  refused : Required → Permitted A
  done : A → Permitted A

abbrev pub revoke_held :
    Required
    → Store
    → AuthzContext
    → ℕ
    → String
    → SessionEndReason
    → Option String
    → Permitted (Bool × Store)
revoke_held required store ctx now session_id reason none = done (false, store)
revoke_held required store ctx now session_id reason (some holder) =
    let (rows, after) = end_sessions ctx.org_id now reason (λ s. str_eq s.id session_id) store in
    if is_self ctx holder || allows required
    then done (is_some (first_row rows), after)
    else refused required

-- `revokeSessionById`, where `required` is the answer for `member.revoke_sessions`.
unfoldable pub revoke_session_by_id :
    Required → Store → AuthzContext → ℕ → String → SessionEndReason → Permitted (Bool × Store)
revoke_session_by_id required store ctx now session_id reason =
    revoke_held required store ctx now session_id reason (holder_of store ctx session_id)

-- `revokeSessionsOfUser`, with the same answer.
unfoldable pub revoke_sessions_of_user :
    Required → Store → AuthzContext → ℕ → String → SessionEndReason → Permitted (ℕ × Store)
revoke_sessions_of_user required store ctx now user_id reason =
    let (rows, after) = end_sessions ctx.org_id now reason (λ s. str_eq s.user_id user_id) store in
    if is_self ctx user_id || allows required then done (length rows, after) else refused required

abbrev pub with_hash : String → Account → Account
with_hash stored_hash a = record a { password_hash = some stored_hash }

-- `updatePasswordHash`, where `required` is the answer for `member.reset_password`.
unfoldable pub update_password_hash :
    Required → Store → AuthzContext → String → String → Permitted (Bool × Store)
update_password_hash required store ctx user_id stored_hash =
    let reaches : Account → Bool =
      λ a. str_eq a.id user_id && is_member ctx.org_id a.id store.memberships in
    if is_self ctx user_id || allows required
    then done (
      any reaches store.accounts,
      record store { accounts = update_where reaches (with_hash stored_hash) store.accounts },
    )
    else refused required
