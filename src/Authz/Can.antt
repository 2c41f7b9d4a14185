-- ===== src/Authz/Can.antt =====
-- src/authz/can.ts, with src/repo/authorization.ts and `checkFreshness` of src/repo/reauthentication.ts:
-- `can` returns its decision, and `require` returns it or an error in place of throwing.
pub mod Laws
pub mod Consequences
pub mod Requiring
pub mod Tenant
use ratline.Prelude.{
  is_empty, ℕ, ◌+◌, ◌*◌, Bool, true, false, not, ◌&&◌, String, List, [], ◌∷◌, Option, none, some,
  is_some, if◌then◌else◌, find, filter, any, str_eq, ltb,
}
use ratline.Database.{
  SubjectType, Effect, Db, User, ServiceIdentity, ApiToken, SessionRow, SecurityPolicy, tenant_view,
}
use ratline.Authz.Catalogue.{is_action}
use ratline.Authz.Grants.{Decision, ScopeRef, is_allowed, exists_effective, grant_decision}

pub data Actor : Type 0 where
  user : String → Actor
  service_identity : String → String → Actor
  api_token : String → String → Actor

pub record AuthzContext : Type 0 where
  pub org_id : String
  pub actor : Actor
  pub session_id : Option String

pub data DecisionReason : Type 0 where
  granted no_grant explicit_deny unknown_action unknown_scope actor_disabled : DecisionReason
  actor_not_in_tenant no_role_carries_action exceeds_issuer issuer_disabled : DecisionReason
  issuer_not_in_tenant : DecisionReason

pub record AuthorizationDecision : Type 0 where
  pub allowed : Bool
  pub reason : DecisionReason
  pub action : String
  pub scope_node_id : String
  pub resource_id : Option String

abbrev pub is_granted : DecisionReason → Bool
is_granted granted = true
is_granted _ = false

abbrev pub decide : DecisionReason → String → ScopeRef → AuthorizationDecision
decide reason action scope = record {
  allowed = is_granted reason;
  reason = reason;
  action = action;
  scope_node_id = scope.scope_node_id;
  resource_id = scope.resource_id;
}

abbrev pub subject_of : Actor → SubjectType × String
subject_of (Actor.user id) = (SubjectType.user, id)
subject_of (Actor.service_identity id name) = (SubjectType.service_identity, id)
subject_of (Actor.api_token id by) = (SubjectType.api_token, id)

pub record ActorStatus : Type 0 where
  pub exists : Bool
  pub disabled : Bool

abbrev pub disabled_user : Db → String → Option (Option ℕ)
disabled_user d id =
    elim (find (λ u. str_eq u.id id && any (λ m. str_eq m.user_id id) d.memberships) d.users) [
      | none ↦ none
      | some u ↦ some u.disabled_at
    ]

abbrev pub disabled_service : Db → String → Option (Option ℕ)
disabled_service d id = elim (find (λ s. str_eq s.id id) d.service_identities) [
  | none ↦ none
  | some s ↦ some s.disabled_at
]

-- `{ exists: row !== undefined, disabled: row?.disabled_at != null }`
abbrev pub status_of_row : Option (Option ℕ) → ActorStatus
status_of_row none = record { exists = false; disabled = false }
status_of_row (some at) = record { exists = true; disabled = is_some at }

abbrev pub is_live_token : ℕ → ApiToken → Bool
is_live_token now t = not (is_some t.revoked_at) && ltb now t.expires_at

-- At the tenant's view of the database.
unfoldable pub find_actor_status : Db → SubjectType → String → ActorStatus
find_actor_status d SubjectType.user id = status_of_row (disabled_user d id)
find_actor_status d SubjectType.service_identity id = status_of_row (disabled_service d id)
find_actor_status d SubjectType.api_token id = record {
  exists = any (λ t. str_eq t.id id) d.api_tokens;
  disabled = not (any (λ t. str_eq t.id id && is_live_token d.now t) d.api_tokens);
}

unfoldable pub scope_node_exists : Db → String → Bool
scope_node_exists d id = any (λ n. str_eq n.id id) d.scope_nodes

-- `null` when the issuer clears the ceiling, or the reason why not.
unfoldable pub ceiling_breach : Db → String → List String → ScopeRef → Option DecisionReason
ceiling_breach d issued_by roles scope =
    let issuer = find_actor_status d SubjectType.user issued_by in
    if not issuer.exists
    then some issuer_not_in_tenant
    else if issuer.disabled
    then some issuer_disabled
    else if is_allowed (grant_decision d SubjectType.user issued_by roles scope)
    then none
    else some exceeds_issuer

-- Step 6, where the actor's own grants allow.
unfoldable pub within_issuer : Db → Actor → List String → ScopeRef → DecisionReason
within_issuer d (Actor.api_token id by) roles scope = elim (ceiling_breach d by roles scope) [
  | none ↦ granted
  | some breach ↦ breach
]
within_issuer d (Actor.user id) roles scope = granted
within_issuer d (Actor.service_identity id name) roles scope = granted

-- Steps 3 to 6, where some role carries the action.
unfoldable pub reason_with_roles : Db → Actor → List String → ScopeRef → DecisionReason
reason_with_roles d actor roles scope =
    let (type, id) = subject_of actor in
    let status = find_actor_status d type id in
    if not status.exists
    then actor_not_in_tenant
    else if status.disabled
    then actor_disabled
    else if not (scope_node_exists d scope.scope_node_id)
    then unknown_scope
    else if is_allowed (grant_decision d type id roles scope)
    then within_issuer d actor roles scope
    else if exists_effective d type id roles scope Effect.allow
    then explicit_deny
    else no_grant

unfoldable pub can :
    Db → AuthzContext → String → ScopeRef → (String → List String) → AuthorizationDecision
can d ctx action scope resolve_roles =
    let roles = resolve_roles action in
    let reason = reason_with_roles (tenant_view ctx.org_id d) ctx.actor roles scope in
    if not (is_action action)
    then decide unknown_action action scope
    else if is_empty roles
    then decide no_role_carries_action action scope
    else decide reason action scope

-- `checkFreshness`: a policy may ask for a recent password.
pub data Freshness : Type 0 where
  not_required recent stale no_session : Freshness

abbrev pub is_fresh : Freshness → Bool
is_fresh not_required = true
is_fresh recent = true
is_fresh stale = false
is_fresh no_session = false

-- `readReauthPolicy`; no row is `REAUTH_OFF`. The query names no organization: the tenant's view
-- holds the rows of one.
abbrev pub reauth_policy : Db → List String × ℕ
reauth_policy d = elim d.security_policies [
  | [] ↦ ([], 900)
  | p ∷ ps ↦ (p.reauth_actions, p.reauth_window_seconds)
]

-- A row of `live_sessions`.
abbrev pub is_live_session : ℕ → SessionRow → Bool
is_live_session now s = not (is_some s.revoked_at) && ltb now s.expires_at

-- `authenticated_at > now - window`
abbrev pub is_recent : ℕ → ℕ → SessionRow → Bool
is_recent now window s = ltb now (s.authenticated_at + 1000 * window)

abbrev pub freshness_of : ℕ → ℕ → Option SessionRow → Freshness
freshness_of now window none = stale
freshness_of now window (some s) = if is_recent now window s then recent else stale

unfoldable pub check_freshness : Db → AuthzContext → String → Freshness
check_freshness d ctx action =
    let view = tenant_view ctx.org_id d in
    let (actions, window) = reauth_policy view in
    if not (any (str_eq action) actions) then not_required else elim ctx.session_id [
      | none ↦ no_session
      | some id ↦
          freshness_of d.now window
            (find (λ s. str_eq s.id id && is_live_session d.now s) view.sessions)
    ]

pub data Required : Type 0 where
  permitted : AuthorizationDecision → Required
  not_permitted : AuthorizationDecision → Required
  stale_authentication : String → Freshness → Required

unfoldable pub require : Db → AuthzContext → String → ScopeRef → (String → List String) → Required
require d ctx action scope resolve_roles =
    let decision = can d ctx action scope resolve_roles in
    let freshness = check_freshness d ctx action in
    if not decision.allowed
    then not_permitted decision
    else if not (is_fresh freshness)
    then stale_authentication action freshness
    else permitted decision
