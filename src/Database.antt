-- ===== src/Database.antt =====
-- The tables of src/db/migrations that the authorization queries read, and row-level security: in a
-- transaction of a tenant (src/db/internal/handle.ts, `scoped`) a table shows the tenant's rows alone.
-- Identifiers are texts and times are milliseconds. All queries of one decision see one state.
use ratline.Prelude.{ℕ, Bool, String, List, Option, filter, any, str_eq, ◌&&◌}

pub data SubjectType : Type 0 where
  user service_identity api_token : SubjectType

pub data Effect : Type 0 where
  allow deny : Effect

pub data ScopeType : Type 0 where
  organization team project environment resource : ScopeType

pub record Grant : Type 0 where
  pub org_id : String
  pub subject_type : SubjectType
  pub subject_id : String
  pub role_key : String
  pub effect : Effect
  pub scope_type : ScopeType
  pub scope_id : Option String
  pub expires_at : Option ℕ

-- `path` is the ltree from the root of the organization to the node.
pub record ScopeNode : Type 0 where
  pub id : String
  pub org_id : String
  pub is_root : Bool
  pub path : List String

pub record Membership : Type 0 where
  pub org_id : String
  pub user_id : String

pub record User : Type 0 where
  pub id : String
  pub disabled_at : Option ℕ

pub record ServiceIdentity : Type 0 where
  pub id : String
  pub org_id : String
  pub disabled_at : Option ℕ

pub record ApiToken : Type 0 where
  pub id : String
  pub org_id : String
  pub revoked_at : Option ℕ
  pub expires_at : ℕ

pub record SessionRow : Type 0 where
  pub id : String
  pub org_id : String
  pub user_id : String
  pub revoked_at : Option ℕ
  pub expires_at : ℕ
  pub authenticated_at : ℕ

pub record SecurityPolicy : Type 0 where
  pub org_id : String
  pub reauth_actions : List String
  pub reauth_window_seconds : ℕ

-- `now` is `statement_timestamp()`.
pub record Db : Type 0 where
  pub now : ℕ
  pub grants : List Grant
  pub scope_nodes : List ScopeNode
  pub memberships : List Membership
  pub users : List User
  pub service_identities : List ServiceIdentity
  pub api_tokens : List ApiToken
  pub sessions : List SessionRow
  pub security_policies : List SecurityPolicy

-- What a transaction of the tenant sees. Users are seen through a membership of the tenant.
unfoldable pub tenant_view : String → Db → Db
tenant_view org d = record d {
  grants = filter (λ g. str_eq g.org_id org) d.grants;
  scope_nodes = filter (λ n. str_eq n.org_id org) d.scope_nodes;
  memberships = filter (λ m. str_eq m.org_id org) d.memberships;
  users =
      filter (λ u. any (λ m. str_eq m.org_id org && str_eq m.user_id u.id) d.memberships) d.users;
  service_identities = filter (λ s. str_eq s.org_id org) d.service_identities;
  api_tokens = filter (λ t. str_eq t.org_id org) d.api_tokens;
  sessions = filter (λ s. str_eq s.org_id org) d.sessions;
  security_policies = filter (λ p. str_eq p.org_id org) d.security_policies;
}
