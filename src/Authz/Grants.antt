-- ===== src/Authz/Grants.antt =====
-- `live_grants`, `effective_grants` and `grant_decision` of
-- src/db/migrations/20260801000005_grants_denies_expiry.sql, `scope_ancestry` of
-- src/db/migrations/20260801000003_hierarchy.sql, and `isAllowed` of src/authz/grants.ts. Each takes the
-- tenant's view of the database.
pub mod Laws
use ratline.Prelude.{
  ℕ, Bool, true, false, ◌&&◌, ◌||◌, String, List, [], ◌∷◌, ◌++◌, map, Option, none, some, filter,
  any, str_eq, ltb,
}
use ratline.Database.{
  SubjectType, user, service_identity, api_token, Effect, ScopeType, organization, resource, Grant,
  ScopeNode, Db,
}

pub data Decision : Type 0 where
  allow deny : Decision

unfoldable pub is_allowed : Decision → Bool
is_allowed Decision.allow = true
is_allowed Decision.deny = false

pub record ScopeRef : Type 0 where
  pub scope_node_id : String
  pub resource_id : Option String

abbrev pub same_subject : SubjectType → SubjectType → Bool
same_subject user user = true
same_subject service_identity service_identity = true
same_subject api_token api_token = true
same_subject _ _ = false

abbrev pub is_effect : Effect → Effect → Bool
is_effect Effect.allow Effect.allow = true
is_effect Effect.deny Effect.deny = true
is_effect _ _ = false

-- SQL equality with a column that may be null: null is never equal.
abbrev pub is_id : Option String → String → Bool
is_id none id = false
is_id (some j) id = str_eq j id

-- A grant that has not expired.
abbrev pub is_live : ℕ → Option ℕ → Bool
is_live now none = true
is_live now (some expires_at) = ltb now expires_at

-- `ancestor.path @> descendant.path`
unfoldable pub is_prefix : List String → List String → Bool
is_prefix [] ys = true
is_prefix (x ∷ xs) [] = false
is_prefix (x ∷ xs) (y ∷ ys) = str_eq x y && is_prefix xs ys

-- Whether `scope_ancestry` has a row for the two nodes.
unfoldable pub has_ancestor : Db → String → Option String → Bool
has_ancestor d node ancestor =
    any
      (λ low.
        str_eq low.id node
        && any
            (λ high.
              is_id ancestor high.id
              && is_prefix high.path low.path
              && str_eq high.org_id low.org_id)
            d.scope_nodes)
      d.scope_nodes

-- The `case` of `live_grants`, at one root of the organization.
abbrev pub scope_node_of : Grant → ScopeNode → Option String
scope_node_of g root = elim g.scope_type [
  | organization ↦ some root.id
  | resource ↦ none
  | _ ↦ g.scope_id
]

-- The resource that the question is about, when it is about one.
abbrev pub is_resource : ScopeType → Option String → Option String → Bool
is_resource resource scope_id (some r) = is_id scope_id r
is_resource _ scope_id _ = false

-- Whether `effective_grants` keeps a grant, joined with a root of its organization.
unfoldable pub reaches : Db → SubjectType → String → ScopeRef → Grant → ScopeNode → Bool
reaches d type id scope g root =
    root.is_root
    && str_eq root.org_id g.org_id
    && is_live d.now g.expires_at
    && same_subject g.subject_type type
    && str_eq g.subject_id id
    && (has_ancestor d scope.scope_node_id (scope_node_of g root)
        || is_resource g.scope_type g.scope_id scope.resource_id)

-- Whether `effective_grants` has a row with an effect and one of the roles.
unfoldable pub exists_effective : Db → SubjectType → String → List String → ScopeRef → Effect → Bool
exists_effective d type id roles scope effect =
    any
      (λ g.
        any (reaches d type id scope g) d.scope_nodes
        && (is_effect g.effect effect && any (str_eq g.role_key) roles))
      d.grants

unfoldable pub grant_decision : Db → SubjectType → String → List String → ScopeRef → Decision
grant_decision d type id roles scope = elim (exists_effective d type id roles scope Effect.deny) [
  | true ↦ Decision.deny
  | false ↦ elim (exists_effective d type id roles scope Effect.allow) [
    | true ↦ Decision.allow
    | false ↦ Decision.deny
  ]
]
