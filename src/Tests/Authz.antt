-- ===== src/Tests/Authz.antt =====
-- src/authz at a small organization: one project below the root, a developer, a viewer with a
-- denial at the project, and a token that the developer issued.
use ratline.Prelude.{
  is_empty, ◌≡◌, refl, true, false, String, List, [], ◌∷◌, Option, none, some, Among, here, there,
  ◌≢◌, arith, sym, ◌∙◌, ◌⊎◌, inl, inr, eq_iff, str_eq,
}
use ratline.Database.{SubjectType, Effect, ScopeType, Grant, ScopeNode, SessionRow, Db, tenant_view}
use ratline.Authz.Catalogue.{is_action}
use ratline.Authz.Roles.{roles_carrying}
use ratline.Authz.Roles.Laws.{roles_carrying_iff, can-roles_carrying}
use ratline.Authz.Grants.{
  ScopeRef, is_allowed, reaches, exists_effective, grant_decision, has_ancestor, is_prefix,
}
use ratline.Authz.Grants.Laws.{HasGrant, Inherits, grant_decision_iff}
use ratline.Authz.Can.{
  Actor, AuthzContext, explicit_deny, no_role_carries_action, reason_with_roles, can, permitted,
  require, decide, granted, find_actor_status, scope_node_exists, within_issuer, ceiling_breach,
}
use ratline.Authz.Can.Laws.{IsPermitted, can-allowed_iff}
use ratline.Authz.Can.Consequences.{
  at_node, HasNodeKey, can-issuer, can-deny-Inherits, can-explicit_deny,
}
use ratline.Authz.Can.Requiring.{HasSessionKey, IsFreshFor, require_iff}
use ratline.Authz.Can.Tenant.{IsOwn, can-IsOwn_rows}

abbrev grant_to : SubjectType → String → String → Effect → ScopeType → Option String → Grant
grant_to type id role effect scope_type scope_id = record {
  org_id = "acme";
  subject_type = type;
  subject_id = id;
  role_key = role;
  effect = effect;
  scope_type = scope_type;
  scope_id = scope_id;
  expires_at = none;
}

abbrev root_node : ScopeNode
root_node = record { id = "root"; org_id = "acme"; is_root = true; path = "root" ∷ [] }

abbrev project_node : ScopeNode
project_node = record { id = "shop"; org_id = "acme"; is_root = false; path = "root" ∷ "shop" ∷ [] }

abbrev stage_node : ScopeNode
stage_node = record {
  id = "stage";
  org_id = "acme";
  is_root = false;
  path = "root" ∷ "shop" ∷ "stage" ∷ [];
}

abbrev acme : Db
acme = record {
  now = 1000;
  grants =
      grant_to SubjectType.user "dana" "developer" Effect.allow ScopeType.organization none
      ∷ grant_to SubjectType.api_token "ci" "developer" Effect.allow ScopeType.organization none
      ∷ grant_to SubjectType.user "vera" "viewer" Effect.allow ScopeType.organization none
      ∷ grant_to SubjectType.user "vera" "viewer" Effect.deny ScopeType.project (some "shop")
      ∷ [];
  scope_nodes = root_node ∷ project_node ∷ stage_node ∷ [];
  memberships =
      record { org_id = "acme"; user_id = "dana" }
      ∷ record { org_id = "acme"; user_id = "vera" }
      ∷ [];
  users =
      record { id = "dana"; disabled_at = none } ∷ record { id = "vera"; disabled_at = none } ∷ [];
  service_identities = [];
  api_tokens = record { id = "ci"; org_id = "acme"; revoked_at = none; expires_at = 5000 } ∷ [];
  sessions = [];
  security_policies = [];
}

abbrev carrying : String → List String
carrying action = "developer" ∷ "viewer" ∷ []

abbrev as_actor : Actor → AuthzContext
as_actor actor = record { org_id = "acme"; actor = actor; session_id = none }

abbrev at_shop : ScopeRef
at_shop = record { scope_node_id = "shop"; resource_id = none }

token_allowed :
    (can acme (as_actor (Actor.api_token "ci" "dana")) "site.read" at_shop carrying).allowed ≡ true
unfolding can tenant_view reason_with_roles find_actor_status scope_node_exists grant_decision
    exists_effective reaches has_ancestor is_prefix is_allowed within_issuer ceiling_breach
    is_action
token_allowed = refl

abbrev ci : AuthzContext
ci = as_actor (Actor.api_token "ci" "dana")

abbrev vera : AuthzContext
vera = as_actor (Actor.user "vera")

vera_denied : (can acme vera "site.read" at_shop carrying).reason ≡ explicit_deny
unfolding can tenant_view reason_with_roles find_actor_status scope_node_exists grant_decision
    exists_effective reaches has_ancestor is_prefix is_allowed within_issuer ceiling_breach
    is_action
vera_denied = refl

can-allowed_iff_example :
    IsPermitted
      (tenant_view "acme" acme)
      (Actor.api_token "ci" "dana")
      "site.read"
      ("developer" ∷ "viewer" ∷ [])
      at_shop
can-allowed_iff_example = (can-allowed_iff acme ci "site.read" at_shop carrying).0 token_allowed

can-issuer_example :
    (can acme (as_actor (Actor.user "dana")) "site.read" at_shop carrying).allowed ≡ true
can-issuer_example = can-issuer acme ci "site.read" at_shop carrying "ci" "dana" token_allowed

three_nodes :
    (a : ScopeNode)
    → Among a (root_node ∷ project_node ∷ stage_node ∷ [])
    → (a ≡ root_node) ⊎ ((a ≡ project_node) ⊎ (a ≡ stage_node))
three_nodes a (here e) = inl e
three_nodes a (there (here e)) = inr (inl e)
three_nodes a (there (there (here e))) = inr (inr e)
three_nodes a (there (there (there m))) = elim m [ ]

differ : (a b : String) → str_eq a b ≡ false → a ≢ b
differ a b h e = absurd (ground (arith, h, (eq_iff a b).1 e))

node_key : HasNodeKey (tenant_view "acme" acme)
unfolding tenant_view
node_key a b m n e =
    let x = three_nodes a m in
    let y = three_nodes b n in
    ground (
      arith,
      x,
      y,
      e,
      differ "root" "shop" refl,
      differ "root" "stage" refl,
      differ "shop" "stage" refl,
    )

stage_below : Inherits (tenant_view "acme" acme) "stage" (some "shop")
unfolding tenant_view
stage_below = record {
  low = stage_node;
  low_listed = there (there (here refl));
  low_id = refl;
  high = project_node;
  high_listed = there (here refl);
  high_id = refl;
  above = ("stage" ∷ [], refl);
  same_org = refl;
}

vera_deny :
    HasGrant
      (tenant_view "acme" acme)
      SubjectType.user
      "vera"
      at_shop
      ("developer" ∷ "viewer" ∷ [])
      Effect.deny
vera_deny = (can-explicit_deny acme vera "site.read" at_shop carrying vera_denied).1

can-deny-Inherits_example :
    (can acme vera "site.read" (at_node at_shop "stage") carrying).allowed ≡ false
can-deny-Inherits_example =
    can-deny-Inherits acme vera "site.read" at_shop carrying "stage" node_key stage_below vera_deny

can-explicit_deny_example :
    HasGrant
      (tenant_view "acme" acme)
      SubjectType.user
      "vera"
      at_shop
      ("developer" ∷ "viewer" ∷ [])
      Effect.allow
    × HasGrant
        (tenant_view "acme" acme)
        SubjectType.user
        "vera"
        at_shop
        ("developer" ∷ "viewer" ∷ [])
        Effect.deny
can-explicit_deny_example = can-explicit_deny acme vera "site.read" at_shop carrying vera_denied

can-IsOwn_rows_example :
    ((n : ScopeNode) × Among n acme.scope_nodes × (n.org_id ≡ "acme") × (n.id ≡ "shop"))
    × ((g : Grant) × Among g acme.grants
        × (g.org_id ≡ "acme")
        × (g.effect ≡ Effect.allow)
        × (g.subject_id ≡ "ci")
        × Among g.role_key ("developer" ∷ "viewer" ∷ []))
    × IsOwn acme "acme" (Actor.api_token "ci" "dana")
can-IsOwn_rows_example = can-IsOwn_rows acme ci "site.read" at_shop carrying token_allowed

-- The policy asks for a password within the last minute, and one was given half a minute ago.
abbrev dana_session : SessionRow
dana_session = record {
  id = "s1";
  org_id = "acme";
  user_id = "dana";
  revoked_at = none;
  expires_at = 900000;
  authenticated_at = 70000;
}

abbrev strict : Db
strict = record acme {
  now = 100000;
  sessions = dana_session ∷ [];
  security_policies =
      record { org_id = "acme"; reauth_actions = "site.read" ∷ []; reauth_window_seconds = 60 }
      ∷ [];
}

abbrev dana : AuthzContext
dana = record { org_id = "acme"; actor = Actor.user "dana"; session_id = some "s1" }

dana_allowed : (can strict dana "site.read" at_shop carrying).allowed ≡ true
unfolding can tenant_view reason_with_roles find_actor_status scope_node_exists grant_decision
    exists_effective reaches has_ancestor is_prefix is_allowed within_issuer ceiling_breach
    is_action
dana_allowed = refl

one_session : HasSessionKey (tenant_view "acme" strict)
unfolding tenant_view
one_session a b (here e) (here f) same = e ∙ sym f
one_session a b (here e) (there m) same = elim m [ ]
one_session a b (there m) n same = elim m [ ]

recent_password : IsFreshFor (tenant_view "acme" strict) (some "s1") "site.read"
unfolding tenant_view
recent_password = inr (dana_session, here refl, refl, refl, omega arith, omega arith)

require_iff_example :
    require strict dana "site.read" at_shop carrying
    ≡ permitted (decide granted "site.read" at_shop)
require_iff_example =
    (require_iff strict dana "site.read" at_shop carrying one_session).0.1
      ((can-allowed_iff strict dana "site.read" at_shop carrying).0 dana_allowed, recent_password)

catalogued : is_action "site.read" ≡ true
unfolding is_action
catalogued = refl

roles_carrying_iff_example : is_empty (roles_carrying "site.read") ≡ false
roles_carrying_iff_example = (roles_carrying_iff "site.read").1 catalogued

can-roles_carrying_example :
    (can acme vera "site.read" at_shop roles_carrying).reason ≢ no_role_carries_action
can-roles_carrying_example = can-roles_carrying acme vera "site.read" at_shop

dana_granted :
    is_allowed (grant_decision acme SubjectType.user "dana" ("developer" ∷ []) at_shop) ≡ true
unfolding grant_decision exists_effective reaches has_ancestor is_prefix is_allowed
dana_granted = refl

grant_decision_iff_example :
    HasGrant acme SubjectType.user "dana" at_shop ("developer" ∷ []) Effect.allow
    × ¬ HasGrant acme SubjectType.user "dana" at_shop ("developer" ∷ []) Effect.deny
grant_decision_iff_example =
    (grant_decision_iff acme SubjectType.user "dana" at_shop ("developer" ∷ [])).0 dana_granted
