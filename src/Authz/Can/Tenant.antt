-- ===== src/Authz/Can/Tenant.antt =====
-- On whose rows an answer of `can` in src/authz/can.ts rests.
use ratline.Prelude.{
  ℕ, Bool, ◌<◌, ◌≡◌, true, ◌&&◌, String, List, none, find, find-Among, any, any-Among, filter-Among,
  Among, str_eq, eq_iff, arith, Option-cases, inl, inr,
}
use ratline.Database.{
  SubjectType, Effect, Grant, ScopeNode, Membership, ServiceIdentity, ApiToken, User, Db,
  tenant_view,
}
use ratline.Authz.Grants.{ScopeRef}
use ratline.Authz.Can.{
  Actor, AuthzContext, subject_of, find_actor_status, disabled_user, disabled_service,
  status_of_row, is_live_token, can,
}
use ratline.Authz.Can.Laws.{MayAct, IsPermitted, can-allowed_iff}

-- A membership of the organization, of the user.
abbrev pub HasMembership : Db → String → String → Type 0
HasMembership d org id =
    (m : Membership) × Among m d.memberships × (m.org_id ≡ org) × (m.user_id ≡ id)

-- The organization's own row behind an actor: a membership, a service identity, or a live token and
-- the membership of its issuer.
abbrev pub IsOwn : Db → String → Actor → Type 0
IsOwn d org (Actor.user id) = HasMembership d org id
IsOwn d org (Actor.service_identity id name) =
    (s : ServiceIdentity) × Among s d.service_identities × (s.org_id ≡ org) × (s.id ≡ id)
IsOwn d org (Actor.api_token id by) =
    ((t : ApiToken) × Among t d.api_tokens
      × (t.org_id ≡ org)
      × (t.id ≡ id)
      × (t.revoked_at ≡ none)
      × (d.now < t.expires_at))
    × HasMembership d org by

user_listed :
    (v : Db) (id : String)
    → (status_of_row (disabled_user v id)).exists ≡ true
    → any (λ m. str_eq m.user_id id) v.memberships ≡ true
user_listed v id h =
    let p : User → Bool = λ u. str_eq u.id id && any (λ m. str_eq m.user_id id) v.memberships in
    elim (Option-cases (find p v.users)) [
      | inl e ↦ absurd (let k = rw (e, status_of_row) at h in cc k)
      | inr (u, e) ↦ let (listed, both) = find-Among p v.users u e in ground (arith, both)
    ]

service_listed :
    (v : Db) (id : String)
    → (status_of_row (disabled_service v id)).exists ≡ true
    → (s : ServiceIdentity) × Among s v.service_identities × (str_eq s.id id ≡ true)
service_listed v id h = elim (Option-cases (find (λ s. str_eq s.id id) v.service_identities)) [
  | inl e ↦ absurd (let k = rw (e, status_of_row) at h in cc k)
  | inr (s, e) ↦
      let (listed, same) = find-Among (λ s. str_eq s.id id) v.service_identities s e in
      (s, listed, same)
]

own_user :
    (d : Db) (org id : String)
    → MayAct (tenant_view org d) SubjectType.user id
    → HasMembership d org id
unfolding tenant_view find_actor_status
own_user d org id (exists, enabled) =
    let (m, listed, same) =
      any-Among (λ m. str_eq m.user_id id) (tenant_view org d).memberships
        (user_listed (tenant_view org d) id exists) in
    let (held, own) = filter-Among (λ m. str_eq m.org_id org) d.memberships listed in
    (m, held, (eq_iff m.org_id org).0 own, (eq_iff m.user_id id).0 same)

own_service :
    (d : Db) (org id : String)
    → MayAct (tenant_view org d) SubjectType.service_identity id
    → (s : ServiceIdentity) × Among s d.service_identities × (s.org_id ≡ org) × (s.id ≡ id)
unfolding tenant_view find_actor_status
own_service d org id (exists, enabled) =
    let (s, listed, same) = service_listed (tenant_view org d) id exists in
    let (held, own) = filter-Among (λ s. str_eq s.org_id org) d.service_identities listed in
    (s, held, (eq_iff s.org_id org).0 own, (eq_iff s.id id).0 same)

live_token :
    (t : ApiToken) (now : ℕ)
    → is_live_token now t ≡ true
    → (t.revoked_at ≡ none) × (now < t.expires_at)
live_token t now h = elim (Option-cases t.revoked_at) [
  | inl e ↦ ground (arith, e)
  | inr (at, e) ↦ ground (arith, e)
]

own_token :
    (d : Db) (org id : String)
    → MayAct (tenant_view org d) SubjectType.api_token id
    → (t : ApiToken) × Among t d.api_tokens
      × (t.org_id ≡ org)
      × (t.id ≡ id)
      × (t.revoked_at ≡ none)
      × (d.now < t.expires_at)
unfolding tenant_view find_actor_status
own_token d org id (exists, enabled) =
    let (t, m, live) =
      any-Among (λ t. str_eq t.id id && is_live_token d.now t) (tenant_view org d).api_tokens
        (ground arith) in
    let (listed, own) = filter-Among (λ t. str_eq t.org_id org) d.api_tokens m in
    let parts : (str_eq t.id id ≡ true) × (is_live_token d.now t ≡ true) = ground arith in
    let (open_token, lives) = live_token t d.now parts.1 in
    (t, listed, (eq_iff t.org_id org).0 own, (eq_iff t.id id).0 parts.0, open_token, lives)

IsOwn-actor :
    (d : Db) (org : String) (actor : Actor) (action : String) (roles : List String)
    (scope : ScopeRef)
    → IsPermitted (tenant_view org d) actor action roles scope
    → IsOwn d org actor
IsOwn-actor d org (Actor.user id) action roles scope p = own_user d org id p.own.acts
IsOwn-actor d org (Actor.service_identity id name) action roles scope p =
    own_service d org id p.own.acts
IsOwn-actor d org (Actor.api_token id by) action roles scope p =
    (own_token d org id p.own.acts, own_user d org by p.ceiling.acts)

-- What `can` allows rests on rows of the tenant alone, in tables that hold those of every tenant: the
-- node that was asked about, a grant to the actor's subject that allows a role which carries the action,
-- and the membership, the service identity or the live token of the actor, with the membership of its
-- issuer for a token, all stand under the organization of the context.
pub can-IsOwn_rows :
    (d : Db) (ctx : AuthzContext) (action : String) (scope : ScopeRef)
    (resolve_roles : String → List String)
    → (can d ctx action scope resolve_roles).allowed ≡ true
    → ((n : ScopeNode) × Among n d.scope_nodes
        × (n.org_id ≡ ctx.org_id)
        × (n.id ≡ scope.scope_node_id))
      × ((g : Grant) × Among g d.grants
          × (g.org_id ≡ ctx.org_id)
          × (g.effect ≡ Effect.allow)
          × (g.subject_id ≡ (subject_of ctx.actor).1)
          × Among g.role_key (resolve_roles action))
      × IsOwn d ctx.org_id ctx.actor
unfolding tenant_view
can-IsOwn_rows d ctx action scope resolve_roles h =
    let p = (can-allowed_iff d ctx action scope resolve_roles).0 h in
    let a = p.own.allowing in
    let (node, node_org) =
      filter-Among (λ n. str_eq n.org_id ctx.org_id) d.scope_nodes p.node_listed in
    let (grant, grant_org) =
      filter-Among (λ g. str_eq g.org_id ctx.org_id) d.grants a.grant_listed in
    (
      (p.node, node, (eq_iff p.node.org_id ctx.org_id).0 node_org, p.node_id),
      (
        a.grant,
        grant,
        (eq_iff a.grant.org_id ctx.org_id).0 grant_org,
        a.effect_agrees,
        a.reach.id_agrees,
        a.role_listed,
      ),
      IsOwn-actor d ctx.org_id ctx.actor action (resolve_roles action) scope p,
    )
