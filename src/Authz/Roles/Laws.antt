-- ===== src/Authz/Roles/Laws.antt =====
-- The default roles against the catalogue of actions.
use ratline.Prelude.{
  is_empty, ◌≡◌, ◌≢◌, ◌↔◌, refl, Bool, true, false, not, String, List, [], ◌∷◌, map, any, all,
  filter, Among, here, there, any-Among, arith, str_eq, eq_iff, inl, inr, Bool-cases,
}
use ratline.Database.{Db, tenant_view}
use ratline.Authz.Catalogue.{action_catalogue, is_action}
use ratline.Authz.Roles.{RoleDefinition, all_default_roles, roles_carrying}
use ratline.Authz.Grants.{ScopeRef}
use ratline.Authz.Can.{
  AuthzContext, Actor, within_issuer, ceiling_breach, no_role_carries_action, reason_with_roles,
  can,
}

all-Among {ℓ} :
    {A : Type ℓ} (p : A → Bool) {x : A} (xs : List A) → all p xs ≡ true → Among x xs → p x ≡ true
all-Among p [] h m = elim m [ ]
all-Among p (y ∷ ys) h (here e) = ground arith
all-Among p (y ∷ ys) h (there m) = all-Among p ys (ground arith) m

every_action_carried : all (λ d. not (is_empty (roles_carrying d.name))) action_catalogue ≡ true
unfolding action_catalogue roles_carrying
every_action_carried = refl

every_role_catalogued : all (λ r. all is_action r.actions) all_default_roles ≡ true
unfolding all_default_roles is_action
every_role_catalogued = refl

carried_sound :
    (action : String) → is_action action ≡ true → is_empty (roles_carrying action) ≡ false
unfolding is_action
carried_sound action h =
    let (d, l, e) = any-Among (λ d. str_eq action d.name) action_catalogue h in
    let carried : not (is_empty (roles_carrying d.name)) ≡ true =
      all-Among (λ d. not (is_empty (roles_carrying d.name))) action_catalogue every_action_carried
        l in
    let same : action ≡ d.name = (eq_iff action d.name).0 e in rw same (ground arith)

abbrev carries : String → RoleDefinition → Bool
carries action r = any (str_eq action) r.actions

some_carrier :
    (action : String) (roles : List RoleDefinition)
    → is_empty (map (λ r. r.key) (filter (carries action) roles)) ≡ false
    → (r : RoleDefinition) × Among r roles × (carries action r ≡ true)
some_carrier action [] h = cc
some_carrier action (r ∷ rs) h = elim (Bool-cases (carries action r)) [
  | inl e ↦ (r, here refl, e)
  | inr e ↦ let (q, l, k) = some_carrier action rs (rw e at h) in (q, there l, k)
]

carried_complete :
    (action : String) → is_empty (roles_carrying action) ≡ false → is_action action ≡ true
unfolding roles_carrying
carried_complete action h =
    let (r, l, c) = some_carrier action all_default_roles h in
    let (a, m, e) = any-Among (str_eq action) r.actions c in
    let known : all is_action r.actions ≡ true =
      all-Among (λ r. all is_action r.actions) all_default_roles every_role_catalogued l in
    rw ((eq_iff action a).0 e) (all-Among is_action r.actions known m)

-- Some default role carries an action exactly when the action is catalogued.
pub roles_carrying_iff :
    (action : String) → (is_empty (roles_carrying action) ≡ false) ↔ (is_action action ≡ true)
roles_carrying_iff action = (carried_complete action, carried_sound action)

within_issuer-ne-no_role :
    (d : Db) (actor : Actor) (roles : List String) (scope : ScopeRef)
    → within_issuer d actor roles scope ≢ no_role_carries_action
unfolding within_issuer ceiling_breach
within_issuer-ne-no_role d (Actor.user id) roles scope h = cc
within_issuer-ne-no_role d (Actor.service_identity id name) roles scope h = cc
within_issuer-ne-no_role d (Actor.api_token id by) roles scope h = ground arith

reason-ne-no_role :
    (d : Db) (actor : Actor) (roles : List String) (scope : ScopeRef)
    → reason_with_roles d actor roles scope ≢ no_role_carries_action
unfolding reason_with_roles
reason-ne-no_role d (Actor.user id) roles scope h =
    ground (arith, within_issuer-ne-no_role d (Actor.user id) roles scope)
reason-ne-no_role d (Actor.service_identity id name) roles scope h =
    ground (arith, within_issuer-ne-no_role d (Actor.service_identity id name) roles scope)
reason-ne-no_role d (Actor.api_token id by) roles scope h =
    ground (arith, within_issuer-ne-no_role d (Actor.api_token id by) roles scope)

-- With the default roles `can` never answers that no role carries the action.
pub can-roles_carrying :
    (d : Db) (ctx : AuthzContext) (action : String) (scope : ScopeRef)
    → (can d ctx action scope roles_carrying).reason ≢ no_role_carries_action
unfolding can
can-roles_carrying d ctx action scope = λ h. elim (Bool-cases (is_action action)) [
  | inl e ↦
      let carried = carried_sound action e in
      let other =
        reason-ne-no_role (tenant_view ctx.org_id d) ctx.actor (roles_carrying action) scope in
      ground (arith, other)
  | inr e ↦ ground arith
]
