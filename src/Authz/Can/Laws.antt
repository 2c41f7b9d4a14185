-- ===== src/Authz/Can/Laws.antt =====
-- When `can` allows, and what its denials mean.
use ratline.Prelude.{
  is_empty, ◌≡◌, refl, ◌↔◌, true, false, String, List, [], ◌∷◌, none, arith, Among, any-Among,
  Among-any, str_eq, eq_iff,
}
use ratline.Database.{SubjectType, Effect, ScopeNode, Db, tenant_view}
use ratline.Authz.Catalogue.{is_action}
use ratline.Authz.Grants.{ScopeRef, is_allowed, grant_decision}
use ratline.Authz.Grants.Laws.{HasGrant, grant_decision_iff}
use ratline.Authz.Can.{
  Actor, AuthzContext, DecisionReason, granted, subject_of, find_actor_status, is_granted,
  scope_node_exists, ceiling_breach, within_issuer, reason_with_roles, can,
}

-- An actor of the tenant that is not disabled.
abbrev pub MayAct : Db → SubjectType → String → Type 0
MayAct d type id =
    ((find_actor_status d type id).exists ≡ true) × ((find_actor_status d type id).disabled ≡ false)

-- The subject may act, and the grants of the tenant allow it.
pub record Holds (d : Db) (type : SubjectType) (id : String) (roles : List String)
    (scope : ScopeRef) : Type 0 where
  pub acts : MayAct d type id
  pub allowing : HasGrant d type id scope roles Effect.allow
  pub not_denied : ¬ HasGrant d type id scope roles Effect.deny

-- Who stands behind a token must hold what the token uses.
abbrev pub Ceiling : Db → Actor → List String → ScopeRef → Type 0
Ceiling d (Actor.user id) roles scope = Unit {0}
Ceiling d (Actor.service_identity id name) roles scope = Unit {0}
Ceiling d (Actor.api_token id by) roles scope = Holds d SubjectType.user by roles scope

pub record IsPermitted (d : Db) (actor : Actor) (action : String) (roles : List String)
    (scope : ScopeRef) : Type 0 where
  pub catalogued : is_action action ≡ true
  pub node : ScopeNode
  pub node_listed : Among node d.scope_nodes
  pub node_id : node.id ≡ scope.scope_node_id
  pub own : Holds d (subject_of actor).0 (subject_of actor).1 roles scope
  pub ceiling : Ceiling d actor roles scope

module _ (d : Db) (roles : List String) (scope : ScopeRef) where
  ceiling_breach_iff :
      (by : String)
      → (ceiling_breach d by roles scope ≡ none) ↔ Holds d SubjectType.user by roles scope
  unfolding ceiling_breach
  ceiling_breach_iff by =
      let decision = grant_decision_iff d SubjectType.user by scope roles in
      (
        λ h.
            let parts : MayAct d SubjectType.user by
                × (is_allowed (grant_decision d SubjectType.user by roles scope) ≡ true) =
              ground arith in
            let both = decision.0 parts.1 in
            record { acts = parts.0; allowing = both.0; not_denied = both.1 },
        λ h.
            let allows = decision.1 (h.allowing, h.not_denied) in let acts = h.acts in ground arith,
      )

  within_issuer-token :
      (id by : String)
      → (within_issuer d (Actor.api_token id by) roles scope ≡ granted)
        ↔ (ceiling_breach d by roles scope ≡ none)
  unfolding within_issuer ceiling_breach
  within_issuer-token id by = ground arith

  within_issuer_iff :
      (actor : Actor) → (within_issuer d actor roles scope ≡ granted) ↔ Ceiling d actor roles scope
  unfolding within_issuer
  within_issuer_iff (Actor.user id) = ((λ h. tt), λ h. refl)
  within_issuer_iff (Actor.service_identity id name) = ((λ h. tt), λ h. refl)
  within_issuer_iff (Actor.api_token id by) =
      let token = within_issuer-token id by in
      let breach = ceiling_breach_iff by in ((λ h. breach.0 (token.0 h)), λ h. token.1 (breach.1 h))

  scope_node_exists_iff :
      (scope_node_exists d scope.scope_node_id ≡ true)
      ↔ ((n : ScopeNode) × Among n d.scope_nodes × (n.id ≡ scope.scope_node_id))
  unfolding scope_node_exists
  scope_node_exists_iff =
      let test = λ (n : ScopeNode). str_eq n.id scope.scope_node_id in
      (
        (λ h.
            let (n, l, e) = any-Among test d.scope_nodes h in
            (n, l, (eq_iff n.id scope.scope_node_id).0 e)),
        λ (n, l, e). Among-any test l ((eq_iff n.id scope.scope_node_id).1 e),
      )

  -- The four answers that a grant needs.
  abbrev Grants : Actor → SubjectType → String → Type 0
  Grants actor type id =
      ((find_actor_status d type id).exists ≡ true)
      × ((find_actor_status d type id).disabled ≡ false)
      × (scope_node_exists d scope.scope_node_id ≡ true)
      × (is_allowed (grant_decision d type id roles scope) ≡ true)
      × (within_issuer d actor roles scope ≡ granted)

  reason-granted :
      (actor : Actor)
      → (reason_with_roles d actor roles scope ≡ granted)
        ↔ Grants actor (subject_of actor).0 (subject_of actor).1
  unfolding reason_with_roles
  reason-granted (Actor.user id) = ground arith
  reason-granted (Actor.service_identity id name) = ground arith
  reason-granted (Actor.api_token id by) = ground arith

  granted_sound :
      (actor : Actor) (action : String)
      → is_action action ≡ true
      → reason_with_roles d actor roles scope ≡ granted
      → IsPermitted d actor action roles scope
  granted_sound actor action known h =
      let (type, id) = subject_of actor in
      let (exists, enabled, node, allows, within) = (reason-granted actor).0 h in
      let (n, listed, same) = scope_node_exists_iff.0 node in
      let both = (grant_decision_iff d type id scope roles).0 allows in
      record {
        catalogued = known;
        node = n;
        node_listed = listed;
        node_id = same;
        own = record { acts = (exists, enabled); allowing = both.0; not_denied = both.1 };
        ceiling = (within_issuer_iff actor).0 within;
      }

  granted_complete :
      (actor : Actor) (action : String)
      → IsPermitted d actor action roles scope
      → reason_with_roles d actor roles scope ≡ granted
  granted_complete actor action p =
      let (type, id) = subject_of actor in
      (reason-granted actor).1 (
        p.own.acts.0,
        p.own.acts.1,
        scope_node_exists_iff.1 (p.node, p.node_listed, p.node_id),
        (grant_decision_iff d type id scope roles).1 (p.own.allowing, p.own.not_denied),
        (within_issuer_iff actor).1 p.ceiling,
      )

is_granted_iff : (r : DecisionReason) → (is_granted r ≡ true) ↔ (r ≡ granted)
is_granted_iff r = ground arith

not-Among-nil : {x : String} → Among x [] → ⊥
not-Among-nil m = elim m [ ]

module _ (d : Db) (ctx : AuthzContext) (action : String) (scope : ScopeRef)
    (resolve_roles : String → List String) where
  abbrev view : Db
  view = tenant_view ctx.org_id d

  can-allowed : ((can d ctx action scope resolve_roles).allowed ≡ true) ↔ (
      (is_action action ≡ true)
      × (is_empty (resolve_roles action) ≡ false)
      × (reason_with_roles view ctx.actor (resolve_roles action) scope ≡ granted))
  unfolding can
  can-allowed = ground arith

  some_role :
      (actor : Actor)
      → (roles : List String) → IsPermitted view actor action roles scope
      → is_empty roles ≡ false
  some_role actor [] p = absurd (not-Among-nil p.own.allowing.role_listed)
  some_role actor (r ∷ rs) p = refl

  -- `can` allows exactly when the action is catalogued, the actor belongs to the tenant and is not
  -- disabled, the node exists in the tenant, an unexpired allowing grant of a role that carries the
  -- action reaches the question and no unexpired denying one does, and, for a token, all of this
  -- but the node holds of its issuer too.
  pub can-allowed_iff :
      ((can d ctx action scope resolve_roles).allowed ≡ true)
      ↔ IsPermitted (tenant_view ctx.org_id d) ctx.actor action (resolve_roles action) scope
  can-allowed_iff = (
    (λ h.
        let parts = can-allowed.0 h in
        granted_sound view (resolve_roles action) scope ctx.actor action parts.0 parts.2),
    λ p. can-allowed.1 (
      p.catalogued,
      some_role ctx.actor (resolve_roles action) p,
      granted_complete view (resolve_roles action) scope ctx.actor action p,
    ),
  )
