-- ===== src/Authz/Can/Consequences.antt =====
-- What follows for tokens and denials.
use ratline.Prelude.{
  ◌≡◌, sym, ap, ◌∙◌, ◌≢◌, inl, inr, true, false, String, List, ◌++◌, Option, some, arith,
  Bool-cases, Among, subst,
}
use mathlib.Core.List.{append_assoc}
use mathlib.Core.Option.{some-injective}
use ratline.Database.{SubjectType, Effect, ScopeNode, Db, tenant_view}
use ratline.Authz.Grants.{ScopeRef, is_allowed, exists_effective, grant_decision, scope_node_of}
use ratline.Authz.Grants.Laws.{
  IsPrefix, Inherits, HasGrant, exists_effective_sound, deny_of_refused,
}
use ratline.Authz.Can.{
  Actor, AuthzContext, explicit_deny, subject_of, reason_with_roles, can, within_issuer,
  ceiling_breach,
}
use ratline.Authz.Can.Laws.{can-allowed_iff}

abbrev pub acting_as : AuthzContext → Actor → AuthzContext
acting_as ctx actor = record ctx { actor = actor }

-- A token is allowed nothing that its issuer, acting as a user, would not be allowed at the same
-- time.
pub can-issuer :
    (d : Db) (ctx : AuthzContext) (action : String) (scope : ScopeRef)
    (resolve_roles : String → List String) (id by : String)
    → (can d (acting_as ctx (Actor.api_token id by)) action scope resolve_roles).allowed ≡ true
    → (can d (acting_as ctx (Actor.user by)) action scope resolve_roles).allowed ≡ true
can-issuer d ctx action scope resolve_roles id by h =
    let p =
      (can-allowed_iff d (acting_as ctx (Actor.api_token id by)) action scope resolve_roles).0 h in
    (can-allowed_iff d (acting_as ctx (Actor.user by)) action scope resolve_roles).1 (record {
      catalogued = p.catalogued;
      node = p.node;
      node_listed = p.node_listed;
      node_id = p.node_id;
      own = p.ceiling;
      ceiling = tt;
    })

-- The primary key of `scope_nodes`.
abbrev pub HasNodeKey : Db → Type 0
HasNodeKey d =
    (a b : ScopeNode) → Among a d.scope_nodes → Among b d.scope_nodes → a.id ≡ b.id → a ≡ b

IsPrefix-trans : (xs ys zs : List String) → IsPrefix xs ys → IsPrefix ys zs → IsPrefix xs zs
IsPrefix-trans xs ys zs (a, p) (b, q) = (a ++ b, q ∙ ap (λ l. l ++ b) p ∙ append_assoc xs a b)

Inherits-trans :
    (d : Db) (low middle : String) (high : Option String)
    → HasNodeKey d
    → Inherits d low (some middle)
    → Inherits d middle high
    → Inherits d low high
Inherits-trans d low middle high key i j =
    let same : i.high ≡ j.low =
      key i.high j.low i.high_listed j.low_listed
        (some-injective _ _ (sym i.high_id) ∙ sym j.low_id) in
    record {
      low = i.low;
      low_listed = i.low_listed;
      low_id = i.low_id;
      high = j.high;
      high_listed = j.high_listed;
      high_id = j.high_id;
      above =
          IsPrefix-trans j.high.path j.low.path i.low.path j.above
            (subst (λ n. IsPrefix n.path i.low.path) same i.above);
      same_org = j.same_org ∙ ap (λ n. n.org_id) (sym same) ∙ i.same_org;
    }

abbrev pub at_node : ScopeRef → String → ScopeRef
at_node scope node = record scope { scope_node_id = node }

HasGrant-Inherits :
    (d : Db) (type : SubjectType) (id : String) (scope : ScopeRef) (roles : List String)
    (effect : Effect) (node : String)
    → HasNodeKey d
    → Inherits d node (some scope.scope_node_id)
    → HasGrant d type id scope roles effect
    → HasGrant d type id (at_node scope node) roles effect
HasGrant-Inherits d type id scope roles effect node key i h = record {
  grant = h.grant;
  grant_listed = h.grant_listed;
  root = h.root;
  root_listed = h.root_listed;
  reach = record {
    root_node = h.reach.root_node;
    root_org = h.reach.root_org;
    live = h.reach.live;
    type_agrees = h.reach.type_agrees;
    id_agrees = h.reach.id_agrees;
    covers = elim h.reach.covers [
      | inl a ↦
          inl (Inherits-trans d node scope.scope_node_id (scope_node_of h.grant h.root) key i a)
      | inr b ↦ inr b
    ];
  };
  effect_agrees = h.effect_agrees;
  role_listed = h.role_listed;
}

-- A denying grant that reaches a node denies at every node below it, whatever else is granted
-- there. The ids of nodes are a key.
pub can-deny-Inherits :
    (d : Db) (ctx : AuthzContext) (action : String) (scope : ScopeRef)
    (resolve_roles : String → List String) (node : String)
    → HasNodeKey (tenant_view ctx.org_id d)
    → Inherits (tenant_view ctx.org_id d) node (some scope.scope_node_id)
    → HasGrant
        (tenant_view ctx.org_id d)
        (subject_of ctx.actor).0
        (subject_of ctx.actor).1
        scope
        (resolve_roles action)
        Effect.deny
    → (can d ctx action (at_node scope node) resolve_roles).allowed ≡ false
can-deny-Inherits d ctx action scope resolve_roles node key i h =
    elim (Bool-cases (can d ctx action (at_node scope node) resolve_roles).allowed) [
      | inl allowed ↦
          let p = (can-allowed_iff d ctx action (at_node scope node) resolve_roles).0 allowed in
          absurd (
            p.own.not_denied (
              HasGrant-Inherits (tenant_view ctx.org_id d) (subject_of ctx.actor).0
                (subject_of ctx.actor).1 scope (resolve_roles action) Effect.deny node key i h))
      | inr refused ↦ refused
    ]

within_issuer-ne-explicit_deny :
    (d : Db) (actor : Actor) (roles : List String) (scope : ScopeRef)
    → within_issuer d actor roles scope ≢ explicit_deny
unfolding within_issuer ceiling_breach
within_issuer-ne-explicit_deny d (Actor.user id) roles scope h = cc
within_issuer-ne-explicit_deny d (Actor.service_identity id name) roles scope h = cc
within_issuer-ne-explicit_deny d (Actor.api_token id by) roles scope h = ground arith

reason-explicit_deny :
    (d : Db) (actor : Actor) (roles : List String) (scope : ScopeRef)
    → reason_with_roles d actor roles scope ≡ explicit_deny
    → (exists_effective d (subject_of actor).0 (subject_of actor).1 roles scope Effect.allow ≡ true)
      × (is_allowed (grant_decision d (subject_of actor).0 (subject_of actor).1 roles scope)
          ≡ false)
unfolding reason_with_roles
reason-explicit_deny d (Actor.user id) roles scope h =
    ground (arith, within_issuer-ne-explicit_deny d (Actor.user id) roles scope)
reason-explicit_deny d (Actor.service_identity id name) roles scope h =
    ground (arith, within_issuer-ne-explicit_deny d (Actor.service_identity id name) roles scope)
reason-explicit_deny d (Actor.api_token id by) roles scope h =
    ground (arith, within_issuer-ne-explicit_deny d (Actor.api_token id by) roles scope)

-- The reason `explicit_deny` is given only where an allowing grant and a denying one both reach the
-- question.
pub can-explicit_deny :
    (d : Db) (ctx : AuthzContext) (action : String) (scope : ScopeRef)
    (resolve_roles : String → List String)
    → (can d ctx action scope resolve_roles).reason ≡ explicit_deny
    → HasGrant
        (tenant_view ctx.org_id d)
        (subject_of ctx.actor).0
        (subject_of ctx.actor).1
        scope
        (resolve_roles action)
        Effect.allow
      × HasGrant
          (tenant_view ctx.org_id d)
          (subject_of ctx.actor).0
          (subject_of ctx.actor).1
          scope
          (resolve_roles action)
          Effect.deny
unfolding can
can-explicit_deny d ctx action scope resolve_roles h =
    let view : Db = tenant_view ctx.org_id d in
    let (type, id) = subject_of ctx.actor in
    let reason : reason_with_roles view ctx.actor (resolve_roles action) scope ≡ explicit_deny =
      ground arith in
    let (allow, refused) =
      reason-explicit_deny view ctx.actor (resolve_roles action) scope reason in
    (
      exists_effective_sound view type id scope (resolve_roles action) Effect.allow allow,
      exists_effective_sound view type id scope (resolve_roles action) Effect.deny
          (deny_of_refused view type id scope (resolve_roles action) refused allow),
    )
