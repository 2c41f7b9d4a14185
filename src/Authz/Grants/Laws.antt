-- ===== src/Authz/Grants/Laws.antt =====
-- The SQL of grants, in terms of rows: which grants reach a node, and what `grant_decision` answers.
use mathlib.Core.Bool.{and-eq-true_iff}
use ratline.Prelude.{
  ℕ, ◌<◌, ◌≡◌, refl, sym, ap₂, ◌↔◌, ◌⊎◌, inl, inr, Bool, true, false, ◌&&◌, ◌||◌, String, List, [],
  ◌∷◌, ◌++◌, Option, none, some, any, any_iff, Among, Among-any, any-Among, subst, str_eq, eq_iff,
  arith, Bool-cases,
}
use ratline.Database.{SubjectType, Effect, ScopeType, Grant, ScopeNode, Db}
use ratline.Authz.Grants.{
  ScopeRef, is_allowed, is_id, is_live, same_subject, is_effect, is_resource, is_prefix,
  has_ancestor, scope_node_of, reaches, exists_effective, grant_decision,
}

abbrev pub IsPrefix : List String → List String → Type 0
IsPrefix xs ys = (zs : List String) × (ys ≡ xs ++ zs)

is_prefix-IsPrefix : (xs ys : List String) → is_prefix xs ys ≡ true → IsPrefix xs ys
unfolding is_prefix
is_prefix-IsPrefix [] ys h = (ys, refl)
is_prefix-IsPrefix (x ∷ xs) [] h = cc
is_prefix-IsPrefix (x ∷ xs) (y ∷ ys) h =
    let both = (and-eq-true_iff (str_eq x y) (is_prefix xs ys)).0 h in
    let (zs, e) = is_prefix-IsPrefix xs ys both.1 in (zs, ap₂ ◌∷◌ (sym ((eq_iff x y).0 both.0)) e)

IsPrefix-is_prefix : (xs ys : List String) → IsPrefix xs ys → is_prefix xs ys ≡ true
unfolding is_prefix
IsPrefix-is_prefix [] ys h = refl
IsPrefix-is_prefix (x ∷ xs) [] (zs, e) = cc
IsPrefix-is_prefix (x ∷ xs) (y ∷ ys) (zs, e) =
    let tail : ys ≡ xs ++ zs = cc in
    let head : x ≡ y = cc in ground (arith, eq_iff x y, IsPrefix-is_prefix xs ys (zs, tail))

-- A node with the id, and above it or at it the ancestor, in one organization.
pub record Inherits (d : Db) (node : String) (ancestor : Option String) : Type 0 where
  pub low : ScopeNode
  pub low_listed : Among low d.scope_nodes
  pub low_id : low.id ≡ node
  pub high : ScopeNode
  pub high_listed : Among high d.scope_nodes
  pub high_id : ancestor ≡ some high.id
  pub above : IsPrefix high.path low.path
  pub same_org : high.org_id ≡ low.org_id

is_id_iff : (o : Option String) (id : String) → (is_id o id ≡ true) ↔ (o ≡ some id)
is_id_iff none id = ground arith
is_id_iff (some j) id = ground (arith, eq_iff j id)

-- The row that joins a node and its ancestor.
abbrev above : Option String → ScopeNode → ScopeNode → Bool
above ancestor low high =
    is_id ancestor high.id && is_prefix high.path low.path && str_eq high.org_id low.org_id

above_iff :
    (ancestor : Option String) (low high : ScopeNode)
    → (above ancestor low high ≡ true)
      ↔ ((ancestor ≡ some high.id) × IsPrefix high.path low.path × (high.org_id ≡ low.org_id))
above_iff ancestor low high = (
  λ h.
      let parts : (is_id ancestor high.id ≡ true)
          × (is_prefix high.path low.path ≡ true)
          × (str_eq high.org_id low.org_id ≡ true) =
        ground arith in
      (
        (is_id_iff ancestor high.id).0 parts.0,
        is_prefix-IsPrefix high.path low.path parts.1,
        (eq_iff high.org_id low.org_id).0 parts.2,
      ),
  λ (id, prefix, org).
      rw ((is_id_iff ancestor high.id).1 id)
        (rw (IsPrefix-is_prefix high.path low.path prefix) ((eq_iff high.org_id low.org_id).1 org)),
)

pub has_ancestor_sound :
    (d : Db) (node : String) (ancestor : Option String)
    → has_ancestor d node ancestor ≡ true
    → Inherits d node ancestor
unfolding has_ancestor
has_ancestor_sound d node ancestor h =
    let (low, l, p) =
      (any_iff (λ low. str_eq low.id node && any (above ancestor low) d.scope_nodes)
          d.scope_nodes).0
        h in
    let parts =
      (and-eq-true_iff (str_eq low.id node) (any (above ancestor low) d.scope_nodes)).0 p in
    let (high, k, r) = (any_iff (above ancestor low) d.scope_nodes).0 parts.1 in
    let facts = (above_iff ancestor low high).0 r in
    record {
      low = low;
      low_listed = l;
      low_id = (eq_iff low.id node).0 parts.0;
      high = high;
      high_listed = k;
      high_id = facts.0;
      above = facts.1;
      same_org = facts.2;
    }

pub has_ancestor_complete :
    (d : Db) (node : String) (ancestor : Option String)
    → Inherits d node ancestor
    → has_ancestor d node ancestor ≡ true
unfolding has_ancestor
has_ancestor_complete d node ancestor i =
    let inner : any (above ancestor i.low) d.scope_nodes ≡ true =
      Among-any (above ancestor i.low) i.high_listed
        ((above_iff ancestor i.low i.high).1 (i.high_id, i.above, i.same_org)) in
    Among-any (λ low. str_eq low.id node && any (above ancestor low) d.scope_nodes) i.low_listed
      (rw ((eq_iff i.low.id node).1 i.low_id) inner)

abbrev pub IsLive : ℕ → Option ℕ → Type 0
IsLive now none = Unit {0}
IsLive now (some t) = now < t

-- The grant hangs on the node or above it, or on the resource that the question is about.
abbrev pub Covers : Db → ScopeRef → Grant → ScopeNode → Type 0
Covers d scope g root =
    Inherits d scope.scope_node_id (scope_node_of g root)
    ⊎ ((g.scope_type ≡ ScopeType.resource)
        × ((r : String) × (scope.resource_id ≡ some r) × (g.scope_id ≡ some r)))

-- An unexpired grant of the subject that covers the question.
pub record Reaches (d : Db) (type : SubjectType) (id : String) (scope : ScopeRef) (g : Grant)
    (root : ScopeNode) : Type 0 where
  pub root_node : root.is_root ≡ true
  pub root_org : root.org_id ≡ g.org_id
  pub live : IsLive d.now g.expires_at
  pub type_agrees : g.subject_type ≡ type
  pub id_agrees : g.subject_id ≡ id
  pub covers : Covers d scope g root

is_resource_iff :
    (type : ScopeType) (scope_id asked : Option String)
    → (is_resource type scope_id asked ≡ true)
      ↔ ((type ≡ ScopeType.resource) × ((r : String) × (asked ≡ some r) × (scope_id ≡ some r)))
is_resource_iff ScopeType.resource scope_id (some r) = (
  (λ h. (refl, (r, refl, (is_id_iff scope_id r).0 h))),
  λ (_, (q, e, k)). (is_id_iff scope_id r).1 (cc),
)
is_resource_iff ScopeType.resource scope_id none = ((λ h. absurd (cc h)), λ (_, (q, e, k)). cc)
is_resource_iff type scope_id asked = ((λ h. absurd (cc h)), λ (e, _). absurd (cc e))

same_subject_iff : (a b : SubjectType) → (same_subject a b ≡ true) ↔ (a ≡ b)
same_subject_iff a b = ground arith

is_live_iff : (now : ℕ) (at : Option ℕ) → (is_live now at ≡ true) ↔ IsLive now at
is_live_iff now none = ((λ h. tt), λ h. refl)
is_live_iff now (some t) = ground arith

module _ (d : Db) (type : SubjectType) (id : String) (scope : ScopeRef) where
  reaches_sound :
      (g : Grant) (root : ScopeNode)
      → reaches d type id scope g root ≡ true
      → Reaches d type id scope g root
  unfolding reaches
  reaches_sound g root h =
      let parts : (root.is_root ≡ true)
          × (str_eq root.org_id g.org_id ≡ true)
          × (is_live d.now g.expires_at ≡ true)
          × (same_subject g.subject_type type ≡ true)
          × (str_eq g.subject_id id ≡ true)
          × ((has_ancestor d scope.scope_node_id (scope_node_of g root) ≡ true)
              ⊎ (is_resource g.scope_type g.scope_id scope.resource_id ≡ true)) =
        ground arith in
      record {
        root_node = parts.0;
        root_org = (eq_iff root.org_id g.org_id).0 parts.1;
        live = (is_live_iff d.now g.expires_at).0 parts.2;
        type_agrees = (same_subject_iff g.subject_type type).0 parts.3;
        id_agrees = (eq_iff g.subject_id id).0 parts.4;
        covers = elim parts.5 [
          | inl a ↦ inl (has_ancestor_sound d scope.scope_node_id (scope_node_of g root) a)
          | inr b ↦ inr ((is_resource_iff g.scope_type g.scope_id scope.resource_id).0 b)
        ];
      }

  reaches_complete :
      (g : Grant) (root : ScopeNode)
      → Reaches d type id scope g root
      → reaches d type id scope g root ≡ true
  unfolding reaches
  reaches_complete g root r =
      let covered : (has_ancestor d scope.scope_node_id (scope_node_of g root)
            || is_resource g.scope_type g.scope_id scope.resource_id)
          ≡ true =
        elim r.covers [
          | inl a ↦ rw (has_ancestor_complete d scope.scope_node_id (scope_node_of g root) a)
          | inr b ↦
              let e = (is_resource_iff g.scope_type g.scope_id scope.resource_id).1 b in
              ground arith
        ] in
      ground (
        arith,
        r.root_node,
        (eq_iff root.org_id g.org_id).1 r.root_org,
        (is_live_iff d.now g.expires_at).1 r.live,
        (same_subject_iff g.subject_type type).1 r.type_agrees,
        (eq_iff g.subject_id id).1 r.id_agrees,
        covered,
      )

  -- A grant with the effect and one of the roles reaches the question.
  pub record HasGrant (roles : List String) (effect : Effect) : Type 0 where
    pub grant : Grant
    pub grant_listed : Among grant d.grants
    pub root : ScopeNode
    pub root_listed : Among root d.scope_nodes
    pub reach : Reaches d type id scope grant root
    pub effect_agrees : grant.effect ≡ effect
    pub role_listed : Among grant.role_key roles

  is_effect_iff : (a b : Effect) → (is_effect a b ≡ true) ↔ (a ≡ b)
  is_effect_iff a b = ground arith

  abbrev matching : List String → Effect → Grant → Bool
  matching roles effect g =
      any (reaches d type id scope g) d.scope_nodes
      && (is_effect g.effect effect && any (str_eq g.role_key) roles)

  pub exists_effective_sound :
      (roles : List String) (effect : Effect)
      → exists_effective d type id roles scope effect ≡ true
      → HasGrant roles effect
  unfolding exists_effective
  exists_effective_sound roles effect h =
      let (g, l, m) = any-Among (matching roles effect) d.grants h in
      let parts : (any (reaches d type id scope g) d.scope_nodes ≡ true)
          × (is_effect g.effect effect ≡ true)
          × (any (str_eq g.role_key) roles ≡ true) =
        ground arith in
      let (root, k, r) = any-Among (reaches d type id scope g) d.scope_nodes parts.0 in
      let (key, a, e) = any-Among (str_eq g.role_key) roles parts.2 in
      record {
        grant = g;
        grant_listed = l;
        root = root;
        root_listed = k;
        reach = reaches_sound g root r;
        effect_agrees = (is_effect_iff g.effect effect).0 parts.1;
        role_listed = subst (λ x. Among x roles) (sym ((eq_iff g.role_key key).0 e)) a;
      }

  pub exists_effective_complete :
      (roles : List String) (effect : Effect)
      → HasGrant roles effect
      → exists_effective d type id roles scope effect ≡ true
  unfolding exists_effective
  exists_effective_complete roles effect h =
      let g = h.grant in
      let reached : any (reaches d type id scope g) d.scope_nodes ≡ true =
        Among-any (reaches d type id scope g) h.root_listed (reaches_complete g h.root h.reach) in
      let carried : any (str_eq g.role_key) roles ≡ true =
        Among-any (str_eq g.role_key) h.role_listed ((eq_iff g.role_key g.role_key).1 refl) in
      Among-any (matching roles effect) h.grant_listed
        (rw reached (rw ((is_effect_iff g.effect effect).1 h.effect_agrees) carried))

  -- `grant_decision` answers allow exactly when an allowing grant reaches the question and no
  -- denying one does.
  pub grant_decision_iff :
      (roles : List String)
      → (is_allowed (grant_decision d type id roles scope) ≡ true)
        ↔ (HasGrant roles Effect.allow × ¬ HasGrant roles Effect.deny)
  unfolding grant_decision is_allowed
  grant_decision_iff roles = (
    λ h. (
      exists_effective_sound roles Effect.allow (ground arith),
      λ n. let e = exists_effective_complete roles Effect.deny n in ground arith,
    ),
    λ (a, n).
        let allowed = exists_effective_complete roles Effect.allow a in
        elim (Bool-cases (exists_effective d type id roles scope Effect.deny)) [
          | inl e ↦ absurd (n (exists_effective_sound roles Effect.deny e))
          | inr e ↦ ground arith
        ],
  )

  -- What is refused although an allowing grant exists, a denying grant refuses.
  pub deny_of_refused :
      (roles : List String)
      → is_allowed (grant_decision d type id roles scope) ≡ false
      → exists_effective d type id roles scope Effect.allow ≡ true
      → exists_effective d type id roles scope Effect.deny ≡ true
  unfolding grant_decision is_allowed
  deny_of_refused roles h k = ground arith
