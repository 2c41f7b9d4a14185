-- ===== src/Authz/Can/Requiring.antt =====
-- When `checkFreshness` of src/repo/reauthentication.ts lets an action pass, and what `require` of
-- src/authz/can.ts makes of it.
use ratline.Prelude.{
  ℕ, ◌+◌, ◌*◌, ◌<◌, ◌≡◌, ◌↔◌, ◌⊎◌, refl, sym, ap, ◌∙◌, inl, inr, Bool, true, ◌&&◌, String, List,
  Option, none, some, find, find-Among, find_only, any, any_iff, Among, str_eq, eq_iff, arith,
  Bool-cases, Option-cases,
}
use mathlib.Core.Option.{some-injective}
use ratline.Database.{Db, SessionRow, tenant_view}
use ratline.Authz.Grants.{ScopeRef}
use ratline.Authz.Can.{
  AuthzContext, granted, decide, can, Freshness, is_fresh, reauth_policy, is_live_session,
  freshness_of, check_freshness, permitted, not_permitted, stale_authentication, require,
}
use ratline.Authz.Can.Laws.{IsPermitted, can-allowed_iff}

-- The primary key of `sessions`.
abbrev pub HasSessionKey : Db → Type 0
HasSessionKey d = (a b : SessionRow) → Among a d.sessions → Among b d.sessions → a.id ≡ b.id → a ≡ b

-- The session of the request is live, and its password was proved within the window of the policy.
abbrev pub HasRecentPassword : Db → Option String → Type 0
HasRecentPassword d session =
    (s : SessionRow) × Among s d.sessions
    × (session ≡ some s.id)
    × (s.revoked_at ≡ none)
    × (d.now < s.expires_at)
    × (d.now < s.authenticated_at + 1000 * (reauth_policy d).1)

-- The policy does not list the action, or the password is recent.
abbrev pub IsFreshFor : Db → Option String → String → Type 0
IsFreshFor d session action = (¬ Among action (reauth_policy d).0) ⊎ HasRecentPassword d session

module _ (d : Db) (id : String) where
  abbrev is_the_session : SessionRow → Bool
  is_the_session s = str_eq s.id id && is_live_session d.now s

  is_the_session_iff :
      (s : SessionRow)
      → (is_the_session s ≡ true) ↔ ((s.id ≡ id) × (s.revoked_at ≡ none) × (d.now < s.expires_at))
  is_the_session_iff s = elim (Option-cases s.revoked_at) [
    | inl e ↦ ground (arith, e, eq_iff s.id id)
    | inr (at, e) ↦ ground (arith, e, eq_iff s.id id)
  ]

  freshness_of_iff :
      (window : ℕ)
      → HasSessionKey d
      → (is_fresh (freshness_of d.now window (find is_the_session d.sessions)) ≡ true) ↔ (
          (s : SessionRow) × Among s d.sessions
          × (id ≡ s.id)
          × (s.revoked_at ≡ none)
          × (d.now < s.expires_at)
          × (d.now < s.authenticated_at + 1000 * window))
  freshness_of_iff window key = elim (Option-cases (find is_the_session d.sessions)) [
    | inl e ↦ rw e (
      (λ h. absurd (cc h)),
      (λ h.
          let (s, listed, same, open_row, lives, recent) = h in
          let test = (is_the_session_iff s).1 (sym same, open_row, lives) in
          let found =
            find_only is_the_session listed test
              (λ t m k. key t s m listed (((is_the_session_iff t).0 k).0 ∙ same)) in
          absurd (cc (e, found))),
    )
    | inr (s, e) ↦
        let (listed, test) = find-Among is_the_session d.sessions s e in
        let (same, open_row, lives) = (is_the_session_iff s).0 test in
        rw e (
          (λ h. (s, listed, sym same, open_row, lives, ground (arith, h))),
          (λ h.
              let (t, others, known, open_other, living, recent) = h in
              let one : t ≡ s = key t s others listed (sym known ∙ sym same) in
              let now_recent : d.now < s.authenticated_at + 1000 * window = rw one at recent in
              ground (arith, now_recent)),
        )
  ]

any_action_iff :
    (action : String) (actions : List String)
    → (any (str_eq action) actions ≡ true) ↔ Among action actions
any_action_iff action actions =
    let base = any_iff (str_eq action) actions in
    (
      (λ h. let (x, m, e) = base.0 h in rw ((eq_iff action x).0 e) m),
      (λ m. base.1 (action, m, (eq_iff action action).1 refl)),
    )

-- An authentication is fresh exactly when the policy of the tenant does not list the action, or the
-- request's session is live and its password was proved within the policy's window.
check_freshness_iff :
    (d : Db) (ctx : AuthzContext) (action : String)
    → HasSessionKey (tenant_view ctx.org_id d)
    → (is_fresh (check_freshness d ctx action) ≡ true)
      ↔ IsFreshFor (tenant_view ctx.org_id d) ctx.session_id action
unfolding check_freshness tenant_view
check_freshness_iff d ctx action key =
    let view : Db = tenant_view ctx.org_id d in
    let policy = reauth_policy view in
    let listed_iff = any_action_iff action policy.0 in
    elim (Bool-cases (any (str_eq action) policy.0)) [
      | inr unlisted ↦
          rw unlisted ((λ h. inl (λ m. let k = listed_iff.1 m in cc (k, unlisted))), (λ h. refl))
      | inl listed ↦ rw listed (elim (Option-cases ctx.session_id) [
        | inl none_here ↦ rw none_here (
          (λ h. absurd (cc h)),
          (λ h. elim h [
            | inl unlisted ↦ absurd (unlisted (listed_iff.0 listed))
            | inr (s, m, same, open_row, lives, recent) ↦ absurd (cc same)
          ]),
        )
        | inr (id, held) ↦
            let core = freshness_of_iff view id policy.1 key in
            rw held (
              (λ h.
                  let (s, m, same, open_row, lives, recent) = core.0 h in
                  inr (s, m, ap some same, open_row, lives, recent)),
              (λ h. elim h [
                | inl unlisted ↦ absurd (unlisted (listed_iff.0 listed))
                | inr (s, m, same, open_row, lives, recent) ↦
                    core.1 (s, m, some-injective _ _ same, open_row, lives, recent)
              ]),
            )
      ])
    ]

can-decide :
    (d : Db) (ctx : AuthzContext) (action : String) (scope : ScopeRef)
    (resolve_roles : String → List String)
    → (can d ctx action scope resolve_roles).allowed ≡ true
    → can d ctx action scope resolve_roles ≡ decide granted action scope
unfolding can
can-decide d ctx action scope resolve_roles h = ground arith

-- `require` permits exactly what the grants of the tenant permit and whose password is fresh, and then
-- answers that it is granted; it asks for the password exactly where the grants permit and the password
-- is not fresh; and it refuses, with the decision of `can`, exactly where the grants do not permit. A
-- password is fresh where the policy does not list the action, or where the live session of the
-- request proved it within the window. The ids of sessions are a key.
pub require_iff :
    (d : Db) (ctx : AuthzContext) (action : String) (scope : ScopeRef)
    (resolve_roles : String → List String)
    → HasSessionKey (tenant_view ctx.org_id d)
    → ((require d ctx action scope resolve_roles ≡ permitted (decide granted action scope)) ↔ (
        IsPermitted (tenant_view ctx.org_id d) ctx.actor action (resolve_roles action) scope
        × IsFreshFor (tenant_view ctx.org_id d) ctx.session_id action))
      × (((f : Freshness) × (require d ctx action scope resolve_roles
              ≡ stale_authentication action f))
          ↔ (IsPermitted (tenant_view ctx.org_id d) ctx.actor action (resolve_roles action) scope
              × (¬ IsFreshFor (tenant_view ctx.org_id d) ctx.session_id action)))
      × ((require d ctx action scope resolve_roles
            ≡ not_permitted (can d ctx action scope resolve_roles))
          ↔ (¬ IsPermitted
              (tenant_view ctx.org_id d)
              ctx.actor
              action
              (resolve_roles action)
              scope))
unfolding require
require_iff d ctx action scope resolve_roles key =
    let allows = can-allowed_iff d ctx action scope resolve_roles in
    let freshens = check_freshness_iff d ctx action key in
    elim (Bool-cases (can d ctx action scope resolve_roles).allowed) [
      | inr refused ↦
          let out : ¬ IsPermitted (tenant_view ctx.org_id d) ctx.actor action (resolve_roles action)
              scope =
            λ p. let k = allows.1 p in cc (k, refused) in
          rw refused (
            ((λ h. absurd (cc h)), (λ h. absurd (out h.0))),
            ((λ h. absurd (cc h.1)), (λ h. absurd (out h.0))),
            ((λ h. out), (λ h. refl)),
          )
      | inl allowed ↦
          let in_ = allows.0 allowed in
          let decided = can-decide d ctx action scope resolve_roles allowed in
          elim (Bool-cases (is_fresh (check_freshness d ctx action))) [
            | inl fresh ↦
                let good = freshens.0 fresh in
                rw (allowed, fresh)
                  (
                    ((λ h. (in_, good)), (λ h. cc decided)),
                    ((λ h. absurd (cc h.1)), (λ h. absurd (h.1 good))),
                    ((λ h. absurd (cc h)), (λ h. absurd (h in_))),
                  )
            | inr old ↦
                let bad : ¬ IsFreshFor (tenant_view ctx.org_id d) ctx.session_id action =
                  λ g. let k = freshens.1 g in cc (k, old) in
                rw (allowed, old)
                  (
                    ((λ h. absurd (cc h)), (λ h. absurd (bad h.1))),
                    ((λ h. (in_, bad)), (λ h. (check_freshness d ctx action, refl))),
                    ((λ h. absurd (cc h)), (λ h. absurd (h in_))),
                  )
          ]
    ]
