-- ===== src/Runs/Factors.antt =====
-- A confirmed factor: its secret stays, and its steps only move forward, until the person enrols again
-- while signed in or somebody removes it.
pub mod Steps
use ratline.Prelude.{
  ℕ, ◌≡◌, ◌⊎◌, refl, ap, ap₂, ◌∙◌, Bool, true, false, not, ◌&&◌, ◌||◌, String, List, [], ◌∷◌,
  Option, none, some, is_some, any, str_eq, eq_iff, leb, arith, Bool-cases, inl, inr, All,
}
use ratline.Authz.Can.{AuthzContext, Required, Actor}
use ratline.Sessions.Table.{
  Enrolment, Challenge, Store, is_member, update_where, first_row, updated_rows,
}
use ratline.Sessions.Statements.{is_self, is_user, allows}
use ratline.Sessions.Rows.{
  update_where-any-false, update_where-any-true, filter-any-true, filter-any-false,
}
use ratline.TwoFactor.Statements.{
  FactorSubject, self, challenge, acting_id, NewChallenge, challenge_of, start_challenge,
  is_confirmed, is_pending, is_blocked, is_enrolment_of, enrolled_again, put_enrolment,
  live_challenge, start_enrolment, start_resolved, resolve_subject, resolved_self,
  resolved_challenge, Resolved, not_a_user, unresolved, resolved, NewEnrolment, violates,
}
use ratline.TwoFactor.Redemption.{
  confirm_enrolment, confirm_resolved, confirm_row, confirmed_at_step, has_twice,
  clear_second_factor, accepts_step, stepped, is_before, PresentedFactor, totp, recovery_code,
  spend_factor, redeem_live, redeem_challenge,
}
use ratline.Runs.{
  challenging, enrolling, confirming, redeeming, clearing, Event, Transaction, step, run, commit,
  after_challenging, after_clearing,
}
use ratline.Runs.Frames.{commit-factor_tables, is_beside}

-- The step was accepted, or a later one.
abbrev pub has_reached : ℕ → Option ℕ → Bool
has_reached step none = false
has_reached step (some used) = leb step used

-- A confirmed row with this secret that has reached the step.
abbrev pub holds : ℕ → String → Enrolment → Bool
holds step secret e =
    is_some e.confirmed_at && (has_reached step e.last_used_step && str_eq e.secret_sealed secret)

-- A row of the person that does not.
unfoldable pub fails : String → String → ℕ → String → Enrolment → Bool
fails org user step secret e = is_enrolment_of org user e && not (holds step secret e)

-- The person has a confirmed row, and each row of theirs has the secret and has reached the step.
abbrev pub Held : String → String → ℕ → String → List Enrolment → Type 0
Held org user step secret rows =
    (any (fails org user step secret) rows ≡ false) × (any (is_confirmed org user) rows ≡ true)

-- Where a transaction is the person's own start of an enrolment, or a removal of their factor.
abbrev pub replaces_factor : String → String → AuthzContext → Transaction → Bool
replaces_factor org user ctx (enrolling id self input) = str_eq ctx.org_id org && is_self ctx user
replaces_factor org user ctx (clearing required subject) =
    str_eq ctx.org_id org && str_eq subject user
replaces_factor org user ctx _ = false

-- An update that leaves the rows of the person as they are.
Held-others :
    (org user secret : String) (k : ℕ) (p : Enrolment → Bool) (f : Enrolment → Enrolment)
    (rows : List Enrolment)
    → ((e : Enrolment)
        → p e ≡ true
        → fails org user k secret e ≡ false
        → fails org user k secret (f e) ≡ false)
    → ((e : Enrolment)
        → p e ≡ true
        → is_confirmed org user e ≡ true
        → is_confirmed org user (f e) ≡ true)
    → Held org user k secret rows
    → Held org user k secret (update_where p f rows)
Held-others org user secret k p f rows safe stays (good, there) = (
  update_where-any-false (fails org user k secret) p f rows safe good,
  update_where-any-true (is_confirmed org user) p f rows stays there,
)

pub Held-stepped :
    (org user secret tenant person : String) (k step : ℕ) (rows : List Enrolment)
    → Held org user k secret rows
    → Held org user k secret (update_where (accepts_step tenant person step) (stepped step) rows)
unfolding accepts_step fails is_confirmed
Held-stepped org user secret tenant person k step rows h =
    Held-others org user secret k (accepts_step tenant person step) (stepped step) rows
      (λ e p safe.
        stepped_safe e.last_used_step (is_enrolment_of org user e) (is_confirmed tenant person e)
          (is_some e.confirmed_at) (str_eq e.secret_sealed secret) p safe)
      (λ e p c. c) h
  where
    stepped_safe :
        (last : Option ℕ) (own confirmed set same : Bool)
        → (confirmed && is_before last step) ≡ true
        → (own && not (set && (has_reached k last && same))) ≡ false
        → (own && not (set && (leb k step && same))) ≡ false
    stepped_safe none own confirmed set same p safe = ground arith
    stepped_safe (some used) own confirmed set same p safe = ground arith

-- Only a pending row is confirmed.
pub Held-confirmed :
    (org user secret tenant person : String) (k now step : ℕ) (rows : List Enrolment)
    → Held org user k secret rows
    → Held org user k secret
        (update_where (is_pending tenant person) (confirmed_at_step now step) rows)
unfolding is_pending fails is_confirmed
Held-confirmed org user secret tenant person k now step rows h =
    Held-others org user secret k (is_pending tenant person) (confirmed_at_step now step) rows
      (λ e p safe. ground arith) (λ e p c. ground arith) h

-- A row of one person is none of another's.
pub not_both :
    (tenant person org user : String) (e : Enrolment)
    → (str_eq tenant org && str_eq person user) ≡ false
    → is_enrolment_of tenant person e ≡ true
    → is_enrolment_of org user e ≡ false
not_both tenant person org user e other p =
    let parts : (str_eq e.org_id tenant ≡ true) × (str_eq e.user_id person ≡ true) = ground arith in
    ap₂ (λ o u. str_eq o org && str_eq u user) ((eq_iff e.org_id tenant).0 parts.0)
      ((eq_iff e.user_id person).0 parts.1)
    ∙ other

-- The update of an enrolment of somebody else, or its insert.
Held-put_enrolment :
    (org user secret tenant person : String) (k now : ℕ) (id : String) (input : NewEnrolment)
    (there : Option Enrolment) (rows : List Enrolment)
    → (str_eq tenant org && str_eq person user) ≡ false
    → Held org user k secret rows
    → Held org user k secret (put_enrolment tenant person now id input there rows)
unfolding fails is_confirmed
Held-put_enrolment org user secret tenant person k now id input none rows other (good, there) =
    (ground (arith, other, good), ground (arith, there))
Held-put_enrolment org user secret tenant person k now id input (some old) rows other h =
    Held-others org user secret k (is_enrolment_of tenant person) (enrolled_again now input) rows
      (λ e p safe.
        let apart : is_enrolment_of org user e ≡ false =
          not_both tenant person org user e other p in
        ground (arith, apart))
      (λ e p c.
        let apart : is_enrolment_of org user e ≡ false =
          not_both tenant person org user e other p in
        ground (arith, apart))
      h

-- An enrolment that a challenge vouches for is refused where the person has a confirmed one.
Held-start_resolved :
    (org user secret person : String) (k now : ℕ) (store : Store) (ctx : AuthzContext) (id : String)
    (input : NewEnrolment) (challenge_id : Option String)
    → ((str_eq ctx.org_id org && str_eq person user) ≡ true → is_some challenge_id ≡ true)
    → Held org user k secret store.enrolments
    → Held org user k secret
        (start_resolved store ctx now id input (resolved person challenge_id)).1.enrolments
Held-start_resolved org user secret person k now store ctx id input challenge_id vouched h =
    elim (Bool-cases (is_blocked ctx.org_id person challenge_id store.enrolments)) [
      | inl e ↦ rw e h
      | inr e ↦ elim (Bool-cases (is_member ctx.org_id person store.memberships)) [
        | inr m ↦ rw (e, m) h
        | inl m ↦
            rw (e, m)
              (Held-put_enrolment org user secret ctx.org_id person k now id input _
                store.enrolments
                (unblocked challenge_id e (Bool-cases (str_eq ctx.org_id org && str_eq person user))
                  vouched)
                h)
      ]
    ]
  where
    unblocked :
        (challenge_id : Option String)
        → is_blocked ctx.org_id person challenge_id store.enrolments ≡ false
        → (((str_eq ctx.org_id org && str_eq person user) ≡ true)
            ⊎ ((str_eq ctx.org_id org && str_eq person user) ≡ false))
        → ((str_eq ctx.org_id org && str_eq person user) ≡ true → is_some challenge_id ≡ true)
        → (str_eq ctx.org_id org && str_eq person user) ≡ false
    unblocked challenge_id e (inr other) vouched = other
    unblocked none e (inl same) vouched = absurd (cc (vouched same))
    unblocked (some c) e (inl same) vouched =
        let parts : (str_eq ctx.org_id org ≡ true) × (str_eq person user ≡ true) =
          ground (arith, same) in
        let there : any (is_confirmed ctx.org_id person) store.enrolments ≡ true =
          ap₂ (λ o u. any (is_confirmed o u) store.enrolments) ((eq_iff ctx.org_id org).0 parts.0)
            ((eq_iff person user).0 parts.1)
          ∙ h.1 in
        absurd (cc (e, there))

-- Whose enrolment a subject starts.
pub Held-start_enrolment :
    (digest : String → String) (org user secret : String) (k now : ℕ) (store : Store)
    (ctx : AuthzContext) (id : String) (subject : FactorSubject) (input : NewEnrolment)
    → replaces_factor org user ctx (enrolling id subject input) ≡ false
    → Held org user k secret store.enrolments
    → Held org user k secret (start_enrolment digest store ctx now id subject input).1.enrolments
unfolding start_enrolment resolve_subject is_self
Held-start_enrolment digest org user secret k now store ctx id (challenge token) input other h =
    by_challenge (live_challenge digest store ctx now token)
  where
    by_challenge :
        (c : Option Challenge)
        → Held org user k secret
            (start_resolved store ctx now id input (resolved_challenge c)).1.enrolments
    by_challenge none = h
    by_challenge (some c) =
        Held-start_resolved org user secret c.user_id k now store ctx id input (some c.id)
          (λ same. refl) h
Held-start_enrolment digest org user secret k now store ctx id self input other h =
    by_actor ctx.actor other
  where
    by_actor :
        (a : Actor)
        → (str_eq ctx.org_id org && is_user a user) ≡ false
        → Held org user k secret
            (start_resolved store ctx now id input (resolved_self (acting_id a))).1.enrolments
    by_actor (Actor.user me) other =
        Held-start_resolved org user secret me k now store ctx id input none
          (λ same. absurd (cc (same, other))) h
    by_actor (Actor.service_identity me name) other = h
    by_actor (Actor.api_token me by) other = h
