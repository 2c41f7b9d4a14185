-- ===== src/Runs/Factors/Steps.antt =====
-- What each transaction, and a run, does to a confirmed factor.
use ratline.Prelude.{
  ℕ, ◌≡◌, refl, ap, Bool, true, false, not, ◌&&◌, ◌||◌, String, List, [], ◌∷◌, Option, none, some,
  any, str_eq, arith, Bool-cases, inl, inr, All,
}
use ratline.Authz.Can.{AuthzContext, Required}
use ratline.Sessions.Table.{Enrolment, Challenge, Store, is_member, first_row, updated_rows}
use ratline.Sessions.Statements.{is_self, allows}
use ratline.Sessions.Rows.{filter-any-true, filter-any-false}
use ratline.TwoFactor.Statements.{
  NewChallenge, challenge_of, start_challenge, is_confirmed, is_pending, is_enrolment_of,
  live_challenge, resolve_subject, Resolved, not_a_user, unresolved, resolved, violates,
}
use ratline.TwoFactor.Redemption.{
  confirm_enrolment, confirm_resolved, confirm_row, confirmed_at_step, has_twice,
  clear_second_factor, PresentedFactor, totp, recovery_code, spend_factor, redeem_live,
  redeem_challenge,
}
use ratline.Runs.{
  challenging, enrolling, confirming, redeeming, clearing, Event, Transaction, step, run, commit,
  after_challenging, after_clearing,
}
use ratline.Runs.Frames.{commit-factor_tables, is_beside}
use ratline.Runs.Factors.{
  Held, Held-confirmed, Held-start_enrolment, Held-stepped, fails, not_both, replaces_factor,
}

Held-confirm_resolved :
    (org user secret : String) (k now step : ℕ) (store : Store) (ctx : AuthzContext)
    (digests : List String) (r : Resolved)
    → Held org user k secret store.enrolments
    → Held org user k secret (confirm_resolved store ctx now step digests r).1.enrolments
Held-confirm_resolved org user secret k now step store ctx digests not_a_user h = h
Held-confirm_resolved org user secret k now step store ctx digests unresolved h = h
Held-confirm_resolved org user secret k now step store ctx digests (resolved person challenge_id)
      h =
    by_row (
      first_row
        (updated_rows (is_pending ctx.org_id person) (confirmed_at_step now step) store.enrolments))
  where
    by_row :
        (row : Option Enrolment)
        → Held org user k secret
            (confirm_row store ctx now step digests person challenge_id row).1.enrolments
    by_row none = h
    by_row (some e) = elim (Bool-cases (has_twice digests)) [
      | inl t ↦ rw t h
      | inr t ↦
          rw t (Held-confirmed org user secret ctx.org_id person k now step store.enrolments h)
    ]

Held-spend_factor :
    (org user secret tenant person : String) (k now : ℕ) (store : Store) (factor : PresentedFactor)
    → Held org user k secret store.enrolments
    → Held org user k secret (spend_factor store tenant now person factor).1.enrolments
unfolding spend_factor
Held-spend_factor org user secret tenant person k now store (totp step) h =
    Held-stepped org user secret tenant person k step store.enrolments h
Held-spend_factor org user secret tenant person k now store (recovery_code digest) h = h

Held-redeem_live :
    (org user secret : String) (k now : ℕ) (store : Store) (ctx : AuthzContext)
    (factor : PresentedFactor) (c : Option Challenge)
    → Held org user k secret store.enrolments
    → Held org user k secret (redeem_live store ctx now factor c).1.enrolments
Held-redeem_live org user secret k now store ctx factor none h = h
Held-redeem_live org user secret k now store ctx factor (some c) h =
    elim (Bool-cases (any (is_confirmed ctx.org_id c.user_id) store.enrolments)) [
      | inr e ↦ rw e h
      | inl e ↦ elim (Bool-cases (spend_factor store ctx.org_id now c.user_id factor).0) [
        | inl s ↦
            rw (e, s) (Held-spend_factor org user secret ctx.org_id c.user_id k now store factor h)
        | inr s ↦ rw (e, s) h
      ]
    ]

Held-clear_second_factor :
    (org user secret subject : String) (k : ℕ) (required : Required) (store : Store)
    (ctx : AuthzContext)
    → (str_eq ctx.org_id org && str_eq subject user) ≡ false
    → Held org user k secret store.enrolments
    → Held org user k secret
        (after_clearing store (clear_second_factor required store ctx subject)).enrolments
unfolding clear_second_factor is_confirmed
Held-clear_second_factor org user secret subject k required store ctx other h =
    elim (Bool-cases (is_self ctx subject)) [
      | inl e ↦ rw e h
      | inr e ↦ elim (Bool-cases (allows required)) [
        | inr a ↦ rw (e, a) h
        | inl a ↦
            let kept : Enrolment → Bool = λ e. not (
              is_enrolment_of ctx.org_id subject e
              && is_member ctx.org_id subject store.memberships) in
            rw (e, a)
              (
                filter-any-false kept (fails org user k secret) store.enrolments h.0,
                filter-any-true kept (is_confirmed org user) store.enrolments
                    (λ e c. elim (Bool-cases (is_enrolment_of ctx.org_id subject e)) [
                      | inl p ↦
                          let apart : is_enrolment_of org user e ≡ false =
                            not_both ctx.org_id subject org user e other p in
                          absurd (
                            let no_longer : is_enrolment_of org user e ≡ true = ground arith in
                            cc (apart, no_longer))
                      | inr p ↦ rw p refl
                    ])
                    h.1,
              )
      ]
    ]

Held-beside :
    (digest : String → String) (org user secret : String) (k now : ℕ) (t : Transaction)
    (ctx : AuthzContext) (store : Store)
    → is_beside t ≡ true
    → Held org user k secret store.enrolments
    → Held org user k secret (commit digest t ctx now store).enrolments
Held-beside digest org user secret k now t ctx store b h =
    rw (ap (λ tables. tables.0) (commit-factor_tables digest now t ctx store b)) h

start_challenge-enrolments :
    (store : Store) (ctx : AuthzContext) (now : ℕ) (id : String) (input : NewChallenge)
    → (after_challenging store (start_challenge store ctx now id input)).enrolments
      ≡ store.enrolments
unfolding start_challenge
start_challenge-enrolments store ctx now id input =
    elim (Bool-cases (
      not (is_member ctx.org_id input.user_id store.memberships)
      || violates (challenge_of ctx.org_id now id input) store.challenges)) [
        | inl e ↦ rw e refl
        | inr e ↦ rw e refl
      ]

Held-commit :
    (digest : String → String) (org user secret : String) (k now : ℕ) (t : Transaction)
    (ctx : AuthzContext) (store : Store)
    → replaces_factor org user ctx t ≡ false
    → Held org user k secret store.enrolments
    → Held org user k secret (commit digest t ctx now store).enrolments
unfolding confirm_enrolment redeem_challenge
Held-commit digest org user secret k now (challenging id input) ctx store other h =
    rw (start_challenge-enrolments store ctx now id input) h
Held-commit digest org user secret k now (enrolling id subject input) ctx store other h =
    Held-start_enrolment digest org user secret k now store ctx id subject input other h
Held-commit digest org user secret k now (confirming subject step digests) ctx store other h =
    Held-confirm_resolved org user secret k now step store ctx digests
      (resolve_subject digest store ctx now subject) h
Held-commit digest org user secret k now (redeeming token factor) ctx store other h =
    Held-redeem_live org user secret k now store ctx factor
      (live_challenge digest store ctx now token) h
Held-commit digest org user secret k now (clearing required subject) ctx store other h =
    Held-clear_second_factor org user secret subject k required store ctx other h
Held-commit digest org user secret k now t ctx store other h =
    Held-beside digest org user secret k now t ctx store refl h

-- None of the events is the person's own start of an enrolment, or a removal of their factor.
abbrev pub LeavesFactor : String → String → List Event → Type 0
LeavesFactor org user events =
    All (λ e. replaces_factor org user e.ctx e.transaction ≡ false) events

pub Held-run :
    (digest : String → String) (org user secret : String) (k : ℕ) (events : List Event)
    (store : Store)
    → LeavesFactor org user events
    → Held org user k secret store.enrolments
    → Held org user k secret (run digest events store).enrolments
unfolding run step
Held-run digest org user secret k [] store leaves h = h
Held-run digest org user secret k (e ∷ events) store leaves h =
    Held-run digest org user secret k events (commit digest e.transaction e.ctx e.at store) leaves.1
      (Held-commit digest org user secret k e.at e.transaction e.ctx store leaves.0 h)
