-- ===== src/Runs/Challenges.antt =====
-- A challenge that is refused once never comes back.
pub mod Once
use ratline.Prelude.{
  ℕ, ◌≤◌, ◌≡◌, refl, sym, ap, ◌∙◌, true, false, ◌&&◌, ◌||◌, String, List, [], ◌∷◌, Option, none,
  some, any, filter, find, length, if◌then◌else◌, str_eq, eq_iff, arith, Bool-cases, inl, inr,
}
use ratline.Authz.Can.{AuthzContext, Required}
use ratline.Sessions.Table.{Enrolment, Challenge, Store, is_member}
use ratline.Sessions.Statements.{is_self, allows}
use ratline.Sessions.Rows.{
  str_eq_refl, update_where-any-false, update_where-any-true, any-weaker, find-none, find-test,
}
use ratline.TwoFactor.Statements.{
  NewChallenge, challenge_of, start_challenge, violates, is_live, is_confirmed, is_blocked,
  live_challenge, start_enrolment, start_resolved, resolve_subject, Resolved, not_a_user,
  unresolved, resolved, NewEnrolment,
}
use ratline.TwoFactor.Redemption.{
  confirm_enrolment, confirm_resolved, confirm_row, has_twice, consume, consume_if, consumed,
  clear_second_factor, PresentedFactor, totp, recovery_code, spend_factor, redeem_live,
  redeem_challenge, not_redeemed, challenge_not_live,
}
use ratline.TwoFactor.Laws.{is_redeemed, redeem_live-is_redeemed}
use ratline.Runs.{
  challenging, enrolling, confirming, redeeming, clearing, Event, Transaction, step, run, Happens,
  commit, after_challenging, after_clearing,
}
use ratline.Runs.Frames.{commit-factor_tables, is_beside}

-- Some challenge has the digest, and none that has it is live.
abbrev pub Spent : String → String → ℕ → List Challenge → Type 0
Spent org token_hash now rows =
    (any (λ c. str_eq c.token_hash token_hash) rows ≡ true)
    × (any (is_live org now token_hash) rows ≡ false)

Spent-later :
    (org token_hash : String) (now later : ℕ) (rows : List Challenge)
    → now ≤ later
    → Spent org token_hash now rows
    → Spent org token_hash later rows
unfolding is_live
Spent-later org token_hash now later rows le (taken, quiet) = (
  taken,
  any-weaker (is_live org now token_hash) (is_live org later token_hash) rows (λ c h. ground arith)
      quiet,
)

digest_is_new :
    (row : Challenge) (rows : List Challenge) (token_hash : String)
    → violates row rows ≡ false
    → any (λ c. str_eq c.token_hash token_hash) rows ≡ true
    → str_eq row.token_hash token_hash ≡ false
unfolding violates
digest_is_new row rows token_hash fits taken =
    elim (Bool-cases (str_eq row.token_hash token_hash)) [
      | inl e ↦
          let same : row.token_hash ≡ token_hash = (eq_iff row.token_hash token_hash).0 e in
          let others : any (λ c. str_eq c.id row.id || str_eq c.token_hash row.token_hash) rows
              ≡ false =
            ground arith in
          let none_has =
            any-weaker (λ c. str_eq c.id row.id || str_eq c.token_hash row.token_hash)
              (λ c. str_eq c.token_hash row.token_hash) rows (λ c h. ground arith) others in
          absurd (cc (taken, rw same at none_has))
      | inr e ↦ e
    ]

Spent-start_challenge :
    (org token_hash : String) (now : ℕ) (store : Store) (ctx : AuthzContext) (id : String)
    (input : NewChallenge)
    → Spent org token_hash now store.challenges
    → Spent org token_hash now
        (after_challenging store (start_challenge store ctx now id input)).challenges
unfolding start_challenge is_live
Spent-start_challenge org token_hash now store ctx id input (taken, quiet) =
    let row : Challenge = challenge_of ctx.org_id now id input in
    elim (Bool-cases (is_member ctx.org_id input.user_id store.memberships)) [
      | inr e ↦ rw e (taken, quiet)
      | inl e ↦ elim (Bool-cases (violates row store.challenges)) [
        | inl k ↦ rw (e, k) (taken, quiet)
        | inr k ↦
            let other = digest_is_new row store.challenges token_hash k taken in
            rw (e, k) (ground (arith, other, taken), ground (arith, other, quiet))
      ]
    ]

Spent-consume :
    (org token_hash tenant id : String) (now : ℕ) (rows : List Challenge)
    → Spent org token_hash now rows
    → Spent org token_hash now (consume tenant now id rows)
unfolding consume is_live
Spent-consume org token_hash tenant id now rows (taken, quiet) = (
  update_where-any-true (λ c. str_eq c.token_hash token_hash) _ (consumed now) rows (λ c e h. h)
      taken,
  update_where-any-false (is_live org now token_hash) _ (consumed now) rows (λ c e h. ground arith)
      quiet,
)

Spent-consume_if :
    (org token_hash tenant : String) (now : ℕ) (id : Option String) (rows : List Challenge)
    → Spent org token_hash now rows
    → Spent org token_hash now (consume_if tenant now id rows)
Spent-consume_if org token_hash tenant now none rows h = h
Spent-consume_if org token_hash tenant now (some id) rows h =
    Spent-consume org token_hash tenant id now rows h

Spent-start_resolved :
    (org token_hash : String) (at now : ℕ) (store : Store) (ctx : AuthzContext) (id : String)
    (input : NewEnrolment) (r : Resolved)
    → Spent org token_hash at store.challenges
    → Spent org token_hash at (start_resolved store ctx now id input r).1.challenges
Spent-start_resolved org token_hash at now store ctx id input not_a_user h = h
Spent-start_resolved org token_hash at now store ctx id input unresolved h = h
Spent-start_resolved org token_hash at now store ctx id input (resolved user challenge_id) h =
    elim (Bool-cases (is_blocked ctx.org_id user challenge_id store.enrolments)) [
      | inl e ↦ rw e h
      | inr e ↦ elim (Bool-cases (is_member ctx.org_id user store.memberships)) [
        | inl k ↦ rw (e, k) h
        | inr k ↦ rw (e, k) h
      ]
    ]

Spent-confirm_row :
    (org token_hash : String) (now step : ℕ) (store : Store) (ctx : AuthzContext)
    (digests : List String) (user : String) (challenge_id : Option String) (row : Option Enrolment)
    → Spent org token_hash now store.challenges
    → Spent org token_hash now
        (confirm_row store ctx now step digests user challenge_id row).1.challenges
Spent-confirm_row org token_hash now step store ctx digests user challenge_id none h = h
Spent-confirm_row org token_hash now step store ctx digests user challenge_id (some e) h =
    elim (Bool-cases (has_twice digests)) [
      | inl k ↦ rw k h
      | inr k ↦
          rw k (Spent-consume_if org token_hash ctx.org_id now challenge_id store.challenges h)
    ]

Spent-confirm_resolved :
    (org token_hash : String) (now step : ℕ) (store : Store) (ctx : AuthzContext)
    (digests : List String) (r : Resolved)
    → Spent org token_hash now store.challenges
    → Spent org token_hash now (confirm_resolved store ctx now step digests r).1.challenges
Spent-confirm_resolved org token_hash now step store ctx digests not_a_user h = h
Spent-confirm_resolved org token_hash now step store ctx digests unresolved h = h
Spent-confirm_resolved org token_hash now step store ctx digests (resolved user challenge_id) h =
    Spent-confirm_row org token_hash now step store ctx digests user challenge_id _ h

pub spend_factor-challenges :
    (store : Store) (org : String) (now : ℕ) (user : String) (factor : PresentedFactor)
    → (spend_factor store org now user factor).1.challenges ≡ store.challenges
unfolding spend_factor
spend_factor-challenges store org now user (totp step) = refl
spend_factor-challenges store org now user (recovery_code digest) = refl

Spent-redeem_live :
    (org token_hash : String) (now : ℕ) (store : Store) (ctx : AuthzContext)
    (factor : PresentedFactor) (c : Option Challenge)
    → Spent org token_hash now store.challenges
    → Spent org token_hash now (redeem_live store ctx now factor c).1.challenges
Spent-redeem_live org token_hash now store ctx factor none h = h
Spent-redeem_live org token_hash now store ctx factor (some c) h =
    elim (Bool-cases (any (is_confirmed ctx.org_id c.user_id) store.enrolments)) [
      | inr e ↦ rw e h
      | inl e ↦ elim (Bool-cases (spend_factor store ctx.org_id now c.user_id factor).0) [
        | inl k ↦
            rw (e, k)
              (Spent-consume org token_hash ctx.org_id c.id now _
                (rw (spend_factor-challenges store ctx.org_id now c.user_id factor) h))
        | inr k ↦ rw (e, k) h
      ]
    ]

clear_second_factor-challenges :
    (required : Required) (store : Store) (ctx : AuthzContext) (user : String)
    → (after_clearing store (clear_second_factor required store ctx user)).challenges
      ≡ store.challenges
unfolding clear_second_factor
clear_second_factor-challenges required store ctx user = elim (Bool-cases (is_self ctx user)) [
  | inl e ↦ rw e refl
  | inr e ↦ elim (Bool-cases (allows required)) [ inl k ↦ rw (e, k) refl | inr k ↦ rw (e, k) refl ]
]

Spent-beside :
    (digest : String → String) (org token_hash : String) (now : ℕ) (t : Transaction)
    (ctx : AuthzContext) (store : Store)
    → is_beside t ≡ true
    → Spent org token_hash now store.challenges
    → Spent org token_hash now (commit digest t ctx now store).challenges
Spent-beside digest org token_hash now t ctx store b h =
    rw (ap (λ tables. tables.2) (commit-factor_tables digest now t ctx store b)) h

Spent-commit :
    (digest : String → String) (org token_hash : String) (now : ℕ) (t : Transaction)
    (ctx : AuthzContext) (store : Store)
    → Spent org token_hash now store.challenges
    → Spent org token_hash now (commit digest t ctx now store).challenges
unfolding start_enrolment confirm_enrolment redeem_challenge
Spent-commit digest org token_hash now (challenging id input) ctx store h =
    Spent-start_challenge org token_hash now store ctx id input h
Spent-commit digest org token_hash now (enrolling id subject input) ctx store h =
    Spent-start_resolved org token_hash now now store ctx id input
      (resolve_subject digest store ctx now subject) h
Spent-commit digest org token_hash now (confirming subject step digests) ctx store h =
    Spent-confirm_resolved org token_hash now step store ctx digests
      (resolve_subject digest store ctx now subject) h
Spent-commit digest org token_hash now (redeeming token factor) ctx store h =
    Spent-redeem_live org token_hash now store ctx factor
      (live_challenge digest store ctx now token) h
Spent-commit digest org token_hash now (clearing required user) ctx store h =
    rw (clear_second_factor-challenges required store ctx user) h
Spent-commit digest org token_hash now t ctx store h =
    Spent-beside digest org token_hash now t ctx store refl h

pub Spent-run :
    (digest : String → String) (org token_hash : String) (events : List Event) (start end : ℕ)
    (store : Store)
    → Happens start events end
    → Spent org token_hash start store.challenges
    → Spent org token_hash end (run digest events store).challenges
unfolding run step
Spent-run digest org token_hash [] start end store h spent =
    Spent-later org token_hash start end store.challenges h spent
Spent-run digest org token_hash (e ∷ events) start end store (le, rest) spent =
    Spent-run digest org token_hash events e.at end (commit digest e.transaction e.ctx e.at store)
      rest
      (Spent-commit digest org token_hash e.at e.transaction e.ctx store
        (Spent-later org token_hash start e.at store.challenges le spent))
