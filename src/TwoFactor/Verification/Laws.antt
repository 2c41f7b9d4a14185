-- ===== src/TwoFactor/Verification/Laws.antt =====
-- What a second factor that was accepted proved.
use ratline.Prelude.{
  ℕ, ◌≡◌, refl, sym, ap, subst, ◌∙◌, true, ◌&&◌, String, List, ◌∷◌, Option, none, some, any, str_eq,
  arith, Bool-cases, inl, inr,
}
use ratline.Prelude.Text.{Text}
use ratline.Authz.Grants.{Decision}
use ratline.Authz.Can.{AuthzContext}
use ratline.Totp.Code.{Hmac}
use ratline.Totp.Verification.{Verified, not_a_period, verified, verify_totp}
use ratline.Sessions.Table.{
  Enrolment, Challenge, Session, Store, is_member, AuditEntry, AuditReason, record_audit,
}
use ratline.Sessions.Statements.{
  NewSession, Written, not_a_member, constraint_violated, written, session_of, violates,
  write_session,
}
use ratline.Sessions.SignIn.{IssuedSession, Minted}
use ratline.TwoFactor.Statements.{challenge, live_challenge, is_confirmed}
use ratline.TwoFactor.Redemption.{
  find_confirmed_enrolment, PresentedFactor, totp, recovery_code, ChallengeRedemption, not_redeemed,
  redeemed, redeem_challenge, spend_factor,
}
use ratline.TwoFactor.Laws.{redeem_challenge-redeemed, redeem_challenge-some}
use ratline.TwoFactor.Verification.{
  totp_accepted_steps, VerificationInput, second_factor_failed, second_factor_refused,
  second_factor_accepted, answer_of, verify_opened, audit_recovery, accepted_with, after_redemption,
  factor_of, with_step, with_enrolment, verify_second_factor,
}
use ratline.Sessions.Rows.{str_eq_refl}
use ratline.Runs.{after_writing}
use ratline.Runs.Rotation.{write_session-written}

-- The audit log tells of a recovery code, when one was spent for the person.
abbrev pub Noted : String → PresentedFactor → List AuditEntry → Type 0
Noted user (totp step) entries = Unit
Noted user (recovery_code digest) entries =
    any (λ a. str_eq a.action "two_factor.recovery_code_used" && str_eq a.resource_id user) entries
    ≡ true

-- A step was that of a code under the secret of the enrolment; a recovery code is the digest of what
-- was presented.
abbrev pub Proves :
    Hmac
    → (String → Option (List ℕ))
    → (Text → String)
    → VerificationInput
    → Enrolment
    → PresentedFactor
    → Type 0
Proves hmac open_secret code_digest input e (totp step) =
    (secret : List ℕ) × (open_secret e.secret_sealed ≡ some secret)
    × (verify_totp hmac secret input.presented e.parameters input.at_ms totp_accepted_steps
        ≡ verified (some step))
Proves hmac open_secret code_digest input e (recovery_code digest) =
    digest ≡ code_digest input.presented

accepted_with-accepted :
    (ctx : AuthzContext) (token user : String) (factor given : PresentedFactor) (n left : ℕ)
    (store : Store) (w : Written) (i : IssuedSession) (after : Store)
    → accepted_with ctx token user factor n store w ≡ (second_factor_accepted i given left, after)
    → (factor ≡ given)
      × (i.token ≡ token)
      × ((s : Store) × (w ≡ written i.session s)
          × (after ≡ (accepted_with ctx token user factor n store (written i.session s)).1))
accepted_with-accepted ctx token user factor given n left store not_a_member i after h =
    absurd
      (let k : second_factor_failed ≡ second_factor_accepted i given left = ap (λ p. p.0) h in cc k)
accepted_with-accepted ctx token user factor given n left store constraint_violated i after h =
    absurd
      (let k : second_factor_failed ≡ second_factor_accepted i given left = ap (λ p. p.0) h in cc k)
accepted_with-accepted ctx token user factor given n left store (written row s) i after h =
    let k : second_factor_accepted (record { session = row; token = token }) factor n
        ≡ second_factor_accepted i given left =
      ap (λ p. p.0) h in
    let same = the_issued k in
    (
      the_factor k,
      sym (ap (λ i. i.token) same),
      (s, ap (λ i. written i.session s) same, sym (ap (λ p. p.1) h)),
    )
  where
    the_issued :
        {a b : IssuedSession} {f g : PresentedFactor} {n m : ℕ}
        → second_factor_accepted a f n ≡ second_factor_accepted b g m
        → a ≡ b
    the_issued e = cc e

    the_factor :
        {a b : IssuedSession} {f g : PresentedFactor} {n m : ℕ}
        → second_factor_accepted a f n ≡ second_factor_accepted b g m
        → f ≡ g
    the_factor e = cc e

-- A session that is written leaves the audit log.
write_session-audit :
    (store : Store) (org : String) (now : ℕ) (id : String) (input : NewSession)
    → (after_writing store (write_session store org now id input)).audit ≡ store.audit
unfolding write_session
write_session-audit store org now id input =
    elim (Bool-cases (is_member org input.user_id store.memberships)) [
      | inr e ↦ rw e refl
      | inl e ↦ elim (Bool-cases (violates (session_of org now id input) store.sessions)) [
        | inl k ↦ rw (e, k) refl
        | inr k ↦ rw (e, k) refl
      ]
    ]

audit_recovery-Noted :
    (ctx : AuthzContext) (user : String) (factor : PresentedFactor) (store : Store)
    → Noted user factor (audit_recovery ctx user factor store).audit
unfolding record_audit
audit_recovery-Noted ctx user (totp step) store = tt
audit_recovery-Noted ctx user (recovery_code digest) store =
    let same : str_eq user user ≡ true = str_eq_refl user in rw same refl

Noted-later :
    (user : String) (factor : PresentedFactor) (a : AuditEntry) (entries : List AuditEntry)
    → Noted user factor entries
    → Noted user factor (a ∷ entries)
Noted-later user (totp step) a entries h = h
Noted-later user (recovery_code digest) a entries h = rw h (ground arith)

Noted-record_audit :
    (ctx : AuthzContext) (user : String) (factor : PresentedFactor) (word : AuditReason)
    (store : Store)
    → Noted user factor store.audit
    → Noted user factor
        (record_audit ctx "two_factor.verify" "member" user Decision.allow word store).audit
unfolding record_audit
Noted-record_audit ctx user factor word store h = Noted-later user factor _ store.audit h

answer_of-some : (v : Verified) (step : Option ℕ) → answer_of v ≡ some step → v ≡ verified step
answer_of-some not_a_period step h = absurd (cc h)
answer_of-some (verified r) step h = ap verified (cc h)

module _ (hmac : Hmac) (open_secret : String → Option (List ℕ)) (code_digest : Text → String)
    (digest : String → String) where
  -- What an accepted second factor rests on.
  abbrev pub Rests :
      Store
      → AuthzContext
      → ℕ
      → VerificationInput
      → IssuedSession
      → PresentedFactor
      → Store
      → Type 0
  Rests store ctx now input i factor after =
      (c : Challenge) × (live_challenge digest store ctx now input.challenge_token ≡ some c)
      × (any (is_confirmed ctx.org_id c.user_id) store.enrolments ≡ true)
      × ((spend_factor store ctx.org_id now c.user_id factor).0 ≡ true)
      × (i.session.user_id ≡ c.user_id)
      × Noted c.user_id factor after.audit

  -- The session stands in the table, under the digest of the token that was minted.
  abbrev pub IsIssued : Minted → IssuedSession → Store → Type 0
  IsIssued minted i after =
      (i.token ≡ minted.token)
      × (i.session.token_hash ≡ digest minted.token)
      × (rest : List Session) × (after.sessions ≡ i.session ∷ rest)

  after_redemption-accepted :
      (store : Store) (ctx : AuthzContext) (now date_now : ℕ) (minted : Minted)
      (input : VerificationInput) (person : String) (r : ChallengeRedemption) (i : IssuedSession)
      (given : PresentedFactor) (left : ℕ) (after : Store)
      → after_redemption hmac open_secret code_digest digest ctx now date_now minted input person r
          store
        ≡ (second_factor_accepted i given left, after)
      → (user : String) × (n : ℕ) × (r ≡ redeemed user given n)
        × (i.session.user_id ≡ user)
        × IsIssued minted i after
        × Noted user given after.audit
  unfolding record_audit
  after_redemption-accepted store ctx now date_now minted input person (not_redeemed refusal) i
        given left after h =
      absurd (
        let k : second_factor_refused refusal ≡ second_factor_accepted i given left =
          ap (λ p. p.0) h in
        cc k)
  after_redemption-accepted store ctx now date_now minted input person (redeemed user factor n) i
        given left after h =
      let noted : Store = audit_recovery ctx user factor store in
      let (same, token, (s, wrote, end)) =
        accepted_with-accepted ctx minted.token user factor given n left noted _ i after h in
      let (fits, row, holds) =
        write_session-written noted ctx.org_id now minted.row_id _ i.session s wrote in
      let kept : s.audit ≡ noted.audit =
        sym (ap (λ w. (after_writing noted w).audit) wrote)
        ∙ write_session-audit noted ctx.org_id now minted.row_id _ in
      (
        user,
        n,
        ap (λ f. redeemed user f n) same,
        ap (λ s. s.user_id) row,
        (
          token,
          ap (λ s. s.token_hash) row,
          noted.sessions,
          ap (λ w. w.sessions) end ∙ holds ∙ ap (λ r. r ∷ noted.sessions) (sym row),
        ),
        subst (λ f. Noted user f after.audit) same
            (rw end (
              Noted-record_audit ctx user factor _ s
                (rw kept (audit_recovery-Noted ctx user factor store)))),
      )

  with_step-accepted :
      (store : Store) (ctx : AuthzContext) (now date_now : ℕ) (minted : Minted)
      (input : VerificationInput) (person : String) (answer : Option (Option ℕ)) (i : IssuedSession)
      (given : PresentedFactor) (left : ℕ) (after : Store)
      → with_step hmac open_secret code_digest digest store ctx now date_now minted input person
          answer
        ≡ (second_factor_accepted i given left, after)
      → (step : Option ℕ) × (answer ≡ some step)
        × (factor_of hmac open_secret code_digest digest input.presented step ≡ given)
        × Rests store ctx now input i given after
        × IsIssued minted i after
  with_step-accepted store ctx now date_now minted input person none i given left after h =
      absurd (
        let k : second_factor_failed ≡ second_factor_accepted i given left = ap (λ p. p.0) h in
        cc k)
  with_step-accepted store ctx now date_now minted input person (some step) i given left after h =
      let factor : PresentedFactor =
        factor_of hmac open_secret code_digest digest input.presented step in
      let redemption = redeem_challenge digest store ctx now input.challenge_token factor in
      let (user, n, accepted, theirs, token, noted) =
        after_redemption-accepted redemption.1 ctx now date_now minted input person redemption.0 i
          given left after h in
      let (c, live, person_of, same) =
        redeem_challenge-some digest store ctx now input.challenge_token factor user given n
          accepted in
      let (confirmed, spent, kept) =
        redeem_challenge-redeemed digest store ctx now input.challenge_token factor user given n
          accepted in
      let who : user ≡ c.user_id = sym person_of in
      (
        step,
        refl,
        same,
        (
          c,
          live,
          subst (λ u. any (is_confirmed ctx.org_id u) store.enrolments ≡ true) who confirmed,
          subst (λ f. (spend_factor store ctx.org_id now c.user_id f).0 ≡ true) same
              (subst (λ u. (spend_factor store ctx.org_id now u factor).0 ≡ true) who spent),
          theirs ∙ who,
          subst (λ u. Noted u given after.audit) who noted,
        ),
        token,
      )

  verify_opened-Proves :
      (input : VerificationInput) (e : Enrolment) (opened : Option (List ℕ)) (step : Option ℕ)
      (given : PresentedFactor)
      → open_secret e.secret_sealed ≡ opened
      → verify_opened hmac e input.presented input.at_ms opened ≡ some step
      → factor_of hmac open_secret code_digest digest input.presented step ≡ given
      → Proves hmac open_secret code_digest input e given
  verify_opened-Proves input e none step given o h same = absurd (cc h)
  verify_opened-Proves input e (some secret) none given o h same =
      subst (Proves hmac open_secret code_digest input e) same refl
  verify_opened-Proves input e (some secret) (some step) given o h same =
      subst (Proves hmac open_secret code_digest input e) same (
        secret,
        o,
        answer_of-some
            (verify_totp hmac secret input.presented e.parameters input.at_ms totp_accepted_steps)
            (some step) h,
      )

  with_enrolment-accepted :
      (store : Store) (ctx : AuthzContext) (now date_now : ℕ) (minted : Minted)
      (input : VerificationInput) (found : Option Enrolment) (i : IssuedSession)
      (given : PresentedFactor) (left : ℕ) (after : Store)
      → with_enrolment hmac open_secret code_digest digest store ctx now date_now minted input found
        ≡ (second_factor_accepted i given left, after)
      → (e : Enrolment) × (found ≡ some e)
        × Proves hmac open_secret code_digest input e given
        × Rests store ctx now input i given after
        × IsIssued minted i after
  with_enrolment-accepted store ctx now date_now minted input none i given left after h = absurd (
      let k : second_factor_refused _ ≡ second_factor_accepted i given left = ap (λ p. p.0) h in
      cc k)
  with_enrolment-accepted store ctx now date_now minted input (some e) i given left after h =
      let (step, answered, same, rests, token) =
        with_step-accepted store ctx now date_now minted input e.user_id _ i given left after h in
      (
        e,
        refl,
        verify_opened-Proves input e (open_secret e.secret_sealed) step given refl answered same,
        rests,
        token,
      )

  -- A second factor that was accepted put a session of the person of a live challenge in the table,
  -- under the digest of the token that was minted and is handed out. The person has a confirmed enrolment, and the factor was not spent: it is
  -- the step that `verifyTotp` answers, with a window of one step, for the presented text under the
  -- secret of the enrolment that was found; or it is the digest of what was presented, as an unused
  -- recovery code, and then the audit log tells of it.
  pub verify_second_factor-accepted :
      (store : Store) (ctx : AuthzContext) (now date_now : ℕ) (minted : Minted)
      (input : VerificationInput) (i : IssuedSession) (given : PresentedFactor) (left : ℕ)
      (after : Store)
      → verify_second_factor hmac open_secret code_digest digest store ctx now date_now minted input
        ≡ (second_factor_accepted i given left, after)
      → ((e : Enrolment) × (find_confirmed_enrolment digest store ctx now
              (challenge input.challenge_token)
            ≡ some e)
          × Proves hmac open_secret code_digest input e given)
        × ((c : Challenge) × (live_challenge digest store ctx now input.challenge_token ≡ some c)
            × (any (is_confirmed ctx.org_id c.user_id) store.enrolments ≡ true)
            × ((spend_factor store ctx.org_id now c.user_id given).0 ≡ true)
            × (i.session.user_id ≡ c.user_id)
            × Noted c.user_id given after.audit)
        × IsIssued minted i after
  unfolding verify_second_factor
  verify_second_factor-accepted store ctx now date_now minted input i given left after h =
      let (e, found, proves, rests, token) =
        with_enrolment-accepted store ctx now date_now minted input _ i given left after h in
      ((e, found, proves), rests, token)
