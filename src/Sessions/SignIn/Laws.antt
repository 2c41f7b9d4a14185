-- ===== src/Sessions/SignIn/Laws.antt =====
-- The steps of a sign-in that issued a session.
use ratline.Prelude.{
  ℕ, ◌≤◌, ◌≡◌, ◌≢◌, refl, sym, ap, ap₂, ◌∙◌, Bool, true, false, String, List, ◌∷◌, Option, none,
  some, any, str_eq, arith, Bool-cases, inl, inr,
}
use ratline.Authz.Can.{AuthzContext}
use ratline.Sessions.Table.{SessionEndReason, Session, Store, is_live, has_hash}
use ratline.Sessions.Statements.{
  PasswordCredential, NewSession, session_of, Written, not_a_member, constraint_violated, written,
  end_sessions, revoke_session_by_token,
}
use ratline.Sessions.SignIn.{
  SecondFactorDemand, no_demand, verify, no_password_set, credential_rejected, account_disabled,
  unknown_account, enrol, demand_for, signed_in, sign_in_refused, sign_in_failed, SignInInput,
  Minted, IssuedSession, or_else, issued_challenge, issued, issue_session, by_demand,
  retire_presented, with_stored, with_credential,
}
use ratline.TwoFactor.Statements.{
  read_second_factor_requirement, policy_requires, Challenged, not_challenged, challenged,
}
use ratline.Sessions.Rows.{any-weaker}
use ratline.Runs.Sessions.{accepts}
use ratline.Runs.Rotation.{write_session-written, end_sessions-accepts}

issued_challenge-signed_in :
    (required : Bool) (token : String) (store : Store) (c : Challenged) (i : IssuedSession)
    (must : Bool) (after : Store)
    → issued_challenge required token store c ≢ (signed_in i must, after)
issued_challenge-signed_in required token store not_challenged i must after h =
    let k : sign_in_failed ≡ signed_in i must = ap (λ p. p.0) h in cc k
issued_challenge-signed_in required token store (challenged row s) i must after h =
    let k : (issued_challenge required token store (challenged row s)).0 ≡ signed_in i must =
      ap (λ p. p.0) h in
    cc k

issued-signed_in :
    (token : String) (rehash : Bool) (store : Store) (w : Written) (i : IssuedSession) (must : Bool)
    (after : Store)
    → issued token rehash store w ≡ (signed_in i must, after)
    → (w ≡ written i.session after) × (i.token ≡ token) × (must ≡ rehash)
issued-signed_in token rehash store not_a_member i must after h =
    absurd (let k : sign_in_failed ≡ signed_in i must = ap (λ p. p.0) h in cc k)
issued-signed_in token rehash store constraint_violated i must after h =
    absurd (let k : sign_in_failed ≡ signed_in i must = ap (λ p. p.0) h in cc k)
issued-signed_in token rehash store (written row s) i must after h =
    let k : signed_in (record { session = row; token = token }) rehash ≡ signed_in i must =
      ap (λ p. p.0) h in
    let same = the_issued k in
    (
      ap₂ written (ap (λ i. i.session) same) (ap (λ p. p.1) h),
      sym (ap (λ i. i.token) same),
      sym (the_flag k),
    )
  where
    the_issued : {a b : IssuedSession} {x y : Bool} → signed_in a x ≡ signed_in b y → a ≡ b
    the_issued g = cc g

    the_flag : {a b : IssuedSession} {x y : Bool} → signed_in a x ≡ signed_in b y → x ≡ y
    the_flag g = cc g

-- A row under another digest, before rows none of which accepts.
pub presented_out :
    (row : Session) (rows : List Session) (org token_hash : String) (now later : ℕ)
    → str_eq row.token_hash token_hash ≡ false
    → any (accepts org token_hash now) rows ≡ false
    → now ≤ later
    → any (accepts org token_hash later) (row ∷ rows) ≡ false
unfolding has_hash is_live
presented_out row rows org token_hash now later other quiet le =
    let rest =
      any-weaker (accepts org token_hash now) (accepts org token_hash later) rows
        (λ s h. ground arith) quiet in
    ground (arith, other, rest)

module _ (same_email : String → String → Bool) (verify_password : Option String → String → Bool)
    (needs_rehash : String → Bool) (digest : String → String) where
  -- What retiring the presented token leaves.
  retire_presented-demand_for :
      (store : Store) (ctx : AuthzContext) (now : ℕ) (presented user : String)
      → demand_for
          (retire_presented same_email verify_password needs_rehash digest store ctx now
            presented).1
          ctx
          user
        ≡ demand_for store ctx user
  unfolding retire_presented revoke_session_by_token end_sessions read_second_factor_requirement
      policy_requires
  retire_presented-demand_for store ctx now presented user =
      elim (Bool-cases (str_eq presented "")) [ inl e ↦ rw e refl | inr e ↦ rw e refl ]

  pub retire_presented-accepts :
      (store : Store) (ctx : AuthzContext) (now : ℕ) (presented : String)
      → str_eq presented "" ≡ false
      → any
          (accepts ctx.org_id (digest presented) now)
          (retire_presented same_email verify_password needs_rehash digest store ctx now
            presented).1.sessions
        ≡ false
  unfolding retire_presented revoke_session_by_token end_sessions
  retire_presented-accepts store ctx now presented h = rw h (
      end_sessions-accepts ctx.org_id (digest presented) now SessionEndReason.rotated
        store.sessions)

  -- The store in which the session was written.
  abbrev pub retired : Store → AuthzContext → ℕ → SignInInput → Store
  retired store ctx now input =
      (retire_presented same_email verify_password needs_rehash digest store ctx now
        (or_else "" input.presented_token)).1

  -- What a sign-in that succeeded rests on.
  abbrev pub Rests :
      Store
      → AuthzContext
      → ℕ
      → ℕ
      → Minted
      → SignInInput
      → PasswordCredential
      → String
      → IssuedSession
      → Bool
      → Store
      → Type 0
  Rests store ctx now date_now minted input credential stored i must after =
      (verify_password (some stored) input.password ≡ true)
      × (demand_for store ctx credential.user_id ≡ no_demand)
      × ((session : NewSession) × (i.session ≡ session_of ctx.org_id now minted.row_id session)
          × (session.user_id ≡ credential.user_id)
          × (session.token_digest ≡ digest minted.token)
          × (after.sessions ≡ i.session ∷ (retired store ctx now input).sessions))
      × (i.token ≡ minted.token)
      × (must ≡ needs_rehash stored)

  by_demand-signed_in :
      (store : Store) (ctx : AuthzContext) (now date_now : ℕ) (minted : Minted)
      (input : SignInInput) (user stored : String) (ended : Option Session)
      (demand : SecondFactorDemand) (i : IssuedSession) (must : Bool) (after : Store)
      → by_demand same_email verify_password needs_rehash digest store ctx now date_now minted input
          user stored ended demand
        ≡ (signed_in i must, after)
      → (demand ≡ no_demand)
        × (issue_session same_email verify_password needs_rehash digest store ctx now date_now
              minted input user stored ended
            ≡ (signed_in i must, after))
  by_demand-signed_in store ctx now date_now minted input user stored ended no_demand i must after
        h =
      (refl, h)
  by_demand-signed_in store ctx now date_now minted input user stored ended verify i must after h =
      absurd (issued_challenge-signed_in false minted.token store _ i must after h)
  by_demand-signed_in store ctx now date_now minted input user stored ended enrol i must after h =
      absurd (issued_challenge-signed_in true minted.token store _ i must after h)

  issue_session-signed_in :
      (store : Store) (ctx : AuthzContext) (now date_now : ℕ) (minted : Minted)
      (input : SignInInput) (user stored : String) (ended : Option Session) (i : IssuedSession)
      (must : Bool) (after : Store)
      → issue_session same_email verify_password needs_rehash digest store ctx now date_now minted
          input user stored ended
        ≡ (signed_in i must, after)
      → ((session : NewSession) × (i.session ≡ session_of ctx.org_id now minted.row_id session)
          × (session.user_id ≡ user)
          × (session.token_digest ≡ digest minted.token)
          × (after.sessions ≡ i.session ∷ store.sessions))
        × (i.token ≡ minted.token)
        × (must ≡ needs_rehash stored)
  issue_session-signed_in store ctx now date_now minted input user stored ended i must after h =
      let (wrote, token, flag) =
        issued-signed_in minted.token (needs_rehash stored) store _ i must after h in
      let (fits, row, holds) =
        write_session-written store ctx.org_id now minted.row_id _ i.session after wrote in
      ((_, row, refl, refl, holds ∙ ap (λ r. r ∷ store.sessions) (sym row)), token, flag)

  with_stored-signed_in :
      (store : Store) (ctx : AuthzContext) (now date_now : ℕ) (minted : Minted)
      (input : SignInInput) (credential : PasswordCredential) (hash : Option String)
      (i : IssuedSession) (must : Bool) (after : Store)
      → with_stored same_email verify_password needs_rehash digest store ctx now date_now minted
          input credential hash
        ≡ (signed_in i must, after)
      → (stored : String) × (hash ≡ some stored)
        × Rests store ctx now date_now minted input credential stored i must after
  with_stored-signed_in store ctx now date_now minted input credential none i must after h =
      absurd (let k : sign_in_refused no_password_set ≡ signed_in i must = ap (λ p. p.0) h in cc k)
  with_stored-signed_in store ctx now date_now minted input credential (some stored) i must after
        h =
      elim (Bool-cases (verify_password (some stored) input.password)) [
        | inr e ↦ absurd (
            let k : sign_in_refused credential_rejected ≡ signed_in i must =
              ap (λ p. p.0) (rw e at h) in
            cc k)
        | inl e ↦
            let (owed, wrote) =
              by_demand-signed_in (retired store ctx now input) ctx now date_now minted input
                credential.user_id stored _ _ i must after (rw e at h) in
            let (row, token, flag) =
              issue_session-signed_in (retired store ctx now input) ctx now date_now minted input
                credential.user_id stored _ i must after wrote in
            (
              stored,
              refl,
              (
                e,
                sym (
                      retire_presented-demand_for store ctx now (or_else "" input.presented_token)
                        credential.user_id)
                    ∙ owed,
                row,
                token,
                flag,
              ),
            )
      ]

  pub with_credential-signed_in :
      (store : Store) (ctx : AuthzContext) (now date_now : ℕ) (minted : Minted)
      (input : SignInInput) (found : Option PasswordCredential) (i : IssuedSession) (must : Bool)
      (after : Store)
      → with_credential same_email verify_password needs_rehash digest store ctx now date_now minted
          input found
        ≡ (signed_in i must, after)
      → (credential : PasswordCredential) × (stored : String) × (found ≡ some credential)
        × (credential.disabled ≡ false)
        × (credential.stored_hash ≡ some stored)
        × Rests store ctx now date_now minted input credential stored i must after
  with_credential-signed_in store ctx now date_now minted input none i must after h =
      absurd (let k : sign_in_refused unknown_account ≡ signed_in i must = ap (λ p. p.0) h in cc k)
  with_credential-signed_in store ctx now date_now minted input (some credential) i must after h =
      elim (Bool-cases credential.disabled) [
        | inl e ↦ absurd (
            let k : sign_in_refused account_disabled ≡ signed_in i must =
              ap (λ p. p.0) (rw e at h) in
            cc k)
        | inr e ↦
            let (stored, hash, rests) =
              with_stored-signed_in store ctx now date_now minted input credential
                credential.stored_hash i must after (rw e at h) in
            (credential, stored, refl, e, hash, rests)
      ]
