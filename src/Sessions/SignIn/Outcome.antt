-- ===== src/Sessions/SignIn/Outcome.antt =====
-- What a sign-in that issued a session found, and what it did to the token that it was shown.
use ratline.Prelude.{
  ℕ, ◌≤◌, ◌≡◌, sym, ap, ◌∙◌, subst, Bool, true, false, String, Option, none, some, any, str_eq,
}
use ratline.Authz.Can.{AuthzContext}
use ratline.Sessions.Table.{Store}
use ratline.Sessions.Statements.{PasswordCredential, find_password_credential, use_session_token}
use ratline.Sessions.SignIn.{
  no_demand, demand_for, signed_in, SignInInput, Minted, IssuedSession, or_else, retire_presented,
  sign_in,
}
use ratline.Runs.Sessions.{accepts, use_session_token-none}
use ratline.Sessions.SignIn.Laws.{
  retired, retire_presented-accepts, with_credential-signed_in, presented_out,
}

module _ (same_email : String → String → Bool) (verify_password : Option String → String → Bool)
    (needs_rehash : String → Bool) (digest : String → String) where
  -- A sign-in that issued a session found the account by its address among the members of the tenant,
  -- not disabled, with a stored hash that the password verifies against, and nothing more was demanded
  -- of the person; the session is theirs and not revoked, its digest is that of the token, and the
  -- token is the one that was minted, never one that the client sent in.
  pub sign_in-signed_in :
      (store : Store) (ctx : AuthzContext) (now date_now : ℕ) (minted : Minted)
      (input : SignInInput) (i : IssuedSession) (must : Bool) (after : Store)
      → sign_in same_email verify_password needs_rehash digest store ctx now date_now minted input
        ≡ (signed_in i must, after)
      → ((credential : PasswordCredential) × (stored : String) × (find_password_credential
              same_email store ctx input.email
            ≡ some credential)
          × (credential.disabled ≡ false)
          × (credential.stored_hash ≡ some stored)
          × (verify_password (some stored) input.password ≡ true)
          × (demand_for store ctx credential.user_id ≡ no_demand)
          × (i.session.user_id ≡ credential.user_id)
          × (must ≡ needs_rehash stored))
        × (i.session.revoked_at ≡ none)
        × (i.session.token_hash ≡ digest i.token)
        × (i.token ≡ minted.token)
  unfolding sign_in
  sign_in-signed_in store ctx now date_now minted input i must after h =
      let (
        credential,
        stored,
        found,
        enabled,
        hash,
        (password, demand, (session, row, user, token_digest, holds), token, flag),
      ) =
        with_credential-signed_in same_email verify_password needs_rehash digest store ctx now
          date_now minted input (find_password_credential same_email store ctx input.email) i must
          after h in
      (
        (
          credential,
          stored,
          found,
          enabled,
          hash,
          password,
          demand,
          ap (λ s. s.user_id) row ∙ user,
          flag,
        ),
        ap (λ s. s.revoked_at) row,
        ap (λ s. s.token_hash) row ∙ token_digest ∙ ap digest (sym token),
        token,
      )

  -- After a sign-in that issued a session, the token that the client presented, when it is not empty,
  -- is refused at that instant and every later one, whoever it belonged to, unless the minted token has
  -- its digest.
  pub sign_in-presented :
      (store : Store) (ctx : AuthzContext) (now date_now : ℕ) (minted : Minted)
      (input : SignInInput) (i : IssuedSession) (must : Bool) (after : Store) (presented : String)
      (later : ℕ)
      → sign_in same_email verify_password needs_rehash digest store ctx now date_now minted input
        ≡ (signed_in i must, after)
      → input.presented_token ≡ some presented
      → str_eq presented "" ≡ false
      → str_eq (digest minted.token) (digest presented) ≡ false
      → now ≤ later
      → (use_session_token digest after ctx later presented).0 ≡ none
  unfolding sign_in
  sign_in-presented store ctx now date_now minted input i must after presented later h given
        nonempty other le =
      let (
        credential,
        stored,
        found,
        enabled,
        hash,
        (password, demand, (session, row, user, token_digest, holds), token, flag),
      ) =
        with_credential-signed_in same_email verify_password needs_rehash digest store ctx now
          date_now minted input (find_password_credential same_email store ctx input.email) i must
          after h in
      (use_session_token-none digest after ctx later presented).1 (
        rw holds (
          presented_out i.session
            (retired same_email verify_password needs_rehash digest store ctx now input).sessions
            ctx.org_id (digest presented) now later
            (ap (λ hash. str_eq hash (digest presented)) (ap (λ s. s.token_hash) row ∙ token_digest)
              ∙ other)
            (subst
              (λ p.
                any (accepts ctx.org_id (digest presented) now)
                  (retire_presented same_email verify_password needs_rehash digest store ctx now
                    p).1.sessions
                ≡ false)
              (sym (ap (or_else "") given))
              (retire_presented-accepts same_email verify_password needs_rehash digest store ctx now
                presented nonempty))
            le))
