-- ===== src/Runs/Sessions.antt =====
-- A token of a session that is refused once is refused for ever.
use ratline.Prelude.{
  ℕ, ◌≤◌, ◌≡◌, ◌↔◌, refl, Bool, true, false, ◌&&◌, ◌||◌, String, List, [], ◌∷◌, Option, none, some,
  any, find, str_eq, eq_iff, arith, Bool-cases, inl, inr,
}
use ratline.Authz.Can.{AuthzContext, Required}
use ratline.Sessions.Table.{SessionEndReason, Session, Store, is_member, is_live, has_hash}
use ratline.Sessions.Statements.{
  NewSession, session_of, Written, not_a_member, constraint_violated, written, violates,
  write_session, use_session_token, seen, is_row_of, ended_by, to_end, end_sessions,
  revoke_session_by_token, SessionReplacement, replaced_by, replace_first, replace_session,
  successor_of,
}
use ratline.Sessions.Rows.{
  str_eq_refl, update_where-any-false, update_where-any-true, any-weaker, find-none, find-some,
  find-any, updated_rows-none, updated_rows-some,
}
use ratline.Sessions.Statements.{
  holder_of, revoke_held, revoke_session_by_id, revoke_sessions_of_user, is_self, allows,
}
use ratline.TwoFactor.Statements.{start_enrolment, resolve_subject, live_challenge}
use ratline.TwoFactor.Redemption.{confirm_enrolment, redeem_challenge}
use ratline.Runs.Frames.{
  write_security_policy-sessions, start_challenge-sessions, clear_second_factor-sessions,
  update_password_hash-sessions, redeem_live-sessions, start_resolved-sessions,
  confirm_resolved-sessions,
}
use ratline.Runs.{
  starting, using, revoking, replacing, revoking_one, revoking_all, setting_hash, setting_policy,
  challenging, enrolling, confirming, redeeming, clearing, Event, Transaction, step, run, Happens,
  commit, after_writing, after_replacing, after_asking,
}

-- A row that `useSessionToken` accepts.
abbrev pub accepts : String → String → ℕ → Session → Bool
accepts org token_hash now s = has_hash org token_hash s && is_live now s

-- Some row has the digest, and none that has it is live.
abbrev pub Spent : String → String → ℕ → List Session → Type 0
Spent org token_hash now rows =
    (any (λ s. str_eq s.token_hash token_hash) rows ≡ true)
    × (any (accepts org token_hash now) rows ≡ false)

pub Spent-later :
    (org token_hash : String) (now later : ℕ) (rows : List Session)
    → now ≤ later
    → Spent org token_hash now rows
    → Spent org token_hash later rows
unfolding is_live
Spent-later org token_hash now later rows le (taken, quiet) = (
  taken,
  any-weaker (accepts org token_hash now) (accepts org token_hash later) rows (λ s h. ground arith)
      quiet,
)

-- Ending sessions revives none.
Spent-end_sessions :
    (org token_hash tenant : String) (now : ℕ) (reason : SessionEndReason) (p : Session → Bool)
    (store : Store)
    → Spent org token_hash now store.sessions
    → Spent org token_hash now (end_sessions tenant now reason p store).1.sessions
unfolding end_sessions is_live has_hash
Spent-end_sessions org token_hash tenant now reason p store (taken, quiet) = (
  update_where-any-true (λ s. str_eq s.token_hash token_hash) (to_end tenant now p)
      (ended_by now reason) store.sessions (λ s e h. h) taken,
  update_where-any-false (accepts org token_hash now) (to_end tenant now p) (ended_by now reason)
      store.sessions (λ s e h. ground arith) quiet,
)

-- A row whose insert no constraint refuses has none of the digests that are there.
pub digest_is_new :
    (row : Session) (rows : List Session) (token_hash : String)
    → violates row rows ≡ false
    → any (λ s. str_eq s.token_hash token_hash) rows ≡ true
    → str_eq row.token_hash token_hash ≡ false
unfolding violates
digest_is_new row rows token_hash fits taken =
    elim (Bool-cases (str_eq row.token_hash token_hash)) [
      | inl e ↦
          let same : row.token_hash ≡ token_hash = (eq_iff row.token_hash token_hash).0 e in
          let others : any (λ s. str_eq s.id row.id || str_eq s.token_hash row.token_hash) rows
              ≡ false =
            ground arith in
          let none_has =
            any-weaker (λ s. str_eq s.id row.id || str_eq s.token_hash row.token_hash)
              (λ s. str_eq s.token_hash row.token_hash) rows (λ s h. ground arith) others in
          absurd (cc (taken, rw same at none_has))
      | inr e ↦ e
    ]

-- A row under a digest that is taken is not inserted.
pub Spent-write_session :
    (org token_hash tenant : String) (now started : ℕ) (store : Store) (id : String)
    (input : NewSession)
    → Spent org token_hash now store.sessions
    → Spent org token_hash now
        (after_writing store (write_session store tenant started id input)).sessions
unfolding write_session has_hash
Spent-write_session org token_hash tenant now started store id input (taken, quiet) =
    let row : Session = session_of tenant started id input in
    elim (Bool-cases (is_member tenant input.user_id store.memberships)) [
      | inr e ↦ rw e (taken, quiet)
      | inl e ↦ elim (Bool-cases (violates row store.sessions)) [
        | inl k ↦ rw (e, k) (taken, quiet)
        | inr k ↦
            let other = digest_is_new row store.sessions token_hash k taken in
            rw (e, k) (ground (arith, other, taken), ground (arith, other, quiet))
      ]
    ]

Spent-use_session_token :
    (digest : String → String) (org token_hash token : String) (now : ℕ) (store : Store)
    (ctx : AuthzContext)
    → Spent org token_hash now store.sessions
    → Spent org token_hash now (use_session_token digest store ctx now token).1.sessions
unfolding use_session_token is_live has_hash
Spent-use_session_token digest org token_hash token now store ctx (taken, quiet) =
    let p : Session → Bool =
      is_row_of ctx.org_id
        (find (λ s. has_hash ctx.org_id (digest token) s && is_live now s) store.sessions) in
    (
      update_where-any-true (λ s. str_eq s.token_hash token_hash) p (seen now) store.sessions
          (λ s e h. h) taken,
      update_where-any-false (accepts org token_hash now) p (seen now) store.sessions (λ s e h. h)
          quiet,
    )

Spent-replace_first :
    (org token_hash tenant : String) (now started : ℕ) (id : String) (input : SessionReplacement)
    (ended : Option Session) (before store : Store)
    → Spent org token_hash now before.sessions
    → Spent org token_hash now store.sessions
    → Spent org token_hash now
        (after_replacing before (replace_first tenant started id input ended store)).sessions
Spent-replace_first org token_hash tenant now started id input none before store h k = h
Spent-replace_first org token_hash tenant now started id input (some ended) before store h k =
    Spent-replaced_by (write_session store tenant started id (successor_of ended input))
      (Spent-write_session org token_hash tenant now started store id (successor_of ended input) k)
  where
    Spent-replaced_by :
        (w : Written)
        → Spent org token_hash now (after_writing store w).sessions
        → Spent org token_hash now (after_replacing before (replaced_by ended w)).sessions
    Spent-replaced_by not_a_member g = h
    Spent-replaced_by constraint_violated g = h
    Spent-replaced_by (written row after) g = g

Spent-revoke_held :
    (org token_hash : String) (now : ℕ) (required : Required) (store : Store) (ctx : AuthzContext)
    (id : String) (reason : SessionEndReason) (holder : Option String)
    → Spent org token_hash now store.sessions
    → Spent org token_hash now
        (after_asking store (revoke_held required store ctx now id reason holder)).sessions
Spent-revoke_held org token_hash now required store ctx id reason none h = h
Spent-revoke_held org token_hash now required store ctx id reason (some holder) h =
    elim (Bool-cases (is_self ctx holder || allows required)) [
      | inl e ↦
          rw e
            (Spent-end_sessions org token_hash ctx.org_id now reason (λ s. str_eq s.id id) store h)
      | inr e ↦ rw e h
    ]

Spent-revoke_sessions_of_user :
    (org token_hash : String) (now : ℕ) (required : Required) (store : Store) (ctx : AuthzContext)
    (user : String) (reason : SessionEndReason)
    → Spent org token_hash now store.sessions
    → Spent org token_hash now
        (after_asking store (revoke_sessions_of_user required store ctx now user reason)).sessions
unfolding revoke_sessions_of_user
Spent-revoke_sessions_of_user org token_hash now required store ctx user reason h =
    elim (Bool-cases (is_self ctx user || allows required)) [
      | inl e ↦ rw e (
          Spent-end_sessions org token_hash ctx.org_id now reason (λ s. str_eq s.user_id user) store
            h)
      | inr e ↦ rw e h
    ]

-- No transaction revives a token that the table holds and that no live session has.
Spent-commit :
    (digest : String → String) (org token_hash : String) (now : ℕ) (t : Transaction)
    (ctx : AuthzContext) (store : Store)
    → Spent org token_hash now store.sessions
    → Spent org token_hash now (commit digest t ctx now store).sessions
unfolding revoke_session_by_token replace_session revoke_session_by_id start_enrolment
    confirm_enrolment redeem_challenge
Spent-commit digest org token_hash now (starting id input) ctx store h =
    Spent-write_session org token_hash ctx.org_id now now store id input h
Spent-commit digest org token_hash now (using token) ctx store h =
    Spent-use_session_token digest org token_hash token now store ctx h
Spent-commit digest org token_hash now (revoking token reason) ctx store h =
    Spent-end_sessions org token_hash ctx.org_id now reason
      (λ s. str_eq s.token_hash (digest token)) store h
Spent-commit digest org token_hash now (replacing started id input) ctx store h =
    Spent-replace_first org token_hash ctx.org_id now started id input _ store _ h (
      Spent-end_sessions org token_hash ctx.org_id now input.reason
        (λ s. str_eq s.token_hash (digest input.presented_token)) store h)
Spent-commit digest org token_hash now (revoking_one required id reason) ctx store h =
    Spent-revoke_held org token_hash now required store ctx id reason (holder_of store ctx id) h
Spent-commit digest org token_hash now (revoking_all required user reason) ctx store h =
    Spent-revoke_sessions_of_user org token_hash now required store ctx user reason h
Spent-commit digest org token_hash now (setting_hash required user hash) ctx store h =
    rw (update_password_hash-sessions required store ctx user hash) h
Spent-commit digest org token_hash now (setting_policy required b) ctx store h =
    rw (write_security_policy-sessions required store ctx now b) h
Spent-commit digest org token_hash now (challenging id input) ctx store h =
    rw (start_challenge-sessions store ctx now id input) h
Spent-commit digest org token_hash now (enrolling id subject input) ctx store h =
    rw
      (start_resolved-sessions store ctx now id input
        (resolve_subject digest store ctx now subject))
      h
Spent-commit digest org token_hash now (confirming subject step digests) ctx store h =
    rw
      (confirm_resolved-sessions store ctx now step digests
        (resolve_subject digest store ctx now subject))
      h
Spent-commit digest org token_hash now (redeeming token factor) ctx store h =
    rw (redeem_live-sessions store ctx now factor (live_challenge digest store ctx now token)) h
Spent-commit digest org token_hash now (clearing required user) ctx store h =
    rw (clear_second_factor-sessions required store ctx user) h

Spent-run :
    (digest : String → String) (org token_hash : String) (events : List Event) (start end : ℕ)
    (store : Store)
    → Happens start events end
    → Spent org token_hash start store.sessions
    → Spent org token_hash end (run digest events store).sessions
unfolding run step
Spent-run digest org token_hash [] start end store h spent =
    Spent-later org token_hash start end store.sessions h spent
Spent-run digest org token_hash (e ∷ events) start end store (le, rest) spent =
    Spent-run digest org token_hash events e.at end (commit digest e.transaction e.ctx e.at store)
      rest
      (Spent-commit digest org token_hash e.at e.transaction e.ctx store
        (Spent-later org token_hash start e.at store.sessions le spent))

no_row : (rows : List Session) → any (λ s. false) rows ≡ false
no_row [] = refl
no_row (s ∷ rows) = no_row rows

touched :
    (digest : String → String) (store : Store) (ctx : AuthzContext) (now : ℕ) (token : String)
    → any (accepts ctx.org_id (digest token) now) store.sessions ≡ true
    → (s : Session) × ((use_session_token digest store ctx now token).0 ≡ some (seen now s))
unfolding use_session_token has_hash
touched digest store ctx now token h =
    let (s, f, t) = find-some (accepts ctx.org_id (digest token) now) store.sessions h in
    let own : is_row_of ctx.org_id (some s) s ≡ true = ground (arith, t, str_eq_refl s.id) in
    let some_row =
      find-any (accepts ctx.org_id (digest token) now) (is_row_of ctx.org_id (some s))
        store.sessions s f own in
    let (r, u, k) =
      updated_rows-some (is_row_of ctx.org_id (some s)) (seen now) store.sessions some_row in
    (r, rw f u)

-- `useSessionToken` answers nothing exactly where no row accepts.
pub use_session_token-none :
    (digest : String → String) (store : Store) (ctx : AuthzContext) (now : ℕ) (token : String)
    → ((use_session_token digest store ctx now token).0 ≡ none)
      ↔ (any (accepts ctx.org_id (digest token) now) store.sessions ≡ false)
unfolding use_session_token
use_session_token-none digest store ctx now token = (
  λ dead. elim (Bool-cases (any (accepts ctx.org_id (digest token) now) store.sessions)) [
    | inl h ↦ let (s, e) = touched digest store ctx now token h in absurd (cc (dead, e))
    | inr h ↦ h
  ],
  λ h.
      rw
        (
          find-none (accepts ctx.org_id (digest token) now) store.sessions h,
          updated_rows-none (λ s. false) (seen now) store.sessions (no_row store.sessions),
        )
        refl,
)

-- A token whose digest the table holds and which is refused at one instant is refused at every later
-- instant, whatever transactions of sessions and second factors, of whichever tenant, commit between.
pub run-use_session_token :
    (digest : String → String) (ctx : AuthzContext) (token : String) (events : List Event)
    (start end : ℕ) (store : Store)
    → any (λ s. str_eq s.token_hash (digest token)) store.sessions ≡ true
    → (use_session_token digest store ctx start token).0 ≡ none
    → Happens start events end
    → (use_session_token digest (run digest events store) ctx end token).0 ≡ none
run-use_session_token digest ctx token events start end store taken dead happens =
    let spent =
      Spent-run digest ctx.org_id (digest token) events start end store happens
        (taken, (use_session_token-none digest store ctx start token).0 dead) in
    (use_session_token-none digest (run digest events store) ctx end token).1 spent.1
