-- ===== src/Sessions/Ending/Laws.antt =====
-- A password reset that is permitted.
use ratline.Prelude.{
  ℕ, ◌≤◌, ◌≡◌, refl, Bool, true, false, ◌&&◌, String, List, [], ◌∷◌, Option, none, some, any,
  length, str_eq, Bool-cases, inl, inr, arith,
}
use ratline.Authz.Grants.{Decision}
use ratline.Authz.Can.{AuthzContext, Required}
use ratline.Sessions.Table.{
  Session, SessionEndReason, Account, Store, is_live, is_member, update_where, updated_rows,
  AuditEntry, because, record_audit,
}
use ratline.Sessions.Statements.{
  is_self, allows, with_hash, update_password_hash, revoke_sessions_of_user, to_end, ended_by,
  end_sessions,
}
use ratline.Sessions.Rows.{str_eq_refl}
use ratline.Sessions.Ending.{password_written, reset_member_password}

-- The hash that an account holds.
abbrev pub has_password_hash : String → Option String → Bool
has_password_hash stored none = false
has_password_hash stored (some hash) = str_eq hash stored

-- The account of this person, with this hash.
abbrev pub now_has : String → String → Account → Bool
now_has user stored a = str_eq a.id user && has_password_hash stored a.password_hash

update_where-now_has :
    (org user stored : String) (store : Store) (accounts : List Account)
    → any (λ a. str_eq a.id user && is_member org a.id store.memberships) accounts ≡ true
    → any (now_has user stored) (
        update_where
          (λ a. str_eq a.id user && is_member org a.id store.memberships)
          (with_hash stored)
          accounts)
      ≡ true
update_where-now_has org user stored store [] h = h
update_where-now_has org user stored store (a ∷ accounts) h =
    elim (Bool-cases (str_eq a.id user && is_member org a.id store.memberships)) [
      | inl e ↦
          let same : str_eq stored stored ≡ true = str_eq_refl stored in
          let own : str_eq a.id user ≡ true = ground (arith, e) in rw (e, own, same) refl
      | inr e ↦
          let rest = update_where-now_has org user stored store accounts (rw e at h) in
          rw e (ground (arith, rest))
    ]

-- A live session of the person in the tenant.
abbrev pub is_theirs : String → String → ℕ → Session → Bool
is_theirs org user now s = str_eq s.org_id org && (str_eq s.user_id user && is_live now s)

-- Ending the sessions of a person leaves none of them live, at that instant or later.
end_sessions-is_theirs :
    (org user : String) (now later : ℕ) (reason : SessionEndReason) (rows : List Session)
    → now ≤ later
    → any
        (is_theirs org user later)
        (update_where (to_end org now (λ s. str_eq s.user_id user)) (ended_by now reason) rows)
      ≡ false
unfolding is_live
end_sessions-is_theirs org user now later reason [] le = refl
end_sessions-is_theirs org user now later reason (s ∷ rows) le =
    let rest = end_sessions-is_theirs org user now later reason rows le in
    elim (Bool-cases (to_end org now (λ s. str_eq s.user_id user) s)) [
      | inl e ↦ rw e (ground (arith, rest))
      | inr e ↦ rw e (ground (arith, rest, e))
    ]

-- The entry of a reset that was done.
abbrev pub done_reset : AuthzContext → String → AuditEntry
done_reset ctx user = record {
  org_id = ctx.org_id;
  actor = ctx.actor;
  action = "member.reset_password";
  resource_type = "member";
  resource_id = user;
  decision = Decision.allow;
  reason = because "administrative-reset";
}

-- Where the reset of somebody else's password and the revocation of their sessions are both permitted
-- and the person is a member, the reset succeeds: their account holds the new hash, none of their
-- sessions in the tenant is live at that instant or later, and the audit log gains one entry, which
-- allows it.
pub reset_member_password-permitted :
    (may_reset may_revoke : Required) (store : Store) (ctx : AuthzContext) (now later : ℕ)
    (user stored : String)
    → is_self ctx user ≡ false
    → allows may_reset ≡ true
    → allows may_revoke ≡ true
    → any (λ a. str_eq a.id user && is_member ctx.org_id a.id store.memberships) store.accounts
      ≡ true
    → now ≤ later
    → (ended : ℕ) × ((reset_member_password may_reset may_revoke store ctx now user stored).0
        ≡ password_written ended)
      × (any
            (now_has user stored)
            (reset_member_password may_reset may_revoke store ctx now user stored).1.accounts
          ≡ true)
      × (any
            (is_theirs ctx.org_id user later)
            (reset_member_password may_reset may_revoke store ctx now user stored).1.sessions
          ≡ false)
      × ((reset_member_password may_reset may_revoke store ctx now user stored).1.audit
          ≡ done_reset ctx user ∷ store.audit)
unfolding reset_member_password update_password_hash revoke_sessions_of_user end_sessions
    record_audit
reset_member_password-permitted may_reset may_revoke store ctx now later user stored other may
      revoke there le =
    let written = update_where-now_has ctx.org_id user stored store store.accounts there in
    let quiet =
      end_sessions-is_theirs ctx.org_id user now later SessionEndReason.revoked store.sessions le in
    (
      length (
          updated_rows (to_end ctx.org_id now (λ s. str_eq s.user_id user))
            (ended_by now SessionEndReason.revoked) store.sessions),
      rw (other, may, there, other, revoke) refl,
      rw (other, may, there, other, revoke) written,
      rw (other, may, there, other, revoke) quiet,
      rw (other, may, there, other, revoke) refl,
    )
