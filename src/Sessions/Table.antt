-- ===== src/Sessions/Table.antt =====
-- The tables that src/repo/sessions.ts reads and writes, and its rows. A transaction of a tenant
-- sees and changes the rows of that tenant alone: each condition below begins with that test.
-- Identifiers and digests are texts that are only compared; times are milliseconds.
use ratline.Prelude.{
  ℕ, Bool, not, ◌&&◌, String, List, [], ◌∷◌, Option, none, some, is_some, any, if◌then◌else◌,
  str_eq, ltb,
}
use ratline.Database.{Membership}
use ratline.Authz.Grants.{Decision}
use ratline.Authz.Can.{Actor, AuthzContext, DecisionReason}
use ratline.Totp.Code.{TotpParameters}

-- `SESSION_END_REASONS`
pub data SessionEndReason : Type 0 where
  signed_out rotated privilege_change revoked password_changed : SessionEndReason

-- A row of the table, which `toSession` reads as `Session`; `authenticated_at`, which only
-- src/repo/reauthentication.ts reads and writes, is left out.
pub record Session : Type 0 where
  pub id : String
  pub org_id : String
  pub user_id : String
  pub token_hash : String
  pub created_at : ℕ
  pub expires_at : ℕ
  pub last_seen_at : Option ℕ
  pub revoked_at : Option ℕ
  pub revoked_reason : Option SessionEndReason
  pub rotated_from : Option String
  pub user_agent : String
  pub ip : Option String

-- A row of `users`, with what the password path reads.
pub record Account : Type 0 where
  pub id : String
  pub email : String
  pub password_hash : Option String
  pub disabled_at : Option ℕ

-- The tables of src/db/migrations/20260801000012_two_factor.sql, which src/repo/two_factor.ts reads
-- and writes.
pub record Policy : Type 0 where
  pub org_id : String
  pub two_factor_required : Bool
  pub updated_at : ℕ
  pub updated_by : Option String

pub record Enrolment : Type 0 where
  pub id : String
  pub org_id : String
  pub user_id : String
  pub secret_sealed : String
  pub parameters : TotpParameters
  pub created_at : ℕ
  pub confirmed_at : Option ℕ
  pub last_used_step : Option ℕ

pub record RecoveryCode : Type 0 where
  pub org_id : String
  pub user_id : String
  pub code_hash : String
  pub used_at : Option ℕ

pub record Challenge : Type 0 where
  pub id : String
  pub org_id : String
  pub user_id : String
  pub token_hash : String
  pub created_at : ℕ
  pub expires_at : ℕ
  pub consumed_at : Option ℕ

-- An entry of the audit log, without its metadata and its place in the chain of hashes. A reason is
-- a word of the source, or that of a decision.
pub data AuditReason : Type 0 where
  because : String → AuditReason
  decided : DecisionReason → AuditReason

pub record AuditEntry : Type 0 where
  pub org_id : String
  pub actor : Actor
  pub action : String
  pub resource_type : String
  pub resource_id : String
  pub decision : Decision
  pub reason : AuditReason

pub record Store : Type 0 where
  pub memberships : List Membership
  pub accounts : List Account
  pub sessions : List Session
  pub policies : List Policy
  pub enrolments : List Enrolment
  pub recovery_codes : List RecoveryCode
  pub challenges : List Challenge
  pub audit : List AuditEntry

-- `m.user_id = $1` in the memberships of the tenant.
abbrev pub is_member : String → String → List Membership → Bool
is_member org user members = any (λ m. str_eq m.org_id org && str_eq m.user_id user) members

-- The view `live_sessions` at an instant.
unfoldable pub is_live : ℕ → Session → Bool
is_live now s = not (is_some s.revoked_at) && ltb now s.expires_at

-- A row of the tenant under a digest.
unfoldable pub has_hash : String → String → Session → Bool
has_hash org digest s = str_eq s.org_id org && str_eq s.token_hash digest

-- `update … set … where …`
abbrev pub update_where {ℓ} : {A : Type ℓ} → (A → Bool) → (A → A) → List A → List A
update_where p f [] = []
update_where p f (x ∷ xs) = (if p x then f x else x) ∷ update_where p f xs

-- The rows it returns.
abbrev pub updated_rows {ℓ} : {A : Type ℓ} → (A → Bool) → (A → A) → List A → List A
updated_rows p f [] = []
updated_rows p f (x ∷ xs) = if p x then f x ∷ updated_rows p f xs else updated_rows p f xs

-- `rows[0]`
abbrev pub first_row {ℓ} : {A : Type ℓ} → List A → Option A
first_row [] = none
first_row (x ∷ xs) = some x

-- `recordAudit`
unfoldable pub record_audit :
    AuthzContext → String → String → String → Decision → AuditReason → Store → Store
record_audit ctx action resource_type resource_id decision reason store = record store {
  audit =
      record {
        org_id = ctx.org_id;
        actor = ctx.actor;
        action = action;
        resource_type = resource_type;
        resource_id = resource_id;
        decision = decision;
        reason = reason;
      }
      ∷ store.audit;
}
