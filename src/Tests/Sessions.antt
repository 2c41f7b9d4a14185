-- ===== src/Tests/Sessions.antt =====
-- src/auth/sessions.ts and src/repo/sessions.ts for one person in one tenant. The digest of a token is
-- the token.
use ratline.Prelude.{
  Among, ℕ, ◌≡◌, ◌≢◌, refl, Bool, true, false, String, List, [], ◌∷◌, Option, none, some, any,
  str_eq, arith,
}
use ratline.Authz.Can.{Actor, AuthzContext, DecisionReason, Required, permitted}
use ratline.Sessions.Table.{Session, SessionEndReason, Store, is_live, has_hash}
use ratline.Sessions.Statements.{
  NewSession, PasswordCredential, find_password_credential, use_session_token,
  revoke_session_by_token, end_sessions, replace_session, write_session, violates, seen, is_self,
}
use ratline.Sessions.SignIn.{
  SignInInput, Minted, IssuedSession, signed_in, sign_in, retire_presented, no_demand, demand_for,
  second_factor_demand,
}
use ratline.Sessions.SignIn.Outcome.{sign_in-signed_in, sign_in-presented}
use ratline.Sessions.Ending.{
  RotationInput, rotated_to, rotate_session, reset_member_password, password_written,
}
use ratline.Sessions.Ending.Laws.{reset_member_password-permitted, now_has, is_theirs, done_reset}
use ratline.TwoFactor.Statements.{read_second_factor_requirement, policy_requires}
use ratline.Runs.{Event, starting, using, run, step}
use ratline.Runs.Sessions.{run-use_session_token, accepts}
use ratline.Runs.Rotation.{rotate_session-rotated_to}

abbrev same : String → String
same s = s

abbrev web : AuthzContext
web = record { org_id = "acme"; actor = Actor.service_identity "web" "web"; session_id = none }

abbrev admin : AuthzContext
admin = record { org_id = "acme"; actor = Actor.user "ben"; session_id = none }

-- Ada's session, live or revoked.
abbrev ada_session : Option ℕ → Option SessionEndReason → Session
ada_session revoked_at revoked_reason = record {
  id = "s1";
  org_id = "acme";
  user_id = "ada";
  token_hash = "old";
  created_at = 100;
  expires_at = 10000;
  last_seen_at = none;
  revoked_at = revoked_at;
  revoked_reason = revoked_reason;
  rotated_from = none;
  user_agent = "";
  ip = none;
}

abbrev acme : List Session → Store
acme sessions = record {
  memberships = record { org_id = "acme"; user_id = "ada" } ∷ [];
  accounts =
      record { id = "ada"; email = "ada@acme"; password_hash = some "secret"; disabled_at = none }
      ∷ [];
  sessions = sessions;
  policies = [];
  enrolments = [];
  recovery_codes = [];
  challenges = [];
  audit = [];
}

abbrev signed_out_store : Store
signed_out_store = acme (ada_session (some 500) (some SessionEndReason.signed_out) ∷ [])

abbrev signed_in_store : Store
signed_in_store = acme (ada_session none none ∷ [])

abbrev ada_new : String → NewSession
ada_new token = record {
  user_id = "ada";
  token_digest = token;
  expires_at = 20000;
  rotated_from = none;
  user_agent = "";
  ip = none;
}

-- An insert under the revoked digest, one under a fresh digest, and a use of the latter.
abbrev later_events : List Event
later_events =
    record { ctx = web; at = 700; transaction = starting "s2" (ada_new "old") }
    ∷ record { ctx = web; at = 800; transaction = starting "s3" (ada_new "new") }
    ∷ record { ctx = web; at = 900; transaction = using "new" }
    ∷ []

is_signed_out : (use_session_token same signed_out_store web 600 "old").0 ≡ none
unfolding use_session_token is_live has_hash
is_signed_out = refl

new_session_works :
    (use_session_token same (run same later_events signed_out_store) web 950 "new").0 ≢ none
unfolding run step use_session_token is_live has_hash write_session violates
new_session_works e = cc e

run-use_session_token_example :
    (use_session_token same (run same later_events signed_out_store) web 1000 "old").0 ≡ none
run-use_session_token_example =
    run-use_session_token same web "old" later_events 600 1000 signed_out_store refl is_signed_out
      (omega arith, (omega arith, (omega arith, omega arith)))

abbrev minted : Minted
minted = record { token = "new"; row_id = "s2" }

abbrev rotation : RotationInput
rotation = record { user_agent = none; ip = none; lifetime_ms = none }

-- The session that follows Ada's, or that a sign-in starts.
abbrev ada_next : Option String → Session
ada_next rotated_from = record {
  id = "s2";
  org_id = "acme";
  user_id = "ada";
  token_hash = "new";
  created_at = 1000;
  expires_at = 28801000;
  last_seen_at = none;
  revoked_at = none;
  revoked_reason = none;
  rotated_from = rotated_from;
  user_agent = "";
  ip = none;
}

abbrev retired_session : Session
retired_session = ada_session (some 1000) (some SessionEndReason.rotated)

abbrev issued_next : IssuedSession
issued_next = record { session = ada_next (some "s1"); token = "new" }

is_rotated :
    rotate_session same signed_in_store web 1000 1000 minted "old" SessionEndReason.rotated rotation
    ≡ (rotated_to issued_next, acme (ada_next (some "s1") ∷ retired_session ∷ []))
unfolding rotate_session replace_session end_sessions write_session violates is_live
is_rotated = refl

rotate_session-rotated_to_example :
    ((old : Session) × Among old signed_in_store.sessions
      × (accepts "acme" "old" 1000 old ≡ true)
      × (ada_next (some "s1")).user_id ≡ old.user_id
      × ((ada_next (some "s1")).rotated_from ≡ some old.id))
    × ((use_session_token same
          (acme (ada_next (some "s1") ∷ retired_session ∷ []))
          web
          40000000
          "old").0
        ≡ none)
    × ((use_session_token same
          (acme (ada_next (some "s1") ∷ retired_session ∷ []))
          web
          2000
          "new").0
        ≡ some (seen 2000 (ada_next (some "s1"))))
rotate_session-rotated_to_example =
    rotate_session-rotated_to same signed_in_store web 1000 1000 minted "old"
      SessionEndReason.rotated rotation issued_next
      (acme (ada_next (some "s1") ∷ retired_session ∷ [])) 40000000 2000 is_rotated (omega arith)
      (omega arith)

abbrev right_password : Option String → String → Bool
right_password none presented = false
right_password (some stored) presented = str_eq stored presented

abbrev weak : String → Bool
weak stored = false

abbrev ada_input : SignInInput
ada_input = record {
  email = "ada@acme";
  password = "secret";
  presented_token = some "old";
  user_agent = none;
  ip = none;
  lifetime_ms = none;
}

is_signed_in :
    sign_in str_eq right_password weak same signed_in_store web 1000 1000 minted ada_input
    ≡ (signed_in issued_next false, acme (ada_next (some "s1") ∷ retired_session ∷ []))
unfolding sign_in find_password_credential retire_presented revoke_session_by_token end_sessions
    write_session violates is_live read_second_factor_requirement policy_requires
    second_factor_demand
is_signed_in = refl

wrong_password :
    (sign_in str_eq right_password weak same signed_in_store web 1000 1000 minted
      (record ada_input { password = "guess" })).1
    ≡ signed_in_store
unfolding sign_in find_password_credential retire_presented
wrong_password = refl

sign_in-signed_in_example :
    ((credential : PasswordCredential) × (stored : String) × (find_password_credential str_eq
          signed_in_store web "ada@acme"
        ≡ some credential)
      × (credential.disabled ≡ false)
      × (credential.stored_hash ≡ some stored)
      × (right_password (some stored) "secret" ≡ true)
      × (demand_for signed_in_store web credential.user_id ≡ no_demand)
      × ("ada" ≡ credential.user_id)
      × (false ≡ weak stored))
    × ((ada_next (some "s1")).revoked_at ≡ none)
    × ((ada_next (some "s1")).token_hash ≡ same "new")
    × ("new" ≡ minted.token)
sign_in-signed_in_example =
    sign_in-signed_in str_eq right_password weak same signed_in_store web 1000 1000 minted ada_input
      issued_next false (acme (ada_next (some "s1") ∷ retired_session ∷ [])) is_signed_in

sign_in-presented_example :
    (use_session_token same (acme (ada_next (some "s1") ∷ retired_session ∷ [])) web 3000 "old").0
    ≡ none
sign_in-presented_example =
    sign_in-presented str_eq right_password weak same signed_in_store web 1000 1000 minted ada_input
      issued_next false (acme (ada_next (some "s1") ∷ retired_session ∷ [])) "old" 3000 is_signed_in
      refl refl refl (omega arith)

abbrev may : Required
may = permitted (record {
  allowed = true;
  reason = DecisionReason.granted;
  action = "member.reset_password";
  scope_node_id = "root";
  resource_id = none;
})

is_another : is_self admin "ada" ≡ false
unfolding is_self
is_another = refl

reset_member_password-permitted_example :
    (ended : ℕ) × ((reset_member_password may may signed_in_store admin 1000 "ada" "fresh").0
      ≡ password_written ended)
    × (any
          (now_has "ada" "fresh")
          (reset_member_password may may signed_in_store admin 1000 "ada" "fresh").1.accounts
        ≡ true)
    × (any
          (is_theirs "acme" "ada" 2000)
          (reset_member_password may may signed_in_store admin 1000 "ada" "fresh").1.sessions
        ≡ false)
    × ((reset_member_password may may signed_in_store admin 1000 "ada" "fresh").1.audit
        ≡ done_reset admin "ada" ∷ [])
reset_member_password-permitted_example =
    reset_member_password-permitted may may signed_in_store admin 1000 2000 "ada" "fresh" is_another
      refl refl refl (omega arith)
