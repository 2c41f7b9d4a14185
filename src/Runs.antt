-- ===== src/Runs.antt =====
-- Runs of the transactions of src/repo/sessions.ts and src/repo/two_factor.ts, in the order in which
-- they commit, whoever asks for them and for whichever tenant.
pub mod Frames
pub mod Sessions
pub mod Challenges
pub mod Factors
pub mod Replay
pub mod Rotation
use ratline.Prelude.{ℕ, ◌≤◌, Bool, String, List, [], ◌∷◌, Option}
use ratline.Authz.Can.{AuthzContext, Required}
use ratline.Sessions.Table.{SessionEndReason, Session, Store}
use ratline.Sessions.Statements.{
  NewSession, Written, not_a_member, constraint_violated, written, start_session, use_session_token,
  revoke_session_by_token, SessionReplacement, Replaced, nothing_to_replace, replacement_failed,
  replaced, replace_session, Permitted, refused, done, revoke_session_by_id,
  revoke_sessions_of_user, update_password_hash,
}
use ratline.TwoFactor.Statements.{
  FactorSubject, write_security_policy, NewChallenge, Challenged, not_challenged, challenged,
  start_challenge, NewEnrolment, start_enrolment,
}
use ratline.TwoFactor.Redemption.{
  confirm_enrolment, Cleared, own_factor, clearing_refused, cleared, clear_second_factor,
  PresentedFactor, redeem_challenge,
}

-- A transaction with its arguments. An answer of `require`, a fresh identifier or a fresh digest is
-- whatever it may be.
pub data Transaction : Type 0 where
  starting : String → NewSession → Transaction
  using : String → Transaction
  revoking : String → SessionEndReason → Transaction
  replacing : ℕ → String → SessionReplacement → Transaction
  revoking_one : Required → String → SessionEndReason → Transaction
  revoking_all : Required → String → SessionEndReason → Transaction
  setting_hash : Required → String → String → Transaction
  setting_policy : Required → Bool → Transaction
  challenging : String → NewChallenge → Transaction
  enrolling : String → FactorSubject → NewEnrolment → Transaction
  confirming : FactorSubject → ℕ → List String → Transaction
  redeeming : String → PresentedFactor → Transaction
  clearing : Required → String → Transaction

pub record Event : Type 0 where
  pub ctx : AuthzContext
  pub at : ℕ
  pub transaction : Transaction

-- What is left where an error was thrown, or else what was written.
abbrev pub after_writing : Store → Written → Store
after_writing store not_a_member = store
after_writing store constraint_violated = store
after_writing store (written row after) = after

abbrev pub after_replacing : Store → Replaced → Store
after_replacing store nothing_to_replace = store
after_replacing store replacement_failed = store
after_replacing store (replaced ended started after) = after

abbrev pub after_asking {ℓ} : {A : Type ℓ} → Store → Permitted (A × Store) → Store
after_asking store (refused required) = store
after_asking store (done (answer, after)) = after

abbrev pub after_challenging : Store → Challenged → Store
after_challenging store not_challenged = store
after_challenging store (challenged row after) = after

abbrev pub after_clearing : Store → Cleared → Store
after_clearing store own_factor = store
after_clearing store (clearing_refused required) = store
after_clearing store (cleared removed after) = after

module _ (digest : String → String) where
  abbrev pub commit : Transaction → AuthzContext → ℕ → Store → Store
  commit (starting id input) ctx now store =
      after_writing store (start_session store ctx now id input)
  commit (using token) ctx now store = (use_session_token digest store ctx now token).1
  commit (revoking token reason) ctx now store =
      (revoke_session_by_token digest store ctx now token reason).1
  commit (replacing started id input) ctx now store =
      after_replacing store (replace_session digest store ctx started now id input)
  commit (revoking_one required id reason) ctx now store =
      after_asking store (revoke_session_by_id required store ctx now id reason)
  commit (revoking_all required user reason) ctx now store =
      after_asking store (revoke_sessions_of_user required store ctx now user reason)
  commit (setting_hash required user hash) ctx now store =
      after_asking store (update_password_hash required store ctx user hash)
  commit (setting_policy required two_factor_required) ctx now store =
      after_asking store (write_security_policy required store ctx now two_factor_required)
  commit (challenging id input) ctx now store =
      after_challenging store (start_challenge store ctx now id input)
  commit (enrolling id subject input) ctx now store =
      (start_enrolment digest store ctx now id subject input).1
  commit (confirming subject step digests) ctx now store =
      (confirm_enrolment digest store ctx now subject step digests).1
  commit (redeeming token factor) ctx now store =
      (redeem_challenge digest store ctx now token factor).1
  commit (clearing required user) ctx now store =
      after_clearing store (clear_second_factor required store ctx user)

  unfoldable pub step : Event → Store → Store
  step e store = commit e.transaction e.ctx e.at store

  unfoldable pub run : List Event → Store → Store
  run [] store = store
  run (e ∷ events) store = run events (step e store)

-- The events happen from one instant to another, each no earlier than the one before.
abbrev pub Happens : ℕ → List Event → ℕ → Type 0
Happens start [] end = start ≤ end
Happens start (e ∷ events) end = (start ≤ e.at) × Happens e.at events end
