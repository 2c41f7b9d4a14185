-- ===== src/TwoFactor/Redemption.antt =====
-- The transactions of src/repo/two_factor.ts that spend something: confirming an enrolment, redeeming
-- a challenge, and removing a factor.
use ratline.Prelude.{
  ℕ, Bool, true, false, not, ◌&&◌, ◌||◌, String, List, [], ◌∷◌, ◌++◌, Option, none, some, is_some,
  any, filter, find, length, map, if◌then◌else◌, str_eq, ltb,
}
use ratline.Authz.Can.{AuthzContext, Required}
use ratline.Sessions.Table.{
  Enrolment, RecoveryCode, Challenge, Store, is_member, update_where, updated_rows, first_row,
}
use ratline.Sessions.Statements.{is_self, allows}
use ratline.TwoFactor.Statements.{
  FactorSubject, is_confirmed, is_pending, is_enrolment_of, live_challenge, resolve_subject,
  Resolved, not_a_user, unresolved, resolved, EnrolmentWrite, no_acting_user, codes_clash,
  not_enrolled, enrolled, no_live_challenge, no_pending_enrolment,
}

-- The pending enrolment, or the confirmed one, of whom a subject names: `findPendingEnrolment` and
-- `findConfirmedEnrolment`, where nothing also stands for the thrown error of `actingUser`.
abbrev pub enrolment_for : (String → Enrolment → Bool) → Store → Resolved → Option Enrolment
enrolment_for p store not_a_user = none
enrolment_for p store unresolved = none
enrolment_for p store (resolved user challenge_id) = find (p user) store.enrolments

unfoldable pub find_pending_enrolment :
    (String → String) → Store → AuthzContext → ℕ → FactorSubject → Option Enrolment
find_pending_enrolment digest store ctx now subject =
    enrolment_for (is_pending ctx.org_id) store (resolve_subject digest store ctx now subject)

unfoldable pub find_confirmed_enrolment :
    (String → String) → Store → AuthzContext → ℕ → FactorSubject → Option Enrolment
find_confirmed_enrolment digest store ctx now subject =
    enrolment_for (is_confirmed ctx.org_id) store (resolve_subject digest store ctx now subject)

abbrev pub confirmed_at_step : ℕ → ℕ → Enrolment → Enrolment
confirmed_at_step now step e = record e { confirmed_at = some now; last_used_step = some step }

abbrev pub is_code_of : String → String → RecoveryCode → Bool
is_code_of org user c = str_eq c.org_id org && str_eq c.user_id user

abbrev pub code_of : String → String → String → RecoveryCode
code_of org user digest = record {
  org_id = org;
  user_id = user;
  code_hash = digest;
  used_at = none;
}

abbrev pub has_twice : List String → Bool
has_twice [] = false
has_twice (d ∷ ds) = any (str_eq d) ds || has_twice ds

-- `set consumed_at = statement_timestamp() where id = $1`
abbrev pub consumed : ℕ → Challenge → Challenge
consumed now c = record c { consumed_at = some now }

unfoldable pub consume : String → ℕ → String → List Challenge → List Challenge
consume org now id rows =
    update_where (λ c. str_eq c.org_id org && str_eq c.id id) (consumed now) rows

abbrev pub consume_if : String → ℕ → Option String → List Challenge → List Challenge
consume_if org now none rows = rows
consume_if org now (some id) rows = consume org now id rows

abbrev pub confirm_row :
    Store
    → AuthzContext
    → ℕ
    → ℕ
    → List String
    → String
    → Option String
    → Option Enrolment
    → EnrolmentWrite × Store
confirm_row store ctx now step digests user challenge_id none =
    (not_enrolled no_pending_enrolment, store)
confirm_row store ctx now step digests user challenge_id (some e) =
    if has_twice digests then (codes_clash, store) else (
      enrolled user e.id,
      record store {
        enrolments =
            update_where (is_pending ctx.org_id user) (confirmed_at_step now step) store.enrolments;
        recovery_codes =
            map (code_of ctx.org_id user) digests
            ++ filter (λ c. not (is_code_of ctx.org_id user c)) store.recovery_codes;
        challenges = consume_if ctx.org_id now challenge_id store.challenges;
      },
    )

abbrev pub confirm_resolved :
    Store → AuthzContext → ℕ → ℕ → List String → Resolved → EnrolmentWrite × Store
confirm_resolved store ctx now step digests not_a_user = (no_acting_user, store)
confirm_resolved store ctx now step digests unresolved = (not_enrolled no_live_challenge, store)
confirm_resolved store ctx now step digests (resolved user challenge_id) =
    confirm_row store ctx now step digests user challenge_id (
      first_row
        (updated_rows (is_pending ctx.org_id user) (confirmed_at_step now step) store.enrolments))

-- `confirmEnrolment`
unfoldable pub confirm_enrolment :
    (String → String)
    → Store
    → AuthzContext
    → ℕ
    → FactorSubject
    → ℕ
    → List String
    → EnrolmentWrite × Store
confirm_enrolment digest store ctx now subject step digests =
    confirm_resolved store ctx now step digests (resolve_subject digest store ctx now subject)

-- The thrown refusals of `clearSecondFactor`, or how many enrolments went.
pub data Cleared : Type 0 where
  own_factor : Cleared
  clearing_refused : Required → Cleared
  cleared : ℕ → Store → Cleared

-- `clearSecondFactor`, where `required` is the answer for `member.reset_two_factor`.
unfoldable pub clear_second_factor : Required → Store → AuthzContext → String → Cleared
clear_second_factor required store ctx user =
    let member = is_member ctx.org_id user store.memberships in
    if is_self ctx user
    then own_factor
    else if not (allows required)
    then clearing_refused required
    else cleared
        (length (filter (λ e. is_enrolment_of ctx.org_id user e && member) store.enrolments))
        (record store {
          enrolments =
              filter (λ e. not (is_enrolment_of ctx.org_id user e && member)) store.enrolments;
          recovery_codes =
              filter (λ c. not (is_code_of ctx.org_id user c && member)) store.recovery_codes;
        })

-- `used_at is null`
abbrev pub is_unused_of : String → String → RecoveryCode → Bool
is_unused_of org user c = is_code_of org user c && not (is_some c.used_at)

unfoldable pub recovery_codes_left : String → String → Store → ℕ
recovery_codes_left org user store = length (filter (is_unused_of org user) store.recovery_codes)

pub data PresentedFactor : Type 0 where
  totp : ℕ → PresentedFactor
  recovery_code : String → PresentedFactor

-- `last_used_step is null or last_used_step < $2`
abbrev pub is_before : Option ℕ → ℕ → Bool
is_before none step = true
is_before (some used) step = ltb used step

-- The rows that `spendFactor` updates.
unfoldable pub accepts_step : String → String → ℕ → Enrolment → Bool
accepts_step org user step e = is_confirmed org user e && is_before e.last_used_step step

unfoldable pub accepts_code : String → String → String → RecoveryCode → Bool
accepts_code org user digest c = is_unused_of org user c && str_eq c.code_hash digest

abbrev pub stepped : ℕ → Enrolment → Enrolment
stepped step e = record e { last_used_step = some step }

abbrev pub used : ℕ → RecoveryCode → RecoveryCode
used now c = record c { used_at = some now }

-- `spendFactor`
unfoldable pub spend_factor : Store → String → ℕ → String → PresentedFactor → Bool × Store
spend_factor store org now user (totp step) = (
  any (accepts_step org user step) store.enrolments,
  record store {
    enrolments = update_where (accepts_step org user step) (stepped step) store.enrolments;
  },
)
spend_factor store org now user (recovery_code digest) = (
  any (accepts_code org user digest) store.recovery_codes,
  record store {
    recovery_codes = update_where (accepts_code org user digest) (used now) store.recovery_codes;
  },
)

-- `REDEMPTION_REFUSALS`
pub data RedemptionRefusal : Type 0 where
  challenge_not_live person_not_enrolled factor_rejected : RedemptionRefusal

pub data ChallengeRedemption : Type 0 where
  not_redeemed : RedemptionRefusal → ChallengeRedemption
  redeemed : String → PresentedFactor → ℕ → ChallengeRedemption

abbrev pub redeem_live :
    Store → AuthzContext → ℕ → PresentedFactor → Option Challenge → ChallengeRedemption × Store
redeem_live store ctx now factor none = (not_redeemed challenge_not_live, store)
redeem_live store ctx now factor (some c) =
    let (spent, after) = spend_factor store ctx.org_id now c.user_id factor in
    if not (any (is_confirmed ctx.org_id c.user_id) store.enrolments)
    then (not_redeemed person_not_enrolled, store)
    else if not spent
    then (not_redeemed factor_rejected, store)
    else (
      redeemed c.user_id factor (recovery_codes_left ctx.org_id c.user_id after),
      record after { challenges = consume ctx.org_id now c.id after.challenges },
    )

-- `redeemChallenge`
unfoldable pub redeem_challenge :
    (String → String)
    → Store
    → AuthzContext
    → ℕ
    → String
    → PresentedFactor
    → ChallengeRedemption × Store
redeem_challenge digest store ctx now token factor =
    redeem_live store ctx now factor (live_challenge digest store ctx now token)
