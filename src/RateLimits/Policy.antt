-- ===== src/RateLimits/Policy.antt =====
-- src/auth/rate_limit.ts: the limits of the four paths, and the three functions that a route calls.
-- Unicode normalisation, lowering and the hexadecimal SHA-256 are the parameters of the
-- section.
pub mod Laws
pub mod Decisions
pub mod Effects
pub mod Checking
use ratline.Prelude.{
  ℕ, ◌+◌, ◌*◌, Bool, true, false, not, ◌&&◌, ◌||◌, List, [], ◌∷◌, map, Option, none, some, leb,
  find, if◌then◌else◌, ◌≡◌, refl,
}
use ratline.Prelude.Text.{Text}
use ratline.Prelude.Text.Trim.{trim}
use ratline.RateLimits.{
  AuthPath, login, two_factor, password_reset, token_exchange, Dimension, account, address,
  rate_limit_dimensions, same_dimension, Key, Bucket, CountedWindow, LiveWindow,
}
use ratline.RateLimits.Transactions.{
  Failure, counter_missing, Outcome, threw, returned, Store, count_auth_attempts,
  read_auth_rate_limits, clear_in_store, at,
}

pub record RateLimitRule : Type 0 where
  pub limit : ℕ
  pub window_ms : ℕ

pub record PathRules : Type 0 where
  pub account_rule : RateLimitRule
  pub address_rule : RateLimitRule

abbrev pub rule_for : PathRules → Dimension → RateLimitRule
rule_for r account = r.account_rule
rule_for r address = r.address_rule

abbrev pub minute : ℕ
minute = 60000

abbrev pub attempts_per : ℕ → ℕ → RateLimitRule
attempts_per n minutes = record { limit = n; window_ms = minutes * minute }

-- `AUTH_RATE_LIMITS`
unfoldable pub auth_rate_limits : AuthPath → PathRules
auth_rate_limits login = record {
  account_rule = attempts_per 10 15;
  address_rule = attempts_per 50 15;
}
auth_rate_limits two_factor = record {
  account_rule = attempts_per 10 15;
  address_rule = attempts_per 50 15;
}
auth_rate_limits password_reset = record {
  account_rule = attempts_per 5 60;
  address_rule = attempts_per 25 60;
}
auth_rate_limits token_exchange = record {
  account_rule = attempts_per 60 15;
  address_rule = attempts_per 300 15;
}

pub record AuthAttempt : Type 0 where
  pub path : AuthPath
  pub account_value : Text
  pub address_value : Text

pub data RateLimitRefusal : Type 0 where
  over_limit : Dimension → RateLimitRefusal
  store_unavailable : RateLimitRefusal

pub record RateLimitCounter : Type 0 where
  pub dimension : Dimension
  pub limit : ℕ
  pub attempts : ℕ
  pub window_ends_at : ℕ

pub record RateLimitDecision : Type 0 where
  pub allowed : Bool
  pub refused_by : Option RateLimitRefusal
  pub retry_at : Option ℕ
  pub counters : List RateLimitCounter
  pub store_error : Option Failure

abbrev pub value_for : AuthAttempt → Dimension → Text
value_for a account = a.account_value
value_for a address = a.address_value

-- `storeUnavailable`
abbrev pub refuse_unavailable : Failure → RateLimitDecision
refuse_unavailable cause = record {
  allowed = false;
  refused_by = some store_unavailable;
  retry_at = none;
  counters = [];
  store_error = some cause;
}

-- `releaseOf`; `now` is the instant of the fallback.
unfoldable pub release_of : ℕ → List RateLimitCounter → Dimension → ℕ
release_of now counters refused = elim (find (λ c. same_dimension c.dimension refused) counters) [
  | none ↦ now
  | some c ↦ c.window_ends_at
]

-- The end of `checkAuthRateLimit` and of `recordAuthAttempt`.
unfoldable pub decided : ℕ → List RateLimitCounter → Option Dimension → RateLimitDecision
decided now counters none = record {
  allowed = true;
  refused_by = none;
  retry_at = none;
  counters = counters;
  store_error = none;
}
decided now counters (some d) = record {
  allowed = false;
  refused_by = some (over_limit d);
  retry_at = some (release_of now counters d);
  counters = counters;
  store_error = none;
}

abbrev pub counter : Bucket → ℕ → ℕ → RateLimitCounter
counter b attempts window_ends_at = record {
  dimension = b.key.dimension;
  limit = b.limit;
  attempts = attempts;
  window_ends_at = window_ends_at;
}

-- The loop of `checkAuthRateLimit`, from its counters and its `refusedBy` so far.
unfoldable pub check_buckets :
    List LiveWindow → List Bucket → Option Dimension → List RateLimitCounter × Option Dimension
check_buckets live [] refused_by = ([], refused_by)
check_buckets live (b ∷ bs) refused_by =
    elim (find (λ w. same_dimension w.dimension b.key.dimension) live) [
      | none ↦ check_buckets live bs refused_by
      | some w ↦
          let rest = check_buckets live bs (elim refused_by [
            | some d ↦ some d
            | none ↦ if leb b.limit w.attempts then some b.key.dimension else none
          ]) in
          (counter b w.attempts w.window_ends_at ∷ rest.0, rest.1)
    ]

-- What `checkAuthRateLimit` does with the live windows.
unfoldable pub check_decision : ℕ → List Bucket → Outcome (List LiveWindow) → RateLimitDecision
check_decision now buckets (threw cause) = refuse_unavailable cause
check_decision now buckets (returned live) =
    let checked = check_buckets live buckets none in decided now checked.0 checked.1

-- The windows as `recordAuthAttempt` reads them back, each with its counter: a missing one throws.
unfoldable pub record_counters :
    ℕ
    → List Bucket
    → List (Option CountedWindow)
    → Outcome (List RateLimitCounter × List CountedWindow)
record_counters i [] windows = returned ([], [])
record_counters i (b ∷ bs) windows =
    let rest = record_counters (i + 1) bs windows in
    elim (at i windows) [
      | none ↦ threw counter_missing
      | some none ↦ threw counter_missing
      | some (some w) ↦ elim rest [
        | threw f ↦ threw f
        | returned cs ↦ returned (counter b w.attempts w.window_ends_at ∷ cs.0, w ∷ cs.1)
      ]
    ]

abbrev pub refused_dimension : Option CountedWindow → Option Dimension
refused_dimension none = none
refused_dimension (some w) = some w.dimension

-- What `recordAuthAttempt` does with the counted windows.
unfoldable pub record_decision :
    ℕ → List Bucket → Outcome (List (Option CountedWindow)) → Outcome RateLimitDecision
record_decision now buckets (threw cause) = returned (refuse_unavailable cause)
record_decision now buckets (returned windows) = elim (record_counters 0 buckets windows) [
  | threw f ↦ threw f
  | returned (counters, counted) ↦
      returned (decided now counters (refused_dimension (find (λ w. not w.counted) counted)))
]

module _ (normalize_nfkc to_lower_case sha256_hex : Text → Text) where
  -- `rateLimitKey`
  unfoldable pub rate_limit_key : Text → Text
  rate_limit_key value = sha256_hex (to_lower_case (trim (normalize_nfkc value)))

  -- One bucket of `bucketsFor`.
  unfoldable pub bucket_for : AuthAttempt → PathRules → Dimension → Bucket
  bucket_for a rules d = record {
    key = record { dimension = d; path = a.path; bucket_key = rate_limit_key (value_for a d) };
    limit = (rule_for rules d).limit;
    window_ms = (rule_for rules d).window_ms;
  }

  unfoldable pub buckets_for : AuthAttempt → PathRules → List Bucket
  buckets_for a rules = map (bucket_for a rules) rate_limit_dimensions

  -- `checkAuthRateLimit`; `now` is the server's instant, `clock` the database's.
  unfoldable pub check_auth_rate_limit :
      ℕ → (ℕ → ℕ) → AuthAttempt → PathRules → Store → RateLimitDecision
  check_auth_rate_limit now clock a rules store =
      let buckets = buckets_for a rules in
      check_decision now buckets (read_auth_rate_limits clock (map (λ b. b.key) buckets) store)

  -- `recordAuthAttempt`
  unfoldable pub record_auth_attempt :
      ℕ → (ℕ → ℕ) → AuthAttempt → PathRules → Store → Outcome RateLimitDecision × Store
  record_auth_attempt now clock a rules store =
      let counted = count_auth_attempts clock (buckets_for a rules) store in
      (record_decision now (buckets_for a rules) counted.0, counted.1)

  -- `resetAuthRateLimit`
  unfoldable pub reset_auth_rate_limit : AuthAttempt → Store → Outcome Bool × Store
  reset_auth_rate_limit a store =
      clear_in_store
        (record { dimension = account; path = a.path; bucket_key = rate_limit_key a.account_value })
        store
