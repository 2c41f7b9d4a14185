-- ===== src/RateLimits/Policy/Laws.antt =====
-- src/auth/rate_limit.ts: the two buckets of an attempt through the transaction, and the decision
-- on what comes back.
use ratline.Prelude.{
  ℕ, ◌≤◌, ◌≡◌, ◌↔◌, refl, true, false, not, [], ◌∷◌, none, some, find, arith, Bool-cases, inl, inr,
}
use ratline.Prelude.Text.{Text, text_lt}
use ratline.Regex.{test}
use ratline.RateLimits.{
  Dimension, account, address, Bucket, CountedWindow, Table, key_shape, has_int_rule, count_one,
}
use ratline.RateLimits.Table.{count_in_range, count_one-in_range, count_one-out_of_range}
use ratline.RateLimits.Transactions.{
  threw, integer_out_of_range, unreachable, returned, down, up, count_auth_attempts, lock_order,
  rank, sort_entries, insert_entry, assert_buckets, assert_rule, assert_key_shape, count_at,
}
use ratline.RateLimits.Policy.{
  PathRules, AuthAttempt, RateLimitDecision, rate_limit_key, bucket_for, buckets_for,
  record_auth_attempt, decided, record_decision, record_counters, refuse_unavailable, counter,
  refused_dimension,
}

pub assert_key_shape-test : (k : Text) → test key_shape k ≡ true → assert_key_shape k ≡ none
unfolding assert_key_shape
assert_key_shape-test k h = rw h refl

assert_rule-positive : (b : Bucket) → (1 ≤ b.limit) × (1 ≤ b.window_ms) → assert_rule b ≡ none
unfolding assert_rule
assert_rule-positive b h = ground arith

pair_valid :
    (a b : Bucket)
    → test key_shape a.key.bucket_key ≡ true
    → test key_shape b.key.bucket_key ≡ true
    → (1 ≤ a.limit) × (1 ≤ a.window_ms)
    → (1 ≤ b.limit) × (1 ≤ b.window_ms)
    → assert_buckets (a ∷ b ∷ []) ≡ none
unfolding assert_buckets
pair_valid a b h k m n =
    rw
      (
        assert_key_shape-test a.key.bucket_key h,
        assert_rule-positive a m,
        assert_key_shape-test b.key.bucket_key k,
        assert_rule-positive b n,
      )
      refl

-- Two buckets through the loop, where both statements answer.
count_at-two :
    (clock : ℕ → ℕ) (a b : Bucket) (r s : Table × CountedWindow) (t : Table)
    → count_one (clock 0) a t ≡ some r
    → count_one (clock 1) b r.0 ≡ some s
    → count_at clock 0 (0 ∷ 1 ∷ []) (a ∷ b ∷ []) (none ∷ none ∷ []) t
      ≡ returned (some r.1 ∷ some s.1 ∷ [], s.0)
unfolding count_at
count_at-two clock a b r s t p q = rw (p, q, count_at) refl

-- The first statement fails.
count_at-first :
    (clock : ℕ → ℕ) (a b : Bucket) (t : Table)
    → count_one (clock 0) a t ≡ none
    → count_at clock 0 (0 ∷ 1 ∷ []) (a ∷ b ∷ []) (none ∷ none ∷ []) t ≡ threw integer_out_of_range
unfolding count_at
count_at-first clock a b t p = rw (p, count_at) refl

-- The second statement fails.
count_at-second :
    (clock : ℕ → ℕ) (a b : Bucket) (r : Table × CountedWindow) (t : Table)
    → count_one (clock 0) a t ≡ some r
    → count_one (clock 1) b r.0 ≡ none
    → count_at clock 0 (0 ∷ 1 ∷ []) (a ∷ b ∷ []) (none ∷ none ∷ []) t ≡ threw integer_out_of_range
unfolding count_at
count_at-second clock a b r t p q = rw (p, q, count_at) refl

-- The decision on the two windows.
abbrev pub decision_on : ℕ → Bucket → Bucket → CountedWindow → CountedWindow → RateLimitDecision
decision_on now a b v w =
    decided now (counter a v.attempts v.window_ends_at ∷ counter b w.attempts w.window_ends_at ∷ [])
      (refused_dimension (find (λ u. not u.counted) (v ∷ w ∷ [])))

pub decision_on-allowed_iff :
    (now : ℕ) (a b : Bucket) (v w : CountedWindow)
    → ((decision_on now a b v w).allowed ≡ true) ↔ ((v.counted ≡ true) × (w.counted ≡ true))
unfolding decided
decision_on-allowed_iff now a b v w = ground arith

module _ (normalize_nfkc to_lower_case sha256_hex : Text → Text) where
  abbrev pub bucket : AuthAttempt → PathRules → Dimension → Bucket
  bucket a rules d = bucket_for normalize_nfkc to_lower_case sha256_hex a rules d

  pub lock_order-buckets :
      (a : AuthAttempt) (rules : PathRules)
      → lock_order ((bucket a rules account).key ∷ (bucket a rules address).key ∷ []) ≡ 0 ∷ 1 ∷ []
  unfolding lock_order rank sort_entries insert_entry bucket_for text_lt
  lock_order-buckets a rules = refl

  pub buckets_valid :
      (a : AuthAttempt) (rules : PathRules)
      → ((v : Text) → test key_shape (sha256_hex v) ≡ true)
      → ((d : Dimension) → (1 ≤ (bucket a rules d).limit) × (1 ≤ (bucket a rules d).window_ms))
      → assert_buckets (bucket a rules account ∷ bucket a rules address ∷ []) ≡ none
  unfolding bucket_for rate_limit_key
  buckets_valid a rules hex positive =
      pair_valid (bucket a rules account) (bucket a rules address) (hex _) (hex _)
        (positive account) (positive address)

  -- Both statements run, the account's first, whatever the first answers.
  pub count_auth_attempts-buckets :
      (clock : ℕ → ℕ) (a : AuthAttempt) (rules : PathRules) (t : Table)
      → ((v : Text) → test key_shape (sha256_hex v) ≡ true)
      → ((d : Dimension) → (1 ≤ (bucket a rules d).limit) × (1 ≤ (bucket a rules d).window_ms))
      → ((d : Dimension) → has_int_rule (bucket a rules d) ≡ true)
      → count_auth_attempts clock (bucket a rules account ∷ bucket a rules address ∷ []) (up t) ≡ (
          let first = count_in_range (clock 0) (bucket a rules account) t in
          let second = count_in_range (clock 1) (bucket a rules address) first.0 in
          (returned (some first.1 ∷ some second.1 ∷ []), up second.0))
  unfolding count_auth_attempts
  count_auth_attempts-buckets clock a rules t hex positive fits =
      rw
        (
          buckets_valid a rules hex positive,
          lock_order-buckets a rules,
          count_at-two clock (bucket a rules account) (bucket a rules address) _ _ t
              (count_one-in_range (clock 0) (bucket a rules account) t (fits account))
              (count_one-in_range (clock 1) (bucket a rules address) _ (fits address)),
        )
        refl

  -- The account's rule is too large for the database's integers.
  count_auth_attempts-large_account :
      (clock : ℕ → ℕ) (a : AuthAttempt) (rules : PathRules) (t : Table)
      → ((v : Text) → test key_shape (sha256_hex v) ≡ true)
      → ((d : Dimension) → (1 ≤ (bucket a rules d).limit) × (1 ≤ (bucket a rules d).window_ms))
      → has_int_rule (bucket a rules account) ≡ false
      → count_auth_attempts clock (bucket a rules account ∷ bucket a rules address ∷ []) (up t)
        ≡ (threw integer_out_of_range, up t)
  unfolding count_auth_attempts
  count_auth_attempts-large_account clock a rules t hex positive large =
      rw
        (
          buckets_valid a rules hex positive,
          lock_order-buckets a rules,
          count_at-first clock (bucket a rules account) (bucket a rules address) t
              (count_one-out_of_range (clock 0) (bucket a rules account) t large),
        )
        refl

  -- A rule that is too large for the database's integers undoes both statements.
  pub count_auth_attempts-out_of_range :
      (clock : ℕ → ℕ) (a : AuthAttempt) (rules : PathRules) (t : Table) (d : Dimension)
      → ((v : Text) → test key_shape (sha256_hex v) ≡ true)
      → ((d : Dimension) → (1 ≤ (bucket a rules d).limit) × (1 ≤ (bucket a rules d).window_ms))
      → has_int_rule (bucket a rules d) ≡ false
      → count_auth_attempts clock (bucket a rules account ∷ bucket a rules address ∷ []) (up t)
        ≡ (threw integer_out_of_range, up t)
  unfolding count_auth_attempts
  count_auth_attempts-out_of_range clock a rules t account hex positive large =
      count_auth_attempts-large_account clock a rules t hex positive large
  count_auth_attempts-out_of_range clock a rules t address hex positive large =
      elim (Bool-cases (has_int_rule (bucket a rules account))) [
        | inl fits ↦
            rw
              (
                buckets_valid a rules hex positive,
                lock_order-buckets a rules,
                count_at-second clock (bucket a rules account) (bucket a rules address) _ t
                    (count_one-in_range (clock 0) (bucket a rules account) t fits)
                    (count_one-out_of_range (clock 1) (bucket a rules address) _ large),
              )
              refl
        | inr other ↦ count_auth_attempts-large_account clock a rules t hex positive other
      ]

  -- `recordAuthAttempt`, with the database in reach.
  pub record_auth_attempt-up :
      (now : ℕ) (clock : ℕ → ℕ) (a : AuthAttempt) (rules : PathRules) (t : Table)
      → ((v : Text) → test key_shape (sha256_hex v) ≡ true)
      → ((d : Dimension) → (1 ≤ (bucket a rules d).limit) × (1 ≤ (bucket a rules d).window_ms))
      → ((d : Dimension) → has_int_rule (bucket a rules d) ≡ true)
      → record_auth_attempt normalize_nfkc to_lower_case sha256_hex now clock a rules (up t) ≡ (
          let first = count_in_range (clock 0) (bucket a rules account) t in
          let second = count_in_range (clock 1) (bucket a rules address) first.0 in
          (
            returned (
                decision_on now (bucket a rules account) (bucket a rules address) first.1 second.1),
            up second.0,
          ))
  unfolding record_auth_attempt buckets_for record_decision record_counters
  record_auth_attempt-up now clock a rules t hex positive fits =
      rw (count_auth_attempts-buckets clock a rules t hex positive fits) refl

  -- `recordAuthAttempt` under a rule that the database's integers do not hold.
  pub record_auth_attempt-out_of_range :
      (now : ℕ) (clock : ℕ → ℕ) (a : AuthAttempt) (rules : PathRules) (t : Table) (d : Dimension)
      → ((v : Text) → test key_shape (sha256_hex v) ≡ true)
      → ((d : Dimension) → (1 ≤ (bucket a rules d).limit) × (1 ≤ (bucket a rules d).window_ms))
      → has_int_rule (bucket a rules d) ≡ false
      → record_auth_attempt normalize_nfkc to_lower_case sha256_hex now clock a rules (up t)
        ≡ (returned (refuse_unavailable integer_out_of_range), up t)
  unfolding record_auth_attempt buckets_for record_decision
  record_auth_attempt-out_of_range now clock a rules t d hex positive large =
      rw (count_auth_attempts-out_of_range clock a rules t d hex positive large) refl

  -- `recordAuthAttempt`, with the database out of reach.
  pub record_auth_attempt-down :
      (now : ℕ) (clock : ℕ → ℕ) (a : AuthAttempt) (rules : PathRules) (e : Text)
      → ((v : Text) → test key_shape (sha256_hex v) ≡ true)
      → ((d : Dimension) → (1 ≤ (bucket a rules d).limit) × (1 ≤ (bucket a rules d).window_ms))
      → record_auth_attempt normalize_nfkc to_lower_case sha256_hex now clock a rules (down e)
        ≡ (returned (refuse_unavailable (unreachable e)), down e)
  unfolding record_auth_attempt buckets_for record_decision count_auth_attempts
  record_auth_attempt-down now clock a rules e hex positive =
      rw (buckets_valid a rules hex positive) refl
