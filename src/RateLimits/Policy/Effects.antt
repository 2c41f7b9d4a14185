-- ===== src/RateLimits/Policy/Effects.antt =====
-- src/auth/rate_limit.ts: what recording and resetting leave in the table, and what checking
-- without counting answers.
use ratline.Prelude.{ℕ, ◌≤◌, ◌≡◌, refl, ap, true, false, none, some, if◌then◌else◌, arith}
use ratline.Prelude.Text.{Text}
use ratline.Regex.{test}
use ratline.RateLimits.{
  Dimension, account, address, Key, Bucket, Table, key_shape, key_eq, key_eq_iff, lookup,
  counted_row, clear_auth_rate_limit, remove,
}
use ratline.RateLimits.Counting.{HasIntRule, has_int_rule_iff}
use ratline.RateLimits.Table.{count_in_range, lookup-count_in_range, lookup-remove}
use ratline.RateLimits.Transactions.{up, clear_in_store}
use ratline.RateLimits.Policy.{
  PathRules, AuthAttempt, rate_limit_key, bucket_for, record_auth_attempt, reset_auth_rate_limit,
}
use ratline.RateLimits.Policy.Laws.{assert_key_shape-test, record_auth_attempt-up}
use ratline.RateLimits.Policy.Decisions.{mine, key_eq-dimensions}

lookup-count_two :
    (i j : ℕ) (a b : Bucket) (k : Key) (t : Table)
    → key_eq b.key a.key ≡ false
    → lookup k (count_in_range j b (count_in_range i a t).0).0 ≡ (
        if key_eq k a.key
        then some (counted_row i a (lookup a.key t)).0
        else if key_eq k b.key
        then some (counted_row j b (lookup b.key t)).0
        else lookup k t)
lookup-count_two i j a b k t other =
    let first = lookup-count_in_range i a k t in
    let between = lookup-count_in_range i a b.key t in
    let second = lookup-count_in_range j b k (count_in_range i a t).0 in
    ground (
      arith,
      first,
      between,
      second,
      other,
      key_eq_iff k a.key,
      key_eq_iff k b.key,
      key_eq_iff b.key a.key,
    )

module _ (normalize_nfkc to_lower_case sha256_hex : Text → Text) where
  abbrev own : AuthAttempt → PathRules → Dimension → Bucket
  own a rules d = mine normalize_nfkc to_lower_case sha256_hex a rules d

  -- An attempt is counted under the account's key and under the address's, each by the statement for
  -- what that key held before, whatever the other one answers; no other key changes. The database is
  -- in reach, digests have the shape of a key, and limits and lengths are positive and below 2 ^ 31.
  pub record_auth_attempt-lookup :
      (now : ℕ) (clock : ℕ → ℕ) (a : AuthAttempt) (rules : PathRules) (t : Table) (k : Key)
      → ((v : Text) → test key_shape (sha256_hex v) ≡ true)
      → ((d : Dimension) → (1 ≤ (own a rules d).limit) × (1 ≤ (own a rules d).window_ms))
      → ((d : Dimension) → HasIntRule (own a rules d))
      → (u : Table) × ((record_auth_attempt normalize_nfkc to_lower_case sha256_hex now clock a
            rules
            (up t)).1
          ≡ up u)
        × (lookup k u ≡ (
            if key_eq k (own a rules account).key
            then some
                (counted_row (clock 0) (own a rules account) (lookup (own a rules account).key t)).0
            else if key_eq k (own a rules address).key
            then some
                (counted_row (clock 1) (own a rules address) (lookup (own a rules address).key t)).0
            else lookup k t))
  record_auth_attempt-lookup now clock a rules t k hex positive fits =
      let ran =
        record_auth_attempt-up normalize_nfkc to_lower_case sha256_hex now clock a rules t hex
          positive (λ d. (has_int_rule_iff (own a rules d)).1 (fits d)) in
      (
        (count_in_range (clock 1) (own a rules address)
            (count_in_range (clock 0) (own a rules account) t).0).0,
        ap (λ p. p.1) ran,
        lookup-count_two (clock 0) (clock 1) (own a rules account) (own a rules address) k t
            (key_eq-dimensions normalize_nfkc to_lower_case sha256_hex a rules),
      )

  -- A success deletes the window under the account's key of its own path, and the windows under all
  -- other keys stay as they are, with the database in reach and digests in the shape of a key.
  pub reset_auth_rate_limit-lookup :
      (a : AuthAttempt) (rules : PathRules) (t : Table) (k : Key)
      → ((v : Text) → test key_shape (sha256_hex v) ≡ true)
      → (u : Table) × ((reset_auth_rate_limit normalize_nfkc to_lower_case sha256_hex a (up t)).1
          ≡ up u)
        × (lookup k u ≡ (if key_eq k (own a rules account).key then none else lookup k t))
  unfolding reset_auth_rate_limit bucket_for clear_in_store clear_auth_rate_limit rate_limit_key
  reset_auth_rate_limit-lookup a rules t k hex =
      rw
        (assert_key_shape-test
          (rate_limit_key normalize_nfkc to_lower_case sha256_hex a.account_value) (hex _))
        (remove (own a rules account).key t, refl, lookup-remove (own a rules account).key k t)
