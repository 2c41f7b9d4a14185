-- ===== src/RateLimits/Policy/Checking.antt =====
-- src/auth/rate_limit.ts: checking without counting against recording.
use ratline.Prelude.{
  ℕ, ◌≤◌, ◌≡◌, ◌↔◌, refl, ap, Bool, true, false, not, ◌&&◌, [], ◌∷◌, Option, none, some, leb, arith,
  Option-cases, inl, inr,
}
use ratline.Prelude.Text.{Text}
use ratline.Regex.{test}
use ratline.RateLimits.{
  Dimension, account, address, Bucket, Window, Table, key_shape, lookup, read_window, live_window,
  is_live,
}
use ratline.RateLimits.Counting.{HasRoom, HasIntRule, has_int_rule_iff}
use ratline.RateLimits.Transactions.{
  with_window, unreachable, returned, Store, down, up, read_auth_rate_limits, assert_keys, read_at,
}
use ratline.RateLimits.Policy.{
  PathRules, AuthAttempt, RateLimitDecision, rate_limit_key, bucket_for, buckets_for,
  check_auth_rate_limit, record_auth_attempt, decided, refuse_unavailable, check_decision,
  check_buckets,
}
use ratline.RateLimits.Policy.Laws.{
  assert_key_shape-test, lock_order-buckets, record_auth_attempt-up, record_auth_attempt-down,
}
use ratline.RateLimits.Policy.Decisions.{mine, decision, decision-allowed_iff}

-- The window is live and its limit is spent.
unfoldable over : ℕ → Bucket → Option Window → Bool
over now b none = false
over now b (some w) = is_live now w && leb b.limit w.attempts

HasRoom-over :
    (now : ℕ) (b : Bucket) (t : Table) → HasRoom now b t ↔ (over now b (lookup b.key t) ≡ false)
unfolding HasRoom over
HasRoom-over now b t = elim (Option-cases (lookup b.key t)) [
  | inl absent ↦ ((λ r. ground (arith, absent)), (λ r w h l. absurd (ground (arith, absent, h))))
  | inr (v, held) ↦
      ((λ r. let room = r v held in ground (arith, held)), (λ r w h l. ground (arith, held, h)))
]

check_decision-over :
    (now at : ℕ) (a b : Bucket) (h g : Option Window)
    → a.key.dimension ≡ account
    → b.key.dimension ≡ address
    → (check_decision now (a ∷ b ∷ []) (
        returned
          (with_window (live_window at a.key h) (with_window (live_window at b.key g) [])))).allowed
      ≡ (not (over at a h) && not (over at b g))
unfolding check_decision check_buckets decided over live_window
check_decision-over now at a b none none da db = refl
check_decision-over now at a b none (some w) da db = ground (arith, da, db)
check_decision-over now at a b (some v) none da db = ground (arith, da, db)
check_decision-over now at a b (some v) (some w) da db = ground (arith, da, db)

module _ (normalize_nfkc to_lower_case sha256_hex : Text → Text) where
  abbrev own : AuthAttempt → PathRules → Dimension → Bucket
  own a rules d = mine normalize_nfkc to_lower_case sha256_hex a rules d

  own-dimension :
      (a : AuthAttempt) (rules : PathRules) (d : Dimension) → (own a rules d).key.dimension ≡ d
  unfolding bucket_for
  own-dimension a rules d = refl

  keys_valid :
      (a : AuthAttempt) (rules : PathRules)
      → ((v : Text) → test key_shape (sha256_hex v) ≡ true)
      → assert_keys ((own a rules account).key ∷ (own a rules address).key ∷ []) ≡ none
  unfolding assert_keys bucket_for rate_limit_key
  keys_valid a rules hex =
      rw
        (
          assert_key_shape-test
              (rate_limit_key normalize_nfkc to_lower_case sha256_hex a.account_value) (hex _),
          assert_key_shape-test
              (rate_limit_key normalize_nfkc to_lower_case sha256_hex a.address_value) (hex _),
        )
        refl

  read_auth_rate_limits-buckets :
      (at : ℕ) (a : AuthAttempt) (rules : PathRules) (t : Table)
      → ((v : Text) → test key_shape (sha256_hex v) ≡ true)
      → read_auth_rate_limits
          (λ _. at)
          ((own a rules account).key ∷ (own a rules address).key ∷ [])
          (up t)
        ≡ returned (
            with_window
              (read_window at (own a rules account).key t)
              (with_window (read_window at (own a rules address).key t) []))
  unfolding read_auth_rate_limits read_at
  read_auth_rate_limits-buckets at a rules t hex =
      rw
        (keys_valid a rules hex, lock_order-buckets normalize_nfkc to_lower_case sha256_hex a rules)
        refl

  check_auth_rate_limit-over :
      (now at : ℕ) (a : AuthAttempt) (rules : PathRules) (t : Table)
      → ((v : Text) → test key_shape (sha256_hex v) ≡ true)
      → (check_auth_rate_limit normalize_nfkc to_lower_case sha256_hex now
          (λ _. at)
          a
          rules
          (up t)).allowed
        ≡ (not (over at (own a rules account) (lookup (own a rules account).key t))
            && not (over at (own a rules address) (lookup (own a rules address).key t)))
  unfolding check_auth_rate_limit buckets_for read_window
  check_auth_rate_limit-over now at a rules t hex =
      rw (read_auth_rate_limits-buckets at a rules t hex) (
        check_decision-over now at (own a rules account) (own a rules address)
          (lookup (own a rules account).key t) (lookup (own a rules address).key t)
          (own-dimension a rules account) (own-dimension a rules address))

  -- At one instant, checking without counting allows an attempt exactly when recording it does, where
  -- digests have the shape of a key, and limits and lengths are positive and below 2 ^ 31.
  pub check_auth_rate_limit-record_auth_attempt :
      (now at : ℕ) (a : AuthAttempt) (rules : PathRules) (store : Store)
      → ((v : Text) → test key_shape (sha256_hex v) ≡ true)
      → ((d : Dimension) → (1 ≤ (own a rules d).limit) × (1 ≤ (own a rules d).window_ms))
      → ((d : Dimension) → HasIntRule (own a rules d))
      → (d : RateLimitDecision) × ((record_auth_attempt normalize_nfkc to_lower_case sha256_hex now
            (λ _. at)
            a
            rules
            store).0
          ≡ returned d)
        × (d.allowed
            ≡ (check_auth_rate_limit normalize_nfkc to_lower_case sha256_hex now
                (λ _. at)
                a
                rules
                store).allowed)
  unfolding check_auth_rate_limit buckets_for read_auth_rate_limits check_decision
  check_auth_rate_limit-record_auth_attempt now at a rules (down e) hex positive fits =
      let ran =
        record_auth_attempt-down normalize_nfkc to_lower_case sha256_hex now (λ _. at) a rules e hex
          positive in
      (refuse_unavailable (unreachable e), ap (λ p. p.0) ran, rw (keys_valid a rules hex) refl)
  check_auth_rate_limit-record_auth_attempt now at a rules (up t) hex positive fits =
      let ran =
        record_auth_attempt-up normalize_nfkc to_lower_case sha256_hex now (λ _. at) a rules t hex
          positive (λ d. (has_int_rule_iff (own a rules d)).1 (fits d)) in
      let core =
        decision-allowed_iff normalize_nfkc to_lower_case sha256_hex now (λ _. at) a rules t in
      let one = HasRoom-over at (own a rules account) t in
      let two = HasRoom-over at (own a rules address) t in
      (
        decision normalize_nfkc to_lower_case sha256_hex now (λ _. at) a rules t,
        ap (λ p. p.0) ran,
        ground (arith, core, one, two, check_auth_rate_limit-over now at a rules t hex),
      )
