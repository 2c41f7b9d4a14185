-- ===== src/RateLimits/Policy/Decisions.antt =====
-- src/auth/rate_limit.ts: when an attempt is allowed, and what it leaves in the table.
use ratline.Prelude.{ℕ, ◌≤◌, ◌≡◌, ◌↔◌, ◌⊎◌, refl, sym, ap, true, false, arith, Bool-cases, inl, inr}
use ratline.Prelude.Text.{Text}
use ratline.Regex.{test}
use ratline.RateLimits.{Dimension, account, address, Bucket, Table, key_shape, key_eq, has_int_rule}
use ratline.RateLimits.Table.{count_in_range, lookup-count_in_range}
use ratline.RateLimits.Counting.{HasRoom, HasIntRule, has_int_rule_iff, count_in_range-counted_iff}
use ratline.RateLimits.Transactions.{returned, Store, down, up}
use ratline.RateLimits.Policy.{
  PathRules, AuthAttempt, RateLimitDecision, bucket_for, record_auth_attempt,
}
use ratline.RateLimits.Policy.Laws.{
  bucket, record_auth_attempt-up, record_auth_attempt-down, record_auth_attempt-out_of_range,
  decision_on, decision_on-allowed_iff,
}

module _ (normalize_nfkc to_lower_case sha256_hex : Text → Text) where
  abbrev pub mine : AuthAttempt → PathRules → Dimension → Bucket
  mine a rules d = bucket normalize_nfkc to_lower_case sha256_hex a rules d

  pub key_eq-dimensions :
      (a : AuthAttempt) (rules : PathRules)
      → key_eq (mine a rules address).key (mine a rules account).key ≡ false
  unfolding bucket_for key_eq
  key_eq-dimensions a rules = refl

  HasRoom-after :
      (i j : ℕ) (a : AuthAttempt) (rules : PathRules) (t : Table)
      → HasRoom j (mine a rules address) (count_in_range i (mine a rules account) t).0
        ↔ HasRoom j (mine a rules address) t
  unfolding HasRoom
  HasRoom-after i j a rules t =
      rw
        (
          lookup-count_in_range i (mine a rules account) (mine a rules address).key t,
          key_eq-dimensions a rules,
        )
        ((λ h. h), (λ h. h))

  abbrev pub decision : ℕ → (ℕ → ℕ) → AuthAttempt → PathRules → Table → RateLimitDecision
  decision now clock a rules t =
      let first = count_in_range (clock 0) (mine a rules account) t in
      decision_on now (mine a rules account) (mine a rules address) first.1
        (count_in_range (clock 1) (mine a rules address) first.0).1

  pub decision-allowed_iff :
      (now : ℕ) (clock : ℕ → ℕ) (a : AuthAttempt) (rules : PathRules) (t : Table)
      → ((decision now clock a rules t).allowed ≡ true)
        ↔ (HasRoom (clock 0) (mine a rules account) t × HasRoom (clock 1) (mine a rules address) t)
  decision-allowed_iff now clock a rules t =
      let first = count_in_range (clock 0) (mine a rules account) t in
      let second = count_in_range (clock 1) (mine a rules address) first.0 in
      let whole =
        decision_on-allowed_iff now (mine a rules account) (mine a rules address) first.1
          second.1 in
      let one = count_in_range-counted_iff (clock 0) (mine a rules account) t in
      let two = count_in_range-counted_iff (clock 1) (mine a rules address) first.0 in
      let same = HasRoom-after (clock 0) (clock 1) a rules t in
      (
        (λ h. let both = whole.0 h in (one.0 both.0, same.0 (two.0 both.1))),
        (λ h. whole.1 (one.1 h.0, two.1 (same.1 h.1))),
      )

  all_fit :
      (a : AuthAttempt) (rules : PathRules)
      → has_int_rule (mine a rules account) ≡ true
      → has_int_rule (mine a rules address) ≡ true
      → (d : Dimension) → has_int_rule (mine a rules d) ≡ true
  all_fit a rules h k account = h
  all_fit a rules h k address = k

  -- The rules of both dimensions fit the database's integers, or one of them does not.
  pub fit_cases :
      (a : AuthAttempt) (rules : PathRules)
      → ((d : Dimension) → has_int_rule (mine a rules d) ≡ true)
        ⊎ ((d : Dimension) × (has_int_rule (mine a rules d) ≡ false))
  fit_cases a rules = elim (Bool-cases (has_int_rule (mine a rules account))) [
    | inr large ↦ inr (account, large)
    | inl fits ↦ elim (Bool-cases (has_int_rule (mine a rules address))) [
      | inr large ↦ inr (address, large)
      | inl others ↦ inl (all_fit a rules fits others)
    ]
  ]

  -- An attempt is allowed exactly when the database is in reach, both limits and both lengths are
  -- below 2 ^ 31, and neither the account's window nor the address's is live and spent; a digest has
  -- the shape of a key and the rules are positive.
  pub record_auth_attempt_iff :
      (now : ℕ) (clock : ℕ → ℕ) (a : AuthAttempt) (rules : PathRules) (store : Store)
      → ((v : Text) → test key_shape (sha256_hex v) ≡ true)
      → ((d : Dimension) → (1 ≤ (mine a rules d).limit) × (1 ≤ (mine a rules d).window_ms))
      → ((d : RateLimitDecision) × ((record_auth_attempt normalize_nfkc to_lower_case sha256_hex now
              clock a rules store).0
            ≡ returned d)
          × (d.allowed ≡ true))
        ↔ ((t : Table) × (store ≡ up t)
            × ((d : Dimension) → HasIntRule (mine a rules d))
            × HasRoom (clock 0) (mine a rules account) t
            × HasRoom (clock 1) (mine a rules address) t)
  record_auth_attempt_iff now clock a rules (down e) hex positive =
      let ran =
        record_auth_attempt-down normalize_nfkc to_lower_case sha256_hex now clock a rules e hex
          positive in
      (
        (λ r. let (d, q, ok) = r in absurd (ground (arith, ran, q, ok))),
        (λ r. let (u, same, fits, one, two) = r in absurd (ground (arith, same))),
      )
  record_auth_attempt_iff now clock a rules (up t) hex positive = elim (fit_cases a rules) [
    | inl fits ↦
        let ran =
          record_auth_attempt-up normalize_nfkc to_lower_case sha256_hex now clock a rules t hex
            positive fits in
        let core = decision-allowed_iff now clock a rules t in
        (
          (λ r.
              let (d, q, ok) = r in
              let both = core.0 (ground (arith, ran, q, ok)) in
              (t, refl, (λ e. (has_int_rule_iff (mine a rules e)).0 (fits e)), both.0, both.1)),
          (λ r.
              let (u, same, ints, one, two) = r in
              let back : u ≡ t = ground (arith, same) in
              (decision now clock a rules t, ap (λ p. p.0) ran, core.1 (rw (sym back) (one, two)))),
        )
    | inr (e, large) ↦
        let ran =
          record_auth_attempt-out_of_range normalize_nfkc to_lower_case sha256_hex now clock a rules
            t e hex positive large in
        (
          (λ r. let (d, q, ok) = r in absurd (ground (arith, ran, q, ok))),
          (λ r.
              let (u, same, ints, one, two) = r in
              absurd (let k = (has_int_rule_iff (mine a rules e)).1 (ints e) in cc (k, large))),
        )
  ]
