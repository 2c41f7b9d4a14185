-- ===== src/RateLimits/Transactions.antt =====
-- src/repo/rate_limits.ts: the exported functions over several buckets, each in one transaction.
-- The instants of a transaction's statements are a function of the statement's place in it.
use ratline.Prelude.{
  ℕ, zero, suc, ◌+◌, Bool, List, [], ◌∷◌, ◌++◌, map, Option, none, some, ltb, if◌then◌else◌,
}
use ratline.Prelude.Text.{Text, lit, text_lt}
use ratline.Regex.{test}
use ratline.RateLimits.{
  AuthPath, login, two_factor, password_reset, token_exchange, Dimension, account, address, Key,
  Bucket, CountedWindow, LiveWindow, Table, key_shape, count_one, read_window,
  clear_auth_rate_limit,
}

-- Why a call threw.
pub data Failure : Type 0 where
  bad_key_shape bad_limit bad_window bucket_vanished counter_missing integer_out_of_range : Failure
  unreachable : Text → Failure

pub data Outcome {ℓ} (A : Type ℓ) : Type ℓ where
  threw : Failure → Outcome A
  returned : A → Outcome A

-- The database as a call finds it: out of reach, or holding the table.
pub data Store : Type 0 where
  down : Text → Store
  up : Table → Store

-- `assertKeyShape`
unfoldable pub assert_key_shape : Text → Option Failure
assert_key_shape bucket_key = if test key_shape bucket_key then none else some bad_key_shape

-- `assertRule`; a limit and a length are natural numbers.
unfoldable pub assert_rule : Bucket → Option Failure
assert_rule b =
    if ltb b.limit 1 then some bad_limit else if ltb b.window_ms 1 then some bad_window else none

abbrev pub or_else {ℓ} : {A : Type ℓ} → Option A → Option A → Option A
or_else none o = o
or_else (some a) o = some a

unfoldable pub assert_buckets : List Bucket → Option Failure
assert_buckets [] = none
assert_buckets (b ∷ bs) =
    or_else (or_else (assert_key_shape b.key.bucket_key) (assert_rule b)) (assert_buckets bs)

unfoldable pub assert_keys : List Key → Option Failure
assert_keys [] = none
assert_keys (k ∷ ks) = or_else (assert_key_shape k.bucket_key) (assert_keys ks)

abbrev pub path_name : AuthPath → Text
path_name login = lit "login"
path_name two_factor = lit "two-factor"
path_name password_reset = lit "password-reset"
path_name token_exchange = lit "token-exchange"

-- `RATE_LIMIT_DIMENSIONS.indexOf`, printed.
abbrev pub dimension_rank : Dimension → Text
dimension_rank account = lit "0"
dimension_rank address = lit "1"

unfoldable pub rank : Key → Text
rank k = dimension_rank k.dimension ++ (lit ":" ++ (path_name k.path ++ (lit ":" ++ k.bucket_key)))

abbrev pub numbered {ℓ} : {A : Type ℓ} → ℕ → List A → List (A × ℕ)
numbered i [] = []
numbered i (x ∷ xs) = (x, i) ∷ numbered (i + 1) xs

-- A stable sort puts an entry before the later ones that are not smaller.
unfoldable pub insert_entry : Text × ℕ → List (Text × ℕ) → List (Text × ℕ)
insert_entry e [] = e ∷ []
insert_entry e (f ∷ fs) = if text_lt f.0 e.0 then f ∷ insert_entry e fs else e ∷ f ∷ fs

unfoldable pub sort_entries : List (Text × ℕ) → List (Text × ℕ)
sort_entries [] = []
sort_entries (e ∷ es) = insert_entry e (sort_entries es)

unfoldable pub lock_order : List Key → List ℕ
lock_order ks = map (λ e. e.1) (sort_entries (map (λ r. (rank r.0, r.1)) (numbered 0 ks)))

abbrev pub at {ℓ} : {A : Type ℓ} → ℕ → List A → Option A
at i [] = none
at zero (x ∷ xs) = some x
at (suc i) (x ∷ xs) = at i xs

-- `results[index] = …`
abbrev pub set_at {ℓ} : {A : Type ℓ} → ℕ → A → List (Option A) → List (Option A)
set_at i a [] = []
set_at zero a (x ∷ xs) = some a ∷ xs
set_at (suc i) a (x ∷ xs) = x ∷ set_at i a xs

-- `new Array(n)`
abbrev pub empty_slots {ℓ} : {A B : Type ℓ} → List B → List (Option A)
empty_slots [] = []
empty_slots (x ∷ xs) = none ∷ empty_slots xs

-- The loop of `countAuthAttempts`: the statements at `done`, `done + 1`, … of the transaction.
unfoldable pub count_at :
    (ℕ → ℕ)
    → ℕ
    → List ℕ
    → List Bucket
    → List (Option CountedWindow)
    → Table
    → Outcome (List (Option CountedWindow) × Table)
count_at clock done [] buckets results t = returned (results, t)
count_at clock done (i ∷ is) buckets results t = elim (at i buckets) [
  | none ↦ threw bucket_vanished
  | some b ↦ elim (count_one (clock done) b t) [
    | none ↦ threw integer_out_of_range
    | some counted ↦ count_at clock (done + 1) is buckets (set_at i counted.1 results) counted.0
  ]
]

-- A call that throws inside the transaction leaves the table as it was.
abbrev pub committed {ℓ} : {A : Type ℓ} → Table → Outcome (A × Table) → Outcome A × Store
committed t (threw f) = (threw f, up t)
committed t (returned (a, u)) = (returned a, up u)

-- `countAuthAttempts` past its validation, in the lock order.
abbrev pub count_validated :
    (ℕ → ℕ)
    → Option Failure
    → List ℕ
    → List Bucket
    → Store
    → Outcome (List (Option CountedWindow)) × Store
count_validated clock (some f) order buckets store = (threw f, store)
count_validated clock none order buckets (down e) = (threw (unreachable e), down e)
count_validated clock none order buckets (up t) =
    committed t (count_at clock 0 order buckets (empty_slots buckets) t)

-- `countAuthAttempts`
unfoldable pub count_auth_attempts :
    (ℕ → ℕ) → List Bucket → Store → Outcome (List (Option CountedWindow)) × Store
count_auth_attempts clock buckets store =
    count_validated clock (assert_buckets buckets) (lock_order (map (λ b. b.key) buckets)) buckets
      store

abbrev pub with_window : Option LiveWindow → List LiveWindow → List LiveWindow
with_window none ws = ws
with_window (some w) ws = w ∷ ws

-- The loop of `readAuthRateLimits`.
unfoldable pub read_at : (ℕ → ℕ) → ℕ → List ℕ → List Key → Table → Outcome (List LiveWindow)
read_at clock done [] keys t = returned []
read_at clock done (i ∷ is) keys t =
    let rest = read_at clock (done + 1) is keys t in
    elim (at i keys) [
      | none ↦ threw bucket_vanished
      | some k ↦ elim rest [
        | threw f ↦ threw f
        | returned ws ↦ returned (with_window (read_window (clock done) k t) ws)
      ]
    ]

-- `readAuthRateLimits` past its validation, in the lock order.
abbrev pub read_validated :
    (ℕ → ℕ) → Option Failure → List ℕ → List Key → Store → Outcome (List LiveWindow)
read_validated clock (some f) order keys store = threw f
read_validated clock none order keys (down e) = threw (unreachable e)
read_validated clock none order keys (up t) = read_at clock 0 order keys t

-- `readAuthRateLimits`
unfoldable pub read_auth_rate_limits : (ℕ → ℕ) → List Key → Store → Outcome (List LiveWindow)
read_auth_rate_limits clock keys store =
    read_validated clock (assert_keys keys) (lock_order keys) keys store

-- `clearAuthRateLimit` past its validation.
abbrev pub clear_validated : Option Failure → Key → Store → Outcome Bool × Store
clear_validated (some f) k store = (threw f, store)
clear_validated none k (down e) = (threw (unreachable e), down e)
clear_validated none k (up t) =
    let cleared = clear_auth_rate_limit k t in (returned cleared.1, up cleared.0)

-- `clearAuthRateLimit`
unfoldable pub clear_in_store : Key → Store → Outcome Bool × Store
clear_in_store k store = clear_validated (assert_key_shape k.bucket_key) k store
