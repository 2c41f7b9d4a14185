-- ===== src/RateLimits.antt =====
-- src/repo/rate_limits.ts: the table of windows and the statements that touch it, for one tenant.
-- The table is the list of its rows, `now` is `statement_timestamp()`, and a bucket's key is the
-- text of a digest.
pub mod Table
pub mod Transactions
pub mod Locks
pub mod Policy
pub mod Budget
pub mod Counting
use ratline.Prelude.{
  ℕ, zero, suc, ◌+◌, ◌≡◌, ◌↔◌, refl, Bool, true, false, not, ◌&&◌, ◌||◌, List, [], ◌∷◌, Option,
  none, some, ltb, leb, all, arith, if◌then◌else◌, length, filter,
}
use ratline.Prelude.Text.{Text, lit, text_eq, text_eq_iff, text_lt}
use ratline.Regex.{Regex, class, exactly, test}

pub data AuthPath : Type 0 where
  login two_factor password_reset token_exchange : AuthPath

pub data Dimension : Type 0 where
  account address : Dimension

abbrev pub rate_limit_dimensions : List Dimension
rate_limit_dimensions = account ∷ address ∷ []

pub record Key : Type 0 where
  pub dimension : Dimension
  pub path : AuthPath
  pub bucket_key : Text

pub record Bucket : Type 0 where
  pub key : Key
  pub limit : ℕ
  pub window_ms : ℕ

pub record Window : Type 0 where
  pub attempts : ℕ
  pub window_started_at : ℕ
  pub expires_at : ℕ

pub record CountedWindow : Type 0 where
  pub dimension : Dimension
  pub attempts : ℕ
  pub window_ends_at : ℕ
  pub counted : Bool

pub record LiveWindow : Type 0 where
  pub dimension : Dimension
  pub attempts : ℕ
  pub window_ends_at : ℕ

abbrev pub same_dimension : Dimension → Dimension → Bool
same_dimension account account = true
same_dimension address address = true
same_dimension _ _ = false

abbrev pub same_path : AuthPath → AuthPath → Bool
same_path login login = true
same_path two_factor two_factor = true
same_path password_reset password_reset = true
same_path token_exchange token_exchange = true
same_path _ _ = false

unfoldable pub key_eq : Key → Key → Bool
key_eq a b =
    same_dimension a.dimension b.dimension
    && same_path a.path b.path
    && text_eq a.bucket_key b.bucket_key

pub key_eq_iff : (a b : Key) → (key_eq a b ≡ true) ↔ (a ≡ b)
unfolding key_eq
key_eq_iff a b = ground (arith, text_eq_iff a.bucket_key b.bucket_key)

abbrev pub Table : Type 0
Table = List (Key × Window)

unfoldable pub lookup : Key → Table → Option Window
lookup k [] = none
lookup k ((j, w) ∷ t) = if key_eq k j then some w else lookup k t

-- The write of an upsert.
unfoldable pub upsert : Key → Window → Table → Table
upsert k w [] = (k, w) ∷ []
upsert k w ((j, v) ∷ t) = if key_eq k j then (j, w) ∷ t else (j, v) ∷ upsert k w t

unfoldable pub remove : Key → Table → Table
remove k [] = []
remove k ((j, v) ∷ t) = if key_eq k j then remove k t else (j, v) ∷ remove k t

-- `/^[0-9a-f]{64}$/`
unfoldable pub key_shape : Regex
unfolding exactly
key_shape = exactly 64 (class ((b'0', b'9') ∷ (b'a', b'f') ∷ []))

-- `assertKeyShape` and `assertRule`.
unfoldable pub is_valid_bucket : Bucket → Bool
is_valid_bucket b = test key_shape b.key.bucket_key && (leb 1 b.limit && leb 1 b.window_ms)

abbrev pub opened : ℕ → Bucket → Window
opened now b = record { attempts = 1; window_started_at = now; expires_at = now + b.window_ms }

-- `COUNT_ATTEMPT` past its casts: the row after the statement, and whether it was written.
unfoldable pub counted_row : ℕ → Bucket → Option Window → Window × Bool
counted_row now b none = (opened now b, true)
counted_row now b (some w) =
    if leb w.expires_at now
    then (opened now b, true)
    else if ltb w.attempts b.limit
    then (record w { attempts = w.attempts + 1 }, true)
    else (w, false)

-- The casts `$4::int` and `$5::int`: PostgreSQL's integer has 32 bits, with a sign.
abbrev pub has_int_rule : Bucket → Bool
has_int_rule b = ltb b.window_ms 2147483648 && ltb b.limit 2147483648

-- `COUNT_ATTEMPT`; `none` is the error that a value is out of range for type integer.
unfoldable pub count_row : ℕ → Bucket → Option Window → Option (Window × Bool)
count_row now b held = if has_int_rule b then some (counted_row now b held) else none

abbrev pub counted_window : Bucket → Window × Bool → CountedWindow
counted_window b (w, counted) = record {
  dimension = b.key.dimension;
  attempts = w.attempts;
  window_ends_at = w.expires_at;
  counted = counted;
}

abbrev pub write : Bucket → Window × Bool → Table → Table
write b (w, true) t = upsert b.key w t
write b (w, false) t = t

abbrev pub answered : Bucket → Table → Option (Window × Bool) → Option (Table × CountedWindow)
answered b t none = none
answered b t (some row) = some (write b row t, counted_window b row)

-- `countOne`; `none` is the statement's error.
unfoldable pub count_one : ℕ → Bucket → Table → Option (Table × CountedWindow)
count_one now b t = answered b t (count_row now b (lookup b.key t))

abbrev pub is_live : ℕ → Window → Bool
is_live now w = ltb now w.expires_at

-- A row as `readAuthRateLimits` answers it, unless its window has ended.
unfoldable pub live_window : ℕ → Key → Option Window → Option LiveWindow
live_window now k none = none
live_window now k (some w) =
    if is_live now w
    then some
        (record { dimension = k.dimension; attempts = w.attempts; window_ends_at = w.expires_at })
    else none

-- `READ_WINDOW`
unfoldable pub read_window : ℕ → Key → Table → Option LiveWindow
read_window now k t = live_window now k (lookup k t)

-- `clearAuthRateLimit`: the table without the key, and whether it held one.
unfoldable pub clear_auth_rate_limit : Key → Table → Table × Bool
clear_auth_rate_limit k t = (remove k t, elim (lookup k t) [ none ↦ false | some w ↦ true ])

-- `pruneAuthRateLimits`: the table without dead windows, and how many they were.
unfoldable pub prune : ℕ → Table → Table × ℕ
prune now t = (filter (λ r. is_live now r.1) t, length (filter (λ r. leb r.1.expires_at now) t))
