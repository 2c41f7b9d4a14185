-- ===== src/Tests/RateLimits.antt =====
-- src/repo/rate_limits.ts and src/auth/rate_limit.ts at a table of two windows.
use ratline.Prelude.{
  Among, ℕ, suc, zero, ◌+◌, ◌≤◌, ◌≡◌, refl, true, false, List, [], ◌∷◌, some, arith, all,
}
use mathlib.Core.Option.{map as option_map}
use ratline.Prelude.Text.{text_lt, Text, lit, text_eq}
use ratline.Prelude.Text.Trim.{trim, trim_end, trim_start, is_space}
use ratline.Regex.{test, exactly}
use ratline.RateLimits.{
  Key, login, Dimension, account, address, Bucket, Window, CountedWindow, Table, key_eq, key_shape,
  lookup, upsert, counted_row, count_one, count_row, prune,
}
use ratline.RateLimits.Table.{is_keyed}
use ratline.RateLimits.Budget.{
  Statement, counting, pruning, step, counted_in, counted_once, is_within, counted_in-twice_limit,
  counted_in-window,
}
use ratline.RateLimits.Counting.{HasRoom, HasIntRule, count_one-counted_iff, count_one-prune}
use ratline.RateLimits.Transactions.{lock_order, rank, insert_entry, sort_entries, returned, up}
use ratline.RateLimits.Locks.{IsLocked, lock_order-IsLocked}
use ratline.RateLimits.Policy.{
  auth_rate_limits, AuthAttempt, RateLimitDecision, bucket_for, record_auth_attempt,
  check_auth_rate_limit, reset_auth_rate_limit, rate_limit_key,
}
use ratline.RateLimits.Policy.Decisions.{record_auth_attempt_iff}
use ratline.RateLimits.Policy.Effects.{record_auth_attempt-lookup, reset_auth_rate_limit-lookup}
use ratline.RateLimits.Policy.Checking.{check_auth_rate_limit-record_auth_attempt}

abbrev many : ℕ → ℕ → Text
many zero c = []
many (suc n) c = c ∷ many n c

-- Two digests: that of the empty text and that of all others.
abbrev digest : Text → Text
digest [] = many 64 b'a'
digest (c ∷ s) = many 64 b'b'

digest_shape : (v : Text) → test key_shape (digest v) ≡ true
unfolding test key_shape exactly
digest_shape [] = refl
digest_shape (c ∷ s) = refl

abbrev plain : Text → Text
plain s = s

abbrev alice : AuthAttempt
alice = record { path = login; account_value = lit "alice@example.org"; address_value = [] }

abbrev alice_bucket : Bucket
alice_bucket = record {
  key = record { dimension = account; path = login; bucket_key = many 64 b'b' };
  limit = 2;
  window_ms = 100;
}

abbrev office_bucket : Bucket
office_bucket = record {
  key = record { dimension = address; path = login; bucket_key = many 64 b'a' };
  limit = 3;
  window_ms = 100;
}

abbrev spent_once : Window
spent_once = record { attempts = 1; window_started_at = 1000; expires_at = 1100 }

abbrev spent_twice : Window
spent_twice = record { attempts = 2; window_started_at = 1000; expires_at = 1100 }

abbrev ended : Window
ended = record { attempts = 3; window_started_at = 800; expires_at = 900 }

abbrev table : Table
table = (alice_bucket.key, spent_once) ∷ (office_bucket.key, ended) ∷ []

abbrev full : Table
full = (alice_bucket.key, spent_twice) ∷ (office_bucket.key, ended) ∷ []

table_keyed : is_keyed table ≡ true
unfolding is_keyed lookup key_eq text_eq
table_keyed = refl

abbrev attempts : List (ℕ × Statement)
attempts =
    (1010, counting alice_bucket)
    ∷ (1020, pruning)
    ∷ (1030, counting office_bucket)
    ∷ (1040, counting alice_bucket)
    ∷ []

all_within : all (is_within 1000 1100 alice_bucket) attempts ≡ true
unfolding is_within key_eq text_eq
all_within = refl

held : lookup alice_bucket.key table ≡ some spent_once
unfolding lookup key_eq text_eq
held = refl

counted_now : counted_in alice_bucket.key attempts table ≡ 1
unfolding counted_in counted_once step count_one count_row counted_row lookup upsert key_eq text_eq
    prune
counted_now = refl

counted_in-twice_limit_example : counted_in alice_bucket.key attempts table ≤ 4
counted_in-twice_limit_example =
    counted_in-twice_limit 1000 1100 alice_bucket attempts table table_keyed (omega arith)
      (omega arith) all_within

counted_in-window_example : counted_in alice_bucket.key attempts table + 1 ≤ 2
counted_in-window_example =
    counted_in-window alice_bucket spent_once attempts table table_keyed held refl (omega arith)
      (omega arith) all_within

room_here : HasRoom 1010 alice_bucket table
unfolding HasRoom lookup key_eq text_eq
room_here w h l = ground (arith, h)

count_one-counted_iff_example :
    (r : Table × CountedWindow) × (count_one 1010 alice_bucket table ≡ some r)
    × (r.1.counted ≡ true)
count_one-counted_iff_example =
    (count_one-counted_iff 1010 alice_bucket table).1 ((omega arith, omega arith), room_here)

refused_here : option_map (λ r. r.1.counted) (count_one 1010 alice_bucket full) ≡ some false
unfolding count_one count_row counted_row lookup key_eq text_eq
refused_here = refl

count_one-prune_example :
    option_map (λ r. r.1) (count_one 1020 office_bucket (prune 1010 table).0)
    ≡ option_map (λ r. r.1) (count_one 1020 office_bucket table)
count_one-prune_example = count_one-prune 1010 1020 office_bucket table table_keyed (omega arith)

positive_rules :
    (d : Dimension)
    → (1 ≤ (bucket_for plain plain digest alice (auth_rate_limits login) d).limit)
      × (1 ≤ (bucket_for plain plain digest alice (auth_rate_limits login) d).window_ms)
unfolding bucket_for auth_rate_limits
positive_rules account = (omega arith, omega arith)
positive_rules address = (omega arith, omega arith)

int_rules :
    (d : Dimension) → HasIntRule (bucket_for plain plain digest alice (auth_rate_limits login) d)
unfolding bucket_for auth_rate_limits
int_rules account = (omega arith, omega arith)
int_rules address = (omega arith, omega arith)

abbrev clock : ℕ → ℕ
clock i = 1010 + i

room_for :
    (d : Dimension) (i : ℕ)
    → HasRoom (clock i) (bucket_for plain plain digest alice (auth_rate_limits login) d) full
unfolding bucket_for auth_rate_limits HasRoom lookup key_eq text_eq rate_limit_key
room_for account i w h l = ground (arith, h)
room_for address i w h l = ground (arith, h)

record_auth_attempt_iff_example :
    (d : RateLimitDecision) × ((record_auth_attempt plain plain digest 1015 clock alice
        (auth_rate_limits login)
        (up full)).0
      ≡ returned d)
    × (d.allowed ≡ true)
record_auth_attempt_iff_example =
    (record_auth_attempt_iff plain plain digest 1015 clock alice (auth_rate_limits login) (up full)
        digest_shape positive_rules).1
      (full, refl, int_rules, room_for account 0, room_for address 1)

record_auth_attempt-lookup_example :
    (u : Table) × ((record_auth_attempt plain plain digest 1015 clock alice
        (auth_rate_limits login)
        (up full)).1
      ≡ up u)
    × (lookup office_bucket.key u
        ≡ some (record { attempts = 1; window_started_at = 1011; expires_at = 901011 }))
unfolding bucket_for auth_rate_limits lookup key_eq text_eq rate_limit_key counted_row trim trim_end
    trim_start is_space
record_auth_attempt-lookup_example =
    record_auth_attempt-lookup plain plain digest 1015 clock alice (auth_rate_limits login) full
      office_bucket.key digest_shape positive_rules int_rules

check_auth_rate_limit-record_auth_attempt_example :
    (d : RateLimitDecision) × ((record_auth_attempt plain plain digest 1015
        (λ _. 1010)
        alice
        (auth_rate_limits login)
        (up full)).0
      ≡ returned d)
    × (d.allowed
        ≡ (check_auth_rate_limit plain plain digest 1015
            (λ _. 1010)
            alice
            (auth_rate_limits login)
            (up full)).allowed)
check_auth_rate_limit-record_auth_attempt_example =
    check_auth_rate_limit-record_auth_attempt plain plain digest 1015 1010 alice
      (auth_rate_limits login) (up full) digest_shape positive_rules int_rules

reset_auth_rate_limit-lookup_example :
    (u : Table) × ((reset_auth_rate_limit plain plain digest alice (up full)).1 ≡ up u)
    × (lookup office_bucket.key u ≡ some ended)
unfolding bucket_for lookup key_eq text_eq rate_limit_key
reset_auth_rate_limit-lookup_example =
    reset_auth_rate_limit-lookup plain plain digest alice (auth_rate_limits login) full
      office_bucket.key digest_shape

abbrev named : List Key
named = office_bucket.key ∷ alice_bucket.key ∷ []

account_first : lock_order named ≡ 1 ∷ 0 ∷ []
unfolding lock_order rank sort_entries insert_entry text_lt
account_first = refl

lock_order-IsLocked_example : IsLocked named (lock_order named) × Among 0 (lock_order named)
lock_order-IsLocked_example = lock_order-IsLocked named 0 office_bucket.key refl
