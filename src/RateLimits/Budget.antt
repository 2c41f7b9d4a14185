-- ===== src/RateLimits/Budget.antt =====
-- What the windows of src/repo/rate_limits.ts promise over a run of statements.
use ratline.Prelude.{
  ℕ, ◌+◌, ◌-◌, ◌≤◌, ◌≡◌, refl, Bool, true, false, not, ◌&&◌, ◌||◌, List, [], ◌∷◌, Option, none,
  some, ltb, leb, all, arith, if◌then◌else◌, filter, ◌==◌, ==_iff, Bool-cases, inl, inr,
}
use ratline.RateLimits.{
  Key, Bucket, Window, Table, key_eq, key_eq_iff, lookup, CountedWindow, has_int_rule, counted_row,
  count_one, write, is_live, prune, clear_auth_rate_limit,
}
use ratline.RateLimits.Table.{
  count_in_range, count_one-in_range, count_one-out_of_range, lookup-count_in_range, lookup-write,
  lookup-remove, key_eq_refl, is_keyed, upsert-is_keyed, remove-is_keyed, only_live, kept_live,
  lookup-only_live, only_live-is_keyed,
}

pub data Statement : Type 0 where
  counting : Bucket → Statement
  clearing : Key → Statement
  pruning : Statement

-- The table after a counting statement; one that fails leaves it as it was.
abbrev pub table_after : Table → Option (Table × CountedWindow) → Table
table_after t none = t
table_after t (some r) = r.0

abbrev pub was_counted : Option (Table × CountedWindow) → Bool
was_counted none = false
was_counted (some r) = r.1.counted

-- One statement at an instant.
unfoldable pub step : ℕ → Statement → Table → Table
step now (counting b) t = table_after t (count_one now b t)
step now (clearing k) t = (clear_auth_rate_limit k t).0
step now pruning t = (prune now t).0

-- A run of statements, each with its instant.
unfoldable pub run : List (ℕ × Statement) → Table → Table
run [] t = t
run ((now, s) ∷ ss) t = run ss (step now s t)

-- One when the statement counted an attempt against the key.
unfoldable pub counted_once : Key → ℕ → Statement → Table → ℕ
counted_once k now (counting b) t =
    if key_eq k b.key && was_counted (count_one now b t) then 1 else 0
counted_once k now (clearing j) t = 0
counted_once k now pruning t = 0

-- The attempts against the key that a run lets through.
unfoldable pub counted_in : Key → List (ℕ × Statement) → Table → ℕ
counted_in k [] t = 0
counted_in k ((now, s) ∷ ss) t = counted_once k now s t + counted_in k ss (step now s t)

-- The statement stands in the period, it does not clear the key, and it counts the key under the
-- rule of the bucket.
unfoldable pub is_within : ℕ → ℕ → Bucket → ℕ × Statement → Bool
is_within from until rule (now, counting b) =
    leb from now
    && ltb now until
    && (not (key_eq rule.key b.key) || (b.limit == rule.limit && b.window_ms == rule.window_ms))
is_within from until rule (now, clearing k) =
    leb from now && ltb now until && not (key_eq rule.key k)
is_within from until rule (now, pruning) = leb from now && ltb now until

pub write-is_keyed :
    (b : Bucket) (row : Window × Bool) (t : Table)
    → is_keyed t ≡ true
    → is_keyed (write b row t) ≡ true
write-is_keyed b (w, true) t h = upsert-is_keyed b.key w t h
write-is_keyed b (w, false) t h = h

prune-is_keyed :
    (now : ℕ) (t : Table) → is_keyed t ≡ true → is_keyed (filter (λ r. is_live now r.1) t) ≡ true
unfolding only_live
prune-is_keyed now t h = only_live-is_keyed now t h

pub lookup-prune :
    (now : ℕ) (k : Key) (t : Table)
    → is_keyed t ≡ true
    → lookup k (prune now t).0 ≡ kept_live now (lookup k t)
unfolding only_live prune
lookup-prune now k t h = lookup-only_live now k t h

-- Every statement leaves at most one row under each key when at most one stood there.
pub step-is_keyed :
    (now : ℕ) (s : Statement) (t : Table) → is_keyed t ≡ true → is_keyed (step now s t) ≡ true
unfolding step clear_auth_rate_limit prune count_in_range
step-is_keyed now (counting b) t h = elim (Bool-cases (has_int_rule b)) [
  | inl fits ↦
      rw (count_one-in_range now b t fits)
        (write-is_keyed b (counted_row now b (lookup b.key t)) t h)
  | inr large ↦ rw (count_one-out_of_range now b t large) h
]
step-is_keyed now (clearing k) t h = remove-is_keyed k t h
step-is_keyed now pruning t h = prune-is_keyed now t h

-- How many attempts the key still has before `until`.
unfoldable pub room : ℕ → ℕ → Option Window → ℕ
room until limit none = limit
room until limit (some w) =
    if leb until w.expires_at then limit - w.attempts else (limit - w.attempts) + limit

counted_row-room :
    (from until now : ℕ) (b : Bucket) (held : Option Window)
    → leb from now ≡ true
    → ltb now until ≡ true
    → until ≤ from + b.window_ms
    → 1 ≤ b.limit
    → (if (counted_row now b held).1 then 1 else 0)
        + room until b.limit (some (counted_row now b held).0)
      ≤ room until b.limit held
unfolding counted_row room
counted_row-room from until now b none f u e l = ground arith
counted_row-room from until now b (some w) f u e l = ground arith

kept_live-room :
    (until limit now : ℕ) (held : Option Window)
    → ltb now until ≡ true
    → room until limit (kept_live now held) ≤ room until limit held
unfolding kept_live room
kept_live-room until limit now none u = ground arith
kept_live-room until limit now (some w) u = ground arith

count_one-room :
    (from until now : ℕ) (b : Bucket) (t : Table)
    → leb from now ≡ true
    → ltb now until ≡ true
    → until ≤ from + b.window_ms
    → 1 ≤ b.limit
    → (if was_counted (count_one now b t) then 1 else 0)
        + room until b.limit (lookup b.key (table_after t (count_one now b t)))
      ≤ room until b.limit (lookup b.key t)
unfolding count_in_range
count_one-room from until now b t f u e l = elim (Bool-cases (has_int_rule b)) [
  | inl fits ↦
      rw
        (
          count_one-in_range now b t fits,
          lookup-write now b b.key t (lookup b.key t) refl,
          key_eq_refl b.key,
        )
        (counted_row-room from until now b (lookup b.key t) f u e l)
  | inr large ↦ rw (count_one-out_of_range now b t large) (omega arith)
]

lookup-table_after :
    (now : ℕ) (b : Bucket) (j : Key) (t : Table)
    → key_eq j b.key ≡ false
    → lookup j (table_after t (count_one now b t)) ≡ lookup j t
lookup-table_after now b j t other = elim (Bool-cases (has_int_rule b)) [
  | inl fits ↦
      rw (count_one-in_range now b t fits) (ground (arith, lookup-count_in_range now b j t, other))
  | inr large ↦ rw (count_one-out_of_range now b t large) refl
]

pub counted_once-room :
    (from : ℕ) (rule : Bucket) (until : ℕ) (now : ℕ) (s : Statement) (t : Table)
    → is_keyed t ≡ true
    → until ≤ from + rule.window_ms
    → 1 ≤ rule.limit
    → is_within from until rule (now, s) ≡ true
    → counted_once rule.key now s t + room until rule.limit (lookup rule.key (step now s t))
      ≤ room until rule.limit (lookup rule.key t)
unfolding counted_once step is_within clear_auth_rate_limit
counted_once-room from rule until now (counting b) t h e l i =
    elim (Bool-cases (key_eq rule.key b.key)) [
      | inl same ↦
          let k : rule.key ≡ b.key = (key_eq_iff rule.key b.key).0 same in
          let lim : b.limit ≡ rule.limit = ground (arith, ==_iff b.limit rule.limit) in
          let win : b.window_ms ≡ rule.window_ms =
            ground (arith, ==_iff b.window_ms rule.window_ms) in
          let mine =
            count_one-room from until now b t (ground arith) (ground arith) (ground arith)
              (ground arith) in
          ground arith
      | inr other ↦ ground (arith, lookup-table_after now b rule.key t)
    ]
counted_once-room from rule until now (clearing k) t h e l i =
    ground (arith, lookup-remove k rule.key t, key_eq_iff rule.key k, key_eq_iff k rule.key)
counted_once-room from rule until now pruning t h e l i =
    grind (
      arith,
      lookup-prune now rule.key t h,
      kept_live-room until rule.limit now (lookup rule.key t),
    )

-- A run gets no more attempts on a key than the key has room for, in a period no longer than the
-- window.
pub counted_in-room :
    (from until : ℕ) (rule : Bucket) (ss : List (ℕ × Statement)) (t : Table)
    → is_keyed t ≡ true
    → until ≤ from + rule.window_ms
    → 1 ≤ rule.limit
    → all (is_within from until rule) ss ≡ true
    → counted_in rule.key ss t + room until rule.limit (lookup rule.key (run ss t))
      ≤ room until rule.limit (lookup rule.key t)
unfolding counted_in run
counted_in-room from until rule [] t h e l i = ground arith
counted_in-room from until rule ((now, s) ∷ ss) t h e l i =
    let parts : (is_within from until rule (now, s) ≡ true)
        × (all (is_within from until rule) ss ≡ true) =
      ground arith in
    let first = counted_once-room from rule until now s t h e l parts.0 in
    let rest =
      counted_in-room from until rule ss (step now s t) (step-is_keyed now s t h) e l parts.1 in
    ground arith

room_le : (until limit : ℕ) (held : Option Window) → room until limit held ≤ limit + limit
unfolding room
room_le until limit none = ground arith
room_le until limit (some w) = ground arith

-- Whatever the table holds under the key before, a run of statements, in any order, counts at most
-- twice the limit of attempts against the key within any period no longer than the window, when
-- every statement on the key counts it under the same rule and none clears the key.
pub counted_in-twice_limit :
    (from until : ℕ) (rule : Bucket) (ss : List (ℕ × Statement)) (t : Table)
    → is_keyed t ≡ true
    → until ≤ from + rule.window_ms
    → 1 ≤ rule.limit
    → all (is_within from until rule) ss ≡ true
    → counted_in rule.key ss t ≤ rule.limit + rule.limit
counted_in-twice_limit from until rule ss t h e l i =
    let most = counted_in-room from until rule ss t h e l i in
    let bound = room_le until rule.limit (lookup rule.key t) in ground arith

-- As long as a window that holds `attempts` attempts, at most the limit, is open under the key, a
-- run of statements counts at most `limit - attempts` further ones, when every statement on the key
-- counts it under the rule the window was opened with and none clears the key.
pub counted_in-window :
    (rule : Bucket) (w : Window) (ss : List (ℕ × Statement)) (t : Table)
    → is_keyed t ≡ true
    → lookup rule.key t ≡ some w
    → w.expires_at ≡ w.window_started_at + rule.window_ms
    → w.attempts ≤ rule.limit
    → 1 ≤ rule.limit
    → all (is_within w.window_started_at w.expires_at rule) ss ≡ true
    → counted_in rule.key ss t + w.attempts ≤ rule.limit
unfolding room
counted_in-window rule w ss t h held ends a l i =
    let most = counted_in-room w.window_started_at w.expires_at rule ss t h (ground arith) l i in
    ground (arith, held)
