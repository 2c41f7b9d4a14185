-- ===== src/RateLimits/Table.antt =====
-- The table of windows as a map from keys.
use ratline.Prelude.{
  ℕ, ◌+◌, ◌&&◌, not, is_some, ◌≡◌, refl, Bool, true, false, [], ◌∷◌, Option, none, some, leb, ltb,
  arith, filter, if◌then◌else◌, inl, inr, Bool-cases,
}
use ratline.RateLimits.{
  Key, Bucket, Window, Table, key_eq, key_eq_iff, lookup, upsert, remove, counted_row,
  counted_window, CountedWindow, has_int_rule, count_row, count_one, write, opened, is_live,
}

pub lookup-upsert :
    (k j : Key) (w : Window) (t : Table)
    → lookup j (upsert k w t) ≡ (if key_eq j k then some w else lookup j t)
unfolding lookup upsert
lookup-upsert k j w [] = refl
lookup-upsert k j w ((i, v) ∷ t) =
    ground (arith, key_eq_iff j i, key_eq_iff k i, key_eq_iff j k, lookup-upsert k j w t)

pub lookup-remove :
    (k j : Key) (t : Table) → lookup j (remove k t) ≡ (if key_eq j k then none else lookup j t)
unfolding lookup remove
lookup-remove k j [] = ground arith
lookup-remove k j ((i, v) ∷ t) =
    ground (arith, key_eq_iff j i, key_eq_iff k i, key_eq_iff j k, lookup-remove k j t)

pub key_eq_refl : (k : Key) → key_eq k k ≡ true
key_eq_refl k = (key_eq_iff k k).1 refl

pub lookup-write :
    (now : ℕ) (b : Bucket) (j : Key) (t : Table) (held : Option Window)
    → lookup b.key t ≡ held
    → lookup j (write b (counted_row now b held) t)
      ≡ (if key_eq j b.key then some (counted_row now b held).0 else lookup j t)
unfolding counted_row
lookup-write now b j t none h = lookup-upsert b.key j (opened now b) t
lookup-write now b j t (some w) h = elim (Bool-cases (leb w.expires_at now)) [
  | inl ended ↦ ground (arith, lookup-upsert b.key j (opened now b) t)
  | inr live ↦ elim (Bool-cases (ltb w.attempts b.limit)) [
    | inl room ↦ ground (arith, lookup-upsert b.key j (record w { attempts = w.attempts + 1 }) t)
    | inr spent ↦ ground (arith, h, key_eq_iff j b.key)
  ]
]

-- The statement where the rule fits the casts.
unfoldable pub count_in_range : ℕ → Bucket → Table → Table × CountedWindow
count_in_range now b t =
    let row = counted_row now b (lookup b.key t) in (write b row t, counted_window b row)

pub count_one-in_range :
    (now : ℕ) (b : Bucket) (t : Table)
    → has_int_rule b ≡ true
    → count_one now b t ≡ some (count_in_range now b t)
unfolding count_one count_row count_in_range
count_one-in_range now b t h = rw h refl

pub count_one-out_of_range :
    (now : ℕ) (b : Bucket) (t : Table) → has_int_rule b ≡ false → count_one now b t ≡ none
unfolding count_one count_row
count_one-out_of_range now b t h = rw h refl

pub lookup-count_in_range :
    (now : ℕ) (b : Bucket) (j : Key) (t : Table)
    → lookup j (count_in_range now b t).0
      ≡ (if key_eq j b.key then some (counted_row now b (lookup b.key t)).0 else lookup j t)
unfolding count_in_range
lookup-count_in_range now b j t = lookup-write now b j t (lookup b.key t) refl

-- The primary key: no key stands in two rows.
unfoldable pub is_keyed : Table → Bool
is_keyed [] = true
is_keyed ((k, w) ∷ t) = not (is_some (lookup k t)) && is_keyed t

pub upsert-is_keyed :
    (k : Key) (w : Window) (t : Table) → is_keyed t ≡ true → is_keyed (upsert k w t) ≡ true
unfolding is_keyed upsert lookup
upsert-is_keyed k w [] h = refl
upsert-is_keyed k w ((j, v) ∷ t) h =
    ground (arith, lookup-upsert k j w t, key_eq_iff k j, key_eq_iff j k, upsert-is_keyed k w t)

pub remove-is_keyed : (k : Key) (t : Table) → is_keyed t ≡ true → is_keyed (remove k t) ≡ true
unfolding is_keyed remove
remove-is_keyed k [] h = refl
remove-is_keyed k ((j, v) ∷ t) h = ground (arith, lookup-remove k j t, remove-is_keyed k t)

-- What a window is worth once the dead ones are deleted.
unfoldable pub kept_live : ℕ → Option Window → Option Window
kept_live now none = none
kept_live now (some w) = if is_live now w then some w else none

unfoldable pub only_live : ℕ → Table → Table
only_live now t = filter (λ r. is_live now r.1) t

pub lookup-only_live :
    (now : ℕ) (k : Key) (t : Table)
    → is_keyed t ≡ true
    → lookup k (only_live now t) ≡ kept_live now (lookup k t)
unfolding is_keyed lookup only_live kept_live
lookup-only_live now k [] h = refl
lookup-only_live now k ((j, v) ∷ t) h = ground (arith, lookup-only_live now k t, key_eq_iff k j)

pub only_live-is_keyed :
    (now : ℕ) (t : Table) → is_keyed t ≡ true → is_keyed (only_live now t) ≡ true
unfolding is_keyed only_live kept_live
only_live-is_keyed now [] h = refl
only_live-is_keyed now ((j, v) ∷ t) h =
    ground (arith, lookup-only_live now j t, only_live-is_keyed now t)
