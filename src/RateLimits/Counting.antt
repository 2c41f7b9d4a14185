-- ===== src/RateLimits/Counting.antt =====
-- src/repo/rate_limits.ts: what one counting statement answers, and what it leaves alone.
use ratline.Prelude.{
  ℕ, ◌≤◌, ◌<◌, ◌≡◌, refl, Bool, true, false, Option, none, some, ltb, arith, Option-cases,
  Bool-cases, inl, inr, sym, ap, ◌∙◌, ◌↔◌,
}
use mathlib.Core.Option.{some-injective, map as option_map}
use ratline.RateLimits.{
  Bucket, Window, CountedWindow, Table, lookup, has_int_rule, counted_row, count_row, count_one,
  write, counted_window, prune,
}
use ratline.RateLimits.Table.{
  is_keyed, kept_live, count_in_range, count_one-in_range, count_one-out_of_range,
}
use ratline.RateLimits.Budget.{lookup-prune}

-- No live window under the bucket's key has spent its limit.
unfoldable pub HasRoom : ℕ → Bucket → Table → Type 0
HasRoom now b t =
    (w : Window) → lookup b.key t ≡ some w → ltb now w.expires_at ≡ true → w.attempts < b.limit

-- The rule fits the integers of PostgreSQL.
abbrev pub HasIntRule : Bucket → Type 0
HasIntRule b = (b.window_ms < 2147483648) × (b.limit < 2147483648)

pub has_int_rule_iff : (b : Bucket) → (has_int_rule b ≡ true) ↔ HasIntRule b
has_int_rule_iff b = ground arith

pub count_in_range-counted_iff :
    (now : ℕ) (b : Bucket) (t : Table)
    → ((count_in_range now b t).1.counted ≡ true) ↔ HasRoom now b t
unfolding count_in_range counted_row HasRoom
count_in_range-counted_iff now b t = elim (Option-cases (lookup b.key t)) [
  | inl absent ↦ (λ c w h l. ground (arith, absent, h), λ r. ground (arith, absent))
  | inr (v, held) ↦
      (λ c w h l. ground (arith, held, h), λ r. let bound = r v held in ground (arith, held))
]

-- The statement counts an attempt exactly when the limit and the length of its rule are below 2 ^ 31
-- and no live window under its key has spent the limit; with a larger one it fails.
pub count_one-counted_iff :
    (now : ℕ) (b : Bucket) (t : Table)
    → ((r : Table × CountedWindow) × (count_one now b t ≡ some r) × (r.1.counted ≡ true))
      ↔ (HasIntRule b × HasRoom now b t)
count_one-counted_iff now b t = elim (Bool-cases (has_int_rule b)) [
  | inl fits ↦
      let ran = count_one-in_range now b t fits in
      let counted = count_in_range-counted_iff now b t in
      let ints = has_int_rule_iff b in
      (
        (λ h.
            let (r, e, c) = h in
            let same : count_in_range now b t ≡ r = some-injective _ _ (sym ran ∙ e) in
            (ints.0 fits, counted.0 (ap (λ q. q.1.counted) same ∙ c))),
        (λ h. (count_in_range now b t, ran, counted.1 h.1)),
      )
  | inr large ↦
      let ran = count_one-out_of_range now b t large in
      let ints = has_int_rule_iff b in
      (
        (λ h. let (r, e, c) = h in absurd (let k : none ≡ some r = sym ran ∙ e in cc k)),
        (λ h. absurd (let k = ints.1 h.0 in cc (k, large))),
      )
]

write-refused :
    (b : Bucket) (row : Window × Bool) (t : Table)
    → (counted_window b row).counted ≡ false
    → write b row t ≡ t
write-refused b (w, true) t h = ground arith
write-refused b (w, false) t h = refl

-- An attempt that is not counted leaves the table as it was.
pub count_one-refused :
    (now : ℕ) (b : Bucket) (t : Table) (r : Table × CountedWindow)
    → count_one now b t ≡ some r
    → r.1.counted ≡ false
    → r.0 ≡ t
unfolding count_in_range
count_one-refused now b t r e h = elim (Bool-cases (has_int_rule b)) [
  | inl fits ↦
      let same : count_in_range now b t ≡ r =
        some-injective _ _ (sym (count_one-in_range now b t fits) ∙ e) in
      sym (ap (λ q. q.0) same)
      ∙ write-refused b (counted_row now b (lookup b.key t)) t (ap (λ q. q.1.counted) same ∙ h)
  | inr large ↦
      absurd (let k : none ≡ some r = sym (count_one-out_of_range now b t large) ∙ e in cc k)
]

counted_window-kept_live :
    (pruned_at now : ℕ) (b : Bucket) (held : Option Window)
    → pruned_at ≤ now
    → counted_window b (counted_row now b (kept_live pruned_at held))
      ≡ counted_window b (counted_row now b held)
unfolding kept_live counted_row
counted_window-kept_live pruned_at now b none l = refl
counted_window-kept_live pruned_at now b (some w) l = ground arith

-- Where each key has at most one row, deleting dead windows changes no answer: at any later instant an attempt is counted or refused
-- as before, with the same attempts and the same end of the window.
pub count_one-prune :
    (pruned_at now : ℕ) (b : Bucket) (t : Table)
    → is_keyed t ≡ true
    → pruned_at ≤ now
    → option_map (λ r. r.1) (count_one now b (prune pruned_at t).0)
      ≡ option_map (λ r. r.1) (count_one now b t)
unfolding count_one count_row
count_one-prune pruned_at now b t h l = elim (Bool-cases (has_int_rule b)) [
  | inl fits ↦
      rw (fits, lookup-prune pruned_at b.key t h)
        (ap some (counted_window-kept_live pruned_at now b (lookup b.key t) l))
  | inr large ↦ rw large refl
]
