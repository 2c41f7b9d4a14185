-- ===== src/RateLimits/Locks.antt =====
-- `lockOrder` of src/repo/rate_limits.ts: the order in which a transaction takes its rows.
pub mod Order
use ratline.Prelude.{
  ℕ, zero, suc, ◌+◌, ◌≡◌, refl, sym, ap, ◌∙◌, subst, Bool, true, false, ◌&&◌, ◌||◌, ltb, ◌++◌, List,
  [], ◌∷◌, map, some, arith, Bool-cases, inl, inr, All, Among, here, there,
}
use mathlib.Core.Option.{some-injective}
use ratline.Prelude.Text.{Text, lit, text_lt, text_lt_irrefl, text_lt_trans}
use ratline.RateLimits.{
  Key, Dimension, account, address, AuthPath, login, two_factor, password_reset, token_exchange,
  same_dimension, same_path,
}
use ratline.RateLimits.Transactions.{
  path_name, dimension_rank, rank, numbered, insert_entry, sort_entries, lock_order, at,
}
use ratline.RateLimits.Locks.Order.{is_before, rank-text_lt}

-- No entry has a smaller text than the one before it.
abbrev IsOrdered : List (Text × ℕ) → Type 0
IsOrdered [] = Unit {0}
IsOrdered (e ∷ []) = Unit {0}
IsOrdered (e ∷ f ∷ es) = (text_lt f.0 e.0 ≡ false) × IsOrdered (f ∷ es)

text_lt_asym : (s t : Text) → text_lt s t ≡ true → text_lt t s ≡ false
text_lt_asym s t h = elim (Bool-cases (text_lt t s)) [
  | inl k ↦ absurd (ground (arith, text_lt_trans s t s h k, text_lt_irrefl s))
  | inr k ↦ k
]

tail-IsOrdered : (e : Text × ℕ) (es : List (Text × ℕ)) → IsOrdered (e ∷ es) → IsOrdered es
tail-IsOrdered e [] h = tt
tail-IsOrdered e (f ∷ es) h = h.1

insert_entry-IsOrdered_under :
    (e f : Text × ℕ) (es : List (Text × ℕ))
    → text_lt f.0 e.0 ≡ true
    → IsOrdered (f ∷ es)
    → IsOrdered (insert_entry e es)
    → IsOrdered (f ∷ insert_entry e es)
unfolding insert_entry
insert_entry-IsOrdered_under e f [] k h o = (text_lt_asym f.0 e.0 k, tt)
insert_entry-IsOrdered_under e f (g ∷ es) k h o = elim (Bool-cases (text_lt g.0 e.0)) [
  | inl l ↦ rw l (h.0, (rw l at o))
  | inr l ↦ rw l (text_lt_asym f.0 e.0 k, (l, h.1))
]

insert_entry-IsOrdered :
    (e : Text × ℕ) (es : List (Text × ℕ)) → IsOrdered es → IsOrdered (insert_entry e es)
unfolding insert_entry
insert_entry-IsOrdered e [] h = tt
insert_entry-IsOrdered e (f ∷ es) h = elim (Bool-cases (text_lt f.0 e.0)) [
  | inl k ↦ rw k (
      insert_entry-IsOrdered_under e f es k h (insert_entry-IsOrdered e es (tail-IsOrdered f es h)))
  | inr k ↦ rw k (k, h)
]

sort_entries-IsOrdered : (es : List (Text × ℕ)) → IsOrdered (sort_entries es)
unfolding sort_entries
sort_entries-IsOrdered [] = tt
sort_entries-IsOrdered (e ∷ es) =
    insert_entry-IsOrdered e (sort_entries es) (sort_entries-IsOrdered es)

module _ {κ} (P : Text × ℕ → Type κ) where
  insert_entry-All :
      (e : Text × ℕ) (es : List (Text × ℕ)) → P e → All P es → All P (insert_entry e es)
  unfolding insert_entry
  insert_entry-All e [] p h = (p, h)
  insert_entry-All e (f ∷ es) p h = elim (Bool-cases (text_lt f.0 e.0)) [
    | inl k ↦ rw k (h.0, insert_entry-All e es p h.1)
    | inr k ↦ rw k (p, h)
  ]

  sort_entries-All : (es : List (Text × ℕ)) → All P es → All P (sort_entries es)
  unfolding sort_entries
  sort_entries-All [] h = h
  sort_entries-All (e ∷ es) h = insert_entry-All e (sort_entries es) h.0 (sort_entries-All es h.1)

insert_entry-head : (e : Text × ℕ) (es : List (Text × ℕ)) → Among e (insert_entry e es)
unfolding insert_entry
insert_entry-head e [] = here refl
insert_entry-head e (f ∷ es) = elim (Bool-cases (text_lt f.0 e.0)) [
  | inl k ↦ rw k (there (insert_entry-head e es))
  | inr k ↦ rw k (here refl)
]

insert_entry-Among :
    (d e : Text × ℕ) (es : List (Text × ℕ)) → Among d es → Among d (insert_entry e es)
unfolding insert_entry
insert_entry-Among d e [] m = elim m [ ]
insert_entry-Among d e (f ∷ es) (here p) = elim (Bool-cases (text_lt f.0 e.0)) [
  | inl k ↦ rw k (here p)
  | inr k ↦ rw k (there (here p))
]
insert_entry-Among d e (f ∷ es) (there m) = elim (Bool-cases (text_lt f.0 e.0)) [
  | inl k ↦ rw k (there (insert_entry-Among d e es m))
  | inr k ↦ rw k (there (there m))
]

sort_entries-Among : (d : Text × ℕ) (es : List (Text × ℕ)) → Among d es → Among d (sort_entries es)
unfolding sort_entries
sort_entries-Among d [] m = elim m [ ]
sort_entries-Among d (e ∷ es) (here p) =
    subst (λ c. Among c (insert_entry e (sort_entries es))) (sym p)
      (insert_entry-head e (sort_entries es))
sort_entries-Among d (e ∷ es) (there m) =
    insert_entry-Among d e (sort_entries es) (sort_entries-Among d es m)

-- An entry carries the position of a key and its rank.
abbrev IsEntry : List Key → Text × ℕ → Type 0
IsEntry ks e = (k : Key) × (at e.1 ks ≡ some k) × (e.0 ≡ rank k)

abbrev entries : List (Key × ℕ) → List (Text × ℕ)
entries rs = map (λ r. (rank r.0, r.1)) rs

-- The entries of `ks`, numbered from `n`, where `before ++ ks` is the whole list.
entries-All :
    (whole ks : List Key) (n : ℕ)
    → ((i : ℕ) → at (n + i) whole ≡ at i ks)
    → All (IsEntry whole) (entries (numbered n ks))
entries-All whole [] n same = tt
entries-All whole (k ∷ ks) n same =
    let shift : (i : ℕ) → n + 1 + i ≡ n + suc i = λ i. omega arith in
    let zero_right : n + 0 ≡ n = omega arith in
    (
      (k, subst (λ m. at m whole ≡ some k) zero_right (same 0), refl),
      entries-All whole ks (n + 1)
          (λ i. subst (λ m. at m whole ≡ at i ks) (sym (shift i)) (same (suc i))),
    )

first_entry : (j k : Key) (n : ℕ) → j ≡ k → ◌≡◌ {A = Text × ℕ} (rank k, n + 0) (rank j, n)
first_entry j k n e =
    let zero_right : n + 0 ≡ n = omega arith in
    ap (λ m. (rank k, m)) zero_right ∙ ap (λ i. (rank i, n)) (sym e)

entries-Among :
    (ks : List Key) (n i : ℕ) (k : Key)
    → at i ks ≡ some k
    → Among (rank k, n + i) (entries (numbered n ks))
entries-Among [] n i k h = absurd (cc h)
entries-Among (j ∷ ks) n zero k h = here (first_entry j k n (some-injective _ _ h))
entries-Among (j ∷ ks) n (suc i) k h = there (
    subst (λ m. Among (rank k, m) (entries (numbered (n + 1) ks))) (omega arith)
      (entries-Among ks (n + 1) i k h))

-- The key at a position is never before the key at the position before it, in the canonical order.
abbrev pub IsLocked : List Key → List ℕ → Type 0
IsLocked ks [] = Unit {0}
IsLocked ks (i ∷ []) = Unit {0}
IsLocked ks (i ∷ j ∷ is) =
    ((k l : Key) → at i ks ≡ some k → at j ks ≡ some l → is_before l k ≡ false)
    × IsLocked ks (j ∷ is)

pair_order :
    (ks : List Key) (e f : Text × ℕ)
    → IsEntry ks e
    → IsEntry ks f
    → text_lt f.0 e.0 ≡ false
    → (k l : Key) → at e.1 ks ≡ some k
    → at f.1 ks ≡ some l
    → is_before l k ≡ false
pair_order ks e f (k0, a, c) (l0, b, d) h k l p q =
    let same_k : k0 ≡ k = some-injective _ _ (sym a ∙ p) in
    let same_l : l0 ≡ l = some-injective _ _ (sym b ∙ q) in
    sym (rank-text_lt l k)
    ∙ subst (λ t. text_lt t (rank k) ≡ false) (d ∙ ap rank same_l)
        (subst (λ t. text_lt f.0 t ≡ false) (c ∙ ap rank same_k) h)

IsLocked-of_entries :
    (ks : List Key) (es : List (Text × ℕ))
    → IsOrdered es
    → All (IsEntry ks) es
    → IsLocked ks (map (λ e. e.1) es)
IsLocked-of_entries ks [] o p = tt
IsLocked-of_entries ks (e ∷ []) o p = tt
IsLocked-of_entries ks (e ∷ f ∷ es) o p =
    (pair_order ks e f p.0 p.1.0 o.0, IsLocked-of_entries ks (f ∷ es) o.1 p.1)

positions-Among : (e : Text × ℕ) (es : List (Text × ℕ)) → Among e es → Among e.1 (map (λ f. f.1) es)
positions-Among e [] m = elim m [ ]
positions-Among e (f ∷ es) (here p) = here (ap (λ g. g.1) p)
positions-Among e (f ∷ es) (there m) = there (positions-Among e es m)

at_zero : (ks : List Key) (m : ℕ) → at (0 + m) ks ≡ at m ks
at_zero ks m = let zero_left : 0 + m ≡ m = omega arith in ap (λ i. at i ks) zero_left

listed :
    (ks : List Key) (i : ℕ) (k : Key)
    → at i ks ≡ some k
    → Among (rank k, i) (entries (numbered 0 ks))
listed ks i k h =
    let zero_left : 0 + i ≡ i = omega arith in
    subst (λ m. Among (rank k, m) (entries (numbered 0 ks))) zero_left (entries-Among ks 0 i k h)

-- Whatever the order in which the buckets are named, their rows are taken in the order of dimension,
-- path and key, and every bucket's row is taken.
pub lock_order-IsLocked :
    (ks : List Key) (i : ℕ) (k : Key)
    → at i ks ≡ some k
    → IsLocked ks (lock_order ks) × Among i (lock_order ks)
unfolding lock_order
lock_order-IsLocked ks i k h = (
  IsLocked-of_entries ks (sort_entries (entries (numbered 0 ks)))
      (sort_entries-IsOrdered (entries (numbered 0 ks)))
      (sort_entries-All (IsEntry ks) (entries (numbered 0 ks)) (entries-All ks ks 0 (at_zero ks))),
  positions-Among (rank k, i) (sort_entries (entries (numbered 0 ks)))
      (sort_entries-Among (rank k, i) (entries (numbered 0 ks)) (listed ks i k h)),
)
