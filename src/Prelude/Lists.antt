-- ===== src/Prelude/Lists.antt =====
-- Lists measured by native numbers, under the library's names, and tests over lists.
use Prim.Native.Nat.{ℕ, suc, ◌+◌}
use mathlib.Core.Path.{◌≡◌, refl, sym, ap, ◌∙◌}
use mathlib.Core.Bool.{Bool, true, false, ◌&&◌, ◌||◌}
use mathlib.Core.List.{List, [], ◌∷◌, ◌++◌, map}
use mathlib.Core.Option.{Option, none, some, some-injective}
use native.Mathlib.Omega.{arith}
use mathlib.Core.Logic.{◌↔◌, inl, inr}
use ratline.Prelude.Tests.{if◌then◌else◌, Bool-cases}

module _ {ℓ} {A : Type ℓ} where
  abbrev pub length : List A → ℕ
  length [] = 0
  length (x ∷ xs) = suc (length xs)

  pub length-append : (xs ys : List A) → length (xs ++ ys) ≡ length xs + length ys
  length-append [] ys = omega arith
  length-append (x ∷ xs) ys = omega (arith, length-append xs ys)

  -- Array.prototype.find
  abbrev pub find : (A → Bool) → List A → Option A
  find p [] = none
  find p (x ∷ xs) = if p x then some x else find p xs

  -- Array.prototype.some
  abbrev pub any : (A → Bool) → List A → Bool
  any p [] = false
  any p (x ∷ xs) = p x || any p xs

  -- Array.prototype.every
  abbrev pub all : (A → Bool) → List A → Bool
  all p [] = true
  all p (x ∷ xs) = p x && all p xs

  abbrev pub is_empty : List A → Bool
  is_empty [] = true
  is_empty (x ∷ xs) = false

  -- Array.prototype.filter
  abbrev pub filter : (A → Bool) → List A → List A
  filter p [] = []
  filter p (x ∷ xs) = if p x then x ∷ filter p xs else filter p xs

  -- Equal prefixes of two equal lists leave equal rests.
  pub append_cancel :
      (xs ys : List A) {r s : List A}
      → length xs ≡ length ys
      → xs ++ r ≡ ys ++ s
      → (xs ≡ ys) × (r ≡ s)
  append_cancel [] [] h e = (refl, e)
  append_cancel [] (y ∷ ys) h e = absurd (omega arith)
  append_cancel (x ∷ xs) [] h e = absurd (omega arith)
  append_cancel (x ∷ xs) (y ∷ ys) {r} {s} h e =
      let tails : xs ++ r ≡ ys ++ s = cc in
      let rest = append_cancel xs ys (omega arith) tails in
      let heads : x ≡ y = cc in (cc (heads, rest.0), rest.1)

module _ {ℓ κ} {A : Type ℓ} (P : A → Type κ) where
  abbrev pub All : List A → Type κ
  All [] = Unit
  All (x ∷ xs) = P x × All xs

  pub All-append : (xs ys : List A) → All xs → All ys → All (xs ++ ys)
  All-append [] ys h k = k
  All-append (x ∷ xs) ys (p, h) k = (p, All-append xs ys h k)

module _ {ℓ κ} {A : Type ℓ} {B : Type κ} where
  pub length-map : (f : A → B) (xs : List A) → length (map f xs) ≡ length xs
  length-map f [] = refl
  length-map f (x ∷ xs) = ap suc (length-map f xs)

-- Where a value stands in a list.
pub data Among {ℓ} {A : Type ℓ} (x : A) : List A → Type ℓ where
  here : {y : A} {ys : List A} → x ≡ y → Among x (y ∷ ys)
  there : {y : A} {ys : List A} → Among x ys → Among x (y ∷ ys)

module _ {ℓ} {A : Type ℓ} (p : A → Bool) where
  pub any-Among : (xs : List A) → any p xs ≡ true → (x : A) × Among x xs × (p x ≡ true)
  any-Among [] h = cc
  any-Among (x ∷ xs) h = elim (Bool-cases (p x)) [
    | inl e ↦ (x, here refl, e)
    | inr e ↦ let (y, m, k) = any-Among xs (rw e at h) in (y, there m, k)
  ]

  pub Among-any : {x : A} {xs : List A} → Among x xs → p x ≡ true → any p xs ≡ true
  Among-any (here e) h = ground arith
  Among-any (there m) h = ground (arith, Among-any m h)

  pub any_iff : (xs : List A) → (any p xs ≡ true) ↔ ((x : A) × Among x xs × (p x ≡ true))
  any_iff xs = (any-Among xs, λ (x, m, h). Among-any m h)

  pub find-Among : (xs : List A) (x : A) → find p xs ≡ some x → Among x xs × (p x ≡ true)
  find-Among [] x h = absurd (cc h)
  find-Among (y ∷ ys) x h = elim (Bool-cases (p y)) [
    | inl e ↦
        let same : y ≡ x = some-injective _ _ (rw e at h) in (here (sym same), ap p (sym same) ∙ e)
    | inr e ↦ let rest = find-Among ys x (rw e at h) in (there rest.0, rest.1)
  ]

  -- Where only one element passes the test, it is the one that is found.
  pub find_only :
      {x : A} {xs : List A}
      → Among x xs
      → p x ≡ true
      → ((y : A) → Among y xs → p y ≡ true → y ≡ x)
      → find p xs ≡ some x
  find_only {xs = []} m h only = elim m [ ]
  find_only {x} {xs = y ∷ ys} m h only = elim (Bool-cases (p y)) [
    | inl e ↦ let same : y ≡ x = only y (here refl) e in rw e (ap some same)
    | inr e ↦ rw e (find_only {xs = ys} (later e m) h (λ z k. only z (there k)))
  ]
    where
      later : p y ≡ false → Among x (y ∷ ys) → Among x ys
      later e (here same) = absurd (let k = ap p same in cc (h, k, e))
      later e (there k) = k

  pub Among-filter : {x : A} {xs : List A} → Among x xs → p x ≡ true → Among x (filter p xs)
  Among-filter {xs = []} m h = elim m [ ]
  Among-filter {xs = y ∷ ys} (here e) h = let k : p y ≡ true = ground arith in rw k (here e)
  Among-filter {xs = y ∷ ys} (there m) h = elim (Bool-cases (p y)) [
    | inl k ↦ rw k (there (Among-filter m h))
    | inr k ↦ rw k (Among-filter m h)
  ]

  pub filter-Among : {x : A} (xs : List A) → Among x (filter p xs) → Among x xs × (p x ≡ true)
  filter-Among [] m = elim m [ ]
  filter-Among {x} (y ∷ ys) m = elim (Bool-cases (p y)) [
    | inl k ↦ head k (filter-Among ys) (rw k at m)
    | inr k ↦ let rest = filter-Among ys (rw k at m) in (there rest.0, rest.1)
  ]
    where
      head :
          p y ≡ true
          → (Among x (filter p ys) → Among x ys × (p x ≡ true))
          → Among x (y ∷ filter p ys)
          → Among x (y ∷ ys) × (p x ≡ true)
      head k rest (here e) = (here e, ground arith)
      head k rest (there n) = (there (rest n).0, (rest n).1)
