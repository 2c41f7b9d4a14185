-- ===== src/Regex/Laws.antt =====
-- The matcher decides the language of an expression, and facts about every text of a language.
use ratline.Prelude.{
  ℕ, true, [], ◌∷◌, ◌++◌, ◌≡◌, refl, sym, ap, arith, inl, inr, ◌⊎◌, ◌↔◌, Bool-cases, subst, ◌∙◌,
}
use ratline.Prelude.Text.{Text}
use ratline.Regex.{
  Ranges, Regex, never, epsilon, class, seq, alt, star, in_ranges, nullable, derive, test,
}

-- The texts that an expression stands for.
pub data Matches : Regex → Text → Type 0 where
  nothing : Matches epsilon []
  one : {rs : Ranges} {c : ℕ} → in_ranges rs c ≡ true → Matches (class rs) (c ∷ [])
  both : {r q : Regex} {s t u : Text} → Matches r s → Matches q t → u ≡ s ++ t → Matches (seq r q) u
  left : {r q : Regex} {s : Text} → Matches r s → Matches (alt r q) s
  right : {r q : Regex} {s : Text} → Matches q s → Matches (alt r q) s
  stop : {r : Regex} → Matches (star r) []
  again :
      {r : Regex} {s t u : Text}
      → Matches r s
      → Matches (star r) t
      → u ≡ s ++ t
      → Matches (star r) u

nullable_sound : (r : Regex) → nullable r ≡ true → Matches r []
unfolding nullable
nullable_sound never h = cc
nullable_sound epsilon h = nothing
nullable_sound (class rs) h = cc
nullable_sound (seq r q) h =
    both (nullable_sound r (ground arith)) (nullable_sound q (ground arith)) refl
nullable_sound (alt r q) h = elim (Bool-cases (nullable r)) [
  | inl e ↦ left (nullable_sound r e)
  | inr e ↦ right (nullable_sound q (ground arith))
]
nullable_sound (star r) h = stop

pub seq-parts :
    {r q : Regex} {u : Text}
    → Matches (seq r q) u
    → (s : Text) × (t : Text) × Matches r s × Matches q t × (u ≡ s ++ t)
seq-parts (both {s} {t} m n e) = (s, t, m, n, e)

pub alt-cases : {r q : Regex} {s : Text} → Matches (alt r q) s → Matches r s ⊎ Matches q s
alt-cases (left m) = inl m
alt-cases (right m) = inr m

epsilon-nil : {s : Text} → Matches epsilon s → s ≡ []
epsilon-nil nothing = refl

Matches-nil : {r : Regex} {s : Text} → s ≡ [] → Matches r [] → Matches r s
Matches-nil {r} e m = subst (Matches r) (sym e) m

class_step :
    (rs : Ranges) (c : ℕ) (s : Text) → Matches (derive c (class rs)) s → Matches (class rs) (c ∷ s)
unfolding derive
class_step rs c s m = elim (Bool-cases (in_ranges rs c)) [
  | inl h ↦
      let e = epsilon-nil (rw (h, derive) at m) in
      subst (λ t. Matches (class rs) (c ∷ t)) (sym e) (one h)
  | inr h ↦ elim (rw (h, derive) at m) [ ]
]

seq_first :
    {r q : Regex} {c : ℕ} {s : Text}
    → ((t : Text) → Matches (derive c r) t → Matches r (c ∷ t))
    → Matches (seq (derive c r) q) s
    → Matches (seq r q) (c ∷ s)
seq_first {c} ih m = let (t, u, a, b, e) = seq-parts m in both (ih t a) b (ap (◌∷◌ c) e)

seq_step :
    (r q : Regex) (c : ℕ) (s : Text)
    → ((t : Text) → Matches (derive c r) t → Matches r (c ∷ t))
    → ((t : Text) → Matches (derive c q) t → Matches q (c ∷ t))
    → Matches (derive c (seq r q)) s
    → Matches (seq r q) (c ∷ s)
unfolding derive
seq_step r q c s ih jh m = elim (Bool-cases (nullable r)) [
  | inl h ↦ elim (alt-cases (rw (h, derive) at m)) [
    | inl a ↦ seq_first ih a
    | inr b ↦ both (nullable_sound r h) (jh s b) refl
  ]
  | inr h ↦ seq_first ih (rw (h, derive) at m)
]

-- Undoing one step of the matcher.
derive_sound : (c : ℕ) (r : Regex) (s : Text) → Matches (derive c r) s → Matches r (c ∷ s)
unfolding derive
derive_sound c never s m = elim m [ ]
derive_sound c epsilon s m = elim m [ ]
derive_sound c (class rs) s m = class_step rs c s m
derive_sound c (seq r q) s m = seq_step r q c s (derive_sound c r) (derive_sound c q) m
derive_sound c (alt r q) s m = elim (alt-cases m) [
  | inl a ↦ left (derive_sound c r s a)
  | inr b ↦ right (derive_sound c q s b)
]
derive_sound c (star r) s m =
    let (t, u, a, b, e) = seq-parts m in again (derive_sound c r t a) b (ap (◌∷◌ c) e)

-- An accepted text belongs to the language.
pub test_sound : (r : Regex) (s : Text) → test r s ≡ true → Matches r s
unfolding test
test_sound r [] h = nullable_sound r h
test_sound r (c ∷ s) h = derive_sound c r s (test_sound (derive c r) s h)

append-nil_parts : (s t : Text) → [] ≡ s ++ t → (s ≡ []) × (t ≡ [])
append-nil_parts [] t e = (refl, sym e)
append-nil_parts (c ∷ s) t e = cc

nullable_complete : {r : Regex} {u : Text} → Matches r u → u ≡ [] → nullable r ≡ true
unfolding nullable
nullable_complete nothing z = refl
nullable_complete (one h) z = cc
nullable_complete (both {s} {t} a b e) z =
    let p = append-nil_parts s t (sym z ∙ e) in
    ground (arith, nullable_complete a p.0, nullable_complete b p.1)
nullable_complete (left a) z = ground (arith, nullable_complete a z)
nullable_complete (right b) z = ground (arith, nullable_complete b z)
nullable_complete stop z = refl
nullable_complete (again a b e) z = refl

seq_enter_first :
    (r q : Regex) (c : ℕ) (s : Text)
    → Matches (seq (derive c r) q) s
    → Matches (derive c (seq r q)) s
unfolding derive
seq_enter_first r q c s m = elim (Bool-cases (nullable r)) [
  | inl h ↦ rw (h, derive) (left m)
  | inr h ↦ rw (h, derive) m
]

seq_enter_later :
    (r q : Regex) (c : ℕ) (s : Text)
    → nullable r ≡ true
    → Matches (derive c q) s
    → Matches (derive c (seq r q)) s
unfolding derive
seq_enter_later r q c s h m = rw (h, derive) (right m)

class_enter : (rs : Ranges) (c : ℕ) → in_ranges rs c ≡ true → Matches (derive c (class rs)) []
unfolding derive
class_enter rs c h = rw (h, derive) nothing

derive_complete :
    {r : Regex} {u : Text} (c : ℕ) (s : Text) → Matches r u → u ≡ c ∷ s → Matches (derive c r) s
unfolding derive
derive_complete c s nothing z = cc
derive_complete c s (one {rs} {c = d} h) z =
    let same : d ≡ c = cc in
    let end : s ≡ [] = cc in
    Matches-nil end (class_enter rs c (subst (λ k. in_ranges rs k ≡ true) same h))
derive_complete c s (both {r} {q} {s = []} {t} a b e) z =
    seq_enter_later r q c s (nullable_complete a refl) (derive_complete c s b (sym e ∙ z))
derive_complete c s (both {r} {q} {s = d ∷ s'} {t} a b e) z =
    let head : d ≡ c = cc in
    let rest : s ≡ s' ++ t = cc in
    seq_enter_first r q c s (both (derive_complete c s' a (ap (λ k. k ∷ s') head)) b rest)
derive_complete c s (left a) z = left (derive_complete c s a z)
derive_complete c s (right b) z = right (derive_complete c s b z)
derive_complete c s stop z = cc
derive_complete c s (again {s = []} {t} a b e) z = derive_complete c s b (sym e ∙ z)
derive_complete c s (again {s = d ∷ s'} {t} a b e) z =
    let head : d ≡ c = cc in
    let rest : s ≡ s' ++ t = cc in both (derive_complete c s' a (ap (λ k. k ∷ s') head)) b rest

-- Every text of the language is accepted.
pub test_complete : (r : Regex) (s : Text) → Matches r s → test r s ≡ true
unfolding test
test_complete r [] m = nullable_complete m refl
test_complete r (c ∷ s) m = test_complete (derive c r) s (derive_complete c s m refl)

-- The matcher accepts exactly the language of the expression.
pub test_iff : (r : Regex) (s : Text) → (test r s ≡ true) ↔ Matches r s
test_iff r s = (test_sound r s, test_complete r s)
