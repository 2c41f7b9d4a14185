-- ===== src/Agent/Utf8/Laws.antt =====
-- The encoding loses nothing on strings without lone surrogates.
use mathlib.Core.Bool.{and-eq-true_iff}
use ratline.Prelude.{
  ltb, if◌then◌else◌, ◌&&◌, ◌||◌, not, ◌+◌, ◌-◌, ◌/◌, ◌%◌, inl, inr, ◌∙◌, ap, ℕ, ◌<◌, ◌≡◌, refl,
  sym, ap₂, true, List, [], ◌∷◌, ◌++◌, arith, Bool-cases, All,
}
use ratline.Prelude.Text.{Text}
use ratline.Agent.Utf8.{
  is_high, is_low, scalar, pair, code_points, utf8_point, utf8_points, encode, well_formed,
}

-- The first code point of a stream of bytes is determined.
utf8_point_cancel :
    (a b : ℕ) (r s : List ℕ)
    → a < 0x110000
    → b < 0x110000
    → utf8_point a ++ r ≡ utf8_point b ++ s
    → (a ≡ b) × (r ≡ s)
unfolding utf8_point
utf8_point_cancel a b r s p q e = ground arith

utf8_point-nonempty : (a : ℕ) (r : List ℕ) → utf8_point a ++ r ≡ [] → ⊥
unfolding utf8_point
utf8_point-nonempty a r e = ground arith

abbrev AreScalars : List ℕ → Type 0
AreScalars = All (λ n. n < 0x110000)

utf8_points-injective :
    (ns ms : List ℕ) → AreScalars ns → AreScalars ms → utf8_points ns ≡ utf8_points ms → ns ≡ ms
unfolding utf8_points
utf8_points-injective [] [] p q e = refl
utf8_points-injective [] (m ∷ ms) p q e = absurd (utf8_point-nonempty m (utf8_points ms) (sym e))
utf8_points-injective (n ∷ ns) [] p q e = absurd (utf8_point-nonempty n (utf8_points ns) e)
utf8_points-injective (n ∷ ns) (m ∷ ms) (p, ps) (q, qs) e =
    let split = utf8_point_cancel n m (utf8_points ns) (utf8_points ms) p q e in
    ap₂ ◌∷◌ split.0 (utf8_points-injective ns ms ps qs split.1)

code_points-AreScalars : (s : Text) → well_formed s ≡ true → AreScalars (code_points s)
unfolding code_points well_formed
code_points-AreScalars [] h = tt
code_points-AreScalars (c ∷ []) h = ground arith
code_points-AreScalars (c ∷ d ∷ s) h =
    ground (arith, code_points-AreScalars s, code_points-AreScalars (d ∷ s))

-- The code units of one code point.
units : ℕ → Text
units n =
    if ltb n 0x10000
    then n ∷ []
    else (0xd800 + (n - 0x10000) / 1024) ∷ (0xdc00 + (n - 0x10000) % 1024) ∷ []

from_points : List ℕ → Text
from_points [] = []
from_points (n ∷ ns) = units n ++ from_points ns

units-pair : (c d : ℕ) → (is_high c && is_low d) ≡ true → units (pair c d) ≡ c ∷ d ∷ []
unfolding units
units-pair c d h = ground arith

units-scalar :
    (c : ℕ) → (ltb c 0x10000 && not (is_high c || is_low c)) ≡ true → units (scalar c) ≡ c ∷ []
unfolding units
units-scalar c h = ground arith

from_points-code_points : (s : Text) → well_formed s ≡ true → from_points (code_points s) ≡ s
unfolding code_points well_formed from_points
from_points-code_points [] h = refl
from_points-code_points (c ∷ []) h = rw (units-scalar c h)
from_points-code_points (c ∷ d ∷ s) h = elim (Bool-cases (is_high c && is_low d)) [
  | inl e ↦
      rw (e, code_points)
        (rw (units-pair c d e)
          (ap (λ r. c ∷ d ∷ r) (from_points-code_points s (rw (e, well_formed) at h))))
  | inr e ↦
      let k : (ltb c 0x10000 && not (is_high c || is_low c) && well_formed (d ∷ s)) ≡ true =
        rw (e, well_formed) at h in
      let split = (and-eq-true_iff _ _).0 k in
      rw (e, code_points)
        (rw (units-scalar c split.0) (ap (◌∷◌ c) (from_points-code_points (d ∷ s) split.1)))
]

code_points-injective :
    (s t : Text)
    → well_formed s ≡ true
    → well_formed t ≡ true
    → code_points s ≡ code_points t
    → s ≡ t
code_points-injective s t h k e =
    sym (from_points-code_points s h) ∙ ap from_points e ∙ from_points-code_points t k

pub encode-injective :
    (s t : Text) → well_formed s ≡ true → well_formed t ≡ true → encode s ≡ encode t → s ≡ t
unfolding encode
encode-injective s t h k e = code_points-injective s t h k (
    utf8_points-injective (code_points s) (code_points t) (code_points-AreScalars s h)
      (code_points-AreScalars t k) e)
