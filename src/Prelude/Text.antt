-- ===== src/Prelude/Text.antt =====
-- A JavaScript string as the list of its UTF-16 code units: equality, the order that
-- `Array.prototype.sort` uses with no comparator, and the sort itself.
pub mod Sorting
pub mod Trim
use Prim.Native.Char.{code}
use Prim.Native.Nat.{ℕ}
use Prim.Native.String.{String}
use mathlib.Core.Path.{◌≡◌, refl}
use mathlib.Core.Logic.{◌↔◌, ◌⊎◌, inl, inr}
use mathlib.Core.Bool.{Bool, true, false, ◌&&◌, ◌||◌}
use mathlib.Core.List.{List, [], ◌∷◌}
use native.Mathlib.Omega.{arith}
use ratline.Prelude.Tests.{ltb, ◌==◌, if◌then◌else◌}

abbrev pub Text : Type 0
Text = List ℕ

-- The code units of an ASCII literal.
abbrev pub lit : String → Text
lit String.[] = []
lit (String.◌∷◌ c s) = code c ∷ lit s

unfoldable pub text_eq : Text → Text → Bool
text_eq [] [] = true
text_eq [] (d ∷ t) = false
text_eq (c ∷ s) [] = false
text_eq (c ∷ s) (d ∷ t) = c == d && text_eq s t

pub text_eq_iff : (s t : Text) → (text_eq s t ≡ true) ↔ (s ≡ t)
unfolding text_eq
text_eq_iff [] [] = ground arith
text_eq_iff [] (d ∷ t) = ground arith
text_eq_iff (c ∷ s) [] = ground arith
text_eq_iff (c ∷ s) (d ∷ t) = ground (arith, text_eq_iff s t)

pub text_eq_refl : (s : Text) → text_eq s s ≡ true
text_eq_refl s = (text_eq_iff s s).1 refl

-- At the first difference the smaller code unit comes first, and a proper prefix comes first.
unfoldable pub text_lt : Text → Text → Bool
text_lt s [] = false
text_lt [] (d ∷ t) = true
text_lt (c ∷ s) (d ∷ t) = ltb c d || (c == d && text_lt s t)

pub text_lt_irrefl : (s : Text) → text_lt s s ≡ false
unfolding text_lt
text_lt_irrefl [] = refl
text_lt_irrefl (c ∷ s) = ground (arith, text_lt_irrefl s)

pub text_lt_trans : (s t u : Text) → text_lt s t ≡ true → text_lt t u ≡ true → text_lt s u ≡ true
unfolding text_lt
text_lt_trans s [] u h k = ground arith
text_lt_trans s (d ∷ t) [] h k = ground arith
text_lt_trans [] (d ∷ t) (e ∷ u) h k = refl
text_lt_trans (c ∷ s) (d ∷ t) (e ∷ u) h k = ground (arith, text_lt_trans s t u)

pub text_lt_total :
    (s t : Text) → (text_lt s t ≡ true) ⊎ ((text_eq s t ≡ true) ⊎ (text_lt t s ≡ true))
unfolding text_lt text_eq
text_lt_total [] [] = inr (inl refl)
text_lt_total [] (d ∷ t) = inl refl
text_lt_total (c ∷ s) [] = inr (inr refl)
text_lt_total (c ∷ s) (d ∷ t) = ground (arith, text_lt_total s t)

unfoldable pub insert_text : Text → List Text → List Text
insert_text s [] = s ∷ []
insert_text s (t ∷ ts) = if text_lt t s then t ∷ insert_text s ts else s ∷ t ∷ ts

-- `Array.prototype.sort` with no comparator.
unfoldable pub sort : List Text → List Text
unfolding insert_text text_lt
sort [] = []
sort (s ∷ ts) = insert_text s (sort ts)

-- `Array.prototype.includes`
unfoldable pub member : Text → List Text → Bool
unfolding text_eq
member k [] = false
member k (s ∷ ts) = text_eq k s || member k ts
