-- ===== src/Prelude/Text/Sorting.antt =====
-- `sort` orders its list strictly when no text occurs twice, keeps its members, and is the only
-- such list.
use ratline.Prelude.Text.{
  Text, text_eq, text_eq_iff, text_lt, text_lt_irrefl, text_lt_trans, text_lt_total, insert_text,
  sort, member,
}
use mathlib.Core.Path.{◌≡◌, refl, sym, ◌∙◌, ap, ap₂}
use mathlib.Core.Bool.{true, false, ◌||◌}
use mathlib.Core.List.{List, [], ◌∷◌}
use native.Mathlib.Omega.{arith}

-- Every member is above the bound.
abbrev pub Above : Text → List Text → Type 0
Above s [] = Unit {0}
Above s (t ∷ ts) = (text_lt s t ≡ true) × Above s ts

abbrev pub IsSorted : List Text → Type 0
IsSorted [] = Unit {0}
IsSorted (t ∷ ts) = Above t ts × IsSorted ts

abbrev pub IsDistinct : List Text → Type 0
IsDistinct [] = Unit {0}
IsDistinct (t ∷ ts) = (member t ts ≡ false) × IsDistinct ts

Above-trans : (s t : Text) (ts : List Text) → text_lt s t ≡ true → Above t ts → Above s ts
Above-trans s t [] h a = tt
Above-trans s t (u ∷ ts) h (k, a) = (text_lt_trans s t u h k, Above-trans s t ts h a)

Above-insert_text :
    (s t : Text) (ts : List Text) → text_lt s t ≡ true → Above s ts → Above s (insert_text t ts)
unfolding insert_text
Above-insert_text s t [] h a = (h, tt)
Above-insert_text s t (u ∷ ts) h (k, a) = ground (arith, Above-insert_text s t ts h a)

insert_text-IsSorted :
    (s : Text) (ts : List Text) → member s ts ≡ false → IsSorted ts → IsSorted (insert_text s ts)
unfolding insert_text member
insert_text-IsSorted s [] h a = (tt, tt)
insert_text-IsSorted s (t ∷ ts) h (a, k) = ground (
  arith,
  text_lt_total s t,
  insert_text-IsSorted s ts,
  Above-insert_text t s ts,
  Above-trans s t ts,
)

pub member-insert_text :
    (k s : Text) (ts : List Text) → member k (insert_text s ts) ≡ (text_eq k s || member k ts)
unfolding insert_text member
member-insert_text k s [] = refl
member-insert_text k s (t ∷ ts) = ground (arith, member-insert_text k s ts)

-- Sorting keeps the members.
pub member-sort : (k : Text) (ts : List Text) → member k (sort ts) ≡ member k ts
unfolding sort member
member-sort k [] = refl
member-sort k (t ∷ ts) = ground (arith, member-insert_text k t (sort ts), member-sort k ts)

pub sort-IsSorted : (ts : List Text) → IsDistinct ts → IsSorted (sort ts)
unfolding sort
sort-IsSorted [] d = tt
sort-IsSorted (t ∷ ts) (d, h) =
    insert_text-IsSorted t (sort ts) (member-sort t ts ∙ d) (sort-IsSorted ts h)

Above-member : (s : Text) (ts : List Text) → Above s ts → member s ts ≡ false
unfolding member
Above-member s [] a = refl
Above-member s (t ∷ ts) (h, a) =
    ground (arith, Above-member s ts a, text_eq_iff s t, text_lt_irrefl t)

-- Nothing above a bound is a member below it.
Above-of_member :
    (s k : Text) (ts : List Text) → Above s ts → member k ts ≡ true → text_lt s k ≡ true
unfolding member
Above-of_member s k [] a h = cc
Above-of_member s k (t ∷ ts) (b, a) h = ground (arith, Above-of_member s k ts a, text_eq_iff k t)

abbrev SameMembers : List Text → List Text → Type 0
SameMembers ss ts = (k : Text) → member k ss ≡ member k ts

heads_agree :
    (s t : Text) (ss ts : List Text)
    → Above s ss
    → Above t ts
    → member s (t ∷ ts) ≡ true
    → member t (s ∷ ss) ≡ true
    → s ≡ t
unfolding member
heads_agree s t ss ts a b h k = ground (
  arith,
  text_eq_iff s t,
  text_eq_iff t s,
  Above-of_member t s ts b,
  Above-of_member s t ss a,
  text_lt_trans s t s,
  text_lt_irrefl s,
)

member_self : (s : Text) (ss : List Text) → member s (s ∷ ss) ≡ true
unfolding member
member_self s ss = ground (arith, text_eq_iff s s)

tails_agree :
    (s : Text) (ss ts : List Text)
    → Above s ss
    → Above s ts
    → SameMembers (s ∷ ss) (s ∷ ts)
    → SameMembers ss ts
unfolding member
tails_agree s ss ts a b h k =
    ground (arith, h k, text_eq_iff k s, Above-member s ss a, Above-member s ts b)

-- A strictly sorted list is determined by its members.
pub sorted_unique : (ss ts : List Text) → IsSorted ss → IsSorted ts → SameMembers ss ts → ss ≡ ts
unfolding member
sorted_unique [] [] a b h = refl
sorted_unique [] (t ∷ ts) a b h = ground (arith, h t, member_self t ts)
sorted_unique (s ∷ ss) [] a b h = ground (arith, h s, member_self s ss)
sorted_unique (s ∷ ss) (t ∷ ts) (a, p) (b, q) h =
    let heads : s ≡ t =
      heads_agree s t ss ts a b (sym (h s) ∙ member_self s ss) (h t ∙ member_self t ts) in
    let b' : Above s ts = rw heads b in
    let h' : SameMembers (s ∷ ss) (s ∷ ts) = λ k. h k ∙ ap (λ u. member k (u ∷ ts)) (sym heads) in
    ap₂ ◌∷◌ heads (sorted_unique ss ts p q (tails_agree s ss ts a b' h'))

-- Two lists without repetitions and with the same members sort to one list.
pub sort_unique :
    (ss ts : List Text)
    → IsDistinct ss
    → IsDistinct ts
    → ((k : Text) → member k ss ≡ member k ts)
    → sort ss ≡ sort ts
sort_unique ss ts a b h =
    sorted_unique (sort ss) (sort ts) (sort-IsSorted ss a) (sort-IsSorted ts b)
      λ k. member-sort k ss ∙ h k ∙ sym (member-sort k ts)
