-- ===== src/Agent/Envelope/Arguments.antt =====
-- The entries of a record of arguments against its sorted keys.
use ratline.Prelude.{
  suc, ◌≡◌, refl, sym, ap, ◌∙◌, true, List, [], ◌∷◌, length, is_some, or_else, All, arith, inl, inr,
  Bool-cases,
}
use ratline.Prelude.Text.{Text, text_eq, text_eq_iff, insert_text, sort, member}
use ratline.Prelude.Text.Sorting.{IsDistinct, member-sort, sort_unique}
use ratline.Agent.Envelope.{Arguments, lookup, keys}

-- Two records with the same entries, whatever their order.
abbrev pub SameArguments : Arguments → Arguments → Type 0
SameArguments a b = (k : Text) → lookup k a ≡ lookup k b

pub member-keys : (k : Text) (args : Arguments) → member k (keys args) ≡ is_some (lookup k args)
unfolding member keys lookup
member-keys k [] = refl
member-keys k ((j, v) ∷ args) = ground (arith, member-keys k args)

pub value-All :
    (P : Text → Type 0) (k : Text) (args : Arguments)
    → P []
    → All (λ e. P e.0 × P e.1) args
    → P (or_else (lookup k args) [])
unfolding lookup
value-All P k [] z h = z
value-All P k ((j, v) ∷ args) z ((_, p), h) = elim (Bool-cases (text_eq k j)) [
  | inl e ↦ rw (e, lookup) p
  | inr e ↦ rw (e, lookup) (value-All P k args z h)
]

keys-All :
    (P : Text → Type 0) (args : Arguments) → All (λ e. P e.0 × P e.1) args → All P (keys args)
unfolding keys
keys-All P [] h = tt
keys-All P ((k, v) ∷ args) ((p, _), h) = (p, keys-All P args h)

insert_text-All :
    (P : Text → Type 0) (s : Text) (ts : List Text) → P s → All P ts → All P (insert_text s ts)
unfolding insert_text
insert_text-All P s [] p h = (p, tt)
insert_text-All P s (t ∷ ts) p (q, h) = ground (arith, insert_text-All P s ts p h)

sort-All : (P : Text → Type 0) (ts : List Text) → All P ts → All P (sort ts)
unfolding sort
sort-All P [] h = tt
sort-All P (t ∷ ts) (p, h) = insert_text-All P t (sort ts) p (sort-All P ts h)

pub sorted_keys-All :
    (P : Text → Type 0) (args : Arguments)
    → All (λ e. P e.0 × P e.1) args
    → All P (sort (keys args))
sorted_keys-All P args h = sort-All P (keys args) (keys-All P args h)

length-insert_text : (s : Text) (ts : List Text) → length (insert_text s ts) ≡ suc (length ts)
unfolding insert_text
length-insert_text s [] = refl
length-insert_text s (t ∷ ts) = ground (arith, length-insert_text s ts)

pub length-sort-keys : (args : Arguments) → length (sort (keys args)) ≡ length args
unfolding sort keys
length-sort-keys [] = refl
length-sort-keys ((k, v) ∷ args) =
    length-insert_text k (sort (keys args)) ∙ ap suc (length-sort-keys args)

-- Records with the same entries have the same sorted keys.
pub sorted_keys-SameArguments :
    (a b : Arguments)
    → IsDistinct (keys a)
    → IsDistinct (keys b)
    → SameArguments a b
    → sort (keys a) ≡ sort (keys b)
sorted_keys-SameArguments a b p q h =
    sort_unique (keys a) (keys b) p q
      λ k. member-keys k a ∙ ap is_some (h k) ∙ sym (member-keys k b)

All-member :
    (a b : Arguments) (k : Text) (names : List Text)
    → All (λ n. or_else (lookup n a) [] ≡ or_else (lookup n b) []) names
    → member k names ≡ true
    → or_else (lookup k a) [] ≡ or_else (lookup k b) []
unfolding member
All-member a b k [] h m = cc
All-member a b k (n ∷ names) (p, h) m = elim (Bool-cases (text_eq k n)) [
  | inl e ↦ rw ((text_eq_iff k n).0 e) p
  | inr e ↦ All-member a b k names h (rw (e, member) at m)
]

-- Equal sorted keys and equal values under them make the same entries.
pub SameArguments-of_fields :
    (a b : Arguments)
    → sort (keys a) ≡ sort (keys b)
    → All (λ n. or_else (lookup n a) [] ≡ or_else (lookup n b) []) (sort (keys a))
    → SameArguments a b
SameArguments-of_fields a b e h k =
    let ka : member k (sort (keys a)) ≡ is_some (lookup k a) =
      member-sort k (keys a) ∙ member-keys k a in
    let kb : member k (sort (keys a)) ≡ is_some (lookup k b) =
      ap (member k) e ∙ member-sort k (keys b) ∙ member-keys k b in
    elim (Bool-cases (member k (sort (keys a)))) [
      | inl m ↦ ground (arith, ka, kb, All-member a b k (sort (keys a)) h m)
      | inr m ↦ ground (arith, ka, kb, m)
    ]
