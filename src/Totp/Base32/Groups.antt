-- ===== src/Totp/Base32/Groups.antt =====
-- What the decoder reads in the letters that the encoder writes in one round.
use ratline.Prelude.{
  ℕ, zero, suc, ◌+◌, ◌-◌, ◌/◌, ◌%◌, ◌^◌, ◌<◌, ◌≡◌, refl, ap, ap₂, ◌∙◌, Bool, true, false, ◌&&◌, [],
  ◌∷◌, ◌++◌, Option, none, some, arith, ◌==◌, ==_iff,
}
use mathlib.Core.List.{append_assoc}
use ratline.Prelude.Text.{Text}
use ratline.Totp.Base32.{
  letter, index_of, shift_left, field_of, drain, decoded, push, pushed, decode_from,
}

-- A test that passes for every value under a bound, as a computation.
unfoldable pub passes_under : (ℕ → Bool) → ℕ → Bool
passes_under test zero = true
passes_under test (suc limit) = passes_under test limit && test limit

pub passes_under_lem :
    (test : ℕ → Bool) (limit v : ℕ) → passes_under test limit ≡ true → v < limit → test v ≡ true
unfolding passes_under
passes_under_lem test zero v h lt = absurd (omega arith)
passes_under_lem test (suc limit) v h lt = ground (arith, passes_under_lem test limit v)

-- The letter of a value is one character, whose place in the alphabet is the value.
abbrev is_value : Option ℕ → ℕ → Bool
is_value none v = false
is_value (some w) v = w == v

abbrev reads_back : Text → ℕ → Bool
reads_back [] v = false
reads_back (c ∷ []) v = is_value (index_of c) v
reads_back (c ∷ d ∷ s) v = false

letter_table : passes_under (λ v. reads_back (letter v) v) 32 ≡ true
unfolding passes_under letter index_of
letter_table = refl

value_lem : (o : Option ℕ) (v : ℕ) → is_value o v ≡ true → o ≡ some v
value_lem none v h = absurd (cc h)
value_lem (some w) v h = ap some ((==_iff w v).0 h)

reads_back_lem :
    (t : Text) (v : ℕ) → reads_back t v ≡ true → (c : ℕ) × (t ≡ c ∷ []) × (index_of c ≡ some v)
reads_back_lem [] v h = absurd (cc h)
reads_back_lem (c ∷ []) v h = (c, refl, value_lem (index_of c) v h)
reads_back_lem (c ∷ d ∷ s) v h = absurd (cc h)

pub letter_lem : (v : ℕ) → v < 32 → (c : ℕ) × (letter v ≡ c ∷ []) × (index_of c ≡ some v)
letter_lem v lt = reads_back_lem (letter v) v (passes_under_lem _ 32 v letter_table lt)

-- Reading a letter takes its value in.
pub decode_from-letter :
    (buffer bits v : ℕ) (s : Text)
    → v < 32
    → decode_from buffer bits (letter v ++ s)
      ≡ pushed
          (shift_left buffer 5 + v)
          (5 + bits)
          (λ left. decode_from (shift_left buffer 5 + v) left s)
unfolding decode_from
decode_from-letter buffer bits v s lt = let (c, e, i) = letter_lem v lt in rw (e, i) refl

-- The bits of the encoder that no letter holds yet are the low bits of the last byte, and those of
-- the decoder that no byte holds yet are its other bits.
abbrev pub Pending : ℕ → ℕ → ℕ → ℕ → Type 0
Pending bits eb db x =
    (eb % 2 ^ bits ≡ x % 2 ^ bits) × (db % 2 ^ (8 - bits) ≡ x / 2 ^ bits) × (x < 256)

pub decode_from-last :
    (buffer bits v : ℕ)
    → v < 32
    → decode_from buffer bits (letter v)
      ≡ pushed (shift_left buffer 5 + v) (5 + bits) (λ left. decoded [])
unfolding decode_from
decode_from-last buffer bits v lt = let (c, e, i) = letter_lem v lt in rw (e, i) refl

abbrev pub next : ℕ → ℕ → ℕ
next eb y = shift_left eb 8 + y % 256

abbrev pub take_in : ℕ → ℕ → ℕ
take_in db v = shift_left db 5 + v

-- The byte that the first letter after a pending state completes.
first_completes_3 :
    (eb db x y : ℕ)
    → Pending 3 eb db x
    → field_of (take_in db (field_of (next eb y) 6 32)) 2 256 ≡ x
first_completes_3 eb db x y (e, d, lt) = omega arith

first_completes_1 :
    (eb db x y : ℕ)
    → Pending 1 eb db x
    → field_of (take_in db (field_of (next eb y) 4 32)) 4 256 ≡ x
first_completes_1 eb db x y (e, d, lt) = omega arith

first_completes_4 :
    (eb db x y : ℕ)
    → Pending 4 eb db x
    → field_of (take_in db (field_of (next eb y) 7 32)) 1 256 ≡ x
first_completes_4 eb db x y (e, d, lt) = omega arith

first_completes_2 :
    (eb db x y : ℕ)
    → Pending 2 eb db x
    → field_of (take_in db (field_of (next eb y) 5 32)) 3 256 ≡ x
first_completes_2 eb db x y (e, d, lt) = omega arith

second_completes_2 :
    (eb db y : ℕ)
    → y < 256
    → field_of (take_in (take_in db (field_of (next eb y) 5 32)) (field_of (next eb y) 0 32)) 0 256
      ≡ y
second_completes_2 eb db y lt = omega arith

pub Pending-next_0 :
    (eb db y : ℕ) → y < 256 → Pending 3 (next eb y) (take_in db (field_of (next eb y) 3 32)) y
Pending-next_0 eb db y lt = (omega arith, omega arith, lt)

pub Pending-next_3 :
    (eb db y : ℕ)
    → y < 256
    → Pending 1
        (next eb y)
        (take_in (take_in db (field_of (next eb y) 6 32)) (field_of (next eb y) 1 32))
        y
Pending-next_3 eb db y lt = (omega arith, omega arith, lt)

pub Pending-next_1 :
    (eb db y : ℕ) → y < 256 → Pending 4 (next eb y) (take_in db (field_of (next eb y) 4 32)) y
Pending-next_1 eb db y lt = (omega arith, omega arith, lt)

pub Pending-next_4 :
    (eb db y : ℕ)
    → y < 256
    → Pending 2
        (next eb y)
        (take_in (take_in db (field_of (next eb y) 7 32)) (field_of (next eb y) 2 32))
        y
Pending-next_4 eb db y lt = (omega arith, omega arith, lt)

field_lt : (b n : ℕ) → field_of b n 32 < 32
field_lt b n = omega arith

pub last_completes_3 :
    (eb db x : ℕ) → Pending 3 eb db x → field_of (take_in db (shift_left eb 2 % 32)) 2 256 ≡ x
last_completes_3 eb db x (e, d, lt) = omega arith

pub last_completes_1 :
    (eb db x : ℕ) → Pending 1 eb db x → field_of (take_in db (shift_left eb 4 % 32)) 4 256 ≡ x
last_completes_1 eb db x (e, d, lt) = omega arith

pub last_completes_4 :
    (eb db x : ℕ) → Pending 4 eb db x → field_of (take_in db (shift_left eb 1 % 32)) 1 256 ≡ x
last_completes_4 eb db x (e, d, lt) = omega arith

pub last_completes_2 :
    (eb db x : ℕ) → Pending 2 eb db x → field_of (take_in db (shift_left eb 3 % 32)) 3 256 ≡ x
last_completes_2 eb db x (e, d, lt) = omega arith

-- One round of the encoder, read by the decoder.
one_group :
    (db bits v : ℕ) (s : Text)
    → v < 32
    → decode_from db bits ((letter v ++ []) ++ s)
      ≡ pushed (take_in db v) (5 + bits) (λ left. decode_from (take_in db v) left s)
one_group db bits v s lt =
    ap (decode_from db bits) (append_assoc (letter v) [] s) ∙ decode_from-letter db bits v s lt

two_groups :
    (db bits v w : ℕ) (s : Text)
    → v < 32
    → decode_from db bits ((letter v ++ (letter w ++ [])) ++ s)
      ≡ pushed (take_in db v) (5 + bits) (λ left. decode_from (take_in db v) left (letter w ++ s))
two_groups db bits v w s lt =
    ap (decode_from db bits) (
      append_assoc (letter v) (letter w ++ []) s
      ∙ ap (λ t. letter v ++ t) (append_assoc (letter w) [] s))
    ∙ decode_from-letter db bits v (letter w ++ s) lt

-- One round of the encoder, read by the decoder.
pub round_0 :
    (eb db y : ℕ) (s : Text)
    → decode_from db 0 ((drain (next eb y) 8).0 ++ s)
      ≡ decode_from (take_in db (field_of (next eb y) 3 32)) 5 s
unfolding drain
round_0 eb db y s = one_group db 0 (field_of (next eb y) 3 32) s (field_lt (next eb y) 3)

pub round_3 :
    (eb db x y : ℕ) (s : Text)
    → Pending 3 eb db x
    → decode_from db 5 ((drain (next eb y) 11).0 ++ s)
      ≡ push x (
          decode_from
            (take_in (take_in db (field_of (next eb y) 6 32)) (field_of (next eb y) 1 32))
            7
            s)
unfolding drain
round_3 eb db x y s p =
    two_groups db 5 (field_of (next eb y) 6 32) (field_of (next eb y) 1 32) s
      (field_lt (next eb y) 6)
    ∙ ap₂ push (first_completes_3 eb db x y p) (
        decode_from-letter (take_in db (field_of (next eb y) 6 32)) 2 (field_of (next eb y) 1 32) s
          (field_lt (next eb y) 1))

pub round_1 :
    (eb db x y : ℕ) (s : Text)
    → Pending 1 eb db x
    → decode_from db 7 ((drain (next eb y) 9).0 ++ s)
      ≡ push x (decode_from (take_in db (field_of (next eb y) 4 32)) 4 s)
unfolding drain
round_1 eb db x y s p =
    one_group db 7 (field_of (next eb y) 4 32) s (field_lt (next eb y) 4)
    ∙ ap (λ b. push b (decode_from (take_in db (field_of (next eb y) 4 32)) 4 s))
        (first_completes_1 eb db x y p)

pub round_4 :
    (eb db x y : ℕ) (s : Text)
    → Pending 4 eb db x
    → decode_from db 4 ((drain (next eb y) 12).0 ++ s)
      ≡ push x (
          decode_from
            (take_in (take_in db (field_of (next eb y) 7 32)) (field_of (next eb y) 2 32))
            6
            s)
unfolding drain
round_4 eb db x y s p =
    two_groups db 4 (field_of (next eb y) 7 32) (field_of (next eb y) 2 32) s
      (field_lt (next eb y) 7)
    ∙ ap₂ push (first_completes_4 eb db x y p) (
        decode_from-letter (take_in db (field_of (next eb y) 7 32)) 1 (field_of (next eb y) 2 32) s
          (field_lt (next eb y) 2))

pub round_2 :
    (eb db x y : ℕ) (s : Text)
    → Pending 2 eb db x
    → y < 256
    → decode_from db 6 ((drain (next eb y) 10).0 ++ s)
      ≡ push x (
          push y (
            decode_from
              (take_in (take_in db (field_of (next eb y) 5 32)) (field_of (next eb y) 0 32))
              0
              s))
unfolding drain
round_2 eb db x y s p lt =
    let whole = take_in (take_in db (field_of (next eb y) 5 32)) (field_of (next eb y) 0 32) in
    two_groups db 6 (field_of (next eb y) 5 32) (field_of (next eb y) 0 32) s
      (field_lt (next eb y) 5)
    ∙ ap₂ push (first_completes_2 eb db x y p) (
        decode_from-letter (take_in db (field_of (next eb y) 5 32)) 3 (field_of (next eb y) 0 32) s
          (field_lt (next eb y) 0)
        ∙ ap (λ b. push b (decode_from whole 0 s)) (second_completes_2 eb db y lt))
