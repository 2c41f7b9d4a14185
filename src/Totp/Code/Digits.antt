-- ===== src/Totp/Code/Digits.antt =====
-- A code is as long as its parameters say, and reads as the truncated digest.
use ratline.Prelude.{
  ℕ, zero, suc, ◌+◌, ◌-◌, ◌*◌, ◌/◌, ◌%◌, ◌^◌, ◌≤◌, ◌<◌, ◌≡◌, refl, ap, subst, ◌∙◌, false, List, [],
  ◌∷◌, ◌++◌, ltb, length, length-append, All, All-append, arith, Bool-cases, inl, inr, lt→ltb,
  ltb→lt,
}
use native.Mathlib.Nat.{mod-lt, mod-le, one-le-pow}
use ratline.Prelude.Text.{Text}
use ratline.Agent.Bytes.{uint64}
use ratline.Totp.Code.{
  Hmac, TotpParameters, byte_at, truncated_of, digit, string_of, zeros, pad_start, printed,
  totp_code,
}

-- A decimal digit.
abbrev pub IsDigit : ℕ → Type 0
IsDigit c = (48 ≤ c) × (c ≤ 57)

-- The number that a text of digits names, after the digits that stand for `n`.
abbrev pub read_from : ℕ → Text → ℕ
read_from n [] = n
read_from n (c ∷ s) = read_from (n * 10 + (c - 48)) s

read_from-append :
    (s : Text) (n c : ℕ) → read_from n (s ++ (c ∷ [])) ≡ read_from n s * 10 + (c - 48)
read_from-append [] n c = refl
read_from-append (d ∷ s) n c = read_from-append s (n * 10 + (d - 48)) c

string_of-small : (more n : ℕ) → n < 10 → string_of (suc more) n ≡ digit n ∷ []
unfolding string_of
string_of-small more n lt = rw (lt→ltb n 10 lt) refl

string_of-large :
    (more n : ℕ) → 10 ≤ n → string_of (suc more) n ≡ string_of more (n / 10) ++ (digit n ∷ [])
unfolding string_of
string_of-large more n le = let e : ltb n 10 ≡ false = ground arith in rw e refl

-- Enough digits: a number below 10 ^ (more + 1) is printed whole.
read_from-string_of : (more n : ℕ) → n < 10 ^ suc more → read_from 0 (string_of more n) ≡ n
unfolding string_of
read_from-string_of zero n lt = omega arith
read_from-string_of (suc more) n lt = elim (Bool-cases (ltb n 10)) [
  | inl e ↦ let small : n < 10 = ltb→lt n 10 e in rw e (omega arith)
  | inr e ↦ rw e (
      read_from-append (string_of more (n / 10)) 0 (digit n)
      ∙ ap (λ m. m * 10 + (digit n - 48)) (read_from-string_of more (n / 10) (omega arith))
      ∙ omega arith)
]

string_of-digits : (more n : ℕ) → All IsDigit (string_of more n)
unfolding string_of
string_of-digits zero n = ((omega arith, omega arith), tt)
string_of-digits (suc more) n = elim (Bool-cases (ltb n 10)) [
  | inl e ↦ rw e ((omega arith, omega arith), tt)
  | inr e ↦ rw e (
      All-append IsDigit (string_of more (n / 10)) _ (string_of-digits more (n / 10))
        ((omega arith, omega arith), tt))
]

length_single : (n d : ℕ) → length (string_of zero n) ≤ suc d
unfolding string_of
length_single n d = omega arith

length-string_of : (more n d : ℕ) → n < 10 ^ suc d → length (string_of more n) ≤ suc d
length-string_of zero n d lt = length_single n d
length-string_of (suc more) n zero lt = rw (string_of-small more n (omega arith)) (omega arith)
length-string_of (suc more) n (suc d) lt = elim (Bool-cases (ltb n 10)) [
  | inl e ↦ rw (string_of-small more n (ltb→lt n 10 e)) (omega arith)
  | inr e ↦
      let le : 10 ≤ n = ground arith in
      let rest = length-string_of more (n / 10) d (omega arith) in
      rw (string_of-large more n le, length-append (string_of more (n / 10)) (digit n ∷ []))
        (omega (arith, rest))
]

zeros-digits : (n : ℕ) → All IsDigit (zeros n)
zeros-digits zero = tt
zeros-digits (suc n) = ((omega arith, omega arith), zeros-digits n)

length-zeros : (n : ℕ) → length (zeros n) ≡ n
length-zeros zero = refl
length-zeros (suc n) = ap suc (length-zeros n)

read_from-zeros : (n : ℕ) (s : Text) → read_from 0 (zeros n ++ s) ≡ read_from 0 s
read_from-zeros zero s = refl
read_from-zeros (suc n) s = read_from-zeros n s

byte_at_lt : (bytes : List ℕ) (i : ℕ) → byte_at bytes i < 256
byte_at_lt [] i = omega arith
byte_at_lt (b ∷ bytes) zero = omega arith
byte_at_lt (b ∷ bytes) (suc i) = byte_at_lt bytes i

-- The mask of the top bit keeps the number within 31 bits.
pub truncated_of_lt : (digest : List ℕ) → truncated_of digest < 2 ^ 31
unfolding truncated_of
truncated_of_lt digest =
    let offset : ℕ = byte_at digest (length digest - 1) % 16 in
    let b = byte_at_lt digest (offset + 1) in
    let c = byte_at_lt digest (offset + 2) in let d = byte_at_lt digest (offset + 3) in omega arith

-- A printed code has as many characters as asked for.
length-printed : (d n : ℕ) → length (printed (suc d) n) ≡ suc d
unfolding printed pad_start
length-printed d n =
    let le =
      length-string_of 9 (n % 10 ^ suc d) d (mod-lt n (one-le-pow (suc d) 10 (omega arith))) in
    let s : Text = string_of 9 (n % 10 ^ suc d) in
    length-append (zeros (suc d - length s)) s
    ∙ ap (λ m. m + length s) (length-zeros (suc d - length s))
    ∙ omega (arith, le)

pub printed-digits : (d n : ℕ) → All IsDigit (printed d n)
unfolding printed pad_start
printed-digits d n =
    All-append IsDigit _ _ (zeros-digits (d - length (string_of 9 (n % 10 ^ d))))
      (string_of-digits 9 (n % 10 ^ d))

read_from-printed : (d n : ℕ) → n < 2 ^ 31 → read_from 0 (printed d n) ≡ n % 10 ^ d
unfolding printed pad_start
read_from-printed d n lt =
    read_from-zeros (d - length (string_of 9 (n % 10 ^ d))) _
    ∙ read_from-string_of 9 (n % 10 ^ d) (omega (arith, mod-le n (10 ^ d)))

-- A code of one or more digits has exactly as many characters as its parameters say, all of them are
-- decimal digits, and the number they name is the truncated digest modulo the power of ten; the
-- truncated digest is below 2 ^ 31.
pub totp_code_lem :
    (hmac : Hmac) (secret : List ℕ) (step : ℕ) (p : TotpParameters)
    → 1 ≤ p.digits
    → (length (totp_code hmac secret step p) ≡ p.digits)
      × All IsDigit (totp_code hmac secret step p)
      × (read_from 0 (totp_code hmac secret step p)
          ≡ truncated_of (hmac p.algorithm secret (uint64 step)) % 10 ^ p.digits)
      × (truncated_of (hmac p.algorithm secret (uint64 step)) < 2 ^ 31)
unfolding totp_code
totp_code_lem hmac secret step p le =
    let t : ℕ = truncated_of (hmac p.algorithm secret (uint64 step)) in
    let lt = truncated_of_lt (hmac p.algorithm secret (uint64 step)) in
    let e : suc (p.digits - 1) ≡ p.digits = omega arith in
    (
      subst (λ d. length (printed d t) ≡ d) e (length-printed (p.digits - 1) t),
      printed-digits p.digits t,
      read_from-printed p.digits t lt,
      lt,
    )
