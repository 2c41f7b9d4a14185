-- ===== src/Totp/Base32/Letters.antt =====
-- What `base32Encode` writes consists of the letters of the alphabet, which the clean-up of
-- `base32Decode` keeps.
use ratline.Prelude.{
  ℕ, zero, suc, ◌+◌, ◌<◌, ◌≡◌, refl, Bool, true, not, ◌&&◌, ◌||◌, List, [], ◌∷◌, ◌++◌, arith, ◌==◌,
  ltb, All,
}
use ratline.Prelude.Text.{Text}
use ratline.Prelude.Text.Trim.{is_space}
use ratline.Totp.Base32.{
  letter, field_of, drain, last_group, encode_from, base32_encode, without_padding,
}
use ratline.Totp.Base32.Groups.{passes_under, passes_under_lem}

-- A to Z, 2 to 7.
abbrev pub is_letter : ℕ → Bool
is_letter c = (ltb 64 c && ltb c 91) || (ltb 49 c && ltb c 56)

-- A text of the alphabet.
abbrev pub IsBase32 : Text → Type 0
IsBase32 s = All (λ c. is_letter c ≡ true) s

abbrev all_letters : Text → Bool
all_letters [] = true
all_letters (c ∷ s) = is_letter c && all_letters s

all_letters_lem : (s : Text) → all_letters s ≡ true → IsBase32 s
all_letters_lem [] h = tt
all_letters_lem (c ∷ s) h = (ground arith, all_letters_lem s (ground arith))

letter_table : passes_under (λ v. all_letters (letter v)) 32 ≡ true
unfolding passes_under letter
letter_table = refl

letter-IsBase32 : (v : ℕ) → v < 32 → IsBase32 (letter v)
letter-IsBase32 v lt = all_letters_lem (letter v) (passes_under_lem _ 32 v letter_table lt)

append-IsBase32 : (s t : Text) → IsBase32 s → IsBase32 t → IsBase32 (s ++ t)
append-IsBase32 [] t h k = k
append-IsBase32 (c ∷ s) t h k = (h.0, append-IsBase32 s t h.1 k)

drain-IsBase32 : (buffer bits : ℕ) → IsBase32 (drain buffer bits).0
unfolding drain
drain-IsBase32 buffer zero = tt
drain-IsBase32 buffer (suc zero) = tt
drain-IsBase32 buffer (suc (suc zero)) = tt
drain-IsBase32 buffer (suc (suc (suc zero))) = tt
drain-IsBase32 buffer (suc (suc (suc (suc zero)))) = tt
drain-IsBase32 buffer (suc (suc (suc (suc (suc bits))))) =
    append-IsBase32 (letter (field_of buffer bits 32)) _ (letter-IsBase32 _ (omega arith))
      (drain-IsBase32 buffer bits)

last_group-IsBase32 : (buffer bits : ℕ) → IsBase32 (last_group buffer bits)
unfolding last_group
last_group-IsBase32 buffer zero = tt
last_group-IsBase32 buffer (suc bits) = letter-IsBase32 _ (omega arith)

encode_from-IsBase32 : (bytes : List ℕ) (buffer bits : ℕ) → IsBase32 (encode_from buffer bits bytes)
unfolding encode_from
encode_from-IsBase32 [] buffer bits = last_group-IsBase32 buffer bits
encode_from-IsBase32 (byte ∷ bytes) buffer bits =
    append-IsBase32 _ _ (drain-IsBase32 _ (8 + bits)) (encode_from-IsBase32 bytes _ _)

pub base32_encode-IsBase32 : (bytes : List ℕ) → IsBase32 (base32_encode bytes)
unfolding base32_encode
base32_encode-IsBase32 bytes = encode_from-IsBase32 bytes 0 0

letter_kept : (c : ℕ) → is_letter c ≡ true → not (is_space c || c == b'=') ≡ true
unfolding is_space
letter_kept c h = ground arith

pub without_padding_lem : (s : Text) → IsBase32 s → without_padding s ≡ s
unfolding without_padding
without_padding_lem [] h = refl
without_padding_lem (c ∷ s) h = simp (letter_kept c h.0, without_padding_lem s h.1)
