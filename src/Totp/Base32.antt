-- ===== src/Totp/Base32.antt =====
-- `base32Encode` and `base32Decode` of src/auth/totp.ts. The buffer is its 32 bits as a natural number:
-- a left shift drops the bits above them, and what is read after a right shift, or put in by `|`, does
-- not depend on the sign. A byte is taken modulo 256.
pub mod Groups
pub mod Letters
pub mod RoundTrip
use ratline.Prelude.{
  ℕ, zero, suc, ◌+◌, ◌-◌, ◌*◌, ◌/◌, ◌%◌, ◌^◌, Bool, true, false, List, [], ◌∷◌, ◌++◌, Option, none,
  some, any, filter, not, ◌||◌, ◌==◌, if◌then◌else◌,
}
use ratline.Prelude.Text.{Text, lit}
use ratline.Prelude.Text.Trim.{is_space}

-- `BASE32_ALPHABET`
abbrev pub base32_alphabet : Text
base32_alphabet = lit "ABCDEFGHIJKLMNOPQRSTUVWXYZ" ++ lit "234567"

-- `text[i] ?? ""`
abbrev pub char_at : ℕ → Text → Text
char_at i [] = []
char_at zero (c ∷ s) = c ∷ []
char_at (suc i) (c ∷ s) = char_at i s

-- `BASE32_ALPHABET[i] ?? ""`
unfoldable pub letter : ℕ → Text
letter i = char_at i base32_alphabet

-- `text.indexOf(c)`, where nothing stands for -1.
abbrev pub index_from : ℕ → ℕ → Text → Option ℕ
index_from i c [] = none
index_from i c (d ∷ s) = if c == d then some i else index_from (i + 1) c s

unfoldable pub index_of : ℕ → Option ℕ
index_of c = index_from 0 c base32_alphabet

-- `buffer << n`
abbrev pub shift_left : ℕ → ℕ → ℕ
shift_left buffer n = buffer * 2 ^ n % 2 ^ 32

-- `(buffer >> n) & mask`, for a mask of `size - 1`.
abbrev pub field_of : ℕ → ℕ → ℕ → ℕ
field_of buffer n size = buffer / 2 ^ n % size

-- The `while` loop: the letters, and the bits that are left.
unfoldable pub drain : ℕ → ℕ → Text × ℕ
drain buffer (suc (suc (suc (suc (suc bits))))) =
    let rest = drain buffer bits in (letter (field_of buffer bits 32) ++ rest.0, rest.1)
drain buffer bits = ([], bits)

-- The partial group at the end, when there is one.
unfoldable pub last_group : ℕ → ℕ → Text
last_group buffer zero = []
last_group buffer (suc bits) = letter (shift_left buffer (4 - bits) % 32)

unfoldable pub encode_from : ℕ → ℕ → List ℕ → Text
encode_from buffer bits [] = last_group buffer bits
encode_from buffer bits (byte ∷ bytes) =
    let next = shift_left buffer 8 + byte % 256 in
    let drained = drain next (8 + bits) in drained.0 ++ encode_from next drained.1 bytes

-- `base32Encode`
unfoldable pub base32_encode : List ℕ → Text
base32_encode bytes = encode_from 0 0 bytes

-- A thrown `Base32Error` names the character that is outside the alphabet.
pub data Decoded : Type 0 where
  not_base32 : ℕ → Decoded
  decoded : List ℕ → Decoded

abbrev pub push : ℕ → Decoded → Decoded
push byte (not_base32 c) = not_base32 c
push byte (decoded bytes) = decoded (byte ∷ bytes)

-- The rest of the loop's round after a byte is complete, or not: `bits` counts the new bits too.
abbrev pub pushed : ℕ → ℕ → (ℕ → Decoded) → Decoded
pushed buffer (suc (suc (suc (suc (suc (suc (suc (suc bits)))))))) rest =
    push (field_of buffer bits 256) (rest bits)
pushed buffer bits rest = rest bits

-- `if (value < 0) throw …`
abbrev pub taken : Option ℕ → ℕ → (ℕ → Decoded) → Decoded
taken none c rest = not_base32 c
taken (some value) c rest = rest value

unfoldable pub decode_from : ℕ → ℕ → Text → Decoded
decode_from buffer bits [] = decoded []
decode_from buffer bits (c ∷ s) = taken (index_of c) c (λ value.
    let next = shift_left buffer 5 + value in
    pushed next (5 + bits) (λ left. decode_from next left s))

-- `/[\s=]/g` replaced by nothing.
unfoldable pub without_padding : Text → Text
without_padding s = filter (λ c. not (is_space c || c == b'=')) s

-- `base32Decode`. The loop goes over code points; a code point above 0xffff is outside the alphabet,
-- and so is each of its two code units.
unfoldable pub base32_decode : (Text → Text) → Text → Decoded
base32_decode to_upper_case text = decode_from 0 0 (to_upper_case (without_padding text))
