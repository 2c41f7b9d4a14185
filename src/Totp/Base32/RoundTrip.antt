-- ===== src/Totp/Base32/RoundTrip.antt =====
-- Decoding what `base32Encode` wrote gives the bytes back.
use ratline.Prelude.{ℕ, ◌-◌, ◌%◌, ◌<◌, ◌≡◌, refl, ap, ◌∙◌, List, [], ◌∷◌, arith, All}
use ratline.Prelude.Text.{Text}
use ratline.Totp.Base32.{
  shift_left, field_of, drain, last_group, encode_from, base32_encode, decoded, push, decode_from,
  base32_decode,
}
use ratline.Totp.Base32.Letters.{IsBase32, base32_encode-IsBase32, without_padding_lem}
use ratline.Totp.Base32.Groups.{
  Pending, Pending-next_0, Pending-next_1, Pending-next_3, Pending-next_4, decode_from-last,
  last_completes_1, last_completes_2, last_completes_3, last_completes_4, next, round_0, round_1,
  round_2, round_3, round_4, take_in,
}

-- What the decoder makes of the rest, from a pending state with `bits` bits in the encoder.
abbrev Resumes : ℕ → List ℕ → Type 0
Resumes bits bytes =
    (eb db x : ℕ)
    → Pending bits eb db x
    → decode_from db (8 - bits) (encode_from eb bits bytes) ≡ decoded (x ∷ bytes)

abbrev Starts : List ℕ → Type 0
Starts bytes = (eb db : ℕ) → decode_from db 0 (encode_from eb 0 bytes) ≡ decoded bytes

resumed :
    (bytes : List ℕ)
    → All (λ b. b < 256) bytes
    → Starts bytes × Resumes 3 bytes × Resumes 1 bytes × Resumes 4 bytes × Resumes 2 bytes
unfolding encode_from last_group drain decode_from
resumed [] h = (
  λ eb db. refl,
  λ eb db x p.
      decode_from-last db 5 (shift_left eb 2 % 32) (omega arith)
      ∙ ap (λ b. decoded (b ∷ [])) (last_completes_3 eb db x p),
  λ eb db x p.
      decode_from-last db 7 (shift_left eb 4 % 32) (omega arith)
      ∙ ap (λ b. decoded (b ∷ [])) (last_completes_1 eb db x p),
  λ eb db x p.
      decode_from-last db 4 (shift_left eb 1 % 32) (omega arith)
      ∙ ap (λ b. decoded (b ∷ [])) (last_completes_4 eb db x p),
  λ eb db x p.
      decode_from-last db 6 (shift_left eb 3 % 32) (omega arith)
      ∙ ap (λ b. decoded (b ∷ [])) (last_completes_2 eb db x p),
)
resumed (y ∷ ys) h =
    let (from_0, from_3, from_1, from_4, from_2) = resumed ys h.1 in
    (
      λ eb db.
          round_0 eb db y (encode_from (next eb y) 3 ys)
          ∙ from_3 (next eb y) (take_in db (field_of (next eb y) 3 32)) y
              (Pending-next_0 eb db y h.0),
      λ eb db x p.
          round_3 eb db x y (encode_from (next eb y) 1 ys) p
          ∙ ap (push x) (from_1 (next eb y) _ y (Pending-next_3 eb db y h.0)),
      λ eb db x p.
          round_1 eb db x y (encode_from (next eb y) 4 ys) p
          ∙ ap (push x) (from_4 (next eb y) _ y (Pending-next_1 eb db y h.0)),
      λ eb db x p.
          round_4 eb db x y (encode_from (next eb y) 2 ys) p
          ∙ ap (push x) (from_2 (next eb y) _ y (Pending-next_4 eb db y h.0)),
      λ eb db x p.
          round_2 eb db x y (encode_from (next eb y) 0 ys) p h.0
          ∙ ap (λ r. push x (push y r)) (from_0 (next eb y) _),
    )

decode_from-base32_encode :
    (bytes : List ℕ)
    → All (λ b. b < 256) bytes
    → decode_from 0 0 (base32_encode bytes) ≡ decoded bytes
unfolding base32_encode
decode_from-base32_encode bytes h = (resumed bytes h).0 0 0

-- What `base32Encode` writes for bytes below 256, `base32Decode` reads back as the same bytes, and
-- never refuses, when upper-casing leaves a text of the base32 alphabet as it is.
pub base32_decode-base32_encode :
    (to_upper_case : Text → Text) (bytes : List ℕ)
    → ((s : Text) → IsBase32 s → to_upper_case s ≡ s)
    → All (λ b. b < 256) bytes
    → base32_decode to_upper_case (base32_encode bytes) ≡ decoded bytes
unfolding base32_decode
base32_decode-base32_encode to_upper_case bytes keeps h =
    ap (λ s. decode_from 0 0 (to_upper_case s))
      (without_padding_lem _ (base32_encode-IsBase32 bytes))
    ∙ ap (decode_from 0 0) (keeps _ (base32_encode-IsBase32 bytes))
    ∙ decode_from-base32_encode bytes h
