-- ===== src/Totp/Recovery/Laws.antt =====
-- The dashes of a recovery code are presentation.
use ratline.Prelude.{
  String, ℕ, zero, suc, ◌<◌, ◌≡◌, refl, ap, ◌∙◌, true, not, ◌||◌, List, [], ◌∷◌, All, filter, ◌==◌,
  arith,
}
use ratline.Prelude.Text.{Text}
use ratline.Prelude.Text.Trim.{is_space}
use ratline.Agent.Utf8.{encode}
use ratline.Totp.Base32.{base32_encode, base32_decode, decoded}
use ratline.Totp.Base32.Letters.{IsBase32, is_letter, base32_encode-IsBase32}
use ratline.Totp.Base32.RoundTrip.{base32_decode-base32_encode}
use ratline.Totp.Recovery.{
  grouped, mint_recovery_code, normalise_recovery_code, recovery_code_digest,
}

letter_kept : (c : ℕ) → is_letter c ≡ true → not (is_space c || c == b'-') ≡ true
unfolding is_space
letter_kept c h = ground arith

filter-grouped :
    (left : ℕ) (s : Text)
    → IsBase32 s
    → filter (λ c. not (is_space c || c == b'-')) (grouped left s) ≡ s
unfolding grouped is_space
filter-grouped left [] h = refl
filter-grouped zero (c ∷ s) h = simp (letter_kept c h.0, filter-grouped 3 s h.1)
filter-grouped (suc left) (c ∷ s) h = simp (letter_kept c h.0, filter-grouped left s h.1)

normalise_recovery_code-mint :
    (to_upper_case : Text → Text) (bytes : List ℕ)
    → ((s : Text) → IsBase32 s → to_upper_case s ≡ s)
    → normalise_recovery_code to_upper_case (mint_recovery_code bytes) ≡ base32_encode bytes
unfolding normalise_recovery_code mint_recovery_code
normalise_recovery_code-mint to_upper_case bytes keeps =
    ap to_upper_case (filter-grouped 4 (base32_encode bytes) (base32_encode-IsBase32 bytes))
    ∙ keeps (base32_encode bytes) (base32_encode-IsBase32 bytes)

-- What is hashed for a minted recovery code is the base32 text of its random bytes, without a dash,
-- and that text decodes to these bytes, so the form that is hashed tells codes of different bytes
-- apart; when the bytes are below 256 and upper-casing leaves a text of the base32 alphabet as it is.
pub recovery_code_digest-mint :
    (sha256_hex : List ℕ → String) (to_upper_case : Text → Text) (bytes : List ℕ)
    → ((s : Text) → IsBase32 s → to_upper_case s ≡ s)
    → All (λ b. b < 256) bytes
    → (recovery_code_digest sha256_hex to_upper_case (mint_recovery_code bytes)
        ≡ sha256_hex (encode (base32_encode bytes)))
      × (base32_decode to_upper_case
            (normalise_recovery_code to_upper_case (mint_recovery_code bytes))
          ≡ decoded bytes)
unfolding recovery_code_digest
recovery_code_digest-mint sha256_hex to_upper_case bytes keeps h =
    let e = normalise_recovery_code-mint to_upper_case bytes keeps in
    (
      ap (λ s. sha256_hex (encode s)) e,
      ap (base32_decode to_upper_case) e ∙ base32_decode-base32_encode to_upper_case bytes keeps h,
    )
