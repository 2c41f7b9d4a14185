-- ===== src/Totp/Recovery.antt =====
-- The recovery codes of src/auth/totp.ts. The random bytes, SHA-256 in hexadecimal and upper-casing
-- are parameters.
pub mod Laws
use ratline.Prelude.{String, ℕ, zero, suc, not, ◌||◌, List, [], ◌∷◌, filter, ◌==◌}
use ratline.Prelude.Text.{Text}
use ratline.Prelude.Text.Trim.{is_space}
use ratline.Agent.Utf8.{encode}
use ratline.Totp.Base32.{base32_encode}

-- `encoded.match(/.{1,4}/g)` joined by dashes, with `left` characters to go in the group.
unfoldable pub grouped : ℕ → Text → Text
grouped left [] = []
grouped zero (c ∷ s) = b'-' ∷ c ∷ grouped 3 s
grouped (suc left) (c ∷ s) = c ∷ grouped left s

-- `mintRecoveryCode`, from its random bytes.
unfoldable pub mint_recovery_code : List ℕ → Text
mint_recovery_code bytes = grouped 4 (base32_encode bytes)

-- `normaliseRecoveryCode`
unfoldable pub normalise_recovery_code : (Text → Text) → Text → Text
normalise_recovery_code to_upper_case code =
    to_upper_case (filter (λ c. not (is_space c || c == b'-')) code)

-- `recoveryCodeDigest`
unfoldable pub recovery_code_digest : (List ℕ → String) → (Text → Text) → Text → String
recovery_code_digest sha256_hex to_upper_case code =
    sha256_hex (encode (normalise_recovery_code to_upper_case code))
