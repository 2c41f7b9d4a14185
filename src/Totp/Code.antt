-- ===== src/Totp/Code.antt =====
-- `totpCode` and `totpStepAt` of src/auth/totp.ts. A step is a natural number, so the guard against
-- negative and fractional ones has nothing to refuse; `createHmac` is a parameter.
pub mod Digits
use ratline.Prelude.{
  ℕ, zero, suc, ◌+◌, ◌-◌, ◌*◌, ◌/◌, ◌%◌, ◌^◌, Bool, true, List, [], ◌∷◌, ◌++◌, if◌then◌else◌, ltb,
  length,
}
use ratline.Prelude.Text.{Text}
use ratline.Agent.Bytes.{uint64}

-- `TOTP_ALGORITHMS`
pub data TotpAlgorithm : Type 0 where
  sha1 sha256 sha512 : TotpAlgorithm

pub record TotpParameters : Type 0 where
  pub algorithm : TotpAlgorithm
  pub digits : ℕ
  pub period_seconds : ℕ

-- `TOTP_PARAMETERS`
abbrev pub totp_parameters : TotpParameters
totp_parameters = record { algorithm = sha1; digits = 6; period_seconds = 30 }

-- `createHmac(algorithm, secret).update(message).digest()`
abbrev pub Hmac : Type 0
Hmac = TotpAlgorithm → List ℕ → List ℕ → List ℕ

-- The thrown refusal of a period below one second.
pub data StepAt : Type 0 where
  bad_period : StepAt
  step_at : ℕ → StepAt

-- `totpStepAt`
unfoldable pub totp_step_at : ℕ → ℕ → StepAt
totp_step_at at_ms zero = bad_period
totp_step_at at_ms (suc period) = step_at (at_ms / (1000 * suc period))

-- `digest[i] ?? 0`
abbrev pub byte_at : List ℕ → ℕ → ℕ
byte_at [] i = 0
byte_at (b ∷ bytes) zero = b % 256
byte_at (b ∷ bytes) (suc i) = byte_at bytes i

-- The four bytes from the offset in the low bits of the last byte, less the top bit.
unfoldable pub truncated_of : List ℕ → ℕ
truncated_of digest =
    let offset = byte_at digest (length digest - 1) % 16 in
    byte_at digest offset % 128 * 2 ^ 24
    + byte_at digest (offset + 1) * 2 ^ 16
    + byte_at digest (offset + 2) * 2 ^ 8
    + byte_at digest (offset + 3)

abbrev pub digit : ℕ → ℕ
digit n = 48 + n % 10

-- `String(n)`, for a number of at most `suc more` digits.
unfoldable pub string_of : ℕ → ℕ → Text
string_of zero n = digit n ∷ []
string_of (suc more) n =
    let rest = string_of more (n / 10) in if ltb n 10 then digit n ∷ [] else rest ++ (digit n ∷ [])

abbrev pub zeros : ℕ → Text
zeros zero = []
zeros (suc n) = b'0' ∷ zeros n

-- `s.padStart(n, "0")`
unfoldable pub pad_start : ℕ → Text → Text
pad_start n s = zeros (n - length s) ++ s

-- `String(…).padStart(digits, "0")`; what is truncated is below 2 ^ 31, so ten digits hold it.
unfoldable pub printed : ℕ → ℕ → Text
printed digits truncated = pad_start digits (string_of 9 (truncated % 10 ^ digits))

-- `totpCode`
unfoldable pub totp_code : Hmac → List ℕ → ℕ → TotpParameters → Text
totp_code hmac secret step parameters =
    printed parameters.digits (truncated_of (hmac parameters.algorithm secret (uint64 step)))
