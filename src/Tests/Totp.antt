-- ===== src/Tests/Totp.antt =====
-- src/auth/totp.ts on a short secret, with a digest that is easy to read.
use ratline.Prelude.{
  String, if◌then◌else◌, is_empty, ℕ, ◌≡◌, ◌↔◌, ◌<◌, ◌/◌, ◌%◌, ◌^◌, ◌*◌, refl, List, [], ◌∷◌, ◌++◌,
  All, length, some, none, arith,
}
use ratline.Prelude.Text.{Text, lit, text_eq}
use ratline.Prelude.Text.Trim.{is_space}
use ratline.Agent.Bytes.{uint64}
use ratline.Agent.Utf8.{encode}
use ratline.Totp.Base32.{
  base32_encode, base32_decode, decode_from, drain, encode_from, last_group, letter, index_of,
  without_padding, decoded, not_base32,
}
use ratline.Totp.Base32.RoundTrip.{base32_decode-base32_encode}
use ratline.Totp.Code.{
  Hmac, TotpAlgorithm, totp_parameters, totp_code, printed, pad_start, string_of, truncated_of,
  totp_step_at,
}
use ratline.Totp.Code.Digits.{totp_code_lem, IsDigit, read_from}
use ratline.Totp.Verification.{verify_totp, verified, normalise_code, code_equals, visit}
use ratline.Totp.Verification.Laws.{verify_totp_iff, FirstInWindow}
use ratline.Totp.Recovery.{
  grouped, mint_recovery_code, normalise_recovery_code, recovery_code_digest,
}
use ratline.Totp.Recovery.Laws.{recovery_code_digest-mint}

abbrev secret : List ℕ
secret = 72 ∷ 101 ∷ 108 ∷ 108 ∷ 111 ∷ 33 ∷ 0xde ∷ 0xad ∷ 0xbe ∷ 0xef ∷ []

secret_bytes : All (λ b. b < 256) secret
secret_bytes = (
  omega arith,
  (
    omega arith,
    (
      omega arith,
      (
        omega arith,
        (
          omega arith,
          (omega arith, (omega arith, (omega arith, (omega arith, (omega arith, tt))))),
        ),
      ),
    ),
  ),
)

abbrev upper : Text → Text
upper s = s

abbrev digest : Hmac
digest algorithm key message = message ++ key ++ (4 ∷ [])

abbrev hexadecimal : List ℕ → String
hexadecimal bytes = if is_empty bytes then "none" else "some"

encoded_secret : base32_encode secret ≡ lit "JBSWY3DPEHPK3PXP"
unfolding base32_encode encode_from drain last_group letter
encoded_secret = refl

odd_length : base32_encode (1 ∷ 2 ∷ []) ≡ lit "AEBA"
unfolding base32_encode encode_from drain last_group letter
odd_length = refl

padded_text : base32_decode upper (lit "AEBA ====") ≡ decoded (1 ∷ 2 ∷ [])
unfolding base32_decode decode_from without_padding index_of is_space
padded_text = refl

outside_alphabet : base32_decode upper (lit "AE!A") ≡ not_base32 b'!'
unfolding base32_decode decode_from without_padding index_of is_space
outside_alphabet = refl

base32_decode-base32_encode_example : base32_decode upper (base32_encode secret) ≡ decoded secret
base32_decode-base32_encode_example =
    base32_decode-base32_encode upper secret (λ s h. refl) secret_bytes

code_of_step : totp_code digest secret 1 totp_parameters ≡ lit "000001"
unfolding totp_code printed pad_start string_of truncated_of uint64
code_of_step = refl

totp_code_lem_example :
    (length (totp_code digest secret 70000 totp_parameters) ≡ 6)
    × All IsDigit (totp_code digest secret 70000 totp_parameters)
    × (read_from 0 (totp_code digest secret 70000 totp_parameters)
        ≡ truncated_of (digest TotpAlgorithm.sha1 secret (uint64 70000)) % 10 ^ 6)
    × (truncated_of (digest TotpAlgorithm.sha1 secret (uint64 70000)) < 2 ^ 31)
totp_code_lem_example = totp_code_lem digest secret 70000 totp_parameters (omega arith)

code_in_window :
    verify_totp digest secret (lit "000 002") totp_parameters 70000 1 ≡ verified (some 2)
unfolding verify_totp totp_step_at visit code_equals normalise_code totp_code printed pad_start
    string_of truncated_of uint64 is_space text_eq encode
code_in_window = refl

code_of_later_step :
    verify_totp digest secret (lit "000004") totp_parameters 70000 1 ≡ verified none
unfolding verify_totp totp_step_at visit code_equals normalise_code totp_code printed pad_start
    string_of truncated_of uint64 is_space text_eq encode
code_of_later_step = refl

verify_totp_iff_example :
    (verify_totp digest secret (lit "000 002") totp_parameters 70000 1 ≡ verified (some 2))
    ↔ FirstInWindow
        (λ step.
          code_equals
            (totp_code digest secret step totp_parameters)
            (normalise_code (lit "000 002")))
        (70000 / (1000 * 30))
        1
        (some 2)
verify_totp_iff_example =
    verify_totp_iff digest secret (lit "000 002") totp_parameters 70000 1 (some 2) (omega arith)

minted_code : mint_recovery_code secret ≡ lit "JBSW-Y3DP-EHPK-3PXP"
unfolding mint_recovery_code grouped base32_encode encode_from drain last_group letter
minted_code = refl

recovery_code_digest-mint_example :
    (recovery_code_digest hexadecimal upper (mint_recovery_code secret)
      ≡ hexadecimal (encode (base32_encode secret)))
    × (base32_decode upper (normalise_recovery_code upper (mint_recovery_code secret))
        ≡ decoded secret)
recovery_code_digest-mint_example =
    recovery_code_digest-mint hexadecimal upper secret (λ s h. refl) secret_bytes
