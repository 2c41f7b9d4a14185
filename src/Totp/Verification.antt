-- ===== src/Totp/Verification.antt =====
-- `normaliseCode`, `codeEquals` and `verifyTotp` of src/auth/totp.ts.
pub mod Laws
use ratline.Prelude.{
  ℕ, zero, suc, ◌+◌, ◌-◌, ◌*◌, Bool, true, false, not, ◌&&◌, ◌||◌, List, [], ◌∷◌, Option, none,
  some, is_some, filter, if◌then◌else◌, ltb, ◌==◌,
}
use ratline.Prelude.Text.{Text, text_eq}
use ratline.Prelude.Text.Trim.{is_space}
use ratline.Agent.Utf8.{encode}
use ratline.Totp.Code.{Hmac, TotpParameters, StepAt, bad_period, step_at, totp_step_at, totp_code}

-- `/[\s-]/g` replaced by nothing.
unfoldable pub normalise_code : Text → Text
normalise_code presented = filter (λ c. not (is_space c || c == b'-')) presented

-- `codeEquals`: the texts have the same bytes.
unfoldable pub code_equals : Text → Text → Bool
code_equals expected presented = text_eq (encode expected) (encode presented)

-- `if (hit && matched == null) matched = step`
abbrev pub kept : Bool → ℕ → Option ℕ → Option ℕ
kept hit step (some matched) = some matched
kept true step none = some step
kept false step none = none

-- One round of the loop, at the offset `i - window`.
abbrev pub try_offset : (ℕ → Bool) → ℕ → ℕ → ℕ → Option ℕ → Option ℕ
try_offset hit centre window i matched =
    if ltb (centre + i) window
    then matched
    else kept (hit (centre + i - window)) (centre + i - window) matched

-- The loop, with `left` offsets to go from `i - window`.
unfoldable pub visit : (ℕ → Bool) → ℕ → ℕ → ℕ → ℕ → Option ℕ → Option ℕ
visit hit centre window zero i matched = matched
visit hit centre window (suc left) i matched =
    visit hit centre window left (i + 1) (try_offset hit centre window i matched)

-- A refused period, or the step the code came from.
pub data Verified : Type 0 where
  not_a_period : Verified
  verified : Option ℕ → Verified

abbrev pub verify_around : (ℕ → Bool) → StepAt → ℕ → Verified
verify_around hit bad_period window = not_a_period
verify_around hit (step_at centre) window =
    verified (visit hit centre window (2 * window + 1) 0 none)

-- `verifyTotp`, at an instant and with a window.
unfoldable pub verify_totp : Hmac → List ℕ → Text → TotpParameters → ℕ → ℕ → Verified
verify_totp hmac secret presented parameters now window =
    let code = normalise_code presented in
    verify_around (λ step. code_equals (totp_code hmac secret step parameters) code)
      (totp_step_at now parameters.period_seconds) window
