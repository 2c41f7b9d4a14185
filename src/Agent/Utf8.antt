-- ===== src/Agent/Utf8.antt =====
-- `TextEncoder.encode`, which src/agent/envelope.ts uses for every field: a string is read as
-- UTF-16, a surrogate without its partner becomes U+FFFD, and each code point is written as UTF-8.
pub mod Laws
use ratline.Prelude.{
  ℕ, ◌+◌, ◌-◌, ◌*◌, ◌/◌, ◌%◌, Bool, true, false, not, ◌&&◌, ◌||◌, List, [], ◌∷◌, ◌++◌, ltb, leb,
  if◌then◌else◌,
}
use ratline.Prelude.Text.{Text}

abbrev pub is_high : ℕ → Bool
is_high c = leb 0xd800 c && ltb c 0xdc00

abbrev pub is_low : ℕ → Bool
is_low c = leb 0xdc00 c && ltb c 0xe000

-- A code unit that stands alone.
abbrev pub scalar : ℕ → ℕ
scalar c = if is_high c || is_low c then 0xfffd else c

abbrev pub pair : ℕ → ℕ → ℕ
pair c d = 0x10000 + (c - 0xd800) * 1024 + (d - 0xdc00)

pub code_points : Text → List ℕ
code_points [] = []
code_points (c ∷ []) = scalar c ∷ []
code_points (c ∷ d ∷ s) =
    let joined = pair c d ∷ code_points s in
    let alone = scalar c ∷ code_points (d ∷ s) in if is_high c && is_low d then joined else alone

pub utf8_point : ℕ → List ℕ
utf8_point n =
    if ltb n 0x80
    then n ∷ []
    else if ltb n 0x800
    then (0xc0 + n / 64) ∷ (0x80 + n % 64) ∷ []
    else if ltb n 0x10000
    then (0xe0 + n / 4096) ∷ (0x80 + n / 64 % 64) ∷ (0x80 + n % 64) ∷ []
    else (0xf0 + n / 262144) ∷ (0x80 + n / 4096 % 64) ∷ (0x80 + n / 64 % 64) ∷ (0x80 + n % 64) ∷ []

pub utf8_points : List ℕ → List ℕ
utf8_points [] = []
utf8_points (n ∷ ns) = utf8_point n ++ utf8_points ns

unfoldable pub encode : Text → List ℕ
unfolding code_points utf8_point utf8_points
encode s = utf8_points (code_points s)

-- `String.prototype.isWellFormed`, over code units: no surrogate without its partner.
unfoldable pub well_formed : Text → Bool
well_formed [] = true
well_formed (c ∷ []) = ltb c 0x10000 && not (is_high c || is_low c)
well_formed (c ∷ d ∷ s) =
    let joined = well_formed s in
    let alone = ltb c 0x10000 && not (is_high c || is_low c) && well_formed (d ∷ s) in
    if is_high c && is_low d then joined else alone
