-- ===== src/Regex.antt =====
-- The regular expressions that the sources test whole strings with (`^…$`), by derivatives.
pub mod Laws
pub mod Bounds
use ratline.Prelude.{
  ℕ, zero, suc, ◌-◌, Bool, true, false, ◌&&◌, ◌||◌, List, [], ◌∷◌, leb, if◌then◌else◌,
}
use ratline.Prelude.Text.{Text}

-- A character class is a list of ranges of code units.
abbrev pub Ranges : Type 0
Ranges = List (ℕ × ℕ)

pub data Regex : Type 0 where
  never : Regex
  epsilon : Regex
  class : Ranges → Regex
  seq : Regex → Regex → Regex
  alt : Regex → Regex → Regex
  star : Regex → Regex

abbrev pub in_ranges : Ranges → ℕ → Bool
in_ranges [] c = false
in_ranges ((lo, hi) ∷ rs) c = (leb lo c && leb c hi) || in_ranges rs c

abbrev pub char : ℕ → Regex
char c = class ((c, c) ∷ [])

-- `r?`
abbrev pub optional : Regex → Regex
optional r = alt epsilon r

-- `r+`
abbrev pub plus : Regex → Regex
plus r = seq r (star r)

-- `r{0,n}`
unfoldable pub up_to : ℕ → Regex → Regex
up_to zero r = epsilon
up_to (suc n) r = optional (seq r (up_to n r))

-- `r{n}`
unfoldable pub exactly : ℕ → Regex → Regex
exactly zero r = epsilon
exactly (suc n) r = seq r (exactly n r)

pub nullable : Regex → Bool
nullable never = false
nullable epsilon = true
nullable (class rs) = false
nullable (seq r q) = nullable r && nullable q
nullable (alt r q) = nullable r || nullable q
nullable (star r) = true

-- What is left to match after one code unit.
pub derive : ℕ → Regex → Regex
unfolding nullable
derive c never = never
derive c epsilon = never
derive c (class rs) = if in_ranges rs c then epsilon else never
derive c (seq r q) =
    let first = seq (derive c r) q in
    let later = derive c q in if nullable r then alt first later else first
derive c (alt r q) = alt (derive c r) (derive c q)
derive c (star r) = seq (derive c r) (star r)

-- `new RegExp("^" + r + "$").test(s)`
unfoldable pub test : Regex → Text → Bool
unfolding nullable derive
test r [] = nullable r
test r (c ∷ s) = test (derive c r) s
