-- ===== src/Prelude/Text/Trim.antt =====
-- `String.prototype.trim`.
use mathlib.Core.Bool.{Bool, ◌&&◌}
use mathlib.Core.List.{List, [], ◌∷◌}
use Prim.Native.Nat.{ℕ}
use ratline.Prelude.Tests.{◌==◌, if◌then◌else◌}
use ratline.Prelude.Lists.{any, is_empty}
use ratline.Prelude.Text.{Text}

-- The white space and the line ends that `String.prototype.trim` removes.
abbrev pub white_space : List ℕ
white_space =
    9 ∷ 10 ∷ 11 ∷ 12 ∷ 13 ∷ 32 ∷ 0xa0 ∷ 0x1680 ∷ 0x2000 ∷ 0x2001 ∷ 0x2002 ∷ 0x2003 ∷ 0x2004 ∷ 0x2005
    ∷ 0x2006 ∷ 0x2007 ∷ 0x2008 ∷ 0x2009 ∷ 0x200a ∷ 0x2028 ∷ 0x2029 ∷ 0x202f ∷ 0x205f ∷ 0x3000
    ∷ 0xfeff ∷ []

unfoldable pub is_space : ℕ → Bool
is_space c = any (λ s. c == s) white_space

unfoldable pub trim_start : Text → Text
trim_start [] = []
trim_start (c ∷ s) = if is_space c then trim_start s else c ∷ s

unfoldable pub trim_end : Text → Text
trim_end [] = []
trim_end (c ∷ s) = let rest = trim_end s in if is_space c && is_empty rest then [] else c ∷ rest

-- `String.prototype.trim`
unfoldable pub trim : Text → Text
trim s = trim_end (trim_start s)
