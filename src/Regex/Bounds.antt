-- ===== src/Regex/Bounds.antt =====
-- What every text of a language has: its code units, and a bound on their number.
use ratline.Prelude.{
  ℕ, ◌+◌, ◌≤◌, Bool, true, false, ◌&&◌, ◌≡◌, sym, arith, All, All-append, length, length-append,
  subst, ap,
}
use ratline.Prelude.Text.{Text}
use ratline.Regex.{Regex, never, epsilon, class, seq, alt, star, in_ranges}
use ratline.Regex.Laws.{Matches, nothing, one, both, left, right, stop, again}
use Prim.Native.Nat.{max}

-- Every class of the expression lies within a property of code units.
abbrev pub Over : (ℕ → Type 0) → Regex → Type 0
Over P never = Unit {0}
Over P epsilon = Unit {0}
Over P (class rs) = (c : ℕ) → in_ranges rs c ≡ true → P c
Over P (seq r q) = Over P r × Over P q
Over P (alt r q) = Over P r × Over P q
Over P (star r) = Over P r

pub Matches-All : (P : ℕ → Type 0) {r : Regex} {s : Text} → Matches r s → Over P r → All P s
Matches-All P nothing o = tt
Matches-All P (one {c} h) o = (o c h, tt)
Matches-All P (both {s} {t} a b e) o =
    subst (All P) (sym e) (All-append P s t (Matches-All P a o.0) (Matches-All P b o.1))
Matches-All P (left a) o = Matches-All P a o.0
Matches-All P (right b) o = Matches-All P b o.1
Matches-All P stop o = tt
Matches-All P (again {s} {t} a b e) o =
    subst (All P) (sym e) (All-append P s t (Matches-All P a o) (Matches-All P b o))

abbrev pub star_free : Regex → Bool
star_free never = true
star_free epsilon = true
star_free (class rs) = true
star_free (seq r q) = star_free r && star_free q
star_free (alt r q) = star_free r && star_free q
star_free (star r) = false

-- The length of the longest text, where there is no star.
abbrev pub longest : Regex → ℕ
longest never = 0
longest epsilon = 0
longest (class rs) = 1
longest (seq r q) = longest r + longest q
longest (alt r q) = max (longest r) (longest q)
longest (star r) = 0

pub length-le-longest :
    {r : Regex} {s : Text} → star_free r ≡ true → Matches r s → length s ≤ longest r
length-le-longest f nothing = omega arith
length-le-longest f (one h) = omega arith
length-le-longest {s = u} f (both {r} {q} {s} {t} a b e) =
    let p : star_free r ≡ true = ground arith in
    let k : star_free q ≡ true = ground arith in
    omega (arith, ap length e, length-append s t, length-le-longest p a, length-le-longest k b)
length-le-longest f (left {r} {q} a) =
    let p : star_free r ≡ true = ground arith in omega (arith, length-le-longest p a)
length-le-longest f (right {r} {q} b) =
    let p : star_free q ≡ true = ground arith in omega (arith, length-le-longest p b)
length-le-longest f stop = omega arith
length-le-longest f (again a b e) = cc
