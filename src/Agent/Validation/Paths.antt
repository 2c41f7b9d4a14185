-- ===== src/Agent/Validation/Paths.antt =====
-- What the patterns of a slug and of a path inside a site rule out.
use mathlib.Core.List.{append-nil}
use mathlib.Core.Option.{some-injective}
use ratline.Prelude.{
  ℕ, zero, suc, ◌≤◌, ◌≡◌, refl, sym, ap, subst, ◌∙◌, ◌≢◌, true, List, [], ◌∷◌, ◌++◌, some, length,
  length-append, All, arith, ◌==◌, if◌then◌else◌,
}
use ratline.Prelude.Text.{Text, lit}
use ratline.Regex.{Regex, seq, star, class, char, in_ranges, up_to}
use ratline.Regex.Laws.{Matches, one, stop, again, seq-parts}
use ratline.Regex.Bounds.{Over, Matches-All, length-le-longest}
use ratline.Agent.Catalogue.Patterns.{
  lower_digit, lower_digit_dash, word_dash, label, segment, site_slug, path_in_site,
}
use ratline.Agent.Catalogue.{Operation, operation}
use ratline.Agent.Envelope.{Arguments, lookup}
use ratline.Agent.Validation.{ok, assert_arguments_match}
use ratline.Agent.Validation.Laws.{IsGiven, assert_arguments_match_iff}

prepend : ℕ → List Text → List Text
prepend c [] = (c ∷ []) ∷ []
prepend c (p ∷ ps) = (c ∷ p) ∷ ps

-- The parts of a path between its slashes.
unfoldable pub split_slash : Text → List Text
unfolding prepend
split_slash [] = [] ∷ []
split_slash (c ∷ s) = let rest = split_slash s in if c == b'/' then [] ∷ rest else prepend c rest

abbrev NoSlash : ℕ → Type 0
NoSlash c = c ≢ b'/'

split_slash-part : (s : Text) → All NoSlash s → split_slash s ≡ s ∷ []
unfolding split_slash
split_slash-part [] h = refl
split_slash-part (c ∷ s) (n, h) = ground (arith, split_slash-part s h)

split_slash-append : (s t : Text) → All NoSlash s → split_slash (s ++ b'/' ∷ t) ≡ s ∷ split_slash t
unfolding split_slash
split_slash-append [] t h = refl
split_slash-append (c ∷ s) t (n, h) = ground (arith, split_slash-append s t h)

-- A part that names an entry of its directory.
abbrev pub IsPlain : Text → Type 0
IsPlain p = (p ≢ []) × (p ≢ lit ".") × (p ≢ lit "..") × All NoSlash p

class-one :
    (P : Text → Type 0) (rs : List (ℕ × ℕ)) (s : Text)
    → ((c : ℕ) → in_ranges rs c ≡ true → P (c ∷ []))
    → Matches (class rs) s
    → P s
class-one P rs s f (one {c} h) = f c h

segment-NoSlash : (s : Text) → Matches segment s → All NoSlash s
segment-NoSlash s m = Matches-All NoSlash m ((word, word), (dot, (word, word)))
  where
    word : (c : ℕ) → in_ranges word_dash c ≡ true → NoSlash c
    word c h = ground arith

    dot : (c : ℕ) → in_ranges ((b'.', b'.') ∷ []) c ≡ true → NoSlash c
    dot c h = ground arith

-- A segment does not begin with a dot.
segment-head : (s : Text) → Matches segment s → (c : ℕ) × (r : Text) × (s ≡ c ∷ r) × (c ≢ b'.')
segment-head s m =
    let (first, more, a, b, e) = seq-parts m in
    let (head, tail, x, y, k) = seq-parts a in
    class-one (λ h. first ≡ h ++ tail → (c : ℕ) × (r : Text) × (s ≡ c ∷ r) × (c ≢ b'.')) word_dash
      head (λ c h q. (c, tail ++ more, (e ∙ ap (λ z. z ++ more) q), ground arith)) x k

segment-IsPlain : (s : Text) → Matches segment s → IsPlain s
segment-IsPlain s m =
    let (c, r, e, n) = segment-head s m in
    (ground arith, ground arith, ground arith, segment-NoSlash s m)

-- The rest of a path: slashes, each with a segment behind it.
rest-IsPlain :
    (s : Text) {t : Text}
    → IsPlain s
    → Matches (star (seq (char b'/') segment)) t
    → All IsPlain (split_slash (s ++ t))
rest-IsPlain s p stop = rw append-nil (rw (split_slash-part s p.3) (p, tt))
rest-IsPlain s {t} p (again {s = u} {t = v} a b e) =
    let (slash, part, x, y, k) = seq-parts a in
    let plain : IsPlain part = segment-IsPlain part y in
    let tail : All IsPlain (split_slash (part ++ v)) = rest-IsPlain part plain b in
    class-one (λ w. slash ≡ w → All IsPlain (split_slash (s ++ t))) ((b'/', b'/') ∷ []) slash
      (λ c h q.
        let is_slash : c ≡ b'/' = ground arith in
        let shape : t ≡ b'/' ∷ (part ++ v) = cc (e, k, q, is_slash) in
        rw shape (rw (split_slash-append s (part ++ v) p.3) (p, tail)))
      x refl

-- A text that the pattern accepts is made of parts that each name an entry.
pub path-IsPlain : (s : Text) → Matches path_in_site s → All IsPlain (split_slash s)
unfolding path_in_site
path-IsPlain s m =
    let (first, rest, a, b, e) = seq-parts m in
    subst (λ u. All IsPlain (split_slash u)) (sym e)
      (rest-IsPlain first (segment-IsPlain first a) b)

-- A code unit of `[a-z0-9-]`.
abbrev pub IsSlugUnit : ℕ → Type 0
IsSlugUnit c = in_ranges lower_digit_dash c ≡ true

up_to-Over : (P : ℕ → Type 0) (n : ℕ) (r : Regex) → Over P r → Over P (up_to n r)
unfolding up_to
up_to-Over P zero r o = tt
up_to-Over P (suc n) r o = (tt, (o, up_to-Over P n r o))

lower_digit-IsSlugUnit : (c : ℕ) → in_ranges lower_digit c ≡ true → IsSlugUnit c
lower_digit-IsSlugUnit c h = ground arith

slug-Over : Over IsSlugUnit (label 30)
slug-Over = (
  lower_digit-IsSlugUnit,
  (tt, (up_to-Over IsSlugUnit 30 (class lower_digit_dash) (λ c h. h), lower_digit-IsSlugUnit)),
)

-- A slug is one to thirty-two units of `[a-z0-9-]`.
pub slug_bounds :
    (s : Text) → Matches site_slug s → All IsSlugUnit s × (1 ≤ length s) × (length s ≤ 32)
unfolding site_slug
slug_bounds s m =
    let (first, rest, a, b, e) = seq-parts m in
    let some_unit : 1 ≤ length first =
      class-one (λ w. 1 ≤ length w) lower_digit first (λ c h. omega arith) a in
    (
      Matches-All IsSlugUnit m slug-Over,
      omega (arith, ap length e, length-append first rest),
      length-le-longest refl m,
    )

abbrev pub file_write : Text
file_write = lit "site.file.write"

-- Arguments that are accepted for `site.file.write` name a slug of one to thirty-two units of
-- `[a-z0-9-]`, and a path whose parts between slashes are neither empty nor `.` nor `..`.
pub file_write-IsPlain :
    (op : Operation) (args : Arguments)
    → operation file_write ≡ some op
    → assert_arguments_match op args ≡ ok tt
    → (slug : Text) × (path : Text) × (lookup (lit "slug") args ≡ some slug)
      × (lookup (lit "path") args ≡ some path)
      × All IsSlugUnit slug
      × (1 ≤ length slug)
      × (length slug ≤ 32)
      × All IsPlain (split_slash path)
unfolding operation
file_write-IsPlain op args found h =
    let given = ((assert_arguments_match_iff op args).0 h).given in
    let ((slug, e, a), ((path, k, b), _)) =
      subst (λ o. All (IsGiven args) o.args) (sym (some-injective _ _ found)) given in
    let bounds = slug_bounds slug a.1 in
    (slug, path, e, k, bounds.0, bounds.1, bounds.2, path-IsPlain path b.1)
