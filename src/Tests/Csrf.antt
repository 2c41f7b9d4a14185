-- ===== src/Tests/Csrf.antt =====
-- src/api/csrf.ts at one request to https://ops.example.
use ratline.Prelude.{ℕ, ◌≡◌, refl, Bool, false, List, [], ◌∷◌, ◌++◌, Option, none, some, inl, arith}
use ratline.Prelude.Text.{Text, lit, text_eq, member}
use ratline.Prelude.Text.Trim.{trim, trim_end, trim_start, is_space}
use ratline.Csrf.{
  CsrfRequest, post_method, one, accepted, refused, origin_repeated, many, CsrfOptions, Url,
  query_of, header_values, normalise_origin, check_csrf, check_origins,
}
use ratline.Csrf.Laws.{check_csrf_iff, Carries}

abbrev plain : Text → Text
plain s = s

abbrev site : Text
site = lit "https://ops.example"

abbrev parse : Text → Option Url
parse [] = none
parse (c ∷ s) =
    some (record { protocol = lit "https:"; hostname = lit "ops.example"; port = lit "443" })

abbrev has : Text → Text → Bool
has query parameter = text_eq query (parameter ++ lit "=1")

abbrev token_of : List ℕ → Text → Text
token_of key session_id = lit "t-" ++ session_id

abbrev secret : List ℕ
secret =
    1 ∷ 2 ∷ 3 ∷ 4 ∷ 5 ∷ 6 ∷ 7 ∷ 8 ∷ 9 ∷ 10 ∷ 11 ∷ 12 ∷ 13 ∷ 14 ∷ 15 ∷ 16 ∷ 17 ∷ 18 ∷ 19 ∷ 20 ∷ 21
    ∷ 22 ∷ 23 ∷ 24 ∷ 25 ∷ 26 ∷ 27 ∷ 28 ∷ 29 ∷ 30 ∷ 31 ∷ 32 ∷ []

abbrev options : CsrfOptions
options = record { cookie_secret = secret; trusted_origins = site ∷ [] }

abbrev post : CsrfRequest
post = record {
  method = post_method;
  headers = (lit "origin", one site) ∷ (lit "x-ratline-csrf", one (lit "t-s1")) ∷ [];
  url = lit "/grants?x=1";
}

repeated :
    check_csrf plain parse has token_of
      (record post { headers = (lit "origin", many (site ∷ site ∷ [])) ∷ [] })
      (some (lit "s1"))
      options
    ≡ refused origin_repeated none
unfolding check_csrf check_origins header_values text_eq
repeated = refl

carries : Carries plain parse has token_of post options (lit "s1")
unfolding header_values normalise_origin text_eq member query_of trim trim_end trim_start is_space
carries = (
  site,
  inl refl,
  (site, refl, refl, refl, (lit "t-s1", refl, ((λ e. absurd (cc e)), omega arith, refl))),
)

check_csrf_iff_example :
    check_csrf plain parse has token_of post (some (lit "s1")) options ≡ accepted false
check_csrf_iff_example =
    (check_csrf_iff plain parse has token_of post (some (lit "s1")) options refl).1
      (lit "s1", refl, carries)
