-- ===== src/Csrf.antt =====
-- src/api/csrf.ts: what a request must carry to change state, and the audit entry of a refusal. The
-- parser of URLs, that of query strings, lowering and the keyed digest are Node's: parameters.
pub mod Laws
use ratline.Prelude.{
  ℕ, Bool, true, false, not, ◌&&◌, ◌||◌, List, [], ◌∷◌, ◌++◌, Option, none, some, ltb, ◌==◌, length,
  if◌then◌else◌,
}
use ratline.Prelude.Text.{Text, lit, text_eq, member}
use ratline.Agent.Utf8.{encode}
use ratline.Prelude.Text.Trim.{trim}

pub data HttpMethod : Type 0 where
  get_method post_method put_method patch_method delete_method : HttpMethod

-- `isSafeMethod` of src/api/routes.ts.
abbrev pub is_safe_method : HttpMethod → Bool
is_safe_method get_method = true
is_safe_method _ = false

pub data CsrfRefusal : Type 0 where
  unauthenticated origin_missing origin_untrusted origin_repeated : CsrfRefusal
  token_missing token_repeated token_in_query token_mismatch : CsrfRefusal

pub data HeaderValue : Type 0 where
  undefined : HeaderValue
  one : Text → HeaderValue
  many : List Text → HeaderValue

pub record CsrfRequest : Type 0 where
  pub method : HttpMethod
  pub headers : List (Text × HeaderValue)
  pub url : Text

-- `key_too_short` stands for the error that `csrfKey` throws.
pub data CsrfVerdict : Type 0 where
  accepted : Bool → CsrfVerdict
  refused : CsrfRefusal → Option Text → CsrfVerdict
  key_too_short : CsrfVerdict

pub record CsrfOptions : Type 0 where
  pub cookie_secret : List ℕ
  pub trusted_origins : List Text

pub record Url : Type 0 where
  pub protocol : Text
  pub hostname : Text
  pub port : Text

abbrev pub csrf_header : Text
csrf_header = lit "x-ratline-csrf"

abbrev pub csrf_parameter : Text
csrf_parameter = lit "csrf_token"

abbrev pub minimum_secret_bytes : ℕ
minimum_secret_bytes = 32

abbrev pub values_of : HeaderValue → List Text
values_of undefined = []
values_of (one v) = v ∷ []
values_of (many vs) = vs

-- The text after the first question mark.
unfoldable pub query_of : Text → Text
query_of [] = []
query_of (c ∷ s) = if c == b'?' then s else query_of s

module _ (to_lower_case : Text → Text) (parse_url : Text → Option Url)
    (has_parameter : Text → Text → Bool) (token_for : List ℕ → Text → Text) where
  -- `headerValues`
  unfoldable pub header_values : List (Text × HeaderValue) → Text → List Text
  header_values [] name = []
  header_values ((key, value) ∷ headers) name =
      if text_eq (to_lower_case key) (to_lower_case name)
      then values_of value ++ header_values headers name
      else header_values headers name

  abbrev pub origin_of : Url → Option Text
  origin_of url =
      let https = text_eq url.protocol (lit "https:") in
      let scheme = if https then lit "https" else lit "http" in
      let default_port = if https then lit "443" else lit "80" in
      let port =
        if text_eq url.port [] || text_eq url.port default_port then [] else lit ":" ++ url.port in
      let host = to_lower_case url.hostname in
      if not (text_eq url.protocol (lit "http:")) && not https
      then none
      else if text_eq host []
      then none
      else some (scheme ++ (lit "://" ++ (host ++ port)))

  -- `normaliseOrigin`
  unfoldable pub normalise_origin : Text → Option Text
  normalise_origin raw = elim (parse_url (trim raw)) [ none ↦ none | some url ↦ origin_of url ]

  -- The comparison with the token of the session, after `presented[0] ?? ""`.
  unfoldable pub check_token : CsrfOptions → Text → Text → Text → CsrfVerdict
  check_token options session_id observed token =
      if text_eq token []
      then refused token_missing (some observed)
      else if ltb (length options.cookie_secret) minimum_secret_bytes
      then key_too_short
      else if text_eq (encode token) (encode (token_for options.cookie_secret session_id))
      then accepted false
      else refused token_mismatch (some observed)

  unfoldable pub check_presented : CsrfOptions → Text → Text → List Text → CsrfVerdict
  check_presented options session_id observed [] = check_token options session_id observed []
  check_presented options session_id observed (token ∷ []) =
      check_token options session_id observed token
  check_presented options session_id observed (token ∷ next ∷ more) =
      refused token_repeated (some observed)

  -- From the claimed origin on.
  unfoldable pub check_observed : CsrfRequest → CsrfOptions → Text → Option Text → CsrfVerdict
  check_observed request options session_id none = refused origin_untrusted none
  check_observed request options session_id (some observed) =
      if not (member observed options.trusted_origins)
      then refused origin_untrusted (some observed)
      else if has_parameter (query_of request.url) csrf_parameter
      then refused token_in_query (some observed)
      else check_presented options session_id observed (header_values request.headers csrf_header)

  -- `Origin`, or `Referer` where there is none.
  unfoldable pub check_origins :
      CsrfRequest → CsrfOptions → Text → List Text → List Text → CsrfVerdict
  check_origins request options session_id (claimed ∷ next ∷ more) referers =
      refused origin_repeated none
  check_origins request options session_id (claimed ∷ []) referers =
      check_observed request options session_id (normalise_origin claimed)
  check_origins request options session_id [] (claimed ∷ referers) =
      check_observed request options session_id (normalise_origin claimed)
  check_origins request options session_id [] [] = refused origin_missing none

  -- `checkCsrf`; a session is its identifier.
  unfoldable pub check_csrf : CsrfRequest → Option Text → CsrfOptions → CsrfVerdict
  check_csrf request none options =
      if is_safe_method request.method then accepted true else refused unauthenticated none
  check_csrf request (some session_id) options =
      if is_safe_method request.method
      then accepted true
      else check_origins request options session_id (header_values request.headers (lit "origin"))
          (header_values request.headers (lit "referer"))
