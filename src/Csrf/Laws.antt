-- ===== src/Csrf/Laws.antt =====
-- src/api/csrf.ts: exactly which requests are accepted.
use ratline.Prelude.{
  ℕ, ◌≤◌, ◌≡◌, ◌≢◌, ◌↔◌, ◌⊎◌, inl, inr, refl, subst, Bool, true, false, not, List, [], ◌∷◌, Option,
  none, some, length, arith, if◌then◌else◌,
}
use ratline.Prelude.Text.{Text, lit, text_eq_iff, member}
use ratline.Agent.Utf8.{encode}
use ratline.Csrf.{
  is_safe_method, CsrfRequest, CsrfVerdict, accepted, refused, origin_untrusted, token_in_query,
  CsrfOptions, Url, csrf_header, csrf_parameter, query_of, header_values, normalise_origin,
  check_token, check_presented, check_observed, check_origins, check_csrf,
}

-- The one `Origin`, or the first `Referer` where there is no `Origin`.
abbrev pub IsClaimed : Text → List Text → List Text → Type 0
IsClaimed claimed origins referers =
    (origins ≡ claimed ∷ []) ⊎ ((origins ≡ []) × ((more : List Text) × (referers ≡ claimed ∷ more)))

not-IsClaimed-none : (c : Text) → ¬ IsClaimed c [] []
not-IsClaimed-none c (inl e) = cc e
not-IsClaimed-none c (inr (e, (m, k))) = cc k

not-IsClaimed-many :
    (c a b : Text) (more referers : List Text) → ¬ IsClaimed c (a ∷ b ∷ more) referers
not-IsClaimed-many c a b more referers (inl e) = cc e
not-IsClaimed-many c a b more referers (inr (e, k)) = cc e

IsClaimed-origin : (c a : Text) (referers : List Text) → IsClaimed c (a ∷ []) referers → c ≡ a
IsClaimed-origin c a referers (inl e) = cc e
IsClaimed-origin c a referers (inr (e, k)) = absurd (cc e)

IsClaimed-referer : (c a : Text) (more : List Text) → IsClaimed c [] (a ∷ more) → c ≡ a
IsClaimed-referer c a more (inl e) = absurd (cc e)
IsClaimed-referer c a more (inr (e, (m, k))) = cc k

guarded_iff :
    (trusted leaked : Bool) (untrusted in_query checked : CsrfVerdict)
    → untrusted ≢ accepted false
    → in_query ≢ accepted false
    → ((if not trusted then untrusted else if leaked then in_query else checked) ≡ accepted false)
      ↔ ((trusted ≡ true) × (leaked ≡ false) × (checked ≡ accepted false))
guarded_iff trusted leaked untrusted in_query checked m n = ground (arith, m, n)

module _ (to_lower_case : Text → Text) (parse_url : Text → Option Url)
    (has_parameter : Text → Text → Bool) (token_for : List ℕ → Text → Text) where
  abbrev pub values : CsrfRequest → Text → List Text
  values request name =
      header_values to_lower_case parse_url has_parameter token_for request.headers name

  abbrev pub normalised : Text → Option Text
  normalised raw = normalise_origin to_lower_case parse_url has_parameter token_for raw

  -- A token that is the session's.
  abbrev pub Matches : CsrfOptions → Text → Text → Type 0
  Matches options session_id token =
      (token ≢ [])
      × (32 ≤ length options.cookie_secret)
      × (encode token ≡ encode (token_for options.cookie_secret session_id))

  abbrev pub Presents : CsrfOptions → Text → List Text → Type 0
  Presents options session_id presented =
      (token : Text) × (presented ≡ token ∷ []) × Matches options session_id token

  abbrev pub Observes : CsrfRequest → CsrfOptions → Text → Option Text → Type 0
  Observes request options session_id origin =
      (observed : Text) × (origin ≡ some observed)
      × (member observed options.trusted_origins ≡ true)
      × (has_parameter (query_of request.url) csrf_parameter ≡ false)
      × Presents options session_id (values request csrf_header)

  -- What the request itself must carry.
  abbrev pub Carries : CsrfRequest → CsrfOptions → Text → Type 0
  Carries request options session_id =
      (claimed : Text) × IsClaimed claimed (values request (lit "origin"))
        (values request (lit "referer"))
      × Observes request options session_id (normalised claimed)

  check_token_iff :
      (options : CsrfOptions) (session_id observed token : Text)
      → (check_token to_lower_case parse_url has_parameter token_for options session_id observed
            token
          ≡ accepted false)
        ↔ Matches options session_id token
  unfolding check_token
  check_token_iff options session_id observed token = ground (
    arith,
    text_eq_iff token [],
    text_eq_iff (encode token) (encode (token_for options.cookie_secret session_id)),
  )

  check_presented_iff :
      (options : CsrfOptions) (session_id observed : Text) (presented : List Text)
      → (check_presented to_lower_case parse_url has_parameter token_for options session_id observed
            presented
          ≡ accepted false)
        ↔ Presents options session_id presented
  unfolding check_presented
  check_presented_iff options session_id observed [] = (
    (λ h. absurd (((check_token_iff options session_id observed []).0 h).0 refl)),
    (λ h. absurd (cc (h.1))),
  )
  check_presented_iff options session_id observed (token ∷ []) =
      let stage = check_token_iff options session_id observed token in
      (
        (λ h. (token, refl, stage.0 h)),
        (λ h.
            let (t, e, m) = h in
            let back : t ≡ token = cc e in
            stage.1 (subst (λ u. Matches options session_id u) back m)),
      )
  check_presented_iff options session_id observed (token ∷ next ∷ more) =
      ((λ h. absurd (cc h)), (λ h. absurd (cc (h.1))))

  check_observed_iff :
      (request : CsrfRequest) (options : CsrfOptions) (session_id : Text) (origin : Option Text)
      → (check_observed to_lower_case parse_url has_parameter token_for request options session_id
            origin
          ≡ accepted false)
        ↔ Observes request options session_id origin
  unfolding check_observed
  check_observed_iff request options session_id none =
      ((λ h. absurd (cc h)), (λ h. absurd (cc (h.1))))
  check_observed_iff request options session_id (some observed) =
      let presented = values request csrf_header in
      let guards =
        guarded_iff (member observed options.trusted_origins)
          (has_parameter (query_of request.url) csrf_parameter)
          (refused origin_untrusted (some observed)) (refused token_in_query (some observed))
          (check_presented to_lower_case parse_url has_parameter token_for options session_id
            observed presented)
          (λ e. cc e) (λ e. cc e) in
      let stage = check_presented_iff options session_id observed presented in
      (
        (λ h. let parts = guards.0 h in (observed, refl, parts.0, parts.1, stage.0 parts.2)),
        (λ h.
            let (seen, e, trusted, clean, p) = h in
            let back : seen ≡ observed = cc e in
            guards.1 (
              subst (λ o. member o options.trusted_origins ≡ true) back trusted,
              clean,
              stage.1 p,
            )),
      )

  check_origins_iff :
      (request : CsrfRequest) (options : CsrfOptions) (session_id : Text)
      (origins referers : List Text)
      → (check_origins to_lower_case parse_url has_parameter token_for request options session_id
            origins referers
          ≡ accepted false)
        ↔ ((claimed : Text) × IsClaimed claimed origins referers
            × Observes request options session_id (normalised claimed))
  unfolding check_origins
  check_origins_iff request options session_id [] [] =
      ((λ h. absurd (cc h)), (λ h. absurd (not-IsClaimed-none h.0 h.1)))
  check_origins_iff request options session_id [] (claimed ∷ more) =
      let stage = check_observed_iff request options session_id (normalised claimed) in
      (
        (λ h. (claimed, inr (refl, (more, refl)), stage.0 h)),
        (λ h.
            let (c, from, o) = h in
            stage.1 (
              subst (λ u. Observes request options session_id (normalised u))
                (IsClaimed-referer c claimed more from) o)),
      )
  check_origins_iff request options session_id (claimed ∷ []) referers =
      let stage = check_observed_iff request options session_id (normalised claimed) in
      (
        (λ h. (claimed, inl refl, stage.0 h)),
        (λ h.
            let (c, from, o) = h in
            stage.1 (
              subst (λ u. Observes request options session_id (normalised u))
                (IsClaimed-origin c claimed referers from) o)),
      )
  check_origins_iff request options session_id (claimed ∷ next ∷ more) referers =
      ((λ h. absurd (cc h)), (λ h. absurd (not-IsClaimed-many h.0 claimed next more referers h.1)))

  -- A request that may change state is accepted exactly when there is a session and the request
  -- claims one origin, which is trusted, carries no token in its query and one token in the header,
  -- which is not empty and has the bytes of the session's token, under a secret of 32 bytes or more.
  pub check_csrf_iff :
      (request : CsrfRequest) (session : Option Text) (options : CsrfOptions)
      → is_safe_method request.method ≡ false
      → (check_csrf to_lower_case parse_url has_parameter token_for request session options
          ≡ accepted false)
        ↔ ((session_id : Text) × (session ≡ some session_id) × Carries request options session_id)
  unfolding check_csrf
  check_csrf_iff request none options unsafe =
      ((λ h. absurd (ground (arith, unsafe, h))), (λ h. absurd (cc (h.1))))
  check_csrf_iff request (some session_id) options unsafe = rw unsafe (
      let stage =
        check_origins_iff request options session_id (values request (lit "origin"))
          (values request (lit "referer")) in
      (
        (λ h. (session_id, refl, stage.0 h)),
        (λ h.
            let (s, e, o) = h in
            let back : s ≡ session_id = cc e in
            stage.1 (subst (λ u. Carries request options u) back o)),
      ))
