-- ===== src/Totp/Verification/Laws.antt =====
-- What `verifyTotp` answers: the first step of the window whose code is the presented one.
use ratline.Prelude.{
  ℕ, zero, suc, ◌+◌, ◌-◌, ◌*◌, ◌/◌, ◌≤◌, ◌<◌, ◌≡◌, refl, subst, ap, ◌∙◌, ◌↔◌, Bool, true, false,
  List, Option, none, some, ltb, ltb→lt, arith, Bool-cases, inl, inr,
}
use ratline.Prelude.Text.{Text}
use ratline.Totp.Code.{Hmac, TotpParameters, totp_step_at, totp_code}
use ratline.Totp.Verification.{
  normalise_code, code_equals, kept, visit, verified, verify_around, verify_totp,
}

-- The steps that the loop tries from the offset `i - window` on, when it has `left` to go.
abbrev Tried : ℕ → ℕ → ℕ → ℕ → ℕ → Type 0
Tried centre window left i s = (centre + i ≤ s + window) × (s + window < centre + i + left)

-- The first hit among them.
abbrev IsFirst : (ℕ → Bool) → ℕ → ℕ → ℕ → ℕ → Option ℕ → Type 0
IsFirst hit centre window left i none = (s : ℕ) → Tried centre window left i s → hit s ≡ false
IsFirst hit centre window left i (some s) =
    Tried centre window left i s
    × (hit s ≡ true)
    × ((earlier : ℕ) → Tried centre window left i earlier → earlier < s → hit earlier ≡ false)

visit-kept :
    (hit : ℕ → Bool) (centre window left i s : ℕ) → visit hit centre window left i (some s) ≡ some s
unfolding visit
visit-kept hit centre window zero i s = refl
visit-kept hit centre window (suc left) i s = elim (Bool-cases (ltb (centre + i) window)) [
  | inl e ↦ rw e (visit-kept hit centre window left (i + 1) s)
  | inr e ↦ rw e (visit-kept hit centre window left (i + 1) s)
]

-- A round that does not hit leaves the question to the rounds after it.
IsFirst-later :
    (hit : ℕ → Bool) (centre window left i : ℕ) (r : Option ℕ)
    → ((s : ℕ) → s + window ≡ centre + i → hit s ≡ false)
    → IsFirst hit centre window left (i + 1) r
    → IsFirst hit centre window (suc left) i r
IsFirst-later hit centre window left i none misses first = λ s (low, high).
    elim (Bool-cases (ltb (centre + i) (s + window))) [
      | inl e ↦ first s (ground arith, omega arith)
      | inr e ↦ misses s (ground arith)
    ]
IsFirst-later hit centre window left i (some s) misses ((low, high), found, before) = (
  (omega arith, omega arith),
  found,
  λ earlier (l, h) lt. elim (Bool-cases (ltb (centre + i) (earlier + window))) [
    | inl e ↦ before earlier (ground arith, omega arith) lt
    | inr e ↦ misses earlier (ground arith)
  ],
)

-- The verdict of the rounds after one, by what that one found.
IsFirst-kept :
    (hit : ℕ → Bool) (centre window left i : ℕ) (found : Bool)
    → window ≤ centre + i
    → hit (centre + i - window) ≡ found
    → IsFirst hit centre window left (i + 1) (visit hit centre window left (i + 1) none)
    → IsFirst hit centre window
        (suc left)
        i
        (visit hit centre window left (i + 1) (kept found (centre + i - window) none))
IsFirst-kept hit centre window left i true le e rest =
    rw (visit-kept hit centre window left (i + 1) (centre + i - window))
      ((omega arith, omega arith), e, λ earlier (low, high) lt. absurd (omega arith))
IsFirst-kept hit centre window left i false le e rest =
    IsFirst-later hit centre window left i _
      (λ s at. let same : s ≡ centre + i - window = omega arith in ap hit same ∙ e) rest

visit-IsFirst :
    (hit : ℕ → Bool) (centre window left i : ℕ)
    → IsFirst hit centre window left i (visit hit centre window left i none)
unfolding visit
visit-IsFirst hit centre window zero i = λ s (low, high). absurd (omega arith)
visit-IsFirst hit centre window (suc left) i = elim (Bool-cases (ltb (centre + i) window)) [
  | inl e ↦ rw e (
      IsFirst-later hit centre window left i (visit hit centre window left (i + 1) none)
        (λ s m. absurd (ground arith)) (visit-IsFirst hit centre window left (i + 1)))
  | inr e ↦ rw e (
      IsFirst-kept hit centre window left i _ (ground arith) refl
        (visit-IsFirst hit centre window left (i + 1)))
]

-- There is one first hit.
IsFirst-unique :
    (hit : ℕ → Bool) (centre window left i : ℕ) (q r : Option ℕ)
    → IsFirst hit centre window left i q
    → IsFirst hit centre window left i r
    → q ≡ r
IsFirst-unique hit centre window left i none none f g = refl
IsFirst-unique hit centre window left i none (some t) f (m, h, b) = absurd (cc (h, f t m))
IsFirst-unique hit centre window left i (some s) none (m, h, b) g = absurd (cc (h, g s m))
IsFirst-unique hit centre window left i (some s) (some t) (m, h, b) (n, k, d) =
    elim (Bool-cases (ltb s t)) [
      | inl e ↦ absurd (cc (h, d s m (ltb→lt s t e)))
      | inr e ↦ elim (Bool-cases (ltb t s)) [
        | inl f ↦ absurd (cc (k, b t n (ltb→lt t s f)))
        | inr f ↦ let same : s ≡ t = ground arith in ap some same
      ]
    ]

-- The steps not below zero and at most `window` from the step of the instant.
abbrev pub InWindow : ℕ → ℕ → ℕ → Type 0
InWindow centre window s = (centre ≤ s + window) × (s ≤ centre + window)

-- What an answer claims of a test on steps: that no step of the window passes, or the first that does.
abbrev pub FirstInWindow : (ℕ → Bool) → ℕ → ℕ → Option ℕ → Type 0
FirstInWindow hit centre window none = (s : ℕ) → InWindow centre window s → hit s ≡ false
FirstInWindow hit centre window (some s) =
    InWindow centre window s
    × (hit s ≡ true)
    × ((earlier : ℕ) → InWindow centre window earlier → earlier < s → hit earlier ≡ false)

FirstInWindow-IsFirst :
    (hit : ℕ → Bool) (centre window : ℕ) (r : Option ℕ)
    → FirstInWindow hit centre window r
    → IsFirst hit centre window (2 * window + 1) 0 r
FirstInWindow-IsFirst hit centre window none f = λ s m. f s (omega arith, omega arith)
FirstInWindow-IsFirst hit centre window (some s) ((l, h), e, b) =
    ((omega arith, omega arith), e, λ earlier m lt. b earlier (omega arith, omega arith) lt)

IsFirst-FirstInWindow :
    (hit : ℕ → Bool) (centre window : ℕ) (r : Option ℕ)
    → IsFirst hit centre window (2 * window + 1) 0 r
    → FirstInWindow hit centre window r
IsFirst-FirstInWindow hit centre window none f = λ s m. f s (omega arith, omega arith)
IsFirst-FirstInWindow hit centre window (some s) ((l, h), e, b) =
    ((omega arith, omega arith), e, λ earlier m lt. b earlier (omega arith, omega arith) lt)

verified-injective : (q r : Option ℕ) → verified q ≡ verified r → q ≡ r
verified-injective q r e = cc e

verify_around_iff :
    (hit : ℕ → Bool) (period now window : ℕ) (r : Option ℕ)
    → 1 ≤ period
    → (verify_around hit (totp_step_at now period) window ≡ verified r)
      ↔ FirstInWindow hit (now / (1000 * period)) window r
unfolding totp_step_at
verify_around_iff hit zero now window r le = absurd (omega arith)
verify_around_iff hit (suc period) now window r le =
    let centre : ℕ = now / (1000 * suc period) in
    let found = visit-IsFirst hit centre window (2 * window + 1) 0 in
    let answer : Option ℕ = visit hit centre window (2 * window + 1) 0 none in
    (
      λ e.
          subst (FirstInWindow hit centre window) (verified-injective answer r e)
            (IsFirst-FirstInWindow hit centre window answer found),
      λ first. ap verified (
          IsFirst-unique hit centre window (2 * window + 1) 0 answer r found
            (FirstInWindow-IsFirst hit centre window r first)),
    )

-- With a period of at least one second, a code is answered with `r` exactly when `r` is what the
-- window says: the least step, at most `window` from that of the instant, whose code has the bytes of
-- the presented text without its spaces and dashes, or nothing when no step of the window has such a
-- code.
pub verify_totp_iff :
    (hmac : Hmac) (secret : List ℕ) (presented : Text) (p : TotpParameters) (now window : ℕ)
    (r : Option ℕ)
    → 1 ≤ p.period_seconds
    → (verify_totp hmac secret presented p now window ≡ verified r)
      ↔ FirstInWindow
          (λ step. code_equals (totp_code hmac secret step p) (normalise_code presented))
          (now / (1000 * p.period_seconds))
          window
          r
unfolding verify_totp
verify_totp_iff hmac secret presented p now window r le =
    verify_around_iff
      (λ step. code_equals (totp_code hmac secret step p) (normalise_code presented))
      p.period_seconds now window r le
