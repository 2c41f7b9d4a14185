-- ===== src/TwoFactor/Laws.antt =====
-- What a redemption that was accepted found, and what it left.
use ratline.Prelude.{
  ℕ, ◌≡◌, refl, sym, ap, subst, ◌∙◌, Bool, true, false, String, Option, none, some, any, Bool-cases,
  inl, inr,
}
use ratline.Authz.Can.{AuthzContext}
use ratline.Sessions.Table.{Challenge, Store}
use ratline.TwoFactor.Statements.{is_confirmed, live_challenge}
use ratline.TwoFactor.Redemption.{
  PresentedFactor, spend_factor, redeem_live, redeem_challenge, ChallengeRedemption, not_redeemed,
  redeemed, recovery_codes_left, consume,
}

abbrev pub is_redeemed : ChallengeRedemption → Bool
is_redeemed (not_redeemed refusal) = false
is_redeemed (redeemed user factor left) = true

-- The redemption and the store, where it was accepted.
abbrev pub accepted_redemption :
    Store → AuthzContext → ℕ → PresentedFactor → Challenge → ChallengeRedemption × Store
accepted_redemption store ctx now factor c =
    let after = (spend_factor store ctx.org_id now c.user_id factor).1 in
    (
      redeemed c.user_id factor (recovery_codes_left ctx.org_id c.user_id after),
      record after { challenges = consume ctx.org_id now c.id after.challenges },
    )

pub redeem_live-is_redeemed :
    (store : Store) (ctx : AuthzContext) (now : ℕ) (factor : PresentedFactor) (c : Challenge)
    → is_redeemed (redeem_live store ctx now factor (some c)).0 ≡ true
    → (any (is_confirmed ctx.org_id c.user_id) store.enrolments ≡ true)
      × ((spend_factor store ctx.org_id now c.user_id factor).0 ≡ true)
      × (redeem_live store ctx now factor (some c) ≡ accepted_redemption store ctx now factor c)
redeem_live-is_redeemed store ctx now factor c h =
    elim (Bool-cases (any (is_confirmed ctx.org_id c.user_id) store.enrolments)) [
      | inr e ↦ absurd (let k = rw e at h in cc k)
      | inl e ↦ elim (Bool-cases (spend_factor store ctx.org_id now c.user_id factor).0) [
        | inl k ↦ (e, k, rw (e, k) refl)
        | inr k ↦ absurd (let k = rw (e, k) at h in cc k)
      ]
    ]

-- What an accepted redemption says of the person that it names.
abbrev Settles : Store → AuthzContext → ℕ → PresentedFactor → String → Store → Type 0
Settles store ctx now factor user after =
    (any (is_confirmed ctx.org_id user) store.enrolments ≡ true)
    × ((spend_factor store ctx.org_id now user factor).0 ≡ true)
    × (after.enrolments ≡ (spend_factor store ctx.org_id now user factor).1.enrolments)

redeem_live-redeemed :
    (store : Store) (ctx : AuthzContext) (now : ℕ) (factor : PresentedFactor) (c : Option Challenge)
    (user : String) (given : PresentedFactor) (left : ℕ)
    → (redeem_live store ctx now factor c).0 ≡ redeemed user given left
    → Settles store ctx now factor user (redeem_live store ctx now factor c).1
redeem_live-redeemed store ctx now factor none user given left h = absurd (cc h)
redeem_live-redeemed store ctx now factor (some c) user given left h =
    let (e, k, same) = redeem_live-is_redeemed store ctx now factor c (ap is_redeemed h) in
    let named : redeemed c.user_id factor (
          recovery_codes_left ctx.org_id c.user_id
            (spend_factor store ctx.org_id now c.user_id factor).1)
        ≡ redeemed user given left =
      sym (ap (λ r. r.0) same) ∙ h in
    let person : c.user_id ≡ user = cc named in
    subst (λ u. Settles store ctx now factor u (redeem_live store ctx now factor (some c)).1) person
      (e, k, ap (λ r. r.1.enrolments) same)

pub redeem_challenge-redeemed :
    (digest : String → String) (store : Store) (ctx : AuthzContext) (now : ℕ) (token : String)
    (factor : PresentedFactor) (user : String) (given : PresentedFactor) (left : ℕ)
    → (redeem_challenge digest store ctx now token factor).0 ≡ redeemed user given left
    → (any (is_confirmed ctx.org_id user) store.enrolments ≡ true)
      × ((spend_factor store ctx.org_id now user factor).0 ≡ true)
      × ((redeem_challenge digest store ctx now token factor).1.enrolments
          ≡ (spend_factor store ctx.org_id now user factor).1.enrolments)
unfolding redeem_challenge
redeem_challenge-redeemed digest store ctx now token factor user given left h =
    redeem_live-redeemed store ctx now factor (live_challenge digest store ctx now token) user given
      left h

redeem_live-some :
    (store : Store) (ctx : AuthzContext) (now : ℕ) (factor : PresentedFactor)
    (found : Option Challenge) (user : String) (given : PresentedFactor) (left : ℕ)
    → (redeem_live store ctx now factor found).0 ≡ redeemed user given left
    → (c : Challenge) × (found ≡ some c) × (c.user_id ≡ user) × (factor ≡ given)
redeem_live-some store ctx now factor none user given left h = absurd (cc h)
redeem_live-some store ctx now factor (some c) user given left h =
    let (e, k, same) = redeem_live-is_redeemed store ctx now factor c (ap is_redeemed h) in
    let named : redeemed c.user_id factor (
          recovery_codes_left ctx.org_id c.user_id
            (spend_factor store ctx.org_id now c.user_id factor).1)
        ≡ redeemed user given left =
      sym (ap (λ r. r.0) same) ∙ h in
    (c, refl, cc named, the_factor named)
  where
    the_factor :
        {u v : String} {f g : PresentedFactor} {n m : ℕ} → redeemed u f n ≡ redeemed v g m → f ≡ g
    the_factor e = cc e

-- A redemption that was accepted names the person of a live challenge, and the factor presented.
pub redeem_challenge-some :
    (digest : String → String) (store : Store) (ctx : AuthzContext) (now : ℕ) (token : String)
    (factor : PresentedFactor) (user : String) (given : PresentedFactor) (left : ℕ)
    → (redeem_challenge digest store ctx now token factor).0 ≡ redeemed user given left
    → (c : Challenge) × (live_challenge digest store ctx now token ≡ some c)
      × (c.user_id ≡ user)
      × (factor ≡ given)
unfolding redeem_challenge
redeem_challenge-some digest store ctx now token factor user given left h =
    redeem_live-some store ctx now factor (live_challenge digest store ctx now token) user given
      left h
