-- ===== src/Runs/Replay.antt =====
-- A code is good once, and a stolen password does not replace a factor.
use ratline.Prelude.{
  ℕ, ◌≤◌, ◌<◌, ◌≡◌, refl, sym, ap, ◌∙◌, Bool, true, false, not, ◌&&◌, ◌||◌, String, List, [], ◌∷◌,
  Option, none, some, is_some, any, filter, find, if◌then◌else◌, str_eq, eq_iff, leb→le, arith,
  Bool-cases, inl, inr,
}
use ratline.Authz.Can.{AuthzContext}
use ratline.Sessions.Table.{Enrolment, Store, update_where}
use ratline.Sessions.Rows.{str_eq_refl, find-some, find-any, filter-head, any-own, any-update_where}
use ratline.TwoFactor.Statements.{is_confirmed, is_enrolment_of}
use ratline.TwoFactor.Redemption.{
  accepts_step, stepped, is_before, totp, spend_factor, redeem_challenge, redeemed,
}
use ratline.TwoFactor.Laws.{redeem_challenge-redeemed}
use ratline.Runs.{Event, run}
use ratline.Runs.Factors.{fails, holds, has_reached, Held}
use ratline.Runs.Factors.Steps.{LeavesFactor, Held-run}

-- The one row of a person settles a test that only their rows can pass.
one_row :
    (test own : Enrolment → Bool) (rows : List Enrolment) (e : Enrolment)
    → filter own rows ≡ e ∷ []
    → ((x : Enrolment) → own x ≡ false → test x ≡ false)
    → any test rows ≡ test e
one_row test own rows e one other =
    any-own test own rows other ∙ ap (any test) one ∙ or_false (test e)
  where
    or_false : (b : Bool) → (b || false) ≡ b
    or_false b = ground arith

-- Accepting a step moves the person's row to it.
Held-spend :
    (org user : String) (step : ℕ) (rows : List Enrolment) (e : Enrolment)
    → filter (is_enrolment_of org user) rows ≡ e ∷ []
    → any (is_confirmed org user) rows ≡ true
    → any (accepts_step org user step) rows ≡ true
    → Held org user step e.secret_sealed
        (update_where (accepts_step org user step) (stepped step) rows)
unfolding accepts_step fails is_confirmed
Held-spend org user step rows e one confirmed accepted =
    let own : Enrolment → Bool = is_enrolment_of org user in
    let takes : accepts_step org user step e ≡ true =
      sym (one_row (accepts_step org user step) own rows e one (λ x o. ground arith)) ∙ accepted in
    let moved : Enrolment → Enrolment =
      λ x. if accepts_step org user step x then stepped step x else x in
    let same : str_eq e.secret_sealed e.secret_sealed ≡ true = str_eq_refl e.secret_sealed in
    (
      any-update_where (fails org user step e.secret_sealed) (accepts_step org user step)
            (stepped step) rows
          ∙ one_row (λ x. fails org user step e.secret_sealed (moved x)) own rows e one
              (λ x o. ground arith)
          ∙ rw takes (ground (arith, same)),
      any-update_where (is_confirmed org user) (accepts_step org user step) (stepped step) rows
          ∙ one_row (λ x. is_confirmed org user (moved x)) own rows e one (λ x o. ground arith)
          ∙ rw takes (ground arith),
    )

none_found :
    (test other : Enrolment → Bool) (rows : List Enrolment) (x : Enrolment)
    → find other rows ≡ some x
    → any test rows ≡ false
    → test x ≡ false
none_found test other rows x found quiet = elim (Bool-cases (test x)) [
  | inl e ↦ absurd (cc (quiet, find-any other test rows x found e))
  | inr e ↦ e
]

-- A step that a held factor accepts is a later one.
Held-accepts_step :
    (org user secret : String) (step later : ℕ) (rows : List Enrolment)
    → Held org user step secret rows
    → any (accepts_step org user later) rows ≡ true
    → step < later
unfolding accepts_step fails is_confirmed
Held-accepts_step org user secret step later rows (good, there) accepted =
    let (x, found, takes) = find-some (accepts_step org user later) rows accepted in
    let safe =
      none_found (fails org user step secret) (accepts_step org user later) rows x found good in
    in_row x.last_used_step (is_enrolment_of org user x) (is_confirmed org user x)
      (is_some x.confirmed_at) (str_eq x.secret_sealed secret) takes safe (ground arith)
  where
    in_row :
        (last : Option ℕ) (own confirmed set same : Bool)
        → (confirmed && is_before last later) ≡ true
        → (own && not (set && (has_reached step last && same))) ≡ false
        → (confirmed ≡ true → own ≡ true)
        → step < later
    in_row none own confirmed set same takes safe mine = ground (arith, mine)
    in_row (some used) own confirmed set same takes safe mine = ground (arith, mine)

-- Where the person has one enrolment, a step with which a challenge of theirs was redeemed is spent:
-- whichever challenge of theirs is redeemed with a step afterwards, it is a later step, whatever
-- transactions commit between, unless the person enrolled again while signed in or somebody removed
-- their factor.
pub run-redeem_challenge-step :
    (digest : String → String) (ctx : AuthzContext) (first second user : String)
    (step later left remaining : ℕ) (events : List Event) (start end : ℕ) (store : Store)
    (e : Enrolment)
    → filter (is_enrolment_of ctx.org_id user) store.enrolments ≡ e ∷ []
    → (redeem_challenge digest store ctx start first (totp step)).0 ≡ redeemed user (totp step) left
    → LeavesFactor ctx.org_id user events
    → (redeem_challenge digest
        (run digest events (redeem_challenge digest store ctx start first (totp step)).1)
        ctx
        end
        second
        (totp later)).0
      ≡ redeemed user (totp later) remaining
    → step < later
unfolding spend_factor
run-redeem_challenge-step digest ctx first second user step later left remaining events start end
      store e one accepted leaves again =
    let (confirmed, took, after) =
      redeem_challenge-redeemed digest store ctx start first (totp step) user (totp step) left
        accepted in
    let held = Held-spend ctx.org_id user step store.enrolments e one confirmed took in
    let kept =
      Held-run digest ctx.org_id user e.secret_sealed step events _ leaves (rw after held) in
    let second_took =
      (redeem_challenge-redeemed digest _ ctx end second (totp later) user (totp later) remaining
        again).1 in
    Held-accepts_step ctx.org_id user e.secret_sealed step later _ kept second_took

-- What a held factor shows.
Held-find :
    (org user secret : String) (step : ℕ) (rows : List Enrolment)
    → Held org user step secret rows
    → (e : Enrolment) × (find (is_confirmed org user) rows ≡ some e) × (holds step secret e ≡ true)
unfolding fails is_confirmed
Held-find org user secret step rows (good, there) =
    let (x, found, confirmed) = find-some (is_confirmed org user) rows there in
    let safe = none_found (fails org user step secret) (is_confirmed org user) rows x found good in
    (x, found, ground arith)

-- A person's one confirmed row is held at its step.
Held-start :
    (org user : String) (step : ℕ) (rows : List Enrolment) (e : Enrolment)
    → filter (is_enrolment_of org user) rows ≡ e ∷ []
    → is_some e.confirmed_at ≡ true
    → e.last_used_step ≡ some step
    → Held org user step e.secret_sealed rows
unfolding fails is_confirmed
Held-start org user step rows e one confirmed last =
    let own = filter-head (is_enrolment_of org user) rows e [] one in
    let same : str_eq e.secret_sealed e.secret_sealed ≡ true = str_eq_refl e.secret_sealed in
    let there : has_reached step e.last_used_step ≡ true = rw last (ground arith) in
    (
      one_row (fails org user step e.secret_sealed) (is_enrolment_of org user) rows e one
            (λ x o. ground arith)
          ∙ ground (arith, same, there, confirmed),
      one_row (is_confirmed org user) (is_enrolment_of org user) rows e one (λ x o. ground arith)
          ∙ ground (arith, own, confirmed),
    )

reached :
    (step : ℕ) (last : Option ℕ)
    → has_reached step last ≡ true
    → (used : ℕ) × (last ≡ some used) × (step ≤ used)
reached step none h = absurd (cc h)
reached step (some used) h = (used, refl, leb→le step used h)

-- A confirmed factor stays: where a person has one enrolment, which is confirmed, the confirmed
-- enrolment that is found for them afterwards has the same secret, and its last step is not an earlier
-- one, whatever transactions commit between and whoever redeems or enrols by a challenge in their name,
-- unless the person enrols again while signed in or somebody removes their factor.
pub run-confirmed :
    (digest : String → String) (org user : String) (step : ℕ) (events : List Event) (store : Store)
    (e : Enrolment)
    → filter (is_enrolment_of org user) store.enrolments ≡ e ∷ []
    → is_some e.confirmed_at ≡ true
    → e.last_used_step ≡ some step
    → LeavesFactor org user events
    → (after : Enrolment) × (last : ℕ) × (find
          (is_confirmed org user)
          (run digest events store).enrolments
        ≡ some after)
      × (after.secret_sealed ≡ e.secret_sealed)
      × (after.last_used_step ≡ some last)
      × (step ≤ last)
run-confirmed digest org user step events store e one confirmed last leaves =
    let held = Held-start org user step store.enrolments e one confirmed last in
    let kept = Held-run digest org user e.secret_sealed step events store leaves held in
    let (x, found, shows) = Held-find org user e.secret_sealed step _ kept in
    let (used, at, le) = reached step x.last_used_step (ground (arith, shows)) in
    let same : str_eq x.secret_sealed e.secret_sealed ≡ true = ground (arith, shows) in
    (x, used, found, (eq_iff x.secret_sealed e.secret_sealed).0 same, at, le)
