-- ===== src/Runs/Challenges/Once.antt =====
-- A challenge is good for one redemption.
use ratline.Prelude.{
  ℕ, ◌≤◌, ◌≡◌, refl, sym, ap, ◌∙◌, true, false, ◌&&◌, String, List, [], ◌∷◌, Option, none, some,
  any, filter, find, length, if◌then◌else◌, str_eq, arith, Bool-cases, inl, inr,
}
use ratline.Authz.Can.{AuthzContext}
use ratline.Sessions.Table.{Challenge, Store}
use ratline.Sessions.Rows.{
  str_eq_refl, update_where-any-false, update_where-any-true, any-weaker, find-none, find-test,
}
use ratline.TwoFactor.Statements.{is_live, live_challenge}
use ratline.TwoFactor.Redemption.{
  consume, consumed, PresentedFactor, redeem_live, redeem_challenge, not_redeemed,
  challenge_not_live,
}
use ratline.TwoFactor.Laws.{is_redeemed, redeem_live-is_redeemed}
use ratline.Runs.{Event, run, Happens}
use ratline.Runs.Challenges.{Spent, Spent-run, spend_factor-challenges}

-- The rows under a digest.
abbrev pub under : String → List Challenge → List Challenge
under token_hash rows = filter (λ c. str_eq c.token_hash token_hash) rows

nothing_under :
    (token_hash org : String) (now : ℕ) (rows : List Challenge)
    → length (under token_hash rows) ≡ 0
    → any (is_live org now token_hash) rows ≡ false
unfolding is_live
nothing_under token_hash org now [] h = refl
nothing_under token_hash org now (c ∷ rows) h = elim (Bool-cases (str_eq c.token_hash token_hash)) [
  | inl e ↦ absurd (let impossible = rw e at h in omega arith)
  | inr e ↦ let rest = nothing_under token_hash org now rows (rw e at h) in ground (arith, rest)
]

is_live-hash :
    (org token_hash : String) (now : ℕ) (c : Challenge)
    → is_live org now token_hash c ≡ true
    → (str_eq c.org_id org ≡ true) × (str_eq c.token_hash token_hash ≡ true)
unfolding is_live
is_live-hash org token_hash now c h = (ground arith, ground arith)

is_live-consumed :
    (org token_hash : String) (now : ℕ) (c : Challenge)
    → is_live org now token_hash (consumed now c) ≡ false
unfolding is_live
is_live-consumed org token_hash now c = ground arith

under-rest :
    (token_hash : String) (c : Challenge) (rows : List Challenge)
    → length (under token_hash (c ∷ rows)) ≤ 1
    → (length (under token_hash rows) ≤ 1)
      × (str_eq c.token_hash token_hash ≡ true → length (under token_hash rows) ≡ 0)
under-rest token_hash c rows h = elim (Bool-cases (str_eq c.token_hash token_hash)) [
  | inl e ↦ let k = rw e at h in (omega arith, λ e. omega arith)
  | inr e ↦ let k = rw e at h in (omega arith, λ f. absurd (cc (e, f)))
]

consume-quiet :
    (token_hash org id : String) (now : ℕ) (rows : List Challenge)
    → any (is_live org now token_hash) rows ≡ false
    → any (is_live org now token_hash) (consume org now id rows) ≡ false
unfolding consume
consume-quiet token_hash org id now rows quiet =
    update_where-any-false (is_live org now token_hash) _ (consumed now) rows
      (λ c e h. is_live-consumed org token_hash now c) quiet

consume-head :
    (token_hash org id : String) (now : ℕ) (d : Challenge)
    → is_live org now token_hash d ≡ false
    → is_live org now token_hash
        (if str_eq d.org_id org && str_eq d.id id then consumed now d else d)
      ≡ false
consume-head token_hash org id now d h = elim (Bool-cases (str_eq d.org_id org && str_eq d.id id)) [
  | inl e ↦ rw e (is_live-consumed org token_hash now d)
  | inr e ↦ rw e h
]

-- Where the digest is a key, consuming the live challenge under it leaves none.
consume-under :
    (token_hash org : String) (now : ℕ) (rows : List Challenge) (c : Challenge)
    → length (under token_hash rows) ≤ 1
    → find (is_live org now token_hash) rows ≡ some c
    → any (is_live org now token_hash) (consume org now c.id rows) ≡ false
unfolding consume
consume-under token_hash org now [] c h e = refl
consume-under token_hash org now (d ∷ rows) c h e =
    elim (Bool-cases (is_live org now token_hash d)) [
      | inl k ↦
          let same : d ≡ c = (let found : some d ≡ some c = rw k at e in cc found) in
          let (tenant, hash) = is_live-hash org token_hash now d k in
          let rest =
            nothing_under token_hash org now rows ((under-rest token_hash d rows h).1 hash) in
          let own : str_eq d.id c.id ≡ true =
            ap (λ x. str_eq d.id x.id) (sym same) ∙ str_eq_refl d.id in
          rw (tenant, own, is_live-consumed org token_hash now d)
            (consume-quiet token_hash org c.id now rows rest)
      | inr k ↦
          let rest =
            consume-under token_hash org now rows c (under-rest token_hash d rows h).0
              (rw k at e) in
          rw (consume-head token_hash org c.id now d k) rest
    ]

live-taken :
    (org token_hash : String) (now : ℕ) (rows : List Challenge)
    → any (is_live org now token_hash) rows ≡ true
    → any (λ c. str_eq c.token_hash token_hash) rows ≡ true
live-taken org token_hash now rows h =
    elim (Bool-cases (any (λ c. str_eq c.token_hash token_hash) rows)) [
      | inl e ↦ e
      | inr e ↦
          let quiet =
            any-weaker (λ c. str_eq c.token_hash token_hash) (is_live org now token_hash) rows
              (λ c k. elim (Bool-cases (is_live org now token_hash c)) [
                | inl l ↦ absurd (cc (k, (is_live-hash org token_hash now c l).1))
                | inr l ↦ l
              ])
              e in
          absurd (cc (h, quiet))
    ]

consume-taken :
    (token_hash org id : String) (now : ℕ) (rows : List Challenge)
    → any (λ c. str_eq c.token_hash token_hash) rows ≡ true
    → any (λ c. str_eq c.token_hash token_hash) (consume org now id rows) ≡ true
unfolding consume
consume-taken token_hash org id now rows h =
    update_where-any-true (λ c. str_eq c.token_hash token_hash) _ (consumed now) rows (λ c e k. k) h

-- What a redemption leaves of the challenge that it redeemed.
redeem_live-Spent :
    (token_hash : String) (now : ℕ) (store : Store) (ctx : AuthzContext) (factor : PresentedFactor)
    (c : Option Challenge)
    → length (under token_hash store.challenges) ≤ 1
    → find (is_live ctx.org_id now token_hash) store.challenges ≡ c
    → is_redeemed (redeem_live store ctx now factor c).0 ≡ true
    → Spent ctx.org_id token_hash now (redeem_live store ctx now factor c).1.challenges
redeem_live-Spent token_hash now store ctx factor none key found ok = absurd (cc ok)
redeem_live-Spent token_hash now store ctx factor (some c) key found ok =
    let (e, k, same) = redeem_live-is_redeemed store ctx now factor c ok in
    let live = (find-test (is_live ctx.org_id now token_hash) store.challenges c found).1 in
    rw (same, spend_factor-challenges store ctx.org_id now c.user_id factor)
      (
        consume-taken token_hash ctx.org_id c.id now store.challenges
            (live-taken ctx.org_id token_hash now store.challenges live),
        consume-under token_hash ctx.org_id now store.challenges c key found,
      )

redeem_challenge-none :
    (digest : String → String) (store : Store) (ctx : AuthzContext) (now : ℕ) (token : String)
    (factor : PresentedFactor)
    → any (is_live ctx.org_id now (digest token)) store.challenges ≡ false
    → redeem_challenge digest store ctx now token factor ≡ (not_redeemed challenge_not_live, store)
unfolding redeem_challenge live_challenge
redeem_challenge-none digest store ctx now token factor quiet =
    rw (find-none (is_live ctx.org_id now (digest token)) store.challenges quiet) refl

redeem_challenge-Spent :
    (digest : String → String) (store : Store) (ctx : AuthzContext) (now : ℕ) (token : String)
    (factor : PresentedFactor)
    → length (under (digest token) store.challenges) ≤ 1
    → is_redeemed (redeem_challenge digest store ctx now token factor).0 ≡ true
    → Spent ctx.org_id
        (digest token)
        now
        (redeem_challenge digest store ctx now token factor).1.challenges
unfolding redeem_challenge live_challenge
redeem_challenge-Spent digest store ctx now token factor key ok =
    redeem_live-Spent (digest token) now store ctx factor _ key refl ok

-- Where the table holds at most one challenge under the token's digest, a challenge that was redeemed
-- once is refused as not live, and nothing changes, whatever factor is presented and whatever
-- transactions, of whichever tenant, commit between, at the same instant or later.
pub run-redeem_challenge :
    (digest : String → String) (ctx : AuthzContext) (token : String) (first later : PresentedFactor)
    (events : List Event) (start end : ℕ) (store : Store)
    → length (under (digest token) store.challenges) ≤ 1
    → is_redeemed (redeem_challenge digest store ctx start token first).0 ≡ true
    → Happens start events end
    → redeem_challenge digest
        (run digest events (redeem_challenge digest store ctx start token first).1)
        ctx
        end
        token
        later
      ≡ (
        not_redeemed challenge_not_live,
        run digest events (redeem_challenge digest store ctx start token first).1,
      )
run-redeem_challenge digest ctx token first later events start end store key ok happens =
    redeem_challenge-none digest _ ctx end token later
      (Spent-run digest ctx.org_id (digest token) events start end _ happens
        (redeem_challenge-Spent digest store ctx start token first key ok)).1
