-- ===== src/Bootstrap/Laws.antt =====
-- src/api/bootstrap_token.ts over runs of its operations: a token is the same until it is spent, and
-- no token works afterwards.
use ratline.Prelude.{
  ℕ, ◌≤◌, ◌≡◌, ◌↔◌, refl, ◌∙◌, ap, Bool, true, false, not, ◌&&◌, ◌||◌, List, [], ◌∷◌, ◌++◌, Option,
  none, some, all, leb, ◌==◌, arith, if◌then◌else◌, length,
}
use mathlib.Core.Option.{some-injective}
use ratline.Prelude.Text.{Text, text_eq_iff}
use ratline.Agent.Utf8.{encode}
use ratline.Bootstrap.{
  TokenFile, SecretsDir, bootstrap_state, answered, readable_by_others, mint_bootstrap_token,
  bootstrap_token_matches, spend_bootstrap_token, write_spent, file_mode, is_loose, same_token,
}
use ratline.Prelude.Text.Trim.{trim, trim_end, trim_start, is_space}

pub data Operation : Type 0 where
  minting : Text → Operation
  presenting : Text → Operation
  spending : Operation

-- What an operation leaves.
unfoldable pub step : Operation → SecretsDir → SecretsDir
step (minting random) d = (mint_bootstrap_token random d).1
step (presenting presented) d = d
step spending d = spend_bootstrap_token d

unfoldable pub run : List Operation → SecretsDir → SecretsDir
run [] d = d
run (o ∷ os) d = run os (step o d)

abbrev pub is_spending : Operation → Bool
is_spending spending = true
is_spending _ = false

run-spent : (os : List Operation) (d : SecretsDir) → d.spent ≡ true → (run os d).spent ≡ true
unfolding run step mint_bootstrap_token bootstrap_state spend_bootstrap_token write_spent
run-spent [] d h = h
run-spent (minting random ∷ os) d h = run-spent os (mint_bootstrap_token random d).1 (ground arith)
run-spent (presenting presented ∷ os) d h = run-spent os d h
run-spent (spending ∷ os) d h = run-spent os (spend_bootstrap_token d) refl

-- The directory after a spending that finished, or that died between its two writes.
abbrev pub spent_or_died : Bool → SecretsDir → SecretsDir
spent_or_died true d = spend_bootstrap_token d
spent_or_died false d = write_spent d

spent_or_died-spent : (finished : Bool) (d : SecretsDir) → (spent_or_died finished d).spent ≡ true
unfolding spend_bootstrap_token write_spent
spent_or_died-spent true d = refl
spent_or_died-spent false d = refl

-- Once the token is spent, even by a process that died before it removed the file, whatever is run
-- afterwards, minting answers nothing and leaves the files, and no text is accepted.
pub run-spend_bootstrap_token :
    (finished : Bool) (os : List Operation) (d : SecretsDir) (random presented : Text)
    → (mint_bootstrap_token random (run os (spent_or_died finished d))
        ≡ (answered none, run os (spent_or_died finished d)))
      × (bootstrap_token_matches presented (run os (spent_or_died finished d)) ≡ answered false)
unfolding mint_bootstrap_token bootstrap_token_matches bootstrap_state
run-spend_bootstrap_token finished os d random presented =
    let spent = run-spent os (spent_or_died finished d) (spent_or_died-spent finished d) in
    (rw spent refl, rw spent refl)

-- A token as `randomBytes(32).toString("base64url")` writes it.
abbrev pub is_base64url : ℕ → Bool
is_base64url c =
    (leb b'a' c && leb c b'z')
    || (leb b'A' c && leb c b'Z')
    || (leb b'0' c && leb c b'9')
    || c == b'-'
    || c == b'_'

is_space-base64url : (c : ℕ) → is_base64url c ≡ true → is_space c ≡ false
unfolding is_space
is_space-base64url c h = ground arith

trim_end-cons : (c : ℕ) (s : Text) → is_space c ≡ false → trim_end (c ∷ s) ≡ c ∷ trim_end s
unfolding trim_end
trim_end-cons c s h = rw h refl

line_alone : trim_end (10 ∷ []) ≡ []
unfolding trim_end is_space
line_alone = refl

trim_end-line : (s : Text) → all is_base64url s ≡ true → trim_end (s ++ (10 ∷ [])) ≡ s
trim_end-line [] h = line_alone
trim_end-line (c ∷ s) h =
    let parts : (is_base64url c ≡ true) × (all is_base64url s ≡ true) = ground arith in
    trim_end-cons c (s ++ (10 ∷ [])) (is_space-base64url c parts.0)
    ∙ ap (λ t. c ∷ t) (trim_end-line s parts.1)

trim_alone : trim (10 ∷ []) ≡ []
unfolding trim trim_start trim_end is_space
trim_alone = refl

trim-line : (s : Text) → all is_base64url s ≡ true → trim (s ++ (10 ∷ [])) ≡ s
unfolding trim trim_start
trim-line [] h = trim_alone
trim-line (c ∷ s) h =
    let parts : (is_base64url c ≡ true) × (all is_base64url s ≡ true) = ground arith in
    rw (is_space-base64url c parts.0) (trim_end-line (c ∷ s) h)

-- The file that minting writes.
abbrev pub written : Text → TokenFile
written token = record { content = token ++ (10 ∷ []); mode = file_mode }

run-written :
    (os : List Operation) (d : SecretsDir) (token : Text)
    → all (λ o. not (is_spending o)) os ≡ true
    → d ≡ record { token = some (written token); spent = false }
    → run os d ≡ record { token = some (written token); spent = false }
unfolding run step mint_bootstrap_token bootstrap_state
run-written [] d token h e = e
run-written (minting random ∷ os) d token h e =
    run-written os (mint_bootstrap_token random d).1 token h (rw e refl)
run-written (presenting presented ∷ os) d token h e = run-written os d token h e
run-written (spending ∷ os) d token h e = absurd (ground (arith, h))

-- A directory that holds neither a token nor the mark of a spent one.
abbrev pub fresh : SecretsDir
fresh = record { token = none; spent = false }

abbrev holding : Text → SecretsDir
holding token = record { token = some (written token); spent = false }

step-fresh : (token : Text) → step (minting token) fresh ≡ holding token
unfolding step mint_bootstrap_token bootstrap_state
step-fresh token = refl

mint-written :
    (token random : Text)
    → all is_base64url token ≡ true
    → mint_bootstrap_token random (holding token) ≡ (answered (some token), holding token)
unfolding mint_bootstrap_token bootstrap_state
mint-written token random b = ap (λ s. (answered (some s), holding token)) (trim-line token b)

same_token_iff :
    (presented token : Text)
    → 1 ≤ length token
    → (same_token presented token ≡ true) ↔ (encode presented ≡ encode token)
same_token_iff presented [] l = ground arith
same_token_iff presented (c ∷ s) l = text_eq_iff (encode presented) (encode (c ∷ s))

matches-written :
    (token presented : Text)
    → all is_base64url token ≡ true
    → 1 ≤ length token
    → (bootstrap_token_matches presented (holding token) ≡ answered true)
      ↔ (encode presented ≡ encode token)
unfolding bootstrap_token_matches bootstrap_state
matches-written token presented b l = rw (trim-line token b) (
    let same = same_token_iff presented token l in
    ((λ e. same.0 (ground (arith, e))), (λ e. ap answered (same.1 e))))

-- From a directory that holds neither a token nor the mark of a spent one, a token that is minted is
-- the answer of every later minting, and the one text that is accepted up to its bytes, as long as
-- nothing spends it, whatever is minted or presented in between. The token is a text of base64url.
pub mint_bootstrap_token-run :
    (token : Text) (os : List Operation) (random presented : Text)
    → all is_base64url token ≡ true
    → 1 ≤ length token
    → all (λ o. not (is_spending o)) os ≡ true
    → (let d = run os (step (minting token) fresh) in
        (mint_bootstrap_token random d ≡ (answered (some token), d))
        × ((bootstrap_token_matches presented d ≡ answered true)
            ↔ (encode presented ≡ encode token)))
mint_bootstrap_token-run token os random presented b l h =
    let held = run-written os (step (minting token) fresh) token h (step-fresh token) in
    (rw held (mint-written token random b), rw held (matches-written token presented b l))

checked_iff :
    (loose same : Bool)
    → ((if loose then readable_by_others else answered same) ≡ answered true)
      ↔ ((loose ≡ false) × (same ≡ true))
checked_iff loose same = ground arith

nonempty_iff :
    (presented token : Text)
    → (same_token presented token ≡ true) ↔ ((1 ≤ length token) × (encode presented ≡ encode token))
nonempty_iff presented [] = ground arith
nonempty_iff presented (c ∷ s) =
    let bytes = text_eq_iff (encode presented) (encode (c ∷ s)) in
    ((λ h. (omega arith, bytes.0 h)), (λ h. bytes.1 h.1))

-- When a directory with this token and this mark accepts.
abbrev Accepts : Text → SecretsDir → Type 0
Accepts presented d =
    (f : TokenFile) × (d ≡ record { token = some f; spent = false })
    × (is_loose f ≡ false)
    × (1 ≤ length (trim f.content))
    × (encode presented ≡ encode (trim f.content))

accepted_iff :
    (presented : Text) (token : Option TokenFile) (spent : Bool)
    → (bootstrap_token_matches presented (record { token = token; spent = spent }) ≡ answered true)
      ↔ Accepts presented (record { token = token; spent = spent })
unfolding bootstrap_token_matches bootstrap_state
accepted_iff presented token true =
    ((λ h. absurd (ground (arith, h))), (λ h. absurd (ground (arith, ap (λ d. d.spent) h.1))))
accepted_iff presented none false =
    ((λ h. absurd (ground (arith, h))), (λ h. absurd (ground (arith, ap (λ d. d.token) h.1))))
accepted_iff presented (some f) false =
    let checked = checked_iff (is_loose f) (same_token presented (trim f.content)) in
    let same = nonempty_iff presented (trim f.content) in
    (
      (λ h.
          let both = checked.0 h in let rest = same.0 both.1 in (f, refl, both.0, rest.0, rest.1)),
      (λ h.
          let (g, e, tight, long, bytes) = h in
          let here : f ≡ g = some-injective _ _ (ap (λ d. d.token) e) in
          checked.1 (rw here (tight, (nonempty_iff presented (trim g.content)).1 (long, bytes)))),
    )

-- A text is accepted exactly when no token was spent, a token file is there that only its owner may
-- read, and the text has the bytes of the token, which is not empty once trimmed.
pub bootstrap_token_matches_iff :
    (presented : Text) (d : SecretsDir)
    → (bootstrap_token_matches presented d ≡ answered true) ↔ (
        (f : TokenFile) × (d ≡ record { token = some f; spent = false })
        × (is_loose f ≡ false)
        × (1 ≤ length (trim f.content))
        × (encode presented ≡ encode (trim f.content)))
bootstrap_token_matches_iff presented d = accepted_iff presented d.token d.spent
