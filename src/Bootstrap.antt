-- ===== src/Bootstrap.antt =====
-- src/api/bootstrap_token.ts: the files of the secrets directory that it reads and writes, as a
-- state. The bytes of a file that holds a token are the text that was written: a token is ASCII. The
-- random token is an argument.
pub mod Laws
use ratline.Prelude.{
  ℕ, ◌%◌, Bool, true, false, ◌&&◌, List, [], ◌∷◌, ◌++◌, Option, none, some, any, ◌==◌, ltb,
  if◌then◌else◌, is_empty,
}
use ratline.Prelude.Text.{Text, text_eq}
use ratline.Prelude.Text.Trim.{trim}
use ratline.Agent.Utf8.{encode}

pub record TokenFile : Type 0 where
  pub content : Text
  pub mode : ℕ

pub record SecretsDir : Type 0 where
  pub token : Option TokenFile
  pub spent : Bool

pub data BootstrapState : Type 0 where
  unclaimed claimed : BootstrapState

-- `FILE_MODE`, 0o600.
abbrev pub file_mode : ℕ
file_mode = 384

-- What a call answers, unless it throws because others may read the token.
pub data Answer {ℓ} (A : Type ℓ) : Type ℓ where
  readable_by_others : Answer A
  answered : A → Answer A

-- `bootstrapState`
unfoldable pub bootstrap_state : SecretsDir → BootstrapState
bootstrap_state d = if d.spent then claimed else unclaimed

abbrev pub is_claimed : BootstrapState → Bool
is_claimed claimed = true
is_claimed unclaimed = false

-- The test of `assertNotReadableByOthers`: `(mode & 0o777) & 0o077` is not zero.
abbrev pub is_loose : TokenFile → Bool
is_loose f = ltb 0 (f.mode % 512 % 64)

abbrev pub mint_at : Text → SecretsDir → Option TokenFile → Answer (Option Text) × SecretsDir
mint_at random d (some f) =
    if is_loose f then (readable_by_others, d) else (answered (some (trim f.content)), d)
mint_at random d none = (
  answered (some random),
  record d { token = some (record { content = random ++ (10 ∷ []); mode = file_mode }) },
)

-- `mintBootstrapToken`
unfoldable pub mint_bootstrap_token : Text → SecretsDir → Answer (Option Text) × SecretsDir
mint_bootstrap_token random d =
    if is_claimed (bootstrap_state d) then (answered none, d) else mint_at random d d.token

-- The comparison of `bootstrapTokenMatches`, on the bytes of the two texts.
abbrev pub same_token : Text → Text → Bool
same_token presented [] = false
same_token presented (c ∷ s) = text_eq (encode presented) (encode (c ∷ s))

abbrev pub matches_at : Text → Option TokenFile → Answer Bool
matches_at presented none = answered false
matches_at presented (some f) =
    if is_loose f then readable_by_others else answered (same_token presented (trim f.content))

-- `bootstrapTokenMatches`
unfoldable pub bootstrap_token_matches : Text → SecretsDir → Answer Bool
bootstrap_token_matches presented d =
    if is_claimed (bootstrap_state d) then answered false else matches_at presented d.token

-- The first write of `spendBootstrapToken`: the mark. A process that dies before the second leaves
-- the token file behind it.
unfoldable pub write_spent : SecretsDir → SecretsDir
write_spent d = record d { spent = true }

-- `spendBootstrapToken`
unfoldable pub spend_bootstrap_token : SecretsDir → SecretsDir
spend_bootstrap_token d = record (write_spent d) { token = none }
