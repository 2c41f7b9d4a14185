-- ===== src/Agent/Signing.antt =====
-- `signInstruction` and `verifyEnvelope` of src/agent/envelope.ts. Ed25519, with its keys and the
-- base64 text of a signature, is Node's: a parameter. Random bytes are an argument.
pub mod Laws
use ratline.Prelude.{
  ℕ, ◌+◌, ◌≡◌, Bool, true, List, Option, none, some, ltb, leb, ◌||◌, or_else, refl,
}
use ratline.Prelude.Text.{Text}
use ratline.Agent.Catalogue.{Operation, operation}
use ratline.Agent.Envelope.{Arguments, Instruction, canonical_bytes, max_validity_ms}
use ratline.Agent.Validation.{
  Rejection, unknown_operation, bad_validity, Result, ok, err, ◌>>=◌, ◌>>◌, refuse_if,
  assert_arguments_match,
}

-- `sign(null, bytes, key)` and `verify(null, bytes, key, signature)` of node:crypto.
pub record Ed25519 : Type 1 where
  pub PrivateKey : Type 0
  pub PublicKey : Type 0
  pub Signature : Type 0
  pub public_of : PrivateKey → PublicKey
  pub sign : PrivateKey → List ℕ → Signature
  pub verify : PublicKey → List ℕ → Signature → Bool

pub record SignInput : Type 0 where
  pub operation : Text
  pub arguments : Arguments
  pub target_host_id : Text
  pub now : ℕ
  pub validity_ms : ℕ
  pub nonce : Option Text

abbrev pub declared_operation : Text → Result Operation
declared_operation name = elim (operation name) [ none ↦ err unknown_operation | some op ↦ ok op ]

module _ (ed : Ed25519) where
  open ed use {PrivateKey, PublicKey, Signature, public_of, sign, verify}

  pub record SigningKey : Type 0 where
    pub key_id : Text
    pub private_key_pem : PrivateKey

  pub record SignedEnvelope : Type 0 where
    pub instruction : Instruction
    pub signature : Signature
    pub key_id : Text

  -- `random` is `randomBytes(NONCE_BYTES).toString("hex")`.
  pub instruction_of : SignInput → Text → Instruction
  instruction_of input random = record {
    operation = input.operation;
    arguments = input.arguments;
    nonce = or_else input.nonce random;
    issued_at = input.now;
    expires_at = input.now + input.validity_ms;
    target_host_id = input.target_host_id;
  }

  unfoldable pub sign_instruction : SigningKey → SignInput → Text → Result SignedEnvelope
  unfolding instruction_of
  sign_instruction key input random = do
    declared ← declared_operation input.operation
    assert_arguments_match declared input.arguments
    refuse_if (leb input.validity_ms 0 || ltb max_validity_ms input.validity_ms) bad_validity
    let instruction = instruction_of input random
    ok (record {
      instruction = instruction;
      signature = sign key.private_key_pem (canonical_bytes instruction);
      key_id = key.key_id;
    })

  unfoldable pub verify_envelope : PublicKey → SignedEnvelope → Bool
  verify_envelope public_key envelope =
      verify public_key (canonical_bytes envelope.instruction) envelope.signature
