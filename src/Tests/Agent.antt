-- ===== src/Tests/Agent.antt =====
-- src/agent at concrete inputs.
use ratline.Prelude.{ℕ, ◌==◌, ==_iff, ◌≤◌, ◌≡◌, refl, ◌↔◌, true, [], ◌∷◌, some, All, length, arith}
use ratline.Prelude.Text.{Text, lit, text_eq, member}
use ratline.Agent.Utf8.{encode, well_formed}
use ratline.Agent.Catalogue.{Operation, operation}
use ratline.Agent.Envelope.{Arguments, Instruction, canonical_bytes, lookup, keys}
use ratline.Agent.Envelope.Canonical.{FitsEnvelope, SameInstruction, canonical_bytes_iff}
use ratline.Agent.Validation.{
  ok, err, missing, unexpected, assert_arguments_match, check_names, check_specs,
}
use ratline.Agent.Validation.Laws.{Conforms, assert_arguments_match_iff}
use ratline.Agent.Validation.Paths.{
  IsPlain, IsSlugUnit, split_slash, file_write, file_write-IsPlain,
}
use ratline.Agent.Signing.{
  Ed25519, SignInput, SigningKey, SignedEnvelope, instruction_of, sign_instruction, verify_envelope,
}
use ratline.Agent.Signing.Laws.{
  IsSignable, IsForgery, signed, sign_instruction_iff, verify_envelope-sign_instruction,
}

euro : encode (0x20ac ∷ 0xd83d ∷ 0xde00 ∷ []) ≡ 0xe2 ∷ 0x82 ∷ 0xac ∷ 0xf0 ∷ 0x9f ∷ 0x98 ∷ 0x80 ∷ []
unfolding encode
euro = refl

abbrev site_arguments : Arguments
site_arguments = (lit "slug", lit "shop") ∷ (lit "path", lit "public/index.html") ∷ []

abbrev swapped_arguments : Arguments
swapped_arguments = (lit "path", lit "public/index.html") ∷ (lit "slug", lit "shop") ∷ []

abbrev instruction_with : Arguments → Instruction
instruction_with args = record {
  operation = lit "site.file.write";
  arguments = args;
  nonce = lit "00ff";
  issued_at = 1_700_000_000_000;
  expires_at = 1_700_000_060_000;
  target_host_id = lit "host-1";
}

fits : FitsEnvelope (instruction_with site_arguments)
unfolding encode well_formed keys member
fits = record {
  operation_fits = (refl, omega arith);
  target_fits = (refl, omega arith);
  nonce_fits = (refl, omega arith);
  arguments_fit = (
    ((refl, omega arith), (refl, omega arith)),
    (((refl, omega arith), (refl, omega arith)), tt),
  );
  count_fits = omega arith;
  distinct = (refl, (refl, tt));
  issued_fits = omega arith;
  expires_fits = omega arith;
}

fits_swapped : FitsEnvelope (instruction_with swapped_arguments)
unfolding encode well_formed keys member
fits_swapped = record {
  operation_fits = (refl, omega arith);
  target_fits = (refl, omega arith);
  nonce_fits = (refl, omega arith);
  arguments_fit = (
    ((refl, omega arith), (refl, omega arith)),
    (((refl, omega arith), (refl, omega arith)), tt),
  );
  count_fits = omega arith;
  distinct = (refl, (refl, tt));
  issued_fits = omega arith;
  expires_fits = omega arith;
}

canonical_bytes_iff_example :
    (canonical_bytes (instruction_with site_arguments)
      ≡ canonical_bytes (instruction_with swapped_arguments))
    ↔ SameInstruction (instruction_with site_arguments) (instruction_with swapped_arguments)
canonical_bytes_iff_example = canonical_bytes_iff _ _ fits fits_swapped

-- Both orders of the arguments have one encoding.
one_encoding :
    canonical_bytes (instruction_with site_arguments)
    ≡ canonical_bytes (instruction_with swapped_arguments)
unfolding canonical_bytes lookup
one_encoding = refl

abbrev file_write_operation : Operation
file_write_operation = record {
  name = file_write;
  performer = ratline.Agent.Catalogue.agent;
  args =
      record { name = lit "slug"; kind = ratline.Agent.Catalogue.site_slug }
      ∷ record { name = lit "path"; kind = ratline.Agent.Catalogue.path_in_site }
      ∷ [];
  idempotent = true;
}

accepted : assert_arguments_match file_write_operation site_arguments ≡ ok tt
unfolding assert_arguments_match ratline.Agent.Validation.check_value ratline.Agent.Catalogue.kinds
    lookup keys text_eq encode ratline.Regex.test
accepted = refl

assert_arguments_match_iff_example :
    (assert_arguments_match file_write_operation site_arguments ≡ ok tt)
    ↔ Conforms file_write_operation site_arguments
assert_arguments_match_iff_example = assert_arguments_match_iff file_write_operation site_arguments

file_write-IsPlain_example :
    (slug : Text) × (path : Text) × (lookup (lit "slug") site_arguments ≡ some slug)
    × (lookup (lit "path") site_arguments ≡ some path)
    × All IsSlugUnit slug
    × (1 ≤ length slug)
    × (length slug ≤ 32)
    × All IsPlain (split_slash path)
unfolding operation
file_write-IsPlain_example = file_write-IsPlain file_write_operation site_arguments refl accepted

-- A weak scheme, which keeps its promise to the signer: a signature is the number of the bytes.
abbrev measured : Ed25519
measured = record {
  PrivateKey = Unit {0};
  PublicKey = Unit {0};
  Signature = ℕ;
  public_of = λ k. k;
  sign = λ k bytes. length bytes;
  verify = λ k bytes signature. length bytes == signature;
}

abbrev signing_key : SigningKey measured
signing_key = record { key_id = lit "current"; private_key_pem = tt }

abbrev site_input : SignInput
site_input = record {
  operation = file_write;
  arguments = site_arguments;
  target_host_id = lit "host-1";
  now = 1_700_000_000_000;
  validity_ms = 60_000;
  nonce = some (lit "00ff");
}

abbrev site_envelope : SignedEnvelope measured
site_envelope = record {
  instruction = instruction_with site_arguments;
  signature = length (canonical_bytes (instruction_with site_arguments));
  key_id = lit "current";
}

abbrev other_arguments : Arguments
other_arguments = (lit "slug", lit "stop") ∷ (lit "path", lit "public/index.html") ∷ []

abbrev other_envelope : SignedEnvelope measured
other_envelope = record {
  instruction = instruction_with other_arguments;
  signature = length (canonical_bytes (instruction_with site_arguments));
  key_id = lit "current";
}

fits_other : FitsEnvelope (instruction_with other_arguments)
unfolding encode well_formed keys member
fits_other = record {
  operation_fits = (refl, omega arith);
  target_fits = (refl, omega arith);
  nonce_fits = (refl, omega arith);
  arguments_fit = (
    ((refl, omega arith), (refl, omega arith)),
    (((refl, omega arith), (refl, omega arith)), tt),
  );
  count_fits = omega arith;
  distinct = (refl, (refl, tt));
  issued_fits = omega arith;
  expires_fits = omega arith;
}

site_signed : sign_instruction measured signing_key site_input [] ≡ ok site_envelope
unfolding sign_instruction operation
site_signed = rw accepted

sign_instruction_iff_example :
    (sign_instruction measured signing_key site_input [] ≡ ok site_envelope)
    ↔ (IsSignable site_input × (site_envelope ≡ signed measured signing_key site_input []))
sign_instruction_iff_example = sign_instruction_iff measured signing_key site_input [] site_envelope

-- Another instruction whose bytes are as many is a forgery under that scheme.
verify_envelope-sign_instruction_example :
    (verify_envelope measured tt site_envelope ≡ true)
    × (SameInstruction (instruction_with other_arguments) (instruction_with site_arguments)
        → verify_envelope measured tt other_envelope ≡ true)
    × (verify_envelope measured tt other_envelope ≡ true
        → ¬ SameInstruction (instruction_with other_arguments) (instruction_with site_arguments)
        → IsForgery measured tt
            (canonical_bytes (instruction_of measured site_input []))
            (canonical_bytes (instruction_with other_arguments)))
verify_envelope-sign_instruction_example =
    verify_envelope-sign_instruction measured
      (λ k bytes. (==_iff (length bytes) (length bytes)).1 refl) signing_key site_input []
      site_envelope other_envelope site_signed fits fits_other refl
