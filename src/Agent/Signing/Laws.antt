-- ===== src/Agent/Signing/Laws.antt =====
-- What a signed envelope is, and what its signature pins down.
use ratline.Prelude.{
  ℕ, ◌≤◌, ◌≡◌, refl, sym, ap, subst, ◌∙◌, ◌↔◌, ◌≢◌, true, false, ◌||◌, List, some, ltb, leb, arith,
}
use ratline.Prelude.Text.{Text}
use ratline.Agent.Catalogue.{Operation, operation}
use ratline.Agent.Envelope.{canonical_bytes, max_validity_ms}
use ratline.Agent.Envelope.Canonical.{
  FitsEnvelope, SameInstruction, canonical_bytes-injective, canonical_bytes_unique,
}
use ratline.Agent.Validation.{
  ok, >>=-eq-ok, >>=-of_ok, refuse_if, bad_validity, assert_arguments_match,
}
use ratline.Agent.Validation.Laws.{Conforms, assert_arguments_match_iff}
use ratline.Agent.Signing.{
  Ed25519, SignInput, SigningKey, SignedEnvelope, instruction_of, declared_operation,
  sign_instruction, verify_envelope,
}

-- What the caller must have given for an instruction to be built.
pub record IsSignable (input : SignInput) : Type 0 where
  pub declared : Operation
  pub found : operation input.operation ≡ some declared
  pub conforms : Conforms declared input.arguments
  pub positive : 1 ≤ input.validity_ms
  pub bounded : input.validity_ms ≤ 300_000

module _ (ed : Ed25519) (key : SigningKey ed) (input : SignInput) (random : Text) where
  abbrev pub signed : SignedEnvelope ed
  signed = record {
    instruction = instruction_of ed input random;
    signature = ed.sign key.private_key_pem (canonical_bytes (instruction_of ed input random));
    key_id = key.key_id;
  }

  found_of :
      (name : Text) {op : Operation} → declared_operation name ≡ ok op → operation name ≡ some op
  found_of name h = ground arith

  sign_sound :
      (e : SignedEnvelope ed)
      → sign_instruction ed key input random ≡ ok e
      → IsSignable input × (e ≡ signed)
  unfolding sign_instruction
  sign_sound e h =
      let (op, declared, rest) = >>=-eq-ok (declared_operation input.operation) _ h in
      let (_, matched, last) = >>=-eq-ok (assert_arguments_match op input.arguments) _ rest in
      let (_, valid, built) =
        >>=-eq-ok
          (refuse_if (leb input.validity_ms 0 || ltb max_validity_ms input.validity_ms)
            bad_validity)
          _ last in
      (
        record {
          declared = op;
          found = found_of input.operation declared;
          conforms = (assert_arguments_match_iff op input.arguments).0 matched;
          positive = ground arith;
          bounded = ground arith;
        },
        cc,
      )

  sign_complete : IsSignable input → sign_instruction ed key input random ≡ ok signed
  unfolding sign_instruction
  sign_complete s =
      let matched = (assert_arguments_match_iff s.declared input.arguments).1 s.conforms in
      let valid : (leb input.validity_ms 0 || ltb max_validity_ms input.validity_ms) ≡ false =
        let low = s.positive in let high = s.bounded in ground arith in
      let declared : declared_operation input.operation ≡ ok s.declared =
        rw (s.found, declared_operation) in
      >>=-of_ok _ declared
      ∙ >>=-of_ok _ matched
      ∙ >>=-of_ok _ (ap (λ b. refuse_if b bad_validity) valid)

  -- `sign_instruction` returns an envelope exactly when the operation is in the catalogue, the
  -- arguments conform to it and the validity is within 1 ms and five minutes; the envelope then
  -- holds the caller's fields, an expiry of `now` and the validity, and a signature of their
  -- canonical bytes.
  pub sign_instruction_iff :
      (e : SignedEnvelope ed)
      → (sign_instruction ed key input random ≡ ok e) ↔ (IsSignable input × (e ≡ signed))
  sign_instruction_iff e = (sign_sound e, λ (s, same). sign_complete s ∙ ap ok (sym same))

-- Verification accepts what signing made (the documented behaviour of Ed25519).
abbrev pub VerifiesOwn : Ed25519 → Type 0
VerifiesOwn ed =
    (k : ed.PrivateKey) (bytes : List ℕ) → ed.verify (ed.public_of k) bytes (ed.sign k bytes) ≡ true

-- A forgery: other bytes than those that were signed, which the key's public half accepts under their
-- signature.
abbrev pub IsForgery : (ed : Ed25519) → ed.PrivateKey → List ℕ → List ℕ → Type 0
IsForgery ed k signed_bytes others =
    (others ≢ signed_bytes) × (ed.verify (ed.public_of k) others (ed.sign k signed_bytes) ≡ true)

-- An envelope that `sign_instruction` made verifies under the key's public half, and so does every
-- envelope with that signature and the same fields and arguments. One that verifies with that
-- signature and differs in a field or an argument is a forgery of Ed25519: the canonical bytes of its
-- instruction are not those that were signed, and they are accepted under their signature. Both
-- instructions hold strings with no lone surrogates, of lengths and times that fit the prefixes.
pub verify_envelope-sign_instruction :
    (ed : Ed25519)
    → VerifiesOwn ed
    → (key : SigningKey ed) (input : SignInput) (random : Text) (e f : SignedEnvelope ed)
    → sign_instruction ed key input random ≡ ok e
    → FitsEnvelope e.instruction
    → FitsEnvelope f.instruction
    → f.signature ≡ e.signature
    → (verify_envelope ed (ed.public_of key.private_key_pem) e ≡ true)
      × (SameInstruction f.instruction e.instruction
          → verify_envelope ed (ed.public_of key.private_key_pem) f ≡ true)
      × (verify_envelope ed (ed.public_of key.private_key_pem) f ≡ true
          → ¬ SameInstruction f.instruction e.instruction
          → IsForgery ed key.private_key_pem
              (canonical_bytes (instruction_of ed input random))
              (canonical_bytes f.instruction))
unfolding verify_envelope
verify_envelope-sign_instruction ed own key input random e f h fe ff same =
    let k = key.private_key_pem in
    let made = (sign_sound ed key input random e h).1 in
    let instruction : e.instruction ≡ instruction_of ed input random =
      ap (λ x. x.instruction) made in
    let signature : e.signature ≡ ed.sign k (canonical_bytes e.instruction) =
      subst (λ x. x.signature ≡ ed.sign k (canonical_bytes x.instruction)) (sym made) refl in
    let accepts : ed.verify (ed.public_of k) (canonical_bytes e.instruction) e.signature ≡ true =
      rw signature (own k (canonical_bytes e.instruction)) in
    (
      accepts,
      λ agree.
          let bytes =
            canonical_bytes_unique f.instruction e.instruction ff.distinct fe.distinct agree in
          subst (λ x. ed.verify (ed.public_of k) (canonical_bytes f.instruction) x ≡ true)
            (sym same)
            (subst (λ b. ed.verify (ed.public_of k) b e.signature ≡ true) (sym bytes) accepts),
      λ v differ.
          subst (λ i. IsForgery ed k (canonical_bytes i) (canonical_bytes f.instruction))
            instruction
            (
              λ bytes. differ (canonical_bytes-injective f.instruction e.instruction ff fe bytes),
              subst (λ x. ed.verify (ed.public_of k) (canonical_bytes f.instruction) x ≡ true)
                  (same ∙ signature) v,
            ),
    )
