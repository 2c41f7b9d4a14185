-- ===== src/Agent/Envelope/Canonical.antt =====
-- The canonical bytes determine the instruction, and do not depend on the order of its arguments.
use mathlib.Core.List.{append_assoc}
use ratline.Prelude.{
  ℕ, ◌<◌, ◌^◌, ◌≡◌, refl, sym, ap, ap₂, ◌∙◌, true, List, [], ◌∷◌, ◌++◌, length, or_else, All, arith,
  append_cancel, ◌↔◌,
}
use ratline.Prelude.Text.{Text, sort}
use ratline.Prelude.Text.Sorting.{IsDistinct}
use ratline.Agent.Utf8.{encode, well_formed}
use ratline.Agent.Utf8.Laws.{encode-injective}
use ratline.Agent.Bytes.{
  uint32, uint64, length-uint32, length-uint64, uint32-injective, uint64-injective,
}
use ratline.Agent.Envelope.{
  Arguments, Instruction, lookup, keys, field, argument_fields, arguments_bytes, canonical_bytes,
  instruction_domain,
}
use ratline.Agent.Envelope.Arguments.{
  SameArguments, value-All, sorted_keys-All, length-sort-keys, sorted_keys-SameArguments,
  SameArguments-of_fields,
}

-- A string with no lone surrogate, whose length fits the prefix.
abbrev pub FitsField : Text → Type 0
FitsField s = (well_formed s ≡ true) × (length (encode s) < 2 ^ 32)

pub record FitsEnvelope (i : Instruction) : Type 0 where
  pub operation_fits : FitsField i.operation
  pub target_fits : FitsField i.target_host_id
  pub nonce_fits : FitsField i.nonce
  pub arguments_fit : All (λ e. FitsField e.0 × FitsField e.1) i.arguments
  pub count_fits : length i.arguments < 2 ^ 32
  pub distinct : IsDistinct (keys i.arguments)
  pub issued_fits : i.issued_at < 2 ^ 64
  pub expires_fits : i.expires_at < 2 ^ 64

-- Equal in every field, the arguments as a record and not as a list.
pub record SameInstruction (i j : Instruction) : Type 0 where
  pub operation : i.operation ≡ j.operation
  pub target : i.target_host_id ≡ j.target_host_id
  pub nonce : i.nonce ≡ j.nonce
  pub issued : i.issued_at ≡ j.issued_at
  pub expires : i.expires_at ≡ j.expires_at
  pub arguments : SameArguments i.arguments j.arguments

-- A length-prefixed field ends where its length says.
pub field_cancel :
    (s t : Text) {r q : List ℕ}
    → FitsField s
    → FitsField t
    → field s ++ r ≡ field t ++ q
    → (s ≡ t) × (r ≡ q)
unfolding field
field_cancel s t {r} {q} (ws, ls) (wt, lt) e =
    let e' : uint32 (length (encode s)) ++ (encode s ++ r)
        ≡ uint32 (length (encode t)) ++ (encode t ++ q) =
      sym (append_assoc (uint32 (length (encode s))) (encode s) r)
      ∙ e
      ∙ append_assoc (uint32 (length (encode t))) (encode t) q in
    let prefix =
      append_cancel (uint32 (length (encode s))) (uint32 (length (encode t)))
        (length-uint32 (length (encode s)) ∙ sym (length-uint32 (length (encode t)))) e' in
    let lengths = uint32-injective (length (encode s)) (length (encode t)) ls lt prefix.0 in
    let body = append_cancel (encode s) (encode t) lengths prefix.1 in
    (encode-injective s t ws wt body.0, body.1)

uint64_cancel :
    (n m : ℕ) {r q : List ℕ}
    → n < 2 ^ 64
    → m < 2 ^ 64
    → uint64 n ++ r ≡ uint64 m ++ q
    → (n ≡ m) × (r ≡ q)
uint64_cancel n m h k e =
    let split = append_cancel (uint64 n) (uint64 m) (length-uint64 n ∙ sym (length-uint64 m)) e in
    (uint64-injective n m h k split.0, split.1)

empty_fits : FitsField []
unfolding encode well_formed
empty_fits = (refl, omega arith)

module _ (a b : Arguments) (fa : All (λ e. FitsField e.0 × FitsField e.1) a)
    (fb : All (λ e. FitsField e.0 × FitsField e.1) b) where
  argument_fields_cancel :
      (ns ms : List Text)
      → All FitsField ns
      → All FitsField ms
      → length ns ≡ length ms
      → argument_fields a ns ≡ argument_fields b ms
      → (ns ≡ ms) × All (λ n. or_else (lookup n a) [] ≡ or_else (lookup n b) []) ns
  unfolding argument_fields
  argument_fields_cancel [] [] p q l e = (refl, tt)
  argument_fields_cancel [] (m ∷ ms) p q l e = absurd (omega arith)
  argument_fields_cancel (n ∷ ns) [] p q l e = absurd (omega arith)
  argument_fields_cancel (n ∷ ns) (m ∷ ms) (p, ps) (q, qs) l e =
      let name = field_cancel n m p q e in
      let value =
        field_cancel (or_else (lookup n a) []) (or_else (lookup m b) [])
          (value-All FitsField n a empty_fits fa) (value-All FitsField m b empty_fits fb) name.1 in
      let rest = argument_fields_cancel ns ms ps qs (omega arith) value.1 in
      (ap₂ ◌∷◌ name.0 rest.0, (value.0 ∙ ap (λ k. or_else (lookup k b) []) (sym name.0), rest.1))

arguments_bytes-injective :
    (a b : Arguments)
    → All (λ e. FitsField e.0 × FitsField e.1) a
    → All (λ e. FitsField e.0 × FitsField e.1) b
    → length a < 2 ^ 32
    → length b < 2 ^ 32
    → arguments_bytes a ≡ arguments_bytes b
    → SameArguments a b
unfolding arguments_bytes
arguments_bytes-injective a b fa fb la lb e =
    let ns : List Text = sort (keys a) in
    let ms : List Text = sort (keys b) in
    let counts =
      append_cancel (uint32 (length ns)) (uint32 (length ms))
        (length-uint32 (length ns) ∙ sym (length-uint32 (length ms))) e in
    let lengths : length ns ≡ length ms =
      uint32-injective (length ns) (length ms) (omega (arith, length-sort-keys a))
        (omega (arith, length-sort-keys b)) counts.0 in
    let fields =
      argument_fields_cancel a b fa fb ns ms (sorted_keys-All FitsField a fa)
        (sorted_keys-All FitsField b fb) lengths counts.1 in
    SameArguments-of_fields a b fields.0 fields.1

argument_fields-SameArguments :
    (a b : Arguments) (ns : List Text)
    → SameArguments a b
    → argument_fields a ns ≡ argument_fields b ns
unfolding argument_fields
argument_fields-SameArguments a b [] h = refl
argument_fields-SameArguments a b (n ∷ ns) h = cc (h n, argument_fields-SameArguments a b ns h)

arguments_bytes_unique :
    (a b : Arguments)
    → IsDistinct (keys a)
    → IsDistinct (keys b)
    → SameArguments a b
    → arguments_bytes a ≡ arguments_bytes b
unfolding arguments_bytes
arguments_bytes_unique a b p q h =
    cc (sorted_keys-SameArguments a b p q h, argument_fields-SameArguments a b (sort (keys b)) h)

drop_first : List ℕ → List ℕ
drop_first [] = []
drop_first (x ∷ xs) = xs

pub canonical_bytes-injective :
    (i j : Instruction)
    → FitsEnvelope i
    → FitsEnvelope j
    → canonical_bytes i ≡ canonical_bytes j
    → SameInstruction i j
unfolding canonical_bytes drop_first
canonical_bytes-injective i j f g e =
    let domain = append_cancel (encode instruction_domain) (encode instruction_domain) refl e in
    let after = ap drop_first domain.1 in
    let op = field_cancel i.operation j.operation f.operation_fits g.operation_fits after in
    let host = field_cancel i.target_host_id j.target_host_id f.target_fits g.target_fits op.1 in
    let nonce = field_cancel i.nonce j.nonce f.nonce_fits g.nonce_fits host.1 in
    let issued = uint64_cancel i.issued_at j.issued_at f.issued_fits g.issued_fits nonce.1 in
    let expires = uint64_cancel i.expires_at j.expires_at f.expires_fits g.expires_fits issued.1 in
    record {
      operation = op.0;
      target = host.0;
      nonce = nonce.0;
      issued = issued.0;
      expires = expires.0;
      arguments =
          arguments_bytes-injective i.arguments j.arguments f.arguments_fit g.arguments_fit
            f.count_fits g.count_fits expires.1;
    }

pub canonical_bytes_unique :
    (i j : Instruction)
    → IsDistinct (keys i.arguments)
    → IsDistinct (keys j.arguments)
    → SameInstruction i j
    → canonical_bytes i ≡ canonical_bytes j
unfolding canonical_bytes
canonical_bytes_unique i j p q s = cc (
  s.operation,
  s.target,
  s.nonce,
  s.issued,
  s.expires,
  arguments_bytes_unique i.arguments j.arguments p q s.arguments,
)

-- Two instructions whose strings have no lone surrogates, and whose lengths and times fit the
-- prefixes, have the same canonical bytes exactly when they agree in every field, their arguments
-- compared as records, whatever the order of the entries.
pub canonical_bytes_iff :
    (i j : Instruction)
    → FitsEnvelope i
    → FitsEnvelope j
    → (canonical_bytes i ≡ canonical_bytes j) ↔ SameInstruction i j
canonical_bytes_iff i j f g =
    (canonical_bytes-injective i j f g, canonical_bytes_unique i j f.distinct g.distinct)
