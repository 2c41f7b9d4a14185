-- ===== src/Agent/Envelope.antt =====
-- src/agent/envelope.ts: the bytes that a signature covers.
-- A `Record<string, string>` is the list of its entries; a well-formed one has each key once.
-- Times are whole milliseconds from the epoch.
pub mod Arguments
pub mod Canonical
use ratline.Prelude.{
  ℕ, ◌≡◌, Bool, List, [], ◌∷◌, ◌++◌, map, Option, none, some, length, or_else, if◌then◌else◌,
}
use ratline.Prelude.Text.{Text, lit, text_eq, sort}
use ratline.Agent.Utf8.{encode}
use ratline.Agent.Bytes.{uint32, uint64}

-- `Readonly<Record<string, string>>`
abbrev pub Arguments : Type 0
Arguments = List (Text × Text)

unfoldable pub lookup : Text → Arguments → Option Text
unfolding text_eq
lookup k [] = none
lookup k ((j, v) ∷ args) = if text_eq k j then some v else lookup k args

-- `Object.keys`
unfoldable pub keys : Arguments → List Text
keys [] = []
keys ((k, v) ∷ args) = k ∷ keys args

pub record Instruction : Type 0 where
  pub operation : Text
  pub arguments : Arguments
  pub nonce : Text
  pub issued_at : ℕ
  pub expires_at : ℕ
  pub target_host_id : Text

abbrev pub instruction_domain : Text
instruction_domain = lit "ratline-instruction-v1"

abbrev pub nonce_bytes : ℕ
nonce_bytes = 32

abbrev pub max_validity_ms : ℕ
max_validity_ms = 300_000

unfoldable pub field : Text → List ℕ
unfolding encode uint32
field value = uint32 (length (encode value)) ++ encode value

-- The loop over the sorted names.
unfoldable pub argument_fields : Arguments → List Text → List ℕ
unfolding field lookup
argument_fields args [] = []
argument_fields args (name ∷ names) =
    field name ++ (field (or_else (lookup name args) []) ++ argument_fields args names)

-- `names.length` and the fields of the arguments, in the order of their names.
unfoldable pub arguments_bytes : Arguments → List ℕ
unfolding argument_fields keys sort uint32
arguments_bytes args =
    let names = sort (keys args) in uint32 (length names) ++ argument_fields args names

unfoldable pub canonical_bytes : Instruction → List ℕ
unfolding field arguments_bytes uint64 encode
canonical_bytes i =
    encode instruction_domain
    ++ (0
        ∷ (field i.operation
            ++ (field i.target_host_id
                ++ (field i.nonce
                    ++ (uint64 i.issued_at
                        ++ (uint64 i.expires_at ++ arguments_bytes i.arguments))))))
