-- ===== src/Agent/Validation.antt =====
-- `assertArgumentsMatch` of src/agent/envelope.ts. A thrown `InstructionRejected` is the error of a
-- result, and its text is left out. `Number` of a decimal text is taken exactly: above 2 ^ 53 the
-- double is rounded, which changes no comparison with the bounds of the catalogue.
pub mod Laws
pub mod Paths
use ratline.Prelude.{
  ℕ, ◌+◌, ◌-◌, ◌*◌, Bool, true, false, not, ◌||◌, List, [], ◌∷◌, Option, none, some, length, ltb,
  any, all, if◌then◌else◌, ◌==◌, ◌≡◌, refl, ap,
}
use ratline.Prelude.Text.{Text, lit, text_eq, member}
use ratline.Regex.{test}
use ratline.Agent.Utf8.{encode}
use ratline.Agent.Catalogue.Patterns.{decimal}
use ratline.Agent.Catalogue.{
  ArgumentKind, ArgumentSpec, Operation, GoType, string, int64, bool, kinds,
}
use ratline.Agent.Envelope.{Arguments, lookup, keys}

pub data Rejection : Type 0 where
  unknown_operation bad_validity : Rejection
  unexpected missing too_long not_one_of bad_form not_decimal : Text → Rejection
  below_min above_max not_bool empty unconstrained : Text → Rejection

-- A call that may throw.
pub data Result (A : Type 0) : Type 0 where
  err : Rejection → Result A
  ok : A → Result A

infixl 5 ◌>>=◌ ◌>>◌
abbrev pub ◌>>=◌ : {A B : Type 0} → Result A → (A → Result B) → Result B
err rejected >>= next = err rejected
ok value >>= next = next value

abbrev pub ◌>>◌ : {A B : Type 0} → Result A → Result B → Result B
first >> second = first >>= (λ _. second)

-- A call that goes on to succeed has itself succeeded.
pub >>=-eq-ok :
    {A B : Type 0} (first : Result A) (next : A → Result B) {result : B}
    → ((first >>= next) ≡ ok result)
    → (value : A) × (first ≡ ok value) × (next value ≡ ok result)
>>=-eq-ok (err rejected) next succeeded = cc
>>=-eq-ok (ok value) next succeeded = (value, refl, succeeded)

pub >>=-of_ok :
    {A B : Type 0} {first : Result A} {value : A} (next : A → Result B)
    → first ≡ ok value
    → (first >>= next) ≡ next value
>>=-of_ok next succeeded = ap (λ call. call >>= next) succeeded

-- `if (failed) throw …`
abbrev pub refuse_if : Bool → Rejection → Result (Unit {0})
refuse_if true e = err e
refuse_if false e = ok tt

-- The number that a text of decimal digits stands for.
parse_from : ℕ → Text → ℕ
parse_from n [] = n
parse_from n (c ∷ s) = parse_from (10 * n + (c - b'0')) s

unfoldable pub number : Text → ℕ
unfolding parse_from
number s = parse_from 0 s

-- `bound !== undefined && n < bound`, and the same above
abbrev pub under : Option ℕ → ℕ → Bool
under none n = false
under (some lo) n = ltb n lo

abbrev pub over : Option ℕ → ℕ → Bool
over none n = false
over (some hi) n = ltb hi n

abbrev check_int : Text → ArgumentKind → Text → Result (Unit {0})
check_int name kind value = do
  refuse_if (not (test decimal value)) (not_decimal name)
  refuse_if (under kind.min (number value)) (below_min name)
  refuse_if (over kind.max (number value)) (above_max name)

abbrev check_bool : Text → Text → Result (Unit {0})
check_bool name value =
    refuse_if (not (text_eq value (lit "true") || text_eq value (lit "false"))) (not_bool name)

abbrev check_validator {ℓ} : {V : Type ℓ} → Text → Option V → Text → Result (Unit {0})
check_validator name none value = err (unconstrained name)
check_validator name (some v) value = refuse_if (text_eq value []) (empty name)

abbrev check_type : Text → ArgumentKind → GoType → Text → Result (Unit {0})
check_type name kind int64 value = check_int name kind value
check_type name kind bool value = check_bool name value
check_type name kind string value = check_validator name kind.validator value

-- The chain of `if`s from `oneOf` down, each of which ends the round of the loop.
unfoldable pub check_form : Text → ArgumentKind → Text → Result (Unit {0})
check_form name kind value = elim kind.one_of [
  | some values ↦ refuse_if (not (member value values)) (not_one_of name)
  | none ↦ elim kind.pattern [
    | some r ↦ refuse_if (not (test r value)) (bad_form name)
    | none ↦ check_type name kind kind.go_type value
  ]
]

unfoldable pub check_value : Text → ArgumentKind → Text → Result (Unit {0})
unfolding check_form
check_value name kind value = do
  refuse_if (over kind.max_bytes (length (encode value))) (too_long name)
  check_form name kind value

-- The first loop: a name that the operation does not declare.
unfoldable pub check_names : List ArgumentSpec → List Text → Result (Unit {0})
check_names specs [] = ok tt
check_names specs (name ∷ names) = do
  refuse_if (not (any (λ s. text_eq name s.name) specs)) (unexpected name)
  check_names specs names

-- The second loop: every declared argument, in order.
unfoldable pub check_specs : List ArgumentSpec → Arguments → Result (Unit {0})
check_specs [] args = ok tt
check_specs (spec ∷ specs) args = do
  elim (lookup spec.name args) [
    | none ↦ err (missing spec.name)
    | some value ↦ check_value spec.name (kinds spec.kind) value
  ]
  check_specs specs args

unfoldable pub assert_arguments_match : Operation → Arguments → Result (Unit {0})
unfolding check_names check_specs
assert_arguments_match declared args = do
  check_names declared.args (keys args)
  check_specs declared.args args
