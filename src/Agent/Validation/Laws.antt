-- ===== src/Agent/Validation/Laws.antt =====
-- Which arguments `assert_arguments_match` lets through, in terms of the catalogue's kinds.
use ratline.Prelude.{
  ℕ, ◌≤◌, ◌≡◌, refl, ◌≢◌, ◌↔◌, ◌⊎◌, inl, inr, Bool, true, false, List, [], ◌∷◌, some, length, any,
  All, arith, Option-cases,
}
use ratline.Prelude.Text.{Text, lit, text_eq, text_eq_iff, member}
use ratline.Regex.{Regex}
use ratline.Regex.Laws.{Matches, test_iff}
use ratline.Agent.Utf8.{encode}
use ratline.Agent.Catalogue.Patterns
use ratline.Agent.Catalogue.Patterns.{decimal}
use ratline.Agent.Catalogue.{
  ArgumentKindName, site_slug, service_id, package_name, path_in_site, port, runtime,
  service_action, enabled, unit_file, webserver_config, sudoers_fragment, certificate_pem,
  private_key_pem, ArgumentSpec, Operation, kinds,
}
use ratline.Agent.Envelope.{Arguments, lookup, keys}
use ratline.Agent.Validation.{
  Rejection, Result, ok, err, ◌>>◌, refuse_if, number, over, check_form, check_value, check_names,
  check_specs, assert_arguments_match,
}

abbrev Within : Text → ℕ → Type 0
Within value bytes = length (encode value) ≤ bytes

abbrev Patterned : Regex → ℕ → Text → Type 0
Patterned r bytes value = Within value bytes × Matches r value

abbrev Parsable : ℕ → Text → Type 0
Parsable bytes value = Within value bytes × (value ≢ [])

-- The values of each kind.
abbrev pub Accepted : ArgumentKindName → Text → Type 0
Accepted site_slug value = Patterned Patterns.site_slug 32 value
Accepted service_id value = Patterned Patterns.service_id 50 value
Accepted package_name value = Patterned Patterns.package_name 64 value
Accepted path_in_site value = Patterned Patterns.path_in_site 255 value
Accepted port value = Matches decimal value × (1 ≤ number value) × (number value ≤ 65535)
Accepted runtime value =
    Within value 16
    × (member value (lit "node" ∷ lit "python" ∷ lit "static" ∷ lit "php" ∷ lit "ruby" ∷ []) ≡ true)
Accepted service_action value =
    Within value 16
    × (member value (lit "start" ∷ lit "stop" ∷ lit "restart" ∷ lit "reload" ∷ []) ≡ true)
Accepted enabled value = (value ≡ lit "true") ⊎ (value ≡ lit "false")
Accepted unit_file value = Parsable 16384 value
Accepted webserver_config value = Parsable 65536 value
Accepted sudoers_fragment value = Parsable 4096 value
Accepted certificate_pem value = Parsable 32768 value
Accepted private_key_pem value = Parsable 16384 value

refuse_if_iff : (b : Bool) (e : Rejection) → (refuse_if b e ≡ ok tt) ↔ (b ≡ false)
refuse_if_iff true e = ground arith
refuse_if_iff false e = ground arith

>>-eq-ok : (m k : Result (Unit {0})) → ((m >> k) ≡ ok tt) ↔ ((m ≡ ok tt) × (k ≡ ok tt))
>>-eq-ok (ok tt) k = ((λ h. (refl, h)), λ h. h.1)
>>-eq-ok (err e) k = ((λ h. absurd (cc h)), λ h. absurd (cc h.0))

Within-iff :
    (value : Text) (bytes : ℕ)
    → (over (some bytes) (length (encode value)) ≡ false) ↔ Within value bytes
Within-iff value bytes = ground arith

-- One value against its kind.
check_value_iff :
    (kind : ArgumentKindName) (name value : Text)
    → (check_value name (kinds kind) value ≡ ok tt) ↔ Accepted kind value
unfolding check_value check_form kinds
check_value_iff site_slug name value = ground (arith, test_iff Patterns.site_slug value)
check_value_iff service_id name value = ground (arith, test_iff Patterns.service_id value)
check_value_iff package_name name value = ground (arith, test_iff Patterns.package_name value)
check_value_iff path_in_site name value = ground (arith, test_iff Patterns.path_in_site value)
check_value_iff port name value = ground (arith, test_iff decimal value)
check_value_iff enabled name value =
    ground (arith, text_eq_iff value (lit "true"), text_eq_iff value (lit "false"))
check_value_iff kind name value = ground (arith, text_eq_iff value [])

-- The loop over the keys.
check_names_iff :
    (specs : List ArgumentSpec) (names : List Text)
    → (check_names specs names ≡ ok tt) ↔ All (λ n. any (λ s. text_eq n s.name) specs ≡ true) names
unfolding check_names
check_names_iff specs [] = ground arith
check_names_iff specs (n ∷ names) = ground (arith, check_names_iff specs names)

-- An argument that is given, with an accepted value.
abbrev pub IsGiven : Arguments → ArgumentSpec → Type 0
IsGiven args spec = (value : Text) × (lookup spec.name args ≡ some value) × Accepted spec.kind value

check_specs_sound :
    (specs : List ArgumentSpec) (args : Arguments)
    → check_specs specs args ≡ ok tt
    → All (IsGiven args) specs
unfolding check_specs
check_specs_sound [] args h = tt
check_specs_sound (spec ∷ specs) args h = elim (Option-cases (lookup spec.name args)) [
  | inl e ↦ absurd (cc (rw (e, check_specs) at h))
  | inr (value, e) ↦
      let split = (>>-eq-ok _ _).0 (rw (e, check_specs) at h) in
      (
        (value, e, (check_value_iff spec.kind spec.name value).0 split.0),
        check_specs_sound specs args split.1,
      )
]

check_specs_complete :
    (specs : List ArgumentSpec) (args : Arguments)
    → All (IsGiven args) specs
    → check_specs specs args ≡ ok tt
unfolding check_specs
check_specs_complete [] args h = refl
check_specs_complete (spec ∷ specs) args ((value, e, a), h) =
    rw (e, check_specs)
      (rw ((check_value_iff spec.kind spec.name value).1 a) (check_specs_complete specs args h))

-- A name is declared by the operation.
abbrev pub IsDeclared : Operation → Text → Type 0
IsDeclared op name = any (λ s. text_eq name s.name) op.args ≡ true

-- Every key is declared, and every declared argument is given with a value of its kind.
pub record Conforms (op : Operation) (args : Arguments) : Type 0 where
  pub declared : All (IsDeclared op) (keys args)
  pub given : All (IsGiven args) op.args

-- `assert_arguments_match` lets arguments through exactly when each of their names is one that the
-- operation declares and each declared argument is present with a value that its kind accepts.
pub assert_arguments_match_iff :
    (op : Operation) (args : Arguments)
    → (assert_arguments_match op args ≡ ok tt) ↔ Conforms op args
unfolding assert_arguments_match
assert_arguments_match_iff op args =
    let (sound, complete) = >>-eq-ok (check_names op.args (keys args)) (check_specs op.args args) in
    let names = check_names_iff op.args (keys args) in
    (
      λ h. record {
        declared = names.0 (sound h).0;
        given = check_specs_sound op.args args (sound h).1;
      },
      λ c. complete (names.1 c.declared, check_specs_complete op.args args c.given),
    )
