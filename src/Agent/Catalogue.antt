-- ===== src/Agent/Catalogue.antt =====
-- src/agent/catalogue.ts: the argument kinds, the operations and their lookup by name. A pattern is
-- the expression between its anchors; `why` and `summary`, which only people read, are left out.
pub mod Patterns
use ratline.Prelude.{
  ℕ, Bool, true, false, List, [], ◌∷◌, Option, none, some, if◌then◌else◌, filter, find, is_some,
  String,
}
use ratline.Prelude.Text.{Text, lit, text_eq}
use ratline.Regex.{Regex}

pub data GoType : Type 0 where
  string int64 bool : GoType

pub data Validator : Type 0 where
  systemd_analyze_verify nginx_t visudo_c x509 pkcs8 : Validator

pub record ArgumentKind : Type 0 where
  pub go_type : GoType
  pub pattern : Option Regex
  pub max_bytes : Option ℕ
  pub min : Option ℕ
  pub max : Option ℕ
  pub one_of : Option (List Text)
  pub validator : Option Validator

pub data ArgumentKindName : Type 0 where
  site_slug service_id package_name path_in_site port runtime service_action : ArgumentKindName
  enabled unit_file webserver_config sudoers_fragment certificate_pem : ArgumentKindName
  private_key_pem : ArgumentKindName

abbrev matching : Regex → ℕ → ArgumentKind
matching r bytes = record {
  go_type = string;
  pattern = some r;
  max_bytes = some bytes;
  min = none;
  max = none;
  one_of = none;
  validator = none;
}

abbrev choice : List Text → ℕ → ArgumentKind
choice values bytes = record {
  go_type = string;
  pattern = none;
  max_bytes = some bytes;
  min = none;
  max = none;
  one_of = some values;
  validator = none;
}

abbrev checked_by : Validator → ℕ → ArgumentKind
checked_by v bytes = record {
  go_type = string;
  pattern = none;
  max_bytes = some bytes;
  min = none;
  max = none;
  one_of = none;
  validator = some v;
}

unfoldable pub kinds : ArgumentKindName → ArgumentKind
unfolding Patterns.site_slug Patterns.service_id Patterns.package_name Patterns.path_in_site
kinds ArgumentKindName.site_slug = matching Patterns.site_slug 32
kinds ArgumentKindName.service_id = matching Patterns.service_id 50
kinds ArgumentKindName.package_name = matching Patterns.package_name 64
kinds ArgumentKindName.path_in_site = matching Patterns.path_in_site 255
kinds port = record {
  go_type = int64;
  pattern = none;
  max_bytes = none;
  min = some 1;
  max = some 65535;
  one_of = none;
  validator = none;
}
kinds runtime = choice (lit "node" ∷ lit "python" ∷ lit "static" ∷ lit "php" ∷ lit "ruby" ∷ []) 16
kinds service_action = choice (lit "start" ∷ lit "stop" ∷ lit "restart" ∷ lit "reload" ∷ []) 16
kinds enabled = record {
  go_type = bool;
  pattern = none;
  max_bytes = none;
  min = none;
  max = none;
  one_of = none;
  validator = none;
}
kinds unit_file = checked_by systemd_analyze_verify 16384
kinds webserver_config = checked_by nginx_t 65536
kinds sudoers_fragment = checked_by visudo_c 4096
kinds certificate_pem = checked_by x509 32768
kinds private_key_pem = checked_by pkcs8 16384

-- Every argument is required, so the field `required` is left out.
pub record ArgumentSpec : Type 0 where
  pub name : Text
  pub kind : ArgumentKindName

pub data Performer : Type 0 where
  agent privd : Performer

pub record Operation : Type 0 where
  pub name : Text
  pub performer : Performer
  pub args : List ArgumentSpec
  pub idempotent : Bool

abbrev arg : String → ArgumentKindName → ArgumentSpec
arg name kind = record { name = lit name; kind = kind }

abbrev declare : String → Performer → List ArgumentSpec → Bool → Operation
declare name performer args idempotent = record {
  name = lit name;
  performer = performer;
  args = args;
  idempotent = idempotent;
}

unfoldable pub operations : List Operation
operations =
    declare "host.inventory.collect" agent [] true
    ∷ declare "host.health.report" agent [] true
    ∷ declare "site.user.create" privd (arg "slug" site_slug ∷ []) true
    ∷ declare "site.user.remove" privd (arg "slug" site_slug ∷ []) false
    ∷ declare "site.file.write" agent (arg "slug" site_slug ∷ arg "path" path_in_site ∷ []) true
    ∷ declare "service.unit.install" privd (arg "service" service_id ∷ arg "unit" unit_file ∷ [])
        true
    ∷ declare "service.control" privd (arg "service" service_id ∷ arg "action" service_action ∷ [])
        false
    ∷ declare "service.enable" privd (arg "service" service_id ∷ arg "enabled" enabled ∷ []) true
    ∷ declare "webserver.config.install" privd
        (arg "slug" site_slug ∷ arg "config" webserver_config ∷ []) true
    ∷ declare "webserver.certificate.install" privd
        (arg "slug" site_slug ∷ arg "certificate" certificate_pem ∷ arg "key" private_key_pem ∷ [])
        true
    ∷ declare "package.install" privd (arg "package" package_name ∷ []) true
    ∷ declare "sudoers.fragment.install" privd
        (arg "slug" site_slug ∷ arg "fragment" sudoers_fragment ∷ []) true
    ∷ declare "runtime.provision" privd (arg "runtime" runtime ∷ arg "port" port ∷ []) true
    ∷ []

-- `BY_NAME.get(name) ?? null`. The names of `OPERATIONS` are distinct, so the first entry with a
-- name is the only one.
unfoldable pub operation : Text → Option Operation
unfolding operations text_eq
operation name = find (λ o. text_eq name o.name) operations

pub is_operation_name : Text → Bool
unfolding operation
is_operation_name name = is_some (operation name)

abbrev is_privd : Performer → Bool
is_privd privd = true
is_privd agent = false

pub privileged_operations : List Operation
unfolding operations
privileged_operations = filter (λ o. is_privd o.performer) operations
