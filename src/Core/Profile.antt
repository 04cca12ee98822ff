-- ===== src/Core/Profile.antt =====
-- The profile, the only place a node's settings are kept (crates/falcon-core/src/profile.rs).
pub mod Setting
pub mod Editing
pub mod File
pub mod Path
mod Tests
use falcon_cache.Base.{
  ℕ, Bool, true, false, not, ◌&&◌, Option, none, some, List, [], ◌∷◌, map, if◌then◌else◌,
}
use falcon_cache.Base.Equality.{bytes_eq}
use falcon_cache.Base.Text.{Text, text, is_any, trim, to_ascii_lowercase, parse_u64, show_u64}
use falcon_cache.Core.Config.{
  Config, default_config, default_node_id, default_region, default_http_bind, default_wire_bind,
  cache_keyspace,
}

pub record ProfileNode : Type 0 where
  pub id : Text
  pub region : Text
  pub http_bind : Text
  pub wire_bind : Text
  pub wire_enabled : Bool
  pub api_key : Text
  pub log_level : Text
  pub capacity_mb : Option ℕ
  pub default_ttl_secs : ℕ
  pub tls_enabled : Bool
  pub tls_cert : Text
  pub tls_key : Text

abbrev default_log_level : Text
default_log_level = text "info"

abbrev default_profile_node : ProfileNode
default_profile_node = record {
  id = default_node_id;
  region = default_region;
  http_bind = default_http_bind;
  wire_bind = default_wire_bind;
  wire_enabled = false;
  api_key = [];
  log_level = default_log_level;
  capacity_mb = none;
  default_ttl_secs = 0;
  tls_enabled = false;
  tls_cert = [];
  tls_key = [];
}

pub record Profile : Type 0 where
  pub node : ProfileNode

abbrev pub default_profile : Profile
default_profile = record { node = default_profile_node }

-- What a library or the system reports is not looked into: it is a text.
pub data ProfileError : Type 0 where
  not_found parse_error serialize_error io_error : Text → ProfileError
  unknown_key : Text → ProfileError
  invalid_value : Text → Text → ProfileError

pub data Outcome {ℓ} (A : Type ℓ) : Type ℓ where
  ok : A → Outcome A
  err : ProfileError → Outcome A

unfoldable pub parse_bool : Text → Option Bool
unfolding trim to_ascii_lowercase
parse_bool s =
    let word = to_ascii_lowercase (trim s) in
    if is_any (text "true" ∷ text "1" ∷ text "yes" ∷ text "on" ∷ []) word
    then some true
    else if is_any (text "false" ∷ text "0" ∷ text "no" ∷ text "off" ∷ []) word
    then some false
    else none

-- The value of `parse().map_err(|_| bad(reason))?`, passed on to the assignment.
abbrev pub checked {ℓ} : {A : Type ℓ} → Text → Text → Option A → (A → Profile) → Outcome Profile
checked key reason none assign = err (invalid_value key reason)
checked key reason (some a) assign = ok (assign a)

abbrev pub yes_no : Text
yes_no = text "expected true/false"

abbrev pub megabytes : Text
megabytes = text "expected a whole number of megabytes, or 'auto'"

abbrev pub seconds : Text
seconds = text "expected a whole number of seconds (0 = no expiry)"

-- What `capacity-mb` is set to; `some none` hands sizing back to detection.
unfoldable pub parse_capacity : Text → Option (Option ℕ)
unfolding trim to_ascii_lowercase parse_u64
parse_capacity value =
    if bytes_eq (to_ascii_lowercase (trim value)) (text "auto")
    then some none
    else elim (parse_u64 (trim value)) [ none ↦ none | some mb ↦ some (some mb) ]

unfoldable pub parse_ttl : Text → Option ℕ
unfolding trim parse_u64
parse_ttl value = parse_u64 (trim value)

unfoldable pub set : Text → Text → Profile → Outcome Profile
unfolding parse_bool parse_capacity parse_ttl
set key value p =
    if is_any (text "node.id" ∷ text "id" ∷ []) key
    then ok (record p { node = record (p.node) { id = value } })
    else if is_any (text "node.region" ∷ text "region" ∷ []) key
    then ok (record p { node = record (p.node) { region = value } })
    else if is_any (text "http-bind" ∷ text "http_bind" ∷ text "node.http_bind" ∷ []) key
    then ok (record p { node = record (p.node) { http_bind = value } })
    else if is_any (text "wire-bind" ∷ text "wire_bind" ∷ text "node.wire_bind" ∷ []) key
    then ok (record p { node = record (p.node) { wire_bind = value } })
    else if is_any (text "wire-enabled" ∷ text "wire_enabled" ∷ []) key
    then checked key yes_no (parse_bool value)
        (λ b. record p { node = record (p.node) { wire_enabled = b } })
    else if is_any (text "api-key" ∷ text "api_key" ∷ text "auth.api_key" ∷ []) key
    then ok (record p { node = record (p.node) { api_key = value } })
    else if is_any (text "log-level" ∷ text "log_level" ∷ []) key
    then ok (record p { node = record (p.node) { log_level = value } })
    else if is_any (text "capacity-mb" ∷ text "capacity_mb" ∷ []) key
    then checked key megabytes (parse_capacity value)
        (λ mb. record p { node = record (p.node) { capacity_mb = mb } })
    else if is_any (text "default-ttl" ∷ text "default_ttl_secs" ∷ text "default-ttl-secs" ∷ []) key
    then checked key seconds (parse_ttl value)
        (λ ttl. record p { node = record (p.node) { default_ttl_secs = ttl } })
    else if is_any (text "tls-enabled" ∷ text "tls_enabled" ∷ []) key
    then checked key yes_no (parse_bool value)
        (λ b. record p { node = record (p.node) { tls_enabled = b } })
    else if is_any (text "tls-cert" ∷ text "tls_cert" ∷ []) key
    then ok (record p { node = record (p.node) { tls_cert = value } })
    else if is_any (text "tls-key" ∷ text "tls_key" ∷ []) key
    then ok (record p { node = record (p.node) { tls_key = value } })
    else err (unknown_key key)

abbrev pub show_bool : Bool → Text
show_bool b = if b then text "true" else text "false"

abbrev pub show_capacity : Option ℕ → Text
show_capacity none = text "auto"
show_capacity (some mb) = show_u64 mb

unfoldable pub get : Text → Profile → Option Text
unfolding show_u64
get key p =
    if is_any (text "node.id" ∷ text "id" ∷ []) key
    then some p.node.id
    else if is_any (text "node.region" ∷ text "region" ∷ []) key
    then some p.node.region
    else if is_any (text "http-bind" ∷ text "http_bind" ∷ text "node.http_bind" ∷ []) key
    then some p.node.http_bind
    else if is_any (text "wire-bind" ∷ text "wire_bind" ∷ text "node.wire_bind" ∷ []) key
    then some p.node.wire_bind
    else if is_any (text "wire-enabled" ∷ text "wire_enabled" ∷ []) key
    then some (show_bool p.node.wire_enabled)
    else if is_any (text "api-key" ∷ text "api_key" ∷ text "auth.api_key" ∷ []) key
    then some p.node.api_key
    else if is_any (text "log-level" ∷ text "log_level" ∷ []) key
    then some p.node.log_level
    else if is_any (text "capacity-mb" ∷ text "capacity_mb" ∷ []) key
    then some (show_capacity p.node.capacity_mb)
    else if is_any (text "default-ttl" ∷ text "default_ttl_secs" ∷ text "default-ttl-secs" ∷ []) key
    then some (show_u64 p.node.default_ttl_secs)
    else if is_any (text "tls-enabled" ∷ text "tls_enabled" ∷ []) key
    then some (show_bool p.node.tls_enabled)
    else if is_any (text "tls-cert" ∷ text "tls_cert" ∷ []) key
    then some p.node.tls_cert
    else if is_any (text "tls-key" ∷ text "tls_key" ∷ []) key
    then some p.node.tls_key
    else none

-- The keys that `entries` lists.
abbrev listed_keys : List Text
listed_keys =
    text "node.id"
    ∷ text "node.region"
    ∷ text "http-bind"
    ∷ text "wire-bind"
    ∷ text "wire-enabled"
    ∷ text "api-key"
    ∷ text "log-level"
    ∷ text "capacity-mb"
    ∷ text "default-ttl"
    ∷ text "tls-enabled"
    ∷ text "tls-cert"
    ∷ text "tls-key"
    ∷ []

abbrev or_blank : Option Text → Text
or_blank none = []
or_blank (some t) = t

unfoldable pub entries : Profile → List (Text × Text)
unfolding get
entries p = map (λ k. (k, or_blank (get k p))) listed_keys

unfoldable pub to_config : Profile → Config
to_config p = record default_config {
  node = record { id = p.node.id; region = p.node.region };
  auth = record { api_key = p.node.api_key };
  tls = record {
    enabled = p.node.tls_enabled;
    cert_file = p.node.tls_cert;
    key_file = p.node.tls_key;
  };
  http = record { bind = p.node.http_bind };
  wire = record (default_config.wire) { enabled = p.node.wire_enabled; bind = p.node.wire_bind };
  keyspaces =
      record cache_keyspace {
        cache_capacity_mb = p.node.capacity_mb;
        default_ttl_secs = p.node.default_ttl_secs;
      }
      ∷ [];
}
