-- ===== src/Core/Config.antt =====
-- The runtime configuration and its defaults (crates/falcon-core/src/config.rs).
use falcon_cache.Base.{
  inr, inl, ◌⊎◌, ◌⊎◌, ℕ, ◌*◌, Bool, true, false, not, ◌&&◌, Option, none, List, [], ◌∷◌,
}
use falcon_cache.Base.Text.{Text, text, is_blank}

pub record NodeConfig : Type 0 where
  pub id : Text
  pub region : Text

pub record TlsConfig : Type 0 where
  pub enabled : Bool
  pub cert_file : Text
  pub key_file : Text

-- `TlsConfig::is_enabled`
abbrev pub tls_is_enabled : TlsConfig → Bool
tls_is_enabled c = c.enabled && not (is_blank c.cert_file) && not (is_blank c.key_file)

pub record HttpConfig : Type 0 where
  pub bind : Text

pub record AuthConfig : Type 0 where
  pub api_key : Text

-- `AuthConfig::is_enabled`
abbrev pub auth_is_enabled : AuthConfig → Bool
auth_is_enabled c = not (is_blank c.api_key)

pub record WireConfig : Type 0 where
  pub enabled : Bool
  pub bind : Text
  pub idle_timeout_secs : ℕ
  pub max_connections : ℕ

pub record StorageConfig : Type 0 where
  pub max_value_bytes : ℕ
  pub max_key_bytes : ℕ

pub record KeyspaceConfig : Type 0 where
  pub name : Text
  pub cache_capacity_mb : Option ℕ
  pub evict_sample : ℕ
  pub default_ttl_secs : ℕ

pub record Config : Type 0 where
  pub node : NodeConfig
  pub auth : AuthConfig
  pub tls : TlsConfig
  pub http : HttpConfig
  pub wire : WireConfig
  pub storage : StorageConfig
  pub keyspaces : List KeyspaceConfig

abbrev pub default_node_id : Text
default_node_id = text "node-1"

abbrev pub default_region : Text
default_region = text "local"

abbrev pub default_http_bind : Text
default_http_bind = text "0.0.0.0:8080"

abbrev pub default_wire_bind : Text
default_wire_bind = text "0.0.0.0:6380"

abbrev default_node_config : NodeConfig
default_node_config = record { id = default_node_id; region = default_region }

abbrev default_tls_config : TlsConfig
default_tls_config = record { enabled = false; cert_file = []; key_file = [] }

abbrev default_http_config : HttpConfig
default_http_config = record { bind = default_http_bind }

abbrev default_auth_config : AuthConfig
default_auth_config = record { api_key = [] }

abbrev default_wire_config : WireConfig
default_wire_config = record {
  enabled = true;
  bind = default_wire_bind;
  idle_timeout_secs = 300;
  max_connections = 4096;
}

abbrev default_storage_config : StorageConfig
default_storage_config = record { max_value_bytes = 64 * 1024 * 1024; max_key_bytes = 64 * 1024 }

-- `KeyspaceConfig::default_keyspace`
abbrev pub cache_keyspace : KeyspaceConfig
cache_keyspace = record {
  name = text "cache";
  cache_capacity_mb = none;
  evict_sample = 8;
  default_ttl_secs = 0;
}

abbrev default_keyspaces : List KeyspaceConfig
default_keyspaces = cache_keyspace ∷ []

-- `Config::default`
abbrev pub default_config : Config
default_config = record {
  node = default_node_config;
  auth = default_auth_config;
  tls = default_tls_config;
  http = default_http_config;
  wire = default_wire_config;
  storage = default_storage_config;
  keyspaces = default_keyspaces;
}

pub data ConfigError (ParseError SystemError : Type 0) : Type 0 where
  parse : ParseError → ConfigError ParseError SystemError
  io : SystemError → ConfigError ParseError SystemError

-- `toml` is that library's parser, and `read_to_string` the standard library's.
module _ {ParseError SystemError : Type 0} (toml : Text → ParseError ⊎ Config)
    (read_to_string : Text → SystemError ⊎ Text) where
  unfoldable pub from_toml_str : Text → ConfigError ParseError SystemError ⊎ Config
  from_toml_str s = elim (toml s) [ inl e ↦ inl (parse e) | inr c ↦ inr c ]

  unfoldable pub from_file : Text → ConfigError ParseError SystemError ⊎ Config
  unfolding from_toml_str
  from_file path = elim (read_to_string path) [ inl e ↦ inl (io e) | inr s ↦ from_toml_str s ]
