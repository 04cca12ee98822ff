-- ===== src/Api/Rest.antt =====
-- The handlers of the cache and of the probes (crates/falcon-api/src/rest). A string is its bytes
-- here. `hash` is the engine's hasher and `is_utf8` the standard library's test; a write is given
-- two readings of the clock, a read one. `none` stands for a panic.
use falcon_cache.Base.{
  inr, inl, ℕ, ◌≡◌, refl, Bool, true, false, not, Option, none, some, List, ◌++◌, map,
  if◌then◌else◌,
}
use falcon_cache.Base.Equality.{byte_string_eq}
use falcon_cache.Base.Text.{text, is_blank}
use falcon_cache.Storage.Table.{get as find, put as replace}
use falcon_cache.Storage.Shard.{Bytes}
use falcon_cache.Storage.Engine.{CacheStats, tracked_ttl_keys}
use falcon_cache.Core.Node.{NodeError, require_keyspace}
use falcon_cache.Core.Keyspace.{Keyspace, get, put_with_ttl, delete_key, keyspace_stats}
use falcon_cache.Api.Base64.{base64_encode}

abbrev pub Keyspaces : Type 0
Keyspaces = List (Bytes × Keyspace)

-- `CACHE_KEYSPACE`
abbrev pub rest_keyspace : Bytes
rest_keyspace = text "cache"

pub data ApiError : Type 0 where
  not_found : ApiError
  unknown_keyspace : Bytes → ApiError
  bad_request : Bytes → ApiError

-- `into_response`: the status and the text at "error".
abbrev error_response : ApiError → ℕ × Bytes
error_response ApiError.not_found = (404, text "key not found")
error_response (ApiError.unknown_keyspace name) =
    (404, text "unknown keyspace '" ++ name ++ text "'")
error_response (ApiError.bad_request msg) = (400, msg)

pub record KvWrite : Type 0 where
  pub key : Bytes
  pub value : Bytes
  pub ttl : Option ℕ

-- The value that a read answers; `base64` is whether "encoding" says so.
pub record ValueResponse : Type 0 where
  pub value : Bytes
  pub base64 : Bool

pub record CacheHealth : Type 0 where
  pub hits : ℕ
  pub misses : ℕ
  pub keys : ℕ
  pub bytes : ℕ
  pub evictions : ℕ
  pub expired : ℕ

pub record KeyspaceHealth : Type 0 where
  pub name : Bytes
  pub ttl_tracked_keys : ℕ
  pub cache : CacheHealth

pub record FeatureSet : Type 0 where
  pub auth : Bool
  pub wire_protocol : Bool
  pub tls : Bool

pub record HealthResponse : Type 0 where
  pub status : Bytes
  pub product : Bytes
  pub node_id : Bytes
  pub region : Bytes
  pub features : FeatureSet
  pub keyspaces : List KeyspaceHealth

pub data Body : Type 0 where
  ok_body : Body
  value_body : ValueResponse → Body
  health_body : HealthResponse → Body
  text_body : Bytes → Body
  error_body : Bytes → Body
  no_body : Body

pub record HttpResponse : Type 0 where
  pub status : ℕ
  pub body : Body

abbrev pub succeeded : Body → HttpResponse
succeeded body = record { status = 200; body = body }

abbrev pub rejected : ApiError → HttpResponse
rejected e = record { status = (error_response e).0; body = error_body ((error_response e).1) }

-- `From<NodeError>`
abbrev from_node_error : NodeError → ApiError
from_node_error (NodeError.unknown_keyspace name) = ApiError.unknown_keyspace name

-- What the interface reads of the node.
pub record ApiNode : Type 0 where
  pub api_key : Bytes
  pub node_id : Bytes
  pub region : Bytes
  pub wire_enabled : Bool
  pub tls_enabled : Bool
  pub max_value_bytes : ℕ
  pub ready : Bool
  pub keyspaces : Keyspaces

-- `require_keyspace(CACHE_KEYSPACE)?`, and what is done with the keyspace.
unfoldable pub on_cache :
    (Keyspace → Option (Keyspace × HttpResponse)) → Keyspaces → Option (Keyspaces × HttpResponse)
on_cache serve held = elim (require_keyspace rest_keyspace held) [
  | inl e ↦ some (held, rejected (from_node_error e))
  | inr ks ↦ elim (serve ks) [
    | none ↦ none
    | some (after, r) ↦ some (replace rest_keyspace after held, r)
  ]
]

-- `params.get("key").filter(|k| !k.is_empty())`
abbrev filled : Option Bytes → Option Bytes
filled none = none
filled (some k) = if is_blank k then none else some k

abbrev pub key_param : List (Bytes × Bytes) → Option Bytes
key_param params = filled (find (text "key") params)

-- `key_param(&params)?`, and what is done with the key.
unfoldable pub with_key :
    List (Bytes × Bytes)
    → (Bytes → Keyspaces → Option (Keyspaces × HttpResponse))
    → Keyspaces
    → Option (Keyspaces × HttpResponse)
with_key params serve held = elim (key_param params) [
  | none ↦ some (held, rejected (ApiError.bad_request (text "missing ?key=")))
  | some key ↦ serve key held
]

pub on_cache-some :
    (serve : Keyspace → Option (Keyspace × HttpResponse)) (held : Keyspaces) (ks after : Keyspace)
    (r : HttpResponse)
    → find rest_keyspace held ≡ some ks
    → serve ks ≡ some (after, r)
    → on_cache serve held ≡ some (replace rest_keyspace after held, r)
unfolding on_cache
on_cache-some serve held ks after r at ran = rw (on_cache, at, ran) refl

pub with_key-some :
    (params : List (Bytes × Bytes)) (key : Bytes)
    (serve : Bytes → Keyspaces → Option (Keyspaces × HttpResponse)) (held : Keyspaces)
    → key_param params ≡ some key
    → with_key params serve held ≡ serve key held
unfolding with_key
with_key-some params key serve held named = rw (with_key, named) refl

module _ (hash : Bytes → ℕ) (is_utf8 : Bytes → Bool) where
  -- `ValueResponse::new`
  abbrev pub new_value_response : Bytes → ValueResponse
  new_value_response value =
      if is_utf8 value
      then record { value = value; base64 = false }
      else record { value = base64_encode value; base64 = true }

  abbrev write_answer : Option Keyspace → Option (Keyspace × HttpResponse)
  write_answer none = none
  write_answer (some after) = some (after, succeeded ok_body)

  unfoldable pub cache_write : ℕ × ℕ → KvWrite → Keyspaces → Option (Keyspaces × HttpResponse)
  unfolding on_cache
  cache_write (now, evicting) body held =
      on_cache (λ ks. write_answer (put_with_ttl hash body.key body.value body.ttl now evicting ks))
        held

  abbrev value_or_404 : Option Bytes → HttpResponse
  value_or_404 none = rejected ApiError.not_found
  value_or_404 (some v) = succeeded (value_body (new_value_response v))

  abbrev pub read_answer : Option (Keyspace × Option Bytes) → Option (Keyspace × HttpResponse)
  read_answer none = none
  read_answer (some (after, v)) = some (after, value_or_404 v)

  unfoldable pub cache_read :
      ℕ → List (Bytes × Bytes) → Keyspaces → Option (Keyspaces × HttpResponse)
  unfolding on_cache with_key
  cache_read now params held =
      with_key params (λ key. on_cache (λ ks. read_answer (get hash key now ks))) held

  abbrev delete_answer : Option (Keyspace × Bool) → Option (Keyspace × HttpResponse)
  delete_answer none = none
  delete_answer (some (after, held)) = some (after, succeeded ok_body)

  unfoldable pub cache_delete : List (Bytes × Bytes) → Keyspaces → Option (Keyspaces × HttpResponse)
  unfolding on_cache with_key
  cache_delete params held =
      with_key params (λ key. on_cache (λ ks. delete_answer (delete_key hash key ks))) held

unfoldable pub readyz : ApiNode → HttpResponse
readyz node =
    if node.ready
    then succeeded (text_body (text "ready"))
    else record { status = 503; body = text_body (text "not ready") }

abbrev health_of : CacheStats → CacheHealth
health_of s = record {
  hits = s.hits;
  misses = s.misses;
  keys = s.keys;
  bytes = s.bytes;
  evictions = s.evictions;
  expired = s.expired;
}

abbrev keyspace_health : Bytes × Keyspace → KeyspaceHealth
keyspace_health (name, ks) = record {
  name = name;
  ttl_tracked_keys = tracked_ttl_keys ks.engine;
  cache = health_of (keyspace_stats ks);
}

-- `healthz`, without the hit rate, which is a floating-point quotient of two of its counters.
unfoldable pub healthz : ApiNode → HttpResponse
healthz node = succeeded (
    health_body (record {
      status = text "ok";
      product = text "Falcon Cache";
      node_id = node.node_id;
      region = node.region;
      features = record {
        auth = not (is_blank node.api_key);
        wire_protocol = node.wire_enabled;
        tls = node.tls_enabled;
      };
      keyspaces = map keyspace_health node.keyspaces;
    }))
