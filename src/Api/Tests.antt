-- ===== src/Api/Tests.antt =====
-- Runs of the REST interface at fixed inputs. The stand-ins for the libraries read every header as
-- it is and reject every body and query.
use falcon_cache.Base.{
  ℕ, ◌≡◌, refl, Bool, true, false, Option, none, some, List, [], ◌∷◌, arith, ◌⊎◌, inl, get_elem?,
}
use falcon_cache.Base.Equality.{byte_string_eq}
use falcon_cache.Base.Text.{text}
use falcon_cache.Storage.Table.{put, get as lookup_table}
use falcon_cache.Storage.Shard.{Bytes, Shard}
use falcon_cache.Storage.Engine.{shard_of}
use falcon_cache.Storage.Engine.Operations.{HasRoom}
use falcon_cache.Storage.Engine.Tests.{small, small-IsRunning, first_byte}
use falcon_cache.Core.Keyspace.{Keyspace, new_keyspace, expiry}
use falcon_cache.Core.Auth.Laws.{escape_all}
use falcon_cache.Api.Base64.{base64_encode}
use falcon_cache.Api.Rest.{
  ApiNode, HttpResponse, KvWrite, Keyspaces, ValueResponse, cache_write, cache_read, succeeded,
  ok_body, value_body, no_body, rest_keyspace,
}
use falcon_cache.Api.Roundtrip.{client_value, cache_write-cache_read}
use falcon_cache.Wire.Protocol.{Request, Response}
use falcon_cache.Wire.Conn.{ServedNode, dispatch, rejects}
use falcon_cache.Api.Shared.{dispatch-cache_read}
use falcon_cache.Api.Router.{HttpRequest, Method, admits, app}
use falcon_cache.Api.Guard.{Guarded, app-Guarded, admits-escape_all}

-- Vectors of RFC 4648.
base64_foob : base64_encode (text "foob") ≡ text "Zm9vYg=="
unfolding base64_encode
base64_foob = refl

base64_high : base64_encode (255 ∷ 254 ∷ 253 ∷ []) ≡ text "//79"
unfolding base64_encode
base64_high = refl

abbrev never : Bytes → Bool
never bytes = false

abbrev sixty : Keyspace
sixty = new_keyspace small 60

abbrev one_keyspace : Keyspaces
one_keyspace = (rest_keyspace, sixty) ∷ []

abbrev body : KvWrite
body = record { key = 3 ∷ []; value = 30 ∷ []; ttl = some 5 }

abbrev params : List (Bytes × Bytes)
params = (text "key", 3 ∷ []) ∷ []

sixty-HasRoom :
    (s : Shard)
    → get_elem? small.shards (shard_of first_byte (3 ∷ []) small.shard_mask) ≡ some s
    → HasRoom (3 ∷ []) (30 ∷ []) (expiry 100 5000) 5 s
unfolding shard_of put lookup_table expiry
sixty-HasRoom s found = ground arith

cache_write-cache_read_example :
    (after final : Keyspaces) × (r : ValueResponse) × (cache_write first_byte never
        (100, 101)
        body
        one_keyspace
      ≡ some (after, succeeded ok_body))
    × (cache_read first_byte never 5099 params after ≡ some (final, succeeded (value_body r)))
    × (client_value r ≡ some (30 ∷ []))
unfolding lookup_table
cache_write-cache_read_example =
    cache_write-cache_read first_byte never 1000 body params 100 101 5099 one_keyspace sixty refl
      refl (omega arith, tt) small-IsRunning sixty-HasRoom (omega arith) (omega arith) (omega arith)
      (omega arith) refl refl

abbrev guarded : ApiNode
guarded = record {
  api_key = text "s+t";
  node_id = text "n";
  region = text "r";
  wire_enabled = false;
  tls_enabled = false;
  max_value_bytes = 0;
  ready = true;
  keyspaces = one_keyspace;
}

abbrev bad_request : HttpResponse
bad_request = record { status = 400; body = no_body }

abbrev header_str : Bytes → Option Bytes
header_str t = some t

abbrev same : Bytes → Bytes
same t = t

abbrev no_json : Option ℕ → HttpRequest → HttpResponse ⊎ KvWrite
no_json limit req = inl bad_request

abbrev no_query : HttpRequest → HttpResponse ⊎ List (Bytes × Bytes)
no_query req = inl bad_request

abbrev rejected : HttpRequest → HttpResponse
rejected req = bad_request

abbrev wrong : HttpRequest
wrong = record {
  method = Method.fetch;
  path = text "/cache";
  query = none;
  authorization = some (text "Bearer s");
  body = [];
}

app-Guarded_example :
    Guarded first_byte never header_str same no_json no_query rejected
      (0, 0)
      wrong
      guarded
      (app first_byte never header_str same no_json no_query rejected (0, 0) wrong guarded)
app-Guarded_example =
    app-Guarded first_byte never header_str same no_json no_query rejected (0, 0) wrong guarded refl

abbrev browser : HttpRequest
browser = record {
  method = Method.fetch;
  path = text "/cache";
  query = some (text "api_key=%73%2B%74&key=a");
  authorization = none;
  body = [];
}

admits-escape_all_example : admits header_str same (text "s+t") browser ≡ true
unfolding escape_all
admits-escape_all_example =
    admits-escape_all header_str same (text "s+t") (some (text "key=a")) browser
      (omega arith, (omega arith, (omega arith, tt))) refl refl refl

abbrev wire_node : ServedNode
wire_node = record {
  keyspaces = one_keyspace;
  limits = record { max_value = 0; max_key = 8 };
  api_key = [];
}

abbrev wire_set : Request
wire_set = record { op = 2; flags = 0; keyspace = []; key = 3 ∷ []; value = 30 ∷ [] }

sixty-HasRoom_default :
    (s : Shard)
    → get_elem? small.shards (shard_of first_byte (3 ∷ []) small.shard_mask) ≡ some s
    → HasRoom (3 ∷ []) (30 ∷ []) (expiry 100 60000) 5 s
unfolding shard_of put lookup_table expiry
sixty-HasRoom_default s found = ground arith

dispatch-cache_read_example :
    (after : ServedNode) × (final : Keyspaces) × (r : ValueResponse) × (dispatch first_byte never
        (100, 101)
        wire_set
        wire_node
      ≡ some (after, Response.ok))
    × (cache_read first_byte never 60099 params after.keyspaces
        ≡ some (final, succeeded (value_body r)))
    × (client_value r ≡ some (30 ∷ []))
unfolding lookup_table rejects
dispatch-cache_read_example =
    dispatch-cache_read first_byte never 1000 wire_set params 100 101 60099 wire_node sixty refl
      refl refl refl refl (omega arith, tt) small-IsRunning sixty-HasRoom_default (omega arith)
      (omega arith) (omega arith) (omega arith) refl refl
