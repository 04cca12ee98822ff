-- ===== src/Cli/Session/Tests.antt =====
-- A client that puts a key and gets it back. The stand-ins for the libraries cut every URL at the
-- address and at "?", and write and read every body.
use falcon_cache.Base.{
  if◌then◌else◌, zero, suc, ap, take, drop, length, ◌==◌, All, inl, ◌==◌, ap, ◌==◌, take, suc, inl,
  All, length, drop, false, ℕ, true, Bool, Option, none, some, List, [], ◌∷◌, ◌++◌, ◌⊎◌, inr,
}
use falcon_cache.Base.Equality.{byte_string_eq}
use falcon_cache.Base.Text.{Text, text}
use falcon_cache.Storage.Table.{get as lookup_table}
use falcon_cache.Storage.Shard.{Bytes, Shard}
use falcon_cache.Storage.Engine.Tests.{small}
use falcon_cache.Core.Keyspace.{new_keyspace}
use falcon_cache.Api.Rest.{ApiNode, HttpResponse, KvWrite, rest_keyspace, no_body, value_body, Body}
use falcon_cache.Api.Router.{HttpRequest}
use falcon_cache.Cli.Client.{Target, Sent, PutArgs, PutBody}
use falcon_cache.Cli.Delivery.{method_of}
use falcon_cache.Base.Text.{strip_prefix}

abbrev target : Target
target = record { addr = text "http://127.0.0.1:8080"; api_key = some (text "s+t") }

abbrev node : ApiNode
node = record {
  api_key = text "s+t";
  node_id = text "n";
  region = text "r";
  wire_enabled = false;
  tls_enabled = false;
  max_value_bytes = 0;
  ready = true;
  keyspaces = (rest_keyspace, new_keyspace small 60) ∷ [];
}

abbrev given : PutArgs
given = record {
  key = 97 ∷ [];
  value = some (30 ∷ []);
  ttl = some 5;
  client = record { addr = none; api_key = none };
}

abbrev bearer_header : Option Text → Option Bytes
bearer_header none = none
bearer_header (some k) = some (text "Bearer " ++ k)

-- What stands before and after the first "?", which is 63.
cut : Text → Text × Option Text
cut [] = ([], none)
cut (c ∷ cs) = let rest = cut cs in if c == 63 then ([], some cs) else (c ∷ rest.0, rest.1)

abbrev after_addr : Option Text → Text × Option Text
after_addr none = ([], none)
after_addr (some rest) = cut rest

-- A body as its lengths and fields.
abbrev ttl_code : Option ℕ → ℕ
ttl_code none = 0
ttl_code (some n) = suc n

abbrev as_bytes : Option PutBody → Bytes
as_bytes none = []
as_bytes (some b) = ttl_code b.ttl ∷ (length b.key ∷ (b.key ++ b.value))

abbrev deliver : Sent PutBody → HttpRequest
deliver s =
    let (path, query) = after_addr (strip_prefix target.addr s.url) in
    record {
      method = method_of s.method;
      path = path;
      query = query;
      authorization = bearer_header s.bearer;
      body = as_bytes s.body;
    }

abbrev ttl_of : ℕ → Option ℕ
ttl_of zero = none
ttl_of (suc n) = some n

abbrev lost : HttpRequest → HttpResponse
lost req = record { status = 404; body = no_body }

abbrev read_body : Bytes → HttpResponse ⊎ KvWrite
read_body (c ∷ n ∷ rest) = inr (record { key = take n rest; value = drop n rest; ttl = ttl_of c })
read_body _ = inl (record { status = 400; body = no_body })

abbrev to_json : Option ℕ → HttpRequest → HttpResponse ⊎ KvWrite
to_json limit req = read_body req.body

abbrev key_of : Option Text → HttpResponse ⊎ List (Bytes × Bytes)
key_of none = inl (record { status = 400; body = no_body })
key_of (some value) = inr ((text "key", value) ∷ [])

abbrev query_of : Option Bytes → HttpResponse ⊎ List (Bytes × Bytes)
query_of none = inl (record { status = 400; body = no_body })
query_of (some query) = key_of (strip_prefix (text "key=") query)

abbrev to_query : HttpRequest → HttpResponse ⊎ List (Bytes × Bytes)
to_query req = query_of req.query

abbrev any_text : Bytes → Bool
any_text bytes = true

abbrev header_str : Bytes → Option Bytes
header_str t = some t

abbrev same : Bytes → Bytes
same t = t

abbrev text_of : Body → Option (Option Text)
text_of (value_body r) = some (some r.value)
text_of _ = none

abbrev value_text : HttpResponse → Option (Option Text)
value_text r = text_of r.body

abbrev any_size : Option ℕ → PutBody → Bool
any_size limit b = true
