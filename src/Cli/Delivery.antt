-- ===== src/Cli/Delivery.antt =====
-- What a client's request is at the node: what the HTTP client library, the connection, and the
-- node's extractors of bodies and queries do, as their documentation says. Texts stand for their
-- UTF-8 bytes here.
use falcon_cache.Base.{
  ℕ, ◌≡◌, Bool, true, ◌||◌, ◌==◌, Option, some, List, [], ◌∷◌, ◌++◌, ◌⊎◌, inr, All,
}
use falcon_cache.Base.Text.{Text, text, between}
use falcon_cache.Storage.Shard.{Bytes}
use falcon_cache.Api.Rest.{HttpResponse, KvWrite, ValueResponse, succeeded, value_body}
use falcon_cache.Api.Router.{HttpRequest, Method}
use falcon_cache.Cli.Client.{Sent, PutBody}
use falcon_cache.Cli.Client

-- The characters that RFC 3986 leaves unreserved: digits, letters, and "-._~".
abbrev pub unreserved : ℕ → Bool
unreserved c =
    between 48 57 c
    || between 65 90 c
    || between 97 122 c
    || c == 45
    || c == 46
    || c == 95
    || c == 126

abbrev pub IsUnreserved : ℕ → Type 0
IsUnreserved c = unreserved c ≡ true

-- As a part of a path, and as a part of a query.
abbrev pub IsInPath : ℕ → Type 0
IsInPath c = (unreserved c || c == 47) ≡ true

abbrev pub IsInQuery : ℕ → Type 0
IsInQuery c = (unreserved c || c == 61) ≡ true

abbrev pub method_of : Client.Method → Method
method_of Client.fetch = Method.fetch
method_of Client.post = Method.post
method_of Client.delete = Method.delete

-- The fields of the JSON object, read back.
abbrev pub kv_of : PutBody → KvWrite
kv_of b = record { key = b.key; value = b.value; ttl = b.ttl }

-- `deliver` gives the request that a node at `addr` gets for what is sent. `fits` says whether the
-- JSON text of a body is within a limit. `token` can stand in a header.
pub record Delivers (addr token : Text) (header_str : Bytes → Option Bytes)
    (extract_json : Option ℕ → HttpRequest → HttpResponse ⊎ KvWrite)
    (extract_query : HttpRequest → HttpResponse ⊎ List (Bytes × Bytes))
    (deliver : Sent PutBody → HttpRequest) (json_text : HttpResponse → Option (Option Text))
    (fits : Option ℕ → PutBody → Bool) : Type 0 where
  -- The method is kept.
  pub method : (s : Sent PutBody) → (deliver s).method ≡ method_of s.method
  -- The URL is cut at the address and at "?".
  pub path :
      (s : Sent PutBody) (p : Text) → All IsInPath p → s.url ≡ addr ++ p → (deliver s).path ≡ p
  pub path_query :
      (s : Sent PutBody) (p q : Text)
      → All IsInPath p
      → All IsInQuery q
      → s.url ≡ addr ++ (p ++ (text "?" ++ q))
      → ((deliver s).path ≡ p) × ((deliver s).query ≡ some q)
  -- `bearer_auth` makes the Authorization header, and the node can read it.
  pub bearer :
      (s : Sent PutBody)
      → s.bearer ≡ some token
      → (deliver s).authorization ≡ some (text "Bearer " ++ token)
  pub readable : header_str (text "Bearer " ++ token) ≡ some (text "Bearer " ++ token)
  -- A JSON body within the limit is read as it was written.
  pub json :
      (s : Sent PutBody) (b : PutBody) (limit : Option ℕ)
      → s.body ≡ some b
      → fits limit b ≡ true
      → extract_json limit (deliver s) ≡ inr (kv_of b)
  -- A query of one parameter without escapes is read as it is.
  pub form :
      (req : HttpRequest) (value : Text)
      → All IsUnreserved value
      → req.query ≡ some (text "key=" ++ value)
      → extract_query req ≡ inr ((text "key", value) ∷ [])
  -- The text at "value" of a response that has one.
  pub shown : (r : ValueResponse) → json_text (succeeded (value_body r)) ≡ some (some r.value)
