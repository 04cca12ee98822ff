-- ===== src/Api/Router.antt =====
-- The routes and the check of the token (crates/falcon-api/src/server.rs). `header_str`,
-- `extract_json` and `extract_query` are the http and axum libraries': the text of a header's
-- bytes, and the bodies and the query parameters of requests, or the response that rejects them.
-- `unrouted` is axum's response to what no route takes, and `lossy` the standard library's
-- `from_utf8_lossy`.
use falcon_cache.Base.{
  ℕ, Bool, not, ◌||◌, ◌==◌, Option, none, some, List, [], ◌∷◌, if◌then◌else◌, inl, inr, ltb, ◌⊎◌,
}
use falcon_cache.Base.Text.{text, strip_prefix, is_blank, is_any}
use falcon_cache.Storage.Shard.{Bytes}
use falcon_cache.Core.Auth.{constant_time_eq, percent_decode}
use falcon_cache.Api.Rest.{
  ApiNode, HttpResponse, KvWrite, Keyspaces, cache_write, cache_read, cache_delete, readyz, healthz,
  no_body,
}

-- `fetch` is GET. HEAD, which axum hands to the handlers of GET, is not told apart from it.
pub data Method : Type 0 where
  fetch post delete other : Method

pub record HttpRequest : Type 0 where
  pub method : Method
  pub path : Bytes
  pub query : Option Bytes
  pub authorization : Option Bytes
  pub body : Bytes

pub data Handler : Type 0 where
  probe ready write read remove : Handler

abbrev cache_handler : Method → Option Handler
cache_handler fetch = some read
cache_handler post = some write
cache_handler delete = some remove
cache_handler other = none

abbrev only_get : Handler → Method → Option Handler
only_get h fetch = some h
only_get h m = none

-- The routes of `router`.
unfoldable pub route : Bytes → Method → Option Handler
route path method =
    if is_any (text "/healthz" ∷ text "/health" ∷ []) path
    then only_get probe method
    else if is_any (text "/readyz" ∷ []) path
    then only_get ready method
    else if is_any (text "/cache" ∷ []) path
    then cache_handler method
    else none

-- `split('&')`: the parts between the bytes 38.
abbrev grown : ℕ → List Bytes → List Bytes
grown c [] = (c ∷ []) ∷ []
grown c (part ∷ parts) = (c ∷ part) ∷ parts

unfoldable pub split_amp : Bytes → List Bytes
split_amp [] = [] ∷ []
split_amp (c ∷ cs) = let parts = split_amp cs in if c == 38 then [] ∷ parts else grown c parts

-- `find_map(|kv| kv.strip_prefix("api_key="))`
abbrev first_of : Option Bytes → Option Bytes → Option Bytes
first_of none o = o
first_of (some t) o = some t

unfoldable pub find_key : List Bytes → Option Bytes
unfolding strip_prefix
find_key [] = none
find_key (part ∷ parts) = first_of (strip_prefix (text "api_key=") part) (find_key parts)

abbrev pub then_some {ℓ} : {A : Type ℓ} → Option Bytes → (Bytes → Option A) → Option A
then_some none f = none
then_some (some t) f = f t

abbrev pub or_empty : Option Bytes → Bytes
or_empty none = []
or_empty (some t) = t

abbrev pub is_probe : Bytes → Bool
is_probe path = is_any (text "/healthz" ∷ text "/readyz" ∷ text "/health" ∷ []) path

module _ (header_str : Bytes → Option Bytes) (lossy : Bytes → Bytes) where
  -- `header_key` of `auth_middleware`
  abbrev pub header_key : HttpRequest → Option Bytes
  header_key req =
      then_some (then_some req.authorization header_str) (strip_prefix (text "Bearer "))

  -- `query_key`
  abbrev pub query_key : HttpRequest → Option Bytes
  query_key req =
      then_some (then_some req.query (λ q. find_key (split_amp q)))
        (λ t. some (percent_decode lossy t))

  unfoldable pub presented : HttpRequest → Bytes
  unfolding find_key split_amp strip_prefix
  presented req = or_empty (first_of (header_key req) (query_key req))

  -- Whether `auth_middleware` lets the request through.
  unfoldable pub admits : Bytes → HttpRequest → Bool
  unfolding presented
  admits token req = is_probe req.path || constant_time_eq (presented req) token

abbrev pub unauthorized : HttpResponse
unauthorized = record { status = 401; body = no_body }

-- `auth_is_enabled` of the node's configuration.
abbrev pub auth_enabled : ApiNode → Bool
auth_enabled node = not (is_blank node.api_key)

-- The layer that `router` adds: none where the cap is 0.
abbrev pub body_limit : ApiNode → Option ℕ
body_limit node = if ltb 0 node.max_value_bytes then some node.max_value_bytes else none

abbrev updated : ApiNode → Option (Keyspaces × HttpResponse) → Option (ApiNode × HttpResponse)
updated node none = none
updated node (some (held, r)) = some (record node { keyspaces = held }, r)

abbrev extracted {ℓ} :
    {A : Type ℓ}
    → ApiNode
    → HttpResponse ⊎ A
    → (A → Option (ApiNode × HttpResponse))
    → Option (ApiNode × HttpResponse)
extracted node (inl r) serve = some (node, r)
extracted node (inr a) serve = serve a

module _ (hash : Bytes → ℕ) (is_utf8 : Bytes → Bool) (header_str : Bytes → Option Bytes)
    (lossy : Bytes → Bytes) (extract_json : Option ℕ → HttpRequest → HttpResponse ⊎ KvWrite)
    (extract_query : HttpRequest → HttpResponse ⊎ List (Bytes × Bytes))
    (unrouted : HttpRequest → HttpResponse) where
  unfoldable pub handle : ℕ × ℕ → Handler → HttpRequest → ApiNode → Option (ApiNode × HttpResponse)
  handle times probe req node = some (node, healthz node)
  handle times ready req node = some (node, readyz node)
  handle times write req node =
      extracted node (extract_json (body_limit node) req)
        (λ body. updated node (cache_write hash is_utf8 times body node.keyspaces))
  handle (now, evicting) read req node =
      extracted node (extract_query req)
        (λ params. updated node (cache_read hash is_utf8 now params node.keyspaces))
  handle times remove req node =
      extracted node (extract_query req)
        (λ params. updated node (cache_delete hash is_utf8 params node.keyspaces))

  unfoldable pub respond : ℕ × ℕ → HttpRequest → ApiNode → Option (ApiNode × HttpResponse)
  unfolding handle route
  respond times req node = elim (route req.path req.method) [
    | none ↦ some (node, unrouted req)
    | some h ↦ handle times h req node
  ]

  -- The application that `router` builds: the node after the request, and the response.
  unfoldable pub app : ℕ × ℕ → HttpRequest → ApiNode → Option (ApiNode × HttpResponse)
  unfolding respond admits
  app times req node =
      if auth_enabled node
      then (if admits header_str lossy node.api_key req
          then respond times req node
          else some (node, unauthorized))
      else respond times req node
