-- ===== src/Wire/Conn.antt =====
-- The connection loop on the bytes and requests that it holds (crates/falcon-wire/src/conn.rs).
-- `hash` is the engine's hasher and `is_utf8` the standard library's test. A request that stores
-- or reads is given two readings of the clock. `none` stands for a panic.
pub mod Gate
pub mod Pipeline
pub mod Loop
pub mod Fast
pub mod Arrival
pub mod Batches
pub mod Resplit
pub mod Memo
pub mod Tests
pub mod Served
pub mod Stranger
use falcon_cache.Base.{
  ℕ, zero, suc, ◌+◌, Bool, true, false, not, ◌&&◌, ◌||◌, Option, none, some, List, [], ◌∷◌, ◌++◌,
  ltb, ◌==◌, if◌then◌else◌, length,
}
use falcon_cache.Base.Equality.{byte_string_eq, bytes_eq}
use falcon_cache.Storage.Table.{get as find, put as replace}
use falcon_cache.Storage.Shard.{Bytes}
use falcon_cache.Core.Auth.{constant_time_eq}
use falcon_cache.Core.Keyspace.{Keyspace, get, put, delete_key}
use falcon_cache.Wire.Protocol.{Request, Response, op_ping, op_get, op_set, op_del, op_auth, encode}
use falcon_cache.Wire.Codec.{Decoded, partial, malformed, request, decode_one}

-- `DEFAULT_KEYSPACE`, "cache".
abbrev pub default_keyspace : Bytes
default_keyspace = 99 ∷ 97 ∷ 99 ∷ 104 ∷ 101 ∷ []

abbrev pub max_batch : ℕ
max_batch = 1024

pub record SizeLimits : Type 0 where
  pub max_value : ℕ
  pub max_key : ℕ

-- What the loop reads of the node: its keyspaces, the limits of its configuration, and the token.
pub record ServedNode : Type 0 where
  pub keyspaces : List (Bytes × Keyspace)
  pub limits : SizeLimits
  pub api_key : Bytes

unfoldable pub rejects : SizeLimits → Request → Bool
rejects limits req =
    if ltb 0 limits.max_key && ltb limits.max_key (length req.key)
    then true
    else ltb 0 limits.max_value && req.op == op_set && ltb limits.max_value (length req.value)

abbrev pub is_kv : ℕ → Bool
is_kv op = op == op_get || op == op_set || op == op_del

-- The drain of the read buffer: the requests, the bytes that are left, and whether it met a
-- malformed frame. `room` counts down from `max_batch`.
unfoldable pub drain : ℕ → Bytes → Option (List Request × Bytes × Bool)
drain zero buf = some ([], buf, false)
drain (suc room) buf = elim (decode_one buf) [
  | none ↦ none
  | some (partial, rest) ↦ some ([], rest, false)
  | some (malformed, rest) ↦ some ([], rest, true)
  | some (request req, rest) ↦ elim (drain room rest) [
    | none ↦ none
    | some (batch, left, bad) ↦ some (req ∷ batch, left, bad)
  ]
]

abbrev value_or_miss : Option Bytes → Response
value_or_miss none = Response.not_found
value_or_miss (some v) = Response.value_shared v

-- The connection while it serves a batch. `cached` is the keyspace field that was resolved last
-- with the name it resolved to, if that keyspace exists.
pub record Serving : Type 0 where
  pub node : ServedNode
  pub authed : Bool
  pub cached : Option (Bytes × Option Bytes)
  pub out : Bytes

abbrev pub reply : Response → Serving → Serving
reply r c = record c { out = encode r c.out }

module _ (hash : Bytes → ℕ) (is_utf8 : Bytes → Bool) where
  unfoldable pub name_str : Bytes → Bytes → Option Bytes
  name_str bytes default =
      if length bytes == 0 then some default else if is_utf8 bytes then some bytes else none

  unfoldable pub dispatch_kv_on : ℕ × ℕ → Keyspace → Request → Option (Keyspace × Response)
  dispatch_kv_on (now, evicting) ks req =
      if req.op == op_get
      then elim (get hash req.key now ks) [
        | none ↦ none
        | some (after, v) ↦ some (after, value_or_miss v)
      ]
      else if req.op == op_set
      then elim (put hash req.key req.value now evicting ks) [
        | none ↦ none
        | some after ↦ some (after, Response.ok)
      ]
      else if req.op == op_del
      then elim (delete_key hash req.key ks) [
        | none ↦ none
        | some (after, held) ↦ some (after, Response.ok)
      ]
      else some (ks, Response.bad_request)

  -- Serves a request on the keyspace of that name.
  unfoldable pub serve_on : ℕ × ℕ → Bytes → Request → ServedNode → Option (ServedNode × Response)
  unfolding dispatch_kv_on
  serve_on times name req node = elim (find name node.keyspaces) [
    | none ↦ some (node, Response.unknown_keyspace)
    | some ks ↦ elim (dispatch_kv_on times ks req) [
      | none ↦ none
      | some (after, r) ↦ some (record node { keyspaces = replace name after node.keyspaces }, r)
    ]
  ]

  unfoldable pub dispatch_kv : ℕ × ℕ → Request → ServedNode → Option (ServedNode × Response)
  unfolding name_str serve_on
  dispatch_kv times req node = elim (name_str req.keyspace default_keyspace) [
    | none ↦ some (node, Response.bad_request)
    | some name ↦ serve_on times name req node
  ]

  unfoldable pub dispatch : ℕ × ℕ → Request → ServedNode → Option (ServedNode × Response)
  unfolding rejects dispatch_kv
  dispatch times req node =
      if rejects node.limits req
      then some (node, Response.bad_request)
      else if req.op == op_ping
      then some (node, Response.pong)
      else if is_kv req.op
      then dispatch_kv times req node
      else some (node, Response.bad_request)

  -- What a keyspace field resolves to, if that keyspace exists.
  abbrev pub resolve : Bytes → ServedNode → Option Bytes
  resolve field node = elim (name_str field default_keyspace) [
    | none ↦ none
    | some name ↦ elim (find name node.keyspaces) [ none ↦ none | some ks ↦ some name ]
  ]

  -- `cached_ks`, brought up to date for the request.
  abbrev pub cached_name : Request → Serving → Option Bytes
  cached_name req c = elim c.cached [
    | none ↦ resolve req.keyspace c.node
    | some (field, name) ↦ if bytes_eq field req.keyspace then name else resolve req.keyspace c.node
  ]

  abbrev pub answer : Serving → Option (ServedNode × Response) → Option Serving
  answer c none = none
  answer c (some (node, r)) = some (reply r (record c { node = node }))

  -- The fast path of the loop.
  unfoldable pub serve_fast : ℕ × ℕ → Request → Serving → Option Serving
  unfolding name_str serve_on
  serve_fast times req c =
      let name = cached_name req c in
      let ready = record c { cached = some (req.keyspace, name) } in
      elim name [
        | none ↦ some (reply Response.unknown_keyspace ready)
        | some n ↦ answer ready (serve_on times n req c.node)
      ]

  -- One request of the batch.
  unfoldable pub serve_request : ℕ × ℕ → Request → Serving → Option Serving
  unfolding serve_fast dispatch rejects
  serve_request times req c =
      if req.op == op_auth
      then (if constant_time_eq req.value c.node.api_key
          then some (reply Response.ok (record c { authed = true }))
          else some (reply Response.unauthorized c))
      else if not c.authed
      then some (reply Response.unauthorized c)
      else if is_kv req.op && not (rejects c.node.limits req)
      then serve_fast times req c
      else answer c (dispatch times req c.node)

  -- The batch from its `i`th request on.
  unfoldable pub serve_batch : (ℕ → ℕ × ℕ) → ℕ → List Request → Serving → Option Serving
  unfolding serve_request
  serve_batch times i [] c = some c
  serve_batch times i (req ∷ batch) c = elim (serve_request (times i) req c) [
    | none ↦ none
    | some after ↦ serve_batch times (i + 1) batch after
  ]
