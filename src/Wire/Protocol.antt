-- ===== src/Wire/Protocol.antt =====
-- Opcodes, status codes, and the frames that are written (crates/falcon-wire/src/protocol.rs).
-- A buffer is the bytes that it holds; what is put is appended.
use falcon_cache.Base.{ℕ, ◌*◌, ◌/◌, ◌%◌, ◌^◌, [], ◌∷◌, ◌++◌, length}
use falcon_cache.Storage.Shard.{Bytes}

abbrev pub op_ping : ℕ
op_ping = 0

abbrev pub op_get : ℕ
op_get = 1

abbrev pub op_set : ℕ
op_set = 2

abbrev pub op_del : ℕ
op_del = 3

abbrev pub op_auth : ℕ
op_auth = 5

abbrev status_ok : ℕ
status_ok = 0

abbrev status_not_found : ℕ
status_not_found = 1

abbrev status_bad_request : ℕ
status_bad_request = 2

abbrev status_unknown_keyspace : ℕ
status_unknown_keyspace = 3

abbrev status_pong : ℕ
status_pong = 5

abbrev status_unauthorized : ℕ
status_unauthorized = 10

abbrev pub max_frame : ℕ
max_frame = 64 * 1024 * 1024

pub record Request : Type 0 where
  pub op : ℕ
  pub flags : ℕ
  pub keyspace : Bytes
  pub key : Bytes
  pub value : Bytes

pub data Response : Type 0 where
  ok : Response
  value_shared : Bytes → Response
  not_found pong bad_request unknown_keyspace unauthorized : Response

-- `put_u16_le`, of a length that is cut to 16 bits first.
abbrev pub u16_le : ℕ → Bytes
u16_le n = n % 2 ^ 8 ∷ n / 2 ^ 8 % 2 ^ 8 ∷ []

-- `put_u32_le`, of a length that is cut to 32 bits first.
abbrev pub u32_le : ℕ → Bytes
u32_le n = n % 2 ^ 8 ∷ n / 2 ^ 8 % 2 ^ 8 ∷ n / 2 ^ 16 % 2 ^ 8 ∷ n / 2 ^ 24 % 2 ^ 8 ∷ []

-- The bytes that `encode_request` appends.
unfoldable pub request_frame : ℕ → Bytes → Bytes → Bytes → Bytes
request_frame op keyspace key value =
    op
    ∷ 0
    ∷ (u16_le (length keyspace)
        ++ (keyspace ++ (u32_le (length key) ++ (key ++ (u32_le (length value) ++ value)))))

unfoldable pub encode_request : Bytes → ℕ → Bytes → Bytes → Bytes → Bytes
unfolding request_frame
encode_request out op keyspace key value = out ++ request_frame op keyspace key value

-- The bytes that `Response::encode` appends.
unfoldable pub response_frame : Response → Bytes
response_frame Response.ok = status_ok ∷ u32_le 0
response_frame (Response.value_shared v) = status_ok ∷ (u32_le (length v) ++ v)
response_frame Response.not_found = status_not_found ∷ u32_le 0
response_frame Response.pong = status_pong ∷ u32_le 0
response_frame Response.bad_request = status_bad_request ∷ u32_le 0
response_frame Response.unknown_keyspace = status_unknown_keyspace ∷ u32_le 0
response_frame Response.unauthorized = status_unauthorized ∷ u32_le 0

unfoldable pub encode : Response → Bytes → Bytes
unfolding response_frame
encode r out = out ++ response_frame r
