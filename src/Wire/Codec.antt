-- ===== src/Wire/Codec.antt =====
-- `decode_one`, the request decoder (crates/falcon-wire/src/codec.rs). `none` stands for an index
-- or a slice out of bounds, which panics.
pub mod Reading
pub mod RoundTrip
pub mod Progress
pub mod Prefix
use falcon_cache.Base.{
  ℕ, ◌+◌, ◌*◌, ◌^◌, Bool, Option, none, some, List, [], ◌∷◌, ltb, leb, ◌==◌, if◌then◌else◌, length,
  take, drop, get_elem?,
}
use falcon_cache.Storage.Shard.{Bytes}
use falcon_cache.Wire.Protocol.{Request, max_frame}

-- What a call returns: `Ok(None)`, `Err(Malformed)`, or a request.
pub data Decoded : Type 0 where
  partial : Decoded
  malformed : Decoded
  request : Request → Decoded

abbrev header_min : ℕ
header_min = 1 + 1 + 2

abbrev pub two_bytes : Bytes → Option ℕ
two_bytes (a ∷ b ∷ rest) = some (a + b * 2 ^ 8)
two_bytes _ = none

abbrev pub four_bytes : Bytes → Option ℕ
four_bytes (a ∷ b ∷ c ∷ d ∷ rest) = some (a + b * 2 ^ 8 + c * 2 ^ 16 + d * 2 ^ 24)
four_bytes _ = none

-- `u16::from_le_bytes` of the bytes at `pos` and after it.
unfoldable pub u16_at : Bytes → ℕ → Option ℕ
u16_at buf pos = two_bytes (drop pos buf)

unfoldable pub u32_at : Bytes → ℕ → Option ℕ
u32_at buf pos = four_bytes (drop pos buf)

-- `frame.slice(start..start + len)`
unfoldable pub slice : Bytes → ℕ → ℕ → Option Bytes
slice frame start len =
    if leb (start + len) (length frame) then some (take len (drop start frame)) else none

-- An empty field does not slice.
abbrev pub field : Bytes → ℕ → ℕ → Option Bytes
field frame start len = if len == 0 then some [] else slice frame start len

-- The frame is complete: it is split off, and views of it are made.
unfoldable pub split_frame : Bytes → ℕ → ℕ → ℕ → ℕ → ℕ → Option (Decoded × Bytes)
unfolding slice
split_frame buf op flags keyspace_len key_len val_len =
    let keyspace_start = header_min in
    let key_start = header_min + keyspace_len + 4 in
    let val_start = key_start + key_len + 4 in
    let frame_end = val_start + val_len in
    let frame = take frame_end buf in
    elim (field frame keyspace_start keyspace_len) [
      | none ↦ none
      | some keyspace ↦ elim (field frame val_start val_len) [
        | none ↦ none
        | some value ↦ elim (slice frame key_start key_len) [
          | none ↦ none
          | some key ↦ some (
            request
                (record { op = op; flags = flags; keyspace = keyspace; key = key; value = value }),
            drop frame_end buf,
          )
        ]
      ]
    ]

unfoldable pub decode_value : Bytes → ℕ → ℕ → ℕ → ℕ → Option (Decoded × Bytes)
unfolding u32_at split_frame
decode_value buf op flags keyspace_len key_len =
    let pos = header_min + keyspace_len + 4 + key_len in
    elim (u32_at buf pos) [
      | none ↦ none
      | some val_len ↦
          if ltb max_frame val_len
          then some (malformed, buf)
          else if ltb (length buf) (pos + 4 + val_len)
          then some (partial, buf)
          else split_frame buf op flags keyspace_len key_len val_len
    ]

unfoldable pub decode_key : Bytes → ℕ → ℕ → ℕ → Option (Decoded × Bytes)
unfolding u32_at decode_value
decode_key buf op flags keyspace_len =
    let pos = header_min + keyspace_len in
    elim (u32_at buf pos) [
      | none ↦ none
      | some key_len ↦
          if ltb max_frame key_len
          then some (malformed, buf)
          else if ltb (length buf) (pos + 4 + key_len + 4)
          then some (partial, buf)
          else decode_value buf op flags keyspace_len key_len
    ]

unfoldable pub decode_header : Bytes → ℕ → ℕ → Option (Decoded × Bytes)
unfolding u16_at decode_key
decode_header buf op flags = elim (u16_at buf 2) [
  | none ↦ none
  | some keyspace_len ↦
      if ltb max_frame keyspace_len
      then some (malformed, buf)
      else if ltb (length buf) (header_min + keyspace_len + 4)
      then some (partial, buf)
      else decode_key buf op flags keyspace_len
]

unfoldable pub decode_one : Bytes → Option (Decoded × Bytes)
unfolding decode_header
decode_one buf =
    if ltb (length buf) header_min then some (partial, buf) else elim (get_elem? buf 0) [
      | none ↦ none
      | some op ↦ elim (get_elem? buf 1) [ none ↦ none | some flags ↦ decode_header buf op flags ]
    ]
