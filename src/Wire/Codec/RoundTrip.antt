-- ===== src/Wire/Codec/RoundTrip.antt =====
-- `decode_one` undoes `encode_request` and leaves what comes after the frame.
use falcon_cache.Base.{
  ℕ, ◌+◌, ◌^◌, ◌≤◌, ◌<◌, ◌≡◌, refl, ◌∙◌, ap, some, [], ◌∷◌, ◌++◌, length, get_elem?, take, drop,
  arith, length-append, ltb, false,
}
use mathlib.Core.List.{append_assoc, append-nil}
use falcon_cache.Storage.Shard.{Bytes}
use falcon_cache.Wire.Protocol.{Request, u16_le, u32_le, max_frame, request_frame}
use falcon_cache.Wire.Codec.{
  request, u16_at, u32_at, slice, field, split_frame, decode_value, decode_key, decode_header,
  decode_one,
}
use falcon_cache.Wire.Codec.Reading.{
  drop-after, take-after, u32_at-u32_le, slice-between, field-between,
}

ltb-false : (a b : ℕ) → b ≤ a → ltb a b ≡ false
ltb-false a b h = ground arith

pub split_frame-reads :
    (buf : Bytes) (op flags keyspace_len key_len val_len : ℕ)
    (frame rest keyspace key value : Bytes)
    → take (4 + keyspace_len + 4 + key_len + 4 + val_len) buf ≡ frame
    → drop (4 + keyspace_len + 4 + key_len + 4 + val_len) buf ≡ rest
    → field frame 4 keyspace_len ≡ some keyspace
    → field frame (4 + keyspace_len + 4 + key_len + 4) val_len ≡ some value
    → slice frame (4 + keyspace_len + 4) key_len ≡ some key
    → split_frame buf op flags keyspace_len key_len val_len
      ≡ some (
        request (record { op = op; flags = flags; keyspace = keyspace; key = key; value = value }),
        rest,
      )
unfolding split_frame
split_frame-reads buf op flags keyspace_len key_len val_len frame rest keyspace key value taken left
      a b c =
    rw (split_frame, taken, a, taken, b, taken, c, left) refl

module _ (op : ℕ) (keyspace key value rest : Bytes) where
  -- Up to the end of the keyspace, and up to the end of the key.
  abbrev head : Bytes
  head = op ∷ 0 ∷ (u16_le (length keyspace) ++ keyspace)

  abbrev front : Bytes
  front = head ++ (u32_le (length key) ++ key)

  abbrev frame : Bytes
  frame = front ++ (u32_le (length value) ++ value)

  abbrev pub buffer : Bytes
  buffer = request_frame op keyspace key value ++ rest

  frame-shape : request_frame op keyspace key value ≡ frame
  unfolding request_frame
  frame-shape = simp append_assoc

  key-shape :
      buffer ≡ head ++ (u32_le (length key) ++ (key ++ (u32_le (length value) ++ (value ++ rest))))
  unfolding request_frame
  key-shape = simp append_assoc

  value-shape : buffer ≡ front ++ (u32_le (length value) ++ (value ++ rest))
  unfolding request_frame
  value-shape = simp append_assoc

  length-buffer :
      length buffer ≡ 4 + length keyspace + 4 + length key + 4 + length value + length rest
  length-buffer =
      ap length value-shape
      ∙ omega (
        arith,
        length-append front (u32_le (length value) ++ (value ++ rest)),
        length-append head (u32_le (length key) ++ key),
        length-append value rest,
      )

  length-front : 4 + length keyspace + 4 + length key ≡ length front
  length-front = omega (arith, length-append head (u32_le (length key) ++ key))

  length-frame : 4 + length keyspace + 4 + length key + 4 + length value ≡ length frame
  length-frame = omega (
    arith,
    length-append front (u32_le (length value) ++ value),
    length-append head (u32_le (length key) ++ key),
  )

  pub reads_header : length keyspace < 2 ^ 16 → u16_at buffer 2 ≡ some (length keyspace)
  unfolding u16_at request_frame
  reads_header h = ap some (omega arith)

  pub reads_key : length key ≤ max_frame → u32_at buffer (4 + length keyspace) ≡ some (length key)
  reads_key h =
      ap (λ b. u32_at b (4 + length keyspace)) key-shape
      ∙ u32_at-u32_le (4 + length keyspace) (length key) head _ (omega arith) (omega arith)

  pub reads_value :
      length value ≤ max_frame
      → u32_at buffer (4 + length keyspace + 4 + length key) ≡ some (length value)
  reads_value h =
      ap (λ b. u32_at b (4 + length keyspace + 4 + length key)) value-shape
      ∙ u32_at-u32_le (4 + length keyspace + 4 + length key) (length value) front _ length-front
          (omega arith)

  abbrev sent : Request
  sent = record { op = op; flags = 0; keyspace = keyspace; key = key; value = value }

  split_frame-frame :
      split_frame buffer op 0 (length keyspace) (length key) (length value)
      ≡ some (request sent, rest)
  split_frame-frame =
      ap (λ f. split_frame (f ++ rest) op 0 (length keyspace) (length key) (length value))
        frame-shape
      ∙ split_frame-reads (frame ++ rest) op 0 (length keyspace) (length key) (length value) frame
          rest keyspace key value
          (take-after (4 + length keyspace + 4 + length key + 4 + length value) frame rest
            length-frame)
          (drop-after (4 + length keyspace + 4 + length key + 4 + length value) frame rest
            length-frame)
          (ap (λ f. field f 4 (length keyspace)) keyspace-shape
            ∙ field-between 4 (length keyspace) (op ∷ 0 ∷ u16_le (length keyspace)) keyspace
                (u32_le (length key) ++ (key ++ (u32_le (length value) ++ value))) refl refl)
          (ap (λ f. field f (4 + length keyspace + 4 + length key + 4) (length value)) value-end
            ∙ field-between (4 + length keyspace + 4 + length key + 4) (length value)
                (front ++ u32_le (length value)) value []
                (omega (arith, length-front, length-append front (u32_le (length value)))) refl)
          (ap (λ f. slice f (4 + length keyspace + 4) (length key)) key-end
            ∙ slice-between (4 + length keyspace + 4) (length key) (head ++ u32_le (length key)) key
                (u32_le (length value) ++ value)
                (omega (arith, length-append head (u32_le (length key)))) refl)
    where
      keyspace-shape :
          frame
          ≡ (op ∷ 0 ∷ u16_le (length keyspace))
            ++ (keyspace ++ (u32_le (length key) ++ (key ++ (u32_le (length value) ++ value))))
      keyspace-shape = simp append_assoc

      value-end : frame ≡ (front ++ u32_le (length value)) ++ (value ++ [])
      value-end = simp (append_assoc, append-nil)

      key-end : frame ≡ (head ++ u32_le (length key)) ++ (key ++ (u32_le (length value) ++ value))
      key-end = simp append_assoc

  first_byte : get_elem? buffer 0 ≡ some op
  unfolding request_frame
  first_byte = refl

  second_byte : get_elem? buffer 1 ≡ some 0
  unfolding request_frame
  second_byte = refl

  -- Decoding what `encode_request` wrote gives the request back, with no flags, and leaves the
  -- bytes after it, for a keyspace of less than 2^16 bytes and a key and a value of at most
  -- `MAX_FRAME` bytes.
  pub decode_one-request_frame :
      length keyspace < 2 ^ 16
      → length key ≤ max_frame
      → length value ≤ max_frame
      → decode_one (request_frame op keyspace key value ++ rest) ≡ some (request sent, rest)
  unfolding decode_one decode_header decode_key decode_value
  decode_one-request_frame small_keyspace small_key small_value =
      rw
        (
          ltb-false (length buffer) 4 (omega (arith, length-buffer)),
          first_byte,
          second_byte,
          decode_header,
          reads_header small_keyspace,
          ltb-false max_frame (length keyspace) (omega arith),
          ltb-false (length buffer) (4 + length keyspace + 4) (omega (arith, length-buffer)),
          decode_key,
          reads_key small_key,
          ltb-false max_frame (length key) small_key,
          ltb-false (length buffer) (4 + length keyspace + 4 + length key + 4)
              (omega (arith, length-buffer)),
          decode_value,
          reads_value small_value,
          ltb-false max_frame (length value) small_value,
          ltb-false (length buffer) (4 + length keyspace + 4 + length key + 4 + length value)
              (omega (arith, length-buffer)),
          split_frame-frame,
        )
        refl
