-- ===== src/Wire/Codec/Progress.antt =====
-- `decode_one` on any bytes: it never panics, and it takes whole frames or nothing.
use falcon_cache.Base.{
  ◌∙◌, ◌∙◌, sym, ℕ, zero, suc, ◌+◌, ◌≤◌, ◌≡◌, refl, ap, Option, some, [], ◌∷◌, ◌++◌, length, take,
  drop, arith, length-take, length-drop, leb, ltb, ◌==◌, true, Bool-cases, inl, inr,
  get_elem?_of_lt,
}
use mathlib.Core.List.{append-nil}
use falcon_cache.Storage.Shard.{Bytes}
use falcon_cache.Wire.Protocol.{max_frame}
use falcon_cache.Wire.Codec.{
  Decoded, partial, malformed, request, two_bytes, four_bytes, u16_at, u32_at, slice, field,
  split_frame, decode_value, decode_key, decode_header, decode_one,
}
use falcon_cache.Wire.Codec.RoundTrip.{split_frame-reads}

-- A request has taken its frame off the front of the buffer; anything else leaves the buffer.
abbrev pub Takes : Bytes → Decoded × Bytes → Type 0
Takes buf (partial, rest) = rest ≡ buf
Takes buf (malformed, rest) = rest ≡ buf
Takes buf (request r, rest) =
    (frame : Bytes) × (buf ≡ frame ++ rest)
    × (length frame ≡ 12 + length r.keyspace + length r.key + length r.value)
    × ((front : Bytes) × (frame ≡ front ++ r.value))

abbrev Outcome : Bytes → Option (Decoded × Bytes) → Type 0
Outcome buf o = (r : Decoded × Bytes) × (o ≡ some r) × Takes buf r

two_bytes-some : (xs : Bytes) → 2 ≤ length xs → (n : ℕ) × (two_bytes xs ≡ some n)
two_bytes-some [] h = absurd (omega arith)
two_bytes-some (a ∷ []) h = absurd (omega arith)
two_bytes-some (a ∷ b ∷ xs) h = (_, refl)

four_bytes-some : (xs : Bytes) → 4 ≤ length xs → (n : ℕ) × (four_bytes xs ≡ some n)
four_bytes-some [] h = absurd (omega arith)
four_bytes-some (a ∷ []) h = absurd (omega arith)
four_bytes-some (a ∷ b ∷ []) h = absurd (omega arith)
four_bytes-some (a ∷ b ∷ c ∷ []) h = absurd (omega arith)
four_bytes-some (a ∷ b ∷ c ∷ d ∷ xs) h = (_, refl)

u16_at-some : (buf : Bytes) (pos : ℕ) → pos + 2 ≤ length buf → (n : ℕ) × (u16_at buf pos ≡ some n)
unfolding u16_at
u16_at-some buf pos h = two_bytes-some (drop pos buf) (omega (arith, length-drop pos buf))

u32_at-some : (buf : Bytes) (pos : ℕ) → pos + 4 ≤ length buf → (n : ℕ) × (u32_at buf pos ≡ some n)
unfolding u32_at
u32_at-some buf pos h = four_bytes-some (drop pos buf) (omega (arith, length-drop pos buf))

slice-some :
    (frame : Bytes) (start len : ℕ)
    → start + len ≤ length frame
    → (xs : Bytes) × (slice frame start len ≡ some xs) × (length xs ≡ len)
unfolding slice
slice-some frame start len h =
    let inside : leb (start + len) (length frame) ≡ true = ground (arith, h) in
    (
      take len (drop start frame),
      rw inside refl,
      omega (arith, length-take len (drop start frame), length-drop start frame),
    )

field-some :
    (frame : Bytes) (start len : ℕ)
    → start + len ≤ length frame
    → (xs : Bytes) × (field frame start len ≡ some xs) × (length xs ≡ len)
field-some frame start len h = elim (Bool-cases (len == 0)) [
  | inl empty ↦ ([], rw empty refl, ground (arith, empty))
  | inr full ↦ rw full (slice-some frame start len h)
]

append-take-drop : (n : ℕ) (xs : Bytes) → xs ≡ take n xs ++ drop n xs
append-take-drop zero xs = refl
append-take-drop (suc n) [] = refl
append-take-drop (suc n) (x ∷ xs) = ap (◌∷◌ x) (append-take-drop n xs)

take-length : (n : ℕ) (xs : Bytes) → length xs ≤ n → take n xs ≡ xs
take-length zero [] h = refl
take-length zero (x ∷ xs) h = absurd (omega (arith, h))
take-length (suc n) [] h = refl
take-length (suc n) (x ∷ xs) h = ap (◌∷◌ x) (take-length n xs (omega (arith, h)))

slice_inj : {xs ys : Bytes} → some xs ≡ some ys → xs ≡ ys
slice_inj e = cc

-- The field at the end of a frame.
field-last :
    (frame : Bytes) (start len : ℕ) (xs : Bytes)
    → start + len ≡ length frame
    → field frame start len ≡ some xs
    → (front : Bytes) × (frame ≡ front ++ xs)
unfolding slice
field-last frame start len xs full read = elim (Bool-cases (len == 0)) [
  | inl empty ↦
      let none_read = rw empty at read in
      (frame, sym (append-nil frame) ∙ ap (λ ys. frame ++ ys) (slice_inj none_read))
  | inr some_read ↦
      let inside : leb (start + len) (length frame) ≡ true = ground (arith, full) in
      let cut : take len (drop start frame) ≡ xs =
        slice_inj (rw (some_read, slice, inside) at read) in
      let all : take len (drop start frame) ≡ drop start frame =
        take-length len (drop start frame) (omega (arith, full, length-drop start frame)) in
      (
        take start frame,
        append-take-drop start frame ∙ ap (λ ys. take start frame ++ ys) (sym all ∙ cut),
      )
]

module _ (buf : Bytes) (op flags keyspace_len : ℕ) where
  split_frame-Takes :
      (key_len val_len : ℕ)
      → 4 + keyspace_len + 4 + key_len + 4 + val_len ≤ length buf
      → Outcome buf (split_frame buf op flags keyspace_len key_len val_len)
  split_frame-Takes key_len val_len h =
      let frame_end = 4 + keyspace_len + 4 + key_len + 4 + val_len in
      let long : length (take frame_end buf) ≡ frame_end =
        omega (arith, length-take frame_end buf) in
      let (keyspace, a, keyspace_long) =
        field-some (take frame_end buf) 4 keyspace_len (omega arith) in
      let (value, b, value_long) =
        field-some (take frame_end buf) (4 + keyspace_len + 4 + key_len + 4) val_len
          (omega arith) in
      let (key, c, key_long) =
        slice-some (take frame_end buf) (4 + keyspace_len + 4) key_len (omega arith) in
      (
        _,
        split_frame-reads buf op flags keyspace_len key_len val_len (take frame_end buf)
            (drop frame_end buf) keyspace key value refl refl a b c,
        (
          take frame_end buf,
          append-take-drop frame_end buf,
          omega arith,
          field-last (take frame_end buf) (4 + keyspace_len + 4 + key_len + 4) val_len value
              (omega (arith, long)) b,
        ),
      )

  decode_value-Takes :
      (key_len : ℕ)
      → 4 + keyspace_len + 4 + key_len + 4 ≤ length buf
      → Outcome buf (decode_value buf op flags keyspace_len key_len)
  unfolding decode_value
  decode_value-Takes key_len h =
      let pos = 4 + keyspace_len + 4 + key_len in
      let (val_len, read) = u32_at-some buf pos h in
      elim (Bool-cases (ltb max_frame val_len)) [
        | inl over ↦ ((malformed, buf), rw (decode_value, read, over) refl, refl)
        | inr within ↦ elim (Bool-cases (ltb (length buf) (pos + 4 + val_len))) [
          | inl short ↦ ((partial, buf), rw (decode_value, read, within, short) refl, refl)
          | inr full ↦
              let (r, run, takes) = split_frame-Takes key_len val_len (ground (arith, full)) in
              (r, rw (decode_value, read, within, full) run, takes)
        ]
      ]

  decode_key-Takes :
      4 + keyspace_len + 4 ≤ length buf → Outcome buf (decode_key buf op flags keyspace_len)
  unfolding decode_key
  decode_key-Takes h =
      let pos = 4 + keyspace_len in
      let (key_len, read) = u32_at-some buf pos h in
      elim (Bool-cases (ltb max_frame key_len)) [
        | inl over ↦ ((malformed, buf), rw (decode_key, read, over) refl, refl)
        | inr within ↦ elim (Bool-cases (ltb (length buf) (pos + 4 + key_len + 4))) [
          | inl short ↦ ((partial, buf), rw (decode_key, read, within, short) refl, refl)
          | inr full ↦
              let (r, run, takes) = decode_value-Takes key_len (ground (arith, full)) in
              (r, rw (decode_key, read, within, full) run, takes)
        ]
      ]

decode_header-Takes :
    (buf : Bytes) (op flags : ℕ) → 4 ≤ length buf → Outcome buf (decode_header buf op flags)
unfolding decode_header
decode_header-Takes buf op flags h =
    let (keyspace_len, read) = u16_at-some buf 2 h in
    elim (Bool-cases (ltb max_frame keyspace_len)) [
      | inl over ↦ ((malformed, buf), rw (decode_header, read, over) refl, refl)
      | inr within ↦ elim (Bool-cases (ltb (length buf) (4 + keyspace_len + 4))) [
        | inl short ↦ ((partial, buf), rw (decode_header, read, within, short) refl, refl)
        | inr full ↦
            let (r, run, takes) =
              decode_key-Takes buf op flags keyspace_len (ground (arith, full)) in
            (r, rw (decode_header, read, within, full) run, takes)
      ]
    ]

-- On any bytes `decode_one` returns: no index and no slice is out of bounds. It leaves the buffer
-- as it is unless it returns a request, and then it has taken exactly the frame off the front: the
-- 12 bytes of the header and of the lengths, and the three fields, with the value at its end.
pub decode_one-Takes :
    (buf : Bytes) → (r : Decoded × Bytes) × (decode_one buf ≡ some r) × Takes buf r
unfolding decode_one
decode_one-Takes buf = elim (Bool-cases (ltb (length buf) 4)) [
  | inl short ↦ ((partial, buf), rw (decode_one, short) refl, refl)
  | inr full ↦
      let (op, first) = get_elem?_of_lt buf 0 (ground (arith, full)) in
      let (flags, second) = get_elem?_of_lt buf 1 (ground (arith, full)) in
      let (r, run, takes) = decode_header-Takes buf op flags (ground (arith, full)) in
      (r, rw (decode_one, full, first, second) run, takes)
]
