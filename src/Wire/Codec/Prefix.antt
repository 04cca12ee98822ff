-- ===== src/Wire/Codec/Prefix.antt =====
-- `decode_one` on a frame that has not arrived in full.
use falcon_cache.Base.{
  length-drop, ℕ, zero, suc, ◌+◌, ◌^◌, ◌≤◌, ◌<◌, ◌≡◌, refl, sym, ap, ◌∙◌, some, [], ◌∷◌, ◌++◌,
  length, drop, arith, ltb, true, false, Bool-cases, inl, inr, get_elem?_of_lt,
}
use falcon_cache.Storage.Shard.{Bytes}
use falcon_cache.Wire.Protocol.{max_frame, request_frame}
use falcon_cache.Wire.Codec.{
  partial, two_bytes, four_bytes, u16_at, u32_at, decode_value, decode_key, decode_header,
  decode_one,
}
use falcon_cache.Wire.Codec.RoundTrip.{buffer, reads_header, reads_key, reads_value}

two_bytes-append : (xs ys : Bytes) → 2 ≤ length xs → two_bytes xs ≡ two_bytes (xs ++ ys)
two_bytes-append [] ys h = absurd (omega arith)
two_bytes-append (a ∷ []) ys h = absurd (omega arith)
two_bytes-append (a ∷ b ∷ xs) ys h = refl

four_bytes-append : (xs ys : Bytes) → 4 ≤ length xs → four_bytes xs ≡ four_bytes (xs ++ ys)
four_bytes-append [] ys h = absurd (omega arith)
four_bytes-append (a ∷ []) ys h = absurd (omega arith)
four_bytes-append (a ∷ b ∷ []) ys h = absurd (omega arith)
four_bytes-append (a ∷ b ∷ c ∷ []) ys h = absurd (omega arith)
four_bytes-append (a ∷ b ∷ c ∷ d ∷ xs) ys h = refl

pub drop-append : (n : ℕ) (xs ys : Bytes) → n ≤ length xs → drop n (xs ++ ys) ≡ drop n xs ++ ys
drop-append zero xs ys h = refl
drop-append (suc n) [] ys h = absurd (omega arith)
drop-append (suc n) (x ∷ xs) ys h = drop-append n xs ys (omega arith)

-- What stands inside a prefix is read the same from the whole.
u16_at-append :
    (xs ys : Bytes) (pos : ℕ) → pos + 2 ≤ length xs → u16_at xs pos ≡ u16_at (xs ++ ys) pos
unfolding u16_at
u16_at-append xs ys pos h =
    two_bytes-append (drop pos xs) ys (omega (arith, length-drop pos xs))
    ∙ ap two_bytes (sym (drop-append pos xs ys (omega arith)))

u32_at-append :
    (xs ys : Bytes) (pos : ℕ) → pos + 4 ≤ length xs → u32_at xs pos ≡ u32_at (xs ++ ys) pos
unfolding u32_at
u32_at-append xs ys pos h =
    four_bytes-append (drop pos xs) ys (omega (arith, length-drop pos xs))
    ∙ ap four_bytes (sym (drop-append pos xs ys (omega arith)))

ltb-false : (a b : ℕ) → b ≤ a → ltb a b ≡ false
ltb-false a b h = ground arith

module _ (op : ℕ) (keyspace key value rest come wanted : Bytes) where
  -- `come` has arrived of the frame and what follows it.
  abbrev IsSplit : Type 0
  IsSplit = come ++ wanted ≡ buffer op keyspace key value rest

  decode_value-prefix :
      (first flags : ℕ)
      → IsSplit
      → length value ≤ max_frame
      → 4 + length keyspace + 4 + length key + 4 ≤ length come
      → length come < 12 + length keyspace + length key + length value
      → decode_value come first flags (length keyspace) (length key) ≡ some (partial, come)
  unfolding decode_value
  decode_value-prefix first flags split small h short =
      let read : u32_at come (4 + length keyspace + 4 + length key) ≡ some (length value) =
        u32_at-append come wanted (4 + length keyspace + 4 + length key) h
        ∙ ap (λ b. u32_at b (4 + length keyspace + 4 + length key)) split
        ∙ reads_value op keyspace key value rest small in
      let cut : ltb (length come) (4 + length keyspace + 4 + length key + 4 + length value) ≡ true =
        ground (arith, short) in
      rw (decode_value, read, ltb-false max_frame (length value) small, cut) refl

  decode_key-prefix :
      (first flags : ℕ)
      → IsSplit
      → length key ≤ max_frame
      → length value ≤ max_frame
      → 4 + length keyspace + 4 ≤ length come
      → length come < 12 + length keyspace + length key + length value
      → decode_key come first flags (length keyspace) ≡ some (partial, come)
  unfolding decode_key
  decode_key-prefix first flags split small_key small h short =
      let read : u32_at come (4 + length keyspace) ≡ some (length key) =
        u32_at-append come wanted (4 + length keyspace) h
        ∙ ap (λ b. u32_at b (4 + length keyspace)) split
        ∙ reads_key op keyspace key value rest small_key in
      elim (Bool-cases (ltb (length come) (4 + length keyspace + 4 + length key + 4))) [
        | inl cut ↦ rw (decode_key, read, ltb-false max_frame (length key) small_key, cut) refl
        | inr full ↦
            rw (decode_key, read, ltb-false max_frame (length key) small_key, full)
              (decode_value-prefix first flags split small (ground (arith, full)) short)
      ]

  decode_header-prefix :
      (first flags : ℕ)
      → IsSplit
      → length keyspace < 2 ^ 16
      → length key ≤ max_frame
      → length value ≤ max_frame
      → 4 ≤ length come
      → length come < 12 + length keyspace + length key + length value
      → decode_header come first flags ≡ some (partial, come)
  unfolding decode_header
  decode_header-prefix first flags split small_keyspace small_key small h short =
      let read : u16_at come 2 ≡ some (length keyspace) =
        u16_at-append come wanted 2 h
        ∙ ap (λ b. u16_at b 2) split
        ∙ reads_header op keyspace key value rest small_keyspace in
      let within = ltb-false max_frame (length keyspace) (omega arith) in
      elim (Bool-cases (ltb (length come) (4 + length keyspace + 4))) [
        | inl cut ↦ rw (decode_header, read, within, cut) refl
        | inr full ↦
            rw (decode_header, read, within, full)
              (decode_key-prefix first flags split small_key small (ground (arith, full)) short)
      ]

  -- While a frame has not come in full the decoder waits, wherever the bytes that came end.
  pub decode_one-prefix :
      come ++ wanted ≡ request_frame op keyspace key value ++ rest
      → length keyspace < 2 ^ 16
      → length key ≤ max_frame
      → length value ≤ max_frame
      → length come < 12 + length keyspace + length key + length value
      → decode_one come ≡ some (partial, come)
  unfolding decode_one
  decode_one-prefix split small_keyspace small_key small short =
      elim (Bool-cases (ltb (length come) 4)) [
        | inl cut ↦ rw (decode_one, cut) refl
        | inr full ↦
            let (first, a) = get_elem?_of_lt come 0 (ground (arith, full)) in
            let (flags, b) = get_elem?_of_lt come 1 (ground (arith, full)) in
            rw (decode_one, full, a, b)
              (decode_header-prefix first flags split small_keyspace small_key small
                (ground (arith, full)) short)
      ]
