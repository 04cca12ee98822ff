-- ===== src/Wire/Codec/Reading.antt =====
-- Reading a field where a prefix of the buffer ends.
use falcon_cache.Base.{
  ℕ, ◌+◌, ◌^◌, ◌<◌, ◌≡◌, refl, ◌∙◌, ap, some, [], ◌∷◌, ◌++◌, length, take, drop, arith,
  length-append, take-length-append, drop-length-append, leb, true,
}
use falcon_cache.Storage.Shard.{Bytes}
use falcon_cache.Wire.Protocol.{u32_le}
use falcon_cache.Wire.Codec.{u32_at, slice, field, four_bytes}

pub drop-after : (pos : ℕ) (xs ys : Bytes) → pos ≡ length xs → drop pos (xs ++ ys) ≡ ys
drop-after pos xs ys at_end = rw (at_end) (drop-length-append xs ys)

pub take-after : (n : ℕ) (xs ys : Bytes) → n ≡ length xs → take n (xs ++ ys) ≡ xs
take-after n xs ys at_end = rw (at_end) (take-length-append xs ys)

four_bytes-u32_le : (n : ℕ) (rest : Bytes) → n < 2 ^ 32 → four_bytes (u32_le n ++ rest) ≡ some n
four_bytes-u32_le n rest h = ap some (omega arith)

-- A length that was written is read.
pub u32_at-u32_le :
    (pos n : ℕ) (xs rest : Bytes)
    → pos ≡ length xs
    → n < 2 ^ 32
    → u32_at (xs ++ (u32_le n ++ rest)) pos ≡ some n
unfolding u32_at
u32_at-u32_le pos n xs rest at_end h =
    ap four_bytes (drop-after pos xs (u32_le n ++ rest) at_end) ∙ four_bytes-u32_le n rest h

-- The bytes between a prefix and a rest are sliced.
pub slice-between :
    (start n : ℕ) (xs ys rest : Bytes)
    → start ≡ length xs
    → n ≡ length ys
    → slice (xs ++ (ys ++ rest)) start n ≡ some ys
unfolding slice
slice-between start n xs ys rest at_end long =
    rw (drop-after start xs (ys ++ rest) at_end, take-after n ys rest long, inside) refl
  where
    inside : leb (start + n) (length (xs ++ (ys ++ rest))) ≡ true
    inside = ground (arith, length-append xs (ys ++ rest), length-append ys rest)

pub field-between :
    (start n : ℕ) (xs ys rest : Bytes)
    → start ≡ length xs
    → n ≡ length ys
    → field (xs ++ (ys ++ rest)) start n ≡ some ys
field-between start n xs [] rest at_end long = rw (long) refl
field-between start n xs (y ∷ ys) rest at_end long =
    ground (arith, slice-between start n xs (y ∷ ys) rest)
