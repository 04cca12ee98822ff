-- ===== src/Core/Auth.antt =====
-- Token comparison and percent decoding (crates/falcon-core/src/auth.rs).
pub mod Digits
pub mod Laws
use Prim.Native.Nat.{bit_or, bit_xor}
use falcon_cache.Base.{
  ℕ, ◌+◌, ◌-◌, ◌*◌, Bool, true, false, not, ◌&&◌, Option, some, none, List, [], ◌∷◌, ◌==◌, leb,
  if◌then◌else◌, length,
}
use falcon_cache.Storage.Shard.{Bytes}

-- The loop of `constant_time_eq`: the bits in which a pair of bytes differed so far.
unfoldable pub diff_bytes : ℕ → Bytes → Bytes → ℕ
diff_bytes diff [] b = diff
diff_bytes diff (x ∷ a) [] = diff
diff_bytes diff (x ∷ a) (y ∷ b) = diff_bytes (bit_or diff (bit_xor x y)) a b

unfoldable pub constant_time_eq : Bytes → Bytes → Bool
unfolding diff_bytes
constant_time_eq a b = if not (length a == length b) then false else diff_bytes 0 a b == 0

abbrev within : ℕ → ℕ → ℕ → Bool
within lo hi b = leb lo b && leb b hi

-- The ranges '0' to '9', 'a' to 'f' and 'A' to 'F'.
unfoldable pub hex_val : ℕ → Option ℕ
hex_val b =
    if within 48 57 b
    then some (b - 48)
    else if within 97 102 b
    then some (b - 97 + 10)
    else if within 65 70 b
    then some (b - 65 + 10)
    else none

-- An escape of two digits gives a byte and goes on after them; otherwise the '%' stands for itself.
abbrev escape : Option ℕ → Option ℕ → Bytes → Bytes → Bytes
escape (some hi) (some lo) after kept = (hi * 16 + lo) ∷ after
escape (some hi) none after kept = 37 ∷ kept
escape none lo after kept = 37 ∷ kept

-- The loop of `percent_decode`, before the bytes are made a string: '+' is 43, ' ' is 32 and
-- '%' is 37.
unfoldable pub percent_bytes : Bytes → Bytes
unfolding hex_val
percent_bytes [] = []
percent_bytes (b ∷ []) = (if b == 43 then 32 else b) ∷ []
percent_bytes (b ∷ c ∷ []) = let kept = percent_bytes (c ∷ []) in (if b == 43 then 32 else b) ∷ kept
percent_bytes (b ∷ c ∷ d ∷ rest) =
    let kept = percent_bytes (c ∷ d ∷ rest) in
    let after = percent_bytes rest in
    if b == 43
    then 32 ∷ kept
    else if b == 37
    then escape (hex_val c) (hex_val d) after kept
    else b ∷ kept

-- `percent_decode`; `from_utf8_lossy` is the standard library's.
abbrev pub percent_decode : (Bytes → Bytes) → Bytes → Bytes
percent_decode from_utf8_lossy input = from_utf8_lossy (percent_bytes input)
