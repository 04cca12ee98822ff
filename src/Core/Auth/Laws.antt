-- ===== src/Core/Auth/Laws.antt =====
-- The comparison decides equality, and decoding undoes encoding.
use Prim.Native.Nat.{bit_or, bit_xor}
use falcon_cache.Base.{
  ℕ, ◌+◌, ◌/◌, ◌%◌, ◌<◌, ◌≡◌, ◌↔◌, refl, ap, true, false, some, [], ◌∷◌, ◌==◌, ltb, if◌then◌else◌,
  length, arith, All, Bool-cases, inl, inr,
}
use falcon_cache.Storage.Shard.{Bytes}
use falcon_cache.Core.Auth.{diff_bytes, constant_time_eq, hex_val, percent_bytes}
use falcon_cache.Core.Auth.Digits.{bit_or-zero, bit_xor-zero, bit_xor_self}

bit_or-none : bit_or 0 0 ≡ 0
bit_or-none = refl

diff_bytes-same : (a : Bytes) → diff_bytes 0 a a ≡ 0
unfolding diff_bytes
diff_bytes-same [] = refl
diff_bytes-same (x ∷ a) = rw (bit_xor_self x) (diff_bytes-same a)

diff_bytes-zero :
    (diff : ℕ) (a b : Bytes) → length a ≡ length b → diff_bytes diff a b ≡ 0 → (diff ≡ 0) × (a ≡ b)
unfolding diff_bytes
diff_bytes-zero diff [] [] long h = (h, refl)
diff_bytes-zero diff [] (y ∷ b) long h = absurd (omega arith)
diff_bytes-zero diff (x ∷ a) [] long h = absurd (omega arith)
diff_bytes-zero diff (x ∷ a) (y ∷ b) long h =
    let (joined, rest) = diff_bytes-zero (bit_or diff (bit_xor x y)) a b (omega (arith, long)) h in
    let (before, here) = bit_or-zero diff (bit_xor x y) joined in
    (before, cc (bit_xor-zero x y here, rest))

-- The comparison that visits every byte accepts a token exactly when it is the configured one.
pub constant_time_eq_iff : (a b : Bytes) → (constant_time_eq a b ≡ true) ↔ (a ≡ b)
unfolding constant_time_eq
constant_time_eq_iff a b = (accepted, accepts)
  where
    accepted : constant_time_eq a b ≡ true → a ≡ b
    accepted h = elim (Bool-cases (length a == length b)) [
      | inl same ↦ (diff_bytes-zero 0 a b (ground (arith, same)) (ground (arith, same, h))).1
      | inr other ↦ absurd (ground (arith, other, h))
    ]

    accepts : a ≡ b → constant_time_eq a b ≡ true
    accepts e = ground (arith, diff_bytes-same b, e)

-- The digit for a number below 16, in upper case.
abbrev pub hex_digit : ℕ → ℕ
hex_digit n = if ltb n 10 then n + 48 else n + 55

-- Every byte as an escape.
unfoldable pub escape_all : Bytes → Bytes
escape_all [] = []
escape_all (b ∷ bytes) = 37 ∷ hex_digit (b / 16) ∷ hex_digit (b % 16) ∷ escape_all bytes

hex_val-hex_digit : (n : ℕ) → n < 16 → hex_val (hex_digit n) ≡ some n
unfolding hex_val
hex_val-hex_digit n h = ground arith

-- A string whose bytes are all escaped decodes to those bytes.
pub percent_bytes-escape_all :
    (bytes : Bytes) → All (λ b. b < 256) bytes → percent_bytes (escape_all bytes) ≡ bytes
unfolding percent_bytes escape_all
percent_bytes-escape_all [] h = refl
percent_bytes-escape_all (b ∷ bytes) h =
    rw
      (
        hex_val-hex_digit (b / 16) (omega (arith, h.0)),
        hex_val-hex_digit (b % 16) (omega arith),
        percent_bytes-escape_all bytes h.1,
      )
      (ap (λ c. c ∷ bytes) (omega arith))

abbrev IsPlain : ℕ → Type 0
IsPlain b = (b == 43 ≡ false) × (b == 37 ≡ false)

-- A string without '+' and '%' decodes to itself.
pub percent_bytes-plain : (bytes : Bytes) → All IsPlain bytes → percent_bytes bytes ≡ bytes
unfolding percent_bytes
percent_bytes-plain [] h = refl
percent_bytes-plain (b ∷ []) h = rw (h.0.0) refl
percent_bytes-plain (b ∷ c ∷ []) h = rw (h.0.0) (ap (◌∷◌ b) (percent_bytes-plain (c ∷ []) h.1))
percent_bytes-plain (b ∷ c ∷ d ∷ rest) h =
    rw (h.0.0, h.0.1) (ap (◌∷◌ b) (percent_bytes-plain (c ∷ d ∷ rest) h.1))
