-- ===== src/Core/Auth/Digits.antt =====
-- When the bits of two numbers are all zero, and when they are all the same.
use Prim.Native.Nat.{bit_or, bit_xor, digits, differ, bit_or-bitwise, bit_xor-bitwise}
use falcon_cache.Base.{ℕ, zero, suc, ◌/◌, ◌%◌, ◌≤◌, ◌≡◌, refl, max, arith}

joined-zero : (fuel x y : ℕ) → x ≤ fuel → digits (λ rest. rest) max fuel x y ≡ 0 → (x ≡ 0) × (y ≡ 0)
joined-zero zero x y enough h = (omega arith, h)
joined-zero (suc fuel) zero y enough h = (refl, h)
joined-zero (suc fuel) (suc x) y enough h =
    let (a, b) = joined-zero fuel (suc x / 2) (y / 2) (omega arith) (omega (arith, h)) in
    (omega (arith, a, h), omega (arith, b, h))

-- `bit_or` is zero only of two zeros.
pub bit_or-zero : (x y : ℕ) → bit_or x y ≡ 0 → (x ≡ 0) × (y ≡ 0)
bit_or-zero x y h = joined-zero x x y (omega arith) (omega (arith, bit_or-bitwise x y, h))

digit-same : (x y : ℕ) → differ (x % 2) (y % 2) ≡ 0 → x % 2 ≡ y % 2
digit-same x y h = ground (arith, h)

split-same : (fuel x y : ℕ) → x ≤ fuel → digits (λ rest. rest) differ fuel x y ≡ 0 → x ≡ y
split-same zero x y enough h = omega (arith, h)
split-same (suc fuel) zero y enough h = omega (arith, h)
split-same (suc fuel) (suc x) y enough h =
    let same = split-same fuel (suc x / 2) (y / 2) (omega arith) (omega (arith, h)) in
    omega (arith, same, digit-same (suc x) y (omega (arith, h)))

-- `bit_xor` is zero only of equal numbers.
pub bit_xor-zero : (x y : ℕ) → bit_xor x y ≡ 0 → x ≡ y
bit_xor-zero x y h = split-same x x y (omega arith) (omega (arith, bit_xor-bitwise x y, h))

differ_self : (x : ℕ) → differ x x ≡ 0
differ_self zero = refl
differ_self (suc x) = differ_self x

split_self : (fuel x : ℕ) → x ≤ fuel → digits (λ rest. rest) differ fuel x x ≡ 0
split_self zero x enough = omega arith
split_self (suc fuel) zero enough = refl
split_self (suc fuel) (suc x) enough =
    omega (arith, split_self fuel (suc x / 2) (omega arith), differ_self (suc x % 2))

pub bit_xor_self : (x : ℕ) → bit_xor x x ≡ 0
bit_xor_self x = omega (arith, bit_xor-bitwise x x, split_self x x (omega arith))
