-- ===== src/Base/Bits.antt =====
-- Facts about the bit operations that hold of every number, by recursion on their digits.
use Prim.Native.Nat.{ℕ, zero, suc, ◌/◌, ◌≤◌, min, bit_and, digits, bit_and-bitwise}
use native.Mathlib.Omega.{arith}

masked-le : (fuel x mask : ℕ) → digits (λ rest. 0) min fuel x mask ≤ mask
masked-le zero x mask = omega arith
masked-le (suc fuel) zero mask = omega arith
masked-le (suc fuel) (suc x) mask = omega (arith, masked-le fuel (suc x / 2) (mask / 2))

-- Masking never passes the mask.
pub bit_and-le : (x mask : ℕ) → bit_and x mask ≤ mask
bit_and-le x mask = omega (arith, bit_and-bitwise x mask, masked-le x x mask)
