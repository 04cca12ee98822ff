-- ===== src/Storage/Sizing/Powers.antt =====
-- The word's binary length, and the powers of two around a number.
use falcon_cache.Base.{
  ℕ, zero, suc, ◌-◌, ◌*◌, ◌/◌, ◌^◌, ◌≤◌, ◌<◌, max, ◌≡◌, arith, ◌==◌, Bool-cases, inl, inr, u64_mod,
}
use native.Mathlib.Nat.{pow-suc}
use falcon_cache.Storage.Sizing.{bit_length, leading_zeros, prev_power_of_two}

-- A number stands below 2 to its length, and at or above half of that.
pub bit_length_bounds :
    (fuel n : ℕ)
    → n < 2 ^ fuel
    → (n < 2 ^ bit_length fuel n)
      × (bit_length fuel n ≤ fuel)
      × (2 ^ bit_length fuel n ≤ max (2 * n) 1)
unfolding bit_length
bit_length_bounds zero n h = (h, omega arith, omega arith)
bit_length_bounds (suc fuel) n h = elim (Bool-cases (n == 0)) [
  | inl none_left ↦ rw none_left (ground arith, omega arith, omega arith)
  | inr more ↦
      let b = bit_length fuel (n / 2) in
      let (above, small, below) = bit_length_bounds fuel (n / 2) (omega (arith, pow-suc 2 fuel)) in
      rw more (omega (arith, pow-suc 2 b), omega arith, ground (arith, pow-suc 2 b))
]

bit_length_pos : (fuel n : ℕ) → 0 < n → n < 2 ^ fuel → 0 < bit_length fuel n
unfolding bit_length
bit_length_pos zero n pos h = absurd (omega arith)
bit_length_pos (suc fuel) n pos h = ground arith

prev_exponent : (n : ℕ) → 0 < n → n < u64_mod → suc (64 - 1 - leading_zeros n) ≡ bit_length 64 n
unfolding leading_zeros
prev_exponent n pos fits =
    let (above, small, below) = bit_length_bounds 64 n fits in
    omega (arith, bit_length_pos 64 n pos fits)

-- The largest power of two that is at most `n`.
pub prev_power_of_two_bounds :
    (n : ℕ) → 0 < n → n < u64_mod → (prev_power_of_two n ≤ n) × (n < 2 * prev_power_of_two n)
unfolding prev_power_of_two
prev_power_of_two_bounds n pos fits =
    let (above, small, below) = bit_length_bounds 64 n fits in
    let doubled : 2 ^ bit_length 64 n ≡ 2 ^ (64 - 1 - leading_zeros n) * 2 =
      rw (← prev_exponent n pos fits) (pow-suc 2 _) in
    (omega (arith, doubled), omega (arith, doubled))
