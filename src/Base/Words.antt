-- ===== src/Base/Words.antt =====
-- Unsigned 64-bit arithmetic (`u64`, and `usize` on a 64-bit target). A release build wraps.
use Prim.Native.Nat.{ℕ, ◌+◌, ◌-◌, ◌*◌, ◌%◌, ◌^◌, ◌≤◌, ◌<◌}
use mathlib.Core.Path.{◌≡◌}
use native.Mathlib.Omega.{arith}

abbrev pub u64_mod : ℕ
u64_mod = 2 ^ 64

abbrev pub wrapped : ℕ → ℕ
wrapped n = n % 2 ^ 64

abbrev pub add64 : ℕ → ℕ → ℕ
add64 a b = (a + b) % 2 ^ 64

-- `a - b` with wrap-around, for `b < 2 ^ 64`.
abbrev pub sub64 : ℕ → ℕ → ℕ
sub64 a b = (a + 2 ^ 64 - b) % 2 ^ 64

abbrev pub mul64 : ℕ → ℕ → ℕ
mul64 a b = (a * b) % 2 ^ 64

-- `saturating_sub`: it stops at 0, as subtraction on ℕ does.
abbrev pub saturating_sub : ℕ → ℕ → ℕ
saturating_sub a b = a - b

pub add64_exact : (a b : ℕ) → a + b < 2 ^ 64 → add64 a b ≡ a + b
add64_exact a b h = omega arith

pub add64-lt : (a b : ℕ) → add64 a b < 2 ^ 64
add64-lt a b = omega arith

pub sub64_exact : (a b : ℕ) → b ≤ a → a < 2 ^ 64 → sub64 a b ≡ a - b
sub64_exact a b h k = omega arith
