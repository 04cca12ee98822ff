-- ===== src/Base/Int.antt =====
-- `isize` deltas as integers, and `usize::saturating_add_signed`.
use Prim.Native.Nat.{ℕ, suc, ◌+◌, ◌-◌, ◌^◌, min}
use falcon_cache.Base.Tests.{leb, if◌then◌else◌}

-- `negsuc n` is -(n + 1).
pub data ℤ : Type 0 where
  pos : ℕ → ℤ
  negsuc : ℕ → ℤ

-- a - b, as an integer.
abbrev pub sub_ℕ : ℕ → ℕ → ℤ
sub_ℕ a b = if leb b a then pos (a - b) else negsuc (b - a - 1)

-- It stops at 0 and at `usize::MAX`.
abbrev pub saturating_add_signed : ℕ → ℤ → ℕ
saturating_add_signed n (pos d) = min (n + d) (2 ^ 64 - 1)
saturating_add_signed n (negsuc d) = n - suc d
