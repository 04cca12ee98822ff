-- ===== src/Storage/Engine/Budget.antt =====
-- The memory bound: all shards together hold no more than the configured capacity.
use falcon_cache.Base.{
  ℕ, zero, suc, ◌/◌, ◌≤◌, ◌≡◌, refl, max, List, [], ◌∷◌, arith, length, All, sum_of, sum_of-le,
}
use native.Mathlib.Nat.{mul-div-le}
use falcon_cache.Storage.Shard.{Shard, EntryMap, charge}
use falcon_cache.Storage.Engine.{CacheEngine}
use falcon_cache.Storage.Engine.Running.{IsShare, IsRunning}

-- A shard with less room than one entry needs holds none.
charge-none : (m : EntryMap) → sum_of charge m ≤ 1 → sum_of charge m ≡ 0
charge-none [] h = refl
charge-none (p ∷ m) h = absurd (omega arith)

share-bytes : (per_shard : ℕ) (s : Shard) → IsShare (max per_shard 1) s → s.inner.bytes ≤ per_shard
share-bytes zero s h =
    omega (arith, h.sound.within, h.capacity, h.sound.valid.bytes, charge-none s.inner.entries)
share-bytes (suc n) s h = omega (arith, h.sound.within, h.capacity)

shares-bytes :
    (per_shard : ℕ) (xs : List Shard)
    → All (IsShare (max per_shard 1)) xs
    → All (λ s. s.inner.bytes ≤ per_shard) xs
shares-bytes per_shard [] h = tt
shares-bytes per_shard (s ∷ xs) h = (share-bytes per_shard s h.0, shares-bytes per_shard xs h.1)

counted :
    (per_shard : ℕ) (xs : List Shard)
    → All (IsShare (max per_shard 1)) xs
    → sum_of (λ s. sum_of charge s.inner.entries) xs ≡ sum_of (λ s. s.inner.bytes) xs
counted per_shard [] h = refl
counted per_shard (s ∷ xs) h = omega (arith, h.0.sound.valid.bytes, counted per_shard xs h.1)

-- The entries of the shards of a running engine take no more than `capacity_bytes` together: the
-- rounding of the shares never adds up to more.
pub IsRunning-budget :
    (capacity_bytes : ℕ) (e : CacheEngine)
    → IsRunning capacity_bytes e
    → sum_of (λ s. sum_of charge s.inner.entries) e.shards ≤ capacity_bytes
IsRunning-budget capacity_bytes e h =
    let n = length e.shards in
    omega (
      arith,
      sum_of-le (λ s. s.inner.bytes) (capacity_bytes / n) e.shards
          (shares-bytes (capacity_bytes / n) e.shards h.shares),
      counted (capacity_bytes / n) e.shards h.shares,
      mul-div-le capacity_bytes n,
      h.routed,
    )
