-- ===== src/Storage/Engine/History/Budget.antt =====
-- The memory bound over the operations of an engine.
use falcon_cache.Base.{ℕ, ◌+◌, ◌≤◌, ◌<◌, ◌≡◌, refl, List, [], ◌∷◌, length, sum_of, u64_mod, arith}
use falcon_cache.Storage.Shard.{Bytes, Entry, EntryMap, Shard, charge}
use falcon_cache.Storage.Engine.{CacheOptions, CacheEngine}
use falcon_cache.Storage.Engine.Budget.{IsRunning-budget}
use falcon_cache.Storage.Shard.Kept.{Ledger}
use falcon_cache.Storage.Engine.History.{History, History-IsFaithful}

-- An entry takes its key, its value and 96 bytes.
abbrev pub footprint : Bytes × Entry → ℕ
footprint (key, entry) = length key + length entry.value + 96

footprint-charge : (m : EntryMap) → sum_of footprint m ≡ sum_of charge m
footprint-charge [] = refl
footprint-charge ((key, entry) ∷ m) = omega (arith, footprint-charge m)

footprints-charge :
    (xs : List Shard)
    → sum_of (λ s. sum_of footprint s.inner.entries) xs
      ≡ sum_of (λ s. sum_of charge s.inner.entries) xs
footprints-charge [] = refl
footprints-charge (s ∷ xs) = omega (arith, footprint-charge s.inner.entries, footprints-charge xs)

-- After any writes, reads, deletions and sweeps of a new engine, the entries of all shards, each
-- with 96 bytes of overhead, take no more than the configured capacity, whatever was written. The
-- capacity is a machine word, a write has room in the words of its shard, and a read has a stamp
-- left.
pub History-budget :
    (hash : Bytes → ℕ) (opts : CacheOptions) (ledger : Ledger) (e : CacheEngine)
    → opts.capacity_bytes < u64_mod
    → History hash opts ledger e
    → sum_of (λ s. sum_of footprint s.inner.entries) e.shards ≤ opts.capacity_bytes
History-budget hash opts ledger e small past = omega (
  arith,
  footprints-charge e.shards,
  IsRunning-budget opts.capacity_bytes e (History-IsFaithful hash opts small past).running,
)
