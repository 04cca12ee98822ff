-- ===== src/Storage/Engine/History/Tests.antt =====
-- A write and a hit on a new engine.
use falcon_cache.Base.{
  sum_of, ℕ, zero, suc, ◌+◌, ◌/◌, ◌≤◌, ◌≡◌, refl, max, false, none, some, [], ◌∷◌, arith, length,
  get_elem?,
}
use falcon_cache.Base.Equality.{byte_string_eq}
use falcon_cache.Storage.Sizing.{
  shard_count, next_power_of_two, prev_power_of_two, leading_zeros, bit_length,
}
use falcon_cache.Storage.Table.{get, put}
use falcon_cache.Storage.Shard.{Shard, is_expired}
use falcon_cache.Storage.Engine.{
  CacheOptions, CacheEngine, new_shard, new_shards, with_options, insert, get_shared, shard_of,
}
use falcon_cache.Storage.Engine.Running.{length-new_shards, IsRunning, with_options-IsRunning}
use falcon_cache.Storage.Engine.Operations.{AtShard, HasRoom, insert-get_shared}
use falcon_cache.Storage.Shard.Kept.{written}
use falcon_cache.Storage.Engine.History.{built, inserted, History-get_shared}
use falcon_cache.Storage.Engine.History.Budget.{History-budget, footprint}
use falcon_cache.Storage.Engine.Tests.{first_byte}

abbrev options : CacheOptions
options = record { capacity_bytes = 4000; evict_sample = 5; parallelism = 1 }

abbrev fresh : CacheEngine
fresh = with_options options

new_shards-fresh :
    (per_shard i n j : ℕ) (s : Shard)
    → get_elem? (new_shards per_shard i n) j ≡ some s
    → (m : ℕ) × (s ≡ new_shard per_shard m)
unfolding new_shards
new_shards-fresh per_shard i zero j s found = cc
new_shards-fresh per_shard i (suc n) zero s found = (i, cc)
new_shards-fresh per_shard i (suc n) (suc j) s found =
    new_shards-fresh per_shard (i + 1) n j s found

new_shard-HasRoom : (per_shard i : ℕ) → HasRoom (3 ∷ []) (30 ∷ []) 0 5 (new_shard per_shard i)
unfolding put get
new_shard-HasRoom per_shard i = ground arith

fresh-HasRoom : AtShard first_byte (3 ∷ []) fresh (HasRoom (3 ∷ []) (30 ∷ []) 0 5)
unfolding with_options
fresh-HasRoom s found =
    let n = shard_count 4000 1 in
    let (m, same) =
      new_shards-fresh (max (4000 / n) 1) 0 n (shard_of first_byte (3 ∷ []) fresh.shard_mask) s
        found in
    rw same (new_shard-HasRoom (max (4000 / n) 1) m)

four_shards : shard_count 4000 1 ≡ 4
unfolding shard_count next_power_of_two prev_power_of_two leading_zeros bit_length
four_shards = refl

wide : 97 + 1 ≤ max (4000 / length fresh.shards) 1
unfolding with_options
wide =
    let n = shard_count 4000 1 in
    rw (length-new_shards (max (4000 / n) 1) 0 n, four_shards) (omega arith)

-- The write, which leaves what it wrote, and a read that finds it.
stored :
    (after : CacheEngine) × (insert first_byte (3 ∷ []) (30 ∷ []) 0 100 fresh ≡ some after)
    × IsRunning 4000 after
    × ((final : CacheEngine) × (get_shared first_byte (3 ∷ []) 7000 after
          ≡ some (final, some (30 ∷ []))))
unfolding with_options
stored =
    insert-get_shared first_byte 4000 (3 ∷ []) (30 ∷ []) 0 100 7000 fresh
      (with_options-IsRunning options (omega arith)) fresh-HasRoom (omega arith) wide refl refl

History-get_shared_example :
    (expires_at : ℕ) × (written (3 ∷ []) (30 ∷ [], 0) (λ key. none) (3 ∷ [])
      ≡ some (30 ∷ [], expires_at))
    × (is_expired 7000 (record { value = 30 ∷ []; last_access = 0; expires_at = expires_at })
        ≡ false)
unfolding with_options
History-get_shared_example =
    History-get_shared first_byte options (omega arith)
      (written (3 ∷ []) (30 ∷ [], 0) (λ key. none)) stored.0 stored.3.0 (3 ∷ []) 7000 (30 ∷ [])
      (inserted (3 ∷ []) (30 ∷ []) 0 100 stored.0 built fresh-HasRoom stored.1) stored.3.1

History-budget_example :
    sum_of (λ s. sum_of footprint s.inner.entries) stored.0.shards ≤ options.capacity_bytes
unfolding with_options
History-budget_example =
    History-budget first_byte options (written (3 ∷ []) (30 ∷ [], 0) (λ key. none)) stored.0
      (omega arith) (inserted (3 ∷ []) (30 ∷ []) 0 100 stored.0 built fresh-HasRoom stored.1)
