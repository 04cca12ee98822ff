-- ===== src/Storage/Engine/Running.antt =====
-- The engine between operations: every shard is sound, the mask fits the shards, and every shard
-- has the same share of the budget.
use falcon_cache.Base.{
  ℕ, zero, suc, ◌+◌, ◌/◌, ◌<◌, ◌≡◌, refl, ap, ◌∙◌, max, some, arith, length, set, get_elem?, All,
  All-set, All-get_elem?, get_elem?_of_lt, length-set, u64_mod,
}
use falcon_cache.Base.Bits.{bit_and-le}
use falcon_cache.Storage.Table.{get}
use falcon_cache.Base.Equality.{byte_string_eq}
use falcon_cache.Storage.Shard.{Bytes, Shard}
use falcon_cache.Storage.Shard.Stamps.{IsSound}
use falcon_cache.Storage.Sizing.{shard_count}
use falcon_cache.Storage.Sizing.Bounds.{shard_count_size}
use falcon_cache.Storage.Engine.{
  CacheEngine, CacheOptions, new_shard, new_shards, with_options, shard_of, on_shard,
}

-- A sound shard with the budget `per_shard`.
pub record IsShare (per_shard : ℕ) (s : Shard) : Type 0 where
  pub sound : IsSound s
  pub capacity : s.capacity ≡ per_shard

pub record IsRunning (capacity_bytes : ℕ) (e : CacheEngine) : Type 0 where
  pub shares : All (IsShare (max (capacity_bytes / length e.shards) 1)) e.shards
  pub routed : length e.shards ≡ suc e.shard_mask
  pub sampled : 0 < e.evict_sample

pub new_shard-IsShare : (per_shard i : ℕ) → IsShare per_shard (new_shard per_shard i)
unfolding get
new_shard-IsShare per_shard i = record {
  sound = record {
    valid = record {
      distinct = tt;
      fits = omega arith;
      bytes = refl;
      ttl_keys = refl;
      bytes_hint = refl;
      ttl_hint = refl;
    };
    stamped = λ k e held. ground arith;
    within = omega arith;
  };
  capacity = refl;
}

new_shards-IsShare : (per_shard i n : ℕ) → All (IsShare per_shard) (new_shards per_shard i n)
unfolding new_shards
new_shards-IsShare per_shard i zero = tt
new_shards-IsShare per_shard i (suc n) =
    (new_shard-IsShare per_shard i, new_shards-IsShare per_shard (i + 1) n)

pub length-new_shards : (per_shard i n : ℕ) → length (new_shards per_shard i n) ≡ n
unfolding new_shards
length-new_shards per_shard i zero = refl
length-new_shards per_shard i (suc n) = ap suc (length-new_shards per_shard (i + 1) n)

-- `with_options` builds an engine that is ready to run, whatever the options.
pub with_options-IsRunning :
    (opts : CacheOptions)
    → opts.capacity_bytes < u64_mod
    → IsRunning opts.capacity_bytes (with_options opts)
unfolding with_options
with_options-IsRunning opts small =
    let n = shard_count opts.capacity_bytes opts.parallelism in
    let count = length-new_shards (max (opts.capacity_bytes / n) 1) 0 n in
    let size = shard_count_size opts.capacity_bytes opts.parallelism in
    record {
      shares = rw count (new_shards-IsShare (max (opts.capacity_bytes / n) 1) 0 n);
      routed = omega (arith, count, size);
      sampled = omega arith;
    }

shard_of-lt :
    (hash : Bytes → ℕ) (capacity_bytes : ℕ) (key : Bytes) (e : CacheEngine)
    → IsRunning capacity_bytes e
    → shard_of hash key e.shard_mask < length e.shards
unfolding shard_of
shard_of-lt hash capacity_bytes key e h =
    omega (arith, bit_and-le (hash key) e.shard_mask, h.routed)

module _ {ℓ} {A : Type ℓ} (hash : Bytes → ℕ) where
  -- What an operation on the key's shard does to a running engine.
  pub record Routing (capacity_bytes : ℕ) (key : Bytes) (e : CacheEngine) (op : Shard → Shard × A)
      : Type ℓ where
    pub shard : Shard
    pub found : get_elem? e.shards (shard_of hash key e.shard_mask) ≡ some shard
    pub share : IsShare (max (capacity_bytes / length e.shards) 1) shard
    pub bounds : shard_of hash key e.shard_mask < length e.shards
    pub result :
        on_shard hash key e op
        ≡ some (
          record e { shards = set e.shards (shard_of hash key e.shard_mask) (op shard).0 },
          (op shard).1,
        )
    pub running :
        IsShare (max (capacity_bytes / length e.shards) 1) (op shard).0
        → IsRunning capacity_bytes
            (record e { shards = set e.shards (shard_of hash key e.shard_mask) (op shard).0 })

  -- The key's shard is never out of bounds.
  pub on_shard-Routing :
      (capacity_bytes : ℕ) (key : Bytes) (e : CacheEngine) (op : Shard → Shard × A)
      → IsRunning capacity_bytes e
      → Routing capacity_bytes key e op
  on_shard-Routing capacity_bytes key e op h =
      let i = shard_of hash key e.shard_mask in
      let bounds : i < length e.shards = shard_of-lt hash capacity_bytes key e h in
      let (s, found) = get_elem?_of_lt e.shards i bounds in
      record {
        shard = s;
        found = found;
        share = All-get_elem? _ e.shards i h.shares found;
        bounds = bounds;
        result = rw (found, on_shard) refl;
        running = λ kept. record {
          shares =
              rw (length-set e.shards i (op s).0) (All-set _ e.shards i (op s).0 h.shares kept);
          routed = length-set e.shards i (op s).0 ∙ h.routed;
          sampled = h.sampled;
        };
      }
