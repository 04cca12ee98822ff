-- ===== src/Storage/Engine/Tests.antt =====
-- Runs of the engine at fixed inputs.
use falcon_cache.Base.{
  ℕ, ◌+◌, ◌<◌, ◌≤◌, ◌≡◌, refl, true, none, some, [], ◌∷◌, arith, u64_mod, get_elem?,
}
use falcon_cache.Base.Equality.{byte_string_eq}
use falcon_cache.Storage.Table.{get, put}
use falcon_cache.Storage.Shard.{Bytes, Shard}
use falcon_cache.Storage.Shard.Reads.{live_value}
use falcon_cache.Storage.Engine.{
  CacheEngine, new_shard, with_options, insert, get_shared, delete, shard_of,
}
use falcon_cache.Storage.Engine.Running.{
  IsShare, IsRunning, new_shard-IsShare, with_options-IsRunning,
}
use falcon_cache.Storage.Engine.Operations.{
  HasRoom, held_at, is_some, get_shared-IsRunning, delete-IsRunning, insert-get_shared,
}
use falcon_cache.Storage.Pacer.{new, observe, min_delay, max_delay, start, turn, Paced-bounds}
use native.Mathlib.Nat.{dvd_of_mod-eq-zero}
use falcon_cache.Storage.Engine.Sweeping.{IsClean}
use falcon_cache.Storage.Engine.Cycle.{turns, turns-live}

-- A stand-in for the hash: the first byte.
abbrev pub first_byte : Bytes → ℕ
first_byte [] = 0
first_byte (b ∷ key) = b

-- Two empty shards of 500 bytes.
abbrev pub small : CacheEngine
small = record {
  shards = new_shard 500 0 ∷ new_shard 500 1 ∷ [];
  shard_mask = 1;
  evict_sample = 5;
  listening = true;
  delivered = [];
  sweep_cursor = 0;
}

pub small-IsRunning : IsRunning 1000 small
small-IsRunning = record {
  shares = (new_shard-IsShare 500 0, (new_shard-IsShare 500 1, tt));
  routed = refl;
  sampled = omega arith;
}

small-HasRoom :
    (s : Shard)
    → get_elem? small.shards (shard_of first_byte (3 ∷ []) small.shard_mask) ≡ some s
    → HasRoom (3 ∷ []) (30 ∷ []) 0 5 s
unfolding shard_of put get
small-HasRoom s found = ground arith

small-ticks :
    (s : Shard)
    → get_elem? small.shards (shard_of first_byte (3 ∷ []) small.shard_mask) ≡ some s
    → s.counters.clock + 1 < u64_mod
unfolding shard_of
small-ticks s found = ground arith

with_options-IsRunning_example :
    IsRunning 268435456
      (with_options (record { capacity_bytes = 268435456; evict_sample = 5; parallelism = 8 }))
with_options-IsRunning_example =
    with_options-IsRunning
      (record { capacity_bytes = 268435456; evict_sample = 5; parallelism = 8 }) (omega arith)

get_shared-IsRunning_example :
    (after : CacheEngine) × (get_shared first_byte (3 ∷ []) 100 small
      ≡ some (after, live_value 100 (held_at first_byte (3 ∷ []) small)))
    × IsRunning 1000 after
get_shared-IsRunning_example =
    get_shared-IsRunning first_byte 1000 (3 ∷ []) 100 small small-IsRunning small-ticks

delete-IsRunning_example :
    (after : CacheEngine) × (delete first_byte (3 ∷ []) small
      ≡ some (after, is_some (held_at first_byte (3 ∷ []) small)))
    × IsRunning 1000 after
    × (held_at first_byte (3 ∷ []) after ≡ none)
delete-IsRunning_example = delete-IsRunning first_byte 1000 (3 ∷ []) small small-IsRunning

insert-get_shared_example :
    (after : CacheEngine) × (insert first_byte (3 ∷ []) (30 ∷ []) 0 100 small ≡ some after)
    × IsRunning 1000 after
    × ((final : CacheEngine) × (get_shared first_byte (3 ∷ []) 7000 after
          ≡ some (final, some (30 ∷ []))))
insert-get_shared_example =
    insert-get_shared first_byte 1000 (3 ∷ []) (30 ∷ []) 0 100 7000 small small-IsRunning
      small-HasRoom (omega arith) (omega arith) refl refl

Paced-bounds_example :
    (min_delay ≤ (observe 3 (new 17)).delay) × ((observe 3 (new 17)).delay ≤ max_delay)
Paced-bounds_example = Paced-bounds (turn 3 (new 17).rng (start 17))

-- An entry that expires at 50, in an engine whose cursor stands at the other shard.
abbrev dated : Shard
dated =
    let s = new_shard 500 1 in
    record s {
      inner = record (s.inner) {
        entries = (3 ∷ [], record { value = 30 ∷ []; last_access = 0; expires_at = 50 }) ∷ [];
        bytes = 98;
        ttl_keys = 1;
      };
      bytes_hint = 98;
      ttl_hint = 1;
      counters = record (s.counters) { clock = 1 };
    }

dated-IsShare : IsShare 500 dated
unfolding get
dated-IsShare = record {
  sound = record {
    valid = record {
      distinct = (refl, tt);
      fits = omega arith;
      bytes = refl;
      ttl_keys = refl;
      bytes_hint = refl;
      ttl_hint = refl;
    };
    stamped = λ k e held. ground arith;
    within = omega arith;
  };
  capacity = refl;
}

abbrev stale : CacheEngine
stale = record small { shards = new_shard 500 0 ∷ dated ∷ []; sweep_cursor = 6 }

stale-IsRunning : IsRunning 1000 stale
stale-IsRunning = record {
  shares = (new_shard-IsShare 500 0, (dated-IsShare, tt));
  routed = refl;
  sampled = omega arith;
}

turns-live_example :
    (final : CacheEngine) × (turns (λ i m. 100) 0 2 stale (new 5) ≡ some final)
    × IsRunning 1000 final
    × ((j : ℕ) (s : Shard) → get_elem? final.shards j ≡ some s → IsClean 100 s)
turns-live_example =
    turns-live 1000 100 (λ i m. 100) 2 stale (new 5) (λ i m. omega arith) stale-IsRunning
      (dvd_of_mod-eq-zero 2 refl) (omega arith)
