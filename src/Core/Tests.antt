-- ===== src/Core/Tests.antt =====
-- Runs of the core at fixed inputs.
use falcon_cache.Base.{
  ◌+◌, ◌+◌, ◌*◌, ◌≤◌, ◌*◌, List, ◌≤◌, ◌≡◌, ◌↔◌, refl, true, none, some, [], ◌∷◌, arith, get_elem?,
}
use falcon_cache.Base.Equality.{byte_string_eq}
use falcon_cache.Storage.Table.{put, get as lookup_table}
use falcon_cache.Storage.Shard.{Bytes, Shard}
use falcon_cache.Storage.Engine.{shard_of}
use falcon_cache.Storage.Engine.Operations.{HasRoom}
use falcon_cache.Storage.Engine.Tests.{small, small-IsRunning, first_byte}
use falcon_cache.Core.Auth.{constant_time_eq}
use falcon_cache.Core.Auth.Laws.{constant_time_eq_iff}
use falcon_cache.Base.Text.{text}
use falcon_cache.Core.Resources.{
  parse_meminfo_total, parse_limit, MemoryLimit, MemorySource, auto_capacity_bytes,
  auto_capacity_bytes-bounds,
}
use falcon_cache.Core.Config.{KeyspaceConfig}
use falcon_cache.Core.Keyspace.{Keyspace, new_keyspace, expiry, put_with_ttl, get, put_with_ttl-get}

abbrev guess : Bytes
guess = 1 ∷ 2 ∷ []

abbrev token : Bytes
token = 1 ∷ 3 ∷ []

constant_time_eq_iff_example : (constant_time_eq guess token ≡ true) ↔ (guess ≡ token)
constant_time_eq_iff_example = constant_time_eq_iff guess token

abbrev sixty : Keyspace
sixty = new_keyspace small 60

sixty-HasRoom :
    (s : Shard)
    → get_elem? small.shards (shard_of first_byte (3 ∷ []) small.shard_mask) ≡ some s
    → HasRoom (3 ∷ []) (30 ∷ []) (expiry 100 60000) 5 s
unfolding shard_of put lookup_table expiry
sixty-HasRoom s found = ground arith

put_with_ttl-get_example :
    (after : Keyspace) × (put_with_ttl first_byte (3 ∷ []) (30 ∷ []) none 100 101 sixty
      ≡ some after)
    × ((final : Keyspace) × (get first_byte (3 ∷ []) 60099 after ≡ some (final, some (30 ∷ []))))
put_with_ttl-get_example =
    put_with_ttl-get first_byte 1000 (3 ∷ []) (30 ∷ []) none 100 101 60099 sixty small-IsRunning
      sixty-HasRoom (omega arith) (omega arith) (omega arith) (omega arith) refl refl

abbrev container : MemoryLimit
container = record { bytes = 1024 * 1024 * 1024; source = MemorySource.cgroup_v2 }

auto_capacity_bytes-bounds_example :
    (67108864 ≤ 751619260)
    × (751619260 * 100 ≤ container.bytes * 70)
    × (751619260 + 268435456 ≤ container.bytes)
unfolding auto_capacity_bytes
auto_capacity_bytes-bounds_example = auto_capacity_bytes-bounds container 751619260 refl

abbrev sized : List KeyspaceConfig
sized =
    record { name = 99 ∷ []; cache_capacity_mb = none; evict_sample = 8; default_ttl_secs = 0 }
    ∷ record { name = 100 ∷ []; cache_capacity_mb = none; evict_sample = 8; default_ttl_secs = 0 }
    ∷ []

meminfo :
    parse_meminfo_total
      (text "MemFree:  1 kB\nMemTotal:       16384000 kB\nMemFree:         100 kB\n")
    ≡ some (16384000 * 1024)
unfolding parse_meminfo_total
meminfo = refl

limit_file : parse_limit (text "536870912\n") ≡ some 536870912
unfolding parse_limit
limit_file = refl
