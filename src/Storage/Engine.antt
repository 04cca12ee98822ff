-- ===== src/Storage/Engine.antt =====
-- `CacheEngine`: the shards, the routing of keys to them, and the operations on the whole cache
-- (crates/falcon-storage/src/cache.rs). `none` stands for an index out of bounds, which panics.
-- Every reading of the clock is an argument.
pub mod Running
pub mod Operations
pub mod Budget
pub mod Counts
pub mod Sweeping
pub mod Cycle
pub mod Ledger
pub mod History
pub mod Tests
use Prim.Native.Nat.{bit_and, bit_or}
use falcon_cache.Base.{
  ℕ, zero, suc, ◌+◌, ◌-◌, ◌*◌, ◌/◌, ◌%◌, ◌≤◌, ◌≡◌, min, max, Bool, true, false, Option, none, some,
  List, [], ◌∷◌, ◌++◌, length, set, get_elem?, if◌then◌else◌, wrapped, add64, mul64, sum_of, All,
}
use falcon_cache.Storage.Sizing.{shard_count}
use falcon_cache.Storage.Shard.{
  Bytes, Shard, ShardInner, ShardCounters, Removal, has_expiry, flag, ttl_weight,
}
use falcon_cache.Storage.Shard.Writes.{remove_key}
use falcon_cache.Storage.Shard.Lookup.{lookup as lookup_shard}
use falcon_cache.Storage.Shard.Insert.{insert as insert_shard}
use falcon_cache.Storage.Shard.Reap.{reap_shard}

pub record CacheOptions : Type 0 where
  pub capacity_bytes : ℕ
  pub evict_sample : ℕ
  pub parallelism : ℕ

-- `listening` says whether a listener is installed; `delivered` is what it has been told.
pub record CacheEngine : Type 0 where
  pub shards : List Shard
  pub shard_mask : ℕ
  pub evict_sample : ℕ
  pub listening : Bool
  pub delivered : List Removal
  pub sweep_cursor : ℕ

pub record CacheStats : Type 0 where
  pub hits : ℕ
  pub misses : ℕ
  pub evictions : ℕ
  pub expired : ℕ
  pub keys : ℕ
  pub bytes : ℕ

abbrev pub new_shard : ℕ → ℕ → Shard
new_shard per_shard i = record {
  inner = record {
    entries = [];
    bytes = 0;
    ttl_keys = 0;
    rng = bit_or (mul64 0x9E3779B97F4A7C15 (i + 1)) 1;
  };
  counters = record { hits = 0; misses = 0; evictions = 0; expired = 0; clock = 0 };
  capacity = per_shard;
  bytes_hint = 0;
  ttl_hint = 0;
}

-- The shards `i`, `i + 1`, … .
unfoldable pub new_shards : ℕ → ℕ → ℕ → List Shard
new_shards per_shard i zero = []
new_shards per_shard i (suc n) = new_shard per_shard i ∷ new_shards per_shard (i + 1) n

unfoldable pub with_options : CacheOptions → CacheEngine
unfolding new_shards
with_options opts =
    let n_shards = shard_count opts.capacity_bytes opts.parallelism in
    let per_shard = max (opts.capacity_bytes / n_shards) 1 in
    record {
      shards = new_shards per_shard 0 n_shards;
      shard_mask = n_shards - 1;
      evict_sample = max opts.evict_sample 1;
      listening = false;
      delivered = [];
      sweep_cursor = 0;
    }

-- `CacheOptions::default`, on a machine with that many cores.
abbrev pub default_options : ℕ → CacheOptions
default_options cores = record {
  capacity_bytes = 256 * 1024 * 1024;
  evict_sample = 8;
  parallelism = cores;
}

-- `CacheEngine::new`
unfoldable pub new_engine : ℕ → ℕ → ℕ → CacheEngine
unfolding with_options
new_engine cores capacity_bytes evict_sample = with_options (record (default_options cores) {
  capacity_bytes = capacity_bytes;
  evict_sample = evict_sample;
})

-- From the milliseconds since 1970, unless the clock stands before that.
abbrev pub now_millis_u64 : Option ℕ → ℕ
now_millis_u64 none = 0
now_millis_u64 (some millis) = wrapped millis

unfoldable pub set_eviction_listener : CacheEngine → CacheEngine
set_eviction_listener e = record e { listening = true }

unfoldable pub notify_removed : List Removal → CacheEngine → CacheEngine
notify_removed removed e =
    if e.listening then record e { delivered = e.delivered ++ removed } else e

abbrev pub add_shard_stats : Shard → CacheStats → CacheStats
add_shard_stats s out = record {
  hits = add64 out.hits s.counters.hits;
  misses = add64 out.misses s.counters.misses;
  evictions = add64 out.evictions s.counters.evictions;
  expired = add64 out.expired s.counters.expired;
  keys = add64 out.keys (length s.inner.entries);
  bytes = add64 out.bytes s.inner.bytes;
}

unfoldable pub sum_stats : List Shard → CacheStats → CacheStats
sum_stats [] out = out
sum_stats (s ∷ rest) out = sum_stats rest (add_shard_stats s out)

unfoldable pub stats : CacheEngine → CacheStats
unfolding sum_stats
stats e =
    sum_stats e.shards
      (record { hits = 0; misses = 0; evictions = 0; expired = 0; keys = 0; bytes = 0 })

-- `reap_expired` over the shards from the `i`th on; `times i` is the clock's reading there.
unfoldable pub reap_each : (ℕ → ℕ) → ℕ → List Shard → List Removal → List Shard × List Removal
reap_each times i [] removed = ([], removed)
reap_each times i (s ∷ rest) removed =
    let (t, removed') = reap_shard (times i) s removed in
    let (done, removed'') = reap_each times (i + 1) rest removed' in (t ∷ done, removed'')

unfoldable pub reap_expired : (ℕ → ℕ) → CacheEngine → CacheEngine
unfolding reap_each notify_removed
reap_expired times e =
    let (shards, removed) = reap_each times 0 e.shards [] in
    notify_removed removed (record e { shards = shards })

-- The rounds of `reap_some` that are left, from the `i`th on.
unfoldable pub reap_from :
    (ℕ → ℕ) → ℕ → ℕ → ℕ → List Shard → List Removal → Option (List Shard × List Removal)
reap_from times start i zero shards removed = some (shards, removed)
reap_from times start i (suc left) shards removed =
    let idx = wrapped (start + i) % length shards in
    elim (get_elem? shards idx) [
      | none ↦ none
      | some s ↦
          let (t, removed') = reap_shard (times i) s removed in
          reap_from times start (i + 1) left (set shards idx t) removed'
    ]

-- The engine, and how many entries were reclaimed.
unfoldable pub reap_some : (ℕ → ℕ) → ℕ → CacheEngine → Option (CacheEngine × ℕ)
unfolding reap_from notify_removed
reap_some times count e =
    elim (reap_from times e.sweep_cursor 0 (min count (length e.shards)) e.shards []) [
      | none ↦ none
      | some (shards, removed) ↦ some (
        notify_removed removed
            (record e { shards = shards; sweep_cursor = add64 e.sweep_cursor count }),
        length removed,
      )
    ]

unfoldable pub tracked_ttl_keys : CacheEngine → ℕ
tracked_ttl_keys e = wrapped (sum_of (λ s. s.ttl_hint) e.shards)

unfoldable pub count_ttl_keys_by_scan : CacheEngine → ℕ
count_ttl_keys_by_scan e = wrapped (sum_of (λ s. sum_of ttl_weight s.inner.entries) e.shards)

abbrev pub notifying : Option (CacheEngine × List Removal) → Option CacheEngine
notifying none = none
notifying (some (e, removed)) = some (notify_removed removed e)

abbrev pub notifying_read :
    Option (CacheEngine × (Option Bytes × List Removal)) → Option (CacheEngine × Option Bytes)
notifying_read none = none
notifying_read (some (e, (value, removed))) = some (notify_removed removed e, value)

-- `hash` is the standard library's SipHash of the key, which is not modelled.
module _ (hash : Bytes → ℕ) where
  unfoldable pub shard_of : Bytes → ℕ → ℕ
  shard_of key mask = bit_and (hash key) mask

  -- Runs an operation on the key's shard.
  abbrev pub on_shard {ℓ} :
      {A : Type ℓ} → Bytes → CacheEngine → (Shard → Shard × A) → Option (CacheEngine × A)
  on_shard key e op = elim (get_elem? e.shards (shard_of key e.shard_mask)) [
    | none ↦ none
    | some s ↦
        let (t, a) = op s in
        some (record e { shards = set e.shards (shard_of key e.shard_mask) t }, a)
  ]

  unfoldable pub insert : Bytes → Bytes → ℕ → ℕ → CacheEngine → Option CacheEngine
  insert key value expires_at now e =
      notifying (on_shard key e (insert_shard key value expires_at now e.evict_sample))

  unfoldable pub get_shared : Bytes → ℕ → CacheEngine → Option (CacheEngine × Option Bytes)
  get_shared key now e = notifying_read (
      on_shard key e
        (λ s. let (t, value, removed) = lookup_shard key now s in (t, (value, removed))))

  unfoldable pub put : Bytes → Bytes → ℕ → CacheEngine → Option CacheEngine
  unfolding insert
  put key value now e = insert key value 0 now e

  unfoldable pub put_with_expiry : Bytes → Bytes → ℕ → ℕ → CacheEngine → Option CacheEngine
  unfolding insert
  put_with_expiry key value expires_at now e = insert key value expires_at now e

  unfoldable pub delete : Bytes → CacheEngine → Option (CacheEngine × Bool)
  delete key e = on_shard key e (remove_key key)
