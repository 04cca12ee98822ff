-- ===== src/Core/Keyspace.antt =====
-- `Keyspace`, an engine with the expiry that a write gets (crates/falcon-core/src/keyspace.rs).
-- Milliseconds are 128-bit words. Every reading of the clock is an argument: `put_with_ttl` reads
-- it at `now` for the expiry, and its eviction reads it again at `evicting`.
use falcon_cache.Base.{
  ℕ, ◌+◌, ◌-◌, ◌*◌, ◌/◌, ◌^◌, ◌≤◌, ◌<◌, ◌≡◌, ◌∙◌, ap, min, max, Bool, true, Option, none, some, ltb,
  ◌==◌, not, ◌&&◌, ◌||◌, if◌then◌else◌, u64_mod, arith, length,
}
use falcon_cache.Storage.Shard.{Bytes, is_expired}
use falcon_cache.Storage.Engine.{CacheEngine, CacheStats, insert, get_shared, delete, stats}
use falcon_cache.Storage.Engine.Running.{IsRunning}
use falcon_cache.Storage.Engine.Operations.{HasRoom, AtShard, insert-get_shared}

pub record Keyspace : Type 0 where
  pub engine : CacheEngine
  pub default_ttl_ms : ℕ

-- `Keyspace::new`
abbrev pub new_keyspace : CacheEngine → ℕ → Keyspace
new_keyspace engine default_ttl_secs = record {
  engine = engine;
  default_ttl_ms = default_ttl_secs * 1000;
}

abbrev pub ttl_ms : Option ℕ → Keyspace → ℕ
ttl_ms none k = k.default_ttl_ms
ttl_ms (some s) k = s * 1000

-- `expires_at` of `put_with_ttl`: a saturating sum, and `u64::MAX` if 64 bits do not hold it.
unfoldable pub expiry : ℕ → ℕ → ℕ
expiry now ttl =
    if ltb 0 ttl
    then (let at = min (now + ttl) (2 ^ 128 - 1) in if ltb at u64_mod then at else u64_mod - 1)
    else 0

abbrev with_engine : Keyspace → Option CacheEngine → Option Keyspace
with_engine k none = none
with_engine k (some e) = some (record k { engine = e })

abbrev with_answer {ℓ} : {A : Type ℓ} → Keyspace → Option (CacheEngine × A) → Option (Keyspace × A)
with_answer k none = none
with_answer k (some (e, a)) = some (record k { engine = e }, a)

module _ (hash : Bytes → ℕ) where
  unfoldable pub put_with_ttl : Bytes → Bytes → Option ℕ → ℕ → ℕ → Keyspace → Option Keyspace
  unfolding expiry
  put_with_ttl key value ttl_secs now evicting k =
      with_engine k (insert hash key value (expiry now (ttl_ms ttl_secs k)) evicting k.engine)

  unfoldable pub put : Bytes → Bytes → ℕ → ℕ → Keyspace → Option Keyspace
  unfolding put_with_ttl
  put key value now evicting k = put_with_ttl key value none now evicting k

  unfoldable pub get : Bytes → ℕ → Keyspace → Option (Keyspace × Option Bytes)
  get key now k = with_answer k (get_shared hash key now k.engine)

  unfoldable pub delete_key : Bytes → Keyspace → Option (Keyspace × Bool)
  delete_key key k = with_answer k (delete hash key k.engine)

abbrev pub keyspace_stats : Keyspace → CacheStats
keyspace_stats k = stats k.engine

-- When an entry with this TTL, written at `now`, is not to be served any more.
abbrev pub lasts : ℕ → ℕ → ℕ → Bool
lasts now ttl later = ttl == 0 || (ltb later (now + ttl) && ltb later (u64_mod - 1))

-- An entry is expired exactly when its TTL is over: never with a TTL of zero, and with another
-- from the write's time plus the TTL on, or from the last moment of 64 bits on if that is sooner.
expiry-is_expired :
    (value : Bytes) (now ttl later : ℕ)
    → now < u64_mod
    → ttl < 2 ^ 127
    → is_expired later (record { value = value; last_access = 0; expires_at = expiry now ttl })
      ≡ not (lasts now ttl later)
unfolding expiry
expiry-is_expired value now ttl later small fits = ground arith

module _ (hash : Bytes → ℕ) (capacity_bytes : ℕ) where
  -- A write with a TTL, the default where none is given, can be read until its time is over: if
  -- there is room, the entry fits its shard's budget alone, two or more entries are sampled, and
  -- the TTL has not run out when the write's own eviction reads the clock.
  pub put_with_ttl-get :
      (key value : Bytes) (ttl_secs : Option ℕ) (now evicting later : ℕ) (k : Keyspace)
      → IsRunning capacity_bytes k.engine
      → AtShard hash key k.engine
          (HasRoom key value (expiry now (ttl_ms ttl_secs k)) k.engine.evict_sample)
      → 2 ≤ k.engine.evict_sample
      → length key + length value + 96 ≤ max (capacity_bytes / length k.engine.shards) 1
      → now < u64_mod
      → ttl_ms ttl_secs k < 2 ^ 127
      → lasts now (ttl_ms ttl_secs k) evicting ≡ true
      → lasts now (ttl_ms ttl_secs k) later ≡ true
      → (after : Keyspace) × (put_with_ttl hash key value ttl_secs now evicting k ≡ some after)
        × ((final : Keyspace) × (get hash key later after ≡ some (final, some value)))
  unfolding put_with_ttl get
  put_with_ttl-get key value ttl_secs now evicting later k h room two alone small fits live
        lasting =
      let ttl = ttl_ms ttl_secs k in
      let (after, ran, running, (final, read)) =
        insert-get_shared hash capacity_bytes key value (expiry now ttl) evicting later k.engine h
          room two alone (expiry-is_expired value now ttl evicting small fits ∙ ap not live)
          (expiry-is_expired value now ttl later small fits ∙ ap not lasting) in
      (
        record k { engine = after },
        ap (with_engine k) ran,
        (record k { engine = final }, ap (with_answer k) read),
      )
