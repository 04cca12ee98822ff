-- ===== src/Storage/Engine/Operations.antt =====
-- The operations of a running engine: none is out of bounds, each keeps the engine running, and a
-- read returns what the last write stored.
use falcon_cache.Base.{
  ℕ, ◌+◌, ◌≤◌, ◌<◌, ◌≡◌, refl, sym, ap, ◌∙◌, max, ◌/◌, Bool, true, false, Option, none, some, List,
  arith, length, set, get_elem?, get_elem?-set_self, u64_mod,
}
use falcon_cache.Base.Equality.{byte_string_eq}
use falcon_cache.Storage.Table.{get}
use falcon_cache.Storage.Shard.{Bytes, Entry, Shard, Removal, is_expired}
use falcon_cache.Storage.Shard.Accounting.{Fits}
use falcon_cache.Storage.Shard.Writes.{remove_key, drop_entry}
use falcon_cache.Storage.Shard.Insert.{insert as insert_shard}
use falcon_cache.Storage.Shard.Kept.{remove_key-gone}
use falcon_cache.Storage.Shard.Lookup.{lookup as lookup_shard, lookup_fast, lookup_slow, serve}
use falcon_cache.Storage.Shard.Reads.{live_value, lookup-value}
use falcon_cache.Storage.Shard.Stored.{stored, SmallSample, insert-stores, insert-capacity}
use falcon_cache.Storage.Shard.Stamps.{insert-IsSound, remove_key-IsSound}
use falcon_cache.Storage.Shard.Sound.{lookup-IsSound}
use falcon_cache.Storage.Engine.{
  CacheEngine, shard_of, notify_removed, notifying, notifying_read, insert, get_shared, delete,
}
use falcon_cache.Storage.Engine.Running.{IsShare, IsRunning, on_shard-Routing}

-- There is room for the write: the byte count, the entry count and the clock stay in their words.
pub record HasRoom (key value : Bytes) (expires_at sample : ℕ) (s : Shard) : Type 0 where
  pub fits : Fits key (stored key value expires_at s) s
  pub small : SmallSample key value expires_at s sample
  pub tick : s.counters.clock + 1 < u64_mod

pub notify_removed-rest :
    (removed : List Removal) (e : CacheEngine)
    → ((notify_removed removed e).shards ≡ e.shards)
      × ((notify_removed removed e).shard_mask ≡ e.shard_mask)
      × ((notify_removed removed e).evict_sample ≡ e.evict_sample)
unfolding notify_removed
notify_removed-rest removed e = ground arith

-- Telling the listener leaves the engine running.
pub notify_removed-IsRunning :
    (capacity_bytes : ℕ) (removed : List Removal) (e : CacheEngine)
    → IsRunning capacity_bytes e
    → IsRunning capacity_bytes (notify_removed removed e)
notify_removed-IsRunning capacity_bytes removed e h =
    let (shards, mask, sample) = notify_removed-rest removed e in
    record {
      shares = rw shards h.shares;
      routed = rw (shards, mask) h.routed;
      sampled = rw sample h.sampled;
    }

lookup-capacity :
    (key : Bytes) (now : ℕ) (s : Shard) → (lookup_shard key now s).0.capacity ≡ s.capacity
unfolding lookup_shard lookup_fast lookup_slow drop_entry serve
lookup-capacity key now s = ground arith

remove_key-capacity : (key : Bytes) (s : Shard) → (remove_key key s).0.capacity ≡ s.capacity
unfolding remove_key drop_entry
remove_key-capacity key s = ground arith

abbrev pub is_some : Option Entry → Bool
is_some none = false
is_some (some entry) = true

remove_key-answer :
    (key : Bytes) (s : Shard) → (remove_key key s).1 ≡ is_some (get key s.inner.entries)
unfolding remove_key
remove_key-answer key s = ground arith

abbrev pub lookup_at : Bytes → ℕ → Shard → Shard × (Option Bytes × List Removal)
lookup_at key now s = let (t, value, removed) = lookup_shard key now s in (t, (value, removed))

pub insert-IsShare :
    {per_shard : ℕ} (key value : Bytes) (expires_at now sample : ℕ) (s : Shard)
    → IsShare per_shard s
    → HasRoom key value expires_at sample s
    → 0 < sample
    → IsShare per_shard (insert_shard key value expires_at now sample s).0
insert-IsShare key value expires_at now sample s h r sampled = record {
  sound = insert-IsSound key value expires_at now sample s h.sound r.fits sampled r.small r.tick;
  capacity =
      insert-capacity key value expires_at s now sample h.sound.valid r.fits sampled r.small
      ∙ h.capacity;
}

module _ (hash : Bytes → ℕ) where
  -- What the key's shard holds.
  unfoldable pub held_at : Bytes → CacheEngine → Option Entry
  held_at key e = elim (get_elem? e.shards (shard_of hash key e.shard_mask)) [
    | none ↦ none
    | some s ↦ get key s.inner.entries
  ]

  pub held_at_found :
      (key : Bytes) (e : CacheEngine) (s : Shard)
      → get_elem? e.shards (shard_of hash key e.shard_mask) ≡ some s
      → held_at key e ≡ get key s.inner.entries
  unfolding held_at
  held_at_found key e s found = rw (found, held_at) refl

  -- A condition on the shard that the key is routed to.
  abbrev pub AtShard : Bytes → CacheEngine → (Shard → Type 0) → Type 0
  AtShard key e P = (s : Shard) → get_elem? e.shards (shard_of hash key e.shard_mask) ≡ some s → P s

module _ (hash : Bytes → ℕ) (capacity_bytes : ℕ) where
  -- `insert` on a running engine never indexes out of bounds and leaves the engine running.
  pub insert-IsRunning :
      (key value : Bytes) (expires_at now : ℕ) (e : CacheEngine)
      → IsRunning capacity_bytes e
      → AtShard hash key e (HasRoom key value expires_at e.evict_sample)
      → (after : CacheEngine) × (insert hash key value expires_at now e ≡ some after)
        × IsRunning capacity_bytes after
  unfolding insert
  insert-IsRunning key value expires_at now e h room =
      let op = insert_shard key value expires_at now e.evict_sample in
      let x = on_shard-Routing hash capacity_bytes key e op h in
      (
        notify_removed (op x.shard).1
            (record e { shards = set e.shards (shard_of hash key e.shard_mask) (op x.shard).0 }),
        ap notifying x.result,
        notify_removed-IsRunning capacity_bytes (op x.shard).1 _ (
            x.running (
              insert-IsShare key value expires_at now e.evict_sample x.shard x.share
                (room x.shard x.found) h.sampled)),
      )

  pub get_shared-value :
      (key : Bytes) (now : ℕ) (e : CacheEngine)
      → IsRunning capacity_bytes e
      → (after : CacheEngine) × (get_shared hash key now e
          ≡ some (after, live_value now (held_at hash key e)))
  unfolding get_shared
  get_shared-value key now e h =
      let x = on_shard-Routing hash capacity_bytes key e (lookup_at key now) h in
      let after = notify_removed (lookup_at key now x.shard).1.1 (record e {
        shards = set e.shards (shard_of hash key e.shard_mask) (lookup_at key now x.shard).0;
      }) in
      (
        after,
        ap notifying_read x.result
            ∙ ap (λ v. some (after, v))
                (lookup-value key now x.shard
                  ∙ ap (live_value now) (sym (held_at_found hash key e x.shard x.found))),
      )

  -- `get` on a running engine never indexes out of bounds, leaves the engine running, and returns
  -- the value of the key's entry if it has one that is live at `now`.
  pub get_shared-IsRunning :
      (key : Bytes) (now : ℕ) (e : CacheEngine)
      → IsRunning capacity_bytes e
      → AtShard hash key e (λ s. s.counters.clock + 1 < u64_mod)
      → (after : CacheEngine) × (get_shared hash key now e
          ≡ some (after, live_value now (held_at hash key e)))
        × IsRunning capacity_bytes after
  unfolding get_shared
  get_shared-IsRunning key now e h tick =
      let op = lookup_at key now in
      let x = on_shard-Routing hash capacity_bytes key e op h in
      let after =
        notify_removed (op x.shard).1.1
          (record e { shards = set e.shards (shard_of hash key e.shard_mask) (op x.shard).0 }) in
      (
        after,
        ap notifying_read x.result
            ∙ ap (λ v. some (after, v))
                (lookup-value key now x.shard
                  ∙ ap (live_value now) (sym (held_at_found hash key e x.shard x.found))),
        notify_removed-IsRunning capacity_bytes (op x.shard).1.1 _ (
            x.running (record {
              sound = lookup-IsSound key now x.shard x.share.sound (tick x.shard x.found);
              capacity = lookup-capacity key now x.shard ∙ x.share.capacity;
            })),
      )

  -- `delete` on a running engine never indexes out of bounds, leaves the engine running and without
  -- the key, and says whether there was one.
  pub delete-IsRunning :
      (key : Bytes) (e : CacheEngine)
      → IsRunning capacity_bytes e
      → (after : CacheEngine) × (delete hash key e ≡ some (after, is_some (held_at hash key e)))
        × IsRunning capacity_bytes after
        × (held_at hash key after ≡ none)
  unfolding delete
  delete-IsRunning key e h =
      let x = on_shard-Routing hash capacity_bytes key e (remove_key key) h in
      (
        record e {
          shards = set e.shards (shard_of hash key e.shard_mask) (remove_key key x.shard).0;
        },
        x.result
            ∙ ap
                (λ v. some (
                  record e {
                    shards =
                        set e.shards (shard_of hash key e.shard_mask) (remove_key key x.shard).0;
                  },
                  v,
                ))
                (remove_key-answer key x.shard
                  ∙ ap is_some (sym (held_at_found hash key e x.shard x.found))),
        x.running (record {
          sound = remove_key-IsSound key x.shard x.share.sound;
          capacity = remove_key-capacity key x.shard ∙ x.share.capacity;
        }),
        held_at_found hash key
              (record e {
                shards = set e.shards (shard_of hash key e.shard_mask) (remove_key key x.shard).0;
              })
              (remove_key key x.shard).0
              (get_elem?-set_self e.shards (shard_of hash key e.shard_mask)
                (remove_key key x.shard).0 x.bounds)
            ∙ remove_key-gone key x.shard x.share.sound.valid.distinct,
      )

  -- What `insert` stores can be read: if the entry is live at `now`, fits its shard's budget alone,
  -- and two or more entries are sampled, then a `get` at `later`, with no operation between and
  -- the entry still live, returns the value.
  pub insert-get_shared :
      (key value : Bytes) (expires_at now later : ℕ) (e : CacheEngine)
      → IsRunning capacity_bytes e
      → AtShard hash key e (HasRoom key value expires_at e.evict_sample)
      → 2 ≤ e.evict_sample
      → length key + length value + 96 ≤ max (capacity_bytes / length e.shards) 1
      → is_expired now (record { value = value; last_access = 0; expires_at = expires_at }) ≡ false
      → is_expired later (record { value = value; last_access = 0; expires_at = expires_at })
        ≡ false
      → (after : CacheEngine) × (insert hash key value expires_at now e ≡ some after)
        × IsRunning capacity_bytes after
        × ((final : CacheEngine) × (get_shared hash key later after ≡ some (final, some value)))
  unfolding insert
  insert-get_shared key value expires_at now later e h room two alone live lasting =
      let op = insert_shard key value expires_at now e.evict_sample in
      let x = on_shard-Routing hash capacity_bytes key e op h in
      let r = room x.shard x.found in
      let ran = record e {
        shards = set e.shards (shard_of hash key e.shard_mask) (op x.shard).0;
      } in
      let (shards, mask, sample) = notify_removed-rest (op x.shard).1 ran in
      let found = held_at_found hash key (notify_removed (op x.shard).1 ran) (op x.shard).0 (
        rw (shards, mask)
          (get_elem?-set_self e.shards (shard_of hash key e.shard_mask) (op x.shard).0 x.bounds)) in
      let stores =
        insert-stores key value expires_at x.shard now e.evict_sample x.share.sound.valid
          x.share.sound.stamped r.fits two r.small (rw (x.share.capacity) alone) live in
      let after = notify_removed (op x.shard).1 ran in
      let running = notify_removed-IsRunning capacity_bytes (op x.shard).1 ran (
        x.running
          (insert-IsShare key value expires_at now e.evict_sample x.shard x.share r h.sampled)) in
      let (final, read) = get_shared-value key later after running in
      (
        after,
        ap notifying x.result,
        running,
        (
          final,
          read
              ∙ ap (λ v. some (final, v))
                  (ap (live_value later) (found ∙ stores) ∙ rw lasting refl),
        ),
      )
