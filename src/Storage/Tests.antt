-- ===== src/Storage/Tests.antt =====
-- Runs of the storage engine at fixed inputs.
use falcon_cache.Base.{false, ℕ, ◌≡◌, refl, some, [], ◌∷◌, arith}
use falcon_cache.Base.Equality.{byte_string_eq}
use falcon_cache.Storage.Table.{get, put, remove, has_key}
use falcon_cache.Storage.Shard.{Entry, Shard, IsValid, access_clock, is_expired}
use falcon_cache.Storage.Shard.Writes.{write_entry, drop_entry, remove_key}
use falcon_cache.Storage.Shard.Lookup.{lookup, lookup_fast, lookup_slow, serve}
use falcon_cache.Storage.Shard.Insert.{insert_locked, insert as insert_shard}
use falcon_cache.Storage.Shard.Evict.{evict_locked, evict_shard}
use falcon_cache.Storage.Shard.Reap.{reap_locked, reap_shard}
use falcon_cache.Storage.Shard.Reaping.{IsReaped, reap_shard-IsReaped}
use falcon_cache.Storage.Shard.Budget.{Evicted, evict_shard-Evicted}
use falcon_cache.Storage.Shard.Stored.{IsStamped}
use falcon_cache.Storage.Shard.Stamps.{IsSound}
use falcon_cache.Storage.Shard.Kept.{Ledger, holds}
use falcon_cache.Storage.Shard.Latest.{latest, Reach-lookup_fast}
use falcon_cache.Storage.Shard.Interleaved.{
  IsConsistent, here, next, tick, reap, Reach-IsConsistent, Reach, Section,
}

abbrev plain : Entry
plain = record { value = 10 ∷ 11 ∷ []; last_access = 0; expires_at = 0 }

abbrev expiring : Entry
expiring = record { value = 20 ∷ []; last_access = 1; expires_at = 500 }

-- Two entries of 99 and 98 bytes.
abbrev two : ℕ → Shard
two capacity = record {
  inner = record {
    entries = (1 ∷ [], plain) ∷ (2 ∷ [], expiring) ∷ [];
    bytes = 197;
    ttl_keys = 1;
    rng = 12345;
  };
  counters = record { hits = 0; misses = 0; evictions = 0; expired = 0; clock = 2 };
  capacity = capacity;
  bytes_hint = 197;
  ttl_hint = 1;
}

two-IsValid : (capacity : ℕ) → IsValid (two capacity)
unfolding get
two-IsValid capacity = record {
  distinct = (refl, (refl, tt));
  fits = omega arith;
  bytes = refl;
  ttl_keys = refl;
  bytes_hint = refl;
  ttl_hint = refl;
}

two-IsStamped : (capacity : ℕ) → IsStamped (two capacity)
unfolding get
two-IsStamped capacity k e held = ground arith

two-IsSound : IsSound (two 300)
two-IsSound = record { valid = two-IsValid 300; stamped = two-IsStamped 300; within = omega arith }

runs : Unit {0}
unfolding get put remove has_key write_entry drop_entry remove_key lookup lookup_fast lookup_slow
    serve insert_locked insert_shard evict_locked evict_shard reap_locked reap_shard
runs = tt

evict_shard-Evicted_example :
    Evicted 100 2 (two 100) (evict_shard 100 2 (two 100)).0 (evict_shard 100 2 (two 100)).1
evict_shard-Evicted_example =
    evict_shard-Evicted 100 2 (two 100) (two-IsValid 100) (omega arith) (omega arith)

reap_shard-IsReaped_example :
    IsReaped 500 (two 300) (reap_shard 500 (two 300) []).0 [] (reap_shard 500 (two 300) []).1
reap_shard-IsReaped_example = reap_shard-IsReaped 500 (two 300) [] (two-IsValid 300)

Reach-IsConsistent_example : IsConsistent (reap_locked 500 (access_clock (two 300)).1 []).0
Reach-IsConsistent_example =
    Reach-IsConsistent (next (next here (tick (omega arith) refl)) (reap 500 refl))
      (record { valid = two-IsValid 300; stamped = two-IsStamped 300 })

-- What the shard `two` holds at first.
abbrev at_first : Ledger
at_first k = holds k (two 300)

abbrev fresh : Entry
fresh = record { value = 30 ∷ []; last_access = 2; expires_at = 0 }

-- One thread overwrites the key 1 while another removes the key 2 and a third sweeps.
abbrev swept : Shard
swept =
    (reap_locked 500 (remove_key (2 ∷ []) (write_entry (1 ∷ []) fresh (access_clock (two 300)).1)).0
      []).0

three_threads : Reach (two 300) swept
three_threads =
    next
      (next
        (next (next here (tick (omega arith) refl))
          (Section.write (1 ∷ []) fresh (omega arith) (omega arith) refl))
        (Section.remove (2 ∷ []) refl))
      (reap 500 refl)

Reach-lookup_fast_example :
    (expires_at : ℕ) × (latest three_threads at_first (1 ∷ []) ≡ some (30 ∷ [], expires_at))
    × (is_expired 600 (record { value = 30 ∷ []; last_access = 0; expires_at = expires_at })
        ≡ false)
unfolding get put remove write_entry drop_entry remove_key lookup_fast serve reap_locked
Reach-lookup_fast_example =
    Reach-lookup_fast three_threads at_first (1 ∷ []) (30 ∷ []) 600
      (record { valid = two-IsValid 300; stamped = two-IsStamped 300 }) (λ k c h. h) refl
