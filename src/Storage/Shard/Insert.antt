-- ===== src/Storage/Shard/Insert.antt =====
-- `insert`, on the key's shard: the stamp, the locked write, and the eviction after it.
use falcon_cache.Base.{ℕ, List}
use falcon_cache.Storage.Shard.{Bytes, Entry, Shard, Removal, access_clock}
use falcon_cache.Storage.Shard.Writes.{write_entry}
use falcon_cache.Storage.Shard.Evict.{evict_shard}

-- The entry that a write stamped `now` makes.
abbrev pub new_entry : Bytes → ℕ → ℕ → Entry
new_entry value expires_at now = record {
  value = value;
  last_access = now;
  expires_at = expires_at;
}

-- Up to the end of the locked section.
unfoldable pub insert_locked : Bytes → Bytes → ℕ → Shard → Shard
unfolding write_entry
insert_locked key value expires_at s =
    let (now, ticked) = access_clock s in write_entry key (new_entry value expires_at now) ticked

unfoldable pub insert : Bytes → Bytes → ℕ → ℕ → ℕ → Shard → Shard × List Removal
unfolding insert_locked evict_shard
insert key value expires_at now_ms sample s =
    evict_shard now_ms sample (insert_locked key value expires_at s)
