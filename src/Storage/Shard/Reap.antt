-- ===== src/Storage/Shard/Reap.antt =====
-- `reap_shard`: dropping every expired entry of a shard.
use falcon_cache.Base.{ℕ, ◌+◌, none, some, List, [], ◌∷◌, ◌++◌, ltb, ◌==◌, if◌then◌else◌}
use falcon_cache.Base.Equality.{byte_string_eq}
use falcon_cache.Base.Int.{negsuc}
use falcon_cache.Storage.Table.{get}
use falcon_cache.Storage.Shard.{
  Bytes, EntryMap, Shard, RemovalCause, Removal, is_expired, count_expired,
}
use falcon_cache.Storage.Shard.Writes.{drop_entry}

-- The keys of the expired entries.
unfoldable pub dead_keys : ℕ → EntryMap → List Bytes
dead_keys now [] = []
dead_keys now ((key, entry) ∷ m) =
    let rest = dead_keys now m in if is_expired now entry then key ∷ rest else rest

-- One round of the loop over the dead keys: the shard, the count, and the removals.
unfoldable pub reap_key : Bytes → Shard × ℕ × List Removal → Shard × ℕ × List Removal
reap_key key (s, n, removed) = elim (get key s.inner.entries) [
  | none ↦ (s, n, removed)
  | some entry ↦
      (drop_entry key entry (negsuc 0) s, n + 1, removed ++ ((key, RemovalCause.expired) ∷ []))
]

unfoldable pub reap_loop : List Bytes → Shard × ℕ × List Removal → Shard × ℕ × List Removal
reap_loop [] w = w
reap_loop (key ∷ dead) w = reap_loop dead (reap_key key w)

abbrev finish_reap : Shard × ℕ × List Removal → Shard × List Removal
finish_reap (s, n, removed) = (if ltb 0 n then count_expired n s else s, removed)

-- The section under the lock: the shard after it, and `removed` with what it dropped.
unfoldable pub reap_locked : ℕ → Shard → List Removal → Shard × List Removal
unfolding dead_keys reap_loop reap_key
reap_locked now s removed = finish_reap (reap_loop (dead_keys now s.inner.entries) (s, 0, removed))

-- `reap_shard`: the test of the hint, and the section.
unfoldable pub reap_shard : ℕ → Shard → List Removal → Shard × List Removal
unfolding reap_locked
reap_shard now s removed = if s.ttl_hint == 0 then (s, removed) else reap_locked now s removed
