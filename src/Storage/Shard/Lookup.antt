-- ===== src/Storage/Shard/Lookup.antt =====
-- The two sections of `lookup`: the read under the shared lock, and the removal of an expired
-- entry under the exclusive lock. Other threads may run between them. A counter that the code
-- raises right after a section is raised in it.
use falcon_cache.Base.{Option, none, some, List, [], ◌∷◌, if◌then◌else◌, ℕ}
use falcon_cache.Base.Equality.{byte_string_eq}
use falcon_cache.Base.Int.{negsuc}
use falcon_cache.Storage.Table.{get, put}
use falcon_cache.Storage.Shard.{
  Bytes, Entry, Shard, RemovalCause, Removal, is_expired, touch, access_clock, set_entries,
  count_hit, count_miss, count_expired,
}
use falcon_cache.Storage.Shard.Writes.{drop_entry}

-- How the read under the shared lock ends.
pub data FastRead : Type 0 where
  miss : FastRead
  hit : Bytes → FastRead
  stale : FastRead

-- Stamps the entry with the next access stamp and counts the hit.
unfoldable pub serve : Bytes → Entry → Shard → Shard
serve key entry s =
    let (stamp, ticked) = access_clock s in
    count_hit (set_entries (put key (touch stamp entry) s.inner.entries) ticked)

unfoldable pub lookup_fast : Bytes → ℕ → Shard → Shard × FastRead
lookup_fast key now s = elim (get key s.inner.entries) [
  | none ↦ (count_miss s, miss)
  | some entry ↦ if is_expired now entry then (s, stale) else (serve key entry s, hit entry.value)
]

-- The shard after it, the value, and what the listener is told.
unfoldable pub lookup_slow : Bytes → ℕ → Shard → Shard × Option Bytes × List Removal
lookup_slow key now s = elim (get key s.inner.entries) [
  | none ↦ (count_miss (count_expired 1 s), none, [])
  | some entry ↦
      if is_expired now entry
      then (
        count_miss (count_expired 1 (drop_entry key entry (negsuc 0) s)),
        none,
        (key, RemovalCause.expired) ∷ [],
      )
      else (serve key entry s, some entry.value, [])
]

-- How `lookup` goes on from the first section.
abbrev pub finish_lookup : Bytes → ℕ → Shard × FastRead → Shard × Option Bytes × List Removal
finish_lookup key now (s, miss) = (s, none, [])
finish_lookup key now (s, hit value) = (s, some value, [])
finish_lookup key now (s, stale) = lookup_slow key now s

-- `lookup` with no other thread between its sections.
unfoldable pub lookup : Bytes → ℕ → Shard → Shard × Option Bytes × List Removal
unfolding lookup_fast lookup_slow
lookup key now s = finish_lookup key now (lookup_fast key now s)
