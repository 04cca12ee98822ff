-- ===== src/Storage/Shard/Writes.antt =====
-- The locked sections that add or drop one entry: the write of `insert`, and the removal that
-- `remove`, `lookup`, `evict_shard` and `reap_shard` share.
use falcon_cache.Base.{
  ℕ, Bool, true, false, Option, none, some, length, add64, sub64, saturating_sub,
}
use falcon_cache.Base.Equality.{byte_string_eq}
use falcon_cache.Base.Int.{ℤ, pos, sub_ℕ}
use falcon_cache.Storage.Table.{get, put, remove}
use falcon_cache.Storage.Shard.{
  Bytes, Entry, Shard, entry_ram, has_expiry, flag, set_bytes, set_entries, add_ttl_keys,
}

-- What the overwritten entry was charged.
abbrev freed_ram : Bytes → Option Entry → ℕ
freed_ram key none = 0
freed_ram key (some old) = entry_ram (length key) (length old.value)

-- +1 if the key gains an expiry, -1 if it loses one.
abbrev ttl_delta : ℕ → Option Entry → ℤ
ttl_delta expires_at none = pos (flag (has_expiry expires_at))
ttl_delta expires_at (some old) =
    sub_ℕ (flag (has_expiry expires_at)) (flag (has_expiry old.expires_at))

-- The locked section of `insert`.
unfoldable pub write_entry : Bytes → Entry → Shard → Shard
write_entry key entry s =
    let old = get key s.inner.entries in
    let added = entry_ram (length key) (length entry.value) in
    let n = sub64 (add64 s.inner.bytes added) (freed_ram key old) in
    add_ttl_keys (ttl_delta entry.expires_at old)
      (set_bytes n (set_entries (put key entry s.inner.entries) s))

-- Taking `entry` out of the map, with the change of `ttl_keys` that the caller makes.
unfoldable pub drop_entry : Bytes → Entry → ℤ → Shard → Shard
drop_entry key entry delta s =
    let n = saturating_sub s.inner.bytes (entry_ram (length key) (length entry.value)) in
    add_ttl_keys delta (set_bytes n (set_entries (remove key s.inner.entries) s))

-- `-isize::from(entry.expires_at != 0)`
abbrev pub ttl_loss : Entry → ℤ
ttl_loss entry = sub_ℕ 0 (flag (has_expiry entry.expires_at))

-- `remove`, on the key's shard: the entry goes if there is one.
unfoldable pub remove_key : Bytes → Shard → Shard × Bool
unfolding drop_entry
remove_key key s = elim (get key s.inner.entries) [
  | some entry ↦ (drop_entry key entry (ttl_loss entry) s, true)
  | none ↦ (s, false)
]
