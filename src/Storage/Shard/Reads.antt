-- ===== src/Storage/Shard/Reads.antt =====
-- What `lookup` and `remove` answer and what they leave, on every branch.
use falcon_cache.Base.{
  ℕ, ◌≡◌, refl, true, Option, none, some, arith, Bool-cases, Option-cases, inl, inr, if◌then◌else◌,
}
use falcon_cache.Base.Equality.{byte_string_eq}
use falcon_cache.Base.Int.{negsuc}
use falcon_cache.Storage.Table.{get}
use falcon_cache.Storage.Table.Laws.{put-Distinct}
use falcon_cache.Storage.Table.Weights.{sum_of-put_occupied}
use falcon_cache.Storage.Shard.{
  count_expired, has_expiry, count_miss, Bytes, Entry, Shard, IsValid, charge, ttl_weight,
  is_expired, touch,
}
use falcon_cache.Storage.Shard.Writes.{drop_entry}
use falcon_cache.Storage.Shard.Accounting.{drop_entry-IsValid}
use falcon_cache.Storage.Shard.Budget.{SameBut, IsValid-SameBut}
use falcon_cache.Storage.Shard.Lookup.{
  finish_lookup, FastRead, miss, hit, stale, serve, lookup_fast, lookup_slow, lookup,
}

-- The value that a read at `now` may return: that of a live entry.
abbrev pub live_value : ℕ → Option Entry → Option Bytes
live_value now none = none
live_value now (some entry) = if is_expired now entry then none else some entry.value

pub serve-IsValid :
    (key : Bytes) (entry : Entry) (s : Shard)
    → IsValid s
    → get key s.inner.entries ≡ some entry
    → IsValid (serve key entry s)
unfolding serve
serve-IsValid key entry s v held = ground (
  arith,
  put-Distinct key (touch s.counters.clock entry) s.inner.entries,
  sum_of-put_occupied charge key (touch s.counters.clock entry) s.inner.entries entry held,
  sum_of-put_occupied ttl_weight key (touch s.counters.clock entry) s.inner.entries entry held,
)

expired-IsDelta :
    (now : ℕ) (entry : Entry) → is_expired now entry ≡ true → has_expiry entry.expires_at ≡ true
expired-IsDelta now entry h = ground arith

-- Dropping an expired entry, as `lookup` and `reap_shard` do.
pub drop_expired-IsValid :
    (now : ℕ) (key : Bytes) (entry : Entry) (s : Shard)
    → IsValid s
    → get key s.inner.entries ≡ some entry
    → is_expired now entry ≡ true
    → IsValid (drop_entry key entry (negsuc 0) s)
drop_expired-IsValid now key entry s v held dead =
    drop_entry-IsValid key entry (negsuc 0) s v held (refl, expired-IsDelta now entry dead)

counted : (s : Shard) → SameBut s (count_miss (count_expired 1 s))
counted s = record { inner = refl; capacity = refl; bytes_hint = refl; ttl_hint = refl }

pub lookup_fast-IsValid :
    (key : Bytes) (now : ℕ) (s : Shard) → IsValid s → IsValid (lookup_fast key now s).0
unfolding lookup_fast
lookup_fast-IsValid key now s v = elim (Option-cases (get key s.inner.entries)) [
  | inl absent ↦
      rw (absent, lookup_fast)
        (IsValid-SameBut s _
          (record { inner = refl; capacity = refl; bytes_hint = refl; ttl_hint = refl }) v)
  | inr (entry, held) ↦ elim (Bool-cases (is_expired now entry)) [
    | inl dead ↦ rw (held, dead, lookup_fast) v
    | inr live ↦ rw (held, live, lookup_fast) (serve-IsValid key entry s v held)
  ]
]

pub lookup_slow-IsValid :
    (key : Bytes) (now : ℕ) (s : Shard) → IsValid s → IsValid (lookup_slow key now s).0
unfolding lookup_slow
lookup_slow-IsValid key now s v = elim (Option-cases (get key s.inner.entries)) [
  | inl absent ↦ rw (absent, lookup_slow) (IsValid-SameBut s _ (counted s) v)
  | inr (entry, held) ↦ elim (Bool-cases (is_expired now entry)) [
    | inl dead ↦
        rw (held, dead, lookup_slow)
          (IsValid-SameBut _ _ (counted _) (drop_expired-IsValid now key entry s v held dead))
    | inr live ↦ rw (held, live, lookup_slow) (serve-IsValid key entry s v held)
  ]
]

-- `lookup` keeps the counters of the shard true.
pub lookup-IsValid : (key : Bytes) (now : ℕ) (s : Shard) → IsValid s → IsValid (lookup key now s).0
unfolding lookup
lookup-IsValid key now s v = go (lookup_fast key now s) (lookup_fast-IsValid key now s v)
  where
    go : (r : Shard × FastRead) → IsValid r.0 → IsValid (finish_lookup key now r).0
    go (t, miss) w = w
    go (t, hit value) w = w
    go (t, stale) w = lookup_slow-IsValid key now t w

-- Whatever other threads did to the shard since the first section, the second returns the value
-- that is stored then if its entry is live at `now`, and nothing otherwise.
lookup_slow-value :
    (key : Bytes) (now : ℕ) (s : Shard)
    → (lookup_slow key now s).1 ≡ live_value now (get key s.inner.entries)
unfolding lookup_slow
lookup_slow-value key now s = ground arith

-- `lookup` returns the value of the key's entry if it has one that is live, and nothing otherwise.
pub lookup-value :
    (key : Bytes) (now : ℕ) (s : Shard)
    → (lookup key now s).1 ≡ live_value now (get key s.inner.entries)
unfolding lookup lookup_fast lookup_slow
lookup-value key now s = ground arith
