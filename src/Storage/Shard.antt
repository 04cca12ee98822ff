-- ===== src/Storage/Shard.antt =====
-- One shard of the engine: its entries, its counters, and the sections of code that run under its
-- lock (crates/falcon-storage/src/cache.rs). Times are unix milliseconds.
pub mod Writes
pub mod Accounting
pub mod Lookup
pub mod Evict
pub mod Reap
pub mod Window
pub mod Round
pub mod Eviction
pub mod EvictLoop
pub mod Budget
pub mod Newest
pub mod Reads
pub mod Reaping
pub mod Insert
pub mod Stored
pub mod Kept
pub mod Stamps
pub mod Sound
pub mod Interleaved
pub mod Latest
use falcon_cache.Base.{
  ℕ, suc, ◌+◌, ◌-◌, ◌%◌, ◌<◌, Bool, true, false, not, ◌&&◌, Option, none, some, List, [], ◌∷◌, ◌++◌,
  ltb, leb, ◌==◌, if◌then◌else◌, length, take, drop, min, wrapped, add64, sub64, saturating_sub,
  arith, ◌≡◌, sum_of, u64_mod,
}
use falcon_cache.Base.Equality.{byte_string_eq}
use falcon_cache.Base.Int.{ℤ, pos, negsuc, sub_ℕ, saturating_add_signed}
use falcon_cache.Storage.Table.{get, put, remove, Distinct}
use falcon_cache.Storage.Random.{next_rand}

-- A key or a value, `[u8]`.
abbrev pub Bytes : Type 0
Bytes = List ℕ

-- `ENTRY_OVERHEAD`
abbrev entry_overhead : ℕ
entry_overhead = 96

abbrev pub entry_ram : ℕ → ℕ → ℕ
entry_ram key_len value_len = wrapped (key_len + value_len + entry_overhead)

pub record Entry : Type 0 where
  pub value : Bytes
  pub last_access : ℕ
  pub expires_at : ℕ

abbrev pub has_expiry : ℕ → Bool
has_expiry expires_at = not (expires_at == 0)

abbrev pub is_expired : ℕ → Entry → Bool
is_expired now entry = has_expiry entry.expires_at && leb entry.expires_at now

abbrev pub touch : ℕ → Entry → Entry
touch stamp entry = record entry { last_access = stamp }

pub data RemovalCause : Type 0 where
  evicted expired : RemovalCause

-- What the listener is told: the key, and why it went.
abbrev pub Removal : Type 0
Removal = Bytes × RemovalCause

abbrev pub EntryMap : Type 0
EntryMap = List (Bytes × Entry)

pub record ShardInner : Type 0 where
  pub entries : EntryMap
  pub bytes : ℕ
  pub ttl_keys : ℕ
  pub rng : ℕ

pub record ShardCounters : Type 0 where
  pub hits : ℕ
  pub misses : ℕ
  pub evictions : ℕ
  pub expired : ℕ
  pub clock : ℕ

pub record Shard : Type 0 where
  pub inner : ShardInner
  pub counters : ShardCounters
  pub capacity : ℕ
  pub bytes_hint : ℕ
  pub ttl_hint : ℕ

-- `set_bytes` writes the count and its lock-free mirror together.
abbrev pub set_bytes : ℕ → Shard → Shard
set_bytes n s = record s { inner = record (s.inner) { bytes = n }; bytes_hint = n }

abbrev set_ttl_keys : ℕ → Shard → Shard
set_ttl_keys n s = record s { inner = record (s.inner) { ttl_keys = n }; ttl_hint = n }

abbrev is_zero : ℤ → Bool
is_zero (pos n) = n == 0
is_zero (negsuc n) = false

abbrev pub add_ttl_keys : ℤ → Shard → Shard
add_ttl_keys delta s =
    if is_zero delta then s else set_ttl_keys (saturating_add_signed s.inner.ttl_keys delta) s

abbrev pub set_entries : EntryMap → Shard → Shard
set_entries m s = record s { inner = record (s.inner) { entries = m } }

-- `isize::from`
abbrev pub flag : Bool → ℕ
flag true = 1
flag false = 0

-- `access_clock`: the stamp that is taken, and the shard after it.
abbrev pub access_clock : Shard → ℕ × Shard
access_clock s = (
  s.counters.clock,
  record s { counters = record (s.counters) { clock = add64 s.counters.clock 1 } },
)

abbrev pub count_hit : Shard → Shard
count_hit s = record s { counters = record (s.counters) { hits = add64 s.counters.hits 1 } }

abbrev pub count_miss : Shard → Shard
count_miss s = record s { counters = record (s.counters) { misses = add64 s.counters.misses 1 } }

abbrev pub count_expired : ℕ → Shard → Shard
count_expired n s = record s {
  counters = record (s.counters) { expired = add64 s.counters.expired n };
}

abbrev pub count_evicted : ℕ → Shard → Shard
count_evicted n s = record s {
  counters = record (s.counters) { evictions = add64 s.counters.evictions n };
}

-- What an entry is charged, as a plain number.
abbrev pub charge : Bytes × Entry → ℕ
charge p = length p.0 + length p.1.value + entry_overhead

abbrev pub ttl_weight : Bytes × Entry → ℕ
ttl_weight p = flag (has_expiry p.1.expires_at)

-- The counters of a shard tell the truth about its entries.
pub record IsValid (s : Shard) : Type 0 where
  pub distinct : Distinct s.inner.entries
  pub fits : sum_of charge s.inner.entries < u64_mod
  pub bytes : s.inner.bytes ≡ sum_of charge s.inner.entries
  pub ttl_keys : s.inner.ttl_keys ≡ sum_of ttl_weight s.inner.entries
  pub bytes_hint : s.bytes_hint ≡ s.inner.bytes
  pub ttl_hint : s.ttl_hint ≡ s.inner.ttl_keys
