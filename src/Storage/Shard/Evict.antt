-- ===== src/Storage/Shard/Evict.antt =====
-- `evict_shard`: approximated LRU by sampling. The sections below its lock.
use falcon_cache.Base.{
  ℕ, zero, suc, ◌+◌, ◌%◌, Bool, true, false, Option, none, some, List, [], ◌∷◌, ◌++◌, ltb, leb,
  if◌then◌else◌, length, take, drop, min, wrapped,
}
use falcon_cache.Base.Equality.{byte_string_eq}
use falcon_cache.Storage.Random.{next_rand}
use falcon_cache.Storage.Table.{get}
use falcon_cache.Storage.Shard.{
  Bytes, EntryMap, Shard, RemovalCause, Removal, is_expired, count_expired, count_evicted,
}
use falcon_cache.Storage.Shard.Writes.{drop_entry, ttl_loss}

-- The least recently used entry so far, with its stamp. An equal stamp does not replace it.
abbrev pub older : Bytes → ℕ → Option (Bytes × ℕ) → Option (Bytes × ℕ)
older key stamp none = some (key, stamp)
older key stamp (some (k, oldest)) =
    if leb oldest stamp then some (k, oldest) else some (key, stamp)

-- The `for` loop over the window: `dead` and `victim` when it ends.
unfoldable pub scan : ℕ → EntryMap → Option (Bytes × ℕ) → Option Bytes × Option (Bytes × ℕ)
scan now [] victim = (none, victim)
scan now ((key, entry) ∷ rest) victim =
    let next = scan now rest (older key entry.last_access victim) in
    if is_expired now entry then (some key, victim) else next

abbrev choose : Option Bytes × Option (Bytes × ℕ) → Option Removal
choose (some key, victim) = some (key, RemovalCause.expired)
choose (none, some (key, stamp)) = some (key, RemovalCause.evicted)
choose (none, none) = none

-- `iter().skip(start).chain(iter()).take(window)`
abbrev pub window : ℕ → ℕ → EntryMap → EntryMap
window sample start m = take (min sample (length m)) (drop start m ++ m)

-- The local variables of `evict_shard`, with the locked shard.
pub record Sweep : Type 0 where
  pub shard : Shard
  pub n_evicted : ℕ
  pub n_expired : ℕ
  pub removed : List Removal

abbrev pub tally : RemovalCause → Sweep → Sweep
tally RemovalCause.evicted w = record w { n_evicted = w.n_evicted + 1 }
tally RemovalCause.expired w = record w { n_expired = w.n_expired + 1 }

abbrev pub with_rng : ℕ → Shard → Shard
with_rng state s = record s { inner = record (s.inner) { rng = state } }

-- What a round does once it has chosen. `false` is the `break`.
unfoldable pub take_out : Option Removal → Sweep → Sweep × Bool
take_out none w = (w, false)
take_out (some (key, cause)) w = elim (get key w.shard.inner.entries) [
  | none ↦ (w, true)
  | some entry ↦ (
    tally cause (record w {
      shard = drop_entry key entry (ttl_loss entry) w.shard;
      removed = w.removed ++ ((key, cause) ∷ []);
    }),
    true,
  )
]

-- One round of the `while` loop.
unfoldable pub evict_round : ℕ → ℕ → Sweep → Sweep × Bool
evict_round now sample w =
    let (state, drawn) = next_rand w.shard.inner.rng in
    let m = w.shard.inner.entries in
    let start = drawn % length m in
    take_out (choose (scan now (window sample start m) none))
      (record w { shard = with_rng state w.shard })

abbrev pub is_empty : EntryMap → Bool
is_empty [] = true
is_empty (p ∷ m) = false

abbrev pub over_budget : Shard → Bool
over_budget s = ltb s.capacity s.inner.bytes

-- The `while` loop, on the rounds left.
unfoldable pub evict_loop : ℕ → ℕ → ℕ → Sweep → Sweep
evict_loop zero now sample w = w
evict_loop (suc rounds) now sample w = elim (over_budget w.shard) [
  | false ↦ w
  | true ↦ elim (is_empty w.shard.inner.entries) [
    | true ↦ w
    | false ↦ elim ((evict_round now sample w).1) [
      | true ↦ evict_loop rounds now sample (evict_round now sample w).0
      | false ↦ (evict_round now sample w).0
    ]
  ]
]

abbrev count_if_any : ℕ → (ℕ → Shard → Shard) → Shard → Shard
count_if_any n count s = if ltb 0 n then count n s else s

-- The counters, after the lock is released.
abbrev pub settle : Sweep → Shard × List Removal
settle w = (
  count_if_any w.n_expired count_expired (count_if_any w.n_evicted count_evicted w.shard),
  w.removed,
)

-- The locked section, from the second test of the budget on.
unfoldable pub evict_locked : ℕ → ℕ → Shard → Shard × List Removal
evict_locked now sample s =
    if leb s.inner.bytes s.capacity
    then (s, [])
    else settle (
        evict_loop (wrapped (length s.inner.entries + sample)) now sample
          (record { shard = s; n_evicted = 0; n_expired = 0; removed = [] }))

-- `evict_shard`: the test of the hint, and the section.
unfoldable pub evict_shard : ℕ → ℕ → Shard → Shard × List Removal
unfolding evict_locked
evict_shard now sample s =
    if leb s.bytes_hint s.capacity then (s, []) else evict_locked now sample s
