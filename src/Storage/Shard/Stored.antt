-- ===== src/Storage/Shard/Stored.antt =====
-- What `insert` stores, and that it survives the eviction which `insert` itself makes.
use falcon_cache.Base.{
  ◌∙◌, ap, ℕ, ◌+◌, ◌≤◌, ◌<◌, ◌≡◌, refl, false, none, some, arith, length, if◌then◌else◌, u64_mod,
}
use falcon_cache.Base.Equality.{byte_string_eq, bytes_eq}
use falcon_cache.Storage.Table.{get, put, has_key}
use falcon_cache.Storage.Table.Laws.{get-put, get-put_self}
use falcon_cache.Storage.Shard.{
  ShardInner, Bytes, Entry, Shard, IsValid, charge, is_expired, access_clock,
}
use falcon_cache.Storage.Shard.Accounting.{write_entry-IsValid, Fits}
use falcon_cache.Storage.Shard.Budget.{
  IsValid-SameBut, Evicted, Evicted-IsValid, evict_shard-Evicted,
}
use falcon_cache.Storage.Shard.Eviction.{Evicts-get, Evicts-rest}
use falcon_cache.Storage.Shard.Newest.{IsNewest, Evicts-IsNewest}
use falcon_cache.Storage.Shard.Insert.{new_entry, insert_locked, insert}

-- Every stamp in the map was taken from the clock before.
abbrev pub IsStamped : Shard → Type 0
IsStamped s =
    (k : Bytes) (e : Entry) → get k s.inner.entries ≡ some e → e.last_access < s.counters.clock

module _ (key value : Bytes) (expires_at : ℕ) (s : Shard) where
  abbrev pub stored : Entry
  stored = new_entry value expires_at s.counters.clock

  pub insert_locked-rest :
      ((insert_locked key value expires_at s).inner.entries ≡ put key stored s.inner.entries)
      × ((insert_locked key value expires_at s).capacity ≡ s.capacity)
  unfolding insert_locked
  insert_locked-rest = ground arith

  pub insert_locked-IsValid :
      IsValid s → Fits key stored s → IsValid (insert_locked key value expires_at s)
  unfolding insert_locked
  insert_locked-IsValid v fits =
      write_entry-IsValid key stored (access_clock s).1
        (IsValid-SameBut s _
          (record { inner = refl; capacity = refl; bytes_hint = refl; ttl_hint = refl }) v)
        fits

  insert_locked-IsNewest :
      IsStamped s → IsNewest key stored (insert_locked key value expires_at s).inner.entries
  insert_locked-IsNewest stamped = rw (insert_locked-rest.0) (record {
    held = get-put_self key stored s.inner.entries;
    latest = λ k e h other.
        stamped k e
          (ground (arith, get-put key k stored s.inner.entries, byte_string_eq.beq_iff key k, h));
  })

  -- The number of entries after the write, with the sample size, stays in a machine word.
  abbrev pub SmallSample : ℕ → Type 0
  SmallSample sample = length (put key stored s.inner.entries) + sample < u64_mod

  pub insert-Evicted :
      (now_ms sample : ℕ)
      → IsValid s
      → Fits key stored s
      → 0 < sample
      → SmallSample sample
      → Evicted now_ms sample
          (insert_locked key value expires_at s)
          (insert key value expires_at now_ms sample s).0
          (insert key value expires_at now_ms sample s).1
  unfolding insert
  insert-Evicted now_ms sample v fits h small =
      evict_shard-Evicted now_ms sample (insert_locked key value expires_at s)
        (insert_locked-IsValid v fits) h (rw (insert_locked-rest.0) small)

  -- After `insert` the shard is valid and within its budget.
  pub insert-within :
      (now_ms sample : ℕ)
      → IsValid s
      → Fits key stored s
      → 0 < sample
      → SmallSample sample
      → IsValid (insert key value expires_at now_ms sample s).0
        × ((insert key value expires_at now_ms sample s).0.inner.bytes ≤ s.capacity)
  insert-within now_ms sample v fits h small =
      let x = insert-Evicted now_ms sample v fits h small in
      (
        Evicted-IsValid x (insert_locked-IsValid v fits),
        omega (arith, x.within, x.same.capacity, (Evicts-rest x.run).1, insert_locked-rest.1),
      )

  pub insert-capacity :
      (now_ms sample : ℕ)
      → IsValid s
      → Fits key stored s
      → 0 < sample
      → SmallSample sample
      → (insert key value expires_at now_ms sample s).0.capacity ≡ s.capacity
  insert-capacity now_ms sample v fits h small =
      let x = insert-Evicted now_ms sample v fits h small in
      x.same.capacity ∙ (Evicts-rest x.run).1 ∙ insert_locked-rest.1

  -- What can be read after `insert`: the new entry and every other one as before, less those that
  -- it reports as removed.
  pub insert-get :
      (now_ms sample : ℕ)
      → IsValid s
      → Fits key stored s
      → 0 < sample
      → SmallSample sample
      → (k : Bytes)
      → get k (insert key value expires_at now_ms sample s).0.inner.entries ≡ (
          if has_key k (insert key value expires_at now_ms sample s).1
          then none
          else if bytes_eq key k
          then some stored
          else get k s.inner.entries)
  insert-get now_ms sample v fits h small k =
      let x = insert-Evicted now_ms sample v fits h small in
      ap (λ (i : ShardInner). get k i.entries) x.same.inner
      ∙ Evicts-get x.run (insert_locked-IsValid v fits) k
      ∙ rw (insert_locked-rest.0, get-put key k stored s.inner.entries)

  -- With a sample of two or more the entry just written is still there, if it is live and fits the
  -- shard's budget alone: `insert` never evicts what it inserts.
  pub insert-stores :
      (now_ms sample : ℕ)
      → IsValid s
      → IsStamped s
      → Fits key stored s
      → 2 ≤ sample
      → SmallSample sample
      → charge (key, stored) ≤ s.capacity
      → is_expired now_ms stored ≡ false
      → get key (insert key value expires_at now_ms sample s).0.inner.entries ≡ some stored
  insert-stores now_ms sample v stamped fits two small alone live =
      let x = insert-Evicted now_ms sample v fits (omega arith) small in
      let newest =
        Evicts-IsNewest now_ms sample key stored x.run (insert_locked-IsValid v fits)
          (insert_locked-IsNewest stamped) live two (rw (insert_locked-rest.1) alone) in
      ap (λ (i : ShardInner). get key i.entries) x.same.inner ∙ newest.held
