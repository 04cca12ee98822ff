-- ===== src/Storage/Shard/Stamps.antt =====
-- Every operation leaves all stamps behind the shard's clock, and none raises the byte count
-- past the budget but the write that `insert` follows with an eviction.
use falcon_cache.Base.{
  ℕ, ◌+◌, ◌≤◌, ◌<◌, ◌≡◌, some, arith, ◌∙◌, u64_mod, Option-cases, inl, inr, add64,
}
use falcon_cache.Base.Equality.{byte_string_eq}
use falcon_cache.Base.Int.{ℤ}
use falcon_cache.Storage.Table.{get, put, remove}
use falcon_cache.Storage.Table.Laws.{get-put, get-remove}
use falcon_cache.Storage.Shard.{Bytes, Entry, Shard, IsValid, touch}
use falcon_cache.Storage.Shard.Writes.{write_entry, drop_entry, remove_key, ttl_loss}
use falcon_cache.Storage.Shard.Budget.{Evicted, SameBut, IsValid-SameBut}
use falcon_cache.Storage.Shard.Eviction.{Evicts-rest}
use falcon_cache.Storage.Shard.Accounting.{Fits, drop_entry-IsValid, ttl_loss-IsDelta}
use falcon_cache.Storage.Shard.Lookup.{serve}
use falcon_cache.Storage.Shard.Stored.{
  insert_locked-rest, IsStamped, insert-Evicted, insert-get, insert-within, SmallSample, stored,
}
use falcon_cache.Storage.Shard.Insert.{insert_locked, insert}
use falcon_cache.Storage.Shard.Reads.{serve-IsValid}

-- A shard between operations: its counts are true, its stamps are past, it is within its budget.
pub record IsSound (s : Shard) : Type 0 where
  pub valid : IsValid s
  pub stamped : IsStamped s
  pub within : s.inner.bytes ≤ s.capacity

insert_locked-clock :
    (key value : Bytes) (expires_at : ℕ) (s : Shard)
    → (insert_locked key value expires_at s).counters.clock ≡ add64 s.counters.clock 1
unfolding insert_locked write_entry
insert_locked-clock key value expires_at s = ground arith

module _ (key value : Bytes) (expires_at now_ms sample : ℕ) (s : Shard) where
  -- `insert` makes a sound shard of a sound shard, if there is room in the address space and the
  -- clock has not run through all of its 64 bits.
  pub insert-IsSound :
      IsSound s
      → Fits key (stored key value expires_at s) s
      → 0 < sample
      → SmallSample key value expires_at s sample
      → s.counters.clock + 1 < u64_mod
      → IsSound (insert key value expires_at now_ms sample s).0
  insert-IsSound h fits pos small tick = record {
    valid = sound.0;
    stamped = λ k e held. stamps k e held;
    within = rw capacity sound.1;
  }
    where
      x :
          Evicted now_ms sample
            (insert_locked key value expires_at s)
            (insert key value expires_at now_ms sample s).0
            (insert key value expires_at now_ms sample s).1
      x = insert-Evicted key value expires_at s now_ms sample h.valid fits pos small

      sound :
          IsValid (insert key value expires_at now_ms sample s).0
          × ((insert key value expires_at now_ms sample s).0.inner.bytes ≤ s.capacity)
      sound = insert-within key value expires_at s now_ms sample h.valid fits pos small

      capacity : (insert key value expires_at now_ms sample s).0.capacity ≡ s.capacity
      capacity =
          x.same.capacity ∙ (Evicts-rest x.run).1 ∙ (insert_locked-rest key value expires_at s).1

      stamps :
          (k : Bytes) (e : Entry)
          → get k (insert key value expires_at now_ms sample s).0.inner.entries ≡ some e
          → e.last_access < (insert key value expires_at now_ms sample s).0.counters.clock
      stamps k e held = ground (
        arith,
        insert-get key value expires_at s now_ms sample h.valid fits pos small k,
        h.stamped k e,
        x.clock,
        insert_locked-clock key value expires_at s,
        held,
        tick,
      )

-- Dropping an entry frees its bytes and leaves the rest.
drop_entry-effect :
    (key : Bytes) (entry : Entry) (delta : ℤ) (s : Shard)
    → ((drop_entry key entry delta s).inner.entries ≡ remove key s.inner.entries)
      × ((drop_entry key entry delta s).counters ≡ s.counters)
      × ((drop_entry key entry delta s).capacity ≡ s.capacity)
      × ((drop_entry key entry delta s).inner.bytes ≤ s.inner.bytes)
unfolding drop_entry
drop_entry-effect key entry delta s = ground arith

pub drop_entry-IsStamped :
    (key : Bytes) (entry : Entry) (delta : ℤ) (s : Shard)
    → IsValid s
    → IsStamped s
    → IsStamped (drop_entry key entry delta s)
drop_entry-IsStamped key entry delta s v h k e held =
    let effect = drop_entry-effect key entry delta s in
    ground (arith, effect.0, effect.1, held, get-remove key k s.inner.entries v.distinct, h k e)

pub drop_entry-IsSound :
    (key : Bytes) (entry : Entry) (delta : ℤ) (s : Shard)
    → IsSound s
    → IsValid (drop_entry key entry delta s)
    → IsSound (drop_entry key entry delta s)
drop_entry-IsSound key entry delta s h v =
    let effect = drop_entry-effect key entry delta s in
    record {
      valid = v;
      stamped = drop_entry-IsStamped key entry delta s h.valid h.stamped;
      within = omega (arith, effect.2, effect.3, h.within);
    }

-- `remove` keeps a shard sound.
pub remove_key-IsSound : (key : Bytes) (s : Shard) → IsSound s → IsSound (remove_key key s).0
unfolding remove_key
remove_key-IsSound key s h = elim (Option-cases (get key s.inner.entries)) [
  | inl absent ↦ rw (absent, remove_key) h
  | inr (entry, held) ↦
      rw (held, remove_key)
        (drop_entry-IsSound key entry (ttl_loss entry) s h
          (drop_entry-IsValid key entry (ttl_loss entry) s h.valid held (ttl_loss-IsDelta entry)))
]

serve-effect :
    (key : Bytes) (entry : Entry) (s : Shard)
    → ((serve key entry s).inner.entries ≡ put key (touch s.counters.clock entry) s.inner.entries)
      × ((serve key entry s).counters.clock ≡ add64 s.counters.clock 1)
      × ((serve key entry s).capacity ≡ s.capacity)
      × ((serve key entry s).inner.bytes ≡ s.inner.bytes)
unfolding serve
serve-effect key entry s = ground arith

pub serve-IsStamped :
    (key : Bytes) (entry : Entry) (s : Shard)
    → IsStamped s
    → s.counters.clock + 1 < u64_mod
    → IsStamped (serve key entry s)
serve-IsStamped key entry s h tick k e held =
    let effect = serve-effect key entry s in
    ground (
      arith,
      effect.0,
      effect.1,
      held,
      get-put key k (touch s.counters.clock entry) s.inner.entries,
      h k e,
    )

pub serve-IsSound :
    (key : Bytes) (entry : Entry) (s : Shard)
    → IsSound s
    → get key s.inner.entries ≡ some entry
    → s.counters.clock + 1 < u64_mod
    → IsSound (serve key entry s)
serve-IsSound key entry s h held tick =
    let effect = serve-effect key entry s in
    record {
      valid = serve-IsValid key entry s h.valid held;
      stamped = serve-IsStamped key entry s h.stamped tick;
      within = omega (arith, effect.2, effect.3, h.within);
    }

-- Nothing that soundness reads differs.
pub recount :
    (s t : Shard) → SameBut s t → t.counters.clock ≡ s.counters.clock → IsSound s → IsSound t
recount s t same clock h = record {
  valid = IsValid-SameBut s t same h.valid;
  stamped = λ k e held. rw clock (h.stamped k e (rw (same.inner) at held));
  within = rw (same.inner, same.capacity) h.within;
}
