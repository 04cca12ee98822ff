-- ===== src/Storage/Shard/Sound.antt =====
-- The reads, the sweep and the eviction keep a shard sound.
use falcon_cache.Base.{
  sum_of, ap, [], ◌∷◌, ℕ, ◌+◌, ◌≤◌, ◌<◌, ◌≡◌, refl, Option, none, some, List, arith, length,
  u64_mod, Bool-cases, Option-cases, inl, inr,
}
use falcon_cache.Base.Equality.{byte_string_eq}
use falcon_cache.Base.Int.{negsuc}
use falcon_cache.Storage.Table.{get}
use falcon_cache.Storage.Shard.{
  charge, EntryMap, Bytes, Entry, Shard, Removal, IsValid, is_expired, count_miss, count_expired,
}
use falcon_cache.Storage.Shard.Lookup.{lookup_fast, lookup_slow, lookup}
use falcon_cache.Storage.Shard.Reads.{drop_expired-IsValid}
use falcon_cache.Storage.Shard.Stored.{IsStamped}
use falcon_cache.Storage.Shard.Budget.{Evicted, Evicted-IsValid, evict_locked-Evicted}
use falcon_cache.Storage.Shard.Eviction.{Evicts-get}
use falcon_cache.Storage.Shard.Evict.{evict_locked}
use falcon_cache.Storage.Shard.Reaping.{IsReaped, live_entries, get-live_entries, if_live}
use falcon_cache.Storage.Shard.Stamps.{IsSound, serve-IsSound, recount, drop_entry-IsSound}

-- A counter that soundness does not read.
miss-recount : (s : Shard) → IsSound s → IsSound (count_miss s)
miss-recount s h =
    recount s (count_miss s)
      (record { inner = refl; capacity = refl; bytes_hint = refl; ttl_hint = refl }) refl h

expired-recount : (n : ℕ) (s : Shard) → IsSound s → IsSound (count_expired n s)
expired-recount n s h =
    recount s (count_expired n s)
      (record { inner = refl; capacity = refl; bytes_hint = refl; ttl_hint = refl }) refl h

module _ (key : Bytes) (now : ℕ) (s : Shard) (h : IsSound s)
    (tick : s.counters.clock + 1 < u64_mod) where
  pub lookup_fast-IsSound : IsSound (lookup_fast key now s).0
  unfolding lookup_fast
  lookup_fast-IsSound = elim (Option-cases (get key s.inner.entries)) [
    | inl absent ↦ rw (absent, lookup_fast) (miss-recount s h)
    | inr (entry, held) ↦ elim (Bool-cases (is_expired now entry)) [
      | inl dead ↦ rw (held, dead, lookup_fast) h
      | inr live ↦ rw (held, live, lookup_fast) (serve-IsSound key entry s h held tick)
    ]
  ]

  pub lookup_slow-IsSound : IsSound (lookup_slow key now s).0
  unfolding lookup_slow
  lookup_slow-IsSound = elim (Option-cases (get key s.inner.entries)) [
    | inl absent ↦ rw (absent, lookup_slow) (miss-recount _ (expired-recount 1 s h))
    | inr (entry, held) ↦ elim (Bool-cases (is_expired now entry)) [
      | inl dead ↦
          rw (held, dead, lookup_slow)
            (miss-recount _ (
              expired-recount 1 _ (
                drop_entry-IsSound key entry (negsuc 0) s h
                  (drop_expired-IsValid now key entry s h.valid held dead))))
      | inr live ↦ rw (held, live, lookup_slow) (serve-IsSound key entry s h held tick)
    ]
  ]

-- `lookup` keeps a shard sound.
pub lookup-IsSound :
    (key : Bytes) (now : ℕ) (s : Shard)
    → IsSound s
    → s.counters.clock + 1 < u64_mod
    → IsSound (lookup key now s).0
unfolding lookup lookup_fast
lookup-IsSound key now s h tick = elim (Option-cases (get key s.inner.entries)) [
  | inl absent ↦ rw (absent, lookup, lookup_fast) (miss-recount s h)
  | inr (entry, held) ↦ elim (Bool-cases (is_expired now entry)) [
    | inl dead ↦ rw (held, dead, lookup, lookup_fast) (lookup_slow-IsSound key now s h tick)
    | inr live ↦ rw (held, live, lookup, lookup_fast) (serve-IsSound key entry s h held tick)
  ]
]

-- The entries of `t` are some of those of `s`.
IsSound-subset :
    (s t : Shard)
    → IsValid t
    → ((k : Bytes) (e : Entry) → get k t.inner.entries ≡ some e → get k s.inner.entries ≡ some e)
    → t.counters.clock ≡ s.counters.clock
    → t.inner.bytes ≤ t.capacity
    → IsStamped s
    → IsSound t
IsSound-subset s t v part clock within stamped = record {
  valid = v;
  stamped = λ k e held. rw clock (stamped k e (part k e held));
  within = within;
}

-- The eviction makes any valid shard sound, also one that a write has left over its budget.
pub evict_locked-IsSound :
    (now sample : ℕ) (s : Shard)
    → IsValid s
    → IsStamped s
    → 0 < sample
    → length s.inner.entries + sample < u64_mod
    → IsSound (evict_locked now sample s).0
evict_locked-IsSound now sample s v stamped pos small =
    IsSound-subset s (evict_locked now sample s).0 (Evicted-IsValid x v) part x.clock x.within
      stamped
  where
    x : Evicted now sample s (evict_locked now sample s).0 (evict_locked now sample s).1
    x = evict_locked-Evicted now sample s v pos small

    part :
        (k : Bytes) (e : Entry)
        → get k (evict_locked now sample s).0.inner.entries ≡ some e
        → get k s.inner.entries ≡ some e
    part k e held = ground (arith, Evicts-get x.run v k, x.same.inner, held)

charge-live_entries :
    (now : ℕ) (m : EntryMap) → sum_of charge (live_entries now m) ≤ sum_of charge m
unfolding live_entries
charge-live_entries now [] = omega arith
charge-live_entries now (p ∷ m) = ground (arith, charge-live_entries now m)

if_live-some : (now : ℕ) (o : Option Entry) (e : Entry) → if_live now o ≡ some e → o ≡ some e
if_live-some now none e h = h
if_live-some now (some x) e h = ground arith

pub IsReaped-IsStamped :
    {now : ℕ} {s t : Shard} {removed reported : List Removal}
    → IsReaped now s t removed reported
    → IsValid s
    → IsStamped s
    → IsStamped t
IsReaped-IsStamped {now} {s} {t} x v h k e held = rw (x.clock) (
    h k e (
      if_live-some now (get k s.inner.entries) e
        (rw (x.entries, get-live_entries now k s.inner.entries v.distinct) at held)))

-- A reaped shard is sound, if it was.
pub IsReaped-IsSound :
    {now : ℕ} {s t : Shard} {removed reported : List Removal}
    → IsReaped now s t removed reported
    → IsSound s
    → IsSound t
IsReaped-IsSound {now} {s} {t} x h = record {
  valid = x.valid;
  stamped = IsReaped-IsStamped x h.valid h.stamped;
  within = omega (
    arith,
    x.valid.bytes,
    h.valid.bytes,
    ap (sum_of charge) x.entries,
    charge-live_entries now s.inner.entries,
    x.capacity,
    h.within,
  );
}
