-- ===== src/Storage/Shard/Interleaved.antt =====
-- Threads on one shard: each takes the steps between which others may run, in any order.
use falcon_cache.Base.{
  sym, ◌∙◌, inl, inr, Bool-cases, Option-cases, ℕ, ◌+◌, ◌<◌, ◌≡◌, refl, some, [], ◌∷◌, ◌++◌, arith,
  length, ap, u64_mod, sum_of, sum_of-append,
}
use falcon_cache.Base.Equality.{byte_string_eq}
use falcon_cache.Storage.Table.{get, put, Distinct}
use falcon_cache.Storage.Table.Laws.{get-put, put-Distinct}
use falcon_cache.Storage.Table.Weights.{sum_of-put_occupied}
use falcon_cache.Storage.Shard.{
  Bytes, Entry, EntryMap, Shard, is_expired, IsValid, access_clock, set_entries, touch, charge,
  ttl_weight,
}
use falcon_cache.Storage.Shard.Writes.{write_entry, remove_key, ttl_loss}
use falcon_cache.Storage.Shard.Accounting.{
  Fits, write_entry-IsValid, drop_entry-IsValid, ttl_loss-IsDelta,
}
use falcon_cache.Storage.Shard.Lookup.{lookup_slow}
use falcon_cache.Storage.Shard.Budget.{SameBut, IsValid-SameBut}
use falcon_cache.Storage.Shard.Evict.{evict_locked}
use falcon_cache.Storage.Shard.Reap.{reap_locked}
use falcon_cache.Storage.Shard.Stored.{IsStamped}
use falcon_cache.Base.Int.{negsuc}
use falcon_cache.Storage.Shard.Reads.{lookup_slow-IsValid}
use falcon_cache.Storage.Shard.Reaping.{reap_locked-IsReaped}
use falcon_cache.Storage.Shard.Stamps.{serve-IsStamped, drop_entry-IsStamped}
use falcon_cache.Storage.Shard.Sound.{evict_locked-IsSound, IsReaped-IsStamped}

-- The counts are true and the stamps are past. Between a write and the eviction after it the
-- shard may be over its budget, so soundness is not asked for.
pub record IsConsistent (s : Shard) : Type 0 where
  pub valid : IsValid s
  pub stamped : IsStamped s

-- One step of some thread. `insert` takes its stamp before the lock, and readers under the
-- shared lock take a stamp and store it in two steps.
pub data Section (s t : Shard) : Type 0 where
  tick : s.counters.clock + 1 < u64_mod → t ≡ (access_clock s).1 → Section s t
  write :
      (key : Bytes) (entry : Entry)
      → entry.last_access < s.counters.clock
      → Fits key entry s
      → t ≡ write_entry key entry s
      → Section s t
  stamp :
      (key : Bytes) (entry : Entry) (n : ℕ)
      → get key s.inner.entries ≡ some entry
      → n < s.counters.clock
      → t ≡ set_entries (put key (touch n entry) s.inner.entries) s
      → Section s t
  count : SameBut s t → t.counters.clock ≡ s.counters.clock → Section s t
  expire :
      (key : Bytes) (now : ℕ)
      → s.counters.clock + 1 < u64_mod
      → t ≡ (lookup_slow key now s).0
      → Section s t
  remove : (key : Bytes) → t ≡ (remove_key key s).0 → Section s t
  evict :
      (now sample : ℕ)
      → 0 < sample
      → length s.inner.entries + sample < u64_mod
      → t ≡ (evict_locked now sample s).0
      → Section s t
  reap : (now : ℕ) → t ≡ (reap_locked now s []).0 → Section s t
  -- The table moves its buckets: two neighbours change places.
  reorder :
      (front back : EntryMap) (p q : Bytes × Entry)
      → s.inner.entries ≡ front ++ (p ∷ q ∷ back)
      → t ≡ set_entries (front ++ (q ∷ p ∷ back)) s
      → Section s t

pub data Reach (s : Shard) : Shard → Type 0 where
  here : Reach s s
  next : {t u : Shard} → Reach s t → Section t u → Reach s u

pub swap-get :
    (front back : EntryMap) (p q : Bytes × Entry) (k : Bytes)
    → Distinct (front ++ (p ∷ q ∷ back))
    → get k (front ++ (q ∷ p ∷ back)) ≡ get k (front ++ (p ∷ q ∷ back))
unfolding get
swap-get [] back p q k d = ground (
  arith,
  byte_string_eq.beq_iff p.0 k,
  byte_string_eq.beq_iff q.0 k,
  byte_string_eq.beq_iff q.0 p.0,
)
swap-get (r ∷ front) back p q k d = ground (arith, swap-get front back p q k)

swap-Distinct :
    (front back : EntryMap) (p q : Bytes × Entry)
    → Distinct (front ++ (p ∷ q ∷ back))
    → Distinct (front ++ (q ∷ p ∷ back))
unfolding get
swap-Distinct [] back p q d =
    ground (arith, byte_string_eq.beq_iff p.0 q.0, byte_string_eq.beq_iff q.0 p.0)
swap-Distinct (r ∷ front) back p q d =
    (swap-get front back p q r.0 d.1 ∙ d.0, swap-Distinct front back p q d.1)

swap-sum_of :
    (w : Bytes × Entry → ℕ) (front back : EntryMap) (p q : Bytes × Entry)
    → sum_of w (front ++ (q ∷ p ∷ back)) ≡ sum_of w (front ++ (p ∷ q ∷ back))
swap-sum_of w front back p q =
    omega (arith, sum_of-append w front (q ∷ p ∷ back), sum_of-append w front (p ∷ q ∷ back))

reorder-IsConsistent :
    (front back : EntryMap) (p q : Bytes × Entry) (s : Shard)
    → s.inner.entries ≡ front ++ (p ∷ q ∷ back)
    → IsConsistent s
    → IsConsistent (set_entries (front ++ (q ∷ p ∷ back)) s)
reorder-IsConsistent front back p q s order h =
    let d = rw order at h.valid.distinct in
    record {
      valid = record {
        distinct = swap-Distinct front back p q d;
        fits = rw (swap-sum_of charge front back p q) (rw order at h.valid.fits);
        bytes = rw (swap-sum_of charge front back p q) (rw order at h.valid.bytes);
        ttl_keys = rw (swap-sum_of ttl_weight front back p q) (rw order at h.valid.ttl_keys);
        bytes_hint = h.valid.bytes_hint;
        ttl_hint = h.valid.ttl_hint;
      };
      stamped =
          λ k e held. h.stamped k e (ap (get k) order ∙ (sym (swap-get front back p q k d) ∙ held));
    }

write-IsStamped :
    (key : Bytes) (entry : Entry) (s : Shard)
    → entry.last_access < s.counters.clock
    → IsStamped s
    → IsStamped (write_entry key entry s)
unfolding write_entry
write-IsStamped key entry s past h k e held =
    ground (arith, get-put key k entry s.inner.entries, h k e, held)

stamp-IsConsistent :
    (key : Bytes) (entry : Entry) (n : ℕ) (s : Shard)
    → get key s.inner.entries ≡ some entry
    → n < s.counters.clock
    → IsConsistent s
    → IsConsistent (set_entries (put key (touch n entry) s.inner.entries) s)
stamp-IsConsistent key entry n s held past h = record {
  valid = ground (
    arith,
    h.valid,
    put-Distinct key (touch n entry) s.inner.entries,
    sum_of-put_occupied charge key (touch n entry) s.inner.entries entry held,
    sum_of-put_occupied ttl_weight key (touch n entry) s.inner.entries entry held,
  );
  stamped = λ k e found.
      ground (arith, get-put key k (touch n entry) s.inner.entries, h.stamped k e, found);
}

lookup_slow-IsStamped :
    (key : Bytes) (now : ℕ) (s : Shard)
    → IsConsistent s
    → s.counters.clock + 1 < u64_mod
    → IsStamped (lookup_slow key now s).0
unfolding lookup_slow
lookup_slow-IsStamped key now s h room = elim (Option-cases (get key s.inner.entries)) [
  | inl absent ↦ rw (absent, lookup_slow) (h.stamped)
  | inr (entry, held) ↦ elim (Bool-cases (is_expired now entry)) [
    | inl dead ↦
        rw (held, dead, lookup_slow) (drop_entry-IsStamped key entry (negsuc 0) s h.valid h.stamped)
    | inr live ↦ rw (held, live, lookup_slow) (serve-IsStamped key entry s h.stamped room)
  ]
]

remove_key-IsConsistent :
    (key : Bytes) (s : Shard) → IsConsistent s → IsConsistent (remove_key key s).0
unfolding remove_key
remove_key-IsConsistent key s h = elim (Option-cases (get key s.inner.entries)) [
  | inl absent ↦ rw (absent, remove_key) h
  | inr (entry, held) ↦
      rw (held, remove_key)
        (record {
          valid =
              drop_entry-IsValid key entry (ttl_loss entry) s h.valid held (ttl_loss-IsDelta entry);
          stamped = drop_entry-IsStamped key entry (ttl_loss entry) s h.valid h.stamped;
        })
]

pub Section-IsConsistent : {s t : Shard} → Section s t → IsConsistent s → IsConsistent t
Section-IsConsistent {s} {t} (tick room eq) h = rw eq (record {
  valid =
      IsValid-SameBut s _
        (record { inner = refl; capacity = refl; bytes_hint = refl; ttl_hint = refl }) h.valid;
  stamped = λ k e held. omega (arith, h.stamped k e held);
})
Section-IsConsistent {s} {t} (write key entry past fits eq) h = rw eq (record {
  valid = write_entry-IsValid key entry s h.valid fits;
  stamped = write-IsStamped key entry s past h.stamped;
})
Section-IsConsistent {s} {t} (stamp key entry n held past eq) h =
    rw eq (stamp-IsConsistent key entry n s held past h)
Section-IsConsistent {s} {t} (count same clock) h = record {
  valid = IsValid-SameBut s t same h.valid;
  stamped = λ k e held. rw clock (h.stamped k e (rw (same.inner) at held));
}
Section-IsConsistent {s} {t} (expire key now room eq) h = rw eq (record {
  valid = lookup_slow-IsValid key now s h.valid;
  stamped = lookup_slow-IsStamped key now s h room;
})
Section-IsConsistent {s} {t} (remove key eq) h = rw eq (remove_key-IsConsistent key s h)
Section-IsConsistent {s} {t} (evict now sample pos small eq) h =
    let sound = evict_locked-IsSound now sample s h.valid h.stamped pos small in
    rw eq (record { valid = sound.valid; stamped = sound.stamped })
Section-IsConsistent {s} {t} (reap now eq) h =
    let x = reap_locked-IsReaped now s [] h.valid in
    rw eq (record { valid = x.valid; stamped = IsReaped-IsStamped x h.valid h.stamped })
Section-IsConsistent {s} {t} (reorder front back p q order eq) h =
    rw eq (reorder-IsConsistent front back p q s order h)

-- Whatever order the threads' sections run in, from a consistent shard only consistent ones are
-- reached: the byte count, the count of expiring entries and their two lock-free mirrors equal
-- what the entries add up to, and every access stamp is behind the clock.
pub Reach-IsConsistent : {s t : Shard} → Reach s t → IsConsistent s → IsConsistent t
Reach-IsConsistent here h = h
Reach-IsConsistent (next run step) h = Section-IsConsistent step (Reach-IsConsistent run h)
