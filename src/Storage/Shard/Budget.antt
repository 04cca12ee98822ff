-- ===== src/Storage/Shard/Budget.antt =====
-- `evict_shard` as a whole: it leaves the shard within its budget, by fair removals only.
use falcon_cache.Base.{
  ℕ, ◌+◌, ◌≤◌, ◌<◌, ◌≡◌, refl, List, [], arith, length, leb→le, Bool-cases, inl, inr, u64_mod,
  add64, leb, wrapped,
}
use falcon_cache.Storage.Shard.{Shard, Removal, IsValid}
use falcon_cache.Storage.Shard.Evict.{evict_shard, evict_locked, settle, Sweep}
use falcon_cache.Storage.Shard.Eviction.{Evicts, done, Evicts-IsValid, Evicts-rest}
use falcon_cache.Storage.Shard.EvictLoop.{Ended, ended, evict_loop-Ended, evicted_in, expired_in}

-- The shard `t` differs from `s` in nothing that the invariant reads.
pub record SameBut (s t : Shard) : Type 0 where
  pub inner : t.inner ≡ s.inner
  pub capacity : t.capacity ≡ s.capacity
  pub bytes_hint : t.bytes_hint ≡ s.bytes_hint
  pub ttl_hint : t.ttl_hint ≡ s.ttl_hint

pub IsValid-SameBut : (s t : Shard) → SameBut s t → IsValid s → IsValid t
IsValid-SameBut s t same v = record {
  distinct = rw same.inner v.distinct;
  fits = rw same.inner v.fits;
  bytes = rw same.inner v.bytes;
  ttl_keys = rw same.inner v.ttl_keys;
  bytes_hint = rw (same.inner, same.bytes_hint) v.bytes_hint;
  ttl_hint = rw (same.inner, same.ttl_hint) v.ttl_hint;
}

-- What an eviction of `s` that ends in `t` and reports `removed` has done.
pub record Evicted (now sample : ℕ) (s t : Shard) (removed : List Removal) : Type 0 where
  pub last : Shard
  pub run : Evicts now sample s removed last
  pub same : SameBut last t
  pub within : t.inner.bytes ≤ t.capacity
  pub clock : t.counters.clock ≡ s.counters.clock
  pub evictions :
      s.counters.evictions < u64_mod
      → t.counters.evictions ≡ add64 s.counters.evictions (evicted_in removed)
  pub expired :
      s.counters.expired < u64_mod
      → t.counters.expired ≡ add64 s.counters.expired (expired_in removed)

untouched : (now sample : ℕ) (s : Shard) → s.inner.bytes ≤ s.capacity → Evicted now sample s s []
untouched now sample s h = record {
  last = s;
  run = done refl;
  same = record { inner = refl; capacity = refl; bytes_hint = refl; ttl_hint = refl };
  within = h;
  clock = refl;
  evictions = λ b. omega arith;
  expired = λ b. omega arith;
}

settle-SameBut : (w : Sweep) → SameBut w.shard (settle w).0
settle-SameBut w = ground arith

settle-counters :
    (w : Sweep)
    → (w.shard.counters.evictions < u64_mod
        → (settle w).0.counters.evictions ≡ add64 w.shard.counters.evictions w.n_evicted)
      × (w.shard.counters.expired < u64_mod
          → (settle w).0.counters.expired ≡ add64 w.shard.counters.expired w.n_expired)
settle-counters w = ((λ b. ground arith), (λ b. ground arith))

abbrev start_sweep : Shard → Sweep
start_sweep s = record { shard = s; n_evicted = 0; n_expired = 0; removed = [] }

ended-Evicted :
    (now sample rounds : ℕ) (s : Shard) (x : Ended now sample rounds (start_sweep s))
    → Evicted now sample s (settle (ended (start_sweep s) x.new x.last)).0 x.new
ended-Evicted now sample rounds s x =
    let w = ended (start_sweep s) x.new x.last in
    let same = settle-SameBut w in
    let (evictions, expired) = settle-counters w in
    let (counters, capacity) = Evicts-rest x.run in
    record {
      last = x.last;
      run = x.run;
      same = same;
      within = rw (same.inner, same.capacity) x.within;
      clock = ground (arith, counters);
      evictions = λ b. ground arith;
      expired = λ b. ground arith;
    }

-- `sample` is `evict_sample`, at least 1 in every engine that `with_options` builds. With the
-- number of entries it must not pass `usize::MAX`: the bound on the rounds is their sum.
pub evict_locked-Evicted :
    (now sample : ℕ) (s : Shard)
    → IsValid s
    → 0 < sample
    → length s.inner.entries + sample < u64_mod
    → Evicted now sample s (evict_locked now sample s).0 (evict_locked now sample s).1
unfolding evict_locked
evict_locked-Evicted now sample s v h small = elim (Bool-cases (leb s.inner.bytes s.capacity)) [
  | inl under ↦ rw under (untouched now sample s (leb→le _ _ under))
  | inr over ↦
      let x : Ended now sample (wrapped (length s.inner.entries + sample)) (start_sweep s) =
        evict_loop-Ended now sample _ (start_sweep s) h v (omega arith) in
      rw (over, x.result) (ended-Evicted now sample _ s x)
]

-- `evict_shard` refines its specification: the shard it leaves holds no more than its budget, it
-- was reached by removals that were each made over the budget and were each fair, they are what
-- is reported, and the counters rise by their numbers.
pub evict_shard-Evicted :
    (now sample : ℕ) (s : Shard)
    → IsValid s
    → 0 < sample
    → length s.inner.entries + sample < u64_mod
    → Evicted now sample s (evict_shard now sample s).0 (evict_shard now sample s).1
unfolding evict_shard
evict_shard-Evicted now sample s v h small = elim (Bool-cases (leb s.bytes_hint s.capacity)) [
  | inl under ↦ rw under (untouched now sample s (rw (← v.bytes_hint) (leb→le _ _ under)))
  | inr over ↦ rw over (evict_locked-Evicted now sample s v h small)
]

pub Evicted-IsValid :
    {now sample : ℕ} {s t : Shard} {removed : List Removal}
    → Evicted now sample s t removed
    → IsValid s
    → IsValid t
Evicted-IsValid x v = IsValid-SameBut x.last _ x.same (Evicts-IsValid x.run v)
