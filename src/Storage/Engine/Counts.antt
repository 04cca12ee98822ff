-- ===== src/Storage/Engine/Counts.antt =====
-- The totals of a running engine, and its sweep.
use falcon_cache.Base.{
  ℕ, suc, ◌+◌, ◌<◌, ◌≡◌, refl, ap, ◌∙◌, List, [], ◌∷◌, arith, length, All, sum_of, u64_mod, wrapped,
}
use falcon_cache.Base.Equality.{byte_string_eq}
use falcon_cache.Storage.Shard.{Shard, Removal, charge, ttl_weight}
use falcon_cache.Storage.Shard.Reap.{reap_shard}
use falcon_cache.Storage.Shard.Reaping.{live_entries, reap_shard-IsReaped}
use falcon_cache.Storage.Shard.Sound.{IsReaped-IsSound}
use falcon_cache.Storage.Engine.{
  CacheEngine, CacheStats, add_shard_stats, sum_stats, stats, reap_each, reap_expired,
  tracked_ttl_keys, count_ttl_keys_by_scan,
}
use falcon_cache.Storage.Engine.Running.{IsShare, IsRunning}
use falcon_cache.Storage.Engine.Operations.{notify_removed-IsRunning, notify_removed-rest}

ttl_hints :
    (per_shard : ℕ) (xs : List Shard)
    → All (IsShare per_shard) xs
    → sum_of (λ s. s.ttl_hint) xs ≡ sum_of (λ s. sum_of ttl_weight s.inner.entries) xs
ttl_hints per_shard [] h = refl
ttl_hints per_shard (s ∷ xs) h =
    omega (arith, h.0.sound.valid.ttl_hint, h.0.sound.valid.ttl_keys, ttl_hints per_shard xs h.1)

-- The lock-free count of keys with an expiry equals the count by a full scan.
pub tracked_ttl_keys-scan :
    (capacity_bytes : ℕ) (e : CacheEngine)
    → IsRunning capacity_bytes e
    → tracked_ttl_keys e ≡ count_ttl_keys_by_scan e
unfolding tracked_ttl_keys count_ttl_keys_by_scan
tracked_ttl_keys-scan capacity_bytes e h = ap wrapped (ttl_hints _ e.shards h.shares)

sum_stats-totals :
    (per_shard : ℕ) (xs : List Shard) (out : CacheStats)
    → All (IsShare per_shard) xs
    → out.keys + sum_of (λ s. length s.inner.entries) xs < u64_mod
    → out.bytes + sum_of (λ s. sum_of charge s.inner.entries) xs < u64_mod
    → ((sum_stats xs out).keys ≡ out.keys + sum_of (λ s. length s.inner.entries) xs)
      × ((sum_stats xs out).bytes ≡ out.bytes + sum_of (λ s. sum_of charge s.inner.entries) xs)
unfolding sum_stats
sum_stats-totals per_shard [] out h keys bytes = (omega arith, omega arith)
sum_stats-totals per_shard (s ∷ xs) out h keys bytes =
    let (a, b) =
      sum_stats-totals per_shard xs (add_shard_stats s out) h.1 (omega arith)
        (omega (arith, h.0.sound.valid.bytes)) in
    (omega (arith, a), omega (arith, b, h.0.sound.valid.bytes))

-- `stats` reports the number of entries and the bytes they take, overhead included, when both
-- totals fit a machine word.
pub stats-totals :
    (capacity_bytes : ℕ) (e : CacheEngine)
    → IsRunning capacity_bytes e
    → sum_of (λ s. length s.inner.entries) e.shards < u64_mod
    → sum_of (λ s. sum_of charge s.inner.entries) e.shards < u64_mod
    → ((stats e).keys ≡ sum_of (λ s. length s.inner.entries) e.shards)
      × ((stats e).bytes ≡ sum_of (λ s. sum_of charge s.inner.entries) e.shards)
unfolding stats
stats-totals capacity_bytes e h keys bytes =
    let (a, b) =
      sum_stats-totals _ e.shards
        (record { hits = 0; misses = 0; evictions = 0; expired = 0; keys = 0; bytes = 0 }) h.shares
        (omega arith) (omega arith) in
    (omega (arith, a), omega (arith, b))

-- Two lists of shards side by side: the second has the entries of the first that are live at the
-- time that its position was swept at.
abbrev pub AllLive : (ℕ → ℕ) → ℕ → List Shard → List Shard → Type 0
AllLive times i [] ys = ys ≡ []
AllLive times i (s ∷ xs) [] = ⊥
AllLive times i (s ∷ xs) (t ∷ ys) =
    (t.inner.entries ≡ live_entries (times i) s.inner.entries) × AllLive times (i + 1) xs ys

reap_each-live :
    (per_shard : ℕ) (times : ℕ → ℕ) (i : ℕ) (xs : List Shard) (removed : List Removal)
    → All (IsShare per_shard) xs
    → All (IsShare per_shard) (reap_each times i xs removed).0
      × AllLive times i xs (reap_each times i xs removed).0
      × (length (reap_each times i xs removed).0 ≡ length xs)
unfolding reap_each
reap_each-live per_shard times i [] removed h = (tt, refl, refl)
reap_each-live per_shard times i (s ∷ xs) removed h =
    let x = reap_shard-IsReaped (times i) s removed h.0.sound.valid in
    let rest = reap_each-live per_shard times (i + 1) xs (reap_shard (times i) s removed).1 h.1 in
    (
      (
        record { sound = IsReaped-IsSound x h.0.sound; capacity = x.capacity ∙ h.0.capacity },
        rest.0,
      ),
      (x.entries, rest.1),
      ap suc rest.2,
    )

-- `reap_expired` keeps the engine running and leaves in every shard exactly the entries that are
-- live at the time it is swept.
pub reap_expired-live :
    (capacity_bytes : ℕ) (times : ℕ → ℕ) (e : CacheEngine)
    → IsRunning capacity_bytes e
    → IsRunning capacity_bytes (reap_expired times e)
      × AllLive times 0 e.shards (reap_expired times e).shards
unfolding reap_expired
reap_expired-live capacity_bytes times e h =
    let (done, removed) = reap_each times 0 e.shards [] in
    let (shares, live, count) = reap_each-live _ times 0 e.shards [] h.shares in
    let after = record e { shards = done } in
    (
      notify_removed-IsRunning capacity_bytes removed after
          (record { shares = rw count shares; routed = count ∙ h.routed; sampled = h.sampled }),
      rw (notify_removed-rest removed after).0 live,
    )
