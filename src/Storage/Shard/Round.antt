-- ===== src/Storage/Shard/Round.antt =====
-- One round of `evict_shard`: on a shard with entries it always drops exactly one.
use falcon_cache.Base.{
  ℕ, ◌%◌, ◌≤◌, ◌<◌, ◌≡◌, refl, true, false, Option, none, some, [], ◌∷◌, ◌++◌, ◌≢◌, arith, All,
  length, ap,
}
use falcon_cache.Base.Equality.{byte_string_eq}
use falcon_cache.Storage.Random.{next_rand}
use falcon_cache.Storage.Table.{get, Distinct}
use falcon_cache.Storage.Shard.{Bytes, Entry, EntryMap, Shard, is_expired, RemovalCause}
use falcon_cache.Storage.Shard.Writes.{drop_entry, ttl_loss}
use falcon_cache.Storage.Shard.Evict.{Sweep, scan, window, tally, with_rng, take_out, evict_round}
use falcon_cache.Storage.Shard.Window.{
  HeldResult, LeastResult, scan-Held, scan-Least, window-Held, length-window,
}

-- The entries that the round looks at.
abbrev pub sampled : ℕ → Shard → EntryMap
sampled sample s =
    window sample ((next_rand s.inner.rng).1 % length s.inner.entries) s.inner.entries

-- An expired entry goes first; otherwise every entry in sight is live, and the one that goes was
-- used no later than any of them.
abbrev pub IsFair : ℕ → EntryMap → Entry → RemovalCause → Type 0
IsFair now seen entry RemovalCause.expired = is_expired now entry ≡ true
IsFair now seen entry RemovalCause.evicted =
    All (λ p. (is_expired now p.1 ≡ false) × (entry.last_access ≤ p.1.last_access)) seen

-- The local variables after a round that drops `entry`.
abbrev pub dropped : Bytes → Entry → RemovalCause → Sweep → Sweep
dropped key entry cause w = tally cause (record w {
  shard = drop_entry key entry (ttl_loss entry) (with_rng (next_rand w.shard.inner.rng).0 w.shard);
  removed = w.removed ++ ((key, cause) ∷ []);
})

pub record Picked (now sample : ℕ) (w : Sweep) : Type 0 where
  pub key : Bytes
  pub entry : Entry
  pub cause : RemovalCause
  pub held : get key w.shard.inner.entries ≡ some entry
  pub fair : IsFair now (sampled sample w.shard) entry cause
  pub round : evict_round now sample w ≡ (dropped key entry cause w, true)

scan-Picked :
    (now sample : ℕ) (w : Sweep) (r : Option Bytes × Option (Bytes × ℕ))
    → scan now (sampled sample w.shard) none ≡ r
    → HeldResult w.shard.inner.entries now r
    → LeastResult w.shard.inner.entries now (sampled sample w.shard) none r
    → sampled sample w.shard ≢ []
    → Picked now sample w
unfolding evict_round take_out
scan-Picked now sample w (some key, victim) e (entry, held, dead) least ne = record {
  key = key;
  entry = entry;
  cause = RemovalCause.expired;
  held = held;
  fair = dead;
  round = rw (e, take_out, held);
}
scan-Picked now sample w (none, some (key, stamp)) e (entry, held, same) least ne = record {
  key = key;
  entry = entry;
  cause = RemovalCause.evicted;
  held = held;
  fair = rw same least.0;
  round = rw (e, take_out, held);
}
scan-Picked now sample w (none, none) e held least ne = absurd (ne least)

length-eq-zero : (m : EntryMap) → length m ≡ 0 → m ≡ []
length-eq-zero [] h = refl
length-eq-zero (p ∷ m) h = absurd (omega arith)

pub sampled-ne-nil :
    (sample : ℕ) (s : Shard) → 0 < sample → s.inner.entries ≢ [] → sampled sample s ≢ []
sampled-ne-nil sample s h ne e = ne (
    length-eq-zero s.inner.entries (
      omega (
        arith,
        ap length e,
        length-window sample ((next_rand s.inner.rng).1 % length s.inner.entries) s.inner.entries,
      )))

pub evict_round-Picked :
    (now sample : ℕ) (w : Sweep)
    → 0 < sample
    → Distinct w.shard.inner.entries
    → w.shard.inner.entries ≢ []
    → Picked now sample w
evict_round-Picked now sample w h d ne =
    scan-Picked now sample w _ refl (scan-Held m now seen none (window-Held sample _ m d) tt)
      (scan-Least m now seen none) (sampled-ne-nil sample w.shard h ne)
  where
    m : EntryMap
    m = w.shard.inner.entries

    seen : EntryMap
    seen = sampled sample w.shard
