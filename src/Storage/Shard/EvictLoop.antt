-- ===== src/Storage/Shard/EvictLoop.antt =====
-- The loop of `evict_shard` does what `Evicts` says, and its rounds are enough to end it within
-- the budget.
use falcon_cache.Base.{
  ◌≢◌, ℕ, zero, suc, ◌+◌, ◌≤◌, ◌<◌, ◌≡◌, refl, ap, ◌∙◌, true, false, List, [], ◌∷◌, ◌++◌, arith,
  length, ltb→lt, Bool-cases, inl, inr, sum_of,
}
use falcon_cache.Base.Equality.{byte_string_eq}
use mathlib.Core.List.{append-nil, append_assoc}
use falcon_cache.Storage.Shard.{
  Bytes, Entry, EntryMap, Shard, RemovalCause, Removal, IsValid, charge,
}
use falcon_cache.Storage.Table.Laws.{length-remove}
use falcon_cache.Storage.Shard.Evict.{Sweep, evict_loop, over_budget, is_empty}
use falcon_cache.Storage.Shard.Round.{Picked, evict_round-Picked, dropped}
use falcon_cache.Storage.Shard.Eviction.{
  Evicts, done, round, after_drop, after_drop-IsValid, drop_entry-entries,
}

abbrev pub evicted_in : List Removal → ℕ
evicted_in [] = 0
evicted_in ((key, RemovalCause.evicted) ∷ r) = suc (evicted_in r)
evicted_in ((key, RemovalCause.expired) ∷ r) = evicted_in r

abbrev pub expired_in : List Removal → ℕ
expired_in [] = 0
expired_in ((key, RemovalCause.evicted) ∷ r) = expired_in r
expired_in ((key, RemovalCause.expired) ∷ r) = suc (expired_in r)

-- The local variables after the removals `new`, which leave the shard `t`.
abbrev pub ended : Sweep → List Removal → Shard → Sweep
ended w new t = record {
  shard = t;
  n_evicted = w.n_evicted + evicted_in new;
  n_expired = w.n_expired + expired_in new;
  removed = w.removed ++ new;
}

pub record Ended (now sample rounds : ℕ) (w : Sweep) : Type 0 where
  pub new : List Removal
  pub last : Shard
  pub run : Evicts now sample w.shard new last
  pub result : evict_loop rounds now sample w ≡ ended w new last
  pub within : last.inner.bytes ≤ last.capacity

ended_nil : (w : Sweep) → w ≡ ended w [] w.shard
ended_nil w = ground (arith, append-nil w.removed)

ended-dropped :
    (w : Sweep) (key : Bytes) (entry : Entry) (cause : RemovalCause) (new : List Removal)
    (t : Shard)
    → ended (dropped key entry cause w) new t ≡ ended w ((key, cause) ∷ new) t
ended-dropped w key entry RemovalCause.evicted new t =
    ground (arith, append_assoc w.removed ((key, RemovalCause.evicted) ∷ []) new)
ended-dropped w key entry RemovalCause.expired new t =
    ground (arith, append_assoc w.removed ((key, RemovalCause.expired) ∷ []) new)

dropped-shard :
    (key : Bytes) (entry : Entry) (cause : RemovalCause) (w : Sweep)
    → (dropped key entry cause w).shard ≡ after_drop key entry w.shard
dropped-shard key entry RemovalCause.evicted w = refl
dropped-shard key entry RemovalCause.expired w = refl

empty-bytes : (s : Shard) → IsValid s → length s.inner.entries ≡ 0 → s.inner.bytes ≡ 0
empty-bytes s v h = go s.inner.entries h v.bytes
  where
    go : (m : EntryMap) → length m ≡ 0 → s.inner.bytes ≡ sum_of charge m → s.inner.bytes ≡ 0
    go [] h' e = e
    go (p ∷ m) h' e = absurd (omega arith)

stops :
    (now sample rounds : ℕ) (w : Sweep)
    → evict_loop rounds now sample w ≡ w
    → w.shard.inner.bytes ≤ w.shard.capacity
    → Ended now sample rounds w
stops now sample rounds w e h = record {
  new = [];
  last = w.shard;
  run = done refl;
  result = e ∙ ended_nil w;
  within = h;
}

goes_on :
    (now sample rounds : ℕ) (w : Sweep) (p : Picked now sample w)
    → w.shard.capacity < w.shard.inner.bytes
    → evict_loop (suc rounds) now sample w
      ≡ evict_loop rounds now sample (dropped p.key p.entry p.cause w)
    → Ended now sample rounds (dropped p.key p.entry p.cause w)
    → Ended now sample (suc rounds) w
goes_on now sample rounds w p over e rest = record {
  new = (p.key, p.cause) ∷ rest.new;
  last = rest.last;
  run =
      round p.key p.entry p.cause over p.held p.fair
        (rw (dropped-shard p.key p.entry p.cause w) at rest.run);
  result = e ∙ rest.result ∙ ended-dropped w p.key p.entry p.cause rest.new rest.last;
  within = rest.within;
}

is_empty-false : (m : EntryMap) → is_empty m ≡ false → m ≢ []
is_empty-false [] h = cc
is_empty-false (p ∷ m) h = ground arith

is_empty-true : (m : EntryMap) → is_empty m ≡ true → length m ≡ 0
is_empty-true [] h = refl
is_empty-true (p ∷ m) h = cc

pub evict_loop-Ended :
    (now sample rounds : ℕ) (w : Sweep)
    → 0 < sample
    → IsValid w.shard
    → length w.shard.inner.entries ≤ rounds
    → Ended now sample rounds w
unfolding evict_loop
evict_loop-Ended now sample zero w h v enough =
    stops now sample zero w refl (omega (arith, empty-bytes w.shard v (omega arith)))
evict_loop-Ended now sample (suc rounds) w h v enough = elim (Bool-cases (over_budget w.shard)) [
  | inr under ↦ stops now sample (suc rounds) w (rw (under, evict_loop)) (ground arith)
  | inl over ↦ elim (Bool-cases (is_empty w.shard.inner.entries)) [
    | inl gone ↦
        stops now sample (suc rounds) w (rw (over, gone, evict_loop))
          (omega (arith, empty-bytes w.shard v (is_empty-true _ gone)))
    | inr some_left ↦
        let p = evict_round-Picked now sample w h v.distinct (is_empty-false _ some_left) in
        goes_on now sample rounds w p (ltb→lt _ _ over)
          (rw (over, some_left, p.round, p.round, evict_loop))
          (evict_loop-Ended now sample rounds (dropped p.key p.entry p.cause w) h
            (rw (dropped-shard p.key p.entry p.cause w)
              (after_drop-IsValid p.key p.entry w.shard v p.held))
            (rw (dropped-shard p.key p.entry p.cause w) (
              omega (
                arith,
                ap length (drop_entry-entries p.key p.entry w.shard),
                length-remove p.key w.shard.inner.entries p.entry p.held,
              ))))
  ]
]
