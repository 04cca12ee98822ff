-- ===== src/Storage/Engine/Cycle.antt =====
-- Turns of the maintenance task (`spawn_maintenance`): its slices go round all shards.
use falcon_cache.Base.{
  ℕ, zero, suc, ◌+◌, ◌-◌, ◌*◌, ◌/◌, ◌%◌, ◌≤◌, ◌<◌, ◌≡◌, refl, ap, ◌∙◌, sym, min, max, Option, none,
  some, List, [], ◌∷◌, arith, length, get_elem?, add64, u64_mod, ltb, leb, Bool-cases, inl, inr,
}
use Prim.Native.Nat.{◌∣◌}
use native.Mathlib.Nat.{
  suc-mul, mod-lt, mod-mod_of_dvd, add-mod, mod-eq_of_lt, add-mod_right, mod-add-mod,
}
use falcon_cache.Storage.Shard.{Shard, Removal}
use falcon_cache.Storage.Engine.{CacheEngine, notify_removed, reap_some}
use falcon_cache.Storage.Engine.Running.{IsRunning}
use falcon_cache.Storage.Engine.Operations.{notify_removed-IsRunning, notify_removed-rest}
use falcon_cache.Storage.Engine.Sweeping.{IsClean, CleanAt, reap_from-Swept}
use falcon_cache.Storage.Pacer.{SweepPacer, observe, maintain, next_delay-jitter}

notify_removed-cursor :
    (removed : List Removal) (e : CacheEngine)
    → (notify_removed removed e).sweep_cursor ≡ e.sweep_cursor
unfolding notify_removed
notify_removed-cursor removed e = ground arith

-- The positions that the next `count` rounds visit, wherever the cursor is.
abbrev Ahead : ℕ → ℕ → ℕ → ℕ → Type 0
Ahead cursor count n j = (m : ℕ) × (m < count) × (j ≡ (cursor + m) % n)

-- What sweeps make of an engine.
pub record Cleaned (capacity_bytes now : ℕ) (e after : CacheEngine) (visited : ℕ → Type 0)
    : Type 0 where
  pub running : IsRunning capacity_bytes after
  pub count : length after.shards ≡ length e.shards
  pub kept : (j : ℕ) → CleanAt now e.shards j → CleanAt now after.shards j
  pub cleaned : (j : ℕ) → visited j → CleanAt now after.shards j

module _ (capacity_bytes now : ℕ) where
  -- A call never indexes out of bounds, cleans the shards of its slice, and moves the cursor.
  reap_some-Cleaned :
      (times : ℕ → ℕ) (count : ℕ) (e : CacheEngine)
      → ((m : ℕ) → now ≤ times m)
      → IsRunning capacity_bytes e
      → length e.shards ∣ u64_mod
      → count ≤ length e.shards
      → (after : CacheEngine) × (reclaimed : ℕ) × (reap_some times count e
          ≡ some (after, reclaimed))
        × (after.sweep_cursor ≡ add64 e.sweep_cursor count)
        × Cleaned capacity_bytes now e after (Ahead e.sweep_cursor count (length e.shards))
  unfolding reap_some
  reap_some-Cleaned times count e late h whole slice =
      let full : 0 < length e.shards = omega (arith, h.routed) in
      let rounds : min count (length e.shards) ≡ count = omega (arith, slice) in
      let (ys, gone, ran, w) =
        reap_from-Swept (max (capacity_bytes / length e.shards) 1) now times e.sweep_cursor late 0
          (min count (length e.shards)) e.shards [] full h.shares in
      let swept = record e { shards = ys; sweep_cursor = add64 e.sweep_cursor count } in
      let (shards, mask, sample) = notify_removed-rest gone swept in
      (
        notify_removed gone swept,
        length gone,
        rw (reap_some, ran) refl,
        notify_removed-cursor gone swept,
        record {
          running = notify_removed-IsRunning capacity_bytes gone swept (record {
            shares = rw w.count w.shares;
            routed = w.count ∙ h.routed;
            sampled = h.sampled;
          });
          count = ap length shards ∙ w.count;
          kept = λ j clean. rw shards (w.kept j clean);
          cleaned = λ j (m, small, at). rw shards (
              w.cleaned j (
                m,
                omega arith,
                omega (arith, small, rounds),
                at ∙ sym (mod-mod_of_dvd (length e.shards) (e.sweep_cursor + m) whole),
              ));
        },
      )

-- `k` turns of the maintenance task; turn `i` reads the clock at `times i`.
unfoldable pub turns : (ℕ → ℕ → ℕ) → ℕ → ℕ → CacheEngine → SweepPacer → Option CacheEngine
unfolding maintain
turns times i zero e p = some e
turns times i (suc k) e p = elim (maintain (times i) e p) [
  | none ↦ none
  | some (after, q, slept) ↦ turns times (i + 1) k after q
]

-- How many shards a turn sweeps.
abbrev per_tick : ℕ → ℕ
per_tick n = max (n / 8) 1

-- The position of a round after the slice that is `count` long.
later_position :
    (cursor count m n : ℕ)
    → n ∣ u64_mod
    → count ≤ m
    → (add64 cursor count + (m - count)) % n ≡ (cursor + m) % n
later_position cursor count m n whole behind =
    add-mod (add64 cursor count) (m - count) n
    ∙ ap (λ x. (x + (m - count) % n) % n) (mod-mod_of_dvd n (cursor + count) whole)
    ∙ sym (add-mod (cursor + count) (m - count) n)
    ∙ ap (λ x. x % n) (omega (arith, behind))

module _ (capacity_bytes now : ℕ) where
  maintain-Cleaned :
      (times : ℕ → ℕ) (e : CacheEngine) (p : SweepPacer)
      → ((m : ℕ) → now ≤ times m)
      → IsRunning capacity_bytes e
      → length e.shards ∣ u64_mod
      → (after : CacheEngine) × (q : SweepPacer) × (slept : ℕ) × (maintain times e p
          ≡ some (after, q, slept))
        × (after.sweep_cursor ≡ add64 e.sweep_cursor (per_tick (length e.shards)))
        × Cleaned capacity_bytes now e after
            (Ahead e.sweep_cursor (per_tick (length e.shards)) (length e.shards))
  unfolding maintain
  maintain-Cleaned times e p late h whole =
      let (q, slept, paced, delay, low, high) = next_delay-jitter p in
      let (after, reclaimed, ran, moved, w) =
        reap_some-Cleaned capacity_bytes now times (per_tick (length e.shards)) e late h whole
          (omega (arith, h.routed)) in
      (after, observe reclaimed q, slept, rw (maintain, paced, ran) refl, moved, w)

  turns-Cleaned :
      (times : ℕ → ℕ → ℕ) (i k : ℕ) (e : CacheEngine) (p : SweepPacer)
      → ((j m : ℕ) → now ≤ times j m)
      → IsRunning capacity_bytes e
      → length e.shards ∣ u64_mod
      → (final : CacheEngine) × (turns times i k e p ≡ some final)
        × Cleaned capacity_bytes now e final
            (Ahead e.sweep_cursor (k * per_tick (length e.shards)) (length e.shards))
  unfolding turns
  turns-Cleaned times i zero e p late h whole = (
    e,
    refl,
    record {
      running = h;
      count = refl;
      kept = λ j clean. clean;
      cleaned = λ j (m, small, at). absurd (omega (arith, small));
    },
  )
  turns-Cleaned times i (suc k) e p late h whole =
      let n = length e.shards in
      let c = per_tick n in
      let (after, q, slept, ran, moved, first) = maintain-Cleaned (times i) e p (late i) h whole in
      let (final, ended, rest) =
        turns-Cleaned times (i + 1) k after q late first.running (rw (first.count) whole) in
      (
        final,
        rw (turns, ran) ended,
        record {
          running = rest.running;
          count = rest.count ∙ first.count;
          kept = λ j clean. rest.kept j (first.kept j clean);
          cleaned = λ j (m, small, at). elim (Bool-cases (ltb m c)) [
            | inl here ↦ rest.kept j (first.cleaned j (m, ground (arith, here), at))
            | inr beyond ↦
                let behind : c ≤ m = ground (arith, beyond) in
                rest.cleaned j (
                  m - c,
                  rw (first.count) (omega (arith, small, behind, suc-mul k c)),
                  rw (first.count, moved)
                      (at ∙ sym (later_position e.sweep_cursor c m n whole behind)),
                )
          ];
        },
      )

get_elem?-lt : (xs : List Shard) (j : ℕ) (s : Shard) → get_elem? xs j ≡ some s → j < length xs
get_elem?-lt [] j s e = cc
get_elem?-lt (x ∷ xs) zero s e = omega arith
get_elem?-lt (x ∷ xs) (suc j) s e = omega (arith, get_elem?-lt xs j s e)

-- Going on from any cursor, every position comes within as many rounds as there are shards.
Ahead-of_lt : (cursor total n j : ℕ) → n ≤ total → j < n → Ahead cursor total n j
Ahead-of_lt cursor total n j enough small =
    let c = cursor % n in
    let low : c < n = mod-lt cursor (omega (arith, small)) in
    elim (Bool-cases (leb c j)) [
      | inl before ↦
          let h : c ≤ j = ground (arith, before) in
          (
            j - c,
            omega (arith, small, enough),
            sym (mod-eq_of_lt small)
                ∙ ap (λ x. x % n) (omega (arith, h))
                ∙ mod-add-mod cursor n (j - c),
          )
      | inr after ↦
          let h : j < c = ground (arith, after) in
          (
            j + n - c,
            omega (arith, h, enough),
            sym (mod-eq_of_lt small)
                ∙ sym (add-mod_right j n)
                ∙ ap (λ x. x % n) (omega (arith, low))
                ∙ mod-add-mod cursor n (j + n - c),
          )
    ]

-- The maintenance task reclaims every entry that has expired: wherever its cursor is, however the
-- sleeps turn out, and however much earlier turns reclaimed, after turns that together sweep as
-- many shards as there are the engine is running and holds no entry that was expired when they
-- began, if nothing is written between them and the number of shards divides 2 ^ 64, as a power of
-- two does.
pub turns-live :
    (capacity_bytes now : ℕ) (times : ℕ → ℕ → ℕ) (k : ℕ) (e : CacheEngine) (p : SweepPacer)
    → ((i m : ℕ) → now ≤ times i m)
    → IsRunning capacity_bytes e
    → length e.shards ∣ u64_mod
    → length e.shards ≤ k * per_tick (length e.shards)
    → (final : CacheEngine) × (turns times 0 k e p ≡ some final)
      × IsRunning capacity_bytes final
      × ((j : ℕ) (s : Shard) → get_elem? final.shards j ≡ some s → IsClean now s)
turns-live capacity_bytes now times k e p late h whole enough =
    let (final, ended, w) = turns-Cleaned capacity_bytes now times 0 k e p late h whole in
    (
      final,
      ended,
      w.running,
      λ j s found.
          w.cleaned j
            (Ahead-of_lt e.sweep_cursor (k * per_tick (length e.shards)) (length e.shards) j enough
              (omega (arith, get_elem?-lt final.shards j s found, w.count)))
            s found,
    )
