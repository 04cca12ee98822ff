-- ===== src/Storage/Pacer.antt =====
-- `SweepPacer`, how the background sweep paces itself, and one turn of the task that
-- `spawn_maintenance` runs (crates/falcon-storage/src/cache.rs). A `Duration` is a number of
-- nanoseconds; `none` stands for the panic of a subtraction below zero or an index out of bounds.
use falcon_cache.Base.{
  ℕ, ◌+◌, ◌-◌, ◌*◌, ◌/◌, ◌%◌, ◌≤◌, ◌≡◌, refl, min, max, Option, none, some, arith, leb, ◌==◌,
  if◌then◌else◌, Bool-cases, inl, inr, length, true,
}
use Prim.Native.Nat.{bit_or}
use falcon_cache.Storage.Random.{next_rand}
use falcon_cache.Storage.Engine.{CacheEngine, reap_some}

abbrev ms : ℕ
ms = 1000 * 1000

abbrev pub min_delay : ℕ
min_delay = 250 * ms

abbrev pub max_delay : ℕ
max_delay = 30 * 1000 * ms

abbrev start_delay : ℕ
start_delay = 1000 * ms

pub record SweepPacer : Type 0 where
  pub delay : ℕ
  pub rng : ℕ

-- `SweepPacer::new`, at the clock's reading `now`.
abbrev pub new : ℕ → SweepPacer
new now = record { delay = start_delay; rng = bit_or now 1 }

unfoldable pub observe : ℕ → SweepPacer → SweepPacer
observe reclaimed p =
    if reclaimed == 0
    then record p { delay = min (p.delay * 2) max_delay }
    else record p { delay = max (p.delay / 2) min_delay }

-- `next_rand(&mut self.rng) % spread`, drawn only if there is a spread.
abbrev draw_offset : ℕ → SweepPacer → SweepPacer × ℕ
draw_offset spread p =
    if spread == 0
    then (p, 0)
    else let (state, drawn) = next_rand p.rng in (record p { rng = state }, drawn % spread)

unfoldable pub next_delay : SweepPacer → Option (SweepPacer × ℕ)
next_delay p =
    let spread = p.delay / ms / 2 in
    let (q, offset) = draw_offset spread p in
    let late = p.delay + offset * ms in
    if leb (spread / 2 * ms) late then some (q, late - spread / 2 * ms) else none

-- One turn of the maintenance task: the engine, the pacer, and how long it slept first.
unfoldable pub maintain : (ℕ → ℕ) → CacheEngine → SweepPacer → Option (CacheEngine × SweepPacer × ℕ)
unfolding next_delay observe reap_some
maintain times e p = elim (next_delay p) [
  | none ↦ none
  | some (q, slept) ↦ elim (reap_some times (max (length e.shards / 8) 1) e) [
    | none ↦ none
    | some (after, reclaimed) ↦ some (after, observe reclaimed q, slept)
  ]
]

-- The states that the pacer passes through.
pub data Paced : SweepPacer → Type 0 where
  start : (now : ℕ) → Paced (new now)
  turn :
      (reclaimed rng : ℕ) {p : SweepPacer}
      → Paced p
      → Paced (observe reclaimed (record p { rng = rng }))

-- Whatever the sweeps find, the delay stays between its bounds.
pub Paced-bounds : {p : SweepPacer} → Paced p → (min_delay ≤ p.delay) × (p.delay ≤ max_delay)
unfolding observe
Paced-bounds (start now) = (omega arith, omega arith)
Paced-bounds (turn reclaimed rng run) = ground (arith, Paced-bounds run)

draw_offset-le :
    (spread : ℕ) (p : SweepPacer)
    → ((draw_offset spread p).0.delay ≡ p.delay) × ((draw_offset spread p).1 ≤ spread / 2 * 2)
draw_offset-le spread p = elim (Bool-cases (spread == 0)) [
  | inl none_drawn ↦ rw none_drawn (refl, omega arith)
  | inr drawn ↦ rw drawn (refl, ground (arith, drawn))
]

in_window :
    (delay offset : ℕ)
    → offset ≤ delay / ms / 2 / 2 * 2
    → (delay / ms / 2 / 2 * ms ≤ delay + offset * ms)
      × (delay * 3 ≤ (delay + offset * ms - delay / ms / 2 / 2 * ms) * 4)
      × ((delay + offset * ms - delay / ms / 2 / 2 * ms) * 4 ≤ delay * 5)
in_window delay offset h = (omega arith, omega arith, omega arith)

le-leb : (a b : ℕ) → a ≤ b → leb a b ≡ true
le-leb a b h = ground arith

-- What `next_delay` returns is there, since the subtraction in it never passes zero, and is
-- within a quarter of the delay on either side.
pub next_delay-jitter :
    (p : SweepPacer)
    → (q : SweepPacer) × (slept : ℕ) × (next_delay p ≡ some (q, slept))
      × (q.delay ≡ p.delay)
      × (p.delay * 3 ≤ slept * 4)
      × (slept * 4 ≤ p.delay * 5)
unfolding next_delay
next_delay-jitter p =
    let spread = p.delay / ms / 2 in
    let (q, offset) = draw_offset spread p in
    let (same, drawn) = draw_offset-le spread p in
    let (above, low, high) = in_window p.delay offset drawn in
    (
      q,
      p.delay + offset * ms - spread / 2 * ms,
      rw (le-leb (spread / 2 * ms) (p.delay + offset * ms) above) refl,
      same,
      low,
      high,
    )
