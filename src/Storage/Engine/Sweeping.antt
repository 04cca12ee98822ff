-- ===== src/Storage/Engine/Sweeping.antt =====
-- `reap_some`, which sweeps the shards a slice at a time: what one call visits.
use falcon_cache.Base.{
  ℕ, zero, suc, ◌+◌, ◌%◌, ◌≤◌, ◌<◌, ◌≡◌, refl, ◌∙◌, sym, false, some, List, [], ◌∷◌, arith, length,
  set, get_elem?, get_elem?_of_lt, get_elem?-set_self, length-set, All, All-set, All-get_elem?,
  wrapped, ◌==◌, Bool-cases, inl, inr,
}
use native.Mathlib.Nat.{mod-lt}
use falcon_cache.Storage.Shard.{Shard, Removal, Bytes, Entry, EntryMap, is_expired}
use falcon_cache.Storage.Shard.Reap.{reap_shard}
use falcon_cache.Storage.Shard.Reaping.{live_entries, reap_shard-IsReaped}
use falcon_cache.Storage.Shard.Stamps.{IsSound}
use falcon_cache.Storage.Shard.Sound.{IsReaped-IsSound}
use falcon_cache.Storage.Engine.{reap_from}
use falcon_cache.Storage.Engine.Running.{IsShare}

-- No entry of the shard is expired at `now`.
abbrev IsFresh : ℕ → Bytes × Entry → Type 0
IsFresh now (key, entry) = is_expired now entry ≡ false

abbrev pub IsClean : ℕ → Shard → Type 0
IsClean now s = All (IsFresh now) s.inner.entries

live-IsFresh : (now time : ℕ) (m : EntryMap) → now ≤ time → All (IsFresh now) (live_entries time m)
unfolding live_entries
live-IsFresh now time [] h = tt
live-IsFresh now time ((key, entry) ∷ m) h = elim (Bool-cases (is_expired time entry)) [
  | inl dead ↦ rw dead (live-IsFresh now time m h)
  | inr live ↦ rw live (ground (arith, live, h), live-IsFresh now time m h)
]

live-keeps :
    (now time : ℕ) (m : EntryMap) → All (IsFresh now) m → All (IsFresh now) (live_entries time m)
unfolding live_entries
live-keeps now time [] h = tt
live-keeps now time ((key, entry) ∷ m) h = elim (Bool-cases (is_expired time entry)) [
  | inl dead ↦ rw dead (live-keeps now time m h.1)
  | inr live ↦ rw live (h.0, live-keeps now time m h.1)
]

-- The shard at a position, if there is one, is clean.
abbrev pub CleanAt : ℕ → List Shard → ℕ → Type 0
CleanAt now xs i = (s : Shard) → get_elem? xs i ≡ some s → IsClean now s

some_inj : {a b : Shard} → some a ≡ some b → a ≡ b
some_inj e = cc

CleanAt-kept :
    (now : ℕ) (xs : List Shard) (i j : ℕ) (x t : Shard)
    → get_elem? xs i ≡ some x
    → (IsClean now x → IsClean now t)
    → CleanAt now xs j
    → CleanAt now (set xs i t) j
CleanAt-kept now [] i j x t found keeps clean s e = cc
CleanAt-kept now (y ∷ xs) zero zero x t found keeps clean s e =
    rw (← some_inj e) (keeps (clean x found))
CleanAt-kept now (y ∷ xs) zero (suc j) x t found keeps clean s e = clean s e
CleanAt-kept now (y ∷ xs) (suc i) zero x t found keeps clean s e = clean s e
CleanAt-kept now (y ∷ xs) (suc i) (suc j) x t found keeps clean s e =
    CleanAt-kept now xs i j x t found keeps clean s e

CleanAt-self :
    (now : ℕ) (xs : List Shard) (i : ℕ) (t : Shard)
    → i < length xs
    → IsClean now t
    → CleanAt now (set xs i t) i
CleanAt-self now xs i t small h s e = rw (← some_inj (sym (get_elem?-set_self xs i t small) ∙ e)) h

-- The positions that the rounds of a sweep visit.
abbrev Visits : ℕ → ℕ → ℕ → ℕ → ℕ → Type 0
Visits start i left n j = (m : ℕ) × (i ≤ m) × (m < i + left) × (j ≡ wrapped (start + m) % n)

-- What a sweep makes of the shards `xs`.
pub record Swept (per_shard now : ℕ) (xs ys : List Shard) (visited : ℕ → Type 0) : Type 0 where
  pub shares : All (IsShare per_shard) ys
  pub count : length ys ≡ length xs
  pub kept : (j : ℕ) → CleanAt now xs j → CleanAt now ys j
  pub cleaned : (j : ℕ) → visited j → CleanAt now ys j

reap_shard-IsClean :
    (now time : ℕ) (s : Shard) (removed : List Removal)
    → now ≤ time
    → IsSound s
    → IsClean now (reap_shard time s removed).0
reap_shard-IsClean now time s removed h sound =
    rw (reap_shard-IsReaped time s removed sound.valid).entries
      (live-IsFresh now time s.inner.entries h)

reap_shard-keeps :
    (now time : ℕ) (s : Shard) (removed : List Removal)
    → IsSound s
    → IsClean now s
    → IsClean now (reap_shard time s removed).0
reap_shard-keeps now time s removed sound h =
    rw (reap_shard-IsReaped time s removed sound.valid).entries
      (live-keeps now time s.inner.entries h)

pub reap_shard-IsShare :
    (per_shard time : ℕ) (s : Shard) (removed : List Removal)
    → IsShare per_shard s
    → IsShare per_shard (reap_shard time s removed).0
reap_shard-IsShare per_shard time s removed h =
    let x = reap_shard-IsReaped time s removed h.sound.valid in
    record { sound = IsReaped-IsSound x h.sound; capacity = x.capacity ∙ h.capacity }

module _ (per_shard now : ℕ) (times : ℕ → ℕ) (start : ℕ) (late : (m : ℕ) → now ≤ times m) where
  -- The rounds of a sweep never index out of bounds, clean what they visit, and soil nothing.
  pub reap_from-Swept :
      (i left : ℕ) (xs : List Shard) (removed : List Removal)
      → 0 < length xs
      → All (IsShare per_shard) xs
      → (ys : List Shard) × (gone : List Removal) × (reap_from times start i left xs removed
          ≡ some (ys, gone))
        × Swept per_shard now xs ys (Visits start i left (length xs))
  unfolding reap_from
  reap_from-Swept i zero xs removed full h = (
    xs,
    removed,
    refl,
    record {
      shares = h;
      count = refl;
      kept = λ j clean. clean;
      cleaned = λ j (m, low, high, at). absurd (omega (arith, low, high));
    },
  )
  reap_from-Swept i (suc left) xs removed full h =
      let idx = wrapped (start + i) % length xs in
      let small : idx < length xs = mod-lt (wrapped (start + i)) full in
      let (s, found) = get_elem?_of_lt xs idx small in
      let share = All-get_elem? (IsShare per_shard) xs idx h found in
      let t = (reap_shard (times i) s removed).0 in
      let same : length (set xs idx t) ≡ length xs = length-set xs idx t in
      let (ys, gone, ran, w) =
        reap_from-Swept (i + 1) left (set xs idx t) (reap_shard (times i) s removed).1
          (omega (arith, full, same))
          (All-set (IsShare per_shard) xs idx t h
            (reap_shard-IsShare per_shard (times i) s removed share)) in
      (
        ys,
        gone,
        rw (reap_from, found) ran,
        record {
          shares = w.shares;
          count = w.count ∙ same;
          kept = λ j clean. w.kept j (
              CleanAt-kept now xs idx j s t found
                (reap_shard-keeps now (times i) s removed share.sound) clean);
          cleaned = λ j (m, low, high, at). elim (Bool-cases (m == i)) [
            | inl first ↦
                let e : m ≡ i = ground (arith, first) in
                rw (at, e)
                  (w.kept idx (
                    CleanAt-self now xs idx t small
                      (reap_shard-IsClean now (times i) s removed (late i) share.sound)))
            | inr later ↦
                w.cleaned j (m, ground (arith, low, later), omega (arith, high), rw same at)
          ];
        },
      )
