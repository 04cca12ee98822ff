-- ===== src/Storage/Engine/Ledger.antt =====
-- The engine against the ledger of its writes: an association of every key with the last value
-- written for it and when that expires, without any bound on memory.
use mathlib.Core.Option
use falcon_cache.Base.{
  ℕ, zero, suc, ◌+◌, ◌<◌, ◌≡◌, ◌≢◌, refl, sym, ap, ◌∙◌, max, ◌/◌, Option, none, some, List, [], ◌∷◌,
  ◌==◌, length, set, get_elem?, get_elem?-set_self, get_elem?_of_lt, All, All-set, All-get_elem?,
  length-set, arith, Bool-cases, Option-cases, inl, inr, if◌then◌else◌, wrapped, ◌%◌,
}
use falcon_cache.Base.Equality.{bytes_eq, byte_string_eq}
use falcon_cache.Storage.Shard.{Bytes, Shard, Removal}
use falcon_cache.Storage.Shard.Kept.{content, holds, Under, Under-of_eq, reap_shard-holds}
use native.Mathlib.Nat.{mod-lt}
use falcon_cache.Storage.Shard.Reap.{reap_shard}
use falcon_cache.Storage.Engine.Operations.{notify_removed-rest, held_at}
use falcon_cache.Storage.Engine.Sweeping.{reap_shard-IsShare}
use falcon_cache.Storage.Engine.{
  CacheEngine, CacheOptions, with_options, new_shards, shard_of, reap_from, notify_removed,
}
use falcon_cache.Storage.Sizing.{shard_count}
use falcon_cache.Storage.Table.{get as find}
use falcon_cache.Storage.Engine.Running.{IsShare}

abbrev pub holds_in : Bytes → Option Shard → Option (Bytes × ℕ)
holds_in k none = none
holds_in k (some s) = holds k s

pub get_elem?-set_other :
    {A : Type 0} (xs : List A) (i j : ℕ) (v : A) → i ≢ j → get_elem? (set xs i v) j ≡ get_elem? xs j
get_elem?-set_other [] i j v h = refl
get_elem?-set_other (x ∷ xs) zero zero v h = absurd (h refl)
get_elem?-set_other (x ∷ xs) zero (suc j) v h = refl
get_elem?-set_other (x ∷ xs) (suc i) zero v h = refl
get_elem?-set_other (x ∷ xs) (suc i) (suc j) v h = get_elem?-set_other xs i j v (λ e. h (ap suc e))

swept_inj : {A : Type 0} {a b : A} → some a ≡ some b → a ≡ b
swept_inj e = cc

-- Changing one shard changes what that shard holds, and nothing else.
pub set-holds :
    (xs : List Shard) (i j : ℕ) (s t : Shard) (k : Bytes)
    → get_elem? xs i ≡ some s
    → i < length xs
    → Under (holds k t) (holds k s)
    → Under (holds_in k (get_elem? (set xs i t) j)) (holds_in k (get_elem? xs j))
set-holds xs i j s t k found small kept = elim (Bool-cases (i == j)) [
  | inl same ↦
      let e : i ≡ j = ground (arith, same) in
      rw (sym e, get_elem?-set_self xs i t small, found) kept
  | inr other ↦
      let apart : i ≢ j = λ e. ground (arith, other, e) in
      rw (get_elem?-set_other xs i j t apart) (λ c h. h)
]

module _ (per_shard : ℕ) (times : ℕ → ℕ) (start : ℕ) where
  -- The rounds of a sweep add nothing to any shard.
  pub reap_from-holds :
      (i left : ℕ) (xs ys : List Shard) (removed gone : List Removal)
      → 0 < length xs
      → All (IsShare per_shard) xs
      → reap_from times start i left xs removed ≡ some (ys, gone)
      → (j : ℕ) (k : Bytes) → Under (holds_in k (get_elem? ys j)) (holds_in k (get_elem? xs j))
  unfolding reap_from
  reap_from-holds i zero xs ys removed gone full h ran j k =
      let same : xs ≡ ys = ap (λ (x : List Shard × List Removal). x.0) (swept_inj ran) in
      Under-of_eq (ap (λ zs. holds_in k (get_elem? zs j)) (sym same))
  reap_from-holds i (suc left) xs ys removed gone full h ran j k =
      let idx = wrapped (start + i) % length xs in
      let small : idx < length xs = mod-lt (wrapped (start + i)) full in
      let (s, found) = get_elem?_of_lt xs idx small in
      let share = All-get_elem? (IsShare per_shard) xs idx h found in
      let t = (reap_shard (times i) s removed).0 in
      let ran' = rw (reap_from, found) at ran in
      let later =
        reap_from-holds (i + 1) left (set xs idx t) ys (reap_shard (times i) s removed).1 gone
          (omega (arith, full, length-set xs idx t))
          (All-set (IsShare per_shard) xs idx t h
            (reap_shard-IsShare per_shard (times i) s removed share))
          ran' j k in
      λ c there.
        set-holds xs idx j s t k found small
          (reap_shard-holds k (times i) s removed share.sound.valid) c (later c there)

module _ (hash : Bytes → ℕ) where
  -- What the engine holds for a key.
  unfoldable pub recorded : Bytes → CacheEngine → Option (Bytes × ℕ)
  recorded k e = holds_in k (get_elem? e.shards (shard_of hash k e.shard_mask))

  -- An operation on the shard of `key`, which may write `key` and only drops others.
  pub on_shard-recorded :
      (key k : Bytes) (e : CacheEngine) (s t : Shard)
      → get_elem? e.shards (shard_of hash key e.shard_mask) ≡ some s
      → shard_of hash key e.shard_mask < length e.shards
      → (o : Option (Bytes × ℕ)) → (Under (holds k t) (if bytes_eq key k then o else holds k s))
      → Under
          (recorded k (record e { shards = set e.shards (shard_of hash key e.shard_mask) t }))
          (if bytes_eq key k then o else recorded k e)
  unfolding recorded
  on_shard-recorded key k e s t found small o kept = elim (Bool-cases (bytes_eq key k)) [
    | inl same ↦
        let same_key : key ≡ k = (byte_string_eq.beq_iff key k).0 same in
        let i = shard_of hash key e.shard_mask in
        let kept_here : Under (holds k t) o = rw same at kept in
        let here : holds_in k (get_elem? (set e.shards i t) (shard_of hash k e.shard_mask))
            ≡ holds k t =
          ap (λ x. holds_in k (get_elem? (set e.shards i t) (shard_of hash x e.shard_mask)))
            (sym same_key)
          ∙ ap (holds_in k) (get_elem?-set_self e.shards i t small) in
        rw same (λ c there. kept_here c (sym here ∙ there))
    | inr other ↦
        let kept_here : Under (holds k t) (holds k s) = rw other at kept in
        rw other (
          set-holds e.shards (shard_of hash key e.shard_mask) (shard_of hash k e.shard_mask) s t k
            found small kept_here)
  ]

  -- An operation on the shard of `key` that adds nothing to it.
  pub on_shard-kept :
      (key k : Bytes) (e : CacheEngine) (s t : Shard)
      → get_elem? e.shards (shard_of hash key e.shard_mask) ≡ some s
      → shard_of hash key e.shard_mask < length e.shards
      → Under (holds k t) (holds k s)
      → Under
          (recorded k (record e { shards = set e.shards (shard_of hash key e.shard_mask) t }))
          (recorded k e)
  unfolding recorded
  on_shard-kept key k e s t found small kept =
      set-holds e.shards (shard_of hash key e.shard_mask) (shard_of hash k e.shard_mask) s t k found
        small kept

  pub recorded-notify_removed :
      (k : Bytes) (removed : List Removal) (e : CacheEngine)
      → recorded k (notify_removed removed e) ≡ recorded k e
  unfolding recorded
  recorded-notify_removed k removed e =
      let (shards, mask, sample) = notify_removed-rest removed e in rw (shards, mask) refl

new_shards-holds :
    (per_shard i n j : ℕ) (k : Bytes) → holds_in k (get_elem? (new_shards per_shard i n) j) ≡ none
unfolding new_shards find
new_shards-holds per_shard i zero j k = refl
new_shards-holds per_shard i (suc n) zero k = refl
new_shards-holds per_shard i (suc n) (suc j) k = new_shards-holds per_shard (i + 1) n j k

module _ (hash : Bytes → ℕ) where
  -- A new engine holds nothing.
  pub with_options-recorded :
      (opts : CacheOptions) (k : Bytes) → recorded hash k (with_options opts) ≡ none
  unfolding recorded with_options
  with_options-recorded opts k =
      new_shards-holds
        (max (opts.capacity_bytes / shard_count opts.capacity_bytes opts.parallelism) 1) 0
        (shard_count opts.capacity_bytes opts.parallelism)
        (shard_of hash k (with_options opts).shard_mask) k

  pub recorded-held_at :
      (k : Bytes) (e : CacheEngine) → recorded hash k e ≡ Option.map content (held_at hash k e)
  unfolding recorded held_at
  recorded-held_at k e = elim (Option-cases (get_elem? e.shards (shard_of hash k e.shard_mask))) [
    | inl n ↦ rw (n, held_at) refl
    | inr (s, found) ↦ rw (found, held_at) refl
  ]
