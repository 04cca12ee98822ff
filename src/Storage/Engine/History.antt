-- ===== src/Storage/Engine/History.antt =====
-- What an engine can be after any operations, and that a hit is what the ledger says.
mod Budget
mod Tests
use mathlib.Core.Option
use falcon_cache.Base.{
  [], add64, ℕ, ◌+◌, ◌<◌, ◌≡◌, refl, sym, ap, ◌∙◌, max, ◌/◌, Bool, false, Option, none, some,
  length, set, arith, Bool-cases, inl, inr, if◌then◌else◌, u64_mod, min,
}
use falcon_cache.Base.Equality.{bytes_eq, byte_string_eq}
use falcon_cache.Storage.Table.{Distinct}
use falcon_cache.Storage.Shard.{Bytes, Entry, Shard, is_expired}
use falcon_cache.Storage.Shard.Reads.{live_value}
use falcon_cache.Storage.Shard.Insert.{insert as insert_shard}
use falcon_cache.Storage.Shard.Writes.{remove_key}
use falcon_cache.Storage.Shard.Kept.{
  Ledger, written, erased, content, holds, Under, if-Under, lookup-holds, remove_key-Under,
  insert-holds,
}
use falcon_cache.Storage.Engine.{
  CacheOptions, CacheEngine, with_options, insert, get_shared, delete, reap_some, shard_of,
  notify_removed, notifying, notifying_read,
}
use falcon_cache.Storage.Engine.Running.{IsRunning, on_shard-Routing, with_options-IsRunning}
use falcon_cache.Storage.Engine.Operations.{
  HasRoom, AtShard, held_at, lookup_at, get_shared-value, insert-IsRunning, get_shared-IsRunning,
  delete-IsRunning, notify_removed-IsRunning,
}
use falcon_cache.Storage.Engine.Sweeping.{reap_from-Swept}
use falcon_cache.Storage.Engine.Ledger.{
  with_options-recorded, recorded-held_at, recorded, on_shard-recorded, reap_from-holds,
  on_shard-kept, recorded-notify_removed,
}

-- An engine that was built with `opts`, after operations that leave the ledger so. A write has room
-- in the words of its shard, and a read has a stamp left.
pub data History (hash : Bytes → ℕ) (opts : CacheOptions) : Ledger → CacheEngine → Type 0 where
  built : History hash opts (λ key. none) (with_options opts)
  inserted :
      {ledger : Ledger} {e : CacheEngine} (key value : Bytes) (expires_at now : ℕ)
      (after : CacheEngine)
      → History hash opts ledger e
      → AtShard hash key e (HasRoom key value expires_at e.evict_sample)
      → insert hash key value expires_at now e ≡ some after
      → History hash opts (written key (value, expires_at) ledger) after
  read :
      {ledger : Ledger} {e : CacheEngine} (key : Bytes) (now : ℕ) (after : CacheEngine)
      (answer : Option Bytes)
      → History hash opts ledger e
      → AtShard hash key e (λ s. s.counters.clock + 1 < u64_mod)
      → get_shared hash key now e ≡ some (after, answer)
      → History hash opts ledger after
  deleted :
      {ledger : Ledger} {e : CacheEngine} (key : Bytes) (after : CacheEngine) (answer : Bool)
      → History hash opts ledger e
      → delete hash key e ≡ some (after, answer)
      → History hash opts (erased key ledger) after
  swept :
      {ledger : Ledger} {e : CacheEngine} (times : ℕ → ℕ) (count : ℕ) (after : CacheEngine)
      (reclaimed : ℕ)
      → History hash opts ledger e
      → reap_some times count e ≡ some (after, reclaimed)
      → History hash opts ledger after

-- A running engine that holds nothing but what the ledger has.
pub record IsFaithful (hash : Bytes → ℕ) (capacity_bytes : ℕ) (ledger : Ledger) (e : CacheEngine)
    : Type 0 where
  pub running : IsRunning capacity_bytes e
  pub faithful : (k : Bytes) → Under (recorded hash k e) (ledger k)

after_inj : {A : Type 0} {a b : A} → some a ≡ some b → a ≡ b
after_inj e = cc

module _ (hash : Bytes → ℕ) (capacity_bytes : ℕ) where
  insert-recorded :
      (e after : CacheEngine) (key value : Bytes) (expires_at now : ℕ) (k : Bytes)
      → IsRunning capacity_bytes e
      → AtShard hash key e (HasRoom key value expires_at e.evict_sample)
      → insert hash key value expires_at now e ≡ some after
      → Under
          (recorded hash k after)
          (if bytes_eq key k then some (value, expires_at) else recorded hash k e)
  unfolding insert
  insert-recorded e after key value expires_at now k running room ran =
      let op = insert_shard key value expires_at now e.evict_sample in
      let x = on_shard-Routing hash capacity_bytes key e op running in
      let r = room x.shard x.found in
      let wrote = record e {
        shards = set e.shards (shard_of hash key e.shard_mask) (op x.shard).0;
      } in
      let same : notify_removed (op x.shard).1 wrote ≡ after =
        after_inj (sym (ap notifying x.result) ∙ ran) in
      λ c there.
        on_shard-recorded hash key k e x.shard (op x.shard).0 x.found x.bounds
          (some (value, expires_at))
          (insert-holds k key value expires_at now e.evict_sample x.shard x.share.sound.valid r.fits
            running.sampled r.small)
          c
          (sym (recorded-notify_removed hash k (op x.shard).1 wrote)
            ∙ ap (recorded hash k) same
            ∙ there)

  get_shared-recorded :
      (e after : CacheEngine) (key : Bytes) (now : ℕ) (answer : Option Bytes) (k : Bytes)
      → IsRunning capacity_bytes e
      → get_shared hash key now e ≡ some (after, answer)
      → Under (recorded hash k after) (recorded hash k e)
  unfolding get_shared
  get_shared-recorded e after key now answer k running ran =
      let op = lookup_at key now in
      let x = on_shard-Routing hash capacity_bytes key e op running in
      let looked = record e {
        shards = set e.shards (shard_of hash key e.shard_mask) (op x.shard).0;
      } in
      let same : notify_removed (op x.shard).1.1 looked ≡ after =
        ap (λ (r : CacheEngine × Option Bytes). r.0)
          (after_inj (sym (ap notifying_read x.result) ∙ ran)) in
      λ c there.
        on_shard-kept hash key k e x.shard (op x.shard).0 x.found x.bounds
          (lookup-holds k key now x.shard x.share.sound.valid.distinct) c
          (sym (recorded-notify_removed hash k (op x.shard).1.1 looked)
            ∙ ap (recorded hash k) same
            ∙ there)

  delete-recorded :
      (e after : CacheEngine) (key : Bytes) (answer : Bool) (k : Bytes)
      → IsRunning capacity_bytes e
      → delete hash key e ≡ some (after, answer)
      → Under (recorded hash k after) (if bytes_eq key k then none else recorded hash k e)
  unfolding delete
  delete-recorded e after key answer k running ran =
      let x = on_shard-Routing hash capacity_bytes key e (remove_key key) running in
      let t = (remove_key key x.shard).0 in
      let same : record e { shards = set e.shards (shard_of hash key e.shard_mask) t } ≡ after =
        ap (λ (r : CacheEngine × Bool). r.0) (after_inj (sym x.result ∙ ran)) in
      λ c there.
        on_shard-recorded hash key k e x.shard t x.found x.bounds none
          (remove_key-Under k key x.shard x.share.sound.valid.distinct) c
          (ap (recorded hash k) same ∙ there)

  reap_some-recorded :
      (e after : CacheEngine) (times : ℕ → ℕ) (count reclaimed : ℕ) (k : Bytes)
      → IsRunning capacity_bytes e
      → reap_some times count e ≡ some (after, reclaimed)
      → IsRunning capacity_bytes after × Under (recorded hash k after) (recorded hash k e)
  unfolding reap_some recorded
  reap_some-recorded e after times count reclaimed k running ran =
      let n = min count (length e.shards) in
      let per_shard = max (capacity_bytes / length e.shards) 1 in
      let full : 0 < length e.shards = omega (arith, running.routed) in
      let (ys, gone, rounds, w) =
        reap_from-Swept per_shard 0 times e.sweep_cursor (λ m. omega arith) 0 n e.shards [] full
          running.shares in
      let left = record e { shards = ys; sweep_cursor = add64 e.sweep_cursor count } in
      let ran' = rw (reap_some, rounds) at ran in
      let same : notify_removed gone left ≡ after =
        ap (λ (r : CacheEngine × ℕ). r.0) (after_inj ran') in
      (
        rw (sym same) (
            notify_removed-IsRunning capacity_bytes gone left (record {
              shares = rw w.count w.shares;
              routed = w.count ∙ running.routed;
              sampled = running.sampled;
            })),
        λ c there.
            reap_from-holds per_shard times e.sweep_cursor 0 n e.shards ys [] gone full
              running.shares rounds (shard_of hash k e.shard_mask) k c
              (sym (recorded-notify_removed hash k gone left) ∙ ap (recorded hash k) same ∙ there),
      )

module _ (hash : Bytes → ℕ) (opts : CacheOptions) (small : opts.capacity_bytes < u64_mod) where
  -- After any operations the engine is running and holds nothing but what the ledger has.
  History-IsFaithful :
      {ledger : Ledger} {e : CacheEngine}
      → History hash opts ledger e
      → IsFaithful hash opts.capacity_bytes ledger e
  History-IsFaithful built = record {
    running = with_options-IsRunning opts small;
    faithful = λ k c there. (let nothing = sym (with_options-recorded hash opts k) ∙ there in cc);
  }
  History-IsFaithful (inserted key value expires_at now after past room ran) =
      let h = History-IsFaithful past in
      let (got, same, running) =
        insert-IsRunning hash opts.capacity_bytes key value expires_at now _ h.running room in
      record {
        running = rw (after_inj (sym same ∙ ran)) at running;
        faithful = λ k c there.
            if-Under (bytes_eq key k) (some (value, expires_at)) _ _ (h.faithful k) c (
              insert-recorded hash opts.capacity_bytes _ after key value expires_at now k h.running
                room ran c there);
      }
  History-IsFaithful (read key now after answer past tick ran) =
      let h = History-IsFaithful past in
      let (got, same, running) =
        get_shared-IsRunning hash opts.capacity_bytes key now _ h.running tick in
      let alike : got ≡ after =
        ap (λ (r : CacheEngine × Option Bytes). r.0) (after_inj (sym same ∙ ran)) in
      record {
        running = rw alike at running;
        faithful = λ k c there. h.faithful k c (
            get_shared-recorded hash opts.capacity_bytes _ after key now answer k h.running ran c
              there);
      }
  History-IsFaithful (deleted key after answer past ran) =
      let h = History-IsFaithful past in
      let (got, same, running, gone) = delete-IsRunning hash opts.capacity_bytes key _ h.running in
      let alike : got ≡ after = ap (λ (r : CacheEngine × Bool). r.0) (after_inj (sym same ∙ ran)) in
      record {
        running = rw alike at running;
        faithful = λ k c there.
            if-Under (bytes_eq key k) none _ _ (h.faithful k) c
              (delete-recorded hash opts.capacity_bytes _ after key answer k h.running ran c there);
      }
  History-IsFaithful (swept times count after reclaimed past ran) =
      let h = History-IsFaithful past in
      record {
        running =
            (reap_some-recorded hash opts.capacity_bytes _ after times count reclaimed [] h.running
              ran).0;
        faithful = λ k c there. h.faithful k c (
            (reap_some-recorded hash opts.capacity_bytes _ after times count reclaimed k h.running
                ran).1
              c there);
      }

live_value-some :
    (now : ℕ) (o : Option Entry) (v : Bytes)
    → live_value now o ≡ some v
    → (entry : Entry) × (o ≡ some entry) × (entry.value ≡ v) × (is_expired now entry ≡ false)
live_value-some now none v h = cc
live_value-some now (some entry) v h = elim (Bool-cases (is_expired now entry)) [
  | inl dead ↦ let h' = rw dead at h in cc
  | inr live ↦ let h' = rw live at h in (entry, refl, after_inj h', live)
]

module _ (hash : Bytes → ℕ) (opts : CacheOptions) (small : opts.capacity_bytes < u64_mod) where
  -- A hit is never wrong: whatever writes, reads, deletions and sweeps came before, a `get` that
  -- returns a value returns the one that was last written for its key, the key was not deleted
  -- since, and the value has not expired at the time of the `get`. What eviction and expiry take is
  -- missing, and nothing else is ever returned.
  pub History-get_shared :
      (ledger : Ledger) (e after : CacheEngine) (key : Bytes) (now : ℕ) (v : Bytes)
      → History hash opts ledger e
      → get_shared hash key now e ≡ some (after, some v)
      → (expires_at : ℕ) × (ledger key ≡ some (v, expires_at))
        × (is_expired now (record { value = v; last_access = 0; expires_at = expires_at }) ≡ false)
  History-get_shared ledger e after key now v past ran =
      let h = History-IsFaithful hash opts small past in
      let (got, same) = get_shared-value hash opts.capacity_bytes key now e h.running in
      let answer : live_value now (held_at hash key e) ≡ some v =
        ap (λ (r : CacheEngine × Option Bytes). r.1) (after_inj (sym same ∙ ran)) in
      let (entry, held, value, live) = live_value-some now (held_at hash key e) v answer in
      (
        entry.expires_at,
        h.faithful key (v, entry.expires_at)
            (recorded-held_at hash key e
              ∙ ap (Option.map content) held
              ∙ ap (λ x. some (x, entry.expires_at)) value),
        live,
      )
