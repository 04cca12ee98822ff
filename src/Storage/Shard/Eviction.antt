-- ===== src/Storage/Shard/Eviction.antt =====
-- What eviction promises, without its loop: a run of removals, each made while the shard is over
-- its budget and each fair to the entries that the round looked at.
use falcon_cache.Base.{
  refl, ◌∙◌, ap, ℕ, ◌+◌, ◌<◌, ◌≡◌, none, some, List, [], ◌∷◌, arith, length, if◌then◌else◌,
}
use falcon_cache.Base.Equality.{byte_string_eq}
use falcon_cache.Storage.Random.{next_rand}
use falcon_cache.Storage.Table.{get, remove, has_key}
use falcon_cache.Storage.Table.Laws.{get-remove, length-remove}
use falcon_cache.Storage.Shard.{Bytes, Entry, Shard, RemovalCause, Removal, IsValid}
use falcon_cache.Storage.Shard.Writes.{drop_entry, ttl_loss}
use falcon_cache.Storage.Shard.Accounting.{drop_entry-IsValid, ttl_loss-IsDelta}
use falcon_cache.Storage.Shard.Evict.{with_rng}
use falcon_cache.Storage.Shard.Round.{sampled, IsFair}

-- The shard after a round that drops `entry`.
abbrev pub after_drop : Bytes → Entry → Shard → Shard
after_drop key entry s =
    drop_entry key entry (ttl_loss entry) (with_rng (next_rand s.inner.rng).0 s)

pub data Evicts (now sample : ℕ) : Shard → List Removal → Shard → Type 0 where
  done : {s t : Shard} → s ≡ t → Evicts now sample s [] t
  round :
      {s t : Shard} {rest : List Removal} (key : Bytes) (entry : Entry) (cause : RemovalCause)
      → s.capacity < s.inner.bytes
      → get key s.inner.entries ≡ some entry
      → IsFair now (sampled sample s) entry cause
      → Evicts now sample (after_drop key entry s) rest t
      → Evicts now sample s ((key, cause) ∷ rest) t

pub after_drop-IsValid :
    (key : Bytes) (entry : Entry) (s : Shard)
    → IsValid s
    → get key s.inner.entries ≡ some entry
    → IsValid (after_drop key entry s)
after_drop-IsValid key entry s v held =
    drop_entry-IsValid key entry (ttl_loss entry) (with_rng (next_rand s.inner.rng).0 s)
      (record {
        distinct = v.distinct;
        fits = v.fits;
        bytes = v.bytes;
        ttl_keys = v.ttl_keys;
        bytes_hint = v.bytes_hint;
        ttl_hint = v.ttl_hint;
      })
      held (ttl_loss-IsDelta entry)

pub Evicts-IsValid :
    {now sample : ℕ} {s t : Shard} {removed : List Removal}
    → Evicts now sample s removed t
    → IsValid s
    → IsValid t
Evicts-IsValid (done e) v = rw (← e) v
Evicts-IsValid (round key entry cause over held fair rest) v =
    Evicts-IsValid rest (after_drop-IsValid key entry _ v held)

pub drop_entry-entries :
    (key : Bytes) (entry : Entry) (s : Shard)
    → (after_drop key entry s).inner.entries ≡ remove key s.inner.entries
unfolding drop_entry
drop_entry-entries key entry s = ground arith

-- The entries that stay are those whose keys were not reported, unchanged.
pub Evicts-get :
    {now sample : ℕ} {s t : Shard} {removed : List Removal}
    → Evicts now sample s removed t
    → IsValid s
    → (k : Bytes)
    → get k t.inner.entries ≡ (if has_key k removed then none else get k s.inner.entries)
unfolding has_key
Evicts-get (done e) v k = rw e
Evicts-get {s} (round {rest} key entry cause over held fair more) v k = ground (
  arith,
  Evicts-get more (after_drop-IsValid key entry s v held) k,
  drop_entry-entries key entry s,
  get-remove key k s.inner.entries v.distinct,
)

-- Each report is of an entry that went.
pub Evicts-length :
    {now sample : ℕ} {s t : Shard} {removed : List Removal}
    → Evicts now sample s removed t
    → length removed + length t.inner.entries ≡ length s.inner.entries
Evicts-length (done e) = rw e (omega arith)
Evicts-length {s} (round key entry cause over held fair more) = omega (
  arith,
  Evicts-length more,
  ap length (drop_entry-entries key entry s),
  length-remove key s.inner.entries entry held,
)

-- A round touches neither the counters nor the budget.
pub after_drop-rest :
    (key : Bytes) (entry : Entry) (s : Shard)
    → ((after_drop key entry s).counters ≡ s.counters)
      × ((after_drop key entry s).capacity ≡ s.capacity)
unfolding drop_entry
after_drop-rest key entry s = ground arith

pub Evicts-rest :
    {now sample : ℕ} {s t : Shard} {removed : List Removal}
    → Evicts now sample s removed t
    → (t.counters ≡ s.counters) × (t.capacity ≡ s.capacity)
Evicts-rest (done e) = rw e (refl, refl)
Evicts-rest {s} (round key entry cause over held fair more) =
    let (counters, capacity) = Evicts-rest more in
    let (counters', capacity') = after_drop-rest key entry s in
    (counters ∙ counters', capacity ∙ capacity')
