-- ===== src/Storage/Shard/Accounting.antt =====
-- Writing and dropping one entry keep the byte count and the count of expiring entries exact.
use falcon_cache.Base.{
  refl, Bool-cases, ◌+◌, ◌*◌, ◌≤◌, ◌<◌, ◌≡◌, inl, inr, some, [], ◌∷◌, arith, sum_of, u64_mod,
  Option-cases, true, false,
}
use falcon_cache.Base.Equality.{byte_string_eq}
use falcon_cache.Base.Int.{ℤ, pos, negsuc}
use falcon_cache.Storage.Table.{get}
use falcon_cache.Storage.Table.Laws.{put-Distinct, remove-Distinct}
use falcon_cache.Storage.Table.Weights.{sum_of-put_vacant, sum_of-put_occupied, sum_of-remove}
use falcon_cache.Storage.Shard.{
  Bytes, Entry, Shard, EntryMap, has_expiry, charge, ttl_weight, IsValid,
}
use falcon_cache.Storage.Shard.Writes.{write_entry, drop_entry, ttl_loss}

pub ttl-le-charge : (m : EntryMap) → sum_of ttl_weight m * 96 ≤ sum_of charge m
ttl-le-charge [] = omega arith
ttl-le-charge (p ∷ m) = ground (arith, ttl-le-charge m)

-- The charge of an entry that is in the map is part of the sum, and so is its weight.
pub charge-le :
    (k : Bytes) (m : EntryMap) (v : Entry) → get k m ≡ some v → charge (k, v) ≤ sum_of charge m
charge-le k m v h = omega (arith, sum_of-remove charge k m v h)

pub weight-le :
    (k : Bytes) (m : EntryMap) (v : Entry)
    → get k m ≡ some v
    → ttl_weight (k, v) ≤ sum_of ttl_weight m
weight-le k m v h = omega (arith, sum_of-remove ttl_weight k m v h)

-- Room for one more entry in the address space.
abbrev pub Fits : Bytes → Entry → Shard → Type 0
Fits key entry s = sum_of charge s.inner.entries + charge (key, entry) < u64_mod

pub write_entry-IsValid :
    (key : Bytes) (entry : Entry) (s : Shard)
    → IsValid s
    → Fits key entry s
    → IsValid (write_entry key entry s)
unfolding write_entry
write_entry-IsValid key entry s v fits = elim (Option-cases (get key s.inner.entries)) [
  | inl absent ↦ ground (
    arith,
    absent,
    put-Distinct key entry s.inner.entries,
    sum_of-put_vacant charge key entry s.inner.entries absent,
    sum_of-put_vacant ttl_weight key entry s.inner.entries absent,
    ttl-le-charge s.inner.entries,
  )
  | inr (old, present) ↦ ground (
    arith,
    present,
    put-Distinct key entry s.inner.entries,
    sum_of-put_occupied charge key entry s.inner.entries old present,
    sum_of-put_occupied ttl_weight key entry s.inner.entries old present,
    charge-le key s.inner.entries old present,
    weight-le key s.inner.entries old present,
    ttl-le-charge s.inner.entries,
  )
]

-- `delta` is what the caller of the removal counts for the entry.
abbrev IsDelta : Entry → ℤ → Type 0
IsDelta entry (pos n) = (n ≡ 0) × (has_expiry entry.expires_at ≡ false)
IsDelta entry (negsuc n) = (n ≡ 0) × (has_expiry entry.expires_at ≡ true)

pub drop_entry-IsValid :
    (key : Bytes) (entry : Entry) (delta : ℤ) (s : Shard)
    → IsValid s
    → get key s.inner.entries ≡ some entry
    → IsDelta entry delta
    → IsValid (drop_entry key entry delta s)
unfolding drop_entry
drop_entry-IsValid key entry (pos n) s v present d = ground (
  arith,
  remove-Distinct key s.inner.entries,
  sum_of-remove charge key s.inner.entries entry present,
  sum_of-remove ttl_weight key s.inner.entries entry present,
)
drop_entry-IsValid key entry (negsuc n) s v present d = ground (
  arith,
  remove-Distinct key s.inner.entries,
  sum_of-remove charge key s.inner.entries entry present,
  sum_of-remove ttl_weight key s.inner.entries entry present,
)

pub ttl_loss-IsDelta : (entry : Entry) → IsDelta entry (ttl_loss entry)
ttl_loss-IsDelta entry = elim (Bool-cases (has_expiry entry.expires_at)) [
  | inl yes_ttl ↦ rw yes_ttl (refl, yes_ttl)
  | inr no_ttl ↦ rw no_ttl (refl, no_ttl)
]
