-- ===== src/Storage/Shard/Latest.antt =====
-- What threads on one shard can read, against the ledger of the shard's writes and removals in the
-- order in which their sections had the lock.
use mathlib.Core.Option
use falcon_cache.Base.{
  List, [], ℕ, ◌≡◌, refl, sym, ap, ◌∙◌, Bool, true, false, none, some, arith, Bool-cases,
  Option-cases, inl, inr, if◌then◌else◌,
}
use falcon_cache.Base.Equality.{bytes_eq, byte_string_eq}
use falcon_cache.Storage.Table.{has_key, get, put}
use falcon_cache.Storage.Table.Laws.{get-put}
use falcon_cache.Storage.Shard.{Bytes, Entry, Shard, Removal, IsValid, is_expired}
use falcon_cache.Storage.Shard.Writes.{write_entry}
use falcon_cache.Storage.Shard.Lookup.{hit, lookup_fast}
use falcon_cache.Storage.Shard.Budget.{Evicted, evict_locked-Evicted}
use falcon_cache.Storage.Shard.Eviction.{Evicts-get}
use falcon_cache.Storage.Shard.Reaping.{reap_locked-IsReaped}
use falcon_cache.Storage.Shard.Kept.{
  Ledger, written, erased, content, holds, Under, if-Under, touch-holds, lookup_slow-holds,
  remove_key-Under, IsReaped-holds,
}
use falcon_cache.Storage.Shard.Interleaved.{
  Section, Reach, IsConsistent, Reach-IsConsistent, swap-get, tick, write, stamp, count, expire,
  remove, evict, reap, reorder, here, next,
}

-- The ledger after a section: writes and removals of a key change it, and nothing else does.
abbrev after_section : {s t : Shard} → Section s t → Ledger → Ledger
after_section (tick room eq) l = l
after_section (write key entry past fits eq) l = written key (content entry) l
after_section (stamp key entry n held past eq) l = l
after_section (count same clock) l = l
after_section (expire key now room eq) l = l
after_section (remove key eq) l = erased key l
after_section (evict now sample pos small eq) l = l
after_section (reap now eq) l = l
after_section (reorder front back p q order eq) l = l

unfoldable pub latest : {s t : Shard} → Reach s t → Ledger → Ledger
latest here l = l
latest (next run step) l = after_section step (latest run l)

write_entry-put :
    (key : Bytes) (entry : Entry) (s : Shard)
    → (write_entry key entry s).inner.entries ≡ put key entry s.inner.entries
unfolding write_entry
write_entry-put key entry s = ground arith

write_entry-holds :
    (k key : Bytes) (entry : Entry) (s : Shard)
    → holds k (write_entry key entry s)
      ≡ (if bytes_eq key k then some (content entry) else holds k s)
write_entry-holds k key entry s =
    ap (λ m. Option.map content (get k m)) (write_entry-put key entry s)
    ∙ ap (Option.map content) (get-put key k entry s.inner.entries)
    ∙ chosen (bytes_eq key k)
  where
    chosen :
        (b : Bool)
        → Option.map content (if b then some entry else get k s.inner.entries)
          ≡ (if b then some (content entry) else holds k s)
    chosen true = refl
    chosen false = refl

-- What an eviction leaves was there before.
Evicted-holds :
    (k : Bytes) {now sample : ℕ} {s t : Shard} {removed : List Removal}
    → Evicted now sample s t removed
    → IsValid s
    → Under (holds k t) (holds k s)
Evicted-holds k {s} {removed} x v =
    rw (x.same.inner, Evicts-get x.run v k) (kept (has_key k removed))
  where
    kept :
        (gone : Bool)
        → Under (Option.map content (if gone then none else get k s.inner.entries)) (holds k s)
    kept true c h = cc
    kept false c h = h

Section-holds :
    {s t : Shard} (step : Section s t) (l : Ledger)
    → IsConsistent s
    → ((k : Bytes) → Under (holds k s) (l k))
    → (k : Bytes) → Under (holds k t) (after_section step l k)
Section-holds (tick room eq) l h under k = rw eq (under k)
Section-holds {s} (write key entry past fits eq) l h under k = λ c there.
    if-Under (bytes_eq key k) (some (content entry)) (holds k s) (l k) (under k) c
      (sym (write_entry-holds k key entry s) ∙ (ap (holds k) (sym eq) ∙ there))
Section-holds {s} (stamp key entry n held past eq) l h under k =
    λ c there. under k c (sym (touch-holds k key entry n s held) ∙ (ap (holds k) (sym eq) ∙ there))
Section-holds (count same clock) l h under k = rw (same.inner) (under k)
Section-holds {s} (expire key now room eq) l h under k = λ c there.
    under k c (lookup_slow-holds k key now s h.valid.distinct c (ap (holds k) (sym eq) ∙ there))
Section-holds {s} (remove key eq) l h under k = λ c there.
    if-Under (bytes_eq key k) none (holds k s) (l k) (under k) c
      (remove_key-Under k key s h.valid.distinct c (ap (holds k) (sym eq) ∙ there))
Section-holds {s} (evict now sample pos small eq) l h under k = λ c there. under k c (
    Evicted-holds k (evict_locked-Evicted now sample s h.valid pos small) h.valid c
      (ap (holds k) (sym eq) ∙ there))
Section-holds {s} (reap now eq) l h under k = λ c there. under k c (
    IsReaped-holds k (reap_locked-IsReaped now s [] h.valid) h.valid c
      (ap (holds k) (sym eq) ∙ there))
Section-holds {s} (reorder front back p q order eq) l h under k = λ c there. under k c (
    ap (λ m. Option.map content (get k m)) order
    ∙ (sym (ap (Option.map content) (swap-get front back p q k (rw order at h.valid.distinct)))
        ∙ (ap (holds k) (sym eq) ∙ there)))

pub Reach-holds :
    {s t : Shard} (run : Reach s t) (l : Ledger)
    → IsConsistent s
    → ((k : Bytes) → Under (holds k s) (l k))
    → (k : Bytes) → Under (holds k t) (latest run l k)
unfolding latest
Reach-holds here l h under k = under k
Reach-holds (next run step) l h under k =
    Section-holds step (latest run l) (Reach-IsConsistent run h) (Reach-holds run l h under) k

lookup_fast-hit :
    (key v : Bytes) (now : ℕ) (s : Shard)
    → (lookup_fast key now s).1 ≡ hit v
    → (entry : Entry) × (get key s.inner.entries ≡ some entry)
      × (entry.value ≡ v)
      × (is_expired now entry ≡ false)
unfolding lookup_fast
lookup_fast-hit key v now s h = elim (Option-cases (get key s.inner.entries)) [
  | inl absent ↦ let h' = rw (lookup_fast, absent) at h in cc
  | inr (entry, held) ↦ elim (Bool-cases (is_expired now entry)) [
    | inl dead ↦ let h' = rw (lookup_fast, held, dead) at h in cc
    | inr live ↦ let h' = rw (lookup_fast, held, live) at h in (entry, held, hit_inj h', live)
  ]
]
  where
    hit_inj : {a b : Bytes} → hit a ≡ hit b → a ≡ b
    hit_inj e = cc

-- Whatever order the threads' sections run in, a read under the shared lock that hits returns the
-- value that the last section on its key wrote, no later section removed the key, and the value has
-- not expired: threads never see an overwritten, a deleted or an expired value. The run starts at a
-- consistent shard that holds nothing but what the ledger `l` has.
pub Reach-lookup_fast :
    {s t : Shard} (run : Reach s t) (l : Ledger) (key v : Bytes) (now : ℕ)
    → IsConsistent s
    → ((k : Bytes) → Under (holds k s) (l k))
    → (lookup_fast key now t).1 ≡ hit v
    → (expires_at : ℕ) × (latest run l key ≡ some (v, expires_at))
      × (is_expired now (record { value = v; last_access = 0; expires_at = expires_at }) ≡ false)
Reach-lookup_fast {s} {t} run l key v now h under found =
    let (entry, held, value, live) = lookup_fast-hit key v now t found in
    (
      entry.expires_at,
      Reach-holds run l h under key (v, entry.expires_at)
          (ap (Option.map content) held ∙ ap (λ x. some (x, entry.expires_at)) value),
      live,
    )
