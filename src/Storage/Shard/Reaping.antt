-- ===== src/Storage/Shard/Reaping.antt =====
-- `reap_shard` drops exactly the expired entries, and its lock-free test skips none of them.
use falcon_cache.Base.{
  ltb, ℕ, ◌+◌, ◌<◌, ◌≡◌, refl, ap, ◌∙◌, true, false, Option, none, some, List, [], ◌∷◌, ◌++◌, arith,
  length, All, Bool-cases, inl, inr, if◌then◌else◌, u64_mod, add64, sum_of,
}
use falcon_cache.Base.{◌==◌, ltb, sym}
use mathlib.Core.List.{append-nil, append_assoc}
use falcon_cache.Base.Equality.{bytes_eq_refl, eq_of_bytes_eq, byte_string_eq, bytes_eq}
use falcon_cache.Base.Int.{negsuc}
use falcon_cache.Storage.Table.{get, remove, Distinct}
use falcon_cache.Storage.Table.Laws.{get-remove-none}
use falcon_cache.Storage.Shard.{
  ShardInner, count_expired, Bytes, Entry, EntryMap, Shard, RemovalCause, Removal, IsValid,
  ttl_weight, is_expired,
}
use falcon_cache.Storage.Shard.Writes.{drop_entry}
use falcon_cache.Storage.Shard.Budget.{SameBut, IsValid-SameBut}
use falcon_cache.Storage.Shard.Reads.{drop_expired-IsValid}
use falcon_cache.Storage.Shard.Reap.{dead_keys, reap_key, reap_loop, reap_locked, reap_shard}

-- The entry that a table has after every expired one is dropped.
abbrev pub if_live : ℕ → Option Entry → Option Entry
if_live now none = none
if_live now (some entry) = if is_expired now entry then none else some entry

-- The map with no expired entry.
unfoldable pub live_entries : ℕ → EntryMap → EntryMap
live_entries now [] = []
live_entries now ((key, entry) ∷ m) =
    let rest = live_entries now m in if is_expired now entry then rest else (key, entry) ∷ rest

abbrev reports : List Bytes → List Removal
reports [] = []
reports (key ∷ keys) = (key, RemovalCause.expired) ∷ reports keys

-- No entry with an expiry, so none that can have expired.
none_expired :
    (now : ℕ) (m : EntryMap) → sum_of ttl_weight m ≡ 0 → All (λ p. is_expired now p.1 ≡ false) m
none_expired now [] h = tt
none_expired now (p ∷ m) h = (ground arith, none_expired now m (ground arith))

-- Each key of the list finds an expired entry, after those before it are removed.
abbrev AllDead : ℕ → EntryMap → List Bytes → Type 0
AllDead now m [] = Unit
AllDead now m (key ∷ keys) =
    ((e : Entry) × (get key m ≡ some e) × (is_expired now e ≡ true))
    × AllDead now (remove key m) keys

remove_all : List Bytes → EntryMap → EntryMap
remove_all [] m = m
remove_all (key ∷ keys) m = remove_all keys (remove key m)

module _ (k : Bytes) (u : Entry) where
  -- A key that `m` holds is not `k`, which `m` does not hold.
  passes :
      (j : Bytes) (m : EntryMap) (e : Entry)
      → get k m ≡ none
      → get j m ≡ some e
      → bytes_eq k j ≡ false
  passes j m e h held = elim (Bool-cases (bytes_eq k j)) [
    | inl same ↦ cc (h, held, ap (λ i. get i m) (eq_of_bytes_eq k j same))
    | inr differs ↦ differs
  ]

  AllDead-cons :
      (now : ℕ) (m : EntryMap) (keys : List Bytes)
      → get k m ≡ none
      → AllDead now m keys
      → AllDead now ((k, u) ∷ m) keys
  unfolding get remove
  AllDead-cons now m [] h d = tt
  AllDead-cons now m (j ∷ keys) h ((e, held, dead), d) =
      let differs = passes j m e h held in
      rw differs ((e, held, dead), AllDead-cons now (remove j m) keys (get-remove-none j k m h) d)

  remove_all-cons :
      (now : ℕ) (m : EntryMap) (keys : List Bytes)
      → get k m ≡ none
      → AllDead now m keys
      → remove_all keys ((k, u) ∷ m) ≡ (k, u) ∷ remove_all keys m
  unfolding remove_all remove
  remove_all-cons now m [] h d = refl
  remove_all-cons now m (j ∷ keys) h ((e, held, dead), d) =
      let differs = passes j m e h held in
      rw differs (remove_all-cons now (remove j m) keys (get-remove-none j k m h) d)

dead_keys-AllDead : (now : ℕ) (m : EntryMap) → Distinct m → AllDead now m (dead_keys now m)
unfolding dead_keys get remove
dead_keys-AllDead now [] d = tt
dead_keys-AllDead now ((k, e) ∷ m) d = elim (Bool-cases (is_expired now e)) [
  | inl dead ↦ rw (dead, bytes_eq_refl k) ((e, refl, dead), dead_keys-AllDead now m d.1)
  | inr live ↦ rw live (AllDead-cons k e now m (dead_keys now m) d.0 (dead_keys-AllDead now m d.1))
]

remove-head : (k : Bytes) (e : Entry) (m : EntryMap) → remove k ((k, e) ∷ m) ≡ m
unfolding remove
remove-head k e m = rw (bytes_eq_refl k)

remove_all-dead_keys :
    (now : ℕ) (m : EntryMap) → Distinct m → remove_all (dead_keys now m) m ≡ live_entries now m
unfolding dead_keys remove_all remove live_entries
remove_all-dead_keys now [] d = refl
remove_all-dead_keys now ((k, e) ∷ m) d = elim (Bool-cases (is_expired now e)) [
  | inl dead ↦
      rw dead
        (ap (remove_all (dead_keys now m)) (remove-head k e m) ∙ remove_all-dead_keys now m d.1)
  | inr live ↦ rw live (
      remove_all-cons k e now m (dead_keys now m) d.0 (dead_keys-AllDead now m d.1)
      ∙ ap (◌∷◌ (k, e)) (remove_all-dead_keys now m d.1))
]

live_entries-none :
    (now : ℕ) (k : Bytes) (m : EntryMap) → get k m ≡ none → get k (live_entries now m) ≡ none
unfolding live_entries get
live_entries-none now k [] h = refl
live_entries-none now k ((j, e) ∷ m) h = ground (arith, live_entries-none now k m)

pub get-live_entries :
    (now : ℕ) (k : Bytes) (m : EntryMap)
    → Distinct m
    → get k (live_entries now m) ≡ if_live now (get k m)
unfolding live_entries get
get-live_entries now k [] d = refl
get-live_entries now k ((j, e) ∷ m) d =
    ground (arith, get-live_entries now k m, live_entries-none now k m, eq_of_bytes_eq j k)

-- What the loop over the dead keys leaves.
record Reaped (keys : List Bytes) (s : Shard) (n : ℕ) (removed : List Removal) : Type 0 where
  last : Shard
  result : reap_loop keys (s, n, removed) ≡ (last, n + length keys, removed ++ reports keys)
  valid : IsValid last
  entries : last.inner.entries ≡ remove_all keys s.inner.entries
  counters : last.counters ≡ s.counters
  capacity : last.capacity ≡ s.capacity

drop_entry-rest :
    (key : Bytes) (entry : Entry) (s : Shard)
    → ((drop_entry key entry (negsuc 0) s).inner.entries ≡ remove key s.inner.entries)
      × ((drop_entry key entry (negsuc 0) s).counters ≡ s.counters)
      × ((drop_entry key entry (negsuc 0) s).capacity ≡ s.capacity)
unfolding drop_entry
drop_entry-rest key entry s = ground arith

reap_key-held :
    (key : Bytes) (e : Entry) (s : Shard) (n : ℕ) (removed : List Removal)
    → get key s.inner.entries ≡ some e
    → reap_key key (s, n, removed)
      ≡ (drop_entry key e (negsuc 0) s, n + 1, removed ++ ((key, RemovalCause.expired) ∷ []))
unfolding reap_key
reap_key-held key e s n removed held = rw (held, reap_key)

reap_loop-Reaped :
    (now : ℕ) (keys : List Bytes) (s : Shard) (n : ℕ) (removed : List Removal)
    → IsValid s
    → AllDead now s.inner.entries keys
    → Reaped keys s n removed
unfolding reap_loop reap_key remove_all
reap_loop-Reaped now [] s n removed v d = record {
  last = s;
  result = ground (arith, append-nil removed);
  valid = v;
  entries = refl;
  counters = refl;
  capacity = refl;
}
reap_loop-Reaped now (key ∷ keys) s n removed v ((e, held, dead), d) =
    let t = drop_entry key e (negsuc 0) s in
    let rest = drop_entry-rest key e s in
    let r =
      reap_loop-Reaped now keys t (n + 1) (removed ++ ((key, RemovalCause.expired) ∷ []))
        (drop_expired-IsValid now key e s v held dead) (rw rest.0 d) in
    record {
      last = r.last;
      result =
          ap (reap_loop keys) (reap_key-held key e s n removed held)
          ∙ r.result
          ∙ ground (arith, append_assoc removed ((key, RemovalCause.expired) ∷ []) (reports keys));
      valid = r.valid;
      entries = r.entries ∙ ap (remove_all keys) rest.0;
      counters = r.counters ∙ rest.1;
      capacity = r.capacity ∙ rest.2;
    }

live_entries-id :
    (now : ℕ) (m : EntryMap)
    → All (λ p. is_expired now p.1 ≡ false) m
    → (live_entries now m ≡ m) × (dead_keys now m ≡ [])
unfolding live_entries dead_keys
live_entries-id now [] h = (refl, refl)
live_entries-id now (p ∷ m) h =
    let (kept, none_dead) = live_entries-id now m h.1 in (rw (h.0, kept), rw (h.0, none_dead))

-- The counter rises by the number of entries dropped, and nothing else changes but the entries
-- and their counts.
pub record IsReaped (now : ℕ) (s t : Shard) (removed reported : List Removal) : Type 0 where
  pub valid : IsValid t
  pub entries : t.inner.entries ≡ live_entries now s.inner.entries
  pub report : reported ≡ removed ++ reports (dead_keys now s.inner.entries)
  pub capacity : t.capacity ≡ s.capacity
  pub clock : t.counters.clock ≡ s.counters.clock
  pub expired :
      s.counters.expired < u64_mod
      → t.counters.expired ≡ add64 s.counters.expired (length (dead_keys now s.inner.entries))

finish-SameBut : (n : ℕ) (s : Shard) → SameBut s (if ltb 0 n then count_expired n s else s)
finish-SameBut n s = ground arith

-- The locked section drops exactly the expired entries, whatever the hint said before.
pub reap_locked-IsReaped :
    (now : ℕ) (s : Shard) (removed : List Removal)
    → IsValid s
    → IsReaped now s (reap_locked now s removed).0 removed (reap_locked now s removed).1
unfolding reap_locked
reap_locked-IsReaped now s removed v =
    let m = s.inner.entries in
    let r =
      reap_loop-Reaped now (dead_keys now m) s 0 removed v (dead_keys-AllDead now m v.distinct) in
    let same = finish-SameBut (0 + length (dead_keys now m)) r.last in
    rw (r.result) (record {
      valid = IsValid-SameBut r.last _ same r.valid;
      entries =
          ap (λ (i : ShardInner). i.entries) same.inner
          ∙ r.entries
          ∙ remove_all-dead_keys now m v.distinct;
      report = refl;
      capacity = same.capacity ∙ r.capacity;
      clock = ground (arith, r.counters);
      expired = λ b. ground (arith, r.counters);
    })

-- `reap_shard` drops exactly the expired entries, reports each with its cause, counts them, and
-- keeps the shard valid. When the lock-free hint makes it return at once, nothing was expired.
pub reap_shard-IsReaped :
    (now : ℕ) (s : Shard) (removed : List Removal)
    → IsValid s
    → IsReaped now s (reap_shard now s removed).0 removed (reap_shard now s removed).1
unfolding reap_shard
reap_shard-IsReaped now s removed v = elim (Bool-cases (s.ttl_hint == 0)) [
  | inl idle ↦
      let no_ttl : sum_of ttl_weight s.inner.entries ≡ 0 = ground (arith, v.ttl_hint, v.ttl_keys) in
      let live = live_entries-id now s.inner.entries (none_expired now s.inner.entries no_ttl) in
      rw (idle, reap_shard)
        (record {
          valid = v;
          entries = sym live.0;
          report = rw live.1 (sym (append-nil removed));
          capacity = refl;
          clock = refl;
          expired = λ b. rw live.1 (omega arith);
        })
  | inr busy ↦ rw (busy, reap_shard) (reap_locked-IsReaped now s removed v)
]
