-- ===== src/Storage/Shard/Kept.antt =====
-- What a shard holds for a key after an operation: what it held, what was written, or nothing.
use mathlib.Core.Option
use falcon_cache.Base.{
  ℕ, ◌≡◌, ◌<◌, sym, ap, ◌∙◌, Bool, true, false, Option, none, some, List, arith, Bool-cases,
  Option-cases, inl, inr, if◌then◌else◌,
}
use falcon_cache.Base.Equality.{byte_string_eq, bytes_eq}
use falcon_cache.Base.Int.{ℤ, negsuc}
use falcon_cache.Storage.Table.{get, put, remove, Distinct, has_key}
use falcon_cache.Storage.Table.Laws.{get-put, get-remove}
use falcon_cache.Storage.Shard.{Bytes, Entry, Shard, Removal, IsValid, is_expired, touch}
use falcon_cache.Storage.Shard.Writes.{drop_entry, remove_key, ttl_loss}
use falcon_cache.Storage.Shard.Lookup.{serve, lookup_fast, lookup_slow, lookup}
use falcon_cache.Storage.Shard.Reap.{reap_shard}
use falcon_cache.Storage.Shard.Reaping.{if_live, IsReaped, reap_shard-IsReaped, get-live_entries}
use falcon_cache.Storage.Shard.Accounting.{Fits}
use falcon_cache.Storage.Shard.Stored.{stored, SmallSample, insert-get}
use falcon_cache.Storage.Shard.Insert.{insert}

-- What was written for a key: the value and when it expires.
abbrev pub content : Entry → Bytes × ℕ
content x = (x.value, x.expires_at)

abbrev pub holds : Bytes → Shard → Option (Bytes × ℕ)
holds k s = Option.map content (get k s.inner.entries)

-- For every key its last value, and when that expires.
abbrev pub Ledger : Type 0
Ledger = Bytes → Option (Bytes × ℕ)

abbrev pub written : Bytes → Bytes × ℕ → Ledger → Ledger
written key c ledger k = if bytes_eq key k then some c else ledger k

abbrev pub erased : Bytes → Ledger → Ledger
erased key ledger k = if bytes_eq key k then none else ledger k

-- What `a` has, `b` has.
abbrev pub Under : Option (Bytes × ℕ) → Option (Bytes × ℕ) → Type 0
Under a b = (c : Bytes × ℕ) → a ≡ some c → b ≡ some c

-- The same choice on both sides.
pub if-Under :
    (b : Bool) (o x y : Option (Bytes × ℕ))
    → Under x y
    → Under (if b then o else x) (if b then o else y)
if-Under true o x y h = λ c e. e
if-Under false o x y h = h

pub Under-of_eq : {a b : Option (Bytes × ℕ)} → a ≡ b → Under a b
Under-of_eq e c h = sym e ∙ h

-- Stamping an entry keeps what it holds.
pub touch-holds :
    (k key : Bytes) (entry : Entry) (n : ℕ) (s : Shard)
    → get key s.inner.entries ≡ some entry
    → Option.map content (get k (put key (touch n entry) s.inner.entries)) ≡ holds k s
touch-holds k key entry n s held =
    let written = get-put key k (touch n entry) s.inner.entries in
    elim (Bool-cases (bytes_eq key k)) [
      | inl same ↦
          let here : get k s.inner.entries ≡ some entry =
            ap (λ x. get x s.inner.entries) (sym ((byte_string_eq.beq_iff key k).0 same)) ∙ held in
          let now_here : get k (put key (touch n entry) s.inner.entries) ≡ some (touch n entry) =
            rw same at written in
          ap (Option.map content) now_here ∙ sym (ap (Option.map content) here)
      | inr other ↦
          let as_before : get k (put key (touch n entry) s.inner.entries) ≡ get k s.inner.entries =
            rw other at written in
          ap (Option.map content) as_before
    ]

serve-holds :
    (k key : Bytes) (entry : Entry) (s : Shard)
    → get key s.inner.entries ≡ some entry
    → holds k (serve key entry s) ≡ holds k s
unfolding serve
serve-holds k key entry s held = touch-holds k key entry s.counters.clock s held

drop_entry-remove :
    (key : Bytes) (entry : Entry) (delta : ℤ) (s : Shard)
    → (drop_entry key entry delta s).inner.entries ≡ remove key s.inner.entries
unfolding drop_entry
drop_entry-remove key entry delta s = ground arith

drop_entry-holds :
    (k key : Bytes) (entry : Entry) (delta : ℤ) (s : Shard)
    → Distinct s.inner.entries
    → Under (holds k (drop_entry key entry delta s)) (holds k s)
drop_entry-holds k key entry delta s d c dropped =
    let h : Option.map content (get k (remove key s.inner.entries)) ≡ some c =
      sym (ap (λ m. Option.map content (get k m)) (drop_entry-remove key entry delta s))
      ∙ dropped in
    let without = get-remove key k s.inner.entries d in
    elim (Bool-cases (bytes_eq key k)) [
      | inl same ↦
          let gone : get k (remove key s.inner.entries) ≡ none = rw same at without in
          let clash = sym (ap (Option.map content) gone) ∙ h in cc
      | inr other ↦
          let as_before : get k (remove key s.inner.entries) ≡ get k s.inner.entries =
            rw other at without in
          sym (ap (Option.map content) as_before) ∙ h
    ]

pub lookup_slow-holds :
    (k key : Bytes) (now : ℕ) (s : Shard)
    → Distinct s.inner.entries
    → Under (holds k (lookup_slow key now s).0) (holds k s)
unfolding lookup_slow
lookup_slow-holds k key now s d = elim (Option-cases (get key s.inner.entries)) [
  | inl absent ↦ rw (lookup_slow, absent) (λ c h. h)
  | inr (entry, held) ↦ elim (Bool-cases (is_expired now entry)) [
    | inl dead ↦ rw (lookup_slow, held, dead) (drop_entry-holds k key entry (negsuc 0) s d)
    | inr live ↦ rw (lookup_slow, held, live) (Under-of_eq (serve-holds k key entry s held))
  ]
]

pub lookup-holds :
    (k key : Bytes) (now : ℕ) (s : Shard)
    → Distinct s.inner.entries
    → Under (holds k (lookup key now s).0) (holds k s)
unfolding lookup lookup_fast
lookup-holds k key now s d = elim (Option-cases (get key s.inner.entries)) [
  | inl absent ↦ rw (lookup, lookup_fast, absent) (λ c h. h)
  | inr (entry, held) ↦ elim (Bool-cases (is_expired now entry)) [
    | inl dead ↦ rw (lookup, lookup_fast, held, dead) (lookup_slow-holds k key now s d)
    | inr live ↦ rw (lookup, lookup_fast, held, live) (Under-of_eq (serve-holds k key entry s held))
  ]
]

pub remove_key-holds :
    (k key : Bytes) (s : Shard)
    → Distinct s.inner.entries
    → Under (holds k (remove_key key s).0) (holds k s)
unfolding remove_key
remove_key-holds k key s d = elim (Option-cases (get key s.inner.entries)) [
  | inl absent ↦ rw (remove_key, absent) (λ c h. h)
  | inr (entry, held) ↦ rw (remove_key, held) (drop_entry-holds k key entry (ttl_loss entry) s d)
]

pub remove_key-gone :
    (key : Bytes) (s : Shard)
    → Distinct s.inner.entries
    → get key (remove_key key s).0.inner.entries ≡ none
unfolding remove_key drop_entry
remove_key-gone key s d =
    ground (arith, get-remove key key s.inner.entries d, byte_string_eq.beq_iff key key)

-- A removal leaves nothing for its key.
pub remove_key-Under :
    (k key : Bytes) (s : Shard)
    → Distinct s.inner.entries
    → Under (holds k (remove_key key s).0) (if bytes_eq key k then none else holds k s)
remove_key-Under k key s d = elim (Bool-cases (bytes_eq key k)) [
  | inl same ↦ rw same (λ c there.
      (let gone : holds k (remove_key key s).0 ≡ none =
          ap (λ x. holds x (remove_key key s).0) (sym ((byte_string_eq.beq_iff key k).0 same))
          ∙ ap (Option.map content) (remove_key-gone key s d) in
        let clash = sym gone ∙ there in cc))
  | inr other ↦ rw other (remove_key-holds k key s d)
]

live-Under :
    (now : ℕ) (o : Option Entry) → Under (Option.map content (if_live now o)) (Option.map content o)
live-Under now none c h = h
live-Under now (some x) c h = elim (Bool-cases (is_expired now x)) [
  | inl dead ↦ let h' = rw dead at h in cc
  | inr live ↦ let h' = rw live at h in h'
]

pub IsReaped-holds :
    (k : Bytes) {now : ℕ} {s t : Shard} {removed reported : List Removal}
    → IsReaped now s t removed reported
    → IsValid s
    → Under (holds k t) (holds k s)
IsReaped-holds k {now} {s} x v =
    rw (x.entries, get-live_entries now k s.inner.entries v.distinct)
      (live-Under now (get k s.inner.entries))

pub reap_shard-holds :
    (k : Bytes) (now : ℕ) (s : Shard) (removed : List Removal)
    → IsValid s
    → Under (holds k (reap_shard now s removed).0) (holds k s)
reap_shard-holds k now s removed v = IsReaped-holds k (reap_shard-IsReaped now s removed v) v

pub insert-holds :
    (k key value : Bytes) (expires_at now sample : ℕ) (s : Shard)
    → IsValid s
    → Fits key (stored key value expires_at s) s
    → 0 < sample
    → SmallSample key value expires_at s sample
    → Under
        (holds k (insert key value expires_at now sample s).0)
        (if bytes_eq key k then some (value, expires_at) else holds k s)
insert-holds k key value expires_at now sample s v fits some_sample small =
    rw (insert-get key value expires_at s now sample v fits some_sample small k)
      (written-Under (has_key k (insert key value expires_at now sample s).1))
  where
    written-Under :
        (removed : Bool)
        → Under
            (Option.map content (
              if removed
              then none
              else if bytes_eq key k
              then some (stored key value expires_at s)
              else get k s.inner.entries))
            (if bytes_eq key k then some (value, expires_at) else holds k s)
    written-Under true c h = cc
    written-Under false c h = elim (Bool-cases (bytes_eq key k)) [
      | inl same ↦ (let h' = rw same at h in rw same h')
      | inr other ↦ (let h' = rw other at h in rw other h')
    ]
