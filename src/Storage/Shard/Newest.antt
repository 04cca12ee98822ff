-- ===== src/Storage/Shard/Newest.antt =====
-- The entry with the latest stamp survives an eviction that samples two entries or more.
use falcon_cache.Base.{
  ◌∙◌, length-drop, sym, ℕ, zero, suc, ◌≤◌, ◌<◌, ◌≡◌, ◌≢◌, refl, ap, false, none, some, List, [],
  ◌∷◌, ◌++◌, arith, length, All, drop, All-drop, min, sum_of, Bool-cases, inl, inr,
}
use native.Mathlib.Decide.{dec_le}
use falcon_cache.Base.{◌-◌}
use falcon_cache.Base.Equality.{bytes_eq_of_eq, eq_of_bytes_eq, byte_string_eq, bytes_eq}
use falcon_cache.Storage.Table.{get, remove, Distinct}
use falcon_cache.Storage.Table.Laws.{Held, Held-of_Distinct, get-remove}
use falcon_cache.Storage.Shard.{
  Bytes, Entry, EntryMap, Shard, RemovalCause, Removal, IsValid, charge, is_expired,
}
use falcon_cache.Storage.Shard.Evict.{window}
use falcon_cache.Storage.Shard.Round.{sampled, IsFair}
use falcon_cache.Storage.Shard.Eviction.{
  Evicts, done, round, after_drop-IsValid, after_drop-rest, drop_entry-entries,
}

Distinct-drop : (n : ℕ) (m : EntryMap) → Distinct m → Distinct (drop n m)
Distinct-drop zero m d = d
Distinct-drop (suc n) [] d = tt
Distinct-drop (suc n) (p ∷ m) d = Distinct-drop n m d.1

-- Two keys of the front of the window, when it has room for two.
record FrontPair (m xs : EntryMap) : Type 0 where
  first : Bytes × Entry
  second : Bytes × Entry
  rest : EntryMap
  shape : xs ≡ first ∷ second ∷ rest
  apart : first.0 ≢ second.0
  first_held : Held m first
  second_held : Held m second

absent-ne : (k : Bytes) (q : Bytes × Entry) (m : EntryMap) → get k m ≡ none → Held m q → k ≢ q.0
absent-ne k q m h held e = cc (h, held, ap (λ j. get j m) e)

front_pair :
    (start : ℕ) (m : EntryMap)
    → Distinct m
    → start < length m
    → 2 ≤ length m
    → FrontPair m (drop start m ++ m)
front_pair zero [] d lt two = absurd (omega arith)
front_pair zero (p ∷ []) d lt two = absurd (omega arith)
front_pair zero (p ∷ q ∷ m) d lt two =
    let held = Held-of_Distinct (p ∷ q ∷ m) d in
    record {
      first = p;
      second = q;
      rest = m ++ (p ∷ q ∷ m);
      shape = refl;
      apart = absent-ne p.0 q (q ∷ m) d.0 (Held-of_Distinct (q ∷ m) d.1).0;
      first_held = held.0;
      second_held = held.1.0;
    }
front_pair (suc n) [] d lt two = absurd (omega arith)
front_pair (suc n) (p ∷ m) d lt two =
    go (drop n m) refl (Distinct-drop n m d.1) (All-drop (Held (p ∷ m)) n m held.1)
      (All-drop (Held m) n m (Held-of_Distinct m d.1)) (omega (arith, length-drop n m))
  where
    held : All (Held (p ∷ m)) (p ∷ m)
    held = Held-of_Distinct (p ∷ m) d

    go :
        (xs : EntryMap)
        → drop n m ≡ xs
        → Distinct xs
        → All (Held (p ∷ m)) xs
        → All (Held m) xs
        → 0 < length (drop n m)
        → FrontPair (p ∷ m) (drop n m ++ (p ∷ m))
    go [] e d' all all' pos = absurd (omega (arith, ap length e))
    go (a ∷ []) e d' all all' pos = record {
      first = a;
      second = p;
      rest = m;
      shape = rw e;
      apart = λ same. absent-ne p.0 a m d.0 all'.0 (sym same);
      first_held = all.0;
      second_held = held.0;
    }
    go (a ∷ b ∷ xs) e d' all all' pos = record {
      first = a;
      second = b;
      rest = xs ++ (p ∷ m);
      shape = rw e;
      apart = absent-ne a.0 b (b ∷ xs) d'.0 (Held-of_Distinct (b ∷ xs) d'.1).0;
      first_held = all.0;
      second_held = all.1.0;
    }

-- The entry of `key` has a later stamp than every other.
pub record IsNewest (key : Bytes) (entry : Entry) (m : EntryMap) : Type 0 where
  pub held : get key m ≡ some entry
  pub latest :
      (k : Bytes) (e : Entry) → get k m ≡ some e → k ≢ key → e.last_access < entry.last_access

record Other (P : Bytes × Entry → Type 0) (key : Bytes) (m : EntryMap) : Type 0 where
  other : Bytes × Entry
  held : Held m other
  apart : other.0 ≢ key
  holds : P other

-- A window of two or more shows an entry other than that of `key`.
window-Other :
    (P : Bytes × Entry → Type 0) (key : Bytes) (sample start : ℕ) (m : EntryMap)
    → Distinct m
    → start < length m
    → 2 ≤ length m
    → 2 ≤ sample
    → All P (window sample start m)
    → Other P key m
window-Other P key sample start m d lt two enough all = elim (Bool-cases (bytes_eq f.first.0 key)) [
  | inl same ↦ record {
    other = f.second;
    held = f.second_held;
    apart = λ e. f.apart (eq_of_bytes_eq _ _ same ∙ sym e);
    holds = shown.1;
  }
  | inr differs ↦ record {
    other = f.first;
    held = f.first_held;
    apart = λ e. cc (differs, bytes_eq_of_eq f.first.0 key e);
    holds = shown.0;
  }
]
  where
    f : FrontPair m (drop start m ++ m)
    f = front_pair start m d lt two

    wide : min sample (length m) ≡ suc (suc (min sample (length m) - 2))
    wide = omega arith

    shown : P f.first × P f.second
    shown = let both = rw (f.shape, wide) at all in (both.0, both.1.0)

module _ (now sample : ℕ) (key : Bytes) (entry : Entry) where
  round_spares :
      (s : Shard) (k : Bytes) (e : Entry) (cause : RemovalCause)
      → IsValid s
      → IsNewest key entry s.inner.entries
      → is_expired now entry ≡ false
      → 2 ≤ sample
      → 2 ≤ length s.inner.entries
      → get k s.inner.entries ≡ some e
      → IsFair now (sampled sample s) e cause
      → k ≢ key
  round_spares s k e RemovalCause.expired v newest live enough two held fair =
      λ same. cc (newest.held, held, fair, live, ap (λ j. get j s.inner.entries) same)
  round_spares s k e RemovalCause.evicted v newest live enough two held fair = λ same.
      let x =
        window-Other _ key sample _ s.inner.entries v.distinct (omega arith) two enough fair in
      let less = newest.latest x.other.0 x.other.1 x.held x.apart in
      let same_entry : some e ≡ some entry =
        cc (held, newest.held, ap (λ j. get j s.inner.entries) same) in
      absurd (ground (arith, less, x.holds.1, same_entry))

  alone :
      (m : EntryMap) → get key m ≡ some entry → length m < 2 → sum_of charge m ≡ charge (key, entry)
  unfolding get
  alone [] held h = cc
  alone (p ∷ []) held h = ground (arith, byte_string_eq.beq_iff p.0 key)
  alone (p ∷ q ∷ m) held h = absurd (omega arith)

  crowded :
      (s : Shard)
      → IsValid s
      → get key s.inner.entries ≡ some entry
      → charge (key, entry) ≤ s.capacity
      → s.capacity < s.inner.bytes
      → 2 ≤ length s.inner.entries
  crowded s v held fits over = elim (dec_le 2 (length s.inner.entries)) [
    | yes two ↦ two
    | no few ↦ absurd (omega (arith, alone s.inner.entries held (omega arith)))
  ]

  IsNewest-remove :
      (k : Bytes) (m : EntryMap)
      → Distinct m
      → k ≢ key
      → IsNewest key entry m
      → IsNewest key entry (remove k m)
  IsNewest-remove k m d ne newest = record {
    held = ground (arith, get-remove k key m d, byte_string_eq.beq_iff k key, newest.held);
    latest = λ j e h other. newest.latest j e (ground (arith, get-remove k j m d)) other;
  }

  -- An eviction keeps the newest entry, if it is live and fits the budget alone.
  pub Evicts-IsNewest :
      {s t : Shard} {removed : List Removal}
      → Evicts now sample s removed t
      → IsValid s
      → IsNewest key entry s.inner.entries
      → is_expired now entry ≡ false
      → 2 ≤ sample
      → charge (key, entry) ≤ s.capacity
      → IsNewest key entry t.inner.entries
  Evicts-IsNewest (done e) v newest live enough fits = rw (← e) newest
  Evicts-IsNewest {s} (round k e cause over held fair more) v newest live enough fits =
      Evicts-IsNewest more (after_drop-IsValid k e s v held)
        (rw (drop_entry-entries k e s) (
          IsNewest-remove k s.inner.entries v.distinct
            (round_spares s k e cause v newest live enough (crowded s v newest.held fits over) held
              fair)
            newest))
        live enough (rw ((after_drop-rest k e s).1) fits)
