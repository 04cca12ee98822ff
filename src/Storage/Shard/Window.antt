-- ===== src/Storage/Shard/Window.antt =====
-- What one round of `evict_shard` finds in the window that it samples.
use falcon_cache.Base.{
  ℕ, ◌≤◌, ◌≡◌, refl, inl, inr, true, false, Option, none, some, [], ◌∷◌, ◌++◌, ◌≢◌, arith, All,
  All-take, All-drop, All-append, Bool-cases, length, drop, min, leb, length-append, length-take,
}
use falcon_cache.Base.Equality.{byte_string_eq}
use falcon_cache.Storage.Table.{get, Distinct}
use falcon_cache.Storage.Table.Laws.{Held, Held-of_Distinct}
use falcon_cache.Storage.Shard.{Bytes, Entry, EntryMap, is_expired}
use falcon_cache.Storage.Shard.Evict.{scan, older, window}

-- Every entry of the window is in the map.
pub window-Held :
    (sample start : ℕ) (m : EntryMap) → Distinct m → All (Held m) (window sample start m)
window-Held sample start m d =
    All-take (Held m) _ (drop start m ++ m)
      (All-append (Held m) (drop start m) m (All-drop (Held m) start m held) held)
  where
    held : All (Held m) m
    held = Held-of_Distinct m d

pub length-window :
    (sample start : ℕ) (m : EntryMap) → length (window sample start m) ≡ min sample (length m)
length-window sample start m =
    omega (
      arith,
      length-take (min sample (length m)) (drop start m ++ m),
      length-append (drop start m) m,
    )

module _ (m : EntryMap) (now : ℕ) where
  abbrev HeldVictim : Option (Bytes × ℕ) → Type 0
  HeldVictim none = Unit
  HeldVictim (some (k, stamp)) = (e : Entry) × (get k m ≡ some e) × (e.last_access ≡ stamp)

  abbrev pub HeldResult : Option Bytes × Option (Bytes × ℕ) → Type 0
  HeldResult (some k, victim) = (e : Entry) × (get k m ≡ some e) × (is_expired now e ≡ true)
  HeldResult (none, victim) = HeldVictim victim

  older-Held :
      (k : Bytes) (e : Entry) (victim : Option (Bytes × ℕ))
      → get k m ≡ some e
      → HeldVictim victim
      → HeldVictim (older k e.last_access victim)
  older-Held k e none h hv = (e, h, refl)
  older-Held k e (some (k0, oldest)) h hv = elim (Bool-cases (leb oldest e.last_access)) [
    | inl keep ↦ rw keep hv
    | inr swap ↦ rw swap (e, h, refl)
  ]

  pub scan-Held :
      (xs : EntryMap) (victim : Option (Bytes × ℕ))
      → All (Held m) xs
      → HeldVictim victim
      → HeldResult (scan now xs victim)
  unfolding scan
  scan-Held [] victim h hv = hv
  scan-Held ((k, e) ∷ xs) victim h hv = elim (Bool-cases (is_expired now e)) [
    | inl dead ↦ rw dead (e, h.0, dead)
    | inr live ↦
        rw live (scan-Held xs (older k e.last_access victim) h.1 (older-Held k e victim h.0 hv))
  ]

  abbrev AtMost : ℕ → Option (Bytes × ℕ) → Type 0
  AtMost stamp none = Unit
  AtMost stamp (some (k, oldest)) = stamp ≤ oldest

  -- `stamp` is live and the least of `xs`, and no later than `victim`.
  abbrev pub LeastResult :
      EntryMap → Option (Bytes × ℕ) → Option Bytes × Option (Bytes × ℕ) → Type 0
  LeastResult xs victim (some k, v) = Unit
  LeastResult xs victim (none, none) = xs ≡ []
  LeastResult xs victim (none, some (k, stamp)) =
      All (λ p. (is_expired now p.1 ≡ false) × (stamp ≤ p.1.last_access)) xs × AtMost stamp victim

  LeastResult-cons :
      (k : Bytes) (e : Entry) (xs : EntryMap) (victim : Option (Bytes × ℕ))
      (r : Option Bytes × Option (Bytes × ℕ))
      → is_expired now e ≡ false
      → LeastResult xs (older k e.last_access victim) r
      → r ≢ (none, none)
      → LeastResult ((k, e) ∷ xs) victim r
  LeastResult-cons k e xs victim (some d, v) live h ne = tt
  LeastResult-cons k e xs victim (none, none) live h ne = absurd (ne refl)
  LeastResult-cons k e xs none (none, some (d, stamp)) live h ne = (((live, h.1), h.0), tt)
  LeastResult-cons k e xs (some (k0, oldest)) (none, some (d, stamp)) live h ne =
      elim (Bool-cases (leb oldest e.last_access)) [
        | inl keep ↦ let (all, le) = rw keep at h in (((live, ground arith), all), le)
        | inr swap ↦ let (all, le) = rw swap at h in (((live, le), all), ground arith)
      ]

  older-ne-none :
      (k : Bytes) (stamp : ℕ) (victim : Option (Bytes × ℕ)) → older k stamp victim ≢ none
  older-ne-none k stamp none = ground arith
  older-ne-none k stamp (some (k0, oldest)) = ground arith

  scan-ne-none :
      (xs : EntryMap) (victim : Option (Bytes × ℕ))
      → victim ≢ none
      → scan now xs victim ≢ (none, none)
  unfolding scan
  scan-ne-none [] victim h = ground arith
  scan-ne-none ((k, e) ∷ xs) none h = absurd (h refl)
  scan-ne-none ((k, e) ∷ xs) (some (k0, oldest)) h =
      ground (arith, scan-ne-none xs (some (k, e.last_access)), scan-ne-none xs (some (k0, oldest)))

  pub scan-Least :
      (xs : EntryMap) (victim : Option (Bytes × ℕ)) → LeastResult xs victim (scan now xs victim)
  unfolding scan
  scan-Least [] none = refl
  scan-Least [] (some (k, oldest)) = (tt, omega arith)
  scan-Least ((k, e) ∷ xs) victim = elim (Bool-cases (is_expired now e)) [
    | inl dead ↦ rw dead tt
    | inr live ↦ rw live (
        LeastResult-cons k e xs victim _ live (scan-Least xs (older k e.last_access victim))
          (scan-ne-none xs (older k e.last_access victim) (older-ne-none k e.last_access victim)))
  ]
