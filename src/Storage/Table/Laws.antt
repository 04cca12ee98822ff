-- ===== src/Storage/Table/Laws.antt =====
-- Reads after writes, and that writes keep the keys distinct.
use falcon_cache.Base.{
  All, ◌≡◌, refl, false, none, some, List, [], ◌∷◌, if◌then◌else◌, arith, inl, inr, Bool-cases,
  length, suc,
}
use falcon_cache.Base.Equality.{Eq}
use falcon_cache.Storage.Table.{get, put, remove, Distinct}

module _ {ℓ κ} {K : Type ℓ} {V : Type κ} ⦃e : Eq K⦄ where
  pub get-put :
      (k j : K) (v : V) (m : List (K × V))
      → get j (put k v m) ≡ (if e.beq k j then some v else get j m)
  unfolding get put
  get-put k j v [] = refl
  get-put k j v ((i, u) ∷ m) =
      ground (arith, e.beq_iff k j, e.beq_iff i k, e.beq_iff i j, get-put k j v m)

  pub get-put_self : (k : K) (v : V) (m : List (K × V)) → get k (put k v m) ≡ some v
  get-put_self k v m = rw (get-put k k v m, (e.beq_iff k k).1 refl)

  pub get-remove :
      (k j : K) (m : List (K × V))
      → Distinct m
      → get j (remove k m) ≡ (if e.beq k j then none else get j m)
  unfolding get remove
  get-remove k j [] d = ground arith
  get-remove k j ((i, u) ∷ m) d =
      ground (arith, e.beq_iff k j, e.beq_iff i k, e.beq_iff i j, get-remove k j m)

  pub get-remove-none : (k j : K) (m : List (K × V)) → get j m ≡ none → get j (remove k m) ≡ none
  unfolding get remove
  get-remove-none k j [] h = refl
  get-remove-none k j ((i, u) ∷ m) h = ground (arith, get-remove-none k j m)

  pub remove_absent : (k : K) (m : List (K × V)) → get k m ≡ none → remove k m ≡ m
  unfolding get remove
  remove_absent k [] h = refl
  remove_absent k ((i, u) ∷ m) h = ground (arith, remove_absent k m)

  pub put-Distinct : (k : K) (v : V) (m : List (K × V)) → Distinct m → Distinct (put k v m)
  unfolding get put
  put-Distinct k v [] d = (refl, tt)
  put-Distinct k v ((i, u) ∷ m) d = elim (Bool-cases (e.beq i k)) [
    | inl same ↦ rw (same) d
    | inr other ↦ rw (other) ((rw (get-put k i v m, flip other) d.0), put-Distinct k v m d.1)
  ]
    where
      flip : e.beq i k ≡ false → e.beq k i ≡ false
      flip h = ground (arith, e.beq_iff i k, e.beq_iff k i)

  pub remove-Distinct : (k : K) (m : List (K × V)) → Distinct m → Distinct (remove k m)
  unfolding remove
  remove-Distinct k [] d = tt
  remove-Distinct k ((i, u) ∷ m) d = elim (Bool-cases (e.beq i k)) [
    | inl same ↦ rw (same) d.1
    | inr other ↦ rw (other) (get-remove-none k i m d.0, remove-Distinct k m d.1)
  ]

  pub length-remove :
      (k : K) (m : List (K × V)) (v : V) → get k m ≡ some v → suc (length (remove k m)) ≡ length m
  unfolding get remove
  length-remove k [] v h = cc
  length-remove k ((i, u) ∷ m) v h = ground (arith, length-remove k m v)

  -- A pair of `m` is what a lookup of its key finds.
  abbrev pub Held : List (K × V) → K × V → Type κ
  Held m p = get p.0 m ≡ some p.1

  Held-weaken :
      (j : K) (u : V) (m xs : List (K × V))
      → get j m ≡ none
      → All (Held m) xs
      → All (Held ((j, u) ∷ m)) xs
  unfolding get
  Held-weaken j u m [] h all = tt
  Held-weaken j u m (p ∷ xs) h all =
      (ground (arith, e.beq_iff j p.0, all.0), Held-weaken j u m xs h all.1)

  pub Held-of_Distinct : (m : List (K × V)) → Distinct m → All (Held m) m
  unfolding get
  Held-of_Distinct [] d = tt
  Held-of_Distinct ((k, v) ∷ m) d =
      (rw ((e.beq_iff k k).1 refl), Held-weaken k v m m d.0 (Held-of_Distinct m d.1))
