-- ===== src/Storage/Table/Weights.antt =====
-- What a write does to a sum over the entries.
use falcon_cache.Base.{◌≡◌, none, some, List, [], ◌∷◌, arith, ℕ, ◌+◌, sum_of}
use falcon_cache.Base.Equality.{Eq}
use falcon_cache.Storage.Table.{get, put, remove}

module _ {ℓ κ} {K : Type ℓ} {V : Type κ} ⦃e : Eq K⦄ (w : K × V → ℕ) where
  pub sum_of-put_vacant :
      (k : K) (v : V) (m : List (K × V))
      → get k m ≡ none
      → sum_of w (put k v m) ≡ sum_of w m + w (k, v)
  unfolding get put
  sum_of-put_vacant k v [] h = omega arith
  sum_of-put_vacant k v ((i, u) ∷ m) h = ground (arith, sum_of-put_vacant k v m)

  pub sum_of-put_occupied :
      (k : K) (v : V) (m : List (K × V)) (old : V)
      → get k m ≡ some old
      → sum_of w (put k v m) + w (k, old) ≡ sum_of w m + w (k, v)
  unfolding get put
  sum_of-put_occupied k v [] old h = cc
  sum_of-put_occupied k v ((i, u) ∷ m) old h =
      ground (arith, e.beq_iff i k, sum_of-put_occupied k v m old)

  pub sum_of-remove :
      (k : K) (m : List (K × V)) (old : V)
      → get k m ≡ some old
      → sum_of w (remove k m) + w (k, old) ≡ sum_of w m
  unfolding get remove
  sum_of-remove k [] old h = cc
  sum_of-remove k ((i, u) ∷ m) old h = ground (arith, e.beq_iff i k, sum_of-remove k m old)
