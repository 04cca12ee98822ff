-- ===== src/Storage/Sizing/Bounds.antt =====
-- The number of shards is a power of two in its range, and it never splits a cache too finely.
use falcon_cache.Base.{
  sym, ◌/◌, ◌*◌, wrapped, min, max, inr, Bool-cases, mul64, inl, u64_mod, ◌⊎◌, ℕ, zero, suc, ◌^◌,
  ◌≤◌, ◌<◌, ◌≡◌, refl, arith, Bool, true, ◌==◌, ◌&&◌, ◌||◌, leb, if◌then◌else◌,
}
use falcon_cache.Base.{◌-◌, ◌∙◌}
use falcon_cache.Storage.Sizing.Powers.{prev_power_of_two_bounds, bit_length_bounds}
use native.Mathlib.Nat.{pow-suc, le_trans}
use native.Mathlib.Decide.{dec_le, dec_lt}
use falcon_cache.Storage.Sizing.{
  leading_zeros, min_shard_bytes, prev_power_of_two, shards_per_core, max_shards, min_shards,
  shard_count, clamp, bit_length, next_power_of_two,
}

passes_up_to : (ℕ → Bool) → ℕ → Bool
passes_up_to test zero = true
passes_up_to test (suc limit) = let before = passes_up_to test limit in before && test limit

passes_up_to-at :
    (test : ℕ → Bool) (limit size : ℕ)
    → size < limit
    → passes_up_to test limit ≡ true
    → test size ≡ true
unfolding passes_up_to
passes_up_to-at test zero size below passed = absurd (omega arith)
passes_up_to-at test (suc limit) size below passed = ground (arith, passes_up_to-at test limit size)

abbrev pub is_size : ℕ → Bool
is_size n = n == 4 || n == 8 || n == 16 || n == 32 || n == 64 || n == 128 || n == 256 || n == 512

-- Every number up to 512: the next power of two, and that powers of two are their own.
abbrev rounds_well : ℕ → Bool
rounds_well n =
    leb n 3
    || (is_size (next_power_of_two n) && (if is_size n then next_power_of_two n == n else true))

rounds_table : passes_up_to rounds_well 513 ≡ true
unfolding passes_up_to next_power_of_two bit_length
rounds_table = refl

rounds : (n : ℕ) → 4 ≤ n → n ≤ 512 → rounds_well n ≡ true
rounds n lo hi = passes_up_to-at rounds_well 513 n (omega arith) rounds_table

pub record IsPower (n : ℕ) : Type 0 where
  pub exponent : ℕ
  pub power : n ≡ 2 ^ exponent

large_power : (k : ℕ) → 10 ≤ k → 1024 ≤ 2 ^ k
large_power zero h = absurd (omega arith)
large_power (suc k) h = elim (dec_le 10 k) [
  | yes more ↦ omega (arith, pow-suc 2 k, large_power k more)
  | no last ↦ let e : k ≡ 9 = omega arith in rw e (omega arith)
]

pow_table : (k : ℕ) → k < 10 → (leb (2 ^ k) 3 || is_size (2 ^ k)) ≡ true
unfolding passes_up_to
pow_table k h = passes_up_to-at (λ k. leb (2 ^ k) 3 || is_size (2 ^ k)) 10 k h refl

IsPower-is_size : (n : ℕ) → IsPower n → 4 ≤ n → n ≤ 512 → is_size n ≡ true
IsPower-is_size n p lo hi = elim (dec_lt p.exponent 10) [
  | yes small ↦ rw p.power (ground (arith, pow_table p.exponent small, p.power, lo))
  | no large ↦ absurd (omega (arith, large_power p.exponent (omega arith), p.power))
]

wrap_power : (k : ℕ) → k < 64 → 2 ^ k ≡ wrapped (2 ^ k)
unfolding passes_up_to
wrap_power k h = ground (arith, passes_up_to-at (λ k. 2 ^ k == wrapped (2 ^ k)) 64 k h refl)

next_power_of_two-IsPower :
    (n : ℕ) → n < u64_mod → IsPower (next_power_of_two n) ⊎ (next_power_of_two n ≡ 0)
unfolding next_power_of_two
next_power_of_two-IsPower n fits = elim (Bool-cases (leb n 1)) [
  | inl small ↦ inl (record { exponent = 0; power = rw small })
  | inr large ↦ elim (dec_lt (bit_length 64 (n - 1)) 64) [
    | yes room ↦ inl (record {
      exponent = bit_length 64 (n - 1);
      power = rw large (sym (wrap_power (bit_length 64 (n - 1)) room));
    })
    | no full ↦ inr (
        rw large (
          let (above, most, below) = bit_length_bounds 64 (n - 1) (omega arith) in
          let e : bit_length 64 (n - 1) ≡ 64 = omega arith in rw e))
  ]
]

-- The number that `shard_count` rounds up at the end.
abbrev wanted : ℕ → ℕ → ℕ
wanted by_cores by_capacity =
    clamp min_shards max_shards (min by_cores (max by_capacity min_shards))

wanted_cases :
    (a b : ℕ) → (wanted a b ≡ 4) ⊎ ((wanted a b ≡ 512) ⊎ ((wanted a b ≡ a) ⊎ (wanted a b ≡ b)))
wanted_cases a b = ground arith

wanted_range : (a b : ℕ) → (4 ≤ wanted a b) × (wanted a b ≤ 512) × (4 < wanted a b → wanted a b ≤ b)
wanted_range a b = (ground arith, ground arith, λ h. ground arith)

wanted-IsPower : (a b : ℕ) → IsPower a ⊎ (a ≡ 0) → IsPower b → IsPower (wanted a b)
wanted-IsPower a b (inl p) q = elim (wanted_cases a b) [
  | inl four ↦ record { exponent = 2; power = four }
  | inr (inl most) ↦ record { exponent = 9; power = most }
  | inr (inr (inl cores)) ↦ record { exponent = p.exponent; power = cores ∙ p.power }
  | inr (inr (inr room)) ↦ record { exponent = q.exponent; power = room ∙ q.power }
]
wanted-IsPower a b (inr z) q = record { exponent = 2; power = ground arith }

-- The shard count is a power of two from 4 to 512, for every capacity and every machine.
pub shard_count_size :
    (capacity_bytes parallelism : ℕ)
    → (4 ≤ shard_count capacity_bytes parallelism)
      × (shard_count capacity_bytes parallelism ≤ 512)
      × (is_size (shard_count capacity_bytes parallelism) ≡ true)
unfolding shard_count
shard_count_size capacity_bytes parallelism =
    let by_cores = next_power_of_two (mul64 (max parallelism 1) shards_per_core) in
    let by_capacity = prev_power_of_two (max (capacity_bytes / min_shard_bytes) 1) in
    let n = wanted by_cores by_capacity in ground (arith, rounds n)

prev_power_of_two-IsPower : (n : ℕ) → IsPower (prev_power_of_two n)
unfolding prev_power_of_two
prev_power_of_two-IsPower n = record { exponent = 64 - 1 - leading_zeros n; power = refl }

own_power : (n : ℕ) → is_size n ≡ true → 4 ≤ n → n ≤ 512 → next_power_of_two n ≡ n
own_power n size lo hi = ground (arith, rounds n lo hi)

worth_of_room :
    (capacity_bytes n : ℕ)
    → n ≤ max (capacity_bytes / min_shard_bytes) 1
    → 4 < n
    → n * min_shard_bytes ≤ capacity_bytes
worth_of_room capacity_bytes n h more = omega arith

-- More than the least number of shards is made only if each gets a megabyte or more.
shard_count-worth :
    (capacity_bytes parallelism : ℕ)
    → capacity_bytes < u64_mod
    → 4 < shard_count capacity_bytes parallelism
    → shard_count capacity_bytes parallelism * min_shard_bytes ≤ capacity_bytes
unfolding shard_count
shard_count-worth capacity_bytes parallelism fits more =
    let by_cores = next_power_of_two (mul64 (max parallelism 1) shards_per_core) in
    let room : ℕ = max (capacity_bytes / min_shard_bytes) 1 in
    let n = wanted by_cores (prev_power_of_two room) in
    let p =
      wanted-IsPower by_cores (prev_power_of_two room)
        (next_power_of_two-IsPower (mul64 (max parallelism 1) shards_per_core) (omega arith))
        (prev_power_of_two-IsPower room) in
    let (below, above) = prev_power_of_two_bounds room (omega arith) (omega arith) in
    let (lo, hi, capped) = wanted_range by_cores (prev_power_of_two room) in
    let own = own_power n (IsPower-is_size n p lo hi) lo hi in
    rw own
      (worth_of_room capacity_bytes n (le_trans (capped (rw own at more)) below) (rw own at more))
