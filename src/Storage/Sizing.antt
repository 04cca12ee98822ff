-- ===== src/Storage/Sizing.antt =====
-- How many shards a cache gets: `shard_count` and its powers of two, on 64-bit words.
pub mod Powers
pub mod Bounds
use falcon_cache.Base.{
  ℕ, zero, suc, ◌+◌, ◌-◌, ◌*◌, ◌/◌, ◌^◌, min, max, ◌==◌, leb, if◌then◌else◌, wrapped, mul64,
}

abbrev pub max_shards : ℕ
max_shards = 512

abbrev pub min_shard_bytes : ℕ
min_shard_bytes = 1024 * 1024

abbrev pub min_shards : ℕ
min_shards = 4

abbrev pub shards_per_core : ℕ
shards_per_core = 4

-- The number of binary digits, for a number of at most `fuel` digits.
unfoldable pub bit_length : ℕ → ℕ → ℕ
bit_length zero n = 0
bit_length (suc fuel) n = let rest = bit_length fuel (n / 2) in if n == 0 then 0 else suc rest

-- `usize::leading_zeros`
unfoldable pub leading_zeros : ℕ → ℕ
leading_zeros n = 64 - bit_length 64 n

-- `usize::next_power_of_two`, which wraps to 0 in a release build.
unfoldable pub next_power_of_two : ℕ → ℕ
next_power_of_two n = if leb n 1 then 1 else wrapped (2 ^ bit_length 64 (n - 1))

unfoldable pub prev_power_of_two : ℕ → ℕ
prev_power_of_two n = 2 ^ (64 - 1 - leading_zeros n)

-- `Ord::clamp`
abbrev pub clamp : ℕ → ℕ → ℕ → ℕ
clamp lo hi n = if leb n lo then lo else min n hi

unfoldable pub shard_count : ℕ → ℕ → ℕ
shard_count capacity_bytes parallelism =
    let by_cores = next_power_of_two (mul64 (max parallelism 1) shards_per_core) in
    let by_capacity = prev_power_of_two (max (capacity_bytes / min_shard_bytes) 1) in
    next_power_of_two (clamp min_shards max_shards (min by_cores (max by_capacity min_shards)))
