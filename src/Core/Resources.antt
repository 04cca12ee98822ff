-- ===== src/Core/Resources.antt =====
-- Capacity from the memory that the process may use (crates/falcon-core/src/resources.rs). The
-- texts of the system's files are arguments.
use falcon_cache.Base.{
  ℕ, ◌+◌, ◌-◌, ◌*◌, ◌/◌, ◌≤◌, ◌≡◌, refl, min, Option, none, some, List, [], ◌∷◌, ltb, leb,
  if◌then◌else◌, arith, mul64, Bool-cases, inl, inr,
}
use falcon_cache.Base.Equality.{bytes_eq}
use falcon_cache.Base.Text.{
  Text, text, trim, parse_u64, strip_prefix, first_word, drop_return, split_lines,
}

pub data MemorySource : Type 0 where
  cgroup_v2 cgroup_v1 host_total : MemorySource

pub record MemoryLimit : Type 0 where
  pub bytes : ℕ
  pub source : MemorySource

pub data CapacitySource : Type 0 where
  explicit : CapacitySource
  auto : MemorySource → CapacitySource
  fallback : CapacitySource

-- `as_str` of both
abbrev pub source_name : MemorySource → Text
source_name cgroup_v2 = text "cgroup-v2"
source_name cgroup_v1 = text "cgroup-v1"
source_name host_total = text "host-total"

abbrev pub capacity_name : CapacitySource → Text
capacity_name explicit = text "explicit"
capacity_name (auto source) = source_name source
capacity_name fallback = text "fallback-default"

-- Of what the operating system says, if it does.
abbrev pub available_parallelism : Option ℕ → ℕ
available_parallelism none = 1
available_parallelism (some n) = n

pub record ResolvedCapacity : Type 0 where
  pub bytes : ℕ
  pub source : CapacitySource

abbrev fallback_capacity_mb : ℕ
fallback_capacity_mb = 256

abbrev min_auto_capacity : ℕ
min_auto_capacity = 64 * 1024 * 1024

abbrev min_headroom : ℕ
min_headroom = 256 * 1024 * 1024

abbrev auto_fraction_percent : ℕ
auto_fraction_percent = 70

unfoldable pub auto_capacity_bytes : Option MemoryLimit → Option ℕ
auto_capacity_bytes none = none
auto_capacity_bytes (some limit) =
    let by_fraction = limit.bytes / 100 * auto_fraction_percent in
    if ltb limit.bytes min_headroom
    then none
    else (let capacity = min by_fraction (limit.bytes - min_headroom) in
        if leb min_auto_capacity capacity then some capacity else none)

unfoldable pub parse_limit : Text → Option ℕ
unfolding trim parse_u64
parse_limit t =
    if bytes_eq (trim t) (text "max")
    then none
    else elim (parse_u64 (trim t)) [ none ↦ none | some b ↦ if ltb 0 b then some b else none ]

-- The files that could be read, in the order of the candidates.
unfoldable pub read_first : List (Option Text × MemorySource) → Option MemoryLimit
unfolding parse_limit
read_first [] = none
read_first ((none, source) ∷ rest) = read_first rest
read_first ((some t, source) ∷ rest) =
    let later = read_first rest in
    elim (parse_limit t) [
      | none ↦ later
      | some bytes ↦ some (record { bytes = bytes; source = source })
    ]

-- The reading of the first "MemTotal:" line, in kB.
abbrev kilobytes : Option Text → Option ℕ
kilobytes none = none
kilobytes (some word) = elim (parse_u64 word) [ none ↦ none | some kb ↦ some (mul64 kb 1024) ]

unfoldable pub total_of : List Text → Option ℕ
unfolding strip_prefix first_word drop_return parse_u64
total_of [] = none
total_of (line ∷ rest) =
    let later = total_of rest in
    elim (strip_prefix (text "MemTotal:") (drop_return line)) [
      | none ↦ later
      | some reading ↦ kilobytes (first_word reading)
    ]

unfoldable pub parse_meminfo_total : Text → Option ℕ
unfolding total_of split_lines
parse_meminfo_total t = total_of (split_lines t)

-- `host_total_bytes`, from the text of /proc/meminfo if it could be read.
abbrev host_total_bytes : Option Text → Option ℕ
host_total_bytes none = none
host_total_bytes (some t) = parse_meminfo_total t

abbrev host_limit : Option ℕ → Option MemoryLimit
host_limit none = none
host_limit (some bytes) = some (record { bytes = bytes; source = MemorySource.host_total })

-- `detect_memory_limit`, from what `read_first` and `host_total_bytes` found.
unfoldable pub detect_memory_limit : Option MemoryLimit → Option ℕ → Option MemoryLimit
detect_memory_limit none host = host_limit host
detect_memory_limit (some cgroup) none = some cgroup
detect_memory_limit (some cgroup) (some host) =
    if leb cgroup.bytes host then some cgroup else host_limit (some host)

abbrev source_of : Option MemoryLimit → MemorySource
source_of none = MemorySource.host_total
source_of (some limit) = limit.source

-- `resolve_capacity`, for the limit that was detected. `expect` never meets a missing limit, since
-- there is no capacity without one.
unfoldable pub resolve_capacity : Option ℕ → Option MemoryLimit → ResolvedCapacity
unfolding auto_capacity_bytes
resolve_capacity (some mb) limit = record { bytes = mul64 (mul64 mb 1024) 1024; source = explicit }
resolve_capacity none limit = elim (auto_capacity_bytes limit) [
  | some bytes ↦ record { bytes = bytes; source = auto (source_of limit) }
  | none ↦ record { bytes = fallback_capacity_mb * 1024 * 1024; source = fallback }
]

-- An automatic capacity is at least 64 MiB, at most 70 % of the limit, and leaves at least
-- 256 MiB of it to the rest of the process.
pub auto_capacity_bytes-bounds :
    (limit : MemoryLimit) (capacity : ℕ)
    → auto_capacity_bytes (some limit) ≡ some capacity
    → (min_auto_capacity ≤ capacity)
      × (capacity * 100 ≤ limit.bytes * 70)
      × (capacity + min_headroom ≤ limit.bytes)
unfolding auto_capacity_bytes
auto_capacity_bytes-bounds limit capacity h = ground arith

-- The limit that is used is never more than the host's memory, where that is known.
detect_memory_limit-host :
    (cgroup : Option MemoryLimit) (host : ℕ)
    → (limit : MemoryLimit) × (detect_memory_limit cgroup (some host) ≡ some limit)
      × (limit.bytes ≤ host)
unfolding detect_memory_limit
detect_memory_limit-host none host = (_, refl, omega arith)
detect_memory_limit-host (some cgroup) host = elim (Bool-cases (leb cgroup.bytes host)) [
  | inl plausible ↦ (cgroup, rw plausible refl, ground (arith, plausible))
  | inr beyond ↦
      (record { bytes = host; source = MemorySource.host_total }, rw beyond refl, omega arith)
]
