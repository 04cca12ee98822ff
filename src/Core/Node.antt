-- ===== src/Core/Node.antt =====
-- Building the keyspaces of a node, finding one by its name, and the shutdown signal
-- (crates/falcon-core/src/node.rs).
use falcon_cache.Base.{
  ◌⊎◌, ◌⊎◌, Bool, true, false, ◌||◌, ℕ, zero, suc, ◌+◌, ◌*◌, ◌/◌, ◌≤◌, ◌≡◌, refl, sym, max, Option,
  none, some, List, [], ◌∷◌, arith, ap, ◌∙◌, Option-cases, inl, inr,
}
use falcon_cache.Base.Equality.{byte_string_eq}
use native.Mathlib.Nat.{mul-div-le, add-mul}
use falcon_cache.Storage.Table.{get as find, put as replace}
use falcon_cache.Storage.Shard.{Bytes}
use falcon_cache.Storage.Engine.{with_options}
use falcon_cache.Core.Keyspace.{Keyspace, new_keyspace}
use falcon_cache.Core.Config.{KeyspaceConfig}
use falcon_cache.Core.Resources.{MemoryLimit, resolve_capacity}

abbrev is_auto : KeyspaceConfig → ℕ
is_auto c = elim c.cache_capacity_mb [ none ↦ 1 | some mb ↦ 0 ]

unfoldable pub count_auto : List KeyspaceConfig → ℕ
count_auto [] = 0
count_auto (c ∷ rest) = is_auto c + count_auto rest

-- The share of one keyspace, where `auto_count` keyspaces size themselves.
unfoldable pub capacity_of : ℕ → Option MemoryLimit → KeyspaceConfig → ℕ
capacity_of auto_count limit c = elim c.cache_capacity_mb [
  | none ↦ (resolve_capacity none limit).bytes / max auto_count 1
  | some mb ↦ (resolve_capacity (some mb) limit).bytes
]

abbrev build_keyspace : ℕ → Option MemoryLimit → ℕ → KeyspaceConfig → Keyspace
build_keyspace auto_count limit parallelism c =
    new_keyspace
      (with_options (record {
        capacity_bytes = capacity_of auto_count limit c;
        evict_sample = c.evict_sample;
        parallelism = parallelism;
      }))
      c.default_ttl_secs

-- The loop over the configured keyspaces. A name that comes twice keeps the later one.
unfoldable pub build_each :
    ℕ
    → Option MemoryLimit
    → ℕ
    → List KeyspaceConfig
    → List (Bytes × Keyspace)
    → List (Bytes × Keyspace)
unfolding capacity_of
build_each auto_count limit parallelism [] built = built
build_each auto_count limit parallelism (c ∷ rest) built =
    build_each auto_count limit parallelism rest
      (replace c.name (build_keyspace auto_count limit parallelism c) built)

unfoldable pub build : Option MemoryLimit → ℕ → List KeyspaceConfig → List (Bytes × Keyspace)
unfolding build_each count_auto
build limit parallelism configs = build_each (count_auto configs) limit parallelism configs []

pub data NodeError : Type 0 where
  unknown_keyspace : Bytes → NodeError

-- `keyspace`
abbrev keyspace : Bytes → List (Bytes × Keyspace) → Option Keyspace
keyspace name keyspaces = find name keyspaces

-- `require_keyspace`
abbrev pub require_keyspace : Bytes → List (Bytes × Keyspace) → NodeError ⊎ Keyspace
require_keyspace name keyspaces = elim (keyspace name keyspaces) [
  | none ↦ inl (NodeError.unknown_keyspace name)
  | some ks ↦ inr ks
]

-- What the keyspaces that size themselves get together.
unfoldable pub auto_total : ℕ → Option MemoryLimit → List KeyspaceConfig → ℕ
unfolding capacity_of
auto_total auto_count limit [] = 0
auto_total auto_count limit (c ∷ rest) =
    is_auto c * capacity_of auto_count limit c + auto_total auto_count limit rest

-- What waiting for SIGTERM has come to: its handler could not be installed, or it has been received
-- or not.
pub data Terminate : Type 0 where
  unavailable pending received : Terminate

abbrev terminated : Terminate → Bool
terminated Terminate.unavailable = true
terminated Terminate.pending = false
terminated Terminate.received = true

-- Whether `shutdown_signal` resolves: on Ctrl-C, or when waiting for SIGTERM ends.
unfoldable pub shutdown_signal : Bool → Terminate → Bool
shutdown_signal ctrl_c terminate = ctrl_c || terminated terminate

next_share : (a n q total : ℕ) → total ≡ n * q → a * q + total ≡ (a + n) * q
next_share a n q total h = ap (λ x. a * q + x) h ∙ sym (add-mul a n q)

auto_share :
    (auto_count : ℕ) (limit : Option MemoryLimit) (c : KeyspaceConfig)
    → is_auto c * capacity_of auto_count limit c
      ≡ is_auto c * ((resolve_capacity none limit).bytes / max auto_count 1)
unfolding capacity_of
auto_share auto_count limit c = elim (Option-cases c.cache_capacity_mb) [
  | inl none_set ↦ rw (none_set, capacity_of) refl
  | inr (mb, set) ↦ rw (set, capacity_of) (omega arith)
]

auto_total-count :
    (auto_count : ℕ) (limit : Option MemoryLimit) (configs : List KeyspaceConfig)
    → auto_total auto_count limit configs
      ≡ count_auto configs * ((resolve_capacity none limit).bytes / max auto_count 1)
unfolding auto_total count_auto
auto_total-count auto_count limit [] = omega arith
auto_total-count auto_count limit (c ∷ rest) =
    ap (λ x. x + auto_total auto_count limit rest) (auto_share auto_count limit c)
    ∙ next_share (is_auto c) (count_auto rest)
        ((resolve_capacity none limit).bytes / max auto_count 1) (auto_total auto_count limit rest)
        (auto_total-count auto_count limit rest)

share-le : (n bytes : ℕ) → n * (bytes / max n 1) ≤ bytes
share-le zero bytes = omega arith
share-le (suc n) bytes = rw (largest) (mul-div-le bytes (suc n))
  where
    largest : max (suc n) 1 ≡ suc n
    largest = omega arith

-- The keyspaces that size themselves share one budget: together they get no more than one
-- keyspace that sizes itself would.
pub auto_total-le :
    (limit : Option MemoryLimit) (configs : List KeyspaceConfig)
    → auto_total (count_auto configs) limit configs ≤ (resolve_capacity none limit).bytes
auto_total-le limit configs = omega (
  arith,
  auto_total-count (count_auto configs) limit configs,
  share-le (count_auto configs) (resolve_capacity none limit).bytes,
)
