-- ===== src/Cli/Serve.antt =====
-- `falcon serve` up to the configuration that it serves (crates/falcon-cli/src/serve.rs): the
-- profile, or the file of `--config`, with the flags of this run on top.
use falcon_cache.Base.{
  ℕ, ◌≡◌, refl, ap, ◌∙◌, sym, Bool, true, false, Option, none, some, List, map, if◌then◌else◌,
}
use falcon_cache.Core.Profile.Setting.{ok_inj, set-log_level}
use mathlib.Core.List.{map-id, map-map}
use falcon_cache.Base.Text.{Text, text}
use falcon_cache.Core.Resources.{available_parallelism}
use falcon_cache.Core.Config.{Config, KeyspaceConfig}
use falcon_cache.Core.Profile.{default_profile, Profile, Outcome, ok, err, to_config, set}
use falcon_cache.Core.Profile.File.{Stored, Disk, Permits, load_or_default}

pub record ServeArgs : Type 0 where
  pub config : Option Text
  pub http_bind : Option Text
  pub wire_bind : Option Text
  pub wire_enabled : Bool
  pub wire_disabled : Bool
  pub capacity_mb : Option ℕ
  pub default_ttl : Option ℕ
  pub node_id : Option Text
  pub region : Option Text
  pub log_level : Text

-- `if let Some(v) = flag`, with what it does to the configuration.
abbrev if_some {ℓ} : {A : Type ℓ} → Option A → (A → Config → Config) → Config → Config
if_some none change c = c
if_some (some v) change c = change v c

abbrev each_keyspace : (KeyspaceConfig → KeyspaceConfig) → Config → Config
each_keyspace change c = record c { keyspaces = map change c.keyspaces }

unfoldable pub apply_overrides : ServeArgs → Config → Config
apply_overrides args c0 =
    let c1 = if_some args.http_bind (λ v c. record c { http = record (c.http) { bind = v } }) c0 in
    let c2 = if_some args.wire_bind (λ v c. record c { wire = record (c.wire) { bind = v } }) c1 in
    let c3 =
      if args.wire_enabled then record c2 { wire = record (c2.wire) { enabled = true } } else c2 in
    let c4 =
      if args.wire_disabled
      then record c3 { wire = record (c3.wire) { enabled = false } }
      else c3 in
    let c5 = if_some args.node_id (λ v c. record c { node = record (c.node) { id = v } }) c4 in
    let c6 = if_some args.region (λ v c. record c { node = record (c.node) { region = v } }) c5 in
    let c7 =
      if_some args.capacity_mb
        (λ mb. each_keyspace (λ ks. record ks { cache_capacity_mb = some mb })) c6 in
    if_some args.default_ttl (λ ttl. each_keyspace (λ ks. record ks { default_ttl_secs = ttl })) c7

unfoldable pub build_config : Profile → ServeArgs → Config
unfolding apply_overrides
build_config p args = apply_overrides args (to_config p)

-- `workers` is the number of threads of the runtime.
pub record RuntimePlan : Type 0 where
  pub workers : ℕ

-- `RuntimePlan::detect`, on a machine that reports its cores or does not.
abbrev pub detect : Option ℕ → RuntimePlan
detect cores = record { workers = available_parallelism cores }

-- What a run logs at, and the configuration that it serves.
pub record Run : Type 0 where
  pub log_level : Text
  pub served : Config

module _ (from_str : Text → Option Profile) (config_file : Text → Option Config) where
  abbrev of_file : ServeArgs → Option Config → Option Run
  of_file args none = none
  of_file args (some c) =
      some (record { log_level = args.log_level; served = apply_overrides args c })

  abbrev of_profile : ServeArgs → Outcome Profile → Option Run
  of_profile args (err e) = none
  of_profile args (ok p) =
      some (record { log_level = args.log_level; served = build_config p args })

  -- `run` up to `serve`, but for building the runtime; `none` is an error.
  unfoldable pub run : Permits → Disk → ServeArgs → Option Run
  unfolding build_config
  run permits d args = elim args.config [
    | none ↦ of_profile args (load_or_default from_str permits d)
    | some path ↦ of_file args (config_file path)
  ]

-- The value of a flag, and the configuration's where the flag is not given.
abbrev pub or_else {ℓ} : {A : Type ℓ} → Option A → A → A
or_else none a = a
or_else (some v) a = v

abbrev or_else_some {ℓ} : {A : Type ℓ} → Option A → Option A → Option A
or_else_some none o = o
or_else_some (some v) o = some v

abbrev wire_flag : ServeArgs → Bool → Bool
wire_flag args b = if args.wire_disabled then false else if args.wire_enabled then true else b

abbrev overridden_keyspace : ServeArgs → KeyspaceConfig → KeyspaceConfig
overridden_keyspace args ks = record ks {
  cache_capacity_mb = or_else_some args.capacity_mb ks.cache_capacity_mb;
  default_ttl_secs = or_else args.default_ttl ks.default_ttl_secs;
}

-- The configuration with the flags on top, field by field.
abbrev pub overridden : ServeArgs → Config → Config
overridden args c = record c {
  node = record { id = or_else args.node_id c.node.id; region = or_else args.region c.node.region };
  http = record { bind = or_else args.http_bind c.http.bind };
  wire = record (c.wire) {
    enabled = wire_flag args c.wire.enabled;
    bind = or_else args.wire_bind c.wire.bind;
  };
  keyspaces = map (overridden_keyspace args) c.keyspaces;
}

capacity_lem :
    (o : Option ℕ) (c : Config)
    → if_some o (λ mb. each_keyspace (λ ks. record ks { cache_capacity_mb = some mb })) c
      ≡ each_keyspace
          (λ ks. record ks { cache_capacity_mb = or_else_some o ks.cache_capacity_mb })
          c
capacity_lem none c = ap (λ l. record c { keyspaces = l }) (sym (map-id c.keyspaces))
capacity_lem (some mb) c = refl

ttl_lem :
    (o : Option ℕ) (c : Config)
    → if_some o (λ ttl. each_keyspace (λ ks. record ks { default_ttl_secs = ttl })) c
      ≡ each_keyspace (λ ks. record ks { default_ttl_secs = or_else o ks.default_ttl_secs }) c
ttl_lem none c = ap (λ l. record c { keyspaces = l }) (sym (map-id c.keyspaces))
ttl_lem (some ttl) c = refl

http_lem :
    (o : Option Text) (c : Config)
    → if_some o (λ v c. record c { http = record (c.http) { bind = v } }) c
      ≡ record c { http = record { bind = or_else o c.http.bind } }
http_lem none c = refl
http_lem (some v) c = refl

wire_lem :
    (o : Option Text) (on off : Bool) (c : Config)
    → (let c2 = if_some o (λ v c. record c { wire = record (c.wire) { bind = v } }) c in
        let c3 = if on then record c2 { wire = record (c2.wire) { enabled = true } } else c2 in
        if off then record c3 { wire = record (c3.wire) { enabled = false } } else c3)
      ≡ record c {
        wire = record (c.wire) {
          enabled = if off then false else if on then true else c.wire.enabled;
          bind = or_else o c.wire.bind;
        };
      }
wire_lem none true true c = refl
wire_lem none true false c = refl
wire_lem none false true c = refl
wire_lem none false false c = refl
wire_lem (some v) true true c = refl
wire_lem (some v) true false c = refl
wire_lem (some v) false true c = refl
wire_lem (some v) false false c = refl

node_lem :
    (o r : Option Text) (c : Config)
    → if_some r
        (λ v c. record c { node = record (c.node) { region = v } })
        (if_some o (λ v c. record c { node = record (c.node) { id = v } }) c)
      ≡ record c { node = record { id = or_else o c.node.id; region = or_else r c.node.region } }
node_lem none none c = refl
node_lem none (some v) c = refl
node_lem (some v) none c = refl
node_lem (some v) (some w) c = refl

-- The flags replace exactly the fields they name: each field is the flag's value where the flag
-- is given and the configuration's where not, in every keyspace where the field is a keyspace's,
-- and the flag that turns the wire protocol off beats the one that turns it on.
pub apply_overrides-overridden :
    (args : ServeArgs) (c : Config) → apply_overrides args c ≡ overridden args c
unfolding apply_overrides
apply_overrides-overridden args c =
    ttl_lem args.default_ttl _
    ∙ ap
        (each_keyspace
          (λ ks. record ks { default_ttl_secs = or_else args.default_ttl ks.default_ttl_secs }))
        (capacity_lem args.capacity_mb _
          ∙ ap
              (each_keyspace (λ ks. record ks {
                cache_capacity_mb = or_else_some args.capacity_mb ks.cache_capacity_mb;
              }))
              (node_lem args.node_id args.region _
                ∙ ap
                    (λ (x : Config). record x {
                      node = record {
                        id = or_else args.node_id x.node.id;
                        region = or_else args.region x.node.region;
                      };
                    })
                    (wire_lem args.wire_bind args.wire_enabled args.wire_disabled _
                      ∙ ap
                          (λ (x : Config). record x {
                            wire = record (x.wire) {
                              enabled = wire_flag args x.wire.enabled;
                              bind = or_else args.wire_bind x.wire.bind;
                            };
                          })
                          (http_lem args.http_bind c))))
    ∙ ap (λ (l : List KeyspaceConfig). record (overridden args c) { keyspaces = l })
        (map-map _ _ c.keyspaces)

build_config-log_level :
    (value : Text) (p q : Profile) (args : ServeArgs)
    → set (text "log-level") value p ≡ ok q
    → build_config q args ≡ build_config p args
unfolding build_config to_config
build_config-log_level value p q args h = rw (← ok_inj (sym (set-log_level value p) ∙ h)) refl

module _ (from_str : Text → Option Profile) (config_file : Text → Option Config) where
  -- The profile's log level is not used: setting `log-level` to any value in the profile changes
  -- nothing of what `run` hands on without `--config`, neither the level that it logs at nor the
  -- configuration that it serves.
  pub set-run :
      (permits : Permits) (d after : Disk) (p q : Profile) (value : Text) (args : ServeArgs)
      → args.config ≡ none
      → load_or_default from_str permits d ≡ ok p
      → load_or_default from_str permits after ≡ ok q
      → set (text "log-level") value p ≡ ok q
      → run from_str config_file permits after args ≡ run from_str config_file permits d args
  unfolding run
  set-run permits d after p q value args flagless before later h =
      rw (run, flagless, before, later, build_config-log_level value p q args h) refl

  -- What `run` comes to: the flag's log level with the configuration of a profile and the flags on
  -- top, or an error.
  pub data RunEnd (permits : Permits) (d : Disk) (args : ServeArgs) : Option Run → Type 0 where
    unset :
        d.file ≡ none
        → RunEnd permits d args (
            some (record {
              log_level = args.log_level;
              served = overridden args (to_config default_profile);
            }))
    loaded :
        (f : Stored) (p : Profile)
        → d.file ≡ some f
        → permits.read ≡ true
        → from_str f.content ≡ some p
        → RunEnd permits d args
            (some (record { log_level = args.log_level; served = overridden args (to_config p) }))
    unusable :
        (f : Stored)
        → d.file ≡ some f
        → (permits.read ≡ true → from_str f.content ≡ none)
        → RunEnd permits d args none
