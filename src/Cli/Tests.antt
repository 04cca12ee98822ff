-- ===== src/Cli/Tests.antt =====
-- Runs of the command line at fixed inputs. The toml library's printer and parser are functions
-- that know one profile, written "x".
use falcon_cache.Base.{
  if◌then◌else◌, ◌∙◌, ◌∙◌, sym, ap, ◌≡◌, refl, true, false, Option, none, some, [], ◌∷◌, ◌++◌,
}
use falcon_cache.Base.Equality.{bytes_eq}
use falcon_cache.Base.Text.{Text, text, is_any}
use falcon_cache.Core.Config.{Config, default_config, cache_keyspace}
use falcon_cache.Core.Profile.{Profile, ok, default_profile, set}
use falcon_cache.Core.Profile.Setting.{ok_inj, set-log_level}
use falcon_cache.Core.Profile.File.{Disk, Permits, save, load, load_or_default}
use falcon_cache.Cli.Serve.{
  ServeArgs, apply_overrides, overridden, apply_overrides-overridden, set-run, run,
}
use falcon_cache.Cli.Settings.{
  lines-secret, list_lines, status_lines, with_api_key, set_line-alias, set_line, dots, config,
  set_key, config-load, set_lines,
}

abbrev flags : ServeArgs
flags = record {
  config = none;
  http_bind = some (text "127.0.0.1:1111");
  wire_bind = none;
  wire_enabled = true;
  wire_disabled = true;
  capacity_mb = some 512;
  default_ttl = none;
  node_id = none;
  region = some (text "eu");
  log_level = text "info";
}

abbrev two_keyspaces : Config
two_keyspaces = record default_config {
  keyspaces = cache_keyspace ∷ record cache_keyspace { name = text "b" } ∷ [];
}

apply_overrides-overridden_example :
    apply_overrides flags two_keyspaces ≡ overridden flags two_keyspaces
apply_overrides-overridden_example = apply_overrides-overridden flags two_keyspaces

abbrev quiet : Profile
quiet = record { node = record (default_profile.node) { log_level = text "error" } }

abbrev parse : Text → Option Profile
parse s = some quiet

abbrev print : Profile → Option Text
print p = some (text "x")

abbrev no_config : Text → Option Config
no_config path = none

abbrev allowed : Permits
allowed = record {
  read = true;
  create_dir = true;
  restrict_dir = true;
  write = true;
  restrict_file = true;
}

abbrev forbidden : Permits
forbidden = record allowed { read = false }

abbrev fresh_disk : Disk
fresh_disk = record { file = none; dir_mode = none }

abbrev used_disk : Disk
used_disk = record { file = some (record { content = text "x"; mode = 384 }); dir_mode = some 448 }

-- A profile at the default log level, and the one that setting it makes.
abbrev by_name : Text → Option Profile
by_name s = if bytes_eq s (text "x") then some default_profile else some quiet

abbrev other_disk : Disk
other_disk = record { file = some (record { content = text "y"; mode = 384 }); dir_mode = none }

set-run_example :
    run by_name no_config allowed other_disk flags ≡ run by_name no_config allowed used_disk flags
unfolding load load_or_default
set-run_example =
    set-run by_name no_config allowed used_disk other_disk default_profile quiet (text "error")
      flags refl refl refl (set-log_level (text "error") default_profile)

lines-secret_example :
    (list_lines (with_api_key (text "k") quiet) ≡ list_lines (with_api_key (text "hunter2") quiet))
    × (status_lines (with_api_key (text "k") quiet)
        ≡ status_lines (with_api_key (text "hunter2") quiet))
lines-secret_example = lines-secret (text "k") (text "hunter2") quiet refl refl

set_line-alias_example :
    (set (text "api_key") (text "hunter2") quiet ≡ set (text "api-key") (text "hunter2") quiet)
    × (set_line (text "api-key") (text "hunter2") ≡ text "api-key = " ++ dots)
    × (set_line (text "api_key") (text "hunter2") ≡ text "api_key = " ++ text "hunter2")
set_line-alias_example = set_line-alias (text "hunter2") quiet refl

quiet_only :
    (p q : Profile)
    → ok default_profile ≡ ok p
    → set (text "log-level") (text "error") p ≡ ok q
    → some quiet ≡ some q
quiet_only p q e f =
    let same = ok_inj e in
    ap some (ok_inj (sym (set-log_level (text "error") default_profile) ∙ rw same f))

config-load_example :
    (p q : Profile) × (load_or_default parse allowed fresh_disk ≡ ok p)
    × (set (text "log-level") (text "error") p ≡ ok q)
    × (load_or_default parse allowed
          (config parse print
            (text "p")
            allowed
            (set_key (text "log-level") (text "error"))
            fresh_disk).0
        ≡ ok q)
unfolding config set load load_or_default save is_any
config-load_example =
    config-load parse print (text "p") allowed (text "log-level") (text "error") fresh_disk
      (set_lines parse print (text "p") (text "log-level") (text "error"))
      (λ p q s e f g. quiet_only p q e f) refl refl
