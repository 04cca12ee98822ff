-- ===== src/Core/Profile/Path.antt =====
-- Where the profile is (crates/falcon-core/src/profile.rs). `join` is that of `Path`.
use falcon_cache.Base.{Option, none, some, if◌then◌else◌}
use falcon_cache.Base.Text.{Text, text, is_blank}

-- `home_dir`, of the variable HOME.
abbrev pub home_dir : Option Text → Option Text
home_dir none = none
home_dir (some home) = if is_blank home then none else some home

abbrev or_here : Option Text → Text
or_here none = text "."
or_here (some home) = home

module _ (join : Text → Text → Text) where
  unfoldable pub default_profile_path : Option Text → Text
  default_profile_path home =
      join (join (or_here (home_dir home)) (text ".falcon")) (text "profile.toml")

  -- `profile_path` of the commands: the flag, or the default.
  abbrev pub profile_path : Option Text → Option Text → Text
  profile_path home none = default_profile_path home
  profile_path home (some flag) = flag
