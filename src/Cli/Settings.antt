-- ===== src/Cli/Settings.antt =====
-- `falcon config` and `falcon status` (crates/falcon-cli/src/config_cmd.rs), with the lines that
-- they print.
use falcon_cache.Base.{
  ◌⊎◌, ◌⊎◌, ℕ, ◌≡◌, refl, ap, ◌∙◌, sym, Bool, true, false, not, ◌&&◌, Option, none, some, List, [],
  ◌∷◌, ◌++◌, map, length, ◌-◌, if◌then◌else◌, inl, inr, zero, suc,
}
use falcon_cache.Base.Equality.{bytes_eq}
use falcon_cache.Base.Text.{is_any, Text, text, is_blank}
use falcon_cache.Core.Profile.{
  Profile, Outcome, ok, err, ProfileError, unknown_key, get, set, entries,
}
use falcon_cache.Core.Profile.File.{
  Stored, save-load, load_or_default_of_load, Disk, Permits, load_or_default, save,
}

abbrev is_secret : Text → Bool
is_secret key = bytes_eq key (text "api-key")

-- Six bullets, U+2022.
abbrev pub dots : Text
dots = 8226 ∷ 8226 ∷ 8226 ∷ 8226 ∷ 8226 ∷ 8226 ∷ []

abbrev redact : Text → Text → Text
redact key value = if is_secret key && not (is_blank value) then dots else value

abbrev pub spaces : ℕ → Text
spaces zero = []
spaces (suc n) = 32 ∷ spaces n

-- `{key:<16}`
abbrev padded : Text → Text
padded key = key ++ spaces (16 - length key)

abbrev listed : Text × Text → Text
listed (key, value) = padded key ++ text " " ++ redact key value

-- The lines of `falcon config list`.
unfoldable pub list_lines : Profile → List Text
unfolding entries
list_lines p = map listed (entries p)

-- The lines of `falcon status` below "Settings:".
unfoldable pub status_lines : Profile → List Text
unfolding entries
status_lines p = map (λ e. text "  " ++ listed e) (entries p)

pub data ConfigCmd : Type 0 where
  set_key : Text → Text → ConfigCmd
  get_key : Text → ConfigCmd
  list : ConfigCmd

-- The line that `falcon config set` shows the value in.
abbrev pub set_line : Text → Text → Text
set_line key value = key ++ text " = " ++ redact key value

module _ (from_str : Text → Option Profile) (to_string_pretty : Profile → Option Text)
    (path : Text) where
  abbrev pub set_lines : Text → Text → List Text
  set_lines key value =
      set_line key value
      ∷ (text "saved to " ++ path)
      ∷ text "restart `falcon serve` for it to take effect"
      ∷ []

  abbrev saved : Text → Text → Disk × Outcome (Unit {0}) → Disk × Outcome (List Text)
  saved key value (d, ok done) = (d, ok (set_lines key value))
  saved key value (d, err e) = (d, err e)

  abbrev set_and_save : Permits → Text → Text → Disk → Outcome Profile → Disk × Outcome (List Text)
  set_and_save permits key value d (err e) = (d, err e)
  set_and_save permits key value d (ok p) = elim (set key value p) [
    | err e ↦ (d, err e)
    | ok q ↦ saved key value (save to_string_pretty permits q d)
  ]

  -- The error of an unknown key is the profile's here; it prints differently.
  abbrev shown : Text → Outcome Profile → Outcome (List Text)
  shown key (err e) = err e
  shown key (ok p) = elim (get key p) [
    | none ↦ err (unknown_key key)
    | some value ↦ ok (value ∷ [])
  ]

  abbrev listing : Outcome Profile → Outcome (List Text)
  listing (err e) = err e
  listing (ok p) = ok (list_lines p)

  -- `config`: the disk after the command, and what it prints.
  unfoldable pub config : Permits → ConfigCmd → Disk → Disk × Outcome (List Text)
  config permits (set_key key value) d =
      set_and_save permits key value d (load_or_default from_str permits d)
  config permits (get_key key) d = (d, shown key (load_or_default from_str permits d))
  config permits list d = (d, listing (load_or_default from_str permits d))

-- `path.exists()`
abbrev not_created : Option Stored → Text
not_created none = text " (not created yet — using defaults)"
not_created (some f) = []

module _ (from_str : Text → Option Profile) (version path : Text) where
  abbrev status_of : Disk → Outcome Profile → Outcome (List Text)
  status_of d (err e) = err e
  status_of d (ok p) = ok (
      (text "Falcon Cache " ++ version)
      ∷ text "  low-latency, memory-bounded RAM cache with TTL"
      ∷ []
      ∷ (text "Profile: " ++ (path ++ not_created d.file))
      ∷ []
      ∷ text "Settings:"
      ∷ status_lines p)

  -- `status`
  unfoldable pub status : Permits → Disk → Outcome (List Text)
  unfolding status_lines
  status permits d = status_of d (load_or_default from_str permits d)

-- The profile with another key for its clients.
abbrev pub with_api_key : Text → Profile → Profile
with_api_key k p = record p { node = record (p.node) { api_key = k } }

redact-secret : (k : Text) → is_blank k ≡ false → redact (text "api-key") k ≡ dots
redact-secret k h = rw h refl

-- The configured API key does not show in what `falcon config list` and `falcon status` print:
-- whatever key is set, the lines are the same.
pub lines-secret :
    (a b : Text) (p : Profile)
    → is_blank a ≡ false
    → is_blank b ≡ false
    → (list_lines (with_api_key a p) ≡ list_lines (with_api_key b p))
      × (status_lines (with_api_key a p) ≡ status_lines (with_api_key b p))
unfolding list_lines status_lines entries get is_any
lines-secret a b p h k = (rw (h, k) refl, rw (h, k) refl)

-- `falcon config set` stores the API key alike under `api-key` and under `api_key`, and hides the
-- key in the line that it prints for the first but prints it in full for the second.
pub set_line-alias :
    (value : Text) (p : Profile)
    → is_blank value ≡ false
    → (set (text "api_key") value p ≡ set (text "api-key") value p)
      × (set_line (text "api-key") value ≡ text "api-key = " ++ dots)
      × (set_line (text "api_key") value ≡ text "api_key = " ++ value)
unfolding set is_any
set_line-alias value p h = (refl, rw h refl, refl)

Outcome-cases {ℓ} :
    {A : Type ℓ} (o : Outcome A) → ((a : A) × (o ≡ ok a)) ⊎ ((e : ProfileError) × (o ≡ err e))
Outcome-cases (ok a) = inl (a, refl)
Outcome-cases (err e) = inr (e, refl)

module _ (from_str : Text → Option Profile) (to_string_pretty : Profile → Option Text)
    (path : Text) where
  -- How `falcon config set` ends.
  pub data SetEnd (permits : Permits) (key value : Text) (d : Disk) : Type 0 where
    saving :
        (p q : Profile)
        → load_or_default from_str permits d ≡ ok p
        → set key value p ≡ ok q
        → config from_str to_string_pretty path permits (set_key key value) d
          ≡ saved from_str to_string_pretty path key value (save to_string_pretty permits q d)
        → SetEnd permits key value d
    rejected :
        (e : ProfileError)
        → config from_str to_string_pretty path permits (set_key key value) d ≡ (d, err e)
        → SetEnd permits key value d

  config-SetEnd : (permits : Permits) (key value : Text) (d : Disk) → SetEnd permits key value d
  unfolding config
  config-SetEnd permits key value d = elim (Outcome-cases (load_or_default from_str permits d)) [
    | inl (p, e) ↦ elim (Outcome-cases (set key value p)) [
      | inl (q, f) ↦ saving p q e f (rw (config, e, set_and_save, f) refl)
      | inr (x, f) ↦ rejected x (rw (config, e, set_and_save, f) refl)
    ]
    | inr (x, e) ↦ rejected x (rw (config, e) refl)
  ]

  saved-eq-ok :
      (key value : Text) (r : Disk × Outcome (Unit {0})) (lines : List Text)
      → (saved from_str to_string_pretty path key value r).1 ≡ ok lines
      → (r.1 ≡ ok tt) × ((saved from_str to_string_pretty path key value r).0 ≡ r.0)
  saved-eq-ok key value (d, ok done) lines h = (refl, refl)
  saved-eq-ok key value (d, err e) lines h = cc

  -- `falcon config set` that reports success has set the key in the profile that was stored, or in
  -- the default profile where none was, and a later load reads exactly that, if the library reads
  -- what it wrote of it and the file can be read.
  pub config-load :
      (permits : Permits) (key value : Text) (d : Disk) (lines : List Text)
      → ((p q : Profile) (s : Text)
          → load_or_default from_str permits d ≡ ok p
          → set key value p ≡ ok q
          → to_string_pretty q ≡ some s
          → from_str s ≡ some q)
      → permits.read ≡ true
      → (config from_str to_string_pretty path permits (set_key key value) d).1 ≡ ok lines
      → (p q : Profile) × (load_or_default from_str permits d ≡ ok p)
        × (set key value p ≡ ok q)
        × (load_or_default from_str permits
              (config from_str to_string_pretty path permits (set_key key value) d).0
            ≡ ok q)
  config-load permits key value d lines faithful readable h =
      elim (config-SetEnd permits key value d) [
        | saving p q e f ran ↦
            let r = save to_string_pretty permits q d in
            let (done, same) = saved-eq-ok key value r lines (ap (λ x. x.1) (sym ran) ∙ h) in
            (
              p,
              q,
              e,
              f,
              ap (λ x. load_or_default from_str permits x.0) ran
                  ∙ ap (load_or_default from_str permits) same
                  ∙ load_or_default_of_load from_str permits r.0 q
                      (save-load from_str to_string_pretty permits q d (λ s. faithful p q s e f)
                        done readable).0,
            )
        | rejected x e ↦ let clash = ap (λ y. y.1) (sym e) ∙ h in cc
      ]
