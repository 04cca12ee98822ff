-- ===== src/Core/Profile/File.antt =====
-- The profile's file: what `load`, `load_or_default` and `save` do with it. `from_str` and
-- `to_string_pretty` are those of the toml library. An operation of the system that fails is
-- `false`, and what it would have done is not done.
use falcon_cache.Base.{
  ℕ, ◌≡◌, refl, ap, ◌∙◌, sym, Bool, true, Option, none, some, [], if◌then◌else◌, Bool-cases,
  Option-cases, inl, inr,
}
use falcon_cache.Base.Text.{Text}
use falcon_cache.Core.Profile.{
  Profile, ProfileError, Outcome, ok, err, not_found, parse_error, serialize_error, io_error,
  default_profile,
}

pub record Stored : Type 0 where
  pub content : Text
  pub mode : ℕ

-- The file at the profile's path, and its directory's mode, where they exist.
pub record Disk : Type 0 where
  pub file : Option Stored
  pub dir_mode : Option ℕ

-- Which operations of the system succeed.
pub record Permits : Type 0 where
  pub read : Bool
  pub create_dir : Bool
  pub restrict_dir : Bool
  pub write : Bool
  pub restrict_file : Bool

-- The modes 0755, 0700, 0644 and 0600: those of a new directory and a new file under the usual
-- umask, and those of the restrictions.
abbrev open_dir : ℕ
open_dir = 493

abbrev pub owner_dir : ℕ
owner_dir = 448

abbrev open_file : ℕ
open_file = 420

abbrev pub owner_file : ℕ
owner_file = 384

abbrev pub made : Option ℕ → ℕ
made none = open_dir
made (some mode) = mode

-- `create_dir_all` leaves a directory that exists as it is.
abbrev create_dir_all : Disk → Disk
create_dir_all d = record d { dir_mode = some (made d.dir_mode) }

abbrev restricted : Option ℕ → Option ℕ
restricted none = none
restricted (some mode) = some owner_dir

abbrev pub restrict_dir : Disk → Disk
restrict_dir d = record d { dir_mode = restricted d.dir_mode }

abbrev pub written : Text → Option Stored → Stored
written s none = record { content = s; mode = open_file }
written s (some f) = record f { content = s }

-- `fs::write` keeps the mode of a file that exists.
abbrev write_file : Text → Disk → Disk
write_file s d = record d { file = some (written s d.file) }

abbrev owned : Option Stored → Option Stored
owned none = none
owned (some f) = some (record f { mode = owner_file })

abbrev pub restrict_file : Disk → Disk
restrict_file d = record d { file = owned d.file }

written-content : (s : Text) (o : Option Stored) → (written s o).content ≡ s
written-content s none = refl
written-content s (some f) = refl

module _ (from_str : Text → Option Profile) where
  unfoldable pub load : Permits → Disk → Outcome Profile
  load permits d = elim d.file [
    | none ↦ err (not_found [])
    | some f ↦
        if permits.read
        then elim (from_str f.content) [ none ↦ err (parse_error []) | some p ↦ ok p ]
        else err (io_error [])
  ]

  abbrev or_default : Outcome Profile → Outcome Profile
  or_default (ok p) = ok p
  or_default (err (not_found path)) = ok default_profile
  or_default (err e) = err e

  unfoldable pub load_or_default : Permits → Disk → Outcome Profile
  unfolding load
  load_or_default permits d = or_default (load permits d)

  load_written :
      (permits : Permits) (f : Stored) (mode : Option ℕ) (p : Profile)
      → permits.read ≡ true
      → from_str f.content ≡ some p
      → load permits (record { file = some f; dir_mode = mode }) ≡ ok p
  unfolding load
  load_written permits f mode p readable e = rw (readable, e) refl

  pub load_or_default_of_load :
      (permits : Permits) (d : Disk) (p : Profile)
      → load permits d ≡ ok p
      → load_or_default permits d ≡ ok p
  unfolding load_or_default
  load_or_default_of_load permits d p h = rw (load_or_default, h) refl

  -- How `load_or_default` ends.
  pub data LoadEnd (permits : Permits) (d : Disk) : Type 0 where
    fresh : d.file ≡ none → load_or_default permits d ≡ ok default_profile → LoadEnd permits d
    found :
        (f : Stored) (p : Profile)
        → d.file ≡ some f
        → permits.read ≡ true
        → from_str f.content ≡ some p
        → load_or_default permits d ≡ ok p
        → LoadEnd permits d
    failed :
        (f : Stored) (e : ProfileError)
        → d.file ≡ some f
        → (permits.read ≡ true → from_str f.content ≡ none)
        → load_or_default permits d ≡ err e
        → LoadEnd permits d

  pub load_or_default-LoadEnd : (permits : Permits) (d : Disk) → LoadEnd permits d
  unfolding load_or_default load
  load_or_default-LoadEnd permits d = elim (Option-cases d.file) [
    | inl n ↦ fresh n (rw (load_or_default, load, n) refl)
    | inr (f, e) ↦ elim (Bool-cases permits.read) [
      | inl r ↦ elim (Option-cases (from_str f.content)) [
        | inl n ↦ failed f (parse_error []) e (λ _. n) (rw (load_or_default, load, e, r, n) refl)
        | inr (p, s) ↦ found f p e r s (rw (load_or_default, load, e, r, s) refl)
      ]
      | inr r ↦ failed f (io_error []) e (λ y. cc) (rw (load_or_default, load, e, r) refl)
    ]
  ]

module _ (to_string_pretty : Profile → Option Text) where
  -- From the writing on, once the directory is ready.
  unfoldable pub save_file : Permits → Profile → Disk → Disk × Outcome (Unit {0})
  save_file permits p d = elim (to_string_pretty p) [
    | none ↦ (d, err (serialize_error []))
    | some s ↦
        if permits.write
        then (if permits.restrict_file
            then (restrict_file (write_file s d), ok tt)
            else (write_file s d, err (io_error [])))
        else (d, err (io_error []))
  ]

  -- `save`, at a path with a parent directory.
  unfoldable pub save : Permits → Profile → Disk → Disk × Outcome (Unit {0})
  unfolding save_file
  save permits p d =
      if permits.create_dir
      then (if permits.restrict_dir
          then save_file permits p (restrict_dir (create_dir_all d))
          else (create_dir_all d, err (io_error [])))
      else (d, err (io_error []))

  -- What the writing that reports success went through.
  save_file-ok :
      (permits : Permits) (p : Profile) (d : Disk)
      → (save_file permits p d).1 ≡ ok tt
      → (s : Text) × (to_string_pretty p ≡ some s)
        × ((save_file permits p d).0 ≡ restrict_file (write_file s d))
  unfolding save_file
  save_file-ok permits p d h = elim (Option-cases (to_string_pretty p)) [
    | inl n ↦ let h' = rw (save_file, n) at h in cc
    | inr (s, e) ↦ elim (Bool-cases permits.write) [
      | inl c ↦ elim (Bool-cases permits.restrict_file) [
        | inl f ↦ (s, e, rw (save_file, e, c, f) refl)
        | inr f ↦ let h' = rw (save_file, e, c, f) at h in cc
      ]
      | inr c ↦ let h' = rw (save_file, e, c) at h in cc
    ]
  ]

  save_ready :
      (permits : Permits) (p : Profile) (d : Disk)
      → permits.create_dir ≡ true
      → permits.restrict_dir ≡ true
      → save permits p d ≡ save_file permits p (restrict_dir (create_dir_all d))
  unfolding save
  save_ready permits p d a b = rw (a, b) refl

  save-ok :
      (permits : Permits) (p : Profile) (d : Disk)
      → (save permits p d).1 ≡ ok tt
      → (s : Text) × (to_string_pretty p ≡ some s)
        × ((save permits p d).0 ≡ restrict_file (write_file s (restrict_dir (create_dir_all d))))
  unfolding save
  save-ok permits p d h = elim (Bool-cases permits.create_dir) [
    | inl a ↦ elim (Bool-cases permits.restrict_dir) [
      | inl b ↦
          let same = save_ready permits p d a b in
          let (s, e, after) =
            save_file-ok permits p (restrict_dir (create_dir_all d))
              (ap (λ r. r.1) (sym same) ∙ h) in
          (s, e, ap (λ r. r.0) same ∙ after)
      | inr b ↦ let h' = rw (save, a, b) at h in cc
    ]
    | inr a ↦ let h' = rw (save, a) at h in cc
  ]

module _ (from_str : Text → Option Profile) (to_string_pretty : Profile → Option Text) where
  -- A save that reports success has written what `load` reads back, if the library reads what it
  -- wrote, and the file and its directory are the owner's alone, whatever their modes were.
  pub save-load :
      (permits : Permits) (p : Profile) (d : Disk)
      → ((s : Text) → to_string_pretty p ≡ some s → from_str s ≡ some p)
      → (save to_string_pretty permits p d).1 ≡ ok tt
      → permits.read ≡ true
      → (load from_str permits (save to_string_pretty permits p d).0 ≡ ok p)
        × ((f : Stored) × ((save to_string_pretty permits p d).0.file ≡ some f)
            × (f.mode ≡ owner_file))
        × ((save to_string_pretty permits p d).0.dir_mode ≡ some owner_dir)
  unfolding save save_file load
  save-load permits p d faithful h readable =
      let (s, e, after) = save-ok to_string_pretty permits p d h in
      (
        ap (load from_str permits) after
            ∙ load_written from_str permits
                (record { content = (written s d.file).content; mode = owner_file })
                (some owner_dir) p readable (ap from_str (written-content s d.file) ∙ faithful s e),
        (_, ap (λ r. r.file) after, refl),
        ap (λ r. r.dir_mode) after,
      )
