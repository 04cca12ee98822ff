-- ===== src/Core/Profile/Tests.antt =====
-- Runs of the profile at fixed inputs. The library's printer and parser are
-- functions that know one profile, written "x".
use falcon_cache.Base.{◌≡◌, refl, true, Option, some}
use falcon_cache.Base.Text.{Text, text}
use falcon_cache.Core.Profile.{Profile, ok, default_profile}
use falcon_cache.Core.Profile.File.{
  Disk, Stored, Permits, owner_file, owner_dir, save, load, save-load,
}

abbrev half_gib : Profile
half_gib = record {
  node = record (default_profile.node) { capacity_mb = some 512; default_ttl_secs = 60 };
}

abbrev parse : Text → Option Profile
parse s = some half_gib

abbrev print : Profile → Option Text
print p = some (text "x")

abbrev allowed : Permits
allowed = record {
  read = true;
  create_dir = true;
  restrict_dir = true;
  write = true;
  restrict_file = true;
}

-- A file that everyone may read, in a directory that everyone may list.
abbrev open_disk : Disk
open_disk = record { file = some (record { content = text "y"; mode = 420 }); dir_mode = some 493 }

save-load_example :
    (load parse allowed (save print allowed half_gib open_disk).0 ≡ ok half_gib)
    × ((f : Stored) × ((save print allowed half_gib open_disk).0.file ≡ some f)
        × (f.mode ≡ owner_file))
    × ((save print allowed half_gib open_disk).0.dir_mode ≡ some owner_dir)
unfolding save
save-load_example = save-load parse print allowed half_gib open_disk (λ s e. refl) refl refl
