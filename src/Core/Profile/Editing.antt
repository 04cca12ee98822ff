-- ===== src/Core/Profile/Editing.antt =====
-- How setting a key ends, for every key and every value.
use falcon_cache.Base.{◌≡◌, ◌≢◌, none, some}
use falcon_cache.Base.Text.{Text}
use falcon_cache.Core.Profile.{Profile, ProfileError, ok, err, unknown_key, set, get}
use falcon_cache.Core.Profile.Setting.{Setting, show, store}

-- `shown` is displayed for the setting in `q`, and setting it is setting `value`.
abbrev Canonical : Setting → Text → Text → Profile → Type 0
Canonical s key value q =
    (shown : Text) × (show s q ≡ some shown)
    × ((r : Profile) → store s key shown r ≡ store s key value r)

-- What `set` may do.
pub data SetOutcome (key value : Text) (p : Profile) : Type 0 where
  -- The new profile shows a text for the key, and setting that text is setting `value`.
  stored :
      (q : Profile) (shown : Text)
      → set key value p ≡ ok q
      → get key q ≡ some shown
      → ((r : Profile) → set key shown r ≡ set key value r)
      → SetOutcome key value p
  invalid :
      (reason : Text)
      → set key value p ≡ err (ProfileError.invalid_value key reason)
      → ((r : Profile) → get key r ≢ none)
      → SetOutcome key value p
  unknown :
      set key value p ≡ err (unknown_key key)
      → ((r : Profile) → get key r ≡ none)
      → SetOutcome key value p

-- How a store ends, for the outcomes of `SetOutcome`.
data StoreEnd (s : Setting) (key value : Text) (p : Profile) : Type 0 where
  done : (q : Profile) → store s key value p ≡ ok q → StoreEnd s key value p
  bad :
      (reason : Text)
      → store s key value p ≡ err (ProfileError.invalid_value key reason)
      → ((r : Profile) → show s r ≢ none)
      → StoreEnd s key value p
  no_key :
      store s key value p ≡ err (unknown_key key)
      → ((r : Profile) → show s r ≡ none)
      → StoreEnd s key value p
