-- ===== src/Core/Profile/Setting.antt =====
-- The settings that keys name: what is shown for a key can be set again.
use falcon_cache.Base.{
  ℕ, ◌<◌, ◌^◌, ◌≡◌, refl, sym, ◌∙◌, Bool, true, false, Option, none, some, [], ◌∷◌, arith,
  if◌then◌else◌,
}
use falcon_cache.Base.Equality.{bytes_eq}
use falcon_cache.Base.Text.{
  Text, text, is_any, trim, trim_start, trim_end, is_whitespace, to_ascii_lowercase, show_u64,
}
use falcon_cache.Base.Text.Decimal.{trim-show_u64, parse_u64-show_u64, show_u64-head, IsDigit}
use falcon_cache.Core.Profile.{
  Profile, Outcome, ok, err, unknown_key, parse_bool, parse_capacity, parse_ttl, checked, yes_no,
  megabytes, seconds, set, get, show_bool, show_capacity,
}

-- The setting that a key names.
pub data Setting : Type 0 where
  id region http_bind wire_bind wire_enabled api_key log_level capacity_mb default_ttl tls_enabled
        tls_cert tls_key other :
      Setting

unfoldable pub setting : Text → Setting
setting key =
    if is_any (text "node.id" ∷ text "id" ∷ []) key
    then id
    else if is_any (text "node.region" ∷ text "region" ∷ []) key
    then region
    else if is_any (text "http-bind" ∷ text "http_bind" ∷ text "node.http_bind" ∷ []) key
    then http_bind
    else if is_any (text "wire-bind" ∷ text "wire_bind" ∷ text "node.wire_bind" ∷ []) key
    then wire_bind
    else if is_any (text "wire-enabled" ∷ text "wire_enabled" ∷ []) key
    then wire_enabled
    else if is_any (text "api-key" ∷ text "api_key" ∷ text "auth.api_key" ∷ []) key
    then api_key
    else if is_any (text "log-level" ∷ text "log_level" ∷ []) key
    then log_level
    else if is_any (text "capacity-mb" ∷ text "capacity_mb" ∷ []) key
    then capacity_mb
    else if is_any (text "default-ttl" ∷ text "default_ttl_secs" ∷ text "default-ttl-secs" ∷ []) key
    then default_ttl
    else if is_any (text "tls-enabled" ∷ text "tls_enabled" ∷ []) key
    then tls_enabled
    else if is_any (text "tls-cert" ∷ text "tls_cert" ∷ []) key
    then tls_cert
    else if is_any (text "tls-key" ∷ text "tls_key" ∷ []) key
    then tls_key
    else other

unfoldable pub show : Setting → Profile → Option Text
show id p = some p.node.id
show region p = some p.node.region
show http_bind p = some p.node.http_bind
show wire_bind p = some p.node.wire_bind
show wire_enabled p = some (show_bool p.node.wire_enabled)
show api_key p = some p.node.api_key
show log_level p = some p.node.log_level
show capacity_mb p = some (show_capacity p.node.capacity_mb)
show default_ttl p = some (show_u64 p.node.default_ttl_secs)
show tls_enabled p = some (show_bool p.node.tls_enabled)
show tls_cert p = some p.node.tls_cert
show tls_key p = some p.node.tls_key
show other p = none

unfoldable pub store : Setting → Text → Text → Profile → Outcome Profile
store id key value p = ok (record p { node = record (p.node) { id = value } })
store region key value p = ok (record p { node = record (p.node) { region = value } })
store http_bind key value p = ok (record p { node = record (p.node) { http_bind = value } })
store wire_bind key value p = ok (record p { node = record (p.node) { wire_bind = value } })
store wire_enabled key value p =
    checked key yes_no (parse_bool value)
      (λ b. record p { node = record (p.node) { wire_enabled = b } })
store api_key key value p = ok (record p { node = record (p.node) { api_key = value } })
store log_level key value p = ok (record p { node = record (p.node) { log_level = value } })
store capacity_mb key value p =
    checked key megabytes (parse_capacity value)
      (λ mb. record p { node = record (p.node) { capacity_mb = mb } })
store default_ttl key value p =
    checked key seconds (parse_ttl value)
      (λ ttl. record p { node = record (p.node) { default_ttl_secs = ttl } })
store tls_enabled key value p =
    checked key yes_no (parse_bool value)
      (λ b. record p { node = record (p.node) { tls_enabled = b } })
store tls_cert key value p = ok (record p { node = record (p.node) { tls_cert = value } })
store tls_key key value p = ok (record p { node = record (p.node) { tls_key = value } })
store other key value p = err (unknown_key key)

pub get-setting : (key : Text) (p : Profile) → get key p ≡ show (setting key) p
unfolding get setting show
get-setting key p = ground arith

pub set-setting :
    (key value : Text) (p : Profile) → set key value p ≡ store (setting key) key value p
unfolding set setting store
set-setting key value p = ground arith

some_inj : {a b : Text} → some a ≡ some b → a ≡ b
some_inj e = cc

pub parse_bool-show_bool : (b : Bool) → parse_bool (show_bool b) ≡ some b
unfolding parse_bool is_any trim trim_start trim_end is_whitespace to_ascii_lowercase
parse_bool-show_bool true = refl
parse_bool-show_bool false = refl

digits_not_auto :
    (t : Text)
    → ((c : ℕ) (cs : Text) → t ≡ c ∷ cs → IsDigit c)
    → bytes_eq (to_ascii_lowercase t) (text "auto") ≡ false
unfolding to_ascii_lowercase
digits_not_auto [] h = refl
digits_not_auto (c ∷ cs) h = let d = h c cs refl in ground (arith, d)

pub parse_capacity-show_capacity :
    (o : Option ℕ)
    → ((mb : ℕ) → o ≡ some mb → mb < 2 ^ 64)
    → parse_capacity (show_capacity o) ≡ some o
unfolding parse_capacity
parse_capacity-show_capacity none small = refl
parse_capacity-show_capacity (some mb) small =
    let named = digits_not_auto (show_u64 mb) (λ c cs. show_u64-head mb c cs) in
    rw (parse_capacity, trim-show_u64 mb, named, parse_u64-show_u64 mb (small mb refl)) refl

pub parse_ttl-show_u64 : (n : ℕ) → n < 2 ^ 64 → parse_ttl (show_u64 n) ≡ some n
unfolding parse_ttl
parse_ttl-show_u64 n small = rw (trim-show_u64 n) (parse_u64-show_u64 n small)

-- The numbers of the profile fit their machine words.
pub record IsStorable (p : Profile) : Type 0 where
  pub capacity : (mb : ℕ) → p.node.capacity_mb ≡ some mb → mb < 2 ^ 64
  pub ttl : p.node.default_ttl_secs < 2 ^ 64

store-show :
    (s : Setting) (key shown : Text) (p : Profile)
    → IsStorable p
    → show s p ≡ some shown
    → store s key shown p ≡ ok p
unfolding show store
store-show wire_enabled key shown p h e =
    rw (← some_inj e, parse_bool-show_bool p.node.wire_enabled) refl
store-show capacity_mb key shown p h e =
    rw (← some_inj e, parse_capacity-show_capacity p.node.capacity_mb h.capacity) refl
store-show default_ttl key shown p h e =
    rw (← some_inj e, parse_ttl-show_u64 p.node.default_ttl_secs h.ttl) refl
store-show tls_enabled key shown p h e =
    rw (← some_inj e, parse_bool-show_bool p.node.tls_enabled) refl
store-show other key shown p h e = cc
store-show _ key shown p h e = rw (← some_inj e) refl

-- Setting a key to the value that is shown for it leaves the profile as it is.
set-get :
    (key shown : Text) (p : Profile)
    → IsStorable p
    → get key p ≡ some shown
    → set key shown p ≡ ok p
set-get key shown p h e =
    set-setting key shown p ∙ store-show (setting key) key shown p h (sym (get-setting key p) ∙ e)

pub ok_inj : {p q : Profile} → ok p ≡ ok q → p ≡ q
ok_inj e = cc

pub set-log_level :
    (value : Text) (p : Profile)
    → set (text "log-level") value p
      ≡ ok (record p { node = record (p.node) { log_level = value } })
unfolding set is_any
set-log_level value p = refl
