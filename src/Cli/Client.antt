-- ===== src/Cli/Client.antt =====
-- The clients of a running node (crates/falcon-cli/src/client.rs): where they send a request, the
-- request, and what they make of the response.
use falcon_cache.Base.{
  ℕ, ◌≡◌, refl, Bool, false, ◌&&◌, ◌||◌, ◌==◌, Option, none, some, [], ◌∷◌, ◌++◌, if◌then◌else◌,
  Bool-cases, inl, inr, leb, All,
}
use falcon_cache.Base.Equality.{bytes_eq}
use falcon_cache.Base.Text.{Text, text, is_blank}
use falcon_cache.Core.Profile.{Profile, Outcome, ok, err, default_profile}
use falcon_cache.Core.Profile.File.{Disk, Permits, load_or_default}

-- `rsplit_once(':')`: what stands before and after the last colon, which is 58.
unfoldable pub rsplit_colon : Text → Option (Text × Text)
rsplit_colon [] = none
rsplit_colon (c ∷ cs) = elim (rsplit_colon cs) [
  | some (before, after) ↦ some (c ∷ before, after)
  | none ↦ if c == 58 then some ([], cs) else none
]

abbrev is_wildcard : Text → Bool
is_wildcard host = is_blank host || bytes_eq host (text "0.0.0.0") || bytes_eq host (text "[::]")

unfoldable pub host_port : Text → Text
unfolding rsplit_colon
host_port bind = elim (rsplit_colon bind) [
  | none ↦ bind
  | some (host, port) ↦ if is_wildcard host then text "127.0.0.1:" ++ port else bind
]

unfoldable pub dialable : Text → Text
unfolding host_port
dialable bind = text "http://" ++ host_port bind

pub record ClientArgs : Type 0 where
  pub addr : Option Text
  pub api_key : Option Text

pub record Target : Type 0 where
  pub addr : Text
  pub api_key : Option Text

abbrev or_given : Option Text → Text → Text
or_given none t = t
or_given (some a) t = a

-- `or_else(|| Some(key).filter(|k| !k.is_empty()))`
abbrev or_stored : Option Text → Text → Option Text
or_stored (some k) stored = some k
or_stored none stored = if is_blank stored then none else some stored

-- `unwrap_or_default`
abbrev or_fresh : Outcome Profile → Profile
or_fresh (ok p) = p
or_fresh (err e) = default_profile

abbrev target_of : Profile → ClientArgs → Target
target_of p c = record {
  addr = or_given c.addr (dialable p.node.http_bind);
  api_key = or_stored c.api_key p.node.api_key;
}

-- `Target::resolve`
unfoldable pub resolve_target : (Text → Option Profile) → Permits → Disk → ClientArgs → Target
resolve_target from_str permits d c = target_of (or_fresh (load_or_default from_str permits d)) c

pub data Method : Type 0 where
  fetch post delete : Method

-- A request of a client; `bearer` is the token of its `Authorization` header.
pub record Sent (B : Type 0) : Type 0 where
  pub method : Method
  pub url : Text
  pub bearer : Option Text
  pub body : Option B

pub record KeyArgs : Type 0 where
  pub key : Text
  pub client : ClientArgs

pub record PutArgs : Type 0 where
  pub key : Text
  pub value : Option Text
  pub ttl : Option ℕ
  pub client : ClientArgs

-- The body of a `put`: the fields of its JSON object.
pub record PutBody : Type 0 where
  pub key : Text
  pub value : Text
  pub ttl : Option ℕ

abbrev cache_root : Text
cache_root = text "/cache"

abbrev key_url : Target → Text → Text
key_url t key = t.addr ++ cache_root ++ text "?key=" ++ key

abbrev pub get_request : Target → Text → Sent PutBody
get_request t key = record { method = fetch; url = key_url t key; bearer = t.api_key; body = none }

abbrev pub del_request : Target → Text → Sent PutBody
del_request t key = record { method = delete; url = key_url t key; bearer = t.api_key; body = none }

-- `value_or_stdin`; `none` is an error.
abbrev pub value_or_stdin : Option Text → Option Text → Option Text
value_or_stdin none stdin = stdin
value_or_stdin (some v) stdin = some v

abbrev pub put_request : Target → PutArgs → Text → Sent PutBody
put_request t a value = record {
  method = post;
  url = t.addr ++ cache_root;
  bearer = t.api_key;
  body = some (record { key = a.key; value = value; ttl = a.ttl });
}

abbrev pub health_request : Target → Sent PutBody
health_request t = record {
  method = fetch;
  url = t.addr ++ text "/healthz";
  bearer = t.api_key;
  body = none;
}

-- How a command ends: the line that it prints, or an error.
pub data Ending : Type 0 where
  printed : Text → Ending
  key_not_found : Ending
  failed : Ending

-- `error_for_status`: a status of 400 to 599 is an error.
abbrev pub is_error_status : ℕ → Bool
is_error_status status = leb 400 status && leb status 599

-- What `get` makes of a status and the text at "value" of the body, if the body is JSON.
unfoldable pub get_ending : ℕ → Option (Option Text) → Ending
get_ending status body =
    if status == 404
    then key_not_found
    else if is_error_status status
    then failed
    else elim body [ none ↦ failed | some none ↦ printed [] | some (some v) ↦ printed v ]

-- What `put` and `del` make of a status.
abbrev pub ok_ending : ℕ → Ending
ok_ending status = if is_error_status status then failed else printed (text "OK")

abbrev IsColonless : ℕ → Type 0
IsColonless c = (c == 58) ≡ false

rsplit_colon-none : (t : Text) → All IsColonless t → rsplit_colon t ≡ none
unfolding rsplit_colon
rsplit_colon-none [] h = refl
rsplit_colon-none (c ∷ cs) h = rw (rsplit_colon, rsplit_colon-none cs h.1, h.0) refl

rsplit_colon-append :
    (host port : Text)
    → All IsColonless port
    → rsplit_colon (host ++ (58 ∷ port)) ≡ some (host, port)
unfolding rsplit_colon
rsplit_colon-append [] port h = rw (rsplit_colon, rsplit_colon-none port h) refl
rsplit_colon-append (c ∷ host) port h = rw (rsplit_colon, rsplit_colon-append host port h) refl

-- A client dials the port that the node listens on, at the host that it listens on, or at the
-- loopback address where that host stands for every interface.
dialable-append :
    (host port : Text)
    → All IsColonless port
    → dialable (host ++ (58 ∷ port))
      ≡ text "http://" ++ (if is_wildcard host then text "127.0.0.1" else host) ++ (58 ∷ port)
unfolding dialable host_port
dialable-append host port h = elim (Bool-cases (is_wildcard host)) [
  | inl w ↦ rw (host_port, rsplit_colon-append host port h, w) refl
  | inr w ↦ rw (host_port, rsplit_colon-append host port h, w) refl
]
