-- ===== src/Core/Tls.antt =====
-- The TLS configuration of every listener (crates/falcon-core/src/tls.rs). Reading a file, and the
-- PEM and TLS libraries, are a parameter. `inl` is an error and `inr` what was returned.
pub mod Mode
use falcon_cache.Base.{
  ℕ, ◌≡◌, ◌≢◌, refl, sym, ap, ◌∙◌, ◌↔◌, Bool, true, false, Option, none, some, List, [], ◌∷◌, ◌++◌,
  ◌⊎◌, inl, inr, if◌then◌else◌, Bool-cases,
}
use falcon_cache.Base.Text.{Text, text}
use falcon_cache.Storage.Shard.{Bytes}
use falcon_cache.Core.Config.{TlsConfig, tls_is_enabled}

-- The kinds of `io::Error` that the loader makes, and those that it passes on.
pub data ErrorKind : Type 0 where
  invalid_data : ErrorKind
  system : ℕ → ErrorKind

pub record IoError : Type 0 where
  pub kind : ErrorKind
  pub message : Text

-- `std::fs::read`, `rustls_pemfile::certs` and `private_key`, and `with_single_cert`.
pub record TlsLibrary (Server : Type 0) : Type 0 where
  pub read : Text → IoError ⊎ Bytes
  pub certs : Bytes → IoError ⊎ List Bytes
  pub private_key : Bytes → IoError ⊎ Option Bytes
  pub with_single_cert : List Bytes → Bytes → Text ⊎ Server

-- `?`
abbrev pub and_then {ℓ} : {A B : Type ℓ} {E : Type 0} → (A → E ⊎ B) → E ⊎ A → E ⊎ B
and_then f (inl e) = inl e
and_then f (inr a) = f a

pub result_cases {ℓ} :
    {A : Type ℓ} {E : Type 0} (r : E ⊎ A) → ((e : E) × (r ≡ inl e)) ⊎ ((a : A) × (r ≡ inr a))
result_cases (inl e) = inl (e, refl)
result_cases (inr a) = inr (a, refl)

-- `reading TLS {what} '{path}': {e}`
abbrev unread : Text → Text → IoError → IoError
unread what path e = record e {
  message = text "reading TLS " ++ (what ++ (text " '" ++ (path ++ (text "': " ++ e.message))));
}

-- `no {what} found in '{path}'`
abbrev missing : Text → Text → IoError
missing what path = record {
  kind = ErrorKind.invalid_data;
  message = text "no " ++ (what ++ (text " found in '" ++ (path ++ text "'")));
}

abbrev read_pem : Text → Text → IoError ⊎ Bytes → IoError ⊎ Bytes
read_pem what path (inl e) = inl (unread what path e)
read_pem what path (inr data_read) = inr data_read

abbrev some_certs : Text → List Bytes → IoError ⊎ List Bytes
some_certs path [] = inl (missing (text "certificates") path)
some_certs path (cert ∷ more) = inr (cert ∷ more)

abbrev some_key : Text → Option Bytes → IoError ⊎ Bytes
some_key path none = inl (missing (text "private key") path)
some_key path (some key) = inr key

module _ {Server : Type 0} (lib : TlsLibrary Server) where
  unfoldable pub load_certs : Text → IoError ⊎ List Bytes
  load_certs path =
      and_then (some_certs path) (and_then lib.certs (read_pem (text "cert") path (lib.read path)))

  unfoldable pub load_key : Text → IoError ⊎ Bytes
  load_key path =
      and_then (some_key path)
        (and_then lib.private_key (read_pem (text "key") path (lib.read path)))

  -- `map_err` of `with_single_cert`, and `Ok(Some(..))`.
  abbrev configured : Text ⊎ Server → IoError ⊎ Option Server
  configured (inl e) = inl (record { kind = ErrorKind.invalid_data; message = e })
  configured (inr server) = inr (some server)

  unfoldable pub load_server_config : TlsConfig → IoError ⊎ Option Server
  unfolding load_certs load_key
  load_server_config cfg =
      if tls_is_enabled cfg
      then and_then
          (λ certs.
            and_then (λ key. configured (lib.with_single_cert certs key)) (load_key cfg.key_file))
          (load_certs cfg.cert_file)
      else inr none

  -- The certificates and the key that the configured files hold, and what the library makes of
  -- them.
  pub record IsIdentity (cfg : TlsConfig) (server : Server) : Type 0 where
    pub cert_bytes : Bytes
    pub key_bytes : Bytes
    pub cert_list : List Bytes
    pub key : Bytes
    pub cert_read : lib.read cfg.cert_file ≡ inr cert_bytes
    pub key_read : lib.read cfg.key_file ≡ inr key_bytes
    pub certs_parsed : lib.certs cert_bytes ≡ inr cert_list
    pub certs_held : cert_list ≢ []
    pub key_parsed : lib.private_key key_bytes ≡ inr (some key)
    pub built : lib.with_single_cert cert_list key ≡ inr server

  load_certs-read :
      (path : Text) (certs : List Bytes)
      → load_certs path ≡ inr certs
      → (bytes : Bytes) × (lib.read path ≡ inr bytes) × (lib.certs bytes ≡ inr certs) × (certs ≢ [])
  unfolding load_certs
  load_certs-read path certs h = elim (result_cases (lib.read path)) [
    | inl (e, failed) ↦ let h' = rw (load_certs, failed) at h in cc
    | inr (bytes, found) ↦ elim (result_cases (lib.certs bytes)) [
      | inl (e, failed) ↦ let h' = rw (load_certs, found, failed) at h in cc
      | inr ([], parsed) ↦ let h' = rw (load_certs, found, parsed) at h in cc
      | inr (cert ∷ more, parsed) ↦
          let h' = rw (load_certs, found, parsed) at h in
          let same : cert ∷ more ≡ certs = cc in
          (bytes, found, parsed ∙ ap inr same, λ nothing. (let clash = same ∙ nothing in cc))
    ]
  ]

  load_key-read :
      (path : Text) (key : Bytes)
      → load_key path ≡ inr key
      → (bytes : Bytes) × (lib.read path ≡ inr bytes) × (lib.private_key bytes ≡ inr (some key))
  unfolding load_key
  load_key-read path key h = elim (result_cases (lib.read path)) [
    | inl (e, failed) ↦ let h' = rw (load_key, failed) at h in cc
    | inr (bytes, found) ↦ elim (result_cases (lib.private_key bytes)) [
      | inl (e, failed) ↦ let h' = rw (load_key, found, failed) at h in cc
      | inr (none, parsed) ↦ let h' = rw (load_key, found, parsed) at h in cc
      | inr (some k, parsed) ↦
          let h' = rw (load_key, found, parsed) at h in
          let same : k ≡ key = cc in (bytes, found, parsed ∙ ap (λ x. inr (some x)) same)
    ]
  ]

  -- Without TLS there is nothing to load and nothing can fail.
  pub load_server_config-off :
      (cfg : TlsConfig) → tls_is_enabled cfg ≡ false → load_server_config cfg ≡ inr none
  unfolding load_server_config
  load_server_config-off cfg off = rw (load_server_config, off) refl

  -- A configuration that was loaded with TLS enabled is never plain: it is a server with the
  -- identity in the configured files, whose certificates are not none.
  pub load_server_config-IsIdentity :
      (cfg : TlsConfig) (loaded : Option Server)
      → tls_is_enabled cfg ≡ true
      → load_server_config cfg ≡ inr loaded
      → (server : Server) × (loaded ≡ some server) × IsIdentity cfg server
  unfolding load_server_config
  load_server_config-IsIdentity cfg loaded on h = elim (result_cases (load_certs cfg.cert_file)) [
    | inl (e, failed) ↦ let h' = rw (load_server_config, on, failed) at h in cc
    | inr (certs, cert_loaded) ↦ elim (result_cases (load_key cfg.key_file)) [
      | inl (e, failed) ↦ let h' = rw (load_server_config, on, cert_loaded, failed) at h in cc
      | inr (key, key_loaded) ↦ elim (result_cases (lib.with_single_cert certs key)) [
        | inl (e, refused) ↦
            let h' = rw (load_server_config, on, cert_loaded, key_loaded, refused) at h in cc
        | inr (server, made) ↦
            let h' = rw (load_server_config, on, cert_loaded, key_loaded, made) at h in
            let (cert_bytes, a, b, c) = load_certs-read cfg.cert_file certs cert_loaded in
            let (key_bytes, d, e) = load_key-read cfg.key_file key key_loaded in
            (
              server,
              cc,
              record {
                cert_bytes = cert_bytes;
                key_bytes = key_bytes;
                cert_list = certs;
                key = key;
                cert_read = a;
                key_read = d;
                certs_parsed = b;
                certs_held = c;
                key_parsed = e;
                built = made;
              },
            )
      ]
    ]
  ]
