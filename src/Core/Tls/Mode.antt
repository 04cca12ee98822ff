-- ===== src/Core/Tls/Mode.antt =====
-- What a listener speaks, by the TLS configuration that it loads.
use falcon_cache.Base.{◌≡◌, sym, ◌∙◌, true, false, Option, none, some, ◌⊎◌, inl, inr, Bool-cases}
use falcon_cache.Core.Config.{TlsConfig, tls_is_enabled}
use falcon_cache.Core.Tls.{
  IoError, TlsLibrary, load_server_config, IsIdentity, load_server_config-off,
  load_server_config-IsIdentity,
}

-- Plain connections, or those of a TLS server.
pub data Mode (Server : Type 0) : Type 0 where
  plain : Mode Server
  secured : Server → Mode Server

pub record Listening (Server Socket : Type 0) : Type 0 where
  pub socket : Socket
  pub mode : Mode Server

-- The `match` on the loaded configuration.
abbrev pub mode_of : {Server : Type 0} → Option Server → Mode Server
mode_of none = Mode.plain
mode_of (some server) = Mode.secured server

-- What may listen under a configuration: plain if and only if TLS is not enabled, and otherwise the
-- identity in the files.
abbrev pub IsConfigured : {Server : Type 0} → TlsLibrary Server → TlsConfig → Mode Server → Type 0
IsConfigured lib cfg Mode.plain = tls_is_enabled cfg ≡ false
IsConfigured lib cfg (Mode.secured server) = (tls_is_enabled cfg ≡ true) × IsIdentity lib cfg server

pub inr_inj : {A : Type 0} {x y : A} → ◌≡◌ {A = IoError ⊎ A} (inr x) (inr y) → x ≡ y
inr_inj e = cc

module _ {Server : Type 0} (lib : TlsLibrary Server) where
  pub mode_of-IsConfigured :
      (cfg : TlsConfig) (loaded : Option Server)
      → load_server_config lib cfg ≡ inr loaded
      → IsConfigured lib cfg (mode_of loaded)
  mode_of-IsConfigured cfg loaded h = elim (Bool-cases (tls_is_enabled cfg)) [
    | inl on ↦
        let (server, same, held) = load_server_config-IsIdentity lib cfg loaded on h in
        rw same (on, held)
    | inr off ↦
        let nothing : none ≡ loaded = inr_inj (sym (load_server_config-off lib cfg off) ∙ h) in
        rw (sym nothing) off
  ]
