-- ===== src/Wire/Start.antt =====
-- How the wire listener starts (crates/falcon-wire/src/lib.rs). Binding a socket is a parameter.
use falcon_cache.Base.{◌≡◌, sym, ap, ◌⊎◌, inl, inr}
use falcon_cache.Core.Config.{TlsConfig}
use falcon_cache.Core.Tls.{IoError, TlsLibrary, and_then, result_cases, load_server_config}
use falcon_cache.Core.Tls.Mode.{
  Mode, mode_of, Listening, IsConfigured, inr_inj, mode_of-IsConfigured,
}

module _ {Server Socket Address : Type 0} (lib : TlsLibrary Server)
    (bind : Address → IoError ⊎ Socket) where
  -- `serve_with_shutdown` up to the loop: first the socket, then the certificates.
  unfoldable pub start_wire : TlsConfig → Address → IoError ⊎ Listening Server Socket
  start_wire cfg address =
      and_then
        (λ socket.
          and_then (λ tls. inr (record { socket = socket; mode = mode_of tls }))
            (load_server_config lib cfg))
        (bind address)

  -- `serve`, with the listener of `serve_with_listener`, which never loads a TLS configuration.
  unfoldable pub start_wire_plain : Address → IoError ⊎ Listening Server Socket
  start_wire_plain address =
      and_then (λ socket. inr (record { socket = socket; mode = Mode.plain })) (bind address)

  -- The wire listener that starts speaks what the configuration says.
  pub start_wire-IsConfigured :
      (cfg : TlsConfig) (address : Address) (l : Listening Server Socket)
      → start_wire cfg address ≡ inr l
      → IsConfigured lib cfg l.mode
  unfolding start_wire
  start_wire-IsConfigured cfg address l h = elim (result_cases (bind address)) [
    | inl (e, failed) ↦ let h' = rw (start_wire, failed) at h in cc
    | inr (socket, bound) ↦ elim (result_cases (load_server_config lib cfg)) [
      | inl (e, failed) ↦ let h' = rw (start_wire, bound, failed) at h in cc
      | inr (loaded, ran) ↦
          let h' = rw (start_wire, bound, ran) at h in
          let same : mode_of loaded ≡ l.mode =
            ap (λ (x : Listening Server Socket). x.mode) (inr_inj h') in
          rw (sym same) (mode_of-IsConfigured lib cfg loaded ran)
    ]
  ]
