-- ===== src/Api/Server.antt =====
-- How the HTTP listener starts (crates/falcon-api/src/server.rs). Binding a socket is a parameter.
use falcon_cache.Base.{ℕ, suc, ◌+◌, refl, ◌∙◌, Bool, true, false, ◌≡◌, sym, ap, ◌⊎◌, inl, inr}
use falcon_cache.Core.Config.{TlsConfig}
use falcon_cache.Core.Tls.{IoError, TlsLibrary, and_then, result_cases, load_server_config}
use falcon_cache.Core.Tls.Mode.{
  Mode, mode_of, Listening, IsConfigured, inr_inj, mode_of-IsConfigured,
}

module _ {Server Socket Address : Type 0} (lib : TlsLibrary Server)
    (bind : Address → IoError ⊎ Socket) where
  -- `serve_with_shutdown` up to the loop: first the certificates, then the socket.
  unfoldable pub start_http : TlsConfig → Address → IoError ⊎ Listening Server Socket
  start_http cfg address =
      and_then
        (λ tls.
          and_then (λ socket. inr (record { socket = socket; mode = mode_of tls })) (bind address))
        (load_server_config lib cfg)

  -- `serve`
  unfoldable pub start_plain : Address → IoError ⊎ Listening Server Socket
  start_plain address =
      and_then (λ socket. inr (record { socket = socket; mode = Mode.plain })) (bind address)

module _ {Server Socket Address : Type 0} (lib : TlsLibrary Server)
    (bind : Address → IoError ⊎ Socket) where
  -- The HTTP listener that starts speaks what the configuration says.
  pub start_http-IsConfigured :
      (cfg : TlsConfig) (address : Address) (l : Listening Server Socket)
      → start_http lib bind cfg address ≡ inr l
      → IsConfigured lib cfg l.mode
  unfolding start_http
  start_http-IsConfigured cfg address l h = elim (result_cases (load_server_config lib cfg)) [
    | inl (e, failed) ↦ let h' = rw (start_http, failed) at h in cc
    | inr (loaded, ran) ↦ elim (result_cases (bind address)) [
      | inl (e, failed) ↦ let h' = rw (start_http, ran, failed) at h in cc
      | inr (socket, bound) ↦
          let h' = rw (start_http, ran, bound) at h in
          let same : mode_of loaded ≡ l.mode =
            ap (λ (x : Listening Server Socket). x.mode) (inr_inj h') in
          rw (sym same) (mode_of-IsConfigured lib cfg loaded ran)
    ]
  ]

-- The loop of `serve_tls`: whether it still accepts, and the connections that it has spawned.
pub record TlsLoop : Type 0 where
  pub accepting : Bool
  pub live : ℕ

-- One event of it. A connection ends by itself or by a handshake that fails.
pub data TlsEvent : TlsLoop → TlsLoop → Type 0 where
  connected : (l : TlsLoop) → l.accepting ≡ true → TlsEvent l (record l { live = l.live + 1 })
  accept_failed : (l : TlsLoop) → l.accepting ≡ true → TlsEvent l l
  disconnected : (l : TlsLoop) (n : ℕ) → l.live ≡ suc n → TlsEvent l (record l { live = n })
  broken : (l : TlsLoop) → l.accepting ≡ true → TlsEvent l (record l { accepting = false })

absurd_stop : {A : Type 0} → true ≡ false → A
absurd_stop e = cc

-- The loop stops accepting with whatever connections are live then: it waits for none of them.
pub TlsEvent-stops :
    {a b : TlsLoop} → TlsEvent a b → a.accepting ≡ true → b.accepting ≡ false → b.live ≡ a.live
TlsEvent-stops (connected l on) before after = absurd_stop (sym before ∙ after)
TlsEvent-stops (accept_failed l on) before after = refl
TlsEvent-stops (disconnected l n e) before after = absurd_stop (sym before ∙ after)
TlsEvent-stops (broken l on) before after = refl
