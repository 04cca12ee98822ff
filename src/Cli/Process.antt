-- ===== src/Cli/Process.antt =====
-- `serve` (crates/falcon-cli/src/serve.rs) as the steps of its process: the body of `serve`, the
-- task of the wire listener, the task that waits for the signal, and the HTTP requests in flight.
-- A receiver of the broadcast channel sees what is sent after it subscribed. Reading addresses,
-- binding sockets and the TLS library are a parameter.
pub mod Starting
pub mod Stopping
mod Tests
use falcon_cache.Base.{ℕ, zero, suc, ◌+◌, ◌≡◌, Bool, true, false, Option, none, some, ◌⊎◌, inl, inr}
use falcon_cache.Base.Text.{Text}
use falcon_cache.Core.Config.{Config}
use falcon_cache.Core.Node.{Terminate, shutdown_signal}
use falcon_cache.Core.Tls.{IoError, TlsLibrary}
use falcon_cache.Core.Tls.Mode.{Mode, plain, secured, Listening}
use falcon_cache.Api.Server.{start_http}
use falcon_cache.Wire.Start.{start_wire}

-- The statement that `serve` is at.
pub data Point (Server : Type 0) : Type 0 where
  wiring marking watching binding subscribing starting : Point Server
  serving draining : Mode Server → Point Server
  clearing exited failed : Point Server

-- The task of the wire listener, with whether a shutdown message waits in its receiver.
pub data WireTask (Server : Type 0) : Type 0 where
  absent : WireTask Server
  spawned : Bool → WireTask Server
  listening : Mode Server → Bool → WireTask Server
  ended : WireTask Server

-- The task that waits for the signal.
pub data Watch : Type 0 where
  unwatched waiting sent : Watch

-- `http` is the receiver that stops the HTTP listener, once it is subscribed.
pub record Process (Server : Type 0) : Type 0 where
  pub at : Point Server
  pub ready : Bool
  pub watch : Watch
  pub wire : WireTask Server
  pub http : Option Bool
  pub in_flight : ℕ

-- `signal_tx.send(())`, to the receivers that are subscribed.
abbrev pub told_wire : {Server : Type 0} → WireTask Server → WireTask Server
told_wire absent = absent
told_wire (spawned told) = spawned true
told_wire (listening mode told) = listening mode true
told_wire ended = ended

abbrev pub told : Option Bool → Option Bool
told none = none
told (some message) = some true

-- The node is built, and not ready.
abbrev pub begun : {Server : Type 0} → Process Server
begun = record {
  at = Point.wiring;
  ready = false;
  watch = Watch.unwatched;
  wire = WireTask.absent;
  http = none;
  in_flight = 0;
}

-- `SocketAddr::from_str`, `TcpListener::bind` and the TLS library.
pub record Host (Server Socket Address : Type 0) : Type 0 where
  pub tls : TlsLibrary Server
  pub parse : Text → Option Address
  pub bind : Address → IoError ⊎ Socket

pub data Step {Server Socket Address : Type 0} (host : Host Server Socket Address) (config : Config)
    : Process Server → Process Server → Type 0 where
  wire_off :
      (s : Process Server)
      → s.at ≡ Point.wiring
      → config.wire.enabled ≡ false
      → Step host config s (record s { at = Point.marking })
  wire_spawned :
      (s : Process Server) (address : Address)
      → s.at ≡ Point.wiring
      → config.wire.enabled ≡ true
      → host.parse config.wire.bind ≡ some address
      → Step host config s (record s { at = Point.marking; wire = WireTask.spawned false })
  wire_unparsed :
      (s : Process Server)
      → s.at ≡ Point.wiring
      → config.wire.enabled ≡ true
      → host.parse config.wire.bind ≡ none
      → Step host config s (record s { at = Point.failed })
  marked :
      (s : Process Server)
      → s.at ≡ Point.marking
      → Step host config s (record s { at = Point.watching; ready = true })
  watched :
      (s : Process Server)
      → s.at ≡ Point.watching
      → Step host config s (record s { at = Point.binding; watch = Watch.waiting })
  http_parsed :
      (s : Process Server) (address : Address)
      → s.at ≡ Point.binding
      → host.parse config.http.bind ≡ some address
      → Step host config s (record s { at = Point.subscribing })
  http_unparsed :
      (s : Process Server)
      → s.at ≡ Point.binding
      → host.parse config.http.bind ≡ none
      → Step host config s (record s { at = Point.failed })
  subscribed :
      (s : Process Server)
      → s.at ≡ Point.subscribing
      → Step host config s (record s { at = Point.starting; http = some false })
  http_started :
      (s : Process Server) (address : Address) (l : Listening Server Socket)
      → s.at ≡ Point.starting
      → host.parse config.http.bind ≡ some address
      → start_http host.tls host.bind config.tls address ≡ inr l
      → Step host config s (record s { at = Point.serving l.mode })
  http_failed :
      (s : Process Server) (address : Address) (e : IoError)
      → s.at ≡ Point.starting
      → host.parse config.http.bind ≡ some address
      → start_http host.tls host.bind config.tls address ≡ inl e
      → Step host config s (record s { at = Point.failed })
  -- The listener stops accepting.
  http_shutdown :
      (s : Process Server) (mode : Mode Server)
      → s.at ≡ Point.serving mode
      → s.http ≡ some true
      → Step host config s (record s { at = Point.draining mode })
  -- `axum::serve` waits for the requests in flight.
  drained :
      (s : Process Server)
      → s.at ≡ Point.draining plain
      → s.in_flight ≡ 0
      → Step host config s (record s { at = Point.clearing })
  -- `serve_tls` breaks out of its loop.
  left :
      (s : Process Server) (server : Server)
      → s.at ≡ Point.draining (secured server)
      → Step host config s (record s { at = Point.clearing })
  cleared :
      (s : Process Server)
      → s.at ≡ Point.clearing
      → Step host config s (record s { at = Point.exited; ready = false })
  request_begun :
      (s : Process Server) (mode : Mode Server)
      → s.at ≡ Point.serving mode
      → Step host config s (record s { in_flight = s.in_flight + 1 })
  request_ended :
      (s : Process Server) (n : ℕ)
      → s.in_flight ≡ suc n
      → Step host config s (record s { in_flight = n })
  wire_started :
      (s : Process Server) (message : Bool) (address : Address) (l : Listening Server Socket)
      → s.wire ≡ WireTask.spawned message
      → host.parse config.wire.bind ≡ some address
      → start_wire host.tls host.bind config.tls address ≡ inr l
      → Step host config s (record s { wire = WireTask.listening l.mode message })
  -- The error is logged.
  wire_failed :
      (s : Process Server) (message : Bool) (address : Address) (e : IoError)
      → s.wire ≡ WireTask.spawned message
      → host.parse config.wire.bind ≡ some address
      → start_wire host.tls host.bind config.tls address ≡ inl e
      → Step host config s (record s { wire = WireTask.ended })
  -- Told to shut down, or by an accept that fails.
  wire_ended :
      (s : Process Server) (mode : Mode Server) (message : Bool)
      → s.wire ≡ WireTask.listening mode message
      → Step host config s (record s { wire = WireTask.ended })
  signalled :
      (s : Process Server) (ctrl_c : Bool) (terminate : Terminate)
      → s.watch ≡ Watch.waiting
      → shutdown_signal ctrl_c terminate ≡ true
      → Step host config s
          (record s { watch = Watch.sent; wire = told_wire s.wire; http = told s.http })

-- The steps of a run.
pub data Steps {Server Socket Address : Type 0} (host : Host Server Socket Address)
    (config : Config) (s : Process Server) : Process Server → Type 0 where
  stay : Steps host config s s
  next :
      {a b : Process Server} → Steps host config s a → Step host config a b → Steps host config s b
