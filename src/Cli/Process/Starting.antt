-- ===== src/Cli/Process/Starting.antt =====
-- What holds at every point of `serve`, whatever happens beside it.
use falcon_cache.Base.{
  ℕ, suc, ◌≡◌, refl, ap, Bool, true, false, Option, none, some, ◌⊎◌, inl, inr, arith,
}
use falcon_cache.Core.Config.{Config, TlsConfig, tls_is_enabled}
use falcon_cache.Core.Tls.{TlsLibrary}
use falcon_cache.Core.Tls.Mode.{Mode, IsConfigured}
use falcon_cache.Api.Server.{start_http-IsConfigured}
use falcon_cache.Wire.Start.{start_wire-IsConfigured}
use falcon_cache.Cli.Process.{
  Point, wiring, marking, watching, binding, subscribing, starting, serving, draining, clearing,
  exited, failed, WireTask, absent, spawned, listening, ended, Watch, sent, Process, begun, Host,
  Step, wire_off, wire_spawned, wire_unparsed, marked, watched, http_parsed, http_unparsed,
  subscribed, http_started, http_failed, http_shutdown, drained, left, cleared, request_begun,
  request_ended, wire_started, wire_failed, wire_ended, signalled, Steps, stay, next, told,
  told_wire,
}

-- The node is ready from `set_ready(true)` to `set_ready(false)`.
abbrev ReadyAt : {Server : Type 0} → Point Server → Bool → Type 0
ReadyAt wiring ready = ready ≡ false
ReadyAt marking ready = ready ≡ false
ReadyAt watching ready = ready ≡ true
ReadyAt binding ready = ready ≡ true
ReadyAt subscribing ready = ready ≡ true
ReadyAt starting ready = ready ≡ true
ReadyAt (serving mode) ready = ready ≡ true
ReadyAt (draining mode) ready = ready ≡ true
ReadyAt clearing ready = ready ≡ true
ReadyAt exited ready = ready ≡ false
ReadyAt failed ready = Unit

abbrev SubscribedAt : {Server : Type 0} → Point Server → Option Bool → Type 0
SubscribedAt wiring http = http ≡ none
SubscribedAt marking http = http ≡ none
SubscribedAt watching http = http ≡ none
SubscribedAt binding http = http ≡ none
SubscribedAt subscribing http = http ≡ none
SubscribedAt starting http = (message : Bool) × (http ≡ some message)
SubscribedAt (serving mode) http = (message : Bool) × (http ≡ some message)
SubscribedAt (draining mode) http = http ≡ some true
SubscribedAt clearing http = http ≡ some true
SubscribedAt exited http = http ≡ some true
SubscribedAt failed http = Unit

-- Without TLS, what is left of `serve` once it has drained.
abbrev QuietAt : {Server : Type 0} → Point Server → ℕ → Type 0
QuietAt clearing n = n ≡ 0
QuietAt exited n = n ≡ 0
QuietAt _ n = Unit

abbrev ModeAt : {Server : Type 0} → TlsLibrary Server → TlsConfig → Point Server → Type 0
ModeAt lib cfg (serving mode) = IsConfigured lib cfg mode
ModeAt lib cfg (draining mode) = IsConfigured lib cfg mode
ModeAt lib cfg _ = Unit

abbrev WireAt : {Server : Type 0} → TlsLibrary Server → Config → WireTask Server → Type 0
WireAt lib config absent = Unit
WireAt lib config (spawned message) = config.wire.enabled ≡ true
WireAt lib config (listening mode message) =
    (config.wire.enabled ≡ true) × IsConfigured lib config.tls mode
WireAt lib config ended = config.wire.enabled ≡ true

module _ {Server Socket Address : Type 0} (host : Host Server Socket Address)
    (config : Config) where
  pub record IsOrderly (s : Process Server) : Type 0 where
    pub ready_at : ReadyAt s.at s.ready
    pub subscribed_at : SubscribedAt s.at s.http
    pub mode_at : ModeAt host.tls config.tls s.at
    pub wire_at : WireAt host.tls config s.wire
    pub quiet_at : tls_is_enabled config.tls ≡ false → QuietAt s.at s.in_flight
    pub told_by : s.http ≡ some true → s.watch ≡ sent

  begun-IsOrderly : IsOrderly begun
  begun-IsOrderly = record {
    ready_at = refl;
    subscribed_at = refl;
    mode_at = tt;
    wire_at = tt;
    quiet_at = λ off. tt;
    told_by = λ h. cc;
  }

  told-SubscribedAt :
      (p : Point Server) (http : Option Bool) → SubscribedAt p http → SubscribedAt p (told http)
  told-SubscribedAt wiring http h = ap told h
  told-SubscribedAt marking http h = ap told h
  told-SubscribedAt watching http h = ap told h
  told-SubscribedAt binding http h = ap told h
  told-SubscribedAt subscribing http h = ap told h
  told-SubscribedAt starting http (message, h) = (true, ap told h)
  told-SubscribedAt (serving mode) http (message, h) = (true, ap told h)
  told-SubscribedAt (draining mode) http h = ap told h
  told-SubscribedAt clearing http h = ap told h
  told-SubscribedAt exited http h = ap told h
  told-SubscribedAt failed http h = tt

  told_wire-WireAt :
      (wire : WireTask Server)
      → WireAt host.tls config wire
      → WireAt host.tls config (told_wire wire)
  told_wire-WireAt absent h = h
  told_wire-WireAt (spawned message) h = h
  told_wire-WireAt (listening mode message) h = h
  told_wire-WireAt ended h = h

  QuietAt-less : (p : Point Server) (m n : ℕ) → m ≡ suc n → QuietAt p m → QuietAt p n
  QuietAt-less clearing m n e h = absurd (omega (arith, e, h))
  QuietAt-less exited m n e h = absurd (omega (arith, e, h))
  QuietAt-less _ m n e h = tt

  Step-IsOrderly : {a b : Process Server} → Step host config a b → IsOrderly a → IsOrderly b
  Step-IsOrderly (wire_off s at off) h = record {
    ready_at = rw at at h.ready_at;
    subscribed_at = rw at at h.subscribed_at;
    mode_at = tt;
    wire_at = h.wire_at;
    quiet_at = λ off. tt;
    told_by = h.told_by;
  }
  Step-IsOrderly (wire_spawned s address at on parsed) h = record {
    ready_at = rw at at h.ready_at;
    subscribed_at = rw at at h.subscribed_at;
    mode_at = tt;
    wire_at = on;
    quiet_at = λ off. tt;
    told_by = h.told_by;
  }
  Step-IsOrderly (wire_unparsed s at on unparsed) h = record {
    ready_at = tt;
    subscribed_at = tt;
    mode_at = tt;
    wire_at = h.wire_at;
    quiet_at = λ off. tt;
    told_by = h.told_by;
  }
  Step-IsOrderly (marked s at) h = record {
    ready_at = refl;
    subscribed_at = rw at at h.subscribed_at;
    mode_at = tt;
    wire_at = h.wire_at;
    quiet_at = λ off. tt;
    told_by = h.told_by;
  }
  Step-IsOrderly (watched s at) h = record {
    ready_at = rw at at h.ready_at;
    subscribed_at = rw at at h.subscribed_at;
    mode_at = tt;
    wire_at = h.wire_at;
    quiet_at = λ off. tt;
    told_by = λ e. (let early = rw at at h.subscribed_at in cc);
  }
  Step-IsOrderly (http_parsed s address at parsed) h = record {
    ready_at = rw at at h.ready_at;
    subscribed_at = rw at at h.subscribed_at;
    mode_at = tt;
    wire_at = h.wire_at;
    quiet_at = λ off. tt;
    told_by = h.told_by;
  }
  Step-IsOrderly (http_unparsed s at unparsed) h = record {
    ready_at = tt;
    subscribed_at = tt;
    mode_at = tt;
    wire_at = h.wire_at;
    quiet_at = λ off. tt;
    told_by = h.told_by;
  }
  Step-IsOrderly (subscribed s at) h = record {
    ready_at = rw at at h.ready_at;
    subscribed_at = (false, refl);
    mode_at = tt;
    wire_at = h.wire_at;
    quiet_at = λ off. tt;
    told_by = λ e. cc;
  }
  Step-IsOrderly (http_started s address l at parsed started) h = record {
    ready_at = rw at at h.ready_at;
    subscribed_at = rw at at h.subscribed_at;
    mode_at = start_http-IsConfigured host.tls host.bind config.tls address l started;
    wire_at = h.wire_at;
    quiet_at = λ off. tt;
    told_by = h.told_by;
  }
  Step-IsOrderly (http_failed s address e at parsed refused) h = record {
    ready_at = tt;
    subscribed_at = tt;
    mode_at = tt;
    wire_at = h.wire_at;
    quiet_at = λ off. tt;
    told_by = h.told_by;
  }
  Step-IsOrderly (http_shutdown s mode at message) h = record {
    ready_at = rw at at h.ready_at;
    subscribed_at = message;
    mode_at = rw at at h.mode_at;
    wire_at = h.wire_at;
    quiet_at = λ off. tt;
    told_by = h.told_by;
  }
  Step-IsOrderly (drained s at quiet) h = record {
    ready_at = rw at at h.ready_at;
    subscribed_at = rw at at h.subscribed_at;
    mode_at = tt;
    wire_at = h.wire_at;
    quiet_at = λ off. quiet;
    told_by = h.told_by;
  }
  Step-IsOrderly (left s server at) h = record {
    ready_at = rw at at h.ready_at;
    subscribed_at = rw at at h.subscribed_at;
    mode_at = tt;
    wire_at = h.wire_at;
    quiet_at = λ off. (let on = (rw at at h.mode_at).0 in cc);
    told_by = h.told_by;
  }
  Step-IsOrderly (cleared s at) h = record {
    ready_at = refl;
    subscribed_at = rw at at h.subscribed_at;
    mode_at = tt;
    wire_at = h.wire_at;
    quiet_at = λ off. rw at at (h.quiet_at off);
    told_by = h.told_by;
  }
  Step-IsOrderly (request_begun s mode at) h = record {
    ready_at = h.ready_at;
    subscribed_at = h.subscribed_at;
    mode_at = h.mode_at;
    wire_at = h.wire_at;
    quiet_at = λ off. rw at tt;
    told_by = h.told_by;
  }
  Step-IsOrderly (request_ended s n some_left) h = record {
    ready_at = h.ready_at;
    subscribed_at = h.subscribed_at;
    mode_at = h.mode_at;
    wire_at = h.wire_at;
    quiet_at = λ off. QuietAt-less s.at s.in_flight n some_left (h.quiet_at off);
    told_by = h.told_by;
  }
  Step-IsOrderly (wire_started s message address l at parsed started) h = record {
    ready_at = h.ready_at;
    subscribed_at = h.subscribed_at;
    mode_at = h.mode_at;
    wire_at = (
      rw at at h.wire_at,
      start_wire-IsConfigured host.tls host.bind config.tls address l started,
    );
    quiet_at = h.quiet_at;
    told_by = h.told_by;
  }
  Step-IsOrderly (wire_failed s message address e at parsed refused) h = record {
    ready_at = h.ready_at;
    subscribed_at = h.subscribed_at;
    mode_at = h.mode_at;
    wire_at = rw at at h.wire_at;
    quiet_at = h.quiet_at;
    told_by = h.told_by;
  }
  Step-IsOrderly (wire_ended s mode message at) h = record {
    ready_at = h.ready_at;
    subscribed_at = h.subscribed_at;
    mode_at = h.mode_at;
    wire_at = (rw at at h.wire_at).0;
    quiet_at = h.quiet_at;
    told_by = h.told_by;
  }
  Step-IsOrderly (signalled s ctrl_c terminate at resolved) h = record {
    ready_at = h.ready_at;
    subscribed_at = told-SubscribedAt s.at s.http h.subscribed_at;
    mode_at = h.mode_at;
    wire_at = told_wire-WireAt s.wire h.wire_at;
    quiet_at = h.quiet_at;
    told_by = λ e. refl;
  }

  pub Steps-IsOrderly : {s : Process Server} → Steps host config begun s → IsOrderly s
  Steps-IsOrderly stay = begun-IsOrderly
  Steps-IsOrderly (next run step) = Step-IsOrderly step (Steps-IsOrderly run)

  -- Whatever happens beside it: while `serve` serves HTTP or drains it, the node is ready and the
  -- HTTP listener speaks what the configuration says, plain only where TLS is not enabled and
  -- otherwise as the identity in the configured files; and the wire listener exists only where it
  -- is enabled, and speaks what the configuration says too.
  pub Steps-IsConfigured :
      (s : Process Server) (mode : Mode Server)
      → Steps host config begun s
      → ((s.at ≡ Point.serving mode) ⊎ (s.at ≡ Point.draining mode)
          → (s.ready ≡ true) × IsConfigured host.tls config.tls mode)
        × ((message : Bool)
            → s.wire ≡ WireTask.listening mode message
            → (config.wire.enabled ≡ true) × IsConfigured host.tls config.tls mode)
  Steps-IsConfigured s mode run =
      let h = Steps-IsOrderly run in
      (
        elim [
          | inl at ↦ (rw at at h.ready_at, rw at at h.mode_at)
          | inr at ↦ (rw at at h.ready_at, rw at at h.mode_at)
        ],
        λ message at. rw at at h.wire_at,
      )

  -- `serve` returns without an error only after the shutdown signal, and then the node is not ready
  -- any more; without TLS no request is in flight by then.
  pub Steps-exited :
      (s : Process Server)
      → Steps host config begun s
      → s.at ≡ Point.exited
      → (s.ready ≡ false)
        × (s.watch ≡ Watch.sent)
        × (tls_is_enabled config.tls ≡ false → s.in_flight ≡ 0)
  Steps-exited s run at =
      let h = Steps-IsOrderly run in
      (rw at at h.ready_at, h.told_by (rw at at h.subscribed_at), λ off. rw at at (h.quiet_at off))
