-- ===== src/Cli/Process/Stopping.antt =====
-- How `serve` comes to its end, and the signal that it can miss.
use falcon_cache.Base.{
  ℕ, zero, suc, ◌≡◌, ◌≢◌, refl, sym, ap, ◌∙◌, Bool, true, false, Option, none, some,
}
use falcon_cache.Core.Config.{Config}
use falcon_cache.Core.Node.{received}
use falcon_cache.Core.Tls.Mode.{Mode, plain, secured}
use falcon_cache.Cli.Process.{
  Point, wiring, marking, watching, binding, subscribing, starting, serving, draining, clearing,
  exited, failed, Watch, sent, Process, begun, Host, Step, wire_off, wire_spawned, wire_unparsed,
  marked, watched, http_parsed, http_unparsed, subscribed, http_started, http_failed, http_shutdown,
  drained, left, cleared, request_begun, request_ended, wire_started, wire_failed, wire_ended,
  signalled, Steps, stay, next, told, told_wire,
}
use falcon_cache.Core.Node.{shutdown_signal}
use falcon_cache.Cli.Process.Starting.{Steps-IsOrderly}

-- The signal has been sent, and the HTTP listener has no message of it.
abbrev LostAt : {Server : Type 0} → Point Server → Option Bool → Type 0
LostAt wiring http = ⊥
LostAt marking http = ⊥
LostAt watching http = ⊥
LostAt binding http = http ≡ none
LostAt subscribing http = http ≡ none
LostAt starting http = http ≡ some false
LostAt (serving mode) http = http ≡ some false
LostAt (draining mode) http = ⊥
LostAt clearing http = ⊥
LostAt exited http = ⊥
LostAt failed http = Unit

resolved : shutdown_signal false received ≡ true
unfolding shutdown_signal
resolved = refl

module _ {Server Socket Address : Type 0} (host : Host Server Socket Address)
    (config : Config) where
  IsLost : Process Server → Type 0
  IsLost s = (s.watch ≡ sent) × LostAt s.at s.http

  Step-IsLost : {a b : Process Server} → Step host config a b → IsLost a → IsLost b
  unfolding IsLost
  Step-IsLost (wire_off s at off) (w, h) = absurd (rw at at h)
  Step-IsLost (wire_spawned s address at on parsed) (w, h) = absurd (rw at at h)
  Step-IsLost (wire_unparsed s at on unparsed) (w, h) = (w, tt)
  Step-IsLost (marked s at) (w, h) = absurd (rw at at h)
  Step-IsLost (watched s at) (w, h) = absurd (rw at at h)
  Step-IsLost (http_parsed s address at parsed) (w, h) = (w, rw at at h)
  Step-IsLost (http_unparsed s at unparsed) (w, h) = (w, tt)
  Step-IsLost (subscribed s at) (w, h) = (w, refl)
  Step-IsLost (http_started s address l at parsed started) (w, h) = (w, rw at at h)
  Step-IsLost (http_failed s address e at parsed refused) (w, h) = (w, tt)
  Step-IsLost (http_shutdown s mode at message) (w, h) =
      let missed = rw at at h in let clash = sym missed ∙ message in cc
  Step-IsLost (drained s at quiet) (w, h) = absurd (rw at at h)
  Step-IsLost (left s server at) (w, h) = absurd (rw at at h)
  Step-IsLost (cleared s at) (w, h) = absurd (rw at at h)
  Step-IsLost (request_begun s mode at) (w, h) = (w, h)
  Step-IsLost (request_ended s n some_left) (w, h) = (w, h)
  Step-IsLost (wire_started s message address l at parsed started) (w, h) = (w, h)
  Step-IsLost (wire_failed s message address e at parsed refused) (w, h) = (w, h)
  Step-IsLost (wire_ended s mode message at) (w, h) = (w, h)
  Step-IsLost (signalled s ctrl_c terminate at resolved) (w, h) = let clash = sym at ∙ w in cc

  Steps-IsLost : {a b : Process Server} → IsLost a → Steps host config a b → IsLost b
  Steps-IsLost h stay = h
  Steps-IsLost h (next run step) = Step-IsLost step (Steps-IsLost h run)

  LostAt-exited : (p : Point Server) (http : Option Bool) → LostAt p http → p ≢ Point.exited
  LostAt-exited p http h e = (rw e at h)

  -- A signal that is sent while `serve` has spawned its task and not yet subscribed the HTTP
  -- listener is lost: no run from there ever leaves `serve` in good order.
  pub Steps-lost :
      (s t : Process Server)
      → Steps host config begun s
      → s.at ≡ Point.subscribing
      → s.watch ≡ Watch.sent
      → Steps host config s t
      → t.at ≢ Point.exited
  unfolding IsLost
  Steps-lost s t run at gone more =
      let h = Steps-IsOrderly host config run in
      let lost : LostAt s.at s.http = rw at (rw at at h.subscribed_at) in
      LostAt-exited t.at t.http (Steps-IsLost (gone, lost) more).1

  requests_end :
      (n : ℕ) (s t : Process Server)
      → t.in_flight ≡ n
      → Steps host config s t
      → Steps host config s (record t { in_flight = 0 })
  requests_end zero s t e run = rw (sym e) run
  requests_end (suc n) s t e run =
      requests_end n s (record t { in_flight = n }) refl (next run (request_ended t n e))

  -- The end of a listener that has been told.
  drain_and_clear :
      (s t : Process Server) (mode : Mode Server)
      → t.at ≡ Point.draining mode
      → t.in_flight ≡ 0
      → Steps host config s t
      → Steps host config s (record t { at = Point.exited; ready = false })
  drain_and_clear s t plain at quiet run =
      next (next run (drained t at quiet)) (cleared (record t { at = Point.clearing }) refl)
  drain_and_clear s t (secured server) at quiet run =
      next (next run (left t server at)) (cleared (record t { at = Point.clearing }) refl)

  -- While `serve` serves and waits for the signal it can always be stopped: the signal, the end of
  -- the requests in flight and the shutdown of the HTTP listener lead to its end in good order,
  -- where the node is not ready.
  pub Steps-stoppable :
      (s : Process Server) (mode : Mode Server)
      → Steps host config begun s
      → s.at ≡ Point.serving mode
      → s.watch ≡ Watch.waiting
      → (t : Process Server) × Steps host config s t
        × (t.at ≡ Point.exited)
        × (t.ready ≡ false)
        × (t.in_flight ≡ 0)
  Steps-stoppable s mode run at waits =
      let h = Steps-IsOrderly host config run in
      let (message, there) = rw at at h.subscribed_at in
      let a : Process Server = record s {
        watch = Watch.sent;
        wire = told_wire s.wire;
        http = told s.http;
      } in
      let b : Process Server = record a { in_flight = 0 } in
      let c : Process Server = record b { at = Point.draining mode } in
      let first : Steps host config s a = next stay (signalled s false received waits resolved) in
      let second : Steps host config s b = requests_end s.in_flight s a refl first in
      let third : Steps host config s c = next second (http_shutdown b mode at (ap told there)) in
      (
        record c { at = Point.exited; ready = false },
        drain_and_clear s c mode refl refl third,
        refl,
        refl,
        refl,
      )
