-- ===== src/Cli/Process/Tests.antt =====
-- Runs of the process of `serve` at fixed inputs.
use falcon_cache.Base.{◌≡◌, ◌≢◌, refl, Bool, true, false, some, ◌⊎◌, inr, [], ◌∷◌}
use falcon_cache.Base.Text.{Text, text}
use falcon_cache.Storage.Shard.{Bytes}
use falcon_cache.Core.Config.{Config, default_config, tls_is_enabled}
use falcon_cache.Core.Node.{shutdown_signal, unavailable}
use falcon_cache.Core.Tls.{load_key, load_certs, TlsLibrary, load_server_config}
use falcon_cache.Core.Tls.Mode.{Mode, plain, secured, IsConfigured}
use falcon_cache.Api.Server.{start_http}
use falcon_cache.Cli.Process.{
  Point, WireTask, Watch, Process, begun, Host, wire_off, marked, watched, http_parsed, subscribed,
  http_started, http_shutdown, left, cleared, request_begun, signalled, Steps, stay, next,
}
use falcon_cache.Cli.Process.Starting.{Steps-IsConfigured, Steps-exited}
use falcon_cache.Cli.Process.Stopping.{Steps-lost, Steps-stoppable}

-- A library for which every file is one certificate and one key.
abbrev library : TlsLibrary Bytes
library = record {
  read = λ path. inr path;
  certs = λ bytes. inr (bytes ∷ []);
  private_key = λ bytes. inr (some bytes);
  with_single_cert = λ certs key. inr key;
}

abbrev host : Host Bytes Text Text
host = record { tls = library; parse = λ t. some t; bind = λ a. inr a }

abbrev config : Config
config = record default_config { wire = record (default_config.wire) { enabled = false } }

abbrev config_tls : Config
config_tls = record config {
  tls = record { enabled = true; cert_file = text "c"; key_file = text "k" };
}

abbrev bound : Process Bytes
bound = record begun { at = Point.binding; ready = true; watch = Watch.waiting }

to_binding : (c : Config) → c.wire.enabled ≡ false → Steps host c begun bound
to_binding c off =
    next
      (next (next stay (wire_off begun refl off))
        (marked (record begun { at = Point.marking }) refl))
      (watched (record begun { at = Point.watching; ready = true }) refl)

abbrev ready_to_start : Process Bytes
ready_to_start = record bound { at = Point.starting; http = some false }

to_starting : (c : Config) → c.wire.enabled ≡ false → Steps host c begun ready_to_start
to_starting c off =
    next (next (to_binding c off) (http_parsed bound c.http.bind refl refl))
      (subscribed (record bound { at = Point.subscribing }) refl)

abbrev up : Mode Bytes → Process Bytes
up mode = record ready_to_start { at = Point.serving mode }

to_serving : Steps host config begun (up plain)
unfolding start_http load_server_config
to_serving = next (to_starting config refl) (
    http_started ready_to_start config.http.bind
      (record { socket = config.http.bind; mode = plain }) refl refl refl)

to_serving_tls : Steps host config_tls begun (up (secured (text "k")))
unfolding start_http load_server_config load_certs load_key
to_serving_tls = next (to_starting config_tls refl) (
    http_started ready_to_start config_tls.http.bind
      (record { socket = config_tls.http.bind; mode = secured (text "k") }) refl refl refl)

Steps-IsConfigured_example :
    (((up (secured (text "k"))).at ≡ Point.serving (secured (text "k")))
        ⊎ ((up (secured (text "k"))).at ≡ Point.draining (secured (text "k")))
      → ((up (secured (text "k"))).ready ≡ true)
        × IsConfigured library config_tls.tls (secured (text "k")))
    × ((message : Bool)
        → (up (secured (text "k"))).wire ≡ WireTask.listening (secured (text "k")) message
        → (config_tls.wire.enabled ≡ true)
          × IsConfigured library config_tls.tls (secured (text "k")))
Steps-IsConfigured_example =
    Steps-IsConfigured host config_tls (up (secured (text "k"))) (secured (text "k")) to_serving_tls

Steps-stoppable_example :
    (t : Process Bytes) × Steps host config (up plain) t
    × (t.at ≡ Point.exited)
    × (t.ready ≡ false)
    × (t.in_flight ≡ 0)
Steps-stoppable_example = Steps-stoppable host config (up plain) plain to_serving refl refl

-- With TLS a request is in flight when `serve` returns.
abbrev cut_off : Process Bytes
cut_off = record (up (secured (text "k"))) {
  at = Point.exited;
  ready = false;
  watch = Watch.sent;
  http = some true;
  in_flight = 1;
}

abbrev answering : Process Bytes
answering = record (up (secured (text "k"))) { in_flight = 1 }

abbrev answering_told : Process Bytes
answering_told = record answering { watch = Watch.sent; http = some true }

to_cut_off : Steps host config_tls begun cut_off
unfolding shutdown_signal
to_cut_off =
    next
      (next
        (next
          (next
            (next to_serving_tls
              (request_begun (up (secured (text "k"))) (secured (text "k")) refl))
            (signalled answering true unavailable refl refl))
          (http_shutdown answering_told (secured (text "k")) refl refl))
        (left (record answering_told { at = Point.draining (secured (text "k")) }) (text "k") refl))
      (cleared (record answering_told { at = Point.clearing }) refl)

Steps-exited_example :
    (cut_off.ready ≡ false)
    × (cut_off.watch ≡ Watch.sent)
    × (tls_is_enabled config_tls.tls ≡ false → cut_off.in_flight ≡ 0)
Steps-exited_example = Steps-exited host config_tls cut_off to_cut_off refl

-- SIGTERM comes between the task that waits for it and the receiver of the HTTP listener.
abbrev early : Process Bytes
early = record bound { at = Point.subscribing; watch = Watch.sent }

to_early : Steps host config begun early
unfolding shutdown_signal
to_early =
    next (next (to_binding config refl) (signalled bound true unavailable refl refl))
      (http_parsed (record bound { watch = Watch.sent }) config.http.bind refl refl)

abbrev stuck : Process Bytes
stuck = record early { at = Point.starting; http = some false }

Steps-lost_example : stuck.at ≢ Point.exited
Steps-lost_example =
    Steps-lost host config early stuck to_early refl refl (next stay (subscribed early refl))
