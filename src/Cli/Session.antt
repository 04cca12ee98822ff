-- ===== src/Cli/Session.antt =====
-- The commands of a client (crates/falcon-cli/src/client.rs) against a node that answers them
-- (crates/falcon-api/src/server.rs). `deliver` is the HTTP client library with the connection: the
-- request that the node gets for what a client sends. `json_text` is the text at "value" of a
-- response's body, if it is JSON.
pub mod Roundtrip
mod Tests
use falcon_cache.Base.{
  [], All, ◌∷◌, ℕ, ◌+◌, ◌/◌, ◌^◌, ◌≤◌, ◌<◌, sym, ap, ◌∙◌, max, length, Bool, true, false, Option,
  none, some, List, ◌⊎◌, u64_mod, if◌then◌else◌, not,
}
use mathlib.Core.List.{append_assoc}
use falcon_cache.Base.Text.{Text, is_blank}
use falcon_cache.Base.Equality.{byte_string_eq}
use falcon_cache.Storage.Table.{get as find}
use falcon_cache.Storage.Shard.{Bytes}
use falcon_cache.Storage.Engine.Running.{IsRunning}
use falcon_cache.Storage.Engine.Operations.{HasRoom, AtShard}
use falcon_cache.Core.Keyspace.{Keyspace, put_with_ttl-get, expiry, ttl_ms, lasts}
use falcon_cache.Api.Rest.{
  ApiNode, HttpResponse, KvWrite, ValueResponse, rest_keyspace, key_param, succeeded, ok_body,
  value_body, new_value_response,
}
use falcon_cache.Api.Router.{HttpRequest, delete, app}
use falcon_cache.Cli.Delivery.{Delivers, IsUnreserved, IsInQuery, unreserved}
use falcon_cache.Api.Roundtrip.{write_at, read_at}
use falcon_cache.Storage.Table.{put as replace}
use falcon_cache.Storage.Table.Laws.{get-put_self}
use falcon_cache.Cli.Client.{
  Target, Sent, PutArgs, PutBody, get_request, put_request, del_request, value_or_stdin, Ending,
  printed, failed, get_ending, ok_ending, health_request, is_error_status,
}

-- How a command ends for the response that the node gives.
abbrev ended : (HttpResponse → Ending) → Option (ApiNode × HttpResponse) → Option (ApiNode × Ending)
ended make none = none
ended make (some (node, r)) = some (node, make r)

module _ (hash : Bytes → ℕ) (is_utf8 : Bytes → Bool) (header_str : Bytes → Option Bytes)
    (lossy : Bytes → Bytes) (extract_json : Option ℕ → HttpRequest → HttpResponse ⊎ KvWrite)
    (extract_query : HttpRequest → HttpResponse ⊎ List (Bytes × Bytes))
    (unrouted : HttpRequest → HttpResponse) (deliver : Sent PutBody → HttpRequest)
    (json_text : HttpResponse → Option (Option Text)) where
  -- The node answers what is sent.
  abbrev answered : ℕ × ℕ → Sent PutBody → ApiNode → Option (ApiNode × HttpResponse)
  answered times req node =
      app hash is_utf8 header_str lossy extract_json extract_query unrouted times (deliver req) node

  -- `get`
  unfoldable pub get_command : ℕ × ℕ → Target → Text → ApiNode → Option (ApiNode × Ending)
  get_command times t key node =
      ended (λ r. get_ending r.status (json_text r)) (answered times (get_request t key) node)

  -- `put`; without a value and with nothing readable on stdin nothing is sent.
  unfoldable pub put_command :
      ℕ × ℕ → Target → PutArgs → Option Text → ApiNode → Option (ApiNode × Ending)
  put_command times t a stdin node = elim (value_or_stdin a.value stdin) [
    | none ↦ some (node, failed)
    | some value ↦ ended (λ r. ok_ending r.status) (answered times (put_request t a value) node)
  ]

  -- `del`
  unfoldable pub del_command : ℕ × ℕ → Target → Text → ApiNode → Option (ApiNode × Ending)
  del_command times t key node =
      ended (λ r. ok_ending r.status) (answered times (del_request t key) node)

  -- `health`; `pretty` is the printed JSON of a response's body, if it is JSON.
  abbrev health_ending : (HttpResponse → Option Text) → HttpResponse → Ending
  health_ending pretty r =
      if is_error_status r.status
      then failed
      else elim (pretty r) [ none ↦ failed | some shown ↦ printed shown ]

  unfoldable pub health_command :
      (HttpResponse → Option Text) → ℕ × ℕ → Target → ApiNode → Option (ApiNode × Ending)
  health_command pretty times t node =
      ended (health_ending pretty) (answered times (health_request t) node)
