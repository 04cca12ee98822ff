-- ===== src/Cli/Main.antt =====
-- `main`: which command does what (crates/falcon-cli/src/main.rs and cli.rs). What the commands
-- read of the libraries are the parameters of their own files.
use falcon_cache.Base.{ℕ, ◌≡◌, ◌≢◌, refl, sym, ap, Bool, Option, none, some, List, ◌⊎◌}
use falcon_cache.Base.Text.{Text}
use falcon_cache.Storage.Shard.{Bytes}
use falcon_cache.Core.Config.{Config}
use falcon_cache.Core.Profile.{Profile, Outcome}
use falcon_cache.Core.Profile.File.{Disk, Permits}
use falcon_cache.Api.Rest.{ApiNode, HttpResponse, KvWrite}
use falcon_cache.Api.Router.{HttpRequest}
use falcon_cache.Cli.Serve.{ServeArgs, Run, run}
use falcon_cache.Cli.Settings.{ConfigCmd, set_key, get_key, list, config, status}
use falcon_cache.Cli.Client.{
  ClientArgs, KeyArgs, PutArgs, PutBody, Sent, Target, resolve_target, Ending,
}
use falcon_cache.Cli.Session.{get_command, put_command, del_command, health_command}

pub data Command : Type 0 where
  show_status : Command
  configure : ConfigCmd → Command
  serve : ServeArgs → Command
  get : KeyArgs → Command
  put : PutArgs → Command
  del : KeyArgs → Command
  health : ClientArgs → Command

-- What a command comes to: the lines that it prints, the run that `serve` starts, or how the
-- command of a client ends.
pub data Result : Type 0 where
  lines : Outcome (List Text) → Result
  serves : Option Run → Result
  client_ends : Ending → Result

-- What the commands work on: the profile's file, and the node that a client reaches.
pub record World : Type 0 where
  pub disk : Disk
  pub node : ApiNode

abbrev on_node : World → Option (ApiNode × Ending) → Option (World × Result)
on_node w none = none
on_node w (some (after, e)) = some (record w { node = after }, client_ends e)

abbrev on_disk : World → Disk × Outcome (List Text) → Option (World × Result)
on_disk w (after, printed) = some (record w { disk = after }, lines printed)

world_inj :
    {a b : World} {r s : Result}
    → ◌≡◌ {A = Option (World × Result)} (some (a, r)) (some (b, s))
    → a ≡ b
world_inj e = cc

module _ (from_str : Text → Option Profile) (to_string_pretty : Profile → Option Text)
    (config_file : Text → Option Config) (version path : Text) (stdin : Option Text)
    (hash : Bytes → ℕ) (is_utf8 : Bytes → Bool) (header_str : Bytes → Option Bytes)
    (lossy : Bytes → Bytes) (extract_json : Option ℕ → HttpRequest → HttpResponse ⊎ KvWrite)
    (extract_query : HttpRequest → HttpResponse ⊎ List (Bytes × Bytes))
    (unrouted : HttpRequest → HttpResponse) (deliver : Sent PutBody → HttpRequest)
    (json_text : HttpResponse → Option (Option Text)) (pretty : HttpResponse → Option Text) where
  abbrev target : Permits → World → ClientArgs → Target
  target permits w c = resolve_target from_str permits w.disk c

  -- `main`, at readings of the clock that the node meets.
  unfoldable pub main : Permits → ℕ × ℕ → Command → World → Option (World × Result)
  main permits times show_status w = some (w, lines (status from_str version path permits w.disk))
  main permits times (configure cmd) w =
      on_disk w (config from_str to_string_pretty path permits cmd w.disk)
  main permits times (serve args) w =
      some (w, serves (run from_str config_file permits w.disk args))
  main permits times (get a) w = on_node w (
      get_command hash is_utf8 header_str lossy extract_json extract_query unrouted deliver
        json_text times (target permits w a.client) a.key w.node)
  main permits times (put a) w = on_node w (
      put_command hash is_utf8 header_str lossy extract_json extract_query unrouted deliver
        json_text times (target permits w a.client) a stdin w.node)
  main permits times (del a) w = on_node w (
      del_command hash is_utf8 header_str lossy extract_json extract_query unrouted deliver
        json_text times (target permits w a.client) a.key w.node)
  main permits times (health c) w = on_node w (
      health_command hash is_utf8 header_str lossy extract_json extract_query unrouted deliver
        json_text pretty times (target permits w c) w.node)

  on_node-disk :
      (w after : World) (r : Result) (o : Option (ApiNode × Ending))
      → on_node w o ≡ some (after, r)
      → after.disk ≡ w.disk
  on_node-disk w after r none h = cc
  on_node-disk w after r (some (n, e)) h = ap (λ (x : World). x.disk) (sym (world_inj h))

  -- No command but `config set` writes the profile: `config get` and `config list`, `status`,
  -- `serve` and the clients leave its file and its directory as they are.
  pub main-disk :
      (permits : Permits) (times : ℕ × ℕ) (cmd : Command) (w after : World) (r : Result)
      → ((key value : Text) → cmd ≢ configure (set_key key value))
      → main permits times cmd w ≡ some (after, r)
      → after.disk ≡ w.disk
  unfolding main config
  main-disk permits times show_status w after r other h =
      ap (λ (x : World). x.disk) (sym (world_inj h))
  main-disk permits times (configure (set_key key value)) w after r other h =
      absurd (other key value refl)
  main-disk permits times (configure (get_key key)) w after r other h =
      ap (λ (x : World). x.disk) (sym (world_inj h))
  main-disk permits times (configure list) w after r other h =
      ap (λ (x : World). x.disk) (sym (world_inj h))
  main-disk permits times (serve args) w after r other h =
      ap (λ (x : World). x.disk) (sym (world_inj h))
  main-disk permits times (get a) w after r other h = on_node-disk w after r _ h
  main-disk permits times (put a) w after r other h = on_node-disk w after r _ h
  main-disk permits times (del a) w after r other h = on_node-disk w after r _ h
  main-disk permits times (health c) w after r other h = on_node-disk w after r _ h
