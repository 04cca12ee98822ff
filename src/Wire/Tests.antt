-- ===== src/Wire/Tests.antt =====
-- Runs of the wire protocol at fixed inputs.
use falcon_cache.Base.{
  ◌⊎◌, ◌≢◌, All, ◌==◌, List, ◌↔◌, ◌≤◌, none, true, false, refl, ◌≡◌, some, [], ◌∷◌, ◌++◌, arith,
}
use falcon_cache.Storage.Shard.{Bytes}
use falcon_cache.Wire.Protocol.{Response, encode, op_set, request_frame}
use falcon_cache.Wire.Codec.{Decoded, request, decode_one}
use falcon_cache.Wire.Codec.RoundTrip.{decode_one-request_frame}
use falcon_cache.Wire.Protocol.{Request}
use falcon_cache.Wire.Listener.{
  Listener, Phase, Runs, start, next, acquired, accepted, started, acquire_slot, connection_limiter,
  Runs-cap,
}
use falcon_cache.Wire.Conn.Loop.{
  Connection, opened, handle_conn, panicked, returned, to_come, handle_conn-ends,
}
use falcon_cache.Wire.Conn.{serve_request, Serving, drain, serve_batch}
use falcon_cache.Wire.Conn.Pipeline.{IsSendable}
use falcon_cache.Core.Auth.{constant_time_eq}
use falcon_cache.Wire.Conn.Resplit.{joined}
use falcon_cache.Wire.Conn.Stranger.{handle_conn-stranger}
use falcon_cache.Wire.Codec.Progress.{Takes, decode_one-Takes}

decode_one-request_frame_example :
    decode_one (request_frame op_set (99 ∷ []) (1 ∷ 2 ∷ []) (7 ∷ []) ++ (1 ∷ 0 ∷ []))
    ≡ some (
      request (record { op = 2; flags = 0; keyspace = 99 ∷ []; key = 1 ∷ 2 ∷ []; value = 7 ∷ [] }),
      1 ∷ 0 ∷ [],
    )
decode_one-request_frame_example =
    decode_one-request_frame op_set (99 ∷ []) (1 ∷ 2 ∷ []) (7 ∷ []) (1 ∷ 0 ∷ []) (omega arith)
      (omega arith) (omega arith)

decode_one-Takes_example :
    (r : Decoded × Bytes) × (decode_one (1 ∷ 0 ∷ 255 ∷ 255 ∷ []) ≡ some r)
    × Takes (1 ∷ 0 ∷ 255 ∷ 255 ∷ []) r
decode_one-Takes_example = decode_one-Takes (1 ∷ 0 ∷ 255 ∷ 255 ∷ [])

abbrev set_one : Request
set_one = record { op = 2; flags = 0; keyspace = []; key = 1 ∷ []; value = 7 ∷ [] }

abbrev get_one : Request
get_one = record { op = 1; flags = 0; keyspace = []; key = 1 ∷ []; value = [] }

set_one-IsSendable : IsSendable set_one
set_one-IsSendable = record {
  plain = refl;
  keyspace = omega arith;
  key = omega arith;
  value = omega arith;
}

get_one-IsSendable : IsSendable get_one
get_one-IsSendable = record {
  plain = refl;
  keyspace = omega arith;
  key = omega arith;
  value = omega arith;
}

-- A connection that has not presented the token 42.
abbrev stranger : Serving
stranger = record {
  node = record {
    keyspaces = [];
    limits = record { max_value = 0; max_key = 0 };
    api_key = 42 ∷ [];
  };
  authed = false;
  cached = none;
  out = [];
}

abbrev wrong_token : Request
wrong_token = record { op = 5; flags = 0; keyspace = []; key = []; value = 41 ∷ [] }

-- Two connections of a node that serves two.
abbrev full : Listener
full = record { phase = Phase.acquiring; free = some 0; live = 2 }

full-Runs : Runs 2 full
unfolding connection_limiter acquire_slot
full-Runs =
    next
      (next
        (next (next start (acquired (some 1) (started 2) refl refl))
          (accepted (record { phase = Phase.selecting; free = some 1; live = 0 }) refl))
        (acquired (some 0) (record { phase = Phase.acquiring; free = some 1; live = 1 }) refl refl))
      (accepted (record { phase = Phase.selecting; free = some 0; live = 1 }) refl)

Runs-cap_example :
    (full.live ≤ 2)
    × (full.phase ≡ Phase.acquiring → (acquire_slot full.free ≡ none) ↔ (full.live ≡ 2))
Runs-cap_example = Runs-cap 2 full (omega arith) full-Runs

-- A client that sends a PING in two reads and never the token.
abbrev split_ping : List Bytes
split_ping = (0 ∷ 0 ∷ 0 ∷ []) ∷ (0 ∷ 0 ∷ 0 ∷ 0 ∷ 0 ∷ 0 ∷ 0 ∷ 0 ∷ 0 ∷ []) ∷ []

abbrev refused_ping : Connection
refused_ping = record (opened (stranger.node)) { sent = encode Response.unauthorized [] }

handle_conn-ends_example :
    (handle_conn
        (λ key. 0)
        (λ bytes. true)
        (λ fuel i. (100, 100))
        15
        split_ping
        (opened stranger.node)
      ≡ panicked)
    ⊎ ((final : Connection) × (handle_conn
            (λ key. 0)
            (λ bytes. true)
            (λ fuel i. (100, 100))
            15
            split_ping
            (opened stranger.node)
          ≡ returned final))
unfolding to_come
handle_conn-ends_example =
    handle_conn-ends (λ key. 0) (λ bytes. true) (λ fuel i. (100, 100)) 15 split_ping
      (opened stranger.node) (omega arith)

-- An AUTH frame with the token 41, in two reads.
abbrev wrong_auth : List Bytes
wrong_auth = (5 ∷ 0 ∷ 0 ∷ 0 ∷ 0 ∷ []) ∷ (0 ∷ 0 ∷ 0 ∷ 1 ∷ 0 ∷ 0 ∷ 0 ∷ 41 ∷ []) ∷ []

absent : (xs before after : Bytes) → All (λ b. (b == 42) ≡ false) xs → xs ≢ before ++ (42 ∷ after)
absent [] [] after h e = cc
absent [] (b ∷ before) after h e = cc
absent (x ∷ xs) [] after h e = let same : x ≡ 42 = cc in ground (arith, h.0, same)
absent (x ∷ xs) (b ∷ before) after h e = absent xs before after h.1 cc

handle_conn-stranger_example : (refused_ping.authed ≡ false) × (refused_ping.node ≡ stranger.node)
unfolding handle_conn drain decode_one serve_batch serve_request constant_time_eq
handle_conn-stranger_example =
    handle_conn-stranger (λ key. 0) (λ bytes. true) (λ fuel i. (100, 100)) 15 wrong_auth
      (opened stranger.node) refused_ping refl
      (λ before after. absent (joined wrong_auth) before after (
        refl,
        (
          refl,
          (
            refl,
            (refl, (refl, (refl, (refl, (refl, (refl, (refl, (refl, (refl, (refl, tt)))))))))),
          ),
        ),
      ))
      refl
