-- ===== src/Wire/Conn/Tests.antt =====
-- Runs of the connection loop at fixed inputs.
use mathlib.Core.Option
use falcon_cache.Base.{◌≡◌, refl, Bool, true, none, List, [], ◌∷◌, arith}
use falcon_cache.Storage.Shard.{Bytes}
use falcon_cache.Storage.Engine.Tests.{small, first_byte}
use falcon_cache.Core.Keyspace.{new_keyspace}
use falcon_cache.Wire.Protocol.{Request, op_set, op_get, request_frame}
use falcon_cache.Wire.Conn.{ServedNode, Serving, default_keyspace, name_str, serve_batch}
use falcon_cache.Wire.Conn.Pipeline.{IsSendable, frames}
use falcon_cache.Wire.Conn.Memo.{uncached}
use falcon_cache.Wire.Conn.Fast.{serve_each, timed, serve_batch-serve_each}
use falcon_cache.Wire.Conn.Served.{Serves}
use falcon_cache.Wire.Conn.Resplit.{joined, handle_conn-Serves, handle_conn-resplit}
use falcon_cache.Wire.Conn.Loop.{opened, handle_conn, to_come}

abbrev node : ServedNode
node = record {
  keyspaces = (default_keyspace, new_keyspace small 0) ∷ [];
  limits = record { max_value = 0; max_key = 0 };
  api_key = [];
}

abbrev is_text : Bytes → Bool
is_text bytes = true

abbrev set_three : Request
set_three = record { op = op_set; flags = 0; keyspace = []; key = 3 ∷ []; value = 30 ∷ [] }

abbrev get_three : Request
get_three = record { op = op_get; flags = 0; keyspace = []; key = 3 ∷ []; value = [] }

abbrev pair : List Request
pair = set_three ∷ get_three ∷ []

abbrev admitted : Serving
admitted = record { node = node; authed = true; cached = none; out = [] }

serve_batch-serve_each_example :
    Option.map uncached (serve_batch first_byte is_text (λ i. (100, 101)) 0 pair admitted)
    ≡ serve_each first_byte is_text
        (timed first_byte is_text (λ i. (100, 101)) 0 pair)
        (uncached admitted)
unfolding name_str
serve_batch-serve_each_example =
    serve_batch-serve_each first_byte is_text (λ i. (100, 101)) 0 pair admitted
      ((λ e. cc), ((λ e. cc), tt)) refl

set_three-IsSendable : IsSendable set_three
set_three-IsSendable = record {
  plain = refl;
  keyspace = omega arith;
  key = omega arith;
  value = omega arith;
}

get_three-IsSendable : IsSendable get_three
get_three-IsSendable = record {
  plain = refl;
  keyspace = omega arith;
  key = omega arith;
  value = omega arith;
}

-- The second read starts in the middle of the first frame.
abbrev cut : List Bytes
cut =
    (2 ∷ 0 ∷ 0 ∷ 0 ∷ 1 ∷ [])
    ∷ (0 ∷ 0 ∷ 0 ∷ 3 ∷ 1 ∷ 0 ∷ 0 ∷ 0 ∷ 30 ∷ 1 ∷ 0 ∷ 0 ∷ 0 ∷ 1 ∷ 0 ∷ 0 ∷ 0 ∷ 3 ∷ 0 ∷ 0 ∷ 0 ∷ 0 ∷ [])
    ∷ []

abbrev whole : List Bytes
whole = joined cut ∷ []

handle_conn-Serves_example :
    Serves first_byte is_text
      (λ f i. (100, 101))
      pair
      (opened node)
      (handle_conn first_byte is_text (λ f i. (100, 101)) 40 cut (opened node))
unfolding name_str to_come frames request_frame
handle_conn-Serves_example =
    handle_conn-Serves first_byte is_text (λ f i. (100, 101)) 40 cut (opened node) pair
      (set_three-IsSendable, (get_three-IsSendable, tt)) ((λ e. cc), ((λ e. cc), tt))
      (refl, (refl, tt)) refl (omega arith)

handle_conn-resplit_example :
    handle_conn first_byte is_text (λ f i. (100, 101)) 40 cut (opened node)
    ≡ handle_conn first_byte is_text (λ f i. (100, 101)) 30 whole (opened node)
unfolding name_str to_come frames request_frame
handle_conn-resplit_example =
    handle_conn-resplit first_byte is_text (100, 101) node 40 30 cut whole pair
      (set_three-IsSendable, (get_three-IsSendable, tt)) ((λ e. cc), ((λ e. cc), tt))
      (refl, (refl, tt)) (refl, tt) refl refl (omega arith) (omega arith)
