-- ===== src/Api/Shared.antt =====
-- One cache for both protocols: what the binary protocol stores, REST answers.
use falcon_cache.Base.{
  ℕ, ◌+◌, ◌/◌, ◌^◌, ◌≤◌, ◌<◌, ◌≡◌, refl, max, length, Bool, true, false, none, some, List, [],
  u64_mod, All,
}
use falcon_cache.Base.Equality.{byte_string_eq}
use falcon_cache.Storage.Table.{get as find, put as replace}
use falcon_cache.Storage.Table.Laws.{get-put_self}
use falcon_cache.Storage.Shard.{Bytes}
use falcon_cache.Storage.Engine.Running.{IsRunning}
use falcon_cache.Storage.Engine.Operations.{HasRoom, AtShard}
use falcon_cache.Core.Keyspace.{
  Keyspace, put, put_with_ttl, put_with_ttl-get, expiry, ttl_ms, lasts,
}
use falcon_cache.Wire.Protocol.{Request, Response, op_set}
use falcon_cache.Wire.Conn.{
  ServedNode, dispatch, dispatch_kv, dispatch_kv_on, serve_on, name_str, rejects, default_keyspace,
}
use falcon_cache.Api.Base64.{IsByte}
use falcon_cache.Api.Rest.{
  Keyspaces, ValueResponse, new_value_response, rest_keyspace, key_param, cache_read, succeeded,
  value_body,
}
use falcon_cache.Api.Roundtrip.{client_value, client_value-new, read_at}

module _ (hash : Bytes → ℕ) (is_utf8 : Bytes → Bool) where
  set_at :
      (now evicting : ℕ) (req : Request) (node : ServedNode) (ks after : Keyspace)
      → req.op ≡ op_set
      → req.keyspace ≡ []
      → rejects node.limits req ≡ false
      → find default_keyspace node.keyspaces ≡ some ks
      → put_with_ttl hash req.key req.value none now evicting ks ≡ some after
      → dispatch hash is_utf8 (now, evicting) req node
        ≡ some
            (record node { keyspaces = replace default_keyspace after node.keyspaces }, Response.ok)
  unfolding dispatch dispatch_kv serve_on dispatch_kv_on name_str put
  set_at now evicting req node ks after is_set unnamed small at ran =
      rw
        (
          dispatch, small, is_set, dispatch_kv, unnamed, name_str, serve_on, at, dispatch_kv_on,
          is_set, put, ran,
        )
        refl

  -- Both protocols serve one cache: a value that a SET frame without a keyspace name stores, whose
  -- sizes are accepted, is what `GET /cache` answers for the key until the default TTL is over,
  -- whatever its bytes are, if there is room for it, it fits its shard's budget alone, two or more
  -- entries are sampled, and the TTL has not run out when the write's own eviction reads the clock.
  pub dispatch-cache_read :
      (capacity_bytes : ℕ) (req : Request) (params : List (Bytes × Bytes)) (now evicting later : ℕ)
      (node : ServedNode) (ks : Keyspace)
      → req.op ≡ op_set
      → req.keyspace ≡ []
      → rejects node.limits req ≡ false
      → find default_keyspace node.keyspaces ≡ some ks
      → key_param params ≡ some req.key
      → All IsByte req.value
      → IsRunning capacity_bytes ks.engine
      → AtShard hash req.key ks.engine
          (HasRoom req.key req.value (expiry now (ttl_ms none ks)) ks.engine.evict_sample)
      → 2 ≤ ks.engine.evict_sample
      → length req.key + length req.value + 96 ≤ max (capacity_bytes / length ks.engine.shards) 1
      → now < u64_mod
      → ttl_ms none ks < 2 ^ 127
      → lasts now (ttl_ms none ks) evicting ≡ true
      → lasts now (ttl_ms none ks) later ≡ true
      → (after : ServedNode) × (final : Keyspaces) × (r : ValueResponse) × (dispatch hash is_utf8
            (now, evicting)
            req
            node
          ≡ some (after, Response.ok))
        × (cache_read hash is_utf8 later params after.keyspaces
            ≡ some (final, succeeded (value_body r)))
        × (client_value r ≡ some req.value)
  dispatch-cache_read capacity_bytes req params now evicting later node ks is_set unnamed small at
        named bytes running room two alone early fits live lasting =
      let (after, ran, (final, answered)) =
        put_with_ttl-get hash capacity_bytes req.key req.value none now evicting later ks running
          room two alone early fits live lasting in
      let held = replace default_keyspace after node.keyspaces in
      (
        record node { keyspaces = held },
        replace rest_keyspace final held,
        new_value_response hash is_utf8 req.value,
        set_at now evicting req node ks after is_set unnamed small at ran,
        read_at hash is_utf8 later params req.key req.value held after final named
            (get-put_self rest_keyspace after node.keyspaces) answered,
        client_value-new hash is_utf8 req.value bytes,
      )
