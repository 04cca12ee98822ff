-- ===== src/Api/Roundtrip.antt =====
-- A value that is written through the interface is what a later read answers.
use falcon_cache.Base.{
  ℕ, ◌+◌, ◌/◌, ◌^◌, ◌≤◌, ◌<◌, ◌≡◌, refl, ap, ◌∙◌, max, length, Bool, true, Option, some, List,
  u64_mod, if◌then◌else◌, Bool-cases, inl, inr, All,
}
use falcon_cache.Base.Equality.{byte_string_eq}
use falcon_cache.Storage.Table.{get as find, put as replace}
use falcon_cache.Storage.Table.Laws.{get-put_self}
use falcon_cache.Storage.Shard.{Bytes}
use falcon_cache.Storage.Engine.Running.{IsRunning}
use falcon_cache.Storage.Engine.Operations.{HasRoom, AtShard}
use falcon_cache.Core.Keyspace.{
  Keyspace, get, put_with_ttl, put_with_ttl-get, expiry, ttl_ms, lasts,
}
use falcon_cache.Api.Base64.{base64_decode, IsByte, base64_decode-base64_encode}
use falcon_cache.Api.Rest.{
  Keyspaces, KvWrite, ValueResponse, new_value_response, rest_keyspace, key_param, cache_write,
  read_answer, on_cache, on_cache-some, with_key-some, cache_read, succeeded, ok_body, value_body,
}

-- What a client takes the value to be.
abbrev pub client_value : ValueResponse → Option Bytes
client_value r = if r.base64 then base64_decode r.value else some r.value

module _ (hash : Bytes → ℕ) (is_utf8 : Bytes → Bool) where
  pub client_value-new :
      (value : Bytes)
      → All IsByte value
      → client_value (new_value_response hash is_utf8 value) ≡ some value
  client_value-new value bytes = elim (Bool-cases (is_utf8 value)) [
    | inl h ↦ rw h refl
    | inr h ↦ rw h (base64_decode-base64_encode value bytes)
  ]

  pub write_at :
      (times : ℕ × ℕ) (body : KvWrite) (held : Keyspaces) (ks after : Keyspace)
      → find rest_keyspace held ≡ some ks
      → put_with_ttl hash body.key body.value body.ttl (times.0) (times.1) ks ≡ some after
      → cache_write hash is_utf8 times body held
        ≡ some (replace rest_keyspace after held, succeeded ok_body)
  unfolding cache_write
  write_at times body held ks after at ran =
      on_cache-some _ held ks after (succeeded ok_body) at (rw ran refl)

  pub read_at :
      (now : ℕ) (params : List (Bytes × Bytes)) (key value : Bytes) (held : Keyspaces)
      (ks after : Keyspace)
      → key_param params ≡ some key
      → find rest_keyspace held ≡ some ks
      → get hash key now ks ≡ some (after, some value)
      → cache_read hash is_utf8 now params held
        ≡ some (
          replace rest_keyspace after held,
          succeeded (value_body (new_value_response hash is_utf8 value)),
        )
  unfolding cache_read
  read_at now params key value held ks after named at ran =
      with_key-some params key (λ x. on_cache (λ k. read_answer hash is_utf8 (get hash x now k)))
        held named
      ∙ on_cache-some (λ k. read_answer hash is_utf8 (get hash key now k)) held ks after
          (succeeded (value_body (new_value_response hash is_utf8 value))) at
          (ap (read_answer hash is_utf8) ran)

  -- A value that `POST /cache` stores is what `GET /cache` answers for its key until its TTL is
  -- over, whether the answer has it as it is or in base64, if there is room for it, it fits its
  -- shard's budget alone, two or more entries are sampled, and the TTL has not run out when the
  -- write's own eviction reads the clock.
  pub cache_write-cache_read :
      (capacity_bytes : ℕ) (body : KvWrite) (params : List (Bytes × Bytes)) (now evicting later : ℕ)
      (held : Keyspaces) (ks : Keyspace)
      → find rest_keyspace held ≡ some ks
      → key_param params ≡ some body.key
      → All IsByte body.value
      → IsRunning capacity_bytes ks.engine
      → AtShard hash body.key ks.engine
          (HasRoom body.key body.value (expiry now (ttl_ms body.ttl ks)) ks.engine.evict_sample)
      → 2 ≤ ks.engine.evict_sample
      → length body.key + length body.value + 96 ≤ max (capacity_bytes / length ks.engine.shards) 1
      → now < u64_mod
      → ttl_ms body.ttl ks < 2 ^ 127
      → lasts now (ttl_ms body.ttl ks) evicting ≡ true
      → lasts now (ttl_ms body.ttl ks) later ≡ true
      → (after final : Keyspaces) × (r : ValueResponse) × (cache_write hash is_utf8
            (now, evicting)
            body
            held
          ≡ some (after, succeeded ok_body))
        × (cache_read hash is_utf8 later params after ≡ some (final, succeeded (value_body r)))
        × (client_value r ≡ some body.value)
  cache_write-cache_read capacity_bytes body params now evicting later held ks at named bytes
        running room two alone small fits live lasting =
      let (after, ran, (final, answered)) =
        put_with_ttl-get hash capacity_bytes body.key body.value body.ttl now evicting later ks
          running room two alone small fits live lasting in
      (
        replace rest_keyspace after held,
        replace rest_keyspace final (replace rest_keyspace after held),
        new_value_response hash is_utf8 body.value,
        write_at (now, evicting) body held ks after at ran,
        read_at later params body.key body.value (replace rest_keyspace after held) after final
            named (get-put_self rest_keyspace after held) answered,
        client_value-new body.value bytes,
      )
