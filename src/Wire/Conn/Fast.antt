-- ===== src/Wire/Conn/Fast.antt =====
-- Batches on the fast path, against serving every request by `dispatch`.
use mathlib.Core.Option
use falcon_cache.Base.{
  ℕ, ◌+◌, ◌≡◌, refl, sym, Bool, true, false, not, ◌&&◌, Option, none, some, List, [], ◌∷◌, ◌==◌,
  if◌then◌else◌, All, arith, Option-cases, Bool-cases, inl, inr,
}
use falcon_cache.Base.Equality.{byte_string_eq}
use falcon_cache.Storage.Shard.{Bytes}
use falcon_cache.Core.Auth.{constant_time_eq}
use falcon_cache.Wire.Protocol.{Request, Response, op_auth}
use falcon_cache.Wire.Conn.{
  Serving, reply, is_kv, rejects, answer, dispatch, serve_request, serve_batch,
}
use falcon_cache.Wire.Conn.Memo.{
  uncached, answer-Follows, serve_fast-dispatch, IsMemo-dispatch, IsMemo, IsNamed, Follows,
}

module _ (hash : Bytes → ℕ) (is_utf8 : Bytes → Bool) where
  -- A request that is served by `dispatch` alone, with no memory of the one before it.
  unfoldable pub serve_plainly : ℕ × ℕ → Request → Serving → Option Serving
  unfolding dispatch
  serve_plainly times req c =
      if req.op == op_auth
      then (if constant_time_eq req.value c.node.api_key
          then some (reply Response.ok (record c { authed = true }))
          else some (reply Response.unauthorized c))
      else if not c.authed
      then some (reply Response.unauthorized c)
      else answer hash is_utf8 c (dispatch hash is_utf8 times req c.node)

  -- Requests with the readings of the clock that each is given, one after the other.
  unfoldable pub serve_each : List ((ℕ × ℕ) × Request) → Serving → Option Serving
  unfolding serve_plainly
  serve_each [] c = some c
  serve_each ((times, req) ∷ more) c = elim (serve_plainly times req c) [
    | none ↦ none
    | some after ↦ serve_each more after
  ]

  serve_request-Follows :
      (times : ℕ × ℕ) (req : Request) (c : Serving)
      → IsNamed hash is_utf8 req
      → IsMemo hash is_utf8 c.node c.cached
      → Follows hash is_utf8
          (serve_request hash is_utf8 times req c)
          (serve_plainly times req (uncached c))
  unfolding serve_request serve_plainly
  serve_request-Follows times req c named memo = elim (Bool-cases (req.op == op_auth)) [
    | inl auth ↦ elim (Bool-cases (constant_time_eq req.value c.node.api_key)) [
      | inl right ↦ rw (serve_request, serve_plainly, auth, right) (refl, memo)
      | inr wrong ↦ rw (serve_request, serve_plainly, auth, wrong) (refl, memo)
    ]
    | inr other ↦ elim (Bool-cases c.authed) [
      | inr shut ↦ rw (serve_request, serve_plainly, other, shut) (refl, memo)
      | inl open_gate ↦ elim (Bool-cases (is_kv req.op && not (rejects c.node.limits req))) [
        | inl fast ↦
            let kv : is_kv req.op ≡ true = ground (arith, fast) in
            let fits : rejects c.node.limits req ≡ false = ground (arith, fast) in
            rw (serve_request, serve_plainly, other, open_gate, fast)
              (serve_fast-dispatch hash is_utf8 times req (record c { authed = true }) named memo kv
                fits)
        | inr slow ↦
            rw (serve_request, serve_plainly, other, open_gate, slow)
              (answer-Follows hash is_utf8 c.cached (record c { authed = true })
                (dispatch hash is_utf8 times req c.node)
                (λ after r ran.
                  IsMemo-dispatch hash is_utf8 c.cached times req c.node after r memo ran))
      ]
    ]
  ]

  -- The requests of a batch from its `i`th on, with the readings that `serve_batch` gives them.
  abbrev pub timed : (ℕ → ℕ × ℕ) → ℕ → List Request → List ((ℕ × ℕ) × Request)
  timed times i [] = []
  timed times i (req ∷ batch) = (times i, req) ∷ timed times (i + 1) batch

  serve_batch-Follows :
      (times : ℕ → ℕ × ℕ) (i : ℕ) (batch : List Request) (c : Serving)
      → All (IsNamed hash is_utf8) batch
      → IsMemo hash is_utf8 c.node c.cached
      → Follows hash is_utf8
          (serve_batch hash is_utf8 times i batch c)
          (serve_each (timed times i batch) (uncached c))
  unfolding serve_batch serve_each
  serve_batch-Follows times i [] c named memo = (refl, memo)
  serve_batch-Follows times i (req ∷ batch) c named memo =
      let one = serve_request-Follows (times i) req c named.0 memo in
      elim (Option-cases (serve_request hash is_utf8 (times i) req c)) [
        | inl n ↦
            let alone : serve_plainly (times i) req (uncached c) ≡ none = rw n at one in
            rw (serve_batch, n, serve_each, alone) refl
        | inr (after, ran) ↦
            let both = rw ran at one in
            rw (serve_batch, ran, serve_each, both.0)
              (serve_batch-Follows times (i + 1) batch after named.1 both.1)
      ]

  map-Follows :
      (o plain : Option Serving) → Follows hash is_utf8 o plain → Option.map uncached o ≡ plain
  map-Follows none plain h = sym h
  map-Follows (some s) plain h = sym h.0

  -- Remembering the keyspace of the request before changes nothing: a batch whose keyspace fields
  -- are each empty or UTF-8 leaves the node, the authentication and the replies that serving every
  -- request by `dispatch` alone leaves, or panics where that does.
  pub serve_batch-serve_each :
      (times : ℕ → ℕ × ℕ) (i : ℕ) (batch : List Request) (c : Serving)
      → All (IsNamed hash is_utf8) batch
      → c.cached ≡ none
      → Option.map uncached (serve_batch hash is_utf8 times i batch c)
        ≡ serve_each (timed times i batch) (uncached c)
  serve_batch-serve_each times i batch c named fresh =
      map-Follows (serve_batch hash is_utf8 times i batch c)
        (serve_each (timed times i batch) (uncached c))
        (serve_batch-Follows times i batch c named (rw fresh tt))
