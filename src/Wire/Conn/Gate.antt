-- ===== src/Wire/Conn/Gate.antt =====
-- The authentication gate of the connection loop.
use falcon_cache.Base.{
  ℕ, ◌+◌, ◌≡◌, ◌≢◌, refl, Bool, false, some, List, [], ◌∷◌, ◌==◌, All, arith, Option, Option-cases,
  none, ap, sym, ◌∙◌, not, ◌&&◌, true, Bool-cases, inl, inr,
}
use falcon_cache.Storage.Shard.{Bytes}
use falcon_cache.Core.Auth.{constant_time_eq}
use falcon_cache.Core.Auth.Laws.{constant_time_eq_iff}
use falcon_cache.Wire.Protocol.{Request, Response, op_auth}
use falcon_cache.Wire.Conn.{
  serve_on, dispatch, is_kv, rejects, ServedNode, answer, serve_fast, cached_name, Serving, reply,
  serve_request, serve_batch,
}

-- The request does not present the token.
abbrev pub IsStranger : Bytes → Request → Type 0
IsStranger api_key req = req.op ≡ op_auth → req.value ≢ api_key

-- `Unauthorized`, once for each request.
abbrev pub refusals : List Request → Serving → Serving
refusals [] c = c
refusals (req ∷ batch) c = refusals batch (reply Response.unauthorized c)

module _ (hash : Bytes → ℕ) (is_utf8 : Bytes → Bool) where
  serve_request-stranger :
      (times : ℕ × ℕ) (req : Request) (c : Serving)
      → c.authed ≡ false
      → IsStranger c.node.api_key req
      → serve_request hash is_utf8 times req c ≡ some (reply Response.unauthorized c)
  unfolding serve_request
  serve_request-stranger times req c shut stranger = elim (Bool-cases (req.op == op_auth)) [
    | inl auth ↦
        let wrong : constant_time_eq req.value c.node.api_key ≡ false =
          ground (arith, constant_time_eq_iff req.value c.node.api_key, stranger, auth) in
        rw (auth, wrong) refl
    | inr other ↦ rw (other, shut) refl
  ]

  -- Before a connection has presented the token, a batch in which no AUTH frame carries it reads
  -- and changes nothing: every request is answered Unauthorized, in order, the node is as before,
  -- and the connection is still not authenticated.
  pub serve_batch-stranger :
      (times : ℕ → ℕ × ℕ) (i : ℕ) (batch : List Request) (c : Serving)
      → c.authed ≡ false
      → All (IsStranger c.node.api_key) batch
      → serve_batch hash is_utf8 times i batch c ≡ some (refusals batch c)
  unfolding serve_batch
  serve_batch-stranger times i [] c shut h = refl
  serve_batch-stranger times i (req ∷ batch) c shut h =
      rw (serve_batch, serve_request-stranger (times i) req c shut h.0)
        (serve_batch-stranger times (i + 1) batch (reply Response.unauthorized c) shut h.1)

serving_inj : {c s : Serving} → some c ≡ some s → c ≡ s
serving_inj e = cc

module _ (hash : Bytes → ℕ) (is_utf8 : Bytes → Bool) where
  answer-authed :
      (c s : Serving) (o : Option (ServedNode × Response))
      → answer hash is_utf8 c o ≡ some s
      → s.authed ≡ c.authed
  answer-authed c s none h = cc
  answer-authed c s (some (node, r)) h = ap (λ (x : Serving). x.authed) (sym (serving_inj h))

  serve_fast-authed :
      (times : ℕ × ℕ) (req : Request) (c s : Serving)
      → serve_fast hash is_utf8 times req c ≡ some s
      → s.authed ≡ c.authed
  unfolding serve_fast
  serve_fast-authed times req c s h = elim (Option-cases (cached_name hash is_utf8 req c)) [
    | inl n ↦
        let h' = rw (serve_fast, n) at h in ap (λ (x : Serving). x.authed) (sym (serving_inj h'))
    | inr (name, n) ↦
        let h' = rw (serve_fast, n) at h in
        answer-authed (record c { cached = some (req.keyspace, cached_name hash is_utf8 req c) }) s
          (serve_on hash is_utf8 times name req c.node) h'
  ]

  -- A request that leaves the connection unauthenticated changes nothing.
  serve_request-shut :
      (times : ℕ × ℕ) (req : Request) (c s : Serving)
      → serve_request hash is_utf8 times req c ≡ some s
      → s.authed ≡ false
      → (c.authed ≡ false) × (s.node ≡ c.node)
  unfolding serve_request
  serve_request-shut times req c s h shut = elim (Bool-cases (req.op == op_auth)) [
    | inl auth ↦ elim (Bool-cases (constant_time_eq req.value c.node.api_key)) [
      | inl right ↦
          let h' = rw (serve_request, auth, right) at h in
          let clash : true ≡ false = ap (λ (x : Serving). x.authed) (serving_inj h') ∙ shut in cc
      | inr wrong ↦
          let h' = rw (serve_request, auth, wrong) at h in
          let same = serving_inj h' in
          (ap (λ (x : Serving). x.authed) same ∙ shut, sym (ap (λ (x : Serving). x.node) same))
    ]
    | inr other ↦ elim (Bool-cases c.authed) [
      | inr closed ↦
          let h' = rw (serve_request, other, closed) at h in
          (closed, sym (ap (λ (x : Serving). x.node) (serving_inj h')))
      | inl admitted ↦ elim (Bool-cases (is_kv req.op && not (rejects c.node.limits req))) [
        | inl fast ↦
            let h' = rw (serve_request, other, admitted, fast) at h in
            let clash : true ≡ false =
              sym (serve_fast-authed times req (record c { authed = true }) s h') ∙ shut in
            cc
        | inr slow ↦
            let h' = rw (serve_request, other, admitted, slow) at h in
            let clash : true ≡ false =
              sym (
                answer-authed (record c { authed = true }) s
                  (dispatch hash is_utf8 times req c.node) h')
              ∙ shut in
            cc
      ]
    ]
  ]

  -- Nor does a batch of such requests.
  pub serve_batch-shut :
      (times : ℕ → ℕ × ℕ) (i : ℕ) (batch : List Request) (c s : Serving)
      → serve_batch hash is_utf8 times i batch c ≡ some s
      → s.authed ≡ false
      → (c.authed ≡ false) × (s.node ≡ c.node)
  unfolding serve_batch
  serve_batch-shut times i [] c s h shut =
      let same = serving_inj h in
      (ap (λ (x : Serving). x.authed) same ∙ shut, sym (ap (λ (x : Serving). x.node) same))
  serve_batch-shut times i (req ∷ batch) c s h shut =
      elim (Option-cases (serve_request hash is_utf8 (times i) req c)) [
        | inl n ↦ let h' = rw (serve_batch, n) at h in cc
        | inr (mid, ran) ↦
            let h' = rw (serve_batch, ran) at h in
            let (later, kept) = serve_batch-shut times (i + 1) batch mid s h' shut in
            let (before, same) = serve_request-shut (times i) req c mid ran later in
            (before, kept ∙ same)
      ]
