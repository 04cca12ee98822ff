-- ===== src/Wire/Conn/Memo.antt =====
-- The fast path of the connection loop on one request, against `dispatch`.
use falcon_cache.Base.{
  ℕ, ◌≡◌, ◌≢◌, refl, sym, ap, ◌∙◌, Bool, true, false, Option, none, some, ◌==◌, arith, Option-cases,
  Bool-cases, inl, inr,
}
use falcon_cache.Base.Equality.{byte_string_eq, bytes_eq}
use falcon_cache.Storage.Table.{get as find, put as replace}
use falcon_cache.Storage.Table.Laws.{get-put}
use falcon_cache.Storage.Shard.{Bytes}
use falcon_cache.Core.Keyspace.{Keyspace}
use falcon_cache.Wire.Protocol.{Request, Response, op_ping}
use falcon_cache.Wire.Conn.{
  ServedNode, Serving, reply, default_keyspace, is_kv, rejects, name_str, resolve, cached_name,
  answer, dispatch_kv_on, serve_on, dispatch_kv, dispatch, serve_fast,
}

outcome_inj : {a b : ServedNode × Response} → some a ≡ some b → a ≡ b
outcome_inj e = cc

abbrev pub uncached : Serving → Serving
uncached c = record c { cached = none }

module _ (hash : Bytes → ℕ) (is_utf8 : Bytes → Bool) where
  -- The keyspace field is empty or UTF-8.
  abbrev pub IsNamed : Request → Type 0
  IsNamed req = name_str hash is_utf8 req.keyspace default_keyspace ≢ none

  -- What is remembered is what the node would be asked for.
  abbrev pub IsMemo : ServedNode → Option (Bytes × Option Bytes) → Type 0
  IsMemo node none = Unit
  IsMemo node (some (field, name)) = name ≡ resolve hash is_utf8 field node

  -- The same outcome, but for what is remembered.
  abbrev pub Follows : Option Serving → Option Serving → Type 0
  Follows none plain = plain ≡ none
  Follows (some s) plain = (plain ≡ some (uncached s)) × IsMemo s.node s.cached

  put-resolve :
      (field name : Bytes) (ks changed : Keyspace) (node : ServedNode)
      → find name node.keyspaces ≡ some ks
      → resolve hash is_utf8 field (record node { keyspaces = replace name changed node.keyspaces })
        ≡ resolve hash is_utf8 field node
  put-resolve field name ks changed node e =
      elim (Option-cases (name_str hash is_utf8 field default_keyspace)) [
        | inl n ↦ rw (resolve, n) refl
        | inr (asked, n) ↦ elim (Bool-cases (bytes_eq name asked)) [
          | inl same ↦
              let e' : find asked node.keyspaces ≡ some ks =
                ap (λ x. find x node.keyspaces) (sym ((byte_string_eq.beq_iff name asked).0 same))
                ∙ e in
              rw (resolve, n, get-put name asked changed node.keyspaces, same, e') refl
          | inr other ↦ rw (resolve, n, get-put name asked changed node.keyspaces, other) refl
        ]
      ]

  serve_on-resolve :
      (times : ℕ × ℕ) (name field : Bytes) (req : Request) (node after : ServedNode) (r : Response)
      → serve_on hash is_utf8 times name req node ≡ some (after, r)
      → resolve hash is_utf8 field after ≡ resolve hash is_utf8 field node
  unfolding serve_on
  serve_on-resolve times name field req node after r h =
      elim (Option-cases (find name node.keyspaces)) [
        | inl n ↦
            let h' = rw (serve_on, n) at h in
            ap (λ (x : ServedNode × Response). resolve hash is_utf8 field x.0)
              (sym (outcome_inj h'))
        | inr (ks, e) ↦ elim (Option-cases (dispatch_kv_on hash is_utf8 times ks req)) [
          | inl n ↦ let h' = rw (serve_on, e, n) at h in cc
          | inr ((changed, r2), d) ↦
              let h' = rw (serve_on, e, d) at h in
              ap (λ (x : ServedNode × Response). resolve hash is_utf8 field x.0)
                (sym (outcome_inj h'))
              ∙ put-resolve field name ks changed node e
        ]
      ]

  dispatch-resolve :
      (times : ℕ × ℕ) (field : Bytes) (req : Request) (node after : ServedNode) (r : Response)
      → dispatch hash is_utf8 times req node ≡ some (after, r)
      → resolve hash is_utf8 field after ≡ resolve hash is_utf8 field node
  unfolding dispatch dispatch_kv
  dispatch-resolve times field req node after r h = elim (Bool-cases (rejects node.limits req)) [
    | inl big ↦ let h' = rw (dispatch, big) at h in same h'
    | inr fits ↦ elim (Bool-cases (req.op == op_ping)) [
      | inl ping ↦ let h' = rw (dispatch, fits, ping) at h in same h'
      | inr other ↦ elim (Bool-cases (is_kv req.op)) [
        | inr strange ↦ let h' = rw (dispatch, fits, other, strange) at h in same h'
        | inl kv ↦ elim (Option-cases (name_str hash is_utf8 req.keyspace default_keyspace)) [
          | inl n ↦ let h' = rw (dispatch, fits, other, kv, dispatch_kv, n) at h in same h'
          | inr (name, n) ↦
              let h' = rw (dispatch, fits, other, kv, dispatch_kv, n) at h in
              serve_on-resolve times name field req node after r h'
        ]
      ]
    ]
  ]
    where
      same :
          {r2 : Response}
          → ◌≡◌ {A = Option (ServedNode × Response)} (some (node, r2)) (some (after, r))
          → resolve hash is_utf8 field after ≡ resolve hash is_utf8 field node
      same e =
          ap (λ (x : ServedNode × Response). resolve hash is_utf8 field x.0) (sym (outcome_inj e))

  cached_name-resolve :
      (req : Request) (c : Serving)
      → IsMemo c.node c.cached
      → cached_name hash is_utf8 req c ≡ resolve hash is_utf8 req.keyspace c.node
  cached_name-resolve req c memo = go c.cached memo
    where
      go :
          (o : Option (Bytes × Option Bytes))
          → IsMemo c.node o
          → cached_name hash is_utf8 req (record c { cached = o })
            ≡ resolve hash is_utf8 req.keyspace c.node
      go none m = refl
      go (some (field, name)) m = elim (Bool-cases (bytes_eq field req.keyspace)) [
        | inl same ↦
            rw (cached_name, same)
              (m
                ∙ ap (λ f. resolve hash is_utf8 f c.node)
                    ((byte_string_eq.beq_iff field req.keyspace).0 same))
        | inr other ↦ rw (cached_name, other) refl
      ]

  dispatch-serve_on :
      (times : ℕ × ℕ) (req : Request) (node : ServedNode) (name : Bytes)
      → is_kv req.op ≡ true
      → rejects node.limits req ≡ false
      → name_str hash is_utf8 req.keyspace default_keyspace ≡ some name
      → dispatch hash is_utf8 times req node ≡ serve_on hash is_utf8 times name req node
  unfolding dispatch dispatch_kv
  dispatch-serve_on times req node name kv fits n =
      let other : (req.op == op_ping) ≡ false = ground (arith, kv) in
      rw (dispatch, fits, other, kv, dispatch_kv, n) refl

  serve_fast-answer :
      (times : ℕ × ℕ) (req : Request) (c : Serving) (name : Bytes)
      → cached_name hash is_utf8 req c ≡ some name
      → serve_fast hash is_utf8 times req c
        ≡ answer hash is_utf8
            (record c { cached = some (req.keyspace, some name) })
            (serve_on hash is_utf8 times name req c.node)
  unfolding serve_fast
  serve_fast-answer times req c name n = rw (serve_fast, n, n) refl

  serve_fast-unknown :
      (times : ℕ × ℕ) (req : Request) (c : Serving)
      → cached_name hash is_utf8 req c ≡ none
      → serve_fast hash is_utf8 times req c
        ≡ some (reply Response.unknown_keyspace (record c { cached = some (req.keyspace, none) }))
  unfolding serve_fast
  serve_fast-unknown times req c n = rw (serve_fast, n, n) refl

  pub answer-Follows :
      (memo : Option (Bytes × Option Bytes)) (c : Serving) (o : Option (ServedNode × Response))
      → ((after : ServedNode) (r : Response)
          → ◌≡◌ {A = Option (ServedNode × Response)} o (some (after, r))
          → IsMemo after memo)
      → Follows
          (answer hash is_utf8 (record c { cached = memo }) o)
          (answer hash is_utf8 (uncached c) o)
  answer-Follows memo c none kept = refl
  answer-Follows memo c (some (after, r)) kept = (refl, kept after r refl)

  serve_on-unknown :
      (times : ℕ × ℕ) (name : Bytes) (req : Request) (node : ServedNode)
      → find name node.keyspaces ≡ none
      → serve_on hash is_utf8 times name req node ≡ some (node, Response.unknown_keyspace)
  unfolding serve_on
  serve_on-unknown times name req node absent = rw (serve_on, absent) refl

  -- On an admitted request within the limits the two paths agree.
  pub serve_fast-dispatch :
      (times : ℕ × ℕ) (req : Request) (c : Serving)
      → IsNamed req
      → IsMemo c.node c.cached
      → is_kv req.op ≡ true
      → rejects c.node.limits req ≡ false
      → Follows
          (serve_fast hash is_utf8 times req c)
          (answer hash is_utf8 (uncached c) (dispatch hash is_utf8 times req c.node))
  serve_fast-dispatch times req c named memo kv fits =
      elim (Option-cases (name_str hash is_utf8 req.keyspace default_keyspace)) [
        | inl n ↦ absurd (named n)
        | inr (name, n) ↦ rw (dispatch-serve_on times req c.node name kv fits n) (served name n)
      ]
    where
      served :
          (name : Bytes)
          → name_str hash is_utf8 req.keyspace default_keyspace ≡ some name
          → Follows
              (serve_fast hash is_utf8 times req c)
              (answer hash is_utf8 (uncached c) (serve_on hash is_utf8 times name req c.node))
      served name n = elim (Option-cases (find name c.node.keyspaces)) [
        | inl absent ↦
            let gone : resolve hash is_utf8 req.keyspace c.node ≡ none =
              rw (resolve, n, absent) refl in
            rw
              (
                serve_fast-unknown times req c (cached_name-resolve req c memo ∙ gone),
                serve_on-unknown times name req c.node absent,
              )
              (refl, sym gone)
        | inr (ks, held) ↦
            let there : resolve hash is_utf8 req.keyspace c.node ≡ some name =
              rw (resolve, n, held) refl in
            rw (serve_fast-answer times req c name (cached_name-resolve req c memo ∙ there)) (
              answer-Follows (some (req.keyspace, some name)) c
                (serve_on hash is_utf8 times name req c.node)
                (λ after r ran.
                  sym (serve_on-resolve times name req.keyspace req c.node after r ran ∙ there)))
      ]

  pub IsMemo-dispatch :
      (memo : Option (Bytes × Option Bytes)) (times : ℕ × ℕ) (req : Request)
      (node after : ServedNode) (r : Response)
      → IsMemo node memo
      → dispatch hash is_utf8 times req node ≡ some (after, r)
      → IsMemo after memo
  IsMemo-dispatch none times req node after r h ran = tt
  IsMemo-dispatch (some (field, name)) times req node after r h ran =
      h ∙ sym (dispatch-resolve times field req node after r ran)
