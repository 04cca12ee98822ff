-- ===== src/Api/Guard.antt =====
-- What the check of the token lets through.
use falcon_cache.Base.{
  sym, ℕ, ◌/◌, ◌%◌, ◌<◌, ◌≡◌, ◌≢◌, refl, ap, ◌∙◌, Bool, true, false, ◌==◌, Option, none, some, List,
  [], ◌∷◌, ◌++◌, Bool-cases, inl, inr, All, ◌⊎◌, arith,
}
use mathlib.Core.List.{append-nil}
use falcon_cache.Api.Credentials.{
  IsProbe, is_probe-IsProbe, IsProbe-is_probe, InHeader, InQuery, InHeader-presented,
  presented-carried,
}
use falcon_cache.Base.Text.{strip_prefix, text}
use falcon_cache.Storage.Shard.{Bytes}
use falcon_cache.Core.Auth.{constant_time_eq}
use falcon_cache.Core.Auth.Laws.{
  constant_time_eq_iff, escape_all, hex_digit, percent_bytes-escape_all,
}
use falcon_cache.Api.Rest.{ApiNode, HttpResponse, KvWrite}
use falcon_cache.Api.Router.{
  HttpRequest, admits, presented, is_probe, auth_enabled, respond, app, unauthorized, split_amp,
  find_key,
}

module _ (header_str : Bytes → Option Bytes) (lossy : Bytes → Bytes) where
  admits-false :
      (token : Bytes) (req : HttpRequest)
      → is_probe req.path ≡ false
      → presented header_str lossy req ≢ token
      → admits header_str lossy token req ≡ false
  unfolding admits
  admits-false token req unprobed other =
      elim (Bool-cases (constant_time_eq (presented header_str lossy req) token)) [
        | inl same ↦
            absurd (other ((constant_time_eq_iff (presented header_str lossy req) token).0 same))
        | inr h ↦ rw (unprobed) h
      ]

  admits-true :
      (token : Bytes) (req : HttpRequest)
      → (is_probe req.path ≡ true) ⊎ (presented header_str lossy req ≡ token)
      → admits header_str lossy token req ≡ true
  unfolding admits
  admits-true token req (inl probed) = rw probed refl
  admits-true token req (inr same) =
      let h = (constant_time_eq_iff (presented header_str lossy req) token).1 same in
      elim (Bool-cases (is_probe req.path)) [
        | inl probed ↦ rw probed refl
        | inr unprobed ↦ rw (unprobed) h
      ]

module _ (hash : Bytes → ℕ) (is_utf8 : Bytes → Bool) (header_str : Bytes → Option Bytes)
    (lossy : Bytes → Bytes) (extract_json : Option ℕ → HttpRequest → HttpResponse ⊎ KvWrite)
    (extract_query : HttpRequest → HttpResponse ⊎ List (Bytes × Bytes))
    (unrouted : HttpRequest → HttpResponse) where
  -- How a node with a token answers a request: its handler does, or it is turned away.
  pub data Guarded (times : ℕ × ℕ) (req : HttpRequest) (node : ApiNode)
      : Option (ApiNode × HttpResponse) → Type 0 where
    handled :
        IsProbe req.path
          ⊎ (InHeader header_str lossy req node.api_key ⊎ InQuery header_str lossy req node.api_key)
        → Guarded times req node (
            respond hash is_utf8 header_str lossy extract_json extract_query unrouted times req
              node)
    turned_away :
        ¬ IsProbe req.path
        → ¬ InHeader header_str lossy req node.api_key
        → presented header_str lossy req ≢ node.api_key
        → Guarded times req node (some (node, unauthorized))

  app-admits :
      (times : ℕ × ℕ) (req : HttpRequest) (node : ApiNode)
      → auth_enabled node ≡ true
      → admits header_str lossy node.api_key req ≡ true
      → app hash is_utf8 header_str lossy extract_json extract_query unrouted times req node
        ≡ respond hash is_utf8 header_str lossy extract_json extract_query unrouted times req node
  unfolding app
  app-admits times req node on admitted = rw (app, on, admitted) refl

  -- A request that presents the token reaches its handler.
  pub app-presented :
      (times : ℕ × ℕ) (req : HttpRequest) (node : ApiNode)
      → auth_enabled node ≡ true
      → presented header_str lossy req ≡ node.api_key
      → app hash is_utf8 header_str lossy extract_json extract_query unrouted times req node
        ≡ respond hash is_utf8 header_str lossy extract_json extract_query unrouted times req node
  app-presented times req node on same =
      app-admits times req node on (admits-true header_str lossy node.api_key req (inr same))

  -- With a token configured, a request is handled only if it is for one of the three probes, or has
  -- the token in its Authorization header, or has it as `api_key` in its query. Any other request
  -- is answered 401 and leaves the node as it is, and this befalls no probe and no request with the
  -- token in its header, nor one that presents the token.
  pub app-Guarded :
      (times : ℕ × ℕ) (req : HttpRequest) (node : ApiNode)
      → auth_enabled node ≡ true
      → Guarded times req node
          (app hash is_utf8 header_str lossy extract_json extract_query unrouted times req node)
  unfolding app
  app-Guarded times req node on = elim (Bool-cases (is_probe req.path)) [
    | inl probed ↦
        rw
          (app-admits times req node on
            (admits-true header_str lossy node.api_key req (inl probed)))
          (handled (inl (is_probe-IsProbe req.path probed)))
    | inr unprobed ↦
        elim (Bool-cases (constant_time_eq (presented header_str lossy req) node.api_key)) [
          | inl right ↦
              let same =
                (constant_time_eq_iff (presented header_str lossy req) node.api_key).0 right in
              rw (app-presented times req node on same) (
                handled (
                  inr (
                    presented-carried header_str lossy req node.api_key (ground (arith, on)) same)))
          | inr wrong ↦
              let other : presented header_str lossy req ≢ node.api_key = λ same.
                (let clash =
                    sym
                      ((constant_time_eq_iff (presented header_str lossy req) node.api_key).1 same)
                    ∙ wrong in
                  cc) in
              rw (app, on, admits-false header_str lossy node.api_key req unprobed other)
                (turned_away (λ p. (let clash = sym (IsProbe-is_probe req.path p) ∙ unprobed in cc))
                  (λ carried. other (InHeader-presented header_str lossy req node.api_key carried))
                  other)
        ]
  ]

abbrev IsUnsplit : ℕ → Type 0
IsUnsplit c = (c == 38) ≡ false

split_amp-one : (xs : Bytes) → All IsUnsplit xs → split_amp xs ≡ xs ∷ []
unfolding split_amp
split_amp-one [] h = refl
split_amp-one (c ∷ xs) h = rw (h.0, split_amp-one xs h.1) refl

split_amp-append :
    (xs ys : Bytes) → All IsUnsplit xs → split_amp (xs ++ (38 ∷ ys)) ≡ xs ∷ split_amp ys
unfolding split_amp
split_amp-append [] ys h = refl
split_amp-append (c ∷ xs) ys h = rw (h.0, split_amp-append xs ys h.1) refl

hex_digit-IsUnsplit : (n : ℕ) → n < 16 → IsUnsplit (hex_digit n)
hex_digit-IsUnsplit n h = ground arith

escape_all-IsUnsplit : (key : Bytes) → All (λ b. b < 256) key → All IsUnsplit (escape_all key)
unfolding escape_all
escape_all-IsUnsplit [] h = tt
escape_all-IsUnsplit (b ∷ key) h = (
  refl,
  (
    hex_digit-IsUnsplit (b / 16) (omega (arith, h.0)),
    (hex_digit-IsUnsplit (b % 16) (omega arith), escape_all-IsUnsplit key h.1),
  ),
)

-- The further parameters of a query, if there are any.
abbrev pub more : Option Bytes → Bytes
more none = []
more (some t) = 38 ∷ t

-- The query parameter that carries a token.
abbrev key_part : Bytes → Bytes
key_part t = text "api_key=" ++ t

key_part-IsUnsplit : (t : Bytes) → All IsUnsplit t → All IsUnsplit (key_part t)
key_part-IsUnsplit t h = (refl, (refl, (refl, (refl, (refl, (refl, (refl, (refl, h))))))))

find_key-part : (t : Bytes) (parts : List Bytes) → find_key (key_part t ∷ parts) ≡ some t
unfolding find_key strip_prefix
find_key-part t parts = refl

find_key-split :
    (t : Bytes) (tail : Option Bytes)
    → All IsUnsplit t
    → find_key (split_amp (key_part t ++ more tail)) ≡ some t
find_key-split t none h =
    ap (λ q. find_key (split_amp q)) (append-nil (key_part t))
    ∙ ap find_key (split_amp-one (key_part t) (key_part-IsUnsplit t h))
    ∙ find_key-part t []
find_key-split t (some rest) h =
    ap find_key (split_amp-append (key_part t) rest (key_part-IsUnsplit t h))
    ∙ find_key-part t (split_amp rest)

module _ (header_str : Bytes → Option Bytes) (lossy : Bytes → Bytes) where
  presented-escaped :
      (key : Bytes) (tail : Option Bytes) (req : HttpRequest)
      → All (λ b. b < 256) key
      → req.authorization ≡ none
      → req.query ≡ some (key_part (escape_all key) ++ more tail)
      → presented header_str lossy req ≡ lossy key
  unfolding presented
  presented-escaped key tail req bytes headless asked =
      rw
        (
          presented,
          headless,
          asked,
          find_key-split (escape_all key) tail (escape_all-IsUnsplit key bytes),
          percent_bytes-escape_all key bytes,
        )
        refl

  -- A client that cannot set headers gets in with the token as the first parameter of the query,
  -- every byte of it escaped, whatever the bytes of the token are, if they are those of a string.
  pub admits-escape_all :
      (key : Bytes) (tail : Option Bytes) (req : HttpRequest)
      → All (λ b. b < 256) key
      → lossy key ≡ key
      → req.authorization ≡ none
      → req.query ≡ some (key_part (escape_all key) ++ more tail)
      → admits header_str lossy key req ≡ true
  admits-escape_all key tail req bytes string headless asked =
      admits-true header_str lossy key req
        (inr (presented-escaped key tail req bytes headless asked ∙ string))
