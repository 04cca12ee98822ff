-- ===== src/Wire/Conn/Batches.antt =====
-- Requests that are served one after the other, in parts.
use mathlib.Core.Option
use falcon_cache.Base.{
  ℕ, ◌+◌, ◌≡◌, refl, ap, ◌∙◌, Bool, true, false, Option, none, some, List, [], ◌∷◌, ◌++◌, ◌==◌, map,
  All, Option-cases, Bool-cases, inl, inr,
}
use mathlib.Core.List.{append_assoc}
use falcon_cache.Storage.Shard.{Bytes}
use falcon_cache.Core.Auth.{constant_time_eq}
use falcon_cache.Wire.Protocol.{Request, Response, op_auth, encode}
use falcon_cache.Wire.Conn.{ServedNode, Serving, reply, answer, dispatch}
use falcon_cache.Wire.Conn.Fast.{serve_plainly, serve_each, timed}

abbrev pub and_then : (Serving → Option Serving) → Option Serving → Option Serving
and_then f none = none
and_then f (some s) = f s

-- The same connection with more written before.
abbrev pub behind : Bytes → Serving → Serving
behind sent c = record c { out = sent ++ c.out }

behind-reply :
    (sent : Bytes) (r : Response) (c : Serving) → reply r (behind sent c) ≡ behind sent (reply r c)
unfolding encode
behind-reply sent r c = ap (λ out. record c { out = out }) (append_assoc sent c.out _)

module _ (hash : Bytes → ℕ) (is_utf8 : Bytes → Bool) where
  pub serve_each-append :
      (xs ys : List ((ℕ × ℕ) × Request)) (c : Serving)
      → serve_each hash is_utf8 (xs ++ ys) c
        ≡ and_then (serve_each hash is_utf8 ys) (serve_each hash is_utf8 xs c)
  unfolding serve_each
  serve_each-append [] ys c = refl
  serve_each-append ((times, req) ∷ xs) ys c =
      elim (Option-cases (serve_plainly hash is_utf8 times req c)) [
        | inl n ↦ rw (serve_each, n) refl
        | inr (after, ran) ↦ rw (serve_each, ran) (serve_each-append xs ys after)
      ]

  answer-behind :
      (sent : Bytes) (c : Serving) (o : Option (ServedNode × Response))
      → answer hash is_utf8 (behind sent c) o ≡ Option.map (behind sent) (answer hash is_utf8 c o)
  answer-behind sent c none = refl
  answer-behind sent c (some (node, r)) = ap some (behind-reply sent r (record c { node = node }))

  -- What was written before changes nothing but what has been written.
  serve_plainly-behind :
      (sent : Bytes) (times : ℕ × ℕ) (req : Request) (c : Serving)
      → serve_plainly hash is_utf8 times req (behind sent c)
        ≡ Option.map (behind sent) (serve_plainly hash is_utf8 times req c)
  unfolding serve_plainly
  serve_plainly-behind sent times req c = elim (Bool-cases (req.op == op_auth)) [
    | inl auth ↦ elim (Bool-cases (constant_time_eq req.value c.node.api_key)) [
      | inl right ↦
          rw (serve_plainly, auth, right)
            (ap some (behind-reply sent Response.ok (record c { authed = true })))
      | inr wrong ↦
          rw (serve_plainly, auth, wrong) (ap some (behind-reply sent Response.unauthorized c))
    ]
    | inr other ↦ elim (Bool-cases c.authed) [
      | inr shut ↦
          rw (serve_plainly, other, shut)
            (ap some (behind-reply sent Response.unauthorized (record c { authed = false })))
      | inl admitted ↦
          rw (serve_plainly, other, admitted)
            (answer-behind sent (record c { authed = true })
              (dispatch hash is_utf8 times req c.node))
    ]
  ]

  pub serve_each-behind :
      (sent : Bytes) (xs : List ((ℕ × ℕ) × Request)) (c : Serving)
      → serve_each hash is_utf8 xs (behind sent c)
        ≡ Option.map (behind sent) (serve_each hash is_utf8 xs c)
  unfolding serve_each
  serve_each-behind sent [] c = refl
  serve_each-behind sent ((times, req) ∷ xs) c =
      let first = serve_plainly-behind sent times req c in
      elim (Option-cases (serve_plainly hash is_utf8 times req c)) [
        | inl n ↦
            let n' : serve_plainly hash is_utf8 times req (behind sent c) ≡ none =
              first ∙ ap (Option.map (behind sent)) n in
            rw (serve_each, n, n') refl
        | inr (after, ran) ↦
            let ran' : serve_plainly hash is_utf8 times req (behind sent c)
                ≡ some (behind sent after) =
              first ∙ ap (Option.map (behind sent)) ran in
            rw (serve_each, ran, ran') (serve_each-behind sent xs after)
      ]

  -- A reading of the clock that some batch can be given.
  abbrev pub IsReading : (ℕ → ℕ → ℕ × ℕ) → (ℕ × ℕ) × Request → Type 0
  IsReading clock served = (fuel : ℕ) × (i : ℕ) × (clock fuel i ≡ served.0)

  pub timed-requests :
      (times : ℕ → ℕ × ℕ) (i : ℕ) (batch : List Request)
      → map (λ (x : (ℕ × ℕ) × Request). x.1) (timed hash is_utf8 times i batch) ≡ batch
  timed-requests times i [] = refl
  timed-requests times i (req ∷ batch) = ap (◌∷◌ req) (timed-requests times (i + 1) batch)

  pub timed-IsReading :
      (clock : ℕ → ℕ → ℕ × ℕ) (fuel i : ℕ) (batch : List Request)
      → All (IsReading clock) (timed hash is_utf8 (clock fuel) i batch)
  timed-IsReading clock fuel i [] = tt
  timed-IsReading clock fuel i (req ∷ batch) =
      ((fuel, i, refl), timed-IsReading clock fuel (i + 1) batch)
