-- ===== src/Wire/Conn/Stranger.antt =====
-- What a client gets that does not know the token, whatever bytes it sends.
use falcon_cache.Base.{
  ℕ, zero, suc, ◌≡◌, ◌≢◌, refl, sym, ap, ◌∙◌, Bool, true, false, Option, some, none, List, [], ◌∷◌,
  ◌++◌, All, Option-cases, Bool-cases, inl, inr,
}
use mathlib.Core.List.{append_assoc}
use falcon_cache.Base.Text.{is_blank}
use falcon_cache.Storage.Shard.{Bytes}
use falcon_cache.Wire.Protocol.{Request, Response}
use falcon_cache.Wire.Codec.{Decoded, partial, malformed, request, decode_one}
use falcon_cache.Wire.Codec.Progress.{Takes, decode_one-Takes}
use falcon_cache.Wire.Conn.{Serving, reply, drain, max_batch}
use falcon_cache.Wire.Conn.Pipeline.{prepend_one, drain-request}
use falcon_cache.Wire.Conn.Gate.{IsStranger, refusals, serve_batch-stranger}
use falcon_cache.Wire.Conn.Loop.{
  Connection, serving, after_batch, returned, handle_conn, reads_cases, returned_inj,
}
use falcon_cache.Wire.Conn.Resplit.{joined}

-- The bytes `t` are somewhere in `xs`.
abbrev pub Occurs : Bytes → Bytes → Type 0
Occurs t xs = (before after : Bytes) × (xs ≡ before ++ (t ++ after))

Occurs-before : (t xs ys : Bytes) → Occurs t xs → Occurs t (xs ++ ys)
Occurs-before t xs ys (before, after, e) = (before, after ++ ys, rw e (simp append_assoc))

Occurs-after : (t xs ys : Bytes) → Occurs t ys → Occurs t (xs ++ ys)
Occurs-after t xs ys (before, after, e) = (xs ++ before, after, rw e (simp append_assoc))

-- What a drain takes is in the buffer, and what it leaves is the buffer's end.
abbrev Given : Bytes → Option (List Request × Bytes × Bool) → Type 0
Given buf none = Unit
Given buf (some (batch, left, bad)) =
    ((front : Bytes) × (buf ≡ front ++ left)) × All (λ req. Occurs (req.value) buf) batch

later_Occurs :
    (buf frame rest : Bytes) (batch : List Request)
    → buf ≡ frame ++ rest
    → All (λ req. Occurs (req.value) rest) batch
    → All (λ req. Occurs (req.value) buf) batch
later_Occurs buf frame rest [] e h = tt
later_Occurs buf frame rest (req ∷ batch) e h =
    (rw e (Occurs-after (req.value) frame rest h.0), later_Occurs buf frame rest batch e h.1)

Given-prepend :
    (req : Request) (buf frame rest front : Bytes) (o : Option (List Request × Bytes × Bool))
    → buf ≡ frame ++ rest
    → frame ≡ front ++ req.value
    → Given rest o
    → Given buf (prepend_one req o)
Given-prepend req buf frame rest front none e f h = tt
Given-prepend req buf frame rest front (some (batch, left, bad)) e f ((skipped, g), h) = (
  (frame ++ skipped, rw (e, g) (simp append_assoc)),
  (
    (front, rest, e ∙ rw f (append_assoc front req.value rest)),
    later_Occurs buf frame rest batch e h,
  ),
)

drain-Given : (room : ℕ) (buf : Bytes) → Given buf (drain room buf)
unfolding drain
drain-Given zero buf = (([], refl), tt)
drain-Given (suc room) buf =
    let (r, ran, takes) = decode_one-Takes buf in step (λ rest. drain-Given room rest) r ran takes
  where
    step :
        ((rest : Bytes) → Given rest (drain room rest))
        → (r : Decoded × Bytes) → decode_one buf ≡ some r
        → Takes buf r
        → Given buf (drain (suc room) buf)
    step later (partial, rest) ran takes = rw (drain, ran) (([], sym takes), tt)
    step later (malformed, rest) ran takes = rw (drain, ran) (([], sym takes), tt)
    step later (request req, rest) ran (frame, e, _, (front, f)) =
        rw (drain-request req room buf rest ran)
          (Given-prepend req buf frame rest front (drain room rest) e f (later rest))

given :
    (buf : Bytes) (batch : List Request) (left : Bytes) (bad : Bool)
    → drain max_batch buf ≡ some (batch, left, bad)
    → Given buf (some (batch, left, bad))
given buf batch left bad e = let h = drain-Given max_batch buf in rw e at h

strangers :
    (token buf more : Bytes) (batch : List Request)
    → ((before after : Bytes) → buf ++ more ≢ before ++ (token ++ after))
    → All (λ req. Occurs (req.value) buf) batch
    → All (IsStranger token) batch
strangers token buf more [] unknown h = tt
strangers token buf more (req ∷ batch) unknown h = (
  λ auth same.
      (let (before, after, e) = Occurs-before (req.value) buf more h.0 in
        unknown before after (e ∙ ap (λ t. before ++ (t ++ after)) same)),
  strangers token buf more batch unknown h.1,
)

-- Nor is the token in what is left.
left_unknown :
    (token buf left more : Bytes)
    → ((front : Bytes) × (buf ≡ front ++ left))
    → ((before after : Bytes) → buf ++ more ≢ before ++ (token ++ after))
    → (before after : Bytes) → left ++ more ≢ before ++ (token ++ after)
left_unknown token buf left more (front, e) unknown before after f =
    let (b, a, g) = Occurs-after token front (left ++ more) (before, after, f) in
    unknown b a (ap (λ xs. xs ++ more) e ∙ append_assoc front left more ∙ g)

refusals-rest :
    (batch : List Request) (c : Serving)
    → ((refusals batch c).node ≡ c.node) × ((refusals batch c).authed ≡ c.authed)
refusals-rest [] c = (refl, refl)
refusals-rest (req ∷ batch) c = refusals-rest batch (reply Response.unauthorized c)

served_inj : {c s : Serving} → some c ≡ some s → c ≡ s
served_inj e = cc

module _ (hash : Bytes → ℕ) (is_utf8 : Bytes → Bool) where
  -- Without the token there is no way in: when a connection returns that was not authenticated, and
  -- whose client sent bytes in which the node's token does not occur anywhere, it is still not
  -- authenticated and has changed nothing on the node, whatever was sent and however the bytes were
  -- split into reads.
  pub handle_conn-stranger :
      (clock : ℕ → ℕ → ℕ × ℕ) (fuel : ℕ) (reads : List Bytes) (c final : Connection)
      → c.authed ≡ false
      → ((before after : Bytes) → c.in_buf ++ joined reads ≢ before ++ (c.node.api_key ++ after))
      → handle_conn hash is_utf8 clock fuel reads c ≡ returned final
      → (final.authed ≡ false) × (final.node ≡ c.node)
  unfolding handle_conn
  handle_conn-stranger clock zero reads c final shut unknown h = cc
  handle_conn-stranger clock (suc fuel) reads c final shut unknown h =
      elim (Option-cases (drain max_batch c.in_buf)) [
        | inl n ↦ let h' = rw (handle_conn, n) at h in cc
        | inr ((batch, left, true), e) ↦
            let h' = rw (handle_conn, e) at h in stays c _ final refl refl shut h'
        | inr (([], left, false), e) ↦ elim (reads_cases reads) [
          | inl n ↦ let h' = rw (handle_conn, e, n) at h in stays c _ final refl refl shut h'
          | inr (bytes, more, f) ↦ elim (Bool-cases (is_blank bytes)) [
            | inl b ↦ let h' = rw (handle_conn, e, f, b) at h in stays c _ final refl refl shut h'
            | inr b ↦
                let h' = rw (handle_conn, e, f, b) at h in
                let unknown' = rw f at unknown in
                handle_conn-stranger clock fuel more (record c { in_buf = left ++ bytes }) final
                  shut
                  (λ before after g.
                    left_unknown c.node.api_key c.in_buf left (bytes ++ joined more)
                      (given c.in_buf [] left false e).0 unknown' before after
                      (sym (append_assoc left bytes (joined more)) ∙ g))
                  h'
          ]
        ]
        | inr ((req ∷ batch, left, false), e) ↦
            let (ends, values) = given c.in_buf (req ∷ batch) left false e in
            let ran =
              serve_batch-stranger hash is_utf8 (clock fuel) 0 (req ∷ batch) (serving c) shut
                (strangers c.node.api_key c.in_buf (joined reads) (req ∷ batch) unknown values) in
            let s = refusals (req ∷ batch) (serving c) in
            let (node, authed) = refusals-rest (req ∷ batch) (serving c) in
            let h' = rw (handle_conn, e, ran) at h in
            let later = left_unknown c.node.api_key c.in_buf left (joined reads) ends unknown in
            let (still, same) =
              handle_conn-stranger clock fuel reads (after_batch left s c) final (authed ∙ shut)
                (rw node later) h' in
            (still, same ∙ node)
      ]
    where
      stays :
          (c d final : Connection)
          → d.authed ≡ c.authed
          → d.node ≡ c.node
          → c.authed ≡ false
          → returned d ≡ returned final
          → (final.authed ≡ false) × (final.node ≡ c.node)
      stays c d final a n shut e =
          let same = returned_inj e in
          (
            ap (λ (x : Connection). x.authed) (sym same) ∙ a ∙ shut,
            ap (λ (x : Connection). x.node) (sym same) ∙ n,
          )
