-- ===== src/Wire/Conn/Loop.antt =====
-- `handle_conn` over the reads of a connection: each read gives some bytes, and the connection ends
-- with the last of them, as when the client closes it or the idle timeout passes. A write that
-- fails, and the sizes of buffers, are not modelled.
use falcon_cache.Base.{
  length-append, ℕ, zero, suc, ◌+◌, ◌*◌, ◌≤◌, ◌<◌, ◌≡◌, ◌≢◌, refl, sym, ap, ◌∙◌, Bool, true, false,
  Option, some, none, List, [], ◌∷◌, ◌++◌, length, length-append, arith, ◌⊎◌, Option-cases,
  Bool-cases, inl, inr, if◌then◌else◌,
}
use falcon_cache.Base.Text.{is_blank}
use falcon_cache.Storage.Shard.{Bytes}
use falcon_cache.Wire.Protocol.{Request, Response, encode}
use falcon_cache.Wire.Codec.{Decoded, partial, malformed, request, decode_one}
use falcon_cache.Wire.Codec.Progress.{Takes, decode_one-Takes}
use falcon_cache.Wire.Conn.Gate.{serve_batch-shut}
use falcon_cache.Wire.Conn.Pipeline.{prepend_one, drain-request}
use falcon_cache.Wire.Conn.{ServedNode, Serving, drain, max_batch, serve_batch}

-- A connection between turns of the loop; `sent` is what was written to it.
pub record Connection : Type 0 where
  pub node : ServedNode
  pub authed : Bool
  pub in_buf : Bytes
  pub sent : Bytes

-- A new connection: the gate is open where no token is configured.
abbrev pub opened : ServedNode → Connection
opened node = record { node = node; authed = is_blank node.api_key; in_buf = []; sent = [] }

-- How the loop ends: returned, or by a panic, or not yet when the fuel is gone.
pub data LoopEnd : Type 0 where
  returned : Connection → LoopEnd
  panicked unfinished : LoopEnd

-- The bytes of a `BadRequest` on its own.
abbrev refusal : Bytes
refusal = encode Response.bad_request []

abbrev pub serving : Connection → Serving
serving c = record { node = c.node; authed = c.authed; cached = none; out = [] }

-- The connection after a batch: what is left in the buffer, and the responses in one write.
abbrev pub after_batch : Bytes → Serving → Connection → Connection
after_batch left s c = record {
  node = s.node;
  authed = s.authed;
  in_buf = left;
  sent = c.sent ++ s.out;
}

module _ (hash : Bytes → ℕ) (is_utf8 : Bytes → Bool) where
  -- The turns of the loop. `clock` gives the readings of the clock for a batch that starts when
  -- that much fuel is left.
  unfoldable pub handle_conn : (ℕ → ℕ → ℕ × ℕ) → ℕ → List Bytes → Connection → LoopEnd
  handle_conn clock zero reads c = unfinished
  handle_conn clock (suc fuel) reads c = elim (drain max_batch c.in_buf) [
    | none ↦ panicked
    | some (batch, left, true) ↦ returned (record c { in_buf = left; sent = c.sent ++ refusal })
    | some ([], left, false) ↦ elim reads [
      | [] ↦ returned (record c { in_buf = left })
      | bytes ∷ more ↦
          if is_blank bytes
          then returned (record c { in_buf = left })
          else handle_conn clock fuel more (record c { in_buf = left ++ bytes })
    ]
    | some (req ∷ batch, left, false) ↦
        elim (serve_batch hash is_utf8 (clock fuel) 0 (req ∷ batch) (serving c)) [
          | none ↦ panicked
          | some s ↦ handle_conn clock fuel reads (after_batch left s c)
        ]
  ]

-- The bytes that are to come, and one more for every read.
unfoldable pub to_come : List Bytes → ℕ
to_come [] = 0
to_come (bytes ∷ more) = suc (length bytes + to_come more)

-- A drain takes at least twelve bytes for every request.
abbrev Drained : Bytes → Option (List Request × Bytes × Bool) → Type 0
Drained buf none = Unit
Drained buf (some (batch, left, bad)) = 12 * length batch + length left ≤ length buf

frame-lt :
    (frame rest buf : Bytes) (n : ℕ)
    → buf ≡ frame ++ rest
    → length frame ≡ 12 + n
    → 12 + length rest ≤ length buf
frame-lt frame rest buf n e long = omega (arith, ap length e, long, length-append frame rest)

Drained-prepend :
    (req : Request) (buf rest : Bytes) (o : Option (List Request × Bytes × Bool))
    → 12 + length rest ≤ length buf
    → Drained rest o
    → Drained buf (prepend_one req o)
Drained-prepend req buf rest none taken h = tt
Drained-prepend req buf rest (some (batch, left, bad)) taken h = omega (arith, taken, h)

drain-Drained : (room : ℕ) (buf : Bytes) → Drained buf (drain room buf)
unfolding drain
drain-Drained zero buf = omega arith
drain-Drained (suc room) buf =
    let (r, ran, takes) = decode_one-Takes buf in step (λ rest. drain-Drained room rest) r ran takes
  where
    step :
        ((rest : Bytes) → Drained rest (drain room rest))
        → (r : Decoded × Bytes) → decode_one buf ≡ some r
        → Takes buf r
        → Drained buf (drain (suc room) buf)
    step later (partial, rest) ran takes = rw (drain, ran) (omega (arith, ap length takes))
    step later (malformed, rest) ran takes = rw (drain, ran) (omega (arith, ap length takes))
    step later (request req, rest) ran (frame, e, long, _) =
        rw (drain-request req room buf rest ran) (
          Drained-prepend req buf rest (drain room rest)
            (frame-lt frame rest buf (length req.keyspace + length req.key + length req.value) e
              (omega (arith, long)))
            (later rest))

pub drained-lt :
    (buf : Bytes) (batch : List Request) (left : Bytes) (bad : Bool)
    → drain max_batch buf ≡ some (batch, left, bad)
    → 12 * length batch + length left ≤ length buf
drained-lt buf batch left bad e = let h = drain-Drained max_batch buf in rw e at h

pub reads_cases :
    (reads : List Bytes)
    → (reads ≡ []) ⊎ ((bytes : Bytes) × (more : List Bytes) × (reads ≡ bytes ∷ more))
reads_cases [] = inl refl
reads_cases (bytes ∷ more) = inr (bytes, more, refl)

end_cases : (e : LoopEnd) → e ≢ unfinished → (e ≡ panicked) ⊎ ((c : Connection) × (e ≡ returned c))
end_cases (returned c) h = inr (c, refl)
end_cases panicked h = inl refl
end_cases unfinished h = absurd (h refl)

module _ (hash : Bytes → ℕ) (is_utf8 : Bytes → Bool) where
  finishes :
      (clock : ℕ → ℕ → ℕ × ℕ) (fuel : ℕ) (reads : List Bytes) (c : Connection)
      → length c.in_buf + to_come reads < fuel
      → handle_conn hash is_utf8 clock fuel reads c ≢ unfinished
  unfolding handle_conn to_come
  finishes clock zero reads c h = absurd (omega (arith, h))
  finishes clock (suc fuel) reads c h = elim (Option-cases (drain max_batch c.in_buf)) [
    | inl n ↦ rw (handle_conn, n) (λ u. cc)
    | inr ((batch, left, true), e) ↦ rw (handle_conn, e) (λ u. cc)
    | inr (([], left, false), e) ↦ elim (reads_cases reads) [
      | inl n ↦ rw (handle_conn, e, n) (λ u. cc)
      | inr (bytes, more, f) ↦ elim (Bool-cases (is_blank bytes)) [
        | inl b ↦ rw (handle_conn, e, f, b) (λ u. cc)
        | inr b ↦
            let less = drained-lt c.in_buf [] left false e in
            let come : to_come reads ≡ suc (length bytes + to_come more) = rw f refl in
            rw (handle_conn, e, f, b)
              (finishes clock fuel more (record c { in_buf = left ++ bytes })
                (omega (arith, h, less, come, length-append left bytes)))
      ]
    ]
    | inr ((req ∷ batch, left, false), e) ↦
        elim (Option-cases (serve_batch hash is_utf8 (clock fuel) 0 (req ∷ batch) (serving c))) [
          | inl n ↦ rw (handle_conn, e, n) (λ u. cc)
          | inr (s, ran) ↦
              let less = drained-lt c.in_buf (req ∷ batch) left false e in
              rw (handle_conn, e, ran)
                (finishes clock fuel reads (after_batch left s c) (omega (arith, h, less)))
        ]
  ]

  -- The loop comes to an end, whatever the client sends: with more turns than there are bytes and
  -- reads to come it returns, unless an operation of the engine panics, since every batch takes
  -- bytes off the buffer and every turn without a batch takes a read.
  pub handle_conn-ends :
      (clock : ℕ → ℕ → ℕ × ℕ) (fuel : ℕ) (reads : List Bytes) (c : Connection)
      → length c.in_buf + to_come reads < fuel
      → (handle_conn hash is_utf8 clock fuel reads c ≡ panicked)
        ⊎ ((final : Connection) × (handle_conn hash is_utf8 clock fuel reads c ≡ returned final))
  handle_conn-ends clock fuel reads c h =
      end_cases (handle_conn hash is_utf8 clock fuel reads c) (finishes clock fuel reads c h)

pub returned_inj : {a b : Connection} → returned a ≡ returned b → a ≡ b
returned_inj e = cc

module _ (hash : Bytes → ℕ) (is_utf8 : Bytes → Bool) where
  same_end :
      (c d final : Connection)
      → d.authed ≡ c.authed
      → d.node ≡ c.node
      → returned d ≡ returned final
      → final.authed ≡ false
      → (c.authed ≡ false) × (final.node ≡ c.node)
  same_end c d final a n e shut =
      let same = returned_inj e in
      (
        sym a ∙ ap (λ (x : Connection). x.authed) same ∙ shut,
        sym (ap (λ (x : Connection). x.node) same) ∙ n,
      )

  -- A connection whose gate is shut at its end has changed nothing on the node, and its gate was
  -- shut from the start.
  pub handle_conn-shut :
      (clock : ℕ → ℕ → ℕ × ℕ) (fuel : ℕ) (reads : List Bytes) (c final : Connection)
      → handle_conn hash is_utf8 clock fuel reads c ≡ returned final
      → final.authed ≡ false
      → (c.authed ≡ false) × (final.node ≡ c.node)
  unfolding handle_conn
  handle_conn-shut clock zero reads c final h shut = cc
  handle_conn-shut clock (suc fuel) reads c final h shut =
      elim (Option-cases (drain max_batch c.in_buf)) [
        | inl n ↦ let h' = rw (handle_conn, n) at h in cc
        | inr ((batch, left, true), e) ↦
            let h' = rw (handle_conn, e) at h in same_end c _ final refl refl h' shut
        | inr (([], left, false), e) ↦ elim (reads_cases reads) [
          | inl n ↦ let h' = rw (handle_conn, e, n) at h in same_end c _ final refl refl h' shut
          | inr (bytes, more, f) ↦ elim (Bool-cases (is_blank bytes)) [
            | inl b ↦
                let h' = rw (handle_conn, e, f, b) at h in same_end c _ final refl refl h' shut
            | inr b ↦
                let h' = rw (handle_conn, e, f, b) at h in
                handle_conn-shut clock fuel more (record c { in_buf = left ++ bytes }) final h' shut
          ]
        ]
        | inr ((req ∷ batch, left, false), e) ↦
            elim (Option-cases
              (serve_batch hash is_utf8 (clock fuel) 0 (req ∷ batch) (serving c))) [
                | inl n ↦ let h' = rw (handle_conn, e, n) at h in cc
                | inr (s, ran) ↦
                    let h' = rw (handle_conn, e, ran) at h in
                    let (later, kept) =
                      handle_conn-shut clock fuel reads (after_batch left s c) final h' shut in
                    let (before, same) =
                      serve_batch-shut hash is_utf8 (clock fuel) 0 (req ∷ batch) (serving c) s ran
                        later in
                    (before, kept ∙ same)
              ]
      ]
