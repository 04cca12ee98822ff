-- ===== src/Wire/Conn/Pipeline.antt =====
-- Pipelined requests are drained in order.
use falcon_cache.Base.{
  ℕ, suc, ◌+◌, ◌^◌, ◌≡◌, ◌<◌, ◌≤◌, refl, sym, ap, ◌∙◌, Bool, Option, some, none, List, [], ◌∷◌,
  ◌++◌, length, All, arith,
}
use mathlib.Core.List.{append_assoc}
use falcon_cache.Storage.Shard.{Bytes}
use falcon_cache.Wire.Protocol.{Request, max_frame, request_frame}
use falcon_cache.Wire.Codec.{request, decode_one}
use falcon_cache.Wire.Codec.RoundTrip.{decode_one-request_frame}
use falcon_cache.Wire.Conn.{drain}

-- The request has no flags, and its fields are as long as a frame can carry.
pub record IsSendable (req : Request) : Type 0 where
  pub plain : req.flags ≡ 0
  pub keyspace : length req.keyspace < 2 ^ 16
  pub key : length req.key ≤ max_frame
  pub value : length req.value ≤ max_frame

-- The frame that `encode_request` makes of a request.
abbrev pub frame_of : Request → Bytes
frame_of req = request_frame req.op req.keyspace req.key req.value

-- The requests' frames, one after the other.
unfoldable pub frames : List Request → Bytes
frames [] = []
frames (req ∷ reqs) = frame_of req ++ frames reqs

abbrev pub prepend_one :
    Request → Option (List Request × Bytes × Bool) → Option (List Request × Bytes × Bool)
prepend_one req none = none
prepend_one req (some (batch, left, bad)) = some (req ∷ batch, left, bad)

abbrev pub prepend :
    List Request → Option (List Request × Bytes × Bool) → Option (List Request × Bytes × Bool)
prepend [] drained = drained
prepend (req ∷ reqs) drained = prepend_one req (prepend reqs drained)

pub drain-request :
    (req : Request) (room : ℕ) (buf rest : Bytes)
    → decode_one buf ≡ some (request req, rest)
    → drain (suc room) buf ≡ prepend_one req (drain room rest)
unfolding drain
drain-request req room buf rest decoded = rw (drain, decoded) refl

pub decode_one-frame_of :
    (req : Request) (rest : Bytes)
    → IsSendable req
    → decode_one (frame_of req ++ rest) ≡ some (request req, rest)
decode_one-frame_of req rest h =
    decode_one-request_frame req.op req.keyspace req.key req.value rest h.keyspace h.key h.value
    ∙ ap (λ flags. some (request (record req { flags = flags }), rest)) (sym h.plain)

decode_one-frames :
    (req : Request) (reqs : List Request) (rest : Bytes)
    → IsSendable req
    → decode_one (frames (req ∷ reqs) ++ rest) ≡ some (request req, frames reqs ++ rest)
unfolding frames
decode_one-frames req reqs rest h =
    ap decode_one (simp append_assoc) ∙ decode_one-frame_of req (frames reqs ++ rest) h

-- Draining the frames of some requests gives the requests in their order, and goes on with what
-- comes after them; the batch has room for the requests.
pub drain-frames :
    (reqs : List Request) (room : ℕ) (rest : Bytes)
    → All IsSendable reqs
    → drain (length reqs + room) (frames reqs ++ rest) ≡ prepend reqs (drain room rest)
unfolding frames
drain-frames [] room rest h = ap (λ n. drain n rest) (omega arith)
drain-frames (req ∷ reqs) room rest h =
    ap (λ n. drain n (frames (req ∷ reqs) ++ rest)) (omega arith)
    ∙ drain-request req (length reqs + room) (frames (req ∷ reqs) ++ rest) (frames reqs ++ rest)
        (decode_one-frames req reqs rest h.0)
    ∙ ap (prepend_one req) (drain-frames reqs room rest h.1)
