-- ===== src/Wire/Conn/Arrival.antt =====
-- Draining what has arrived of the frames of some requests.
use falcon_cache.Base.{
  ℕ, zero, suc, ◌+◌, ◌≤◌, ◌<◌, ◌≡◌, ◌≢◌, refl, ap, ◌∙◌, Bool, true, false, Option, some, List, [],
  ◌∷◌, ◌++◌, length, length-append, All, arith, ltb, Bool-cases, inl, inr, drop,
}
use falcon_cache.Storage.Shard.{Bytes}
use falcon_cache.Wire.Protocol.{Request, request_frame, u32_le}
use falcon_cache.Wire.Codec.{partial, request, decode_one}
use falcon_cache.Wire.Codec.Prefix.{decode_one-prefix}
use falcon_cache.Wire.Conn.Pipeline.{
  IsSendable, frames, prepend_one, drain-request, frame_of, decode_one-frame_of,
}
use falcon_cache.Wire.Conn.{drain}

length-frame_of :
    (req : Request)
    → length (frame_of req) ≡ 12 + length req.keyspace + length req.key + length req.value
unfolding request_frame
length-frame_of req = omega (
  arith,
  length-append req.keyspace
      (u32_le (length req.key) ++ (req.key ++ (u32_le (length req.value) ++ req.value))),
  length-append req.key (u32_le (length req.value) ++ req.value),
)

-- A part of the frames of `reqs` has come, and `wanted` is what is still to come: the drain gave the
-- first requests, and left the front of the others' frames. If nothing is wanted then it gives a
-- request unless there is none.
pub record IsDrained (room : ℕ) (wanted : Bytes) (reqs batch : List Request) (left : Bytes)
    : Type 0 where
  pub later : List Request
  pub order : reqs ≡ batch ++ later
  pub front : left ++ wanted ≡ frames later
  pub all_come : 0 < room → batch ≡ [] → wanted ≡ [] → later ≡ []

append_nil_inv : (xs ys : Bytes) → xs ++ ys ≡ [] → (xs ≡ []) × (ys ≡ [])
append_nil_inv [] ys h = (refl, h)
append_nil_inv (x ∷ xs) ys h = cc

-- A list that is longer than another's front starts with it.
pub split_at :
    (xs ys us vs : Bytes)
    → xs ++ ys ≡ us ++ vs
    → length us ≤ length xs
    → (xs ≡ us ++ drop (length us) xs) × (drop (length us) xs ++ ys ≡ vs)
split_at xs ys [] vs h long = (refl, h)
split_at [] ys (u ∷ us) vs h long = absurd (omega (arith, long))
split_at (x ∷ xs) ys (u ∷ us) vs h long =
    let same : x ≡ u = cc in
    let tails : xs ++ ys ≡ us ++ vs = cc in
    let rest = split_at xs ys us vs tails (omega (arith, long)) in
    (rw same (ap (◌∷◌ u) rest.0), rest.1)

abbrev pub Outcome : ℕ → Bytes → List Request → Option (List Request × Bytes × Bool) → Type 0
Outcome room wanted reqs o =
    (batch : List Request) × (left : Bytes) × (o ≡ some (batch, left, false))
    × IsDrained room wanted reqs batch left

-- One frame more in front.
Outcome-prepend :
    (room : ℕ) (req : Request) (wanted : Bytes) (reqs : List Request)
    (o : Option (List Request × Bytes × Bool))
    → Outcome room wanted reqs o
    → Outcome (suc room) wanted (req ∷ reqs) (prepend_one req o)
Outcome-prepend room req wanted reqs o (batch, left, ran, drained) = (
  req ∷ batch,
  left,
  ap (prepend_one req) ran,
  record {
    later = drained.later;
    order = ap (◌∷◌ req) drained.order;
    front = drained.front;
    all_come = λ _ none_drained. cc;
  },
)

drain-partial :
    (room : ℕ) (come : Bytes)
    → decode_one come ≡ some (partial, come)
    → drain (suc room) come ≡ some ([], come, false)
unfolding drain
drain-partial room come waits = rw (drain, waits) refl

drain-none : (come : Bytes) → drain 0 come ≡ some ([], come, false)
unfolding drain
drain-none come = refl

-- Part of a frame, and nothing after it.
cut_short :
    (come wanted rest : Bytes) (req : Request)
    → come ++ wanted ≡ frame_of req ++ rest
    → ltb (length come) (length (frame_of req)) ≡ true
    → wanted ≢ []
cut_short come wanted rest req split short over = ground (
  arith,
  short,
  ap length split,
  length-append come wanted,
  ap length over,
  length-append (frame_of req) rest,
)

-- However much of some requests' frames has come, a drain takes a first part of the requests, in
-- order, and leaves the front of the frames of the others; where all has come and it has room, it
-- takes at least one.
pub drain-arrived :
    (room : ℕ) (come wanted : Bytes) (reqs : List Request)
    → All IsSendable reqs
    → come ++ wanted ≡ frames reqs
    → Outcome room wanted reqs (drain room come)
unfolding frames decode_one
drain-arrived zero come wanted reqs sendable split = (
  [],
  come,
  drain-none come,
  record { later = reqs; order = refl; front = split; all_come = λ h. absurd (omega (arith, h)) },
)
drain-arrived (suc room) come wanted [] sendable split =
    let (nothing, more) = append_nil_inv come wanted split in
    (
      [],
      come,
      drain-partial room come (rw nothing refl),
      record { later = []; order = refl; front = split; all_come = λ _ _ _. refl },
    )
drain-arrived (suc room) come wanted (req ∷ reqs) sendable split =
    elim (Bool-cases (ltb (length come) (length (frame_of req)))) [
      | inl short ↦ (
        [],
        come,
        drain-partial room come (
            decode_one-prefix req.op req.keyspace req.key req.value (frames reqs) come wanted split
              sendable.0.keyspace sendable.0.key sendable.0.value
              (ground (arith, short, length-frame_of req))),
        record {
          later = req ∷ reqs;
          order = refl;
          front = split;
          all_come = λ _ _ over. absurd (cut_short come wanted (frames reqs) req split short over);
        },
      )
      | inr full ↦
          let (front, tail) =
            split_at come wanted (frame_of req) (frames reqs) split (ground (arith, full)) in
          let rest = drop (length (frame_of req)) come in
          let took : decode_one come ≡ some (request req, rest) =
            ap decode_one front ∙ decode_one-frame_of req rest sendable.0 in
          rw (drain-request req room come rest took) (
            Outcome-prepend room req wanted reqs (drain room rest)
              (drain-arrived room rest wanted reqs sendable.1 tail))
    ]
