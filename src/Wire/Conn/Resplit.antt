-- ===== src/Wire/Conn/Resplit.antt =====
-- `handle_conn` against serving the requests one by one: the reads and the batches leave no trace.
use falcon_cache.Base.{
  ℕ, zero, suc, ◌+◌, ◌<◌, ◌≡◌, refl, sym, ap, ◌∙◌, Bool, false, some, List, [], ◌∷◌, ◌++◌, All,
  All-of_append, length, length-append, arith, Option-cases, inl, inr,
}
use mathlib.Core.List.{append_assoc, append-nil}
use falcon_cache.Base.Text.{is_blank}
use falcon_cache.Storage.Shard.{Bytes}
use falcon_cache.Wire.Protocol.{Request}
use falcon_cache.Wire.Conn.{ServedNode, Serving, drain, max_batch, serve_batch}
use falcon_cache.Wire.Conn.Pipeline.{IsSendable, frames}
use falcon_cache.Wire.Conn.Arrival.{IsDrained, drain-arrived}
use falcon_cache.Wire.Conn.Fast.{serve_each}
use falcon_cache.Wire.Conn.Memo.{IsNamed}
use falcon_cache.Wire.Conn.Batches.{IsReading}
use falcon_cache.Wire.Conn.Loop.{
  Connection, opened, serving, after_batch, returned, handle_conn, to_come, drained-lt,
}
use falcon_cache.Wire.Conn.Served.{
  resumed, ended, requests_of, Serves, Serves-panicked, Serves-batch,
}

-- The bytes of the reads, one after the other.
abbrev pub joined : List Bytes → Bytes
joined [] = []
joined (bytes ∷ more) = bytes ++ joined more

module _ (hash : Bytes → ℕ) (is_utf8 : Bytes → Bool) (clock : ℕ → ℕ → ℕ × ℕ) where
  turn_closed :
      (fuel : ℕ) (left : Bytes) (c : Connection)
      → drain max_batch c.in_buf ≡ some ([], left, false)
      → handle_conn hash is_utf8 clock (suc fuel) [] c ≡ returned (record c { in_buf = left })
  unfolding handle_conn
  turn_closed fuel left c e = rw (handle_conn, e) refl

  turn_read :
      (fuel : ℕ) (bytes left : Bytes) (more : List Bytes) (c : Connection)
      → drain max_batch c.in_buf ≡ some ([], left, false)
      → is_blank bytes ≡ false
      → handle_conn hash is_utf8 clock (suc fuel) (bytes ∷ more) c
        ≡ handle_conn hash is_utf8 clock fuel more (record c { in_buf = left ++ bytes })
  unfolding handle_conn
  turn_read fuel bytes left more c e some_came = rw (handle_conn, e, some_came) refl

  -- The next turn serves `later` when this one serves a batch.
  turn_batch :
      (fuel : ℕ) (reads : List Bytes) (req : Request) (batch later : List Request) (left : Bytes)
      (c : Connection)
      → drain max_batch c.in_buf ≡ some (req ∷ batch, left, false)
      → All (IsNamed hash is_utf8) (req ∷ batch)
      → ((s : Serving)
          → Serves hash is_utf8 clock later
              (after_batch left s c)
              (handle_conn hash is_utf8 clock fuel reads (after_batch left s c)))
      → Serves hash is_utf8 clock
          (req ∷ (batch ++ later))
          c
          (handle_conn hash is_utf8 clock (suc fuel) reads c)
  unfolding handle_conn
  turn_batch fuel reads req batch later left c e named next =
      elim (Option-cases (serve_batch hash is_utf8 (clock fuel) 0 (req ∷ batch) (serving c))) [
        | inl n ↦
            rw (handle_conn, e, n)
              (Serves-panicked hash is_utf8 clock fuel (req ∷ batch) later c named n)
        | inr (s, ran) ↦
            rw (handle_conn, e, ran)
              (Serves-batch hash is_utf8 clock fuel (req ∷ batch) later c left s
                (handle_conn hash is_utf8 clock fuel reads (after_batch left s c)) named ran
                (next s))
      ]

  -- What is shown of the loop with so many turns left.
  ServesAll : ℕ → Type 0
  ServesAll fuel =
      (reads : List Bytes) (c : Connection) (reqs : List Request)
      → All IsSendable reqs
      → All (IsNamed hash is_utf8) reqs
      → All (λ bytes. is_blank bytes ≡ false) reads
      → c.in_buf ++ joined reads ≡ frames reqs
      → length c.in_buf + to_come reads < fuel
      → Serves hash is_utf8 clock reqs c (handle_conn hash is_utf8 clock fuel reads c)

  one_turn :
      (fuel : ℕ)
      → ServesAll fuel
      → (reads : List Bytes) (c : Connection) (reqs batch : List Request) (left : Bytes)
      → All IsSendable reqs
      → All (IsNamed hash is_utf8) reqs
      → All (λ bytes. is_blank bytes ≡ false) reads
      → drain max_batch c.in_buf ≡ some (batch, left, false)
      → IsDrained max_batch (joined reads) reqs batch left
      → length c.in_buf + to_come reads < suc fuel
      → Serves hash is_utf8 clock reqs c (handle_conn hash is_utf8 clock (suc fuel) reads c)
  unfolding to_come ServesAll frames serve_each
  one_turn fuel next [] c reqs [] left sendable named some_came ran drained enough =
      let no_more = drained.all_come (omega arith) refl refl in
      let nothing : left ≡ [] = sym (append-nil left) ∙ drained.front ∙ ap frames no_more in
      (
        [],
        sym (drained.order ∙ no_more),
        tt,
        turn_closed fuel left c ran ∙ ap (λ b. returned (record c { in_buf = b })) nothing,
      )
  one_turn fuel next (bytes ∷ more) c reqs [] left sendable named some_came ran drained enough =
      let less = drained-lt c.in_buf [] left false ran in
      rw (turn_read fuel bytes left more c ran some_came.0) (
        next more (record c { in_buf = left ++ bytes }) reqs sendable named some_came.1
          (append_assoc left bytes (joined more) ∙ drained.front ∙ ap frames (sym drained.order))
          (omega (arith, enough, less, length-append left bytes)))
  one_turn fuel next reads c reqs (req ∷ batch) left sendable named some_came ran drained enough =
      let less = drained-lt c.in_buf (req ∷ batch) left false ran in
      let (front, back) =
        All-of_append (IsNamed hash is_utf8) (req ∷ batch) drained.later
          (rw (drained.order) at named) in
      let (mine, others) =
        All-of_append IsSendable (req ∷ batch) drained.later (rw (drained.order) at sendable) in
      rw (drained.order) (
        turn_batch fuel reads req batch drained.later left c ran front (λ s.
          next reads (after_batch left s c) drained.later others back some_came drained.front
            (omega (arith, enough, less))))

  -- Whatever the reads are that a client's requests arrive in, and however the loop cuts them into
  -- batches, a connection ends as if the requests had been served one by one by `dispatch`, in
  -- order, each at a reading of the clock: with the same node, the same authentication and the same
  -- replies, and with an empty buffer; it panics where that does. This is for requests that a frame
  -- can carry and whose keyspace field is empty or UTF-8, for reads that are not empty, and with
  -- more turns than there are bytes and reads to come.
  pub handle_conn-Serves :
      (fuel : ℕ) (reads : List Bytes) (c : Connection) (reqs : List Request)
      → All IsSendable reqs
      → All (IsNamed hash is_utf8) reqs
      → All (λ bytes. is_blank bytes ≡ false) reads
      → c.in_buf ++ joined reads ≡ frames reqs
      → length c.in_buf + to_come reads < fuel
      → Serves hash is_utf8 clock reqs c (handle_conn hash is_utf8 clock fuel reads c)
  unfolding ServesAll
  handle_conn-Serves zero reads c reqs sendable named some_came come enough =
      absurd (omega (arith, enough))
  handle_conn-Serves (suc fuel) reads c reqs sendable named some_came come enough =
      let (batch, left, ran, drained) =
        drain-arrived max_batch c.in_buf (joined reads) reqs sendable come in
      one_turn fuel (handle_conn-Serves fuel) reads c reqs batch left sendable named some_came ran
        drained enough

-- Requests that all meet the same readings of the clock.
at_once : ℕ × ℕ → List Request → List ((ℕ × ℕ) × Request)
at_once times [] = []
at_once times (req ∷ reqs) = (times, req) ∷ at_once times reqs

at_once-requests_of :
    (hash : Bytes → ℕ) (is_utf8 : Bytes → Bool) (times : ℕ × ℕ)
    (readings : List ((ℕ × ℕ) × Request))
    → All (IsReading hash is_utf8 (λ fuel i. times)) readings
    → readings ≡ at_once times (requests_of readings)
unfolding at_once
at_once-requests_of hash is_utf8 times [] same = refl
at_once-requests_of hash is_utf8 times ((t, req) ∷ readings) ((fuel, i, e), same) =
    rw (sym e) (ap (◌∷◌ (times, req)) (at_once-requests_of hash is_utf8 times readings same))

-- While the clock stands, two ways to split the same bytes into reads end alike: with the same
-- node, replies and authentication, or both by a panic. The bytes are the frames of requests that a
-- frame can carry and whose keyspace field is empty or UTF-8, no read is empty, and both runs have
-- more turns than bytes and reads.
pub handle_conn-resplit :
    (hash : Bytes → ℕ) (is_utf8 : Bytes → Bool) (times : ℕ × ℕ) (node : ServedNode) (fuel gas : ℕ)
    (reads others : List Bytes) (reqs : List Request)
    → All IsSendable reqs
    → All (IsNamed hash is_utf8) reqs
    → All (λ bytes. is_blank bytes ≡ false) reads
    → All (λ bytes. is_blank bytes ≡ false) others
    → joined reads ≡ frames reqs
    → joined others ≡ frames reqs
    → to_come reads < fuel
    → to_come others < gas
    → handle_conn hash is_utf8 (λ f i. times) fuel reads (opened node)
      ≡ handle_conn hash is_utf8 (λ f i. times) gas others (opened node)
handle_conn-resplit hash is_utf8 times node fuel gas reads others reqs sendable named a b all_reads
      all_others enough enough_gas =
    let (xs, same_xs, real_xs, end_xs) =
      handle_conn-Serves hash is_utf8 (λ f i. times) fuel reads (opened node) reqs sendable named a
        all_reads (omega (arith, enough)) in
    let (ys, same_ys, real_ys, end_ys) =
      handle_conn-Serves hash is_utf8 (λ f i. times) gas others (opened node) reqs sendable named b
        all_others (omega (arith, enough_gas)) in
    let alike : xs ≡ ys =
      at_once-requests_of hash is_utf8 times xs real_xs
      ∙ ap (at_once times) (same_xs ∙ sym same_ys)
      ∙ sym (at_once-requests_of hash is_utf8 times ys real_ys) in
    end_xs
    ∙ ap (λ zs. ended (serve_each hash is_utf8 zs (resumed (opened node)))) alike
    ∙ sym end_ys
