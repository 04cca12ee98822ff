-- ===== src/Wire/Conn/Served.antt =====
-- A batch, and the requests after it, against serving the requests one by one.
use mathlib.Core.Option
use falcon_cache.Base.{
  ℕ, ◌≡◌, refl, sym, ap, ◌∙◌, Bool, Option, none, some, List, [], ◌∷◌, ◌++◌, map, All, All-append,
}
use mathlib.Core.List.{append-nil}
use falcon_cache.Storage.Shard.{Bytes}
use falcon_cache.Wire.Protocol.{Request}
use falcon_cache.Wire.Conn.{Serving, serve_batch}
use falcon_cache.Wire.Conn.Fast.{serve_each, timed, serve_batch-serve_each}
use falcon_cache.Wire.Conn.Memo.{uncached, IsNamed}
use falcon_cache.Wire.Conn.Batches.{
  and_then, behind, serve_each-append, serve_each-behind, IsReading, timed-requests,
  timed-IsReading,
}
use falcon_cache.Wire.Conn.Loop.{Connection, serving, after_batch, LoopEnd, returned, panicked}

-- A connection that goes on from what it has written.
abbrev pub resumed : Connection → Serving
resumed c = record { node = c.node; authed = c.authed; cached = none; out = c.sent }

-- How the loop ends when everything that was sent has been served.
abbrev pub ended : Option Serving → LoopEnd
ended none = panicked
ended (some s) = returned (record { node = s.node; authed = s.authed; in_buf = []; sent = s.out })

abbrev pub requests_of : List ((ℕ × ℕ) × Request) → List Request
requests_of readings = map (λ (x : (ℕ × ℕ) × Request). x.1) readings

requests_of-append :
    (xs ys : List ((ℕ × ℕ) × Request)) → requests_of (xs ++ ys) ≡ requests_of xs ++ requests_of ys
requests_of-append [] ys = refl
requests_of-append (x ∷ xs) ys = ap (◌∷◌ x.1) (requests_of-append xs ys)

in_order :
    (xs ys : List ((ℕ × ℕ) × Request)) {batch later : List Request}
    → requests_of xs ≡ batch
    → requests_of ys ≡ later
    → requests_of (xs ++ ys) ≡ batch ++ later
in_order xs ys a b = requests_of-append xs ys ∙ rw (a, b) refl

module _ (hash : Bytes → ℕ) (is_utf8 : Bytes → Bool) (clock : ℕ → ℕ → ℕ × ℕ) where
  -- The end is the one of serving the requests in order, each at a reading of the clock.
  abbrev pub Serves : List Request → Connection → LoopEnd → Type 0
  Serves reqs c end =
      (readings : List ((ℕ × ℕ) × Request)) × (requests_of readings ≡ reqs)
      × All (IsReading hash is_utf8 clock) readings
      × (end ≡ ended (serve_each hash is_utf8 readings (resumed c)))

  -- Serving a batch on what the connection has written.
  resumed-batch :
      (fuel : ℕ) (batch : List Request) (c : Connection)
      → All (IsNamed hash is_utf8) batch
      → serve_each hash is_utf8 (timed hash is_utf8 (clock fuel) 0 batch) (resumed c)
        ≡ Option.map
            (behind c.sent)
            (Option.map uncached (serve_batch hash is_utf8 (clock fuel) 0 batch (serving c)))
  resumed-batch fuel batch c named =
      ap
        (λ out.
          serve_each hash is_utf8 (timed hash is_utf8 (clock fuel) 0 batch)
            (record (resumed c) { out = out }))
        (sym (append-nil c.sent))
      ∙ serve_each-behind hash is_utf8 c.sent (timed hash is_utf8 (clock fuel) 0 batch) (serving c)
      ∙ ap (Option.map (behind c.sent))
          (sym (serve_batch-serve_each hash is_utf8 (clock fuel) 0 batch (serving c) named refl))

  module _ (fuel : ℕ) (batch later : List Request) (c : Connection) where
    -- A batch that panics, whatever would come after it.
    pub Serves-panicked :
        All (IsNamed hash is_utf8) batch
        → serve_batch hash is_utf8 (clock fuel) 0 batch (serving c) ≡ none
        → Serves (batch ++ later) c panicked
    Serves-panicked named stops =
        let mine = timed hash is_utf8 (clock fuel) 0 batch in
        let rest = timed hash is_utf8 (clock fuel) 0 later in
        let stopped : serve_each hash is_utf8 mine (resumed c) ≡ none =
          resumed-batch fuel batch c named
          ∙ ap (λ o. Option.map (behind c.sent) (Option.map uncached o)) stops in
        (
          mine ++ rest,
          in_order mine rest (timed-requests hash is_utf8 (clock fuel) 0 batch)
              (timed-requests hash is_utf8 (clock fuel) 0 later),
          All-append (IsReading hash is_utf8 clock) mine rest
              (timed-IsReading hash is_utf8 clock fuel 0 batch)
              (timed-IsReading hash is_utf8 clock fuel 0 later),
          ap ended (
              sym (
                serve_each-append hash is_utf8 mine rest (resumed c)
                ∙ ap (and_then (serve_each hash is_utf8 rest)) stopped)),
        )

    -- A batch, and then the later requests.
    pub Serves-batch :
        (left : Bytes) (s : Serving) (end : LoopEnd)
        → All (IsNamed hash is_utf8) batch
        → serve_batch hash is_utf8 (clock fuel) 0 batch (serving c) ≡ some s
        → Serves later (after_batch left s c) end
        → Serves (batch ++ later) c end
    Serves-batch left s end named ran (readings, same, real, finish) =
        let mine = timed hash is_utf8 (clock fuel) 0 batch in
        let served : serve_each hash is_utf8 mine (resumed c)
            ≡ some (resumed (after_batch left s c)) =
          resumed-batch fuel batch c named
          ∙ ap (λ o. Option.map (behind c.sent) (Option.map uncached o)) ran in
        (
          mine ++ readings,
          in_order mine readings (timed-requests hash is_utf8 (clock fuel) 0 batch) same,
          All-append (IsReading hash is_utf8 clock) mine readings
              (timed-IsReading hash is_utf8 clock fuel 0 batch) real,
          finish
              ∙ ap ended (
                  sym (
                    serve_each-append hash is_utf8 mine readings (resumed c)
                    ∙ ap (and_then (serve_each hash is_utf8 readings)) served)),
        )
