-- ===== src/Wire/Listener.antt =====
-- The accept loop with its connection permits (crates/falcon-wire/src/lib.rs), as the events that
-- it can meet. What a connection does, and the sockets, are not modelled.
use falcon_cache.Base.{
  Bool, true, false, ℕ, zero, suc, ◌+◌, ◌≤◌, ◌<◌, ◌≡◌, refl, ap, ◌↔◌, Option, none, some, ◌==◌,
  if◌then◌else◌, arith,
}

-- Where the loop is: before `acquire_slot` returns, in the `select!` with its permit, or returned.
pub data Phase : Type 0 where
  acquiring selecting returned : Phase

-- `free` is the semaphore's count of free permits, and `live` counts the connections.
pub record Listener : Type 0 where
  pub phase : Phase
  pub free : Option ℕ
  pub live : ℕ

unfoldable pub connection_limiter : ℕ → Option ℕ
connection_limiter max_connections = if max_connections == 0 then none else some max_connections

abbrev pub started : ℕ → Listener
started max_connections = record {
  phase = Phase.acquiring;
  free = connection_limiter max_connections;
  live = 0;
}

-- The semaphore after `acquire_owned`; `none` while it waits.
unfoldable pub acquire_slot : Option ℕ → Option (Option ℕ)
acquire_slot none = some none
acquire_slot (some zero) = none
acquire_slot (some (suc n)) = some (some n)

-- The semaphore after a permit is dropped.
abbrev pub release : Option ℕ → Option ℕ
release none = none
release (some n) = some (suc n)

-- One event of `serve_with_shutdown`.
pub data Event : Listener → Listener → Type 0 where
  acquired :
      (free : Option ℕ) (l : Listener)
      → l.phase ≡ Phase.acquiring
      → acquire_slot l.free ≡ some free
      → Event l (record l { phase = Phase.selecting; free = free })
  accepted :
      (l : Listener)
      → l.phase ≡ Phase.selecting
      → Event l (record l { phase = Phase.acquiring; live = l.live + 1 })
  accept_failed :
      (l : Listener)
      → l.phase ≡ Phase.selecting
      → Event l (record l { phase = Phase.returned; free = release l.free })
  shut_down :
      (l : Listener)
      → l.phase ≡ Phase.selecting
      → Event l (record l { phase = Phase.returned; free = release l.free })
  closed :
      (n : ℕ) (l : Listener)
      → l.live ≡ suc n
      → Event l (record l { free = release l.free; live = n })

-- What the loop and its connections pass through.
pub data Runs (max_connections : ℕ) : Listener → Type 0 where
  start : Runs max_connections (started max_connections)
  next : {a b : Listener} → Runs max_connections a → Event a b → Runs max_connections b

-- The permits that the loop itself holds.
abbrev pub held : Phase → ℕ
held Phase.acquiring = 0
held Phase.selecting = 1
held Phase.returned = 0

-- Every permit is free, the loop's, or a live connection's.
abbrev Counted : ℕ → Listener → Type 0
Counted max_connections l =
    (n : ℕ) × (l.free ≡ some n) × (n + held l.phase + l.live ≡ max_connections)

acquire_slot-some :
    (o free : Option ℕ) (n : ℕ)
    → acquire_slot o ≡ some free
    → o ≡ some n
    → (m : ℕ) × (n ≡ suc m) × (free ≡ some m)
unfolding acquire_slot
acquire_slot-some none free n h e = cc
acquire_slot-some (some zero) free n h e = cc
acquire_slot-some (some (suc m)) free n h e = (m, cc, cc)

Event-Counted : (most : ℕ) {a b : Listener} → Event a b → Counted most a → Counted most b
Event-Counted most (acquired free l at got) (n, e, sum) =
    let (m, step, f) = acquire_slot-some l.free free n got e in
    (m, f, omega (arith, ap held at, sum, step))
Event-Counted most (accepted l at) (n, e, sum) = (n, e, omega (arith, ap held at, sum))
Event-Counted most (accept_failed l at) (n, e, sum) =
    (suc n, rw e refl, omega (arith, ap held at, sum))
Event-Counted most (shut_down l at) (n, e, sum) = (suc n, rw e refl, omega (arith, ap held at, sum))
Event-Counted most (closed k l at) (n, e, sum) = (suc n, rw e refl, omega (arith, at, sum))

capped : (most : ℕ) → 0 < most → connection_limiter most ≡ some most
unfolding connection_limiter
capped most h = ground (arith, h)

Runs-Counted : (most : ℕ) {l : Listener} → 0 < most → Runs most l → Counted most l
Runs-Counted most h start = (most, capped most h, omega arith)
Runs-Counted most h (next run event) = Event-Counted most event (Runs-Counted most h run)

acquire_slot-none : (o : Option ℕ) (n : ℕ) → o ≡ some n → (acquire_slot o ≡ none) ↔ (n ≡ 0)
unfolding acquire_slot
acquire_slot-none o zero e = (λ _. refl, λ _. rw e refl)
acquire_slot-none o (suc n) e = (λ h. (let h' = rw (e) at h in cc), λ h. absurd (omega (arith, h)))

-- With a cap there are never more live connections than it allows, and the loop waits for a permit
-- exactly when that many are live: no permit is lost, however connections and accepts end.
pub Runs-cap :
    (max_connections : ℕ) (l : Listener)
    → 0 < max_connections
    → Runs max_connections l
    → (l.live ≤ max_connections)
      × (l.phase ≡ Phase.acquiring → (acquire_slot l.free ≡ none) ↔ (l.live ≡ max_connections))
Runs-cap max_connections l h run =
    let (n, e, sum) = Runs-Counted max_connections h run in
    (omega (arith, sum), λ at. waits n e (ap held at) sum)
  where
    waits :
        (n : ℕ)
        → l.free ≡ some n
        → held l.phase ≡ 0
        → n + held l.phase + l.live ≡ max_connections
        → (acquire_slot l.free ≡ none) ↔ (l.live ≡ max_connections)
    waits n e holds sum =
        let (empty, full) = acquire_slot-none l.free n e in
        (
          λ h. (let zero_left = empty h in omega (arith, zero_left, holds, sum)),
          λ h. full (omega (arith, h, holds, sum)),
        )

-- `serve_with_listener` has the same loop without a `select!`: no signal ends it.
abbrev without_shutdown : {a b : Listener} → Event a b → Bool
without_shutdown (shut_down l at) = false
without_shutdown _ = true

-- What the loop of `serve_with_listener` and its connections pass through.
pub data PlainRuns (max_connections : ℕ) : Listener → Type 0 where
  plain_start : PlainRuns max_connections (started max_connections)
  plain_next :
      {a b : Listener}
      → PlainRuns max_connections a
      → (event : Event a b) → without_shutdown event ≡ true
      → PlainRuns max_connections b

PlainRuns-Runs : (most : ℕ) {l : Listener} → PlainRuns most l → Runs most l
PlainRuns-Runs most plain_start = start
PlainRuns-Runs most (plain_next run event other) = next (PlainRuns-Runs most run) event

-- The cap holds in `serve_with_listener` as well.
pub PlainRuns-cap :
    (max_connections : ℕ) (l : Listener)
    → 0 < max_connections
    → PlainRuns max_connections l
    → l.live ≤ max_connections
PlainRuns-cap max_connections l h run =
    (Runs-cap max_connections l h (PlainRuns-Runs max_connections run)).0
