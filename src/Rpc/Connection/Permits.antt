-- ===== src/Rpc/Connection/Permits.antt =====
-- Where the permits of a connection are.
use ytsaurus_rs.Base.{
  ℕ, zero, suc, ◌+◌, ◌<◌, List, [], ◌∷◌, ◌++◌, length, Option, none, some, Bool, true, false, ltb,
  ◌≡◌, refl, ap, ◌∙◌, arith, length-append,
}
use ytsaurus_rs.Rpc.Connection.{
  Phase, acquiring, registering, queuing, waiting, done, Outcome, timed_out, dropped, Call, Shared,
  Loop, running, closing, shutting, stopped, Outgoing, State, Step, Reachable, invoke, advances,
  expires, drops, writes, write_fails, reads, read_fails, removes, connected, stepped, mem,
  has_stopped, carries, max_in_flight, cancel_queue, outbound_queue, find, acquired, registered,
  try_send, enqueued, received, give_up, advance_call, expire_call, drop_call, select, write_next,
  write_failed, delivery, read_response, read_failed, removed,
}

module _ {R : Type 0} where
  -- The permits that a call holds, and those that no call holds.
  abbrev pub holds : Phase R → ℕ
  holds acquiring = 0
  holds (done outcome) = 0
  holds registering = 1
  holds queuing = 1
  holds waiting = 1

  abbrev pub held : List (Call R) → ℕ
  held [] = 0
  held (c ∷ calls) = holds c.phase + held calls

  abbrev pub free : Shared R → ℕ
  free sh = sh.permits + length sh.cancels + carries sh.writing

  held-append : (before after : List (Call R)) → held (before ++ after) ≡ held before + held after
  held-append [] after = omega arith
  held-append (c ∷ before) after = omega (arith, held-append before after)

  abbrev Keeps : ℕ → Option (Shared R × Phase R) → Type 0
  Keeps n none = Unit {0}
  Keeps n (some (sh, p)) = free sh + holds p ≡ n

  acquired-Keeps :
      (closed : Bool) (permits : ℕ) (sh : Shared R)
      → sh.permits ≡ permits
      → Keeps (free sh + 0) (acquired closed permits sh)
  acquired-Keeps true permits sh e = omega arith
  acquired-Keeps false zero sh e = tt
  acquired-Keeps false (suc permits) sh e = omega (arith, e)

  registered-Keeps :
      (closed : Bool) (id : ℕ) (sh : Shared R) → Keeps (free sh + 1) (registered closed id sh)
  registered-Keeps true id sh = omega arith
  registered-Keeps false id sh = omega arith

  enqueued-Keeps :
      (gone room : Bool) (id : ℕ) (sh : Shared R) → Keeps (free sh + 1) (enqueued gone room id sh)
  enqueued-Keeps true room id sh = omega arith
  enqueued-Keeps false true id sh = omega arith
  enqueued-Keeps false false id sh = tt

  received-Keeps :
      (r : Option R) (waits : Bool) (sh : Shared R) → Keeps (free sh + 1) (received r waits sh)
  received-Keeps (some r) waits sh = omega arith
  received-Keeps none false sh = omega arith
  received-Keeps none true sh = tt

  free-try_send :
      (gone room : Bool) (id : ℕ) (sh : Shared R) → free (try_send gone room id sh) ≡ free sh + 1
  free-try_send true room id sh = omega arith
  free-try_send false true id sh = omega (arith, length-append sh.cancels (id ∷ []))
  free-try_send false false id sh = omega arith

  give_up-Keeps :
      (id : ℕ) (outcome : Outcome R) (sh : Shared R) (p : Phase R)
      → Keeps (free sh + holds p) (give_up id outcome sh p)
  give_up-Keeps id outcome sh acquiring = omega arith
  give_up-Keeps id outcome sh registering = omega arith
  give_up-Keeps id outcome sh queuing = omega arith
  give_up-Keeps id outcome sh waiting = omega (
    arith,
    free-try_send (has_stopped sh.writer) (ltb (length sh.cancels) cancel_queue) id
        (record sh { removals = id ∷ sh.removals }),
  )
  give_up-Keeps id outcome sh (done other) = tt

  advance_call-Keeps :
      (id : ℕ) (sh : Shared R) (p : Phase R) → Keeps (free sh + holds p) (advance_call id sh p)
  unfolding advance_call
  advance_call-Keeps id sh acquiring = acquired-Keeps sh.in_flight_closed sh.permits sh refl
  advance_call-Keeps id sh registering = registered-Keeps sh.waiters_closed id sh
  advance_call-Keeps id sh queuing =
      enqueued-Keeps (has_stopped sh.writer) (ltb (length sh.outbound) outbound_queue) id sh
  advance_call-Keeps id sh waiting = received-Keeps (find id sh.delivered) (mem id sh.by_request) sh
  advance_call-Keeps id sh (done outcome) = tt

  expire_call-Keeps :
      (id : ℕ) (sh : Shared R) (p : Phase R) → Keeps (free sh + holds p) (expire_call id sh p)
  unfolding expire_call
  expire_call-Keeps id sh registering = tt
  expire_call-Keeps id sh acquiring = give_up-Keeps id timed_out sh acquiring
  expire_call-Keeps id sh queuing = give_up-Keeps id timed_out sh queuing
  expire_call-Keeps id sh waiting = give_up-Keeps id timed_out sh waiting
  expire_call-Keeps id sh (done outcome) = tt

  drop_call-Keeps :
      (id : ℕ) (sh : Shared R) (p : Phase R) → Keeps (free sh + holds p) (drop_call id sh p)
  unfolding drop_call
  drop_call-Keeps id sh p = give_up-Keeps id dropped sh p

  -- A step of a task leaves the permits that no call holds as many as they were.
  abbrev Same : ℕ → Option (Shared R) → Type 0
  Same n none = Unit {0}
  Same n (some sh) = free sh ≡ n

  select-Same :
      (cancels outbound : List ℕ) (sh : Shared R)
      → sh.cancels ≡ cancels
      → carries sh.writing ≡ 0
      → Same (free sh) (select cancels outbound sh)
  select-Same (id ∷ cancels) outbound sh e idle =
      let n : length sh.cancels ≡ suc (length cancels) = ap length e in omega (arith, idle, n)
  select-Same [] (id ∷ outbound) sh e idle = omega (arith, idle)
  select-Same [] [] sh e idle = tt

  write_next-Same :
      (l : Loop) (packet : Option Outgoing) (sh : Shared R)
      → sh.writing ≡ packet
      → Same (free sh) (write_next l packet sh)
  unfolding write_next
  write_next-Same running none sh e = select-Same sh.cancels sh.outbound sh refl (ap carries e)
  write_next-Same running (some packet) sh e =
      let n : carries sh.writing ≡ carries (some packet) = ap carries e in omega (arith, n)
  write_next-Same closing packet sh e = refl
  write_next-Same shutting packet sh e = omega arith
  write_next-Same stopped packet sh e = tt

  write_failed-Same :
      (l : Loop) (packet : Option Outgoing) (sh : Shared R)
      → sh.writing ≡ packet
      → Same (free sh) (write_failed l packet sh)
  unfolding write_failed
  write_failed-Same running (some packet) sh e =
      let n : carries sh.writing ≡ carries (some packet) = ap carries e in omega (arith, n)
  write_failed-Same running none sh e = tt
  write_failed-Same closing packet sh e = tt
  write_failed-Same shutting packet sh e = tt
  write_failed-Same stopped packet sh e = tt

  free-delivery :
      (waits : Bool) (id : ℕ) (r : R) (sh : Shared R) → free (delivery waits id r sh) ≡ free sh
  free-delivery true id r sh = refl
  free-delivery false id r sh = refl

  read_response-Same :
      (id : ℕ) (r : R) (l : Loop) (sh : Shared R) → Same (free sh) (read_response id r l sh)
  unfolding read_response
  read_response-Same id r running sh = free-delivery (mem id sh.by_request) id r sh
  read_response-Same id r closing sh = tt
  read_response-Same id r shutting sh = tt
  read_response-Same id r stopped sh = tt

  read_failed-Same : (l : Loop) (sh : Shared R) → Same (free sh) (read_failed l sh)
  unfolding read_failed
  read_failed-Same running sh = refl
  read_failed-Same closing sh = refl
  read_failed-Same shutting sh = tt
  read_failed-Same stopped sh = tt

  removed-Same : (there : Bool) (id : ℕ) (sh : Shared R) → Same (free sh) (removed there id sh)
  removed-Same true id sh = refl
  removed-Same false id sh = tt

  abbrev pub permits_of : State R → ℕ
  permits_of s = free s.shared + held s.calls

  replaced :
      (s : State R) (sh : Shared R) (p : Phase R) (before after : List (Call R)) (c : Call R)
      → s.calls ≡ before ++ (c ∷ after)
      → free sh + holds p ≡ free s.shared + holds c.phase
      → permits_of (record { shared = sh; calls = before ++ (record c { phase = p } ∷ after) })
        ≡ permits_of s
  replaced s sh p before after c e kept =
      let old : held s.calls ≡ held (before ++ (c ∷ after)) = ap held e in
      omega (
        arith,
        kept,
        old,
        held-append before (c ∷ after),
        held-append before (record c { phase = p } ∷ after),
      )

  Step-permits_of : {s s' : State R} → Step s s' → permits_of s' ≡ permits_of s
  Step-permits_of (invoke id) = omega arith
  Step-permits_of {s} (advances {sh = sh} {p = p} before after c at_ e) =
      replaced s sh p before after c at_ (rw e at (advance_call-Keeps c.id s.shared c.phase))
  Step-permits_of {s} (expires {sh = sh} {p = p} before after c at_ e) =
      replaced s sh p before after c at_ (rw e at (expire_call-Keeps c.id s.shared c.phase))
  Step-permits_of {s} (drops {sh = sh} {p = p} before after c at_ e) =
      replaced s sh p before after c at_ (rw e at (drop_call-Keeps c.id s.shared c.phase))
  Step-permits_of {s} (writes {sh = sh} e) =
      let same : free sh ≡ free s.shared =
        rw e at (write_next-Same s.shared.writer s.shared.writing s.shared refl) in
      omega (arith, same)
  Step-permits_of {s} (write_fails {sh = sh} e) =
      let same : free sh ≡ free s.shared =
        rw e at (write_failed-Same s.shared.writer s.shared.writing s.shared refl) in
      omega (arith, same)
  Step-permits_of {s} (reads {sh = sh} id r e) =
      let same : free sh ≡ free s.shared =
        rw e at (read_response-Same id r s.shared.reader s.shared) in
      omega (arith, same)
  Step-permits_of {s} (read_fails {sh = sh} e) =
      let same : free sh ≡ free s.shared = rw e at (read_failed-Same s.shared.reader s.shared) in
      omega (arith, same)
  Step-permits_of {s} (removes {sh = sh} id e) =
      let same : free sh ≡ free s.shared =
        rw e at (removed-Same (mem id s.shared.removals) id s.shared) in
      omega (arith, same)

  -- However calls and tasks interleave, no permit is lost or made: those of the semaphore, of the calls in
  -- flight, of the queued cancellations and of one that is being sent are 256 together.
  pub Reachable-permits_of : {s : State R} → Reachable s → permits_of s ≡ max_in_flight
  Reachable-permits_of connected = refl
  Reachable-permits_of (stepped reach step) = Step-permits_of step ∙ Reachable-permits_of reach

  -- Where a call in flight is given up, there is room for its cancellation: the assertion of the code that
  -- the queue is not full never fails.
  pub Reachable-room :
      {s : State R} (before after : List (Call R)) (c : Call R)
      → Reachable s
      → s.calls ≡ before ++ (c ∷ after)
      → c.phase ≡ waiting
      → length s.shared.cancels < cancel_queue
  Reachable-room {s} before after c reach at_ phase =
      let total = Reachable-permits_of reach in
      let old : held s.calls ≡ held (before ++ (c ∷ after)) = ap held at_ in
      let one : holds c.phase ≡ 1 = ap holds phase in
      omega (arith, total, old, one, held-append before (c ∷ after))
