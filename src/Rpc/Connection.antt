-- ===== src/Rpc/Connection.antt =====
-- crates/ytsaurus-rpc/src/connection.rs: the calls of a connection and what they share with its writer
-- and its reader, as steps of one call or of one task. A call is a future: between two awaits it runs
-- without pause, and at each await it may be dropped or meet its deadline. A packet is the identifier
-- of its request; a channel is a list, whose receiver is gone once the writer has stopped.
pub mod Permits
pub mod Closing
mod Runs
use ytsaurus_rs.Base.{
  ℕ, zero, suc, ◌+◌, List, [], ◌∷◌, ◌++◌, length, Option, none, some, Bool, true, false, not, ltb,
  ◌==◌, ◌≡◌, if◌then◌else◌,
}

abbrev pub outbound_queue : ℕ
outbound_queue = 64

abbrev pub max_in_flight : ℕ
max_in_flight = 256

abbrev pub cancel_queue : ℕ
cancel_queue = max_in_flight

-- What the writer has in hand; a cancellation carries the permit of its call.
pub data Outgoing : Type 0 where
  request cancellation : (id : ℕ) → Outgoing

pub data Loop : Type 0 where
  running closing shutting stopped : Loop

-- How a call ends. A future that is dropped answers nothing.
pub data Outcome (R : Type 0) : Type 0 where
  answered : R → Outcome R
  timed_out connection_closed dropped : Outcome R

-- Where a call stands: waiting for a permit; about to register; its guard armed and the request not
-- queued; waiting for the response; over.
pub data Phase (R : Type 0) : Type 0 where
  acquiring registering queuing waiting : Phase R
  done : Outcome R → Phase R

pub record Call (R : Type 0) : Type 0 where
  pub id : ℕ
  pub phase : Phase R

-- `waiters_closed` and `by_request` are `Waiters`; `delivered` is what the one-shot channels hold, and
-- `removals` are the removals that guards have handed to the runtime.
pub record Shared (R : Type 0) : Type 0 where
  pub permits : ℕ
  pub in_flight_closed : Bool
  pub waiters_closed : Bool
  pub by_request : List ℕ
  pub delivered : List (ℕ × R)
  pub removals : List ℕ
  pub outbound : List ℕ
  pub cancels : List ℕ
  pub writing : Option Outgoing
  pub writer : Loop
  pub reader : Loop
  pub is_closed : Bool

abbrev pub mem : ℕ → List ℕ → Bool
mem id [] = false
mem id (x ∷ xs) = let rest = mem id xs in if x == id then true else rest

abbrev pub remove : ℕ → List ℕ → List ℕ
remove id [] = []
remove id (x ∷ xs) = let rest = remove id xs in if x == id then rest else x ∷ rest

abbrev pub has_stopped : Loop → Bool
has_stopped stopped = true
has_stopped other = false

abbrev pub carries : Option Outgoing → ℕ
carries none = 0
carries (some (request id)) = 0
carries (some (cancellation id)) = 1

module _ {R : Type 0} where
  -- `Connection::from_bus`
  abbrev pub from_bus : Shared R
  from_bus = record {
    permits = max_in_flight;
    in_flight_closed = false;
    waiters_closed = false;
    by_request = [];
    delivered = [];
    removals = [];
    outbound = [];
    cancels = [];
    writing = none;
    writer = running;
    reader = running;
    is_closed = false;
  }

  abbrev pub find : ℕ → List (ℕ × R) → Option R
  find id [] = none
  find id ((x, r) ∷ rest) = let later = find id rest in if x == id then some r else later

  abbrev pub release : ℕ → Shared R → Shared R
  release n sh = record sh { permits = sh.permits + n }

  -- `acquire_owned`
  abbrev pub acquired : Bool → ℕ → Shared R → Option (Shared R × Phase R)
  acquired true permits sh = some (sh, done connection_closed)
  acquired false zero sh = none
  acquired false (suc permits) sh = some (record sh { permits = permits }, registering)

  -- The block under the lock; the permit goes with an early return.
  abbrev pub registered : Bool → ℕ → Shared R → Option (Shared R × Phase R)
  registered true id sh = some (release 1 sh, done connection_closed)
  registered false id sh = some (record sh { by_request = id ∷ sh.by_request }, queuing)

  -- `PendingGuard::drop` where the request was not queued.
  abbrev pub drop_unsent : ℕ → Shared R → Shared R
  drop_unsent id sh = record (release 1 sh) { removals = id ∷ sh.removals }

  -- `PendingGuard::drop` where it was: by whether the receiver of the cancellations is gone, and whether
  -- they have room.
  abbrev pub try_send : Bool → Bool → ℕ → Shared R → Shared R
  try_send true room id sh = release 1 sh
  try_send false true id sh = record sh { cancels = sh.cancels ++ (id ∷ []) }
  try_send false false id sh = release 1 sh

  abbrev pub drop_sent : ℕ → Shared R → Shared R
  drop_sent id sh =
      try_send (has_stopped sh.writer) (ltb (length sh.cancels) cancel_queue) id
        (record sh { removals = id ∷ sh.removals })

  abbrev pub enqueued : Bool → Bool → ℕ → Shared R → Option (Shared R × Phase R)
  enqueued true room id sh = some (drop_unsent id sh, done connection_closed)
  enqueued false true id sh = some (record sh { outbound = sh.outbound ++ (id ∷ []) }, waiting)
  enqueued false false id sh = none

  -- A response, or the loss of its sender.
  abbrev pub received : Option R → Bool → Shared R → Option (Shared R × Phase R)
  received (some r) waits sh = some (release 1 sh, done (answered r))
  received none false sh = some (release 1 sh, done connection_closed)
  received none true sh = none

  -- What drops with a future that is given up.
  abbrev pub give_up : ℕ → Outcome R → Shared R → Phase R → Option (Shared R × Phase R)
  give_up id outcome sh acquiring = some (sh, done outcome)
  give_up id outcome sh registering = some (release 1 sh, done outcome)
  give_up id outcome sh queuing = some (drop_unsent id sh, done outcome)
  give_up id outcome sh waiting = some (drop_sent id sh, done outcome)
  give_up id outcome sh (done other) = none

  -- One stretch of `invoke_raw`, up to its next await, or none where it has to wait.
  unfoldable pub advance_call : ℕ → Shared R → Phase R → Option (Shared R × Phase R)
  advance_call id sh acquiring = acquired sh.in_flight_closed sh.permits sh
  advance_call id sh registering = registered sh.waiters_closed id sh
  advance_call id sh queuing =
      enqueued (has_stopped sh.writer) (ltb (length sh.outbound) outbound_queue) id sh
  advance_call id sh waiting = received (find id sh.delivered) (mem id sh.by_request) sh
  advance_call id sh (done outcome) = none

  -- The deadline does not cover the lock.
  unfoldable pub expire_call : ℕ → Shared R → Phase R → Option (Shared R × Phase R)
  expire_call id sh registering = none
  expire_call id sh phase = give_up id timed_out sh phase

  unfoldable pub drop_call : ℕ → Shared R → Phase R → Option (Shared R × Phase R)
  drop_call id sh phase = give_up id dropped sh phase

  -- `Waiters::close`
  abbrev pub close_waiters : Shared R → Shared R
  close_waiters sh = record sh { waiters_closed = true; by_request = [] }

  -- `closed.store(true)` and `in_flight.close()`
  abbrev pub close_in_flight : Shared R → Shared R
  close_in_flight sh = record sh { is_closed = true; in_flight_closed = true }

  -- The biased `select!` of the writer.
  abbrev pub select : List ℕ → List ℕ → Shared R → Option (Shared R)
  select (id ∷ cancels) outbound sh =
      some (record sh { cancels = cancels; writing = some (cancellation id) })
  select [] (id ∷ outbound) sh =
      some (record sh { outbound = outbound; writing = some (request id) })
  select [] [] sh = none

  -- `write_loop`: it takes a packet, has sent it or has failed to, and then closes what it can.
  unfoldable pub write_next : Loop → Option Outgoing → Shared R → Option (Shared R)
  write_next running none sh = select sh.cancels sh.outbound sh
  write_next running (some packet) sh =
      some (record (release (carries (some packet)) sh) { writing = none })
  write_next closing packet sh = some (record (close_waiters sh) { writer = shutting })
  write_next shutting packet sh =
      some
        (record (release (length sh.cancels) sh) { outbound = []; cancels = []; writer = stopped })
  write_next stopped packet sh = none

  unfoldable pub write_failed : Loop → Option Outgoing → Shared R → Option (Shared R)
  write_failed running (some packet) sh =
      some (record (close_in_flight (release (carries (some packet)) sh)) {
        writing = none;
        writer = closing;
      })
  write_failed other packet sh = none

  -- `read_loop` on a response to a request.
  abbrev pub delivery : Bool → ℕ → R → Shared R → Shared R
  delivery true id r sh = record sh {
    by_request = remove id sh.by_request;
    delivered = (id, r) ∷ sh.delivered;
  }
  delivery false id r sh = sh

  unfoldable pub read_response : ℕ → R → Loop → Shared R → Option (Shared R)
  read_response id r running sh = some (delivery (mem id sh.by_request) id r sh)
  read_response id r other sh = none

  unfoldable pub read_failed : Loop → Shared R → Option (Shared R)
  read_failed running sh = some (record (close_in_flight sh) { reader = closing })
  read_failed closing sh = some (record (close_waiters sh) { reader = stopped })
  read_failed other sh = none

  -- A removal that a guard has handed to the runtime.
  abbrev pub removed : Bool → ℕ → Shared R → Option (Shared R)
  removed true id sh =
      some (record sh { removals = remove id sh.removals; by_request = remove id sh.by_request })
  removed false id sh = none

pub record State (R : Type 0) : Type 0 where
  pub shared : Shared R
  pub calls : List (Call R)

-- The steps of a connection: of one call among the calls, or of a task. A packet that is not a response
-- changes nothing and is no step.
pub data Step {R : Type 0} : State R → State R → Type 0 where
  invoke :
      {s : State R} (id : ℕ)
      → Step s (record s { calls = record { id = id; phase = acquiring } ∷ s.calls })
  advances :
      {s : State R} {sh : Shared R} {p : Phase R} (before after : List (Call R)) (c : Call R)
      → s.calls ≡ before ++ (c ∷ after)
      → advance_call c.id s.shared c.phase ≡ some (sh, p)
      → Step s (record { shared = sh; calls = before ++ (record c { phase = p } ∷ after) })
  expires :
      {s : State R} {sh : Shared R} {p : Phase R} (before after : List (Call R)) (c : Call R)
      → s.calls ≡ before ++ (c ∷ after)
      → expire_call c.id s.shared c.phase ≡ some (sh, p)
      → Step s (record { shared = sh; calls = before ++ (record c { phase = p } ∷ after) })
  drops :
      {s : State R} {sh : Shared R} {p : Phase R} (before after : List (Call R)) (c : Call R)
      → s.calls ≡ before ++ (c ∷ after)
      → drop_call c.id s.shared c.phase ≡ some (sh, p)
      → Step s (record { shared = sh; calls = before ++ (record c { phase = p } ∷ after) })
  writes :
      {s : State R} {sh : Shared R}
      → write_next s.shared.writer s.shared.writing s.shared ≡ some sh
      → Step s (record s { shared = sh })
  write_fails :
      {s : State R} {sh : Shared R}
      → write_failed s.shared.writer s.shared.writing s.shared ≡ some sh
      → Step s (record s { shared = sh })
  reads :
      {s : State R} {sh : Shared R} (id : ℕ) (r : R)
      → read_response id r s.shared.reader s.shared ≡ some sh
      → Step s (record s { shared = sh })
  read_fails :
      {s : State R} {sh : Shared R}
      → read_failed s.shared.reader s.shared ≡ some sh
      → Step s (record s { shared = sh })
  removes :
      {s : State R} {sh : Shared R} (id : ℕ)
      → removed (mem id s.shared.removals) id s.shared ≡ some sh
      → Step s (record s { shared = sh })

pub data Reachable {R : Type 0} : State R → Type 0 where
  connected : Reachable (record { shared = from_bus; calls = [] })
  stepped : {s s' : State R} → Reachable s → Step s s' → Reachable s'
