-- ===== src/Rpc/Connection/Runs.antt =====
-- A connection with one call, and the theorems at it.
use ytsaurus_rs.Base.{ℕ, ◌<◌, List, [], ◌∷◌, length, none, some, true, ◌≡◌, ◌⊎◌, refl}
use ytsaurus_rs.Rpc.Connection.{
  Phase, acquiring, registering, queuing, waiting, done, Outcome, connection_closed, Call, Shared,
  stopped, State, Reachable, from_bus, invoke, advances, drops, read_fails, writes, connected,
  stepped, find, advance_call, drop_call, read_failed, write_next, max_in_flight, cancel_queue,
  cancellation,
}
use ytsaurus_rs.Rpc.Connection.Permits.{permits_of, Reachable-permits_of, Reachable-room}
use ytsaurus_rs.Rpc.Connection.Closing.{Reachable-wakes}

abbrev call : Phase ℕ → List (Call ℕ)
call p = record { id = 7; phase = p } ∷ []

-- The call has queued its request.
abbrev in_flight : Shared ℕ
in_flight = record from_bus { permits = 255; by_request = 7 ∷ []; outbound = 7 ∷ [] }

abbrev sent : State ℕ
sent = record { shared = in_flight; calls = call waiting }

sent-Reachable : Reachable sent
unfolding advance_call
sent-Reachable =
    stepped
      (stepped
        (stepped (stepped connected (invoke 7))
          (advances [] [] (record { id = 7; phase = acquiring }) refl refl))
        (advances [] [] (record { id = 7; phase = registering }) refl refl))
      (advances [] [] (record { id = 7; phase = queuing }) refl refl)

-- The future of the call is dropped, and the writer takes the cancellation first.
abbrev cancelled : State ℕ
cancelled = record {
  shared = record in_flight { removals = 7 ∷ []; writing = some (cancellation 7) };
  calls = call (done Outcome.dropped);
}

cancelled-Reachable : Reachable cancelled
unfolding drop_call write_next
cancelled-Reachable =
    stepped (stepped sent-Reachable (drops [] [] (record { id = 7; phase = waiting }) refl refl))
      (writes refl)

-- The reader has lost the connection.
abbrev lost : State ℕ
lost = record {
  shared = record in_flight {
    in_flight_closed = true;
    waiters_closed = true;
    by_request = [];
    reader = stopped;
    is_closed = true;
  };
  calls = call waiting;
}

lost-Reachable : Reachable lost
unfolding read_failed
lost-Reachable = stepped (stepped sent-Reachable (read_fails refl)) (read_fails refl)

Reachable-permits_of_example : permits_of cancelled ≡ max_in_flight
Reachable-permits_of_example = Reachable-permits_of cancelled-Reachable

Reachable-room_example : length sent.shared.cancels < cancel_queue
Reachable-room_example =
    Reachable-room [] [] (record { id = 7; phase = waiting }) sent-Reachable refl refl

Reachable-wakes_example :
    ((sh : Shared ℕ) × (r : ℕ) × (find 7 lost.shared.delivered ≡ some r)
      × (advance_call 7 lost.shared waiting ≡ some (sh, done (Outcome.answered r))))
    ⊎ ((sh : Shared ℕ) × (find 7 lost.shared.delivered ≡ none)
        × (advance_call 7 lost.shared waiting ≡ some (sh, done connection_closed)))
Reachable-wakes_example = Reachable-wakes 7 lost-Reachable refl
