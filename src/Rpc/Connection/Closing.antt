-- ===== src/Rpc/Connection/Closing.antt =====
-- What the end of a connection does to the calls that wait.
use ytsaurus_rs.Base.{
  ℕ, zero, suc, List, [], ◌∷◌, length, Option, none, some, Bool, true, false, ltb, ◌≡◌, ◌⊎◌, refl,
  sym, ap, ◌∙◌, Option-cases, inl, inr,
}
use ytsaurus_rs.Rpc.Connection.{
  Phase, acquiring, registering, queuing, waiting, done, Outcome, timed_out, dropped,
  connection_closed, Shared, Loop, running, closing, shutting, stopped, Outgoing, State, Step,
  Reachable, invoke, advances, expires, drops, writes, write_fails, reads, read_fails, removes,
  connected, stepped, mem, remove, has_stopped, cancel_queue, outbound_queue, find, release,
  acquired, registered, try_send, enqueued, received, give_up, advance_call, expire_call, drop_call,
  select, write_next, write_failed, delivery, read_response, read_failed, removed,
}

remove-nil : (id : ℕ) (ids : List ℕ) → ids ≡ [] → remove id ids ≡ []
remove-nil id [] e = refl
remove-nil id (x ∷ xs) e = cc

module _ {R : Type 0} where
  -- Once the waiters are closed there are none.
  abbrev pub IsQuiet : Shared R → Type 0
  IsQuiet sh = sh.waiters_closed ≡ true → sh.by_request ≡ []

  abbrev Calm : Option (Shared R × Phase R) → Type 0
  Calm none = Unit {0}
  Calm (some (sh, p)) = IsQuiet sh

  abbrev Rests : Option (Shared R) → Type 0
  Rests none = Unit {0}
  Rests (some sh) = IsQuiet sh

  acquired-Calm :
      (closed : Bool) (permits : ℕ) (sh : Shared R) → IsQuiet sh → Calm (acquired closed permits sh)
  acquired-Calm true permits sh q = q
  acquired-Calm false zero sh q = tt
  acquired-Calm false (suc permits) sh q = q

  registered-Calm :
      (closed : Bool) (id : ℕ) (sh : Shared R)
      → sh.waiters_closed ≡ closed
      → IsQuiet sh
      → Calm (registered closed id sh)
  registered-Calm true id sh e q = q
  registered-Calm false id sh e q = λ closed. let no_ : true ≡ false = sym closed ∙ e in cc

  enqueued-Calm :
      (gone room : Bool) (id : ℕ) (sh : Shared R) → IsQuiet sh → Calm (enqueued gone room id sh)
  enqueued-Calm true room id sh q = q
  enqueued-Calm false true id sh q = q
  enqueued-Calm false false id sh q = tt

  received-Calm :
      (r : Option R) (waits : Bool) (sh : Shared R) → IsQuiet sh → Calm (received r waits sh)
  received-Calm (some r) waits sh q = q
  received-Calm none false sh q = q
  received-Calm none true sh q = tt

  try_send-IsQuiet :
      (gone room : Bool) (id : ℕ) (sh : Shared R) → IsQuiet sh → IsQuiet (try_send gone room id sh)
  try_send-IsQuiet true room id sh q = q
  try_send-IsQuiet false true id sh q = q
  try_send-IsQuiet false false id sh q = q

  give_up-Calm :
      (id : ℕ) (outcome : Outcome R) (sh : Shared R) (p : Phase R)
      → IsQuiet sh
      → Calm (give_up id outcome sh p)
  give_up-Calm id outcome sh acquiring q = q
  give_up-Calm id outcome sh registering q = q
  give_up-Calm id outcome sh queuing q = q
  give_up-Calm id outcome sh waiting q =
      try_send-IsQuiet (has_stopped sh.writer) (ltb (length sh.cancels) cancel_queue) id
        (record sh { removals = id ∷ sh.removals }) q
  give_up-Calm id outcome sh (done other) q = tt

  advance_call-Calm :
      (id : ℕ) (sh : Shared R) (p : Phase R) → IsQuiet sh → Calm (advance_call id sh p)
  unfolding advance_call
  advance_call-Calm id sh acquiring q = acquired-Calm sh.in_flight_closed sh.permits sh q
  advance_call-Calm id sh registering q = registered-Calm sh.waiters_closed id sh refl q
  advance_call-Calm id sh queuing q =
      enqueued-Calm (has_stopped sh.writer) (ltb (length sh.outbound) outbound_queue) id sh q
  advance_call-Calm id sh waiting q =
      received-Calm (find id sh.delivered) (mem id sh.by_request) sh q
  advance_call-Calm id sh (done outcome) q = tt

  expire_call-Calm :
      (id : ℕ) (sh : Shared R) (p : Phase R) → IsQuiet sh → Calm (expire_call id sh p)
  unfolding expire_call
  expire_call-Calm id sh registering q = tt
  expire_call-Calm id sh acquiring q = give_up-Calm id timed_out sh acquiring q
  expire_call-Calm id sh queuing q = give_up-Calm id timed_out sh queuing q
  expire_call-Calm id sh waiting q = give_up-Calm id timed_out sh waiting q
  expire_call-Calm id sh (done outcome) q = tt

  drop_call-Calm : (id : ℕ) (sh : Shared R) (p : Phase R) → IsQuiet sh → Calm (drop_call id sh p)
  unfolding drop_call
  drop_call-Calm id sh p q = give_up-Calm id dropped sh p q

  select-Rests :
      (cancels outbound : List ℕ) (sh : Shared R) → IsQuiet sh → Rests (select cancels outbound sh)
  select-Rests (id ∷ cancels) outbound sh q = q
  select-Rests [] (id ∷ outbound) sh q = q
  select-Rests [] [] sh q = tt

  write_next-Rests :
      (l : Loop) (packet : Option Outgoing) (sh : Shared R)
      → IsQuiet sh
      → Rests (write_next l packet sh)
  unfolding write_next
  write_next-Rests running none sh q = select-Rests sh.cancels sh.outbound sh q
  write_next-Rests running (some packet) sh q = q
  write_next-Rests closing packet sh q = λ closed. refl
  write_next-Rests shutting packet sh q = q
  write_next-Rests stopped packet sh q = tt

  write_failed-Rests :
      (l : Loop) (packet : Option Outgoing) (sh : Shared R)
      → IsQuiet sh
      → Rests (write_failed l packet sh)
  unfolding write_failed
  write_failed-Rests running (some packet) sh q = q
  write_failed-Rests running none sh q = tt
  write_failed-Rests closing packet sh q = tt
  write_failed-Rests shutting packet sh q = tt
  write_failed-Rests stopped packet sh q = tt

  delivery-IsQuiet :
      (waits : Bool) (id : ℕ) (r : R) (sh : Shared R)
      → IsQuiet sh
      → IsQuiet (delivery waits id r sh)
  delivery-IsQuiet true id r sh q = λ closed. remove-nil id sh.by_request (q closed)
  delivery-IsQuiet false id r sh q = q

  read_response-Rests :
      (id : ℕ) (r : R) (l : Loop) (sh : Shared R) → IsQuiet sh → Rests (read_response id r l sh)
  unfolding read_response
  read_response-Rests id r running sh q = delivery-IsQuiet (mem id sh.by_request) id r sh q
  read_response-Rests id r closing sh q = tt
  read_response-Rests id r shutting sh q = tt
  read_response-Rests id r stopped sh q = tt

  read_failed-Rests : (l : Loop) (sh : Shared R) → IsQuiet sh → Rests (read_failed l sh)
  unfolding read_failed
  read_failed-Rests running sh q = q
  read_failed-Rests closing sh q = λ closed. refl
  read_failed-Rests shutting sh q = tt
  read_failed-Rests stopped sh q = tt

  removed-Rests : (there : Bool) (id : ℕ) (sh : Shared R) → IsQuiet sh → Rests (removed there id sh)
  removed-Rests true id sh q = λ closed. remove-nil id sh.by_request (q closed)
  removed-Rests false id sh q = tt

  Step-IsQuiet : {s s' : State R} → Step s s' → IsQuiet s.shared → IsQuiet s'.shared
  Step-IsQuiet (invoke id) q = q
  Step-IsQuiet {s} (advances before after c at_ e) q =
      rw e at (advance_call-Calm c.id s.shared c.phase q)
  Step-IsQuiet {s} (expires before after c at_ e) q =
      rw e at (expire_call-Calm c.id s.shared c.phase q)
  Step-IsQuiet {s} (drops before after c at_ e) q = rw e at (drop_call-Calm c.id s.shared c.phase q)
  Step-IsQuiet {s} (writes e) q =
      rw e at (write_next-Rests s.shared.writer s.shared.writing s.shared q)
  Step-IsQuiet {s} (write_fails e) q =
      rw e at (write_failed-Rests s.shared.writer s.shared.writing s.shared q)
  Step-IsQuiet {s} (reads id r e) q = rw e at (read_response-Rests id r s.shared.reader s.shared q)
  Step-IsQuiet {s} (read_fails e) q = rw e at (read_failed-Rests s.shared.reader s.shared q)
  Step-IsQuiet {s} (removes id e) q =
      rw e at (removed-Rests (mem id s.shared.removals) id s.shared q)

  -- However calls and tasks interleave, a connection whose waiters are closed has none: no call registers
  -- behind the end of the connection.
  pub Reachable-IsQuiet : {s : State R} → Reachable s → IsQuiet s.shared
  Reachable-IsQuiet connected = λ closed. refl
  Reachable-IsQuiet (stepped reach step) = Step-IsQuiet step (Reachable-IsQuiet reach)

  -- Once the waiters of a connection are closed, a call that waits for its response can go on at once,
  -- and answers the response that was delivered to it, or else that the connection is closed.
  pub Reachable-wakes :
      {s : State R} (id : ℕ)
      → Reachable s
      → s.shared.waiters_closed ≡ true
      → ((sh : Shared R) × (r : R) × (find id s.shared.delivered ≡ some r)
          × (advance_call id s.shared waiting ≡ some (sh, done (Outcome.answered r))))
        ⊎ ((sh : Shared R) × (find id s.shared.delivered ≡ none)
            × (advance_call id s.shared waiting ≡ some (sh, done connection_closed)))
  unfolding advance_call
  Reachable-wakes {s} id reach closed =
      let gone : mem id s.shared.by_request ≡ false = rw (Reachable-IsQuiet reach closed) refl in
      elim (Option-cases (find id s.shared.delivered)) [
        | inr (r, there) ↦ inl (
          release 1 s.shared,
          r,
          there,
          ap (λ f. received f (mem id s.shared.by_request) s.shared) there,
        )
        | inl nothing ↦ inr (
          release 1 s.shared,
          nothing,
          ap (λ f. received f (mem id s.shared.by_request) s.shared) nothing
              ∙ ap (λ m. received none m s.shared) gone,
        )
      ]
