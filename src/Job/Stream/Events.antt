-- ===== src/Job/Stream/Events.antt =====
-- The events that a reader hands out are those of its stream, however the bytes arrive.
use ytsaurus_rs.Base.{
  ℕ, ◌+◌, ◌≤◌, ◌<◌, List, length, take, Option, none, some, Bool, true, ◌≡◌, ◌≢◌, refl, sym, ap,
  ◌∙◌, arith, Result, ok, err, take-append_le,
}
use ytsaurus_rs.Base.Actions.{continue_with}
use ytsaurus_rs.Yson.Lexer.Tokens.{Std}
use ytsaurus_rs.Job.{JobError, out_of_fuel}
use ytsaurus_rs.Job.Reader.{Source, Pending, row, key_switch, Reader}
use ytsaurus_rs.Job.Reader.Control.{Decoding, bumped, counted, step_past, consume, ensure_pending}
use ytsaurus_rs.Job.Groups.{Event, a_row, a_key_switch, event_of, next_event}
use ytsaurus_rs.Job.Stream.{Contract, stream, budget, IsValid}
use ytsaurus_rs.Job.Stream.Failures.{Fails, Fails-out_of_fuel}
use ytsaurus_rs.Job.Stream.Lines.{View, past, Lines, Lines-same}
use ytsaurus_rs.Job.Stream.LineUp.{ensure_pending-Lined}
use ytsaurus_rs.Job.Stream.Routes.{view, Lined, stepped-IsValid, stepped_view, set-IsValid}

-- A row of the stream, and the place behind it.
abbrev told_row : View → List ℕ → Bool → View → Option ℕ → Option Event × View
told_row w bytes is_binary behind index = (
  some (
      a_row (record {
        table_index = w.table_index;
        row_index = w.row_index;
        range_index = w.range_index;
        bytes = bytes;
        is_binary = is_binary;
        offset = w.offset;
      })),
  record behind { row_index = index },
)

-- The event that a record makes, and the place behind it: a row counts itself.
abbrev pub event_at : Option Pending → View → Option Event × View
event_at none w = (none, w)
event_at (some (key_switch len)) w = (some a_key_switch, past len w)
event_at (some (row len)) w = told_row w (take len w.bytes) true (past len w) (bumped w.row_index)

module _ (std : Std) (decoding : Decoding) {I : Type 0} (source : Source I)
    (contract : Contract source) where
  -- An event of the stream from a place on, and a reader that goes on behind it.
  abbrev pub Told : View → Result JobError (Option Event × Reader I) → Type 0
  Told v (ok (e, r)) =
      ((p : Option Pending) × (w : View) × Lines std decoding v p w
        × ((e, view std decoding source contract r) ≡ event_at p w))
      × IsValid source contract r
      × (r.is_binary ≡ true)
      × ((r.pending ≡ none))
  Told v (err e) = (e ≢ out_of_fuel) × Fails std decoding v e

  consumed-IsValid :
      (len : ℕ) (r : Reader I)
      → len ≤ length r.window
      → IsValid source contract r
      → IsValid source contract (consume len r)
  unfolding consume
  consumed-IsValid len r fits valid =
      set-IsValid std decoding source contract (step_past len r)
        (stepped-IsValid std decoding source contract len r fits valid)

  told :
      (v : View) (res : Result JobError (Option Pending × Reader I))
      → Lined std decoding source contract v res
      → Told v (continue_with res (event_of std decoding source))
  unfolding consume
  told v (ok (none, r)) h = ((none, view std decoding source contract r, h.0, refl), h.1, h.3, h.2)
  told v (ok (some (key_switch len), r)) h =
      let same : counted r.pending r.row_index ≡ r.row_index = rw h.2 refl in
      let behind = stepped_view std decoding source contract len r h.4 in
      (
        (
          some (key_switch len),
          view std decoding source contract r,
          h.0,
          rw same (ap (λ w. (some a_key_switch, w)) behind),
        ),
        consumed-IsValid len r h.4 h.1,
        h.3,
        refl,
      )
  told v (ok (some (row len), r)) h =
      let counts : counted r.pending r.row_index ≡ bumped r.row_index = rw h.2 refl in
      let behind = stepped_view std decoding source contract len r h.4 in
      let cut : take len r.window ≡ take len (stream source contract r) =
        sym (take-append_le len r.window (contract.remaining r.input) h.4) in
      (
        (
          some (row len),
          view std decoding source contract r,
          h.0,
          ap
                (λ bytes.
                  told_row (view std decoding source contract r) bytes r.is_binary
                    (view std decoding source contract (step_past len r))
                    (counted r.pending r.row_index))
                cut
              ∙ ap
                  (λ b.
                    told_row (view std decoding source contract r)
                      (take len (stream source contract r)) b
                      (view std decoding source contract (step_past len r))
                      (counted r.pending r.row_index))
                  h.3
              ∙ ap
                  (λ w.
                    told_row (view std decoding source contract r)
                      (take len (stream source contract r)) true w (counted r.pending r.row_index))
                  behind
              ∙ ap
                  (λ i.
                    told_row (view std decoding source contract r)
                      (take len (stream source contract r)) true
                      (past len (view std decoding source contract r)) i)
                  counts,
        ),
        consumed-IsValid len r h.4 h.1,
        h.3,
        refl,
      )
  told v (err e) h = (Fails-out_of_fuel std decoding h, h)

  -- Given fuel for the reads and the bytes to come, each call of `next_event` on binary YSON hands out what
  -- the stream alone says: a row with exactly its bytes, its offset and the indices that the control
  -- records have set, a key switch, or the end. The reader behind it is well formed, has nothing pending and
  -- stands behind the record, with the row index one further if a row was handed out. Else the call fails,
  -- not for want of fuel:
  -- with the input, or behind the control records with what the scan of the stream says, with the limit
  -- where a record is not whole within as many bytes, or with what the record is refused for.
  pub next_event-Told :
      (fuel : ℕ) (r : Reader I)
      → IsValid source contract r
      → r.is_binary ≡ true
      → r.pending ≡ none
      → budget source contract r < fuel
      → length (stream source contract r) < fuel
      → Told (view std decoding source contract r) (next_event std decoding source fuel r)
  unfolding next_event
  next_event-Told fuel r valid binary free patient fueled =
      told (view std decoding source contract r) (ensure_pending std decoding source fuel r)
        (ensure_pending-Lined std decoding source contract fuel r valid binary free patient fueled)

module _ (std : Std) (decoding : Decoding) where
  Told-same :
      {I J : Type 0} (s : Source I) (c : Contract s) (s' : Source J) (c' : Contract s') (v : View)
      (e e' : Option Event) (r : Reader I) (r' : Reader J)
      → Told std decoding s c v (ok (e, r))
      → Told std decoding s' c' v (ok (e', r'))
      → (e ≡ e') × (view std decoding s c r ≡ view std decoding s' c' r')
  Told-same s c s' c' v e e' r r' h h' =
      let same = Lines-same std decoding h.0.2 h'.0.2 in
      let events : event_at h.0.0 h.0.1 ≡ event_at h'.0.0 h'.0.1 = rw (same.0, same.1) refl in
      let both : (e, view std decoding s c r) ≡ (e', view std decoding s' c' r') =
        h.0.3 ∙ events ∙ sym h'.0.3 in
      (ap (λ q. q.0) both, ap (λ q. q.1) both)

  -- How the bytes of a stream are cut into reads, how large the buffers are and how much has been read
  -- ahead makes no difference: where two readers of binary YSON stand at the same place of the same stream
  -- and neither fails, they hand out the same event, and stand at the same place again.
  pub next_event-same :
      {I J : Type 0} (s : Source I) (c : Contract s) (s' : Source J) (c' : Contract s') (fuel : ℕ)
      (r : Reader I) (r' : Reader J) (e e' : Option Event) (behind : Reader I) (behind' : Reader J)
      → IsValid s c r
      → IsValid s' c' r'
      → r.is_binary ≡ true
      → r'.is_binary ≡ true
      → r.pending ≡ none
      → r'.pending ≡ none
      → budget s c r + length (stream s c r) < fuel
      → budget s' c' r' + length (stream s' c' r') < fuel
      → view std decoding s c r ≡ view std decoding s' c' r'
      → next_event std decoding s fuel r ≡ ok (e, behind)
      → next_event std decoding s' fuel r' ≡ ok (e', behind')
      → (e ≡ e') × (view std decoding s c behind ≡ view std decoding s' c' behind')
  next_event-same s c s' c' fuel r r' e e' behind behind' valid valid' binary binary' free free'
        fueled fueled' same one other =
      Told-same s c s' c' (view std decoding s c r) e e' behind behind'
        (rw one at
          (next_event-Told std decoding s c fuel r valid binary free (omega arith) (omega arith)))
        (rw (other, sym same) at
          (next_event-Told std decoding s' c' fuel r' valid' binary' free' (omega arith)
            (omega arith)))
