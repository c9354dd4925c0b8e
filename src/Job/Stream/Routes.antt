-- ===== src/Job/Stream/Routes.antt =====
-- What becomes of a record that was found, and what a step that lines one up answers.
use ytsaurus_rs.Base.{
  ℕ, ◌+◌, ◌≤◌, length, take, drop, Option, none, some, true, ◌≡◌, refl, sym, ap, ◌∙◌, arith, Result,
  ok, err, inr, take-append_le, drop-append_le, length-drop,
}
use ytsaurus_rs.Yson.Lexer.Tokens.{Std}
use ytsaurus_rs.Yson.Scan.{complete, scan_value}
use ytsaurus_rs.Job.{JobError}
use ytsaurus_rs.Job.Reader.{Source, Pending, row, key_switch, Reader, Reading, offset_of}
use ytsaurus_rs.Job.Reader.Control.{
  Decoding, Classified, data_row, skip_record, boundary, to_table, to_row, to_range, classify,
  step_past, route, classified,
}
use ytsaurus_rs.Job.Stream.Failures.{Fails, unclassified, behind_control}
use ytsaurus_rs.Job.Stream.{Contract, kept, stream, budget, IsValid}
use ytsaurus_rs.Job.Stream.Records.{target}
use ytsaurus_rs.Job.Stream.Lines.{View, past, answer, ahead, Head, Lines, at_record, past_control}

module _ (std : Std) (decoding : Decoding) {I : Type 0} (source : Source I)
    (contract : Contract source) where
  abbrev pub view : Reader I → View
  view r = record {
    offset = offset_of r;
    bytes = stream source contract r;
    table_index = r.table_index;
    row_index = r.row_index;
    range_index = r.range_index;
  }

  abbrev pub Held : Option Pending → Reader I → Type 0
  Held none r = Unit {0}
  Held (some (row len)) r = len ≤ length r.window
  Held (some (key_switch len)) r = len ≤ length r.window

  -- A step that lines up what the stream says, from a place on, or fails as the stream says.
  abbrev pub Lined : View → Result JobError (Option Pending × Reader I) → Type 0
  Lined v (ok (p, r)) =
      Lines std decoding v p (view r)
      × IsValid source contract r
      × (r.pending ≡ p)
      × (r.is_binary ≡ true)
      × Held p r
  Lined v (err e) = Fails std decoding v e

  later-Lined :
      (v v' : View) (len : ℕ) (what : Classified)
      (res : Result JobError (Option Pending × Reader I))
      → Head std decoding v len what
      → answer what len (ahead v) ≡ inr v'
      → Lined v' res
      → Lined v res
  later-Lined v v' len what (ok (p, r)) head goes h =
      (past_control head goes h.0, h.1, h.2, h.3, h.4)
  later-Lined v v' len what (err e) head goes h = behind_control head goes h

  -- The reader behind a control record.
  pub stepped-IsValid :
      (len : ℕ) (r : Reader I)
      → len ≤ length r.window
      → IsValid source contract r
      → IsValid source contract (step_past len r)
  stepped-IsValid len r fits valid = record {
    within = omega (arith, length-drop len r.window, valid.within);
    some_room = valid.some_room;
    limited = valid.limited;
    ended = valid.ended;
  }

  -- The indices and the pending record have no part in it.
  pub set-IsValid :
      {p : Option Pending} {t : ℕ} {i j : Option ℕ} (r : Reader I)
      → IsValid source contract r
      → IsValid source contract
          (record r { pending = p; table_index = t; row_index = i; range_index = j })
  set-IsValid r valid = record {
    within = valid.within;
    some_room = valid.some_room;
    limited = valid.limited;
    ended = valid.ended;
  }

  pub stepped_view :
      (len : ℕ) (r : Reader I) → len ≤ length r.window → view (step_past len r) ≡ past len (view r)
  stepped_view len r fits =
      let place : r.base_offset + (r.pos + len) ≡ r.base_offset + r.pos + len = omega arith in
      rw (place, sym (drop-append_le len r.window (contract.remaining r.input) fits)) refl

  -- A rest of the loop that lines up what is left of the stream.
  abbrev pub Continues : Reading I (Option Pending) → Reader I → ℕ → Type 0
  Continues next r len =
      (r' : Reader I)
      → IsValid source contract r'
      → r'.is_binary ≡ true
      → r'.pending ≡ none
      → budget source contract r' ≡ budget source contract r
      → r'.window ≡ drop len r.window
      → r'.input ≡ r.input
      → Lined (view r') (next r')

  routed-Lined :
      (next : Reading I (Option Pending)) (v : View) (len : ℕ) (what : Classified) (r : Reader I)
      → view r ≡ ahead v
      → Head std decoding v len what
      → len ≤ length r.window
      → IsValid source contract r
      → r.is_binary ≡ true
      → r.pending ≡ none
      → Continues next r len
      → Lined v (route next len what r)
  routed-Lined next v len data_row r same head fits valid binary free rest =
      (rw same (at_record head refl), set-IsValid r valid, refl, binary, fits)
  routed-Lined next v len boundary r same head fits valid binary free rest =
      (rw same (at_record head refl), set-IsValid r valid, refl, binary, fits)
  routed-Lined next v len skip_record r same head fits valid binary free rest =
      let r' = step_past len r in
      later-Lined v (view r') len skip_record (next r') head
        (sym (ap inr (stepped_view len r fits ∙ ap (past len) same)))
        (rest r' (stepped-IsValid len r fits valid) binary free refl refl refl)
  routed-Lined next v len (to_table i) r same head fits valid binary free rest =
      let r' = record (step_past len r) { table_index = i; row_index = none; range_index = none } in
      later-Lined v (view r') len (to_table i) (next r') head
        (sym (
          ap {A = View}
            (λ w. inr (record w { table_index = i; row_index = none; range_index = none }))
            (stepped_view len r fits ∙ ap (past len) same)))
        (rest r' (set-IsValid (step_past len r) (stepped-IsValid len r fits valid)) binary free refl
          refl refl)
  routed-Lined next v len (to_row i) r same head fits valid binary free rest =
      let r' = record (step_past len r) { row_index = some i } in
      later-Lined v (view r') len (to_row i) (next r') head
        (sym (
          ap {A = View} (λ w. inr (record w { row_index = some i }))
            (stepped_view len r fits ∙ ap (past len) same)))
        (rest r' (set-IsValid (step_past len r) (stepped-IsValid len r fits valid)) binary free refl
          refl refl)
  routed-Lined next v len (to_range i) r same head fits valid binary free rest =
      let r' = record (step_past len r) { range_index = some i } in
      later-Lined v (view r') len (to_range i) (next r') head
        (sym (
          ap {A = View} (λ w. inr (record w { range_index = some i }))
            (stepped_view len r fits ∙ ap (past len) same)))
        (rest r' (set-IsValid (step_past len r) (stepped-IsValid len r fits valid)) binary free refl
          refl refl)

  pub viewed :
      (r r' : Reader I)
      → (offset_of r', stream source contract r') ≡ target std source contract r
      → kept r' ≡ kept r
      → view r' ≡ ahead (view r)
  viewed r r' place same =
      let offset_ : offset_of r' ≡ (ahead (view r)).offset = ap (λ t. t.0) place in
      let bytes_ : stream source contract r' ≡ (ahead (view r)).bytes = ap (λ t. t.1) place in
      let table_ : r'.table_index ≡ r.table_index = ap (λ k. k.3) same in
      let row_ : r'.row_index ≡ r.row_index = ap (λ k. k.4) same in
      let range_ : r'.range_index ≡ r.range_index = ap (λ k. k.5) same in cc

  -- The rest of the loop behind a record, however it is classified.
  pub classified-Lined :
      (next : Reading I (Option Pending)) (v : View) (len : ℕ) (c : Result JobError Classified)
      (r : Reader I)
      → view r ≡ ahead v
      → scan_value std true (ahead v).bytes ≡ ok (complete len)
      → classify decoding (take len r.window) r.is_binary (offset_of r) ≡ c
      → len ≤ length r.window
      → IsValid source contract r
      → r.is_binary ≡ true
      → r.pending ≡ none
      → Continues next r len
      → Lined v (classified next len c r)
  classified-Lined next v len c r same ends is fits valid binary free rest = go c is
    where
      cut : take len (stream source contract r) ≡ take len r.window
      cut = take-append_le len r.window (contract.remaining r.input) fits

      bytes_ : stream source contract r ≡ (ahead v).bytes
      bytes_ = ap (λ w. w.bytes) same

      offset_ : offset_of r ≡ (ahead v).offset
      offset_ = ap (λ w. w.offset) same

      go :
          (c : Result JobError Classified)
          → classify decoding (take len r.window) r.is_binary (offset_of r) ≡ c
          → Lined v (classified next len c r)
      go (ok what) is_ =
          let is' : classify decoding (take len (ahead v).bytes) true (ahead v).offset ≡ ok what =
            rw (binary, sym cut, bytes_, offset_) at is_ in
          routed-Lined next v len what r same (record { ends = ends; is = is' }) fits valid binary
            free rest
      go (err e) is_ =
          let is' : classify decoding (take len (ahead v).bytes) true (ahead v).offset ≡ err e =
            rw (binary, sym cut, bytes_, offset_) at is_ in
          unclassified ends is'
