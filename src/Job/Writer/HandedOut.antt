-- ===== src/Job/Writer/HandedOut.antt =====
-- What a reader of a job answers, call by call, on what a writer of a job has written to a table.
use ytsaurus_rs.Base.{
  ℕ, ◌<◌, List, [], ◌∷◌, length, Option, none, some, true, ◌≡◌, refl, ap, ◌∙◌, Result, ok, err,
}
use ytsaurus_rs.Yson.Lexer.Tokens.{Std}
use ytsaurus_rs.Job.{JobError}
use ytsaurus_rs.Job.Reader.{Source, Pending, Reader}
use ytsaurus_rs.Job.Reader.Control.{Decoding}
use ytsaurus_rs.Job.Groups.{Row, Event, a_row, a_key_switch, next_event}
use ytsaurus_rs.Job.Stream.{Contract, stream, budget, IsValid}
use ytsaurus_rs.Job.Stream.Failures.{IsOutside, Fails-IsOutside}
use ytsaurus_rs.Job.Stream.Lines.{View, Lines, Lines-same}
use ytsaurus_rs.Job.Stream.Routes.{view}
use ytsaurus_rs.Job.Stream.Events.{event_at, Told, next_event-Told}
use ytsaurus_rs.Job.Writer.{Sink, JobWriter, descriptors}
use ytsaurus_rs.Job.Writer.Sinks.{Written, Contents, held_at, rows_for}
use ytsaurus_rs.Job.Writer.ReadBack.{Hands, ended, handed, AreRows, Written-Hands}

module _ (std : Std) (decoding : Decoding) {I : Type 0} (source : Source I)
    (contract : Contract source) where
  -- A call that answers a row of these bytes, with a reader for which `Then` holds, unless it fails for what
  -- is not of the stream.
  abbrev pub RowOf :
      List ℕ → (Reader I → Type 0) → Result JobError (Option Event × Reader I) → Type 0
  RowOf bytes Then (ok (some (a_row given), r)) = (given.bytes ≡ bytes) × Then r
  RowOf bytes Then (ok (e, r)) = ⊥
  RowOf bytes Then (err e) = IsOutside e

  -- A call that answers the end, unless it fails for what is not of the stream.
  abbrev pub End : Result JobError (Option Event × Reader I) → Type 0
  End (ok (none, r)) = Unit
  End (ok (some e, r)) = ⊥
  End (err e) = IsOutside e

  -- The calls of `next_event` answer these rows, one for one, and then the end, up to one that
  -- fails.
  -- Each has fuel for the reads and the bytes to come.
  unfoldable pub Reads : List (List ℕ) → Reader I → Type 0
  Reads [] r =
      (fuel : ℕ)
      → budget source contract r < fuel
      → length (stream source contract r) < fuel
      → End (next_event std decoding source fuel r)
  Reads (bytes ∷ rows) r =
      (fuel : ℕ)
      → budget source contract r < fuel
      → length (stream source contract r) < fuel
      → RowOf bytes (Reads rows) (next_event std decoding source fuel r)

  Told-End :
      {v w : View} (res : Result JobError (Option Event × Reader I))
      → Told std decoding source contract v res
      → Lines std decoding v none w
      → End res
  Told-End (ok (none, r)) told line = tt
  Told-End (ok (some e, r)) told line =
      let same = Lines-same std decoding told.0.2 line in
      let events : (some e, view std decoding source contract r) ≡ event_at none told.0.1 =
        told.0.3 ∙ ap (λ p. event_at p told.0.1) same.0 in
      let nothing : some e ≡ none = ap (λ q. q.0) events in cc
  Told-End (err e) told line = Fails-IsOutside std decoding line told.1

  Told-RowOf :
      {v w v' : View} {p : Option Pending} (given : Row) (bytes : List ℕ) (Then : Reader I → Type 0)
      (res : Result JobError (Option Event × Reader I))
      → Told std decoding source contract v res
      → Lines std decoding v p w
      → event_at p w ≡ (some (a_row given), v')
      → given.bytes ≡ bytes
      → ((r : Reader I)
          → IsValid source contract r
          → r.is_binary ≡ true
          → r.pending ≡ none
          → view std decoding source contract r ≡ v'
          → Then r)
      → RowOf bytes Then res
  Told-RowOf {v} {w} {v'} {p} given bytes Then (ok (e, r)) told line at_ same_bytes later =
      let same = Lines-same std decoding told.0.2 line in
      let events : (e, view std decoding source contract r) ≡ (some (a_row given), v') =
        told.0.3 ∙ (ap (λ p. event_at p told.0.1) same.0 ∙ ap (event_at p) same.1) ∙ at_ in
      go e (ap (λ q. q.0) events) (later r told.1 told.2 told.3 (ap (λ q. q.1) events))
    where
      go : (e : Option Event) → e ≡ some (a_row given) → Then r → RowOf bytes Then (ok (e, r))
      go none k then_ = cc
      go (some a_key_switch) k then_ = cc
      go (some (a_row given')) k then_ =
          let rows : given' ≡ given = cc in (ap (λ (g : Row). g.bytes) rows ∙ same_bytes, then_)
  Told-RowOf given bytes Then (err e) told line at_ same_bytes later =
      Fails-IsOutside std decoding line told.1

  Hands-Reads :
      {v : View} {rows : List (List ℕ)} (r : Reader I)
      → Hands std decoding v rows
      → view std decoding source contract r ≡ v
      → IsValid source contract r
      → r.is_binary ≡ true
      → r.pending ≡ none
      → Reads rows r
  unfolding Reads
  Hands-Reads r (ended line) place valid binary free = λ fuel patient fueled.
      Told-End (next_event std decoding source fuel r)
        (rw place at
          (next_event-Told std decoding source contract fuel r valid binary free patient fueled))
        line
  Hands-Reads r (handed {bytes = bytes} {rows = rows} given line at_ same_bytes later) place valid
        binary free =
      λ fuel patient fueled.
        Told-RowOf given bytes (Reads rows) (next_event std decoding source fuel r)
          (rw place at
            (next_event-Told std decoding source contract fuel r valid binary free patient fueled))
          line at_ same_bytes
          (λ r' valid' binary' free' place'. Hands-Reads r' later place' valid' binary' free')

  -- What a job writes to a table is what a job reads from it. Behind writes of encoded rows that all
  -- succeed, to a writer with an empty sink for each table, a reader whose stream is what the sink of a
  -- table holds answers, by one call of `next_event` each, the rows that were written to that table,
  -- byte for byte and in their order, and then the end of the stream, up to a call that fails with the
  -- input or with the limit on the size of a record. Each call has fuel for the reads and the bytes
  -- to come. A row is here one value of binary YSON without
  -- attributes.
  pub Written-Reads :
      {K : Type 0} (sink : Sink K) (contents : Contents sink) {w w' : JobWriter K}
      {rows : List (ℕ × List ℕ)} (t : ℕ) (r : Reader I)
      → w.routing ≡ descriptors
      → held_at sink contents t w.tables ≡ []
      → Written sink w rows w'
      → AreRows std decoding (rows_for t rows)
      → stream source contract r ≡ held_at sink contents t w'.tables
      → IsValid source contract r
      → r.is_binary ≡ true
      → r.pending ≡ none
      → Reads (rows_for t rows) r
  Written-Reads sink contents t r one fresh all_written all held valid binary free =
      Hands-Reads r
        (Written-Hands std decoding sink contents t (view std decoding source contract r) one fresh
          all_written all held)
        refl valid binary free
