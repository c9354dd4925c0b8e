-- ===== src/Job/Writer/ReadBack.antt =====
-- A reader of what a writer has written to a table hands out the rows of the table.
use ytsaurus_rs.Base.{
  ℕ, ◌+◌, List, [], ◌∷◌, ◌++◌, length, take, drop, Option, none, some, true, false, ◌==◌, ◌≡◌, refl,
  ap, ◌∙◌, ok, append_assoc, take-append, drop-append,
}
use ytsaurus_rs.Yson.Lexer.Tokens.{Std}
use ytsaurus_rs.Yson.Scan.{complete, scan_value}
use ytsaurus_rs.Yson.Scan.Boundary.{scan_value-append}
use ytsaurus_rs.Job.Reader.{Pending, is_separator, skip}
use ytsaurus_rs.Job.Reader.Control.{Decoding, classify, data_row}
use ytsaurus_rs.Job.Groups.{Row, a_row}
use ytsaurus_rs.Job.Stream.Lines.{View, ahead, Head, Lines, at_end, at_record}
use ytsaurus_rs.Job.Stream.Events.{event_at}
use ytsaurus_rs.Job.Writer.{Sink, JobWriter, descriptors}
use ytsaurus_rs.Job.Writer.Sinks.{Written, Contents, held_at, rows_for, joined, Written-held_at}

module _ (std : Std) (decoding : Decoding) where
  -- From a place on, the stream has these rows, and then its end.
  pub data Hands : View → List (List ℕ) → Type 0 where
    ended : {v w : View} → Lines std decoding v none w → Hands v []
    handed :
        {v w v' : View} {p : Option Pending} {bytes : List ℕ} {rows : List (List ℕ)} (given : Row)
        → Lines std decoding v p w
        → event_at p w ≡ (some (a_row given), v')
        → given.bytes ≡ bytes
        → Hands v' rows
        → Hands v (bytes ∷ rows)

  -- One value of binary YSON without attributes.
  pub record IsRow (bytes : List ℕ) : Type 0 where
    pub first : ℕ
    pub others : List ℕ
    pub starts : bytes ≡ first ∷ others
    pub unseparated : is_separator first ≡ false
    pub plain : (first == b'<') ≡ false
    pub whole : scan_value std true bytes ≡ ok (complete (length bytes))

  abbrev pub AreRows : List (List ℕ) → Type 0
  AreRows [] = Unit {0}
  AreRows (bytes ∷ rows) = IsRow bytes × AreRows rows

  row-ahead :
      (bytes rest : List ℕ) (pos : ℕ) → IsRow bytes → (skip pos (bytes ++ rest)).1 ≡ bytes ++ rest
  unfolding skip
  row-ahead bytes rest pos r =
      let starts : bytes ++ rest ≡ r.first ∷ (r.others ++ rest) = ap (λ bs. bs ++ rest) r.starts in
      rw starts (rw (skip, r.unseparated) refl)

  skip-joined :
      (rows : List (List ℕ)) (pos : ℕ) → AreRows rows → (skip pos (joined rows)).1 ≡ joined rows
  unfolding skip
  skip-joined [] pos all = refl
  skip-joined (bytes ∷ rows) pos all =
      rw (append_assoc bytes (b';' ∷ []) (joined rows))
        (row-ahead bytes (b';' ∷ joined rows) pos all.0)

  row_classified :
      (bytes : List ℕ) (offset : ℕ)
      → IsRow bytes
      → classify decoding bytes true offset ≡ ok data_row
  unfolding classify
  row_classified bytes offset r = rw r.starts (rw r.plain refl)

  behind_row :
      (bytes : List ℕ) (rows : List (List ℕ)) (pos : ℕ) (whole : List ℕ)
      → AreRows rows
      → whole ≡ bytes ++ (b';' ∷ joined rows)
      → (skip pos (drop (length bytes) whole)).1 ≡ joined rows
  unfolding skip
  behind_row bytes rows pos whole all e =
      ap (λ bs. (skip pos (drop (length bytes) bs)).1) e
      ∙ ap (λ bs. (skip pos bs).1) (drop-append (length bytes) bytes (b';' ∷ joined rows) refl)
      ∙ skip-joined rows (pos + 1) all

  joined-Hands :
      (rows : List (List ℕ)) (v : View)
      → AreRows rows
      → (ahead v).bytes ≡ joined rows
      → Hands v rows
  joined-Hands [] v all e = ended (at_end e)
  joined-Hands (bytes ∷ rows) v all e =
      let e' : (ahead v).bytes ≡ bytes ++ (b';' ∷ joined rows) =
        e ∙ append_assoc bytes (b';' ∷ []) (joined rows) in
      let cut : take (length bytes) (ahead v).bytes ≡ bytes =
        ap (take (length bytes)) e' ∙ take-append (length bytes) bytes (b';' ∷ joined rows) refl in
      let head : Head std decoding v (length bytes) data_row = record {
        ends =
            ap (scan_value std true) e'
            ∙ scan_value-append std bytes (b';' ∷ joined rows) (ok (complete (length bytes)))
                all.0.whole (λ same. cc);
        is =
            ap (λ bs. classify decoding bs true (ahead v).offset) cut
            ∙ row_classified bytes (ahead v).offset all.0;
      } in
      handed _ (at_record head refl) refl cut (
        joined-Hands rows _ all.1
          (behind_row bytes rows ((ahead v).offset + length bytes) (ahead v).bytes all.1 e'))

  -- From a place on, at which a stream is what the sink of a table holds, it has the rows written to
  -- that table.
  pub Written-Hands :
      {K : Type 0} (sink : Sink K) (contents : Contents sink) {w w' : JobWriter K}
      {rows : List (ℕ × List ℕ)} (t : ℕ) (v : View)
      → w.routing ≡ descriptors
      → held_at sink contents t w.tables ≡ []
      → Written sink w rows w'
      → AreRows (rows_for t rows)
      → v.bytes ≡ held_at sink contents t w'.tables
      → Hands v (rows_for t rows)
  Written-Hands sink contents {rows = rows} t v one fresh all_written all from =
      let whole : v.bytes ≡ joined (rows_for t rows) =
        from
        ∙ Written-held_at sink contents t one all_written
        ∙ ap (λ bs. bs ++ joined (rows_for t rows)) fresh in
      joined-Hands (rows_for t rows) v all
        (ap (λ bs. (skip v.offset bs).1) whole ∙ skip-joined (rows_for t rows) v.offset all)
