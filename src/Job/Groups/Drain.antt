-- ===== src/Job/Groups/Drain.antt =====
-- How much of a group its caller reads makes no difference to the next group.
use ytsaurus_rs.Base.{
  ℕ, zero, suc, List, take, Option, none, some, Bool, true, false, ◌≡◌, refl, ap, Result, ok, err,
}
use ytsaurus_rs.Base.Actions.{continue_with}
use ytsaurus_rs.Yson.Lexer.Tokens.{Std}
use ytsaurus_rs.Job.{JobError}
use ytsaurus_rs.Job.Reader.{
  Source, Pending, row, key_switch, Reader, Reading, offset_of, next_record_len,
}
use ytsaurus_rs.Job.Reader.Control.{
  Decoding, Classified, data_row, skip_record, boundary, to_table, to_row, to_range, classify,
  route, classified, routed, line_up, consume, discarding, unless_pending, ensure_pending,
}
use ytsaurus_rs.Job.Groups.{
  Row, Group, drained, drain, first_of, next_group, row_of, unless_done, next_row,
}

module _ {I : Type 0} (std : Std) (decoding : Decoding) (source : Source I) where
  abbrev Found : Type 0
  Found = Result JobError (Option Pending × Reader I)

  -- What is lined up is pending.
  abbrev Keeps : Found → Type 0
  Keeps (ok (some p, r)) = r.pending ≡ some p
  Keeps (ok (none, r)) = Unit {0}
  Keeps (err e) = Unit {0}

  route-Keeps :
      (next : Reading I (Option Pending)) (len : ℕ) (what : Classified) (r : Reader I)
      → ((r' : Reader I) → Keeps (next r'))
      → Keeps (route next len what r)
  route-Keeps next len data_row r rest = refl
  route-Keeps next len boundary r rest = refl
  route-Keeps next len skip_record r rest = rest _
  route-Keeps next len (to_table i) r rest = rest _
  route-Keeps next len (to_row i) r rest = rest _
  route-Keeps next len (to_range i) r rest = rest _

  classified-Keeps :
      (next : Reading I (Option Pending)) (len : ℕ) (c : Result JobError Classified) (r : Reader I)
      → ((r' : Reader I) → Keeps (next r'))
      → Keeps (classified next len c r)
  classified-Keeps next len (ok what) r rest = route-Keeps next len what r rest
  classified-Keeps next len (err e) r rest = tt

  routed-Keeps :
      (next : Reading I (Option Pending)) (f : Result JobError (Option ℕ × Reader I))
      → ((r' : Reader I) → Keeps (next r'))
      → Keeps (continue_with f (routed std decoding source next))
  routed-Keeps next (ok (none, r)) rest = tt
  routed-Keeps next (ok (some len, r)) rest =
      classified-Keeps next len (classify decoding (take len r.window) r.is_binary (offset_of r)) r
        rest
  routed-Keeps next (err e) rest = tt

  line_up-Keeps : (reads fuel : ℕ) (r : Reader I) → Keeps (line_up std decoding source reads fuel r)
  unfolding line_up
  line_up-Keeps reads zero r = tt
  line_up-Keeps reads (suc fuel) r =
      routed-Keeps (line_up std decoding source reads fuel) (next_record_len std source reads r)
        (line_up-Keeps reads fuel)

  unless-Keeps :
      (fuel : ℕ) (r : Reader I) (p : Option Pending)
      → r.pending ≡ p
      → Keeps (unless_pending std decoding source p (line_up std decoding source fuel fuel) r)
  unless-Keeps fuel r none e = line_up-Keeps fuel fuel r
  unless-Keeps fuel r (some p) e = e

  ensure_pending-Keeps :
      (fuel : ℕ) (r : Reader I) → Keeps (ensure_pending std decoding source fuel r)
  unfolding ensure_pending
  ensure_pending-Keeps fuel r = unless-Keeps fuel r r.pending refl

  row_read :
      (reads fuel : ℕ) (g g' : Group I) (given : Row) (f : Found)
      → Keeps f
      → continue_with f (row_of std decoding source g) ≡ ok (some given, g')
      → continue_with f (drained std decoding source (drain std decoding source reads fuel))
        ≡ drain std decoding source reads fuel g'.reader
  row_read reads fuel g g' given (ok (none, r)) kept e = cc
  row_read reads fuel g g' given (ok (some (key_switch len), r)) kept e = cc
  row_read reads fuel g g' given (ok (some (row len), r)) kept e =
      let same : discarding r.pending r ≡ consume len r = ap (λ q. discarding q r) kept in
      let given_ : g'.reader ≡ consume len r = cc in rw (same, given_) refl
  row_read reads fuel g g' given (err e') kept e = cc

  next_row-drain :
      (reads fuel : ℕ) (g g' : Group I) (given : Row) (d : Bool)
      → unless_done std decoding source d g (
          continue_with
            (ensure_pending std decoding source reads g.reader)
            (row_of std decoding source g))
        ≡ ok (some given, g')
      → drain std decoding source reads (suc fuel) g.reader
        ≡ drain std decoding source reads fuel g'.reader
  unfolding drain
  next_row-drain reads fuel g g' given true e = cc
  next_row-drain reads fuel g g' given false e =
      row_read reads fuel g g' given (ensure_pending std decoding source reads g.reader)
        (ensure_pending-Keeps reads g.reader) e

  -- A caller that reads a row of a group and one that leaves it get the same next group, and the same
  -- reader behind it: the rows left are skipped, counted as if they had been read. One round of the draining
  -- loop less is needed for a row that was read.
  pub next_row-next_group :
      (reads fuel : ℕ) (columns : List (List ℕ)) (g g' : Group I) (given : Row)
      → next_row std decoding source reads g ≡ ok (some given, g')
      → next_group std decoding source reads
          (suc fuel)
          (record { reader = g.reader; in_group = true; key_columns = columns })
        ≡ next_group std decoding source reads fuel
            (record { reader = g'.reader; in_group = true; key_columns = columns })
  unfolding next_group next_row
  next_row-next_group reads fuel columns g g' given e =
      ap (λ f. continue_with f (first_of std decoding source reads columns))
        (next_row-drain reads fuel g g' given g.done e)
