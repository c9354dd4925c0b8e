-- ===== src/Job/Stream/LineUp.antt =====
-- `ensure_pending` lines up what the stream alone says, however its bytes arrive.
use ytsaurus_rs.Base.{
  ℕ, zero, suc, ◌≤◌, ◌<◌, [], ◌++◌, length, take, drop, Option, none, some, true, ◌≡◌, refl, sym,
  ap, ◌∙◌, arith, Result, ok, err, length-append, length-drop,
}
use ytsaurus_rs.Base.Actions.{continue_with}
use ytsaurus_rs.Yson.Lexer.Tokens.{Std}
use ytsaurus_rs.Yson.Scan.Boundary.{scan_value_bounds}
use ytsaurus_rs.Job.{
  JobError, yson, truncated_record, record_too_large, read_failed, bad_control_record, out_of_fuel,
}
use ytsaurus_rs.Job.Reader.{Source, Pending, Reader, Reading, offset_of, next_record_len}
use ytsaurus_rs.Job.Reader.Control.{
  Decoding, classify, routed, line_up, unless_pending, ensure_pending,
}
use ytsaurus_rs.Job.Stream.{Contract, kept, stream, budget, IsValid}
use ytsaurus_rs.Job.Stream.Records.{Answers, target, next_record_len-Answers}
use ytsaurus_rs.Job.Stream.Failures.{unread, unscanned, cut_off, not_within}
use ytsaurus_rs.Job.Stream.Routes.{view, Lined, viewed, classified-Lined}
use ytsaurus_rs.Job.Stream.Skips.{length-skip, skip_le}
use ytsaurus_rs.Job.Stream.Lines.{ahead, at_end}

module _ (std : Std) (decoding : Decoding) {I : Type 0} (source : Source I)
    (contract : Contract source) where
  -- The rest of a search that has found a record, or none.
  found-Lined :
      (next : Reading I (Option Pending)) (r : Reader I) (f : Result JobError (Option ℕ × Reader I))
      → r.pending ≡ none
      → r.is_binary ≡ true
      → Answers std source contract
          (target std source contract r)
          (kept r)
          (budget source contract r)
          f
      → ((r' : Reader I)
          → IsValid source contract r'
          → r'.is_binary ≡ true
          → r'.pending ≡ none
          → budget source contract r' ≤ budget source contract r
          → length (stream source contract r') < length (stream source contract r)
          → Lined std decoding source contract (view std decoding source contract r') (next r'))
      → Lined std decoding source contract
          (view std decoding source contract r)
          (continue_with f (routed std decoding source next))
  found-Lined next r (ok (none, r')) free binary h rest =
      let place : (offset_of r', stream source contract r') ≡ target std source contract r =
        rw h.4 h.1 in
      let nothing : (ahead (view std decoding source contract r)).bytes ≡ [] =
        sym (ap (λ t. t.1) h.1) in
      (
        rw (viewed std decoding source contract r r' place h.2) (at_end nothing),
        h.0,
        ap (λ k. k.2) h.2 ∙ free,
        ap (λ k. k.0) h.2 ∙ binary,
        tt,
      )
  found-Lined next r (ok (some len, r')) free binary h rest =
      let same : view std decoding source contract r'
          ≡ ahead (view std decoding source contract r) =
        viewed std decoding source contract r r' h.1 h.2 in
      let shorter : length (stream source contract r') ≤ length (stream source contract r) =
        let here : stream source contract r' ≡ (ahead (view std decoding source contract r)).bytes =
          ap (λ t. t.1) h.1 in
        let count : length (stream source contract r')
            ≡ length (ahead (view std decoding source contract r)).bytes =
          ap length here in
        let place : offset_of r' ≡ (ahead (view std decoding source contract r)).offset =
          ap (λ t. t.0) h.1 in
        omega (
          arith,
          length-skip (offset_of r) (stream source contract r),
          skip_le (offset_of r) (stream source contract r),
        ) in
      let bound =
        scan_value_bounds std (ahead (view std decoding source contract r)).bytes len h.5 in
      classified-Lined std decoding source contract next (view std decoding source contract r) len
        (classify decoding (take len r'.window) r'.is_binary (offset_of r')) r' same h.5 refl h.4
        h.0 (ap (λ k. k.0) h.2 ∙ binary) (ap (λ k. k.2) h.2 ∙ free)
        (λ r'' valid binary' free' cost window_ input_.
          let split = length-append r'.window (contract.remaining r'.input) in
          let split' = length-append (drop len r'.window) (contract.remaining r'.input) in
          let left : length (stream source contract r'')
              ≡ length (drop len r'.window ++ contract.remaining r'.input) =
            rw (window_, input_) refl in
          rest r'' valid binary' free' (omega (arith, cost, h.3))
            (omega (arith, shorter, split, split', left, bound, h.4, length-drop len r'.window)))
  found-Lined next r (err (read_failed m)) free binary h rest = unread
  found-Lined next r (err (yson at_ e)) free binary h rest = rw h.0 (unscanned h.1)
  found-Lined next r (err (truncated_record at_ n)) free binary h rest =
      rw (h.0, h.1) (cut_off (rw h.1 at h.2) h.3)
  found-Lined next r (err (record_too_large at_ most)) free binary h rest =
      rw h.0 (not_within h.2.1 h.2.2 h.2.3)
  found-Lined next r (err (bad_control_record at_ reason)) free binary h rest = absurd h
  found-Lined next r (err out_of_fuel) free binary h rest = absurd h

  -- Given fuel for the reads and for the records of the stream, the loop lines up what the stream says.
  line_up-Lined :
      (reads fuel : ℕ) (r : Reader I)
      → IsValid source contract r
      → r.is_binary ≡ true
      → r.pending ≡ none
      → budget source contract r < reads
      → length (stream source contract r) < fuel
      → Lined std decoding source contract
          (view std decoding source contract r)
          (line_up std decoding source reads fuel r)
  unfolding line_up
  line_up-Lined reads zero r valid binary free patient fueled = absurd (omega arith)
  line_up-Lined reads (suc fuel) r valid binary free patient fueled =
      found-Lined (line_up std decoding source reads fuel) r (next_record_len std source reads r)
        free binary (next_record_len-Answers std source contract reads r valid binary patient)
        (λ r' valid' binary' free' cost shorter.
          line_up-Lined reads fuel r' valid' binary' free' (omega arith) (omega arith))

  -- A reader of binary YSON with nothing pending, given fuel for the reads and the bytes to come, lines up
  -- the record that the stream alone says comes next: the same row or key switch, at the same place of the
  -- stream and under the same table, row and range index, or the end. It keeps the reader well formed, with
  -- the record in its window, or fails as the stream says.
  pub ensure_pending-Lined :
      (fuel : ℕ) (r : Reader I)
      → IsValid source contract r
      → r.is_binary ≡ true
      → r.pending ≡ none
      → budget source contract r < fuel
      → length (stream source contract r) < fuel
      → Lined std decoding source contract
          (view std decoding source contract r)
          (ensure_pending std decoding source fuel r)
  unfolding ensure_pending
  ensure_pending-Lined fuel r valid binary free patient fueled = go r.pending free
    where
      go :
          (p : Option Pending)
          → p ≡ none
          → Lined std decoding source contract
              (view std decoding source contract r)
              (unless_pending std decoding source p (line_up std decoding source fuel fuel) r)
      go none e = line_up-Lined fuel fuel r valid binary free patient fueled
      go (some pending) e = cc
