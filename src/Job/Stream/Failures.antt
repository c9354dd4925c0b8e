-- ===== src/Job/Stream/Failures.antt =====
-- Why a reader can fail to line up a record, said of the stream alone.
use ytsaurus_rs.Base.{
  ℕ, ◌≤◌, [], length, take, Option, true, ◌≡◌, ◌≢◌, refl, sym, ap, ◌∙◌, arith, ok, err, inr,
}
use mathlib.Core.Path.{subst}
use ytsaurus_rs.Yson.{YsonError}
use ytsaurus_rs.Yson.Lexer.Tokens.{Std}
use ytsaurus_rs.Yson.Lexer.{parse_binary_token}
use ytsaurus_rs.Yson.Lexer.Tokens.{next_token, peek_byte}
use ytsaurus_rs.Yson.Scan.{
  complete, incomplete, scan_value, scan_tree, scan_fragment, scan_all, scan_items,
}
use ytsaurus_rs.Yson.Scan.Boundary.{scan_value_bounds}
use ytsaurus_rs.Job.{JobError, yson, truncated_record, record_too_large, read_failed, out_of_fuel}
use ytsaurus_rs.Job.Reader.{Pending}
use ytsaurus_rs.Job.Reader.Control.{Decoding, Classified, classify}
use ytsaurus_rs.Job.Stream.Classes.{classify-out_of_fuel}
use ytsaurus_rs.Job.Stream.Lines.{
  View, answer, ahead, Head, Head-same, Head-nonempty, Lines, at_end, at_record, past_control,
}

-- A failure of the input, or of the limit for a record that is not whole within it.
abbrev pub IsOutside : JobError → Type 0
IsOutside (read_failed message) = Unit
IsOutside (record_too_large offset most) = Unit
IsOutside e = ⊥

module _ (std : Std) (decoding : Decoding) where
  -- From a place on: the input fails; or behind the separators the scan fails, the stream ends within a
  -- record, a record is not whole within as many bytes as the limit, or a control record is refused; or
  -- this happens behind a control record.
  pub data Fails : View → JobError → Type 0 where
    unread : {v : View} {message : _} → Fails v (read_failed message)
    unscanned :
        {v : View} {e : YsonError}
        → scan_value std true (ahead v).bytes ≡ err e
        → Fails v (yson (ahead v).offset e)
    cut_off :
        {v : View}
        → 1 ≤ length (ahead v).bytes
        → scan_value std true (ahead v).bytes ≡ ok incomplete
        → Fails v (truncated_record (ahead v).offset (length (ahead v).bytes))
    not_within :
        {v : View} {most n : ℕ}
        → most ≤ n
        → n ≤ length (ahead v).bytes
        → scan_value std true (take n (ahead v).bytes) ≡ ok incomplete
        → Fails v (record_too_large (ahead v).offset most)
    unclassified :
        {v : View} {len : ℕ} {e : JobError}
        → scan_value std true (ahead v).bytes ≡ ok (complete len)
        → classify decoding (take len (ahead v).bytes) true (ahead v).offset ≡ err e
        → Fails v e
    behind_control :
        {v v' : View} {len : ℕ} {what : Classified} {e : JobError}
        → Head std decoding v len what
        → answer what len (ahead v) ≡ inr v'
        → Fails v' e
        → Fails v e

  pub Fails-out_of_fuel : {v : View} {e : JobError} → Fails v e → e ≢ out_of_fuel
  Fails-out_of_fuel unread e = cc
  Fails-out_of_fuel (unscanned h) e = cc
  Fails-out_of_fuel (cut_off some_bytes h) e = cc
  Fails-out_of_fuel (not_within large fits h) e = cc
  Fails-out_of_fuel {v} (unclassified {len = len} h refused) e =
      classify-out_of_fuel decoding (take len (ahead v).bytes) true (ahead v).offset
        (refused ∙ ap err e)
  Fails-out_of_fuel (behind_control head goes later) e = Fails-out_of_fuel later e

  nothing_scanned : scan_value std true [] ≡ ok incomplete
  unfolding scan_value scan_tree next_token parse_binary_token scan_fragment scan_all scan_items
      peek_byte
  nothing_scanned = refl

  classified_twice :
      {v : View} {len len' : ℕ} {what : Classified} {e : JobError}
      → Head std decoding v len what
      → scan_value std true (ahead v).bytes ≡ ok (complete len')
      → classify decoding (take len' (ahead v).bytes) true (ahead v).offset ≢ err e
  classified_twice {v} {len} {len'} head h refused =
      let scans : ok (complete len) ≡ ok (complete len') = sym head.ends ∙ h in
      let len_ : len ≡ len' = cc in
      let again = rw len_ at head.is in let both = sym again ∙ refused in cc

  -- Where the stream has a record or its end, nothing of the stream itself makes a call fail.
  pub Fails-IsOutside :
      {v w : View} {p : Option Pending} {e : JobError}
      → Lines std decoding v p w
      → Fails v e
      → IsOutside e
  Fails-IsOutside l unread = tt
  Fails-IsOutside l (not_within large fits h) = tt
  Fails-IsOutside (at_end e) (unscanned h) = let same = sym nothing_scanned ∙ (rw e at h) in cc
  Fails-IsOutside (at_end {v} e) (cut_off some_bytes h) =
      let nothing : length (ahead v).bytes ≡ 0 = ap length e in absurd (omega (arith, some_bytes))
  Fails-IsOutside (at_end {v} e) (unclassified {len = len} h refused) =
      let nothing : length (ahead v).bytes ≡ 0 = ap length e in
      absurd (omega (arith, scan_value_bounds std (ahead v).bytes len h))
  Fails-IsOutside (at_end e) (behind_control head goes later) =
      absurd (Head-nonempty std decoding head e)
  Fails-IsOutside (at_record head is) (unscanned h) = let other = sym head.ends ∙ h in cc
  Fails-IsOutside (at_record head is) (cut_off some_bytes h) = let other = sym head.ends ∙ h in cc
  Fails-IsOutside (at_record head is) (unclassified h refused) =
      absurd (classified_twice head h refused)
  Fails-IsOutside (at_record head is) (behind_control head' goes later) =
      let same = Head-same std decoding head head' in cc
  Fails-IsOutside (past_control head goes l) (unscanned h) = let other = sym head.ends ∙ h in cc
  Fails-IsOutside (past_control head goes l) (cut_off some_bytes h) =
      let other = sym head.ends ∙ h in cc
  Fails-IsOutside (past_control head goes l) (unclassified h refused) =
      absurd (classified_twice head h refused)
  Fails-IsOutside {e = e} (past_control {v' = here} head goes l)
        (behind_control {v' = place} head' goes' later) =
      let there : place ≡ here = let same = Head-same std decoding head head' in cc in
      Fails-IsOutside l (subst (λ v. Fails v e) there later)
