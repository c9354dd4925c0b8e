-- ===== src/Yson/Scan/Boundary.antt =====
-- Where a scan of binary YSON finds the end of a value, as the buffer fills.
use ytsaurus_rs.Base.{
  ℕ, ◌+◌, ◌≤◌, ◌<◌, List, ◌++◌, length, take, drop, true, false, ◌≡◌, ◌≢◌, refl, sym, ap, ◌∙◌,
  arith, Result, ok, err, Result-cases, inl, inr, ◌⊎◌, take-append-drop, length-take,
}
use ytsaurus_rs.Yson.{YsonError, eof, unexpected_eof, out_of_fuel, is_open}
use ytsaurus_rs.Yson.Lexer.{Cursor, begin}
use ytsaurus_rs.Yson.Lexer.Tokens.{Std}
use ytsaurus_rs.Yson.Scan.{Scan, complete, incomplete, scanned, scan_tree, scan_value, max_depth}
use ytsaurus_rs.Yson.Scan.Append.{Extends, scan_tree-IsStable}
use ytsaurus_rs.Yson.Scan.Measure.{Moved, scan_tree-Moves}

abbrev Found : Type 0
Found = Result YsonError (Unit {0} × Cursor)

-- How an error is answered.
scanned_cases :
    (e : YsonError)
    → (scanned (err e) ≡ ok incomplete)
      ⊎ ((scanned (err e) ≡ err e) × ((is_open e ≡ false) ⊎ (e ≡ out_of_fuel)))
scanned_cases eof = inl refl
scanned_cases (unexpected_eof at_) = inl refl
scanned_cases out_of_fuel = inr (refl, inr refl)
scanned_cases _ = inr (refl, inl refl)

scanned-Extends :
    (more : List ℕ) (r r' : Found) (answer : Result YsonError Scan)
    → Extends more r r'
    → scanned r ≡ answer
    → answer ≢ ok incomplete
    → answer ≢ err out_of_fuel
    → scanned r' ≡ answer
scanned-Extends more (ok (u, c)) r' answer h e closed fueled = rw h e
scanned-Extends more (err e') r' answer h e closed fueled = elim (scanned_cases e') [
  | inl waits ↦ absurd (closed (sym e ∙ waits))
  | inr (fails, inl firm) ↦ rw (h firm) e
  | inr (fails, inr same) ↦ absurd (fueled (sym e ∙ fails ∙ ap err same))
]

scanned-Moved :
    (input : List ℕ) (r : Found) (len : ℕ)
    → Moved 1 (begin input) r
    → scanned r ≡ ok (complete len)
    → (1 ≤ len) × (len ≤ length input)
scanned-Moved input (ok (u, c)) len h e = let same : c.pos ≡ len = cc in omega (arith, h)
scanned-Moved input (err e') len h e = elim (scanned_cases e') [
  | inl waits ↦ cc
  | inr fails ↦ let same : scanned (err e') ≡ err e' = fails.0 in cc
]

scanned-out_of_fuel :
    (input : List ℕ) (r : Found) → Moved 1 (begin input) r → scanned r ≢ err out_of_fuel
scanned-out_of_fuel input (ok (u, c)) h e = cc
scanned-out_of_fuel input (err e') h e = elim (scanned_cases e') [
  | inl waits ↦ cc
  | inr fails ↦ let same : scanned (err e') ≡ err e' = fails.0 in h cc
]

module _ (std : Std) (input : List ℕ) where
  stable :
      (more : List ℕ)
      → Extends more
          (scan_tree std true (max_depth + 1) (begin input))
          (scan_tree std true (max_depth + 1) (begin (input ++ more)))
  stable more = scan_tree-IsStable std (max_depth + 1) (begin input) more

  moved : Moved 1 (begin input) (scan_tree std true (max_depth + 1) (begin input))
  moved = scan_tree-Moves std (max_depth + 1) (begin input)

  -- In binary YSON an answer does not change when more bytes come, unless it is the wish for them: a
  -- value that was found keeps its length, and malformed input stays malformed in the same way.
  pub scan_value-append :
      (more : List ℕ) (answer : Result YsonError Scan)
      → scan_value std true input ≡ answer
      → answer ≢ ok incomplete
      → scan_value std true (input ++ more) ≡ answer
  unfolding scan_value
  scan_value-append more answer e closed =
      scanned-Extends more (scan_tree std true (max_depth + 1) (begin input))
        (scan_tree std true (max_depth + 1) (begin (input ++ more))) answer (stable more) e closed
        (λ fueled.
          scanned-out_of_fuel input (scan_tree std true (max_depth + 1) (begin input)) moved
            (e ∙ fueled))

  -- The loops of a scan of binary YSON never run out of fuel: it ends with a length, the wish for more
  -- bytes or an error of the source.
  pub scan_value-out_of_fuel : scan_value std true input ≢ err out_of_fuel
  unfolding scan_value
  scan_value-out_of_fuel =
      scanned-out_of_fuel input (scan_tree std true (max_depth + 1) (begin input)) moved

  -- A value that is found has a byte at least, and lies in the buffer.
  pub scan_value_bounds :
      (len : ℕ) → scan_value std true input ≡ ok (complete len) → (1 ≤ len) × (len ≤ length input)
  unfolding scan_value
  scan_value_bounds len =
      scanned-Moved input (scan_tree std true (max_depth + 1) (begin input)) len moved

-- Every cut of a binary value short of its end asks for more bytes: it is never taken for a shorter value
-- nor for malformed input.
pub scan_value-take :
    (std : Std) (input : List ℕ) (len n : ℕ)
    → scan_value std true input ≡ ok (complete len)
    → n < len
    → scan_value std true (take n input) ≡ ok incomplete
scan_value-take std input len n found cut =
    elim (Result-cases (scan_value std true (take n input))) [
      | inr (e, failed) ↦
          let again : scan_value std true (take n input ++ drop n input) ≡ err e =
            scan_value-append std (take n input) (drop n input) (err e) failed (λ same. cc) in
          let whole : scan_value std true input ≡ err e = rw (take-append-drop n input) at again in
          cc
      | inl (incomplete, waits) ↦ waits
      | inl (complete k, ends) ↦
          let again : scan_value std true (take n input ++ drop n input) ≡ ok (complete k) =
            scan_value-append std (take n input) (drop n input) (ok (complete k)) ends
              (λ same. cc) in
          let whole : scan_value std true input ≡ ok (complete k) =
            rw (take-append-drop n input) at again in
          let same : k ≡ len = cc in
          absurd (omega (arith, scan_value_bounds std (take n input) k ends, length-take n input))
    ]
