-- ===== src/Job/Stream/Lines.antt =====
-- What a reader lines up next, said of the stream alone: control records are applied and left behind,
-- up to a row, a key switch or the end.
use ytsaurus_rs.Base.{
  ℕ, ◌+◌, List, [], length, take, drop, Option, none, some, true, ◌≡◌, ◌≢◌, refl, sym, ap, ◌∙◌,
  arith, ok, inl, inr, ◌⊎◌,
}
use ytsaurus_rs.Yson.Lexer.Tokens.{Std}
use ytsaurus_rs.Yson.Scan.{complete, scan_value}
use ytsaurus_rs.Yson.Scan.Boundary.{scan_value_bounds}
use ytsaurus_rs.Job.Reader.{Pending, row, key_switch, skip}
use ytsaurus_rs.Job.Reader.Control.{
  Decoding, Classified, data_row, skip_record, boundary, to_table, to_row, to_range, classify,
}

-- A place in the stream, and what the control records before it have set.
pub record View : Type 0 where
  pub offset : ℕ
  pub bytes : List ℕ
  pub table_index : ℕ
  pub row_index : Option ℕ
  pub range_index : Option ℕ

abbrev pub past : ℕ → View → View
past len v = record v { offset = v.offset + len; bytes = drop len v.bytes }

-- What a record lines up, or how it sets the indices.
abbrev pub answer : Classified → ℕ → View → Pending ⊎ View
answer data_row len v = inl (row len)
answer boundary len v = inl (key_switch len)
answer skip_record len v = inr (past len v)
answer (to_table i) len v =
    inr (record (past len v) { table_index = i; row_index = none; range_index = none })
answer (to_row i) len v = inr (record (past len v) { row_index = some i })
answer (to_range i) len v = inr (record (past len v) { range_index = some i })

-- Behind the separators.
abbrev pub ahead : View → View
ahead v = record v { offset = (skip v.offset v.bytes).0; bytes = (skip v.offset v.bytes).1 }

module _ (std : Std) (decoding : Decoding) where
  -- Behind the separators stands a record of `len` bytes that is a `what`.
  pub record Head (v : View) (len : ℕ) (what : Classified) : Type 0 where
    pub ends : scan_value std true (ahead v).bytes ≡ ok (complete len)
    pub is : classify decoding (take len (ahead v).bytes) true (ahead v).offset ≡ ok what

  -- What is lined up from a place on, and where it stands.
  pub data Lines : View → Option Pending → View → Type 0 where
    at_end : {v : View} → (ahead v).bytes ≡ [] → Lines v none (ahead v)
    at_record :
        {v : View} {len : ℕ} {what : Classified} {p : Pending}
        → Head v len what
        → answer what len (ahead v) ≡ inl p
        → Lines v (some p) (ahead v)
    past_control :
        {v v' w : View} {len : ℕ} {what : Classified} {p : Option Pending}
        → Head v len what
        → answer what len (ahead v) ≡ inr v'
        → Lines v' p w
        → Lines v p w

  pub Head-same :
      {v : View} {len len' : ℕ} {what what' : Classified}
      → Head v len what
      → Head v len' what'
      → answer what len (ahead v) ≡ answer what' len' (ahead v)
  Head-same {v} {len} {len'} {what} {what'} h h' =
      let scans : ok (complete len) ≡ ok (complete len') = sym h.ends ∙ h'.ends in
      let len_ : len ≡ len' = cc in
      let again : classify decoding (take len (ahead v).bytes) true (ahead v).offset ≡ ok what' =
        rw (sym len_) at h'.is in
      let kinds : ok what ≡ ok what' = sym h.is ∙ again in
      let what_ : what ≡ what' = cc in rw (what_, len_) refl

  pub Head-nonempty :
      {v : View} {len : ℕ} {what : Classified} → Head v len what → (ahead v).bytes ≢ []
  Head-nonempty {v} {len} h nothing =
      let bound = scan_value_bounds std (ahead v).bytes len h.ends in
      let none_left : length (ahead v).bytes ≡ 0 = ap length nothing in omega (arith, bound)

  -- From a place in the stream at most one thing is lined up, at one place.
  pub Lines-same :
      {v w w' : View} {p p' : Option Pending} → Lines v p w → Lines v p' w' → (p ≡ p') × (w ≡ w')
  Lines-same (at_end e) (at_end e') = (refl, refl)
  Lines-same (at_end e) (at_record h a) = absurd (Head-nonempty h e)
  Lines-same (at_end e) (past_control h a l) = absurd (Head-nonempty h e)
  Lines-same (at_record h a) (at_end e) = absurd (Head-nonempty h e)
  Lines-same (at_record h a) (at_record h' a') = let same = Head-same h h' in (cc, refl)
  Lines-same (at_record h a) (past_control h' a' l) = let same = Head-same h h' in cc
  Lines-same (past_control h a l) (at_end e) = absurd (Head-nonempty h e)
  Lines-same (past_control h a l) (at_record h' a') = let same = Head-same h h' in cc
  Lines-same (past_control {v' = here} h a l) (past_control {v' = place} h' a' l') =
      let there : place ≡ here = let same = Head-same h h' in cc in Lines-same l (rw there at l')
