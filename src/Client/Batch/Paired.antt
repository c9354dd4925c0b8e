-- ===== src/Client/Batch/Paired.antt =====
-- The answers of a batch and its parts, one for one.
use mathlib.Core.Path.{subst}
use ytsaurus_rs.Base.{
  ℕ, zero, suc, List, [], ◌∷◌, length, Option, none, some, Bool, ◌==◌, ◌≡◌, refl, ap, arith, Result,
  ok, err, guard, >>=-eq-ok, ok-injective, Result-cases, ◌≢◌, ◌∙◌, inl, inr, Option-cases,
}
use ytsaurus_rs.Yson.{YsonError}
use ytsaurus_rs.Yson.Node.{YsonValue, Attributes, value, list, map, YsonList, nil, item, get}
use ytsaurus_rs.Client.Batch.{BatchPart, Output, keyed, unchecked}
use ytsaurus_rs.Client.Batch.Keys.{k_results, k_error, k_output}
use ytsaurus_rs.Client.Batch.Results.{
  Refusal, not_yson, no_results, count_differs, PartError, part_error, count_fields, count_items,
  field_of, checked_output, empty_result, sided, part_result, part_results, listed, in_envelope,
  parse_results,
}

module _ (is_utf8 : List ℕ → Bool) where
  abbrev pub Answer : Type 0
  Answer = Result PartError YsonValue

  -- A success has the key under which the command answers, and an error is that of the command.
  abbrev pub Sides : BatchPart → Output → Answer → Type 0
  Sides part (keyed key) (ok output) = (v : YsonValue) × (field_of output key ≡ some v)
  Sides part unchecked (ok output) = Unit
  Sides part output (err e) = e.command ≡ part.command

  abbrev pub Given : BatchPart → Output → Result Refusal Answer → Type 0
  Given part o (ok answer) = Sides part o answer
  Given part o (err refusal) = Unit

  checked_output-Given :
      (part : BatchPart) (o : Output) (output : YsonValue)
      → Given part o (checked_output is_utf8 part o output)
  checked_output-Given part unchecked output = tt
  checked_output-Given part (keyed key) output = elim (Option-cases (field_of output key)) [
    | inl absent ↦ rw (checked_output, absent) tt
    | inr (v, present) ↦ rw (checked_output, present) (v, present)
  ]

  empty_result-Given : (part : BatchPart) (o : Output) → Given part o (empty_result is_utf8 part o)
  empty_result-Given part unchecked = tt
  empty_result-Given part (keyed key) = tt

  sided-Given :
      (part : BatchPart) (e o : Option YsonValue) (n : ℕ)
      → Given part part.output (sided is_utf8 part e o n)
  sided-Given part (some error) none (suc zero) = failed part.output
    where
      failed :
          (output : Output) → Given part output (ok (err (part_error is_utf8 part.command error)))
      failed output = unfold part_error in refl
  sided-Given part none (some output) (suc zero) = checked_output-Given part part.output output
  sided-Given part none none zero = empty_result-Given part part.output
  sided-Given part (some error) none zero = tt
  sided-Given part e o n = tt

  part_result-Given :
      (part : BatchPart) (v : YsonValue) → Given part part.output (part_result is_utf8 v part)
  unfolding part_result
  part_result-Given part (value attrs (map fields)) =
      sided-Given part (get k_error fields) (get k_output fields) (count_fields fields)
  part_result-Given part (value attrs _) = tt

  -- Each answer is what its part makes of the result that stands at its place.
  abbrev pub Pairs : YsonList → List BatchPart → List Answer → Type 0
  Pairs nil [] [] = Unit
  Pairs nil [] (answer ∷ answers) = ⊥
  Pairs nil (part ∷ parts) answers = ⊥
  Pairs (item v items) [] answers = ⊥
  Pairs (item v items) (part ∷ parts) [] = ⊥
  Pairs (item v items) (part ∷ parts) (answer ∷ answers) =
      ((part_result is_utf8 v part ≡ ok answer) × Sides part part.output answer)
      × Pairs items parts answers

  -- The answers to a request whose response is the document.
  pub record Answered (envelope : YsonValue) (parts : List BatchPart) (answers : List Answer)
      : Type 0 where
    pub items : YsonList
    pub attrs : Attributes
    pub under_results : field_of envelope k_results ≡ some (value attrs (list items))
    pub paired : Pairs items parts answers

  part_results-Pairs :
      (items : YsonList) (parts : List BatchPart) (answers : List Answer)
      → count_items items ≡ length parts
      → part_results is_utf8 items parts ≡ ok answers
      → Pairs items parts answers
  unfolding part_results
  part_results-Pairs nil [] answers counted h = let e : answers ≡ [] = cc in rw e tt
  part_results-Pairs nil (part ∷ parts) answers counted h = absurd (omega (arith, counted))
  part_results-Pairs (item v items) [] answers counted h = absurd (omega (arith, counted))
  part_results-Pairs (item v items) (part ∷ parts) answers counted h =
      let (answer, first, rest) = >>=-eq-ok (part_result is_utf8 v part) _ h in
      let (answers', later, same) = >>=-eq-ok (part_results is_utf8 items parts) _ rest in
      subst (Pairs (item v items) (part ∷ parts)) (ok-injective same) (
        (first, rw first at (part_result-Given part v)),
        part_results-Pairs items parts answers' (omega (arith, counted)) later,
      )

  listed-Pairs :
      (results : YsonValue) (parts : List BatchPart) (answers : List Answer)
      → listed is_utf8 results parts ≡ ok answers
      → (attrs : Attributes) × (items : YsonList) × (results ≡ value attrs (list items))
        × Pairs items parts answers
  listed-Pairs (value attrs (list items)) parts answers h =
      let (u, counted, rest) =
        >>=-eq-ok
          (guard (count_items items == length parts)
            (count_differs (length parts) (count_items items)))
          (λ u. part_results is_utf8 items parts) h in
      (
        attrs,
        items,
        refl,
        part_results-Pairs items parts answers (same (count_items items) (length parts) counted)
            rest,
      )
    where
      same : (m n : ℕ) {u : Unit {0}} → guard (m == n) (count_differs n m) ≡ ok u → m ≡ n
      same m n k = ground arith
  listed-Pairs (value attrs _) parts answers h = cc

  in_envelope-Answered :
      (envelope : YsonValue) (parts : List BatchPart) (answers : List Answer)
      → in_envelope is_utf8 envelope parts ≡ ok answers
      → Answered envelope parts answers
  in_envelope-Answered (value attrs (map fields)) parts answers h =
      elim (Option-cases (get k_results fields)) [
        | inl nothing ↦ absurd (refused (rw (in_envelope, nothing) at h))
        | inr (results, there) ↦
            let (attrs, items, is_list, paired) =
              listed-Pairs results parts answers (rw (in_envelope, there) at h) in
            record {
              items = items;
              attrs = attrs;
              under_results = there ∙ ap some is_list;
              paired = paired;
            }
      ]
    where
      refused : ◌≢◌ {A = Result Refusal (List Answer)} (err no_results) (ok answers)
      refused k = cc
  in_envelope-Answered (value attrs _) parts answers h = cc

  pub parse_results-Answered :
      (from_slice : List ℕ → Result YsonError YsonValue) (body : List ℕ) (parts : List BatchPart)
      (answers : List Answer)
      → parse_results is_utf8 from_slice body parts ≡ ok answers
      → (envelope : YsonValue) × (from_slice body ≡ ok envelope) × Answered envelope parts answers
  unfolding parse_results
  parse_results-Answered from_slice body parts answers h = elim (Result-cases (from_slice body)) [
    | inl (envelope, read) ↦ (
      envelope,
      read,
      in_envelope-Answered envelope parts answers (rw (parse_results, read) at h),
    )
    | inr (e, unread) ↦ absurd (refused e (rw (parse_results, unread) at h))
  ]
    where
      refused :
          (e : YsonError) → ◌≢◌ {A = Result Refusal (List Answer)} (err (not_yson e)) (ok answers)
      refused e k = cc

  pub Pairs-length :
      (items : YsonList) (parts : List BatchPart) (answers : List Answer)
      → Pairs items parts answers
      → length answers ≡ length parts
  Pairs-length nil [] [] h = refl
  Pairs-length nil [] (answer ∷ answers) h = absurd h
  Pairs-length nil (part ∷ parts) answers h = absurd h
  Pairs-length (item v items) [] answers h = absurd h
  Pairs-length (item v items) (part ∷ parts) [] h = absurd h
  Pairs-length (item v items) (part ∷ parts) (answer ∷ answers) h =
      ap suc (Pairs-length items parts answers h.1)
