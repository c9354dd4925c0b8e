-- ===== src/Client/Batch/Once.antt =====
-- A batch under a mutation id is one request.
use ytsaurus_rs.Base.{
  ℕ, zero, suc, ◌≤◌, ◌<◌, List, [], ◌∷◌, length, take, drop, Option, some, ltb, if◌then◌else◌, ◌≡◌,
  refl, ap, arith, ok, err, ltb→le, Bool-cases, inl, inr,
}
use ytsaurus_rs.Client.Batch.{BatchPart, BatchRequest, part_size}
use ytsaurus_rs.Client.Batch.Execute.{
  Services, empty_batch, several_requests, chunks, is_empty, Outcome, answer_chunk, gathered,
  run_chunks, execute_batch,
}

take-all {ℓ} : {A : Type ℓ} (n : ℕ) (xs : List A) → length xs ≤ n → take n xs ≡ xs
take-all zero [] h = refl
take-all zero (x ∷ xs) h = absurd (omega arith)
take-all (suc n) [] h = refl
take-all (suc n) (x ∷ xs) h = ap (◌∷◌ x) (take-all n xs (omega arith))

drop-all {ℓ} : {A : Type ℓ} (n : ℕ) (xs : List A) → length xs ≤ n → drop n xs ≡ []
drop-all zero [] h = refl
drop-all zero (x ∷ xs) h = absurd (omega arith)
drop-all (suc n) [] h = refl
drop-all (suc n) (x ∷ xs) h = drop-all n xs (omega arith)

chunks-nil {ℓ} : {A : Type ℓ} (fuel size : ℕ) → chunks {A = A} fuel size [] ≡ []
unfolding chunks
chunks-nil zero size = refl
chunks-nil (suc fuel) size = refl

one_chunk {ℓ} :
    {A : Type ℓ} (size : ℕ) (x : A) (xs : List A)
    → suc (length xs) ≤ size
    → chunks (suc (length xs)) size (x ∷ xs) ≡ (x ∷ xs) ∷ []
unfolding chunks
one_chunk size x xs h =
    rw (take-all size (x ∷ xs) h, drop-all size (x ∷ xs) h, chunks-nil (length xs) size) refl

module _ {S : Type 0} (services : Services S) (id : List ℕ) (transaction : Option (List ℕ))
    (batch : BatchRequest) where
  gathered-last :
      (answer : Outcome × S)
      → gathered services
          (some id)
          transaction
          batch
          (run_chunks services (some id) transaction batch [])
          []
          answer
        ≡ answer
  unfolding run_chunks
  gathered-last (ok answers, s) = refl
  gathered-last (err e, s) = refl

  -- What a batch of the parts does, of which the size is known.
  abbrev executed : List BatchPart → S → Outcome × S
  executed parts s =
      if is_empty parts
      then (err empty_batch, s)
      else if ltb (part_size batch) (length parts)
      then (err (several_requests (length parts)), s)
      else run_chunks services (some id) transaction batch
          (chunks (length parts) (part_size batch) parts) [] s

  executed-answer_chunk :
      (parts : List BatchPart) (s : S)
      → 0 < length parts
      → executed parts s ≡ (
          if ltb (part_size batch) (length parts)
          then (err (several_requests (length parts)), s)
          else answer_chunk services (some id) transaction batch parts s)
  unfolding run_chunks
  executed-answer_chunk [] s some_parts = absurd (omega arith)
  executed-answer_chunk (part ∷ parts) s some_parts =
      elim (Bool-cases (ltb (part_size batch) (suc (length parts)))) [
        | inl large ↦ rw large refl
        | inr fits ↦
            rw (fits, one_chunk (part_size batch) part parts (ltb→le _ _ fits))
              (gathered-last (answer_chunk services (some id) transaction batch (part ∷ parts) s))
      ]

-- A batch under a mutation id, which cannot cover two requests, is one request with all its parts, and
-- answers what that request answers; where it has more parts than a request may have, it is refused
-- with nothing sent.
pub execute_batch-answer_chunk :
    {S : Type 0} (services : Services S) (id : List ℕ) (transaction : Option (List ℕ))
    (batch : BatchRequest) (s : S)
    → 0 < length batch.parts
    → execute_batch services (some id) transaction batch s ≡ (
        if ltb (part_size batch) (length batch.parts)
        then (err (several_requests (length batch.parts)), s)
        else answer_chunk services (some id) transaction batch batch.parts s)
unfolding execute_batch
execute_batch-answer_chunk services id transaction batch s some_parts =
    executed-answer_chunk services id transaction batch batch.parts s some_parts
