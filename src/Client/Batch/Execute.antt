-- ===== src/Client/Batch/Execute.antt =====
-- crates/ytsaurus-client/src/lib.rs, `Client::execute_batch_with`: a batch is sent in requests of at
-- most `max_part_size` parts.
use Prim.Native.String.{String}
use ytsaurus_rs.Base.{
  ℕ, zero, suc, List, [], ◌∷◌, ◌++◌, length, take, drop, Option, none, some, Bool, true, false, ltb,
  ◌&&◌, if◌then◌else◌, Result, ok, err,
}
use ytsaurus_rs.Yson.{YsonError}
use ytsaurus_rs.Yson.Node.{YsonValue}
use ytsaurus_rs.Client.Error.{ClientError}
use ytsaurus_rs.Client.Retry.{Repeatable}
use ytsaurus_rs.Client.Batch.{BatchPart, BatchRequest, part_size, repeatable}
use ytsaurus_rs.Client.Batch.Requests.{rendered, is_some}
use ytsaurus_rs.Client.Batch.Results.{Refusal, PartError, parse_results}

-- What is not of this crate, or not of these files: the codec of YSON, the bytes of a name, and the
-- transport, which sends a body and has a state of its own.
pub record Services (S : Type 0) : Type 0 where
  pub is_utf8 : List ℕ → Bool
  pub name_bytes : String → List ℕ
  pub to_string : YsonValue → Option (List ℕ)
  pub from_slice : List ℕ → Result YsonError YsonValue
  pub call : Repeatable → Option (List ℕ) → List ℕ → S → Result ClientError (List ℕ) × S

pub data BatchError : Type 0 where
  empty_batch : BatchError
  several_requests : (parts : ℕ) → BatchError
  panicked unencodable : BatchError
  sending : ClientError → BatchError
  refused : Refusal → BatchError
  interrupted :
      (answered : List (Result PartError YsonValue)) → (parts : ℕ) → BatchError → BatchError

-- `chunks` of a slice, with the length as fuel.
unfoldable pub chunks {ℓ} : {A : Type ℓ} → ℕ → ℕ → List A → List (List A)
chunks zero size xs = []
chunks (suc fuel) size [] = []
chunks (suc fuel) size (x ∷ xs) = take size (x ∷ xs) ∷ chunks fuel size (drop size (x ∷ xs))

abbrev pub is_empty {ℓ} : {A : Type ℓ} → List A → Bool
is_empty [] = true
is_empty (x ∷ xs) = false

abbrev pub Outcome : Type 0
Outcome = Result BatchError (List (Result PartError YsonValue))

abbrev pub as_refused : Result Refusal (List (Result PartError YsonValue)) → Outcome
as_refused (ok answers) = ok answers
as_refused (err refusal) = err (refused refusal)

module _ {S : Type 0} (services : Services S) (id : Option (List ℕ)) (transaction : Option (List ℕ))
    (batch : BatchRequest) where
  abbrev pub received : List BatchPart → Result ClientError (List ℕ) × S → Outcome × S
  received chunk (ok body, s) =
      (as_refused (parse_results services.is_utf8 services.from_slice body chunk), s)
  received chunk (err e, s) = (err (sending e), s)

  abbrev pub encoded : List BatchPart → Option (List ℕ) → S → Outcome × S
  encoded chunk none s = (err unencodable, s)
  encoded chunk (some body) s = received chunk (services.call (repeatable batch) id body s)

  abbrev pub sent : List BatchPart → Option YsonValue → S → Outcome × S
  sent chunk none s = (err panicked, s)
  sent chunk (some document) s = encoded chunk (services.to_string document) s

  -- The chain of `render_chunk`, `call_with` and `parse_results`.
  unfoldable pub answer_chunk : List BatchPart → S → Outcome × S
  answer_chunk chunk s =
      sent chunk (rendered services.name_bytes chunk batch.concurrency transaction) s

  abbrev pub gathered :
      (List (Result PartError YsonValue) → S → Outcome × S)
      → List (Result PartError YsonValue)
      → Outcome × S
      → Outcome × S
  gathered later results (ok answers, s) = later (results ++ answers) s
  gathered later [] (err cause, s) = (err cause, s)
  gathered later (answer ∷ results) (err cause, s) =
      (err (interrupted (answer ∷ results) (length batch.parts) cause), s)

  -- The loop over the chunks.
  unfoldable pub run_chunks :
      List (List BatchPart) → List (Result PartError YsonValue) → S → Outcome × S
  run_chunks [] results s = (ok results, s)
  run_chunks (chunk ∷ rest) results s = gathered (run_chunks rest) results (answer_chunk chunk s)

  unfoldable pub execute_batch : S → Outcome × S
  execute_batch s =
      if is_empty batch.parts
      then (err empty_batch, s)
      else if is_some id && ltb (part_size batch) (length batch.parts)
      then (err (several_requests (length batch.parts)), s)
      else run_chunks (chunks (length batch.parts) (part_size batch) batch.parts) [] s
