-- ===== src/Client/Batch/Fronts.antt =====
-- However a batch ends, the answers that it hands out are those of the parts at its front.
use mathlib.Core.Path.{subst}
use ytsaurus_rs.Base.{
  ℕ, zero, suc, ◌≤◌, ◌<◌, List, [], ◌∷◌, ◌++◌, length, take, drop, All, Option, none, some, Bool,
  true, false, ltb, ◌&&◌, if◌then◌else◌, ◌≡◌, refl, sym, ap, ◌∙◌, arith, Result, ok, err,
  length-append, length-take, length-drop, take-append-drop, take-append, append-nil, append_assoc,
}
use ytsaurus_rs.Yson.Node.{YsonValue}
use ytsaurus_rs.Client.Error.{ClientError}
use ytsaurus_rs.Client.Batch.{BatchPart, BatchRequest, part_size, repeatable}
use ytsaurus_rs.Client.Batch.Requests.{rendered, is_some}
use ytsaurus_rs.Client.Batch.Results.{Refusal, PartError, parse_results}
use ytsaurus_rs.Client.Batch.Paired.{Answered, Pairs-length, parse_results-Answered}
use ytsaurus_rs.Client.Batch.Execute.{
  Services, BatchError, empty_batch, several_requests, interrupted, chunks, is_empty, Outcome,
  as_refused, received, encoded, sent, answer_chunk, gathered, run_chunks, execute_batch,
}

abbrev joined {ℓ} : {A : Type ℓ} → List (List A) → List A
joined [] = []
joined (xs ∷ xss) = xs ++ joined xss

joined-chunks {ℓ} :
    {A : Type ℓ} (fuel size : ℕ) (xs : List A)
    → 0 < size
    → length xs ≤ fuel
    → joined (chunks fuel size xs) ≡ xs
unfolding chunks
joined-chunks zero size [] positive enough = refl
joined-chunks zero size (x ∷ xs) positive enough = absurd (omega arith)
joined-chunks (suc fuel) size [] positive enough = refl
joined-chunks (suc fuel) size (x ∷ xs) positive enough =
    ap (◌++◌ (take size (x ∷ xs))) (
      joined-chunks fuel size (drop size (x ∷ xs)) positive
        (omega (arith, positive, enough, length-drop size (x ∷ xs))))
    ∙ take-append-drop size (x ∷ xs)

-- No chunk is empty, and none is larger than the size.
abbrev pub Sized {ℓ} : {A : Type ℓ} → ℕ → List A → Type 0
Sized size xs = (0 < length xs) × (length xs ≤ size)

chunks-Sized {ℓ} :
    {A : Type ℓ} (fuel size : ℕ) (xs : List A) → 0 < size → All (Sized size) (chunks fuel size xs)
unfolding chunks
chunks-Sized zero size xs positive = tt
chunks-Sized (suc fuel) size [] positive = tt
chunks-Sized (suc fuel) size (x ∷ xs) positive = (
  omega (arith, positive, length-take size (x ∷ xs)),
  chunks-Sized fuel size (drop size (x ∷ xs)) positive,
)

module _ {S : Type 0} (services : Services S) (id : Option (List ℕ)) (transaction : Option (List ℕ))
    (batch : BatchRequest) where
  -- One request that is answered: the document of the parts is sent, and the answers are made of the
  -- results in the response.
  pub record Exchange (chunk : List BatchPart) (s : S) (answers : List (Result PartError YsonValue))
      (s' : S) : Type 0 where
    pub document : YsonValue
    pub body : List ℕ
    pub reply : List ℕ
    pub envelope : YsonValue
    pub of_parts : rendered services.name_bytes chunk batch.concurrency transaction ≡ some document
    pub written : services.to_string document ≡ some body
    pub called : services.call (repeatable batch) id body s ≡ (ok reply, s')
    pub read : services.from_slice reply ≡ ok envelope
    pub whole : Answered services.is_utf8 envelope chunk answers

  abbrev Chunk : List BatchPart → S → Outcome × S → Type 0
  Chunk chunk s (ok answers, s') = Exchange chunk s answers s'
  Chunk chunk s (err (interrupted answered parts cause), s') = ⊥
  Chunk chunk s (err e, s') = Unit

  answer_chunk-Chunk :
      (chunk : List BatchPart) (s : S)
      → Chunk chunk s (answer_chunk services id transaction batch chunk s)
  unfolding answer_chunk
  answer_chunk-Chunk chunk s =
      of_document (rendered services.name_bytes chunk batch.concurrency transaction) refl
    where
      of_answer :
          (document : YsonValue) (body : List ℕ) (r : Result ClientError (List ℕ) × S)
          → rendered services.name_bytes chunk batch.concurrency transaction ≡ some document
          → services.to_string document ≡ some body
          → services.call (repeatable batch) id body s ≡ r
          → Chunk chunk s (received services id transaction batch chunk r)
      of_answer document body (err e, s') of_parts written called = tt
      of_answer document body (ok reply, s') of_parts written called =
          parsed (parse_results services.is_utf8 services.from_slice reply chunk)
            (parse_results-Answered services.is_utf8 services.from_slice reply chunk)
        where
          parsed :
              (r : Result Refusal (List (Result PartError YsonValue)))
              → ((answers : List (Result PartError YsonValue))
                  → r ≡ ok answers
                  → (envelope : YsonValue) × (services.from_slice reply ≡ ok envelope)
                    × Answered services.is_utf8 envelope chunk answers)
              → Chunk chunk s (as_refused r, s')
          parsed (ok answers) k =
              let (envelope, read, answered) = k answers refl in
              record {
                document = document;
                body = body;
                reply = reply;
                envelope = envelope;
                of_parts = of_parts;
                written = written;
                called = called;
                read = read;
                whole = answered;
              }
          parsed (err refusal) k = tt

      of_body :
          (document : YsonValue) (body : Option (List ℕ))
          → rendered services.name_bytes chunk batch.concurrency transaction ≡ some document
          → services.to_string document ≡ body
          → Chunk chunk s (encoded services id transaction batch chunk body s)
      of_body document none of_parts written = tt
      of_body document (some body) of_parts written =
          of_answer document body (services.call (repeatable batch) id body s) of_parts written refl

      of_document :
          (document : Option YsonValue)
          → rendered services.name_bytes chunk batch.concurrency transaction ≡ document
          → Chunk chunk s (sent services id transaction batch chunk document s)
      of_document none of_parts = tt
      of_document (some document) of_parts =
          of_body document (services.to_string document) of_parts refl

  -- Requests one behind the other, each for the parts that follow and for no more than fit.
  pub data Exchanges (start : S)
      : List BatchPart → List (Result PartError YsonValue) → S → Type 0 where
    nothing : Exchanges start [] [] start
    another :
        {front chunk : List BatchPart} {answers answers' : List (Result PartError YsonValue)}
        {s s' : S}
        → Exchanges start front answers s
        → Sized (part_size batch) chunk
        → Exchange chunk s answers' s'
        → Exchanges start (front ++ chunk) (answers ++ answers') s'

  Exchanges-length :
      {start s : S} {parts : List BatchPart} {answers : List (Result PartError YsonValue)}
      → Exchanges start parts answers s
      → length answers ≡ length parts
  Exchanges-length nothing = refl
  Exchanges-length (another {front = front} {chunk} {answers} {answers'} before sized last) =
      omega (
        arith,
        length-append answers answers',
        length-append front chunk,
        Exchanges-length before,
        Pairs-length services.is_utf8 last.whole.items chunk answers' last.whole.paired,
      )

  -- All parts are answered, or some at the front, at least one and not all.
  abbrev pub Fronts : S → Outcome × S → Type 0
  Fronts start (ok answers, s) = Exchanges start batch.parts answers s
  Fronts start (err (interrupted answered parts cause), s) =
      (parts ≡ length batch.parts)
      × (0 < length answered)
      × (length answered < length batch.parts)
      × ((s' : S) × Exchanges start (take (length answered) batch.parts) answered s')
  Fronts start (err e, s) = Unit

  Fronts-first :
      (chunk : List BatchPart) (start s s' : S) (e : BatchError)
      → Chunk chunk s (err e, s')
      → Fronts start (err e, s')
  Fronts-first chunk start s s' (interrupted answered parts cause) h = absurd h
  Fronts-first chunk start s s' _ h = tt

  gathered-Fronts :
      (later : List (Result PartError YsonValue) → S → Outcome × S)
      (front chunk rest : List BatchPart) (results : List (Result PartError YsonValue))
      (start s : S) (outcome : Outcome × S)
      → batch.parts ≡ front ++ (chunk ++ rest)
      → Sized (part_size batch) chunk
      → Exchanges start front results s
      → Chunk chunk s outcome
      → ((answers : List (Result PartError YsonValue)) (s' : S)
          → Exchanges start (front ++ chunk) (results ++ answers) s'
          → Fronts start (later (results ++ answers) s'))
      → Fronts start (gathered services id transaction batch later results outcome)
  gathered-Fronts later front chunk rest results start s (ok answers, s') whole sized before h k =
      k answers s' (another before sized h)
  gathered-Fronts later front chunk rest [] start s (err e, s') whole sized before h k =
      Fronts-first chunk start s s' e h
  gathered-Fronts later front chunk rest (answer ∷ results) start s (err e, s') whole sized before h
        k =
      let counted : length (answer ∷ results) ≡ length front = Exchanges-length before in
      let at_front : take (length (answer ∷ results)) batch.parts ≡ front =
        ap (take (length (answer ∷ results))) whole
        ∙ take-append (length (answer ∷ results)) front (chunk ++ rest) counted in
      (
        refl,
        omega arith,
        omega (
          arith,
          counted,
          sized.0,
          ap length whole,
          length-append front (chunk ++ rest),
          length-append chunk rest,
        ),
        (s, subst (λ ps. Exchanges start ps (answer ∷ results) s) (sym at_front) before),
      )

  run_chunks-Fronts :
      (rest : List (List BatchPart)) (front : List BatchPart)
      (results : List (Result PartError YsonValue)) (start s : S)
      → batch.parts ≡ front ++ joined rest
      → All (Sized (part_size batch)) rest
      → Exchanges start front results s
      → Fronts start (run_chunks services id transaction batch rest results s)
  unfolding run_chunks
  run_chunks-Fronts [] front results start s whole sized before =
      subst (λ ps. Exchanges start ps results s) (sym (whole ∙ append-nil front)) before
  run_chunks-Fronts (chunk ∷ rest) front results start s whole sized before =
      gathered-Fronts (run_chunks services id transaction batch rest) front chunk (joined rest)
        results start s (answer_chunk services id transaction batch chunk s) whole sized.0 before
        (answer_chunk-Chunk chunk s)
        (λ answers s' answered.
          run_chunks-Fronts rest (front ++ chunk) (results ++ answers) start s'
            (whole ∙ sym (append_assoc front chunk (joined rest))) sized.1 answered)

-- However the transport answers, a batch that succeeds has sent its parts in their order, in requests one
-- behind the other that hold at least one part and no more than fit, and its answers are those of its
-- parts, one for one and in their order: the answer to a part is what the part makes of the result at
-- its place in the list of the response to its request, a success has the key under which the command
-- answers, and an error names the command of its part. A batch that is interrupted has done so for
-- the parts at its front, at least one and not all of them, and hands out their answers.
pub execute_batch-Fronts :
    {S : Type 0} (services : Services S) (id : Option (List ℕ)) (transaction : Option (List ℕ))
    (batch : BatchRequest) (s : S)
    → 0 < part_size batch
    → Fronts services id transaction batch s (execute_batch services id transaction batch s)
unfolding execute_batch
execute_batch-Fronts services id transaction batch s positive =
    go (is_empty batch.parts) (is_some id && ltb (part_size batch) (length batch.parts))
  where
    size : ℕ
    size = part_size batch

    parts : List BatchPart
    parts = batch.parts

    go :
        (nothing split : Bool)
        → Fronts services id transaction batch s (
            if nothing
            then (err empty_batch, s)
            else if split
            then (err (several_requests (length parts)), s)
            else run_chunks services id transaction batch (chunks (length parts) size parts) [] s)
    go true split = tt
    go false true = tt
    go false false =
        run_chunks-Fronts services id transaction batch (chunks (length parts) size parts) [] [] s s
          (sym (joined-chunks (length parts) size parts positive (omega arith)))
          (chunks-Sized (length parts) size parts positive) nothing
