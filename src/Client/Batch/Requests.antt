-- ===== src/Client/Batch/Requests.antt =====
-- crates/ytsaurus-client/src/batch.rs: the body of one request.
use Prim.Native.String.{String}
use ytsaurus_rs.Base.{
  ℕ, List, [], ◌∷◌, Option, none, some, Bool, true, false, not, ◌&&◌, if◌then◌else◌,
}
use ytsaurus_rs.Yson.Node.{YsonValue, value, map, get}
use ytsaurus_rs.Client.YsonBuild.{text, int, sequence, dict, insert}
use ytsaurus_rs.Client.Batch.{BatchPart, contains}
use ytsaurus_rs.Client.Batch.Keys.{
  k_transaction_id, k_command, k_parameters, k_input, k_requests, k_concurrency,
}

-- `NO_TRANSACTION` of http.rs
abbrev pub no_transaction : List String
no_transaction =
    "execute_batch" ∷ "get_operation" ∷ "list_operations" ∷ "list_operation_events"
    ∷ "abort_operation" ∷ "complete_operation" ∷ "suspend_operation" ∷ "resume_operation"
    ∷ "update_operation_parameters" ∷ "list_jobs" ∷ "get_job" ∷ "get_job_stderr" ∷ "get_job_input"
    ∷ "abort_job" ∷ "poll_job_shell" ∷ []

abbrev pub takes_no_transaction : String → Bool
takes_no_transaction command = contains no_transaction command

abbrev pub is_some {ℓ} : {A : Type ℓ} → Option A → Bool
is_some none = false
is_some (some a) = true

abbrev pub names_transaction : YsonValue → Bool
names_transaction (value attrs (map fields)) = is_some (get k_transaction_id fields)
names_transaction v = false

-- `parameters` of one request; `none` is the panic of `insert`.
abbrev pub stamped : Option (List ℕ) → String → YsonValue → Option YsonValue
stamped none command parameters = some parameters
stamped (some id) command parameters =
    if not (takes_no_transaction command) && not (names_transaction parameters)
    then insert parameters k_transaction_id (text id)
    else some parameters

abbrev pub with_input : Option YsonValue → YsonValue → Option YsonValue
with_input none request = some request
with_input (some input) request = insert request k_input input

abbrev pub and_then {ℓ κ} : {A : Type ℓ} {B : Type κ} → Option A → (A → Option B) → Option B
and_then none f = none
and_then (some a) f = f a

-- The bytes of a command's name, as `yson_build::string` takes them, are a parameter.
module _ (name_bytes : String → List ℕ) where
  abbrev pub request_of : Option (List ℕ) → BatchPart → Option YsonValue
  request_of transaction part =
      and_then (stamped transaction part.command part.parameters) (λ parameters.
        with_input part.input
          (dict ((k_command, text (name_bytes part.command)) ∷ (k_parameters, parameters) ∷ [])))

  abbrev pub requests_of : Option (List ℕ) → List BatchPart → Option (List YsonValue)
  requests_of transaction [] = some []
  requests_of transaction (part ∷ parts) =
      and_then (request_of transaction part) (λ request.
        and_then (requests_of transaction parts) (λ requests. some (request ∷ requests)))

  abbrev pub with_concurrency_key : Option ℕ → YsonValue → Option YsonValue
  with_concurrency_key none rendered = some rendered
  with_concurrency_key (some n) rendered = insert rendered k_concurrency (int n)

  -- The document that `render_chunk` encodes.
  unfoldable pub rendered : List BatchPart → Option ℕ → Option (List ℕ) → Option YsonValue
  rendered parts concurrency transaction =
      and_then (requests_of transaction parts)
        (λ requests. with_concurrency_key concurrency (dict ((k_requests, sequence requests) ∷ [])))
