-- ===== src/Client/Batch/Runs.antt =====
-- A batch of two parts that is sent in two requests, and the theorems at it.
use ytsaurus_rs.Client.Batch.Results.{part_results, part_result, parse_results}
use ytsaurus_rs.Base.{
  ℕ, ◌-◌, List, [], ◌∷◌, none, some, true, false, ◌==◌, if◌then◌else◌, ◌≡◌, refl, ok, err, arith,
}
use ytsaurus_rs.Yson.Node.{
  YsonValue, value, no_attributes, list, map, nil, item, YsonMap, empty, field, get, same_bytes,
}
use ytsaurus_rs.Client.Error.{config}
use ytsaurus_rs.Client.Retry.{freely, with_mutation_id}
use ytsaurus_rs.Client.YsonBuild.{empty_map, plain, truth, text}
use ytsaurus_rs.Client.Batch.{
  raw_with, not_a_name, data_stream, bulk_data, BatchRequest, new, exists, get_node, remove,
  with_max_part_size, part_size, repeatable,
}
use ytsaurus_rs.Client.Batch.Keys.{k_results, k_output, k_value, k_path, k_transaction_id}
use ytsaurus_rs.Client.Batch.Execute.{
  run_chunks, chunks, answer_chunk, Services, sending, interrupted, several_requests, execute_batch,
}
use ytsaurus_rs.Client.Batch.Fronts.{Fronts, execute_batch-Fronts}
use ytsaurus_rs.Client.Batch.Once.{execute_batch-answer_chunk}
use ytsaurus_rs.Client.Batch.Requests.{rendered, stamped}
use ytsaurus_rs.Client.Batch.Classes.{repeatable-worst}
use ytsaurus_rs.Client.Batch.Stamped.{stamped_lem}

abbrev path : List ℕ
path = b'/' ∷ b'/' ∷ b't' ∷ []

-- Two reads, one in each request.
abbrev batch : BatchRequest
batch = with_max_part_size (get_node (exists new path) path) 1

abbrev output : YsonValue
output = plain (map (field k_value (truth true) empty))

-- The answer to a request of one part.
abbrev envelope : YsonValue
envelope = plain (
    map
      (field k_results (plain (list (item (plain (map (field k_output output empty))) nil))) empty))

-- A transport that answers as many requests as its state says, and then fails.
abbrev services : Services ℕ
services = record {
  is_utf8 = λ bytes. true;
  name_bytes = λ name. [];
  to_string = λ document. some [];
  from_slice = λ body. ok envelope;
  call = λ r id body s. if s == 0 then (err (config "no answer"), 0) else (ok [], s - 1);
}

both_answered : execute_batch services none none batch 2 ≡ (ok (ok output ∷ ok output ∷ []), 0)
unfolding execute_batch run_chunks chunks answer_chunk rendered part_size parse_results part_results
    part_result
both_answered = refl

one_answered :
    execute_batch services none none batch 1
    ≡ (err (interrupted (ok output ∷ []) 2 (sending (config "no answer"))), 0)
unfolding execute_batch run_chunks chunks answer_chunk rendered part_size parse_results part_results
    part_result
one_answered = refl

none_answered : execute_batch services none none batch 0 ≡ (err (sending (config "no answer")), 0)
unfolding execute_batch run_chunks chunks answer_chunk rendered part_size
none_answered = refl

not_under_one_id : execute_batch services (some []) none batch 2 ≡ (err (several_requests 2), 2)
unfolding execute_batch part_size
not_under_one_id = refl

default_part_size : part_size new ≡ 250
unfolding part_size
default_part_size = refl

raw_refused :
    (raw_with new "get-thing" empty_map none freely ≡ err not_a_name)
    × (raw_with new "read_table" empty_map none freely ≡ err data_stream)
    × (raw_with new "insert_rows" empty_map none freely ≡ err bulk_data)
unfolding raw_with
raw_refused = (refl, refl, refl)

execute_batch-Fronts_example :
    Fronts services none none batch 1 (execute_batch services none none batch 1)
execute_batch-Fronts_example =
    execute_batch-Fronts services none none batch 1 (unfold part_size in omega arith)

repeatable-worst_example : repeatable (remove batch path) ≡ with_mutation_id
repeatable-worst_example = repeatable-worst (remove batch path)

stamped_lem_example :
    (fields' : YsonMap) × (stamped
        (some path)
        "get"
        (value no_attributes (map (field k_path (text path) empty)))
      ≡ some (value no_attributes (map fields')))
    × (get k_transaction_id fields' ≡ some (text path))
    × ((name : List ℕ)
        → same_bytes k_transaction_id name ≡ false
        → get name fields' ≡ get name (field k_path (text path) empty))
stamped_lem_example = stamped_lem path "get" no_attributes (field k_path (text path) empty)

execute_batch-answer_chunk_example :
    execute_batch services (some []) none (with_max_part_size batch 2) 2
    ≡ answer_chunk services (some []) none (with_max_part_size batch 2) batch.parts 2
unfolding part_size
execute_batch-answer_chunk_example =
    execute_batch-answer_chunk services [] none (with_max_part_size batch 2) 2 (omega arith)
