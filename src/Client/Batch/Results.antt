-- ===== src/Client/Batch/Results.antt =====
-- crates/ytsaurus-client/src/batch.rs: the answer to one request.
use Prim.Native.String.{String}
use ytsaurus_rs.Base.{
  ℕ, zero, suc, ◌-◌, ◌^◌, List, [], ◌∷◌, ◌++◌, length, Option, none, some, Bool, ◌==◌,
  if◌then◌else◌, Result, ok, err, guard, ◌>>=◌, ◌>>◌,
}
use ytsaurus_rs.Yson.{YsonError}
use ytsaurus_rs.Yson.Node.{
  YsonValue, value, string, list, map, YsonList, nil, item, YsonMap, empty, field, get, same_bytes,
  as_i64,
}
use ytsaurus_rs.Client.YsonBuild.{empty_map}
use ytsaurus_rs.Client.Batch.{BatchPart, Output, keyed, unchecked, or_else}
use ytsaurus_rs.Client.Batch.Keys.{k_results, k_error, k_output, k_code, k_message, k_inner_errors}

-- Why an answer is refused, by the messages of the source.
pub data Refusal : Type 0 where
  not_yson : YsonError → Refusal
  no_results not_a_dict not_a_list : Refusal
  count_differs : (sent received : ℕ) → Refusal
  part_not_a_dict part_without_output part_unrecognised : (command : String) → Refusal
  part_without_key : (command : String) → (key : List ℕ) → Refusal

-- The error that the cluster reports for a part.
pub record PartError : Type 0 where
  pub command : String
  pub code : ℕ
  pub message : List ℕ
  pub raw : YsonValue

abbrev pub count_fields : YsonMap → ℕ
count_fields empty = 0
count_fields (field key v fields) = suc (count_fields fields)

abbrev pub count_items : YsonList → ℕ
count_items nil = 0
count_items (item v items) = suc (count_items items)

-- `field`
abbrev pub field_of : YsonValue → List ℕ → Option YsonValue
field_of (value attrs (map fields)) key = get key fields
field_of v key = none

abbrev pub either {ℓ} : {A : Type ℓ} → Option A → Option A → Option A
either none b = b
either (some a) b = some a

-- `std::str::from_utf8`, by whether the bytes are UTF-8, is a parameter.
module _ (is_utf8 : List ℕ → Bool) where
  abbrev pub as_str : YsonValue → Option (List ℕ)
  as_str (value attrs (string bytes)) = if is_utf8 bytes then some bytes else none
  as_str v = none

  abbrev pub text_of : Option YsonValue → Option (List ℕ)
  text_of none = none
  text_of (some v) = as_str v

  unfoldable mutual
    pub innermost_message : YsonValue → Option (List ℕ)
    innermost_message (value attrs (map fields)) = innermost_field fields
    innermost_message v = none

    -- What stands under `inner_errors`.
    pub innermost_field : YsonMap → Option (List ℕ)
    innermost_field empty = none
    innermost_field (field key v fields) =
        let here = innermost_list v in
        let later = innermost_field fields in if same_bytes key k_inner_errors then here else later

    pub innermost_list : YsonValue → Option (List ℕ)
    innermost_list (value attrs (list (item first items))) =
        either (innermost_message first) (text_of (field_of first k_message))
    innermost_list v = none

  abbrev pub no_message : List ℕ
  no_message =
      b'(' ∷ b'n' ∷ b'o' ∷ b' ' ∷ b'm' ∷ b'e' ∷ b's' ∷ b's' ∷ b'a' ∷ b'g' ∷ b'e' ∷ b')' ∷ []

  abbrev pub joined_message : List ℕ → Option (List ℕ) → List ℕ
  joined_message outer none = outer
  joined_message outer (some inner) =
      if same_bytes inner outer then outer else outer ++ (b':' ∷ b' ' ∷ inner)

  abbrev pub code_of : Option YsonValue → ℕ
  code_of none = 2 ^ 64 - 1
  code_of (some v) = or_else (as_i64 v) (2 ^ 64 - 1)

  -- `raw` is kept as the document itself.
  unfoldable pub part_error : String → YsonValue → PartError
  part_error command document = record {
    command = command;
    code = code_of (field_of document k_code);
    message =
        joined_message (or_else (text_of (field_of document k_message)) no_message)
          (innermost_message document);
    raw = document;
  }

  abbrev pub Answer : Type 0
  Answer = Result PartError YsonValue

  abbrev pub checked_output : BatchPart → Output → YsonValue → Result Refusal Answer
  checked_output part unchecked output = ok (ok output)
  checked_output part (keyed key) output = elim (field_of output key) [
    | none ↦ err (part_without_key part.command key)
    | some v ↦ ok (ok output)
  ]

  abbrev pub empty_result : BatchPart → Output → Result Refusal Answer
  empty_result part unchecked = ok (ok empty_map)
  empty_result part (keyed key) = err (part_without_output part.command)

  -- The match on the error, the output and the count of the fields.
  abbrev pub sided : BatchPart → Option YsonValue → Option YsonValue → ℕ → Result Refusal Answer
  sided part (some error) none (suc zero) = ok (err (part_error part.command error))
  sided part none (some output) (suc zero) = checked_output part part.output output
  sided part none none zero = empty_result part part.output
  sided part e o n = err (part_unrecognised part.command)

  unfoldable pub part_result : YsonValue → BatchPart → Result Refusal Answer
  part_result (value attrs (map fields)) part =
      sided part (get k_error fields) (get k_output fields) (count_fields fields)
  part_result v part = err (part_not_a_dict part.command)

  -- `items.iter().zip(parts).map(part_result).collect()`
  unfoldable pub part_results : YsonList → List BatchPart → Result Refusal (List Answer)
  part_results nil parts = ok []
  part_results (item v items) [] = ok []
  part_results (item v items) (part ∷ parts) = do
    answer ← part_result v part
    answers ← part_results items parts
    ok (answer ∷ answers)

  abbrev pub listed : YsonValue → List BatchPart → Result Refusal (List Answer)
  listed (value attrs (list items)) parts = do
    guard (count_items items == length parts) (count_differs (length parts) (count_items items))
    part_results items parts
  listed v parts = err not_a_list

  abbrev pub in_envelope : YsonValue → List BatchPart → Result Refusal (List Answer)
  in_envelope (value attrs (map fields)) parts = elim (get k_results fields) [
    | none ↦ err no_results
    | some results ↦ listed results parts
  ]
  in_envelope v parts = err not_a_dict

  -- `ytsaurus_yson::from_slice` of a text is a parameter.
  unfoldable pub parse_results :
      (List ℕ → Result YsonError YsonValue) → List ℕ → List BatchPart → Result Refusal (List Answer)
  parse_results from_slice body parts = elim (from_slice body) [
    | err e ↦ err (not_yson e)
    | ok envelope ↦ in_envelope envelope parts
  ]
