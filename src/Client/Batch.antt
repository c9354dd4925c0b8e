-- ===== src/Client/Batch.antt =====
-- crates/ytsaurus-client/src/batch.rs: the parts of a batch, and how a whole batch may be repeated.
-- A key and a text of YSON are their bytes; the texts of the messages are named by constructors.
pub mod Keys
pub mod Results
pub mod Requests
pub mod Execute
pub mod Paired
pub mod Fronts
pub mod Once
pub mod Stamped
pub mod Classes
mod Runs
use Prim.Native.String.{String}
use Prim.Native.String
use Prim.Native.Char.{code}
use package.text.Mathlib.Text.{◌==◌ as str_eq}
use ytsaurus_rs.Base.{
  ℕ, zero, suc, ◌*◌, ◌^◌, min, max, List, [], ◌∷◌, ◌++◌, length, Option, none, some, Bool, true,
  false, ◌||◌, if◌then◌else◌, leb, ◌&&◌, ◌==◌, Result, ok, err, not, ◌-◌, guard, ◌>>=◌, ◌>>◌,
}
use ytsaurus_rs.Yson.Node.{
  YsonValue, value, no_attributes, YsonNode, boolean, int64, string, list, map, YsonList, YsonMap,
  empty, field,
}
use ytsaurus_rs.Client.YsonBuild.{text, truth, dict}
use ytsaurus_rs.Client.Batch.Keys.{
  k_path, k_type, k_recursive, k_ignore_existing, k_force, k_node_id, k_value,
}
use ytsaurus_rs.Client.Retry.{Repeatable, freely, with_mutation_id, never, heavy}

abbrev pub default_concurrency : ℕ
default_concurrency = 50

abbrev pub parts_per_concurrency : ℕ
parts_per_concurrency = 5

abbrev pub not_a_batch_part : List String
not_a_batch_part =
    "alter_query" ∷ "get_job_fail_context" ∷ "get_job_input" ∷ "get_job_stderr" ∷ "get_job_trace"
    ∷ "lookup_rows" ∷ "pull_consumer" ∷ "pull_queue" ∷ "pull_queue_consumer" ∷ "pull_rows"
    ∷ "read_blob_table" ∷ "read_file" ∷ "read_journal" ∷ "read_query_result" ∷ "read_shuffle_data"
    ∷ "read_table" ∷ "read_table_partition" ∷ "run_job_shell_command" ∷ "select_rows" ∷ "write_file"
    ∷ "write_file_fragment" ∷ []

-- `HEAVY` of http.rs
abbrev pub heavy_commands : List String
heavy_commands =
    "read_table" ∷ "write_table" ∷ "read_file" ∷ "write_file" ∷ "read_blob_table" ∷ "get_job_input"
    ∷ "get_job_stderr" ∷ "lookup_rows" ∷ "select_rows" ∷ "insert_rows" ∷ "delete_rows" ∷ []

abbrev pub contains : List String → String → Bool
contains [] command = false
contains (name ∷ names) command = str_eq name command || contains names command

pub data PartKind : Type 0 where
  read master_mutation raw : PartKind

pub data Output : Type 0 where
  keyed : (key : List ℕ) → Output
  unchecked : Output

pub record BatchPart : Type 0 where
  pub command : String
  pub parameters : YsonValue
  pub input : Option YsonValue
  pub kind : PartKind
  pub output : Output

pub record BatchRequest : Type 0 where
  pub parts : List BatchPart
  pub concurrency : Option ℕ
  pub max_part_size : Option ℕ

abbrev pub new : BatchRequest
new = record { parts = []; concurrency = none; max_part_size = none }

abbrev pub with_concurrency : BatchRequest → ℕ → BatchRequest
with_concurrency batch concurrency = record batch { concurrency = some (max concurrency 1) }

abbrev pub with_max_part_size : BatchRequest → ℕ → BatchRequest
with_max_part_size batch parts = record batch { max_part_size = some (max parts 1) }

abbrev pub push :
    BatchRequest → String → YsonValue → Option YsonValue → PartKind → Output → BatchRequest
push batch command parameters input kind output = record batch {
  parts =
      batch.parts
      ++ (record {
        command = command;
        parameters = parameters;
        input = input;
        kind = kind;
        output = output;
      }
          ∷ []);
}

abbrev pub path_only : List ℕ → YsonValue
path_only path = dict ((k_path, text path) ∷ [])

abbrev pub create : BatchRequest → List ℕ → List ℕ → BatchRequest
create batch node_type path =
    push batch "create"
      (dict (
        (k_path, text path)
        ∷ (k_type, text node_type)
        ∷ (k_recursive, truth true)
        ∷ (k_ignore_existing, truth true)
        ∷ []))
      none master_mutation (keyed k_node_id)

abbrev pub exists : BatchRequest → List ℕ → BatchRequest
exists batch path = push batch "exists" (path_only path) none read (keyed k_value)

abbrev pub get_node : BatchRequest → List ℕ → BatchRequest
get_node batch path = push batch "get" (path_only path) none read (keyed k_value)

abbrev pub list_node : BatchRequest → List ℕ → BatchRequest
list_node batch path = push batch "list" (path_only path) none read (keyed k_value)

abbrev pub removal : BatchRequest → List ℕ → Bool → BatchRequest
removal batch path whole =
    push batch "remove"
      (dict ((k_path, text path) ∷ (k_recursive, truth whole) ∷ (k_force, truth whole) ∷ [])) none
      master_mutation unchecked

abbrev pub remove : BatchRequest → List ℕ → BatchRequest
remove batch path = removal batch path false

abbrev pub remove_tree : BatchRequest → List ℕ → BatchRequest
remove_tree batch path = removal batch path true

abbrev pub set_attribute : BatchRequest → List ℕ → List ℕ → YsonValue → BatchRequest
set_attribute batch path name v =
    push batch "set" (path_only (path ++ (b'/' ∷ b'@' ∷ name))) (some v) master_mutation unchecked

-- Why `raw_with` refuses a command.
pub data RawRefusal : Type 0 where
  not_a_name not_a_dict data_stream bulk_data heavy_class : RawRefusal

abbrev pub is_dict : YsonValue → Bool
is_dict (value attrs (map fields)) = true
is_dict v = false

abbrev pub kind_of : Repeatable → PartKind
kind_of freely = read
kind_of with_mutation_id = master_mutation
kind_of never = raw
kind_of heavy = raw

abbrev pub is_heavy_class : Repeatable → Bool
is_heavy_class heavy = true
is_heavy_class r = false

abbrev pub within : ℕ → ℕ → ℕ → Bool
within low high n = leb low n && leb n high

-- `is_ascii_alphanumeric`, and the underscore.
abbrev pub is_name_char : ℕ → Bool
is_name_char n = within b'0' b'9' n || within b'A' b'Z' n || within b'a' b'z' n || n == b'_'

abbrev pub all_name_chars : String → Bool
all_name_chars String.[] = true
all_name_chars (String.◌∷◌ c name) = is_name_char (code c) && all_name_chars name

-- `check_command_name` of lib.rs
abbrev pub is_command_name : String → Bool
is_command_name String.[] = false
is_command_name (String.◌∷◌ c name) = all_name_chars (String.◌∷◌ c name)

unfoldable pub raw_with :
    BatchRequest
    → String
    → YsonValue
    → Option YsonValue
    → Repeatable
    → Result RawRefusal BatchRequest
raw_with batch command params input repeatable = do
  guard (is_command_name command) not_a_name
  guard (is_dict params) not_a_dict
  guard (not (contains not_a_batch_part command)) data_stream
  guard (not (contains heavy_commands command)) bulk_data
  guard (not (is_heavy_class repeatable)) heavy_class
  ok (push batch command params input (kind_of repeatable) unchecked)

-- `raw`, which declares nothing of how the command may be repeated.
abbrev pub raw_never :
    BatchRequest → String → YsonValue → Option YsonValue → Result RawRefusal BatchRequest
raw_never batch command params input = raw_with batch command params input never

abbrev pub saturating_mul : ℕ → ℕ → ℕ
saturating_mul a b = min (a * b) (2 ^ 64 - 1)

abbrev pub or_else {ℓ} : {A : Type ℓ} → Option A → A → A
or_else none d = d
or_else (some a) d = a

-- `max_part_size`; a concurrency is positive, so that `usize::try_from` answers it.
unfoldable pub part_size : BatchRequest → ℕ
part_size batch =
    or_else batch.max_part_size
      (max (saturating_mul (or_else batch.concurrency default_concurrency) parts_per_concurrency) 1)

abbrev pub is_raw : PartKind → Bool
is_raw raw = true
is_raw k = false

abbrev pub is_mutation : PartKind → Bool
is_mutation master_mutation = true
is_mutation k = false

abbrev pub any {ℓ} : {A : Type ℓ} → (A → Bool) → List A → Bool
any test [] = false
any test (x ∷ xs) = test x || any test xs

unfoldable pub repeatable : BatchRequest → Repeatable
repeatable batch =
    if any (λ (p : BatchPart). is_raw p.kind) batch.parts
    then never
    else if any (λ (p : BatchPart). is_mutation p.kind) batch.parts
    then with_mutation_id
    else freely
