-- ===== src/Job/Skiff/Control.antt =====
-- crates/ytsaurus-job/src/skiff.rs: the reader of Skiff rows. An `i64` is its 64-bit pattern.
use Prim.Native.String.{String}
use ytsaurus_rs.Base.{
  ℕ, zero, suc, ◌+◌, ◌-◌, ◌^◌, List, [], ◌∷◌, length, get_elem?, set_at, replicate, Option, none,
  some, Bool, false, ◌==◌, leb, if◌then◌else◌, Result, ok, err, guard, ◌>>=◌, ◌>>◌,
}
use ytsaurus_rs.Skiff.Schema.{SchemaError}
use ytsaurus_rs.Skiff.Format.{Format, table_schema}
use ytsaurus_rs.Skiff.Wire.{Value, Values, no_values, value, CodecError, value_count}
use ytsaurus_rs.Skiff.Wire.Rows.{Decoder, new_decoder}
use ytsaurus_rs.Skiff.Wire.Rows
use ytsaurus_rs.Job.Skiff.{
  Reason, SkiffError, SystemColumn, TableLayout, from_schema, message, numbered, skiff,
  bad_skiff_schema, bad_skiff_control, panicked, key_switch, row_index, range_index,
}

pub record ControlState : Type 0 where
  pub row_index : ℕ
  pub range_index : ℕ

pub record SkiffJobReader : Type 0 where
  pub decoder : Decoder
  pub layouts : List TableLayout
  pub state : List ControlState

abbrev pub expect {ℓ} : {A : Type ℓ} → Result SchemaError A → Result SkiffError A
expect (ok a) = ok a
expect (err e) = err panicked

-- The loop of `new` over the indices of the tables.
unfoldable pub layouts_from : Format → ℕ → ℕ → Result SkiffError (List TableLayout)
layouts_from format index zero = ok []
layouts_from format index (suc n) = do
  schema ← expect (table_schema format index)
  layout ← from_schema index schema
  layouts ← layouts_from format (index + 1) n
  ok (layout ∷ layouts)

unfoldable pub new : List ℕ → Format → Result SkiffError SkiffJobReader
new input format = do
  layouts ← layouts_from format 0 (length format.table_schemas)
  ok (record {
    decoder = new_decoder input format;
    layouts = layouts;
    state = replicate (length layouts) (record { row_index = 0; range_index = 0 });
  })

abbrev pub with_max_blob_bytes : SkiffJobReader → ℕ → SkiffJobReader
with_max_blob_bytes r bytes = record r { decoder = record r.decoder { max_blob_bytes = bytes } }

abbrev pub with_max_row_bytes : SkiffJobReader → ℕ → SkiffJobReader
with_max_row_bytes r bytes = record r { decoder = record r.decoder { max_row_bytes = bytes } }

abbrev pub bad_control {ℓ} : {A : Type ℓ} → ℕ → String → Reason → Result SkiffError A
bad_control table column reason = err (bad_skiff_control table column reason)

abbrev pub boolean_control : ℕ → String → Value → Result SkiffError Bool
boolean_control table column (Value.boolean b) = ok b
boolean_control table column v = bad_control table column (message "expected boolean")

abbrev pub int64_index : ℕ → String → Value → Result SkiffError (Option ℕ)
int64_index table column (Value.int64 index) = ok (some index)
int64_index table column v = bad_control table column (message "tag 1 must carry int64")

-- The arms for a variant.
abbrev pub tagged_index : ℕ → String → ℕ → Value → Result SkiffError (Option ℕ)
tagged_index table column zero Value.nothing = ok none
tagged_index table column zero v = bad_control table column (numbered "unexpected variant tag " 0)
tagged_index table column (suc zero) v = int64_index table column v
tagged_index table column (suc (suc tag)) v =
    bad_control table column (numbered "unexpected variant tag " (suc (suc tag)))

abbrev pub optional_index_value : ℕ → String → Value → Result SkiffError (Option ℕ)
optional_index_value table column (Value.variant tag v) = tagged_index table column tag v
optional_index_value table column v =
    bad_control table column (message "expected variant8<nothing;int64>")

-- `saturating_add(1)` on an `i64`.
abbrev pub next_index : ℕ → ℕ
next_index w = if w == 2 ^ 63 - 1 then w else if w == 2 ^ 64 - 1 then 0 else w + 1

abbrev pub row_index_after : Option ℕ → ControlState → ControlState
row_index_after (some index) state = record state { row_index = index }
row_index_after none state = record state { row_index = next_index state.row_index }

abbrev pub range_index_after : Option ℕ → ControlState → ControlState
range_index_after (some index) state = record state { range_index = index }
range_index_after none state = state

-- One round of the loop over the system columns, with the key switch that it has found by then.
abbrev pub apply_column :
    ℕ → SystemColumn → Value → Bool × ControlState → Result SkiffError (Bool × ControlState)
apply_column table key_switch v (switched, state) = do
  b ← boolean_control table "$key_switch" v
  ok (b, state)
apply_column table row_index v (switched, state) = do
  index ← optional_index_value table "$row_index" v
  ok (switched, row_index_after index state)
apply_column table range_index v (switched, state) = do
  index ← optional_index_value table "$range_index" v
  ok (switched, range_index_after index state)

unfoldable pub apply_columns :
    ℕ → List SystemColumn → Values → Bool × ControlState → Result SkiffError (Bool × ControlState)
apply_columns table [] vs control = ok control
apply_columns table (column ∷ columns) no_values control = ok control
apply_columns table (column ∷ columns) (value v vs) control = do
  control' ← apply_column table column v control
  apply_columns table columns vs control'

-- `values.drain(..n)`: what is left behind it.
abbrev pub drained : ℕ → Values → Values
drained zero vs = vs
drained (suc n) no_values = no_values
drained (suc n) (value v vs) = drained n vs

pub record SkiffRow : Type 0 where
  pub table_index : ℕ
  pub row_index : ℕ
  pub range_index : ℕ
  pub key_switch : Bool
  pub value : Value

abbrev pub counted_row : List SystemColumn → ControlState → ControlState
counted_row [] state = record state { row_index = next_index state.row_index }
counted_row (column ∷ columns) state = state

abbrev pub row_of : ℕ → Bool → ControlState → Values → SkiffRow
row_of table switched state vs = record {
  table_index = table;
  row_index = state.row_index;
  range_index = state.range_index;
  key_switch = switched;
  value = Value.tuple vs;
}

abbrev pub at_index {ℓ} : {A : Type ℓ} → Option A → Result SkiffError A
at_index none = err panicked
at_index (some a) = ok a

abbrev pub Answer : Type 0
Answer = Result SkiffError (Option SkiffRow × SkiffJobReader)

-- What follows the columns of a row.
abbrev pub hand_out : ℕ → List SystemColumn → Values → SkiffJobReader → Bool × ControlState → Answer
hand_out table columns vs r (switched, state) =
    let state' : ControlState = counted_row columns state in
    ok (
      some (row_of table switched state' (drained (length columns) vs)),
      record r { state = set_at r.state table state' },
    )

abbrev pub split_row : ℕ → Values → SkiffJobReader → List SystemColumn → ControlState → Answer
split_row table vs r columns state = do
  guard (leb (length columns) (value_count vs))
      (bad_skiff_schema table (message "decoded row is shorter than its system-column prefix"))
  control ← apply_columns table columns vs (false, state)
  hand_out table columns vs r control

abbrev pub table_row : ℕ → Value → SkiffJobReader → Answer
table_row table (Value.tuple vs) r = do
  layout ← at_index (get_elem? r.layouts table)
  state ← at_index (get_elem? r.state table)
  split_row table vs r layout.system_columns state
table_row table v r =
    err (bad_skiff_schema table (message "the table root did not decode as a tuple"))

abbrev pub answered : SkiffJobReader → Result CodecError (Option (ℕ × Value) × Decoder) → Answer
answered r (err e) = err (skiff e)
answered r (ok (none, decoder)) = ok (none, record r { decoder = decoder })
answered r (ok (some (table, row), decoder)) = table_row table row (record r { decoder = decoder })

unfoldable pub next_row : ℕ → SkiffJobReader → Answer
next_row value_size r = answered r (Rows.next_row value_size r.decoder)

abbrev pub into_inner : SkiffJobReader → List ℕ
into_inner r = r.decoder.input
