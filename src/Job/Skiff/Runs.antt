-- ===== src/Job/Skiff/Runs.antt =====
-- Concrete streams, and the theorem at one of them.
use ytsaurus_rs.Skiff.Wire.Decode.{
  select, read_word, read_variant_tag, read_exact, decode_variant, decode_value, decode_tuple,
  charge,
}
use ytsaurus_rs.Base.{
  ℕ, ◌-◌, ◌*◌, ◌^◌, Bool, List, [], ◌∷◌, none, some, true, false, ◌≡◌, refl, ok, err,
}
use ytsaurus_rs.Skiff.Schema.{validate_table_schema, validate, Schema, WireType, node, nil, cons}
use ytsaurus_rs.Skiff.Format.{table_schema, Format, inline, from_parts}
use ytsaurus_rs.Skiff.Wire.Rows
use ytsaurus_rs.Skiff.Wire.{Value, no_values, value, truncated}
use ytsaurus_rs.Job.Skiff.{
  layout_columns, from_schema, column_from_schema, skiff, bad_skiff_schema, message, key_switch,
  row_index,
}
use ytsaurus_rs.Job.Skiff.Control.{
  apply_columns, layouts_from, SkiffJobReader, SkiffRow, new, next_row, next_index, row_of,
}
use ytsaurus_rs.Job.Skiff.Sound.{Sound}
use ytsaurus_rs.Job.Skiff.Reached.{Reachable, next_row_lem}

abbrev index_column : Schema
index_column =
    node WireType.variant8 (some "$row_index")
      (cons (node WireType.nothing none nil) (cons (node WireType.int64 none nil) nil))

abbrev table : Schema
table = node WireType.tuple none (
    cons (node WireType.boolean (some "$key_switch") nil)
      (cons index_column (cons (node WireType.uint8 (some "x") nil) nil)))

abbrev format : Format
format = record { table_schemas = inline table ∷ []; schema_registry = [] }

format_accepted : from_parts (inline table ∷ []) [] ≡ ok format
unfolding from_parts validate table_schema validate_table_schema
format_accepted = refl

-- Two rows: the first at index 5 of its table, the second behind it.
abbrev input : List ℕ
input = 0 ∷ 0 ∷ 1 ∷ 1 ∷ 5 ∷ 0 ∷ 0 ∷ 0 ∷ 0 ∷ 0 ∷ 0 ∷ 0 ∷ 7 ∷ 0 ∷ 0 ∷ 0 ∷ 0 ∷ 8 ∷ []

abbrev reader : List ℕ → ℕ → SkiffJobReader
reader left index = record {
  decoder = record {
    input = left;
    format = format;
    max_blob_bytes = 128 * 1024 * 1024;
    max_row_bytes = 256 * 1024 * 1024;
  };
  layouts = record { system_columns = key_switch ∷ row_index ∷ [] } ∷ [];
  state = record { row_index = index; range_index = 0 } ∷ [];
}

abbrev second : List ℕ
second = 0 ∷ 0 ∷ 0 ∷ 0 ∷ 8 ∷ []

abbrev row : Bool → ℕ → ℕ → SkiffRow
row switched index x =
    row_of 0 switched (record { row_index = index; range_index = 0 })
      (value (Value.uint8 x) no_values)

made : new input format ≡ ok (reader input 0)
unfolding new layouts_from table_schema from_schema layout_columns column_from_schema
made = refl

first_row : next_row 40 (reader input 0) ≡ ok (some (row true 5 7), reader second 5)
unfolding next_row Rows.next_row Rows.read_table read_exact table_schema decode_value charge
    decode_tuple read_word decode_variant read_variant_tag select apply_columns
first_row = refl

row_after : next_row 40 (reader second 5) ≡ ok (some (row false 6 8), reader [] 6)
unfolding next_row Rows.next_row Rows.read_table read_exact table_schema decode_value charge
    decode_tuple read_word decode_variant read_variant_tag select apply_columns
row_after = refl

cut_row : next_row 40 (reader (0 ∷ 0 ∷ 1 ∷ []) 0) ≡ err (skiff (truncated "variant8 tag"))
unfolding next_row Rows.next_row Rows.read_table read_exact table_schema decode_value charge
    decode_tuple read_word decode_variant read_variant_tag
cut_row = refl

abbrev late : Schema
late = node WireType.tuple none (
    cons (node WireType.uint8 (some "x") nil)
      (cons (node WireType.boolean (some "$key_switch") nil) nil))

late_column :
    new [] (record { table_schemas = inline late ∷ []; schema_registry = [] })
    ≡ err (bad_skiff_schema 0 (message "$key_switch appears after a data column"))
unfolding new layouts_from table_schema from_schema layout_columns column_from_schema
late_column = refl

-- The index stays at the greatest `i64`, and goes from -1 to 0.
indices_end : (next_index (2 ^ 63 - 1) ≡ 2 ^ 63 - 1) × (next_index (2 ^ 64 - 1) ≡ 0)
indices_end = (refl, refl)

cut_made : new (0 ∷ 0 ∷ 1 ∷ []) format ≡ ok (reader (0 ∷ 0 ∷ 1 ∷ []) 0)
unfolding new layouts_from table_schema from_schema layout_columns column_from_schema
cut_made = refl

-- Asked again behind a row that is cut off.
next_row_lem_example : Sound format (next_row 40 (reader second 0))
next_row_lem_example =
    next_row_lem 40 (inline table ∷ []) [] format (reader second 0) format_accepted (
      Reachable.asked_in_vain (reader (0 ∷ 0 ∷ 1 ∷ []) 0) (skiff (truncated "variant8 tag")) second
        (Reachable.made (0 ∷ 0 ∷ 1 ∷ []) (reader (0 ∷ 0 ∷ 1 ∷ []) 0) cut_made) cut_row)
