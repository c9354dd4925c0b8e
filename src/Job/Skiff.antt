-- ===== src/Job/Skiff.antt =====
-- crates/ytsaurus-job/src/skiff.rs: the system columns that stand before the data of a row,
-- and the layouts of the tables.
pub mod Columns
pub mod Control
pub mod Layouts
pub mod Sound
pub mod Reached
mod Runs
use Prim.Native.String.{String, ◌++◌ as ◌+++◌}
use text.Mathlib.Text.{◌==◌ as str_eq}
use ytsaurus_rs.Base.{
  ℕ, zero, suc, ◌+◌, ◌-◌, ◌^◌, List, [], ◌∷◌, length, get_elem?, get_or, set_at, replicate, Option,
  none, some, Bool, true, false, not, ◌&&◌, ◌==◌, leb, if◌then◌else◌, Result, ok, err, guard, ◌>>=◌,
  ◌>>◌,
}
use ytsaurus_rs.Skiff.Schema.{Schema, Schemas, WireType, SchemaError, node, nil, cons}
use ytsaurus_rs.Skiff.Format.{Format, table_schema}
use ytsaurus_rs.Skiff.Wire.{Value, Values, no_values, value, CodecError, value_count, is_tuple}
use ytsaurus_rs.Skiff.Wire.Rows.{Decoder, new_decoder}
use ytsaurus_rs.Skiff.Wire.Rows

-- The text of a message, with the number that is printed at its end.
pub data Reason : Type 0 where
  message : String → Reason
  numbered : String → ℕ → Reason

-- src/error.rs, the errors of this reader. A failed `expect` and an index that is out of range
-- panic in the source.
pub data SkiffError : Type 0 where
  skiff : CodecError → SkiffError
  bad_skiff_schema : (table : ℕ) → Reason → SkiffError
  bad_skiff_control : (table : ℕ) → (column : String) → Reason → SkiffError
  panicked : SkiffError

pub data SystemColumn : Type 0 where
  key_switch row_index range_index : SystemColumn

abbrev pub name : SystemColumn → String
name key_switch = "$key_switch"
name row_index = "$row_index"
name range_index = "$range_index"

abbrev pub slot : SystemColumn → ℕ
slot key_switch = 0
slot row_index = 1
slot range_index = 2

abbrev pub is_nothing : WireType → Bool
is_nothing WireType.nothing = true
is_nothing _ = false

abbrev pub is_boolean : WireType → Bool
is_boolean WireType.boolean = true
is_boolean _ = false

abbrev pub is_int64 : WireType → Bool
is_int64 WireType.int64 = true
is_int64 _ = false

abbrev pub is_variant8 : WireType → Bool
is_variant8 WireType.variant8 = true
is_variant8 _ = false

abbrev pub nothing_or_int64 : Schemas → Bool
nothing_or_int64 nil = false
nothing_or_int64 (cons s nil) = false
nothing_or_int64 (cons (node t name children) (cons (node t' name' children') nil)) =
    is_nothing t && is_int64 t'
nothing_or_int64 (cons s (cons s' (cons s'' ss))) = false

abbrev pub optional_int64 : Schema → Bool
optional_int64 (node t name children) = is_variant8 t && nothing_or_int64 children

abbrev pub is_empty : Schemas → Bool
is_empty nil = true
is_empty (cons s ss) = false

abbrev pub boolean_leaf : Schema → Bool
boolean_leaf (node t name children) = is_boolean t && is_empty children

abbrev pub checked : ℕ → String → SystemColumn → Bool → Result SkiffError (Option SystemColumn)
checked table reason column fits =
    if fits then ok (some column) else err (bad_skiff_schema table (message reason))

-- The match on the name of a schema.
abbrev pub column_named : ℕ → Schema → String → Result SkiffError (Option SystemColumn)
column_named table schema given =
    if str_eq given "$key_switch"
    then checked table "$key_switch must be boolean" key_switch (boolean_leaf schema)
    else if str_eq given "$row_index"
    then checked table "$row_index must be variant8<nothing;int64>" row_index
        (optional_int64 schema)
    else if str_eq given "$range_index"
    then checked table "$range_index must be variant8<nothing;int64>" range_index
        (optional_int64 schema)
    else ok none

-- `SystemColumn::from_schema`
unfoldable pub column_from_schema : ℕ → Schema → Result SkiffError (Option SystemColumn)
column_from_schema table (node t none children) = ok none
column_from_schema table (node t (some given) children) =
    column_named table (node t (some given) children) given

-- The body of the loop of `TableLayout::from_schema`, over what the later children answer; `seen` has
-- a flag for each slot.
abbrev pub placed :
    ℕ
    → SystemColumn
    → Bool
    → List Bool
    → Result SkiffError (List SystemColumn)
    → Result SkiffError (List SystemColumn)
placed table column data_started seen later = do
  guard (not data_started)
      (bad_skiff_schema table (message (name column +++ " appears after a data column")))
  guard (not (get_or seen (slot column) false))
      (bad_skiff_schema table (message (name column +++ " appears more than once")))
  columns ← later
  ok (column ∷ columns)

abbrev pub with_child :
    ℕ
    → (Bool → List Bool → Result SkiffError (List SystemColumn))
    → Bool
    → List Bool
    → Result SkiffError (Option SystemColumn)
    → Result SkiffError (List SystemColumn)
with_child table later data_started seen (err e) = err e
with_child table later data_started seen (ok none) = later true seen
with_child table later data_started seen (ok (some column)) =
    placed table column data_started seen (later data_started (set_at seen (slot column) true))

unfoldable pub layout_columns :
    ℕ → Schemas → Bool → List Bool → Result SkiffError (List SystemColumn)
layout_columns table nil data_started seen = ok []
layout_columns table (cons child children) data_started seen =
    with_child table (layout_columns table children) data_started seen
      (column_from_schema table child)

pub record TableLayout : Type 0 where
  pub system_columns : List SystemColumn

abbrev pub children_of : Schema → Schemas
children_of (node t name children) = children

unfoldable pub from_schema : ℕ → Schema → Result SkiffError TableLayout
from_schema table schema = do
  columns ← layout_columns table (children_of schema) false (false ∷ false ∷ false ∷ [])
  ok (record { system_columns = columns })
