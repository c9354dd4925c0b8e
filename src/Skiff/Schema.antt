-- ===== src/Skiff/Schema.antt =====
-- crates/ytsaurus-skiff/src/schema.rs: wire types, schemas and their structural check.
use Prim.Native.String.{String}
use text.Mathlib.Text.{◌==◌ as str_eq}
use ytsaurus_rs.Base.{
  leb, ℕ, suc, ◌+◌, Option, none, some, Bool, true, false, if◌then◌else◌, Result, ok, err, guard,
  ◌>>◌, not, ◌==◌,
}

pub data WireType : Type 0 where
  nothing boolean int8 int16 int32 int64 int128 int256 uint8 uint16 uint32 uint64 double : WireType
  string32 yson32 variant8 variant16 repeated_variant8 repeated_variant16 tuple : WireType

-- A schema's `children` are a list of schemas.
mutual
  pub data Schema : Type 0 where
    node : WireType → Option String → Schemas → Schema

  pub data Schemas : Type 0 where
    nil : Schemas
    cons : Schema → Schemas → Schemas

abbrev pub count : Schemas → ℕ
count nil = 0
count (cons s ss) = suc (count ss)

pub data SchemaError : Type 0 where
  unknown_wire_type : String → SchemaError
  unexpected_children : (wire_type : WireType) → (count : ℕ) → SchemaError
  too_many_children : (wire_type : WireType) → (count maximum : ℕ) → SchemaError
  empty_table_schemas : SchemaError
  unknown_registry_reference : String → SchemaError
  missing_table_schema : (index : ℕ) → SchemaError
  format_must_be_skiff : SchemaError
  missing_format_attribute : String → SchemaError
  invalid_registry_reference : SchemaError
  invalid_schema_reference : SchemaError
  unexpected_attributes : (context : String) → SchemaError
  expected_map : (context : String) → SchemaError
  expected_list : (context : String) → SchemaError
  missing_field : (context field : String) → SchemaError
  expected_string : (context field : String) → SchemaError
  invalid_utf8 : (field : String) → SchemaError
  unknown_field : (context field : String) → SchemaError
  table_schema_root_must_be_tuple : (found : WireType) → SchemaError
  table_schema_child_missing_name : (index : ℕ) → SchemaError

-- `self.wire_type == WireType::Nothing || self.wire_type.is_simple()`
abbrev pub is_leaf : WireType → Bool
is_leaf variant8 = false
is_leaf variant16 = false
is_leaf repeated_variant8 = false
is_leaf repeated_variant16 = false
is_leaf tuple = false
is_leaf _ = true

-- The most children that a variant may have; the arms of `validate`'s match.
abbrev pub max_children : WireType → Option ℕ
max_children variant8 = some 256
max_children variant16 = some 65_536
max_children repeated_variant8 = some 255
max_children repeated_variant16 = some 65_535
max_children _ = none

abbrev pub check_maximum : WireType → ℕ → Option ℕ → Result SchemaError (Unit {0})
check_maximum t n none = ok tt
check_maximum t n (some maximum) = guard (leb n maximum) (too_many_children t n maximum)

-- The checks of `validate` on one node, with the count of its children.
abbrev pub check_node : WireType → ℕ → Result SchemaError (Unit {0})
check_node t n =
    if is_leaf t
    then guard (n == 0) (unexpected_children t n)
    else check_maximum t n (max_children t)

unfoldable mutual
  pub validate : Schema → Result SchemaError (Unit {0})
  validate (node t name children) = do check_node t (count children); validate_all children

  pub validate_all : Schemas → Result SchemaError (Unit {0})
  validate_all nil = ok tt
  validate_all (cons s ss) = do validate s; validate_all ss

abbrev pub has_name : Option String → Bool
has_name none = false
has_name (some name) = not (str_eq name "")

-- The loop of `validate_table_schema` over the children of the root.
pub check_names : ℕ → Schemas → Result SchemaError (Unit {0})
check_names index nil = ok tt
check_names index (cons (node t name children) ss) = do
  guard (has_name name) (table_schema_child_missing_name index)
  check_names (index + 1) ss

unfoldable pub validate_table_schema : Schema → Result SchemaError (Unit {0})
unfolding check_names
validate_table_schema (node tuple name children) = check_names 0 children
validate_table_schema (node t name children) = err (table_schema_root_must_be_tuple t)
