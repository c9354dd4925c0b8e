-- ===== src/Skiff/Format.antt =====
-- crates/ytsaurus-skiff/src/schema.rs: formats, which name the schema of each table. The registry, a
-- `BTreeMap`, is a list of its entries in the order of their names.
use Prim.Native.String.{String}
use text.Mathlib.Text.{◌==◌ as str_eq}
use ytsaurus_rs.Base.{
  ℕ, ◌+◌, List, [], ◌∷◌, get_elem?, Option, none, some, if◌then◌else◌, Result, ok, err, ◌>>=◌, ◌>>◌,
}
use ytsaurus_rs.Skiff.Schema.{
  Schema, SchemaError, missing_table_schema, unknown_registry_reference, empty_table_schemas,
  validate, validate_table_schema,
}

pub data SchemaRef : Type 0 where
  inline : Schema → SchemaRef
  registry : String → SchemaRef

pub record Format : Type 0 where
  pub table_schemas : List SchemaRef
  pub schema_registry : List (String × Schema)

-- `BTreeMap::get`
abbrev pub lookup : String → List (String × Schema) → Option Schema
lookup name [] = none
lookup name ((key, schema) ∷ entries) = if str_eq key name then some schema else lookup name entries

abbrev pub ok_or {ℓ} : {A : Type ℓ} → SchemaError → Option A → Result SchemaError A
ok_or e none = err e
ok_or e (some a) = ok a

abbrev pub resolve : List (String × Schema) → SchemaRef → Result SchemaError Schema
resolve entries (inline schema) = ok schema
resolve entries (registry name) = ok_or (unknown_registry_reference name) (lookup name entries)

unfoldable pub table_schema : Format → ℕ → Result SchemaError Schema
table_schema format index = do
  reference ← ok_or (missing_table_schema index) (get_elem? format.table_schemas index)
  resolve format.schema_registry reference

abbrev pub validate_registry : List (String × Schema) → Result SchemaError (Unit {0})
validate_registry [] = ok tt
validate_registry ((name, schema) ∷ entries) = validate schema >> validate_registry entries

-- The match on the reference in the loop of `validate`.
abbrev pub check_reference : List (String × Schema) → SchemaRef → Result SchemaError (Unit {0})
check_reference entries (inline schema) = validate schema
check_reference entries (registry name) =
    ok_or (unknown_registry_reference name) (lookup name entries) >> ok tt

unfoldable pub validate_references : Format → ℕ → List SchemaRef → Result SchemaError (Unit {0})
validate_references format index [] = ok tt
validate_references format index (reference ∷ references) = do
  check_reference format.schema_registry reference
  schema ← table_schema format index
  validate_table_schema schema
  validate_references format (index + 1) references

unfoldable pub validate_format : Format → Result SchemaError (Unit {0})
unfolding validate_references
validate_format format = elim format.table_schemas [
  | [] ↦ err empty_table_schemas
  | r ∷ rs ↦
      validate_registry format.schema_registry >> validate_references format 0 format.table_schemas
]

unfoldable pub from_parts : List SchemaRef → List (String × Schema) → Result SchemaError Format
unfolding validate_format
from_parts table_schemas schema_registry = do
  let format : Format = record { table_schemas = table_schemas; schema_registry = schema_registry }
  validate_format format
  ok format
