-- ===== src/Skiff/Wire/Rows/Accepted.antt =====
-- What is known of a format that `from_parts` accepts.
use Prim.Native.String.{String}
use ytsaurus_rs.Base.{
  ℕ, zero, suc, ◌+◌, ◌<◌, List, [], ◌∷◌, length, get_elem?, true, ◌≡◌, refl, sym, arith, ok, err,
  ◌>>◌, >>=-eq-ok, ok-injective,
}
use ytsaurus_rs.Skiff.Schema.{
  Schema, WireType, node, validate_table_schema, missing_table_schema, empty_table_schemas,
}
use ytsaurus_rs.Skiff.Format.{
  Format, SchemaRef, table_schema, ok_or, validate_references, validate_format, from_parts,
  check_reference, validate_registry,
}
use ytsaurus_rs.Skiff.Wire.{is_tuple}
use ytsaurus_rs.Skiff.Wire.Rows.{wire_type}

-- Every table of an accepted format has a schema, whose root is a tuple.
abbrev pub HasTable : Format → ℕ → Type 0
HasTable format index =
    (schema : Schema) × (table_schema format index ≡ ok schema)
    × (is_tuple (wire_type schema) ≡ true)

validate_table_schema-tuple :
    (schema : Schema) → validate_table_schema schema ≡ ok tt → is_tuple (wire_type schema) ≡ true
unfolding validate_table_schema
validate_table_schema-tuple (node WireType.tuple name children) h = refl
validate_table_schema-tuple (node _ name children) h = cc

validate_references-HasTable :
    (format : Format) (index : ℕ) (references : List SchemaRef)
    → validate_references format index references ≡ ok tt
    → (k : ℕ) → k < length references
    → HasTable format (index + k)
unfolding validate_references
validate_references-HasTable format index [] h k small = absurd (omega arith)
validate_references-HasTable format index (reference ∷ references) h k small =
    let (u, first, more) = >>=-eq-ok (check_reference format.schema_registry reference) _ h in
    let (schema, found, more') = >>=-eq-ok (table_schema format index) _ more in
    let (u', is_table, later) = >>=-eq-ok (validate_table_schema schema) _ more' in
    at (validate_references-HasTable format (index + 1) references later) schema found
      (validate_table_schema-tuple schema is_table) k small
  where
    at :
        ((k : ℕ) → k < length references → HasTable format (index + 1 + k))
        → (schema : Schema) → table_schema format index ≡ ok schema
        → is_tuple (wire_type schema) ≡ true
        → (k : ℕ) → k < suc (length references)
        → HasTable format (index + k)
    at ih schema found tuple zero small =
        let e : index + 0 ≡ index = omega arith in rw e (schema, found, tuple)
    at ih schema found tuple (suc k) small =
        let e : index + suc k ≡ index + 1 + k = omega arith in rw e (ih k (omega arith))

validate_format-HasTable :
    (format : Format)
    → validate_format format ≡ ok tt
    → (k : ℕ) → k < length format.table_schemas
    → HasTable format k
unfolding validate_format
validate_format-HasTable format h = go format.table_schemas refl h
  where
    go :
        (references : List SchemaRef)
        → references ≡ format.table_schemas
        → (elim references [
          | [] ↦ err empty_table_schemas
          | r ∷ rs ↦
              validate_registry format.schema_registry
              >> validate_references format 0 format.table_schemas
        ])
          ≡ ok tt
        → (k : ℕ) → k < length format.table_schemas
        → HasTable format k
    go [] same h' k small = cc
    go (r ∷ rs) same h' k small =
        let (u, entries, valid) = >>=-eq-ok (validate_registry format.schema_registry) _ h' in
        let e : 0 + k ≡ k = omega arith in
        rw e at (validate_references-HasTable format 0 format.table_schemas valid k small)

-- A table that has a schema is one of those that the format lists.
pub table_schema-lt :
    (format : Format) (index : ℕ) (schema : Schema)
    → table_schema format index ≡ ok schema
    → index < length format.table_schemas
unfolding table_schema
table_schema-lt format index schema h =
    let (reference, found, rest) =
      >>=-eq-ok (ok_or (missing_table_schema index) (get_elem? format.table_schemas index)) _ h in
    listed format.table_schemas index reference found
  where
    listed :
        (references : List SchemaRef) (i : ℕ) (reference : SchemaRef)
        → ok_or (missing_table_schema index) (get_elem? references i) ≡ ok reference
        → i < length references
    listed [] i reference k = cc
    listed (r ∷ rs) zero reference k = omega arith
    listed (r ∷ rs) (suc i) reference k = omega (arith, listed rs i reference k)

pub from_parts-HasTable :
    (table_schemas : List SchemaRef) (schema_registry : List (String × Schema)) (format : Format)
    → from_parts table_schemas schema_registry ≡ ok format
    → (k : ℕ) → k < length format.table_schemas
    → HasTable format k
unfolding from_parts
from_parts-HasTable table_schemas schema_registry format h =
    let (u, valid, same) =
      >>=-eq-ok
        (validate_format
          (record { table_schemas = table_schemas; schema_registry = schema_registry }))
        _ h in
    rw (sym (ok-injective same)) (validate_format-HasTable _ valid)
