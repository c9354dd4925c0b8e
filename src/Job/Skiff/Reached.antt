-- ===== src/Job/Skiff/Reached.antt =====
-- Every reader that a job can have: made by `new` over an accepted format, and used from then on.
use Prim.Native.String.{String}
use ytsaurus_rs.Base.{
  ℕ, zero, suc, ◌+◌, ◌<◌, List, [], ◌∷◌, length, get_elem?, replicate, Option, none, some, true,
  ◌≡◌, refl, ap, sym, ◌∙◌, arith, Result, ok, err, >>=-eq-ok, ok-injective,
}
use mathlib.Core.Path.{subst}
use ytsaurus_rs.Skiff.Schema.{Schema, WireType, SchemaError, node}
use ytsaurus_rs.Skiff.Format.{Format, SchemaRef, table_schema, from_parts}
use ytsaurus_rs.Skiff.Wire.{Value, Values, CodecError, is_tuple}
use ytsaurus_rs.Skiff.Wire.Shape.{HasShape, HasShapes}
use ytsaurus_rs.Skiff.Wire.Rows.{Decoder, wire_type}
use ytsaurus_rs.Skiff.Wire.Rows
use ytsaurus_rs.Skiff.Wire.Rows.Typed.{Typed, next_row-Typed}
use ytsaurus_rs.Skiff.Wire.Rows.Accepted.{HasTable, table_schema-lt, from_parts-HasTable}
use ytsaurus_rs.Job.Skiff.{SkiffError, TableLayout, children_of, from_schema}
use ytsaurus_rs.Job.Skiff.Control.{
  ControlState, SkiffJobReader, SkiffRow, expect, layouts_from, new, with_max_blob_bytes,
  with_max_row_bytes, answered, next_row,
}
use ytsaurus_rs.Job.Skiff.Layouts.{from_schema-Lays}
use ytsaurus_rs.Job.Skiff.Sound.{IsReader, Sound, tuple_row-Sound}

-- A value of the shape of a tuple schema is a tuple.
tuple-HasShape :
    (schema : Schema) (v : Value)
    → is_tuple (wire_type schema) ≡ true
    → HasShape schema v
    → (vs : Values) × (v ≡ Value.tuple vs) × HasShapes (children_of schema) vs
unfolding HasShape
tuple-HasShape (node WireType.tuple name children) (Value.tuple vs) tuple h = (vs, refl, h.1)
tuple-HasShape (node WireType.tuple name children) (Value.variant tag v) tuple h = cc
tuple-HasShape (node WireType.tuple name children) (Value.repeated_variants items) tuple h = cc
tuple-HasShape (node WireType.tuple name children) _ tuple h = absurd h
tuple-HasShape (node _ name children) v tuple h = cc

module _ (format : Format) where
  answered-Sound :
      (r : SkiffJobReader) (answer : Result CodecError (Option (ℕ × Value) × Decoder))
      → IsReader format r
      → Typed r.decoder answer
      → Sound format (answered r answer)
  answered-Sound r (err e) reader typed = tt
  answered-Sound r (ok (none, decoder)) reader typed = (typed ∙ reader.0, reader.1)
  answered-Sound r (ok (some (table, row), decoder)) reader (same, schema, found, shape) =
      let found' : table_schema format table ≡ ok schema =
        ap (λ (f : Format). table_schema f table) (sym reader.0) ∙ found in
      let (layout, state, of_layouts, of_state, lays, tuple) = reader.1 table schema found' in
      let (vs, is_tuple_of, shapes) = tuple-HasShape schema row tuple shape in
      rw is_tuple_of (
        tuple_row-Sound format table schema vs (record r { decoder = decoder }) found'
          (same ∙ reader.0, reader.1) shapes)

  next_row-Sound :
      (size : ℕ) (r : SkiffJobReader) → IsReader format r → Sound format (next_row size r)
  unfolding next_row
  next_row-Sound size r reader =
      answered-Sound r (Rows.next_row size r.decoder) reader (next_row-Typed size r.decoder)

  -- The layouts of the tables from `index` on.
  abbrev Made : ℕ → List TableLayout → Type 0
  Made index layouts =
      (k : ℕ)
      → k < length layouts
      → (schema : Schema) × (layout : TableLayout) × (table_schema format (index + k) ≡ ok schema)
        × (get_elem? layouts k ≡ some layout)
        × (from_schema (index + k) schema ≡ ok layout)

  cons-Made :
      (index : ℕ) (schema : Schema) (layout : TableLayout) (layouts : List TableLayout)
      → table_schema format index ≡ ok schema
      → from_schema index schema ≡ ok layout
      → Made (index + 1) layouts
      → Made index (layout ∷ layouts)
  cons-Made index schema layout layouts found made ih zero small =
      let e : index + 0 ≡ index = omega arith in rw e (schema, layout, found, refl, made)
  cons-Made index schema layout layouts found made ih (suc k) small =
      let e : index + suc k ≡ index + 1 + k = omega arith in rw e (ih k (omega arith))

  layouts_from-Made :
      (n index : ℕ) (layouts : List TableLayout)
      → layouts_from format index n ≡ ok layouts
      → (length layouts ≡ n) × Made index layouts
  unfolding layouts_from
  layouts_from-Made zero index layouts h =
      let e : layouts ≡ [] = cc in rw e (refl, λ k small. absurd (omega arith))
  layouts_from-Made (suc n) index layouts h =
      let (schema, found, rest) = >>=-eq-ok (expect (table_schema format index)) _ h in
      let (layout, made, rest') = >>=-eq-ok (from_schema index schema) _ rest in
      let (layouts', later, same) = >>=-eq-ok (layouts_from format (index + 1) n) _ rest' in
      let (counted, ih) = layouts_from-Made n (index + 1) layouts' later in
      subst (λ ls. (length ls ≡ suc n) × Made index ls) (ok-injective same)
        (
          ap suc counted,
          cons-Made index schema layout layouts' (expected (table_schema format index) schema found)
              made ih,
        )
    where
      expected :
          (r : Result SchemaError Schema) (schema : Schema) → expect r ≡ ok schema → r ≡ ok schema
      expected (ok s) schema k = cc
      expected (err e) schema k = cc

  get_elem?-replicate :
      (n k : ℕ) (control : ControlState) → k < n → get_elem? (replicate n control) k ≡ some control
  get_elem?-replicate zero k control h = absurd (omega arith)
  get_elem?-replicate (suc n) zero control h = refl
  get_elem?-replicate (suc n) (suc k) control h = get_elem?-replicate n k control (omega arith)

  new-IsReader :
      (input : List ℕ) (r : SkiffJobReader)
      → ((k : ℕ) → k < length format.table_schemas → HasTable format k)
      → new input format ≡ ok r
      → IsReader format r
  unfolding new
  new-IsReader input r valid h =
      let (layouts, made, same) =
        >>=-eq-ok (layouts_from format 0 (length format.table_schemas)) _ h in
      let (counted, each) = layouts_from-Made (length format.table_schemas) 0 layouts made in
      subst (IsReader format) (ok-injective same) (
        refl,
        λ index schema found.
            let small : index < length format.table_schemas =
              table_schema-lt format index schema found in
            let (schema', layout, found', of_layouts, made') =
              each index (omega (arith, small, counted)) in
            let e : 0 + index ≡ index = omega arith in
            let same' : schema' ≡ schema = ok-injective (sym (rw e at found') ∙ found) in
            let (schema'', found'', tuple) = valid index small in
            let same'' : schema'' ≡ schema = ok-injective (sym found'' ∙ found) in
            (
              layout,
              record { row_index = 0; range_index = 0 },
              of_layouts,
              get_elem?-replicate (length layouts) index _ (omega (arith, small, counted)),
              from_schema-Lays index schema layout
                  (subst (λ s. from_schema index s ≡ ok layout) same' (rw e at made')),
              subst (λ s. is_tuple (wire_type s) ≡ true) same'' tuple,
            ),
      )

-- A reader that is made over an accepted format, given its limits, and asked for rows, behind calls
-- that failed also. A failed call of the decoder has taken some bytes, and the reader goes on at any
-- rest of them: here at any input. The size of a value is the same for all.
pub data Reachable (size : ℕ) (format : Format) : SkiffJobReader → Type 0 where
  made : (input : List ℕ) (r : SkiffJobReader) → new input format ≡ ok r → Reachable size format r
  blobs_limited :
      (bytes : ℕ) (r : SkiffJobReader)
      → Reachable size format r
      → Reachable size format (with_max_blob_bytes r bytes)
  rows_limited :
      (bytes : ℕ) (r : SkiffJobReader)
      → Reachable size format r
      → Reachable size format (with_max_row_bytes r bytes)
  asked :
      (r r' : SkiffJobReader) (answer : Option SkiffRow)
      → Reachable size format r
      → next_row size r ≡ ok (answer, r')
      → Reachable size format r'
  asked_in_vain :
      (r : SkiffJobReader) (e : SkiffError) (left : List ℕ)
      → Reachable size format r
      → next_row size r ≡ err e
      → Reachable size format (record r { decoder = record r.decoder { input = left } })

Sound-IsReader :
    (format : Format) (answer : Option SkiffRow) (r : SkiffJobReader)
    → Sound format (ok (answer, r))
    → IsReader format r
Sound-IsReader format none r h = h
Sound-IsReader format (some row) r h = h.0

module _ (format : Format) (size : ℕ)
    (valid : (k : ℕ) → k < length format.table_schemas → HasTable format k) where
  Reachable-IsReader : (r : SkiffJobReader) → Reachable size format r → IsReader format r
  Reachable-IsReader r (Reachable.made input _ h) = new-IsReader format input r valid h
  Reachable-IsReader _ (Reachable.blobs_limited bytes r before) = Reachable-IsReader r before
  Reachable-IsReader _ (Reachable.rows_limited bytes r before) = Reachable-IsReader r before
  Reachable-IsReader r (Reachable.asked r0 _ answer before h) =
      Sound-IsReader format answer r
        (rw h at (next_row-Sound format size r0 (Reachable-IsReader r0 before)))
  Reachable-IsReader _ (Reachable.asked_in_vain r e left before h) = Reachable-IsReader r before

-- A row of a reader over an accepted format, however it has been used, behind failed calls also, is
-- that of a table of the format: its value is a tuple that has the shape of the columns of the table without the system
-- columns. No error but one of the codec is met: no system column is malformed, no row too short, and
-- nothing panics.
pub next_row_lem :
    (size : ℕ) (table_schemas : List SchemaRef) (schema_registry : List (String × Schema))
    (format : Format) (r : SkiffJobReader)
    → from_parts table_schemas schema_registry ≡ ok format
    → Reachable size format r
    → Sound format (next_row size r)
next_row_lem size table_schemas schema_registry format r accepted reached =
    next_row-Sound format size r (
      Reachable-IsReader format size
        (from_parts-HasTable table_schemas schema_registry format accepted) r reached)
