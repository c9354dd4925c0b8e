-- ===== src/Skiff/Wire/Rows/Returned.antt =====
-- A row that an encoder frames is read back by a decoder.
use mathlib.Core.Path.{subst}
use ytsaurus_rs.Base.{
  ℕ, ◌+◌, ◌-◌, ◌≤◌, List, [], ◌∷◌, ◌++◌, some, ◌≡◌, refl, sym, ap, ◌∙◌, arith, from_le, Result, ok,
  err, le_bytes,
}
use ytsaurus_rs.Skiff.Schema.{Schema, validate}
use ytsaurus_rs.Skiff.Format.{Format, table_schema}
use ytsaurus_rs.Skiff.Wire.{Value, CodecError, Written, write_all, ◌and_then◌, encode_value}
use ytsaurus_rs.Skiff.Wire.Decode.{pure, continue_with, ◌>>=◌, decode_value}
use ytsaurus_rs.Skiff.Wire.Footprint.{footprint}
use ytsaurus_rs.Skiff.Wire.Returned.{
  at, Returns, Returns-bind, Returns-map, and_then-eq-ok, read_exact-Returns,
}
use ytsaurus_rs.Skiff.Wire.Returned.Values.{InRange}
use ytsaurus_rs.Skiff.Wire.Returned.Whole.{decode_value-encode_value}
use ytsaurus_rs.Skiff.Wire.Rows.{
  Encoder, Decoder, as_codec, write, read_table, finish_row, row_body, indexed, next_row,
}

module _ (max limit : ℕ) where
  read_table-Returns :
      (format : Format) (schema : Schema)
      → table_schema format 0 ≡ ok schema
      → Returns max limit (read_table format 0) (0, schema) (0 ∷ []) 0
  unfolding read_table
  read_table-Returns format schema found rest left =
      ap
        (λ r. continue_with r (λ second. λ st.
          elim (as_codec (table_schema format (from_le (0 ∷ second)))) [
            | err e ↦ err e
            | ok schema' ↦ ok ((from_le (0 ∷ second), schema'), st)
          ]))
        (read_exact-Returns max limit 1 "table Variant16 tag" (0 ∷ []) refl rest left)
      ∙ ap
          (λ r. elim (as_codec r) [
            | err e ↦ err e
            | ok schema' ↦ ok ((0, schema'), at max limit rest left)
          ])
          found

module _ (size : ℕ) (d : Decoder) (schema : Schema) (row : Value) (bs : List ℕ)
    (valid : validate schema ≡ ok tt) (range : InRange row)
    (encoded : encode_value d.max_blob_bytes schema row ≡ (ok tt, bs))
    (found : table_schema d.format 0 ≡ ok schema)
    (pays : footprint size row ≤ d.max_row_bytes) where
  row_body-Returns :
      Returns d.max_blob_bytes d.max_row_bytes
        (row_body d (decode_value size) indexed 0)
        (0, row)
        (0 ∷ bs)
        (0 + footprint size row)
  row_body-Returns =
      let max : ℕ = d.max_blob_bytes in
      let limit : ℕ = d.max_row_bytes in
      Returns-bind max limit (read_table d.format 0)
        (λ (index, s). decode_value size s >>= λ v. pure (indexed index v)) (0, schema) (0, row)
        (0 ∷ []) bs 0 (footprint size row) (read_table-Returns max limit d.format schema found)
        (Returns-map max limit (decode_value size schema) (indexed 0) row bs (footprint size row)
          (λ rest left.
            decode_value-encode_value max limit size schema row bs rest left valid range encoded))

  framed-next_row :
      (rest : List ℕ)
      → next_row size (record d { input = 0 ∷ 0 ∷ (bs ++ rest) })
        ≡ ok (some (0, row), record d { input = rest })
  unfolding next_row
  framed-next_row rest =
      let left : ℕ = d.max_row_bytes - footprint size row in
      let e : 0 + footprint size row + left ≡ d.max_row_bytes = omega (arith, pays) in
      ap (finish_row (record d { input = 0 ∷ 0 ∷ (bs ++ rest) })) (
        subst
          (λ n.
            row_body d (decode_value size) indexed 0
              (at d.max_blob_bytes d.max_row_bytes (0 ∷ (bs ++ rest)) n)
            ≡ ok ((0, row), at d.max_blob_bytes d.max_row_bytes rest left))
          e (row_body-Returns rest left))

-- A row that an encoder accepts stands in its output behind what was written before, and is the next
-- row of every decoder whose table 0 has the schema of the encoder, with the bytes behind it left. The
-- schema is one that `validate` accepts, as a new encoder sees to; the numbers of the row fit their types,
-- the limits on blobs agree, and the limit on rows covers the footprint of the row.
pub next_row-write :
    (size : ℕ) (encoder encoder' : Encoder) (row : Value) (d : Decoder)
    → validate encoder.schema ≡ ok tt
    → InRange row
    → write encoder row ≡ (ok tt, encoder')
    → table_schema d.format 0 ≡ ok encoder.schema
    → d.max_blob_bytes ≡ encoder.max_blob_bytes
    → footprint size row ≤ d.max_row_bytes
    → (frame : List ℕ) × (encoder'.output ≡ encoder.output ++ frame)
      × ((rest : List ℕ)
          → next_row size (record d { input = frame ++ rest })
            ≡ ok (some (0, row), record d { input = rest }))
unfolding write
next_row-write size encoder encoder' row d valid range written found limits pays =
    let encoded : Written = encode_value encoder.max_blob_bytes encoder.schema row in
    let whole : Written = write_all (le_bytes 2 0) and_then encoded in
    let is_ok : whole ≡ (ok tt, whole.1) =
      ap (λ (w : Result CodecError (Unit {0}) × Encoder). (w.0, whole.1)) written in
    let (front, back, first, later, same) =
      and_then-eq-ok (write_all (le_bytes 2 0)) encoded whole.1 is_ok in
    let e : 0 ∷ 0 ∷ back ≡ whole.1 = ap (λ (w : Written). w.1 ++ back) first ∙ sym same in
    (
      0 ∷ 0 ∷ back,
      ap (λ (w : Result CodecError (Unit {0}) × Encoder). w.1.output) (sym written)
          ∙ ap (λ x. encoder.output ++ x) (sym e),
      framed-next_row size d encoder.schema row back valid range
          (subst (λ m. encode_value m encoder.schema row ≡ (ok tt, back)) (sym limits) later) found
          pays,
    )
