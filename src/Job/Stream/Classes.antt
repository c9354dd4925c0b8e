-- ===== src/Job/Stream/Classes.antt =====
-- The classification of a record ends without the fuel of the loops around it.
use Prim.Native.String.{String}
use ytsaurus_rs.Base.{
  ℕ, List, Bool, true, false, ◌==◌, if◌then◌else◌, ◌≢◌, Result, err, Result-cases, Option-cases,
  inl, inr,
}
use ytsaurus_rs.Yson.Node.{
  YsonValue, value, YsonMap, YsonNode, no_attributes, attributes, entity, boolean, empty, field,
  as_i64, same_bytes,
}
use ytsaurus_rs.Job.{JobError, out_of_fuel}
use ytsaurus_rs.Job.Reader.Control.{
  Decoding, Classified, to_table, to_row, to_range, classify, classify_attributed, classify_value,
  classify_fields, switched, indexed, node_of, named_key_switch, named_table_index, named_row_index,
  named_range_index, first_significant_byte,
}

module _ (decoding : Decoding) where
  switched-out_of_fuel :
      (offset : ℕ) (node : YsonNode) → switched decoding offset node ≢ err out_of_fuel
  switched-out_of_fuel offset (boolean true) e = cc
  switched-out_of_fuel offset (boolean false) e = cc
  switched-out_of_fuel offset _ e = cc

  indexed-out_of_fuel :
      (offset : ℕ) (name : String) (v : YsonValue) (to : ℕ → Classified)
      → indexed decoding offset name v to ≢ err out_of_fuel
  indexed-out_of_fuel offset name v to e = elim (Option-cases (as_i64 v)) [
    | inl absent ↦ let e' = rw (indexed, absent) at e in cc
    | inr (i, present) ↦ let e' = rw (indexed, present) at e in cc
  ]

  if-out_of_fuel :
      (b : Bool) (r r' : Result JobError Classified)
      → r ≢ err out_of_fuel
      → r' ≢ err out_of_fuel
      → (if b then r else r') ≢ err out_of_fuel
  if-out_of_fuel true r r' h h' = h
  if-out_of_fuel false r r' h h' = h'

  classify_fields-out_of_fuel :
      (offset : ℕ) (fields : YsonMap) → classify_fields decoding offset fields ≢ err out_of_fuel
  classify_fields-out_of_fuel offset empty = λ e. cc
  classify_fields-out_of_fuel offset (field key v fields) =
      if-out_of_fuel (same_bytes key named_key_switch) _ _ (switched-out_of_fuel offset (node_of v))
        (if-out_of_fuel (same_bytes key named_table_index) _ _
          (indexed-out_of_fuel offset "table_index" v to_table)
          (if-out_of_fuel (same_bytes key named_row_index) _ _
            (indexed-out_of_fuel offset "row_index" v to_row)
            (if-out_of_fuel (same_bytes key named_range_index) _ _
              (indexed-out_of_fuel offset "range_index" v to_range)
              (classify_fields-out_of_fuel offset fields))))

  classify_value-out_of_fuel :
      (offset : ℕ) (v : YsonValue) → classify_value decoding offset v ≢ err out_of_fuel
  classify_value-out_of_fuel offset (value no_attributes entity) e = cc
  classify_value-out_of_fuel offset (value (attributes fields) entity) e =
      classify_fields-out_of_fuel offset fields e
  classify_value-out_of_fuel offset (value attrs _) e = cc

  attributed-out_of_fuel :
      (bytes : List ℕ) (is_binary : Bool) (offset : ℕ)
      → classify_attributed decoding bytes is_binary offset ≢ err out_of_fuel
  unfolding classify_attributed
  attributed-out_of_fuel bytes is_binary offset e =
      elim (Result-cases (decoding.from_slice is_binary bytes)) [
        | inl (v, read) ↦ classify_value-out_of_fuel offset v (rw (classify_attributed, read) at e)
        | inr (source, failed) ↦ let e' = rw (classify_attributed, failed) at e in cc
      ]

  pub classify-out_of_fuel :
      (bytes : List ℕ) (is_binary : Bool) (offset : ℕ)
      → classify decoding bytes is_binary offset ≢ err out_of_fuel
  unfolding classify
  classify-out_of_fuel bytes is_binary offset e =
      elim (Option-cases (first_significant_byte is_binary bytes)) [
        | inl blank ↦ let e' = rw (classify, blank) at e in cc
        | inr (b, first) ↦
            if-out_of_fuel (b == b'<') _ _ (attributed-out_of_fuel bytes is_binary offset) (λ h. cc)
              (rw (classify, first) at e)
      ]
