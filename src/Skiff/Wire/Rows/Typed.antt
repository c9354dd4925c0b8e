-- ===== src/Skiff/Wire/Rows/Typed.antt =====
-- The rows that a decoder answers, by the schemas of their tables.
use ytsaurus_rs.Base.{ℕ, List, [], ◌∷◌, Option, none, some, ◌≡◌, refl, from_le, Result, ok, err}
use ytsaurus_rs.Skiff.Schema.{Schema, SchemaError}
use ytsaurus_rs.Skiff.Format.{Format, table_schema}
use ytsaurus_rs.Skiff.Wire.{Value, CodecError}
use ytsaurus_rs.Skiff.Wire.Decode.{Stream, pure, continue_with, read_exact, decode_value}
use ytsaurus_rs.Skiff.Wire.Shape.{HasShape}
use ytsaurus_rs.Skiff.Wire.Shape.Decoded.{Gives, decode_value-HasShape}
use ytsaurus_rs.Skiff.Wire.Rows.{
  Decoder, as_codec, read_table, finish_row, row_from, indexed, next_row, new_budget,
}

-- Tables are read by the schema that the format has for them.
read_table-Gives :
    (format : Format) (first : ℕ) (st : Stream)
    → Gives (λ (index, schema). table_schema format index ≡ ok schema) (read_table format first st)
unfolding read_table
read_table-Gives format first st = go (read_exact 1 "table Variant16 tag" st)
  where
    found :
        (index : ℕ) (st' : Stream) (r : Result SchemaError Schema)
        → table_schema format index ≡ r
        → Gives
            (λ (index', schema). table_schema format index' ≡ ok schema)
            (elim (as_codec r) [ err e ↦ err e | ok schema ↦ ok ((index, schema), st') ])
    found index st' (ok schema) h = h
    found index st' (err e) h = tt

    go :
        (r : Result CodecError (List ℕ × Stream))
        → Gives
            (λ (index', schema). table_schema format index' ≡ ok schema)
            (continue_with r (λ second. λ st'.
              elim (as_codec (table_schema format (from_le (first ∷ second)))) [
                | err e ↦ err e
                | ok schema ↦ ok ((from_le (first ∷ second), schema), st')
              ]))
    go (ok (second, st')) = found (from_le (first ∷ second)) st' _ refl
    go (err e) = tt

-- What a decoder answers for a row.
abbrev pub Typed : Decoder → Result CodecError (Option (ℕ × Value) × Decoder) → Type 0
Typed d (err e) = Unit
Typed d (ok (none, d')) = d'.format ≡ d.format
Typed d (ok (some (table, row), d')) =
    (d'.format ≡ d.format)
    × (schema : Schema) × (table_schema d.format table ≡ ok schema)
    × HasShape schema row

row_body-Typed :
    (size : ℕ) (d : Decoder) (r : Result CodecError ((ℕ × Schema) × Stream))
    → Gives (λ (index, schema). table_schema d.format index ≡ ok schema) r
    → Typed d (
        finish_row d (
          continue_with r (λ (index, schema).
            λ st. continue_with (decode_value size schema st) (λ v. pure (indexed index v)))))
row_body-Typed size d (err e) h = tt
row_body-Typed size d (ok ((index, schema), st)) h =
    decoded (decode_value size schema st)
      (λ v st' same. decode_value-HasShape size schema st st' v same)
  where
    decoded :
        (r : Result CodecError (Value × Stream))
        → ((v : Value) (st' : Stream) → r ≡ ok (v, st') → HasShape schema v)
        → Typed d (finish_row d (continue_with r (λ v. pure (indexed index v))))
    decoded (ok (v, st')) k = (refl, schema, h, k v st' refl)
    decoded (err e) k = tt

pub next_row-Typed : (size : ℕ) (d : Decoder) → Typed d (next_row size d)
unfolding next_row
next_row-Typed size d = go d.input
  where
    go : (input : List ℕ) → Typed d (row_from d (decode_value size) indexed input)
    go [] = refl
    go (first ∷ rest) =
        row_body-Typed size d (read_table d.format first (new_budget d rest))
          (read_table-Gives d.format first (new_budget d rest))
