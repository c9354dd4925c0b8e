-- ===== src/Skiff/Wire/Runs.antt =====
-- A concrete row, and the theorems at it.
use Prim.Native.String.{String}
use ytsaurus_rs.Base.{
  take, ◌≢◌, ◌+◌, ◌≤◌, ℕ, List, [], ◌∷◌, ◌++◌, arith, none, some, ◌≡◌, refl, ok, err,
}
use ytsaurus_rs.Skiff.Schema.{
  missing_table_schema, validate_table_schema, Schema, WireType, node, nil, cons, validate,
}
use ytsaurus_rs.Skiff.Wire.{
  write_variant_tag, write_blob, check_blob_length, Value, no_items, item, no_values, value,
  truncated, row_too_large, out_of_fuel, invalid_schema, write_all, encode_value,
}
use ytsaurus_rs.Skiff.Wire.Decode.{
  select, read_word, read_variant_tag, read_exact, read_blob, decode_tuple, decode_repeated,
  decode_items, charge, Stream, decode_value,
}
use ytsaurus_rs.Skiff.Wire.Skip.{skip_tuple, skip_blob, skip_value}
use ytsaurus_rs.Skiff.Format.{Format, inline, table_schema, from_parts}
use ytsaurus_rs.Skiff.Wire.Returned.Values.{InRange}
use ytsaurus_rs.Skiff.Wire.Returned.Whole.{decode_value-encode_value}
use ytsaurus_rs.Skiff.Wire.Rows.Returned.{next_row-write}
use ytsaurus_rs.Skiff.Wire.Rows.{
  Encoder, write, Decoder, new_decoder, next_row, skip_row, read_table,
}
use ytsaurus_rs.Skiff.Wire.Rows.Cut.{next_row_cut}
use ytsaurus_rs.Skiff.Wire.Rows.Frames.{forget_value, skip_row-next_row}
use ytsaurus_rs.Skiff.Wire.Footprint.{inner, footprint}
use ytsaurus_rs.Skiff.Wire.Footprint.Charged.{decode_value-out_of_fuel, decode_value-footprint}
use ytsaurus_rs.Skiff.Wire.Agree.{forget, skip_value-decode_value}

-- A tuple of a blob and of repeated numbers or nothings.
abbrev row : Schema
row = node WireType.tuple none (
    cons (node WireType.string32 (some "name") nil) (
      cons
        (node WireType.repeated_variant8 (some "more")
          (cons (node WireType.nothing none nil) (cons (node WireType.uint16 none nil) nil)))
        nil))

abbrev sample : Value
sample = Value.tuple (
    value (Value.bytes (104 ∷ 105 ∷ [])) (
      value (Value.repeated_variants (item 1 (Value.uint16 0x0102) (item 0 Value.nothing no_items)))
        no_values))

abbrev sample_bytes : List ℕ
sample_bytes = 2 ∷ 0 ∷ 0 ∷ 0 ∷ 104 ∷ 105 ∷ 1 ∷ 2 ∷ 1 ∷ 0 ∷ 255 ∷ []

abbrev stream : List ℕ → ℕ → Stream
stream input remaining = record {
  input = input;
  max_blob_bytes = 16;
  limit = 1000;
  remaining = remaining;
}

row_valid : validate row ≡ ok tt
unfolding validate
row_valid = refl

sample_encoded : encode_value 16 row sample ≡ write_all sample_bytes
unfolding encode_value write_blob write_variant_tag
sample_encoded = refl

sample_decoded : decode_value 40 row (stream sample_bytes 1000) ≡ ok (sample, stream [] 798)
unfolding decode_value charge decode_tuple read_blob read_word read_exact check_blob_length
    decode_repeated decode_items read_variant_tag select
sample_decoded = refl

sample_cut : skip_value 40 row (stream (2 ∷ 0 ∷ 0 ∷ []) 1000) ≡ err (truncated "blob length")
unfolding skip_value charge skip_tuple skip_blob read_word read_exact
sample_cut = refl

over_budget : skip_value 40 row (stream sample_bytes 81) ≡ err (row_too_large 1000)
unfolding skip_value charge skip_tuple skip_blob read_word read_exact check_blob_length
over_budget = refl

skip_value-decode_value_example :
    skip_value 40 row (stream sample_bytes 1000)
    ≡ forget (decode_value 40 row (stream sample_bytes 1000))
skip_value-decode_value_example = skip_value-decode_value 40 row (stream sample_bytes 1000)

abbrev format : Format
format = record { table_schemas = inline row ∷ []; schema_registry = [] }

format_valid : from_parts (inline row ∷ []) [] ≡ ok format
unfolding from_parts validate table_schema validate_table_schema
format_valid = refl

-- The row as `write` frames it for the table 0.
abbrev framed : Decoder
framed = new_decoder (0 ∷ 0 ∷ sample_bytes) format

framed_row : next_row 40 framed ≡ ok (some (0, sample), new_decoder [] format)
unfolding next_row read_table read_exact table_schema decode_value charge decode_tuple read_blob
    read_word check_blob_length decode_repeated decode_items read_variant_tag select
framed_row = refl

no_table :
    skip_row 40 (new_decoder (1 ∷ 0 ∷ []) format) ≡ err (invalid_schema (missing_table_schema 1))
unfolding skip_row read_table read_exact table_schema
no_table = refl

skip_row-next_row_example : skip_row 40 framed ≡ forget_value (next_row 40 framed)
skip_row-next_row_example = skip_row-next_row 40 framed

next_row_cut_example :
    (context : String) × (next_row 40 (record framed { input = take 7 framed.input })
      ≡ err (truncated context))
next_row_cut_example =
    next_row_cut 40 framed (new_decoder [] format) (0, sample) 7 framed_row (omega arith)
      (omega arith)

decode_value-out_of_fuel_example : decode_value 40 row (stream (2 ∷ 0 ∷ []) 1000) ≢ err out_of_fuel
decode_value-out_of_fuel_example = decode_value-out_of_fuel 40 row (stream (2 ∷ 0 ∷ []) 1000)

decode_value-footprint_example : (798 + footprint 40 sample ≡ 1000) × (0 ≤ 11)
decode_value-footprint_example =
    decode_value-footprint 40 row (stream sample_bytes 1000) (stream [] 798) sample sample_decoded

sample-InRange : InRange sample
unfolding InRange
sample-InRange = omega arith

decode_value-encode_value_example :
    decode_value 40 row (stream (sample_bytes ++ (7 ∷ [])) (footprint 40 sample + 798))
    ≡ ok (sample, stream (7 ∷ []) 798)
decode_value-encode_value_example =
    decode_value-encode_value 16 1000 40 row sample sample_bytes (7 ∷ []) 798 row_valid
      sample-InRange sample_encoded

abbrev encoder : List ℕ → Encoder
encoder output = record { output = output; schema = row; max_blob_bytes = 16 }

abbrev decoder : List ℕ → Decoder
decoder input = record { input = input; format = format; max_blob_bytes = 16; max_row_bytes = 1000 }

sample_written : write (encoder (9 ∷ [])) sample ≡ (ok tt, encoder (9 ∷ 0 ∷ 0 ∷ sample_bytes))
unfolding write encode_value write_blob write_variant_tag
sample_written = refl

next_row-write_example :
    (frame : List ℕ) × (9 ∷ 0 ∷ 0 ∷ sample_bytes ≡ (9 ∷ []) ++ frame)
    × ((rest : List ℕ)
        → next_row 40 (decoder (frame ++ rest)) ≡ ok (some (0, sample), decoder rest))
unfolding inner
next_row-write_example =
    next_row-write 40 (encoder (9 ∷ [])) (encoder (9 ∷ 0 ∷ 0 ∷ sample_bytes)) sample (decoder [])
      row_valid sample-InRange sample_written (unfold table_schema in refl) refl
      (unfold footprint in omega arith)
