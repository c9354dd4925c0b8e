-- ===== src/Skiff/Wire/Rows.antt =====
-- crates/ytsaurus-skiff/src/wire.rs: `Encoder` and `Decoder`, which frame rows by a table index.
-- The state of a decoder after an error is not modelled.
pub mod Cut
pub mod Frames
pub mod Accepted
pub mod Returned
pub mod Typed
use ytsaurus_rs.Base.{
  ℕ, zero, suc, ◌+◌, ◌*◌, List, [], ◌∷◌, ◌++◌, Option, none, some, Bool, true, false, not,
  if◌then◌else◌, le_bytes, from_le, Result, ok, err,
}
use ytsaurus_rs.Skiff.Schema.{Schema, WireType, node, validate, validate_table_schema, SchemaError}
use ytsaurus_rs.Skiff.Format.{Format, table_schema}
use ytsaurus_rs.Skiff.Wire.{
  Value, CodecError, invalid_schema, table_schema_must_be_tuple, Written, write_all, ◌and_then◌,
  encode_value, is_tuple,
}
use ytsaurus_rs.Skiff.Wire.Decode.{
  Stream, M, pure, throw, continue_with, ◌>>=◌, ◌>>◌, read_exact, decode_value,
}
use ytsaurus_rs.Skiff.Wire.Skip.{skip_value}

-- `map_err(CodecError::InvalidSchema)`
abbrev pub as_codec {ℓ} : {A : Type ℓ} → Result SchemaError A → Result CodecError A
as_codec (ok a) = ok a
as_codec (err e) = err (invalid_schema e)

pub record Encoder : Type 0 where
  pub output : List ℕ
  pub schema : Schema
  pub max_blob_bytes : ℕ

abbrev pub default_max_blob_bytes : ℕ
default_max_blob_bytes = 128 * 1024 * 1024

abbrev pub default_max_row_bytes : ℕ
default_max_row_bytes = 256 * 1024 * 1024

abbrev pub wire_type : Schema → WireType
wire_type (node t name children) = t

unfoldable pub new_encoder : List ℕ → Schema → Result CodecError Encoder
new_encoder output schema = elim (as_codec (validate schema)) [
  | err e ↦ err e
  | ok _ ↦
      if not (is_tuple (wire_type schema))
      then err (table_schema_must_be_tuple (wire_type schema))
      else elim (as_codec (validate_table_schema schema)) [
        | err e ↦ err e
        | ok _ ↦
            ok
              (record { output = output; schema = schema; max_blob_bytes = default_max_blob_bytes })
      ]
]

-- What is written by the time of an error stays in the output.
abbrev pub extend : Encoder → Written → Result CodecError (Unit {0}) × Encoder
extend encoder (r, bytes) = (r, record encoder { output = encoder.output ++ bytes })

unfoldable pub write : Encoder → Value → Result CodecError (Unit {0}) × Encoder
write encoder row =
    extend encoder
      (write_all (le_bytes 2 0) and_then encode_value encoder.max_blob_bytes encoder.schema row)

pub record Decoder : Type 0 where
  pub input : List ℕ
  pub format : Format
  pub max_blob_bytes : ℕ
  pub max_row_bytes : ℕ

abbrev pub new_decoder : List ℕ → Format → Decoder
new_decoder input format = record {
  input = input;
  format = format;
  max_blob_bytes = default_max_blob_bytes;
  max_row_bytes = default_max_row_bytes;
}

-- `RowBudget::new`, over what is left of the input.
abbrev pub new_budget : Decoder → List ℕ → Stream
new_budget decoder input = record {
  input = input;
  max_blob_bytes = decoder.max_blob_bytes;
  limit = decoder.max_row_bytes;
  remaining = decoder.max_row_bytes;
}

-- The second byte of the tag, then the schema of the table.
unfoldable pub read_table : Format → ℕ → M (ℕ × Schema)
read_table format first = do
  second ← read_exact 1 "table Variant16 tag"
  let index : ℕ = from_le (first ∷ second)
  λ st. elim (as_codec (table_schema format index)) [
    | err e ↦ err e
    | ok schema ↦ ok ((index, schema), st)
  ]

-- The body of `next_row` and of `skip_row`, by what reads the value. No byte is the end of the stream.
abbrev pub finish_row {ℓ} :
    {A : Type ℓ} → Decoder → Result CodecError (A × Stream) → Result CodecError (Option A × Decoder)
finish_row decoder (ok (a, st)) = ok (some a, record decoder { input = st.input })
finish_row decoder (err e) = err e

abbrev pub row_body {ℓ κ} :
    {A : Type ℓ} {B : Type κ} → Decoder → (Schema → M A) → (ℕ → A → B) → ℕ → M B
row_body decoder read answer first = do
  (index, schema) ← read_table decoder.format first
  a ← read schema
  pure (answer index a)

abbrev pub row_from {ℓ κ} :
    {A : Type ℓ} {B : Type κ}
    → Decoder
    → (Schema → M A)
    → (ℕ → A → B)
    → List ℕ
    → Result CodecError (Option B × Decoder)
row_from decoder read answer [] = ok (none, decoder)
row_from decoder read answer (first ∷ rest) =
    finish_row decoder (row_body decoder read answer first (new_budget decoder rest))

abbrev pub indexed : ℕ → Value → ℕ × Value
indexed index row = (index, row)

unfoldable pub next_row : ℕ → Decoder → Result CodecError (Option (ℕ × Value) × Decoder)
next_row value_size decoder = row_from decoder (decode_value value_size) indexed decoder.input

unfoldable pub skip_row : ℕ → Decoder → Result CodecError (Option ℕ × Decoder)
skip_row value_size decoder =
    row_from decoder (skip_value value_size) (λ index u. index) decoder.input
