-- ===== src/Rpc/Wire/Sizes.antt =====
-- The size of an encoded rowset, and its alignment.
use ytsaurus_rs.Base.{◌+◌, ◌%◌, List, [], ◌∷◌, length, none, some, ◌≡◌, refl, arith, length-append}
use ytsaurus_rs.Rpc.Wire.{
  Value, UnversionedValue, Row, MaybeRow, blob, scalar, wire_size, row_size, rows_size,
  encoded_size, put_payload, encode_value_unchecked, encode_values, encode_rows,
  encode_rowset_unchecked,
}
use ytsaurus_rs.Rpc.Wire.RoundTrip.{length-padded}

length-put_payload : (x : Value) → length (put_payload (scalar x) (blob x)) + 8 ≡ wire_size x
length-put_payload Value.null = refl
length-put_payload (Value.int64 w) = refl
length-put_payload (Value.uint64 w) = refl
length-put_payload (Value.double w) = refl
length-put_payload (Value.boolean b) = refl
length-put_payload (Value.string bytes) = omega (arith, length-padded bytes)
length-put_payload (Value.any bytes) = omega (arith, length-padded bytes)
length-put_payload (Value.composite bytes) = omega (arith, length-padded bytes)

length-encode_value : (v : UnversionedValue) → length (encode_value_unchecked v) ≡ wire_size v.value
unfolding encode_value_unchecked
length-encode_value v = omega (arith, length-put_payload v.value)

length-encode_values : (vs : Row) → length (encode_values vs) ≡ row_size vs
unfolding encode_values
length-encode_values [] = refl
length-encode_values (v ∷ vs) = omega (
  arith,
  length-append (encode_value_unchecked v) (encode_values vs),
  length-encode_value v,
  length-encode_values vs,
)

length-encode_rows : (rows : List MaybeRow) → length (encode_rows rows) ≡ rows_size rows
unfolding encode_rows
length-encode_rows [] = refl
length-encode_rows (none ∷ rows) = omega (arith, length-encode_rows rows)
length-encode_rows (some row ∷ rows) = omega (
  arith,
  length-append (encode_values row) (encode_rows rows),
  length-encode_values row,
  length-encode_rows rows,
)

wire_size-aligned : (x : Value) → wire_size x % 8 ≡ 0
wire_size-aligned Value.null = refl
wire_size-aligned (Value.int64 w) = refl
wire_size-aligned (Value.uint64 w) = refl
wire_size-aligned (Value.double w) = refl
wire_size-aligned (Value.boolean b) = refl
wire_size-aligned (Value.string bytes) = omega arith
wire_size-aligned (Value.any bytes) = omega arith
wire_size-aligned (Value.composite bytes) = omega arith

row_size-aligned : (vs : Row) → row_size vs % 8 ≡ 0
row_size-aligned [] = refl
row_size-aligned (v ∷ vs) = omega (arith, wire_size-aligned v.value, row_size-aligned vs)

rows_size-aligned : (rows : List MaybeRow) → rows_size rows % 8 ≡ 0
rows_size-aligned [] = refl
rows_size-aligned (none ∷ rows) = omega (arith, rows_size-aligned rows)
rows_size-aligned (some row ∷ rows) = omega (arith, row_size-aligned row, rows_size-aligned rows)

-- What is written for any rows has the size that `encoded_size` promises, a multiple of eight.
pub length-encode_rowset_unchecked :
    (rows : List MaybeRow)
    → (length (encode_rowset_unchecked rows) ≡ encoded_size rows) × (encoded_size rows % 8 ≡ 0)
unfolding encode_rowset_unchecked encoded_size
length-encode_rowset_unchecked rows = omega (arith, length-encode_rows rows, rows_size-aligned rows)
