-- ===== src/Rpc/Wire/Reader.antt =====
-- crates/ytsaurus-rpc/src/wire.rs: the decoder of the row format.
use ytsaurus_rs.Base.{
  ℕ, zero, suc, ◌+◌, ◌-◌, List, [], ◌∷◌, length, take, drop, slice, get_or, Option, none, some, not,
  ltb, ◌==◌, if◌then◌else◌, from_le, Result, ok, err, guard, ◌>>=◌, ◌>>◌,
}
use ytsaurus_rs.Rpc.Wire.{
  ValueType, Value, UnversionedValue, Row, MaybeRow, WireError, truncated, too_many_rows,
  too_many_values, value_too_long, unknown_value_type, trailing_bytes, null_row_marker,
  max_rows_per_rowset, max_values_per_row, max_value_length, padding_for,
}

-- The reader's offset, and the bytes of the input from there on.
pub record Reader : Type 0 where
  pub offset : ℕ
  pub input : List ℕ

abbrev pub advance : ℕ → Reader → Reader
advance count r = record { offset = r.offset + count; input = drop count r.input }

unfoldable pub need : ℕ → Reader → Result WireError (Unit {0})
need count r =
    guard (not (ltb (length r.input) count)) (truncated r.offset (count - length r.input))

unfoldable pub read_u64 : Reader → Result WireError (ℕ × Reader)
read_u64 r = do need 8 r; ok (from_le (take 8 r.input), advance 8 r)

abbrev pub type_of_byte : ℕ → Option ValueType
type_of_byte raw =
    if raw == 0x02
    then some ValueType.null
    else if raw == 0x03
    then some ValueType.int64
    else if raw == 0x04
    then some ValueType.uint64
    else if raw == 0x05
    then some ValueType.double
    else if raw == 0x06
    then some ValueType.boolean
    else if raw == 0x10
    then some ValueType.string
    else if raw == 0x11
    then some ValueType.any
    else if raw == 0x12
    then some ValueType.composite
    else none

abbrev pub check_type : ℕ → Result WireError ValueType
check_type raw = elim (type_of_byte raw) [ none ↦ err (unknown_value_type raw) | some t ↦ ok t ]

unfoldable pub read_scalar : (ℕ → Value) → Reader → Result WireError (Value × Reader)
read_scalar build r = do (word, r') ← read_u64 r; ok (build word, r')

unfoldable pub read_blob : (List ℕ → Value) → ℕ → Reader → Result WireError (Value × Reader)
read_blob build size r = do
  guard (not (ltb max_value_length size)) (value_too_long size)
  need (size + padding_for size) r
  ok (build (take size r.input), advance (size + padding_for size) r)

-- The payload that the header's type calls for.
abbrev pub read_payload : ValueType → ℕ → Reader → Result WireError (Value × Reader)
read_payload ValueType.null size r = ok (Value.null, r)
read_payload ValueType.int64 size r = read_scalar Value.int64 r
read_payload ValueType.uint64 size r = read_scalar Value.uint64 r
read_payload ValueType.double size r = read_scalar Value.double r
read_payload ValueType.boolean size r = read_scalar (λ word. Value.boolean (not (word == 0))) r
read_payload ValueType.string size r = read_blob Value.string size r
read_payload ValueType.any size r = read_blob Value.any size r
read_payload ValueType.composite size r = read_blob Value.composite size r

unfoldable pub read_value : Reader → Result WireError (UnversionedValue × Reader)
read_value r = do
  need 8 r
  let header = take 8 r.input
  value_type ← check_type (get_or header 2 0)
  (value, r') ← read_payload value_type (from_le (slice 4 8 header)) (advance 8 r)
  ok (
    record {
      id = from_le (slice 0 2 header);
      aggregate = not (get_or header 3 0 == 0);
      value = value;
    },
    r',
  )

-- `count` values, one after the other.
unfoldable pub read_values : ℕ → Reader → Result WireError (Row × Reader)
read_values zero r = ok ([], r)
read_values (suc count) r = do
  (v, r') ← read_value r
  (vs, r'') ← read_values count r'
  ok (v ∷ vs, r'')

-- A row of `count` values, the `index`-th.
unfoldable pub read_counted : ℕ → ℕ → Reader → Result WireError (MaybeRow × Reader)
read_counted index count r = do
  guard (not (ltb max_values_per_row count)) (too_many_values index count)
  (row, r') ← read_values count r
  ok (some row, r')

unfoldable pub read_row : ℕ → Reader → Result WireError (MaybeRow × Reader)
read_row index r = do
  (count, r') ← read_u64 r
  if count == null_row_marker then ok (none, r') else read_counted index count r'

-- The rows from `index` on, with the count of those that are left.
unfoldable pub read_rows : ℕ → ℕ → Reader → Result WireError (List MaybeRow × Reader)
read_rows zero index r = ok ([], r)
read_rows (suc left) index r = do
  (row, r') ← read_row index r
  (rows, r'') ← read_rows left (index + 1) r'
  ok (row ∷ rows, r'')

unfoldable pub decode_rowset : List ℕ → Result WireError (List MaybeRow)
decode_rowset input = do
  (count, r) ← read_u64 (record { offset = 0; input = input })
  guard (not (ltb max_rows_per_rowset count)) (too_many_rows count)
  (rows, r') ← read_rows count 0 r
  guard (length r'.input == 0) (trailing_bytes (length r'.input))
  ok rows
