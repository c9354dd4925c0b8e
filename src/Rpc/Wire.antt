-- ===== src/Rpc/Wire.antt =====
-- crates/ytsaurus-rpc/src/wire.rs: the types and the encoder of the row format. An `i64` and an
-- `f64` are their 64-bit patterns.
pub mod Reader
pub mod Limits
pub mod RoundTrip
pub mod Sizes
pub mod Sound
mod Runs
use ytsaurus_rs.Base.{
  ℕ, zero, suc, ◌+◌, ◌-◌, ◌*◌, ◌%◌, ◌^◌, min, List, [], ◌∷◌, ◌++◌, length, Option, none, some, Bool,
  true, false, ltb, if◌then◌else◌, le_bytes, replicate, Result, ok, err, guard, not, ◌>>=◌, ◌>>◌,
}

abbrev pub alignment : ℕ
alignment = 8

abbrev pub null_row_marker : ℕ
null_row_marker = 2 ^ 64 - 1

abbrev pub max_rows_per_rowset : ℕ
max_rows_per_rowset = 5 * 1024 * 1024

abbrev pub max_values_per_row : ℕ
max_values_per_row = 1024

abbrev pub max_value_length : ℕ
max_value_length = 16 * 1024 * 1024

-- `MAX_PART_SIZE` of bus/packet.rs.
abbrev pub max_rowset_size : ℕ
max_rowset_size = 2 ^ 30

pub data ValueType : Type 0 where
  null int64 uint64 double boolean string any composite : ValueType

abbrev pub type_byte : ValueType → ℕ
type_byte null = 0x02
type_byte int64 = 0x03
type_byte uint64 = 0x04
type_byte double = 0x05
type_byte boolean = 0x06
type_byte string = 0x10
type_byte any = 0x11
type_byte composite = 0x12

pub data Value : Type 0 where
  null : Value
  int64 : ℕ → Value
  uint64 : ℕ → Value
  double : ℕ → Value
  boolean : Bool → Value
  string : List ℕ → Value
  any : List ℕ → Value
  composite : List ℕ → Value

abbrev pub value_type : Value → ValueType
value_type Value.null = ValueType.null
value_type (Value.int64 _) = ValueType.int64
value_type (Value.uint64 _) = ValueType.uint64
value_type (Value.double _) = ValueType.double
value_type (Value.boolean _) = ValueType.boolean
value_type (Value.string _) = ValueType.string
value_type (Value.any _) = ValueType.any
value_type (Value.composite _) = ValueType.composite

abbrev pub blob : Value → Option (List ℕ)
blob (Value.string bytes) = some bytes
blob (Value.any bytes) = some bytes
blob (Value.composite bytes) = some bytes
blob _ = none

abbrev pub bit : Bool → ℕ
bit true = 1
bit false = 0

-- The payload word of the scalar types.
abbrev pub scalar : Value → Option ℕ
scalar (Value.int64 w) = some w
scalar (Value.uint64 w) = some w
scalar (Value.double w) = some w
scalar (Value.boolean b) = some (bit b)
scalar _ = none

abbrev pub padding_for : ℕ → ℕ
padding_for n = (alignment - n % alignment) % alignment

abbrev pub blob_size : List ℕ → ℕ
blob_size bytes = length bytes + padding_for (length bytes)

abbrev pub wire_size : Value → ℕ
wire_size Value.null = alignment + 0
wire_size (Value.string bytes) = alignment + blob_size bytes
wire_size (Value.any bytes) = alignment + blob_size bytes
wire_size (Value.composite bytes) = alignment + blob_size bytes
wire_size _ = alignment + alignment

-- `UnversionedValue`: the index of the column, the aggregate flag and the value.
pub record UnversionedValue : Type 0 where
  pub id : ℕ
  pub aggregate : Bool
  pub value : Value

abbrev pub Row : Type 0
Row = List UnversionedValue

abbrev pub MaybeRow : Type 0
MaybeRow = Option Row

pub data WireError : Type 0 where
  truncated : ℕ → ℕ → WireError
  too_many_rows : ℕ → WireError
  too_many_values : ℕ → ℕ → WireError
  value_too_long : ℕ → WireError
  rowset_too_large : ℕ → WireError
  allocation_failed : ℕ → WireError
  unknown_value_type : ℕ → WireError
  trailing_bytes : ℕ → WireError

abbrev pub row_size : Row → ℕ
row_size [] = 0
row_size (v ∷ vs) = wire_size v.value + row_size vs

abbrev pub rows_size : List MaybeRow → ℕ
rows_size [] = 0
rows_size (none ∷ rows) = alignment + rows_size rows
rows_size (some row ∷ rows) = alignment + row_size row + rows_size rows

pub encoded_size : List MaybeRow → ℕ
encoded_size rows = alignment + rows_size rows

-- `checked_add` on `usize`, then the limit of the attachment.
pub add_to_rowset_size : ℕ → ℕ → Result WireError ℕ
add_to_rowset_size size additional =
    if ltb (2 ^ 64 - 1) (size + additional)
    then err (rowset_too_large (2 ^ 64 - 1))
    else if ltb max_rowset_size (size + additional)
    then err (rowset_too_large (size + additional))
    else ok (size + additional)

abbrev pub validate_blob : Option (List ℕ) → Result WireError (Unit {0})
validate_blob none = ok tt
validate_blob (some bytes) =
    guard (not (ltb max_value_length (length bytes)))
      (value_too_long (min (length bytes) (2 ^ 32 - 1)))

pub validate_value : UnversionedValue → Result WireError (Unit {0})
validate_value v = validate_blob (blob v.value)

-- The loop of `validate_and_measure` over the values of a row, from the size so far.
pub measure_row : Row → ℕ → Result WireError ℕ
measure_row [] size = ok size
measure_row (v ∷ vs) size = do
  validate_value v
  size' ← add_to_rowset_size size (wire_size v.value)
  measure_row vs size'

-- Its loop over the rows.
pub measure_rows : ℕ → List MaybeRow → ℕ → Result WireError ℕ
measure_rows index [] size = ok size
measure_rows index (none ∷ rows) size = do
  size' ← add_to_rowset_size size alignment
  measure_rows (index + 1) rows size'
measure_rows index (some row ∷ rows) size = do
  size' ← add_to_rowset_size size alignment
  guard (not (ltb max_values_per_row (length row))) (too_many_values index (length row))
  size'' ← measure_row row size'
  measure_rows (index + 1) rows size''

unfoldable pub validate_and_measure : List MaybeRow → Result WireError ℕ
validate_and_measure rows = do
  guard (not (ltb max_rows_per_rowset (length rows))) (too_many_rows (length rows))
  measure_rows 0 rows alignment

abbrev pub length_word : Option (List ℕ) → ℕ
length_word none = 0
length_word (some bytes) = length bytes

abbrev pub padded : List ℕ → List ℕ
padded bytes = bytes ++ replicate (padding_for (length bytes)) 0

abbrev pub put_blob : Option (List ℕ) → List ℕ
put_blob none = []
put_blob (some bytes) = padded bytes

abbrev pub put_payload : Option ℕ → Option (List ℕ) → List ℕ
put_payload (some word) _ = le_bytes 8 word
put_payload none b = put_blob b

unfoldable pub encode_value_unchecked : UnversionedValue → List ℕ
encode_value_unchecked v =
    le_bytes 2 v.id
    ++ (type_byte (value_type v.value)
        ∷ bit v.aggregate
        ∷ (le_bytes 4 (length_word (blob v.value)) ++ put_payload (scalar v.value) (blob v.value)))

unfoldable pub encode_values : Row → List ℕ
encode_values [] = []
encode_values (v ∷ vs) = encode_value_unchecked v ++ encode_values vs

unfoldable pub encode_rows : List MaybeRow → List ℕ
encode_rows [] = []
encode_rows (none ∷ rows) = le_bytes 8 null_row_marker ++ encode_rows rows
encode_rows (some row ∷ rows) = le_bytes 8 (length row) ++ (encode_values row ++ encode_rows rows)

-- What is appended to the output.
unfoldable pub encode_rowset_unchecked : List MaybeRow → List ℕ
encode_rowset_unchecked rows = le_bytes 8 (length rows) ++ encode_rows rows

-- The allocator is a parameter: it says whether `size` bytes can be reserved.
unfoldable pub encode_rowset : (ℕ → Bool) → List MaybeRow → Result WireError (List ℕ)
encode_rowset can_reserve rows = do
  size ← validate_and_measure rows
  guard (can_reserve size) (allocation_failed size)
  ok (encode_rowset_unchecked rows)

-- The outcome, and the buffer `out` afterwards.
unfoldable pub encode_rowset_into : List MaybeRow → List ℕ → Result WireError (Unit {0}) × List ℕ
encode_rowset_into rows out = elim (validate_and_measure rows) [
  | err e ↦ (err e, out)
  | ok _ ↦ (ok tt, out ++ encode_rowset_unchecked rows)
]
