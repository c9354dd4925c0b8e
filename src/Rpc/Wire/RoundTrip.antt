-- ===== src/Rpc/Wire/RoundTrip.antt =====
-- The decoder of the row format on what its encoder writes.
use ytsaurus_rs.Base.{
  ℕ, ◌+◌, ◌^◌, ◌≤◌, ◌<◌, List, [], ◌∷◌, ◌++◌, length, All, Option, none, some, Bool, true, false,
  not, replicate, le_bytes, ◌==◌, ◌≡◌, refl, sym, ap, ◌∙◌, arith, Result, ok, length-append,
  length-replicate, ◌>>=◌, take-append, drop-append, append_assoc, append-nil, le→ltb,
  from_le-le_bytes,
}
use ytsaurus_rs.Rpc.Wire.{
  Value, ValueType, UnversionedValue, Row, MaybeRow, WireError, blob, scalar, length_word,
  wire_size, row_size, rows_size, max_value_length, max_values_per_row, max_rows_per_rowset,
  encoded_size, padding_for, padded, bit, type_byte, encode_value_unchecked, encode_values,
  encode_rows, encode_rowset_unchecked, encode_rowset, null_row_marker,
}
use ytsaurus_rs.Rpc.Wire.Reader.{
  Reader, need, read_u64, check_type, read_scalar, read_blob, read_value, read_values, read_counted,
  read_payload, read_row, read_rows, decode_rowset,
}
use ytsaurus_rs.Rpc.Wire.Limits.{FitsValue, FitsRow, IsWithinLimits, validate_and_measure_iff}

-- What the types of the source promise: a `u16` column and a 64-bit payload.
abbrev pub word_of : Option ℕ → ℕ
word_of none = 0
word_of (some w) = w

pub record IsValue (v : UnversionedValue) : Type 0 where
  pub id_fits : v.id < 2 ^ 16
  pub word_fits : word_of (scalar v.value) < 2 ^ 64

abbrev pub IsRow : MaybeRow → Type 0
IsRow none = Unit {0}
IsRow (some row) = All IsValue row

abbrev reader : ℕ → List ℕ → Reader
reader offset input = record { offset = offset; input = input }

need_lem : (count : ℕ) (r : Reader) → count ≤ length r.input → need count r ≡ ok tt
unfolding need
need_lem count r h = rw (le→ltb (length r.input) count h)

read_u64-le_bytes :
    (o w : ℕ) (rest : List ℕ)
    → w < 2 ^ 64
    → read_u64 (reader o (le_bytes 8 w ++ rest)) ≡ ok (w, reader (o + 8) rest)
unfolding read_u64
read_u64-le_bytes o w rest h =
    rw (need_lem 8 (reader o (le_bytes 8 w ++ rest)) (omega arith), from_le-le_bytes 8 w h)

read_scalar-le_bytes :
    (build : ℕ → Value) (o w : ℕ) (rest : List ℕ)
    → w < 2 ^ 64
    → read_scalar build (reader o (le_bytes 8 w ++ rest)) ≡ ok (build w, reader (o + 8) rest)
unfolding read_scalar
read_scalar-le_bytes build o w rest h = rw (read_u64-le_bytes o w rest h)

pub length-padded :
    (bytes : List ℕ) → length (padded bytes) ≡ length bytes + padding_for (length bytes)
length-padded bytes = omega (
  arith,
  length-append bytes (replicate (padding_for (length bytes)) 0),
  length-replicate {0} {A = ℕ} (padding_for (length bytes)) 0,
)

read_blob-padded :
    (build : List ℕ → Value) (o : ℕ) (bytes rest : List ℕ)
    → length bytes ≤ max_value_length
    → read_blob build (length bytes) (reader o (padded bytes ++ rest))
      ≡ ok (build bytes, reader (o + (length bytes + padding_for (length bytes))) rest)
unfolding read_blob
read_blob-padded build o bytes rest h = rw (
  le→ltb max_value_length (length bytes) h,
  need_lem (length bytes + padding_for (length bytes)) (reader o (padded bytes ++ rest))
      (omega (arith, length-append (padded bytes) rest, length-padded bytes)),
  drop-append _ (padded bytes) rest (sym (length-padded bytes)),
  append_assoc bytes (replicate (padding_for (length bytes)) 0) rest,
  take-append (length bytes) bytes (replicate (padding_for (length bytes)) 0 ++ rest) refl,
)

-- The rest of `read_value`, once the payload is read.
abbrev with_header :
    ℕ → Bool → Result WireError (Value × Reader) → Result WireError (UnversionedValue × Reader)
with_header id aggregate m =
    m >>= λ (value, r). ok (record { id = id; aggregate = aggregate; value = value }, r)

check_type-type_byte : (t : ValueType) → check_type (type_byte t) ≡ ok t
check_type-type_byte ValueType.null = refl
check_type-type_byte ValueType.int64 = refl
check_type-type_byte ValueType.uint64 = refl
check_type-type_byte ValueType.double = refl
check_type-type_byte ValueType.boolean = refl
check_type-type_byte ValueType.string = refl
check_type-type_byte ValueType.any = refl
check_type-type_byte ValueType.composite = refl

not_zero-bit : (b : Bool) → not (bit b == 0) ≡ b
not_zero-bit true = refl
not_zero-bit false = refl

-- What `read_value` does on the header that is written before a payload.
read_value-header :
    (o id size : ℕ) (t : ValueType) (aggregate : Bool) (payload : List ℕ)
    → id < 2 ^ 16
    → size < 2 ^ 32
    → read_value
        (reader o (le_bytes 2 id ++ (type_byte t ∷ bit aggregate ∷ (le_bytes 4 size ++ payload))))
      ≡ with_header id aggregate (read_payload t size (reader (o + 8) payload))
unfolding read_value
read_value-header o id size t aggregate payload hi hs =
    let input : List ℕ =
      le_bytes 2 id ++ (type_byte t ∷ bit aggregate ∷ (le_bytes 4 size ++ payload)) in
    rw (
      need_lem 8 (reader o input) (omega arith),
      check_type-type_byte t,
      from_le-le_bytes 4 size hs,
      from_le-le_bytes 2 id hi,
      not_zero-bit aggregate,
    )

moved {ℓ} :
    {A : Type ℓ} (a : A) (o o' : ℕ) (rest : List ℕ)
    → o ≡ o'
    → ◌≡◌ {A = Result WireError (A × Reader)} (ok (a, reader o rest)) (ok (a, reader o' rest))
moved a o o' rest e = ap (λ k. ok (a, reader k rest)) e

module _ (o : ℕ) (v : UnversionedValue) (rest : List ℕ) (id_fits : v.id < 2 ^ 16) where
  abbrev ReadsBack : Value → Type 0
  ReadsBack x =
      read_value (reader o (encode_value_unchecked (record v { value = x }) ++ rest))
      ≡ ok (record v { value = x }, reader (o + wire_size x) rest)

  scalar_back :
      (build : ℕ → Value) (w : ℕ)
      → w < 2 ^ 64
      → with_header v.id v.aggregate (read_scalar build (reader (o + 8) (le_bytes 8 w ++ rest)))
        ≡ ok (record v { value = build w }, reader (o + 16) rest)
  scalar_back build w h =
      rw (read_scalar-le_bytes build (o + 8) w rest h)
        (moved (record v { value = build w }) (o + 8 + 8) (o + 16) rest (omega arith))

  blob_back :
      (build : List ℕ → Value) (bytes : List ℕ)
      → length bytes ≤ max_value_length
      → with_header v.id v.aggregate
          (read_blob build (length bytes) (reader (o + 8) (padded bytes ++ rest)))
        ≡ ok (
          record v { value = build bytes },
          reader (o + (8 + (length bytes + padding_for (length bytes)))) rest,
        )
  blob_back build bytes h =
      rw (read_blob-padded build (o + 8) bytes rest h)
        (moved (record v { value = build bytes }) _ _ rest (omega arith))

  value_back :
      (x : Value)
      → word_of (scalar x) < 2 ^ 64
      → length_word (blob x) ≤ max_value_length
      → ReadsBack x
  unfolding encode_value_unchecked
  value_back Value.null hw hb =
      read_value-header o v.id 0 ValueType.null v.aggregate rest id_fits (omega arith)
  value_back (Value.int64 w) hw hb =
      read_value-header o v.id 0 ValueType.int64 v.aggregate (le_bytes 8 w ++ rest) id_fits
        (omega arith)
      ∙ scalar_back Value.int64 w hw
  value_back (Value.uint64 w) hw hb =
      read_value-header o v.id 0 ValueType.uint64 v.aggregate (le_bytes 8 w ++ rest) id_fits
        (omega arith)
      ∙ scalar_back Value.uint64 w hw
  value_back (Value.double w) hw hb =
      read_value-header o v.id 0 ValueType.double v.aggregate (le_bytes 8 w ++ rest) id_fits
        (omega arith)
      ∙ scalar_back Value.double w hw
  value_back (Value.boolean b) hw hb =
      read_value-header o v.id 0 ValueType.boolean v.aggregate (le_bytes 8 (bit b) ++ rest) id_fits
        (omega arith)
      ∙ scalar_back (λ word. Value.boolean (not (word == 0))) (bit b) hw
      ∙ ap (λ c. ok (record v { value = Value.boolean c }, reader (o + 16) rest)) (not_zero-bit b)
  value_back (Value.string bytes) hw hb =
      read_value-header o v.id (length bytes) ValueType.string v.aggregate (padded bytes ++ rest)
        id_fits (omega arith)
      ∙ blob_back Value.string bytes hb
  value_back (Value.any bytes) hw hb =
      read_value-header o v.id (length bytes) ValueType.any v.aggregate (padded bytes ++ rest)
        id_fits (omega arith)
      ∙ blob_back Value.any bytes hb
  value_back (Value.composite bytes) hw hb =
      read_value-header o v.id (length bytes) ValueType.composite v.aggregate (padded bytes ++ rest)
        id_fits (omega arith)
      ∙ blob_back Value.composite bytes hb

read_value-encode :
    (o : ℕ) (v : UnversionedValue) (rest : List ℕ)
    → IsValue v
    → FitsValue v
    → read_value (reader o (encode_value_unchecked v ++ rest))
      ≡ ok (v, reader (o + wire_size v.value) rest)
read_value-encode o v rest typed fits =
    value_back o v rest typed.id_fits v.value typed.word_fits fits

read_values-encode :
    (o : ℕ) (vs : Row) (rest : List ℕ)
    → All IsValue vs
    → All FitsValue vs
    → read_values (length vs) (reader o (encode_values vs ++ rest))
      ≡ ok (vs, reader (o + row_size vs) rest)
unfolding read_values encode_values
read_values-encode o [] rest typed fits = moved [] o (o + 0) rest (omega arith)
read_values-encode o (v ∷ vs) rest typed fits =
    rw
      (
        append_assoc (encode_value_unchecked v) (encode_values vs) rest,
        read_value-encode o v (encode_values vs ++ rest) typed.0 fits.0,
        read_values-encode (o + wire_size v.value) vs rest typed.1 fits.1,
      )
      (moved (v ∷ vs) _ _ rest (omega arith))

read_rows-encode :
    (o index : ℕ) (rows : List MaybeRow) (rest : List ℕ)
    → All IsRow rows
    → All FitsRow rows
    → read_rows (length rows) index (reader o (encode_rows rows ++ rest))
      ≡ ok (rows, reader (o + rows_size rows) rest)
unfolding read_rows encode_rows read_row read_counted
read_rows-encode o index [] rest typed fits = moved [] o (o + 0) rest (omega arith)
read_rows-encode o index (none ∷ rows) rest typed fits =
    rw
      (
        read_u64-le_bytes o null_row_marker (encode_rows rows ++ rest) (omega arith),
        read_rows-encode (o + 8) (index + 1) rows rest typed.1 fits.1,
      )
      (moved (none ∷ rows) _ _ rest (omega arith))
read_rows-encode o index (some row ∷ rows) rest typed fits =
    let present : (length row == null_row_marker) ≡ false = ground (arith, fits.0.0) in
    rw
      (
        read_u64-le_bytes o (length row) ((encode_values row ++ encode_rows rows) ++ rest)
            (omega (arith, fits.0.0)),
        present,
        le→ltb max_values_per_row (length row) fits.0.0,
        append_assoc (encode_values row) (encode_rows rows) rest,
        read_values-encode (o + 8) row (encode_rows rows ++ rest) typed.0 fits.0.1,
        read_rows-encode (o + 8 + row_size row) (index + 1) rows rest typed.1 fits.1,
      )
      (moved (some row ∷ rows) _ _ rest (omega arith))

-- A rowset within every limit is encoded, wherever memory for it can be had, and what is written
-- decodes to the same rows: null rows, empty rows and every kind of value.
pub decode_rowset-encode_rowset :
    (can_reserve : ℕ → Bool) (rows : List MaybeRow)
    → All IsRow rows
    → IsWithinLimits rows
    → can_reserve (encoded_size rows) ≡ true
    → (encode_rowset can_reserve rows >>= decode_rowset) ≡ ok rows
unfolding encode_rowset decode_rowset encode_rowset_unchecked
decode_rowset-encode_rowset can_reserve rows typed limits room =
    let bytes : List ℕ = encode_rows rows in
    let ready : read_rows (length rows) 0 (reader 8 bytes)
        ≡ ok (rows, reader (8 + rows_size rows) []) =
      rw append-nil at (read_rows-encode 8 0 rows [] typed limits.rows_fit) in
    rw (
      (validate_and_measure_iff rows (encoded_size rows)).1 (limits, refl),
      room,
      read_u64-le_bytes 0 (length rows) bytes (omega (arith, limits.row_count)),
      le→ltb max_rows_per_rowset (length rows) limits.row_count,
      ready,
    )
