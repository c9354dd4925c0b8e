-- ===== src/Rpc/Wire/Sound.antt =====
-- What the decoder of the row format can answer on any input.
use ytsaurus_rs.Base.{
  ℕ, zero, suc, ◌+◌, ◌≤◌, List, [], ◌∷◌, length, take, All, none, some, not, ltb, ◌==◌, Bool-cases,
  inl, inr, ◌≡◌, refl, arith, Result, ok, guard, >>=-eq-ok, ok-injective, sym, length-take, from_le,
  slice, get_or, ap, suc,
}
use ytsaurus_rs.Rpc.Wire.{
  Value, ValueType, UnversionedValue, Row, MaybeRow, WireError, blob, length_word, max_value_length,
  max_values_per_row, max_rows_per_rowset, null_row_marker, padding_for,
}
use ytsaurus_rs.Rpc.Wire.Reader.{
  Reader, need, advance, read_u64, check_type, read_scalar, read_blob, read_payload, read_value,
  read_values, read_counted, read_row, read_rows, decode_rowset,
}
use ytsaurus_rs.Rpc.Wire.Limits.{FitsValue, FitsRow}

abbrev Fits : Value → Type 0
Fits x = length_word (blob x) ≤ max_value_length

read_blob-Fits :
    (build : List ℕ → Value) (size : ℕ) (r r' : Reader) (x : Value)
    → ((bytes : List ℕ) → blob (build bytes) ≡ some bytes)
    → read_blob build size r ≡ ok (x, r')
    → Fits x
unfolding read_blob
read_blob-Fits build size r r' x made h =
    let (u, small, h1) = >>=-eq-ok (guard (not (ltb max_value_length size)) _) _ h in
    let (u', there, h2) = >>=-eq-ok (need (size + padding_for size) r) _ h1 in
    let e : x ≡ build (take size r.input) = cc in
    let low : size ≤ max_value_length = ground (arith, small) in
    rw (e, made (take size r.input)) (omega (arith, length-take size r.input))

read_scalar-Fits :
    (build : ℕ → Value) (r r' : Reader) (x : Value)
    → ((w : ℕ) → blob (build w) ≡ none)
    → read_scalar build r ≡ ok (x, r')
    → Fits x
unfolding read_scalar
read_scalar-Fits build r r' x made h =
    let ((w, r''), word, h1) = >>=-eq-ok (read_u64 r) _ h in
    let e : x ≡ build w = cc in rw (e, made w) (omega arith)

read_payload-Fits :
    (t : ValueType) (size : ℕ) (r r' : Reader) (x : Value)
    → read_payload t size r ≡ ok (x, r')
    → Fits x
read_payload-Fits ValueType.null size r r' x h = let e : x ≡ Value.null = cc in rw e (omega arith)
read_payload-Fits ValueType.int64 size r r' x h = read_scalar-Fits Value.int64 r r' x (λ w. refl) h
read_payload-Fits ValueType.uint64 size r r' x h =
    read_scalar-Fits Value.uint64 r r' x (λ w. refl) h
read_payload-Fits ValueType.double size r r' x h =
    read_scalar-Fits Value.double r r' x (λ w. refl) h
read_payload-Fits ValueType.boolean size r r' x h =
    read_scalar-Fits (λ word. Value.boolean (not (word == 0))) r r' x (λ w. refl) h
read_payload-Fits ValueType.string size r r' x h =
    read_blob-Fits Value.string size r r' x (λ b. refl) h
read_payload-Fits ValueType.any size r r' x h = read_blob-Fits Value.any size r r' x (λ b. refl) h
read_payload-Fits ValueType.composite size r r' x h =
    read_blob-Fits Value.composite size r r' x (λ b. refl) h

read_value_fits : (r r' : Reader) (v : UnversionedValue) → read_value r ≡ ok (v, r') → FitsValue v
unfolding read_value
read_value_fits r r' v h =
    let (u, there, h1) = >>=-eq-ok (need 8 r) _ h in
    let (t, known, h2) = >>=-eq-ok (check_type (get_or (take 8 r.input) 2 0)) _ h1 in
    let size = from_le (slice 4 8 (take 8 r.input)) in
    let ((x, r''), payload, h3) = >>=-eq-ok (read_payload t size (advance 8 r)) _ h2 in
    let e : v.value ≡ x = sym (ap (λ q. q.0.value) (ok-injective h3)) in
    rw e (read_payload-Fits t size (advance 8 r) r'' x payload)

read_values_fits :
    (count : ℕ) (r r' : Reader) (vs : Row)
    → read_values count r ≡ ok (vs, r')
    → (length vs ≡ count) × All FitsValue vs
unfolding read_values
read_values_fits zero r r' vs h = let e : vs ≡ [] = cc in rw e (refl, tt)
read_values_fits (suc count) r r' vs h =
    let ((v, r1), first, h1) = >>=-eq-ok (read_value r) _ h in
    let ((ws, r2), others, h2) = >>=-eq-ok (read_values count r1) _ h1 in
    let e : vs ≡ v ∷ ws = cc in
    let (counted, fits) = read_values_fits count r1 r2 ws others in
    rw e (ap suc counted, (read_value_fits r r1 v first, fits))

read_counted_fits :
    (index count : ℕ) (r r' : Reader) (row : MaybeRow)
    → read_counted index count r ≡ ok (row, r')
    → FitsRow row
unfolding read_counted
read_counted_fits index count r r' row h =
    let (u, few, h1) = >>=-eq-ok (guard (not (ltb max_values_per_row count)) _) _ h in
    let ((vs, r1), read, h2) = >>=-eq-ok (read_values count r) _ h1 in
    let e : row ≡ some vs = cc in
    let (size, fits) = read_values_fits count r r1 vs read in
    let low : count ≤ max_values_per_row = ground (arith, few) in rw e (omega arith, fits)

read_row_fits :
    (index : ℕ) (r r' : Reader) (row : MaybeRow) → read_row index r ≡ ok (row, r') → FitsRow row
unfolding read_row
read_row_fits index r r' row h =
    let ((count, r1), counted, h1) = >>=-eq-ok (read_u64 r) _ h in
    elim (Bool-cases (count == null_row_marker)) [
      | inl marked ↦
          let h2 : ◌≡◌ {A = Result WireError (MaybeRow × Reader)} (ok (none, r1)) (ok (row, r')) =
            rw marked at h1 in
          let e : row ≡ none = cc in rw e tt
      | inr plain ↦
          let h2 : read_counted index count r1 ≡ ok (row, r') = rw plain at h1 in
          read_counted_fits index count r1 r' row h2
    ]

read_rows_fits :
    (left index : ℕ) (r r' : Reader) (rows : List MaybeRow)
    → read_rows left index r ≡ ok (rows, r')
    → (length rows ≡ left) × All FitsRow rows
unfolding read_rows
read_rows_fits zero index r r' rows h = let e : rows ≡ [] = cc in rw e (refl, tt)
read_rows_fits (suc left) index r r' rows h =
    let ((row, r1), first, h1) = >>=-eq-ok (read_row index r) _ h in
    let ((others, r2), more, h2) = >>=-eq-ok (read_rows left (index + 1) r1) _ h1 in
    let e : rows ≡ row ∷ others = cc in
    let (counted, fits) = read_rows_fits left (index + 1) r1 r2 others more in
    rw e (ap suc counted, (read_row_fits index r r1 row first, fits))

-- Whatever the input is, the rows that are decoded keep the limits on rows, values and blobs.
pub decode_rowset_limits :
    (input : List ℕ) (rows : List MaybeRow)
    → decode_rowset input ≡ ok rows
    → (length rows ≤ max_rows_per_rowset) × All FitsRow rows
unfolding decode_rowset
decode_rowset_limits input rows h =
    let ((count, r), counted, h1) =
      >>=-eq-ok (read_u64 (record { offset = 0; input = input })) _ h in
    let (u, few, h2) = >>=-eq-ok (guard (not (ltb max_rows_per_rowset count)) _) _ h1 in
    let ((found, r'), read, h3) = >>=-eq-ok (read_rows count 0 r) _ h2 in
    let (u', whole, h4) = >>=-eq-ok (guard (length r'.input == 0) _) _ h3 in
    let e : rows ≡ found = cc in
    let (size, fits) = read_rows_fits count 0 r r' found read in
    let low : count ≤ max_rows_per_rowset = ground (arith, few) in rw e (omega arith, fits)
