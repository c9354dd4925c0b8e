-- ===== src/Rpc/Wire/Limits.antt =====
-- The limits of the row format: what `validate_and_measure` accepts, and the size that it answers.
use ytsaurus_rs.Base.{
  ℕ, ◌+◌, ◌≤◌, List, [], ◌∷◌, length, All, Option, none, some, false, ltb, ◌≡◌, ◌↔◌, refl, ap,
  arith, ok, not, guard, >>=-eq-ok, le→ltb,
}
use ytsaurus_rs.Rpc.Wire.{
  UnversionedValue, Row, MaybeRow, blob, length_word, wire_size, row_size, rows_size,
  max_value_length, max_values_per_row, max_rows_per_rowset, max_rowset_size, alignment,
  encoded_size, add_to_rowset_size, validate_blob, validate_value, measure_row, measure_rows,
  validate_and_measure,
}

abbrev pub FitsValue : UnversionedValue → Type 0
FitsValue v = length_word (blob v.value) ≤ max_value_length

abbrev pub FitsRow : MaybeRow → Type 0
FitsRow none = Unit {0}
FitsRow (some row) = (length row ≤ max_values_per_row) × All FitsValue row

-- The limits of the protocol, and that of the attachment.
pub record IsWithinLimits (rows : List MaybeRow) : Type 0 where
  pub row_count : length rows ≤ max_rows_per_rowset
  pub rows_fit : All FitsRow rows
  pub size_fits : encoded_size rows ≤ max_rowset_size

add_sound :
    (size additional s : ℕ)
    → add_to_rowset_size size additional ≡ ok s
    → (s ≡ size + additional) × (s ≤ max_rowset_size)
unfolding add_to_rowset_size
add_sound size additional s h = ground arith

add_complete :
    (size additional : ℕ)
    → size + additional ≤ max_rowset_size
    → add_to_rowset_size size additional ≡ ok (size + additional)
unfolding add_to_rowset_size
add_complete size additional h = ground arith

validate_blob_iff :
    (b : Option (List ℕ)) → (validate_blob b ≡ ok tt) ↔ (length_word b ≤ max_value_length)
validate_blob_iff none = (λ h. omega arith, λ h. refl)
validate_blob_iff (some bytes) = (λ h. ground arith, λ h. ground arith)

measure_row_sound :
    (vs : Row) (size s : ℕ)
    → size ≤ max_rowset_size
    → measure_row vs size ≡ ok s
    → (s ≡ size + row_size vs) × All FitsValue vs × (s ≤ max_rowset_size)
unfolding measure_row validate_value
measure_row_sound [] size s low h = (ground arith, tt, ground arith)
measure_row_sound (v ∷ vs) size s low h =
    let (u, valid, h1) = >>=-eq-ok (validate_blob (blob v.value)) _ h in
    let (size', added, h2) = >>=-eq-ok (add_to_rowset_size size (wire_size v.value)) _ h1 in
    let (e, below) = add_sound size (wire_size v.value) size' added in
    let (total, fits, bound) = measure_row_sound vs size' s below h2 in
    (omega arith, ((validate_blob_iff (blob v.value)).0 valid, fits), bound)

measure_row_complete :
    (vs : Row) (size : ℕ)
    → All FitsValue vs
    → size + row_size vs ≤ max_rowset_size
    → measure_row vs size ≡ ok (size + row_size vs)
unfolding measure_row validate_value
measure_row_complete [] size fits h = ap ok (omega arith)
measure_row_complete (v ∷ vs) size fits h =
    rw
      (
        (validate_blob_iff (blob v.value)).1 fits.0,
        add_complete size (wire_size v.value) (omega arith),
        measure_row_complete vs (size + wire_size v.value) fits.1 (omega arith),
      )
      (ap ok (omega arith))

measure_rows_sound :
    (index : ℕ) (rows : List MaybeRow) (size s : ℕ)
    → size ≤ max_rowset_size
    → measure_rows index rows size ≡ ok s
    → (s ≡ size + rows_size rows) × All FitsRow rows × (s ≤ max_rowset_size)
unfolding measure_rows
measure_rows_sound index [] size s low h = (ground arith, tt, ground arith)
measure_rows_sound index (none ∷ rows) size s low h =
    let (size', added, h1) = >>=-eq-ok (add_to_rowset_size size alignment) _ h in
    let (e, below) = add_sound size alignment size' added in
    let (total, fits, bound) = measure_rows_sound (index + 1) rows size' s below h1 in
    (omega arith, (tt, fits), bound)
measure_rows_sound index (some row ∷ rows) size s low h =
    let (size', added, h1) = >>=-eq-ok (add_to_rowset_size size alignment) _ h in
    let (e, below) = add_sound size alignment size' added in
    let (u, few, h2) = >>=-eq-ok (guard (not (ltb max_values_per_row (length row))) _) _ h1 in
    let (size'', measured, h3) = >>=-eq-ok (measure_row row size') _ h2 in
    let (e', fits_row, below') = measure_row_sound row size' size'' below measured in
    let (total, fits, bound) = measure_rows_sound (index + 1) rows size'' s below' h3 in
    (omega arith, ((ground (arith, few), fits_row), fits), bound)

measure_rows_complete :
    (index : ℕ) (rows : List MaybeRow) (size : ℕ)
    → All FitsRow rows
    → size + rows_size rows ≤ max_rowset_size
    → measure_rows index rows size ≡ ok (size + rows_size rows)
unfolding measure_rows
measure_rows_complete index [] size fits h = ap ok (omega arith)
measure_rows_complete index (none ∷ rows) size fits h =
    rw
      (
        add_complete size alignment (omega arith),
        measure_rows_complete (index + 1) rows (size + alignment) fits.1 (omega arith),
      )
      (ap ok (omega arith))
measure_rows_complete index (some row ∷ rows) size fits h =
    let few : ltb max_values_per_row (length row) ≡ false = le→ltb _ _ fits.0.0 in
    rw
      (
        add_complete size alignment (omega arith),
        few,
        measure_row_complete row (size + alignment) fits.0.1 (omega arith),
        measure_rows_complete (index + 1) rows (size + alignment + row_size row) fits.1
            (omega arith),
      )
      (ap ok (omega arith))

-- A rowset passes exactly when it is within every limit, and what is answered is the size of its
-- encoding.
pub validate_and_measure_iff :
    (rows : List MaybeRow) (size : ℕ)
    → (validate_and_measure rows ≡ ok size) ↔ (IsWithinLimits rows × (size ≡ encoded_size rows))
unfolding validate_and_measure encoded_size
validate_and_measure_iff rows size = (sound, complete)
  where
    sound : validate_and_measure rows ≡ ok size → IsWithinLimits rows × (size ≡ encoded_size rows)
    sound h =
        let (u, few, measured) =
          >>=-eq-ok (guard (not (ltb max_rows_per_rowset (length rows))) _) _ h in
        let (e, fits, bound) = measure_rows_sound 0 rows alignment size (omega arith) measured in
        (record { row_count = ground (arith, few); rows_fit = fits; size_fits = omega arith }, e)

    complete :
        IsWithinLimits rows × (size ≡ encoded_size rows) → validate_and_measure rows ≡ ok size
    complete (h, e) =
        rw
          (le→ltb _ _ h.row_count, measure_rows_complete 0 rows alignment h.rows_fit h.size_fits, e)
