-- ===== src/Rpc/Wire/Runs.antt =====
-- Concrete rowsets, and the theorems at them.
use ytsaurus_rs.Base.{
  ◌%◌, ◌≤◌, List, [], ◌∷◌, ◌++◌, length, none, some, true, false, ◌≡◌, ◌↔◌, refl, arith, ok, err,
  All, ◌>>=◌,
}
use ytsaurus_rs.Rpc.Wire.{
  encode_rows, Value, UnversionedValue, MaybeRow, truncated, trailing_bytes, max_rows_per_rowset,
  encoded_size, encode_rowset, encode_rowset_unchecked, validate_and_measure,
}
use ytsaurus_rs.Rpc.Wire.Reader.{read_u64, read_rows, read_row, need, decode_rowset}
use ytsaurus_rs.Rpc.Wire.Limits.{IsWithinLimits, FitsRow, validate_and_measure_iff}
use ytsaurus_rs.Rpc.Wire.RoundTrip.{decode_rowset-encode_rowset}
use ytsaurus_rs.Rpc.Wire.Sizes.{length-encode_rowset_unchecked}
use ytsaurus_rs.Rpc.Wire.Sound.{decode_rowset_limits}

-- A row of two values, a null row and an empty row.
abbrev sample : List MaybeRow
sample = some (first ∷ second ∷ []) ∷ none ∷ some [] ∷ []
  where
    first : UnversionedValue
    first = record { id = 1; aggregate = true; value = Value.string (97 ∷ 98 ∷ 99 ∷ []) }

    second : UnversionedValue
    second = record { id = 2; aggregate = false; value = Value.boolean true }

sample_limits : IsWithinLimits sample
unfolding encoded_size
sample_limits = omega arith

decode_empty : decode_rowset [] ≡ err (truncated 0 8)
unfolding decode_rowset read_u64 need
decode_empty = refl

decode_trailing : decode_rowset (encode_rowset_unchecked [] ++ (1 ∷ [])) ≡ err (trailing_bytes 1)
unfolding decode_rowset encode_rowset_unchecked read_u64 need encode_rows read_rows
decode_trailing = refl

decode_rowset-encode_rowset_example :
    (encode_rowset (λ size. true) sample >>= decode_rowset) ≡ ok sample
decode_rowset-encode_rowset_example =
    decode_rowset-encode_rowset (λ size. true) sample (omega arith) sample_limits refl

validate_and_measure_iff_example :
    (validate_and_measure sample ≡ ok 64) ↔ (IsWithinLimits sample × (64 ≡ encoded_size sample))
validate_and_measure_iff_example = validate_and_measure_iff sample 64

length-encode_rowset_unchecked_example :
    (length (encode_rowset_unchecked sample) ≡ encoded_size sample) × (encoded_size sample % 8 ≡ 0)
length-encode_rowset_unchecked_example = length-encode_rowset_unchecked sample

decode_rowset_limits_example : (1 ≤ max_rows_per_rowset) × All FitsRow (none ∷ [])
unfolding read_u64 need encode_rows read_rows read_row
decode_rowset_limits_example =
    decode_rowset_limits (encode_rowset_unchecked (none ∷ [])) (none ∷ [])
      (unfold decode_rowset encode_rowset_unchecked in refl)
