-- ===== src/Skiff/Wire/Rows/Frames.antt =====
-- Skipping and decoding compared row by row.
use ytsaurus_rs.Base.{ℕ, List, [], ◌∷◌, Option, none, some, ◌≡◌, refl, Result, ok, err}
use ytsaurus_rs.Skiff.Schema.{Schema}
use ytsaurus_rs.Skiff.Wire.{Value, CodecError}
use ytsaurus_rs.Skiff.Wire.Decode.{Stream, pure, continue_with, decode_value}
use ytsaurus_rs.Skiff.Wire.Skip.{skip_value}
use ytsaurus_rs.Skiff.Wire.Agree.{forget, skip_value-decode_value}
use ytsaurus_rs.Skiff.Wire.Rows.{
  Decoder, read_table, finish_row, row_from, indexed, next_row, skip_row, new_budget,
}

-- A row with its value left out.
abbrev pub forget_value :
    Result CodecError (Option (ℕ × Value) × Decoder) → Result CodecError (Option ℕ × Decoder)
forget_value (ok (none, d)) = ok (none, d)
forget_value (ok (some (index, v), d)) = ok (some index, d)
forget_value (err e) = err e

finish_row-forget :
    (d : Decoder) (index : ℕ) (r : Result CodecError (Value × Stream))
    → finish_row d (continue_with (forget r) (λ u. pure index))
      ≡ forget_value (finish_row d (continue_with r (λ v. pure (index, v))))
finish_row-forget d index (ok (v, st)) = refl
finish_row-forget d index (err e) = refl

-- What follows the tag of the table.
row_body-forget :
    (value_size : ℕ) (d : Decoder) (t : Result CodecError ((ℕ × Schema) × Stream))
    → finish_row d (
        continue_with t (λ (index, schema).
          λ st. continue_with (skip_value value_size schema st) (λ u. pure index)))
      ≡ forget_value (
          finish_row d (
            continue_with t (λ (index, schema).
              λ st. continue_with (decode_value value_size schema st) (λ v. pure (index, v)))))
row_body-forget value_size d (err e) = refl
row_body-forget value_size d (ok ((index, schema), st)) =
    rw (skip_value-decode_value value_size schema st)
      (finish_row-forget d index (decode_value value_size schema st))

-- Skipping a row answers the table of the row that decoding answers, or the same end of the stream or
-- error, and leaves the decoder in the same state.
pub skip_row-next_row :
    (value_size : ℕ) (d : Decoder) → skip_row value_size d ≡ forget_value (next_row value_size d)
unfolding skip_row next_row
skip_row-next_row value_size d = go d.input
  where
    go :
        (input : List ℕ)
        → row_from d (skip_value value_size) (λ index u. index) input
          ≡ forget_value (row_from d (decode_value value_size) indexed input)
    go [] = refl
    go (first ∷ rest) = row_body-forget value_size d (read_table d.format first (new_budget d rest))
