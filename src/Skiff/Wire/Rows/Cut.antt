-- ===== src/Skiff/Wire/Rows/Cut.antt =====
-- The end of a stream within a row.
use Prim.Native.String.{String}
use mathlib.Core.Path.{subst}
use ytsaurus_rs.Base.{
  ℕ, zero, suc, ◌+◌, ◌<◌, List, [], ◌∷◌, ◌++◌, length, take, drop, Option, some, ◌≡◌, ◌≢◌, inl, inr,
  refl, ap, arith, Result, ok, err, from_le, length-append, length-drop, take-append-drop,
}
use ytsaurus_rs.Skiff.Schema.{Schema, SchemaError}
use ytsaurus_rs.Skiff.Format.{Format, table_schema}
use ytsaurus_rs.Skiff.Wire.{Value, CodecError, truncated, out_of_fuel}
use ytsaurus_rs.Skiff.Wire.Decode.{Stream, M, pure, read_exact, decode_value}
use ytsaurus_rs.Skiff.Wire.Footprint.{After, After-bind, read_exact-Costs}
use ytsaurus_rs.Skiff.Wire.Footprint.Charged.{decode_value-out_of_fuel}
use ytsaurus_rs.Skiff.Wire.Cuts.{
  widened, Same, IsLocal, bind-IsLocal, pure-IsLocal, read_exact-IsLocal, decode_value-IsLocal,
}
use ytsaurus_rs.Skiff.Wire.Rows.{
  Decoder, new_budget, as_codec, read_table, finish_row, row_body, row_from, indexed, next_row,
}

abbrev NeverFuel {ℓ} : {A : Type ℓ} → Result CodecError (A × Stream) → Type 0
NeverFuel = After (λ a st. Unit)

abbrev looked_up : ℕ → Result SchemaError Schema → M (ℕ × Schema)
looked_up index found st = elim (as_codec found) [
  | err e ↦ err e
  | ok schema ↦ ok ((index, schema), st)
]

looked_up-IsLocal :
    (index : ℕ) (found : Result SchemaError Schema) → IsLocal (looked_up index found)
looked_up-IsLocal index (ok schema) more st = refl
looked_up-IsLocal index (err e) more st = inr refl

looked_up-NeverFuel :
    (index : ℕ) (found : Result SchemaError Schema) (st : Stream)
    → NeverFuel (looked_up index found st)
looked_up-NeverFuel index (ok schema) st = tt
looked_up-NeverFuel index (err e) st = λ same. cc

read_table-IsLocal : (format : Format) (first : ℕ) → IsLocal (read_table format first)
unfolding read_table
read_table-IsLocal format first =
    bind-IsLocal (read_exact 1 "table Variant16 tag")
      (λ second.
        looked_up (from_le (first ∷ second)) (table_schema format (from_le (first ∷ second))))
      (read_exact-IsLocal 1 "table Variant16 tag")
      (λ second.
        looked_up-IsLocal (from_le (first ∷ second))
          (table_schema format (from_le (first ∷ second))))

read_table-NeverFuel :
    (format : Format) (first : ℕ) (st : Stream) → NeverFuel (read_table format first st)
unfolding read_table
read_table-NeverFuel format first st =
    After-bind _ (λ a st'. Unit) (read_exact 1 "table Variant16 tag" st)
      (λ second.
        looked_up (from_le (first ∷ second)) (table_schema format (from_le (first ∷ second))))
      (read_exact-Costs 1 "table Variant16 tag" st)
      (λ second st1 h.
        looked_up-NeverFuel (from_le (first ∷ second))
          (table_schema format (from_le (first ∷ second))) st1)

value-NeverFuel :
    (size : ℕ) (schema : Schema) (st : Stream) → NeverFuel (decode_value size schema st)
value-NeverFuel size schema st =
    go (decode_value size schema st) (decode_value-out_of_fuel size schema st)
  where
    go : (r : Result CodecError (Value × Stream)) → r ≢ err out_of_fuel → NeverFuel r
    go (ok (v, st')) h = tt
    go (err e) h = λ same. h (ap err same)

module _ (size : ℕ) (d : Decoder) (first : ℕ) where
  abbrev body : M (ℕ × Value)
  body = row_body d (decode_value size) indexed first

  body-IsLocal : IsLocal body
  body-IsLocal =
      bind-IsLocal (read_table d.format first) _ (read_table-IsLocal d.format first)
        (λ (index, schema).
          bind-IsLocal (decode_value size schema) _ (decode_value-IsLocal size schema)
            (λ v. pure-IsLocal (index, v)))

  body-NeverFuel : (st : Stream) → NeverFuel (body st)
  body-NeverFuel st =
      After-bind (λ a st'. Unit) (λ a st'. Unit) (read_table d.format first st) _
        (read_table-NeverFuel d.format first st)
        (λ (index, schema). λ st1 u.
          After-bind (λ a st'. Unit) (λ a st'. Unit) (decode_value size schema st1)
            (λ v. pure (index, v)) (value-NeverFuel size schema st1) (λ v st2 u'. tt))

  -- The answers on the cut stream, `r`, and on the whole one.
  cut_body :
      (cut : Decoder) (d' : Decoder) (row : ℕ × Value) (more : List ℕ)
      (r whole : Result CodecError ((ℕ × Value) × Stream))
      → Same more r whole
      → NeverFuel r
      → finish_row d whole ≡ ok (some row, d')
      → length d'.input < length more
      → (context : String) × (finish_row cut r ≡ err (truncated context))
  cut_body cut d' row more (ok (a, st')) whole same never h left =
      let answers : ◌≡◌ {A = Result CodecError (Option (ℕ × Value) × Decoder)}
          (ok (some a, record d { input = st'.input ++ more })) (ok (some row, d')) =
        rw same at h in
      let behind : d' ≡ record d { input = st'.input ++ more } = cc in
      let counted : length d'.input ≡ length (st'.input ++ more) =
        ap (λ x. length x.input) behind in
      absurd (omega (arith, counted, left, length-append st'.input more))
  cut_body cut d' row more (err (truncated context)) whole same never h left = (context, refl)
  cut_body cut d' row more (err out_of_fuel) whole same never h left = absurd (never refl)
  cut_body cut d' row more (err e) whole (inr same) never h left =
      let answers : ◌≡◌ {A = Result CodecError (Option (ℕ × Value) × Decoder)} (err e)
          (ok (some row, d')) =
        rw same at h in
      cc
  cut_body cut d' row more (err e) whole (inl short) never h left = absurd short

-- Where the decoder answers a row, a stream that ends within that row, behind its first byte at least,
-- is neither the end nor a shorter row: the answer is that it is truncated.
pub next_row_cut :
    (size : ℕ) (d d' : Decoder) (row : ℕ × Value) (n : ℕ)
    → next_row size d ≡ ok (some row, d')
    → 0 < n
    → n + length d'.input < length d.input
    → (context : String) × (next_row size (record d { input = take n d.input })
        ≡ err (truncated context))
unfolding next_row
next_row_cut size d d' row n h some_ left = go d.input n h some_ left
  where
    go :
        (input : List ℕ) (n : ℕ)
        → row_from d (decode_value size) indexed input ≡ ok (some row, d')
        → 0 < n
        → n + length d'.input < length input
        → (context : String) × (row_from
              (record d { input = take n d.input })
              (decode_value size)
              indexed
              (take n input)
            ≡ err (truncated context))
    go [] n h some_ left = absurd (omega arith)
    go (first ∷ rest) zero h some_ left = absurd (omega arith)
    go (first ∷ rest) (suc n) h some_ left =
        let joined : widened (drop n rest) (new_budget d (take n rest)) ≡ new_budget d rest =
          ap (new_budget d) (take-append-drop n rest) in
        cut_body size d first (record d { input = take (suc n) d.input }) d' row (drop n rest)
          (body size d first (new_budget d (take n rest))) (body size d first (new_budget d rest))
          (subst
            (λ st.
              Same (drop n rest) (body size d first (new_budget d (take n rest)))
                (body size d first st))
            joined (body-IsLocal size d first (drop n rest) (new_budget d (take n rest))))
          (body-NeverFuel size d first (new_budget d (take n rest))) h
          (omega (arith, left, length-drop n rest))
