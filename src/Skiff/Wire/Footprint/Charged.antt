-- ===== src/Skiff/Wire/Footprint/Charged.antt =====
-- What decoding a value costs, and the fuel of its loop.
use Prim.Native.String.{String}
use ytsaurus_rs.Base.{
  ℕ, zero, suc, ◌+◌, ◌≤◌, ◌<◌, List, [], ◌∷◌, length, get_elem?, ◌≡◌, ◌≢◌, refl, arith, Result, ok,
  err, not, ◌==◌, All, Bool-cases, inl, inr,
}
use ytsaurus_rs.Skiff.Schema.{Schema, WireType, Schemas, node, nil, cons}
use ytsaurus_rs.Skiff.Wire.{Value, item, value, CodecError, invalid_variant_tag, out_of_fuel}
use ytsaurus_rs.Skiff.Wire.Decode.{
  Stream, M, pure, ◌>>=◌, charge, read_exact, read_word, read_blob, read_variant_tag,
  is_repeated_variant_end, select, or_throw, decode_variant, decode_items, decode_repeated,
  decode_tuple, decode_node, decode_value, decoders,
}
use ytsaurus_rs.Skiff.Wire.Footprint.{
  After, After-bind, After-map, Costs, Spends, charge-Costs, footprint, inner, inner_items,
  inner_values, read_blob-Costs, read_exact-Costs, read_variant_tag-Costs, read_word-Costs,
}

module _ (size : ℕ) where
  abbrev pub Good : M Value → Type 0
  Good = Costs (footprint size) 0

  or_throw-Costs :
      (e : CodecError) (ds : List (M Value)) (tag : ℕ)
      → e ≢ out_of_fuel
      → All Good ds
      → Good (or_throw e (get_elem? ds tag))
  or_throw-Costs e [] tag differs h st = differs
  or_throw-Costs e (d ∷ ds) zero differs h st = h.0 st
  or_throw-Costs e (d ∷ ds) (suc tag) differs h st = or_throw-Costs e ds tag differs h.1 st

  module _ (ds : List (M Value)) (good : All Good ds) where
    select-Costs : (t : WireType) (tag : ℕ) → Good (select t ds tag)
    unfolding select
    select-Costs t tag st =
        or_throw-Costs (invalid_variant_tag t tag (length ds)) ds tag (λ same. cc) good st

    decode_variant-Costs : (t : WireType) → Costs (inner size) 0 (decode_variant t ds)
    unfolding decode_variant inner footprint
    decode_variant-Costs t st =
        After-bind (Spends (λ tag. 0) 1 st) _ (read_variant_tag t st) _
          (read_variant_tag-Costs t st)
          (λ tag st1 h1.
            After-bind (Spends (footprint size) 0 st1) (Spends (inner size) 0 st)
              (select t ds tag st1) (λ v. pure (Value.variant tag v)) (select-Costs t tag st1)
              (λ v st2 h2. omega (arith, h1, h2)))

    decode_items-Costs :
        (fuel : ℕ) (t : WireType) (st : Stream)
        → length st.input < fuel
        → After (Spends (inner_items size) 0 st) (decode_items fuel t ds st)
    unfolding decode_items inner footprint
    decode_items-Costs zero t st h = absurd (omega arith)
    decode_items-Costs (suc fuel) t st h =
        let ih : (st' : Stream)
            → length st'.input < fuel
            → After (Spends (inner_items size) 0 st') (decode_items fuel t ds st') =
          decode_items-Costs fuel t in
        After-bind (Spends (λ tag. 0) 1 st) _ (read_variant_tag t st) _
          (read_variant_tag-Costs t st)
          (λ tag st1 h1. elim (Bool-cases (is_repeated_variant_end t tag)) [
            | inl ends ↦ rw ends (omega (arith, h1))
            | inr goes ↦ rw goes (
                After-bind (Spends (footprint size) 0 st1) _ (select t ds tag st1) _
                  (select-Costs t tag st1)
                  (λ v st2 h2.
                    After-bind (Spends (inner_items size) 0 st2) (Spends (inner_items size) 0 st)
                      (decode_items fuel t ds st2) (λ items. pure (item tag v items))
                      (ih st2 (omega (arith, h1, h2))) (λ items st3 h3. omega (arith, h1, h2, h3))))
          ])

    decode_repeated-Costs : (t : WireType) → Costs (inner size) 0 (decode_repeated t ds)
    unfolding decode_repeated inner footprint
    decode_repeated-Costs t st =
        After-bind (Spends (inner_items size) 0 st) (Spends (inner size) 0 st)
          (decode_items (suc (length st.input)) t ds st)
          (λ items. pure (Value.repeated_variants items))
          (decode_items-Costs (suc (length st.input)) t st (omega arith)) (λ items st' h. h)

  decode_tuple-Costs :
      (ds : List (M Value)) → All Good ds → Costs (inner_values size) 0 (decode_tuple ds)
  unfolding decode_tuple inner footprint
  decode_tuple-Costs [] h st = omega arith
  decode_tuple-Costs (d ∷ ds) h st =
      let ih : Costs (inner_values size) 0 (decode_tuple ds) = decode_tuple-Costs ds h.1 in
      After-bind (Spends (footprint size) 0 st) _ (d st) _ (h.0 st) (λ v st1 h1.
        After-bind (Spends (inner_values size) 0 st1) (Spends (inner_values size) 0 st)
          (decode_tuple ds st1) (λ vs. pure (value v vs)) (ih st1)
          (λ vs st2 h2. omega (arith, h1, h2)))

  word-Costs :
      (n : ℕ) (context : String) (build : ℕ → Value)
      → ((w : ℕ) → inner size (build w) ≡ 0)
      → Costs (inner size) 0 (read_word n context >>= λ w. pure (build w))
  word-Costs n context build none_below st =
      After-bind (Spends (λ w. 0) n st) (Spends (inner size) 0 st) (read_word n context st)
        (λ w. pure (build w)) (read_word-Costs n context st)
        (λ w st' h. omega (arith, h, none_below w))

  blob-Costs :
      (t : WireType) (build : List ℕ → Value)
      → ((bs : List ℕ) → inner size (build bs) ≡ length bs)
      → Costs (inner size) 0 (read_blob t >>= λ bs. pure (build bs))
  blob-Costs t build is_payload st =
      After-bind (Spends (λ bs. length bs) 4 st) (Spends (inner size) 0 st) (read_blob t st)
        (λ bs. pure (build bs)) (read_blob-Costs t st) (λ bs st' h. omega (arith, h, is_payload bs))

  decode_node-Costs :
      (t : WireType) (ds : List (M Value)) → All Good ds → Costs (inner size) 0 (decode_node t ds)
  unfolding inner
  decode_node-Costs WireType.nothing ds h st = omega arith
  decode_node-Costs WireType.boolean ds h st =
      word-Costs 1 "boolean" (λ b. Value.boolean (not (b == 0))) (λ w. refl) st
  decode_node-Costs WireType.int8 ds h st = word-Costs 1 "int8" Value.int8 (λ w. refl) st
  decode_node-Costs WireType.int16 ds h st = word-Costs 2 "int16" Value.int16 (λ w. refl) st
  decode_node-Costs WireType.int32 ds h st = word-Costs 4 "int32" Value.int32 (λ w. refl) st
  decode_node-Costs WireType.int64 ds h st = word-Costs 8 "int64" Value.int64 (λ w. refl) st
  decode_node-Costs WireType.int128 ds h st = word-Costs 16 "int128" Value.int128 (λ w. refl) st
  decode_node-Costs WireType.int256 ds h st =
      After-bind (λ bs st'. (length bs ≡ 32) × Spends (λ u. 0) 32 st bs st')
        (Spends (inner size) 0 st) (read_exact 32 "int256" st) (λ bs. pure (Value.int256 bs))
        (read_exact-Costs 32 "int256" st) (λ bs st' k. omega (arith, k))
  decode_node-Costs WireType.uint8 ds h st = word-Costs 1 "uint8" Value.uint8 (λ w. refl) st
  decode_node-Costs WireType.uint16 ds h st = word-Costs 2 "uint16" Value.uint16 (λ w. refl) st
  decode_node-Costs WireType.uint32 ds h st = word-Costs 4 "uint32" Value.uint32 (λ w. refl) st
  decode_node-Costs WireType.uint64 ds h st = word-Costs 8 "uint64" Value.uint64 (λ w. refl) st
  decode_node-Costs WireType.double ds h st = word-Costs 8 "double" Value.double (λ w. refl) st
  decode_node-Costs WireType.string32 ds h st =
      blob-Costs WireType.string32 Value.bytes (λ bs. refl) st
  decode_node-Costs WireType.yson32 ds h st = blob-Costs WireType.yson32 Value.yson (λ bs. refl) st
  decode_node-Costs WireType.variant8 ds h st = decode_variant-Costs ds h WireType.variant8 st
  decode_node-Costs WireType.variant16 ds h st = decode_variant-Costs ds h WireType.variant16 st
  decode_node-Costs WireType.repeated_variant8 ds h st =
      decode_repeated-Costs ds h WireType.repeated_variant8 st
  decode_node-Costs WireType.repeated_variant16 ds h st =
      decode_repeated-Costs ds h WireType.repeated_variant16 st
  decode_node-Costs WireType.tuple ds h st =
      After-bind (Spends (inner_values size) 0 st) (Spends (inner size) 0 st) (decode_tuple ds st)
        (λ vs. pure (Value.tuple vs)) (decode_tuple-Costs ds h st) (λ vs st' k. k)

  mutual
    unfolding decode_value footprint

    value-Costs : (s : Schema) → Good (decode_value size s)
    value-Costs (node t name children) st =
        let all_good : All Good (decoders size children) = decoders-Costs children in
        After-bind (Spends (λ u. size) 0 st) (Spends (footprint size) 0 st) (charge size st)
          (λ u. decode_node t (decoders size children)) (charge-Costs size st)
          (λ u st1 h1.
            After-map (Spends (inner size) 0 st1) (Spends (footprint size) 0 st)
              (decode_node t (decoders size children) st1) (λ v st2 h2. omega (arith, h1, h2))
              (decode_node-Costs t (decoders size children) all_good st1))

    decoders-Costs : (ss : Schemas) → All Good (decoders size ss)
    decoders-Costs nil = tt
    decoders-Costs (cons s ss) = (value-Costs s, decoders-Costs ss)

-- The fuel of the loop of repeated variants is always enough: a failure is one of the source's.
pub decode_value-out_of_fuel :
    (size : ℕ) (s : Schema) (st : Stream) → decode_value size s st ≢ err out_of_fuel
decode_value-out_of_fuel size s st h = go (decode_value size s st) h (value-Costs size s st)
  where
    go :
        (r : Result CodecError (Value × Stream))
        → r ≡ err out_of_fuel
        → After (Spends (footprint size) 0 st) r
        → ⊥
    go (ok p) same k = cc
    go (err e) same k = k cc

-- A value that is decoded has been paid for: its footprint, one `Value` for each node and the payload
-- of each blob, is what the budget has lost, and so never exceeds it; and no input is given back.
pub decode_value-footprint :
    (size : ℕ) (s : Schema) (st st' : Stream) (v : Value)
    → decode_value size s st ≡ ok (v, st')
    → (st'.remaining + footprint size v ≡ st.remaining) × (length st'.input ≤ length st.input)
decode_value-footprint size s st st' v h = go (rw h at (value-Costs size s st))
  where
    go :
        Spends (footprint size) 0 st v st'
        → (st'.remaining + footprint size v ≡ st.remaining) × (length st'.input ≤ length st.input)
    go k = omega (arith, k)
