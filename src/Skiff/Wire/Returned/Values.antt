-- ===== src/Skiff/Wire/Returned/Values.antt =====
-- Values that are written by a schema, and read back by it.
use Prim.Native.String.{String}
use mathlib.Core.Path.{subst}
use ytsaurus_rs.Base.{
  ℕ, ◌+◌, ◌^◌, ◌%◌, ◌<◌, List, [], ◌∷◌, length, true, false, not, ◌==◌, ◌≡◌, refl, sym, ap, ◌∙◌,
  arith, ok, le_bytes,
}
use ytsaurus_rs.Skiff.Schema.{WireType}
use ytsaurus_rs.Skiff.Wire.{
  Value, Items, Values, no_items, item, no_values, value, Written, write_all, write_blob,
  encode_leaf,
}
use ytsaurus_rs.Skiff.Wire.Decode.{M, pure, ◌>>=◌, read_exact, read_word, read_blob, decode_node}
use ytsaurus_rs.Skiff.Wire.Footprint.{inner}
use ytsaurus_rs.Skiff.Wire.Returned.{
  Returns, Returns-map, read_exact-Returns, read_word-Returns, read_blob-Returns,
}

-- The numbers of a value fit the types of the source.
unfoldable mutual
  pub InRange : Value → Type 0
  InRange (Value.int8 w) = w < 2 ^ 8
  InRange (Value.int16 w) = w < 2 ^ 16
  InRange (Value.int32 w) = w < 2 ^ 32
  InRange (Value.int64 w) = w < 2 ^ 64
  InRange (Value.int128 w) = w < 2 ^ 128
  InRange (Value.int256 bs) = length bs ≡ 32
  InRange (Value.uint8 w) = w < 2 ^ 8
  InRange (Value.uint16 w) = w < 2 ^ 16
  InRange (Value.uint32 w) = w < 2 ^ 32
  InRange (Value.uint64 w) = w < 2 ^ 64
  InRange (Value.double w) = w < 2 ^ 64
  InRange (Value.variant tag v) = (tag < 2 ^ 16) × InRange v
  InRange (Value.repeated_variants items) = InRangeItems items
  InRange (Value.tuple vs) = InRangeValues vs
  InRange v = Unit

  pub InRangeItems : Items → Type 0
  InRangeItems no_items = Unit
  InRangeItems (item tag v items) = (tag < 2 ^ 16) × InRange v × InRangeItems items

  pub InRangeValues : Values → Type 0
  InRangeValues no_values = Unit
  InRangeValues (value v vs) = InRange v × InRangeValues vs

module _ (max limit size : ℕ) where
  word-Returns :
      (n : ℕ) (context : String) (build : ℕ → Value) (w : ℕ) (bs : List ℕ)
      → w < 256 ^ n
      → write_all (le_bytes n w) ≡ (ok tt, bs)
      → Returns max limit (read_word n context >>= λ x. pure (build x)) (build w) bs 0
  word-Returns n context build w bs range h =
      subst (λ o. Returns max limit (read_word n context >>= λ x. pure (build x)) (build w) o 0)
        (ap (λ (r : Written). r.1) h)
        (Returns-map max limit (read_word n context) build w (le_bytes n w) 0
          (read_word-Returns max limit n context w range))

  boolean-Returns :
      (b : ℕ) (bs : List ℕ)
      → b < 256
      → write_all (b ∷ []) ≡ (ok tt, bs)
      → Returns max limit
          (read_word 1 "boolean" >>= λ x. pure (Value.boolean (not (x == 0))))
          (Value.boolean (not (b == 0)))
          bs
          0
  boolean-Returns b bs small h =
      let e : b % 256 ≡ b = omega arith in
      word-Returns 1 "boolean" (λ x. Value.boolean (not (x == 0))) b bs small
        (ap (λ x. write_all (x ∷ [])) e ∙ h)

  blob-Returns :
      (t : WireType) (build : List ℕ → Value) (payload bs : List ℕ)
      → write_blob t payload max ≡ (ok tt, bs)
      → Returns max limit (read_blob t >>= λ x. pure (build x)) (build payload) bs (length payload)
  blob-Returns t build payload bs h =
      Returns-map max limit (read_blob t) build payload bs (length payload)
        (read_blob-Returns max limit t payload bs h)

  pub leaf-Returns :
      (t : WireType) (v : Value) (ds : List (M Value)) (bs : List ℕ)
      → InRange v
      → encode_leaf max t v ≡ (ok tt, bs)
      → Returns max limit (decode_node t ds) v bs (inner size v)
  unfolding InRange inner
  leaf-Returns WireType.nothing Value.nothing ds bs range h =
      let e : bs ≡ [] = ap (λ (r : Written). r.1) (sym h) in
      rw e (λ rest left. let e' : 0 + left ≡ left = omega arith in rw e' refl)
  leaf-Returns WireType.boolean (Value.boolean true) ds bs range h =
      boolean-Returns 1 bs (omega arith) h
  leaf-Returns WireType.boolean (Value.boolean false) ds bs range h =
      boolean-Returns 0 bs (omega arith) h
  leaf-Returns WireType.int8 (Value.int8 w) ds bs range h =
      word-Returns 1 "int8" Value.int8 w bs range h
  leaf-Returns WireType.int16 (Value.int16 w) ds bs range h =
      word-Returns 2 "int16" Value.int16 w bs range h
  leaf-Returns WireType.int32 (Value.int32 w) ds bs range h =
      word-Returns 4 "int32" Value.int32 w bs range h
  leaf-Returns WireType.int64 (Value.int64 w) ds bs range h =
      word-Returns 8 "int64" Value.int64 w bs range h
  leaf-Returns WireType.int128 (Value.int128 w) ds bs range h =
      word-Returns 16 "int128" Value.int128 w bs range h
  leaf-Returns WireType.uint8 (Value.uint8 w) ds bs range h =
      word-Returns 1 "uint8" Value.uint8 w bs range h
  leaf-Returns WireType.uint16 (Value.uint16 w) ds bs range h =
      word-Returns 2 "uint16" Value.uint16 w bs range h
  leaf-Returns WireType.uint32 (Value.uint32 w) ds bs range h =
      word-Returns 4 "uint32" Value.uint32 w bs range h
  leaf-Returns WireType.uint64 (Value.uint64 w) ds bs range h =
      word-Returns 8 "uint64" Value.uint64 w bs range h
  leaf-Returns WireType.double (Value.double w) ds bs range h =
      word-Returns 8 "double" Value.double w bs range h
  leaf-Returns WireType.int256 (Value.int256 payload) ds bs range h =
      subst (λ o. Returns max limit (decode_node WireType.int256 ds) (Value.int256 payload) o 0)
        (ap (λ (r : Written). r.1) h)
        (Returns-map max limit (read_exact 32 "int256") Value.int256 payload payload 0
          (read_exact-Returns max limit 32 "int256" payload (sym range)))
  leaf-Returns WireType.string32 (Value.bytes payload) ds bs range h =
      blob-Returns WireType.string32 Value.bytes payload bs h
  leaf-Returns WireType.yson32 (Value.yson payload) ds bs range h =
      blob-Returns WireType.yson32 Value.yson payload bs h
  leaf-Returns _ _ ds bs range h = let e = ap (λ (r : Written). r.0) h in cc
