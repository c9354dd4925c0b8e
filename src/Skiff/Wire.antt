-- ===== src/Skiff/Wire.antt =====
-- crates/ytsaurus-skiff/src/wire.rs: values, errors, limits and the encoder. The writer is a
-- `Vec<u8>`, whose writes succeed; integers and floats are their little-endian bit patterns.
pub mod Cuts
pub mod Decode
pub mod Skip
pub mod Agree
pub mod Footprint
pub mod Rows
pub mod Shape
pub mod Returned
mod Runs
use Prim.Native.String.{String}
use ytsaurus_rs.Base.{
  ℕ, zero, suc, ◌+◌, ◌-◌, ◌^◌, List, [], ◌∷◌, ◌++◌, length, Option, none, some, Bool, true, false,
  ltb, leb, ◌==◌, if◌then◌else◌, le_bytes, Result, ok, err,
}
use ytsaurus_rs.Skiff.Schema.{Schema, WireType, Schemas, SchemaError, node, nil, cons, count}

-- `Box` and `Vec` of values make the lists of items and of values data types of their own.
mutual
  pub data Value : Type 0 where
    nothing : Value
    boolean : Bool → Value
    int8 int16 int32 int64 int128 : ℕ → Value
    int256 : List ℕ → Value
    uint8 uint16 uint32 uint64 double : ℕ → Value
    bytes yson : List ℕ → Value
    variant : ℕ → Value → Value
    repeated_variants : Items → Value
    tuple : Values → Value

  pub data Items : Type 0 where
    no_items : Items
    item : ℕ → Value → Items → Items

  pub data Values : Type 0 where
    no_values : Values
    value : Value → Values → Values

-- The errors of the operating system's readers and writers are left out; `out_of_fuel` has no
-- counterpart in the source.
pub data CodecError : Type 0 where
  invalid_schema : SchemaError → CodecError
  table_schema_must_be_tuple : WireType → CodecError
  truncated : String → CodecError
  row_too_large : ℕ → CodecError
  blob_too_large : WireType → ℕ → ℕ → CodecError
  value_does_not_match_schema : WireType → String → CodecError
  tuple_length : ℕ → ℕ → CodecError
  invalid_variant_tag : WireType → ℕ → ℕ → CodecError
  variant_tag_too_wide : WireType → ℕ → CodecError
  blob_length_overflows_u32 : WireType → ℕ → CodecError
  out_of_fuel : CodecError

abbrev pub kind : Value → String
kind Value.nothing = "nothing"
kind (Value.boolean _) = "boolean"
kind (Value.int8 _) = "int8"
kind (Value.int16 _) = "int16"
kind (Value.int32 _) = "int32"
kind (Value.int64 _) = "int64"
kind (Value.int128 _) = "int128"
kind (Value.int256 _) = "int256"
kind (Value.uint8 _) = "uint8"
kind (Value.uint16 _) = "uint16"
kind (Value.uint32 _) = "uint32"
kind (Value.uint64 _) = "uint64"
kind (Value.double _) = "double"
kind (Value.bytes _) = "string32"
kind (Value.yson _) = "yson32"
kind (Value.variant _ _) = "variant"
kind (Value.repeated_variants _) = "repeated variant"
kind (Value.tuple _) = "tuple"

-- What an encoding step answers, and the bytes that it has written by then.
abbrev pub Written : Type 0
Written = Result CodecError (Unit {0}) × List ℕ

abbrev pub write_all : List ℕ → Written
write_all bs = (ok tt, bs)

abbrev pub fail : CodecError → Written
fail e = (err e, [])

-- One step after the other; an error ends the row behind what is written.
infixl 5 ◌and_then◌
abbrev pub ◌and_then◌ : Written → Written → Written
(ok _, front) and_then (r, back) = (r, front ++ back)
(err e, front) and_then k = (err e, front)

abbrev pub byte : Bool → ℕ
byte true = 1
byte false = 0

pub check_blob_length : WireType → ℕ → ℕ → Result CodecError (Unit {0})
check_blob_length t size max_blob_bytes =
    if ltb max_blob_bytes size then err (blob_too_large t size max_blob_bytes) else ok tt

abbrev pub write_prefixed : WireType → List ℕ → Written
write_prefixed t bs =
    if leb (2 ^ 32) (length bs)
    then fail (blob_length_overflows_u32 t (length bs))
    else write_all (le_bytes 4 (length bs)) and_then write_all bs

unfoldable pub write_blob : WireType → List ℕ → ℕ → Written
unfolding check_blob_length
write_blob t bs max_blob_bytes = elim (check_blob_length t (length bs) max_blob_bytes) [
  | err e ↦ fail e
  | ok _ ↦ write_prefixed t bs
]

abbrev pub get_child : Schemas → ℕ → Option Schema
get_child nil tag = none
get_child (cons s ss) zero = some s
get_child (cons s ss) (suc tag) = get_child ss tag

-- Whether the tags of a variant are one byte wide.
abbrev pub is_narrow : WireType → Bool
is_narrow WireType.variant8 = true
is_narrow WireType.repeated_variant8 = true
is_narrow _ = false

unfoldable pub write_variant_tag : WireType → ℕ → Written
write_variant_tag t tag =
    if is_narrow t
    then if leb 256 tag then fail (variant_tag_too_wide t tag) else write_all (tag ∷ [])
    else write_all (le_bytes 2 tag)

abbrev pub write_repeated_variant_end : WireType → Written
write_repeated_variant_end t =
    if is_narrow t then write_all (255 ∷ []) else write_all (le_bytes 2 (2 ^ 16 - 1))

abbrev pub mismatch : WireType → Value → Written
mismatch t v = fail (value_does_not_match_schema t (kind v))

-- The arms for the leaves; a value that fits no arm does not match.
abbrev pub encode_leaf : ℕ → WireType → Value → Written
encode_leaf max WireType.nothing Value.nothing = write_all []
encode_leaf max WireType.boolean (Value.boolean b) = write_all (byte b ∷ [])
encode_leaf max WireType.int8 (Value.int8 w) = write_all (le_bytes 1 w)
encode_leaf max WireType.int16 (Value.int16 w) = write_all (le_bytes 2 w)
encode_leaf max WireType.int32 (Value.int32 w) = write_all (le_bytes 4 w)
encode_leaf max WireType.int64 (Value.int64 w) = write_all (le_bytes 8 w)
encode_leaf max WireType.int128 (Value.int128 w) = write_all (le_bytes 16 w)
encode_leaf max WireType.int256 (Value.int256 bs) = write_all bs
encode_leaf max WireType.uint8 (Value.uint8 w) = write_all (le_bytes 1 w)
encode_leaf max WireType.uint16 (Value.uint16 w) = write_all (le_bytes 2 w)
encode_leaf max WireType.uint32 (Value.uint32 w) = write_all (le_bytes 4 w)
encode_leaf max WireType.uint64 (Value.uint64 w) = write_all (le_bytes 8 w)
encode_leaf max WireType.double (Value.double w) = write_all (le_bytes 8 w)
encode_leaf max WireType.string32 (Value.bytes bs) = write_blob WireType.string32 bs max
encode_leaf max WireType.yson32 (Value.yson bs) = write_blob WireType.yson32 bs max
encode_leaf max t v = mismatch t v

abbrev pub is_variant : WireType → Bool
is_variant WireType.variant8 = true
is_variant WireType.variant16 = true
is_variant _ = false

abbrev pub is_repeated : WireType → Bool
is_repeated WireType.repeated_variant8 = true
is_repeated WireType.repeated_variant16 = true
is_repeated _ = false

abbrev pub is_tuple : WireType → Bool
is_tuple WireType.tuple = true
is_tuple _ = false

abbrev pub value_count : Values → ℕ
value_count no_values = 0
value_count (value v vs) = suc (value_count vs)

unfoldable mutual
  pub encode_value : ℕ → Schema → Value → Written
  encode_value max (node t name children) (Value.variant tag v) = elim (is_variant t) [
    | true ↦ elim (get_child children tag) [
      | none ↦ fail (invalid_variant_tag t tag (count children))
      | some child ↦ write_variant_tag t tag and_then encode_value max child v
    ]
    | false ↦ mismatch t (Value.variant tag v)
  ]
  encode_value max (node t name children) (Value.repeated_variants items) = elim (is_repeated t) [
    | true ↦ encode_items max t children items and_then write_repeated_variant_end t
    | false ↦ mismatch t (Value.repeated_variants items)
  ]
  encode_value max (node t name children) (Value.tuple vs) = elim (is_tuple t) [
    | true ↦ elim (value_count vs == count children) [
      | true ↦ encode_values max children vs
      | false ↦ fail (tuple_length (count children) (value_count vs))
    ]
    | false ↦ mismatch t (Value.tuple vs)
  ]
  encode_value max (node t name children) v = encode_leaf max t v

  pub encode_items : ℕ → WireType → Schemas → Items → Written
  encode_items max t children no_items = write_all []
  encode_items max t children (item tag v items) = elim (get_child children tag) [
    | none ↦ fail (invalid_variant_tag t tag (count children))
    | some child ↦
        write_variant_tag t tag
        and_then (encode_value max child v and_then encode_items max t children items)
  ]

  pub encode_values : ℕ → Schemas → Values → Written
  encode_values max nil vs = write_all []
  encode_values max (cons s ss) no_values = write_all []
  encode_values max (cons s ss) (value v vs) = encode_value max s v and_then encode_values max ss vs
