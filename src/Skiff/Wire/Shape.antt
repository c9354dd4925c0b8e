-- ===== src/Skiff/Wire/Shape.antt =====
-- The values that have the shape of a schema.
pub mod Decoded
use Prim.Native.String.{String}
use ytsaurus_rs.Base.{
  ℕ, zero, suc, List, [], ◌∷◌, length, get_elem?, Option, none, some, Bool, true, false, not, ◌==◌,
  if◌then◌else◌, ◌≡◌, refl, Result, ok, err,
}
use ytsaurus_rs.Skiff.Schema.{Schema, WireType, Schemas, node, nil, cons}
use ytsaurus_rs.Skiff.Wire.{
  Value, Items, Values, no_items, item, no_values, value, CodecError, invalid_variant_tag,
  is_variant, is_repeated, is_tuple, get_child,
}
use ytsaurus_rs.Skiff.Wire.Decode.{
  Stream, M, pure, continue_with, ◌>>=◌, ◌>>◌, charge, read_exact, read_word, read_blob,
  read_variant_tag, is_repeated_variant_end, select, or_throw, decode_variant, decode_items,
  decode_repeated, decode_tuple, decode_node, decode_value, decoders,
}

-- The leaves, by their wire type.
abbrev pub HasLeaf : WireType → Value → Type 0
HasLeaf WireType.nothing Value.nothing = Unit
HasLeaf WireType.boolean (Value.boolean b) = Unit
HasLeaf WireType.int8 (Value.int8 w) = Unit
HasLeaf WireType.int16 (Value.int16 w) = Unit
HasLeaf WireType.int32 (Value.int32 w) = Unit
HasLeaf WireType.int64 (Value.int64 w) = Unit
HasLeaf WireType.int128 (Value.int128 w) = Unit
HasLeaf WireType.int256 (Value.int256 bs) = Unit
HasLeaf WireType.uint8 (Value.uint8 w) = Unit
HasLeaf WireType.uint16 (Value.uint16 w) = Unit
HasLeaf WireType.uint32 (Value.uint32 w) = Unit
HasLeaf WireType.uint64 (Value.uint64 w) = Unit
HasLeaf WireType.double (Value.double w) = Unit
HasLeaf WireType.string32 (Value.bytes bs) = Unit
HasLeaf WireType.yson32 (Value.yson bs) = Unit
HasLeaf t v = ⊥

abbrev pub AtChild : Option Schema → (Schema → Type 0) → Type 0
AtChild none P = ⊥
AtChild (some child) P = P child

-- A variant carries a value of the child that its tag names, a tuple one value for each child.
unfoldable mutual
  pub HasShape : Schema → Value → Type 0
  HasShape (node t name children) (Value.variant tag v) =
      (is_variant t ≡ true) × AtChild (get_child children tag) (λ child. HasShape child v)
  HasShape (node t name children) (Value.repeated_variants items) =
      (is_repeated t ≡ true) × HasItems children items
  HasShape (node t name children) (Value.tuple vs) = (is_tuple t ≡ true) × HasShapes children vs
  HasShape (node t name children) v = HasLeaf t v

  pub HasItems : Schemas → Items → Type 0
  HasItems children no_items = Unit
  HasItems children (item tag v items) =
      AtChild (get_child children tag) (λ child. HasShape child v) × HasItems children items

  pub HasShapes : Schemas → Values → Type 0
  HasShapes nil no_values = Unit
  HasShapes nil (value v vs) = ⊥
  HasShapes (cons s ss) no_values = ⊥
  HasShapes (cons s ss) (value v vs) = HasShape s v × HasShapes ss vs
