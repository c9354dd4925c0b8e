-- ===== src/Skiff/Wire/Skip.antt =====
-- crates/ytsaurus-skiff/src/wire.rs: `skip_value`, which builds no value.
use Prim.Native.String.{String}
use ytsaurus_rs.Base.{
  ℕ, zero, suc, List, [], ◌∷◌, length, Option, none, some, ltb, if◌then◌else◌, drop, ok, err,
}
use ytsaurus_rs.Skiff.Schema.{Schema, WireType, Schemas, node, nil, cons}
use ytsaurus_rs.Skiff.Wire.{truncated, out_of_fuel}
use ytsaurus_rs.Skiff.Wire.Decode.{
  M, pure, throw, ◌>>=◌, ◌>>◌, charge, read_word, check_blob, read_variant_tag,
  is_repeated_variant_end, select,
}

-- `io::copy` of at most `count` bytes, compared with `count`.
unfoldable pub skip_exact : ℕ → String → M (Unit {0})
skip_exact count context st =
    if ltb (length st.input) count
    then err (truncated context)
    else ok (tt, record st { input = drop count st.input })

abbrev pub fixed_width : WireType → Option (ℕ × String)
fixed_width WireType.boolean = some (1, "boolean")
fixed_width WireType.int8 = some (1, "int8")
fixed_width WireType.int16 = some (2, "int16")
fixed_width WireType.int32 = some (4, "int32")
fixed_width WireType.int64 = some (8, "int64")
fixed_width WireType.int128 = some (16, "int128")
fixed_width WireType.int256 = some (32, "int256")
fixed_width WireType.uint8 = some (1, "uint8")
fixed_width WireType.uint16 = some (2, "uint16")
fixed_width WireType.uint32 = some (4, "uint32")
fixed_width WireType.uint64 = some (8, "uint64")
fixed_width WireType.double = some (8, "double")
fixed_width _ = none

unfoldable pub skip_blob : WireType → M (Unit {0})
skip_blob t = do
  n ← read_word 4 "blob length"
  check_blob t n
  charge n
  skip_exact n "blob payload"

unfoldable pub skip_variant : WireType → List (M (Unit {0})) → M (Unit {0})
skip_variant t children = do tag ← read_variant_tag t; select t children tag

unfoldable pub skip_items : ℕ → WireType → List (M (Unit {0})) → M (Unit {0})
skip_items zero t children = throw out_of_fuel
skip_items (suc fuel) t children = do
  tag ← read_variant_tag t
  if is_repeated_variant_end t tag
      then pure tt
      else (do _ ← select t children tag; skip_items fuel t children)

unfoldable pub skip_repeated : WireType → List (M (Unit {0})) → M (Unit {0})
skip_repeated t children st = skip_items (suc (length st.input)) t children st

unfoldable pub skip_tuple : List (M (Unit {0})) → M (Unit {0})
skip_tuple [] = pure tt
skip_tuple (child ∷ children) = do child; skip_tuple children

-- The second match of `skip_value`; its last arm is unreachable there.
abbrev pub skip_node : WireType → List (M (Unit {0})) → M (Unit {0})
skip_node WireType.string32 ks = skip_blob WireType.string32
skip_node WireType.yson32 ks = skip_blob WireType.yson32
skip_node WireType.variant8 ks = skip_variant WireType.variant8 ks
skip_node WireType.variant16 ks = skip_variant WireType.variant16 ks
skip_node WireType.repeated_variant8 ks = skip_repeated WireType.repeated_variant8 ks
skip_node WireType.repeated_variant16 ks = skip_repeated WireType.repeated_variant16 ks
skip_node WireType.tuple ks = skip_tuple ks
skip_node _ ks = pure tt

abbrev pub skip_fixed_or : Option (ℕ × String) → M (Unit {0}) → M (Unit {0})
skip_fixed_or (some (width, context)) rest = skip_exact width context
skip_fixed_or none rest = rest

unfoldable mutual
  pub skip_value : ℕ → Schema → M (Unit {0})
  skip_value value_size (node t name children) = do
    charge value_size
    skip_fixed_or (fixed_width t) (skip_node t (skippers value_size children))

  pub skippers : ℕ → Schemas → List (M (Unit {0}))
  skippers value_size nil = []
  skippers value_size (cons s ss) = skip_value value_size s ∷ skippers value_size ss
