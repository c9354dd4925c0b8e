-- ===== src/Skiff/Wire/Decode.antt =====
-- crates/ytsaurus-skiff/src/wire.rs: the decoder of one value. The reader is a byte slice, so a read
-- fails only at its end; where the stream stands after an error is not modelled.
use Prim.Native.String.{String}
use ytsaurus_rs.Base.{
  ℕ, zero, suc, ◌-◌, ◌^◌, List, [], ◌∷◌, length, take, drop, get_elem?, Option, none, some, Bool,
  not, ltb, ◌==◌, if◌then◌else◌, from_le, Result, ok, err,
}
use ytsaurus_rs.Skiff.Schema.{Schema, WireType, Schemas, node, nil, cons}
use ytsaurus_rs.Skiff.Wire.{
  Value, Items, Values, no_items, item, no_values, value, CodecError, truncated, row_too_large,
  invalid_variant_tag, out_of_fuel, check_blob_length, is_narrow,
}

-- The bytes that are left, and the `RowBudget` of the row.
pub record Stream : Type 0 where
  pub input : List ℕ
  pub max_blob_bytes : ℕ
  pub limit : ℕ
  pub remaining : ℕ

-- A step that reads, charges and may fail.
abbrev pub M {ℓ} : Type ℓ → Type ℓ
M A = Stream → Result CodecError (A × Stream)

abbrev pub pure {ℓ} : {A : Type ℓ} → A → M A
pure a st = ok (a, st)

abbrev pub throw {ℓ} : {A : Type ℓ} → CodecError → M A
throw e st = err e

abbrev pub continue_with {ℓ κ} :
    {A : Type ℓ} {B : Type κ}
    → Result CodecError (A × Stream)
    → (A → M B)
    → Result CodecError (B × Stream)
continue_with (ok (a, st)) f = f a st
continue_with (err e) f = err e

module _ {ℓ κ} {A : Type ℓ} {B : Type κ} where
  infixl 5 ◌>>=◌ ◌>>◌
  abbrev pub ◌>>=◌ : M A → (A → M B) → M B
  ◌>>=◌ m f st = continue_with (m st) f

  abbrev pub ◌>>◌ : M A → M B → M B
  ◌>>◌ m k = m >>= λ _. k

-- `RowBudget::charge`, by `checked_sub`.
unfoldable pub charge : ℕ → M (Unit {0})
charge amount st =
    if ltb st.remaining amount
    then err (row_too_large st.limit)
    else ok (tt, record st { remaining = st.remaining - amount })

unfoldable pub read_exact : ℕ → String → M (List ℕ)
read_exact n context st =
    if ltb (length st.input) n
    then err (truncated context)
    else ok (take n st.input, record st { input = drop n st.input })

-- `read_byte` and `read_array`, as the number that the bytes stand for.
unfoldable pub read_word : ℕ → String → M ℕ
read_word n context = do bs ← read_exact n context; pure (from_le bs)

abbrev pub lift_check : Result CodecError (Unit {0}) → M (Unit {0})
lift_check (ok u) st = ok (u, st)
lift_check (err e) st = err e

abbrev pub check_blob : WireType → ℕ → M (Unit {0})
check_blob t n st = lift_check (check_blob_length t n st.max_blob_bytes) st

unfoldable pub read_blob : WireType → M (List ℕ)
read_blob t = do
  n ← read_word 4 "blob length"
  check_blob t n
  charge n
  read_exact n "blob payload"

unfoldable pub read_variant_tag : WireType → M ℕ
read_variant_tag t = if is_narrow t then read_word 1 "variant8 tag" else read_word 2 "variant16 tag"

abbrev pub is_repeated_variant_end : WireType → ℕ → Bool
is_repeated_variant_end t tag = if is_narrow t then tag == 255 else tag == 2 ^ 16 - 1

-- `variant_child`, over the decoders of the children.
abbrev pub or_throw {ℓ} : {A : Type ℓ} → CodecError → Option (M A) → M A
or_throw e none = throw e
or_throw e (some child) = child

unfoldable pub select {ℓ} : {A : Type ℓ} → WireType → List (M A) → ℕ → M A
select t children tag =
    or_throw (invalid_variant_tag t tag (length children)) (get_elem? children tag)

unfoldable pub decode_variant : WireType → List (M Value) → M Value
decode_variant t children = do
  tag ← read_variant_tag t
  v ← select t children tag
  pure (Value.variant tag v)

-- The loop of the repeated variants. Each round takes a byte at least.
unfoldable pub decode_items : ℕ → WireType → List (M Value) → M Items
decode_items zero t children = throw out_of_fuel
decode_items (suc fuel) t children = do
  tag ← read_variant_tag t
  if is_repeated_variant_end t tag then pure no_items else (do
    v ← select t children tag
    items ← decode_items fuel t children
    pure (item tag v items))

unfoldable pub decode_repeated : WireType → List (M Value) → M Value
decode_repeated t children st =
    continue_with (decode_items (suc (length st.input)) t children st)
      (λ items. pure (Value.repeated_variants items))

unfoldable pub decode_tuple : List (M Value) → M Values
decode_tuple [] = pure no_values
decode_tuple (child ∷ children) = do v ← child; vs ← decode_tuple children; pure (value v vs)

-- The match of `decode_value` on the wire type, over the decoders of the children.
abbrev pub decode_node : WireType → List (M Value) → M Value
decode_node WireType.nothing ds = pure Value.nothing
decode_node WireType.boolean ds = do b ← read_word 1 "boolean"; pure (Value.boolean (not (b == 0)))
decode_node WireType.int8 ds = do pure (Value.int8 (← read_word 1 "int8"))
decode_node WireType.int16 ds = do pure (Value.int16 (← read_word 2 "int16"))
decode_node WireType.int32 ds = do pure (Value.int32 (← read_word 4 "int32"))
decode_node WireType.int64 ds = do pure (Value.int64 (← read_word 8 "int64"))
decode_node WireType.int128 ds = do pure (Value.int128 (← read_word 16 "int128"))
decode_node WireType.int256 ds = do pure (Value.int256 (← read_exact 32 "int256"))
decode_node WireType.uint8 ds = do pure (Value.uint8 (← read_word 1 "uint8"))
decode_node WireType.uint16 ds = do pure (Value.uint16 (← read_word 2 "uint16"))
decode_node WireType.uint32 ds = do pure (Value.uint32 (← read_word 4 "uint32"))
decode_node WireType.uint64 ds = do pure (Value.uint64 (← read_word 8 "uint64"))
decode_node WireType.double ds = do pure (Value.double (← read_word 8 "double"))
decode_node WireType.string32 ds = do pure (Value.bytes (← read_blob WireType.string32))
decode_node WireType.yson32 ds = do pure (Value.yson (← read_blob WireType.yson32))
decode_node WireType.variant8 ds = decode_variant WireType.variant8 ds
decode_node WireType.variant16 ds = decode_variant WireType.variant16 ds
decode_node WireType.repeated_variant8 ds = decode_repeated WireType.repeated_variant8 ds
decode_node WireType.repeated_variant16 ds = decode_repeated WireType.repeated_variant16 ds
decode_node WireType.tuple ds = do pure (Value.tuple (← decode_tuple ds))

-- `value_size` is `size_of::<Value>()`, which the compiler decides.
unfoldable mutual
  pub decode_value : ℕ → Schema → M Value
  decode_value value_size (node t name children) = do
    charge value_size
    decode_node t (decoders value_size children)

  pub decoders : ℕ → Schemas → List (M Value)
  decoders value_size nil = []
  decoders value_size (cons s ss) = decode_value value_size s ∷ decoders value_size ss
