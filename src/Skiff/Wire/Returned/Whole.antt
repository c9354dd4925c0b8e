-- ===== src/Skiff/Wire/Returned/Whole.antt =====
-- Whole values are read back.
use Prim.Native.String.{String}
use mathlib.Core.Path.{subst}
use ytsaurus_rs.Base.{
  ℕ, zero, suc, ◌+◌, ◌≤◌, List, [], ◌++◌, length, Option, none, true, ◌≡◌, refl, ap, arith, ok,
  length-append,
}
use ytsaurus_rs.Skiff.Schema.{
  Schema, Schemas, WireType, node, nil, cons, count, validate, validate_all, check_node,
}
use ytsaurus_rs.Skiff.Wire.{
  Value, Items, Values, no_items, item, no_values, value, Written, encode_value, encode_items,
  encode_values, is_variant, is_repeated, is_tuple, value_count, write_repeated_variant_end,
}
use ytsaurus_rs.Skiff.Wire.Decode.{
  M, pure, continue_with, ◌>>=◌, charge, decode_variant, decode_items, decode_repeated,
  decode_tuple, decode_node, decode_value, decoders,
}
use ytsaurus_rs.Skiff.Wire.Footprint.{footprint, inner, inner_items, inner_values}
use ytsaurus_rs.Skiff.Wire.Returned.{
  at, Returns, Returns-bind, Returns-map, and_then-eq-ok, charge-Returns,
}
use ytsaurus_rs.Skiff.Wire.Returned.Values.{InRange, InRangeItems, InRangeValues, leaf-Returns}
use ytsaurus_rs.Skiff.Wire.Returned.Children.{
  validate-parts, validate_all-parts, get_child-valid, get_child-lt, end-differs, variant-written,
  repeated-written, tuple-written,
}
use ytsaurus_rs.Skiff.Wire.Returned.Trees.{
  variant-Returns, end-Returns, item-Returns, tag-positive, item-parts,
}

module _ (max limit size : ℕ) where
  -- The charge for the node, and then its kind.
  node-Returns :
      (t : WireType) (name : Option String) (children : Schemas) (v : Value) (bs : List ℕ)
      → Returns max limit (decode_node t (decoders size children)) v bs (inner size v)
      → Returns max limit (decode_value size (node t name children)) v bs (footprint size v)
  unfolding decode_value footprint
  node-Returns t name children v bs h =
      Returns-bind max limit (charge size) (λ u. decode_node t (decoders size children)) tt v [] bs
        size (inner size v) (charge-Returns max limit size) h

  as_variant :
      (t : WireType) (ds : List (M Value)) (v : Value) (bs : List ℕ) (cost : ℕ)
      → is_variant t ≡ true
      → Returns max limit (decode_variant t ds) v bs cost
      → Returns max limit (decode_node t ds) v bs cost
  as_variant WireType.variant8 ds v bs cost e h = h
  as_variant WireType.variant16 ds v bs cost e h = h
  as_variant _ ds v bs cost e h = cc

  as_repeated :
      (t : WireType) (ds : List (M Value)) (v : Value) (bs : List ℕ) (cost : ℕ)
      → is_repeated t ≡ true
      → Returns max limit (decode_repeated t ds) v bs cost
      → Returns max limit (decode_node t ds) v bs cost
  as_repeated WireType.repeated_variant8 ds v bs cost e h = h
  as_repeated WireType.repeated_variant16 ds v bs cost e h = h
  as_repeated _ ds v bs cost e h = cc

  as_tuple :
      (t : WireType) (ds : List (M Value)) (vs : Values) (bs : List ℕ) (cost : ℕ)
      → is_tuple t ≡ true
      → Returns max limit (decode_tuple ds) vs bs cost
      → Returns max limit (decode_node t ds) (Value.tuple vs) bs cost
  as_tuple WireType.tuple ds vs bs cost e h =
      Returns-map max limit (decode_tuple ds) Value.tuple vs bs cost h
  as_tuple _ ds vs bs cost e h = cc

  -- The fuel of the loop exceeds the bytes that it reads.
  repeated-Returns :
      (t : WireType) (ds : List (M Value)) (items : Items) (bs : List ℕ) (cost : ℕ)
      → ((fuel : ℕ)
          → length bs ≤ fuel
          → Returns max limit (decode_items (suc fuel) t ds) items bs cost)
      → Returns max limit (decode_repeated t ds) (Value.repeated_variants items) bs cost
  unfolding decode_repeated
  repeated-Returns t ds items bs cost h rest left =
      ap (λ r. continue_with r (λ x. pure (Value.repeated_variants x)))
        (h (length (bs ++ rest)) (omega (arith, length-append bs rest)) rest left)

  mutual
    unfolding encode_value decode_value decode_tuple InRange inner footprint

    value-Returns :
        (s : Schema) (v : Value) (bs : List ℕ)
        → validate s ≡ ok tt
        → InRange v
        → encode_value max s v ≡ (ok tt, bs)
        → Returns max limit (decode_value size s) v bs (footprint size v)
    value-Returns (node t name children) (Value.variant tag v) bs valid (small, range) h =
        let (is_v, child, found, written) = variant-written max t name children tag v bs h in
        node-Returns t name children (Value.variant tag v) bs (
          as_variant t (decoders size children) (Value.variant tag v) bs _ is_v (
            variant-Returns max limit size t children tag child v bs small found written (λ back.
              value-Returns child v back
                (get_child-valid children tag child (validate-parts t name children valid).1 found)
                range)))
    value-Returns (node t name children) (Value.repeated_variants items) bs valid range h =
        let (is_r, written) = repeated-written max t name children items bs h in
        let (front, fin, first, last, same) =
          and_then-eq-ok (encode_items max t children items) (write_repeated_variant_end t) bs
            written in
        let (checked, all_valid) = validate-parts t name children valid in
        rw same (
          node-Returns t name children (Value.repeated_variants items) (front ++ fin) (
            as_repeated t (decoders size children) (Value.repeated_variants items) (front ++ fin)
              (inner_items size items) is_r
              (repeated-Returns t (decoders size children) items (front ++ fin)
                (inner_items size items)
                (λ fuel enough.
                  items-Returns t children items front fin fuel is_r checked all_valid range first
                    last (omega (arith, enough, length-append front fin))))))
    value-Returns (node t name children) (Value.tuple vs) bs valid range h =
        let (is_t, counted, written) = tuple-written max t name children vs bs h in
        node-Returns t name children (Value.tuple vs) bs (
          as_tuple t (decoders size children) vs bs (inner_values size vs) is_t (
            values-Returns children vs bs counted (validate-parts t name children valid).1 range
              written))
    value-Returns (node t name children) Value.nothing bs valid range h =
        node-Returns t name children Value.nothing bs
          (leaf-Returns max limit size t Value.nothing (decoders size children) bs range h)
    value-Returns (node t name children) v bs valid range h =
        node-Returns t name children v bs
          (leaf-Returns max limit size t v (decoders size children) bs range h)

    items-Returns :
        (t : WireType) (children : Schemas) (items : Items) (bs fin : List ℕ) (fuel : ℕ)
        → is_repeated t ≡ true
        → check_node t (count children) ≡ ok tt
        → validate_all children ≡ ok tt
        → InRangeItems items
        → encode_items max t children items ≡ (ok tt, bs)
        → write_repeated_variant_end t ≡ (ok tt, fin)
        → length bs ≤ fuel
        → Returns max limit
            (decode_items (suc fuel) t (decoders size children))
            items
            (bs ++ fin)
            (inner_items size items)
    items-Returns t children no_items bs fin fuel is_r checked valid range h last enough =
        let e : [] ≡ bs = ap (λ (w : Written). w.1) h in
        subst
          (λ o.
            Returns max limit (decode_items (suc fuel) t (decoders size children)) no_items
              (o ++ fin) 0)
          e (end-Returns max limit size t fuel (decoders size children) fin is_r last)
    items-Returns t children (item tag v items) bs fin zero is_r checked valid range h last enough =
        let (child, front, middle, back, found, first, second, third, same) =
          item-parts max limit size t none children tag v items bs h in
        absurd (
          omega (
            arith,
            enough,
            ap length same,
            length-append front (middle ++ back),
            tag-positive max limit size t tag front first,
          ))
    items-Returns t children (item tag v items) bs fin (suc fuel) is_r checked valid
          (small, range, ranges) h last enough =
        let (child, front, middle, back, found, first, second, third, same) =
          item-parts max limit size t none children tag v items bs h in
        let shorter : length back ≤ fuel = omega (
          arith,
          enough,
          ap length same,
          length-append front (middle ++ back),
          length-append middle back,
          tag-positive max limit size t tag front first,
        ) in
        rw same (
          item-Returns max limit size t children tag child v items (suc fuel) front middle back fin
            small
            (end-differs t (count children) tag is_r checked
              (get_child-lt children tag child found))
            found first
            (value-Returns child v middle (get_child-valid children tag child valid found) range
              second)
            (items-Returns t children items back fin fuel is_r checked valid ranges third last
              shorter))

    values-Returns :
        (ss : Schemas) (vs : Values) (bs : List ℕ)
        → value_count vs ≡ count ss
        → validate_all ss ≡ ok tt
        → InRangeValues vs
        → encode_values max ss vs ≡ (ok tt, bs)
        → Returns max limit (decode_tuple (decoders size ss)) vs bs (inner_values size vs)
    values-Returns nil no_values bs counted valid range h =
        let e : [] ≡ bs = ap (λ (w : Written). w.1) h in
        subst (λ o. Returns max limit (decode_tuple []) no_values o 0) e
          (λ rest left. let e' : 0 + left ≡ left = omega arith in rw e' refl)
    values-Returns nil (value v vs) bs counted valid range h = absurd (omega (arith, counted))
    values-Returns (cons s ss) no_values bs counted valid range h = absurd (omega (arith, counted))
    values-Returns (cons s ss) (value v vs) bs counted valid (range, ranges) h =
        let (front, back, first, later, same) =
          and_then-eq-ok (encode_value max s v) (encode_values max ss vs) bs h in
        let (valid_s, valid_ss) = validate_all-parts s ss valid in
        rw same (
          Returns-bind max limit (decode_value size s)
            (λ v'. decode_tuple (decoders size ss) >>= λ vs'. pure (value v' vs')) v (value v vs)
            front back (footprint size v) (inner_values size vs)
            (value-Returns s v front valid_s range first)
            (Returns-map max limit (decode_tuple (decoders size ss)) (value v) vs back
              (inner_values size vs)
              (values-Returns ss vs back (omega (arith, counted)) valid_ss ranges later)))

-- Whatever the encoder accepts by a checked schema is read back by it, up to the bytes behind it, where
-- the numbers of the value fit their types, the blob limit is the encoder's, and the budget covers the
-- footprint of the value, which is what it loses.
pub decode_value-encode_value :
    (max limit size : ℕ) (s : Schema) (v : Value) (bs rest : List ℕ) (left : ℕ)
    → validate s ≡ ok tt
    → InRange v
    → encode_value max s v ≡ (ok tt, bs)
    → decode_value size s (at max limit (bs ++ rest) (footprint size v + left))
      ≡ ok (v, at max limit rest left)
decode_value-encode_value max limit size s v bs rest left valid range h =
    value-Returns max limit size s v bs valid range h rest left
