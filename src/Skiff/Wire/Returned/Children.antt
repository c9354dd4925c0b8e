-- ===== src/Skiff/Wire/Returned/Children.antt =====
-- The children of a checked schema, their decoders, and what an encoding that succeeds says of them.
use Prim.Native.String.{String}
use ytsaurus_rs.Base.{
  ℕ, zero, suc, ◌<◌, List, ◌++◌, ◌+◌, length, get_elem?, Option, none, some, Bool, true, false,
  ◌==◌, ◌≡◌, refl, ap, ◌∙◌, arith, ok, >>=-eq-ok,
}
use ytsaurus_rs.Skiff.Schema.{
  Schema, Schemas, WireType, node, nil, cons, count, validate, validate_all, check_node,
}
use ytsaurus_rs.Skiff.Wire.{
  Value, Items, Values, item, Written, ◌and_then◌, fail, mismatch, encode_value, encode_items,
  encode_values, get_child, is_variant, is_repeated, is_tuple, value_count, write_variant_tag,
  write_repeated_variant_end, invalid_variant_tag, tuple_length,
}
use ytsaurus_rs.Skiff.Wire.Decode.{
  is_repeated_variant_end, select, or_throw, decode_value, decoders,
}
use ytsaurus_rs.Skiff.Wire.Returned.{at, Returns}

pub validate-parts :
    (t : WireType) (name : Option String) (children : Schemas)
    → validate (node t name children) ≡ ok tt
    → (check_node t (count children) ≡ ok tt) × (validate_all children ≡ ok tt)
unfolding validate
validate-parts t name children h =
    let (u, first, rest) =
      >>=-eq-ok (check_node t (count children)) (λ u. validate_all children) h in
    (first, rest)

pub validate_all-parts :
    (s : Schema) (ss : Schemas)
    → validate_all (cons s ss) ≡ ok tt
    → (validate s ≡ ok tt) × (validate_all ss ≡ ok tt)
unfolding validate_all
validate_all-parts s ss h =
    let (u, first, rest) = >>=-eq-ok (validate s) (λ u. validate_all ss) h in (first, rest)

pub get_child-valid :
    (ss : Schemas) (tag : ℕ) (child : Schema)
    → validate_all ss ≡ ok tt
    → get_child ss tag ≡ some child
    → validate child ≡ ok tt
get_child-valid nil tag child h found = cc
get_child-valid (cons s ss) zero child h found =
    let e : s ≡ child = cc in rw e at ((validate_all-parts s ss h).0)
get_child-valid (cons s ss) (suc tag) child h found =
    get_child-valid ss tag child ((validate_all-parts s ss h).1) found

pub get_child-lt :
    (ss : Schemas) (tag : ℕ) (child : Schema) → get_child ss tag ≡ some child → tag < count ss
get_child-lt nil tag child found = cc
get_child-lt (cons s ss) zero child found = omega arith
get_child-lt (cons s ss) (suc tag) child found = omega (arith, get_child-lt ss tag child found)

-- A repeated variant has no child at the tag that ends it.
pub end-differs :
    (t : WireType) (n tag : ℕ)
    → is_repeated t ≡ true
    → check_node t n ≡ ok tt
    → tag < n
    → is_repeated_variant_end t tag ≡ false
end-differs WireType.repeated_variant8 n tag repeated h small = ground arith
end-differs WireType.repeated_variant16 n tag repeated h small = ground arith
end-differs _ n tag repeated h small = cc

get_elem?-decoders :
    (size : ℕ) (ss : Schemas) (tag : ℕ) (child : Schema)
    → get_child ss tag ≡ some child
    → get_elem? (decoders size ss) tag ≡ some (decode_value size child)
unfolding decode_value
get_elem?-decoders size nil tag child found = cc
get_elem?-decoders size (cons s ss) zero child found =
    let e : s ≡ child = cc in ap (λ x. some (decode_value size x)) e
get_elem?-decoders size (cons s ss) (suc tag) child found =
    get_elem?-decoders size ss tag child found

pub select-Returns :
    (max limit size : ℕ) (t : WireType) (ss : Schemas) (tag : ℕ) (child : Schema) (v : Value)
    (bs : List ℕ) (cost : ℕ)
    → get_child ss tag ≡ some child
    → Returns max limit (decode_value size child) v bs cost
    → Returns max limit (select t (decoders size ss) tag) v bs cost
unfolding select
select-Returns max limit size t ss tag child v bs cost found h rest left =
    ap
      (λ d.
        or_throw (invalid_variant_tag t tag (length (decoders size ss))) d
          (at max limit (bs ++ rest) (cost + left)))
      (get_elem?-decoders size ss tag child found)
    ∙ h rest left

-- What the encoder has done, where it wrote a value.
module _ (max : ℕ) (t : WireType) (name : Option String) (children : Schemas) where
  pub variant-written :
      (tag : ℕ) (v : Value) (bs : List ℕ)
      → encode_value max (node t name children) (Value.variant tag v) ≡ (ok tt, bs)
      → (is_variant t ≡ true)
        × (child : Schema) × (get_child children tag ≡ some child)
        × ((write_variant_tag t tag and_then encode_value max child v) ≡ (ok tt, bs))
  unfolding encode_value
  variant-written tag v bs h = go (is_variant t) (get_child children tag) h
    where
      go :
          (b : Bool) (found : Option Schema)
          → (elim b [
            | true ↦ elim found [
              | none ↦ fail (invalid_variant_tag t tag (count children))
              | some child ↦ write_variant_tag t tag and_then encode_value max child v
            ]
            | false ↦ mismatch t (Value.variant tag v)
          ])
            ≡ (ok tt, bs)
          → (b ≡ true)
            × (child : Schema) × (found ≡ some child)
            × ((write_variant_tag t tag and_then encode_value max child v) ≡ (ok tt, bs))
      go false found k = let e = ap (λ (r : Written). r.0) k in cc
      go true none k = let e = ap (λ (r : Written). r.0) k in cc
      go true (some child) k = (refl, child, refl, k)

  pub repeated-written :
      (items : Items) (bs : List ℕ)
      → encode_value max (node t name children) (Value.repeated_variants items) ≡ (ok tt, bs)
      → (is_repeated t ≡ true)
        × ((encode_items max t children items and_then write_repeated_variant_end t) ≡ (ok tt, bs))
  unfolding encode_value
  repeated-written items bs h = go (is_repeated t) h
    where
      go :
          (b : Bool)
          → (elim b [
            | true ↦ encode_items max t children items and_then write_repeated_variant_end t
            | false ↦ mismatch t (Value.repeated_variants items)
          ])
            ≡ (ok tt, bs)
          → (b ≡ true)
            × ((encode_items max t children items and_then write_repeated_variant_end t)
                ≡ (ok tt, bs))
      go false k = let e = ap (λ (r : Written). r.0) k in cc
      go true k = (refl, k)

  pub item-written :
      (tag : ℕ) (v : Value) (items : Items) (bs : List ℕ)
      → encode_items max t children (item tag v items) ≡ (ok tt, bs)
      → (child : Schema) × (get_child children tag ≡ some child)
        × ((write_variant_tag t tag
              and_then (encode_value max child v and_then encode_items max t children items))
            ≡ (ok tt, bs))
  unfolding encode_items
  item-written tag v items bs h = go (get_child children tag) h
    where
      go :
          (found : Option Schema)
          → (elim found [
            | none ↦ fail (invalid_variant_tag t tag (count children))
            | some child ↦
                write_variant_tag t tag
                and_then (encode_value max child v and_then encode_items max t children items)
          ])
            ≡ (ok tt, bs)
          → (child : Schema) × (found ≡ some child)
            × ((write_variant_tag t tag
                  and_then (encode_value max child v and_then encode_items max t children items))
                ≡ (ok tt, bs))
      go none k = let e = ap (λ (r : Written). r.0) k in cc
      go (some child) k = (child, refl, k)

  pub tuple-written :
      (vs : Values) (bs : List ℕ)
      → encode_value max (node t name children) (Value.tuple vs) ≡ (ok tt, bs)
      → (is_tuple t ≡ true)
        × (value_count vs ≡ count children)
        × (encode_values max children vs ≡ (ok tt, bs))
  unfolding encode_value
  tuple-written vs bs h = go (is_tuple t) (value_count vs == count children) refl h
    where
      go :
          (b same : Bool)
          → (value_count vs == count children) ≡ same
          → (elim b [
            | true ↦ elim same [
              | true ↦ encode_values max children vs
              | false ↦ fail (tuple_length (count children) (value_count vs))
            ]
            | false ↦ mismatch t (Value.tuple vs)
          ])
            ≡ (ok tt, bs)
          → (b ≡ true)
            × (value_count vs ≡ count children)
            × (encode_values max children vs ≡ (ok tt, bs))
      go false same e k = let e' = ap (λ (r : Written). r.0) k in cc
      go true false e k = let e' = ap (λ (r : Written). r.0) k in cc
      go true true e k = (refl, ground arith, k)
