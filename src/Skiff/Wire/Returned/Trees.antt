-- ===== src/Skiff/Wire/Returned/Trees.antt =====
-- The decoder over the bytes of a whole value.
use Prim.Native.String.{String}
use mathlib.Core.Path.{subst}
use ytsaurus_rs.Base.{
  ℕ, suc, ◌+◌, ◌^◌, ◌<◌, List, [], ◌∷◌, ◌++◌, length, Option, some, Bool, true, false,
  if◌then◌else◌, ◌≡◌, sym, ap, ◌∙◌, arith, ok, append_assoc, le_bytes, leb,
}
use ytsaurus_rs.Skiff.Schema.{Schema, Schemas, WireType}
use ytsaurus_rs.Skiff.Wire.{
  Value, Items, no_items, item, Written, ◌and_then◌, write_all, fail, encode_value, encode_items,
  get_child, is_narrow, is_repeated, write_variant_tag, write_repeated_variant_end,
  variant_tag_too_wide,
}
use ytsaurus_rs.Skiff.Wire.Decode.{
  M, pure, continue_with, ◌>>=◌, read_variant_tag, is_repeated_variant_end, select, decode_variant,
  decode_items, decode_value, decoders,
}
use ytsaurus_rs.Skiff.Wire.Footprint.{footprint, inner, inner_items}
use ytsaurus_rs.Skiff.Wire.Returned.{
  Returns, Returns-bind, Returns-map, Returns-cost, and_then-eq-ok, read_variant_tag-Returns,
}
use ytsaurus_rs.Skiff.Wire.Returned.Children.{select-Returns, item-written}

module _ (max limit size : ℕ) where
  pub variant-Returns :
      (t : WireType) (children : Schemas) (tag : ℕ) (child : Schema) (v : Value) (bs : List ℕ)
      → tag < 2 ^ 16
      → get_child children tag ≡ some child
      → (write_variant_tag t tag and_then encode_value max child v) ≡ (ok tt, bs)
      → ((back : List ℕ)
          → encode_value max child v ≡ (ok tt, back)
          → Returns max limit (decode_value size child) v back (footprint size v))
      → Returns max limit
          (decode_variant t (decoders size children))
          (Value.variant tag v)
          bs
          (inner size (Value.variant tag v))
  unfolding decode_variant inner footprint
  variant-Returns t children tag child v bs small found h ih =
      let ds : List (M Value) = decoders size children in
      let (front, back, first, later, same) =
        and_then-eq-ok (write_variant_tag t tag) (encode_value max child v) bs h in
      rw same (
        Returns-cost max limit (decode_variant t ds) (Value.variant tag v) (front ++ back)
          (0 + footprint size v) (footprint size v) (omega arith)
          (Returns-bind max limit (read_variant_tag t)
            (λ tag'. select t ds tag' >>= λ v'. pure (Value.variant tag' v')) tag
            (Value.variant tag v) front back 0 (footprint size v)
            (read_variant_tag-Returns max limit t tag front small first)
            (Returns-map max limit (select t ds tag) (Value.variant tag) v back (footprint size v) (
              select-Returns max limit size t children tag child v back (footprint size v) found
                (ih back later)))))

  -- One round of the loop of repeated variants.
  abbrev round : WireType → List (M Value) → M Items → ℕ → M Items
  round t ds later tag =
      if is_repeated_variant_end t tag
      then pure no_items
      else (do v ← select t ds tag; items ← later; pure (item tag v items))

  if-Returns {ℓ} :
      {A : Type ℓ} (b : Bool) (k m : M A) (a : A) (bs : List ℕ) (cost : ℕ)
      → b ≡ false
      → Returns max limit m a bs cost
      → Returns max limit (if b then k else m) a bs cost
  if-Returns b k m a bs cost e h =
      subst (λ c. Returns max limit (if c then k else m) a bs cost) (sym e) h

  pub end-Returns :
      (t : WireType) (fuel : ℕ) (ds : List (M Value)) (fin : List ℕ)
      → is_repeated t ≡ true
      → write_repeated_variant_end t ≡ (ok tt, fin)
      → Returns max limit (decode_items (suc fuel) t ds) no_items fin 0
  unfolding decode_items write_variant_tag
  end-Returns WireType.repeated_variant8 fuel ds fin repeated h = λ rest left.
      ap
        (λ r.
          continue_with r
            (round WireType.repeated_variant8 ds (decode_items fuel WireType.repeated_variant8 ds)))
        (read_variant_tag-Returns max limit WireType.repeated_variant8 255 fin (omega arith) h rest
          left)
  end-Returns WireType.repeated_variant16 fuel ds fin repeated h = λ rest left.
      ap
        (λ r.
          continue_with r (
            round WireType.repeated_variant16 ds
              (decode_items fuel WireType.repeated_variant16 ds)))
        (read_variant_tag-Returns max limit WireType.repeated_variant16 65535 fin (omega arith) h
          rest left)
  end-Returns _ fuel ds fin repeated h = cc

  pub tag-positive :
      (t : WireType) (tag : ℕ) (bs : List ℕ) → write_variant_tag t tag ≡ (ok tt, bs) → 0 < length bs
  unfolding write_variant_tag
  tag-positive t tag bs h = go (is_narrow t) (leb 256 tag) h
    where
      go :
          (narrow wide : Bool)
          → (if narrow
              then if wide then fail (variant_tag_too_wide t tag) else write_all (tag ∷ [])
              else write_all (le_bytes 2 tag))
            ≡ (ok tt, bs)
          → 0 < length bs
      go true true k = let e' = ap (λ (w : Written). w.0) k in cc
      go true false k = let e = ap (λ (w : Written). length (w.1)) k in omega (arith, e)
      go false wide k = let e = ap (λ (w : Written). length (w.1)) k in omega (arith, e)

  pub item-Returns :
      (t : WireType) (children : Schemas) (tag : ℕ) (child : Schema) (v : Value) (items : Items)
      (fuel : ℕ) (front middle back fin : List ℕ)
      → tag < 2 ^ 16
      → is_repeated_variant_end t tag ≡ false
      → get_child children tag ≡ some child
      → write_variant_tag t tag ≡ (ok tt, front)
      → Returns max limit (decode_value size child) v middle (footprint size v)
      → Returns max limit
          (decode_items fuel t (decoders size children))
          items
          (back ++ fin)
          (inner_items size items)
      → Returns max limit
          (decode_items (suc fuel) t (decoders size children))
          (item tag v items)
          ((front ++ (middle ++ back)) ++ fin)
          (inner_items size (item tag v items))
  unfolding decode_items inner footprint
  item-Returns t children tag child v items fuel front middle back fin small goes found first h k =
      let ds : List (M Value) = decoders size children in
      let later : M Items = decode_items fuel t ds in
      let c : ℕ = footprint size v in
      let c' : ℕ = inner_items size items in
      rw (append_assoc front (middle ++ back) fin, append_assoc middle back fin)
        (Returns-cost max limit (decode_items (suc fuel) t ds) (item tag v items)
          (front ++ (middle ++ (back ++ fin))) (0 + (c + c')) (c + c') (omega arith)
          (Returns-bind max limit (read_variant_tag t) (round t ds later) tag (item tag v items)
            front (middle ++ (back ++ fin)) 0 (c + c')
            (read_variant_tag-Returns max limit t tag front small first)
            (if-Returns (is_repeated_variant_end t tag) (pure no_items) _ (item tag v items)
              (middle ++ (back ++ fin)) (c + c') goes
              (Returns-bind max limit (select t ds tag)
                (λ v'. later >>= λ items'. pure (item tag v' items')) v (item tag v items) middle
                (back ++ fin) c c'
                (select-Returns max limit size t children tag child v middle c found h)
                (Returns-map max limit later (item tag v) items (back ++ fin) c' k)))))

  -- The bytes of the tag, of the value and of the items behind it.
  pub item-parts :
      (t : WireType) (name : Option String) (children : Schemas) (tag : ℕ) (v : Value)
      (items : Items) (bs : List ℕ)
      → encode_items max t children (item tag v items) ≡ (ok tt, bs)
      → (child : Schema) × (front middle back : List ℕ) × (get_child children tag ≡ some child)
        × (write_variant_tag t tag ≡ (ok tt, front))
        × (encode_value max child v ≡ (ok tt, middle))
        × (encode_items max t children items ≡ (ok tt, back))
        × (bs ≡ front ++ (middle ++ back))
  item-parts t name children tag v items bs h =
      let (child, found, written) = item-written max t name children tag v items bs h in
      let (front, rest, first, later, same) =
        and_then-eq-ok (write_variant_tag t tag)
          (encode_value max child v and_then encode_items max t children items) bs written in
      let (middle, back, second, third, same') =
        and_then-eq-ok (encode_value max child v) (encode_items max t children items) rest later in
      (child, front, middle, back, found, first, second, third, same ∙ ap (λ x. front ++ x) same')
