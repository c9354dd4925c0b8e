-- ===== src/Skiff/Wire/Shape/Decoded.antt =====
-- The decoder yields values of the shape of the schema alone.
use Prim.Native.String.{String}
use ytsaurus_rs.Base.{
  ℕ, zero, suc, List, [], ◌∷◌, length, get_elem?, Option, Bool, true, false, not, ◌==◌,
  if◌then◌else◌, ◌≡◌, refl, Result, ok, err,
}
use ytsaurus_rs.Skiff.Schema.{Schema, WireType, Schemas, node, nil, cons}
use ytsaurus_rs.Skiff.Wire.{
  Value, item, value, CodecError, invalid_variant_tag, is_variant, is_repeated, get_child,
}
use ytsaurus_rs.Skiff.Wire.Decode.{
  Stream, M, pure, continue_with, charge, read_exact, read_word, read_blob, read_variant_tag,
  is_repeated_variant_end, select, or_throw, decode_variant, decode_items, decode_repeated,
  decode_tuple, decode_node, decode_value, decoders,
}
use ytsaurus_rs.Skiff.Wire.Shape.{AtChild, HasShape, HasItems, HasShapes}

-- What holds of the answer, where there is one.
abbrev pub Gives {ℓ} : {A : Type ℓ} → (A → Type 0) → Result CodecError (A × Stream) → Type 0
Gives P (ok (a, st)) = P a
Gives P (err e) = Unit

abbrev Yields {ℓ} : {A : Type ℓ} → (A → Type 0) → M A → Type 0
Yields P m = (st : Stream) → Gives P (m st)

Gives-bind {ℓ κ} :
    {A : Type ℓ} {B : Type κ} (P : A → Type 0) (Q : B → Type 0) (r : Result CodecError (A × Stream))
    (f : A → M B)
    → Gives P r
    → ((a : A) → P a → Yields Q (f a))
    → Gives Q (continue_with r f)
Gives-bind P Q (ok (a, st)) f h k = k a h st
Gives-bind P Q (err e) f h k = tt

-- A step of which nothing is asked.
Gives-any {ℓ κ} :
    {A : Type ℓ} {B : Type κ} (Q : B → Type 0) (r : Result CodecError (A × Stream)) (f : A → M B)
    → ((a : A) → Yields Q (f a))
    → Gives Q (continue_with r f)
Gives-any Q (ok (a, st)) f k = k a st
Gives-any Q (err e) f k = tt

-- Each decoder yields values of the shape of its schema.
abbrev Yield : Schemas → List (M Value) → Type 0
Yield nil [] = Unit
Yield nil (d ∷ ds) = ⊥
Yield (cons s ss) [] = ⊥
Yield (cons s ss) (d ∷ ds) = Yields (HasShape s) d × Yield ss ds

or_throw-Yields :
    (e : CodecError) (ss : Schemas) (ds : List (M Value)) (tag : ℕ)
    → Yield ss ds
    → Yields
        (λ v. AtChild (get_child ss tag) (λ child. HasShape child v))
        (or_throw e (get_elem? ds tag))
or_throw-Yields e nil [] tag h st = tt
or_throw-Yields e nil (d ∷ ds) tag h st = absurd h
or_throw-Yields e (cons s ss) [] tag h st = absurd h
or_throw-Yields e (cons s ss) (d ∷ ds) zero h st = h.0 st
or_throw-Yields e (cons s ss) (d ∷ ds) (suc tag) h st = or_throw-Yields e ss ds tag h.1 st

module _ (ss : Schemas) (ds : List (M Value)) (h : Yield ss ds) where
  abbrev AtTag : ℕ → Value → Type 0
  AtTag tag v = AtChild (get_child ss tag) (λ child. HasShape child v)

  select-Yields : (t : WireType) (tag : ℕ) → Yields (AtTag tag) (select t ds tag)
  unfolding select
  select-Yields t tag st = or_throw-Yields (invalid_variant_tag t tag (length ds)) ss ds tag h st

  decode_variant-Yields :
      (t : WireType) (name : Option String)
      → is_variant t ≡ true
      → Yields (HasShape (node t name ss)) (decode_variant t ds)
  unfolding decode_variant HasShape
  decode_variant-Yields t name narrow st =
      Gives-any (HasShape (node t name ss)) (read_variant_tag t st) _ (λ tag st'.
        Gives-bind (AtTag tag) (HasShape (node t name ss)) (select t ds tag st')
          (λ v. pure (Value.variant tag v)) (select-Yields t tag st') (λ v k st''. (narrow, k)))

  if-Gives {ℓ} :
      {A : Type ℓ} (P : A → Type 0) (b : Bool) (m m' : M A)
      → Yields P m
      → Yields P m'
      → Yields P (if b then m else m')
  if-Gives P true m m' k k' = k
  if-Gives P false m m' k k' = k'

  decode_items-Yields : (fuel : ℕ) (t : WireType) → Yields (HasItems ss) (decode_items fuel t ds)
  unfolding decode_items HasShape
  decode_items-Yields zero t st = tt
  decode_items-Yields (suc fuel) t st =
      let ih : Yields (HasItems ss) (decode_items fuel t ds) = decode_items-Yields fuel t in
      Gives-any (HasItems ss) (read_variant_tag t st) _ (λ tag.
        if-Gives (HasItems ss) (is_repeated_variant_end t tag) _ _ (λ st'. tt)
          (λ st'.
            Gives-bind (AtTag tag) (HasItems ss) (select t ds tag st') _ (select-Yields t tag st')
              (λ v k st''.
                Gives-bind (HasItems ss) (HasItems ss) (decode_items fuel t ds st'')
                  (λ items. pure (item tag v items)) (ih st'') (λ items k' st3. (k, k')))))

  decode_repeated-Yields :
      (t : WireType) (name : Option String)
      → is_repeated t ≡ true
      → Yields (HasShape (node t name ss)) (decode_repeated t ds)
  unfolding decode_repeated HasShape
  decode_repeated-Yields t name repeated st =
      Gives-bind (HasItems ss) (HasShape (node t name ss))
        (decode_items (suc (length st.input)) t ds st)
        (λ items. pure (Value.repeated_variants items))
        (decode_items-Yields (suc (length st.input)) t st) (λ items k st'. (repeated, k))

decode_tuple-Yields :
    (ss : Schemas) (ds : List (M Value)) → Yield ss ds → Yields (HasShapes ss) (decode_tuple ds)
unfolding decode_tuple HasShape
decode_tuple-Yields nil [] h st = tt
decode_tuple-Yields nil (d ∷ ds) h st = absurd h
decode_tuple-Yields (cons s ss) [] h st = absurd h
decode_tuple-Yields (cons s ss) (d ∷ ds) h st =
    let ih : Yields (HasShapes ss) (decode_tuple ds) = decode_tuple-Yields ss ds h.1 in
    Gives-bind (HasShape s) (HasShapes (cons s ss)) (d st) _ (h.0 st) (λ v k st'.
      Gives-bind (HasShapes ss) (HasShapes (cons s ss)) (decode_tuple ds st')
        (λ vs. pure (value v vs)) (ih st') (λ vs k' st''. (k, k')))

built {ℓ} :
    {A : Type ℓ} (s : Schema) (r : Result CodecError (A × Stream)) (build : A → Value)
    → ((a : A) → HasShape s (build a))
    → Gives (HasShape s) (continue_with r (λ a. pure (build a)))
built s r build k = Gives-any (HasShape s) r (λ a. pure (build a)) (λ a st'. k a)

decode_node-Yields :
    (t : WireType) (name : Option String) (ss : Schemas) (ds : List (M Value))
    → Yield ss ds
    → Yields (HasShape (node t name ss)) (decode_node t ds)
unfolding HasShape
decode_node-Yields t name ss ds h st =
    elim t as (λ k. Gives (HasShape (node k name ss)) (decode_node k ds st)) [
      | WireType.nothing ↦ tt
      | WireType.boolean ↦
          built (node WireType.boolean name ss) (read_word 1 "boolean" st)
            (λ b. Value.boolean (not (b == 0))) (λ b. tt)
      | WireType.int8 ↦
          built (node WireType.int8 name ss) (read_word 1 "int8" st) Value.int8 (λ w. tt)
      | WireType.int16 ↦
          built (node WireType.int16 name ss) (read_word 2 "int16" st) Value.int16 (λ w. tt)
      | WireType.int32 ↦
          built (node WireType.int32 name ss) (read_word 4 "int32" st) Value.int32 (λ w. tt)
      | WireType.int64 ↦
          built (node WireType.int64 name ss) (read_word 8 "int64" st) Value.int64 (λ w. tt)
      | WireType.int128 ↦
          built (node WireType.int128 name ss) (read_word 16 "int128" st) Value.int128 (λ w. tt)
      | WireType.int256 ↦
          built (node WireType.int256 name ss) (read_exact 32 "int256" st) Value.int256 (λ bs. tt)
      | WireType.uint8 ↦
          built (node WireType.uint8 name ss) (read_word 1 "uint8" st) Value.uint8 (λ w. tt)
      | WireType.uint16 ↦
          built (node WireType.uint16 name ss) (read_word 2 "uint16" st) Value.uint16 (λ w. tt)
      | WireType.uint32 ↦
          built (node WireType.uint32 name ss) (read_word 4 "uint32" st) Value.uint32 (λ w. tt)
      | WireType.uint64 ↦
          built (node WireType.uint64 name ss) (read_word 8 "uint64" st) Value.uint64 (λ w. tt)
      | WireType.double ↦
          built (node WireType.double name ss) (read_word 8 "double" st) Value.double (λ w. tt)
      | WireType.string32 ↦
          built (node WireType.string32 name ss) (read_blob WireType.string32 st) Value.bytes
            (λ bs. tt)
      | WireType.yson32 ↦
          built (node WireType.yson32 name ss) (read_blob WireType.yson32 st) Value.yson (λ bs. tt)
      | WireType.variant8 ↦ decode_variant-Yields ss ds h WireType.variant8 name refl st
      | WireType.variant16 ↦ decode_variant-Yields ss ds h WireType.variant16 name refl st
      | WireType.repeated_variant8 ↦
          decode_repeated-Yields ss ds h WireType.repeated_variant8 name refl st
      | WireType.repeated_variant16 ↦
          decode_repeated-Yields ss ds h WireType.repeated_variant16 name refl st
      | WireType.tuple ↦
          Gives-bind (HasShapes ss) (HasShape (node WireType.tuple name ss)) (decode_tuple ds st)
            (λ vs. pure (Value.tuple vs)) (decode_tuple-Yields ss ds h st) (λ vs k st'. (refl, k))
    ]

mutual
  unfolding decode_value

  value-Yields : (size : ℕ) (s : Schema) → Yields (HasShape s) (decode_value size s)
  value-Yields size (node t name children) st =
      Gives-any (HasShape (node t name children)) (charge size st)
        (λ u. decode_node t (decoders size children))
        (λ u st'.
          decode_node-Yields t name children (decoders size children) (decoders-Yield size children)
            st')

  decoders-Yield : (size : ℕ) (ss : Schemas) → Yield ss (decoders size ss)
  decoders-Yield size nil = tt
  decoders-Yield size (cons s ss) = (value-Yields size s, decoders-Yield size ss)

-- A value that is decoded by a schema has the shape of the schema, whatever the input: its variants
-- carry values of the children that their tags name, and its tuples one value for each child.
pub decode_value-HasShape :
    (size : ℕ) (s : Schema) (st st' : Stream) (v : Value)
    → decode_value size s st ≡ ok (v, st')
    → HasShape s v
decode_value-HasShape size s st st' v h = rw h at (value-Yields size s st)
