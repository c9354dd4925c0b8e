-- ===== src/Skiff/Wire/Cuts.antt =====
-- What the decoder answers on a stream and on the same stream with more bytes behind it.
use Prim.Native.String.{String}
use ytsaurus_rs.Base.{
  ℕ, zero, suc, ◌≤◌, List, [], ◌∷◌, ◌++◌, length, get_elem?, false, ltb, not, ◌==◌, ◌≡◌, ◌⊎◌, inl,
  inr, refl, arith, Result, ok, err, from_le, All, length-append, take-append_le, drop-append_le,
  ltb→le, le→ltb, Bool-cases,
}
use ytsaurus_rs.Skiff.Schema.{Schema, WireType, Schemas, node, nil, cons}
use ytsaurus_rs.Skiff.Wire.{
  Value, no_values, value, CodecError, truncated, out_of_fuel, invalid_variant_tag,
  check_blob_length, is_narrow,
}
use ytsaurus_rs.Skiff.Wire.Decode.{
  Stream, M, pure, continue_with, ◌>>=◌, charge, read_exact, read_word, check_blob, read_blob,
  lift_check, read_variant_tag, is_repeated_variant_end, select, or_throw, decode_variant,
  decode_items, decode_repeated, decode_tuple, decode_node, decode_value, decoders,
}

-- The stream with more bytes behind it.
abbrev pub widened : List ℕ → Stream → Stream
widened more st = record st { input = st.input ++ more }

-- The errors of a stream that may go on.
abbrev pub IsShort : CodecError → Type 0
IsShort (truncated context) = Unit
IsShort out_of_fuel = Unit
IsShort e = ⊥

-- The second answer is the first, with more bytes left, unless the first is that the stream is short.
abbrev pub Same {ℓ} :
    {A : Type ℓ} → List ℕ → Result CodecError (A × Stream) → Result CodecError (A × Stream) → Type ℓ
Same more (ok (a, st)) r = r ≡ ok (a, widened more st)
Same more (err e) r = IsShort e ⊎ (r ≡ err e)

abbrev pub IsLocal {ℓ} : {A : Type ℓ} → M A → Type ℓ
IsLocal m = (more : List ℕ) (st : Stream) → Same more (m st) (m (widened more st))

pub Same-bind {ℓ κ} :
    {A : Type ℓ} {B : Type κ} (more : List ℕ) (r r' : Result CodecError (A × Stream))
    (f f' : A → M B)
    → Same more r r'
    → ((a : A) (st : Stream) → Same more (f a st) (f' a (widened more st)))
    → Same more (continue_with r f) (continue_with r' f')
Same-bind more (ok (a, st)) r' f f' h k = rw h (k a st)
Same-bind more (err e) r' f f' (inl short) k = inl short
Same-bind more (err e) r' f f' (inr h) k = inr (rw h refl)

pub bind-IsLocal {ℓ κ} :
    {A : Type ℓ} {B : Type κ} (m : M A) (f : A → M B)
    → IsLocal m
    → ((a : A) → IsLocal (f a))
    → IsLocal (m >>= f)
bind-IsLocal m f h k more st =
    Same-bind more (m st) (m (widened more st)) f f (h more st) (λ a st'. k a more st')

pub pure-IsLocal {ℓ} : {A : Type ℓ} (a : A) → IsLocal (pure a)
pure-IsLocal a more st = refl

charge-IsLocal : (n : ℕ) → IsLocal (charge n)
unfolding charge
charge-IsLocal n more st = elim (Bool-cases (ltb st.remaining n)) [
  | inl short ↦ rw short (inr refl)
  | inr enough ↦ rw enough refl
]

pub read_exact-IsLocal : (n : ℕ) (context : String) → IsLocal (read_exact n context)
unfolding read_exact
read_exact-IsLocal n context more st = elim (Bool-cases (ltb (length st.input) n)) [
  | inl short ↦ rw short (inl tt)
  | inr enough ↦
      let fits : n ≤ length st.input = ltb→le _ _ enough in
      let fits' : ltb (length (st.input ++ more)) n ≡ false =
        le→ltb _ _ (omega (arith, fits, length-append st.input more)) in
      rw (enough, fits', take-append_le n st.input more fits, drop-append_le n st.input more fits)
        refl
]

read_word-IsLocal : (n : ℕ) (context : String) → IsLocal (read_word n context)
unfolding read_word
read_word-IsLocal n context =
    bind-IsLocal (read_exact n context) (λ bs. pure (from_le bs)) (read_exact-IsLocal n context)
      (λ bs. pure-IsLocal (from_le bs))

check_blob-IsLocal : (t : WireType) (n : ℕ) → IsLocal (check_blob t n)
check_blob-IsLocal t n more st = go (check_blob_length t n st.max_blob_bytes)
  where
    go :
        (r : Result CodecError (Unit {0}))
        → Same more (lift_check r st) (lift_check r (widened more st))
    go (ok u) = refl
    go (err e) = inr refl

read_blob-IsLocal : (t : WireType) → IsLocal (read_blob t)
unfolding read_blob
read_blob-IsLocal t =
    bind-IsLocal (read_word 4 "blob length") _ (read_word-IsLocal 4 "blob length") (λ n.
      bind-IsLocal (check_blob t n) _ (check_blob-IsLocal t n) (λ u.
        bind-IsLocal (charge n) _ (charge-IsLocal n) (λ u'. read_exact-IsLocal n "blob payload")))

read_variant_tag-IsLocal : (t : WireType) → IsLocal (read_variant_tag t)
unfolding read_variant_tag
read_variant_tag-IsLocal t = elim (Bool-cases (is_narrow t)) [
  | inl narrow ↦ rw narrow (read_word-IsLocal 1 "variant8 tag")
  | inr wide ↦ rw wide (read_word-IsLocal 2 "variant16 tag")
]

throw_or-IsLocal {ℓ} :
    {A : Type ℓ} (e : CodecError) (ds : List (M A)) (tag : ℕ)
    → All IsLocal ds
    → IsLocal (or_throw e (get_elem? ds tag))
throw_or-IsLocal e [] tag local = λ more st. inr refl
throw_or-IsLocal e (d ∷ ds) zero local = local.0
throw_or-IsLocal e (d ∷ ds) (suc tag) local = throw_or-IsLocal e ds tag local.1

module _ (t : WireType) (ds : List (M Value)) (local : All IsLocal ds) where
  select-IsLocal : (tag : ℕ) → IsLocal (select t ds tag)
  unfolding select
  select-IsLocal tag = throw_or-IsLocal (invalid_variant_tag t tag (length ds)) ds tag local

  decode_variant-IsLocal : IsLocal (decode_variant t ds)
  unfolding decode_variant
  decode_variant-IsLocal = bind-IsLocal (read_variant_tag t) _ (read_variant_tag-IsLocal t) (λ tag.
      bind-IsLocal (select t ds tag) _ (select-IsLocal tag)
        (λ v. pure-IsLocal (Value.variant tag v)))

  -- More rounds are allowed where more bytes are.
  decode_items-Same :
      (fuel fuel' : ℕ) (more : List ℕ) (st : Stream)
      → fuel ≤ fuel'
      → Same more (decode_items fuel t ds st) (decode_items fuel' t ds (widened more st))
  unfolding decode_items
  decode_items-Same zero fuel' more st le = inl tt
  decode_items-Same (suc fuel) zero more st le = absurd (omega arith)
  decode_items-Same (suc fuel) (suc fuel') more st le =
      Same-bind more (read_variant_tag t st) (read_variant_tag t (widened more st)) _ _
        (read_variant_tag-IsLocal t more st)
        (λ tag st1. elim (Bool-cases (is_repeated_variant_end t tag)) [
          | inl last ↦ rw last refl
          | inr goes_on ↦ rw goes_on (
              Same-bind more (select t ds tag st1) (select t ds tag (widened more st1)) _ _
                (select-IsLocal tag more st1)
                (λ v st2.
                  Same-bind more (decode_items fuel t ds st2)
                    (decode_items fuel' t ds (widened more st2)) _ _
                    (decode_items-Same fuel fuel' more st2 (omega arith)) (λ items st3. refl)))
        ])

  decode_repeated-IsLocal : IsLocal (decode_repeated t ds)
  unfolding decode_repeated
  decode_repeated-IsLocal more st =
      Same-bind more (decode_items (suc (length st.input)) t ds st)
        (decode_items (suc (length (st.input ++ more))) t ds (widened more st)) _ _
        (decode_items-Same (suc (length st.input)) (suc (length (st.input ++ more))) more st
          (omega (arith, length-append st.input more)))
        (λ items st'. refl)

decode_tuple-IsLocal : (ds : List (M Value)) → All IsLocal ds → IsLocal (decode_tuple ds)
unfolding decode_tuple
decode_tuple-IsLocal [] local = pure-IsLocal no_values
decode_tuple-IsLocal (d ∷ ds) local = bind-IsLocal d _ local.0 (λ v.
    bind-IsLocal (decode_tuple ds) _ (decode_tuple-IsLocal ds local.1)
      (λ vs. pure-IsLocal (value v vs)))

map-IsLocal {ℓ κ} :
    {A : Type ℓ} {B : Type κ} (m : M A) (g : A → B) → IsLocal m → IsLocal (m >>= λ a. pure (g a))
map-IsLocal m g h = bind-IsLocal m (λ a. pure (g a)) h (λ a. pure-IsLocal (g a))

decode_node-IsLocal :
    (t : WireType) (ds : List (M Value)) → All IsLocal ds → IsLocal (decode_node t ds)
decode_node-IsLocal WireType.nothing ds local = pure-IsLocal Value.nothing
decode_node-IsLocal WireType.boolean ds local =
    map-IsLocal (read_word 1 "boolean") (λ b. Value.boolean (not (b == 0)))
      (read_word-IsLocal 1 "boolean")
decode_node-IsLocal WireType.int8 ds local =
    map-IsLocal (read_word 1 "int8") Value.int8 (read_word-IsLocal 1 "int8")
decode_node-IsLocal WireType.int16 ds local =
    map-IsLocal (read_word 2 "int16") Value.int16 (read_word-IsLocal 2 "int16")
decode_node-IsLocal WireType.int32 ds local =
    map-IsLocal (read_word 4 "int32") Value.int32 (read_word-IsLocal 4 "int32")
decode_node-IsLocal WireType.int64 ds local =
    map-IsLocal (read_word 8 "int64") Value.int64 (read_word-IsLocal 8 "int64")
decode_node-IsLocal WireType.int128 ds local =
    map-IsLocal (read_word 16 "int128") Value.int128 (read_word-IsLocal 16 "int128")
decode_node-IsLocal WireType.int256 ds local =
    map-IsLocal (read_exact 32 "int256") Value.int256 (read_exact-IsLocal 32 "int256")
decode_node-IsLocal WireType.uint8 ds local =
    map-IsLocal (read_word 1 "uint8") Value.uint8 (read_word-IsLocal 1 "uint8")
decode_node-IsLocal WireType.uint16 ds local =
    map-IsLocal (read_word 2 "uint16") Value.uint16 (read_word-IsLocal 2 "uint16")
decode_node-IsLocal WireType.uint32 ds local =
    map-IsLocal (read_word 4 "uint32") Value.uint32 (read_word-IsLocal 4 "uint32")
decode_node-IsLocal WireType.uint64 ds local =
    map-IsLocal (read_word 8 "uint64") Value.uint64 (read_word-IsLocal 8 "uint64")
decode_node-IsLocal WireType.double ds local =
    map-IsLocal (read_word 8 "double") Value.double (read_word-IsLocal 8 "double")
decode_node-IsLocal WireType.string32 ds local =
    map-IsLocal (read_blob WireType.string32) Value.bytes (read_blob-IsLocal WireType.string32)
decode_node-IsLocal WireType.yson32 ds local =
    map-IsLocal (read_blob WireType.yson32) Value.yson (read_blob-IsLocal WireType.yson32)
decode_node-IsLocal WireType.variant8 ds local = decode_variant-IsLocal WireType.variant8 ds local
decode_node-IsLocal WireType.variant16 ds local = decode_variant-IsLocal WireType.variant16 ds local
decode_node-IsLocal WireType.repeated_variant8 ds local =
    decode_repeated-IsLocal WireType.repeated_variant8 ds local
decode_node-IsLocal WireType.repeated_variant16 ds local =
    decode_repeated-IsLocal WireType.repeated_variant16 ds local
decode_node-IsLocal WireType.tuple ds local =
    map-IsLocal (decode_tuple ds) Value.tuple (decode_tuple-IsLocal ds local)

module _ (size : ℕ) where
  mutual
    unfolding decode_value decoders

    pub decode_value-IsLocal : (s : Schema) → IsLocal (decode_value size s)
    decode_value-IsLocal (node t name children) =
        let local : All IsLocal (decoders size children) = decoders-IsLocal children in
        bind-IsLocal (charge size) (λ u. decode_node t (decoders size children))
          (charge-IsLocal size) (λ u. decode_node-IsLocal t (decoders size children) local)

    decoders-IsLocal : (ss : Schemas) → All IsLocal (decoders size ss)
    decoders-IsLocal nil = tt
    decoders-IsLocal (cons s ss) = (decode_value-IsLocal s, decoders-IsLocal ss)
