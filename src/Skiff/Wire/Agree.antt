-- ===== src/Skiff/Wire/Agree.antt =====
-- `skip_value` compared with `decode_value`, step by step.
use Prim.Native.String.{String}
use ytsaurus_rs.Base.{
  ℕ, zero, suc, List, [], ◌∷◌, length, get_elem?, Bool, true, false, ◌≡◌, refl, ap, ◌∙◌, arith,
  from_le, not, ◌==◌, if◌then◌else◌, Result, ok, err,
}
use ytsaurus_rs.Skiff.Schema.{Schema, WireType, Schemas, node, nil, cons}
use ytsaurus_rs.Skiff.Wire.{Value, CodecError, invalid_variant_tag, item, value}
use ytsaurus_rs.Skiff.Wire.Decode.{
  Stream, M, pure, continue_with, ◌>>=◌, charge, read_exact, read_word, check_blob, read_blob,
  read_variant_tag, is_repeated_variant_end, select, or_throw, decode_variant, decode_items,
  decode_repeated, decode_tuple, decode_node, decode_value, decoders,
}
use ytsaurus_rs.Skiff.Wire.Skip.{
  skip_exact, fixed_width, skip_blob, skip_variant, skip_items, skip_repeated, skip_tuple,
  skip_node, skip_fixed_or, skip_value, skippers,
}

-- The outcome with its value left out.
abbrev pub forget {ℓ} :
    {A : Type ℓ} → Result CodecError (A × Stream) → Result CodecError (Unit {0} × Stream)
forget (ok (a, st)) = ok (tt, st)
forget (err e) = err e

-- One step does what another does, but for the value.
abbrev Skips {ℓ} : {A : Type ℓ} → M (Unit {0}) → M A → Type 0
Skips k d = (st : Stream) → k st ≡ forget (d st)

continue_forget {ℓ κ} :
    {A : Type ℓ} {B : Type κ} (r : Result CodecError (A × Stream)) (g : A → M (Unit {0}))
    (f : A → M B)
    → ((a : A) → Skips (g a) (f a))
    → continue_with r g ≡ forget (continue_with r f)
continue_forget (ok (a, st)) g f h = h a st
continue_forget (err e) g f h = refl

-- The same, where the first steps differ in their values too.
both_forget {ℓ κ} :
    {A : Type ℓ} {B : Type κ} (r : Result CodecError (A × Stream)) (g : M (Unit {0})) (f : A → M B)
    → ((a : A) → Skips g (f a))
    → continue_with (forget r) (λ _. g) ≡ forget (continue_with r f)
both_forget (ok (a, st)) g f h = h a st
both_forget (err e) g f h = refl

pure-forget {ℓ κ} :
    {A : Type ℓ} {B : Type κ} (r : Result CodecError (A × Stream)) (build : A → B)
    → forget r ≡ forget (continue_with r (λ a. pure (build a)))
pure-forget (ok (a, st)) build = refl
pure-forget (err e) build = refl

if_forget {ℓ} :
    {A : Type ℓ} (b : Bool) (k k' : M (Unit {0})) (d d' : M A)
    → Skips k d
    → Skips k' d'
    → Skips (if b then k else k') (if b then d else d')
if_forget true k k' d d' h h' = h
if_forget false k k' d d' h h' = h'

skip_exact-forget : (n : ℕ) (context : String) → Skips (skip_exact n context) (read_exact n context)
unfolding skip_exact read_exact
skip_exact-forget n context st = ground arith

-- The two lists of steps that are made from one list of schemas.
abbrev SkipsAll : List (M (Unit {0})) → List (M Value) → Type 0
SkipsAll [] [] = Unit
SkipsAll [] (d ∷ ds) = ⊥
SkipsAll (k ∷ ks) [] = ⊥
SkipsAll (k ∷ ks) (d ∷ ds) = Skips k d × SkipsAll ks ds

length-SkipsAll :
    (ks : List (M (Unit {0}))) (ds : List (M Value)) → SkipsAll ks ds → length ks ≡ length ds
length-SkipsAll [] [] h = refl
length-SkipsAll [] (d ∷ ds) h = absurd h
length-SkipsAll (k ∷ ks) [] h = absurd h
length-SkipsAll (k ∷ ks) (d ∷ ds) h = ap suc (length-SkipsAll ks ds h.1)

or_throw-forget :
    (e : CodecError) (ks : List (M (Unit {0}))) (ds : List (M Value)) (tag : ℕ)
    → SkipsAll ks ds
    → Skips (or_throw e (get_elem? ks tag)) (or_throw e (get_elem? ds tag))
or_throw-forget e [] [] tag h st = refl
or_throw-forget e [] (d ∷ ds) tag h st = absurd h
or_throw-forget e (k ∷ ks) [] tag h st = absurd h
or_throw-forget e (k ∷ ks) (d ∷ ds) zero h st = h.0 st
or_throw-forget e (k ∷ ks) (d ∷ ds) (suc tag) h st = or_throw-forget e ks ds tag h.1 st

select-forget :
    (t : WireType) (ks : List (M (Unit {0}))) (ds : List (M Value)) (tag : ℕ)
    → SkipsAll ks ds
    → Skips (select t ks tag) (select t ds tag)
unfolding select
select-forget t ks ds tag h st =
    rw (length-SkipsAll ks ds h)
      (or_throw-forget (invalid_variant_tag t tag (length ds)) ks ds tag h st)

module _ (ks : List (M (Unit {0}))) (ds : List (M Value)) (h : SkipsAll ks ds) where
  skip_variant-forget : (t : WireType) → Skips (skip_variant t ks) (decode_variant t ds)
  unfolding skip_variant decode_variant
  skip_variant-forget t st = continue_forget (read_variant_tag t st) _ _ (λ tag st'.
      select-forget t ks ds tag h st' ∙ pure-forget (select t ds tag st') (Value.variant tag))

  skip_items-forget :
      (fuel : ℕ) (t : WireType) → Skips (skip_items fuel t ks) (decode_items fuel t ds)
  unfolding skip_items decode_items
  skip_items-forget zero t st = refl
  skip_items-forget (suc fuel) t st =
      let ih : Skips (skip_items fuel t ks) (decode_items fuel t ds) = skip_items-forget fuel t in
      continue_forget (read_variant_tag t st) _ _ (λ tag.
        if_forget (is_repeated_variant_end t tag) _ _ _ _ (λ st'. refl)
          (λ st'. rw (select-forget t ks ds tag h st') (
            both_forget (select t ds tag st') (skip_items fuel t ks) _
              (λ v st''. ih st'' ∙ pure-forget (decode_items fuel t ds st'') (item tag v)))))

  skip_repeated-forget : (t : WireType) → Skips (skip_repeated t ks) (decode_repeated t ds)
  unfolding skip_repeated decode_repeated
  skip_repeated-forget t st =
      skip_items-forget (suc (length st.input)) t st
      ∙ pure-forget (decode_items (suc (length st.input)) t ds st) Value.repeated_variants

skip_tuple-forget :
    (ks : List (M (Unit {0}))) (ds : List (M Value))
    → SkipsAll ks ds
    → Skips (skip_tuple ks) (decode_tuple ds)
unfolding skip_tuple decode_tuple
skip_tuple-forget [] [] h st = refl
skip_tuple-forget [] (d ∷ ds) h st = absurd h
skip_tuple-forget (k ∷ ks) [] h st = absurd h
skip_tuple-forget (k ∷ ks) (d ∷ ds) h st = rw (h.0 st) (
    both_forget (d st) (skip_tuple ks) _
      (λ v st'. skip_tuple-forget ks ds h.1 st' ∙ pure-forget (decode_tuple ds st') (value v)))

skip_blob-forget : (t : WireType) → Skips (skip_blob t) (read_blob t)
unfolding skip_blob read_blob
skip_blob-forget t st = continue_forget (read_word 4 "blob length" st) _ _ (λ n st1.
    continue_forget (check_blob t n st1) _ _ (λ u st2.
      continue_forget (charge n st2) _ _ (λ u' st3. skip_exact-forget n "blob payload" st3)))

-- A fixed width is skipped as the number of that width is read.
skip_exact-read_word :
    (n : ℕ) (context : String) (build : ℕ → Value)
    → Skips (skip_exact n context) (read_word n context >>= λ w. pure (build w))
unfolding read_word
skip_exact-read_word n context build st =
    skip_exact-forget n context st ∙ go (read_exact n context st)
  where
    go :
        (r : Result CodecError (List ℕ × Stream))
        → forget r
          ≡ forget (continue_with (continue_with r (λ bs. pure (from_le bs))) (λ w. pure (build w)))
    go (ok (a, st')) = refl
    go (err e) = refl

skip_node-forget :
    (t : WireType) (ks : List (M (Unit {0}))) (ds : List (M Value))
    → SkipsAll ks ds
    → Skips (skip_fixed_or (fixed_width t) (skip_node t ks)) (decode_node t ds)
skip_node-forget WireType.nothing ks ds h st = refl
skip_node-forget WireType.boolean ks ds h st =
    skip_exact-read_word 1 "boolean" (λ b. Value.boolean (not (b == 0))) st
skip_node-forget WireType.int8 ks ds h st = skip_exact-read_word 1 "int8" Value.int8 st
skip_node-forget WireType.int16 ks ds h st = skip_exact-read_word 2 "int16" Value.int16 st
skip_node-forget WireType.int32 ks ds h st = skip_exact-read_word 4 "int32" Value.int32 st
skip_node-forget WireType.int64 ks ds h st = skip_exact-read_word 8 "int64" Value.int64 st
skip_node-forget WireType.int128 ks ds h st = skip_exact-read_word 16 "int128" Value.int128 st
skip_node-forget WireType.int256 ks ds h st =
    skip_exact-forget 32 "int256" st ∙ pure-forget (read_exact 32 "int256" st) Value.int256
skip_node-forget WireType.uint8 ks ds h st = skip_exact-read_word 1 "uint8" Value.uint8 st
skip_node-forget WireType.uint16 ks ds h st = skip_exact-read_word 2 "uint16" Value.uint16 st
skip_node-forget WireType.uint32 ks ds h st = skip_exact-read_word 4 "uint32" Value.uint32 st
skip_node-forget WireType.uint64 ks ds h st = skip_exact-read_word 8 "uint64" Value.uint64 st
skip_node-forget WireType.double ks ds h st = skip_exact-read_word 8 "double" Value.double st
skip_node-forget WireType.string32 ks ds h st =
    skip_blob-forget WireType.string32 st ∙ pure-forget (read_blob WireType.string32 st) Value.bytes
skip_node-forget WireType.yson32 ks ds h st =
    skip_blob-forget WireType.yson32 st ∙ pure-forget (read_blob WireType.yson32 st) Value.yson
skip_node-forget WireType.variant8 ks ds h st = skip_variant-forget ks ds h WireType.variant8 st
skip_node-forget WireType.variant16 ks ds h st = skip_variant-forget ks ds h WireType.variant16 st
skip_node-forget WireType.repeated_variant8 ks ds h st =
    skip_repeated-forget ks ds h WireType.repeated_variant8 st
skip_node-forget WireType.repeated_variant16 ks ds h st =
    skip_repeated-forget ks ds h WireType.repeated_variant16 st
skip_node-forget WireType.tuple ks ds h st =
    skip_tuple-forget ks ds h st ∙ pure-forget (decode_tuple ds st) Value.tuple

mutual
  unfolding skip_value decode_value

  skip_forget :
      (value_size : ℕ) (s : Schema) → Skips (skip_value value_size s) (decode_value value_size s)
  skip_forget value_size (node t name children) st =
      continue_forget (charge value_size st) _ _ (λ u st'.
        skip_node-forget t (skippers value_size children) (decoders value_size children)
          (skip_forget_all value_size children) st')

  skip_forget_all :
      (value_size : ℕ) (ss : Schemas) → SkipsAll (skippers value_size ss) (decoders value_size ss)
  skip_forget_all value_size nil = tt
  skip_forget_all value_size (cons s ss) = (skip_forget value_size s, skip_forget_all value_size ss)

-- Skipping a value accepts and rejects what decoding it does, with the same error, and where it
-- accepts it leaves the same stream and budget; only the value is missing.
pub skip_value-decode_value :
    (value_size : ℕ) (s : Schema) (st : Stream)
    → skip_value value_size s st ≡ forget (decode_value value_size s st)
skip_value-decode_value value_size s st = skip_forget value_size s st
