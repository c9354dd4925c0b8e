-- ===== src/Skiff/Wire/Returned.antt =====
-- The steps of decoding, over the bytes that the steps of encoding write.
pub mod Children
pub mod Whole
pub mod Trees
pub mod Values
use Prim.Native.String.{String}
use ytsaurus_rs.Base.{
  ℕ, zero, suc, ◌+◌, ◌-◌, ◌*◌, ◌^◌, ◌%◌, ◌≤◌, ◌<◌, List, [], ◌∷◌, ◌++◌, append_assoc, length, take,
  drop, Bool, true, false, ltb, leb, ◌==◌, if◌then◌else◌, ◌≡◌, refl, sym, ap, ◌∙◌, arith, Result,
  ok, err, le_bytes, from_le, length-le_bytes, from_le-le_bytes, take-append, drop-append,
  length-append, Bool-cases, inl, inr, le→ltb, ltb→le, Result-cases,
}
use mathlib.Core.Path.{subst}
use ytsaurus_rs.Skiff.Schema.{WireType}
use ytsaurus_rs.Skiff.Wire.{
  CodecError, Written, ◌and_then◌, write_all, fail, write_prefixed, write_blob, check_blob_length,
  write_variant_tag, write_repeated_variant_end, is_narrow, blob_too_large,
  blob_length_overflows_u32, variant_tag_too_wide,
}
use ytsaurus_rs.Skiff.Wire.Decode.{
  Stream, M, pure, continue_with, ◌>>=◌, ◌>>◌, charge, read_exact, read_word, check_blob,
  lift_check, read_blob, read_variant_tag, is_repeated_variant_end,
}

-- Both steps of a chain that succeeds have succeeded.
pub and_then-eq-ok :
    (first later : Written) (bs : List ℕ)
    → (first and_then later) ≡ (ok tt, bs)
    → (front back : List ℕ) × (first ≡ (ok tt, front))
      × (later ≡ (ok tt, back))
      × (bs ≡ front ++ back)
and_then-eq-ok (ok u, front) (r, back) bs h =
    (front, back, refl, ap (λ (w : Written). (w.0, back)) h, ap (λ (w : Written). w.1) (sym h))
and_then-eq-ok (err e, front) later bs h = let e' = ap (λ (w : Written). w.0) h in cc

module _ (max limit : ℕ) where
  abbrev pub at : List ℕ → ℕ → Stream
  at input remaining = record {
    input = input;
    max_blob_bytes = max;
    limit = limit;
    remaining = remaining;
  }

  -- The step answers `a` for the bytes, takes them and spends the cost, whatever follows them.
  abbrev pub Returns {ℓ} : {A : Type ℓ} → M A → A → List ℕ → ℕ → Type ℓ
  Returns m a bs cost =
      (rest : List ℕ) (left : ℕ) → m (at (bs ++ rest) (cost + left)) ≡ ok (a, at rest left)

  pub Returns-bind {ℓ κ} :
      {A : Type ℓ} {B : Type κ} (m : M A) (f : A → M B) (a : A) (b : B) (front back : List ℕ)
      (cost cost' : ℕ)
      → Returns m a front cost
      → Returns (f a) b back cost'
      → Returns (m >>= f) b (front ++ back) (cost + cost')
  Returns-bind m f a b front back cost cost' h k rest left =
      let e : cost + cost' + left ≡ cost + (cost' + left) = omega arith in
      rw (append_assoc front back rest, e)
        (ap (λ r. continue_with r f) (h (back ++ rest) (cost' + left)) ∙ k rest left)

  -- A value is built from what was read.
  pub Returns-map {ℓ κ} :
      {A : Type ℓ} {B : Type κ} (m : M A) (build : A → B) (a : A) (bs : List ℕ) (cost : ℕ)
      → Returns m a bs cost
      → Returns (m >>= λ x. pure (build x)) (build a) bs cost
  Returns-map m build a bs cost h rest left =
      ap (λ r. continue_with r (λ x. pure (build x))) (h rest left)

  pub charge-Returns : (n : ℕ) → Returns (charge n) tt [] n
  unfolding charge
  charge-Returns n rest left =
      let enough : ltb (n + left) n ≡ false = ground arith in
      let e : n + left - n ≡ left = omega arith in rw (enough, e) refl

  pub read_exact-Returns :
      (n : ℕ) (context : String) (bs : List ℕ)
      → n ≡ length bs
      → Returns (read_exact n context) bs bs 0
  unfolding read_exact
  read_exact-Returns n context bs h rest left =
      let enough : ltb (length (bs ++ rest)) n ≡ false =
        le→ltb _ _ (omega (arith, h, length-append bs rest)) in
      let e : 0 + left ≡ left = omega arith in
      rw (enough, take-append n bs rest h, drop-append n bs rest h, e) refl

  pub read_word-Returns :
      (n : ℕ) (context : String) (w : ℕ)
      → w < 256 ^ n
      → Returns (read_word n context) w (le_bytes n w) 0
  unfolding read_word
  read_word-Returns n context w h rest left =
      ap (λ r. continue_with r (λ bs. pure (from_le bs)))
        (read_exact-Returns n context (le_bytes n w) (sym (length-le_bytes n w)) rest left)
      ∙ ap (λ x. ok (x, at rest left)) (from_le-le_bytes n w h)

  check_blob-Returns :
      (t : WireType) (n : ℕ) → check_blob_length t n max ≡ ok tt → Returns (check_blob t n) tt [] 0
  check_blob-Returns t n h rest left =
      let e : 0 + left ≡ left = omega arith in rw e (ap (λ r. lift_check r (at rest left)) h)

  pub Returns-cost {ℓ} :
      {A : Type ℓ} (m : M A) (a : A) (bs : List ℕ) (cost cost' : ℕ)
      → cost ≡ cost'
      → Returns m a bs cost
      → Returns m a bs cost'
  Returns-cost m a bs cost cost' e h = subst (Returns m a bs) e h

  read_prefixed-Returns :
      (t : WireType) (bs : List ℕ)
      → check_blob_length t (length bs) max ≡ ok tt
      → length bs < 2 ^ 32
      → Returns (read_blob t) bs (le_bytes 4 (length bs) ++ bs) (length bs)
  unfolding read_blob
  read_prefixed-Returns t bs fits short =
      let n : ℕ = length bs in
      Returns-cost (read_blob t) bs (le_bytes 4 n ++ bs) (0 + (0 + (n + 0))) n (omega arith) (
        Returns-bind (read_word 4 "blob length")
          (λ m. check_blob t m >> (charge m >> read_exact m "blob payload")) n bs (le_bytes 4 n) bs
          0 (0 + (n + 0)) (read_word-Returns 4 "blob length" n (omega (arith, short)))
          (Returns-bind (check_blob t n) (λ u. charge n >> read_exact n "blob payload") tt bs [] bs
            0 (n + 0) (check_blob-Returns t n fits)
            (Returns-bind (charge n) (λ u. read_exact n "blob payload") tt bs [] bs n 0
              (charge-Returns n) (read_exact-Returns n "blob payload" bs refl))))

  pub read_blob-Returns :
      (t : WireType) (bs out : List ℕ)
      → write_blob t bs max ≡ (ok tt, out)
      → Returns (read_blob t) bs out (length bs)
  unfolding write_blob
  read_blob-Returns t bs out h = go (check_blob_length t (length bs) max) refl h
    where
      written :
          (long : Bool)
          → leb (2 ^ 32) (length bs) ≡ long
          → check_blob_length t (length bs) max ≡ ok tt
          → (if long
              then fail (blob_length_overflows_u32 t (length bs))
              else write_all (le_bytes 4 (length bs)) and_then write_all bs)
            ≡ (ok tt, out)
          → Returns (read_blob t) bs out (length bs)
      written true same fits k = let e' = ap (λ (w : Written). w.0) k in cc
      written false same fits k =
          subst (λ o. Returns (read_blob t) bs o (length bs)) (ap (λ (w : Written). w.1) k)
            (read_prefixed-Returns t bs fits (ground arith))

      go :
          (checked : Result CodecError (Unit {0}))
          → check_blob_length t (length bs) max ≡ checked
          → (elim checked [ err e ↦ fail e | ok _ ↦ write_prefixed t bs ]) ≡ (ok tt, out)
          → Returns (read_blob t) bs out (length bs)
      go (err e) same k = let e' = ap (λ (w : Written). w.0) k in cc
      go (ok u) same k = written (leb (2 ^ 32) (length bs)) refl same k

  pub read_variant_tag-Returns :
      (t : WireType) (tag : ℕ) (bs : List ℕ)
      → tag < 2 ^ 16
      → write_variant_tag t tag ≡ (ok tt, bs)
      → Returns (read_variant_tag t) tag bs 0
  unfolding read_variant_tag write_variant_tag
  read_variant_tag-Returns t tag bs small h = go (is_narrow t) (leb 256 tag) refl h
    where
      go :
          (narrow wide : Bool)
          → leb 256 tag ≡ wide
          → (if narrow
              then if wide then fail (variant_tag_too_wide t tag) else write_all (tag ∷ [])
              else write_all (le_bytes 2 tag))
            ≡ (ok tt, bs)
          → Returns
              (if narrow then read_word 1 "variant8 tag" else read_word 2 "variant16 tag")
              tag
              bs
              0
      go true true same k = let e' = ap (λ (w : Written). w.0) k in cc
      go true false same k =
          let fits : tag < 256 ^ 1 = ground arith in
          let e : tag % 256 ≡ tag = omega (arith, fits) in
          subst (λ o. Returns (read_word 1 "variant8 tag") tag o 0)
            (ap (λ x. x ∷ []) e ∙ ap (λ (w : Written). w.1) k)
            (read_word-Returns 1 "variant8 tag" tag fits)
      go false wide same k =
          subst (λ o. Returns (read_word 2 "variant16 tag") tag o 0) (ap (λ (w : Written). w.1) k)
            (read_word-Returns 2 "variant16 tag" tag (omega (arith, small)))
