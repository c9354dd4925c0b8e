-- ===== src/Base/Bytes.antt =====
-- Little-endian words, as `to_le_bytes` and `from_le_bytes` of the standard library lay them out.
use Prim.Native.Nat.{ℕ, zero, suc, ◌+◌, ◌*◌, ◌/◌, ◌%◌, ◌^◌, ◌<◌}
use mathlib.Core.Path.{◌≡◌, refl, ap, sym, ◌∙◌}
use mathlib.Core.List.{List, [], ◌∷◌, ◌++◌, append_assoc}
use native.Mathlib.Omega.{arith}
use native.Mathlib.Nat.{pow-suc}
use ytsaurus_rs.Base.Lists.{length, All, take, drop, length-append, drop-append, take-append}

abbrev pub IsByte : ℕ → Type 0
IsByte b = b < 256

abbrev pub le_bytes : ℕ → ℕ → List ℕ
le_bytes zero v = []
le_bytes (suc n) v = (v % 256) ∷ le_bytes n (v / 256)

abbrev pub from_le : List ℕ → ℕ
from_le [] = 0
from_le (b ∷ bs) = b + 256 * from_le bs

pub length-le_bytes : (n v : ℕ) → length (le_bytes n v) ≡ n
length-le_bytes zero v = refl
length-le_bytes (suc n) v = ap suc (length-le_bytes n (v / 256))

pub le_bytes-IsByte : (n v : ℕ) → All IsByte (le_bytes n v)
le_bytes-IsByte zero v = tt
le_bytes-IsByte (suc n) v = (omega arith, le_bytes-IsByte n (v / 256))

-- A word of `n` bytes that is below `256 ^ n` is read back.
pub from_le-le_bytes : (n v : ℕ) → v < 256 ^ n → from_le (le_bytes n v) ≡ v
from_le-le_bytes zero v h = omega arith
from_le-le_bytes (suc n) v h =
    omega (arith, from_le-le_bytes n (v / 256) (omega (arith, pow-suc 256 n)))

pub from_le-lt : (bs : List ℕ) → All IsByte bs → from_le bs < 256 ^ length bs
from_le-lt [] h = omega arith
from_le-lt (b ∷ bs) h = omega (arith, h.0, from_le-lt bs h.1, pow-suc 256 (length bs))

pub le_bytes-from_le : (bs : List ℕ) → All IsByte bs → le_bytes (length bs) (from_le bs) ≡ bs
le_bytes-from_le [] h = refl
le_bytes-from_le (b ∷ bs) h =
    let low : (b + 256 * from_le bs) % 256 ≡ b = omega (arith, h.0) in
    let high : (b + 256 * from_le bs) / 256 ≡ from_le bs = omega (arith, h.0) in
    rw (low, high, le_bytes-from_le bs h.1)

-- The words of `width` bytes that stand one after the other from `offset` on.
abbrev pub words : ℕ → ℕ → ℕ → List ℕ → List ℕ
words width offset zero bytes = []
words width offset (suc n) bytes =
    from_le (take width (drop offset bytes)) ∷ words width (offset + width) n bytes

-- Words laid out one after the other.
abbrev pub put_words : ℕ → List ℕ → List ℕ
put_words width [] = []
put_words width (v ∷ vs) = le_bytes width v ++ put_words width vs

pub length-put_words : (width : ℕ) (vs : List ℕ) → length (put_words width vs) ≡ width * length vs
length-put_words width [] = omega arith
length-put_words width (v ∷ vs) = omega (
  arith,
  length-append (le_bytes width v) (put_words width vs),
  length-le_bytes width v,
  length-put_words width vs,
)

pub words-put_words :
    (width : ℕ) (vs before rest bytes : List ℕ) (offset : ℕ)
    → All (λ v. v < 256 ^ width) vs
    → offset ≡ length before
    → bytes ≡ before ++ (put_words width vs ++ rest)
    → words width offset (length vs) bytes ≡ vs
words-put_words width [] before rest bytes offset fits at e = refl
words-put_words width (v ∷ vs) before rest bytes offset fits at e = rw (
  first,
  words-put_words width vs (before ++ le_bytes width v) rest bytes (offset + width) fits.1
      (omega (arith, length-append before (le_bytes width v), length-le_bytes width v)) e',
)
  where
    tail_bytes : List ℕ
    tail_bytes = put_words width vs ++ rest

    here : drop offset bytes ≡ le_bytes width v ++ tail_bytes
    here =
        rw e (
          drop-append offset before _ at
          ∙ append_assoc (le_bytes width v) (put_words width vs) rest)

    first : from_le (take width (drop offset bytes)) ≡ v
    first =
        rw (here, take-append width (le_bytes width v) tail_bytes (sym (length-le_bytes width v)))
          (from_le-le_bytes width v fits.0)

    e' : bytes ≡ (before ++ le_bytes width v) ++ tail_bytes
    e' =
        e
        ∙ ap (◌++◌ before) (append_assoc (le_bytes width v) (put_words width vs) rest)
        ∙ sym (append_assoc before (le_bytes width v) tail_bytes)
