-- ===== src/Yson/Varint/Bounds.antt =====
-- What `read_uvarint` answers on any input, well formed or not.
use ytsaurus_rs.Base.{
  ℕ, ◌+◌, ◌*◌, ◌%◌, ◌^◌, ◌≤◌, ◌<◌, List, [], ◌∷◌, ◌++◌, length, ◌≡◌, ◌≢◌, refl, arith, false, ok,
  err, Result-cases, inl, inr, >>=-eq-ok, All, IsByte, bit_and, bit_or,
}
use native.Mathlib.Decide.{dec_le}
use ytsaurus_rs.Base.Bits.{low_seven_bits, top_bit}
use ytsaurus_rs.Yson.{YsonError, is_open, out_of_fuel}
use ytsaurus_rs.Yson.Varint.{read_varint, IsU64, read_uvarint_loop, read_uvarint}
use ytsaurus_rs.Yson.Varint.Laws.{read_more, read_last, shift_fits, shift_seven, low_next}

-- After the tenth byte nothing is read.
read_eleventh :
    (total : ℕ) (input : List ℕ) (shift result : ℕ) (p : ℕ × ℕ)
    → read_uvarint_loop total input 10 shift result ≢ ok p
unfolding read_uvarint_loop
read_eleventh total [] shift result p e = cc
read_eleventh total (b ∷ rest) shift result p e = cc

-- The tenth byte holds the top bit of the number, and ends it.
read_tenth :
    (total b : ℕ) (rest : List ℕ) (result v n : ℕ)
    → b < 256
    → result < 2 ^ 63
    → read_uvarint_loop total (b ∷ rest) 9 63 result ≡ ok (v, n)
    → IsU64 v × (n ≡ 10)
read_tenth total b rest result v n byte low e = elim (dec_le b 1) [
  | yes one ↦
      let fits : IsU64 (result + b * 2 ^ 63) = omega arith in
      ground (arith, read_last total rest b 9 63 result refl byte low)
  | no more ↦ absurd (
      unfold read_uvarint_loop in
      ground (
        arith,
        low_seven_bits b byte,
        top_bit b byte,
        read_eleventh total rest 70 (bit_or result (bit_and b 127 * 2 ^ 63 % 2 ^ 64)) (v, n),
      ))
]

module _ (total : ℕ) where
  read_loop_bounds :
      (input : List ℕ) (i shift result v n : ℕ)
      → shift ≡ 7 * i
      → i ≤ 9
      → result < 2 ^ shift
      → All IsByte input
      → read_uvarint_loop total input i shift result ≡ ok (v, n)
      → IsU64 v × (i < n) × (n ≤ 10) × (n ≤ i + length input)
  read_loop_bounds [] i shift result v n at hi low bytes e = unfold read_uvarint_loop in cc
  read_loop_bounds (b ∷ rest) i shift result v n at hi low bytes e = elim (dec_le i 8) [
    | yes inner ↦
        let wide : 2 ^ shift ≤ 2 ^ 56 = shift_fits i shift at inner in
        elim (dec_le 128 b) [
          | yes top ↦ ground (
            arith,
            low_next (b % 128) result shift,
            read_more total rest b i shift result at,
            read_loop_bounds rest (i + 1) (shift + 7) (result + b % 128 * 2 ^ shift) v n,
          )
          | no end ↦
              let small : b < 128 = omega arith in
              let fits : IsU64 (result + b * 2 ^ shift) =
                omega (arith, low_next b result shift small low, shift_seven shift) in
              ground (arith, read_last total rest b i shift result at)
        ]
    | no last ↦
        let ei : i ≡ 9 = omega arith in
        let es : shift ≡ 63 = omega arith in
        let low' : result < 2 ^ 63 = rw es at low in
        let e' : read_uvarint_loop total (b ∷ rest) 9 63 result ≡ ok (v, n) = rw (ei, es) at e in
        omega (arith, read_tenth total b rest result v n bytes.0 low' e')
  ]

-- A number that is read from bytes is a `u64`, and takes between one and ten bytes of the input.
pub read_uvarint_bounds :
    (input : List ℕ) (v n : ℕ)
    → All IsByte input
    → read_uvarint input ≡ ok (v, n)
    → IsU64 v × (1 ≤ n) × (n ≤ 10) × (n ≤ length input)
unfolding read_uvarint
read_uvarint_bounds input v n h e =
    omega
      (arith, read_loop_bounds (length input) input 0 0 0 v n refl (omega arith) (omega arith) h e)

-- The loop stops at the end of a number.
read_loop-append :
    (input more : List ℕ) (total total' i shift result : ℕ) (p : ℕ × ℕ)
    → read_uvarint_loop total input i shift result ≡ ok p
    → read_uvarint_loop total' (input ++ more) i shift result ≡ ok p
unfolding read_uvarint_loop
read_loop-append [] more total total' i shift result p e = cc
read_loop-append (b ∷ rest) more total total' i shift result p e = ground (
  arith,
  read_loop-append rest more total total' (i + 1) (shift + 7)
      (bit_or result (bit_and b 0x7f * 2 ^ shift % 2 ^ 64)) p,
)

-- Bytes behind a number that is read do not change it, nor the count of its bytes.
pub read_uvarint-append :
    (input more : List ℕ) (p : ℕ × ℕ)
    → read_uvarint input ≡ ok p
    → read_uvarint (input ++ more) ≡ ok p
unfolding read_uvarint
read_uvarint-append input more p e =
    read_loop-append input more (length input) (length (input ++ more)) 0 0 0 p e

read_loop-le :
    (total : ℕ) (input : List ℕ) (i shift result v n : ℕ)
    → read_uvarint_loop total input i shift result ≡ ok (v, n)
    → (i + 1 ≤ n) × (n ≤ i + length input)
unfolding read_uvarint_loop
read_loop-le total [] i shift result v n e = cc
read_loop-le total (b ∷ rest) i shift result v n e = ground (
  arith,
  read_loop-le total rest (i + 1) (shift + 7) (bit_or result (bit_and b 0x7f * 2 ^ shift % 2 ^ 64))
      v n,
)

pub read_uvarint-le :
    (input : List ℕ) (v n : ℕ) → read_uvarint input ≡ ok (v, n) → (1 ≤ n) × (n ≤ length input)
unfolding read_uvarint
read_uvarint-le input v n e = omega (arith, read_loop-le (length input) input 0 0 0 v n e)

-- An error that is not open is one of the bytes that are there.
read_loop-err :
    (input more : List ℕ) (total total' i shift result : ℕ) (e : YsonError)
    → read_uvarint_loop total input i shift result ≡ err e
    → is_open e ≡ false
    → read_uvarint_loop total' (input ++ more) i shift result ≡ err e
unfolding read_uvarint_loop
read_loop-err [] more total total' i shift result e h closed = cc
read_loop-err (b ∷ rest) more total total' i shift result e h closed = ground (
  arith,
  read_loop-err rest more total total' (i + 1) (shift + 7)
      (bit_or result (bit_and b 0x7f * 2 ^ shift % 2 ^ 64)) e,
)

pub read_uvarint-err :
    (input more : List ℕ) (e : YsonError)
    → read_uvarint input ≡ err e
    → is_open e ≡ false
    → read_uvarint (input ++ more) ≡ err e
unfolding read_uvarint
read_uvarint-err input more e h closed =
    read_loop-err input more (length input) (length (input ++ more)) 0 0 0 e h closed

-- The same for signed numbers.
module _ (input : List ℕ) where
  pub read_varint-append :
      (more : List ℕ) (p : ℕ × ℕ) → read_varint input ≡ ok p → read_varint (input ++ more) ≡ ok p
  unfolding read_varint
  read_varint-append more p h =
      let ((u, n), e, h') = >>=-eq-ok (read_uvarint input) _ h in
      rw (read_uvarint-append input more (u, n) e) h'

  pub read_varint-le : (v n : ℕ) → read_varint input ≡ ok (v, n) → (1 ≤ n) × (n ≤ length input)
  unfolding read_varint
  read_varint-le v n h =
      let ((u, k), e, h') = >>=-eq-ok (read_uvarint input) _ h in
      let same : k ≡ n = cc in rw (← same) (read_uvarint-le input u k e)

  pub read_varint-err :
      (more : List ℕ) (e : YsonError)
      → read_varint input ≡ err e
      → is_open e ≡ false
      → read_varint (input ++ more) ≡ err e
  unfolding read_varint
  read_varint-err more e h closed = elim (Result-cases (read_uvarint input)) [
    | inl (p, found) ↦ cc
    | inr (e', failed) ↦
        let same : e' ≡ e = cc in
        rw (read_uvarint-err input more e' failed (rw same closed)) (rw same refl)
  ]

read_loop-out_of_fuel :
    (total : ℕ) (input : List ℕ) (i shift result : ℕ)
    → read_uvarint_loop total input i shift result ≢ err out_of_fuel
unfolding read_uvarint_loop
read_loop-out_of_fuel total [] i shift result e = cc
read_loop-out_of_fuel total (b ∷ rest) i shift result e = ground (
  arith,
  read_loop-out_of_fuel total rest (i + 1) (shift + 7)
      (bit_or result (bit_and b 0x7f * 2 ^ shift % 2 ^ 64)),
)

pub read_uvarint-out_of_fuel : (input : List ℕ) → read_uvarint input ≢ err out_of_fuel
unfolding read_uvarint
read_uvarint-out_of_fuel input = read_loop-out_of_fuel (length input) input 0 0 0

pub read_varint-out_of_fuel : (input : List ℕ) → read_varint input ≢ err out_of_fuel
unfolding read_varint
read_varint-out_of_fuel input h = elim (Result-cases (read_uvarint input)) [
  | inl (p, found) ↦ cc
  | inr (e, failed) ↦
      let same : e ≡ out_of_fuel = cc in read_uvarint-out_of_fuel input (rw failed (rw same refl))
]
