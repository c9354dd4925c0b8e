-- ===== src/Yson/Varint/Laws.antt =====
-- The loops of the varint readers and writers, one step at a time.
use mathlib.Core.WellFounded.{Acc}
use native.Mathlib.Nat.{pow-le-pow_right, mod-eq_of_lt}
use native.Mathlib.Numerals.{towards_suc}
use ytsaurus_rs.Base.{
  ℕ, zero, suc, ◌+◌, ◌*◌, ◌/◌, ◌%◌, ◌^◌, ◌≤◌, ◌<◌, bit_or, List, [], ◌∷◌, ◌++◌, length, ltb, ◌≡◌,
  true, false, arith, refl, ok, err, append_assoc,
}
use ytsaurus_rs.Base.Bits.{low_seven_bits, top_bit, set_top_bit, bit_or_shifted}
use ytsaurus_rs.Base.Order.{lt_wf}
use ytsaurus_rs.Yson.{unexpected_eof}
use ytsaurus_rs.Yson.Varint.{IsU64, read_uvarint_loop, write_uvarint_loop, write_uvarint}

-- The groups of seven bits of `v`, lowest first, for `v` below 128 ^ (k + 1).
unfoldable pub groups : ℕ → ℕ → List ℕ
groups zero v = v ∷ []
groups (suc k) v =
    let rest = groups k (v / 128) in
    elim (ltb v 128) [ true ↦ v ∷ [] | false ↦ (v % 128 + 128) ∷ rest ]

write_uvarint_loop-groups :
    (k : ℕ) (buf : List ℕ) (v : ℕ) (w : Acc ◌<◌ v)
    → v < 128 ^ suc k
    → write_uvarint_loop v w buf ≡ buf ++ groups k v
unfolding write_uvarint_loop groups
write_uvarint_loop-groups zero buf v (Acc.intro _ smaller) h = ground arith
write_uvarint_loop-groups (suc k) buf v (Acc.intro _ smaller) h =
    let head : List ℕ = (v % 128 + 128) ∷ [] in
    grind (
      arith,
      set_top_bit (v % 256) (omega arith),
      λ (w : Acc ◌<◌ (v / 128)).
          write_uvarint_loop-groups k (buf ++ head) (v / 128) w (omega arith),
      append_assoc buf head (groups k (v / 128)),
    )

-- A `u64` is written as its groups, behind what the buffer holds.
pub write_uvarint-groups :
    (v : ℕ) (buf : List ℕ) → IsU64 v → write_uvarint v buf ≡ buf ++ groups 9 v
unfolding write_uvarint
write_uvarint-groups v buf h = write_uvarint_loop-groups 9 buf v (lt_wf.apply v) (omega arith)

pub length-groups : (k v : ℕ) → (1 ≤ length (groups k v)) × (length (groups k v) ≤ k + 1)
unfolding groups
length-groups zero v = omega arith
length-groups (suc k) v = ground (arith, length-groups k (v / 128))

pub shift_seven : (s : ℕ) → 2 ^ (s + 7) ≡ 128 * 2 ^ s
shift_seven s = simp towards_suc (omega arith)

-- The low part of the number read so far stays below the next shift.
pub low_next : (g r s : ℕ) → g < 128 → r < 2 ^ s → r + g * 2 ^ s < 2 ^ (s + 7)
low_next g r s hg hr = grind (arith, shift_seven s)

-- Below the tenth byte nothing is shifted out.
pub shift_fits : (i shift : ℕ) → shift ≡ 7 * i → i ≤ 8 → 2 ^ shift ≤ 2 ^ 56
shift_fits i shift e h = pow-le-pow_right {n = 2} (omega arith) {j = 56} (omega arith)

or_fits :
    (result bits shift : ℕ)
    → result < 2 ^ shift
    → bits * 2 ^ shift < 2 ^ 64
    → bit_or result (bits * 2 ^ shift % 2 ^ 64) ≡ result + bits * 2 ^ shift
or_fits result bits shift h fits = rw (mod-eq_of_lt fits) (bit_or_shifted shift result bits h)

module _ (total : ℕ) (rest : List ℕ) (b i shift result : ℕ) (at : shift ≡ 7 * i) (byte : b < 256)
    (low : result < 2 ^ shift) where
  -- A byte with the top bit set, among the first nine.
  pub read_more :
      i ≤ 8
      → 128 ≤ b
      → read_uvarint_loop total (b ∷ rest) i shift result
        ≡ read_uvarint_loop total rest (i + 1) (shift + 7) (result + b % 128 * 2 ^ shift)
  unfolding read_uvarint_loop
  read_more hi top =
      let fits : b % 128 * 2 ^ shift < 2 ^ 64 = grind (arith, shift_fits i shift at hi) in
      ground (arith, low_seven_bits b byte, top_bit b byte, or_fits result (b % 128) shift low fits)

  -- A byte with the top bit clear, where the number fits.
  pub read_last :
      i ≤ 9
      → b < 128
      → IsU64 (result + b * 2 ^ shift)
      → read_uvarint_loop total (b ∷ rest) i shift result ≡ ok (result + b * 2 ^ shift, i + 1)
  unfolding read_uvarint_loop
  read_last hi top fits =
      ground
        (arith, low_seven_bits b byte, top_bit b byte, or_fits result b shift low (omega arith))

pub read_nil :
    (total i shift result : ℕ)
    → read_uvarint_loop total [] i shift result ≡ err (unexpected_eof total)
unfolding read_uvarint_loop
read_nil total i shift result = refl
