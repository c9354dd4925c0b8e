-- ===== src/Yson/Varint.antt =====
-- crates/ytsaurus-yson/src/varint.rs. A `u64` is a number below 2 ^ 64, an `i64` its bit pattern.
pub mod Laws
pub mod RoundTrip
pub mod Bounds
pub mod Signed
mod Runs
use mathlib.Core.Logic.{dite}
use mathlib.Core.WellFounded.{Acc}
use native.Mathlib.Decide.{dec_le}
use ytsaurus_rs.Base.{
  ℕ, ◌+◌, ◌-◌, ◌*◌, ◌/◌, ◌%◌, ◌^◌, ◌≤◌, ◌<◌, bit_and, bit_or, bit_xor, List, [], ◌∷◌, ◌++◌, length,
  ltb, leb, ◌==◌, if◌then◌else◌, ◌&&◌, arith, Result, ok, err, ◌>>=◌,
}
use ytsaurus_rs.Base.Order.{lt_wf}
use ytsaurus_rs.Yson.{YsonError, unexpected_eof, custom}

abbrev pub IsU64 : ℕ → Type 0
IsU64 v = v < 2 ^ 64

-- The loop over `input.iter().enumerate()`: what is left of the input, `i`, `shift` and `result`.
-- `total` is `input.len()`.
pub read_uvarint_loop : ℕ → List ℕ → ℕ → ℕ → ℕ → Result YsonError (ℕ × ℕ)
read_uvarint_loop total [] i shift result = err (unexpected_eof total)
read_uvarint_loop total (byte ∷ rest) i shift result =
    let bits = bit_and byte 0x7f in
    let result' = bit_or result (bits * 2 ^ shift % 2 ^ 64) in
    let more = read_uvarint_loop total rest (i + 1) (shift + 7) result' in
    if leb 10 i
    then err (custom "Varint too long (overflow u64)")
    else if shift == 63 && ltb 1 bits
    then err (custom "Varint overflows u64")
    else if bit_and byte 0x80 == 0
    then ok (result', i + 1)
    else more

-- The value and the count of the bytes that it takes.
unfoldable pub read_uvarint : List ℕ → Result YsonError (ℕ × ℕ)
unfolding read_uvarint_loop
read_uvarint input = read_uvarint_loop (length input) input 0 0 0

-- `((u >> 1) as i64) ^ (-((u & 1) as i64))`
pub unzigzag : ℕ → ℕ
unzigzag u = bit_xor (u / 2) ((2 ^ 64 - bit_and u 1) % 2 ^ 64)

unfoldable pub read_varint : List ℕ → Result YsonError (ℕ × ℕ)
unfolding read_uvarint unzigzag
read_varint input = do (u, consumed) ← read_uvarint input; ok (unzigzag u, consumed)

shift_shrinks : (v : ℕ) → 128 ≤ v → v / 128 < v
shift_shrinks v h = omega arith

pub write_uvarint_loop : (v : ℕ) → Acc ◌<◌ v → List ℕ → List ℕ
write_uvarint_loop v (Acc.intro _ smaller) buf =
    dite (dec_le 0x80 v)
      (λ more.
        write_uvarint_loop (v / 128) (smaller _ (shift_shrinks v more))
          (buf ++ (bit_or (v % 256) 0x80 ∷ [])))
      (λ _. buf ++ ((v % 256) ∷ []))

unfoldable pub write_uvarint : ℕ → List ℕ → List ℕ
unfolding write_uvarint_loop shift_shrinks lt_wf dec_le
write_uvarint v buf = write_uvarint_loop v (lt_wf.apply v) buf

-- `(val << 1) ^ (val >> 63)`: the shift to the right is arithmetic, so it copies the sign.
unfoldable pub zigzag : ℕ → ℕ
zigzag v = bit_xor (v * 2 % 2 ^ 64) (if leb (2 ^ 63) v then 2 ^ 64 - 1 else 0)

unfoldable pub write_varint : ℕ → List ℕ → List ℕ
unfolding write_uvarint zigzag
write_varint v buf = write_uvarint (zigzag v) buf
