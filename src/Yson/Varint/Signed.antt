-- ===== src/Yson/Varint/Signed.antt =====
-- The zigzag mapping and the signed varints.
use ytsaurus_rs.Base.{
  ℕ, ◌+◌, ◌-◌, ◌*◌, ◌/◌, ◌%◌, ◌^◌, List, [], ◌++◌, length, leb, if◌then◌else◌, bit_and, ◌≡◌, arith,
  ok,
}
use ytsaurus_rs.Base.Bits.{bit_xor_ones, bit_xor-zero, bit_and_step, bit_and-zero}
use ytsaurus_rs.Yson.Varint.{IsU64, read_varint, write_varint, zigzag, unzigzag}
use ytsaurus_rs.Yson.Varint.RoundTrip.{read_uvarint-write_uvarint}

bit_and-one : (a : ℕ) → bit_and a 1 ≡ a % 2
bit_and-one a = omega (arith, bit_and_step a 1, bit_and-zero (a / 2))

-- The 64-bit pattern of a number from 0 on is doubled; that of -n - 1 gives 2n + 1.
pub zigzag_lem :
    (v : ℕ) → IsU64 v → zigzag v ≡ (if leb (2 ^ 63) v then 2 * (2 ^ 64 - 1 - v) + 1 else 2 * v)
unfolding zigzag
zigzag_lem v h =
    ground (arith, bit_xor_ones 64 (v * 2 % 2 ^ 64) (2 ^ 64 - 1), bit_xor-zero (v * 2 % 2 ^ 64))

pub unzigzag_lem :
    (u : ℕ) → IsU64 u → unzigzag u ≡ (if leb (u % 2) 0 then u / 2 else 2 ^ 64 - 1 - u / 2)
unfolding unzigzag
unzigzag_lem u h =
    ground (arith, bit_and-one u, bit_xor_ones 64 (u / 2) (2 ^ 64 - 1), bit_xor-zero (u / 2))

zigzag-lt : (v : ℕ) → IsU64 v → IsU64 (zigzag v)
zigzag-lt v h = ground (arith, zigzag_lem v h)

unzigzag-zigzag : (v : ℕ) → IsU64 v → unzigzag (zigzag v) ≡ v
unzigzag-zigzag v h = ground (arith, zigzag_lem v h, unzigzag_lem (zigzag v) (zigzag-lt v h))

-- A signed 64-bit number is read back with the count of its bytes, whatever follows.
pub read_varint-write_varint :
    (v : ℕ) (rest : List ℕ)
    → IsU64 v
    → read_varint (write_varint v [] ++ rest) ≡ ok (v, length (write_varint v []))
unfolding read_varint write_varint
read_varint-write_varint v rest h =
    rw (read_uvarint-write_uvarint (zigzag v) rest (zigzag-lt v h), unzigzag-zigzag v h)
