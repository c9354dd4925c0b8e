-- ===== src/Rpc/Crc64.antt =====
-- crates/ytsaurus-rpc/src/crc64.rs. A `u64` register is a number below 2 ^ 64.
pub mod Laws
mod Runs
use ytsaurus_rs.Base.{
  ℕ, zero, suc, ◌+◌, ◌*◌, ◌/◌, ◌%◌, ◌^◌, bit_and, bit_xor, List, [], ◌∷◌, le_bytes, get_or, ◌==◌,
  if◌then◌else◌, not,
}

abbrev pub polynomial : ℕ
polynomial = 0xe543_2797_6592_7881

-- The number whose little-endian bytes are those of `v` in reverse: `u64::swap_bytes`.
abbrev from_be : ℕ → List ℕ → ℕ
from_be acc [] = acc
from_be acc (b ∷ bs) = from_be (acc * 256 + b) bs

unfoldable pub swap_bytes : ℕ → ℕ
swap_bytes v = from_be 0 (le_bytes 8 v)

-- The inner loop of `build_table`, with the rounds that are left.
table_bits : ℕ → ℕ → ℕ
table_bits zero register = register
table_bits (suc left) register = table_bits left (
    if bit_and register (2 ^ 63) == 0
    then register * 2 % 2 ^ 64
    else bit_xor (register * 2 % 2 ^ 64) polynomial)

unfoldable pub table_entry : ℕ → ℕ
unfolding table_bits swap_bytes
table_entry index = swap_bytes (table_bits 8 (index * 2 ^ 56))

-- The outer loop, from `index` on.
table_loop : ℕ → ℕ → List ℕ
table_loop zero index = []
table_loop (suc left) index = table_entry index ∷ table_loop left (index + 1)

unfoldable pub table : List ℕ
unfolding table_loop table_entry
table = table_loop 256 0

-- `Crc64` holds its register alone. The index is below 256, so it is in range.
pub update_byte : ℕ → ℕ → ℕ
unfolding table
update_byte register byte =
    bit_xor (get_or table (bit_and (bit_xor register byte) 0xff) 0) (register / 2 ^ 8)

pub update : ℕ → List ℕ → ℕ
update register [] = register
update register (byte ∷ bytes) = update (update_byte register byte) bytes

abbrev pub new : ℕ
new = 0

pub chain : ℕ → List ℕ → ℕ
unfolding update
chain register bytes = update register bytes

pub finish : ℕ → ℕ
unfolding swap_bytes
finish register = swap_bytes register

unfoldable pub checksum : List ℕ → ℕ
unfolding chain finish update_byte
checksum bytes = finish (chain new bytes)
