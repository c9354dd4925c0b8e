-- ===== src/Rpc/Guid.antt =====
-- crates/ytsaurus-rpc/src/guid.rs: the binary forms of a GUID, which is its 16 bytes.
pub mod Forms
pub mod Fields
pub mod Text
pub mod Printed
mod Runs
use ytsaurus_rs.Base.{
  ℕ, List, [], ◌∷◌, ◌++◌, Bool, true, false, ◌==◌, ◌&&◌, from_le, le_bytes, slice, replicate,
}

-- `Guid::NULL`
abbrev pub null_guid : List ℕ
null_guid = replicate 16 0

unfoldable pub parts : List ℕ → ℕ × ℕ × ℕ × ℕ
parts g =
    (from_le (slice 0 4 g), from_le (slice 4 8 g), from_le (slice 8 12 g), from_le (slice 12 16 g))

unfoldable pub from_parts : ℕ × ℕ × ℕ × ℕ → List ℕ
from_parts (a, b, c, d) = le_bytes 4 a ++ (le_bytes 4 b ++ (le_bytes 4 c ++ le_bytes 4 d))

unfoldable pub halves : List ℕ → ℕ × ℕ
halves g = (from_le (slice 0 8 g), from_le (slice 8 16 g))

unfoldable pub from_halves : ℕ × ℕ → List ℕ
from_halves (first, second) = le_bytes 8 first ++ le_bytes 8 second

abbrev all_zero : List ℕ → Bool
all_zero [] = true
all_zero (b ∷ bs) = (b == 0) && all_zero bs

unfoldable pub is_null : List ℕ → Bool
is_null g = all_zero g
