-- ===== src/Rpc/Crc64/Laws.antt =====
-- The width of the checksum, and checksums of parts.
use ytsaurus_rs.Base.{ℕ, ◌^◌, ◌<◌, List, [], ◌∷◌, ◌++◌, ◌≡◌, refl, arith}
use ytsaurus_rs.Rpc.Crc64.{swap_bytes, update_byte, chain, checksum, new}

swap_bytes-lt : (v : ℕ) → swap_bytes v < 2 ^ 64
unfolding swap_bytes
swap_bytes-lt v = omega arith

pub checksum-lt : (bytes : List ℕ) → checksum bytes < 2 ^ 64
unfolding checksum
checksum-lt bytes = swap_bytes-lt (chain new bytes)

-- Feeding two parts one after the other is feeding them joined.
pub chain-append :
    (register : ℕ) (xs ys : List ℕ) → chain register (xs ++ ys) ≡ chain (chain register xs) ys
unfolding chain
chain-append register [] ys = refl
chain-append register (x ∷ xs) ys = chain-append (update_byte register x) xs ys
