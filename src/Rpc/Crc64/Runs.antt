-- ===== src/Rpc/Crc64/Runs.antt =====
-- The first vectors of the reference implementation, which the unit tests of the source list.
use ytsaurus_rs.Base.{◌≡◌, refl, [], ◌∷◌}
use ytsaurus_rs.Rpc.Crc64.{checksum}

checksum_nothing : checksum [] ≡ 0
unfolding checksum
checksum_nothing = refl

checksum_a : checksum (b'a' ∷ []) ≡ 0x74b4_2565_ce62_32d5
unfolding checksum
checksum_a = refl

checksum_abcd : checksum (b'a' ∷ b'b' ∷ b'c' ∷ b'd' ∷ []) ≡ 0xd35b_5423_4f7f_70a0
unfolding checksum
checksum_abcd = refl
