-- ===== src/Yson/Varint/Runs.antt =====
-- Concrete runs.
use ytsaurus_rs.Base.{◌≡◌, refl, [], ◌∷◌, ◌++◌, ok, err, length, take, ◌≤◌, arith}
use ytsaurus_rs.Yson.{unexpected_eof}
use ytsaurus_rs.Yson.Varint.{IsU64, read_uvarint, write_uvarint, write_varint, read_varint}
use ytsaurus_rs.Yson.Varint.RoundTrip.{read_uvarint-write_uvarint, read_uvarint_truncated}
use ytsaurus_rs.Yson.Varint.Bounds.{read_uvarint_bounds}
use ytsaurus_rs.Yson.Varint.Signed.{read_varint-write_varint}

write_300 : write_uvarint 300 (1 ∷ []) ≡ 1 ∷ 0xac ∷ 0x02 ∷ []
unfolding write_uvarint
write_300 = refl

read_300 : read_uvarint (0xac ∷ 0x02 ∷ 9 ∷ []) ≡ ok (300, 2)
unfolding read_uvarint
read_300 = refl

read_cut : read_uvarint (0xac ∷ []) ≡ err (unexpected_eof 1)
unfolding read_uvarint
read_cut = refl

write_minus_three : write_varint 0xffff_ffff_ffff_fffd [] ≡ 5 ∷ []
unfolding write_varint
write_minus_three = refl

read_minus_three : read_varint (5 ∷ []) ≡ ok (0xffff_ffff_ffff_fffd, 1)
unfolding read_varint
read_minus_three = refl

read_uvarint-write_uvarint_example :
    read_uvarint (write_uvarint 0xffff_ffff_ffff_ffff [] ++ (9 ∷ []))
    ≡ ok (0xffff_ffff_ffff_ffff, length (write_uvarint 0xffff_ffff_ffff_ffff []))
read_uvarint-write_uvarint_example =
    read_uvarint-write_uvarint 0xffff_ffff_ffff_ffff (9 ∷ []) (omega arith)

read_uvarint_truncated_example :
    read_uvarint (take 1 (write_uvarint 300 [])) ≡ err (unexpected_eof 1)
read_uvarint_truncated_example =
    read_uvarint_truncated 300 1 (omega arith) (unfold write_uvarint in omega arith)

read_uvarint_bounds_example : IsU64 300 × (1 ≤ 2) × (2 ≤ 10) × (2 ≤ 3)
read_uvarint_bounds_example =
    read_uvarint_bounds (0xac ∷ 0x02 ∷ 9 ∷ []) 300 2 (omega arith, (omega arith, (omega arith, tt)))
      read_300

read_varint-write_varint_example :
    read_varint (write_varint 0xffff_ffff_ffff_fffd [] ++ (1 ∷ []))
    ≡ ok (0xffff_ffff_ffff_fffd, length (write_varint 0xffff_ffff_ffff_fffd []))
read_varint-write_varint_example =
    read_varint-write_varint 0xffff_ffff_ffff_fffd (1 ∷ []) (omega arith)
