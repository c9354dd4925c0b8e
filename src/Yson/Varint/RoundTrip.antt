-- ===== src/Yson/Varint/RoundTrip.antt =====
-- The reader on what `write_uvarint` wrote, whole and cut.
use ytsaurus_rs.Base.{
  ℕ, zero, suc, ◌+◌, ◌*◌, ◌/◌, ◌%◌, ◌^◌, ◌≤◌, ◌<◌, List, [], ◌++◌, length, take, ◌≡◌, ap, arith, ok,
  err, length-take,
}
use ytsaurus_rs.Yson.{unexpected_eof}
use ytsaurus_rs.Yson.Varint.{IsU64, read_uvarint_loop, read_uvarint, write_uvarint}
use ytsaurus_rs.Yson.Varint.Laws.{
  groups, low_next, write_uvarint-groups, shift_seven, read_more, read_last, read_nil,
}

-- The lowest group of `w` and the rest, both shifted by `s`.
group_apart : (s w : ℕ) → w * 2 ^ s ≡ w % 128 * 2 ^ s + w / 128 * 2 ^ (s + 7)
group_apart s w =
    let scaled : (w / 128 * 128 + w % 128) * 2 ^ s ≡ w * 2 ^ s =
      ap (λ total. total * 2 ^ s) (omega arith) in
    rw (shift_seven s) (omega (arith, scaled))

-- `w` is what is still to be read, from the byte `i` on.
read_loop-groups :
    (k total w i shift result : ℕ) (rest : List ℕ)
    → shift ≡ 7 * i
    → i + k ≤ 9
    → result < 2 ^ shift
    → w < 128 ^ suc k
    → IsU64 (result + w * 2 ^ shift)
    → read_uvarint_loop total (groups k w ++ rest) i shift result
      ≡ ok (result + w * 2 ^ shift, i + length (groups k w))
unfolding groups
read_loop-groups zero total w i shift result rest at hi low hw fits =
    read_last total rest w i shift result at (omega arith) low (omega arith) (omega arith) fits
read_loop-groups (suc k) total w i shift result rest at hi low hw fits = ground (
  arith,
  read_last total rest w i shift result at,
  group_apart shift w,
  low_next (w % 128) result shift,
  read_more total (groups k (w / 128) ++ rest) (w % 128 + 128) i shift result at,
  read_loop-groups k total (w / 128) (i + 1) (shift + 7) (result + w % 128 * 2 ^ shift) rest
      (omega arith),
)

pub read_uvarint-groups :
    (v : ℕ) (rest : List ℕ)
    → IsU64 v
    → read_uvarint (groups 9 v ++ rest) ≡ ok (v, length (groups 9 v))
unfolding read_uvarint
read_uvarint-groups v rest h =
    ground (arith, read_loop-groups 9 (length (groups 9 v ++ rest)) v 0 0 0 rest)

-- Reading what was written for a `u64` gives the number and the count of the bytes written, whatever follows.
pub read_uvarint-write_uvarint :
    (v : ℕ) (rest : List ℕ)
    → IsU64 v
    → read_uvarint (write_uvarint v [] ++ rest) ≡ ok (v, length (write_uvarint v []))
read_uvarint-write_uvarint v rest h =
    rw (write_uvarint-groups v [] h) (read_uvarint-groups v rest h)

-- A proper prefix of the groups ends inside the number.
read_loop-take :
    (k total w i shift result n : ℕ)
    → shift ≡ 7 * i
    → i + k ≤ 9
    → result < 2 ^ shift
    → n < length (groups k w)
    → read_uvarint_loop total (take n (groups k w)) i shift result ≡ err (unexpected_eof total)
unfolding groups
read_loop-take k total w i shift result zero at hi low hn = read_nil total i shift result
read_loop-take zero total w i shift result (suc n) at hi low hn = absurd (omega arith)
read_loop-take (suc k) total w i shift result (suc n) at hi low hn = ground (
  arith,
  low_next (w % 128) result shift,
  read_more total (take n (groups k (w / 128))) (w % 128 + 128) i shift result at,
  read_nil total (i + 1) (shift + 7) (result + w % 128 * 2 ^ shift),
  read_loop-take k total (w / 128) (i + 1) (shift + 7) (result + w % 128 * 2 ^ shift) n
      (omega arith),
)

-- Cut before its end, what was written for a `u64` reads as an unexpected end, at the length that is left.
pub read_uvarint_truncated :
    (v n : ℕ)
    → IsU64 v
    → n < length (write_uvarint v [])
    → read_uvarint (take n (write_uvarint v [])) ≡ err (unexpected_eof n)
unfolding read_uvarint
read_uvarint_truncated v n h hn =
    let e : write_uvarint v [] ≡ groups 9 v = write_uvarint-groups v [] h in
    let shorter : n < length (groups 9 v) = rw e at hn in
    let cut : length (take n (groups 9 v)) ≡ n = omega (arith, length-take n (groups 9 v)) in
    rw (e, cut) (read_loop-take 9 n v 0 0 0 n (omega arith) (omega arith) (omega arith) shorter)
