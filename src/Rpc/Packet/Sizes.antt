-- ===== src/Rpc/Packet/Sizes.antt =====
-- The sizes of the parts: what `validate` checks, what the tables hold, and what `encode` writes.
use ytsaurus_rs.Base.{
  ℕ, ◌+◌, ◌≤◌, List, [], ◌∷◌, ◌++◌, map, length, All, drop, take, ◌∙◌, none, some, ◌==◌, zip, ◌≡◌,
  ◌↔◌, refl, arith, ok, take-append, drop-append, false, append_assoc, length-append,
}
use ytsaurus_rs.Rpc.Crc64.{checksum}
use ytsaurus_rs.Rpc.Packet.{
  Part, Packet, PacketError, part_size, part_checksum, part_bytes, payload, payload_length,
  max_part_size, max_part_count, null_part_size, validate_parts, validate, part_checksum_mismatch,
}
use ytsaurus_rs.Rpc.Packet.Decode.{payload_size, read_parts, verify, push_part}

abbrev pub FitsPart : Part → Type 0
FitsPart part = length (part_bytes part) ≤ max_part_size

pub validate_parts_fits :
    (index : ℕ) (parts : List Part) → validate_parts index parts ≡ ok tt → All FitsPart parts
unfolding validate_parts
validate_parts_fits index [] h = tt
validate_parts_fits index (none ∷ parts) h = (omega arith, validate_parts_fits (index + 1) parts h)
validate_parts_fits index (some bytes ∷ parts) h =
    ground (arith, validate_parts_fits (index + 1) parts)

fits_validate_parts :
    (index : ℕ) (parts : List Part) → All FitsPart parts → validate_parts index parts ≡ ok tt
unfolding validate_parts
fits_validate_parts index [] h = refl
fits_validate_parts index (none ∷ parts) h = fits_validate_parts (index + 1) parts h.1
fits_validate_parts index (some bytes ∷ parts) h =
    ground (arith, h.0, fits_validate_parts (index + 1) parts h.1)

-- `validate` accepts a packet exactly when it keeps the two limits of the protocol.
pub validate_iff :
    (p : Packet) → (validate p ≡ ok tt) ↔ ((length p.parts ≤ max_part_count) × All FitsPart p.parts)
unfolding validate
validate_iff p = (
  λ h. ground (arith, validate_parts_fits 0 p.parts),
  λ h. ground (arith, h.0, fits_validate_parts 0 p.parts h.1),
)

pub length-payload : (parts : List Part) → length (payload parts) ≡ payload_length parts
length-payload [] = refl
length-payload (none ∷ parts) = length-payload parts
length-payload (some bytes ∷ parts) =
    omega (arith, length-append bytes (payload parts), length-payload parts)

pub payload_size-part_size :
    (index total : ℕ) (parts : List Part)
    → All FitsPart parts
    → payload_size index (map part_size parts) total ≡ ok (total + payload_length parts)
unfolding payload_size
payload_size-part_size index total [] h = ground arith
payload_size-part_size index total (none ∷ parts) h =
    payload_size-part_size (index + 1) total parts h.1
payload_size-part_size index total (some bytes ∷ parts) h =
    ground (arith, h.0, payload_size-part_size (index + 1) (total + length bytes) parts h.1)

-- A checksum that was computed is accepted, the null one too.
pub verify-checksum :
    (mismatch : ℕ → ℕ → PacketError) (bytes : List ℕ)
    → verify mismatch (checksum bytes) bytes ≡ ok tt
unfolding verify
verify-checksum mismatch bytes = ground arith

-- One round of the last loop, on a part that is there and whose checksum is right.
read_part :
    (index size expected : ℕ) (table : List (ℕ × ℕ)) (input : List ℕ)
    → (size == null_part_size) ≡ false
    → verify (part_checksum_mismatch index) expected (take size input) ≡ ok tt
    → read_parts index ((size, expected) ∷ table) input
      ≡ push_part (some (take size input)) (read_parts (index + 1) table (drop size input))
unfolding read_parts
read_part index size expected table input present right = rw (present, right)

read_null_part :
    (index expected : ℕ) (table : List (ℕ × ℕ)) (input : List ℕ)
    → read_parts index ((null_part_size, expected) ∷ table) input
      ≡ push_part none (read_parts (index + 1) table input)
unfolding read_parts
read_null_part index expected table input = refl

read_no_parts : (index : ℕ) (input : List ℕ) → read_parts index [] input ≡ (ok [], input)
unfolding read_parts
read_no_parts index input = refl

pub read_parts-payload :
    (index : ℕ) (parts : List Part) (rest : List ℕ)
    → All FitsPart parts
    → read_parts index (zip (map part_size parts) (map part_checksum parts)) (payload parts ++ rest)
      ≡ (ok parts, rest)
unfolding zip
read_parts-payload index [] rest h = read_no_parts index rest
read_parts-payload index (none ∷ parts) rest h =
    read_null_part index _ _ _ ∙ rw (read_parts-payload (index + 1) parts rest h.1)
read_parts-payload index (some bytes ∷ parts) rest h =
    let input : List ℕ = bytes ++ (payload parts ++ rest) in
    let front : take (length bytes) input ≡ bytes = take-append _ bytes _ refl in
    rw (append_assoc bytes (payload parts) rest) (
      read_part index (length bytes) (checksum bytes) _ input (ground (arith, h.0))
        (rw front (verify-checksum _ bytes))
      ∙ rw (
        front,
        drop-append (length bytes) bytes (payload parts ++ rest) refl,
        read_parts-payload (index + 1) parts rest h.1,
      ))
