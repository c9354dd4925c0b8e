-- ===== src/Rpc/Packet/Header.antt =====
-- The two headers as `encode` lays them out, and what the decoder reads from them.
use ytsaurus_rs.Base.{
  ℕ, ◌-◌, ◌*◌, ◌^◌, ◌≤◌, ◌<◌, List, [], ◌∷◌, ◌++◌, map, length, All, take, drop, slice, none, some,
  le_bytes, from_le, put_words, words, zip, ◌≡◌, refl, sym, ap, ◌∙◌, arith, ok, take-append,
  drop-append, append_assoc, length-append, length-map, length-put_words, words-put_words,
  from_le-le_bytes,
}
use ytsaurus_rs.Rpc.Crc64.{checksum}
use ytsaurus_rs.Rpc.Crc64.Laws.{checksum-lt}
use ytsaurus_rs.Rpc.Packet.{
  Part, Packet, PacketType, message, ack, ssl_ack, to_wire, part_size, part_checksum,
  payload_length, fixed_fields, fixed_header, variable_fields, variable_header, max_part_count,
  variable_header_size,
}
use ytsaurus_rs.Rpc.Packet.Decode.{
  read_fixed_header, read_sizes, FixedHeader, part_table, type_of_wire,
}
use ytsaurus_rs.Rpc.Packet.Sizes.{FitsPart, payload_size-part_size, verify-checksum}

-- What the types of the source promise: `flags` is a `u16` and `id` is `[u8; 16]`.
pub record IsPacket (p : Packet) : Type 0 where
  pub flags_fit : p.flags < 2 ^ 16
  pub id_size : length p.id ≡ 16

pub length-fixed_fields : (p : Packet) → IsPacket p → length (fixed_fields p) ≡ 28
length-fixed_fields p h = omega (arith, length-append p.id (le_bytes 4 (length p.parts)), h.id_size)

pub length-fixed_header : (p : Packet) → IsPacket p → length (fixed_header p) ≡ 36
unfolding fixed_header
length-fixed_header p h =
    length-append (fixed_fields p) (le_bytes 8 (checksum (fixed_fields p)))
    ∙ omega (arith, length-fixed_fields p h)

pub length-variable_fields :
    (parts : List Part) → length (variable_fields parts) ≡ 12 * length parts
length-variable_fields parts = omega (
  arith,
  length-append (put_words 4 (map part_size parts)) (put_words 8 (map part_checksum parts)),
  length-put_words 4 (map part_size parts),
  length-put_words 8 (map part_checksum parts),
  length-map parts part_size,
  length-map parts part_checksum,
)

pub length-variable_header :
    (parts : List Part) → length (variable_header parts) ≡ variable_header_size (length parts)
unfolding variable_header
length-variable_header parts =
    length-append (variable_fields parts) (le_bytes 8 (checksum (variable_fields parts)))
    ∙ omega (arith, length-variable_fields parts)

type_of_wire-to_wire : (t : PacketType) → type_of_wire (to_wire t) ≡ ok t
type_of_wire-to_wire message = refl
type_of_wire-to_wire ack = refl
type_of_wire-to_wire ssl_ack = refl

to_wire-lt : (t : PacketType) → to_wire t < 3
to_wire-lt message = omega arith
to_wire-lt ack = omega arith
to_wire-lt ssl_ack = omega arith

abbrev pub header_of : Packet → FixedHeader
header_of p = record {
  packet_type = p.packet_type;
  flags = p.flags;
  id = p.id;
  part_count = length p.parts;
}

-- The fixed header of a packet is read back.
pub read_fixed_header-fixed_header :
    (p : Packet)
    → IsPacket p
    → length p.parts ≤ max_part_count
    → read_fixed_header (fixed_header p) ≡ ok (header_of p)
unfolding read_fixed_header fixed_header
read_fixed_header-fixed_header p h few = rw (
  sum,
  covered,
  verify-checksum _ (fixed_fields p),
  kind,
  type_of_wire-to_wire p.packet_type,
  flags,
  id,
  count,
)
  where
    fields : List ℕ
    fields = fixed_fields p

    stored : List ℕ
    stored = le_bytes 8 (checksum fields)

    tail : List ℕ
    tail = le_bytes 4 (length p.parts) ++ stored

    covered : take 28 (fields ++ stored) ≡ fields
    covered = take-append 28 fields stored (sym (length-fixed_fields p h))

    sum : from_le (slice 28 36 (fields ++ stored)) ≡ checksum fields
    sum =
        rw (drop-append 28 fields stored (sym (length-fixed_fields p h)))
          (from_le-le_bytes 8 (checksum fields) (checksum-lt fields))

    kind : from_le (slice 4 6 (fields ++ stored)) ≡ to_wire p.packet_type
    kind = from_le-le_bytes 2 (to_wire p.packet_type) (omega (arith, to_wire-lt p.packet_type))

    flags : from_le (slice 6 8 (fields ++ stored)) ≡ p.flags
    flags = from_le-le_bytes 2 p.flags h.flags_fit

    id : slice 8 24 (fields ++ stored) ≡ p.id
    id =
        rw (append_assoc p.id (le_bytes 4 (length p.parts)) stored)
          (take-append 16 p.id tail (sym h.id_size))

    count : from_le (slice 24 28 (fields ++ stored)) ≡ length p.parts
    count =
        rw
          (
            append_assoc p.id (le_bytes 4 (length p.parts)) stored,
            drop-append 16 p.id tail (sym h.id_size),
          )
          (from_le-le_bytes 4 (length p.parts) (omega arith))

part_size-lt : (part : Part) → FitsPart part → part_size part < 256 ^ 4
part_size-lt none h = omega arith
part_size-lt (some bytes) h = omega arith

part_checksum-lt : (part : Part) → part_checksum part < 256 ^ 8
part_checksum-lt none = omega arith
part_checksum-lt (some bytes) = checksum-lt bytes

sizes-lt : (parts : List Part) → All FitsPart parts → All (λ v. v < 256 ^ 4) (map part_size parts)
sizes-lt [] h = tt
sizes-lt (part ∷ parts) h = (part_size-lt part h.0, sizes-lt parts h.1)

checksums-lt : (parts : List Part) → All (λ v. v < 256 ^ 8) (map part_checksum parts)
checksums-lt [] = tt
checksums-lt (part ∷ parts) = (part_checksum-lt part, checksums-lt parts)

module _ (parts : List Part) (fits : All FitsPart parts) where
  sizes : List ℕ
  sizes = map part_size parts

  checksums : List ℕ
  checksums = map part_checksum parts

  read_size_words : words 4 0 (length parts) (variable_header parts) ≡ sizes
  unfolding sizes variable_header
  read_size_words =
      let stored : List ℕ = le_bytes 8 (checksum (variable_fields parts)) in
      let e : length sizes ≡ length parts = length-map parts part_size in
      rw e at (
        words-put_words 4 sizes [] (put_words 8 (map part_checksum parts) ++ stored)
          (variable_header parts) 0 (sizes-lt parts fits) refl
          (append_assoc (put_words 4 sizes) (put_words 8 (map part_checksum parts)) stored))

  read_checksum_words :
      words 8 (length parts * 4) (length parts) (variable_header parts) ≡ checksums
  unfolding checksums variable_header
  read_checksum_words =
      let stored : List ℕ = le_bytes 8 (checksum (variable_fields parts)) in
      let before : List ℕ = put_words 4 (map part_size parts) in
      let e : length checksums ≡ length parts = length-map parts part_checksum in
      rw e at (
        words-put_words 8 checksums before stored (variable_header parts) (length parts * 4)
          (checksums-lt parts)
          (omega (arith, length-put_words 4 (map part_size parts), length-map parts part_size))
          (append_assoc before (put_words 8 checksums) stored))

  -- The tables of the parts are read back.
  pub part_table-variable_header :
      part_table (length parts) (variable_header parts)
      ≡ zip (map part_size parts) (map part_checksum parts)
  unfolding sizes checksums
  part_table-variable_header = rw (read_size_words, read_checksum_words)

  pub read_sizes-variable_header :
      read_sizes (length parts) (variable_header parts) ≡ ok (payload_length parts)
  unfolding read_sizes sizes
  read_sizes-variable_header =
      rw
        (
          stored_sum,
          covered,
          verify-checksum _ (variable_fields parts),
          read_size_words,
          payload_size-part_size 0 0 parts fits,
        )
        (ap ok (omega arith))
    where
      at : variable_header_size (length parts) - 8 ≡ length (variable_fields parts)
      at = omega (arith, length-variable_fields parts)

      covered :
          take (variable_header_size (length parts) - 8) (variable_header parts)
          ≡ variable_fields parts
      covered = unfold variable_header in take-append _ (variable_fields parts) _ at

      stored_sum :
          from_le (drop (variable_header_size (length parts) - 8) (variable_header parts))
          ≡ checksum (variable_fields parts)
      stored_sum =
          unfold variable_header in
          rw
            (drop-append _ (variable_fields parts) (le_bytes 8 (checksum (variable_fields parts)))
              at)
            (from_le-le_bytes 8 _ (checksum-lt (variable_fields parts)))
