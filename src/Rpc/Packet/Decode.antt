-- ===== src/Rpc/Packet/Decode.antt =====
-- crates/ytsaurus-rpc/src/bus/packet.rs, the decoder. The buffer that `decode` works on is the list
-- of the bytes received and not yet consumed, and each call returns what it leaves of it.
use ytsaurus_rs.Base.{
  ℕ, ◌+◌, ◌-◌, ◌*◌, min, List, [], ◌∷◌, length, take, drop, slice, zip, Option, none, some, ltb,
  ◌==◌, if◌then◌else◌, from_le, words, Result, ok, err, guard, ◌>>=◌, ◌>>◌,
}
use ytsaurus_rs.Rpc.Crc64.{checksum}
use ytsaurus_rs.Rpc.Packet.{
  signature, fixed_header_size, null_part_size, max_part_size, max_part_count,
  default_max_part_count, null_checksum, PacketType, from_wire, Part, Packet, PacketError,
  bad_signature, unknown_type, too_many_parts, part_too_large, fixed_header_checksum,
  variable_header_checksum, part_checksum_mismatch, message_too_large, has_variable_header,
  variable_header_size,
}

-- The fields of the fixed header.
pub record FixedHeader : Type 0 where
  pub packet_type : PacketType
  pub flags : ℕ
  pub id : List ℕ
  pub part_count : ℕ

-- A checksum field that is not null must agree with the bytes that it covers.
unfoldable pub verify : (ℕ → ℕ → PacketError) → ℕ → List ℕ → Result PacketError (Unit {0})
verify mismatch stored bytes =
    if stored == null_checksum
    then ok tt
    else if checksum bytes == stored
    then ok tt
    else err (mismatch stored (checksum bytes))

abbrev pub type_of_wire : ℕ → Result PacketError PacketType
type_of_wire raw = elim (from_wire raw) [ none ↦ err (unknown_type raw) | some t ↦ ok t ]

-- The checks on the first 36 bytes.
unfoldable pub read_fixed_header : List ℕ → Result PacketError FixedHeader
read_fixed_header header = do
  guard (from_le (slice 0 4 header) == signature) (bad_signature (from_le (slice 0 4 header)))
  packet_type ← type_of_wire (from_le (slice 4 6 header))
  verify fixed_header_checksum (from_le (slice 28 36 header)) (take 28 header)
  ok (record {
    packet_type = packet_type;
    flags = from_le (slice 6 8 header);
    id = slice 8 24 header;
    part_count = from_le (slice 24 28 header);
  })

-- The first loop over the sizes: their sum, where none is too large.
unfoldable pub payload_size : ℕ → List ℕ → ℕ → Result PacketError ℕ
payload_size index [] total = ok total
payload_size index (size ∷ sizes) total =
    let null = payload_size (index + 1) sizes total in
    let more = payload_size (index + 1) sizes (total + size) in
    if size == null_part_size
    then null
    else if ltb max_part_size size
    then err (part_too_large index size)
    else more

abbrev pub push_part :
    Part → Result PacketError (List Part) × List ℕ → Result PacketError (List Part) × List ℕ
push_part part (ok parts, input) = (ok (part ∷ parts), input)
push_part part (err e, input) = (err e, input)

-- The last loop: `split_to` takes each part off the input. A mismatch leaves the input behind the
-- part that it is about.
unfoldable pub read_parts : ℕ → List (ℕ × ℕ) → List ℕ → Result PacketError (List Part) × List ℕ
read_parts index [] input = (ok [], input)
read_parts index ((size, expected) ∷ rest) input =
    let null = push_part none (read_parts (index + 1) rest input) in
    let part = take size input in
    let more = push_part (some part) (read_parts (index + 1) rest (drop size input)) in
    if size == null_part_size
    then null
    else elim (verify (part_checksum_mismatch index) expected part) [
      | err e ↦ (err e, drop size input)
      | ok _ ↦ more
    ]

abbrev pub Outcome : Type 0
Outcome = Result PacketError (Option Packet) × List ℕ

abbrev pub packet_of : FixedHeader → List Part → Packet
packet_of h parts = record {
  packet_type = h.packet_type;
  flags = h.flags;
  id = h.id;
  parts = parts;
}

abbrev pub finish_packet : FixedHeader → Result PacketError (List Part) × List ℕ → Outcome
finish_packet h (ok parts, rest) = (ok (some (packet_of h parts)), rest)
finish_packet h (err e, rest) = (err e, rest)

abbrev pub header_total : ℕ → ℕ
header_total part_count = fixed_header_size + variable_header_size part_count

-- The sum of the sizes, once the checksum of the variable header is right.
unfoldable pub read_sizes : ℕ → List ℕ → Result PacketError ℕ
read_sizes count variable = do
  verify variable_header_checksum (from_le (drop (variable_header_size count - 8) variable))
      (take (variable_header_size count - 8) variable)
  payload_size 0 (words 4 0 count variable) 0

-- The sizes with their checksums.
abbrev pub part_table : ℕ → List ℕ → List (ℕ × ℕ)
part_table count variable = zip (words 4 0 count variable) (words 8 (count * 4) count variable)

-- Behind the variable header, given the sum of the sizes.
unfoldable pub decode_payload : List ℕ → ℕ → FixedHeader → List ℕ → ℕ → Outcome
decode_payload input max_message_size h variable payload =
    let total = header_total h.part_count + payload in
    if ltb max_message_size total
    then (err (message_too_large total max_message_size), input)
    else if ltb (length input) total
    then (ok none, input)
    else finish_packet h
        (read_parts 0 (part_table h.part_count variable) (drop (header_total h.part_count) input))

unfoldable pub decode_variable : List ℕ → ℕ → FixedHeader → Outcome
decode_variable input max_message_size h =
    let total = header_total h.part_count in
    let variable = slice fixed_header_size total input in
    if ltb max_message_size total
    then (err (message_too_large total max_message_size), input)
    else if ltb (length input) total
    then (ok none, input)
    else elim (read_sizes h.part_count variable) [
      | err e ↦ (err e, input)
      | ok payload ↦ decode_payload input max_message_size h variable payload
    ]

unfoldable pub decode_parts : List ℕ → ℕ → ℕ → FixedHeader → Outcome
decode_parts input max_message_size max_parts h =
    if ltb (min max_part_count max_parts) h.part_count
    then (err (too_many_parts h.part_count), input)
    else if has_variable_header h.packet_type h.part_count
    then decode_variable input max_message_size h
    else (ok (some (packet_of h [])), drop fixed_header_size input)

unfoldable pub decode_with : List ℕ → ℕ → ℕ → Outcome
decode_with input max_message_size max_parts =
    if ltb (length input) fixed_header_size
    then (ok none, input)
    else elim (read_fixed_header (take fixed_header_size input)) [
      | err e ↦ (err e, input)
      | ok h ↦ decode_parts input max_message_size max_parts h
    ]

unfoldable pub decode : List ℕ → ℕ → Outcome
decode input max_message_size = decode_with input max_message_size default_max_part_count
