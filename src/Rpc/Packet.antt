-- ===== src/Rpc/Packet.antt =====
-- crates/ytsaurus-rpc/src/bus/packet.rs, the types and the encoder. A `BytesMut` is the
-- list of its bytes.
pub mod Decode
pub mod Sizes
pub mod Header
pub mod RoundTrip
pub mod Stream
mod Runs
use ytsaurus_rs.Base.{
  ℕ, zero, suc, ◌+◌, ◌-◌, ◌*◌, ◌^◌, min, List, [], ◌∷◌, map, ◌++◌, length, take, drop, slice, zip,
  Bool, true, false, not, ◌||◌, Option, none, some, ltb, ◌==◌, if◌then◌else◌, le_bytes, from_le,
  words, put_words, Result, ok, err, guard, ◌>>=◌, ◌>>◌,
}
use ytsaurus_rs.Rpc.Crc64.{checksum}

abbrev pub signature : ℕ
signature = 0x7861_6d4f

abbrev pub fixed_header_size : ℕ
fixed_header_size = 36

abbrev pub null_part_size : ℕ
null_part_size = 0xffff_ffff

abbrev pub max_part_size : ℕ
max_part_size = 2 ^ 30

abbrev pub max_part_count : ℕ
max_part_count = 2 ^ 28

abbrev pub default_max_part_count : ℕ
default_max_part_count = 2 ^ 16

abbrev pub null_checksum : ℕ
null_checksum = 0

pub data PacketType : Type 0 where
  message ack ssl_ack : PacketType

abbrev pub to_wire : PacketType → ℕ
to_wire message = 0
to_wire ack = 1
to_wire ssl_ack = 2

abbrev pub from_wire : ℕ → Option PacketType
from_wire zero = some message
from_wire (suc zero) = some ack
from_wire (suc (suc zero)) = some ssl_ack
from_wire (suc (suc (suc n))) = none

abbrev pub Part : Type 0
Part = Option (List ℕ)

-- `flags` is a `u16` and `id` the sixteen bytes of a GUID.
pub record Packet : Type 0 where
  pub packet_type : PacketType
  pub flags : ℕ
  pub id : List ℕ
  pub parts : List Part

pub data PacketError : Type 0 where
  bad_signature : ℕ → PacketError
  unknown_type : ℕ → PacketError
  too_many_parts : ℕ → PacketError
  part_too_large : ℕ → ℕ → PacketError
  fixed_header_checksum : ℕ → ℕ → PacketError
  variable_header_checksum : ℕ → ℕ → PacketError
  part_checksum_mismatch : ℕ → ℕ → ℕ → PacketError
  message_too_large : ℕ → ℕ → PacketError

abbrev pub is_message : PacketType → Bool
is_message message = true
is_message _ = false

-- `has_variable_header`, over the type and the count of the parts.
abbrev pub has_variable_header : PacketType → ℕ → Bool
has_variable_header t count = is_message t || ltb 0 count

-- The loop of `validate` over `parts.iter().enumerate()`.
pub validate_parts : ℕ → List Part → Result PacketError (Unit {0})
validate_parts index [] = ok tt
validate_parts index (none ∷ parts) = validate_parts (index + 1) parts
validate_parts index (some bytes ∷ parts) =
    let rest = validate_parts (index + 1) parts in
    if ltb max_part_size (length bytes)
    then err (part_too_large index (min (length bytes) (2 ^ 32 - 1)))
    else rest

pub validate : Packet → Result PacketError (Unit {0})
unfolding validate_parts
validate p = do
  guard (not (ltb max_part_count (length p.parts)))
      (too_many_parts (min (length p.parts) (2 ^ 32 - 1)))
  validate_parts 0 p.parts

-- The word that each part has in the two tables of the variable header.
abbrev pub part_size : Part → ℕ
part_size none = null_part_size
part_size (some bytes) = length bytes

abbrev pub part_checksum : Part → ℕ
part_checksum none = null_checksum
part_checksum (some bytes) = checksum bytes

abbrev pub part_bytes : Part → List ℕ
part_bytes none = []
part_bytes (some bytes) = bytes

abbrev pub payload : List Part → List ℕ
payload [] = []
payload (part ∷ parts) = part_bytes part ++ payload parts

-- `parts.iter().flatten().map(|part| part.len()).sum()`
abbrev pub payload_length : List Part → ℕ
payload_length [] = 0
payload_length (none ∷ parts) = payload_length parts
payload_length (some bytes ∷ parts) = length bytes + payload_length parts

-- The bytes 0..28 of the header, which its checksum covers.
abbrev pub fixed_fields : Packet → List ℕ
fixed_fields p =
    le_bytes 4 signature
    ++ (le_bytes 2 (to_wire p.packet_type)
        ++ (le_bytes 2 p.flags ++ (p.id ++ le_bytes 4 (length p.parts))))

pub fixed_header : Packet → List ℕ
fixed_header p = fixed_fields p ++ le_bytes 8 (checksum (fixed_fields p))

-- The sizes and the checksums of the parts, which the checksum behind them covers.
abbrev pub variable_fields : List Part → List ℕ
variable_fields parts = put_words 4 (map part_size parts) ++ put_words 8 (map part_checksum parts)

pub variable_header : List Part → List ℕ
variable_header parts = variable_fields parts ++ le_bytes 8 (checksum (variable_fields parts))

-- What `encode` appends for a packet that it accepts.
unfoldable pub encoding : Packet → List ℕ
encoding p =
    if has_variable_header p.packet_type (length p.parts)
    then fixed_header p ++ (variable_header p.parts ++ payload p.parts)
    else fixed_header p

-- The outcome, and the buffer `out` afterwards.
pub encode : Packet → List ℕ → Result PacketError (Unit {0}) × List ℕ
encode p out = elim (validate p) [ err e ↦ (err e, out) | ok _ ↦ (ok tt, out ++ encoding p) ]

abbrev pub variable_header_size : ℕ → ℕ
variable_header_size part_count = part_count * (4 + 8) + 8

unfoldable pub encoded_size : Packet → ℕ
encoded_size p =
    if has_variable_header p.packet_type (length p.parts)
    then fixed_header_size + variable_header_size (length p.parts) + payload_length p.parts
    else fixed_header_size
