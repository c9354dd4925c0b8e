-- ===== src/Rpc/Packet/Runs.antt =====
-- Concrete packets, and the theorems at them.
use ytsaurus_rs.Base.{[], ◌∷◌, ◌++◌, length, take, replicate, none, some, ◌≡◌, refl, arith, ok, err}
use ytsaurus_rs.Rpc.Packet.{
  fixed_header, encoding, Packet, message, ack, validate, encode, encoded_size, bad_signature,
}
use ytsaurus_rs.Rpc.Packet.Decode.{read_fixed_header, decode_with, decode}
use ytsaurus_rs.Rpc.Packet.Sizes.{validate_iff}
use ytsaurus_rs.Rpc.Packet.Header.{IsPacket}
use ytsaurus_rs.Rpc.Packet.RoundTrip.{decode_with-encode}
use ytsaurus_rs.Rpc.Packet.Stream.{decode_with_partial}

-- A header, a null part and an empty part.
abbrev sample : Packet
sample = record {
  packet_type = message;
  flags = 1;
  id = replicate 16 7;
  parts = some (1 ∷ 2 ∷ 3 ∷ []) ∷ none ∷ some [] ∷ [];
}

sample-IsPacket : IsPacket sample
sample-IsPacket = record { flags_fit = omega arith; id_size = refl }

sample_valid : validate sample ≡ ok tt
sample_valid =
    (validate_iff sample).1 (omega arith, (omega arith, (omega arith, (omega arith, tt))))

ack_bytes : length (encode (record sample { packet_type = ack; parts = [] }) []).1 ≡ 36
unfolding encode encoded_size validate encoding fixed_header
ack_bytes = refl

decode_nonsense : decode (replicate 40 1) 1000 ≡ (err (bad_signature 0x0101_0101), replicate 40 1)
unfolding decode decode_with read_fixed_header
decode_nonsense = refl

decode_with-encode_example :
    decode_with ((encode sample []).1 ++ (9 ∷ [])) 1000 8 ≡ (ok (some sample), 9 ∷ [])
decode_with-encode_example =
    decode_with-encode sample (9 ∷ []) 1000 8 sample-IsPacket sample_valid (omega arith)
      (unfold encoded_size in omega arith)

decode_with_partial_example :
    decode_with (take 60 (encode sample []).1) 1000 8 ≡ (ok none, take 60 (encode sample []).1)
decode_with_partial_example =
    decode_with_partial sample 60 1000 8 sample-IsPacket sample_valid (omega arith)
      (unfold encoded_size in omega arith) (unfold encoded_size in omega arith)
