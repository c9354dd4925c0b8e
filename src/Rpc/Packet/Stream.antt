-- ===== src/Rpc/Packet/Stream.antt =====
-- The decoder on a buffer that is still filling: what it answers before a packet is whole.
use ytsaurus_rs.Base.{
  ℕ, ◌+◌, ◌≤◌, ◌<◌, List, [], ◌++◌, length, take, drop, slice, none, true, Bool-cases, inl, inr,
  ◌≡◌, ◌≢◌, refl, sym, ap, ◌∙◌, arith, Result, ok, err, take-append, drop-append, take-append_le,
  take-append-drop, drop-append_le, length-take, length-drop, ◌-◌, All, le→ltb, lt→ltb, dec_lt,
}
use ytsaurus_rs.Rpc.Packet.{
  Packet, Part, PacketError, validate, encode, encoding, encoded_size, fixed_header,
  variable_header, payload, payload_length, has_variable_header, max_part_count, fixed_header_size,
}
use ytsaurus_rs.Rpc.Packet.Decode.{
  decode_with, decode_parts, decode_variable, decode_payload, read_parts, header_total, part_table,
  FixedHeader, finish_packet,
}
use ytsaurus_rs.Rpc.Packet.Sizes.{FitsPart, validate_iff}
use ytsaurus_rs.Rpc.Packet.Header.{
  IsPacket, header_of, length-fixed_header, length-variable_header, read_sizes-variable_header,
}
use ytsaurus_rs.Rpc.Packet.RoundTrip.{encode_valid, decode_with-header, length-encoding, counted}

-- A front of `xs ++ ys` that is at least as long as `xs` begins with it.
starts_with :
    (xs ys front back : List ℕ)
    → xs ++ ys ≡ front ++ back
    → length xs ≤ length front
    → front ≡ xs ++ drop (length xs) front
starts_with xs ys front back e h =
    let same : xs ≡ take (length xs) front =
      sym (take-append (length xs) xs ys refl)
      ∙ ap (take (length xs)) e
      ∙ take-append_le (length xs) front back h in
    sym (ap (λ zs. zs ++ drop (length xs) front) same ∙ take-append-drop (length xs) front)

finish_packet-ne-none :
    (h : FixedHeader) (r : Result PacketError (List Part) × List ℕ) (rest : List ℕ)
    → finish_packet h r ≢ (ok none, rest)
finish_packet-ne-none h (ok parts, input) rest e = cc
finish_packet-ne-none h (err x, input) rest e = cc

module _ (input rest : List ℕ) (max_message_size : ℕ) (h : FixedHeader) where
  decode_payload-none :
      (variable : List ℕ) (payload_size : ℕ)
      → decode_payload input max_message_size h variable payload_size ≡ (ok none, rest)
      → rest ≡ input
  unfolding decode_payload
  decode_payload-none variable payload_size e =
      let table = part_table h.part_count variable in
      ground (
        arith,
        finish_packet-ne-none h (read_parts 0 table (drop (header_total h.part_count) input)) rest,
      )

  decode_variable-none : decode_variable input max_message_size h ≡ (ok none, rest) → rest ≡ input
  unfolding decode_variable
  decode_variable-none e =
      let variable = slice fixed_header_size (header_total h.part_count) input in
      grind (arith, λ (k : ℕ). decode_payload-none variable k)

  decode_parts-none :
      (max_parts : ℕ)
      → decode_parts input max_message_size max_parts h ≡ (ok none, rest)
      → rest ≡ input
  unfolding decode_parts
  decode_parts-none max_parts e = ground (arith, decode_variable-none)

-- An answer that asks for more bytes has consumed nothing.
pub decode_with-none :
    (input rest : List ℕ) (max_message_size max_parts : ℕ)
    → decode_with input max_message_size max_parts ≡ (ok none, rest)
    → rest ≡ input
unfolding decode_with
decode_with-none input rest max_message_size max_parts e =
    grind (arith, λ (h : FixedHeader). decode_parts-none input rest max_message_size h max_parts)

module _ (p : Packet) (front back : List ℕ) (max_message_size max_parts : ℕ) (h : IsPacket p)
    (count_fits : length p.parts ≤ max_part_count) (fits : All FitsPart p.parts)
    (few : length p.parts ≤ max_parts) (within : encoded_size p ≤ max_message_size)
    (cut : length front < encoded_size p) where
  decode_short :
      length front < fixed_header_size
      → decode_with front max_message_size max_parts ≡ (ok none, front)
  unfolding decode_with
  decode_short short = rw (lt→ltb _ _ short)

  module _ (long : fixed_header_size ≤ length front) (e : encoding p ≡ front ++ back) where
    -- A bare header is whole as soon as it can be read.
    full : has_variable_header p.packet_type (length p.parts) ≡ true
    full = elim (Bool-cases (has_variable_header p.packet_type (length p.parts))) [
      | inl t ↦ t
      | inr bare ↦
          let size : encoded_size p ≡ fixed_header_size =
            unfold encoded_size in rw (bare, encoded_size) in
          absurd (omega arith)
    ]

    body : List ℕ
    body = variable_header p.parts ++ payload p.parts

    whole : encoded_size p ≡ header_total (length p.parts) + payload_length p.parts
    whole = unfold encoded_size in rw (full, encoded_size)

    split : fixed_header p ++ body ≡ front ++ back
    unfolding encoding body
    split = sym (rw (full, encoding)) ∙ e

    -- What has come of the packet behind its fixed header.
    front_body : List ℕ
    front_body = drop fixed_header_size front

    front_header : front ≡ fixed_header p ++ front_body
    unfolding front_body
    front_header =
        let size : length (fixed_header p) ≡ fixed_header_size = length-fixed_header p h in
        rw size at (starts_with (fixed_header p) body front back split (omega arith))

    split_body : body ≡ front_body ++ back
    unfolding front_body
    split_body =
        sym (drop-append fixed_header_size (fixed_header p) body (sym (length-fixed_header p h)))
        ∙ ap (drop fixed_header_size) split
        ∙ drop-append_le fixed_header_size front back long

    decode_at_header :
        decode_with front max_message_size max_parts
        ≡ decode_variable front max_message_size (header_of p)
    decode_at_header =
        decode_with-header p front front_body max_message_size max_parts h count_fits front_header
        ∙ unfold decode_parts in
          rw (counted p back max_message_size max_parts h count_fits fits few within, full)

    -- The variable header has come, and the payload has not.
    decode_body :
        header_total (length p.parts) ≤ length front
        → decode_variable front max_message_size (header_of p) ≡ (ok none, front)
    unfolding decode_variable decode_payload front_body body
    decode_body more =
        let size : length front_body ≡ length front - fixed_header_size =
          length-drop fixed_header_size front in
        let start : front_body
            ≡ variable_header p.parts ++ drop (length (variable_header p.parts)) front_body =
          starts_with (variable_header p.parts) (payload p.parts) front_body back split_body
            (omega (arith, length-variable_header p.parts)) in
        let table : slice fixed_header_size (header_total (length p.parts)) front
            ≡ variable_header p.parts =
          ap (take (header_total (length p.parts) - fixed_header_size)) start
          ∙ take-append _ (variable_header p.parts) _
              (omega (arith, length-variable_header p.parts)) in
        rw (
          le→ltb max_message_size (header_total (length p.parts)) (omega (arith, whole)),
          le→ltb (length front) (header_total (length p.parts)) more,
          table,
          read_sizes-variable_header p.parts fits,
          le→ltb max_message_size (header_total (length p.parts) + payload_length p.parts)
              (omega (arith, whole)),
          lt→ltb (length front) (header_total (length p.parts) + payload_length p.parts)
              (omega (arith, whole)),
        )

    decode_head :
        length front < header_total (length p.parts)
        → decode_variable front max_message_size (header_of p) ≡ (ok none, front)
    unfolding decode_variable
    decode_head less = rw (
      le→ltb max_message_size (header_total (length p.parts)) (omega (arith, whole)),
      lt→ltb (length front) (header_total (length p.parts)) less,
    )

    decode_long : decode_with front max_message_size max_parts ≡ (ok none, front)
    decode_long = decode_at_header ∙ elim (dec_lt (length front) (header_total (length p.parts))) [
      | yes less ↦ decode_head less
      | no more ↦ decode_body (omega arith)
    ]

-- Until the last byte has come of a packet of well-sized fields, within the protocol's limits and those
-- of this connection, the decoder asks for more and leaves the buffer as it is.
pub decode_with_partial :
    (p : Packet) (n max_message_size max_parts : ℕ)
    → IsPacket p
    → validate p ≡ ok tt
    → length p.parts ≤ max_parts
    → encoded_size p ≤ max_message_size
    → n < encoded_size p
    → decode_with (take n (encode p []).1) max_message_size max_parts
      ≡ (ok none, take n (encode p []).1)
decode_with_partial p n max_message_size max_parts h valid few within cut =
    let (count_fits, fits) = (validate_iff p).0 valid in
    let front : List ℕ = take n (encoding p) in
    let size : length front ≡ n = omega (arith, length-take n (encoding p), length-encoding p h) in
    rw (encode_valid p [] valid) (elim (dec_lt (length front) fixed_header_size) [
      | yes short ↦
          decode_short p front (drop n (encoding p)) max_message_size max_parts h count_fits fits
            few within (omega arith) short
      | no long ↦
          decode_long p front (drop n (encoding p)) max_message_size max_parts h count_fits fits few
            within (omega arith) (omega arith) (sym (take-append-drop n (encoding p)))
    ])
