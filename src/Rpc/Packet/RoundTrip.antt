-- ===== src/Rpc/Packet/RoundTrip.antt =====
-- The decoder on what `encode` writes.
use ytsaurus_rs.Base.{
  ℕ, ◌+◌, ◌≤◌, min, List, [], ◌∷◌, ◌++◌, length, take, drop, slice, some, ltb, true, false,
  Bool-cases, inl, inr, ◌≡◌, refl, sym, ap, ◌∙◌, arith, ok, take-append, drop-append, append_assoc,
  length-append, All, le→ltb, drop-drop,
}
use ytsaurus_rs.Rpc.Packet.{
  Packet, validate, encode, encoding, encoded_size, fixed_header, variable_header, payload,
  payload_length, has_variable_header, max_part_count, variable_header_size, fixed_header_size,
}
use ytsaurus_rs.Rpc.Packet.Decode.{
  decode_with, decode_parts, decode_variable, decode_payload, header_total,
}
use ytsaurus_rs.Rpc.Packet.Sizes.{FitsPart, validate_iff, length-payload, read_parts-payload}
use ytsaurus_rs.Rpc.Packet.Header.{
  IsPacket, header_of, length-fixed_header, length-variable_header, read_fixed_header-fixed_header,
  read_sizes-variable_header, part_table-variable_header,
}

pub length-encoding : (p : Packet) → IsPacket p → length (encoding p) ≡ encoded_size p
unfolding encoding encoded_size
length-encoding p h = elim (Bool-cases (has_variable_header p.packet_type (length p.parts))) [
  | inl full ↦ rw full (
      omega (
        arith,
        length-append (fixed_header p) (variable_header p.parts ++ payload p.parts),
        length-append (variable_header p.parts) (payload p.parts),
        length-fixed_header p h,
        length-variable_header p.parts,
        length-payload p.parts,
      ))
  | inr bare ↦ rw bare (length-fixed_header p h)
]

pub encode_valid :
    (p : Packet) (out : List ℕ) → validate p ≡ ok tt → encode p out ≡ (ok tt, out ++ encoding p)
unfolding encode
encode_valid p out valid = rw (valid, encode)

-- A packet of well-sized fields that `validate` accepts grows the buffer by `encoded_size` bytes.
pub length-encode :
    (p : Packet) (out : List ℕ)
    → IsPacket p
    → validate p ≡ ok tt
    → length (encode p out).1 ≡ length out + encoded_size p
length-encode p out h valid =
    rw (encode_valid p out valid)
      (length-append out (encoding p) ∙ ap (λ k. length out + k) (length-encoding p h))

module _ (p : Packet) (h : IsPacket p) (fits : All FitsPart p.parts) (rest : List ℕ)
    (max_message_size : ℕ)
    (within : header_total (length p.parts) + payload_length p.parts ≤ max_message_size) where
  variable_part : List ℕ
  variable_part = variable_header p.parts ++ payload p.parts

  input : List ℕ
  input = (fixed_header p ++ variable_part) ++ rest

  behind_header :
      drop fixed_header_size input ≡ variable_header p.parts ++ (payload p.parts ++ rest)
  unfolding input variable_part
  behind_header = rw (append_assoc (fixed_header p) variable_part rest) (
      drop-append 36 (fixed_header p) (variable_part ++ rest) (sym (length-fixed_header p h))
      ∙ append_assoc (variable_header p.parts) (payload p.parts) rest)

  variable_slice :
      slice fixed_header_size (header_total (length p.parts)) input ≡ variable_header p.parts
  variable_slice = rw behind_header (
      take-append _ (variable_header p.parts) (payload p.parts ++ rest)
        (omega (arith, length-variable_header p.parts)))

  behind_variable : drop (header_total (length p.parts)) input ≡ payload p.parts ++ rest
  behind_variable =
      sym (drop-drop fixed_header_size (variable_header_size (length p.parts)) input)
      ∙ rw behind_header (
          drop-append _ (variable_header p.parts) (payload p.parts ++ rest)
            (sym (length-variable_header p.parts)))

  length-input : header_total (length p.parts) + payload_length p.parts ≤ length input
  unfolding input variable_part
  length-input = omega (
    arith,
    length-append (fixed_header p ++ variable_part) rest,
    length-append (fixed_header p) variable_part,
    length-append (variable_header p.parts) (payload p.parts),
    length-fixed_header p h,
    length-variable_header p.parts,
    length-payload p.parts,
  )

  decode_payload-input :
      decode_payload input max_message_size
        (header_of p)
        (variable_header p.parts)
        (payload_length p.parts)
      ≡ (ok (some p), rest)
  unfolding decode_payload
  decode_payload-input = rw (
    le→ltb max_message_size _ within,
    le→ltb (length input) _ length-input,
    part_table-variable_header p.parts fits,
    behind_variable,
    read_parts-payload 0 p.parts rest fits,
  )

  decode_variable-input : decode_variable input max_message_size (header_of p) ≡ (ok (some p), rest)
  unfolding decode_variable
  decode_variable-input = rw (
    le→ltb max_message_size (header_total (length p.parts)) (omega arith),
    le→ltb (length input) (header_total (length p.parts)) (omega (arith, length-input)),
    variable_slice,
    read_sizes-variable_header p.parts fits,
    variable_slice,
    decode_payload-input,
  )

pub decode_with-header :
    (p : Packet) (input rest : List ℕ) (max_message_size max_parts : ℕ)
    → IsPacket p
    → length p.parts ≤ max_part_count
    → input ≡ fixed_header p ++ rest
    → decode_with input max_message_size max_parts
      ≡ decode_parts input max_message_size max_parts (header_of p)
unfolding decode_with
decode_with-header p input rest max_message_size max_parts h few e =
    let long : fixed_header_size ≤ length input =
      rw e (omega (arith, length-append (fixed_header p) rest, length-fixed_header p h)) in
    let front : take fixed_header_size input ≡ fixed_header p =
      rw e (take-append 36 (fixed_header p) rest (sym (length-fixed_header p h))) in
    rw (le→ltb (length input) _ long, front, read_fixed_header-fixed_header p h few)

nil_of_length {ℓ} : {A : Type ℓ} (xs : List A) → length xs ≡ 0 → xs ≡ []
nil_of_length [] h = refl
nil_of_length (x ∷ xs) h = absurd (omega arith)

module _ (p : Packet) (rest : List ℕ) (max_message_size max_parts : ℕ) (h : IsPacket p)
    (count_fits : length p.parts ≤ max_part_count) (fits : All FitsPart p.parts)
    (few : length p.parts ≤ max_parts) (within : encoded_size p ≤ max_message_size) where
  pub counted : ltb (min max_part_count max_parts) (length p.parts) ≡ false
  counted = le→ltb _ _ (omega arith)

  decode_full :
      has_variable_header p.packet_type (length p.parts) ≡ true
      → decode_with (encoding p ++ rest) max_message_size max_parts ≡ (ok (some p), rest)
  unfolding decode_parts encoding variable_part input
  decode_full full =
      let body : List ℕ = variable_header p.parts ++ payload p.parts in
      let wide : header_total (length p.parts) + payload_length p.parts ≤ max_message_size =
        unfold encoded_size in rw (full, encoded_size) at within in
      let e : encoding p ≡ fixed_header p ++ body = rw (full, encoding) in
      rw e (
        decode_with-header p _ (body ++ rest) max_message_size max_parts h count_fits
          (append_assoc (fixed_header p) body rest)
        ∙ rw (counted, full) (decode_variable-input p h fits rest max_message_size wide))

  decode_bare :
      has_variable_header p.packet_type (length p.parts) ≡ false
      → decode_with (encoding p ++ rest) max_message_size max_parts ≡ (ok (some p), rest)
  unfolding decode_parts encoding
  decode_bare bare =
      let e : encoding p ≡ fixed_header p = rw (bare, encoding) in
      let empty : p.parts ≡ [] = nil_of_length p.parts (ground arith) in
      rw e (
        decode_with-header p _ rest max_message_size max_parts h count_fits refl
        ∙ rw (counted, bare, drop-append 36 (fixed_header p) rest (sym (length-fixed_header p h)))
            (ap (λ parts. (ok (some (record p { parts = parts })), rest)) (sym empty)))

-- A packet of well-sized fields that is within the protocol's limits and those of this connection is
-- decoded from what `encode` wrote, and the bytes behind it are left.
pub decode_with-encode :
    (p : Packet) (rest : List ℕ) (max_message_size max_parts : ℕ)
    → IsPacket p
    → validate p ≡ ok tt
    → length p.parts ≤ max_parts
    → encoded_size p ≤ max_message_size
    → decode_with ((encode p []).1 ++ rest) max_message_size max_parts ≡ (ok (some p), rest)
decode_with-encode p rest max_message_size max_parts h valid few within =
    let (count_fits, fits) = (validate_iff p).0 valid in
    rw (encode_valid p [] valid)
      (elim (Bool-cases (has_variable_header p.packet_type (length p.parts))) [
        | inl full ↦ decode_full p rest max_message_size max_parts h count_fits fits few within full
        | inr bare ↦ decode_bare p rest max_message_size max_parts h count_fits fits few within bare
      ])
