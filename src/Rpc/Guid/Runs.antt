-- ===== src/Rpc/Guid/Runs.antt =====
-- Concrete GUIDs.
use ytsaurus_rs.Base.{ℕ, List, [], ◌∷◌, ◌≡◌, refl, arith, true, none, some}
use ytsaurus_rs.Rpc.Guid.{parts, from_parts, is_null, null_guid}
use ytsaurus_rs.Rpc.Guid.Text.{split_dash, hex, fill_words, digits_from, print_guid, parse_guid}
use ytsaurus_rs.Rpc.Guid.Printed.{parse_guid-print_guid}

null_is_null : is_null null_guid ≡ true
unfolding is_null
null_is_null = refl

-- The words 0xa, 0xb, 0xc and 0xd.
abbrev guid : List ℕ
guid = 10 ∷ 0 ∷ 0 ∷ 0 ∷ 11 ∷ 0 ∷ 0 ∷ 0 ∷ 12 ∷ 0 ∷ 0 ∷ 0 ∷ 13 ∷ 0 ∷ 0 ∷ 0 ∷ []

guid_text : print_guid guid ≡ b'd' ∷ b'-' ∷ b'c' ∷ b'-' ∷ b'b' ∷ b'-' ∷ b'a' ∷ []
unfolding print_guid hex parts
guid_text = refl

-- A plus sign in front of a field is taken, and so are capitals and zeroes.
plus_taken :
    parse_guid (b'+' ∷ b'D' ∷ b'-' ∷ b'0' ∷ b'c' ∷ b'-' ∷ b'b' ∷ b'-' ∷ b'a' ∷ []) ≡ some guid
unfolding parse_guid fill_words split_dash digits_from from_parts
plus_taken = refl

minus_refused : parse_guid (b'-' ∷ b'1' ∷ b'-' ∷ b'2' ∷ b'-' ∷ b'3' ∷ []) ≡ none
unfolding parse_guid fill_words split_dash
minus_refused = refl

three_fields : parse_guid (b'1' ∷ b'-' ∷ b'2' ∷ b'-' ∷ b'3' ∷ []) ≡ none
unfolding parse_guid fill_words split_dash digits_from
three_fields = refl

parse_guid-print_guid_example : parse_guid (print_guid guid) ≡ some guid
parse_guid-print_guid_example = parse_guid-print_guid guid refl (omega arith)
