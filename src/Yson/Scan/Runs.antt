-- ===== src/Yson/Scan/Runs.antt =====
-- Concrete buffers, and the theorems at them.
use ytsaurus_rs.Yson.Lexer.Text.{unquoted_string, text_number, special_value, parse_text_token}
use ytsaurus_rs.Yson.Lexer.Quoted.{quoted_string}
use ytsaurus_rs.Yson.Lexer.Ignored.{skip_ignored}
use ytsaurus_rs.Yson.Varint.{read_varint}
use ytsaurus_rs.Yson.Lexer.{take_bytes, parse_binary_token, lex_varint, lex_string}
use ytsaurus_rs.Base.{
  ℕ, List, [], ◌∷◌, ◌++◌, take, none, ◌≡◌, ◌≢◌, refl, arith, true, false, ok, err,
}
use ytsaurus_rs.Yson.{out_of_fuel, custom}
use ytsaurus_rs.Yson.Lexer.Tokens.{peek_byte, next_token, Std}
use ytsaurus_rs.Yson.Scan.{
  scan_tree, scan_pair, scan_list, scan_items, scan_fragment, scan_all, complete, incomplete,
  scan_value,
}
use ytsaurus_rs.Yson.Scan.Boundary.{scan_value-append, scan_value-out_of_fuel, scan_value-take}

abbrev std : Std
std = record { as_text = λ bs. ""; parse_f64 = λ bs. none; debug = λ token. "" }

-- `{a=1}` in binary YSON
abbrev one : List ℕ
one = b'{' ∷ 1 ∷ 2 ∷ b'a' ∷ b'=' ∷ 2 ∷ 2 ∷ b'}' ∷ []

one_scanned : scan_value std true (one ++ (b';' ∷ one)) ≡ ok (complete 8)
unfolding scan_value scan_tree next_token parse_binary_token scan_fragment scan_all scan_items
    peek_byte scan_pair lex_string lex_varint read_varint take_bytes
one_scanned = refl

deep :
    scan_value std true
      (b'<' ∷ 1 ∷ 2 ∷ b'a' ∷ b'=' ∷ b'[' ∷ 4 ∷ b';' ∷ b'#' ∷ b']' ∷ b'>' ∷ b'#' ∷ [])
    ≡ ok (complete 12)
unfolding scan_value scan_tree next_token parse_binary_token scan_fragment scan_all scan_items
    peek_byte scan_pair lex_string lex_varint read_varint take_bytes scan_list
deep = refl

-- `<a=%true>"x\"" /* c */` in text YSON
text_scanned :
    scan_value std false (
      32 ∷ b'<' ∷ b'a' ∷ b'=' ∷ b'%' ∷ b't' ∷ b'r' ∷ b'u' ∷ b'e' ∷ b'>' ∷ b'"' ∷ b'x' ∷ 0x5c ∷ b'"'
      ∷ b'"' ∷ 32 ∷ [])
    ≡ ok (complete 15)
unfolding scan_value scan_tree next_token skip_ignored parse_text_token scan_fragment scan_all
    scan_items peek_byte scan_pair unquoted_string special_value quoted_string
text_scanned = refl

text_comment : scan_value std false (b'/' ∷ b'*' ∷ b'*' ∷ b'/' ∷ b'4' ∷ b'2' ∷ []) ≡ ok (complete 6)
unfolding scan_value scan_tree next_token skip_ignored parse_text_token text_number
text_comment = refl

-- In text YSON a buffer that ends inside `%true` is an error, not a wish for more bytes.
text_cut :
    scan_value std false (b'{' ∷ b'a' ∷ b'=' ∷ b'%' ∷ b't' ∷ b'r' ∷ [])
    ≡ err
        (custom "Invalid special value: expected 'true', 'false', 'nan', 'inf' or '-inf' after '%'")
unfolding scan_value scan_tree next_token skip_ignored parse_text_token scan_fragment scan_all
    scan_items peek_byte scan_pair unquoted_string special_value
text_cut = refl

scan_value-append_example : scan_value std true (one ++ (b';' ∷ [])) ≡ ok (complete 8)
unfolding scan_tree next_token parse_binary_token scan_fragment scan_all scan_items peek_byte
    scan_pair lex_string lex_varint read_varint take_bytes
scan_value-append_example =
    scan_value-append std one (b';' ∷ []) (ok (complete 8)) (unfold scan_value in refl) (λ same. cc)

scan_value-take_example : scan_value std true (take 7 one) ≡ ok incomplete
unfolding scan_tree next_token parse_binary_token scan_fragment scan_all scan_items peek_byte
    scan_pair lex_string lex_varint read_varint take_bytes
scan_value-take_example = scan_value-take std one 8 7 (unfold scan_value in refl) (omega arith)

scan_value-out_of_fuel_example : scan_value std true one ≢ err out_of_fuel
scan_value-out_of_fuel_example = scan_value-out_of_fuel std one
