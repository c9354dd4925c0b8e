-- ===== src/Yson/Lexer/Tokens.antt =====
-- crates/ytsaurus-yson/src/lexer.rs: the iterator over the tokens of either format.
use Prim.Native.String.{String}
use ytsaurus_rs.Base.{ℕ, List, [], ◌∷◌, Option, Bool, true, false, ok, err}
use ytsaurus_rs.Yson.{eof}
use ytsaurus_rs.Yson.Lexer.{Token, Cursor, Lex, advance, parse_binary_token}
use ytsaurus_rs.Yson.Lexer.Ignored.{skip_ignored}
use ytsaurus_rs.Yson.Lexer.Text.{at_rest, parse_text_token}

-- What the standard library does: a text of ASCII bytes, `str::parse::<f64>` with the bit pattern of
-- its answer, and the `Debug` form of a token.
pub record Std : Type 0 where
  pub as_text : List ℕ → String
  pub parse_f64 : List ℕ → Option ℕ
  pub debug : Token → String

-- Past what is ignored, which is nothing in binary YSON.
abbrev pub ready : Bool → Cursor → Cursor
ready true c = c
ready false c = at_rest (skip_ignored c.rest) c

abbrev pub first_byte : List ℕ → Option ℕ
first_byte [] = Option.none
first_byte (b ∷ rest) = Option.some b

abbrev pub peek_at : Option ℕ → Lex ℕ
peek_at Option.none c = err eof
peek_at (Option.some b) c = ok (b, c)

unfoldable pub peek_byte : Bool → Lex ℕ
peek_byte is_binary c = peek_at (first_byte (ready is_binary c).rest) (ready is_binary c)

abbrev pub token_at : Std → Bool → Option ℕ → Lex Token
token_at std is_binary Option.none c = err eof
token_at std true (Option.some b) c = parse_binary_token b (advance 1 c)
token_at std false (Option.some b) c = parse_text_token std.as_text std.parse_f64 b c

unfoldable pub next_token : Std → Bool → Lex Token
next_token std is_binary c =
    token_at std is_binary (first_byte (ready is_binary c).rest) (ready is_binary c)
