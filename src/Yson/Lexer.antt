-- ===== src/Yson/Lexer.antt =====
-- crates/ytsaurus-yson/src/lexer.rs and the tokens of node.rs: the iterator over tokens, and binary
-- YSON. The cursor is the input behind `pos`, since the lexer never looks back.
pub mod Ignored
pub mod Quoted
pub mod Text
pub mod Tokens
use ytsaurus_rs.Base.{
  ℕ, zero, suc, ◌+◌, ◌-◌, ◌^◌, List, [], ◌∷◌, length, take, drop, Option, none, some, ◌==◌, Bool,
  true, false, ltb, leb, if◌then◌else◌, from_le, Result, ok, err,
}
use ytsaurus_rs.Base.Actions.{Action, pure, throw, ◌>>=◌, ◌>>◌}
use ytsaurus_rs.Yson.{YsonError, eof, unexpected_eof, invalid_marker, custom}
use ytsaurus_rs.Yson.Varint.{read_uvarint, read_varint}

-- A signed number and a float are their 64-bit patterns.
pub data Token : Type 0 where
  begin_attributes end_attributes begin_list end_list begin_map end_map : Token
  string : List ℕ → Token
  int64 uint64 double : ℕ → Token
  boolean : Bool → Token
  entity key_value_separator item_separator : Token

-- `YsonIterator`, but for `is_binary`, which stays the same and is an argument below.
pub record Cursor : Type 0 where
  pub rest : List ℕ
  pub pos : ℕ

abbrev pub Lex {ℓ} : Type ℓ → Type ℓ
Lex A = Action Cursor YsonError A

abbrev pub begin : List ℕ → Cursor
begin input = record { rest = input; pos = 0 }

abbrev pub advance : ℕ → Cursor → Cursor
advance n c = record { rest = drop n c.rest; pos = c.pos + n }

-- `self.input.get(pos..pos + n).ok_or(UnexpectedEof(pos))`, and the step over it.
unfoldable pub take_bytes : ℕ → Lex (List ℕ)
take_bytes n c =
    if ltb (length c.rest) n then err (unexpected_eof c.pos) else ok (take n c.rest, advance n c)

-- A varint read from the rest of the input, and the step over its bytes.
abbrev pub step_over : Cursor → Result YsonError (ℕ × ℕ) → Result YsonError (ℕ × Cursor)
step_over c (ok (v, read)) = ok (v, advance read c)
step_over c (err e) = err e

unfoldable pub lex_uvarint : Lex ℕ
lex_uvarint c = step_over c (read_uvarint c.rest)

unfoldable pub lex_varint : Lex ℕ
lex_varint c = step_over c (read_varint c.rest)

-- The length and the bytes of a string; a length whose sign bit is set is negative.
unfoldable pub lex_string : Lex Token
lex_string = do
  len ← lex_varint
  if leb (2 ^ 63) len
      then throw (custom "String length cannot be negative")
      else (do s ← take_bytes len; pure (string s))

-- The markers that are tokens of their own.
abbrev pub plain_token : ℕ → Option Token
plain_token byte =
    if byte == 0x04
    then some (boolean false)
    else if byte == 0x05
    then some (boolean true)
    else if byte == b'#'
    then some entity
    else if byte == b'<'
    then some begin_attributes
    else if byte == b'>'
    then some end_attributes
    else if byte == b'['
    then some begin_list
    else if byte == b']'
    then some end_list
    else if byte == b'{'
    then some begin_map
    else if byte == b'}'
    then some end_map
    else if byte == b'='
    then some key_value_separator
    else if byte == b';'
    then some item_separator
    else none

abbrev pub plain_or_invalid : ℕ → Option Token → Lex Token
plain_or_invalid byte (some token) c = ok (token, c)
plain_or_invalid byte none c = err (invalid_marker byte (c.pos - 1))

-- `parse_binary_token`, behind the byte that it has read.
unfoldable pub parse_binary_token : ℕ → Lex Token
parse_binary_token byte =
    if byte == 0x01
    then lex_string
    else if byte == 0x02
    then (do pure (int64 (← lex_varint)))
    else if byte == 0x03
    then (do pure (double (from_le (← take_bytes 8))))
    else if byte == 0x06
    then (do pure (uint64 (← lex_uvarint)))
    else plain_or_invalid byte (plain_token byte)
