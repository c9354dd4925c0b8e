-- ===== src/Yson/Lexer/Quoted.antt =====
-- crates/ytsaurus-yson/src/lexer.rs: quoted strings and their escapes.
use ytsaurus_rs.Base.{
  ℕ, ◌+◌, ◌-◌, ◌*◌, List, [], ◌∷◌, ◌++◌, take, Option, none, some, Bool, true, false, leb, ◌==◌,
  ◌&&◌, if◌then◌else◌, Result, ok, err,
}
use ytsaurus_rs.Base.Actions.{pure, continue_with}
use ytsaurus_rs.Yson.{YsonError, unexpected_eof, custom}
use ytsaurus_rs.Yson.Lexer.{Token, Cursor, Lex, advance, string}
use ytsaurus_rs.Yson.Lexer.Ignored.{is_digit, is_octal}

-- The first loop of a quoted string: the length up to the quote, and whether there are escapes.
abbrev pub closing_quote : List ℕ → ℕ → Bool → Result ℕ (ℕ × Bool)
closing_quote [] current escapes = err current
closing_quote (b ∷ []) current escapes =
    if b == b'"'
    then ok (current, escapes)
    else if b == 0x5c
    then err (current + 2)
    else err (current + 1)
closing_quote (b ∷ c ∷ rest) current escapes =
    let behind = closing_quote rest (current + 2) true in
    let next = closing_quote (c ∷ rest) (current + 1) escapes in
    if b == b'"' then ok (current, escapes) else if b == 0x5c then behind else next

abbrev pub hex_digit : ℕ → Option ℕ
hex_digit b =
    if is_digit b
    then some (b - b'0')
    else if leb b'a' b && leb b b'f'
    then some (b - b'a' + 10)
    else if leb b'A' b && leb b b'F'
    then some (b - b'A' + 10)
    else none

-- `u8::from_str_radix` on two bytes, which takes a leading plus.
abbrev pub hex_byte : ℕ → ℕ → Option ℕ
hex_byte high low = elim (hex_digit low) [
  | none ↦ none
  | some l ↦
      if high == b'+'
      then some l
      else elim (hex_digit high) [ none ↦ none | some h ↦ some (h * 16 + l) ]
]

abbrev pub simple_escape : ℕ → ℕ
simple_escape c = if c == b'n' then 10 else if c == b'r' then 13 else if c == b't' then 9 else c

abbrev pub Unescaped : Type 0
Unescaped = Result YsonError (List ℕ × Cursor)

-- Where the second loop stands in an escape: behind the backslash; behind the `x` at a position, with
-- or without the first digit; behind one octal digit or two.
pub data Mode : Type 0 where
  plain escaped : Mode
  hex_high : (at_ : ℕ) → Mode
  hex_low : (at_ high : ℕ) → Mode
  octal_second octal_third : (val : ℕ) → Mode

abbrev pub plain_byte : ℕ → (Mode → ℕ → List ℕ → Unescaped) → List ℕ → ℕ → List ℕ → Unescaped
plain_byte b rec rest pos buf =
    if b == b'"'
    then ok (buf, record { rest = rest; pos = pos + 1 })
    else if b == 0x5c
    then rec escaped (pos + 1) buf
    else rec plain (pos + 1) (buf ++ (b ∷ []))

-- One byte of the loop, over what it does with the bytes behind it.
abbrev pub unescape_byte :
    ℕ → (Mode → ℕ → List ℕ → Unescaped) → List ℕ → Mode → ℕ → List ℕ → Unescaped
unescape_byte b rec rest plain pos buf = plain_byte b rec rest pos buf
unescape_byte b rec rest escaped pos buf =
    if b == b'x'
    then rec (hex_high pos) (pos + 1) buf
    else if is_octal b
    then rec (octal_second (b - b'0')) (pos + 1) buf
    else rec plain (pos + 1) (buf ++ (simple_escape b ∷ []))
unescape_byte b rec rest (hex_high at_) pos buf = rec (hex_low at_ b) (pos + 1) buf
unescape_byte b rec rest (hex_low at_ high) pos buf = elim (hex_byte high b) [
  | none ↦ err (custom "Invalid hex escape")
  | some byte ↦ rec plain (pos + 1) (buf ++ (byte ∷ []))
]
unescape_byte b rec rest (octal_second val) pos buf =
    if is_octal b
    then rec (octal_third (val * 8 + (b - b'0'))) (pos + 1) buf
    else plain_byte b rec rest pos (buf ++ (val ∷ []))
unescape_byte b rec rest (octal_third val) pos buf =
    if is_octal b && leb (val * 8 + (b - b'0')) 255
    then rec plain (pos + 1) (buf ++ ((val * 8 + (b - b'0')) ∷ []))
    else plain_byte b rec rest pos (buf ++ (val ∷ []))

abbrev pub unescape_end : Mode → ℕ → Unescaped
unescape_end (hex_high at_) pos = err (unexpected_eof at_)
unescape_end (hex_low at_ high) pos = err (unexpected_eof at_)
unescape_end mode pos = err (unexpected_eof pos)

unfoldable pub unescape : List ℕ → Mode → ℕ → List ℕ → Unescaped
unescape [] mode pos buf = unescape_end mode pos
unescape (b ∷ rest) mode pos buf = unescape_byte b (unescape rest) rest mode pos buf

-- Behind the opening quote.
unfoldable pub quoted_string : Lex Token
unfolding unescape
quoted_string c = elim (closing_quote c.rest c.pos false) [
  | err current ↦ err (unexpected_eof current)
  | ok (current, escapes) ↦
      if escapes
      then continue_with (unescape c.rest plain c.pos []) (λ buf. pure (string buf))
      else ok (string (take (current - c.pos) c.rest), advance (current - c.pos + 1) c)
]
