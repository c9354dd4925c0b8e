-- ===== src/Yson/Lexer/Text.antt =====
-- crates/ytsaurus-yson/src/lexer.rs: numbers and the other tokens of text YSON. How the standard
-- library reads a float is a parameter.
use Prim.Native.String.{String, ◌++◌ as ◌+++◌}
use ytsaurus_rs.Base.{
  ℕ, ◌+◌, ◌-◌, ◌*◌, ◌%◌, ◌^◌, List, [], ◌∷◌, ◌++◌, length, Option, none, some, Bool, true, false,
  leb, ◌==◌, ◌||◌, if◌then◌else◌, Result, ok, err,
}
use ytsaurus_rs.Yson.{YsonError, invalid_marker, custom}
use ytsaurus_rs.Yson.Lexer.{
  Token, Cursor, Lex, advance, string, int64, uint64, double, boolean, entity, begin_attributes,
  end_attributes, begin_list, end_list, begin_map, end_map, key_value_separator, item_separator,
}
use ytsaurus_rs.Yson.Lexer.Ignored.{is_digit, is_alphabetic, span, starts_with}
use ytsaurus_rs.Yson.Lexer.Quoted.{quoted_string}

-- The value of decimal digits, if there are any and nothing else.
abbrev pub decimal_from : ℕ → List ℕ → Option ℕ
decimal_from acc [] = some acc
decimal_from acc (b ∷ bs) = if is_digit b then decimal_from (acc * 10 + (b - b'0')) bs else none

abbrev pub decimal : List ℕ → Option ℕ
decimal [] = none
decimal (b ∷ bs) = decimal_from 0 (b ∷ bs)

abbrev pub within : ℕ → Option ℕ → Option ℕ
within limit none = none
within limit (some n) = if leb n limit then some n else none

-- `str::parse::<u64>`
abbrev pub parse_u64 : List ℕ → Option ℕ
parse_u64 [] = none
parse_u64 (b ∷ bs) = within (2 ^ 64 - 1) (if b == b'+' then decimal bs else decimal (b ∷ bs))

abbrev pub negative : Option ℕ → Option ℕ
negative none = none
negative (some n) = some ((2 ^ 64 - n) % 2 ^ 64)

-- `str::parse::<i64>`, as a bit pattern.
abbrev pub parse_i64 : List ℕ → Option ℕ
parse_i64 [] = none
parse_i64 (b ∷ bs) =
    if b == b'-'
    then negative (within (2 ^ 63) (decimal bs))
    else within (2 ^ 63 - 1) (if b == b'+' then decimal bs else decimal (b ∷ bs))

-- The loop of a number: its bytes without a final `u`, whether that was there, and whether a dot or an
-- exponent was.
abbrev pub number_span : List ℕ → List ℕ × Bool × Bool × List ℕ
number_span [] = ([], false, false, [])
number_span (b ∷ rest) =
    let (taken, unsigned, dotted, left) = number_span rest in
    if is_digit b || b == b'-' || b == b'+'
    then (b ∷ taken, unsigned, dotted, left)
    else if b == b'.' || b == b'e' || b == b'E'
    then (b ∷ taken, unsigned, true, left)
    else if b == b'u'
    then ([], true, false, rest)
    else ([], false, false, b ∷ rest)

abbrev pub number_or {ℓ} : {A : Type ℓ} → YsonError → (ℕ → A) → Option ℕ → Result YsonError A
number_or e build none = err e
number_or e build (some v) = ok (build v)

abbrev pub at_rest : List ℕ → Cursor → Cursor
at_rest rest c = record { rest = rest; pos = c.pos + (length c.rest - length rest) }

-- The text of the bytes of a number, as an error quotes it, and `str::parse::<f64>`.
module _ (as_text : List ℕ → String) (parse_f64 : List ℕ → Option ℕ) where
  abbrev pub number_token : List ℕ → Bool → Bool → Result YsonError Token
  number_token s unsigned dotted =
      if unsigned
      then number_or (custom ("Invalid uint64: " +++ as_text (s ++ (b'u' ∷ [])))) uint64
          (parse_u64 s)
      else if dotted
      then number_or (custom ("Invalid double: " +++ as_text s)) double (parse_f64 s)
      else number_or (custom ("Invalid int64: " +++ as_text s)) int64 (parse_i64 s)

  unfoldable pub text_number : Lex Token
  text_number c =
      let (s, unsigned, dotted, rest) = number_span c.rest in
      elim (number_token s unsigned dotted) [
        | err e ↦ err e
        | ok token ↦ ok (token, at_rest rest c)
      ]

  -- Behind the percent sign.
  unfoldable pub special_value : Lex Token
  special_value c =
      if starts_with (b't' ∷ b'r' ∷ b'u' ∷ b'e' ∷ []) c.rest
      then ok (boolean true, advance 4 c)
      else if starts_with (b'f' ∷ b'a' ∷ b'l' ∷ b's' ∷ b'e' ∷ []) c.rest
      then ok (boolean false, advance 5 c)
      else if starts_with (b'n' ∷ b'a' ∷ b'n' ∷ []) c.rest
      then ok (double 0x7ff8_0000_0000_0000, advance 3 c)
      else if starts_with (b'i' ∷ b'n' ∷ b'f' ∷ []) c.rest
      then ok (double 0x7ff0_0000_0000_0000, advance 3 c)
      else if starts_with (b'-' ∷ b'i' ∷ b'n' ∷ b'f' ∷ []) c.rest
      then ok (double 0xfff0_0000_0000_0000, advance 4 c)
      else err (
          custom
            "Invalid special value: expected 'true', 'false', 'nan', 'inf' or '-inf' after '%'")

  abbrev pub is_unquoted : ℕ → Bool
  is_unquoted b = is_alphabetic b || is_digit b || b == b'_' || b == b'-' || b == b'.'

  unfoldable pub unquoted_string : Lex Token
  unquoted_string c =
      let (slice, rest) = span is_unquoted c.rest in
      elim slice [
        | [] ↦ err (custom "Empty unquoted string")
        | b ∷ bs ↦ ok (string (b ∷ bs), at_rest rest c)
      ]

  abbrev pub punctuation : ℕ → Option Token
  punctuation byte =
      if byte == b'['
      then some begin_list
      else if byte == b']'
      then some end_list
      else if byte == b'{'
      then some begin_map
      else if byte == b'}'
      then some end_map
      else if byte == b'<'
      then some begin_attributes
      else if byte == b'>'
      then some end_attributes
      else if byte == b'='
      then some key_value_separator
      else if byte == b';'
      then some item_separator
      else if byte == b'#'
      then some entity
      else none

  -- The match of `parse_text_token` behind the punctuation, on the byte at the cursor.
  abbrev pub other_text_token : ℕ → Lex Token
  other_text_token byte c =
      if byte == b'"'
      then quoted_string (advance 1 c)
      else if is_digit byte || byte == b'-' || byte == b'+'
      then text_number c
      else if byte == b'%'
      then special_value (advance 1 c)
      else if is_alphabetic byte || byte == b'_'
      then unquoted_string c
      else err (invalid_marker byte c.pos)

  unfoldable pub parse_text_token : ℕ → Lex Token
  parse_text_token byte c = elim (punctuation byte) [
    | some token ↦ ok (token, advance 1 c)
    | none ↦ other_text_token byte c
  ]
