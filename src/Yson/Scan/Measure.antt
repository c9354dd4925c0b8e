-- ===== src/Yson/Scan/Measure.antt =====
-- Binary YSON: how far the scan moves its cursor, and the fuel of its loop.
use ytsaurus_rs.Base.{
  ℕ, zero, suc, ◌+◌, ◌^◌, ◌≤◌, ◌<◌, List, [], ◌∷◌, length, Option, none, some, Bool, true, false,
  ltb, leb, ◌==◌, if◌then◌else◌, from_le, ◌≡◌, ◌≢◌, refl, arith, Result, ok, err, Bool-cases, inl,
  inr, ltb→le, length-drop,
}
use ytsaurus_rs.Base.Actions.{pure, throw, continue_with, ◌>>=◌}
use ytsaurus_rs.Yson.{YsonError, custom, out_of_fuel}
use ytsaurus_rs.Yson.Varint.{read_uvarint, read_varint}
use ytsaurus_rs.Yson.Varint.Bounds.{
  read_uvarint-le, read_varint-le, read_uvarint-out_of_fuel, read_varint-out_of_fuel,
}
use ytsaurus_rs.Yson.Lexer.{
  Token, Cursor, Lex, take_bytes, step_over, lex_uvarint, lex_varint, lex_string, plain_token,
  plain_or_invalid, parse_binary_token, string, int64, uint64, double, boolean, entity, begin_list,
  begin_map, begin_attributes, key_value_separator,
}
use ytsaurus_rs.Yson.Lexer.Tokens.{Std, peek_at, first_byte, token_at, peek_byte, next_token}
use ytsaurus_rs.Yson.Scan.{
  nested, scan_items, scan_all, scan_pair, scan_list, scan_fragment, scan_object, past_attributes,
  scan_tree, expect_key, expect_separator,
}

-- The answer stands at least `least` bytes further in the same input, and no fuel was lacking.
abbrev pub Moved {ℓ} : {A : Type ℓ} → ℕ → Cursor → Result YsonError (A × Cursor) → Type 0
Moved least c (ok (a, c')) =
    (c'.pos + length c'.rest ≡ c.pos + length c.rest) × (length c'.rest + least ≤ length c.rest)
Moved least c (err e) = e ≢ out_of_fuel

abbrev pub Moves {ℓ} : {A : Type ℓ} → ℕ → Lex A → Type 0
Moves least m = (c : Cursor) → Moved least c (m c)

module _ {ℓ κ} {A : Type ℓ} {B : Type κ} where
  Moved-continue :
      (k n : ℕ) (c : Cursor) (r : Result YsonError (A × Cursor)) (f : A → Lex B)
      → Moved k c r
      → ((a : A) (c' : Cursor) → (length c'.rest + k ≤ length c.rest) → Moved n c' (f a c'))
      → Moved (k + n) c (continue_with r f)
  Moved-continue k n c (ok (a, c')) f h rest = go (f a c') (rest a c' h.1)
    where
      go : (r : Result YsonError (B × Cursor)) → Moved n c' r → Moved (k + n) c r
      go (ok (b, c'')) moved = omega (arith, h, moved)
      go (err e) moved = moved
  Moved-continue k n c (err e) f h rest = h

  bind-Moves :
      (k n : ℕ) (m : Lex A) (f : A → Lex B)
      → Moves k m
      → ((a : A) → Moves n (f a))
      → Moves (k + n) (m >>= f)
  bind-Moves k n m f h rest c = Moved-continue k n c (m c) f (h c) (λ a c' le. rest a c')

module _ {ℓ} {A : Type ℓ} where
  less-Moved :
      (k n : ℕ) (c : Cursor) (r : Result YsonError (A × Cursor)) → n ≤ k → Moved k c r → Moved n c r
  less-Moved k n c (ok (a, c')) le h = omega (arith, h)
  less-Moved k n c (err e) le h = h

  pure-Moves : (a : A) → Moves 0 (pure a)
  pure-Moves a c = omega arith

  if-Moves : (n : ℕ) (b : Bool) (m k : Lex A) → Moves n m → Moves n k → Moves n (if b then m else k)
  if-Moves n true m k h h' = h
  if-Moves n false m k h h' = h'

throw-Moves {ℓ} : (A : Type ℓ) (n : ℕ) (e : YsonError) → e ≢ out_of_fuel → Moves {A = A} n (throw e)
throw-Moves A n e h c = h

take_bytes-Moves : (n : ℕ) → Moves 0 (take_bytes n)
unfolding take_bytes
take_bytes-Moves n c = elim (Bool-cases (ltb (length c.rest) n)) [
  | inl short ↦ rw short (λ same. cc)
  | inr long ↦ rw long (omega (arith, ltb→le (length c.rest) n long, length-drop n c.rest))
]

step_over-Moved :
    (c : Cursor) (r : Result YsonError (ℕ × ℕ))
    → ((v n : ℕ) → r ≡ ok (v, n) → (1 ≤ n) × (n ≤ length c.rest))
    → r ≢ err out_of_fuel
    → Moved 0 c (step_over c r)
step_over-Moved c (ok (v, n)) h k = omega (arith, h v n refl, length-drop n c.rest)
step_over-Moved c (err e) h k = λ same. k (rw same refl)

lex_uvarint-Moves : Moves 0 lex_uvarint
unfolding lex_uvarint
lex_uvarint-Moves c =
    step_over-Moved c (read_uvarint c.rest) (read_uvarint-le c.rest)
      (read_uvarint-out_of_fuel c.rest)

lex_varint-Moves : Moves 0 lex_varint
unfolding lex_varint
lex_varint-Moves c =
    step_over-Moved c (read_varint c.rest) (read_varint-le c.rest) (read_varint-out_of_fuel c.rest)

-- After a step that moves none, in a form that needs no sum.
then-Moves {ℓ κ} :
    {A : Type ℓ} {B : Type κ} (m : Lex A) (f : A → Lex B)
    → Moves 0 m
    → ((a : A) → Moves 0 (f a))
    → Moves 0 (m >>= f)
then-Moves m f h k c = less-Moved (0 + 0) 0 c _ (omega arith) (bind-Moves 0 0 m f h k c)

lex_string-Moves : Moves 0 lex_string
unfolding lex_string
lex_string-Moves = then-Moves lex_varint _ lex_varint-Moves (λ len.
    if-Moves 0 (leb (2 ^ 63) len) _ _
      (throw-Moves Token 0 (custom "String length cannot be negative") (λ same. cc))
      (then-Moves (take_bytes len) _ (take_bytes-Moves len) (λ s. pure-Moves (string s))))

plain_or_invalid-Moves : (byte : ℕ) (token : Option Token) → Moves 0 (plain_or_invalid byte token)
plain_or_invalid-Moves byte none c = λ same. cc
plain_or_invalid-Moves byte (some token) c = omega arith

parse_binary_token-Moves : (byte : ℕ) → Moves 0 (parse_binary_token byte)
unfolding parse_binary_token
parse_binary_token-Moves byte = if-Moves 0 (byte == 0x01) _ _ lex_string-Moves (
    if-Moves 0 (byte == 0x02) _ _
      (then-Moves lex_varint _ lex_varint-Moves (λ v. pure-Moves (int64 v)))
      (if-Moves 0 (byte == 0x03) _ _
        (then-Moves (take_bytes 8) _ (take_bytes-Moves 8) (λ bs. pure-Moves (double (from_le bs))))
        (if-Moves 0 (byte == 0x06) _ _
          (then-Moves lex_uvarint _ lex_uvarint-Moves (λ v. pure-Moves (uint64 v)))
          (plain_or_invalid-Moves byte (plain_token byte)))))

peek_byte-Moves : Moves 0 (peek_byte true)
unfolding peek_byte
peek_byte-Moves c = go c.rest
  where
    go :
        (rest : List ℕ)
        → Moved 0
            (record { rest = rest; pos = c.pos })
            (peek_at (first_byte rest) (record { rest = rest; pos = c.pos }))
    go [] = λ same. cc
    go (b ∷ rest) = omega arith

module _ (std : Std) where
  -- A token is one byte at least.
  next_token-Moves : Moves 1 (next_token std true)
  unfolding next_token
  next_token-Moves c = go c.rest
    where
      go :
          (rest : List ℕ)
          → Moved 1
              (record { rest = rest; pos = c.pos })
              (token_at std true (first_byte rest) (record { rest = rest; pos = c.pos }))
      go [] = λ same. cc
      go (b ∷ rest) =
          behind (parse_binary_token b (record { rest = rest; pos = c.pos + 1 }))
            (parse_binary_token-Moves b (record { rest = rest; pos = c.pos + 1 }))
        where
          behind :
              (r : Result YsonError (Token × Cursor))
              → Moved 0 (record { rest = rest; pos = c.pos + 1 }) r
              → Moved 1 (record { rest = b ∷ rest; pos = c.pos }) r
          behind (ok (t, c')) h = omega (arith, h)
          behind (err e) h = h

  module _ (end_byte : ℕ) (item : Lex (Unit {0})) (h : Moves 1 item) where
    scan_items-Moved :
        (fuel : ℕ) (c : Cursor)
        → length c.rest < fuel
        → Moved 0 c (scan_items std true fuel end_byte item c)
    unfolding scan_items
    scan_items-Moved zero c enough = absurd (omega arith)
    scan_items-Moved (suc fuel) c enough =
        let ih : (c' : Cursor)
            → length c'.rest < fuel
            → Moved 0 c' (scan_items std true fuel end_byte item c') =
          scan_items-Moved fuel in
        less-Moved (0 + 0) 0 c _ (omega arith) (
          Moved-continue 0 0 c (peek_byte true c) _ (peek_byte-Moves c) (λ peeked c1 le1.
            elim (Bool-cases (peeked == end_byte)) [
              | inl ends ↦ rw ends (
                  less-Moved (1 + 0) 0 c1 _ (omega arith) (
                    Moved-continue 1 0 c1 (next_token std true c1) _ (next_token-Moves c1)
                      (λ token c2 le2. omega arith)))
              | inr goes ↦ rw goes (elim (Bool-cases (peeked == b';')) [
                | inl sep ↦ rw sep (
                    less-Moved (1 + 0) 0 c1 _ (omega arith) (
                      Moved-continue 1 0 c1 (next_token std true c1) _ (next_token-Moves c1)
                        (λ token c2 le2. ih c2 (omega arith))))
                | inr an_item ↦ rw an_item (
                    less-Moved (1 + 0) 0 c1 _ (omega arith)
                      (Moved-continue 1 0 c1 (item c1) _ (h c1) (λ u c2 le2. ih c2 (omega arith))))
              ])
            ]))

    scan_all-Moves : Moves 0 (scan_all std true end_byte item)
    unfolding scan_all
    scan_all-Moves c = scan_items-Moved (suc (length c.rest)) c (omega arith)

  module _ (left : ℕ) (tree : Lex (Unit {0})) (h : Moves 1 tree) where
    nested-Moves : (loop : Lex (Unit {0})) → Moves 0 loop → Moves 0 (nested left loop)
    nested-Moves loop k = go left
      where
        go : (n : ℕ) → Moves 0 (nested n loop)
        go zero = λ c same. cc
        go (suc n) = k

    expect_key-Moves : (token : Token) → Moves 0 (expect_key std true token)
    expect_key-Moves (string s) c = omega arith
    expect_key-Moves _ c = λ same. cc

    expect_separator-Moves : (token : Token) → Moves 0 (expect_separator std true token)
    expect_separator-Moves key_value_separator c = omega arith
    expect_separator-Moves _ c = λ same. cc

    any-Moves {κ} : {A : Type κ} (m : Lex A) → Moves 1 m → Moves 0 m
    any-Moves m k c = less-Moved 1 0 c (m c) (omega arith) (k c)

    scan_pair-Moves : Moves 1 (scan_pair std true tree)
    unfolding scan_pair
    scan_pair-Moves c = less-Moved (1 + 0) 1 c _ (omega arith) (
        bind-Moves 1 0 (next_token std true) _ next_token-Moves
          (λ key. then-Moves (expect_key std true key) _ (expect_key-Moves key) (λ u.
            then-Moves (next_token std true) _ (any-Moves (next_token std true) next_token-Moves)
              (λ separator.
                then-Moves (expect_separator std true separator) _
                  (expect_separator-Moves separator) (λ u'. any-Moves tree h))))
          c)

    scan_list-Moves : Moves 0 (scan_list std true left tree)
    unfolding scan_list
    scan_list-Moves = nested-Moves (scan_all std true b']' tree) (scan_all-Moves b']' tree h)

    scan_fragment-Moves : (end_byte : ℕ) → Moves 0 (scan_fragment std true end_byte left tree)
    unfolding scan_fragment
    scan_fragment-Moves end_byte =
        nested-Moves (scan_all std true end_byte (scan_pair std true tree))
          (scan_all-Moves end_byte (scan_pair std true tree) scan_pair-Moves)

    scan_object-Moves : (token : Token) → Moves 0 (scan_object std true left tree token)
    scan_object-Moves (string s) c = omega arith
    scan_object-Moves (int64 v) c = omega arith
    scan_object-Moves (uint64 v) c = omega arith
    scan_object-Moves (double v) c = omega arith
    scan_object-Moves (boolean v) c = omega arith
    scan_object-Moves entity c = omega arith
    scan_object-Moves begin_list c = scan_list-Moves c
    scan_object-Moves begin_map c = scan_fragment-Moves b'}' c
    scan_object-Moves _ c = λ same. cc

    past_attributes-Moves : (token : Token) → Moves 0 (past_attributes std true left tree token)
    past_attributes-Moves begin_attributes c =
        then-Moves (scan_fragment std true b'>' left tree) _ (scan_fragment-Moves b'>')
          (λ u. any-Moves (next_token std true) next_token-Moves) c
    past_attributes-Moves _ c = omega arith

  pub scan_tree-Moves : (left : ℕ) → Moves 1 (scan_tree std true left)
  unfolding scan_tree
  scan_tree-Moves zero = λ c same. cc
  scan_tree-Moves (suc left) =
      let below : Moves 1 (scan_tree std true left) = scan_tree-Moves left in
      λ c. less-Moved (1 + 0) 1 c _ (omega arith) (
        bind-Moves 1 0 (next_token std true) _ next_token-Moves
          (λ first.
            then-Moves (past_attributes std true left (scan_tree std true left) first) _
              (past_attributes-Moves left (scan_tree std true left) below first)
              (λ token. scan_object-Moves left (scan_tree std true left) below token))
          c)
