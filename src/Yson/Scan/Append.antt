-- ===== src/Yson/Scan/Append.antt =====
-- Binary YSON: bytes behind what was read do not change what is read.
use ytsaurus_rs.Base.{
  ◌^◌, ℕ, zero, suc, ◌+◌, ◌≤◌, List, [], ◌∷◌, ◌++◌, length, Option, none, some, Bool, true, false,
  ltb, leb, ◌==◌, if◌then◌else◌, from_le, ◌≡◌, refl, arith, Result, ok, err, Bool-cases, inl, inr,
  ltb→le, le→ltb, length-append, take-append_le, drop-append_le,
}
use ytsaurus_rs.Base.Actions.{pure, throw, continue_with, ◌>>=◌}
use ytsaurus_rs.Yson.{is_open, YsonError, custom}
use ytsaurus_rs.Yson.Varint.{read_uvarint, read_varint}
use ytsaurus_rs.Yson.Varint.Bounds.{
  read_uvarint-append, read_uvarint-le, read_uvarint-err, read_varint-append, read_varint-le,
  read_varint-err,
}
use ytsaurus_rs.Yson.Lexer.{
  Token, Cursor, Lex, take_bytes, step_over, lex_uvarint, lex_varint, lex_string, plain_token,
  plain_or_invalid, parse_binary_token, string, int64, uint64, double, boolean, entity, begin_list,
  begin_map, begin_attributes, key_value_separator,
}
use ytsaurus_rs.Yson.Lexer.Tokens.{Std, peek_at, first_byte, token_at, peek_byte, next_token}
use ytsaurus_rs.Yson.Scan.{
  limit_exceeded, nested, scan_items, scan_all, scan_pair, scan_list, scan_fragment, scan_object,
  past_attributes, scan_tree, expect_key, expect_separator,
}

abbrev pub longer : List ℕ → Cursor → Cursor
longer more c = record { rest = c.rest ++ more; pos = c.pos }

-- The second answer is the first one, with more bytes left; an open error may turn into anything.
abbrev pub Extends {ℓ} :
    {A : Type ℓ} → List ℕ → Result YsonError (A × Cursor) → Result YsonError (A × Cursor) → Type ℓ
Extends more (ok (a, c)) r = r ≡ ok (a, longer more c)
Extends more (err e) r = is_open e ≡ false → r ≡ err e

abbrev pub IsStable {ℓ} : {A : Type ℓ} → Lex A → Type ℓ
IsStable m = (c : Cursor) (more : List ℕ) → Extends more (m c) (m (longer more c))

module _ {ℓ κ} {A : Type ℓ} {B : Type κ} where
  Extends-continue :
      (more : List ℕ) (r r' : Result YsonError (A × Cursor)) (f f' : A → Lex B)
      → Extends more r r'
      → ((a : A) (c : Cursor) → Extends more (f a c) (f' a (longer more c)))
      → Extends more (continue_with r f) (continue_with r' f')
  Extends-continue more (ok (a, c)) r' f f' h k = rw h (k a c)
  Extends-continue more (err e) r' f f' h k = λ closed. rw (h closed) refl

  bind-IsStable :
      (m : Lex A) (f : A → Lex B) → IsStable m → ((a : A) → IsStable (f a)) → IsStable (m >>= f)
  bind-IsStable m f h k c more =
      Extends-continue more (m c) (m (longer more c)) f f (h c more) (λ a c'. k a c' more)

module _ {ℓ} {A : Type ℓ} where
  pure-IsStable : (a : A) → IsStable (pure a)
  pure-IsStable a c more = refl

  throw-IsStable : (e : YsonError) → IsStable {A = A} (throw e)
  throw-IsStable e c more = λ closed. refl

  if-IsStable : (b : Bool) (m k : Lex A) → IsStable m → IsStable k → IsStable (if b then m else k)
  if-IsStable true m k h h' = h
  if-IsStable false m k h h' = h'

take_bytes-IsStable : (n : ℕ) → IsStable (take_bytes n)
unfolding take_bytes
take_bytes-IsStable n c more = elim (Bool-cases (ltb (length c.rest) n)) [
  | inl short ↦ rw short (λ closed. cc)
  | inr long ↦
      let fits : n ≤ length c.rest = ltb→le _ _ long in
      let still : ltb (length (c.rest ++ more)) n ≡ false =
        le→ltb (length (c.rest ++ more)) n (omega (arith, length-append c.rest more)) in
      rw (long, still, take-append_le n c.rest more fits, drop-append_le n c.rest more fits) refl
]

step_over-Extends :
    (c : Cursor) (more : List ℕ) (r r' : Result YsonError (ℕ × ℕ))
    → ((v n : ℕ) → r ≡ ok (v, n) → (r' ≡ ok (v, n)) × (n ≤ length c.rest))
    → ((e : YsonError) → r ≡ err e → is_open e ≡ false → r' ≡ err e)
    → Extends more (step_over c r) (step_over (longer more c) r')
step_over-Extends c more (ok (v, n)) r' h k =
    let found : (r' ≡ ok (v, n)) × (n ≤ length c.rest) = h v n refl in
    rw (found.0, drop-append_le n c.rest more found.1) refl
step_over-Extends c more (err e) r' h k = λ closed. rw (k e refl closed) refl

lex_uvarint-IsStable : IsStable lex_uvarint
unfolding lex_uvarint
lex_uvarint-IsStable c more =
    step_over-Extends c more (read_uvarint c.rest) (read_uvarint (c.rest ++ more))
      (λ v n e. (read_uvarint-append c.rest more (v, n) e, (read_uvarint-le c.rest v n e).1))
      (λ e h closed. read_uvarint-err c.rest more e h closed)

lex_varint-IsStable : IsStable lex_varint
unfolding lex_varint
lex_varint-IsStable c more =
    step_over-Extends c more (read_varint c.rest) (read_varint (c.rest ++ more))
      (λ v n e. (read_varint-append c.rest more (v, n) e, (read_varint-le c.rest v n e).1))
      (λ e h closed. read_varint-err c.rest more e h closed)

lex_string-IsStable : IsStable lex_string
unfolding lex_string
lex_string-IsStable = bind-IsStable lex_varint _ lex_varint-IsStable (λ len.
    if-IsStable (leb (2 ^ 63) len) _ _ (throw-IsStable (custom "String length cannot be negative"))
      (bind-IsStable (take_bytes len) _ (take_bytes-IsStable len) (λ s. pure-IsStable (string s))))

plain_or_invalid-IsStable :
    (byte : ℕ) (token : Option Token) → IsStable (plain_or_invalid byte token)
plain_or_invalid-IsStable byte none c more = λ closed. refl
plain_or_invalid-IsStable byte (some token) c more = refl

parse_binary_token-IsStable : (byte : ℕ) → IsStable (parse_binary_token byte)
unfolding parse_binary_token
parse_binary_token-IsStable byte = if-IsStable (byte == 0x01) _ _ lex_string-IsStable (
    if-IsStable (byte == 0x02) _ _
      (bind-IsStable lex_varint _ lex_varint-IsStable (λ v. pure-IsStable (int64 v)))
      (if-IsStable (byte == 0x03) _ _
        (bind-IsStable (take_bytes 8) _ (take_bytes-IsStable 8)
          (λ bs. pure-IsStable (double (from_le bs))))
        (if-IsStable (byte == 0x06) _ _
          (bind-IsStable lex_uvarint _ lex_uvarint-IsStable (λ v. pure-IsStable (uint64 v)))
          (plain_or_invalid-IsStable byte (plain_token byte)))))

peek_byte-IsStable : IsStable (peek_byte true)
unfolding peek_byte
peek_byte-IsStable c more = go c.rest
  where
    go :
        (rest : List ℕ)
        → Extends more
            (peek_at (first_byte rest) (record { rest = rest; pos = c.pos }))
            (peek_at (first_byte (rest ++ more)) (record { rest = rest ++ more; pos = c.pos }))
    go [] = λ closed. cc
    go (b ∷ rest) = refl

module _ (std : Std) where
  next_token-IsStable : IsStable (next_token std true)
  unfolding next_token
  next_token-IsStable c more = go c.rest
    where
      go :
          (rest : List ℕ)
          → Extends more
              (token_at std true (first_byte rest) (record { rest = rest; pos = c.pos }))
              (token_at std true
                (first_byte (rest ++ more))
                (record { rest = rest ++ more; pos = c.pos }))
      go [] = λ closed. cc
      go (b ∷ rest) = parse_binary_token-IsStable b (record { rest = rest; pos = c.pos + 1 }) more

  module _ (end_byte : ℕ) (item : Lex (Unit {0})) (h : IsStable item) where
    -- More fuel goes with the longer input.
    scan_items-Extends :
        (fuel fuel' : ℕ) (c : Cursor) (more : List ℕ)
        → fuel ≤ fuel'
        → Extends more
            (scan_items std true fuel end_byte item c)
            (scan_items std true fuel' end_byte item (longer more c))
    unfolding scan_items
    scan_items-Extends zero fuel' c more le = λ closed. cc
    scan_items-Extends (suc fuel) zero c more le = absurd (omega arith)
    scan_items-Extends (suc fuel) (suc fuel') c more le =
        let ih : (c' : Cursor)
            → Extends more (scan_items std true fuel end_byte item c')
                (scan_items std true fuel' end_byte item (longer more c')) =
          λ c'. scan_items-Extends fuel fuel' c' more (omega arith) in
        Extends-continue more (peek_byte true c) (peek_byte true (longer more c)) _ _
          (peek_byte-IsStable c more)
          (λ peeked c1. elim (Bool-cases (peeked == end_byte)) [
            | inl ends ↦ rw ends (
                Extends-continue more (next_token std true c1)
                  (next_token std true (longer more c1)) _ _ (next_token-IsStable c1 more)
                  (λ token c2. refl))
            | inr goes ↦ rw goes (elim (Bool-cases (peeked == b';')) [
              | inl sep ↦ rw sep (
                  Extends-continue more (next_token std true c1)
                    (next_token std true (longer more c1)) _ _ (next_token-IsStable c1 more)
                    (λ token c2. ih c2))
              | inr an_item ↦ rw an_item (
                  Extends-continue more (item c1) (item (longer more c1)) _ _ (h c1 more)
                    (λ u c2. ih c2))
            ])
          ])

    scan_all-IsStable : IsStable (scan_all std true end_byte item)
    unfolding scan_all
    scan_all-IsStable c more =
        scan_items-Extends (suc (length c.rest)) (suc (length (c.rest ++ more))) c more
          (omega (arith, length-append c.rest more))

  -- The parts of a tree, over the trees below them.
  module _ (left : ℕ) (tree : Lex (Unit {0})) (h : IsStable tree) where
    nested-IsStable : (loop : Lex (Unit {0})) → IsStable loop → IsStable (nested left loop)
    nested-IsStable loop k = go left
      where
        go : (n : ℕ) → IsStable (nested n loop)
        go zero = throw-IsStable limit_exceeded
        go (suc n) = k

    expect_key-IsStable : (token : Token) → IsStable (expect_key std true token)
    expect_key-IsStable (string s) c more = refl
    expect_key-IsStable _ c more = λ closed. refl

    expect_separator-IsStable : (token : Token) → IsStable (expect_separator std true token)
    expect_separator-IsStable key_value_separator c more = refl
    expect_separator-IsStable _ c more = λ closed. refl

    scan_pair-IsStable : IsStable (scan_pair std true tree)
    unfolding scan_pair
    scan_pair-IsStable = bind-IsStable (next_token std true) _ next_token-IsStable (λ key.
        bind-IsStable (expect_key std true key) _ (expect_key-IsStable key) (λ u.
          bind-IsStable (next_token std true) _ next_token-IsStable (λ separator.
            bind-IsStable (expect_separator std true separator) _
              (expect_separator-IsStable separator) (λ u'. h))))

    scan_list-IsStable : IsStable (scan_list std true left tree)
    unfolding scan_list
    scan_list-IsStable =
        nested-IsStable (scan_all std true b']' tree) (scan_all-IsStable b']' tree h)

    scan_fragment-IsStable : (end_byte : ℕ) → IsStable (scan_fragment std true end_byte left tree)
    unfolding scan_fragment
    scan_fragment-IsStable end_byte =
        nested-IsStable (scan_all std true end_byte (scan_pair std true tree))
          (scan_all-IsStable end_byte (scan_pair std true tree) scan_pair-IsStable)

    scan_object-IsStable : (token : Token) → IsStable (scan_object std true left tree token)
    scan_object-IsStable (string s) c more = refl
    scan_object-IsStable (int64 v) c more = refl
    scan_object-IsStable (uint64 v) c more = refl
    scan_object-IsStable (double v) c more = refl
    scan_object-IsStable (boolean v) c more = refl
    scan_object-IsStable entity c more = refl
    scan_object-IsStable begin_list c more = scan_list-IsStable c more
    scan_object-IsStable begin_map c more = scan_fragment-IsStable b'}' c more
    scan_object-IsStable _ c more = λ closed. refl

    past_attributes-IsStable : (token : Token) → IsStable (past_attributes std true left tree token)
    past_attributes-IsStable begin_attributes c more =
        bind-IsStable (scan_fragment std true b'>' left tree) _ (scan_fragment-IsStable b'>')
          (λ u. next_token-IsStable) c more
    past_attributes-IsStable _ c more = refl

  pub scan_tree-IsStable : (left : ℕ) → IsStable (scan_tree std true left)
  unfolding scan_tree
  scan_tree-IsStable zero = throw-IsStable limit_exceeded
  scan_tree-IsStable (suc left) =
      let below : IsStable (scan_tree std true left) = scan_tree-IsStable left in
      bind-IsStable (next_token std true) _ next_token-IsStable (λ first.
        bind-IsStable (past_attributes std true left (scan_tree std true left) first) _
          (past_attributes-IsStable left (scan_tree std true left) below first)
          (λ token. scan_object-IsStable left (scan_tree std true left) below token))
