-- ===== src/Yson/Scan.antt =====
-- crates/ytsaurus-yson/src/scan.rs: where the first value of a buffer ends. `left` is
-- `MAX_DEPTH + 1 - depth`; the loop over the items of a list, a map or attributes runs on fuel, one
-- round more than there are bytes left.
pub mod Append
pub mod Measure
pub mod Boundary
mod Runs
use Prim.Native.String.{String}
use ytsaurus_rs.Base.{
  ℕ, zero, suc, ◌+◌, List, [], ◌∷◌, length, Bool, true, false, ◌==◌, if◌then◌else◌, Result, ok, err,
}
use ytsaurus_rs.Base.Actions.{Action, pure, throw, ◌>>=◌, ◌>>◌}
use ytsaurus_rs.Yson.{YsonError, eof, unexpected_eof, unexpected_token, custom, out_of_fuel}
use ytsaurus_rs.Yson.Lexer.{
  Token, Cursor, Lex, begin, begin_attributes, begin_list, begin_map, key_value_separator, string,
  int64, uint64, double, boolean, entity,
}
use ytsaurus_rs.Yson.Lexer.Tokens.{Std, peek_byte, next_token}

abbrev pub max_depth : ℕ
max_depth = 128

pub data Scan : Type 0 where
  complete : (len : ℕ) → Scan
  incomplete : Scan

abbrev pub limit_exceeded : YsonError
limit_exceeded = custom "Recursion limit exceeded"

-- The check at the head of `scan_list` and `scan_fragment`.
abbrev pub nested : ℕ → Lex (Unit {0}) → Lex (Unit {0})
nested zero loop = throw limit_exceeded
nested (suc left) loop = loop

-- Running out of bytes is a wish for more.
abbrev pub scanned : Result YsonError (Unit {0} × Cursor) → Result YsonError Scan
scanned (ok (u, c)) = ok (complete c.pos)
scanned (err eof) = ok incomplete
scanned (err (unexpected_eof at_)) = ok incomplete
scanned (err e) = err e

module _ (std : Std) (is_binary : Bool) where
  abbrev pub unexpected {ℓ} : {A : Type ℓ} → String → Token → Lex A
  unexpected expected token c = err (unexpected_token expected (std.debug token) c.pos)

  -- The loop of `scan_list` and of `scan_fragment`, by the byte that ends it and what an item is.
  unfoldable pub scan_items : ℕ → ℕ → Lex (Unit {0}) → Lex (Unit {0})
  scan_items zero end_byte item = throw out_of_fuel
  scan_items (suc fuel) end_byte item = do
    peeked ← peek_byte is_binary
    if peeked == end_byte
        then (do _ ← next_token std is_binary; pure tt)
        else if peeked == b';'
        then (do _ ← next_token std is_binary; scan_items fuel end_byte item)
        else (do item; scan_items fuel end_byte item)

  unfoldable pub scan_all : ℕ → Lex (Unit {0}) → Lex (Unit {0})
  scan_all end_byte item c = scan_items (suc (length c.rest)) end_byte item c

  abbrev pub expect_key : Token → Lex (Unit {0})
  expect_key (string s) = pure tt
  expect_key other = unexpected "a map key" other

  abbrev pub expect_separator : Token → Lex (Unit {0})
  expect_separator key_value_separator = pure tt
  expect_separator other = unexpected "'='" other

  -- A key, `=` and a tree.
  unfoldable pub scan_pair : Lex (Unit {0}) → Lex (Unit {0})
  scan_pair tree = do
    key ← next_token std is_binary
    expect_key key
    separator ← next_token std is_binary
    expect_separator separator
    tree

  unfoldable pub scan_list : ℕ → Lex (Unit {0}) → Lex (Unit {0})
  scan_list left tree = nested left (scan_all b']' tree)

  unfoldable pub scan_fragment : ℕ → ℕ → Lex (Unit {0}) → Lex (Unit {0})
  scan_fragment end_byte left tree = nested left (scan_all end_byte (scan_pair tree))

  abbrev pub scan_object : ℕ → Lex (Unit {0}) → Token → Lex (Unit {0})
  scan_object left tree (string s) = pure tt
  scan_object left tree (int64 v) = pure tt
  scan_object left tree (uint64 v) = pure tt
  scan_object left tree (double v) = pure tt
  scan_object left tree (boolean v) = pure tt
  scan_object left tree entity = pure tt
  scan_object left tree begin_list = scan_list left tree
  scan_object left tree begin_map = scan_fragment b'}' left tree
  scan_object left tree other = unexpected "a YSON value" other

  -- Past the attributes, if there are any, to the token of the value.
  abbrev pub past_attributes : ℕ → Lex (Unit {0}) → Token → Lex Token
  past_attributes left tree begin_attributes =
      scan_fragment b'>' left tree >> next_token std is_binary
  past_attributes left tree token = pure token

  unfoldable pub scan_tree : ℕ → Lex (Unit {0})
  scan_tree zero = throw limit_exceeded
  scan_tree (suc left) = do
    first ← next_token std is_binary
    token ← past_attributes left (scan_tree left) first
    scan_object left (scan_tree left) token

  unfoldable pub scan_value : List ℕ → Result YsonError Scan
  scan_value input = scanned (scan_tree (max_depth + 1) (begin input))
