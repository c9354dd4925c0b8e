-- ===== src/Yson.antt =====
-- crates/ytsaurus-yson: the error type and the modules of the YSON codec.
pub mod Lexer
pub mod Node
pub mod Scan
pub mod Varint
use ytsaurus_rs.Base.{ℕ, Bool, true, false}
use Prim.Native.String.{String}

-- src/error.rs. `found` of `UnexpectedToken` is the rendering of a token; here it is a text.
-- `out_of_fuel` has no counterpart in the source.
pub data YsonError : Type 0 where
  eof : YsonError
  unexpected_eof : ℕ → YsonError
  invalid_marker : ℕ → ℕ → YsonError
  malformed_varint : ℕ → YsonError
  invalid_utf8 : ℕ → YsonError
  unexpected_token : String → String → ℕ → YsonError
  custom : String → YsonError
  out_of_fuel : YsonError

-- The errors that more bytes may mend, and the one of the model.
abbrev pub is_open : YsonError → Bool
is_open eof = true
is_open (unexpected_eof at_) = true
is_open out_of_fuel = true
is_open e = false
