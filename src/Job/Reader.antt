-- ===== src/Job/Reader.antt =====
-- crates/ytsaurus-job/src/reader.rs: the state of the reader and how its buffer is filled. `window` is
-- `buf[pos..filled]` and `capacity` is `buf.len()`; what lies outside of the window is never read. The
-- input is a parameter: what a call of `Read::read` with some room answers, and the input behind it.
pub mod Control
use Prim.Native.String.{String}
use ytsaurus_rs.Base.{
  ℕ, zero, suc, ◌+◌, ◌-◌, ◌*◌, min, max, List, [], ◌∷◌, ◌++◌, length, Option, none, some, Bool,
  true, false, ltb, leb, ◌==◌, ◌||◌, if◌then◌else◌, Result, ok, err,
}
use ytsaurus_rs.Base.Actions.{Action, pure, throw, continue_with, ◌>>=◌, ◌>>◌}
use ytsaurus_rs.Yson.{YsonError}
use ytsaurus_rs.Yson.Lexer.Ignored.{is_whitespace}
use ytsaurus_rs.Yson.Lexer.Tokens.{Std}
use ytsaurus_rs.Yson.Scan.{Scan, complete, incomplete, scan_value}
use ytsaurus_rs.Job.{JobError, read_failed, yson, truncated_record, record_too_large, out_of_fuel}

-- What a read answers: bytes, none of them at the end of the file, `ErrorKind::Interrupted` or
-- another error.
pub data Arrival : Type 0 where
  got : List ℕ → Arrival
  interrupted : Arrival
  broken : String → Arrival

pub record Source (I : Type 0) : Type 0 where
  pub read : ℕ → I → Arrival × I

pub data Pending : Type 0 where
  row key_switch : (len : ℕ) → Pending

pub record Reader (I : Type 0) : Type 0 where
  pub input : I
  pub is_binary : Bool
  pub capacity : ℕ
  pub pos : ℕ
  pub window : List ℕ
  pub base_offset : ℕ
  pub input_done : Bool
  pub pending : Option Pending
  pub max_record_bytes : ℕ
  pub table_index : ℕ
  pub row_index : Option ℕ
  pub range_index : Option ℕ

abbrev pub default_buffer_bytes : ℕ
default_buffer_bytes = 1024 * 1024

abbrev pub default_max_record_bytes : ℕ
default_max_record_bytes = 256 * 1024 * 1024

abbrev pub usize_max : ℕ
usize_max = 0xffffffffffffffff

abbrev pub is_separator : ℕ → Bool
is_separator b = b == b';' || is_whitespace b

-- A position and the bytes from there on, past the separators.
unfoldable pub skip : ℕ → List ℕ → ℕ × List ℕ
skip pos [] = (pos, [])
skip pos (b ∷ rest) = elim (is_separator b) [ true ↦ skip (pos + 1) rest | false ↦ (pos, b ∷ rest) ]

abbrev pub Reading : Type 0 → Type 0 → Type 0
Reading I A = Action (Reader I) JobError A

module _ {I : Type 0} where
  abbrev pub with_format : I → Bool → Reader I
  with_format input is_binary = record {
    input = input;
    is_binary = is_binary;
    capacity = default_buffer_bytes;
    pos = 0;
    window = [];
    base_offset = 0;
    input_done = false;
    pending = none;
    max_record_bytes = default_max_record_bytes;
    table_index = 0;
    row_index = none;
    range_index = none;
  }

  abbrev pub with_buffer_size : ℕ → Reader I → Reader I
  with_buffer_size bytes r = record r { capacity = max bytes 64 }

  abbrev pub with_max_record_bytes : ℕ → Reader I → Reader I
  with_max_record_bytes bytes r = record r { max_record_bytes = bytes }

  -- `self.base_offset + self.pos as u64`
  abbrev pub offset_of : Reader I → ℕ
  offset_of r = r.base_offset + r.pos

  abbrev pub filled : Reader I → ℕ
  filled r = r.pos + length r.window

  abbrev pub skip_separators : Reader I → Reader I
  skip_separators r =
      let (pos, window) = skip r.pos r.window in record r { pos = pos; window = window }

  -- The window to the start of the buffer.
  abbrev pub compact : Reader I → Reader I
  compact r = if ltb 0 r.pos then record r { pos = 0; base_offset = r.base_offset + r.pos } else r

  -- Twice the buffer when it is full, up to the limit.
  abbrev pub grow : Reading I (Unit {0})
  grow r =
      if filled r == r.capacity
      then (if leb r.max_record_bytes r.capacity
          then err (record_too_large r.base_offset r.max_record_bytes)
          else ok
              (tt, record r { capacity = min (min (r.capacity * 2) usize_max) r.max_record_bytes }))
      else ok (tt, r)

  -- What an answer of the input does to the reader, over a further read.
  abbrev pub receive : Reading I (Unit {0}) → Arrival × I → Reading I (Unit {0})
  receive again (got [], input) r = ok (tt, record r { input = input; input_done = true })
  receive again (got (b ∷ bs), input) r =
      ok (tt, record r { input = input; window = r.window ++ (b ∷ bs) })
  receive again (interrupted, input) r = again (record r { input = input })
  receive again (broken message, input) r = err (read_failed message)

  module _ (source : Source I) where
    unfoldable pub read_once : ℕ → Reading I (Unit {0})
    read_once zero r = err out_of_fuel
    read_once (suc fuel) r =
        receive (read_once fuel) (source.read (r.capacity - filled r) r.input) r

    unfoldable pub fill : ℕ → Reading I (Unit {0})
    fill fuel r = continue_with (grow (compact r)) (λ u. read_once fuel)

  -- Nothing, or not all of a record, is in the window.
  abbrev pub starve : Bool → List ℕ → Reading I (Option ℕ) → Reading I (Option ℕ)
  starve false window refill r = refill r
  starve true [] refill r = ok (none, r)
  starve true (b ∷ bs) refill r = err (truncated_record (offset_of r) (length r.window))

  abbrev pub starved : Reading I (Option ℕ) → Reading I (Option ℕ)
  starved refill r = starve r.input_done r.window refill r

  abbrev pub scanned : Reading I (Option ℕ) → Result YsonError Scan → Reading I (Option ℕ)
  scanned refill (ok (complete len)) r = ok (some len, r)
  scanned refill (ok incomplete) r = starved refill r
  scanned refill (err source) r = err (yson (offset_of r) source)

  module _ (std : Std) (source : Source I) where
    abbrev pub examine : List ℕ → Reading I (Option ℕ) → Reading I (Option ℕ)
    examine [] refill r = starved refill r
    examine (b ∷ bs) refill r = scanned refill (scan_value std r.is_binary r.window) r

    unfoldable pub next_record_len : ℕ → Reading I (Option ℕ)
    next_record_len zero r = err out_of_fuel
    next_record_len (suc fuel) r =
        let r' = skip_separators r in
        examine r'.window (fill source fuel >> next_record_len fuel) r'
