-- ===== src/Job/Writer/Runs.antt =====
-- Two rows written to two tables, and the theorems at them.
use ytsaurus_rs.Yson.Scan.{scan_value, scan_tree, scan_items, scan_fragment, scan_all}
use ytsaurus_rs.Yson.Lexer.{parse_binary_token}
use ytsaurus_rs.Base.{ℕ, ◌≤◌, arith, ◌+◌, List, [], ◌∷◌, ◌++◌, none, true, ok, ◌≡◌, refl, sym, ap}
use ytsaurus_rs.Yson.Varint.{write_uvarint, zigzag}
use ytsaurus_rs.Yson.Lexer.Tokens.{peek_byte, next_token, Std}
use ytsaurus_rs.Yson.Node.{value, no_attributes, entity}
use ytsaurus_rs.Job.Reader.Control.{Decoding}
use ytsaurus_rs.Job.Reader.{Reader, with_format}
use ytsaurus_rs.Job.Chunks.{Chunks, chunks, chunks-Contract}
use ytsaurus_rs.Job.Stream.{IsValid}
use ytsaurus_rs.Job.Writer.{
  Sink, JobWriter, from_writers, from_writer_with_switches, write_raw, at_sink, write_zigzag,
}
use ytsaurus_rs.Job.Writer.Sinks.{Written, nothing, written, Contents}
use ytsaurus_rs.Job.Writer.ReadBack.{IsRow}
use ytsaurus_rs.Job.Writer.HandedOut.{Reads, Written-Reads}

-- A `Vec<u8>`, which takes every write.
abbrev vector : Sink (List ℕ)
vector = record {
  write_all = λ bytes k. (none, k ++ bytes);
  flush = λ k. (none, k);
  decimal = λ n. (b'0' + n) ∷ [];
}

abbrev vector_contents : Contents vector
vector_contents = record { holds = λ k. k; appends = λ bytes k k' e. sym (ap (λ p. p.1) e) }

abbrev std : Std
std = record { as_text = λ bs. ""; parse_f64 = λ bs. none; debug = λ token. "" }

abbrev decoding : Decoding
decoding = record {
  from_slice = λ is_binary bytes. ok (value no_attributes entity);
  debug = λ node. "";
}

-- `{}`
abbrev a_map : List ℕ
a_map = b'{' ∷ b'}' ∷ []

abbrev empty_tables : JobWriter (List ℕ)
empty_tables = from_writers ([] ∷ [] ∷ []) true

abbrev written_tables : JobWriter (List ℕ)
written_tables =
    from_writers ((a_map ++ (b';' ∷ [])) ∷ (a_map ++ (b';' ∷ (a_map ++ (b';' ∷ [])))) ∷ []) true

three_written :
    Written vector empty_tables ((1, a_map) ∷ (0, a_map) ∷ (1, a_map) ∷ []) written_tables
unfolding write_raw at_sink
three_written = written 1 a_map refl (written 0 a_map refl (written 1 a_map refl nothing))

-- A switch to table 2, a row, and a row without a switch.
switched :
    (write_raw vector 2 a_map
      (write_raw vector 2 a_map (from_writer_with_switches [] 3 true)).1).1.tables
    ≡ ((b'<' ∷ 1 ∷ 22 ∷ b't' ∷ b'a' ∷ b'b' ∷ b'l' ∷ b'e' ∷ b'_' ∷ b'i' ∷ b'n' ∷ b'd' ∷ b'e' ∷ b'x'
          ∷ b'=' ∷ 2 ∷ 4 ∷ b'>' ∷ b'#' ∷ b';' ∷ b'{' ∷ b'}' ∷ b';' ∷ b'{' ∷ b'}' ∷ b';' ∷ [])
        ∷ [])
unfolding write_raw at_sink write_zigzag write_uvarint zigzag
switched = refl

a_map-IsRow : IsRow std decoding a_map
unfolding scan_value scan_tree next_token parse_binary_token scan_fragment scan_all scan_items
    peek_byte
a_map-IsRow = record {
  first = b'{';
  others = b'}' ∷ [];
  starts = refl;
  unseparated = refl;
  plain = refl;
  whole = refl;
}

-- A reader of what table 1 holds, in chunks of three bytes.
abbrev start : Reader Chunks
start = with_format (0, a_map ++ (b';' ∷ (a_map ++ (b';' ∷ [])))) true

abbrev by_three : 1 ≤ 3
by_three = omega arith

start-IsValid : IsValid (chunks 3) (chunks-Contract 3 by_three) start
start-IsValid = record {
  within = omega arith;
  some_room = omega arith;
  limited = omega arith;
  ended = λ e. cc;
}

Written-Reads_example :
    Reads std decoding (chunks 3) (chunks-Contract 3 by_three) (a_map ∷ a_map ∷ []) start
Written-Reads_example =
    Written-Reads std decoding (chunks 3) (chunks-Contract 3 by_three) vector vector_contents 1
      start refl refl three_written (a_map-IsRow, (a_map-IsRow, tt)) refl start-IsValid refl refl
