-- ===== src/Job/Writer.antt =====
-- crates/ytsaurus-job/src/writer.rs: the output tables of a job. A sink is what implements `Write`, and
-- its `write_all` and `flush`, which answer an error or none and the sink
-- behind it, are parameters, as is the text of a number. A call answers its result and the writer
-- behind it, since the writer has changed also where the call fails.
pub mod HandedOut
pub mod ReadBack
pub mod Sinks
mod Runs
use Prim.Native.String.{String}
use ytsaurus_rs.Base.{
  ℕ, zero, suc, ◌+◌, ◌-◌, ◌^◌, min, List, [], ◌∷◌, ◌++◌, length, Option, none, some, Bool, true,
  false, ltb, leb, ◌==◌, if◌then◌else◌, Result, ok, err,
}
use ytsaurus_rs.Yson.{YsonError}
use ytsaurus_rs.Yson.Varint.{write_uvarint, zigzag}

-- src/error.rs, the errors of the writer. An index of a sink that is not there panics in the source.
pub data WriterError : Type 0 where
  write_failed : (table : ℕ) → (source : String) → WriterError
  unknown_table : (index count : ℕ) → (names : List String) → WriterError
  serialize_failed : (table : ℕ) → YsonError → WriterError
  write_after_finish : (table : ℕ) → WriterError
  panicked : WriterError

pub record Sink (K : Type 0) : Type 0 where
  pub write_all : List ℕ → K → Option String × K
  pub flush : K → Option String × K
  pub decimal : ℕ → List ℕ

pub data Routing : Type 0 where
  descriptors : Routing
  table_switches : (current : ℕ) → Routing

pub record JobWriter (K : Type 0) : Type 0 where
  pub tables : List K
  pub logical_tables : ℕ
  pub is_binary : Bool
  pub routing : Routing
  pub finished : Bool
  pub names : List String

abbrev pub i64_max : ℕ
i64_max = 0x7fff_ffff_ffff_ffff

abbrev pub table_index_name : List ℕ
table_index_name = b't' ∷ b'a' ∷ b'b' ∷ b'l' ∷ b'e' ∷ b'_' ∷ b'i' ∷ b'n' ∷ b'd' ∷ b'e' ∷ b'x' ∷ []

unfoldable pub write_zigzag : ℕ → List ℕ → List ℕ
write_zigzag value out = write_uvarint (zigzag value) out

-- The sink of a table, whether a switch is needed, and the routing behind it.
abbrev pub route : ℕ → Routing → ℕ × Option ℕ × Routing
route table descriptors = (table, none, descriptors)
route table (table_switches current) =
    let needed = min table i64_max in
    if current == needed
    then (0, none, table_switches current)
    else (0, some needed, table_switches needed)

module _ {K : Type 0} where
  abbrev pub from_writers : List K → Bool → JobWriter K
  from_writers tables is_binary = record {
    tables = tables;
    logical_tables = length tables;
    is_binary = is_binary;
    routing = descriptors;
    finished = false;
    names = [];
  }

  abbrev pub from_writer_with_switches : K → ℕ → Bool → JobWriter K
  from_writer_with_switches sink table_count is_binary =
      record (from_writers (sink ∷ []) is_binary) {
        routing = table_switches 0;
        logical_tables = table_count;
      }

  abbrev pub check_table : ℕ → JobWriter K → Result WriterError (Unit {0})
  check_table table w =
      if w.finished
      then err (write_after_finish table)
      else if leb w.logical_tables table
      then err (unknown_table table w.logical_tables w.names)
      else ok tt

  module _ (sink : Sink K) where
    abbrev pub encode_table_switch : ℕ → Bool → List ℕ
    encode_table_switch index false =
        (b'<' ∷ table_index_name)
        ++ ((b'=' ∷ []) ++ (sink.decimal index ++ (b'>' ∷ b'#' ∷ b';' ∷ [])))
    encode_table_switch index true =
        write_zigzag index
          ((write_zigzag 11 (b'<' ∷ 0x01 ∷ []) ++ table_index_name) ++ (b'=' ∷ 0x02 ∷ []))
        ++ (b'>' ∷ b'#' ∷ b';' ∷ [])

    -- The next write, unless one has failed.
    abbrev pub and_then : Option String × K → (K → Option String × K) → Option String × K
    and_then (none, k) next = next k
    and_then (some source, k) next = (some source, k)

    abbrev pub emit_row : List ℕ → K → Option String × K
    emit_row row k = and_then (sink.write_all row k) (sink.write_all (b';' ∷ []))

    -- The switch, the row and the separator.
    abbrev pub emit : Option ℕ → Bool → List ℕ → K → Option String × K
    emit none is_binary row k = emit_row row k
    emit (some index) is_binary row k =
        and_then (sink.write_all (encode_table_switch index is_binary) k) (emit_row row)

    abbrev pub outcome : ℕ → Option String → Result WriterError (Unit {0})
    outcome table none = ok tt
    outcome table (some source) = err (write_failed table source)

    -- A write at the sink of an index, for an error of a table.
    unfoldable pub at_sink :
        ℕ → ℕ → (K → Option String × K) → List K → Result WriterError (Unit {0}) × List K
    at_sink table n f [] = (err panicked, [])
    at_sink table zero f (k ∷ ks) = (outcome table (f k).0, (f k).1 ∷ ks)
    at_sink table (suc n) f (k ∷ ks) = let (result, ks') = at_sink table n f ks in (result, k ∷ ks')

    abbrev pub write_bytes : ℕ → List ℕ → JobWriter K → Result WriterError (Unit {0}) × JobWriter K
    write_bytes table encoded w =
        let (sink_index, switch, routing) = route table w.routing in
        let (result, tables) =
          at_sink table sink_index (emit switch w.is_binary encoded) w.tables in
        (result, record w { tables = tables; routing = routing })

    abbrev pub checked :
        Result WriterError (Unit {0})
        → JobWriter K
        → Result WriterError (Unit {0}) × JobWriter K
        → Result WriterError (Unit {0}) × JobWriter K
    checked (err e) w next = (err e, w)
    checked (ok u) w next = next

    unfoldable pub write_raw :
        ℕ → List ℕ → JobWriter K → Result WriterError (Unit {0}) × JobWriter K
    write_raw table row w = checked (check_table table w) w (write_bytes table row w)

    -- A row that serde has encoded, or failed to.
    abbrev pub serialized :
        ℕ → Result YsonError (List ℕ) → JobWriter K → Result WriterError (Unit {0}) × JobWriter K
    serialized table (err source) w = (err (serialize_failed table source), w)
    serialized table (ok encoded) w = write_bytes table encoded w

    unfoldable pub write :
        ℕ → Result YsonError (List ℕ) → JobWriter K → Result WriterError (Unit {0}) × JobWriter K
    write table outcome w = checked (check_table table w) w (serialized table outcome w)

    -- The first sink that cannot be flushed ends the loop.
    abbrev pub flush_from : ℕ → List K → Result WriterError (Unit {0}) × List K
    flush_from table [] = (ok tt, [])
    flush_from table (k ∷ ks) =
        let (result, ks') = flush_from (table + 1) ks in
        let (failed, k') = sink.flush k in
        elim failed [
          | some source ↦ (err (write_failed table source), k' ∷ ks)
          | none ↦ (result, k' ∷ ks')
        ]

    abbrev pub finish_after :
        Result WriterError (Unit {0}) × List K
        → JobWriter K
        → Result WriterError (Unit {0}) × JobWriter K
    finish_after (ok u, tables) w = (ok tt, record w { tables = tables; finished = true })
    finish_after (err e, tables) w = (err e, record w { tables = tables })

    unfoldable pub finish : JobWriter K → Result WriterError (Unit {0}) × JobWriter K
    finish w = finish_after (flush_from 0 w.tables) w
