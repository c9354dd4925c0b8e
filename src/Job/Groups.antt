-- ===== src/Job/Groups.antt =====
-- crates/ytsaurus-job/src/reader.rs: events, and the groups of a reduce. `Groups` and `Group` borrow
-- the reader; here each holds it, and the caller hands it on.
pub mod Drain
use ytsaurus_rs.Base.{
  ℕ, zero, suc, ◌+◌, List, [], ◌∷◌, take, drop, Option, none, some, Bool, true, false, Result, ok,
  err,
}
use ytsaurus_rs.Base.Actions.{Action, pure, throw, continue_with, ◌>>=◌, ◌>>◌}
use ytsaurus_rs.Yson.{YsonError, custom}
use ytsaurus_rs.Yson.Node.{
  YsonValue, value, YsonNode, string, map, YsonMap, as_i64, same_bytes, get,
}
use ytsaurus_rs.Yson.Lexer.Tokens.{Std}
use ytsaurus_rs.Job.{JobError, yson, out_of_fuel}
use ytsaurus_rs.Job.Reader.{Source, Pending, row, key_switch, Reader, Reading, offset_of}
use ytsaurus_rs.Job.Reader.Control.{Decoding, node_of, consume, discard_pending, ensure_pending}

pub record Row : Type 0 where
  pub table_index : ℕ
  pub row_index : Option ℕ
  pub range_index : Option ℕ
  pub bytes : List ℕ
  pub is_binary : Bool
  pub offset : ℕ

pub data Event : Type 0 where
  a_row : Row → Event
  a_key_switch : Event

abbrev pub GroupKey : Type 0
GroupKey = List (List ℕ × YsonValue)

abbrev pub key_get : List ℕ → GroupKey → Option YsonValue
key_get name [] = none
key_get name ((key, v) ∷ columns) =
    let rest = key_get name columns in elim (same_bytes key name) [ true ↦ some v | false ↦ rest ]

abbrev pub string_of : YsonNode → Option (List ℕ)
string_of (string bytes) = some bytes
string_of other = none

abbrev pub key_bytes : List ℕ → GroupKey → Option (List ℕ)
key_bytes name key = elim (key_get name key) [ none ↦ none | some v ↦ string_of (node_of v) ]

abbrev pub key_i64 : List ℕ → GroupKey → Option ℕ
key_i64 name key = elim (key_get name key) [ none ↦ none | some v ↦ as_i64 v ]

-- The columns that the row has, in the order in which they were asked for.
abbrev pub decoded : YsonMap → List (List ℕ) → GroupKey
decoded fields [] = []
decoded fields (name ∷ columns) =
    let rest = decoded fields columns in
    elim (get name fields) [ none ↦ rest | some v ↦ (name, v) ∷ rest ]

pub record Groups (I : Type 0) : Type 0 where
  pub reader : Reader I
  pub in_group : Bool
  pub key_columns : List (List ℕ)

pub record Group (I : Type 0) : Type 0 where
  pub reader : Reader I
  pub done : Bool
  pub key : GroupKey

abbrev pub key_of : ℕ → List (List ℕ) → YsonNode → Result JobError GroupKey
key_of offset columns (map fields) = ok (decoded fields columns)
key_of offset columns other =
    err (yson offset (custom "a reduce key can only be read from a row that is a map"))

module _ {I : Type 0} where
  abbrev pub groups : Reader I → Groups I
  groups r = record { reader = r; in_group = false; key_columns = [] }

  abbrev pub groups_by : List (List ℕ) → Reader I → Groups I
  groups_by columns r = record { reader = r; in_group = false; key_columns = columns }

  -- The row of `len` bytes that is handed out.
  abbrev pub hand_out : ℕ → Reader I → Row × Reader I
  hand_out len r =
      let r' = consume len r in
      (
        record {
          table_index = r'.table_index;
          row_index = r.row_index;
          range_index = r'.range_index;
          bytes = take len r.window;
          is_binary = r.is_binary;
          offset = offset_of r;
        },
        r',
      )

  module _ (decoding : Decoding) where
    unfoldable pub decode_key : ℕ → List (List ℕ) → Reader I → Result JobError GroupKey
    decode_key len columns r = elim (decoding.from_slice r.is_binary (take len r.window)) [
      | err source ↦ err (yson (offset_of r) source)
      | ok v ↦ key_of (offset_of r) columns (node_of v)
    ]

    -- The key of a group whose first row is pending.
    abbrev pub group_key : ℕ → List (List ℕ) → Reader I → Result JobError GroupKey
    group_key len [] r = ok []
    group_key len (c ∷ columns) r = decode_key len (c ∷ columns) r

  module _ (std : Std) (decoding : Decoding) (source : Source I) where
    abbrev pub event_of : Option Pending → Reading I (Option Event)
    event_of none r = ok (none, r)
    event_of (some (key_switch len)) r = ok (some a_key_switch, consume len r)
    event_of (some (row len)) r = let (given, r') = hand_out len r in ok (some (a_row given), r')

    unfoldable pub next_event : ℕ → Reading I (Option Event)
    next_event fuel r = continue_with (ensure_pending std decoding source fuel r) event_of

    -- Past the rest of the current group: whether a boundary ended it.
    abbrev pub drained : Reading I Bool → Option Pending → Reading I Bool
    drained again none r = ok (false, r)
    drained again (some (key_switch len)) r = ok (true, discard_pending r)
    drained again (some (row len)) r = again (discard_pending r)

    unfoldable pub drain : ℕ → ℕ → Reading I Bool
    drain reads zero r = err out_of_fuel
    drain reads (suc fuel) r =
        continue_with (ensure_pending std decoding source reads r) (drained (drain reads fuel))

    abbrev pub keyed :
        ℕ
        → List (List ℕ)
        → Reader I
        → Result JobError GroupKey
        → Result JobError (Option (Group I) × Groups I)
    keyed len columns r (err e) = err e
    keyed len columns r (ok key) = ok (
      some (record { reader = r; done = false; key = key }),
      record { reader = r; in_group = true; key_columns = columns },
    )

    abbrev pub opened :
        List (List ℕ) → Option Pending → Reader I → Result JobError (Option (Group I) × Groups I)
    opened columns none r =
        ok (none, record { reader = r; in_group = false; key_columns = columns })
    opened columns (some (key_switch len)) r =
        let r' = discard_pending r in
        ok (
          some (record { reader = r'; done = true; key = [] }),
          record { reader = r'; in_group = false; key_columns = columns },
        )
    opened columns (some (row len)) r = keyed len columns r (group_key decoding len columns r)

    abbrev pub first_of :
        ℕ → List (List ℕ) → Bool → Reader I → Result JobError (Option (Group I) × Groups I)
    first_of fuel columns false r =
        ok (none, record { reader = r; in_group = false; key_columns = columns })
    first_of fuel columns true r =
        continue_with (ensure_pending std decoding source fuel r) (opened columns)

    abbrev pub rest_of_group : ℕ → ℕ → Bool → Reading I Bool
    rest_of_group reads fuel true r = drain reads fuel r
    rest_of_group reads fuel false r = ok (true, r)

    -- The draining loop has a fuel of its own.
    unfoldable pub next_group : ℕ → ℕ → Action (Groups I) JobError (Option (Group I))
    next_group reads fuel g =
        continue_with (rest_of_group reads fuel g.in_group g.reader) (first_of reads g.key_columns)

    abbrev pub row_of : Group I → Option Pending → Reader I → Result JobError (Option Row × Group I)
    row_of g none r = ok (none, record g { reader = r; done = true })
    row_of g (some (key_switch len)) r = ok (none, record g { reader = r; done = true })
    row_of g (some (row len)) r =
        let (given, r') = hand_out len r in ok (some given, record g { reader = r' })

    abbrev pub unless_done :
        Bool
        → Group I
        → Result JobError (Option Row × Group I)
        → Result JobError (Option Row × Group I)
    unless_done true g next = ok (none, g)
    unless_done false g next = next

    unfoldable pub next_row : ℕ → Action (Group I) JobError (Option Row)
    next_row fuel g =
        unless_done g.done g
          (continue_with (ensure_pending std decoding source fuel g.reader) (row_of g))
