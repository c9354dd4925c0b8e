-- ===== src/Job/Reader/Control.antt =====
-- crates/ytsaurus-job/src/reader.rs: control records, the pending record and the events.
use Prim.Native.String.{String, ◌++◌ as ◌+++◌}
use ytsaurus_rs.Base.{
  ℕ, zero, suc, ◌+◌, ◌%◌, ◌^◌, List, [], ◌∷◌, take, drop, Option, none, some, Bool, true, false,
  ◌==◌, if◌then◌else◌, Result, ok, err,
}
use ytsaurus_rs.Base.Actions.{continue_with}
use ytsaurus_rs.Yson.{YsonError}
use ytsaurus_rs.Yson.Node.{
  YsonValue, value, no_attributes, attributes, YsonNode, entity, boolean, YsonMap, empty, field,
  as_i64, same_bytes,
}
use ytsaurus_rs.Yson.Lexer.Ignored.{is_whitespace}
use ytsaurus_rs.Yson.Lexer.Tokens.{Std}
use ytsaurus_rs.Job.{JobError, yson, bad_control_record, out_of_fuel}
use ytsaurus_rs.Job.Reader.{
  Source, Pending, row, key_switch, Reader, Reading, offset_of, next_record_len,
}

-- `ytsaurus_yson::from_slice` at `YsonValue`, by whether the format is binary, and `{:?}`.
pub record Decoding : Type 0 where
  pub from_slice : Bool → List ℕ → Result YsonError YsonValue
  pub debug : YsonNode → String

pub data Classified : Type 0 where
  data_row skip_record boundary : Classified
  to_table to_row to_range : ℕ → Classified

abbrev pub first_significant_byte : Bool → List ℕ → Option ℕ
first_significant_byte is_binary [] = none
first_significant_byte is_binary (b ∷ rest) =
    let later = first_significant_byte is_binary rest in
    if is_binary then some b else if is_whitespace b then later else some b

abbrev pub named_key_switch : List ℕ
named_key_switch = b'k' ∷ b'e' ∷ b'y' ∷ b'_' ∷ b's' ∷ b'w' ∷ b'i' ∷ b't' ∷ b'c' ∷ b'h' ∷ []

abbrev pub named_table_index : List ℕ
named_table_index = b't' ∷ b'a' ∷ b'b' ∷ b'l' ∷ b'e' ∷ b'_' ∷ b'i' ∷ b'n' ∷ b'd' ∷ b'e' ∷ b'x' ∷ []

abbrev pub named_row_index : List ℕ
named_row_index = b'r' ∷ b'o' ∷ b'w' ∷ b'_' ∷ b'i' ∷ b'n' ∷ b'd' ∷ b'e' ∷ b'x' ∷ []

abbrev pub named_range_index : List ℕ
named_range_index = b'r' ∷ b'a' ∷ b'n' ∷ b'g' ∷ b'e' ∷ b'_' ∷ b'i' ∷ b'n' ∷ b'd' ∷ b'e' ∷ b'x' ∷ []

abbrev pub node_of : YsonValue → YsonNode
node_of (value attrs node) = node

module _ (decoding : Decoding) where
  abbrev pub indexed : ℕ → String → YsonValue → (ℕ → Classified) → Result JobError Classified
  indexed offset name v to = elim (as_i64 v) [
    | some i ↦ ok (to i)
    | none ↦ err (
        bad_control_record offset
          (name +++ " must be an int64, got " +++ decoding.debug (node_of v)))
  ]

  abbrev pub switched : ℕ → YsonNode → Result JobError Classified
  switched offset (boolean true) = ok boundary
  switched offset (boolean false) = ok skip_record
  switched offset other =
      err
        (bad_control_record offset ("key_switch must be a boolean, got " +++ decoding.debug other))

  -- The loop over the attributes: the first that is known decides.
  abbrev pub classify_fields : ℕ → YsonMap → Result JobError Classified
  classify_fields offset empty = ok skip_record
  classify_fields offset (field key v fields) =
      let rest = classify_fields offset fields in
      if same_bytes key named_key_switch
      then switched offset (node_of v)
      else if same_bytes key named_table_index
      then indexed offset "table_index" v to_table
      else if same_bytes key named_row_index
      then indexed offset "row_index" v to_row
      else if same_bytes key named_range_index
      then indexed offset "range_index" v to_range
      else rest

  abbrev pub classify_value : ℕ → YsonValue → Result JobError Classified
  classify_value offset (value no_attributes entity) = ok skip_record
  classify_value offset (value (attributes fields) entity) = classify_fields offset fields
  classify_value offset (value attrs node) = ok data_row

  unfoldable pub classify_attributed : List ℕ → Bool → ℕ → Result JobError Classified
  classify_attributed bytes is_binary offset = elim (decoding.from_slice is_binary bytes) [
    | err source ↦ err (yson offset source)
    | ok v ↦ classify_value offset v
  ]

  -- Only a record that starts with `<` is decoded.
  unfoldable pub classify : List ℕ → Bool → ℕ → Result JobError Classified
  classify bytes is_binary offset = elim (first_significant_byte is_binary bytes) [
    | none ↦ ok data_row
    | some b ↦ if b == b'<' then classify_attributed bytes is_binary offset else ok data_row
  ]

-- `*index += 1` on an `i64`, here its 64-bit pattern.
abbrev pub bumped : Option ℕ → Option ℕ
bumped none = none
bumped (some i) = some ((i + 1) % 2 ^ 64)

abbrev pub counted : Option Pending → Option ℕ → Option ℕ
counted (some (row len)) index = bumped index
counted (some (key_switch len)) index = index
counted none index = index

module _ {I : Type 0} where
  abbrev pub step_past : ℕ → Reader I → Reader I
  step_past len r = record r { pos = r.pos + len; window = drop len r.window }

  unfoldable pub consume : ℕ → Reader I → Reader I
  consume len r = record (step_past len r) {
    row_index = counted r.pending r.row_index;
    pending = none;
  }

  abbrev pub discarding : Option Pending → Reader I → Reader I
  discarding none r = r
  discarding (some (row len)) r = consume len r
  discarding (some (key_switch len)) r = consume len r

  abbrev pub discard_pending : Reader I → Reader I
  discard_pending r = discarding r.pending r

  -- What a record does to the reader: it is lined up, or applied and left behind.
  abbrev pub route : Reading I (Option Pending) → ℕ → Classified → Reading I (Option Pending)
  route next len data_row r = ok (some (row len), record r { pending = some (row len) })
  route next len boundary r =
      ok (some (key_switch len), record r { pending = some (key_switch len) })
  route next len (to_table i) r =
      next (record (step_past len r) { table_index = i; row_index = none; range_index = none })
  route next len (to_row i) r = next (record (step_past len r) { row_index = some i })
  route next len (to_range i) r = next (record (step_past len r) { range_index = some i })
  route next len skip_record r = next (step_past len r)

  abbrev pub classified :
      Reading I (Option Pending) → ℕ → Result JobError Classified → Reading I (Option Pending)
  classified next len (ok what) r = route next len what r
  classified next len (err e) r = err e

  module _ (std : Std) (decoding : Decoding) (source : Source I) where
    abbrev pub routed : Reading I (Option Pending) → Option ℕ → Reading I (Option Pending)
    routed next none r = ok (none, r)
    routed next (some len) r =
        classified next len (classify decoding (take len r.window) r.is_binary (offset_of r)) r

    -- The loop of `ensure_pending`, with the fuel of each of its steps.
    unfoldable pub line_up : ℕ → ℕ → Reading I (Option Pending)
    line_up reads zero r = err out_of_fuel
    line_up reads (suc fuel) r =
        continue_with (next_record_len std source reads r) (routed (line_up reads fuel))

    abbrev pub unless_pending :
        Option Pending → Reading I (Option Pending) → Reading I (Option Pending)
    unless_pending (some pending) next r = ok (some pending, r)
    unless_pending none next r = next r

    unfoldable pub ensure_pending : ℕ → Reading I (Option Pending)
    ensure_pending fuel r = unless_pending r.pending (line_up fuel fuel) r
