-- ===== src/Job/Skiff/Sound.antt =====
-- The rows that a reader answers have the shape that the schema of their table says.
use ytsaurus_rs.Base.{
  set_at, ℕ, zero, suc, List, [], ◌∷◌, length, get_elem?, Option, none, some, Bool, true, false,
  leb, ◌≡◌, refl, arith, Result, ok, err, ◌>>=◌,
}
use mathlib.Core.Path.{subst}
use ytsaurus_rs.Skiff.Schema.{Schema}
use ytsaurus_rs.Skiff.Format.{Format, table_schema}
use ytsaurus_rs.Skiff.Wire.{Value, Values, value_count, is_tuple}
use ytsaurus_rs.Skiff.Wire.Shape.{HasShapes}
use ytsaurus_rs.Skiff.Wire.Rows.{wire_type}
use ytsaurus_rs.Job.Skiff.{SkiffError, skiff, SystemColumn, TableLayout, children_of}
use ytsaurus_rs.Job.Skiff.Control.{
  ControlState, SkiffJobReader, SkiffRow, apply_columns, drained, at_index, hand_out, split_row,
  table_row, Answer,
}
use ytsaurus_rs.Job.Skiff.Columns.{IsOk, data_columns}
use ytsaurus_rs.Job.Skiff.Layouts.{Lays, Lays-rows}

-- The layout and the state of a table, where the schema is that of the table.
abbrev pub Covers : List TableLayout → List ControlState → ℕ → Schema → Type 0
Covers layouts state index schema =
    (layout : TableLayout) × (control : ControlState) × (get_elem? layouts index ≡ some layout)
    × (get_elem? state index ≡ some control)
    × Lays index layout.system_columns (children_of schema)
    × (is_tuple (wire_type schema) ≡ true)

abbrev pub Keeps : Format → List TableLayout → List ControlState → Type 0
Keeps format layouts state =
    (index : ℕ) (schema : Schema)
    → table_schema format index ≡ ok schema
    → Covers layouts state index schema

abbrev pub IsReader : Format → SkiffJobReader → Type 0
IsReader format r = (r.decoder.format ≡ format) × Keeps format r.layouts r.state

get_elem?-set_at :
    (state : List ControlState) (i j : ℕ) (control old : ControlState)
    → get_elem? state j ≡ some old
    → (found : ControlState) × (get_elem? (set_at state i control) j ≡ some found)
get_elem?-set_at [] i j control old h = cc
get_elem?-set_at (s ∷ ss) zero zero control old h = (control, refl)
get_elem?-set_at (s ∷ ss) zero (suc j) control old h = (old, h)
get_elem?-set_at (s ∷ ss) (suc i) zero control old h = (old, h)
get_elem?-set_at (s ∷ ss) (suc i) (suc j) control old h = get_elem?-set_at ss i j control old h

set_at-Keeps :
    (format : Format) (layouts : List TableLayout) (state : List ControlState) (i : ℕ)
    (control : ControlState)
    → Keeps format layouts state
    → Keeps format layouts (set_at state i control)
set_at-Keeps format layouts state i control h index schema found =
    let (layout, old, of_layouts, of_state, lays, tuple) = h index schema found in
    let (control', of_state') = get_elem?-set_at state i index control old of_state in
    (layout, control', of_layouts, of_state', lays, tuple)

-- A row of the table: it has no system columns, and the data has the shape that the schema says.
abbrev pub DataRow : Format → SkiffRow → Type 0
DataRow format row =
    (schema : Schema) × (vs : Values) × (table_schema format row.table_index ≡ ok schema)
    × (row.value ≡ Value.tuple vs)
    × HasShapes (data_columns (children_of schema)) vs

-- An error is one of the codec's.
abbrev pub Sound : Format → Answer → Type 0
Sound format (ok (none, r)) = IsReader format r
Sound format (ok (some row, r)) = IsReader format r × DataRow format row
Sound format (err (skiff e)) = Unit
Sound format (err e) = ⊥

module _ (format : Format) (table : ℕ) (schema : Schema) (vs : Values) (r : SkiffJobReader)
    (found : table_schema format table ≡ ok schema) (reader : IsReader format r)
    (shapes : HasShapes (children_of schema) vs) where
  hand_out-Sound :
      (columns : List SystemColumn) (control : Result SkiffError (Bool × ControlState))
      → IsOk control
      → HasShapes (data_columns (children_of schema)) (drained (length columns) vs)
      → Sound format (control >>= hand_out table columns vs r)
  hand_out-Sound columns (err e) h rest = absurd h
  hand_out-Sound columns (ok (switched, state)) h rest = (
    (reader.0, set_at-Keeps format r.layouts r.state table _ reader.1),
    (schema, drained (length columns) vs, found, refl, rest),
  )

  split_row-Sound :
      (columns : List SystemColumn) (state : ControlState)
      → Lays table columns (children_of schema)
      → Sound format (split_row table vs r columns state)
  split_row-Sound columns state lays =
      let (enough, applies, rest) = Lays-rows table columns (children_of schema) vs lays shapes in
      let e : leb (length columns) (value_count vs) ≡ true = ground arith in
      rw e (
        hand_out-Sound columns (apply_columns table columns vs (false, state))
          (applies (false, state)) rest)

  pub tuple_row-Sound : Sound format (table_row table (Value.tuple vs) r)
  tuple_row-Sound =
      let (layout, state, of_layouts, of_state, lays, tuple) = reader.1 table schema found in
      go (get_elem? r.layouts table) (get_elem? r.state table) layout state of_layouts of_state lays
    where
      go :
          (l : Option TableLayout) (s : Option ControlState) (layout : TableLayout)
          (state : ControlState)
          → l ≡ some layout
          → s ≡ some state
          → Lays table layout.system_columns (children_of schema)
          → Sound format (
              at_index l >>= λ layout'.
              at_index s >>= λ state'. split_row table vs r layout'.system_columns state')
      go none s layout state same same' lays = cc
      go (some l) none layout state same same' lays = cc
      go (some l) (some s) layout state same same' lays =
          let e : layout ≡ l = cc in
          split_row-Sound l.system_columns s
            (subst (λ (x : TableLayout). Lays table x.system_columns (children_of schema)) e lays)
