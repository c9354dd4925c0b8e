-- ===== src/Job/Skiff/Layouts.antt =====
-- A layout and the schema that it was made from.
use Prim.Native.String.{◌++◌ as ◌+++◌}
use ytsaurus_rs.Base.{
  ℕ, ◌≤◌, List, [], ◌∷◌, length, get_or, Option, none, some, Bool, true, false, not, ◌≡◌, refl, ap,
  sym, ok-injective, arith, Result, ok, err, guard, ◌>>=◌, ◌>>◌, >>=-eq-ok,
}
use ytsaurus_rs.Skiff.Schema.{Schema, Schemas, nil, cons}
use ytsaurus_rs.Skiff.Wire.{Values, no_values, value, value_count}
use ytsaurus_rs.Skiff.Wire.Shape.{HasShapes}
use ytsaurus_rs.Job.Skiff.{
  SkiffError, SystemColumn, column_from_schema, placed, with_child, layout_columns, from_schema,
  TableLayout, slot, name, children_of, bad_skiff_schema, message,
}
use ytsaurus_rs.Job.Skiff.Control.{ControlState, apply_column, apply_columns, drained}
use ytsaurus_rs.Job.Skiff.Columns.{
  IsOk, Found, column_from_schema-Found, is_system, name_of, data_columns,
}

-- The columns are the first children, whose values they take, and the others are data.
abbrev pub Lays : ℕ → List SystemColumn → Schemas → Type 0
Lays table [] ss = data_columns ss ≡ ss
Lays table (column ∷ columns) nil = ⊥
Lays table (column ∷ columns) (cons s ss) =
    Found table s (is_system (name_of s)) (ok (some column)) × Lays table columns ss

-- Behind a data column stands no system column.
abbrev Laid : ℕ → Bool → List SystemColumn → Schemas → Type 0
Laid table false columns ss = Lays table columns ss
Laid table true columns ss = (columns ≡ []) × (data_columns ss ≡ ss)

Laid-Lays :
    (table : ℕ) (started : Bool) (columns : List SystemColumn) (ss : Schemas)
    → Laid table started columns ss
    → Lays table columns ss
Laid-Lays table false columns ss h = h
Laid-Lays table true columns ss (no_columns, all) = rw no_columns all

-- A column is placed first, before any data column.
placed-eq-ok :
    (table : ℕ) (column : SystemColumn) (started : Bool) (seen : List Bool)
    (later : Result SkiffError (List SystemColumn)) (columns : List SystemColumn)
    → placed table column started seen later ≡ ok columns
    → (started ≡ false)
      × (columns' : List SystemColumn) × (later ≡ ok columns')
      × (columns ≡ column ∷ columns')
placed-eq-ok table column true seen later columns h = cc
placed-eq-ok table column false seen later columns h = go (get_or seen (slot column) false) later h
  where
    go :
        (again : Bool) (later : Result SkiffError (List SystemColumn))
        → (guard
              (not again)
              (bad_skiff_schema table (message (name column +++ " appears more than once")))
            >> (later >>= λ columns'. ok (column ∷ columns')))
          ≡ ok columns
        → (false ≡ false)
          × (columns' : List SystemColumn) × (later ≡ ok columns')
          × (columns ≡ column ∷ columns')
    go true later k = cc
    go false (err e) k = cc
    go false (ok columns') k = (refl, columns', refl, cc)

layout_columns-Laid :
    (table : ℕ) (ss : Schemas) (started : Bool) (seen : List Bool) (columns : List SystemColumn)
    → layout_columns table ss started seen ≡ ok columns
    → Laid table started columns ss
unfolding layout_columns
layout_columns-Laid table nil false seen columns h = let e : columns ≡ [] = cc in rw e refl
layout_columns-Laid table nil true seen columns h = (cc, refl)
layout_columns-Laid table (cons s ss) started seen columns h =
    go (column_from_schema table s) (column_from_schema-Found table s) h
      (layout_columns-Laid table ss)
  where
    behind :
        (started : Bool)
        → is_system (name_of s) ≡ false
        → Laid table true columns ss
        → Laid table started columns (cons s ss)
    behind false plain (no_columns, all) = rw (no_columns, plain, all) refl
    behind true plain (no_columns, all) = (no_columns, rw (plain, all) refl)

    go :
        (found : Result SkiffError (Option SystemColumn))
        → Found table s (is_system (name_of s)) found
        → with_child table (layout_columns table ss) started seen found ≡ ok columns
        → ((started' : Bool) (seen' : List Bool) (columns' : List SystemColumn)
            → layout_columns table ss started' seen' ≡ ok columns'
            → Laid table started' columns' ss)
        → Laid table started columns (cons s ss)
    go (err e) is_found k ih = cc
    go (ok none) is_found k ih = behind started is_found (ih true seen columns k)
    go (ok (some column)) is_found k ih =
        let (first, columns', later, same) = placed-eq-ok table column started seen _ columns k in
        rw (first, same)
          (is_found, Laid-Lays table started columns' ss (ih started _ columns' later))

pub from_schema-Lays :
    (table : ℕ) (schema : Schema) (layout : TableLayout)
    → from_schema table schema ≡ ok layout
    → Lays table layout.system_columns (children_of schema)
unfolding from_schema
from_schema-Lays table schema layout h =
    let (columns, made, same) =
      >>=-eq-ok (layout_columns table (children_of schema) false (false ∷ false ∷ false ∷ []))
        (λ columns. ok (record { system_columns = columns })) h in
    let same_columns : layout.system_columns ≡ columns =
      ap (λ (l : TableLayout). l.system_columns) (sym (ok-injective same)) in
    rw same_columns (layout_columns-Laid table (children_of schema) false _ columns made)

apply_columns-IsOk-step :
    (table : ℕ) (columns : List SystemColumn) (vs : Values)
    (r : Result SkiffError (Bool × ControlState))
    → IsOk r
    → ((control : Bool × ControlState) → IsOk (apply_columns table columns vs control))
    → IsOk (r >>= apply_columns table columns vs)
apply_columns-IsOk-step table columns vs (ok control) h k = k control
apply_columns-IsOk-step table columns vs (err e) h k = absurd h

-- Rows of the shape of the schema: the columns find their values, and the data is what is left.
pub Lays-rows :
    (table : ℕ) (columns : List SystemColumn) (ss : Schemas) (vs : Values)
    → Lays table columns ss
    → HasShapes ss vs
    → (length columns ≤ value_count vs)
      × ((control : Bool × ControlState) → IsOk (apply_columns table columns vs control))
      × HasShapes (data_columns ss) (drained (length columns) vs)
unfolding apply_columns HasShapes
Lays-rows table [] ss vs lays shapes = (omega arith, λ control. tt, rw lays shapes)
Lays-rows table (column ∷ columns) nil vs lays shapes = absurd lays
Lays-rows table (column ∷ columns) (cons s ss) no_values lays shapes = absurd shapes
Lays-rows table (column ∷ columns) (cons s ss) (value v vs) ((named, fits), lays) (shape, shapes) =
    let (enough, applies, rest) = Lays-rows table columns ss vs lays shapes in
    (
      omega (arith, enough),
      λ control.
          apply_columns-IsOk-step table columns vs (apply_column table column v control)
            (fits v control shape) applies,
      rw named rest,
    )
