-- ===== src/Job/Skiff/Columns.antt =====
-- What a layout says of a schema: its columns are the first children, and the others are data.
use Prim.Native.String.{String}
use text.Mathlib.Text.{◌==◌ as str_eq}
use ytsaurus_rs.Base.{
  ℕ, zero, suc, Option, none, some, Bool, true, false, ◌&&◌, if◌then◌else◌, ◌≡◌, refl, Result, ok,
  err, ◌>>=◌,
}
use mathlib.Core.Path.{subst}
use ytsaurus_rs.Skiff.Schema.{Schema, Schemas, WireType, node, nil, cons}
use ytsaurus_rs.Skiff.Wire.{Value, get_child}
use ytsaurus_rs.Skiff.Wire.Shape.{HasShape, AtChild}
use ytsaurus_rs.Job.Skiff.{
  SkiffError, SystemColumn, key_switch, row_index, range_index, is_nothing, is_boolean, is_int64,
  nothing_or_int64, optional_int64, boolean_leaf, checked, column_named, column_from_schema,
}
use ytsaurus_rs.Job.Skiff.Control.{
  ControlState, apply_column, boolean_control, optional_index_value, tagged_index,
}

-- Whether a child has one of the names of the system columns.
abbrev pub is_system : Option String → Bool
is_system none = false
is_system (some given) =
    if str_eq given "$key_switch"
    then true
    else if str_eq given "$row_index"
    then true
    else str_eq given "$range_index"

abbrev pub name_of : Schema → Option String
name_of (node t given children) = given

-- The children that have another name.
abbrev pub data_columns : Schemas → Schemas
data_columns nil = nil
data_columns (cons child children) =
    if is_system (name_of child) then data_columns children else cons child (data_columns children)

is_nothing-eq : (t : WireType) → is_nothing t ≡ true → t ≡ WireType.nothing
is_nothing-eq WireType.nothing h = refl
is_nothing-eq _ h = cc

is_boolean-eq : (t : WireType) → is_boolean t ≡ true → t ≡ WireType.boolean
is_boolean-eq WireType.boolean h = refl
is_boolean-eq _ h = cc

is_int64-eq : (t : WireType) → is_int64 t ≡ true → t ≡ WireType.int64
is_int64-eq WireType.int64 h = refl
is_int64-eq _ h = cc

-- What a value of the shape of an optional index is.
nothing-HasShape :
    (given : Option String) (children : Schemas) (v : Value)
    → HasShape (node WireType.nothing given children) v
    → v ≡ Value.nothing
unfolding HasShape
nothing-HasShape given children Value.nothing h = refl
nothing-HasShape given children (Value.variant tag v) h = cc
nothing-HasShape given children (Value.repeated_variants items) h = cc
nothing-HasShape given children (Value.tuple vs) h = cc
nothing-HasShape given children _ h = absurd h

int64-HasShape :
    (given : Option String) (children : Schemas) (v : Value)
    → HasShape (node WireType.int64 given children) v
    → (w : ℕ) × (v ≡ Value.int64 w)
unfolding HasShape
int64-HasShape given children (Value.int64 w) h = (w, refl)
int64-HasShape given children (Value.variant tag v) h = cc
int64-HasShape given children (Value.repeated_variants items) h = cc
int64-HasShape given children (Value.tuple vs) h = cc
int64-HasShape given children _ h = absurd h

boolean-HasShape :
    (given : Option String) (children : Schemas) (v : Value)
    → HasShape (node WireType.boolean given children) v
    → (b : Bool) × (v ≡ Value.boolean b)
unfolding HasShape
boolean-HasShape given children (Value.boolean b) h = (b, refl)
boolean-HasShape given children (Value.variant tag v) h = cc
boolean-HasShape given children (Value.repeated_variants items) h = cc
boolean-HasShape given children (Value.tuple vs) h = cc
boolean-HasShape given children _ h = absurd h

variant8-HasShape :
    (given : Option String) (children : Schemas) (v : Value)
    → HasShape (node WireType.variant8 given children) v
    → (tag : ℕ) × (inner : Value) × (v ≡ Value.variant tag inner)
      × AtChild (get_child children tag) (λ child. HasShape child inner)
unfolding HasShape
variant8-HasShape given children (Value.variant tag v) h = (tag, v, refl, h.1)
variant8-HasShape given children (Value.repeated_variants items) h = cc
variant8-HasShape given children (Value.tuple vs) h = cc
variant8-HasShape given children _ h = absurd h

-- A control value was read.
abbrev pub IsOk {ℓ} : {A : Type ℓ} → Result SkiffError A → Type 0
IsOk (ok a) = Unit
IsOk (err e) = ⊥

pub IsOk-bind {ℓ κ} :
    {A : Type ℓ} {B : Type κ} (r : Result SkiffError A) (f : A → B)
    → IsOk r
    → IsOk (r >>= λ a. ok (f a))
IsOk-bind (ok a) f h = tt
IsOk-bind (err e) f h = absurd h

tagged_index-IsOk :
    (table : ℕ) (column : String) (tag : ℕ) (v : Value) (a b : Option String) (ss ss' : Schemas)
    → AtChild
        (get_child (cons (node WireType.nothing a ss) (cons (node WireType.int64 b ss') nil)) tag)
        (λ child. HasShape child v)
    → IsOk (tagged_index table column tag v)
tagged_index-IsOk table column zero v a b ss ss' h = rw (nothing-HasShape a ss v h) tt
tagged_index-IsOk table column (suc zero) v a b ss ss' h = rw ((int64-HasShape b ss' v h).1) tt
tagged_index-IsOk table column (suc (suc tag)) v a b ss ss' h = absurd h

nothing_or_int64-eq :
    (ss : Schemas)
    → nothing_or_int64 ss ≡ true
    → (a b : Option String) × (sa sb : Schemas) × (ss
        ≡ cons (node WireType.nothing a sa) (cons (node WireType.int64 b sb) nil))
nothing_or_int64-eq nil h = cc
nothing_or_int64-eq (cons s nil) h = cc
nothing_or_int64-eq (cons (node t a sa) (cons (node t' b sb) nil)) h =
    let (first, second) = both (is_nothing t) (is_int64 t') h in
    (a, b, sa, sb, rw (is_nothing-eq t first, is_int64-eq t' second) refl)
  where
    both : (p q : Bool) → (p && q) ≡ true → (p ≡ true) × (q ≡ true)
    both true q k = (refl, k)
    both false q k = cc
nothing_or_int64-eq (cons s (cons s' (cons s'' ss))) h = cc

optional_index-IsOk :
    (table : ℕ) (column : String) (schema : Schema) (v : Value)
    → optional_int64 schema ≡ true
    → HasShape schema v
    → IsOk (optional_index_value table column v)
optional_index-IsOk table column (node WireType.variant8 given children) v fits h =
    let (a, b, sa, sb, same) = nothing_or_int64-eq children fits in
    let (tag, inner, is_v, at) = variant8-HasShape given children v h in
    rw is_v (
      tagged_index-IsOk table column tag inner a b sa sb
        (subst (λ ss. AtChild (get_child ss tag) (λ child. HasShape child inner)) same at))
optional_index-IsOk table column (node _ given children) v fits h = cc

boolean_control-IsOk :
    (table : ℕ) (column : String) (schema : Schema) (v : Value)
    → boolean_leaf schema ≡ true
    → HasShape schema v
    → IsOk (boolean_control table column v)
boolean_control-IsOk table column (node WireType.boolean given children) v fits h =
    rw ((boolean-HasShape given children v h).1) tt
boolean_control-IsOk table column (node _ given children) v fits h = cc

-- The three names in their order, and none of them.
module _ (table : ℕ) (schema : Schema) where
  -- What is found of a named child.
  abbrev pub Found : Bool → Result SkiffError (Option SystemColumn) → Type 0
  Found named (err e) = Unit
  Found named (ok none) = named ≡ false
  Found named (ok (some column)) =
      (named ≡ true)
      × ((v : Value) (control : Bool × ControlState)
          → HasShape schema v
          → IsOk (apply_column table column v control))

  checked-Found :
      (reason : String) (column : SystemColumn) (fits : Bool)
      → (fits ≡ true
          → (v : Value) (control : Bool × ControlState) → HasShape schema v
          → IsOk (apply_column table column v control))
      → Found true (checked table reason column fits)
  checked-Found reason column true h = (refl, h refl)
  checked-Found reason column false h = tt

  if-Found :
      (test other : Bool) (r r' : Result SkiffError (Option SystemColumn))
      → Found true r
      → Found other r'
      → Found (if test then true else other) (if test then r else r')
  if-Found true other r r' h h' = h
  if-Found false other r r' h h' = h'

  column_named-Found :
      (given : String) → Found (is_system (some given)) (column_named table schema given)
  column_named-Found given =
      if-Found (str_eq given "$key_switch") _ _ _
        (checked-Found _ key_switch (boolean_leaf schema) (λ fits v control h.
          IsOk-bind (boolean_control table "$key_switch" v) _
            (boolean_control-IsOk table "$key_switch" schema v fits h)))
        (if-Found (str_eq given "$row_index") _ _ _
          (checked-Found _ row_index (optional_int64 schema) (λ fits v control h.
            IsOk-bind (optional_index_value table "$row_index" v) _
              (optional_index-IsOk table "$row_index" schema v fits h)))
          (last (str_eq given "$range_index")))
    where
      last :
          (test : Bool)
          → Found test (
              if test
              then checked table "$range_index must be variant8<nothing;int64>" range_index
                  (optional_int64 schema)
              else ok none)
      last true = checked-Found _ range_index (optional_int64 schema) (λ fits v control h.
          IsOk-bind (optional_index_value table "$range_index" v) _
            (optional_index-IsOk table "$range_index" schema v fits h))
      last false = refl

pub column_from_schema-Found :
    (table : ℕ) (schema : Schema)
    → Found table schema (is_system (name_of schema)) (column_from_schema table schema)
unfolding column_from_schema
column_from_schema-Found table (node t none children) = refl
column_from_schema-Found table (node t (some given) children) =
    column_named-Found table (node t (some given) children) given
