-- ===== src/Client/Path/Refusals.antt =====
-- crates/ytsaurus-client/src/path.rs: the paths that a command refuses. The texts of the refusals are
-- named by constructors.
use ytsaurus_rs.Base.{
  ℕ, List, [], ◌∷◌, Option, none, some, Bool, true, false, not, ltb, ◌==◌, ◌&&◌, ◌||◌,
  if◌then◌else◌,
}
use ytsaurus_rs.Yson.Node.{
  YsonValue, value, no_attributes, YsonNode, boolean, int64, uint64, double, string,
}
use ytsaurus_rs.Client.YsonBuild.{less_bytes}
use ytsaurus_rs.Yson.Node.{same_bytes}
use ytsaurus_rs.Client.Path.{
  Limit, row_index, key, key_bound, Key, RowRange, TablePath, zero_i64, pattern_of,
}

-- `first_unescaped_selector`, by whether the byte before is a backslash that escapes.
unfoldable pub selector_from : Bool → List ℕ → Option ℕ
selector_from escaped [] = none
selector_from true (b ∷ bytes) = selector_from false bytes
selector_from false (b ∷ bytes) =
    let later = selector_from (b == b'\\') bytes in
    if b == b'[' then some b'[' else if b == b'{' then some b'{' else later

abbrev pub first_unescaped_selector : List ℕ → Option ℕ
first_unescaped_selector = selector_from false

pub record Selectors : Type 0 where
  pub rows : Bool
  pub columns : Bool

-- The loop of `unescaped_selectors`.
unfoldable pub selectors_from : Bool → List ℕ → Selectors → Selectors
selectors_from escaped [] found = found
selectors_from true (b ∷ bytes) found = selectors_from false bytes found
selectors_from false (b ∷ bytes) found =
    selectors_from (b == b'\\') bytes
      (record { rows = b == b'[' || found.rows; columns = b == b'{' || found.columns })

abbrev pub unescaped_selectors : List ℕ → Selectors
unescaped_selectors path = selectors_from false path (record { rows = false; columns = false })

abbrev pub starts_block : List ℕ → Bool
starts_block [] = false
starts_block (b ∷ bytes) = b == b'<'

pub data WriteRefusal : Type 0 where
  selects_columns selects_ranges attribute_block : WriteRefusal
  selector : ℕ → WriteRefusal

abbrev pub is_some {ℓ} : {A : Type ℓ} → Option A → Bool
is_some none = false
is_some (some a) = true

abbrev pub is_empty {ℓ} : {A : Type ℓ} → List A → Bool
is_empty [] = true
is_empty (x ∷ xs) = false

abbrev pub named_selector : Option ℕ → Option WriteRefusal
named_selector none = none
named_selector (some b) = some (selector b)

unfoldable pub write_refusal : TablePath → Option WriteRefusal
write_refusal p =
    if is_some p.columns
    then some selects_columns
    else if not (is_empty p.ranges)
    then some selects_ranges
    else if starts_block p.path
    then some attribute_block
    else named_selector (first_unescaped_selector p.path)

pub data ReadRefusal : Type 0 where
  negative_row : (index : ℕ) → ReadRefusal
  rows_inverted : (lower upper : ℕ) → ReadRefusal
  keys_inverted opaque_block columns_twice rows_twice : ReadRefusal

pub data Order : Type 0 where
  less equal greater : Order

abbrev pub compare_numbers : ℕ → ℕ → Order
compare_numbers a b = if ltb a b then less else if a == b then equal else greater

abbrev pub compare_bytes : List ℕ → List ℕ → Order
compare_bytes a b = if less_bytes a b then less else if same_bytes a b then equal else greater

abbrev pub compare_booleans : Bool → Bool → Order
compare_booleans false true = less
compare_booleans true false = greater
compare_booleans a b = equal

-- The first parts that differ decide.
abbrev pub decided : Option Order → Option Order → Option Order
decided none later = none
decided (some equal) later = later
decided (some order) later = some order

abbrev pub key_of : Limit → Option Key
key_of (row_index index) = none
key_of (key k) = some k
key_of (key_bound relation k) = some k

abbrev pub negative : Option Limit → Option ReadRefusal
negative (some (row_index index)) = if ltb index zero_i64 then some (negative_row index) else none
negative limit = none

abbrev pub rows_order : Option Limit → Option Limit → Option ReadRefusal
rows_order (some (row_index lower)) (some (row_index upper)) =
    if ltb upper lower then some (rows_inverted lower upper) else none
rows_order lower upper = none

abbrev pub is_greater : Option Order → Bool
is_greater (some greater) = true
is_greater order = false

abbrev pub keys_of : Option Limit → Option Key
keys_of none = none
keys_of (some limit) = key_of limit

abbrev pub first_of {ℓ} : {A : Type ℓ} → Option A → Option A → Option A
first_of none later = later
first_of (some a) later = some a

unfoldable pub selection_conflict : TablePath → Bool → Bool → Option ReadRefusal
selection_conflict p adding_columns adding_rows =
    if not adding_columns && not adding_rows
    then none
    else if starts_block p.path
    then some opaque_block
    else if adding_columns && (unescaped_selectors p.path).columns
    then some columns_twice
    else if adding_rows && (unescaped_selectors p.path).rows
    then some rows_twice
    else none

-- `partial_cmp` of two floats is a parameter.
module _ (partial_cmp : ℕ → ℕ → Option Order) where
  abbrev pub node_ordering : YsonNode → YsonNode → Option Order
  node_ordering (boolean a) (boolean b) = some (compare_booleans a b)
  node_ordering (int64 a) (int64 b) = some (compare_numbers (pattern_of a) (pattern_of b))
  node_ordering (uint64 a) (uint64 b) = some (compare_numbers a b)
  node_ordering (string a) (string b) = some (compare_bytes a b)
  node_ordering (double a) (double b) = partial_cmp a b
  node_ordering a b = none

  abbrev pub part_ordering : YsonValue → YsonValue → Option Order
  part_ordering (value no_attributes a) (value no_attributes b) = node_ordering a b
  part_ordering v w = none

  unfoldable pub key_ordering : Key → Key → Option Order
  key_ordering [] [] = some equal
  key_ordering [] (w ∷ upper) = some less
  key_ordering (v ∷ lower) [] = some greater
  key_ordering (v ∷ lower) (w ∷ upper) = decided (part_ordering v w) (key_ordering lower upper)

  abbrev pub keys_order : Option Key → Option Key → Option ReadRefusal
  keys_order (some lower) (some upper) =
      if is_greater (key_ordering lower upper) then some keys_inverted else none
  keys_order lower upper = none

  -- `RowRange::refusal`
  unfoldable pub range_refusal : RowRange → Option ReadRefusal
  range_refusal r = first_of (negative r.lower) (
      first_of (negative r.upper)
        (first_of (rows_order r.lower r.upper) (keys_order (keys_of r.lower) (keys_of r.upper))))

  abbrev pub ranges_refusal : List RowRange → Option ReadRefusal
  ranges_refusal [] = none
  ranges_refusal (r ∷ rs) = first_of (range_refusal r) (ranges_refusal rs)

  unfoldable pub read_refusal : TablePath → Option ReadRefusal
  read_refusal p =
      first_of (ranges_refusal p.ranges)
        (selection_conflict p (is_some p.columns) (not (is_empty p.ranges)))
