-- ===== src/Client/Path.antt =====
-- crates/ytsaurus-client/src/path.rs: table paths, row ranges and their limits. A text is its bytes,
-- and an `i64` is its distance from the least one, which keeps the order.
pub mod Keys
pub mod Refusals
pub mod Lexicographic
pub mod Ordering
pub mod Rows
pub mod Scans
mod Runs
use ytsaurus_rs.Base.{
  ℕ, ◌+◌, ◌-◌, ◌%◌, ◌^◌, min, List, [], ◌∷◌, ◌++◌, map, Option, none, some, Bool, true, false, ltb,
  ◌==◌, if◌then◌else◌,
}
use ytsaurus_rs.Yson.Node.{YsonValue, value, Attributes, attributes}
use ytsaurus_rs.Client.YsonBuild.{text, int, truth, sequence, dict, fields_of}
use ytsaurus_rs.Yson.Node.{empty}
use ytsaurus_rs.Client.Path.Keys.{
  k_append, k_columns, k_ranges, k_exact, k_lower_limit, k_upper_limit, k_row_index, k_key,
  k_key_bound,
}

-- `std::ops::Bound`
pub data Bound {ℓ} (A : Type ℓ) : Type ℓ where
  included excluded : A → Bound A
  unbounded : Bound A

abbrev pub Key : Type 0
Key = List YsonValue

pub data Limit : Type 0 where
  row_index : ℕ → Limit
  key : Key → Limit
  key_bound : (relation : List ℕ) → Key → Limit

pub record RowRange : Type 0 where
  pub lower : Option Limit
  pub upper : Option Limit
  pub exact : Option Limit

-- Where `i64` has its zero and its greatest number.
abbrev pub zero_i64 : ℕ
zero_i64 = 2 ^ 63

abbrev pub max_i64 : ℕ
max_i64 = 2 ^ 64 - 1

abbrev pub lower_row : Bound ℕ → Option Limit
lower_row (included index) = some (row_index index)
lower_row (excluded index) = some (row_index (min (index + 1) max_i64))
lower_row unbounded = none

abbrev pub upper_row : Bound ℕ → Option Limit
upper_row (included index) = if index == max_i64 then none else some (row_index (index + 1))
upper_row (excluded index) = some (row_index index)
upper_row unbounded = none

abbrev pub rows : Bound ℕ → Bound ℕ → RowRange
rows start stop = record { lower = lower_row start; upper = upper_row stop; exact = none }

abbrev pub lower_key : Bound Key → Option Limit
lower_key (included k) = some (key k)
lower_key (excluded k) = some (key_bound (b'>' ∷ []) k)
lower_key unbounded = none

abbrev pub upper_key : Bound Key → Option Limit
upper_key (included k) = some (key_bound (b'<' ∷ b'=' ∷ []) k)
upper_key (excluded k) = some (key k)
upper_key unbounded = none

abbrev pub keys : Bound Key → Bound Key → RowRange
keys start stop = record { lower = lower_key start; upper = upper_key stop; exact = none }

abbrev pub exact_key : Key → RowRange
exact_key k = record { lower = none; upper = none; exact = some (key k) }

-- The 64-bit pattern.
abbrev pub pattern_of : ℕ → ℕ
pattern_of index = (index + zero_i64) % 2 ^ 64

abbrev pub limit_yson : Limit → YsonValue
limit_yson (row_index index) = dict ((k_row_index, int (pattern_of index)) ∷ [])
limit_yson (key k) = dict ((k_key, sequence k) ∷ [])
limit_yson (key_bound relation k) =
    dict ((k_key_bound, sequence (text relation ∷ sequence k ∷ [])) ∷ [])

abbrev pub entry : List ℕ → Option Limit → List (List ℕ × YsonValue)
entry name none = []
entry name (some limit) = (name, limit_yson limit) ∷ []

abbrev pub range_yson : RowRange → YsonValue
range_yson r =
    dict (entry k_exact r.exact ++ (entry k_lower_limit r.lower ++ entry k_upper_limit r.upper))

pub record TablePath : Type 0 where
  pub path : List ℕ
  pub append : Bool
  pub columns : Option (List (List ℕ))
  pub ranges : List RowRange

abbrev pub new : List ℕ → TablePath
new path = record { path = path; append = false; columns = none; ranges = [] }

abbrev pub with_append : TablePath → TablePath
with_append p = record p { append = true }

abbrev pub with_columns : TablePath → List (List ℕ) → TablePath
with_columns p columns = record p { columns = some columns }

abbrev pub with_range : TablePath → RowRange → TablePath
with_range p range = record p { ranges = p.ranges ++ (range ∷ []) }

abbrev pub append_entry : Bool → List (List ℕ × YsonValue)
append_entry true = (k_append, truth true) ∷ []
append_entry false = []

abbrev pub columns_entry : Option (List (List ℕ)) → List (List ℕ × YsonValue)
columns_entry none = []
columns_entry (some columns) = (k_columns, sequence (map text columns)) ∷ []

abbrev pub ranges_entry : List RowRange → List (List ℕ × YsonValue)
ranges_entry [] = []
ranges_entry (r ∷ rs) = (k_ranges, sequence (map range_yson (r ∷ rs))) ∷ []

-- `with_attributes`, where there are any.
abbrev pub attributed : YsonValue → List (List ℕ × YsonValue) → YsonValue
attributed v [] = v
attributed (value attrs node) (e ∷ es) = value (attributes (fields_of empty (e ∷ es))) node

unfoldable pub to_yson : TablePath → YsonValue
to_yson p =
    attributed (text p.path)
      (append_entry p.append ++ (columns_entry p.columns ++ ranges_entry p.ranges))
