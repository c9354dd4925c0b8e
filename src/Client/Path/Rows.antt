-- ===== src/Client/Path/Rows.antt =====
-- The rows that a range selects.
use ytsaurus_rs.Base.{ℕ, ◌≤◌, ◌<◌, Option, some, ◌==◌, ◌↔◌, arith, Bool-cases, inl, inr}
use ytsaurus_rs.Client.Path.{
  Bound, included, excluded, unbounded, Limit, row_index, rows, lower_row, upper_row, max_i64,
}

-- `RangeBounds::contains`
abbrev pub AboveStart : Bound ℕ → ℕ → Type 0
AboveStart (included start) index = start ≤ index
AboveStart (excluded start) index = start < index
AboveStart unbounded index = Unit

abbrev pub BelowStop : Bound ℕ → ℕ → Type 0
BelowStop (included stop) index = index ≤ stop
BelowStop (excluded stop) index = index < stop
BelowStop unbounded index = Unit

-- The limits as the cluster reads them: the lower one is inclusive, the upper one exclusive. A limit
-- that is no row index says nothing here.
abbrev pub FromLower : Option Limit → ℕ → Type 0
FromLower (some (row_index start)) index = start ≤ index
FromLower limit index = Unit

abbrev pub ToUpper : Option Limit → ℕ → Type 0
ToUpper (some (row_index stop)) index = index < stop
ToUpper limit index = Unit

lower_row_iff :
    (start : Bound ℕ) (index : ℕ)
    → index < max_i64
    → FromLower (lower_row start) index ↔ AboveStart start index
lower_row_iff (included start) index h = (λ k. k, λ k. k)
lower_row_iff (excluded start) index h = (λ k. omega (arith, h, k), λ k. omega (arith, h, k))
lower_row_iff unbounded index h = (λ k. tt, λ k. tt)

upper_row_iff :
    (stop : Bound ℕ) (index : ℕ)
    → index < max_i64
    → ToUpper (upper_row stop) index ↔ BelowStop stop index
upper_row_iff (included stop) index h = elim (Bool-cases (stop == max_i64)) [
  | inl last ↦ rw last (λ k. ground (arith, last, h), λ k. tt)
  | inr early ↦ rw early (λ k. omega (arith, k), λ k. omega (arith, k))
]
upper_row_iff (excluded stop) index h = (λ k. k, λ k. k)
upper_row_iff unbounded index h = (λ k. tt, λ k. tt)

-- The limits of a range of rows select exactly the rows that the range contains, whether its bounds are
-- included, excluded or missing, and where one more than a bound would overflow: but for the index
-- `i64::MAX`, which no row has.
pub rows_iff :
    (start stop : Bound ℕ) (index : ℕ)
    → index < max_i64
    → (FromLower (rows start stop).lower index × ToUpper (rows start stop).upper index)
      ↔ (AboveStart start index × BelowStop stop index)
rows_iff start stop index h =
    let (down, up) = lower_row_iff start index h in
    let (down', up') = upper_row_iff stop index h in
    (λ (a, b). (down a, down' b), λ (a, b). (up a, up' b))
