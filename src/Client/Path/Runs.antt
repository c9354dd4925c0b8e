-- ===== src/Client/Path/Runs.antt =====
-- Concrete paths, ranges and keys.
use ytsaurus_rs.Base.{
  ℕ, ◌+◌, ◌-◌, ◌^◌, ◌≤◌, ◌<◌, List, [], ◌∷◌, Option, none, some, true, false, ◌≡◌, ◌↔◌, refl, arith,
}
use ytsaurus_rs.Client.YsonBuild.{text, int}
use ytsaurus_rs.Client.Path.{
  included, excluded, unbounded, rows, keys, new, with_range, zero_i64, max_i64, Key,
}
use ytsaurus_rs.Client.Path.Rows.{rows_iff}
use ytsaurus_rs.Client.Path.Refusals.{
  selectors_from, selector_from, selection_conflict, write_refusal, selector, selects_ranges,
  read_refusal, range_refusal, negative_row, rows_inverted, keys_inverted, rows_twice, Order, less,
  greater, key_ordering, unescaped_selectors,
}
use ytsaurus_rs.Client.Path.Scans.{NoSelector, write_refusal_iff}
use ytsaurus_rs.Client.Path.Lexicographic.{KeyBelow, key_ordering-KeyBelow}

-- The names `t[` and `t\[`.
abbrev bare : List ℕ
bare = b't' ∷ b'[' ∷ []

abbrev escaped : List ℕ
escaped = b't' ∷ b'\\' ∷ b'[' ∷ []

-- A comparison of floats that tells none apart.
abbrev no_floats : ℕ → ℕ → Option Order
no_floats a b = none

bare_refused : write_refusal (new bare) ≡ some (selector b'[')
unfolding write_refusal selector_from
bare_refused = refl

escaped_accepted : write_refusal (new escaped) ≡ none
unfolding write_refusal selector_from
escaped_accepted = refl

ranges_refused :
    write_refusal (with_range (new escaped) (rows unbounded unbounded)) ≡ some selects_ranges
unfolding write_refusal
ranges_refused = refl

said_twice :
    read_refusal no_floats (with_range (new bare) (rows unbounded unbounded)) ≡ some rows_twice
unfolding read_refusal range_refusal selection_conflict selectors_from
said_twice = refl

below_zero :
    range_refusal no_floats (rows (included (zero_i64 - 1)) unbounded)
    ≡ some (negative_row (zero_i64 - 1))
unfolding range_refusal
below_zero = refl

five_to_three :
    range_refusal no_floats (rows (included (zero_i64 + 5)) (excluded (zero_i64 + 3)))
    ≡ some (rows_inverted (zero_i64 + 5) (zero_i64 + 3))
unfolding range_refusal
five_to_three = refl

abbrev low : Key
low = text (b'a' ∷ []) ∷ []

abbrev high : Key
high = text (b'a' ∷ []) ∷ int 1 ∷ []

from_high_to_low :
    range_refusal no_floats (keys (included high) (excluded low)) ≡ some keys_inverted
unfolding range_refusal key_ordering
from_high_to_low = refl

-- The last index is left out by no limit.
up_to_last : (rows (included zero_i64) (included max_i64)).upper ≡ none
up_to_last = refl

rows_iff_example :
    ((zero_i64 + 5 ≤ zero_i64 + 5) × (zero_i64 + 5 < zero_i64 + 8))
    ↔ ((zero_i64 + 4 < zero_i64 + 5) × (zero_i64 + 5 ≤ zero_i64 + 7))
rows_iff_example =
    rows_iff (excluded (zero_i64 + 4)) (included (zero_i64 + 7)) (zero_i64 + 5) (omega arith)

write_refusal_iff_example :
    (write_refusal (new escaped) ≡ none)
    ↔ ((false ≡ false) × (true ≡ true) × (false ≡ false) × NoSelector (unescaped_selectors escaped))
write_refusal_iff_example = write_refusal_iff (new escaped)

-- Minus one, by its 64-bit pattern, stands before one.
abbrev minus_one : Key
minus_one = text (b'a' ∷ []) ∷ int (2 ^ 64 - 1) ∷ []

key_ordering-KeyBelow_example :
    ((key_ordering no_floats minus_one high ≡ some less) ↔ KeyBelow no_floats minus_one high)
    × ((key_ordering no_floats minus_one high ≡ some greater) ↔ KeyBelow no_floats high minus_one)
key_ordering-KeyBelow_example =
    key_ordering-KeyBelow no_floats (λ a b. refl) minus_one high (tt, (omega arith, tt))
      (tt, (omega arith, tt))

negative_first : key_ordering no_floats minus_one high ≡ some less
unfolding key_ordering
negative_first = refl
