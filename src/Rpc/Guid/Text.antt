-- ===== src/Rpc/Guid/Text.antt =====
-- crates/ytsaurus-rpc/src/guid.rs: the text form of a GUID, as the bytes of the text.
use ytsaurus_rs.Base.{
  ℕ, zero, suc, ◌+◌, ◌-◌, ◌*◌, ◌/◌, ◌%◌, ◌^◌, List, [], ◌∷◌, ◌++◌, length, get_or, set_at, Option,
  none, some, Bool, true, false, ltb, leb, ◌==◌, ◌&&◌, ◌||◌, if◌then◌else◌,
}
use ytsaurus_rs.Rpc.Guid.{parts, from_parts}

abbrev pub digit : ℕ → ℕ
digit n = if ltb n 10 then b'0' + n else b'a' + (n - 10)

-- `{:x}` of the standard library, for a number of at most `count` digits.
unfoldable pub hex : ℕ → ℕ → List ℕ
hex zero n = []
hex (suc count) n =
    let front : List ℕ = hex count (n / 16) in
    if ltb n 16 then digit n ∷ [] else front ++ (digit (n % 16) ∷ [])

abbrev pub word_text : ℕ → List ℕ
word_text = hex 8

abbrev pub joined : ℕ × ℕ × ℕ × ℕ → List ℕ
joined (a, b, c, d) =
    word_text d ++ (b'-' ∷ (word_text c ++ (b'-' ∷ (word_text b ++ (b'-' ∷ word_text a)))))

-- `Display::fmt`
unfoldable pub print_guid : List ℕ → List ℕ
print_guid g = joined (parts g)

-- `char::to_digit(16)`
abbrev pub to_digit : ℕ → Option ℕ
to_digit c =
    if leb b'0' c && leb c b'9'
    then some (c - b'0')
    else if leb b'a' c && leb c b'f'
    then some (c - b'a' + 10)
    else if leb b'A' c && leb c b'F'
    then some (c - b'A' + 10)
    else none

abbrev pub in_range : ℕ → Option ℕ
in_range n = if ltb n (2 ^ 32) then some n else none

abbrev pub and_then {ℓ κ} : {A : Type ℓ} {B : Type κ} → Option A → (A → Option B) → Option B
and_then none f = none
and_then (some a) f = f a

-- The digits of `u32::from_str_radix(.., 16)`, by `checked_mul` and `checked_add`.
unfoldable pub digits_from : ℕ → List ℕ → Option ℕ
digits_from acc [] = some acc
digits_from acc (c ∷ text) =
    and_then (to_digit c) (λ d. and_then (in_range (acc * 16 + d)) (λ next. digits_from next text))

-- `u32::from_str_radix(.., 16)`, which takes a leading plus.
abbrev pub from_str_radix : List ℕ → Option ℕ
from_str_radix [] = none
from_str_radix (c ∷ []) = digits_from 0 (c ∷ [])
from_str_radix (c ∷ c' ∷ text) =
    if c == b'+' then digits_from 0 (c' ∷ text) else digits_from 0 (c ∷ c' ∷ text)

-- `text.split('-')`
abbrev pub push_front : ℕ → List (List ℕ) → List (List ℕ)
push_front c [] = (c ∷ []) ∷ []
push_front c (field ∷ fields) = (c ∷ field) ∷ fields

unfoldable pub split_dash : List ℕ → List (List ℕ)
split_dash [] = [] ∷ []
split_dash (c ∷ text) =
    let fields : List (List ℕ) = split_dash text in
    if c == b'-' then [] ∷ fields else push_front c fields

abbrev pub is_empty : List ℕ → Bool
is_empty [] = true
is_empty (c ∷ text) = false

-- The loop of `from_str`, which fills the words from the last one on.
unfoldable pub fill_words : ℕ → List ℕ → List (List ℕ) → Option (ℕ × List ℕ)
fill_words index words [] = some (index, words)
fill_words index words (field ∷ fields) =
    if leb 4 index
    then none
    else if is_empty field || ltb 8 (length field)
    then none
    else and_then (from_str_radix field)
        (λ word. fill_words (index + 1) (set_at words (3 - index) word) fields)

abbrev pub four_words : List ℕ → ℕ × ℕ × ℕ × ℕ
four_words words = (get_or words 0 0, get_or words 1 0, get_or words 2 0, get_or words 3 0)

-- `FromStr::from_str`; the error carries nothing.
unfoldable pub parse_guid : List ℕ → Option (List ℕ)
parse_guid text =
    and_then (fill_words 0 (0 ∷ 0 ∷ 0 ∷ 0 ∷ []) (split_dash text))
      (λ (seen, words). if seen == 4 then some (from_parts (four_words words)) else none)
