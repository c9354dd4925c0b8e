-- ===== src/Rpc/Guid/Printed.antt =====
-- A printed GUID is parsed.
use mathlib.Core.Path.{subst}
use ytsaurus_rs.Base.{
  ℕ, zero, suc, ◌+◌, ◌-◌, ◌^◌, ◌≤◌, ◌<◌, List, [], ◌∷◌, ◌++◌, length, take, drop, slice, All,
  set_at, some, false, ltb, leb, ◌≡◌, refl, sym, ap, ◌∙◌, arith, IsByte, from_le, le_bytes,
  from_le-lt, le_bytes-from_le, length-append, length-take, length-drop, take-append-drop,
  drop-drop, append-nil, inl, inr,
}
use ytsaurus_rs.Rpc.Guid.{parts, from_parts}
use ytsaurus_rs.Rpc.Guid.Text.{
  hex, word_text, joined, print_guid, from_str_radix, is_empty, fill_words, parse_guid,
}
use ytsaurus_rs.Rpc.Guid.Fields.{
  length-hex, hex-Plain, hex-front, digits_from-hex, from_str_radix-Plain, split_dash-joined,
}

length-pos : (count n : ℕ) → 0 < length (hex (suc count) n)
length-pos count n =
    let (front, last, e) = hex-front count n in
    omega (arith, ap length e, length-append front (last ∷ []))

from_str_radix-word : (w : ℕ) → w < 2 ^ 32 → from_str_radix (word_text w) ≡ some w
from_str_radix-word w h = elim (from_str_radix-Plain (word_text w) (hex-Plain 8 w)) [
  | inl e ↦ e ∙ digits_from-hex 7 w h h
  | inr e ↦ absurd (omega (arith, ap length e, length-pos 7 w))
]

not_empty : (text : List ℕ) → 0 < length text → is_empty text ≡ false
not_empty [] h = absurd (omega arith)
not_empty (c ∷ text) h = refl

fill_words-word :
    (index w : ℕ) (words : List ℕ) (fields : List (List ℕ))
    → index < 4
    → w < 2 ^ 32
    → fill_words index words (word_text w ∷ fields)
      ≡ fill_words (index + 1) (set_at words (3 - index) w) fields
unfolding fill_words
fill_words-word index w words fields h small =
    let early : leb 4 index ≡ false = ground arith in
    let some_text : is_empty (word_text w) ≡ false = not_empty (word_text w) (length-pos 7 w) in
    let short : ltb 8 (length (word_text w)) ≡ false = ground (arith, length-hex 8 w) in
    rw (early, some_text, short, from_str_radix-word w small) refl

parse-joined :
    (a b c d : ℕ)
    → a < 2 ^ 32
    → b < 2 ^ 32
    → c < 2 ^ 32
    → d < 2 ^ 32
    → parse_guid (joined (a, b, c, d)) ≡ some (from_parts (a, b, c, d))
unfolding parse_guid
parse-joined a b c d ha hb hc hd =
    rw
      (
        split_dash-joined a b c d,
        fill_words-word 0 d (0 ∷ 0 ∷ 0 ∷ 0 ∷ []) _ (omega arith) hd,
        fill_words-word 1 c (0 ∷ 0 ∷ 0 ∷ d ∷ []) _ (omega arith) hc,
        fill_words-word 2 b (0 ∷ 0 ∷ c ∷ d ∷ []) _ (omega arith) hb,
        fill_words-word 3 a (0 ∷ b ∷ c ∷ d ∷ []) [] (omega arith) ha,
      )
      (unfold fill_words in refl)

All-take : (n : ℕ) (bs : List ℕ) → All IsByte bs → All IsByte (take n bs)
All-take zero bs h = tt
All-take (suc n) [] h = tt
All-take (suc n) (b ∷ bs) h = (h.0, All-take n bs h.1)

All-drop : (n : ℕ) (bs : List ℕ) → All IsByte bs → All IsByte (drop n bs)
All-drop zero bs h = h
All-drop (suc n) [] h = tt
All-drop (suc n) (b ∷ bs) h = All-drop n bs h.1

four_parts :
    {a b c d a' b' c' d' : List ℕ}
    → a ≡ a'
    → b ≡ b'
    → c ≡ c'
    → d ≡ d'
    → a ++ (b ++ (c ++ d)) ≡ a' ++ (b' ++ (c' ++ d'))
four_parts p q r s = cc

-- Each word is made of four bytes.
module _ (g : List ℕ) (sixteen : length g ≡ 16) (bytes : All IsByte g) where
  length-quarter : (n : ℕ) → n ≤ 12 → length (take 4 (drop n g)) ≡ 4
  length-quarter n h = omega (arith, sixteen, length-take 4 (drop n g), length-drop n g)

  quarter-back : (n : ℕ) → n ≤ 12 → le_bytes 4 (from_le (take 4 (drop n g))) ≡ take 4 (drop n g)
  quarter-back n h =
      let bs : List ℕ = take 4 (drop n g) in
      subst (λ k. le_bytes k (from_le bs) ≡ bs) (length-quarter n h)
        (le_bytes-from_le bs (All-take 4 (drop n g) (All-drop n g bytes)))

  quarter-lt : (n : ℕ) → n ≤ 12 → from_le (take 4 (drop n g)) < 2 ^ 32
  quarter-lt n h =
      let bs : List ℕ = take 4 (drop n g) in
      subst (λ k. from_le bs < 256 ^ k) (length-quarter n h)
        (from_le-lt bs (All-take 4 (drop n g) (All-drop n g bytes)))

  next_quarter :
      (n : ℕ) (rest : List ℕ) → rest ≡ drop (n + 4) g → take 4 (drop n g) ++ rest ≡ drop n g
  next_quarter n rest e =
      ap (◌++◌ (take 4 (drop n g))) (e ∙ sym (drop-drop n 4 g)) ∙ take-append-drop 4 (drop n g)

  from_parts-parts : from_parts (parts g) ≡ g
  unfolding from_parts parts
  from_parts-parts =
      four_parts (quarter-back 0 (omega arith)) (quarter-back 4 (omega arith))
        (quarter-back 8 (omega arith)) (quarter-back 12 (omega arith))
      ∙ next_quarter 0 _ (next_quarter 4 _ (next_quarter 8 _ last_quarter))
    where
      nil_of : (bs : List ℕ) → length bs ≡ 0 → bs ≡ []
      nil_of [] h = refl
      nil_of (b ∷ bs) h = absurd (omega arith)

      last_quarter : take 4 (drop 12 g) ≡ drop 12 g
      last_quarter =
          sym (append-nil _)
          ∙ next_quarter 12 [] (sym (nil_of (drop 16 g) (omega (arith, sixteen, length-drop 16 g))))

-- The text of a GUID, which is 16 bytes, is parsed as that GUID.
pub parse_guid-print_guid :
    (g : List ℕ) → length g ≡ 16 → All IsByte g → parse_guid (print_guid g) ≡ some g
unfolding print_guid parts
parse_guid-print_guid g sixteen bytes =
    parse-joined (from_le (slice 0 4 g)) (from_le (slice 4 8 g)) (from_le (slice 8 12 g))
      (from_le (slice 12 16 g)) (quarter-lt g sixteen bytes 0 (omega arith))
      (quarter-lt g sixteen bytes 4 (omega arith)) (quarter-lt g sixteen bytes 8 (omega arith))
      (quarter-lt g sixteen bytes 12 (omega arith))
    ∙ ap some (from_parts-parts g sixteen bytes)
