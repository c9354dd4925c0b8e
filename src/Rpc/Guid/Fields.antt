-- ===== src/Rpc/Guid/Fields.antt =====
-- The hexadecimal fields of the text of a GUID, printed and parsed.
use native.Mathlib.Nat.{pow-suc}
use ytsaurus_rs.Base.{
  ℕ, zero, suc, ◌+◌, ◌*◌, ◌/◌, ◌%◌, ◌^◌, ◌≤◌, ◌<◌, List, [], ◌∷◌, ◌++◌, length, All, All-append,
  Option, none, some, true, false, ltb, ◌==◌, if◌then◌else◌, ◌≡◌, ◌≢◌, ◌⊎◌, refl, ap, ◌∙◌, arith,
  length-append, Bool-cases, inl, inr, ltb→lt,
}
use ytsaurus_rs.Rpc.Guid.Text.{
  digit, hex, word_text, joined, to_digit, in_range, and_then, digits_from, from_str_radix,
  split_dash,
}

to_digit-digit : (n : ℕ) → n < 16 → to_digit (digit n) ≡ some n
to_digit-digit n h = ground arith

-- What a field has no character of.
abbrev pub Plain : ℕ → Type 0
Plain c = (c ≢ b'-') × (c ≢ b'+')

digit-Plain : (n : ℕ) → n < 16 → Plain (digit n)
digit-Plain n h = (λ e. ground arith, λ e. ground arith)

digits_from-append :
    (acc : ℕ) (front back : List ℕ)
    → digits_from acc (front ++ back) ≡ and_then (digits_from acc front) (λ n. digits_from n back)
unfolding digits_from
digits_from-append acc [] back = refl
digits_from-append acc (c ∷ front) back = go (to_digit c) (λ n. digits_from-append n front back)
  where
    Ih : Type 0
    Ih =
        (n : ℕ)
        → digits_from n (front ++ back) ≡ and_then (digits_from n front) (λ m. digits_from m back)

    next :
        (n : Option ℕ)
        → Ih
        → and_then n (λ m. digits_from m (front ++ back))
          ≡ and_then (and_then n (λ m. digits_from m front)) (λ m. digits_from m back)
    next none ih = refl
    next (some n) ih = ih n

    go :
        (d : Option ℕ)
        → Ih
        → and_then d
            (λ d'. and_then (in_range (acc * 16 + d')) (λ n. digits_from n (front ++ back)))
          ≡ and_then
              (and_then d (λ d'. and_then (in_range (acc * 16 + d')) (λ n. digits_from n front)))
              (λ n. digits_from n back)
    go none ih = refl
    go (some d) ih = next (in_range (acc * 16 + d)) ih

one_digit :
    (acc n : ℕ)
    → n < 16
    → acc * 16 + n < 2 ^ 32
    → digits_from acc (digit n ∷ []) ≡ some (acc * 16 + n)
unfolding digits_from
one_digit acc n h small =
    let e : ltb (acc * 16 + n) (2 ^ 32) ≡ true = ground arith in
    ap (λ d. and_then d (λ d'. and_then (in_range (acc * 16 + d')) (λ m. some m)))
      (to_digit-digit n h)
    ∙ ap (λ b. and_then (if b then some (acc * 16 + n) else none) (λ m. some m)) e

-- The digits of a number stand for it.
pub digits_from-hex :
    (count n : ℕ) → n < 16 ^ suc count → n < 2 ^ 32 → digits_from 0 (hex (suc count) n) ≡ some n
unfolding hex
digits_from-hex zero n h small =
    let e : 0 * 16 + n ≡ n = omega arith in
    let short : ltb n 16 ≡ true = ground arith in
    rw short (one_digit 0 n (omega (arith, h)) (omega (arith, small)) ∙ ap some e)
digits_from-hex (suc count) n h small = elim (Bool-cases (ltb n 16)) [
  | inl short ↦ rw short (
      one_digit 0 n (ltb→lt n 16 short) (omega (arith, small))
      ∙ (let e : 0 * 16 + n ≡ n = omega arith in ap some e))
  | inr long ↦ rw long (
      digits_from-append 0 (hex (suc count) (n / 16)) (digit (n % 16) ∷ [])
      ∙ ap (λ r. and_then r (λ m. digits_from m (digit (n % 16) ∷ [])))
          (digits_from-hex count (n / 16) (omega (arith, h, pow-suc 16 (suc count)))
            (omega (arith, small)))
      ∙ one_digit (n / 16) (n % 16) (omega arith) (omega (arith, small))
      ∙ (let e : n / 16 * 16 + n % 16 ≡ n = omega arith in ap some e))
]

pub length-hex : (count n : ℕ) → length (hex count n) ≤ count
unfolding hex
length-hex zero n = omega arith
length-hex (suc count) n = elim (Bool-cases (ltb n 16)) [
  | inl short ↦ rw short (omega arith)
  | inr long ↦ rw long (
      omega (
        arith,
        length-append (hex count (n / 16)) (digit (n % 16) ∷ []),
        length-hex count (n / 16),
      ))
]

pub hex-Plain : (count n : ℕ) → All Plain (hex count n)
unfolding hex
hex-Plain zero n = tt
hex-Plain (suc count) n = elim (Bool-cases (ltb n 16)) [
  | inl short ↦ rw short (digit-Plain n (ltb→lt n 16 short), tt)
  | inr long ↦ rw long (
      All-append Plain (hex count (n / 16)) (digit (n % 16) ∷ []) (hex-Plain count (n / 16))
        (digit-Plain (n % 16) (omega arith), tt))
]

-- The digits in front, and the last one.
pub hex-front :
    (count n : ℕ) → (front : List ℕ) × (last : ℕ) × (hex (suc count) n ≡ front ++ (last ∷ []))
unfolding hex
hex-front count n = elim (Bool-cases (ltb n 16)) [
  | inl short ↦ rw short ([], digit n, refl)
  | inr long ↦ rw long (hex count (n / 16), digit (n % 16), refl)
]

-- No plus stands in front of the digits.
pub from_str_radix-Plain :
    (text : List ℕ) → All Plain text → from_str_radix text ≡ digits_from 0 text ⊎ (text ≡ [])
from_str_radix-Plain [] plain = inr refl
from_str_radix-Plain (c ∷ []) plain = inl refl
from_str_radix-Plain (c ∷ c' ∷ text) (first, plain) =
    let e : (c == b'+') ≡ false = ground (arith, first.1) in inl (rw e refl)

split_dash-Plain : (field : List ℕ) → All Plain field → split_dash field ≡ field ∷ []
unfolding split_dash
split_dash-Plain [] plain = refl
split_dash-Plain (c ∷ field) (first, plain) =
    let e : (c == b'-') ≡ false = ground (arith, first.0) in
    rw (e, split_dash-Plain field plain) refl

split_dash-append :
    (field text : List ℕ)
    → All Plain field
    → split_dash (field ++ (b'-' ∷ text)) ≡ field ∷ split_dash text
unfolding split_dash
split_dash-append [] text plain = refl
split_dash-append (c ∷ field) text (first, plain) =
    let e : (c == b'-') ≡ false = ground (arith, first.0) in
    rw (e, split_dash-append field text plain) refl

pub split_dash-joined :
    (a b c d : ℕ)
    → split_dash (joined (a, b, c, d))
      ≡ word_text d ∷ (word_text c ∷ (word_text b ∷ (word_text a ∷ [])))
split_dash-joined a b c d =
    split_dash-append (word_text d) _ (hex-Plain 8 d)
    ∙ ap (◌∷◌ (word_text d)) (
        split_dash-append (word_text c) _ (hex-Plain 8 c)
        ∙ ap (◌∷◌ (word_text c)) (
            split_dash-append (word_text b) _ (hex-Plain 8 b)
            ∙ ap (◌∷◌ (word_text b)) (split_dash-Plain (word_text a) (hex-Plain 8 a))))
