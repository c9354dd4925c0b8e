-- ===== src/Base/Bits.antt =====
-- The bit operations as arithmetic, at every width.
use Prim.Native.Nat.{
  ℕ, zero, suc, ◌+◌, ◌-◌, ◌*◌, ◌/◌, ◌%◌, ◌^◌, ◌≤◌, ◌<◌, min, max, bit_and, bit_or, bit_xor, differ,
  digits, bitwise, bit_and-bitwise, bit_or-bitwise, bit_xor-bitwise,
}
use mathlib.Core.Path.{◌≡◌, refl, ap, ◌∙◌}
use native.Mathlib.Omega.{arith}
use native.Mathlib.Nat.{pow-suc}
use native.Mathlib.Decide.{dec_le, ℕ_discrete}
use ytsaurus_rs.Base.Tests.{◌==◌, ==_iff}
use mathlib.Core.Bool.{Bool, true, false, ◌&&◌}

-- The library walks over the binary digits on fuel; `low` answers where the first number has none left.
module _ (low : ℕ → ℕ) (digit : ℕ → ℕ → ℕ) where
  one_more : (fuel a b : ℕ) → a ≤ fuel → digits low digit (suc fuel) a b ≡ digits low digit fuel a b
  one_more zero zero b h = refl
  one_more zero (suc a) b h = absurd (omega arith)
  one_more (suc fuel) zero b h = refl
  one_more (suc fuel) (suc a) b h = rw (one_more fuel (suc a / 2) (b / 2) (omega arith)) refl

  -- Fuel beyond the number itself changes nothing.
  digits-enough : (fuel a b : ℕ) → a ≤ fuel → digits low digit fuel a b ≡ digits low digit a a b
  digits-enough zero zero b h = refl
  digits-enough zero (suc a) b h = absurd (omega arith)
  digits-enough (suc fuel) a b h = elim (dec_le a fuel) [
    | yes fits ↦ one_more fuel a b fits ∙ digits-enough fuel a b fits
    | no longer ↦ let same : a ≡ suc fuel = omega arith in rw same refl
  ]

  module _ (low_step : (b : ℕ) → low b ≡ low (b / 2) * 2 + digit 0 (b % 2)) where
    lowest :
        (a b : ℕ)
        → bitwise low digit a b ≡ bitwise low digit (a / 2) (b / 2) * 2 + digit (a % 2) (b % 2)
    lowest zero b = low_step b
    lowest (suc a) b = omega (arith, digits-enough a (suc a / 2) (b / 2) (omega arith))

-- The lowest digit apart from the others, for each operation.
pub bit_or_step : (a b : ℕ) → bit_or a b ≡ bit_or (a / 2) (b / 2) * 2 + max (a % 2) (b % 2)
bit_or_step a b = simp bit_or-bitwise (lowest (λ rest. rest) max (λ rest. omega arith) a b)

pub bit_and_step : (a b : ℕ) → bit_and a b ≡ bit_and (a / 2) (b / 2) * 2 + min (a % 2) (b % 2)
bit_and_step a b = simp bit_and-bitwise (lowest (λ rest. 0) min (λ rest. omega arith) a b)

pub bit_xor_step : (a b : ℕ) → bit_xor a b ≡ bit_xor (a / 2) (b / 2) * 2 + differ (a % 2) (b % 2)
bit_xor_step a b = simp bit_xor-bitwise (lowest (λ rest. rest) differ (λ rest. omega arith) a b)

-- Two functions that grow by the same lowest digits are equal.
halving_unique :
    (f g digit : ℕ → ℕ)
    → f 0 ≡ g 0
    → ((n : ℕ) → f n ≡ f (n / 2) * 2 + digit n)
    → ((n : ℕ) → g n ≡ g (n / 2) * 2 + digit n)
    → (bound n : ℕ) → n ≤ bound
    → f n ≡ g n
halving_unique f g digit start grow grow' bound zero h = start
halving_unique f g digit start grow grow' zero (suc n) h = absurd (omega arith)
halving_unique f g digit start grow grow' (suc bound) (suc n) h = omega (
  arith,
  grow (suc n),
  grow' (suc n),
  halving_unique f g digit start grow grow' bound (suc n / 2) (omega arith),
)

pub bit_or-zero : (a : ℕ) → bit_or a 0 ≡ a
bit_or-zero a =
    halving_unique (λ n. bit_or n 0) (λ n. n) (λ n. n % 2) refl
      (λ n. omega (arith, bit_or_step n 0)) (λ n. omega arith) a a (omega arith)

pub bit_and-zero : (a : ℕ) → bit_and a 0 ≡ 0
bit_and-zero a =
    halving_unique (λ n. bit_and n 0) (λ n. 0) (λ n. 0) refl (λ n. omega (arith, bit_and_step n 0))
      (λ n. omega arith) a a (omega arith)

pub zero-bit_or : (a : ℕ) → bit_or 0 a ≡ a
zero-bit_or a = simp bit_or-bitwise (omega arith)

-- A field above the low `k` bits is added by `|`.
pub bit_or_shifted : (k r q : ℕ) → r < 2 ^ k → bit_or r (q * 2 ^ k) ≡ r + q * 2 ^ k
bit_or_shifted zero r q fits = ground (arith, zero-bit_or q)
bit_or_shifted (suc k) r q fits = ground (
  arith,
  bit_or_step r (q * 2 ^ suc k),
  ap (λ (t : ℕ). q * t) (pow-suc 2 k),
  bit_or_shifted k (r / 2) q (omega arith),
)

differ-le : (a b : ℕ) → a < 2 → b < 2 → differ a b ≤ 1
differ-le zero b ha hb = omega arith
differ-le (suc zero) zero ha hb = omega arith
differ-le (suc zero) (suc zero) ha hb = omega arith
differ-le (suc zero) (suc (suc b)) ha hb = absurd (omega arith)
differ-le (suc (suc a)) b ha hb = absurd (omega arith)

differ-zero : (a : ℕ) → differ a 0 ≡ a
differ-zero zero = refl
differ-zero (suc a) = refl

differ-one : (a : ℕ) → a < 2 → differ a 1 ≡ 1 - a
differ-one zero ha = omega arith
differ-one (suc zero) ha = omega arith
differ-one (suc (suc a)) ha = absurd (omega arith)

-- An exclusive or is no wider than its operands.
pub bit_xor-lt : (k a b : ℕ) → a < 2 ^ k → b < 2 ^ k → bit_xor a b < 2 ^ k
bit_xor-lt zero a b ha hb =
    let ea : a ≡ 0 = omega arith in let eb : b ≡ 0 = omega arith in rw (ea, eb) (omega arith)
bit_xor-lt (suc k) a b ha hb = ground (
  arith,
  bit_xor_step a b,
  pow-suc 2 k,
  differ-le (a % 2) (b % 2) (omega arith) (omega arith),
  bit_xor-lt k (a / 2) (b / 2) (omega arith) (omega arith),
)

-- Over a small range every value is checked by evaluation.
pub holds_below : (ℕ → Bool) → ℕ → Bool
holds_below test zero = true
holds_below test (suc n) = holds_below test n && test n

and_left : (a b : Bool) → (a && b) ≡ true → a ≡ true
and_left true b h = refl
and_left false b h = cc

and_right : (a b : Bool) → (a && b) ≡ true → b ≡ true
and_right true b h = h
and_right false b h = cc

pub holds_below-at :
    (test : ℕ → Bool) (limit x : ℕ) → x < limit → holds_below test limit ≡ true → test x ≡ true
unfolding holds_below
holds_below-at test zero x small h = absurd (omega arith)
holds_below-at test (suc n) x small h = elim (ℕ_discrete x n) [
  | yes last ↦ rw last (and_right (holds_below test n) (test n) h)
  | no earlier ↦ holds_below-at test n x (omega arith) (and_left (holds_below test n) (test n) h)
]

agree : (f g : ℕ → ℕ) (n : ℕ) → holds_below (λ x. f x == g x) n ≡ true → (x : ℕ) → x < n → f x ≡ g x
agree f g n h x lt = (==_iff _ _).0 (holds_below-at (λ y. f y == g y) n x lt h)

pub low_seven_bits : (b : ℕ) → b < 256 → bit_and b 0x7f ≡ b % 128
unfolding holds_below
low_seven_bits = agree _ (λ b. b % 128) 256 refl

pub top_bit : (b : ℕ) → b < 256 → bit_and b 0x80 ≡ b / 128 * 128
unfolding holds_below
top_bit = agree _ (λ b. b / 128 * 128) 256 refl

pub set_top_bit : (b : ℕ) → b < 256 → bit_or b 0x80 ≡ b % 128 + 128
unfolding holds_below
set_top_bit = agree _ (λ b. b % 128 + 128) 256 refl

pub bit_xor-zero : (a : ℕ) → bit_xor a 0 ≡ a
bit_xor-zero a =
    halving_unique (λ n. bit_xor n 0) (λ n. n) (λ n. n % 2) refl
      (λ n. omega (arith, bit_xor_step n 0, differ-zero (n % 2))) (λ n. omega arith) a a
      (omega arith)

-- An exclusive or with `k` ones takes the complement in `k` bits.
pub bit_xor_ones : (k a b : ℕ) → a < 2 ^ k → b + 1 ≡ 2 ^ k → bit_xor a b + a ≡ b
bit_xor_ones zero a b ha hb =
    let ea : a ≡ 0 = omega arith in let eb : b ≡ 0 = omega arith in rw (ea, eb) (omega arith)
bit_xor_ones (suc k) a b ha hb =
    let odd : b % 2 ≡ 1 = omega (arith, pow-suc 2 k) in
    omega (
      arith,
      bit_xor_step a b,
      pow-suc 2 k,
      ap (λ (t : ℕ). differ (a % 2) t) odd,
      differ-one (a % 2) (omega arith),
      bit_xor_ones k (a / 2) (b / 2) (omega (arith, pow-suc 2 k)) (omega (arith, pow-suc 2 k)),
    )
