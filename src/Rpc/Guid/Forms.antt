-- ===== src/Rpc/Guid/Forms.antt =====
-- The words and the halves of a GUID, there and back.
use ytsaurus_rs.Base.{ℕ, ◌+◌, ◌*◌, ◌^◌, ◌<◌, le_bytes, from_le, ◌≡◌, arith}
use ytsaurus_rs.Rpc.Guid.{parts, from_parts, halves, from_halves}

word_back : (a : ℕ) → a < 2 ^ 32 → from_le (le_bytes 4 a) ≡ a
word_back a h = omega arith

four :
    {a b c d a' b' c' d' : ℕ}
    → a ≡ a'
    → b ≡ b'
    → c ≡ c'
    → d ≡ d'
    → ◌≡◌ {A = ℕ × ℕ × ℕ × ℕ} (a, b, c, d) (a', b', c', d')
four p q r s = cc

two : {a b a' b' : ℕ} → a ≡ a' → b ≡ b' → ◌≡◌ {A = ℕ × ℕ} (a, b) (a', b')
two p q = cc

-- Four words of 32 bits are read back from the GUID that they make, and each half of it joins two of
-- them, the lower one first.
pub parts-from_parts :
    (a b c d : ℕ)
    → a < 2 ^ 32
    → b < 2 ^ 32
    → c < 2 ^ 32
    → d < 2 ^ 32
    → (parts (from_parts (a, b, c, d)) ≡ (a, b, c, d))
      × (halves (from_parts (a, b, c, d)) ≡ (a + 2 ^ 32 * b, c + 2 ^ 32 * d))
unfolding from_parts parts halves
parts-from_parts a b c d ha hb hc hd = (
  four (word_back a ha) (word_back b hb) (word_back c hc) (word_back d hd),
  two (omega arith) (omega arith),
)

-- Two halves of 64 bits are read back from the GUID that they make.
pub halves-from_halves :
    (first second : ℕ)
    → first < 2 ^ 64
    → second < 2 ^ 64
    → halves (from_halves (first, second)) ≡ (first, second)
unfolding halves from_halves
halves-from_halves first second h h' = two (omega arith) (omega arith)
