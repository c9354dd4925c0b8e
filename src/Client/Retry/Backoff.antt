-- ===== src/Client/Retry/Backoff.antt =====
-- The waits between two attempts.
use native.Mathlib.Nat.{pow-le-pow_right, mul-le-mul_left}
use ytsaurus_rs.Base.{ℕ, ◌+◌, ◌-◌, ◌*◌, ◌^◌, ◌≤◌, ◌<◌, min, ◌≡◌, arith}
use ytsaurus_rs.Client.Retry.{RetryPolicy, backoff, doublings}

pub backoff_le : (policy : RetryPolicy) (n : ℕ) → backoff policy n ≤ policy.max_backoff
unfolding backoff
backoff_le policy n = omega arith

-- Where the longest wait is a `Duration`, after failure `n + 1`, among the first 32, the wait is the first one doubled `n` times, or the
-- longest wait where that is shorter. An overflow of the multiplication is no exception.
backoff-doubles :
    (policy : RetryPolicy) (n : ℕ)
    → n < 32
    → policy.max_backoff < 2 ^ 64 * 1_000_000_000
    → backoff policy (n + 1) ≡ min (policy.initial_backoff * 2 ^ n) policy.max_backoff
unfolding backoff
backoff-doubles policy n h fits = ground arith

doublings_monotone : (m n : ℕ) → m ≤ n → doublings m ≤ doublings n
doublings_monotone m n h = ground (
  arith,
  λ (l : m ≤ n). pow-le-pow_right {n = 2} (omega arith) l,
  λ (l : m ≤ 31). pow-le-pow_right {n = 2} (omega arith) l,
)

mul_monotone : (a m n : ℕ) → m ≤ n → a * m ≤ a * n
mul_monotone a m n h = mul-le-mul_left a h

-- A later failure never waits less, and no wait is longer than the longest.
pub backoff_monotone :
    (policy : RetryPolicy) (m n : ℕ)
    → m ≤ n
    → (backoff policy m ≤ backoff policy n) × (backoff policy n ≤ policy.max_backoff)
unfolding backoff
backoff_monotone policy m n h = ground (
  arith,
  mul_monotone policy.initial_backoff (doublings (m - 1)) (doublings (n - 1))
      (doublings_monotone (m - 1) (n - 1) (omega arith)),
)
