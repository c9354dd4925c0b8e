-- ===== src/Client/Retry/Sends.antt =====
-- How often a run sends, with which flags, and how long it sleeps.
use Prim.Native.String.{String}
use mathlib.Core.Path.{subst}
use ytsaurus_rs.Base.{
  ℕ, zero, suc, ◌+◌, ◌*◌, ◌≤◌, ◌<◌, max, List, [], ◌∷◌, ◌++◌, replicate, Option, some, Bool, true,
  false, ltb, ◌≡◌, refl, sym, ap, ◌∙◌, arith, Result, lt→ltb, Bool-cases, inl, inr,
}
use ytsaurus_rs.Client.Error.{Document, ClientError}
use ytsaurus_rs.Client.Retry.{
  RetryPolicy, Repeatable, Event, called, retrying, slept, announced, backoff, run,
  allowed_attempts,
}
use ytsaurus_rs.Client.Retry.Backoff.{backoff_le}
use ytsaurus_rs.Client.Retry.Loop.{history, Course, run-Course}

-- The retry flags of the sends, in their order.
unfoldable pub flags : List Event → List Bool
flags [] = []
flags (called is_retry ∷ events) = is_retry ∷ flags events
flags (retrying wait attempt allowed ∷ events) = flags events
flags (slept wait ∷ events) = flags events

unfoldable pub total_wait : List Event → ℕ
total_wait [] = 0
total_wait (called is_retry ∷ events) = total_wait events
total_wait (retrying wait attempt allowed ∷ events) = total_wait events
total_wait (slept wait ∷ events) = wait + total_wait events

-- A run of sends with one sleep between each two of them, none longer than `longest`, which may be
-- announced first: `n` sleeps, and whether the first send is a retry.
pub data Spaced (longest : ℕ) : ℕ → Bool → List Event → Type 0 where
  last_send : {is_retry : Bool} → Spaced longest 0 is_retry (called is_retry ∷ [])
  quietly :
      {n wait : ℕ} {is_retry : Bool} {events : List Event}
      → wait ≤ longest
      → Spaced longest n true events
      → Spaced longest (suc n) is_retry (called is_retry ∷ slept wait ∷ events)
  loudly :
      {n wait attempt allowed : ℕ} {is_retry : Bool} {events : List Event}
      → wait ≤ longest
      → Spaced longest n true events
      → Spaced longest
          (suc n)
          is_retry
          (called is_retry ∷ retrying wait attempt allowed ∷ slept wait ∷ events)

history-Spaced :
    (policy : RetryPolicy) (allowed attempt n : ℕ)
    → 1 ≤ attempt
    → Spaced policy.max_backoff n (ltb 1 attempt) (history policy allowed attempt n)
unfolding history backoff
history-Spaced policy allowed attempt zero h = last_send
history-Spaced policy allowed attempt (suc n) h =
    let behind : Spaced policy.max_backoff n true (history policy allowed (attempt + 1) n) =
      subst (λ b. Spaced policy.max_backoff n b (history policy allowed (attempt + 1) n))
        (lt→ltb 1 (attempt + 1) (omega arith))
        (history-Spaced policy allowed (attempt + 1) n (omega arith)) in
    elim (Bool-cases policy.report) [
      | inl loud ↦ rw loud (loudly (backoff_le policy attempt) behind)
      | inr quiet ↦ rw quiet (quietly (backoff_le policy attempt) behind)
    ]

flags-announced :
    (policy : RetryPolicy) (attempt allowed : ℕ) (events : List Event)
    → (flags ((announced policy attempt allowed ++ (slept (backoff policy attempt) ∷ [])) ++ events)
        ≡ flags events)
      × (total_wait
            ((announced policy attempt allowed ++ (slept (backoff policy attempt) ∷ [])) ++ events)
          ≡ backoff policy attempt + total_wait events)
unfolding flags total_wait
flags-announced policy attempt allowed events = elim (Bool-cases policy.report) [
  | inl loud ↦ rw loud (refl, refl)
  | inr quiet ↦ rw quiet (refl, refl)
]

history-flags :
    (policy : RetryPolicy) (allowed attempt n : ℕ)
    → 1 ≤ attempt
    → (flags (history policy allowed attempt n) ≡ ltb 1 attempt ∷ replicate n true)
      × (total_wait (history policy allowed attempt n) ≤ n * policy.max_backoff)
unfolding history flags total_wait
history-flags policy allowed attempt zero h = (refl, omega arith)
history-flags policy allowed attempt (suc n) h =
    let behind : List Event = history policy allowed (attempt + 1) n in
    let front : (flags
            ((announced policy attempt allowed ++ (slept (backoff policy attempt) ∷ [])) ++ behind)
          ≡ flags behind)
        × (total_wait (
              (announced policy attempt allowed ++ (slept (backoff policy attempt) ∷ [])) ++ behind)
            ≡ backoff policy attempt + total_wait behind) =
      flags-announced policy attempt allowed behind in
    let ih : (flags behind ≡ ltb 1 (attempt + 1) ∷ replicate n true)
        × (total_wait behind ≤ n * policy.max_backoff) =
      history-flags policy allowed (attempt + 1) n (omega arith) in
    (
      ap (λ l. ltb 1 attempt ∷ l)
          (front.0 ∙ ih.0 ∙ ap (λ b. b ∷ replicate n true) (lt→ltb 1 (attempt + 1) (omega arith))),
      omega (arith, front.1, ih.1, backoff_le policy attempt),
    )

some_events {ℓ} :
    {A S : Type ℓ} {r r' : A} {s s' : S} {events events' : List Event}
    → ◌≡◌ {A = Option (A × S × List Event)} (some (r, s, events)) (some (r', s', events'))
    → events ≡ events'
some_events h = cc

-- A run that ends has sent once at least, and beyond that no more often than allowed; the first send
-- is not marked as a retry and every other one is. It sleeps between two sends only, once between each
-- two, each time the longest wait at most and as long as it has announced, if it announces: so all its
-- sleeps together are at most the longest wait for each send but one.
pub run_bounds {ℓ} :
    {S A : Type ℓ} (from_str : String → Option Document)
    (action : Bool → S → Result ClientError A × S) (policy : RetryPolicy) (repeatable : Repeatable)
    (s s' : S) (r : Result ClientError A) (events : List Event)
    → run from_str action policy repeatable s ≡ some (r, s', events)
    → (n : ℕ) × (n < max (allowed_attempts policy repeatable) 1)
      × Spaced policy.max_backoff n false events
      × (flags events ≡ false ∷ replicate n true)
      × (total_wait events ≤ n * policy.max_backoff)
run_bounds from_str action policy repeatable s s' r events e =
    let c : Course from_str action policy (allowed_attempts policy repeatable) 1 s
        (run from_str action policy repeatable s) =
      run-Course from_str action policy repeatable s in
    let same : events ≡ history policy (allowed_attempts policy repeatable) 1 c.failures =
      some_events (sym e ∙ c.returned) in
    let known : (flags events ≡ ltb 1 1 ∷ replicate c.failures true)
        × (total_wait events ≤ c.failures * policy.max_backoff) =
      rw same
        (history-flags policy (allowed_attempts policy repeatable) 1 c.failures (omega arith)) in
    let spaced : Spaced policy.max_backoff c.failures false events =
      rw same
        (history-Spaced policy (allowed_attempts policy repeatable) 1 c.failures (omega arith)) in
    (c.failures, omega (arith, c.few), spaced, known.0, known.1)
