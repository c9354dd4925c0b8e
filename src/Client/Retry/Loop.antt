-- ===== src/Client/Retry/Loop.antt =====
-- The course of the retry loop: which sends it makes, and which answer it returns.
use Prim.Native.String.{String}
use ytsaurus_rs.Base.{
  ℕ, zero, suc, ◌+◌, ◌-◌, ◌≤◌, ◌<◌, List, [], ◌∷◌, ◌++◌, Option, some, Bool, true, false, not, ltb,
  leb, ◌||◌, ◌≡◌, refl, arith, Result, ok, err, Bool-cases, inl, inr,
}
use ytsaurus_rs.Client.Error.{Document, ClientError}
use ytsaurus_rs.Client.Retry.{
  RetryPolicy, Repeatable, never, heavy, Event, called, slept, announced, backoff, Outcome, judge,
  run_loop, run, allowed_attempts, is_retriable,
}

-- The events of `n` failures that are retried, and of the last send.
unfoldable pub history : RetryPolicy → ℕ → ℕ → ℕ → List Event
history policy allowed attempt zero = called (ltb 1 attempt) ∷ []
history policy allowed attempt (suc n) =
    (called (ltb 1 attempt)
      ∷ (announced policy attempt allowed ++ (slept (backoff policy attempt) ∷ [])))
    ++ history policy allowed (attempt + 1) n

or_false_left : (a b : Bool) → (a || b) ≡ false → a ≡ false
or_false_left true b h = cc
or_false_left false b h = refl

or_false_right : (a b : Bool) → (a || not b) ≡ false → b ≡ true
or_false_right true b h = cc
or_false_right false true h = refl
or_false_right false false h = cc

module _ {ℓ} {S A : Type ℓ} (from_str : String → Option Document)
    (action : Bool → S → Result ClientError A × S) where
  -- `n` sends in a row, from an attempt on, that fail for a reason worth a retry.
  pub data Failing : ℕ → ℕ → S → S → Type ℓ where
    no_more : {attempt : ℕ} {s : S} → Failing 0 attempt s s
    again :
        {n attempt : ℕ} {s s1 s' : S} {e : ClientError}
        → action (ltb 1 attempt) s ≡ (err e, s1)
        → is_retriable from_str e ≡ true
        → Failing n (attempt + 1) s1 s'
        → Failing (suc n) attempt s s'

  -- An answer that ends the run: a success, a failure that is final, or one of the last attempt.
  abbrev pub settles : ℕ → ℕ → Result ClientError A → Bool
  settles allowed attempt (ok v) = true
  settles allowed attempt (err e) = leb allowed attempt || not (is_retriable from_str e)

  -- How a run from an attempt on went.
  pub record Course (policy : RetryPolicy) (allowed attempt : ℕ) (s : S) (o : Outcome S A)
      : Type ℓ where
    pub failures : ℕ
    pub answer : Result ClientError A
    pub before : S
    pub behind : S
    pub failing : Failing failures attempt s before
    pub few : failures ≤ allowed - attempt
    pub last : ℕ
    pub counted : last ≡ attempt + failures
    pub sent : action (ltb 1 last) before ≡ (answer, behind)
    pub settled : settles allowed last answer ≡ true
    pub returned : o ≡ some (answer, behind, history policy allowed attempt failures)

  Course-stop :
      (policy : RetryPolicy) (allowed attempt : ℕ) (s : S) (rest : S → Outcome S A)
      (p : Result ClientError A × S)
      → action (ltb 1 attempt) s ≡ p
      → settles allowed attempt p.0 ≡ true
      → Course policy allowed attempt s (judge from_str action policy allowed attempt rest p)
  unfolding history
  Course-stop policy allowed attempt s rest (ok v, s') sent h = record {
    failures = 0;
    answer = ok v;
    before = s;
    behind = s';
    failing = no_more;
    few = omega arith;
    last = attempt;
    counted = omega arith;
    sent = sent;
    settled = h;
    returned = refl;
  }
  Course-stop policy allowed attempt s rest (err e, s') sent h = record {
    failures = 0;
    answer = err e;
    before = s;
    behind = s';
    failing = no_more;
    few = omega arith;
    last = attempt;
    counted = omega arith;
    sent = sent;
    settled = h;
    returned = rw h refl;
  }

  Course-again :
      (policy : RetryPolicy) (allowed attempt : ℕ) (s s' : S) (e : ClientError)
      (rest : S → Outcome S A)
      → action (ltb 1 attempt) s ≡ (err e, s')
      → settles allowed attempt (err e) ≡ false
      → Course policy allowed (attempt + 1) s' (rest s')
      → Course policy allowed attempt s
          (judge from_str action policy allowed attempt rest (err e, s'))
  unfolding history
  Course-again policy allowed attempt s s' e rest sent h c = record {
    failures = suc c.failures;
    answer = c.answer;
    before = c.before;
    behind = c.behind;
    failing = again sent (or_false_right _ _ h) c.failing;
    few = ground (arith, c.few);
    last = c.last;
    counted = omega (arith, c.counted);
    sent = c.sent;
    settled = c.settled;
    returned = rw (h, c.returned) refl;
  }

  Course-of :
      (policy : RetryPolicy) (allowed attempt : ℕ) (s : S) (rest : S → Outcome S A)
      (p : Result ClientError A × S)
      → action (ltb 1 attempt) s ≡ p
      → (settles allowed attempt p.0 ≡ false → Course policy allowed (attempt + 1) p.1 (rest p.1))
      → Course policy allowed attempt s (judge from_str action policy allowed attempt rest p)
  Course-of policy allowed attempt s rest (ok v, s') sent k =
      Course-stop policy allowed attempt s rest (ok v, s') sent refl
  Course-of policy allowed attempt s rest (err e, s') sent k =
      elim (Bool-cases (settles allowed attempt (err e))) [
        | inl stops ↦ Course-stop policy allowed attempt s rest (err e, s') sent stops
        | inr goes ↦ Course-again policy allowed attempt s s' e rest sent goes (k goes)
      ]

  goes_on :
      (allowed attempt : ℕ) (r : Result ClientError A)
      → settles allowed attempt r ≡ false
      → attempt < allowed
  goes_on allowed attempt (ok v) h = cc
  goes_on allowed attempt (err e) h =
      ground (arith, or_false_left (leb allowed attempt) (not (is_retriable from_str e)) h)

  run_loop-Course :
      (fuel : ℕ) (policy : RetryPolicy) (allowed attempt : ℕ) (s : S)
      → 1 ≤ fuel
      → allowed + 1 ≤ fuel + attempt
      → Course policy allowed attempt s (run_loop from_str action fuel policy allowed attempt s)
  unfolding run_loop
  run_loop-Course zero policy allowed attempt s pos enough = absurd (omega arith)
  run_loop-Course (suc fuel) policy allowed attempt s pos enough =
      let p : Result ClientError A × S = action (ltb 1 attempt) s in
      Course-of policy allowed attempt s _ p refl (λ h.
        let more : attempt < allowed = goes_on allowed attempt p.0 h in
        run_loop-Course fuel policy allowed (attempt + 1) p.1 (omega arith) (omega arith))

  -- Every run ends: after some failures in a row that are worth a retry, fewer than the attempts
  -- allowed, comes a send whose answer is a success, a final failure or the last attempt's, and the run
  -- returns that answer, the state behind it, and the events of just those sends.
  pub run-Course :
      (policy : RetryPolicy) (repeatable : Repeatable) (s : S)
      → Course policy
          (allowed_attempts policy repeatable)
          1
          s
          (run from_str action policy repeatable s)
  unfolding run
  run-Course policy repeatable s =
      run_loop-Course (allowed_attempts policy repeatable + 1) policy
        (allowed_attempts policy repeatable) 1 s (omega arith) (omega arith)

  -- A command that is not repeatable is sent once, not as a retry, and its answer is returned.
  pub run_once :
      (policy : RetryPolicy) (s : S)
      → (run from_str action policy never s
          ≡ some ((action false s).0, (action false s).1, called false ∷ []))
        × (run from_str action policy heavy s
            ≡ some ((action false s).0, (action false s).1, called false ∷ []))
  unfolding run run_loop
  run_once policy s = (once (action false s), once (action false s))
    where
      once :
          (p : Result ClientError A × S)
          → judge from_str action policy 1 1 (run_loop from_str action 1 policy 1 2) p
            ≡ some (p.0, p.1, called false ∷ [])
      once (ok v, s') = refl
      once (err e, s') = refl
