-- ===== src/Client/Retry.antt =====
-- crates/ytsaurus-client/src/retry.rs: which failures are worth a retry, the backoff, and the loop.
-- A `Duration` is its nanoseconds; `serde_json::from_str` is a parameter.
pub mod Backoff
pub mod Codes
pub mod Loop
pub mod Sends
mod Runs
use Prim.Native.String.{String, slice, len}
use text.Mathlib.Text.{starts_with, find?}
use ytsaurus_rs.Base.{
  ℕ, zero, suc, ◌+◌, ◌-◌, ◌*◌, ◌^◌, min, max, List, [], ◌∷◌, ◌++◌, Option, none, some, Bool, true,
  false, not, ltb, leb, ◌==◌, ◌||◌, if◌then◌else◌, Result, ok, err,
}
use ytsaurus_rs.Client.Error.{
  IoError, UreqError, Document, Documents, document, nil, cons, ClientError, transport, cluster,
  http, redirected,
}

pub data Repeatable : Type 0 where
  freely with_mutation_id never heavy : Repeatable

abbrev pub retriable_codes : List ℕ
retriable_codes = 3 ∷ 100 ∷ 105 ∷ 108 ∷ 904 ∷ 2100 ∷ []

abbrev pub retriable_statuses : List ℕ
retriable_statuses = 429 ∷ 500 ∷ 502 ∷ 503 ∷ 504 ∷ []

abbrev pub certificate_verdict : String
certificate_verdict = "invalid peer certificate: "

abbrev pub settled_rejections : List String
settled_rejections = "UnknownIssuer" ∷ "NotValidForName" ∷ "certificate not valid for name " ∷ []

-- `CONTROL_REFUSAL` of http.rs
abbrev pub control_refusal : String
control_refusal = "may not serve heavy requests"

pub record RetryPolicy : Type 0 where
  pub attempts : ℕ
  pub initial_backoff : ℕ
  pub max_backoff : ℕ
  pub report : Bool

abbrev pub default : RetryPolicy
default = record {
  attempts = 5;
  initial_backoff = 1_000_000_000;
  max_backoff = 10_000_000_000;
  report = true;
}

abbrev pub new : ℕ → ℕ → ℕ → RetryPolicy
new attempts initial_backoff max_backoff = record {
  attempts = max attempts 1;
  initial_backoff = initial_backoff;
  max_backoff = max_backoff;
  report = true;
}

abbrev pub no_retries : RetryPolicy
no_retries = new 1 0 0

abbrev pub quiet : RetryPolicy → RetryPolicy
quiet policy = record policy { report = false }

abbrev pub loud : RetryPolicy → RetryPolicy
loud policy = record policy { report = true }

abbrev pub reports : RetryPolicy → Bool
reports policy = policy.report

-- `1_u32.checked_shl(shift).unwrap_or(u32::MAX)`
abbrev pub doublings : ℕ → ℕ
doublings shift = if ltb shift 32 then 2 ^ shift else 2 ^ 32 - 1

-- `Duration::checked_mul(..).unwrap_or(default)`: the seconds of a `Duration` are a `u64`.
abbrev pub mul_or : ℕ → ℕ → ℕ → ℕ
mul_or duration factor default =
    if ltb (duration * factor) (2 ^ 64 * 1_000_000_000) then duration * factor else default

unfoldable pub backoff : RetryPolicy → ℕ → ℕ
backoff policy attempt =
    min (mul_or policy.initial_backoff (doublings (attempt - 1)) policy.max_backoff)
      policy.max_backoff

abbrev pub contains : List ℕ → ℕ → Bool
contains [] n = false
contains (x ∷ xs) n = (x == n) || contains xs n

-- The first of the settled rejections that the reason starts with.
abbrev pub find_prefix : List String → String → Option String
find_prefix [] reason = none
find_prefix (settled ∷ rest) reason =
    if starts_with reason settled then some settled else find_prefix rest reason

-- What follows the verdict in the message, by `split_once`.
abbrev pub verdict_at : String → Option ℕ → Option String
verdict_at message none = none
verdict_at message (some at_) =
    find_prefix settled_rejections (slice message (at_ + len certificate_verdict) (len message))

unfoldable pub settled_certificate_verdict : UreqError → Option String
settled_certificate_verdict UreqError.other = none
settled_certificate_verdict (UreqError.io error) =
    if not error.is_invalid_data
    then none
    else verdict_at error.text (find? error.text certificate_verdict)

abbrev pub is_some : Option String → Bool
is_some none = false
is_some (some s) = true

unfoldable pub rejected_the_certificate : UreqError → Bool
rejected_the_certificate error = is_some (settled_certificate_verdict error)

abbrev pub code_among : Option ℕ → List ℕ → Bool
code_among none wanted = false
code_among (some code) wanted = contains wanted code

unfoldable mutual
  pub contains_code : Document → List ℕ → Bool
  contains_code (document code inner) wanted =
      if code_among code wanted then true else any_contains_code inner wanted

  pub any_contains_code : Documents → List ℕ → Bool
  any_contains_code nil wanted = false
  any_contains_code (cons error rest) wanted =
      contains_code error wanted || any_contains_code rest wanted

abbrev pub parsed_contains_code : Option Document → List ℕ → Bool
parsed_contains_code none wanted = false
parsed_contains_code (some value) wanted = contains_code value wanted

abbrev pub found : Option ℕ → Bool
found none = false
found (some n) = true

module _ (from_str : String → Option Document) where
  abbrev pub raw_contains_code : String → List ℕ → Bool
  raw_contains_code raw wanted = parsed_contains_code (from_str raw) wanted

  unfoldable pub is_retriable : ClientError → Bool
  is_retriable (transport command source) = not (rejected_the_certificate source)
  is_retriable (http command status body) = contains retriable_statuses status
  is_retriable (cluster command code message raw) =
      contains retriable_codes code || raw_contains_code raw retriable_codes
  is_retriable error = false

  unfoldable pub refused_for_being_the_wrong_proxy : ClientError → Bool
  refused_for_being_the_wrong_proxy (cluster command code message raw) =
      found (find? message control_refusal)
  refused_for_being_the_wrong_proxy error = false

  abbrev pub is_redirected : ClientError → Bool
  is_redirected (redirected command status location refusal is_heavy) = true
  is_redirected error = false

  unfoldable pub worth_asking_again : ClientError → Bool
  worth_asking_again error =
      is_retriable error || refused_for_being_the_wrong_proxy error || is_redirected error

  abbrev pub is_rejected_transport : ClientError → Bool
  is_rejected_transport (transport command source) = rejected_the_certificate source
  is_rejected_transport error = false

  unfoldable pub attributable_to_the_host : ClientError → Bool
  attributable_to_the_host error = is_rejected_transport error || worth_asking_again error

-- `run`'s view of the world: each call of `action`, with its retry flag; each announcement; each sleep.
pub data Event : Type 0 where
  called : (is_retry : Bool) → Event
  retrying : (wait attempt allowed : ℕ) → Event
  slept : (wait : ℕ) → Event

abbrev pub allowed_attempts : RetryPolicy → Repeatable → ℕ
allowed_attempts policy never = 1
allowed_attempts policy heavy = 1
allowed_attempts policy repeatable = policy.attempts

abbrev pub announced : RetryPolicy → ℕ → ℕ → List Event
announced policy attempt allowed =
    if policy.report then retrying (backoff policy attempt) attempt allowed ∷ [] else []

-- What a run answers, the state behind it, and what it did; `none` is a run out of fuel.
abbrev pub Outcome {ℓ} : Type ℓ → Type ℓ → Type ℓ
Outcome S A = Option (Result ClientError A × S × List Event)

abbrev pub after_events {ℓ} : {S A : Type ℓ} → List Event → Outcome S A → Outcome S A
after_events events none = none
after_events events (some (r, s, more)) = some (r, s, events ++ more)

module _ {ℓ} {S A : Type ℓ} (from_str : String → Option Document)
    (action : Bool → S → Result ClientError A × S) where
  -- One round, over what the rest of the loop does.
  abbrev pub judge :
      RetryPolicy → ℕ → ℕ → (S → Outcome S A) → Result ClientError A × S → Outcome S A
  judge policy allowed attempt rest (ok v, s) = some (ok v, s, called (ltb 1 attempt) ∷ [])
  judge policy allowed attempt rest (err e, s) =
      if leb allowed attempt || not (is_retriable from_str e)
      then some (err e, s, called (ltb 1 attempt) ∷ [])
      else after_events
          (called (ltb 1 attempt)
            ∷ (announced policy attempt allowed ++ (slept (backoff policy attempt) ∷ [])))
          (rest s)

  unfoldable pub run_loop : ℕ → RetryPolicy → ℕ → ℕ → S → Outcome S A
  run_loop zero policy allowed attempt s = none
  run_loop (suc fuel) policy allowed attempt s =
      judge policy allowed attempt (run_loop fuel policy allowed (attempt + 1))
        (action (ltb 1 attempt) s)

  unfoldable pub run : RetryPolicy → Repeatable → S → Outcome S A
  run policy repeatable s =
      run_loop (allowed_attempts policy repeatable + 1) policy (allowed_attempts policy repeatable)
        1 s
