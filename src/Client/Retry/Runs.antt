-- ===== src/Client/Retry/Runs.antt =====
-- Concrete policies, documents and runs, and the theorems at them.
use Prim.Native.String.{String}
use text.Mathlib.Text.{◌==◌ as str_eq}
use ytsaurus_rs.Base.{
  ℕ, zero, suc, ◌+◌, ◌*◌, ◌≤◌, ◌<◌, max, [], ◌∷◌, replicate, Option, none, some, Bool, true, false,
  ◌≡◌, ◌↔◌, refl, Result, ok, err, if◌then◌else◌,
}
use ytsaurus_rs.Client.Error.{Document, document, nil, cons, ClientError, http, cluster, UreqError}
use ytsaurus_rs.Client.Retry.{
  default, new, quiet, freely, called, retrying, slept, backoff, contains, contains_code,
  retriable_codes, settled_certificate_verdict, is_retriable, run, run_loop,
}
use ytsaurus_rs.Client.Retry.Codes.{HasCode, contains_code_iff}
use ytsaurus_rs.Client.Retry.Loop.{Course, run-Course}
use ytsaurus_rs.Client.Retry.Sends.{Spaced, flags, total_wait, run_bounds}

-- `Request retries failed`, and what is inside it.
abbrev wrapper : Document
wrapper = document (some 1) (cons (document (some 105) nil) nil)

abbrev from_str : String → Option Document
from_str raw = if str_eq raw "wrapper" then some wrapper else none

unavailable : ClientError
unavailable = http "get" 503 ""

-- Two answers of an unavailable proxy, then the number of the call.
abbrev flaky : Bool → ℕ → Result ClientError ℕ × ℕ
flaky is_retry zero = (err (http "get" 503 ""), 1)
flaky is_retry (suc zero) = (err (cluster "get" 1 "boom" "wrapper"), 2)
flaky is_retry (suc (suc n)) = (ok 7, 3)

third_answer :
    run from_str flaky (quiet default) freely 0
    ≡ some (
      ok 7,
      3,
      called false ∷ slept 1_000_000_000 ∷ called true ∷ slept 2_000_000_000 ∷ called true ∷ [],
    )
unfolding run run_loop is_retriable contains_code backoff
third_answer = refl

gives_up :
    run from_str flaky (new 2 5 9) freely 0
    ≡ some (
      err (cluster "get" 1 "boom" "wrapper"),
      2,
      called false ∷ retrying 5 1 2 ∷ slept 5 ∷ called true ∷ [],
    )
unfolding run run_loop is_retriable backoff
gives_up = refl

unknown_issuer :
    settled_certificate_verdict (
      UreqError.io
        (record { is_invalid_data = true; text = "tls: invalid peer certificate: UnknownIssuer" }))
    ≡ some "UnknownIssuer"
unfolding settled_certificate_verdict
unknown_issuer = refl

quoted_issuer :
    settled_certificate_verdict (
      UreqError.io (record {
        is_invalid_data = true;
        text = "invalid peer certificate: Other(UnknownIssuer)";
      }))
    ≡ none
unfolding settled_certificate_verdict
quoted_issuer = refl

-- The default waits about fifteen seconds in all.
fifteen_seconds :
    backoff default 1 + backoff default 2 + backoff default 3 + backoff default 4 ≡ 15_000_000_000
unfolding backoff
fifteen_seconds = refl

contains_code_iff_example :
    (contains_code wrapper retriable_codes ≡ true)
    ↔ ((code : ℕ) × HasCode code wrapper × (contains retriable_codes code ≡ true))
contains_code_iff_example = contains_code_iff wrapper retriable_codes

run-Course_example : Course from_str flaky default 5 1 0 (run from_str flaky default freely 0)
run-Course_example = run-Course from_str flaky default freely 0

run_bounds_example :
    (n : ℕ) × (n < max 5 1)
    × Spaced 10_000_000_000 n false
        (called false ∷ slept 1_000_000_000 ∷ called true ∷ slept 2_000_000_000 ∷ called true ∷ [])
    × (flags (
          called false ∷ slept 1_000_000_000 ∷ called true ∷ slept 2_000_000_000 ∷ called true ∷ [])
        ≡ false ∷ replicate n true)
    × (total_wait (
          called false ∷ slept 1_000_000_000 ∷ called true ∷ slept 2_000_000_000 ∷ called true ∷ [])
        ≤ n * 10_000_000_000)
run_bounds_example =
    run_bounds from_str flaky (quiet default) freely 0 3 (ok 7)
      (called false ∷ slept 1_000_000_000 ∷ called true ∷ slept 2_000_000_000 ∷ called true ∷ [])
      third_answer
