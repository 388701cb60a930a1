-- ===== src/Workflow/Retries.antt =====
-- backend/workflows/retries.py: the retry policy. `now` is the time that a function reads. The
-- seconds of a policy are natural numbers.
pub mod Backoff
use the_dashboard.Common.{
  ℕ, String, Bool, true, false, not, ◌||◌, Option, none, some, List, [], ◌∷◌, ◌++◌, ◌+◌, ◌-◌, ◌*◌,
  ◌^◌, ◌==◌, leb, ltb, min, pure, raise, gets, or_raise, ◌>>=◌, ◌>>◌, Outcome, returned, raised,
  nat_elem, collect, find_last, after_seconds, if◌then◌else◌,
}

pub record RetryPolicy : Type 0 where
  pub max_retries : ℕ
  pub base_backoff_seconds : ℕ
  pub max_backoff_seconds : ℕ
  pub exponential : Bool

abbrev pub default_policy : RetryPolicy
default_policy = record {
  max_retries = 3;
  base_backoff_seconds = 30;
  max_backoff_seconds = 3600;
  exponential = true;
}

pub record RetryState : Type 0 where
  pub attempt : ℕ
  pub last_failed_at : Option ℕ
  pub last_error : String
  pub next_retry_at : Option ℕ

abbrev pub fresh_state : RetryState
fresh_state = record { attempt = 0; last_failed_at = none; last_error = ""; next_retry_at = none }

-- `RetryExhaustedError`
pub record RetryExhausted : Type 0 where
  pub attempt : ℕ
  pub max_retries : ℕ

-- The delay in seconds when `exponent` failures came before.
abbrev pub backoff : RetryPolicy → (exponent : ℕ) → ℕ
backoff policy exponent =
    if policy.exponential
    then min (policy.base_backoff_seconds * (2 ^ exponent)) policy.max_backoff_seconds
    else policy.base_backoff_seconds

unfoldable pub compute_next_retry : RetryPolicy → RetryState → (now : ℕ) → Outcome RetryExhausted ℕ
compute_next_retry policy state now =
    if leb policy.max_retries state.attempt
    then raised (record { attempt = state.attempt; max_retries = policy.max_retries })
    else returned (after_seconds now (backoff policy state.attempt))

unfoldable pub record_failure :
    RetryState → RetryPolicy → (error : String) (now : ℕ) → Outcome RetryExhausted RetryState
record_failure state policy error now =
    if ltb policy.max_retries new_attempt
    then raised (record { attempt = new_attempt; max_retries = policy.max_retries })
    else returned (record {
      attempt = new_attempt;
      last_failed_at = some now;
      last_error = error;
      next_retry_at = some (after_seconds now (backoff policy (new_attempt - 1)));
    })
  where
    new_attempt : ℕ
    new_attempt = state.attempt + 1

unfoldable pub can_retry : RetryState → RetryPolicy → Bool
can_retry state policy = ltb state.attempt policy.max_retries
