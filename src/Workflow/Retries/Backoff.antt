-- ===== src/Workflow/Retries/Backoff.antt =====
-- The delays that backend/workflows/retries.py plans.
use the_dashboard.Common.{
  ℕ, zero, suc, String, true, false, Option, none, some, ◌≡◌, ◌≤◌, ◌<◌, ◌+◌, ◌-◌, ◌*◌, ◌^◌, refl,
  ap, arith, ltb, leb, min, Outcome, returned, raised, Bool-cases, inl, inr, after_seconds,
  if◌then◌else◌,
}
use the_dashboard.Workflow.Retries.{
  RetryPolicy, RetryState, RetryExhausted, backoff, compute_next_retry, record_failure, can_retry,
}

abbrev pub planned : Outcome RetryExhausted RetryState → Option ℕ
planned (returned state) = state.next_retry_at
planned (raised e) = none

abbrev pub computed : Outcome RetryExhausted ℕ → Option ℕ
computed (returned at) = some at
computed (raised e) = none

-- `record_failure` plans the time that `compute_next_retry` computes from the state before it, and
-- it raises exactly when that does, which is when `can_retry` is false.
pub planned-record_failure :
    (state : RetryState) (policy : RetryPolicy) (error : String) (now : ℕ)
    → (planned (record_failure state policy error now)
        ≡ computed (compute_next_retry policy state now))
      × (computed (compute_next_retry policy state now) ≡ (
          if can_retry state policy
          then some (after_seconds now (backoff policy state.attempt))
          else none))
unfolding record_failure compute_next_retry can_retry
planned-record_failure state policy error now =
    let e : state.attempt + 1 - 1 ≡ state.attempt = omega arith in
    rw e (elim (Bool-cases (leb policy.max_retries state.attempt)) [
      | inl h ↦
          let a : ltb policy.max_retries (state.attempt + 1) ≡ true = ground arith in
          let b : ltb state.attempt policy.max_retries ≡ false = ground arith in
          rw h (rw a (rw b (refl, refl)))
      | inr h ↦
          let a : ltb policy.max_retries (state.attempt + 1) ≡ false = ground arith in
          let b : ltb state.attempt policy.max_retries ≡ true = ground arith in
          rw h (rw a (rw b (refl, refl)))
    ])

pow_pos : (a : ℕ) → 1 ≤ 2 ^ a
pow_pos zero = omega arith
pow_pos (suc a) = omega (arith, pow_pos a)

pow_mono : (a b : ℕ) → a ≤ b → 2 ^ a ≤ 2 ^ b
pow_mono zero b h = pow_pos b
pow_mono (suc a) zero h = omega arith
pow_mono (suc a) (suc b) h = omega (arith, pow_mono a b)

mul_mono : (b x y : ℕ) → x ≤ y → b * x ≤ b * y
mul_mono zero x y h = omega arith
mul_mono (suc b) x y h = omega (arith, mul_mono b x y h)

-- The delay never shrinks from one failure to a later one.
pub backoff_monotone :
    (policy : RetryPolicy) (earlier later : ℕ)
    → earlier ≤ later
    → backoff policy earlier ≤ backoff policy later
backoff_monotone policy earlier later h =
    let p : policy.base_backoff_seconds * (2 ^ earlier)
        ≤ policy.base_backoff_seconds * (2 ^ later) =
      mul_mono policy.base_backoff_seconds (2 ^ earlier) (2 ^ later) (pow_mono earlier later h) in
    elim (Bool-cases policy.exponential) [
      | inl e ↦ rw e (ground arith)
      | inr f ↦ rw f (omega arith)
    ]

-- Every delay of a policy with exponential backoff lies between its first delay and its cap.
pub backoff_bounds :
    (policy : RetryPolicy) (exponent : ℕ)
    → policy.exponential ≡ true
    → (min policy.base_backoff_seconds policy.max_backoff_seconds ≤ backoff policy exponent)
      × (backoff policy exponent ≤ policy.max_backoff_seconds)
backoff_bounds policy exponent e =
    let one : policy.base_backoff_seconds * 1 ≡ policy.base_backoff_seconds = omega arith in
    let p : policy.base_backoff_seconds * 1 ≤ policy.base_backoff_seconds * (2 ^ exponent) =
      mul_mono policy.base_backoff_seconds 1 (2 ^ exponent) (pow_pos exponent) in
    rw e (ground arith, ground arith)

module _ (state : RetryState) (policy : RetryPolicy) (error : String) (now attempt : ℕ)
    (a : state.attempt ≡ attempt) where
  pub record_failure-planned :
      attempt < policy.max_retries
      → record_failure state policy error now
        ≡ returned (record {
          attempt = attempt + 1;
          last_failed_at = some now;
          last_error = error;
          next_retry_at = some (after_seconds now (backoff policy attempt));
        })
  unfolding record_failure
  record_failure-planned k =
      let f : ltb policy.max_retries (state.attempt + 1) ≡ false = ground arith in
      let e : state.attempt + 1 - 1 ≡ attempt = ground arith in
      let s : state.attempt + 1 ≡ attempt + 1 = ap (λ n. n + 1) a in rw f (rw e (rw s))

  pub record_failure-exhausted :
      policy.max_retries ≤ attempt
      → record_failure state policy error now
        ≡ raised (record { attempt = attempt + 1; max_retries = policy.max_retries })
  unfolding record_failure
  record_failure-exhausted k =
      let t : ltb policy.max_retries (state.attempt + 1) ≡ true = ground arith in
      let s : state.attempt + 1 ≡ attempt + 1 = ap (λ n. n + 1) a in rw t (rw s)
