-- ===== src/Runtime/RetryPolicy/Backoff.antt =====
-- The delays that the retry policy answers: crates/agent-runtime/src/retry_policy.rs.
use native.Mathlib.Nat.{pow-le-pow_right, mul-le-mul_left}
use connor_agent_core.Common.{ℕ, ◌-◌, ◌≤◌, ◌<◌, min, ◌≡◌, true, some, arith}
use connor_agent_core.Runtime.RetryPolicy.{
  u32_max, duration_max, saturating_pow, saturating_mul, RetryBackoffConfig, RetryErrorClass,
  backoff_delay, classify_error, is_retryable, retry,
}

min_mono : (a b c : ℕ) → a ≤ b → min a c ≤ min b c
min_mono a b c h = omega arith

-- Saturation keeps the order of the delays.
delay_mono :
    (initial multiplier bound i j : ℕ)
    → 0 < multiplier
    → i ≤ j
    → min (saturating_mul initial (saturating_pow multiplier i)) bound
      ≤ min (saturating_mul initial (saturating_pow multiplier j)) bound
unfolding saturating_mul saturating_pow
delay_mono initial multiplier bound i j pos h = min_mono _ _ bound (
    min_mono _ _ duration_max
      (mul-le-mul_left initial (min_mono _ _ u32_max (pow-le-pow_right pos h))))

-- A retry is answered only for an error of a retryable class, after at least one attempt and before
-- the last one allowed, its delay is at most the greatest allowed, and it
-- names the class and the number of attempts that were given.
pub classify_error-retry :
    (c : RetryBackoffConfig) (error_class : RetryErrorClass) (attempts n d : ℕ)
    (e : RetryErrorClass)
    → classify_error c error_class attempts ≡ retry e n d
    → (is_retryable error_class ≡ true)
      × (0 < attempts)
      × (attempts < c.max_attempts)
      × (d ≤ c.max_delay)
      × (n ≡ attempts)
      × (e ≡ error_class)
unfolding classify_error backoff_delay
classify_error-retry c error_class attempts n d e h = ground arith

-- With a multiplier of at least one, where two numbers of attempts both have a delay, the delay of
-- the greater is at least that of the smaller, however the machine arithmetic saturates.
backoff_delay_mono :
    (c : RetryBackoffConfig) (i j d d' : ℕ)
    → 0 < c.multiplier
    → i ≤ j
    → backoff_delay c i ≡ some d
    → backoff_delay c j ≡ some d'
    → d ≤ d'
unfolding backoff_delay
backoff_delay_mono c i j d d' pos le h k =
    ground
      (arith, delay_mono c.initial_delay c.multiplier c.max_delay (i - 1) (j - 1) pos (omega arith))

-- An error of a retryable class, after at least one attempt and before the last one allowed, is
-- always answered with a retry.
classify_error_retries :
    (c : RetryBackoffConfig) (error_class : RetryErrorClass) (attempts : ℕ)
    → is_retryable error_class ≡ true
    → 0 < attempts
    → attempts < c.max_attempts
    → (d : ℕ) × (classify_error c error_class attempts ≡ retry error_class attempts d)
unfolding classify_error backoff_delay
classify_error_retries c error_class attempts r pos lt = (
  min (saturating_mul c.initial_delay (saturating_pow c.multiplier (attempts - 1))) c.max_delay,
  ground arith,
)
