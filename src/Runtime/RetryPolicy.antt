-- ===== src/Runtime/RetryPolicy.antt =====
-- The retry policy: crates/agent-runtime/src/retry_policy.rs. A duration is its number of
-- nanoseconds; `Duration::saturating_mul` and `u32::saturating_pow` keep their upper bounds. The
-- class of an error is an argument: `classify_error_message`, which finds it from the text of the
-- error, is left out.
pub mod Backoff
use connor_agent_core.Common.{
  ℕ, zero, suc, ◌+◌, ◌-◌, ◌*◌, ◌^◌, min, Bool, true, false, ◌||◌, Option, none, some, leb, nat_eq,
  if◌then◌else◌,
}

-- `u32::MAX`
abbrev pub u32_max : ℕ
u32_max = 4294967295

-- `Duration::MAX`, in nanoseconds: `u64::MAX` seconds and 999999999 nanoseconds
abbrev pub duration_max : ℕ
duration_max = 18446744073709551615999999999

-- `u32::saturating_pow`
unfoldable pub saturating_pow : ℕ → ℕ → ℕ
saturating_pow base exponent = min (base ^ exponent) u32_max

-- `Duration::saturating_mul`
unfoldable pub saturating_mul : ℕ → ℕ → ℕ
saturating_mul delay factor = min (delay * factor) duration_max

pub record RetryBackoffConfig : Type 0 where
  pub initial_delay : ℕ
  pub multiplier : ℕ
  pub max_delay : ℕ
  pub max_attempts : ℕ

-- `RetryBackoffConfig::default`
abbrev pub default_config : RetryBackoffConfig
default_config = record {
  initial_delay = 250000000;
  multiplier = 2;
  max_delay = 10000000000;
  max_attempts = 3;
}

pub data RetryErrorClass : Type 0 where
  rate_limited transient_network timeout permission_denied validation unknown : RetryErrorClass

-- `RetryErrorClass::is_retryable`
abbrev pub is_retryable : RetryErrorClass → Bool
is_retryable rate_limited = true
is_retryable transient_network = true
is_retryable timeout = true
is_retryable permission_denied = false
is_retryable validation = false
is_retryable unknown = false

-- The text of the reason of `do_not_retry`, which only names the class, is left out.
pub data RetryDecision : Type 0 where
  retry : RetryErrorClass → (attempts delay : ℕ) → RetryDecision
  do_not_retry exhausted : RetryErrorClass → (attempts : ℕ) → RetryDecision

-- `backoff_delay`
unfoldable pub backoff_delay : RetryBackoffConfig → ℕ → Option ℕ
unfolding saturating_pow saturating_mul
backoff_delay c attempts =
    if nat_eq attempts 0 || leb c.max_attempts attempts
    then none
    else some (
        min (saturating_mul c.initial_delay (saturating_pow c.multiplier (attempts - 1)))
          c.max_delay)

-- the end of `classify_error`, after its two returns
abbrev pub decide_retry : RetryErrorClass → ℕ → Option ℕ → RetryDecision
decide_retry error_class attempts none = exhausted error_class attempts
decide_retry error_class attempts (some delay) = retry error_class attempts delay

-- `classify_error`, of an error of this class
unfoldable pub classify_error : RetryBackoffConfig → RetryErrorClass → ℕ → RetryDecision
unfolding backoff_delay
classify_error c error_class attempts =
    if leb c.max_attempts attempts
    then exhausted error_class attempts
    else if is_retryable error_class
    then decide_retry error_class attempts (backoff_delay c attempts)
    else do_not_retry error_class attempts
