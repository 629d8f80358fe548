-- ===== src/Retry.antt =====
-- internal/kaana/executor.go: when a failed attempt is made again on the same route. Durations are
-- int64 nanoseconds: the shift, the product and the sum of the source wrap. `draw n` is the random
-- number below n that `mathrand.N` returns.
pub mod Bounds
mod Examples
use kaana.Prelude.{
  ℕ, ◌+◌, ◌^◌, ◌/◌, Bool, true, false, Option, none, some, ◌||◌, ◌&&◌, not, leb, if◌then◌else◌,
}
use kaana.Prelude.Int.{ℤ, pos, negsuc, ◌+ℤ◌, ◌-ℤ◌, ltb_ℤ}
use kaana.Prelude.Time.{Duration, times, millisecond, second}
use kaana.Prelude.Words.{wrap64}
use kaana.Contract.{
  ErrorCode, UpstreamCategory, quota, authentication, server_error, rate_limited,
  provider_overloaded, provider_timeout, provider_error,
}
use kaana.Failure.{Failure, Upstream, as_upstream, deployment_attributable}

pub record RetryPolicy : Type 0 where
  pub max_retries_per_route : ℕ
  pub backoff : Duration
  pub budget : Duration

unfoldable pub default_retry_policy : RetryPolicy
default_retry_policy = record {
  max_retries_per_route = 2;
  backoff = pos second;
  budget = times (pos second) 15;
}

-- The `switch` on the code of a transient failure.
unfoldable pub transient_code : ErrorCode → UpstreamCategory → Bool
transient_code rate_limited category = true
transient_code provider_overloaded category = true
transient_code provider_timeout category = true
transient_code provider_error server_error = true
transient_code _ _ = false

-- The `switch` on the category before it.
unfoldable pub recovers_in_seconds : UpstreamCategory → Bool
recovers_in_seconds quota = false
recovers_in_seconds authentication = false
recovers_in_seconds _ = true

transient_upstream : Option Upstream → Option Duration
transient_upstream none = none
transient_upstream (some u) =
    if u.recurs_on_this_route
    then none
    else if not (recovers_in_seconds u.category)
    then none
    else if transient_code u.code u.category
    then some (times u.retry_after_ms millisecond)
    else none

-- The hint of a transient failure; `none` for (0, false).
unfoldable pub transient_failure : Failure → Option Duration
unfolding transient_upstream
transient_failure f =
    if not (deployment_attributable f) then none else transient_upstream (as_upstream f)

-- d / 2, towards zero
abbrev pub halve : Duration → Duration
halve (pos n) = pos (n / 2)
halve (negsuc n) = pos 0 -ℤ pos ((n + 1) / 2)

abbrev pub max_duration : Duration → Duration → Duration
max_duration a b = if ltb_ℤ a b then b else a

-- The backoff of a retry, with its jitter.
unfoldable pub backoff_wait : (Duration → Duration) → RetryPolicy → ℕ → Duration
backoff_wait draw p retried =
    let wait = times p.backoff (2 ^ retried) in
    let half = halve wait in
    if ltb_ℤ (pos 0) half then half +ℤ draw (wait -ℤ half +ℤ pos 1) else wait

fits : RetryPolicy → Duration → Duration → Option Duration
fits p waited wait = if ltb_ℤ p.budget (wrap64 (waited +ℤ wait)) then none else some wait

next_after : (Duration → Duration) → RetryPolicy → ℕ → Duration → Option Duration → Option Duration
unfolding fits
next_after draw p retried waited none = none
next_after draw p retried waited (some hint) =
    fits p waited (max_duration (backoff_wait draw p retried) hint)

-- RetryPolicy.next: the wait, or `none` for (0, false).
unfoldable pub next : (Duration → Duration) → RetryPolicy → Failure → ℕ → Duration → Option Duration
unfolding next_after
next draw p f retried waited =
    if leb p.max_retries_per_route retried
    then none
    else next_after draw p retried waited (transient_failure f)
