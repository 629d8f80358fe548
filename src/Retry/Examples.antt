-- ===== src/Retry/Examples.antt =====
-- The retry policy of production, at a provider that is overloaded.
use kaana.Prelude.{ℕ, ◌+◌, ◌<◌, ◌≡◌, refl, false, none, some, arith}
use kaana.Prelude.Int.{pos, ◌+ℤ◌, ◌-ℤ◌, ◌*ℤ◌}
use kaana.Prelude.Words.{wrap64}
use kaana.Prelude.Time.{Duration}
use kaana.Contract.{provider_overloaded, overloaded}
use kaana.Failure.{
  Failure, upstream, as_upstream, as_customer_upstream, deployment_attributable,
  attributable_category,
}
use kaana.Retry.{
  default_retry_policy, next, transient_failure, backoff_wait, transient_code, recovers_in_seconds,
}
use kaana.Retry.Bounds.{IsGranted, next-IsGranted, wrapping_hint_granted}

-- An overload with a hint of so many milliseconds.
abbrev overload : ℕ → Failure
overload ms = upstream (record {
  code = provider_overloaded;
  category = overloaded;
  detail = "busy";
  retry_after_ms = pos ms;
  passthrough = none;
  recurs_on_this_route = false;
})

abbrev no_jitter : Duration → Duration
no_jitter d = pos 0

next-IsGranted_example : IsGranted default_retry_policy (overload 700) 0 (pos 0) (pos 700_000_000)
unfolding next default_retry_policy transient_failure backoff_wait deployment_attributable
    as_upstream as_customer_upstream attributable_category transient_code recovers_in_seconds wrap64
    ◌*ℤ◌ ◌+ℤ◌ ◌-ℤ◌
next-IsGranted_example =
    next-IsGranted no_jitter default_retry_policy (overload 700) 0 (pos 0) (pos 700_000_000) refl

-- Half a second waited, and a hint of 9223372036.8 seconds.
wrapping_hint_granted_example :
    (next no_jitter default_retry_policy (overload 9_223_372_036_800) 1 (pos 500_000_000)
      ≡ some (pos 9_223_372_036_800_000_000))
    × (15_000_000_000 < 500_000_000 + 9_223_372_036_800_000_000)
unfolding next default_retry_policy transient_failure backoff_wait deployment_attributable
    as_upstream as_customer_upstream attributable_category transient_code recovers_in_seconds wrap64
    ◌*ℤ◌ ◌+ℤ◌ ◌-ℤ◌
wrapping_hint_granted_example =
    wrapping_hint_granted no_jitter default_retry_policy (overload 9_223_372_036_800) 1 500_000_000
      9_223_372_036_800_000_000 15_000_000_000 (omega arith) refl refl (omega arith) (omega arith)
      (omega arith) (omega arith)
