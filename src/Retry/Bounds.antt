-- ===== src/Retry/Bounds.antt =====
-- What a retry on the same route needs, and what it costs the request's budget of waiting
-- (internal/kaana/executor.go).
use mathlib.Core.Path.{subst}
use kaana.Prelude.{
  ◌-◌, ap, ◌∙◌, ℕ, ◌+◌, ◌^◌, ◌≤◌, ◌<◌, ◌≡◌, refl, Bool, true, false, Option, none, some, arith, leb,
  if◌then◌else◌,
}
use kaana.Prelude.Int.{pos, negsuc, ◌+ℤ◌, ◌≤ℤ◌, pos_sum}
use kaana.Prelude.Time.{Duration}
use kaana.Prelude.Words.{wrap64, wrap64-pos, wrap64-past}
use kaana.Failure.{Failure, deployment_attributable}
use kaana.Retry.{RetryPolicy, next, next_after, fits, transient_failure, backoff_wait}

-- What a granted retry rests on.
pub record IsGranted (p : RetryPolicy) (f : Failure) (retried : ℕ) (waited wait : Duration)
    : Type 0 where
  pub retries_left : retried < p.max_retries_per_route
  pub attributed : deployment_attributable f ≡ true
  pub transient : (hint : Duration) × (transient_failure f ≡ some hint) × (hint ≤ℤ wait)
  pub fitting : wrap64 (waited +ℤ wait) ≤ℤ p.budget

past_sum :
    (a b : ℕ)
    → 2 ^ 63 ≤ a + b
    → a + b < 2 ^ 64
    → wrap64 (pos a +ℤ pos b) ≡ negsuc (2 ^ 64 - 1 - (a + b))
past_sum a b h k = ap wrap64 (pos_sum a b) ∙ wrap64-past (a + b) h k

module _ (draw : Duration → Duration) (p : RetryPolicy) (f : Failure) where
  transient-attributed :
      (hint : Duration) → transient_failure f ≡ some hint → deployment_attributable f ≡ true
  unfolding transient_failure
  transient-attributed hint q = ground (arith, q)

  next_after-IsGranted :
      (retried : ℕ) (waited wait : Duration) (h : Option Duration)
      → transient_failure f ≡ h
      → retried < p.max_retries_per_route
      → next_after draw p retried waited h ≡ some wait
      → IsGranted p f retried waited wait
  unfolding next_after fits
  next_after-IsGranted retried waited wait none t l q = ground (arith, q)
  next_after-IsGranted retried waited wait (some hint) t l q = record {
    retries_left = l;
    attributed = transient-attributed hint t;
    transient = (hint, t, ground (arith, q));
    fitting = ground (arith, q);
  }

  -- A retry on the same route is granted only while the route has retries left, for a failure that
  -- is held against the deployment and is transient, after a wait that is no shorter than the
  -- provider's hint and, added to what the request has waited (in int64), within the budget.
  pub next-IsGranted :
      (retried : ℕ) (waited wait : Duration)
      → next draw p f retried waited ≡ some wait
      → IsGranted p f retried waited wait
  unfolding next
  next-IsGranted retried waited wait q = choose (leb p.max_retries_per_route retried) refl q
    where
      choose :
          (b : Bool)
          → leb p.max_retries_per_route retried ≡ b
          → (if b then none else next_after draw p retried waited (transient_failure f)) ≡ some wait
          → IsGranted p f retried waited wait
      choose true e r = ground (arith, r)
      choose false e r =
          next_after-IsGranted retried waited wait (transient_failure f) refl (ground (arith, e)) r

  -- While the sum does not leave int64, the waits of a request stay within its budget.
  pub waits_within_budget :
      (retried a b : ℕ)
      → a + b < 2 ^ 63
      → next draw p f retried (pos a) ≡ some (pos b)
      → pos (a + b) ≤ℤ p.budget
  waits_within_budget retried a b h q =
      let g = next-IsGranted retried (pos a) (pos b) q in
      subst (λ x. x ≤ℤ p.budget) (ap wrap64 (pos_sum a b) ∙ wrap64-pos (a + b) h) g.fitting

  -- With retries left on the route and an int64 budget that is not negative: where what a request has
  -- waited and a transient failure's hint, no shorter than the backoff, add up past int64 and to less
  -- than 2^64, the retry is granted with that hint as its wait, although the two together are beyond
  -- the budget.
  pub wrapping_hint_granted :
      (retried a hint budget : ℕ)
      → retried < p.max_retries_per_route
      → p.budget ≡ pos budget
      → transient_failure f ≡ some (pos hint)
      → backoff_wait draw p retried ≤ℤ pos hint
      → 2 ^ 63 ≤ a + hint
      → a + hint < 2 ^ 64
      → budget < 2 ^ 63
      → (next draw p f retried (pos a) ≡ some (pos hint)) × (budget < a + hint)
  unfolding next next_after fits
  wrapping_hint_granted retried a hint budget l e t w lo hi small =
      (ground (arith, l, e, t, w, past_sum a hint lo hi), omega (arith, lo, small))
