-- ===== src/Rotation/Cooldown.antt =====
-- The defaulted policy, and the invariant of every breaker: its counters stay under the policy's
-- thresholds and its cooldown between the policy's two bounds (rotation.go).
use kaana.Prelude.{
  ◌^◌, ◌*◌, ◌+◌, ◌≡◌, ◌≢◌, refl, Bool, arith, inl, inr, if◌then◌else◌, min, zero, suc, ◌-◌, ◌⊎◌,
}
use kaana.Prelude.Int.{pos, negsuc, ◌≤ℤ◌, ltb_ℤ, ◌*ℤ◌, pos_part}
use kaana.Prelude.Words.{wrap64}
use kaana.Prelude.Time.{Time, Duration, times}
use kaana.Prelude.Floats.{Floats}
use kaana.Rotation.{
  State, closed, is_open, half_open, Policy, Registry, Breaker, Outcome, served, failed, irrelevant,
  normalize, admit_entry, escalate, settle_entry,
}

-- A policy that a registry runs with: whole thresholds, and cooldowns whose doubling fits int64.
pub record IsUsable {F : Type 0} (p : Policy F) : Type 0 where
  pub failures : pos 1 ≤ℤ p.failures_to_open
  pub successes : pos 1 ≤ℤ p.successes_to_close
  pub starts : pos 1 ≤ℤ p.cooldown
  pub ordered : p.cooldown ≤ℤ p.max_cooldown

-- What holds of a breaker under a policy, between two operations.
pub record IsSound {F : Type 0} (p : Policy F) (b : Breaker F) : Type 0 where
  pub below_failures : b.state ≡ closed → pos (b.consecutive_failures + 1) ≤ℤ p.failures_to_open
  pub below_successes : pos (b.trial_successes + 1) ≤ℤ p.successes_to_close
  pub reset : b.state ≡ closed → b.cooldown ≡ pos 0
  pub backed_off : b.state ≢ closed → (p.cooldown ≤ℤ b.cooldown) × (b.cooldown ≤ℤ p.max_cooldown)

module _ (fl : Floats) where
  open fl use {Float}

  -- Whatever policy NewRegistry is given, the policy it runs with has positive thresholds and
  -- 0 < cooldown ≤ max cooldown.
  pub normalize-IsUsable : (p : Policy Float) → IsUsable (normalize fl p)
  unfolding normalize
  normalize-IsUsable p = record {
    failures = ground arith;
    successes = ground arith;
    starts = ground arith;
    ordered = ground arith;
  }

  -- Below 2^62 nanoseconds (146 years) doubling does not overflow.
  times_two : (d : Duration) → pos 1 ≤ℤ d → d ≤ℤ pos (2 ^ 62 - 1) → times d 2 ≡ pos (2 * pos_part d)
  unfolding wrap64 ◌*ℤ◌
  times_two (pos n) h k = ground arith
  times_two (negsuc n) h k = absurd (omega arith)

  module _ (p : Policy Float) (u : IsUsable p) (fits : p.max_cooldown ≤ℤ pos (2 ^ 62 - 1)) where
    escalate_first : escalate fl p (pos 0) ≡ p.cooldown
    unfolding escalate
    escalate_first = refl

    escalate_again :
        (current : Duration)
        → pos 1 ≤ℤ current
        → current ≤ℤ p.max_cooldown
        → escalate fl p current ≡ (
            if ltb_ℤ p.max_cooldown (pos (2 * pos_part current))
            then p.max_cooldown
            else pos (2 * pos_part current))
    unfolding escalate
    escalate_again (pos zero) h k = absurd (omega arith)
    escalate_again (pos (suc n)) h k =
        rw (times_two (pos (suc n)) (omega arith) (omega (arith, fits, k))) (ground arith)
    escalate_again (negsuc n) h k = absurd (omega arith)

    -- The next cooldown is the policy's first one after a reset, and otherwise the last one doubled,
    -- up to the policy's ceiling.
    pub escalate_doubles :
        (current : Duration)
        → p.cooldown ≤ℤ current
        → current ≤ℤ p.max_cooldown
        → pos_part (escalate fl p current) ≡ min (2 * pos_part current) (pos_part p.max_cooldown)
    escalate_doubles current h k =
        rw (escalate_again current (omega (arith, u.starts, h)) k)
          (ground (arith, u.starts, u.ordered))

    -- It lies between the policy's two bounds.
    pub escalate_bounds :
        (current : Duration)
        → (current ≡ pos 0) ⊎ ((p.cooldown ≤ℤ current) × (current ≤ℤ p.max_cooldown))
        → (p.cooldown ≤ℤ escalate fl p current) × (escalate fl p current ≤ℤ p.max_cooldown)
    escalate_bounds current (inl e) = rw e (rw escalate_first (omega (arith, u.ordered)))
    escalate_bounds current (inr (h, k)) =
        rw (escalate_again current (omega (arith, u.starts, h)) k)
          (ground (arith, u.starts, u.ordered))

    next_cooldown :
        (b : Breaker Float)
        → IsSound p b
        → (p.cooldown ≤ℤ escalate fl p b.cooldown) × (escalate fl p b.cooldown ≤ℤ p.max_cooldown)
    next_cooldown b s = escalate_bounds b.cooldown (split b.state refl)
      where
        split :
            (st : State)
            → b.state ≡ st
            → (b.cooldown ≡ pos 0) ⊎ ((p.cooldown ≤ℤ b.cooldown) × (b.cooldown ≤ℤ p.max_cooldown))
        split closed e = inl (s.reset e)
        split is_open e = inr (s.backed_off (λ c. cc))
        split half_open e = inr (s.backed_off (λ c. cc))

    pub admit_entry-IsSound :
        (b : Breaker Float) (now : Time)
        → IsSound p b
        → IsSound p (admit_entry fl b.state b now).entry
    unfolding admit_entry
    admit_entry-IsSound b now s = ground (arith, u.successes)

    pub settle_entry-IsSound :
        (r : Registry Float) (trial : Bool) (o : Outcome) (now : Time) (b : Breaker Float)
        → r.policy ≡ p
        → IsSound p b
        → IsSound p (settle_entry fl r trial o now b)
    unfolding settle_entry
    settle_entry-IsSound r trial irrelevant now b e s = s
    settle_entry-IsSound r trial served now b e s = ground (arith, u.successes, u.failures)
    settle_entry-IsSound r trial failed now b e s =
        rw e (ground (arith, u.successes, next_cooldown b s))
