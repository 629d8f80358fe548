-- ===== src/Rotation/Outcomes.antt =====
-- What a reported outcome does to a breaker, and the hint that a refusal carries (rotation.go).
use kaana.Prelude.{
  ◌+◌, String, ◌≡◌, refl, Bool, false, Option, none, some, List, [], ◌∷◌, arith, Bool-cases, inl,
  inr, if◌then◌else◌, ◌&&◌, eq_iff, ◌∙◌, ap, length,
}
use kaana.Prelude.Int.{pos, ◌≤ℤ◌}
use kaana.Prelude.Assoc.{string_eq}
use kaana.Prelude.Time.{Time, Duration, add_time}
use kaana.Prelude.Floats.{Floats}
use kaana.Rotation.{
  Policy, closed, is_open, Registry, Breaker, Permit, Outcome, failed, irrelevant, breaker_of,
  settle_entry, report, record_outcome, escalate,
}
use kaana.Rotation.Isolation.{breaker_of-record_outcome, breaker_of-record_outcome_self}

module _ (fl : Floats) where
  open fl use {Float}

  -- Reporting one permit twice is reporting it once: the second report changes nothing, whatever
  -- its outcome and its time.
  pub report_twice :
      (p : Option Permit) (o o' : Outcome) (now later : Time) (r : Registry Float)
      → let (p', r') = report fl p o now r in report fl p' o' later r' ≡ (p', r')
  unfolding report
  report_twice none o o' now later r = refl
  report_twice (some p) o o' now later r = elim (Bool-cases p.reported) [
    | inl e ↦ simp e
    | inr e ↦ simp e
  ]

  -- A failure that is not attributable to the deployment changes no breaker, but for the trial slot
  -- that the permit held.
  pub irrelevant_frees_slot :
      (id j : String) (trial : Bool) (now : Time) (r : Registry Float)
      → breaker_of fl j (record_outcome fl id trial irrelevant now r) ≡ (
          if string_eq.beq id j && trial
          then record (breaker_of fl j r) { trial_in_flight = false }
          else breaker_of fl j r)
  unfolding settle_entry
  irrelevant_frees_slot id j trial now r =
      ground (arith, breaker_of-record_outcome fl id j trial irrelevant now r, eq_iff id j)

  -- Failures of requests admitted while the breaker was closed, one at each of the given times.
  pub fail_all : String → List Time → Registry Float → Registry Float
  fail_all id [] r = r
  fail_all id (t ∷ ts) r = fail_all id ts (record_outcome fl id false failed t r)

  stays_closed :
      (r : Registry Float) (t : Time) (b : Breaker Float)
      → b.state ≡ closed
      → pos (b.consecutive_failures + 2) ≤ℤ r.policy.failures_to_open
      → let b' = settle_entry fl r false failed t b in
        (b'.state ≡ closed)
        × (b'.consecutive_failures ≡ b.consecutive_failures + 1)
        × (b'.cooldown ≡ b.cooldown)
  unfolding settle_entry
  stays_closed r t b c few = ground arith

  opens :
      (r : Registry Float) (t : Time) (b : Breaker Float)
      → r.policy.failures_to_open ≡ pos (b.consecutive_failures + 1)
      → let b' = settle_entry fl r false failed t b in
        (b'.state ≡ is_open)
        × (b'.cooldown ≡ escalate fl r.policy b.cooldown)
        × (b'.probes_at ≡ add_time t (escalate fl r.policy b.cooldown))
  unfolding settle_entry
  opens r t b e = ground arith

  escalate_first : (p : Policy Float) (d : Duration) → d ≡ pos 0 → escalate fl p d ≡ p.cooldown
  unfolding escalate
  escalate_first p d e = ground arith

  module _ (id : String) where
    after_failure :
        (r : Registry Float) (t : Time)
        → breaker_of fl id (record_outcome fl id false failed t r)
          ≡ settle_entry fl r false failed t (breaker_of fl id r)
    after_failure r t = breaker_of-record_outcome_self fl id false failed t r

    policy-record_outcome :
        (r : Registry Float) (t : Time) → (record_outcome fl id false failed t r).policy ≡ r.policy
    unfolding record_outcome
    policy-record_outcome r t = refl

    policy-fail_all : (r : Registry Float) (ts : List Time) → (fail_all id ts r).policy ≡ r.policy
    unfolding fail_all
    policy-fail_all r [] = refl
    policy-fail_all r (t ∷ ts) =
        policy-fail_all (record_outcome fl id false failed t r) ts ∙ policy-record_outcome r t

    fail_all_closed :
        (r : Registry Float) (ts : List Time)
        → (breaker_of fl id r).state ≡ closed
        → pos ((breaker_of fl id r).consecutive_failures + length ts + 1)
          ≤ℤ r.policy.failures_to_open
        → ((breaker_of fl id (fail_all id ts r)).state ≡ closed)
          × ((breaker_of fl id (fail_all id ts r)).consecutive_failures
              ≡ (breaker_of fl id r).consecutive_failures + length ts)
          × ((breaker_of fl id (fail_all id ts r)).cooldown ≡ (breaker_of fl id r).cooldown)
    unfolding fail_all
    fail_all_closed r [] c few = (c, omega arith, refl)
    fail_all_closed r (t ∷ ts) c few =
        let (c', f', d') = stays_closed r t (breaker_of fl id r) c (omega arith) in
        let e = after_failure r t in
        let more : (breaker_of fl id (record_outcome fl id false failed t r)).consecutive_failures
            ≡ (breaker_of fl id r).consecutive_failures + 1 =
          rw e f' in
        let ih =
          fail_all_closed (record_outcome fl id false failed t r) ts (rw e c')
            (simp (policy-record_outcome r t) (omega (arith, more, few))) in
        (ih.0, omega (arith, ih.1, more), ih.2 ∙ rw e d')

    -- A closed breaker with no failure behind it: the failures short of the policy's threshold
    -- leave it closed, and the one that reaches the threshold opens it, at whatever times
    -- they come. Its next trial is then one (first) cooldown after that last failure.
    pub opens_at_threshold :
        (r : Registry Float) (ts : List Time) (last : Time)
        → (breaker_of fl id r).state ≡ closed
        → (breaker_of fl id r).consecutive_failures ≡ 0
        → (breaker_of fl id r).cooldown ≡ pos 0
        → r.policy.failures_to_open ≡ pos (length ts + 1)
        → let r' = record_outcome fl id false failed last (fail_all id ts r) in
          ((breaker_of fl id (fail_all id ts r)).state ≡ closed)
          × ((breaker_of fl id r').state ≡ is_open)
          × ((breaker_of fl id r').probes_at ≡ add_time last r.policy.cooldown)
    opens_at_threshold r ts last c zero_failures no_cooldown threshold =
        let q = fail_all id ts r in
        let (c', f', d') = fail_all_closed r ts c (simp threshold (omega arith)) in
        let same : q.policy ≡ r.policy = policy-fail_all r ts in
        let reached : q.policy.failures_to_open
            ≡ pos ((breaker_of fl id q).consecutive_failures + 1) =
          ap (λ (x : Policy Float). x.failures_to_open) same
          ∙ threshold
          ∙ ap pos (omega (arith, f', zero_failures)) in
        let (o, _, probes) = opens q last (breaker_of fl id q) reached in
        let first : escalate fl q.policy (breaker_of fl id q).cooldown ≡ r.policy.cooldown =
          escalate_first q.policy (breaker_of fl id q).cooldown (d' ∙ no_cooldown)
          ∙ ap (λ (x : Policy Float). x.cooldown) same in
        (
          c',
          rw (after_failure q last) o,
          rw (after_failure q last) (probes ∙ ap (add_time last) first),
        )
