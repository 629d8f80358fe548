-- ===== src/Rotation/Runs.antt =====
-- Sequences of calls on one registry (rotation.go), in the order in which they take its mutex.
use kaana.Prelude.{
  ◌-◌, ◌^◌, String, ◌≡◌, refl, Bool, true, false, Option, none, some, List, [], ◌∷◌, arith,
  Bool-cases, inl, inr, if◌then◌else◌,
}
use kaana.Prelude.Int.{pos, ◌≤ℤ◌}
use kaana.Prelude.Assoc.{string_eq, lookup}
use kaana.Prelude.Time.{Time}
use kaana.Prelude.Floats.{Floats}
use kaana.Rotation.{
  Policy, Registry, Permit, Outcome, normalize, new_registry, new_breaker, breaker_of, admit,
  admit_entry, settle_entry, report, record_outcome, retain_known, project, is_known,
}
use kaana.Rotation.Isolation.{
  breaker_of-admit, breaker_of-record_outcome, breaker_of-retain_known, breaker_of-project,
}
use kaana.Rotation.Cooldown.{
  IsSound, IsUsable, normalize-IsUsable, admit_entry-IsSound, settle_entry-IsSound,
}

-- A call with the time at which it runs. A report may come from any permit, in any order.
pub data Call : Type 0 where
  admits : String → Time → Call
  reports : Option Permit → Outcome → Time → Call
  retains : List String → Call
  projects : List String → Call

module _ (fl : Floats) where
  open fl use {Float}

  unfoldable pub step : Registry Float → Call → Registry Float
  step r (admits id now) = (admit fl id now r).0
  step r (reports p o now) = (report fl p o now r).1
  step r (retains known) = retain_known fl known r
  step r (projects ids) = (project fl ids r).1

  unfoldable pub run : Registry Float → List Call → Registry Float
  run r [] = r
  run r (c ∷ cs) = run (step r c) cs

  policy-project : (ids : List String) (r : Registry Float) → (project fl ids r).1.policy ≡ r.policy
  unfolding project
  policy-project [] r = refl
  policy-project (id ∷ ids) r = policy-project ids _

  policy-step : (r : Registry Float) (c : Call) → (step r c).policy ≡ r.policy
  unfolding step admit report retain_known
  policy-step r (admits id now) = refl
  policy-step r (reports none o now) = refl
  policy-step r (reports (some p) o now) = ground arith
  policy-step r (retains known) = refl
  policy-step r (projects ids) = policy-project ids r

  abbrev pub AllSound : Policy Float → Registry Float → Type 0
  AllSound p r = (id : String) → IsSound p (breaker_of fl id r)

  module _ (p : Policy Float) (u : IsUsable p) (fits : p.max_cooldown ≤ℤ pos (2 ^ 62 - 1)) where
    new_breaker-IsSound : IsSound p (new_breaker fl)
    new_breaker-IsSound = ground (arith, u.failures, u.successes)

    record_outcome-AllSound :
        (id : String) (trial : Bool) (o : Outcome) (now : Time) (r : Registry Float)
        → r.policy ≡ p
        → AllSound p r
        → AllSound p (record_outcome fl id trial o now r)
    record_outcome-AllSound id trial o now r e s j =
        rw (breaker_of-record_outcome fl id j trial o now r) (pick (string_eq.beq id j))
      where
        freed :
            (t : Bool)
            → IsSound p (
                if t
                then record (breaker_of fl id r) { trial_in_flight = false }
                else breaker_of fl id r)
        freed true = let h = s id in ground arith
        freed false = s id

        pick :
            (same : Bool)
            → IsSound p (
                if same
                then settle_entry fl r trial o now (
                    if trial
                    then record (breaker_of fl id r) { trial_in_flight = false }
                    else breaker_of fl id r)
                else breaker_of fl j r)
        pick true = settle_entry-IsSound fl p u fits r trial o now _ e (freed trial)
        pick false = s j

    step-AllSound :
        (r : Registry Float) (c : Call) → r.policy ≡ p → AllSound p r → AllSound p (step r c)
    unfolding step report
    step-AllSound r (admits id now) e s j =
        rw (breaker_of-admit fl id j now r) (pick (string_eq.beq id j))
      where
        pick :
            (same : Bool)
            → IsSound p (
                if same
                then (admit_entry fl (breaker_of fl id r).state (breaker_of fl id r) now).entry
                else breaker_of fl j r)
        pick true = admit_entry-IsSound fl p u fits (breaker_of fl id r) now (s id)
        pick false = s j
    step-AllSound r (reports none o now) e s j = s j
    step-AllSound r (reports (some q) o now) e s j = elim (Bool-cases q.reported) [
      | inl old ↦ rw old (s j)
      | inr new ↦ rw new (record_outcome-AllSound q.id q.trial o now r e s j)
    ]
    step-AllSound r (retains known) e s j =
        rw (breaker_of-retain_known fl known j r) (pick (is_known fl j known))
      where
        pick : (b : Bool) → IsSound p (if b then breaker_of fl j r else new_breaker fl)
        pick true = s j
        pick false = new_breaker-IsSound
    step-AllSound r (projects ids) e s j = rw (breaker_of-project fl ids j r) (s j)

    run-AllSound :
        (r : Registry Float) (cs : List Call) → r.policy ≡ p → AllSound p r → AllSound p (run r cs)
    unfolding run
    run-AllSound r [] e s = s
    run-AllSound r (c ∷ cs) e s =
        run-AllSound (step r c) cs (rw (policy-step r c) e) (step-AllSound r c e s)

  -- A registry built from any policy whose ceiling is under 2^62 nanoseconds, after any calls in any
  -- order: the breaker of every deployment is sound. A closed one has fewer consecutive failures than
  -- open a breaker and no cooldown left; one that is open or half open has a cooldown between the
  -- policy's first one and its ceiling; and fewer trials have succeeded than close a breaker.
  pub run-IsSound :
      (raw : Policy Float) (cs : List Call) (id : String)
      → (normalize fl raw).max_cooldown ≤ℤ pos (2 ^ 62 - 1)
      → IsSound (normalize fl raw) (breaker_of fl id (run (new_registry fl raw) cs))
  unfolding new_registry breaker_of lookup
  run-IsSound raw cs id fits =
      let u = normalize-IsUsable fl raw in
      run-AllSound (normalize fl raw) u fits (new_registry fl raw) cs refl
        (λ j. new_breaker-IsSound (normalize fl raw) u fits) id
