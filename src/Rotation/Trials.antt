-- ===== src/Rotation/Trials.antt =====
-- How a deployment comes back: one trial at a time (Admit in rotation.go).
use kaana.Prelude.{
  ◌+◌, String, ◌≡◌, refl, Bool, true, false, none, some, List, [], ◌∷◌, arith, Bool-cases, inl, inr,
  eq_iff, ◌∙◌, ap, not,
}
use kaana.Prelude.Int.{pos, ◌≤ℤ◌}
use kaana.Prelude.Assoc.{string_eq}
use kaana.Prelude.Time.{Time, before, add_time}
use kaana.Prelude.Floats.{Floats}
use kaana.Rotation.{
  is_open, half_open, Registry, Breaker, Permit, failed, breaker_of, admit, admit_entry, Admission,
  settle_entry, report, record_outcome, is_known, escalate,
}
use kaana.Rotation.Isolation.{
  breaker_of-store_self, breaker_of-record_outcome_self, breaker_of-admit,
  breaker_of-record_outcome, breaker_of-retain_known, breaker_of-project,
}
use kaana.Rotation.Runs.{Call, admits, reports, retains, projects, step, run}

-- A call that neither reports on the deployment nor drops its breaker. Any admission is one.
abbrev pub is_quiet : Floats → String → Call → Bool
is_quiet fl id (admits _ _) = true
is_quiet fl id (reports none _ _) = true
is_quiet fl id (reports (some p) _ _) = not (string_eq.beq p.id id)
is_quiet fl id (retains known) = is_known fl id known
is_quiet fl id (projects _) = true

abbrev pub AllQuiet : Floats → String → List Call → Type 0
AllQuiet fl id [] = Unit
AllQuiet fl id (c ∷ cs) = (is_quiet fl id c ≡ true) × AllQuiet fl id cs

abbrev pub trial_permit : String → Permit
trial_permit id = record { id = id; trial = true; reported = false }

module _ (fl : Floats) (id : String) where
  open fl use {Float}

  abbrev pub OnTrial : Registry Float → Type 0
  OnTrial r =
      ((breaker_of fl id r).state ≡ half_open) × ((breaker_of fl id r).trial_in_flight ≡ true)

  admit_entry_busy :
      (b : Breaker Float) (now : Time)
      → b.state ≡ half_open
      → b.trial_in_flight ≡ true
      → admit_entry fl b.state b now ≡ record { entry = b; granted = none }
  unfolding admit_entry
  admit_entry_busy b now h t = ground arith

  admit-OnTrial :
      (j : String) (now : Time) (r : Registry Float)
      → OnTrial r
      → breaker_of fl id (admit fl j now r).0 ≡ breaker_of fl id r
  admit-OnTrial j now r h =
      rw (breaker_of-admit fl j id now r) (elim (Bool-cases (string_eq.beq j id)) [
        | inl e ↦
            let same : j ≡ id = (eq_iff j id).0 e in
            rw e (
              rw same (
                ap (λ (a : Admission Float). a.entry)
                  (admit_entry_busy (breaker_of fl id r) now h.0 h.1)))
        | inr e ↦ rw e
      ])

  step-OnTrial :
      (r : Registry Float) (c : Call)
      → OnTrial r
      → is_quiet fl id c ≡ true
      → breaker_of fl id (step fl r c) ≡ breaker_of fl id r
  unfolding step report
  step-OnTrial r (admits j now) h q = admit-OnTrial j now r h
  step-OnTrial r (reports none o now) h q = refl
  step-OnTrial r (reports (some p) o now) h q =
      ground (arith, breaker_of-record_outcome fl p.id id p.trial o now r)
  step-OnTrial r (retains known) h q = rw (breaker_of-retain_known fl known id r) (rw q)
  step-OnTrial r (projects ids) h q = breaker_of-project fl ids id r

  run-OnTrial :
      (r : Registry Float) (cs : List Call)
      → OnTrial r
      → AllQuiet fl id cs
      → breaker_of fl id (run fl r cs) ≡ breaker_of fl id r
  unfolding run
  run-OnTrial r [] h q = refl
  run-OnTrial r (c ∷ cs) h q =
      let e = step-OnTrial r c h q.0 in run-OnTrial (step fl r c) cs (rw e h) q.1 ∙ e

  admit_busy : (now : Time) (r : Registry Float) → OnTrial r → (admit fl id now r).1 ≡ none
  unfolding admit
  admit_busy now r h = rw (admit_entry_busy (breaker_of fl id r) now h.0 h.1)

  -- The entry that an admission after the cooldown leaves.
  abbrev probing : Breaker Float → Breaker Float
  probing b = record b { state = half_open; trial_successes = 0; trial_in_flight = true }

  admit_entry_probe :
      (b : Breaker Float) (now : Time)
      → b.state ≡ is_open
      → before now b.probes_at ≡ false
      → admit_entry fl b.state b now ≡ record { entry = probing b; granted = some true }
  unfolding admit_entry
  admit_entry_probe b now o passed = ground arith

  admit_probe :
      (r : Registry Float) (now : Time)
      → (breaker_of fl id r).state ≡ is_open
      → before now (breaker_of fl id r).probes_at ≡ false
      → ((admit fl id now r).1 ≡ some (trial_permit id)) × OnTrial (admit fl id now r).0
  unfolding admit
  admit_probe r now o passed =
      let e = admit_entry_probe (breaker_of fl id r) now o passed in
      let b = breaker_of-store_self fl id (probing (breaker_of fl id r)) r in
      (rw e, (rw e (rw b refl), rw e (rw b refl)))

  -- A breaker that is open, at a time when its cooldown has passed, admits one trial; from then on,
  -- whatever else is called and however often, it admits nothing until a permit of that deployment
  -- is reported or its breaker is dropped.
  pub one_trial :
      (r : Registry Float) (now later : Time) (cs : List Call)
      → (breaker_of fl id r).state ≡ is_open
      → before now (breaker_of fl id r).probes_at ≡ false
      → AllQuiet fl id cs
      → ((admit fl id now r).1 ≡ some (trial_permit id))
        × ((admit fl id later (run fl (admit fl id now r).0 cs)).1 ≡ none)
  one_trial r now later cs o passed q =
      let (granted, trial) = admit_probe r now o passed in
      (granted, admit_busy later _ (rw (run-OnTrial _ cs trial q) trial))

  -- A failure that is not the trial's opens the breaker and leaves the trial in flight.
  stale_failure :
      (r : Registry Float) (now : Time) (b : Breaker Float)
      → r.policy.failures_to_open ≤ℤ pos (b.consecutive_failures + 1)
      → let b' = settle_entry fl r false failed now b in
        (b'.state ≡ is_open)
        × (b'.trial_in_flight ≡ b.trial_in_flight)
        × (b'.probes_at ≡ add_time now (escalate fl r.policy b.cooldown))
  unfolding settle_entry
  stale_failure r now b enough = ground arith

  -- The source's comment says that a breaker "admits exactly ONE trial". It does not where a
  -- request admitted before the breaker opened fails while the trial is in flight, and with that
  -- failure its consecutive failures are enough to open it: then it opens again, and once the new
  -- cooldown has passed the next admission is granted a second trial, with the first still in flight.
  pub second_trial :
      (r : Registry Float) (now later : Time)
      → OnTrial r
      → r.policy.failures_to_open ≤ℤ pos ((breaker_of fl id r).consecutive_failures + 1)
      → before later (add_time now (escalate fl r.policy (breaker_of fl id r).cooldown)) ≡ false
      → let r' = record_outcome fl id false failed now r in
        ((breaker_of fl id r').trial_in_flight ≡ true)
        × ((admit fl id later r').1 ≡ some (trial_permit id))
  second_trial r now later h enough passed =
      let (opened, flying, probes) = stale_failure r now (breaker_of fl id r) enough in
      let e = breaker_of-record_outcome_self fl id false failed now r in
      (rw e (flying ∙ h.1), (admit_probe _ later (rw e opened) (rw e (rw probes passed))).0)
