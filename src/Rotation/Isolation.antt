-- ===== src/Rotation/Isolation.antt =====
-- What each operation of the registry does to the breaker of every deployment (rotation.go).
use kaana.Prelude.{String, ◌≡◌, refl, Bool, false, List, [], ◌∷◌, arith, eq_iff, if◌then◌else◌}
use kaana.Prelude.Assoc.{beq_self, lookup-insert, string_eq, lookup-retain}
use kaana.Prelude.Time.{Time}
use kaana.Prelude.Floats.{Floats}
use kaana.Rotation.{
  Registry, Breaker, Outcome, breaker_of, store, admit_entry, admit, settle_entry, record_outcome,
  is_known, retain_known, new_breaker, project,
}

module _ (fl : Floats) where
  open fl use {Float}

  pub breaker_of-store :
      (id j : String) (b : Breaker Float) (r : Registry Float)
      → breaker_of fl j (store fl id b r) ≡ (if string_eq.beq id j then b else breaker_of fl j r)
  unfolding breaker_of
  breaker_of-store id j b r = ground (arith, lookup-insert id j b r.breakers)

  -- An admission of one deployment leaves the breakers of the others alone.
  pub breaker_of-admit :
      (id j : String) (now : Time) (r : Registry Float)
      → breaker_of fl j (admit fl id now r).0 ≡ (
          if string_eq.beq id j
          then (admit_entry fl (breaker_of fl id r).state (breaker_of fl id r) now).entry
          else breaker_of fl j r)
  unfolding admit
  breaker_of-admit id j now r = breaker_of-store id j _ r

  -- What is recorded of one deployment leaves the breakers of the others alone.
  pub breaker_of-record_outcome :
      (id j : String) (trial : Bool) (o : Outcome) (now : Time) (r : Registry Float)
      → breaker_of fl j (record_outcome fl id trial o now r) ≡ (
          if string_eq.beq id j
          then settle_entry fl r trial o now (
              if trial
              then record (breaker_of fl id r) { trial_in_flight = false }
              else breaker_of fl id r)
          else breaker_of fl j r)
  unfolding record_outcome
  breaker_of-record_outcome id j trial o now r = breaker_of-store id j _ r

  pub breaker_of-retain_known :
      (known : List String) (j : String) (r : Registry Float)
      → breaker_of fl j (retain_known fl known r)
        ≡ (if is_known fl j known then breaker_of fl j r else new_breaker fl)
  unfolding breaker_of retain_known
  breaker_of-retain_known known j r =
      ground (arith, lookup-retain (λ id. is_known fl id known) j r.breakers)

  -- Storing the breaker that is already there changes no breaker.
  pub breaker_of-project :
      (ids : List String) (j : String) (r : Registry Float)
      → breaker_of fl j (project fl ids r).1 ≡ breaker_of fl j r
  unfolding project
  breaker_of-project [] j r = refl
  breaker_of-project (id ∷ ids) j r = ground (
    arith,
    breaker_of-project ids j (store fl id (breaker_of fl id r) r),
    breaker_of-store id j (breaker_of fl id r) r,
    eq_iff id j,
  )

  pub breaker_of-store_self :
      (id : String) (b : Breaker Float) (r : Registry Float)
      → breaker_of fl id (store fl id b r) ≡ b
  breaker_of-store_self id b r = rw (breaker_of-store id id b r) (rw (beq_self id))

  pub breaker_of-record_outcome_self :
      (id : String) (trial : Bool) (o : Outcome) (now : Time) (r : Registry Float)
      → breaker_of fl id (record_outcome fl id trial o now r)
        ≡ settle_entry fl r trial o now (
            if trial
            then record (breaker_of fl id r) { trial_in_flight = false }
            else breaker_of fl id r)
  unfolding record_outcome
  breaker_of-record_outcome_self id trial o now r = breaker_of-store_self id _ r
