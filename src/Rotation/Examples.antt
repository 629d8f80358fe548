-- ===== src/Rotation/Examples.antt =====
-- The registry's theorems at concrete registries, with whole numbers for scores.
use kaana.Prelude.{
  ℕ, ◌+◌, ◌-◌, ◌*◌, ◌≡◌, refl, ◌⊎◌, true, false, none, some, List, [], ◌∷◌, ltb, leb, arith,
}
use kaana.Prelude.Int.{pos, pos_part, ◌*ℤ◌}
use kaana.Prelude.Words.{wrap64}
use kaana.Prelude.Time.{add_time}
use kaana.Prelude.Floats.{Floats}
use kaana.Prelude.Assoc.{lookup, string_eq}
use kaana.Rotation.{
  Registry, Breaker, Policy, closed, is_open, half_open, failed, normalize, new_registry,
  breaker_of, admit, record_outcome, escalate, soonest_probe,
}
use kaana.Rotation.Cooldown.{IsUsable, IsSound}
use kaana.Rotation.Runs.{Call, admits, reports, retains, run, run-IsSound}
use kaana.Rotation.Trials.{one_trial, second_trial, trial_permit}
use kaana.Rotation.Outcomes.{opens_at_threshold, fail_all}
use kaana.Rotation.Hint.{soonest_probe_least, BoundsAll, Attained}

abbrev whole : Floats
whole = record {
  Float = ℕ;
  literal = λ n d. n;
  add = λ a b. a + b;
  sub = λ a b. a - b;
  mul = λ a b. a * b;
  div = λ a b. a;
  less = λ a b. ltb a b;
  less_equal = λ a b. leb a b;
  truncate = λ a. pos a;
  from_int = λ a. pos_part a;
}

abbrev first_policy : Policy ℕ
first_policy = record {
  failures_to_open = pos 2;
  cooldown = pos 5;
  max_cooldown = pos 40;
  successes_to_close = pos 1;
  score_weight = 1;
}

abbrev calls : List Call
calls =
    admits "a" 1
    ∷ reports (some (record { id = "a"; trial = false; reported = false })) failed 2
    ∷ reports (some (record { id = "a"; trial = false; reported = false })) failed 3
    ∷ admits "a" 9
    ∷ retains ("a" ∷ [])
    ∷ []

-- One deployment, out of rotation until 8.
abbrev opened : Breaker ℕ
opened = record {
  state = is_open;
  consecutive_failures = 2;
  trial_successes = 0;
  trial_in_flight = false;
  cooldown = pos 5;
  probes_at = 8;
  score = 0;
}

abbrev with_breaker : Breaker ℕ → Registry ℕ
with_breaker b = record { policy = first_policy; breakers = ("a", b) ∷ [] }

run-IsSound_example :
    IsSound
      (normalize whole first_policy)
      (breaker_of whole "a" (run whole (new_registry whole first_policy) calls))
unfolding normalize
run-IsSound_example = run-IsSound whole first_policy calls "a" (omega arith)

one_trial_example :
    ((admit whole "a" 9 (with_breaker opened)).1 ≡ some (trial_permit "a"))
    × ((admit whole "a" 30
          (run whole (admit whole "a" 9 (with_breaker opened)).0 (admits "a" 10 ∷ []))).1
        ≡ none)
unfolding breaker_of lookup
one_trial_example =
    one_trial whole "a" (with_breaker opened) 9 30 (admits "a" 10 ∷ []) refl refl (refl, tt)

abbrev on_trial : Breaker ℕ
on_trial = record opened { state = half_open; trial_in_flight = true }

second_trial_example :
    ((breaker_of whole "a"
        (record_outcome whole "a" false failed 10 (with_breaker on_trial))).trial_in_flight
      ≡ true)
    × ((admit whole "a" 60 (record_outcome whole "a" false failed 10 (with_breaker on_trial))).1
        ≡ some (trial_permit "a"))
unfolding breaker_of lookup escalate wrap64 ◌*ℤ◌
second_trial_example =
    second_trial whole "a" (with_breaker on_trial) 10 60 (refl, refl) (omega arith) refl

abbrev fresh : Registry ℕ
fresh = record { policy = first_policy; breakers = [] }

opens_at_threshold_example :
    ((breaker_of whole "a" (fail_all whole "a" (1 ∷ []) fresh)).state ≡ closed)
    × ((breaker_of whole "a"
          (record_outcome whole "a" false failed 2 (fail_all whole "a" (1 ∷ []) fresh))).state
        ≡ is_open)
    × ((breaker_of whole "a"
          (record_outcome whole "a" false failed 2 (fail_all whole "a" (1 ∷ []) fresh))).probes_at
        ≡ add_time 2 (pos 5))
unfolding breaker_of lookup
opens_at_threshold_example = opens_at_threshold whole "a" fresh (1 ∷ []) 2 refl refl refl refl

soonest_probe_least_example :
    BoundsAll whole
      (soonest_probe whole ("a" ∷ "b" ∷ []) 3 (with_breaker opened))
      ("a" ∷ "b" ∷ [])
      3
      (with_breaker opened)
    × (Attained whole
          (soonest_probe whole ("a" ∷ "b" ∷ []) 3 (with_breaker opened))
          ("a" ∷ "b" ∷ [])
          3
          (with_breaker opened)
        ⊎ (soonest_probe whole ("a" ∷ "b" ∷ []) 3 (with_breaker opened) ≡ none))
soonest_probe_least_example = soonest_probe_least whole ("a" ∷ "b" ∷ []) 3 (with_breaker opened)

first_policy-IsUsable : IsUsable first_policy
first_policy-IsUsable = record {
  failures = omega arith;
  successes = omega arith;
  starts = omega arith;
  ordered = omega arith;
}
