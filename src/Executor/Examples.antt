-- ===== src/Executor/Examples.antt =====
-- Runs of the loop of execute (internal/kaana/executor.go).
use kaana.Prelude.{
  ℕ, suc, ◌≡◌, ◌≤◌, refl, true, false, Option, none, some, List, [], ◌∷◌, arith, ltb, if◌then◌else◌,
}
use kaana.Prelude.Int.{pos, ◌*ℤ◌, ◌+ℤ◌, ◌-ℤ◌}
use kaana.Prelude.Words.{wrap64}
use kaana.Contract.{provider_overloaded, overloaded}
use kaana.Failure.{
  Failure, upstream, deployment_attributable, as_customer_upstream, as_upstream,
  attributable_category,
}
use kaana.Funding.{tier_none}
use kaana.Retry.{
  default_retry_policy, next, backoff_wait, recovers_in_seconds, transient_code, transient_failure,
}
use kaana.Routes.{Candidate}
use kaana.Executor.{
  Surroundings, Run, Ending, Action, admitted, streamed, reported, switched, served, failed, sent,
  run_from, fresh_run, turn, ask, admitted_turn, is_committed, replace, announce, answered,
  with_credentials, attempt_route_on, after_stream, move_on, try_retry, report_platform, report_on,
  finish,
}
use kaana.Executor.Turns.{Held, calls, Persists}
use kaana.Executor.Runs.{run_from-Held}

abbrev overload : Failure
overload = upstream (record {
  code = provider_overloaded;
  category = overloaded;
  detail = "";
  retry_after_ms = pos 0;
  passthrough = none;
  recurs_on_this_route = false;
})

-- The state counts the calls upstream: as many as `bad` of them fail, before any output.
abbrev failing : ℕ → Surroundings ℕ ℕ
failing bad = record {
  admit_customer = λ w _. (w, true);
  admit = λ w _. (w, true);
  report = λ w _ _. w;
  resolves = λ _ _. true;
  within_ceiling = λ _ _. true;
  translates = λ _ _. true;
  route_switch = λ w _ _ _. (w, sent);
  credentials = λ w _. (w, true);
  stream = λ w _. (suc w, if ltb w bad then some overload else none);
  is_cancellation = λ _ _. false;
  started = λ _. false;
  wait_for_retry = λ w _. (w, true);
  draw = λ d. pos 0;
}

failing-Persists : Persists (failing 3)
failing-Persists = record {
  over_customer = λ w r h. h;
  over_admit = λ w r h. h;
  over_report = λ w r o h. h;
}

abbrev candidate : Candidate ℕ
candidate = record {
  route = record {
    deployment_id = "d";
    provider = "p";
    model_reference = "m";
    upstream_model_id = "u";
    regions = [];
    accepted_parameters = none;
    customer_credential = none;
  };
  funding_ceiling = tier_none;
}

abbrev both : List (Candidate ℕ)
both = candidate ∷ candidate ∷ []

abbrev actions_of : Option (Run ℕ ℕ × Ending ℕ) → List Action
actions_of none = []
actions_of (some (run, _)) = run.actions

-- Two retries on the first route, a switch, and the answer of the second.
moves_on :
    actions_of (
      run_from
        (failing 3)
        default_retry_policy
        false
        6
        0
        both
        (fresh_run (failing 3) default_retry_policy false 0))
    ≡ reported 1 served
      ∷ streamed 1 false
      ∷ switched 1
      ∷ admitted 1
      ∷ reported 0 failed
      ∷ streamed 0 false
      ∷ admitted 0
      ∷ reported 0 failed
      ∷ streamed 0 false
      ∷ admitted 0
      ∷ reported 0 failed
      ∷ streamed 0 false
      ∷ admitted 0
      ∷ []
unfolding run_from turn ask admitted_turn is_committed replace announce answered with_credentials
    attempt_route_on after_stream move_on try_retry report_platform report_on finish
    deployment_attributable as_customer_upstream as_upstream attributable_category next
    default_retry_policy backoff_wait recovers_in_seconds transient_code transient_failure wrap64
    ◌*ℤ◌ ◌+ℤ◌ ◌-ℤ◌
moves_on = refl

run_from-Held_example :
    (run : Run ℕ ℕ) × (ending : Ending ℕ) × (run_from
        (failing 3)
        default_retry_policy
        false
        6
        0
        both
        (fresh_run (failing 3) default_retry_policy false 0)
      ≡ some (run, ending))
    × Held none run.actions
    × (calls run.actions ≤ 6)
unfolding default_retry_policy
run_from-Held_example =
    run_from-Held (failing 3) default_retry_policy false failing-Persists 0 both 6 (omega arith)
