-- ===== src/Executor.antt =====
-- internal/kaana/executor.go: the loop of execute over the candidates of a request. What a turn asks
-- of the breakers, the customer limits, the registry, the adapters and the stream is an interface
-- over a state `W`, the rest of the process. `actions` records what the loop did, latest first.
-- The cost rows of an attempt and the events of settle are not in this model.
pub mod Turns
pub mod Rounds
pub mod Runs
mod Examples
use kaana.Prelude.{
  ℕ, zero, suc, ◌+◌, String, Bool, true, false, not, ◌&&◌, Option, none, some, List, [], ◌∷◌,
  if◌then◌else◌,
}
use kaana.Prelude.Int.{pos, ◌+ℤ◌}
use kaana.Prelude.Time.{Duration}
use kaana.Prelude.Words.{wrap64}
use kaana.Failure.{Failure, deployment_attributable}
use kaana.Funding.{FundingTier, tier_free, tier_credit, tier_paid, tier_none}
use kaana.Retry.{RetryPolicy, next}
use kaana.Routes.{Route, Candidate}

-- What a permit is told: Succeeded, Failed, NotAttributable, or reportCustomerLimitOutcome with the
-- error of the attempt.
pub data Report : Type 0 where
  served failed not_attributable : Report
  customer_outcome : Option Failure → Report

-- The candidate, by its index, that was admitted, sent upstream or reported on, and whether output
-- had reached the customer after the attempt.
pub data Action : Type 0 where
  admitted : ℕ → Action
  streamed : ℕ → Bool → Action
  reported : ℕ → Report → Action
  switched : ℕ → Action

-- nil, errSwitchTooLate, or another error of the sink.
pub data SwitchAnswer : Type 0 where
  sent too_late sink_failed : SwitchAnswer

pub record Surroundings (C W : Type 0) : Type 0 where
  -- e.customerLimits.Admit and e.rotation.Admit
  pub admit_customer : W → Route C → W × Bool
  pub admit : W → Route C → W × Bool
  -- the outcome methods of the permit that the turn holds
  pub report : W → Route C → Report → W
  -- Does ResolveExecution find an adapter, and boundedPool a key within the ceiling?
  pub resolves : W → Route C → Bool
  pub within_ceiling : W → Candidate C → Bool
  -- Does translate accept the request?
  pub translates : W → Route C → Bool
  pub route_switch : W → Option Failure → Route C → Route C → W × SwitchAnswer
  -- credentialsForRoute
  pub credentials : W → Route C → W × Bool
  -- streamAttempt; `none` is a nil error
  pub stream : W → Route C → W × Option Failure
  pub is_cancellation : W → Failure → Bool
  -- emit.started
  pub started : W → Bool
  pub wait_for_retry : W → Duration → W × Bool
  pub draw : Duration → Duration

pub record Attempt (C : Type 0) : Type 0 where
  pub attempt_route : Route C
  pub err : Option Failure
  pub cancelled : Bool

-- The refusals of the customer that end a request before an attempt of its own.
pub data Refusal : Type 0 where
  credential_limited untranslatable credential_unavailable all_out_of_rotation : Refusal

-- How execute ends: an attempt that settles, with the failure that replaces its own or the error of
-- the sink, or an error where nothing ran.
pub data Ending (C : Type 0) : Type 0 where
  settled : Attempt C → Option Refusal → Ending C
  sink_gone : Attempt C → Ending C
  refused : Refusal → Ending C

-- The variables of the loop.
pub record Run (C W : Type 0) : Type 0 where
  pub world : W
  pub actions : List Action
  pub last : Option (Attempt C)
  pub abandoned : Option (Attempt C)
  pub skipped : List String
  pub retry_same : Bool
  pub route_retries : ℕ
  pub waited : Duration
  pub switches : ℕ

-- How a turn leaves the loop's body: `continue`, `continue` after index--, `break`, or `return`.
pub data Next (C : Type 0) : Type 0 where
  advance again leave : Next C
  ends : Ending C → Next C

abbrev pub is_customer : {C : Type 0} → Route C → Bool
is_customer r = elim r.customer_credential [ some _ ↦ true | none ↦ false ]

abbrev pub has_ceiling : FundingTier → Bool
has_ceiling tier_none = false
has_ceiling _ = true

module _ {C W : Type 0} (s : Surroundings C W) (p : RetryPolicy) (decisions : Bool) where
  -- The permit of the turn is reported on, in whichever lane it is.
  unfoldable pub report_on : ℕ → Route C → Report → Run C W → Run C W
  report_on index route outcome r = record r {
    world = s.report r.world route outcome;
    actions = reported index outcome ∷ r.actions;
  }

  -- The same for the breaker's permit alone, which a customer's route has none of.
  unfoldable pub report_platform : ℕ → Route C → Report → Run C W → Run C W
  report_platform index route outcome r =
      if is_customer route then r else report_on index route outcome r

  abbrev pub skip : Route C → Run C W → Run C W
  skip route r = record r { skipped = route.deployment_id ∷ r.skipped }

  -- A failure before the attempt: the abandoned attempt settles with it, if there is one.
  abbrev pub refuse : Refusal → Run C W → Next C
  refuse refusal r =
      ends (elim r.abandoned [ some a ↦ settled a (some refusal) | none ↦ refused refusal ])

  -- `last = abandoned; abandoned = nil`
  abbrev pub keep_abandoned : Run C W → Run C W
  keep_abandoned r = record r { last = r.abandoned; abandoned = none }

  -- After a failure that another deployment could survive, which delivered nothing.
  unfoldable pub try_retry : Failure → Attempt C → Run C W → Run C W × Next C
  try_retry failure a r = elim (next s.draw p failure r.route_retries r.waited) [
    | none ↦ (r, advance)
    | some wait ↦
        let slept = s.wait_for_retry r.world wait in
        if slept.1
        then (
          record r {
            world = slept.0;
            route_retries = r.route_retries + 1;
            waited = wrap64 (r.waited +ℤ wait);
            retry_same = true;
          },
          again,
        )
        else (
          record r {
            world = slept.0;
            last = some (record a { cancelled = true });
            abandoned = none;
          },
          leave,
        )
  ]

  abbrev pub moving : Attempt C → Run C W → Run C W
  moving a r = record r { abandoned = some a; last = none }

  -- After a failure that another deployment could survive.
  unfoldable pub move_on : Failure → Attempt C → Run C W → Run C W × Next C
  move_on failure a r =
      let retried = try_retry failure a (moving a r) in
      if decisions
      then (record r { last = some a }, leave)
      else if s.started r.world
      then (moving a r, advance)
      else retried

  abbrev pub failed_attempt : Route C → Failure → Run C W → Attempt C
  failed_attempt route failure r = record {
    attempt_route = route;
    err = some failure;
    cancelled = s.is_cancellation r.world failure;
  }

  -- The `switch` on the error of an attempt.
  unfoldable pub after_stream : ℕ → Route C → Option Failure → Run C W → Run C W × Next C
  after_stream index route none r =
      let a : Attempt C = record { attempt_route = route; err = none; cancelled = false } in
      (report_platform index route served (record r { last = some a }), leave)
  after_stream index route (some failure) r =
      let a = failed_attempt route failure r in
      let held = report_platform index route not_attributable (record r { last = some a }) in
      let moved = move_on failure a (report_platform index route failed r) in
      if s.is_cancellation r.world failure
      then (held, leave)
      else if not (deployment_attributable failure)
      then (held, leave)
      else moved

  -- streamAttempt and reportCustomerLimitOutcome.
  unfoldable pub attempt_route_on : ℕ → Route C → Run C W → Run C W × Next C
  attempt_route_on index route r =
      let result = s.stream r.world route in
      let ran = record r {
        world = result.0;
        abandoned = none;
        actions = streamed index (s.started result.0) ∷ r.actions;
      } in
      let told =
        if is_customer route then report_on index route (customer_outcome result.1) ran else ran in
      after_stream index route result.1 told

  -- credentialsForRoute, and then the attempt.
  unfoldable pub with_credentials : ℕ → Route C → Run C W → Run C W × Next C
  with_credentials index route r =
      let found = s.credentials r.world route in
      let r' = record r { world = found.0 } in
      let attempted = attempt_route_on index route r' in
      let told = report_on index route not_attributable r' in
      if found.1 then attempted else (told, refuse credential_unavailable told)

  -- What a turn does with the answer to the announcement of a route switch.
  unfoldable pub answered : ℕ → Route C → Attempt C → Run C W → SwitchAnswer → Run C W × Next C
  answered index route a r sent =
      with_credentials index route
        (record r { switches = r.switches + 1; actions = switched index ∷ r.actions })
  answered index route a r too_late =
      (keep_abandoned (report_on index route not_attributable r), leave)
  answered index route a r sink_failed =
      (report_on index route not_attributable r, ends (sink_gone a))

  -- The announcement, where an attempt is replaced by one on another route.
  unfoldable pub announce : ℕ → Route C → Attempt C → Run C W → Run C W × Next C
  announce index route a r =
      let answer = s.route_switch r.world a.err a.attempt_route route in
      answered index route a (record r { world = answer.0 }) answer.1

  -- The attempt of a turn, announced where it replaces one on another route.
  unfoldable pub replace : Bool → ℕ → Route C → Run C W → Option (Attempt C) → Run C W × Next C
  replace retrying index route r none = with_credentials index route r
  replace retrying index route r (some a) =
      let plain = with_credentials index route r in
      let told = announce index route a r in if retrying then plain else told

  -- abandoned != nil && emit.started
  unfoldable pub is_committed : W → Option (Attempt C) → Bool
  is_committed world none = false
  is_committed world (some _) = s.started world

  -- The turn of a candidate that was admitted.
  unfoldable pub admitted_turn : Bool → ℕ → Candidate C → Run C W → Run C W × Next C
  admitted_turn retrying index c r =
      let route = c.route in
      let told = report_on index route not_attributable r in
      let bounded = has_ceiling c.funding_ceiling && not (is_customer route) in
      let moved = replace retrying index route r r.abandoned in
      if not (s.resolves r.world route)
      then (skip route told, advance)
      else if bounded && not (s.within_ceiling r.world c)
      then (skip route told, advance)
      else if is_committed r.world r.abandoned
      then (keep_abandoned told, leave)
      else if not (s.translates r.world route)
      then (told, refuse untranslatable told)
      else moved

  -- The start of a turn: a route that is not being retried has made no retries.
  abbrev pub begin : Run C W → Run C W
  begin r = record r {
    retry_same = false;
    route_retries = if r.retry_same then r.route_retries else 0;
  }

  unfoldable pub ask : Route C → W → W × Bool
  ask route world = if is_customer route then s.admit_customer world route else s.admit world route

  -- One turn of the loop.
  unfoldable pub turn : ℕ → Candidate C → Run C W → Run C W × Next C
  turn index c r =
      let asked = ask c.route r.world in
      let r' = record (begin r) { world = asked.0 } in
      let ran =
        admitted_turn r.retry_same index c (record r' { actions = admitted index ∷ r'.actions }) in
      if asked.1
      then ran
      else if is_customer c.route
      then (r', refuse credential_limited r')
      else (skip c.route r', advance)

  -- After the loop.
  unfoldable pub finish : Run C W → Ending C
  finish r = elim r.last [
    | some a ↦ settled a none
    | none ↦ elim r.abandoned [ some a ↦ settled a none | none ↦ refused all_out_of_rotation ]
  ]

  -- The loop, with a unit of fuel for each turn; `none` means that the fuel ran out.
  unfoldable pub run_from : ℕ → ℕ → List (Candidate C) → Run C W → Option (Run C W × Ending C)
  run_from fuel index [] r = some (r, finish r)
  run_from zero index (c ∷ candidates) r = none
  run_from (suc fuel) index (c ∷ candidates) r =
      let t = turn index c r in
      elim t.1 [
        | advance ↦ run_from fuel (index + 1) candidates t.0
        | again ↦ run_from fuel index (c ∷ candidates) t.0
        | leave ↦ some (t.0, finish t.0)
        | ends e ↦ some (t.0, e)
      ]

  abbrev pub fresh_run : W → Run C W
  fresh_run world = record {
    world = world;
    actions = [];
    last = none;
    abandoned = none;
    skipped = [];
    retry_same = false;
    route_retries = 0;
    waited = pos 0;
    switches = 0;
  }
