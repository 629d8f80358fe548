-- ===== src/Rotation.antt =====
-- internal/rotation/rotation.go: one circuit breaker and one health score for each deployment.
-- A method of `*Registry` runs under the registry's mutex, so it is one step on the registry's
-- value; it takes the reading of `r.now()` as an argument. The score's arithmetic is float64's, a
-- parameter. Counters (`consecutiveFailures`, `trialSuccesses`) are not bounded by 2^63 here.
pub mod Cooldown
pub mod Runs
pub mod Trials
pub mod Outcomes
pub mod Hint
pub mod Isolation
mod Examples
use kaana.Prelude.{
  ℕ, ◌+◌, String, Bool, true, false, Option, none, some, List, [], ◌∷◌, ◌++◌, ◌&&◌, ◌||◌, not, leb,
  ltb, if◌then◌else◌,
}
use kaana.Prelude.Int.{ℤ, pos, negsuc, ltb_ℤ}
use kaana.Prelude.Assoc.{Assoc, lookup, insert, retain, string_eq}
use kaana.Prelude.Time.{
  Time, Duration, zero_time, before, add_time, sub_time, times, second, minute,
}
use kaana.Prelude.Floats.{Floats}

pub data State : Type 0 where
  closed is_open half_open : State

pub record Policy (F : Type 0) : Type 0 where
  pub failures_to_open : ℤ
  pub cooldown : Duration
  pub max_cooldown : Duration
  pub successes_to_close : ℤ
  pub score_weight : F

pub record Breaker (F : Type 0) : Type 0 where
  pub state : State
  pub consecutive_failures : ℕ
  pub trial_successes : ℕ
  pub trial_in_flight : Bool
  pub cooldown : Duration
  pub probes_at : Time
  pub score : F

pub record Registry (F : Type 0) : Type 0 where
  pub policy : Policy F
  pub breakers : Assoc String (Breaker F)

pub record Permit : Type 0 where
  pub id : String
  pub trial : Bool
  pub reported : Bool

pub data Outcome : Type 0 where
  served failed irrelevant : Outcome

-- A Boolean test `a ≤ b` on signed integers.
abbrev pub leb_ℤ : ℤ → ℤ → Bool
leb_ℤ a b = not (ltb_ℤ b a)

abbrev pub max_duration : Duration → Duration → Duration
max_duration a b = if ltb_ℤ b a then a else b

-- What one admission decides, before it is written back.
pub record Admission (F : Type 0) : Type 0 where
  pub entry : Breaker F
  pub granted : Option Bool

pub record Health (F : Type 0) : Type 0 where
  pub deployment_id : String
  pub state : State
  pub score : F
  pub consecutive_failures : ℕ
  pub probes_at : Option Time

module _ (fl : Floats) where
  open fl use {Float, literal, add, sub, mul, div, less, less_equal, truncate, from_int}

  abbrev pub default_policy : Policy Float
  default_policy = record {
    failures_to_open = pos 3;
    cooldown = pos (5_000_000_000);
    max_cooldown = pos (120_000_000_000);
    successes_to_close = pos 1;
    score_weight = literal 2 10;
  }

  -- NewRegistry's defaulting, field by field in the source's order.
  unfoldable pub normalize : Policy Float → Policy Float
  normalize p =
      let failures_to_open =
        if leb_ℤ p.failures_to_open (pos 0)
        then default_policy.failures_to_open
        else p.failures_to_open in
      let cooldown = if leb_ℤ p.cooldown (pos 0) then default_policy.cooldown else p.cooldown in
      let max_cooldown =
        if ltb_ℤ p.max_cooldown cooldown
        then max_duration default_policy.max_cooldown cooldown
        else p.max_cooldown in
      let successes_to_close =
        if leb_ℤ p.successes_to_close (pos 0)
        then default_policy.successes_to_close
        else p.successes_to_close in
      let score_weight =
        if less_equal p.score_weight (literal 0 1) || less (literal 1 1) p.score_weight
        then default_policy.score_weight
        else p.score_weight in
      record {
        failures_to_open = failures_to_open;
        cooldown = cooldown;
        max_cooldown = max_cooldown;
        successes_to_close = successes_to_close;
        score_weight = score_weight;
      }

  unfoldable pub new_registry : Policy Float → Registry Float
  unfolding normalize
  new_registry p = record { policy = normalize p; breakers = [] }

  abbrev pub new_breaker : Breaker Float
  new_breaker = record {
    state = closed;
    consecutive_failures = 0;
    trial_successes = 0;
    trial_in_flight = false;
    cooldown = pos 0;
    probes_at = zero_time;
    score = literal 1 1;
  }

  -- The entry that breakerLocked returns; its callers write the entry back, which also stores a
  -- new one.
  unfoldable pub breaker_of : String → Registry Float → Breaker Float
  breaker_of id r = elim (lookup id r.breakers) [ none ↦ new_breaker | some b ↦ b ]

  abbrev pub store : String → Breaker Float → Registry Float → Registry Float
  store id b r = record r { breakers = insert id b r.breakers }

  unfoldable pub blend : Registry Float → Float → Float → Float
  blend r current observed =
      add (mul current (sub (literal 1 1) r.policy.score_weight))
        (mul observed r.policy.score_weight)

  unfoldable pub escalate : Policy Float → Duration → Duration
  escalate p current =
      if leb_ℤ current (pos 0)
      then p.cooldown
      else (let doubled = times current 2 in
          if ltb_ℤ p.max_cooldown doubled then p.max_cooldown else doubled)

  -- The `switch entry.state` of Admit.
  pub admit_entry : State → Breaker Float → Time → Admission Float
  admit_entry closed entry now = record { entry = entry; granted = some false }
  admit_entry is_open entry now =
      if before now entry.probes_at then record { entry = entry; granted = none } else record {
        entry = record entry { state = half_open; trial_successes = 0; trial_in_flight = true };
        granted = some true;
      }
  admit_entry half_open entry now =
      if entry.trial_in_flight
      then record { entry = entry; granted = none }
      else record { entry = record entry { trial_in_flight = true }; granted = some true }

  abbrev permit_for : String → Option Bool → Option Permit
  permit_for id none = none
  permit_for id (some trial) = some (record { id = id; trial = trial; reported = false })

  unfoldable pub admit : String → Time → Registry Float → Registry Float × Option Permit
  unfolding breaker_of admit_entry
  admit id now r =
      let entry = breaker_of id r in
      let a = admit_entry entry.state entry now in (store id a.entry r, permit_for id a.granted)

  -- The end of a failed trial, and of the failure that opens a breaker.
  pub reopen : Registry Float → Time → Breaker Float → Breaker Float
  unfolding escalate
  reopen r now entry =
      let cooldown = escalate r.policy entry.cooldown in
      record entry { cooldown = cooldown; state = is_open; probes_at = add_time now cooldown }

  pub served_entry : Registry Float → Bool → Breaker Float → Breaker Float
  unfolding blend
  served_entry r trial entry =
      let e1 = record entry {
        score = blend r entry.score (literal 1 1);
        consecutive_failures = 0;
      } in
      let e2 = record e1 { trial_successes = e1.trial_successes + 1 } in
      if not trial
      then e1
      else if leb_ℤ r.policy.successes_to_close (pos e2.trial_successes)
      then record e2 { state = closed; trial_successes = 0; cooldown = pos 0 }
      else e2

  pub failed_entry : Registry Float → Bool → Time → Breaker Float → Breaker Float
  unfolding blend reopen
  failed_entry r trial now entry =
      let e1 = record entry {
        score = blend r entry.score (literal 0 1);
        consecutive_failures = entry.consecutive_failures + 1;
      } in
      let opened = reopen r now e1 in
      if trial
      then record opened { trial_successes = 0 }
      else if leb_ℤ r.policy.failures_to_open (pos e1.consecutive_failures)
      then opened
      else e1

  -- The `switch result` of record.
  pub settle_entry : Registry Float → Bool → Outcome → Time → Breaker Float → Breaker Float
  unfolding served_entry failed_entry
  settle_entry r trial irrelevant now entry = entry
  settle_entry r trial served now entry = served_entry r trial entry
  settle_entry r trial failed now entry = failed_entry r trial now entry

  unfoldable pub record_outcome : String → Bool → Outcome → Time → Registry Float → Registry Float
  unfolding breaker_of settle_entry
  record_outcome id trial result now r =
      let entry = breaker_of id r in
      let released = if trial then record entry { trial_in_flight = false } else entry in
      store id (settle_entry r trial result now released) r

  -- Succeeded, Failed and NotAttributable are `report` at the three outcomes; a nil permit
  -- (`none`) and a permit already reported change nothing.
  unfoldable pub report :
      Option Permit → Outcome → Time → Registry Float → Option Permit × Registry Float
  unfolding record_outcome
  report none result now r = (none, r)
  report (some p) result now r =
      if p.reported
      then (some p, r)
      else (some (record p { reported = true }), record_outcome p.id p.trial result now r)

  -- `if wait < 0 { wait = 0 }`
  abbrev pub clamp : Duration → Duration
  clamp wait = if ltb_ℤ wait (pos 0) then pos 0 else wait

  -- `if !found || wait < soonest`, where `none` is `found == false`.
  abbrev pub better : Option Duration → Duration → Option Duration
  better none wait = some wait
  better (some soonest) wait = if ltb_ℤ wait soonest then some wait else some soonest

  -- One round of SoonestProbe's loop: an unknown deployment is passed over.
  abbrev pub probe_round : Option Duration → Option (Breaker Float) → Time → Option Duration
  probe_round best none at = best
  probe_round best (some entry) at = better best (clamp (sub_time entry.probes_at at))

  pub soonest_from : Option Duration → List String → Time → Registry Float → Option Duration
  soonest_from best [] at r = best
  soonest_from best (id ∷ ids) at r =
      soonest_from (probe_round best (lookup id r.breakers) at) ids at r

  unfoldable pub soonest_probe : List String → Time → Registry Float → Option Duration
  unfolding soonest_from
  soonest_probe ids at r = soonest_from none ids at r

  unfoldable pub round_score : Float → Float
  round_score score =
      div (from_int (truncate (add (mul score (literal 1000 1)) (literal 5 10)))) (literal 1000 1)

  abbrev probe_time : State → Time → Option Time
  probe_time closed t = none
  probe_time _ t = some t

  -- Project also stores an entry for each id that has none.
  unfoldable pub project : List String → Registry Float → List (Health Float) × Registry Float
  unfolding breaker_of round_score
  project [] r = ([], r)
  project (id ∷ ids) r =
      let entry = breaker_of id r in
      let (rest, r') = project ids (store id entry r) in
      let health : Health Float = record {
        deployment_id = id;
        state = entry.state;
        score = round_score entry.score;
        consecutive_failures = entry.consecutive_failures;
        probes_at = probe_time entry.state entry.probes_at;
      } in
      (health ∷ rest, r')

  abbrev pub is_known : String → List String → Bool
  is_known id [] = false
  is_known id (k ∷ ks) = string_eq.beq k id || is_known id ks

  unfoldable pub retain_known : List String → Registry Float → Registry Float
  retain_known known r = record r { breakers = retain (λ id entry. is_known id known) r.breakers }
