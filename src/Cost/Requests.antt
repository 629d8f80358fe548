-- ===== src/Cost/Requests.antt =====
-- internal/providercost/providercost.go: the cost of one request, over its attempts.
use kaana.Prelude.{
  Bool, true, false, not, ◌&&◌, Option, none, some, List, [], ◌∷◌, ◌==◌, map, if◌then◌else◌, length,
}
use kaana.Prelude.Int.{ℤ, pos}
use kaana.Prelude.Time.{Time, Duration}
use kaana.Prelude.Assoc.{Assoc, lookup, insert}
use kaana.Prelude.Bytes.{Bytes}
use kaana.Money.{Money}
use kaana.Cost.{
  Cards, UnitQuantity, Measurement, provider_reported, unmeasured, complete, measure_at, add64,
  bytes_Eq, sort_by,
}

pub data AttemptOutcome : Type 0 where
  succeeded failed cancelled : AttemptOutcome
  other_outcome : Bytes → AttemptOutcome

pub record AttemptTelemetry : Type 0 where
  pub started_at : Time
  pub latency : Duration
  pub time_to_first_output : Duration
  pub outcome : AttemptOutcome
  pub failure_code : Bytes

pub record AttemptUsage : Type 0 where
  pub attempt_index : ℤ
  pub deployment_id : Bytes
  pub provider : Bytes
  pub model_reference : Bytes
  pub occurred_at : Time
  pub provider_billed_customer : Bool
  pub key_id : Bytes
  pub key_class : Bytes
  pub provider_reported_cost : Option Money
  pub served : Bool
  pub units : List UnitQuantity
  pub telemetry : AttemptTelemetry

pub record AttemptCost : Type 0 where
  pub usage : AttemptUsage
  pub measurement : Measurement

pub record Record : Type 0 where
  pub request_id : Bytes
  pub attempts : List AttemptCost
  pub totals : List Money
  pub is_complete : Bool

abbrev pub exact_cost : Money → Measurement
exact_cost cost = record {
  cost = cost;
  source = provider_reported;
  rate_card_version_id = [];
  provider_billed_customer = false;
  priced = true;
  unpriced_units = [];
}

-- `now` is what time.Now says for an attempt that has no time.
unfoldable pub measure_attempt : Time → Option Cards → AttemptUsage → Measurement
measure_attempt now c a =
    if a.provider_billed_customer then unmeasured true else elim a.provider_reported_cost [
      | some cost ↦ exact_cost cost
      | none ↦ measure_at now c a.deployment_id a.units a.occurred_at
    ]

-- totals[currency] += amount, where a missing entry reads as zero.
unfoldable pub add_total : Measurement → Assoc Bytes ℤ → Assoc Bytes ℤ
add_total m totals =
    let held : ℤ = elim (lookup m.cost.currency totals) [ some amount ↦ amount | none ↦ pos 0 ] in
    if m.priced && not m.provider_billed_customer
    then insert m.cost.currency (add64 held m.cost.amount) totals
    else totals

unfoldable pub sum_totals : List Measurement → Assoc Bytes ℤ → Assoc Bytes ℤ
unfolding add_total
sum_totals [] totals = totals
sum_totals (m ∷ measured) totals = sum_totals measured (add_total m totals)

unfoldable pub all_complete : List Measurement → Bool
unfolding complete
all_complete [] = true
all_complete (m ∷ measured) = complete m && all_complete measured

abbrev pub money_of : Bytes × ℤ → Money
money_of (currency, amount) = record { currency = currency; amount = amount }

unfoldable pub measure_request : Time → Option Cards → Bytes → List AttemptUsage → Record
measure_request now c request_id attempts =
    let measured = map (measure_attempt now c) attempts in
    record {
      request_id = request_id;
      attempts = map (λ a. record { usage = a; measurement = measure_attempt now c a }) attempts;
      totals = sort_by (λ m. m.currency) (map money_of (sum_totals measured []));
      is_complete = all_complete measured && not (length attempts == 0);
    }
