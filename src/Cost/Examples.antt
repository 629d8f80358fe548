-- ===== src/Cost/Examples.antt =====
-- Rate cards, records and events of internal/providercost.
use kaana.Prelude.{
  ◌≡◌, ◌≢◌, ◌↔◌, refl, ◌≤◌, ◌<◌, Bool, true, false, Option, none, some, List, [], ◌∷◌, map, arith,
  length,
}
use kaana.Prelude.Int.{ℤ, pos, negsuc}
use kaana.Prelude.Bytes.{Bytes, codes}
use kaana.Prelude.Results.{err}
use kaana.Cost.{
  bytes_Eq, Rate, Card, RateCardObservation, operator, Cards, UnitQuantity, Measurement,
  measure_card, rate_map,
}
use kaana.Cost.Requests.{AttemptUsage, succeeded, AttemptCost, measure_attempt, measure_request}
use kaana.Cost.Events.{Event, invalid_money, events, event_of}
use kaana.Cost.Sums.{NoNegative, no_units, one_more, units_cost, measure_card_exact}
use kaana.Cost.Records.{AllAccounted, complete-AllAccounted}
use kaana.Cost.Totals.{find_total, currency_total, find_total-currency_total}
use kaana.Cost.Combined.{first_card, pricing, combine-first_card}
use kaana.Cost.Loading.{combine, add_table}
use kaana.Prelude.Assoc.{lookup}
use kaana.Cost.Batches.{billable, IsBatch, events-IsBatch}

abbrev card : ℤ → Card
card rate = record {
  deployment_id = codes "d";
  currency = codes "USD";
  rates = record { unit = codes "input_tokens"; amount_per_unit = rate } ∷ [];
  request_input_tokens = pos 0;
}

abbrev observation : RateCardObservation
observation = record {
  version_id = codes "v1";
  source = operator;
  source_version = codes "s";
  observed_at = 1;
  effective_at = 5;
  expires_at = some 100;
  rate_cards = [];
}

abbrev table : ℤ → Option Cards
table rate = some (record {
  by_deployment = (codes "d", card rate) ∷ [];
  observations = (codes "v1", observation) ∷ [];
  deployment_observation = (codes "d", codes "v1") ∷ [];
})

abbrev tokens : ℤ → List UnitQuantity
tokens n = record { unit = codes "input_tokens"; quantity = n } ∷ []

abbrev attempt : ℤ → Bool → AttemptUsage
attempt index billed = record {
  attempt_index = index;
  deployment_id = codes "d";
  provider = codes "p";
  model_reference = codes "m";
  occurred_at = 7;
  provider_billed_customer = billed;
  key_id = codes "k";
  key_class = [];
  provider_reported_cost = none;
  served = true;
  units = tokens (pos 1000);
  telemetry = record {
    started_at = 7;
    latency = pos 3;
    time_to_first_output = pos 1;
    outcome = succeeded;
    failure_code = [];
  };
}

abbrev attempts : List AttemptUsage
attempts = attempt (pos 0) false ∷ attempt (pos 1) true ∷ attempt (pos 2) false ∷ []

thousand_tokens-NoNegative : NoNegative (tokens (pos 1000))
thousand_tokens-NoNegative = one_more no_units

measure_card_exact_example :
    (measure_card observation (card (pos 2_500_000)) (tokens (pos 1000))).cost.amount
    ≡ pos 2_500_000_000
unfolding units_cost rate_map kaana.Cost.Loading.check_rates kaana.Prelude.Assoc.lookup
    kaana.Prelude.Assoc.insert kaana.Prelude.Bytes.bytes_eq kaana.Cost.Events.unit_valid
    kaana.Cost.Events.is_member
measure_card_exact_example =
    measure_card_exact observation (card (pos 2_500_000)) refl thousand_tokens-NoNegative
      (omega arith)

-- A product past int64 turns negative.
wraps :
    (measure_card observation (card (pos 9_223_372_036_854_776)) (tokens (pos 1000))).cost.amount
    ≡ negsuc 9_223_372_036_854_775_615
unfolding measure_card kaana.Prelude.Assoc.lookup kaana.Prelude.Assoc.insert
    kaana.Prelude.Bytes.bytes_eq kaana.Prelude.Words.wrap64 kaana.Prelude.Int.◌+ℤ◌
    kaana.Prelude.Int.◌*ℤ◌
wraps = refl

complete-AllAccounted_example :
    ((measure_request 9 (table (pos 1)) (codes "r") attempts).is_complete ≡ true)
    ↔ ((attempts ≢ []) × AllAccounted 9 (table (pos 1)) attempts)
complete-AllAccounted_example = complete-AllAccounted 9 (table (pos 1)) (codes "r") attempts

find_total-currency_total_example :
    find_total (codes "USD") (measure_request 9 (table (pos 2_500_000)) (codes "r") attempts).totals
    ≡ some (pos 5_000_000_000)
unfolding currency_total measure_attempt kaana.Cost.measure_at measure_card
    kaana.Prelude.Assoc.lookup kaana.Prelude.Assoc.insert kaana.Prelude.Bytes.bytes_eq
    kaana.Prelude.Words.wrap64 kaana.Prelude.Int.◌+ℤ◌ kaana.Prelude.Int.◌*ℤ◌
find_total-currency_total_example =
    find_total-currency_total 9 (table (pos 2_500_000)) (codes "r") attempts (codes "USD")

abbrev measured : ℤ → AttemptCost
measured index = record {
  usage = attempt index false;
  measurement = measure_attempt 9 (table (pos 2)) (attempt index false);
}

-- The attempt that the customer was billed for has no event.
abbrev stored : List Event
stored = event_of (codes "r") (measured (pos 0)) ∷ event_of (codes "r") (measured (pos 2)) ∷ []

-- A wrapped amount keeps every event of the request from being stored.
refuses_wrapped :
    events (measure_request 9 (table (pos 9_223_372_036_854_776)) (codes "r") attempts)
    ≡ err invalid_money
unfolding events kaana.Cost.Events.collect kaana.Cost.Events.validate_event
    kaana.Cost.Events.index_seen kaana.Cost.complete kaana.Cost.sort_by measure_attempt
    kaana.Cost.measure_at measure_card kaana.Prelude.Assoc.lookup kaana.Prelude.Assoc.insert
    kaana.Prelude.Bytes.bytes_eq kaana.Prelude.Words.wrap64 kaana.Prelude.Int.◌+ℤ◌
    kaana.Prelude.Int.◌*ℤ◌ measure_request
refuses_wrapped = refl

events-IsBatch_example :
    (stored
      ≡ billable (codes "r") (measure_request 9 (table (pos 2)) (codes "r") attempts).attempts)
    × IsBatch [] stored
    × (length (measure_request 9 (table (pos 2)) (codes "r") attempts).attempts ≤ 64)
unfolding events kaana.Cost.Events.collect kaana.Cost.Events.validate_event
    kaana.Cost.Events.index_seen kaana.Cost.complete kaana.Cost.sort_by measure_attempt
    kaana.Cost.measure_at measure_card kaana.Prelude.Assoc.lookup kaana.Prelude.Assoc.insert
    kaana.Prelude.Bytes.bytes_eq kaana.Prelude.Words.wrap64 kaana.Prelude.Int.◌+ℤ◌
    kaana.Prelude.Int.◌*ℤ◌ measure_request
events-IsBatch_example =
    events-IsBatch (measure_request 9 (table (pos 2)) (codes "r") attempts) stored refl

abbrev other_table : Cards
other_table = record {
  by_deployment = (codes "e", card (pos 1)) ∷ [];
  observations = (codes "v2", observation) ∷ [];
  deployment_observation = (codes "e", codes "v2") ∷ [];
}

abbrev one_table : Cards
one_table = record {
  by_deployment = (codes "d", card (pos 2)) ∷ [];
  observations = (codes "v1", observation) ∷ [];
  deployment_observation = (codes "d", codes "v1") ∷ [];
}

abbrev both_tables : Cards
both_tables = record {
  by_deployment = (codes "d", card (pos 2)) ∷ (codes "e", card (pos 1)) ∷ [];
  observations = (codes "v1", observation) ∷ (codes "v2", observation) ∷ [];
  deployment_observation = (codes "d", codes "v1") ∷ (codes "e", codes "v2") ∷ [];
}

combine-first_card_example :
    (lookup (codes "e") both_tables.by_deployment
      ≡ first_card (codes "e") (one_table ∷ other_table ∷ []))
    × (pricing (codes "e") (one_table ∷ other_table ∷ []) ≤ 1)
unfolding combine add_table lookup kaana.Prelude.Assoc.insert kaana.Prelude.Bytes.bytes_eq
combine-first_card_example =
    combine-first_card (one_table ∷ other_table ∷ []) both_tables (codes "e") refl
