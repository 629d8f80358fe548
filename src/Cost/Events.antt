-- ===== src/Cost/Events.antt =====
-- internal/providercost/providercost.go: the cost events of a request, and their storage.
use kaana.Prelude.{
  ℕ, ◌/◌, Bool, true, false, not, ◌&&◌, ◌||◌, List, [], ◌∷◌, ◌==◌, leb, ltb, if◌then◌else◌, length,
}
use kaana.Prelude.Int.{ℤ, pos, negsuc, ltb_ℤ}
use kaana.Prelude.Time.{Time, is_zero, millisecond}
use kaana.Prelude.Bytes.{Bytes, codes, is_empty, bytes_eq}
use kaana.Prelude.Results.{Result, ok, err, ◌>>=◌, ◌>>◌, refuse_if}
use kaana.Money.{Money, is_currency}
use kaana.Cost.{UnitQuantity, Source, unknown, rate_card, provider_reported, complete, sort_by}
use kaana.Cost.Requests.{
  AttemptOutcome, failed, other_outcome, AttemptTelemetry, AttemptCost, Record,
}

pub record Event : Type 0 where
  pub request_id : Bytes
  pub attempt_index : ℤ
  pub provider : Bytes
  pub key_id : Bytes
  pub deployment_id : Bytes
  pub model_reference : Bytes
  pub cost : Money
  pub source : Source
  pub rate_card_version_id : Bytes
  pub is_complete : Bool
  pub served : Bool
  pub occurred_at : Time
  pub units : List UnitQuantity
  pub telemetry : AttemptTelemetry

-- The errors of Events, by the message that each formats.
pub data EventError : Type 0 where
  too_many_attempts : EventError
  incomplete_identity : EventError
  inconsistent_telemetry : ℤ → EventError
  latency_out_of_range : ℤ → EventError
  stray_failure_code : ℤ → EventError
  no_failure_code : ℤ → EventError
  unknown_outcome : ℤ → EventError
  invalid_quantity : ℤ → EventError
  repeated_unit : ℤ → Bytes → EventError
  invalid_money : EventError
  no_rate_card_version : EventError
  stray_rate_card_version : EventError
  unknown_with_cost : EventError
  repeated_index : ℤ → EventError

abbrev pub max_persistence_batch_events : ℕ
max_persistence_batch_events = 64

abbrev pub max_telemetry_milliseconds : ℕ
max_telemetry_milliseconds = 2_147_483_647

unfoldable pub usage_units : List Bytes
usage_units =
    codes "input_tokens"
    ∷ codes "cached_input_tokens"
    ∷ codes "output_tokens"
    ∷ codes "reasoning_tokens"
    ∷ codes "requests"
    ∷ codes "images"
    ∷ codes "audio_input_milliseconds"
    ∷ codes "audio_output_milliseconds"
    ∷ codes "video_milliseconds"
    ∷ codes "characters"
    ∷ codes "embeddings"
    ∷ codes "audio_input_tokens"
    ∷ codes "cached_audio_input_tokens"
    ∷ codes "audio_output_tokens"
    ∷ codes "session_milliseconds"
    ∷ codes "input_transcription_milliseconds"
    ∷ []

unfoldable pub is_member : Bytes → List Bytes → Bool
is_member a [] = false
is_member a (b ∷ l) = bytes_eq b a || is_member a l

unfoldable pub unit_valid : Bytes → Bool
unfolding is_member usage_units
unit_valid u = is_member u usage_units

abbrev pub is_lower : ℕ → Bool
is_lower c = leb 97 c && leb c 122

unfoldable pub code_tail : Bytes → Bool
code_tail [] = true
code_tail (c ∷ s) = (is_lower c || leb 48 c && leb c 57 || c == 95) && code_tail s

-- ^[a-z][a-z0-9_]{0,63}$
unfoldable pub is_failure_code : Bytes → Bool
unfolding code_tail
is_failure_code [] = false
is_failure_code (c ∷ s) = is_lower c && code_tail s && leb (length s) 63

abbrev pub is_negative : ℤ → Bool
is_negative a = ltb_ℤ a (pos 0)

-- The loop over the units of an event; `seen` holds the units before.
unfoldable pub check_units : ℤ → List Bytes → List UnitQuantity → Result EventError (Unit {0})
unfolding is_member unit_valid
check_units index seen [] = ok tt
check_units index seen (q ∷ units) =
    let rest = check_units index (q.unit ∷ seen) units in
    if not (unit_valid q.unit) || is_negative q.quantity
    then err (invalid_quantity index)
    else if is_member q.unit seen
    then err (repeated_unit index q.unit)
    else rest

unfoldable pub check_outcome : ℤ → AttemptOutcome → Bytes → Result EventError (Unit {0})
check_outcome index failed code =
    if is_failure_code code then ok tt else err (no_failure_code index)
check_outcome index (other_outcome o) code = err (unknown_outcome index)
check_outcome index _ code = if is_empty code then ok tt else err (stray_failure_code index)

-- Duration.Milliseconds of a latency that is not negative is over the largest one.
abbrev pub too_slow : ℤ → Bool
too_slow (pos n) = ltb max_telemetry_milliseconds (n / millisecond)
too_slow (negsuc n) = false

unfoldable pub validate_telemetry : Event → Result EventError (Unit {0})
unfolding check_units check_outcome
validate_telemetry e = do
  let t = e.telemetry
  let inconsistent =
      is_zero t.started_at
      || is_negative t.latency
      || is_negative t.time_to_first_output
      || ltb_ℤ t.latency t.time_to_first_output
  refuse_if (inconsistent) (inconsistent_telemetry e.attempt_index)
  refuse_if (too_slow t.latency) (latency_out_of_range e.attempt_index)
  check_outcome e.attempt_index t.outcome t.failure_code
  check_units e.attempt_index [] e.units

abbrev pub is_pos_zero : ℤ → Bool
is_pos_zero (pos n) = n == 0
is_pos_zero (negsuc n) = false

unfoldable pub check_source : Source → Event → Result EventError (Unit {0})
check_source unknown e =
    if not (is_empty e.cost.currency)
      || not (is_pos_zero e.cost.amount)
      || e.is_complete
      || not (is_empty e.rate_card_version_id)
    then err unknown_with_cost
    else ok tt
check_source rate_card e =
    if not (is_currency e.cost.currency) || is_negative e.cost.amount
    then err invalid_money
    else if is_empty e.rate_card_version_id || ltb 256 (length e.rate_card_version_id)
    then err no_rate_card_version
    else ok tt
check_source provider_reported e =
    if not (is_currency e.cost.currency) || is_negative e.cost.amount
    then err invalid_money
    else if not (is_empty e.rate_card_version_id)
    then err stray_rate_card_version
    else ok tt

unfoldable pub validate_event : Event → Result EventError (Unit {0})
unfolding validate_telemetry check_source is_currency
validate_event e = do
  let incomplete =
      is_empty e.request_id
      || is_negative e.attempt_index
      || is_empty e.provider
      || is_empty e.key_id
      || is_empty e.deployment_id
      || is_empty e.model_reference
      || is_zero e.occurred_at
  refuse_if (incomplete) incomplete_identity
  validate_telemetry e
  check_source e.source e

abbrev pub event_of : Bytes → AttemptCost → Event
event_of request_id a = record {
  request_id = request_id;
  attempt_index = a.usage.attempt_index;
  provider = a.usage.provider;
  key_id = a.usage.key_id;
  deployment_id = a.usage.deployment_id;
  model_reference = a.usage.model_reference;
  cost = a.measurement.cost;
  source = a.measurement.source;
  rate_card_version_id = a.measurement.rate_card_version_id;
  is_complete = complete a.measurement;
  served = a.usage.served;
  occurred_at = a.usage.occurred_at;
  units = sort_by (λ q. q.unit) a.usage.units;
  telemetry = a.usage.telemetry;
}

-- Has an attempt no event: billed to the customer, or made without a key?
abbrev pub no_event : AttemptCost → Bool
no_event a = a.usage.provider_billed_customer || is_empty a.usage.key_id

abbrev pub same_index : ℤ → ℤ → Bool
same_index (pos a) (pos b) = a == b
same_index (negsuc a) (negsuc b) = a == b
same_index _ _ = false

unfoldable pub index_seen : ℤ → List ℤ → Bool
index_seen i [] = false
index_seen i (j ∷ seen) = same_index j i || index_seen i seen

-- The loop of Events; `seen` holds the indexes of the events before.
unfoldable pub collect : Bytes → List ℤ → List AttemptCost → Result EventError (List Event)
collect request_id seen [] = ok []
collect request_id seen (a ∷ attempts) =
    let skip = collect request_id seen attempts in
    let event = event_of request_id a in
    let rest = collect request_id (event.attempt_index ∷ seen) attempts in
    if no_event a then skip else do
      validate_event event
      refuse_if (index_seen event.attempt_index seen) (repeated_index event.attempt_index)
      others ← rest
      ok (event ∷ others)

unfoldable pub events : Record → Result EventError (List Event)
events r =
    if ltb max_persistence_batch_events (length r.attempts)
    then err too_many_attempts
    else collect r.request_id [] r.attempts
