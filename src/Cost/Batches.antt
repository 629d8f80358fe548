-- ===== src/Cost/Batches.antt =====
-- internal/providercost/providercost.go: the events that a record is stored as.
use mathlib.Core.Path.{subst}
use kaana.Prelude.{
  ◌≤◌, ◌≡◌, sym, false, List, [], ◌∷◌, arith, if◌then◌else◌, length, Bool-cases, inl, inr,
}
use kaana.Prelude.Int.{ℤ}
use kaana.Prelude.Bytes.{Bytes}
use kaana.Prelude.Results.{ok, Result-cases}
use kaana.Cost.Requests.{AttemptCost, Record}
use kaana.Cost.Events.{Event, validate_event, event_of, no_event, index_seen, collect, events}

-- The events of the attempts that were made with a key of Kaana's, in their order.
unfoldable pub billable : Bytes → List AttemptCost → List Event
billable request_id [] = []
billable request_id (a ∷ attempts) =
    let rest = billable request_id attempts in
    if no_event a then rest else event_of request_id a ∷ rest

-- Every event is valid, and none has an index that is in `seen` or that an earlier event has.
pub data IsBatch : List ℤ → List Event → Type 0 where
  batch_end : {seen : List ℤ} → IsBatch seen []
  batch_event :
      {seen : List ℤ} {e : Event} {rest : List Event}
      → validate_event e ≡ ok tt
      → index_seen e.attempt_index seen ≡ false
      → IsBatch (e.attempt_index ∷ seen) rest
      → IsBatch seen (e ∷ rest)

collect-cons :
    (request_id : Bytes) (seen : List ℤ) (a : AttemptCost) (attempts : List AttemptCost)
    {evs : List Event}
    → no_event a ≡ false
    → collect request_id seen (a ∷ attempts) ≡ ok evs
    → (rest : List Event) × (evs ≡ event_of request_id a ∷ rest)
      × (validate_event (event_of request_id a) ≡ ok tt)
      × (index_seen a.usage.attempt_index seen ≡ false)
      × (collect request_id (a.usage.attempt_index ∷ seen) attempts ≡ ok rest)
unfolding collect
collect-cons request_id seen a attempts {evs} billed h =
    elim (Result-cases (collect request_id (a.usage.attempt_index ∷ seen) attempts)) [
      | inl (rest, e) ↦ (rest, ground (arith, e), ground (arith, e), ground (arith, e), e)
      | inr (failure, e) ↦ absurd (ground (arith, e))
    ]

collect-IsBatch :
    (request_id : Bytes) (seen : List ℤ) (attempts : List AttemptCost) {evs : List Event}
    → collect request_id seen attempts ≡ ok evs
    → (evs ≡ billable request_id attempts) × IsBatch seen (billable request_id attempts)
unfolding collect billable
collect-IsBatch request_id seen [] h = (ground arith, batch_end)
collect-IsBatch request_id seen (a ∷ attempts) h = elim (Bool-cases (no_event a)) [
  | inl skipped ↦
      let (same, batch) = collect-IsBatch request_id seen attempts (ground arith) in
      rw skipped (same, batch)
  | inr billed ↦
      let (rest, e, valid, fresh, more) = collect-cons request_id seen a attempts billed h in
      let (same, batch) = collect-IsBatch request_id (a.usage.attempt_index ∷ seen) attempts more in
      rw billed (ground arith, batch_event valid fresh batch)
]

-- Where the events of a record are granted, they are those of its attempts that were made with a key
-- of Kaana's, all of them and in order; every one is valid, no two have one attempt index, and the
-- record has at most 64 attempts.
pub events-IsBatch :
    (r : Record) (evs : List Event)
    → events r ≡ ok evs
    → (evs ≡ billable r.request_id r.attempts) × IsBatch [] evs × (length r.attempts ≤ 64)
unfolding events
events-IsBatch r evs h =
    let (same, batch) = collect-IsBatch r.request_id [] r.attempts {evs = evs} (ground arith) in
    (same, subst (IsBatch []) (sym same) batch, ground arith)
