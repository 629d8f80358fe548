-- ===== src/Cost.antt =====
-- internal/providercost/providercost.go: what an upstream attempt cost Kaana. Rate cards and the
-- measurement of attempts; texts are bytes, as their order matters. A nil `*Cards` is `none`. An
-- int64 sum or product wraps (Prelude.Words).
pub mod Loading
pub mod Requests
pub mod Events
pub mod Sums
pub mod Rates
pub mod Records
pub mod Totals
pub mod Batches
pub mod Combined
mod Examples
use kaana.Prelude.{
  ℕ, Bool, true, false, not, ◌&&◌, ◌||◌, Option, none, some, List, [], ◌∷◌, ◌++◌, ltb, ◌==◌,
  if◌then◌else◌, length,
}
use kaana.Prelude.Int.{ℤ, pos, ◌+ℤ◌, ◌*ℤ◌, ltb_ℤ}
use kaana.Prelude.Words.{wrap64}
use kaana.Prelude.Time.{Time, is_zero, before}
use kaana.Prelude.Assoc.{Eq, Assoc, lookup, insert}
use kaana.Prelude.Bytes.{Bytes, is_empty, bytes_eq, bytes_less, bytes_eq_self, bytes_eq-eq}
use kaana.Money.{Money}

instance abbrev pub bytes_Eq : Eq Bytes
bytes_Eq = record {
  beq = bytes_eq;
  beq_iff = λ a b. (bytes_eq-eq a b, λ e. rw e (bytes_eq_self b));
}

pub record Rate : Type 0 where
  pub unit : Bytes
  pub amount_per_unit : ℤ

pub record Card : Type 0 where
  pub deployment_id : Bytes
  pub currency : Bytes
  pub rates : List Rate
  pub request_input_tokens : ℤ

pub data RateCardSource : Type 0 where
  provider_api provider_documentation operator : RateCardSource
  other_source : Bytes → RateCardSource

pub record RateCardObservation : Type 0 where
  pub version_id : Bytes
  pub source : RateCardSource
  pub source_version : Bytes
  pub observed_at : Time
  pub effective_at : Time
  pub expires_at : Option Time
  pub rate_cards : Bytes

-- The maps of a loaded rate table.
pub record Cards : Type 0 where
  pub by_deployment : Assoc Bytes Card
  pub observations : Assoc Bytes RateCardObservation
  pub deployment_observation : Assoc Bytes Bytes

unfoldable pub observation_for_deployment : Option Cards → Bytes → Option RateCardObservation
observation_for_deployment none id = none
observation_for_deployment (some c) id = elim (lookup id c.deployment_observation) [
  | some version_id ↦ lookup version_id c.observations
  | none ↦ none
]

unfoldable pub priced_deployment : Option Cards → Bytes → Bool
priced_deployment none id = false
priced_deployment (some c) id = elim (lookup id c.by_deployment) [ some _ ↦ true | none ↦ false ]

unfoldable pub most_input_tokens : (Bytes → Bool) → Assoc Bytes Card → ℤ → ℤ
most_input_tokens admits [] most = most
most_input_tokens admits ((id, card) ∷ cards) most =
    let more = ltb_ℤ most card.request_input_tokens && admits id in
    most_input_tokens admits cards (if more then card.request_input_tokens else most)

unfoldable pub request_input_tokens_of : Option Cards → (Bytes → Bool) → ℤ
request_input_tokens_of none admits = pos 0
request_input_tokens_of (some c) admits = most_input_tokens admits c.by_deployment (pos 0)

pub record UnitQuantity : Type 0 where
  pub unit : Bytes
  pub quantity : ℤ

pub data Source : Type 0 where
  unknown rate_card provider_reported : Source

pub record Measurement : Type 0 where
  pub cost : Money
  pub source : Source
  pub rate_card_version_id : Bytes
  pub provider_billed_customer : Bool
  pub priced : Bool
  pub unpriced_units : List Bytes

abbrev pub no_money : Money
no_money = record { currency = []; amount = pos 0 }

-- Measurement{Source: SourceUnknown}, and whether the customer was billed.
abbrev pub unmeasured : Bool → Measurement
unmeasured billed = record {
  cost = no_money;
  source = unknown;
  rate_card_version_id = [];
  provider_billed_customer = billed;
  priced = false;
  unpriced_units = [];
}

unfoldable pub complete : Measurement → Bool
complete m = m.provider_billed_customer || m.priced && length m.unpriced_units == 0

-- The map of a card's rates by unit, which a later rate of a unit overwrites.
unfoldable pub rate_map : List Rate → Assoc Bytes ℤ → Assoc Bytes ℤ
rate_map [] m = m
rate_map (r ∷ rates) m = rate_map rates (insert r.unit r.amount_per_unit m)

abbrev pub add64 : ℤ → ℤ → ℤ
add64 a b = wrap64 (a +ℤ b)

abbrev pub mul64 : ℤ → ℤ → ℤ
mul64 a b = wrap64 (a *ℤ b)

-- The loop over the units: the amount and the units that have no rate.
unfoldable pub charge : Assoc Bytes ℤ → List UnitQuantity → ℤ → ℤ
charge rates [] amount = amount
charge rates (q ∷ units) amount = charge rates units (elim (lookup q.unit rates) [
  | some rate ↦ add64 amount (mul64 rate q.quantity)
  | none ↦ amount
])

unfoldable pub unpriced : Assoc Bytes ℤ → List UnitQuantity → List Bytes
unpriced rates [] = []
unpriced rates (q ∷ units) =
    let rest = unpriced rates units in
    elim (lookup q.unit rates) [ some _ ↦ rest | none ↦ q.unit ∷ rest ]

-- sort.Slice by `<` on a text of each element; elements with the same text are alike.
module _ {A : Type 0} (name : A → Bytes) where
  unfoldable pub insert_sorted : A → List A → List A
  insert_sorted a [] = a ∷ []
  insert_sorted a (b ∷ sorted) =
      let rest = insert_sorted a sorted in
      if bytes_less (name b) (name a) then b ∷ rest else a ∷ b ∷ sorted

  unfoldable pub sort_by : List A → List A
  unfolding insert_sorted
  sort_by [] = []
  sort_by (a ∷ l) = insert_sorted a (sort_by l)

-- Is a time before an observation took effect, or not before it expired?
abbrev pub out_of_window : RateCardObservation → Time → Bool
out_of_window o at =
    before at o.effective_at || elim o.expires_at [ some e ↦ not (before at e) | none ↦ false ]

unfoldable pub measure_card : RateCardObservation → Card → List UnitQuantity → Measurement
unfolding rate_map charge unpriced
measure_card o card units =
    let rates = rate_map card.rates [] in
    record {
      cost = record { currency = card.currency; amount = charge rates units (pos 0) };
      source = rate_card;
      rate_card_version_id = o.version_id;
      provider_billed_customer = false;
      priced = true;
      unpriced_units = sort_by (λ u. u) (unpriced rates units);
    }

-- `now` is what time.Now says where the attempt has no time.
unfoldable pub measure_at : Time → Option Cards → Bytes → List UnitQuantity → Time → Measurement
unfolding observation_for_deployment
measure_at now none deployment units at = unmeasured false
measure_at now (some c) deployment units at =
    elim (observation_for_deployment (some c) deployment) [
      | none ↦ unmeasured false
      | some o ↦
          if out_of_window o (if is_zero at then now else at)
          then unmeasured false
          else elim (lookup deployment c.by_deployment) [
            | some card ↦ measure_card o card units
            | none ↦ unmeasured false
          ]
    ]
