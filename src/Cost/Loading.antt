-- ===== src/Cost/Loading.antt =====
-- internal/providercost/providercost.go: rate tables from decoded rate-card files. `encode` is the
-- JSON of the cards that Parse stores with an observation, and `none` where it fails.
use kaana.Prelude.{
  Bool, true, false, not, ◌&&◌, Option, none, some, List, [], ◌∷◌, ◌==◌, ℕ, if◌then◌else◌, map,
}
use kaana.Prelude.Int.{pos, ltb_ℤ}
use kaana.Prelude.Time.{Time, is_zero, after}
use kaana.Prelude.Assoc.{Assoc, lookup, insert}
use kaana.Prelude.Bytes.{Bytes, is_empty, bytes_eq, trim_space}
use kaana.Prelude.Results.{Result, ok, err, ◌>>=◌, ◌>>◌, refuse_if}
use kaana.Money.{is_currency}
use kaana.Cost.{
  Rate, Card, RateCardSource, other_source, RateCardObservation, Cards, bytes_Eq, sort_by,
}
use kaana.Cost.Events.{unit_valid, is_member}

pub record CardFile : Type 0 where
  pub schema_version : ℕ
  pub version_id : Bytes
  pub source : RateCardSource
  pub source_version : Bytes
  pub observed_at : Time
  pub effective_at : Time
  pub expires_at : Option Time
  pub rate_cards : List Card

-- The errors of Parse and combine, by the message that each formats.
pub data CardsError : Type 0 where
  incomplete_observation : CardsError
  invalid_source : Bytes → CardsError
  invalid_window : CardsError
  no_cards : CardsError
  no_deployment : CardsError
  no_currency : Bytes → Bytes → CardsError
  no_rates : Bytes → CardsError
  negative_input_tokens : Bytes → CardsError
  priced_twice : Bytes → CardsError
  unknown_unit : Bytes → Bytes → CardsError
  negative_rate : Bytes → Bytes → CardsError
  repeated_rate : Bytes → Bytes → CardsError
  encoding : CardsError
  duplicate_version : Bytes → CardsError
  two_observations : Bytes → CardsError

-- The loop over the rates of a card; `seen` holds the units before.
unfoldable pub check_rates : Bytes → List Bytes → List Rate → Result CardsError (Unit {0})
check_rates id seen [] = ok tt
check_rates id seen (r ∷ rates) =
    let rest = check_rates id (r.unit ∷ seen) rates in
    if not (unit_valid r.unit)
    then err (unknown_unit id r.unit)
    else if ltb_ℤ r.amount_per_unit (pos 0)
    then err (negative_rate id r.unit)
    else if is_member r.unit seen
    then err (repeated_rate id r.unit)
    else rest

abbrev no_rates_left : List Rate → Bool
no_rates_left [] = true
no_rates_left (_ ∷ _) = false

unfoldable pub check_card : Assoc Bytes Card → Card → Result CardsError (Unit {0})
check_card priced card =
    let id = card.deployment_id in
    if is_empty id
    then err no_deployment
    else if not (is_currency card.currency)
    then err (no_currency id card.currency)
    else if no_rates_left card.rates
    then err (no_rates id)
    else if ltb_ℤ card.request_input_tokens (pos 0)
    then err (negative_input_tokens id)
    else elim (lookup id priced) [
      | some _ ↦ err (priced_twice id)
      | none ↦ check_rates id [] card.rates
    ]

-- The loop over the cards of a file.
unfoldable pub add_cards : Bytes → List Card → Cards → Result CardsError Cards
add_cards version_id [] c = ok c
add_cards version_id (card ∷ cards) c = do
  check_card c.by_deployment card
  add_cards version_id cards (record c {
    by_deployment = insert card.deployment_id card c.by_deployment;
    deployment_observation = insert card.deployment_id version_id c.deployment_observation;
  })

abbrev pub no_table : Cards
no_table = record { by_deployment = []; observations = []; deployment_observation = [] }

abbrev trimmed : Bytes → Bool
trimmed s = bytes_eq (trim_space s) s && not (is_empty s)

unfoldable pub check_source_of : RateCardSource → Result CardsError (Unit {0})
check_source_of (other_source s) = err (invalid_source s)
check_source_of _ = ok tt

unfoldable pub check_window : CardFile → Result CardsError (Unit {0})
check_window f = elim f.expires_at [
  | none ↦ ok tt
  | some e ↦ if after e f.effective_at then ok tt else err invalid_window
]

unfoldable pub check_cards_declared : List Card → Result CardsError (Unit {0})
check_cards_declared [] = err no_cards
check_cards_declared (_ ∷ _) = ok tt

module _ (encode : List Card → Option Bytes) where
  -- Parse, after the JSON is decoded.
  unfoldable pub parse : CardFile → Result CardsError Cards
  parse f = do
    let identified =
        f.schema_version == 1
        && trimmed f.version_id
        && trimmed f.source_version
        && not (is_zero f.observed_at)
        && not (is_zero f.effective_at)
    refuse_if (not identified) incomplete_observation
    check_source_of f.source
    check_window f
    check_cards_declared f.rate_cards
    c ← add_cards f.version_id f.rate_cards no_table
    elim (encode f.rate_cards) [
      | none ↦ err encoding
      | some encoded ↦
          let observation : RateCardObservation = record {
            version_id = f.version_id;
            source = f.source;
            source_version = f.source_version;
            observed_at = f.observed_at;
            effective_at = f.effective_at;
            expires_at = f.expires_at;
            rate_cards = encoded;
          } in
          ok (record c { observations = insert f.version_id observation c.observations })
    ]

-- The loops of combine over one table.
unfoldable pub add_observations :
    List (Bytes × RateCardObservation)
    → Assoc Bytes RateCardObservation
    → Result CardsError (Assoc Bytes RateCardObservation)
add_observations [] held = ok held
add_observations ((id, o) ∷ observations) held = elim (lookup id held) [
  | some _ ↦ err (duplicate_version id)
  | none ↦ add_observations observations (insert id o held)
]

abbrev pub or_empty : Option Bytes → Bytes
or_empty none = []
or_empty (some s) = s

unfoldable pub add_priced :
    Assoc Bytes Bytes → List (Bytes × Card) → Cards → Result CardsError Cards
add_priced named [] c = ok c
add_priced named ((id, card) ∷ cards) c = elim (lookup id c.by_deployment) [
  | some _ ↦ err (two_observations id)
  | none ↦ add_priced named cards (record c {
    by_deployment = insert id card c.by_deployment;
    deployment_observation = insert id (or_empty (lookup id named)) c.deployment_observation;
  })
]

unfoldable pub add_table : Cards → Cards → Result CardsError Cards
unfolding add_observations add_priced
add_table table c = do
  observations ← add_observations table.observations c.observations
  add_priced table.deployment_observation table.by_deployment
      (record c { observations = observations })

unfoldable pub combine_from : List Cards → Cards → Result CardsError Cards
combine_from [] c = ok c
combine_from (table ∷ tables) c = do next ← add_table table c; combine_from tables next

unfoldable pub combine : List Cards → Result CardsError Cards
unfolding combine_from
combine tables = combine_from tables no_table

-- Observation: of a table of one document only.
unfoldable pub only_observation : Option Cards → Option RateCardObservation
only_observation none = none
only_observation (some c) = only c.observations
  where
    only : Assoc Bytes RateCardObservation → Option RateCardObservation
    only ((_, o) ∷ []) = some o
    only _ = none

-- Observations, in the order of their ids.
unfoldable pub all_observations : Option Cards → List RateCardObservation
all_observations none = []
all_observations (some c) = map (λ o. o.1) (sort_by (λ o. o.0) c.observations)
