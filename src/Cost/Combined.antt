-- ===== src/Cost/Combined.antt =====
-- internal/providercost/providercost.go: what the combination of several rate tables prices.
use kaana.Prelude.{
  ℕ, ◌+◌, ◌≤◌, ◌≡◌, ap, Option, none, some, List, [], ◌∷◌, arith, Option-cases, inl, inr,
}
use kaana.Prelude.Assoc.{Assoc, lookup, insert, lookup-insert}
use kaana.Prelude.Bytes.{Bytes, bytes_eq-eq}
use kaana.Prelude.Results.{ok, Result-cases}
use kaana.Cost.{Card, Cards, bytes_Eq}
use kaana.Cost.Loading.{
  or_empty, add_observations, add_priced, add_table, combine_from, combine, no_table,
}

-- The card of the first table that prices a deployment, and how many of them price it.
unfoldable pub first_card : Bytes → List Cards → Option Card
first_card id [] = none
first_card id (table ∷ tables) = elim (lookup id table.by_deployment) [
  | some card ↦ some card
  | none ↦ first_card id tables
]

abbrev priced_by : Option Card → ℕ
priced_by none = 0
priced_by (some _) = 1

unfoldable pub pricing : Bytes → List Cards → ℕ
pricing id [] = 0
pricing id (table ∷ tables) = priced_by (lookup id table.by_deployment) + pricing id tables

abbrev or_else : Option Card → Option Card → Option Card
or_else (some card) other = some card
or_else none other = other

-- What a deployment has after the cards of a table are added, and that it had none if they price it.
add_priced-lookup :
    (named : Assoc Bytes Bytes) (cards : Assoc Bytes Card) (c c' : Cards) (id : Bytes)
    → add_priced named cards c ≡ ok c'
    → (lookup id c'.by_deployment ≡ or_else (lookup id c.by_deployment) (lookup id cards))
      × (priced_by (lookup id c.by_deployment) + priced_by (lookup id cards) ≤ 1)
unfolding add_priced lookup
add_priced-lookup named [] c c' id h = (ground arith, ground arith)
add_priced-lookup named ((j, card) ∷ cards) c c' id h =
    elim (Option-cases (lookup j c.by_deployment)) [
      | inr (_, held) ↦ absurd (ground (arith, held))
      | inl free ↦
          let next : Cards = record c {
            by_deployment = insert j card c.by_deployment;
            deployment_observation = insert j (or_empty (lookup j named)) c.deployment_observation;
          } in
          let (found, once) = add_priced-lookup named cards next c' id (ground (arith, free)) in
          (
            ground (
              arith,
              found,
              free,
              lookup-insert j id card c.by_deployment,
              bytes_eq-eq j id,
              λ (e : j ≡ id). ap (λ k. lookup k c.by_deployment) e,
            ),
            ground (
              arith,
              once,
              free,
              lookup-insert j id card c.by_deployment,
              bytes_eq-eq j id,
              λ (e : j ≡ id). ap (λ k. lookup k c.by_deployment) e,
            ),
          )
    ]

add_table-lookup :
    (table c c' : Cards) (id : Bytes)
    → add_table table c ≡ ok c'
    → (lookup id c'.by_deployment
        ≡ or_else (lookup id c.by_deployment) (lookup id table.by_deployment))
      × (priced_by (lookup id c.by_deployment) + priced_by (lookup id table.by_deployment) ≤ 1)
unfolding add_table
add_table-lookup table c c' id h =
    elim (Result-cases (add_observations table.observations c.observations)) [
      | inr (failure, e) ↦ absurd (ground (arith, e))
      | inl (observations, e) ↦
          add_priced-lookup table.deployment_observation table.by_deployment
            (record c { observations = observations }) c' id (ground (arith, e))
    ]

combine_from-lookup :
    (tables : List Cards) (c c' : Cards) (id : Bytes)
    → combine_from tables c ≡ ok c'
    → (lookup id c'.by_deployment ≡ or_else (lookup id c.by_deployment) (first_card id tables))
      × (priced_by (lookup id c.by_deployment) + pricing id tables ≤ 1)
unfolding combine_from first_card pricing
combine_from-lookup [] c c' id h = (ground arith, ground arith)
combine_from-lookup (table ∷ tables) c c' id h = elim (Result-cases (add_table table c)) [
  | inr (failure, e) ↦ absurd (ground (arith, e))
  | inl (next, e) ↦
      let (found, once) = combine_from-lookup tables next c' id (ground (arith, e)) in
      let (step, one) = add_table-lookup table c next id e in
      (ground (arith, found, once, step, one), ground (arith, found, once, step, one))
]

-- Where tables are combined, a deployment is priced by one of them at most, and has the card that it
-- has there; a deployment that none of them prices has none.
pub combine-first_card :
    (tables : List Cards) (c : Cards) (id : Bytes)
    → combine tables ≡ ok c
    → (lookup id c.by_deployment ≡ first_card id tables) × (pricing id tables ≤ 1)
unfolding combine lookup
combine-first_card tables c id h =
    let (found, once) = combine_from-lookup tables no_table c id h in (found, omega arith)
