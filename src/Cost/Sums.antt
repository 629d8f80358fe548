-- ===== src/Cost/Sums.antt =====
-- internal/providercost/providercost.go: the amount of a measurement against the exact sum.
use kaana.Prelude.{
  ℕ, ◌+◌, ◌*◌, ◌^◌, ◌<◌, ◌≡◌, refl, ap, ◌∙◌, Option, none, some, List, [], ◌∷◌, arith,
}
use kaana.Prelude.Int.{ℤ, pos, negsuc, pos_part, ◌*ℤ◌, pos_sum}
use kaana.Prelude.Words.{wrap64, wrap64-pos}
use kaana.Prelude.Assoc.{Assoc, lookup, insert, lookup-insert}
use kaana.Prelude.Bytes.{Bytes}
use kaana.Prelude.Results.{ok}
use kaana.Cost.{
  Rate, Card, RateCardObservation, UnitQuantity, rate_map, charge, add64, mul64, measure_card,
  bytes_Eq,
}
use kaana.Cost.Loading.{check_rates}

-- The exact amount of a unit's quantity, and of a list of them, at the rates of a map.
abbrev unit_cost : Option ℤ → ℤ → ℕ
unit_cost none quantity = 0
unit_cost (some rate) quantity = pos_part rate * pos_part quantity

unfoldable pub units_cost : Assoc Bytes ℤ → List UnitQuantity → ℕ
units_cost rates [] = 0
units_cost rates (q ∷ units) = unit_cost (lookup q.unit rates) q.quantity + units_cost rates units

-- No quantity is negative.
pub data NoNegative : List UnitQuantity → Type 0 where
  no_units : NoNegative []
  one_more :
      {unit : Bytes} {n : ℕ} {units : List UnitQuantity}
      → NoNegative units
      → NoNegative (record { unit = unit; quantity = pos n } ∷ units)

abbrev AllPositive : Assoc Bytes ℤ → Type 0
AllPositive rates = (u : Bytes) (r : ℤ) → lookup u rates ≡ some r → r ≡ pos (pos_part r)

insert-AllPositive :
    (m : Assoc Bytes ℤ) (u : Bytes) (a : ℤ)
    → a ≡ pos (pos_part a)
    → AllPositive m
    → AllPositive (insert u a m)
insert-AllPositive m u a k p v r h = ground (arith, lookup-insert u v a m, p v r)

rate_map-AllPositive :
    (id : Bytes) (seen : List Bytes) (rates : List Rate) (m : Assoc Bytes ℤ)
    → check_rates id seen rates ≡ ok tt
    → AllPositive m
    → AllPositive (rate_map rates m)
unfolding rate_map check_rates
rate_map-AllPositive id seen [] m h p = p
rate_map-AllPositive id seen (r ∷ rates) m h p =
    rate_map-AllPositive id (r.unit ∷ seen) rates (insert r.unit r.amount_per_unit m) (ground arith)
      (insert-AllPositive m r.unit r.amount_per_unit (ground arith) p)

none_found : AllPositive []
unfolding lookup
none_found u r h = cc

product : (a b : ℕ) → pos a *ℤ pos b ≡ pos (a * b)
unfolding ◌*ℤ◌
product a b = grind arith

mul64-pos : (a b : ℕ) → a * b < 2 ^ 63 → mul64 (pos a) (pos b) ≡ pos (a * b)
mul64-pos a b h = ap wrap64 (product a b) ∙ wrap64-pos (a * b) h

add64-pos : (a b : ℕ) → a + b < 2 ^ 63 → add64 (pos a) (pos b) ≡ pos (a + b)
add64-pos a b h = ap wrap64 (pos_sum a b) ∙ wrap64-pos (a + b) h

charge-units_cost :
    (rates : Assoc Bytes ℤ)
    → AllPositive rates
    → {units : List UnitQuantity} → NoNegative units
    → (n : ℕ) → n + units_cost rates units < 2 ^ 63
    → charge rates units (pos n) ≡ pos (n + units_cost rates units)
unfolding charge units_cost
charge-units_cost rates p no_units n h = ap pos (omega arith)
charge-units_cost rates p (one_more {unit} {n = quantity} {units} more) n h =
    choose (lookup unit rates) (p unit) h (charge-units_cost rates p more)
  where
    choose :
        (found : Option ℤ)
        → ((r : ℤ) → found ≡ some r → r ≡ pos (pos_part r))
        → n + (unit_cost found (pos quantity) + units_cost rates units) < 2 ^ 63
        → ((k : ℕ)
            → k + units_cost rates units < 2 ^ 63
            → charge rates units (pos k) ≡ pos (k + units_cost rates units))
        → charge rates units
            (elim found [ none ↦ pos n | some rate ↦ add64 (pos n) (mul64 rate (pos quantity)) ])
          ≡ pos (n + (unit_cost found (pos quantity) + units_cost rates units))
    choose none positive k ih = ih n (omega arith) ∙ ap pos (omega arith)
    choose (some (negsuc r)) positive k ih = absurd (ground (arith, positive (negsuc r) refl))
    choose (some (pos r)) positive k ih =
        rw (mul64-pos r quantity (omega arith), add64-pos n (r * quantity) (omega arith))
          (ih (n + r * quantity) (omega arith) ∙ ap pos (omega arith))

-- At rates that Parse has accepted and for quantities that are not negative, the amount of a
-- measurement is exactly the sum of rate times quantity over the units that have a rate, as long as
-- that sum is an int64.
pub measure_card_exact :
    (observation : RateCardObservation) (card : Card) {units : List UnitQuantity}
    → check_rates card.deployment_id [] card.rates ≡ ok tt
    → NoNegative units
    → units_cost (rate_map card.rates []) units < 2 ^ 63
    → (measure_card observation card units).cost.amount
      ≡ pos (units_cost (rate_map card.rates []) units)
unfolding measure_card
measure_card_exact observation card {units} checked quantities fits =
    charge-units_cost (rate_map card.rates [])
      (rate_map-AllPositive card.deployment_id [] card.rates [] checked none_found) quantities 0
      (omega arith)
    ∙ ap pos (omega arith)
