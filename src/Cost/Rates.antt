-- ===== src/Cost/Rates.antt =====
-- internal/providercost/providercost.go: which units a card has a rate for.
use kaana.Prelude.{◌≡◌, ap, ◌⊎◌, inl, inr, some, List, [], ◌∷◌, arith, Bool-cases}
use kaana.Prelude.Int.{ℤ}
use kaana.Prelude.Assoc.{Assoc, lookup, insert, lookup-insert}
use kaana.Prelude.Bytes.{Bytes, bytes_eq, bytes_eq_self, bytes_eq-eq}
use kaana.Cost.{Rate, UnitQuantity, rate_map, bytes_Eq}

-- One of a card's rates is for a unit.
pub data HasRate (unit : Bytes) : List Rate → Type 0 where
  rate_here : {r : Rate} {rates : List Rate} → r.unit ≡ unit → HasRate unit (r ∷ rates)
  rate_later : {r : Rate} {rates : List Rate} → HasRate unit rates → HasRate unit (r ∷ rates)

-- Every unit has a rate.
abbrev pub AllPriced : List Rate → List UnitQuantity → Type 0
AllPriced rates [] = Unit
AllPriced rates (q ∷ units) = HasRate q.unit rates × AllPriced rates units

-- A key of a map.
abbrev pub HasKey : Bytes → Assoc Bytes ℤ → Type 0
HasKey unit m = (rate : ℤ) × (lookup unit m ≡ some rate)

insert-HasKey :
    (unit : Bytes) (r : Rate) (m : Assoc Bytes ℤ)
    → HasKey unit (insert r.unit r.amount_per_unit m)
    → (r.unit ≡ unit) ⊎ HasKey unit m
insert-HasKey unit r m (rate, e) = elim (Bool-cases (bytes_eq r.unit unit)) [
  | inl same ↦ inl (bytes_eq-eq r.unit unit same)
  | inr other ↦ inr (rate, ground (arith, e, other, lookup-insert r.unit unit r.amount_per_unit m))
]

HasKey-insert :
    (unit : Bytes) (r : Rate) (m : Assoc Bytes ℤ)
    → (r.unit ≡ unit) ⊎ HasKey unit m
    → HasKey unit (insert r.unit r.amount_per_unit m)
HasKey-insert unit r m h = elim (Bool-cases (bytes_eq r.unit unit)) [
  | inl same ↦
      (r.amount_per_unit, ground (arith, same, lookup-insert r.unit unit r.amount_per_unit m))
  | inr other ↦ elim h [
    | inl e ↦ absurd (ground (arith, other, bytes_eq_self unit, ap (λ u. bytes_eq u unit) e))
    | inr (rate, e) ↦
        (rate, ground (arith, e, other, lookup-insert r.unit unit r.amount_per_unit m))
  ]
]

pub rate_map-HasRate :
    (unit : Bytes) (rates : List Rate) (m : Assoc Bytes ℤ)
    → HasKey unit (rate_map rates m)
    → HasRate unit rates ⊎ HasKey unit m
unfolding rate_map
rate_map-HasRate unit [] m h = inr h
rate_map-HasRate unit (r ∷ rates) m h =
    elim (rate_map-HasRate unit rates (insert r.unit r.amount_per_unit m) h) [
      | inl later ↦ inl (rate_later later)
      | inr k ↦ elim (insert-HasKey unit r m k) [ inl e ↦ inl (rate_here e) | inr k' ↦ inr k' ]
    ]

pub HasKey-rate_map :
    (unit : Bytes) (rates : List Rate) (m : Assoc Bytes ℤ)
    → HasRate unit rates ⊎ HasKey unit m
    → HasKey unit (rate_map rates m)
unfolding rate_map
HasKey-rate_map unit [] m (inl h) = elim h [ ]
HasKey-rate_map unit [] m (inr k) = k
HasKey-rate_map unit (r ∷ rates) m (inl (rate_here e)) =
    HasKey-rate_map unit rates (insert r.unit r.amount_per_unit m)
      (inr (HasKey-insert unit r m (inl e)))
HasKey-rate_map unit (r ∷ rates) m (inl (rate_later h)) =
    HasKey-rate_map unit rates (insert r.unit r.amount_per_unit m) (inl h)
HasKey-rate_map unit (r ∷ rates) m (inr k) =
    HasKey-rate_map unit rates (insert r.unit r.amount_per_unit m)
      (inr (HasKey-insert unit r m (inr k)))
