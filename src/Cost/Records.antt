-- ===== src/Cost/Records.antt =====
-- internal/providercost/providercost.go: what the record of a request says of its attempts.
use kaana.Prelude.{
  suc, ◌≡◌, ◌≢◌, ◌↔◌, refl, sym, ap, ◌∙◌, true, false, Option, none, some, List, [], ◌∷◌, map,
  arith, ◌≤◌, ◌<◌, ◌==◌, if◌then◌else◌, length, Bool-cases, Option-cases, inl, inr,
}
use kaana.Prelude.Int.{ℤ}
use kaana.Prelude.Time.{Time, is_zero}
use kaana.Prelude.Assoc.{Assoc, lookup}
use kaana.Prelude.Bytes.{Bytes}
use kaana.Money.{Money}
use kaana.Cost.{
  Cards, Card, Rate, RateCardObservation, UnitQuantity, complete, measure_at, measure_card,
  out_of_window, observation_for_deployment, rate_map, unpriced, insert_sorted, sort_by, bytes_Eq,
}
use kaana.Cost.Rates.{AllPriced, HasKey, HasKey-rate_map, rate_map-HasRate}
use kaana.Cost.Requests.{AttemptUsage, measure_attempt, all_complete, measure_request}

-- Every unit has an entry in a map of rates.
pub data AllRated (rates : Assoc Bytes ℤ) : List UnitQuantity → Type 0 where
  no_units : AllRated rates []
  rated_unit :
      {q : UnitQuantity} {units : List UnitQuantity} {rate : ℤ}
      → lookup q.unit rates ≡ some rate
      → AllRated rates units
      → AllRated rates (q ∷ units)

AllPriced-AllRated :
    (rates : List Rate) (units : List UnitQuantity)
    → AllPriced rates units
    → AllRated (rate_map rates []) units
AllPriced-AllRated rates [] h = no_units
AllPriced-AllRated rates (q ∷ units) h =
    let (rate, e) = HasKey-rate_map q.unit rates [] (inl h.0) in
    rated_unit e (AllPriced-AllRated rates units h.1)

no_key : (unit : Bytes) → HasKey unit [] → ⊥
unfolding lookup
no_key unit (rate, e) = cc

AllRated-AllPriced :
    (rates : List Rate) (units : List UnitQuantity)
    → AllRated (rate_map rates []) units
    → AllPriced rates units
AllRated-AllPriced rates [] no_units = tt
AllRated-AllPriced rates (q ∷ units) (rated_unit {rate = rate} e more) = (
  elim (rate_map-HasRate q.unit rates [] (rate, e)) [
    | inl h ↦ h
    | inr k ↦ absurd (no_key q.unit k)
  ],
  AllRated-AllPriced rates units more,
)

-- A card's prices are in force: from the moment they take effect to before the one they expire at.
pub record IsInWindow (o : RateCardObservation) (at : Time) : Type 0 where
  pub in_effect : o.effective_at ≤ at
  pub unexpired : (end : Time) → o.expires_at ≡ some end → at < end

IsInWindow-inside :
    (o : RateCardObservation) (at : Time) → IsInWindow o at → out_of_window o at ≡ false
IsInWindow-inside o at w = elim (Option-cases o.expires_at) [
  | inl e ↦ ground (arith, e, w.in_effect)
  | inr (end, e) ↦ ground (arith, e, w.in_effect, w.unexpired end e)
]

inside-IsInWindow :
    (o : RateCardObservation) (at : Time) → out_of_window o at ≡ false → IsInWindow o at
inside-IsInWindow o at h = record {
  in_effect = ground arith;
  unexpired = λ end e. ground (arith, e);
}

-- When an attempt was made: now, if it does not say.
abbrev pub moment : Time → AttemptUsage → Time
moment now a = if a.occurred_at == 0 then now else a.occurred_at

-- The three ways in which the cost of an attempt is accounted for: the provider billed the customer,
-- or said what it billed, or a card in its window has a rate for every unit.
pub data IsAccounted (now : Time) (c : Option Cards) (a : AttemptUsage) : Type 0 where
  customer : a.provider_billed_customer ≡ true → IsAccounted now c a
  reported : {cost : Money} → a.provider_reported_cost ≡ some cost → IsAccounted now c a
  rated :
      {table : Cards} {o : RateCardObservation} {card : Card}
      → c ≡ some table
      → observation_for_deployment (some table) a.deployment_id ≡ some o
      → IsInWindow o (moment now a)
      → lookup a.deployment_id table.by_deployment ≡ some card
      → AllPriced card.rates a.units
      → IsAccounted now c a

pub data AllAccounted (now : Time) (c : Option Cards) : List AttemptUsage → Type 0 where
  no_attempts : AllAccounted now c []
  accounted :
      {a : AttemptUsage} {attempts : List AttemptUsage}
      → IsAccounted now c a
      → AllAccounted now c attempts
      → AllAccounted now c (a ∷ attempts)

AllRated-unpriced :
    (rates : Assoc Bytes ℤ) (units : List UnitQuantity)
    → AllRated rates units
    → unpriced rates units ≡ []
unfolding unpriced
AllRated-unpriced rates [] no_units = refl
AllRated-unpriced rates (q ∷ units) (rated_unit found more) =
    ground (arith, found, AllRated-unpriced rates units more)

unpriced-AllRated :
    (rates : Assoc Bytes ℤ) (units : List UnitQuantity)
    → unpriced rates units ≡ []
    → AllRated rates units
unfolding unpriced
unpriced-AllRated rates [] h = no_units
unpriced-AllRated rates (q ∷ units) h =
    choose (lookup q.unit rates) refl h (unpriced-AllRated rates units)
  where
    choose :
        (found : Option ℤ)
        → lookup q.unit rates ≡ found
        → ◌≡◌ {A = List Bytes}
            (elim found [ some _ ↦ unpriced rates units | none ↦ q.unit ∷ unpriced rates units ])
            []
        → (unpriced rates units ≡ [] → AllRated rates units)
        → AllRated rates (q ∷ units)
    choose (some rate) e k ih = rated_unit e (ih k)
    choose none e k ih = cc

length-insert_sorted :
    (u : Bytes) (l : List Bytes) → length (insert_sorted (λ v. v) u l) ≡ suc (length l)
unfolding insert_sorted
length-insert_sorted u [] = refl
length-insert_sorted u (v ∷ l) = ground (arith, length-insert_sorted u l)

length-sort_by : (l : List Bytes) → length (sort_by (λ v. v) l) ≡ length l
unfolding sort_by
length-sort_by [] = refl
length-sort_by (u ∷ l) =
    omega (arith, length-insert_sorted u (sort_by (λ v. v) l), length-sort_by l)

no_length : (l : List Bytes) → length l ≡ 0 → l ≡ []
no_length [] h = refl
no_length (u ∷ l) h = absurd (omega arith)

AllRated-complete :
    (o : RateCardObservation) (card : Card) (units : List UnitQuantity)
    → AllRated (rate_map card.rates []) units
    → complete (measure_card o card units) ≡ true
unfolding complete measure_card
AllRated-complete o card units r = ground (
  arith,
  length-sort_by (unpriced (rate_map card.rates []) units),
  AllRated-unpriced (rate_map card.rates []) units r,
)

complete-AllRated :
    (o : RateCardObservation) (card : Card) (units : List UnitQuantity)
    → complete (measure_card o card units) ≡ true
    → AllRated (rate_map card.rates []) units
unfolding complete measure_card
complete-AllRated o card units h = unpriced-AllRated (rate_map card.rates []) units (
    no_length (unpriced (rate_map card.rates []) units)
      (ground (arith, length-sort_by (unpriced (rate_map card.rates []) units))))

measure_at-card :
    (now : Time) (table : Cards) (deployment : Bytes) (units : List UnitQuantity) (at : Time)
    {o : RateCardObservation} {card : Card}
    → observation_for_deployment (some table) deployment ≡ some o
    → out_of_window o (if is_zero at then now else at) ≡ false
    → lookup deployment table.by_deployment ≡ some card
    → measure_at now (some table) deployment units at ≡ measure_card o card units
unfolding measure_at
measure_at-card now table deployment units at found inside priced =
    ground (arith, found, inside, priced)

IsAccounted-complete :
    (now : Time) (c : Option Cards) (a : AttemptUsage)
    → IsAccounted now c a
    → complete (measure_attempt now c a) ≡ true
unfolding measure_attempt complete
IsAccounted-complete now c a (customer h) = ground arith
IsAccounted-complete now c a (reported h) = ground arith
IsAccounted-complete now c a (rated {table} {o} {card} t found inside priced r) =
    let measured : measure_at now c a.deployment_id a.units a.occurred_at
        ≡ measure_card o card a.units =
      rw t (
        measure_at-card now table a.deployment_id a.units a.occurred_at found
          (IsInWindow-inside o (moment now a) inside) priced) in
    ground
      (arith, measured, AllRated-complete o card a.units (AllPriced-AllRated card.rates a.units r))

-- What makes the measurement by a table complete.
measure_at-inv :
    (now : Time) (c : Option Cards) (deployment : Bytes) (units : List UnitQuantity) (at : Time)
    → complete (measure_at now c deployment units at) ≡ true
    → (table : Cards) × (o : RateCardObservation) × (card : Card) × (c ≡ some table)
      × (observation_for_deployment (some table) deployment ≡ some o)
      × (out_of_window o (if is_zero at then now else at) ≡ false)
      × (lookup deployment table.by_deployment ≡ some card)
      × (complete (measure_card o card units) ≡ true)
unfolding measure_at complete
measure_at-inv now none deployment units at h = cc
measure_at-inv now (some table) deployment units at h =
    elim (Option-cases (observation_for_deployment (some table) deployment)) [
      | inl e ↦ absurd (ground (arith, e))
      | inr (o, e) ↦ elim (Bool-cases (out_of_window o (if is_zero at then now else at))) [
        | inl w ↦ absurd (ground (arith, e, w))
        | inr w ↦ elim (Option-cases (lookup deployment table.by_deployment)) [
          | inl f ↦ absurd (ground (arith, e, w, f))
          | inr (card, f) ↦ (
            table,
            o,
            card,
            refl,
            e,
            w,
            f,
            ap complete (sym (measure_at-card now table deployment units at e w f)) ∙ h,
          )
        ]
      ]
    ]

complete-IsAccounted :
    (now : Time) (c : Option Cards) (a : AttemptUsage)
    → complete (measure_attempt now c a) ≡ true
    → IsAccounted now c a
unfolding measure_attempt
complete-IsAccounted now c a h = elim (Bool-cases a.provider_billed_customer) [
  | inl billed ↦ customer billed
  | inr ours ↦ elim (Option-cases a.provider_reported_cost) [
    | inr (cost, e) ↦ reported e
    | inl e ↦
        let measured : measure_attempt now c a
            ≡ measure_at now c a.deployment_id a.units a.occurred_at =
          ground (arith, ours, e) in
        let (table, o, card, t, found, inside, priced, all) =
          measure_at-inv now c a.deployment_id a.units a.occurred_at
            (ap complete (sym measured) ∙ h) in
        rated t found (inside-IsInWindow o (moment now a) inside) priced
          (AllRated-AllPriced card.rates a.units (complete-AllRated o card a.units all))
  ]
]

all_complete-AllAccounted :
    (now : Time) (c : Option Cards) (l : List AttemptUsage)
    → all_complete (map (measure_attempt now c) l) ≡ true
    → AllAccounted now c l
unfolding all_complete
all_complete-AllAccounted now c [] h = no_attempts
all_complete-AllAccounted now c (a ∷ l) h =
    accounted (complete-IsAccounted now c a (ground arith))
      (all_complete-AllAccounted now c l (ground arith))

AllAccounted-all_complete :
    (now : Time) (c : Option Cards) (l : List AttemptUsage)
    → AllAccounted now c l
    → all_complete (map (measure_attempt now c) l) ≡ true
unfolding all_complete
AllAccounted-all_complete now c [] no_attempts = refl
AllAccounted-all_complete now c (a ∷ l) (accounted i more) =
    ground (arith, IsAccounted-complete now c a i, AllAccounted-all_complete now c l more)

-- A record is complete exactly where there is an attempt and the cost of every attempt is accounted
-- for: billed to the customer, stated by the provider, or with a rate for every unit on a card of
-- the deployment that was in its window, from its effective time to before its expiry, at the time
-- of the attempt, or now where the attempt has none.
pub complete-AllAccounted :
    (now : Time) (c : Option Cards) (request_id : Bytes) (attempts : List AttemptUsage)
    → ((measure_request now c request_id attempts).is_complete ≡ true)
      ↔ ((attempts ≢ []) × AllAccounted now c attempts)
unfolding measure_request
complete-AllAccounted now c request_id [] = (λ h. ground arith, λ h. absurd (h.0 refl))
complete-AllAccounted now c request_id (a ∷ attempts) = (
  λ h. (λ e. cc, all_complete-AllAccounted now c (a ∷ attempts) (ground arith)),
  λ h. ground (arith, AllAccounted-all_complete now c (a ∷ attempts) h.1),
)
