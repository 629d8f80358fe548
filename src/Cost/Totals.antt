-- ===== src/Cost/Totals.antt =====
-- internal/providercost/providercost.go: the totals of a request's record, one for each currency.
use kaana.Prelude.{
  ◌≡◌, refl, ap, ◌∙◌, true, false, not, ◌&&◌, Option, none, some, List, [], ◌∷◌, map, arith,
  if◌then◌else◌,
}
use kaana.Prelude.Int.{ℤ, pos}
use kaana.Prelude.Time.{Time}
use kaana.Prelude.Assoc.{Assoc, lookup, lookup-insert}
use kaana.Prelude.Bytes.{Bytes, bytes_eq, bytes_less, bytes_eq_self, bytes_eq-eq}
use kaana.Money.{Money}
use kaana.Cost.{Cards, Measurement, insert_sorted, sort_by, add64, bytes_Eq}
use kaana.Cost.Requests.{
  AttemptUsage, measure_attempt, add_total, sum_totals, money_of, measure_request,
}

-- The amount that a list of totals names for a currency.
unfoldable pub find_total : Bytes → List Money → Option ℤ
find_total currency [] = none
find_total currency (m ∷ totals) =
    if bytes_eq m.currency currency then some m.amount else find_total currency totals

-- The amounts of one currency added up in int64, over the measurements that are an expense of Kaana's
-- and have a price; `none` where there is none.
unfoldable pub currency_total : Bytes → List Measurement → Option ℤ → Option ℤ
currency_total currency [] sum = sum
currency_total currency (m ∷ measured) sum =
    let counts = m.priced && not m.provider_billed_customer && bytes_eq m.cost.currency currency in
    let held : ℤ = elim sum [ some amount ↦ amount | none ↦ pos 0 ] in
    currency_total currency measured (if counts then some (add64 held m.cost.amount) else sum)

bytes_less_irreflexive : (s : Bytes) → bytes_less s s ≡ false
unfolding bytes_less
bytes_less_irreflexive [] = refl
bytes_less_irreflexive (c ∷ s) = ground (arith, bytes_less_irreflexive s)

less_other : (s t : Bytes) → bytes_less s t ≡ true → bytes_eq t s ≡ false
less_other s t h =
    ground (arith, bytes_eq-eq t s, bytes_less_irreflexive s, λ (e : t ≡ s). ap (bytes_less s) e)

find_total-insert :
    (c : Bytes) (m : Money) (l : List Money)
    → find_total c (insert_sorted (λ n. n.currency) m l)
      ≡ (if bytes_eq m.currency c then some m.amount else find_total c l)
unfolding insert_sorted find_total
find_total-insert c m [] = refl
find_total-insert c m (n ∷ l) = ground (
  arith,
  find_total-insert c m l,
  less_other n.currency m.currency,
  bytes_eq-eq n.currency c,
  bytes_eq-eq m.currency c,
  bytes_eq_self m.currency,
)

find_total-sort_by :
    (c : Bytes) (l : List Money) → find_total c (sort_by (λ n. n.currency) l) ≡ find_total c l
unfolding sort_by find_total
find_total-sort_by c [] = refl
find_total-sort_by c (m ∷ l) =
    find_total-insert c m (sort_by (λ n. n.currency) l)
    ∙ ap (λ r. if bytes_eq m.currency c then some m.amount else r) (find_total-sort_by c l)

find_total-lookup :
    (c : Bytes) (totals : Assoc Bytes ℤ) → find_total c (map money_of totals) ≡ lookup c totals
unfolding find_total lookup
find_total-lookup c [] = refl
find_total-lookup c ((currency, amount) ∷ totals) =
    ap (λ r. if bytes_eq currency c then some amount else r) (find_total-lookup c totals)

abbrev held_of : Option ℤ → ℤ
held_of none = pos 0
held_of (some amount) = amount

lookup-add_total :
    (c : Bytes) (m : Measurement) (measured : List Measurement) (totals : Assoc Bytes ℤ)
    → currency_total c measured (lookup c (add_total m totals))
      ≡ currency_total c (m ∷ measured) (lookup c totals)
unfolding add_total currency_total
lookup-add_total c m measured totals = ap (currency_total c measured) (
    ground (
      arith,
      lookup-insert m.cost.currency c
          (add64 (held_of (lookup m.cost.currency totals)) m.cost.amount) totals,
      bytes_eq-eq m.cost.currency c,
      λ (e : m.cost.currency ≡ c). ap (λ k. lookup k totals) e,
    ))

lookup-sum_totals :
    (c : Bytes) (measured : List Measurement) (totals : Assoc Bytes ℤ)
    → lookup c (sum_totals measured totals) ≡ currency_total c measured (lookup c totals)
unfolding sum_totals currency_total
lookup-sum_totals c [] totals = refl
lookup-sum_totals c (m ∷ measured) totals =
    lookup-sum_totals c measured (add_total m totals) ∙ lookup-add_total c m measured totals

-- The total of a currency is the int64 sum of the amounts of the attempts that were priced in it and
-- that no customer was billed for, in whatever order totals are listed; a currency without such an
-- attempt has none.
pub find_total-currency_total :
    (now : Time) (c : Option Cards) (request_id : Bytes) (attempts : List AttemptUsage)
    (currency : Bytes)
    → find_total currency (measure_request now c request_id attempts).totals
      ≡ currency_total currency (map (measure_attempt now c) attempts) none
unfolding measure_request lookup
find_total-currency_total now c request_id attempts currency =
    let measured = map (measure_attempt now c) attempts in
    find_total-sort_by currency (map money_of (sum_totals measured []))
    ∙ find_total-lookup currency (sum_totals measured [])
    ∙ lookup-sum_totals currency measured []
