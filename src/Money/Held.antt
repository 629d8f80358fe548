-- ===== src/Money/Held.antt =====
-- internal/providercost/providercost.go: what a decimal that ParseDecimal accepts is held as.
use kaana.Prelude.{
  ℕ, ◌-◌, ◌*◌, ◌^◌, ◌≤◌, ◌≡◌, sym, ◌∙◌, true, some, ◌++◌, arith, length, replicate, Option-cases,
  inl, inr,
}
use kaana.Prelude.Results.{ok}
use kaana.Prelude.Bytes.{Bytes}
use kaana.Money.{Money, scale, max_int64, cut, all_digits, accumulate, parse_decimal}
use kaana.Money.Digits.{
  value, value-append, value-zeros, accumulate-value, all_digits-append, all_digits-zeros,
}
use kaana.Money.Canonical.{numerator, places}

-- A decimal that is a count of 1e-12 and an int64.
pub record IsHeld (v : Bytes) : Type 0 where
  pub fine : places v ≤ 12
  pub small : numerator v * 10 ^ (12 - places v) ≤ 9_223_372_036_854_775_807

abbrev padding : Bytes → Bytes
padding v = replicate (scale - length (cut v).1) 48

abbrev digits : Bytes → Bytes
digits v = (cut v).0 ++ (cut v).1 ++ padding v

parse_decimal-inv :
    (currency v : Bytes) (m : Money)
    → parse_decimal currency v ≡ ok m
    → (n : ℕ) × (accumulate 0 (digits v) ≡ some n)
      × (length (cut v).1 ≤ scale)
      × (all_digits (cut v).0 ≡ true)
      × (all_digits (cut v).1 ≡ true)
unfolding parse_decimal
parse_decimal-inv currency v m h = elim (Option-cases (accumulate 0 (digits v))) [
  | inl e ↦ absurd (ground (arith, e, h))
  | inr (n, e) ↦ (n, e, ground (arith, h), ground (arith, h), ground (arith, h))
]

pub parse_decimal-IsHeld :
    (currency v : Bytes) (m : Money) → parse_decimal currency v ≡ ok m → IsHeld v
unfolding numerator places
parse_decimal-IsHeld currency v m h =
    let (n, read, fine, whole, fraction) = parse_decimal-inv currency v m h in
    let all : all_digits (digits v) ≡ true = ground (
      arith,
      all_digits-append ((cut v).0 ++ (cut v).1) (padding v),
      all_digits-append (cut v).0 (cut v).1,
      all_digits-zeros (scale - length (cut v).1),
      whole,
      fraction,
    ) in
    let bounded : value 0 (digits v) ≤ max_int64 =
      ground (arith, read, accumulate-value 0 (digits v) all (omega arith)) in
    let shifted : value 0 (digits v)
        ≡ value 0 ((cut v).0 ++ (cut v).1) * 10 ^ (scale - length (cut v).1) =
      value-append 0 ((cut v).0 ++ (cut v).1) (padding v)
      ∙ value-zeros (value 0 ((cut v).0 ++ (cut v).1)) (scale - length (cut v).1) in
    record { fine = fine; small = rw (sym shifted) bounded }
