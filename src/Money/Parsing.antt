-- ===== src/Money/Parsing.antt =====
-- internal/providercost/providercost.go: what ParseDecimal makes of a decimal, and of what String
-- printed.
use mathlib.Core.List.{append_assoc}
use kaana.Prelude.{
  ℕ, ◌+◌, ◌-◌, ◌*◌, ◌/◌, ◌%◌, ◌^◌, ◌≤◌, ◌≡◌, refl, ◌∙◌, true, false, [], ◌∷◌, ◌++◌, arith, leb,
  if◌then◌else◌, length, length-append, replicate, length-replicate, drop,
}
use kaana.Prelude.Int.{pos}
use kaana.Prelude.Results.{Result, ok, err}
use kaana.Prelude.Bytes.{
  Bytes, is_empty, bytes_eq_self, has_prefix, is_visible, is_visible-append, trim_space-visible,
}
use kaana.Money.{
  Money, DecimalError, exceeds, max_int64, dot, scale, major_unit, is_currency, all_digits,
  misplaced, parse_decimal, money_string, decimal, pad_decimal,
}
use kaana.Money.Digits.{
  value, value-append, value_shift, value-zeros, accumulate-value, all_digits-append,
  all_digits-zeros, contains-digits, cut-digits, pad_decimal-digits, length-pad_decimal,
  value-pad_decimal, decimal-digits, value-decimal, is_empty-decimal,
}

all_digits-visible : (s : Bytes) → all_digits s ≡ true → is_visible s ≡ true
unfolding all_digits is_visible
all_digits-visible [] h = refl
all_digits-visible (c ∷ s) h = ground (arith, all_digits-visible s)

-- A text of visible characters that begins with a digit has neither space nor sign.
misplaced-digit :
    (c : ℕ) (s : Bytes)
    → all_digits (c ∷ []) ≡ true
    → is_visible (c ∷ s) ≡ true
    → misplaced (c ∷ s) ≡ false
unfolding misplaced has_prefix all_digits
misplaced-digit c s h k = rw (trim_space-visible (c ∷ s) k, bytes_eq_self (c ∷ s)) (ground arith)

-- The amount in units of 1e-12 that a decimal stands for.
unfoldable pub scaled : Bytes → Bytes → ℕ
unfolding value
scaled whole fraction =
    value 0 whole * 10 ^ scale + value 0 fraction * 10 ^ (scale - length fraction)

abbrev pub amount_or_exceeds : Bytes → ℕ → Result DecimalError Money
amount_or_exceeds currency n =
    if leb n max_int64 then ok (record { currency = currency; amount = pos n }) else err exceeds

decimal_not-misplaced :
    (whole fraction : Bytes)
    → all_digits whole ≡ true
    → is_visible (whole ++ dot ∷ fraction) ≡ true
    → is_empty whole ≡ false
    → misplaced (whole ++ dot ∷ fraction) ≡ false
unfolding all_digits
decimal_not-misplaced [] fraction h k some_digit = cc
decimal_not-misplaced (c ∷ whole) fraction h k some_digit =
    misplaced-digit c (whole ++ dot ∷ fraction) (ground arith) k

module _ (whole fraction : Bytes) (whole_digits : all_digits whole ≡ true)
    (fraction_digits : all_digits fraction ≡ true) where
  abbrev zeros : Bytes
  zeros = replicate (scale - length fraction) 48

  padded-digits : all_digits (whole ++ fraction ++ zeros) ≡ true
  padded-digits =
      rw
        (
          all_digits-append (whole ++ fraction) zeros,
          all_digits-append whole fraction,
          whole_digits,
          fraction_digits,
          all_digits-zeros (scale - length fraction),
        )
        refl

  value-padded :
      length fraction ≤ scale → value 0 (whole ++ fraction ++ zeros) ≡ scaled whole fraction
  unfolding scaled
  value-padded h =
      let whole_width : length (fraction ++ zeros) ≡ scale = omega (
        arith,
        length-append fraction zeros,
        length-replicate {A = ℕ} (scale - length fraction) 48,
      ) in
      rw
        (
          append_assoc whole fraction zeros,
          value-append 0 whole (fraction ++ zeros),
          value_shift (value 0 whole) (fraction ++ zeros),
          whole_width,
          value-append 0 fraction zeros,
          value-zeros (value 0 fraction) (scale - length fraction),
        )
        refl

  decimal-visible : is_visible (whole ++ dot ∷ fraction) ≡ true
  unfolding is_visible
  decimal-visible =
      rw
        (
          is_visible-append whole (dot ∷ fraction),
          all_digits-visible whole whole_digits,
          all_digits-visible fraction fraction_digits,
        )
        refl

  -- A decimal with digits before the point and at most twelve after it is exactly the amount that it
  -- stands for, or is refused as too large where that amount is not an int64.
  pub parse_decimal_exact :
      (currency : Bytes)
      → is_currency currency ≡ true
      → is_empty whole ≡ false
      → length fraction ≤ scale
      → parse_decimal currency (whole ++ dot ∷ fraction)
        ≡ amount_or_exceeds currency (scaled whole fraction)
  unfolding parse_decimal
  parse_decimal_exact currency named some_digit fits =
      rw
        (
          named,
          decimal_not-misplaced whole fraction whole_digits decimal-visible some_digit,
          cut-digits whole fraction whole_digits,
          some_digit,
          contains-digits fraction fraction_digits,
          whole_digits,
          fraction_digits,
          accumulate-value 0 (whole ++ fraction ++ zeros) padded-digits (omega arith),
          value-padded fits,
        )
        (ground arith)

scaled-printed :
    (n : ℕ) → scaled (decimal (n / major_unit)) (pad_decimal scale (n % major_unit)) ≡ n
unfolding scaled
scaled-printed n =
    rw
      (
        length-pad_decimal scale (n % major_unit),
        value-decimal (n / major_unit),
        value-pad_decimal scale (n % major_unit) (omega arith),
      )
      (omega arith)

-- What String prints of an amount that is not negative, after the currency and a space, parses back
-- to the same amount.
pub parse_decimal-money_string :
    (currency : Bytes) (n : ℕ)
    → is_currency currency ≡ true
    → n ≤ max_int64
    → parse_decimal currency
        (drop 4 (money_string (record { currency = currency; amount = pos n })))
      ≡ ok (record { currency = currency; amount = pos n })
unfolding money_string is_currency
parse_decimal-money_string [] n named fits = cc
parse_decimal-money_string (a ∷ []) n named fits = cc
parse_decimal-money_string (a ∷ b ∷ []) n named fits = cc
parse_decimal-money_string (a ∷ b ∷ c ∷ d ∷ s) n named fits = cc
parse_decimal-money_string (a ∷ b ∷ c ∷ []) n named fits =
    parse_decimal_exact (decimal (n / major_unit)) (pad_decimal scale (n % major_unit))
      (decimal-digits (n / major_unit)) (pad_decimal-digits scale (n % major_unit)) (a ∷ b ∷ c ∷ [])
      named (is_empty-decimal (n / major_unit))
      (omega (arith, length-pad_decimal scale (n % major_unit)))
    ∙ rw (scaled-printed n) (ground arith)
