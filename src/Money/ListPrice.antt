-- ===== src/Money/ListPrice.antt =====
-- internal/providercost/listprice.go: a catalogue's price per token as a list price per million
-- tokens, by an exact shift of the decimal.
use mathlib.Core.List.{reverse}
use kaana.Prelude.{
  ℕ, ◌-◌, not, ◌&&◌, ◌||◌, [], ◌∷◌, ◌++◌, ◌==◌, if◌then◌else◌, length, take, drop, replicate,
}
use kaana.Prelude.Bytes.{Bytes, is_empty, bytes_eq, contains}
use kaana.Prelude.Results.{Result, ok, err, ◌>>=◌, ◌>>◌}
use kaana.Money.{dot, cut, misplaced, all_digits, DecimalError, parse_decimal}

pub record ListPrice : Type 0 where
  pub currency : Bytes
  pub input : Bytes
  pub output : Bytes

abbrev pub tokens_per_quoted_unit_exponent : ℕ
tokens_per_quoted_unit_exponent = 6

-- strings.TrimLeft(s, "0") and strings.TrimRight(s, "0")
unfoldable pub trim_left_zeros : Bytes → Bytes
trim_left_zeros [] = []
trim_left_zeros (c ∷ s) = let rest = trim_left_zeros s in if c == 48 then rest else c ∷ s

unfoldable pub trim_right_zeros : Bytes → Bytes
trim_right_zeros s = reverse (trim_left_zeros (reverse s))

abbrev pub or_zero : Bytes → Bytes
or_zero [] = 48 ∷ []
or_zero (c ∷ s) = c ∷ s

unfoldable pub canonical_decimal : Bytes → Bytes
canonical_decimal value =
    let parts = cut value in
    let whole = or_zero (trim_left_zeros parts.0) in
    let fraction = trim_right_zeros parts.1 in
    if is_empty fraction then whole else whole ++ dot ∷ fraction

-- The errors of shiftDecimal.
pub data ShiftError : Type 0 where
  not_non_negative not_decimal : ShiftError

-- The loop `for len(fraction) < exponent { fraction += "0" }`.
abbrev pub padded : Bytes → ℕ → Bytes
padded fraction exponent = fraction ++ replicate (exponent - length fraction) 48

unfoldable pub shift_decimal : Bytes → ℕ → Result ShiftError Bytes
shift_decimal value exponent =
    let parts = cut value in
    let whole = parts.0 in
    let fraction = parts.1 in
    if misplaced value
    then err not_non_negative
    else if is_empty whole || contains fraction dot || contains value dot && is_empty fraction
    then err not_decimal
    else if not (all_digits (whole ++ fraction))
    then err not_decimal
    else ok (
        canonical_decimal (
          whole
          ++ take exponent (padded fraction exponent)
          ++ dot ∷ drop exponent (padded fraction exponent)))

-- The errors of Validate and ListPriceFromPerToken: which amount, and what is wrong with it.
pub data PriceError : Type 0 where
  input_shift output_shift : ShiftError → PriceError
  input_amount output_amount : DecimalError → PriceError
  not_canonical : PriceError

abbrev pub map_err {ℓ κ μ} :
    {E : Type ℓ} {F : Type κ} {A : Type μ} → (E → F) → Result E A → Result F A
map_err f (ok a) = ok a
map_err f (err e) = err (f e)

unfoldable pub validate : ListPrice → Result PriceError ListPrice
validate p = do
  map_err input_amount (parse_decimal p.currency p.input)
  map_err output_amount (parse_decimal p.currency p.output)
  if bytes_eq (canonical_decimal p.input) p.input && bytes_eq (canonical_decimal p.output) p.output
      then ok p
      else err not_canonical

unfoldable pub list_price_from_per_token : Bytes → Bytes → Bytes → Result PriceError ListPrice
list_price_from_per_token currency input_per_token output_per_token = do
  input ← map_err input_shift (shift_decimal input_per_token tokens_per_quoted_unit_exponent)
  output ← map_err output_shift (shift_decimal output_per_token tokens_per_quoted_unit_exponent)
  validate (record { currency = currency; input = input; output = output })
