-- ===== src/Money/Examples.antt =====
-- Amounts and list prices of internal/providercost.
use kaana.Prelude.{◌≡◌, refl, ◌*◌, ◌^◌, List, [], ◌∷◌, ◌++◌, drop, arith}
use kaana.Prelude.Int.{pos, negsuc}
use kaana.Prelude.Bytes.{Bytes, codes}
use kaana.Prelude.Results.{ok, err}
use kaana.Money.{Money, exceeds, not_places, not_non_negative, parse_decimal, money_string, dot}
use kaana.Money.Parsing.{parse_decimal_exact, parse_decimal-money_string}
use kaana.Money.ListPrice.{ListPrice, list_price_from_per_token, not_decimal, input_shift}
use kaana.Money.Canonical.{numerator, places}
use kaana.Money.Held.{IsHeld}
use kaana.Money.Shift.{list_price_exact}

abbrev usd : Bytes
usd = codes "USD"

abbrev money : Bytes
money = codes "12.5"

reads_amount :
    parse_decimal usd money
    ≡ ok (record { currency = codes "USD"; amount = pos 12_500_000_000_000 })
unfolding parse_decimal kaana.Money.misplaced kaana.Money.is_currency kaana.Money.cut
    kaana.Money.all_digits kaana.Money.accumulate kaana.Prelude.Bytes.trim_space
    kaana.Prelude.Bytes.bytes_eq kaana.Prelude.Bytes.has_prefix kaana.Prelude.Bytes.contains
reads_amount = refl

refuses_large : parse_decimal usd (codes "9223372.036854775808") ≡ err exceeds
unfolding parse_decimal kaana.Money.misplaced kaana.Money.is_currency kaana.Money.cut
    kaana.Money.all_digits kaana.Money.accumulate kaana.Prelude.Bytes.trim_space
    kaana.Prelude.Bytes.bytes_eq kaana.Prelude.Bytes.has_prefix kaana.Prelude.Bytes.contains
refuses_large = refl

-- The sign of an amount between -1 and 0 is not printed.
prints_small_negative :
    money_string (record { currency = usd; amount = negsuc 4 }) ≡ codes "USD 0.000000000005"
unfolding money_string kaana.Money.decimal kaana.Money.pad_decimal
prints_small_negative = refl

parse_decimal_exact_example :
    parse_decimal usd (codes "9223372" ++ dot ∷ codes "036854775808") ≡ err exceeds
unfolding kaana.Money.Parsing.scaled kaana.Money.is_currency kaana.Money.all_digits
parse_decimal_exact_example =
    parse_decimal_exact (codes "9223372") (codes "036854775808") refl refl usd refl refl
      (omega arith)

parse_decimal-money_string_example :
    parse_decimal usd (drop 4 (money_string (record { currency = usd; amount = pos 70 })))
    ≡ ok (record { currency = usd; amount = pos 70 })
unfolding kaana.Money.is_currency
parse_decimal-money_string_example = parse_decimal-money_string usd 70 refl (omega arith)

abbrev quarter_per_million : ListPrice
quarter_per_million = record { currency = usd; input = codes "0.25"; output = codes "10" }

list_price_exact_example :
    (numerator (codes "0.25") * 10 ^ places (codes "0.00000025")
      ≡ numerator (codes "0.00000025") * (10 ^ 6 * 10 ^ places (codes "0.25")))
    × (numerator (codes "10") * 10 ^ places (codes "0.000010")
        ≡ numerator (codes "0.000010") * (10 ^ 6 * 10 ^ places (codes "10")))
    × (usd ≡ usd)
    × IsHeld (codes "0.25")
    × IsHeld (codes "10")
unfolding list_price_from_per_token kaana.Money.ListPrice.validate
    kaana.Money.ListPrice.shift_decimal kaana.Money.ListPrice.canonical_decimal
    kaana.Money.ListPrice.trim_left_zeros kaana.Money.ListPrice.trim_right_zeros parse_decimal
    kaana.Money.misplaced kaana.Money.is_currency kaana.Money.cut kaana.Money.all_digits
    kaana.Money.accumulate kaana.Prelude.Bytes.trim_space kaana.Prelude.Bytes.bytes_eq
    kaana.Prelude.Bytes.has_prefix kaana.Prelude.Bytes.contains
list_price_exact_example =
    list_price_exact usd (codes "0.00000025") (codes "0.000010") quarter_per_million refl
