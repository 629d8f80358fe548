-- ===== src/Money.antt =====
-- internal/providercost/providercost.go and listprice.go: exact decimal amounts. An amount is an
-- int64 count of 1e-12 of a currency's major unit; a text is the list of its bytes.
pub mod Digits
pub mod Parsing
pub mod ListPrice
pub mod Canonical
pub mod Held
pub mod Shift
mod Examples
use mathlib.Core.List.{reverse}
use kaana.Prelude.{
  ℕ, zero, suc, ◌+◌, ◌-◌, ◌*◌, ◌/◌, ◌%◌, ◌^◌, Bool, true, false, not, ◌&&◌, ◌||◌, Option, none,
  some, List, [], ◌∷◌, ◌++◌, leb, ltb, ◌==◌, if◌then◌else◌, length, replicate,
}
use kaana.Prelude.Int.{ℤ, pos, negsuc}
use kaana.Prelude.Bytes.{Bytes, codes, is_empty, bytes_eq, has_prefix, trim_space, contains}
use kaana.Prelude.Results.{Result, ok, err}

abbrev pub scale : ℕ
scale = 12

abbrev pub dot : ℕ
dot = 46

abbrev pub max_int64 : ℕ
max_int64 = 9_223_372_036_854_775_807

pub record Money : Type 0 where
  pub currency : Bytes
  pub amount : ℤ

-- The errors of ParseDecimal, by the message that each formats.
pub data DecimalError : Type 0 where
  not_currency not_non_negative not_places not_digits exceeds : DecimalError

abbrev pub is_upper : ℕ → Bool
is_upper c = leb 65 c && leb c 90

-- ^[A-Z]{3}$
unfoldable pub is_currency : Bytes → Bool
is_currency (a ∷ b ∷ c ∷ []) = is_upper a && is_upper b && is_upper c
is_currency _ = false

-- strings.Cut(value, "."): what is before, what is after, and whether there is one.
unfoldable pub cut : Bytes → Bytes × Bytes × Bool
cut [] = ([], [], false)
cut (c ∷ value) =
    let rest = cut value in if c == dot then ([], value, true) else (c ∷ rest.0, rest.1, rest.2)

abbrev pub is_digit : ℕ → Bool
is_digit c = leb 48 c && leb c 57

unfoldable pub all_digits : Bytes → Bool
all_digits [] = true
all_digits (c ∷ s) = is_digit c && all_digits s

-- value == "" || TrimSpace(value) != value || HasPrefix(value, "-") || HasPrefix(value, "+")
unfoldable pub misplaced : Bytes → Bool
misplaced value =
    is_empty value
    || not (bytes_eq (trim_space value) value)
    || has_prefix value (codes "-")
    || has_prefix value (codes "+")

-- The loop over the digits.
unfoldable pub accumulate : ℕ → Bytes → Option ℕ
accumulate amount [] = some amount
accumulate amount (digit ∷ s) =
    let rest = accumulate (amount * 10 + (digit - 48)) s in
    if ltb ((max_int64 - (digit - 48)) / 10) amount then none else rest

unfoldable pub parse_decimal : Bytes → Bytes → Result DecimalError Money
parse_decimal currency value =
    let parts = cut value in
    let whole = parts.0 in
    let fraction = parts.1 in
    let padded = whole ++ fraction ++ replicate (scale - length fraction) 48 in
    let parsed : Result DecimalError Money = elim (accumulate 0 padded) [
      | some amount ↦ ok (record { currency = currency; amount = pos amount })
      | none ↦ err exceeds
    ] in
    if not (is_currency currency)
    then err not_currency
    else if misplaced value
    then err not_non_negative
    else if is_empty whole || ltb scale (length fraction) || contains fraction dot
    then err not_places
    else if not (all_digits whole && all_digits fraction)
    then err not_digits
    else parsed

-- %d, for a number that is not negative: digits from the last one, with a unit of fuel for each.
unfoldable pub decimal_from : ℕ → ℕ → Bytes
decimal_from zero n = []
decimal_from (suc fuel) n =
    let more = decimal_from fuel (n / 10) in
    if ltb n 10 then (48 + n) ∷ [] else more ++ (48 + n % 10) ∷ []

unfoldable pub decimal : ℕ → Bytes
unfolding decimal_from
decimal n = decimal_from (suc n) n

-- The last digits of a number, as many as asked for: %012d of what is under 10^12.
unfoldable pub pad_decimal : ℕ → ℕ → Bytes
pad_decimal zero n = []
pad_decimal (suc width) n = pad_decimal width (n / 10) ++ (48 + n % 10) ∷ []

abbrev pub major_unit : ℕ
major_unit = 1_000_000_000_000

unfoldable pub unsigned : Bytes → Bytes → ℕ → Bytes
unsigned currency sign n =
    currency ++ 32 ∷ (sign ++ decimal (n / major_unit) ++ dot ∷ pad_decimal scale (n % major_unit))

-- Division truncates toward zero, so the sign is that of the whole part, where it is not zero.
unfoldable pub money_string : Money → Bytes
unfolding unsigned
money_string m = if is_empty m.currency then codes "unmeasured" else elim m.amount [
  | pos n ↦ unsigned m.currency [] n
  | negsuc n ↦ unsigned m.currency (if ltb n (major_unit - 1) then [] else codes "-") (suc n)
]
