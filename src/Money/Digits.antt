-- ===== src/Money/Digits.antt =====
-- Decimal digits in the amounts of internal/providercost: the number that they stand for, the loop
-- of ParseDecimal that reads them, and those that `%d` and `%012d` print.
use native.Mathlib.Numerals.{unary_clauses}
use kaana.Prelude.{
  ℕ, zero, suc, ◌+◌, ◌-◌, ◌*◌, ◌/◌, ◌%◌, ◌^◌, ◌≤◌, ◌<◌, ◌≡◌, refl, true, false, ◌&&◌, none, some,
  [], ◌∷◌, ◌++◌, arith, leb, if◌then◌else◌, length, length-append, replicate,
}
use kaana.Prelude.Bytes.{Bytes, is_empty, contains}
use kaana.Money.{max_int64, dot, all_digits, accumulate, decimal_from, decimal, pad_decimal, cut}

-- The number that digits stand for, after what `n` stands for.
unfoldable pub value : ℕ → Bytes → ℕ
value n [] = n
value n (digit ∷ s) = value (n * 10 + (digit - 48)) s

pub value-append : (n : ℕ) (s t : Bytes) → value n (s ++ t) ≡ value (value n s) t
unfolding value
value-append n [] t = refl
value-append n (digit ∷ s) t = value-append (n * 10 + (digit - 48)) s t

pow_suc : (b k : ℕ) → b ^ suc k ≡ b * b ^ k
pow_suc b k = simp unary_clauses (omega arith)

regroup : (n d p v : ℕ) → (n * 10 + d) * p + v ≡ n * (10 * p) + ((0 * 10 + d) * p + v)
regroup n d p v = grind arith

regroup_zero : (n p : ℕ) → (n * 10 + 0) * p ≡ n * (10 * p)
regroup_zero n p = grind arith

value_grows : (n : ℕ) (s : Bytes) → n ≤ value n s
unfolding value
value_grows n [] = omega arith
value_grows n (digit ∷ s) = omega (arith, value_grows (n * 10 + (digit - 48)) s)

pub value_shift : (n : ℕ) (s : Bytes) → value n s ≡ n * 10 ^ length s + value 0 s
unfolding value
value_shift n [] = omega arith
value_shift n (digit ∷ s) =
    rw
      (
        value_shift (n * 10 + (digit - 48)) s,
        value_shift (0 * 10 + (digit - 48)) s,
        pow_suc 10 (length s),
      )
      (regroup n (digit - 48) (10 ^ length s) (value 0 s))

pub value-zeros : (n k : ℕ) → value n (replicate k 48) ≡ n * 10 ^ k
unfolding value
value-zeros n zero = omega arith
value-zeros n (suc k) = rw (value-zeros (n * 10 + 0) k, pow_suc 10 k) (regroup_zero n (10 ^ k))

-- The loop of ParseDecimal: the number, unless it leaves int64.
pub accumulate-value :
    (n : ℕ) (s : Bytes)
    → all_digits s ≡ true
    → n ≤ max_int64
    → accumulate n s ≡ (if leb (value n s) max_int64 then some (value n s) else none)
unfolding accumulate value all_digits
accumulate-value n [] h k = ground arith
accumulate-value n (digit ∷ s) h k =
    ground
      (arith, value_grows (n * 10 + (digit - 48)) s, accumulate-value (n * 10 + (digit - 48)) s)

pub all_digits-append : (s t : Bytes) → all_digits (s ++ t) ≡ (all_digits s && all_digits t)
unfolding all_digits
all_digits-append [] t = refl
all_digits-append (c ∷ s) t = ground (arith, all_digits-append s t)

pub all_digits-zeros : (k : ℕ) → all_digits (replicate k 48) ≡ true
unfolding all_digits
all_digits-zeros zero = refl
all_digits-zeros (suc k) = all_digits-zeros k

pub contains-digits : (s : Bytes) → all_digits s ≡ true → contains s dot ≡ false
unfolding contains all_digits
contains-digits [] h = refl
contains-digits (c ∷ s) h = ground (arith, contains-digits s)

pub cut-digits : (s t : Bytes) → all_digits s ≡ true → cut (s ++ dot ∷ t) ≡ (s, t, true)
unfolding cut all_digits
cut-digits [] t h = refl
cut-digits (c ∷ s) t h = ground (arith, cut-digits s t)

pub cut-whole : (s : Bytes) → all_digits s ≡ true → cut s ≡ (s, [], false)
unfolding cut all_digits
cut-whole [] h = refl
cut-whole (c ∷ s) h = ground (arith, cut-whole s)

pub pad_decimal-digits : (width n : ℕ) → all_digits (pad_decimal width n) ≡ true
unfolding pad_decimal all_digits
pad_decimal-digits zero n = refl
pad_decimal-digits (suc width) n = ground (
  arith,
  all_digits-append (pad_decimal width (n / 10)) ((48 + n % 10) ∷ []),
  pad_decimal-digits width (n / 10),
)

pub length-pad_decimal : (width n : ℕ) → length (pad_decimal width n) ≡ width
unfolding pad_decimal
length-pad_decimal zero n = refl
length-pad_decimal (suc width) n = omega (
  arith,
  length-append (pad_decimal width (n / 10)) ((48 + n % 10) ∷ []),
  length-pad_decimal width (n / 10),
)

pub value-pad_decimal : (width n : ℕ) → n < 10 ^ width → value 0 (pad_decimal width n) ≡ n
unfolding pad_decimal value
value-pad_decimal zero n h = omega arith
value-pad_decimal (suc width) n h = ground (
  arith,
  pow_suc 10 width,
  value-append 0 (pad_decimal width (n / 10)) ((48 + n % 10) ∷ []),
  value-pad_decimal width (n / 10),
)

decimal_from-digits : (fuel n : ℕ) → all_digits (decimal_from fuel n) ≡ true
unfolding decimal_from all_digits
decimal_from-digits zero n = refl
decimal_from-digits (suc fuel) n = ground (
  arith,
  all_digits-append (decimal_from fuel (n / 10)) ((48 + n % 10) ∷ []),
  decimal_from-digits fuel (n / 10),
)

value-decimal_from : (fuel n : ℕ) → n < fuel → value 0 (decimal_from fuel n) ≡ n
unfolding decimal_from value
value-decimal_from zero n h = absurd (omega arith)
value-decimal_from (suc fuel) n h = ground (
  arith,
  value-append 0 (decimal_from fuel (n / 10)) ((48 + n % 10) ∷ []),
  value-decimal_from fuel (n / 10),
)

pub decimal-digits : (n : ℕ) → all_digits (decimal n) ≡ true
unfolding decimal
decimal-digits n = decimal_from-digits (suc n) n

pub value-decimal : (n : ℕ) → value 0 (decimal n) ≡ n
unfolding decimal
value-decimal n = value-decimal_from (suc n) n (omega arith)

is_empty-append : (s : Bytes) (c : ℕ) → is_empty (s ++ c ∷ []) ≡ false
is_empty-append [] c = refl
is_empty-append (_ ∷ s) c = refl

pub is_empty-decimal : (n : ℕ) → is_empty (decimal n) ≡ false
unfolding decimal decimal_from
is_empty-decimal n = ground (arith, is_empty-append (decimal_from n (n / 10)) (48 + n % 10))
