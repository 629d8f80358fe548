-- ===== src/Money/Canonical.antt =====
-- internal/providercost/listprice.go: a shifted decimal is exact, and is spelled in one way.
use native.Mathlib.Numerals.{unary_clauses}
use native.Mathlib.Nat.{pow-zero}
use mathlib.Core.List.{reverse, reverse-append, reverse-reverse, reverse-cons}
use kaana.Prelude.{
  ℕ, zero, suc, ◌+◌, ◌-◌, ◌*◌, ◌^◌, ◌<◌, ◌≡◌, refl, sym, ap, ◌∙◌, Bool, true, false, [], ◌∷◌, ◌++◌,
  arith, ◌==◌, if◌then◌else◌, length, length-append, replicate, length-replicate,
}
use kaana.Prelude.Bytes.{Bytes, is_empty}
use kaana.Money.{dot, cut, all_digits}
use kaana.Money.ListPrice.{trim_left_zeros, trim_right_zeros, or_zero, canonical_decimal}
use kaana.Money.Digits.{value, value-append, value-zeros, cut-digits, cut-whole}

-- The digits of a decimal as one number, and how many of them are after the point: the decimal is
-- the first over 10 to the second.
unfoldable pub numerator : Bytes → ℕ
unfolding value cut
numerator v = value 0 ((cut v).0 ++ (cut v).1)

unfoldable pub places : Bytes → ℕ
unfolding cut
places v = length (cut v).1

pow_suc : (b k : ℕ) → b ^ suc k ≡ b * b ^ k
pow_suc b k = simp unary_clauses (omega arith)

pub pow_add : (b m n : ℕ) → b ^ (m + n) ≡ b ^ m * b ^ n
pow_add b zero n = let empty : 0 + n ≡ n = omega arith in rw (empty, pow-zero b) (omega arith)
pow_add b (suc m) n =
    let shifted : suc m + n ≡ suc (m + n) = omega arith in
    rw (shifted, pow_suc b (m + n), pow_add b m n, pow_suc b m) (grind arith)

pow_pos : (k : ℕ) → 0 < 10 ^ k
pow_pos zero = omega arith
pow_pos (suc k) = rw (pow_suc 10 k) (omega (arith, pow_pos k))

value-trim_left : (s : Bytes) → value 0 (trim_left_zeros s) ≡ value 0 s
unfolding value trim_left_zeros
value-trim_left [] = refl
value-trim_left (c ∷ s) = choose (c == 48) refl (value-trim_left s)
  where
    choose :
        (b : Bool)
        → (c == 48) ≡ b
        → value 0 (trim_left_zeros s) ≡ value 0 s
        → value 0 (trim_left_zeros (c ∷ s)) ≡ value 0 (c ∷ s)
    choose true e ih = let zeros : 0 * 10 + (c - 48) ≡ 0 = ground (arith, e) in rw (e, zeros) ih
    choose false e ih = rw e refl

value-or_zero : (s : Bytes) → value 0 (or_zero s) ≡ value 0 s
unfolding value
value-or_zero [] = refl
value-or_zero (c ∷ s) = refl

replicate-last : (k c : ℕ) → replicate k c ++ c ∷ [] ≡ c ∷ replicate k c
replicate-last zero c = refl
replicate-last (suc k) c = ap (λ s. c ∷ s) (replicate-last k c)

reverse-replicate : (k c : ℕ) → reverse (replicate k c) ≡ replicate k c
reverse-replicate zero c = refl
reverse-replicate (suc k) c =
    reverse-cons c (replicate k c)
    ∙ ap (λ s. s ++ c ∷ []) (reverse-replicate k c)
    ∙ replicate-last k c

leading : Bytes → ℕ
leading [] = 0
leading (c ∷ s) = if c == 48 then suc (leading s) else 0

trim_left_zeros_split : (s : Bytes) → s ≡ replicate (leading s) 48 ++ trim_left_zeros s
unfolding leading trim_left_zeros
trim_left_zeros_split [] = refl
trim_left_zeros_split (c ∷ s) = choose (c == 48) refl (trim_left_zeros_split s)
  where
    choose :
        (b : Bool)
        → (c == 48) ≡ b
        → s ≡ replicate (leading s) 48 ++ trim_left_zeros s
        → c ∷ s ≡ replicate (leading (c ∷ s)) 48 ++ trim_left_zeros (c ∷ s)
    choose true e ih = rw e (ground (arith, e, ih))
    choose false e ih = rw e refl

-- What is trimmed at the end are zeros.
trailing : Bytes → ℕ
trailing s = leading (reverse s)

trim_right_zeros_split : (s : Bytes) → s ≡ trim_right_zeros s ++ replicate (trailing s) 48
unfolding trim_right_zeros trailing
trim_right_zeros_split s =
    sym (reverse-reverse s)
    ∙ ap reverse (trim_left_zeros_split (reverse s))
    ∙ reverse-append (replicate (leading (reverse s)) 48) (trim_left_zeros (reverse s))
    ∙ ap (λ t. reverse (trim_left_zeros (reverse s)) ++ t)
        (reverse-replicate (leading (reverse s)) 48)

pub all_digits-trimmed : (s : Bytes) → all_digits s ≡ true → all_digits (trim_left_zeros s) ≡ true
unfolding all_digits trim_left_zeros
all_digits-trimmed [] h = refl
all_digits-trimmed (c ∷ s) h = ground (arith, all_digits-trimmed s)

all_digits-or_zero : (s : Bytes) → all_digits s ≡ true → all_digits (or_zero s) ≡ true
unfolding all_digits
all_digits-or_zero [] h = refl
all_digits-or_zero (c ∷ s) h = h

-- The parts of a canonical decimal.
pub cut-canonical :
    (whole fraction : Bytes)
    → all_digits whole ≡ true
    → let c = cut (canonical_decimal (whole ++ dot ∷ fraction)) in
      (c.0 ≡ or_zero (trim_left_zeros whole)) × (c.1 ≡ trim_right_zeros fraction)
unfolding canonical_decimal
cut-canonical whole fraction h =
    rw (cut-digits whole fraction h) (choose (trim_right_zeros fraction))
  where
    front : Bytes
    front = or_zero (trim_left_zeros whole)

    front_digits : all_digits front ≡ true
    front_digits = all_digits-or_zero (trim_left_zeros whole) (all_digits-trimmed whole h)

    choose :
        (f : Bytes)
        → let c = cut (if is_empty f then front else front ++ dot ∷ f) in (c.0 ≡ front) × (c.1 ≡ f)
    choose [] = rw (cut-whole front front_digits) (refl, refl)
    choose (d ∷ f) = rw (cut-digits front (d ∷ f) front_digits) (refl, refl)

regroup : (n p q : ℕ) → n * (p * q) ≡ n * q * p
regroup n p q = grind arith

-- Trimming zeros keeps the number.
pub canonical_decimal_exact :
    (whole fraction : Bytes)
    → all_digits whole ≡ true
    → numerator (canonical_decimal (whole ++ dot ∷ fraction)) * 10 ^ length fraction
      ≡ value 0 (whole ++ fraction) * 10 ^ places (canonical_decimal (whole ++ dot ∷ fraction))
unfolding numerator places
canonical_decimal_exact whole fraction h =
    let (front, back) = cut-canonical whole fraction h in
    rw
      (
        front,
        back,
        value-append 0 (or_zero (trim_left_zeros whole)) (trim_right_zeros fraction),
        value-or_zero (trim_left_zeros whole),
        value-trim_left whole,
        widths,
        values,
      )
      (regroup (value (value 0 whole) (trim_right_zeros fraction))
        (10 ^ length (trim_right_zeros fraction)) (10 ^ trailing fraction))
  where
    widths : 10 ^ length fraction ≡ 10 ^ length (trim_right_zeros fraction) * 10 ^ trailing fraction
    widths =
        let whole_length : length fraction
            ≡ length (trim_right_zeros fraction) + trailing fraction =
          ap length (trim_right_zeros_split fraction)
          ∙ omega (
            arith,
            length-append (trim_right_zeros fraction) (replicate (trailing fraction) 48),
            length-replicate {A = ℕ} (trailing fraction) 48,
          ) in
        ap (λ k. 10 ^ k) whole_length
        ∙ pow_add 10 (length (trim_right_zeros fraction)) (trailing fraction)

    values :
        value 0 (whole ++ fraction)
        ≡ value (value 0 whole) (trim_right_zeros fraction) * 10 ^ trailing fraction
    values =
        value-append 0 whole fraction
        ∙ ap (value (value 0 whole)) (trim_right_zeros_split fraction)
        ∙ value-append (value 0 whole) (trim_right_zeros fraction)
            (replicate (trailing fraction) 48)
        ∙ value-zeros (value (value 0 whole) (trim_right_zeros fraction)) (trailing fraction)
