-- ===== src/Money/Shift.antt =====
-- internal/providercost/listprice.go: a price per token and the list price that is made of it.
use mathlib.Core.Path.{subst}
use mathlib.Core.List.{append_assoc}
use kaana.Prelude.{
  ℕ, zero, suc, ◌+◌, ◌-◌, ◌*◌, ◌^◌, ◌≡◌, refl, sym, ap, ◌∙◌, inl, inr, true, [], ◌∷◌, ◌++◌, arith,
  length, length-append, take, drop, min, replicate, length-replicate, length-drop,
  take-append-drop,
}
use kaana.Prelude.Bytes.{Bytes}
use kaana.Prelude.Results.{ok, Result-cases}
use kaana.Money.{Money, dot, cut, all_digits, parse_decimal}
use kaana.Money.Held.{IsHeld, parse_decimal-IsHeld}
use kaana.Money.ListPrice.{
  canonical_decimal, padded, shift_decimal, ListPrice, list_price_from_per_token, validate,
}
use kaana.Money.Digits.{value, value-append, value-zeros, all_digits-append, all_digits-zeros}
use kaana.Money.Canonical.{numerator, places, pow_add, canonical_decimal_exact}

all_digits-take : (n : ℕ) (s : Bytes) → all_digits s ≡ true → all_digits (take n s) ≡ true
unfolding all_digits
all_digits-take zero s h = refl
all_digits-take (suc n) [] h = refl
all_digits-take (suc n) (c ∷ s) h = ground (arith, all_digits-take n s)

-- The decimal whose point is moved, before it is made canonical.
abbrev moved : Bytes → Bytes → ℕ → Bytes
moved whole fraction exponent =
    whole
    ++ take exponent (padded fraction exponent)
    ++ dot ∷ drop exponent (padded fraction exponent)

shift_decimal_ok :
    (v : Bytes) (exponent : ℕ) {c : Bytes}
    → shift_decimal v exponent ≡ ok c
    → (all_digits ((cut v).0 ++ (cut v).1) ≡ true)
      × (canonical_decimal (moved (cut v).0 (cut v).1 exponent) ≡ c)
unfolding shift_decimal
shift_decimal_ok v exponent h = ground arith

module _ (whole fraction : Bytes) (digits : all_digits (whole ++ fraction) ≡ true) (e : ℕ) where
  abbrev front : Bytes
  front = whole ++ take e (padded fraction e)

  abbrev back : Bytes
  back = drop e (padded fraction e)

  front_digits : all_digits front ≡ true
  front_digits = ground (
    arith,
    all_digits-append whole fraction,
    all_digits-append fraction (replicate (e - length fraction) 48),
    all_digits-zeros (e - length fraction),
    all_digits-take e (padded fraction e),
    all_digits-append whole (take e (padded fraction e)),
  )

  length-back : length back ≡ length fraction - e
  length-back = omega (
    arith,
    length-drop e (padded fraction e),
    length-append fraction (replicate (e - length fraction) 48),
    length-replicate {A = ℕ} (e - length fraction) 48,
  )

  value-moved : value 0 (front ++ back) ≡ value 0 (whole ++ fraction) * 10 ^ (e - length fraction)
  value-moved =
      let whole_text : front ++ back ≡ (whole ++ fraction) ++ replicate (e - length fraction) 48 =
        append_assoc whole (take e (padded fraction e)) back
        ∙ ap (λ s. whole ++ s) (take-append-drop e (padded fraction e))
        ∙ sym (append_assoc whole fraction (replicate (e - length fraction) 48)) in
      rw (whole_text, value-append 0 (whole ++ fraction) (replicate (e - length fraction) 48))
        (value-zeros (value 0 (whole ++ fraction)) (e - length fraction))

  moved_exact :
      numerator (canonical_decimal (moved whole fraction e)) * 10 ^ (length fraction - e)
      ≡ value 0 (whole ++ fraction)
        * 10 ^ (e - length fraction)
        * 10 ^ places (canonical_decimal (moved whole fraction e))
  moved_exact =
      ap (λ k. numerator (canonical_decimal (moved whole fraction e)) * 10 ^ k) (sym length-back)
      ∙ canonical_decimal_exact front back front_digits
      ∙ ap (λ n. n * 10 ^ places (canonical_decimal (moved whole fraction e))) value-moved

-- 10 ^ (l - e) * 10 ^ min l e is 10 ^ l
pow-sub_min : (l e : ℕ) → 10 ^ (l - e) * 10 ^ min l e ≡ 10 ^ l
pow-sub_min l e =
    let whole : (l - e) + min l e ≡ l = omega arith in
    sym (pow_add 10 (l - e) (min l e)) ∙ ap (λ k. 10 ^ k) whole

min_comm : (a b : ℕ) → min a b ≡ min b a
min_comm a b = omega arith

rescale : (n m p q r s t u : ℕ) → n * p ≡ m * q * r → p * s ≡ t → q * s ≡ u → n * t ≡ m * (u * r)
rescale n m p q r s t u h k l =
    let left : n * t ≡ n * p * s = rw (sym k) (grind arith) in
    let right : m * (u * r) ≡ m * q * r * s = rw (sym l) (grind arith) in
    left ∙ ap (λ x. x * s) h ∙ sym right

-- A shift by `exponent` places multiplies a decimal by 10 ^ exponent exactly, whatever the number of
-- its digits; a decimal is its digits as one number over 10 to the number of its places.
pub shift_decimal_exact :
    (v : Bytes) (exponent : ℕ) (c : Bytes)
    → shift_decimal v exponent ≡ ok c
    → numerator c * 10 ^ places v ≡ numerator v * (10 ^ exponent * 10 ^ places c)
unfolding numerator places
shift_decimal_exact v exponent c h =
    let (digits, made) = shift_decimal_ok v exponent h in
    let whole = (cut v).0 in
    let fraction = (cut v).1 in
    rescale (numerator c) (numerator v) (10 ^ (length fraction - exponent))
      (10 ^ (exponent - length fraction)) (10 ^ places c) (10 ^ min (length fraction) exponent)
      (10 ^ length fraction) (10 ^ exponent)
      (rw (sym made) (moved_exact whole fraction digits exponent))
      (pow-sub_min (length fraction) exponent)
      (ap (λ m. 10 ^ (exponent - length fraction) * 10 ^ m) (min_comm (length fraction) exponent)
        ∙ pow-sub_min exponent (length fraction))

shifted_parts :
    (currency input output : Bytes) {p : ListPrice}
    → list_price_from_per_token currency input output ≡ ok p
    → (shift_decimal input 6 ≡ ok p.input)
      × (shift_decimal output 6 ≡ ok p.output)
      × (p.currency ≡ currency)
unfolding list_price_from_per_token validate
shifted_parts currency input output h = ground arith

validated_parts :
    (p q : ListPrice)
    → validate p ≡ ok q
    → (m : Money) × (n : Money) × (parse_decimal p.currency p.input ≡ ok m)
      × (parse_decimal p.currency p.output ≡ ok n)
      × (p ≡ q)
unfolding validate
validated_parts p q h = elim (Result-cases (parse_decimal p.currency p.input)) [
  | inr (failure, e) ↦ absurd (ground (arith, e, h))
  | inl (m, e) ↦ elim (Result-cases (parse_decimal p.currency p.output)) [
    | inr (failure, f) ↦ absurd (ground (arith, e, f, h))
    | inl (n, f) ↦ (m, n, e, f, ground (arith, e, f, h))
  ]
]

validate-IsHeld : (p q : ListPrice) → validate p ≡ ok q → IsHeld q.input × IsHeld q.output
validate-IsHeld p q h =
    let (m, n, e, f, same) = validated_parts p q h in
    (
      subst (λ r. IsHeld r.input) same (parse_decimal-IsHeld p.currency p.input m e),
      subst (λ r. IsHeld r.output) same (parse_decimal-IsHeld p.currency p.output n f),
    )

list_price_validated :
    (currency input output : Bytes) (p : ListPrice)
    → list_price_from_per_token currency input output ≡ ok p
    → (q : ListPrice) × (validate q ≡ ok p)
unfolding list_price_from_per_token
list_price_validated currency input output p h = elim (Result-cases (shift_decimal input 6)) [
  | inr (failure, e) ↦ absurd (ground (arith, e, h))
  | inl (a, e) ↦ elim (Result-cases (shift_decimal output 6)) [
    | inr (failure, f) ↦ absurd (ground (arith, e, f, h))
    | inl (b, f) ↦ (record { currency = currency; input = a; output = b }, ground (arith, e, f, h))
  ]
]

-- A list price that is made of two prices per token is exactly a million times each of them, and in
-- their currency; both amounts are held exactly, with at most twelve places and as an int64 count of
-- 1e-12, so a price that could not be is refused. A decimal is its digits as one number over 10 to
-- the number of its places.
pub list_price_exact :
    (currency input output : Bytes) (p : ListPrice)
    → list_price_from_per_token currency input output ≡ ok p
    → (numerator p.input * 10 ^ places input ≡ numerator input * (10 ^ 6 * 10 ^ places p.input))
      × (numerator p.output * 10 ^ places output
          ≡ numerator output * (10 ^ 6 * 10 ^ places p.output))
      × (p.currency ≡ currency)
      × IsHeld p.input
      × IsHeld p.output
list_price_exact currency input output p h =
    let (made_input, made_output, same) = shifted_parts currency input output h in
    let (q, valid) = list_price_validated currency input output p h in
    let held = validate-IsHeld q p valid in
    (
      shift_decimal_exact input 6 p.input made_input,
      shift_decimal_exact output 6 p.output made_output,
      same,
      held.0,
      held.1,
    )
