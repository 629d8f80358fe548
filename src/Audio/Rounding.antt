-- ===== src/Audio/Rounding.antt =====
-- ceilMillis of internal/audioprobe/probe.go, and what Milliseconds refuses after it.
use native.Mathlib.Nat.{mod-lt, div-add-mod', mul-le-mul_right}
use kaana.Prelude.{
  ℕ, ◌+◌, ◌-◌, ◌*◌, ◌/◌, ◌%◌, ◌^◌, ◌≤◌, ◌<◌, ◌≡◌, ◌⊎◌, arith, tests, inl, inr, true, false, ltb,
  leb, ltb→lt, leb→le, ◌==◌, Bool-cases,
}
use kaana.Prelude.Results.{Result, ok, err}
use kaana.Audio.{ProbeError, Timing, ceil_millis, within, rounded, no_rate, too_long}

-- `m` is n / d, rounded up, and not above a day of milliseconds; or that is above a day.
abbrev pub IsRounded : ℕ → ℕ → Result ProbeError ℕ → Type 0
IsRounded n d r =
    ((m : ℕ) × (r ≡ ok m) × (n ≤ m * d) × (m * d < n + d) × (m ≤ 86_400_000))
    ⊎ ((r ≡ err too_long) × (86_400_000 * d < n))

module _ (n d : ℕ) (positive : 0 < d) (bounded : n ≤ (2 ^ 64 - 1) * d) where
  divided : n / d * d + n % d ≡ n
  divided = div-add-mod' n d

  below : n % d < d
  below = mod-lt n positive

  -- A quotient that is to be incremented is not the last one.
  quotient_bounded : 0 < n % d → n / d < 2 ^ 64 - 1
  quotient_bounded h = elim (Bool-cases (ltb (n / d) (2 ^ 64 - 1))) [
    | inl e ↦ ground (arith, e)
    | inr e ↦ omega (
      tests,
      divided,
      below,
      mul-le-mul_right d (leb→le (2 ^ 64 - 1) (n / d) (ground (arith, e))),
    )
  ]

  not_high : leb d (n / 2 ^ 64) ≡ false
  not_high = ground arith

  IsRounded-exact : n % d ≡ 0 → IsRounded n d (within (n / d))
  unfolding within
  IsRounded-exact none_left = elim (Bool-cases (ltb 86_400_000 (n / d))) [
    | inl e ↦ inr (
      ground (arith, e),
      omega (tests, divided, mul-le-mul_right d (ltb→lt 86_400_000 (n / d) e)),
    )
    | inr e ↦ inl (
      n / d,
      ground (arith, e),
      omega (arith, divided),
      omega (arith, divided),
      ground (arith, e),
    )
  ]

  IsRounded-up : 0 < n % d → IsRounded n d (within ((n / d + 1) % 2 ^ 64))
  unfolding within
  IsRounded-up left =
      let exact : (n / d + 1) % 2 ^ 64 ≡ n / d + 1 = omega (arith, quotient_bounded left) in
      rw exact (elim (Bool-cases (ltb 86_400_000 (n / d + 1))) [
        | inl e ↦ inr (
          ground (arith, e),
          omega (
            arith,
            divided,
            left,
            mul-le-mul_right {m = 86_400_000} {n = n / d} d
                (omega (tests, ltb→lt 86_400_000 (n / d + 1) e)),
          ),
        )
        | inr e ↦ inl (
          n / d + 1,
          ground (arith, e),
          omega (arith, divided, below),
          omega (arith, divided, left),
          ground (arith, e),
        )
      ])

module _ (timing : Timing) (positive : 0 < timing.per_second) where
  abbrev product : ℕ
  product = timing.units * 1000

  rounded-exact :
      leb (timing.per_second) (product / 2 ^ 64) ≡ false
      → product % timing.per_second ≡ 0
      → rounded timing ≡ within (product / timing.per_second)
  unfolding rounded ceil_millis
  rounded-exact low e = ground (arith, low, e)

  rounded-up :
      leb (timing.per_second) (product / 2 ^ 64) ≡ false
      → 0 < product % timing.per_second
      → rounded timing ≡ within ((product / timing.per_second + 1) % 2 ^ 64)
  unfolding rounded ceil_millis
  rounded-up low e = ground (arith, low, e)

  rounded-IsRounded :
      product ≤ (2 ^ 64 - 1) * timing.per_second
      → IsRounded product (timing.per_second) (rounded timing)
  rounded-IsRounded h =
      let low = not_high product (timing.per_second) positive h in
      elim (Bool-cases (product % timing.per_second == 0)) [
        | inl e ↦
            let zero_left : product % timing.per_second ≡ 0 = ground (arith, e) in
            rw (rounded-exact low zero_left)
              (IsRounded-exact product (timing.per_second) positive h zero_left)
        | inr e ↦
            let left : 0 < product % timing.per_second = ground (arith, e) in
            rw (rounded-up low left) (IsRounded-up product (timing.per_second) positive h left)
      ]

rounded_high :
    (timing : Timing)
    → 0 < timing.per_second
    → 2 ^ 64 * timing.per_second ≤ timing.units * 1000
    → IsRounded (timing.units * 1000) timing.per_second (rounded timing)
unfolding rounded ceil_millis
rounded_high timing positive h =
    let high : leb timing.per_second (timing.units * 1000 / 2 ^ 64) ≡ true = ground (arith, h) in
    inr (ground (arith, high, positive), omega (arith, h, positive))

rounded_apart :
    (timing : Timing)
    → 0 < timing.per_second
    → (timing.units * 1000 ≤ (2 ^ 64 - 1) * timing.per_second)
      ⊎ (2 ^ 64 * timing.per_second ≤ timing.units * 1000)
    → IsRounded (timing.units * 1000) timing.per_second (rounded timing)
rounded_apart timing positive (inl h) = rounded-IsRounded timing positive h
rounded_apart timing positive (inr h) = rounded_high timing positive h

-- A rate of 0 is refused. Otherwise, unless the duration is strictly between 2^64 - 1 and 2^64
-- milliseconds, what is returned is the duration in milliseconds rounded up, if that is not above
-- 86,400,000, and the upload is refused exactly if it is.
pub rounded_exact :
    (timing : Timing)
    → (timing.units * 1000 ≤ (2 ^ 64 - 1) * timing.per_second)
      ⊎ (2 ^ 64 * timing.per_second ≤ timing.units * 1000)
    → ((timing.per_second ≡ 0) × (rounded timing ≡ err no_rate))
      ⊎ ((0 < timing.per_second)
          × IsRounded (timing.units * 1000) timing.per_second (rounded timing))
unfolding rounded
rounded_exact timing h = elim (Bool-cases (timing.per_second == 0)) [
  | inl e ↦ inl (ground (arith, e), ground (arith, e))
  | inr e ↦
      let positive : 0 < timing.per_second = ground (arith, e) in
      inr (positive, rounded_apart timing positive h)
]
