-- ===== src/Prelude/Words.antt =====
-- Signed 64-bit arithmetic, as Go's `int64` and `time.Duration` have it.
use kaana.Prelude.{ℕ, ◌-◌, ◌%◌, ◌^◌, ◌≤◌, ◌<◌, ◌≡◌, arith, ltb, if◌then◌else◌}
use kaana.Prelude.Int.{ℤ, pos, negsuc}

-- The bit pattern of an integer, modulo 2^64.
abbrev pattern64 : ℤ → ℕ
pattern64 (pos n) = n % 2 ^ 64
pattern64 (negsuc n) = 2 ^ 64 - 1 - n % 2 ^ 64

-- The signed reading of a bit pattern.
abbrev signed64 : ℕ → ℤ
signed64 u = if ltb u (2 ^ 63) then pos u else negsuc (2 ^ 64 - 1 - u)

-- What an overflowing operation on int64 leaves.
unfoldable pub wrap64 : ℤ → ℤ
wrap64 a = signed64 (pattern64 a)

-- `time.Time.Sub` saturates at the ends of int64.
unfoldable pub saturate64 : ℤ → ℤ
saturate64 (pos n) = pos (if ltb n (2 ^ 63) then n else 2 ^ 63 - 1)
saturate64 (negsuc n) = negsuc (if ltb n (2 ^ 63) then n else 2 ^ 63 - 1)

-- A non-negative value in range is kept.
pub wrap64-pos : (n : ℕ) → n < 2 ^ 63 → wrap64 (pos n) ≡ pos n
unfolding wrap64
wrap64-pos n h = ground arith

-- A non-negative value past the range turns negative.
pub wrap64-past : (n : ℕ) → 2 ^ 63 ≤ n → n < 2 ^ 64 → wrap64 (pos n) ≡ negsuc (2 ^ 64 - 1 - n)
unfolding wrap64
wrap64-past n h k = ground arith
