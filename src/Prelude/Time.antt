-- ===== src/Prelude/Time.antt =====
-- Go's `time.Time` and `time.Duration`. A time is a count of nanoseconds since Go's zero Time (the
-- first instant of year 1), which is 0 here; a duration is an int64 count of nanoseconds.
use kaana.Prelude.{ℕ, ◌+◌, ◌-◌, Bool, ltb, ◌==◌}
use kaana.Prelude.Int.{ℤ, pos, negsuc, ◌*ℤ◌, sub_ℕ}
use kaana.Prelude.Words.{wrap64, saturate64}

abbrev pub Time : Type 0
Time = ℕ

abbrev pub Duration : Type 0
Duration = ℤ

abbrev pub zero_time : Time
zero_time = 0

-- t.IsZero()
abbrev pub is_zero : Time → Bool
is_zero t = t == 0

-- t.Before(u)
abbrev pub before : Time → Time → Bool
before t u = ltb t u

-- t.After(u)
abbrev pub after : Time → Time → Bool
after t u = ltb u t

-- t.Add(d)
abbrev pub add_time : Time → Duration → Time
add_time t (pos n) = t + n
add_time t (negsuc n) = t - (n + 1)

-- t.Sub(u)
abbrev pub sub_time : Time → Time → Duration
unfolding saturate64
sub_time t u = saturate64 (sub_ℕ t u)

-- d * k, for a non-negative constant k
abbrev pub times : Duration → ℕ → Duration
unfolding wrap64 ◌*ℤ◌
times d k = wrap64 (d *ℤ pos k)

abbrev pub millisecond : ℕ
millisecond = 1_000_000

abbrev pub second : ℕ
second = 1_000_000_000

abbrev pub minute : ℕ
minute = 60_000_000_000

abbrev pub hour : ℕ
hour = 3_600_000_000_000
