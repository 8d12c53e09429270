-- ===== src/Base/Time.antt =====
-- Go's `time.Time` and `time.Duration`. A time is the number of nanoseconds since the zero time
-- (year 1), so the zero time is 0; a duration is an int64 number of nanoseconds.
use Prim.Native.Nat.{ℕ, zero, suc, ◌+◌, ◌-◌, ◌*◌, ◌/◌, min}
use mathlib.Core.Bool.{Bool}
use agent_infra_system.Base.Tests.{ltb, leb, nat_eq, if◌then◌else◌}
use agent_infra_system.Base.Int.{ℤ, pos, negsuc, max_int64, int64_mul}

abbrev pub Time : Type 0
Time = ℕ

abbrev pub Duration : Type 0
Duration = ℤ

abbrev pub second : ℕ
second = 1000000000

abbrev pub minutes : ℕ → Duration
minutes n = pos (n * 60 * second)

abbrev pub hours : ℕ → Duration
hours n = pos (n * 3600 * second)

-- `time.Duration(n) * time.Second`, for a positive int64 `n`
abbrev pub seconds : ℕ → Duration
seconds n = int64_mul n second

-- `t.Add(d)`; a time before year 1 is not represented
abbrev pub add : Time → Duration → Time
add t (pos d) = t + d
add t (negsuc d) = t - suc d

-- `t.After(u)`
abbrev pub after : Time → Time → Bool
after t u = ltb u t

-- `t.IsZero()`
abbrev pub is_zero : Time → Bool
is_zero t = nat_eq t 0

-- `t.Sub(u)`, which stops at the limits of int64
abbrev pub sub : Time → Time → Duration
sub t u = if leb u t then pos (min (t - u) max_int64) else negsuc (min (u - t - 1) max_int64)

-- `d.Milliseconds()`, which truncates toward zero
unfoldable pub milliseconds : Duration → ℤ
milliseconds (pos n) = pos (n / 1000000)
milliseconds (negsuc n) = elim (suc n / 1000000) [ zero ↦ pos 0 | suc m ↦ negsuc m ]
