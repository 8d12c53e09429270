-- ===== src/Base/Float.antt =====
-- Go's float64 by its bit pattern, and the order of IEEE 754 on it.
use Prim.Native.Nat.{ℕ, ◌*◌, ◌-◌, ◌/◌, ◌%◌, ◌^◌}
use mathlib.Core.Bool.{Bool, not, ◌&&◌, ◌||◌}
use mathlib.Core.Path.{◌≡◌, refl}
use agent_infra_system.Base.Tests.{ltb, nat_eq, if◌then◌else◌}
use agent_infra_system.Base.Int.{ℤ, pos, negsuc, ltb_ℤ}

-- The bits below the sign.
abbrev pub magnitude : ℕ → ℕ
magnitude bits = bits % 2 ^ 63

abbrev pub is_nan : ℕ → Bool
is_nan bits = ltb (2047 * 2 ^ 52) (magnitude bits)

-- The place of a number in the order; both zeros stand at 0.
abbrev pub place : ℕ → ℤ
place bits =
    if nat_eq (bits / 2 ^ 63) 0 || nat_eq (magnitude bits) 0
    then pos (magnitude bits)
    else negsuc (magnitude bits - 1)

-- `a > b`, which is false where one of them is not a number
abbrev pub float_gt : ℕ → ℕ → Bool
float_gt a b = not (is_nan a) && not (is_nan b) && ltb_ℤ (place b) (place a)

-- 2.5 > -1, not -0 > 0, not NaN > 0
float_gt_example :
    (float_gt 0x4004000000000000 0xbff0000000000000 ≡ Bool.true)
    × (float_gt 0x8000000000000000 0 ≡ Bool.false)
    × (float_gt 0x7ff8000000000000 0 ≡ Bool.false)
float_gt_example = (refl, refl, refl)
