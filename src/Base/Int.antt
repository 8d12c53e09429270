-- ===== src/Base/Int.antt =====
-- Go's int64 as an integer over the native numbers, with its wrap-around at the increment, and the
-- order that the code tests.
use Prim.Native.Nat.{ℕ, zero, suc, ◌+◌, ◌-◌, ◌*◌, ◌%◌, ◌^◌, ◌≤◌, ◌<◌}
use mathlib.Core.Path.{◌≡◌}
use mathlib.Core.Bool.{Bool, true}
use native.Mathlib.Omega.{arith}
use agent_infra_system.Base.Tests.{ltb, leb, nat_eq, if◌then◌else◌}

-- `negsuc n` is -(n + 1).
pub data ℤ : Type 0 where
  pos : ℕ → ℤ
  negsuc : ℕ → ℤ

abbrev pub pos_part : ℤ → ℕ
pos_part (pos n) = n
pos_part (negsuc n) = 0

abbrev pub neg_part : ℤ → ℕ
neg_part (pos n) = 0
neg_part (negsuc n) = suc n

infix 50 ◌≤ℤ◌ ◌<ℤ◌
abbrev pub ◌≤ℤ◌ : ℤ → ℤ → Type 0
a ≤ℤ b = pos_part a + neg_part b ≤ pos_part b + neg_part a

abbrev pub ◌<ℤ◌ : ℤ → ℤ → Type 0
a <ℤ b = pos_part a + neg_part b < pos_part b + neg_part a

abbrev pub leb_ℤ : ℤ → ℤ → Bool
leb_ℤ a b = leb (pos_part a + neg_part b) (pos_part b + neg_part a)

abbrev pub ltb_ℤ : ℤ → ℤ → Bool
ltb_ℤ a b = ltb (pos_part a + neg_part b) (pos_part b + neg_part a)

abbrev pub eq_ℤ : ℤ → ℤ → Bool
eq_ℤ a b = nat_eq (pos_part a + neg_part b) (pos_part b + neg_part a)

abbrev pub max_int64 : ℕ
max_int64 = 2 ^ 63 - 1

-- `x + 1` on int64: it wraps from the largest value to the smallest.
unfoldable pub int64_succ : ℤ → ℤ
int64_succ (pos n) = if nat_eq n max_int64 then negsuc max_int64 else pos (suc n)
int64_succ (negsuc zero) = pos 0
int64_succ (negsuc (suc n)) = negsuc n

-- A product of two non-negative int64 values, reduced to int64.
unfoldable pub int64_mul : ℕ → ℕ → ℤ
int64_mul a b =
    let r = (a * b) % 2 ^ 64 in if leb r max_int64 then pos r else negsuc (2 ^ 64 - 1 - r)

abbrev pub u64 : ℕ → ℕ
u64 n = n % 2 ^ 64

pub int64_succ-lt : (a : ℤ) → a <ℤ pos max_int64 → a <ℤ int64_succ a
unfolding int64_succ
int64_succ-lt (pos n) h = ground arith
int64_succ-lt (negsuc zero) h = omega arith
int64_succ-lt (negsuc (suc n)) h = omega arith

pub eq_ℤ_iff : (a b : ℤ) → eq_ℤ a b ≡ true → a ≡ b
eq_ℤ_iff a b h = ground arith

pub eq_ℤ_refl : (a : ℤ) → eq_ℤ a a ≡ true
eq_ℤ_refl a = ground arith
