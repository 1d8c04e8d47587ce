-- ===== src/Prelude/Words.antt =====
-- Go's `int` and `int64` as bit patterns below 2 ^ 64, in two's complement.
use Prim.Native.Nat.{ℕ, ◌+◌, ◌-◌, ◌/◌, ◌%◌, ◌^◌, ◌<◌}
use mathlib.Core.Path.{◌≡◌, refl}
use mathlib.Core.Bool.{Bool}
use native.Mathlib.Omega.{arith}
use beacon_guard.Prelude.Tests.{ltb, if◌then◌else◌}

unfoldable pub add64 : ℕ → ℕ → ℕ
add64 a b = (a + b) % 2 ^ 64

unfoldable pub sub64 : ℕ → ℕ → ℕ
sub64 a b = (a + (2 ^ 64 - b % 2 ^ 64)) % 2 ^ 64

unfoldable pub neg64 : ℕ → ℕ
neg64 a = (2 ^ 64 - a % 2 ^ 64) % 2 ^ 64

-- `a < b` on the signed values: adding 2 ^ 63 turns the signed order into the unsigned one.
unfoldable pub lt64 : ℕ → ℕ → Bool
lt64 a b = ltb ((a + 2 ^ 63) % 2 ^ 64) ((b + 2 ^ 63) % 2 ^ 64)

-- `a / k` and `a % k` for a positive constant `k`: they round towards zero.
unfoldable pub quot64 : ℕ → ℕ → ℕ
unfolding neg64
quot64 a k = if ltb a (2 ^ 63) then a / k else neg64 (neg64 a / k)

unfoldable pub rem64 : ℕ → ℕ → ℕ
unfolding neg64
rem64 a k = if ltb a (2 ^ 63) then a % k else neg64 (neg64 a % k)

pub add64-lt : (a b : ℕ) → add64 a b < 2 ^ 64
unfolding add64
add64-lt a b = omega arith

pub add64_assoc : (a b c : ℕ) → add64 (add64 a b) c ≡ add64 a (add64 b c)
unfolding add64
add64_assoc a b c = omega arith

pub add64_small : (a b : ℕ) → a + b < 2 ^ 63 → add64 a b ≡ a + b
unfolding add64
add64_small a b h = omega arith

pub lt64_small : (a b : ℕ) → a < 2 ^ 63 → b < 2 ^ 63 → lt64 a b ≡ ltb a b
unfolding lt64
lt64_small a b ha hb = ground arith

pub neg64_two : neg64 2 ≡ 18446744073709551614
unfolding neg64
neg64_two = refl

pub quot64_small : (a k : ℕ) → a < 2 ^ 63 → quot64 a k ≡ a / k
unfolding quot64
quot64_small a k h = ground arith

pub ruleset word_laws = (arith, add64_small, lt64_small)
