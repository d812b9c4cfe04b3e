-- ===== src/Prelude/Machine.antt =====
-- Machine integers: a w-bit value is a number, with its wrap-around or saturation written out.
use Prim.Native.Nat.{ℕ, ◌+◌, ◌*◌, ◌%◌, ◌<◌, ◌≤◌, min}
use mathlib.Core.Path.{◌≡◌}
use mathlib.Core.Option.{Option, none, some}
use native.Mathlib.Omega.{arith}
use muxvia.Prelude.Tests.{ltb, if◌then◌else◌}

abbrev pub u64_mod : ℕ
u64_mod = 18446744073709551616

abbrev pub u64_max : ℕ
u64_max = 18446744073709551615

-- `x += 1` in a release build.
abbrev pub u64_inc : ℕ → ℕ
u64_inc n = (n + 1) % u64_mod

abbrev pub u8_inc : ℕ → ℕ
u8_inc n = (n + 1) % 256

abbrev pub u64_saturating_mul : ℕ → ℕ → ℕ
u64_saturating_mul a b = min (a * b) u64_max

abbrev pub i64_max : ℕ
i64_max = 9223372036854775807

abbrev pub u128_mod : ℕ
u128_mod = 340282366920938463463374607431768211456

-- `checked_add` and `checked_mul` on u128.
abbrev pub u128_checked : ℕ → Option ℕ
u128_checked n = if ltb n u128_mod then some n else none

pub u128_checked-fits : (n : ℕ) → n < u128_mod → u128_checked n ≡ some n
u128_checked-fits n h = ground arith

-- The product of a u64 and an i64 that is not negative fits into a u128.
pub u128_product : (a b : ℕ) → a < u64_mod → b ≤ i64_max → a * b < u128_mod
u128_product a b h k = grind arith
