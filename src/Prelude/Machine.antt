-- ===== src/Prelude/Machine.antt =====
-- `usize` and `u64` arithmetic: 64 bits. `saturating_sub` is the truncated `-` of ℕ.
use Prim.Native.Nat.{ℕ, ◌+◌, ◌-◌, ◌/◌, ◌%◌, ◌^◌, ◌≤◌, min}
use native.Mathlib.Omega.{arith}
use momo_core.Prelude.Tests.{◌==◌, if◌then◌else◌}

abbrev pub usize_max : ℕ
usize_max = 2 ^ 64 - 1

-- `a.saturating_add(b)`
unfoldable pub sat_add : ℕ → ℕ → ℕ
sat_add a b = min (a + b) usize_max

-- `a.div_ceil(b)`
unfoldable pub div_ceil : ℕ → ℕ → ℕ
div_ceil a b = a / b + (if a % b == 0 then 0 else 1)

pub sat_add-le : (a b : ℕ) → sat_add a b ≤ a + b
unfolding sat_add
sat_add-le a b = omega arith
