-- ===== src/Memory/Times.antt =====
-- `i64`, as the code uses it for times: integers that are compared.
use momo_core.Prelude.{ℕ, Bool, false, ◌==◌}

pub data ℤ : Type 0 where
  pos negsuc : ℕ → ℤ

-- `a == b`
abbrev pub same_time : ℤ → ℤ → Bool
same_time (pos a) (pos b) = a == b
same_time (negsuc a) (negsuc b) = a == b
same_time _ _ = false
