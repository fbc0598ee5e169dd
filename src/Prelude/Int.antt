-- ===== src/Prelude/Int.antt =====
-- The integers, as differences of natural numbers.
use Prim.Native.Nat.{ℕ, ◌-◌}
use nest_rest_backend_templa.Prelude.Tests.{ltb, if◌then◌else◌}

-- `negsuc n` is -(n + 1).
pub data ℤ : Type 0 where
  pos : ℕ → ℤ
  negsuc : ℕ → ℤ

abbrev pub difference : ℕ → ℕ → ℤ
difference m n = if ltb m n then negsuc (n - m - 1) else pos (m - n)
