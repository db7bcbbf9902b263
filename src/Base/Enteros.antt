-- ===== src/Base/Enteros.antt =====
-- The integers, for the settings of the configuration that may be negative.
use sistemas_operativos_utn.Base.Tests.{◌==◌}
use Prim.Native.Nat.{ℕ}
use mathlib.Core.Bool.{Bool, false}

-- `negsuc n` is -(n + 1).
pub data ℤ : Type 0 where
  pos : ℕ → ℤ
  negsuc : ℕ → ℤ

-- A count against an integer.
abbrev pub es_igual : ℕ → ℤ → Bool
es_igual n (pos k) = n == k
es_igual n (negsuc k) = false
