-- ===== src/Prelude/Int.antt =====
-- Signed amounts over the native numbers.
use Prim.Native.Nat.{ℕ, suc, ◌-◌}
use mathlib.Core.Bool.{Bool, true, false}
use test_app_pkcs.Prelude.Tests.{ltb, if◌then◌else◌}

-- `negsuc n` is -(n + 1).
pub data ℤ : Type 0 where
  pos negsuc : ℕ → ℤ

abbrev pub is_positive : ℤ → Bool
is_positive (pos n) = ltb 0 n
is_positive (negsuc n) = false

abbrev pub is_nonnegative : ℤ → Bool
is_nonnegative (pos n) = true
is_nonnegative (negsuc n) = false

-- The difference of two naturals.
abbrev pub minus : ℕ → ℕ → ℤ
minus m n = if ltb m n then negsuc (n - suc m) else pos (m - n)
