-- ===== src/Prelude/Int.antt =====
-- Signed integers over the native numbers, under the library's names (its ℤ stands on the unary ℕ).
use Prim.Native.Nat.{ℕ, suc, ◌-◌}
use mathlib.Core.Path.{◌≡◌}
use mathlib.Core.Bool.{Bool, true, false}
use native.Mathlib.Omega.{arith}
use package.receipt_manager.Prelude.Tests.{◌==◌, if◌then◌else◌}

-- `negsuc n` is -(n + 1).
pub data ℤ : Type 0 where
  pos : ℕ → ℤ
  negsuc : ℕ → ℤ

-- `amount < 0`
unfoldable pub is_negative : ℤ → Bool
is_negative (pos n) = false
is_negative (negsuc n) = true

unfoldable pub neg : ℤ → ℤ
neg (pos n) = if n == 0 then pos 0 else negsuc (n - 1)
neg (negsuc n) = pos (suc n)

unfoldable pub eq_ℤ : ℤ → ℤ → Bool
eq_ℤ (pos m) (pos n) = m == n
eq_ℤ (pos m) (negsuc n) = false
eq_ℤ (negsuc m) (pos n) = false
eq_ℤ (negsuc m) (negsuc n) = m == n

pub eq_ℤ_sound : (a b : ℤ) → eq_ℤ a b ≡ true → a ≡ b
unfolding eq_ℤ
eq_ℤ_sound a b h = ground arith

pub eq_ℤ_refl : (a : ℤ) → eq_ℤ a a ≡ true
unfolding eq_ℤ
eq_ℤ_refl a = ground arith

pub neg-neg : (a : ℤ) → neg (neg a) ≡ a
unfolding neg
neg-neg a = ground arith
