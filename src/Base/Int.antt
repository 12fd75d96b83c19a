-- ===== src/Base/Int.antt =====
-- C integers that carry a status, and pointers that may carry an error code.
use Prim.Native.Nat.{ℕ, zero, suc}
use mathlib.Core.Bool.{Bool, true, false}
use mathlib.Core.Path.{◌≡◌, refl}
use mathlib.Core.Logic.{◌⊎◌, inl, inr}
use native.Mathlib.Omega.{arith}
use hepunion.Base.Tests.{◌==◌}

-- A C `int`: `negsuc n` is -(n + 1).
pub data ℤ : Type 0 where
  pos : ℕ → ℤ
  negsuc : ℕ → ℤ

-- `err < 0`
abbrev pub is_neg : ℤ → Bool
is_neg (pos n) = false
is_neg (negsuc n) = true

-- `err == 0`
abbrev pub is_zero : ℤ → Bool
is_zero (pos n) = n == 0
is_zero (negsuc n) = false

-- `-n` of a natural number.
abbrev pub neg : ℕ → ℤ
neg zero = pos 0
neg (suc n) = negsuc n

-- A pointer that may carry an error code: `err e` is `ERR_PTR(e)`.
pub data Ptr {ℓ} (A : Type ℓ) : Type ℓ where
  ptr : A → Ptr A
  err_ptr : ℤ → Ptr A

is_zero-cases : (e : ℤ) → (e ≡ pos 0) ⊎ (is_zero e ≡ false)
is_zero-cases (pos zero) = inl refl
is_zero-cases (pos (suc n)) = inr (ground arith)
is_zero-cases (negsuc n) = inr refl

is_zero→eq : (e : ℤ) → is_zero e ≡ true → e ≡ pos 0
is_zero→eq e h = ground arith

pub neg-ne-zero : (e : ℤ) → is_neg e ≡ true → is_zero e ≡ false
neg-ne-zero (pos n) h = absurd cc
neg-ne-zero (negsuc n) h = refl
