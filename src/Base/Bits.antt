-- ===== src/Base/Bits.antt =====
-- The conjunction of two numbers that are shifted to the left.
use Prim.Native.Nat.{
  ℕ, zero, suc, ◌*◌, ◌/◌, ◌+◌, ◌%◌, ◌≤◌, ◌<◌, min, bit_and, digits, bit_and-bitwise,
}
use mathlib.Core.Path.{◌≡◌, refl, ◌∙◌, ap, sym}
use native.Mathlib.Omega.{arith}

-- `bit_and`, with a bound on the digits that it reads.
abbrev low_and : ℕ → ℕ → ℕ → ℕ
low_and bound x y = digits (λ d. zero) min bound x y

-- Two bounds that reach all digits of `x` make no difference.
low_and_bounds : (x y k l : ℕ) → x ≤ k → x ≤ l → low_and k x y ≡ low_and l x y
low_and_bounds zero y zero zero _ _ = refl
low_and_bounds zero y zero (suc l) _ _ = refl
low_and_bounds zero y (suc k) zero _ _ = refl
low_and_bounds zero y (suc k) (suc l) _ _ = refl
low_and_bounds (suc x) y zero l h _ = absurd (omega arith)
low_and_bounds (suc x) y (suc k) zero _ h = absurd (omega arith)
low_and_bounds (suc x) y (suc k) (suc l) h h' =
    omega (arith, low_and_bounds (suc x / 2) (y / 2) k l (omega arith) (omega arith))

-- The lowest digit of an even number adds nothing.
low_and_even : (x y k : ℕ) → low_and (suc k) (suc (suc (x * 2))) y ≡ low_and k (suc x) (y / 2) * 2
low_and_even x y k =
    let half : suc (suc (x * 2)) / 2 ≡ suc x = omega arith in
    let even : suc (suc (x * 2)) % 2 ≡ 0 = omega arith in
    let spread : low_and (suc k) (suc (suc (x * 2))) y
        ≡ low_and k (suc (suc (x * 2)) / 2) (y / 2) * 2 + min (suc (suc (x * 2)) % 2) (y % 2) =
      refl in
    spread ∙ rw (half, even) (omega arith)

bit_and-double : (x y : ℕ) → bit_and (x * 2) y ≡ bit_and x (y / 2) * 2
bit_and-double zero y = omega (arith, bit_and-bitwise 0 y, bit_and-bitwise 0 (y / 2))
bit_and-double (suc x) y =
    let twice : suc x * 2 ≡ suc (suc (x * 2)) = omega arith in
    let fewer = low_and_bounds (suc x) (y / 2) (suc (x * 2)) (suc x) (omega arith) (omega arith) in
    rw twice (
      bit_and-bitwise (suc (suc (x * 2))) y
      ∙ low_and_even x y (suc (x * 2))
      ∙ ap (λ r. r * 2) (fewer ∙ sym (bit_and-bitwise (suc x) (y / 2))))

pub bit_and-eighth : (x y : ℕ) → bit_and (x * 8) y ≡ bit_and x (y / 8) * 8
bit_and-eighth x y =
    let times : x * 8 ≡ x * 2 * 2 * 2 = omega arith in
    let parts : y / 2 / 2 / 2 ≡ y / 8 = omega arith in
    rw
      (
        times,
        bit_and-double (x * 2 * 2) y,
        bit_and-double (x * 2) (y / 2),
        bit_and-double x (y / 2 / 2),
        parts,
      )
      (omega arith)

pub one-bit_and : (y : ℕ) → bit_and 1 y ≡ y % 2
one-bit_and y = omega (arith, bit_and-bitwise 1 y)

-- A number of three digits meets only the lowest three of another.
pub bit_and-low_three : (x y : ℕ) → x < 8 → bit_and x (y % 8) ≡ bit_and x y
bit_and-low_three zero y h = omega (arith, bit_and-bitwise 0 y, bit_and-bitwise 0 (y % 8))
bit_and-low_three (suc zero) y h = omega (arith, bit_and-bitwise 1 y, bit_and-bitwise 1 (y % 8))
bit_and-low_three (suc (suc zero)) y h =
    omega (arith, bit_and-bitwise 2 y, bit_and-bitwise 2 (y % 8))
bit_and-low_three (suc (suc (suc zero))) y h =
    omega (arith, bit_and-bitwise 3 y, bit_and-bitwise 3 (y % 8))
bit_and-low_three (suc (suc (suc (suc zero)))) y h =
    omega (arith, bit_and-bitwise 4 y, bit_and-bitwise 4 (y % 8))
bit_and-low_three (suc (suc (suc (suc (suc zero))))) y h =
    omega (arith, bit_and-bitwise 5 y, bit_and-bitwise 5 (y % 8))
bit_and-low_three (suc (suc (suc (suc (suc (suc zero)))))) y h =
    omega (arith, bit_and-bitwise 6 y, bit_and-bitwise 6 (y % 8))
bit_and-low_three (suc (suc (suc (suc (suc (suc (suc zero))))))) y h =
    omega (arith, bit_and-bitwise 7 y, bit_and-bitwise 7 (y % 8))
bit_and-low_three (suc (suc (suc (suc (suc (suc (suc (suc x)))))))) y h = absurd (omega arith)
