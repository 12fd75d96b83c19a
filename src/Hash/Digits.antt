-- ===== src/Hash/Digits.antt =====
-- Exclusive or of numbers, digit by digit, and the product and the shift of the hash of fs/hepunion/hash.c.
use hepunion.Base.{ℕ, zero, suc, ◌+◌, ◌*◌, ◌/◌, ◌%◌, ◌^◌, ◌<◌, ◌≤◌, ◌≡◌, refl, ap, sym, ◌∙◌, arith}
use Prim.Native.Nat.{bit_xor, bit_xor-bitwise, digits, differ}

-- A product with the multiplier, cut to 64 bits, has one factor below two to the power of 64.
pub times_m-injective :
    (x y : ℕ)
    → x < 2 ^ 64
    → y < 2 ^ 64
    → (x * 0xc6a4a7935bd1e995) % 2 ^ 64 ≡ (y * 0xc6a4a7935bd1e995) % 2 ^ 64
    → x ≡ y
times_m-injective x y hx hy h = omega arith

abbrev xor_digits : ℕ → ℕ → ℕ → ℕ
xor_digits n a b = digits (λ b. b) differ n a b

xor_digits_bounds : (n m a b : ℕ) → a ≤ n → a ≤ m → xor_digits n a b ≡ xor_digits m a b
xor_digits_bounds zero zero a b p q = refl
xor_digits_bounds zero (suc m) zero b p q = refl
xor_digits_bounds zero (suc m) (suc a) b p q = absurd (omega arith)
xor_digits_bounds (suc n) zero zero b p q = refl
xor_digits_bounds (suc n) zero (suc a) b p q = absurd (omega arith)
xor_digits_bounds (suc n) (suc m) zero b p q = refl
xor_digits_bounds (suc n) (suc m) (suc a) b p q =
    omega (arith, xor_digits_bounds n m (suc a / 2) (b / 2) (omega arith) (omega arith))

differ-zero : (y : ℕ) → differ 0 y ≡ y
differ-zero y = refl

bit_xor-zero : (b : ℕ) → bit_xor 0 b ≡ b
bit_xor-zero b = bit_xor-bitwise 0 b

bit_xor_step : (a b : ℕ) → bit_xor a b ≡ bit_xor (a / 2) (b / 2) * 2 + differ (a % 2) (b % 2)
bit_xor_step zero b = omega (arith, bit_xor-zero b, bit_xor-zero (b / 2))
bit_xor_step (suc a) b = omega (
  arith,
  bit_xor-bitwise (suc a) b,
  bit_xor-bitwise (suc a / 2) (b / 2),
  xor_digits_bounds a (suc a / 2) (suc a / 2) (b / 2) (omega arith) (omega arith),
)

differ_bit : (x y : ℕ) → x < 2 → y < 2 → differ x y < 2
differ_bit zero y hx hy = hy
differ_bit (suc zero) zero hx hy = omega arith
differ_bit (suc zero) (suc y) hx hy = omega arith
differ_bit (suc (suc x)) y hx hy = absurd (omega arith)

differ_comm : (x y : ℕ) → differ x y ≡ differ y x
differ_comm zero zero = refl
differ_comm zero (suc y) = refl
differ_comm (suc x) zero = refl
differ_comm (suc x) (suc y) = differ_comm x y

differ_cancel : (x y z : ℕ) → x < 2 → y < 2 → z < 2 → differ x z ≡ differ y z → x ≡ y
differ_cancel zero zero z hx hy hz h = refl
differ_cancel zero (suc zero) zero hx hy hz h = absurd (omega arith)
differ_cancel zero (suc zero) (suc zero) hx hy hz h = absurd (omega arith)
differ_cancel (suc zero) zero zero hx hy hz h = absurd (omega arith)
differ_cancel (suc zero) zero (suc zero) hx hy hz h = absurd (omega arith)
differ_cancel (suc zero) (suc zero) z hx hy hz h = refl
differ_cancel zero (suc zero) (suc (suc z)) hx hy hz h = absurd (omega arith)
differ_cancel (suc zero) zero (suc (suc z)) hx hy hz h = absurd (omega arith)
differ_cancel (suc (suc x)) y z hx hy hz h = absurd (omega arith)
differ_cancel zero (suc (suc y)) z hx hy hz h = absurd (omega arith)
differ_cancel (suc zero) (suc (suc y)) z hx hy hz h = absurd (omega arith)

lowest : (a b : ℕ) → differ (a % 2) (b % 2) < 2
lowest a b = differ_bit (a % 2) (b % 2) (omega arith) (omega arith)

xor_comm_upto : (n a b : ℕ) → a ≤ n → b ≤ n → bit_xor a b ≡ bit_xor b a
xor_comm_upto zero zero zero p q = refl
xor_comm_upto zero (suc a) b p q = absurd (omega arith)
xor_comm_upto zero zero (suc b) p q = absurd (omega arith)
xor_comm_upto (suc n) a b p q =
    let ih = xor_comm_upto n (a / 2) (b / 2) (omega arith) (omega arith) in
    omega (arith, bit_xor_step a b, bit_xor_step b a, ih, differ_comm (a % 2) (b % 2))

pub bit_xor_comm : (a b : ℕ) → bit_xor a b ≡ bit_xor b a
bit_xor_comm a b = xor_comm_upto (a + b) a b (omega arith) (omega arith)

xor_cancel_upto : (n a a' b : ℕ) → a ≤ n → a' ≤ n → bit_xor a b ≡ bit_xor a' b → a ≡ a'
xor_cancel_upto zero zero zero b p q h = refl
xor_cancel_upto zero (suc a) a' b p q h = absurd (omega arith)
xor_cancel_upto zero zero (suc a') b p q h = absurd (omega arith)
xor_cancel_upto (suc n) a a' b p q h =
    let one = bit_xor_step a b in
    let two = bit_xor_step a' b in
    let small = lowest a b in
    let small' = lowest a' b in
    let above : a / 2 ≡ a' / 2 =
      xor_cancel_upto n (a / 2) (a' / 2) (b / 2) (omega arith) (omega arith)
        (omega (arith, one, two, h, small, small')) in
    let below : a % 2 ≡ a' % 2 =
      differ_cancel (a % 2) (a' % 2) (b % 2) (omega arith) (omega arith) (omega arith)
        (omega (arith, one, two, h, small, small')) in
    omega (arith, above, below)

pub bit_xor_cancel : (a a' b : ℕ) → bit_xor a b ≡ bit_xor a' b → a ≡ a'
bit_xor_cancel a a' b h = xor_cancel_upto (a + a') a a' b (omega arith) (omega arith) h

-- So many digits less.
abbrev halves : ℕ → ℕ → ℕ
halves zero n = n
halves (suc k) n = halves k (n / 2)

halves-bit_xor : (k a b : ℕ) → halves k (bit_xor a b) ≡ bit_xor (halves k a) (halves k b)
halves-bit_xor zero a b = refl
halves-bit_xor (suc k) a b =
    let half : bit_xor a b / 2 ≡ bit_xor (a / 2) (b / 2) =
      omega (arith, bit_xor_step a b, lowest a b) in
    rw half (halves-bit_xor k (a / 2) (b / 2))

halves-shift : (n : ℕ) → halves 47 n ≡ n / 2 ^ 47
halves-shift n = omega arith

shift_xor-top : (x : ℕ) → x < 2 ^ 64 → bit_xor x (x / 2 ^ 47) / 2 ^ 47 ≡ x / 2 ^ 47
shift_xor-top x hx =
    let none_left : x / 2 ^ 47 / 2 ^ 47 ≡ 0 = omega arith in
    sym (halves-shift (bit_xor x (x / 2 ^ 47)))
    ∙ halves-bit_xor 47 x (x / 2 ^ 47)
    ∙ rw (halves-shift x, halves-shift (x / 2 ^ 47), none_left)
        (bit_xor_comm (x / 2 ^ 47) 0 ∙ bit_xor-zero (x / 2 ^ 47))

pub shift_xor-injective :
    (x y : ℕ) → x < 2 ^ 64 → y < 2 ^ 64 → bit_xor x (x / 2 ^ 47) ≡ bit_xor y (y / 2 ^ 47) → x ≡ y
shift_xor-injective x y hx hy h =
    let top : x / 2 ^ 47 ≡ y / 2 ^ 47 =
      sym (shift_xor-top x hx) ∙ ap (λ z. z / 2 ^ 47) h ∙ shift_xor-top y hy in
    bit_xor_cancel x y (x / 2 ^ 47) (h ∙ ap (λ z. bit_xor y z) (sym top))

-- Two to the power of a number of digits.
abbrev limit : ℕ → ℕ
limit zero = 1
limit (suc w) = limit w * 2

bit_xor-limit : (w x y : ℕ) → x < limit w → y < limit w → bit_xor x y < limit w
bit_xor-limit zero x y hx hy =
    let left : x ≡ 0 = omega arith in
    let right : y ≡ 0 = omega arith in rw (left, right) (omega (arith, bit_xor-zero 0))
bit_xor-limit (suc w) x y hx hy =
    let above = bit_xor-limit w (x / 2) (y / 2) (omega arith) (omega arith) in
    omega (arith, above, bit_xor_step x y, lowest x y)

pub bit_xor-fits : (x y : ℕ) → x < 2 ^ 64 → y < 2 ^ 64 → bit_xor x y < 2 ^ 64
bit_xor-fits x y hx hy = bit_xor-limit 64 x y (omega arith) (omega arith)
