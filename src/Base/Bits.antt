-- ===== src/Base/Bits.antt =====
-- `|` at variables, digit by digit: the equation of its lowest digit, and what follows for masks.
use Prim.Native.Nat.{
  ℕ, zero, suc, ◌+◌, ◌*◌, ◌/◌, ◌%◌, ◌≤◌, ◌<◌, max, bit_or, digits, bit_or-bitwise,
}
use mathlib.Core.Path.{◌≡◌, refl}
use native.Mathlib.Omega.{arith}

-- The digits of `a | b`, with more rounds than needed.
abbrev or_digits : ℕ → ℕ → ℕ → ℕ
or_digits n a b = digits (λ y. y) max n a b

or_digits_rounds : (n m a b : ℕ) → a ≤ n → a ≤ m → or_digits n a b ≡ or_digits m a b
or_digits_rounds zero zero a b p q = refl
or_digits_rounds zero (suc m) zero b p q = refl
or_digits_rounds zero (suc m) (suc a) b p q = absurd (omega arith)
or_digits_rounds (suc n) zero zero b p q = refl
or_digits_rounds (suc n) zero (suc a) b p q = absurd (omega arith)
or_digits_rounds (suc n) (suc m) zero b p q = refl
or_digits_rounds (suc n) (suc m) (suc a) b p q =
    omega (arith, or_digits_rounds n m (suc a / 2) (b / 2) (omega arith) (omega arith))

zero-bit_or : (b : ℕ) → bit_or 0 b ≡ b
zero-bit_or b = bit_or-bitwise 0 b

bit_or_step : (a b : ℕ) → bit_or a b ≡ bit_or (a / 2) (b / 2) * 2 + max (a % 2) (b % 2)
bit_or_step zero b = ground (arith, zero-bit_or b, zero-bit_or (b / 2))
bit_or_step (suc a) b = omega (
  arith,
  bit_or-bitwise (suc a) b,
  bit_or-bitwise (suc a / 2) (b / 2),
  or_digits_rounds a (suc a / 2) (suc a / 2) (b / 2) (omega arith) (omega arith),
)

pub bit_or_half : (a b : ℕ) → bit_or a b / 2 ≡ bit_or (a / 2) (b / 2)
bit_or_half a b = omega (arith, bit_or_step a b)

pub bit_or_low : (a b : ℕ) → bit_or a b % 2 ≡ max (a % 2) (b % 2)
bit_or_low a b = omega (arith, bit_or_step a b)

bit_or-zero_rounds : (n a : ℕ) → a ≤ n → bit_or a 0 ≡ a
bit_or-zero_rounds n zero h = refl
bit_or-zero_rounds zero (suc a) h = absurd (omega arith)
bit_or-zero_rounds (suc n) (suc a) h =
    omega (arith, bit_or_step (suc a) 0, bit_or-zero_rounds n (suc a / 2) (omega arith))

pub bit_or-zero : (a : ℕ) → bit_or a 0 ≡ a
bit_or-zero a = bit_or-zero_rounds a a (omega arith)

-- `x | 6` sets bits 1 and 2, `x | 7` and `x | 1` also bit 0.
pub bit_or_six : (x : ℕ) → (bit_or x 6 / 8 ≡ x / 8) × (bit_or x 6 % 2 ≡ x % 2)
bit_or_six x = omega (
  arith,
  bit_or_half x 6,
  bit_or_half (x / 2) 3,
  bit_or_half (x / 2 / 2) 1,
  bit_or-zero (x / 2 / 2 / 2),
  bit_or_low x 6,
)

pub bit_or_seven : (x : ℕ) → (bit_or x 7 / 8 ≡ x / 8) × (bit_or x 7 % 2 ≡ 1)
bit_or_seven x = omega (
  arith,
  bit_or_half x 7,
  bit_or_half (x / 2) 3,
  bit_or_half (x / 2 / 2) 1,
  bit_or-zero (x / 2 / 2 / 2),
  bit_or_low x 7,
)

pub bit_or_one : (x : ℕ) → (bit_or x 1 / 2 ≡ x / 2) × (bit_or x 1 % 2 ≡ 1)
bit_or_one x = omega (arith, bit_or_half x 1, bit_or-zero (x / 2), bit_or_low x 1)

-- `x` shifted right by `k`.
abbrev halve : ℕ → ℕ → ℕ
halve zero x = x
halve (suc k) x = halve k (x / 2)

bit_or-halve : (k a b : ℕ) → halve k (bit_or a b) ≡ bit_or (halve k a) (halve k b)
bit_or-halve zero a b = refl
bit_or-halve (suc k) a b = rw (bit_or_half a b) (bit_or-halve k (a / 2) (b / 2))

-- The bits from 12 on are those of `x`, where the mask has none there.
pub bit_or_page : (x m : ℕ) → m < 4096 → bit_or x m / 4096 ≡ x / 4096
bit_or_page x m h =
    let z : halve 12 m ≡ 0 = omega arith in
    let e : halve 12 (bit_or x m) ≡ bit_or (halve 12 x) (halve 12 m) = bit_or-halve 12 x m in
    omega (arith, rw z at e, bit_or-zero (halve 12 x))
