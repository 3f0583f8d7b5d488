-- ===== src/Base/Bits.antt =====
-- The bits of `&`, `|` and `^` at variables.
use Prim.Native.Nat.{
  ℕ, zero, suc, ◌+◌, ◌-◌, ◌*◌, ◌/◌, ◌%◌, ◌^◌, ◌≤◌, ◌<◌, min, max, digits, bitwise,
}
use Prim.Native.Nat.{bit_and, bit_or, bit_xor, bit_and-bitwise, bit_or-bitwise, bit_xor-bitwise}
use Prim.Native.Nat.{differ}
use mathlib.Core.Path.{◌≡◌, ◌∙◌, refl, ap, ap₂}
use native.Mathlib.Nat.{pow-suc}
use native.Mathlib.Omega.{arith}

-- `bitwise` works on binary digits with fuel. More fuel than the first number changes nothing, so
-- that each digit follows one equation.
module _ (z : ℕ → ℕ) (f : ℕ → ℕ → ℕ) where
  more_fuel : (x n y : ℕ) → x ≤ n → digits z f (suc n) x y ≡ digits z f n x y
  more_fuel zero zero y h = refl
  more_fuel zero (suc n) y h = refl
  more_fuel (suc x) zero y h = absurd (omega arith)
  more_fuel (suc x) (suc n) y h = omega (arith, more_fuel (suc x / 2) n (y / 2) (omega arith))

  enough_fuel : (k x y : ℕ) → digits z f (k + x) x y ≡ digits z f x x y
  enough_fuel zero x y = ap (λ n. digits z f n x y) (omega arith)
  enough_fuel (suc k) x y =
      let one_more : suc k + x ≡ suc (k + x) = omega arith in
      ap (λ n. digits z f n x y) one_more ∙ more_fuel x (k + x) y (omega arith) ∙ enough_fuel k x y

  -- The lowest digit, if the operation at 0 has such an equation.
  bitwise_digit :
      ((y : ℕ) → z y ≡ z (y / 2) * 2 + f 0 (y % 2))
      → (a b : ℕ) → bitwise z f a b ≡ bitwise z f (a / 2) (b / 2) * 2 + f (a % 2) (b % 2)
  bitwise_digit base zero b = base b
  bitwise_digit base (suc a) b = omega (arith, shorter ∙ enough_fuel spare half (b / 2))
    where
      half : ℕ
      half = suc a / 2

      spare : ℕ
      spare = a - half

      shorter : digits z f a half (b / 2) ≡ digits z f (spare + half) half (b / 2)
      shorter = ap (λ n. digits z f n half (b / 2)) (omega arith)

differ_bits : (x y : ℕ) → x < 2 → y < 2 → differ x y ≡ (x + y) % 2
differ_bits zero y hx hy = omega arith
differ_bits (suc zero) zero hx hy = refl
differ_bits (suc zero) (suc zero) hx hy = refl
differ_bits (suc zero) (suc (suc y)) hx hy = absurd (omega arith)
differ_bits (suc (suc x)) y hx hy = absurd (omega arith)

-- The digit equations of the three operations.
pub bit_or_step : (x y : ℕ) → bit_or x y ≡ bit_or (x / 2) (y / 2) * 2 + max (x % 2) (y % 2)
bit_or_step x y =
    let step = bitwise_digit (λ n. n) max (λ n. omega arith) x y in simp bit_or-bitwise step

pub bit_and_step : (x y : ℕ) → bit_and x y ≡ bit_and (x / 2) (y / 2) * 2 + min (x % 2) (y % 2)
bit_and_step x y =
    let step = bitwise_digit (λ n. 0) min (λ n. omega arith) x y in simp bit_and-bitwise step

pub bit_xor_step : (x y : ℕ) → bit_xor x y ≡ bit_xor (x / 2) (y / 2) * 2 + (x % 2 + y % 2) % 2
bit_xor_step x y =
    let step =
      bitwise_digit (λ n. n) differ
        (λ n. omega (arith, differ_bits 0 (n % 2) (omega arith) (omega arith))) x y in
    let digit : bit_xor x y ≡ bit_xor (x / 2) (y / 2) * 2 + differ (x % 2) (y % 2) =
      simp bit_xor-bitwise step in
    omega (arith, digit, differ_bits (x % 2) (y % 2) (omega arith) (omega arith))

-- Halving commutes with each operation, and the lowest bit is that of the lowest bits.
pub bit_xor_half : (a b : ℕ) → bit_xor a b / 2 ≡ bit_xor (a / 2) (b / 2)
bit_xor_half a b = omega (arith, bit_xor_step a b)

pub bit_xor_low : (a b : ℕ) → bit_xor a b % 2 ≡ (a + b) % 2
bit_xor_low a b = omega (arith, bit_xor_step a b)

pub bit_or_half : (a b : ℕ) → bit_or a b / 2 ≡ bit_or (a / 2) (b / 2)
bit_or_half a b = omega (arith, bit_or_step a b)

pub bit_or_low : (a b : ℕ) → bit_or a b % 2 ≡ max (a % 2) (b % 2)
bit_or_low a b = omega (arith, bit_or_step a b)

pub bit_and_half : (a b : ℕ) → bit_and a b / 2 ≡ bit_and (a / 2) (b / 2)
bit_and_half a b = omega (arith, bit_and_step a b)

-- Bit 4 and bit 8 of an exclusive or.
pub bit_xor_bit4 : (a b : ℕ) → bit_xor a b / 16 % 2 ≡ (a / 16 + b / 16) % 2
bit_xor_bit4 a b = omega (
  arith,
  bit_xor_half a b,
  bit_xor_half (a / 2) (b / 2),
  bit_xor_half (a / 2 / 2) (b / 2 / 2),
  bit_xor_half (a / 2 / 2 / 2) (b / 2 / 2 / 2),
  bit_xor_low (a / 2 / 2 / 2 / 2) (b / 2 / 2 / 2 / 2),
)

pub bit_xor_bit8 : (a b : ℕ) → bit_xor a b / 256 % 2 ≡ (a / 256 + b / 256) % 2
bit_xor_bit8 a b = omega (arith, high, bit_xor_bit4 (a / 16) (b / 16))
  where
    same : bit_xor (a / 2 / 2 / 2 / 2) (b / 2 / 2 / 2 / 2) ≡ bit_xor (a / 16) (b / 16)
    same = ap₂ bit_xor (omega arith) (omega arith)

    high : bit_xor a b / 16 ≡ bit_xor (a / 16) (b / 16)
    high = omega (
      arith,
      bit_xor_half a b,
      bit_xor_half (a / 2) (b / 2),
      bit_xor_half (a / 2 / 2) (b / 2 / 2),
      bit_xor_half (a / 2 / 2 / 2) (b / 2 / 2 / 2),
      same,
    )

-- Zero as the second operand.
masked_by_zero : (fuel x : ℕ) → x ≤ fuel → bit_and x 0 ≡ 0
masked_by_zero (suc fuel) (suc x) le =
    let rest = masked_by_zero fuel (suc x / 2) (omega arith) in
    omega (arith, rest, bit_and_step (suc x) 0)
masked_by_zero zero (suc x) le = absurd (omega arith)
masked_by_zero zero zero le = refl
masked_by_zero (suc fuel) zero le = refl

pub bit_and-zero : (x : ℕ) → bit_and x 0 ≡ 0
bit_and-zero x = masked_by_zero x x (omega arith)

pub bit_and_mask1 : (x : ℕ) → bit_and x 1 ≡ x % 2
bit_and_mask1 x = omega (arith, bit_and_step x 1, bit_and-zero (x / 2))

bit_and_mask2 : (x : ℕ) → bit_and x 2 ≡ x / 2 % 2 * 2
bit_and_mask2 x = omega (arith, bit_and_step x 2, bit_and_mask1 (x / 2))

bit_and_mask4 : (x : ℕ) → bit_and x 4 ≡ x / 4 % 2 * 4
bit_and_mask4 x = omega (arith, bit_and_step x 4, bit_and_mask2 (x / 2))

-- `x & (1 << k)` is the bit `k`, at its place.
pub bit_and_mask8 : (x : ℕ) → bit_and x 8 ≡ x / 8 % 2 * 8
bit_and_mask8 x = omega (arith, bit_and_step x 8, bit_and_mask4 (x / 2))

pub bit_and_mask15 : (x : ℕ) → bit_and x 15 ≡ x % 16
bit_and_mask15 x = omega (
  arith,
  bit_and_step x 15,
  bit_and_step (x / 2) 7,
  bit_and_step (x / 2 / 2) 3,
  bit_and_mask1 (x / 2 / 2 / 2),
)

pub bit_and_mask16 : (x : ℕ) → bit_and x 16 ≡ x / 16 % 2 * 16
bit_and_mask16 x = omega (arith, bit_and_step x 16, bit_and_mask8 (x / 2))

bit_and_mask32 : (x : ℕ) → bit_and x 32 ≡ x / 32 % 2 * 32
bit_and_mask32 x = omega (arith, bit_and_step x 32, bit_and_mask16 (x / 2))

bit_and_mask64 : (x : ℕ) → bit_and x 64 ≡ x / 64 % 2 * 64
bit_and_mask64 x = omega (arith, bit_and_step x 64, bit_and_mask32 (x / 2))

pub bit_and_mask128 : (x : ℕ) → bit_and x 128 ≡ x / 128 % 2 * 128
bit_and_mask128 x = omega (arith, bit_and_step x 128, bit_and_mask64 (x / 2))

pub bit_and_mask256 : (x : ℕ) → bit_and x 256 ≡ x / 256 % 2 * 256
bit_and_mask256 x = omega (arith, bit_and_step x 256, bit_and_mask128 (x / 2))

-- The results stay within the width of the operands.
pub bit_and-lt : (k a b : ℕ) → a < 2 ^ k → b < 2 ^ k → bit_and a b < 2 ^ k
bit_and-lt zero zero b ha hb = simp bit_and-bitwise (omega arith)
bit_and-lt zero (suc a) b ha hb = absurd (omega arith)
bit_and-lt (suc k) a b ha hb = omega (
  arith,
  bit_and_step a b,
  pow-suc 2 k,
  bit_and-lt k (a / 2) (b / 2) (omega (arith, pow-suc 2 k)) (omega (arith, pow-suc 2 k)),
)

pub bit_or-lt : (k a b : ℕ) → a < 2 ^ k → b < 2 ^ k → bit_or a b < 2 ^ k
bit_or-lt zero zero b ha hb = simp bit_or-bitwise (omega arith)
bit_or-lt zero (suc a) b ha hb = absurd (omega arith)
bit_or-lt (suc k) a b ha hb = omega (
  arith,
  bit_or_step a b,
  pow-suc 2 k,
  bit_or-lt k (a / 2) (b / 2) (omega (arith, pow-suc 2 k)) (omega (arith, pow-suc 2 k)),
)

pub bit_xor-lt : (k a b : ℕ) → a < 2 ^ k → b < 2 ^ k → bit_xor a b < 2 ^ k
bit_xor-lt zero zero b ha hb = simp bit_xor-bitwise (omega arith)
bit_xor-lt zero (suc a) b ha hb = absurd (omega arith)
bit_xor-lt (suc k) a b ha hb = omega (
  arith,
  bit_xor_step a b,
  pow-suc 2 k,
  bit_xor-lt k (a / 2) (b / 2) (omega (arith, pow-suc 2 k)) (omega (arith, pow-suc 2 k)),
)

-- Bit 3 of an inclusive or, as a mask reads it.
pub bit_or_mask8 : (a b : ℕ) → bit_and (bit_or a b) 8 ≡ max (a / 8 % 2) (b / 8 % 2) * 8
bit_or_mask8 a b = omega (
  arith,
  bit_and_mask8 (bit_or a b),
  bit_or_half a b,
  bit_or_half (a / 2) (b / 2),
  bit_or_half (a / 2 / 2) (b / 2 / 2),
  bit_or_low (a / 2 / 2 / 2) (b / 2 / 2 / 2),
)

joined_with_zero : (fuel x : ℕ) → x ≤ fuel → bit_or x 0 ≡ x
joined_with_zero (suc fuel) (suc x) le =
    let rest = joined_with_zero fuel (suc x / 2) (omega arith) in
    omega (arith, rest, bit_or_step (suc x) 0)
joined_with_zero zero (suc x) le = absurd (omega arith)
joined_with_zero zero zero le = refl
joined_with_zero (suc fuel) zero le = refl

pub bit_or-zero : (x : ℕ) → bit_or x 0 ≡ x
bit_or-zero x = joined_with_zero x x (omega arith)

pub bit_or_one : (x : ℕ) → bit_or (x * 2) 1 ≡ x * 2 + 1
bit_or_one x = omega (arith, bit_or_step (x * 2) 1, same, bit_or-zero x)
  where
    same : bit_or (x * 2 / 2) 0 ≡ bit_or x 0
    same = ap (λ (y : ℕ). bit_or y 0) (omega arith)
