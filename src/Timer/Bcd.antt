-- ===== src/Timer/Bcd.antt =====
-- Counts in decimal digits: `ToBcd` and `FromBcd` of libs/v6core/src/timer_i8253.cpp.
use v6emul.Base.{ℕ, ◌+◌, ◌*◌, ◌/◌, ◌%◌, ◌<◌, ◌≡◌, refl, ◌∙◌, ap, arith, bit_or, ltb, false}
use Prim.Native.Nat.{bit_or-bitwise}
use v6emul.Base.Bits.{bit_or_step}
use v6emul.Timer.{to_bcd, to_bcd_loop, from_bcd, from_bcd_loop}

-- An even second operand leaves the lowest bit of the first.
bit_or_even : (a b : ℕ) → bit_or a (b * 2) ≡ bit_or (a / 2) b * 2 + a % 2
bit_or_even a b =
    let half : bit_or (a / 2) (b * 2 / 2) ≡ bit_or (a / 2) b = ap (bit_or (a / 2)) (omega arith) in
    omega (arith, bit_or_step a (b * 2), half)

-- A number of four bits below a multiple of 16.
bit_or_digit : (a b : ℕ) → bit_or a (b * 16) ≡ bit_or (a / 16) b * 16 + a % 16
bit_or_digit a b =
    let s3 : bit_or a (b * 16) ≡ bit_or a (b * 8 * 2) = ap (bit_or a) (omega arith) in
    let s2 : bit_or (a / 2) (b * 8) ≡ bit_or (a / 2) (b * 4 * 2) =
      ap (bit_or (a / 2)) (omega arith) in
    let s1 : bit_or (a / 2 / 2) (b * 4) ≡ bit_or (a / 2 / 2) (b * 2 * 2) =
      ap (bit_or (a / 2 / 2)) (omega arith) in
    let s0 : bit_or (a / 2 / 2 / 2 / 2) b ≡ bit_or (a / 16) b =
      ap (λ x. bit_or x b) (omega arith) in
    omega (
      arith,
      s3,
      bit_or_even a (b * 8),
      s2,
      bit_or_even (a / 2) (b * 4),
      s1,
      bit_or_even (a / 2 / 2) (b * 2),
      bit_or_even (a / 2 / 2 / 2) b,
      s0,
    )

zero_bit_or : (b : ℕ) → bit_or 0 b ≡ b
zero_bit_or b = simp bit_or-bitwise refl

join_digit1 : (a b : ℕ) → a < 16 → bit_or a (b * 16) ≡ a + b * 16
join_digit1 a b h =
    let high : a / 16 ≡ 0 = omega (arith, h) in
    let zero_high : bit_or (a / 16) b ≡ b = ap (λ x. bit_or x b) high ∙ zero_bit_or b in
    omega (arith, bit_or_digit a b, zero_high, h)

join_digit2 : (a b : ℕ) → a < 256 → bit_or a (b * 256) ≡ a + b * 256
join_digit2 a b h =
    let split : bit_or a (b * 256) ≡ bit_or a (b * 16 * 16) = ap (bit_or a) (omega arith) in
    omega (arith, split, bit_or_digit a (b * 16), join_digit1 (a / 16) b (omega (arith, h)))

join_digit3 : (a b : ℕ) → a < 4096 → bit_or a (b * 4096) ≡ a + b * 4096
join_digit3 a b h =
    let split : bit_or a (b * 4096) ≡ bit_or a (b * 256 * 16) = ap (bit_or a) (omega arith) in
    omega (arith, split, bit_or_digit a (b * 256), join_digit2 (a / 16) b (omega (arith, h)))

-- The digits at their places.
pub to_bcd_lem :
    (x : ℕ)
    → x < 10000
    → to_bcd x ≡ x % 10 + x / 10 % 10 * 16 + x / 10 / 10 % 10 * 256 + x / 10 / 10 / 10 % 10 * 4096
unfolding to_bcd to_bcd_loop
to_bcd_lem x h =
    let same : x % 65536 ≡ x = omega (arith, h) in
    let e0 : bit_or 0 (x % 10 * 1) ≡ x % 10 = zero_bit_or (x % 10 * 1) ∙ omega arith in
    let e1 = join_digit1 (x % 10) (x / 10 % 10) (omega arith) in
    let e2 = join_digit2 (x % 10 + x / 10 % 10 * 16) (x / 10 / 10 % 10) (omega arith) in
    let e3 =
      join_digit3 (x % 10 + x / 10 % 10 * 16 + x / 10 / 10 % 10 * 256) (x / 10 / 10 / 10 % 10)
        (omega arith) in
    simp (same, e0, e1, e2, e3) (omega arith)

pub from_bcd_lem :
    (a b c d : ℕ)
    → a < 10
    → b < 10
    → c < 10
    → d < 10
    → from_bcd (a + b * 16 + c * 256 + d * 4096) ≡ a + b * 10 + c * 100 + d * 1000
unfolding from_bcd from_bcd_loop
from_bcd_lem a b c d ha hb hc hd =
    let u0 : (a + b * 16 + c * 256 + d * 4096) % 65536 ≡ a + b * 16 + c * 256 + d * 4096 =
      omega (arith, ha, hb, hc, hd) in
    let u1 : (a + b * 16 + c * 256 + d * 4096) * 16 % 65536 ≡ a * 16 + b * 256 + c * 4096 =
      omega (arith, ha, hb, hc, hd) in
    let u2 : (a * 16 + b * 256 + c * 4096) * 16 % 65536 ≡ a * 256 + b * 4096 =
      omega (arith, ha, hb, hc) in
    let u3 : (a * 256 + b * 4096) * 16 % 65536 ≡ a * 4096 = omega (arith, ha, hb) in
    let t0 : (a + b * 16 + c * 256 + d * 4096) / 4096 % 16 ≡ d = omega (arith, ha, hb, hc, hd) in
    let t1 : (a * 16 + b * 256 + c * 4096) / 4096 % 16 ≡ c = omega (arith, ha, hb, hc) in
    let t2 : (a * 256 + b * 4096) / 4096 % 16 ≡ b = omega (arith, ha, hb) in
    let t3 : a * 4096 / 4096 % 16 ≡ a = omega (arith, ha) in
    let n0 : ltb 9 a ≡ false = ground (arith, ha) in
    let n1 : ltb 9 b ≡ false = ground (arith, hb) in
    let n2 : ltb 9 c ≡ false = ground (arith, hc) in
    let n3 : ltb 9 d ≡ false = ground (arith, hd) in
    simp (u0, u1, u2, u3, t0, t1, t2, t3, n0, n1, n2, n3) (omega (arith, ha, hb, hc, hd))

-- Below 10000, `FromBcd` gives back the number that `ToBcd` wrote in decimal digits.
pub from_bcd-to_bcd : (x : ℕ) → x < 10000 → from_bcd (to_bcd x) ≡ x
from_bcd-to_bcd x h =
    ap from_bcd (to_bcd_lem x h)
    ∙ from_bcd_lem (x % 10) (x / 10 % 10) (x / 10 / 10 % 10) (x / 10 / 10 / 10 % 10) (omega arith)
        (omega arith) (omega arith) (omega arith)
    ∙ omega (arith, h)
