-- ===== src/Disasm/Hex.antt =====
-- Numbers as text: `InitAddrsS`, `Uint8ToStrC` and `Uint16ToStrC` of libs/v6utils/src/str_utils.cpp,
-- and the conversions %X, %d and %llu that the formats of libs/v6core/src/disasm.cpp use.
use v6emul.Base.{
  ℕ, zero, suc, ◌+◌, ◌-◌, ◌*◌, ◌/◌, ◌%◌, ◌^◌, ◌≤◌, ◌<◌, ◌≡◌, refl, ap, ◌∙◌, arith, [], ◌∷◌, ◌++◌,
  length, replicate, ltb, if◌then◌else◌,
}
use v6emul.Base.Text.{Bytes}
use native.Mathlib.Nat.{pow-zero, pow-suc, div-lt_iff_lt-mul}

-- a digit below 10 or 16
unfoldable pub hex_digit : ℕ → ℕ
hex_digit d = if ltb d 10 then 48 + d else 55 + d

-- the digits of a number before a text; twenty are enough for 64 bits
unfoldable pub digits_before : ℕ → ℕ → ℕ → Bytes → Bytes
digits_before zero base n text = text
digits_before (suc fuel) base n text =
    let rest = digits_before fuel base (n / base) (hex_digit (n % base) ∷ text) in
    if ltb n base then hex_digit n ∷ text else rest

-- `%0<width>` in a base
unfoldable pub print_number : ℕ → ℕ → ℕ → Bytes
print_number base width n =
    let digits = digits_before 20 base n [] in replicate (width - length digits) 48 ++ digits

-- `Uint8ToStrC`
unfoldable pub uint8_to_str_c : ℕ → Bytes
uint8_to_str_c n = print_number 16 2 n

-- `Uint16ToStrC`
unfoldable pub uint16_to_str_c : ℕ → Bytes
uint16_to_str_c n = print_number 16 4 n

-- `Uint8ToStrC0x`
unfoldable pub uint8_to_str_c0x : ℕ → Bytes
uint8_to_str_c0x n = 48 ∷ 120 ∷ uint8_to_str_c n

-- `Uint16ToStrC0x`
unfoldable pub uint16_to_str_c0x : ℕ → Bytes
uint16_to_str_c0x n = 48 ∷ 120 ∷ uint16_to_str_c n

pub length-append : (s t : Bytes) → length (s ++ t) ≡ length s + length t
length-append [] t = omega arith
length-append (c ∷ s) t = omega (arith, length-append s t)

pub length-replicate : (n c : ℕ) → length (replicate n c) ≡ n
length-replicate zero c = refl
length-replicate (suc n) c = ap suc (length-replicate n c)

length-digits_before :
    (fuel base n k : ℕ) (text : Bytes)
    → 1 < base
    → n < base ^ suc k
    → length (digits_before fuel base n text) ≤ suc k + length text
unfolding digits_before
length-digits_before zero base n k text b h = omega arith
length-digits_before (suc fuel) base n zero text b h =
    let below : n < base = omega (arith, h, pow-suc base 0 ∙ ap (λ p. p * base) (pow-zero base)) in
    ground (arith, below)
length-digits_before (suc fuel) base n (suc k) text b h =
    let less : n / base < base ^ suc k =
      (div-lt_iff_lt-mul (omega arith)).1 (omega (arith, h, pow-suc base (suc k))) in
    ground (arith, length-digits_before fuel base (n / base) k (hex_digit (n % base) ∷ text) b less)

-- A number that fits takes its width.
pub length-print_number :
    (base k n : ℕ) → 1 < base → n < base ^ suc k → length (print_number base (suc k) n) ≡ suc k
unfolding print_number
length-print_number base k n b h =
    let digits = digits_before 20 base n [] in
    omega (
      arith,
      length-append (replicate (suc k - length digits) 48) digits,
      length-replicate (suc k - length digits) 48,
      length-digits_before 20 base n k [] b h,
    )

-- No number takes more than its width and twenty digits.
pub length-print_number_long : (n : ℕ) → n < 10 ^ 20 → length (print_number 10 12 n) ≤ 20
unfolding print_number
length-print_number_long n h =
    let digits = digits_before 20 10 n [] in
    omega (
      arith,
      length-append (replicate (12 - length digits) 48) digits,
      length-replicate (12 - length digits) 48,
      length-digits_before 20 10 n 19 [] (omega arith) h,
    )

pub length-uint8_to_str_c : (n : ℕ) → n < 256 → length (uint8_to_str_c n) ≡ 2
unfolding uint8_to_str_c
length-uint8_to_str_c n h = length-print_number 16 1 n (omega arith) h

pub length-uint16_to_str_c : (n : ℕ) → n < 0x10000 → length (uint16_to_str_c n) ≡ 4
unfolding uint16_to_str_c
length-uint16_to_str_c n h = length-print_number 16 3 n (omega arith) h
