-- ===== src/Isa/Flags.antt =====
-- The arithmetic of the instruction set: results and flags, by plain numbers.
use v6emul.Base.{ℕ, zero, suc, ◌+◌, ◌-◌, ◌*◌, ◌/◌, ◌%◌, Bool, true, false, not, ◌||◌, ltb, leb}
use v6emul.Base.{◌==◌, if◌then◌else◌, bit_and, bit_or, bit_xor, bool_to_ℕ, test_bit}
use v6emul.Cpu.State.{Cpu, get_word, pair_hl}

-- the number of ones among the lowest bits
pub ones : ℕ → ℕ → ℕ
ones zero n = 0
ones (suc k) n = n % 2 + ones k (n / 2)

unfoldable pub even_parity : ℕ → Bool
unfolding ones
even_parity v = ones 8 v % 2 == 0

-- zero, sign and parity of a result
abbrev pub zsp : ℕ → Cpu → Cpu
zsp v s = record s { fz = v == 0; fs = leb 128 v; fp = even_parity v }

-- A + b + carry: the carry out of bit 7 and out of bit 3
abbrev pub add_flags : ℕ → Bool → Cpu → Cpu
add_flags b cy s =
    let sum = s.a + b + bool_to_ℕ cy in
    zsp (sum % 256) (record s {
      a = sum % 256;
      fc = leb 256 sum;
      fac = leb 16 (s.a % 16 + b % 16 + bool_to_ℕ cy);
    })

-- A - b - borrow: the carry is the borrow, the half carry its absence in the low digit
abbrev pub sub_flags : ℕ → Bool → Cpu → Cpu
sub_flags b cy s =
    let taken = b + bool_to_ℕ cy in
    let v = (s.a + 256 - taken) % 256 in
    zsp v (record s { a = v; fc = ltb s.a taken; fac = leb (b % 16 + bool_to_ℕ cy) (s.a % 16) })

-- a comparison is a subtraction that keeps A
abbrev pub compare_flags : ℕ → Cpu → Cpu
compare_flags b s = record (sub_flags b false s) { a = s.a }

abbrev pub and_flags : ℕ → Cpu → Cpu
and_flags b s =
    let v = bit_and s.a b in
    zsp v (record s { a = v; fc = false; fac = test_bit s.a 3 || test_bit b 3 })

abbrev pub xor_flags : ℕ → Cpu → Cpu
xor_flags b s = let v = bit_xor s.a b in zsp v (record s { a = v; fc = false; fac = false })

abbrev pub or_flags : ℕ → Cpu → Cpu
or_flags b s = let v = bit_or s.a b in zsp v (record s { a = v; fc = false; fac = false })

-- the flags of x + 1 and x - 1, which leave the carry alone
abbrev pub inr_flags : ℕ → Cpu → Cpu
inr_flags x s = zsp ((x + 1) % 256) (record s { fac = x % 16 == 15 })

abbrev pub dcr_flags : ℕ → Cpu → Cpu
dcr_flags x s = zsp ((x + 255) % 256) (record s { fac = not (x % 16 == 0) })

-- DAA in the manual's two steps: the low digit, then the high digit of what that gives.
abbrev pub adjust : Cpu → Cpu
adjust s =
    let six = if s.fac || ltb 9 (s.a % 16) then 6 else 0 in
    let high = s.fc || leb 0xa0 (s.a + six) in
    let v = (s.a + six + (if high then 0x60 else 0)) % 256 in
    zsp v (record s { a = v; fc = high; fac = leb 16 (s.a % 16 + six) })

abbrev pub rotate_left : Cpu → Cpu
rotate_left s = record s { a = s.a * 2 % 256 + s.a / 128; fc = leb 128 s.a }

abbrev pub rotate_right : Cpu → Cpu
rotate_right s = record s { a = s.a / 2 + s.a % 2 * 128; fc = s.a % 2 == 1 }

abbrev pub rotate_left_carry : Cpu → Cpu
rotate_left_carry s = record s { a = s.a * 2 % 256 + bool_to_ℕ s.fc; fc = leb 128 s.a }

abbrev pub rotate_right_carry : Cpu → Cpu
rotate_right_carry s = record s { a = s.a / 2 + bool_to_ℕ s.fc * 128; fc = s.a % 2 == 1 }

-- DAD: the sum on 16 bits and its carry
abbrev pub add_hl : ℕ → Cpu → Cpu
add_hl v s =
    let sum = get_word pair_hl s + v in
    record s { h = sum / 256 % 256; l = sum % 256; fc = not (sum / 65536 == 0) }

-- PSW has its three unused bits fixed.
abbrev pub fix_unused : Cpu → Cpu
fix_unused s = record s { f1 = true; f3 = false; f5 = false }
