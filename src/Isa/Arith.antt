-- ===== src/Isa/Arith.antt =====
-- The helpers of libs/v6core/src/cpu_i8080.cpp that compute, against the arithmetic of the manual.
use v6emul.Base.{ℕ, ◌+◌, ◌-◌, ◌*◌, ◌/◌, ◌%◌, ◌<◌, ◌≡◌, refl, arith, Bool, true, false, not}
use v6emul.Base.{ap, nonzero, leb, ltb, ◌==◌, ==_iff, if◌then◌else◌, bool_to_ℕ, not8, not32}
use v6emul.Base.{all_below, all_below_sound, bit_and, bit_or, bit_xor, u8}
use v6emul.Base.Bits.{
  bit_xor_bit4, bit_xor_bit8, bit_and_mask1, bit_and_mask16, bit_and_mask128, bit_and_mask256,
  bit_or_mask8, bit_or_one, bit_or-zero, bit_and_mask15, bit_and-lt, bit_or-lt, bit_xor-lt,
}
use v6emul.Base.{◌||◌}
use v6emul.Cpu.State.{Cpu}
use v6emul.Cpu.Tables.{get_parity}
use v6emul.Cpu.Alu
use v6emul.Cpu.Alu.{get_carry, set_zsp, difference}
use v6emul.Isa.Flags

bool_eq : Bool → Bool → Bool
bool_eq true b = b
bool_eq false b = not b

bool_eq_sound : (a b : Bool) → bool_eq a b ≡ true → a ≡ b
unfolding bool_eq
bool_eq_sound true b h = ground arith
bool_eq_sound false b h = ground arith

parity_agrees : all_below 256 (λ v. bool_eq (get_parity v) (Flags.even_parity v)) ≡ true
unfolding all_below bool_eq get_parity Flags.even_parity
parity_agrees = refl

-- The parity table holds, for every byte, whether its number of ones is even.
pub get_parity-even_parity : (v : ℕ) → v < 256 → get_parity v ≡ Flags.even_parity v
get_parity-even_parity v h = bool_eq_sound _ _ (all_below_sound 256 _ v parity_agrees h)

pub nonzero-mask128 : (v : ℕ) → v < 256 → nonzero (bit_and v 0x80) ≡ leb 128 v
nonzero-mask128 v h = ground (arith, bit_and_mask128 v)

-- `GetCarry` at bits 8 and 4 is the carry out of a byte and of its low digit.
pub get_carry_8 :
    (a b : ℕ) (cy : Bool) → a < 256 → b < 256 → get_carry 8 a b cy ≡ leb 256 (a + b + bool_to_ℕ cy)
unfolding get_carry
get_carry_8 a b true ha hb = ground (
  arith,
  bit_and_mask256 (bit_xor (bit_xor (a + b + 1) a) b),
  bit_xor_bit8 (bit_xor (a + b + 1) a) b,
  bit_xor_bit8 (a + b + 1) a,
)
get_carry_8 a b false ha hb = ground (
  arith,
  bit_and_mask256 (bit_xor (bit_xor (a + b + 0) a) b),
  bit_xor_bit8 (bit_xor (a + b + 0) a) b,
  bit_xor_bit8 (a + b + 0) a,
)

pub get_carry_4 :
    (a b : ℕ) (cy : Bool) → get_carry 4 a b cy ≡ leb 16 (a % 16 + b % 16 + bool_to_ℕ cy)
unfolding get_carry
get_carry_4 a b true = ground (
  arith,
  bit_and_mask16 (bit_xor (bit_xor (a + b + 1) a) b),
  bit_xor_bit4 (bit_xor (a + b + 1) a) b,
  bit_xor_bit4 (a + b + 1) a,
)
get_carry_4 a b false = ground (
  arith,
  bit_and_mask16 (bit_xor (bit_xor (a + b + 0) a) b),
  bit_xor_bit4 (bit_xor (a + b + 0) a) b,
  bit_xor_bit4 (a + b + 0) a,
)

pub set_zsp-zsp : (v : ℕ) (s : Cpu) → v < 256 → set_zsp v s ≡ Flags.zsp v s
unfolding set_zsp
set_zsp-zsp v s h = ground (arith, nonzero-mask128 v, get_parity-even_parity v)

-- For bytes, `ADD` is the sum on 8 bits; the carries that `GetCarry` reads from bits 8 and 4 of an
-- exclusive or are those out of bit 7 and bit 3, and zero, sign and parity are those of the sum.
pub add-add_flags :
    (b : ℕ) (cy : Bool) (s : Cpu)
    → s.a < 256
    → b < 256
    → Alu.add s.a b cy s ≡ Flags.add_flags b cy s
unfolding Alu.add
add-add_flags b cy s ha hb =
    rw (get_carry_8 s.a b cy ha hb, get_carry_4 s.a b cy) (set_zsp-zsp _ _ (omega arith))

-- For bytes, `SUB` is the subtraction with borrow: the difference on 8 bits, the carry flag set
-- exactly on a borrow, the half carry set exactly if the low digits need none.
pub sub-sub_flags :
    (b : ℕ) (cy : Bool) (s : Cpu)
    → s.a < 256
    → b < 256
    → Alu.sub s.a b cy s ≡ Flags.sub_flags b cy s
unfolding Alu.sub
sub-sub_flags b true s ha hb = rw (add-add_flags (not8 b) false s ha (omega arith)) (
    let v : (s.a + not8 b + 0) % 256 ≡ (s.a + 256 - (b + 1)) % 256 = omega arith in
    rw v (ground arith))
sub-sub_flags b false s ha hb = rw (add-add_flags (not8 b) true s ha (omega arith)) (
    let v : (s.a + not8 b + 1) % 256 ≡ (s.a + 256 - (b + 0)) % 256 = omega arith in
    rw v (ground arith))

compare_carry :
    (a b : ℕ) → a < 256 → b < 256 → nonzero (bit_and (difference a b) 0x100) ≡ ltb a (b + 0)
compare_carry a b ha hb = ground (arith, bit_and_mask256 (difference a b))

compare_half :
    (a b v : ℕ)
    → v ≡ (a + 256 - (b + 0)) % 256
    → a < 256
    → b < 256
    → (bit_and (not32 (bit_xor (bit_xor a v) b)) 0x10 == 0x10) ≡ leb (b % 16 + 0) (a % 16)
compare_half a b v e ha hb = ground (
  arith,
  bit_and_mask16 (not32 (bit_xor (bit_xor a v) b)),
  bit_xor_bit4 (bit_xor (bit_xor a v) b) 0xffff_ffff,
  bit_xor_bit4 (bit_xor a v) b,
  bit_xor_bit4 a v,
)

-- For bytes in ACT and TMP, with ACT a copy of A, the comparison sets the flags of the subtraction
-- and keeps A.
pub cmp-compare_flags :
    (s : Cpu)
    → s.act < 256
    → s.tmp < 256
    → s.act ≡ s.a
    → Alu.cmp_act_tmp s ≡ Flags.compare_flags s.tmp s
unfolding Alu.cmp_act_tmp
cmp-compare_flags s ha hb e =
    let v : difference s.act s.tmp % 256 ≡ (s.a + 256 - (s.tmp + 0)) % 256 = omega arith in
    rw
      (
        set_zsp-zsp (difference s.act s.tmp % 256) _ (omega arith),
        compare_carry s.act s.tmp ha hb,
        compare_half s.act s.tmp (difference s.act s.tmp % 256) (omega arith) ha hb,
        v,
        e,
      )
      refl

-- The logic operations of ACT and TMP are those of the manual, if ACT is A.
module _ (s : Cpu) (ha : s.act < 256) (hb : s.tmp < 256) (e : s.act ≡ s.a) where
  -- For bytes in ACT and TMP, with ACT a copy of A, the conjunction clears the carry, and its half
  -- carry is the disjunction of bits 3 of the operands.
  pub and-and_flags : Alu.and_act_tmp s ≡ Flags.and_flags s.tmp s
  unfolding Alu.and_act_tmp
  and-and_flags =
      rw (set_zsp-zsp (bit_and s.act s.tmp) _ (bit_and-lt 8 s.act s.tmp ha hb), ← e)
        (ground (arith, bit_or_mask8 s.act s.tmp))

  pub xor-xor_flags : Alu.xor_act_tmp s ≡ Flags.xor_flags s.tmp s
  unfolding Alu.xor_act_tmp
  xor-xor_flags = rw (set_zsp-zsp (bit_xor s.act s.tmp) _ (bit_xor-lt 8 s.act s.tmp ha hb), ← e)

  pub or-or_flags : Alu.or_act_tmp s ≡ Flags.or_flags s.tmp s
  unfolding Alu.or_act_tmp
  or-or_flags = rw (set_zsp-zsp (bit_or s.act s.tmp) _ (bit_or-lt 8 s.act s.tmp ha hb), ← e)

-- `DAA`: the correction is the manual's two steps.
abbrev six : Cpu → ℕ
six s = if s.fac || ltb 9 (s.a % 16) then 6 else 0

abbrev sixty : Cpu → Bool
sixty s = s.fc || leb 0xa0 (s.a + six s)

daa_correction_lem :
    (s : Cpu)
    → s.a < 256
    → Alu.daa_correction s.a s.fac s.fc ≡ (six s + (if sixty s then 0x60 else 0), sixty s)
unfolding Alu.daa_correction
daa_correction_lem s h = ground (arith, bit_and_mask15 s.a)

-- For a byte in A, `DAA` is the manual's adjustment in two steps: 6 to the low digit, then 0x60 to
-- the high digit of what that gives, with all flags.
pub daa-adjust : (s : Cpu) → s.a < 256 → Alu.daa s ≡ Flags.adjust s
unfolding Alu.daa
daa-adjust s h =
    rw
      (
        daa_correction_lem s h,
        add-add_flags (six s + (if sixty s then 0x60 else 0)) false s h (ground arith),
      )
      (let v : (s.a + (six s + (if sixty s then 0x60 else 0)) + 0) % 256
            ≡ (s.a + six s + (if sixty s then 0x60 else 0)) % 256 =
          omega arith in
        rw v (ground arith))

bit_or_top_table : all_below 128 (λ x. bit_or x 128 == x + 128) ≡ true
unfolding all_below
bit_or_top_table = refl

bit_or_top : (x : ℕ) → x < 128 → bit_or x 128 ≡ x + 128
bit_or_top x h = (==_iff _ _).0 (all_below_sound 128 _ x bit_or_top_table h)

pub rlc-rotate_left : (s : Cpu) → s.a < 256 → Alu.rlc s ≡ Flags.rotate_left s
unfolding Alu.rlc
rlc-rotate_left s h = ground (arith, bit_and_mask128 s.a)

pub rrc-rotate_right : (s : Cpu) → s.a < 256 → Alu.rrc s ≡ Flags.rotate_right s
unfolding Alu.rrc
rrc-rotate_right s h =
    ground (arith, bit_and_mask1 s.a, bit_or_top (s.a / 2), bit_or-zero (s.a / 2))

-- For a byte in A, `RAL` is the rotation to the left through the carry, in numbers.
pub ral-rotate_left_carry : (s : Cpu) → s.a < 256 → Alu.ral s ≡ Flags.rotate_left_carry s
unfolding Alu.ral
ral-rotate_left_carry s h = ground (
  arith,
  bit_and_mask128 s.a,
  ap (λ (y : ℕ). bit_or y 1) even,
  bit_or_one (s.a % 128),
  bit_or-zero (u8 (s.a * 2)),
)
  where
    even : u8 (s.a * 2) ≡ s.a % 128 * 2
    even = omega arith

-- For a byte in A, `RAR` is the rotation to the right through the carry, in numbers.
pub rar-rotate_right_carry : (s : Cpu) → s.a < 256 → Alu.rar s ≡ Flags.rotate_right_carry s
unfolding Alu.rar
rar-rotate_right_carry s h =
    ground (arith, bit_and_mask1 s.a, bit_or_top (s.a / 2), bit_or-zero (s.a / 2))

-- For a byte in A, `RAL` and `RAR` are the rotations through the carry, to the left and to the
-- right, in numbers.
pub rotate_carry_lem :
    (s : Cpu)
    → s.a < 256
    → (Alu.ral s ≡ Flags.rotate_left_carry s) × (Alu.rar s ≡ Flags.rotate_right_carry s)
rotate_carry_lem s h = (ral-rotate_left_carry s h, rar-rotate_right_carry s h)

-- The flags of INR and DCR.
pub inr_flags_lem :
    (x : ℕ) (s : Cpu)
    → x < 256
    → Alu.inr_flags (u8 (x + 1)) s ≡ record (Flags.inr_flags x s) { tmp = u8 (x + 1) }
unfolding Alu.inr_flags
inr_flags_lem x s h =
    rw (set_zsp-zsp (u8 (x + 1)) _ (omega arith)) (ground (arith, bit_and_mask15 (u8 (x + 1))))

pub dcr_flags_lem :
    (x : ℕ) (s : Cpu)
    → x < 256
    → Alu.dcr_flags (u8 (x + 255)) s ≡ record (Flags.dcr_flags x s) { tmp = u8 (x + 255) }
unfolding Alu.dcr_flags
dcr_flags_lem x s h =
    rw (set_zsp-zsp (u8 (x + 255)) _ (omega arith)) (ground (arith, bit_and_mask15 (u8 (x + 255))))
