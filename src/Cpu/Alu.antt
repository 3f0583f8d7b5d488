-- ===== src/Cpu/Alu.antt =====
-- The helpers of libs/v6core/src/cpu_i8080.cpp that change registers and flags only.
-- An `int` intermediate is written out: sums are never negative, differences are 32 bits wide.
use v6emul.Base.{ℕ, ◌+◌, ◌-◌, ◌*◌, ◌/◌, ◌%◌, ◌^◌, bit_and, bit_or, bit_xor, Bool, true, false, not}
use v6emul.Base.{◌&&◌, ◌||◌, u8, not8, not32, nonzero, bool_to_ℕ, ltb, leb, ◌==◌, if◌then◌else◌}
use v6emul.Cpu.State.{Cpu}
use v6emul.Cpu.Tables.{get_parity}

-- `GetCarry`
unfoldable pub get_carry : ℕ → ℕ → ℕ → Bool → Bool
get_carry bit_no a b cy =
    let result = a + b + bool_to_ℕ cy in
    let carry = bit_xor (bit_xor result a) b in nonzero (bit_and carry (2 ^ bit_no))

-- `SetZSP`
unfoldable pub set_zsp : ℕ → Cpu → Cpu
set_zsp v s = record s { fz = v == 0; fs = nonzero (bit_and v 0x80); fp = get_parity v }

-- `RLC`
unfoldable pub rlc : Cpu → Cpu
rlc s =
    let cy = nonzero (bit_and s.a 0x80) in
    record s { fc = cy; a = u8 (u8 (s.a * 2) + bool_to_ℕ cy) }

-- `RRC`
unfoldable pub rrc : Cpu → Cpu
rrc s =
    let cy = bit_and s.a 1 == 1 in
    record s { fc = cy; a = bit_or (s.a / 2) (if cy then 2 ^ 7 else 0) }

-- `RAL`
unfoldable pub ral : Cpu → Cpu
ral s = record s {
  fc = nonzero (bit_and s.a 0x80);
  a = bit_or (u8 (s.a * 2)) (if s.fc then 1 else 0);
}

-- `RAR`
unfoldable pub rar : Cpu → Cpu
rar s = record s { fc = bit_and s.a 1 == 1; a = bit_or (s.a / 2) (if s.fc then 2 ^ 7 else 0) }

-- `XCHG`: TMP holds the byte of the second exchange at the end.
unfoldable pub xchg : Cpu → Cpu
xchg s = record s { d = s.h; h = s.d; e = s.l; l = s.e; tmp = s.e }

-- `ADD`
unfoldable pub add : ℕ → ℕ → Bool → Cpu → Cpu
add a b cy s =
    let sum = u8 (a + b + bool_to_ℕ cy) in
    set_zsp sum (record s { a = sum; fc = get_carry 8 a b cy; fac = get_carry 4 a b cy })

-- `SUB`: the sum with the complement, and the carry inverted.
unfoldable pub sub : ℕ → ℕ → Bool → Cpu → Cpu
sub a b cy s = let s' = add a (not8 b) (not cy) s in record s' { fc = not s'.fc }

-- The flags of INR and DCR, on the value that goes back.
unfoldable pub inr_flags : ℕ → Cpu → Cpu
inr_flags v s = set_zsp v (record s { tmp = v; fac = bit_and v 0xf == 0 })

unfoldable pub dcr_flags : ℕ → Cpu → Cpu
dcr_flags v s = set_zsp v (record s { tmp = v; fac = not (bit_and v 0xf == 0xf) })

-- The correction of `DAA`, and whether it sets the carry.
unfoldable pub daa_correction : ℕ → Bool → Bool → ℕ × Bool
daa_correction a ac cy =
    let lsb = bit_and a 0xf in
    let msb = a / 16 in
    let low = if ac || ltb 9 lsb then 6 else 0 in
    if cy || ltb 9 msb || (leb 9 msb && ltb 9 lsb) then (low + 0x60, true) else (low, cy)

-- `DAA`
unfoldable pub daa : Cpu → Cpu
daa s =
    let (correction, cy) = daa_correction s.a s.fac s.fc in
    let s' = add s.a correction false s in record s' { fc = cy }

-- `A = ACT & TMP` with its flags, as in ANA, AMAMem and ANI.
unfoldable pub and_act_tmp : Cpu → Cpu
and_act_tmp s =
    let v = bit_and s.act s.tmp in
    set_zsp v (record s { a = v; fc = false; fac = nonzero (bit_and (bit_or s.act s.tmp) 0x08) })

-- `A = ACT ^ TMP`, as in XRA, XRAMem and XRI.
unfoldable pub xor_act_tmp : Cpu → Cpu
xor_act_tmp s =
    let v = bit_xor s.act s.tmp in set_zsp v (record s { a = v; fc = false; fac = false })

-- `A = ACT | TMP`, as in ORA, ORAMem and ORI.
unfoldable pub or_act_tmp : Cpu → Cpu
or_act_tmp s = let v = bit_or s.act s.tmp in set_zsp v (record s { a = v; fc = false; fac = false })

-- `ACT - TMP` as an `int`.
abbrev pub difference : ℕ → ℕ → ℕ
difference a b = (a + 2 ^ 32 - b) % 2 ^ 32

-- The comparison of ACT and TMP, as in CMP, CMPMem and CPI.
unfoldable pub cmp_act_tmp : Cpu → Cpu
cmp_act_tmp s =
    let res = difference s.act s.tmp in
    let byte = res % 256 in
    set_zsp byte (record s {
      fc = nonzero (bit_and res 0x100);
      fac = bit_and (not32 (bit_xor (bit_xor s.act byte) s.tmp)) 0x10 == 0x10;
    })
