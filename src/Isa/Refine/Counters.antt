-- ===== src/Isa/Refine/Counters.antt =====
-- The machine cycles of `CpuI8080` (libs/v6core/src/cpu_i8080.cpp) against the instruction set:
-- increments, decrements and sums of words.
use v6emul.Base.{
  Option, ℕ, ◌+◌, ◌*◌, ◌/◌, ◌%◌, ◌<◌, ◌≡◌, ◌∙◌, refl, ap, arith, Bool, true, false, not, List, ◌∷◌,
  some, u8, ◌==◌, nonzero, bit_and, bool_to_ℕ,
}
use v6emul.Base.Bits.{bit_and_mask256}
use v6emul.Memory.{ram, get_byte, byte_at, get_global_addr, cpu_read, cpu_write}
use v6emul.Memory.Bounds.{get_byte-lt}
use v6emul.Cpu.State.{Cpu, Machine, Bus, Reg, Pair, get_reg, get_word, pair_hl}
use v6emul.Cpu.Ops.{Op}
use v6emul.Cpu.Access.{on_cpu}
use v6emul.Cpu.Arith
use v6emul.Cpu.Step.{exec, request, end_cycle, is_instruction_executed}
use v6emul.Cpu.Valid.{IsCpu, IsMachine, get_reg-lt}
use v6emul.Isa.{hide, isa}
use v6emul.Isa.Arith.{inr_flags_lem, dcr_flags_lem}
use v6emul.Isa.Drive.{tick, drive, drive-next, op_cycles}
use v6emul.Isa.Refine.Start.{at_start, Refines, is_encoded, split16}
use mathlib.Core.Option

module _ {W : Type 0} (bus : Bus W) (m : Machine W) (valid : IsMachine m) (i j k l x y : Bool)
    (irqs : List Bool) where
  abbrev Ok : Op → Type 0
  Ok = Refines bus m i j k l x y irqs

  abbrev v : IsCpu m.cpu
  v = valid.cpu_valid

  pub inx : (p : Pair) → is_encoded (Op.inx p) ≡ true → Ok (Op.inx p)
  unfolding drive op_cycles exec request end_cycle is_instruction_executed isa Arith.inx
  inx Pair.pair_psw h = cc
  inx Pair.pair_sp h = simp split16
  inx Pair.pair_bc h = simp split16
  inx Pair.pair_de h = simp split16
  inx Pair.pair_hl h = simp split16

  pub dcx : (p : Pair) → is_encoded (Op.dcx p) ≡ true → Ok (Op.dcx p)
  unfolding drive op_cycles exec request end_cycle is_instruction_executed isa Arith.dcx
  dcx Pair.pair_psw h = cc
  dcx Pair.pair_sp h = simp split16
  dcx Pair.pair_bc h = simp split16
  dcx Pair.pair_de h = simp split16
  dcx Pair.pair_hl h = simp split16

  -- the first cycle of INR and DCR, by the registers that it leaves
  abbrev first : Cpu
  first = (request i (at_start m)).cpu

  abbrev middle : Cpu → Machine W
  middle s = on_cpu (end_cycle 2) (record (at_start m) { cpu = s })

  double :
      (op : Op) (s s' : Cpu)
      → tick bus 2 op i (at_start m) ≡ middle s
      → s ≡ s'
      → s'.mc ≡ 0
      → s'.hlta ≡ false
      → drive bus 2 op (i ∷ j ∷ k ∷ l ∷ x ∷ y ∷ irqs) (at_start m)
        ≡ drive bus 2 op (j ∷ k ∷ l ∷ x ∷ y ∷ irqs) (middle s')
  unfolding is_instruction_executed end_cycle
  double op s s' run e z a =
      drive-next bus 2 op i (j ∷ k ∷ l ∷ x ∷ y ∷ irqs) (at_start m) (middle s') (run ∙ ap middle e)
        (rw (z, a) refl)

  pub inr : (dst : Reg) → Ok (Op.inr dst)
  unfolding drive op_cycles exec request end_cycle is_instruction_executed isa tick Arith.inr
  inr Reg.reg_a = ap (Option.map hide) (
      double (Op.inr Reg.reg_a) _ _ refl (inr_flags_lem (get_reg Reg.reg_a first) first v.a_in) refl
        refl)
  inr dst = ap (Option.map hide) (
      double (Op.inr dst) _ _ refl
        (inr_flags_lem (get_reg dst first) first (get_reg-lt dst m.cpu v)) refl refl)

  pub dcr : (dst : Reg) → Ok (Op.dcr dst)
  unfolding drive op_cycles exec request end_cycle is_instruction_executed isa tick Arith.dcr
  dcr Reg.reg_a = ap (Option.map hide) (
      double (Op.dcr Reg.reg_a) _ _ refl (dcr_flags_lem (get_reg Reg.reg_a first) first v.a_in) refl
        refl)
  dcr dst = ap (Option.map hide) (
      double (Op.dcr dst) _ _ refl
        (dcr_flags_lem (get_reg dst first) first (get_reg-lt dst m.cpu v)) refl refl)

  -- INR M and DCR M compute in the second cycle.
  abbrev hl : ℕ
  hl = get_word pair_hl m.cpu

  abbrev at_hl : ℕ
  at_hl = get_byte m.mem hl ram

  at_hl-lt : at_hl < 256
  at_hl-lt = get_byte-lt m.mem hl ram valid.mem_valid

  abbrev opened : Op → Machine W
  opened op = tick bus 3 op i (at_start m)

  abbrev second : Op → Cpu
  second op = (request j (opened op)).cpu

  abbrev written : Cpu → Machine W
  written s = on_cpu (end_cycle 3) (record m { cpu = s; mem = (cpu_read hl ram 0 m.mem).1 })

  triple :
      (op : Op) (s s' : Cpu)
      → is_instruction_executed (opened op) ≡ false
      → tick bus 3 op j (opened op) ≡ written s
      → s ≡ s'
      → s'.mc ≡ 1
      → s'.hlta ≡ false
      → drive bus 3 op (i ∷ j ∷ k ∷ l ∷ x ∷ y ∷ irqs) (at_start m)
        ≡ drive bus 3 op (k ∷ l ∷ x ∷ y ∷ irqs) (written s')
  unfolding is_instruction_executed end_cycle
  triple op s s' f run e z a =
      drive-next bus 3 op i (j ∷ k ∷ l ∷ x ∷ y ∷ irqs) (at_start m) (opened op) refl f
      ∙ drive-next bus 3 op j (k ∷ l ∷ x ∷ y ∷ irqs) (opened op) (written s') (run ∙ ap written e)
          (rw (z, a) refl)

  pub inr_mem : Ok Op.inr_mem
  unfolding drive op_cycles exec request end_cycle is_instruction_executed isa tick Arith.inr_mem
      get_byte byte_at get_global_addr cpu_read cpu_write
  inr_mem =
      ap (Option.map hide) (
        triple Op.inr_mem _ _ refl refl (inr_flags_lem at_hl (second Op.inr_mem) at_hl-lt) refl
          refl)

  pub dcr_mem : Ok Op.dcr_mem
  unfolding drive op_cycles exec request end_cycle is_instruction_executed isa tick Arith.dcr_mem
      get_byte byte_at get_global_addr cpu_read cpu_write
  dcr_mem =
      ap (Option.map hide) (
        triple Op.dcr_mem _ _ refl refl (dcr_flags_lem at_hl (second Op.dcr_mem) at_hl-lt) refl
          refl)

  -- the sum of two words by bytes
  module _ (lo hi : ℕ) (lo_in : lo < 256) (hi_in : hi < 256) where
    abbrev total : ℕ
    total = m.cpu.h * 256 + m.cpu.l + (hi * 256 + lo)

    abbrev low_carry : Bool
    low_carry = nonzero (bit_and (lo + m.cpu.l) 0x100)

    low_carry_lem : bool_to_ℕ low_carry ≡ (lo + m.cpu.l) / 256
    low_carry_lem = ground (arith, bit_and_mask256 (lo + m.cpu.l), v.l_in)

    sum_low : u8 (lo + m.cpu.l) ≡ total % 256
    sum_low = omega arith

    sum_high : u8 (hi + m.cpu.h + bool_to_ℕ low_carry) ≡ total / 256 % 256
    sum_high = rw low_carry_lem (omega arith)

    sum_carry :
        nonzero (bit_and (hi + m.cpu.h + bool_to_ℕ low_carry) 0x100) ≡ not (total / 65536 == 0)
    sum_carry =
        rw (low_carry_lem, bit_and_mask256 (hi + m.cpu.h + (lo + m.cpu.l) / 256))
          (ground (arith, top, v.h_in, v.l_in))
      where
        top : (hi + m.cpu.h + (lo + m.cpu.l) / 256) / 256 % 2 ≡ total / 65536
        top = let bh = v.h_in in let bl = v.l_in in omega arith

    -- DAD by the bytes of its operand
    abbrev summed : ℕ → ℕ → Bool → Option (Machine W)
    summed h l carry = some (
        hide (record (at_start m) {
          cpu = record (m.cpu) { h = h; l = l; fc = carry; mc = 0; hlta = false };
        }))

    dad_bytes :
        summed
          (u8 (hi + m.cpu.h + bool_to_ℕ low_carry))
          (u8 (lo + m.cpu.l))
          (nonzero (bit_and (hi + m.cpu.h + bool_to_ℕ low_carry) 0x100))
        ≡ summed (total / 256 % 256) (total % 256) (not (total / 65536 == 0))
    dad_bytes = (λ t. summed (sum_high t) (sum_low t) (sum_carry t))

  abbrev add_word : ℕ → Option (Machine W)
  add_word n =
      let sum = m.cpu.h * 256 + m.cpu.l + n in
      some (
        hide (record (at_start m) {
          cpu = record (m.cpu) {
            h = sum / 256 % 256;
            l = sum % 256;
            fc = not (sum / 65536 == 0);
            mc = 0;
            hlta = false;
          };
        }))

  pub dad : (p : Pair) → is_encoded (Op.dad p) ≡ true → Ok (Op.dad p)
  unfolding drive op_cycles exec request end_cycle is_instruction_executed isa Arith.dad
      Arith.dad_low Arith.dad_high
  dad Pair.pair_psw h = cc
  dad Pair.pair_sp h =
      dad_bytes (m.cpu.sp % 256) (m.cpu.sp / 256) (omega arith) (let b = v.sp_in in omega arith)
      ∙ ap (λ n. add_word n) (split16 m.cpu.sp)
  dad Pair.pair_bc h = dad_bytes m.cpu.c m.cpu.b v.c_in v.b_in
  dad Pair.pair_de h = dad_bytes m.cpu.e m.cpu.d v.e_in v.d_in
  dad Pair.pair_hl h = dad_bytes m.cpu.l m.cpu.h v.l_in v.h_in
