-- ===== src/Isa/Refine/Operands.antt =====
-- The machine cycles of `CpuI8080` (libs/v6core/src/cpu_i8080.cpp) against the instruction set:
-- arithmetic and logic with an operand in memory or in the instruction.
use v6emul.Base.{ℕ, ◌<◌, ◌≡◌, refl, ◌∙◌, ap, Bool, false}
use v6emul.Base.{List, ◌∷◌, some}
use v6emul.Memory.{Memory, ram, get_byte, byte_at, get_global_addr, cpu_read, cpu_read_instr}
use v6emul.Memory.Bounds.{get_byte-lt}
use v6emul.Cpu.State.{Cpu, Machine, Bus, get_word, pair_hl}
use v6emul.Cpu.Ops.{Op}
use v6emul.Cpu.Alu
use v6emul.Cpu.Access.{on_cpu, set_tmp, inc16}
use v6emul.Cpu.Arith
use v6emul.Cpu.Step.{exec, request, end_cycle, is_instruction_executed, carry_in}
use v6emul.Cpu.Valid.{IsCpu, IsMachine}
use v6emul.Isa.{hide, isa}
use v6emul.Isa.Flags
use v6emul.Isa.Arith.{
  add-add_flags, sub-sub_flags, cmp-compare_flags, and-and_flags, xor-xor_flags, or-or_flags,
}
use v6emul.Isa.Drive.{tick, drive, drive-last, drive-next, op_cycles}
use v6emul.Isa.Refine.Start.{at_start, Refines}
use mathlib.Core.Option

module _ {W : Type 0} (bus : Bus W) (m : Machine W) (valid : IsMachine m) (i j k l x y : Bool)
    (irqs : List Bool) where
  abbrev Ok : Op → Type 0
  Ok = Refines bus m i j k l x y irqs

  abbrev v : IsCpu m.cpu
  v = valid.cpu_valid

  -- the machine before and in the second cycle
  abbrev middle : Op → Machine W
  middle op = tick bus 2 op i (at_start m)

  abbrev second : Op → Machine W
  second op = request j (middle op)

  -- the operand M, and the byte behind the opcode
  abbrev hl : ℕ
  hl = get_word pair_hl m.cpu

  abbrev at_hl : ℕ
  at_hl = get_byte m.mem hl ram

  abbrev at_pc : ℕ
  at_pc = get_byte m.mem m.cpu.pc ram

  at_hl-lt : at_hl < 256
  at_hl-lt = get_byte-lt m.mem hl ram valid.mem_valid

  at_pc-lt : at_pc < 256
  at_pc-lt = get_byte-lt m.mem m.cpu.pc ram valid.mem_valid

  -- The registers with the operand in TMP, when the operation of the second cycle starts.
  abbrev with_mem : Op → Cpu
  with_mem op = set_tmp at_hl (second op).cpu

  abbrev with_data : Op → Cpu
  with_data op = let s = (second op).cpu in set_tmp at_pc (record s { pc = inc16 s.pc })

  -- The end of the second cycle, with this memory.
  abbrev finish : Memory → Cpu → Machine W
  finish mem s = on_cpu (end_cycle 2) (record m { cpu = s; mem = mem })

  -- An instruction of two cycles, by the registers that its helper leaves.
  double :
      (op : Op) (mem : Memory) (s s' : Cpu)
      → is_instruction_executed (middle op) ≡ false
      → tick bus 2 op j (middle op) ≡ finish mem s
      → s ≡ s'
      → s'.mc ≡ 1
      → Option.map hide (drive bus 2 op (i ∷ j ∷ k ∷ l ∷ x ∷ y ∷ irqs) (at_start m))
        ≡ some (hide (finish mem s'))
  unfolding is_instruction_executed end_cycle
  double op mem s s' f run e z = ap (Option.map hide) (
      drive-next bus 2 op i (j ∷ k ∷ l ∷ x ∷ y ∷ irqs) (at_start m) (middle op) refl f
      ∙ drive-last bus 2 op j (k ∷ l ∷ x ∷ y ∷ irqs) (middle op) (finish mem s')
          (run ∙ ap (finish mem) e) (rw z refl))

  pub add_mem : (cy : Bool) → Ok (Op.add_mem cy)
  unfolding exec request end_cycle is_instruction_executed isa op_cycles tick get_byte byte_at
      cpu_read cpu_read_instr get_global_addr Arith.add_mem
  add_mem cy =
      double (Op.add_mem cy) (cpu_read hl ram 0 m.mem).1
        (Alu.add m.cpu.a at_hl (carry_in cy m.cpu) (with_mem (Op.add_mem cy)))
        (Flags.add_flags at_hl (carry_in cy m.cpu) (with_mem (Op.add_mem cy))) refl refl
        (add-add_flags at_hl (carry_in cy m.cpu) (with_mem (Op.add_mem cy)) v.a_in at_hl-lt) refl

  pub sub_mem : (cy : Bool) → Ok (Op.sub_mem cy)
  unfolding exec request end_cycle is_instruction_executed isa op_cycles tick get_byte byte_at
      cpu_read cpu_read_instr get_global_addr Arith.sub_mem
  sub_mem cy =
      double (Op.sub_mem cy) (cpu_read hl ram 0 m.mem).1
        (Alu.sub m.cpu.a at_hl (carry_in cy m.cpu) (with_mem (Op.sub_mem cy)))
        (Flags.sub_flags at_hl (carry_in cy m.cpu) (with_mem (Op.sub_mem cy))) refl refl
        (sub-sub_flags at_hl (carry_in cy m.cpu) (with_mem (Op.sub_mem cy)) v.a_in at_hl-lt) refl

  pub ana_mem : Ok Op.ana_mem
  unfolding exec request end_cycle is_instruction_executed isa op_cycles tick get_byte byte_at
      cpu_read cpu_read_instr get_global_addr Arith.ana_mem
  ana_mem =
      double Op.ana_mem (cpu_read hl ram 0 m.mem).1 (Alu.and_act_tmp (with_mem Op.ana_mem))
        (Flags.and_flags at_hl (with_mem Op.ana_mem)) refl refl
        (and-and_flags (with_mem Op.ana_mem) v.a_in at_hl-lt refl) refl

  pub xra_mem : Ok Op.xra_mem
  unfolding exec request end_cycle is_instruction_executed isa op_cycles tick get_byte byte_at
      cpu_read cpu_read_instr get_global_addr Arith.xra_mem
  xra_mem =
      double Op.xra_mem (cpu_read hl ram 0 m.mem).1 (Alu.xor_act_tmp (with_mem Op.xra_mem))
        (Flags.xor_flags at_hl (with_mem Op.xra_mem)) refl refl
        (xor-xor_flags (with_mem Op.xra_mem) v.a_in at_hl-lt refl) refl

  pub ora_mem : Ok Op.ora_mem
  unfolding exec request end_cycle is_instruction_executed isa op_cycles tick get_byte byte_at
      cpu_read cpu_read_instr get_global_addr Arith.ora_mem
  ora_mem =
      double Op.ora_mem (cpu_read hl ram 0 m.mem).1 (Alu.or_act_tmp (with_mem Op.ora_mem))
        (Flags.or_flags at_hl (with_mem Op.ora_mem)) refl refl
        (or-or_flags (with_mem Op.ora_mem) v.a_in at_hl-lt refl) refl

  pub cmp_mem : Ok Op.cmp_mem
  unfolding exec request end_cycle is_instruction_executed isa op_cycles tick get_byte byte_at
      cpu_read cpu_read_instr get_global_addr Arith.cmp_mem
  cmp_mem =
      double Op.cmp_mem (cpu_read hl ram 0 m.mem).1 (Alu.cmp_act_tmp (with_mem Op.cmp_mem))
        (Flags.compare_flags at_hl (with_mem Op.cmp_mem)) refl refl
        (cmp-compare_flags (with_mem Op.cmp_mem) v.a_in at_hl-lt refl) refl

  pub adi : (cy : Bool) → Ok (Op.adi cy)
  unfolding exec request end_cycle is_instruction_executed isa op_cycles tick get_byte byte_at
      cpu_read cpu_read_instr get_global_addr Arith.adi
  adi cy =
      double (Op.adi cy) (cpu_read_instr m.cpu.pc ram 1 m.mem).1
        (Alu.add m.cpu.a at_pc (carry_in cy m.cpu) (with_data (Op.adi cy)))
        (Flags.add_flags at_pc (carry_in cy m.cpu) (with_data (Op.adi cy))) refl refl
        (add-add_flags at_pc (carry_in cy m.cpu) (with_data (Op.adi cy)) v.a_in at_pc-lt) refl

  pub sbi : (cy : Bool) → Ok (Op.sbi cy)
  unfolding exec request end_cycle is_instruction_executed isa op_cycles tick get_byte byte_at
      cpu_read cpu_read_instr get_global_addr Arith.sbi
  sbi cy =
      double (Op.sbi cy) (cpu_read_instr m.cpu.pc ram 1 m.mem).1
        (Alu.sub m.cpu.a at_pc (carry_in cy m.cpu) (with_data (Op.sbi cy)))
        (Flags.sub_flags at_pc (carry_in cy m.cpu) (with_data (Op.sbi cy))) refl refl
        (sub-sub_flags at_pc (carry_in cy m.cpu) (with_data (Op.sbi cy)) v.a_in at_pc-lt) refl

  pub ani : Ok Op.ani
  unfolding exec request end_cycle is_instruction_executed isa op_cycles tick get_byte byte_at
      cpu_read cpu_read_instr get_global_addr Arith.ani
  ani =
      double Op.ani (cpu_read_instr m.cpu.pc ram 1 m.mem).1 (Alu.and_act_tmp (with_data Op.ani))
        (Flags.and_flags at_pc (with_data Op.ani)) refl refl
        (and-and_flags (with_data Op.ani) v.a_in at_pc-lt refl) refl

  pub xri : Ok Op.xri
  unfolding exec request end_cycle is_instruction_executed isa op_cycles tick get_byte byte_at
      cpu_read cpu_read_instr get_global_addr Arith.xri
  xri =
      double Op.xri (cpu_read_instr m.cpu.pc ram 1 m.mem).1 (Alu.xor_act_tmp (with_data Op.xri))
        (Flags.xor_flags at_pc (with_data Op.xri)) refl refl
        (xor-xor_flags (with_data Op.xri) v.a_in at_pc-lt refl) refl

  pub ori : Ok Op.ori
  unfolding exec request end_cycle is_instruction_executed isa op_cycles tick get_byte byte_at
      cpu_read cpu_read_instr get_global_addr Arith.ori
  ori =
      double Op.ori (cpu_read_instr m.cpu.pc ram 1 m.mem).1 (Alu.or_act_tmp (with_data Op.ori))
        (Flags.or_flags at_pc (with_data Op.ori)) refl refl
        (or-or_flags (with_data Op.ori) v.a_in at_pc-lt refl) refl

  pub cpi : Ok Op.cpi
  unfolding exec request end_cycle is_instruction_executed isa op_cycles tick get_byte byte_at
      cpu_read cpu_read_instr get_global_addr Arith.cpi
  cpi =
      double Op.cpi (cpu_read_instr m.cpu.pc ram 1 m.mem).1 (Alu.cmp_act_tmp (with_data Op.cpi))
        (Flags.compare_flags at_pc (with_data Op.cpi)) refl refl
        (cmp-compare_flags (with_data Op.cpi) v.a_in at_pc-lt refl) refl
