-- ===== src/Isa/Refine/Alu.antt =====
-- The machine cycles of `CpuI8080` (libs/v6core/src/cpu_i8080.cpp) against the instruction set:
-- arithmetic and logic on registers.
use v6emul.Base.{ℕ, ◌-◌, ◌<◌, ◌≡◌, refl, ◌∙◌, ap, arith, Bool}
use v6emul.Base.{List, ◌∷◌, some, not8}
use v6emul.Cpu.State.{Cpu, Machine, Bus, Reg, get_reg}
use v6emul.Cpu.Ops.{Op}
use v6emul.Cpu.Alu
use v6emul.Cpu.Access.{on_cpu}
use v6emul.Cpu.Arith.{load_act_tmp}
use v6emul.Cpu.Step.{exec, request, end_cycle, is_instruction_executed, carry_in}
use v6emul.Cpu.Valid.{IsCpu, IsMachine, get_reg-lt}
use v6emul.Isa.{hide, isa}
use v6emul.Isa.Flags
use v6emul.Isa.Arith.{
  add-add_flags, sub-sub_flags, cmp-compare_flags, and-and_flags, xor-xor_flags, or-or_flags,
  daa-adjust, rlc-rotate_left, rrc-rotate_right, ral-rotate_left_carry, rar-rotate_right_carry,
}
use v6emul.Isa.Drive.{tick, drive, drive-last, op_cycles}
use v6emul.Isa.Refine.Start.{at_start, Refines}
use mathlib.Core.Option

module _ {W : Type 0} (bus : Bus W) (m : Machine W) (valid : IsMachine m) (i j k l x y : Bool)
    (irqs : List Bool) where
  abbrev Ok : Op → Type 0
  Ok = Refines bus m i j k l x y irqs

  abbrev v : IsCpu m.cpu
  v = valid.cpu_valid

  -- the registers in the first cycle
  abbrev first : Cpu
  first = (request i (at_start m)).cpu

  -- The end of the only cycle of an instruction.
  abbrev finish : Cpu → Machine W
  finish s = on_cpu (end_cycle 1) (record (at_start m) { cpu = s })

  -- An instruction of one cycle, by the registers that its helper leaves.
  single :
      (op : Op) (s s' : Cpu)
      → tick bus 1 op i (at_start m) ≡ finish s
      → s ≡ s'
      → s'.mc ≡ 0
      → Option.map hide (drive bus 1 op (i ∷ j ∷ k ∷ l ∷ x ∷ y ∷ irqs) (at_start m))
        ≡ some (hide (finish s'))
  unfolding is_instruction_executed end_cycle
  single op s s' run e z = ap (Option.map hide) (
      drive-last bus 1 op i (j ∷ k ∷ l ∷ x ∷ y ∷ irqs) (at_start m) (finish s') (run ∙ ap finish e)
        (rw z refl))

  pub add : (src : Reg) (cy : Bool) → Ok (Op.add src cy)
  unfolding exec request end_cycle is_instruction_executed isa op_cycles tick
  add Reg.reg_a cy =
      single (Op.add Reg.reg_a cy)
        (Alu.add first.a (get_reg Reg.reg_a first) (carry_in cy first) first)
        (Flags.add_flags (get_reg Reg.reg_a first) (carry_in cy first) first) refl
        (add-add_flags (get_reg Reg.reg_a first) (carry_in cy first) first v.a_in
          (get_reg-lt Reg.reg_a m.cpu v))
        refl
  add src cy =
      single (Op.add src cy) (Alu.add first.a (get_reg src first) (carry_in cy first) first)
        (Flags.add_flags (get_reg src first) (carry_in cy first) first) refl
        (add-add_flags (get_reg src first) (carry_in cy first) first v.a_in
          (get_reg-lt src m.cpu v))
        refl

  pub sub : (src : Reg) (cy : Bool) → Ok (Op.sub src cy)
  unfolding exec request end_cycle is_instruction_executed isa op_cycles tick
  sub Reg.reg_a cy =
      single (Op.sub Reg.reg_a cy)
        (Alu.sub first.a (get_reg Reg.reg_a first) (carry_in cy first) first)
        (Flags.sub_flags (get_reg Reg.reg_a first) (carry_in cy first) first) refl
        (sub-sub_flags (get_reg Reg.reg_a first) (carry_in cy first) first v.a_in
          (get_reg-lt Reg.reg_a m.cpu v))
        refl
  sub src cy =
      single (Op.sub src cy) (Alu.sub first.a (get_reg src first) (carry_in cy first) first)
        (Flags.sub_flags (get_reg src first) (carry_in cy first) first) refl
        (sub-sub_flags (get_reg src first) (carry_in cy first) first v.a_in
          (get_reg-lt src m.cpu v))
        refl

  pub ana : (src : Reg) → Ok (Op.ana src)
  unfolding exec request end_cycle is_instruction_executed isa op_cycles tick
  ana Reg.reg_a =
      single (Op.ana Reg.reg_a) (Alu.and_act_tmp (load_act_tmp (get_reg Reg.reg_a first) first))
        (Flags.and_flags (get_reg Reg.reg_a first) (load_act_tmp (get_reg Reg.reg_a first) first))
        refl
        (and-and_flags (load_act_tmp (get_reg Reg.reg_a first) first) v.a_in
          (get_reg-lt Reg.reg_a m.cpu v) refl)
        refl
  ana src =
      single (Op.ana src) (Alu.and_act_tmp (load_act_tmp (get_reg src first) first))
        (Flags.and_flags (get_reg src first) (load_act_tmp (get_reg src first) first)) refl
        (and-and_flags (load_act_tmp (get_reg src first) first) v.a_in (get_reg-lt src m.cpu v)
          refl)
        refl

  pub xra : (src : Reg) → Ok (Op.xra src)
  unfolding exec request end_cycle is_instruction_executed isa op_cycles tick
  xra Reg.reg_a =
      single (Op.xra Reg.reg_a) (Alu.xor_act_tmp (load_act_tmp (get_reg Reg.reg_a first) first))
        (Flags.xor_flags (get_reg Reg.reg_a first) (load_act_tmp (get_reg Reg.reg_a first) first))
        refl
        (xor-xor_flags (load_act_tmp (get_reg Reg.reg_a first) first) v.a_in
          (get_reg-lt Reg.reg_a m.cpu v) refl)
        refl
  xra src =
      single (Op.xra src) (Alu.xor_act_tmp (load_act_tmp (get_reg src first) first))
        (Flags.xor_flags (get_reg src first) (load_act_tmp (get_reg src first) first)) refl
        (xor-xor_flags (load_act_tmp (get_reg src first) first) v.a_in (get_reg-lt src m.cpu v)
          refl)
        refl

  pub ora : (src : Reg) → Ok (Op.ora src)
  unfolding exec request end_cycle is_instruction_executed isa op_cycles tick
  ora Reg.reg_a =
      single (Op.ora Reg.reg_a) (Alu.or_act_tmp (load_act_tmp (get_reg Reg.reg_a first) first))
        (Flags.or_flags (get_reg Reg.reg_a first) (load_act_tmp (get_reg Reg.reg_a first) first))
        refl
        (or-or_flags (load_act_tmp (get_reg Reg.reg_a first) first) v.a_in
          (get_reg-lt Reg.reg_a m.cpu v) refl)
        refl
  ora src =
      single (Op.ora src) (Alu.or_act_tmp (load_act_tmp (get_reg src first) first))
        (Flags.or_flags (get_reg src first) (load_act_tmp (get_reg src first) first)) refl
        (or-or_flags (load_act_tmp (get_reg src first) first) v.a_in (get_reg-lt src m.cpu v) refl)
        refl

  pub cmp : (src : Reg) → Ok (Op.cmp src)
  unfolding exec request end_cycle is_instruction_executed isa op_cycles tick
  cmp Reg.reg_a =
      single (Op.cmp Reg.reg_a) (Alu.cmp_act_tmp (load_act_tmp (get_reg Reg.reg_a first) first))
        (Flags.compare_flags (get_reg Reg.reg_a first)
          (load_act_tmp (get_reg Reg.reg_a first) first))
        refl
        (cmp-compare_flags (load_act_tmp (get_reg Reg.reg_a first) first) v.a_in
          (get_reg-lt Reg.reg_a m.cpu v) refl)
        refl
  cmp src =
      single (Op.cmp src) (Alu.cmp_act_tmp (load_act_tmp (get_reg src first) first))
        (Flags.compare_flags (get_reg src first) (load_act_tmp (get_reg src first) first)) refl
        (cmp-compare_flags (load_act_tmp (get_reg src first) first) v.a_in (get_reg-lt src m.cpu v)
          refl)
        refl

  pub daa : Ok Op.daa
  unfolding exec request end_cycle is_instruction_executed isa op_cycles tick
  daa = single Op.daa (Alu.daa first) (Flags.adjust first) refl (daa-adjust first v.a_in) refl

  pub rlc : Ok Op.rlc
  unfolding exec request end_cycle is_instruction_executed isa op_cycles tick
  rlc =
      single Op.rlc (Alu.rlc first) (Flags.rotate_left first) refl (rlc-rotate_left first v.a_in)
        refl

  pub rrc : Ok Op.rrc
  unfolding exec request end_cycle is_instruction_executed isa op_cycles tick
  rrc =
      single Op.rrc (Alu.rrc first) (Flags.rotate_right first) refl (rrc-rotate_right first v.a_in)
        refl

  pub ral : Ok Op.ral
  unfolding exec request end_cycle is_instruction_executed isa op_cycles tick
  ral =
      single Op.ral (Alu.ral first) (Flags.rotate_left_carry first) refl
        (ral-rotate_left_carry first v.a_in) refl

  pub rar : Ok Op.rar
  unfolding exec request end_cycle is_instruction_executed isa op_cycles tick
  rar =
      single Op.rar (Alu.rar first) (Flags.rotate_right_carry first) refl
        (rar-rotate_right_carry first v.a_in) refl

  complement : (a : ℕ) → a < 256 → not8 a ≡ 255 - a
  complement a h = omega arith

  pub cma : Ok Op.cma
  unfolding exec request end_cycle is_instruction_executed isa op_cycles tick
  cma =
      single Op.cma (record first { a = not8 first.a }) (record first { a = 255 - first.a }) refl
        (ap (λ n. record first { a = n }) (complement m.cpu.a v.a_in)) refl
