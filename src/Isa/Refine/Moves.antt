-- ===== src/Isa/Refine/Moves.antt =====
-- The machine cycles of `CpuI8080` (libs/v6core/src/cpu_i8080.cpp) against the instruction set: moves.
use v6emul.Base.{◌≡◌, refl, Bool, true}
use v6emul.Base.{List}
use v6emul.Cpu.State.{Machine, Bus, Reg, Pair}
use v6emul.Cpu.Ops.{Op}
use v6emul.Cpu.Step.{exec, request, end_cycle, is_instruction_executed}
use v6emul.Cpu.Moves
use v6emul.Cpu.Alu
use v6emul.Memory.{get_byte, byte_at, get_global_addr, cpu_read, cpu_read_instr, cpu_write}
use v6emul.Isa.{isa}
use v6emul.Isa.Drive.{drive, op_cycles}
use v6emul.Isa.Refine.Start.{Refines, is_encoded, split16}

module _ {W : Type 0} (bus : Bus W) (m : Machine W) (i j k l x y : Bool) (irqs : List Bool) where
  abbrev Ok : Op → Type 0
  Ok = Refines bus m i j k l x y irqs

  pub mov_reg_reg : (dst : Reg) (src : Reg) → Ok (Op.mov_reg_reg dst src)
  unfolding drive op_cycles exec request end_cycle is_instruction_executed isa Moves.mov_reg_reg
  mov_reg_reg Reg.reg_a Reg.reg_a = refl
  mov_reg_reg Reg.reg_a _ = refl
  mov_reg_reg Reg.reg_b Reg.reg_a = refl
  mov_reg_reg Reg.reg_b _ = refl
  mov_reg_reg Reg.reg_c Reg.reg_a = refl
  mov_reg_reg Reg.reg_c _ = refl
  mov_reg_reg Reg.reg_d Reg.reg_a = refl
  mov_reg_reg Reg.reg_d _ = refl
  mov_reg_reg Reg.reg_e Reg.reg_a = refl
  mov_reg_reg Reg.reg_e _ = refl
  mov_reg_reg Reg.reg_h Reg.reg_a = refl
  mov_reg_reg Reg.reg_h _ = refl
  mov_reg_reg Reg.reg_l Reg.reg_a = refl
  mov_reg_reg Reg.reg_l _ = refl

  pub load_reg_ptr : (dst : Reg) (p : Pair) → Ok (Op.load_reg_ptr dst p)
  unfolding drive op_cycles exec request end_cycle is_instruction_executed isa get_byte byte_at
      cpu_read cpu_read_instr cpu_write get_global_addr Moves.load_reg_ptr
  load_reg_ptr Reg.reg_a Pair.pair_bc = refl
  load_reg_ptr Reg.reg_a _ = refl
  load_reg_ptr Reg.reg_b Pair.pair_bc = refl
  load_reg_ptr Reg.reg_b _ = refl
  load_reg_ptr Reg.reg_c Pair.pair_bc = refl
  load_reg_ptr Reg.reg_c _ = refl
  load_reg_ptr Reg.reg_d Pair.pair_bc = refl
  load_reg_ptr Reg.reg_d _ = refl
  load_reg_ptr Reg.reg_e Pair.pair_bc = refl
  load_reg_ptr Reg.reg_e _ = refl
  load_reg_ptr Reg.reg_h Pair.pair_bc = refl
  load_reg_ptr Reg.reg_h _ = refl
  load_reg_ptr Reg.reg_l Pair.pair_bc = refl
  load_reg_ptr Reg.reg_l _ = refl

  pub mov_mem_reg : (src : Reg) → Ok (Op.mov_mem_reg src)
  unfolding drive op_cycles exec request end_cycle is_instruction_executed isa get_byte byte_at
      cpu_read cpu_read_instr cpu_write get_global_addr Moves.mov_mem_reg
  mov_mem_reg Reg.reg_a = refl
  mov_mem_reg _ = refl

  pub mvi_reg_data : (dst : Reg) → Ok (Op.mvi_reg_data dst)
  unfolding drive op_cycles exec request end_cycle is_instruction_executed isa get_byte byte_at
      cpu_read cpu_read_instr cpu_write get_global_addr Moves.mvi_reg_data
  mvi_reg_data Reg.reg_a = refl
  mvi_reg_data _ = refl

  pub mvi_mem_data : Ok Op.mvi_mem_data
  unfolding drive op_cycles exec request end_cycle is_instruction_executed isa get_byte byte_at
      cpu_read cpu_read_instr cpu_write get_global_addr Moves.mvi_mem_data
  mvi_mem_data = refl

  pub lda : Ok Op.lda
  unfolding drive op_cycles exec request end_cycle is_instruction_executed isa get_byte byte_at
      cpu_read cpu_read_instr cpu_write get_global_addr Moves.lda
  lda = refl

  pub sta : Ok Op.sta
  unfolding drive op_cycles exec request end_cycle is_instruction_executed isa get_byte byte_at
      cpu_read cpu_read_instr cpu_write get_global_addr Moves.sta
  sta = refl

  pub sphl : Ok Op.sphl
  unfolding drive op_cycles exec request end_cycle is_instruction_executed isa get_byte byte_at
      cpu_read cpu_read_instr cpu_write get_global_addr Moves.sphl
  sphl = refl

  pub xthl : Ok Op.xthl
  unfolding drive op_cycles exec request end_cycle is_instruction_executed isa get_byte byte_at
      cpu_read cpu_read_instr cpu_write get_global_addr Moves.xthl
  xthl = refl

  pub lhld : Ok Op.lhld
  unfolding drive op_cycles exec request end_cycle is_instruction_executed isa get_byte byte_at
      cpu_read cpu_read_instr cpu_write get_global_addr Moves.lhld
  lhld = simp split16

  pub shld : Ok Op.shld
  unfolding drive op_cycles exec request end_cycle is_instruction_executed isa get_byte byte_at
      cpu_read cpu_read_instr cpu_write get_global_addr Moves.shld
  shld = simp split16

  pub xchg : Ok Op.xchg
  unfolding drive op_cycles exec request end_cycle is_instruction_executed isa Alu.xchg
  xchg = refl

  pub stax : (p : Pair) → Ok (Op.stax p)
  unfolding drive op_cycles exec request end_cycle is_instruction_executed isa get_byte byte_at
      cpu_read cpu_read_instr cpu_write get_global_addr Moves.stax
  stax Pair.pair_bc = refl
  stax _ = refl

  pub lxi : (p : Pair) → Ok (Op.lxi p)
  unfolding drive op_cycles exec request end_cycle is_instruction_executed isa get_byte byte_at
      cpu_read cpu_read_instr cpu_write get_global_addr Moves.lxi
  lxi Pair.pair_bc = refl
  lxi _ = refl

  pub push : (p : Pair) → is_encoded (Op.push p) ≡ true → Ok (Op.push p)
  unfolding drive op_cycles exec request end_cycle is_instruction_executed isa get_byte byte_at
      cpu_read cpu_read_instr cpu_write get_global_addr Moves.push
  push Pair.pair_bc h = refl
  push Pair.pair_de h = refl
  push Pair.pair_hl h = refl
  push Pair.pair_psw h = refl
  push Pair.pair_sp h = cc

  pub pop : (p : Pair) → is_encoded (Op.pop p) ≡ true → Ok (Op.pop p)
  unfolding drive op_cycles exec request end_cycle is_instruction_executed isa get_byte byte_at
      cpu_read cpu_read_instr cpu_write get_global_addr Moves.pop
  pop Pair.pair_bc h = refl
  pop Pair.pair_de h = refl
  pop Pair.pair_hl h = refl
  pop Pair.pair_sp h = cc
  pop Pair.pair_psw h = cc

  pub pop_psw : Ok Op.pop_psw
  unfolding drive op_cycles exec request end_cycle is_instruction_executed isa get_byte byte_at
      cpu_read cpu_read_instr cpu_write get_global_addr Moves.pop_psw
  pop_psw = refl
