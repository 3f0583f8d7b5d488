-- ===== src/Isa/Refine/Control.antt =====
-- The machine cycles of `CpuI8080` (libs/v6core/src/cpu_i8080.cpp) against the instruction set: branches and ports.
use v6emul.Base.{ℕ, refl, arith, Bool, true, false}
use v6emul.Base.{List}
use v6emul.Cpu.State.{Machine, Bus, Flag, Cond}
use v6emul.Cpu.Ops.{Op}
use v6emul.Cpu.Step.{exec, request, end_cycle, is_instruction_executed}
use v6emul.Cpu.Control
use v6emul.Memory.{get_byte, byte_at, get_global_addr, cpu_read, cpu_read_instr, cpu_write}
use v6emul.Isa.{isa}
use v6emul.Isa.Drive.{drive, op_cycles}
use v6emul.Isa.Refine.Start.{Refines}

module _ {W : Type 0} (bus : Bus W) (m : Machine W) (i j k l x y : Bool) (irqs : List Bool) where
  abbrev Ok : Op → Type 0
  Ok = Refines bus m i j k l x y irqs

  -- a branch is taken or not by the value of one flag
  abbrev with_flag : Flag → Bool → Machine W
  with_flag Flag.zero_flag b = record m { cpu = record (m.cpu) { fz = b } }
  with_flag Flag.carry_flag b = record m { cpu = record (m.cpu) { fc = b } }
  with_flag Flag.parity_flag b = record m { cpu = record (m.cpu) { fp = b } }
  with_flag Flag.sign_flag b = record m { cpu = record (m.cpu) { fs = b } }

  jmp_at :
      (f : Flag) (want b : Bool)
      → Refines bus (with_flag f b) i j k l x y irqs (Op.jmp (Cond.when f want))
  unfolding drive op_cycles exec request end_cycle is_instruction_executed isa get_byte byte_at
      cpu_read cpu_read_instr cpu_write get_global_addr Control.jmp
  jmp_at Flag.zero_flag true true = refl
  jmp_at Flag.zero_flag false true = refl
  jmp_at Flag.zero_flag true false = refl
  jmp_at Flag.zero_flag false false = refl
  jmp_at Flag.carry_flag true true = refl
  jmp_at Flag.carry_flag false true = refl
  jmp_at Flag.carry_flag true false = refl
  jmp_at Flag.carry_flag false false = refl
  jmp_at Flag.parity_flag true true = refl
  jmp_at Flag.parity_flag false true = refl
  jmp_at Flag.parity_flag true false = refl
  jmp_at Flag.parity_flag false false = refl
  jmp_at Flag.sign_flag true true = refl
  jmp_at Flag.sign_flag false true = refl
  jmp_at Flag.sign_flag true false = refl
  jmp_at Flag.sign_flag false false = refl

  pub jmp : (cond : Cond) → Ok (Op.jmp cond)
  unfolding drive op_cycles exec request end_cycle is_instruction_executed isa get_byte byte_at
      cpu_read cpu_read_instr cpu_write get_global_addr Control.jmp
  jmp Cond.always = refl
  jmp (Cond.when Flag.zero_flag want) = jmp_at Flag.zero_flag want m.cpu.fz
  jmp (Cond.when Flag.carry_flag want) = jmp_at Flag.carry_flag want m.cpu.fc
  jmp (Cond.when Flag.parity_flag want) = jmp_at Flag.parity_flag want m.cpu.fp
  jmp (Cond.when Flag.sign_flag want) = jmp_at Flag.sign_flag want m.cpu.fs

  call_at :
      (f : Flag) (want b : Bool)
      → Refines bus (with_flag f b) i j k l x y irqs (Op.call (Cond.when f want))
  unfolding drive op_cycles exec request end_cycle is_instruction_executed isa get_byte byte_at
      cpu_read cpu_read_instr cpu_write get_global_addr Control.call
  call_at Flag.zero_flag true true = refl
  call_at Flag.zero_flag false true = refl
  call_at Flag.zero_flag true false = refl
  call_at Flag.zero_flag false false = refl
  call_at Flag.carry_flag true true = refl
  call_at Flag.carry_flag false true = refl
  call_at Flag.carry_flag true false = refl
  call_at Flag.carry_flag false false = refl
  call_at Flag.parity_flag true true = refl
  call_at Flag.parity_flag false true = refl
  call_at Flag.parity_flag true false = refl
  call_at Flag.parity_flag false false = refl
  call_at Flag.sign_flag true true = refl
  call_at Flag.sign_flag false true = refl
  call_at Flag.sign_flag true false = refl
  call_at Flag.sign_flag false false = refl

  pub call : (cond : Cond) → Ok (Op.call cond)
  unfolding drive op_cycles exec request end_cycle is_instruction_executed isa get_byte byte_at
      cpu_read cpu_read_instr cpu_write get_global_addr Control.call
  call Cond.always = refl
  call (Cond.when Flag.zero_flag want) = call_at Flag.zero_flag want m.cpu.fz
  call (Cond.when Flag.carry_flag want) = call_at Flag.carry_flag want m.cpu.fc
  call (Cond.when Flag.parity_flag want) = call_at Flag.parity_flag want m.cpu.fp
  call (Cond.when Flag.sign_flag want) = call_at Flag.sign_flag want m.cpu.fs

  ret_cond_at :
      (f : Flag) (want b : Bool)
      → Refines bus (with_flag f b) i j k l x y irqs (Op.ret_cond (Cond.when f want))
  unfolding drive op_cycles exec request end_cycle is_instruction_executed isa get_byte byte_at
      cpu_read cpu_read_instr cpu_write get_global_addr Control.ret_cond
  ret_cond_at Flag.zero_flag true true = refl
  ret_cond_at Flag.zero_flag false true = refl
  ret_cond_at Flag.zero_flag true false = refl
  ret_cond_at Flag.zero_flag false false = refl
  ret_cond_at Flag.carry_flag true true = refl
  ret_cond_at Flag.carry_flag false true = refl
  ret_cond_at Flag.carry_flag true false = refl
  ret_cond_at Flag.carry_flag false false = refl
  ret_cond_at Flag.parity_flag true true = refl
  ret_cond_at Flag.parity_flag false true = refl
  ret_cond_at Flag.parity_flag true false = refl
  ret_cond_at Flag.parity_flag false false = refl
  ret_cond_at Flag.sign_flag true true = refl
  ret_cond_at Flag.sign_flag false true = refl
  ret_cond_at Flag.sign_flag true false = refl
  ret_cond_at Flag.sign_flag false false = refl

  pub ret_cond : (cond : Cond) → Ok (Op.ret_cond cond)
  unfolding drive op_cycles exec request end_cycle is_instruction_executed isa get_byte byte_at
      cpu_read cpu_read_instr cpu_write get_global_addr Control.ret_cond
  ret_cond Cond.always = refl
  ret_cond (Cond.when Flag.zero_flag want) = ret_cond_at Flag.zero_flag want m.cpu.fz
  ret_cond (Cond.when Flag.carry_flag want) = ret_cond_at Flag.carry_flag want m.cpu.fc
  ret_cond (Cond.when Flag.parity_flag want) = ret_cond_at Flag.parity_flag want m.cpu.fp
  ret_cond (Cond.when Flag.sign_flag want) = ret_cond_at Flag.sign_flag want m.cpu.fs

  pub rst : (arg : ℕ) → Ok (Op.rst arg)
  unfolding drive op_cycles exec request end_cycle is_instruction_executed isa get_byte byte_at
      cpu_read cpu_read_instr cpu_write get_global_addr Control.rst
  rst arg = ground arith

  pub pchl : Ok Op.pchl
  unfolding drive op_cycles exec request end_cycle is_instruction_executed isa get_byte byte_at
      cpu_read cpu_read_instr cpu_write get_global_addr Control.pchl
  pchl = refl

  pub ret : Ok Op.ret
  unfolding drive op_cycles exec request end_cycle is_instruction_executed isa get_byte byte_at
      cpu_read cpu_read_instr cpu_write get_global_addr Control.ret
  ret = refl

  pub in_ : Ok Op.in_
  unfolding drive op_cycles exec request end_cycle is_instruction_executed isa get_byte byte_at
      cpu_read cpu_read_instr cpu_write get_global_addr Control.in_
  in_ = refl

  pub out_ : Ok Op.out_
  unfolding drive op_cycles exec request end_cycle is_instruction_executed isa get_byte byte_at
      cpu_read cpu_read_instr cpu_write get_global_addr Control.out_
  out_ = refl

  pub di : Ok Op.di
  unfolding drive op_cycles exec request end_cycle is_instruction_executed isa
  di = refl

  pub ei : Ok Op.ei
  unfolding drive op_cycles exec request end_cycle is_instruction_executed isa
  ei = refl

  pub nop : Ok Op.nop
  unfolding drive op_cycles exec request end_cycle is_instruction_executed isa
  nop = refl

  pub stc : Ok Op.stc
  unfolding drive op_cycles exec request end_cycle is_instruction_executed isa
  stc = refl

  pub cmc : Ok Op.cmc
  unfolding drive op_cycles exec request end_cycle is_instruction_executed isa
  cmc = refl
