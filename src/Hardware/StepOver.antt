-- ===== src/Hardware/StepOver.antt =====
-- `GetStepOverAddr` (libs/v6core/src/hardware.cpp): the address where a debugger stops next.
pub mod Kinds
pub mod Reached
use v6emul.Base.{
  ℕ, ◌+◌, ◌-◌, ◌*◌, ◌%◌, ◌<◌, ◌≡◌, ◌≢◌, refl, sym, ap, ◌∙◌, arith, Bool, true, false, not, ◌&&◌,
  ◌||◌, ◌==◌, none, some, List, [], ◌∷◌, get_or, if◌then◌else◌, u16, all_below, all_below_sound,
}
use v6emul.Memory.{ram, stack, get_byte, get_global_addr, byte_at}
use v6emul.Memory.Bounds.{get_byte-lt}
use v6emul.Cpu.State.{
  Machine, Bus, Flag, zero_flag, carry_flag, parity_flag, sign_flag, always, when, get_flag,
  get_word, pair_hl,
}
use v6emul.Cpu.Access.{inc16}
use v6emul.Cpu.Ops.{Op}
use v6emul.Cpu.Tables.{get_instr_len, get_instr_type}
use v6emul.Cpu.Decode.{decode_op}
use v6emul.Cpu.Step.{execute_instruction}
use v6emul.Isa.{hide, isa, imm16}
use v6emul.Isa.Drive.{mov_m_l}
use v6emul.Isa.Begin.{IsReady, takes_interrupt, past_opcode, opcode}
use v6emul.Isa.Run.{execute_instruction-isa}
use v6emul.Isa.Lengths.{op_bytes, isa-pc, hidden_pc, get_instr_len-op_bytes}
use mathlib.Core.Option

-- the cases of the switch; a branch has its flag and the value of the flag that takes it
pub data StepKind : Type 0 where
  to_operand to_return to_hl to_restart to_next : StepKind
  branch : Flag → Bool → StepKind

-- the inner switch over the opcode
unfoldable pub branch_kind : ℕ → StepKind
branch_kind v =
    if v == 0xc2
    then branch zero_flag false
    else if v == 0xca
    then branch zero_flag true
    else if v == 0xd2
    then branch carry_flag false
    else if v == 0xda
    then branch carry_flag true
    else if v == 0xe2
    then branch parity_flag false
    else if v == 0xea
    then branch parity_flag true
    else if v == 0xf2
    then branch sign_flag false
    else if v == 0xfa
    then branch sign_flag true
    else to_next

-- the outer switch over the type: JMP, RET, PCHL, RST
unfoldable pub step_kind : ℕ → StepKind
step_kind v =
    let type = get_instr_type v in
    if type == 3
    then to_operand
    else if type == 5
    then to_return
    else if type == 6
    then to_hl
    else if type == 7
    then to_restart
    else branch_kind v

module _ {W : Type 0} where
  abbrev im_addr : Machine W → ℕ
  im_addr m =
      get_byte m.mem (u16 (m.cpu.pc + 2)) ram * 256 + get_byte m.mem (u16 (m.cpu.pc + 1)) ram

  abbrev next_pc : Machine W → ℕ
  next_pc m = u16 (m.cpu.pc + get_instr_len (opcode m))

  -- what a case returns
  unfoldable pub step_addr : StepKind → Machine W → ℕ
  step_addr to_operand m = im_addr m
  step_addr to_return m =
      get_byte m.mem (u16 (m.cpu.sp + 1)) stack * 256 + get_byte m.mem m.cpu.sp stack
  step_addr to_hl m = get_word pair_hl m.cpu
  step_addr to_restart m = opcode m - 0xc7
  step_addr to_next m = next_pc m
  step_addr (branch f true) m = if get_flag f m.cpu then im_addr m else next_pc m
  step_addr (branch f false) m = if get_flag f m.cpu then next_pc m else im_addr m

  -- `GetStepOverAddr`
  unfoldable pub get_step_over_addr : Machine W → ℕ
  get_step_over_addr m = step_addr (step_kind (opcode m)) m
