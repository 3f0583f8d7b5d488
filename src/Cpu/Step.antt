-- ===== src/Cpu/Step.antt =====
-- `Decode`, `ExecuteMachineCycle` and `IsInstructionExecuted` of libs/v6core/src/cpu_i8080.cpp, and
-- the loop of machine cycles in `Hardware::ExecuteInstruction` (libs/v6core/src/hardware.cpp).
use v6emul.Base.{ℕ, ◌+◌, ◌%◌, Bool, true, false, not, ◌&&◌, ◌||◌, ◌==◌, if◌then◌else◌, u64}
use v6emul.Base.{Option, none, some, List, [], ◌∷◌, not8}
use v6emul.Memory.{cpu_invokes_rst7}
use v6emul.Cpu.State.{Cpu, Machine, Bus, pair_psw, get_reg}
use v6emul.Cpu.Tables.{m_cycles}
use v6emul.Cpu.Alu
use v6emul.Cpu.Access.{on_cpu, read_instr_move_pc}
use v6emul.Cpu.Arith.{load_act_tmp}
use v6emul.Cpu.Moves
use v6emul.Cpu.Arith
use v6emul.Cpu.Control
use v6emul.Cpu.Ops.{Op}
use v6emul.Cpu.Decode.{decode_op}

-- whether the carry flag is added
abbrev pub carry_in : Bool → Cpu → Bool
carry_in with_carry s = with_carry && s.fc

-- OPCODE_RST7
abbrev pub opcode_rst7 : ℕ
opcode_rst7 = 0xff

-- `MC++; MC %= M_CYCLES[IR]` on four bits, then `CC += MACHINE_CC`.
unfoldable pub end_cycle : ℕ → Cpu → Cpu
end_cycle cycles s = record s { mc = (s.mc + 1) % 16 % cycles; cc = u64 (s.cc + 4) }

module _ {W : Type 0} where
  -- `IFF |= _irq & INTE`
  unfoldable pub request : Bool → Machine W → Machine W
  request irq m = on_cpu (λ s. record s { iff = s.iff || irq && s.inte }) m

  -- The start of an instruction, at MC 0: the interrupt's RST 7, or the fetch of an opcode.
  unfoldable pub begin_instruction : Machine W → Machine W
  begin_instruction m =
      if m.cpu.iff && not m.cpu.ei_pending
      then record m {
        cpu = record (m.cpu) { inte = false; iff = false; hlta = false; ir = opcode_rst7 };
        mem = cpu_invokes_rst7 m.mem;
      }
      else let (v, m') = read_instr_move_pc 0 (on_cpu (λ s. record s { ei_pending = false }) m) in
        on_cpu (λ s. record s { ir = v }) m'

  -- `IsInstructionExecuted`
  unfoldable pub is_instruction_executed : Machine W → Bool
  is_instruction_executed m = m.cpu.mc == 0 || m.cpu.hlta

module _ {W : Type 0} (bus : Bus W) where
  -- One case of the switch, at a machine cycle.
  unfoldable pub exec : Op → ℕ → Machine W → Machine W
  exec (Op.mov_reg_reg dst src) mc m = Moves.mov_reg_reg dst src mc m
  exec (Op.load_reg_ptr dst p) mc m = Moves.load_reg_ptr dst p mc m
  exec (Op.mov_mem_reg src) mc m = Moves.mov_mem_reg src mc m
  exec (Op.mvi_reg_data dst) mc m = Moves.mvi_reg_data dst mc m
  exec (Op.stax p) mc m = Moves.stax p mc m
  exec (Op.lxi p) mc m = Moves.lxi p mc m
  exec (Op.push p) mc m = Moves.push p mc m
  exec (Op.pop p) mc m = Moves.pop p mc m
  exec (Op.dad p) mc m = Arith.dad p mc m
  exec (Op.inx p) mc m = Arith.inx p mc m
  exec (Op.dcx p) mc m = Arith.dcx p mc m
  exec Op.mvi_mem_data mc m = Moves.mvi_mem_data mc m
  exec Op.lda mc m = Moves.lda mc m
  exec Op.sta mc m = Moves.sta mc m
  exec Op.lhld mc m = Moves.lhld mc m
  exec Op.shld mc m = Moves.shld mc m
  exec Op.sphl mc m = Moves.sphl mc m
  exec Op.xchg mc m = on_cpu Alu.xchg m
  exec Op.xthl mc m = Moves.xthl mc m
  exec Op.pop_psw mc m = Moves.pop_psw pair_psw mc m
  exec (Op.add src cy) mc m = on_cpu (λ s. Alu.add s.a (get_reg src s) (carry_in cy s) s) m
  exec (Op.sub src cy) mc m = on_cpu (λ s. Alu.sub s.a (get_reg src s) (carry_in cy s) s) m
  exec (Op.add_mem cy) mc m = Arith.add_mem (carry_in cy m.cpu) mc m
  exec (Op.adi cy) mc m = Arith.adi (carry_in cy m.cpu) mc m
  exec (Op.sub_mem cy) mc m = Arith.sub_mem (carry_in cy m.cpu) mc m
  exec (Op.sbi cy) mc m = Arith.sbi (carry_in cy m.cpu) mc m
  exec (Op.inr dst) mc m = Arith.inr dst mc m
  exec (Op.dcr dst) mc m = Arith.dcr dst mc m
  exec (Op.ana src) mc m = on_cpu (λ s. Alu.and_act_tmp (load_act_tmp (get_reg src s) s)) m
  exec (Op.xra src) mc m = on_cpu (λ s. Alu.xor_act_tmp (load_act_tmp (get_reg src s) s)) m
  exec (Op.ora src) mc m = on_cpu (λ s. Alu.or_act_tmp (load_act_tmp (get_reg src s) s)) m
  exec (Op.cmp src) mc m = on_cpu (λ s. Alu.cmp_act_tmp (load_act_tmp (get_reg src s) s)) m
  exec Op.inr_mem mc m = Arith.inr_mem mc m
  exec Op.dcr_mem mc m = Arith.dcr_mem mc m
  exec Op.ana_mem mc m = Arith.ana_mem mc m
  exec Op.ani mc m = Arith.ani mc m
  exec Op.xra_mem mc m = Arith.xra_mem mc m
  exec Op.xri mc m = Arith.xri mc m
  exec Op.ora_mem mc m = Arith.ora_mem mc m
  exec Op.ori mc m = Arith.ori mc m
  exec Op.cmp_mem mc m = Arith.cmp_mem mc m
  exec Op.cpi mc m = Arith.cpi mc m
  exec Op.daa mc m = on_cpu Alu.daa m
  exec Op.cma mc m = on_cpu (λ s. record s { a = not8 s.a }) m
  exec Op.stc mc m = on_cpu (λ s. record s { fc = true }) m
  exec Op.cmc mc m = on_cpu (λ s. record s { fc = not s.fc }) m
  exec Op.rlc mc m = on_cpu Alu.rlc m
  exec Op.rrc mc m = on_cpu Alu.rrc m
  exec Op.ral mc m = on_cpu Alu.ral m
  exec Op.rar mc m = on_cpu Alu.rar m
  exec (Op.jmp cond) mc m = Control.jmp cond mc m
  exec (Op.call cond) mc m = Control.call cond mc m
  exec (Op.ret_cond cond) mc m = Control.ret_cond cond mc m
  exec (Op.rst arg) mc m = Control.rst arg mc m
  exec Op.pchl mc m = Control.pchl mc m
  exec Op.ret mc m = Control.ret mc m
  exec Op.in_ mc m = Control.in_ bus mc m
  exec Op.out_ mc m = Control.out_ bus mc m
  exec Op.di mc m = on_cpu (λ s. record s { inte = false }) m
  exec Op.ei mc m = on_cpu (λ s. record s { inte = true; ei_pending = true }) m
  exec Op.hlt mc m = Control.hlt mc m
  exec Op.nop mc m = m

  -- `Decode`, with the count of clock cycles that follows it.
  unfoldable pub decode : Machine W → Option (Machine W)
  unfolding end_cycle
  decode m = elim (decode_op m.cpu.ir) [
    | none ↦ none
    | some op ↦ some (on_cpu (λ s. end_cycle (m_cycles s.ir) s) (exec op m.cpu.mc m))
  ]

  -- `ExecuteMachineCycle`; `none` is the exit at an opcode that has no case.
  unfoldable pub execute_machine_cycle : Bool → Machine W → Option (Machine W)
  unfolding decode request begin_instruction
  execute_machine_cycle irq m =
      let m' = request irq m in decode (if m'.cpu.mc == 0 then begin_instruction m' else m')

  -- The loop over the machine cycles of one instruction; the list has the interrupt line at each
  -- cycle, and `none` also stands for its end.
  unfoldable pub execute_instruction : List Bool → Machine W → Option (Machine W)
  unfolding execute_machine_cycle is_instruction_executed
  execute_instruction [] m = none
  execute_instruction (irq ∷ irqs) m = elim (execute_machine_cycle irq m) [
    | none ↦ none
    | some m' ↦ elim (is_instruction_executed m') [
      | true ↦ some m'
      | false ↦ execute_instruction irqs m'
    ]
  ]
