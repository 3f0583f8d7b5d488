-- ===== src/Hardware/StepOver/Reached.antt =====
-- The address of `GetStepOverAddr` against the place where the CPU goes.
use v6emul.Base.{
  ℕ, ◌+◌, ◌*◌, ◌<◌, ◌≡◌, ◌≢◌, refl, sym, ap, ◌∙◌, arith, Bool, true, false, not, some, List, ◌∷◌,
  if◌then◌else◌, u16,
}
use v6emul.Memory.{ram, get_byte, get_global_addr, byte_at}
use v6emul.Memory.Bounds.{get_byte-lt}
use v6emul.Cpu.State.{
  Machine, Bus, Flag, zero_flag, carry_flag, parity_flag, sign_flag, always, when, get_flag,
}
use v6emul.Cpu.Access.{inc16}
use v6emul.Cpu.Ops.{Op}
use v6emul.Cpu.Tables.{get_instr_len}
use v6emul.Cpu.Decode.{decode_op}
use v6emul.Cpu.Step.{execute_instruction}
use v6emul.Isa.{hide, isa, imm16}
use v6emul.Isa.Drive.{mov_m_l}
use v6emul.Isa.Begin.{IsReady, takes_interrupt, past_opcode, opcode}
use v6emul.Isa.Run.{execute_instruction-isa}
use v6emul.Isa.Lengths.{op_bytes, isa-pc, hidden_pc, get_instr_len-op_bytes}
use mathlib.Core.Option
use v6emul.Hardware.StepOver.{step_kind, im_addr, next_pc, step_addr, get_step_over_addr}
use v6emul.Hardware.StepOver.Kinds.{
  op_kind, restarts_at, is_undocumented, goes_on, step_kind-op_kind,
}

module _ {W : Type 0} (bus : Bus W) where
  -- The operand is read at the same addresses.
  same_imm : (m : Machine W) → imm16 (past_opcode (hide m)) ≡ im_addr m
  unfolding get_byte get_global_addr byte_at
  same_imm m =
      let far : inc16 (inc16 m.cpu.pc) ≡ u16 (m.cpu.pc + 2) = omega arith in
      ap (λ a. get_byte m.mem a ram * 256 + get_byte m.mem (u16 (m.cpu.pc + 1)) ram) far

  same_next :
      (m : Machine W) → get_instr_len (opcode m) ≡ 3 → inc16 (inc16 (inc16 m.cpu.pc)) ≡ next_pc m
  same_next m len = omega (arith, len)

  same_flag : (f : Flag) (m : Machine W) → get_flag f (past_opcode (hide m)).cpu ≡ get_flag f m.cpu
  same_flag zero_flag m = refl
  same_flag carry_flag m = refl
  same_flag parity_flag m = refl
  same_flag sign_flag m = refl

  branch_pc :
      (b c : Bool) (x y : Machine W) {p q : ℕ}
      → b ≡ c
      → x.cpu.pc ≡ p
      → y.cpu.pc ≡ q
      → (if b then x else y).cpu.pc ≡ (if c then p else q)
  branch_pc true true x y e h k = h
  branch_pc false false x y e h k = k
  branch_pc true false x y e h k = ground arith
  branch_pc false true x y e h k = ground arith

  branch_pc_not :
      (b c : Bool) (x y : Machine W) {p q : ℕ}
      → b ≡ c
      → x.cpu.pc ≡ p
      → y.cpu.pc ≡ q
      → (if not b then x else y).cpu.pc ≡ (if c then q else p)
  branch_pc_not true true x y e h k = k
  branch_pc_not false false x y e h k = h
  branch_pc_not true false x y e h k = ground arith
  branch_pc_not false true x y e h k = ground arith

  -- Where the instruction set goes.
  isa-step_addr :
      (op : Op) (m : Machine W)
      → m.cpu.pc < 65536
      → goes_on op ≡ true
      → get_instr_len (opcode m) ≡ op_bytes op
      → restarts_at (opcode m) op ≡ true
      → (isa bus op (past_opcode (hide m))).cpu.pc ≡ step_addr (op_kind op) m
  unfolding isa op_kind step_addr restarts_at op_bytes get_byte get_global_addr byte_at
  isa-step_addr (Op.jmp always) m h g len r = same_imm m
  isa-step_addr (Op.jmp (when f true)) m h g len r =
      branch_pc (get_flag f (past_opcode (hide m)).cpu) (get_flag f m.cpu) _ _ (same_flag f m)
        (same_imm m) (same_next m len)
  isa-step_addr (Op.jmp (when f false)) m h g len r =
      branch_pc_not (get_flag f (past_opcode (hide m)).cpu) (get_flag f m.cpu) _ _ (same_flag f m)
        (same_imm m) (same_next m len)
  isa-step_addr Op.ret m h g len r = refl
  isa-step_addr Op.pchl m h g len r = refl
  isa-step_addr (Op.rst arg) m h g len r = ground arith
  isa-step_addr (Op.call cond) m h g len r = ground arith
  isa-step_addr (Op.ret_cond cond) m h g len r = ground arith
  isa-step_addr Op.hlt m h g len r = ground arith
  isa-step_addr op m h g len r =
      omega (arith, isa-pc bus op (past_opcode (hide m)) (omega arith) refl)

  -- For every documented instruction but HLT, MOV M,L, calls and conditional returns, from a
  -- machine that can start it with no interrupt to accept, the loop of machine cycles ends with PC
  -- at the address that `GetStepOverAddr` gave before.
  pub execute_instruction-step_over :
      (op : Op) (m : Machine W) (irq j k l x y : Bool) (irqs : List Bool)
      → IsReady m
      → takes_interrupt irq m ≡ false
      → decode_op (opcode m) ≡ some op
      → opcode m ≢ mov_m_l
      → is_undocumented (opcode m) ≡ false
      → goes_on op ≡ true
      → Option.map (λ m'. m'.cpu.pc) (execute_instruction bus (irq ∷ j ∷ k ∷ l ∷ x ∷ y ∷ irqs) m)
        ≡ some (get_step_over_addr m)
  unfolding get_step_over_addr
  execute_instruction-step_over op m irq j k l x y irqs ready quiet e ne u g =
      hidden_pc bus (execute_instruction bus (irq ∷ j ∷ k ∷ l ∷ x ∷ y ∷ irqs) m)
      ∙ ap (Option.map (λ m'. m'.cpu.pc))
          (execute_instruction-isa bus op m irq j k l x y irqs ready quiet e ne running)
      ∙ ap some (isa-step_addr op m ready.valid.cpu_valid.pc_in g len kinds.1)
      ∙ ap (λ k. some (step_addr k m)) (sym kinds.0)
    where
      running : op ≢ Op.hlt
      running h = let t : goes_on op ≡ false = ap goes_on h in cc

      small : opcode m < 256
      small = get_byte-lt m.mem m.cpu.pc ram ready.valid.mem_valid

      kinds : (step_kind (opcode m) ≡ op_kind op) × (restarts_at (opcode m) op ≡ true)
      kinds = step_kind-op_kind (opcode m) op small u e

      len : get_instr_len (opcode m) ≡ op_bytes op
      len = get_instr_len-op_bytes (opcode m) op small (ground (arith, u)) e
