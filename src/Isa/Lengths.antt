-- ===== src/Isa/Lengths.antt =====
-- The bytes of an instruction: PC of libs/v6core/src/cpu_i8080.cpp against `GetInstrLen`.
use v6emul.Base.{
  ℕ, ◌+◌, ◌-◌, ◌<◌, ◌≡◌, ◌≢◌, refl, ◌∙◌, ap, arith, Bool, true, false, ◌||◌, ◌&&◌, not, ◌≤◌, ◌==◌,
  Option, some, none, List, ◌∷◌, u16, all_below, all_below_sound,
}
use v6emul.Memory.{ram}
use v6emul.Memory.Bounds.{get_byte-lt}
use v6emul.Cpu.State.{Machine, Bus}
use v6emul.Cpu.Ops.{Op}
use v6emul.Cpu.Tables.{get_instr_len}
use v6emul.Cpu.Decode.{decode_op}
use v6emul.Cpu.Step.{execute_instruction}
use v6emul.Isa.{hide, isa}
use v6emul.Isa.Drive.{mov_m_l}
use v6emul.Isa.Begin.{IsReady, takes_interrupt, past_opcode, opcode}
use v6emul.Isa.Run.{execute_instruction-isa}
use mathlib.Core.Option

-- the bytes of an instruction, by its operands
unfoldable pub op_bytes : Op → ℕ
op_bytes (Op.mvi_reg_data dst) = 2
op_bytes Op.mvi_mem_data = 2
op_bytes (Op.adi cy) = 2
op_bytes (Op.sbi cy) = 2
op_bytes Op.ani = 2
op_bytes Op.xri = 2
op_bytes Op.ori = 2
op_bytes Op.cpi = 2
op_bytes Op.in_ = 2
op_bytes Op.out_ = 2
op_bytes (Op.lxi p) = 3
op_bytes Op.lda = 3
op_bytes Op.sta = 3
op_bytes Op.lhld = 3
op_bytes Op.shld = 3
op_bytes (Op.jmp cond) = 3
op_bytes (Op.call cond) = 3
op_bytes _ = 1

-- The undocumented codes of JMP and CALL.
abbrev pub is_alias : ℕ → Bool
is_alias v = v == 0xcb || v == 0xdd || v == 0xed || v == 0xfd

-- The instructions that go on with the next one.
abbrev pub falls_through : Op → Bool
falls_through (Op.jmp cond) = false
falls_through (Op.call cond) = false
falls_through (Op.ret_cond cond) = false
falls_through (Op.rst arg) = false
falls_through Op.pchl = false
falls_through Op.ret = false
falls_through Op.hlt = false
falls_through op = true

lengths_agree : ℕ → Bool
lengths_agree v = elim (decode_op v) [
  | none ↦ false
  | some op ↦ (is_alias v && not (falls_through op)) || get_instr_len v == op_bytes op
]

lengths_table : all_below 256 lengths_agree ≡ true
unfolding all_below lengths_agree decode_op get_instr_len op_bytes
lengths_table = refl

pub get_instr_len-op_bytes :
    (v : ℕ) (op : Op)
    → v < 256
    → is_alias v ≡ false
    → decode_op v ≡ some op
    → get_instr_len v ≡ op_bytes op
unfolding lengths_agree
get_instr_len-op_bytes v op h a e =
    ground (arith, all_below_sound 256 lengths_agree v lengths_table h)

op_bytes_pos : (op : Op) → 1 ≤ op_bytes op
unfolding op_bytes
op_bytes_pos (Op.mov_reg_reg dst src) = omega arith
op_bytes_pos _ = omega arith

module _ {W : Type 0} (bus : Bus W) where
  pub isa-pc :
      (op : Op) (m : Machine W)
      → m.cpu.pc < 65536
      → falls_through op ≡ true
      → (isa bus op m).cpu.pc ≡ u16 (m.cpu.pc + (op_bytes op - 1))
  unfolding isa op_bytes
  isa-pc (Op.adi cy) m h f = ground arith
  isa-pc _ m h f = ground arith

  pub hidden_pc :
      (r : Option (Machine W))
      → Option.map (λ m. m.cpu.pc) r ≡ Option.map (λ m. m.cpu.pc) (Option.map hide r)
  hidden_pc none = refl
  hidden_pc (some m) = refl

  -- For every instruction but HLT, MOV M,L, jumps, calls and returns, from a machine that can start
  -- it with no interrupt to accept, the loop returns with PC moved on by what `GetInstrLen` says,
  -- on 16 bits.
  pub execute_instruction-length :
      (op : Op) (m : Machine W) (irq j k l x y : Bool) (irqs : List Bool)
      → IsReady m
      → takes_interrupt irq m ≡ false
      → decode_op (opcode m) ≡ some op
      → opcode m ≢ mov_m_l
      → falls_through op ≡ true
      → Option.map (λ m'. m'.cpu.pc) (execute_instruction bus (irq ∷ j ∷ k ∷ l ∷ x ∷ y ∷ irqs) m)
        ≡ some (u16 (m.cpu.pc + get_instr_len (opcode m)))
  execute_instruction-length op m irq j k l x y irqs ready quiet e ne f =
      hidden_pc (execute_instruction bus (irq ∷ j ∷ k ∷ l ∷ x ∷ y ∷ irqs) m)
      ∙ ap (Option.map (λ m'. m'.cpu.pc))
          (execute_instruction-isa bus op m irq j k l x y irqs ready quiet e ne running)
      ∙ ap some (isa-pc op (past_opcode (hide m)) (omega arith) f)
      ∙ ap some total
    where
      running : op ≢ Op.hlt
      running h = let t : falls_through op ≡ false = ap falls_through h in cc

      small : opcode m < 256
      small = get_byte-lt m.mem m.cpu.pc ram ready.valid.mem_valid

      length_of : get_instr_len (opcode m) ≡ op_bytes op
      length_of =
          unfold lengths_agree in
          ground (arith, all_below_sound 256 lengths_agree (opcode m) lengths_table small)

      total :
          u16 (u16 (m.cpu.pc + 1) + (op_bytes op - 1)) ≡ u16 (m.cpu.pc + get_instr_len (opcode m))
      total = omega (arith, op_bytes_pos op, length_of)
