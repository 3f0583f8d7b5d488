-- ===== src/Isa/Drive.antt =====
-- The machine cycles of one known instruction: the loop of `Hardware::ExecuteInstruction`
-- (libs/v6core/src/hardware.cpp) with the switch of `Decode` already taken.
use v6emul.Base.{
  ℕ, ◌<◌, ◌≡◌, ◌≢◌, refl, sym, ◌∙◌, ap, arith, ◌||◌, Bool, true, false, Option, some, none,
}
use v6emul.Base.{
  List, [], ◌∷◌, if◌then◌else◌, ◌==◌, all_below, all_below_sound, Bool-cases, inl, inr,
}
use v6emul.Cpu.State.{Machine, Bus}
use v6emul.Cpu.Ops.{Op}
use v6emul.Cpu.Access.{on_cpu}
use v6emul.Cpu.Tables.{m_cycles}
use v6emul.Cpu.Decode.{decode_op}
use v6emul.Cpu.Step.{
  exec, request, end_cycle, decode, is_instruction_executed, execute_machine_cycle,
  execute_instruction,
}
use v6emul.Cpu.Moves
use v6emul.Cpu.Arith
use v6emul.Cpu.Control
use v6emul.Cpu.Alu

-- Machine cycles of each instruction, where its condition holds.
unfoldable pub op_cycles : Op → ℕ
op_cycles (Op.mov_reg_reg dst src) = 2
op_cycles (Op.load_reg_ptr dst p) = 2
op_cycles (Op.mov_mem_reg src) = 2
op_cycles (Op.mvi_reg_data dst) = 2
op_cycles (Op.stax p) = 2
op_cycles (Op.lxi p) = 3
op_cycles (Op.push p) = 4
op_cycles (Op.pop p) = 3
op_cycles (Op.dad p) = 3
op_cycles (Op.inx p) = 2
op_cycles (Op.dcx p) = 2
op_cycles Op.mvi_mem_data = 3
op_cycles Op.lda = 4
op_cycles Op.sta = 4
op_cycles Op.lhld = 5
op_cycles Op.shld = 5
op_cycles Op.sphl = 2
op_cycles Op.xthl = 6
op_cycles Op.pop_psw = 3
op_cycles (Op.add_mem cy) = 2
op_cycles (Op.adi cy) = 2
op_cycles (Op.sub_mem cy) = 2
op_cycles (Op.sbi cy) = 2
op_cycles (Op.inr dst) = 2
op_cycles (Op.dcr dst) = 2
op_cycles Op.inr_mem = 3
op_cycles Op.dcr_mem = 3
op_cycles Op.ana_mem = 2
op_cycles Op.ani = 2
op_cycles Op.xra_mem = 2
op_cycles Op.xri = 2
op_cycles Op.ora_mem = 2
op_cycles Op.ori = 2
op_cycles Op.cmp_mem = 2
op_cycles Op.cpi = 2
op_cycles (Op.jmp cond) = 3
op_cycles (Op.call cond) = 6
op_cycles (Op.ret_cond cond) = 4
op_cycles (Op.rst arg) = 4
op_cycles Op.pchl = 2
op_cycles Op.ret = 3
op_cycles Op.in_ = 3
op_cycles Op.out_ = 3
op_cycles Op.hlt = 2
op_cycles _ = 1

-- 0x75, the opcode of MOV M,L
abbrev pub mov_m_l : ℕ
mov_m_l = 0x75

cycles_agree : ℕ → Bool
cycles_agree v = elim (decode_op v) [
  | none ↦ false
  | some op ↦ v == mov_m_l || m_cycles v == op_cycles op
]

cycles_table : all_below 256 cycles_agree ≡ true
unfolding all_below cycles_agree decode_op m_cycles op_cycles
cycles_table = refl

-- Every byte is the opcode of an instruction, so that the switch never takes its default case,
-- which would leave the program.
pub decode_op-total : (v : ℕ) → v < 256 → (op : Op) × (decode_op v ≡ some op)
unfolding cycles_agree
decode_op-total v h = ground (arith, all_below_sound 256 cycles_agree v cycles_table h)

-- For each opcode but MOV M,L, the table of machine cycles has the number of cycles that the helper
-- of its instruction has.
pub m_cycles-op_cycles :
    (v : ℕ) (op : Op) → v < 256 → v ≢ mov_m_l → decode_op v ≡ some op → m_cycles v ≡ op_cycles op
unfolding cycles_agree
m_cycles-op_cycles v op h ne e = ground (arith, all_below_sound 256 cycles_agree v cycles_table h)

module _ {W : Type 0} (bus : Bus W) where
  -- one machine cycle of an instruction that takes `cycles` of them
  unfoldable pub tick : ℕ → Op → Bool → Machine W → Machine W
  tick cycles op irq m =
      let m' = request irq m in on_cpu (end_cycle cycles) (exec bus op m'.cpu.mc m')

  unfoldable pub drive : ℕ → Op → List Bool → Machine W → Option (Machine W)
  unfolding tick
  drive cycles op [] m = none
  drive cycles op (irq ∷ irqs) m =
      let m' = tick cycles op irq m in
      elim (is_instruction_executed m') [ true ↦ some m' | false ↦ drive cycles op irqs m' ]

  -- No instruction changes the instruction register.
  exec-ir : (op : Op) (mc : ℕ) (m : Machine W) → (exec bus op mc m).cpu.ir ≡ m.cpu.ir
  unfolding exec Alu.xchg Alu.add Alu.sub Alu.set_zsp Alu.inr_flags Alu.dcr_flags Alu.daa Alu.rlc
      Alu.rrc Alu.ral Alu.rar Alu.and_act_tmp Alu.xor_act_tmp Alu.or_act_tmp Alu.cmp_act_tmp
      Moves.mov_reg_reg Moves.load_reg_ptr Moves.mov_mem_reg Moves.mvi_reg_data Moves.mvi_mem_data
      Moves.lda Moves.sta Moves.stax Moves.lxi Moves.lhld Moves.shld Moves.sphl Moves.xthl
      Moves.push Moves.pop Moves.pop_psw Arith.dad_low Arith.dad_high Arith.add_mem Arith.adi
      Arith.sub_mem Arith.sbi Arith.ana_mem Arith.ani Arith.xra_mem Arith.xri Arith.ora_mem
      Arith.ori Arith.cmp_mem Arith.cpi Arith.dad Arith.inr Arith.inr_mem Arith.dcr Arith.dcr_mem
      Arith.inx Arith.dcx Control.jmp Control.pchl Control.call Control.rst Control.ret
      Control.ret_cond Control.in_ Control.out_ Control.hlt
  exec-ir (Op.mov_reg_reg dst src) mc m = ground arith
  exec-ir _ mc m = ground arith

  -- `Decode` at a known instruction.
  pub decode-exec :
      (op : Op) (m : Machine W)
      → decode_op m.cpu.ir ≡ some op
      → decode bus m ≡ some (on_cpu (end_cycle (m_cycles m.cpu.ir)) (exec bus op m.cpu.mc m))
  unfolding decode
  decode-exec op m e = rw (e, decode) (rw (exec-ir op m.cpu.mc m) refl)

  -- In the middle of an instruction the source's cycle is a tick of it.
  execute-tick :
      (op : Op) (irq : Bool) (m : Machine W)
      → m.cpu.mc ≢ 0
      → decode_op m.cpu.ir ≡ some op
      → execute_machine_cycle bus irq m ≡ some (tick (m_cycles m.cpu.ir) op irq m)
  unfolding execute_machine_cycle tick
  execute-tick op irq m h e = mid ∙ decode-exec op (request irq m) e
    where
      mid : execute_machine_cycle bus irq m ≡ decode bus (request irq m)
      mid = let t : (m.cpu.mc == 0) ≡ false = ground arith in rw t

  -- One round of the two loops, at the state that the cycle gives.
  pub execute-round :
      (irq : Bool) (irqs : List Bool) (m m' : Machine W)
      → execute_machine_cycle bus irq m ≡ some m'
      → execute_instruction bus (irq ∷ irqs) m
        ≡ (if is_instruction_executed m' then some m' else execute_instruction bus irqs m')
  unfolding execute_instruction
  execute-round irq irqs m m' e = rw (e, execute_instruction) (ground arith)

  pub drive-round :
      (cycles : ℕ) (op : Op) (irq : Bool) (irqs : List Bool) (m m' : Machine W)
      → m' ≡ tick cycles op irq m
      → drive cycles op (irq ∷ irqs) m
        ≡ (if is_instruction_executed m' then some m' else drive cycles op irqs m')
  unfolding drive
  drive-round cycles op irq irqs m m' e = rw e (ground arith)

  pub unfinished : (m : Machine W) → is_instruction_executed m ≡ false → m.cpu.mc ≢ 0
  unfolding is_instruction_executed
  unfinished m h = ground arith

  pub tick-ir :
      (cycles : ℕ) (op : Op) (irq : Bool) (m : Machine W) → (tick cycles op irq m).cpu.ir ≡ m.cpu.ir
  unfolding tick end_cycle request
  tick-ir cycles op irq m = exec-ir op m.cpu.mc (request irq m)

  -- So the loop of an instruction runs its ticks.
  pub execute-drive :
      (op : Op) (cycles : ℕ) (irqs : List Bool) (m : Machine W)
      → m.cpu.mc ≢ 0
      → decode_op m.cpu.ir ≡ some op
      → m_cycles m.cpu.ir ≡ cycles
      → execute_instruction bus irqs m ≡ drive cycles op irqs m
  execute-drive op cycles [] m h e k = unfold execute_instruction drive in refl
  execute-drive op cycles (irq ∷ irqs) m h e k =
      execute-round irq irqs m m' (execute-tick op irq m h e ∙ ap some same)
      ∙ elim (Bool-cases (is_instruction_executed m')) [
        | inl t ↦ rw t refl
        | inr f ↦ rw f (
            execute-drive op cycles irqs m' (unfinished m' f) (ap decode_op ir ∙ e)
              (ap m_cycles ir ∙ k))
      ]
      ∙ sym (drive-round cycles op irq irqs m m' refl)
    where
      m' : Machine W
      m' = tick cycles op irq m

      ir : m'.cpu.ir ≡ m.cpu.ir
      ir = tick-ir cycles op irq m

      same : tick (m_cycles m.cpu.ir) op irq m ≡ m'
      same = ap (λ n. tick n op irq m) k

  -- A run of one, two and three cycles, by the machines that its cycles give.
  module _ (cycles : ℕ) (op : Op) (i : Bool) (irqs : List Bool) (m m1 : Machine W)
      (e : tick cycles op i m ≡ m1) where
    pub drive-last : is_instruction_executed m1 ≡ true → drive cycles op (i ∷ irqs) m ≡ some m1
    drive-last t = drive-round cycles op i irqs m m1 (sym e) ∙ rw t refl

    pub drive-next :
        is_instruction_executed m1 ≡ false → drive cycles op (i ∷ irqs) m ≡ drive cycles op irqs m1
    drive-next f = drive-round cycles op i irqs m m1 (sym e) ∙ rw f refl
