-- ===== src/Isa/Refine.antt =====
-- Every instruction that `Decode` (libs/v6core/src/cpu_i8080.cpp) can select, HLT apart: its machine
-- cycles have its effect in the instruction set.
pub mod Start
pub mod Moves
pub mod Control
pub mod Alu
pub mod Operands
pub mod Counters
use v6emul.Base.{ℕ, ◌≡◌, ◌≢◌, refl, Bool, true, false, List}
use v6emul.Cpu.State.{Machine, Bus}
use v6emul.Cpu.Ops.{Op}
use v6emul.Cpu.Valid.{IsMachine}
use Start.{Refines, is_encoded}

module _ {W : Type 0} (bus : Bus W) (m : Machine W) (valid : IsMachine m) (i j k l x y : Bool)
    (irqs : List Bool) where
  pub refines : (op : Op) → is_encoded op ≡ true → op ≢ Op.hlt → Refines bus m i j k l x y irqs op
  refines (Op.mov_reg_reg dst src) h ne = Moves.mov_reg_reg bus m i j k l x y irqs dst src
  refines (Op.load_reg_ptr dst p) h ne = Moves.load_reg_ptr bus m i j k l x y irqs dst p
  refines (Op.mov_mem_reg src) h ne = Moves.mov_mem_reg bus m i j k l x y irqs src
  refines (Op.mvi_reg_data dst) h ne = Moves.mvi_reg_data bus m i j k l x y irqs dst
  refines Op.mvi_mem_data h ne = Moves.mvi_mem_data bus m i j k l x y irqs
  refines Op.lda h ne = Moves.lda bus m i j k l x y irqs
  refines Op.sta h ne = Moves.sta bus m i j k l x y irqs
  refines Op.sphl h ne = Moves.sphl bus m i j k l x y irqs
  refines Op.xthl h ne = Moves.xthl bus m i j k l x y irqs
  refines Op.lhld h ne = Moves.lhld bus m i j k l x y irqs
  refines Op.shld h ne = Moves.shld bus m i j k l x y irqs
  refines Op.xchg h ne = Moves.xchg bus m i j k l x y irqs
  refines (Op.stax p) h ne = Moves.stax bus m i j k l x y irqs p
  refines (Op.lxi p) h ne = Moves.lxi bus m i j k l x y irqs p
  refines (Op.push p) h ne = Moves.push bus m i j k l x y irqs p h
  refines (Op.pop p) h ne = Moves.pop bus m i j k l x y irqs p h
  refines Op.pop_psw h ne = Moves.pop_psw bus m i j k l x y irqs
  refines (Op.jmp cond) h ne = Control.jmp bus m i j k l x y irqs cond
  refines (Op.call cond) h ne = Control.call bus m i j k l x y irqs cond
  refines (Op.ret_cond cond) h ne = Control.ret_cond bus m i j k l x y irqs cond
  refines (Op.rst arg) h ne = Control.rst bus m i j k l x y irqs arg
  refines Op.pchl h ne = Control.pchl bus m i j k l x y irqs
  refines Op.ret h ne = Control.ret bus m i j k l x y irqs
  refines Op.in_ h ne = Control.in_ bus m i j k l x y irqs
  refines Op.out_ h ne = Control.out_ bus m i j k l x y irqs
  refines Op.di h ne = Control.di bus m i j k l x y irqs
  refines Op.ei h ne = Control.ei bus m i j k l x y irqs
  refines Op.nop h ne = Control.nop bus m i j k l x y irqs
  refines Op.stc h ne = Control.stc bus m i j k l x y irqs
  refines Op.cmc h ne = Control.cmc bus m i j k l x y irqs
  refines (Op.add src cy) h ne = Alu.add bus m valid i j k l x y irqs src cy
  refines (Op.sub src cy) h ne = Alu.sub bus m valid i j k l x y irqs src cy
  refines (Op.ana src) h ne = Alu.ana bus m valid i j k l x y irqs src
  refines (Op.xra src) h ne = Alu.xra bus m valid i j k l x y irqs src
  refines (Op.ora src) h ne = Alu.ora bus m valid i j k l x y irqs src
  refines (Op.cmp src) h ne = Alu.cmp bus m valid i j k l x y irqs src
  refines Op.daa h ne = Alu.daa bus m valid i j k l x y irqs
  refines Op.rlc h ne = Alu.rlc bus m valid i j k l x y irqs
  refines Op.rrc h ne = Alu.rrc bus m valid i j k l x y irqs
  refines Op.ral h ne = Alu.ral bus m valid i j k l x y irqs
  refines Op.rar h ne = Alu.rar bus m valid i j k l x y irqs
  refines Op.cma h ne = Alu.cma bus m valid i j k l x y irqs
  refines (Op.add_mem cy) h ne = Operands.add_mem bus m valid i j k l x y irqs cy
  refines (Op.sub_mem cy) h ne = Operands.sub_mem bus m valid i j k l x y irqs cy
  refines Op.ana_mem h ne = Operands.ana_mem bus m valid i j k l x y irqs
  refines Op.xra_mem h ne = Operands.xra_mem bus m valid i j k l x y irqs
  refines Op.ora_mem h ne = Operands.ora_mem bus m valid i j k l x y irqs
  refines Op.cmp_mem h ne = Operands.cmp_mem bus m valid i j k l x y irqs
  refines (Op.adi cy) h ne = Operands.adi bus m valid i j k l x y irqs cy
  refines (Op.sbi cy) h ne = Operands.sbi bus m valid i j k l x y irqs cy
  refines Op.ani h ne = Operands.ani bus m valid i j k l x y irqs
  refines Op.xri h ne = Operands.xri bus m valid i j k l x y irqs
  refines Op.ori h ne = Operands.ori bus m valid i j k l x y irqs
  refines Op.cpi h ne = Operands.cpi bus m valid i j k l x y irqs
  refines (Op.inx p) h ne = Counters.inx bus m valid i j k l x y irqs p h
  refines (Op.dcx p) h ne = Counters.dcx bus m valid i j k l x y irqs p h
  refines (Op.inr dst) h ne = Counters.inr bus m valid i j k l x y irqs dst
  refines (Op.dcr dst) h ne = Counters.dcr bus m valid i j k l x y irqs dst
  refines Op.inr_mem h ne = Counters.inr_mem bus m valid i j k l x y irqs
  refines Op.dcr_mem h ne = Counters.dcr_mem bus m valid i j k l x y irqs
  refines (Op.dad p) h ne = Counters.dad bus m valid i j k l x y irqs p h
  refines Op.hlt h ne = absurd (ne refl)
