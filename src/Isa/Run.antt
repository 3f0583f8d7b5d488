-- ===== src/Isa/Run.antt =====
-- `Hardware::ExecuteInstruction` (libs/v6core/src/hardware.cpp) from the first machine cycle: the
-- fetch of an opcode or the acceptance of an interrupt, then the instruction.
use v6emul.Base.{◌<◌, ◌≡◌, ◌≢◌, refl, sym, ◌∙◌, ap, arith, Bool, true, false, some, List, ◌∷◌}
use v6emul.Memory.{ram, get_byte, cpu_read_instr, cpu_invokes_rst7}
use v6emul.Memory.Bounds.{get_byte-lt}
use v6emul.Cpu.State.{Machine, Bus, Reg}
use v6emul.Cpu.Ops.{Op}
use v6emul.Cpu.Decode.{decode_op}
use v6emul.Cpu.Tables.{m_cycles}
use v6emul.Cpu.Step.{exec, request, end_cycle, execute_instruction, is_instruction_executed}
use v6emul.Cpu.Valid.{IsMachine}
use v6emul.Isa.{hide, isa}
use v6emul.Isa.Drive.{op_cycles, mov_m_l, m_cycles-op_cycles, drive}
use mathlib.Core.Option
use v6emul.Isa.Begin.{
  IsReady, takes_interrupt, past_opcode, interrupted, opcode, fetched, begin_fetch, begin_interrupt,
  execute-start, fetched-IsMachine, drive-isa, decode_op-is_encoded,
}
use v6emul.Cpu.Moves

module _ {W : Type 0} (bus : Bus W) where
  -- From a machine of valid widths that can start an instruction, with no interrupt to accept, the
  -- loop of machine cycles returns, and what a program can observe afterwards is the one-step
  -- effect that the instruction set gives the decoded opcode. Six interrupt lines or more are
  -- given, of any value; the opcode is neither MOV M,L nor HLT.
  pub execute_instruction-isa :
      (op : Op) (m : Machine W) (irq j k l x y : Bool) (irqs : List Bool)
      → IsReady m
      → takes_interrupt irq m ≡ false
      → decode_op (opcode m) ≡ some op
      → opcode m ≢ mov_m_l
      → op ≢ Op.hlt
      → Option.map hide (execute_instruction bus (irq ∷ j ∷ k ∷ l ∷ x ∷ y ∷ irqs) m)
        ≡ some (isa bus op (past_opcode (hide m)))
  unfolding request cpu_read_instr get_byte
  execute_instruction-isa op m irq j k l x y irqs ready quiet e ne halt =
      ap (Option.map hide) (
        execute-start bus irq (j ∷ k ∷ l ∷ x ∷ y ∷ irqs) m (fetched irq m) op (op_cycles op)
          ready.first_cycle (begin_fetch irq m quiet) e
          (m_cycles-op_cycles (opcode m) op small ne e))
      ∙ drive-isa bus op (fetched irq m) j k l x y irqs (fetched-IsMachine irq m ready.valid)
          (decode_op-is_encoded (opcode m) op small e) halt ready.first_cycle ready.running
    where
      small : opcode m < 256
      small = get_byte-lt m.mem m.cpu.pc ram ready.valid.mem_valid

  -- the machine when RST 7 is forced
  abbrev forced : Machine W → Machine W
  forced m = record m {
    cpu = record (m.cpu) { inte = false; iff = false; hlta = false; ir = 0xff };
    mem = cpu_invokes_rst7 m.mem;
  }

  forced-IsMachine : (m : Machine W) → IsMachine m → IsMachine (forced m)
  unfolding cpu_invokes_rst7
  forced-IsMachine m v = record {
    cpu_valid =
        let c = v.cpu_valid in
        record {
          a_in = c.a_in;
          b_in = c.b_in;
          c_in = c.c_in;
          d_in = c.d_in;
          e_in = c.e_in;
          h_in = c.h_in;
          l_in = c.l_in;
          tmp_in = c.tmp_in;
          act_in = c.act_in;
          w_in = c.w_in;
          z_in = c.z_in;
          pc_in = c.pc_in;
          sp_in = c.sp_in;
          ir_in = omega arith;
          f1_set = c.f1_set;
          f3_clear = c.f3_clear;
          f5_clear = c.f5_clear;
        };
    mem_valid =
        let n = v.mem_valid in
        record {
          cells_bytes = n.cells_bytes;
          rom_bytes = n.rom_bytes;
          disk_in = n.disk_in;
          eight = n.eight;
        };
  }

  -- From a valid machine at machine cycle 0 with an interrupt requested and enabled, and no EI
  -- pending, the loop returns after RST 7 instead of the next instruction: PC is pushed and becomes
  -- 0x38, INTE is off, and a halt is over.
  pub execute_instruction-interrupt :
      (m : Machine W) (irq j k l x y : Bool) (irqs : List Bool)
      → IsMachine m
      → m.cpu.mc ≡ 0
      → takes_interrupt irq m ≡ true
      → Option.map hide (execute_instruction bus (irq ∷ j ∷ k ∷ l ∷ x ∷ y ∷ irqs) m)
        ≡ some (isa bus (Op.rst 7) (interrupted (hide m)))
  unfolding cpu_invokes_rst7 decode_op m_cycles op_cycles
  execute_instruction-interrupt m irq j k l x y irqs v z taken =
      ap (Option.map hide) (
        execute-start bus irq (j ∷ k ∷ l ∷ x ∷ y ∷ irqs) m (forced m) (Op.rst 7) 4 z
          (begin_interrupt irq m taken) refl refl)
      ∙ drive-isa bus (Op.rst 7) (forced m) j k l x y irqs (forced-IsMachine m v) refl rst-hlt z
          refl
    where
      rst-hlt : Op.rst 7 ≢ Op.hlt
      rst-hlt h = cc

  -- MOV M,L ends after its first machine cycle, which only fills TMP.
  abbrev mov : Op
  mov = Op.mov_mem_reg Reg.reg_l

  mov_start :
      (n : Machine W) (irqs : List Bool)
      → Option.map hide
          (drive bus 1 mov (false ∷ irqs) (record n { cpu = record (n.cpu) { mc = 0 } }))
        ≡ some (hide (record n { cpu = record (n.cpu) { mc = 0 } }))
  unfolding drive exec request end_cycle is_instruction_executed Moves.mov_mem_reg
  mov_start n irqs = refl

  mov-drive :
      (n : Machine W) (irqs : List Bool)
      → n.cpu.mc ≡ 0
      → Option.map hide (drive bus 1 mov (false ∷ irqs) n) ≡ some (hide n)
  mov-drive n irqs z =
      ap (λ n'. Option.map hide (drive bus 1 mov (false ∷ irqs) n')) same
      ∙ mov_start n irqs
      ∙ ap (λ n'. some (hide n')) (sym same)
    where
      same : n ≡ record n { cpu = record (n.cpu) { mc = 0 } }
      same = λ i. record n { cpu = record (n.cpu) { mc = z i } }

  -- MOV M,L, from machine cycle 0 with no interrupt to accept, ends after one cycle and changes
  -- nothing that a program can observe but PC and a pending EI: it does not store L.
  pub execute_instruction-mov_m_l :
      (m : Machine W) (irq : Bool) (irqs : List Bool)
      → m.cpu.mc ≡ 0
      → takes_interrupt irq m ≡ false
      → opcode m ≡ mov_m_l
      → Option.map hide (execute_instruction bus (irq ∷ irqs) m) ≡ some (past_opcode (hide m))
  unfolding request cpu_read_instr get_byte decode_op m_cycles
  execute_instruction-mov_m_l m irq irqs z quiet e =
      ap (Option.map hide) (
        execute-start bus irq irqs m (fetched irq m) mov 1 z (begin_fetch irq m quiet)
          (ap decode_op e) (ap m_cycles e))
      ∙ mov-drive (fetched irq m) irqs z
