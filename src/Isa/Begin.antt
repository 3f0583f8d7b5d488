-- ===== src/Isa/Begin.antt =====
-- `Hardware::ExecuteInstruction` (libs/v6core/src/hardware.cpp) from the first machine cycle: the
-- fetch of an opcode or the acceptance of an interrupt, then the instruction.
use v6emul.Base.{
  ℕ, ◌<◌, ◌≡◌, ◌≢◌, refl, sym, ◌∙◌, ap, arith, Bool, true, false, not, ◌&&◌, ◌||◌, ◌==◌, some, none,
  List, ◌∷◌, Bool-cases, inl, inr, all_below, all_below_sound,
}
use v6emul.Memory.{ram, cpu_read_instr, cpu_invokes_rst7}
use v6emul.Memory.Bounds.{cpu_read_instr-IsValid, IsValid}
use v6emul.Cpu.State.{Machine, Bus}
use v6emul.Cpu.Access.{on_cpu, inc16}
use v6emul.Cpu.Ops.{Op}
use v6emul.Cpu.Decode.{decode_op}
use v6emul.Cpu.Tables.{m_cycles}
use v6emul.Cpu.Step.{
  exec, request, begin_instruction, end_cycle, decode, execute_machine_cycle, execute_instruction,
  is_instruction_executed,
}
use v6emul.Cpu.Valid.{IsMachine}
use v6emul.Isa.{hide, isa, load, change}
use v6emul.Isa.Drive.{
  op_cycles, tick, drive, drive-round, decode-exec, execute-round, execute-drive, tick-ir,
  unfinished,
}
use v6emul.Isa.Refine.{refines}
use v6emul.Isa.Refine.Start.{is_encoded, at_start}
use mathlib.Core.Option

encoded_at : ℕ → Bool
encoded_at v = elim (decode_op v) [ none ↦ true | some op ↦ is_encoded op ]

encoded_table : all_below 256 encoded_at ≡ true
unfolding all_below encoded_at decode_op
encoded_table = refl

-- The cases of the switch pass each helper only pairs that it is meant for.
pub decode_op-is_encoded :
    (v : ℕ) (op : Op) → v < 256 → decode_op v ≡ some op → is_encoded op ≡ true
unfolding encoded_at
decode_op-is_encoded v op h e = ground (arith, all_below_sound 256 encoded_at v encoded_table h)

module _ {W : Type 0} where
  -- `IFF && !EI_PENDING` when an instruction starts, with `IFF |= irq & INTE` taken in.
  abbrev pub takes_interrupt : Bool → Machine W → Bool
  takes_interrupt irq m = (m.cpu.iff || irq && m.cpu.inte) && not m.cpu.ei_pending

  -- what the manual's instruction starts from: PC past the opcode, no EI pending
  abbrev pub past_opcode : Machine W → Machine W
  past_opcode = change (λ s. record s { pc = inc16 s.pc; ei_pending = false })

  -- the machine of an accepted interrupt
  abbrev pub interrupted : Machine W → Machine W
  interrupted = change (λ s. record s { inte = false; hlta = false })

  abbrev pub opcode : Machine W → ℕ
  opcode m = load m.cpu.pc ram m

  -- An instruction can start: no machine cycle of another one is left and the CPU is not halted.
  pub record IsReady (m : Machine W) : Type 0 where
    pub valid : IsMachine m
    pub first_cycle : m.cpu.mc ≡ 0
    pub running : m.cpu.hlta ≡ false

  pub request_again : (m : Machine W) → request false m ≡ m
  unfolding request
  request_again m = elim (Bool-cases m.cpu.iff) [
    | inl t ↦ λ i. record m { cpu = record (m.cpu) { iff = same i } }
    | inr f ↦ λ i. record m { cpu = record (m.cpu) { iff = same i } }
  ]
    where
      same : (m.cpu.iff || false && m.cpu.inte) ≡ m.cpu.iff
      same = ground arith

  -- the first cycle's machine, with the opcode in IR
  abbrev pub fetched : Bool → Machine W → Machine W
  fetched irq m =
      let m' = request irq m in
      let (v, mem) = cpu_read_instr m.cpu.pc ram 0 m.mem in
      record m {
        cpu = record (m'.cpu) { ei_pending = false; pc = inc16 m.cpu.pc; ir = v };
        mem = mem;
      }

  pub begin_fetch :
      (irq : Bool) (m : Machine W)
      → takes_interrupt irq m ≡ false
      → begin_instruction (request irq m) ≡ fetched irq m
  unfolding begin_instruction request
  begin_fetch irq m h = rw (h, begin_instruction) refl

  pub begin_interrupt :
      (irq : Bool) (m : Machine W)
      → takes_interrupt irq m ≡ true
      → begin_instruction (request irq m) ≡ record m {
        cpu = record (m.cpu) { inte = false; iff = false; hlta = false; ir = 0xff };
        mem = cpu_invokes_rst7 m.mem;
      }
  unfolding begin_instruction request
  begin_interrupt irq m h = rw (h, begin_instruction) refl

  pub fetched-IsMachine : (irq : Bool) (m : Machine W) → IsMachine m → IsMachine (fetched irq m)
  unfolding request
  fetched-IsMachine irq m v = record {
    cpu_valid =
        let c = v.cpu_valid in
        record {
          a_in = c.a_in;
          b_in = c.b_in;
          c_in = c.c_in;
          d_in = c.d_in;
          e_in = c.e_in;
          h_in = c.h_in;
          l_in = c.l_in;
          tmp_in = c.tmp_in;
          act_in = c.act_in;
          w_in = c.w_in;
          z_in = c.z_in;
          pc_in = omega arith;
          sp_in = c.sp_in;
          ir_in = read.1;
          f1_set = c.f1_set;
          f3_clear = c.f3_clear;
          f5_clear = c.f5_clear;
        };
    mem_valid = read.0;
  }
    where
      read : IsValid (fetched irq m).mem × ((fetched irq m).cpu.ir < 256)
      read = cpu_read_instr-IsValid m.cpu.pc ram 0 v.mem_valid

  module _ (bus : Bus W) where
    -- The first round of the loop is a round from the machine that `begin_instruction` leaves.
    pub execute-start :
        (irq : Bool) (irqs : List Bool) (m n : Machine W) (op : Op) (cycles : ℕ)
        → m.cpu.mc ≡ 0
        → begin_instruction (request irq m) ≡ n
        → decode_op n.cpu.ir ≡ some op
        → m_cycles n.cpu.ir ≡ cycles
        → execute_instruction bus (irq ∷ irqs) m ≡ drive bus cycles op (false ∷ irqs) n
    execute-start irq irqs m n op cycles z b e k =
        execute-round bus irq irqs m m' (first ∙ decode-exec bus op n e ∙ ap some same)
        ∙ elim (Bool-cases (is_instruction_executed m')) [
          | inl t ↦ rw t refl
          | inr f ↦ rw f (
              execute-drive bus op cycles irqs m' (unfinished bus m' f) (ap decode_op ir ∙ e)
                (ap m_cycles ir ∙ k))
        ]
        ∙ sym (drive-round bus cycles op false irqs n m' refl)
      where
        m' : Machine W
        m' = tick bus cycles op false n

        ir : m'.cpu.ir ≡ n.cpu.ir
        ir = tick-ir bus cycles op false n

        first : execute_machine_cycle bus irq m ≡ decode bus n
        first =
            unfold execute_machine_cycle in
            let t : ((request irq m).cpu.mc == 0) ≡ true = rw z refl in rw (t, b) refl

        same :
            on_cpu (end_cycle (m_cycles n.cpu.ir)) (exec bus op n.cpu.mc n)
            ≡ tick bus cycles op false n
        same = unfold tick in rw (k, request_again n) refl

    -- an instruction from the machine in its first cycle
    pub drive-isa :
        (op : Op) (n : Machine W) (j k l x y : Bool) (irqs : List Bool)
        → IsMachine n
        → is_encoded op ≡ true
        → op ≢ Op.hlt
        → n.cpu.mc ≡ 0
        → n.cpu.hlta ≡ false
        → Option.map hide (drive bus (op_cycles op) op (false ∷ j ∷ k ∷ l ∷ x ∷ y ∷ irqs) n)
          ≡ some (isa bus op (hide n))
    drive-isa op n j k l x y irqs v enc ne z r =
        ap
          (λ n'.
            Option.map hide (drive bus (op_cycles op) op (false ∷ j ∷ k ∷ l ∷ x ∷ y ∷ irqs) n'))
          start
        ∙ refines bus n v false j k l x y irqs op enc ne
        ∙ ap (λ n'. some (isa bus op (hide n'))) (sym start)
      where
        start : n ≡ at_start n
        start = λ i. record n { cpu = record (n.cpu) { mc = z i; hlta = r i } }
