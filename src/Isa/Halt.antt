-- ===== src/Isa/Halt.antt =====
-- HLT (libs/v6core/src/cpu_i8080.cpp) and what ends it.
use v6emul.Base.{
  ℕ, ◌+◌, ◌%◌, ◌<◌, ◌≡◌, ◌≢◌, refl, sym, ◌∙◌, ap, arith, Bool, true, false, ◌&&◌, ◌||◌, some, List,
  ◌∷◌, if◌then◌else◌,
}
use v6emul.Memory.{get_byte, cpu_read_instr}
use v6emul.Cpu.State.{Machine, Bus}
use v6emul.Cpu.Ops.{Op}
use v6emul.Cpu.Access.{inc16}
use v6emul.Cpu.Control
use v6emul.Cpu.Decode.{decode_op}
use v6emul.Cpu.Tables.{m_cycles}
use v6emul.Cpu.Step.{exec, request, end_cycle, execute_instruction, is_instruction_executed}
use v6emul.Isa.{hide, change}
use v6emul.Isa.Drive.{drive, execute-drive}
use v6emul.Isa.Begin.{
  IsReady, takes_interrupt, past_opcode, opcode, fetched, begin_fetch, execute-start,
}
use mathlib.Core.Option

-- 0x76, the opcode of HLT
abbrev pub hlt_code : ℕ
hlt_code = 0x76

module _ {W : Type 0} (bus : Bus W) where
  -- an interrupt that is requested in the first or the second cycle
  abbrev pub pending : Bool → Bool → Machine W → Bool
  pending irq irq' m = (m.cpu.iff || irq && m.cpu.inte) || irq' && m.cpu.inte

  -- the halted CPU: PC stays at the HLT, in the second machine cycle
  abbrev pub halted : Machine W → Machine W
  halted = change (λ s. record s { mc = 1; hlta = true; ei_pending = false })

  back : (n : ℕ) → n < 65536 → ((n + 1) % 65536 + 65535) % 65536 ≡ n
  back n h = omega arith

  -- HLT from its first cycle, in a machine whose flags for interrupts are given
  abbrev started : Machine W → ℕ → Bool → Bool → Machine W
  started n p iff inte = record n {
    cpu = record (n.cpu) { mc = 0; hlta = false; pc = inc16 p; iff = iff; inte = inte };
  }

  hlt_at :
      (n : Machine W) (p : ℕ) (irq : Bool) (irqs : List Bool) (iff inte : Bool)
      → p < 65536
      → Option.map hide (drive bus 2 Op.hlt (false ∷ irq ∷ irqs) (started n p iff inte))
        ≡ some (
            if iff || irq && inte
            then hide (started n p iff inte)
            else change
                (λ s. record s { pc = p; mc = 1; hlta = true })
                (hide (started n p iff inte)))
  unfolding drive exec request end_cycle is_instruction_executed Control.hlt cpu_read_instr
  hlt_at n p irq irqs true true h = simp (back p h)
  hlt_at n p irq irqs true false h = simp (back p h)
  hlt_at n p true irqs false true h = simp (back p h)
  hlt_at n p false irqs false true h = simp (back p h)
  hlt_at n p true irqs false false h = simp (back p h)
  hlt_at n p false irqs false false h = simp (back p h)

  hlt-drive :
      (n : Machine W) (p : ℕ) (irq : Bool) (irqs : List Bool)
      → p < 65536
      → n.cpu.pc ≡ inc16 p
      → n.cpu.mc ≡ 0
      → n.cpu.hlta ≡ false
      → Option.map hide (drive bus 2 Op.hlt (false ∷ irq ∷ irqs) n)
        ≡ some (
            if n.cpu.iff || irq && n.cpu.inte
            then hide n
            else change (λ s. record s { pc = p; mc = 1; hlta = true }) (hide n))
  hlt-drive n p irq irqs h e z r =
      ap (λ n'. Option.map hide (drive bus 2 Op.hlt (false ∷ irq ∷ irqs) n')) same
      ∙ hlt_at n p irq irqs n.cpu.iff n.cpu.inte h
      ∙ ap
          (λ n'. some (
            if n.cpu.iff || irq && n.cpu.inte
            then hide n'
            else change (λ s. record s { pc = p; mc = 1; hlta = true }) (hide n')))
          (sym same)
    where
      same : n ≡ started n p n.cpu.iff n.cpu.inte
      same = λ i. record n { cpu = record (n.cpu) { mc = z i; hlta = r i; pc = e i } }

  -- From a machine that can start an instruction, with no interrupt to accept and HLT at PC, the
  -- loop returns after two cycles: with an interrupt requested by the second cycle the machine goes
  -- on behind the HLT, otherwise it is halted with PC at the HLT.
  pub execute_instruction-halt :
      (m : Machine W) (irq irq' : Bool) (irqs : List Bool)
      → IsReady m
      → takes_interrupt irq m ≡ false
      → opcode m ≡ hlt_code
      → Option.map hide (execute_instruction bus (irq ∷ irq' ∷ irqs) m)
        ≡ some (if pending irq irq' m then past_opcode (hide m) else halted (hide m))
  unfolding request cpu_read_instr get_byte decode_op m_cycles
  execute_instruction-halt m irq irq' irqs ready quiet e =
      ap (Option.map hide) (
        execute-start bus irq (irq' ∷ irqs) m (fetched irq m) Op.hlt 2 ready.first_cycle
          (begin_fetch irq m quiet) (ap decode_op e) (ap m_cycles e))
      ∙ hlt-drive (fetched irq m) m.cpu.pc irq' irqs ready.valid.cpu_valid.pc_in refl
          ready.first_cycle ready.running

  -- A machine that HLT has stopped.
  pub record IsHalted (m : Machine W) : Type 0 where
    pub halt_code : m.cpu.ir ≡ hlt_code
    pub second_cycle : m.cpu.mc ≡ 1
    pub stopped : m.cpu.hlta ≡ true
    pub no_request : m.cpu.iff ≡ false
    pub pc_in : m.cpu.pc < 65536

  waiting : Machine W → Bool → Machine W
  waiting n inte = record n {
    cpu = record (n.cpu) { ir = hlt_code; mc = 1; hlta = true; iff = false; inte = inte };
  }

  wait_at :
      (n : Machine W) (irq : Bool) (irqs : List Bool) (inte : Bool)
      → n.cpu.pc < 65536
      → Option.map hide (drive bus 2 Op.hlt (irq ∷ irqs) (waiting n inte))
        ≡ some (
            if irq && inte
            then change (λ s. record s { pc = inc16 s.pc; mc = 0 }) (hide (waiting n inte))
            else hide (waiting n inte))
  unfolding drive exec request end_cycle is_instruction_executed Control.hlt cpu_read_instr waiting
  wait_at n true irqs true h = refl
  wait_at n true irqs false h = simp (back n.cpu.pc h)
  wait_at n false irqs true h = simp (back n.cpu.pc h)
  wait_at n false irqs false h = simp (back n.cpu.pc h)

  -- A halted CPU changes nothing that a program can observe while no enabled interrupt is
  -- requested; with one, PC goes past the HLT and the CPU is back at machine cycle 0.
  pub execute_instruction-wait :
      (m : Machine W) (irq : Bool) (irqs : List Bool)
      → IsHalted m
      → Option.map hide (execute_instruction bus (irq ∷ irqs) m)
        ≡ some (
            if irq && m.cpu.inte
            then change (λ s. record s { pc = inc16 s.pc; mc = 0 }) (hide m)
            else hide m)
  unfolding decode_op m_cycles waiting
  execute_instruction-wait m irq irqs h =
      ap (Option.map hide) (
        execute-drive bus Op.hlt 2 (irq ∷ irqs) m begun (ap decode_op h.halt_code)
          (ap m_cycles h.halt_code))
      ∙ ap (λ n'. Option.map hide (drive bus 2 Op.hlt (irq ∷ irqs) n')) same
      ∙ wait_at m irq irqs m.cpu.inte h.pc_in
      ∙ ap
          (λ n'. some (
            if irq && m.cpu.inte
            then change (λ s. record s { pc = inc16 s.pc; mc = 0 }) (hide n')
            else hide n'))
          (sym same)
    where
      begun : m.cpu.mc ≢ 0
      begun z = absurd (omega (arith, h.second_cycle, z))

      same : m ≡ waiting m m.cpu.inte
      same = λ i. record m {
        cpu = record (m.cpu) {
          ir = h.halt_code i;
          mc = h.second_cycle i;
          hlta = h.stopped i;
          iff = h.no_request i;
        };
      }
