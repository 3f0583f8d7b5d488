-- ===== src/Isa/Timing.antt =====
-- The time of an instruction: `CC` of libs/v6core/src/cpu_i8080.cpp against `GetInstrCC`.
use v6emul.Base.{
  ℕ, zero, suc, ◌+◌, ◌*◌, ◌%◌, ◌<◌, ◌≤◌, ◌≡◌, ◌≢◌, ◌-◌, refl, ◌∙◌, ap, arith, Bool, true, false,
  ◌&&◌, leb, some, List, [], ◌∷◌, length, u64, all_below, all_below_sound,
}
use v6emul.Memory.{ram, get_byte, cpu_read_instr}
use v6emul.Memory.Bounds.{get_byte-lt}
use v6emul.Cpu.State.{Machine, Bus, Cond}
use v6emul.Cpu.Ops.{Op}
use v6emul.Cpu.Tables.{m_cycles, get_instr_cc}
use v6emul.Cpu.Decode.{decode_op}
use v6emul.Cpu.Step.{exec, request, end_cycle, execute_instruction, is_instruction_executed}
use v6emul.Cpu.Moves
use v6emul.Cpu.Arith
use v6emul.Cpu.Control
use v6emul.Cpu.Alu
use v6emul.Isa.Drive.{tick, drive, drive-last, drive-next}
use v6emul.Isa.Begin.{IsReady, takes_interrupt, opcode, fetched, begin_fetch, execute-start}
use mathlib.Core.Option
use native.Mathlib.Nat.{mod-eq_of_lt, mod_self}

-- The instructions that always take the cycles of the table: all but HLT and the conditional calls
-- and returns.
abbrev pub is_steady : Op → Bool
is_steady (Op.call (Cond.when f b)) = false
is_steady (Op.ret_cond (Cond.when f b)) = false
is_steady Op.hlt = false
is_steady op = true

few_cycles : all_below 256 (λ v. leb 1 (m_cycles v) && leb (m_cycles v) 6) ≡ true
unfolding all_below m_cycles
few_cycles = refl

m_cycles_bounds : (v : ℕ) → v < 256 → (1 ≤ m_cycles v) × (m_cycles v ≤ 6)
m_cycles_bounds v h = ground (arith, all_below_sound 256 _ v few_cycles h)

-- the clock and the machine cycle
abbrev pub time : {W : Type 0} → Machine W → ℕ × ℕ
time m = (m.cpu.cc, m.cpu.mc)

-- The count of a cycle goes back to 0 after the last, and goes on before.
pub wrap : (c : ℕ) → c ≤ 6 → c % 16 % c ≡ 0
wrap c h = ap (λ n. n % c) (mod-eq_of_lt (omega arith)) ∙ mod_self c

pub climb : (n c : ℕ) → n < c → c ≤ 6 → n % 16 % c ≡ n
climb n c lt h = ap (λ x. x % c) (mod-eq_of_lt (omega arith)) ∙ mod-eq_of_lt lt

module _ {W : Type 0} (bus : Bus W) where
  abbrev Untimed : Op → ℕ → Machine W → Type 0
  Untimed op mc m =
      ((exec bus op mc m).cpu.mc ≡ m.cpu.mc)
      × ((exec bus op mc m).cpu.cc ≡ m.cpu.cc)
      × ((exec bus op mc m).cpu.hlta ≡ m.cpu.hlta)

  exec-Untimed : (op : Op) (mc : ℕ) (m : Machine W) → is_steady op ≡ true → Untimed op mc m
  unfolding exec Alu.xchg Alu.add Alu.sub Alu.set_zsp Alu.inr_flags Alu.dcr_flags Alu.daa Alu.rlc
      Alu.rrc Alu.ral Alu.rar Alu.and_act_tmp Alu.xor_act_tmp Alu.or_act_tmp Alu.cmp_act_tmp
      Moves.mov_reg_reg Moves.load_reg_ptr Moves.mov_mem_reg Moves.mvi_reg_data Moves.mvi_mem_data
      Moves.lda Moves.sta Moves.stax Moves.lxi Moves.lhld Moves.shld Moves.sphl Moves.xthl
      Moves.push Moves.pop Moves.pop_psw Arith.dad_low Arith.dad_high Arith.add_mem Arith.adi
      Arith.sub_mem Arith.sbi Arith.ana_mem Arith.ani Arith.xra_mem Arith.xri Arith.ora_mem
      Arith.ori Arith.cmp_mem Arith.cpi Arith.dad Arith.inr Arith.inr_mem Arith.dcr Arith.dcr_mem
      Arith.inx Arith.dcx Control.jmp Control.pchl Control.call Control.rst Control.ret
      Control.ret_cond Control.in_ Control.out_
  exec-Untimed (Op.call Cond.always) mc m h = ground arith
  exec-Untimed (Op.ret_cond Cond.always) mc m h = ground arith
  exec-Untimed (Op.call (Cond.when f b)) mc m h = cc
  exec-Untimed (Op.ret_cond (Cond.when f b)) mc m h = cc
  exec-Untimed Op.hlt mc m h = cc
  exec-Untimed _ mc m h = ground arith

  -- No instruction sets the clock.
  pub exec-clock : (op : Op) (mc : ℕ) (m : Machine W) → (exec bus op mc m).cpu.cc ≡ m.cpu.cc
  unfolding exec Alu.xchg Alu.add Alu.sub Alu.set_zsp Alu.inr_flags Alu.dcr_flags Alu.daa Alu.rlc
      Alu.rrc Alu.ral Alu.rar Alu.and_act_tmp Alu.xor_act_tmp Alu.or_act_tmp Alu.cmp_act_tmp
      Moves.mov_reg_reg Moves.load_reg_ptr Moves.mov_mem_reg Moves.mvi_reg_data Moves.mvi_mem_data
      Moves.lda Moves.sta Moves.stax Moves.lxi Moves.lhld Moves.shld Moves.sphl Moves.xthl
      Moves.push Moves.pop Moves.pop_psw Arith.dad_low Arith.dad_high Arith.add_mem Arith.adi
      Arith.sub_mem Arith.sbi Arith.ana_mem Arith.ani Arith.xra_mem Arith.xri Arith.ora_mem
      Arith.ori Arith.cmp_mem Arith.cpi Arith.dad Arith.inr Arith.inr_mem Arith.dcr Arith.dcr_mem
      Arith.inx Arith.dcx Control.jmp Control.pchl Control.call Control.rst Control.ret
      Control.ret_cond Control.in_ Control.out_ Control.hlt
  exec-clock _ mc m = ground arith

  tick-timed :
      (cycles : ℕ) (op : Op) (irq : Bool) (m : Machine W)
      → is_steady op ≡ true
      → ((tick bus cycles op irq m).cpu.mc ≡ (m.cpu.mc + 1) % 16 % cycles)
        × ((tick bus cycles op irq m).cpu.cc ≡ u64 (m.cpu.cc + 4))
        × ((tick bus cycles op irq m).cpu.hlta ≡ m.cpu.hlta)
  unfolding tick request end_cycle
  tick-timed cycles op irq m h =
      let (a, b, c) = exec-Untimed op m.cpu.mc (request irq m) h in rw (a, b, c) (refl, refl, refl)

  -- The last `k` of the cycles take 4k clocks.
  drive-time :
      (cycles : ℕ) (op : Op) (k : ℕ) (irqs : List Bool) (m : Machine W)
      → is_steady op ≡ true
      → m.cpu.mc + suc k ≡ cycles
      → cycles ≤ 6
      → suc k ≤ length irqs
      → m.cpu.hlta ≡ false
      → Option.map time (drive bus cycles op irqs m) ≡ some (u64 (m.cpu.cc + 4 * suc k), 0)
  drive-time cycles op k [] m st e few len r = absurd (omega arith)
  drive-time cycles op zero (irq ∷ irqs) m st e few len r =
      ap (Option.map time) (drive-last bus cycles op irq irqs m m' refl done)
      ∙ ap some (λ i. (now.1 i, end i))
    where
      m' : Machine W
      m' = tick bus cycles op irq m

      now :
          (m'.cpu.mc ≡ (m.cpu.mc + 1) % 16 % cycles)
          × (m'.cpu.cc ≡ u64 (m.cpu.cc + 4))
          × (m'.cpu.hlta ≡ m.cpu.hlta)
      now = tick-timed cycles op irq m st

      end : m'.cpu.mc ≡ 0
      end = now.0 ∙ ap (λ n. n % 16 % cycles) e ∙ wrap cycles few

      done : is_instruction_executed m' ≡ true
      done = unfold is_instruction_executed in rw end refl
  drive-time cycles op (suc k) (irq ∷ irqs) m st e few len r =
      ap (Option.map time) (drive-next bus cycles op irq irqs m m' refl more)
      ∙ drive-time cycles op k irqs m' st (omega (arith, stays)) few (omega arith) (now.2 ∙ r)
      ∙ ap some (λ i. (later i, 0))
    where
      m' : Machine W
      m' = tick bus cycles op irq m

      now :
          (m'.cpu.mc ≡ (m.cpu.mc + 1) % 16 % cycles)
          × (m'.cpu.cc ≡ u64 (m.cpu.cc + 4))
          × (m'.cpu.hlta ≡ m.cpu.hlta)
      now = tick-timed cycles op irq m st

      stays : m'.cpu.mc ≡ m.cpu.mc + 1
      stays = now.0 ∙ climb (m.cpu.mc + 1) cycles (omega arith) few

      more : is_instruction_executed m' ≡ false
      more =
          unfold is_instruction_executed in
          rw (now.2, r) (let nonzero : m'.cpu.mc ≢ 0 = omega (arith, stays) in ground arith)

      later : u64 (m'.cpu.cc + 4 * suc k) ≡ u64 (m.cpu.cc + 4 * suc (suc k))
      later = ap (λ c. u64 (c + 4 * suc k)) now.1 ∙ omega arith

  -- For every instruction but HLT and the conditional calls and returns, from a machine that can
  -- start it with no interrupt to accept, the loop returns with the clock increased by what
  -- `GetInstrCC` says, on 64 bits, and with machine cycle 0.
  pub execute_instruction-time :
      (op : Op) (m : Machine W) (irq : Bool) (irqs : List Bool)
      → IsReady m
      → takes_interrupt irq m ≡ false
      → decode_op (opcode m) ≡ some op
      → is_steady op ≡ true
      → 5 ≤ length irqs
      → Option.map time (execute_instruction bus (irq ∷ irqs) m)
        ≡ some (u64 (m.cpu.cc + get_instr_cc (opcode m)), 0)
  unfolding request cpu_read_instr get_byte get_instr_cc
  execute_instruction-time op m irq irqs ready quiet e st len =
      ap (Option.map time) (
        execute-start bus irq irqs m (fetched irq m) op (m_cycles (opcode m)) ready.first_cycle
          (begin_fetch irq m quiet) e refl)
      ∙ drive-time (m_cycles (opcode m)) op k (false ∷ irqs) (fetched irq m) st
          (omega (arith, ready.first_cycle, few)) few.1 (omega (arith, few)) ready.running
      ∙ ap (λ n. some (u64 (m.cpu.cc + n), 0)) whole
    where
      few : (1 ≤ m_cycles (opcode m)) × (m_cycles (opcode m) ≤ 6)
      few = m_cycles_bounds (opcode m) (get_byte-lt m.mem m.cpu.pc ram ready.valid.mem_valid)

      k : ℕ
      k = m_cycles (opcode m) - 1

      whole : 4 * suc k ≡ m_cycles (opcode m) * 4
      whole = omega (arith, few)
