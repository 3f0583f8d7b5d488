-- ===== src/Tests.antt =====
-- Concrete runs of the theorems: a machine whose memory holds one byte everywhere, and memories with
-- a ROM or a RAM disk.
pub mod Disk
pub mod Breaks
pub mod Keys
pub mod Devices
pub mod Traces
pub mod Listing
pub mod Playback
pub mod Machines
pub mod Watches
use v6emul.Base.{ℕ, ◌%◌, ◌<◌, ◌≡◌, refl, arith, true, false, some, [], ◌∷◌, set, ltb}
use v6emul.Memory.{
  Memory, stack, ram_type, get_byte, get_global_addr, cpu_write, is_rom_enabled, set_ram_disk_mode,
  is_exception, byte_at,
}
use v6emul.Memory.Bounds.{IsValid}
use v6emul.Memory.Bounds
use v6emul.Memory.Access
use v6emul.Memory.RamDisk
use v6emul.Memory.RamDisk.{first_mapping, first_index, count_enabled}
use v6emul.Cpu.State.{Cpu, Machine, Bus}
use v6emul.Cpu.Ops.{Op}
use v6emul.Cpu.Alu
use v6emul.Cpu.Decode.{decode_op}
use v6emul.Cpu.Tables.{m_cycles, get_instr_cc, get_instr_len}
use v6emul.Cpu.Step.{execute_instruction}
use v6emul.Cpu.Valid.{IsCpu, IsMachine}
use v6emul.Cpu.Reset
use v6emul.Isa.{hide, isa, no_debug}
use v6emul.Isa.Flags
use v6emul.Isa.Arith
use v6emul.Isa.Begin.{IsReady, past_opcode, interrupted}
use v6emul.Isa.Drive
use v6emul.Isa.Run
use v6emul.Isa.Halt
use v6emul.Isa.Timing
use v6emul.Isa.Timing.{time}
use v6emul.Isa.Lengths
use v6emul.Watchpoint.{Access}
use v6emul.Watchpoint.Laws
use mathlib.Core.Option

-- registers of a running program, the interrupts enabled
abbrev pub registers : Cpu
registers = record {
  cc = 400;
  pc = 0x1234;
  sp = 0xc000;
  a = 0x5c;
  fc = true;
  f1 = true;
  fp = false;
  f3 = false;
  fac = false;
  f5 = false;
  fz = false;
  fs = true;
  b = 1;
  c = 2;
  d = 3;
  e = 4;
  h = 0x80;
  l = 5;
  ir = 0;
  tmp = 0;
  act = 0;
  w = 0;
  z = 0;
  mc = 0;
  inte = true;
  iff = false;
  hlta = false;
  ei_pending = false;
}

pub registers-IsCpu : IsCpu registers
registers-IsCpu = record {
  a_in = omega arith;
  b_in = omega arith;
  c_in = omega arith;
  d_in = omega arith;
  e_in = omega arith;
  h_in = omega arith;
  l_in = omega arith;
  tmp_in = omega arith;
  act_in = omega arith;
  w_in = omega arith;
  z_in = omega arith;
  pc_in = omega arith;
  sp_in = omega arith;
  ir_in = omega arith;
  f1_set = refl;
  f3_clear = refl;
  f5_clear = refl;
}

-- every cell holds `v`; the stack is in the third page of RAM disk 2
abbrev pub memory : ℕ → Memory
memory v = record {
  cells = λ i. v;
  rom = [];
  mappings = 0 ∷ 0 ∷ 0x18 ∷ 0 ∷ 0 ∷ 0 ∷ 0 ∷ 0 ∷ [];
  mapping = 0x18;
  ramdisk_idx = 2;
  mem_type = ram_type;
  mappings_enabled = 0;
  clear_after_restart = false;
  debug = no_debug;
}

pub memory-IsValid : (v : ℕ) → v < 256 → IsValid (memory v)
memory-IsValid v h = record {
  cells_bytes = λ i. h;
  rom_bytes = omega arith;
  disk_in = omega arith;
  eight = refl;
}

abbrev pub machine : ℕ → Machine ℕ
machine v = record { cpu = registers; mem = memory v; io = 0 }

machine-IsMachine : (v : ℕ) → v < 256 → IsMachine (machine v)
machine-IsMachine v h = record { cpu_valid = registers-IsCpu; mem_valid = memory-IsValid v h }

pub machine-IsReady : (v : ℕ) → v < 256 → IsReady (machine v)
machine-IsReady v h = record { valid = machine-IsMachine v h; first_cycle = refl; running = refl }

abbrev pub bus : Bus ℕ
bus = record { input = λ port io. (port, io); output = λ port v io. v }

-- ADI 0xC6, with the interrupt line high at the third cycle
execute_instruction-isa_example :
    Option.map hide
      (execute_instruction bus (false ∷ false ∷ true ∷ false ∷ false ∷ false ∷ []) (machine 0xc6))
    ≡ some (isa bus (Op.adi false) (past_opcode (hide (machine 0xc6))))
unfolding decode_op get_byte byte_at
execute_instruction-isa_example =
    Run.execute_instruction-isa bus (Op.adi false) (machine 0xc6) false false true false false false
      [] (machine-IsReady 0xc6 (omega arith)) refl refl (λ e. omega (arith, e)) (λ e. cc)

-- an interrupt instead of the next opcode
execute_instruction-interrupt_example :
    Option.map hide
      (execute_instruction bus (true ∷ false ∷ false ∷ false ∷ false ∷ false ∷ []) (machine 0))
    ≡ some (isa bus (Op.rst 7) (interrupted (hide (machine 0))))
execute_instruction-interrupt_example =
    Run.execute_instruction-interrupt bus (machine 0) true false false false false false []
      (machine-IsMachine 0 (omega arith)) refl refl

-- HLT, with an interrupt in its second cycle
execute_instruction-halt_example :
    Option.map hide (execute_instruction bus (false ∷ true ∷ []) (machine 0x76))
    ≡ some (past_opcode (hide (machine 0x76)))
unfolding get_byte byte_at
execute_instruction-halt_example =
    Halt.execute_instruction-halt bus (machine 0x76) false true []
      (machine-IsReady 0x76 (omega arith)) refl refl

-- a halted machine
abbrev sleeping : Machine ℕ
sleeping = record (machine 0x76) { cpu = record registers { ir = 0x76; mc = 1; hlta = true } }

execute_instruction-wait_example :
    Option.map hide (execute_instruction bus (false ∷ []) sleeping) ≡ some (hide sleeping)
execute_instruction-wait_example = Halt.execute_instruction-wait bus sleeping false [] (record {
  halt_code = refl;
  second_cycle = refl;
  stopped = refl;
  no_request = refl;
  pc_in = omega arith;
})

-- LHLD takes five cycles
execute_instruction-time_example :
    Option.map time
      (execute_instruction bus (false ∷ false ∷ false ∷ false ∷ false ∷ false ∷ []) (machine 0x2a))
    ≡ some (420, 0)
unfolding decode_op get_byte byte_at get_instr_cc m_cycles
execute_instruction-time_example =
    Timing.execute_instruction-time bus Op.lhld (machine 0x2a) false
      (false ∷ false ∷ false ∷ false ∷ false ∷ []) (machine-IsReady 0x2a (omega arith)) refl refl
      refl (omega arith)

-- LXI B has three bytes
execute_instruction-length_example :
    Option.map
      (λ m. m.cpu.pc)
      (execute_instruction bus (false ∷ false ∷ false ∷ false ∷ false ∷ false ∷ []) (machine 1))
    ≡ some 0x1237
unfolding decode_op get_byte byte_at get_instr_len
execute_instruction-length_example =
    Lengths.execute_instruction-length bus (Op.lxi _) (machine 1) false false false false false
      false [] (machine-IsReady 1 (omega arith)) refl refl (λ e. omega (arith, e)) refl

execute_instruction-mov_m_l_example :
    Option.map hide (execute_instruction bus (false ∷ []) (machine 0x75))
    ≡ some (past_opcode (hide (machine 0x75)))
unfolding get_byte byte_at
execute_instruction-mov_m_l_example =
    Run.execute_instruction-mov_m_l bus (machine 0x75) false [] refl refl refl

-- a store to the stack page of a RAM disk, read back
get_byte-cpu_write_example : get_byte (cpu_write 0xbffe 0x42 stack 0 (memory 7)) 0xbffe stack ≡ 0x42
unfolding is_rom_enabled
get_byte-cpu_write_example =
    Access.get_byte-cpu_write (memory 7) 0xbffe 0xbffe 0x42 stack 0 (omega arith) (omega arith)
      (omega arith)

-- the address above in the RAM disk's page
get_global_addr_bounds_example :
    (get_global_addr (memory 7) 0xbffe stack < 2162688)
    × (get_global_addr (memory 7) 0xbffe stack % 65536 ≡ 0xbffe)
get_global_addr_bounds_example =
    Bounds.get_global_addr_bounds (memory 7) 0xbffe stack (omega arith) (omega arith)

set_ram_disk_mode_example :
    let ds = set (memory 7).mappings 5 0x20 in
    let m' = set_ram_disk_mode 5 0x20 (memory 7) in
    (m'.mapping ≡ first_mapping ds 0)
    × (m'.ramdisk_idx ≡ first_index ds 0 2)
    × ((is_exception m').0 ≡ ltb 1 (count_enabled ds))
set_ram_disk_mode_example = RamDisk.set_ram_disk_mode_lem 5 0x20 (memory 7)

-- a start, then a RAM disk is mapped and a byte pushed on its stack
