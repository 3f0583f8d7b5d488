-- ===== src/Cpu/Access.antt =====
-- How the instructions of libs/v6core/src/cpu_i8080.cpp reach the registers and the memory:
-- `ReadInstrMovePC`, `ReadByte`, `WriteByte`, and the steps that are made of them.
use v6emul.Base.{ℕ, ◌+◌, u16}
use v6emul.Memory.{AddrSpace, ram, cpu_read, cpu_read_instr, cpu_write}
use v6emul.Cpu.State.{Cpu, Machine}

abbrev pub set_z : ℕ → Cpu → Cpu
set_z v s = record s { z = v }

abbrev pub set_w : ℕ → Cpu → Cpu
set_w v s = record s { w = v }

abbrev pub set_tmp : ℕ → Cpu → Cpu
set_tmp v s = record s { tmp = v }

-- `n - 1` and `n + 1` on 16 bits
abbrev pub dec16 : ℕ → ℕ
dec16 n = u16 (n + 65535)

abbrev pub inc16 : ℕ → ℕ
inc16 n = u16 (n + 1)

module _ {W : Type 0} where
  -- a change of the registers alone
  abbrev pub on_cpu : (Cpu → Cpu) → Machine W → Machine W
  on_cpu f m = record m { cpu = f m.cpu }

  -- `ReadInstrMovePC`, `ReadByte` and `WriteByte`
  abbrev pub read_instr_move_pc : ℕ → Machine W → ℕ × Machine W
  read_instr_move_pc byte_num m =
      let (v, mem) = cpu_read_instr m.cpu.pc ram byte_num m.mem in
      (v, record m { cpu = record (m.cpu) { pc = u16 (m.cpu.pc + 1) }; mem = mem })

  abbrev pub read_byte : ℕ → AddrSpace → ℕ → Machine W → ℕ × Machine W
  read_byte addr space byte_num m =
      let (v, mem) = cpu_read addr space byte_num m.mem in (v, record m { mem = mem })

  abbrev pub write_byte : ℕ → ℕ → AddrSpace → ℕ → Machine W → Machine W
  write_byte addr v space byte_num m = record m { mem = cpu_write addr v space byte_num m.mem }

  -- A byte that is fetched or read, given to a change of the registers.
  abbrev pub fetch_into : ℕ → (ℕ → Cpu → Cpu) → Machine W → Machine W
  fetch_into byte_num f m = let (v, m') = read_instr_move_pc byte_num m in on_cpu (f v) m'

  abbrev pub read_into : ℕ → AddrSpace → ℕ → (ℕ → Cpu → Cpu) → Machine W → Machine W
  read_into addr space byte_num f m =
      let (v, m') = read_byte addr space byte_num m in on_cpu (f v) m'

  abbrev pub move_sp : (ℕ → ℕ) → Machine W → Machine W
  move_sp f = on_cpu (λ s. record s { sp = f s.sp })
