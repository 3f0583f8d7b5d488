-- ===== src/Cpu/Control.antt =====
-- The branch, port and halt helpers of libs/v6core/src/cpu_i8080.cpp, one machine cycle each; the
-- first number is MC. `MC` is assigned where the source cuts an instruction short.
use v6emul.Base.{ℕ, zero, suc, ◌*◌, ◌/◌, ◌%◌, true, u8, if◌then◌else◌}
use v6emul.Memory.{stack}
use v6emul.Cpu.State.{Cpu, Machine, Bus, Cond, cond_holds, pair_hl, get_word, get_wz}
use v6emul.Cpu.Access.{on_cpu, read_instr_move_pc, write_byte, fetch_into, read_into}
use v6emul.Cpu.Access.{set_z, set_w, dec16, inc16, move_sp}

abbrev pub set_mc : ℕ → Cpu → Cpu
set_mc v s = record s { mc = v }

-- `PC = WZ`
abbrev pub jump_wz : Cpu → Cpu
jump_wz s = record s { pc = get_wz s }

module _ {W : Type 0} where
  unfoldable pub jmp : Cond → ℕ → Machine W → Machine W
  jmp cond zero m = m
  jmp cond (suc zero) m = fetch_into 1 set_z m
  jmp cond (suc (suc zero)) m =
      let m' = fetch_into 2 set_w m in if cond_holds cond m.cpu then on_cpu jump_wz m' else m'
  jmp cond _ m = m

  unfoldable pub pchl : ℕ → Machine W → Machine W
  pchl zero m = m
  pchl (suc zero) m = on_cpu (λ s. record s { pc = get_word pair_hl s }) m
  pchl _ m = m

  unfoldable pub call : Cond → ℕ → Machine W → Machine W
  call cond zero m = if cond_holds cond m.cpu then move_sp dec16 m else m
  call cond (suc zero) m = fetch_into 1 set_z m
  call cond (suc (suc zero)) m = fetch_into 2 set_w m
  call cond (suc (suc (suc zero))) m =
      if cond_holds cond m.cpu
      then move_sp dec16 (write_byte m.cpu.sp (m.cpu.pc / 256) stack 0 m)
      else on_cpu (set_mc 5) m
  call cond (suc (suc (suc (suc zero)))) m = write_byte m.cpu.sp (m.cpu.pc % 256) stack 1 m
  call cond (suc (suc (suc (suc (suc zero))))) m = on_cpu jump_wz m
  call cond _ m = m

  unfoldable pub rst : ℕ → ℕ → Machine W → Machine W
  rst arg zero m = move_sp dec16 m
  rst arg (suc zero) m = move_sp dec16 (write_byte m.cpu.sp (m.cpu.pc / 256) stack 0 m)
  rst arg (suc (suc zero)) m =
      write_byte m.cpu.sp (m.cpu.pc % 256) stack 1
        (on_cpu (λ s. record s { w = 0; z = u8 (arg * 8) }) m)
  rst arg (suc (suc (suc zero))) m = on_cpu jump_wz m
  rst arg _ m = m

  unfoldable pub ret : ℕ → Machine W → Machine W
  ret zero m = m
  ret (suc zero) m = move_sp inc16 (read_into m.cpu.sp stack 0 set_z m)
  ret (suc (suc zero)) m = on_cpu jump_wz (move_sp inc16 (read_into m.cpu.sp stack 1 set_w m))
  ret _ m = m

  unfoldable pub ret_cond : Cond → ℕ → Machine W → Machine W
  ret_cond cond zero m = m
  ret_cond cond (suc zero) m = if cond_holds cond m.cpu then m else on_cpu (set_mc 3) m
  ret_cond cond (suc (suc zero)) m = move_sp inc16 (read_into m.cpu.sp stack 0 set_z m)
  ret_cond cond (suc (suc (suc zero))) m =
      on_cpu jump_wz (move_sp inc16 (read_into m.cpu.sp stack 1 set_w m))
  ret_cond cond _ m = m

  unfoldable pub in_ : Bus W → ℕ → Machine W → Machine W
  in_ bus zero m = m
  in_ bus (suc zero) m = fetch_into 1 (λ v s. record s { w = 0; z = v }) m
  in_ bus (suc (suc zero)) m =
      let (v, io) = bus.input m.cpu.z m.io in record m { cpu = record (m.cpu) { a = v }; io = io }
  in_ bus _ m = m

  unfoldable pub out_ : Bus W → ℕ → Machine W → Machine W
  out_ bus zero m = m
  out_ bus (suc zero) m =
      let m' = fetch_into 1 (λ v s. record s { w = 0; z = v }) m in
      record m' { io = bus.output m'.cpu.z m'.cpu.a m'.io }
  out_ bus _ m = m

  -- The second cycle fetches the opcode again; without an interrupt request it holds MC and PC.
  unfoldable pub hlt : ℕ → Machine W → Machine W
  hlt zero m = on_cpu (λ s. record s { pc = dec16 s.pc }) m
  hlt (suc zero) m =
      let (v, m') = read_instr_move_pc 0 m in
      if m.cpu.iff then m' else on_cpu (λ s. record s { hlta = true; mc = 0; pc = dec16 s.pc }) m'
  hlt _ m = m
