-- ===== src/Cpu/Moves.antt =====
-- The instruction helpers of libs/v6core/src/cpu_i8080.cpp that move data, and the stack. Each is
-- one machine cycle: the first number is MC, on which the source switches, and a cycle that has no
-- case changes nothing. A helper that takes a register by reference takes its name here.
use v6emul.Base.{ℕ, zero, suc, true, false}
use v6emul.Memory.{ram, stack}
use v6emul.Cpu.State.{Machine, Reg, Pair, pair_hl, get_reg, set_reg, get_word}
use v6emul.Cpu.State.{get_high, get_low, set_high, set_low, get_wz, set_wz}
use v6emul.Cpu.Access.{on_cpu, write_byte, fetch_into, read_into}
use v6emul.Cpu.Access.{set_z, set_w, set_tmp, dec16, inc16, move_sp}

module _ {W : Type 0} where
  unfoldable pub mov_reg_reg : Reg → Reg → ℕ → Machine W → Machine W
  mov_reg_reg dst src zero m = on_cpu (λ s. set_tmp (get_reg src s) s) m
  mov_reg_reg dst src (suc zero) m = on_cpu (λ s. set_reg dst s.tmp s) m
  mov_reg_reg dst src _ m = m

  unfoldable pub load_reg_ptr : Reg → Pair → ℕ → Machine W → Machine W
  load_reg_ptr dst addr zero m = m
  load_reg_ptr dst addr (suc zero) m = read_into (get_word addr m.cpu) ram 0 (set_reg dst) m
  load_reg_ptr dst addr _ m = m

  unfoldable pub mov_mem_reg : Reg → ℕ → Machine W → Machine W
  mov_mem_reg src zero m = on_cpu (λ s. set_tmp (get_reg src s) s) m
  mov_mem_reg src (suc zero) m = write_byte (get_word pair_hl m.cpu) m.cpu.tmp ram 0 m
  mov_mem_reg src _ m = m

  unfoldable pub mvi_reg_data : Reg → ℕ → Machine W → Machine W
  mvi_reg_data dst zero m = m
  mvi_reg_data dst (suc zero) m = fetch_into 1 (set_reg dst) m
  mvi_reg_data dst _ m = m

  unfoldable pub mvi_mem_data : ℕ → Machine W → Machine W
  mvi_mem_data zero m = m
  mvi_mem_data (suc zero) m = fetch_into 1 set_tmp m
  mvi_mem_data (suc (suc zero)) m = write_byte (get_word pair_hl m.cpu) m.cpu.tmp ram 0 m
  mvi_mem_data _ m = m

  -- The fetch of the two address bytes, as in the machine cycles 1 and 2 of LDA, STA, LHLD, SHLD.
  unfoldable pub lda : ℕ → Machine W → Machine W
  lda zero m = m
  lda (suc zero) m = fetch_into 1 set_z m
  lda (suc (suc zero)) m = fetch_into 2 set_w m
  lda (suc (suc (suc zero))) m = read_into (get_wz m.cpu) ram 0 (λ v s. record s { a = v }) m
  lda _ m = m

  unfoldable pub sta : ℕ → Machine W → Machine W
  sta zero m = m
  sta (suc zero) m = fetch_into 1 set_z m
  sta (suc (suc zero)) m = fetch_into 2 set_w m
  sta (suc (suc (suc zero))) m = write_byte (get_wz m.cpu) m.cpu.a ram 0 m
  sta _ m = m

  unfoldable pub stax : Pair → ℕ → Machine W → Machine W
  stax addr zero m = m
  stax addr (suc zero) m = write_byte (get_word addr m.cpu) m.cpu.a ram 0 m
  stax addr _ m = m

  unfoldable pub lxi : Pair → ℕ → Machine W → Machine W
  lxi p zero m = m
  lxi p (suc zero) m = fetch_into 1 (set_low p) m
  lxi p (suc (suc zero)) m = fetch_into 2 (set_high p) m
  lxi p _ m = m

  unfoldable pub lhld : ℕ → Machine W → Machine W
  lhld zero m = m
  lhld (suc zero) m = fetch_into 1 set_z m
  lhld (suc (suc zero)) m = fetch_into 2 set_w m
  lhld (suc (suc (suc zero))) m =
      on_cpu (λ s. set_wz (inc16 (get_wz s)) s)
        (read_into (get_wz m.cpu) ram 0 (λ v s. record s { l = v }) m)
  lhld (suc (suc (suc (suc zero)))) m = read_into (get_wz m.cpu) ram 1 (λ v s. record s { h = v }) m
  lhld _ m = m

  unfoldable pub shld : ℕ → Machine W → Machine W
  shld zero m = m
  shld (suc zero) m = fetch_into 1 set_z m
  shld (suc (suc zero)) m = fetch_into 2 set_w m
  shld (suc (suc (suc zero))) m =
      on_cpu (λ s. set_wz (inc16 (get_wz s)) s) (write_byte (get_wz m.cpu) m.cpu.l ram 0 m)
  shld (suc (suc (suc (suc zero)))) m = write_byte (get_wz m.cpu) m.cpu.h ram 1 m
  shld _ m = m

  unfoldable pub sphl : ℕ → Machine W → Machine W
  sphl zero m = m
  sphl (suc zero) m = on_cpu (λ s. record s { sp = get_word pair_hl s }) m
  sphl _ m = m

  unfoldable pub xthl : ℕ → Machine W → Machine W
  xthl zero m = m
  xthl (suc zero) m = read_into m.cpu.sp stack 0 set_z m
  xthl (suc (suc zero)) m = read_into (inc16 m.cpu.sp) stack 1 set_w m
  xthl (suc (suc (suc zero))) m = write_byte m.cpu.sp m.cpu.l stack 1 m
  xthl (suc (suc (suc (suc zero)))) m = write_byte (inc16 m.cpu.sp) m.cpu.h stack 0 m
  xthl (suc (suc (suc (suc (suc zero))))) m = on_cpu (λ s. record s { h = s.w; l = s.z }) m
  xthl _ m = m

  unfoldable pub push : Pair → ℕ → Machine W → Machine W
  push p zero m = move_sp dec16 m
  push p (suc zero) m = write_byte m.cpu.sp (get_high p m.cpu) stack 0 m
  push p (suc (suc zero)) m = move_sp dec16 m
  push p (suc (suc (suc zero))) m = write_byte m.cpu.sp (get_low p m.cpu) stack 1 m
  push p _ m = m

  unfoldable pub pop : Pair → ℕ → Machine W → Machine W
  pop p zero m = m
  pop p (suc zero) m = move_sp inc16 (read_into m.cpu.sp stack 0 (set_low p) m)
  pop p (suc (suc zero)) m = move_sp inc16 (read_into m.cpu.sp stack 1 (set_high p) m)
  pop p _ m = m

  -- POP PSW: in every cycle `F &= PSW_NUL_FLAGS; F |= PSW_INIT` fixes the three unused bits.
  unfoldable pub pop_psw : Pair → ℕ → Machine W → Machine W
  unfolding pop
  pop_psw p mc m = on_cpu (λ s. record s { f1 = true; f3 = false; f5 = false }) (pop p mc m)
