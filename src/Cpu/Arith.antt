-- ===== src/Cpu/Arith.antt =====
-- The arithmetic and logic instruction helpers of libs/v6core/src/cpu_i8080.cpp, one machine cycle
-- each; the first number is MC.
use v6emul.Base.{ℕ, zero, suc, ◌+◌, Bool, u8, nonzero, bit_and}
use v6emul.Base.{bool_to_ℕ}
use v6emul.Memory.{ram}
use v6emul.Cpu.State.{Cpu, Machine, Reg, Pair, pair_hl, get_reg, set_reg, get_word, set_word}
use v6emul.Cpu.State.{get_high, get_low, get_wz, set_wz}
use v6emul.Cpu.Access.{on_cpu, write_byte, fetch_into, read_into, set_tmp, dec16, inc16}
use v6emul.Cpu.Alu

-- `ACT = A`
abbrev pub save_act : Cpu → Cpu
save_act s = record s { act = s.a }

-- `ACT = A; TMP = v`
abbrev pub load_act_tmp : ℕ → Cpu → Cpu
load_act_tmp v s = record s { act = s.a; tmp = v }

-- The additions of `DAD`: the low bytes, then the high bytes with the carry.
unfoldable pub dad_low : ℕ → Cpu → Cpu
dad_low v s =
    let res = v + s.l in
    record s { act = v; tmp = s.l; fc = nonzero (bit_and res 0x100); l = u8 res }

unfoldable pub dad_high : ℕ → Cpu → Cpu
dad_high v s =
    let result = v + s.h + bool_to_ℕ s.fc in
    record s { act = v; tmp = s.h; fc = nonzero (bit_and result 0x100); h = u8 result }

module _ {W : Type 0} where
  -- ADDMem, SUBMem, AMAMem, XRAMem, ORAMem and CMPMem: A is saved, then the operand comes from
  -- memory; ADI, SBI, ANI, XRI, ORI and CPI take it from the instruction.
  abbrev with_mem : (Cpu → Cpu) → ℕ → Machine W → Machine W
  with_mem f zero m = on_cpu save_act m
  with_mem f (suc zero) m = read_into (get_word pair_hl m.cpu) ram 0 (λ v s. f (set_tmp v s)) m
  with_mem f _ m = m

  abbrev with_data : (Cpu → Cpu) → ℕ → Machine W → Machine W
  with_data f zero m = on_cpu save_act m
  with_data f (suc zero) m = fetch_into 1 (λ v s. f (set_tmp v s)) m
  with_data f _ m = m

  unfoldable pub add_mem : Bool → ℕ → Machine W → Machine W
  add_mem cy = with_mem (λ s. Alu.add s.act s.tmp cy s)

  unfoldable pub adi : Bool → ℕ → Machine W → Machine W
  adi cy = with_data (λ s. Alu.add s.act s.tmp cy s)

  unfoldable pub sub_mem : Bool → ℕ → Machine W → Machine W
  sub_mem cy = with_mem (λ s. Alu.sub s.act s.tmp cy s)

  unfoldable pub sbi : Bool → ℕ → Machine W → Machine W
  sbi cy = with_data (λ s. Alu.sub s.act s.tmp cy s)

  unfoldable pub ana_mem : ℕ → Machine W → Machine W
  ana_mem = with_mem Alu.and_act_tmp

  unfoldable pub ani : ℕ → Machine W → Machine W
  ani = with_data Alu.and_act_tmp

  unfoldable pub xra_mem : ℕ → Machine W → Machine W
  xra_mem = with_mem Alu.xor_act_tmp

  unfoldable pub xri : ℕ → Machine W → Machine W
  xri = with_data Alu.xor_act_tmp

  unfoldable pub ora_mem : ℕ → Machine W → Machine W
  ora_mem = with_mem Alu.or_act_tmp

  unfoldable pub ori : ℕ → Machine W → Machine W
  ori = with_data Alu.or_act_tmp

  unfoldable pub cmp_mem : ℕ → Machine W → Machine W
  cmp_mem = with_mem Alu.cmp_act_tmp

  unfoldable pub cpi : ℕ → Machine W → Machine W
  cpi = with_data Alu.cmp_act_tmp

  unfoldable pub dad : Pair → ℕ → Machine W → Machine W
  dad p zero m = m
  dad p (suc zero) m = on_cpu (λ s. dad_low (get_low p s) s) m
  dad p (suc (suc zero)) m = on_cpu (λ s. dad_high (get_high p s) s) m
  dad p _ m = m

  unfoldable pub inr : Reg → ℕ → Machine W → Machine W
  inr dst zero m = on_cpu (λ s. Alu.inr_flags (u8 (get_reg dst s + 1)) s) m
  inr dst (suc zero) m = on_cpu (λ s. set_reg dst s.tmp s) m
  inr dst _ m = m

  unfoldable pub inr_mem : ℕ → Machine W → Machine W
  inr_mem zero m = m
  inr_mem (suc zero) m =
      read_into (get_word pair_hl m.cpu) ram 0 (λ v s. Alu.inr_flags (u8 (v + 1)) s) m
  inr_mem (suc (suc zero)) m = write_byte (get_word pair_hl m.cpu) m.cpu.tmp ram 0 m
  inr_mem _ m = m

  unfoldable pub dcr : Reg → ℕ → Machine W → Machine W
  dcr dst zero m = on_cpu (λ s. Alu.dcr_flags (u8 (get_reg dst s + 255)) s) m
  dcr dst (suc zero) m = on_cpu (λ s. set_reg dst s.tmp s) m
  dcr dst _ m = m

  unfoldable pub dcr_mem : ℕ → Machine W → Machine W
  dcr_mem zero m = m
  dcr_mem (suc zero) m =
      read_into (get_word pair_hl m.cpu) ram 0 (λ v s. Alu.dcr_flags (u8 (v + 255)) s) m
  dcr_mem (suc (suc zero)) m = write_byte (get_word pair_hl m.cpu) m.cpu.tmp ram 0 m
  dcr_mem _ m = m

  unfoldable pub inx : Pair → ℕ → Machine W → Machine W
  inx p zero m = on_cpu (λ s. set_wz (inc16 (get_word p s)) s) m
  inx p (suc zero) m = on_cpu (λ s. set_word p (get_wz s) s) m
  inx p _ m = m

  unfoldable pub dcx : Pair → ℕ → Machine W → Machine W
  dcx p zero m = on_cpu (λ s. set_wz (dec16 (get_word p s)) s) m
  dcx p (suc zero) m = on_cpu (λ s. set_word p (get_wz s) s) m
  dcx p _ m = m
