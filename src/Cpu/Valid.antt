-- ===== src/Cpu/Valid.antt =====
-- The invariant of the machine: every register has its width, and the memory is valid.
use v6emul.Base.{◌<◌, ◌≡◌, true, false}
use v6emul.Memory.Bounds.{IsValid}
use v6emul.Cpu.State.{Cpu, Machine, Reg, reg_a, reg_b, reg_c, reg_d, reg_e, reg_h, reg_l, get_reg}

-- The unused flag bits are 1, 0 and 0, as the comment of the union `AF` says.
pub record IsCpu (s : Cpu) : Type 0 where
  pub a_in : s.a < 256
  pub b_in : s.b < 256
  pub c_in : s.c < 256
  pub d_in : s.d < 256
  pub e_in : s.e < 256
  pub h_in : s.h < 256
  pub l_in : s.l < 256
  pub tmp_in : s.tmp < 256
  pub act_in : s.act < 256
  pub w_in : s.w < 256
  pub z_in : s.z < 256
  pub pc_in : s.pc < 65536
  pub sp_in : s.sp < 65536
  pub ir_in : s.ir < 256
  pub f1_set : s.f1 ≡ true
  pub f3_clear : s.f3 ≡ false
  pub f5_clear : s.f5 ≡ false

pub record IsMachine {W : Type 0} (m : Machine W) : Type 0 where
  pub cpu_valid : IsCpu m.cpu
  pub mem_valid : IsValid m.mem

pub get_reg-lt : (r : Reg) (s : Cpu) → IsCpu s → get_reg r s < 256
get_reg-lt reg_a s v = v.a_in
get_reg-lt reg_b s v = v.b_in
get_reg-lt reg_c s v = v.c_in
get_reg-lt reg_d s v = v.d_in
get_reg-lt reg_e s v = v.e_in
get_reg-lt reg_h s v = v.h_in
get_reg-lt reg_l s v = v.l_in
