-- ===== src/Cpu/State.antt =====
-- The registers of `CpuI8080::State`, and the machine that the instructions change.
-- The unions are one record: register pairs by their two bytes, `pc` and `sp` as words, the flag
-- byte by its eight bit fields, `ints` by its fields. The scratch pair WZ is `w` and `z`.
use v6emul.Base.{ℕ, ◌+◌, ◌*◌, ◌/◌, ◌%◌, Bool, true, false, bool_to_ℕ, test_bit, not}
use v6emul.Memory.{Memory}

pub record Cpu : Type 0 where
  pub cc : ℕ
  pub pc : ℕ
  pub sp : ℕ
  pub a : ℕ
  pub fc : Bool
  pub f1 : Bool
  pub fp : Bool
  pub f3 : Bool
  pub fac : Bool
  pub f5 : Bool
  pub fz : Bool
  pub fs : Bool
  pub b : ℕ
  pub c : ℕ
  pub d : ℕ
  pub e : ℕ
  pub h : ℕ
  pub l : ℕ
  pub ir : ℕ
  pub tmp : ℕ
  pub act : ℕ
  pub w : ℕ
  pub z : ℕ
  pub mc : ℕ
  pub inte : Bool
  pub iff : Bool
  pub hlta : Bool
  pub ei_pending : Bool

-- What the CPU works on: its registers, `m_memory`, and the state behind the port callbacks.
pub record Machine (W : Type 0) : Type 0 where
  pub cpu : Cpu
  pub mem : Memory
  pub io : W

-- `InputFunc` and `OutputFunc`: the ports are another component's.
pub record Bus (W : Type 0) : Type 0 where
  pub input : ℕ → W → ℕ × W
  pub output : ℕ → ℕ → W → W

pub data Reg : Type 0 where
  reg_a reg_b reg_c reg_d reg_e reg_h reg_l : Reg

pub data Pair : Type 0 where
  pair_bc pair_de pair_hl pair_sp pair_psw : Pair

pub data Flag : Type 0 where
  zero_flag carry_flag parity_flag sign_flag : Flag

-- The argument `_condition` of JMP, CALL and RETCond.
pub data Cond : Type 0 where
  always : Cond
  when : Flag → Bool → Cond

abbrev pub get_reg : Reg → Cpu → ℕ
get_reg reg_a s = s.a
get_reg reg_b s = s.b
get_reg reg_c s = s.c
get_reg reg_d s = s.d
get_reg reg_e s = s.e
get_reg reg_h s = s.h
get_reg reg_l s = s.l

abbrev pub set_reg : Reg → ℕ → Cpu → Cpu
set_reg reg_a v s = record s { a = v }
set_reg reg_b v s = record s { b = v }
set_reg reg_c v s = record s { c = v }
set_reg reg_d v s = record s { d = v }
set_reg reg_e v s = record s { e = v }
set_reg reg_h v s = record s { h = v }
set_reg reg_l v s = record s { l = v }

-- The flag byte F of the union `AF`.
abbrev pub get_f : Cpu → ℕ
get_f s =
    bool_to_ℕ s.fc
    + 2 * bool_to_ℕ s.f1
    + 4 * bool_to_ℕ s.fp
    + 8 * bool_to_ℕ s.f3
    + 16 * bool_to_ℕ s.fac
    + 32 * bool_to_ℕ s.f5
    + 64 * bool_to_ℕ s.fz
    + 128 * bool_to_ℕ s.fs

abbrev pub set_f : ℕ → Cpu → Cpu
set_f v s = record s {
  fc = test_bit v 0;
  f1 = test_bit v 1;
  fp = test_bit v 2;
  f3 = test_bit v 3;
  fac = test_bit v 4;
  f5 = test_bit v 5;
  fz = test_bit v 6;
  fs = test_bit v 7;
}

-- The high and the low byte of a pair, and the stores into them.
abbrev pub get_high : Pair → Cpu → ℕ
get_high pair_bc s = s.b
get_high pair_de s = s.d
get_high pair_hl s = s.h
get_high pair_sp s = s.sp / 256
get_high pair_psw s = s.a

abbrev pub get_low : Pair → Cpu → ℕ
get_low pair_bc s = s.c
get_low pair_de s = s.e
get_low pair_hl s = s.l
get_low pair_sp s = s.sp % 256
get_low pair_psw s = get_f s

abbrev pub set_high : Pair → ℕ → Cpu → Cpu
set_high pair_bc v s = record s { b = v }
set_high pair_de v s = record s { d = v }
set_high pair_hl v s = record s { h = v }
set_high pair_sp v s = record s { sp = v * 256 + s.sp % 256 }
set_high pair_psw v s = record s { a = v }

abbrev pub set_low : Pair → ℕ → Cpu → Cpu
set_low pair_bc v s = record s { c = v }
set_low pair_de v s = record s { e = v }
set_low pair_hl v s = record s { l = v }
set_low pair_sp v s = record s { sp = s.sp / 256 * 256 + v }
set_low pair_psw v s = set_f v s

-- `.word` of a pair, and its assignment.
abbrev pub get_word : Pair → Cpu → ℕ
get_word pair_bc s = s.b * 256 + s.c
get_word pair_de s = s.d * 256 + s.e
get_word pair_hl s = s.h * 256 + s.l
get_word pair_sp s = s.sp
get_word pair_psw s = s.a * 256 + get_f s

abbrev pub set_word : Pair → ℕ → Cpu → Cpu
set_word pair_bc v s = record s { b = v / 256; c = v % 256 }
set_word pair_de v s = record s { d = v / 256; e = v % 256 }
set_word pair_hl v s = record s { h = v / 256; l = v % 256 }
set_word pair_sp v s = record s { sp = v }
set_word pair_psw v s = set_f (v % 256) (record s { a = v / 256 })

abbrev pub get_wz : Cpu → ℕ
get_wz s = s.w * 256 + s.z

abbrev pub set_wz : ℕ → Cpu → Cpu
set_wz v s = record s { w = v / 256; z = v % 256 }

abbrev pub get_flag : Flag → Cpu → Bool
get_flag zero_flag s = s.fz
get_flag carry_flag s = s.fc
get_flag parity_flag s = s.fp
get_flag sign_flag s = s.fs

-- `FZ == false` and the like
abbrev pub cond_holds : Cond → Cpu → Bool
cond_holds always s = true
cond_holds (when f true) s = get_flag f s
cond_holds (when f false) s = not (get_flag f s)
