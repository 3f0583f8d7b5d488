-- ===== src/Cpu/Ops.antt =====
-- The instructions: for each form of a `case` of `Decode` (libs/v6core/src/cpu_i8080.cpp) the helper
-- that it calls, with the arguments of the call. `Bool` is whether the carry flag is passed. The
-- first cases, those that move data, are here too.
use v6emul.Base.{ℕ, Bool, List, [], ◌∷◌}
use v6emul.Cpu.State.{Reg, reg_a, reg_b, reg_c, reg_d, reg_e, reg_h, reg_l, Pair, pair_bc, pair_de}
use v6emul.Cpu.State.{pair_hl, pair_sp, pair_psw}
use v6emul.Cpu.State.{Cond}

pub data Op : Type 0 where
  mov_reg_reg : Reg → Reg → Op
  load_reg_ptr : Reg → Pair → Op
  mov_mem_reg mvi_reg_data : Reg → Op
  stax lxi push pop dad inx dcx : Pair → Op
  mvi_mem_data lda sta lhld shld sphl xchg xthl pop_psw : Op
  add sub : Reg → Bool → Op
  add_mem adi sub_mem sbi : Bool → Op
  inr dcr ana xra ora cmp : Reg → Op
  inr_mem dcr_mem ana_mem ani xra_mem xri ora_mem ori cmp_mem cpi : Op
  daa cma stc cmc rlc rrc ral rar : Op
  jmp call ret_cond : Cond → Op
  rst : ℕ → Op
  pchl ret in_ out_ di ei hlt nop : Op

-- cases of `Decode`, 0x7F to 0xF1 in its order
abbrev pub move_ops : List (ℕ × Op)
move_ops =
    (0x7f, mov_reg_reg reg_a reg_a)
    ∷ (0x78, mov_reg_reg reg_a reg_b)
    ∷ (0x79, mov_reg_reg reg_a reg_c)
    ∷ (0x7a, mov_reg_reg reg_a reg_d)
    ∷ (0x7b, mov_reg_reg reg_a reg_e)
    ∷ (0x7c, mov_reg_reg reg_a reg_h)
    ∷ (0x7d, mov_reg_reg reg_a reg_l)
    ∷ (0x47, mov_reg_reg reg_b reg_a)
    ∷ (0x40, mov_reg_reg reg_b reg_b)
    ∷ (0x41, mov_reg_reg reg_b reg_c)
    ∷ (0x42, mov_reg_reg reg_b reg_d)
    ∷ (0x43, mov_reg_reg reg_b reg_e)
    ∷ (0x44, mov_reg_reg reg_b reg_h)
    ∷ (0x45, mov_reg_reg reg_b reg_l)
    ∷ (0x4f, mov_reg_reg reg_c reg_a)
    ∷ (0x48, mov_reg_reg reg_c reg_b)
    ∷ (0x49, mov_reg_reg reg_c reg_c)
    ∷ (0x4a, mov_reg_reg reg_c reg_d)
    ∷ (0x4b, mov_reg_reg reg_c reg_e)
    ∷ (0x4c, mov_reg_reg reg_c reg_h)
    ∷ (0x4d, mov_reg_reg reg_c reg_l)
    ∷ (0x57, mov_reg_reg reg_d reg_a)
    ∷ (0x50, mov_reg_reg reg_d reg_b)
    ∷ (0x51, mov_reg_reg reg_d reg_c)
    ∷ (0x52, mov_reg_reg reg_d reg_d)
    ∷ (0x53, mov_reg_reg reg_d reg_e)
    ∷ (0x54, mov_reg_reg reg_d reg_h)
    ∷ (0x55, mov_reg_reg reg_d reg_l)
    ∷ (0x5f, mov_reg_reg reg_e reg_a)
    ∷ (0x58, mov_reg_reg reg_e reg_b)
    ∷ (0x59, mov_reg_reg reg_e reg_c)
    ∷ (0x5a, mov_reg_reg reg_e reg_d)
    ∷ (0x5b, mov_reg_reg reg_e reg_e)
    ∷ (0x5c, mov_reg_reg reg_e reg_h)
    ∷ (0x5d, mov_reg_reg reg_e reg_l)
    ∷ (0x67, mov_reg_reg reg_h reg_a)
    ∷ (0x60, mov_reg_reg reg_h reg_b)
    ∷ (0x61, mov_reg_reg reg_h reg_c)
    ∷ (0x62, mov_reg_reg reg_h reg_d)
    ∷ (0x63, mov_reg_reg reg_h reg_e)
    ∷ (0x64, mov_reg_reg reg_h reg_h)
    ∷ (0x65, mov_reg_reg reg_h reg_l)
    ∷ (0x6f, mov_reg_reg reg_l reg_a)
    ∷ (0x68, mov_reg_reg reg_l reg_b)
    ∷ (0x69, mov_reg_reg reg_l reg_c)
    ∷ (0x6a, mov_reg_reg reg_l reg_d)
    ∷ (0x6b, mov_reg_reg reg_l reg_e)
    ∷ (0x6c, mov_reg_reg reg_l reg_h)
    ∷ (0x6d, mov_reg_reg reg_l reg_l)
    ∷ (0x7e, load_reg_ptr reg_a pair_hl)
    ∷ (0x46, load_reg_ptr reg_b pair_hl)
    ∷ (0x4e, load_reg_ptr reg_c pair_hl)
    ∷ (0x56, load_reg_ptr reg_d pair_hl)
    ∷ (0x5e, load_reg_ptr reg_e pair_hl)
    ∷ (0x66, load_reg_ptr reg_h pair_hl)
    ∷ (0x6e, load_reg_ptr reg_l pair_hl)
    ∷ (0x77, mov_mem_reg reg_a)
    ∷ (0x70, mov_mem_reg reg_b)
    ∷ (0x71, mov_mem_reg reg_c)
    ∷ (0x72, mov_mem_reg reg_d)
    ∷ (0x73, mov_mem_reg reg_e)
    ∷ (0x74, mov_mem_reg reg_h)
    ∷ (0x75, mov_mem_reg reg_l)
    ∷ (0x3e, mvi_reg_data reg_a)
    ∷ (0x06, mvi_reg_data reg_b)
    ∷ (0x0e, mvi_reg_data reg_c)
    ∷ (0x16, mvi_reg_data reg_d)
    ∷ (0x1e, mvi_reg_data reg_e)
    ∷ (0x26, mvi_reg_data reg_h)
    ∷ (0x2e, mvi_reg_data reg_l)
    ∷ (0x36, mvi_mem_data)
    ∷ (0x0a, load_reg_ptr reg_a pair_bc)
    ∷ (0x1a, load_reg_ptr reg_a pair_de)
    ∷ (0x3a, lda)
    ∷ (0x02, stax pair_bc)
    ∷ (0x12, stax pair_de)
    ∷ (0x32, sta)
    ∷ (0x01, lxi pair_bc)
    ∷ (0x11, lxi pair_de)
    ∷ (0x21, lxi pair_hl)
    ∷ (0x31, lxi pair_sp)
    ∷ (0x2a, lhld)
    ∷ (0x22, shld)
    ∷ (0xf9, sphl)
    ∷ (0xeb, xchg)
    ∷ (0xe3, xthl)
    ∷ (0xc5, push pair_bc)
    ∷ (0xd5, push pair_de)
    ∷ (0xe5, push pair_hl)
    ∷ (0xf5, push pair_psw)
    ∷ (0xc1, pop pair_bc)
    ∷ (0xd1, pop pair_de)
    ∷ (0xe1, pop pair_hl)
    ∷ (0xf1, pop_psw)
    ∷ []
