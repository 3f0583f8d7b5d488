-- ===== src/Cpu/Decode.antt =====
-- The switch of `Decode` (libs/v6core/src/cpu_i8080.cpp) as a list of its cases.
use v6emul.Base.{ℕ, true, false, Option, none, some, List, [], ◌∷◌, ◌++◌, ◌==◌, if◌then◌else◌}
use v6emul.Cpu.State.{reg_a, reg_b, reg_c, reg_d, reg_e, reg_h, reg_l, pair_bc, pair_de}
use v6emul.Cpu.State.{pair_hl, pair_sp, zero_flag, carry_flag, parity_flag, sign_flag}
use v6emul.Cpu.State.{always, when}
use v6emul.Cpu.Ops.{
  Op, move_ops, dad, inx, dcx, add, sub, add_mem, adi, sub_mem, sbi, inr, dcr, ana, xra, ora, cmp,
  inr_mem, dcr_mem, ana_mem, ani, xra_mem, xri, ora_mem, ori, cmp_mem, cpi, daa, cma, stc, cmc, rlc,
  rrc, ral, rar, jmp, call, ret_cond, rst, pchl, ret, in_, out_, di, ei, hlt, nop,
}

-- cases of `Decode`, 0x87 to 0x1F in its order
abbrev pub add_ops : List (ℕ × Op)
add_ops =
    (0x87, add reg_a false)
    ∷ (0x80, add reg_b false)
    ∷ (0x81, add reg_c false)
    ∷ (0x82, add reg_d false)
    ∷ (0x83, add reg_e false)
    ∷ (0x84, add reg_h false)
    ∷ (0x85, add reg_l false)
    ∷ (0x86, add_mem false)
    ∷ (0xc6, adi false)
    ∷ (0x8f, add reg_a true)
    ∷ (0x88, add reg_b true)
    ∷ (0x89, add reg_c true)
    ∷ (0x8a, add reg_d true)
    ∷ (0x8b, add reg_e true)
    ∷ (0x8c, add reg_h true)
    ∷ (0x8d, add reg_l true)
    ∷ (0x8e, add_mem true)
    ∷ (0xce, adi true)
    ∷ (0x97, sub reg_a false)
    ∷ (0x90, sub reg_b false)
    ∷ (0x91, sub reg_c false)
    ∷ (0x92, sub reg_d false)
    ∷ (0x93, sub reg_e false)
    ∷ (0x94, sub reg_h false)
    ∷ (0x95, sub reg_l false)
    ∷ (0x96, sub_mem false)
    ∷ (0xd6, sbi false)
    ∷ (0x9f, sub reg_a true)
    ∷ (0x98, sub reg_b true)
    ∷ (0x99, sub reg_c true)
    ∷ (0x9a, sub reg_d true)
    ∷ (0x9b, sub reg_e true)
    ∷ (0x9c, sub reg_h true)
    ∷ (0x9d, sub reg_l true)
    ∷ (0x9e, sub_mem true)
    ∷ (0xde, sbi true)
    ∷ (0x09, dad pair_bc)
    ∷ (0x19, dad pair_de)
    ∷ (0x29, dad pair_hl)
    ∷ (0x39, dad pair_sp)
    ∷ (0x3c, inr reg_a)
    ∷ (0x04, inr reg_b)
    ∷ (0x0c, inr reg_c)
    ∷ (0x14, inr reg_d)
    ∷ (0x1c, inr reg_e)
    ∷ (0x24, inr reg_h)
    ∷ (0x2c, inr reg_l)
    ∷ (0x34, inr_mem)
    ∷ (0x3d, dcr reg_a)
    ∷ (0x05, dcr reg_b)
    ∷ (0x0d, dcr reg_c)
    ∷ (0x15, dcr reg_d)
    ∷ (0x1d, dcr reg_e)
    ∷ (0x25, dcr reg_h)
    ∷ (0x2d, dcr reg_l)
    ∷ (0x35, dcr_mem)
    ∷ (0x03, inx pair_bc)
    ∷ (0x13, inx pair_de)
    ∷ (0x23, inx pair_hl)
    ∷ (0x33, inx pair_sp)
    ∷ (0x0b, dcx pair_bc)
    ∷ (0x1b, dcx pair_de)
    ∷ (0x2b, dcx pair_hl)
    ∷ (0x3b, dcx pair_sp)
    ∷ (0x27, daa)
    ∷ (0x2f, cma)
    ∷ (0x37, stc)
    ∷ (0x3f, cmc)
    ∷ (0x07, rlc)
    ∷ (0x0f, rrc)
    ∷ (0x17, ral)
    ∷ (0x1f, rar)
    ∷ []

-- cases of `Decode`, 0xA7 to 0xFE in its order
abbrev pub logic_ops : List (ℕ × Op)
logic_ops =
    (0xa7, ana reg_a)
    ∷ (0xa0, ana reg_b)
    ∷ (0xa1, ana reg_c)
    ∷ (0xa2, ana reg_d)
    ∷ (0xa3, ana reg_e)
    ∷ (0xa4, ana reg_h)
    ∷ (0xa5, ana reg_l)
    ∷ (0xa6, ana_mem)
    ∷ (0xe6, ani)
    ∷ (0xaf, xra reg_a)
    ∷ (0xa8, xra reg_b)
    ∷ (0xa9, xra reg_c)
    ∷ (0xaa, xra reg_d)
    ∷ (0xab, xra reg_e)
    ∷ (0xac, xra reg_h)
    ∷ (0xad, xra reg_l)
    ∷ (0xae, xra_mem)
    ∷ (0xee, xri)
    ∷ (0xb7, ora reg_a)
    ∷ (0xb0, ora reg_b)
    ∷ (0xb1, ora reg_c)
    ∷ (0xb2, ora reg_d)
    ∷ (0xb3, ora reg_e)
    ∷ (0xb4, ora reg_h)
    ∷ (0xb5, ora reg_l)
    ∷ (0xb6, ora_mem)
    ∷ (0xf6, ori)
    ∷ (0xbf, cmp reg_a)
    ∷ (0xb8, cmp reg_b)
    ∷ (0xb9, cmp reg_c)
    ∷ (0xba, cmp reg_d)
    ∷ (0xbb, cmp reg_e)
    ∷ (0xbc, cmp reg_h)
    ∷ (0xbd, cmp reg_l)
    ∷ (0xbe, cmp_mem)
    ∷ (0xfe, cpi)
    ∷ []

-- cases of `Decode`, 0xC3 to 0x38 in its order
abbrev pub control_ops : List (ℕ × Op)
control_ops =
    (0xc3, jmp always)
    ∷ (0xcb, jmp always)
    ∷ (0xc2, jmp (when zero_flag false))
    ∷ (0xca, jmp (when zero_flag true))
    ∷ (0xd2, jmp (when carry_flag false))
    ∷ (0xda, jmp (when carry_flag true))
    ∷ (0xe2, jmp (when parity_flag false))
    ∷ (0xea, jmp (when parity_flag true))
    ∷ (0xf2, jmp (when sign_flag false))
    ∷ (0xfa, jmp (when sign_flag true))
    ∷ (0xe9, pchl)
    ∷ (0xcd, call always)
    ∷ (0xdd, call always)
    ∷ (0xed, call always)
    ∷ (0xfd, call always)
    ∷ (0xc4, call (when zero_flag false))
    ∷ (0xcc, call (when zero_flag true))
    ∷ (0xd4, call (when carry_flag false))
    ∷ (0xdc, call (when carry_flag true))
    ∷ (0xe4, call (when parity_flag false))
    ∷ (0xec, call (when parity_flag true))
    ∷ (0xf4, call (when sign_flag false))
    ∷ (0xfc, call (when sign_flag true))
    ∷ (0xc9, ret)
    ∷ (0xd9, ret)
    ∷ (0xc0, ret_cond (when zero_flag false))
    ∷ (0xc8, ret_cond (when zero_flag true))
    ∷ (0xd0, ret_cond (when carry_flag false))
    ∷ (0xd8, ret_cond (when carry_flag true))
    ∷ (0xe0, ret_cond (when parity_flag false))
    ∷ (0xe8, ret_cond (when parity_flag true))
    ∷ (0xf0, ret_cond (when sign_flag false))
    ∷ (0xf8, ret_cond (when sign_flag true))
    ∷ (0xc7, rst 0)
    ∷ (0xcf, rst 1)
    ∷ (0xd7, rst 2)
    ∷ (0xdf, rst 3)
    ∷ (0xe7, rst 4)
    ∷ (0xef, rst 5)
    ∷ (0xf7, rst 6)
    ∷ (0xff, rst 7)
    ∷ (0xdb, in_)
    ∷ (0xd3, out_)
    ∷ (0xf3, di)
    ∷ (0xfb, ei)
    ∷ (0x76, hlt)
    ∷ (0x00, nop)
    ∷ (0x08, nop)
    ∷ (0x10, nop)
    ∷ (0x18, nop)
    ∷ (0x20, nop)
    ∷ (0x28, nop)
    ∷ (0x30, nop)
    ∷ (0x38, nop)
    ∷ []

-- the first case with this label
unfoldable pub find_case : ℕ → List (ℕ × Op) → Option Op
find_case ir [] = none
find_case ir ((code, op) ∷ cases) = if ir == code then some op else find_case ir cases

-- The instruction of an opcode; `none` is the default case, which leaves the program.
unfoldable pub decode_op : ℕ → Option Op
unfolding find_case
decode_op ir = find_case ir (move_ops ++ add_ops ++ logic_ops ++ control_ops)
