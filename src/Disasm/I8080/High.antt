-- ===== src/Disasm/I8080/High.antt =====
-- The commands 0xC0 to 0xFF of libs/v6core/include/core/disasm_i8080_cmds.h, sixteen in a row, in the order of the
-- array at the end of that file.
use v6emul.Base.{List, [], ◌∷◌}
use v6emul.Disasm.Cmd.{
  Cmd, cmd, cmd_tt_bimm, cmd_tt_cmd, cmd_tt_imm, cmd_tt_reg, cmd_tt_space, cmd_it_b1, cmd_it_none,
  cmd_it_w1,
}
use v6emul.Disasm.I8080.Data.{cmd_db_n}

-- 0xC0 to 0xCF
abbrev pub i8080_row_c0 : List Cmd
i8080_row_c0 =
    cmd ("rnz" ∷ []) (cmd_tt_cmd ∷ []) cmd_it_none
    ∷ cmd ("pop" ∷ " " ∷ "b" ∷ []) (cmd_tt_cmd ∷ cmd_tt_space ∷ cmd_tt_reg ∷ []) cmd_it_none
    ∷ cmd ("jnz" ∷ " " ∷ "NN" ∷ []) (cmd_tt_cmd ∷ cmd_tt_space ∷ cmd_tt_imm ∷ []) cmd_it_w1
    ∷ cmd ("jmp" ∷ " " ∷ "NN" ∷ []) (cmd_tt_cmd ∷ cmd_tt_space ∷ cmd_tt_imm ∷ []) cmd_it_w1
    ∷ cmd ("cnz" ∷ " " ∷ "NN" ∷ []) (cmd_tt_cmd ∷ cmd_tt_space ∷ cmd_tt_imm ∷ []) cmd_it_w1
    ∷ cmd ("push" ∷ " " ∷ "b" ∷ []) (cmd_tt_cmd ∷ cmd_tt_space ∷ cmd_tt_reg ∷ []) cmd_it_none
    ∷ cmd ("adi" ∷ " " ∷ "N" ∷ []) (cmd_tt_cmd ∷ cmd_tt_space ∷ cmd_tt_imm ∷ []) cmd_it_b1
    ∷ cmd ("rst" ∷ " " ∷ "0" ∷ []) (cmd_tt_cmd ∷ cmd_tt_space ∷ cmd_tt_bimm ∷ []) cmd_it_none
    ∷ cmd ("rz" ∷ []) (cmd_tt_cmd ∷ []) cmd_it_none
    ∷ cmd ("ret" ∷ []) (cmd_tt_cmd ∷ []) cmd_it_none
    ∷ cmd ("jz" ∷ " " ∷ "NN" ∷ []) (cmd_tt_cmd ∷ cmd_tt_space ∷ cmd_tt_imm ∷ []) cmd_it_w1
    ∷ cmd_db_n
    ∷ cmd ("cz" ∷ " " ∷ "NN" ∷ []) (cmd_tt_cmd ∷ cmd_tt_space ∷ cmd_tt_imm ∷ []) cmd_it_w1
    ∷ cmd ("call" ∷ " " ∷ "NN" ∷ []) (cmd_tt_cmd ∷ cmd_tt_space ∷ cmd_tt_imm ∷ []) cmd_it_w1
    ∷ cmd ("aci" ∷ " " ∷ "N" ∷ []) (cmd_tt_cmd ∷ cmd_tt_space ∷ cmd_tt_imm ∷ []) cmd_it_b1
    ∷ cmd ("rst" ∷ " " ∷ "1" ∷ []) (cmd_tt_cmd ∷ cmd_tt_space ∷ cmd_tt_bimm ∷ []) cmd_it_none
    ∷ []

-- 0xD0 to 0xDF
abbrev pub i8080_row_d0 : List Cmd
i8080_row_d0 =
    cmd ("rnc" ∷ []) (cmd_tt_cmd ∷ []) cmd_it_none
    ∷ cmd ("pop" ∷ " " ∷ "d" ∷ []) (cmd_tt_cmd ∷ cmd_tt_space ∷ cmd_tt_reg ∷ []) cmd_it_none
    ∷ cmd ("jnc" ∷ " " ∷ "NN" ∷ []) (cmd_tt_cmd ∷ cmd_tt_space ∷ cmd_tt_imm ∷ []) cmd_it_w1
    ∷ cmd ("out" ∷ " " ∷ "N" ∷ []) (cmd_tt_cmd ∷ cmd_tt_space ∷ cmd_tt_imm ∷ []) cmd_it_b1
    ∷ cmd ("cnc" ∷ " " ∷ "NN" ∷ []) (cmd_tt_cmd ∷ cmd_tt_space ∷ cmd_tt_imm ∷ []) cmd_it_w1
    ∷ cmd ("push" ∷ " " ∷ "d" ∷ []) (cmd_tt_cmd ∷ cmd_tt_space ∷ cmd_tt_reg ∷ []) cmd_it_none
    ∷ cmd ("sui" ∷ " " ∷ "N" ∷ []) (cmd_tt_cmd ∷ cmd_tt_space ∷ cmd_tt_imm ∷ []) cmd_it_b1
    ∷ cmd ("rst" ∷ " " ∷ "2" ∷ []) (cmd_tt_cmd ∷ cmd_tt_space ∷ cmd_tt_bimm ∷ []) cmd_it_none
    ∷ cmd ("rc" ∷ []) (cmd_tt_cmd ∷ []) cmd_it_none
    ∷ cmd_db_n
    ∷ cmd ("jc" ∷ " " ∷ "NN" ∷ []) (cmd_tt_cmd ∷ cmd_tt_space ∷ cmd_tt_imm ∷ []) cmd_it_w1
    ∷ cmd ("in" ∷ " " ∷ "NN" ∷ []) (cmd_tt_cmd ∷ cmd_tt_space ∷ cmd_tt_imm ∷ []) cmd_it_b1
    ∷ cmd ("cc" ∷ " " ∷ "NN" ∷ []) (cmd_tt_cmd ∷ cmd_tt_space ∷ cmd_tt_imm ∷ []) cmd_it_w1
    ∷ cmd_db_n
    ∷ cmd ("sbi" ∷ " " ∷ "N" ∷ []) (cmd_tt_cmd ∷ cmd_tt_space ∷ cmd_tt_imm ∷ []) cmd_it_b1
    ∷ cmd ("rst" ∷ " " ∷ "3" ∷ []) (cmd_tt_cmd ∷ cmd_tt_space ∷ cmd_tt_bimm ∷ []) cmd_it_none
    ∷ []

-- 0xE0 to 0xEF
abbrev pub i8080_row_e0 : List Cmd
i8080_row_e0 =
    cmd ("rpo" ∷ []) (cmd_tt_cmd ∷ []) cmd_it_none
    ∷ cmd ("pop" ∷ " " ∷ "h" ∷ []) (cmd_tt_cmd ∷ cmd_tt_space ∷ cmd_tt_reg ∷ []) cmd_it_none
    ∷ cmd ("jpo" ∷ " " ∷ "NN" ∷ []) (cmd_tt_cmd ∷ cmd_tt_space ∷ cmd_tt_imm ∷ []) cmd_it_w1
    ∷ cmd ("xthl" ∷ []) (cmd_tt_cmd ∷ []) cmd_it_none
    ∷ cmd ("cpo" ∷ " " ∷ "NN" ∷ []) (cmd_tt_cmd ∷ cmd_tt_space ∷ cmd_tt_imm ∷ []) cmd_it_w1
    ∷ cmd ("push" ∷ " " ∷ "h" ∷ []) (cmd_tt_cmd ∷ cmd_tt_space ∷ cmd_tt_reg ∷ []) cmd_it_none
    ∷ cmd ("ani" ∷ " " ∷ "N" ∷ []) (cmd_tt_cmd ∷ cmd_tt_space ∷ cmd_tt_imm ∷ []) cmd_it_b1
    ∷ cmd ("rst" ∷ " " ∷ "4" ∷ []) (cmd_tt_cmd ∷ cmd_tt_space ∷ cmd_tt_bimm ∷ []) cmd_it_none
    ∷ cmd ("rpe" ∷ []) (cmd_tt_cmd ∷ []) cmd_it_none
    ∷ cmd ("pchl" ∷ []) (cmd_tt_cmd ∷ []) cmd_it_none
    ∷ cmd ("jpe" ∷ " " ∷ "NN" ∷ []) (cmd_tt_cmd ∷ cmd_tt_space ∷ cmd_tt_imm ∷ []) cmd_it_w1
    ∷ cmd ("xchg" ∷ []) (cmd_tt_cmd ∷ []) cmd_it_none
    ∷ cmd ("cpe" ∷ " " ∷ "NN" ∷ []) (cmd_tt_cmd ∷ cmd_tt_space ∷ cmd_tt_imm ∷ []) cmd_it_w1
    ∷ cmd_db_n
    ∷ cmd ("xri" ∷ " " ∷ "N" ∷ []) (cmd_tt_cmd ∷ cmd_tt_space ∷ cmd_tt_imm ∷ []) cmd_it_b1
    ∷ cmd ("rst" ∷ " " ∷ "5" ∷ []) (cmd_tt_cmd ∷ cmd_tt_space ∷ cmd_tt_bimm ∷ []) cmd_it_none
    ∷ []

-- 0xF0 to 0xFF
abbrev pub i8080_row_f0 : List Cmd
i8080_row_f0 =
    cmd ("rp" ∷ []) (cmd_tt_cmd ∷ []) cmd_it_none
    ∷ cmd ("pop" ∷ " " ∷ "psw" ∷ []) (cmd_tt_cmd ∷ cmd_tt_space ∷ cmd_tt_reg ∷ []) cmd_it_none
    ∷ cmd ("jp" ∷ " " ∷ "NN" ∷ []) (cmd_tt_cmd ∷ cmd_tt_space ∷ cmd_tt_imm ∷ []) cmd_it_w1
    ∷ cmd ("di" ∷ []) (cmd_tt_cmd ∷ []) cmd_it_none
    ∷ cmd ("cp" ∷ " " ∷ "NN" ∷ []) (cmd_tt_cmd ∷ cmd_tt_space ∷ cmd_tt_imm ∷ []) cmd_it_w1
    ∷ cmd ("push" ∷ " " ∷ "psw" ∷ []) (cmd_tt_cmd ∷ cmd_tt_space ∷ cmd_tt_reg ∷ []) cmd_it_none
    ∷ cmd ("ori" ∷ " " ∷ "N" ∷ []) (cmd_tt_cmd ∷ cmd_tt_space ∷ cmd_tt_imm ∷ []) cmd_it_b1
    ∷ cmd ("rst" ∷ " " ∷ "6" ∷ []) (cmd_tt_cmd ∷ cmd_tt_space ∷ cmd_tt_bimm ∷ []) cmd_it_none
    ∷ cmd ("rm" ∷ []) (cmd_tt_cmd ∷ []) cmd_it_none
    ∷ cmd ("sphl" ∷ []) (cmd_tt_cmd ∷ []) cmd_it_none
    ∷ cmd ("jm" ∷ " " ∷ "NN" ∷ []) (cmd_tt_cmd ∷ cmd_tt_space ∷ cmd_tt_imm ∷ []) cmd_it_w1
    ∷ cmd ("ei" ∷ []) (cmd_tt_cmd ∷ []) cmd_it_none
    ∷ cmd ("cm" ∷ " " ∷ "NN" ∷ []) (cmd_tt_cmd ∷ cmd_tt_space ∷ cmd_tt_imm ∷ []) cmd_it_w1
    ∷ cmd_db_n
    ∷ cmd ("cpi" ∷ " " ∷ "NN" ∷ []) (cmd_tt_cmd ∷ cmd_tt_space ∷ cmd_tt_imm ∷ []) cmd_it_b1
    ∷ cmd ("rst" ∷ " " ∷ "7" ∷ []) (cmd_tt_cmd ∷ cmd_tt_space ∷ cmd_tt_bimm ∷ []) cmd_it_none
    ∷ []
