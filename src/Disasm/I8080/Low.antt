-- ===== src/Disasm/I8080/Low.antt =====
-- The commands 0x00 to 0x3F of libs/v6core/include/core/disasm_i8080_cmds.h, sixteen in a row, in the order of the
-- array at the end of that file.
use v6emul.Base.{List, [], ◌∷◌}
use v6emul.Disasm.Cmd.{
  Cmd, cmd, cmd_tt_cmd, cmd_tt_comma_space, cmd_tt_imm, cmd_tt_reg, cmd_tt_space, cmd_it_b1,
  cmd_it_none, cmd_it_w1,
}
use v6emul.Disasm.I8080.Data.{cmd_db_n}

-- 0x00 to 0x0F
abbrev pub i8080_row_00 : List Cmd
i8080_row_00 =
    cmd ("nop" ∷ []) (cmd_tt_cmd ∷ []) cmd_it_none
    ∷ cmd ("lxi" ∷ " " ∷ "b" ∷ ", " ∷ "NN" ∷ [])
        (cmd_tt_cmd ∷ cmd_tt_space ∷ cmd_tt_reg ∷ cmd_tt_comma_space ∷ cmd_tt_imm ∷ []) cmd_it_w1
    ∷ cmd ("stax" ∷ " " ∷ "b" ∷ []) (cmd_tt_cmd ∷ cmd_tt_space ∷ cmd_tt_reg ∷ []) cmd_it_none
    ∷ cmd ("inx" ∷ " " ∷ "b" ∷ []) (cmd_tt_cmd ∷ cmd_tt_space ∷ cmd_tt_reg ∷ []) cmd_it_none
    ∷ cmd ("inr" ∷ " " ∷ "b" ∷ []) (cmd_tt_cmd ∷ cmd_tt_space ∷ cmd_tt_reg ∷ []) cmd_it_none
    ∷ cmd ("dcr" ∷ " " ∷ "b" ∷ []) (cmd_tt_cmd ∷ cmd_tt_space ∷ cmd_tt_reg ∷ []) cmd_it_none
    ∷ cmd ("mvi" ∷ " " ∷ "b" ∷ ", " ∷ "N" ∷ [])
        (cmd_tt_cmd ∷ cmd_tt_space ∷ cmd_tt_reg ∷ cmd_tt_comma_space ∷ cmd_tt_imm ∷ []) cmd_it_b1
    ∷ cmd ("rlc" ∷ []) (cmd_tt_cmd ∷ []) cmd_it_none
    ∷ cmd_db_n
    ∷ cmd ("dad" ∷ " " ∷ "b" ∷ []) (cmd_tt_cmd ∷ cmd_tt_space ∷ cmd_tt_reg ∷ []) cmd_it_none
    ∷ cmd ("ldax" ∷ " " ∷ "b" ∷ []) (cmd_tt_cmd ∷ cmd_tt_space ∷ cmd_tt_reg ∷ []) cmd_it_none
    ∷ cmd ("dcx" ∷ " " ∷ "b" ∷ []) (cmd_tt_cmd ∷ cmd_tt_space ∷ cmd_tt_reg ∷ []) cmd_it_none
    ∷ cmd ("inr" ∷ " " ∷ "c" ∷ []) (cmd_tt_cmd ∷ cmd_tt_space ∷ cmd_tt_reg ∷ []) cmd_it_none
    ∷ cmd ("dcr" ∷ " " ∷ "c" ∷ []) (cmd_tt_cmd ∷ cmd_tt_space ∷ cmd_tt_reg ∷ []) cmd_it_none
    ∷ cmd ("mvi" ∷ " " ∷ "c" ∷ ", " ∷ "N" ∷ [])
        (cmd_tt_cmd ∷ cmd_tt_space ∷ cmd_tt_reg ∷ cmd_tt_comma_space ∷ cmd_tt_imm ∷ []) cmd_it_b1
    ∷ cmd ("rrc" ∷ []) (cmd_tt_cmd ∷ []) cmd_it_none
    ∷ []

-- 0x10 to 0x1F
abbrev pub i8080_row_10 : List Cmd
i8080_row_10 =
    cmd_db_n
    ∷ cmd ("lxi" ∷ " " ∷ "d" ∷ ", " ∷ "NN" ∷ [])
        (cmd_tt_cmd ∷ cmd_tt_space ∷ cmd_tt_reg ∷ cmd_tt_comma_space ∷ cmd_tt_imm ∷ []) cmd_it_w1
    ∷ cmd ("stax" ∷ " " ∷ "d" ∷ []) (cmd_tt_cmd ∷ cmd_tt_space ∷ cmd_tt_reg ∷ []) cmd_it_none
    ∷ cmd ("inx" ∷ " " ∷ "d" ∷ []) (cmd_tt_cmd ∷ cmd_tt_space ∷ cmd_tt_reg ∷ []) cmd_it_none
    ∷ cmd ("inr" ∷ " " ∷ "d" ∷ []) (cmd_tt_cmd ∷ cmd_tt_space ∷ cmd_tt_reg ∷ []) cmd_it_none
    ∷ cmd ("dcr" ∷ " " ∷ "d" ∷ []) (cmd_tt_cmd ∷ cmd_tt_space ∷ cmd_tt_reg ∷ []) cmd_it_none
    ∷ cmd ("mvi" ∷ " " ∷ "d" ∷ ", " ∷ "N" ∷ [])
        (cmd_tt_cmd ∷ cmd_tt_space ∷ cmd_tt_reg ∷ cmd_tt_comma_space ∷ cmd_tt_imm ∷ []) cmd_it_b1
    ∷ cmd ("ral" ∷ []) (cmd_tt_cmd ∷ []) cmd_it_none
    ∷ cmd_db_n
    ∷ cmd ("dad" ∷ " " ∷ "d" ∷ []) (cmd_tt_cmd ∷ cmd_tt_space ∷ cmd_tt_reg ∷ []) cmd_it_none
    ∷ cmd ("ldax" ∷ " " ∷ "d" ∷ []) (cmd_tt_cmd ∷ cmd_tt_space ∷ cmd_tt_reg ∷ []) cmd_it_none
    ∷ cmd ("dcx" ∷ " " ∷ "d" ∷ []) (cmd_tt_cmd ∷ cmd_tt_space ∷ cmd_tt_reg ∷ []) cmd_it_none
    ∷ cmd ("inr" ∷ " " ∷ "e" ∷ []) (cmd_tt_cmd ∷ cmd_tt_space ∷ cmd_tt_reg ∷ []) cmd_it_none
    ∷ cmd ("dcr" ∷ " " ∷ "e" ∷ []) (cmd_tt_cmd ∷ cmd_tt_space ∷ cmd_tt_reg ∷ []) cmd_it_none
    ∷ cmd ("mvi" ∷ " " ∷ "e" ∷ ", " ∷ "N" ∷ [])
        (cmd_tt_cmd ∷ cmd_tt_space ∷ cmd_tt_reg ∷ cmd_tt_comma_space ∷ cmd_tt_imm ∷ []) cmd_it_b1
    ∷ cmd ("rar" ∷ []) (cmd_tt_cmd ∷ []) cmd_it_none
    ∷ []

-- 0x20 to 0x2F
abbrev pub i8080_row_20 : List Cmd
i8080_row_20 =
    cmd_db_n
    ∷ cmd ("lxi" ∷ " " ∷ "h" ∷ ", " ∷ "NN" ∷ [])
        (cmd_tt_cmd ∷ cmd_tt_space ∷ cmd_tt_reg ∷ cmd_tt_comma_space ∷ cmd_tt_imm ∷ []) cmd_it_w1
    ∷ cmd ("shld" ∷ " " ∷ "NN" ∷ []) (cmd_tt_cmd ∷ cmd_tt_space ∷ cmd_tt_imm ∷ []) cmd_it_w1
    ∷ cmd ("inx" ∷ " " ∷ "h" ∷ []) (cmd_tt_cmd ∷ cmd_tt_space ∷ cmd_tt_reg ∷ []) cmd_it_none
    ∷ cmd ("inr" ∷ " " ∷ "h" ∷ []) (cmd_tt_cmd ∷ cmd_tt_space ∷ cmd_tt_reg ∷ []) cmd_it_none
    ∷ cmd ("dcr" ∷ " " ∷ "h" ∷ []) (cmd_tt_cmd ∷ cmd_tt_space ∷ cmd_tt_reg ∷ []) cmd_it_none
    ∷ cmd ("mvi" ∷ " " ∷ "h" ∷ ", " ∷ "N" ∷ [])
        (cmd_tt_cmd ∷ cmd_tt_space ∷ cmd_tt_reg ∷ cmd_tt_comma_space ∷ cmd_tt_imm ∷ []) cmd_it_b1
    ∷ cmd ("daa" ∷ []) (cmd_tt_cmd ∷ []) cmd_it_none
    ∷ cmd_db_n
    ∷ cmd ("dad" ∷ " " ∷ "h" ∷ []) (cmd_tt_cmd ∷ cmd_tt_space ∷ cmd_tt_reg ∷ []) cmd_it_none
    ∷ cmd ("lhld" ∷ " " ∷ "NN" ∷ []) (cmd_tt_cmd ∷ cmd_tt_space ∷ cmd_tt_imm ∷ []) cmd_it_w1
    ∷ cmd ("dcx" ∷ " " ∷ "h" ∷ []) (cmd_tt_cmd ∷ cmd_tt_space ∷ cmd_tt_reg ∷ []) cmd_it_none
    ∷ cmd ("inr" ∷ " " ∷ "l" ∷ []) (cmd_tt_cmd ∷ cmd_tt_space ∷ cmd_tt_reg ∷ []) cmd_it_none
    ∷ cmd ("dcr" ∷ " " ∷ "l" ∷ []) (cmd_tt_cmd ∷ cmd_tt_space ∷ cmd_tt_reg ∷ []) cmd_it_none
    ∷ cmd ("mvi" ∷ " " ∷ "l" ∷ ", " ∷ "N" ∷ [])
        (cmd_tt_cmd ∷ cmd_tt_space ∷ cmd_tt_reg ∷ cmd_tt_comma_space ∷ cmd_tt_imm ∷ []) cmd_it_b1
    ∷ cmd ("cma" ∷ []) (cmd_tt_cmd ∷ []) cmd_it_none
    ∷ []

-- 0x30 to 0x3F
abbrev pub i8080_row_30 : List Cmd
i8080_row_30 =
    cmd_db_n
    ∷ cmd ("lxi" ∷ " " ∷ "sp" ∷ ", " ∷ "NN" ∷ [])
        (cmd_tt_cmd ∷ cmd_tt_space ∷ cmd_tt_reg ∷ cmd_tt_comma_space ∷ cmd_tt_imm ∷ []) cmd_it_w1
    ∷ cmd ("sta" ∷ " " ∷ "NN" ∷ []) (cmd_tt_cmd ∷ cmd_tt_space ∷ cmd_tt_imm ∷ []) cmd_it_w1
    ∷ cmd ("inx" ∷ " " ∷ "sp" ∷ []) (cmd_tt_cmd ∷ cmd_tt_space ∷ cmd_tt_reg ∷ []) cmd_it_none
    ∷ cmd ("inr" ∷ " " ∷ "m" ∷ []) (cmd_tt_cmd ∷ cmd_tt_space ∷ cmd_tt_reg ∷ []) cmd_it_none
    ∷ cmd ("dcr" ∷ " " ∷ "m" ∷ []) (cmd_tt_cmd ∷ cmd_tt_space ∷ cmd_tt_reg ∷ []) cmd_it_none
    ∷ cmd ("mvi" ∷ " " ∷ "m" ∷ ", " ∷ "N" ∷ [])
        (cmd_tt_cmd ∷ cmd_tt_space ∷ cmd_tt_reg ∷ cmd_tt_comma_space ∷ cmd_tt_imm ∷ []) cmd_it_b1
    ∷ cmd ("stc" ∷ []) (cmd_tt_cmd ∷ []) cmd_it_none
    ∷ cmd_db_n
    ∷ cmd ("dad" ∷ " " ∷ "sp" ∷ []) (cmd_tt_cmd ∷ cmd_tt_space ∷ cmd_tt_reg ∷ []) cmd_it_none
    ∷ cmd ("lda" ∷ " " ∷ "NN" ∷ []) (cmd_tt_cmd ∷ cmd_tt_space ∷ cmd_tt_imm ∷ []) cmd_it_w1
    ∷ cmd ("dcx" ∷ " " ∷ "sp" ∷ []) (cmd_tt_cmd ∷ cmd_tt_space ∷ cmd_tt_reg ∷ []) cmd_it_none
    ∷ cmd ("inr" ∷ " " ∷ "a" ∷ []) (cmd_tt_cmd ∷ cmd_tt_space ∷ cmd_tt_reg ∷ []) cmd_it_none
    ∷ cmd ("dcr" ∷ " " ∷ "a" ∷ []) (cmd_tt_cmd ∷ cmd_tt_space ∷ cmd_tt_reg ∷ []) cmd_it_none
    ∷ cmd ("mvi" ∷ " " ∷ "a" ∷ ", " ∷ "N" ∷ [])
        (cmd_tt_cmd ∷ cmd_tt_space ∷ cmd_tt_reg ∷ cmd_tt_comma_space ∷ cmd_tt_imm ∷ []) cmd_it_b1
    ∷ cmd ("cmc" ∷ []) (cmd_tt_cmd ∷ []) cmd_it_none
    ∷ []
