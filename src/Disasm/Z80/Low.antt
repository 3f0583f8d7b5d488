-- ===== src/Disasm/Z80/Low.antt =====
-- The commands 0x00 to 0x3F of libs/v6core/include/core/disasm_z80_cmds.h, sixteen in a row, in the order of the
-- array at the end of that file.
use v6emul.Base.{List, [], ◌∷◌}
use v6emul.Disasm.Cmd.{
  Cmd, cmd, cmd_tt_cmd, cmd_tt_comma_space, cmd_tt_imm, cmd_tt_lparen, cmd_tt_reg, cmd_tt_rparen,
  cmd_tt_space, cmd_it_b1, cmd_it_none, cmd_it_w1,
}
use v6emul.Disasm.Z80.Data.{z80_cmd_db_n}

-- 0x00 to 0x0F
abbrev pub z80_row_00 : List Cmd
z80_row_00 =
    cmd ("nop" ∷ []) (cmd_tt_cmd ∷ []) cmd_it_none
    ∷ cmd ("ld" ∷ " " ∷ "bc" ∷ ", " ∷ [])
        (cmd_tt_cmd ∷ cmd_tt_space ∷ cmd_tt_reg ∷ cmd_tt_comma_space ∷ cmd_tt_imm ∷ []) cmd_it_w1
    ∷ cmd ("ld" ∷ " " ∷ "(" ∷ "bc" ∷ ")" ∷ ", " ∷ "a" ∷ [])
        (cmd_tt_cmd ∷ cmd_tt_space ∷ cmd_tt_lparen ∷ cmd_tt_reg ∷ cmd_tt_rparen ∷ cmd_tt_comma_space
          ∷ cmd_tt_reg ∷ [])
        cmd_it_none
    ∷ cmd ("inc" ∷ " " ∷ "bc" ∷ []) (cmd_tt_cmd ∷ cmd_tt_space ∷ cmd_tt_reg ∷ []) cmd_it_none
    ∷ cmd ("inc" ∷ " " ∷ "b" ∷ []) (cmd_tt_cmd ∷ cmd_tt_space ∷ cmd_tt_reg ∷ []) cmd_it_none
    ∷ cmd ("dec" ∷ " " ∷ "b" ∷ []) (cmd_tt_cmd ∷ cmd_tt_space ∷ cmd_tt_reg ∷ []) cmd_it_none
    ∷ cmd ("ld" ∷ " " ∷ "b" ∷ ", " ∷ [])
        (cmd_tt_cmd ∷ cmd_tt_space ∷ cmd_tt_reg ∷ cmd_tt_comma_space ∷ cmd_tt_imm ∷ []) cmd_it_b1
    ∷ cmd ("rlca" ∷ []) (cmd_tt_cmd ∷ []) cmd_it_none
    ∷ z80_cmd_db_n
    ∷ cmd ("add" ∷ " " ∷ "hl" ∷ ", " ∷ "bc" ∷ [])
        (cmd_tt_cmd ∷ cmd_tt_space ∷ cmd_tt_reg ∷ cmd_tt_comma_space ∷ cmd_tt_reg ∷ []) cmd_it_none
    ∷ cmd ("ld" ∷ " " ∷ "a" ∷ ", " ∷ "(" ∷ "bc" ∷ ")" ∷ [])
        (cmd_tt_cmd ∷ cmd_tt_space ∷ cmd_tt_reg ∷ cmd_tt_comma_space ∷ cmd_tt_lparen ∷ cmd_tt_reg
          ∷ cmd_tt_rparen ∷ [])
        cmd_it_none
    ∷ cmd ("dec" ∷ " " ∷ "bc" ∷ []) (cmd_tt_cmd ∷ cmd_tt_space ∷ cmd_tt_reg ∷ []) cmd_it_none
    ∷ cmd ("inc" ∷ " " ∷ "c" ∷ []) (cmd_tt_cmd ∷ cmd_tt_space ∷ cmd_tt_reg ∷ []) cmd_it_none
    ∷ cmd ("dec" ∷ " " ∷ "c" ∷ []) (cmd_tt_cmd ∷ cmd_tt_space ∷ cmd_tt_reg ∷ []) cmd_it_none
    ∷ cmd ("ld" ∷ " " ∷ "c" ∷ ", " ∷ [])
        (cmd_tt_cmd ∷ cmd_tt_space ∷ cmd_tt_reg ∷ cmd_tt_comma_space ∷ cmd_tt_imm ∷ []) cmd_it_b1
    ∷ cmd ("rrca" ∷ []) (cmd_tt_cmd ∷ []) cmd_it_none
    ∷ []

-- 0x10 to 0x1F
abbrev pub z80_row_10 : List Cmd
z80_row_10 =
    z80_cmd_db_n
    ∷ cmd ("ld" ∷ " " ∷ "de" ∷ ", " ∷ [])
        (cmd_tt_cmd ∷ cmd_tt_space ∷ cmd_tt_reg ∷ cmd_tt_comma_space ∷ cmd_tt_imm ∷ []) cmd_it_w1
    ∷ cmd ("ld" ∷ " " ∷ "(" ∷ "de" ∷ ")" ∷ ", " ∷ "a" ∷ [])
        (cmd_tt_cmd ∷ cmd_tt_space ∷ cmd_tt_lparen ∷ cmd_tt_reg ∷ cmd_tt_rparen ∷ cmd_tt_comma_space
          ∷ cmd_tt_reg ∷ [])
        cmd_it_none
    ∷ cmd ("inc" ∷ " " ∷ "de" ∷ []) (cmd_tt_cmd ∷ cmd_tt_space ∷ cmd_tt_reg ∷ []) cmd_it_none
    ∷ cmd ("inc" ∷ " " ∷ "d" ∷ []) (cmd_tt_cmd ∷ cmd_tt_space ∷ cmd_tt_reg ∷ []) cmd_it_none
    ∷ cmd ("dec" ∷ " " ∷ "d" ∷ []) (cmd_tt_cmd ∷ cmd_tt_space ∷ cmd_tt_reg ∷ []) cmd_it_none
    ∷ cmd ("ld" ∷ " " ∷ "d" ∷ ", " ∷ [])
        (cmd_tt_cmd ∷ cmd_tt_space ∷ cmd_tt_reg ∷ cmd_tt_comma_space ∷ cmd_tt_imm ∷ []) cmd_it_b1
    ∷ cmd ("rla" ∷ []) (cmd_tt_cmd ∷ []) cmd_it_none
    ∷ z80_cmd_db_n
    ∷ cmd ("add" ∷ " " ∷ "hl" ∷ ", " ∷ "de" ∷ [])
        (cmd_tt_cmd ∷ cmd_tt_space ∷ cmd_tt_reg ∷ cmd_tt_comma_space ∷ cmd_tt_reg ∷ []) cmd_it_none
    ∷ cmd ("ld" ∷ " " ∷ "a" ∷ ", " ∷ "(" ∷ "de" ∷ ")" ∷ [])
        (cmd_tt_cmd ∷ cmd_tt_space ∷ cmd_tt_reg ∷ cmd_tt_comma_space ∷ cmd_tt_lparen ∷ cmd_tt_reg
          ∷ cmd_tt_rparen ∷ [])
        cmd_it_none
    ∷ cmd ("dec" ∷ " " ∷ "de" ∷ []) (cmd_tt_cmd ∷ cmd_tt_space ∷ cmd_tt_reg ∷ []) cmd_it_none
    ∷ cmd ("inc" ∷ " " ∷ "e" ∷ []) (cmd_tt_cmd ∷ cmd_tt_space ∷ cmd_tt_reg ∷ []) cmd_it_none
    ∷ cmd ("dec" ∷ " " ∷ "e" ∷ []) (cmd_tt_cmd ∷ cmd_tt_space ∷ cmd_tt_reg ∷ []) cmd_it_none
    ∷ cmd ("ld" ∷ " " ∷ "e" ∷ ", " ∷ [])
        (cmd_tt_cmd ∷ cmd_tt_space ∷ cmd_tt_reg ∷ cmd_tt_comma_space ∷ cmd_tt_imm ∷ []) cmd_it_b1
    ∷ cmd ("rra" ∷ []) (cmd_tt_cmd ∷ []) cmd_it_none
    ∷ []

-- 0x20 to 0x2F
abbrev pub z80_row_20 : List Cmd
z80_row_20 =
    z80_cmd_db_n
    ∷ cmd ("ld" ∷ " " ∷ "hl" ∷ ", " ∷ [])
        (cmd_tt_cmd ∷ cmd_tt_space ∷ cmd_tt_reg ∷ cmd_tt_comma_space ∷ cmd_tt_imm ∷ []) cmd_it_w1
    ∷ cmd ("ld" ∷ " " ∷ "(" ∷ "NN" ∷ ")" ∷ ", " ∷ "hl" ∷ [])
        (cmd_tt_cmd ∷ cmd_tt_space ∷ cmd_tt_lparen ∷ cmd_tt_imm ∷ cmd_tt_rparen ∷ cmd_tt_comma_space
          ∷ cmd_tt_reg ∷ [])
        cmd_it_w1
    ∷ cmd ("inc" ∷ " " ∷ "hl" ∷ []) (cmd_tt_cmd ∷ cmd_tt_space ∷ cmd_tt_reg ∷ []) cmd_it_none
    ∷ cmd ("inc" ∷ " " ∷ "h" ∷ []) (cmd_tt_cmd ∷ cmd_tt_space ∷ cmd_tt_reg ∷ []) cmd_it_none
    ∷ cmd ("dec" ∷ " " ∷ "h" ∷ []) (cmd_tt_cmd ∷ cmd_tt_space ∷ cmd_tt_reg ∷ []) cmd_it_none
    ∷ cmd ("ld" ∷ " " ∷ "h" ∷ ", " ∷ [])
        (cmd_tt_cmd ∷ cmd_tt_space ∷ cmd_tt_reg ∷ cmd_tt_comma_space ∷ cmd_tt_imm ∷ []) cmd_it_b1
    ∷ cmd ("daa" ∷ []) (cmd_tt_cmd ∷ []) cmd_it_none
    ∷ z80_cmd_db_n
    ∷ cmd ("add" ∷ " " ∷ "hl" ∷ ", " ∷ "hl" ∷ [])
        (cmd_tt_cmd ∷ cmd_tt_space ∷ cmd_tt_reg ∷ cmd_tt_comma_space ∷ cmd_tt_reg ∷ []) cmd_it_none
    ∷ cmd ("ld" ∷ " " ∷ "hl" ∷ ", " ∷ "(" ∷ "NN" ∷ ")" ∷ [])
        (cmd_tt_cmd ∷ cmd_tt_space ∷ cmd_tt_reg ∷ cmd_tt_comma_space ∷ cmd_tt_lparen ∷ cmd_tt_imm
          ∷ cmd_tt_rparen ∷ [])
        cmd_it_w1
    ∷ cmd ("dec" ∷ " " ∷ "hl" ∷ []) (cmd_tt_cmd ∷ cmd_tt_space ∷ cmd_tt_reg ∷ []) cmd_it_none
    ∷ cmd ("inc" ∷ " " ∷ "l" ∷ []) (cmd_tt_cmd ∷ cmd_tt_space ∷ cmd_tt_reg ∷ []) cmd_it_none
    ∷ cmd ("dec" ∷ " " ∷ "l" ∷ []) (cmd_tt_cmd ∷ cmd_tt_space ∷ cmd_tt_reg ∷ []) cmd_it_none
    ∷ cmd ("ld" ∷ " " ∷ "l" ∷ ", " ∷ "N" ∷ [])
        (cmd_tt_cmd ∷ cmd_tt_space ∷ cmd_tt_reg ∷ cmd_tt_comma_space ∷ cmd_tt_imm ∷ []) cmd_it_b1
    ∷ cmd ("cpl" ∷ []) (cmd_tt_cmd ∷ []) cmd_it_none
    ∷ []

-- 0x30 to 0x3F
abbrev pub z80_row_30 : List Cmd
z80_row_30 =
    z80_cmd_db_n
    ∷ cmd ("ld" ∷ " " ∷ "sp" ∷ ", " ∷ "NN" ∷ [])
        (cmd_tt_cmd ∷ cmd_tt_space ∷ cmd_tt_reg ∷ cmd_tt_comma_space ∷ cmd_tt_imm ∷ []) cmd_it_w1
    ∷ cmd ("ld" ∷ " " ∷ "(" ∷ "NN" ∷ ")" ∷ ", " ∷ "a" ∷ [])
        (cmd_tt_cmd ∷ cmd_tt_space ∷ cmd_tt_lparen ∷ cmd_tt_imm ∷ cmd_tt_rparen ∷ cmd_tt_comma_space
          ∷ cmd_tt_reg ∷ [])
        cmd_it_w1
    ∷ cmd ("inc" ∷ " " ∷ "sp" ∷ []) (cmd_tt_cmd ∷ cmd_tt_space ∷ cmd_tt_reg ∷ []) cmd_it_none
    ∷ cmd ("inc" ∷ " " ∷ "(" ∷ "hl" ∷ ")" ∷ [])
        (cmd_tt_cmd ∷ cmd_tt_space ∷ cmd_tt_lparen ∷ cmd_tt_reg ∷ cmd_tt_rparen ∷ []) cmd_it_none
    ∷ cmd ("dec" ∷ " " ∷ "(" ∷ "hl" ∷ ")" ∷ [])
        (cmd_tt_cmd ∷ cmd_tt_space ∷ cmd_tt_lparen ∷ cmd_tt_reg ∷ cmd_tt_rparen ∷ []) cmd_it_none
    ∷ cmd ("ld" ∷ " " ∷ "(" ∷ "hl" ∷ ")" ∷ ", " ∷ [])
        (cmd_tt_cmd ∷ cmd_tt_space ∷ cmd_tt_lparen ∷ cmd_tt_reg ∷ cmd_tt_rparen ∷ cmd_tt_comma_space
          ∷ cmd_tt_imm ∷ [])
        cmd_it_b1
    ∷ cmd ("scf" ∷ []) (cmd_tt_cmd ∷ []) cmd_it_none
    ∷ z80_cmd_db_n
    ∷ cmd ("add" ∷ " " ∷ "hl" ∷ ", " ∷ "sp" ∷ [])
        (cmd_tt_cmd ∷ cmd_tt_space ∷ cmd_tt_reg ∷ cmd_tt_comma_space ∷ cmd_tt_reg ∷ []) cmd_it_none
    ∷ cmd ("ld" ∷ " " ∷ "a" ∷ ", " ∷ "(" ∷ "NN" ∷ ")" ∷ [])
        (cmd_tt_cmd ∷ cmd_tt_space ∷ cmd_tt_reg ∷ cmd_tt_comma_space ∷ cmd_tt_lparen ∷ cmd_tt_imm
          ∷ cmd_tt_rparen ∷ [])
        cmd_it_w1
    ∷ cmd ("dec" ∷ " " ∷ "sp" ∷ []) (cmd_tt_cmd ∷ cmd_tt_space ∷ cmd_tt_reg ∷ []) cmd_it_none
    ∷ cmd ("inc" ∷ " " ∷ "a" ∷ []) (cmd_tt_cmd ∷ cmd_tt_space ∷ cmd_tt_reg ∷ []) cmd_it_none
    ∷ cmd ("dec" ∷ " " ∷ "a" ∷ []) (cmd_tt_cmd ∷ cmd_tt_space ∷ cmd_tt_reg ∷ []) cmd_it_none
    ∷ cmd ("ld" ∷ " " ∷ "a" ∷ ", " ∷ [])
        (cmd_tt_cmd ∷ cmd_tt_space ∷ cmd_tt_reg ∷ cmd_tt_comma_space ∷ cmd_tt_imm ∷ []) cmd_it_b1
    ∷ cmd ("ccf" ∷ []) (cmd_tt_cmd ∷ []) cmd_it_none
    ∷ []
