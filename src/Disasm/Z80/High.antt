-- ===== src/Disasm/Z80/High.antt =====
-- The commands 0xC0 to 0xFF of libs/v6core/include/core/disasm_z80_cmds.h, sixteen in a row, in the order of the
-- array at the end of that file.
use v6emul.Base.{List, [], ◌∷◌}
use v6emul.Disasm.Cmd.{
  Cmd, cmd, cmd_tt_bimm, cmd_tt_cmd, cmd_tt_comma, cmd_tt_comma_space, cmd_tt_imm, cmd_tt_lparen,
  cmd_tt_reg, cmd_tt_rparen, cmd_tt_space, cmd_it_b1, cmd_it_none, cmd_it_w1,
}
use v6emul.Disasm.Z80.Data.{z80_cmd_db_n}

-- 0xC0 to 0xCF
abbrev pub z80_row_c0 : List Cmd
z80_row_c0 =
    cmd ("ret" ∷ " " ∷ "nz" ∷ []) (cmd_tt_cmd ∷ cmd_tt_space ∷ cmd_tt_reg ∷ []) cmd_it_none
    ∷ cmd ("pop" ∷ " " ∷ "bc" ∷ []) (cmd_tt_cmd ∷ cmd_tt_space ∷ cmd_tt_reg ∷ []) cmd_it_none
    ∷ cmd ("jp" ∷ " " ∷ "nz" ∷ ", " ∷ "NN" ∷ [])
        (cmd_tt_cmd ∷ cmd_tt_space ∷ cmd_tt_reg ∷ cmd_tt_comma ∷ cmd_tt_imm ∷ []) cmd_it_w1
    ∷ cmd ("jp" ∷ " " ∷ "NN" ∷ []) (cmd_tt_cmd ∷ cmd_tt_space ∷ cmd_tt_imm ∷ []) cmd_it_w1
    ∷ cmd ("call" ∷ " " ∷ "nz" ∷ ", " ∷ "NN" ∷ [])
        (cmd_tt_cmd ∷ cmd_tt_space ∷ cmd_tt_reg ∷ cmd_tt_comma_space ∷ cmd_tt_imm ∷ []) cmd_it_w1
    ∷ cmd ("push" ∷ " " ∷ "bc" ∷ []) (cmd_tt_cmd ∷ cmd_tt_space ∷ cmd_tt_reg ∷ []) cmd_it_none
    ∷ cmd ("add" ∷ " " ∷ "a" ∷ ", " ∷ "N" ∷ [])
        (cmd_tt_cmd ∷ cmd_tt_space ∷ cmd_tt_reg ∷ cmd_tt_comma ∷ cmd_tt_imm ∷ []) cmd_it_b1
    ∷ cmd ("rst" ∷ " " ∷ "0" ∷ []) (cmd_tt_cmd ∷ cmd_tt_space ∷ cmd_tt_bimm ∷ []) cmd_it_none
    ∷ cmd ("ret" ∷ " " ∷ "z" ∷ []) (cmd_tt_cmd ∷ cmd_tt_space ∷ cmd_tt_reg ∷ []) cmd_it_none
    ∷ cmd ("ret" ∷ []) (cmd_tt_cmd ∷ []) cmd_it_none
    ∷ cmd ("jp" ∷ " " ∷ "z" ∷ " " ∷ "NN" ∷ [])
        (cmd_tt_cmd ∷ cmd_tt_space ∷ cmd_tt_reg ∷ cmd_tt_comma_space ∷ cmd_tt_imm ∷ []) cmd_it_w1
    ∷ z80_cmd_db_n
    ∷ cmd ("call" ∷ " " ∷ "z" ∷ ", " ∷ "NN" ∷ [])
        (cmd_tt_cmd ∷ cmd_tt_space ∷ cmd_tt_reg ∷ cmd_tt_comma ∷ cmd_tt_imm ∷ []) cmd_it_w1
    ∷ cmd ("call" ∷ " " ∷ "NN" ∷ []) (cmd_tt_cmd ∷ cmd_tt_space ∷ cmd_tt_imm ∷ []) cmd_it_w1
    ∷ cmd ("adc" ∷ " " ∷ "a" ∷ ", " ∷ "N" ∷ [])
        (cmd_tt_cmd ∷ cmd_tt_space ∷ cmd_tt_reg ∷ cmd_tt_comma_space ∷ cmd_tt_imm ∷ []) cmd_it_b1
    ∷ cmd ("rst" ∷ " " ∷ "8" ∷ []) (cmd_tt_cmd ∷ cmd_tt_space ∷ cmd_tt_bimm ∷ []) cmd_it_none
    ∷ []

-- 0xD0 to 0xDF
abbrev pub z80_row_d0 : List Cmd
z80_row_d0 =
    cmd ("ret" ∷ " " ∷ "nc" ∷ []) (cmd_tt_cmd ∷ cmd_tt_space ∷ cmd_tt_reg ∷ []) cmd_it_none
    ∷ cmd ("pop" ∷ " " ∷ "de" ∷ []) (cmd_tt_cmd ∷ cmd_tt_space ∷ cmd_tt_reg ∷ []) cmd_it_none
    ∷ cmd ("jp" ∷ " " ∷ "nc" ∷ ", " ∷ "NN" ∷ [])
        (cmd_tt_cmd ∷ cmd_tt_space ∷ cmd_tt_reg ∷ cmd_tt_comma_space ∷ cmd_tt_imm ∷ []) cmd_it_w1
    ∷ cmd ("out" ∷ " " ∷ "(" ∷ "N" ∷ ")" ∷ ", " ∷ "a" ∷ [])
        (cmd_tt_cmd ∷ cmd_tt_space ∷ cmd_tt_lparen ∷ cmd_tt_imm ∷ cmd_tt_rparen ∷ cmd_tt_comma_space
          ∷ cmd_tt_reg ∷ [])
        cmd_it_b1
    ∷ cmd ("call" ∷ " " ∷ "nc" ∷ ", " ∷ "NN" ∷ [])
        (cmd_tt_cmd ∷ cmd_tt_space ∷ cmd_tt_reg ∷ cmd_tt_comma_space ∷ cmd_tt_imm ∷ []) cmd_it_w1
    ∷ cmd ("push" ∷ " " ∷ "de" ∷ []) (cmd_tt_cmd ∷ cmd_tt_space ∷ cmd_tt_reg ∷ []) cmd_it_none
    ∷ cmd ("sub" ∷ " " ∷ "N" ∷ []) (cmd_tt_cmd ∷ cmd_tt_space ∷ cmd_tt_imm ∷ []) cmd_it_b1
    ∷ cmd ("rst" ∷ " " ∷ "10h" ∷ []) (cmd_tt_cmd ∷ cmd_tt_space ∷ cmd_tt_bimm ∷ []) cmd_it_none
    ∷ cmd ("ret" ∷ " " ∷ "c" ∷ []) (cmd_tt_cmd ∷ cmd_tt_space ∷ cmd_tt_reg ∷ []) cmd_it_none
    ∷ z80_cmd_db_n
    ∷ cmd ("jp" ∷ " " ∷ "c" ∷ ", " ∷ "NN" ∷ [])
        (cmd_tt_cmd ∷ cmd_tt_space ∷ cmd_tt_reg ∷ cmd_tt_comma_space ∷ cmd_tt_imm ∷ []) cmd_it_w1
    ∷ cmd ("in" ∷ " " ∷ "a" ∷ ", " ∷ "(" ∷ "N" ∷ ")" ∷ [])
        (cmd_tt_cmd ∷ cmd_tt_space ∷ cmd_tt_reg ∷ cmd_tt_comma_space ∷ cmd_tt_lparen ∷ cmd_tt_imm
          ∷ cmd_tt_rparen ∷ [])
        cmd_it_b1
    ∷ cmd ("call" ∷ " " ∷ "c" ∷ ", " ∷ "NN" ∷ [])
        (cmd_tt_cmd ∷ cmd_tt_space ∷ cmd_tt_reg ∷ cmd_tt_comma_space ∷ cmd_tt_imm ∷ []) cmd_it_w1
    ∷ z80_cmd_db_n
    ∷ cmd ("sbc" ∷ " " ∷ "N" ∷ []) (cmd_tt_cmd ∷ cmd_tt_space ∷ cmd_tt_imm ∷ []) cmd_it_b1
    ∷ cmd ("rst" ∷ " " ∷ "20h" ∷ []) (cmd_tt_cmd ∷ cmd_tt_space ∷ cmd_tt_bimm ∷ []) cmd_it_none
    ∷ []

-- 0xE0 to 0xEF
abbrev pub z80_row_e0 : List Cmd
z80_row_e0 =
    cmd ("ret" ∷ " " ∷ "po" ∷ []) (cmd_tt_cmd ∷ cmd_tt_space ∷ cmd_tt_reg ∷ []) cmd_it_none
    ∷ cmd ("pop" ∷ " " ∷ "hl" ∷ []) (cmd_tt_cmd ∷ cmd_tt_space ∷ cmd_tt_reg ∷ []) cmd_it_none
    ∷ cmd ("jp" ∷ " " ∷ "po" ∷ ", " ∷ "NN" ∷ [])
        (cmd_tt_cmd ∷ cmd_tt_space ∷ cmd_tt_reg ∷ cmd_tt_comma_space ∷ cmd_tt_imm ∷ []) cmd_it_w1
    ∷ cmd ("ex" ∷ " " ∷ "(" ∷ "sp" ∷ ")" ∷ ", " ∷ "hl" ∷ [])
        (cmd_tt_cmd ∷ cmd_tt_space ∷ cmd_tt_lparen ∷ cmd_tt_reg ∷ cmd_tt_rparen ∷ cmd_tt_comma_space
          ∷ cmd_tt_reg ∷ [])
        cmd_it_none
    ∷ cmd ("call" ∷ " " ∷ "po" ∷ ", " ∷ "NN" ∷ [])
        (cmd_tt_cmd ∷ cmd_tt_space ∷ cmd_tt_reg ∷ cmd_tt_comma_space ∷ cmd_tt_imm ∷ []) cmd_it_w1
    ∷ cmd ("push" ∷ " " ∷ "hl" ∷ []) (cmd_tt_cmd ∷ cmd_tt_space ∷ cmd_tt_reg ∷ []) cmd_it_none
    ∷ cmd ("and" ∷ " " ∷ "N" ∷ []) (cmd_tt_cmd ∷ cmd_tt_space ∷ cmd_tt_imm ∷ []) cmd_it_b1
    ∷ cmd ("rst" ∷ " " ∷ "20h" ∷ []) (cmd_tt_cmd ∷ cmd_tt_space ∷ cmd_tt_bimm ∷ []) cmd_it_none
    ∷ cmd ("ret" ∷ " " ∷ "pe" ∷ []) (cmd_tt_cmd ∷ cmd_tt_space ∷ cmd_tt_reg ∷ []) cmd_it_none
    ∷ cmd ("jp" ∷ " " ∷ "(" ∷ "hl" ∷ ")" ∷ [])
        (cmd_tt_cmd ∷ cmd_tt_space ∷ cmd_tt_lparen ∷ cmd_tt_reg ∷ cmd_tt_rparen ∷ []) cmd_it_none
    ∷ cmd ("jp" ∷ " " ∷ "pe" ∷ ", " ∷ "NN" ∷ [])
        (cmd_tt_cmd ∷ cmd_tt_space ∷ cmd_tt_reg ∷ cmd_tt_comma_space ∷ cmd_tt_imm ∷ []) cmd_it_w1
    ∷ cmd ("ex" ∷ " " ∷ "de" ∷ ", " ∷ "hl" ∷ [])
        (cmd_tt_cmd ∷ cmd_tt_space ∷ cmd_tt_reg ∷ cmd_tt_comma_space ∷ cmd_tt_reg ∷ []) cmd_it_none
    ∷ cmd ("call" ∷ " " ∷ "pe" ∷ ", " ∷ "NN" ∷ [])
        (cmd_tt_cmd ∷ cmd_tt_space ∷ cmd_tt_reg ∷ cmd_tt_comma_space ∷ cmd_tt_imm ∷ []) cmd_it_w1
    ∷ z80_cmd_db_n
    ∷ cmd ("xor" ∷ " " ∷ "N" ∷ []) (cmd_tt_cmd ∷ cmd_tt_space ∷ cmd_tt_imm ∷ []) cmd_it_b1
    ∷ cmd ("rst" ∷ " " ∷ "28h" ∷ []) (cmd_tt_cmd ∷ cmd_tt_space ∷ cmd_tt_bimm ∷ []) cmd_it_none
    ∷ []

-- 0xF0 to 0xFF
abbrev pub z80_row_f0 : List Cmd
z80_row_f0 =
    cmd ("ret" ∷ " " ∷ "p" ∷ []) (cmd_tt_cmd ∷ cmd_tt_space ∷ cmd_tt_reg ∷ []) cmd_it_none
    ∷ cmd ("pop" ∷ " " ∷ "psw" ∷ []) (cmd_tt_cmd ∷ cmd_tt_space ∷ cmd_tt_reg ∷ []) cmd_it_none
    ∷ cmd ("jp" ∷ " " ∷ "p" ∷ ", " ∷ "NN" ∷ [])
        (cmd_tt_cmd ∷ cmd_tt_space ∷ cmd_tt_reg ∷ cmd_tt_comma_space ∷ cmd_tt_imm ∷ []) cmd_it_w1
    ∷ cmd ("di" ∷ []) (cmd_tt_cmd ∷ []) cmd_it_none
    ∷ cmd ("call" ∷ " " ∷ "p" ∷ ", " ∷ "NN" ∷ [])
        (cmd_tt_cmd ∷ cmd_tt_space ∷ cmd_tt_reg ∷ cmd_tt_comma_space ∷ cmd_tt_imm ∷ []) cmd_it_w1
    ∷ cmd ("push" ∷ " " ∷ "psw" ∷ []) (cmd_tt_cmd ∷ cmd_tt_space ∷ cmd_tt_reg ∷ []) cmd_it_none
    ∷ cmd ("ora" ∷ " " ∷ "N" ∷ []) (cmd_tt_cmd ∷ cmd_tt_space ∷ cmd_tt_imm ∷ []) cmd_it_b1
    ∷ cmd ("rst" ∷ " " ∷ "30h" ∷ []) (cmd_tt_cmd ∷ cmd_tt_space ∷ cmd_tt_bimm ∷ []) cmd_it_none
    ∷ cmd ("ret" ∷ " " ∷ "m" ∷ []) (cmd_tt_cmd ∷ cmd_tt_space ∷ cmd_tt_reg ∷ []) cmd_it_none
    ∷ cmd ("ld" ∷ " " ∷ "sp" ∷ ", " ∷ "hl" ∷ [])
        (cmd_tt_cmd ∷ cmd_tt_space ∷ cmd_tt_reg ∷ cmd_tt_comma_space ∷ cmd_tt_reg ∷ []) cmd_it_none
    ∷ cmd ("jp" ∷ " " ∷ "m" ∷ ", " ∷ "NN" ∷ [])
        (cmd_tt_cmd ∷ cmd_tt_space ∷ cmd_tt_reg ∷ cmd_tt_comma_space ∷ cmd_tt_imm ∷ []) cmd_it_w1
    ∷ cmd ("ei" ∷ []) (cmd_tt_cmd ∷ []) cmd_it_none
    ∷ cmd ("call" ∷ " " ∷ "m" ∷ ", " ∷ "NN" ∷ [])
        (cmd_tt_cmd ∷ cmd_tt_space ∷ cmd_tt_reg ∷ cmd_tt_comma_space ∷ cmd_tt_imm ∷ []) cmd_it_w1
    ∷ z80_cmd_db_n
    ∷ cmd ("cp" ∷ " " ∷ "N" ∷ []) (cmd_tt_cmd ∷ cmd_tt_space ∷ cmd_tt_imm ∷ []) cmd_it_b1
    ∷ cmd ("rst" ∷ " " ∷ "38h" ∷ []) (cmd_tt_cmd ∷ cmd_tt_space ∷ cmd_tt_bimm ∷ []) cmd_it_none
    ∷ []
