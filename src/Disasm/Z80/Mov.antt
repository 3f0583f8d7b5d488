-- ===== src/Disasm/Z80/Mov.antt =====
-- The commands 0x40 to 0x7F of libs/v6core/include/core/disasm_z80_cmds.h, sixteen in a row, in the order of the
-- array at the end of that file.
use v6emul.Base.{List, [], ◌∷◌}
use v6emul.Disasm.Cmd.{
  Cmd, cmd, cmd_tt_cmd, cmd_tt_comma_space, cmd_tt_lparen, cmd_tt_reg, cmd_tt_rparen, cmd_tt_space,
  cmd_it_none,
}

-- 0x40 to 0x4F
abbrev pub z80_row_40 : List Cmd
z80_row_40 =
    cmd ("ld" ∷ " " ∷ "b" ∷ ", " ∷ "b" ∷ [])
      (cmd_tt_cmd ∷ cmd_tt_space ∷ cmd_tt_reg ∷ cmd_tt_comma_space ∷ cmd_tt_reg ∷ []) cmd_it_none
    ∷ cmd ("ld" ∷ " " ∷ "b" ∷ ", " ∷ "c" ∷ [])
        (cmd_tt_cmd ∷ cmd_tt_space ∷ cmd_tt_reg ∷ cmd_tt_comma_space ∷ cmd_tt_reg ∷ []) cmd_it_none
    ∷ cmd ("ld" ∷ " " ∷ "b" ∷ ", " ∷ "d" ∷ [])
        (cmd_tt_cmd ∷ cmd_tt_space ∷ cmd_tt_reg ∷ cmd_tt_comma_space ∷ cmd_tt_reg ∷ []) cmd_it_none
    ∷ cmd ("ld" ∷ " " ∷ "b" ∷ ", " ∷ "e" ∷ [])
        (cmd_tt_cmd ∷ cmd_tt_space ∷ cmd_tt_reg ∷ cmd_tt_comma_space ∷ cmd_tt_reg ∷ []) cmd_it_none
    ∷ cmd ("ld" ∷ " " ∷ "b" ∷ ", " ∷ "h" ∷ [])
        (cmd_tt_cmd ∷ cmd_tt_space ∷ cmd_tt_reg ∷ cmd_tt_comma_space ∷ cmd_tt_reg ∷ []) cmd_it_none
    ∷ cmd ("ld" ∷ " " ∷ "b" ∷ ", " ∷ "l" ∷ [])
        (cmd_tt_cmd ∷ cmd_tt_space ∷ cmd_tt_reg ∷ cmd_tt_comma_space ∷ cmd_tt_reg ∷ []) cmd_it_none
    ∷ cmd ("ld" ∷ " " ∷ "b" ∷ ", " ∷ "(" ∷ "hl" ∷ ")" ∷ [])
        (cmd_tt_cmd ∷ cmd_tt_space ∷ cmd_tt_reg ∷ cmd_tt_comma_space ∷ cmd_tt_lparen ∷ cmd_tt_reg
          ∷ cmd_tt_rparen ∷ [])
        cmd_it_none
    ∷ cmd ("ld" ∷ " " ∷ "b" ∷ ", " ∷ "a" ∷ [])
        (cmd_tt_cmd ∷ cmd_tt_space ∷ cmd_tt_reg ∷ cmd_tt_comma_space ∷ cmd_tt_reg ∷ []) cmd_it_none
    ∷ cmd ("ld" ∷ " " ∷ "c" ∷ ", " ∷ "b" ∷ [])
        (cmd_tt_cmd ∷ cmd_tt_space ∷ cmd_tt_reg ∷ cmd_tt_comma_space ∷ cmd_tt_reg ∷ []) cmd_it_none
    ∷ cmd ("ld" ∷ " " ∷ "c" ∷ ", " ∷ "c" ∷ [])
        (cmd_tt_cmd ∷ cmd_tt_space ∷ cmd_tt_reg ∷ cmd_tt_comma_space ∷ cmd_tt_reg ∷ []) cmd_it_none
    ∷ cmd ("ld" ∷ " " ∷ "c" ∷ ", " ∷ "d" ∷ [])
        (cmd_tt_cmd ∷ cmd_tt_space ∷ cmd_tt_reg ∷ cmd_tt_comma_space ∷ cmd_tt_reg ∷ []) cmd_it_none
    ∷ cmd ("ld" ∷ " " ∷ "c" ∷ ", " ∷ "e" ∷ [])
        (cmd_tt_cmd ∷ cmd_tt_space ∷ cmd_tt_reg ∷ cmd_tt_comma_space ∷ cmd_tt_reg ∷ []) cmd_it_none
    ∷ cmd ("ld" ∷ " " ∷ "c" ∷ ", " ∷ "h" ∷ [])
        (cmd_tt_cmd ∷ cmd_tt_space ∷ cmd_tt_reg ∷ cmd_tt_comma_space ∷ cmd_tt_reg ∷ []) cmd_it_none
    ∷ cmd ("ld" ∷ " " ∷ "c" ∷ ", " ∷ "l" ∷ [])
        (cmd_tt_cmd ∷ cmd_tt_space ∷ cmd_tt_reg ∷ cmd_tt_comma_space ∷ cmd_tt_reg ∷ []) cmd_it_none
    ∷ cmd ("ld" ∷ " " ∷ "c" ∷ ", " ∷ "(" ∷ "hl" ∷ ")" ∷ [])
        (cmd_tt_cmd ∷ cmd_tt_space ∷ cmd_tt_reg ∷ cmd_tt_comma_space ∷ cmd_tt_lparen ∷ cmd_tt_reg
          ∷ cmd_tt_rparen ∷ [])
        cmd_it_none
    ∷ cmd ("ld" ∷ " " ∷ "c" ∷ ", " ∷ "a" ∷ [])
        (cmd_tt_cmd ∷ cmd_tt_space ∷ cmd_tt_reg ∷ cmd_tt_comma_space ∷ cmd_tt_reg ∷ []) cmd_it_none
    ∷ []

-- 0x50 to 0x5F
abbrev pub z80_row_50 : List Cmd
z80_row_50 =
    cmd ("ld" ∷ " " ∷ "d" ∷ ", " ∷ "b" ∷ [])
      (cmd_tt_cmd ∷ cmd_tt_space ∷ cmd_tt_reg ∷ cmd_tt_comma_space ∷ cmd_tt_reg ∷ []) cmd_it_none
    ∷ cmd ("ld" ∷ " " ∷ "d" ∷ ", " ∷ "c" ∷ [])
        (cmd_tt_cmd ∷ cmd_tt_space ∷ cmd_tt_reg ∷ cmd_tt_comma_space ∷ cmd_tt_reg ∷ []) cmd_it_none
    ∷ cmd ("ld" ∷ " " ∷ "d" ∷ ", " ∷ "d" ∷ [])
        (cmd_tt_cmd ∷ cmd_tt_space ∷ cmd_tt_reg ∷ cmd_tt_comma_space ∷ cmd_tt_reg ∷ []) cmd_it_none
    ∷ cmd ("ld" ∷ " " ∷ "d" ∷ ", " ∷ "e" ∷ [])
        (cmd_tt_cmd ∷ cmd_tt_space ∷ cmd_tt_reg ∷ cmd_tt_comma_space ∷ cmd_tt_reg ∷ []) cmd_it_none
    ∷ cmd ("ld" ∷ " " ∷ "d" ∷ ", " ∷ "h" ∷ [])
        (cmd_tt_cmd ∷ cmd_tt_space ∷ cmd_tt_reg ∷ cmd_tt_comma_space ∷ cmd_tt_reg ∷ []) cmd_it_none
    ∷ cmd ("ld" ∷ " " ∷ "d" ∷ ", " ∷ "l" ∷ [])
        (cmd_tt_cmd ∷ cmd_tt_space ∷ cmd_tt_reg ∷ cmd_tt_comma_space ∷ cmd_tt_reg ∷ []) cmd_it_none
    ∷ cmd ("ld" ∷ " " ∷ "d" ∷ ", " ∷ "(" ∷ "hl" ∷ ")" ∷ [])
        (cmd_tt_cmd ∷ cmd_tt_space ∷ cmd_tt_reg ∷ cmd_tt_comma_space ∷ cmd_tt_lparen ∷ cmd_tt_reg
          ∷ cmd_tt_rparen ∷ [])
        cmd_it_none
    ∷ cmd ("ld" ∷ " " ∷ "d" ∷ ", " ∷ "a" ∷ [])
        (cmd_tt_cmd ∷ cmd_tt_space ∷ cmd_tt_reg ∷ cmd_tt_comma_space ∷ cmd_tt_reg ∷ []) cmd_it_none
    ∷ cmd ("ld" ∷ " " ∷ "e" ∷ ", " ∷ "b" ∷ [])
        (cmd_tt_cmd ∷ cmd_tt_space ∷ cmd_tt_reg ∷ cmd_tt_comma_space ∷ cmd_tt_reg ∷ []) cmd_it_none
    ∷ cmd ("ld" ∷ " " ∷ "e" ∷ ", " ∷ "c" ∷ [])
        (cmd_tt_cmd ∷ cmd_tt_space ∷ cmd_tt_reg ∷ cmd_tt_comma_space ∷ cmd_tt_reg ∷ []) cmd_it_none
    ∷ cmd ("ld" ∷ " " ∷ "e" ∷ ", " ∷ "d" ∷ [])
        (cmd_tt_cmd ∷ cmd_tt_space ∷ cmd_tt_reg ∷ cmd_tt_comma_space ∷ cmd_tt_reg ∷ []) cmd_it_none
    ∷ cmd ("ld" ∷ " " ∷ "e" ∷ ", " ∷ "e" ∷ [])
        (cmd_tt_cmd ∷ cmd_tt_space ∷ cmd_tt_reg ∷ cmd_tt_comma_space ∷ cmd_tt_reg ∷ []) cmd_it_none
    ∷ cmd ("ld" ∷ " " ∷ "e" ∷ ", " ∷ "h" ∷ [])
        (cmd_tt_cmd ∷ cmd_tt_space ∷ cmd_tt_reg ∷ cmd_tt_comma_space ∷ cmd_tt_reg ∷ []) cmd_it_none
    ∷ cmd ("ld" ∷ " " ∷ "e" ∷ ", " ∷ "l" ∷ [])
        (cmd_tt_cmd ∷ cmd_tt_space ∷ cmd_tt_reg ∷ cmd_tt_comma_space ∷ cmd_tt_reg ∷ []) cmd_it_none
    ∷ cmd ("ld" ∷ " " ∷ "e" ∷ ", " ∷ "(" ∷ "hl" ∷ ")" ∷ [])
        (cmd_tt_cmd ∷ cmd_tt_space ∷ cmd_tt_reg ∷ cmd_tt_comma_space ∷ cmd_tt_lparen ∷ cmd_tt_reg
          ∷ cmd_tt_rparen ∷ [])
        cmd_it_none
    ∷ cmd ("ld" ∷ " " ∷ "e" ∷ ", " ∷ "a" ∷ [])
        (cmd_tt_cmd ∷ cmd_tt_space ∷ cmd_tt_reg ∷ cmd_tt_comma_space ∷ cmd_tt_reg ∷ []) cmd_it_none
    ∷ []

-- 0x60 to 0x6F
abbrev pub z80_row_60 : List Cmd
z80_row_60 =
    cmd ("ld" ∷ " " ∷ "h" ∷ ", " ∷ "b" ∷ [])
      (cmd_tt_cmd ∷ cmd_tt_space ∷ cmd_tt_reg ∷ cmd_tt_comma_space ∷ cmd_tt_reg ∷ []) cmd_it_none
    ∷ cmd ("ld" ∷ " " ∷ "h" ∷ ", " ∷ "c" ∷ [])
        (cmd_tt_cmd ∷ cmd_tt_space ∷ cmd_tt_reg ∷ cmd_tt_comma_space ∷ cmd_tt_reg ∷ []) cmd_it_none
    ∷ cmd ("ld" ∷ " " ∷ "h" ∷ ", " ∷ "d" ∷ [])
        (cmd_tt_cmd ∷ cmd_tt_space ∷ cmd_tt_reg ∷ cmd_tt_comma_space ∷ cmd_tt_reg ∷ []) cmd_it_none
    ∷ cmd ("ld" ∷ " " ∷ "h" ∷ ", " ∷ "e" ∷ [])
        (cmd_tt_cmd ∷ cmd_tt_space ∷ cmd_tt_reg ∷ cmd_tt_comma_space ∷ cmd_tt_reg ∷ []) cmd_it_none
    ∷ cmd ("ld" ∷ " " ∷ "h" ∷ ", " ∷ "h" ∷ [])
        (cmd_tt_cmd ∷ cmd_tt_space ∷ cmd_tt_reg ∷ cmd_tt_comma_space ∷ cmd_tt_reg ∷ []) cmd_it_none
    ∷ cmd ("ld" ∷ " " ∷ "h" ∷ ", " ∷ "l" ∷ [])
        (cmd_tt_cmd ∷ cmd_tt_space ∷ cmd_tt_reg ∷ cmd_tt_comma_space ∷ cmd_tt_reg ∷ []) cmd_it_none
    ∷ cmd ("ld" ∷ " " ∷ "h" ∷ ", " ∷ "(" ∷ "hl" ∷ ")" ∷ [])
        (cmd_tt_cmd ∷ cmd_tt_space ∷ cmd_tt_reg ∷ cmd_tt_comma_space ∷ cmd_tt_lparen ∷ cmd_tt_reg
          ∷ cmd_tt_rparen ∷ [])
        cmd_it_none
    ∷ cmd ("ld" ∷ " " ∷ "h" ∷ ", " ∷ "a" ∷ [])
        (cmd_tt_cmd ∷ cmd_tt_space ∷ cmd_tt_reg ∷ cmd_tt_comma_space ∷ cmd_tt_reg ∷ []) cmd_it_none
    ∷ cmd ("ld" ∷ " " ∷ "l" ∷ ", " ∷ "b" ∷ [])
        (cmd_tt_cmd ∷ cmd_tt_space ∷ cmd_tt_reg ∷ cmd_tt_comma_space ∷ cmd_tt_reg ∷ []) cmd_it_none
    ∷ cmd ("ld" ∷ " " ∷ "l" ∷ ", " ∷ "c" ∷ [])
        (cmd_tt_cmd ∷ cmd_tt_space ∷ cmd_tt_reg ∷ cmd_tt_comma_space ∷ cmd_tt_reg ∷ []) cmd_it_none
    ∷ cmd ("ld" ∷ " " ∷ "l" ∷ ", " ∷ "d" ∷ [])
        (cmd_tt_cmd ∷ cmd_tt_space ∷ cmd_tt_reg ∷ cmd_tt_comma_space ∷ cmd_tt_reg ∷ []) cmd_it_none
    ∷ cmd ("ld" ∷ " " ∷ "l" ∷ ", " ∷ "e" ∷ [])
        (cmd_tt_cmd ∷ cmd_tt_space ∷ cmd_tt_reg ∷ cmd_tt_comma_space ∷ cmd_tt_reg ∷ []) cmd_it_none
    ∷ cmd ("ld" ∷ " " ∷ "l" ∷ ", " ∷ "h" ∷ [])
        (cmd_tt_cmd ∷ cmd_tt_space ∷ cmd_tt_reg ∷ cmd_tt_comma_space ∷ cmd_tt_reg ∷ []) cmd_it_none
    ∷ cmd ("ld" ∷ " " ∷ "l" ∷ ", " ∷ "l" ∷ [])
        (cmd_tt_cmd ∷ cmd_tt_space ∷ cmd_tt_reg ∷ cmd_tt_comma_space ∷ cmd_tt_reg ∷ []) cmd_it_none
    ∷ cmd ("ld" ∷ " " ∷ "l" ∷ ", " ∷ "(" ∷ "hl" ∷ ")" ∷ [])
        (cmd_tt_cmd ∷ cmd_tt_space ∷ cmd_tt_reg ∷ cmd_tt_comma_space ∷ cmd_tt_lparen ∷ cmd_tt_reg
          ∷ cmd_tt_rparen ∷ [])
        cmd_it_none
    ∷ cmd ("ld" ∷ " " ∷ "l" ∷ ", " ∷ "a" ∷ [])
        (cmd_tt_cmd ∷ cmd_tt_space ∷ cmd_tt_reg ∷ cmd_tt_comma_space ∷ cmd_tt_reg ∷ []) cmd_it_none
    ∷ []

-- 0x70 to 0x7F
abbrev pub z80_row_70 : List Cmd
z80_row_70 =
    cmd ("ld" ∷ " " ∷ "(" ∷ "hl" ∷ ")" ∷ " " ∷ "b" ∷ [])
      (cmd_tt_cmd ∷ cmd_tt_space ∷ cmd_tt_lparen ∷ cmd_tt_reg ∷ cmd_tt_rparen ∷ cmd_tt_space
        ∷ cmd_tt_reg ∷ [])
      cmd_it_none
    ∷ cmd ("ld" ∷ " " ∷ "(" ∷ "hl" ∷ ")" ∷ " " ∷ "c" ∷ [])
        (cmd_tt_cmd ∷ cmd_tt_space ∷ cmd_tt_lparen ∷ cmd_tt_reg ∷ cmd_tt_rparen ∷ cmd_tt_space
          ∷ cmd_tt_reg ∷ [])
        cmd_it_none
    ∷ cmd ("ld" ∷ " " ∷ "(" ∷ "hl" ∷ ")" ∷ " " ∷ "d" ∷ [])
        (cmd_tt_cmd ∷ cmd_tt_space ∷ cmd_tt_lparen ∷ cmd_tt_reg ∷ cmd_tt_rparen ∷ cmd_tt_space
          ∷ cmd_tt_reg ∷ [])
        cmd_it_none
    ∷ cmd ("ld" ∷ " " ∷ "(" ∷ "hl" ∷ ")" ∷ " " ∷ "e" ∷ [])
        (cmd_tt_cmd ∷ cmd_tt_space ∷ cmd_tt_lparen ∷ cmd_tt_reg ∷ cmd_tt_rparen ∷ cmd_tt_space
          ∷ cmd_tt_reg ∷ [])
        cmd_it_none
    ∷ cmd ("ld" ∷ " " ∷ "(" ∷ "hl" ∷ ")" ∷ " " ∷ "h" ∷ [])
        (cmd_tt_cmd ∷ cmd_tt_space ∷ cmd_tt_lparen ∷ cmd_tt_reg ∷ cmd_tt_rparen ∷ cmd_tt_space
          ∷ cmd_tt_reg ∷ [])
        cmd_it_none
    ∷ cmd ("ld" ∷ " " ∷ "(" ∷ "hl" ∷ ")" ∷ " " ∷ "l" ∷ [])
        (cmd_tt_cmd ∷ cmd_tt_space ∷ cmd_tt_lparen ∷ cmd_tt_reg ∷ cmd_tt_rparen ∷ cmd_tt_space
          ∷ cmd_tt_reg ∷ [])
        cmd_it_none
    ∷ cmd ("hlt" ∷ []) (cmd_tt_cmd ∷ []) cmd_it_none
    ∷ cmd ("ld" ∷ " " ∷ "(" ∷ "hl" ∷ ")" ∷ " " ∷ "a" ∷ [])
        (cmd_tt_cmd ∷ cmd_tt_space ∷ cmd_tt_lparen ∷ cmd_tt_reg ∷ cmd_tt_rparen ∷ cmd_tt_space
          ∷ cmd_tt_reg ∷ [])
        cmd_it_none
    ∷ cmd ("ld" ∷ " " ∷ "a" ∷ ", " ∷ "b" ∷ [])
        (cmd_tt_cmd ∷ cmd_tt_space ∷ cmd_tt_reg ∷ cmd_tt_comma_space ∷ cmd_tt_reg ∷ []) cmd_it_none
    ∷ cmd ("ld" ∷ " " ∷ "a" ∷ ", " ∷ "c" ∷ [])
        (cmd_tt_cmd ∷ cmd_tt_space ∷ cmd_tt_reg ∷ cmd_tt_comma_space ∷ cmd_tt_reg ∷ []) cmd_it_none
    ∷ cmd ("ld" ∷ " " ∷ "a" ∷ ", " ∷ "d" ∷ [])
        (cmd_tt_cmd ∷ cmd_tt_space ∷ cmd_tt_reg ∷ cmd_tt_comma_space ∷ cmd_tt_reg ∷ []) cmd_it_none
    ∷ cmd ("ld" ∷ " " ∷ "a" ∷ ", " ∷ "e" ∷ [])
        (cmd_tt_cmd ∷ cmd_tt_space ∷ cmd_tt_reg ∷ cmd_tt_comma_space ∷ cmd_tt_reg ∷ []) cmd_it_none
    ∷ cmd ("ld" ∷ " " ∷ "a" ∷ ", " ∷ "h" ∷ [])
        (cmd_tt_cmd ∷ cmd_tt_space ∷ cmd_tt_reg ∷ cmd_tt_comma_space ∷ cmd_tt_reg ∷ []) cmd_it_none
    ∷ cmd ("ld" ∷ " " ∷ "a" ∷ ", " ∷ "l" ∷ [])
        (cmd_tt_cmd ∷ cmd_tt_space ∷ cmd_tt_reg ∷ cmd_tt_comma_space ∷ cmd_tt_reg ∷ []) cmd_it_none
    ∷ cmd ("ld" ∷ " " ∷ "a" ∷ ", " ∷ "m" ∷ [])
        (cmd_tt_cmd ∷ cmd_tt_space ∷ cmd_tt_reg ∷ cmd_tt_comma_space ∷ cmd_tt_reg ∷ []) cmd_it_none
    ∷ cmd ("ld" ∷ " " ∷ "a" ∷ ", " ∷ "a" ∷ [])
        (cmd_tt_cmd ∷ cmd_tt_space ∷ cmd_tt_reg ∷ cmd_tt_comma_space ∷ cmd_tt_reg ∷ []) cmd_it_none
    ∷ []
