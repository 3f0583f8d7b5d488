-- ===== src/Disasm/Z80/Alu.antt =====
-- The commands 0x80 to 0xBF of libs/v6core/include/core/disasm_z80_cmds.h, sixteen in a row, in the order of the
-- array at the end of that file.
use v6emul.Base.{List, [], ◌∷◌}
use v6emul.Disasm.Cmd.{
  Cmd, cmd, cmd_tt_cmd, cmd_tt_comma_space, cmd_tt_lparen, cmd_tt_reg, cmd_tt_rparen, cmd_tt_space,
  cmd_it_none,
}

-- 0x80 to 0x8F
abbrev pub z80_row_80 : List Cmd
z80_row_80 =
    cmd ("add" ∷ " " ∷ "a" ∷ ", " ∷ "b" ∷ [])
      (cmd_tt_cmd ∷ cmd_tt_space ∷ cmd_tt_reg ∷ cmd_tt_comma_space ∷ cmd_tt_reg ∷ []) cmd_it_none
    ∷ cmd ("add" ∷ " " ∷ "a" ∷ ", " ∷ "c" ∷ [])
        (cmd_tt_cmd ∷ cmd_tt_space ∷ cmd_tt_reg ∷ cmd_tt_comma_space ∷ cmd_tt_reg ∷ []) cmd_it_none
    ∷ cmd ("add" ∷ " " ∷ "a" ∷ ", " ∷ "d" ∷ [])
        (cmd_tt_cmd ∷ cmd_tt_space ∷ cmd_tt_reg ∷ cmd_tt_comma_space ∷ cmd_tt_reg ∷ []) cmd_it_none
    ∷ cmd ("add" ∷ " " ∷ "a" ∷ ", " ∷ "e" ∷ [])
        (cmd_tt_cmd ∷ cmd_tt_space ∷ cmd_tt_reg ∷ cmd_tt_comma_space ∷ cmd_tt_reg ∷ []) cmd_it_none
    ∷ cmd ("add" ∷ " " ∷ "a" ∷ ", " ∷ "h" ∷ [])
        (cmd_tt_cmd ∷ cmd_tt_space ∷ cmd_tt_reg ∷ cmd_tt_comma_space ∷ cmd_tt_reg ∷ []) cmd_it_none
    ∷ cmd ("add" ∷ " " ∷ "a" ∷ ", " ∷ "l" ∷ [])
        (cmd_tt_cmd ∷ cmd_tt_space ∷ cmd_tt_reg ∷ cmd_tt_comma_space ∷ cmd_tt_reg ∷ []) cmd_it_none
    ∷ cmd ("add" ∷ " " ∷ "a" ∷ ", " ∷ "(" ∷ "hl" ∷ ")" ∷ [])
        (cmd_tt_cmd ∷ cmd_tt_space ∷ cmd_tt_reg ∷ cmd_tt_comma_space ∷ cmd_tt_lparen ∷ cmd_tt_reg
          ∷ cmd_tt_rparen ∷ [])
        cmd_it_none
    ∷ cmd ("add" ∷ " " ∷ "a" ∷ ", " ∷ "a" ∷ [])
        (cmd_tt_cmd ∷ cmd_tt_space ∷ cmd_tt_reg ∷ cmd_tt_comma_space ∷ cmd_tt_reg ∷ []) cmd_it_none
    ∷ cmd ("adc" ∷ " " ∷ "a" ∷ ", " ∷ "b" ∷ [])
        (cmd_tt_cmd ∷ cmd_tt_space ∷ cmd_tt_reg ∷ cmd_tt_comma_space ∷ cmd_tt_reg ∷ []) cmd_it_none
    ∷ cmd ("adc" ∷ " " ∷ "a" ∷ ", " ∷ "c" ∷ [])
        (cmd_tt_cmd ∷ cmd_tt_space ∷ cmd_tt_reg ∷ cmd_tt_comma_space ∷ cmd_tt_reg ∷ []) cmd_it_none
    ∷ cmd ("adc" ∷ " " ∷ "a" ∷ ", " ∷ "d" ∷ [])
        (cmd_tt_cmd ∷ cmd_tt_space ∷ cmd_tt_reg ∷ cmd_tt_comma_space ∷ cmd_tt_reg ∷ []) cmd_it_none
    ∷ cmd ("adc" ∷ " " ∷ "a" ∷ ", " ∷ "e" ∷ [])
        (cmd_tt_cmd ∷ cmd_tt_space ∷ cmd_tt_reg ∷ cmd_tt_comma_space ∷ cmd_tt_reg ∷ []) cmd_it_none
    ∷ cmd ("adc" ∷ " " ∷ "a" ∷ ", " ∷ "h" ∷ [])
        (cmd_tt_cmd ∷ cmd_tt_space ∷ cmd_tt_reg ∷ cmd_tt_comma_space ∷ cmd_tt_reg ∷ []) cmd_it_none
    ∷ cmd ("adc" ∷ " " ∷ "a" ∷ ", " ∷ "l" ∷ [])
        (cmd_tt_cmd ∷ cmd_tt_space ∷ cmd_tt_reg ∷ cmd_tt_comma_space ∷ cmd_tt_reg ∷ []) cmd_it_none
    ∷ cmd ("adc" ∷ " " ∷ "a" ∷ ", " ∷ "(" ∷ "hl" ∷ ")" ∷ [])
        (cmd_tt_cmd ∷ cmd_tt_space ∷ cmd_tt_reg ∷ cmd_tt_comma_space ∷ cmd_tt_lparen ∷ cmd_tt_reg
          ∷ cmd_tt_rparen ∷ [])
        cmd_it_none
    ∷ cmd ("adc" ∷ " " ∷ "a" ∷ ", " ∷ "a" ∷ [])
        (cmd_tt_cmd ∷ cmd_tt_space ∷ cmd_tt_reg ∷ cmd_tt_comma_space ∷ cmd_tt_reg ∷ []) cmd_it_none
    ∷ []

-- 0x90 to 0x9F
abbrev pub z80_row_90 : List Cmd
z80_row_90 =
    cmd ("sub" ∷ " " ∷ "b" ∷ []) (cmd_tt_cmd ∷ cmd_tt_space ∷ cmd_tt_reg ∷ []) cmd_it_none
    ∷ cmd ("sub" ∷ " " ∷ "c" ∷ []) (cmd_tt_cmd ∷ cmd_tt_space ∷ cmd_tt_reg ∷ []) cmd_it_none
    ∷ cmd ("sub" ∷ " " ∷ "d" ∷ []) (cmd_tt_cmd ∷ cmd_tt_space ∷ cmd_tt_reg ∷ []) cmd_it_none
    ∷ cmd ("sub" ∷ " " ∷ "e" ∷ []) (cmd_tt_cmd ∷ cmd_tt_space ∷ cmd_tt_reg ∷ []) cmd_it_none
    ∷ cmd ("sub" ∷ " " ∷ "h" ∷ []) (cmd_tt_cmd ∷ cmd_tt_space ∷ cmd_tt_reg ∷ []) cmd_it_none
    ∷ cmd ("sub" ∷ " " ∷ "l" ∷ []) (cmd_tt_cmd ∷ cmd_tt_space ∷ cmd_tt_reg ∷ []) cmd_it_none
    ∷ cmd ("sub" ∷ " " ∷ "(" ∷ "hl" ∷ ")" ∷ [])
        (cmd_tt_cmd ∷ cmd_tt_space ∷ cmd_tt_lparen ∷ cmd_tt_reg ∷ cmd_tt_rparen ∷ []) cmd_it_none
    ∷ cmd ("sub" ∷ " " ∷ "a" ∷ []) (cmd_tt_cmd ∷ cmd_tt_space ∷ cmd_tt_reg ∷ []) cmd_it_none
    ∷ cmd ("sbc" ∷ " " ∷ "b" ∷ []) (cmd_tt_cmd ∷ cmd_tt_space ∷ cmd_tt_reg ∷ []) cmd_it_none
    ∷ cmd ("sbc" ∷ " " ∷ "c" ∷ []) (cmd_tt_cmd ∷ cmd_tt_space ∷ cmd_tt_reg ∷ []) cmd_it_none
    ∷ cmd ("sbc" ∷ " " ∷ "d" ∷ []) (cmd_tt_cmd ∷ cmd_tt_space ∷ cmd_tt_reg ∷ []) cmd_it_none
    ∷ cmd ("sbc" ∷ " " ∷ "e" ∷ []) (cmd_tt_cmd ∷ cmd_tt_space ∷ cmd_tt_reg ∷ []) cmd_it_none
    ∷ cmd ("sbc" ∷ " " ∷ "h" ∷ []) (cmd_tt_cmd ∷ cmd_tt_space ∷ cmd_tt_reg ∷ []) cmd_it_none
    ∷ cmd ("sbc" ∷ " " ∷ "l" ∷ []) (cmd_tt_cmd ∷ cmd_tt_space ∷ cmd_tt_reg ∷ []) cmd_it_none
    ∷ cmd ("sbc" ∷ " " ∷ "(" ∷ "hl" ∷ ")" ∷ [])
        (cmd_tt_cmd ∷ cmd_tt_space ∷ cmd_tt_lparen ∷ cmd_tt_reg ∷ cmd_tt_rparen ∷ []) cmd_it_none
    ∷ cmd ("sbc" ∷ " " ∷ "a" ∷ []) (cmd_tt_cmd ∷ cmd_tt_space ∷ cmd_tt_reg ∷ []) cmd_it_none
    ∷ []

-- 0xA0 to 0xAF
abbrev pub z80_row_a0 : List Cmd
z80_row_a0 =
    cmd ("and" ∷ " " ∷ "b" ∷ []) (cmd_tt_cmd ∷ cmd_tt_space ∷ cmd_tt_reg ∷ []) cmd_it_none
    ∷ cmd ("and" ∷ " " ∷ "c" ∷ []) (cmd_tt_cmd ∷ cmd_tt_space ∷ cmd_tt_reg ∷ []) cmd_it_none
    ∷ cmd ("and" ∷ " " ∷ "d" ∷ []) (cmd_tt_cmd ∷ cmd_tt_space ∷ cmd_tt_reg ∷ []) cmd_it_none
    ∷ cmd ("and" ∷ " " ∷ "e" ∷ []) (cmd_tt_cmd ∷ cmd_tt_space ∷ cmd_tt_reg ∷ []) cmd_it_none
    ∷ cmd ("and" ∷ " " ∷ "h" ∷ []) (cmd_tt_cmd ∷ cmd_tt_space ∷ cmd_tt_reg ∷ []) cmd_it_none
    ∷ cmd ("and" ∷ " " ∷ "l" ∷ []) (cmd_tt_cmd ∷ cmd_tt_space ∷ cmd_tt_reg ∷ []) cmd_it_none
    ∷ cmd ("and" ∷ " " ∷ "(" ∷ "hl" ∷ ")" ∷ [])
        (cmd_tt_cmd ∷ cmd_tt_space ∷ cmd_tt_lparen ∷ cmd_tt_reg ∷ cmd_tt_rparen ∷ []) cmd_it_none
    ∷ cmd ("and" ∷ " " ∷ "a" ∷ []) (cmd_tt_cmd ∷ cmd_tt_space ∷ cmd_tt_reg ∷ []) cmd_it_none
    ∷ cmd ("xor" ∷ " " ∷ "b" ∷ []) (cmd_tt_cmd ∷ cmd_tt_space ∷ cmd_tt_reg ∷ []) cmd_it_none
    ∷ cmd ("xor" ∷ " " ∷ "c" ∷ []) (cmd_tt_cmd ∷ cmd_tt_space ∷ cmd_tt_reg ∷ []) cmd_it_none
    ∷ cmd ("xor" ∷ " " ∷ "d" ∷ []) (cmd_tt_cmd ∷ cmd_tt_space ∷ cmd_tt_reg ∷ []) cmd_it_none
    ∷ cmd ("xor" ∷ " " ∷ "e" ∷ []) (cmd_tt_cmd ∷ cmd_tt_space ∷ cmd_tt_reg ∷ []) cmd_it_none
    ∷ cmd ("xor" ∷ " " ∷ "h" ∷ []) (cmd_tt_cmd ∷ cmd_tt_space ∷ cmd_tt_reg ∷ []) cmd_it_none
    ∷ cmd ("xor" ∷ " " ∷ "l" ∷ []) (cmd_tt_cmd ∷ cmd_tt_space ∷ cmd_tt_reg ∷ []) cmd_it_none
    ∷ cmd ("xor" ∷ " " ∷ "(" ∷ "hl" ∷ ")" ∷ [])
        (cmd_tt_cmd ∷ cmd_tt_space ∷ cmd_tt_lparen ∷ cmd_tt_reg ∷ cmd_tt_rparen ∷ []) cmd_it_none
    ∷ cmd ("xor" ∷ " " ∷ "a" ∷ []) (cmd_tt_cmd ∷ cmd_tt_space ∷ cmd_tt_reg ∷ []) cmd_it_none
    ∷ []

-- 0xB0 to 0xBF
abbrev pub z80_row_b0 : List Cmd
z80_row_b0 =
    cmd ("or" ∷ " " ∷ "b" ∷ []) (cmd_tt_cmd ∷ cmd_tt_space ∷ cmd_tt_reg ∷ []) cmd_it_none
    ∷ cmd ("or" ∷ " " ∷ "c" ∷ []) (cmd_tt_cmd ∷ cmd_tt_space ∷ cmd_tt_reg ∷ []) cmd_it_none
    ∷ cmd ("or" ∷ " " ∷ "d" ∷ []) (cmd_tt_cmd ∷ cmd_tt_space ∷ cmd_tt_reg ∷ []) cmd_it_none
    ∷ cmd ("or" ∷ " " ∷ "e" ∷ []) (cmd_tt_cmd ∷ cmd_tt_space ∷ cmd_tt_reg ∷ []) cmd_it_none
    ∷ cmd ("or" ∷ " " ∷ "h" ∷ []) (cmd_tt_cmd ∷ cmd_tt_space ∷ cmd_tt_reg ∷ []) cmd_it_none
    ∷ cmd ("or" ∷ " " ∷ "l" ∷ []) (cmd_tt_cmd ∷ cmd_tt_space ∷ cmd_tt_reg ∷ []) cmd_it_none
    ∷ cmd ("or" ∷ " " ∷ "(" ∷ "hl" ∷ ")" ∷ [])
        (cmd_tt_cmd ∷ cmd_tt_space ∷ cmd_tt_lparen ∷ cmd_tt_reg ∷ cmd_tt_rparen ∷ []) cmd_it_none
    ∷ cmd ("or" ∷ " " ∷ "a" ∷ []) (cmd_tt_cmd ∷ cmd_tt_space ∷ cmd_tt_reg ∷ []) cmd_it_none
    ∷ cmd ("cp" ∷ " " ∷ "b" ∷ []) (cmd_tt_cmd ∷ cmd_tt_space ∷ cmd_tt_reg ∷ []) cmd_it_none
    ∷ cmd ("cp" ∷ " " ∷ "c" ∷ []) (cmd_tt_cmd ∷ cmd_tt_space ∷ cmd_tt_reg ∷ []) cmd_it_none
    ∷ cmd ("cp" ∷ " " ∷ "d" ∷ []) (cmd_tt_cmd ∷ cmd_tt_space ∷ cmd_tt_reg ∷ []) cmd_it_none
    ∷ cmd ("cp" ∷ " " ∷ "e" ∷ []) (cmd_tt_cmd ∷ cmd_tt_space ∷ cmd_tt_reg ∷ []) cmd_it_none
    ∷ cmd ("cp" ∷ " " ∷ "h" ∷ []) (cmd_tt_cmd ∷ cmd_tt_space ∷ cmd_tt_reg ∷ []) cmd_it_none
    ∷ cmd ("cp" ∷ " " ∷ "l" ∷ []) (cmd_tt_cmd ∷ cmd_tt_space ∷ cmd_tt_reg ∷ []) cmd_it_none
    ∷ cmd ("cp" ∷ " " ∷ "(" ∷ "hl" ∷ ")" ∷ [])
        (cmd_tt_cmd ∷ cmd_tt_space ∷ cmd_tt_lparen ∷ cmd_tt_reg ∷ cmd_tt_rparen ∷ []) cmd_it_none
    ∷ cmd ("cp" ∷ " " ∷ "a" ∷ []) (cmd_tt_cmd ∷ cmd_tt_space ∷ cmd_tt_reg ∷ []) cmd_it_none
    ∷ []
