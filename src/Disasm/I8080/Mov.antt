-- ===== src/Disasm/I8080/Mov.antt =====
-- The commands 0x40 to 0x7F of libs/v6core/include/core/disasm_i8080_cmds.h, sixteen in a row, in the order of the
-- array at the end of that file.
use v6emul.Base.{List, [], ◌∷◌}
use v6emul.Disasm.Cmd.{
  Cmd, cmd, cmd_tt_cmd, cmd_tt_comma_space, cmd_tt_reg, cmd_tt_space, cmd_it_none,
}

-- 0x40 to 0x4F
abbrev pub i8080_row_40 : List Cmd
i8080_row_40 =
    cmd ("mov" ∷ " " ∷ "b" ∷ ", " ∷ "b" ∷ [])
      (cmd_tt_cmd ∷ cmd_tt_space ∷ cmd_tt_reg ∷ cmd_tt_comma_space ∷ cmd_tt_reg ∷ []) cmd_it_none
    ∷ cmd ("mov" ∷ " " ∷ "b" ∷ ", " ∷ "c" ∷ [])
        (cmd_tt_cmd ∷ cmd_tt_space ∷ cmd_tt_reg ∷ cmd_tt_comma_space ∷ cmd_tt_reg ∷ []) cmd_it_none
    ∷ cmd ("mov" ∷ " " ∷ "b" ∷ ", " ∷ "d" ∷ [])
        (cmd_tt_cmd ∷ cmd_tt_space ∷ cmd_tt_reg ∷ cmd_tt_comma_space ∷ cmd_tt_reg ∷ []) cmd_it_none
    ∷ cmd ("mov" ∷ " " ∷ "b" ∷ ", " ∷ "e" ∷ [])
        (cmd_tt_cmd ∷ cmd_tt_space ∷ cmd_tt_reg ∷ cmd_tt_comma_space ∷ cmd_tt_reg ∷ []) cmd_it_none
    ∷ cmd ("mov" ∷ " " ∷ "b" ∷ ", " ∷ "h" ∷ [])
        (cmd_tt_cmd ∷ cmd_tt_space ∷ cmd_tt_reg ∷ cmd_tt_comma_space ∷ cmd_tt_reg ∷ []) cmd_it_none
    ∷ cmd ("mov" ∷ " " ∷ "b" ∷ ", " ∷ "l" ∷ [])
        (cmd_tt_cmd ∷ cmd_tt_space ∷ cmd_tt_reg ∷ cmd_tt_comma_space ∷ cmd_tt_reg ∷ []) cmd_it_none
    ∷ cmd ("mov" ∷ " " ∷ "b" ∷ ", " ∷ "m" ∷ [])
        (cmd_tt_cmd ∷ cmd_tt_space ∷ cmd_tt_reg ∷ cmd_tt_comma_space ∷ cmd_tt_reg ∷ []) cmd_it_none
    ∷ cmd ("mov" ∷ " " ∷ "b" ∷ ", " ∷ "a" ∷ [])
        (cmd_tt_cmd ∷ cmd_tt_space ∷ cmd_tt_reg ∷ cmd_tt_comma_space ∷ cmd_tt_reg ∷ []) cmd_it_none
    ∷ cmd ("mov" ∷ " " ∷ "c" ∷ ", " ∷ "b" ∷ [])
        (cmd_tt_cmd ∷ cmd_tt_space ∷ cmd_tt_reg ∷ cmd_tt_comma_space ∷ cmd_tt_reg ∷ []) cmd_it_none
    ∷ cmd ("mov" ∷ " " ∷ "c" ∷ ", " ∷ "c" ∷ [])
        (cmd_tt_cmd ∷ cmd_tt_space ∷ cmd_tt_reg ∷ cmd_tt_comma_space ∷ cmd_tt_reg ∷ []) cmd_it_none
    ∷ cmd ("mov" ∷ " " ∷ "c" ∷ ", " ∷ "d" ∷ [])
        (cmd_tt_cmd ∷ cmd_tt_space ∷ cmd_tt_reg ∷ cmd_tt_comma_space ∷ cmd_tt_reg ∷ []) cmd_it_none
    ∷ cmd ("mov" ∷ " " ∷ "c" ∷ ", " ∷ "e" ∷ [])
        (cmd_tt_cmd ∷ cmd_tt_space ∷ cmd_tt_reg ∷ cmd_tt_comma_space ∷ cmd_tt_reg ∷ []) cmd_it_none
    ∷ cmd ("mov" ∷ " " ∷ "c" ∷ ", " ∷ "h" ∷ [])
        (cmd_tt_cmd ∷ cmd_tt_space ∷ cmd_tt_reg ∷ cmd_tt_comma_space ∷ cmd_tt_reg ∷ []) cmd_it_none
    ∷ cmd ("mov" ∷ " " ∷ "c" ∷ ", " ∷ "l" ∷ [])
        (cmd_tt_cmd ∷ cmd_tt_space ∷ cmd_tt_reg ∷ cmd_tt_comma_space ∷ cmd_tt_reg ∷ []) cmd_it_none
    ∷ cmd ("mov" ∷ " " ∷ "c" ∷ ", " ∷ "m" ∷ [])
        (cmd_tt_cmd ∷ cmd_tt_space ∷ cmd_tt_reg ∷ cmd_tt_comma_space ∷ cmd_tt_reg ∷ []) cmd_it_none
    ∷ cmd ("mov" ∷ " " ∷ "c" ∷ ", " ∷ "a" ∷ [])
        (cmd_tt_cmd ∷ cmd_tt_space ∷ cmd_tt_reg ∷ cmd_tt_comma_space ∷ cmd_tt_reg ∷ []) cmd_it_none
    ∷ []

-- 0x50 to 0x5F
abbrev pub i8080_row_50 : List Cmd
i8080_row_50 =
    cmd ("mov" ∷ " " ∷ "d" ∷ ", " ∷ "b" ∷ [])
      (cmd_tt_cmd ∷ cmd_tt_space ∷ cmd_tt_reg ∷ cmd_tt_comma_space ∷ cmd_tt_reg ∷ []) cmd_it_none
    ∷ cmd ("mov" ∷ " " ∷ "d" ∷ ", " ∷ "c" ∷ [])
        (cmd_tt_cmd ∷ cmd_tt_space ∷ cmd_tt_reg ∷ cmd_tt_comma_space ∷ cmd_tt_reg ∷ []) cmd_it_none
    ∷ cmd ("mov" ∷ " " ∷ "d" ∷ ", " ∷ "d" ∷ [])
        (cmd_tt_cmd ∷ cmd_tt_space ∷ cmd_tt_reg ∷ cmd_tt_comma_space ∷ cmd_tt_reg ∷ []) cmd_it_none
    ∷ cmd ("mov" ∷ " " ∷ "d" ∷ ", " ∷ "e" ∷ [])
        (cmd_tt_cmd ∷ cmd_tt_space ∷ cmd_tt_reg ∷ cmd_tt_comma_space ∷ cmd_tt_reg ∷ []) cmd_it_none
    ∷ cmd ("mov" ∷ " " ∷ "d" ∷ ", " ∷ "h" ∷ [])
        (cmd_tt_cmd ∷ cmd_tt_space ∷ cmd_tt_reg ∷ cmd_tt_comma_space ∷ cmd_tt_reg ∷ []) cmd_it_none
    ∷ cmd ("mov" ∷ " " ∷ "d" ∷ ", " ∷ "l" ∷ [])
        (cmd_tt_cmd ∷ cmd_tt_space ∷ cmd_tt_reg ∷ cmd_tt_comma_space ∷ cmd_tt_reg ∷ []) cmd_it_none
    ∷ cmd ("mov" ∷ " " ∷ "d" ∷ ", " ∷ "m" ∷ [])
        (cmd_tt_cmd ∷ cmd_tt_space ∷ cmd_tt_reg ∷ cmd_tt_comma_space ∷ cmd_tt_reg ∷ []) cmd_it_none
    ∷ cmd ("mov" ∷ " " ∷ "d" ∷ ", " ∷ "a" ∷ [])
        (cmd_tt_cmd ∷ cmd_tt_space ∷ cmd_tt_reg ∷ cmd_tt_comma_space ∷ cmd_tt_reg ∷ []) cmd_it_none
    ∷ cmd ("mov" ∷ " " ∷ "e" ∷ ", " ∷ "b" ∷ [])
        (cmd_tt_cmd ∷ cmd_tt_space ∷ cmd_tt_reg ∷ cmd_tt_comma_space ∷ cmd_tt_reg ∷ []) cmd_it_none
    ∷ cmd ("mov" ∷ " " ∷ "e" ∷ ", " ∷ "c" ∷ [])
        (cmd_tt_cmd ∷ cmd_tt_space ∷ cmd_tt_reg ∷ cmd_tt_comma_space ∷ cmd_tt_reg ∷ []) cmd_it_none
    ∷ cmd ("mov" ∷ " " ∷ "e" ∷ ", " ∷ "d" ∷ [])
        (cmd_tt_cmd ∷ cmd_tt_space ∷ cmd_tt_reg ∷ cmd_tt_comma_space ∷ cmd_tt_reg ∷ []) cmd_it_none
    ∷ cmd ("mov" ∷ " " ∷ "e" ∷ ", " ∷ "e" ∷ [])
        (cmd_tt_cmd ∷ cmd_tt_space ∷ cmd_tt_reg ∷ cmd_tt_comma_space ∷ cmd_tt_reg ∷ []) cmd_it_none
    ∷ cmd ("mov" ∷ " " ∷ "e" ∷ ", " ∷ "h" ∷ [])
        (cmd_tt_cmd ∷ cmd_tt_space ∷ cmd_tt_reg ∷ cmd_tt_comma_space ∷ cmd_tt_reg ∷ []) cmd_it_none
    ∷ cmd ("mov" ∷ " " ∷ "e" ∷ ", " ∷ "l" ∷ [])
        (cmd_tt_cmd ∷ cmd_tt_space ∷ cmd_tt_reg ∷ cmd_tt_comma_space ∷ cmd_tt_reg ∷ []) cmd_it_none
    ∷ cmd ("mov" ∷ " " ∷ "e" ∷ ", " ∷ "m" ∷ [])
        (cmd_tt_cmd ∷ cmd_tt_space ∷ cmd_tt_reg ∷ cmd_tt_comma_space ∷ cmd_tt_reg ∷ []) cmd_it_none
    ∷ cmd ("mov" ∷ " " ∷ "e" ∷ ", " ∷ "a" ∷ [])
        (cmd_tt_cmd ∷ cmd_tt_space ∷ cmd_tt_reg ∷ cmd_tt_comma_space ∷ cmd_tt_reg ∷ []) cmd_it_none
    ∷ []

-- 0x60 to 0x6F
abbrev pub i8080_row_60 : List Cmd
i8080_row_60 =
    cmd ("mov" ∷ " " ∷ "h" ∷ ", " ∷ "b" ∷ [])
      (cmd_tt_cmd ∷ cmd_tt_space ∷ cmd_tt_reg ∷ cmd_tt_comma_space ∷ cmd_tt_reg ∷ []) cmd_it_none
    ∷ cmd ("mov" ∷ " " ∷ "h" ∷ ", " ∷ "c" ∷ [])
        (cmd_tt_cmd ∷ cmd_tt_space ∷ cmd_tt_reg ∷ cmd_tt_comma_space ∷ cmd_tt_reg ∷ []) cmd_it_none
    ∷ cmd ("mov" ∷ " " ∷ "h" ∷ ", " ∷ "d" ∷ [])
        (cmd_tt_cmd ∷ cmd_tt_space ∷ cmd_tt_reg ∷ cmd_tt_comma_space ∷ cmd_tt_reg ∷ []) cmd_it_none
    ∷ cmd ("mov" ∷ " " ∷ "h" ∷ ", " ∷ "e" ∷ [])
        (cmd_tt_cmd ∷ cmd_tt_space ∷ cmd_tt_reg ∷ cmd_tt_comma_space ∷ cmd_tt_reg ∷ []) cmd_it_none
    ∷ cmd ("mov" ∷ " " ∷ "h" ∷ ", " ∷ "h" ∷ [])
        (cmd_tt_cmd ∷ cmd_tt_space ∷ cmd_tt_reg ∷ cmd_tt_comma_space ∷ cmd_tt_reg ∷ []) cmd_it_none
    ∷ cmd ("mov" ∷ " " ∷ "h" ∷ ", " ∷ "l" ∷ [])
        (cmd_tt_cmd ∷ cmd_tt_space ∷ cmd_tt_reg ∷ cmd_tt_comma_space ∷ cmd_tt_reg ∷ []) cmd_it_none
    ∷ cmd ("mov" ∷ " " ∷ "h" ∷ ", " ∷ "m" ∷ [])
        (cmd_tt_cmd ∷ cmd_tt_space ∷ cmd_tt_reg ∷ cmd_tt_comma_space ∷ cmd_tt_reg ∷ []) cmd_it_none
    ∷ cmd ("mov" ∷ " " ∷ "h" ∷ ", " ∷ "a" ∷ [])
        (cmd_tt_cmd ∷ cmd_tt_space ∷ cmd_tt_reg ∷ cmd_tt_comma_space ∷ cmd_tt_reg ∷ []) cmd_it_none
    ∷ cmd ("mov" ∷ " " ∷ "l" ∷ ", " ∷ "b" ∷ [])
        (cmd_tt_cmd ∷ cmd_tt_space ∷ cmd_tt_reg ∷ cmd_tt_comma_space ∷ cmd_tt_reg ∷ []) cmd_it_none
    ∷ cmd ("mov" ∷ " " ∷ "l" ∷ ", " ∷ "c" ∷ [])
        (cmd_tt_cmd ∷ cmd_tt_space ∷ cmd_tt_reg ∷ cmd_tt_comma_space ∷ cmd_tt_reg ∷ []) cmd_it_none
    ∷ cmd ("mov" ∷ " " ∷ "l" ∷ ", " ∷ "d" ∷ [])
        (cmd_tt_cmd ∷ cmd_tt_space ∷ cmd_tt_reg ∷ cmd_tt_comma_space ∷ cmd_tt_reg ∷ []) cmd_it_none
    ∷ cmd ("mov" ∷ " " ∷ "l" ∷ ", " ∷ "e" ∷ [])
        (cmd_tt_cmd ∷ cmd_tt_space ∷ cmd_tt_reg ∷ cmd_tt_comma_space ∷ cmd_tt_reg ∷ []) cmd_it_none
    ∷ cmd ("mov" ∷ " " ∷ "l" ∷ ", " ∷ "h" ∷ [])
        (cmd_tt_cmd ∷ cmd_tt_space ∷ cmd_tt_reg ∷ cmd_tt_comma_space ∷ cmd_tt_reg ∷ []) cmd_it_none
    ∷ cmd ("mov" ∷ " " ∷ "l" ∷ ", " ∷ "l" ∷ [])
        (cmd_tt_cmd ∷ cmd_tt_space ∷ cmd_tt_reg ∷ cmd_tt_comma_space ∷ cmd_tt_reg ∷ []) cmd_it_none
    ∷ cmd ("mov" ∷ " " ∷ "l" ∷ ", " ∷ "m" ∷ [])
        (cmd_tt_cmd ∷ cmd_tt_space ∷ cmd_tt_reg ∷ cmd_tt_comma_space ∷ cmd_tt_reg ∷ []) cmd_it_none
    ∷ cmd ("mov" ∷ " " ∷ "l" ∷ ", " ∷ "a" ∷ [])
        (cmd_tt_cmd ∷ cmd_tt_space ∷ cmd_tt_reg ∷ cmd_tt_comma_space ∷ cmd_tt_reg ∷ []) cmd_it_none
    ∷ []

-- 0x70 to 0x7F
abbrev pub i8080_row_70 : List Cmd
i8080_row_70 =
    cmd ("mov" ∷ " " ∷ "m" ∷ ", " ∷ "b" ∷ [])
      (cmd_tt_cmd ∷ cmd_tt_space ∷ cmd_tt_reg ∷ cmd_tt_comma_space ∷ cmd_tt_reg ∷ []) cmd_it_none
    ∷ cmd ("mov" ∷ " " ∷ "m" ∷ ", " ∷ "c" ∷ [])
        (cmd_tt_cmd ∷ cmd_tt_space ∷ cmd_tt_reg ∷ cmd_tt_comma_space ∷ cmd_tt_reg ∷ []) cmd_it_none
    ∷ cmd ("mov" ∷ " " ∷ "m" ∷ ", " ∷ "d" ∷ [])
        (cmd_tt_cmd ∷ cmd_tt_space ∷ cmd_tt_reg ∷ cmd_tt_comma_space ∷ cmd_tt_reg ∷ []) cmd_it_none
    ∷ cmd ("mov" ∷ " " ∷ "m" ∷ ", " ∷ "e" ∷ [])
        (cmd_tt_cmd ∷ cmd_tt_space ∷ cmd_tt_reg ∷ cmd_tt_comma_space ∷ cmd_tt_reg ∷ []) cmd_it_none
    ∷ cmd ("mov" ∷ " " ∷ "m" ∷ ", " ∷ "h" ∷ [])
        (cmd_tt_cmd ∷ cmd_tt_space ∷ cmd_tt_reg ∷ cmd_tt_comma_space ∷ cmd_tt_reg ∷ []) cmd_it_none
    ∷ cmd ("mov" ∷ " " ∷ "m" ∷ ", " ∷ "l" ∷ [])
        (cmd_tt_cmd ∷ cmd_tt_space ∷ cmd_tt_reg ∷ cmd_tt_comma_space ∷ cmd_tt_reg ∷ []) cmd_it_none
    ∷ cmd ("hlt" ∷ []) (cmd_tt_cmd ∷ []) cmd_it_none
    ∷ cmd ("mov" ∷ " " ∷ "m" ∷ ", " ∷ "a" ∷ [])
        (cmd_tt_cmd ∷ cmd_tt_space ∷ cmd_tt_reg ∷ cmd_tt_comma_space ∷ cmd_tt_reg ∷ []) cmd_it_none
    ∷ cmd ("mov" ∷ " " ∷ "a" ∷ ", " ∷ "b" ∷ [])
        (cmd_tt_cmd ∷ cmd_tt_space ∷ cmd_tt_reg ∷ cmd_tt_comma_space ∷ cmd_tt_reg ∷ []) cmd_it_none
    ∷ cmd ("mov" ∷ " " ∷ "a" ∷ ", " ∷ "c" ∷ [])
        (cmd_tt_cmd ∷ cmd_tt_space ∷ cmd_tt_reg ∷ cmd_tt_comma_space ∷ cmd_tt_reg ∷ []) cmd_it_none
    ∷ cmd ("mov" ∷ " " ∷ "a" ∷ ", " ∷ "d" ∷ [])
        (cmd_tt_cmd ∷ cmd_tt_space ∷ cmd_tt_reg ∷ cmd_tt_comma_space ∷ cmd_tt_reg ∷ []) cmd_it_none
    ∷ cmd ("mov" ∷ " " ∷ "a" ∷ ", " ∷ "e" ∷ [])
        (cmd_tt_cmd ∷ cmd_tt_space ∷ cmd_tt_reg ∷ cmd_tt_comma_space ∷ cmd_tt_reg ∷ []) cmd_it_none
    ∷ cmd ("mov" ∷ " " ∷ "a" ∷ ", " ∷ "h" ∷ [])
        (cmd_tt_cmd ∷ cmd_tt_space ∷ cmd_tt_reg ∷ cmd_tt_comma_space ∷ cmd_tt_reg ∷ []) cmd_it_none
    ∷ cmd ("mov" ∷ " " ∷ "a" ∷ ", " ∷ "l" ∷ [])
        (cmd_tt_cmd ∷ cmd_tt_space ∷ cmd_tt_reg ∷ cmd_tt_comma_space ∷ cmd_tt_reg ∷ []) cmd_it_none
    ∷ cmd ("mov" ∷ " " ∷ "a" ∷ ", " ∷ "m" ∷ [])
        (cmd_tt_cmd ∷ cmd_tt_space ∷ cmd_tt_reg ∷ cmd_tt_comma_space ∷ cmd_tt_reg ∷ []) cmd_it_none
    ∷ cmd ("mov" ∷ " " ∷ "a" ∷ ", " ∷ "a" ∷ [])
        (cmd_tt_cmd ∷ cmd_tt_space ∷ cmd_tt_reg ∷ cmd_tt_comma_space ∷ cmd_tt_reg ∷ []) cmd_it_none
    ∷ []
