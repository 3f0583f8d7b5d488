-- ===== src/Disasm/I8080/Alu.antt =====
-- The commands 0x80 to 0xBF of libs/v6core/include/core/disasm_i8080_cmds.h, sixteen in a row, in the order of the
-- array at the end of that file.
use v6emul.Base.{List, [], ◌∷◌}
use v6emul.Disasm.Cmd.{Cmd, cmd, cmd_tt_cmd, cmd_tt_reg, cmd_tt_space, cmd_it_none}

-- 0x80 to 0x8F
abbrev pub i8080_row_80 : List Cmd
i8080_row_80 =
    cmd ("add" ∷ " " ∷ "b" ∷ []) (cmd_tt_cmd ∷ cmd_tt_space ∷ cmd_tt_reg ∷ []) cmd_it_none
    ∷ cmd ("add" ∷ " " ∷ "c" ∷ []) (cmd_tt_cmd ∷ cmd_tt_space ∷ cmd_tt_reg ∷ []) cmd_it_none
    ∷ cmd ("add" ∷ " " ∷ "d" ∷ []) (cmd_tt_cmd ∷ cmd_tt_space ∷ cmd_tt_reg ∷ []) cmd_it_none
    ∷ cmd ("add" ∷ " " ∷ "e" ∷ []) (cmd_tt_cmd ∷ cmd_tt_space ∷ cmd_tt_reg ∷ []) cmd_it_none
    ∷ cmd ("add" ∷ " " ∷ "h" ∷ []) (cmd_tt_cmd ∷ cmd_tt_space ∷ cmd_tt_reg ∷ []) cmd_it_none
    ∷ cmd ("add" ∷ " " ∷ "l" ∷ []) (cmd_tt_cmd ∷ cmd_tt_space ∷ cmd_tt_reg ∷ []) cmd_it_none
    ∷ cmd ("add" ∷ " " ∷ "m" ∷ []) (cmd_tt_cmd ∷ cmd_tt_space ∷ cmd_tt_reg ∷ []) cmd_it_none
    ∷ cmd ("add" ∷ " " ∷ "a" ∷ []) (cmd_tt_cmd ∷ cmd_tt_space ∷ cmd_tt_reg ∷ []) cmd_it_none
    ∷ cmd ("adc" ∷ " " ∷ "b" ∷ []) (cmd_tt_cmd ∷ cmd_tt_space ∷ cmd_tt_reg ∷ []) cmd_it_none
    ∷ cmd ("adc" ∷ " " ∷ "c" ∷ []) (cmd_tt_cmd ∷ cmd_tt_space ∷ cmd_tt_reg ∷ []) cmd_it_none
    ∷ cmd ("adc" ∷ " " ∷ "d" ∷ []) (cmd_tt_cmd ∷ cmd_tt_space ∷ cmd_tt_reg ∷ []) cmd_it_none
    ∷ cmd ("adc" ∷ " " ∷ "e" ∷ []) (cmd_tt_cmd ∷ cmd_tt_space ∷ cmd_tt_reg ∷ []) cmd_it_none
    ∷ cmd ("adc" ∷ " " ∷ "h" ∷ []) (cmd_tt_cmd ∷ cmd_tt_space ∷ cmd_tt_reg ∷ []) cmd_it_none
    ∷ cmd ("adc" ∷ " " ∷ "l" ∷ []) (cmd_tt_cmd ∷ cmd_tt_space ∷ cmd_tt_reg ∷ []) cmd_it_none
    ∷ cmd ("adc" ∷ " " ∷ "m" ∷ []) (cmd_tt_cmd ∷ cmd_tt_space ∷ cmd_tt_reg ∷ []) cmd_it_none
    ∷ cmd ("adc" ∷ " " ∷ "a" ∷ []) (cmd_tt_cmd ∷ cmd_tt_space ∷ cmd_tt_reg ∷ []) cmd_it_none
    ∷ []

-- 0x90 to 0x9F
abbrev pub i8080_row_90 : List Cmd
i8080_row_90 =
    cmd ("sub" ∷ " " ∷ "b" ∷ []) (cmd_tt_cmd ∷ cmd_tt_space ∷ cmd_tt_reg ∷ []) cmd_it_none
    ∷ cmd ("sub" ∷ " " ∷ "c" ∷ []) (cmd_tt_cmd ∷ cmd_tt_space ∷ cmd_tt_reg ∷ []) cmd_it_none
    ∷ cmd ("sub" ∷ " " ∷ "d" ∷ []) (cmd_tt_cmd ∷ cmd_tt_space ∷ cmd_tt_reg ∷ []) cmd_it_none
    ∷ cmd ("sub" ∷ " " ∷ "e" ∷ []) (cmd_tt_cmd ∷ cmd_tt_space ∷ cmd_tt_reg ∷ []) cmd_it_none
    ∷ cmd ("sub" ∷ " " ∷ "h" ∷ []) (cmd_tt_cmd ∷ cmd_tt_space ∷ cmd_tt_reg ∷ []) cmd_it_none
    ∷ cmd ("sub" ∷ " " ∷ "l" ∷ []) (cmd_tt_cmd ∷ cmd_tt_space ∷ cmd_tt_reg ∷ []) cmd_it_none
    ∷ cmd ("sub" ∷ " " ∷ "m" ∷ []) (cmd_tt_cmd ∷ cmd_tt_space ∷ cmd_tt_reg ∷ []) cmd_it_none
    ∷ cmd ("sub" ∷ " " ∷ "a" ∷ []) (cmd_tt_cmd ∷ cmd_tt_space ∷ cmd_tt_reg ∷ []) cmd_it_none
    ∷ cmd ("sbb" ∷ " " ∷ "b" ∷ []) (cmd_tt_cmd ∷ cmd_tt_space ∷ cmd_tt_reg ∷ []) cmd_it_none
    ∷ cmd ("sbb" ∷ " " ∷ "c" ∷ []) (cmd_tt_cmd ∷ cmd_tt_space ∷ cmd_tt_reg ∷ []) cmd_it_none
    ∷ cmd ("sbb" ∷ " " ∷ "d" ∷ []) (cmd_tt_cmd ∷ cmd_tt_space ∷ cmd_tt_reg ∷ []) cmd_it_none
    ∷ cmd ("sbb" ∷ " " ∷ "e" ∷ []) (cmd_tt_cmd ∷ cmd_tt_space ∷ cmd_tt_reg ∷ []) cmd_it_none
    ∷ cmd ("sbb" ∷ " " ∷ "h" ∷ []) (cmd_tt_cmd ∷ cmd_tt_space ∷ cmd_tt_reg ∷ []) cmd_it_none
    ∷ cmd ("sbb" ∷ " " ∷ "l" ∷ []) (cmd_tt_cmd ∷ cmd_tt_space ∷ cmd_tt_reg ∷ []) cmd_it_none
    ∷ cmd ("sbb" ∷ " " ∷ "m" ∷ []) (cmd_tt_cmd ∷ cmd_tt_space ∷ cmd_tt_reg ∷ []) cmd_it_none
    ∷ cmd ("sbb" ∷ " " ∷ "a" ∷ []) (cmd_tt_cmd ∷ cmd_tt_space ∷ cmd_tt_reg ∷ []) cmd_it_none
    ∷ []

-- 0xA0 to 0xAF
abbrev pub i8080_row_a0 : List Cmd
i8080_row_a0 =
    cmd ("ana" ∷ " " ∷ "b" ∷ []) (cmd_tt_cmd ∷ cmd_tt_space ∷ cmd_tt_reg ∷ []) cmd_it_none
    ∷ cmd ("ana" ∷ " " ∷ "c" ∷ []) (cmd_tt_cmd ∷ cmd_tt_space ∷ cmd_tt_reg ∷ []) cmd_it_none
    ∷ cmd ("ana" ∷ " " ∷ "d" ∷ []) (cmd_tt_cmd ∷ cmd_tt_space ∷ cmd_tt_reg ∷ []) cmd_it_none
    ∷ cmd ("ana" ∷ " " ∷ "e" ∷ []) (cmd_tt_cmd ∷ cmd_tt_space ∷ cmd_tt_reg ∷ []) cmd_it_none
    ∷ cmd ("ana" ∷ " " ∷ "h" ∷ []) (cmd_tt_cmd ∷ cmd_tt_space ∷ cmd_tt_reg ∷ []) cmd_it_none
    ∷ cmd ("ana" ∷ " " ∷ "l" ∷ []) (cmd_tt_cmd ∷ cmd_tt_space ∷ cmd_tt_reg ∷ []) cmd_it_none
    ∷ cmd ("ana" ∷ " " ∷ "m" ∷ []) (cmd_tt_cmd ∷ cmd_tt_space ∷ cmd_tt_reg ∷ []) cmd_it_none
    ∷ cmd ("ana" ∷ " " ∷ "a" ∷ []) (cmd_tt_cmd ∷ cmd_tt_space ∷ cmd_tt_reg ∷ []) cmd_it_none
    ∷ cmd ("xra" ∷ " " ∷ "b" ∷ []) (cmd_tt_cmd ∷ cmd_tt_space ∷ cmd_tt_reg ∷ []) cmd_it_none
    ∷ cmd ("xra" ∷ " " ∷ "c" ∷ []) (cmd_tt_cmd ∷ cmd_tt_space ∷ cmd_tt_reg ∷ []) cmd_it_none
    ∷ cmd ("xra" ∷ " " ∷ "d" ∷ []) (cmd_tt_cmd ∷ cmd_tt_space ∷ cmd_tt_reg ∷ []) cmd_it_none
    ∷ cmd ("xra" ∷ " " ∷ "e" ∷ []) (cmd_tt_cmd ∷ cmd_tt_space ∷ cmd_tt_reg ∷ []) cmd_it_none
    ∷ cmd ("xra" ∷ " " ∷ "h" ∷ []) (cmd_tt_cmd ∷ cmd_tt_space ∷ cmd_tt_reg ∷ []) cmd_it_none
    ∷ cmd ("xra" ∷ " " ∷ "l" ∷ []) (cmd_tt_cmd ∷ cmd_tt_space ∷ cmd_tt_reg ∷ []) cmd_it_none
    ∷ cmd ("xra" ∷ " " ∷ "m" ∷ []) (cmd_tt_cmd ∷ cmd_tt_space ∷ cmd_tt_reg ∷ []) cmd_it_none
    ∷ cmd ("xra" ∷ " " ∷ "a" ∷ []) (cmd_tt_cmd ∷ cmd_tt_space ∷ cmd_tt_reg ∷ []) cmd_it_none
    ∷ []

-- 0xB0 to 0xBF
abbrev pub i8080_row_b0 : List Cmd
i8080_row_b0 =
    cmd ("ora" ∷ " " ∷ "b" ∷ []) (cmd_tt_cmd ∷ cmd_tt_space ∷ cmd_tt_reg ∷ []) cmd_it_none
    ∷ cmd ("ora" ∷ " " ∷ "c" ∷ []) (cmd_tt_cmd ∷ cmd_tt_space ∷ cmd_tt_reg ∷ []) cmd_it_none
    ∷ cmd ("ora" ∷ " " ∷ "d" ∷ []) (cmd_tt_cmd ∷ cmd_tt_space ∷ cmd_tt_reg ∷ []) cmd_it_none
    ∷ cmd ("ora" ∷ " " ∷ "e" ∷ []) (cmd_tt_cmd ∷ cmd_tt_space ∷ cmd_tt_reg ∷ []) cmd_it_none
    ∷ cmd ("ora" ∷ " " ∷ "h" ∷ []) (cmd_tt_cmd ∷ cmd_tt_space ∷ cmd_tt_reg ∷ []) cmd_it_none
    ∷ cmd ("ora" ∷ " " ∷ "l" ∷ []) (cmd_tt_cmd ∷ cmd_tt_space ∷ cmd_tt_reg ∷ []) cmd_it_none
    ∷ cmd ("ora" ∷ " " ∷ "m" ∷ []) (cmd_tt_cmd ∷ cmd_tt_space ∷ cmd_tt_reg ∷ []) cmd_it_none
    ∷ cmd ("ora" ∷ " " ∷ "a" ∷ []) (cmd_tt_cmd ∷ cmd_tt_space ∷ cmd_tt_reg ∷ []) cmd_it_none
    ∷ cmd ("cmp" ∷ " " ∷ "b" ∷ []) (cmd_tt_cmd ∷ cmd_tt_space ∷ cmd_tt_reg ∷ []) cmd_it_none
    ∷ cmd ("cmp" ∷ " " ∷ "c" ∷ []) (cmd_tt_cmd ∷ cmd_tt_space ∷ cmd_tt_reg ∷ []) cmd_it_none
    ∷ cmd ("cmp" ∷ " " ∷ "d" ∷ []) (cmd_tt_cmd ∷ cmd_tt_space ∷ cmd_tt_reg ∷ []) cmd_it_none
    ∷ cmd ("cmp" ∷ " " ∷ "e" ∷ []) (cmd_tt_cmd ∷ cmd_tt_space ∷ cmd_tt_reg ∷ []) cmd_it_none
    ∷ cmd ("cmp" ∷ " " ∷ "h" ∷ []) (cmd_tt_cmd ∷ cmd_tt_space ∷ cmd_tt_reg ∷ []) cmd_it_none
    ∷ cmd ("cmp" ∷ " " ∷ "l" ∷ []) (cmd_tt_cmd ∷ cmd_tt_space ∷ cmd_tt_reg ∷ []) cmd_it_none
    ∷ cmd ("cmp" ∷ " " ∷ "m" ∷ []) (cmd_tt_cmd ∷ cmd_tt_space ∷ cmd_tt_reg ∷ []) cmd_it_none
    ∷ cmd ("cmp" ∷ " " ∷ "a" ∷ []) (cmd_tt_cmd ∷ cmd_tt_space ∷ cmd_tt_reg ∷ []) cmd_it_none
    ∷ []
