-- ===== src/Disasm/I8080.antt =====
-- The array of the commands by opcode (libs/v6core/include/core/disasm_i8080_cmds.h).
mod Data
mod Low
mod Mov
mod Alu
mod High
use v6emul.Base.{List, ◌++◌}
use v6emul.Disasm.Cmd.{Cmd}
use v6emul.Disasm.I8080.Low.{i8080_row_00, i8080_row_10, i8080_row_20, i8080_row_30}
use v6emul.Disasm.I8080.Mov.{i8080_row_40, i8080_row_50, i8080_row_60, i8080_row_70}
use v6emul.Disasm.I8080.Alu.{i8080_row_80, i8080_row_90, i8080_row_a0, i8080_row_b0}
use v6emul.Disasm.I8080.High.{i8080_row_c0, i8080_row_d0, i8080_row_e0, i8080_row_f0}

-- 0x00 to 0x7F
abbrev cmds_i8080_low : List Cmd
cmds_i8080_low =
    i8080_row_00 ++ i8080_row_10 ++ i8080_row_20 ++ i8080_row_30 ++ i8080_row_40 ++ i8080_row_50
    ++ i8080_row_60 ++ i8080_row_70

-- 0x80 to 0xFF
abbrev cmds_i8080_high : List Cmd
cmds_i8080_high =
    i8080_row_80 ++ i8080_row_90 ++ i8080_row_a0 ++ i8080_row_b0 ++ i8080_row_c0 ++ i8080_row_d0
    ++ i8080_row_e0 ++ i8080_row_f0

-- `cmds_i8080`
abbrev pub cmds_i8080 : List Cmd
cmds_i8080 = cmds_i8080_low ++ cmds_i8080_high
