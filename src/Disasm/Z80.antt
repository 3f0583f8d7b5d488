-- ===== src/Disasm/Z80.antt =====
-- The array of the commands by opcode (libs/v6core/include/core/disasm_z80_cmds.h).
mod Data
mod Low
mod Mov
mod Alu
mod High
use v6emul.Base.{List, ◌++◌}
use v6emul.Disasm.Cmd.{Cmd}
use v6emul.Disasm.Z80.Low.{z80_row_00, z80_row_10, z80_row_20, z80_row_30}
use v6emul.Disasm.Z80.Mov.{z80_row_40, z80_row_50, z80_row_60, z80_row_70}
use v6emul.Disasm.Z80.Alu.{z80_row_80, z80_row_90, z80_row_a0, z80_row_b0}
use v6emul.Disasm.Z80.High.{z80_row_c0, z80_row_d0, z80_row_e0, z80_row_f0}

-- 0x00 to 0x7F
abbrev cmds_z80_low : List Cmd
cmds_z80_low =
    z80_row_00 ++ z80_row_10 ++ z80_row_20 ++ z80_row_30 ++ z80_row_40 ++ z80_row_50 ++ z80_row_60
    ++ z80_row_70

-- 0x80 to 0xFF
abbrev cmds_z80_high : List Cmd
cmds_z80_high =
    z80_row_80 ++ z80_row_90 ++ z80_row_a0 ++ z80_row_b0 ++ z80_row_c0 ++ z80_row_d0 ++ z80_row_e0
    ++ z80_row_f0

-- `cmds_z80`
abbrev pub cmds_z80 : List Cmd
cmds_z80 = cmds_z80_low ++ cmds_z80_high
