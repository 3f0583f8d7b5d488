-- ===== src/Disasm/Z80/Data.antt =====
-- The command of libs/v6core/include/core/disasm_z80_cmds.h for a byte that is no documented opcode.
use v6emul.Base.{[], ◌∷◌}
use v6emul.Disasm.Cmd.{Cmd, cmd, cmd_tt_cmd, cmd_tt_imm, cmd_tt_space, cmd_it_b0}

abbrev pub z80_cmd_db_n : Cmd
z80_cmd_db_n = cmd ("db" ∷ " " ∷ []) (cmd_tt_cmd ∷ cmd_tt_space ∷ cmd_tt_imm ∷ []) cmd_it_b0
