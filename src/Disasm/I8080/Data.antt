-- ===== src/Disasm/I8080/Data.antt =====
-- The command of libs/v6core/include/core/disasm_i8080_cmds.h for a byte that is no documented opcode.
use v6emul.Base.{[], ◌∷◌}
use v6emul.Disasm.Cmd.{Cmd, cmd, cmd_tt_cmd, cmd_tt_imm, cmd_tt_space, cmd_it_b0}

abbrev pub cmd_db_n : Cmd
cmd_db_n = cmd ("db" ∷ " " ∷ "N" ∷ []) (cmd_tt_cmd ∷ cmd_tt_space ∷ cmd_tt_imm ∷ []) cmd_it_b0
