-- ===== src/Disasm/Cmd.antt =====
-- The types of a disassembled command (libs/v6core/include/core/disasm.h).
use v6emul.Base.{List}
use Prim.Native.String.{String}

-- `CmdImmType`
pub data CmdImmType : Type 0 where
  cmd_it_none cmd_it_b0 cmd_it_b1 cmd_it_w1 : CmdImmType

-- `CmdTokenType`
pub data CmdTokenType : Type 0 where
  cmd_tt_none cmd_tt_cmd cmd_tt_reg cmd_tt_imm cmd_tt_bimm cmd_tt_comma : CmdTokenType
  cmd_tt_comma_space cmd_tt_space cmd_tt_lparen cmd_tt_rparen : CmdTokenType
  cmd_tt_label cmd_tt_const cmd_tt_comment : CmdTokenType

-- `Cmd`: a token past the end of the list is the null pointer that the array of seven holds there.
pub record Cmd : Type 0 where
  pub tokens : List String
  pub token_types : List CmdTokenType
  pub imm_type : CmdImmType

abbrev pub cmd : List String → List CmdTokenType → CmdImmType → Cmd
cmd tokens types imm = record { tokens = tokens; token_types = types; imm_type = imm }
