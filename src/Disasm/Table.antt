-- ===== src/Disasm/Table.antt =====
-- The command syntax in use and what a command's bytes say: `SetDisasmLang`, `InstrToImm`
-- (libs/v6core/src/disasm.cpp).
use v6emul.Base.{ℕ, ◌+◌, ◌*◌, Bool, true, false, List, [], get_or}
use v6emul.Disasm.Cmd.{
  Cmd, cmd, CmdImmType, CmdTokenType, cmd_it_none, cmd_it_b0, cmd_it_b1, cmd_it_w1, cmd_tt_imm,
}
use v6emul.Disasm.I8080.{cmds_i8080}
use v6emul.Disasm.Z80.{cmds_z80}

-- `DisasmLang`
pub data DisasmLang : Type 0 where
  disasm_lang_i8080 disasm_lang_z80 : DisasmLang

-- `SetDisasmLang`: what `cmdsP` points to
unfoldable pub cmds : DisasmLang → List Cmd
cmds disasm_lang_i8080 = cmds_i8080
cmds disasm_lang_z80 = cmds_z80

-- `IsDisasmLangZ80`
abbrev pub is_disasm_lang_z80 : DisasmLang → Bool
is_disasm_lang_z80 disasm_lang_z80 = true
is_disasm_lang_z80 disasm_lang_i8080 = false

-- `cmdsP->at(opcode)`
unfoldable pub cmd_at : DisasmLang → ℕ → Cmd
cmd_at lang opcode = get_or (cmds lang) opcode (cmd [] [] cmd_it_none)

-- `Memory::Instr`
pub record Instr : Type 0 where
  pub opcode : ℕ
  pub data_l : ℕ
  pub data_h : ℕ

abbrev pub data_w : Instr → ℕ
data_w instr = instr.data_l + instr.data_h * 256

-- `InstrToImm`
unfoldable pub instr_to_imm : Instr → CmdImmType → ℕ
instr_to_imm instr cmd_it_b0 = instr.opcode
instr_to_imm instr cmd_it_b1 = instr.data_l
instr_to_imm instr cmd_it_none = data_w instr
instr_to_imm instr cmd_it_w1 = data_w instr

abbrev pub is_imm : CmdTokenType → Bool
is_imm cmd_tt_imm = true
is_imm type = false
