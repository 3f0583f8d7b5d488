-- ===== src/Disasm/Agree.antt =====
-- The tables of the disassembler against the instruction lengths of the CPU.
use v6emul.Base.{
  ℕ, ◌+◌, ◌<◌, ◌≡◌, refl, arith, Bool, true, ◌&&◌, List, [], ◌∷◌, length, leb, ◌==◌, if◌then◌else◌,
  all_below, all_below_sound,
}
use v6emul.Disasm.Cmd.{Cmd, CmdImmType, CmdTokenType, cmd_it_none, cmd_it_b0, cmd_it_b1, cmd_it_w1}
use v6emul.Disasm.Table.{DisasmLang, disasm_lang_i8080, disasm_lang_z80, cmds, cmd_at, is_imm}
use v6emul.Cpu.Tables.{get_instr_len}
use Prim.Native.String.{String}

-- the bytes of a command with such an immediate
abbrev pub imm_len : CmdImmType → ℕ
imm_len cmd_it_none = 1
imm_len cmd_it_b0 = 1
imm_len cmd_it_b1 = 2
imm_len cmd_it_w1 = 3

abbrev has_imm : CmdImmType → ℕ
has_imm cmd_it_none = 0
has_imm imm = 1

abbrev count_imm : List CmdTokenType → ℕ
count_imm [] = 0
count_imm (type ∷ types) = (if is_imm type then 1 else 0) + count_imm types

-- Each type but that of an immediate has its text.
abbrev has_texts : List CmdTokenType → List String → Bool
has_texts [] texts = true
has_texts (type ∷ types) (text ∷ texts) = has_texts types texts
has_texts (type ∷ types) [] = is_imm type && has_texts types []

pub is_well_formed : Cmd → Bool
is_well_formed c =
    has_imm c.imm_type == count_imm c.token_types
    && leb (length c.token_types) 7
    && has_texts c.token_types c.tokens

agrees : DisasmLang → ℕ → Bool
agrees lang v =
    imm_len (cmd_at lang v).imm_type == get_instr_len v && is_well_formed (cmd_at lang v)

all_agree : (lang : DisasmLang) → all_below 256 (agrees lang) ≡ true
unfolding agrees is_well_formed cmd_at cmds get_instr_len all_below
all_agree disasm_lang_i8080 = refl
all_agree disasm_lang_z80 = refl

-- For every opcode and both syntaxes, the operand in the table makes the command as long as
-- `GetInstrLen` has it, the tokens have an operand exactly if there is one, and every token but the
-- operand has a text.
pub cmd_at-length :
    (lang : DisasmLang) (v : ℕ)
    → v < 256
    → (imm_len (cmd_at lang v).imm_type ≡ get_instr_len v) × (is_well_formed (cmd_at lang v) ≡ true)
unfolding agrees
cmd_at-length lang v h =
    let passed : agrees lang v ≡ true = all_below_sound 256 (agrees lang) v (all_agree lang) h in
    ground (arith, passed)
