-- ===== src/Disasm/Print.antt =====
-- `DisasmLine::PrintToBuffer` (libs/v6core/src/disasm.cpp), which writes a line of the trace log.
-- The buffer is the text before `current_char_idx`, cut to its size at the end. `none` is a write or
-- a read out of bounds, and a null pointer for a text. The return of an error by `snprintf` is left
-- out: the formats have no wide characters, which alone can give one.
pub mod Width
use v6emul.Base.{
  ℕ, zero, suc, ◌+◌, ◌-◌, ◌*◌, ◌/◌, ◌%◌, Bool, true, false, Option, none, some, ◌>>=◌, List, [],
  ◌∷◌, ◌++◌, length, replicate, take, leb, ltb, ◌==◌, if◌then◌else◌,
}
use v6emul.Base.Text.{Bytes, codes}
use v6emul.Memory.{Memory, get_global_addr, ram, memory_global_len}
use v6emul.Display.{frame_w}
use v6emul.Cpu.State.{Cpu, get_word, pair_bc, pair_de, pair_hl}
use v6emul.Cpu.Tables.{get_instr_len}
use v6emul.Disasm.Cmd.{CmdTokenType}
use v6emul.Disasm.Hex.{print_number, uint8_to_str_c, uint16_to_str_c}
use v6emul.Disasm.Table.{DisasmLang, Instr, data_w, cmd_at, is_imm}
use Prim.Native.String.{String}

abbrev pub line_buff_len : ℕ
line_buff_len = 127

abbrev pub instr_len_max : ℕ
instr_len_max = 14

-- `snprintf(&_buffer[current_char_idx], LINE_BUFF_LEN - current_char_idx, …)`
unfoldable pub put : Bytes → Bytes → Option Bytes
put text t = if leb (length text) line_buff_len then some (text ++ t) else none

-- the operand as it is printed
unfoldable pub imm_text : ℕ → Instr → Bytes
imm_text instr_len i =
    if instr_len == 1 then uint8_to_str_c i.data_l else uint16_to_str_c (data_w i)

-- `tokens[i]`, or the operand in its place
unfoldable pub token_text : ℕ → Instr → CmdTokenType → List String → Option Bytes
token_text instr_len i type [] = if is_imm type then some (imm_text instr_len i) else none
token_text instr_len i type (t ∷ ts) = some (if is_imm type then imm_text instr_len i else codes t)

abbrev rest_of : List String → List String
rest_of [] = []
rest_of (t ∷ ts) = ts

-- the loop over the tokens
unfoldable pub print_tokens : ℕ → Instr → List CmdTokenType → List String → Bytes → Option Bytes
print_tokens instr_len i [] tokens text = some text
print_tokens instr_len i (type ∷ types) tokens text = do
  t ← token_text instr_len i type tokens
  text ← put text t
  print_tokens instr_len i types (rest_of tokens) text

-- `dataL` and `dataH` come from the RAM behind the opcode, whatever the ROM holds.
unfoldable pub read_instr : ℕ → Memory → Option Instr
read_instr global_addr m =
    if ltb (global_addr + 2) memory_global_len
    then some (record {
      opcode = m.cells global_addr;
      data_l = m.cells (global_addr + 1);
      data_h = m.cells (global_addr + 2);
    })
    else none

unfoldable pub head_text : ℕ → ℕ → Instr → Bytes
head_text global_addr instr_len i =
    print_number 16 6 global_addr
    ++ codes "  "
    ++ uint8_to_str_c i.opcode
    ++ codes " "
    ++ (if ltb 1 instr_len then uint8_to_str_c i.data_l else codes "  ")
    ++ codes " "
    ++ (if ltb 2 instr_len then uint8_to_str_c i.data_h else codes "  ")
    ++ codes "  "

abbrev pub digit_text : Bool → Bytes
digit_text b = if b then codes "1" else codes "0"

unfoldable pub regs_text : Cpu → Bytes
regs_text s =
    codes "A="
    ++ uint8_to_str_c s.a
    ++ codes " BC="
    ++ uint16_to_str_c (get_word pair_bc s)
    ++ codes " DE="
    ++ uint16_to_str_c (get_word pair_de s)
    ++ codes " HL="
    ++ uint16_to_str_c (get_word pair_hl s)
    ++ codes " SP="
    ++ uint16_to_str_c s.sp
    ++ codes " S"
    ++ digit_text s.fs
    ++ codes " Z"
    ++ digit_text s.fz
    ++ codes " AC"
    ++ digit_text s.fac
    ++ codes " P"
    ++ digit_text s.fp
    ++ codes " CY"
    ++ digit_text s.fc
    ++ codes " CC="
    ++ print_number 10 12 s.cc

unfoldable pub display_text : ℕ → ℕ → Bytes
display_text fb_idx scroll_idx =
    codes " scr="
    ++ print_number 10 3 (fb_idx % frame_w)
    ++ codes "/"
    ++ print_number 10 3 (fb_idx / frame_w)
    ++ codes " scrl="
    ++ print_number 16 2 scroll_idx

-- the spaces up to the column of the registers, if the instruction is printed at all; a text past the
-- column would wrap the count of spaces, and fill memory past the buffer, `none`
unfoldable pub align : ℕ → Bytes → Option Bytes
align instr_pos text =
    let column = instr_pos + instr_len_max in
    if length text == instr_pos
    then some text
    else if leb (length text) column
    then some (text ++ replicate (column - length text) 32)
    else none

-- the last two characters, the second of which ends the text
unfoldable pub end_line : Bytes → Bytes
end_line text = take (line_buff_len - 2) text ++ codes "\n"

-- `PrintToBuffer`: the text that it leaves in the buffer
unfoldable pub print_to_buffer : DisasmLang → Cpu → Memory → ℕ → ℕ → Bool → Option Bytes
print_to_buffer lang s m fb_idx scroll_idx print_disasm = do
  i ← read_instr (get_global_addr m s.pc ram) m
  let instr_len = get_instr_len i.opcode
  let head = head_text (get_global_addr m s.pc ram) instr_len i
  let cmd = cmd_at lang i.opcode
  text ←
      if print_disasm then print_tokens instr_len i cmd.token_types cmd.tokens head else some head
  text ← align (length head) text
  text ← put text (regs_text s)
  text ← put text (display_text fb_idx scroll_idx)
  some (end_line text)
