-- ===== src/Disasm/Print/Width.antt =====
-- The line of the trace log: every instruction fits its column, so that the registers of all lines
-- stand under each other, and no text is written past the buffer.
use v6emul.Base.{
  ℕ, zero, suc, ◌+◌, ◌-◌, ◌*◌, ◌/◌, ◌%◌, ◌^◌, ◌<◌, ◌≤◌, ◌≡◌, refl, sym, ap, ◌∙◌, arith, Bool, true,
  ◌&&◌, some, List, [], ◌∷◌, ◌++◌, length, replicate, take, leb, ltb, ◌==◌, if◌then◌else◌,
  all_below, all_below_sound,
}
use v6emul.Base.Text.{Bytes, codes}
use v6emul.Memory.{Memory, get_global_addr, ram, memory_global_len}
use v6emul.Memory.Bounds.{IsValid, get_global_addr_bounds}
use v6emul.Cpu.State.{Cpu, get_word, pair_bc, pair_de, pair_hl}
use v6emul.Cpu.Valid.{IsCpu}
use v6emul.Cpu.Tables.{get_instr_len}
use v6emul.Disasm.Cmd.{CmdTokenType}
use v6emul.Disasm.Hex.{
  print_number, uint8_to_str_c, length-append, length-replicate, length-print_number,
  length-print_number_long, length-uint8_to_str_c, length-uint16_to_str_c,
}
use v6emul.Disasm.Table.{
  DisasmLang, disasm_lang_i8080, disasm_lang_z80, Instr, data_w, cmds, cmd_at, is_imm,
}
use v6emul.Disasm.Print.{
  put, imm_text, token_text, print_tokens, rest_of, read_instr, head_text, digit_text, regs_text,
  display_text, align, end_line, print_to_buffer, line_buff_len, instr_len_max,
}
use Prim.Native.String.{String}

IsInstr : Instr → Type 0
IsInstr i = (i.opcode < 256) × (i.data_l < 256) × (i.data_h < 256)

abbrev imm_width : ℕ → ℕ
imm_width instr_len = if instr_len == 1 then 2 else 4

length-imm_text : (n : ℕ) (i : Instr) → IsInstr i → length (imm_text n i) ≡ imm_width n
unfolding imm_text IsInstr
length-imm_text n i (o, l, h) =
    ground
      (arith, length-uint8_to_str_c i.data_l l, length-uint16_to_str_c (data_w i) (omega arith))

-- the width of a command, and whether it has a text for each token but the operand
abbrev width : ℕ → List CmdTokenType → List String → ℕ
width n [] texts = 0
width n (type ∷ types) [] = imm_width n + width n types []
width n (type ∷ types) (t ∷ ts) =
    (if is_imm type then imm_width n else length (codes t)) + width n types ts

abbrev printable : List CmdTokenType → List String → Bool
printable [] texts = true
printable (type ∷ types) [] = is_imm type && printable types []
printable (type ∷ types) (t ∷ ts) = printable types ts

fits : DisasmLang → ℕ → Bool
fits lang v =
    let c = cmd_at lang v in
    let w = width (get_instr_len v) c.token_types c.tokens in
    printable c.token_types c.tokens && ltb 0 w && leb w 14

all_fit : (lang : DisasmLang) → all_below 256 (fits lang) ≡ true
unfolding fits cmd_at cmds get_instr_len all_below
all_fit disasm_lang_i8080 = refl
all_fit disasm_lang_z80 = refl

length-head_text : (g n : ℕ) (i : Instr) → g < 2 ^ 24 → IsInstr i → length (head_text g n i) ≡ 18
unfolding head_text IsInstr
length-head_text g n i hg (o, l, h) =
    let byte_or_blank : (b : Bool) (v : ℕ)
        → v < 256
        → length (if b then uint8_to_str_c v else codes "  ") ≡ 2 =
      λ b v hv. ground (arith, length-uint8_to_str_c v hv) in
    simp (
      length-append,
      length-print_number 16 5 g (omega arith) hg,
      length-uint8_to_str_c i.opcode o,
      byte_or_blank (ltb 1 n) i.data_l l,
      byte_or_blank (ltb 2 n) i.data_h h,
    )

-- The registers and the display.
length-regs_text :
    (s : Cpu) → IsCpu s → length (regs_text s) ≡ 57 + length (print_number 10 12 s.cc)
unfolding regs_text
length-regs_text s v =
    let flag : (b : Bool) → length (digit_text b) ≡ 1 = λ b. ground arith in
    simp (
      length-append,
      length-uint8_to_str_c s.a v.a_in,
      length-uint16_to_str_c (get_word pair_bc s) (omega (arith, v.b_in, v.c_in)),
      length-uint16_to_str_c (get_word pair_de s) (omega (arith, v.d_in, v.e_in)),
      length-uint16_to_str_c (get_word pair_hl s) (omega (arith, v.h_in, v.l_in)),
      length-uint16_to_str_c s.sp v.sp_in,
      flag s.fs,
      flag s.fz,
      flag s.fac,
      flag s.fp,
      flag s.fc,
    )

length-display_text :
    (fb scroll : ℕ) → fb < 768 * 312 → scroll < 256 → length (display_text fb scroll) ≡ 20
unfolding display_text
length-display_text fb scroll hf hs = simp (
  length-append,
  length-print_number 10 2 (fb % 768) (omega arith) (omega arith),
  length-print_number 10 2 (fb / 768) (omega arith) (omega arith),
  length-print_number 16 1 scroll (omega arith) hs,
)

put-some : (text t : Bytes) → length text ≤ line_buff_len → put text t ≡ some (text ++ t)
unfolding put
put-some text t h = ground arith

append-nil : (s : Bytes) → s ++ [] ≡ s
append-nil [] = refl
append-nil (c ∷ s) = ap (λ t. c ∷ t) (append-nil s)

append_assoc : (s t u : Bytes) → (s ++ t) ++ u ≡ s ++ (t ++ u)
append_assoc [] t u = refl
append_assoc (c ∷ s) t u = ap (λ r. c ∷ r) (append_assoc s t u)

-- What the tokens add to the text, when it has room.
Adds : ℕ → Instr → List CmdTokenType → List String → Bytes → Type 0
Adds n i types texts text =
    (t : Bytes) × (print_tokens n i types texts text ≡ some (text ++ t))
    × (length t ≡ width n types texts)

module _ (n : ℕ) (i : Instr) (v : IsInstr i) where
  one_token :
      (type : CmdTokenType) (types : List CmdTokenType) (texts : List String) (text piece : Bytes)
      → token_text n i type texts ≡ some piece
      → length text ≤ line_buff_len
      → print_tokens n i (type ∷ types) texts text
        ≡ print_tokens n i types (rest_of texts) (text ++ piece)
  unfolding print_tokens
  one_token type types texts text piece e room = rw (e, put-some text piece room)

  next_token :
      (type : CmdTokenType) (types : List CmdTokenType) (texts : List String) (text piece : Bytes)
      → token_text n i type texts ≡ some piece
      → length text ≤ line_buff_len
      → width n (type ∷ types) texts ≡ length piece + width n types (rest_of texts)
      → Adds n i types (rest_of texts) (text ++ piece)
      → Adds n i (type ∷ types) texts text
  unfolding Adds
  next_token type types texts text piece e room w (t, printed, len) = (
    piece ++ t,
    one_token type types texts text piece e room ∙ printed ∙ ap some (append_assoc text piece t),
    omega (arith, length-append piece t),
  )

  print_tokens-Adds :
      (types : List CmdTokenType) (texts : List String) (text : Bytes)
      → printable types texts ≡ true
      → length text + width n types texts ≤ line_buff_len
      → Adds n i types texts text
  unfolding Adds print_tokens token_text
  print_tokens-Adds [] texts text p w = ([], sym (ap some (append-nil text)), refl)
  print_tokens-Adds (type ∷ types) [] text p w =
      let imm : is_imm type ≡ true = ground arith in
      let piece = imm_text n i in
      let rest =
        print_tokens-Adds types [] (text ++ piece) (ground arith)
          (omega (arith, length-append text piece, length-imm_text n i v)) in
      next_token type types [] text piece (ground arith) (omega arith)
        (omega (arith, length-imm_text n i v)) rest
  print_tokens-Adds (type ∷ types) (s ∷ ss) text p w =
      let piece = if is_imm type then imm_text n i else codes s in
      let len : length piece + width n types ss ≡ width n (type ∷ types) (s ∷ ss) =
        ground (arith, length-imm_text n i v) in
      let rest =
        print_tokens-Adds types ss (text ++ piece) p
          (omega (arith, length-append text piece, len)) in
      next_token type types (s ∷ ss) text piece refl (omega arith) (sym len) rest

take-all : (n : ℕ) (s : Bytes) → length s ≤ n → take n s ≡ s
take-all zero [] h = refl
take-all zero (c ∷ s) h = absurd (omega arith)
take-all (suc n) [] h = refl
take-all (suc n) (c ∷ s) h = ap (λ t. c ∷ t) (take-all n s (omega arith))

-- A text of one to fourteen characters is padded to the column.
align-some :
    (instr_pos : ℕ) (text : Bytes)
    → instr_pos < length text
    → length text ≤ instr_pos + instr_len_max
    → (head : Bytes) × (align instr_pos text ≡ some head)
      × (length head ≡ instr_pos + instr_len_max)
unfolding align
align-some instr_pos text h w =
    let column = instr_pos + instr_len_max in
    let blanks = replicate (column - length text) 32 in
    (
      text ++ blanks,
      ground (arith, h, w),
      omega (arith, length-append text blanks, length-replicate (column - length text) 32),
    )

-- The text before the registers.
pub IsHead : DisasmLang → Cpu → Memory → ℕ → ℕ → Bytes → Type 0
IsHead lang s m fb scroll head =
    (length head ≡ 32)
    × (print_to_buffer lang s m fb scroll true
        ≡ some (end_line (head ++ regs_text s ++ display_text fb scroll)))
    × (s.cc < 10 ^ 12
        → end_line (head ++ regs_text s ++ display_text fb scroll)
          ≡ (head ++ regs_text s ++ display_text fb scroll) ++ codes "\n")

after_tokens :
    (lang : DisasmLang) (s : Cpu) (m : Memory) (fb scroll : ℕ) (i : Instr) (text head : Bytes)
    → read_instr (get_global_addr m s.pc ram) m ≡ some i
    → length (head_text (get_global_addr m s.pc ram) (get_instr_len i.opcode) i) ≡ 18
    → print_tokens
        (get_instr_len i.opcode)
        i
        (cmd_at lang i.opcode).token_types
        (cmd_at lang i.opcode).tokens
        (head_text (get_global_addr m s.pc ram) (get_instr_len i.opcode) i)
      ≡ some text
    → align 18 text ≡ some head
    → length head ≡ 32
    → length (regs_text s) ≤ 77
    → print_to_buffer lang s m fb scroll true
      ≡ some (end_line (head ++ regs_text s ++ display_text fb scroll))
unfolding print_to_buffer
after_tokens lang s m fb scroll i text head read len printed padded aligned fit =
    let room : length (head ++ regs_text s) ≤ line_buff_len =
      omega (arith, length-append head (regs_text s)) in
    rw (
      read,
      printed,
      len,
      padded,
      put-some head (regs_text s) (omega arith),
      put-some (head ++ regs_text s) (display_text fb scroll) room,
      append_assoc head (regs_text s) (display_text fb scroll),
    )

-- The instruction at PC, if three bytes lie in the RAM from there on.
instr_at : Cpu → Memory → Instr
instr_at s m =
    let g = get_global_addr m s.pc ram in
    record { opcode = m.cells g; data_l = m.cells (g + 1); data_h = m.cells (g + 2) }

read_instr_at :
    (s : Cpu) (m : Memory)
    → IsValid m
    → s.pc < 0xfffe
    → (read_instr (get_global_addr m s.pc ram) m ≡ some (instr_at s m))
      × IsInstr (instr_at s m)
      × (get_global_addr m s.pc ram < 2 ^ 24)
unfolding read_instr instr_at IsInstr
read_instr_at s m v h =
    let g = get_global_addr m s.pc ram in
    let (below, offset) = get_global_addr_bounds m s.pc ram v.disk_in (omega arith) in
    let inside : g + 2 < memory_global_len = omega arith in
    (ground arith, (v.cells_bytes g, v.cells_bytes (g + 1), v.cells_bytes (g + 2)), omega arith)

command_width : DisasmLang → ℕ → ℕ
command_width lang v = width (get_instr_len v) (cmd_at lang v).token_types (cmd_at lang v).tokens

fits_lem :
    (lang : DisasmLang) (v : ℕ)
    → v < 256
    → (printable (cmd_at lang v).token_types (cmd_at lang v).tokens ≡ true)
      × (0 < command_width lang v)
      × (command_width lang v ≤ 14)
unfolding fits command_width
fits_lem lang v h =
    let passed : fits lang v ≡ true = all_below_sound 256 (fits lang) v (all_fit lang) h in
    ground (arith, passed)

-- The text up to the column of the registers.
fills :
    (lang : DisasmLang) (g : ℕ) (i : Instr)
    → g < 2 ^ 24
    → IsInstr i
    → (text head : Bytes) × (print_tokens
          (get_instr_len i.opcode)
          i
          (cmd_at lang i.opcode).token_types
          (cmd_at lang i.opcode).tokens
          (head_text g (get_instr_len i.opcode) i)
        ≡ some text)
      × (align 18 text ≡ some head)
      × (length head ≡ 32)
unfolding IsInstr Adds command_width
fills lang g i small iv =
    let (p, some_width, fit) = fits_lem lang i.opcode iv.0 in
    let start = length-head_text g (get_instr_len i.opcode) i small iv in
    let head = head_text g (get_instr_len i.opcode) i in
    let (t, printed, len) =
      print_tokens-Adds (get_instr_len i.opcode) i iv (cmd_at lang i.opcode).token_types
        (cmd_at lang i.opcode).tokens head p (omega arith) in
    let size = length-append head t in
    let (line, padded, column) = align-some 18 (head ++ t) (omega arith) (omega arith) in
    (head ++ t, line, printed, padded, column)

length-line :
    (head regs disp : Bytes)
    → length head ≡ 32
    → length regs ≡ 69
    → length disp ≡ 20
    → length (head ++ regs ++ disp) ≤ 125
length-line head regs disp h r d =
    omega (arith, length-append (head ++ regs) disp, length-append head regs)

-- For registers of their widths, a valid memory, PC below 0xFFFE, a pixel of the frame and a byte
-- for the scroll, `PrintToBuffer` reads and writes inside its arrays for every instruction in both
-- syntaxes: the text of an instruction is at most 14 wide, so that the count of spaces after it
-- does not wrap, and the registers begin at column 32 of the line. The line is cut to the buffer,
-- and with fewer than 10 ^ 12 cycles it is whole.
pub print_to_buffer-IsHead :
    (lang : DisasmLang) (s : Cpu) (m : Memory) (fb scroll : ℕ)
    → IsCpu s
    → IsValid m
    → s.pc < 0xfffe
    → s.cc < 2 ^ 64
    → fb < 768 * 312
    → scroll < 256
    → (head : Bytes) × IsHead lang s m fb scroll head
unfolding IsHead IsInstr end_line
print_to_buffer-IsHead lang s m fb scroll sv mv hpc hcc hfb hscroll =
    let i = instr_at s m in
    let (read, iv, small) = read_instr_at s m mv hpc in
    let (text, head, printed, padded, aligned) =
      fills lang (get_global_addr m s.pc ram) i small iv in
    let regs = length-regs_text s sv in
    let cycles = length-print_number_long s.cc (omega arith) in
    let whole : s.cc < 10 ^ 12 → length (head ++ regs_text s ++ display_text fb scroll) ≤ 125 =
      λ few.
        length-line head (regs_text s) (display_text fb scroll) aligned
          (omega (arith, regs, length-print_number 10 11 s.cc (omega arith) few))
          (length-display_text fb scroll hfb hscroll) in
    (
      head,
      (
        aligned,
        after_tokens lang s m fb scroll i text head read
            (length-head_text (get_global_addr m s.pc ram) (get_instr_len i.opcode) i small iv)
            printed padded aligned (omega (arith, regs, cycles)),
        λ few. ap (λ r. r ++ codes "\n") (take-all 125 _ (whole few)),
      ),
    )
