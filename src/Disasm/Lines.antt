-- ===== src/Disasm/Lines.antt =====
-- The lines of the disassembler window: `DisasmLine`, `UpdateDisasm` (libs/v6core/src/disasm.cpp).
-- `none` is the exception of `at` on an empty list of names. The counts of accesses and the status
-- of a breakpoint, which a line copies from other components, are left out.
pub mod Bounds
pub mod Built
use v6emul.Base.{
  ℕ, zero, suc, ◌+◌, ◌*◌, Bool, true, false, not, ◌&&◌, ◌||◌, Option, none, some, ◌>>=◌, List, [],
  ◌∷◌, ◌++◌, length, min, leb, ltb, ◌==◌, if◌then◌else◌, u16,
}
use v6emul.Base.Text.{Bytes, codes}
use v6emul.Base.Dict.{Dict, lookup}
use v6emul.Memory.{Memory, get_byte, ram}
use v6emul.Cpu.Tables.{get_instr_len}
use v6emul.DebugData.{DebugData}
use v6emul.DebugData.Names.{NameMap, get_labels}
use v6emul.Disasm.Cmd.{CmdImmType, cmd_it_none, cmd_it_b0, cmd_it_b1, cmd_it_w1}
use v6emul.Disasm.Hex.{uint8_to_str_c0x, uint16_to_str_c0x}
use v6emul.Disasm.Search.{ℤ, get_addr}
use v6emul.Disasm.Table.{DisasmLang, Instr, cmd_at, instr_to_imm}
use Prim.Native.String.{String}

abbrev pub max_labels_in_line : ℕ
max_labels_in_line = 10

abbrev pub disasm_lines_max : ℕ
disasm_lines_max = 80

-- `DisasmLine::Type`
pub data LineType : Type 0 where
  comment_line labels_line code_line : LineType

-- `ImmSubType`
pub data ImmSubType : Type 0 where
  sub_none sub_const sub_label : ImmSubType

pub record DisasmLine : Type 0 where
  pub line_type : LineType
  pub addr : ℕ
  pub opcode : ℕ
  pub imm : ℕ
  pub label : Bytes
  pub imm_str : Bytes
  pub imm_sub_type : ImmSubType
  pub comment : Bytes
  pub post_comment : Bytes

abbrev empty_line : LineType → ℕ → DisasmLine
empty_line line_type addr = record {
  line_type = line_type;
  addr = addr;
  opcode = 0;
  imm = 0;
  label = [];
  imm_str = [];
  imm_sub_type = sub_none;
  comment = [];
  post_comment = [];
}

abbrev is_empty {ℓ} : {A : Type ℓ} → List A → Bool
is_empty [] = true
is_empty (x ∷ xs) = false

-- the loop of `LabelsToComment` from index `i` on
unfoldable pub comment_from : ℕ → List String → Bytes
comment_from i [] = []
comment_from i (n ∷ ns) =
    let rest = comment_from (suc i) ns in
    if ltb i max_labels_in_line
    then codes n ++ (if is_empty ns then [] else codes ", ") ++ rest
    else []

-- `LabelsToComment` from index 1 on
unfoldable pub labels_to_comment : List String → Bytes
labels_to_comment [] = []
labels_to_comment (n ∷ []) = []
labels_to_comment (n ∷ m ∷ ns) =
    comment_from 1 (m ∷ ns)
    ++ (if ltb max_labels_in_line (length (n ∷ m ∷ ns)) then codes " ..." else [])

-- `DisasmLine` for a comment and for labels
unfoldable pub comment_line_of : ℕ → String → DisasmLine
comment_line_of addr comment = record (empty_line comment_line addr) { comment = codes comment }

unfoldable pub labels_line_of : ℕ → List String → Option DisasmLine
labels_line_of addr [] = none
labels_line_of addr (n ∷ ns) = some (record (empty_line labels_line addr) {
  label = codes n;
  post_comment = if is_empty ns then [] else codes " ; " ++ labels_to_comment (n ∷ ns);
})

-- the number of an operand without a name
unfoldable pub number_text : CmdImmType → ℕ → Bytes
number_text cmd_it_b0 imm = uint8_to_str_c0x imm
number_text cmd_it_b1 imm = uint8_to_str_c0x imm
number_text cmd_it_none imm = uint16_to_str_c0x imm
number_text cmd_it_w1 imm = uint16_to_str_c0x imm

abbrev first_of : List String → Option String
first_of [] = none
first_of (n ∷ ns) = some n

abbrev is_none_type : CmdImmType → Bool
is_none_type cmd_it_none = true
is_none_type imm = false

-- `imm_str`: the first constant of the operand, else its first label, else the number
unfoldable pub imm_name :
    CmdImmType → ℕ → Option (List String) → Option (List String) → Option Bytes
imm_name type imm (some consts) labels = do n ← first_of consts; some (codes n)
imm_name type imm none (some labels) = do n ← first_of labels; some (codes n)
imm_name type imm none none = some (number_text type imm)

unfoldable pub sub_type_of : Option (List String) → Option (List String) → ImmSubType
sub_type_of (some consts) labels = sub_const
sub_type_of none (some labels) = sub_label
sub_type_of none none = sub_none

unfoldable pub label_comment : Option (List String) → Bytes
label_comment none = []
label_comment (some labels) = codes " (" ++ labels_to_comment labels ++ codes ")"

unfoldable pub const_comment : Option (List String) → Bytes
const_comment none = []
const_comment (some consts) = codes "; " ++ labels_to_comment consts

-- the lines of the comment and of the labels of an address, if it has any
abbrev pub comment_lines : ℕ → Option String → List DisasmLine
comment_lines addr none = []
comment_lines addr (some comment) = comment_line_of addr comment ∷ []

unfoldable pub labels_lines : ℕ → Option (List String) → Option (List DisasmLine)
labels_lines addr none = some []
labels_lines addr (some labels) = do line ← labels_line_of addr labels; some (line ∷ [])

abbrev pub own_comment {ℓ} : {D : Type ℓ} → DebugData D → ℕ → List DisasmLine
own_comment d addr = comment_lines addr (lookup addr d.comments)

unfoldable pub own_labels {ℓ} : {D : Type ℓ} → DebugData D → ℕ → Option (List DisasmLine)
own_labels d addr = labels_lines addr (get_labels addr d.labels)

-- `m_lines.size() >= DISASM_LINES_MAX` after lines that were there to add
abbrev pub is_full : List DisasmLine → List DisasmLine → Bool
is_full new lines = not (is_empty new) && leb disasm_lines_max (length lines)

-- the end of a round: full with the labels, full with the code, or not full
abbrev pub end_round :
    List DisasmLine
    → List DisasmLine
    → List DisasmLine
    → Option (List DisasmLine)
    → Option (List DisasmLine)
end_round new labelled coded rest =
    if is_full new labelled
    then some labelled
    else if leb disasm_lines_max (length coded)
    then some coded
    else rest

module _ {ℓ} {D : Type ℓ} (lang : DisasmLang) (d : DebugData D) where
  -- `InitInstr` with the post comment
  unfoldable pub init_instr : ℕ → Instr → Option DisasmLine
  init_instr addr instr =
      let type = (cmd_at lang instr.opcode).imm_type in
      let imm = instr_to_imm instr type in
      let line = record (empty_line code_line addr) { opcode = instr.opcode; imm = imm } in
      let labels = get_labels imm d.labels in
      let consts = lookup imm d.consts in
      let named = (do
        name ← imm_name type imm consts labels
        some (record line {
          imm_str = name;
          imm_sub_type = sub_type_of consts labels;
          post_comment = const_comment consts ++ label_comment labels;
        })) in
      if is_none_type type then some line else named

  -- `Get3Bytes` of the hardware, and the constructor for code
  unfoldable pub code_line_of : Memory → ℕ → Option DisasmLine
  code_line_of m addr = init_instr addr (record {
    opcode = get_byte m addr ram;
    data_l = get_byte m (u16 (addr + 1)) ram;
    data_h = get_byte m (u16 (addr + 2)) ram;
  })

  -- the loop of `UpdateDisasm`, with fuel
  unfoldable pub update_loop : Memory → ℕ → ℕ → ℕ → List DisasmLine → Option (List DisasmLine)
  update_loop m zero wanted addr lines = some lines
  update_loop m (suc fuel) wanted addr lines =
      let commented = lines ++ own_comment d addr in
      let round = (do
        new ← own_labels d addr
        line ← code_line_of m addr
        let coded = commented ++ new ++ line ∷ []
        let next = u16 (addr + get_instr_len line.opcode)
        end_round new (commented ++ new) coded (update_loop m fuel wanted next coded)) in
      if not (ltb (length lines) wanted)
      then some lines
      else if is_full (own_comment d addr) commented
      then some commented
      else round

  -- `UpdateDisasm`
  unfoldable pub update_disasm : Memory → ℕ → ℕ → ℤ → Option (List DisasmLine)
  update_disasm m addr lines_num offset =
      let wanted = if lines_num == 0 then disasm_lines_max else min lines_num disasm_lines_max in
      update_loop m wanted wanted (get_addr d m addr offset) []
