-- ===== src/Cpu/Tables.antt =====
-- The tables of libs/v6core/src/cpu_i8080.cpp, by opcode or by byte value.
use v6emul.Base.{ℕ, ◌*◌, Bool, true, false, List, [], ◌∷◌, get_or}

-- `M_CYCLES`: machine cycles of an instruction, of 4 clock cycles each
abbrev pub m_cycles_table : List ℕ
m_cycles_table =
    1 ∷ 3 ∷ 2 ∷ 2 ∷ 2 ∷ 2 ∷ 2 ∷ 1 ∷ 1 ∷ 3 ∷ 2 ∷ 2 ∷ 2 ∷ 2 ∷ 2 ∷ 1 ∷ 1 ∷ 3 ∷ 2 ∷ 2 ∷ 2 ∷ 2 ∷ 2 ∷ 1
    ∷ 1 ∷ 3 ∷ 2 ∷ 2 ∷ 2 ∷ 2 ∷ 2 ∷ 1 ∷ 1 ∷ 3 ∷ 5 ∷ 2 ∷ 2 ∷ 2 ∷ 2 ∷ 1 ∷ 1 ∷ 3 ∷ 5 ∷ 2 ∷ 2 ∷ 2 ∷ 2 ∷ 1
    ∷ 1 ∷ 3 ∷ 4 ∷ 2 ∷ 3 ∷ 3 ∷ 3 ∷ 1 ∷ 1 ∷ 3 ∷ 4 ∷ 2 ∷ 2 ∷ 2 ∷ 2 ∷ 1 ∷ 2 ∷ 2 ∷ 2 ∷ 2 ∷ 2 ∷ 2 ∷ 2 ∷ 2
    ∷ 2 ∷ 2 ∷ 2 ∷ 2 ∷ 2 ∷ 2 ∷ 2 ∷ 2 ∷ 2 ∷ 2 ∷ 2 ∷ 2 ∷ 2 ∷ 2 ∷ 2 ∷ 2 ∷ 2 ∷ 2 ∷ 2 ∷ 2 ∷ 2 ∷ 2 ∷ 2 ∷ 2
    ∷ 2 ∷ 2 ∷ 2 ∷ 2 ∷ 2 ∷ 2 ∷ 2 ∷ 2 ∷ 2 ∷ 2 ∷ 2 ∷ 2 ∷ 2 ∷ 2 ∷ 2 ∷ 2 ∷ 2 ∷ 2 ∷ 2 ∷ 2 ∷ 2 ∷ 1 ∷ 2 ∷ 2
    ∷ 2 ∷ 2 ∷ 2 ∷ 2 ∷ 2 ∷ 2 ∷ 2 ∷ 2 ∷ 1 ∷ 1 ∷ 1 ∷ 1 ∷ 1 ∷ 1 ∷ 2 ∷ 1 ∷ 1 ∷ 1 ∷ 1 ∷ 1 ∷ 1 ∷ 1 ∷ 2 ∷ 1
    ∷ 1 ∷ 1 ∷ 1 ∷ 1 ∷ 1 ∷ 1 ∷ 2 ∷ 1 ∷ 1 ∷ 1 ∷ 1 ∷ 1 ∷ 1 ∷ 1 ∷ 2 ∷ 1 ∷ 1 ∷ 1 ∷ 1 ∷ 1 ∷ 1 ∷ 1 ∷ 2 ∷ 1
    ∷ 1 ∷ 1 ∷ 1 ∷ 1 ∷ 1 ∷ 1 ∷ 2 ∷ 1 ∷ 1 ∷ 1 ∷ 1 ∷ 1 ∷ 1 ∷ 1 ∷ 2 ∷ 1 ∷ 1 ∷ 1 ∷ 1 ∷ 1 ∷ 1 ∷ 1 ∷ 2 ∷ 1
    ∷ 4 ∷ 3 ∷ 3 ∷ 3 ∷ 6 ∷ 4 ∷ 2 ∷ 4 ∷ 4 ∷ 3 ∷ 3 ∷ 3 ∷ 6 ∷ 6 ∷ 2 ∷ 4 ∷ 4 ∷ 3 ∷ 3 ∷ 3 ∷ 6 ∷ 4 ∷ 2 ∷ 4
    ∷ 4 ∷ 3 ∷ 3 ∷ 3 ∷ 6 ∷ 6 ∷ 2 ∷ 4 ∷ 4 ∷ 3 ∷ 3 ∷ 6 ∷ 6 ∷ 4 ∷ 2 ∷ 4 ∷ 4 ∷ 2 ∷ 3 ∷ 1 ∷ 6 ∷ 6 ∷ 2 ∷ 4
    ∷ 4 ∷ 3 ∷ 3 ∷ 1 ∷ 6 ∷ 4 ∷ 2 ∷ 4 ∷ 4 ∷ 2 ∷ 3 ∷ 1 ∷ 6 ∷ 6 ∷ 2 ∷ 4 ∷ []

unfoldable pub m_cycles : ℕ → ℕ
m_cycles opcode = get_or m_cycles_table opcode 0

-- `GetInstrCC`
unfoldable pub get_instr_cc : ℕ → ℕ
unfolding m_cycles
get_instr_cc opcode = m_cycles opcode * 4

-- `INSTR_LENS`: instruction lengths in bytes
abbrev pub instr_lens : List ℕ
instr_lens =
    1 ∷ 3 ∷ 1 ∷ 1 ∷ 1 ∷ 1 ∷ 2 ∷ 1 ∷ 1 ∷ 1 ∷ 1 ∷ 1 ∷ 1 ∷ 1 ∷ 2 ∷ 1 ∷ 1 ∷ 3 ∷ 1 ∷ 1 ∷ 1 ∷ 1 ∷ 2 ∷ 1
    ∷ 1 ∷ 1 ∷ 1 ∷ 1 ∷ 1 ∷ 1 ∷ 2 ∷ 1 ∷ 1 ∷ 3 ∷ 3 ∷ 1 ∷ 1 ∷ 1 ∷ 2 ∷ 1 ∷ 1 ∷ 1 ∷ 3 ∷ 1 ∷ 1 ∷ 1 ∷ 2 ∷ 1
    ∷ 1 ∷ 3 ∷ 3 ∷ 1 ∷ 1 ∷ 1 ∷ 2 ∷ 1 ∷ 1 ∷ 1 ∷ 3 ∷ 1 ∷ 1 ∷ 1 ∷ 2 ∷ 1 ∷ 1 ∷ 1 ∷ 1 ∷ 1 ∷ 1 ∷ 1 ∷ 1 ∷ 1
    ∷ 1 ∷ 1 ∷ 1 ∷ 1 ∷ 1 ∷ 1 ∷ 1 ∷ 1 ∷ 1 ∷ 1 ∷ 1 ∷ 1 ∷ 1 ∷ 1 ∷ 1 ∷ 1 ∷ 1 ∷ 1 ∷ 1 ∷ 1 ∷ 1 ∷ 1 ∷ 1 ∷ 1
    ∷ 1 ∷ 1 ∷ 1 ∷ 1 ∷ 1 ∷ 1 ∷ 1 ∷ 1 ∷ 1 ∷ 1 ∷ 1 ∷ 1 ∷ 1 ∷ 1 ∷ 1 ∷ 1 ∷ 1 ∷ 1 ∷ 1 ∷ 1 ∷ 1 ∷ 1 ∷ 1 ∷ 1
    ∷ 1 ∷ 1 ∷ 1 ∷ 1 ∷ 1 ∷ 1 ∷ 1 ∷ 1 ∷ 1 ∷ 1 ∷ 1 ∷ 1 ∷ 1 ∷ 1 ∷ 1 ∷ 1 ∷ 1 ∷ 1 ∷ 1 ∷ 1 ∷ 1 ∷ 1 ∷ 1 ∷ 1
    ∷ 1 ∷ 1 ∷ 1 ∷ 1 ∷ 1 ∷ 1 ∷ 1 ∷ 1 ∷ 1 ∷ 1 ∷ 1 ∷ 1 ∷ 1 ∷ 1 ∷ 1 ∷ 1 ∷ 1 ∷ 1 ∷ 1 ∷ 1 ∷ 1 ∷ 1 ∷ 1 ∷ 1
    ∷ 1 ∷ 1 ∷ 1 ∷ 1 ∷ 1 ∷ 1 ∷ 1 ∷ 1 ∷ 1 ∷ 1 ∷ 1 ∷ 1 ∷ 1 ∷ 1 ∷ 1 ∷ 1 ∷ 1 ∷ 1 ∷ 1 ∷ 1 ∷ 1 ∷ 1 ∷ 1 ∷ 1
    ∷ 1 ∷ 1 ∷ 3 ∷ 3 ∷ 3 ∷ 1 ∷ 2 ∷ 1 ∷ 1 ∷ 1 ∷ 3 ∷ 1 ∷ 3 ∷ 3 ∷ 2 ∷ 1 ∷ 1 ∷ 1 ∷ 3 ∷ 2 ∷ 3 ∷ 1 ∷ 2 ∷ 1
    ∷ 1 ∷ 1 ∷ 3 ∷ 2 ∷ 3 ∷ 1 ∷ 2 ∷ 1 ∷ 1 ∷ 1 ∷ 3 ∷ 1 ∷ 3 ∷ 1 ∷ 2 ∷ 1 ∷ 1 ∷ 1 ∷ 3 ∷ 1 ∷ 3 ∷ 1 ∷ 2 ∷ 1
    ∷ 1 ∷ 1 ∷ 3 ∷ 1 ∷ 3 ∷ 1 ∷ 2 ∷ 1 ∷ 1 ∷ 1 ∷ 3 ∷ 1 ∷ 3 ∷ 1 ∷ 2 ∷ 1 ∷ []

-- `GetInstrLen`
unfoldable pub get_instr_len : ℕ → ℕ
get_instr_len opcode = get_or instr_lens opcode 0

-- `INSTR_TYPES`: 0 c*, 1 call, 2 j*, 3 jmp, 4 r*, 5 ret, 6 pchl, 7 rst, 8 other
abbrev pub instr_types : List ℕ
instr_types =
    8 ∷ 8 ∷ 8 ∷ 8 ∷ 8 ∷ 8 ∷ 8 ∷ 8 ∷ 8 ∷ 8 ∷ 8 ∷ 8 ∷ 8 ∷ 8 ∷ 8 ∷ 8 ∷ 8 ∷ 8 ∷ 8 ∷ 8 ∷ 8 ∷ 8 ∷ 8 ∷ 8
    ∷ 8 ∷ 8 ∷ 8 ∷ 8 ∷ 8 ∷ 8 ∷ 8 ∷ 8 ∷ 8 ∷ 8 ∷ 8 ∷ 8 ∷ 8 ∷ 8 ∷ 8 ∷ 8 ∷ 8 ∷ 8 ∷ 8 ∷ 8 ∷ 8 ∷ 8 ∷ 8 ∷ 8
    ∷ 8 ∷ 8 ∷ 8 ∷ 8 ∷ 8 ∷ 8 ∷ 8 ∷ 8 ∷ 8 ∷ 8 ∷ 8 ∷ 8 ∷ 8 ∷ 8 ∷ 8 ∷ 8 ∷ 8 ∷ 8 ∷ 8 ∷ 8 ∷ 8 ∷ 8 ∷ 8 ∷ 8
    ∷ 8 ∷ 8 ∷ 8 ∷ 8 ∷ 8 ∷ 8 ∷ 8 ∷ 8 ∷ 8 ∷ 8 ∷ 8 ∷ 8 ∷ 8 ∷ 8 ∷ 8 ∷ 8 ∷ 8 ∷ 8 ∷ 8 ∷ 8 ∷ 8 ∷ 8 ∷ 8 ∷ 8
    ∷ 8 ∷ 8 ∷ 8 ∷ 8 ∷ 8 ∷ 8 ∷ 8 ∷ 8 ∷ 8 ∷ 8 ∷ 8 ∷ 8 ∷ 8 ∷ 8 ∷ 8 ∷ 8 ∷ 8 ∷ 8 ∷ 8 ∷ 8 ∷ 8 ∷ 8 ∷ 8 ∷ 8
    ∷ 8 ∷ 8 ∷ 8 ∷ 8 ∷ 8 ∷ 8 ∷ 8 ∷ 8 ∷ 8 ∷ 8 ∷ 8 ∷ 8 ∷ 8 ∷ 8 ∷ 8 ∷ 8 ∷ 8 ∷ 8 ∷ 8 ∷ 8 ∷ 8 ∷ 8 ∷ 8 ∷ 8
    ∷ 8 ∷ 8 ∷ 8 ∷ 8 ∷ 8 ∷ 8 ∷ 8 ∷ 8 ∷ 8 ∷ 8 ∷ 8 ∷ 8 ∷ 8 ∷ 8 ∷ 8 ∷ 8 ∷ 8 ∷ 8 ∷ 8 ∷ 8 ∷ 8 ∷ 8 ∷ 8 ∷ 8
    ∷ 8 ∷ 8 ∷ 8 ∷ 8 ∷ 8 ∷ 8 ∷ 8 ∷ 8 ∷ 8 ∷ 8 ∷ 8 ∷ 8 ∷ 8 ∷ 8 ∷ 8 ∷ 8 ∷ 8 ∷ 8 ∷ 8 ∷ 8 ∷ 8 ∷ 8 ∷ 8 ∷ 8
    ∷ 4 ∷ 8 ∷ 2 ∷ 3 ∷ 0 ∷ 8 ∷ 8 ∷ 7 ∷ 4 ∷ 5 ∷ 2 ∷ 8 ∷ 0 ∷ 1 ∷ 8 ∷ 7 ∷ 4 ∷ 8 ∷ 2 ∷ 8 ∷ 0 ∷ 8 ∷ 8 ∷ 7
    ∷ 4 ∷ 8 ∷ 2 ∷ 8 ∷ 0 ∷ 8 ∷ 8 ∷ 7 ∷ 4 ∷ 8 ∷ 2 ∷ 8 ∷ 0 ∷ 8 ∷ 8 ∷ 7 ∷ 4 ∷ 6 ∷ 2 ∷ 8 ∷ 0 ∷ 8 ∷ 8 ∷ 7
    ∷ 4 ∷ 8 ∷ 2 ∷ 8 ∷ 0 ∷ 8 ∷ 8 ∷ 7 ∷ 4 ∷ 8 ∷ 2 ∷ 8 ∷ 0 ∷ 8 ∷ 8 ∷ 7 ∷ []

-- `GetInstrType`
unfoldable pub get_instr_type : ℕ → ℕ
get_instr_type opcode = get_or instr_types opcode 8

-- `parityTable`
abbrev pub parity_table : List Bool
parity_table =
    true ∷ false ∷ false ∷ true ∷ false ∷ true ∷ true ∷ false ∷ false ∷ true ∷ true ∷ false ∷ true
    ∷ false ∷ false ∷ true ∷ false ∷ true ∷ true ∷ false ∷ true ∷ false ∷ false ∷ true ∷ true
    ∷ false ∷ false ∷ true ∷ false ∷ true ∷ true ∷ false ∷ false ∷ true ∷ true ∷ false ∷ true
    ∷ false ∷ false ∷ true ∷ true ∷ false ∷ false ∷ true ∷ false ∷ true ∷ true ∷ false ∷ true
    ∷ false ∷ false ∷ true ∷ false ∷ true ∷ true ∷ false ∷ false ∷ true ∷ true ∷ false ∷ true
    ∷ false ∷ false ∷ true ∷ false ∷ true ∷ true ∷ false ∷ true ∷ false ∷ false ∷ true ∷ true
    ∷ false ∷ false ∷ true ∷ false ∷ true ∷ true ∷ false ∷ true ∷ false ∷ false ∷ true ∷ false
    ∷ true ∷ true ∷ false ∷ false ∷ true ∷ true ∷ false ∷ true ∷ false ∷ false ∷ true ∷ true ∷ false
    ∷ false ∷ true ∷ false ∷ true ∷ true ∷ false ∷ false ∷ true ∷ true ∷ false ∷ true ∷ false
    ∷ false ∷ true ∷ false ∷ true ∷ true ∷ false ∷ true ∷ false ∷ false ∷ true ∷ true ∷ false
    ∷ false ∷ true ∷ false ∷ true ∷ true ∷ false ∷ false ∷ true ∷ true ∷ false ∷ true ∷ false
    ∷ false ∷ true ∷ true ∷ false ∷ false ∷ true ∷ false ∷ true ∷ true ∷ false ∷ true ∷ false
    ∷ false ∷ true ∷ false ∷ true ∷ true ∷ false ∷ false ∷ true ∷ true ∷ false ∷ true ∷ false
    ∷ false ∷ true ∷ true ∷ false ∷ false ∷ true ∷ false ∷ true ∷ true ∷ false ∷ false ∷ true ∷ true
    ∷ false ∷ true ∷ false ∷ false ∷ true ∷ false ∷ true ∷ true ∷ false ∷ true ∷ false ∷ false
    ∷ true ∷ true ∷ false ∷ false ∷ true ∷ false ∷ true ∷ true ∷ false ∷ true ∷ false ∷ false ∷ true
    ∷ false ∷ true ∷ true ∷ false ∷ false ∷ true ∷ true ∷ false ∷ true ∷ false ∷ false ∷ true
    ∷ false ∷ true ∷ true ∷ false ∷ true ∷ false ∷ false ∷ true ∷ true ∷ false ∷ false ∷ true
    ∷ false ∷ true ∷ true ∷ false ∷ false ∷ true ∷ true ∷ false ∷ true ∷ false ∷ false ∷ true ∷ true
    ∷ false ∷ false ∷ true ∷ false ∷ true ∷ true ∷ false ∷ true ∷ false ∷ false ∷ true ∷ false
    ∷ true ∷ true ∷ false ∷ false ∷ true ∷ true ∷ false ∷ true ∷ false ∷ false ∷ true ∷ []

-- `GetParity`
unfoldable pub get_parity : ℕ → Bool
get_parity v = get_or parity_table v false
