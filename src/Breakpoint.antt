-- ===== src/Breakpoint.antt =====
-- `Breakpoint` (libs/v6core/include/core/breakpoint.h, libs/v6core/src/breakpoint.cpp) and the map
-- of them by address (libs/v6core/src/breakpoints.cpp). JSON, printing and the comment of a
-- breakpoint are left out. The map is a list, with at most one breakpoint of an address.
pub mod Laws
pub mod Counters
use v6emul.Base.{
  ℕ, ◌+◌, ◌-◌, ◌*◌, ◌^◌, bit_and, Bool, true, false, not, ◌&&◌, ltb, leb, ◌==◌, if◌then◌else◌,
  nonzero, Option, none, some, List, [], ◌∷◌,
}
use v6emul.Memory.{Memory, page_ram}
use v6emul.Cpu.State.{Cpu, get_f, get_word, pair_psw, pair_bc, pair_de, pair_hl}
use v6emul.Watchpoint.{
  Condition, any, equ, less, greater, less_equ, greater_equ, not_equ, invalid, u32,
}

-- `Memory::MAPPING_RAM_MODE_MASK`
abbrev pub mapping_ram_mode_mask : ℕ
mapping_ram_mode_mask = 0b11100000

pub data Status : Type 0 where
  disabled active deleted status_count : Status

pub data Operand : Type 0 where
  op_a op_f op_b op_c op_d op_e op_h op_l op_psw op_bc op_de op_hl op_cc op_sp op_count : Operand

-- `DataStruct`
pub record Breakpoint : Type 0 where
  pub mem_pages : ℕ
  pub value : ℕ
  pub counter : ℕ
  pub addr : ℕ
  pub operand : Operand
  pub cond : Condition
  pub status : Status
  pub auto_del : Bool

-- `IsActive`
abbrev pub is_active : Status → Bool
is_active active = true
is_active status = false

abbrev pub same_status : Status → Status → Bool
same_status disabled disabled = true
same_status active active = true
same_status deleted deleted = true
same_status status_count status_count = true
same_status status _ = false

-- the bit of the mapped page: bit 0 is the main memory
unfoldable pub mapping_bit : Memory → ℕ
mapping_bit m =
    if nonzero (bit_and m.mapping mapping_ram_mode_mask)
    then 2 ^ (page_ram m.mapping + 1 + 4 * m.ramdisk_idx)
    else 1

-- the switch over the operand
unfoldable pub operand_value : Operand → Cpu → ℕ
operand_value op_a cpu = cpu.a
operand_value op_f cpu = get_f cpu
operand_value op_b cpu = cpu.b
operand_value op_c cpu = cpu.c
operand_value op_d cpu = cpu.d
operand_value op_e cpu = cpu.e
operand_value op_h cpu = cpu.h
operand_value op_l cpu = cpu.l
operand_value op_psw cpu = get_word pair_psw cpu
operand_value op_bc cpu = get_word pair_bc cpu
operand_value op_de cpu = get_word pair_de cpu
operand_value op_hl cpu = get_word pair_hl cpu
operand_value op_cc cpu = cpu.cc
operand_value op_sp cpu = cpu.sp
operand_value op_count cpu = 0

-- the switch over the condition
unfoldable pub compares : Condition → ℕ → ℕ → Bool
compares any op value = true
compares equ op value = op == value
compares less op value = ltb op value
compares greater op value = ltb value op
compares less_equ op value = leb op value
compares greater_equ op value = leb value op
compares not_equ op value = not (op == value)
compares invalid op value = false

-- `CheckStatus`
unfoldable pub check_status : Cpu → Memory → Breakpoint → Bool
check_status cpu m bp =
    is_active bp.status
    && nonzero (bit_and (mapping_bit m) bp.mem_pages)
    && compares bp.cond (operand_value bp.operand cpu) bp.value

-- `Breakpoints`: the map and the count of its changes
pub record Breakpoints : Type 0 where
  pub bps : List Breakpoint
  pub updates : ℕ

-- `m_bps.find`, and a change of what it finds
unfoldable pub find : ℕ → List Breakpoint → Option Breakpoint
find at [] = none
find at (bp ∷ bps) = if bp.addr == at then some bp else find at bps

unfoldable pub replace : Breakpoint → List Breakpoint → List Breakpoint
replace bp [] = []
replace bp (old ∷ bps) = if old.addr == bp.addr then bp ∷ bps else old ∷ replace bp bps

unfoldable pub erase_at : ℕ → List Breakpoint → List Breakpoint
erase_at at [] = []
erase_at at (bp ∷ bps) = let rest = erase_at at bps in if bp.addr == at then rest else bp ∷ rest

-- `Clear`
unfoldable pub clear_all : Breakpoints → Breakpoints
clear_all s = elim (s.bps) [
  | [] ↦ s
  | bp ∷ bps ↦ record s { bps = []; updates = u32 (s.updates + 1) }
]

-- `SetStatus`
unfoldable pub set_status : ℕ → Status → Breakpoints → Breakpoints
set_status at status s = elim (find at s.bps) [
  | none ↦ s
  | some bp ↦ if same_status bp.status status then s else record s {
    bps = replace (record bp { status = status }) s.bps;
    updates = u32 (s.updates + 1);
  }
]

-- `Add`
unfoldable pub add_bp : Breakpoint → Breakpoints → Breakpoints
add_bp bp s = record s {
  updates = u32 (s.updates + 1);
  bps = elim (find bp.addr s.bps) [ none ↦ bp ∷ s.bps | some old ↦ replace bp s.bps ];
}

-- `Del`
unfoldable pub del_bp : ℕ → Breakpoints → Breakpoints
del_bp at s = elim (find at s.bps) [
  | none ↦ s
  | some bp ↦ record s { bps = erase_at at s.bps; updates = u32 (s.updates + 1) }
]

-- `GetStatus`
unfoldable pub get_status : ℕ → Breakpoints → Status
get_status at s = elim (find at s.bps) [ none ↦ deleted | some bp ↦ bp.status ]

-- the end of `Check`, for the breakpoint at PC whose condition holds
unfoldable pub count_down : Breakpoint → Breakpoints → Bool × Breakpoints
count_down bp s =
    let bp' = record bp { counter = bp.counter - 1 } in
    let breaks = bp'.counter == 0 in
    (
      breaks,
      if breaks && bp.auto_del
          then record s { bps = erase_at bp.addr s.bps; updates = u32 (s.updates + 1) }
          else record s {
            bps = replace bp' s.bps;
            updates = if nonzero bp.counter then u32 (s.updates + 1) else s.updates;
          },
    )

-- `Check`
unfoldable pub check_bp : Cpu → Memory → Breakpoints → Bool × Breakpoints
check_bp cpu m s = elim (find cpu.pc s.bps) [
  | none ↦ (false, s)
  | some bp ↦ if check_status cpu m bp then count_down bp s else (false, s)
]
