-- ===== src/Memory.antt =====
-- `Memory` (libs/v6core/include/core/memory.h, libs/v6core/src/memory.cpp): 64 KB of main RAM,
-- eight RAM disks of four 64 KB pages, the boot ROM that shadows the low addresses, the RAM-disk
-- mapping, and the record of the last instruction's accesses for the debugger.
-- `m_ram` is a function from global addresses, `m_rom` the list of its bytes. A `Mapping` is its
-- byte, and its bit fields are read from it. Files (constructor, destructor) are left out.
pub mod Bounds
pub mod Access
pub mod RamDisk
use v6emul.Base.{ℕ, ◌+◌, ◌*◌, ◌/◌, ◌%◌, ◌^◌, bit_and, bit_or, Bool, true, false, ◌&&◌, ◌||◌}
use v6emul.Base.{List, [], ◌∷◌, length, get_or, set, replicate, ltb, leb, ◌==◌, if◌then◌else◌}
use v6emul.Base.{not, test_bit, update}

pub data AddrSpace : Type 0 where
  ram stack : AddrSpace

pub data MemType : Type 0 where
  rom_type ram_type : MemType

abbrev pub ram_disk_page_len : ℕ
ram_disk_page_len = 65536

abbrev pub ram_disk_max : ℕ
ram_disk_max = 8

abbrev pub memory_main_len : ℕ
memory_main_len = 65536

-- MEMORY_MAIN_LEN + MEMORY_RAMDISK_LEN * RAM_DISK_MAX
abbrev pub memory_global_len : ℕ
memory_global_len = 65536 + 4 * 65536 * 8

abbrev pub mapping_mode_mask : ℕ
mapping_mode_mask = 0xf0

-- the bit fields of `union Mapping`
abbrev pub page_ram : ℕ → ℕ
page_ram d = d % 4

abbrev pub page_stack : ℕ → ℕ
page_stack d = d / 4 % 4

abbrev pub mode_stack : ℕ → Bool
mode_stack d = test_bit d 4

abbrev pub mode_ram_a : ℕ → Bool
mode_ram_a d = test_bit d 5

abbrev pub mode_ram_8 : ℕ → Bool
mode_ram_8 d = test_bit d 6

abbrev pub mode_ram_e : ℕ → Bool
mode_ram_e d = test_bit d 7

-- `data & MAPPING_MODE_MASK` as a condition
pub mode_enabled : ℕ → Bool
mode_enabled d = not (bit_and d mapping_mode_mask == 0)

-- `Memory::Debug`: what the last instruction fetched, read and wrote.
pub record Debug : Type 0 where
  pub instr_global_addr : ℕ
  pub instr : List ℕ
  pub instr_len : ℕ
  pub read_global_addr : List ℕ
  pub read : List ℕ
  pub read_len : ℕ
  pub write_global_addr : List ℕ
  pub write : List ℕ
  pub write_len : ℕ
  pub before_write : List ℕ

-- `mapping`, `ramdisk_idx` and `mem_type` are `m_state.update`.
pub record Memory : Type 0 where
  pub cells : ℕ → ℕ
  pub rom : List ℕ
  pub mappings : List ℕ
  pub mapping : ℕ
  pub ramdisk_idx : ℕ
  pub mem_type : MemType
  pub mappings_enabled : ℕ
  pub clear_after_restart : Bool
  pub debug : Debug

-- `m_state.update.memType == MemType::ROM`
unfoldable pub is_rom_enabled : Memory → Bool
is_rom_enabled m = elim (m.mem_type) [ rom_type ↦ true | ram_type ↦ false ]

-- `InitRamDiskMapping`
pub init_ram_disk_mapping : Memory → Memory
init_ram_disk_mapping m = record m {
  mappings = replicate 8 0;
  mapping = 0;
  ramdisk_idx = 0;
  mappings_enabled = 0;
}

-- the two fills of `Init`: of all cells, or of the main memory
clear_cells : Bool → (ℕ → ℕ) → ℕ → ℕ
clear_cells all cells i = if all || ltb i memory_main_len then 0 else cells i

-- `Init`: the RAM disks are cleared only if so configured.
pub init : Memory → Memory
unfolding init_ram_disk_mapping clear_cells
init m =
    init_ram_disk_mapping
      (record m { cells = clear_cells m.clear_after_restart m.cells; mem_type = rom_type })

-- `Restart`
unfoldable pub restart : Memory → Memory
unfolding init_ram_disk_mapping
restart m = init_ram_disk_mapping (record m { mem_type = ram_type })

is_stack : AddrSpace → Bool
is_stack stack = true
is_stack ram = false

-- the address falls into an enabled range of the Memory-Mapped Mode
ram_mapped : ℕ → ℕ → Bool
ram_mapped d addr =
    (mode_ram_a d && leb 0xa000 addr && ltb addr 0xe000)
    || (mode_ram_8 d && leb 0x8000 addr && ltb addr 0xa000)
    || (mode_ram_e d && leb 0xe000 addr)

-- `GetGlobalAddr`
unfoldable pub get_global_addr : Memory → ℕ → AddrSpace → ℕ
unfolding mode_enabled is_stack ram_mapped
get_global_addr m addr space =
    if not (mode_enabled m.mapping)
    then addr
    else if mode_stack m.mapping && is_stack space
    then addr + (page_stack m.mapping + 1 + m.ramdisk_idx * 4) * ram_disk_page_len
    else if ram_mapped m.mapping addr
    then addr + (page_ram m.mapping + 1 + m.ramdisk_idx * 4) * ram_disk_page_len
    else addr

-- The byte that a read at a global address gives: the ROM shadows the RAM while it is on.
unfoldable pub byte_at : Memory → ℕ → ℕ
unfolding is_rom_enabled
byte_at m global_addr =
    if is_rom_enabled m && ltb global_addr (length m.rom)
    then get_or m.rom global_addr 0
    else m.cells global_addr

-- `GetByte`
unfoldable pub get_byte : Memory → ℕ → AddrSpace → ℕ
get_byte m addr space = byte_at m (get_global_addr m addr space)

-- `CpuReadInstr`
unfoldable pub cpu_read_instr : ℕ → AddrSpace → ℕ → Memory → ℕ × Memory
cpu_read_instr addr space byte_num m =
    let global_addr = get_global_addr m addr space in
    let value = byte_at m global_addr in
    (
      value,
      record m {
        debug = record (m.debug) {
          instr_global_addr = if byte_num == 0 then global_addr else m.debug.instr_global_addr;
          instr = set m.debug.instr byte_num value;
        };
      },
    )

-- `CpuInvokesRst7`
unfoldable pub cpu_invokes_rst7 : Memory → Memory
cpu_invokes_rst7 m = record m { debug = record (m.debug) { instr = set m.debug.instr 0 0xff } }

-- `CpuRead`
unfoldable pub cpu_read : ℕ → AddrSpace → ℕ → Memory → ℕ × Memory
cpu_read addr space byte_num m =
    let global_addr = get_global_addr m addr space in
    let value = byte_at m global_addr in
    (
      value,
      record m {
        debug = record (m.debug) {
          read_global_addr = set m.debug.read_global_addr byte_num global_addr;
          read = set m.debug.read byte_num value;
          read_len = byte_num + 1;
        };
      },
    )

-- `CpuWrite`
unfoldable pub cpu_write : ℕ → ℕ → AddrSpace → ℕ → Memory → Memory
cpu_write addr value space byte_num m =
    let global_addr = get_global_addr m addr space in
    record m {
      debug = record (m.debug) {
        before_write = set m.debug.before_write byte_num (m.cells global_addr);
        write_global_addr = set m.debug.write_global_addr byte_num global_addr;
        write_len = byte_num + 1;
        write = set m.debug.write byte_num value;
      };
      cells = update m.cells global_addr value;
    }

-- `SetByteGlobal`, `GetByteGlobal`, `SetMemType`
unfoldable pub set_byte_global : ℕ → ℕ → Memory → Memory
set_byte_global global_addr value m = record m { cells = update m.cells global_addr value }

pub get_byte_global : Memory → ℕ → ℕ
get_byte_global m global_addr = m.cells global_addr

unfoldable pub set_mem_type : MemType → Memory → Memory
set_mem_type t m = record m { mem_type = t }

-- `SetRam`: the bytes go to consecutive cells.
unfoldable pub set_ram : ℕ → List ℕ → Memory → Memory
set_ram addr [] m = m
set_ram addr (v ∷ vs) m = set_ram (addr + 1) vs (record m { cells = update m.cells addr v })

-- `GetScreenBytes`: the shifted bytes are disjoint, and `|` puts them together.
pub get_screen_bytes : Memory → ℕ → ℕ
get_screen_bytes m offset =
    bit_or
      (bit_or (bit_or (m.cells (offset + 0x8000) * 2 ^ 24) (m.cells (offset + 0xa000) * 2 ^ 16))
        (m.cells (offset + 0xc000) * 2 ^ 8))
      (m.cells (offset + 0xe000))

-- The loop of `SetRamDiskMode` over `m_mappings` from index `idx` on; its second test breaks.
pub scan_mappings : List ℕ → ℕ → Memory → Memory
scan_mappings [] idx m = m
scan_mappings (d ∷ ds) idx m = elim (mode_enabled d) [
  | false ↦ scan_mappings ds (idx + 1) m
  | true ↦
      let enabled = m.mappings_enabled + 1 in
      elim (ltb 1 enabled) [
        | true ↦ record m { mappings_enabled = enabled }
        | false ↦
            scan_mappings ds (idx + 1)
              (record m { mappings_enabled = enabled; mapping = d; ramdisk_idx = idx })
      ]
]

-- `SetRamDiskMode`
pub set_ram_disk_mode : ℕ → ℕ → Memory → Memory
unfolding scan_mappings
set_ram_disk_mode disk_idx value m =
    let mappings = set m.mappings disk_idx value in
    scan_mappings mappings 0 (record m { mappings = mappings; mapping = 0; mappings_enabled = 0 })

-- `IsException`
pub is_exception : Memory → Bool × Memory
is_exception m = (ltb 1 m.mappings_enabled, record m { mappings_enabled = 0 })

-- `DebugInit`
pub debug_init : Memory → Memory
debug_init m = record m { debug = record (m.debug) { instr_len = 0; read_len = 0; write_len = 0 } }
