-- ===== src/Memory/Bounds.antt =====
-- The global addresses that the mapping gives, and what a valid memory is.
use v6emul.Base.{ℕ, ◌%◌, ◌<◌, ◌≡◌, arith, Bool, List, length, All, All-get_or}
use v6emul.Memory.{
  Memory, AddrSpace, MemType, Debug, get_global_addr, byte_at, get_byte, memory_global_len,
  cpu_read_instr,
}

-- With one of the eight RAM disks selected, a 16-bit address is mapped inside `m_ram`, to a cell of
-- the same offset in its 64 KB page.
pub get_global_addr_bounds :
    (m : Memory) (addr : ℕ) (space : AddrSpace)
    → m.ramdisk_idx < 8
    → addr < 65536
    → (get_global_addr m addr space < memory_global_len)
      × (get_global_addr m addr space % 65536 ≡ addr)
unfolding get_global_addr
get_global_addr_bounds m addr space hi ha = ground arith

-- What the machine keeps true of its memory: every cell and ROM byte is a byte, and the selected
-- RAM disk is one of the eight.
pub record IsValid (m : Memory) : Type 0 where
  pub cells_bytes : (i : ℕ) → m.cells i < 256
  pub rom_bytes : All (λ v. v < 256) m.rom
  pub disk_in : m.ramdisk_idx < 8
  pub eight : length m.mappings ≡ 8

-- A memory with the same cells and ROM.
IsValid-keep :
    {m : Memory} {idx enabled mapping : ℕ} {ds : List ℕ} {t : MemType} {b : Bool} {d : Debug}
    → IsValid m
    → idx < 8
    → length ds ≡ 8
    → IsValid (record {
      cells = m.cells;
      rom = m.rom;
      mappings = ds;
      mapping = mapping;
      ramdisk_idx = idx;
      mem_type = t;
      mappings_enabled = enabled;
      clear_after_restart = b;
      debug = d;
    })
IsValid-keep v hi he = record {
  cells_bytes = v.cells_bytes;
  rom_bytes = v.rom_bytes;
  disk_in = hi;
  eight = he;
}

pub byte_at-lt : (m : Memory) (i : ℕ) → IsValid m → byte_at m i < 256
unfolding byte_at
byte_at-lt m i v =
    ground (arith, v.cells_bytes i, All-get_or (λ x. x < 256) m.rom i 0 v.rom_bytes (omega arith))

pub get_byte-lt :
    (m : Memory) (addr : ℕ) (space : AddrSpace) → IsValid m → get_byte m addr space < 256
unfolding get_byte
get_byte-lt m addr space v = byte_at-lt m (get_global_addr m addr space) v

pub cpu_read_instr-IsValid :
    (addr : ℕ) (space : AddrSpace) (n : ℕ) {m : Memory}
    → IsValid m
    → IsValid (cpu_read_instr addr space n m).1 × ((cpu_read_instr addr space n m).0 < 256)
unfolding cpu_read_instr
cpu_read_instr-IsValid addr space n {m} v =
    (IsValid-keep v v.disk_in v.eight, byte_at-lt m (get_global_addr m addr space) v)
