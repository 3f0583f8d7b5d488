-- ===== src/Memory/Access.antt =====
-- Reads after writes through the mapping, as the CPU makes them.
use v6emul.Base.{ℕ, ◌<◌, ◌≡◌, refl, arith, ap, ◌&&◌, not, ◌∙◌}
use v6emul.Base.{length, ltb, ◌==◌, if◌then◌else◌, update}
use v6emul.Memory.{
  Memory, AddrSpace, Debug, is_rom_enabled, get_global_addr, byte_at, get_byte, cpu_write,
}
use v6emul.Memory.Bounds.{get_global_addr_bounds}

-- Two 16-bit addresses in one address space share a cell only if they are equal.
pub get_global_addr-injective :
    (m : Memory) (a b : ℕ) (s t : AddrSpace)
    → m.ramdisk_idx < 8
    → a < 65536
    → b < 65536
    → get_global_addr m a s ≡ get_global_addr m b t
    → a ≡ b
get_global_addr-injective m a b s t hi ha hb e =
    omega (arith, get_global_addr_bounds m a s hi ha, get_global_addr_bounds m b t hi hb)

-- A store leaves the mapping alone.
pub get_global_addr-cpu_write :
    (m : Memory) (a b value : ℕ) (s t : AddrSpace) (n : ℕ)
    → get_global_addr (cpu_write a value s n m) b t ≡ get_global_addr m b t
unfolding get_global_addr cpu_write
get_global_addr-cpu_write m a b value s t n = refl

byte_at-update :
    (m : Memory) (i j value : ℕ) (d : Debug)
    → byte_at (record m { cells = update m.cells i value; debug = d }) j
      ≡ (if i == j && not (is_rom_enabled m && ltb i (length m.rom)) then value else byte_at m j)
unfolding byte_at
byte_at-update m i j value d = ground arith

same_cell :
    (m : Memory) (a b : ℕ) (s : AddrSpace)
    → m.ramdisk_idx < 8
    → a < 65536
    → b < 65536
    → (get_global_addr m a s == get_global_addr m b s) ≡ (a == b)
same_cell m a b s hi ha hb = ground (
  arith,
  get_global_addr-injective m a b s s hi ha hb,
  λ (e : a ≡ b). ap (λ (x : ℕ). get_global_addr m x s) e,
)

-- After the CPU stores a byte, a read of the same address space gives that byte at its address and
-- what it gave before at every other 16-bit address. Where the ROM shadows the address, no read
-- sees the store. The selected RAM disk is one of the eight.
pub get_byte-cpu_write :
    (m : Memory) (a b value : ℕ) (space : AddrSpace) (n : ℕ)
    → m.ramdisk_idx < 8
    → a < 65536
    → b < 65536
    → get_byte (cpu_write a value space n m) b space ≡ (
        if a == b && not (is_rom_enabled m && ltb (get_global_addr m a space) (length m.rom))
        then value
        else get_byte m b space)
unfolding get_byte cpu_write
get_byte-cpu_write m a b value space n hi ha hb =
    ap (byte_at (cpu_write a value space n m)) (get_global_addr-cpu_write m a b value space space n)
    ∙ byte_at-update m (get_global_addr m a space) (get_global_addr m b space) value _
    ∙ rw (same_cell m a b space hi ha hb)
