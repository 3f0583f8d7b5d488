-- ===== src/Fdc.antt =====
-- The floppy disk controller `Fdc1793` and its images `FDisk` (libs/v6core/include/core/fdc_wd1793.h,
-- libs/v6core/src/fdc_wd1793.cpp). `m_regs` is five fields, `m_disks` a function from drives, and
-- `data` a function from offsets. `m_ptr` is a place in an image or in its header. An access that
-- the language leaves undefined is a fault, `none`. `m_rwLen` is an `int`, written on 32 bits.
-- The path of an image and the records for the debugger are left out.
pub mod Commands
pub mod Access
pub mod Transfer
pub mod Sectors
pub mod RoundTrip
pub mod Watchdog
pub mod Keeps
pub mod Chosen
use v6emul.Base.{
  ℕ, ◌+◌, ◌-◌, ◌*◌, ◌%◌, ◌^◌, Bool, true, false, ltb, if◌then◌else◌, update, Option, none, some,
  List, [], ◌∷◌, set, get_or,
}

abbrev pub fdd_sides : ℕ
fdd_sides = 2

abbrev pub fdd_sectors_per_track : ℕ
fdd_sectors_per_track = 5

abbrev pub fdd_sector_len : ℕ
fdd_sector_len = 1024

-- FDD_SIDES * FDD_TRACKS_PER_SIDE * FDD_SECTORS_PER_TRACK * FDD_SECTOR_LEN
abbrev pub fdd_size : ℕ
fdd_size = 839680

abbrev pub drives_max : ℕ
drives_max = 4

-- WD1793_IRQ and WD1793_DRQ
abbrev pub wd_irq : ℕ
wd_irq = 0x80

abbrev pub wd_drq : ℕ
wd_drq = 0x40

-- the status bits
abbrev pub f_busy : ℕ
f_busy = 0x01

abbrev pub f_index : ℕ
f_index = 0x02

abbrev pub f_drq : ℕ
f_drq = 0x02

abbrev pub f_track0 : ℕ
f_track0 = 0x04

abbrev pub f_lostdata : ℕ
f_lostdata = 0x04

abbrev pub f_notfound : ℕ
f_notfound = 0x10

abbrev pub f_headload : ℕ
f_headload = 0x20

abbrev pub f_notready : ℕ
f_notready = 0x80

pub record FDisk : Type 0 where
  pub image : ℕ → ℕ
  pub header : List ℕ
  pub updated : Bool
  pub mounted : Bool
  pub reads : ℕ
  pub writes : ℕ

-- `uint8_t*`: null, an offset in the image or the header of a drive, or a place in no object.
pub data Ptr : Type 0 where
  null wild : Ptr
  in_image in_header : ℕ → ℕ → Ptr

-- Each port has one number for reading and writing: COMMAND and STATUS are 0, READY and SYSTEM 4.
pub data Port : Type 0 where
  command_port track_port sector_port data_port system_port : Port

pub record Fdc : Type 0 where
  pub disks : ℕ → FDisk
  pub status : ℕ
  pub track_reg : ℕ
  pub sector_reg : ℕ
  pub data_reg : ℕ
  pub system_reg : ℕ
  pub drive : ℕ
  pub side : ℕ
  pub track : ℕ
  pub last_s : ℕ
  pub irq : ℕ
  pub wait : ℕ
  pub cmd : ℕ
  pub rw_len : ℕ
  pub ptr : Ptr
  pub disk : Option ℕ

-- `FDisk::FDisk`
unfoldable pub new_disk : FDisk
new_disk = record {
  image = λ i. 0;
  header = 0 ∷ 0 ∷ 0 ∷ 3 ∷ 0 ∷ 0 ∷ [];
  updated = false;
  mounted = false;
  reads = 0;
  writes = 0;
}

-- a change of one image
abbrev pub on_disk : ℕ → (FDisk → FDisk) → Fdc → Fdc
on_disk d g f = record f { disks = update f.disks d (g (f.disks d)) }

-- `Reset`
unfoldable pub reset : Fdc → Fdc
reset f = record f {
  status = 0;
  track_reg = 0;
  sector_reg = 0;
  data_reg = 0;
  system_reg = 0x0c;
  side = 0;
  track = 0;
  last_s = 0;
  irq = 0;
  rw_len = 0;
  wait = 0;
  cmd = 0xd0;
}

-- `Fdc1793::Fdc1793`
unfoldable pub new_fdc : Fdc
new_fdc = reset (record {
  disks = λ d. new_disk;
  status = 0;
  track_reg = 0;
  sector_reg = 0;
  data_reg = 0;
  system_reg = 0;
  drive = 0;
  side = 0;
  track = 0;
  last_s = 0;
  irq = 0;
  wait = 0;
  cmd = 0;
  rw_len = 0;
  ptr = null;
  disk = none;
})

-- the offset of a sector; sectors are numbered from 1
unfoldable pub sector_offset : ℕ → ℕ → ℕ → ℕ
sector_offset side_id track_id sector_id =
    (fdd_sectors_per_track * (track_id * fdd_sides + side_id) + (sector_id - 1)) * fdd_sector_len

-- the header that `Seek` stores, with its last three bytes kept
abbrev pub set_header : ℕ → ℕ → ℕ → FDisk → FDisk
set_header side_id track_id sector_id k = record k {
  header =
      track_id
      ∷ side_id
      ∷ sector_id
      ∷ get_or k.header 3 0
      ∷ get_or k.header 4 0
      ∷ get_or k.header 5 0
      ∷ [];
}

-- `Seek`: the place of the sector
unfoldable pub seek : ℕ → ℕ → ℕ → Fdc → Ptr × Fdc
seek side_id track_id sector_id f = elim (f.disk) [
  | none ↦ (null, f)
  | some d ↦ (
    if (f.disks d).mounted then in_image d (sector_offset side_id track_id sector_id) else wild,
    on_disk d (set_header side_id track_id sector_id) f,
  )
]

-- `*m_ptr`
unfoldable pub load : Ptr → Fdc → Option ℕ
load (in_image d off) f = if ltb off fdd_size then some ((f.disks d).image off) else none
load (in_header d off) f = if ltb off 6 then some (get_or (f.disks d).header off 0) else none
load _ f = none

-- a store through `m_ptr`
unfoldable pub store : Ptr → ℕ → Fdc → Option Fdc
store (in_image d off) v f =
    if ltb off fdd_size
    then some (on_disk d (λ k. record k { image = update k.image off v }) f)
    else none
store (in_header d off) v f =
    if ltb off 6 then some (on_disk d (λ k. record k { header = set k.header off v }) f) else none
store _ v f = none

-- `m_ptr++`
abbrev pub next_ptr : Ptr → Ptr
next_ptr (in_image d off) = in_image d (off + 1)
next_ptr (in_header d off) = in_header d (off + 1)
next_ptr p = p

-- a pointer as a condition
abbrev pub is_null : Ptr → Bool
is_null null = true
is_null p = false

-- `--m_rwLen` on 32 bits
abbrev pub dec32 : ℕ → ℕ
dec32 n = (n + (2 ^ 32 - 1)) % 2 ^ 32
