-- ===== src/Fdc/Access.antt =====
-- `Fdc1793::Read` and `Fdc1793::Write`, the mounting of images and the choice of the drive
-- (libs/v6core/src/fdc_wd1793.cpp).
use v6emul.Base.{
  ℕ, ◌+◌, ◌-◌, ◌/◌, ◌%◌, bit_and, bit_or, bit_xor, true, false, ◌||◌, ltb, leb, ◌==◌, if◌then◌else◌,
  nonzero, u8, u64, update, Option, none, some, List, length, get_or,
}
use v6emul.Fdc.{
  Fdc, FDisk, null, Port, command_port, track_port, sector_port, data_port, system_port, load,
  store, next_ptr, dec32, on_disk, reset, fdd_sector_len, fdd_size, wd_irq, f_index, f_lostdata,
  f_notready, f_busy, drives_max,
}
use v6emul.Fdc.Commands.{write_command}

-- One byte of a transfer is done: the watchdog starts again and the sector moves on at its end, or
-- the transfer is over.
unfoldable pub advance : Fdc → Fdc
advance f =
    let left = dec32 f.rw_len in
    if nonzero left
    then record f {
      ptr = next_ptr f.ptr;
      rw_len = left;
      wait = 255;
      sector_reg = if left % fdd_sector_len == 0 then u8 (f.sector_reg + 1) else f.sector_reg;
    }
    else record f {
      ptr = next_ptr f.ptr;
      rw_len = left;
      status = bit_and f.status 0xfc;
      irq = wd_irq;
    }

-- Port::DATA, read and written
unfoldable pub read_data : Fdc → Option (ℕ × Fdc)
read_data f =
    if nonzero f.rw_len
    then elim (load f.ptr f) [
      | none ↦ none
      | some v ↦ elim (f.disk) [
        | none ↦ none
        | some d ↦ some (
          v,
          advance
              (on_disk d (λ k. record k { reads = u64 (k.reads + 1) }) (record f { data_reg = v })),
        )
      ]
    ]
    else some (f.data_reg, f)

unfoldable pub write_data : ℕ → Fdc → Option Fdc
write_data v f =
    if nonzero f.rw_len
    then elim (store f.ptr v f) [
      | none ↦ none
      | some f1 ↦ elim (f1.disk) [
        | none ↦ none
        | some d ↦ some (
            advance (
              on_disk d (λ k. record k { updated = true; writes = u64 (k.writes + 1) })
                (record f1 { data_reg = v })))
      ]
    ]
    else some (record f { data_reg = v })

-- Port::STATUS
unfoldable pub read_status : Fdc → ℕ × Fdc
read_status f = (
  bit_or f.status (elim (f.disk) [ none ↦ f_notready | some d ↦ 0 ]),
  record f {
    status =
        if ltb f.cmd 0x80 || f.cmd == 0xd0
        then bit_and (bit_xor f.status f_index) 0xc7
        else bit_and f.status 0xc3;
  },
)

-- Port::READY: the watchdog stops a transfer that nobody goes on with.
unfoldable pub read_ready : Fdc → ℕ × Fdc
read_ready f =
    let f' =
      if f.wait == 0
      then f
      else if f.wait == 1
      then record f {
        wait = 0;
        rw_len = 0;
        status = bit_or (bit_and f.status 0xfc) f_lostdata;
        irq = wd_irq;
      }
      else record f { wait = f.wait - 1 } in
    (f'.irq, f')

-- Port::SYSTEM: bits 0 and 1 choose the drive, bit 2 the side, inverted.
unfoldable pub write_system : ℕ → Fdc → Fdc
write_system v f =
    let drive = v % 4 in
    record f {
      drive = drive;
      disk = if (f.disks drive).mounted then some drive else none;
      side = 1 - v / 4 % 2;
      system_reg = v;
    }

-- `Read`
unfoldable pub read : Port → Fdc → Option (ℕ × Fdc)
read command_port f = some (read_status f)
read track_port f = some (f.track_reg, f)
read sector_port f = some (f.sector_reg, f)
read data_port f = read_data f
read system_port f = some (read_ready f)

-- `Write`, which returns `m_irq` of the controller that it leaves
unfoldable pub write : Port → ℕ → Fdc → Option Fdc
write command_port v f = write_command v f
write track_port v f =
    some (if nonzero (bit_and f.status f_busy) then f else record f { track_reg = v })
write sector_port v f =
    some (if nonzero (bit_and f.status f_busy) then f else record f { sector_reg = v })
write data_port v f = write_data v f
write system_port v f = some (write_system v f)

-- `FDisk::Mount`, a copy that runs over the image if there are too many bytes
unfoldable pub mount_disk : List ℕ → FDisk → Option FDisk
mount_disk bytes k =
    if leb (length bytes) fdd_size
    then some (record k {
      image = λ i. if ltb i (length bytes) then get_or bytes i 0 else k.image i;
      mounted = true;
      updated = false;
      reads = 0;
      writes = 0;
    })
    else none

-- `Fdc1793::Mount`
unfoldable pub mount : ℕ → List ℕ → Fdc → Option Fdc
mount idx bytes f = elim (mount_disk bytes (f.disks (idx % drives_max))) [
  | none ↦ none
  | some k ↦
      let f' = record f { disks = update f.disks (idx % drives_max) k } in
      some (if idx == f.drive then reset f' else f')
]

-- `Fdc1793::Dismount`
unfoldable pub dismount : ℕ → Fdc → Option Fdc
dismount idx f =
    let f1 = on_disk idx (λ k. record k { mounted = false }) f in
    let f2 = if idx == f.drive then record f1 { disk = none; ptr = null; rw_len = 0 } else f1 in
    if ltb idx drives_max then some f2 else none

-- `ResetUpdate`
unfoldable pub reset_update : ℕ → Fdc → Option Fdc
reset_update idx f =
    if ltb idx drives_max then some (on_disk idx (λ k. record k { updated = false }) f) else none
