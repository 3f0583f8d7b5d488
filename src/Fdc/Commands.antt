-- ===== src/Fdc/Commands.antt =====
-- The commands of the disk controller: `Fdc1793::Write` at Port::COMMAND
-- (libs/v6core/src/fdc_wd1793.cpp). Every command starts with the status cleared.
use v6emul.Base.{
  ℕ, zero, suc, ◌+◌, ◌-◌, ◌*◌, ◌%◌, ◌^◌, bit_and, bit_or, true, ◌&&◌, ◌||◌, leb, ltb, ◌==◌,
  if◌then◌else◌, nonzero, u8, bool_to_ℕ, Option, none, some,
}
use v6emul.Fdc.{
  Fdc, Ptr, null, in_image, in_header, is_null, seek, on_disk, fdd_sector_len,
  fdd_sectors_per_track, fdd_size, wd_irq, wd_drq, f_busy, f_index, f_drq, f_track0, f_notfound,
  f_headload,
}

-- `m_track ? 0 : F_TRACK0`
abbrev pub at_track0 : Fdc → ℕ
at_track0 f = if nonzero f.track then 0 else f_track0

abbrev pub head_load : ℕ → ℕ
head_load val = if nonzero (bit_and val 0x08) then f_headload else 0

-- FORCE INTERRUPT: an executing command is dropped, or else all flags are set anew.
unfoldable pub force_interrupt : ℕ → Fdc → Fdc
force_interrupt val f = record f {
  rw_len = 0;
  cmd = 0xd0;
  status =
      if nonzero (bit_and f.status f_busy)
      then bit_and f.status 0xfe
      else bit_or (at_track0 f) f_index;
  irq = if nonzero (bit_and val 0x08) then wd_irq else f.irq;
}

-- RESTORE
unfoldable pub restore : ℕ → Fdc → Fdc
restore val f = record f {
  track = 0;
  status = bit_or (bit_or f_index f_track0) (head_load val);
  track_reg = 0;
  irq = wd_irq;
}

-- SEEK
unfoldable pub seek_track : ℕ → Fdc → Fdc
seek_track val f =
    let f' = record f { rw_len = 0; track = f.data_reg } in
    record f' {
      status = bit_or (bit_or f_index (at_track0 f')) (head_load val);
      track_reg = f'.track;
      irq = wd_irq;
    }

-- STEP, STEP-IN and STEP-OUT: bit 5 is the direction, which STEP takes from the last step.
abbrev pub direction : ℕ → Fdc → ℕ
direction val f = if nonzero (bit_and val 0x40) then bit_and val 0x20 else f.last_s

unfoldable pub step : ℕ → Fdc → Fdc
step val f =
    let out = direction val f in
    let track =
      if nonzero out
      then (if nonzero f.track then f.track - 1 else f.track)
      else u8 (f.track + 1) in
    let f' = record f { last_s = out; track = track } in
    record f' {
      track_reg = if nonzero (bit_and val 0x10) then track else f'.track_reg;
      status = bit_or f_index (at_track0 f');
      irq = wd_irq;
    }

-- the side that the command or the system register chooses
abbrev pub command_side : ℕ → Fdc → ℕ
command_side val f =
    if nonzero (bit_and val 0x02) then bool_to_ℕ (nonzero (bit_and val 0x08)) else f.side

-- the bytes to transfer: one sector, or those up to the end of the track
abbrev pub transfer_len : ℕ → Fdc → ℕ
transfer_len val f =
    fdd_sector_len
    * (if nonzero (bit_and val 0x10) then fdd_sectors_per_track + 1 + 2 ^ 32 - f.sector_reg else 1)
    % 2 ^ 32

-- a transfer of `n` bytes starts
abbrev pub begin_transfer : ℕ → Fdc → Fdc
begin_transfer n f = record f {
  rw_len = n;
  status = bit_or f.status (bit_or f_busy f_drq);
  irq = wd_drq;
  wait = 255;
}

-- READ-SECTORS
unfoldable pub read_sectors : ℕ → Fdc → Fdc
read_sectors val f =
    let (p, f1) = seek (command_side val f) f.track_reg f.sector_reg f in
    let f' = record f1 { ptr = p } in
    if is_null p
    then record f' { status = bit_or (bit_and f'.status 0xe7) f_notfound; irq = wd_irq }
    else begin_transfer (transfer_len val f') f'

-- `m_disk->updated = true`
abbrev pub mark_disk : Option ℕ → Fdc → Fdc
mark_disk none f = f
mark_disk (some d) f = on_disk d (λ k. record k { updated = true }) f

abbrev pub mark_updated : Fdc → Fdc
mark_updated f = mark_disk f.disk f

-- WRITE-SECTORS
unfoldable pub write_sectors : ℕ → Fdc → Fdc
write_sectors val f =
    let (p, f1) = seek (command_side val f) f.track_reg f.sector_reg f in
    let f' = record f1 { ptr = p } in
    if is_null p
    then record f' { status = bit_or (bit_and f'.status 0xe7) f_notfound; irq = wd_irq }
    else mark_updated (begin_transfer (transfer_len val f') f')

-- the loop of READ-ADDRESS over the sectors from `j`, `n` of them left
unfoldable pub find_address : ℕ → ℕ → Fdc → Fdc
find_address zero j f = f
find_address (suc n) j f =
    let (p, f1) = seek f.side f.track j f in
    let f' = record f1 { ptr = p } in
    let rest = find_address n (j + 1) f' in if is_null p then rest else f'

-- READ-ADDRESS: the header of the first sector of the track
unfoldable pub read_address : Fdc → Fdc
read_address f = elim (f.disk) [
  | none ↦ record f { ptr = null; status = bit_or f.status f_notfound; irq = wd_irq }
  | some d ↦
      let f' = find_address 256 0 f in
      if is_null f'.ptr
      then record f' { status = bit_or f'.status f_notfound; irq = wd_irq }
      else begin_transfer 6 (record f' { ptr = in_header d 0 })
]

-- `memset(m_ptr, 0xE5, FDD_SECTOR_LEN * FDD_SECTORS_PER_TRACK)` if the pointer is not null
unfoldable pub format : Ptr → Fdc → Option Fdc
format null f = some f
format (in_image d off) f =
    if leb (off + 5120) fdd_size
    then some (
        mark_updated (
          on_disk d
            (λ k. record k {
              image = λ i. if leb off i && ltb i (off + 5120) then 0xe5 else k.image i;
            })
            f))
    else none
format _ f = none

-- WRITE-TRACK, for both sides
unfoldable pub write_track : Fdc → Option Fdc
write_track f =
    let (p0, f0) = seek 0 f.track_reg 1 f in
    elim (format p0 (record f0 { ptr = p0 })) [
      | none ↦ none
      | some f' ↦ let (p1, f1) = seek 1 f'.track_reg 1 f' in format p1 (record f1 { ptr = p1 })
    ]

-- the switch over the upper half of the command; READ-TRACK does nothing
unfoldable pub run_command : ℕ → Fdc → Option Fdc
run_command val f =
    let code = bit_and val 0xf0 in
    if code == 0x00
    then some (restore val f)
    else if code == 0x10
    then some (seek_track val f)
    else if leb 0x20 code && leb code 0x70
    then some (step val f)
    else if code == 0x80 || code == 0x90
    then some (read_sectors val f)
    else if code == 0xa0 || code == 0xb0
    then some (write_sectors val f)
    else if code == 0xc0
    then some (read_address f)
    else if code == 0xf0
    then write_track f
    else some f

-- a write to the command register
unfoldable pub write_command : ℕ → Fdc → Option Fdc
write_command val f0 =
    let f = record f0 { irq = 0 } in
    if bit_and val 0xf0 == 0xd0
    then some (force_interrupt val f)
    else if nonzero (bit_and f.status f_busy)
    then some f
    else run_command val (record f { status = 0; cmd = val })
