-- ===== src/Fdc/Sectors.antt =====
-- Sectors read and written by commands of the disk controller (libs/v6core/src/fdc_wd1793.cpp).
use v6emul.Base.{
  ℕ, suc, ◌+◌, ◌-◌, ◌*◌, ◌%◌, ◌^◌, ◌≤◌, ◌<◌, ◌≡◌, refl, sym, ◌∙◌, ap, subst, arith, bit_and, Bool,
  true, false, Option, none, some, List, ◌∷◌, length,
}
use v6emul.Fdc.{
  Fdc, in_image, seek, set_header, sector_offset, fdd_size, fdd_sector_len, command_port, on_disk,
}
use v6emul.Fdc.Commands.{
  write_command, run_command, read_sectors, write_sectors, transfer_len, begin_transfer, mark_disk,
  mark_updated,
}
use v6emul.Fdc.Access.{write}
use v6emul.Fdc.Transfer.{
  read_bytes, write_bytes, slice, slice_congr, image_of, ImageKept, IsTransfer, Advanced, Written,
  read_bytes_lem, write_bytes_lem,
}

-- The controller can start a transfer: it is not busy, a mounted drive is chosen, and its registers
-- name a sector of the image.
pub record IsIdle (d : ℕ) (f : Fdc) : Type 0 where
  pub not_busy : bit_and f.status 1 ≡ 0
  pub selected : f.disk ≡ some d
  pub mounted : (f.disks d).mounted ≡ true
  pub side_in : f.side < 2
  pub track_in : f.track_reg < 82
  pub sector_pos : 1 ≤ f.sector_reg
  pub sector_in : f.sector_reg ≤ 5

-- READ-SECTORS and WRITE-SECTORS, of one sector or of those up to the end of the track
abbrev pub read_code : Bool → ℕ
read_code false = 0x80
read_code true = 0x90

abbrev pub write_code : Bool → ℕ
write_code false = 0xa0
write_code true = 0xb0

-- the sectors of a transfer, less one, and its bytes
abbrev pub further : Bool → Fdc → ℕ
further false f = 0
further true f = 5 - f.sector_reg

abbrev pub bytes_of : Bool → Fdc → ℕ
bytes_of multi f = suc (1023 + 1024 * further multi f)

abbrev pub offset_of : Fdc → ℕ
offset_of f = sector_offset f.side f.track_reg f.sector_reg

record Started (d : ℕ) (multi : Bool) (f f' : Fdc) : Type 0 where
  transfer : IsTransfer d (offset_of f) (bytes_of multi f) f'
  status_set : f'.status ≡ 3
  track_kept : f'.track_reg ≡ f.track_reg
  side_kept : f'.side ≡ f.side
  mounts_kept : (e : ℕ) → (f'.disks e).mounted ≡ (f.disks e).mounted
  images_kept : ImageKept f f'

offset_fits :
    (d : ℕ) (multi : Bool) (f : Fdc) → IsIdle d f → offset_of f + bytes_of multi f ≤ fdd_size
unfolding sector_offset
offset_fits d false f h = omega (arith, h.side_in, h.track_in, h.sector_pos, h.sector_in)
offset_fits d true f h = omega (arith, h.side_in, h.track_in, h.sector_pos, h.sector_in)

-- the controller when the command is taken, and when its transfer starts
abbrev taken : ℕ → Fdc → Fdc
taken val f = record f { irq = 0; status = 0; cmd = val }

abbrev opened : ℕ → ℕ → Fdc → Fdc
opened val d f =
    let f1 = on_disk d (set_header f.side f.track_reg f.sector_reg) (taken val f) in
    begin_transfer (transfer_len val f) (record f1 { ptr = in_image d (offset_of f) })

start_read :
    (d : ℕ) (multi : Bool) (f : Fdc)
    → IsIdle d f
    → write command_port (read_code multi) f ≡ some (opened (read_code multi) d f)
unfolding write write_command run_command read_sectors seek
start_read d false f h = simp (h.not_busy, h.selected, h.mounted)
start_read d true f h = simp (h.not_busy, h.selected, h.mounted)

start_write :
    (d : ℕ) (multi : Bool) (f : Fdc)
    → IsIdle d f
    → write command_port (write_code multi) f ≡ some (mark_updated (opened (write_code multi) d f))
unfolding write write_command run_command write_sectors seek
start_write d false f h = simp (h.not_busy, h.selected, h.mounted)
start_write d true f h = simp (h.not_busy, h.selected, h.mounted)

multi_len :
    (d : ℕ) (f : Fdc)
    → IsIdle d f
    → fdd_sector_len * (4294967302 - f.sector_reg) % 2 ^ 32 ≡ bytes_of true f
multi_len d f h = omega (arith, h.sector_pos, h.sector_in)

module _ (d : ℕ) (multi : Bool) (f : Fdc) (h : IsIdle d f) where
  opened-Started :
      (val : ℕ)
      → transfer_len val (opened val d f) ≡ bytes_of multi f
      → Started d multi f (opened val d f)
  opened-Started val e = record {
    transfer = record {
      place = refl;
      left = e;
      selected = h.selected;
      fits = offset_fits d multi f h;
    };
    status_set = refl;
    track_kept = refl;
    side_kept = refl;
    mounts_kept = λ e. ground arith;
    images_kept = λ e i. ground arith;
  }

  -- `updated` is all that a write changes of this.
  updated-Started : (f' : Fdc) → Started d multi f f' → Started d multi f (mark_updated f')
  updated-Started f' s = subst (Started d multi f) (sym marked) (record {
    transfer = record {
      place = s.transfer.place;
      left = s.transfer.left;
      selected = s.transfer.selected;
      fits = s.transfer.fits;
    };
    status_set = s.status_set;
    track_kept = s.track_kept;
    side_kept = s.side_kept;
    mounts_kept = λ e. ground (arith, s.mounts_kept e);
    images_kept = λ e i. ground (arith, s.images_kept e i);
  })
    where
      marked : mark_updated f' ≡ on_disk d (λ k. record k { updated = true }) f'
      marked = ap (λ o. mark_disk o f') s.transfer.selected

-- A command to read or write sectors.
command_len :
    (d : ℕ) (multi : Bool) (f : Fdc)
    → IsIdle d f
    → (transfer_len (read_code multi) (opened (read_code multi) d f) ≡ bytes_of multi f)
      × (transfer_len (write_code multi) (opened (write_code multi) d f) ≡ bytes_of multi f)
command_len d false f h = (refl, refl)
command_len d true f h = (multi_len d f h, multi_len d f h)

-- what a finished transfer leaves
pub record Finished (d : ℕ) (f f' : Fdc) : Type 0 where
  pub irq_raised : f'.irq ≡ 0x80
  pub status_clear : f'.status ≡ 0
  pub none_left : f'.rw_len ≡ 0
  pub same_place : (f'.track_reg ≡ f.track_reg) × (f'.side ≡ f.side) × (f'.disk ≡ some d)
  pub same_mounts : (e : ℕ) → (f'.disks e).mounted ≡ (f.disks e).mounted

finished :
    (d p : ℕ) (multi : Bool) (f f1 f2 : Fdc)
    → Started d multi f f1
    → IsTransfer d p 0 f2
    → Advanced 0 f1 f2
    → Finished d f f2
finished d p multi f f1 f2 s t a = record {
  irq_raised = a.irq_raised;
  status_clear = a.status_kept ∙ ap (λ v. bit_and v 0xfc) s.status_set;
  none_left = t.left;
  same_place = (a.same_track ∙ s.track_kept, a.same_side ∙ s.side_kept, t.selected);
  same_mounts = λ e. a.same_mount e ∙ s.mounts_kept e;
}

-- the command, then all bytes through Port::DATA
unfoldable pub read_run : ℕ → ℕ → Fdc → Option (List ℕ × Fdc)
read_run val n f = elim (write command_port val f) [ none ↦ none | some f1 ↦ read_bytes n f1 ]

unfoldable pub write_run : ℕ → List ℕ → Fdc → Option Fdc
write_run val vs f = elim (write command_port val f) [ none ↦ none | some f1 ↦ write_bytes vs f1 ]

read_run_from :
    (val n : ℕ) (f f1 : Fdc)
    → write command_port val f ≡ some f1
    → read_run val n f ≡ read_bytes n f1
unfolding read_run
read_run_from val n f f1 e = rw (e, read_run) refl

write_run_from :
    (val : ℕ) (vs : List ℕ) (f f1 : Fdc)
    → write command_port val f ≡ some f1
    → write_run val vs f ≡ write_bytes vs f1
unfolding write_run
write_run_from val vs f f1 e = rw (e, write_run) refl

-- From a controller that is not busy, with a mounted drive and registers that name a sector, the
-- command to read sectors and then as many reads of the data port as it transfers give the bytes of
-- the image from the offset of the sector on. The controller is then idle with its interrupt
-- raised, and no image is changed.
pub read_run_lem :
    (d : ℕ) (multi : Bool) (f : Fdc)
    → IsIdle d f
    → (f' : Fdc) × (read_run (read_code multi) (bytes_of multi f) f
        ≡ some (slice (image_of f d) (offset_of f) (bytes_of multi f), f'))
      × Finished d f f'
      × ImageKept f f'
read_run_lem d multi f h =
    let f1 = opened (read_code multi) d f in
    let s = opened-Started d multi f h (read_code multi) (command_len d multi f h).0 in
    let (f2, e, t, a, k) =
      read_bytes_lem (1023 + 1024 * further multi f) d (offset_of f) f1 s.transfer in
    let same =
      slice_congr (image_of f1 d) (image_of f d) (offset_of f) (bytes_of multi f)
        (s.images_kept d) in
    (
      f2,
      read_run_from (read_code multi) (bytes_of multi f) f f1 (start_read d multi f h)
          ∙ e
          ∙ ap (λ vs. some (vs, f2)) same,
      finished d (offset_of f + bytes_of multi f) multi f f1 f2 s t a,
      λ e i. k e i ∙ s.images_kept e i,
    )

-- From a controller that is not busy, with a mounted drive and registers that name a sector, the
-- command to write sectors and then as many bytes to the data port as it transfers leave these
-- bytes in the image from the offset of the sector on and the rest of that image as it was. The
-- controller is then idle with its interrupt raised.
pub write_run_lem :
    (d : ℕ) (multi : Bool) (v : ℕ) (vs : List ℕ) (f : Fdc)
    → IsIdle d f
    → length (v ∷ vs) ≡ bytes_of multi f
    → (f' : Fdc) × (write_run (write_code multi) (v ∷ vs) f ≡ some f')
      × Finished d f f'
      × Written (offset_of f) (v ∷ vs) (image_of f d) (image_of f' d)
write_run_lem d multi v vs f h len =
    let f1 = mark_updated (opened (write_code multi) d f) in
    let s =
      updated-Started d multi f h (opened (write_code multi) d f)
        (opened-Started d multi f h (write_code multi) (command_len d multi f h).1) in
    let t0 = subst (λ n. IsTransfer d (offset_of f) n f1) (sym len) s.transfer in
    let (f2, e, t, a, w) = write_bytes_lem vs d (offset_of f) v f1 t0 in
    (
      f2,
      write_run_from (write_code multi) (v ∷ vs) f f1 (start_write d multi f h) ∙ e,
      finished d (offset_of f + length (v ∷ vs)) multi f f1 f2 s t a,
      record {
        bytes_there = w.bytes_there;
        rest_kept = λ i o. w.rest_kept i o ∙ s.images_kept d i;
      },
    )
