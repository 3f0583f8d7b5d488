-- ===== src/Fdc/Keeps.antt =====
-- The drives under the commands of the disk controller (libs/v6core/src/fdc_wd1793.cpp).
use v6emul.Base.{
  ℕ, zero, suc, ◌+◌, ◌≡◌, refl, ◌∙◌, arith, bit_and, bit_or, Bool, true, false, ◌==◌, ◌&&◌, ◌||◌,
  if◌then◌else◌, nonzero, Option, none, some, leb, subst,
}
use mathlib.Core.Option.{some-injective, none-ne-some}
use v6emul.Fdc.{
  Fdc, Ptr, null, wild, in_header, in_image, is_null, fdd_size, seek, f_busy, f_notfound, wd_irq,
}
use v6emul.Fdc.Commands.{
  write_command, run_command, restore, seek_track, step, read_sectors, write_sectors, read_address,
  find_address, write_track, format, force_interrupt, mark_disk, command_side, begin_transfer,
}

-- what a command leaves of the drives
pub record Same (f f' : Fdc) : Type 0 where
  pub same_drive : f'.drive ≡ f.drive
  pub same_disk : f'.disk ≡ f.disk
  pub same_mount : (e : ℕ) → (f'.disks e).mounted ≡ (f.disks e).mounted

restore-Same : (val : ℕ) (f : Fdc) → Same f (restore val f)
unfolding restore
restore-Same val f = record { same_drive = refl; same_disk = refl; same_mount = λ e. refl }

seek_track-Same : (val : ℕ) (f : Fdc) → Same f (seek_track val f)
unfolding seek_track
seek_track-Same val f = record { same_drive = refl; same_disk = refl; same_mount = λ e. refl }

step-Same : (val : ℕ) (f : Fdc) → Same f (step val f)
unfolding step
step-Same val f = record { same_drive = refl; same_disk = refl; same_mount = λ e. refl }

force-Same : (val : ℕ) (f : Fdc) → Same f (force_interrupt val f)
unfolding force_interrupt
force-Same val f = record { same_drive = refl; same_disk = refl; same_mount = λ e. refl }

seek-Same : (s t v : ℕ) (f : Fdc) → Same f (seek s t v f).1
unfolding seek
seek-Same s t v f = record {
  same_drive = ground arith;
  same_disk = ground arith;
  same_mount = λ e. ground arith;
}

pub Same-refl : (f : Fdc) → Same f f
Same-refl f = record { same_drive = refl; same_disk = refl; same_mount = λ e. refl }

pub Same-trans : (f g h : Fdc) → Same f g → Same g h → Same f h
Same-trans f g h a b = record {
  same_drive = b.same_drive ∙ a.same_drive;
  same_disk = b.same_disk ∙ a.same_disk;
  same_mount = λ e. b.same_mount e ∙ a.same_mount e;
}

abbrev pub Keeps : Fdc → Option Fdc → Type 0
Keeps f o = (g : Fdc) → o ≡ some g → Same f g

pub either-Same : (b : Bool) (f g h : Fdc) → Same f g → Same f h → Same f (if b then g else h)
either-Same true f g h s t = s
either-Same false f g h s t = t

marked-Same : (o : Option ℕ) (f : Fdc) → Same f (mark_disk o f)
marked-Same none f = Same-refl f
marked-Same (some d) f = record {
  same_drive = refl;
  same_disk = refl;
  same_mount = λ e. ground arith;
}

read_sectors-Same : (val : ℕ) (f : Fdc) → Same f (read_sectors val f)
unfolding read_sectors
read_sectors-Same val f =
    let (p, g) = seek (command_side val f) f.track_reg f.sector_reg f in
    let s = seek-Same (command_side val f) f.track_reg f.sector_reg f in
    either-Same (is_null p) f _ _
      (record { same_drive = s.same_drive; same_disk = s.same_disk; same_mount = s.same_mount })
      (record { same_drive = s.same_drive; same_disk = s.same_disk; same_mount = s.same_mount })

write_sectors-Same : (val : ℕ) (f : Fdc) → Same f (write_sectors val f)
unfolding write_sectors
write_sectors-Same val f =
    let (p, g) = seek (command_side val f) f.track_reg f.sector_reg f in
    let s = seek-Same (command_side val f) f.track_reg f.sector_reg f in
    either-Same (is_null p) f _ _
      (record { same_drive = s.same_drive; same_disk = s.same_disk; same_mount = s.same_mount })
      (Same-trans f _ _
        (record { same_drive = s.same_drive; same_disk = s.same_disk; same_mount = s.same_mount })
        (marked-Same g.disk _))

find_address-Same : (n j : ℕ) (f : Fdc) → Same f (find_address n j f)
unfolding find_address
find_address-Same zero j f = Same-refl f
find_address-Same (suc n) j f =
    let (p, g) = seek f.side f.track j f in
    let s = seek-Same f.side f.track j f in
    let here : Same f (record g { ptr = p }) = record {
      same_drive = s.same_drive;
      same_disk = s.same_disk;
      same_mount = s.same_mount;
    } in
    either-Same (is_null p) f _ _
      (Same-trans f _ _ here (find_address-Same n (j + 1) (record g { ptr = p }))) here

pub some-Same : (f g : Fdc) → Same f g → Keeps f (some g)
some-Same f g s g' e = subst (Same f) (some-injective g g' e) s

pub none_same : (f : Fdc) → Keeps f none
none_same f g e = absurd (none-ne-some g e)

pub either-Keeps :
    (b : Bool) (f : Fdc) (o o' : Option Fdc)
    → Keeps f o
    → Keeps f o'
    → Keeps f (if b then o else o')
either-Keeps true f o o' k k' = k
either-Keeps false f o o' k k' = k'

format-Keeps : (p : Ptr) (f : Fdc) → Keeps f (format p f)
unfolding format
format-Keeps null f = some-Same f f (Same-refl f)
format-Keeps wild f = none_same f
format-Keeps (in_header d off) f = none_same f
format-Keeps (in_image d off) f =
    either-Keeps (leb (off + 5120) fdd_size) f _ _
      (some-Same f _ (
        Same-trans f _ _
          (record { same_drive = refl; same_disk = refl; same_mount = λ e. ground arith })
          (marked-Same f.disk _)))
      (none_same f)

pub then-Keeps :
    (f : Fdc) (o : Option Fdc) (next : Fdc → Option Fdc)
    → Keeps f o
    → ((g : Fdc) → Keeps g (next g))
    → Keeps f (elim o [ none ↦ none | some g ↦ next g ])
then-Keeps f none next k n = none_same f
then-Keeps f (some g) next k n = λ h e. Same-trans f g h (k g refl) (n g h e)

format_at : ℕ → Fdc → Option Fdc
format_at side f = let (p, g) = seek side f.track_reg 1 f in format p (record g { ptr = p })

format_at-Keeps : (side : ℕ) (f : Fdc) → Keeps f (format_at side f)
unfolding format_at
format_at-Keeps side f =
    let (p, g) = seek side f.track_reg 1 f in
    let s = seek-Same side f.track_reg 1 f in
    let here : Same f (record g { ptr = p }) = record {
      same_drive = s.same_drive;
      same_disk = s.same_disk;
      same_mount = s.same_mount;
    } in
    λ h e. Same-trans f _ h here (format-Keeps p (record g { ptr = p }) h e)

write_track-Keeps : (f : Fdc) → Keeps f (write_track f)
unfolding write_track format_at
write_track-Keeps f =
    then-Keeps f (format_at 0 f) (format_at 1) (format_at-Keeps 0 f) (format_at-Keeps 1)

searched-Same :
    (o : Option ℕ) (f : Fdc)
    → Same f (elim o [
      | none ↦ record f { ptr = null; status = bit_or f.status f_notfound; irq = wd_irq }
      | some d ↦
          let f' = find_address 256 0 f in
          if is_null f'.ptr
          then record f' { status = bit_or f'.status f_notfound; irq = wd_irq }
          else begin_transfer 6 (record f' { ptr = in_header d 0 })
    ])
searched-Same none f = record { same_drive = refl; same_disk = refl; same_mount = λ e. refl }
searched-Same (some d) f =
    let g = find_address 256 0 f in
    let s = find_address-Same 256 0 f in
    either-Same (is_null g.ptr) f _ _
      (record { same_drive = s.same_drive; same_disk = s.same_disk; same_mount = s.same_mount })
      (record { same_drive = s.same_drive; same_disk = s.same_disk; same_mount = s.same_mount })

read_address-Same : (f : Fdc) → Same f (read_address f)
unfolding read_address
read_address-Same f = searched-Same f.disk f

run_command-Keeps : (val : ℕ) (f : Fdc) → Keeps f (run_command val f)
unfolding run_command
run_command-Keeps val f =
    let code = bit_and val 0xf0 in
    either-Keeps (code == 0x00) f _ _ (some-Same f _ (restore-Same val f)) (
      either-Keeps (code == 0x10) f _ _ (some-Same f _ (seek_track-Same val f)) (
        either-Keeps (leb 0x20 code && leb code 0x70) f _ _ (some-Same f _ (step-Same val f)) (
          either-Keeps (code == 0x80 || code == 0x90) f _ _
            (some-Same f _ (read_sectors-Same val f))
            (either-Keeps (code == 0xa0 || code == 0xb0) f _ _
              (some-Same f _ (write_sectors-Same val f))
              (either-Keeps (code == 0xc0) f _ _ (some-Same f _ (read_address-Same f)) (
                either-Keeps (code == 0xf0) f _ _ (write_track-Keeps f)
                  (some-Same f f (Same-refl f))))))))

pub write_command-Keeps : (val : ℕ) (f : Fdc) → Keeps f (write_command val f)
unfolding write_command
write_command-Keeps val f =
    let g = record f { irq = 0 } in
    let none_run : Same f g = record {
      same_drive = refl;
      same_disk = refl;
      same_mount = λ e. refl;
    } in
    either-Keeps (bit_and val 0xf0 == 0xd0) f _ _
      (some-Same f _ (Same-trans f g _ none_run (force-Same val g)))
      (either-Keeps (nonzero (bit_and f.status f_busy)) f _ _ (some-Same f g none_run) (λ h e.
        Same-trans f g h none_run (
          let s = run_command-Keeps val (record g { status = 0; cmd = val }) h e in
          record {
            same_drive = s.same_drive;
            same_disk = s.same_disk;
            same_mount = s.same_mount;
          })))
