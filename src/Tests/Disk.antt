-- ===== src/Tests/Disk.antt =====
-- Concrete runs of the disk controller.
use v6emul.Base.{
  ℕ, ◌%◌, ◌≡◌, refl, arith, true, false, ◌==◌, none, some, List, [], ◌∷◌, replicate, if◌then◌else◌,
}
use v6emul.Fdc.{Fdc, FDisk, new_fdc, new_disk, reset, in_image, system_port, data_port}
use v6emul.Fdc.Access.{read, write, write_system, mount, mount_disk}
use v6emul.Fdc.Sectors.{IsIdle, bytes_of, write_run}
use v6emul.Fdc.RoundTrip.{read_again}
use v6emul.Fdc.RoundTrip
use v6emul.Fdc.Watchdog.{IsLost, poll_ready}
use v6emul.Fdc.Watchdog
use v6emul.Fdc.Chosen.{IsChosen, Steps, done, wrote, mounted_image}
use v6emul.Fdc.Chosen

-- a drive with an image, at the second sector of a track
abbrev image_disk : FDisk
image_disk = record new_disk { image = λ i. i % 256; mounted = true }

abbrev idle : Fdc
idle = record new_fdc {
  disks = λ d. image_disk;
  disk = some 0;
  track_reg = 3;
  sector_reg = 2;
  side = 1;
}

idle-IsIdle : IsIdle 0 idle
unfolding new_fdc reset
idle-IsIdle = record {
  not_busy = refl;
  selected = refl;
  mounted = refl;
  side_in = omega arith;
  track_in = omega arith;
  sector_pos = omega arith;
  sector_in = omega arith;
}

abbrev new_bytes : List ℕ
new_bytes = replicate 1023 0xe5

read_again-write_run_example :
    (f1 f2 : Fdc) × (write_run 0xa0 (7 ∷ new_bytes) idle ≡ some f1)
    × (read_again false idle.sector_reg (bytes_of false idle) f1 ≡ some (7 ∷ new_bytes, f2))
read_again-write_run_example =
    RoundTrip.read_again-write_run 0 false 7 new_bytes idle idle-IsIdle refl

-- a transfer with its watchdog near the end
abbrev busy : Fdc
busy = record idle { ptr = in_image 0 5000; rw_len = 24; status = 3; wait = 3 }

poll_ready-IsLost_example : IsLost busy (poll_ready 3 busy)
poll_ready-IsLost_example = Watchdog.poll_ready-IsLost 2 busy refl

-- the same with no image in drive 2
abbrev one_drive : Fdc
one_drive = record busy { disks = λ d. if d == 0 then image_disk else new_disk }

write_system-fault_example :
    (read data_port (write_system 2 one_drive) ≡ none)
    × ((w : ℕ) → write data_port w (write_system 2 one_drive) ≡ none)
unfolding new_disk
write_system-fault_example =
    Watchdog.write_system-fault 0 5000 23 2 one_drive
      (record { place = refl; left = refl; selected = refl; fits = omega arith }) refl

-- an image is mounted, then its drive is chosen
abbrev after_mount : Fdc
after_mount = elim (mount 1 (1 ∷ 2 ∷ 3 ∷ []) new_fdc) [ none ↦ new_fdc | some g ↦ g ]

new_fdc-IsChosen : IsChosen new_fdc
unfolding new_fdc reset
new_fdc-IsChosen = record { drive_in = omega arith; chosen = λ d e. ground (arith, e) }

chosen-Steps : Steps new_fdc (write_system 0x31 after_mount)
unfolding mount mount_disk new_fdc reset write
chosen-Steps =
    wrote system_port 0x31 after_mount _
      (mounted_image 1 (1 ∷ 2 ∷ 3 ∷ []) new_fdc after_mount done refl) refl

Steps-IsChosen_example : IsChosen (write_system 0x31 after_mount)
Steps-IsChosen_example =
    Chosen.Steps-IsChosen new_fdc (write_system 0x31 after_mount) new_fdc-IsChosen chosen-Steps
