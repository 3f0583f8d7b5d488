-- ===== src/Memory/RamDisk.antt =====
-- `SetRamDiskMode` and `IsException`: which RAM disk is mapped, and when two of them collide.
use v6emul.Base.{ℕ, ◌+◌, ◌≡◌, refl, arith, min}
use v6emul.Base.{List, [], ◌∷◌, set, ltb, if◌then◌else◌}
use v6emul.Memory.{Memory, mode_enabled, scan_mappings, set_ram_disk_mode, is_exception}

-- The first enabled mapping and its index, or else what is given.
pub first_mapping : List ℕ → ℕ → ℕ
first_mapping [] other = other
first_mapping (d ∷ ds) other = if mode_enabled d then d else first_mapping ds other

pub first_index : List ℕ → ℕ → ℕ → ℕ
first_index [] idx other = other
first_index (d ∷ ds) idx other = if mode_enabled d then idx else first_index ds (idx + 1) other

pub count_enabled : List ℕ → ℕ
count_enabled [] = 0
count_enabled (d ∷ ds) = if mode_enabled d then count_enabled ds + 1 else count_enabled ds

record Scanned (m : Memory) (mapping idx enabled : ℕ) : Type 0 where
  mapped : m.mapping ≡ mapping
  index : m.ramdisk_idx ≡ idx
  count : m.mappings_enabled ≡ enabled

scan_again :
    (ds : List ℕ) (idx : ℕ) (m : Memory)
    → m.mappings_enabled ≡ 1
    → Scanned (scan_mappings ds idx m) m.mapping m.ramdisk_idx (min 2 (count_enabled ds + 1))
unfolding scan_mappings count_enabled
scan_again [] idx m h = ground arith
scan_again (d ∷ ds) idx m h = ground (arith, scan_again ds (idx + 1) m h)

scan_first :
    (ds : List ℕ) (idx : ℕ) (m : Memory)
    → m.mappings_enabled ≡ 0
    → Scanned
        (scan_mappings ds idx m)
        (first_mapping ds m.mapping)
        (first_index ds idx m.ramdisk_idx)
        (min 2 (count_enabled ds))
unfolding scan_mappings count_enabled first_mapping first_index
scan_first [] idx m h = ground arith
scan_first (d ∷ ds) idx m h = ground (
  arith,
  scan_first ds (idx + 1) m,
  scan_again ds (idx + 1)
      (record m { mappings_enabled = m.mappings_enabled + 1; mapping = d; ramdisk_idx = idx }),
)

-- `SetRamDiskMode` maps the first RAM disk whose mapping byte enables a mode; with none, the
-- mapping is off and the selected disk stays. `IsException` then reports a collision exactly if at
-- least two disks are enabled.
pub set_ram_disk_mode_lem :
    (disk value : ℕ) (m : Memory)
    → let ds = set m.mappings disk value in
      let m' = set_ram_disk_mode disk value m in
      (m'.mapping ≡ first_mapping ds 0)
      × (m'.ramdisk_idx ≡ first_index ds 0 m.ramdisk_idx)
      × ((is_exception m').0 ≡ ltb 1 (count_enabled ds))
unfolding set_ram_disk_mode is_exception
set_ram_disk_mode_lem disk value m = ground (
  arith,
  scan_first (set m.mappings disk value) 0
      (record m { mappings = set m.mappings disk value; mapping = 0; mappings_enabled = 0 }) refl,
)
