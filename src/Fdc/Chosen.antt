-- ===== src/Fdc/Chosen.antt =====
-- The chosen drive under every operation of the disk controller (libs/v6core/src/fdc_wd1793.cpp).
use v6emul.Base.{
  ℕ, ◌+◌, ◌%◌, ◌<◌, ◌≡◌, refl, sym, ◌∙◌, ap, arith, bit_and, Bool, true, false, ◌==◌, if◌then◌else◌,
  nonzero, Bool-cases, inl, inr, Option, none, u64, some, List, ltb, subst, update,
}
use mathlib.Core.Option.{some-injective, none-ne-some}
use v6emul.Fdc.{
  Fdc, FDisk, Ptr, null, wild, in_header, in_image, Port, command_port, track_port, sector_port,
  data_port, system_port, reset, on_disk, fdd_size, drives_max, load, store, dec32, f_busy,
}
use v6emul.Fdc.Access.{
  read, write, write_system, read_ready, read_data, write_data, read_status, advance, mount,
  mount_disk, dismount, reset_update,
}
use v6emul.Fdc.Keeps.{
  Same, Keeps, Same-refl, Same-trans, either-Same, some-Same, none_same, either-Keeps, then-Keeps,
  write_command-Keeps,
}

-- The drive that is chosen is the selected one, and it is mounted.
pub record IsChosen (f : Fdc) : Type 0 where
  pub drive_in : f.drive < 4
  pub chosen : (d : ℕ) → f.disk ≡ some d → (d ≡ f.drive) × ((f.disks d).mounted ≡ true)

Same-IsChosen : (f f' : Fdc) → Same f f' → IsChosen f → IsChosen f'
Same-IsChosen f f' s h = record {
  drive_in = ground (arith, s.same_drive, h.drive_in);
  chosen = λ d e.
      let c = h.chosen d (sym s.same_disk ∙ e) in (c.0 ∙ sym s.same_drive, s.same_mount d ∙ c.1);
}

advance-Same : (f : Fdc) → Same f (advance f)
unfolding advance
advance-Same f =
    either-Same (nonzero (dec32 f.rw_len)) f _ _
      (record { same_drive = refl; same_disk = refl; same_mount = λ e. refl })
      (record { same_drive = refl; same_disk = refl; same_mount = λ e. refl })

store-Keeps : (p : Ptr) (v : ℕ) (f : Fdc) → Keeps f (store p v f)
unfolding store
store-Keeps null v f = none_same f
store-Keeps wild v f = none_same f
store-Keeps (in_image d off) v f =
    either-Keeps (ltb off fdd_size) f _ _
      (some-Same f _
        (record { same_drive = refl; same_disk = refl; same_mount = λ e. ground arith }))
      (none_same f)
store-Keeps (in_header d off) v f =
    either-Keeps (ltb off 6) f _ _
      (some-Same f _
        (record { same_drive = refl; same_disk = refl; same_mount = λ e. ground arith }))
      (none_same f)

counted-Same :
    (d v : ℕ) (count : FDisk → FDisk) (f : Fdc)
    → ((k : FDisk) → (count k).mounted ≡ k.mounted)
    → Same f (advance (on_disk d count (record f { data_reg = v })))
counted-Same d v count f c =
    Same-trans f _ _
      (record {
        same_drive = refl;
        same_disk = refl;
        same_mount = λ e. ground (arith, c (f.disks d));
      })
      (advance-Same _)

write_counted :
    (o : Option ℕ) (v : ℕ) (f : Fdc)
    → Keeps f (elim o [
      | none ↦ none
      | some d ↦ some (
          advance (
            on_disk d
              (λ k. record k { updated = true; writes = u64 (k.writes + 1) })
              (record f { data_reg = v })))
    ])
write_counted none v f = none_same f
write_counted (some d) v f =
    some-Same f _ (
      counted-Same d v (λ k. record k { updated = true; writes = u64 (k.writes + 1) }) f
        (λ k. refl))

write_data-Keeps : (v : ℕ) (f : Fdc) → Keeps f (write_data v f)
unfolding write_data
write_data-Keeps v f =
    either-Keeps (nonzero f.rw_len) f _ _
      (then-Keeps f (store f.ptr v f) _ (store-Keeps f.ptr v f) (λ g. write_counted g.disk v g))
      (some-Same f _ (record { same_drive = refl; same_disk = refl; same_mount = λ e. refl }))

-- what `Read` leaves
abbrev left_by : Option (ℕ × Fdc) → Option Fdc
left_by none = none
left_by (some (v, g)) = some g

read_counted :
    (o : Option ℕ) (v : ℕ) (f : Fdc)
    → Keeps f (
        left_by (elim o [
          | none ↦ none
          | some d ↦ some (
            v,
            advance (
                on_disk d
                  (λ k. record k { reads = u64 (k.reads + 1) })
                  (record f { data_reg = v })),
          )
        ]))
read_counted none v f = none_same f
read_counted (some d) v f =
    some-Same f _ (counted-Same d v (λ k. record k { reads = u64 (k.reads + 1) }) f (λ k. refl))

read_loaded :
    (o : Option ℕ) (f : Fdc)
    → Keeps f (
        left_by (elim o [
          | none ↦ none
          | some v ↦ elim (f.disk) [
            | none ↦ none
            | some d ↦ some (
              v,
              advance (
                  on_disk d
                    (λ k. record k { reads = u64 (k.reads + 1) })
                    (record f { data_reg = v })),
            )
          ]
        ]))
read_loaded none f = none_same f
read_loaded (some v) f = read_counted f.disk v f

read_data-Keeps : (f : Fdc) → Keeps f (left_by (read_data f))
unfolding read_data
read_data-Keeps f = elim (Bool-cases (nonzero f.rw_len)) [
  | inl e ↦ simp (e) (read_loaded (load f.ptr f) f)
  | inr e ↦ simp (e) (some-Same f f (Same-refl f))
]

read-Keeps : (p : Port) (f : Fdc) → Keeps f (left_by (read p f))
unfolding read read_status read_ready
read-Keeps command_port f =
    some-Same f _ (record { same_drive = refl; same_disk = refl; same_mount = λ e. refl })
read-Keeps track_port f = some-Same f f (Same-refl f)
read-Keeps sector_port f = some-Same f f (Same-refl f)
read-Keeps data_port f = read_data-Keeps f
read-Keeps system_port f = some-Same f _ (
    either-Same (f.wait == 0) f _ _ (Same-refl f) (
      either-Same (f.wait == 1) f _ _
        (record { same_drive = refl; same_disk = refl; same_mount = λ e. refl })
        (record { same_drive = refl; same_disk = refl; same_mount = λ e. refl })))

kept-IsChosen : (f g : Fdc) (o : Option Fdc) → Keeps f o → IsChosen f → o ≡ some g → IsChosen g
kept-IsChosen f g o k h e = Same-IsChosen f g (k g e) h

write_system-IsChosen : (v : ℕ) (f : Fdc) → IsChosen (write_system v f)
unfolding write_system
write_system-IsChosen v f = record { drive_in = omega arith; chosen = λ d e. ground (arith, e) }

write-IsChosen : (p : Port) (v : ℕ) (f g : Fdc) → IsChosen f → write p v f ≡ some g → IsChosen g
unfolding write
write-IsChosen command_port v f g h e = kept-IsChosen f g _ (write_command-Keeps v f) h e
write-IsChosen track_port v f g h e =
    kept-IsChosen f g _
      (some-Same f _ (
        either-Same (nonzero (bit_and f.status f_busy)) f _ _ (Same-refl f)
          (record { same_drive = refl; same_disk = refl; same_mount = λ e. refl })))
      h e
write-IsChosen sector_port v f g h e =
    kept-IsChosen f g _
      (some-Same f _ (
        either-Same (nonzero (bit_and f.status f_busy)) f _ _ (Same-refl f)
          (record { same_drive = refl; same_disk = refl; same_mount = λ e. refl })))
      h e
write-IsChosen data_port v f g h e = kept-IsChosen f g _ (write_data-Keeps v f) h e
write-IsChosen system_port v f g h e =
    subst IsChosen (some-injective (write_system v f) g e) (write_system-IsChosen v f)

either-IsChosen : (b : Bool) (f g : Fdc) → IsChosen f → IsChosen g → IsChosen (if b then f else g)
either-IsChosen true f g h h' = h
either-IsChosen false f g h h' = h'

mounted_now : (bytes : List ℕ) (k g : FDisk) → mount_disk bytes k ≡ some g → g.mounted ≡ true
unfolding mount_disk
mounted_now bytes k g e = ground (arith, e)

mount-IsChosen :
    (idx : ℕ) (bytes : List ℕ) (f g : Fdc) → IsChosen f → mount idx bytes f ≡ some g → IsChosen g
unfolding mount reset
mount-IsChosen idx bytes f g h = go (mount_disk bytes (f.disks (idx % drives_max))) refl
  where
    go :
        (o : Option FDisk)
        → mount_disk bytes (f.disks (idx % drives_max)) ≡ o
        → elim o [
          | none ↦ none
          | some k ↦
              let f' = record f { disks = update f.disks (idx % drives_max) k } in
              some (if idx == f.drive then reset f' else f')
        ]
          ≡ some g
        → IsChosen g
    go none m e = absurd (none-ne-some g e)
    go (some k) m e =
        let on : k.mounted ≡ true = mounted_now bytes (f.disks (idx % drives_max)) k m in
        let f' : Fdc = record f { disks = update f.disks (idx % drives_max) k } in
        let put : IsChosen f' = record {
          drive_in = h.drive_in;
          chosen = λ d c. ground (arith, h.chosen d c, on);
        } in
        subst IsChosen (some-injective (if idx == f.drive then reset f' else f') g e) (
          either-IsChosen (idx == f.drive) (reset f') f'
            (record { drive_in = put.drive_in; chosen = put.chosen }) put)

dismounted :
    (idx : ℕ) (f : Fdc)
    → IsChosen f
    → (idx == f.drive) ≡ false
    → IsChosen (on_disk idx (λ k. record k { mounted = false }) f)
dismounted idx f h other = record {
  drive_in = h.drive_in;
  chosen = λ d c. ground (arith, h.chosen d c, other);
}

dismount-IsChosen : (idx : ℕ) (f g : Fdc) → IsChosen f → dismount idx f ≡ some g → IsChosen g
unfolding dismount
dismount-IsChosen idx f g h e = elim (Bool-cases (idx == f.drive)) [
  | inl same ↦ record { drive_in = ground (arith, h.drive_in); chosen = λ d c. ground (arith, c) }
  | inr other ↦ subst IsChosen (ground (arith)) (dismounted idx f h other)
]

reset_update-IsChosen :
    (idx : ℕ) (f g : Fdc) → IsChosen f → reset_update idx f ≡ some g → IsChosen g
unfolding reset_update
reset_update-IsChosen idx f g h e =
    kept-IsChosen f g _
      (either-Keeps (ltb idx drives_max) f _ _
        (some-Same f _
          (record { same_drive = refl; same_disk = refl; same_mount = λ d. ground arith }))
        (none_same f))
      h e

-- The program and the user, one access after the other, none of them a fault.
pub data Steps (f : Fdc) : Fdc → Type 0 where
  done : Steps f f
  wrote : (p : Port) (v : ℕ) (g h : Fdc) → Steps f g → write p v g ≡ some h → Steps f h
  has_read : (p : Port) (v : ℕ) (g h : Fdc) → Steps f g → read p g ≡ some (v, h) → Steps f h
  mounted_image :
      (idx : ℕ) (bytes : List ℕ) (g h : Fdc) → Steps f g → mount idx bytes g ≡ some h → Steps f h
  dismounted_image : (idx : ℕ) (g h : Fdc) → Steps f g → dismount idx g ≡ some h → Steps f h
  saved : (idx : ℕ) (g h : Fdc) → Steps f g → reset_update idx g ≡ some h → Steps f h

-- Reads and writes of all ports, mounting, dismounting and clearing the update flag, none of them a
-- fault, keep the choice of the drive valid: it is one of four, and if a disk is chosen, it is the
-- one of that drive and is mounted.
pub Steps-IsChosen : (f g : Fdc) → IsChosen f → Steps f g → IsChosen g
Steps-IsChosen f g i done = i
Steps-IsChosen f _ i (wrote p v g h s e) = write-IsChosen p v g h (Steps-IsChosen f g i s) e
Steps-IsChosen f _ i (has_read p v g h s e) =
    kept-IsChosen g h _ (read-Keeps p g) (Steps-IsChosen f g i s) (ap left_by e)
Steps-IsChosen f _ i (mounted_image idx bytes g h s e) =
    mount-IsChosen idx bytes g h (Steps-IsChosen f g i s) e
Steps-IsChosen f _ i (dismounted_image idx g h s e) =
    dismount-IsChosen idx g h (Steps-IsChosen f g i s) e
Steps-IsChosen f _ i (saved idx g h s e) = reset_update-IsChosen idx g h (Steps-IsChosen f g i s) e
