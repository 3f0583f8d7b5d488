-- ===== src/Fdc/RoundTrip.antt =====
-- Sectors that are written and then read back by the disk controller (libs/v6core/src/fdc_wd1793.cpp).
use v6emul.Base.{
  ℕ, ◌≡◌, refl, sym, ◌∙◌, ap, ap₂, arith, bit_and, Bool, true, false, Option, none, some, List, ◌∷◌,
  length,
}
use v6emul.Fdc.{Fdc, sector_port}
use v6emul.Fdc.Access.{write}
use v6emul.Fdc.Transfer.{slice, image_of}
use v6emul.Fdc.Sectors.{
  IsIdle, Finished, read_code, write_code, bytes_of, offset_of, read_run, write_run, read_run_lem,
  write_run_lem,
}

-- the program sets the sector register, then reads from there
unfoldable pub read_again : Bool → ℕ → ℕ → Fdc → Option (List ℕ × Fdc)
read_again multi sector n f = elim (write sector_port sector f) [
  | none ↦ none
  | some g ↦ read_run (read_code multi) n g
]

-- the sector register set on an idle controller
set_sector :
    (d v : ℕ) (f f1 : Fdc)
    → Finished d f f1
    → write sector_port v f1 ≡ some (record f1 { sector_reg = v })
unfolding write
set_sector d v f f1 done = simp (done.status_clear)

IsIdle-again :
    (d : ℕ) (f f1 : Fdc)
    → IsIdle d f
    → Finished d f f1
    → IsIdle d (record f1 { sector_reg = f.sector_reg })
IsIdle-again d f f1 h done = record {
  not_busy = ap (λ v. bit_and v 1) (done.status_clear);
  selected = done.same_place.2;
  mounted = done.same_mounts d ∙ h.mounted;
  side_in = ground (arith, h.side_in, done.same_place.1);
  track_in = ground (arith, h.track_in, done.same_place.0);
  sector_pos = h.sector_pos;
  sector_in = h.sector_in;
}

same_len :
    (multi : Bool) (f f1 : Fdc)
    → bytes_of multi (record f1 { sector_reg = f.sector_reg }) ≡ bytes_of multi f
same_len false f f1 = refl
same_len true f f1 = refl

same_offset :
    (d : ℕ) (f f1 : Fdc)
    → Finished d f f1
    → offset_of (record f1 { sector_reg = f.sector_reg }) ≡ offset_of f
same_offset d f f1 done = simp (done.same_place.0, done.same_place.1)

-- From a controller that is not busy, with a mounted drive and registers that name a sector, the
-- command to write sectors takes as many bytes as it transfers; after it, with the sector register
-- set back, the command to read sectors gives those bytes. It holds for one sector and for those up
-- to the end of the track.
pub read_again-write_run :
    (d : ℕ) (multi : Bool) (v : ℕ) (vs : List ℕ) (f : Fdc)
    → IsIdle d f
    → length (v ∷ vs) ≡ bytes_of multi f
    → (f1 f2 : Fdc) × (write_run (write_code multi) (v ∷ vs) f ≡ some f1)
      × (read_again multi f.sector_reg (bytes_of multi f) f1 ≡ some (v ∷ vs, f2))
unfolding read_again
read_again-write_run d multi v vs f h len =
    let (f1, e, done, w) = write_run_lem d multi v vs f h len in
    let g : Fdc = record f1 { sector_reg = f.sector_reg } in
    let (f2, e2, done2, k2) = read_run_lem d multi g (IsIdle-again d f f1 h done) in
    let there : slice (image_of g d) (offset_of g) (bytes_of multi g) ≡ v ∷ vs =
      ap₂ (slice (image_of f1 d)) (same_offset d f f1 done) (same_len multi f f1 ∙ sym len)
      ∙ w.bytes_there in
    let reads : read_run (read_code multi) (bytes_of multi f) g ≡ some (v ∷ vs, f2) =
      ap (λ n. read_run (read_code multi) n g) (sym (same_len multi f f1))
      ∙ e2
      ∙ ap (λ l. some (l, f2)) there in
    (f1, f2, e, rw (set_sector d f.sector_reg f f1 done, read_again) reads)
