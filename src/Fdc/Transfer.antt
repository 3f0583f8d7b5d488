-- ===== src/Fdc/Transfer.antt =====
-- The transfer of bytes through Port::DATA of the disk controller (libs/v6core/src/fdc_wd1793.cpp).
use v6emul.Base.{
  ℕ, zero, suc, ◌+◌, ◌≤◌, ◌<◌, ◌≡◌, refl, ◌∙◌, ap, ap₂, subst, arith, bit_and, true, ltb, ◌==◌,
  if◌then◌else◌, update, Option, none, some, List, [], ◌∷◌, length, u64, suc_nonzero, inl, ◌⊎◌,
}
use v6emul.Fdc.{Fdc, in_image, load, store, dec32, on_disk, fdd_size}
use v6emul.Fdc.Access.{read_data, write_data, advance}

-- `n` reads and the writes of a list of bytes, one after the other
unfoldable pub read_bytes : ℕ → Fdc → Option (List ℕ × Fdc)
read_bytes zero f = some ([], f)
read_bytes (suc n) f = elim (read_data f) [
  | none ↦ none
  | some (v, f1) ↦ elim (read_bytes n f1) [ none ↦ none | some (vs, f2) ↦ some (v ∷ vs, f2) ]
]

unfoldable pub write_bytes : List ℕ → Fdc → Option Fdc
write_bytes [] f = some f
write_bytes (v ∷ vs) f = elim (write_data v f) [ none ↦ none | some f1 ↦ write_bytes vs f1 ]

-- the bytes of an image from an offset on
abbrev pub slice : (ℕ → ℕ) → ℕ → ℕ → List ℕ
slice g p zero = []
slice g p (suc n) = g p ∷ slice g (p + 1) n

abbrev pub image_of : Fdc → ℕ → ℕ → ℕ
image_of f d = (f.disks d).image

-- `n` bytes are left, from the offset `p` of the image in drive `d`.
pub record IsTransfer (d p n : ℕ) (f : Fdc) : Type 0 where
  pub place : f.ptr ≡ in_image d p
  pub left : f.rw_len ≡ n
  pub selected : f.disk ≡ some d
  pub fits : p + n ≤ fdd_size

-- a choice at the end of a transfer
abbrev pub at_end : ℕ → ℕ → ℕ → ℕ
at_end zero last other = last
at_end (suc n) last other = other

-- what `advance` leaves of the registers
pub record Advanced (n : ℕ) (f f' : Fdc) : Type 0 where
  pub status_kept : f'.status ≡ at_end n (bit_and f.status 0xfc) f.status
  pub irq_raised : f'.irq ≡ at_end n 0x80 f.irq
  pub same_track : f'.track_reg ≡ f.track_reg
  pub same_side : f'.side ≡ f.side
  pub same_mount : (e : ℕ) → (f'.disks e).mounted ≡ (f.disks e).mounted

abbrev pub ImageKept : Fdc → Fdc → Type 0
ImageKept f f' = (e i : ℕ) → image_of f' e i ≡ image_of f e i

-- the last byte, and one before it
advance_last :
    (d p : ℕ) (f : Fdc)
    → IsTransfer d p 1 f
    → IsTransfer d (p + 1) 0 (advance f) × Advanced 0 f (advance f) × ImageKept f (advance f)
unfolding advance
advance_last d p f t =
    simp (t.left, t.place)
      (
        record { place = refl; left = refl; selected = t.selected; fits = omega (arith, t.fits) },
        record {
          status_kept = refl;
          irq_raised = refl;
          same_track = refl;
          same_side = refl;
          same_mount = λ e. refl;
        },
        λ e i. refl,
      )

advance_more :
    (d p n : ℕ) (f : Fdc)
    → IsTransfer d p (suc (suc n)) f
    → IsTransfer d (p + 1) (suc n) (advance f)
      × Advanced (suc n) f (advance f)
      × ImageKept f (advance f)
unfolding advance
advance_more d p n f t =
    let down : dec32 (suc (suc n)) ≡ suc n = omega (arith, t.fits) in
    simp (t.left, t.place, down, suc_nonzero)
      (
        record { place = refl; left = refl; selected = t.selected; fits = omega (arith, t.fits) },
        record {
          status_kept = refl;
          irq_raised = refl;
          same_track = refl;
          same_side = refl;
          same_mount = λ e. refl;
        },
        λ e i. refl,
      )

-- one byte, the last or not
pub advance_lem :
    (d p n : ℕ) (f : Fdc)
    → IsTransfer d p (suc n) f
    → IsTransfer d (p + 1) n (advance f) × Advanced n f (advance f) × ImageKept f (advance f)
advance_lem d p zero f t = advance_last d p f t
advance_lem d p (suc n) f t = advance_more d p n f t

-- A read of the port gives the byte at the place.
pub read_data_lem :
    (d p n : ℕ) (f : Fdc)
    → IsTransfer d p (suc n) f
    → (f' : Fdc) × (read_data f ≡ some (image_of f d p, f'))
      × IsTransfer d (p + 1) n f'
      × Advanced n f f'
      × ImageKept f f'
read_data_lem d p n f t = (advance g, reads, result.0, stays, λ e i. result.2 e i ∙ kept e i)
  where
    g : Fdc
    g =
        on_disk d (λ k. record k { reads = u64 (k.reads + 1) })
          (record f { data_reg = image_of f d p })

    reads : read_data f ≡ some (image_of f d p, advance g)
    reads =
        unfold read_data load in
        let inside : ltb p fdd_size ≡ true = ground (arith, t.fits) in
        simp (t.left, t.place, t.selected, inside, suc_nonzero)

    kept : ImageKept f g
    kept e i = ground arith

    result : IsTransfer d (p + 1) n (advance g) × Advanced n g (advance g) × ImageKept g (advance g)
    result =
        advance_lem d p n g
          (record { place = t.place; left = t.left; selected = t.selected; fits = t.fits })

    stays : Advanced n f (advance g)
    stays =
        let a = result.1 in
        record {
          status_kept = a.status_kept;
          irq_raised = a.irq_raised;
          same_track = a.same_track;
          same_side = a.same_side;
          same_mount = λ e. a.same_mount e ∙ ground arith;
        }

write_data_lem :
    (d p n v : ℕ) (f : Fdc)
    → IsTransfer d p (suc n) f
    → (f' : Fdc) × (write_data v f ≡ some f')
      × IsTransfer d (p + 1) n f'
      × Advanced n f f'
      × ((i : ℕ) → image_of f' d i ≡ (if p == i then v else image_of f d i))
write_data_lem d p n v f t = (advance g, writes, result.0, stays, λ i. result.2 d i ∙ changed i)
  where
    g0 : Fdc
    g0 = on_disk d (λ k. record k { image = update k.image p v }) f

    g : Fdc
    g =
        on_disk d (λ k. record k { updated = true; writes = u64 (k.writes + 1) })
          (record g0 { data_reg = v })

    writes : write_data v f ≡ some (advance g)
    writes =
        unfold write_data store in
        let inside : ltb p fdd_size ≡ true = ground (arith, t.fits) in
        simp (t.left, t.place, t.selected, inside, suc_nonzero)

    changed : (i : ℕ) → image_of g d i ≡ (if p == i then v else image_of f d i)
    changed i = ground arith

    result : IsTransfer d (p + 1) n (advance g) × Advanced n g (advance g) × ImageKept g (advance g)
    result =
        advance_lem d p n g
          (record { place = t.place; left = t.left; selected = t.selected; fits = t.fits })

    stays : Advanced n f (advance g)
    stays =
        let a = result.1 in
        record {
          status_kept = a.status_kept;
          irq_raised = a.irq_raised;
          same_track = a.same_track;
          same_side = a.same_side;
          same_mount = λ e. a.same_mount e ∙ ground arith;
        }

pub slice_congr : (g h : ℕ → ℕ) (p n : ℕ) → ((i : ℕ) → g i ≡ h i) → slice g p n ≡ slice h p n
slice_congr g h p zero e = refl
slice_congr g h p (suc n) e = ap₂ ◌∷◌ (e p) (slice_congr g h (p + 1) n e)

-- Two runs in a row.
join-Advanced : (n : ℕ) (f f1 f2 : Fdc) → Advanced (suc n) f f1 → Advanced 0 f1 f2 → Advanced 0 f f2
join-Advanced n f f1 f2 a b = record {
  status_kept = b.status_kept ∙ ap (λ v. bit_and v 0xfc) a.status_kept;
  irq_raised = b.irq_raised;
  same_track = b.same_track ∙ a.same_track;
  same_side = b.same_side ∙ a.same_side;
  same_mount = λ e. b.same_mount e ∙ a.same_mount e;
}

moved :
    (d p n : ℕ) (f : Fdc) → IsTransfer d (p + 1 + suc n) 0 f → IsTransfer d (p + suc (suc n)) 0 f
moved d p n f t =
    let q : p + 1 + suc n ≡ p + suc (suc n) = omega arith in subst (λ x. IsTransfer d x 0 f) q t

-- A transfer of `suc n` bytes to its end.
pub read_bytes_lem :
    (n d p : ℕ) (f : Fdc)
    → IsTransfer d p (suc n) f
    → (f' : Fdc) × (read_bytes (suc n) f ≡ some (slice (image_of f d) p (suc n), f'))
      × IsTransfer d (p + suc n) 0 f'
      × Advanced 0 f f'
      × ImageKept f f'
unfolding read_bytes
read_bytes_lem zero d p f t =
    let (f', e, t', a, k) = read_data_lem d p 0 f t in (f', rw (e, read_bytes) refl, t', a, k)
read_bytes_lem (suc n) d p f t =
    let (f1, e1, t1, a1, k1) = read_data_lem d p (suc n) f t in
    let (f2, e2, t2, a2, k2) = read_bytes_lem n d (p + 1) f1 t1 in
    (
      f2,
      rw (e1, read_bytes)
          (rw (e2, slice_congr (image_of f1 d) (image_of f d) (p + 1) (suc n) (k1 d)) refl),
      moved d p n f2 t2,
      join-Advanced n f f1 f2 a1 a2,
      λ e i. k2 e i ∙ k1 e i,
    )

-- The image after bytes are written from `p` on.
pub record Written (p : ℕ) (vs : List ℕ) (g h : ℕ → ℕ) : Type 0 where
  pub bytes_there : slice h p (length vs) ≡ vs
  pub rest_kept : (i : ℕ) → (i < p) ⊎ (p + length vs ≤ i) → h i ≡ g i

pub write_bytes_lem :
    (vs : List ℕ) (d p v : ℕ) (f : Fdc)
    → IsTransfer d p (length (v ∷ vs)) f
    → (f' : Fdc) × (write_bytes (v ∷ vs) f ≡ some f')
      × IsTransfer d (p + length (v ∷ vs)) 0 f'
      × Advanced 0 f f'
      × Written p (v ∷ vs) (image_of f d) (image_of f' d)
unfolding write_bytes
write_bytes_lem [] d p v f t =
    let (f', e, t', a, k) = write_data_lem d p 0 v f t in
    (
      f',
      rw (e, write_bytes) refl,
      t',
      a,
      record {
        bytes_there = ap (λ x. x ∷ []) (k p ∙ ground arith);
        rest_kept = λ i o. k i ∙ ground (arith, o);
      },
    )
write_bytes_lem (w ∷ vs) d p v f t =
    let (f1, e1, t1, a1, k1) = write_data_lem d p (suc (length vs)) v f t in
    let (f2, e2, t2, a2, k2) = write_bytes_lem vs d (p + 1) w f1 t1 in
    (
      f2,
      rw (e1, write_bytes) e2,
      moved d p (length vs) f2 t2,
      join-Advanced (length vs) f f1 f2 a1 a2,
      record {
        bytes_there =
            ap₂ ◌∷◌ (k2.rest_kept p (inl (omega arith)) ∙ k1 p ∙ ground arith) k2.bytes_there;
        rest_kept = λ i o. k2.rest_kept i (ground (arith, o)) ∙ k1 i ∙ ground (arith, o);
      },
    )
